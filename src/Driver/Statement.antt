-- ===== src/Driver/Statement.antt =====
-- driver.go: a prepared statement and a transaction of a wrapped connection.
use go_txnproof.Prelude.{ℕ, List, Option, none, some, Bytes, if◌then◌else◌}
use go_txnproof.Classify.{StatementKind}
use go_txnproof.Report.{Context, background}
use go_txnproof.Session.{observe_kind, end_tx}
use go_txnproof.Driver.{
  DriverError, NamedValue, Reply, DriverTx, WrappedConn, WrappedStmt, bad_conn,
  named_values_to_values, with_values,
}

module _ {S D : Type 0} where
  -- `session.observeKind` on the connection.
  unfoldable pub observe_kind_on :
      Context → Bytes → StatementKind → ℕ → WrappedConn S D → WrappedConn S D
  observe_kind_on ctx query kind now c =
      let (w, s) = observe_kind c.world c.session ctx query kind now in
      record c { world = w; session = s }

  -- `session.EndTx` behind the driver's answer.
  unfoldable pub ended :
      WrappedConn S D → Option DriverError × D → Option DriverError × WrappedConn S D
  ended c (err, d) = (err, record c { session = end_tx c.session; drv = d })

  -- `Commit`
  unfoldable pub commit_on : DriverTx D → WrappedConn S D → Option DriverError × WrappedConn S D
  commit_on tx c = ended c (tx.commit c.drv)

  -- `Rollback`
  unfoldable pub rollback_on : DriverTx D → WrappedConn S D → Option DriverError × WrappedConn S D
  rollback_on tx c = ended c (tx.rollback c.drv)

-- The context method of the statement, or its legacy method.
unfoldable pub stmt_direct :
    {D R : Type 0}
    → Option (Context → List NamedValue → D → Reply R × D)
    → (List ℕ → D → Reply R × D)
    → Context
    → List NamedValue
    → D
    → Reply R × D
stmt_direct (some method) legacy ctx args d = method ctx args d
stmt_direct none legacy ctx args d = with_values legacy (named_values_to_values args) d

module _ {S D R : Type 0} where
  -- What the four methods of a statement do with the reply of the driver.
  unfoldable pub stmt_reply :
      WrappedStmt D R → Context → ℕ → WrappedConn S D → Reply R × D → Reply R × WrappedConn S D
  stmt_reply st ctx now c ((res, err), d) =
      let c' = record c { drv = d } in
      if bad_conn err
      then ((none, err), c')
      else ((res, err), observe_kind_on ctx st.query st.kind now c')

  -- `Exec`
  unfoldable pub stmt_exec :
      WrappedStmt D R → List ℕ → ℕ → WrappedConn S D → Reply R × WrappedConn S D
  stmt_exec st args now c = stmt_reply st background now c (st.stmt.exec args c.drv)

  -- `Query`
  unfoldable pub stmt_query :
      WrappedStmt D R → List ℕ → ℕ → WrappedConn S D → Reply R × WrappedConn S D
  stmt_query st args now c = stmt_reply st background now c (st.stmt.query args c.drv)

  -- `ExecContext`
  unfoldable pub stmt_exec_context :
      WrappedStmt D R → Context → List NamedValue → ℕ → WrappedConn S D → Reply R × WrappedConn S D
  stmt_exec_context st ctx args now c =
      stmt_reply st ctx now c (stmt_direct st.stmt.exec_context st.stmt.exec ctx args c.drv)

  -- `QueryContext`
  unfoldable pub stmt_query_context :
      WrappedStmt D R → Context → List NamedValue → ℕ → WrappedConn S D → Reply R × WrappedConn S D
  stmt_query_context st ctx args now c =
      stmt_reply st ctx now c (stmt_direct st.stmt.query_context st.stmt.query ctx args c.drv)
