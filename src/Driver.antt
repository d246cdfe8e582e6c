-- ===== src/Driver.antt =====
-- driver.go: a connection of database/sql whose statements a session observes. The wrapped driver is
-- a parameter: its methods act on a state `D` of its own.
pub mod Statement
pub mod Extras
pub mod Refines
pub mod Calls
use go_txnproof.Prelude.{
  ℕ, Bool, true, false, ◌&&◌, List, [], ◌∷◌, Option, none, some, Bytes, bytes_eq, ◌==◌,
  if◌then◌else◌,
}
use go_txnproof.Classify.{StatementKind}
use go_txnproof.Report.{Context}
use go_txnproof.Detector.{World}
use go_txnproof.Session.{Session, new_session, observe, begin_tx}

-- An error by what `errors.Is` finds in it.
pub record DriverError : Type 0 where
  pub is_skip : Bool
  pub is_bad_conn : Bool
  pub text : Bytes

abbrev pub err_skip : DriverError
err_skip = record { is_skip = true; is_bad_conn = false; text = [] }

-- The errors of the package's own.
abbrev pub own_error : DriverError
own_error = record { is_skip = false; is_bad_conn = false; text = [] }

-- errors.Is(err, driver.ErrSkip) and errors.Is(err, driver.ErrBadConn).
abbrev pub skips : Option DriverError → Bool
skips none = false
skips (some e) = e.is_skip

abbrev pub bad_conn : Option DriverError → Bool
bad_conn none = false
bad_conn (some e) = e.is_bad_conn

-- `driver.NamedValue`; a value is never looked into.
pub record NamedValue : Type 0 where
  pub name : Bytes
  pub value : ℕ

-- `driver.TxOptions`
pub record TxOptions : Type 0 where
  pub isolation : ℕ
  pub read_only : Bool

abbrev pub is_default : TxOptions → Bool
is_default o = if o.read_only then false else o.isolation == 0

-- A result and an error, either of which may be nil.
abbrev pub Reply : Type 0 → Type 0
Reply R = Option R × Option DriverError

-- `driver.Tx`
pub record DriverTx (D : Type 0) : Type 0 where
  pub commit : D → Option DriverError × D
  pub rollback : D → Option DriverError × D

-- `driver.Stmt`, and the interfaces that it may have besides. `R` is the type of results and rows.
pub record DriverStmt (D R : Type 0) : Type 0 where
  pub exec : List ℕ → D → Reply R × D
  pub query : List ℕ → D → Reply R × D
  pub exec_context : Option (Context → List NamedValue → D → Reply R × D)
  pub query_context : Option (Context → List NamedValue → D → Reply R × D)

-- `driver.Conn`, and the interfaces that it may have besides.
pub record DriverConn (D R : Type 0) : Type 0 where
  pub prepare : Bytes → D → Reply (DriverStmt D R) × D
  pub prepare_context : Option (Context → Bytes → D → Reply (DriverStmt D R) × D)
  pub begin : D → Reply (DriverTx D) × D
  pub begin_tx : Option (Context → TxOptions → D → Reply (DriverTx D) × D)
  pub execer_context : Option (Context → Bytes → List NamedValue → D → Reply R × D)
  pub execer : Option (Bytes → List ℕ → D → Reply R × D)
  pub queryer_context : Option (Context → Bytes → List NamedValue → D → Reply R × D)
  pub queryer : Option (Bytes → List ℕ → D → Reply R × D)

-- `wrappedConn` in its world: the session of the connection and the state of the driver.
pub record WrappedConn (S D : Type 0) : Type 0 where
  pub world : World S
  pub session : Session
  pub drv : D

-- `wrappedStmt`, which knows the kind of its text.
pub record WrappedStmt (D R : Type 0) : Type 0 where
  pub stmt : DriverStmt D R
  pub query : Bytes
  pub kind : StatementKind

-- `namedValuesToValues`; none is its error.
unfoldable pub named_values_to_values : List NamedValue → Option (List ℕ)
named_values_to_values [] = some []
named_values_to_values (nv ∷ named) =
    let rest = named_values_to_values named in
    if bytes_eq nv.name []
    then elim rest [ none ↦ none | some vals ↦ some (nv.value ∷ vals) ]
    else none

-- A legacy method behind `namedValuesToValues`.
unfoldable pub with_values :
    {D R : Type 0} → (List ℕ → D → Reply R × D) → Option (List ℕ) → D → Reply R × D
with_values method none d = ((none, some own_error), d)
with_values method (some vals) d = method vals d

-- The two interfaces in their order; with neither of them, `driver.ErrSkip`.
unfoldable pub direct :
    {D R : Type 0}
    → Option (Context → Bytes → List NamedValue → D → Reply R × D)
    → Option (Bytes → List ℕ → D → Reply R × D)
    → Context
    → Bytes
    → List NamedValue
    → D
    → Reply R × D
direct (some method) legacy ctx query args d = method ctx query args d
direct none (some method) ctx query args d =
    with_values (method query) (named_values_to_values args) d
direct none none ctx query args d = ((none, some err_skip), d)

module _ {S D : Type 0} where
  -- `wrappedDriver.Open` and `wrappedConnector.Connect` on a connection that was opened.
  unfoldable pub opened : World S → D → WrappedConn S D
  opened w d = record { world = w; session = new_session; drv = d }

  -- `observe`
  unfoldable pub observe_on : Context → Bytes → ℕ → WrappedConn S D → WrappedConn S D
  observe_on ctx query now c =
      let (w, s) = observe c.world c.session ctx query now in record c { world = w; session = s }

  -- The session's `BeginTx` behind a transaction that the driver began.
  unfoldable pub begun :
      WrappedConn S D → Reply (DriverTx D) × D → Reply (DriverTx D) × WrappedConn S D
  begun c ((tx, some e), d) = ((none, some e), record c { drv = d })
  begun c ((tx, none), d) =
      let (w, s) = begin_tx c.world c.session in
      ((tx, none), record { world = w; session = s; drv = d })

module _ {S D R : Type 0} where
  -- What `ExecContext` and `QueryContext` do with the reply of the driver.
  unfoldable pub direct_reply :
      Context → Bytes → ℕ → WrappedConn S D → Reply R × D → Reply R × WrappedConn S D
  direct_reply ctx query now c ((res, err), d) =
      let c' = record c { drv = d } in
      if skips err
      then ((none, some err_skip), c')
      else if bad_conn err
      then ((none, err), c')
      else ((res, err), observe_on ctx query now c')

  -- `ExecContext`
  unfoldable pub exec_context :
      DriverConn D R
      → Context
      → Bytes
      → List NamedValue
      → ℕ
      → WrappedConn S D
      → Reply R × WrappedConn S D
  exec_context conn ctx query args now c =
      direct_reply ctx query now c (direct conn.execer_context conn.execer ctx query args c.drv)

  -- `QueryContext`
  unfoldable pub query_context :
      DriverConn D R
      → Context
      → Bytes
      → List NamedValue
      → ℕ
      → WrappedConn S D
      → Reply R × WrappedConn S D
  query_context conn ctx query args now c =
      direct_reply ctx query now c (direct conn.queryer_context conn.queryer ctx query args c.drv)

  -- `if err != nil { return nil, err }`, else the wrapped statement. The interface of the driver
  -- excludes a nil statement with no error.
  unfoldable pub wrap_stmt :
      Bytes
      → WrappedConn S D
      → Reply (DriverStmt D R) × D
      → Reply (WrappedStmt D R) × WrappedConn S D
  wrap_stmt query c ((stmt, some e), d) = ((none, some e), record c { drv = d })
  wrap_stmt query c ((none, none), d) = ((none, none), record c { drv = d })
  wrap_stmt query c ((some stmt, none), d) = (
    (some (record { stmt = stmt; query = query; kind = c.world.det.classify query }), none),
    record c { drv = d },
  )

  -- `Prepare`
  unfoldable pub prepare :
      DriverConn D R → Bytes → WrappedConn S D → Reply (WrappedStmt D R) × WrappedConn S D
  prepare conn query c = wrap_stmt query c (conn.prepare query c.drv)

  unfoldable pub prepare_by :
      Option (Context → Bytes → D → Reply (DriverStmt D R) × D)
      → DriverConn D R
      → Context
      → Bytes
      → WrappedConn S D
      → Reply (WrappedStmt D R) × WrappedConn S D
  prepare_by (some method) conn ctx query c = wrap_stmt query c (method ctx query c.drv)
  prepare_by none conn ctx query c = prepare conn query c

  -- `PrepareContext`
  unfoldable pub prepare_context :
      DriverConn D R → Context → Bytes → WrappedConn S D → Reply (WrappedStmt D R) × WrappedConn S D
  prepare_context conn ctx query c = prepare_by conn.prepare_context conn ctx query c

  -- `Begin`
  unfoldable pub begin_legacy :
      DriverConn D R → WrappedConn S D → Reply (DriverTx D) × WrappedConn S D
  begin_legacy conn c = begun c (conn.begin c.drv)

  unfoldable pub begin_by :
      Option (Context → TxOptions → D → Reply (DriverTx D) × D)
      → DriverConn D R
      → Context
      → TxOptions
      → WrappedConn S D
      → Reply (DriverTx D) × WrappedConn S D
  begin_by (some method) conn ctx opts c = begun c (method ctx opts c.drv)
  begin_by none conn ctx opts c =
      let legacy = begin_legacy conn c in
      if is_default opts then legacy else ((none, some own_error), c)

  -- `BeginTx`
  unfoldable pub begin_tx_on :
      DriverConn D R → Context → TxOptions → WrappedConn S D → Reply (DriverTx D) × WrappedConn S D
  begin_tx_on conn ctx opts c = begin_by conn.begin_tx conn ctx opts c
