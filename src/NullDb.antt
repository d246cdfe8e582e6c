-- ===== src/NullDb.antt =====
-- nulldb.go: the driver that does nothing, behind the middleware, and what a program that runs on it
-- sees and what is observed of it.
pub mod Observed
use go_txnproof.Prelude.{ℕ, Bytes, Option, none, some, List, [], ◌∷◌}
use go_txnproof.Report.{Context}
use go_txnproof.Detector.{World}
use go_txnproof.Driver.{
  DriverError, NamedValue, TxOptions, Reply, DriverTx, DriverStmt, DriverConn, WrappedConn,
  WrappedStmt, opened, exec_context, query_context, prepare_context, begin_tx_on,
}
use go_txnproof.Driver.Statement.{stmt_exec_context, commit_on, rollback_on}

-- The results of `nullConn` and `nullStmt`: `driver.RowsAffected`, and `nullRows`, which have no
-- columns and end at once.
pub data NullReply : Type 0 where
  rows_affected : ℕ → NullReply
  null_rows : NullReply

-- The driver has no state.
abbrev pub NullState : Type 0
NullState = Unit {0}

abbrev affected_one : Reply NullReply
affected_one = (some (rows_affected 1), none)

abbrev empty_rows : Reply NullReply
empty_rows = (some null_rows, none)

-- `nullStmt`
unfoldable pub null_stmt : DriverStmt NullState NullReply
null_stmt = record {
  exec = λ args d. (affected_one, d);
  query = λ args d. (empty_rows, d);
  exec_context = none;
  query_context = none;
}

-- `nullTx`
unfoldable pub null_tx : DriverTx NullState
null_tx = record { commit = λ d. (none, d); rollback = λ d. (none, d) }

-- `nullConn`
unfoldable pub null_conn : DriverConn NullState NullReply
null_conn = record {
  prepare = λ query d. ((some null_stmt, none), d);
  prepare_context = none;
  begin = λ d. ((some null_tx, none), d);
  begin_tx = none;
  execer_context = some (λ ctx query args d. (affected_one, d));
  execer = none;
  queryer_context = some (λ ctx query args d. (empty_rows, d));
  queryer = none;
}

-- A connection of `NewNullDB`.
unfoldable pub new_null_db : {S : Type 0} → World S → WrappedConn S NullState
new_null_db w = opened w tt

-- A step of a program on the connection: a statement, executed, queried or prepared first, with the
-- time of it, or a transaction begun or ended.
pub data Op : Type 0 where
  exec query exec_prepared : Bytes → List NamedValue → ℕ → Op
  begin_with : TxOptions → Op
  commit rollback : Op

-- The error of a reply.
unfoldable pub error_and : {A W : Type 0} → Reply A × W → Option DriverError × W
error_and ((r, err), w) = (err, w)

module _ {S : Type 0} where
  unfoldable pub exec_stmt :
      Context
      → List NamedValue
      → ℕ
      → Reply (WrappedStmt NullState NullReply) × WrappedConn S NullState
      → Option DriverError × WrappedConn S NullState
  exec_stmt ctx args now ((r, some e), c) = (some e, c)
  exec_stmt ctx args now ((none, none), c) = (none, c)
  exec_stmt ctx args now ((some st, none), c) = error_and (stmt_exec_context st ctx args now c)

  -- A step through the middleware, and the error that the program gets.
  unfoldable pub perform :
      Context → Op → WrappedConn S NullState → Option DriverError × WrappedConn S NullState
  perform ctx (exec q args now) c = error_and (exec_context null_conn ctx q args now c)
  perform ctx (query q args now) c = error_and (query_context null_conn ctx q args now c)
  perform ctx (exec_prepared q args now) c =
      exec_stmt ctx args now (prepare_context null_conn ctx q c)
  perform ctx (begin_with opts) c = error_and (begin_tx_on null_conn ctx opts c)
  perform ctx commit c = commit_on null_tx c
  perform ctx rollback c = rollback_on null_tx c

  -- A program that stops at the first error.
  unfoldable pub run_ops :
      Context → List Op → WrappedConn S NullState → Option DriverError × WrappedConn S NullState
  run_ops ctx [] c = (none, c)
  run_ops ctx (op ∷ ops) c =
      let (err, c') = perform ctx op c in
      let rest = run_ops ctx ops c' in elim err [ none ↦ rest | some e ↦ (some e, c') ]

  -- A program on a new connection, as the body of a boundary.
  unfoldable pub on_null_db : List Op → World S → Context → World S × Option DriverError
  on_null_db ops w ctx = let (err, c) = run_ops ctx ops (new_null_db w) in (c.world, err)
