-- ===== src/Tests/Driver.antt =====
-- The middleware on a driver that counts its calls and loses the connection once.
use go_txnproof.Prelude.{
  ℕ, ◌+◌, ◌≡◌, refl, true, false, List, [], ◌∷◌, none, some, Bytes, codes, ◌==◌, if◌then◌else◌,
}
use go_txnproof.Classify.{StatementKind, write}
use go_txnproof.Report.{background}
use go_txnproof.Detector.{World}
use go_txnproof.Session.{new_session}
use go_txnproof.Driver.{
  DriverError, Reply, DriverTx, DriverStmt, DriverConn, WrappedConn, WrappedStmt,
}
use go_txnproof.Driver.Refines.{Call, execs, stmt_execs, begins_tx, commits, run_in, watched}
use go_txnproof.Driver.Calls.{apply_calls, all_events, calls_exact}

abbrev all_writes : Bytes → StatementKind
all_writes q = write

abbrev silent_world : World ℕ
silent_world = record {
  det = record {
    reporters = [];
    allowlist = none;
    classify = all_writes;
    report_unbounded = false;
    report_nested = false;
    max_recorded_statements = 200;
    attrs_func = none;
    tx_seq = 0;
  };
  heap = [];
  store = 0;
}

abbrev lost : DriverError
lost = record { is_skip = false; is_bad_conn = true; text = [] }

-- The first execution loses the connection.
abbrev execute : List ℕ → ℕ → Reply ℕ × ℕ
execute args n = ((if n == 0 then (none, some lost) else (some n, none)), n + 1)

abbrev counting_stmt : DriverStmt ℕ ℕ
counting_stmt = record {
  exec = execute;
  query = execute;
  exec_context = none;
  query_context = none;
}

abbrev counting_tx : DriverTx ℕ
counting_tx = record { commit = λ n. (none, n); rollback = λ n. (none, n) }

abbrev counting_conn : DriverConn ℕ ℕ
counting_conn = record {
  prepare = λ query n. ((some counting_stmt, none), n);
  prepare_context = none;
  begin = λ n. ((some counting_tx, none), n);
  begin_tx = none;
  execer_context = none;
  execer = some (λ query. execute);
  queryer_context = none;
  queryer = none;
}

abbrev insert_stmt : WrappedStmt ℕ ℕ
insert_stmt = record { stmt = counting_stmt; query = codes "INSERT"; kind = write }

abbrev first_conn : WrappedConn ℕ ℕ
first_conn = record { world = silent_world; session = new_session; drv = 0 }

abbrev calls : List (Call ℕ ℕ)
calls =
    execs background (codes "DELETE") [] 1
    ∷ begins_tx background (record { isolation = 0; read_only = false })
    ∷ stmt_execs insert_stmt background [] 2
    ∷ commits counting_tx
    ∷ []

calls_exact_example :
    watched (apply_calls counting_conn calls first_conn)
    ≡ run_in (all_events counting_conn calls first_conn) (silent_world, new_session)
calls_exact_example = calls_exact counting_conn calls first_conn (tt, (tt, (refl, (tt, tt))))
