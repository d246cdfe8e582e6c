-- ===== src/Tests/NullDb.antt =====
-- A program on the null database.
use go_txnproof.Prelude.{
  ℕ, ◌+◌, ◌<◌, ◌^◌, ◌≡◌, refl, false, List, [], ◌∷◌, none, Bytes, bytes_eq, codes, arith, length,
  ltb, if◌then◌else◌,
}
use go_txnproof.Classify.{StatementKind, write}
use go_txnproof.Report.{background, boundary_node, report_all}
use go_txnproof.Detector.{World, start_boundary, in_boundary, attrs_of}
use go_txnproof.Driver.{named_values_to_values}
use go_txnproof.Session.Run.{trace}
use go_txnproof.Session.Units.{outside, atomic_units}
use go_txnproof.Session.Report.{run_violation}
use go_txnproof.NullDb.{Op, exec, exec_prepared, begin_with, commit, on_null_db}
use go_txnproof.NullDb.Observed.{first_error, observed, in_boundary-on_null_db}

abbrev all_writes : Bytes → StatementKind
all_writes q = write

abbrev world : World ℕ
world = record {
  det = record {
    reporters = [];
    allowlist = none;
    classify = all_writes;
    report_unbounded = false;
    report_nested = false;
    max_recorded_statements = 200;
    attrs_func = none;
    tx_seq = 0;
  };
  heap = [];
  store = 0;
}

-- Two writes in a transaction, one outside, and a prepared statement that refuses its argument.
abbrev program : List Op
program =
    begin_with (record { isolation = 0; read_only = false })
    ∷ exec (codes "INSERT INTO a VALUES (1)") [] 1
    ∷ exec (codes "UPDATE b SET n = 1") [] 2
    ∷ commit
    ∷ exec (codes "DELETE FROM c") [] 3
    ∷ exec_prepared (codes "DELETE FROM d") (record { name = codes "id"; value = 7 } ∷ []) 4
    ∷ exec (codes "DELETE FROM e") [] 5
    ∷ []

few : 0 + length (observed program) < 2 ^ 64
unfolding named_values_to_values bytes_eq
few = omega arith

in_boundary-on_null_db_example :
    ((in_boundary world background (codes "job") (on_null_db program) [] 0).1 ≡ first_error program)
    × ((in_boundary world background (codes "job") (on_null_db program) [] 0).0.store ≡ (
        if ltb (atomic_units all_writes outside (observed program)) 2
        then (start_boundary world background (codes "job") [] 0).0.store
        else report_all []
            (boundary_node 0 background)
            (run_violation
              (codes "job")
              (attrs_of none background)
              200
              (trace all_writes 0 0 (observed program))
              (atomic_units all_writes outside (observed program)))
            (start_boundary world background (codes "job") [] 0).0.store))
in_boundary-on_null_db_example =
    in_boundary-on_null_db world background (codes "job") program 0 refl few
