-- ===== src/Tests/PgxTracer.antt =====
-- A batch and a query on a tracer.
use go_txnproof.Prelude.{
  ℕ, ◌+◌, ◌≡◌, refl, true, false, List, [], ◌∷◌, none, Bytes, bytes_eq, codes, arith, ◌==◌,
  if◌then◌else◌,
}
use go_txnproof.Classify.{StatementKind, write}
use go_txnproof.Report.{background, boundary_node, Reporter, report_all}
use go_txnproof.Detector.{World, start_boundary, in_boundary, attrs_of}
use go_txnproof.Session.Run.{trace}
use go_txnproof.Session.Units.{outside}
use go_txnproof.Session.Report.{run_violation}
use go_txnproof.Driver.Refines.{run_in}
use go_txnproof.PgxTracer.{new_pgx_tracer, session_for, is_implicit}
use go_txnproof.PgxTracer.Batch.{
  TraceCall, query_start, batch_start, batch_query, batch_end, calls_events, trace_calls,
  trace_calls_exact,
}
use go_txnproof.PgxTracer.Client.{PgxOp, query, batch, client_events}
use go_txnproof.PgxTracer.Units.{traced, in_boundary-traced}

abbrev all_writes : Bytes → StatementKind
all_writes q = write

abbrev world : World ℕ
world = record {
  det = record {
    reporters = [];
    allowlist = none;
    classify = all_writes;
    report_unbounded = false;
    report_nested = false;
    max_recorded_statements = 200;
    attrs_func = none;
    tx_seq = 0;
  };
  heap = [];
  store = 0;
}

abbrev queries : List (Bytes × ℕ)
queries = (codes "INSERT INTO a VALUES (1)", 1) ∷ (codes "UPDATE b SET n = 1", 2) ∷ []

abbrev calls : List TraceCall
calls =
    query_start background (codes "DELETE FROM c") 0
    ∷ batch_start true
    ∷ batch_query background (codes "INSERT INTO a VALUES (1)") 1
    ∷ batch_query background (codes "UPDATE b SET n = 1") 2
    ∷ batch_end
    ∷ []

abbrev conn : Bytes
conn = codes "first"

trace_calls_exact_example :
    let (w', t') = trace_calls conn calls (world, new_pgx_tracer) in
    ((w', session_for t' conn)
      ≡ run_in
          (calls_events calls (is_implicit new_pgx_tracer conn))
          (world, session_for new_pgx_tracer conn))
    × ((j : Bytes)
        → bytes_eq conn j ≡ false
        → (session_for t' j ≡ session_for new_pgx_tracer j)
          × (is_implicit t' j ≡ is_implicit new_pgx_tracer j))
trace_calls_exact_example = trace_calls_exact conn calls world new_pgx_tracer

-- The kind of a statement by its first byte.
abbrev by_first : Bytes → StatementKind
by_first [] = StatementKind.other
by_first (c ∷ q) =
    if c == b'B' then StatementKind.begin else if c == b'C' then StatementKind.commit else write

abbrev counting : Reporter ℕ
counting = record {
  report = λ ctx v s. s + 1;
  report_unbounded_write = none;
  report_stale_allow = none;
  report_nested_boundary = none;
}

abbrev reporting_world : World ℕ
reporting_world = record world {
  det = record world.det { classify = by_first; reporters = counting ∷ [] };
}

-- A write, a batch, and a transaction with a batch in it.
abbrev client : List PgxOp
client =
    query (codes "INSERT INTO a VALUES (0)") 1
    ∷ batch queries
    ∷ query (codes "BEGIN") 3
    ∷ batch queries
    ∷ query (codes "COMMIT") 4
    ∷ []

in_boundary-traced_example :
    (in_boundary reporting_world background
      (codes "job")
      (traced conn by_first client)
      []
      0).0.store
    ≡ report_all
        (counting ∷ [])
        (boundary_node 0 background)
        (run_violation
          (codes "job")
          (attrs_of none background)
          200
          (trace by_first 0 0 (client_events by_first outside client))
          3)
        (start_boundary reporting_world background (codes "job") [] 0).0.store
in_boundary-traced_example =
    in_boundary-traced conn reporting_world background (codes "job") client 0 refl refl
      (omega arith)
