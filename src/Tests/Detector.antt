-- ===== src/Tests/Detector.antt =====
-- The detector on a run of two transactions, with a collecting reporter.
use go_txnproof.Prelude.{
  ℕ, ◌≤◌, ◌≡◌, ◌≢◌, refl, ◌↔◌, true, false, not, ◌&&◌, ◌||◌, List, [], ◌∷◌, none, some, arith,
  Bytes, codes, ltb, if◌then◌else◌, get_elem?, bytes_eq,
}
use go_txnproof.Classify.{StatementKind, write}
use go_txnproof.Report.{StatementRecord, Context, background, boundary_node, Cell, report_all}
use go_txnproof.Boundary.{Boundary, allow_non_atomic, new_boundary, apply_options, write_units}
use go_txnproof.Boundary.Units.{record_all, record_all_exact}
use go_txnproof.Allowlist.{Allowlist}
use go_txnproof.Verdict.{violation, violation_of, judge}
use go_txnproof.Verdict.Exact.{
  mark_covers, list_covers, declined_units, used_at, judge_reports_exactly, judge_uses_exactly,
}
use go_txnproof.Detector.{
  Detector, World, next_tx_id, attrs_of, start_boundary, close, finish_boundary, in_boundary,
}
use go_txnproof.Detector.Once.{Op, records, marks, finishes, apply_ops, finished_once}
use go_txnproof.Detector.Marks.{
  BoundaryOp, apply_all, last_mark_exact, records as records_in, marks as marks_in,
}
use go_txnproof.Session.{Session, new_session, begin_tx}
use go_txnproof.Session.Run.{Event, observes, begins, ends, step, run, trace}
use go_txnproof.Session.Units.{outside, atomic_units}
use go_txnproof.Session.Report.{run_violation, in_boundary_exact}
use go_txnproof.Session.Exclusive.{step_on, interleave, interleave_exclusive}
use go_txnproof.Collecting.{Collected, new_collecting, collecting, require_no_violations}
use go_txnproof.Collecting.Clean.{require_no_violations_exact}

abbrev whole : Cell Collected Collected
whole = record { get = λ s. s; put = λ a s. a; get-put = λ a s. refl }

-- Every statement is a write here.
abbrev all_writes : Bytes → StatementKind
all_writes q = write

abbrev detector : Detector Collected
detector = record {
  reporters = collecting whole ∷ [];
  allowlist = none;
  classify = all_writes;
  report_unbounded = false;
  report_nested = false;
  max_recorded_statements = 200;
  attrs_func = none;
  tx_seq = 0;
}

abbrev order : Boundary
order = record {
  parent = background;
  name = codes "order";
  attrs = [];
  allowed = false;
  allow_reason = [];
  allow_units = [];
  statements = [];
  write_tx_inline = 1 ∷ 2 ∷ 0 ∷ 0 ∷ [];
  write_tx_n = 2;
  write_tx_overflow = [];
  auto_commit_writes = 0;
  truncated = 0;
  finished = false;
}

abbrev world : World Collected
world = record { det = detector; heap = order ∷ []; store = new_collecting }

-- A transaction with two writes, and a write behind it.
abbrev events : List Event
events =
    begins
    ∷ observes (codes "INSERT INTO a VALUES (1)") 1
    ∷ observes (codes "UPDATE b SET n = 1") 2
    ∷ ends
    ∷ observes (codes "DELETE FROM c") 3
    ∷ []

abbrev stmt : ℕ → StatementRecord
stmt tx = record { query = codes "INSERT"; kind = write; tx_id = tx; time = 1; attrs = [] }

abbrev allow_two : Allowlist
allow_two = (codes "order", record { reason = codes "later"; units = 2 ∷ []; used = false }) ∷ []

in_boundary_exact_example :
    (in_boundary world background
      (codes "b")
      (λ w' ctx'. run w' new_session ctx' events)
      []
      5).0.store
    ≡ (if ltb (atomic_units all_writes outside events) 2
        then (start_boundary world background (codes "b") [] 5).0.store
        else report_all
            (collecting whole ∷ [])
            (boundary_node 1 background)
            (run_violation
              (codes "b")
              (attrs_of none background)
              200
              (trace all_writes 0 0 events)
              (atomic_units all_writes outside events))
            (start_boundary world background (codes "b") [] 5).0.store)
in_boundary_exact_example =
    in_boundary_exact world background (codes "b") events 5 refl (omega arith)

record_all_exact_example :
    let rs = stmt 1 ∷ stmt 0 ∷ stmt 1 ∷ [] in
    let b =
      record_all 2 rs
        (apply_options (allow_non_atomic [] [] ∷ []) (new_boundary background (codes "b"))) in
    (write_units b ≡ 2) × (b.statements ≡ stmt 1 ∷ stmt 0 ∷ []) × (b.truncated ≡ 1)
record_all_exact_example =
    record_all_exact 2 background (codes "b") (allow_non_atomic [] [] ∷ [])
      (stmt 1 ∷ stmt 0 ∷ stmt 1 ∷ [])

judge_reports_exactly_example : ((judge none order).0 ≡ violation (violation_of order 2 [])) ↔ (
    (2 ≤ write_units order)
    × (mark_covers order (write_units order) ≡ false)
    × (list_covers none order.name (write_units order) ≡ false)
    × (violation_of order 2 []
        ≡ violation_of order (write_units order) (declined_units none order)))
judge_reports_exactly_example = judge_reports_exactly none order (violation_of order 2 [])

judge_uses_exactly_example : used_at (judge (some allow_two) order).1 (codes "order") ≡ (
    used_at (some allow_two) (codes "order")
    || (bytes_eq order.name (codes "order")
        && (not (ltb (write_units order) 2)
            && (not (mark_covers order (write_units order))
                && list_covers (some allow_two) order.name (write_units order)))))
judge_uses_exactly_example = judge_uses_exactly (some allow_two) order (codes "order")

abbrev marked_twice : List BoundaryOp
marked_twice =
    marks_in (codes "first") (2 ∷ [])
    ∷ records_in (stmt 3)
    ∷ marks_in (codes "later") (3 ∷ [])
    ∷ records_in (stmt 0)
    ∷ []

last_mark_exact_example :
    apply_all 5 marked_twice order ≡ record (record_all 5 (stmt 3 ∷ stmt 0 ∷ []) order) {
      allowed = true;
      allow_reason = codes "later";
      allow_units = 3 ∷ [];
    }
last_mark_exact_example = last_mark_exact 5 marked_twice order refl

abbrev later_steps : List Op
later_steps =
    records (boundary_node 0 background) (codes "DELETE FROM c") write 3 9
    ∷ finishes 0
    ∷ marks (boundary_node 0 background) [] []
    ∷ []

finished_once_example :
    (get_elem? (apply_ops (finish_boundary world 0) later_steps).heap 0 ≡ some (close order))
    × (finish_boundary (apply_ops (finish_boundary world 0) later_steps) 0
        ≡ apply_ops (finish_boundary world 0) later_steps)
finished_once_example = finished_once world 0 order later_steps refl refl

abbrev turns : List (ℕ × (Context × Event))
turns = (0, (background, begins)) ∷ (1, (background, begins)) ∷ []

-- The two connections behind their turns.
abbrev first_session : Session
first_session = record { tx_id = 1 }

abbrev second_session : Session
second_session = record { tx_id = 2 }

interleave_exclusive_example : first_session.tx_id ≢ second_session.tx_id
unfolding interleave step_on step begin_tx next_tx_id
interleave_exclusive_example =
    interleave_exclusive world 2 turns 0 1 first_session second_session (omega arith) (ground arith)
      refl refl (omega arith)

require_no_violations_exact_example :
    (require_no_violations
        (in_boundary world background
          (codes "b")
          (λ w' ctx'. run w' new_session ctx' events)
          []
          5).0.store
      ≡ [])
    ↔ (atomic_units all_writes outside events ≤ 1)
unfolding require_no_violations
require_no_violations_exact_example =
    require_no_violations_exact whole world background (codes "b") events 5 refl refl refl
      (omega arith) refl
