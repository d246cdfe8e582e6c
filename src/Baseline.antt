-- ===== src/Baseline.antt =====
-- baseline.go: the boundaries whose violations were there before, and the reporter that holds those
-- back. The file that `Save` writes is not modelled.
pub mod Ratchet
use go_txnproof.Prelude.{
  Bool, true, false, not, List, [], ◌∷◌, Option, none, some, Bytes, if◌then◌else◌,
}
use go_txnproof.Prelude.Dict.{Dict, lookup, insert, keys_where}
use go_txnproof.Prelude.Sort.{sort_strings}
use go_txnproof.Report.{
  Context, StatementRecord, Violation, StaleAllow, NestedBoundary, Reporter, if_present, Cell,
}

-- For each name, whether it suppressed a violation.
abbrev pub Baseline : Type 0
Baseline = Dict Bool

abbrev pub new_baseline : Baseline
new_baseline = []

-- The loop of `BaselineFromViolations`.
unfoldable pub capture : Baseline → List Violation → Baseline
capture b [] = b
capture b (v ∷ vs) = capture (insert b v.boundary false) vs

unfoldable pub baseline_from_violations : List Violation → Baseline
baseline_from_violations vs = capture new_baseline vs

unfoldable pub add_missing : Baseline → Bytes → Option Bool → Baseline
add_missing b boundary none = insert b boundary false
add_missing b boundary (some used) = b

-- `Add`
unfoldable pub add : Baseline → Bytes → Baseline
add b boundary = add_missing b boundary (lookup b boundary)

-- `Boundaries`
unfoldable pub boundaries : Baseline → List Bytes
boundaries b = sort_strings (keys_where (λ used. true) b)

unfoldable pub covers_entry : Baseline → Bytes → Option Bool → Bool × Baseline
covers_entry b boundary none = (false, b)
covers_entry b boundary (some used) = (true, insert b boundary true)

-- `covers`
unfoldable pub covers : Baseline → Bytes → Bool × Baseline
covers b boundary = covers_entry b boundary (lookup b boundary)

-- `UnusedEntries`
unfoldable pub unused_entries : Baseline → List Bytes
unused_entries b = sort_strings (keys_where not b)

module _ {S : Type 0} where
  unfoldable pub report_through :
      Option (Cell S Baseline) → Reporter S → Context → Violation → S → S
  report_through none next ctx v s = next.report ctx v s
  report_through (some cell) next ctx v s =
      let (covered, b) = covers (cell.get s) v.boundary in
      if covered then cell.put b s else next.report ctx v s

  -- `NewBaselineReporter` and the methods; no cell is a nil baseline.
  unfoldable pub baseline_reporter : Option (Cell S Baseline) → Reporter S → Reporter S
  baseline_reporter baseline next = record {
    report = report_through baseline next;
    report_unbounded_write = some (if_present next.report_unbounded_write);
    report_stale_allow = some (if_present next.report_stale_allow);
    report_nested_boundary = some (if_present next.report_nested_boundary);
  }
