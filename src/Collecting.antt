-- ===== src/Collecting.antt =====
-- reporter.go: the reporter that gathers all reports for a test.
pub mod Clean
use go_txnproof.Prelude.{List, [], ◌∷◌, ◌++◌, Option, some}
use go_txnproof.Report.{
  Context, StatementRecord, Violation, StaleAllow, NestedBoundary, Reporter, Cell,
}

pub record Collected : Type 0 where
  pub violations : List Violation
  pub unbounded : List StatementRecord
  pub stale_allows : List StaleAllow
  pub nested : List NestedBoundary

-- `NewCollectingReporter`
abbrev pub new_collecting : Collected
new_collecting = record { violations = []; unbounded = []; stale_allows = []; nested = [] }

unfoldable pub add_violation : Violation → Collected → Collected
add_violation v c = record c { violations = c.violations ++ v ∷ [] }

unfoldable pub add_unbounded : StatementRecord → Collected → Collected
add_unbounded r c = record c { unbounded = c.unbounded ++ r ∷ [] }

unfoldable pub add_stale_allow : StaleAllow → Collected → Collected
add_stale_allow s c = record c { stale_allows = c.stale_allows ++ s ∷ [] }

unfoldable pub add_nested : NestedBoundary → Collected → Collected
add_nested n c = record c { nested = c.nested ++ n ∷ [] }

-- `Reset`
unfoldable pub reset : Collected → Collected
reset c = record { violations = []; unbounded = []; stale_allows = []; nested = [] }

module _ {S : Type 0} (cell : Cell S Collected) where
  open cell use {get, put}

  -- The four methods, as the methods of a `Reporter`.
  unfoldable pub collecting : Reporter S
  collecting = record {
    report = λ ctx v s. put (add_violation v (get s)) s;
    report_unbounded_write = some (λ ctx r s. put (add_unbounded r (get s)) s);
    report_stale_allow = some (λ ctx a s. put (add_stale_allow a (get s)) s);
    report_nested_boundary = some (λ ctx n s. put (add_nested n (get s)) s);
  }

-- `Violations`, `UnboundedWrites`, `StaleAllows` and `NestedBoundaries`; a copy of a value is the value.
abbrev pub all_violations : Collected → List Violation
all_violations c = c.violations

abbrev pub unbounded_writes : Collected → List StatementRecord
unbounded_writes c = c.unbounded

abbrev pub all_stale_allows : Collected → List StaleAllow
all_stale_allows c = c.stale_allows

abbrev pub nested_boundaries : Collected → List NestedBoundary
nested_boundaries c = c.nested

-- The errors that `RequireNoViolations` and its kin put on a test: one for each report.
unfoldable pub require_no_violations : Collected → List Violation
require_no_violations c = all_violations c

unfoldable pub require_no_unbounded_writes : Collected → List StatementRecord
require_no_unbounded_writes c = unbounded_writes c

unfoldable pub require_no_nested_boundaries : Collected → List NestedBoundary
require_no_nested_boundaries c = nested_boundaries c

unfoldable pub require_no_stale_allows : Collected → List StaleAllow
require_no_stale_allows c = all_stale_allows c
