-- ===== src/Verdict.antt =====
-- detector.go: what `finishBoundary` decides about a boundary.
pub mod Exact
use go_txnproof.Prelude.{
  ℕ, Bool, true, false, List, [], ◌∷◌, Option, none, some, Bytes, ltb, if◌then◌else◌,
}
use go_txnproof.Report.{Violation, StaleAllow}
use go_txnproof.Boundary.{Boundary, covers_write_units, write_units}
use go_txnproof.Allowlist.{Allowlist, allow}

pub data Verdict : Type 0 where
  quiet : Verdict
  stale : StaleAllow → Verdict
  violation : Violation → Verdict

-- The rest of `finishBoundary` where the in-code mark does not settle the matter; `declined` are
-- the counts of a mark that did not apply, none for no mark.
unfoldable pub violation_of : Boundary → ℕ → List ℕ → Violation
violation_of b units declined = record {
  boundary = b.name;
  write_units = units;
  statements = b.statements;
  truncated_statements = b.truncated;
  allowed_write_units = declined;
  attrs = b.attrs;
}

-- `if declinedUnits == nil { declinedUnits = declined }`
unfoldable pub or_declined : List ℕ → List ℕ → List ℕ
or_declined [] declined = declined
or_declined (n ∷ ns) declined = n ∷ ns

unfoldable pub judge_listed : Option Allowlist → Boundary → ℕ → List ℕ → Verdict × Option Allowlist
judge_listed none b units declined_units = (violation (violation_of b units declined_units), none)
judge_listed (some a) b units declined_units =
    let ((allowed, declined), a') = allow a b.name units in
    if allowed
    then (quiet, some a')
    else (violation (violation_of b units (or_declined declined_units declined)), some a')

-- What `finishBoundary` finds, and the allowlist after it.
unfoldable pub judge : Option Allowlist → Boundary → Verdict × Option Allowlist
judge a b =
    let units = write_units b in
    if ltb units 2
    then (
      (if b.allowed
          then stale (record { boundary = b.name; reason = b.allow_reason; write_units = units })
          else quiet),
      a,
    )
    else if b.allowed
    then (if covers_write_units b.allow_units units
        then (quiet, a)
        else judge_listed a b units b.allow_units)
    else judge_listed a b units []
