-- ===== src/Verdict/Exact.antt =====
-- When a boundary is reported, when its mark is stale, and what becomes of the allowlist.
use go_txnproof.Prelude.{
  ℕ, ◌≤◌, ◌<◌, ◌≡◌, refl, ◌↔◌, Bool, true, false, not, ◌&&◌, ◌||◌, List, [], ◌∷◌, Option, none,
  some, arith, Bytes, ltb, if◌then◌else◌, bytes_eq,
}
use go_txnproof.Prelude.Dict.{lookup, lookup-insert}
use go_txnproof.Report.{Violation, StaleAllow}
use go_txnproof.Boundary.{Boundary, covers_write_units, write_units}
use go_txnproof.Allowlist.{Allowlist, AllowlistEntry, allow_entry, allow}
use go_txnproof.Verdict.{quiet, stale, violation, violation_of, or_declined, judge_listed, judge}

-- The counts of an entry cover this one.
abbrev pub entry_covers : Option AllowlistEntry → ℕ → Bool
entry_covers none units = false
entry_covers (some e) units = covers_write_units e.units units

-- The central allowlist covers the boundary with this count.
abbrev pub list_covers : Option Allowlist → Bytes → ℕ → Bool
list_covers none name units = false
list_covers (some a) name units = entry_covers (lookup a name) units

-- The in-code mark covers this count.
abbrev pub mark_covers : Boundary → ℕ → Bool
mark_covers b units = b.allowed && covers_write_units b.allow_units units

abbrev entry_units : Option AllowlistEntry → List ℕ
entry_units none = []
entry_units (some e) = e.units

-- The counts that a report shows: those of the mark, else those of the entry.
abbrev list_units : Option Allowlist → Bytes → List ℕ
list_units none name = []
list_units (some a) name = entry_units (lookup a name)

abbrev pub declined_units : Option Allowlist → Boundary → List ℕ
declined_units a b = or_declined (if b.allowed then b.allow_units else []) (list_units a b.name)

allow_entry_covers :
    (a : Allowlist) (name : Bytes) (units : ℕ) (o : Option AllowlistEntry)
    → ((allow_entry a name units o).0.0 ≡ entry_covers o units)
      × (entry_covers o units ≡ false → (allow_entry a name units o).0.1 ≡ entry_units o)
unfolding allow_entry
allow_entry_covers a name units none = (refl, λ h. refl)
allow_entry_covers a name units (some e) = ground arith

judge_listed_lem :
    (a : Option Allowlist) (b : Boundary) (units : ℕ) (declined : List ℕ)
    → (judge_listed a b units declined).0 ≡ (
        if list_covers a b.name units
        then quiet
        else violation (violation_of b units (or_declined declined (list_units a b.name))))
unfolding judge_listed allow or_declined
judge_listed_lem none b units [] = refl
judge_listed_lem none b units (n ∷ ns) = refl
judge_listed_lem (some a) b units declined =
    ground (arith, allow_entry_covers a b.name units (lookup a b.name))

-- The verdict as one table.
judge_lem :
    (a : Option Allowlist) (b : Boundary)
    → let units = write_units b in
      (judge a b).0 ≡ (
        if ltb units 2
        then (if b.allowed
            then stale (record { boundary = b.name; reason = b.allow_reason; write_units = units })
            else quiet)
        else if mark_covers b units || list_covers a b.name units
        then quiet
        else violation (violation_of b units (declined_units a b)))
unfolding judge
judge_lem a b = ground (
  arith,
  judge_listed_lem a b (write_units b) b.allow_units,
  judge_listed_lem a b (write_units b) [],
)

-- A violation is reported exactly when the writes span two units at least and neither the mark nor
-- the allowlist covers their count; the report is then that of the boundary, with its count, its
-- timeline, and the counts that did not apply.
pub judge_reports_exactly :
    (a : Option Allowlist) (b : Boundary) (v : Violation)
    → ((judge a b).0 ≡ violation v) ↔ (
        (2 ≤ write_units b)
        × (mark_covers b (write_units b) ≡ false)
        × (list_covers a b.name (write_units b) ≡ false)
        × (v ≡ violation_of b (write_units b) (declined_units a b)))
judge_reports_exactly a b v =
    (λ e. ground (arith, judge_lem a b), λ h. rw (judge_lem a b) (ground arith))

-- A mark is reported as stale exactly when it had nothing to suppress.
pub judge_stale_exactly :
    (a : Option Allowlist) (b : Boundary) (s : StaleAllow)
    → ((judge a b).0 ≡ stale s) ↔ (
        (write_units b < 2)
        × (b.allowed ≡ true)
        × (s ≡ record { boundary = b.name; reason = b.allow_reason; write_units = write_units b }))
judge_stale_exactly a b s =
    (λ e. ground (arith, judge_lem a b), λ h. rw (judge_lem a b) (ground arith))

abbrev used_of : Option AllowlistEntry → Bool
used_of none = false
used_of (some e) = e.used

-- The entry of this name has suppressed a violation.
abbrev pub used_at : Option Allowlist → Bytes → Bool
used_at none k = false
used_at (some a) k = used_of (lookup a k)

allow_entry_used :
    (a : Allowlist) (name : Bytes) (units : ℕ) (o : Option AllowlistEntry) (k : Bytes)
    → lookup a name ≡ o
    → used_of (lookup (allow_entry a name units o).1 k)
      ≡ (used_of (lookup a k) || (bytes_eq name k && entry_covers o units))
unfolding allow_entry
allow_entry_used a name units none k h = ground arith
allow_entry_used a name units (some e) k h =
    ground (arith, lookup-insert a name k (record e { used = true }))

judge_listed_used :
    (a : Option Allowlist) (b : Boundary) (units : ℕ) (declined : List ℕ) (k : Bytes)
    → used_at (judge_listed a b units declined).1 k
      ≡ (used_at a k || (bytes_eq b.name k && list_covers a b.name units))
unfolding judge_listed allow
judge_listed_used none b units declined k = ground arith
judge_listed_used (some a) b units declined k =
    ground (arith, allow_entry_used a b.name units (lookup a b.name) k refl)

-- An entry of the allowlist becomes used exactly when it is the one that suppresses a violation: it
-- has the boundary's name, it covers the count, and the boundary's own mark does not.
pub judge_uses_exactly :
    (a : Option Allowlist) (b : Boundary) (k : Bytes)
    → used_at (judge a b).1 k ≡ (
        used_at a k
        || (bytes_eq b.name k
            && (not (ltb (write_units b) 2)
                && (not (mark_covers b (write_units b)) && list_covers a b.name (write_units b)))))
unfolding judge
judge_uses_exactly a b k = ground (
  arith,
  judge_listed_used a b (write_units b) b.allow_units k,
  judge_listed_used a b (write_units b) [] k,
)
