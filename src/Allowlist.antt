-- ===== src/Allowlist.antt =====
-- allowlist.go: boundaries whose violations are suppressed, and which entries did so.
pub mod Use
use go_txnproof.Prelude.{
  ℕ, Bool, true, false, not, List, [], ◌∷◌, Option, none, some, Bytes, if◌then◌else◌,
}
use go_txnproof.Prelude.Dict.{Dict, lookup, insert, keys_where}
use go_txnproof.Prelude.Sort.{sort_strings}
use go_txnproof.Boundary.{covers_write_units}

-- No `units` is an entry without a constraint.
pub record AllowlistEntry : Type 0 where
  pub reason : Bytes
  pub units : List ℕ
  pub used : Bool

abbrev pub Allowlist : Type 0
Allowlist = Dict AllowlistEntry

abbrev pub new_allowlist : Allowlist
new_allowlist = []

-- `Add`
unfoldable pub add : Allowlist → Bytes → Bytes → List ℕ → Allowlist
add a boundary reason exact_write_units =
    insert a boundary (record { reason = reason; units = exact_write_units; used = false })

-- `allow` on the entry that the map holds, if any. The answer is `allowed` and `declined`.
unfoldable pub allow_entry :
    Allowlist → Bytes → ℕ → Option AllowlistEntry → (Bool × List ℕ) × Allowlist
allow_entry a boundary units none = ((false, []), a)
allow_entry a boundary units (some e) =
    if not (covers_write_units e.units units)
    then ((false, e.units), a)
    else ((true, []), insert a boundary (record e { used = true }))

unfoldable pub allow : Allowlist → Bytes → ℕ → (Bool × List ℕ) × Allowlist
allow a boundary units = allow_entry a boundary units (lookup a boundary)

-- `!e.used`
abbrev pub is_unused : AllowlistEntry → Bool
is_unused e = not e.used

-- `UnusedEntries`: the names that its loop over the map takes, sorted.
unfoldable pub unused_entries : Allowlist → List Bytes
unused_entries a = sort_strings (keys_where is_unused a)
