-- ===== src/Allowlist/Use.antt =====
-- Which entries an allowlist calls unused, behind any run of its operations.
use go_txnproof.Prelude.{
  ℕ, ◌≡◌, refl, ◌∙◌, sym, ap, Bool, true, false, ◌&&◌, List, [], ◌∷◌, Option, none, some, arith,
  Bytes, if◌then◌else◌, bytes_eq, bytes_eq_iff,
}
use go_txnproof.Prelude.Dict.{
  lookup, lookup-insert, IsMap, insert-IsMap, read_is, keys_where, text_mem-keys_where,
}
use go_txnproof.Prelude.Sort.{text_mem, IsSorted, text_mem-sort_strings, sort_strings-IsSorted}
use go_txnproof.Boundary.{covers_write_units}
use go_txnproof.Allowlist.{
  AllowlistEntry, Allowlist, new_allowlist, add, allow_entry, allow, is_unused, unused_entries,
}

-- `Add` with a reason and counts, and a violation that the allowlist is asked about.
pub data AllowOp : Type 0 where
  adds : Bytes → Bytes → List ℕ → AllowOp
  asks : Bytes → ℕ → AllowOp

abbrev pub apply_op : AllowOp → Allowlist → Allowlist
apply_op (adds name reason units) a = add a name reason units
apply_op (asks name units) a = (allow a name units).1

abbrev pub apply_ops : List AllowOp → Allowlist → Allowlist
apply_ops [] a = a
apply_ops (o ∷ os) a = apply_ops os (apply_op o a)

-- What one operation does to one key, where the counts of an entry that waits for its use are `some`.
abbrev pub next_waiting : Bytes → AllowOp → Option (List ℕ) → Option (List ℕ)
next_waiting k (adds name reason units) w = if bytes_eq name k then some units else w
next_waiting k (asks name units) none = none
next_waiting k (asks name units) (some ns) =
    if bytes_eq name k && covers_write_units ns units then none else some ns

-- Whether a key waits for its use behind the operations.
abbrev pub waits : Bytes → List AllowOp → Option (List ℕ) → Bool
waits k [] none = false
waits k [] (some ns) = true
waits k (o ∷ os) w = waits k os (next_waiting k o w)

-- The waiting counts of an entry.
abbrev waiting_of : Option AllowlistEntry → Option (List ℕ)
waiting_of none = none
waiting_of (some e) = if e.used then none else some e.units

allow_entry-IsMap :
    (a : Allowlist) (name : Bytes) (units : ℕ) (o : Option AllowlistEntry)
    → IsMap a
    → IsMap (allow_entry a name units o).1
unfolding allow_entry
allow_entry-IsMap a name units none h = h
allow_entry-IsMap a name units (some e) h =
    ground (arith, insert-IsMap a name (record e { used = true }) h)

apply_op-IsMap : (o : AllowOp) (a : Allowlist) → IsMap a → IsMap (apply_op o a)
unfolding add allow
apply_op-IsMap (adds name reason units) a h = insert-IsMap a name _ h
apply_op-IsMap (asks name units) a h = allow_entry-IsMap a name units (lookup a name) h

-- A violation of a boundary with no entry leaves every key alone.
not_asked :
    (name k : Bytes) (units : ℕ) (o : Option AllowlistEntry)
    → (name ≡ k → o ≡ none)
    → waiting_of o ≡ next_waiting k (asks name units) (waiting_of o)
not_asked name k units none h = refl
not_asked name k units (some e) h = ground (arith, bytes_eq_iff name k)

allow_entry-waiting :
    (a : Allowlist) (name k : Bytes) (units : ℕ) (o : Option AllowlistEntry)
    → lookup a name ≡ o
    → waiting_of (lookup (allow_entry a name units o).1 k)
      ≡ next_waiting k (asks name units) (waiting_of (lookup a k))
unfolding allow_entry
allow_entry-waiting a name k units none h =
    not_asked name k units (lookup a k) (λ same. ap (lookup a) (sym same) ∙ h)
allow_entry-waiting a name k units (some e) h =
    ground (arith, lookup-insert a name k (record e { used = true }), bytes_eq_iff name k)

apply_op-waiting :
    (o : AllowOp) (a : Allowlist) (k : Bytes)
    → waiting_of (lookup (apply_op o a) k) ≡ next_waiting k o (waiting_of (lookup a k))
unfolding add allow
apply_op-waiting (adds name reason units) a k =
    ground (arith, lookup-insert a name k (record { reason = reason; units = units; used = false }))
apply_op-waiting (asks name units) a k = allow_entry-waiting a name k units (lookup a name) refl

unused-waiting :
    (o : Option AllowlistEntry) (k : Bytes) → read_is is_unused o ≡ waits k [] (waiting_of o)
unused-waiting none k = refl
unused-waiting (some e) k = ground arith

unused-waits :
    (os : List AllowOp) (a : Allowlist) (k : Bytes)
    → IsMap a
    → read_is is_unused (lookup (apply_ops os a) k) ≡ waits k os (waiting_of (lookup a k))
unused-waits [] a k h = unused-waiting (lookup a k) k
unused-waits (o ∷ os) a k h =
    unused-waits os (apply_op o a) k (apply_op-IsMap o a h)
    ∙ ap (waits k os) (apply_op-waiting o a k)

apply_ops-IsMap : (os : List AllowOp) (a : Allowlist) → IsMap a → IsMap (apply_ops os a)
apply_ops-IsMap [] a h = h
apply_ops-IsMap (o ∷ os) a h = apply_ops-IsMap os (apply_op o a) (apply_op-IsMap o a h)

-- Behind any operations on a new allowlist, the unused entries are sorted, and a name is one of
-- them exactly when no violation that its last `Add` covers has been asked about since that `Add`.
pub unused_entries_exact :
    (os : List AllowOp) (k : Bytes)
    → let names = unused_entries (apply_ops os new_allowlist) in
      IsSorted names × (text_mem names k ≡ waits k os none)
unfolding unused_entries lookup
unused_entries_exact os k =
    let a = apply_ops os new_allowlist in
    let names = keys_where is_unused a in
    (
      sort_strings-IsSorted names,
      text_mem-sort_strings names k
          ∙ text_mem-keys_where is_unused a k (apply_ops-IsMap os new_allowlist tt)
          ∙ unused-waits os new_allowlist k tt,
    )
