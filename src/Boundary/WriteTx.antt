-- ===== src/Boundary/WriteTx.antt =====
-- The inline slots and the overflow map count every transaction that wrote, once each.
use go_txnproof.Prelude.{
  ℕ, zero, suc, ◌+◌, ◌≤◌, ◌<◌, ◌≡◌, refl, ◌∙◌, ap, inl, inr, true, false, ◌||◌, List, [], ◌∷◌, ◌++◌,
  arith, Bytes, ltb, ◌==◌, if◌then◌else◌, length, set, take, contains, contains-append,
  length-append, length-set, IsDistinct, IsDistinct-insert, append-nil, Bool-cases,
}
use native.Mathlib.Decide.{ℕ_discrete}
use native.Mathlib.Numerals.{add-one}
use go_txnproof.Report.{Context}
use go_txnproof.Boundary.{Boundary, inline_write_tx_cap, add_write_tx, note_write_tx, new_boundary}

-- How many of the slots are in use.
abbrev pub inline_used : Boundary → ℕ
inline_used b = if ltb inline_write_tx_cap b.write_tx_n then inline_write_tx_cap else b.write_tx_n

-- The transactions noted so far.
abbrev pub noted : Boundary → List ℕ
noted b = take (inline_used b) b.write_tx_inline ++ b.write_tx_overflow

pub record TxInv (b : Boundary) : Type 0 where
  pub slots : length b.write_tx_inline ≡ inline_write_tx_cap
  pub spilled : b.write_tx_n ≡ inline_used b + length b.write_tx_overflow
  pub distinct : IsDistinct (noted b)

take-set {ℓ} :
    {A : Type ℓ} (xs : List A) (n : ℕ) (v : A)
    → n < length xs
    → take (suc n) (set xs n v) ≡ take n xs ++ v ∷ []
take-set [] n v h = elim h [ ]
take-set (x ∷ xs) zero v h = refl
take-set (x ∷ xs) (suc n) v h = ap (◌∷◌ x) (take-set xs n v (omega arith))

length-take {ℓ} : {A : Type ℓ} (n : ℕ) (xs : List A) → n ≤ length xs → length (take n xs) ≡ n
length-take zero xs h = refl
length-take (suc n) [] h = elim h [ ]
length-take (suc n) (x ∷ xs) h = ap suc (length-take n xs (omega arith))

pub length-noted : (b : Boundary) → TxInv b → length (noted b) ≡ b.write_tx_n
length-noted b v = ground (
  arith,
  v.spilled,
  v.slots,
  length-append (take (inline_used b) b.write_tx_inline) b.write_tx_overflow,
  length-take (inline_used b) b.write_tx_inline,
)

pub new_boundary-TxInv : (ctx : Context) (name : Bytes) → TxInv (new_boundary ctx name)
unfolding new_boundary
new_boundary-TxInv ctx name = record { slots = refl; spilled = refl; distinct = tt }

nil_of_length {ℓ} : {A : Type ℓ} (xs : List A) → length xs ≡ 0 → xs ≡ []
nil_of_length [] h = refl
nil_of_length (x ∷ xs) h = absurd (omega arith)

inline_used_small :
    (b : Boundary) → b.write_tx_n < inline_write_tx_cap → inline_used b ≡ b.write_tx_n
inline_used_small b h = ground arith

inline_used_next :
    (b : Boundary)
    → b.write_tx_n < inline_write_tx_cap
    → ltb inline_write_tx_cap (b.write_tx_n + 1) ≡ false
inline_used_next b h = ground arith

no_map : (b : Boundary) → TxInv b → b.write_tx_n < inline_write_tx_cap → b.write_tx_overflow ≡ []
no_map b v h = nil_of_length b.write_tx_overflow (omega (arith, v.spilled, inline_used_small b h))

-- The new transaction stands between the slots that were in use and the map.
noted_room :
    (b : Boundary) (tx : ℕ)
    → TxInv b
    → ltb b.write_tx_n inline_write_tx_cap ≡ true
    → noted (add_write_tx b tx) ≡ take (inline_used b) b.write_tx_inline ++ tx ∷ b.write_tx_overflow
unfolding add_write_tx
noted_room b tx v room =
    let h : b.write_tx_n < inline_write_tx_cap = ground arith in
    rw room (
      rw (inline_used_next b h, no_map b v h, inline_used_small b h, add-one)
        (append-nil _ ∙ take-set b.write_tx_inline b.write_tx_n tx (omega (arith, v.slots))))

noted_full :
    (b : Boundary) (tx : ℕ)
    → TxInv b
    → ltb b.write_tx_n inline_write_tx_cap ≡ false
    → noted (add_write_tx b tx) ≡ take (inline_used b) b.write_tx_inline ++ tx ∷ b.write_tx_overflow
unfolding add_write_tx
noted_full b tx v full =
    let used : inline_used b ≡ 4 = ground arith in
    let next : ltb inline_write_tx_cap (b.write_tx_n + 1) ≡ true = ground arith in
    rw full (rw (next, used) refl)

noted-add_write_tx :
    (b : Boundary) (tx : ℕ)
    → TxInv b
    → noted (add_write_tx b tx) ≡ take (inline_used b) b.write_tx_inline ++ tx ∷ b.write_tx_overflow
noted-add_write_tx b tx v = elim (Bool-cases (ltb b.write_tx_n inline_write_tx_cap)) [
  | inl room ↦ noted_room b tx v room
  | inr full ↦ noted_full b tx v full
]

spilled-add_write_tx :
    (b : Boundary) (tx : ℕ)
    → TxInv b
    → (add_write_tx b tx).write_tx_n
      ≡ inline_used (add_write_tx b tx) + length (add_write_tx b tx).write_tx_overflow
unfolding add_write_tx
spilled-add_write_tx b tx v = elim (Bool-cases (ltb b.write_tx_n inline_write_tx_cap)) [
  | inl room ↦ rw room (ground (arith, v.spilled))
  | inr full ↦ rw full (ground (arith, v.spilled))
]

slots-add_write_tx :
    (b : Boundary) (tx : ℕ)
    → TxInv b
    → length (add_write_tx b tx).write_tx_inline ≡ inline_write_tx_cap
unfolding add_write_tx
slots-add_write_tx b tx v = elim (Bool-cases (ltb b.write_tx_n inline_write_tx_cap)) [
  | inl room ↦ rw room (length-set b.write_tx_inline b.write_tx_n tx ∙ v.slots)
  | inr full ↦ rw full v.slots
]

add_write_tx-TxInv :
    (b : Boundary) (tx : ℕ) → TxInv b → contains (noted b) tx ≡ false → TxInv (add_write_tx b tx)
add_write_tx-TxInv b tx v h = record {
  slots = slots-add_write_tx b tx v;
  spilled = spilled-add_write_tx b tx v;
  distinct = rw (noted-add_write_tx b tx v) (
      IsDistinct-insert (take (inline_used b) b.write_tx_inline) tx b.write_tx_overflow v.distinct
        h);
}

-- The tests of `note_write_tx` ask whether the transaction was noted.
note_write_tx_lem :
    (b : Boundary) (tx : ℕ)
    → note_write_tx b tx ≡ (if contains (noted b) tx then b else add_write_tx b tx)
unfolding note_write_tx
note_write_tx_lem b tx =
    ground (arith, contains-append (take (inline_used b) b.write_tx_inline) b.write_tx_overflow tx)

pub note_write_tx-TxInv : (b : Boundary) (tx : ℕ) → TxInv b → TxInv (note_write_tx b tx)
note_write_tx-TxInv b tx v = elim (Bool-cases (contains (noted b) tx)) [
  | inl old ↦ rw (note_write_tx_lem b tx, old) v
  | inr new ↦ rw (note_write_tx_lem b tx, new) (add_write_tx-TxInv b tx v new)
]

contains_middle :
    (xs ys : List ℕ) (v t : ℕ) → contains (xs ++ v ∷ ys) t ≡ (v == t || contains (xs ++ ys) t)
contains_middle [] ys v t = refl
contains_middle (x ∷ xs) ys v t = ground (arith, contains_middle xs ys v t)

contains_again :
    (xs : List ℕ) (x t : ℕ) → contains xs x ≡ true → contains xs t ≡ (x == t || contains xs t)
contains_again xs x t h = elim (ℕ_discrete x t) [
  | yes e ↦ ground (arith, rw e at h)
  | no ne ↦ ground arith
]

-- The noted transactions are those of before and the new one.
pub contains-note_write_tx :
    (b : Boundary) (tx t : ℕ)
    → TxInv b
    → contains (noted (note_write_tx b tx)) t ≡ (tx == t || contains (noted b) t)
contains-note_write_tx b tx t v = elim (Bool-cases (contains (noted b) tx)) [
  | inl old ↦ rw (note_write_tx_lem b tx, old) (contains_again (noted b) tx t old)
  | inr new ↦
      rw (note_write_tx_lem b tx, new, noted-add_write_tx b tx v)
        (contains_middle (take (inline_used b) b.write_tx_inline) b.write_tx_overflow tx t)
]

-- All but the tally of transactions.
pub record SameRest (b c : Boundary) : Type 0 where
  pub parent : c.parent ≡ b.parent
  pub name : c.name ≡ b.name
  pub attrs : c.attrs ≡ b.attrs
  pub allowed : c.allowed ≡ b.allowed
  pub allow_reason : c.allow_reason ≡ b.allow_reason
  pub allow_units : c.allow_units ≡ b.allow_units
  pub statements : c.statements ≡ b.statements
  pub auto_commit_writes : c.auto_commit_writes ≡ b.auto_commit_writes
  pub truncated : c.truncated ≡ b.truncated
  pub finished : c.finished ≡ b.finished

pub note_write_tx-SameRest : (b : Boundary) (tx : ℕ) → SameRest b (note_write_tx b tx)
unfolding note_write_tx add_write_tx
note_write_tx-SameRest b tx = ground arith
