-- ===== src/Compact/Key.antt =====
-- The key of a statement without a boundary is its text on one line, cut to the length of a key.
use go_txnproof.Prelude.{
  ℕ, zero, suc, ◌-◌, ◌<◌, ◌≤◌, ◌≡◌, refl, sym, ap, ◌∙◌, true, false, Bool-cases, inl, inr, List, [],
  ◌∷◌, ◌++◌, append-nil, append_assoc, arith, Bytes, length, take, drop,
}
use go_txnproof.Throttle.Key.{
  unbounded_write_key, unbounded_write_key_len, rune_at, is_space_rune, put_space,
}
use go_txnproof.Throttle.Key.Normal.{normalize, rune_at_size}
use go_txnproof.Throttle.Key.Bound.{unbounded_write_key_exact}
use go_txnproof.Compact.{close_field, fields_loop, fields, join_words, compact_sql}

-- Further words, each behind a blank.
abbrev glued : List Bytes → Bytes
glued [] = []
glued (w ∷ ws) = b' ' ∷ join_words (w ∷ ws)

join_words-cons : (w : Bytes) (ws : List Bytes) → join_words (w ∷ ws) ≡ w ++ glued ws
unfolding join_words
join_words-cons w [] = sym (append-nil w)
join_words-cons w (v ∷ ws) = refl

take-first : (n c : ℕ) (q : Bytes) → 0 < n → take n (c ∷ q) ≡ c ∷ take (n - 1) q
take-first zero c q h = absurd (omega arith)
take-first (suc n) c q h = let same : n ≡ suc n - 1 = omega arith in ap (λ m. c ∷ take m q) same

-- A field that has begun is the first.
glued_begun :
    (fuel c : ℕ) (w q : Bytes)
    → glued (fields_loop fuel (c ∷ w) q) ≡ b' ' ∷ join_words (fields_loop fuel (c ∷ w) q)
unfolding fields_loop close_field
glued_begun zero c w q = refl
glued_begun (suc fuel) c w [] = refl
glued_begun (suc fuel) c w (d ∷ q) =
    let (r, size) = rune_at d q in
    elim (Bool-cases (is_space_rune r)) [
      | inl space ↦ rw space refl
      | inr letter ↦ rw letter (glued_begun fuel c (w ++ take size (d ∷ q)) (drop size (d ∷ q)))
    ]

-- The fields behind a field that has begun, and behind one that has ended.
IsBehind : ℕ → Bytes → Type 0
IsBehind fuel q =
    ((c : ℕ) (w : Bytes)
      → join_words (fields_loop fuel (c ∷ w) q) ≡ (c ∷ w) ++ normalize fuel true false q)
    × (glued (fields_loop fuel [] q) ≡ normalize fuel true true q)

fields_loop-IsBehind : (fuel : ℕ) (q : Bytes) → IsBehind fuel q
unfolding IsBehind fields_loop close_field join_words put_space
fields_loop-IsBehind zero q = (λ c w. sym (append-nil (c ∷ w)), refl)
fields_loop-IsBehind (suc fuel) [] = (λ c w. sym (append-nil (c ∷ w)), refl)
fields_loop-IsBehind (suc fuel) (d ∷ q) =
    let (r, size) = rune_at d q in
    let rest = drop size (d ∷ q) in
    let s = take size (d ∷ q) in
    let first : s ≡ d ∷ take (size - 1) q = take-first size d q (rune_at_size d q) in
    let (inside, between) = fields_loop-IsBehind fuel rest in
    elim (Bool-cases (is_space_rune r)) [
      | inl space ↦ (
        λ c w.
            rw space
              (join_words-cons (c ∷ w) (fields_loop fuel [] rest) ∙ ap (λ t. (c ∷ w) ++ t) between),
        rw space between,
      )
      | inr letter ↦ (
        λ c w.
            rw letter (inside c (w ++ s) ∙ append_assoc (c ∷ w) s (normalize fuel true false rest)),
        rw letter (
            ap (λ t. glued (fields_loop fuel t rest)) first
            ∙ glued_begun fuel d (take (size - 1) q) rest
            ∙ ap (λ t. b' ' ∷ t) (inside d (take (size - 1) q))
            ∙ ap (λ t. b' ' ∷ (t ++ normalize fuel true false rest)) (sym first)),
      )
    ]

join_words-fields_loop :
    (fuel : ℕ) (q : Bytes) → join_words (fields_loop fuel [] q) ≡ normalize fuel false false q
unfolding IsBehind fields_loop close_field join_words put_space
join_words-fields_loop zero q = refl
join_words-fields_loop (suc fuel) [] = refl
join_words-fields_loop (suc fuel) (d ∷ q) =
    let (r, size) = rune_at d q in
    let rest = drop size (d ∷ q) in
    let first : take size (d ∷ q) ≡ d ∷ take (size - 1) q =
      take-first size d q (rune_at_size d q) in
    elim (Bool-cases (is_space_rune r)) [
      | inl space ↦ rw space (join_words-fields_loop fuel rest)
      | inr letter ↦ rw letter (
          ap (λ t. join_words (fields_loop fuel t rest)) first
          ∙ (fields_loop-IsBehind fuel rest).0 d (take (size - 1) q)
          ∙ ap (λ t. t ++ normalize fuel true false rest) (sym first))
    ]

-- The key of a statement, which the code makes in a buffer of 200 bytes in one pass that stops when
-- the buffer is full, is the text of the statement on one line, as messages show it, cut to 200
-- bytes: it is never longer.
pub unbounded_write_key-compact_sql :
    (query : Bytes)
    → (unbounded_write_key query ≡ take unbounded_write_key_len (compact_sql query))
      × (length (unbounded_write_key query) ≤ unbounded_write_key_len)
unfolding compact_sql fields
unbounded_write_key-compact_sql query =
    let (same, short) = unbounded_write_key_exact query (length query) (omega arith) in
    (
      same ∙ ap (take unbounded_write_key_len) (sym (join_words-fields_loop (length query) query)),
      short,
    )
