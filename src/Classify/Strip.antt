-- ===== src/Classify/Strip.antt =====
-- `stripLeading` drops a run of blanks and comments, all of it and nothing else.
use go_txnproof.Prelude.{
  ℕ, zero, suc, ◌+◌, ◌≤◌, ◌<◌, ◌≡◌, refl, inl, inr, true, false, if◌then◌else◌, [], ◌∷◌, Option,
  none, some, arith, Bytes, codes, length, length-drop, has_prefix, index_byte, index, trim_left,
  Bool-cases,
}
use go_txnproof.Classify.{after_newline, after_block, strip_loop, strip_leading}

-- No blank and no comment stands in front.
abbrev pub IsBare : Bytes → Type 0
IsBare q =
    (trim_left q ≡ q) × (has_prefix q (codes "--") ≡ false) × (has_prefix q (codes "/*") ≡ false)

length-trim_left : (q : Bytes) → length (trim_left q) ≤ length q
unfolding trim_left
length-trim_left [] = omega arith
length-trim_left (c ∷ q) = ground (arith, length-trim_left q)

trim_left_idem : (q : Bytes) → trim_left (trim_left q) ≡ trim_left q
unfolding trim_left
trim_left_idem [] = refl
trim_left_idem (c ∷ q) = ground (arith, trim_left_idem q)

length-after_newline :
    (o : Option ℕ) (q : Bytes) → 0 < length q → length (after_newline o q) < length q
unfolding after_newline
length-after_newline none q h = h
length-after_newline (some i) q h = omega (arith, length-drop (i + 1) q)

length-after_block : (o : Option ℕ) (q : Bytes) → 0 < length q → length (after_block o q) < length q
unfolding after_block
length-after_block none q h = h
length-after_block (some i) q h = omega (arith, length-drop (i + 2) q)

has_prefix-pos : (q : Bytes) (c : ℕ) (p : Bytes) → has_prefix q (c ∷ p) ≡ true → 0 < length q
unfolding has_prefix
has_prefix-pos [] c p h = cc
has_prefix-pos (x ∷ q) c p h = omega arith

module _ (q : Bytes) where
  abbrev rest : Bytes
  rest = trim_left q

  line_shorter :
      has_prefix rest (codes "--") ≡ true
      → length (after_newline (index_byte rest b'\n') rest) < length q
  line_shorter h = omega (
    arith,
    length-after_newline (index_byte rest b'\n') rest (has_prefix-pos rest b'-' (b'-' ∷ []) h),
    length-trim_left q,
  )

  block_shorter :
      has_prefix rest (codes "/*") ≡ true
      → length (after_block (index rest (codes "*/")) rest) < length q
  block_shorter h = omega (
    arith,
    length-after_block (index rest (codes "*/")) rest (has_prefix-pos rest b'/' (b'*' ∷ []) h),
    length-trim_left q,
  )

strip_loop-IsBare : (fuel : ℕ) (q : Bytes) → length q < fuel → IsBare (strip_loop fuel q)
unfolding strip_loop
strip_loop-IsBare zero q h = elim h [ ]
strip_loop-IsBare (suc fuel) q h = elim (Bool-cases (has_prefix (trim_left q) (codes "--"))) [
  | inl l ↦ rw l (strip_loop-IsBare fuel _ (omega (arith, line_shorter q l)))
  | inr l ↦ rw l (elim (Bool-cases (has_prefix (trim_left q) (codes "/*"))) [
    | inl b ↦ rw b (strip_loop-IsBare fuel _ (omega (arith, block_shorter q b)))
    | inr b ↦ rw b (trim_left_idem q, l, b)
  ])
]

-- More rounds than bytes change nothing.
strip_loop_fuel :
    (f g : ℕ) (q : Bytes) → length q < f → length q < g → strip_loop f q ≡ strip_loop g q
unfolding strip_loop
strip_loop_fuel zero g q h k = elim h [ ]
strip_loop_fuel (suc f) zero q h k = elim k [ ]
strip_loop_fuel (suc f) (suc g) q h k = ground (
  arith,
  line_shorter q,
  block_shorter q,
  strip_loop_fuel f g (after_newline (index_byte (trim_left q) b'\n') (trim_left q)),
  strip_loop_fuel f g (after_block (index (trim_left q) (codes "*/")) (trim_left q)),
)

-- The result has no blank and no comment in front.
pub strip_leading-IsBare : (q : Bytes) → IsBare (strip_leading q)
unfolding strip_leading
strip_leading-IsBare q = strip_loop-IsBare (suc (length q)) q (omega arith)

-- One round of the loop, with the fuel out of sight.
pub strip_leading_round :
    (q : Bytes)
    → strip_leading q ≡ (
        if has_prefix (trim_left q) (codes "--")
        then strip_leading (after_newline (index_byte (trim_left q) b'\n') (trim_left q))
        else if has_prefix (trim_left q) (codes "/*")
        then strip_leading (after_block (index (trim_left q) (codes "*/")) (trim_left q))
        else trim_left q)
unfolding strip_loop strip_leading
strip_leading_round q = ground (
  arith,
  line_shorter q,
  block_shorter q,
  fuelled (after_newline (index_byte (trim_left q) b'\n') (trim_left q)),
  fuelled (after_block (index (trim_left q) (codes "*/")) (trim_left q)),
)
  where
    fuelled :
        (r : Bytes) → length r < length q → strip_loop (length q) r ≡ strip_loop (suc (length r)) r
    fuelled r h = strip_loop_fuel (length q) (suc (length r)) r h (omega arith)

-- The loop ends by itself: any fuel above the length of the text is enough for it to stop where no
-- blank and no comment stands in front, and more fuel changes nothing.
pub strip_loop-strip_leading :
    (fuel : ℕ) (q : Bytes)
    → length q < fuel
    → (strip_loop fuel q ≡ strip_leading q) × IsBare (strip_loop fuel q)
unfolding strip_leading
strip_loop-strip_leading fuel q h =
    (strip_loop_fuel fuel (suc (length q)) q h (omega arith), strip_loop-IsBare fuel q h)
