-- ===== src/Throttle/Key/Bound.antt =====
-- The keys of statements are bounded, and the loop that makes them ends with the text.
use go_txnproof.Prelude.{
  ℕ, zero, suc, ◌-◌, ◌≤◌, ◌<◌, ◌≡◌, ◌∙◌, sym, ap, Bool, true, false, [], ◌∷◌, ◌++◌, arith, Bytes,
  ltb, ◌==◌, if◌then◌else◌, length, length-append, Bool-cases, inl, inr, take, drop,
}
use go_txnproof.Throttle.Key.{
  unbounded_write_key_len, rune_at, is_space_rune, put_space, put_rune, key_loop,
  unbounded_write_key,
}
use go_txnproof.Throttle.Key.Normal.{
  put_rune_le, put_space_le, key_loop_le, rune_at_size, normalize, normalize_fuel, filled,
  filled_full, filled-filled, take-nil, filled_nil,
}

put_space-filled :
    (buf : Bytes) (pending : Bool)
    → length buf < unbounded_write_key_len
    → put_space buf pending ≡ filled buf (put_space [] pending)
unfolding put_space
put_space-filled buf true h =
    let k = unbounded_write_key_len - suc (length buf) in
    let one : suc k ≡ unbounded_write_key_len - length buf = omega arith in
    ap (λ l. buf ++ b' ' ∷ l) (sym (take-nil k)) ∙ ap (λ m. buf ++ take m (b' ' ∷ [])) one
put_space-filled buf false h = sym (filled_nil buf)

-- One rune behind a buffer with room.
put_rune_filled :
    (buf : Bytes) (pending : Bool) (s go : Bytes)
    → length buf < unbounded_write_key_len
    → filled (put_space buf pending) (s ++ go) ≡ filled buf (put_space [] pending ++ (s ++ go))
put_rune_filled buf pending s go h =
    ap (λ b. filled b (s ++ go)) (put_space-filled buf pending h)
    ∙ filled-filled buf (put_space [] pending) (s ++ go)

put_rune_started :
    (buf s : Bytes)
    → 0 < length s
    → length buf < unbounded_write_key_len
    → ltb 0 (length (put_rune buf s)) ≡ true
unfolding put_rune
put_rune_started buf [] h g = ground arith
put_rune_started buf (x ∷ s) h g =
    let k = unbounded_write_key_len - suc (length buf) in
    let one : unbounded_write_key_len - length buf ≡ suc k = omega arith in
    ap (λ m. ltb 0 (length (buf ++ take m (x ∷ s)))) one
    ∙ ground (arith, length-append buf (x ∷ take k s))

take_some : (n : ℕ) (c : ℕ) (q : Bytes) → 0 < n → 0 < length (take n (c ∷ q))
take_some zero c q h = ground arith
take_some (suc n) c q h = omega arith

-- The two branches of the loop with a rune that is no white space.
put_text :
    (fuel : ℕ) (buf : Bytes) (pending : Bool) (s rest : Bytes)
    → length buf < unbounded_write_key_len
    → 0 < length s
    → let spaced = put_space buf pending in
      let text = put_rune spaced s in
      key_loop fuel text false rest ≡ filled text (normalize fuel (ltb 0 (length text)) false rest)
      → (if length spaced == unbounded_write_key_len then spaced else key_loop fuel text false rest)
        ≡ filled buf (put_space [] pending ++ (s ++ normalize fuel true false rest))
unfolding put_rune
put_text fuel buf pending s rest h g ih =
    let spaced = put_space buf pending in
    let go = normalize fuel true false rest in
    let whole = put_rune_filled buf pending s go h in
    elim (Bool-cases (length spaced == unbounded_write_key_len)) [
      | inl full ↦ rw full (sym (filled_full spaced (s ++ go) (ground arith)) ∙ whole)
      | inr room ↦
          let started = put_rune_started spaced s g (ground (arith, put_space_le buf pending h)) in
          rw room (
            ih
            ∙ ap (λ b. filled (put_rune spaced s) (normalize fuel b false rest)) started
            ∙ filled-filled spaced s go
            ∙ whole)
    ]

key_loop_lem :
    (fuel : ℕ) (buf : Bytes) (pending : Bool) (q : Bytes)
    → length buf ≤ unbounded_write_key_len
    → key_loop fuel buf pending q ≡ filled buf (normalize fuel (ltb 0 (length buf)) pending q)
unfolding key_loop
key_loop_lem zero buf pending q h = sym (filled_nil buf)
key_loop_lem (suc fuel) buf pending [] h = sym (filled_nil buf)
key_loop_lem (suc fuel) buf pending (c ∷ q) h =
    let (r, size) = rune_at c q in
    let rest = drop size (c ∷ q) in
    let s = take size (c ∷ q) in
    let spaced = put_space buf pending in
    let text = put_rune spaced s in
    let skip = key_loop_lem fuel buf (ltb 0 (length buf)) rest h in
    let sized = take_some size c q (rune_at_size c q) in
    elim (Bool-cases (ltb (length buf) unbounded_write_key_len)) [
      | inr full ↦ rw full (sym (filled_full buf _ (ground arith)))
      | inl room ↦
          let space_left : length buf < unbounded_write_key_len = ground arith in
          let text_le = put_rune_le spaced s (put_space_le buf pending space_left) in
          let more =
            put_text fuel buf pending s rest space_left sized
              (key_loop_lem fuel text false rest text_le) in
          elim (Bool-cases (is_space_rune r)) [
            | inl space ↦ rw (room, space) skip
            | inr letter ↦ rw (room, letter) more
          ]
    ]

-- The key of a statement, which the code makes in a buffer of 200 bytes and with a pass of the loop
-- for each byte at most, is the text with its white space normalized, cut to 200 bytes; any fuel
-- that covers the bytes of the text normalizes all of it.
pub unbounded_write_key_exact :
    (query : Bytes) (fuel : ℕ)
    → length query ≤ fuel
    → (unbounded_write_key query ≡ take unbounded_write_key_len (normalize fuel false false query))
      × (length (unbounded_write_key query) ≤ unbounded_write_key_len)
unfolding unbounded_write_key
unbounded_write_key_exact query fuel h = (
  key_loop_lem (length query) [] false query (omega arith)
      ∙ ap (take unbounded_write_key_len)
          (normalize_fuel (length query) fuel false false query (omega arith) h),
  key_loop_le (length query) [] false query (omega arith),
)
