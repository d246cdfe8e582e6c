-- ===== src/Throttle/Key/Normal.antt =====
-- The text of a key with its white space normalized, and the buffer that holds a part of it.
use go_txnproof.Prelude.{
  ℕ, zero, suc, ◌-◌, ◌≤◌, ◌<◌, ◌≡◌, refl, ◌∙◌, sym, ap, append-nil, append_assoc, Bool, true, false,
  List, [], ◌∷◌, ◌++◌, arith, Bytes, ltb, if◌then◌else◌, length, length-append, length-drop, take,
  drop,
}
use go_txnproof.Throttle.Key.{
  unbounded_write_key_len, decode_rune, rune_at, is_space_rune, put_space, put_rune, key_loop,
}

length-take : {A : Type 0} (n : ℕ) (xs : List A) → length (take n xs) ≤ n
length-take zero xs = omega arith
length-take (suc n) [] = omega arith
length-take (suc n) (x ∷ xs) = omega (arith, length-take n xs)

pub put_rune_le :
    (buf s : Bytes)
    → length buf ≤ unbounded_write_key_len
    → length (put_rune buf s) ≤ unbounded_write_key_len
unfolding put_rune
put_rune_le buf s h =
    let room = unbounded_write_key_len - length buf in
    omega (arith, length-append buf (take room s), length-take room s)

pub put_space_le :
    (buf : Bytes) (pending : Bool)
    → length buf < unbounded_write_key_len
    → length (put_space buf pending) ≤ unbounded_write_key_len
unfolding put_space
put_space_le buf pending h = ground (arith, length-append buf (b' ' ∷ []))

pub key_loop_le :
    (fuel : ℕ) (buf : Bytes) (pending : Bool) (q : Bytes)
    → length buf ≤ unbounded_write_key_len
    → length (key_loop fuel buf pending q) ≤ unbounded_write_key_len
unfolding key_loop
key_loop_le zero buf pending q h = h
key_loop_le (suc fuel) buf pending [] h = h
key_loop_le (suc fuel) buf pending (c ∷ q) h =
    let (r, size) = rune_at c q in
    let rest = drop size (c ∷ q) in
    let spaced = put_space buf pending in
    let text = put_rune spaced (take size (c ∷ q)) in
    ground (
      arith,
      put_space_le buf pending,
      put_rune_le spaced (take size (c ∷ q)),
      key_loop_le fuel buf (ltb 0 (length buf)) rest,
      key_loop_le fuel text false rest,
    )

-- A rune has a size.
decode_rune_size : (c : ℕ) (q : Bytes) → 0 < (decode_rune c q).1
unfolding decode_rune
decode_rune_size c [] = ground arith
decode_rune_size c (d ∷ []) = ground arith
decode_rune_size c (d ∷ e ∷ []) = ground arith
decode_rune_size c (d ∷ e ∷ f ∷ q) = ground arith

pub rune_at_size : (c : ℕ) (q : Bytes) → 0 < (rune_at c q).1
unfolding rune_at
rune_at_size c q = ground (arith, decode_rune_size c q)

-- The whole text with the white space normalized; `pending` says that a space comes before the next
-- rune, `started` that some rune is behind.
abbrev pub normalize : ℕ → Bool → Bool → Bytes → Bytes
normalize zero started pending q = []
normalize (suc fuel) started pending [] = []
normalize (suc fuel) started pending (c ∷ q) =
    let (r, size) = rune_at c q in
    let rest = drop size (c ∷ q) in
    let skip = normalize fuel started started rest in
    let go = normalize fuel true false rest in
    if is_space_rune r then skip else put_space [] pending ++ (take size (c ∷ q) ++ go)

-- Any fuel for all bytes gives the same text.
pub normalize_fuel :
    (fuel more : ℕ) (started pending : Bool) (q : Bytes)
    → length q ≤ fuel
    → length q ≤ more
    → normalize fuel started pending q ≡ normalize more started pending q
normalize_fuel zero zero started pending q h g = refl
normalize_fuel zero (suc more) started pending [] h g = refl
normalize_fuel zero (suc more) started pending (c ∷ q) h g = ground arith
normalize_fuel (suc fuel) zero started pending [] h g = refl
normalize_fuel (suc fuel) zero started pending (c ∷ q) h g = ground arith
normalize_fuel (suc fuel) (suc more) started pending [] h g = refl
normalize_fuel (suc fuel) (suc more) started pending (c ∷ q) h g =
    let (r, size) = rune_at c q in
    let rest = drop size (c ∷ q) in
    let short : length rest ≤ length q =
      omega (arith, length-drop size (c ∷ q), rune_at_size c q) in
    let skip =
      normalize_fuel fuel more started started rest (omega (arith, short)) (omega (arith, short)) in
    let go =
      normalize_fuel fuel more true false rest (omega (arith, short)) (omega (arith, short)) in
    ap
      (λ x.
        if is_space_rune r
        then x
        else put_space [] pending ++ (take size (c ∷ q) ++ normalize fuel true false rest))
      skip
    ∙ ap
        (λ x.
          if is_space_rune r
          then normalize more started started rest
          else put_space [] pending ++ (take size (c ∷ q) ++ x))
        go

take-append :
    {A : Type 0} (n : ℕ) (xs ys : List A)
    → take n (xs ++ ys) ≡ take n xs ++ take (n - length (take n xs)) ys
take-append zero xs ys = ground arith
take-append (suc n) [] ys = let same : suc n ≡ suc n - 0 = omega arith in ap (λ m. take m ys) same
take-append (suc n) (x ∷ xs) ys =
    let same : n - length (take n xs) ≡ suc n - suc (length (take n xs)) = omega arith in
    ap (◌∷◌ x) (take-append n xs ys ∙ ap (λ m. take n xs ++ take m ys) same)

take_all : {A : Type 0} (n : ℕ) (xs : List A) → n ≡ 0 → take n xs ≡ []
take_all n xs h = ap (λ m. take m xs) h

-- What the loop adds to a full or a filling buffer is the normalized text, as far as it fits.
abbrev pub filled : Bytes → Bytes → Bytes
filled buf s = buf ++ take (unbounded_write_key_len - length buf) s

pub filled_full : (buf s : Bytes) → length buf ≡ unbounded_write_key_len → filled buf s ≡ buf
filled_full buf s h =
    let none_left : unbounded_write_key_len - length buf ≡ 0 = omega arith in
    ap (λ m. buf ++ take m s) none_left ∙ append-nil buf

pub filled-filled : (buf s t : Bytes) → filled (filled buf s) t ≡ filled buf (s ++ t)
filled-filled buf s t =
    let n = unbounded_write_key_len - length buf in
    let left : unbounded_write_key_len - length (filled buf s) ≡ n - length (take n s) =
      omega (arith, length-append buf (take n s)) in
    ap (λ m. filled buf s ++ take m t) left
    ∙ append_assoc buf (take n s) (take (n - length (take n s)) t)
    ∙ ap (◌++◌ buf) (sym (take-append n s t))

pub take-nil : {A : Type 0} (n : ℕ) → take {A = A} n [] ≡ []
take-nil zero = refl
take-nil (suc n) = refl

pub filled_nil : (buf : Bytes) → filled buf [] ≡ buf
filled_nil buf = ap (◌++◌ buf) (take-nil (unbounded_write_key_len - length buf)) ∙ append-nil buf
