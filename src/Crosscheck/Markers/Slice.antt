-- ===== src/Crosscheck/Markers/Slice.antt =====
-- `Scenario` finds exactly the statements between the first begin marker and the next end marker.
use go_txnproof.Prelude.{
  suc, ◌+◌, ◌≡◌, ◌≢◌, refl, ◌∙◌, sym, subst, ap, ◌↔◌, ◌⊎◌, inl, inr, Bool, true, not, ◌&&◌, List,
  [], ◌∷◌, ◌++◌, none, some, arith, Bytes, contains_text, Bool-cases, length, take, drop,
}
use go_txnproof.Crosscheck.{LogStatement}
use go_txnproof.Crosscheck.Markers.{
  marker_literal, begin_kind, end_kind, first_with, Sliced, sliced, no_begin, no_end, slice_to,
  slice_from, scenario,
}

-- No statement has the literal in its text.
abbrev pub none_with : Bytes → List LogStatement → Bool
none_with lit [] = true
none_with lit (st ∷ sts) = not (contains_text st.sql lit) && none_with lit sts

-- A list in which a statement is the first with a literal.
abbrev SplitAt : Bytes → List LogStatement → Type 0
SplitAt lit sts =
    (before : List LogStatement) × (st : LogStatement) × (after : List LogStatement) × (sts
      ≡ before ++ st ∷ after)
    × (none_with lit before ≡ true)
    × (contains_text st.sql lit ≡ true)

-- The statements `mid` between the markers of a log.
abbrev pub Between : List LogStatement → Bytes → List LogStatement → Type 0
Between sts label mid =
    let begins = marker_literal begin_kind label in
    let ends = marker_literal end_kind label in
    (before : List LogStatement) × (b : LogStatement) × (e : LogStatement) × (after : List
      LogStatement)
    × (sts ≡ before ++ (b ∷ (mid ++ (e ∷ after))))
    × (none_with begins before ≡ true)
    × (contains_text b.sql begins ≡ true)
    × (none_with ends mid ≡ true)
    × (contains_text e.sql ends ≡ true)

first_with-append :
    (lit : Bytes) (before : List LogStatement) (st : LogStatement) (after : List LogStatement)
    → none_with lit before ≡ true
    → contains_text st.sql lit ≡ true
    → first_with lit (before ++ st ∷ after) ≡ some (length before)
unfolding first_with
first_with-append lit [] st after h g = ground arith
first_with-append lit (x ∷ before) st after h g =
    ground (arith, first_with-append lit before st after)

first_with-cases :
    (lit : Bytes) (sts : List LogStatement) → (first_with lit sts ≡ none) ⊎ SplitAt lit sts
unfolding first_with
first_with-cases lit [] = inl refl
first_with-cases lit (x ∷ sts) = elim (Bool-cases (contains_text x.sql lit)) [
  | inl h ↦ inr ([], x, sts, refl, refl, h)
  | inr h ↦ elim (first_with-cases lit sts) [
    | inl none_left ↦ inl (ground arith)
    | inr (before, st, after, eq, out, here) ↦
        inr (x ∷ before, st, after, ap (◌∷◌ x) eq, ground arith, here)
  ]
]

drop-append :
    {A : Type 0} (xs : List A) (x : A) (ys : List A) → drop (suc (length xs)) (xs ++ x ∷ ys) ≡ ys
drop-append [] x ys = refl
drop-append (z ∷ xs) x ys = drop-append xs x ys

take-append : {A : Type 0} (xs ys : List A) → take (length xs) (xs ++ ys) ≡ xs
take-append [] ys = refl
take-append (x ∷ xs) ys = ap (◌∷◌ x) (take-append xs ys)

slice_from_found :
    (before : List LogStatement) (b : LogStatement) (rest : List LogStatement) (label : Bytes)
    → none_with (marker_literal begin_kind label) before ≡ true
    → contains_text b.sql (marker_literal begin_kind label) ≡ true
    → scenario (before ++ b ∷ rest) label
      ≡ slice_to rest (first_with (marker_literal end_kind label) rest)
unfolding scenario slice_from
slice_from_found before b rest label h g =
    let ends = marker_literal end_kind label in
    let next : length before + 1 ≡ suc (length before) = omega arith in
    ap (slice_from (before ++ b ∷ rest) ends) (first_with-append _ before b rest h g)
    ∙ ap (λ l. slice_to l (first_with ends l))
        (ap (λ n. drop n (before ++ b ∷ rest)) next ∙ drop-append before b rest)

slice_to_found :
    (lit : Bytes) (mid : List LogStatement) (e : LogStatement) (after : List LogStatement)
    → none_with lit mid ≡ true
    → contains_text e.sql lit ≡ true
    → slice_to (mid ++ e ∷ after) (first_with lit (mid ++ e ∷ after)) ≡ sliced mid
unfolding slice_to
slice_to_found lit mid e after h g =
    ap (slice_to (mid ++ e ∷ after)) (first_with-append lit mid e after h g)
    ∙ ap sliced (take-append mid (e ∷ after))

scenario_found :
    (sts : List LogStatement) (label : Bytes) (mid : List LogStatement)
    → Between sts label mid
    → scenario sts label ≡ sliced mid
scenario_found sts label mid (before, b, e, after, eq, h1, h2, h3, h4) =
    ap (λ l. scenario l label) eq
    ∙ slice_from_found before b (mid ++ e ∷ after) label h1 h2
    ∙ slice_to_found _ mid e after h3 h4

no_slice : {P : Type 0} (o : Sliced) (mid : List LogStatement) → o ≢ sliced mid → o ≡ sliced mid → P
no_slice o mid h eq = elim (h eq) [ ]

sliced_inj : (a b : List LogStatement) → sliced a ≡ sliced b → a ≡ b
sliced_inj a b h = cc

slice_to-Between :
    (before : List LogStatement) (b : LogStatement) (rest : List LogStatement) (label : Bytes)
    (mid : List LogStatement)
    → none_with (marker_literal begin_kind label) before ≡ true
    → contains_text b.sql (marker_literal begin_kind label) ≡ true
    → slice_to rest (first_with (marker_literal end_kind label) rest) ≡ sliced mid
    → Between (before ++ b ∷ rest) label mid
unfolding slice_to
slice_to-Between before b rest label mid h g eq =
    let ends = marker_literal end_kind label in
    elim (first_with-cases ends rest) [
      | inl missing ↦
          no_slice no_end mid (λ c. ground arith) (sym (ap (slice_to rest) missing) ∙ eq)
      | inr (mid', e, after, split, out, here) ↦
          let same = sliced_inj mid' mid (
            sym (
              ap (λ l. slice_to l (first_with ends l)) split
              ∙ slice_to_found ends mid' e after out here)
            ∙ eq) in
          (
            before,
            b,
            e,
            after,
            ap (λ l. before ++ b ∷ l) (split ∙ ap (λ m. m ++ e ∷ after) same),
            h,
            g,
            subst (λ m. none_with ends m ≡ true) same out,
            here,
          )
    ]

scenario-Between :
    (sts : List LogStatement) (label : Bytes) (mid : List LogStatement)
    → scenario sts label ≡ sliced mid
    → Between sts label mid
unfolding scenario slice_from
scenario-Between sts label mid eq =
    let begins = marker_literal begin_kind label in
    elim (first_with-cases begins sts) [
      | inl missing ↦
          no_slice no_begin mid (λ c. ground arith)
            (sym (ap (slice_from sts (marker_literal end_kind label)) missing) ∙ eq)
      | inr (before, b, rest, split, out, here) ↦
          subst (λ l. Between l label mid) (sym split)
            (slice_to-Between before b rest label mid out here (
              sym (ap (λ l. scenario l label) split ∙ slice_from_found before b rest label out here)
              ∙ eq))
    ]

-- `Scenario` returns some statements exactly when they stand between the first statement with the
-- begin marker's literal in it and the next with that of the end marker.
pub scenario_exact :
    (sts : List LogStatement) (label : Bytes) (mid : List LogStatement)
    → (scenario sts label ≡ sliced mid) ↔ Between sts label mid
scenario_exact sts label mid = (scenario-Between sts label mid, scenario_found sts label mid)
