-- ===== src/Regexp/Consumes.antt =====
-- What a match of an expression says of the text, whichever way the search went.
use go_txnproof.Prelude.{
  ℕ, ◌≡◌, ◌⊎◌, refl, ap, ◌∙◌, Bool, true, false, Bool-cases, inl, inr, [], ◌∷◌, ◌++◌, if◌then◌else◌,
  Option, none, some, arith, Bytes,
}
use go_txnproof.Regexp.{
  Class, in_class, in_spans, all_class, Regex, nothing, one, star, lazy, cat, alt, group, at_end,
  Captures, Submatch, or_else, with_groups, between, match_star, match_lazy, match_one, match_end,
  match_regex, plus, literal,
}

-- The expression can take the front of a text up to `rest`.
unfoldable pub Consumes : Regex → Bytes → Bytes → Type 0
Consumes nothing s rest = s ≡ rest
Consumes (one x) s rest = (c : ℕ) × (s ≡ c ∷ rest) × (in_class x c ≡ true)
Consumes (star x) s rest = (w : Bytes) × (s ≡ w ++ rest) × (all_class x w ≡ true)
Consumes (lazy x) s rest = (w : Bytes) × (s ≡ w ++ rest) × (all_class x w ≡ true)
Consumes (cat p q) s rest = (mid : Bytes) × Consumes p s mid × Consumes q mid rest
Consumes (alt p q) s rest = Consumes p s rest ⊎ Consumes q s rest
Consumes (group name p) s rest = Consumes p s rest
Consumes at_end s rest = (s ≡ []) × (s ≡ rest)

-- Where a search that goes on with `k` went on.
abbrev WentOn : (Bytes → Bytes → Type 0) → Bytes → (Bytes → Option Submatch) → Type 0
WentOn takes s k = (rest : Bytes) × takes s rest × (f : Submatch) × (k rest ≡ some f)

or_else-some :
    (o o' : Option Submatch) (f : Submatch) → or_else o o' ≡ some f → (o ≡ some f) ⊎ (o' ≡ some f)
unfolding or_else
or_else-some none o' f h = inr h
or_else-some (some g) o' f h = inl h

with_groups-some :
    (gs : Captures) (o : Option Submatch) (f : Submatch)
    → with_groups gs o ≡ some f
    → (g : Submatch) × (o ≡ some g)
unfolding with_groups
with_groups-some gs none f h = absurd (ground (arith, h))
with_groups-some gs (some g) f h = (g, refl)

abbrev Run : Class → Bytes → Bytes → Type 0
Run x s rest = (w : Bytes) × (s ≡ w ++ rest) × (all_class x w ≡ true)

longer :
    (x : Class) (c : ℕ) (s : Bytes) (k : Bytes → Option Submatch)
    → in_class x c ≡ true
    → WentOn (Run x) s k
    → WentOn (Run x) (c ∷ s) k
unfolding all_class
longer x c s k h (rest, (w, eq, all), f, e) =
    (rest, (c ∷ w, ap (λ t. c ∷ t) eq, ground (arith, h, all)), f, e)

-- The branch that an `if` took.
then_taken : {A : Type 0} (b : Bool) (x y z : A) → b ≡ true → (if b then x else y) ≡ z → x ≡ z
then_taken true x y z h e = e
then_taken false x y z h e = absurd (ground (arith, h))

else_taken : {A : Type 0} (b : Bool) (x y z : A) → b ≡ false → (if b then x else y) ≡ z → y ≡ z
else_taken true x y z h e = absurd (ground (arith, h))
else_taken false x y z h e = e

match_star-Run :
    (x : Class) (s : Bytes) (k : Bytes → Option Submatch) (f : Submatch)
    → match_star x s k ≡ some f
    → WentOn (Run x) s k
unfolding match_star all_class
match_star-Run x [] k f h = ([], ([], refl, refl), f, h)
match_star-Run x (c ∷ s) k f h =
    let more = match_star x s k in
    let here = k (c ∷ s) in
    elim (Bool-cases (in_class x c)) [
      | inl t ↦ elim (or_else-some more here f (then_taken (in_class x c) _ here _ t h)) [
        | inl e ↦ longer x c s k t (match_star-Run x s k f e)
        | inr e ↦ (c ∷ s, ([], refl, refl), f, e)
      ]
      | inr n ↦ (c ∷ s, ([], refl, refl), f, else_taken (in_class x c) (or_else more here) _ _ n h)
    ]

match_lazy-Run :
    (x : Class) (s : Bytes) (k : Bytes → Option Submatch) (f : Submatch)
    → match_lazy x s k ≡ some f
    → WentOn (Run x) s k
unfolding match_lazy all_class
match_lazy-Run x [] k f h = ([], ([], refl, refl), f, h)
match_lazy-Run x (c ∷ s) k f h =
    let more = match_lazy x s k in
    let here = k (c ∷ s) in
    elim (Bool-cases (in_class x c)) [
      | inl t ↦ elim (or_else-some here more f (then_taken (in_class x c) _ here _ t h)) [
        | inl e ↦ (c ∷ s, ([], refl, refl), f, e)
        | inr e ↦ longer x c s k t (match_lazy-Run x s k f e)
      ]
      | inr n ↦ (c ∷ s, ([], refl, refl), f, else_taken (in_class x c) (or_else here more) _ _ n h)
    ]

match_one-Consumes :
    (x : Class) (s : Bytes) (k : Bytes → Option Submatch) (f : Submatch)
    → match_one x s k ≡ some f
    → WentOn (Consumes (one x)) s k
unfolding match_one Consumes
match_one-Consumes x [] k f h = absurd (ground (arith, h))
match_one-Consumes x (c ∷ s) k f h = elim (Bool-cases (in_class x c)) [
  | inl t ↦ (s, (c, refl, t), f, then_taken (in_class x c) (k s) none _ t h)
  | inr n ↦ absurd (ground (arith, else_taken (in_class x c) (k s) none (some f) n h))
]

match_end-Consumes :
    (s : Bytes) (k : Bytes → Option Submatch) (f : Submatch)
    → match_end s k ≡ some f
    → WentOn (Consumes at_end) s k
unfolding match_end Consumes
match_end-Consumes [] k f h = ([], (refl, refl), f, h)
match_end-Consumes (c ∷ s) k f h = absurd (ground (arith, h))

-- Where a search succeeds, the expression takes the text up to a place at which what follows
-- succeeds.
pub match_regex-Consumes :
    (r : Regex) (s : Bytes) (k : Bytes → Option Submatch) (f : Submatch)
    → match_regex r s k ≡ some f
    → WentOn (Consumes r) s k
unfolding match_regex Consumes
match_regex-Consumes nothing s k f h = (s, refl, f, h)
match_regex-Consumes (one x) s k f h = match_one-Consumes x s k f h
match_regex-Consumes (star x) s k f h = match_star-Run x s k f h
match_regex-Consumes (lazy x) s k f h = match_lazy-Run x s k f h
match_regex-Consumes (cat p q) s k f h =
    let (mid, front, g, e) = match_regex-Consumes p s (λ s'. match_regex q s' k) f h in
    let (rest, back, g', e') = match_regex-Consumes q mid k g e in
    (rest, (mid, front, back), g', e')
match_regex-Consumes (alt p q) s k f h =
    elim (or_else-some (match_regex p s k) (match_regex q s k) f h) [
      | inl e ↦ let (rest, c, g, e') = match_regex-Consumes p s k f e in (rest, inl c, g, e')
      | inr e ↦ let (rest, c, g, e') = match_regex-Consumes q s k f e in (rest, inr c, g, e')
    ]
match_regex-Consumes (group name p) s k f h =
    let named = λ (s' : Bytes). with_groups ((name, between s s') ∷ []) (k s') in
    let (rest, c, g, e) = match_regex-Consumes p s named f h in
    let (g', e') = with_groups-some ((name, between s rest) ∷ []) (k rest) g e in (rest, c, g', e')
match_regex-Consumes at_end s k f h = match_end-Consumes s k f h

-- A literal takes itself, and a repeated class a run of at least one byte.
pub literal-Consumes : (w s rest : Bytes) → Consumes (literal w) s rest → s ≡ w ++ rest
unfolding Consumes literal in_class in_spans
literal-Consumes [] s rest h = h
literal-Consumes (b ∷ w) s rest (mid, (c, eq, here), more) =
    let same : c ≡ b = ground (arith, here) in
    eq ∙ ap (λ d. d ∷ mid) same ∙ ap (λ t. b ∷ t) (literal-Consumes w mid rest more)

pub plus-Consumes :
    (x : Class) (s rest : Bytes)
    → Consumes (plus x) s rest
    → (c : ℕ) × (w : Bytes) × (s ≡ (c ∷ w) ++ rest) × (all_class x (c ∷ w) ≡ true)
unfolding Consumes plus all_class
plus-Consumes x s rest (mid, (c, eq, here), (w, eq', all)) =
    (c, w, eq ∙ ap (λ t. c ∷ t) eq', ground (arith, here, all))
