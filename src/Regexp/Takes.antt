-- ===== src/Regexp/Takes.antt =====
-- What an expression takes from the front of a text, built up from its parts.
use go_txnproof.Prelude.{
  ℕ, zero, suc, ◌-◌, ◌≡◌, ◌≢◌, refl, sym, ap, ◌∙◌, subst, Bool, true, false, Bool-cases, inl, inr,
  not, [], ◌∷◌, ◌++◌, Option, none, some, append_assoc, append-nil, arith, Bytes, has_prefix,
  length, length-append, take,
}
use go_txnproof.Regexp.{
  Class, in_class, all_class, Regex, nothing, one, star, cat, alt, group, at_end, Captures,
  Submatch, add_groups, or_else, with_groups, between, match_star, match_one, match_end,
  match_regex, found_at, find, opt, plus, times, literal, byte_class, in_spans,
}

-- The expression takes exactly `a` wherever what follows succeeds on the rest.
pub record Takes (r : Regex) (a : Bytes) (gs : Captures) (rest : Bytes) : Type 0 where
  pub taken :
      (k : Bytes → Option Submatch) (f : Submatch)
      → k rest ≡ some f
      → match_regex r (a ++ rest) k ≡ some (add_groups gs f)

-- The expression matches nowhere at the start of the text.
pub record Refuses (r : Regex) (s : Bytes) : Type 0 where
  pub refused : (k : Bytes → Option Submatch) → match_regex r s k ≡ none

-- The text does not go on with a byte of the class.
abbrev pub stops : Class → Bytes → Bool
stops x [] = true
stops x (c ∷ s) = not (in_class x c)

pub Takes-nothing : (rest : Bytes) → Takes nothing [] [] rest
unfolding match_regex
Takes-nothing rest = record { taken = λ k f h. h }

pub Takes-one :
    (x : Class) (c : ℕ) (rest : Bytes) → in_class x c ≡ true → Takes (one x) (c ∷ []) [] rest
unfolding match_regex match_one
Takes-one x c rest p = record { taken = λ k f h. ground (arith, p, h) }

pub Takes-cat :
    {p q : Regex} {a b : Bytes} {gs hs : Captures} (rest : Bytes)
    → Takes p a gs (b ++ rest)
    → Takes q b hs rest
    → Takes (cat p q) (a ++ b) (gs ++ hs) rest
unfolding match_regex
Takes-cat {p} {q} {a} {b} {gs} {hs} rest tp tq = record {
  taken = λ k f h.
      ap (λ s. match_regex p s (λ s'. match_regex q s' k)) (append_assoc a b rest)
      ∙ tp.taken (λ s'. match_regex q s' k) (add_groups hs f) (tq.taken k f h)
      ∙ ap (λ xs. some (record f { groups = xs })) (sym (append_assoc gs hs f.groups));
}

-- The same at the end of the text.
pub Takes-cat_end :
    {p q : Regex} {a b : Bytes} {gs hs : Captures}
    → Takes p a gs b
    → Takes q b hs []
    → Takes (cat p q) (a ++ b) (gs ++ hs) []
Takes-cat_end {p} {a} {b} {gs} tp tq =
    Takes-cat [] (subst (Takes p a gs) (sym (append-nil b)) tp) tq

pub Takes-left :
    {p : Regex} {a : Bytes} {gs : Captures} {rest : Bytes} (q : Regex)
    → Takes p a gs rest
    → Takes (alt p q) a gs rest
unfolding match_regex or_else
Takes-left {a} {rest} q t = record {
  taken = λ k f h. ap (λ o. or_else o (match_regex q (a ++ rest) k)) (t.taken k f h);
}

pub Takes-right :
    {p q : Regex} {a : Bytes} {gs : Captures} {rest : Bytes}
    → Refuses p (a ++ rest)
    → Takes q a gs rest
    → Takes (alt p q) a gs rest
unfolding match_regex or_else
Takes-right {q} {a} {rest} r t = record {
  taken = λ k f h. ap (λ o. or_else o (match_regex q (a ++ rest) k)) (r.refused k) ∙ t.taken k f h;
}

pub match_star-stops :
    (x : Class) (rest : Bytes) (k : Bytes → Option Submatch)
    → stops x rest ≡ true
    → match_star x rest k ≡ k rest
unfolding match_star
match_star-stops x [] k h = refl
match_star-stops x (c ∷ s) k h = ground (arith, h)

pub Takes-star :
    (x : Class) (a rest : Bytes)
    → all_class x a ≡ true
    → stops x rest ≡ true
    → Takes (star x) a [] rest
unfolding match_regex match_star all_class or_else
Takes-star x [] rest all h = record { taken = λ k f e. match_star-stops x rest k h ∙ e }
Takes-star x (c ∷ a) rest all h =
    let more : all_class x a ≡ true = ground (arith, all) in
    let here : in_class x c ≡ true = ground (arith, all) in
    record {
      taken = λ k f e.
          rw here
            (ap (λ o. or_else o (k (c ∷ (a ++ rest)))) ((Takes-star x a rest more h).taken k f e));
    }

pub Takes-plus :
    (x : Class) (c : ℕ) (a rest : Bytes)
    → all_class x (c ∷ a) ≡ true
    → stops x rest ≡ true
    → Takes (plus x) (c ∷ a) [] rest
unfolding plus all_class
Takes-plus x c a rest all h =
    Takes-cat rest (Takes-one x c (a ++ rest) (ground (arith, all)))
      (Takes-star x a rest (ground (arith, all)) h)

take-front : (a rest : Bytes) → take (length a) (a ++ rest) ≡ a
take-front [] rest = refl
take-front (c ∷ a) rest = ap (λ s. c ∷ s) (take-front a rest)

pub between-front : (a rest : Bytes) → between (a ++ rest) rest ≡ a
unfolding between
between-front a rest =
    let n : length (a ++ rest) - length rest ≡ length a = omega (arith, length-append a rest) in
    ap (λ m. take m (a ++ rest)) n ∙ take-front a rest

pub Takes-group :
    {p : Regex} {a : Bytes} (name rest : Bytes)
    → Takes p a [] rest
    → Takes (group name p) a ((name, a) ∷ []) rest
unfolding match_regex with_groups
Takes-group {a} name rest t = record {
  taken = λ k f h.
      t.taken (λ s'. with_groups ((name, between (a ++ rest) s') ∷ []) (k s'))
        (add_groups ((name, a) ∷ []) f)
        (ap (λ b. with_groups ((name, b) ∷ []) (k rest)) (between-front a rest)
          ∙ ap (with_groups ((name, a) ∷ [])) h);
}

pub Takes-times :
    (x : Class) (n : ℕ) (a rest : Bytes)
    → all_class x a ≡ true
    → length a ≡ n
    → Takes (times n x) a [] rest
unfolding times all_class
Takes-times x zero [] rest all h = Takes-nothing rest
Takes-times x zero (c ∷ a) rest all h = absurd (omega arith)
Takes-times x (suc n) [] rest all h = absurd (omega arith)
Takes-times x (suc n) (c ∷ a) rest all h =
    Takes-cat rest (Takes-one x c (a ++ rest) (ground (arith, all)))
      (Takes-times x n a rest (ground (arith, all)) (omega arith))

byte_class_self : (c : ℕ) → in_class (byte_class c) c ≡ true
unfolding in_class in_spans
byte_class_self c = ground arith

pub Takes-literal : (a rest : Bytes) → Takes (literal a) a [] rest
unfolding literal
Takes-literal [] rest = Takes-nothing rest
Takes-literal (c ∷ a) rest =
    Takes-cat rest (Takes-one (byte_class c) c (a ++ rest) (byte_class_self c))
      (Takes-literal a rest)

pub Takes-at_end : Takes at_end [] [] []
unfolding match_regex match_end
Takes-at_end = record { taken = λ k f h. h }

-- A match that takes all of a text, as the search gives it.
pub find-Takes :
    {r : Regex} {a : Bytes} {gs : Captures} (rest : Bytes)
    → Takes r a gs rest
    → find r (a ++ rest) ≡ some (record { rest = rest; groups = gs })
unfolding find
find-Takes {gs} rest t =
    t.taken found_at (record { rest = rest; groups = [] }) refl
    ∙ ap (λ xs. some (record { rest = rest; groups = xs })) (append-nil gs)

pub Refuses-one : (x : Class) (s : Bytes) → stops x s ≡ true → Refuses (one x) s
unfolding match_regex match_one
Refuses-one x [] h = record { refused = λ k. refl }
Refuses-one x (c ∷ s) h = record { refused = λ k. ground (arith, h) }

pub Refuses-cat : {p : Regex} {s : Bytes} (q : Regex) → Refuses p s → Refuses (cat p q) s
unfolding match_regex
Refuses-cat q r = record { refused = λ k. r.refused λ s'. match_regex q s' k }

pub Refuses-group : {p : Regex} {s : Bytes} (name : Bytes) → Refuses p s → Refuses (group name p) s
unfolding match_regex
Refuses-group {s} name r = record {
  refused = λ k. r.refused λ s'. with_groups ((name, between s s') ∷ []) (k s');
}

pub Takes-opt_none : {p : Regex} (rest : Bytes) → Refuses p rest → Takes (opt p) [] [] rest
unfolding opt
Takes-opt_none rest r = Takes-right r (Takes-nothing rest)

pub Takes-opt_some :
    {p : Regex} {a : Bytes} {gs : Captures} {rest : Bytes}
    → Takes p a gs rest
    → Takes (opt p) a gs rest
unfolding opt
Takes-opt_some t = Takes-left nothing t

pub Refuses-plus : (x : Class) (s : Bytes) → stops x s ≡ true → Refuses (plus x) s
unfolding plus
Refuses-plus x s h = Refuses-cat (star x) (Refuses-one x s h)

pub Refuses-literal : (b c : ℕ) (w s : Bytes) → c ≢ b → Refuses (literal (b ∷ w)) (c ∷ s)
unfolding literal in_class in_spans
Refuses-literal b c w s h =
    Refuses-cat (literal w) (Refuses-one (byte_class b) (c ∷ s) (ground (arith, h)))

pub Refuses-literal_prefix : (w s : Bytes) → has_prefix s w ≡ false → Refuses (literal w) s
unfolding literal has_prefix match_regex match_one in_class in_spans
Refuses-literal_prefix [] s h = absurd (ground (arith, h))
Refuses-literal_prefix (b ∷ w) [] h = Refuses-cat (literal w) (Refuses-one (byte_class b) [] refl)
Refuses-literal_prefix (b ∷ w) (c ∷ s) h = elim (Bool-cases (has_prefix s w)) [
  | inl t ↦ Refuses-cat (literal w) (Refuses-one (byte_class b) (c ∷ s) (ground (arith, h, t)))
  | inr f ↦
      let r = Refuses-literal_prefix w s f in record { refused = λ k. ground (arith, r.refused k) }
]
