-- ===== src/Regexp/Fields.antt =====
-- Runs of a class, numbers of a fixed width, and dates with a time of the day, as texts, and what
-- their expressions take.
use go_txnproof.Prelude.{
  ℕ, ◌≡◌, refl, subst, append-nil, Bool, true, false, ◌&&◌, [], ◌∷◌, ◌++◌, arith, Bytes, codes,
  length, ◌==◌,
}
use go_txnproof.Regexp.{
  Class, all_class, Regex, star, cat, at_end, group, Captures, literal, plus, digit, date_time,
  any_byte, times,
}
use go_txnproof.Regexp.Takes.{
  Takes, Takes-cat, Takes-star, Takes-plus, Takes-group, Takes-times, Takes-literal, Takes-at_end,
  stops,
}

abbrev pub is_run : Class → Bytes → Bool
is_run x [] = false
is_run x (c ∷ s) = all_class x (c ∷ s)

abbrev pub is_digits : ℕ → Bytes → Bool
is_digits n s = length s == n && all_class digit s

-- A date and a time of the day.
pub record Moment : Type 0 where
  pub year : Bytes
  pub month : Bytes
  pub day : Bytes
  pub hour : Bytes
  pub minute : Bytes
  pub second : Bytes

abbrev pub is_moment : Moment → Bool
is_moment m =
    is_digits 4 m.year
    && is_digits 2 m.month
    && is_digits 2 m.day
    && is_digits 2 m.hour
    && is_digits 2 m.minute
    && is_digits 2 m.second

-- The text of a moment, with the word between date and time, and of what follows.
abbrev pub moment_text : Bytes → Moment → Bytes → Bytes
moment_text word m rest =
    m.year
    ++ (codes "-"
        ++ (m.month
            ++ (codes "-"
                ++ (m.day
                    ++ (word
                        ++ (m.hour
                            ++ (codes ":" ++ (m.minute ++ (codes ":" ++ (m.second ++ rest))))))))))

pub Takes-run :
    (x : Class) (a rest : Bytes)
    → is_run x a ≡ true
    → stops x rest ≡ true
    → Takes (plus x) a [] rest
Takes-run x [] rest h e = absurd (ground (arith, h))
Takes-run x (c ∷ a) rest h e = Takes-plus x c a rest h e

pub Takes-digits : (n : ℕ) (a rest : Bytes) → is_digits n a ≡ true → Takes (times n digit) a [] rest
Takes-digits n a rest h = Takes-times digit n a rest (ground (arith, h)) (ground (arith, h))

-- A field of digits and the literal behind it.
pub Takes-field :
    {q : Regex} {b : Bytes} {gs : Captures} (n : ℕ) (a word rest : Bytes)
    → is_digits n a ≡ true
    → Takes q b gs rest
    → Takes (cat (times n digit) (cat (literal word) q)) (a ++ (word ++ b)) gs rest
Takes-field n a word rest h t =
    Takes-cat rest (Takes-digits n a _ h) (Takes-cat rest (Takes-literal word _) t)

pub Takes-date_time :
    {q : Regex} {b : Bytes} {gs : Captures} (word : Bytes) (m : Moment) (rest : Bytes)
    → is_moment m ≡ true
    → Takes q b gs rest
    → Takes (date_time word q) (moment_text word m b) gs rest
Takes-date_time word m rest h t = Takes-field 4 m.year (codes "-") rest (ground (arith, h)) (
    Takes-field 2 m.month (codes "-") rest (ground (arith, h)) (
      Takes-field 2 m.day word rest (ground (arith, h)) (
        Takes-field 2 m.hour (codes ":") rest (ground (arith, h)) (
          Takes-field 2 m.minute (codes ":") rest (ground (arith, h))
            (Takes-cat rest (Takes-digits 2 m.second _ (ground (arith, h))) t)))))

-- `(.*)$`
pub Takes-line_end :
    (s : Bytes)
    → all_class any_byte s ≡ true
    → Takes (cat (group [] (star any_byte)) at_end) s (([], s) ∷ []) []
Takes-line_end s h =
    subst (λ t. Takes (cat (group [] (star any_byte)) at_end) t (([], s) ∷ []) []) (append-nil s)
      (Takes-cat [] (Takes-group [] [] (Takes-star any_byte s [] h refl)) Takes-at_end)
