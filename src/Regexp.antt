-- ===== src/Regexp.antt =====
-- The regular expressions of Go's package regexp that pgcheck and mycheck use, and how a text is
-- matched at its start: the first match that a backtracking search finds. The expressions of the
-- source repeat single classes only. Bytes stand for characters: no match of theirs ends within a
-- character.
pub mod Takes
pub mod Fields
pub mod Consumes
use go_txnproof.Prelude.{
  ℕ, zero, suc, ◌-◌, Bool, true, false, not, ◌&&◌, ◌||◌, List, [], ◌∷◌, ◌++◌, Option, none, some,
  Bytes, codes, length, take, leb, bytes_eq, if◌then◌else◌,
}

-- A class of bytes: the spans between two bytes, or all that lie outside of them.
pub record Class : Type 0 where
  pub negated : Bool
  pub spans : List (ℕ × ℕ)

unfoldable pub in_spans : List (ℕ × ℕ) → ℕ → Bool
in_spans [] c = false
in_spans ((lo, hi) ∷ spans) c = leb lo c && leb c hi || in_spans spans c

unfoldable pub in_class : Class → ℕ → Bool
in_class x c = if x.negated then not (in_spans x.spans c) else in_spans x.spans c

unfoldable pub all_class : Class → Bytes → Bool
all_class x [] = true
all_class x (c ∷ s) = in_class x c && all_class x s

-- An expression: a class, a class repeated (`*` and `*?`), a sequence, an alternative, a group with
-- its name, which is empty where it has none, and the end of the text.
pub data Regex : Type 0 where
  nothing : Regex
  one : Class → Regex
  star : Class → Regex
  lazy : Class → Regex
  cat : Regex → Regex → Regex
  alt : Regex → Regex → Regex
  group : Bytes → Regex → Regex
  at_end : Regex

abbrev pub Captures : Type 0
Captures = List (Bytes × Bytes)

-- A match: the text behind it, and the groups that took part, from left to right.
pub record Submatch : Type 0 where
  pub rest : Bytes
  pub groups : Captures

abbrev pub add_groups : Captures → Submatch → Submatch
add_groups gs f = record f { groups = gs ++ f.groups }

unfoldable pub or_else : Option Submatch → Option Submatch → Option Submatch
or_else none o = o
or_else (some f) o = some f

unfoldable pub with_groups : Captures → Option Submatch → Option Submatch
with_groups gs none = none
with_groups gs (some f) = some (add_groups gs f)

-- The text between two places of one text.
unfoldable pub between : Bytes → Bytes → Bytes
between s rest = take (length s - length rest) s

-- `*`: the longest run first.
unfoldable pub match_star : Class → Bytes → (Bytes → Option Submatch) → Option Submatch
match_star x [] k = k []
match_star x (c ∷ s) k =
    let more = match_star x s k in if in_class x c then or_else more (k (c ∷ s)) else k (c ∷ s)

-- `*?`: the shortest run first.
unfoldable pub match_lazy : Class → Bytes → (Bytes → Option Submatch) → Option Submatch
match_lazy x [] k = k []
match_lazy x (c ∷ s) k =
    let more = match_lazy x s k in if in_class x c then or_else (k (c ∷ s)) more else k (c ∷ s)

unfoldable pub match_one : Class → Bytes → (Bytes → Option Submatch) → Option Submatch
match_one x [] k = none
match_one x (c ∷ s) k = if in_class x c then k s else none

unfoldable pub match_end : Bytes → (Bytes → Option Submatch) → Option Submatch
match_end [] k = k []
match_end (c ∷ s) k = none

-- The first match of an expression at the start of a text behind which `k` succeeds.
unfoldable pub match_regex : Regex → Bytes → (Bytes → Option Submatch) → Option Submatch
match_regex nothing s k = k s
match_regex (one x) s k = match_one x s k
match_regex (star x) s k = match_star x s k
match_regex (lazy x) s k = match_lazy x s k
match_regex (cat p q) s k = match_regex p s λ s'. match_regex q s' k
match_regex (alt p q) s k = or_else (match_regex p s k) (match_regex q s k)
match_regex (group name p) s k =
    match_regex p s λ s'. with_groups ((name, between s s') ∷ []) (k s')
match_regex at_end s k = match_end s k

abbrev pub found_at : Bytes → Option Submatch
found_at s = some (record { rest = s; groups = [] })

-- FindStringSubmatch of an expression that begins with `^`
unfoldable pub find : Regex → Bytes → Option Submatch
find r s = match_regex r s found_at

-- SubexpNames, without the name of the whole match
unfoldable pub group_names : Regex → List Bytes
group_names (cat p q) = group_names p ++ group_names q
group_names (alt p q) = group_names p ++ group_names q
group_names (group name p) = name ∷ group_names p
group_names _ = []

-- `p?`
unfoldable pub opt : Regex → Regex
opt p = alt p nothing

-- `x+`
unfoldable pub plus : Class → Regex
plus x = cat (one x) (star x)

-- `x{n}`
unfoldable pub times : ℕ → Class → Regex
times zero x = nothing
times (suc n) x = cat (one x) (times n x)

abbrev pub byte_class : ℕ → Class
byte_class b = record { negated = false; spans = (b, b) ∷ [] }

-- A text for itself.
unfoldable pub literal : Bytes → Regex
literal [] = nothing
literal (b ∷ s) = cat (one (byte_class b)) (literal s)

-- `\d`
abbrev pub digit : Class
digit = record { negated = false; spans = (b'0', b'9') ∷ [] }

abbrev pub spaces : List (ℕ × ℕ)
spaces = (b'\t', b'\n') ∷ (12, b'\r') ∷ (b' ', b' ') ∷ []

-- `\s`
abbrev pub space : Class
space = record { negated = false; spans = spaces }

-- `\S`
abbrev pub non_space : Class
non_space = record { negated = true; spans = spaces }

-- `.`
abbrev pub any_byte : Class
any_byte = record { negated = true; spans = (b'\n', b'\n') ∷ [] }

-- `[^b]`
abbrev pub but : ℕ → Class
but b = record { negated = true; spans = (b, b) ∷ [] }

-- `\d{4}-\d{2}-\d{2}`, a word, `\d{2}:\d{2}:\d{2}`, and what follows.
abbrev pub date_time : Bytes → Regex → Regex
date_time word rest = cat (times 4 digit) (
    cat (literal (codes "-")) (
      cat (times 2 digit) (
        cat (literal (codes "-")) (
          cat (times 2 digit) (
            cat (literal word) (
              cat (times 2 digit) (
                cat (literal (codes ":")) (
                  cat (times 2 digit) (cat (literal (codes ":")) (cat (times 2 digit) rest))))))))))
