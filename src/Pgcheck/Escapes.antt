-- ===== src/Pgcheck/Escapes.antt =====
-- Which values of log_line_prefix are translated, and which Checkers `New` makes of them.
use go_txnproof.Prelude.{
  ◌≡◌, refl, sym, subst, Bool-cases, append_assoc, ap, ◌∙◌, inl, inr, ℕ, Bool, true, false, not,
  ◌&&◌, List, [], ◌∷◌, ◌++◌, Option, none, some, Bytes, codes, contains, arith, ◌==◌,
}
use go_txnproof.Regexp.{Regex, nothing, cat, literal}
use go_txnproof.Pgcheck.Prefix.{
  Compiled, compiled, refused, bare_percent, unsupported, char_text, escape, escaped, in_front,
  compile_log_line_prefix,
}

-- A piece of a prefix: a byte for itself, or an escape.
pub data Piece : Type 0 where
  char : ℕ → Piece
  escape_of : ℕ → Piece

abbrev pub supported : Bytes
supported = codes "xvpPlmtsnceQq%audrhbi"

abbrev pub is_piece : Piece → Bool
is_piece (char c) = not (c == b'%')
is_piece (escape_of e) = contains supported e

abbrev pub all_pieces : List Piece → Bool
all_pieces [] = true
all_pieces (x ∷ xs) = is_piece x && all_pieces xs

abbrev pub piece_text : Piece → Bytes
piece_text (char c) = c ∷ []
piece_text (escape_of e) = b'%' ∷ e ∷ []

-- The text of a prefix.
abbrev pub spell : List Piece → Bytes
spell [] = []
spell (x ∷ xs) = piece_text x ++ spell xs

-- How a prefix goes on behind its pieces: it ends, or with a bare `%`, or with an escape that is not
-- supported.
pub data Rest : Type 0 where
  ends : Rest
  ends_bare : Rest
  goes_on : ℕ → Bytes → Rest

abbrev pub is_rest : Rest → Bool
is_rest ends = true
is_rest ends_bare = true
is_rest (goes_on e s) = not (contains supported e)

abbrev pub rest_text : Rest → Bytes
rest_text ends = []
rest_text ends_bare = codes "%"
rest_text (goes_on e s) = b'%' ∷ e ∷ s

-- The expression of the pieces, in their order.
abbrev pub piece_regex : Piece → Regex
piece_regex (char c) = literal (char_text c)
piece_regex (escape_of e) = elim (escape e) [ none ↦ nothing | some r ↦ r ]

abbrev pub pieces_regex : List Piece → Regex
pieces_regex [] = nothing
pieces_regex (x ∷ xs) = cat (piece_regex x) (pieces_regex xs)

abbrev pub compiled_as : List Piece → Rest → Compiled
compiled_as xs ends = compiled (pieces_regex xs)
compiled_as xs ends_bare = refused bare_percent
compiled_as xs (goes_on e s) = refused (unsupported e)

abbrev is_some : {A : Type 0} → Option A → Bool
is_some none = false
is_some (some a) = true

escape-supported : (e : ℕ) → is_some (escape e) ≡ contains supported e
unfolding escape
escape-supported e = ground arith

escaped-supported :
    (e : ℕ) (o : Option Regex) (behind : Compiled)
    → is_some o ≡ true
    → escaped e o behind ≡ in_front (elim o [ none ↦ nothing | some r ↦ r ]) behind
unfolding escaped
escaped-supported e none behind h = absurd (ground (arith, h))
escaped-supported e (some r) behind h = refl

escaped-unsupported :
    (e : ℕ) (o : Option Regex) (behind : Compiled)
    → is_some o ≡ false
    → escaped e o behind ≡ refused (unsupported e)
unfolding escaped
escaped-unsupported e none behind h = refl
escaped-unsupported e (some r) behind h = absurd (ground (arith, h))

compile-char :
    (c : ℕ) (s : Bytes)
    → not (c == b'%') ≡ true
    → compile_log_line_prefix (c ∷ s) ≡ in_front (literal (char_text c)) (compile_log_line_prefix s)
unfolding compile_log_line_prefix
compile-char c [] h = ground (arith, h)
compile-char c (e ∷ s) h = ground (arith, h)

compile-escape :
    (e : ℕ) (s : Bytes)
    → compile_log_line_prefix (b'%' ∷ e ∷ s) ≡ escaped e (escape e) (compile_log_line_prefix s)
unfolding compile_log_line_prefix
compile-escape e s = refl

in_front-compiled_as :
    (x : Piece) (xs : List Piece) (r : Rest)
    → in_front (piece_regex x) (compiled_as xs r) ≡ compiled_as (x ∷ xs) r
unfolding in_front
in_front-compiled_as x xs ends = refl
in_front-compiled_as x xs ends_bare = refl
in_front-compiled_as x xs (goes_on e s) = refl

pub compile-spell :
    (xs : List Piece) (r : Rest)
    → all_pieces xs ≡ true
    → is_rest r ≡ true
    → compile_log_line_prefix (spell xs ++ rest_text r) ≡ compiled_as xs r
unfolding compile_log_line_prefix
compile-spell [] ends h g = refl
compile-spell [] ends_bare h g = refl
compile-spell [] (goes_on e s) h g =
    compile-escape e s ∙ escaped-unsupported e (escape e) _ (escape-supported e ∙ ground (arith, g))
compile-spell (char c ∷ xs) r h g =
    compile-char c (spell xs ++ rest_text r) (ground (arith, h))
    ∙ ap (in_front (literal (char_text c))) (compile-spell xs r (ground (arith, h)) g)
    ∙ in_front-compiled_as (char c) xs r
compile-spell (escape_of e ∷ xs) r h g =
    compile-escape e (spell xs ++ rest_text r)
    ∙ escaped-supported e (escape e) _ (escape-supported e ∙ ground (arith, h))
    ∙ ap (in_front (piece_regex (escape_of e))) (compile-spell xs r (ground (arith, h)) g)
    ∙ in_front-compiled_as (escape_of e) xs r

-- What a prefix is made of.
record Spelling (p : Bytes) : Type 0 where
  pieces : List Piece
  behind : Rest
  are_pieces : all_pieces pieces ≡ true
  is_behind : is_rest behind ≡ true
  spelled : p ≡ spell pieces ++ rest_text behind

Spelling-piece :
    {p : Bytes} (x : Piece) → is_piece x ≡ true → Spelling p → Spelling (piece_text x ++ p)
Spelling-piece {p} x h r = record {
  pieces = x ∷ r.pieces;
  behind = r.behind;
  are_pieces = ground (arith, h, r.are_pieces);
  is_behind = r.is_behind;
  spelled =
      ap (λ s. piece_text x ++ s) r.spelled
      ∙ sym (append_assoc (piece_text x) (spell r.pieces) (rest_text r.behind));
}

Spelling-rest : (r : Rest) → is_rest r ≡ true → Spelling (rest_text r)
Spelling-rest r h = record {
  pieces = [];
  behind = r;
  are_pieces = refl;
  is_behind = h;
  spelled = refl;
}

Spelling-every : (p : Bytes) → Spelling p
Spelling-every [] = Spelling-rest ends refl
Spelling-every (c ∷ []) = elim (Bool-cases (c == b'%')) [
  | inl t ↦
      let same : b'%' ≡ c = ground (arith, t) in
      subst (λ x. Spelling (x ∷ [])) same (Spelling-rest ends_bare refl)
  | inr f ↦ Spelling-piece (char c) (ground (arith, f)) (Spelling-every [])
]
Spelling-every (c ∷ e ∷ s) = elim (Bool-cases (c == b'%')) [
  | inl t ↦
      let same : b'%' ≡ c = ground (arith, t) in
      subst (λ x. Spelling (x ∷ e ∷ s)) same
        (elim (Bool-cases (contains supported e)) [
          | inl known ↦ Spelling-piece (escape_of e) known (Spelling-every s)
          | inr unknown ↦ Spelling-rest (goes_on e s) (ap not unknown)
        ])
  | inr f ↦ Spelling-piece (char c) (ground (arith, f)) (Spelling-every (e ∷ s))
]

-- Every log_line_prefix is a list of pieces, each a byte other than `%` or a supported escape, with
-- nothing, a bare `%` at its end, or an escape that is not supported behind it. It is translated to
-- the expressions of its pieces in their order in the first case, and refused with the error
-- of the fault in the others.
pub compile-pieces :
    (p : Bytes)
    → (xs : List Piece) × (r : Rest) × (all_pieces xs ≡ true)
      × (is_rest r ≡ true)
      × (p ≡ spell xs ++ rest_text r)
      × (compile_log_line_prefix p ≡ compiled_as xs r)
compile-pieces p =
    let w = Spelling-every p in
    (
      w.pieces,
      w.behind,
      w.are_pieces,
      w.is_behind,
      w.spelled,
      ap compile_log_line_prefix w.spelled
          ∙ compile-spell w.pieces w.behind w.are_pieces w.is_behind,
    )
