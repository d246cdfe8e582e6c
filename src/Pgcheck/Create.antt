-- ===== src/Pgcheck/Create.antt =====
-- Which options `New` makes a Checker of.
use go_txnproof.Prelude.{
  ◌≡◌, refl, ap, ◌∙◌, ℕ, Bool, true, false, ◌||◌, List, [], ◌∷◌, ◌++◌, Bytes, bytes_eq, arith, ◌==◌,
  if◌then◌else◌,
}
use go_txnproof.Classify.{default_classifier}
use go_txnproof.Regexp.{group_names, literal, plus, opt, times}
use go_txnproof.Pgcheck.Prefix.{char_text, escape, bare_percent, unsupported}
use go_txnproof.Pgcheck.{
  Created, created, bad_prefix, no_identifier, has_group, xid_name, vxid_name, new_checker,
  pattern_of, apply_settings, with_log_line_prefix, create_from, create_compiled, create,
}
use go_txnproof.Pgcheck.Escapes.{
  Piece, char, escape_of, all_pieces, spell, Rest, ends, ends_bare, goes_on, is_rest, rest_text,
  piece_regex, pieces_regex, compiled_as, compile-spell,
}

-- Whether an escape is among the pieces.
abbrev pub has_escape : ℕ → List Piece → Bool
has_escape e [] = false
has_escape e (char c ∷ xs) = has_escape e xs
has_escape e (escape_of d ∷ xs) = d == e || has_escape e xs

-- What `New` makes of a prefix with these pieces.
abbrev pub created_as : List Piece → Rest → Created
created_as xs ends =
    if has_escape b'x' xs || has_escape b'v' xs
    then created (record { prefix = pattern_of (pieces_regex xs); classify = default_classifier })
    else no_identifier
created_as xs ends_bare = bad_prefix bare_percent
created_as xs (goes_on e s) = bad_prefix (unsupported e)

has_group-append :
    (xs ys : List Bytes) (name : Bytes)
    → has_group (xs ++ ys) name ≡ (has_group xs name || has_group ys name)
unfolding has_group
has_group-append [] ys name = refl
has_group-append (x ∷ xs) ys name = ground (arith, has_group-append xs ys name)

group_names-literal : (s : Bytes) → group_names (literal s) ≡ []
unfolding group_names literal
group_names-literal [] = refl
group_names-literal (b ∷ s) = group_names-literal s

escape-xid : (e : ℕ) → has_group (group_names (piece_regex (escape_of e))) xid_name ≡ e == b'x'
unfolding escape group_names has_group plus opt times literal bytes_eq
escape-xid e = ground arith

escape-vxid : (e : ℕ) → has_group (group_names (piece_regex (escape_of e))) vxid_name ≡ e == b'v'
unfolding escape group_names has_group plus opt times literal bytes_eq
escape-vxid e = ground arith

-- A group of a name that only one escape makes.
has_group-pieces :
    (name : Bytes) (d : ℕ)
    → ((e : ℕ) → has_group (group_names (piece_regex (escape_of e))) name ≡ e == d)
    → (xs : List Piece) → has_group (group_names (pieces_regex xs)) name ≡ has_escape d xs
unfolding group_names has_group
has_group-pieces name d one [] = refl
has_group-pieces name d one (char c ∷ xs) =
    has_group-append (group_names (piece_regex (char c))) (group_names (pieces_regex xs)) name
    ∙ ap (λ ns. has_group ns name || has_group (group_names (pieces_regex xs)) name)
        (group_names-literal (char_text c))
    ∙ has_group-pieces name d one xs
has_group-pieces name d one (escape_of e ∷ xs) = ground (
  arith,
  has_group-append (group_names (piece_regex (escape_of e))) (group_names (pieces_regex xs)) name,
  one e,
  has_group-pieces name d one xs,
)

create-compiled_as :
    (xs : List Piece) (r : Rest)
    → create_compiled default_classifier (compiled_as xs r) ≡ created_as xs r
unfolding create_compiled create
create-compiled_as xs ends = ground (
  arith,
  has_group-pieces xid_name b'x' escape-xid xs,
  has_group-pieces vxid_name b'v' escape-vxid xs,
)
create-compiled_as xs ends_bare = refl
create-compiled_as xs (goes_on e s) = refl

-- `New` with a log_line_prefix fails with the error of its fault where it has one, and for want of an
-- identifier where neither `%x` nor `%v` is among its escapes. Otherwise it makes the Checker of
-- the expression of its pieces.
pub new_checker-spell :
    (xs : List Piece) (r : Rest)
    → all_pieces xs ≡ true
    → is_rest r ≡ true
    → new_checker (with_log_line_prefix (spell xs ++ rest_text r) ∷ []) ≡ created_as xs r
unfolding new_checker apply_settings with_log_line_prefix create_from
new_checker-spell xs r h g =
    ap (create_compiled default_classifier) (compile-spell xs r h g) ∙ create-compiled_as xs r
