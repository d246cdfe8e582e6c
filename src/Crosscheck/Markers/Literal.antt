-- ===== src/Crosscheck/Markers/Literal.antt =====
-- Which marker statements contain the literal of a label.
use mathlib.Core.Option
use go_txnproof.Prelude.{
  ◌≡◌, refl, ◌∙◌, sym, ap, Bool, true, false, Option, none, some, ◌==◌, if◌then◌else◌, drop, List,
  [], ◌∷◌, ◌++◌, append-nil, append_assoc, arith, Bytes, codes, has_prefix, contains_text, contains,
}
use go_txnproof.Crosscheck.{LogStatement}
use go_txnproof.Crosscheck.Markers.{
  double_quotes, marker_literal, begin_kind, end_kind, begin_marker, end_marker, sliced, scenario,
}
use go_txnproof.Crosscheck.Markers.Slice.{none_with, scenario_exact}

has_prefix-append : (s r : Bytes) → has_prefix (s ++ r) s ≡ true
unfolding has_prefix
has_prefix-append [] [] = refl
has_prefix-append [] (c ∷ r) = refl
has_prefix-append (c ∷ s) r = ground (arith, has_prefix-append s r)

contains_text-infix : (p s r : Bytes) → contains_text (p ++ (s ++ r)) s ≡ true
unfolding contains_text has_prefix
contains_text-infix [] [] [] = refl
contains_text-infix [] [] (c ∷ r) = refl
contains_text-infix [] (c ∷ s) r = ground (arith, has_prefix-append s r)
contains_text-infix (c ∷ p) s r = ground (arith, contains_text-infix p s r)

double_quotes-append : (a b : Bytes) → double_quotes (a ++ b) ≡ double_quotes a ++ double_quotes b
unfolding double_quotes
double_quotes-append [] b = refl
double_quotes-append (c ∷ a) b = ground (arith, double_quotes-append a b)

-- The literal of a label stands in its marker.
contains-begin_marker :
    (label : Bytes) → contains_text (begin_marker label) (marker_literal begin_kind label) ≡ true
unfolding begin_marker
contains-begin_marker label =
    ap (λ s. contains_text (codes "SELECT " ++ s) (marker_literal begin_kind label))
      (sym (append-nil (marker_literal begin_kind label)))
    ∙ contains_text-infix (codes "SELECT ") (marker_literal begin_kind label) []

contains-end_marker :
    (label : Bytes) → contains_text (end_marker label) (marker_literal end_kind label) ≡ true
unfolding end_marker
contains-end_marker label =
    ap (λ s. contains_text (codes "SELECT " ++ s) (marker_literal end_kind label))
      (sym (append-nil (marker_literal end_kind label)))
    ∙ contains_text-infix (codes "SELECT ") (marker_literal end_kind label) []

-- A log in which the two markers of a label were executed gives back what ran between them, where
-- no earlier statement has the begin literal and none between has the end literal.
pub scenario_markers :
    (before mid after : List LogStatement) (b e : LogStatement) (label : Bytes)
    → b.sql ≡ begin_marker label
    → e.sql ≡ end_marker label
    → none_with (marker_literal begin_kind label) before ≡ true
    → none_with (marker_literal end_kind label) mid ≡ true
    → scenario (before ++ (b ∷ (mid ++ (e ∷ after)))) label ≡ sliced mid
scenario_markers before mid after b e label hb he out inside =
    let begins =
      ap (λ s. contains_text s (marker_literal begin_kind label)) hb
      ∙ contains-begin_marker label in
    let ends =
      ap (λ s. contains_text s (marker_literal end_kind label)) he ∙ contains-end_marker label in
    (scenario_exact _ label mid).1 (before, b, e, after, refl, out, begins, inside, ends)

shift_quote :
    (x y : Bytes)
    → (x ++ (b'\'' ∷ b'\'' ∷ y)) ++ (b'\'' ∷ [])
      ≡ (x ++ (b'\'' ∷ [])) ++ (b'\'' ∷ (y ++ (b'\'' ∷ [])))
shift_quote [] y = refl
shift_quote (c ∷ x) y = ap (◌∷◌ c) (shift_quote x y)

contains-quoted :
    (head x y : Bytes)
    → contains_text
        (codes "SELECT " ++ (head ++ (double_quotes (x ++ (b'\'' ∷ y)) ++ (b'\'' ∷ []))))
        (head ++ (double_quotes x ++ (b'\'' ∷ [])))
      ≡ true
unfolding double_quotes
contains-quoted head x y =
    let short = double_quotes x ++ (b'\'' ∷ []) in
    let tail = b'\'' ∷ (double_quotes y ++ (b'\'' ∷ [])) in
    let quoted =
      ap (λ s. s ++ (b'\'' ∷ [])) (double_quotes-append x (b'\'' ∷ y))
      ∙ shift_quote (double_quotes x) (double_quotes y) in
    ap (λ s. contains_text (codes "SELECT " ++ s) (head ++ short))
      (ap (λ s. head ++ s) quoted ∙ sym (append_assoc head short tail))
    ∙ contains_text-infix (codes "SELECT ") (head ++ short) tail

-- The value of a string literal of SQL behind its first quote, where the text ends with it: two quotes
-- stand for one. The flag says that a quote was read that may be the last.
unfoldable pub literal_value : Bool → Bytes → Option Bytes
literal_value false [] = none
literal_value true [] = some []
literal_value false (c ∷ s) =
    let more = Option.map (◌∷◌ c) (literal_value false s) in
    let ended = literal_value true s in if c == b'\'' then ended else more
literal_value true (c ∷ s) =
    let more = Option.map (◌∷◌ c) (literal_value false s) in if c == b'\'' then more else none

-- The value that a server gives back for a query of one string literal.
unfoldable pub selected : Bytes → Option Bytes
selected s = if has_prefix s (codes "SELECT '") then literal_value false (drop 8 s) else none

literal_value-double_quotes :
    (s : Bytes) → literal_value false (double_quotes s ++ (b'\'' ∷ [])) ≡ some s
unfolding literal_value double_quotes
literal_value-double_quotes [] = refl
literal_value-double_quotes (c ∷ s) = ground (arith, literal_value-double_quotes s)

literal_value-plain :
    (w s t : Bytes)
    → contains w b'\'' ≡ false
    → literal_value false s ≡ some t
    → literal_value false (w ++ s) ≡ some (w ++ t)
unfolding literal_value
literal_value-plain [] s t h k = k
literal_value-plain (c ∷ w) s t h k =
    ground (arith, h, literal_value-plain w s t (ground (arith, h)) k)

selected-begin_marker :
    (s : Bytes) → selected (begin_marker s) ≡ some (codes "txnproof:begin:" ++ s)
unfolding selected begin_marker marker_literal has_prefix
selected-begin_marker s =
    literal_value-plain (codes "txnproof:begin:") _ s refl (literal_value-double_quotes s)

selected-end_marker : (s : Bytes) → selected (end_marker s) ≡ some (codes "txnproof:end:" ++ s)
unfolding selected end_marker marker_literal has_prefix
selected-end_marker s =
    literal_value-plain (codes "txnproof:end:") _ s refl (literal_value-double_quotes s)

-- The markers of a label with a quote in it are well formed: the server reads each as one literal, the
-- word txnproof, the kind and the label as it is. But Scenario, asked for what stands before that
-- quote, takes them for its own markers, and gives the statements of the other scenario, where no
-- earlier statement has its begin literal and none between has its end literal.
pub scenario-quoted_marker :
    (before mid after : List LogStatement) (b e : LogStatement) (x y : Bytes)
    → b.sql ≡ begin_marker (x ++ (b'\'' ∷ y))
    → e.sql ≡ end_marker (x ++ (b'\'' ∷ y))
    → none_with (marker_literal begin_kind x) before ≡ true
    → none_with (marker_literal end_kind x) mid ≡ true
    → (selected b.sql ≡ some (codes "txnproof:begin:" ++ (x ++ (b'\'' ∷ y))))
      × (selected e.sql ≡ some (codes "txnproof:end:" ++ (x ++ (b'\'' ∷ y))))
      × (scenario (before ++ (b ∷ (mid ++ (e ∷ after)))) x ≡ sliced mid)
unfolding begin_marker end_marker marker_literal
scenario-quoted_marker before mid after b e x y hb he out inside =
    let begins =
      ap (λ s. contains_text s (marker_literal begin_kind x)) hb
      ∙ contains-quoted (codes "'txnproof:begin:") x y in
    let ends =
      ap (λ s. contains_text s (marker_literal end_kind x)) he
      ∙ contains-quoted (codes "'txnproof:end:") x y in
    (
      ap selected hb ∙ selected-begin_marker (x ++ (b'\'' ∷ y)),
      ap selected he ∙ selected-end_marker (x ++ (b'\'' ∷ y)),
      (scenario_exact _ x mid).1 (before, b, e, after, refl, out, begins, inside, ends),
    )
