-- ===== src/Pgcheck/Bodies.antt =====
-- Which messages of a PostgreSQL log carry the text of a statement, told without an expression.
use go_txnproof.Prelude.{
  ℕ, ◌≡◌, refl, sym, subst, ap, ◌∙◌, Bool, true, false, Option-cases, inl, inr, ◌||◌, [], ◌∷◌, ◌++◌,
  Option, none, some, arith, Bytes, codes, contains, contains-append, ◌==◌, if◌then◌else◌,
}
use go_txnproof.Regexp.{
  Class, in_class, in_spans, all_class, literal, alt, opt, space, find, match_regex, found_at,
}
use go_txnproof.Regexp.Takes.{stops}
use go_txnproof.Regexp.Consumes.{Consumes, match_regex-Consumes, literal-Consumes, plus-Consumes}
use go_txnproof.Pgcheck.{duration_char, body_regex, duration_regex, execute_regex}

-- What follows a literal that a text begins with.
unfoldable pub cut : Bytes → Bytes → Option Bytes
cut [] s = some s
cut (b ∷ w) [] = none
cut (b ∷ w) (c ∷ s) = let rest = cut w s in if c == b then rest else none

-- What follows the bytes of a class, of which there is one at least.
unfoldable pub skip : Class → Bytes → Bytes
skip x [] = []
skip x (c ∷ s) = let rest = skip x s in if in_class x c then rest else c ∷ s

unfoldable pub run : Class → Bytes → Option Bytes
run x s = if stops x s then none else some (skip x s)

abbrev pub on : Option Bytes → (Bytes → Bool) → Bool
on none f = false
on (some s) f = f s

-- "statement:", or "execute ", the name of a prepared statement and a colon.
unfoldable pub names_protocol : Bytes → Bool
names_protocol s =
    on (cut (codes "statement:") s) (λ t. true)
    || on (cut (codes "execute ") s) (λ t. contains t b':')

-- The same behind a duration, a number of milliseconds.
unfoldable pub timed_protocol : Bytes → Bool
timed_protocol s =
    on (cut (codes "duration: ") s) λ t.
      on (run duration_char t) λ u. on (cut (codes " ms") u) λ v. on (run space v) names_protocol

-- A message carries a statement if it is of the level LOG and names a protocol, behind a duration or
-- not. The messages on the phases parse and bind, on a duration alone, on connections and on errors
-- carry none.
unfoldable pub carries_statement : Bytes → Bool
carries_statement s =
    on (cut (codes "LOG:") s) λ t. on (run space t) λ u. names_protocol u || timed_protocol u

cut-append : (w s : Bytes) → cut w (w ++ s) ≡ some s
unfolding cut
cut-append [] s = refl
cut-append (b ∷ w) s = ground (arith, cut-append w s)

skip-stops : (x : Class) (s : Bytes) → stops x s ≡ true → skip x s ≡ s
unfolding skip
skip-stops x [] h = refl
skip-stops x (c ∷ s) h = ground (arith, h)

skip-append :
    (x : Class) (w s : Bytes) → all_class x w ≡ true → stops x s ≡ true → skip x (w ++ s) ≡ s
unfolding skip all_class
skip-append x [] s h k = skip-stops x s k
skip-append x (c ∷ w) s h k = ground (arith, h, skip-append x w s (ground (arith, h)) k)

run-append :
    (x : Class) (c : ℕ) (w s : Bytes)
    → all_class x (c ∷ w) ≡ true
    → stops x s ≡ true
    → run x ((c ∷ w) ++ s) ≡ some s
unfolding run all_class
run-append x c w s h k = ground (arith, h, skip-append x (c ∷ w) s h k)

-- A text that names a protocol, and begins with no blank.
abbrev Named : Bytes → Type 0
Named s = (names_protocol s ≡ true) × (stops space s ≡ true)

statement-Named : (s : Bytes) → Named (codes "statement:" ++ s)
unfolding names_protocol in_class in_spans cut
statement-Named s = (refl, refl)

execute-Named : (w s : Bytes) → Named (codes "execute " ++ (w ++ (codes ":" ++ s)))
unfolding names_protocol in_class in_spans cut
execute-Named w s = (ground (arith, contains-append w (codes ":" ++ s) b':'), refl)

execute-Consumes :
    (s rest : Bytes)
    → Consumes execute_regex s rest
    → (w : Bytes) × (s ≡ codes "execute " ++ (w ++ (codes ":" ++ rest)))
unfolding Consumes
execute-Consumes s rest (mid, e, (mid', (w, run, all), colon)) = (
  w,
  literal-Consumes (codes "execute ") s mid e
      ∙ ap (λ t. codes "execute " ++ t)
          (run ∙ ap (λ t. w ++ t) (literal-Consumes (codes ":") mid' rest colon)),
)

protocol-Consumes :
    (s rest : Bytes) → Consumes (alt (literal (codes "statement:")) execute_regex) s rest → Named s
unfolding Consumes
protocol-Consumes s rest (inl e) =
    subst Named (sym (literal-Consumes (codes "statement:") s rest e)) (statement-Named rest)
protocol-Consumes s rest (inr e) =
    let (w, eq) = execute-Consumes s rest e in subst Named (sym eq) (execute-Named w rest)

-- The duration in front of a text.
abbrev Timed : Bytes → Bytes → Type 0
Timed s rest =
    (c : ℕ) × (d : Bytes) × (g : ℕ) × (gap : Bytes) × (s
      ≡ codes "duration: " ++ ((c ∷ d) ++ (codes " ms" ++ ((g ∷ gap) ++ rest))))
    × (all_class duration_char (c ∷ d) ≡ true)
    × (all_class space (g ∷ gap) ≡ true)

duration-Consumes : (s rest : Bytes) → Consumes duration_regex s rest → Timed s rest
unfolding Consumes
duration-Consumes s rest (m1, l1, (m2, run, (m3, l2, blank))) =
    let (c, d, eq, all) = plus-Consumes duration_char m1 m2 run in
    let (g, gap, eq', all') = plus-Consumes space m3 rest blank in
    (
      c,
      d,
      g,
      gap,
      literal-Consumes (codes "duration: ") s m1 l1
          ∙ ap (λ t. codes "duration: " ++ t)
              (eq
                ∙ ap (λ t. (c ∷ d) ++ t)
                    (literal-Consumes (codes " ms") m2 m3 l2 ∙ ap (λ t. codes " ms" ++ t) eq')),
      all,
      all',
    )

timed-Named :
    (c : ℕ) (d : Bytes) (g : ℕ) (gap rest : Bytes)
    → all_class duration_char (c ∷ d) ≡ true
    → all_class space (g ∷ gap) ≡ true
    → Named rest
    → timed_protocol (codes "duration: " ++ ((c ∷ d) ++ (codes " ms" ++ ((g ∷ gap) ++ rest))))
      ≡ true
unfolding timed_protocol
timed-Named c d g gap rest all all' (named, stop) =
    let behind = codes " ms" ++ ((g ∷ gap) ++ rest) in
    rw (cut-append (codes "duration: ") ((c ∷ d) ++ behind)) (
      rw (run-append duration_char c d behind all (unfold in_class in_spans in refl)) (
        rw (cut-append (codes " ms") ((g ∷ gap) ++ rest))
          (rw (run-append space g gap rest all' stop) named)))

-- What stands behind the level, in front of the protocol.
abbrev Behind : Bytes → Type 0
Behind s = (names_protocol s || timed_protocol s ≡ true) × (stops space s ≡ true)

opt-Consumes : (s rest : Bytes) → Consumes (opt duration_regex) s rest → Named rest → Behind s
unfolding Consumes opt in_class in_spans
opt-Consumes s rest (inr same) named = subst Behind (sym same) (ground (arith, named.0), named.1)
opt-Consumes s rest (inl e) named =
    let (c, d, g, gap, eq, all, all') = duration-Consumes s rest e in
    let timed = timed-Named c d g gap rest all all' named in
    subst Behind (sym eq) (ground (arith, timed), refl)

body-Consumes : (s rest : Bytes) → Consumes body_regex s rest → carries_statement s ≡ true
unfolding Consumes carries_statement
body-Consumes s rest (m1, l1, (m2, blank, (m3, duration, (m4, protocol, text)))) =
    let (c, gap, eq, all) = plus-Consumes space m1 m2 blank in
    let (named, stop) = opt-Consumes m2 m3 duration (protocol-Consumes m3 m4 protocol) in
    ap carries_statement (literal-Consumes (codes "LOG:") s m1 l1 ∙ ap (λ t. codes "LOG:" ++ t) eq)
    ∙ rw (cut-append (codes "LOG:") ((c ∷ gap) ++ m2))
        (rw (run-append space c gap m2 all stop) named)

-- The expression of the source matches no other message.
pub find-no_statement : (s : Bytes) → carries_statement s ≡ false → find body_regex s ≡ none
unfolding find
find-no_statement s h = elim (Option-cases (match_regex body_regex s found_at)) [
  | inl e ↦ e
  | inr (f, e) ↦
      let (rest, taken, g, same) = match_regex-Consumes body_regex s found_at f e in
      absurd (ground (arith, h, body-Consumes s rest taken))
]
