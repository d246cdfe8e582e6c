-- ===== src/Pgcheck/Lines.antt =====
-- The loop of `Parse` over the further lines of a message.
use go_txnproof.Prelude.{
  ℕ, ◌+◌, ◌≡◌, refl, ap, ◌∙◌, Bool, true, false, List, [], ◌∷◌, ◌++◌, arith, Bytes, has_prefix,
  length,
}
use go_txnproof.Regexp.{in_class, in_spans, all_class, digit}
use go_txnproof.Scanner.Lines.{join_lines}
use go_txnproof.Crosscheck.{LogStatement}
use go_txnproof.Pgcheck.{Pattern, grow_last, parse_line, parse_lines}
use go_txnproof.Regexp.Fields.{is_digits}
use go_txnproof.Pgcheck.Fields.{stamp_text}
use go_txnproof.Pgcheck.Rendered.{LinePrefix, is_prefix, prefix_text}
use go_txnproof.Pgcheck.Messages.{tabbed}

-- A prefix begins with a digit, which is no tab.
abbrev digit_first : Bytes → Bool
digit_first [] = false
digit_first (c ∷ s) = in_class digit c

digit_first-append : (a b : Bytes) → digit_first a ≡ true → digit_first (a ++ b) ≡ true
digit_first-append [] b h = absurd (ground (arith, h))
digit_first-append (c ∷ a) b h = h

is_digits-digit_first : (a : Bytes) → is_digits 4 a ≡ true → digit_first a ≡ true
unfolding all_class
is_digits-digit_first [] h = absurd (ground (arith, h))
is_digits-digit_first (c ∷ a) h = ground (arith, h)

no_tab_lem : (s : Bytes) → digit_first s ≡ true → has_prefix s (b'\t' ∷ []) ≡ false
unfolding in_class in_spans has_prefix
no_tab_lem [] h = absurd (ground (arith, h))
no_tab_lem (c ∷ s) h = ground (arith, h)

pub has_prefix-prefix_text :
    (p : LinePrefix) (rest : Bytes)
    → is_prefix p ≡ true
    → has_prefix (prefix_text p ++ rest) (b'\t' ∷ []) ≡ false
unfolding prefix_text is_prefix
has_prefix-prefix_text p rest h = no_tab_lem _ (
    digit_first-append (prefix_text p) rest (
      digit_first-append (stamp_text p.stamp) _ (
        digit_first-append p.stamp.moment.year _
          (is_digits-digit_first p.stamp.moment.year (ground (arith, h))))))

grow_last-append :
    (sts : List LogStatement) (st : LogStatement) (text : Bytes)
    → grow_last (sts ++ st ∷ []) text ≡ sts ++ record st { sql = st.sql ++ (b'\n' ∷ text) } ∷ []
unfolding grow_last
grow_last-append [] st text = refl
grow_last-append (s ∷ []) st text = refl
grow_last-append (s ∷ s' ∷ sts) st text = ap (λ xs. s ∷ xs) (grow_last-append (s' ∷ sts) st text)

module _ (re : Pattern) where
  -- The further lines of a statement, all of which are added to it.
  pub parse_lines-more :
      (sts : List LogStatement) (st : LogStatement) (sql : Bytes) (n : ℕ) (more rest : List Bytes)
      → parse_lines re
          (record { statements = sts ++ record st { sql = sql } ∷ []; continuing = true; line = n })
          (tabbed more ++ rest)
        ≡ parse_lines re
            (record {
              statements = sts ++ record st { sql = join_lines sql more } ∷ [];
              continuing = true;
              line = n + length more;
            })
            rest
  unfolding parse_lines parse_line has_prefix
  parse_lines-more sts st sql n [] rest =
      ap
        (λ m.
          parse_lines re
            (record {
              statements = sts ++ record st { sql = sql } ∷ [];
              continuing = true;
              line = m;
            })
            rest)
        (omega arith)
  parse_lines-more sts st sql n (l ∷ more) rest =
      ap
        (λ xs.
          parse_lines re (record { statements = xs; continuing = true; line = n + 1 })
            (tabbed more ++ rest))
        (grow_last-append sts (record st { sql = sql }) l)
      ∙ parse_lines-more sts st (sql ++ (b'\n' ∷ l)) (n + 1) more rest
      ∙ ap
          (λ m.
            parse_lines re
              (record {
                statements = sts ++ record st { sql = join_lines sql (l ∷ more) } ∷ [];
                continuing = true;
                line = m;
              })
              rest)
          (omega arith)

  -- The further lines of another message, which are skipped.
  pub parse_lines-skipped :
      (sts : List LogStatement) (n : ℕ) (more rest : List Bytes)
      → parse_lines re
          (record { statements = sts; continuing = false; line = n })
          (tabbed more ++ rest)
        ≡ parse_lines re
            (record { statements = sts; continuing = false; line = n + length more })
            rest
  unfolding parse_lines parse_line has_prefix
  parse_lines-skipped sts n [] rest =
      ap (λ m. parse_lines re (record { statements = sts; continuing = false; line = m }) rest)
        (omega arith)
  parse_lines-skipped sts n (l ∷ more) rest =
      parse_lines-skipped sts (n + 1) more rest
      ∙ ap (λ m. parse_lines re (record { statements = sts; continuing = false; line = m }) rest)
          (omega arith)
