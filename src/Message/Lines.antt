-- ===== src/Message/Lines.antt =====
-- The lines of the text of a violation.
use go_txnproof.Prelude.{
  ℕ, zero, suc, ◌≡◌, refl, sym, ap, ◌∙◌, Bool, true, Bool-cases, inl, inr, List, [], ◌∷◌, ◌++◌,
  append-nil, append_assoc, arith, Bytes, codes, map,
}
use go_txnproof.Mycheck.Labels.{decimal}
use go_txnproof.Slog.Lines.{unit_name, writes_of, unit_label-unit_name}
use go_txnproof.Compact.{compact_sql}
use go_txnproof.Slog.{write_line, write_lines}
use go_txnproof.Message.{
  more_units, format_write_units, allowed_text, quote, write_text, truncated_text, heading,
  violation_string,
}
use go_txnproof.Detector.{is_write}
use go_txnproof.Report.{StatementRecord, Violation}
use go_txnproof.Scanner.{split_lines, put_byte}
use go_txnproof.Scanner.Lines.{split_lines-line}
use go_txnproof.Message.OneLine.{
  IsLine, append-IsLine, all_lines, write_line-IsLine, decimal-IsLine, heading-IsLine,
}

-- Lines, each behind a newline and indented.
abbrev behind : List Bytes → Bytes
behind [] = []
behind (l ∷ ls) = codes "\n  " ++ (l ++ behind ls)

abbrev pub indented : Bytes → Bytes
indented l = codes "  " ++ l

-- The line that tells how many statements are missing.
abbrev pub truncated_lines : ℕ → List Bytes
truncated_lines zero = []
truncated_lines (suc n) = (codes "(+" ++ (decimal (suc n) ++ codes " statements truncated)")) ∷ []

behind-append : (ls ms : List Bytes) → behind (ls ++ ms) ≡ behind ls ++ behind ms
behind-append [] ms = refl
behind-append (l ∷ ls) ms =
    ap (λ t. codes "\n  " ++ t)
      (ap (λ t. l ++ t) (behind-append ls ms) ∙ sym (append_assoc l (behind ls) (behind ms)))

behind-write_lines : (ss : List StatementRecord) → write_text ss ≡ behind (write_lines ss)
unfolding write_text write_lines
behind-write_lines [] = refl
behind-write_lines (s ∷ ss) = ground (arith, behind-write_lines ss)

behind-truncated_lines : (n : ℕ) → truncated_text n ≡ behind (truncated_lines n)
unfolding truncated_text
behind-truncated_lines zero = refl
behind-truncated_lines (suc n) =
    ap (λ t. codes "\n  (+" ++ t)
      (sym (append-nil (decimal (suc n) ++ codes " statements truncated)")))

all_lines-append :
    (ls ms : List Bytes) → all_lines ls ≡ true → all_lines ms ≡ true → all_lines (ls ++ ms) ≡ true
all_lines-append [] ms h k = k
all_lines-append (l ∷ ls) ms h k = ground (arith, h, k, all_lines-append ls ms)

write_lines-lines : (ss : List StatementRecord) → all_lines (write_lines ss) ≡ true
unfolding IsLine write_lines
write_lines-lines [] = refl
write_lines-lines (s ∷ ss) = ground (arith, write_line-IsLine s, write_lines-lines ss)

truncated_lines-lines : (n : ℕ) → all_lines (truncated_lines n) ≡ true
unfolding IsLine
truncated_lines-lines zero = refl
truncated_lines-lines (suc n) =
    rw
      (append-IsLine (decimal (suc n)) (codes " statements truncated)") (decimal-IsLine (suc n))
        refl)
      refl

split_lines-last : (c : ℕ) (l : Bytes) → IsLine (c ∷ l) → split_lines (c ∷ l) ≡ (c ∷ l) ∷ []
unfolding IsLine split_lines put_byte
split_lines-last c [] h = ground (arith, h)
split_lines-last c (d ∷ l) h = ground (arith, h, split_lines-last d l)

split_lines-behind :
    (c : ℕ) (l : Bytes) (ls : List Bytes)
    → IsLine (c ∷ l)
    → all_lines ls ≡ true
    → split_lines ((c ∷ l) ++ behind ls) ≡ (c ∷ l) ∷ map indented ls
unfolding IsLine
split_lines-behind c l [] h k = ap split_lines (append-nil (c ∷ l)) ∙ split_lines-last c l h
split_lines-behind c l (m ∷ ls) h k =
    split_lines-line (c ∷ l) (b' ' ∷ b' ' ∷ (m ++ behind ls)) h
    ∙ ap (λ x. (c ∷ l) ∷ x)
        (split_lines-behind b' ' (b' ' ∷ m) ls (ground (arith, k)) (ground (arith, k)))

-- A line that shows a write: its unit, and its text on one line.
abbrev pub shown_write : StatementRecord → Bytes
shown_write s = codes "[" ++ (unit_name s.tx_id ++ (codes "] " ++ compact_sql s.query))

write_lines-shown : (ss : List StatementRecord) → write_lines ss ≡ map shown_write (writes_of ss)
unfolding write_lines write_line
write_lines-shown [] = refl
write_lines-shown (s ∷ ss) = elim (Bool-cases (is_write s.kind)) [
  | inl t ↦ rw t (
      ap (λ u. (codes "[" ++ (u ++ (codes "] " ++ compact_sql s.query))) ∷ write_lines ss)
        (unit_label-unit_name s.tx_id)
      ∙ ap (λ xs. shown_write s ∷ xs) (write_lines-shown ss))
  | inr f ↦ rw f (write_lines-shown ss)
]

-- Numbers as a choice: commas between them, and the word "or" in front of the last.
abbrev pub alternatives : List ℕ → Bytes
alternatives [] = []
alternatives (n ∷ []) = decimal n
alternatives (n ∷ m ∷ []) = decimal n ++ (codes " or " ++ decimal m)
alternatives (n ∷ m ∷ k ∷ ns) = decimal n ++ (codes ", " ++ alternatives (m ∷ k ∷ ns))

alternatives-more_units : (n : ℕ) (ns : List ℕ) → alternatives (n ∷ ns) ≡ decimal n ++ more_units ns
unfolding more_units
alternatives-more_units n [] = sym (append-nil (decimal n))
alternatives-more_units n (m ∷ []) = refl
alternatives-more_units n (m ∷ k ∷ ns) =
    ap (λ t. decimal n ++ (codes ", " ++ t)) (alternatives-more_units m (k ∷ ns))

-- Why an allow with these counts did not apply.
abbrev pub allowed_note : List ℕ → Bytes
allowed_note [] = []
allowed_note ns =
    codes " (allowed for exactly "
    ++ (alternatives ns ++ codes " write unit(s), so this execution is not covered)")

allowed_text-note : (ns : List ℕ) → allowed_text ns ≡ allowed_note ns
unfolding allowed_text format_write_units
allowed_text-note [] = refl
allowed_text-note (n ∷ ns) =
    let unit = codes " write unit(s)" in
    let end = codes ", so this execution is not covered)" in
    ap (λ t. codes " (allowed for exactly " ++ t)
      (append_assoc (decimal n) (more_units ns ++ unit) end
        ∙ ap (λ t. decimal n ++ t) (append_assoc (more_units ns) unit end)
        ∙ sym (append_assoc (decimal n) (more_units ns) (unit ++ end))
        ∙ ap (λ t. t ++ (unit ++ end)) (sym (alternatives-more_units n ns)))

module _ (is_print_rune : ℕ → Bool) where
  whole_string :
      (v : Violation)
      → split_lines (violation_string is_print_rune v) ≡ (
          heading is_print_rune v
          ∷ map indented (write_lines v.statements ++ truncated_lines v.truncated_statements))
  unfolding violation_string heading
  whole_string v =
      let ls = write_lines v.statements in
      let end = truncated_lines v.truncated_statements in
      let same : write_text v.statements ++ truncated_text v.truncated_statements
          ≡ behind (ls ++ end) =
        rw (behind-write_lines v.statements, behind-truncated_lines v.truncated_statements)
          (sym (behind-append ls end)) in
      ap (λ t. split_lines (heading is_print_rune v ++ t)) same
      ∙ split_lines-behind b't' _ (ls ++ end) (heading-IsLine is_print_rune v) (
          all_lines-append ls end (write_lines-lines v.statements)
            (truncated_lines-lines v.truncated_statements))

  -- The text of a violation has these lines and no other, whatever bytes the name and the statements
  -- hold: one with the quoted name, the number of write units and the counts that an allow would have
  -- covered, if any; one indented line for each write, with its unit and its text on one line, in the
  -- order of the timeline; and one on the number of statements that were truncated, if any were.
  pub violation_string-lines :
      (v : Violation)
      → split_lines (violation_string is_print_rune v) ≡ (
          (codes "txnproof: boundary "
            ++ (quote is_print_rune v.boundary
                ++ (codes " is not atomic: writes span "
                    ++ (decimal v.write_units
                        ++ (codes " atomic units"
                            ++ (allowed_note v.allowed_write_units ++ codes ":"))))))
          ∷ map indented
              (map shown_write (writes_of v.statements) ++ truncated_lines v.truncated_statements))
  unfolding heading
  violation_string-lines v =
      whole_string v
      ∙ rw (allowed_text-note v.allowed_write_units, write_lines-shown v.statements) refl
