-- ===== src/Pgcheck/RoundTrip.antt =====
-- What pgcheck reads back from the lines of a server.
use go_txnproof.Prelude.{
  ℕ, ◌+◌, ◌≡◌, refl, sym, ap, ◌∙◌, Bool, true, false, List, [], ◌∷◌, ◌++◌, append-nil, append_assoc,
  arith, Bytes, bytes_eq, length,
}
use go_txnproof.Classify.{StatementKind}
use go_txnproof.Regexp.{digit, group_names, plus, opt, times, literal}
use go_txnproof.Scanner.Lines.{unlines, reader_of, all_lines, scan-unlines}
use go_txnproof.Crosscheck.{LogStatement}
use go_txnproof.Crosscheck.Reading.{parsed}
use go_txnproof.Pgcheck.{
  Checker, Pattern, pattern_of, ParseState, put_body, put_match, parse_line, parse_lines,
  classify_all, parse_scanned, parse, first_group, new_checker, apply_settings, with_classifier,
  create_from, create_compiled, create, created, has_group,
}
use go_txnproof.Regexp.Fields.{is_run}
use go_txnproof.Pgcheck.Rendered.{
  LinePrefix, LogEntry, is_vxid, is_prefix, is_body, prefix_text, body_text, default_regex,
  find-default, find-body, default_prefix-compiled,
}
use go_txnproof.Pgcheck.Bodies.{carries_statement, find-no_statement}
use go_txnproof.Pgcheck.Messages.{
  Message, statement, other_message, is_message, all_messages, tabbed, log_lines, tx_of,
  statement_of, statements_of, identity-prefix,
}
use go_txnproof.Pgcheck.Lines.{has_prefix-prefix_text, parse_lines-more, parse_lines-skipped}

abbrev state : List LogStatement → Bool → ℕ → ParseState
state sts continuing n = record { statements = sts; continuing = continuing; line = n }

abbrev default_pattern : Pattern
default_pattern = pattern_of default_regex

abbrev unclassified : Bytes → StatementKind
unclassified s = StatementKind.other

parse_line-statement :
    (sts : List LogStatement) (b : Bool) (n : ℕ) (e : LogEntry)
    → is_message (statement e) ≡ true
    → parse_line default_pattern (state sts b n) (prefix_text e.prefix ++ body_text e)
      ≡ state
          (sts
            ++ record {
              sql = e.first;
              kind = StatementKind.other;
              tx_id = tx_of e.prefix.xid e.prefix.vxid;
              line = n + 1;
            }
              ∷ [])
          true
          (n + 1)
unfolding parse_line put_match put_body first_group is_prefix is_body
parse_line-statement sts b n e h =
    let p : is_prefix e.prefix ≡ true = ground (arith, h) in
    let q : is_body e ≡ true = ground (arith, h) in
    let x : is_run digit e.prefix.xid ≡ true = ground (arith, p) in
    let v : is_vxid e.prefix.vxid ≡ true = ground (arith, p) in
    rw (has_prefix-prefix_text e.prefix (body_text e) p) (
      rw (find-default e.prefix (body_text e) p)
        (rw (find-body e q) (rw (identity-prefix e.prefix.xid e.prefix.vxid x v) refl)))

parse_line-other_message :
    (sts : List LogStatement) (b : Bool) (n : ℕ) (p : LinePrefix) (text : Bytes) (more : List Bytes)
    → is_message (other_message p text more) ≡ true
    → parse_line default_pattern (state sts b n) (prefix_text p ++ text) ≡ state sts false (n + 1)
unfolding parse_line put_match put_body
parse_line-other_message sts b n p text more h =
    let q : is_prefix p ≡ true = ground (arith, h) in
    let r : carries_statement text ≡ false = ground (arith, h) in
    rw (has_prefix-prefix_text p text q)
      (rw (find-default p text q) (rw (find-no_statement text r) refl))

parse_lines-log_lines :
    (sts : List LogStatement) (b : Bool) (n : ℕ) (ms : List Message)
    → all_messages ms ≡ true
    → (parse_lines default_pattern (state sts b n) (log_lines ms)).statements
      ≡ sts ++ statements_of unclassified n ms
unfolding parse_lines
parse_lines-log_lines sts b n [] h = sym (append-nil sts)
parse_lines-log_lines sts b n (statement e ∷ ms) h =
    let lines = tabbed e.more ++ log_lines ms in
    let st = statement_of unclassified (n + 1) e in
    let m = n + 1 + length e.more in
    ap (λ s. (parse_lines default_pattern s lines).statements)
      (parse_line-statement sts b n e (ground (arith, h)))
    ∙ ap (λ s. s.statements)
        (parse_lines-more default_pattern sts st e.first (n + 1) e.more (log_lines ms))
    ∙ parse_lines-log_lines (sts ++ st ∷ []) true m ms (ground (arith, h))
    ∙ append_assoc sts (st ∷ []) (statements_of unclassified m ms)
parse_lines-log_lines sts b n (other_message p text more ∷ ms) h =
    let lines = tabbed more ++ log_lines ms in
    ap (λ s. (parse_lines default_pattern s lines).statements)
      (parse_line-other_message sts b n p text more (ground (arith, h)))
    ∙ ap (λ s. s.statements) (parse_lines-skipped default_pattern sts (n + 1) more (log_lines ms))
    ∙ parse_lines-log_lines sts false (n + 1 + length more) ms (ground (arith, h))

classify_all-statements_of :
    (classify : Bytes → StatementKind) (n : ℕ) (ms : List Message)
    → classify_all classify (statements_of unclassified n ms) ≡ statements_of classify n ms
unfolding classify_all
classify_all-statements_of classify n [] = refl
classify_all-statements_of classify n (statement e ∷ ms) =
    ap (λ sts. statement_of classify (n + 1) e ∷ sts)
      (classify_all-statements_of classify (n + 1 + length e.more) ms)
classify_all-statements_of classify n (other_message p text more ∷ ms) =
    classify_all-statements_of classify (n + 1 + length more) ms

-- The Checker of the default prefix.
abbrev pub checker_of : (Bytes → StatementKind) → Checker
checker_of classify = record { prefix = pattern_of default_regex; classify = classify }

pub new_checker-default :
    (classify : Bytes → StatementKind)
    → new_checker (with_classifier classify ∷ []) ≡ created (checker_of classify)
unfolding new_checker apply_settings with_classifier create_from create_compiled create has_group
    group_names bytes_eq plus opt times literal default_regex
new_checker-default classify = rw default_prefix-compiled refl

-- The default Checker is made by `New`, and from the lines of messages under the default prefix it
-- reads exactly the statements: each with its text rejoined, the line it began on, and the identity
-- of its prefix. A statement is read whether or not its duration is logged, and by either protocol.
-- Every message that carries no statement is skipped with its further lines, of the level LOG as
-- well: those on the phases parse and bind, on a duration alone, on connections. The lines are
-- shorter than the Scanner's buffer, and the name of a prepared statement has no colon.
pub parse-log_lines :
    (classify : Bytes → StatementKind) (ms : List Message)
    → all_messages ms ≡ true
    → all_lines (log_lines ms) ≡ true
    → (new_checker (with_classifier classify ∷ []) ≡ created (checker_of classify))
      × (parse (checker_of classify) (reader_of (unlines (log_lines ms)))
          ≡ parsed (statements_of classify 0 ms))
unfolding parse parse_scanned
parse-log_lines classify ms h lines = (
  new_checker-default classify,
  ap (parse_scanned (checker_of classify)) (scan-unlines (log_lines ms) lines)
      ∙ ap (λ sts. parsed (classify_all classify sts)) (parse_lines-log_lines [] false 0 ms h)
      ∙ ap parsed (classify_all-statements_of classify 0 ms),
)
