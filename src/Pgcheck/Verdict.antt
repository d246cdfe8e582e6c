-- ===== src/Pgcheck/Verdict.antt =====
-- The verdict of pgcheck on the log of a server.
use go_txnproof.Prelude.{
  ◌≡◌, ap, ◌∙◌, refl, true, false, List, Option, none, some, Bytes, if◌then◌else◌,
}
use go_txnproof.Classify.{StatementKind}
use go_txnproof.Scanner.Lines.{unlines, reader_of, all_lines}
use go_txnproof.Crosscheck.{LogStatement, non_atomic, check_failed, returns, verify_statements}
use go_txnproof.Crosscheck.ByIdentity.{writes, first_missing}
use go_txnproof.Crosscheck.Grouping.{report_on}
use go_txnproof.Crosscheck.Verify.{one_tx, verify_statements_exact}
use go_txnproof.Crosscheck.Advice.{lacks_tx_id-non_atomic}
use go_txnproof.Crosscheck.Reading.{
  Advised, verdict_of, verify, verify_parsed, advise_on_missing_tx_id, lacks_tx_id,
}
use go_txnproof.Pgcheck.{verify_reader}
use go_txnproof.Pgcheck.Messages.{Message, all_messages, log_lines, statements_of}
use go_txnproof.Pgcheck.RoundTrip.{checker_of, parse-log_lines}

-- What the writes of a log call for, where the first without an identity is known: the error on it,
-- with the advice, or a report, with an error where two writes carry different identities.
abbrev pub advised_on : List LogStatement → Option LogStatement → Advised
advised_on ws none = record {
  verdict = verdict_of (
      returns (some (report_on ws)) (if one_tx ws then none else some (non_atomic (report_on ws))));
  advice = false;
}
advised_on ws (some st) = record {
  verdict = verdict_of (returns none (some (check_failed st)));
  advice = true;
}

advise_exact :
    (ws : List LogStatement) (o : Option LogStatement)
    → advise_on_missing_tx_id (
        verdict_of (elim o [
          | none ↦
              returns
                (some (report_on ws))
                (if one_tx ws then none else some (non_atomic (report_on ws)))
          | some st ↦ returns none (some (check_failed st))
        ]))
      ≡ advised_on ws o
unfolding advise_on_missing_tx_id lacks_tx_id
advise_exact ws none =
    let r = report_on ws in
    ap
      (λ b. record {
        verdict = verdict_of (returns (some r) (if one_tx ws then none else some (non_atomic r)));
        advice = b;
      })
      (lacks_tx_id-non_atomic (one_tx ws) r)
advise_exact ws (some st) = refl

-- What `Checker.Verify` says of any log that was parsed.
pub verify_statements-Advised :
    (sts : List LogStatement)
    → advise_on_missing_tx_id (verdict_of (verify_statements sts))
      ≡ advised_on (writes sts) (first_missing (writes sts))
verify_statements-Advised sts =
    ap (λ v. advise_on_missing_tx_id (verdict_of v)) (verify_statements_exact sts)
    ∙ advise_exact (writes sts) (first_missing (writes sts))

-- The verdict on the lines of statements, and of any messages that carry none, under the default
-- prefix: the error on the first write for which neither a virtual nor a real transaction was
-- logged, with the advice on log_line_prefix; where there is none, the report on all writes by
-- transaction, with an error exactly when two writes were logged in different transactions. The
-- lines are shorter than the Scanner's buffer, and the name of a prepared statement has no colon.
pub verify_reader-log_lines :
    (classify : Bytes → StatementKind) (ms : List Message)
    → all_messages ms ≡ true
    → all_lines (log_lines ms) ≡ true
    → let ws = writes (statements_of classify 0 ms) in
      verify_reader (checker_of classify) (reader_of (unlines (log_lines ms)))
      ≡ advised_on ws (first_missing ws)
unfolding verify_reader verify verify_parsed
verify_reader-log_lines classify ms h lines =
    ap (λ p. advise_on_missing_tx_id (verify_parsed p)) (parse-log_lines classify ms h lines).1
    ∙ verify_statements-Advised (statements_of classify 0 ms)
