-- ===== src/Tests/Pgcheck.antt =====
-- Runs of the PostgreSQL log adapter on the lines of a server.
use go_txnproof.Prelude.{◌≡◌, refl, true, Bytes, List, [], ◌∷◌, ◌++◌, codes, none, some, String}
use go_txnproof.Classify.{default_classifier}
use go_txnproof.Regexp.Fields.{Moment}
use go_txnproof.Regexp.{all_class, in_class, in_spans}
use go_txnproof.Scanner.Lines.{reader_of, unlines, all_lines, is_line, ends_in_cr}
use go_txnproof.Crosscheck.ByIdentity.{writes, first_missing}
use go_txnproof.Crosscheck.Reading.{parsed}
use go_txnproof.Pgcheck.{
  new_checker, with_classifier, with_log_line_prefix, created, parse, verify_reader,
}
use go_txnproof.Pgcheck.Prefix.{compile_log_line_prefix}
use go_txnproof.Pgcheck.Escapes.{
  Piece, char, escape_of, Rest, ends, all_pieces, spell, is_rest, rest_text, compiled_as,
  compile-pieces,
}
use go_txnproof.Pgcheck.Create.{created_as, new_checker-spell}
use go_txnproof.Pgcheck.Rendered.{
  simple, execute, LinePrefix, is_prefix, is_body, prefix_text, body_text,
}
use go_txnproof.Pgcheck.Messages.{
  Message, statement, other_message, all_messages, log_lines, statements_of,
}
use go_txnproof.Pgcheck.Bodies.{carries_statement, cut, skip, run, names_protocol, timed_protocol}
use go_txnproof.Pgcheck.RoundTrip.{checker_of, parse-log_lines}
use go_txnproof.Pgcheck.Verdict.{advised_on, verify_reader-log_lines}

abbrev moment : Moment
moment = record {
  year = codes "2026";
  month = codes "07";
  day = codes "18";
  hour = codes "10";
  minute = codes "00";
  second = codes "01";
}

abbrev prefix : String → String → LinePrefix
prefix xid local = record {
  stamp = record { moment = moment; fraction = codes "000"; zone = codes "UTC" };
  pid = codes "77";
  xid = codes xid;
  vxid = some (codes "3", codes local);
}

-- Two statements of one transaction, messages that carry none, and a statement with no virtual transaction.
abbrev messages : List Message
messages =
    statement (record {
      prefix = prefix "0" "11";
      duration = none;
      via = simple;
      first = codes "INSERT INTO a";
      more = codes "VALUES (1)" ∷ [];
    })
    ∷ statement (record {
      prefix = prefix "0" "11";
      duration = some (codes "0.3");
      via = execute (codes "<unnamed>");
      first = codes "UPDATE b SET n = 1";
      more = [];
    })
    ∷ other_message (prefix "0" "11") (codes "LOG:  duration: 0.1 ms  parse s: INSERT INTO a") []
    ∷ other_message (prefix "0" "11") (codes "LOG:  duration: 0.5 ms") []
    ∷ other_message (prefix "0" "11") (codes "ERROR:  no table b") (codes "at character 8" ∷ [])
    ∷ statement (record {
      prefix = prefix "731" "0";
      duration = none;
      via = simple;
      first = codes "COMMIT";
      more = [];
    })
    ∷ []

messages_fit : (all_messages messages ≡ true) × (all_lines (log_lines messages) ≡ true)
unfolding is_prefix is_body prefix_text body_text all_class in_class in_spans is_line ends_in_cr
    carries_statement cut skip run names_protocol timed_protocol
messages_fit = (refl, refl)

parse-log_lines_example :
    (new_checker (with_classifier default_classifier ∷ [])
      ≡ created (checker_of default_classifier))
    × (parse (checker_of default_classifier) (reader_of (unlines (log_lines messages)))
        ≡ parsed (statements_of default_classifier 0 messages))
parse-log_lines_example = parse-log_lines default_classifier messages messages_fit.0 messages_fit.1

verify_reader-log_lines_example :
    verify_reader (checker_of default_classifier) (reader_of (unlines (log_lines messages)))
    ≡ advised_on
        (writes (statements_of default_classifier 0 messages))
        (first_missing (writes (statements_of default_classifier 0 messages)))
verify_reader-log_lines_example =
    verify_reader-log_lines default_classifier messages messages_fit.0 messages_fit.1

abbrev with_json : Bytes
with_json = codes "%v %j"

compile-pieces_example :
    (xs : List Piece) × (r : Rest) × (all_pieces xs ≡ true)
    × (is_rest r ≡ true)
    × (with_json ≡ spell xs ++ rest_text r)
    × (compile_log_line_prefix with_json ≡ compiled_as xs r)
compile-pieces_example = compile-pieces with_json

abbrev no_identifiers : List Piece
no_identifiers = escape_of b'm' ∷ char b' ' ∷ escape_of b'u' ∷ []

new_checker-spell_example :
    new_checker (with_log_line_prefix (spell no_identifiers ++ rest_text ends) ∷ [])
    ≡ created_as no_identifiers ends
new_checker-spell_example = new_checker-spell no_identifiers ends refl refl
