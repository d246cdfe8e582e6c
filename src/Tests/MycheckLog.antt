-- ===== src/Tests/MycheckLog.antt =====
-- Runs of the MySQL log adapter on the lines of a server.
use go_txnproof.Prelude.{
  ◌≡◌, refl, false, true, Bytes, List, [], ◌∷◌, codes, none, some, String, leb, if◌then◌else◌,
  has_prefix, has_suffix, contains_text, bytes_eq, one_of, trim_left,
}
use go_txnproof.Classify.{default_classifier, ident_prefix, is_ident_char, ascii_upper}
use go_txnproof.Mycheck.Tokens.{first_token, strip_leading, strip_loop}
use go_txnproof.Regexp.{
  all_class, in_class, in_spans, match_regex, match_one, match_star, find, or_else, literal, times,
  plus, between, match_end, match_lazy, with_groups,
}
use go_txnproof.Regexp.Fields.{Moment}
use go_txnproof.Scanner.Lines.{reader_of, unlines, all_lines, is_line, ends_in_cr}
use go_txnproof.Session.Units.{outside}
use go_txnproof.Crosscheck.{CheckReport, returns, non_atomic}
use go_txnproof.Crosscheck.Reading.{parsed}
use go_txnproof.Mycheck.{
  reconstruct, reconstruct_from, put_statement, replay, verified, reject_autocommit_change,
}
use go_txnproof.Mycheck.Units.{log_units}
use go_txnproof.Mycheck.Parse.{
  is_match, Checker, parse, judged, verify_reader, verify_reader_scenario, is_banner_line,
}
use go_txnproof.Mycheck.Rendered.{Offset, utc, offset, LogEvent, is_event, event_text}
use go_txnproof.Mycheck.FileLines.{
  LogPart, logged, banner, no_entry, all_parts, file_lines, entries_of,
}
use go_txnproof.Mycheck.RoundTrip.{parse-file_lines}
use go_txnproof.Mycheck.EndToEnd.{advises, verify_reader-quiet, verify_reader-file_lines}

abbrev moment : Moment
moment = record {
  year = codes "2026";
  month = codes "07";
  day = codes "18";
  hour = codes "01";
  minute = codes "58";
  second = codes "59";
}

abbrev event : Offset → String → String → String → List Bytes → LogEvent
event zone thread command first more = record {
  moment = moment;
  fraction = codes "266281";
  zone = zone;
  padding = codes "   ";
  thread = codes thread;
  command = codes command;
  first = codes first;
  more = more;
}

abbrev parts : List LogPart
parts =
    banner (codes "Tcp port: 3306  Unix socket: /tmp/mysql.sock") []
    ∷ logged (event utc "11" "Query" "BEGIN" [])
    ∷ logged (
        event (offset b'+' (codes "09") (codes "00")) "11" "Query" "INSERT INTO a"
          (codes "VALUES (1)" ∷ []))
    ∷ logged (event utc "12" "Execute" "UPDATE b SET n = 1" [])
    ∷ []

parts_fit : (all_parts parts ≡ true) × (all_lines (file_lines parts) ≡ true)
unfolding no_entry is_match find match_regex times match_one in_class in_spans is_banner_line
    literal has_suffix bytes_eq has_prefix is_event all_class is_line ends_in_cr contains_text
    between match_end match_lazy match_star or_else plus with_groups event_text
parts_fit = (refl, refl)

parse-file_lines_example :
    parse default_classifier (reader_of (unlines (file_lines parts)))
    ≡ parsed (reconstruct default_classifier (entries_of 0 parts))
parse-file_lines_example = parse-file_lines default_classifier parts parts_fit.0 parts_fit.1

abbrev checker : Checker
checker = record { classify = default_classifier }

no_autocommit_change :
    reject_autocommit_change (reconstruct default_classifier (entries_of 0 parts)) ≡ none
unfolding reject_autocommit_change reconstruct reconstruct_from put_statement replay one_of bytes_eq
    first_token ident_prefix strip_leading strip_loop has_prefix trim_left is_ident_char ascii_upper
no_autocommit_change = refl

verify_reader-file_lines_example :
    (r : CheckReport) × (verify_reader checker (reader_of (unlines (file_lines parts)))
      ≡ judged
          (verified (returns (some r) (if leb r.write_units 1 then none else some (non_atomic r))))
          false)
    × (r.write_units ≡ log_units default_classifier (λ k. outside) (entries_of 0 parts))
verify_reader-file_lines_example =
    verify_reader-file_lines checker parts parts_fit.0 parts_fit.1 no_autocommit_change

verify_reader-quiet_example :
    (advises (verify_reader checker (reader_of (codes "no log"))) ≡ false)
    × (advises (verify_reader_scenario checker (reader_of (codes "no log")) (codes "a")) ≡ false)
verify_reader-quiet_example = verify_reader-quiet checker (reader_of (codes "no log")) (codes "a")
