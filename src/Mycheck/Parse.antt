-- ===== src/Mycheck/Parse.antt =====
-- mycheck/parse.go, mycheck/mycheck.go: from the lines of a MySQL general log to its entries, and the
-- verdict on them.
use go_txnproof.Prelude.{
  ℕ, zero, suc, ◌+◌, Bool, true, false, ◌&&◌, List, [], ◌∷◌, ◌++◌, Option, none, some, Bytes, codes,
  has_prefix, has_suffix, contains_text, if◌then◌else◌,
}
use go_txnproof.Regexp.{
  Class, Regex, one, star, cat, alt, group, date_time, at_end, Captures, Submatch, find, plus,
  times, literal, digit, space, any_byte, but, byte_class,
}
use go_txnproof.Scanner.{Reader, ScanError, Scanned, lines_of, scan_failed, scan}
use go_txnproof.Classify.{StatementKind, default_classifier}
use go_txnproof.Crosscheck.{LogStatement}
use go_txnproof.Crosscheck.Markers.{Sliced, sliced, no_begin, no_end, scenario}
use go_txnproof.Crosscheck.Reading.{Parsed, parsed, parse_failed, lacks_tx_id}
use go_txnproof.Mycheck.{Entry, reconstruct, LogVerdict, autocommit_changed, verified, verify_log}

-- `[+-]`
abbrev pub sign : Class
sign = record { negated = false; spans = (b'+', b'+') ∷ (b'-', b'-') ∷ [] }

-- `(?:Z|[+-]\d{2}:\d{2})`
abbrev pub offset_regex : Regex
offset_regex =
    alt (literal (codes "Z"))
      (cat (one sign) (cat (times 2 digit) (cat (literal (codes ":")) (times 2 digit))))

-- ` *(\d+) ([^\t]+)\t(.*)$`
abbrev pub fields_regex : Regex
fields_regex = cat (star (byte_class b' ')) (
    cat (group [] (plus digit)) (
      cat (literal (codes " ")) (
        cat (group [] (plus (but b'\t')))
          (cat (literal (codes "\t")) (cat (group [] (star any_byte)) at_end)))))

-- `entryRe`
abbrev pub entry_regex : Regex
entry_regex = date_time (codes "T") (
    cat (literal (codes "."))
      (cat (plus digit) (cat offset_regex (cat (literal (codes "\t")) fields_regex))))

-- `headerRe`
abbrev pub header_regex : Regex
header_regex = cat (literal (codes "Time")) (
    cat (plus space) (
      cat (literal (codes "Id")) (
        cat (plus space) (
          cat (literal (codes "Command"))
            (cat (plus space) (cat (literal (codes "Argument")) (cat (star space) at_end)))))))

-- MatchString
unfoldable pub is_match : Option Submatch → Bool
is_match none = false
is_match (some m) = true

-- `isBannerLine`
unfoldable pub is_banner_line : Bytes → Bool
is_banner_line s =
    if is_match (find header_regex s)
    then true
    else if has_suffix s (codes "started with:") && contains_text s (codes ", Version: ")
    then true
    else has_prefix s (codes "Tcp port: ")

-- The variables of the loop of `Parse`.
pub record ReadState : Type 0 where
  pub entries : List Entry
  pub continuing : Bool
  pub line : ℕ

-- A group of a match by its number.
unfoldable pub nth_group : Captures → ℕ → Bytes
nth_group [] n = []
nth_group ((name, value) ∷ gs) zero = value
nth_group ((name, value) ∷ gs) (suc n) = nth_group gs n

unfoldable pub entry_of : ℕ → Captures → Entry
entry_of line gs = record {
  thread = nth_group gs 0;
  command = nth_group gs 1;
  text = nth_group gs 2;
  line = line;
}

-- `entries[len(entries)-1].text += …`, which `Parse` does only where there is an entry.
unfoldable pub extend_last : List Entry → Bytes → List Entry
extend_last [] text = []
extend_last (e ∷ []) text = record e { text = e.text ++ (b'\n' ∷ text) } ∷ []
extend_last (e ∷ e' ∷ es) text = e ∷ extend_last (e' ∷ es) text

-- A line that begins no entry.
unfoldable pub put_other : ReadState → Bytes → ReadState
put_other s text =
    if is_banner_line text
    then record s { continuing = false }
    else if s.continuing
    then record s { entries = extend_last s.entries text }
    else s

unfoldable pub put_entry : ReadState → Bytes → Option Submatch → ReadState
put_entry s text none = put_other s text
put_entry s text (some m) = record s {
  entries = s.entries ++ entry_of s.line m.groups ∷ [];
  continuing = true;
}

-- A round of the loop.
unfoldable pub read_line : ReadState → Bytes → ReadState
read_line s text = put_entry (record s { line = s.line + 1 }) text (find entry_regex text)

unfoldable pub read_lines : ReadState → List Bytes → ReadState
read_lines s [] = s
read_lines s (text ∷ ls) = read_lines (read_line s text) ls

abbrev pub read_start : ReadState
read_start = record { entries = []; continuing = false; line = 0 }

unfoldable pub parse_scanned : (Bytes → StatementKind) → Scanned → Parsed
parse_scanned classify (scan_failed e) = parse_failed e
parse_scanned classify (lines_of ls) =
    parsed (reconstruct classify (read_lines read_start ls).entries)

-- `Parse`
unfoldable pub parse : (Bytes → StatementKind) → Reader → Parsed
parse classify r = parse_scanned classify (scan r)

-- `Checker`
pub record Checker : Type 0 where
  pub classify : Bytes → StatementKind

-- `WithClassifier`
unfoldable pub with_classifier : (Bytes → StatementKind) → Checker → Checker
with_classifier classify c = record { classify = classify }

unfoldable pub configure : List (Checker → Checker) → Checker → Checker
configure [] c = c
configure (o ∷ os) c = configure os (o c)

-- `New`
unfoldable pub new_checker : List (Checker → Checker) → Checker
new_checker opts = configure opts (record { classify = default_classifier })

-- What `Verify` and `VerifyScenario` return: the error of the reader, the error on a marker, or what
-- `verifyStatements` returns, and whether its error is wrapped with the advice of mycheck.
pub data LogReading : Type 0 where
  unread : ScanError → LogReading
  no_begin_marker no_end_marker : LogReading
  judged : LogVerdict → Bool → LogReading

-- `adviseOnMissingTxID`
unfoldable pub lacks_identity : LogVerdict → Bool
lacks_identity (verified v) = lacks_tx_id v
lacks_identity (autocommit_changed st) = false

unfoldable pub judge_log : List LogStatement → LogReading
judge_log sts = let v = verify_log sts in judged v (lacks_identity v)

unfoldable pub verify_parsed : Parsed → LogReading
verify_parsed (parse_failed e) = unread e
verify_parsed (parsed sts) = judge_log sts

unfoldable pub verify_sliced : Sliced → LogReading
verify_sliced (sliced sts) = judge_log sts
verify_sliced no_begin = no_begin_marker
verify_sliced no_end = no_end_marker

unfoldable pub verify_parsed_scenario : Bytes → Parsed → LogReading
verify_parsed_scenario label (parse_failed e) = unread e
verify_parsed_scenario label (parsed sts) = verify_sliced (scenario sts label)

-- `Checker.Verify`
unfoldable pub verify_reader : Checker → Reader → LogReading
verify_reader c r = verify_parsed (parse c.classify r)

-- `Checker.VerifyScenario`
unfoldable pub verify_reader_scenario : Checker → Reader → Bytes → LogReading
verify_reader_scenario c r label = verify_parsed_scenario label (parse c.classify r)
