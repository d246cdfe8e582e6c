-- ===== src/Pgcheck.antt =====
-- pgcheck/pgcheck.go, pgcheck/parse.go: the statements of a PostgreSQL log, each with the identity
-- of the transaction that its line's prefix names.
pub mod Bodies
pub mod Prefix
pub mod Escapes
pub mod Create
pub mod Fields
pub mod Rendered
pub mod Messages
pub mod Lines
pub mod RoundTrip
pub mod Verdict
use go_txnproof.Prelude.{
  ℕ, suc, ◌+◌, Bool, true, false, not, ◌&&◌, ◌||◌, List, [], ◌∷◌, ◌++◌, Option, none, some, Bytes,
  codes, bytes_eq, has_prefix, has_suffix, drop, if◌then◌else◌,
}
use go_txnproof.Regexp.{
  Regex, one, star, cat, alt, group, at_end, Captures, Submatch, find, group_names, opt, plus,
  literal, space, any_byte, but, Class,
}
use go_txnproof.Scanner.{Reader, Scanned, lines_of, scan_failed, scan}
use go_txnproof.Classify
use go_txnproof.Classify.{StatementKind, default_classifier}
use go_txnproof.Crosscheck.{LogStatement}
use go_txnproof.Crosscheck.Reading.{
  Parsed, parsed, parse_failed, Parser, Advised, verify, verify_scenario, advise_on_missing_tx_id,
}
use go_txnproof.Pgcheck.Prefix.{Compiled, compiled, CompileError, refused, compile_log_line_prefix}

-- A *regexp.Regexp: the names of its groups, and its first match in a text.
pub record Pattern : Type 0 where
  pub names : List Bytes
  pub submatch : Bytes → Option Submatch

abbrev pub pattern_of : Regex → Pattern
pattern_of r = record { names = group_names r; submatch = find r }

-- `Checker`
pub record Checker : Type 0 where
  pub prefix : Pattern
  pub classify : Bytes → StatementKind

-- `settings`
pub record Settings : Type 0 where
  pub prefix : Bytes
  pub pattern : Option Pattern
  pub classify : Bytes → StatementKind

-- `DefaultLogLinePrefix`
abbrev pub default_log_line_prefix : Bytes
default_log_line_prefix = codes "%m [%p] %q%x %v "

-- `WithLogLinePrefix`
unfoldable pub with_log_line_prefix : Bytes → Settings → Settings
with_log_line_prefix prefix s = record s { prefix = prefix }

-- `WithPrefixPattern`
unfoldable pub with_prefix_pattern : Pattern → Settings → Settings
with_prefix_pattern re s = record s { pattern = some re }

-- `WithClassifier`
unfoldable pub with_classifier : (Bytes → StatementKind) → Settings → Settings
with_classifier c s = record s { classify = c }

abbrev pub xid_name : Bytes
xid_name = codes "xid"

abbrev pub vxid_name : Bytes
vxid_name = codes "vxid"

-- `hasGroup`
unfoldable pub has_group : List Bytes → Bytes → Bool
has_group [] name = false
has_group (n ∷ ns) name = bytes_eq n name || has_group ns name

-- What `New` returns.
pub data Created : Type 0 where
  created : Checker → Created
  bad_prefix : CompileError → Created
  no_identifier : Created

unfoldable pub create : (Bytes → StatementKind) → Pattern → Created
create classify re =
    if not (has_group re.names xid_name) && not (has_group re.names vxid_name)
    then no_identifier
    else created (record { prefix = re; classify = classify })

unfoldable pub create_compiled : (Bytes → StatementKind) → Compiled → Created
create_compiled classify (compiled r) = create classify (pattern_of r)
create_compiled classify (refused e) = bad_prefix e

unfoldable pub create_from : Settings → Created
create_from s = elim s.pattern [
  | none ↦ create_compiled s.classify (compile_log_line_prefix s.prefix)
  | some re ↦ create s.classify re
]

unfoldable pub apply_settings : List (Settings → Settings) → Settings → Settings
apply_settings [] s = s
apply_settings (o ∷ os) s = apply_settings os (o s)

abbrev pub default_settings : Settings
default_settings = record {
  prefix = default_log_line_prefix;
  pattern = none;
  classify = default_classifier;
}

-- `New`
unfoldable pub new_checker : List (Settings → Settings) → Created
new_checker opts = create_from (apply_settings opts default_settings)

-- `[0-9.]`
abbrev pub duration_char : Class
duration_char = record { negated = false; spans = (b'0', b'9') ∷ (b'.', b'.') ∷ [] }

-- `duration: [0-9.]+ ms\s+`
abbrev pub duration_regex : Regex
duration_regex =
    cat (literal (codes "duration: "))
      (cat (plus duration_char) (cat (literal (codes " ms")) (plus space)))

-- `execute [^:]*:`
abbrev pub execute_regex : Regex
execute_regex = cat (literal (codes "execute ")) (cat (star (but b':')) (literal (codes ":")))

-- `\s?(.*)$`
abbrev pub text_regex : Regex
text_regex = cat (opt (one space)) (cat (group [] (star any_byte)) at_end)

-- `bodyRe`
abbrev pub body_regex : Regex
body_regex = cat (literal (codes "LOG:")) (
    cat (plus space) (
      cat (opt duration_regex) (cat (alt (literal (codes "statement:")) execute_regex) text_regex)))

-- The variables `st.TxID` and `xid`.
pub record Ids : Type 0 where
  pub tx_id : Bytes
  pub xid : Bytes

-- The switch on the name of a group that took part in the match.
unfoldable pub put_group : Ids → Bytes → Bytes → Ids
put_group ids name value =
    if bytes_eq name xid_name
    then record ids { xid = value }
    else if bytes_eq name vxid_name && not (has_suffix value (codes "/0"))
    then record ids { tx_id = value }
    else ids

unfoldable pub put_groups : Captures → Ids → Ids
put_groups [] ids = ids
put_groups ((name, value) ∷ gs) ids = put_groups gs (put_group ids name value)

-- The identity behind the loop over the groups.
unfoldable pub identity : Ids → Bytes
identity ids =
    if bytes_eq ids.tx_id [] && not (bytes_eq ids.xid []) && not (bytes_eq ids.xid (codes "0"))
    then codes "xid " ++ ids.xid
    else ids.tx_id

-- The first group of a match, as FindStringSubmatch gives it.
unfoldable pub first_group : Captures → Bytes
first_group [] = []
first_group ((name, value) ∷ gs) = value

-- The variables of the loop of `Parse`.
pub record ParseState : Type 0 where
  pub statements : List LogStatement
  pub continuing : Bool
  pub line : ℕ

-- `stmts[len(stmts)-1].SQL += …`, which `Parse` does only where there is a statement.
unfoldable pub grow_last : List LogStatement → Bytes → List LogStatement
grow_last [] text = []
grow_last (st ∷ []) text = record st { sql = st.sql ++ (b'\n' ∷ text) } ∷ []
grow_last (st ∷ st' ∷ sts) text = st ∷ grow_last (st' ∷ sts) text

-- A line with a prefix, where `body` is the match of what follows it.
unfoldable pub put_body : ParseState → Captures → Option Submatch → ParseState
put_body s gs none = s
put_body s gs (some body) = record s {
  statements =
      s.statements
      ++ record {
        sql = first_group body.groups;
        kind = StatementKind.other;
        tx_id = identity (put_groups gs (record { tx_id = []; xid = [] }));
        line = s.line;
      }
        ∷ [];
  continuing = true;
}

unfoldable pub put_match : ParseState → Option Submatch → ParseState
put_match s none = s
put_match s (some m) = put_body s m.groups (find body_regex m.rest)

-- A round of the loop.
unfoldable pub parse_line : Pattern → ParseState → Bytes → ParseState
parse_line re s text =
    let line = s.line + 1 in
    if has_prefix text (b'\t' ∷ [])
    then record {
      statements = if s.continuing then grow_last s.statements (drop 1 text) else s.statements;
      continuing = s.continuing;
      line = line;
    }
    else put_match (record { statements = s.statements; continuing = false; line = line })
        (re.submatch text)

unfoldable pub parse_lines : Pattern → ParseState → List Bytes → ParseState
parse_lines re s [] = s
parse_lines re s (text ∷ ls) = parse_lines re (parse_line re s text) ls

-- The loop that classifies the statements.
unfoldable pub classify_all : (Bytes → StatementKind) → List LogStatement → List LogStatement
classify_all classify [] = []
classify_all classify (st ∷ sts) = record st { kind = classify st.sql } ∷ classify_all classify sts

abbrev pub parse_start : ParseState
parse_start = record { statements = []; continuing = false; line = 0 }

unfoldable pub parse_scanned : Checker → Scanned → Parsed
parse_scanned c (scan_failed e) = parse_failed e
parse_scanned c (lines_of ls) =
    let s = parse_lines c.prefix parse_start ls in parsed (classify_all c.classify s.statements)

-- `Parse`
unfoldable pub parse : Checker → Reader → Parsed
parse c r = parse_scanned c (scan r)

-- A Checker implements crosscheck.Parser.
abbrev pub parser_of : Checker → Parser
parser_of c = record { parse = parse c }

-- `Checker.Verify`
unfoldable pub verify_reader : Checker → Reader → Advised
verify_reader c r = advise_on_missing_tx_id (verify (parser_of c) r)

-- `Checker.VerifyScenario`
unfoldable pub verify_reader_scenario : Checker → Reader → Bytes → Advised
verify_reader_scenario c r label = advise_on_missing_tx_id (verify_scenario (parser_of c) r label)
