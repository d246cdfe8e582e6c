-- ===== src/Pgcheck/Prefix.antt =====
-- pgcheck/pgcheck.go: `CompileLogLinePrefix`.
use go_txnproof.Prelude.{
  ℕ, ◌+◌, ◌%◌, false, [], ◌∷◌, Option, none, some, Bytes, codes, ltb, contains, ◌==◌, if◌then◌else◌,
}
use Prim.Native.Nat.{◌/◌}
use go_txnproof.Regexp.{
  Class, Regex, nothing, lazy, cat, group, date_time, opt, plus, times, literal, digit, non_space,
  any_byte,
}

-- The errors: a bare `%` at the end, and an escape that is not supported.
pub data CompileError : Type 0 where
  bare_percent : CompileError
  unsupported : ℕ → CompileError

pub data Compiled : Type 0 where
  compiled : Regex → Compiled
  refused : CompileError → Compiled

-- `string(c)` of a byte: the UTF-8 text of the character with this number.
unfoldable pub char_text : ℕ → Bytes
char_text c = if ltb c 128 then c ∷ [] else (192 + c / 64) ∷ (128 + c % 64) ∷ []

abbrev pub digit_run : Regex
digit_run = plus digit

abbrev pub zone : Regex
zone = cat (literal (codes " ")) (plus non_space)

-- `[0-9a-f]`
abbrev pub hex : Class
hex = record { negated = false; spans = (b'0', b'9') ∷ (b'a', b'f') ∷ [] }

-- `[0-9A-Z]`
abbrev pub state_char : Class
state_char = record { negated = false; spans = (b'0', b'9') ∷ (b'A', b'Z') ∷ [] }

abbrev pub xid_regex : Regex
xid_regex = group (codes "xid") digit_run

abbrev pub vxid_regex : Regex
vxid_regex = opt (group (codes "vxid") (cat digit_run (cat (literal (codes "/")) digit_run)))

abbrev pub stamp_regex : Regex
stamp_regex = date_time (codes " ") (cat (literal (codes ".")) (cat digit_run zone))

-- The switch on the byte behind a `%`.
unfoldable pub escape : ℕ → Option Regex
escape e =
    if e == b'x'
    then some xid_regex
    else if e == b'v'
    then some vxid_regex
    else if contains (codes "pPl") e
    then some digit_run
    else if e == b'm'
    then some stamp_regex
    else if contains (codes "ts") e
    then some (date_time (codes " ") zone)
    else if e == b'n'
    then some (cat digit_run (cat (literal (codes ".")) digit_run))
    else if e == b'c'
    then some (cat (plus hex) (cat (literal (codes ".")) (plus hex)))
    else if e == b'e'
    then some (times 5 state_char)
    else if e == b'Q'
    then some (cat (opt (literal (codes "-"))) digit_run)
    else if e == b'q'
    then some nothing
    else if e == b'%'
    then some (literal (codes "%"))
    else if contains (codes "audrhbi") e
    then some (lazy any_byte)
    else none

unfoldable pub in_front : Regex → Compiled → Compiled
in_front r (compiled q) = compiled (cat r q)
in_front r (refused e) = refused e

unfoldable pub escaped : ℕ → Option Regex → Compiled → Compiled
escaped e none rest = refused (unsupported e)
escaped e (some r) rest = in_front r rest

-- The loop of `CompileLogLinePrefix`.
unfoldable pub compile_log_line_prefix : Bytes → Compiled
compile_log_line_prefix [] = compiled nothing
compile_log_line_prefix (c ∷ []) =
    if c == b'%' then refused bare_percent else in_front (literal (char_text c)) (compiled nothing)
compile_log_line_prefix (c ∷ e ∷ s) =
    let behind = compile_log_line_prefix s in
    let next = compile_log_line_prefix (e ∷ s) in
    if c == b'%' then escaped e (escape e) behind else in_front (literal (char_text c)) next
