-- ===== src/Message.antt =====
-- reporter.go: the text of a violation. The table of the runes outside ASCII that strconv prints as
-- they are is a parameter.
pub mod OneLine
pub mod Lines
use go_txnproof.Prelude.{
  ℕ, zero, suc, ◌+◌, Bool, true, false, ◌&&◌, ◌||◌, List, [], ◌∷◌, ◌++◌, Bytes, codes, ◌==◌, ltb,
  leb, if◌then◌else◌, length, take, drop,
}
use Prim.Native.Nat.{◌/◌, ◌%◌}
use go_txnproof.Report.{StatementRecord, Violation}
use go_txnproof.Detector.{is_write}
use go_txnproof.Throttle.Key.{rune_at, rune_error}
use go_txnproof.Mycheck.Labels.{decimal}
use go_txnproof.Slog.{write_line}

-- `n` hexadecimal digits of a number.
unfoldable pub hex : ℕ → ℕ → Bytes
hex zero r = []
hex (suc n) r = let d = r % 16 in hex n (r / 16) ++ (if ltb d 10 then d + b'0' else d + 87) ∷ []

-- The escape of a control character, or none.
unfoldable pub control : ℕ → Bytes
control r =
    if r == 7
    then codes "\\a"
    else if r == 8
    then codes "\\b"
    else if r == 12
    then codes "\\f"
    else if r == b'\n'
    then codes "\\n"
    else if r == b'\r'
    then codes "\\r"
    else if r == b'\t'
    then codes "\\t"
    else if r == 11
    then codes "\\v"
    else if ltb r 32 || r == 127
    then codes "\\x" ++ hex 2 r
    else if ltb r 65536
    then codes "\\u" ++ hex 4 r
    else codes "\\U" ++ hex 8 r

-- The loop of `formatWriteUnits` behind the first number.
unfoldable pub more_units : List ℕ → Bytes
more_units [] = []
more_units (n ∷ []) = codes " or " ++ decimal n
more_units (n ∷ m ∷ ns) = codes ", " ++ (decimal n ++ more_units (m ∷ ns))

-- `formatWriteUnits`
unfoldable pub format_write_units : List ℕ → Bytes
format_write_units [] = codes " write unit(s)"
format_write_units (n ∷ ns) = decimal n ++ (more_units ns ++ codes " write unit(s)")

unfoldable pub allowed_text : List ℕ → Bytes
allowed_text [] = []
allowed_text (n ∷ ns) =
    codes " (allowed for exactly "
    ++ (format_write_units (n ∷ ns) ++ codes ", so this execution is not covered)")

-- The loop over the statements.
unfoldable pub write_text : List StatementRecord → Bytes
write_text [] = []
write_text (s ∷ ss) =
    let rest = write_text ss in
    if is_write s.kind then codes "\n  " ++ (write_line s ++ rest) else rest

unfoldable pub truncated_text : ℕ → Bytes
truncated_text zero = []
truncated_text (suc n) = codes "\n  (+" ++ (decimal (suc n) ++ codes " statements truncated)")

module _ (is_print_rune : ℕ → Bool) where
  -- strconv.IsPrint
  unfoldable pub is_print : ℕ → Bool
  is_print r = if ltb r 128 then leb 32 r && leb r 126 else is_print_rune r

  -- What strconv.Quote writes for the rune `r` that the bytes `s` stand for.
  unfoldable pub escaped_rune : ℕ → Bytes → Bytes
  escaped_rune r s =
      if r == b'"' || r == b'\\' then b'\\' ∷ s else if is_print r then s else control r

  unfoldable pub quote_loop : ℕ → Bytes → Bytes
  quote_loop zero s = []
  quote_loop (suc fuel) [] = []
  quote_loop (suc fuel) (c ∷ s) =
      let (r, size) = rune_at c s in
      let rest = quote_loop fuel (drop size (c ∷ s)) in
      if r == rune_error && size == 1
      then codes "\\x" ++ (hex 2 c ++ rest)
      else escaped_rune r (take size (c ∷ s)) ++ rest

  -- `%q`
  unfoldable pub quote : Bytes → Bytes
  quote s = b'"' ∷ (quote_loop (length s) s ++ b'"' ∷ [])

  -- The text up to the colon.
  unfoldable pub heading : Violation → Bytes
  heading v =
      codes "txnproof: boundary "
      ++ (quote v.boundary
          ++ (codes " is not atomic: writes span "
              ++ (decimal v.write_units
                  ++ (codes " atomic units" ++ (allowed_text v.allowed_write_units ++ codes ":")))))

  -- `Violation.String`
  unfoldable pub violation_string : Violation → Bytes
  violation_string v =
      heading v ++ (write_text v.statements ++ truncated_text v.truncated_statements)
