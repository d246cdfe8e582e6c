-- ===== src/Scanner.antt =====
-- bufio.Scanner as pgcheck and mycheck use it: the lines of a reader, with a buffer of at most
-- 4 MB. The reader gives its end, or its failure, in a read of its own.
pub mod Lines
use go_txnproof.Prelude.{
  ℕ, ◌*◌, Bool, true, false, ◌||◌, List, [], ◌∷◌, ◌++◌, map, Option, none, some, Bytes, length, leb,
  ◌==◌, if◌then◌else◌,
}

-- An io.Reader: the bytes that it gives, and the message of the error that it ends with, if it
-- does not reach the end.
pub record Reader : Type 0 where
  pub content : Bytes
  pub failure : Option Bytes

-- The error of a Scanner: bufio.ErrTooLong, or the error of the reader.
pub data ScanError : Type 0 where
  too_long : ScanError
  read_failed : Bytes → ScanError

pub data Scanned : Type 0 where
  lines_of : List Bytes → Scanned
  scan_failed : ScanError → Scanned

abbrev pub max_line : ℕ
max_line = 4 * (1024 * 1024)

unfoldable pub put_byte : ℕ → List Bytes → List Bytes
put_byte c [] = (c ∷ []) ∷ []
put_byte c (l ∷ ls) = (c ∷ l) ∷ ls

-- The text between the newlines. Nothing behind the last newline is no line.
unfoldable pub split_lines : Bytes → List Bytes
split_lines [] = []
split_lines (c ∷ s) = let rest = split_lines s in if c == b'\n' then [] ∷ rest else put_byte c rest

-- A line without one carriage return at its end.
unfoldable pub drop_cr : Bytes → Bytes
drop_cr [] = []
drop_cr (c ∷ []) = if c == b'\r' then [] else c ∷ []
drop_cr (c ∷ d ∷ s) = c ∷ drop_cr (d ∷ s)

-- A buffer that is full before the end of a line is seen.
unfoldable pub is_too_long : Bytes → Bool
is_too_long l = leb max_line (length l)

unfoldable pub any_too_long : List Bytes → Bool
any_too_long [] = false
any_too_long (l ∷ ls) = is_too_long l || any_too_long ls

unfoldable pub scan_end : Option Bytes → List Bytes → Scanned
scan_end none ls = lines_of (map drop_cr ls)
scan_end (some e) ls = scan_failed (read_failed e)

-- The lines that `Scan` gives until it stops, where `Err` has nothing to say then; its error
-- otherwise.
unfoldable pub scan : Reader → Scanned
scan r =
    let ls = split_lines r.content in
    if any_too_long ls then scan_failed too_long else scan_end r.failure ls
