-- ===== src/Tests/Slog.antt =====
-- The log record of a violation, and the key of a statement.
use go_txnproof.Prelude.{ℕ, Bool, true, ◌≤◌, ◌≡◌, List, [], ◌∷◌, codes, refl, length, take}
use go_txnproof.Classify.{read, write}
use go_txnproof.Report.{StatementRecord, Violation, Cell}
use go_txnproof.Session.Report.{run_violation}
use go_txnproof.Throttle.Key.{is_space_rune, rune_at, unbounded_write_key, unbounded_write_key_len}
use go_txnproof.Compact.{compact_sql, fields, fields_loop, close_field, join_words}
use go_txnproof.Compact.Key.{unbounded_write_key-compact_sql}
use go_txnproof.Slog.{LogRecord}
use go_txnproof.Scanner.{split_lines}
use go_txnproof.Message.{violation_string, quote, quote_loop, escaped_rune, is_print, control}
use go_txnproof.Mycheck.Labels.{decimal, digits}
use go_txnproof.Message.Lines.{violation_string-lines}

unbounded_write_key-compact_sql_example :
    (unbounded_write_key (codes " DELETE\n  FROM c ")
      ≡ take unbounded_write_key_len (compact_sql (codes " DELETE\n  FROM c ")))
    × (length (unbounded_write_key (codes " DELETE\n  FROM c ")) ≤ unbounded_write_key_len)
unbounded_write_key-compact_sql_example =
    unbounded_write_key-compact_sql (codes " DELETE\n  FROM c ")

abbrev logger : Cell (List LogRecord) (List LogRecord)
logger = record { get = λ s. s; put = λ a s. a; get-put = λ a s. refl }

abbrev timeline : List StatementRecord
timeline =
    record { query = codes "INSERT INTO a"; kind = write; tx_id = 7; time = 1; attrs = [] }
    ∷ record { query = codes "SELECT 1"; kind = read; tx_id = 7; time = 2; attrs = [] }
    ∷ record { query = codes "UPDATE\n b"; kind = write; tx_id = 7; time = 3; attrs = [] }
    ∷ record { query = codes "DELETE FROM c"; kind = write; tx_id = 0; time = 4; attrs = [] }
    ∷ []

abbrev found : Violation
found =
    record (run_violation (codes "job") (record { key = codes "route"; value = 4 } ∷ []) 200
      timeline 2) { allowed_write_units = 3 ∷ [] }

-- A name with a newline, counts of an allow, and a timeline that was cut.
abbrev two_line_name : Violation
two_line_name = record (run_violation (codes "a\nb") [] 3 timeline 2) {
  allowed_write_units = 3 ∷ 4 ∷ 6 ∷ [];
}

abbrev all_printed : ℕ → Bool
all_printed r = true

violation_string-lines_example : split_lines (violation_string all_printed two_line_name) ≡ (
    codes
      "txnproof: boundary \"a\\nb\" is not atomic: writes span 2 atomic units (allowed for exactly 3, 4 or 6 write unit(s), so this execution is not covered):"
    ∷ codes "  [tx#7] INSERT INTO a"
    ∷ codes "  [tx#7] UPDATE b"
    ∷ codes "  (+1 statements truncated)"
    ∷ [])
unfolding quote quote_loop escaped_rune is_print control decimal digits rune_at compact_sql fields
    fields_loop close_field join_words is_space_rune
violation_string-lines_example = violation_string-lines all_printed two_line_name
