-- ===== src/Slog.antt =====
-- reporter.go, attrs.go: the reporter that writes to a log/slog logger. A logger is a place in the
-- state where its records are kept, in order.
pub mod Lines
pub mod Units
use go_txnproof.Prelude.{
  ℕ, Bool, true, false, List, [], ◌∷◌, ◌++◌, Option, none, some, Bytes, codes, ◌==◌, ltb, length,
  if◌then◌else◌,
}
use go_txnproof.Classify.{StatementKind}
use go_txnproof.Report.{
  BoundaryAttr, StatementRecord, Violation, StaleAllow, NestedBoundary, Context, Reporter, Cell,
}
use go_txnproof.Detector.{is_write}
use go_txnproof.Compact.{compact_sql}
use go_txnproof.Mycheck.Labels.{decimal}

-- The values that the reporter logs: slog.String, slog.Int, and slog.Any of texts, of numbers and of
-- the value of an attr.
pub data SlogValue : Type 0 where
  text : Bytes → SlogValue
  int : ℕ → SlogValue
  texts : List Bytes → SlogValue
  ints : List ℕ → SlogValue
  any_value : ℕ → SlogValue

-- `slog.Attr`
pub record SlogAttr : Type 0 where
  pub key : Bytes
  pub value : SlogValue

pub data Level : Type 0 where
  warn error : Level

pub record LogRecord : Type 0 where
  pub level : Level
  pub context : Context
  pub message : Bytes
  pub attrs : List SlogAttr

-- `SlogAttrs`
unfoldable pub slog_attrs : List BoundaryAttr → List SlogAttr
slog_attrs [] = []
slog_attrs (a ∷ more) = record { key = a.key; value = any_value a.value } ∷ slog_attrs more

abbrev pub auto_commit : Bytes
auto_commit = codes "auto-commit"

-- The variable `unit`.
unfoldable pub unit_label : ℕ → Bytes
unit_label tx = if tx == 0 then auto_commit else codes "tx#" ++ decimal tx

unfoldable pub write_line : StatementRecord → Bytes
write_line s = codes "[" ++ (unit_label s.tx_id ++ (codes "] " ++ compact_sql s.query))

-- The loop of `Report` over the statements.
unfoldable pub write_lines : List StatementRecord → List Bytes
write_lines [] = []
write_lines (s ∷ ss) = if is_write s.kind then write_line s ∷ write_lines ss else write_lines ss

unfoldable pub allowed_attr : List ℕ → List SlogAttr
allowed_attr [] = []
allowed_attr (n ∷ ns) = record { key = codes "allowed_write_units"; value = ints (n ∷ ns) } ∷ []

unfoldable pub violation_record : Context → Violation → LogRecord
violation_record ctx v = record {
  level = error;
  context = ctx;
  message = codes "txnproof: non-atomic SQL execution detected";
  attrs =
      record { key = codes "boundary"; value = text v.boundary }
      ∷ record { key = codes "write_units"; value = int v.write_units }
      ∷ record { key = codes "writes"; value = texts (write_lines v.statements) }
      ∷ (allowed_attr v.allowed_write_units ++ slog_attrs v.attrs);
}

unfoldable pub unbounded_record : Context → StatementRecord → LogRecord
unbounded_record ctx s = record {
  level = warn;
  context = ctx;
  message = codes "txnproof: write statement executed outside any boundary";
  attrs = record { key = codes "query"; value = text (compact_sql s.query) } ∷ slog_attrs s.attrs;
}

unfoldable pub nested_record : Context → NestedBoundary → LogRecord
nested_record ctx n = record {
  level = warn;
  context = ctx;
  message =
      codes
        "txnproof: boundary started inside another boundary; statements attribute to the inner one only";
  attrs =
      record { key = codes "outer"; value = text n.outer }
      ∷ record { key = codes "inner"; value = text n.inner }
      ∷ [];
}

unfoldable pub stale_record : Context → StaleAllow → LogRecord
stale_record ctx s = record {
  level = warn;
  context = ctx;
  message = codes "txnproof: boundary is marked AllowNonAtomic but did not violate";
  attrs =
      record { key = codes "boundary"; value = text s.boundary }
      ∷ record { key = codes "reason"; value = text s.reason }
      ∷ record { key = codes "write_units"; value = int s.write_units }
      ∷ [];
}

module _ {S : Type 0} (logger : Cell S (List LogRecord)) where
  open logger use {get, put}

  unfoldable pub log_record : LogRecord → S → S
  log_record r s = put (get s ++ r ∷ []) s

  -- `NewSlogReporter` and its four methods.
  unfoldable pub slog_reporter : Reporter S
  slog_reporter = record {
    report = λ ctx v. log_record (violation_record ctx v);
    report_unbounded_write = some (λ ctx r. log_record (unbounded_record ctx r));
    report_stale_allow = some (λ ctx a. log_record (stale_record ctx a));
    report_nested_boundary = some (λ ctx n. log_record (nested_record ctx n));
  }
