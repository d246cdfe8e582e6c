-- ===== src/Slog/Units.antt =====
-- The units that a reader of the log counts are those of the report.
use go_txnproof.Prelude.{ℕ, List, [], ◌∷◌, Bytes, codes, if◌then◌else◌}
use go_txnproof.Report.{StatementRecord}
use go_txnproof.Detector.{is_write}
use go_txnproof.Slog.{SlogAttr, ints, unit_label}

-- The names of the units of the writes.
abbrev unit_labels : List StatementRecord → List Bytes
unit_labels [] = []
unit_labels (s ∷ ss) =
    if is_write s.kind then unit_label s.tx_id ∷ unit_labels ss else unit_labels ss

-- The attribute of the counts that an allow covers, where there are any.
abbrev pub allowed_shown : List ℕ → List SlogAttr
allowed_shown [] = []
allowed_shown ns = record { key = codes "allowed_write_units"; value = ints ns } ∷ []
