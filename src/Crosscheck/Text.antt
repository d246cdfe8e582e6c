-- ===== src/Crosscheck/Text.antt =====
-- crosscheck/check.go: the texts of a report and of its errors.
use go_txnproof.Prelude.{
  ℕ, suc, ◌≡◌, ◌≢◌, refl, ap, subst, sym, ◌∙◌, List, [], ◌∷◌, ◌++◌, Option, none, some, arith,
  Bytes, codes, ◌==◌, length, map, if◌then◌else◌,
}
use go_txnproof.Compact.{compact_sql}
use go_txnproof.Mycheck.Labels.{decimal}
use go_txnproof.Crosscheck.{
  LogStatement, TxUnit, CheckReport, VerifyError, non_atomic, check_failed, Checked, check,
  reported, nil_unit, missing_tx_id,
}
use go_txnproof.Crosscheck.Grouping.{check_exact, report_on}
use go_txnproof.Crosscheck.ByIdentity.{writes, first_missing, first_txs, unit_of}

-- `lineRef`
unfoldable pub line_ref : LogStatement → Bytes
line_ref s = if s.line == 0 then [] else codes "line " ++ (decimal s.line ++ codes ": ")

-- The inner loop of `Report.String`.
unfoldable pub statement_lines : List LogStatement → Bytes
statement_lines [] = []
statement_lines (s ∷ ss) =
    codes "\n    " ++ (line_ref s ++ (compact_sql s.sql ++ statement_lines ss))

-- The outer loop.
unfoldable pub unit_lines : List TxUnit → Bytes
unit_lines [] = []
unit_lines (u ∷ us) =
    codes "\n  transaction "
    ++ (u.tx_id ++ (codes ":" ++ (statement_lines u.statements ++ unit_lines us)))

-- The text of a report of one unit, `r.Units[0]`; none is the panic of the index.
unfoldable pub one_unit : List TxUnit → Option Bytes
one_unit [] = none
one_unit (u ∷ us) = some (
    codes "crosscheck: all "
    ++ (decimal (length u.statements)
        ++ (codes " write(s) shared one server-side transaction (" ++ (u.tx_id ++ codes ")"))))

-- The bytes of the dash.
abbrev dash : Bytes
dash = 226 ∷ 128 ∷ 148 ∷ []

-- `Report.String`
unfoldable pub report_string : CheckReport → Option Bytes
report_string r =
    if r.write_units == 0
    then some (codes "crosscheck: no writes found in the server log")
    else if r.write_units == 1
    then one_unit r.units
    else some (
        codes "crosscheck: writes span "
        ++ (decimal r.write_units
            ++ (codes " server-side transactions (want 1) "
                ++ (dash ++ (codes " the scenario is not atomic:" ++ unit_lines r.units)))))

-- `MissingTxIDError.Error`
unfoldable pub missing_tx_id_text : LogStatement → Bytes
missing_tx_id_text s =
    codes "crosscheck: write "
    ++ (line_ref s
        ++ (codes
              "has no server-side transaction identity, so it cannot be attributed to any transaction: "
            ++ compact_sql s.sql))

-- `Error` of the two errors.
unfoldable pub error_text : VerifyError → Option Bytes
error_text (non_atomic r) = report_string r
error_text (check_failed s) = some (missing_tx_id_text s)

-- A report of as many units as it says has a text: no index is out of range.
report_string-some :
    (n : ℕ) (us : List TxUnit)
    → n ≡ length us
    → report_string (record { write_units = n; units = us }) ≢ none
unfolding report_string one_unit
report_string-some n [] h = ground (arith, h)
report_string-some n (u ∷ us) h = ground (arith, h)

length-units :
    (sts : List LogStatement) (ks : List Bytes) → length ks ≡ length (map (unit_of sts) ks)
length-units sts [] = refl
length-units sts (k ∷ ks) = ap suc (length-units sts ks)

-- What `Check` returns has a text if it is a report.
HasText : Checked → Type 0
HasText (reported r) = report_string r ≢ none
HasText (missing_tx_id st) = Unit
HasText nil_unit = Unit

checked-HasText :
    (sts : List LogStatement) (o : Option LogStatement)
    → HasText (elim o [ none ↦ reported (report_on sts) | some st ↦ missing_tx_id st ])
unfolding HasText
checked-HasText sts none =
    report_string-some (length (first_txs sts)) (map (unit_of sts) (first_txs sts))
      (length-units sts (first_txs sts))
checked-HasText sts (some st) = tt

-- The reports of `Check` have a text: `Report.String` never panics on one.
pub report_string-check :
    (sts : List LogStatement) (r : CheckReport) → check sts ≡ reported r → report_string r ≢ none
unfolding HasText
report_string-check sts r h =
    subst HasText (sym (check_exact sts) ∙ h)
      (checked-HasText (writes sts) (first_missing (writes sts)))
