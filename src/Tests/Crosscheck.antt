-- ===== src/Tests/Crosscheck.antt =====
-- The cross-check on a small log.
use go_txnproof.Prelude.{
  ◌≡◌, refl, ◌↔◌, List, [], ◌∷◌, ◌++◌, none, some, Bytes, codes, contains_text, has_prefix,
  if◌then◌else◌, String,
}
use go_txnproof.Classify.{StatementKind, read, write}
use go_txnproof.Crosscheck.{
  LogStatement, reported, missing_tx_id, check, non_atomic, check_failed, returns,
  verify_statements,
}
use go_txnproof.Crosscheck.ByIdentity.{writes, first_missing}
use go_txnproof.Crosscheck.Grouping.{report_on, check_exact}
use go_txnproof.Crosscheck.Verify.{one_tx, verify_statements_exact}
use go_txnproof.Crosscheck.Markers.{
  marker_literal, begin_marker, end_marker, double_quotes, sliced, scenario,
}
use go_txnproof.Crosscheck.Markers.Slice.{Between, scenario_exact}
use go_txnproof.Crosscheck.Markers.Literal.{scenario_markers, selected, scenario-quoted_marker}

abbrev said : StatementKind → String → String → LogStatement
said kind sql tx = record { sql = codes sql; kind = kind; tx_id = codes tx; line = 1 }

abbrev logged : List LogStatement
logged =
    said read "SELECT 1" ""
    ∷ said write "INSERT INTO a VALUES (1)" "7"
    ∷ said write "UPDATE b SET n = 1" "8"
    ∷ said write "DELETE FROM c" "7"
    ∷ []

abbrev marked : Bytes → LogStatement
marked sql = record { sql = sql; kind = read; tx_id = []; line = 0 }

abbrev label : Bytes
label = codes "it's"

check_exact_example : check logged ≡ elim (first_missing (writes logged)) [
  | none ↦ reported (report_on (writes logged))
  | some st ↦ missing_tx_id st
]
check_exact_example = check_exact logged

verify_statements_exact_example : verify_statements logged ≡ elim (first_missing (writes logged)) [
  | none ↦
      returns
        (some (report_on (writes logged)))
        (if one_tx (writes logged) then none else some (non_atomic (report_on (writes logged))))
  | some st ↦ returns none (some (check_failed st))
]
verify_statements_exact_example = verify_statements_exact logged

scenario_exact_example :
    (scenario (marked (begin_marker label) ∷ (logged ++ marked (end_marker label) ∷ [])) label
      ≡ sliced logged)
    ↔ Between
        (marked (begin_marker label) ∷ (logged ++ marked (end_marker label) ∷ []))
        label
        logged
scenario_exact_example =
    scenario_exact (marked (begin_marker label) ∷ (logged ++ marked (end_marker label) ∷ [])) label
      logged

scenario_markers_example :
    scenario
      (logged ++ (marked (begin_marker label) ∷ (logged ++ (marked (end_marker label) ∷ logged))))
      label
    ≡ sliced logged
unfolding contains_text has_prefix marker_literal double_quotes
scenario_markers_example =
    scenario_markers logged logged logged (marked (begin_marker label)) (marked (end_marker label))
      label refl refl refl refl

scenario-quoted_marker_example :
    (selected (begin_marker label) ≡ some (codes "txnproof:begin:it's"))
    × (selected (end_marker label) ≡ some (codes "txnproof:end:it's"))
    × (scenario
          (logged
            ++ (marked (begin_marker label) ∷ (logged ++ (marked (end_marker label) ∷ logged))))
          (codes "it")
        ≡ sliced logged)
unfolding contains_text has_prefix marker_literal double_quotes
scenario-quoted_marker_example =
    scenario-quoted_marker logged logged logged (marked (begin_marker label))
      (marked (end_marker label)) (codes "it") (codes "s") refl refl refl refl
