-- ===== src/Crosscheck/Advice.antt =====
-- When the error of a verdict is the one on a statement without an identity.
use go_txnproof.Prelude.{◌≡◌, refl, ap, ◌∙◌, Bool, true, false, List, none, some, if◌then◌else◌}
use go_txnproof.Crosscheck.{LogStatement, CheckReport, non_atomic, returns, verify_statements}
use go_txnproof.Crosscheck.ByIdentity.{writes, first_missing}
use go_txnproof.Crosscheck.Grouping.{report_on}
use go_txnproof.Crosscheck.Verify.{one_tx, verify_statements_exact}
use go_txnproof.Crosscheck.Reading.{lacks_tx_id}

pub lacks_tx_id-non_atomic :
    (b : Bool) (r : CheckReport)
    → lacks_tx_id (returns (some r) (if b then none else some (non_atomic r))) ≡ false
unfolding lacks_tx_id
lacks_tx_id-non_atomic true r = refl
lacks_tx_id-non_atomic false r = refl

-- Where every write carries an identity there is no such error.
pub lacks_tx_id-named :
    (sts : List LogStatement)
    → first_missing (writes sts) ≡ none
    → lacks_tx_id (verify_statements sts) ≡ false
lacks_tx_id-named sts h =
    ap lacks_tx_id (verify_statements_exact sts ∙ rw h refl)
    ∙ lacks_tx_id-non_atomic (one_tx (writes sts)) (report_on (writes sts))
