-- ===== src/Crosscheck/Verify.antt =====
-- `VerifyStatements` passes exactly when all writes carry one identity.
use go_txnproof.Prelude.{
  ◌≡◌, refl, ◌∙◌, ap, Bool, true, ◌&&◌, List, [], ◌∷◌, Option, none, some, arith, Bytes, bytes_eq,
  bytes_eq_iff, length, leb, if◌then◌else◌,
}
use go_txnproof.Crosscheck.{
  LogStatement, reported, missing_tx_id, atomic, non_atomic, check_failed, returns, verify_checked,
  verify_statements,
}
use go_txnproof.Crosscheck.ByIdentity.{writes, first_missing, without, first_txs}
use go_txnproof.Crosscheck.Grouping.{report_on, check_exact}

-- Whether all statements carry an identity.
abbrev pub all_in : Bytes → List LogStatement → Bool
all_in k [] = true
all_in k (st ∷ sts) = bytes_eq st.tx_id k && all_in k sts

-- Whether all statements carry the identity of the first.
abbrev pub one_tx : List LogStatement → Bool
one_tx [] = true
one_tx (st ∷ sts) = all_in st.tx_id sts

without-without : (k : Bytes) (ks : List Bytes) → without k (without k ks) ≡ without k ks
without-without k [] = refl
without-without k (j ∷ ks) = ground (arith, without-without k ks)

without_none :
    (k : Bytes) (sts : List LogStatement)
    → leb (length (without k (first_txs sts))) 0 ≡ all_in k sts
without_none k [] = refl
without_none k (st ∷ sts) = ground (
  arith,
  bytes_eq_iff k st.tx_id,
  bytes_eq_iff st.tx_id k,
  without-without k (first_txs sts),
  without_none k sts,
)

one_tx_lem : (sts : List LogStatement) → leb (length (first_txs sts)) 1 ≡ one_tx sts
one_tx_lem [] = refl
one_tx_lem (st ∷ sts) = ground (arith, without_none st.tx_id sts)

verdict :
    (sts : List LogStatement) (o : Option LogStatement)
    → verify_checked (elim o [ none ↦ reported (report_on sts) | some st ↦ missing_tx_id st ])
      ≡ elim o [
        | none ↦
            returns
              (some (report_on sts))
              (if one_tx sts then none else some (non_atomic (report_on sts)))
        | some st ↦ returns none (some (check_failed st))
      ]
unfolding verify_checked atomic
verdict sts none = ground (arith, one_tx_lem sts)
verdict sts (some st) = refl

-- Where every write carries an identity the report is returned, with an error exactly when two
-- writes carry different ones; otherwise the error names the first write without one.
pub verify_statements_exact :
    (sts : List LogStatement)
    → let ws = writes sts in
      verify_statements sts ≡ elim (first_missing ws) [
        | none ↦
            returns
              (some (report_on ws))
              (if one_tx ws then none else some (non_atomic (report_on ws)))
        | some st ↦ returns none (some (check_failed st))
      ]
unfolding verify_statements
verify_statements_exact sts =
    ap verify_checked (check_exact sts) ∙ verdict (writes sts) (first_missing (writes sts))
