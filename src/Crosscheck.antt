-- ===== src/Crosscheck.antt =====
-- crosscheck/check.go, crosscheck/crosscheck.go: the write statements of a server's log, grouped by
-- the transaction that the server ran them in.
pub mod Markers
pub mod ByIdentity
pub mod Grouping
pub mod Verify
pub mod Reading
pub mod Advice
pub mod Text
use go_txnproof.Prelude.{
  ℕ, Bool, true, false, List, [], ◌∷◌, ◌++◌, Option, none, some, Bytes, bytes_eq, ltb, leb, length,
  if◌then◌else◌,
}
use go_txnproof.Prelude.Dict.{Dict, lookup, insert}
use go_txnproof.Classify.{StatementKind}
use go_txnproof.Detector.{is_write}

-- `Statement`; a line number below 0 is not written by any parser.
pub record LogStatement : Type 0 where
  pub sql : Bytes
  pub kind : StatementKind
  pub tx_id : Bytes
  pub line : ℕ

-- `Unit`
pub record TxUnit : Type 0 where
  pub tx_id : Bytes
  pub statements : List LogStatement

-- `Report`
pub record CheckReport : Type 0 where
  pub write_units : ℕ
  pub units : List TxUnit

-- What `Check` returns: a report, the error on a statement, or a panic on a nil pointer.
pub data Checked : Type 0 where
  reported : CheckReport → Checked
  missing_tx_id : LogStatement → Checked
  nil_unit : Checked

-- `Atomic`
unfoldable pub atomic : CheckReport → Bool
atomic r = leb r.write_units 1

-- The loop's variables `units` and `order`.
pub record Groups : Type 0 where
  pub units : Dict TxUnit
  pub order : List Bytes

-- One write with an identity, where the map holds `u` for it.
unfoldable pub put_write : Groups → LogStatement → Option TxUnit → Groups
put_write g st none = record {
  units = insert g.units st.tx_id (record { tx_id = st.tx_id; statements = st ∷ [] });
  order = g.order ++ st.tx_id ∷ [];
}
put_write g st (some u) = record g {
  units = insert g.units st.tx_id (record u { statements = u.statements ++ st ∷ [] });
}

-- The second loop, `*units[k]` for each `k`: none is the panic.
unfoldable pub collect : Dict TxUnit → List Bytes → Option (List TxUnit)
collect units [] = some []
collect units (k ∷ ks) =
    let rest = collect units ks in
    elim (lookup units k) [
      | none ↦ none
      | some u ↦ elim rest [ none ↦ none | some us ↦ some (u ∷ us) ]
    ]

unfoldable pub report_of : ℕ → Option (List TxUnit) → Checked
report_of n none = nil_unit
report_of n (some us) = reported (record { write_units = n; units = us })

-- `Check` from a point of its loop on.
unfoldable pub check_from : Groups → List LogStatement → Checked
check_from g [] = report_of (length g.order) (collect g.units g.order)
check_from g (st ∷ sts) =
    let skip = check_from g sts in
    let next = check_from (put_write g st (lookup g.units st.tx_id)) sts in
    if is_write st.kind then (if bytes_eq st.tx_id [] then missing_tx_id st else next) else skip

unfoldable pub check : List LogStatement → Checked
check sts = check_from (record { units = []; order = [] }) sts

-- The report and the error that `VerifyStatements` returns.
pub data VerifyError : Type 0 where
  non_atomic : CheckReport → VerifyError
  check_failed : LogStatement → VerifyError

pub data Verified : Type 0 where
  returns : Option CheckReport → Option VerifyError → Verified
  panics : Verified

unfoldable pub verify_checked : Checked → Verified
verify_checked (reported r) =
    if atomic r then returns (some r) none else returns (some r) (some (non_atomic r))
verify_checked (missing_tx_id st) = returns none (some (check_failed st))
verify_checked nil_unit = panics

-- `VerifyStatements`
unfoldable pub verify_statements : List LogStatement → Verified
verify_statements sts = verify_checked (check sts)
