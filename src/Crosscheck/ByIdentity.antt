-- ===== src/Crosscheck/ByIdentity.antt =====
-- The writes of a log by their identities, and what the map of the loop holds for each.
use go_txnproof.Prelude.{
  ◌≡◌, refl, ◌∙◌, ap, sym, List, [], ◌∷◌, ◌++◌, append-nil, append_assoc, Option, none, some, arith,
  Bytes, bytes_eq, bytes_eq_iff, length, if◌then◌else◌,
}
use go_txnproof.Prelude.Dict.{lookup, lookup-insert}
use go_txnproof.Detector.{is_write}
use go_txnproof.Crosscheck.{
  LogStatement, TxUnit, missing_tx_id, Groups, put_write, collect, report_of, check_from,
}

-- The writes of a log, in order.
abbrev pub writes : List LogStatement → List LogStatement
writes [] = []
writes (st ∷ sts) = if is_write st.kind then st ∷ writes sts else writes sts

-- The first write of a log that carries no identity.
abbrev pub first_missing : List LogStatement → Option LogStatement
first_missing [] = none
first_missing (st ∷ sts) = if bytes_eq st.tx_id [] then some st else first_missing sts

abbrev pub without : Bytes → List Bytes → List Bytes
without k [] = []
without k (j ∷ js) = if bytes_eq k j then without k js else j ∷ without k js

-- The identities, each where it appears first.
abbrev pub first_txs : List LogStatement → List Bytes
first_txs [] = []
first_txs (st ∷ sts) = st.tx_id ∷ without st.tx_id (first_txs sts)

-- The statements with an identity.
abbrev pub of_tx : Bytes → List LogStatement → List LogStatement
of_tx k [] = []
of_tx k (st ∷ sts) = if bytes_eq st.tx_id k then st ∷ of_tx k sts else of_tx k sts

abbrev pub unit_of : List LogStatement → Bytes → TxUnit
unit_of sts k = record { tx_id = k; statements = of_tx k sts }

-- The loop with the writes alone, each of which carries an identity.
abbrev pub put_all : Groups → List LogStatement → Groups
put_all g [] = g
put_all g (st ∷ sts) = put_all (put_write g st (lookup g.units st.tx_id)) sts

pub check_from-writes :
    (g : Groups) (sts : List LogStatement)
    → check_from g sts ≡ elim (first_missing (writes sts)) [
      | none ↦
          let h = put_all g (writes sts) in report_of (length h.order) (collect h.units h.order)
      | some st ↦ missing_tx_id st
    ]
unfolding check_from
check_from-writes g [] = refl
check_from-writes g (st ∷ sts) = ground (
  arith,
  check_from-writes g sts,
  check_from-writes (put_write g st (lookup g.units st.tx_id)) sts,
)

-- What a key holds behind more statements of its transaction.
abbrev pub grown : Bytes → Option TxUnit → List LogStatement → Option TxUnit
grown k none [] = none
grown k none (st ∷ sts) = some (record { tx_id = k; statements = st ∷ sts })
grown k (some u) sts = some (record u { statements = u.statements ++ sts })

grown-nil : (k : Bytes) (o : Option TxUnit) → grown k o [] ≡ o
grown-nil k none = refl
grown-nil k (some u) = ap (λ l. some (record u { statements = l })) (append-nil u.statements)

grown-append :
    (k : Bytes) (o : Option TxUnit) (a b : List LogStatement)
    → grown k (grown k o a) b ≡ grown k o (a ++ b)
grown-append k none [] b = refl
grown-append k none (st ∷ a) b = refl
grown-append k (some u) a b =
    ap (λ l. some (record u { statements = l })) (append_assoc u.statements a b)

pub put_write-lookup :
    (g : Groups) (st : LogStatement) (o : Option TxUnit) (k : Bytes)
    → lookup g.units st.tx_id ≡ o
    → lookup (put_write g st o).units k ≡ grown k (lookup g.units k) (of_tx k (st ∷ []))
unfolding put_write
put_write-lookup g st none k h = ground (
  arith,
  lookup-insert g.units st.tx_id k (record { tx_id = st.tx_id; statements = st ∷ [] }),
  bytes_eq_iff st.tx_id k,
  grown-nil k (lookup g.units k),
)
put_write-lookup g st (some u) k h = ground (
  arith,
  lookup-insert g.units st.tx_id k (record u { statements = u.statements ++ st ∷ [] }),
  bytes_eq_iff st.tx_id k,
  grown-nil k (lookup g.units k),
)

of_tx-cons :
    (k : Bytes) (st : LogStatement) (sts : List LogStatement)
    → of_tx k (st ∷ []) ++ of_tx k sts ≡ of_tx k (st ∷ sts)
of_tx-cons k st sts = ground arith

pub put_all-lookup :
    (sts : List LogStatement) (g : Groups) (k : Bytes)
    → lookup (put_all g sts).units k ≡ grown k (lookup g.units k) (of_tx k sts)
put_all-lookup [] g k = sym (grown-nil k (lookup g.units k))
put_all-lookup (st ∷ sts) g k =
    let o = lookup g.units st.tx_id in
    put_all-lookup sts (put_write g st o) k
    ∙ ap (λ v. grown k v (of_tx k sts)) (put_write-lookup g st o k refl)
    ∙ grown-append k (lookup g.units k) (of_tx k (st ∷ [])) (of_tx k sts)
    ∙ ap (grown k (lookup g.units k)) (of_tx-cons k st sts)
