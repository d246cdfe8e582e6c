-- ===== src/Crosscheck/Grouping.antt =====
-- `Check` reports each transaction with a write once, in the order of appearance, with its writes.
use go_txnproof.Prelude.{
  ◌≡◌, refl, ◌∙◌, ap, sym, true, not, ◌&&◌, List, [], ◌∷◌, ◌++◌, map, append-nil, append_assoc,
  Option, none, some, arith, Bytes, bytes_eq, bytes_eq_iff, length,
}
use go_txnproof.Prelude.Dict.{Dict, lookup}
use go_txnproof.Prelude.Sort.{text_mem}
use go_txnproof.Crosscheck.{
  LogStatement, TxUnit, CheckReport, Checked, reported, missing_tx_id, Groups, put_write, collect,
  report_of, check,
}
use go_txnproof.Crosscheck.ByIdentity.{
  writes, first_missing, without, first_txs, of_tx, unit_of, put_all, check_from-writes, grown,
  put_write-lookup, put_all-lookup,
}

-- The keys that the map does not have.
abbrev fresh : Dict TxUnit → List Bytes → List Bytes
fresh units [] = []
fresh units (k ∷ ks) = elim (lookup units k) [ none ↦ k ∷ fresh units ks | some u ↦ fresh units ks ]

-- A write makes its key one that the map has.
put_write-fresh :
    (g : Groups) (st : LogStatement) (o : Option TxUnit) (ks : List Bytes)
    → lookup g.units st.tx_id ≡ o
    → fresh (put_write g st o).units ks ≡ fresh g.units (without st.tx_id ks)
put_write-fresh g st o [] h = refl
put_write-fresh g st none (k ∷ ks) h =
    ground (
      arith,
      put_write-lookup g st none k h,
      put_write-fresh g st none ks h,
      bytes_eq_iff st.tx_id k,
    )
put_write-fresh g st (some u) (k ∷ ks) h = ground (
  arith,
  put_write-lookup g st (some u) k h,
  put_write-fresh g st (some u) ks h,
  bytes_eq_iff st.tx_id k,
)

-- Where the map has the key before, it is not fresh without it either.
fresh-without :
    (units : Dict TxUnit) (j : Bytes) (u : TxUnit) (ks : List Bytes)
    → lookup units j ≡ some u
    → fresh units (without j ks) ≡ fresh units ks
fresh-without units j u [] h = refl
fresh-without units j u (k ∷ ks) h = ground (arith, bytes_eq_iff j k, fresh-without units j u ks h)

fresh-new :
    (units : Dict TxUnit) (k : Bytes) (ks : List Bytes)
    → lookup units k ≡ none
    → fresh units (k ∷ ks) ≡ k ∷ fresh units ks
fresh-new units k ks h = ground arith

fresh-old :
    (units : Dict TxUnit) (k : Bytes) (u : TxUnit) (ks : List Bytes)
    → lookup units k ≡ some u
    → fresh units (k ∷ ks) ≡ fresh units ks
fresh-old units k u ks h = ground arith

put_write-order :
    (g : Groups) (st : LogStatement) (o : Option TxUnit) (ks : List Bytes)
    → lookup g.units st.tx_id ≡ o
    → (put_write g st o).order ++ fresh (put_write g st o).units ks
      ≡ g.order ++ fresh g.units (st.tx_id ∷ without st.tx_id ks)
put_write-order g st none ks h =
    rw (put_write-fresh g st none ks h, fresh-new g.units st.tx_id (without st.tx_id ks) h)
      (unfold put_write in
        append_assoc g.order (st.tx_id ∷ []) (fresh g.units (without st.tx_id ks)))
put_write-order g st (some u) ks h =
    rw (put_write-fresh g st (some u) ks h, fresh-old g.units st.tx_id u (without st.tx_id ks) h)
      (unfold put_write in refl)

put_all-order :
    (sts : List LogStatement) (g : Groups)
    → (put_all g sts).order ≡ g.order ++ fresh g.units (first_txs sts)
put_all-order [] g = sym (append-nil g.order)
put_all-order (st ∷ sts) g =
    let o = lookup g.units st.tx_id in
    put_all-order sts (put_write g st o) ∙ put_write-order g st o (first_txs sts) refl

fresh-all : (ks : List Bytes) → fresh [] ks ≡ ks
unfolding lookup
fresh-all [] = refl
fresh-all (k ∷ ks) = ap (◌∷◌ k) (fresh-all ks)

text_mem-without :
    (j k : Bytes) (ks : List Bytes)
    → text_mem (without j ks) k ≡ (not (bytes_eq j k) && text_mem ks k)
text_mem-without j k [] = ground arith
text_mem-without j k (i ∷ ks) =
    ground (arith, text_mem-without j k ks, bytes_eq_iff j i, bytes_eq_iff i k, bytes_eq_iff j k)

-- Only the identities that statements have appear.
first_txs-some :
    (sts : List LogStatement) (k : Bytes)
    → text_mem (first_txs sts) k ≡ true
    → grown k none (of_tx k sts) ≡ some (unit_of sts k)
first_txs-some [] k h = ground arith
first_txs-some (st ∷ sts) k h = ground (
  arith,
  text_mem-without st.tx_id k (first_txs sts),
  bytes_eq_iff st.tx_id k,
  first_txs-some sts k,
)

text_mem-head : (k : Bytes) (ks : List Bytes) → text_mem (k ∷ ks) k ≡ true
text_mem-head k ks = ground (arith, bytes_eq_iff k k)

text_mem-tail :
    (j : Bytes) (ks : List Bytes) (k : Bytes) → text_mem ks k ≡ true → text_mem (j ∷ ks) k ≡ true
text_mem-tail j ks k h = ground arith

-- The second loop finds every key of the order.
collect-all :
    (units : Dict TxUnit) (sts : List LogStatement) (ks : List Bytes)
    → ((k : Bytes) → text_mem ks k ≡ true → lookup units k ≡ some (unit_of sts k))
    → collect units ks ≡ some (map (unit_of sts) ks)
unfolding collect
collect-all units sts [] h = refl
collect-all units sts (k ∷ ks) h =
    let here = h k (text_mem-head k ks) in
    let rest = collect-all units sts ks (λ j m. h j (text_mem-tail k ks j m)) in
    ground (arith, here, rest)

-- The report that describes writes, with no map.
abbrev pub report_on : List LogStatement → CheckReport
report_on sts = record {
  write_units = length (first_txs sts);
  units = map (unit_of sts) (first_txs sts);
}

-- `Check` fails with the first write that carries no identity. Where there is none, it reports the
-- identities of the writes in the order in which they appear first, each once, with its writes in
-- order, and their number; and it never reads a unit that is not there.
pub check_exact :
    (sts : List LogStatement)
    → check sts ≡ elim (first_missing (writes sts)) [
      | none ↦ reported (report_on (writes sts))
      | some st ↦ missing_tx_id st
    ]
unfolding check report_of
check_exact sts =
    let ws = writes sts in
    let g = put_all (record { units = []; order = [] }) ws in
    let order = put_all-order ws (record { units = []; order = [] }) ∙ fresh-all (first_txs ws) in
    let found = collect-all g.units ws (first_txs ws) (λ k m.
      put_all-lookup ws (record { units = []; order = [] }) k
      ∙ (unfold lookup in first_txs-some ws k m)) in
    check_from-writes (record { units = []; order = [] }) sts
    ∙ ap (λ (c : Checked). elim (first_missing ws) [ none ↦ c | some st ↦ missing_tx_id st ])
        (ap (λ ks. report_of (length ks) (collect g.units ks)) order
          ∙ ap (report_of (length (first_txs ws))) found)
