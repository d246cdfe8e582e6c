-- ===== src/Session/Units.antt =====
-- The transaction numbers that a session gives out make the count of write units right.
use go_txnproof.Prelude.{
  ℕ, suc, ◌+◌, ◌≤◌, ◌<◌, ◌≡◌, ◌≢◌, refl, false, List, [], ◌∷◌, ◌++◌, arith, Bytes, contains,
  count_distinct,
}
use go_txnproof.Classify.{StatementKind}
use go_txnproof.Boundary.Tracks.{tx_of, auto_of, write_txs, auto_commits, units_of}
use go_txnproof.Session.Run.{Event, observes, begins, ends, next_tx, trace}

-- Outside a transaction, in one that has not written, in one that has.
pub data Span : Type 0 where
  outside clean dirty : Span

-- The span after a statement, and the atomic units that begin with it.
abbrev pub after_kind : StatementKind → Span → Span × ℕ
after_kind StatementKind.begin outside = (clean, 0)
after_kind StatementKind.begin span = (span, 0)
after_kind StatementKind.commit span = (outside, 0)
after_kind StatementKind.rollback span = (outside, 0)
after_kind StatementKind.write outside = (outside, 1)
after_kind StatementKind.write clean = (dirty, 1)
after_kind StatementKind.write dirty = (dirty, 0)
after_kind _ span = (span, 0)

abbrev pub after_event : (Bytes → StatementKind) → Event → Span → Span × ℕ
after_event classify (observes query now) span = after_kind (classify query) span
after_event classify begins span = (clean, 0)
after_event classify ends span = (outside, 0)

-- The atomic units of a run, with no transaction numbers: one for each transaction with a write in
-- it, and one for each write outside.
abbrev pub atomic_units : (Bytes → StatementKind) → Span → List Event → ℕ
atomic_units classify span [] = 0
atomic_units classify span (e ∷ es) =
    let (span', n) = after_event classify e span in n + atomic_units classify span' es

abbrev Fits : Span → ℕ → ℕ → Type 0
Fits outside seq tx = tx ≡ 0
Fits clean seq tx = (0 < tx) × (tx ≤ seq)
Fits dirty seq tx = (0 < tx) × (tx ≤ seq)

-- The transaction that the run has found before.
abbrev found : Span → ℕ → List ℕ
found dirty tx = tx ∷ []
found _ tx = []

abbrev count_found : Span → ℕ
count_found dirty = 1
count_found _ = 0

next_tx-Fits :
    (k : StatementKind) (span : Span) (seq tx : ℕ)
    → Fits span seq tx
    → let (seq', tx') = next_tx k seq tx in Fits (after_kind k span).0 seq' tx'
next_tx-Fits StatementKind.begin span seq tx f = ground arith
next_tx-Fits StatementKind.write span seq tx f = ground arith
next_tx-Fits _ span seq tx f = ground arith

-- An old number does not come back.
statement_fresh :
    (k : StatementKind) (seq tx t : ℕ) (rest : List ℕ)
    → 0 < t
    → t ≤ seq
    → t ≢ tx
    → contains rest t ≡ false
    → contains (tx_of k (next_tx k seq tx).1 ++ rest) t ≡ false
statement_fresh StatementKind.write seq tx t rest p q r h = ground arith
statement_fresh _ seq tx t rest p q r h = h

next_tx_fresh :
    (k : StatementKind) (seq tx t : ℕ)
    → 0 < t
    → t ≤ seq
    → t ≢ tx
    → (t ≤ (next_tx k seq tx).0) × (t ≢ (next_tx k seq tx).1)
next_tx_fresh StatementKind.begin seq tx t p q r = ground arith
next_tx_fresh _ seq tx t p q r = ground arith

module _ (classify : Bytes → StatementKind) where
  trace_fresh :
      (es : List Event) (seq tx t : ℕ)
      → 0 < t
      → t ≤ seq
      → t ≢ tx
      → contains (write_txs (trace classify seq tx es)) t ≡ false
  trace_fresh [] seq tx t p q r = refl
  trace_fresh (observes query now ∷ es) seq tx t p q r =
      let k = classify query in
      let old = next_tx_fresh k seq tx t p q r in
      statement_fresh k seq tx t _ p q r (trace_fresh es _ _ t p old.0 old.1)
  trace_fresh (begins ∷ es) seq tx t p q r =
      trace_fresh es (suc seq) (suc seq) t p (omega arith) (omega arith)
  trace_fresh (ends ∷ es) seq tx t p q r = trace_fresh es seq 0 t p q (omega arith)

-- One statement in front of a run, which has the transactions `ts` and counts `u`.
statement_units :
    (k : StatementKind) (span : Span) (seq tx : ℕ) (ts : List ℕ) (n u : ℕ)
    → Fits span seq tx
    → (0 < tx → tx ≢ (next_tx k seq tx).1 → contains ts tx ≡ false)
    → count_distinct (found (after_kind k span).0 (next_tx k seq tx).1 ++ ts) + n
      ≡ count_found (after_kind k span).0 + u
    → let tx' = (next_tx k seq tx).1 in
      count_distinct (found span tx ++ (tx_of k tx' ++ ts)) + (auto_of k tx' + n)
      ≡ count_found span + ((after_kind k span).1 + u)
statement_units StatementKind.begin span seq tx ts n u f fresh ih = ground arith
statement_units StatementKind.write span seq tx ts n u f fresh ih = ground arith
statement_units _ span seq tx ts n u f fresh ih = ground arith

old_le :
    (k : StatementKind) (span : Span) (seq tx : ℕ)
    → Fits span seq tx
    → 0 < tx
    → tx ≤ (next_tx k seq tx).0
old_le StatementKind.begin span seq tx f p = ground arith
old_le _ span seq tx f p = ground arith

-- Where a run leaves a transaction without a statement.
leave :
    (span : Span) (seq tx : ℕ) (ts : List ℕ) (n u : ℕ)
    → Fits span seq tx
    → (0 < tx → tx ≤ seq → contains ts tx ≡ false)
    → count_distinct ts + n ≡ 0 + u
    → count_distinct (found span tx ++ ts) + n ≡ count_found span + (0 + u)
leave outside seq tx ts n u f fresh ih = omega arith
leave clean seq tx ts n u f fresh ih = omega arith
leave dirty seq tx ts n u f fresh ih = ground (arith, fresh f.0 f.1)

-- The same for a run of which some is behind: what the span says was found counts once.
module _ (classify : Bytes → StatementKind) where
  trace_units :
      (es : List Event) (span : Span) (seq tx : ℕ)
      → Fits span seq tx
      → let rs = trace classify seq tx es in
        count_distinct (found span tx ++ write_txs rs) + auto_commits rs
        ≡ count_found span + atomic_units classify span es
  trace_units [] outside seq tx f = refl
  trace_units [] clean seq tx f = refl
  trace_units [] dirty seq tx f = refl
  trace_units (observes query now ∷ es) span seq tx f =
      let k = classify query in
      let (seq', tx') = next_tx k seq tx in
      let (span', n) = after_kind k span in
      statement_units k span seq tx (write_txs (trace classify seq' tx' es))
        (auto_commits (trace classify seq' tx' es)) (atomic_units classify span' es) f
        (λ p q. trace_fresh classify es seq' tx' tx p (old_le k span seq tx f p) q)
        (trace_units es span' seq' tx' (next_tx-Fits k span seq tx f))
  trace_units (begins ∷ es) span seq tx f =
      leave span seq tx (write_txs (trace classify (suc seq) (suc seq) es))
        (auto_commits (trace classify (suc seq) (suc seq) es)) (atomic_units classify clean es) f
        (λ p q. trace_fresh classify es (suc seq) (suc seq) tx p (omega arith) (omega arith))
        (trace_units es clean (suc seq) (suc seq) (omega arith))
  trace_units (ends ∷ es) span seq tx f =
      leave span seq tx (write_txs (trace classify seq 0 es))
        (auto_commits (trace classify seq 0 es)) (atomic_units classify outside es) f
        (λ p q. trace_fresh classify es seq 0 tx p q (omega arith))
        (trace_units es outside seq 0 refl)

-- In a run that begins outside any transaction, the write units are the atomic units.
pub units_of-trace :
    (classify : Bytes → StatementKind) (seq : ℕ) (es : List Event)
    → units_of (trace classify seq 0 es) ≡ atomic_units classify outside es
units_of-trace classify seq es = omega (arith, trace_units classify es outside seq 0 refl)
