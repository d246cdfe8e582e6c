-- ===== src/Session/Run.antt =====
-- A run of a connection inside one boundary, and the statements that the boundary gets from it.
use mathlib.Core.Path.{fun_ext}
use go_txnproof.Prelude.{
  ℕ, zero, suc, ◌+◌, ◌%◌, ◌^◌, ◌≤◌, ◌<◌, ◌≡◌, refl, ◌∙◌, ap, sym, List, [], ◌∷◌, ◌++◌, some, inl,
  inr, arith, Bytes, Bool-cases, ◌==◌, if◌then◌else◌, length,
}
use go_txnproof.Classify.{StatementKind}
use go_txnproof.Report.{StatementRecord, Context, boundary_of}
use go_txnproof.Boundary.{Boundary, record_in}
use go_txnproof.Boundary.Units.{record_all}
use go_txnproof.Detector.{World, modify, next_tx_id, record_at, record_statement}
use go_txnproof.Session.{Session, begin_tx, end_tx, track, observe_kind, observe}

-- What the client of a session does: a statement at a time, or a transition without a statement.
pub data Event : Type 0 where
  observes : Bytes → ℕ → Event
  begins ends : Event

module _ {S : Type 0} where
  unfoldable pub step : World S → Session → Context → Event → World S × Session
  step w s ctx (observes query now) = observe w s ctx query now
  step w s ctx begins = begin_tx w s
  step w s ctx ends = (w, end_tx s)

  unfoldable pub run : World S → Session → Context → List Event → World S × Session
  run w s ctx [] = (w, s)
  run w s ctx (e ∷ es) = let (w', s') = step w s ctx e in run w' s' ctx es

-- The transaction after a statement, and the last number given out.
abbrev pub next_tx : StatementKind → ℕ → ℕ → ℕ × ℕ
next_tx StatementKind.begin seq tx = if tx == 0 then (suc seq, suc seq) else (seq, tx)
next_tx StatementKind.commit seq tx = (seq, 0)
next_tx StatementKind.rollback seq tx = (seq, 0)
next_tx _ seq tx = (seq, tx)

abbrev pub next_state : (Bytes → StatementKind) → Event → ℕ → ℕ → ℕ × ℕ
next_state classify (observes query now) seq tx = next_tx (classify query) seq tx
next_state classify begins seq tx = (suc seq, suc seq)
next_state classify ends seq tx = (seq, 0)

abbrev pub statement_of : (Bytes → StatementKind) → Event → ℕ → List StatementRecord
statement_of classify (observes query now) tx =
    record { query = query; kind = classify query; tx_id = tx; time = now; attrs = [] } ∷ []
statement_of classify _ tx = []

-- The records of a run that begins with the number `seq` given out last, in transaction `tx`.
abbrev pub trace : (Bytes → StatementKind) → ℕ → ℕ → List Event → List StatementRecord
trace classify seq tx [] = []
trace classify seq tx (e ∷ es) =
    let (seq', tx') = next_state classify e seq tx in
    statement_of classify e tx' ++ trace classify seq' tx' es

abbrev pub last_state : (Bytes → StatementKind) → ℕ → ℕ → List Event → ℕ × ℕ
last_state classify seq tx [] = (seq, tx)
last_state classify seq tx (e ∷ es) =
    let (seq', tx') = next_state classify e seq tx in last_state classify seq' tx' es

modify_id : (bs : List Boundary) (i : ℕ) → modify bs i (λ b. b) ≡ bs
unfolding modify
modify_id [] i = refl
modify_id (b ∷ bs) zero = refl
modify_id (b ∷ bs) (suc i) = ap (◌∷◌ b) (modify_id bs i)

modify_twice :
    (bs : List Boundary) (i : ℕ) (f g : Boundary → Boundary)
    → modify (modify bs i f) i g ≡ modify bs i (λ b. g (f b))
unfolding modify
modify_twice [] i f g = refl
modify_twice (b ∷ bs) zero f g = refl
modify_twice (b ∷ bs) (suc i) f g = ap (◌∷◌ b) (modify_twice bs i f g)

record_all-append :
    (max : ℕ) (rs qs : List StatementRecord) (b : Boundary)
    → record_all max qs (record_all max rs b) ≡ record_all max (rs ++ qs) b
record_all-append max [] qs b = refl
record_all-append max (r ∷ rs) qs b = record_all-append max rs qs (record_in max r b)

next_tx_seq : (k : StatementKind) (seq tx : ℕ) → (next_tx k seq tx).0 ≤ suc seq
next_tx_seq StatementKind.begin seq tx = ground arith
next_tx_seq _ seq tx = omega arith

pub next_state_seq :
    (classify : Bytes → StatementKind) (e : Event) (seq tx : ℕ)
    → (next_state classify e seq tx).0 ≤ suc seq
next_state_seq classify (observes query now) seq tx = next_tx_seq (classify query) seq tx
next_state_seq classify begins seq tx = omega arith
next_state_seq classify ends seq tx = omega arith

module _ {S : Type 0} where
  -- The world in which a run has put its statements into the boundary at `i`.
  abbrev pub after_run : World S → ℕ → ℕ → List StatementRecord → World S
  after_run w seq i rs = record w {
    det = record w.det { tx_seq = seq };
    heap = modify w.heap i (record_all w.det.max_recorded_statements rs);
  }

  abbrev set_seq : World S → ℕ → World S
  set_seq w n = record w { det = record w.det { tx_seq = n } }

  next_tx_id_lem :
      (w : World S)
      → w.det.tx_seq + 1 < 2 ^ 64
      → next_tx_id w ≡ (set_seq w (suc w.det.tx_seq), suc w.det.tx_seq)
  unfolding next_tx_id
  next_tx_id_lem w small =
      let e : (w.det.tx_seq + 1) % 2 ^ 64 ≡ suc w.det.tx_seq = omega arith in
      ap (λ n. (set_seq w n, n)) e

  begin_tx_lem :
      (w : World S) (s : Session)
      → w.det.tx_seq + 1 < 2 ^ 64
      → begin_tx w s ≡ (set_seq w (suc w.det.tx_seq), record { tx_id = suc w.det.tx_seq })
  unfolding begin_tx
  begin_tx_lem w s small = rw (next_tx_id_lem w small)

  track_lem :
      (w : World S) (s : Session) (k : StatementKind)
      → w.det.tx_seq + 1 < 2 ^ 64
      → let (seq', tx') = next_tx k w.det.tx_seq s.tx_id in
        track w s k ≡ (set_seq w seq', record { tx_id = tx' })
  unfolding track
  track_lem w s StatementKind.begin small = elim (Bool-cases (s.tx_id == 0)) [
    | inl idle ↦ rw idle (begin_tx_lem w s small)
    | inr inside ↦ rw inside
  ]
  track_lem w s StatementKind.commit small = refl
  track_lem w s StatementKind.rollback small = refl
  track_lem w s _ small = refl

  silent : (w : World S) (n i : ℕ) → set_seq w n ≡ after_run w n i []
  silent w n i =
      ap (λ h. record w { det = record w.det { tx_seq = n }; heap = h }) (sym (modify_id w.heap i))

  record_statement_lem :
      (w : World S) (ctx : Context) (i : ℕ) (query : Bytes) (k : StatementKind) (tx now : ℕ)
      → boundary_of ctx ≡ some i
      → record_statement w ctx query k tx now
        ≡ after_run w w.det.tx_seq i
            (record { query = query; kind = k; tx_id = tx; time = now; attrs = [] } ∷ [])
  unfolding record_statement record_at
  record_statement_lem w ctx i query k tx now h = rw (h, record_at)

  step_lem :
      (w : World S) (s : Session) (ctx : Context) (e : Event) (i : ℕ)
      → boundary_of ctx ≡ some i
      → w.det.tx_seq + 1 < 2 ^ 64
      → let (seq', tx') = next_state w.det.classify e w.det.tx_seq s.tx_id in
        step w s ctx e
        ≡ (after_run w seq' i (statement_of w.det.classify e tx'), record { tx_id = tx' })
  unfolding step observe observe_kind end_tx
  step_lem w s ctx (observes query now) i h small =
      rw (track_lem w s (w.det.classify query) small)
        (rw (record_statement_lem (set_seq w _) ctx i query (w.det.classify query) _ now h))
  step_lem w s ctx begins i h small =
      begin_tx_lem w s small
      ∙ ap (λ v. (v, record { tx_id = suc w.det.tx_seq })) (silent w (suc w.det.tx_seq) i)
  step_lem w s ctx ends i h small = ap (λ v. (v, record { tx_id = 0 })) (silent w w.det.tx_seq i)

  after_run_twice :
      (w : World S) (m n i : ℕ) (rs qs : List StatementRecord)
      → after_run (after_run w m i rs) n i qs ≡ after_run w n i (rs ++ qs)
  after_run_twice w m n i rs qs =
      let max = w.det.max_recorded_statements in
      ap (λ h. record w { det = record w.det { tx_seq = n }; heap = h })
        (modify_twice w.heap i (record_all max rs) (record_all max qs)
          ∙ ap (modify w.heap i) (fun_ext (record_all-append max rs qs)))

  -- A run puts its trace into the boundary that its context carries, and touches nothing else but
  -- the counter of transactions.
  pub run_lem :
      (es : List Event) (w : World S) (s : Session) (ctx : Context) (i : ℕ)
      → boundary_of ctx ≡ some i
      → w.det.tx_seq + length es < 2 ^ 64
      → let (seq', tx') = last_state w.det.classify w.det.tx_seq s.tx_id es in
        run w s ctx es ≡ (
          after_run w seq' i (trace w.det.classify w.det.tx_seq s.tx_id es),
          record { tx_id = tx' },
        )
  unfolding run
  run_lem [] w s ctx i h small = ap (λ v. (v, s)) (silent w w.det.tx_seq i)
  run_lem (e ∷ es) w s ctx i h small =
      let (seq', tx') = next_state w.det.classify e w.det.tx_seq s.tx_id in
      let stmts = statement_of w.det.classify e tx' in
      let (seq'', tx'') = last_state w.det.classify seq' tx' es in
      let grows = next_state_seq w.det.classify e w.det.tx_seq s.tx_id in
      rw (step_lem w s ctx e i h (omega arith)) (
        run_lem es (after_run w seq' i stmts) (record { tx_id = tx' }) ctx i h
          (omega (arith, grows))
        ∙ ap (λ v. (v, record { tx_id = tx'' }))
            (after_run_twice w seq' seq'' i stmts (trace w.det.classify seq' tx' es)))
