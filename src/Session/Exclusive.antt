-- ===== src/Session/Exclusive.antt =====
-- Many connections on one detector: two of them are never in the same transaction.
use go_txnproof.Prelude.{
  ℕ, zero, suc, ◌+◌, ◌^◌, ◌≤◌, ◌<◌, ◌≡◌, ◌≢◌, ◌⊎◌, refl, subst, ap, List, [], ◌∷◌, Option, none,
  some, arith, Bytes, length, get_elem?,
}
use mathlib.Core.Option.{some-injective}
use go_txnproof.Classify.{StatementKind}
use go_txnproof.Report.{Context, boundary_of}
use go_txnproof.Detector.{World, next_tx_id, record_statement, record_at, record_unbounded}
use go_txnproof.Session.{Session, new_session, begin_tx, end_tx, track, observe_kind, observe}
use go_txnproof.Session.Run.{Event, observes, begins, ends, step, next_tx}

-- The number in use is not above the last one given out, and no other connection uses it.
abbrev pub Apart : ℕ → List Session → Type 0
Apart t [] = Unit {0}
Apart t (s ∷ ss) = (0 < t → t ≢ s.tx_id) × Apart t ss

abbrev pub AllApart : ℕ → List Session → Type 0
AllApart seq [] = Unit {0}
AllApart seq (s ∷ ss) = (s.tx_id ≤ seq) × Apart s.tx_id ss × AllApart seq ss

module _ {S : Type 0} where
  -- One event on the connection `c`; an address with no session is no connection.
  unfoldable pub step_on : World S → List Session → ℕ → Context → Event → World S × List Session
  step_on w [] c ctx e = (w, [])
  step_on w (s ∷ ss) zero ctx e = let (w', s') = step w s ctx e in (w', s' ∷ ss)
  step_on w (s ∷ ss) (suc c) ctx e = let (w', ss') = step_on w ss c ctx e in (w', s ∷ ss')

  -- An interleaving: who acts, in which context.
  unfoldable pub interleave :
      World S → List Session → List (ℕ × (Context × Event)) → World S × List Session
  interleave w ss [] = (w, ss)
  interleave w ss ((c, (ctx, e)) ∷ es) =
      let (w', ss') = step_on w ss c ctx e in interleave w' ss' es

  record_statement_seq :
      (w : World S) (ctx : Context) (q : Bytes) (k : StatementKind) (tx now : ℕ)
      → (record_statement w ctx q k tx now).det.tx_seq ≡ w.det.tx_seq
  unfolding record_statement
  record_statement_seq w ctx q k tx now = at (boundary_of ctx)
    where
      at :
          (o : Option ℕ)
          → (record_at w ctx
              (record { query = q; kind = k; tx_id = tx; time = now; attrs = [] })
              o).det.tx_seq
            ≡ w.det.tx_seq
      at none = unfold record_at record_unbounded in ground arith
      at (some i) = unfold record_at in refl

-- What an event does to the counter and to the number in use: it keeps the number, drops it, or
-- takes the next one.
abbrev Moves : ℕ → ℕ → ℕ → ℕ → Type 0
Moves seq tx seq' tx' =
    (seq ≤ seq')
    × (seq' ≤ suc seq)
    × ((tx' ≡ tx) ⊎ ((tx' ≡ 0) ⊎ ((tx' ≡ suc seq) × (seq' ≡ suc seq))))

next_tx-Moves :
    (k : StatementKind) (seq tx : ℕ) → Moves seq tx (next_tx k seq tx).0 (next_tx k seq tx).1
next_tx-Moves StatementKind.begin seq tx = ground arith
next_tx-Moves _ seq tx = ground arith

module _ {S : Type 0} where
  begin_tx_state :
      (w : World S) (s : Session)
      → w.det.tx_seq + 1 < 2 ^ 64
      → ((begin_tx w s).0.det.tx_seq ≡ suc w.det.tx_seq)
        × ((begin_tx w s).1.tx_id ≡ suc w.det.tx_seq)
  unfolding begin_tx next_tx_id
  begin_tx_state w s small = omega arith

  track-Moves :
      (w : World S) (s : Session) (k : StatementKind)
      → w.det.tx_seq + 1 < 2 ^ 64
      → let (w', s') = track w s k in Moves w.det.tx_seq s.tx_id w'.det.tx_seq s'.tx_id
  unfolding track
  track-Moves w s StatementKind.begin small = ground (arith, begin_tx_state w s small)
  track-Moves w s _ small = ground arith

  step-Moves :
      (w : World S) (s : Session) (ctx : Context) (e : Event)
      → w.det.tx_seq + 1 < 2 ^ 64
      → let (w', s') = step w s ctx e in Moves w.det.tx_seq s.tx_id w'.det.tx_seq s'.tx_id
  unfolding step observe observe_kind end_tx
  step-Moves w s ctx (observes q now) small =
      let k = w.det.classify q in
      let (w', s') = track w s k in
      ground (arith, track-Moves w s k small, record_statement_seq w' ctx q k s'.tx_id now)
  step-Moves w s ctx begins small = ground (arith, begin_tx_state w s small)
  step-Moves w s ctx ends small = ground arith

Apart-fresh : (seq : ℕ) (ss : List Session) → AllApart seq ss → Apart (suc seq) ss
Apart-fresh seq [] a = tt
Apart-fresh seq (s ∷ ss) a = (λ p. omega (arith, a.0), Apart-fresh seq ss a.2)

AllApart-mono : (m n : ℕ) (ss : List Session) → m ≤ n → AllApart m ss → AllApart n ss
AllApart-mono m n [] h a = tt
AllApart-mono m n (s ∷ ss) h a = (omega (arith, a.0), a.1, AllApart-mono m n ss h a.2)

Apart-Moves :
    (seq tx seq' tx' : ℕ) (ss : List Session)
    → Moves seq tx seq' tx'
    → Apart tx ss
    → AllApart seq ss
    → Apart tx' ss
Apart-Moves seq tx seq' tx' [] m p a = tt
Apart-Moves seq tx seq' tx' (s ∷ ss) m p a =
    (λ h. ground (arith, p.0, a.0), Apart-Moves seq tx seq' tx' ss m p.1 a.2)

module _ {S : Type 0} where
  step_on_seq :
      (w : World S) (ss : List Session) (c : ℕ) (ctx : Context) (e : Event)
      → w.det.tx_seq + 1 < 2 ^ 64
      → (w.det.tx_seq ≤ (step_on w ss c ctx e).0.det.tx_seq)
        × ((step_on w ss c ctx e).0.det.tx_seq ≤ suc w.det.tx_seq)
  unfolding step_on
  step_on_seq w [] c ctx e small = omega arith
  step_on_seq w (s ∷ ss) zero ctx e small = let m = step-Moves w s ctx e small in (m.0, m.1)
  step_on_seq w (s ∷ ss) (suc c) ctx e small = step_on_seq w ss c ctx e small

  step_on-Apart :
      (w : World S) (ss : List Session) (c : ℕ) (ctx : Context) (e : Event) (t : ℕ)
      → w.det.tx_seq + 1 < 2 ^ 64
      → t ≤ w.det.tx_seq
      → Apart t ss
      → Apart t (step_on w ss c ctx e).1
  unfolding step_on
  step_on-Apart w [] c ctx e t small h p = tt
  step_on-Apart w (s ∷ ss) zero ctx e t small h p =
      (λ q. ground (arith, step-Moves w s ctx e small, p.0 q), p.1)
  step_on-Apart w (s ∷ ss) (suc c) ctx e t small h p =
      (p.0, step_on-Apart w ss c ctx e t small h p.1)

  step_on-AllApart :
      (w : World S) (ss : List Session) (c : ℕ) (ctx : Context) (e : Event)
      → w.det.tx_seq + 1 < 2 ^ 64
      → AllApart w.det.tx_seq ss
      → AllApart (step_on w ss c ctx e).0.det.tx_seq (step_on w ss c ctx e).1
  unfolding step_on
  step_on-AllApart w [] c ctx e small a = tt
  step_on-AllApart w (s ∷ ss) zero ctx e small a =
      let m = step-Moves w s ctx e small in
      (ground (arith, m, a.0), Apart-Moves _ _ _ _ ss m a.1 a.2, AllApart-mono _ _ ss m.0 a.2)
  step_on-AllApart w (s ∷ ss) (suc c) ctx e small a = (
    omega (arith, a.0, step_on_seq w ss c ctx e small),
    step_on-Apart w ss c ctx e s.tx_id small a.0 a.1,
    step_on-AllApart w ss c ctx e small a.2,
  )

  interleave-AllApart :
      (es : List (ℕ × (Context × Event))) (w : World S) (ss : List Session)
      → w.det.tx_seq + length es < 2 ^ 64
      → AllApart w.det.tx_seq ss
      → AllApart (interleave w ss es).0.det.tx_seq (interleave w ss es).1
  unfolding interleave
  interleave-AllApart [] w ss small a = a
  interleave-AllApart ((c, (ctx, e)) ∷ es) w ss small a =
      let grows = step_on_seq w ss c ctx e (omega arith) in
      interleave-AllApart es _ _ (omega (arith, grows))
        (step_on-AllApart w ss c ctx e (omega arith) a)

Apart-get :
    (t : ℕ) (ss : List Session) (d : ℕ) (u : Session)
    → Apart t ss
    → get_elem? ss d ≡ some u
    → 0 < t
    → t ≢ u.tx_id
Apart-get t [] d u p h q = cc
Apart-get t (s ∷ ss) zero u p h q = ground (arith, p.0 q)
Apart-get t (s ∷ ss) (suc d) u p h q = Apart-get t ss d u p.1 h q

AllApart-get :
    (seq : ℕ) (ss : List Session) (c d : ℕ) (s u : Session)
    → AllApart seq ss
    → c ≢ d
    → get_elem? ss c ≡ some s
    → get_elem? ss d ≡ some u
    → 0 < s.tx_id
    → s.tx_id ≢ u.tx_id
AllApart-get seq [] c d s u a ne h k q = cc
AllApart-get seq (v ∷ ss) zero zero s u a ne h k q = absurd (ne refl)
AllApart-get seq (v ∷ ss) zero (suc d) s u a ne h k q =
    Apart-get s.tx_id ss d u (subst (λ z. Apart z.tx_id ss) (some-injective v s h) a.1) k q
AllApart-get seq (v ∷ ss) (suc c) zero s u a ne h k q =
    let same = some-injective v u k in
    λ e. Apart-get v.tx_id ss c s a.1 h (ground arith) (ground arith)
AllApart-get seq (v ∷ ss) (suc c) (suc d) s u a ne h k q =
    AllApart-get seq ss c d s u a.2 (λ e. ne (ap suc e)) h k q

-- New sessions are apart.
abbrev pub new_sessions : ℕ → List Session
new_sessions zero = []
new_sessions (suc n) = new_session ∷ new_sessions n

new_sessions-Apart : (n : ℕ) → Apart 0 (new_sessions n)
new_sessions-Apart zero = tt
new_sessions-Apart (suc n) = (λ p. absurd (omega arith), new_sessions-Apart n)

new_sessions-AllApart : (seq n : ℕ) → AllApart seq (new_sessions n)
unfolding new_session
new_sessions-AllApart seq zero = tt
new_sessions-AllApart seq (suc n) = (omega arith, new_sessions-Apart n, new_sessions-AllApart seq n)

-- However the events of any number of connections of one detector interleave, two different
-- connections that are inside a transaction are in transactions with different numbers, so their
-- writes are never taken for one unit. The transaction counter must not wrap.
pub interleave_exclusive :
    {S : Type 0} (w : World S) (n : ℕ) (es : List (ℕ × (Context × Event))) (c d : ℕ) (s u : Session)
    → w.det.tx_seq + length es < 2 ^ 64
    → c ≢ d
    → get_elem? (interleave w (new_sessions n) es).1 c ≡ some s
    → get_elem? (interleave w (new_sessions n) es).1 d ≡ some u
    → 0 < s.tx_id
    → s.tx_id ≢ u.tx_id
interleave_exclusive w n es c d s u small ne h k =
    let apart =
      interleave-AllApart es w (new_sessions n) small (new_sessions-AllApart w.det.tx_seq n) in
    AllApart-get _ _ c d s u apart ne h k
