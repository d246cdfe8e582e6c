-- ===== src/PgxTracer/Units.antt =====
-- The units that a client of pgx makes inside a boundary.
use go_txnproof.Prelude.{
  ℕ, ◌+◌, ◌^◌, ◌<◌, ◌≡◌, refl, ap, ◌∙◌, Bool, true, false, List, [], ◌∷◌, none, arith, Bytes,
  Bool-cases, inl, inr, ltb, length, if◌then◌else◌,
}
use go_txnproof.Prelude.Dict.{lookup}
use go_txnproof.Classify.{StatementKind}
use go_txnproof.Report.{Context, boundary_node, report_all}
use go_txnproof.Detector.{World, is_write, start_boundary, in_boundary, attrs_of}
use go_txnproof.Session.{Session, new_session}
use go_txnproof.Session.Run.{Event, ends, step, run, trace}
use go_txnproof.Session.Units.{Span, outside, clean, dirty, after_kind, atomic_units}
use go_txnproof.Session.Report.{run_violation, in_boundary_exact}
use go_txnproof.Driver.Refines.{run_in}
use go_txnproof.NullDb.Observed.{in_boundary_world}
use go_txnproof.PgxTracer.{Tracer, new_pgx_tracer, session_for, is_implicit}
use go_txnproof.PgxTracer.Batch.{TraceCall, trace_calls, calls_events, trace_calls_exact}
use go_txnproof.PgxTracer.Client.{
  query, batch, PgxOp, query, batch, is_control, no_control, plain_batches, any_write, batch_step,
  op_step, client_units, batch_queries, client_calls, observed_all, batch_events, client_events,
}

-- A statement other than transaction control inside a transaction.
after_kind-dirty : (k : StatementKind) → is_control k ≡ false → after_kind k dirty ≡ (dirty, 0)
after_kind-dirty StatementKind.begin h = absurd (ground (arith, h))
after_kind-dirty StatementKind.commit h = absurd (ground (arith, h))
after_kind-dirty StatementKind.rollback h = absurd (ground (arith, h))
after_kind-dirty _ h = refl

after_kind-clean :
    (k : StatementKind)
    → is_control k ≡ false
    → after_kind k clean ≡ (if is_write k then (dirty, 1) else (clean, 0))
after_kind-clean StatementKind.begin h = absurd (ground (arith, h))
after_kind-clean StatementKind.commit h = absurd (ground (arith, h))
after_kind-clean StatementKind.rollback h = absurd (ground (arith, h))
after_kind-clean _ h = refl

module _ (classify : Bytes → StatementKind) where
  abbrev count_from : List Event → Span × ℕ → ℕ
  count_from es (span, n) = n + atomic_units classify span es

  observed_all-dirty :
      (qs : List (Bytes × ℕ)) (es : List Event)
      → no_control classify qs ≡ true
      → atomic_units classify dirty (observed_all qs es) ≡ atomic_units classify dirty es
  observed_all-dirty [] es h = refl
  observed_all-dirty ((q, now) ∷ qs) es h =
      ap (count_from (observed_all qs es)) (after_kind-dirty (classify q) (ground (arith, h)))
      ∙ omega (arith, observed_all-dirty qs es (ground (arith, h)))

  observed_all-clean :
      (qs : List (Bytes × ℕ)) (es : List Event)
      → no_control classify qs ≡ true
      → let (span, n) = batch_step (any_write classify qs) clean in
        atomic_units classify clean (observed_all qs es) ≡ n + atomic_units classify span es
  observed_all-clean [] es h = omega arith
  observed_all-clean ((q, now) ∷ qs) es h =
      let g : no_control classify qs ≡ true = ground (arith, h) in
      ap (count_from (observed_all qs es)) (after_kind-clean (classify q) (ground (arith, h)))
      ∙ elim (Bool-cases (is_write (classify q))) [
        | inl t ↦ rw t (omega (arith, observed_all-dirty qs es g))
        | inr f ↦ rw f (omega (arith, observed_all-clean qs es g))
      ]

  ended_batch :
      (any : Bool) (es : List Event)
      → atomic_units classify (batch_step any clean).0 (ends ∷ es)
        ≡ atomic_units classify outside es
  ended_batch true es = omega arith
  ended_batch false es = omega arith

  batch_events-units :
      (span : Span) (qs : List (Bytes × ℕ)) (es : List Event)
      → no_control classify qs ≡ true
      → let (span', n) = batch_step (any_write classify qs) span in
        atomic_units classify span (batch_events span qs es) ≡ n + atomic_units classify span' es
  batch_events-units outside qs es h =
      let any = any_write classify qs in
      let (span, n) = batch_step any clean in
      let tail : atomic_units classify span (ends ∷ es) ≡ atomic_units classify outside es =
        ended_batch any es in
      omega (arith, observed_all-clean qs (ends ∷ es) h, tail)
  batch_events-units clean qs es h = observed_all-clean qs es h
  batch_events-units dirty qs es h = omega (arith, observed_all-dirty qs es h)

  client_events-units :
      (span : Span) (ops : List PgxOp)
      → plain_batches classify ops ≡ true
      → atomic_units classify span (client_events classify span ops)
        ≡ client_units classify span ops
  client_events-units span [] h = refl
  client_events-units span (query q now ∷ ops) h =
      let (span', n) = op_step classify (query q now) span in
      ap (λ m. n + m) (client_events-units span' ops h)
  client_events-units span (batch qs ∷ ops) h =
      let (span', n) = op_step classify (batch qs) span in
      batch_events-units span qs (client_events classify span' ops) (ground (arith, h))
      ∙ ap (λ m. n + m) (client_events-units span' ops (ground (arith, h)))

module _ {S : Type 0} (ctx : Context) where
  -- The calls of a batch and of what follows, as a run in the context of the client.
  batch_queries-run :
      (b : Bool) (qs : List (Bytes × ℕ)) (calls : List TraceCall) (es : List Event)
      → ((v : World S × Session) → run_in (calls_events calls false) v ≡ run v.0 v.1 ctx es)
      → (v : World S × Session)
      → run_in (calls_events (batch_queries ctx qs calls) b) v
        ≡ run v.0 v.1 ctx (observed_all qs (if b then ends ∷ es else es))
  unfolding run step
  batch_queries-run true [] calls es h v = h _
  batch_queries-run false [] calls es h v = h v
  batch_queries-run b ((q, now) ∷ qs) calls es h v = batch_queries-run b qs calls es h _

  client_calls-run :
      (classify : Bytes → StatementKind) (span : Span) (ops : List PgxOp) (v : World S × Session)
      → run_in (calls_events (client_calls classify ctx span ops) false) v
        ≡ run v.0 v.1 ctx (client_events classify span ops)
  unfolding run step
  client_calls-run classify span [] v = refl
  client_calls-run classify span (query q now ∷ ops) v =
      client_calls-run classify (op_step classify (query q now) span).0 ops _
  client_calls-run classify outside (batch qs ∷ ops) v =
      batch_queries-run true qs _ _
        (client_calls-run classify (op_step classify (batch qs) outside).0 ops) _
  client_calls-run classify clean (batch qs ∷ ops) v =
      batch_queries-run false qs _ _
        (client_calls-run classify (op_step classify (batch qs) clean).0 ops) v
  client_calls-run classify dirty (batch qs ∷ ops) v =
      batch_queries-run false qs _ _
        (client_calls-run classify (op_step classify (batch qs) dirty).0 ops) v

module _ {S : Type 0} (conn : Bytes) where
  -- A client of pgx on a new connection, whose tracer is new.
  abbrev pub traced : (Bytes → StatementKind) → List PgxOp → World S → Context → World S × Tracer
  traced classify ops w ctx =
      trace_calls conn (client_calls classify ctx outside ops) (w, new_pgx_tracer)

  traced-run :
      (classify : Bytes → StatementKind) (ops : List PgxOp) (w : World S) (ctx : Context)
      → (traced classify ops w ctx).0
        ≡ (run w new_session ctx (client_events classify outside ops)).0
  unfolding new_pgx_tracer session_for is_implicit new_session lookup
  traced-run classify ops w ctx =
      let calls = client_calls classify ctx outside ops in
      ap (λ (v : World S × Session). v.0)
        ((trace_calls_exact conn calls w new_pgx_tracer).0
          ∙ client_calls-run ctx classify outside ops (w, new_session))

  -- A client that sends queries and batches through the tracer inside a boundary with no mark and no
  -- allowlist: the boundary is reported to every reporter, once, when the client makes two atomic
  -- units or more, with their number, and nothing is reported when it makes fewer. A query counts as
  -- on any connection. A batch that writes is one unit if it is sent outside a transaction, however
  -- many its writes, and a part of the transaction if it is sent inside one. No batch has transaction
  -- control in it, pgx tells the status idle exactly outside a transaction, and the transaction
  -- counter must not wrap.
  pub in_boundary-traced :
      (w : World S) (ctx : Context) (name : Bytes) (ops : List PgxOp) (now : ℕ)
      → plain_batches w.det.classify ops ≡ true
      → w.det.allowlist ≡ none
      → w.det.tx_seq + length (client_events w.det.classify outside ops) < 2 ^ 64
      → let units = client_units w.det.classify outside ops in
        let rs = trace w.det.classify w.det.tx_seq 0 (client_events w.det.classify outside ops) in
        let attrs = attrs_of w.det.attrs_func ctx in
        let max = w.det.max_recorded_statements in
        let inside = boundary_node (length w.heap) ctx in
        let before = (start_boundary w ctx name [] now).0.store in
        (in_boundary w ctx name (traced w.det.classify ops) [] now).0.store ≡ (
          if ltb units 2
          then before
          else report_all w.det.reporters inside (run_violation name attrs max rs units) before)
  in_boundary-traced w ctx name ops now plain listed small =
      let classify = w.det.classify in
      let es = client_events classify outside ops in
      rw (← client_events-units classify outside ops plain) (
        ap (λ (v : World S). v.store)
          (in_boundary_world w ctx name (traced classify ops)
            (λ w' ctx'. run w' new_session ctx' es) now (traced-run classify ops))
        ∙ in_boundary_exact w ctx name es now listed small)
