-- ===== src/PgxTracer/Batch.antt =====
-- What a tracer makes of the queries and batches of a connection.
use go_txnproof.Prelude.{
  ℕ, ◌≡◌, refl, sym, ap, ◌∙◌, Bool, true, false, ◌||◌, List, [], ◌∷◌, ◌++◌, none, arith, Bytes,
  bytes_eq, bytes_eq_iff, bytes_eq_refl, Bool-cases, inl, inr, if◌then◌else◌,
}
use go_txnproof.Prelude.Dict.{Dict, lookup, insert, lookup-insert}
use go_txnproof.Detector.{World}
use go_txnproof.Report.{Context, background}
use go_txnproof.Session.{Session, begin_tx, end_tx}
use go_txnproof.Session.Run.{Event, observes, begins, ends, step}
use go_txnproof.Driver.Refines.{run_in}
use go_txnproof.Driver.Calls.{run_in-append}
use go_txnproof.PgxTracer.{
  Tracer, delete, session_for, put_session, is_implicit, after_batch, trace_query_start,
  trace_query_end, trace_batch_start, trace_batch_query, trace_batch_end,
}

-- A call of pgx on the tracer, for one connection.
pub data TraceCall : Type 0 where
  query_start batch_query : Context → Bytes → ℕ → TraceCall
  query_end batch_end : TraceCall
  batch_start : Bool → TraceCall

module _ {S : Type 0} where
  abbrev pub trace_call : Bytes → TraceCall → World S × Tracer → World S × Tracer
  trace_call conn (query_start ctx sql now) (w, t) = trace_query_start w t ctx conn sql now
  trace_call conn (batch_query ctx sql now) (w, t) = trace_batch_query w t ctx conn sql now
  trace_call conn query_end (w, t) = trace_query_end w t
  trace_call conn (batch_start idle) (w, t) = trace_batch_start w t conn idle
  trace_call conn batch_end (w, t) = trace_batch_end w t conn

  abbrev pub trace_calls : Bytes → List TraceCall → World S × Tracer → World S × Tracer
  trace_calls conn [] v = v
  trace_calls conn (call ∷ calls) v = trace_calls conn calls (trace_call conn call v)

-- Whether the connection is in a batch that was bracketed, behind a call.
abbrev pub bracket : TraceCall → Bool → Bool
bracket (batch_start idle) b = idle || b
bracket batch_end b = false
bracket _ b = b

-- What a call amounts to for the session of the connection.
abbrev pub call_events : TraceCall → Bool → List (Context × Event)
call_events (query_start ctx sql now) b = (ctx, observes sql now) ∷ []
call_events (batch_query ctx sql now) b = (ctx, observes sql now) ∷ []
call_events query_end b = []
call_events (batch_start idle) b = if idle then (background, begins) ∷ [] else []
call_events batch_end b = if b then (background, ends) ∷ [] else []

abbrev pub calls_events : List TraceCall → Bool → List (Context × Event)
calls_events [] b = []
calls_events (call ∷ calls) b = call_events call b ++ calls_events calls (bracket call b)

lookup-delete :
    {A : Type 0} (m : Dict A) (k j : Bytes)
    → lookup (delete m k) j ≡ (if bytes_eq k j then none else lookup m j)
unfolding lookup delete
lookup-delete [] k j = ground arith
lookup-delete ((i, v) ∷ m) k j =
    ground (arith, bytes_eq_iff i k, bytes_eq_iff i j, bytes_eq_iff k j, lookup-delete m k j)

session_for-put :
    (t : Tracer) (conn j : Bytes) (s : Session)
    → session_for (put_session t conn s) j ≡ (if bytes_eq conn j then s else session_for t j)
unfolding session_for put_session
session_for-put t conn j s = ground (arith, lookup-insert t.sessions conn j s)

is_implicit-put :
    (t : Tracer) (conn j : Bytes) (s : Session)
    → is_implicit (put_session t conn s) j ≡ is_implicit t j
unfolding is_implicit put_session
is_implicit-put t conn j s = refl

-- What is read for the connection itself, and for another.
at_own : {A : Type 0} (conn : Bytes) (x y : A) → (if bytes_eq conn conn then x else y) ≡ x
at_own conn x y = rw (bytes_eq_refl conn) refl

at_other :
    {A : Type 0} (conn j : Bytes) (x y : A)
    → bytes_eq conn j ≡ false
    → (if bytes_eq conn j then x else y) ≡ y
at_other conn j x y h = rw h refl

-- A choice between a connection and the others, where nothing changes.
same_kept :
    {A : Type 0} (read : Bytes → A) (conn j : Bytes)
    → read j ≡ (if bytes_eq conn j then read conn else read j)
same_kept read conn j = elim (Bool-cases (bytes_eq conn j)) [
  | inl t ↦ rw t (ap read (sym ((bytes_eq_iff conn j).0 t)))
  | inr f ↦ rw f refl
]

is_implicit-started :
    (t : Tracer) (conn j : Bytes) (s : Session)
    → is_implicit
        (record (put_session t conn s) { implicit_batch = insert t.implicit_batch conn true })
        j
      ≡ (if bytes_eq conn j then true else is_implicit t j)
unfolding is_implicit
is_implicit-started t conn j s = ground (arith, lookup-insert t.implicit_batch conn j true)

is_implicit-stopped :
    (t : Tracer) (conn j : Bytes)
    → is_implicit (record t { implicit_batch = delete t.implicit_batch conn }) j
      ≡ (if bytes_eq conn j then false else is_implicit t j)
unfolding is_implicit
is_implicit-stopped t conn j = ground (arith, lookup-delete t.implicit_batch conn j)

module _ (conn : Bytes) where
  -- A tracer that is `t` but for one connection, which has this session and this mark.
  record Keeps (t t' : Tracer) (s : Session) (b : Bool) : Type 0 where
    own : (j : Bytes) → session_for t' j ≡ (if bytes_eq conn j then s else session_for t j)
    mark : (j : Bytes) → is_implicit t' j ≡ (if bytes_eq conn j then b else is_implicit t j)

  Keeps-put : (t : Tracer) (s : Session) → Keeps t (put_session t conn s) s (is_implicit t conn)
  Keeps-put t s = record {
    own = λ j. session_for-put t conn j s;
    mark = λ j. is_implicit-put t conn j s ∙ same_kept (is_implicit t) conn j;
  }

  Keeps-same : (t : Tracer) → Keeps t t (session_for t conn) (is_implicit t conn)
  Keeps-same t = record {
    own = same_kept (session_for t) conn;
    mark = same_kept (is_implicit t) conn;
  }

  Keeps-start :
      (t : Tracer) (s : Session)
      → Keeps t
          (record (put_session t conn s) { implicit_batch = insert t.implicit_batch conn true })
          s
          true
  unfolding put_session insert session_for
  Keeps-start t s = record {
    own = λ j. session_for-put t conn j s;
    mark = λ j. is_implicit-started t conn j s;
  }

  Keeps-end :
      (t : Tracer)
      → Keeps t
          (put_session
            (record t { implicit_batch = delete t.implicit_batch conn })
            conn
            (end_tx (session_for t conn)))
          (end_tx (session_for t conn))
          false
  unfolding put_session delete session_for insert is_implicit
  Keeps-end t = record {
    own = λ j. session_for-put t conn j (end_tx (session_for t conn));
    mark = λ j. is_implicit-stopped t conn j;
  }

  Keeps-no_end :
      (t : Tracer)
      → Keeps t
          (record t { implicit_batch = delete t.implicit_batch conn })
          (session_for t conn)
          false
  unfolding delete session_for
  Keeps-no_end t = record {
    own = same_kept (session_for t) conn;
    mark = λ j. is_implicit-stopped t conn j;
  }

module _ {S : Type 0} (conn : Bytes) where
  ended_exact :
      (b : Bool) (w : World S) (t : Tracer)
      → let v : World S × Tracer = after_batch b w t conn in
        let r = run_in (call_events batch_end b) (w, session_for t conn) in
        (v.0 ≡ r.0) × Keeps conn t v.1 r.1 false
  unfolding after_batch step session_for
  ended_exact true w t = (refl, Keeps-end conn t)
  ended_exact false w t = (refl, Keeps-no_end conn t)

  -- One call: the session of the connection makes the step that the call amounts to.
  trace_call_exact :
      (call : TraceCall) (w : World S) (t : Tracer)
      → let (w', t') = trace_call conn call (w, t) in
        let b = is_implicit t conn in
        let r = run_in (call_events call b) (w, session_for t conn) in
        (w' ≡ r.0) × Keeps conn t t' r.1 (bracket call b)
  unfolding trace_query_start trace_batch_query trace_query_end trace_batch_start trace_batch_end
      step
  trace_call_exact (query_start ctx sql now) w t = (refl, Keeps-put conn t _)
  trace_call_exact (batch_query ctx sql now) w t = (refl, Keeps-put conn t _)
  trace_call_exact query_end w t = (refl, Keeps-same conn t)
  trace_call_exact (batch_start true) w t =
      (refl, Keeps-start conn t (begin_tx w (session_for t conn)).1)
  trace_call_exact (batch_start false) w t = (refl, Keeps-same conn t)
  trace_call_exact batch_end w t = ended_exact (is_implicit t conn) w t

  -- Any calls on the tracer for one connection take the session of the connection and the detector
  -- through a run of events: one statement for each query, alone or of a batch, a begin for each
  -- batch that starts on an idle connection, and an end for the end of each batch that began one.
  -- The sessions of the other connections, and what is noted of their batches, stay as they were.
  pub trace_calls_exact :
      (calls : List TraceCall) (w : World S) (t : Tracer)
      → let (w', t') = trace_calls conn calls (w, t) in
        ((w', session_for t' conn)
          ≡ run_in (calls_events calls (is_implicit t conn)) (w, session_for t conn))
        × ((j : Bytes)
            → bytes_eq conn j ≡ false
            → (session_for t' j ≡ session_for t j) × (is_implicit t' j ≡ is_implicit t j))
  trace_calls_exact [] w t = (refl, λ j h. (refl, refl))
  trace_calls_exact (call ∷ calls) w t =
      let b = is_implicit t conn in
      let (w1, t1) = trace_call conn call (w, t) in
      let r = run_in (call_events call b) (w, session_for t conn) in
      let (same, keeps) = trace_call_exact call w t in
      let (own, others) = trace_calls_exact calls w1 t1 in
      let mark : is_implicit t1 conn ≡ bracket call b = keeps.mark conn ∙ at_own conn _ _ in
      let session : session_for t1 conn ≡ r.1 = keeps.own conn ∙ at_own conn _ _ in
      (
        own
            ∙ ap (λ x. run_in (calls_events calls x) (w1, session_for t1 conn)) mark
            ∙ ap (λ x. run_in (calls_events calls (bracket call b)) (x, session_for t1 conn)) same
            ∙ ap (λ x. run_in (calls_events calls (bracket call b)) (r.0, x)) session
            ∙ sym (
                run_in-append (call_events call b) (calls_events calls (bracket call b))
                  (w, session_for t conn)),
        λ j h.
            let (s, m) = others j h in
            (s ∙ (keeps.own j ∙ at_other conn j _ _ h), m ∙ (keeps.mark j ∙ at_other conn j _ _ h)),
      )
