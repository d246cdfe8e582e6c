-- ===== src/Driver/Refines.antt =====
-- Calls on a wrapped connection amount to a run of events of its session.
use go_txnproof.Prelude.{
  ℕ, ◌≡◌, refl, ◌∙◌, Bool, true, false, ◌||◌, List, [], ◌∷◌, Option, none, some, arith, Bytes,
  if◌then◌else◌, Bool-cases, inl, inr, ◌==◌,
}
use go_txnproof.Classify.{StatementKind}
use go_txnproof.Report.{StatementRecord, Context, background, boundary_of}
use go_txnproof.Detector.{World, next_tx_id, record_at, record_statement, record_unbounded}
use go_txnproof.Session.{Session, begin_tx, track, observe_kind, observe}
use go_txnproof.Session.Run.{Event, observes, begins, ends, step}
use go_txnproof.Driver.{
  DriverError, NamedValue, TxOptions, Reply, DriverTx, DriverStmt, DriverConn, WrappedConn,
  WrappedStmt, skips, bad_conn, is_default, own_error, direct, observe_on, direct_reply,
  exec_context, query_context, wrap_stmt, prepare, prepare_by, prepare_context, begun, begin_legacy,
  begin_by, begin_tx_on,
}
use go_txnproof.Driver.Statement.{
  observe_kind_on, ended, commit_on, rollback_on, stmt_direct, stmt_reply, stmt_exec_context,
  stmt_query_context,
}

-- A call of database/sql on a connection, its statements or its transactions.
pub data Call (D R : Type 0) : Type 0 where
  execs : Context → Bytes → List NamedValue → ℕ → Call D R
  queries : Context → Bytes → List NamedValue → ℕ → Call D R
  prepares : Context → Bytes → Call D R
  stmt_execs : WrappedStmt D R → Context → List NamedValue → ℕ → Call D R
  stmt_queries : WrappedStmt D R → Context → List NamedValue → ℕ → Call D R
  begins_tx : Context → TxOptions → Call D R
  commits : DriverTx D → Call D R
  rollbacks : DriverTx D → Call D R

-- A statement that is recorded: neither skipped nor to be tried again on another connection. One that
-- the package refused before anything was sent is among them.
abbrev direct_event : Context → Bytes → ℕ → Option DriverError → List (Context × Event)
direct_event ctx query now err =
    if skips err || bad_conn err then [] else (ctx, observes query now) ∷ []

abbrev stmt_event : Context → Bytes → ℕ → Option DriverError → List (Context × Event)
stmt_event ctx query now err = if bad_conn err then [] else (ctx, observes query now) ∷ []

-- A transaction that the driver began.
abbrev begin_event : Context → Option DriverError → List (Context × Event)
begin_event ctx none = (ctx, begins) ∷ []
begin_event ctx (some e) = []

module _ {S D R : Type 0} (conn : DriverConn D R) where
  abbrev pub apply_call : Call D R → WrappedConn S D → WrappedConn S D
  apply_call (execs ctx query args now) c = (exec_context conn ctx query args now c).1
  apply_call (queries ctx query args now) c = (query_context conn ctx query args now c).1
  apply_call (prepares ctx query) c = (prepare_context conn ctx query c).1
  apply_call (stmt_execs st ctx args now) c = (stmt_exec_context st ctx args now c).1
  apply_call (stmt_queries st ctx args now) c = (stmt_query_context st ctx args now c).1
  apply_call (begins_tx ctx opts) c = (begin_tx_on conn ctx opts c).1
  apply_call (commits tx) c = (commit_on tx c).1
  apply_call (rollbacks tx) c = (rollback_on tx c).1

module _ {D R : Type 0} (conn : DriverConn D R) where
  abbrev begin_reply :
      Option (Context → TxOptions → D → Reply (DriverTx D) × D)
      → Context
      → TxOptions
      → D
      → Option DriverError
  begin_reply (some method) ctx opts d = (method ctx opts d).0.1
  begin_reply none ctx opts d = if is_default opts then (conn.begin d).0.1 else some own_error

  -- What a call amounts to, by the error of the driver.
  abbrev pub events_of : Call D R → D → List (Context × Event)
  events_of (execs ctx query args now) d =
      direct_event ctx query now (direct conn.execer_context conn.execer ctx query args d).0.1
  events_of (queries ctx query args now) d =
      direct_event ctx query now (direct conn.queryer_context conn.queryer ctx query args d).0.1
  events_of (prepares ctx query) d = []
  events_of (stmt_execs st ctx args now) d =
      stmt_event ctx st.query now (stmt_direct st.stmt.exec_context st.stmt.exec ctx args d).0.1
  events_of (stmt_queries st ctx args now) d =
      stmt_event ctx st.query now (stmt_direct st.stmt.query_context st.stmt.query ctx args d).0.1
  events_of (begins_tx ctx opts) d = begin_event ctx (begin_reply conn.begin_tx ctx opts d)
  events_of (commits tx) d = (background, ends) ∷ []
  events_of (rollbacks tx) d = (background, ends) ∷ []

-- The statements of the calls have the kind that the classifier gives their text, as `Prepare` and
-- `PrepareContext` make them.
abbrev pub KindFits : {D R : Type 0} → (Bytes → StatementKind) → Call D R → Type 0
KindFits classify (stmt_execs st ctx args now) = st.kind ≡ classify st.query
KindFits classify (stmt_queries st ctx args now) = st.kind ≡ classify st.query
KindFits classify _ = Unit {0}

module _ {S : Type 0} where
  -- Events, each in a context of its own.
  abbrev pub run_in : List (Context × Event) → World S × Session → World S × Session
  run_in [] v = v
  run_in ((ctx, e) ∷ es) v = run_in es (step v.0 v.1 ctx e)

abbrev pub watched : {S D : Type 0} → WrappedConn S D → World S × Session
watched c = (c.world, c.session)

module _ {S D R : Type 0} where
  direct_reply-watched :
      (ctx : Context) (query : Bytes) (now : ℕ) (c : WrappedConn S D) (r : Reply R × D)
      → watched (direct_reply ctx query now c r).1
        ≡ run_in (direct_event ctx query now r.0.1) (watched c)
  unfolding direct_reply observe_on step
  direct_reply-watched ctx query now c ((res, err), d) = ground arith

  stmt_reply-watched :
      (st : WrappedStmt D R) (ctx : Context) (now : ℕ) (c : WrappedConn S D) (r : Reply R × D)
      → st.kind ≡ c.world.det.classify st.query
      → watched (stmt_reply st ctx now c r).1
        ≡ run_in (stmt_event ctx st.query now r.0.1) (watched c)
  unfolding stmt_reply observe_kind_on step observe
  stmt_reply-watched st ctx now c ((res, err), d) h = ground arith

  wrap_stmt-watched :
      (query : Bytes) (c : WrappedConn S D) (r : Reply (DriverStmt D R) × D)
      → watched (wrap_stmt query c r).1 ≡ watched c
  unfolding wrap_stmt
  wrap_stmt-watched query c ((stmt, some e), d) = refl
  wrap_stmt-watched query c ((none, none), d) = refl
  wrap_stmt-watched query c ((some stmt, none), d) = refl

module _ {S D : Type 0} where
  begun-watched :
      (ctx : Context) (c : WrappedConn S D) (r : Reply (DriverTx D) × D)
      → watched (begun c r).1 ≡ run_in (begin_event ctx r.0.1) (watched c)
  unfolding begun step
  begun-watched ctx c ((tx, some e), d) = refl
  begun-watched ctx c ((tx, none), d) = refl

module _ {S D R : Type 0} (conn : DriverConn D R) where
  prepare_by-watched :
      (o : Option (Context → Bytes → D → Reply (DriverStmt D R) × D)) (ctx : Context)
      (query : Bytes) (c : WrappedConn S D)
      → watched (prepare_by o conn ctx query c).1 ≡ watched c
  unfolding prepare_by prepare
  prepare_by-watched none ctx query c = wrap_stmt-watched query c (conn.prepare query c.drv)
  prepare_by-watched (some method) ctx query c = wrap_stmt-watched query c (method ctx query c.drv)

  begin_default :
      (b : Bool) (ctx : Context) (c : WrappedConn S D)
      → watched (if b then begin_legacy conn c else ((none, some own_error), c)).1
        ≡ run_in
            (begin_event ctx (if b then (conn.begin c.drv).0.1 else some own_error))
            (watched c)
  unfolding begin_legacy
  begin_default true ctx c = begun-watched ctx c (conn.begin c.drv)
  begin_default false ctx c = refl

  begin_by-watched :
      (o : Option (Context → TxOptions → D → Reply (DriverTx D) × D)) (ctx : Context)
      (opts : TxOptions) (c : WrappedConn S D)
      → watched (begin_by o conn ctx opts c).1
        ≡ run_in (begin_event ctx (begin_reply conn o ctx opts c.drv)) (watched c)
  unfolding begin_by
  begin_by-watched none ctx opts c = begin_default (is_default opts) ctx c
  begin_by-watched (some method) ctx opts c = begun-watched ctx c (method ctx opts c.drv)

  pub apply_call-watched :
      (call : Call D R) (c : WrappedConn S D)
      → KindFits c.world.det.classify call
      → watched (apply_call conn call c) ≡ run_in (events_of conn call c.drv) (watched c)
  unfolding exec_context query_context prepare_context stmt_exec_context stmt_query_context
      begin_tx_on commit_on rollback_on ended step
  apply_call-watched (execs ctx query args now) c h =
      direct_reply-watched ctx query now c
        (direct conn.execer_context conn.execer ctx query args c.drv)
  apply_call-watched (queries ctx query args now) c h =
      direct_reply-watched ctx query now c
        (direct conn.queryer_context conn.queryer ctx query args c.drv)
  apply_call-watched (prepares ctx query) c h = prepare_by-watched conn.prepare_context ctx query c
  apply_call-watched (stmt_execs st ctx args now) c h =
      stmt_reply-watched st ctx now c (stmt_direct st.stmt.exec_context st.stmt.exec ctx args c.drv)
        h
  apply_call-watched (stmt_queries st ctx args now) c h =
      stmt_reply-watched st ctx now c
        (stmt_direct st.stmt.query_context st.stmt.query ctx args c.drv) h
  apply_call-watched (begins_tx ctx opts) c h = begin_by-watched conn.begin_tx ctx opts c
  apply_call-watched (commits tx) c h = refl
  apply_call-watched (rollbacks tx) c h = refl

-- No event changes the classifier.
record_at-classify :
    {S : Type 0} (w : World S) (ctx : Context) (r : StatementRecord) (o : Option ℕ)
    → (record_at w ctx r o).det.classify ≡ w.det.classify
unfolding record_at record_unbounded
record_at-classify w ctx r none = ground arith
record_at-classify w ctx r (some i) = refl

track-classify :
    {S : Type 0} (w : World S) (s : Session) (k : StatementKind)
    → (track w s k).0.det.classify ≡ w.det.classify
unfolding track begin_tx next_tx_id
track-classify w s StatementKind.begin = elim (Bool-cases (s.tx_id == 0)) [
  | inl idle ↦ rw idle refl
  | inr inside ↦ rw inside refl
]
track-classify w s StatementKind.commit = refl
track-classify w s StatementKind.rollback = refl
track-classify w s _ = refl

step-classify :
    {S : Type 0} (w : World S) (s : Session) (ctx : Context) (e : Event)
    → (step w s ctx e).0.det.classify ≡ w.det.classify
unfolding step observe observe_kind record_statement begin_tx next_tx_id
step-classify w s ctx (observes query now) =
    record_at-classify _ ctx _ (boundary_of ctx) ∙ track-classify w s (w.det.classify query)
step-classify w s ctx begins = refl
step-classify w s ctx ends = refl

pub run_in-classify :
    {S : Type 0} (es : List (Context × Event)) (v : World S × Session)
    → (run_in es v).0.det.classify ≡ v.0.det.classify
run_in-classify [] v = refl
run_in-classify ((ctx, e) ∷ es) v =
    run_in-classify es (step v.0 v.1 ctx e) ∙ step-classify v.0 v.1 ctx e
