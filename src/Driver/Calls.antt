-- ===== src/Driver/Calls.antt =====
-- Any sequence of calls on a wrapped connection is a run of its session.
use go_txnproof.Prelude.{
  ℕ, ◌≡◌, refl, ◌∙◌, sym, subst, ap, List, [], ◌∷◌, ◌++◌, Option, none, some, Bytes, arith,
}
use go_txnproof.Classify.{StatementKind}
use go_txnproof.Report.{Context}
use go_txnproof.Detector.{World}
use go_txnproof.Session.{Session}
use go_txnproof.Session.Run.{Event}
use go_txnproof.Driver.{
  NamedValue, DriverConn, DriverStmt, Reply, WrappedConn, WrappedStmt, wrap_stmt, prepare,
  prepare_by, prepare_context,
}
use go_txnproof.Driver.Refines.{
  Call, stmt_execs, apply_call, events_of, KindFits, run_in, watched, apply_call-watched,
  run_in-classify,
}

abbrev pub apply_calls :
    {S D R : Type 0} → DriverConn D R → List (Call D R) → WrappedConn S D → WrappedConn S D
apply_calls conn [] c = c
apply_calls conn (call ∷ calls) c = apply_calls conn calls (apply_call conn call c)

-- What the calls amount to, one after the other.
abbrev pub all_events :
    {S D R : Type 0} → DriverConn D R → List (Call D R) → WrappedConn S D → List (Context × Event)
all_events conn [] c = []
all_events conn (call ∷ calls) c =
    events_of conn call c.drv ++ all_events conn calls (apply_call conn call c)

abbrev pub KindsFit : {D R : Type 0} → (Bytes → StatementKind) → List (Call D R) → Type 0
KindsFit classify [] = Unit {0}
KindsFit classify (call ∷ calls) = KindFits classify call × KindsFit classify calls

pub run_in-append :
    {S : Type 0} (es fs : List (Context × Event)) (v : World S × Session)
    → run_in (es ++ fs) v ≡ run_in fs (run_in es v)
run_in-append [] fs v = refl
run_in-append ((ctx, e) ∷ es) fs v = run_in-append es fs _

module _ {S D R : Type 0} (conn : DriverConn D R) where
  -- Whatever the wrapped driver answers, any calls on a connection, its prepared statements and its
  -- transactions take the session and the detector through a run of events: one statement for each
  -- execution of a text or of a prepared statement, whatever its result, but none where the error is
  -- driver.ErrBadConn, or, for a text, driver.ErrSkip; a begin for each transaction that the driver
  -- began; and an end for each commit and rollback. An execution that the package refuses itself,
  -- since a legacy driver takes no arguments with names, is such a statement too, although nothing is
  -- sent. The statements have the kind of their text.
  pub calls_exact :
      (calls : List (Call D R)) (c : WrappedConn S D)
      → KindsFit c.world.det.classify calls
      → watched (apply_calls conn calls c) ≡ run_in (all_events conn calls c) (watched c)
  calls_exact [] c h = refl
  calls_exact (call ∷ calls) c h =
      let c' = apply_call conn call c in
      let here = apply_call-watched conn call c h.0 in
      let same : c'.world.det.classify ≡ c.world.det.classify =
        ap (λ (v : World S × Session). v.0.det.classify) here
        ∙ run_in-classify (events_of conn call c.drv) (watched c) in
      calls_exact calls c' (subst (λ k. KindsFit k calls) (sym same) h.1)
      ∙ ap (run_in (all_events conn calls c')) here
      ∙ sym (run_in-append (events_of conn call c.drv) (all_events conn calls c') (watched c))

  wrap_stmt-kind :
      (query : Bytes) (c : WrappedConn S D) (r : Reply (DriverStmt D R) × D) (st : WrappedStmt D R)
      → (wrap_stmt query c r).0.0 ≡ some st
      → (st.kind ≡ c.world.det.classify query) × (st.query ≡ query)
  unfolding wrap_stmt
  wrap_stmt-kind query c ((s, some e), d) st h = ground arith
  wrap_stmt-kind query c ((none, none), d) st h = ground arith
  wrap_stmt-kind query c ((some s, none), d) st h = ground arith

  prepare_by_kind :
      (o : Option (Context → Bytes → D → Reply (DriverStmt D R) × D)) (ctx : Context)
      (query : Bytes) (c : WrappedConn S D) (st : WrappedStmt D R)
      → (prepare_by o conn ctx query c).0.0 ≡ some st
      → (st.kind ≡ c.world.det.classify query) × (st.query ≡ query)
  unfolding prepare_by prepare
  prepare_by_kind none ctx query c st h = wrap_stmt-kind query c (conn.prepare query c.drv) st h
  prepare_by_kind (some method) ctx query c st h =
      wrap_stmt-kind query c (method ctx query c.drv) st h

  -- What `PrepareContext` returns has the kind of its text: its executions fit.
  pub prepare_context-KindFits :
      (ctx : Context) (query : Bytes) (c : WrappedConn S D) (st : WrappedStmt D R)
      (inside : Context) (args : List NamedValue) (now : ℕ)
      → (prepare_context conn ctx query c).0.0 ≡ some st
      → KindFits c.world.det.classify (stmt_execs st inside args now)
  unfolding prepare_context
  prepare_context-KindFits ctx query c st inside args now h =
      let (kind, text) = prepare_by_kind conn.prepare_context ctx query c st h in
      kind ∙ ap c.world.det.classify (sym text)
