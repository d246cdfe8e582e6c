-- ===== src/NullDb/Observed.antt =====
-- A program on the null database is observed completely.
use go_txnproof.Prelude.{
  ℕ, ◌+◌, ◌^◌, ◌<◌, ◌≡◌, refl, sym, ap, ◌∙◌, Bool, true, false, List, [], ◌∷◌, ◌++◌, append-nil,
  Option, none, some, Bytes, length, ltb, if◌then◌else◌,
}
use go_txnproof.Report.{Context, boundary_node, report_all}
use go_txnproof.Detector.{World, start_boundary, finish_boundary, in_boundary, attrs_of}
use go_txnproof.Session.{Session, new_session, observe}
use go_txnproof.Session.Run.{Event, observes, begins, ends, step, run, trace}
use go_txnproof.Session.Units.{outside, atomic_units}
use go_txnproof.Session.Report.{run_violation, in_boundary_exact}
use go_txnproof.Driver.{
  DriverError, WrappedConn, WrappedStmt, own_error, is_default, named_values_to_values, with_values,
  direct, direct_reply, exec_context, query_context, prepare_context, prepare_by, prepare,
  wrap_stmt, begun, begin_legacy, begin_by, begin_tx_on, observe_on, opened,
}
use go_txnproof.Driver.Refines.{watched}
use go_txnproof.Driver.Statement.{
  stmt_reply, stmt_direct, stmt_exec_context, observe_kind_on, ended, commit_on, rollback_on,
}
use go_txnproof.NullDb.{
  NullState, NullReply, null_stmt, null_tx, null_conn, new_null_db, Op, exec, query, exec_prepared,
  begin_with, commit, rollback, error_and, exec_stmt, perform, run_ops, on_null_db,
}

-- The error of a step: arguments with names are refused by a prepared statement, and options other
-- than the default by a begin.
abbrev pub named_error : Option (List ℕ) → Option DriverError
named_error none = some own_error
named_error (some vals) = none

abbrev pub error_of : Op → Option DriverError
error_of (exec_prepared q args now) = named_error (named_values_to_values args)
error_of (begin_with opts) = if is_default opts then none else some own_error
error_of _ = none

-- What a step is observed as.
abbrev pub events_of : Op → List Event
events_of (exec q args now) = observes q now ∷ []
events_of (query q args now) = observes q now ∷ []
events_of (exec_prepared q args now) = observes q now ∷ []
events_of (begin_with opts) = if is_default opts then begins ∷ [] else []
events_of commit = ends ∷ []
events_of rollback = ends ∷ []

module _ {S : Type 0} where
  prepared_exact :
      (ctx : Context) (q : Bytes) (now : ℕ) (c : WrappedConn S NullState) (o : Option (List ℕ))
      → let st : WrappedStmt NullState NullReply = record {
        stmt = null_stmt;
        query = q;
        kind = c.world.det.classify q;
      } in
        let r = error_and (stmt_reply st ctx now c (with_values null_stmt.exec o c.drv)) in
        (r.0 ≡ named_error o) × (watched r.1 ≡ run c.world c.session ctx (observes q now ∷ []))
  unfolding error_and stmt_reply with_values null_stmt observe_kind_on run step observe
  prepared_exact ctx q now c none = (refl, refl)
  prepared_exact ctx q now c (some vals) = (refl, refl)

  begin_exact :
      (ctx : Context) (b : Bool) (c : WrappedConn S NullState)
      → let r = error_and (if b then begin_legacy null_conn c else ((none, some own_error), c)) in
        (r.0 ≡ (if b then none else some own_error))
        × (watched r.1 ≡ run c.world c.session ctx (if b then begins ∷ [] else []))
  unfolding error_and begin_legacy null_conn begun run step
  begin_exact ctx true c = (refl, refl)
  begin_exact ctx false c = (refl, refl)

  perform_exact :
      (ctx : Context) (op : Op) (c : WrappedConn S NullState)
      → ((perform ctx op c).0 ≡ error_of op)
        × (watched (perform ctx op c).1 ≡ run c.world c.session ctx (events_of op))
  unfolding perform error_and exec_context query_context null_conn direct_reply direct observe_on
      run step exec_stmt prepare_context prepare_by prepare wrap_stmt stmt_exec_context stmt_direct
      null_stmt begin_tx_on begin_by commit_on rollback_on ended null_tx
  perform_exact ctx (exec q args now) c = (refl, refl)
  perform_exact ctx (query q args now) c = (refl, refl)
  perform_exact ctx (exec_prepared q args now) c =
      prepared_exact ctx q now c (named_values_to_values args)
  perform_exact ctx (begin_with opts) c = begin_exact ctx (is_default opts) c
  perform_exact ctx commit c = (refl, refl)
  perform_exact ctx rollback c = (refl, refl)

-- The error that a program stops at, and what was observed of it by then.
abbrev pub first_error : List Op → Option DriverError
first_error [] = none
first_error (op ∷ ops) = elim (error_of op) [ none ↦ first_error ops | some e ↦ some e ]

abbrev pub observed : List Op → List Event
observed [] = []
observed (op ∷ ops) = events_of op ++ elim (error_of op) [ none ↦ observed ops | some e ↦ [] ]

run-append :
    {S : Type 0} (es fs : List Event) (v : World S × Session) (ctx : Context)
    → run v.0 v.1 ctx (es ++ fs) ≡ run (run v.0 v.1 ctx es).0 (run v.0 v.1 ctx es).1 ctx fs
unfolding run
run-append [] fs v ctx = refl
run-append (e ∷ es) fs v ctx = run-append es fs (step v.0 v.1 ctx e) ctx

module _ {S : Type 0} (ctx : Context) where
  -- Where the program goes on or stops, by the error of a step.
  stop_exact :
      (o : Option DriverError) (ops : List Op) (c c' : WrappedConn S NullState) (es : List Event)
      → watched c' ≡ run c.world c.session ctx es
      → (run_ops ctx ops c').0 ≡ first_error ops
      → watched (run_ops ctx ops c').1 ≡ run c'.world c'.session ctx (observed ops)
      → let r : Option DriverError × WrappedConn S NullState = elim o [
        | none ↦ run_ops ctx ops c'
        | some e ↦ (some e, c')
      ] in
        (r.0 ≡ elim o [ none ↦ first_error ops | some e ↦ some e ])
        × (watched r.1
            ≡ run c.world c.session ctx (es ++ elim o [ none ↦ observed ops | some e ↦ [] ]))
  stop_exact none ops c c' es here err rest = (
    err,
    rest
        ∙ ap (λ (v : World S × Session). run v.0 v.1 ctx (observed ops)) here
        ∙ sym (run-append es (observed ops) (watched c) ctx),
  )
  stop_exact (some e) ops c c' es here err rest =
      (refl, here ∙ ap (run c.world c.session ctx) (sym (append-nil es)))

  run_ops_exact :
      (ops : List Op) (c : WrappedConn S NullState)
      → ((run_ops ctx ops c).0 ≡ first_error ops)
        × (watched (run_ops ctx ops c).1 ≡ run c.world c.session ctx (observed ops))
  unfolding run_ops run
  run_ops_exact [] c = (refl, refl)
  run_ops_exact (op ∷ ops) c =
      let (err, here) = perform_exact ctx op c in
      let c' = (perform ctx op c).1 in
      let (first, rest) = run_ops_exact ops c' in
      rw (run_ops, err) (stop_exact (error_of op) ops c c' (events_of op) here first rest)

module _ {S : Type 0} where
  on_null_db_exact :
      (ops : List Op) (w : World S) (ctx : Context)
      → (on_null_db ops w ctx).0 ≡ (run w new_session ctx (observed ops)).0
  unfolding on_null_db new_null_db opened
  on_null_db_exact ops w ctx =
      ap (λ (v : World S × Session). v.0) (run_ops_exact ctx ops (new_null_db w)).1

  pub in_boundary_world :
      {E F : Type 0} (w : World S) (ctx : Context) (name : Bytes)
      (body : World S → Context → World S × E) (other : World S → Context → World S × F) (now : ℕ)
      → ((w' : World S) (ctx' : Context) → (body w' ctx').0 ≡ (other w' ctx').0)
      → (in_boundary w ctx name body [] now).0 ≡ (in_boundary w ctx name other [] now).0
  unfolding in_boundary
  in_boundary_world w ctx name body other now same =
      let (w', (ctx', i)) = start_boundary w ctx name [] now in
      ap (λ (v : World S). finish_boundary v i) (same w' ctx')

  in_boundary_error :
      (w : World S) (ctx : Context) (name : Bytes) (ops : List Op) (now : ℕ)
      → (in_boundary w ctx name (on_null_db ops) [] now).1 ≡ first_error ops
  unfolding in_boundary on_null_db
  in_boundary_error w ctx name ops now =
      let (w', (ctx', i)) = start_boundary w ctx name [] now in
      (run_ops_exact ctx' ops (new_null_db w')).0

  -- A program on the null database inside a boundary with no mark and no allowlist gets the error of
  -- its first step that prepares a statement for arguments with names, or begins with options other
  -- than the default, and no error where it has no such step. The boundary is reported to every
  -- reporter, once, when the steps up to that error make two atomic units or more, with their
  -- number; and nothing is reported when they make fewer. The transaction counter must not wrap.
  pub in_boundary-on_null_db :
      (w : World S) (ctx : Context) (name : Bytes) (ops : List Op) (now : ℕ)
      → w.det.allowlist ≡ none
      → w.det.tx_seq + length (observed ops) < 2 ^ 64
      → let es = observed ops in
        let units = atomic_units w.det.classify outside es in
        let rs = trace w.det.classify w.det.tx_seq 0 es in
        let attrs = attrs_of w.det.attrs_func ctx in
        let max = w.det.max_recorded_statements in
        let inside = boundary_node (length w.heap) ctx in
        let before = (start_boundary w ctx name [] now).0.store in
        let after = in_boundary w ctx name (on_null_db ops) [] now in
        (after.1 ≡ first_error ops)
        × (after.0.store ≡ (
            if ltb units 2
            then before
            else report_all w.det.reporters inside (run_violation name attrs max rs units) before))
  in_boundary-on_null_db w ctx name ops now h small = (
    in_boundary_error w ctx name ops now,
    ap (λ (v : World S). v.store)
          (in_boundary_world w ctx name (on_null_db ops)
            (λ w' ctx'. run w' new_session ctx' (observed ops)) now (on_null_db_exact ops))
        ∙ in_boundary_exact w ctx name (observed ops) now h small,
  )
