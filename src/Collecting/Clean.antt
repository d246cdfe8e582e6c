-- ===== src/Collecting/Clean.antt =====
-- A test with a collecting reporter passes exactly when the run of the connection is atomic.
use go_txnproof.Prelude.{
  ℕ, ◌+◌, ◌^◌, ◌≤◌, ◌<◌, ◌≡◌, refl, ◌↔◌, Bool, true, false, List, [], ◌∷◌, ◌++◌, none, arith, Bytes,
  ltb, if◌then◌else◌, length,
}
use go_txnproof.Report.{Violation, Context, boundary_node, Cell, report_all}
use go_txnproof.Detector.{World, attrs_of, start_boundary, in_boundary}
use go_txnproof.Session.{new_session}
use go_txnproof.Session.Run.{Event, run, trace}
use go_txnproof.Session.Units.{outside, atomic_units}
use go_txnproof.Session.Report.{run_violation, in_boundary_exact}
use go_txnproof.Collecting.{Collected, add_violation, collecting, require_no_violations}

module _ {S : Type 0} (cell : Cell S Collected) where
  open cell use {get}

  store-start_boundary :
      (w : World S) (ctx : Context) (name : Bytes) (now : ℕ)
      → w.det.report_nested ≡ false
      → (start_boundary w ctx name [] now).0.store ≡ w.store
  unfolding start_boundary
  store-start_boundary w ctx name now flat = rw flat

  violations-report :
      (ctx : Context) (v : Violation) (s : S)
      → (get (report_all (collecting cell ∷ []) ctx v s)).violations ≡ (get s).violations ++ v ∷ []
  unfolding report_all collecting add_violation
  violations-report ctx v s = rw (cell.get-put _ s)

  violations-either :
      (few : Bool) (ctx : Context) (v : Violation) (s : S)
      → (get (if few then s else report_all (collecting cell ∷ []) ctx v s)).violations
        ≡ (if few then (get s).violations else (get s).violations ++ v ∷ [])
  violations-either true ctx v s = refl
  violations-either false ctx v s = violations-report ctx v s

  -- What the reporter holds behind the run of a boundary.
  violations-in_boundary :
      (w : World S) (ctx : Context) (name : Bytes) (es : List Event) (now : ℕ)
      → w.det.allowlist ≡ none
      → w.det.reporters ≡ collecting cell ∷ []
      → w.det.report_nested ≡ false
      → w.det.tx_seq + length es < 2 ^ 64
      → let units = atomic_units w.det.classify outside es in
        let rs = trace w.det.classify w.det.tx_seq 0 es in
        let attrs = attrs_of w.det.attrs_func ctx in
        let old = (get w.store).violations in
        (get
          (in_boundary w ctx name
            (λ w' ctx'. run w' new_session ctx' es)
            []
            now).0.store).violations
        ≡ (if ltb units 2
            then old
            else old ++ run_violation name attrs w.det.max_recorded_statements rs units ∷ [])
  violations-in_boundary w ctx name es now listed only flat small =
      rw
        (
          in_boundary_exact w ctx name es now listed small,
          store-start_boundary w ctx name now flat,
          only,
        )
        (violations-either _ (boundary_node (length w.heap) ctx) _ w.store)

  -- With this reporter alone, a test over a boundary with no mark and no allowlist passes exactly
  -- when the run has one atomic unit at most, given that it passed before; the transaction counter
  -- must not wrap and the start of the boundary reports no nesting.
  pub require_no_violations_exact :
      (w : World S) (ctx : Context) (name : Bytes) (es : List Event) (now : ℕ)
      → w.det.allowlist ≡ none
      → w.det.reporters ≡ collecting cell ∷ []
      → w.det.report_nested ≡ false
      → w.det.tx_seq + length es < 2 ^ 64
      → require_no_violations (get w.store) ≡ []
      → (require_no_violations
            (get (in_boundary w ctx name (λ w' ctx'. run w' new_session ctx' es) [] now).0.store)
          ≡ [])
        ↔ (atomic_units w.det.classify outside es ≤ 1)
  unfolding require_no_violations
  require_no_violations_exact w ctx name es now listed only flat small clean =
      rw (violations-in_boundary w ctx name es now listed only flat small, clean) (ground arith)
