-- ===== src/Session/Report.antt =====
-- A boundary around the run of one connection is reported exactly when the run is not atomic.
use go_txnproof.Prelude.{
  ℕ, ◌+◌, ◌-◌, ◌^◌, ◌<◌, ◌≡◌, refl, ◌∙◌, ap, Bool, true, false, List, [], ◌∷◌, ◌++◌, none, arith,
  Bytes, ltb, if◌then◌else◌, length, take, get_elem?, get_elem?-append_end,
}
use go_txnproof.Report.{
  BoundaryAttr, StatementRecord, Violation, Context, boundary_node, boundary_of, report_all,
}
use go_txnproof.Boundary.{Boundary, with_boundary_attrs, new_boundary, apply_option, apply_options}
use go_txnproof.Boundary.Mark.{record_all-SameMark}
use go_txnproof.Boundary.Tracks.{Tracks, units_of, new_boundary-Tracks, apply_option-Tracks}
use go_txnproof.Boundary.Units.{record_all, record_all-Tracks, write_units-Tracks}
use go_txnproof.Verdict.{quiet, violation, violation_of, judge_listed, judge}
use go_txnproof.Detector.{
  Detector, World, modify, attrs_of, start_boundary, deliver, finish_at, finish_open,
  finish_boundary, in_boundary,
}
use go_txnproof.Session.{Session, new_session}
use go_txnproof.Session.Run.{Event, run, run_lem, trace, after_run, last_state}
use go_txnproof.Session.Units.{outside, atomic_units, units_of-trace}

modify_end :
    (bs : List Boundary) (b : Boundary) (f : Boundary → Boundary)
    → modify (bs ++ b ∷ []) (length bs) f ≡ bs ++ f b ∷ []
unfolding modify
modify_end [] b f = refl
modify_end (c ∷ bs) b f = ap (◌∷◌ c) (modify_end bs b f)

-- The report on a run whose statements were `rs`.
abbrev pub run_violation : Bytes → List BoundaryAttr → ℕ → List StatementRecord → ℕ → Violation
run_violation name attrs max rs units = record {
  boundary = name;
  write_units = units;
  statements = take max rs;
  truncated_statements = length rs - max;
  allowed_write_units = [];
  attrs = attrs;
}

-- A boundary as `start_boundary` makes it with no options.
abbrev opened_boundary : Context → Bytes → List BoundaryAttr → Boundary
opened_boundary ctx name attrs = record (new_boundary ctx name) { attrs = attrs }

opened-Tracks :
    (max : ℕ) (ctx : Context) (name : Bytes) (attrs : List BoundaryAttr)
    → Tracks max [] (opened_boundary ctx name attrs)
unfolding apply_option
opened-Tracks max ctx name attrs =
    unfold new_boundary in
    apply_option-Tracks (with_boundary_attrs attrs) max _ (new_boundary-Tracks max ctx name)

judge_run :
    (ctx : Context) (name : Bytes) (attrs : List BoundaryAttr) (max : ℕ) (rs : List StatementRecord)
    → judge none (record_all max rs (opened_boundary ctx name attrs)) ≡ (
      (if ltb (units_of rs) 2
          then quiet
          else violation (run_violation name attrs max rs (units_of rs))),
      none,
    )
unfolding judge judge_listed violation_of new_boundary
judge_run ctx name attrs max rs =
    let b = record_all max rs (opened_boundary ctx name attrs) in
    let t = record_all-Tracks max rs [] _ (opened-Tracks max ctx name attrs) in
    let mark = record_all-SameMark max rs (opened_boundary ctx name attrs) in
    ground (
      arith,
      write_units-Tracks max b rs t,
      t.keeps.timeline,
      t.keeps.dropped,
      mark.allowed,
      mark.name,
      mark.attrs,
    )

module _ {S : Type 0} where
  -- The boundary of a run, in the world in which it is live.
  finish_run :
      (w : World S) (bs : List Boundary) (b : Boundary)
      → w.heap ≡ bs ++ b ∷ []
      → b.finished ≡ false
      → (finish_boundary w (length bs)).store
        ≡ deliver w.det.reporters
            (boundary_node (length bs) b.parent)
            (judge w.det.allowlist b).0
            w.store
  unfolding finish_boundary finish_at finish_open
  finish_run w bs b h live =
      let i = length bs in
      let here = ap (λ l. get_elem? l i) h ∙ get_elem?-append_end bs b in
      ap (λ o. (finish_at w i o).store) here
      ∙ ap (λ f. (if f then w else finish_open w i b).store) live

  deliver_run :
      (d : Detector S) (inside : Context) (v : Violation) (few : Bool) (before : S)
      → deliver d.reporters inside (if few then quiet else violation v) before
        ≡ (if few then before else report_all d.reporters inside v before)
  unfolding deliver
  deliver_run d inside v true before = refl
  deliver_run d inside v false before = refl

  -- The world of a run behind the start of its boundary.
  finish_after_run :
      (w : World S) (bs : List Boundary) (ctx : Context) (name : Bytes) (attrs : List BoundaryAttr)
      (seq : ℕ) (rs : List StatementRecord)
      → w.heap ≡ bs ++ opened_boundary ctx name attrs ∷ []
      → w.det.allowlist ≡ none
      → let units = units_of rs in
        let max = w.det.max_recorded_statements in
        let inside = boundary_node (length bs) ctx in
        (finish_boundary (after_run w seq (length bs) rs) (length bs)).store ≡ (
          if ltb units 2
          then w.store
          else report_all w.det.reporters inside (run_violation name attrs max rs units) w.store)
  finish_after_run w bs ctx name attrs seq rs h listed =
      let max = w.det.max_recorded_statements in
      let b = record_all max rs (opened_boundary ctx name attrs) in
      let t = record_all-Tracks max rs [] _ (opened-Tracks max ctx name attrs) in
      let parent = (record_all-SameMark max rs (opened_boundary ctx name attrs)).parent in
      let put = ap (λ l. modify l (length bs) (record_all max rs)) h ∙ modify_end bs _ _ in
      finish_run (after_run w seq (length bs) rs) bs b put t.live
      ∙ rw (parent, listed, judge_run ctx name attrs max rs)
          (unfold new_boundary in deliver_run w.det (boundary_node (length bs) ctx) _ _ w.store)

  start_boundary_lem :
      (w : World S) (ctx : Context) (name : Bytes) (now : ℕ)
      → start_boundary w ctx name [] now ≡ (
        record w {
          heap = w.heap ++ opened_boundary ctx name (attrs_of w.det.attrs_func ctx) ∷ [];
          store = (start_boundary w ctx name [] now).0.store;
        },
        (boundary_node (length w.heap) ctx, length w.heap),
      )
  unfolding start_boundary apply_options new_boundary
  start_boundary_lem w ctx name now = refl

  -- A boundary with no mark and no allowlist over the run of a new session is reported to every
  -- reporter, once, when the run has two atomic units or more, with their number and the timeline
  -- up to the cap; and nothing is reported when it has fewer. The transaction counter must not wrap.
  pub in_boundary_exact :
      (w : World S) (ctx : Context) (name : Bytes) (es : List Event) (now : ℕ)
      → w.det.allowlist ≡ none
      → w.det.tx_seq + length es < 2 ^ 64
      → let units = atomic_units w.det.classify outside es in
        let rs = trace w.det.classify w.det.tx_seq 0 es in
        let attrs = attrs_of w.det.attrs_func ctx in
        let max = w.det.max_recorded_statements in
        let inside = boundary_node (length w.heap) ctx in
        let before = (start_boundary w ctx name [] now).0.store in
        (in_boundary w ctx name (λ w' ctx'. run w' new_session ctx' es) [] now).0.store ≡ (
          if ltb units 2
          then before
          else report_all w.det.reporters inside (run_violation name attrs max rs units) before)
  unfolding in_boundary new_session boundary_of
  in_boundary_exact w ctx name es now h small =
      let i = length w.heap in
      let inside = boundary_node i ctx in
      let attrs = attrs_of w.det.attrs_func ctx in
      let before = (start_boundary w ctx name [] now).0.store in
      let w1 : World S = record w {
        heap = w.heap ++ opened_boundary ctx name attrs ∷ [];
        store = before;
      } in
      let rs = trace w.det.classify w.det.tx_seq 0 es in
      let ran = run_lem es w1 new_session inside i refl small in
      let seq = (last_state w.det.classify w.det.tx_seq 0 es).0 in
      ap
        (λ (v : World S × (Context × ℕ)).
          (finish_boundary (run v.0 new_session v.1.0 es).0 v.1.1).store)
        (start_boundary_lem w ctx name now)
      ∙ ap (λ (v : World S × Session). (finish_boundary v.0 i).store) ran
      ∙ rw (← units_of-trace w.det.classify w.det.tx_seq es)
          (finish_after_run w1 w.heap ctx name attrs seq rs refl h)
