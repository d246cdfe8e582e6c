-- ===== src/Detector.antt =====
-- detector.go: the detector, the boundaries that are live, and the steps that start a boundary,
-- record a statement in it, mark it and finish it.
pub mod Once
pub mod Marks
use go_txnproof.Prelude.{
  ℕ, zero, suc, ◌+◌, ◌%◌, ◌^◌, Bool, true, false, not, ◌&&◌, List, [], ◌∷◌, ◌++◌, Option, none,
  some, Bytes, ltb, ◌==◌, if◌then◌else◌, length, get_elem?,
}
use go_txnproof.Classify.{StatementKind, read, other, default_classifier}
use go_txnproof.Report.{
  BoundaryAttr, StatementRecord, Violation, NestedBoundary, StaleAllow, Context, boundary_node,
  boundary_of, Reporter, report_all, unbounded_all, stale_all, nested_all,
}
use go_txnproof.Boundary.{
  Boundary, BoundaryOption, new_boundary, apply_options, mark_allowed, covers_write_units,
  write_units, record_in,
}
use go_txnproof.Allowlist.{Allowlist}
use go_txnproof.Verdict.{Verdict, quiet, stale, violation, judge}

-- A negative cap on the recorded statements acts as 0 does.
pub record Detector (S : Type 0) : Type 0 where
  pub reporters : List (Reporter S)
  pub allowlist : Option Allowlist
  pub classify : Bytes → StatementKind
  pub report_unbounded : Bool
  pub report_nested : Bool
  pub max_recorded_statements : ℕ
  pub attrs_func : Option (Context → List BoundaryAttr)
  pub tx_seq : ℕ

-- The detector, the boundaries by address, and the state of the receivers of reports.
pub record World (S : Type 0) : Type 0 where
  pub det : Detector S
  pub heap : List Boundary
  pub store : S

-- An `Option` is a function on the detector. Its fields are not exported, so those of this package
-- are all there are.
pub data DetectorOption (S : Type 0) : Type 0 where
  with_reporter : List (Reporter S) → DetectorOption S
  with_allowlist : Allowlist → DetectorOption S
  with_classifier : (Bytes → StatementKind) → DetectorOption S
  with_unbounded_write_detection : DetectorOption S
  with_nested_boundary_detection : DetectorOption S
  with_max_recorded_statements : ℕ → DetectorOption S
  with_boundary_attrs_func : (Context → List BoundaryAttr) → DetectorOption S

-- What a write to the heap at an address does.
unfoldable pub modify : List Boundary → ℕ → (Boundary → Boundary) → List Boundary
modify [] i f = []
modify (b ∷ bs) zero f = f b ∷ bs
modify (b ∷ bs) (suc i) f = b ∷ modify bs i f

-- `d.attrsFunc(ctx)`, where there is one.
unfoldable pub attrs_of : Option (Context → List BoundaryAttr) → Context → List BoundaryAttr
attrs_of none ctx = []
attrs_of (some f) ctx = f ctx

-- The boundary behind an address, if there is an address.
unfoldable pub boundary_at : List Boundary → Option ℕ → Option Boundary
boundary_at heap none = none
boundary_at heap (some i) = get_elem? heap i

abbrev pub is_write : StatementKind → Bool
is_write StatementKind.write = true
is_write _ = false

unfoldable pub mark_live : Bytes → List ℕ → Boundary → Boundary
mark_live reason units b = if b.finished then b else mark_allowed reason units b

abbrev pub close : Boundary → Boundary
close b = record b { finished = true }

module _ {S : Type 0} where
  unfoldable pub apply_detector_option : DetectorOption S → Detector S → Detector S
  apply_detector_option (with_reporter rs) d = record d { reporters = d.reporters ++ rs }
  apply_detector_option (with_allowlist a) d = record d { allowlist = some a }
  apply_detector_option (with_classifier c) d = record d { classify = c }
  apply_detector_option with_unbounded_write_detection d = record d { report_unbounded = true }
  apply_detector_option with_nested_boundary_detection d = record d { report_nested = true }
  apply_detector_option (with_max_recorded_statements n) d = record d {
    max_recorded_statements = n;
  }
  apply_detector_option (with_boundary_attrs_func f) d = record d { attrs_func = some f }

  unfoldable pub apply_detector_options : List (DetectorOption S) → Detector S → Detector S
  apply_detector_options [] d = d
  apply_detector_options (o ∷ os) d = apply_detector_options os (apply_detector_option o d)

  -- `New`
  unfoldable pub new : List (DetectorOption S) → Detector S
  new opts = apply_detector_options opts (record {
    reporters = [];
    allowlist = none;
    classify = default_classifier;
    report_unbounded = false;
    report_nested = false;
    max_recorded_statements = 200;
    attrs_func = none;
    tx_seq = 0;
  })

  -- `d.txSeq.Add(1)` on a uint64.
  unfoldable pub next_tx_id : World S → World S × ℕ
  next_tx_id w =
      let n = (w.det.tx_seq + 1) % 2 ^ 64 in (record w { det = record w.det { tx_seq = n } }, n)

  -- The report of `StartBoundary` on the boundary that the context carries, if any.
  unfoldable pub nested_report : World S → Context → Bytes → ℕ → Option Boundary → S
  nested_report w ctx name now none = w.store
  nested_report w ctx name now (some outer) =
      nested_all w.det.reporters ctx (record { outer = outer.name; inner = name; time = now })
        w.store

  -- `StartBoundary`: the new context, and the address of the boundary.
  unfoldable pub start_boundary :
      World S → Context → Bytes → List BoundaryOption → ℕ → World S × (Context × ℕ)
  start_boundary w ctx name opts now =
      let store' =
        if w.det.report_nested
        then nested_report w ctx name now (boundary_at w.heap (boundary_of ctx))
        else w.store in
      let b = new_boundary ctx name in
      let b' = record b { attrs = b.attrs ++ attrs_of w.det.attrs_func ctx } in
      let i = length w.heap in
      (
        record w { heap = w.heap ++ apply_options opts b' ∷ []; store = store' },
        (boundary_node i ctx, i),
      )

  -- The branch of `record` with no boundary.
  unfoldable pub record_unbounded : World S → Context → StatementRecord → World S
  record_unbounded w ctx r = record w {
    store =
        unbounded_all w.det.reporters ctx (record r { attrs = attrs_of w.det.attrs_func ctx })
          w.store;
  }

  unfoldable pub record_at : World S → Context → StatementRecord → Option ℕ → World S
  record_at w ctx r none =
      if is_write r.kind && w.det.report_unbounded then record_unbounded w ctx r else w
  record_at w ctx r (some i) = record w {
    heap = modify w.heap i (record_in w.det.max_recorded_statements r);
  }

  -- `record`
  unfoldable pub record_statement : World S → Context → Bytes → StatementKind → ℕ → ℕ → World S
  record_statement w ctx query kind tx now =
      record_at w ctx (record { query = query; kind = kind; tx_id = tx; time = now; attrs = [] })
        (boundary_of ctx)

  unfoldable pub mark_at : World S → Bytes → List ℕ → Option ℕ → World S
  mark_at w reason units none = w
  mark_at w reason units (some i) = record w { heap = modify w.heap i (mark_live reason units) }

  -- `AllowNonAtomicHere`
  unfoldable pub allow_non_atomic_here : World S → Context → Bytes → List ℕ → World S
  allow_non_atomic_here w ctx reason exact_write_units =
      mark_at w reason exact_write_units (boundary_of ctx)

  -- What the verdict sends to the reporters; the context is the boundary.
  unfoldable pub deliver : List (Reporter S) → Context → Verdict → S → S
  deliver rs ctx quiet s = s
  deliver rs ctx (stale sa) s = stale_all rs ctx sa s
  deliver rs ctx (violation v) s = report_all rs ctx v s

  unfoldable pub finish_open : World S → ℕ → Boundary → World S
  finish_open w i b =
      let (verdict, allowlist') = judge w.det.allowlist b in
      record w {
        det = record w.det { allowlist = allowlist' };
        heap = modify w.heap i close;
        store = deliver w.det.reporters (boundary_node i b.parent) verdict w.store;
      }

  unfoldable pub finish_at : World S → ℕ → Option Boundary → World S
  finish_at w i none = w
  finish_at w i (some b) = if b.finished then w else finish_open w i b

  -- `finishBoundary`
  unfoldable pub finish_boundary : World S → ℕ → World S
  finish_boundary w i = finish_at w i (get_elem? w.heap i)

  -- `InBoundary`: the body runs in the new context, and the deferred `Finish` runs behind it.
  unfoldable pub in_boundary :
      {E : Type 0}
      → World S
      → Context
      → Bytes
      → (World S → Context → World S × E)
      → List BoundaryOption
      → ℕ
      → World S × E
  in_boundary w ctx name body opts now =
      let (w', (ctx', i)) = start_boundary w ctx name opts now in
      let (w'', err) = body w' ctx' in (finish_boundary w'' i, err)
