-- ===== src/Detector/Once.antt =====
-- A boundary that is finished does not change and is not evaluated again, whatever happens later.
use go_txnproof.Prelude.{
  ℕ, zero, suc, ◌≡◌, ◌≢◌, refl, sym, ◌∙◌, ap, true, false, List, [], ◌∷◌, Option, none, some, arith,
  Bytes, if◌then◌else◌, get_elem?, get_elem?-lt, get_elem?-append_left,
}
use native.Mathlib.Decide.{ℕ_discrete}
use go_txnproof.Classify.{StatementKind}
use go_txnproof.Report.{StatementRecord, Context, boundary_of}
use go_txnproof.Boundary.{Boundary, BoundaryOption, record_in}
use go_txnproof.Detector.{
  World, modify, mark_live, start_boundary, record_at, record_statement, mark_at,
  allow_non_atomic_here, close, finish_at, finish_open, finish_boundary, record_unbounded,
}

-- The steps that a program can make the detector take, in any order and from any goroutine.
pub data Op : Type 0 where
  starts : Context → Bytes → List BoundaryOption → ℕ → Op
  records : Context → Bytes → StatementKind → ℕ → ℕ → Op
  marks : Context → Bytes → List ℕ → Op
  finishes : ℕ → Op

-- Reading back what a write to the heap did.
get_elem?-modify_ne :
    (bs : List Boundary) (j i : ℕ) (f : Boundary → Boundary)
    → j ≢ i
    → get_elem? (modify bs j f) i ≡ get_elem? bs i
unfolding modify
get_elem?-modify_ne [] j i f h = refl
get_elem?-modify_ne (b ∷ bs) zero zero f h = absurd (h refl)
get_elem?-modify_ne (b ∷ bs) zero (suc i) f h = refl
get_elem?-modify_ne (b ∷ bs) (suc j) zero f h = refl
get_elem?-modify_ne (b ∷ bs) (suc j) (suc i) f h = get_elem?-modify_ne bs j i f (λ e. h (ap suc e))

get_elem?-modify_self :
    (bs : List Boundary) (i : ℕ) (f : Boundary → Boundary) (b : Boundary)
    → get_elem? bs i ≡ some b
    → get_elem? (modify bs i f) i ≡ some (f b)
unfolding modify
get_elem?-modify_self [] i f b h = cc
get_elem?-modify_self (c ∷ bs) zero f b h = cc
get_elem?-modify_self (c ∷ bs) (suc i) f b h = get_elem?-modify_self bs i f b h

-- A write that keeps this boundary keeps what stands at its address.
keeps_modify :
    (bs : List Boundary) (j i : ℕ) (f : Boundary → Boundary) (b : Boundary)
    → get_elem? bs i ≡ some b
    → f b ≡ b
    → get_elem? (modify bs j f) i ≡ some b
keeps_modify bs j i f b h e = elim (ℕ_discrete j i) [
  | yes same ↦ rw same (get_elem?-modify_self bs i f b h ∙ ap some e)
  | no other ↦ get_elem?-modify_ne bs j i f other ∙ h
]

module _ {S : Type 0} where
  unfoldable pub apply_op : World S → Op → World S
  apply_op w (starts ctx name opts now) = (start_boundary w ctx name opts now).0
  apply_op w (records ctx query kind tx now) = record_statement w ctx query kind tx now
  apply_op w (marks ctx reason units) = allow_non_atomic_here w ctx reason units
  apply_op w (finishes i) = finish_boundary w i

  unfoldable pub apply_ops : World S → List Op → World S
  apply_ops w [] = w
  apply_ops w (o ∷ os) = apply_ops (apply_op w o) os

record_in_finished :
    (max : ℕ) (r : StatementRecord) (b : Boundary) → b.finished ≡ true → record_in max r b ≡ b
unfolding record_in
record_in_finished max r b h = ground arith

mark_live_finished :
    (reason : Bytes) (units : List ℕ) (b : Boundary)
    → b.finished ≡ true
    → mark_live reason units b ≡ b
unfolding mark_live
mark_live_finished reason units b h = ground arith

close_finished : (b : Boundary) → b.finished ≡ true → close b ≡ b
close_finished b done = ap (λ f. record b { finished = f }) (sym done)

module _ {S : Type 0} (i : ℕ) (b : Boundary) (done : b.finished ≡ true) where
  record_at_keeps :
      (w : World S) (ctx : Context) (r : StatementRecord) (o : Option ℕ)
      → get_elem? w.heap i ≡ some b
      → get_elem? (record_at w ctx r o).heap i ≡ some b
  unfolding record_at record_unbounded
  record_at_keeps w ctx r none h = ground arith
  record_at_keeps w ctx r (some j) h =
      keeps_modify w.heap j i _ b h (record_in_finished w.det.max_recorded_statements r b done)

  mark_at_keeps :
      (w : World S) (reason : Bytes) (units : List ℕ) (o : Option ℕ)
      → get_elem? w.heap i ≡ some b
      → get_elem? (mark_at w reason units o).heap i ≡ some b
  unfolding mark_at
  mark_at_keeps w reason units none h = h
  mark_at_keeps w reason units (some j) h =
      keeps_modify w.heap j i _ b h (mark_live_finished reason units b done)

  finish_at_keeps :
      (w : World S) (j : ℕ) (o : Option Boundary)
      → get_elem? w.heap i ≡ some b
      → get_elem? (finish_at w j o).heap i ≡ some b
  unfolding finish_at finish_open
  finish_at_keeps w j none h = h
  finish_at_keeps w j (some c) h =
      ground (arith, h, keeps_modify w.heap j i close b h (close_finished b done))

  apply_op_keeps :
      (w : World S) (o : Op)
      → get_elem? w.heap i ≡ some b
      → get_elem? (apply_op w o).heap i ≡ some b
  unfolding apply_op start_boundary record_statement allow_non_atomic_here finish_boundary
  apply_op_keeps w (starts ctx name opts now) h =
      get_elem?-append_left w.heap _ i (get_elem?-lt w.heap i h) ∙ h
  apply_op_keeps w (records ctx query kind tx now) h = record_at_keeps w ctx _ (boundary_of ctx) h
  apply_op_keeps w (marks ctx reason units) h = mark_at_keeps w reason units (boundary_of ctx) h
  apply_op_keeps w (finishes j) h = finish_at_keeps w j (get_elem? w.heap j) h

  pub apply_ops_keeps :
      (os : List Op) (w : World S)
      → get_elem? w.heap i ≡ some b
      → get_elem? (apply_ops w os).heap i ≡ some b
  unfolding apply_ops
  apply_ops_keeps [] w h = h
  apply_ops_keeps (o ∷ os) w h = apply_ops_keeps os (apply_op w o) (apply_op_keeps w o h)

  finish_boundary_again : (w : World S) → get_elem? w.heap i ≡ some b → finish_boundary w i ≡ w
  unfolding finish_boundary finish_at
  finish_boundary_again w h =
      ap (finish_at w i) h ∙ ap (λ f. if f then w else finish_open w i b) done

closes :
    {S : Type 0} (w : World S) (i : ℕ) (b : Boundary)
    → get_elem? w.heap i ≡ some b
    → b.finished ≡ false
    → get_elem? (finish_boundary w i).heap i ≡ some (close b)
unfolding finish_boundary finish_at finish_open
closes w i b h live =
    ap (λ o. get_elem? (finish_at w i o).heap i) h
    ∙ ap (λ f. get_elem? (if f then w else finish_open w i b).heap i) live
    ∙ get_elem?-modify_self w.heap i close b h

-- After `Finish` on a live boundary, no further steps, in whatever order, change the boundary, and a
-- second `Finish` among or behind them does nothing at all: neither a report nor a use of the
-- allowlist happens twice.
pub finished_once :
    {S : Type 0} (w : World S) (i : ℕ) (b : Boundary) (os : List Op)
    → get_elem? w.heap i ≡ some b
    → b.finished ≡ false
    → let later = apply_ops (finish_boundary w i) os in
      (get_elem? later.heap i ≡ some (close b)) × (finish_boundary later i ≡ later)
finished_once w i b os h live =
    let closed = closes w i b h live in
    let later = apply_ops_keeps i (close b) refl os (finish_boundary w i) closed in
    (later, finish_boundary_again i (close b) refl (apply_ops (finish_boundary w i) os) later)
