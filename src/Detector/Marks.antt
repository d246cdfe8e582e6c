-- ===== src/Detector/Marks.antt =====
-- `AllowNonAtomicHere` at any time before a boundary finishes.
use go_txnproof.Prelude.{
  ℕ, ◌≡◌, refl, ◌∙◌, sym, ap, true, false, Option, none, some, List, [], ◌∷◌, Bytes, arith,
  if◌then◌else◌, Bool-cases, inl, inr, ◌==◌,
}
use go_txnproof.Classify.{StatementKind}
use go_txnproof.Report.{StatementRecord}
use go_txnproof.Boundary.{
  Boundary, mark_allowed, add_write_tx, note_write_tx, tally, keep_statement, record_in,
}
use go_txnproof.Boundary.Units.{record_all, record_in_live, tally_rest, keep_statement_finished}
use go_txnproof.Detector.{mark_live}

-- What happens to a live boundary.
pub data BoundaryOp : Type 0 where
  records : StatementRecord → BoundaryOp
  marks : Bytes → List ℕ → BoundaryOp

abbrev pub apply_on : ℕ → BoundaryOp → Boundary → Boundary
apply_on max (records r) b = record_in max r b
apply_on max (marks reason units) b = mark_live reason units b

abbrev pub apply_all : ℕ → List BoundaryOp → Boundary → Boundary
apply_all max [] b = b
apply_all max (o ∷ os) b = apply_all max os (apply_on max o b)

abbrev pub recorded : List BoundaryOp → List StatementRecord
recorded [] = []
recorded (records r ∷ os) = r ∷ recorded os
recorded (marks reason units ∷ os) = recorded os

-- The last of the marks, its reason and its numbers of write units.
abbrev pub last_mark : Option (Bytes × List ℕ) → List BoundaryOp → Option (Bytes × List ℕ)
last_mark m [] = m
last_mark m (records r ∷ os) = last_mark m os
last_mark m (marks reason units ∷ os) = last_mark (some (reason, units)) os

-- A boundary that bears one mark and no trace of any other; without a mark it stays as it was.
abbrev pub marked_with : Option (Bytes × List ℕ) → Boundary → Boundary
marked_with none b = b
marked_with (some (reason, units)) b = record b {
  allowed = true;
  allow_reason = reason;
  allow_units = units;
}

note_write_tx-mark :
    (reason : Bytes) (units : List ℕ) (tx : ℕ) (b : Boundary)
    → note_write_tx (mark_allowed reason units b) tx
      ≡ mark_allowed reason units (note_write_tx b tx)
unfolding note_write_tx add_write_tx mark_allowed
note_write_tx-mark reason units tx b = ground arith

tally-mark :
    (reason : Bytes) (units : List ℕ) (k : StatementKind) (tx : ℕ) (b : Boundary)
    → tally k tx (mark_allowed reason units b) ≡ mark_allowed reason units (tally k tx b)
unfolding tally mark_allowed
tally-mark reason units StatementKind.write tx b = elim (Bool-cases (tx == 0)) [
  | inl auto ↦ rw auto refl
  | inr named ↦ rw named (note_write_tx-mark reason units tx b)
]
tally-mark reason units _ tx b = refl

keep_statement-mark :
    (reason : Bytes) (units : List ℕ) (max : ℕ) (r : StatementRecord) (b : Boundary)
    → keep_statement max r (mark_allowed reason units b)
      ≡ mark_allowed reason units (keep_statement max r b)
unfolding keep_statement mark_allowed
keep_statement-mark reason units max r b = ground arith

stays_live :
    (max : ℕ) (r : StatementRecord) (b : Boundary)
    → b.finished ≡ false
    → (record_in max r b).finished ≡ false
stays_live max r b live =
    ap (λ (c : Boundary). c.finished) (record_in_live max r b live)
    ∙ (tally_rest r.kind r.tx_id (keep_statement max r b)).2
    ∙ keep_statement_finished max r b
    ∙ live

record_in-mark :
    (reason : Bytes) (units : List ℕ) (max : ℕ) (r : StatementRecord) (b : Boundary)
    → b.finished ≡ false
    → record_in max r (mark_allowed reason units b) ≡ mark_allowed reason units (record_in max r b)
unfolding record_in
record_in-mark reason units max r b live =
    record_in_live max r (mark_allowed reason units b) (unfold mark_allowed in live)
    ∙ ap (tally r.kind r.tx_id) (keep_statement-mark reason units max r b)
    ∙ tally-mark reason units r.kind r.tx_id (keep_statement max r b)
    ∙ ap (mark_allowed reason units) (sym (record_in_live max r b live))

record_all-mark :
    (reason : Bytes) (units : List ℕ) (max : ℕ) (rs : List StatementRecord) (b : Boundary)
    → b.finished ≡ false
    → record_all max rs (mark_allowed reason units b)
      ≡ mark_allowed reason units (record_all max rs b)
record_all-mark reason units max [] b live = refl
record_all-mark reason units max (r ∷ rs) b live =
    ap (record_all max rs) (record_in-mark reason units max r b live)
    ∙ record_all-mark reason units max rs (record_in max r b) (stays_live max r b live)

-- A mark takes the place of the one before it.
marked_again :
    (max : ℕ) (os : List BoundaryOp) (reason : Bytes) (units : List ℕ) (b : Boundary)
    → b.finished ≡ false
    → apply_all max os (mark_allowed reason units b)
      ≡ marked_with (last_mark (some (reason, units)) os) (record_all max (recorded os) b)
unfolding mark_live mark_allowed
marked_again max [] reason units b live = refl
marked_again max (records r ∷ os) reason units b live =
    ap (apply_all max os) (record_in-mark reason units max r b live)
    ∙ marked_again max os reason units (record_in max r b) (stays_live max r b live)
marked_again max (marks reason' units' ∷ os) reason units b live =
    ap
      (λ f.
        apply_all max os (if f then mark_allowed reason units b else mark_allowed reason' units' b))
      live
    ∙ marked_again max os reason' units' b live

-- However marks come between the statements of a live boundary, it ends as the statements alone leave
-- it, with the reason and the numbers of the last mark and nothing of the earlier ones: a mark covers
-- the writes on both sides of it.
pub last_mark_exact :
    (max : ℕ) (os : List BoundaryOp) (b : Boundary)
    → b.finished ≡ false
    → apply_all max os b ≡ marked_with (last_mark none os) (record_all max (recorded os) b)
unfolding mark_live
last_mark_exact max [] b live = refl
last_mark_exact max (records r ∷ os) b live =
    last_mark_exact max os (record_in max r b) (stays_live max r b live)
last_mark_exact max (marks reason units ∷ os) b live =
    ap (λ f. apply_all max os (if f then b else mark_allowed reason units b)) live
    ∙ marked_again max os reason units b live
