-- ===== src/Boundary/Units.antt =====
-- What a boundary knows after a run of statements: the write units, the timeline up to its cap, and
-- the number of statements dropped.
use go_txnproof.Prelude.{
  ℕ, ◌-◌, ◌≡◌, refl, ◌∙◌, ap, false, List, [], ◌∷◌, ◌++◌, arith, Bytes, if◌then◌else◌, length, take,
  length-IsDistinct, append_assoc, append-nil,
}
use native.Mathlib.Nat.{add-zero}
use go_txnproof.Classify.{StatementKind}
use go_txnproof.Report.{StatementRecord, Context}
use go_txnproof.Boundary.{
  Boundary, BoundaryOption, new_boundary, apply_option, apply_options, write_units, tally,
  keep_statement, record_in,
}
use go_txnproof.Boundary.WriteTx.{noted, length-noted, note_write_tx-SameRest}
use go_txnproof.Boundary.Tracks.{
  write_txs, units_of, write_txs-append, auto_commits-append, Tracks, new_boundary-Tracks,
  apply_option-Tracks, tally-Counts, keep_statement-Keeps, keep_statement-Counts,
}

-- `tally` leaves the timeline and the state of the boundary alone.
pub tally_rest :
    (k : StatementKind) (tx : ℕ) (b : Boundary)
    → ((tally k tx b).statements ≡ b.statements)
      × ((tally k tx b).truncated ≡ b.truncated)
      × ((tally k tx b).finished ≡ b.finished)
unfolding tally
tally_rest StatementKind.write tx b =
    let same = note_write_tx-SameRest b tx in
    ground (arith, same.statements, same.truncated, same.finished)
tally_rest _ tx b = (refl, refl, refl)

pub keep_statement_finished :
    (max : ℕ) (r : StatementRecord) (b : Boundary) → (keep_statement max r b).finished ≡ b.finished
unfolding keep_statement
keep_statement_finished max r b = ground arith

pub record_in_live :
    (max : ℕ) (r : StatementRecord) (b : Boundary)
    → b.finished ≡ false
    → record_in max r b ≡ tally r.kind r.tx_id (keep_statement max r b)
unfolding record_in
record_in_live max r b h =
    ap (λ f. if f then b else tally r.kind r.tx_id (keep_statement max r b)) h

-- One more statement.
pub record_in-Tracks :
    (max : ℕ) (r : StatementRecord) (b : Boundary) (rs : List StatementRecord)
    → Tracks max rs b
    → Tracks max (rs ++ r ∷ []) (record_in max r b)
record_in-Tracks max r b rs t =
    let kept = keep_statement max r b in
    let rest = tally_rest r.kind r.tx_id kept in
    let counts = keep_statement-Counts max r b t.counts in
    let keeps = keep_statement-Keeps max r b rs t.keeps in
    rw (record_in_live max r b t.live) (record {
      counts =
          rw (write_txs-append rs (r ∷ []), auto_commits-append rs (r ∷ []), append-nil, add-zero)
            (tally-Counts r.kind r.tx_id kept _ _ counts);
      keeps = record { timeline = rest.0 ∙ keeps.timeline; dropped = rest.1 ∙ keeps.dropped };
      live = rest.2 ∙ keep_statement_finished max r b ∙ t.live;
    })

-- The count of a boundary is the number of atomic units that wrote.
pub write_units-Tracks :
    (max : ℕ) (b : Boundary) (rs : List StatementRecord)
    → Tracks max rs b
    → write_units b ≡ units_of rs
unfolding write_units
write_units-Tracks max b rs t = omega (
  arith,
  length-noted b t.counts.inv,
  t.counts.autos,
  length-IsDistinct (write_txs rs) (noted b) t.counts.inv.distinct t.counts.txs,
)

-- A run of `record` on one boundary.
abbrev pub record_all : ℕ → List StatementRecord → Boundary → Boundary
record_all max [] b = b
record_all max (r ∷ rs) b = record_all max rs (record_in max r b)

pub record_all-Tracks :
    (max : ℕ) (rs seen : List StatementRecord) (b : Boundary)
    → Tracks max seen b
    → Tracks max (seen ++ rs) (record_all max rs b)
record_all-Tracks max [] seen b t = rw append-nil t
record_all-Tracks max (r ∷ rs) seen b t = rw append_assoc at (
    record_all-Tracks max rs (seen ++ r ∷ []) (record_in max r b) (record_in-Tracks max r b seen t))

pub apply_options-Tracks :
    (os : List BoundaryOption) (max : ℕ) (b : Boundary) {rs : List StatementRecord}
    → Tracks max rs b
    → Tracks max rs (apply_options os b)
unfolding apply_options
apply_options-Tracks [] max b t = t
apply_options-Tracks (o ∷ os) max b t =
    apply_options-Tracks os max (apply_option o b) (apply_option-Tracks o max b t)

-- After any run of statements on a new boundary, under any options, the boundary counts as many
-- write units as there are different transactions among the writes, and writes outside one; its
-- timeline is the run up to the cap, and `truncated` is the number of statements past the cap.
pub record_all_exact :
    (max : ℕ) (ctx : Context) (name : Bytes) (os : List BoundaryOption) (rs : List StatementRecord)
    → let b = record_all max rs (apply_options os (new_boundary ctx name)) in
      (write_units b ≡ units_of rs) × (b.statements ≡ take max rs) × (b.truncated ≡ length rs - max)
record_all_exact max ctx name os rs =
    let start = apply_options-Tracks os max _ (new_boundary-Tracks max ctx name) in
    let t = record_all-Tracks max rs [] _ start in
    (write_units-Tracks max _ rs t, t.keeps.timeline, t.keeps.dropped)
