-- ===== src/Boundary.antt =====
-- detector.go: a live boundary, its count of write units, and the marks that allow a boundary to be
-- non-atomic. The lock makes each operation one step.
pub mod WriteTx
pub mod Tracks
pub mod Units
pub mod Mark
use go_txnproof.Prelude.{
  ℕ, suc, ◌+◌, Bool, true, false, List, [], ◌∷◌, ◌++◌, Bytes, ltb, ◌==◌, if◌then◌else◌, length, set,
  take, contains,
}
use go_txnproof.Classify.{StatementKind}
use go_txnproof.Report.{BoundaryAttr, StatementRecord, Context}

abbrev pub inline_write_tx_cap : ℕ
inline_write_tx_cap = 4

-- The nil map and the nil slice are empty lists. The counters are unbounded: each step of one of
-- them is a statement.
pub record Boundary : Type 0 where
  pub parent : Context
  pub name : Bytes
  pub attrs : List BoundaryAttr
  pub allowed : Bool
  pub allow_reason : Bytes
  pub allow_units : List ℕ
  pub statements : List StatementRecord
  pub write_tx_inline : List ℕ
  pub write_tx_n : ℕ
  pub write_tx_overflow : List ℕ
  pub auto_commit_writes : ℕ
  pub truncated : ℕ
  pub finished : Bool

-- `&Boundary{det: d, parent: ctx, name: name}`
unfoldable pub new_boundary : Context → Bytes → Boundary
new_boundary ctx name = record {
  parent = ctx;
  name = name;
  attrs = [];
  allowed = false;
  allow_reason = [];
  allow_units = [];
  statements = [];
  write_tx_inline = 0 ∷ 0 ∷ 0 ∷ 0 ∷ [];
  write_tx_n = 0;
  write_tx_overflow = [];
  auto_commit_writes = 0;
  truncated = 0;
  finished = false;
}

-- The write that a new transaction gets: inline while there is room, else in the map.
unfoldable pub add_write_tx : Boundary → ℕ → Boundary
add_write_tx b tx =
    if ltb b.write_tx_n inline_write_tx_cap
    then record b {
      write_tx_inline = set b.write_tx_inline b.write_tx_n tx;
      write_tx_n = b.write_tx_n + 1;
    }
    else record b { write_tx_overflow = tx ∷ b.write_tx_overflow; write_tx_n = b.write_tx_n + 1 }

unfoldable pub note_write_tx : Boundary → ℕ → Boundary
note_write_tx b tx =
    let inline =
      if ltb inline_write_tx_cap b.write_tx_n then inline_write_tx_cap else b.write_tx_n in
    if contains (take inline b.write_tx_inline) tx
    then b
    else if contains b.write_tx_overflow tx
    then b
    else add_write_tx b tx

-- No counts cover every count.
unfoldable pub covers_write_units : List ℕ → ℕ → Bool
covers_write_units [] units = true
covers_write_units (n ∷ ns) units = contains (n ∷ ns) units

-- The mark of `AllowNonAtomic` and of `AllowNonAtomicHere`.
unfoldable pub mark_allowed : Bytes → List ℕ → Boundary → Boundary
mark_allowed reason units b = record b {
  allowed = true;
  allow_reason = reason;
  allow_units = units;
}

-- A `BoundaryOption` is a function on the boundary. Its fields are not exported, so those of this
-- package are all there are.
pub data BoundaryOption : Type 0 where
  allow_non_atomic : Bytes → List ℕ → BoundaryOption
  with_boundary_attrs : List BoundaryAttr → BoundaryOption

unfoldable pub apply_option : BoundaryOption → Boundary → Boundary
apply_option (allow_non_atomic reason exact_write_units) b = mark_allowed reason exact_write_units b
apply_option (with_boundary_attrs attrs) b = record b { attrs = b.attrs ++ attrs }

-- `for _, o := range opts { o(b) }`
unfoldable pub apply_options : List BoundaryOption → Boundary → Boundary
apply_options [] b = b
apply_options (o ∷ os) b = apply_options os (apply_option o b)

-- `writeTxN + autoCommitWrites`
unfoldable pub write_units : Boundary → ℕ
write_units b = b.write_tx_n + b.auto_commit_writes

-- The rest of `record` for a write.
unfoldable pub tally : StatementKind → ℕ → Boundary → Boundary
tally StatementKind.write tx b =
    if tx == 0
    then record b { auto_commit_writes = b.auto_commit_writes + 1 }
    else note_write_tx b tx
tally _ tx b = b

-- The append under the cap of recorded statements, else the count of those dropped.
unfoldable pub keep_statement : ℕ → StatementRecord → Boundary → Boundary
keep_statement max r b =
    if ltb (length b.statements) max
    then record b { statements = b.statements ++ r ∷ [] }
    else record b { truncated = b.truncated + 1 }

-- `record` on the boundary, under its lock.
unfoldable pub record_in : ℕ → StatementRecord → Boundary → Boundary
record_in max r b = if b.finished then b else tally r.kind r.tx_id (keep_statement max r b)
