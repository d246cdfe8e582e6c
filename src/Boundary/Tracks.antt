-- ===== src/Boundary/Tracks.antt =====
-- What is known of a boundary after some statements: the transactions that it counted, and its
-- timeline up to the cap.
use go_txnproof.Prelude.{
  ℕ, zero, suc, ◌+◌, ◌-◌, ◌≤◌, ◌<◌, ◌≡◌, refl, ◌∙◌, ap, sym, inl, inr, false, List, [], ◌∷◌, ◌++◌,
  arith, Bytes, ltb, ltb→lt, ◌==◌, if◌then◌else◌, length, take, contains, contains-append,
  length-append, count_distinct, append_assoc, append-nil, Bool-cases,
}
use Prim.Native.Nat.{min}
use native.Mathlib.Nat.{add-zero}
use go_txnproof.Classify.{StatementKind}
use go_txnproof.Report.{StatementRecord, Context}
use go_txnproof.Boundary.{
  Boundary, BoundaryOption, allow_non_atomic, with_boundary_attrs, new_boundary, apply_option,
  mark_allowed, note_write_tx, tally, keep_statement,
}
use go_txnproof.Boundary.WriteTx.{
  TxInv, noted, new_boundary-TxInv, note_write_tx-TxInv, contains-note_write_tx,
  note_write_tx-SameRest,
}

-- The transaction of a write; none for a write of its own and for what is no write.
abbrev pub tx_of : StatementKind → ℕ → List ℕ
tx_of StatementKind.write tx = if tx == 0 then [] else tx ∷ []
tx_of _ tx = []

abbrev pub auto_of : StatementKind → ℕ → ℕ
auto_of StatementKind.write tx = if tx == 0 then 1 else 0
auto_of _ tx = 0

abbrev pub write_txs : List StatementRecord → List ℕ
write_txs [] = []
write_txs (r ∷ rs) = tx_of r.kind r.tx_id ++ write_txs rs

abbrev pub auto_commits : List StatementRecord → ℕ
auto_commits [] = 0
auto_commits (r ∷ rs) = auto_of r.kind r.tx_id + auto_commits rs

-- The atomic units among the writes: the different transactions, and each write outside one.
abbrev pub units_of : List StatementRecord → ℕ
units_of rs = count_distinct (write_txs rs) + auto_commits rs

pub write_txs-append :
    (rs qs : List StatementRecord) → write_txs (rs ++ qs) ≡ write_txs rs ++ write_txs qs
write_txs-append [] qs = refl
write_txs-append (r ∷ rs) qs =
    ap (◌++◌ (tx_of r.kind r.tx_id)) (write_txs-append rs qs)
    ∙ sym (append_assoc (tx_of r.kind r.tx_id) (write_txs rs) (write_txs qs))

pub auto_commits-append :
    (rs qs : List StatementRecord) → auto_commits (rs ++ qs) ≡ auto_commits rs + auto_commits qs
auto_commits-append [] qs = omega arith
auto_commits-append (r ∷ rs) qs = omega (arith, auto_commits-append rs qs)

-- The boundary has noted the transactions `ts`, and counts `n` writes in none.
pub record Counts (ts : List ℕ) (n : ℕ) (b : Boundary) : Type 0 where
  pub inv : TxInv b
  pub txs : (t : ℕ) → contains (noted b) t ≡ contains ts t
  pub autos : b.auto_commit_writes ≡ n

-- The timeline is the statements up to the cap; the others are counted.
pub record Keeps (max : ℕ) (rs : List StatementRecord) (b : Boundary) : Type 0 where
  pub timeline : b.statements ≡ take max rs
  pub dropped : b.truncated ≡ length rs - max

-- The boundary has seen these statements, and is still open.
pub record Tracks (max : ℕ) (rs : List StatementRecord) (b : Boundary) : Type 0 where
  pub counts : Counts (write_txs rs) (auto_commits rs) b
  pub keeps : Keeps max rs b
  pub live : b.finished ≡ false

take_nil : (max : ℕ) → take {A = StatementRecord} max [] ≡ []
take_nil zero = refl
take_nil (suc max) = refl

pub new_boundary-Tracks :
    (max : ℕ) (ctx : Context) (name : Bytes) → Tracks max [] (new_boundary ctx name)
new_boundary-Tracks max ctx name = record {
  counts = record {
    inv = new_boundary-TxInv ctx name;
    txs = unfold new_boundary in λ t. refl;
    autos = unfold new_boundary in refl;
  };
  keeps = record {
    timeline = unfold new_boundary in sym (take_nil max);
    dropped = unfold new_boundary in omega arith;
  };
  live = unfold new_boundary in refl;
}

-- Nothing of this depends on the name, the attributes and the mark of a boundary.
same-Counts :
    {ts : List ℕ} {n : ℕ} (b c : Boundary)
    → c.write_tx_inline ≡ b.write_tx_inline
    → c.write_tx_n ≡ b.write_tx_n
    → c.write_tx_overflow ≡ b.write_tx_overflow
    → c.auto_commit_writes ≡ b.auto_commit_writes
    → Counts ts n b
    → Counts ts n c
same-Counts b c e f g h k = record {
  inv = record {
    slots = rw e k.inv.slots;
    spilled = rw (f, g) k.inv.spilled;
    distinct = rw (e, f, g) k.inv.distinct;
  };
  txs = λ t. rw (e, f, g) (k.txs t);
  autos = rw h k.autos;
}

pub apply_option-Tracks :
    (o : BoundaryOption) (max : ℕ) (b : Boundary) {rs : List StatementRecord}
    → Tracks max rs b
    → Tracks max rs (apply_option o b)
unfolding apply_option mark_allowed
apply_option-Tracks (allow_non_atomic reason units) max b t = record {
  counts = same-Counts b _ refl refl refl refl t.counts;
  keeps = record { timeline = t.keeps.timeline; dropped = t.keeps.dropped };
  live = t.live;
}
apply_option-Tracks (with_boundary_attrs attrs) max b t = record {
  counts = same-Counts b _ refl refl refl refl t.counts;
  keeps = record { timeline = t.keeps.timeline; dropped = t.keeps.dropped };
  live = t.live;
}

note_write_tx-Counts :
    (tx : ℕ) (b : Boundary) (ts : List ℕ) (n : ℕ)
    → Counts ts n b
    → Counts (ts ++ tx ∷ []) n (note_write_tx b tx)
note_write_tx-Counts tx b ts n c = record {
  inv = note_write_tx-TxInv b tx c.inv;
  txs = λ t.
      ground (arith, contains-note_write_tx b tx t c.inv, c.txs t, contains-append ts (tx ∷ []) t);
  autos = (note_write_tx-SameRest b tx).auto_commit_writes ∙ c.autos;
}

pub tally-Counts :
    (k : StatementKind) (tx : ℕ) (b : Boundary) (ts : List ℕ) (n : ℕ)
    → Counts ts n b
    → Counts (ts ++ tx_of k tx) (n + auto_of k tx) (tally k tx b)
unfolding tally
tally-Counts StatementKind.write tx b ts n c = elim (Bool-cases (tx == 0)) [
  | inl auto ↦
      rw (auto, append-nil)
        (record {
          inv = record { slots = c.inv.slots; spilled = c.inv.spilled; distinct = c.inv.distinct };
          txs = c.txs;
          autos = omega (arith, c.autos);
        })
  | inr inside ↦ rw (inside, add-zero) (note_write_tx-Counts tx b ts n c)
]
tally-Counts _ tx b ts n c = rw (append-nil, add-zero) c

module _ {ℓ} {A : Type ℓ} where
  length-take-min : (max : ℕ) (xs : List A) → length (take max xs) ≡ min max (length xs)
  length-take-min zero xs = omega arith
  length-take-min (suc max) [] = omega arith
  length-take-min (suc max) (x ∷ xs) = omega (arith, length-take-min max xs)

  take_room :
      (max : ℕ) (xs : List A) (x : A)
      → length xs < max
      → take max (xs ++ x ∷ []) ≡ take max xs ++ x ∷ []
  take_room zero xs x h = elim h [ ]
  take_room (suc zero) [] x h = refl
  take_room (suc (suc max)) [] x h = refl
  take_room (suc max) (y ∷ xs) x h = ap (◌∷◌ y) (take_room max xs x (omega arith))

  take_full : (max : ℕ) (xs ys : List A) → max ≤ length xs → take max (xs ++ ys) ≡ take max xs
  take_full zero xs ys h = refl
  take_full (suc max) [] ys h = elim h [ ]
  take_full (suc max) (y ∷ xs) ys h = ap (◌∷◌ y) (take_full max xs ys (omega arith))

pub keep_statement-Keeps :
    (max : ℕ) (r : StatementRecord) (b : Boundary) (rs : List StatementRecord)
    → Keeps max rs b
    → Keeps max (rs ++ r ∷ []) (keep_statement max r b)
unfolding keep_statement
keep_statement-Keeps max r b rs k = elim (Bool-cases (ltb (length b.statements) max)) [
  | inl room ↦
      let short : length rs < max = omega (arith, size, ltb→lt (length b.statements) max room) in
      rw room (record {
        timeline = rw (take_room max rs r short) (ap (λ l. l ++ r ∷ []) k.timeline);
        dropped = omega (arith, k.dropped, length-append rs (r ∷ []));
      })
  | inr full ↦
      let long : max ≤ length rs = ground (arith, size) in
      rw full (record {
        timeline = rw (take_full max rs (r ∷ []) long) k.timeline;
        dropped = omega (arith, k.dropped, length-append rs (r ∷ []));
      })
]
  where
    size : length b.statements ≡ min max (length rs)
    size = ap length k.timeline ∙ length-take-min max rs

pub keep_statement-Counts :
    (max : ℕ) (r : StatementRecord) (b : Boundary) {ts : List ℕ} {n : ℕ}
    → Counts ts n b
    → Counts ts n (keep_statement max r b)
unfolding keep_statement
keep_statement-Counts max r b c = elim (Bool-cases (ltb (length b.statements) max)) [
  | inl room ↦ rw room (same-Counts b _ refl refl refl refl c)
  | inr full ↦ rw full (same-Counts b _ refl refl refl refl c)
]
