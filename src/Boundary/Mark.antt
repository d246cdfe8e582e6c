-- ===== src/Boundary/Mark.antt =====
-- What statements leave alone: the name, the parent, the attributes and the mark of a boundary.
use go_txnproof.Prelude.{ℕ, ◌≡◌, refl, ◌∙◌, List, [], ◌∷◌, arith}
use go_txnproof.Classify.{StatementKind}
use go_txnproof.Report.{StatementRecord}
use go_txnproof.Boundary.{Boundary, tally, keep_statement, record_in}
use go_txnproof.Boundary.WriteTx.{note_write_tx-SameRest}
use go_txnproof.Boundary.Units.{record_all}

pub record SameMark (b c : Boundary) : Type 0 where
  pub parent : c.parent ≡ b.parent
  pub name : c.name ≡ b.name
  pub attrs : c.attrs ≡ b.attrs
  pub allowed : c.allowed ≡ b.allowed
  pub allow_reason : c.allow_reason ≡ b.allow_reason
  pub allow_units : c.allow_units ≡ b.allow_units

SameMark-refl : (b : Boundary) → SameMark b b
SameMark-refl b = record {
  parent = refl;
  name = refl;
  attrs = refl;
  allowed = refl;
  allow_reason = refl;
  allow_units = refl;
}

SameMark-trans : {a b c : Boundary} → SameMark a b → SameMark b c → SameMark a c
SameMark-trans s t = record {
  parent = t.parent ∙ s.parent;
  name = t.name ∙ s.name;
  attrs = t.attrs ∙ s.attrs;
  allowed = t.allowed ∙ s.allowed;
  allow_reason = t.allow_reason ∙ s.allow_reason;
  allow_units = t.allow_units ∙ s.allow_units;
}

keep_statement-SameMark :
    (max : ℕ) (r : StatementRecord) (b : Boundary) → SameMark b (keep_statement max r b)
unfolding keep_statement
keep_statement-SameMark max r b = ground arith

tally-SameMark : (k : StatementKind) (tx : ℕ) (b : Boundary) → SameMark b (tally k tx b)
unfolding tally
tally-SameMark StatementKind.write tx b = ground (arith, note_write_tx-SameRest b tx)
tally-SameMark _ tx b = SameMark-refl b

pub record_in-SameMark :
    (max : ℕ) (r : StatementRecord) (b : Boundary) → SameMark b (record_in max r b)
unfolding record_in
record_in-SameMark max r b = ground (
  arith,
  SameMark-refl b,
  SameMark-trans (keep_statement-SameMark max r b)
      (tally-SameMark r.kind r.tx_id (keep_statement max r b)),
)

pub record_all-SameMark :
    (max : ℕ) (rs : List StatementRecord) (b : Boundary) → SameMark b (record_all max rs b)
record_all-SameMark max [] b = SameMark-refl b
record_all-SameMark max (r ∷ rs) b =
    SameMark-trans (record_in-SameMark max r b) (record_all-SameMark max rs (record_in max r b))
