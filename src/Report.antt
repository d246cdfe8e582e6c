-- ===== src/Report.antt =====
-- reporter.go and attrs.go: what a boundary records and what is reported, and the interfaces of
-- the receivers.
use go_txnproof.Prelude.{ℕ, List, [], ◌∷◌, Option, none, some, Bytes, ◌≡◌, refl}
use go_txnproof.Classify.{StatementKind}

-- `Value any` is never looked into: a number stands for the value.
pub record BoundaryAttr : Type 0 where
  pub key : Bytes
  pub value : ℕ

-- `tx_id` 0 is auto-commit. A time is a count of nanoseconds.
pub record StatementRecord : Type 0 where
  pub query : Bytes
  pub kind : StatementKind
  pub tx_id : ℕ
  pub time : ℕ
  pub attrs : List BoundaryAttr

pub record Violation : Type 0 where
  pub boundary : Bytes
  pub write_units : ℕ
  pub statements : List StatementRecord
  pub truncated_statements : ℕ
  pub allowed_write_units : List ℕ
  pub attrs : List BoundaryAttr

pub record NestedBoundary : Type 0 where
  pub outer : Bytes
  pub inner : Bytes
  pub time : ℕ

pub record StaleAllow : Type 0 where
  pub boundary : Bytes
  pub reason : Bytes
  pub write_units : ℕ

-- A `context.Context`: the root, a node with another value, or a boundary (which is its own node)
-- over its parent. A boundary is named by its address.
pub data Context : Type 0 where
  background : Context
  with_value : ℕ → ℕ → Context → Context
  boundary_node : ℕ → Context → Context

-- ctx.Value(boundaryCtxKey{}): the innermost boundary. No other package can make that key.
unfoldable pub boundary_of : Context → Option ℕ
boundary_of background = none
boundary_of (with_value k v ctx) = boundary_of ctx
boundary_of (boundary_node i parent) = some i

-- A `Reporter` is a method on the state `S` of all receivers. The optional interfaces that a type
-- assertion may find are there or not.
pub record Reporter (S : Type 0) : Type 0 where
  pub report : Context → Violation → S → S
  pub report_unbounded_write : Option (Context → StatementRecord → S → S)
  pub report_stale_allow : Option (Context → StaleAllow → S → S)
  pub report_nested_boundary : Option (Context → NestedBoundary → S → S)

-- `if x, ok := r.(I); ok { x.M(ctx, v) }`
unfoldable pub if_present : {S R : Type 0} → Option (Context → R → S → S) → Context → R → S → S
if_present none ctx r s = s
if_present (some m) ctx r s = m ctx r s

-- The loops over `d.reporters`, one for each method.
module _ {S : Type 0} where
  unfoldable pub report_all : List (Reporter S) → Context → Violation → S → S
  report_all [] ctx v s = s
  report_all (r ∷ rs) ctx v s = report_all rs ctx v (r.report ctx v s)

  unfoldable pub unbounded_all : List (Reporter S) → Context → StatementRecord → S → S
  unbounded_all [] ctx v s = s
  unbounded_all (r ∷ rs) ctx v s =
      unbounded_all rs ctx v (if_present r.report_unbounded_write ctx v s)

  unfoldable pub stale_all : List (Reporter S) → Context → StaleAllow → S → S
  stale_all [] ctx v s = s
  stale_all (r ∷ rs) ctx v s = stale_all rs ctx v (if_present r.report_stale_allow ctx v s)

  unfoldable pub nested_all : List (Reporter S) → Context → NestedBoundary → S → S
  nested_all [] ctx v s = s
  nested_all (r ∷ rs) ctx v s = nested_all rs ctx v (if_present r.report_nested_boundary ctx v s)

-- The fields of one receiver in the state of all: its address, with the law of a variable.
pub record Cell (S A : Type 0) : Type 0 where
  pub get : S → A
  pub put : A → S → S
  pub get-put : (a : A) (s : S) → get (put a s) ≡ a

-- A receiver with a field of its own, in front of one with the state `T`.
abbrev pub first_cell : {A T : Type 0} → Cell (A × T) A
first_cell = record { get = λ s. s.0; put = λ a s. (a, s.1); get-put = λ a s. refl }

abbrev pub second_present :
    {A T R : Type 0} → Option (Context → R → T → T) → Option (Context → R → A × T → A × T)
second_present none = none
second_present (some m) = some (λ ctx r s. (s.0, m ctx r s.1))

abbrev pub on_second : {A T : Type 0} → Reporter T → Reporter (A × T)
on_second r = record {
  report = λ ctx v s. (s.0, r.report ctx v s.1);
  report_unbounded_write = second_present r.report_unbounded_write;
  report_stale_allow = second_present r.report_stale_allow;
  report_nested_boundary = second_present r.report_nested_boundary;
}
