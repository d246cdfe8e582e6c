-- ===== src/Mycheck/Counts.antt =====
-- What one entry of a MySQL log does to the identities seen and to the count of units.
use go_txnproof.Prelude.{
  ◌+◌, ◌≡◌, refl, sym, subst, ap, Bool, true, false, List, ◌∷◌, arith, Bytes, contains, bytes_eq,
  one_of, if◌then◌else◌, Bool-cases, inl, inr,
}
use go_txnproof.Prelude.Sort.{text_mem}
use go_txnproof.Classify.{StatementKind, write}
use go_txnproof.Detector.{is_write}
use go_txnproof.Session.Units.{Span, outside, clean, dirty}
use go_txnproof.Crosscheck.{LogStatement}
use go_txnproof.Crosscheck.ByIdentity.{writes}
use go_txnproof.Mycheck.Tokens.{is_implicit_commit}
use go_txnproof.Mycheck.Labels.{tx_label, stmt_label}
use go_txnproof.Mycheck.{
  Entry, ThreadState, label_other, label_end, label_kind, quit_words, executed_words, replay,
  put_statement,
}
use go_txnproof.Mycheck.Units.{after_statement, after_entry, count_new}
use go_txnproof.Mycheck.Fits.{see, Fits, Fits-other_tx, Fits-other_stmt}
use go_txnproof.Mycheck.Own.{
  stepped, Fits-quiet, Fits-end, Fits-quit, Fits-begin, Fits-own_stmt, Fits-own_tx,
}

-- The identities after a statement of the thread `t`, which leaves the others as they were.
pub record Advances (seen seen' : List Bytes) (t : Bytes) (st : ThreadState) (span : Span)
    : Type 0 where
  pub own : Fits seen' t st span
  pub others :
      (u : Bytes) (s : ThreadState) (sp : Span)
      → contains u b' ' ≡ false
      → bytes_eq t u ≡ false
      → Fits seen u s sp
      → Fits seen' u s sp

same_seen :
    (seen : List Bytes) (t : Bytes) (st : ThreadState) (span : Span)
    → Fits seen t st span
    → Advances seen seen t st span
same_seen seen t st span f = record { own = f; others = λ u s sp p ne g. g }

count_new-see :
    (seen : List Bytes) (x : LogStatement) (sts : List LogStatement)
    → count_new seen (x ∷ sts)
      ≡ (if text_mem seen x.tx_id then 0 else 1) + count_new (see x.tx_id seen) sts
count_new-see seen x sts = ground arith

-- What one executed statement does to the identities and to the count.
abbrev Step : List Bytes → Bytes → ThreadState → Span → StatementKind → Bool → Type 0
Step seen t st span k implicit =
    let (st', id) = label_kind k implicit t (stepped st) in
    let (span', n) = after_statement k implicit span in
    (seen' : List Bytes) × Advances seen seen' t st' span'
    × ((x : LogStatement) (sts : List LogStatement)
        → x.kind ≡ k
        → x.tx_id ≡ id
        → count_new seen (writes (x ∷ sts)) ≡ n + count_new seen' (writes sts))

module _ (seen : List Bytes) (t : Bytes) (st : ThreadState) (span : Span)
    (plain : contains t b' ' ≡ false) (f : Fits seen t st span) where
  -- A write that is a unit of its own.
  own_write :
      (x : LogStatement) (sts : List LogStatement)
      → x.kind ≡ write
      → x.tx_id ≡ stmt_label t (st.stmt_seq + 1)
      → count_new seen (writes (x ∷ sts))
        ≡ 1 + count_new (see (stmt_label t (st.stmt_seq + 1)) seen) (writes sts)
  own_write x sts k id =
      ground
        (arith, count_new-see seen x (writes sts), f.later_stmt (st.stmt_seq + 1) (omega arith))

  tx_write :
      (found : Bool)
      → text_mem seen (tx_label t st.tx_seq) ≡ found
      → (x : LogStatement) (sts : List LogStatement) → x.kind ≡ write
      → x.tx_id ≡ tx_label t st.tx_seq
      → count_new seen (writes (x ∷ sts))
        ≡ (if found then 0 else 1) + count_new (see (tx_label t st.tx_seq) seen) (writes sts)
  tx_write found h x sts k id = ground (arith, count_new-see seen x (writes sts))

  alone :
      Advances seen
        (see (stmt_label t (st.stmt_seq + 1)) seen)
        t
        (record (stepped st) { in_tx = false })
        outside
  alone = record {
    own = Fits-own_stmt seen t st span f plain;
    others = λ u s sp p ne g. Fits-other_stmt seen t u (st.stmt_seq + 1) s sp plain p ne g;
  }

  joined :
      Advances seen (see (tx_label t st.tx_seq) seen) t (record (stepped st) { in_tx = true }) dirty
  joined = record {
    own = Fits-own_tx seen t st span f plain;
    others = λ u s sp p ne g. Fits-other_tx seen t u st.tx_seq s sp plain p ne g;
  }

  write_Step : Step seen t st span write false
  unfolding label_kind label_other
  write_Step = elim (Bool-cases st.in_tx) [
    | inr idle ↦ rw (f.now, idle) (_, alone, own_write)
    | inl inside ↦ elim (Bool-cases (text_mem seen (tx_label t st.tx_seq))) [
      | inl found ↦ rw (f.now, inside, found) (_, joined, tx_write true found)
      | inr missing ↦ rw (f.now, inside, missing) (_, joined, tx_write false missing)
    ]
  ]

  no_write :
      (x : LogStatement) (sts : List LogStatement)
      → is_write x.kind ≡ false
      → count_new seen (writes (x ∷ sts)) ≡ 0 + count_new seen (writes sts)
  no_write x sts k = ground arith

  ended_Advances : Advances seen seen t (label_end t (stepped st)).0 outside
  unfolding label_end
  ended_Advances = elim (Bool-cases st.in_tx) [
    | inl inside ↦ rw inside (same_seen seen t _ outside (Fits-end seen t st span f))
    | inr idle ↦ rw idle (same_seen seen t _ outside (Fits-end seen t st span f))
  ]

  other_state :
      (b : Bool) (x y : ThreadState × Bytes)
      → x.0 ≡ stepped st
      → y.0 ≡ stepped st
      → (if b then x else y).0 ≡ stepped st
  other_state true x y h g = h
  other_state false x y h g = g

  other_Advances :
      (implicit : Bool)
      → Advances seen seen t
          (label_other implicit t (stepped st)).0
          (if implicit then outside else span)
  unfolding label_other
  other_Advances true = same_seen seen t _ outside (Fits-end seen t st span f)
  other_Advances false =
      subst (λ s. Advances seen seen t s span) (sym (other_state st.in_tx _ _ refl refl))
        (same_seen seen t (stepped st) span (Fits-quiet seen t st span f))

  statement_Step : (k : StatementKind) (implicit : Bool) → Step seen t st span k implicit
  unfolding label_kind
  statement_Step StatementKind.begin implicit = (
    seen,
    same_seen seen t _ clean (Fits-begin seen t st span f),
    λ x sts k id. no_write x sts (ap is_write k),
  )
  statement_Step StatementKind.commit implicit =
      (seen, ended_Advances, λ x sts k id. no_write x sts (ap is_write k))
  statement_Step StatementKind.rollback implicit =
      (seen, ended_Advances, λ x sts k id. no_write x sts (ap is_write k))
  statement_Step StatementKind.write true = (
    see (stmt_label t (st.stmt_seq + 1)) seen,
    (unfold label_other in alone),
    (unfold label_other in own_write),
  )
  statement_Step StatementKind.write false = write_Step
  statement_Step StatementKind.other implicit =
      (seen, other_Advances implicit, λ x sts k id. no_write x sts (ap is_write k))
  statement_Step StatementKind.read implicit =
      (seen, other_Advances implicit, λ x sts k id. no_write x sts (ap is_write k))

  -- One entry of the thread.
  abbrev pub EntryStep : (Bytes → StatementKind) → Entry → Type 0
  EntryStep classify e =
      let (st', o) = replay classify st e in
      let (span', n) = after_entry classify e span in
      (seen' : List Bytes) × Advances seen seen' t st' span'
      × ((sts : List LogStatement)
          → count_new seen (writes (put_statement o sts)) ≡ n + count_new seen' (writes sts))

  pub entry_step :
      (classify : Bytes → StatementKind) (e : Entry) → e.thread ≡ t → EntryStep classify e
  unfolding replay put_statement
  entry_step classify e same = elim (Bool-cases (one_of quit_words e.command)) [
    | inl quit ↦
        rw quit (seen, same_seen seen t _ outside (Fits-quit seen t st span f), λ sts. omega arith)
    | inr going ↦ elim (Bool-cases (one_of executed_words e.command)) [
      | inr silent ↦ rw (going, silent) (seen, same_seen seen t st span f, λ sts. omega arith)
      | inl ran ↦
          let (seen', adv, count) = statement_Step (classify e.text) (is_implicit_commit e.text) in
          rw (going, ran, same) (seen', adv, λ sts. count _ sts refl refl)
    ]
  ]
