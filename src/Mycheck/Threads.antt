-- ===== src/Mycheck/Threads.antt =====
-- `reconstruct` treats each thread by itself, and gives every statement an identity.
use go_txnproof.Prelude.{
  ◌+◌, ◌≡◌, refl, ◌∙◌, sym, ap, Bool, true, false, not, ◌&&◌, List, [], ◌∷◌, Option, none, some,
  arith, Bytes, bytes_eq, bytes_eq_iff, one_of, if◌then◌else◌, Bool-cases, inl, inr,
}
use go_txnproof.Prelude.Dict.{Dict, lookup, insert, lookup-insert}
use go_txnproof.Classify.{StatementKind}
use go_txnproof.Crosscheck.{LogStatement, reported, missing_tx_id, check}
use go_txnproof.Crosscheck.ByIdentity.{writes, first_missing}
use go_txnproof.Crosscheck.Grouping.{report_on, check_exact}
use go_txnproof.Mycheck.Tokens.{is_implicit_commit}
use go_txnproof.Mycheck.Labels.{tx_label, stmt_label}
use go_txnproof.Mycheck.{
  Entry, ThreadState, new_thread, state_of, label_other, label_end, label_kind, quit_words,
  executed_words, replay, put_statement, reconstruct_from, reconstruct,
}

-- Whether an entry carries an executed statement.
abbrev pub is_executed : Entry → Bool
is_executed e = not (one_of quit_words e.command) && one_of executed_words e.command

-- One thread alone: its state and the entries, those of other threads passed over.
abbrev pub thread_run :
    (Bytes → StatementKind) → Bytes → ThreadState → List Entry → List LogStatement
thread_run classify t st [] = []
thread_run classify t st (e ∷ es) =
    let (st', o) = replay classify st e in
    let mine = put_statement o (thread_run classify t st' es) in
    let others = thread_run classify t st es in if bytes_eq e.thread t then mine else others

abbrev pick : Bytes → Bytes → LogStatement → List LogStatement → List LogStatement
pick t thread st sts = if bytes_eq thread t then st ∷ sts else sts

-- Of the statements that the entries gave, one for each that was executed, those of one thread.
abbrev pub of_thread : Bytes → List Entry → List LogStatement → List LogStatement
of_thread t [] sts = []
of_thread t (e ∷ es) [] = []
of_thread t (e ∷ es) (st ∷ sts) =
    let taken = pick t e.thread st (of_thread t es sts) in
    let passed = of_thread t es (st ∷ sts) in if is_executed e then taken else passed

of_thread-nil : (t : Bytes) (es : List Entry) → of_thread t es [] ≡ []
of_thread-nil t [] = refl
of_thread-nil t (e ∷ es) = refl

abbrev statement_of : (Bytes → StatementKind) → ThreadState → Entry → LogStatement
statement_of classify st e = record {
  sql = e.text;
  kind = classify e.text;
  tx_id =
      (label_kind (classify e.text) (is_implicit_commit e.text) e.thread
        (record st { stmt_seq = st.stmt_seq + 1 })).1;
  line = e.line;
}

replay-executed :
    (classify : Bytes → StatementKind) (st : ThreadState) (e : Entry)
    → is_executed e ≡ true
    → (replay classify st e).1 ≡ some (statement_of classify st e)
unfolding replay
replay-executed classify st e h = ground arith

replay-silent :
    (classify : Bytes → StatementKind) (st : ThreadState) (e : Entry)
    → is_executed e ≡ false
    → (replay classify st e).1 ≡ none
unfolding replay
replay-silent classify st e h = ground arith

of_thread-silent :
    (t : Bytes) (e : Entry) (es : List Entry) (sts : List LogStatement)
    → is_executed e ≡ false
    → of_thread t (e ∷ es) sts ≡ of_thread t es sts
of_thread-silent t e es [] h = sym (of_thread-nil t es)
of_thread-silent t e es (st ∷ sts) h = rw h refl

-- One entry, with the statement that it gave.
of_thread-replay :
    (classify : Bytes → StatementKind) (st : ThreadState) (t : Bytes) (e : Entry) (es : List Entry)
    (sts : List LogStatement)
    → let o = (replay classify st e).1 in
      of_thread t (e ∷ es) (put_statement o sts)
      ≡ (if bytes_eq e.thread t then put_statement o (of_thread t es sts) else of_thread t es sts)
unfolding put_statement
of_thread-replay classify st t e es sts = elim (Bool-cases (is_executed e)) [
  | inl ran ↦ rw (replay-executed classify st e ran, ran) refl
  | inr silent ↦
      rw (replay-silent classify st e silent) (of_thread-silent t e es sts silent ∙ ground arith)
]

pub state_after :
    (m : Dict ThreadState) (thread t : Bytes) (st : ThreadState)
    → state_of (lookup (insert m thread st) t)
      ≡ (if bytes_eq thread t then st else state_of (lookup m t))
unfolding state_of
state_after m thread t st = ground (arith, lookup-insert m thread t st)

same_state :
    (m : Dict ThreadState) (thread t : Bytes)
    → bytes_eq thread t ≡ true
    → state_of (lookup m thread) ≡ state_of (lookup m t)
same_state m thread t h = ap (λ k. state_of (lookup m k)) ((bytes_eq_iff thread t).0 h)

of_thread-reconstruct_from :
    (classify : Bytes → StatementKind) (t : Bytes) (es : List Entry) (m : Dict ThreadState)
    → of_thread t es (reconstruct_from classify m es)
      ≡ thread_run classify t (state_of (lookup m t)) es
unfolding reconstruct_from
of_thread-reconstruct_from classify t [] m = refl
of_thread-reconstruct_from classify t (e ∷ es) m =
    let st = state_of (lookup m e.thread) in
    let r = replay classify st e in
    let ih =
      of_thread-reconstruct_from classify t es (insert m e.thread r.0)
      ∙ ap (λ s. thread_run classify t s es) (state_after m e.thread t r.0) in
    of_thread-replay classify st t e es _ ∙ elim (Bool-cases (bytes_eq e.thread t)) [
      | inl mine ↦ rw mine (
          ap (put_statement r.1) ih
          ∙ ap
              (λ b.
                put_statement r.1
                  (thread_run classify t (if b then r.0 else state_of (lookup m t)) es))
              mine
          ∙ ap
              (λ s.
                put_statement (replay classify s e).1
                  (thread_run classify t (replay classify s e).0 es))
              (same_state m e.thread t mine))
      | inr other ↦
          rw other (
            ih
            ∙ ap (λ b. thread_run classify t (if b then r.0 else state_of (lookup m t)) es) other)
    ]

-- Of the statements of a log, those of one thread are what a run of that thread's entries alone
-- gives, with its own transactions and its own numbers: however the entries of other threads stand
-- between them.
pub of_thread-reconstruct :
    (classify : Bytes → StatementKind) (t : Bytes) (es : List Entry)
    → of_thread t es (reconstruct classify es) ≡ thread_run classify t new_thread es
unfolding reconstruct lookup state_of
of_thread-reconstruct classify t es = of_thread-reconstruct_from classify t es []

label_kind_named :
    (k : StatementKind) (implicit : Bool) (thread : Bytes) (st : ThreadState)
    → bytes_eq (label_kind k implicit thread st).1 [] ≡ false
unfolding label_kind label_other label_end tx_label stmt_label bytes_eq
label_kind_named StatementKind.begin implicit thread st = refl
label_kind_named StatementKind.commit implicit thread st = ground arith
label_kind_named StatementKind.rollback implicit thread st = ground arith
label_kind_named _ implicit thread st = ground arith

put_statement-named :
    (classify : Bytes → StatementKind) (st : ThreadState) (e : Entry) (sts : List LogStatement)
    → first_missing (writes sts) ≡ none
    → first_missing (writes (put_statement (replay classify st e).1 sts)) ≡ none
unfolding put_statement
put_statement-named classify st e sts h =
    let named =
      label_kind_named (classify e.text) (is_implicit_commit e.text) e.thread
        (record st { stmt_seq = st.stmt_seq + 1 }) in
    elim (Bool-cases (is_executed e)) [
      | inl ran ↦ rw (replay-executed classify st e ran) (ground (arith, named))
      | inr silent ↦ rw (replay-silent classify st e silent) h
    ]

pub reconstruct_from-named :
    (classify : Bytes → StatementKind) (es : List Entry) (m : Dict ThreadState)
    → first_missing (writes (reconstruct_from classify m es)) ≡ none
unfolding reconstruct_from
reconstruct_from-named classify [] m = refl
reconstruct_from-named classify (e ∷ es) m =
    put_statement-named classify (state_of (lookup m e.thread)) e _
      (reconstruct_from-named classify es _)

-- The check of the statements of a MySQL log always gives a report: it never fails for want of an
-- identity, whatever the classifier.
pub check-reconstruct :
    (classify : Bytes → StatementKind) (es : List Entry)
    → check (reconstruct classify es) ≡ reported (report_on (writes (reconstruct classify es)))
unfolding reconstruct
check-reconstruct classify es =
    let sts = reconstruct_from classify [] es in
    check_exact sts
    ∙ ap
        (λ (o : Option LogStatement). elim o [
          | none ↦ reported (report_on (writes sts))
          | some st ↦ missing_tx_id st
        ])
        (reconstruct_from-named classify es [])
