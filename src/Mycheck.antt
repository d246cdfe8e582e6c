-- ===== src/Mycheck.antt =====
-- mycheck/parse.go, mycheck/mycheck.go: the statements of a MySQL general log, with a transaction
-- identity made up for each from what its thread did before. The reading of the log's lines by
-- regular expressions is not modelled: entries are the input.
pub mod Tokens
pub mod Labels
pub mod Injective
pub mod Threads
pub mod Units
pub mod Fits
pub mod Own
pub mod Counts
pub mod Atomic
pub mod Parse
pub mod Rendered
pub mod FileLines
pub mod RoundTrip
pub mod EndToEnd
use go_txnproof.Prelude.{
  ℕ, suc, ◌+◌, Bool, true, false, not, ◌&&◌, ◌||◌, List, [], ◌∷◌, ◌++◌, Option, none, some, Bytes,
  codes, bytes_eq, one_of, if◌then◌else◌,
}
use go_txnproof.Prelude.Dict.{Dict, lookup, insert}
use go_txnproof.Classify.{StatementKind}
use go_txnproof.Crosscheck.{LogStatement, Verified, verify_statements}
use go_txnproof.Mycheck.Tokens.{first_token, contains_token, is_implicit_commit}
use go_txnproof.Mycheck.Labels.{tx_label, stmt_label}

-- `entry`
pub record Entry : Type 0 where
  pub thread : Bytes
  pub command : Bytes
  pub text : Bytes
  pub line : ℕ

-- `threadState`
pub record ThreadState : Type 0 where
  pub in_tx : Bool
  pub tx_seq : ℕ
  pub stmt_seq : ℕ

abbrev pub new_thread : ThreadState
new_thread = record { in_tx = false; tx_seq = 0; stmt_seq = 0 }

-- The state of a thread, or a new one where the map has none.
unfoldable pub state_of : Option ThreadState → ThreadState
state_of none = new_thread
state_of (some st) = st

-- The `default` of the switch on the kind.
unfoldable pub label_other : Bool → Bytes → ThreadState → ThreadState × Bytes
label_other implicit thread st =
    if implicit
    then (record st { in_tx = false }, stmt_label thread st.stmt_seq)
    else if st.in_tx
    then (st, tx_label thread st.tx_seq)
    else (st, stmt_label thread st.stmt_seq)

-- The end of a transaction, or a statement of its own where there is none.
unfoldable pub label_end : Bytes → ThreadState → ThreadState × Bytes
label_end thread st =
    if st.in_tx
    then (record st { in_tx = false }, tx_label thread st.tx_seq)
    else (st, stmt_label thread st.stmt_seq)

-- The switch on the kind of an executed statement: the state and the identity.
unfoldable pub label_kind : StatementKind → Bool → Bytes → ThreadState → ThreadState × Bytes
label_kind StatementKind.begin implicit thread st =
    (record st { tx_seq = st.tx_seq + 1; in_tx = true }, tx_label thread (st.tx_seq + 1))
label_kind StatementKind.commit implicit thread st = label_end thread st
label_kind StatementKind.rollback implicit thread st = label_end thread st
label_kind _ implicit thread st = label_other implicit thread st

abbrev pub quit_words : List Bytes
quit_words = codes "Quit" ∷ []

abbrev pub executed_words : List Bytes
executed_words = codes "Query" ∷ codes "Execute" ∷ []

-- One entry on the state of its thread: the state behind it, and the statement, if it is one.
unfoldable pub replay :
    (Bytes → StatementKind) → ThreadState → Entry → ThreadState × Option LogStatement
replay classify st e =
    let kind = classify e.text in
    let (st', tx_id) =
      label_kind kind (is_implicit_commit e.text) e.thread
        (record st { stmt_seq = st.stmt_seq + 1 }) in
    if one_of quit_words e.command
    then (record st { in_tx = false }, none)
    else if one_of executed_words e.command
    then (st', some (record { sql = e.text; kind = kind; tx_id = tx_id; line = e.line }))
    else (st, none)

-- `append(stmts, …)` where there is a statement.
unfoldable pub put_statement : Option LogStatement → List LogStatement → List LogStatement
put_statement none sts = sts
put_statement (some st) sts = st ∷ sts

-- The loop of `reconstruct`.
unfoldable pub reconstruct_from :
    (Bytes → StatementKind) → Dict ThreadState → List Entry → List LogStatement
reconstruct_from classify states [] = []
reconstruct_from classify states (e ∷ es) =
    let (st, o) = replay classify (state_of (lookup states e.thread)) e in
    put_statement o (reconstruct_from classify (insert states e.thread st) es)

-- `reconstruct`
unfoldable pub reconstruct : (Bytes → StatementKind) → List Entry → List LogStatement
reconstruct classify es = reconstruct_from classify [] es

-- The loop of `rejectAutocommitChange`: the statement that it fails on.
unfoldable pub reject_autocommit_change : List LogStatement → Option LogStatement
reject_autocommit_change [] = none
reject_autocommit_change (st ∷ sts) =
    let rest = reject_autocommit_change sts in
    if not (bytes_eq (first_token st.sql) (codes "SET"))
      || not (contains_token st.sql (codes "AUTOCOMMIT"))
    then rest
    else some st

-- What `verifyStatements` returns: the error on an autocommit change, or the verdict of crosscheck.
pub data LogVerdict : Type 0 where
  autocommit_changed : LogStatement → LogVerdict
  verified : Verified → LogVerdict

unfoldable pub verify_unless : Option LogStatement → List LogStatement → LogVerdict
verify_unless none sts = verified (verify_statements sts)
verify_unless (some st) sts = autocommit_changed st

-- `verifyStatements`
unfoldable pub verify_log : List LogStatement → LogVerdict
verify_log sts = verify_unless (reject_autocommit_change sts) sts
