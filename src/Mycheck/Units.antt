-- ===== src/Mycheck/Units.antt =====
-- The check of a MySQL log counts the atomic units that its threads ran.
use go_txnproof.Prelude.{
  ℕ, suc, ◌+◌, ◌≡◌, refl, ap, Bool, true, false, List, [], ◌∷◌, arith, Bytes, contains, bytes_eq,
  bytes_eq_iff, length, one_of, if◌then◌else◌,
}
use go_txnproof.Prelude.Sort.{text_mem}
use go_txnproof.Classify.{StatementKind}
use go_txnproof.Session.Units.{Span, outside, clean, dirty}
use go_txnproof.Crosscheck.{LogStatement}
use go_txnproof.Crosscheck.ByIdentity.{first_txs, without}
use go_txnproof.Mycheck.Tokens.{is_implicit_commit}
use go_txnproof.Mycheck.{Entry, quit_words, executed_words}

-- The span of a thread after an executed statement, and the atomic units that begin with it. A
-- statement that commits implicitly is a unit of its own.
abbrev pub after_statement : StatementKind → Bool → Span → Span × ℕ
after_statement StatementKind.begin implicit span = (clean, 0)
after_statement StatementKind.commit implicit span = (outside, 0)
after_statement StatementKind.rollback implicit span = (outside, 0)
after_statement StatementKind.write true span = (outside, 1)
after_statement StatementKind.write false outside = (outside, 1)
after_statement StatementKind.write false clean = (dirty, 1)
after_statement StatementKind.write false dirty = (dirty, 0)
after_statement _ implicit span = ((if implicit then outside else span), 0)

abbrev pub after_entry : (Bytes → StatementKind) → Entry → Span → Span × ℕ
after_entry classify e span =
    if one_of quit_words e.command
    then (outside, 0)
    else if one_of executed_words e.command
    then after_statement (classify e.text) (is_implicit_commit e.text) span
    else (span, 0)

-- The atomic units of a log, with the span of each thread and no identities.
abbrev pub log_units : (Bytes → StatementKind) → (Bytes → Span) → List Entry → ℕ
log_units classify spans [] = 0
log_units classify spans (e ∷ es) =
    let (span, n) = after_entry classify e (spans e.thread) in
    n + log_units classify (λ k. if bytes_eq e.thread k then span else spans k) es

-- The names of threads have no blank: the server writes numbers.
abbrev pub IsPlain : List Entry → Type 0
IsPlain [] = Unit {0}
IsPlain (e ∷ es) = (contains e.thread b' ' ≡ false) × IsPlain es

-- The identities that were not seen before, each counted once.
abbrev pub count_new : List Bytes → List LogStatement → ℕ
count_new seen [] = 0
count_new seen (st ∷ sts) =
    let old = count_new seen sts in
    let new = suc (count_new (st.tx_id ∷ seen) sts) in if text_mem seen st.tx_id then old else new

abbrev pub unseen : List Bytes → List Bytes → List Bytes
unseen seen [] = []
unseen seen (k ∷ ks) = if text_mem seen k then unseen seen ks else k ∷ unseen seen ks

unseen-seen :
    (seen : List Bytes) (k : Bytes) (ks : List Bytes)
    → text_mem seen k ≡ true
    → unseen seen (without k ks) ≡ unseen seen ks
unseen-seen seen k [] h = refl
unseen-seen seen k (j ∷ ks) h = ground (arith, bytes_eq_iff k j, unseen-seen seen k ks h)

unseen-cons :
    (seen : List Bytes) (k : Bytes) (ks : List Bytes)
    → unseen (k ∷ seen) ks ≡ unseen seen (without k ks)
unseen-cons seen k [] = refl
unseen-cons seen k (j ∷ ks) = ground (arith, bytes_eq_iff k j, unseen-cons seen k ks)

pub count_new-unseen :
    (sts : List LogStatement) (seen : List Bytes)
    → length (unseen seen (first_txs sts)) ≡ count_new seen sts
count_new-unseen [] seen = refl
count_new-unseen (st ∷ sts) seen = ground (
  arith,
  unseen-seen seen st.tx_id (first_txs sts),
  unseen-cons seen st.tx_id (first_txs sts),
  count_new-unseen sts seen,
  count_new-unseen sts (st.tx_id ∷ seen),
)

pub unseen-nil : (ks : List Bytes) → unseen [] ks ≡ ks
unseen-nil [] = refl
unseen-nil (k ∷ ks) = ap (◌∷◌ k) (unseen-nil ks)
