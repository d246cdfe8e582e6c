-- ===== src/Mycheck/Fits.antt =====
-- How the identities seen so far fit the state of a thread.
use go_txnproof.Prelude.{
  ℕ, ◌<◌, ◌≡◌, ◌∙◌, ap, Bool, false, ◌||◌, List, ◌∷◌, arith, Bytes, contains, bytes_eq,
  bytes_eq_iff, if◌then◌else◌,
}
use go_txnproof.Prelude.Sort.{text_mem}
use go_txnproof.Session.Units.{Span, outside, clean, dirty}
use go_txnproof.Mycheck.Labels.{tx_label, stmt_label}
use go_txnproof.Mycheck.Injective.{bytes_eq-tx_label, bytes_eq-stmt_label, bytes_eq-tx_stmt}
use go_txnproof.Mycheck.{ThreadState}

-- One more identity.
abbrev pub see : Bytes → List Bytes → List Bytes
see id seen = if text_mem seen id then seen else id ∷ seen

pub text_mem-see :
    (id : Bytes) (seen : List Bytes) (k : Bytes)
    → text_mem (see id seen) k ≡ (bytes_eq id k || text_mem seen k)
text_mem-see id seen k = ground (arith, bytes_eq_iff id k)

-- The span of a thread, where `found` says that its transaction was seen.
abbrev pub span_of : ThreadState → Bool → Span
span_of st found = if st.in_tx then (if found then dirty else clean) else outside

pub record Fits (seen : List Bytes) (u : Bytes) (st : ThreadState) (span : Span) : Type 0 where
  pub later_tx : (n : ℕ) → st.tx_seq < n → text_mem seen (tx_label u n) ≡ false
  pub later_stmt : (n : ℕ) → st.stmt_seq < n → text_mem seen (stmt_label u n) ≡ false
  pub now : span ≡ span_of st (text_mem seen (tx_label u st.tx_seq))

-- Another thread's identity changes nothing.
pub Fits-other_tx :
    (seen : List Bytes) (t u : Bytes) (m : ℕ) (st : ThreadState) (span : Span)
    → contains t b' ' ≡ false
    → contains u b' ' ≡ false
    → bytes_eq t u ≡ false
    → Fits seen u st span
    → Fits (see (tx_label t m) seen) u st span
Fits-other_tx seen t u m st span pt pu ne f = record {
  later_tx = λ n p. ground (
    arith,
    text_mem-see (tx_label t m) seen (tx_label u n),
    bytes_eq-tx_label t u pt pu m n,
    f.later_tx n p,
  );
  later_stmt = λ n p. ground (
    arith,
    text_mem-see (tx_label t m) seen (stmt_label u n),
    bytes_eq-tx_stmt t u pt pu m n,
    f.later_stmt n p,
  );
  now =
      f.now
      ∙ ap (span_of st) (
          ground (
            arith,
            text_mem-see (tx_label t m) seen (tx_label u st.tx_seq),
            bytes_eq-tx_label t u pt pu m st.tx_seq,
          ));
}

pub bytes_eq_sym : (a b : Bytes) → bytes_eq a b ≡ bytes_eq b a
bytes_eq_sym a b = ground (arith, bytes_eq_iff a b, bytes_eq_iff b a)

pub Fits-other_stmt :
    (seen : List Bytes) (t u : Bytes) (m : ℕ) (st : ThreadState) (span : Span)
    → contains t b' ' ≡ false
    → contains u b' ' ≡ false
    → bytes_eq t u ≡ false
    → Fits seen u st span
    → Fits (see (stmt_label t m) seen) u st span
Fits-other_stmt seen t u m st span pt pu ne f = record {
  later_tx = λ n p. ground (
    arith,
    text_mem-see (stmt_label t m) seen (tx_label u n),
    bytes_eq_sym (stmt_label t m) (tx_label u n),
    bytes_eq-tx_stmt u t pu pt n m,
    f.later_tx n p,
  );
  later_stmt = λ n p. ground (
    arith,
    text_mem-see (stmt_label t m) seen (stmt_label u n),
    bytes_eq-stmt_label t u pt pu m n,
    f.later_stmt n p,
  );
  now =
      f.now
      ∙ ap (span_of st) (
          ground (
            arith,
            text_mem-see (stmt_label t m) seen (tx_label u st.tx_seq),
            bytes_eq_sym (stmt_label t m) (tx_label u st.tx_seq),
            bytes_eq-tx_stmt u t pu pt st.tx_seq m,
          ));
}
