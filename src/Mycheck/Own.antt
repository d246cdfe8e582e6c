-- ===== src/Mycheck/Own.antt =====
-- How the state of a thread fits after a statement of its own.
use go_txnproof.Prelude.{
  ◌+◌, ◌≡◌, refl, ◌∙◌, sym, ap, true, false, List, arith, Bytes, contains, bytes_eq_iff,
  if◌then◌else◌,
}
use go_txnproof.Prelude.Sort.{text_mem}
use go_txnproof.Session.Units.{Span, outside, clean, dirty}
use go_txnproof.Mycheck.Labels.{tx_label, stmt_label}
use go_txnproof.Mycheck.Injective.{bytes_eq-tx_label, bytes_eq-stmt_label, bytes_eq-tx_stmt}
use go_txnproof.Mycheck.{ThreadState}
use go_txnproof.Mycheck.Fits.{see, text_mem-see, Fits, bytes_eq_sym}

-- The state behind the count of a statement.
abbrev pub stepped : ThreadState → ThreadState
stepped st = record st { stmt_seq = st.stmt_seq + 1 }

module _ (seen : List Bytes) (t : Bytes) (st : ThreadState) (span : Span)
    (f : Fits seen t st span) where
  pub Fits-quiet : Fits seen t (stepped st) span
  Fits-quiet = record {
    later_tx = f.later_tx;
    later_stmt = λ n p. f.later_stmt n (omega (arith, p));
    now = f.now;
  }

  pub Fits-end : Fits seen t (record (stepped st) { in_tx = false }) outside
  Fits-end = record {
    later_tx = f.later_tx;
    later_stmt = λ n p. f.later_stmt n (omega (arith, p));
    now = refl;
  }

  pub Fits-quit : Fits seen t (record st { in_tx = false }) outside
  Fits-quit = record { later_tx = f.later_tx; later_stmt = f.later_stmt; now = refl }

  pub Fits-begin : Fits seen t (record (stepped st) { tx_seq = st.tx_seq + 1; in_tx = true }) clean
  Fits-begin = record {
    later_tx = λ n p. f.later_tx n (omega (arith, p));
    later_stmt = λ n p. f.later_stmt n (omega (arith, p));
    now = ap (λ b. if b then dirty else clean) (sym (f.later_tx (st.tx_seq + 1) (omega arith)));
  }

  pub Fits-own_stmt :
      contains t b' ' ≡ false
      → Fits
          (see (stmt_label t (st.stmt_seq + 1)) seen)
          t
          (record (stepped st) { in_tx = false })
          outside
  Fits-own_stmt plain =
      let id = stmt_label t (st.stmt_seq + 1) in
      record {
        later_tx = λ n p. ground (
          arith,
          text_mem-see id seen (tx_label t n),
          bytes_eq_sym id (tx_label t n),
          bytes_eq-tx_stmt t t plain plain n (st.stmt_seq + 1),
          f.later_tx n p,
        );
        later_stmt = λ n p. ground (
          arith,
          text_mem-see id seen (stmt_label t n),
          bytes_eq-stmt_label t t plain plain (st.stmt_seq + 1) n,
          f.later_stmt n (omega (arith, p)),
        );
        now = refl;
      }

  pub Fits-own_tx :
      contains t b' ' ≡ false
      → Fits (see (tx_label t st.tx_seq) seen) t (record (stepped st) { in_tx = true }) dirty
  Fits-own_tx plain =
      let id = tx_label t st.tx_seq in
      let here : text_mem (see id seen) id ≡ true =
        text_mem-see id seen id ∙ ground (arith, bytes_eq_iff id id) in
      record {
        later_tx = λ n p. ground (
          arith,
          text_mem-see id seen (tx_label t n),
          bytes_eq-tx_label t t plain plain st.tx_seq n,
          f.later_tx n p,
        );
        later_stmt = λ n p. ground (
          arith,
          text_mem-see id seen (stmt_label t n),
          bytes_eq-tx_stmt t t plain plain st.tx_seq n,
          f.later_stmt n (omega (arith, p)),
        );
        now = ap (λ b. if b then dirty else clean) (sym here);
      }
