-- ===== src/Classify/Buffer.antt =====
-- The eight-byte buffer is long enough for every keyword.
use go_txnproof.Prelude.{
  ◌≤◌, ◌<◌, ◌≡◌, refl, ap, inl, inr, true, false, List, [], ◌∷◌, arith, Bytes, codes, ltb, length,
  bytes_eq, bytes_eq_iff, one_of, Bool-cases,
}
use go_txnproof.Classify.{
  other, read_words, write_words, begin_words, commit_words, rollback_words, cte_write_words,
  max_keyword_len, ascii_upper_bytes, ascii_upper_token, leading_token, is_cte_write, keyword_kind,
  classify_word, default_classifier,
}
use go_txnproof.Classify.Letters.{length-ascii_upper_bytes}

abbrev AllShort : List Bytes → Type 0
AllShort [] = Unit {0}
AllShort (w ∷ ws) = (length w ≤ max_keyword_len) × AllShort ws

one_of-long :
    (ws : List Bytes) (s : Bytes) → AllShort ws → max_keyword_len < length s → one_of ws s ≡ false
unfolding one_of
one_of-long [] s a h = refl
one_of-long (w ∷ ws) s a h = elim (Bool-cases (bytes_eq s w)) [
  | inl same ↦ absurd (omega (arith, ap length ((bytes_eq_iff s w).0 same)))
  | inr differs ↦ rw differs (one_of-long ws s a.1 h)
]

keyword_kind-long : (q word : Bytes) → max_keyword_len < length word → keyword_kind q word ≡ other
unfolding keyword_kind
keyword_kind-long q word h = rw (
  one_of-long read_words word (omega arith) h,
  one_of-long write_words word (omega arith) h,
  one_of-long begin_words word (omega arith) h,
  one_of-long commit_words word (omega arith) h,
  one_of-long rollback_words word (omega arith) h,
  one_of-long (codes "WITH" ∷ []) word (omega arith) h,
)

long :
    (t : Bytes)
    → ltb max_keyword_len (length t) ≡ true
    → max_keyword_len < length (ascii_upper_bytes t)
long t h = ground (arith, length-ascii_upper_bytes t)

-- A token that does not fit the buffer matches no keyword, so the verdict is that of the whole
-- token in upper case, however long it is.
pub default_classifier_whole_token :
    (q : Bytes) → default_classifier q ≡ keyword_kind q (ascii_upper_bytes (leading_token q))
unfolding default_classifier ascii_upper_token
default_classifier_whole_token q =
    elim (Bool-cases (ltb max_keyword_len (length (leading_token q)))) [
      | inl h ↦ rw h (unfold classify_word in rw (keyword_kind-long q _ (long _ h)))
      | inr h ↦ rw h (unfold classify_word in refl)
    ]

pub is_cte_write_whole_token :
    (t : Bytes) → is_cte_write t ≡ one_of cte_write_words (ascii_upper_bytes t)
unfolding is_cte_write ascii_upper_token
is_cte_write_whole_token t = elim (Bool-cases (ltb max_keyword_len (length t))) [
  | inl h ↦ rw (h, is_cte_write) (rw (one_of-long cte_write_words _ (omega arith) (long t h)))
  | inr h ↦ rw (h, is_cte_write)
]
