-- ===== src/Classify/Letters.antt =====
-- Classification does not depend on the case of letters.
use go_txnproof.Prelude.{
  ℕ, zero, suc, ◌+◌, ◌<◌, ◌≡◌, refl, ap, [], ◌∷◌, ◌++◌, Option, none, some, arith, Bytes, codes,
  ◌==◌, length, drop, has_prefix, index_byte, index, trim_left, is_space,
}
use go_txnproof.Classify.{
  is_ident_char, ascii_upper, ascii_upper_bytes, ascii_upper_token, ident_prefix, ident_suffix,
  leading_token, after_newline, after_block, strip_loop, strip_leading, second_token_is_to, is_to,
  is_cte_write, ends_write, contains_write_from, contains_write_token, keyword_kind, classify_word,
  default_classifier,
}

ascii_upper_idem : (c : ℕ) → ascii_upper (ascii_upper c) ≡ ascii_upper c
unfolding ascii_upper
ascii_upper_idem c = ground arith

is_space-ascii_upper : (c : ℕ) → is_space (ascii_upper c) ≡ is_space c
unfolding ascii_upper
is_space-ascii_upper c = ground arith

is_ident_char-ascii_upper : (c : ℕ) → is_ident_char (ascii_upper c) ≡ is_ident_char c
unfolding ascii_upper is_ident_char
is_ident_char-ascii_upper c = ground arith

-- A byte below the letters is met in the one text where it is met in the other.
eq-ascii_upper : (c b : ℕ) → b < b'A' → (ascii_upper c == b) ≡ (c == b)
unfolding ascii_upper
eq-ascii_upper c b h = ground arith

ascii_upper_bytes_idem : (q : Bytes) → ascii_upper_bytes (ascii_upper_bytes q) ≡ ascii_upper_bytes q
ascii_upper_bytes_idem [] = refl
ascii_upper_bytes_idem (c ∷ q) = rw (ascii_upper_idem c, ascii_upper_bytes_idem q)

pub length-ascii_upper_bytes : (q : Bytes) → length (ascii_upper_bytes q) ≡ length q
length-ascii_upper_bytes [] = refl
length-ascii_upper_bytes (c ∷ q) = ap suc (length-ascii_upper_bytes q)

ascii_upper_bytes-append :
    (q r : Bytes) → ascii_upper_bytes (q ++ r) ≡ ascii_upper_bytes q ++ ascii_upper_bytes r
ascii_upper_bytes-append [] r = refl
ascii_upper_bytes-append (c ∷ q) r = ap (◌∷◌ (ascii_upper c)) (ascii_upper_bytes-append q r)

drop-ascii_upper_bytes :
    (n : ℕ) (q : Bytes) → drop n (ascii_upper_bytes q) ≡ ascii_upper_bytes (drop n q)
drop-ascii_upper_bytes zero q = refl
drop-ascii_upper_bytes (suc n) [] = refl
drop-ascii_upper_bytes (suc n) (c ∷ q) = drop-ascii_upper_bytes n q

trim_left-ascii_upper_bytes :
    (q : Bytes) → trim_left (ascii_upper_bytes q) ≡ ascii_upper_bytes (trim_left q)
unfolding trim_left
trim_left-ascii_upper_bytes [] = refl
trim_left-ascii_upper_bytes (c ∷ q) =
    ground (arith, is_space-ascii_upper c, trim_left-ascii_upper_bytes q)

has_prefix-ascii_upper_bytes :
    (q : Bytes) (a b : ℕ)
    → a < b'A'
    → b < b'A'
    → has_prefix (ascii_upper_bytes q) (a ∷ b ∷ []) ≡ has_prefix q (a ∷ b ∷ [])
unfolding has_prefix
has_prefix-ascii_upper_bytes [] a b h k = refl
has_prefix-ascii_upper_bytes (c ∷ []) a b h k = ground (arith, eq-ascii_upper c a h)
has_prefix-ascii_upper_bytes (c ∷ d ∷ q) a b h k =
    ground (arith, eq-ascii_upper c a h, eq-ascii_upper d b k)

index_byte-ascii_upper_bytes :
    (q : Bytes) (b : ℕ) → b < b'A' → index_byte (ascii_upper_bytes q) b ≡ index_byte q b
unfolding index_byte
index_byte-ascii_upper_bytes [] b h = refl
index_byte-ascii_upper_bytes (c ∷ q) b h =
    rw (eq-ascii_upper c b h, index_byte-ascii_upper_bytes q b h)

index-ascii_upper_bytes :
    (q : Bytes) → index (ascii_upper_bytes q) (codes "*/") ≡ index q (codes "*/")
unfolding index
index-ascii_upper_bytes [] = refl
index-ascii_upper_bytes (c ∷ q) = rw (
  has_prefix-ascii_upper_bytes (c ∷ q) b'*' b'/' (omega arith) (omega arith),
  index-ascii_upper_bytes q,
)

after_newline-ascii_upper_bytes :
    (o : Option ℕ) (q : Bytes)
    → after_newline o (ascii_upper_bytes q) ≡ ascii_upper_bytes (after_newline o q)
unfolding after_newline
after_newline-ascii_upper_bytes none q = refl
after_newline-ascii_upper_bytes (some i) q = drop-ascii_upper_bytes (i + 1) q

after_block-ascii_upper_bytes :
    (o : Option ℕ) (q : Bytes)
    → after_block o (ascii_upper_bytes q) ≡ ascii_upper_bytes (after_block o q)
unfolding after_block
after_block-ascii_upper_bytes none q = refl
after_block-ascii_upper_bytes (some i) q = drop-ascii_upper_bytes (i + 2) q

strip_loop-ascii_upper_bytes :
    (fuel : ℕ) (q : Bytes)
    → strip_loop fuel (ascii_upper_bytes q) ≡ ascii_upper_bytes (strip_loop fuel q)
unfolding strip_loop
strip_loop-ascii_upper_bytes zero q = refl
strip_loop-ascii_upper_bytes (suc fuel) q =
    let t = trim_left q in
    rw
      (
        trim_left-ascii_upper_bytes q,
        has_prefix-ascii_upper_bytes t b'-' b'-' (omega arith) (omega arith),
        has_prefix-ascii_upper_bytes t b'/' b'*' (omega arith) (omega arith),
        index_byte-ascii_upper_bytes t b'\n' (omega arith),
        index-ascii_upper_bytes t,
        after_newline-ascii_upper_bytes (index_byte t b'\n') t,
        after_block-ascii_upper_bytes (index t (codes "*/")) t,
        strip_loop-ascii_upper_bytes fuel (after_newline (index_byte t b'\n') t),
        strip_loop-ascii_upper_bytes fuel (after_block (index t (codes "*/")) t),
      )
      (ground arith)

strip_leading-ascii_upper_bytes :
    (q : Bytes) → strip_leading (ascii_upper_bytes q) ≡ ascii_upper_bytes (strip_leading q)
unfolding strip_leading
strip_leading-ascii_upper_bytes q =
    rw (length-ascii_upper_bytes q) (strip_loop-ascii_upper_bytes (suc (length q)) q)

ident_prefix-ascii_upper_bytes :
    (q : Bytes) → ident_prefix (ascii_upper_bytes q) ≡ ascii_upper_bytes (ident_prefix q)
unfolding ident_prefix
ident_prefix-ascii_upper_bytes [] = refl
ident_prefix-ascii_upper_bytes (c ∷ q) =
    rw (is_ident_char-ascii_upper c, ident_prefix-ascii_upper_bytes q) (ground arith)

ident_suffix-ascii_upper_bytes :
    (q : Bytes) → ident_suffix (ascii_upper_bytes q) ≡ ascii_upper_bytes (ident_suffix q)
unfolding ident_suffix
ident_suffix-ascii_upper_bytes [] = refl
ident_suffix-ascii_upper_bytes (c ∷ q) =
    rw (is_ident_char-ascii_upper c, ident_suffix-ascii_upper_bytes q) (ground arith)

ascii_upper_token-ascii_upper_bytes :
    (t : Bytes) → ascii_upper_token (ascii_upper_bytes t) ≡ ascii_upper_token t
unfolding ascii_upper_token
ascii_upper_token-ascii_upper_bytes t = rw (length-ascii_upper_bytes t, ascii_upper_bytes_idem t)

is_to-ascii_upper_bytes : (t : Bytes) → is_to (ascii_upper_bytes t) ≡ is_to t
unfolding is_to ascii_upper
is_to-ascii_upper_bytes [] = refl
is_to-ascii_upper_bytes (a ∷ []) = refl
is_to-ascii_upper_bytes (a ∷ b ∷ []) = ground arith
is_to-ascii_upper_bytes (a ∷ b ∷ c ∷ t) = refl

second_token_is_to-ascii_upper_bytes :
    (q : Bytes) → second_token_is_to (ascii_upper_bytes q) ≡ second_token_is_to q
unfolding second_token_is_to
second_token_is_to-ascii_upper_bytes q =
    rw
      (
        strip_leading-ascii_upper_bytes q,
        ident_suffix-ascii_upper_bytes (strip_leading q),
        strip_leading-ascii_upper_bytes (ident_suffix (strip_leading q)),
        ident_prefix-ascii_upper_bytes (strip_leading (ident_suffix (strip_leading q))),
      )
      (is_to-ascii_upper_bytes _)

is_cte_write-ascii_upper_bytes : (t : Bytes) → is_cte_write (ascii_upper_bytes t) ≡ is_cte_write t
unfolding is_cte_write
is_cte_write-ascii_upper_bytes t = rw (ascii_upper_token-ascii_upper_bytes t, is_cte_write)

ends_write-ascii_upper_bytes : (t : Bytes) → ends_write (ascii_upper_bytes t) ≡ ends_write t
unfolding ends_write
ends_write-ascii_upper_bytes [] = refl
ends_write-ascii_upper_bytes (c ∷ t) = is_cte_write-ascii_upper_bytes (c ∷ t)

contains_write_from-ascii_upper_bytes :
    (q tok : Bytes)
    → contains_write_from (ascii_upper_bytes tok) (ascii_upper_bytes q) ≡ contains_write_from tok q
unfolding contains_write_from
contains_write_from-ascii_upper_bytes [] tok = ends_write-ascii_upper_bytes tok
contains_write_from-ascii_upper_bytes (c ∷ q) tok = ground (
  arith,
  is_ident_char-ascii_upper c,
  ascii_upper_bytes-append tok (c ∷ []),
  ends_write-ascii_upper_bytes tok,
  contains_write_from-ascii_upper_bytes q (tok ++ c ∷ []),
  contains_write_from-ascii_upper_bytes q [],
)

contains_write_token-ascii_upper_bytes :
    (q : Bytes) → contains_write_token (ascii_upper_bytes q) ≡ contains_write_token q
unfolding contains_write_token
contains_write_token-ascii_upper_bytes q = contains_write_from-ascii_upper_bytes q []

leading_token-ascii_upper_bytes :
    (q : Bytes) → leading_token (ascii_upper_bytes q) ≡ ascii_upper_bytes (leading_token q)
unfolding leading_token
leading_token-ascii_upper_bytes q =
    rw (strip_leading-ascii_upper_bytes q) (ident_prefix-ascii_upper_bytes (strip_leading q))

keyword_kind-ascii_upper_bytes :
    (q word : Bytes) → keyword_kind (ascii_upper_bytes q) word ≡ keyword_kind q word
unfolding keyword_kind
keyword_kind-ascii_upper_bytes q word =
    rw (second_token_is_to-ascii_upper_bytes q, contains_write_token-ascii_upper_bytes q)

classify_word-ascii_upper_bytes :
    (q : Bytes) (o : Option Bytes) → classify_word (ascii_upper_bytes q) o ≡ classify_word q o
unfolding classify_word
classify_word-ascii_upper_bytes q none = refl
classify_word-ascii_upper_bytes q (some word) = keyword_kind-ascii_upper_bytes q word

-- The kind of a statement is that of its text in upper case: keywords are met in any case of their
-- letters, and the case of no other letter matters.
pub default_classifier_any_case :
    (q : Bytes) → default_classifier (ascii_upper_bytes q) ≡ default_classifier q
unfolding default_classifier
default_classifier_any_case q =
    rw (leading_token-ascii_upper_bytes q, ascii_upper_token-ascii_upper_bytes (leading_token q))
      (classify_word-ascii_upper_bytes q (ascii_upper_token (leading_token q)))
