-- ===== src/Classify/Comments.antt =====
-- The blanks and comments in front of a statement as a relation, which `stripLeading` follows.
use go_txnproof.Prelude.{
  ℕ, suc, ◌≡◌, refl, ◌∙◌, true, false, List, [], ◌∷◌, ◌++◌, none, some, arith, Bytes, codes, length,
  drop, contains, contains_text, has_prefix, index_byte, index, trim_left, is_space,
}
use native.Mathlib.Numerals.{add-one, add-two}
use mathlib.Core.Option
use go_txnproof.Classify.{after_newline, after_block, strip_leading}
use go_txnproof.Classify.Strip.{IsBare, strip_leading_round}

-- `Skips q r`: `q` is `r` behind blanks, line comments and block comments. `shut` is the way in
-- which the code reads "/*/", whose middle star it takes for the end of the comment as well.
pub data Skips : Bytes → Bytes → Type 0 where
  stop : (q : Bytes) → Skips q q
  blank : (c : ℕ) {q r : Bytes} → is_space c ≡ true → Skips q r → Skips (c ∷ q) r
  line :
      (body : Bytes) {q r : Bytes}
      → contains body b'\n' ≡ false
      → Skips q r
      → Skips (b'-' ∷ b'-' ∷ (body ++ (b'\n' ∷ q))) r
  last_line : (body : Bytes) → contains body b'\n' ≡ false → Skips (b'-' ∷ b'-' ∷ body) []
  block :
      (body : Bytes) {q r : Bytes}
      → contains_text (b'*' ∷ (body ++ (b'*' ∷ []))) (codes "*/") ≡ false
      → Skips q r
      → Skips (b'/' ∷ b'*' ∷ (body ++ (b'*' ∷ b'/' ∷ q))) r
  last_block :
      (body : Bytes)
      → contains_text (b'*' ∷ body) (codes "*/") ≡ false
      → Skips (b'/' ∷ b'*' ∷ body) []
  shut : {q r : Bytes} → Skips q r → Skips (b'/' ∷ b'*' ∷ b'/' ∷ q) r

drop-append {ℓ} : {A : Type ℓ} (xs : List A) (ys : List A) → drop (length xs) (xs ++ ys) ≡ ys
drop-append [] ys = refl
drop-append (x ∷ xs) ys = drop-append xs ys

index_byte-append :
    (body q : Bytes) (b : ℕ)
    → contains body b ≡ false
    → index_byte (body ++ (b ∷ q)) b ≡ some (length body)
unfolding index_byte
index_byte-append [] q b h = ground arith
index_byte-append (c ∷ body) q b h = ground (arith, index_byte-append body q b)

index_byte-none : (q : Bytes) (b : ℕ) → contains q b ≡ false → index_byte q b ≡ none
unfolding index_byte
index_byte-none [] b h = refl
index_byte-none (c ∷ q) b h = ground (arith, index_byte-none q b)

index-append :
    (body q : Bytes)
    → contains_text (body ++ (b'*' ∷ [])) (codes "*/") ≡ false
    → index (body ++ (b'*' ∷ b'/' ∷ q)) (codes "*/") ≡ some (length body)
unfolding index contains_text
index-append [] q h = refl
index-append (c ∷ []) q h = ground arith
index-append (c ∷ d ∷ body) q h = ground (arith, index-append (d ∷ body) q)

index-none : (q : Bytes) → contains_text q (codes "*/") ≡ false → index q (codes "*/") ≡ none
unfolding index contains_text
index-none [] h = refl
index-none (c ∷ q) h = ground (arith, index-none q)

drop_past {ℓ} :
    {A : Type ℓ} (xs : List A) (x : A) (ys : List A) → drop (suc (length xs)) (xs ++ x ∷ ys) ≡ ys
drop_past [] x ys = refl
drop_past (y ∷ xs) x ys = drop_past xs x ys

trim_stop : (c : ℕ) (q : Bytes) → is_space c ≡ false → trim_left (c ∷ q) ≡ c ∷ q
unfolding trim_left
trim_stop c q h = rw h

-- A text that begins with two dashes is cut behind its first newline.
strip_line :
    (q : Bytes)
    → let t = b'-' ∷ b'-' ∷ q in
      strip_leading t ≡ strip_leading (after_newline (index_byte t b'\n') t)
unfolding has_prefix
strip_line q = rw (strip_leading_round (b'-' ∷ b'-' ∷ q)) (rw (trim_stop b'-' (b'-' ∷ q) refl) refl)

strip_block :
    (q : Bytes)
    → let t = b'/' ∷ b'*' ∷ q in
      strip_leading t ≡ strip_leading (after_block (index t (codes "*/")) t)
unfolding has_prefix
strip_block q =
    rw (strip_leading_round (b'/' ∷ b'*' ∷ q)) (rw (trim_stop b'/' (b'*' ∷ q) refl) refl)

strip_blank : (c : ℕ) (q : Bytes) → is_space c ≡ true → strip_leading (c ∷ q) ≡ strip_leading q
unfolding trim_left
strip_blank c q h = rw (strip_leading_round (c ∷ q), strip_leading_round q) (rw (h, trim_left))

drop_two {ℓ} :
    {A : Type ℓ} (xs : List A) (x y : A) (ys : List A)
    → drop (suc (suc (length xs))) (xs ++ x ∷ y ∷ ys) ≡ ys
drop_two [] x y ys = refl
drop_two (z ∷ xs) x y ys = drop_two xs x y ys

index_slash : (q : Bytes) → index (b'/' ∷ q) (codes "*/") ≡ Option.map suc (index q (codes "*/"))
unfolding index has_prefix
index_slash [] = refl
index_slash (c ∷ q) = refl

pub cut_shut :
    (q : Bytes) → let t = b'/' ∷ b'*' ∷ b'/' ∷ q in after_block (index t (codes "*/")) t ≡ q
unfolding index after_block has_prefix
cut_shut q = refl

pub cut_line :
    (body q : Bytes)
    → contains body b'\n' ≡ false
    → let t = b'-' ∷ b'-' ∷ (body ++ (b'\n' ∷ q)) in after_newline (index_byte t b'\n') t ≡ q
unfolding index_byte after_newline
cut_line body q h = rw (index_byte-append body q b'\n' h, add-one) (drop_past body b'\n' q)

pub cut_last_line :
    (body : Bytes)
    → contains body b'\n' ≡ false
    → let t = b'-' ∷ b'-' ∷ body in after_newline (index_byte t b'\n') t ≡ []
unfolding index_byte after_newline
cut_last_line body h = rw (index_byte-none body b'\n' h)

pub cut_block :
    (body q : Bytes)
    → contains_text (b'*' ∷ (body ++ (b'*' ∷ []))) (codes "*/") ≡ false
    → let t = b'/' ∷ b'*' ∷ (body ++ (b'*' ∷ b'/' ∷ q)) in after_block (index t (codes "*/")) t ≡ q
unfolding after_block
cut_block body q h =
    rw (index_slash (b'*' ∷ (body ++ (b'*' ∷ b'/' ∷ q))), index-append (b'*' ∷ body) q h, add-two)
      (drop_two body b'*' b'/' q)

pub cut_last_block :
    (body : Bytes)
    → contains_text (b'*' ∷ body) (codes "*/") ≡ false
    → let t = b'/' ∷ b'*' ∷ body in after_block (index t (codes "*/")) t ≡ []
unfolding after_block
cut_last_block body h = rw (index_slash (b'*' ∷ body), index-none (b'*' ∷ body) h)

-- Whatever `Skips` takes off, `strip_leading` takes off.
pub Skips-strip_leading : {q r : Bytes} → Skips q r → strip_leading q ≡ strip_leading r
Skips-strip_leading (stop q) = refl
Skips-strip_leading (blank c {q} h s) = strip_blank c q h ∙ Skips-strip_leading s
Skips-strip_leading (line body {q} h s) =
    strip_line (body ++ (b'\n' ∷ q)) ∙ rw (cut_line body q h) (Skips-strip_leading s)
Skips-strip_leading (last_line body h) = strip_line body ∙ rw (cut_last_line body h)
Skips-strip_leading (block body {q} h s) =
    strip_block (body ++ (b'*' ∷ b'/' ∷ q)) ∙ rw (cut_block body q h) (Skips-strip_leading s)
Skips-strip_leading (last_block body h) = strip_block body ∙ rw (cut_last_block body h)
Skips-strip_leading (shut {q} s) = strip_block (b'/' ∷ q) ∙ rw (cut_shut q) (Skips-strip_leading s)

pub strip_leading_bare : (q : Bytes) → IsBare q → strip_leading q ≡ q
strip_leading_bare q h = rw (strip_leading_round q, h.0, h.1, h.2)
