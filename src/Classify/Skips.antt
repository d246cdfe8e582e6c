-- ===== src/Classify/Skips.antt =====
-- The blanks and comments that `stripLeading` takes off, as a relation.
use go_txnproof.Prelude.{
  ℕ, zero, suc, ◌≡◌, refl, ◌∙◌, ap, sym, subst, ◌↔◌, ◌⊎◌, inl, inr, true, false, [], ◌∷◌, ◌++◌,
  arith, Bytes, codes, ◌==◌, length, contains, contains_text, has_prefix, index_byte, index,
  trim_left, is_space, Bool-cases,
}
use go_txnproof.Classify.{after_newline, after_block, strip_loop, strip_leading}
use go_txnproof.Classify.Strip.{IsBare, strip_leading-IsBare}
use go_txnproof.Classify.Comments.{
  Skips, stop, blank, line, last_line, block, last_block, shut, cut_shut, cut_line, cut_last_line,
  cut_block, cut_last_block, Skips-strip_leading, strip_leading_bare,
}

line_cases :
    (q : Bytes) (b : ℕ)
    → (contains q b ≡ false)
      ⊎ ((body : Bytes) × (rest : Bytes) × (q ≡ body ++ (b ∷ rest)) × (contains body b ≡ false))
line_cases [] b = inl refl
line_cases (c ∷ q) b = elim (Bool-cases (c == b)) [
  | inl hit ↦ inr ([], q, ground arith, refl)
  | inr miss ↦ elim (line_cases q b) [
    | inl none_there ↦ inl (ground arith)
    | inr (body, rest, e, h) ↦ inr (c ∷ body, rest, ap (◌∷◌ c) e, ground arith)
  ]
]

has_prefix_two :
    (q : Bytes) (a b : ℕ) → has_prefix q (a ∷ b ∷ []) ≡ true → (rest : Bytes) × (q ≡ a ∷ b ∷ rest)
unfolding has_prefix
has_prefix_two [] a b h = cc
has_prefix_two (c ∷ []) a b h = ground arith
has_prefix_two (c ∷ d ∷ q) a b h = (q, ground arith)

-- An end of a comment that begins with `c` reaches into what follows only by its slash.
no_end_before :
    (c : ℕ) (body rest : Bytes)
    → has_prefix (c ∷ (body ++ (b'*' ∷ b'/' ∷ rest))) (codes "*/") ≡ false
    → has_prefix (c ∷ (body ++ (b'*' ∷ []))) (codes "*/") ≡ false
unfolding has_prefix
no_end_before c [] rest h = ground arith
no_end_before c (d ∷ body) rest h = ground arith

block_cases :
    (q : Bytes)
    → (contains_text q (codes "*/") ≡ false)
      ⊎ ((body : Bytes) × (rest : Bytes) × (q ≡ body ++ (b'*' ∷ b'/' ∷ rest))
          × (contains_text (body ++ (b'*' ∷ [])) (codes "*/") ≡ false))
unfolding contains_text
block_cases [] = inl (unfold has_prefix in refl)
block_cases (c ∷ q) = elim (Bool-cases (has_prefix (c ∷ q) (codes "*/"))) [
  | inl hit ↦
      let (rest, e) = has_prefix_two (c ∷ q) b'*' b'/' hit in
      inr ([], rest, e, unfold has_prefix in refl)
  | inr miss ↦ elim (block_cases q) [
    | inl none_there ↦ inl (rw miss none_there)
    | inr (body, rest, e, h) ↦ inr (
      c ∷ body,
      rest,
      ap (◌∷◌ c) e,
      rw (no_end_before c body rest (subst (λ z. has_prefix (c ∷ z) (codes "*/") ≡ false) e miss))
          h,
    )
  ]
]

trim_left-Skips : (q : Bytes) {r : Bytes} → Skips (trim_left q) r → Skips q r
unfolding trim_left
trim_left-Skips [] s = s
trim_left-Skips (c ∷ q) s = elim (Bool-cases (is_space c)) [
  | inl h ↦ blank c h (trim_left-Skips q (rw h at s))
  | inr h ↦ rw h at s
]

Skips-nil : {q r : Bytes} → Skips q r → q ≡ [] → r ≡ []
Skips-nil (stop q) e = e
Skips-nil (blank c h s) e = cc
Skips-nil (line body h s) e = cc
Skips-nil (last_line body h) e = refl
Skips-nil (block body h s) e = cc
Skips-nil (last_block body h) e = refl
Skips-nil (shut s) e = cc

line-Skips :
    (q : Bytes) {r : Bytes}
    → let t = b'-' ∷ b'-' ∷ q in Skips (after_newline (index_byte t b'\n') t) r → Skips t r
line-Skips q {r} s = elim (line_cases q b'\n') [
  | inl h ↦
      let e : r ≡ [] = Skips-nil (rw (cut_last_line q h) at s) refl in
      subst (Skips (b'-' ∷ b'-' ∷ q)) (sym e) (last_line q h)
  | inr (body, rest, e, h) ↦
      let split = λ (z : Bytes). Skips (b'-' ∷ b'-' ∷ z) r in
      subst split (sym e) (line body h (rw (cut_line body rest h) at (rw e at s)))
]

block-Skips :
    (q : Bytes) {r : Bytes}
    → let t = b'/' ∷ b'*' ∷ q in Skips (after_block (index t (codes "*/")) t) r → Skips t r
block-Skips q {r} s = elim (block_cases (b'*' ∷ q)) [
  | inl h ↦
      let e : r ≡ [] = Skips-nil (rw (cut_last_block q h) at s) refl in
      subst (Skips (b'/' ∷ b'*' ∷ q)) (sym e) (last_block q h)
  | inr ([], rest, e, h) ↦
      let e' : q ≡ b'/' ∷ rest = cc in
      subst (λ z. Skips (b'/' ∷ b'*' ∷ z) r) (sym e') (shut (rw (cut_shut rest) at (rw e' at s)))
  | inr (c ∷ body, rest, e, h) ↦
      let at_star : c ≡ b'*' = cc in
      let e' : q ≡ body ++ (b'*' ∷ b'/' ∷ rest) = cc in
      let h' =
        subst (λ d. contains_text (d ∷ (body ++ (b'*' ∷ []))) (codes "*/") ≡ false) at_star h in
      subst (λ z. Skips (b'/' ∷ b'*' ∷ z) r) (sym e')
        (block body h' (rw (cut_block body rest h') at (rw e' at s)))
]

at_line :
    (t r : Bytes)
    → Skips (after_newline (index_byte t b'\n') t) r
    → (rest : Bytes) × (t ≡ b'-' ∷ b'-' ∷ rest)
    → Skips t r
at_line t r s (rest, e) = rw e (line-Skips rest (rw e at s))

at_block :
    (t r : Bytes)
    → Skips (after_block (index t (codes "*/")) t) r
    → (rest : Bytes) × (t ≡ b'/' ∷ b'*' ∷ rest)
    → Skips t r
at_block t r s (rest, e) = rw e (block-Skips rest (rw e at s))

strip_loop-Skips : (fuel : ℕ) (q : Bytes) → Skips q (strip_loop fuel q)
unfolding strip_loop
strip_loop-Skips zero q = stop q
strip_loop-Skips (suc fuel) q =
    trim_left-Skips q (elim (Bool-cases (has_prefix (trim_left q) (codes "--"))) [
      | inl l ↦
          rw l (at_line _ _ (strip_loop-Skips fuel _) (has_prefix_two (trim_left q) b'-' b'-' l))
      | inr l ↦ rw l (elim (Bool-cases (has_prefix (trim_left q) (codes "/*"))) [
        | inl b ↦
            rw b (at_block _ _ (strip_loop-Skips fuel _) (has_prefix_two (trim_left q) b'/' b'*' b))
        | inr b ↦ rw b (stop (trim_left q))
      ])
    ])

strip_leading-Skips : (q : Bytes) → Skips q (strip_leading q)
unfolding strip_leading
strip_leading-Skips q = strip_loop-Skips (suc (length q)) q

-- `stripLeading` takes off exactly the blanks and comments in front: its result on `q` is `r` when
-- `q` is `r` behind a run of blanks and comments and `r` begins with none, and only then.
pub strip_leading_exact : (q r : Bytes) → (strip_leading q ≡ r) ↔ (Skips q r × IsBare r)
strip_leading_exact q r = (
  λ e. rw (← e) (strip_leading-Skips q, strip_leading-IsBare q),
  λ h. Skips-strip_leading h.0 ∙ strip_leading_bare r h.1,
)
