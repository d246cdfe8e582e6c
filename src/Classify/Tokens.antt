-- ===== src/Classify/Tokens.antt =====
-- `containsWriteToken` finds the standalone write keywords.
use go_txnproof.Prelude.{
  ℕ, ◌≡◌, ◌≢◌, refl, ◌∙◌, ◌↔◌, inl, inr, Bool, true, false, ◌||◌, [], ◌∷◌, ◌++◌, Bytes, one_of,
  append-nil, append_assoc, Bool-cases,
}
use go_txnproof.Classify.{
  is_ident_char, ascii_upper_bytes, cte_write_words, is_cte_write, ends_write, contains_write_from,
  contains_write_token,
}
use go_txnproof.Classify.Buffer.{is_cte_write_whole_token}

abbrev pub AllIdent : Bytes → Type 0
AllIdent [] = Unit {0}
AllIdent (c ∷ q) = (is_ident_char c ≡ true) × AllIdent q

-- At the end of the text, or at a character that belongs to no identifier.
abbrev pub IsBoundary : Bytes → Type 0
IsBoundary [] = Unit {0}
IsBoundary (c ∷ q) = is_ident_char c ≡ false

-- `t` is a whole identifier of the text: it stands in front, up to a boundary, or behind a run of
-- identifier characters (an empty one, too) and one other character.
pub data HasToken (t : Bytes) : Bytes → Type 0 where
  front : (rest : Bytes) → AllIdent t → t ≢ [] → IsBoundary rest → HasToken t (t ++ rest)
  behind :
      (word : Bytes) (c : ℕ) {q : Bytes}
      → AllIdent word
      → is_ident_char c ≡ false
      → HasToken t q
      → HasToken t (word ++ (c ∷ q))

AllIdent-concat : (q : Bytes) (c : ℕ) → AllIdent q → is_ident_char c ≡ true → AllIdent (q ++ c ∷ [])
AllIdent-concat [] c a h = (h, tt)
AllIdent-concat (d ∷ q) c a h = (a.0, AllIdent-concat q c a.1 h)

contains_write_from-AllIdent :
    (word tok rest : Bytes)
    → AllIdent word
    → contains_write_from tok (word ++ rest) ≡ contains_write_from (tok ++ word) rest
unfolding contains_write_from
contains_write_from-AllIdent [] tok rest a = rw append-nil
contains_write_from-AllIdent (c ∷ word) tok rest a =
    rw (a.0, contains_write_from)
      (contains_write_from-AllIdent word (tok ++ c ∷ []) rest a.1 ∙ rw append_assoc)

contains_write_from_other :
    (c : ℕ) (tok q : Bytes)
    → is_ident_char c ≡ false
    → contains_write_from tok (c ∷ q) ≡ (ends_write tok || contains_write_from [] q)
unfolding contains_write_from
contains_write_from_other c tok q h = rw (h, contains_write_from)

ends_write-is_cte_write : (t : Bytes) → t ≢ [] → ends_write t ≡ is_cte_write t
unfolding ends_write
ends_write-is_cte_write [] h = absurd (h refl)
ends_write-is_cte_write (c ∷ t) h = refl

ends_write-ne_nil : (t : Bytes) → ends_write t ≡ true → (t ≢ []) × (is_cte_write t ≡ true)
unfolding ends_write
ends_write-ne_nil [] h = cc
ends_write-ne_nil (c ∷ t) h = (λ e. cc, h)

contains_write_from-nil : (t : Bytes) → contains_write_from t [] ≡ ends_write t
unfolding contains_write_from
contains_write_from-nil t = refl

or_true : (b : Bool) → (b || true) ≡ true
or_true true = refl
or_true false = refl

abbrev Found : Bytes → Type 0
Found q = (t : Bytes) × HasToken t q × (is_cte_write t ≡ true)

contains_write_from-HasToken :
    (q tok : Bytes) → AllIdent tok → contains_write_from tok q ≡ true → Found (tok ++ q)
contains_write_from-HasToken [] tok a h =
    let (ne, e) = ends_write-ne_nil tok (rw (contains_write_from-nil tok) at h) in
    (tok, front [] a ne tt, e)
contains_write_from-HasToken (c ∷ q) tok a h = elim (Bool-cases (is_ident_char c)) [
  | inl i ↦ rw append_assoc at (
      contains_write_from-HasToken q (tok ++ c ∷ []) (AllIdent-concat tok c a i)
        (rw (← contains_write_from-AllIdent (c ∷ []) tok q (i, tt)) h))
  | inr i ↦ elim (Bool-cases (ends_write tok)) [
    | inl e ↦ let (ne, e') = ends_write-ne_nil tok e in (tok, front (c ∷ q) a ne i, e')
    | inr e ↦
        let (t, there, e') =
          contains_write_from-HasToken q [] tt (rw (contains_write_from_other c tok q i, e) at h) in
        (t, behind tok c a i there, e')
  ]
]

HasToken-found :
    (t : Bytes) {q : Bytes} → HasToken t q → is_cte_write t ≡ true → contains_write_from [] q ≡ true
HasToken-found t (front [] a ne b) e =
    contains_write_from-AllIdent t [] [] a
    ∙ rw (contains_write_from-nil t, ends_write-is_cte_write t ne) e
HasToken-found t (front (c ∷ rest) a ne b) e =
    contains_write_from-AllIdent t [] (c ∷ rest) a
    ∙ rw (contains_write_from_other c t rest b, ends_write-is_cte_write t ne, e)
HasToken-found t (behind word c {q} a i there) e =
    contains_write_from-AllIdent word [] (c ∷ q) a
    ∙ rw (contains_write_from_other c word q i, HasToken-found t there e)
        (or_true (ends_write word))

-- The scan answers true exactly when some whole identifier of the text is, in upper case, one of
-- the six write keywords; a keyword inside a longer identifier does not count.
pub contains_write_token_exact :
    (q : Bytes)
    → (contains_write_token q ≡ true)
      ↔ ((t : Bytes) × HasToken t q × (one_of cte_write_words (ascii_upper_bytes t) ≡ true))
unfolding contains_write_token
contains_write_token_exact q = (
  λ h.
      let (t, there, e) = contains_write_from-HasToken q [] tt h in
      (t, there, rw (← is_cte_write_whole_token t) e),
  λ p. HasToken-found p.0 p.1 (rw (is_cte_write_whole_token p.0) p.2),
)
