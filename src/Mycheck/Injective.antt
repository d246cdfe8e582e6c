-- ===== src/Mycheck/Injective.antt =====
-- Different transactions and statements have different identities.
use go_txnproof.Prelude.{
  ℕ, zero, suc, ◌+◌, ◌-◌, ◌*◌, ◌<◌, ◌≡◌, ◌≢◌, refl, ◌∙◌, sym, ap, false, ◌&&◌, [], ◌∷◌, ◌++◌, arith,
  Bytes, codes, contains, bytes_eq, bytes_eq_iff, ltb, ◌==◌, Bool-cases, inl, inr,
}
use Prim.Native.Nat.{◌/◌}
use go_txnproof.Mycheck.Labels.{digits, decimal, tx_label, stmt_label}

-- The number that digits stand for.
abbrev value : ℕ → Bytes → ℕ
value acc [] = acc
value acc (c ∷ cs) = value (acc * 10 + (c - 48)) cs

value-append : (a b : Bytes) (acc : ℕ) → value acc (a ++ b) ≡ value (value acc a) b
value-append [] b acc = refl
value-append (c ∷ a) b acc = value-append a b (acc * 10 + (c - 48))

value-digits : (fuel n : ℕ) → n < fuel → value 0 (digits fuel n) ≡ n
unfolding digits
value-digits zero n h = ground arith
value-digits (suc fuel) n h = elim (Bool-cases (ltb n 10)) [
  | inl small ↦ rw small (omega arith)
  | inr big ↦ rw big (
      value-append (digits fuel (n / 10)) _ 0
      ∙ (let less : n / 10 < fuel = ground arith in omega (arith, value-digits fuel (n / 10) less)))
]

pub decimal_inj : (m n : ℕ) → decimal m ≡ decimal n → m ≡ n
unfolding decimal
decimal_inj m n h =
    sym (value-digits (suc m) m (omega arith))
    ∙ ap (value 0) h
    ∙ value-digits (suc n) n (omega arith)

-- Two texts that agree up to the first blank of each.
until_blank :
    (t u r s : Bytes)
    → contains t b' ' ≡ false
    → contains u b' ' ≡ false
    → t ++ (b' ' ∷ r) ≡ u ++ (b' ' ∷ s)
    → (t ≡ u) × (r ≡ s)
until_blank [] [] r s h g eq = ground (arith, eq)
until_blank [] (d ∷ u) r s h g eq = ground (arith, eq)
until_blank (c ∷ t) [] r s h g eq = ground (arith, eq)
until_blank (c ∷ t) (d ∷ u) r s h g eq = ground (arith, eq, until_blank t u r s)

behind_thread : (x y : Bytes) → codes "thread " ++ x ≡ codes "thread " ++ y → x ≡ y
behind_thread x y h = ground (arith, h)

behind_tx : (x y : Bytes) → codes "tx " ++ x ≡ codes "tx " ++ y → x ≡ y
behind_tx x y h = ground (arith, h)

behind_stmt : (x y : Bytes) → codes "stmt " ++ x ≡ codes "stmt " ++ y → x ≡ y
behind_stmt x y h = ground (arith, h)

module _ (t u : Bytes) (plain_t : contains t b' ' ≡ false) (plain_u : contains u b' ' ≡ false) where
  tx_label_inj : (m n : ℕ) → tx_label t m ≡ tx_label u n → (t ≡ u) × (m ≡ n)
  unfolding tx_label
  tx_label_inj m n h =
      let (same, rest) = until_blank t u _ _ plain_t plain_u (behind_thread _ _ h) in
      (same, decimal_inj m n (behind_tx _ _ rest))

  stmt_label_inj : (m n : ℕ) → stmt_label t m ≡ stmt_label u n → (t ≡ u) × (m ≡ n)
  unfolding stmt_label
  stmt_label_inj m n h =
      let (same, rest) = until_blank t u _ _ plain_t plain_u (behind_thread _ _ h) in
      (same, decimal_inj m n (behind_stmt _ _ rest))

  tx_stmt_apart : (m n : ℕ) → tx_label t m ≢ stmt_label u n
  unfolding tx_label stmt_label
  tx_stmt_apart m n h =
      let (same, rest) = until_blank t u _ _ plain_t plain_u (behind_thread _ _ h) in
      ground (arith, rest)

  -- The tests on identities, for threads whose names have no blank.
  pub bytes_eq-tx_label :
      (m n : ℕ) → bytes_eq (tx_label t m) (tx_label u n) ≡ (bytes_eq t u && m == n)
  bytes_eq-tx_label m n =
      ground (arith, bytes_eq_iff (tx_label t m) (tx_label u n), tx_label_inj m n, bytes_eq_iff t u)

  pub bytes_eq-stmt_label :
      (m n : ℕ) → bytes_eq (stmt_label t m) (stmt_label u n) ≡ (bytes_eq t u && m == n)
  bytes_eq-stmt_label m n =
      ground (
        arith,
        bytes_eq_iff (stmt_label t m) (stmt_label u n),
        stmt_label_inj m n,
        bytes_eq_iff t u,
      )

  pub bytes_eq-tx_stmt : (m n : ℕ) → bytes_eq (tx_label t m) (stmt_label u n) ≡ false
  bytes_eq-tx_stmt m n =
      ground (arith, bytes_eq_iff (tx_label t m) (stmt_label u n), tx_stmt_apart m n)
