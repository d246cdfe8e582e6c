-- ===== src/Mycheck/Labels.antt =====
-- mycheck/parse.go: the identities of transactions and of statements of their own.
use go_txnproof.Prelude.{ℕ, zero, suc, ◌+◌, [], ◌∷◌, ◌++◌, Bytes, codes, ltb, if◌then◌else◌}
use Prim.Native.Nat.{◌/◌, ◌%◌}

-- The decimal digits of a number, on fuel that is not less than it.
unfoldable pub digits : ℕ → ℕ → Bytes
digits zero n = []
digits (suc fuel) n =
    let rest = digits fuel (n / 10) in
    if ltb n 10 then (n + b'0') ∷ [] else rest ++ (n % 10 + b'0') ∷ []

-- `%d`
unfoldable pub decimal : ℕ → Bytes
decimal n = digits (suc n) n

-- `txLabel`
unfoldable pub tx_label : Bytes → ℕ → Bytes
tx_label thread seq = codes "thread " ++ (thread ++ (codes " tx " ++ decimal seq))

-- `stmtLabel`
unfoldable pub stmt_label : Bytes → ℕ → Bytes
stmt_label thread seq = codes "thread " ++ (thread ++ (codes " stmt " ++ decimal seq))
