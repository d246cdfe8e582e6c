-- ===== src/Prelude/Text.antt =====
-- Go strings as lists of bytes, and the functions of the package strings that the code calls.
use Prim.Native.Char.{code}
use Prim.Native.Nat.{ℕ, suc}
use Prim.Native.String.{String}
use mathlib.Core.Bool.{Bool, true, false, ◌&&◌, ◌||◌}
use mathlib.Core.List.{List, [], ◌∷◌}
use mathlib.Core.Logic.{◌↔◌}
use mathlib.Core.Option
use mathlib.Core.Option.{Option, none, some}
use mathlib.Core.Path.{◌≡◌, refl}
use native.Mathlib.Omega.{arith}
use go_txnproof.Prelude.Tests.{◌==◌, if◌then◌else◌}

abbrev pub Bytes : Type 0
Bytes = List ℕ

-- The bytes of an ASCII literal.
abbrev pub codes : String → Bytes
codes String.[] = []
codes (String.◌∷◌ c s) = code c ∷ codes s

-- `a == b` on strings.
unfoldable pub bytes_eq : Bytes → Bytes → Bool
bytes_eq [] [] = true
bytes_eq (x ∷ xs) (y ∷ ys) = x == y && bytes_eq xs ys
bytes_eq _ _ = false

pub bytes_eq_iff : (a b : Bytes) → (bytes_eq a b ≡ true) ↔ (a ≡ b)
unfolding bytes_eq
bytes_eq_iff (x ∷ a) (y ∷ b) = ground (arith, bytes_eq_iff a b)
bytes_eq_iff _ _ = ground arith

pub bytes_eq_refl : (a : Bytes) → bytes_eq a a ≡ true
bytes_eq_refl a = (bytes_eq_iff a a).1 refl

-- A `switch` case that lists several strings.
unfoldable pub one_of : List Bytes → Bytes → Bool
one_of [] s = false
one_of (w ∷ ws) s = bytes_eq s w || one_of ws s

-- strings.HasPrefix
unfoldable pub has_prefix : Bytes → Bytes → Bool
has_prefix q [] = true
has_prefix [] (x ∷ p) = false
has_prefix (c ∷ q) (x ∷ p) = c == x && has_prefix q p

-- strings.IndexByte; `none` is -1
unfoldable pub index_byte : Bytes → ℕ → Option ℕ
index_byte [] b = none
index_byte (c ∷ q) b = if c == b then some 0 else Option.map suc (index_byte q b)

-- strings.Index; `none` is -1
unfoldable pub index : Bytes → Bytes → Option ℕ
unfolding has_prefix
index [] s = if has_prefix [] s then some 0 else none
index (c ∷ q) s = if has_prefix (c ∷ q) s then some 0 else Option.map suc (index q s)

abbrev pub is_space : ℕ → Bool
is_space c = c == b' ' || c == b'\t' || c == b'\r' || c == b'\n'

-- strings.TrimLeft(q, " \t\r\n")
unfoldable pub trim_left : Bytes → Bytes
trim_left [] = []
trim_left (c ∷ q) = if is_space c then trim_left q else c ∷ q

-- strings.Contains
unfoldable pub contains_text : Bytes → Bytes → Bool
unfolding has_prefix
contains_text [] s = has_prefix [] s
contains_text (c ∷ q) s = has_prefix (c ∷ q) s || contains_text q s

-- strings.HasSuffix
unfoldable pub has_suffix : Bytes → Bytes → Bool
has_suffix [] p = bytes_eq [] p
has_suffix (c ∷ q) p = bytes_eq (c ∷ q) p || has_suffix q p
