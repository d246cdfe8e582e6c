-- ===== src/Prelude/Dict.antt =====
-- A Go map from strings, as an association list in which a key stands at most once.
use mathlib.Core.Bool.{Bool, false}
use mathlib.Core.List.{List, [], ◌∷◌}
use mathlib.Core.Option.{Option, none, some}
use mathlib.Core.Path.{◌≡◌, refl}
use native.Mathlib.Omega.{arith}
use go_txnproof.Prelude.Tests.{if◌then◌else◌}
use go_txnproof.Prelude.Text.{Bytes, bytes_eq, bytes_eq_iff}
use go_txnproof.Prelude.Sort.{text_mem}

abbrev pub Dict {ℓ} : Type ℓ → Type ℓ
Dict V = List (Bytes × V)

module _ {ℓ} {V : Type ℓ} where
  unfoldable pub lookup : Dict V → Bytes → Option V
  lookup [] k = none
  lookup ((j, v) ∷ m) k = if bytes_eq j k then some v else lookup m k

  unfoldable pub insert : Dict V → Bytes → V → Dict V
  insert [] k v = (k, v) ∷ []
  insert ((j, w) ∷ m) k v = if bytes_eq j k then (k, v) ∷ m else (j, w) ∷ insert m k v

  -- The laws of a map: a key reads what was last written to it.
  pub lookup-insert :
      (m : Dict V) (k j : Bytes) (v : V)
      → lookup (insert m k v) j ≡ (if bytes_eq k j then some v else lookup m j)
  unfolding lookup insert
  lookup-insert [] k j v = refl
  lookup-insert ((i, w) ∷ m) k j v =
      ground (arith, bytes_eq_iff i k, bytes_eq_iff i j, bytes_eq_iff k j, lookup-insert m k j v)

-- No key stands twice.
abbrev pub IsMap {ℓ} : {V : Type ℓ} → Dict V → Type ℓ
IsMap [] = Unit
IsMap ((k, v) ∷ m) = (lookup m k ≡ none) × IsMap m

-- The test on what a key reads, false where there is no such key.
abbrev pub read_is {ℓ} : {V : Type ℓ} → (V → Bool) → Option V → Bool
read_is test none = false
read_is test (some v) = test v

module _ {ℓ} {V : Type ℓ} where
  -- The keys whose value passes a test, in the order of the entries.
  unfoldable pub keys_where : (V → Bool) → Dict V → List Bytes
  keys_where test [] = []
  keys_where test ((k, v) ∷ m) = if test v then k ∷ keys_where test m else keys_where test m

  pub insert-IsMap : (m : Dict V) (k : Bytes) (v : V) → IsMap m → IsMap (insert m k v)
  unfolding insert lookup
  insert-IsMap [] k v h = (refl, tt)
  insert-IsMap ((i, w) ∷ m) k v h =
      ground (arith, bytes_eq_iff i k, bytes_eq_iff k i, lookup-insert m k i v, insert-IsMap m k v)

  pub text_mem-keys_where :
      (test : V → Bool) (m : Dict V) (k : Bytes)
      → IsMap m
      → text_mem (keys_where test m) k ≡ read_is test (lookup m k)
  unfolding keys_where lookup
  text_mem-keys_where test [] k h = refl
  text_mem-keys_where test ((i, w) ∷ m) k h =
      ground (arith, bytes_eq_iff i k, text_mem-keys_where test m k)
