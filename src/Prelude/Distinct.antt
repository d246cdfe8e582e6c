-- ===== src/Prelude/Distinct.antt =====
-- The number of different numbers in a list.
use go_txnproof.Prelude.Tests.{◌==◌, if◌then◌else◌, Bool-cases}
use go_txnproof.Prelude.Lists.{length, contains, IsDistinct, contains-append}
use Prim.Native.Nat.{ℕ, suc}
use mathlib.Core.Path.{◌≡◌, refl, ap, ◌∙◌}
use mathlib.Core.Logic.{inl, inr}
use mathlib.Core.Bool.{true, false, not, ◌&&◌}
use mathlib.Core.List.{List, [], ◌∷◌, ◌++◌}
use native.Mathlib.Omega.{arith}

-- Each number is counted where it stands for the last time.
abbrev pub count_distinct : List ℕ → ℕ
count_distinct [] = 0
count_distinct (x ∷ xs) = if contains xs x then count_distinct xs else suc (count_distinct xs)

remove : List ℕ → ℕ → List ℕ
remove [] t = []
remove (x ∷ xs) t = if x == t then xs else x ∷ remove xs t

contains-remove :
    (xs : List ℕ) (y t : ℕ)
    → IsDistinct xs
    → contains (remove xs y) t ≡ (contains xs t && not (y == t))
unfolding remove
contains-remove [] y t d = refl
contains-remove (x ∷ xs) y t d = ground (arith, contains-remove xs y t d.1, d.0)

remove-IsDistinct : (xs : List ℕ) (y : ℕ) → IsDistinct xs → IsDistinct (remove xs y)
unfolding remove
remove-IsDistinct [] y d = tt
remove-IsDistinct (x ∷ xs) y d =
    ground (arith, contains-remove xs y x d.1, remove-IsDistinct xs y d.1)

length-remove :
    (xs : List ℕ) (y : ℕ) → contains xs y ≡ true → length xs ≡ suc (length (remove xs y))
unfolding remove
length-remove [] y h = cc
length-remove (x ∷ xs) y h = ground (arith, length-remove xs y)

-- A list without repetition that has the members of `ys` has as many entries as `ys` has members.
pub length-IsDistinct :
    (ys xs : List ℕ)
    → IsDistinct xs
    → ((t : ℕ) → contains xs t ≡ contains ys t)
    → length xs ≡ count_distinct ys
length-IsDistinct [] [] d same = refl
length-IsDistinct [] (x ∷ xs) d same = ground (arith, same x)
length-IsDistinct (y ∷ ys) xs d same = elim (Bool-cases (contains ys y)) [
  | inl again ↦ rw again (length-IsDistinct ys xs d (λ t. ground (arith, same t)))
  | inr once ↦ rw once (
      length-remove xs y (ground (arith, same y))
      ∙ ap suc (
          length-IsDistinct ys (remove xs y) (remove-IsDistinct xs y d)
            (λ t. ground (arith, same t, contains-remove xs y t d))))
]

pub IsDistinct-insert :
    (xs : List ℕ) (v : ℕ) (ys : List ℕ)
    → IsDistinct (xs ++ ys)
    → contains (xs ++ ys) v ≡ false
    → IsDistinct (xs ++ v ∷ ys)
IsDistinct-insert [] v ys d h = (h, d)
IsDistinct-insert (x ∷ xs) v ys d h =
    ground
      (arith, IsDistinct-insert xs v ys d.1, contains-append xs ys x, contains-append xs (v ∷ ys) x)
