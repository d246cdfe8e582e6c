-- ===== src/Prelude/Sort.antt =====
-- sort.Strings: the lexicographic order of byte strings.
use mathlib.Core.Bool.{Bool, true, false, ◌||◌}
use mathlib.Core.List.{List, [], ◌∷◌}
use mathlib.Core.Path.{◌≡◌, refl}
use native.Mathlib.Omega.{arith}
use go_txnproof.Prelude.Tests.{if◌then◌else◌, ltb}
use go_txnproof.Prelude.Text.{Bytes, bytes_eq}

-- `a <= b` on strings.
unfoldable pub text_le : Bytes → Bytes → Bool
text_le [] b = true
text_le (x ∷ a) [] = false
text_le (x ∷ a) (y ∷ b) = if ltb x y then true else if ltb y x then false else text_le a b

unfoldable pub insert_sorted : Bytes → List Bytes → List Bytes
insert_sorted s [] = s ∷ []
insert_sorted s (t ∷ ts) = if text_le s t then s ∷ t ∷ ts else t ∷ insert_sorted s ts

unfoldable pub sort_strings : List Bytes → List Bytes
sort_strings [] = []
sort_strings (s ∷ ss) = insert_sorted s (sort_strings ss)

-- Whether a string stands in a list.
abbrev pub text_mem : List Bytes → Bytes → Bool
text_mem [] k = false
text_mem (s ∷ ss) k = bytes_eq s k || text_mem ss k

text_mem-insert_sorted :
    (s : Bytes) (ts : List Bytes) (k : Bytes)
    → text_mem (insert_sorted s ts) k ≡ (bytes_eq s k || text_mem ts k)
unfolding insert_sorted
text_mem-insert_sorted s [] k = refl
text_mem-insert_sorted s (t ∷ ts) k = ground (arith, text_mem-insert_sorted s ts k)

-- Sorting keeps the members.
pub text_mem-sort_strings :
    (ss : List Bytes) (k : Bytes) → text_mem (sort_strings ss) k ≡ text_mem ss k
unfolding sort_strings
text_mem-sort_strings [] k = refl
text_mem-sort_strings (s ∷ ss) k =
    ground (arith, text_mem-insert_sorted s (sort_strings ss) k, text_mem-sort_strings ss k)

abbrev FirstLe : Bytes → List Bytes → Type 0
FirstLe s [] = Unit {0}
FirstLe s (t ∷ ts) = text_le s t ≡ true

abbrev pub IsSorted : List Bytes → Type 0
IsSorted [] = Unit {0}
IsSorted (s ∷ ss) = FirstLe s ss × IsSorted ss

text_le_total : (a b : Bytes) → text_le a b ≡ false → text_le b a ≡ true
unfolding text_le
text_le_total [] b h = cc
text_le_total (x ∷ a) [] h = refl
text_le_total (x ∷ a) (y ∷ b) h = ground (arith, text_le_total a b)

insert_sorted-IsSorted : (s : Bytes) (ts : List Bytes) → IsSorted ts → IsSorted (insert_sorted s ts)
unfolding insert_sorted
insert_sorted-IsSorted s [] h = (tt, tt)
insert_sorted-IsSorted s (t ∷ []) h = ground (arith, text_le_total s t)
insert_sorted-IsSorted s (t ∷ u ∷ ts) h =
    ground (arith, text_le_total s t, text_le_total s u, insert_sorted-IsSorted s (u ∷ ts) h.1)

pub sort_strings-IsSorted : (ss : List Bytes) → IsSorted (sort_strings ss)
unfolding sort_strings
sort_strings-IsSorted [] = tt
sort_strings-IsSorted (s ∷ ss) =
    insert_sorted-IsSorted s (sort_strings ss) (sort_strings-IsSorted ss)
