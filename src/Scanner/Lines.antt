-- ===== src/Scanner/Lines.antt =====
-- Lines that were written with a newline behind each are read back.
use go_txnproof.Prelude.{
  ◌≡◌, refl, ap, ◌∙◌, Bool, true, false, not, ◌&&◌, List, [], ◌∷◌, ◌++◌, map, none, arith, Bytes,
  length, contains, ◌==◌, ltb,
}
use go_txnproof.Scanner.{
  Reader, lines_of, max_line, put_byte, split_lines, drop_cr, is_too_long, any_too_long, scan_end,
  scan,
}

-- The text of a list of lines.
unfoldable pub unlines : List Bytes → Bytes
unlines [] = []
unlines (l ∷ ls) = l ++ (b'\n' ∷ unlines ls)

unfoldable pub ends_in_cr : Bytes → Bool
ends_in_cr [] = false
ends_in_cr (c ∷ []) = c == b'\r'
ends_in_cr (c ∷ d ∷ s) = ends_in_cr (d ∷ s)

-- A line that a Scanner gives as it stands: no newline, no carriage return at its end, not too
-- long.
unfoldable pub is_line : Bytes → Bool
is_line l = not (contains l b'\n') && not (ends_in_cr l) && ltb (length l) max_line

abbrev pub all_lines : List Bytes → Bool
all_lines [] = true
all_lines (l ∷ ls) = is_line l && all_lines ls

-- A reader of a whole text.
abbrev pub reader_of : Bytes → Reader
reader_of s = record { content = s; failure = none }

drop_cr-same : (l : Bytes) → ends_in_cr l ≡ false → drop_cr l ≡ l
unfolding drop_cr ends_in_cr
drop_cr-same [] h = refl
drop_cr-same (c ∷ []) h = ground (arith, h)
drop_cr-same (c ∷ d ∷ s) h = ap (λ t. c ∷ t) (drop_cr-same (d ∷ s) h)

pub split_lines-line :
    (l rest : Bytes)
    → contains l b'\n' ≡ false
    → split_lines (l ++ (b'\n' ∷ rest)) ≡ l ∷ split_lines rest
unfolding split_lines put_byte
split_lines-line [] rest h = refl
split_lines-line (c ∷ l) rest h = ground (arith, h, split_lines-line l rest)

pub split_lines-unlines : (ls : List Bytes) → all_lines ls ≡ true → split_lines (unlines ls) ≡ ls
unfolding unlines is_line split_lines
split_lines-unlines [] h = refl
split_lines-unlines (l ∷ ls) h =
    split_lines-line l (unlines ls) (ground (arith, h))
    ∙ ap (λ xs. l ∷ xs) (split_lines-unlines ls (ground (arith, h)))

map-drop_cr : (ls : List Bytes) → all_lines ls ≡ true → map drop_cr ls ≡ ls
unfolding is_line
map-drop_cr [] h = refl
map-drop_cr (l ∷ ls) h =
    ap (λ x. x ∷ map drop_cr ls) (drop_cr-same l (ground (arith, h)))
    ∙ ap (λ xs. l ∷ xs) (map-drop_cr ls (ground (arith, h)))

any_too_long-none : (ls : List Bytes) → all_lines ls ≡ true → any_too_long ls ≡ false
unfolding is_line any_too_long is_too_long
any_too_long-none [] h = refl
any_too_long-none (l ∷ ls) h = ground (arith, h, any_too_long-none ls)

-- Lines written with a newline behind each are scanned as they stand.
pub scan-unlines :
    (ls : List Bytes) → all_lines ls ≡ true → scan (reader_of (unlines ls)) ≡ lines_of ls
unfolding scan scan_end
scan-unlines ls h =
    rw (split_lines-unlines ls h) (rw (any_too_long-none ls h) (ap lines_of (map-drop_cr ls h)))

-- Lines joined by newlines.
abbrev pub join_lines : Bytes → List Bytes → Bytes
join_lines first [] = first
join_lines first (l ∷ ls) = join_lines (first ++ (b'\n' ∷ l)) ls
