-- ===== src/Compact.antt =====
-- compactSQL of crosscheck/check.go and mycheck/parse.go, and the same call in reporter.go: a text on
-- one line, its fields joined by blanks.
pub mod Key
use go_txnproof.Prelude.{
  ℕ, zero, suc, List, [], ◌∷◌, ◌++◌, Bytes, if◌then◌else◌, length, take, drop,
}
use go_txnproof.Throttle.Key.{rune_at, is_space_rune}

-- A field that has ended, if it has begun.
unfoldable pub close_field : Bytes → List Bytes → List Bytes
close_field [] ws = ws
close_field (c ∷ w) ws = (c ∷ w) ∷ ws

-- The loop of strings.Fields over the runes of a text, with the field so far.
unfoldable pub fields_loop : ℕ → Bytes → Bytes → List Bytes
fields_loop zero word q = close_field word []
fields_loop (suc fuel) word [] = close_field word []
fields_loop (suc fuel) word (c ∷ q) =
    let (r, size) = rune_at c q in
    let rest = drop size (c ∷ q) in
    let ended = close_field word (fields_loop fuel [] rest) in
    let more = fields_loop fuel (word ++ take size (c ∷ q)) rest in
    if is_space_rune r then ended else more

-- strings.Fields; a rune takes a byte at least, so the length is enough rounds.
unfoldable pub fields : Bytes → List Bytes
fields q = fields_loop (length q) [] q

-- strings.Join(words, " ")
unfoldable pub join_words : List Bytes → Bytes
join_words [] = []
join_words (w ∷ []) = w
join_words (w ∷ v ∷ ws) = w ++ (b' ' ∷ join_words (v ∷ ws))

-- `compactSQL`
unfoldable pub compact_sql : Bytes → Bytes
compact_sql q = join_words (fields q)
