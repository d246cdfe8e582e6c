-- ===== src/Throttle/Key.antt =====
-- throttle.go: the key of a statement without a boundary, its text with the white space normalized.
pub mod Normal
pub mod Bound
use go_txnproof.Prelude.{
  ℕ, zero, suc, ◌+◌, ◌-◌, ◌*◌, ◌≤◌, ◌≡◌, Bool, true, false, not, ◌&&◌, ◌||◌, List, [], ◌∷◌, ◌++◌,
  arith, Bytes, ltb, leb, ◌==◌, if◌then◌else◌, length, length-append, take, drop,
}

abbrev pub unbounded_write_key_len : ℕ
unbounded_write_key_len = 200

-- Whether a byte goes on with a rune of UTF-8.
abbrev is_cont : ℕ → Bool
is_cont c = leb 128 c && leb c 191

abbrev pub rune_error : ℕ
rune_error = 65533

-- The least and the greatest second byte behind a first byte of three bytes or four.
abbrev second_min : ℕ → ℕ
second_min c = if c == 224 then 160 else if c == 240 then 144 else 128

abbrev second_max : ℕ → ℕ
second_max c = if c == 237 then 159 else if c == 244 then 143 else 191

abbrev is_second : ℕ → ℕ → Bool
is_second c d = leb (second_min c) d && leb d (second_max c)

-- utf8.DecodeRuneInString on a text that begins with the byte `c`, 128 at least.
unfoldable pub decode_rune : ℕ → Bytes → ℕ × ℕ
decode_rune c [] = (rune_error, 1)
decode_rune c (d ∷ []) =
    if leb 194 c && leb c 223 && is_cont d then ((c - 192) * 64 + (d - 128), 2) else (rune_error, 1)
decode_rune c (d ∷ e ∷ []) =
    if leb 194 c && leb c 223 && is_cont d
    then ((c - 192) * 64 + (d - 128), 2)
    else if leb 224 c && leb c 239 && is_second c d && is_cont e
    then ((c - 224) * 4096 + (d - 128) * 64 + (e - 128), 3)
    else (rune_error, 1)
decode_rune c (d ∷ e ∷ f ∷ q) =
    if leb 194 c && leb c 223 && is_cont d
    then ((c - 192) * 64 + (d - 128), 2)
    else if leb 224 c && leb c 239 && is_second c d && is_cont e
    then ((c - 224) * 4096 + (d - 128) * 64 + (e - 128), 3)
    else if leb 240 c && leb c 244 && is_second c d && is_cont e && is_cont f
    then ((c - 240) * 262144 + (d - 128) * 4096 + (e - 128) * 64 + (f - 128), 4)
    else (rune_error, 1)

-- The rune at the start of a text, and its size.
unfoldable pub rune_at : ℕ → Bytes → ℕ × ℕ
rune_at c q = if leb 128 c then decode_rune c q else (c, 1)

-- unicode.IsSpace
unfoldable pub is_space_rune : ℕ → Bool
is_space_rune r =
    (leb 9 r && leb r 13)
    || r == 32
    || r == 133
    || r == 160
    || r == 5760
    || (leb 8192 r && leb r 8202)
    || r == 8232
    || r == 8233
    || r == 8239
    || r == 8287
    || r == 12288

-- The bytes `buf[:n]`, after a pending space.
unfoldable pub put_space : Bytes → Bool → Bytes
put_space buf pending = if pending then buf ++ b' ' ∷ [] else buf

-- `copy(buf[n:], s)`, which stops where the buffer ends.
unfoldable pub put_rune : Bytes → Bytes → Bytes
put_rune buf s = buf ++ take (unbounded_write_key_len - length buf) s

-- The loop, over the text that is left; the fuel is the bound of its passes.
unfoldable pub key_loop : ℕ → Bytes → Bool → Bytes → Bytes
key_loop zero buf pending q = buf
key_loop (suc fuel) buf pending [] = buf
key_loop (suc fuel) buf pending (c ∷ q) =
    let (r, size) = rune_at c q in
    let rest = drop size (c ∷ q) in
    let spaced = put_space buf pending in
    let space = key_loop fuel buf (ltb 0 (length buf)) rest in
    let text = key_loop fuel (put_rune spaced (take size (c ∷ q))) false rest in
    if ltb (length buf) unbounded_write_key_len
    then (if is_space_rune r
        then space
        else if length spaced == unbounded_write_key_len
        then spaced
        else text)
    else buf

-- `unboundedWriteKey`
unfoldable pub unbounded_write_key : Bytes → Bytes
unbounded_write_key query = key_loop (length query) [] false query
