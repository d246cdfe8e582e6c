-- ===== src/Message/OneLine.antt =====
-- The parts of the text of a violation that stay on one line.
use go_txnproof.Prelude.{
  ℕ, zero, suc, ◌+◌, ◌≡◌, refl, sym, subst, Bool, true, false, ◌&&◌, Bool-cases, inl, inr, List, [],
  ◌∷◌, ◌++◌, arith, Bytes, codes, contains, contains-append, ◌==◌, leb, ltb, if◌then◌else◌, length,
  take, drop,
}
use Prim.Native.Nat.{◌/◌, ◌%◌}
use go_txnproof.Throttle.Key.{rune_at, decode_rune, is_space_rune, rune_error}
use go_txnproof.Compact.{close_field, fields_loop, fields, join_words, compact_sql}
use go_txnproof.Mycheck.Labels.{decimal, digits}
use go_txnproof.Slog.{unit_label, write_line}
use go_txnproof.Message.{
  hex, control, more_units, format_write_units, allowed_text, is_print, escaped_rune, quote_loop,
  quote, heading,
}
use go_txnproof.Report.{StatementRecord, Violation}

-- A text on one line.
unfoldable pub IsLine : Bytes → Type 0
IsLine s = contains s b'\n' ≡ false

nil-IsLine : IsLine []
unfolding IsLine
nil-IsLine = refl

pub append-IsLine : (s t : Bytes) → IsLine s → IsLine t → IsLine (s ++ t)
unfolding IsLine
append-IsLine s t h k = ground (arith, h, k, contains-append s t b'\n')

-- No byte of a rune outside ASCII, or of a wrong one, is a newline.
decode_rune-IsLine :
    (c : ℕ) (q : Bytes) → leb 128 c ≡ true → IsLine (take (decode_rune c q).1 (c ∷ q))
unfolding IsLine decode_rune
decode_rune-IsLine c [] h = ground (arith, h)
decode_rune-IsLine c (d ∷ []) h = ground (arith, h)
decode_rune-IsLine c (d ∷ e ∷ []) h = ground (arith, h)
decode_rune-IsLine c (d ∷ e ∷ f ∷ q) h = ground (arith, h)

rune_at-IsLine : (c : ℕ) (q : Bytes) → c == b'\n' ≡ false → IsLine (take (rune_at c q).1 (c ∷ q))
unfolding IsLine rune_at
rune_at-IsLine c q h = elim (Bool-cases (leb 128 c)) [
  | inl t ↦ rw t (decode_rune-IsLine c q t)
  | inr f ↦ rw f (ground (arith, h))
]

digits-IsLine : (fuel n : ℕ) → IsLine (digits fuel n)
unfolding IsLine digits
digits-IsLine zero n = refl
digits-IsLine (suc fuel) n = ground (
  arith,
  digits-IsLine fuel (n / 10),
  contains-append (digits fuel (n / 10)) ((n % 10 + b'0') ∷ []) b'\n',
)

hex-IsLine : (n r : ℕ) → IsLine (hex n r)
unfolding IsLine hex
hex-IsLine zero r = refl
hex-IsLine (suc n) r =
    let d = r % 16 in
    let digit = if ltb d 10 then d + b'0' else d + 87 in
    append-IsLine (hex n (r / 16)) (digit ∷ []) (hex-IsLine n (r / 16)) (ground arith)

control-IsLine : (r : ℕ) → IsLine (control r)
unfolding IsLine control
control-IsLine r = ground (arith, hex-IsLine 2 r, hex-IsLine 4 r, hex-IsLine 8 r)

space_newline : (c : ℕ) (q : Bytes) → is_space_rune (rune_at c q).0 ≡ false → c == b'\n' ≡ false
unfolding rune_at is_space_rune
space_newline c q h = elim (Bool-cases (c == b'\n')) [ inl t ↦ ground (arith, t, h) | inr f ↦ f ]

-- All of some texts are on one line.
abbrev pub all_lines : List Bytes → Bool
all_lines [] = true
all_lines (w ∷ ws) = if contains w b'\n' then false else all_lines ws

close_field-lines :
    (w : Bytes) (ws : List Bytes)
    → IsLine w
    → all_lines ws ≡ true
    → all_lines (close_field w ws) ≡ true
unfolding IsLine close_field
close_field-lines [] ws h k = k
close_field-lines (c ∷ w) ws h k = rw h k

fields_loop-lines : (fuel : ℕ) (w q : Bytes) → IsLine w → all_lines (fields_loop fuel w q) ≡ true
unfolding fields_loop
fields_loop-lines zero w q h = close_field-lines w [] h refl
fields_loop-lines (suc fuel) w [] h = close_field-lines w [] h refl
fields_loop-lines (suc fuel) w (c ∷ q) h =
    let (r, size) = rune_at c q in
    let rest = drop size (c ∷ q) in
    elim (Bool-cases (is_space_rune r)) [
      | inl space ↦ rw space (
          close_field-lines w (fields_loop fuel [] rest) h
            (fields_loop-lines fuel [] rest nil-IsLine))
      | inr letter ↦ rw letter (
          fields_loop-lines fuel (w ++ take size (c ∷ q)) rest
            (append-IsLine w (take size (c ∷ q)) h (rune_at-IsLine c q (space_newline c q letter))))
    ]

join_words-IsLine : (ws : List Bytes) → all_lines ws ≡ true → IsLine (join_words ws)
unfolding IsLine join_words
join_words-IsLine [] h = refl
join_words-IsLine (w ∷ []) h = ground (arith, h)
join_words-IsLine (w ∷ v ∷ ws) h =
    ground
      (arith, h, join_words-IsLine (v ∷ ws), contains-append w (b' ' ∷ join_words (v ∷ ws)) b'\n')

compact_sql-IsLine : (q : Bytes) → IsLine (compact_sql q)
unfolding compact_sql fields
compact_sql-IsLine q =
    join_words-IsLine (fields_loop (length q) [] q) (fields_loop-lines (length q) [] q nil-IsLine)

unit_label-IsLine : (tx : ℕ) → IsLine (unit_label tx)
unfolding IsLine unit_label decimal
unit_label-IsLine zero = refl
unit_label-IsLine (suc tx) = ground (arith, digits-IsLine (suc (suc tx)) (suc tx))

pub write_line-IsLine : (s : StatementRecord) → IsLine (write_line s)
unfolding IsLine write_line
write_line-IsLine s = ground (
  arith,
  unit_label-IsLine s.tx_id,
  compact_sql-IsLine s.query,
  contains-append (unit_label s.tx_id) (codes "] " ++ compact_sql s.query) b'\n',
)

pub decimal-IsLine : (n : ℕ) → IsLine (decimal n)
unfolding decimal
decimal-IsLine n = digits-IsLine (suc n) n

more_units-IsLine : (ns : List ℕ) → IsLine (more_units ns)
unfolding IsLine more_units
more_units-IsLine [] = refl
more_units-IsLine (n ∷ []) = decimal-IsLine n
more_units-IsLine (n ∷ m ∷ ns) =
    append-IsLine (decimal n) (more_units (m ∷ ns)) (decimal-IsLine n) (more_units-IsLine (m ∷ ns))

allowed_text-IsLine : (ns : List ℕ) → IsLine (allowed_text ns)
unfolding IsLine allowed_text format_write_units
allowed_text-IsLine [] = refl
allowed_text-IsLine (n ∷ ns) =
    append-IsLine (decimal n ++ (more_units ns ++ codes " write unit(s)"))
      (codes ", so this execution is not covered)")
      (append-IsLine (decimal n) (more_units ns ++ codes " write unit(s)") (decimal-IsLine n)
        (append-IsLine (more_units ns) (codes " write unit(s)") (more_units-IsLine ns) refl))
      refl

if-IsLine : (b : Bool) (s t : Bytes) → IsLine s → IsLine t → IsLine (if b then s else t)
if-IsLine true s t h k = h
if-IsLine false s t h k = k

hex_escape-IsLine : (c : ℕ) (s : Bytes) → IsLine s → IsLine (codes "\\x" ++ (hex 2 c ++ s))
unfolding IsLine
hex_escape-IsLine c s h = append-IsLine (hex 2 c) s (hex-IsLine 2 c) h

module _ (is_print_rune : ℕ → Bool) where
  escaped_rune-IsLine :
      (c : ℕ) (q : Bytes)
      → IsLine (escaped_rune is_print_rune (rune_at c q).0 (take (rune_at c q).1 (c ∷ q)))
  unfolding IsLine escaped_rune is_print control rune_at
  escaped_rune-IsLine c q = elim (Bool-cases (c == b'\n')) [
    | inl t ↦
        let same : c ≡ b'\n' = ground (arith, t) in
        subst
          (λ d. IsLine (escaped_rune is_print_rune (rune_at d q).0 (take (rune_at d q).1 (d ∷ q))))
          (sym same) refl
    | inr f ↦ ground (arith, rune_at-IsLine c q f, control-IsLine (rune_at c q).0)
  ]

  quote_loop-IsLine : (fuel : ℕ) (s : Bytes) → IsLine (quote_loop is_print_rune fuel s)
  unfolding quote_loop
  quote_loop-IsLine zero s = nil-IsLine
  quote_loop-IsLine (suc fuel) [] = nil-IsLine
  quote_loop-IsLine (suc fuel) (c ∷ s) =
      let (r, size) = rune_at c s in
      let rest = drop size (c ∷ s) in
      if-IsLine (r == rune_error && size == 1) _ _
        (hex_escape-IsLine c (quote_loop is_print_rune fuel rest) (quote_loop-IsLine fuel rest))
        (append-IsLine (escaped_rune is_print_rune r (take size (c ∷ s)))
          (quote_loop is_print_rune fuel rest) (escaped_rune-IsLine c s)
          (quote_loop-IsLine fuel rest))

  pub heading-IsLine : (v : Violation) → IsLine (heading is_print_rune v)
  unfolding IsLine heading quote
  heading-IsLine v =
      let body = quote_loop is_print_rune (length v.boundary) v.boundary in
      let allowed = allowed_text v.allowed_write_units in
      append-IsLine (body ++ codes "\"")
        (codes " is not atomic: writes span "
          ++ (decimal v.write_units ++ (codes " atomic units" ++ (allowed ++ codes ":"))))
        (append-IsLine body (codes "\"") (quote_loop-IsLine (length v.boundary) v.boundary) refl)
        (append-IsLine (decimal v.write_units) (codes " atomic units" ++ (allowed ++ codes ":"))
          (decimal-IsLine v.write_units)
          (append-IsLine allowed (codes ":") (allowed_text-IsLine v.allowed_write_units) refl))
