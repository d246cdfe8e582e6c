-- ===== src/Slog/Lines.antt =====
-- The lines of a log record, and what a reader gets back from them.
use go_txnproof.Prelude.{
  ℕ, zero, suc, ◌+◌, ◌≡◌, refl, sym, ap, ◌∙◌, false, List, [], ◌∷◌, ◌++◌, map, arith, Bytes, codes,
  bytes_eq, bytes_eq_iff, contains, contains-append, ◌==◌, if◌then◌else◌, drop, Bool-cases, inl,
  inr,
}
use Prim.Native.Nat.{◌/◌, ◌%◌}
use go_txnproof.Prelude.Sort.{text_mem}
use go_txnproof.Report.{StatementRecord}
use go_txnproof.Detector.{is_write}
use go_txnproof.Compact.{compact_sql}
use go_txnproof.Mycheck.Labels.{decimal, digits}
use go_txnproof.Mycheck.Injective.{decimal_inj}
use go_txnproof.Slog.{auto_commit, unit_label, write_line, write_lines}

-- The text up to a closing bracket.
abbrev until_bracket : Bytes → Bytes
until_bracket [] = []
until_bracket (c ∷ s) = if c == b']' then [] else c ∷ until_bracket s

-- The unit that a line names in front.
abbrev pub unit_of_line : Bytes → Bytes
unit_of_line [] = []
unit_of_line (c ∷ s) = until_bracket s

-- The text that a line shows behind the unit and a blank.
abbrev behind_bracket : Bytes → Bytes
behind_bracket [] = []
behind_bracket (c ∷ s) = if c == b']' then drop 1 s else behind_bracket s

-- A line as a reader takes it: the unit and the text.
abbrev pub read_line : Bytes → Bytes × Bytes
read_line line = (unit_of_line line, behind_bracket line)

-- The name of a unit: the transaction number 0 stands for none.
abbrev pub unit_name : ℕ → Bytes
unit_name zero = codes "auto-commit"
unit_name (suc n) = codes "tx#" ++ decimal (suc n)

abbrev pub writes_of : List StatementRecord → List StatementRecord
writes_of [] = []
writes_of (s ∷ ss) = if is_write s.kind then s ∷ writes_of ss else writes_of ss

-- The units of a list of names: each auto-commit, and each other name once.
abbrev pub count_units : List Bytes → ℕ
count_units [] = 0
count_units (u ∷ us) =
    let rest = count_units us in
    if bytes_eq u auto_commit then suc rest else if text_mem us u then rest else suc rest

behind_tx : (x y : Bytes) → codes "tx#" ++ x ≡ codes "tx#" ++ y → x ≡ y
behind_tx x y h = ground (arith, h)

unit_label-suc : (n : ℕ) → unit_label (suc n) ≡ codes "tx#" ++ decimal (suc n)
unfolding unit_label
unit_label-suc n = ground arith

unit_label_inj : (m n : ℕ) → unit_label m ≡ unit_label n → m ≡ n
unfolding unit_label
unit_label_inj zero zero h = refl
unit_label_inj zero (suc n) h = absurd (ground (arith, h))
unit_label_inj (suc m) zero h = absurd (ground (arith, h))
unit_label_inj (suc m) (suc n) h =
    decimal_inj (suc m) (suc n) (
      behind_tx (decimal (suc m)) (decimal (suc n)) (sym (unit_label-suc m) ∙ h ∙ unit_label-suc n))

pub bytes_eq-unit_label : (m n : ℕ) → bytes_eq (unit_label m) (unit_label n) ≡ m == n
bytes_eq-unit_label m n = elim (Bool-cases (m == n)) [
  | inl t ↦ ground (arith, t, bytes_eq_iff (unit_label m) (unit_label n))
  | inr f ↦ ground (arith, f, bytes_eq_iff (unit_label m) (unit_label n), unit_label_inj m n)
]

pub unit_label-zero : unit_label 0 ≡ auto_commit
unfolding unit_label
unit_label-zero = refl

-- No bracket stands in a name of a unit.
digits_plain : (fuel n : ℕ) → contains (digits fuel n) b']' ≡ false
unfolding digits
digits_plain zero n = refl
digits_plain (suc fuel) n = ground (
  arith,
  digits_plain fuel (n / 10),
  contains-append (digits fuel (n / 10)) ((n % 10 + b'0') ∷ []) b']',
)

until_bracket-plain :
    (u rest : Bytes) → contains u b']' ≡ false → until_bracket (u ++ (b']' ∷ rest)) ≡ u
until_bracket-plain [] rest h = refl
until_bracket-plain (c ∷ u) rest h = ground (arith, h, until_bracket-plain u rest)

unit_label_plain : (tx : ℕ) → contains (unit_label tx) b']' ≡ false
unfolding unit_label decimal
unit_label_plain zero = refl
unit_label_plain (suc tx) = ground (arith, digits_plain (suc (suc tx)) (suc tx))

pub unit_of_line-write_line :
    (s : StatementRecord) → unit_of_line (write_line s) ≡ unit_label s.tx_id
unfolding write_line
unit_of_line-write_line s = until_bracket-plain (unit_label s.tx_id) _ (unit_label_plain s.tx_id)

pub unit_label-unit_name : (tx : ℕ) → unit_label tx ≡ unit_name tx
unfolding unit_label
unit_label-unit_name zero = refl
unit_label-unit_name (suc n) = unit_label-suc n

behind_bracket-plain :
    (u rest : Bytes) → contains u b']' ≡ false → behind_bracket (u ++ (codes "] " ++ rest)) ≡ rest
behind_bracket-plain [] rest h = refl
behind_bracket-plain (c ∷ u) rest h = ground (arith, h, behind_bracket-plain u rest)

-- A reader gets back the unit and the text of each line.
read_line-write_line :
    (s : StatementRecord) → read_line (write_line s) ≡ (unit_name s.tx_id, compact_sql s.query)
unfolding write_line
read_line-write_line s =
    let plain = unit_label_plain s.tx_id in
    ap (λ u. (u, behind_bracket (write_line s)))
      (unit_of_line-write_line s ∙ unit_label-unit_name s.tx_id)
    ∙ ap (λ t. (unit_name s.tx_id, t))
        (behind_bracket-plain (codes "[" ++ unit_label s.tx_id) (compact_sql s.query) plain)

pub map-read_line :
    (ss : List StatementRecord)
    → map read_line (write_lines ss)
      ≡ map (λ s. (unit_name s.tx_id, compact_sql s.query)) (writes_of ss)
unfolding write_lines
map-read_line [] = refl
map-read_line (s ∷ ss) = elim (Bool-cases (is_write s.kind)) [
  | inl t ↦ rw t (
      ap (λ x. x ∷ map read_line (write_lines ss)) (read_line-write_line s)
      ∙ ap (λ xs. (unit_name s.tx_id, compact_sql s.query) ∷ xs) (map-read_line ss))
  | inr f ↦ rw f (map-read_line ss)
]
