-- ===== src/Crosscheck/Markers.antt =====
-- crosscheck/scenario.go: the statements of a log between two marker statements.
pub mod Slice
pub mod Literal
use go_txnproof.Prelude.{
  ℕ, zero, suc, ◌+◌, Bool, true, false, List, [], ◌∷◌, ◌++◌, Option, none, some, Bytes, codes,
  contains_text, ◌==◌, if◌then◌else◌, take, drop,
}
use go_txnproof.Crosscheck.{LogStatement}

-- strings.ReplaceAll(label, "'", "''")
unfoldable pub double_quotes : Bytes → Bytes
double_quotes [] = []
double_quotes (c ∷ s) = if c == b'\'' then c ∷ c ∷ double_quotes s else c ∷ double_quotes s

-- `markerLiteral`
unfoldable pub marker_literal : Bytes → Bytes → Bytes
marker_literal kind label =
    codes "'txnproof:" ++ kind ++ codes ":" ++ double_quotes label ++ codes "'"

abbrev pub begin_kind : Bytes
begin_kind = codes "begin"

abbrev pub end_kind : Bytes
end_kind = codes "end"

-- `BeginMarker`
unfoldable pub begin_marker : Bytes → Bytes
begin_marker label = codes "SELECT " ++ marker_literal begin_kind label

-- `EndMarker`
unfoldable pub end_marker : Bytes → Bytes
end_marker label = codes "SELECT " ++ marker_literal end_kind label

-- The index at which a loop over the statements first finds a literal.
unfoldable pub first_with : Bytes → List LogStatement → Option ℕ
first_with lit [] = none
first_with lit (st ∷ sts) =
    let rest = first_with lit sts in
    if contains_text st.sql lit then some 0 else elim rest [ none ↦ none | some i ↦ some (suc i) ]

-- What `Scenario` returns: the statements, or the error on a marker.
pub data Sliced : Type 0 where
  sliced : List LogStatement → Sliced
  no_begin no_end : Sliced

-- The second loop of `Scenario`, over the statements behind the begin marker.
unfoldable pub slice_to : List LogStatement → Option ℕ → Sliced
slice_to sts none = no_end
slice_to sts (some j) = sliced (take j sts)

unfoldable pub slice_from : List LogStatement → Bytes → Option ℕ → Sliced
slice_from sts end_lit none = no_begin
slice_from sts end_lit (some i) =
    let tail = drop (i + 1) sts in slice_to tail (first_with end_lit tail)

-- `Scenario`
unfoldable pub scenario : List LogStatement → Bytes → Sliced
scenario sts label =
    slice_from sts (marker_literal end_kind label)
      (first_with (marker_literal begin_kind label) sts)
