-- ===== src/Throttle/Window.antt =====
-- What `admit` lets through of a run of reports, key by key.
use go_txnproof.Prelude.{
  ℕ, ◌+◌, ◌≤◌, ◌≡◌, refl, ◌∙◌, sym, subst, ap, Bool, true, false, List, [], ◌∷◌, Option, none, some,
  arith, Bytes, bytes_eq, bytes_eq_iff, leb, if◌then◌else◌, length,
}
use go_txnproof.Prelude.Dict.{lookup, insert, lookup-insert, IsMap, insert-IsMap}
use go_txnproof.Report.{Violation}
use go_txnproof.Throttle.{ThrottleState, Windows, admit_state, admit}

-- A violation and the time of its report.
abbrev pub Timed : Type 0
Timed = ℕ × Violation

-- The times of the reports on a boundary.
abbrev pub times : Bytes → List Timed → List ℕ
times k [] = []
times k ((t, v) ∷ es) = if bytes_eq v.boundary k then t ∷ times k es else times k es

-- Of the times of one boundary, those that begin an interval: `last` began the one before.
abbrev pub openings : ℕ → Option ℕ → List ℕ → List ℕ
openings interval last [] = []
openings interval none (t ∷ ts) = t ∷ openings interval (some t) ts
openings interval (some l) (t ∷ ts) =
    let next = openings interval (some t) ts in
    let same = openings interval (some l) ts in if leb (l + interval) t then t ∷ next else same

-- Each time is an interval behind the one before.
abbrev pub SpacedFrom : ℕ → ℕ → List ℕ → Type 0
SpacedFrom interval l [] = Unit {0}
SpacedFrom interval l (t ∷ ts) = (l + interval ≤ t) × SpacedFrom interval t ts

abbrev pub Spaced : ℕ → List ℕ → Type 0
Spaced interval [] = Unit {0}
Spaced interval (t ∷ ts) = SpacedFrom interval t ts

-- The reports that `admit` lets through, and the map behind them.
abbrev pub admitted : ℕ → Windows → List Timed → List Timed
admitted interval m [] = []
admitted interval m ((t, v) ∷ es) =
    let (ok, m') = admit interval m v.boundary 0 t in
    let rest = admitted interval m' es in if ok then (t, v) ∷ rest else rest

abbrev pub admitted_map : ℕ → Windows → List Timed → Windows
admitted_map interval m [] = m
admitted_map interval m ((t, v) ∷ es) = admitted_map interval (admit interval m v.boundary 0 t).1 es

abbrev pub last_of : Option ThrottleState → Option ℕ
last_of none = none
last_of (some st) = some st.last_forwarded

abbrev pub suppressed_of : Option ThrottleState → ℕ
suppressed_of none = 0
suppressed_of (some st) = st.suppressed

openings-SpacedFrom :
    (interval l : ℕ) (ts : List ℕ) → SpacedFrom interval l (openings interval (some l) ts)
openings-SpacedFrom interval l [] = tt
openings-SpacedFrom interval l (t ∷ ts) =
    ground (arith, openings-SpacedFrom interval l ts, openings-SpacedFrom interval t ts)

pub openings-Spaced : (interval : ℕ) (ts : List ℕ) → Spaced interval (openings interval none ts)
openings-Spaced interval [] = tt
openings-Spaced interval (t ∷ ts) = openings-SpacedFrom interval t ts

-- What one report does to the state of its key.
abbrev next_state : ℕ → ℕ → Option ThrottleState → Bool × ThrottleState
next_state interval now none = (true, record { last_forwarded = now; suppressed = 0 })
next_state interval now (some st) =
    if leb (st.last_forwarded + interval) now
    then (true, record st { last_forwarded = now })
    else (false, record st { suppressed = st.suppressed + 1 })

admit_state_lem :
    (interval : ℕ) (m : Windows) (key : Bytes) (now : ℕ) (o : Option ThrottleState)
    → let (ok, st) = next_state interval now o in
      admit_state interval m key 0 now o ≡ (ok, insert m key st)
unfolding admit_state
admit_state_lem interval m key now none = refl
admit_state_lem interval m key now (some st) = ground arith

admit_lem :
    (interval : ℕ) (m : Windows) (key : Bytes) (now : ℕ)
    → let (ok, st) = next_state interval now (lookup m key) in
      admit interval m key 0 now ≡ (ok, insert m key st)
unfolding admit
admit_lem interval m key now = admit_state_lem interval m key now (lookup m key)

-- The same for another key, which it leaves alone.
abbrev state_after : ℕ → Bytes → ℕ → Bytes → Option ThrottleState → Option ThrottleState
state_after interval key now k o = if bytes_eq key k then some (next_state interval now o).1 else o

admit-state_after :
    (interval : ℕ) (m : Windows) (key : Bytes) (now : ℕ) (k : Bytes)
    → lookup (admit interval m key 0 now).1 k ≡ state_after interval key now k (lookup m k)
admit-state_after interval m key now k =
    let st = (next_state interval now (lookup m key)).1 in
    ap (λ (r : Bool × Windows). lookup r.1 k) (admit_lem interval m key now)
    ∙ lookup-insert m key k st
    ∙ ground (arith, bytes_eq_iff key k)

admit-ok :
    (interval : ℕ) (m : Windows) (key : Bytes) (now : ℕ) (k : Bytes)
    → bytes_eq key k ≡ true
    → (admit interval m key 0 now).0 ≡ (next_state interval now (lookup m k)).0
admit-ok interval m key now k same =
    ap (λ (r : Bool × Windows). r.0) (admit_lem interval m key now)
    ∙ ap (λ j. (next_state interval now (lookup m j)).0) ((bytes_eq_iff key k).0 same)

admit-IsMap :
    (interval : ℕ) (m : Windows) (key : Bytes) (now : ℕ)
    → IsMap m
    → IsMap (admit interval m key 0 now).1
admit-IsMap interval m key now h =
    subst (λ (r : Bool × Windows). IsMap r.1) (sym (admit_lem interval m key now))
      (insert-IsMap m key _ h)

-- The first report of a run, for the times of one boundary.
times-step :
    (interval : ℕ) (t : ℕ) (v : Violation) (es : List Timed) (k : Bytes) (o : Option ThrottleState)
    (ok : Bool) (rest : List Timed)
    → (bytes_eq v.boundary k ≡ true → ok ≡ (next_state interval t o).0)
    → times k rest
      ≡ openings interval (last_of (state_after interval v.boundary t k o)) (times k es)
    → times k (if ok then (t, v) ∷ rest else rest)
      ≡ openings interval (last_of o) (times k ((t, v) ∷ es))
times-step interval t v es k none ok rest h ih = ground arith
times-step interval t v es k (some st) ok rest h ih = ground arith

pub times-admitted :
    (interval : ℕ) (es : List Timed) (m : Windows) (k : Bytes)
    → times k (admitted interval m es) ≡ openings interval (last_of (lookup m k)) (times k es)
times-admitted interval [] m k = refl
times-admitted interval ((t, v) ∷ es) m k =
    let m' = (admit interval m v.boundary 0 t).1 in
    times-step interval t v es k (lookup m k) (admit interval m v.boundary 0 t).0
      (admitted interval m' es) (admit-ok interval m v.boundary t k)
      (times-admitted interval es m' k
        ∙ ap (λ o. openings interval (last_of o) (times k es))
            (admit-state_after interval m v.boundary t k))

-- What is not let through is counted.
count-step :
    (interval : ℕ) (t : ℕ) (v : Violation) (es : List Timed) (k : Bytes) (o : Option ThrottleState)
    (ok : Bool) (rest : List Timed) (n : ℕ)
    → (bytes_eq v.boundary k ≡ true → ok ≡ (next_state interval t o).0)
    → n + length (times k rest)
      ≡ suppressed_of (state_after interval v.boundary t k o) + length (times k es)
    → n + length (times k (if ok then (t, v) ∷ rest else rest))
      ≡ suppressed_of o + length (times k ((t, v) ∷ es))
count-step interval t v es k none ok rest n h ih = ground arith
count-step interval t v es k (some st) ok rest n h ih = ground arith

pub counts-admitted :
    (interval : ℕ) (es : List Timed) (m : Windows) (k : Bytes)
    → suppressed_of (lookup (admitted_map interval m es) k)
        + length (times k (admitted interval m es))
      ≡ suppressed_of (lookup m k) + length (times k es)
counts-admitted interval [] m k = refl
counts-admitted interval ((t, v) ∷ es) m k =
    let m' = (admit interval m v.boundary 0 t).1 in
    let ih = counts-admitted interval es m' k in
    count-step interval t v es k (lookup m k) (admit interval m v.boundary 0 t).0
      (admitted interval m' es) (suppressed_of (lookup (admitted_map interval m' es) k))
      (admit-ok interval m v.boundary t k)
      (ih
        ∙ ap (λ o. suppressed_of o + length (times k es))
            (admit-state_after interval m v.boundary t k))

pub admitted_map-IsMap :
    (interval : ℕ) (es : List Timed) (m : Windows) → IsMap m → IsMap (admitted_map interval m es)
admitted_map-IsMap interval [] m h = h
admitted_map-IsMap interval ((t, v) ∷ es) m h =
    admitted_map-IsMap interval es _ (admit-IsMap interval m v.boundary t h)
