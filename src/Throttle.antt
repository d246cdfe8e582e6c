-- ===== src/Throttle.antt =====
-- throttle.go: the reporter that forwards one report for each key and interval. Times are
-- nanoseconds of a clock; an interval that is not positive is 0. Counts are not bounded.
pub mod Window
pub mod Forward
pub mod Live
pub mod Cap
pub mod Key
use go_txnproof.Prelude.{
  ℕ, ◌+◌, Bool, true, false, ◌&&◌, List, [], ◌∷◌, ◌++◌, Option, none, some, Bytes, ltb, leb, ◌==◌,
  length, if◌then◌else◌,
}
use go_txnproof.Prelude.Dict.{Dict, lookup, insert}
use go_txnproof.Report.{
  Context, StatementRecord, Violation, StaleAllow, NestedBoundary, Reporter, Cell,
}
use go_txnproof.Throttle.Key.{unbounded_write_key}

abbrev pub max_unbounded_write_keys : ℕ
max_unbounded_write_keys = 1024

-- `throttleState`
pub record ThrottleState : Type 0 where
  pub last_forwarded : ℕ
  pub suppressed : ℕ

abbrev pub Windows : Type 0
Windows = Dict ThrottleState

-- `admit` on the state that the map holds for the key, if any.
unfoldable pub admit_state : ℕ → Windows → Bytes → ℕ → ℕ → Option ThrottleState → Bool × Windows
admit_state interval m key max_keys now none =
    if ltb 0 max_keys && leb max_keys (length m)
    then (true, m)
    else (true, insert m key (record { last_forwarded = now; suppressed = 0 }))
admit_state interval m key max_keys now (some st) =
    if leb (st.last_forwarded + interval) now
    then (true, insert m key (record st { last_forwarded = now }))
    else (false, insert m key (record st { suppressed = st.suppressed + 1 }))

-- `admit`
unfoldable pub admit : ℕ → Windows → Bytes → ℕ → ℕ → Bool × Windows
admit interval m key max_keys now = admit_state interval m key max_keys now (lookup m key)

-- `snapshot`
unfoldable pub snapshot : Windows → Dict ℕ
snapshot [] = []
snapshot ((k, st) ∷ m) =
    let rest = snapshot m in if ltb 0 st.suppressed then (k, st.suppressed) ∷ rest else rest

-- The maps of a `ThrottlingReporter`.
pub record Throttle : Type 0 where
  pub violations : Windows
  pub stale_allows : Windows
  pub unbounded : Windows
  pub nested : Windows

abbrev pub new_throttle : Throttle
new_throttle = record { violations = []; stale_allows = []; unbounded = []; nested = [] }

-- `SuppressedViolations` and its kin.
unfoldable pub suppressed_violations : Throttle → Dict ℕ
suppressed_violations t = snapshot t.violations

unfoldable pub suppressed_unbounded_writes : Throttle → Dict ℕ
suppressed_unbounded_writes t = snapshot t.unbounded

unfoldable pub suppressed_stale_allows : Throttle → Dict ℕ
suppressed_stale_allows t = snapshot t.stale_allows

unfoldable pub suppressed_nested_boundaries : Throttle → Dict ℕ
suppressed_nested_boundaries t = snapshot t.nested

-- The key of a pair of boundaries.
abbrev pub nested_key : NestedBoundary → Bytes
nested_key n = n.outer ++ 0 ∷ n.inner

-- `now` reads the clock.
module _ {S : Type 0} (cell : Cell S Throttle) (interval : ℕ) (now : S → ℕ) where
  open cell use {get, put}

  -- `if r.interval <= 0 || r.admit(…) { forward }`, where `set` stores the map after `admit`.
  unfoldable pub forward_if :
      Windows → (Windows → Throttle → Throttle) → Bytes → ℕ → (S → S) → S → S
  forward_if m set key max_keys forward s =
      if interval == 0
      then forward s
      else (let (ok, m') = admit interval m key max_keys (now s) in
          let s' = put (set m' (get s)) s in if ok then forward s' else s')

  unfoldable pub throttled_report : Reporter S → Context → Violation → S → S
  throttled_report next ctx v s =
      forward_if (get s).violations (λ m t. record t { violations = m }) v.boundary 0
        (next.report ctx v) s

  unfoldable pub throttled_unbounded :
      Option (Context → StatementRecord → S → S) → Context → StatementRecord → S → S
  throttled_unbounded none ctx r s = s
  throttled_unbounded (some method) ctx r s =
      forward_if (get s).unbounded (λ m t. record t { unbounded = m }) (unbounded_write_key r.query)
        max_unbounded_write_keys (method ctx r) s

  unfoldable pub throttled_stale :
      Option (Context → StaleAllow → S → S) → Context → StaleAllow → S → S
  throttled_stale none ctx a s = s
  throttled_stale (some method) ctx a s =
      forward_if (get s).stale_allows (λ m t. record t { stale_allows = m }) a.boundary 0
        (method ctx a) s

  unfoldable pub throttled_nested :
      Option (Context → NestedBoundary → S → S) → Context → NestedBoundary → S → S
  throttled_nested none ctx n s = s
  throttled_nested (some method) ctx n s =
      forward_if (get s).nested (λ m t. record t { nested = m }) (nested_key n) 0 (method ctx n) s

  -- `NewThrottlingReporter` and its methods.
  unfoldable pub throttling_reporter : Reporter S → Reporter S
  throttling_reporter next = record {
    report = throttled_report next;
    report_unbounded_write = some (throttled_unbounded next.report_unbounded_write);
    report_stale_allow = some (throttled_stale next.report_stale_allow);
    report_nested_boundary = some (throttled_nested next.report_nested_boundary);
  }
