-- ===== src/Throttle/Cap.antt =====
-- The map of statement keys stays under its cap.
use go_txnproof.Prelude.{
  ℕ, suc, ◌+◌, ◌≤◌, ◌<◌, ◌≡◌, refl, List, [], ◌∷◌, Option, none, some, arith, Bytes, length,
}
use go_txnproof.Prelude.Dict.{Dict, lookup, insert}
use go_txnproof.Report.{Context, StatementRecord, Reporter, if_present, first_cell, second_present}
use go_txnproof.Throttle.Forward.{clock, throttled}
use go_txnproof.Throttle.Key.{unbounded_write_key}
use go_txnproof.Throttle.{
  ThrottleState, Windows, admit_state, admit, max_unbounded_write_keys, Throttle, new_throttle,
  forward_if, throttled_unbounded, throttling_reporter,
}

length-insert :
    {V : Type 0} (m : Dict V) (k : Bytes) (v : V) → length (insert m k v) ≤ suc (length m)
unfolding insert
length-insert [] k v = ground arith
length-insert ((j, w) ∷ m) k v = ground (arith, length-insert m k v)

-- Writing to a key that is there adds none.
length-insert_present :
    {V : Type 0} (m : Dict V) (k : Bytes) (v u : V)
    → lookup m k ≡ some u
    → length (insert m k v) ≡ length m
unfolding insert lookup
length-insert_present [] k v u h = ground arith
length-insert_present ((j, w) ∷ m) k v u h = ground (arith, length-insert_present m k v u)

admit_state_le :
    (interval : ℕ) (m : Windows) (key : Bytes) (max now : ℕ) (o : Option ThrottleState)
    → lookup m key ≡ o
    → 0 < max
    → length m ≤ max
    → length (admit_state interval m key max now o).1 ≤ max
unfolding admit_state
admit_state_le interval m key max now none h p le =
    ground (arith, length-insert m key (record { last_forwarded = now; suppressed = 0 }))
admit_state_le interval m key max now (some st) h p le = ground (
  arith,
  length-insert_present m key (record st { last_forwarded = now }) st h,
  length-insert_present m key (record st { suppressed = st.suppressed + 1 }) st h,
)

-- Statements without a boundary, with the clock set to the time of each.
abbrev pub report_statements :
    {T : Type 0}
    → Reporter (Throttle × (ℕ × T))
    → Context
    → List (ℕ × StatementRecord)
    → Throttle × (ℕ × T)
    → Throttle × (ℕ × T)
report_statements r ctx [] s = s
report_statements r ctx ((t, x) ∷ es) s =
    report_statements r ctx es (if_present r.report_unbounded_write ctx x (s.0, (t, s.1.1)))

module _ {T : Type 0} (interval : ℕ) (next : Reporter T) (ctx : Context) where
  forwarded_le :
      (method : Context → StatementRecord → T → T) (t : ℕ) (x : StatementRecord) (th : Throttle)
      (y : T)
      → length th.unbounded ≤ max_unbounded_write_keys
      → length
          (throttled_unbounded first_cell interval clock
            (second_present (second_present (some method)))
            ctx
            x
            (th, (t, y))).0.unbounded
        ≤ max_unbounded_write_keys
  unfolding throttled_unbounded forward_if admit
  forwarded_le method t x th y le = ground (
    arith,
    admit_state_le interval th.unbounded (unbounded_write_key x.query) max_unbounded_write_keys t
        (lookup th.unbounded (unbounded_write_key x.query)) refl (omega arith) le,
  )

  step_le :
      (o : Option (Context → StatementRecord → T → T)) (t : ℕ) (x : StatementRecord) (th : Throttle)
      (y : T)
      → length th.unbounded ≤ max_unbounded_write_keys
      → length
          (throttled_unbounded first_cell interval clock
            (second_present (second_present o))
            ctx
            x
            (th, (t, y))).0.unbounded
        ≤ max_unbounded_write_keys
  step_le none t x th y le = unfold throttled_unbounded in le
  step_le (some method) t x th y le = forwarded_le method t x th y le

  run_le :
      (es : List (ℕ × StatementRecord)) (th : Throttle) (c : ℕ) (y : T)
      → length th.unbounded ≤ max_unbounded_write_keys
      → length (report_statements (throttled interval next) ctx es (th, (c, y))).0.unbounded
        ≤ max_unbounded_write_keys
  unfolding throttling_reporter if_present
  run_le [] th c y le = le
  run_le ((t, x) ∷ es) th c y le =
      let s =
        throttled_unbounded first_cell interval clock
          (second_present (second_present next.report_unbounded_write)) ctx x (th, (t, y)) in
      run_le es s.0 s.1.0 s.1.1 (step_le next.report_unbounded_write t x th y le)

  -- However many different statements are reported, a throttling reporter tracks 1024 of their keys
  -- at most.
  pub unbounded_keys_le :
      (es : List (ℕ × StatementRecord)) (c : ℕ) (y : T)
      → length
          (report_statements (throttled interval next) ctx es (new_throttle, (c, y))).0.unbounded
        ≤ max_unbounded_write_keys
  unbounded_keys_le es c y = run_le es new_throttle c y (omega arith)
