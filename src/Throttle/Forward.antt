-- ===== src/Throttle/Forward.antt =====
-- What the throttling reporter forwards of a run of violations, and what it counts of the rest.
use go_txnproof.Prelude.{
  ℕ, ◌+◌, ◌<◌, ◌≡◌, refl, ◌∙◌, sym, subst, ap, Bool, true, false, List, [], ◌∷◌, Option, none, some,
  arith, Bytes, bytes_eq_iff, if◌then◌else◌, length,
}
use go_txnproof.Prelude.Dict.{lookup, IsMap}
use go_txnproof.Report.{Context, Violation, Reporter, first_cell, on_second}
use go_txnproof.Throttle.{
  Windows, admit, snapshot, Throttle, new_throttle, suppressed_violations, forward_if,
  throttled_report, throttling_reporter,
}
use go_txnproof.Throttle.Window.{
  Timed, times, openings, Spaced, openings-Spaced, admitted, admitted_map, suppressed_of,
  times-admitted, counts-admitted, admitted_map-IsMap,
}

-- The count that a snapshot shows, 0 where it shows none.
abbrev pub shown : Option ℕ → ℕ
shown none = 0
shown (some n) = n

snapshot-missing : (m : Windows) (k : Bytes) → lookup m k ≡ none → lookup (snapshot m) k ≡ none
unfolding snapshot lookup
snapshot-missing [] k h = refl
snapshot-missing ((j, st) ∷ m) k h = ground (arith, snapshot-missing m k)

shown-snapshot :
    (m : Windows) (k : Bytes) → IsMap m → shown (lookup (snapshot m) k) ≡ suppressed_of (lookup m k)
unfolding snapshot lookup
shown-snapshot [] k h = refl
shown-snapshot ((j, st) ∷ m) k h =
    ground (arith, shown-snapshot m k, snapshot-missing m k, bytes_eq_iff j k, snapshot-missing m j)

abbrev pub clock : {T : Type 0} → Throttle × (ℕ × T) → ℕ
clock s = s.1.0

-- The reporter with the clock and the state of `next` beside its own.
abbrev pub throttled : {T : Type 0} → ℕ → Reporter T → Reporter (Throttle × (ℕ × T))
throttled interval next = throttling_reporter first_cell interval clock (on_second (on_second next))

-- Reports with the clock set to the time of each.
abbrev pub report_timed :
    {S : Type 0}
    → Reporter (Throttle × (ℕ × S))
    → Context
    → List Timed
    → Throttle × (ℕ × S)
    → Throttle × (ℕ × S)
report_timed r ctx [] s = s
report_timed r ctx ((t, v) ∷ es) s = report_timed r ctx es (r.report ctx v (s.0, (t, s.1.1)))

-- Those that reach `next`.
abbrev pub report_untimed : {T : Type 0} → Reporter T → Context → List Timed → T → T
report_untimed r ctx [] s = s
report_untimed r ctx ((t, v) ∷ es) s = report_untimed r ctx es (r.report ctx v s)

module _ {T : Type 0} (interval : ℕ) (next : Reporter T) (ctx : Context) where
  throttled-step :
      (t : ℕ) (v : Violation) (th : Throttle) (x : T)
      → 0 < interval
      → let (ok, m) = admit interval th.violations v.boundary 0 t in
        (throttled interval next).report ctx v (th, (t, x))
        ≡ (record th { violations = m }, (t, (if ok then next.report ctx v x else x)))
  unfolding throttling_reporter throttled_report forward_if
  throttled-step t v th x h = ground arith

  forward-either :
      (ok : Bool) (t : ℕ) (v : Violation) (es : List Timed) (x : T)
      → report_untimed next ctx es (if ok then next.report ctx v x else x)
        ≡ report_untimed next ctx (if ok then (t, v) ∷ es else es) x
  forward-either true t v es x = refl
  forward-either false t v es x = refl

  throttled-run :
      (es : List Timed) (th : Throttle) (c : ℕ) (x : T)
      → 0 < interval
      → let s = report_timed (throttled interval next) ctx es (th, (c, x)) in
        (s.0.violations ≡ admitted_map interval th.violations es)
        × (s.1.1 ≡ report_untimed next ctx (admitted interval th.violations es) x)
  throttled-run [] th c x h = (refl, refl)
  throttled-run ((t, v) ∷ es) th c x h =
      let (ok, m) = admit interval th.violations v.boundary 0 t in
      let x' = if ok then next.report ctx v x else x in
      let ih = throttled-run es (record th { violations = m }) t x' h in
      let run = ap (report_timed (throttled interval next) ctx es) (throttled-step t v th x h) in
      (
        ap (λ (s : Throttle × (ℕ × T)). s.0.violations) run ∙ ih.0,
        ap (λ (s : Throttle × (ℕ × T)). s.1.1) run
            ∙ ih.1
            ∙ forward-either ok t v (admitted interval m es) x,
      )

  -- A new throttling reporter with an interval forwards, of a run of violations at their times, a
  -- list in which each boundary has exactly the reports that begin an interval, which are an interval
  -- apart; the count of suppressed reports that it shows for a boundary is the number of the others.
  pub throttle_exact :
      (es : List Timed) (c : ℕ) (x : T)
      → 0 < interval
      → let s = report_timed (throttled interval next) ctx es (new_throttle, (c, x)) in
        let kept = admitted interval [] es in
        (s.1.1 ≡ report_untimed next ctx kept x)
        × ((k : Bytes)
            → (times k kept ≡ openings interval none (times k es))
              × Spaced interval (times k kept)
              × (shown (lookup (suppressed_violations s.0) k) + length (times k kept)
                  ≡ length (times k es)))
  unfolding suppressed_violations lookup
  throttle_exact es c x h =
      let run = throttled-run es new_throttle c x h in
      let ok = admitted_map-IsMap interval es [] tt in
      (
        run.1,
        λ k.
            let opened = times-admitted interval es [] k in
            let all : 0 + length (times k es) ≡ length (times k es) = omega arith in
            (
              opened,
              subst (Spaced interval) (sym opened) (openings-Spaced interval (times k es)),
              ap (λ m. shown (lookup (snapshot m) k) + length (times k (admitted interval [] es)))
                    run.0
                  ∙ ap (λ n. n + length (times k (admitted interval [] es)))
                      (shown-snapshot (admitted_map interval [] es) k ok)
                  ∙ counts-admitted interval es [] k
                  ∙ all,
            ),
      )
