-- ===== src/Throttle/Live.antt =====
-- No boundary that goes on being reported is kept from `next` for longer than the interval.
use go_txnproof.Prelude.{
  ℕ, ◌+◌, ◌<◌, ◌≡◌, refl, sym, subst, ap, ◌∙◌, Bool-cases, inl, inr, true, List, [], ◌∷◌, ◌++◌,
  none, some, arith, Bytes, bytes_eq, bytes_eq_refl, contains, leb,
}
use go_txnproof.Report.{Violation, Reporter, Context}
use go_txnproof.Throttle.{new_throttle}
use go_txnproof.Throttle.Window.{Timed, times, openings, admitted}
use go_txnproof.Throttle.Forward.{throttled, report_timed, report_untimed, throttle_exact}

module _ (interval : ℕ) where
  -- A time of a list that is less than an interval before `t`.
  abbrev Recent : List ℕ → ℕ → Type 0
  Recent ts t = (l : ℕ) × (contains ts l ≡ true) × (t < l + interval)

  openings-Recent :
      (xs : List ℕ) (l t : ℕ)
      → 0 < interval
      → Recent (l ∷ openings interval (some l) (xs ++ t ∷ [])) t
  openings-Recent [] l t h = elim (Bool-cases (leb (l + interval) t)) [
    | inl late ↦ (t, rw late (ground arith), omega arith)
    | inr soon ↦ (l, ground arith, ground (arith, soon))
  ]
  openings-Recent (x ∷ xs) l t h = elim (Bool-cases (leb (l + interval) x)) [
    | inl late ↦
        let (m, found, near) = openings-Recent xs x t h in
        (m, rw late (ground (arith, found)), near)
    | inr soon ↦ let (m, found, near) = openings-Recent xs l t h in (m, rw soon found, near)
  ]

  openings-Recent_first :
      (xs : List ℕ) (t : ℕ) → 0 < interval → Recent (openings interval none (xs ++ t ∷ [])) t
  openings-Recent_first [] t h = (t, ground arith, omega arith)
  openings-Recent_first (x ∷ xs) t h = openings-Recent xs x t h

times-append :
    (k : Bytes) (xs : List Timed) (t : ℕ) (v : Violation)
    → bytes_eq v.boundary k ≡ true
    → times k (xs ++ (t, v) ∷ []) ≡ times k xs ++ t ∷ []
times-append k [] t v same = rw same refl
times-append k ((s, u) ∷ xs) t v same = ground (arith, times-append k xs t v same)

module _ {T : Type 0} (interval : ℕ) (next : Reporter T) (ctx : Context) where
  -- Whenever a violation is reported to a throttling reporter with an interval, at the end of any run
  -- of reports, a report on its boundary has been forwarded to `next` in this run, itself or one
  -- before it, at a time less than an interval before.
  pub throttle_live :
      (before : List Timed) (t : ℕ) (v : Violation) (c : ℕ) (x : T)
      → 0 < interval
      → let es = before ++ (t, v) ∷ [] in
        let s = report_timed (throttled interval next) ctx es (new_throttle, (c, x)) in
        let kept = admitted interval [] es in
        (s.1.1 ≡ report_untimed next ctx kept x)
        × ((l : ℕ) × (contains (times v.boundary kept) l ≡ true) × (t < l + interval))
  throttle_live before t v c x h =
      let es = before ++ (t, v) ∷ [] in
      let k = v.boundary in
      let (ran, exact) = throttle_exact interval next ctx es c x h in
      let same : times k (admitted interval [] es)
          ≡ openings interval none (times k before ++ t ∷ []) =
        (exact k).0 ∙ ap (openings interval none) (times-append k before t v (bytes_eq_refl k)) in
      (
        ran,
        subst (λ ts. (l : ℕ) × (contains ts l ≡ true) × (t < l + interval)) (sym same)
            (openings-Recent_first interval (times k before) t h),
      )
