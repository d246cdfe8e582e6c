-- ===== src/Tests/Reporters.antt =====
-- The allowlist, the baseline and the throttle on small runs.
use go_txnproof.Prelude.{
  ◌++◌, contains, ◌<◌, true, ◌+◌, ◌≤◌, ◌≡◌, refl, false, not, ◌&&◌, List, [], ◌∷◌, none, arith,
  Bytes, codes, bytes_eq, length, String,
}
use go_txnproof.Prelude.Dict.{lookup}
use go_txnproof.Prelude.Sort.{text_mem, IsSorted}
use go_txnproof.Report.{StatementRecord, Violation, background, Reporter}
use go_txnproof.Allowlist.{new_allowlist}
use go_txnproof.Allowlist
use go_txnproof.Allowlist.Use.{AllowOp, adds, asks, apply_ops, waits, unused_entries_exact}
use go_txnproof.Baseline
use go_txnproof.Baseline.{Baseline, baseline_from_violations, boundaries}
use go_txnproof.Baseline.Ratchet.{
  hit, new_ones, report_each, guarded, baseline_exact, capture_exact,
}
use go_txnproof.Classify.{write}
use go_txnproof.Prelude.{ℕ}
use go_txnproof.Throttle.Cap.{report_statements, unbounded_keys_le}
use go_txnproof.Throttle.{max_unbounded_write_keys, new_throttle, suppressed_violations}
use go_txnproof.Throttle.Window.{Timed, times, openings, Spaced, admitted}
use go_txnproof.Throttle.Live.{throttle_live}
use go_txnproof.Throttle.Forward.{shown, throttled, report_timed, report_untimed, throttle_exact}

abbrev of_boundary : String → Violation
of_boundary name = record {
  boundary = codes name;
  write_units = 2;
  statements = [];
  truncated_statements = 0;
  allowed_write_units = [];
  attrs = [];
}

-- A reporter with the methods that it must have, which keeps the list of its reports.
abbrev listing : Reporter (List Violation)
listing = record {
  report = λ ctx v s. v ∷ s;
  report_unbounded_write = none;
  report_stale_allow = none;
  report_nested_boundary = none;
}

abbrev seen : List Violation
seen = of_boundary "pay" ∷ of_boundary "order" ∷ of_boundary "pay" ∷ []

abbrev known : Baseline
known = (codes "order", false) ∷ (codes "ship", false) ∷ []

abbrev timed : List Timed
timed =
    (1, of_boundary "pay")
    ∷ (3, of_boundary "order")
    ∷ (5, of_boundary "pay")
    ∷ (12, of_boundary "pay")
    ∷ []

abbrev asked : List AllowOp
asked = adds (codes "pay") [] (2 ∷ []) ∷ adds (codes "order") [] [] ∷ asks (codes "pay") 2 ∷ []

unused_entries_exact_example :
    IsSorted (Allowlist.unused_entries (apply_ops asked new_allowlist))
    × (text_mem (Allowlist.unused_entries (apply_ops asked new_allowlist)) (codes "order")
        ≡ waits (codes "order") asked none)
unused_entries_exact_example = unused_entries_exact asked (codes "order")

baseline_exact_example :
    let (b', t') = report_each (guarded listing) background seen (known, []) in
    (t' ≡ report_each listing background (new_ones known seen) [])
    × IsSorted (Baseline.unused_entries b')
    × ((k : Bytes)
        → text_mem (Baseline.unused_entries b') k
          ≡ (text_mem (Baseline.unused_entries known) k && not (hit seen k)))
unfolding lookup bytes_eq
baseline_exact_example = baseline_exact listing background seen known [] (refl, (refl, tt))

capture_exact_example :
    let b = baseline_from_violations seen in
    let (b', t') = report_each (guarded listing) background seen (b, []) in
    IsSorted (boundaries b)
    × ((k : Bytes) → text_mem (boundaries b) k ≡ hit seen k)
    × (t' ≡ [])
    × (Baseline.unused_entries b' ≡ [])
capture_exact_example = capture_exact listing background seen []

throttle_exact_example :
    let s = report_timed (throttled 10 listing) background timed (new_throttle, (0, [])) in
    let kept = admitted 10 [] timed in
    (s.1.1 ≡ report_untimed listing background kept [])
    × ((k : Bytes)
        → (times k kept ≡ openings 10 none (times k timed))
          × Spaced 10 (times k kept)
          × (shown (lookup (suppressed_violations s.0) k) + length (times k kept)
              ≡ length (times k timed)))
throttle_exact_example = throttle_exact 10 listing background timed 0 [] (omega arith)

abbrev unbounded : List (ℕ × StatementRecord)
unbounded =
    (1, record { query = codes "DELETE FROM c"; kind = write; tx_id = 0; time = 1; attrs = [] })
    ∷ []

unbounded_keys_le_example :
    length
      (report_statements
        (throttled 10 listing)
        background
        unbounded
        (new_throttle, (0, []))).0.unbounded
    ≤ max_unbounded_write_keys
unbounded_keys_le_example = unbounded_keys_le 10 listing background unbounded 0 []

throttle_live_example :
    let es = timed ++ (9, of_boundary "a") ∷ [] in
    let s = report_timed (throttled 10 listing) background es (new_throttle, (0, [])) in
    let kept = admitted 10 [] es in
    (s.1.1 ≡ report_untimed listing background kept [])
    × ((l : ℕ) × (contains (times (codes "a") kept) l ≡ true) × (9 < l + 10))
throttle_live_example =
    throttle_live 10 listing background timed 9 (of_boundary "a") 0 [] (omega arith)
