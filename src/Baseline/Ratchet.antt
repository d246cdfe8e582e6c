-- ===== src/Baseline/Ratchet.antt =====
-- What the baseline's reporter lets through, and which of its entries stay unused.
use go_txnproof.Prelude.{
  ◌≡◌, refl, ◌∙◌, sym, subst, ap, Bool, true, false, not, ◌&&◌, ◌||◌, List, [], ◌∷◌, Option, none,
  some, arith, Bytes, if◌then◌else◌, bytes_eq, bytes_eq_iff,
}
use go_txnproof.Prelude.Dict.{
  lookup, insert, lookup-insert, IsMap, insert-IsMap, read_is, text_mem-keys_where,
}
use go_txnproof.Prelude.Sort.{text_mem, IsSorted, text_mem-sort_strings, sort_strings-IsSorted}
use go_txnproof.Report.{Context, Violation, Reporter, first_cell, on_second}
use go_txnproof.Baseline.{
  Baseline, new_baseline, capture, baseline_from_violations, covers_entry, covers, unused_entries,
  boundaries, report_through, baseline_reporter,
}

-- The names that a baseline has, by the key it holds.
abbrev pub holds : Baseline → Bytes → Bool
holds b k = read_is (λ used. true) (lookup b k)

-- Whether one of the violations is of a boundary.
abbrev pub hit : List Violation → Bytes → Bool
hit [] k = false
hit (v ∷ vs) k = bytes_eq v.boundary k || hit vs k

-- The violations of the boundaries that a baseline does not hold.
abbrev pub new_ones : Baseline → List Violation → List Violation
new_ones b [] = []
new_ones b (v ∷ vs) = if holds b v.boundary then new_ones b vs else v ∷ new_ones b vs

-- Reports one after the other.
abbrev pub report_each : {S : Type 0} → Reporter S → Context → List Violation → S → S
report_each r ctx [] s = s
report_each r ctx (v ∷ vs) s = report_each r ctx vs (r.report ctx v s)

-- The reporter in front of `next`, with the baseline beside the state of `next`.
abbrev pub guarded : {T : Type 0} → Reporter T → Reporter (Baseline × T)
guarded next = baseline_reporter (some first_cell) (on_second next)

covers_entry-holds :
    (b : Baseline) (name k : Bytes) (o : Option Bool)
    → lookup b name ≡ o
    → holds (covers_entry b name o).1 k ≡ holds b k
unfolding covers_entry
covers_entry-holds b name k none h = refl
covers_entry-holds b name k (some used) h =
    ground (arith, lookup-insert b name k true, bytes_eq_iff name k)

covers_entry-unused :
    (b : Baseline) (name k : Bytes) (o : Option Bool)
    → lookup b name ≡ o
    → read_is not (lookup (covers_entry b name o).1 k)
      ≡ (read_is not (lookup b k) && not (bytes_eq name k))
unfolding covers_entry
covers_entry-unused b name k none h = ground (arith, bytes_eq_iff name k)
covers_entry-unused b name k (some used) h =
    ground (arith, lookup-insert b name k true, bytes_eq_iff name k)

covers_entry-IsMap :
    (b : Baseline) (name : Bytes) (o : Option Bool) → IsMap b → IsMap (covers_entry b name o).1
unfolding covers_entry
covers_entry-IsMap b name none h = h
covers_entry-IsMap b name (some used) h = insert-IsMap b name true h

covers-holds : (b : Baseline) (name k : Bytes) → holds (covers b name).1 k ≡ holds b k
unfolding covers
covers-holds b name k = covers_entry-holds b name k (lookup b name) refl

covers-unused :
    (b : Baseline) (name k : Bytes)
    → read_is not (lookup (covers b name).1 k) ≡ (read_is not (lookup b k) && not (bytes_eq name k))
unfolding covers
covers-unused b name k = covers_entry-unused b name k (lookup b name) refl

covers-IsMap : (b : Baseline) (name : Bytes) → IsMap b → IsMap (covers b name).1
unfolding covers
covers-IsMap b name h = covers_entry-IsMap b name (lookup b name) h

new_ones-holds :
    (b c : Baseline) (vs : List Violation)
    → ((k : Bytes) → holds b k ≡ holds c k)
    → new_ones b vs ≡ new_ones c vs
new_ones-holds b c [] h = refl
new_ones-holds b c (v ∷ vs) h = ground (arith, h v.boundary, new_ones-holds b c vs h)

module _ {T : Type 0} (next : Reporter T) (ctx : Context) where
  guarded_entry :
      (v : Violation) (b : Baseline) (t : T) (o : Option Bool)
      → lookup b v.boundary ≡ o
      → (guarded next).report ctx v (b, t)
        ≡ ((covers b v.boundary).1, (if holds b v.boundary then t else next.report ctx v t))
  unfolding baseline_reporter report_through covers covers_entry
  guarded_entry v b t none h = rw h refl
  guarded_entry v b t (some used) h = rw h refl

  held_or_sent :
      (held : Bool) (v : Violation) (vs : List Violation) (t : T)
      → report_each next ctx vs (if held then t else next.report ctx v t)
        ≡ report_each next ctx (if held then vs else v ∷ vs) t
  held_or_sent true v vs t = refl
  held_or_sent false v vs t = refl

  -- The state behind a run of reports: its second part is that of `next`.
  forwards_new_ones :
      (vs : List Violation) (b : Baseline) (t : T)
      → (report_each (guarded next) ctx vs (b, t)).1 ≡ report_each next ctx (new_ones b vs) t
  forwards_new_ones [] b t = refl
  forwards_new_ones (v ∷ vs) b t =
      let o = lookup b v.boundary in
      let b' = (covers b v.boundary).1 in
      let t' = if holds b v.boundary then t else next.report ctx v t in
      ap (λ s. (report_each (guarded next) ctx vs s).1) (guarded_entry v b t o refl)
      ∙ forwards_new_ones vs b' t'
      ∙ ap (λ l. report_each next ctx l t') (new_ones-holds b' b vs (covers-holds b v.boundary))
      ∙ held_or_sent (holds b v.boundary) v (new_ones b vs) t

  unused_lookup :
      (vs : List Violation) (b : Baseline) (t : T) (k : Bytes)
      → IsMap b
      → let b' = (report_each (guarded next) ctx vs (b, t)).0 in
        IsMap b' × (read_is not (lookup b' k) ≡ (read_is not (lookup b k) && not (hit vs k)))
  unused_lookup [] b t k h = (h, ground arith)
  unused_lookup (v ∷ vs) b t k h =
      let o = lookup b v.boundary in
      let ok = covers-IsMap b v.boundary h in
      let ih =
        unused_lookup vs (covers b v.boundary).1
          (if holds b v.boundary then t else next.report ctx v t) k ok in
      let step = covers-unused b v.boundary k in
      subst
        (λ (s : Baseline × T).
          let b' = (report_each (guarded next) ctx vs s).0 in
          IsMap b'
          × (read_is not (lookup b' k) ≡ (read_is not (lookup b k) && not (hit (v ∷ vs) k))))
        (sym (guarded_entry v b t o refl))
        (ih.0, ih.1 ∙ ap (λ z. z && not (hit vs k)) step ∙ ground arith)

  -- With a baseline in front of it, a reporter is told of exactly the violations of the boundaries
  -- that the baseline does not hold, in their order; the entries that are then unused are sorted, and
  -- are those unused before that no violation was of. The names stand in the map once each.
  pub baseline_exact :
      (vs : List Violation) (b : Baseline) (t : T)
      → IsMap b
      → let (b', t') = report_each (guarded next) ctx vs (b, t) in
        (t' ≡ report_each next ctx (new_ones b vs) t)
        × IsSorted (unused_entries b')
        × ((k : Bytes)
            → text_mem (unused_entries b') k ≡ (text_mem (unused_entries b) k && not (hit vs k)))
  unfolding unused_entries
  baseline_exact vs b t h = (
    forwards_new_ones vs b t,
    sort_strings-IsSorted _,
    λ k.
        let (ok, eq) = unused_lookup vs b t k h in
        text_mem-sort_strings _ k
        ∙ text_mem-keys_where not _ k ok
        ∙ eq
        ∙ ap (λ z. z && not (hit vs k))
            (sym (text_mem-sort_strings _ k ∙ text_mem-keys_where not b k h)),
  )

-- The names of captured violations.
capture_lookup :
    (vs : List Violation) (b : Baseline) (k : Bytes)
    → IsMap b
    → IsMap (capture b vs) × (holds (capture b vs) k ≡ (hit vs k || holds b k))
unfolding capture
capture_lookup [] b k h = (h, refl)
capture_lookup (v ∷ vs) b k h =
    let ih = capture_lookup vs (insert b v.boundary false) k (insert-IsMap b v.boundary false h) in
    (ih.0, ih.1 ∙ ground (arith, lookup-insert b v.boundary k false))

all_held :
    (vs : List Violation) (b : Baseline)
    → ((k : Bytes) → hit vs k ≡ true → holds b k ≡ true)
    → new_ones b vs ≡ []
all_held [] b h = refl
all_held (v ∷ vs) b h = ground (
  arith,
  h v.boundary,
  bytes_eq_iff v.boundary v.boundary,
  all_held vs b (λ k m. ground (arith, h k)),
)

no_members : (l : List Bytes) → ((k : Bytes) → text_mem l k ≡ false) → l ≡ []
no_members [] h = refl
no_members (s ∷ ss) h = ground (arith, h s, bytes_eq_iff s s)

held_only :
    (o : Option Bool) (found : Bool)
    → read_is (λ used. true) o ≡ (found || false)
    → (read_is not o && not found) ≡ false
held_only none found h = refl
held_only (some used) true h = ground arith
held_only (some used) false h = ground arith

-- Every entry of captured violations is one of them.
captured_hit :
    (vs : List Violation) (k : Bytes)
    → (text_mem (unused_entries (capture new_baseline vs)) k && not (hit vs k)) ≡ false
unfolding unused_entries lookup
captured_hit vs k =
    let b = capture new_baseline vs in
    let (ok, eq) = capture_lookup vs new_baseline k tt in
    let here = text_mem-sort_strings _ k ∙ text_mem-keys_where not b k ok in
    ap (λ z. z && not (hit vs k)) here ∙ held_only (lookup b k) (hit vs k) eq

module _ {T : Type 0} (next : Reporter T) (ctx : Context) where
  -- A baseline captured from violations lists their boundaries, sorted. When the same violations
  -- occur again it lets none of them through, and no entry is unused any more.
  pub capture_exact :
      (vs : List Violation) (t : T)
      → let b = baseline_from_violations vs in
        let (b', t') = report_each (guarded next) ctx vs (b, t) in
        IsSorted (boundaries b)
        × ((k : Bytes) → text_mem (boundaries b) k ≡ hit vs k)
        × (t' ≡ t)
        × (unused_entries b' ≡ [])
  unfolding baseline_from_violations boundaries lookup unused_entries
  capture_exact vs t =
      let b = capture new_baseline vs in
      let ok = (capture_lookup vs new_baseline [] tt).0 in
      let exact = baseline_exact next ctx vs b t ok in
      (
        sort_strings-IsSorted _,
        λ k.
            text_mem-sort_strings _ k
            ∙ text_mem-keys_where _ b k ok
            ∙ (capture_lookup vs new_baseline k tt).1
            ∙ ground arith,
        exact.0
            ∙ ap (λ l. report_each next ctx l t)
                (all_held vs b (λ k m. (capture_lookup vs new_baseline k tt).1 ∙ ground arith)),
        no_members _ (λ k. exact.2 k ∙ captured_hit vs k),
      )
