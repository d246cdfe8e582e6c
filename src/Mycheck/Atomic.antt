-- ===== src/Mycheck/Atomic.antt =====
-- The check of a MySQL log counts the atomic units that its threads ran.
use go_txnproof.Prelude.{
  ◌+◌, ◌≡◌, refl, ◌∙◌, sym, subst, ap, false, List, [], ◌∷◌, Bytes, contains, bytes_eq,
  bytes_eq_iff, length, if◌then◌else◌, Bool-cases, inl, inr,
}
use go_txnproof.Prelude.Dict.{Dict, lookup, insert}
use go_txnproof.Classify.{StatementKind}
use go_txnproof.Session.Units.{Span, outside}
use go_txnproof.Crosscheck.{CheckReport, reported, check}
use go_txnproof.Crosscheck.ByIdentity.{writes, first_txs}
use go_txnproof.Crosscheck.Grouping.{report_on}
use go_txnproof.Mycheck.{Entry, ThreadState, state_of, replay, reconstruct_from, reconstruct}
use go_txnproof.Mycheck.Threads.{state_after, check-reconstruct}
use go_txnproof.Mycheck.Units.{
  after_entry, log_units, IsPlain, count_new, count_new-unseen, unseen-nil,
}
use go_txnproof.Mycheck.Fits.{Fits}
use go_txnproof.Mycheck.Counts.{Advances, entry_step}

-- Every thread's state fits the identities seen.
abbrev AllFit : List Bytes → Dict ThreadState → (Bytes → Span) → Type 0
AllFit seen m spans =
    (u : Bytes) → contains u b' ' ≡ false → Fits seen u (state_of (lookup m u)) (spans u)

AllFit-Advances :
    (seen seen' : List Bytes) (m : Dict ThreadState) (spans : Bytes → Span) (t : Bytes)
    (st : ThreadState) (span : Span)
    → AllFit seen m spans
    → Advances seen seen' t st span
    → AllFit seen' (insert m t st) (λ k. if bytes_eq t k then span else spans k)
AllFit-Advances seen seen' m spans t st span all adv u plain = elim (Bool-cases (bytes_eq t u)) [
  | inl same ↦
      rw (state_after m t u st, same)
        (subst (λ k. Fits seen' k st span) ((bytes_eq_iff t u).0 same) adv.own)
  | inr apart ↦
      rw (state_after m t u st, apart)
        (adv.others u (state_of (lookup m u)) (spans u) plain apart (all u plain))
]

count_new-reconstruct_from :
    (classify : Bytes → StatementKind) (es : List Entry) (seen : List Bytes) (m : Dict ThreadState)
    (spans : Bytes → Span)
    → IsPlain es
    → AllFit seen m spans
    → count_new seen (writes (reconstruct_from classify m es)) ≡ log_units classify spans es
unfolding reconstruct_from
count_new-reconstruct_from classify [] seen m spans plain all = refl
count_new-reconstruct_from classify (e ∷ es) seen m spans plain all =
    let t = e.thread in
    let st = state_of (lookup m t) in
    let st' = (replay classify st e).0 in
    let (span', n) = after_entry classify e (spans t) in
    let (seen', adv, count) =
      entry_step seen t st (spans t) plain.0 (all t plain.0) classify e refl in
    count (reconstruct_from classify (insert m t st') es)
    ∙ ap (λ k. n + k)
        (count_new-reconstruct_from classify es seen' (insert m t st')
          (λ k. if bytes_eq t k then span' else spans k) plain.1
          (AllFit-Advances seen seen' m spans t st' span' all adv))

nothing_seen : AllFit [] [] (λ k. outside)
unfolding lookup state_of
nothing_seen u plain = record { later_tx = λ n p. refl; later_stmt = λ n p. refl; now = refl }

write_units-reconstruct :
    (classify : Bytes → StatementKind) (es : List Entry)
    → IsPlain es
    → (report_on (writes (reconstruct classify es))).write_units
      ≡ log_units classify (λ k. outside) es
unfolding reconstruct
write_units-reconstruct classify es plain =
    let ws = writes (reconstruct_from classify [] es) in
    ap length (sym (unseen-nil (first_txs ws)))
    ∙ count_new-unseen ws []
    ∙ count_new-reconstruct_from classify es [] [] (λ k. outside) plain nothing_seen

-- The check of the statements of a MySQL log never fails for want of an identity, and the write
-- units that it reports are the atomic units that the threads ran: one for each transaction with a
-- write in it, one for each write outside, and one for each write that commits implicitly. The names
-- of threads must have no blank.
pub check-reconstruct_exact :
    (classify : Bytes → StatementKind) (es : List Entry)
    → IsPlain es
    → (r : CheckReport) × (check (reconstruct classify es) ≡ reported r)
      × (r.write_units ≡ log_units classify (λ k. outside) es)
check-reconstruct_exact classify es plain = (
  report_on (writes (reconstruct classify es)),
  check-reconstruct classify es,
  write_units-reconstruct classify es plain,
)
