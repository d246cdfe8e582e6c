-- ===== src/Mycheck/EndToEnd.antt =====
-- The verdict of mycheck on a whole log.
use go_txnproof.Prelude.{
  ℕ, zero, suc, ◌+◌, ◌≡◌, refl, ap, ◌∙◌, Bool, true, false, List, [], ◌∷◌, Option, none, some,
  arith, Bytes, leb, contains, take, drop, if◌then◌else◌,
}
use go_txnproof.Classify.{StatementKind}
use go_txnproof.Scanner.{Reader, Scanned, lines_of, scan_failed, scan}
use go_txnproof.Scanner.Lines.{unlines, reader_of, all_lines}
use go_txnproof.Session.Units.{outside}
use go_txnproof.Regexp.{all_class, in_class, in_spans, digit}
use go_txnproof.Regexp.Fields.{is_run}
use go_txnproof.Crosscheck.{
  LogStatement, CheckReport, check, reported, atomic, verify_checked, verify_statements, non_atomic,
  returns,
}
use go_txnproof.Crosscheck.ByIdentity.{writes, first_missing}
use go_txnproof.Crosscheck.Markers.{
  scenario, slice_from, slice_to, first_with, marker_literal, begin_kind, end_kind,
}
use go_txnproof.Crosscheck.Advice.{lacks_tx_id-non_atomic, lacks_tx_id-named}
use go_txnproof.Mycheck.{
  Entry, reconstruct, reject_autocommit_change, verify_unless, verify_log, verified,
}
use go_txnproof.Mycheck.Units.{IsPlain, log_units}
use go_txnproof.Mycheck.Threads.{reconstruct_from-named}
use go_txnproof.Mycheck.Atomic.{check-reconstruct_exact}
use go_txnproof.Mycheck.Parse.{
  Checker, LogReading, judged, lacks_identity, judge_log, verify_parsed, verify_sliced,
  verify_parsed_scenario, verify_reader, verify_reader_scenario, parse, parse_scanned, read_lines,
  read_start,
}
use go_txnproof.Mycheck.Rendered.{is_event}
use go_txnproof.Mycheck.FileLines.{LogPart, logged, banner, all_parts, file_lines, entries_of}
use go_txnproof.Mycheck.RoundTrip.{parse-file_lines}

-- The advice that mycheck wraps around an error.
abbrev pub advises : LogReading → Bool
advises (judged v advice) = advice
advises _ = false

first_missing-drop :
    (n : ℕ) (sts : List LogStatement)
    → first_missing (writes sts) ≡ none
    → first_missing (writes (drop n sts)) ≡ none
first_missing-drop zero sts h = h
first_missing-drop (suc n) [] h = refl
first_missing-drop (suc n) (st ∷ sts) h = first_missing-drop n sts (ground (arith, h))

first_missing-take :
    (n : ℕ) (sts : List LogStatement)
    → first_missing (writes sts) ≡ none
    → first_missing (writes (take n sts)) ≡ none
first_missing-take zero sts h = refl
first_missing-take (suc n) [] h = refl
first_missing-take (suc n) (st ∷ sts) h =
    let rest : first_missing (writes sts) ≡ none = ground (arith, h) in
    ground (arith, h, first_missing-take n sts rest)

verify_unless-quiet :
    (o : Option LogStatement) (sts : List LogStatement)
    → first_missing (writes sts) ≡ none
    → lacks_identity (verify_unless o sts) ≡ false
unfolding verify_unless lacks_identity
verify_unless-quiet none sts h = lacks_tx_id-named sts h
verify_unless-quiet (some st) sts h = refl

judge_log-quiet :
    (sts : List LogStatement) → first_missing (writes sts) ≡ none → advises (judge_log sts) ≡ false
unfolding judge_log verify_log
judge_log-quiet sts h = verify_unless-quiet (reject_autocommit_change sts) sts h

slice_to-quiet :
    (sts : List LogStatement) (o : Option ℕ)
    → first_missing (writes sts) ≡ none
    → advises (verify_sliced (slice_to sts o)) ≡ false
unfolding slice_to verify_sliced
slice_to-quiet sts none h = refl
slice_to-quiet sts (some j) h = judge_log-quiet (take j sts) (first_missing-take j sts h)

slice_from-quiet :
    (sts : List LogStatement) (lit : Bytes) (o : Option ℕ)
    → first_missing (writes sts) ≡ none
    → advises (verify_sliced (slice_from sts lit o)) ≡ false
unfolding slice_from verify_sliced
slice_from-quiet sts lit none h = refl
slice_from-quiet sts lit (some i) h =
    let behind = drop (i + 1) sts in
    slice_to-quiet behind (first_with lit behind) (first_missing-drop (i + 1) sts h)

reconstruct-named :
    (classify : Bytes → StatementKind) (es : List Entry)
    → first_missing (writes (reconstruct classify es)) ≡ none
unfolding reconstruct
reconstruct-named classify es = reconstruct_from-named classify es []

first_missing-slice :
    (sts : List LogStatement) (label : Bytes)
    → first_missing (writes sts) ≡ none
    → advises (verify_sliced (scenario sts label)) ≡ false
unfolding scenario
first_missing-slice sts label h =
    slice_from-quiet sts (marker_literal end_kind label)
      (first_with (marker_literal begin_kind label) sts) h

parse_scanned-quiet :
    (classify : Bytes → StatementKind) (s : Scanned)
    → advises (verify_parsed (parse_scanned classify s)) ≡ false
unfolding parse_scanned verify_parsed
parse_scanned-quiet classify (scan_failed e) = refl
parse_scanned-quiet classify (lines_of ls) =
    let es = (read_lines read_start ls).entries in
    judge_log-quiet (reconstruct classify es) (reconstruct-named classify es)

parse_scanned_scenario-quiet :
    (classify : Bytes → StatementKind) (s : Scanned) (label : Bytes)
    → advises (verify_parsed_scenario label (parse_scanned classify s)) ≡ false
unfolding parse_scanned verify_parsed_scenario
parse_scanned_scenario-quiet classify (scan_failed e) label = refl
parse_scanned_scenario-quiet classify (lines_of ls) label =
    let es = (read_lines read_start ls).entries in
    first_missing-slice (reconstruct classify es) label (reconstruct-named classify es)

all_digits-no_blank : (t : Bytes) → all_class digit t ≡ true → contains t b' ' ≡ false
unfolding all_class in_class in_spans
all_digits-no_blank [] h = refl
all_digits-no_blank (c ∷ t) h = ground (arith, h, all_digits-no_blank t)

-- The digits of a thread's number hold no blank.
digits-no_blank : (t : Bytes) → is_run digit t ≡ true → contains t b' ' ≡ false
digits-no_blank [] h = refl
digits-no_blank (c ∷ t) h = all_digits-no_blank (c ∷ t) h

report_verdict :
    (b : Bool) (r : CheckReport)
    → (if b then returns (some r) none else returns (some r) (some (non_atomic r)))
      ≡ returns (some r) (if b then none else some (non_atomic r))
report_verdict true r = refl
report_verdict false r = refl

judge_log-checked :
    (sts : List LogStatement) (r : CheckReport)
    → reject_autocommit_change sts ≡ none
    → check sts ≡ reported r
    → judge_log sts
      ≡ judged
          (verified (returns (some r) (if leb r.write_units 1 then none else some (non_atomic r))))
          false
unfolding judge_log verify_log verify_unless verify_statements lacks_identity verify_checked atomic
judge_log-checked sts r auto h =
    let few = leb r.write_units 1 in
    rw auto (rw h (rw (report_verdict few r) (rw (lacks_tx_id-non_atomic few r) refl)))

-- Whatever a log holds and however statements are classified, mycheck never gives its advice on a
-- missing identity: every statement that it reads carries one.
pub verify_reader-quiet :
    (c : Checker) (r : Reader) (label : Bytes)
    → (advises (verify_reader c r) ≡ false) × (advises (verify_reader_scenario c r label) ≡ false)
unfolding verify_reader verify_reader_scenario parse
verify_reader-quiet c r label = (
  parse_scanned-quiet c.classify (scan r),
  parse_scanned_scenario-quiet c.classify (scan r) label,
)

IsPlain-entries_of : (ps : List LogPart) (n : ℕ) → all_parts ps ≡ true → IsPlain (entries_of n ps)
unfolding is_event
IsPlain-entries_of [] n h = tt
IsPlain-entries_of (logged e ∷ ps) n h =
    (digits-no_blank e.thread (ground (arith, h)), IsPlain-entries_of ps _ (ground (arith, h)))
IsPlain-entries_of (banner l ls ∷ ps) n h = IsPlain-entries_of ps _ (ground (arith, h))

-- On the lines of well-formed entries and banners, where no entry of the log changes the autocommit
-- mode, `Verify` reports as many write units as the threads ran atomic units with a write, with an
-- error exactly when it is more than one.
pub verify_reader-file_lines :
    (c : Checker) (ps : List LogPart)
    → all_parts ps ≡ true
    → all_lines (file_lines ps) ≡ true
    → reject_autocommit_change (reconstruct c.classify (entries_of 0 ps)) ≡ none
    → (r : CheckReport) × (verify_reader c (reader_of (unlines (file_lines ps)))
        ≡ judged
            (verified
              (returns (some r) (if leb r.write_units 1 then none else some (non_atomic r))))
            false)
      × (r.write_units ≡ log_units c.classify (λ k. outside) (entries_of 0 ps))
unfolding verify_reader verify_parsed
verify_reader-file_lines c ps h lines auto =
    let es = entries_of 0 ps in
    let (r, checked, units) = check-reconstruct_exact c.classify es (IsPlain-entries_of ps 0 h) in
    (
      r,
      ap verify_parsed (parse-file_lines c.classify ps h lines)
          ∙ judge_log-checked (reconstruct c.classify es) r auto checked,
      units,
    )
