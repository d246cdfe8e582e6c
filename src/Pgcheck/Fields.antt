-- ===== src/Pgcheck/Fields.antt =====
-- The time stamp of a log line, and what its expression takes.
use go_txnproof.Prelude.{◌≡◌, refl, Bool, true, ◌&&◌, [], ◌++◌, arith, Bytes, codes}
use go_txnproof.Regexp.{in_class, in_spans, digit, non_space}
use go_txnproof.Regexp.Takes.{Takes, Takes-cat, Takes-literal, stops}
use go_txnproof.Regexp.Fields.{is_run, Moment, is_moment, moment_text, Takes-run, Takes-date_time}
use go_txnproof.Pgcheck.Prefix.{stamp_regex}

-- `%m`
pub record Stamp : Type 0 where
  pub moment : Moment
  pub fraction : Bytes
  pub zone : Bytes

abbrev pub is_stamp : Stamp → Bool
is_stamp s = is_moment s.moment && is_run digit s.fraction && is_run non_space s.zone

abbrev pub stamp_text : Stamp → Bytes
stamp_text s = moment_text (codes " ") s.moment (codes "." ++ (s.fraction ++ (codes " " ++ s.zone)))

pub Takes-stamp :
    (s : Stamp) (rest : Bytes)
    → is_stamp s ≡ true
    → stops non_space rest ≡ true
    → Takes stamp_regex (stamp_text s) [] rest
unfolding in_class in_spans
Takes-stamp s rest h e = Takes-date_time (codes " ") s.moment rest (ground (arith, h)) (
    Takes-cat rest (Takes-literal (codes ".") _) (
      Takes-cat rest (Takes-run digit s.fraction _ (ground (arith, h)) refl) (
        Takes-cat rest (Takes-literal (codes " ") _)
          (Takes-run non_space s.zone rest (ground (arith, h)) e))))
