-- ===== src/Crosscheck/Reading.antt =====
-- crosscheck/crosscheck.go: a parser of a server's log, and the verdict on what it reads.
use go_txnproof.Prelude.{Bool, true, false, List, none, some, Bytes}
use go_txnproof.Scanner.{Reader, ScanError}
use go_txnproof.Crosscheck.{
  LogStatement, Verified, returns, panics, check_failed, non_atomic, verify_statements,
}
use go_txnproof.Crosscheck.Markers.{Sliced, sliced, no_begin, no_end, scenario}

-- What `Parse` returns.
pub data Parsed : Type 0 where
  parsed : List LogStatement → Parsed
  parse_failed : ScanError → Parsed

-- The interface `Parser`.
pub record Parser : Type 0 where
  pub parse : Reader → Parsed

-- What `Verify` and `VerifyScenario` return: the error of the reader, the error on a marker, or
-- what `VerifyStatements` returns.
pub data ReadVerdict : Type 0 where
  unread : ScanError → ReadVerdict
  no_begin_marker no_end_marker : ReadVerdict
  verdict_of : Verified → ReadVerdict

unfoldable pub verify_parsed : Parsed → ReadVerdict
verify_parsed (parsed sts) = verdict_of (verify_statements sts)
verify_parsed (parse_failed e) = unread e

unfoldable pub verify_sliced : Sliced → ReadVerdict
verify_sliced (sliced sts) = verdict_of (verify_statements sts)
verify_sliced no_begin = no_begin_marker
verify_sliced no_end = no_end_marker

unfoldable pub verify_parsed_scenario : Bytes → Parsed → ReadVerdict
verify_parsed_scenario label (parsed sts) = verify_sliced (scenario sts label)
verify_parsed_scenario label (parse_failed e) = unread e

-- `Verify`
unfoldable pub verify : Parser → Reader → ReadVerdict
verify p r = verify_parsed (p.parse r)

-- `VerifyScenario`
unfoldable pub verify_scenario : Parser → Reader → Bytes → ReadVerdict
verify_scenario p r label = verify_parsed_scenario label (p.parse r)

-- Whether the error of a verdict is the one on a statement without an identity.
unfoldable pub lacks_tx_id : Verified → Bool
lacks_tx_id (returns _ (some (check_failed st))) = true
lacks_tx_id (returns _ (some (non_atomic r))) = false
lacks_tx_id (returns _ none) = false
lacks_tx_id panics = false

-- A verdict, and whether its error is wrapped with the advice of the adapter.
pub record Advised : Type 0 where
  pub verdict : ReadVerdict
  pub advice : Bool

-- `adviseOnMissingTxID`
unfoldable pub advise_on_missing_tx_id : ReadVerdict → Advised
advise_on_missing_tx_id (verdict_of v) = record { verdict = verdict_of v; advice = lacks_tx_id v }
advise_on_missing_tx_id v = record { verdict = v; advice = false }
