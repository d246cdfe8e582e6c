-- ===== src/Session.antt =====
-- session.go: the transaction state of one connection, and the statements that it observes.
pub mod Run
pub mod Units
pub mod Report
pub mod Exclusive
use go_txnproof.Prelude.{ℕ, Bytes, ◌==◌, if◌then◌else◌, List, [], ◌∷◌}
use go_txnproof.Classify.{StatementKind, begin, commit, rollback}
use go_txnproof.Report.{Context}
use go_txnproof.Detector.{World, next_tx_id, record_statement}

-- `tx_id` is not 0 while the connection is inside a transaction. The detector is that of the world.
pub record Session : Type 0 where
  pub tx_id : ℕ

unfoldable pub new_session : Session
new_session = record { tx_id = 0 }

-- `EndTx`
unfoldable pub end_tx : Session → Session
end_tx s = record { tx_id = 0 }

module _ {S : Type 0} where
  -- `BeginTx`
  unfoldable pub begin_tx : World S → Session → World S × Session
  begin_tx w s = let (w', n) = next_tx_id w in (w', record { tx_id = n })

  -- The `switch` of `observeKind`.
  unfoldable pub track : World S → Session → StatementKind → World S × Session
  track w s StatementKind.begin = if s.tx_id == 0 then begin_tx w s else (w, s)
  track w s StatementKind.commit = (w, record { tx_id = 0 })
  track w s StatementKind.rollback = (w, record { tx_id = 0 })
  track w s _ = (w, s)

  -- `observeKind`
  unfoldable pub observe_kind :
      World S → Session → Context → Bytes → StatementKind → ℕ → World S × Session
  observe_kind w s ctx query kind now =
      let (w', s') = track w s kind in (record_statement w' ctx query kind s'.tx_id now, s')

  -- `Observe`
  unfoldable pub observe : World S → Session → Context → Bytes → ℕ → World S × Session
  observe w s ctx query now = observe_kind w s ctx query (w.det.classify query) now
