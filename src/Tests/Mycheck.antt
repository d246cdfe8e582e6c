-- ===== src/Tests/Mycheck.antt =====
-- Two threads of a MySQL log, one inside a transaction while the other writes.
use go_txnproof.Prelude.{◌≡◌, refl, List, [], ◌∷◌, codes, String}
use go_txnproof.Classify.{default_classifier}
use go_txnproof.Crosscheck.{CheckReport, reported, check}
use go_txnproof.Mycheck.{Entry, new_thread, reconstruct}
use go_txnproof.Session.Units.{outside}
use go_txnproof.Mycheck.Units.{log_units}
use go_txnproof.Mycheck.Atomic.{check-reconstruct_exact}
use go_txnproof.Mycheck.Threads.{of_thread, thread_run, of_thread-reconstruct}

abbrev entry : String → String → String → Entry
entry thread command text = record {
  thread = codes thread;
  command = codes command;
  text = codes text;
  line = 1;
}

abbrev entries : List Entry
entries =
    entry "11" "Connect" "root@localhost"
    ∷ entry "11" "Query" "BEGIN"
    ∷ entry "12" "Query" "INSERT INTO a VALUES (1)"
    ∷ entry "11" "Execute" "UPDATE b SET n = 1"
    ∷ entry "11" "Quit" ""
    ∷ []

of_thread-reconstruct_example :
    of_thread (codes "11") entries (reconstruct default_classifier entries)
    ≡ thread_run default_classifier (codes "11") new_thread entries
of_thread-reconstruct_example = of_thread-reconstruct default_classifier (codes "11") entries

check-reconstruct_exact_example :
    (r : CheckReport) × (check (reconstruct default_classifier entries) ≡ reported r)
    × (r.write_units ≡ log_units default_classifier (λ k. outside) entries)
check-reconstruct_exact_example =
    check-reconstruct_exact default_classifier entries (refl, (refl, (refl, (refl, (refl, tt)))))
