-- ===== src/PgxTracer.antt =====
-- e2e/pgxtracer.go: the tracer of pgx, which feeds the statements of each connection to a session of
-- its own and brackets a batch that the server runs as a transaction. A *pgx.Conn is named by a
-- text; its transaction status, which pgx tells, is an argument.
pub mod Batch
pub mod Client
pub mod Units
use go_txnproof.Prelude.{
  ℕ, Bool, true, false, not, List, [], ◌∷◌, Option, none, some, Bytes, bytes_eq, if◌then◌else◌,
}
use go_txnproof.Prelude.Dict.{Dict, lookup, insert}
use go_txnproof.Report.{Context}
use go_txnproof.Detector.{World}
use go_txnproof.Session.{Session, new_session, begin_tx, end_tx, observe}

-- `pgxTracer`; the detector is that of the world.
pub record Tracer : Type 0 where
  pub sessions : Dict Session
  pub implicit_batch : Dict Bool

-- `newPgxTracer`
unfoldable pub new_pgx_tracer : Tracer
new_pgx_tracer = record { sessions = []; implicit_batch = [] }

-- `delete(m, k)`
unfoldable pub delete : {A : Type 0} → Dict A → Bytes → Dict A
delete [] k = []
delete ((k', v) ∷ m) k = let rest = delete m k in if bytes_eq k' k then rest else (k', v) ∷ rest

-- `sessionFor`: what the map holds for the connection, or a new session, which the map then holds.
unfoldable pub session_for : Tracer → Bytes → Session
session_for t conn = elim (lookup t.sessions conn) [ none ↦ new_session | some s ↦ s ]

-- A change of a session through its pointer.
unfoldable pub put_session : Tracer → Bytes → Session → Tracer
put_session t conn s = record t { sessions = insert t.sessions conn s }

-- `forget`
unfoldable pub forget : Tracer → Bytes → Tracer
forget t conn = record {
  sessions = delete t.sessions conn;
  implicit_batch = delete t.implicit_batch conn;
}

-- `implicitBatch[conn]`
unfoldable pub is_implicit : Tracer → Bytes → Bool
is_implicit t conn = elim (lookup t.implicit_batch conn) [ none ↦ false | some b ↦ b ]

module _ {S : Type 0} where
  -- `TraceQueryStart`
  unfoldable pub trace_query_start :
      World S → Tracer → Context → Bytes → Bytes → ℕ → World S × Tracer
  trace_query_start w t ctx conn sql now =
      let (w', s) = observe w (session_for t conn) ctx sql now in (w', put_session t conn s)

  -- `TraceQueryEnd`
  unfoldable pub trace_query_end : World S → Tracer → World S × Tracer
  trace_query_end w t = (w, t)

  -- `TraceBatchStart`, where `idle` is `TxStatus() == 'I'`.
  unfoldable pub trace_batch_start : World S → Tracer → Bytes → Bool → World S × Tracer
  trace_batch_start w t conn idle =
      let (w', s) = begin_tx w (session_for t conn) in
      if idle
      then (
        w',
        record (put_session t conn s) { implicit_batch = insert t.implicit_batch conn true },
      )
      else (w, t)

  -- `TraceBatchQuery`
  unfoldable pub trace_batch_query :
      World S → Tracer → Context → Bytes → Bytes → ℕ → World S × Tracer
  trace_batch_query w t ctx conn sql now =
      let (w', s) = observe w (session_for t conn) ctx sql now in (w', put_session t conn s)

  -- The end of a batch, where `implicit` is what was noted of it.
  unfoldable pub after_batch : Bool → World S → Tracer → Bytes → World S × Tracer
  after_batch implicit w t conn =
      let t' = record t { implicit_batch = delete t.implicit_batch conn } in
      let ended = put_session t' conn (end_tx (session_for t' conn)) in
      if implicit then (w, ended) else (w, t')

  -- `TraceBatchEnd`
  unfoldable pub trace_batch_end : World S → Tracer → Bytes → World S × Tracer
  trace_batch_end w t conn = after_batch (is_implicit t conn) w t conn
