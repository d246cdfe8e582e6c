-- ===== src/PgxTracer/Client.antt =====
-- A client of pgx: its calls on the tracer, and the units that it makes.
use go_txnproof.Prelude.{
  ℕ, ◌+◌, Bool, true, false, not, ◌||◌, ◌&&◌, List, [], ◌∷◌, Bytes, if◌then◌else◌,
}
use go_txnproof.Classify.{StatementKind}
use go_txnproof.Report.{Context}
use go_txnproof.Detector.{is_write}
use go_txnproof.Session.Run.{Event, observes, begins, ends}
use go_txnproof.Session.Units.{Span, outside, clean, dirty, after_kind}
use go_txnproof.PgxTracer.Batch.{
  TraceCall, query_start, query_end, batch_start, batch_query, batch_end,
}

-- What a client does on a connection: a query, or a batch of queries, each with its time.
pub data PgxOp : Type 0 where
  query : Bytes → ℕ → PgxOp
  batch : List (Bytes × ℕ) → PgxOp

abbrev pub is_control : StatementKind → Bool
is_control StatementKind.begin = true
is_control StatementKind.commit = true
is_control StatementKind.rollback = true
is_control _ = false

abbrev pub no_control : (Bytes → StatementKind) → List (Bytes × ℕ) → Bool
no_control classify [] = true
no_control classify ((q, now) ∷ qs) = not (is_control (classify q)) && no_control classify qs

-- No batch has transaction control in it.
abbrev pub plain_batches : (Bytes → StatementKind) → List PgxOp → Bool
plain_batches classify [] = true
plain_batches classify (query q now ∷ ops) = plain_batches classify ops
plain_batches classify (batch qs ∷ ops) = no_control classify qs && plain_batches classify ops

abbrev pub any_write : (Bytes → StatementKind) → List (Bytes × ℕ) → Bool
any_write classify [] = false
any_write classify ((q, now) ∷ qs) = is_write (classify q) || any_write classify qs

-- The span behind a batch, and the unit that it begins: a batch that writes is a unit of its own
-- outside a transaction, and a part of the transaction that it is sent in.
abbrev pub batch_step : Bool → Span → Span × ℕ
batch_step any outside = (outside, if any then 1 else 0)
batch_step any clean = (if any then dirty else clean, if any then 1 else 0)
batch_step any dirty = (dirty, 0)

abbrev pub op_step : (Bytes → StatementKind) → PgxOp → Span → Span × ℕ
op_step classify (query q now) span = after_kind (classify q) span
op_step classify (batch qs) span = batch_step (any_write classify qs) span

-- The atomic units of what a client does.
abbrev pub client_units : (Bytes → StatementKind) → Span → List PgxOp → ℕ
client_units classify span [] = 0
client_units classify span (op ∷ ops) =
    let (span', n) = op_step classify op span in n + client_units classify span' ops

-- The transaction status that pgx tells at the start of a batch is idle outside a transaction.
abbrev is_idle : Span → Bool
is_idle outside = true
is_idle _ = false

abbrev pub batch_queries : Context → List (Bytes × ℕ) → List TraceCall → List TraceCall
batch_queries ctx [] calls = batch_end ∷ calls
batch_queries ctx ((q, now) ∷ qs) calls = batch_query ctx q now ∷ batch_queries ctx qs calls

-- The calls that pgx makes on the tracer.
abbrev pub client_calls : (Bytes → StatementKind) → Context → Span → List PgxOp → List TraceCall
client_calls classify ctx span [] = []
client_calls classify ctx span (query q now ∷ ops) =
    query_start ctx q now
    ∷ query_end
    ∷ client_calls classify ctx (op_step classify (query q now) span).0 ops
client_calls classify ctx span (batch qs ∷ ops) =
    batch_start (is_idle span)
    ∷ batch_queries ctx qs (client_calls classify ctx (op_step classify (batch qs) span).0 ops)

-- The same as events of a session.
abbrev pub observed_all : List (Bytes × ℕ) → List Event → List Event
observed_all [] es = es
observed_all ((q, now) ∷ qs) es = observes q now ∷ observed_all qs es

abbrev pub batch_events : Span → List (Bytes × ℕ) → List Event → List Event
batch_events outside qs es = begins ∷ observed_all qs (ends ∷ es)
batch_events _ qs es = observed_all qs es

abbrev pub client_events : (Bytes → StatementKind) → Span → List PgxOp → List Event
client_events classify span [] = []
client_events classify span (query q now ∷ ops) =
    observes q now ∷ client_events classify (op_step classify (query q now) span).0 ops
client_events classify span (batch qs ∷ ops) =
    batch_events span qs (client_events classify (op_step classify (batch qs) span).0 ops)
