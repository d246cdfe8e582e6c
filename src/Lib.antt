-- ===== src/Lib.antt =====
-- go-txnproof checks that the writes inside a boundary of a program share one transaction. This
-- library models its core, and proves what the parts promise.
--
-- How the parts interact. A `Session` (session.go) stands for one connection: it classifies each
-- statement (classify.go), keeps the number of the transaction it is in, and hands the statement to
-- the `Detector` (detector.go), which records it in the boundary that the context carries. When the
-- boundary finishes, the detector counts its write units, consults the in-code mark and the
-- allowlist (allowlist.go), and tells the reporters (reporter.go), which may be wrapped in a
-- baseline (baseline.go) or a throttle (throttle.go). The middleware (driver.go) makes a session of
-- each connection of database/sql, the null database (nulldb.go) runs it on a driver that does
-- nothing, and a tracer (e2e/pgxtracer.go) feeds a session from pgx. The package crosscheck makes the
-- same check from the log of a database server, which an adapter (pgcheck, mycheck) turns into
-- statements with identities.
--
-- The files.
--   Prelude          names, byte strings, lists, maps as association lists, sorted strings
--   Classify         classify.go: DefaultClassifier, stripLeading, containsWriteToken and the rest;
--                    its children prove what is skipped, which tokens count, the role of letters and
--                    of the fixed buffer
--   Report           reporter.go, attrs.go and the reporter interfaces of detector.go; a `Reporter` is
--                    a record of methods on the state of all receivers, a `Cell` a field of it
--   Boundary         detector.go: Boundary, noteWriteTx, the options, the locked part of record
--   Allowlist        allowlist.go
--   Verdict          detector.go: what finishBoundary decides, as a value
--   Detector         detector.go: StartBoundary, record, AllowNonAtomicHere, finishBoundary,
--                    InBoundary as functions on a `World` (the detector, the boundaries by address,
--                    the state of the receivers)
--   Session          session.go: Observe, BeginTx, EndTx; its children are about runs of a connection
--                    and about interleavings of many
--   Collecting       reporter.go: CollectingReporter
--   Slog             reporter.go, attrs.go: SlogReporter and SlogAttrs, over a logger that keeps its
--                    records
--   Message          reporter.go: Violation.String and formatWriteUnits; `quote` is strconv.Quote
--   Compact          crosscheck/check.go: compactSQL, which is strings.Fields and strings.Join
--   Baseline         baseline.go: Baseline and BaselineReporter
--   Throttle         throttle.go: ThrottlingReporter, and unboundedWriteKey in Throttle.Key
--   Crosscheck       crosscheck/check.go, crosscheck/crosscheck.go; crosscheck/scenario.go in
--                    Crosscheck.Markers, and the texts of reports and errors in Crosscheck.Text
--   Driver           driver.go: the wrapped connection; its statements and transactions are in
--                    Driver.Statement, the optional methods that are only handed on in Driver.Extras, and
--                    the refinement to events of a session in Driver.Calls
--   Mycheck          mycheck/parse.go and verifyStatements of mycheck/mycheck.go; Mycheck.Parse reads
--                    the lines of the general log (Parse, isBannerLine, Verify, VerifyScenario)
--   Regexp           the regular expressions of the adapters, and the search of Go's package regexp
--   Scanner          bufio.Scanner over the lines of a reader
--   Pgcheck          pgcheck/pgcheck.go, pgcheck/parse.go; CompileLogLinePrefix in Pgcheck.Prefix;
--                    Pgcheck.Bodies tells which messages carry a statement without an expression
--   NullDb           nulldb.go, as a driver behind the middleware
--   PgxTracer        e2e/pgxtracer.go; PgxTracer.Client is a client that queries and sends batches
--   Tests            concrete runs
--
-- Bounds and fuel. A text is a list of bytes. The transaction counter wraps at 2 ^ 64, as the uint64
-- of the code does; the theorems that need distinct numbers say that it does not. Other counters and
-- lengths are unbounded. `strip_loop` has the length of the text and one as fuel, which is enough
-- since each comment takes a byte at least; `key_loop`, `fields_loop` and `quote_loop` have the length
-- of the text, since each round takes a byte; `digits` has the number, which is more than its
-- digits. All else is structural.
--
-- Concurrency. The code holds a lock in every operation that changes state, so a run of it is a
-- sequence of operations in some order; the theorems on steps are for every order.
--
-- Standard library. A regular expression is a tree of classes, sequences, alternatives and groups,
-- whose repetitions are of one class, as all of the source are; it is matched by the backtracking
-- search that Go's leftmost-first rule stands for, byte by byte. A Scanner fails on a line of 4 MB
-- or more, and its reader gives the end or a failure in a read of its own. The expression that
-- WithPrefixPattern takes is any function from texts to matches, and the table of the runes outside
-- ASCII that strconv.Quote prints as they are is any test.
--
-- Not modelled: the JSON file of a baseline, the texts of the errors of Require functions,
-- parsers and options, the pool of database/sql, and a panic inside the body of InBoundary.
mod Prelude
pub mod Classify
pub mod Report
pub mod Boundary
pub mod Allowlist
pub mod Verdict
pub mod Detector
pub mod Session
pub mod Collecting
pub mod Baseline
pub mod Throttle
pub mod Crosscheck
pub mod Driver
pub mod Mycheck
pub mod NullDb
pub mod Slog
pub mod Message
pub mod Compact
pub mod PgxTracer
pub mod Regexp
pub mod Scanner
pub mod Pgcheck
mod Tests
