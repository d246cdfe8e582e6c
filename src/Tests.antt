-- ===== src/Tests.antt =====
-- Runs of the code on concrete inputs.
mod Classify
mod Detector
mod Reporters
mod Crosscheck
mod Driver
mod Mycheck
mod Pgcheck
mod MycheckLog
mod NullDb
mod Slog
mod PgxTracer
