-- ===== src/Evaluator.antt =====
-- internal/evaluator: the policy's assertions, checked against input and output telemetry.
-- The children hold one kind of assertion each; `Evaluator.Run` puts them together.
pub mod Matches
pub mod Results
pub mod Required
pub mod Preserve
pub mod Cardinality
pub mod Signals
pub mod Run
mod Tests
