-- ===== src/Evaluator/Matches.antt =====
-- internal/evaluator/matches.go: the search for forbidden keys, values, bodies and names.
pub mod Find
pub mod Dedupe
pub mod Search
pub mod Sound
pub mod Clean
