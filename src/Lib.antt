-- ===== src/Lib.antt =====
-- otel-policy-lab checks what an OpenTelemetry Collector configuration leaves of a telemetry
-- fixture against a policy. A run loads a policy (internal/policy), loads a fixture as a
-- telemetry set (internal/telemetry), lets a runner produce the output set (internal/runner),
-- evaluates the policy on both sets (internal/evaluator) and builds a report, whose exit code is
-- the program's (internal/report, internal/cli).
--
-- Which file models what:
-- - Policy: internal/policy/policy.go. `load`, `parse`, `validate` and
--   `normalize_preserve_expression` are `Load`, `Parse`, `Policy.Validate` and
--   `NormalizePreserveExpression`; a nil section is `none`, an error a constructor of
--   `PolicyError`. Policy/Predicates describes the policies that check something and the
--   expressions that are supported.
-- - Telemetry: internal/telemetry/telemetry.go, with the series keys (Telemetry/Series) and the
--   clones (Telemetry/Copies). Telemetry/Canonical and Telemetry/Groups:
--   internal/telemetry/canonical.go. A Go map is an association list without repeated keys; the
--   order of the list is the one in which Go would range over it.
-- - Telemetry/Otlp: the fixture files of internal/telemetry/telemetry.go and otlp.go. `load_otlp`,
--   `parse_otlp` and `normalize` are `LoadOTLP`, `ParseOTLP` and `Normalize`; Accessors has what
--   they read of the pdata packages, Normal the loops over the records of a signal.
-- - Files: the file system, and the loop that hashes a file in pieces, which internal/cli and
--   internal/runner both have.
-- - Evaluator/Matches: internal/evaluator/matches.go. Find has the searches of one map or text,
--   Dedupe the removal of duplicates and the summary, Search the loops over the records.
-- - Evaluator/Required, Preserve, Cardinality, Results, Signals and Run:
--   internal/evaluator/evaluator.go. The modules Sound, Identity, Verdict, Statuses and Reliable
--   below them hold the theorems. A result's `Details` map has one constructor for each set of
--   keys that the code builds.
-- - Report: internal/report/report.go. `build`, `exit_code`, `format_series` and `print_terminal`
--   are `Build`, `ExitCode`, `FormatSeries` and `PrintTerminal`; the clock is an argument.
--   Diagnostics: the records of internal/runner/collector.go and topology.go that a report holds.
-- - Runner/Capture: the capture sink of internal/runner/capture.go. A step is what one holder of
--   the sink's mutex does, a run a list of events in the order in which they get the mutex. The
--   slices of the pdata package are the parameter `Pdata`.
-- - Runner/PrivateBuffer: the bounded buffer and `processFailure` of internal/runner/process.go.
-- - Runner/Fixture: the simulated runner of internal/runner/runner.go. Config reads the decoded
--   configuration, Edit changes the telemetry, and `apply_config` is `applyConfig`. The order in
--   which Go ranges over the pipelines is that of the list.
-- - Runner/Run: the interface of a runner, `New` and the run of the fixture runner, of
--   internal/runner/runner.go. Runner/Inputs: `readLimited`, `binaryChecksum` and `openRegular` of
--   internal/runner/collector.go and process.go.
-- - Runner/Process: the child process of internal/runner/process.go. What the system does during a
--   call of `stop` is the record `StopWorld`, the calls that `stop` makes on the process group are a
--   list, and what the wait for readiness meets are two functions of its turns. Runner/Startup: the loop of `CollectorRunner.Run` in internal/runner/collector.go
--   that starts the Collector; what a turn meets is the record `Attempt`. Runner/Exchange: what
--   the run does after that, with its deferred functions; the records `Exchange` and `Cleanup` hold
--   what the phases meet. Runner/Submission: `submitFixture` and `validateFixtureSize` of
--   internal/runner/capture.go.
-- - Runner/Topology: internal/runner/topology.go. Yaml has the nodes and their validation, Sections
--   and Pipelines the parts of `parseTopology`, and Harness what is run in place of the given
--   configuration. A decoded document is a tree; the decoder is the parameter `YamlDecoder`.
-- - Verdict: the evaluator and the report together, from the telemetry to the exit code.
-- - Collector: internal/collector/validate.go.
-- - Cli: internal/cli/cli.go. Flags has the flags and the errors, Metadata what a report says of
--   its files, and `run` is `Run`. The record `World` holds what a command finds around it: the
--   libraries, the file system, the clock, and the Collector runner behind its interface.
-- - Library: what the code calls of Go's `regexp`, `path`, `unicode` and `fmt`. `Json`, in
--   Telemetry: `json.Marshal`. Both are parameters of the definitions, and no law is assumed of
--   them. Of the counts of `Pdata` one theorem assumes that appending adds them up.
-- - Prelude: lists, texts, sorting, association lists, results and integers. A text is a list of
--   bytes. Samples: concrete telemetry and instances of the parameters.
--
-- Loops are structural recursions. `itoa` runs on fuel of one more than the number, and
-- `format_series` on fuel of the length of the text; both are enough because every round makes
-- the number or the text smaller, and the round trip of a formatted count holds for all numbers.
--
-- Numbers are unbounded: all counts are lengths of lists that are in memory. A policy's version
-- and limit are integers.
--
-- The loops that hash a file run on fuel of their limit and two more, which is enough where a read
-- yields a byte or more unless it ends the loop.
--
-- Not modelled: the preparation of the run in internal/runner/collector.go, the start of a
-- process and the query of its version, terminal output, the encoding of a report as JSON, the
-- YAML, JSON, pdata and flag libraries, processes and the network.
pub mod Prelude
pub mod Policy
pub mod Report
pub mod Diagnostics
pub mod Files
pub mod Telemetry
pub mod Library
pub mod Evaluator
pub mod Samples
pub mod Runner
pub mod Collector
pub mod Verdict
pub mod Cli
