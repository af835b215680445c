-- ===== src/Collector.antt =====
-- internal/collector/validate.go: the check of a configuration by a real Collector.
use otel_policy_lab.Prelude.{
  Bool, List, [], ◌∷◌, ◌++◌, Option, none, some, Text, codes, text_Eq, ◌==◌, Result, ok, err,
  if◌then◌else◌,
}

-- How `cmd.Run` ended: its error, what the command wrote, and whether the deadline of 30 seconds
-- had passed.
pub record CommandResult : Type 0 where
  pub error : Option Text
  pub output : Text
  pub deadline_exceeded : Bool

-- `exec.CommandContext` and `cmd.Run`, of a program and its arguments.
abbrev pub RunCommand : Type 0
RunCommand = Text → List Text → CommandResult

pub record ValidationResult : Type 0 where
  pub command : Text
  pub output : Text

pub data ValidationError : Type 0 where
  config_path_required timed_out : ValidationError
  validate_failed : (error output : Text) → ValidationError

abbrev pub binary_or_default : Text → Text
binary_or_default binary = if binary == [] then codes "otelcol" else binary

-- What follows the run of the command.
abbrev pub validation_of : Text → Text → CommandResult → Result ValidationError ValidationResult
validation_of binary config_path r = elim r.error [
  | some e ↦ if r.deadline_exceeded then err timed_out else err (validate_failed e r.output)
  | none ↦ ok (record {
    command = binary ++ (codes " validate --config " ++ config_path);
    output = r.output;
  })
]

unfoldable pub validate_config :
    RunCommand → (binary config_path : Text) → Result ValidationError ValidationResult
validate_config run_command binary config_path =
    if config_path == []
    then err config_path_required
    else validation_of (binary_or_default binary) config_path (
        run_command (binary_or_default binary)
          (codes "validate" ∷ codes "--config" ∷ config_path ∷ []))
