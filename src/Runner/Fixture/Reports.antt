-- ===== src/Runner/Fixture/Reports.antt =====
-- Every processor that a configuration uses is reported, as simulated or as unsupported.
use otel_policy_lab.Prelude.{
  has_key-lookup, ◌≡◌, inl, inr, refl, sym, ap, ap₂, ◌∙◌, Bool, true, not, ◌||◌, ◌&&◌, List, [],
  ◌∷◌, Option, none, some, is_some, Text, codes, text_Eq, ◌==◌, Map, lookup, contains, add,
  contains-add, contains-append, sort_texts, contains-sort_texts, contains-keys, has_key, keys,
  keep, arith, Bool-cases, if◌then◌else◌, text_eq_iff,
}
use otel_policy_lab.Telemetry.{Set, clone}
use otel_policy_lab.Library.{Library}
use otel_policy_lab.Runner.Fixture.Config.{
  known_signals, CollectorConfig, pipeline_processors, ordered_signals,
}
use otel_policy_lab.Runner.Fixture.{
  ApplyResult, warn, apply_named, apply_names, apply_signals, processors_of, unique_of,
  sorted_unique, apply_config,
}
use otel_policy_lab.Runner.Fixture.Used.{IsUsed, IsUsed-pipeline_processors}
use otel_policy_lab.Runner.Fixture.Accounts.{
  is_reported, Reported-there, Reported-keeps, apply_named-Reported,
}

-- The result with which the loop over the processors of `signal` starts.
abbrev warned : Text → ApplyResult → ApplyResult
warned signal r =
    if signal == codes "traces"
    then warn
        (codes
          "fixture runner does not simulate span dropping or sampling; trace preservation checks are fixture-local")
        r
    else r

warned-keeps :
    (signal : Text) (r : ApplyResult) (k : Text)
    → is_reported r k ≡ true
    → is_reported (warned signal r) k ≡ true
warned-keeps signal r k h = elim (Bool-cases (signal == codes "traces")) [
  | inl e ↦ rw e h
  | inr e ↦ rw e h
]

module _ (lib : Library) where
  apply_names-keeps :
      (cfg : CollectorConfig) (signal : Text) (names : List Text) (r : ApplyResult) (k : Text)
      → is_reported r k ≡ true
      → is_reported (apply_names lib cfg signal names r) k ≡ true
  unfolding apply_names
  apply_names-keeps cfg signal [] r k h = h
  apply_names-keeps cfg signal (name ∷ names) r k h =
      apply_names-keeps cfg signal names (apply_named lib cfg signal name r) k (
        Reported-keeps name r (apply_named lib cfg signal name r) k
          (apply_named-Reported lib cfg signal name r) h)

  apply_names-there :
      (cfg : CollectorConfig) (signal : Text) (names : List Text) (r : ApplyResult) (k : Text)
      → contains names k ≡ true
      → is_reported (apply_names lib cfg signal names r) k ≡ true
  unfolding apply_names contains
  apply_names-there cfg signal [] r k h = cc
  apply_names-there cfg signal (name ∷ names) r k h =
      let next = apply_named lib cfg signal name r in
      elim (Bool-cases (name == k)) [
        | inl e ↦ apply_names-keeps cfg signal names next k (
            ap (is_reported next) (sym ((text_eq_iff name k).0 e))
            ∙ Reported-there name r next (apply_named-Reported lib cfg signal name r))
        | inr e ↦ apply_names-there cfg signal names next k (ground (arith, e, h))
      ]

  apply_signals-keeps :
      (cfg : CollectorConfig) (pipelines : Map Text (List Text)) (signals : List Text)
      (r : ApplyResult) (k : Text)
      → is_reported r k ≡ true
      → is_reported (apply_signals lib cfg pipelines signals r) k ≡ true
  unfolding apply_signals
  apply_signals-keeps cfg pipelines [] r k h = h
  apply_signals-keeps cfg pipelines (signal ∷ signals) r k h =
      apply_signals-keeps cfg pipelines signals
        (apply_names lib cfg signal (processors_of pipelines signal) (warned signal r)) k
        (apply_names-keeps cfg signal (processors_of pipelines signal) (warned signal r) k
          (warned-keeps signal r k h))

  apply_signals-there :
      (cfg : CollectorConfig) (pipelines : Map Text (List Text)) (signals : List Text)
      (r : ApplyResult) (signal k : Text)
      → contains signals signal ≡ true
      → contains (processors_of pipelines signal) k ≡ true
      → is_reported (apply_signals lib cfg pipelines signals r) k ≡ true
  unfolding apply_signals contains
  apply_signals-there cfg pipelines [] r signal k h u = cc
  apply_signals-there cfg pipelines (other ∷ signals) r signal k h u =
      let next = apply_names lib cfg other (processors_of pipelines other) (warned other r) in
      elim (Bool-cases (other == signal)) [
        | inl e ↦ apply_signals-keeps cfg pipelines signals next k (
            apply_names-there cfg other (processors_of pipelines other) (warned other r) k (
              ap (λ s. contains (processors_of pipelines s) k) ((text_eq_iff other signal).0 e)
              ∙ u))
        | inr e ↦ apply_signals-there cfg pipelines signals next signal k (ground (arith, e, h)) u
      ]

contains-unique_of :
    (seen values : List Text) (k : Text)
    → contains (unique_of seen values) k ≡ (contains seen k || contains values k)
unfolding contains
contains-unique_of seen [] k = ground arith
contains-unique_of seen (v ∷ values) k =
    ground (arith, contains-unique_of (add seen v) values k, contains-add seen v k)

contains-sorted_unique :
    (values : List Text) (k : Text) → contains (sorted_unique values) k ≡ contains values k
contains-sorted_unique values k =
    contains-sort_texts (unique_of [] values) k ∙ unfold contains in contains-unique_of [] values k

contains-keep :
    (f : Text → Bool) (xs : List Text) (k : Text) → contains (keep f xs) k ≡ (contains xs k && f k)
unfolding contains keep
contains-keep f [] k = refl
contains-keep f (x ∷ xs) k = elim (Bool-cases (x == k)) [
  | inl e ↦
      (let same : f x ≡ f k = ap f ((text_eq_iff x k).0 e) in
        ground (arith, same, e, contains-keep f xs k))
  | inr e ↦ ground (arith, e, contains-keep f xs k)
]

-- The signals are those that have an entry.
contains-ordered_signals :
    (m : Map Text (List Text)) (s : Text) → contains (ordered_signals m) s ≡ has_key m s
unfolding ordered_signals
contains-ordered_signals m s =
    let extra = keep (λ t. not (contains known_signals t)) (keys m) in
    contains-append (keep (λ t. has_key m t) known_signals) (sort_texts extra) s
    ∙ ground (
      arith,
      contains-keep (λ t. has_key m t) known_signals s,
      contains-sort_texts extra s,
      contains-keep (λ t. not (contains known_signals t)) (keys m) s,
      contains-keys m s,
      Bool-cases (contains known_signals s),
      Bool-cases (has_key m s),
    )

listed-is_some :
    (o : Option (List Text)) (k : Text)
    → contains (let names : List Text = elim o [ none ↦ [] | some l ↦ l ] in names) k ≡ true
    → is_some o ≡ true
unfolding contains
listed-is_some none k h = cc
listed-is_some (some l) k h = refl

used_has_key :
    (m : Map Text (List Text)) (s k : Text)
    → contains (processors_of m s) k ≡ true
    → has_key m s ≡ true
used_has_key m s k h = has_key-lookup m s ∙ listed-is_some (lookup m s) k h

module _ (lib : Library) where
  -- The same for what the code has collected for a signal.
  apply_config-there :
      (input : Set) (cfg : CollectorConfig) (signal name : Text)
      → contains (processors_of (pipeline_processors cfg) signal) name ≡ true
      → is_reported (apply_config lib input cfg) name ≡ true
  unfolding apply_config
  apply_config-there input cfg signal name h =
      let pipelines = pipeline_processors cfg in
      let start : ApplyResult = record {
        output = clone input;
        warnings = [];
        simulated = [];
        unsupported = [];
      } in
      let r = apply_signals lib cfg pipelines (ordered_signals pipelines) start in
      let known : contains (ordered_signals pipelines) signal ≡ true =
        contains-ordered_signals pipelines signal ∙ used_has_key pipelines signal name h in
      ap₂ ◌||◌ (contains-sorted_unique r.simulated name) (contains-sorted_unique r.unsupported name)
      ∙ apply_signals-there lib cfg pipelines (ordered_signals pipelines) start signal name known h

  -- Every processor that a configuration uses, which is one that some pipeline runs or, without
  -- pipelines, one that is defined, is among the simulated or the unsupported processors of the
  -- fixture runner's result.
  pub apply_config-reports :
      (input : Set) (cfg : CollectorConfig) (name : Text)
      → IsUsed cfg name
      → is_reported (apply_config lib input cfg) name ≡ true
  apply_config-reports input cfg name used =
      let (signal, there) = IsUsed-pipeline_processors cfg name used in
      apply_config-there input cfg signal name there
