-- ===== src/Runner/Fixture/Used.antt =====
-- internal/runner/runner.go: the processors that a configuration uses, described on their own, are
-- those that `pipelineProcessors` collects by signal.
use otel_policy_lab.Prelude.{
  ◌≡◌, refl, ap, ◌∙◌, Bool, true, false, ◌||◌, ◌&&◌, List, [], ◌∷◌, ◌++◌, none, some, Text, codes,
  text_Eq, text_eq, ◌==◌, Map, lookup, insert, lookup-insert, contains, contains-append,
  contains-sort_texts, contains-keys, has_key, keys, sort_texts, before, arith, Bool-cases, inl,
  inr, text_eq_iff, if◌then◌else◌,
}
use otel_policy_lab.Runner.Fixture.Config.{
  CollectorConfig, listed, used_processors, pipeline_processors,
}

-- Does one of the pipelines run the processor?
abbrev pub runs : Map Text (List Text) → Text → Bool
runs [] name = false
runs ((id, processors) ∷ pipelines) name = contains processors name || runs pipelines name

-- A configuration uses what its pipelines run, and one without pipelines what it defines.
pub data IsUsed (cfg : CollectorConfig) (name : Text) : Type 0 where
  by_pipeline : runs cfg.pipelines name ≡ true → IsUsed cfg name
  by_default : cfg.pipelines ≡ [] → has_key cfg.processors name ≡ true → IsUsed cfg name

listed-insert :
    (used : Map Text (List Text)) (signal other : Text) (names : List Text)
    → listed (insert used signal names) other
      ≡ (if signal == other then names else listed used other)
listed-insert used signal other names =
    ap (λ o. elim o [ none ↦ [] | some l ↦ l ]) (lookup-insert used signal other names)
    ∙ (elim (Bool-cases (signal == other)) [ inl e ↦ rw e refl | inr e ↦ rw e refl ])

-- What a signal uses once one more pipeline is added.
contains-add_pipeline :
    (used : Map Text (List Text)) (signal other : Text) (processors : List Text) (k : Text)
    → contains (listed (insert used signal (listed used signal ++ processors)) other) k
      ≡ (contains (listed used other) k || (signal == other && contains processors k))
contains-add_pipeline used signal other processors k =
    ap (λ l. contains l k) (listed-insert used signal other (listed used signal ++ processors))
    ∙ (elim (Bool-cases (signal == other)) [
      | inl e ↦
          let same = (text_eq_iff signal other).0 e in
          rw (e, same) (contains-append (listed used other) processors k)
      | inr e ↦ rw e ground (arith, Bool-cases (contains (listed used other) k))
    ])

abbrev with_pipeline : Map Text (List Text) → Text → List Text → Map Text (List Text)
with_pipeline used id processors =
    let signal = before b'/' id in insert used signal (listed used signal ++ processors)

used_processors-keeps :
    (used pipelines : Map Text (List Text)) (signal k : Text)
    → contains (listed used signal) k ≡ true
    → contains (listed (used_processors used pipelines) signal) k ≡ true
unfolding used_processors
used_processors-keeps used [] signal k h = h
used_processors-keeps used ((id, processors) ∷ pipelines) signal k h =
    used_processors-keeps (with_pipeline used id processors) pipelines signal k
      (contains-add_pipeline used (before b'/' id) signal processors k ∙ ground (arith, h))

used_processors-runs :
    (used pipelines : Map Text (List Text)) (k : Text)
    → runs pipelines k ≡ true
    → (signal : Text) × (contains (listed (used_processors used pipelines) signal) k ≡ true)
unfolding used_processors
used_processors-runs used [] k h = cc
used_processors-runs used ((id, processors) ∷ pipelines) k h =
    let signal = before b'/' id in
    elim (Bool-cases (contains processors k)) [
      | inl e ↦ (
        signal,
        used_processors-keeps (with_pipeline used id processors) pipelines signal k (
            contains-add_pipeline used signal signal processors k
            ∙ ground (arith, e, (text_eq_iff signal signal).1 refl)),
      )
      | inr e ↦
          used_processors-runs (with_pipeline used id processors) pipelines k (ground (arith, e, h))
    ]

-- The default takes the place of an empty map only.
kept_by_default :
    (used : Map Text (List Text)) (all : List Text) (signal k : Text)
    → contains (listed used signal) k ≡ true
    → contains
        (listed
          (elim used [
            | [] ↦ (codes "logs", all) ∷ (codes "traces", all) ∷ (codes "metrics", all) ∷ []
            | entry ∷ more ↦ entry ∷ more
          ])
          signal)
        k
      ≡ true
unfolding lookup contains
kept_by_default [] all signal k h = cc
kept_by_default (entry ∷ more) all signal k h = h

pub IsUsed-pipeline_processors :
    (cfg : CollectorConfig) (name : Text)
    → IsUsed cfg name
    → (signal : Text) × (contains (listed (pipeline_processors cfg) signal) name ≡ true)
unfolding pipeline_processors used_processors lookup text_eq
IsUsed-pipeline_processors cfg name (by_pipeline h) =
    let (signal, c) = used_processors-runs [] cfg.pipelines name h in
    (
      signal,
      kept_by_default (used_processors [] cfg.pipelines) (sort_texts (keys cfg.processors)) signal
          name c,
    )
IsUsed-pipeline_processors cfg name (by_default e h) = (
  codes "logs",
  rw e (contains-sort_texts (keys cfg.processors) name ∙ contains-keys cfg.processors name ∙ h),
)
