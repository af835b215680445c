-- ===== src/Runner/Topology/Selected.antt =====
-- What `parseTopology` selects: the pipelines that have telemetry, with processors that can run.
use mathlib.Core.List.{append-nil, append_assoc}
use otel_policy_lab.Prelude.{
  ◌≡◌, refl, sym, ap, ◌∙◌, Bool, true, false, not, List, [], ◌∷◌, ◌++◌, Option, none, some, is_some,
  Option-cases, Text, text_Eq, text_eq_iff, Map, lookup, has_key, has_key-lookup, lookup-snoc, All,
  All-append, keep, ok, err, ◌>>=◌, bind-ok, arith, Bool-cases, inl, inr,
}
use otel_policy_lab.Diagnostics.{PipelineDiagnostics}
use otel_policy_lab.Runner.Topology.Yaml.{Node, has_provider_substitution}
use otel_policy_lab.Runner.Topology.Sections.{provider_substitution}
use otel_policy_lab.Runner.Topology.{
  Topology, Populated, is_populated, select_definition, select_processor, select_pipeline,
  select_processors, select_pipelines,
}

abbrev pub runs : Option Node → Bool
runs none = false
runs (some definition) = not (has_provider_substitution definition)

-- The map defines the processor, by a node that holds no provider substitution.
abbrev pub can_run : Map Text Node → Text → Bool
can_run m id = runs (lookup m id)

abbrev pub RunAll : Map Text Node → List Text → Type 0
RunAll m ids = All (λ id. can_run m id ≡ true) ids

-- Every processor that a map defines can run.
pub record IsInline (m : Map Text Node) : Type 0 where
  pub inline : (id : Text) → is_some (lookup m id) ≡ true → can_run m id ≡ true

pub record Extends (m n : Map Text Node) : Type 0 where
  pub keeps : (id : Text) → can_run m id ≡ true → can_run n id ≡ true

snoc-keeps :
    (m : Map Text Node) (k : Text) (v : Node) (id : Text)
    → can_run m id ≡ true
    → can_run (m ++ (k, v) ∷ []) id ≡ true
snoc-keeps m k v id h = ground (arith, lookup-snoc m k v id)

snoc-runs :
    (m : Map Text Node) (k : Text) (v : Node)
    → lookup m k ≡ none
    → has_provider_substitution v ≡ false
    → can_run (m ++ (k, v) ∷ []) k ≡ true
snoc-runs m k v e h = ground (arith, lookup-snoc m k v k, text_eq_iff k k)

snoc-IsInline :
    (m : Map Text Node) (k : Text) (v : Node)
    → IsInline m
    → has_provider_substitution v ≡ false
    → IsInline (m ++ (k, v) ∷ [])
snoc-IsInline m k v i h = record {
  inline = λ id q. ground (arith, lookup-snoc m k v id, i.inline id);
}

-- What the selection of some processors has done.
record Selects (selected r : Map Text Node) (ids : List Text) : Type 0 where
  is_inline : IsInline r
  extends : Extends selected r
  all_run : RunAll r ids

RunAll-Extends : (m n : Map Text Node) (ids : List Text) → Extends m n → RunAll m ids → RunAll n ids
RunAll-Extends m n [] e h = tt
RunAll-Extends m n (id ∷ ids) e h = (e.keeps id h.0, RunAll-Extends m n ids e h.1)

select_definition-Selects :
    (id : Text) (found : Option Node) (selected r : Map Text Node)
    → IsInline selected
    → lookup selected id ≡ none
    → is_some found ≡ true
    → select_definition id found selected ≡ ok r
    → Selects selected r (id ∷ [])
unfolding select_definition
select_definition-Selects id none selected r i free there h = cc
select_definition-Selects id (some v) selected r i free there h =
    elim (Bool-cases (has_provider_substitution v)) [
      | inl e ↦ absurd (let q : err (provider_substitution id) ≡ ok r = ground arith in cc)
      | inr e ↦
          (let same : selected ++ (id, v) ∷ [] ≡ r = ground arith in
            rw (← same) (record {
              is_inline = snoc-IsInline selected id v i e;
              extends = record { keeps = snoc-keeps selected id v };
              all_run = (snoc-runs selected id v free e, tt);
            }))
    ]

select_processor-Selects :
    (used : Map Text Node) (id : Text) (selected r : Map Text Node)
    → IsInline selected
    → has_key used id ≡ true
    → select_processor used id selected ≡ ok r
    → Selects selected r (id ∷ [])
unfolding select_processor
select_processor-Selects used id selected r i d h = elim (Option-cases (lookup selected id)) [
  | inl e ↦
      select_definition-Selects id (lookup used id) selected r i e
        (sym (has_key-lookup used id) ∙ d) (ground arith)
  | inr (v, e) ↦
      (let same : selected ≡ r = ground arith in
        let there : is_some (lookup selected id) ≡ true = ground arith in
        rw (← same) (record {
          is_inline = i;
          extends = record { keeps = λ j q. q };
          all_run = (i.inline id there, tt);
        }))
]

select_processors-Selects :
    (used : Map Text Node) (ids : List Text) (selected r : Map Text Node)
    → IsInline selected
    → All (λ id. has_key used id ≡ true) ids
    → select_processors used ids selected ≡ ok r
    → Selects selected r ids
unfolding select_processors
select_processors-Selects used [] selected r i d h =
    let same : selected ≡ r = cc in
    rw (← same) (record { is_inline = i; extends = record { keeps = λ id q. q }; all_run = tt })
select_processors-Selects used (id ∷ ids) selected r i d h =
    let (next, e, more) =
      bind-ok (select_processor used id selected) (select_processors used ids) r h in
    let one = select_processor-Selects used id selected next i d.0 e in
    let rest = select_processors-Selects used ids next r one.is_inline d.1 more in
    record {
      is_inline = rest.is_inline;
      extends = record { keeps = λ j q. rest.extends.keeps j (one.extends.keeps j q) };
      all_run = (rest.extends.keeps id one.all_run.0, rest.all_run);
    }

-- Each pipeline of a list has telemetry, and processors that can run.
abbrev pub Runs : Populated → Map Text Node → List PipelineDiagnostics → Type 0
Runs raw m ps = All (λ p. (is_populated raw p.signal ≡ true) × RunAll m p.processors) ps

Runs-Extends :
    (raw : Populated) (m n : Map Text Node) (ps : List PipelineDiagnostics)
    → Extends m n
    → Runs raw m ps
    → Runs raw n ps
Runs-Extends raw m n [] e h = tt
Runs-Extends raw m n (p ∷ ps) e h =
    ((h.0.0, RunAll-Extends m n p.processors e h.0.1), Runs-Extends raw m n ps e h.1)

-- The pipelines use processors that the map defines.
abbrev pub Defines : Map Text Node → List PipelineDiagnostics → Type 0
Defines used ps = All (λ p. All (λ id. has_key used id ≡ true) p.processors) ps

pub record IsRunnable (raw : Populated) (t : Topology) : Type 0 where
  pub is_inline : IsInline t.processors
  pub all_run : Runs raw t.processors t.pipelines

-- The result of the branch that keeps a pipeline.
kept-IsRunnable :
    (raw : Populated) (p : PipelineDiagnostics) (t : Topology) (selected : Map Text Node)
    → IsRunnable raw t
    → is_populated raw p.signal ≡ true
    → Selects t.processors selected p.processors
    → IsRunnable raw (record { pipelines = t.pipelines ++ p ∷ []; processors = selected })
kept-IsRunnable raw p t selected g e s = record {
  is_inline = s.is_inline;
  all_run =
      (All-append (λ q. (is_populated raw q.signal ≡ true) × RunAll selected q.processors)
          t.pipelines (p ∷ [])).1
        (
          Runs-Extends raw t.processors selected t.pipelines s.extends g.all_run,
          ((e, s.all_run), tt),
        );
}

unfoldable pub active : Populated → List PipelineDiagnostics → List PipelineDiagnostics
active raw ps = keep (λ p. is_populated raw p.signal) ps

active-cons :
    (raw : Populated) (p : PipelineDiagnostics) (ps : List PipelineDiagnostics)
    → active raw (p ∷ []) ++ active raw ps ≡ active raw (p ∷ ps)
unfolding active keep
active-cons raw p ps = elim (Bool-cases (is_populated raw p.signal)) [
  | inl e ↦ rw (e) refl
  | inr e ↦ rw (e) refl
]

select_pipeline-IsRunnable :
    (raw : Populated) (used : Map Text Node) (p : PipelineDiagnostics) (t r : Topology)
    → IsRunnable raw t
    → All (λ id. has_key used id ≡ true) p.processors
    → select_pipeline raw used p t ≡ ok r
    → IsRunnable raw r × (r.pipelines ≡ t.pipelines ++ active raw (p ∷ []))
unfolding select_pipeline active keep
select_pipeline-IsRunnable raw used p t r g d h = elim (Bool-cases (is_populated raw p.signal)) [
  | inl e ↦
      (let chain : (select_processors used p.processors t.processors >>= λ selected.
      ok (record { pipelines = t.pipelines ++ p ∷ []; processors = selected }))
            ≡ ok r =
          ground arith in
        let (selected, q, done) =
          bind-ok (select_processors used p.processors t.processors) _ r chain in
        let s = select_processors-Selects used p.processors t.processors selected g.is_inline d q in
        let same : record { pipelines = t.pipelines ++ p ∷ []; processors = selected } ≡ r = cc in
        rw (← same, e) (kept-IsRunnable raw p t selected g e s, refl))
  | inr e ↦ (let same : t ≡ r = ground arith in rw (← same, e) (g, sym (append-nil t.pipelines)))
]

pub select_pipelines-IsRunnable :
    (raw : Populated) (used : Map Text Node) (ps : List PipelineDiagnostics) (t r : Topology)
    → IsRunnable raw t
    → Defines used ps
    → select_pipelines raw used ps t ≡ ok r
    → IsRunnable raw r × (r.pipelines ≡ t.pipelines ++ active raw ps)
unfolding select_pipelines active keep
select_pipelines-IsRunnable raw used [] t r g d h =
    let same : t ≡ r = cc in rw (← same) (g, sym (append-nil t.pipelines))
select_pipelines-IsRunnable raw used (p ∷ ps) t r g d h =
    let (next, e, more) =
      bind-ok (select_pipeline raw used p t) (select_pipelines raw used ps) r h in
    let one = select_pipeline-IsRunnable raw used p t next g d.0 e in
    let rest = select_pipelines-IsRunnable raw used ps next r one.0 d.1 more in
    (
      rest.0,
      rest.1
          ∙ ap (λ l. l ++ active raw ps) one.1
          ∙ append_assoc t.pipelines (active raw (p ∷ [])) (active raw ps)
          ∙ ap (λ l. t.pipelines ++ l) (active-cons raw p ps),
    )
