-- ===== src/Telemetry/Otlp/Appending.antt =====
-- Loops that append records to a set.
use mathlib.Core.List.{append_assoc, append-nil}
use otel_policy_lab.Prelude.{◌≡◌, sym, ap, ◌∙◌, List, [], ◌∷◌, ◌++◌, map, text_Eq, concat_map}
use otel_policy_lab.Telemetry.{LogRecord, Span, Metric, Set}

-- A loop that appends to a set the elements that each step yields.
module _ {X R : Type 0} (more : List R → Set → Set) (more_nil : (set : Set) → more [] set ≡ set)
    (more_append : (l k : List R) (set : Set) → more k (more l set) ≡ more (l ++ k) set)
    (step : X → Set → Set) (loop : List X → Set → Set) (loop_nil : (set : Set) → loop [] set ≡ set)
    (loop_cons : (x : X) (xs : List X) (set : Set) → loop (x ∷ xs) set ≡ loop xs (step x set)) where
  pub loop-concat_map :
      (f : X → List R)
      → ((x : X) (set : Set) → step x set ≡ more (f x) set)
      → (xs : List X) (set : Set) → loop xs set ≡ more (concat_map f xs) set
  unfolding concat_map
  loop-concat_map f h [] set = loop_nil set ∙ sym (more_nil set)
  loop-concat_map f h (x ∷ xs) set =
      loop_cons x xs set
      ∙ ap (loop xs) (h x set)
      ∙ loop-concat_map f h xs (more (f x) set)
      ∙ more_append (f x) (concat_map f xs) set

  pub loop-map :
      (f : X → R)
      → ((x : X) (set : Set) → step x set ≡ more (f x ∷ []) set)
      → (xs : List X) (set : Set) → loop xs set ≡ more (map f xs) set
  loop-map f h [] set = loop_nil set ∙ sym (more_nil set)
  loop-map f h (x ∷ xs) set =
      loop_cons x xs set
      ∙ ap (loop xs) (h x set)
      ∙ loop-map f h xs (more (f x ∷ []) set)
      ∙ more_append (f x ∷ []) (map f xs) set

-- The three accumulating updates of a set.
unfoldable pub more_logs : List LogRecord → Set → Set
more_logs l set = record set { logs = set.logs ++ l }

pub more_logs-nil : (set : Set) → more_logs [] set ≡ set
unfolding more_logs
more_logs-nil set = ap (λ l. record set { logs = l }) (append-nil set.logs)

pub more_logs-append :
    (l k : List LogRecord) (set : Set) → more_logs k (more_logs l set) ≡ more_logs (l ++ k) set
unfolding more_logs
more_logs-append l k set = ap (λ r. record set { logs = r }) (append_assoc set.logs l k)

unfoldable pub more_spans : List Span → Set → Set
more_spans l set = record set { spans = set.spans ++ l }

pub more_spans-nil : (set : Set) → more_spans [] set ≡ set
unfolding more_spans
more_spans-nil set = ap (λ l. record set { spans = l }) (append-nil set.spans)

pub more_spans-append :
    (l k : List Span) (set : Set) → more_spans k (more_spans l set) ≡ more_spans (l ++ k) set
unfolding more_spans
more_spans-append l k set = ap (λ r. record set { spans = r }) (append_assoc set.spans l k)

unfoldable pub more_metrics : List Metric → Set → Set
more_metrics l set = record set { metrics = set.metrics ++ l }

pub more_metrics-nil : (set : Set) → more_metrics [] set ≡ set
unfolding more_metrics
more_metrics-nil set = ap (λ l. record set { metrics = l }) (append-nil set.metrics)

pub more_metrics-append :
    (l k : List Metric) (set : Set)
    → more_metrics k (more_metrics l set) ≡ more_metrics (l ++ k) set
unfolding more_metrics
more_metrics-append l k set = ap (λ r. record set { metrics = r }) (append_assoc set.metrics l k)
