-- ===== src/Watch/Families.antt =====
-- internal/pkg/watch/utils.go: `dtoToOpenMetrics`, from the metric families of the prometheus client
-- to those of the agent. A float64 is its bit pattern, which is only copied. Of the generated types
-- the model has the fields that the conversion reads; their getters return zero values on nil
-- pointers, and the pointers that the conversion tests are options.
pub mod Converted
mod Tests
use Prim.Native.String.{String}
use metrika_agent.Prelude.{ℕ, Option, none, some, List, [], ◌∷◌}
use metrika_agent.Prelude.Int.{ℤ}
use metrika_agent.Prelude.Outcome.{Outcome, done, panic, ◌>>=◌}
use metrika_agent.Prelude.Error.{Error, Result, ok, err, failure}

pub data MetricType : Type 0 where
  counter gauge summary untyped histogram : MetricType

pub record Label : Type 0 where
  pub name : String
  pub value : String

pub record DtoExemplar : Type 0 where
  pub label : List Label
  pub value : ℕ
  pub timestamp : Option ℤ

pub record DtoCounter : Type 0 where
  pub value : ℕ
  pub exemplar : Option DtoExemplar

pub record DtoBucket : Type 0 where
  pub cumulative_count : ℕ
  pub upper_bound : ℕ
  pub exemplar : Option DtoExemplar

pub record DtoHistogram : Type 0 where
  pub sample_count : ℕ
  pub sample_sum : ℕ
  pub bucket : List DtoBucket

pub record Quantile : Type 0 where
  pub quantile : ℕ
  pub value : ℕ

pub record DtoSummary : Type 0 where
  pub sample_count : ℕ
  pub sample_sum : ℕ
  pub quantile : List Quantile

pub record DtoMetric : Type 0 where
  pub label : List Label
  pub gauge : Option ℕ
  pub counter : Option DtoCounter
  pub summary : Option DtoSummary
  pub histogram : Option DtoHistogram
  pub timestamp_ms : ℤ

pub record DtoFamily : Type 0 where
  pub name : String
  pub help : String
  pub type_of : MetricType
  pub metric : List DtoMetric

pub record Exemplar : Type 0 where
  pub label : List Label
  pub value : ℕ
  pub timestamp : Option ℤ

pub record Bucket : Type 0 where
  pub count : ℕ
  pub upper_bound : ℕ
  pub exemplar : Option Exemplar

-- The `oneof` of a metric point.
pub data PointValue : Type 0 where
  no_value : PointValue
  gauge_value : ℕ → PointValue
  counter_value : ℕ → Option Exemplar → PointValue
  histogram_value : ℕ → ℕ → List Bucket → PointValue
  summary_value : ℕ → ℕ → List Quantile → PointValue

-- A metric has one point; its time is in milliseconds.
pub record Metric : Type 0 where
  pub labels : List Label
  pub timestamp : ℤ
  pub value : PointValue

pub record MetricFamily : Type 0 where
  pub name : String
  pub help : String
  pub type_of : MetricType
  pub metrics : List Metric

-- The loop over the labels of an exemplar writes to the entries of a slice of nil pointers.
unfoldable pub fill_labels : List Label → Outcome (List Label)
fill_labels [] = done []
fill_labels (l ∷ ls) = panic

unfoldable pub exemplar_of : Option DtoExemplar → Outcome (Option Exemplar)
exemplar_of none = done none
exemplar_of (some x) = do
  labels ← fill_labels x.label
  done (some (record { label = labels; value = x.value; timestamp = x.timestamp }))

unfoldable pub buckets_of : List DtoBucket → Outcome (List Bucket)
buckets_of [] = done []
buckets_of (b ∷ bs) = do
  x ← exemplar_of b.exemplar
  rest ← buckets_of bs
  done (record { count = b.cumulative_count; upper_bound = b.upper_bound; exemplar = x } ∷ rest)

-- The four cases of the `switch`, for what the pointer to the value points to.
unfoldable pub of_gauge : Option ℕ → Outcome (Result PointValue)
of_gauge none = done (err (failure "expected gauge to not be nil"))
of_gauge (some v) = done (ok (PointValue.gauge_value v))

unfoldable pub of_counter : Option DtoCounter → Outcome (Result PointValue)
of_counter none = done (err (failure "expected counter to not be nil"))
of_counter (some c) = do x ← exemplar_of c.exemplar; done (ok (PointValue.counter_value c.value x))

unfoldable pub of_histogram : Option DtoHistogram → Outcome (Result PointValue)
of_histogram none = done (err (failure "expected histogram to not be nil"))
of_histogram (some h) = do
  buckets ← buckets_of h.bucket
  done (ok (PointValue.histogram_value h.sample_sum h.sample_count buckets))

unfoldable pub of_summary : Option DtoSummary → Outcome (Result PointValue)
of_summary none = done (err (failure "expected summary to not be nil"))
of_summary (some s) = done (ok (PointValue.summary_value s.sample_sum s.sample_count s.quantile))

-- A type without a case leaves the point without a value.
unfoldable pub value_of : MetricType → DtoMetric → Outcome (Result PointValue)
value_of MetricType.gauge d = of_gauge d.gauge
value_of MetricType.counter d = of_counter d.counter
value_of MetricType.histogram d = of_histogram d.histogram
value_of MetricType.summary d = of_summary d.summary
value_of MetricType.untyped d = done (ok PointValue.no_value)

-- The loop over the metrics, which returns at the first error.
unfoldable pub metrics_of : MetricType → List DtoMetric → Outcome (Result (List Metric))
metrics_of t [] = done (ok [])
metrics_of t (d ∷ ds) =
    let rest = metrics_of t ds in
    value_of t d >>= λ r. elim r [
      | err e ↦ done (err e)
      | ok v ↦ rest >>= λ s. elim s [
        | err e ↦ done (err e)
        | ok ms ↦
            done (ok (record { labels = d.label; timestamp = d.timestamp_ms; value = v } ∷ ms))
      ]
    ]

-- The type is set in the loop: of a family without metrics it stays unknown, which is also what an
-- untyped family becomes.
abbrev pub type_after : MetricType → List DtoMetric → MetricType
type_after t [] = MetricType.untyped
type_after t (d ∷ ds) = t

unfoldable pub dto_to_open_metrics : DtoFamily → Outcome (Result MetricFamily)
dto_to_open_metrics f = metrics_of f.type_of f.metric >>= λ r. elim r [
  | err e ↦ done (err e)
  | ok ms ↦ done (
      ok (record {
        name = f.name;
        help = f.help;
        type_of = type_after f.type_of f.metric;
        metrics = ms;
      }))
]
