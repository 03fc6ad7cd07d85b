-- ===== src/Watch/Families/Converted.antt =====
-- How the conversion of a metric family ends.
use metrika_agent.Prelude.{
  ℕ, ◌≡◌, refl, ap, Bool, true, false, ◌&&◌, ◌||◌, Option, none, some, List, [], ◌∷◌, map, arith,
}
use metrika_agent.Prelude.Outcome.{Outcome, done, panic, ◌>>=◌}
use metrika_agent.Prelude.Error.{Error, Result, ok, err}
use metrika_agent.Watch.Families.{
  MetricType, Label, DtoExemplar, DtoBucket, DtoCounter, DtoHistogram, DtoSummary, DtoMetric,
  DtoFamily, Exemplar, Bucket, PointValue, Metric, MetricFamily, fill_labels, exemplar_of,
  buckets_of, of_gauge, of_counter, of_histogram, of_summary, value_of, metrics_of, type_after,
  dto_to_open_metrics,
}

abbrev is_some {ℓ} : {A : Type ℓ} → Option A → Bool
is_some none = false
is_some (some a) = true

-- Whether a metric has the value that the type of its family asks for.
abbrev pub has_value : MetricType → DtoMetric → Bool
has_value MetricType.gauge d = is_some d.gauge
has_value MetricType.counter d = is_some d.counter
has_value MetricType.histogram d = is_some d.histogram
has_value MetricType.summary d = is_some d.summary
has_value MetricType.untyped d = true

abbrev pub all_have : MetricType → List DtoMetric → Bool
all_have t [] = true
all_have t (d ∷ ds) = has_value t d && all_have t ds

abbrev non_empty : List Label → Bool
non_empty [] = false
non_empty (l ∷ ls) = true

abbrev has_labels : Option DtoExemplar → Bool
has_labels none = false
has_labels (some x) = non_empty x.label

abbrev any_bucket : List DtoBucket → Bool
any_bucket [] = false
any_bucket (b ∷ bs) = has_labels b.exemplar || any_bucket bs

abbrev of_the_counter : Option DtoCounter → Bool
of_the_counter none = false
of_the_counter (some c) = has_labels c.exemplar

abbrev of_the_histogram : Option DtoHistogram → Bool
of_the_histogram none = false
of_the_histogram (some h) = any_bucket h.bucket

-- Whether an exemplar of the value has a label.
abbrev pub labelled : MetricType → DtoMetric → Bool
labelled MetricType.gauge d = false
labelled MetricType.counter d = of_the_counter d.counter
labelled MetricType.histogram d = of_the_histogram d.histogram
labelled MetricType.summary d = false
labelled MetricType.untyped d = false

abbrev pub any_labelled : MetricType → List DtoMetric → Bool
any_labelled t [] = false
any_labelled t (d ∷ ds) = labelled t d || any_labelled t ds

-- What the parts of a metric are copied to.
abbrev copy_exemplar : Option DtoExemplar → Option Exemplar
copy_exemplar none = none
copy_exemplar (some x) = some (record { label = x.label; value = x.value; timestamp = x.timestamp })

abbrev copy_bucket : DtoBucket → Bucket
copy_bucket b = record {
  count = b.cumulative_count;
  upper_bound = b.upper_bound;
  exemplar = copy_exemplar b.exemplar;
}

abbrev copy_gauge : Option ℕ → PointValue
copy_gauge none = PointValue.no_value
copy_gauge (some v) = PointValue.gauge_value v

abbrev copy_counter : Option DtoCounter → PointValue
copy_counter none = PointValue.no_value
copy_counter (some c) = PointValue.counter_value c.value (copy_exemplar c.exemplar)

abbrev copy_histogram : Option DtoHistogram → PointValue
copy_histogram none = PointValue.no_value
copy_histogram (some h) =
    PointValue.histogram_value h.sample_sum h.sample_count (map copy_bucket h.bucket)

abbrev copy_summary : Option DtoSummary → PointValue
copy_summary none = PointValue.no_value
copy_summary (some s) = PointValue.summary_value s.sample_sum s.sample_count s.quantile

-- The value that the type asks for, copied.
abbrev pub copy_value : MetricType → DtoMetric → PointValue
copy_value MetricType.gauge d = copy_gauge d.gauge
copy_value MetricType.counter d = copy_counter d.counter
copy_value MetricType.histogram d = copy_histogram d.histogram
copy_value MetricType.summary d = copy_summary d.summary
copy_value MetricType.untyped d = PointValue.no_value

abbrev pub copy_metric : MetricType → DtoMetric → Metric
copy_metric t d = record { labels = d.label; timestamp = d.timestamp_ms; value = copy_value t d }

-- Either the call returns `a` and the test is false, or it panics and the test is true.
data Settled {A : Type 0} (a : A) : Bool → Outcome A → Type 0 where
  returns : Settled a false (done a)
  panics : Settled a true panic

Settled-map :
    {A B : Type 0} {a : A} {b : Bool} {m : Outcome A} (f : A → B)
    → Settled a b m
    → Settled (f a) b (m >>= λ a. done (f a))
Settled-map f returns = returns
Settled-map f panics = panics

Settled-or :
    {A B : Type 0} {a : A} {r : B} {b c : Bool} {m : Outcome A} (k : A → Outcome B)
    → Settled a b m
    → Settled r c (k a)
    → Settled r (b || c) (m >>= k)
Settled-or k returns next = next
Settled-or k panics next = panics

fill_labels-Settled : (ls : List Label) → Settled ls (non_empty ls) (fill_labels ls)
unfolding fill_labels
fill_labels-Settled [] = returns
fill_labels-Settled (l ∷ ls) = panics

exemplar-Settled :
    (x : Option DtoExemplar) → Settled (copy_exemplar x) (has_labels x) (exemplar_of x)
unfolding exemplar_of
exemplar-Settled none = returns
exemplar-Settled (some x) = Settled-map _ (fill_labels-Settled x.label)

buckets-Settled :
    (bs : List DtoBucket) → Settled (map copy_bucket bs) (any_bucket bs) (buckets_of bs)
unfolding buckets_of
buckets-Settled [] = returns
buckets-Settled (b ∷ bs) =
    Settled-or _ (exemplar-Settled b.exemplar) (Settled-map _ (buckets-Settled bs))

-- How the conversion of one value ends, by whether it is there and whether it has labels.
data Valued (v : PointValue) (has lab : Bool) : Outcome (Result PointValue) → Type 0 where
  valued : has ≡ true → lab ≡ false → Valued v has lab (done (ok v))
  absent : {e : Error} → has ≡ false → Valued v has lab (done (err e))
  crashed : has ≡ true → lab ≡ true → Valued v has lab panic

of_Settled :
    {A : Type 0} {a : A} {b : Bool} {m : Outcome A} (f : A → PointValue)
    → Settled a b m
    → Valued (f a) true b (m >>= λ a. done (ok (f a)))
of_Settled f returns = valued refl refl
of_Settled f panics = crashed refl refl

gauge-Valued : (g : Option ℕ) → Valued (copy_gauge g) (is_some g) false (of_gauge g)
unfolding of_gauge
gauge-Valued none = absent refl
gauge-Valued (some v) = valued refl refl

counter-Valued :
    (c : Option DtoCounter) → Valued (copy_counter c) (is_some c) (of_the_counter c) (of_counter c)
unfolding of_counter
counter-Valued none = absent refl
counter-Valued (some c) =
    of_Settled (PointValue.counter_value c.value) (exemplar-Settled c.exemplar)

histogram-Valued :
    (h : Option DtoHistogram)
    → Valued (copy_histogram h) (is_some h) (of_the_histogram h) (of_histogram h)
unfolding of_histogram
histogram-Valued none = absent refl
histogram-Valued (some h) =
    of_Settled (PointValue.histogram_value h.sample_sum h.sample_count) (buckets-Settled h.bucket)

summary-Valued : (s : Option DtoSummary) → Valued (copy_summary s) (is_some s) false (of_summary s)
unfolding of_summary
summary-Valued none = absent refl
summary-Valued (some s) = valued refl refl

value_of-Valued :
    (t : MetricType) (d : DtoMetric)
    → Valued (copy_value t d) (has_value t d) (labelled t d) (value_of t d)
unfolding value_of
value_of-Valued MetricType.gauge d = gauge-Valued d.gauge
value_of-Valued MetricType.counter d = counter-Valued d.counter
value_of-Valued MetricType.histogram d = histogram-Valued d.histogram
value_of-Valued MetricType.summary d = summary-Valued d.summary
value_of-Valued MetricType.untyped d = valued refl refl

data Looped (t : MetricType) (ds : List DtoMetric) : Outcome (Result (List Metric)) → Type 0 where
  all_done :
      {ms : List Metric}
      → all_have t ds ≡ true
      → any_labelled t ds ≡ false
      → ms ≡ map (copy_metric t) ds
      → Looped t ds (done (ok ms))
  one_absent : {e : Error} → all_have t ds ≡ false → Looped t ds (done (err e))
  one_crashed : any_labelled t ds ≡ true → Looped t ds panic

-- One metric in front of the others.
step-Looped :
    (t : MetricType) (d : DtoMetric) (ds : List DtoMetric) (m : Outcome (Result (List Metric)))
    → has_value t d ≡ true
    → labelled t d ≡ false
    → Looped t ds m
    → Looped t
        (d ∷ ds)
        (m >>= λ s. elim s [ err e ↦ done (err e) | ok ms ↦ done (ok (copy_metric t d ∷ ms)) ])
step-Looped t d ds m h l (all_done all none_labelled same) =
    all_done (ground arith) (ground arith) (ap (◌∷◌ (copy_metric t d)) same)
step-Looped t d ds m h l (one_absent missing) = one_absent (ground arith)
step-Looped t d ds m h l (one_crashed found) = one_crashed (ground arith)

after_value :
    (t : MetricType) (d : DtoMetric) (ds : List DtoMetric) (m : Outcome (Result PointValue))
    → Looped t ds (metrics_of t ds)
    → Valued (copy_value t d) (has_value t d) (labelled t d) m
    → Looped t (d ∷ ds) (
        m >>= λ r. elim r [
          | err e ↦ done (err e)
          | ok v ↦ metrics_of t ds >>= λ s. elim s [
            | err e ↦ done (err e)
            | ok ms ↦
                done (ok (record { labels = d.label; timestamp = d.timestamp_ms; value = v } ∷ ms))
          ]
        ])
after_value t d ds m rest (valued h l) = step-Looped t d ds (metrics_of t ds) h l rest
after_value t d ds m rest (absent h) = one_absent (ground arith)
after_value t d ds m rest (crashed h l) = one_crashed (ground arith)

metrics_of-Looped : (t : MetricType) (ds : List DtoMetric) → Looped t ds (metrics_of t ds)
unfolding metrics_of
metrics_of-Looped t [] = all_done refl refl refl
metrics_of-Looped t (d ∷ ds) =
    after_value t d ds (value_of t d) (metrics_of-Looped t ds) (value_of-Valued t d)

-- How the conversion of a family ends.
pub data Converted (f : DtoFamily) : Outcome (Result MetricFamily) → Type 0 where
  converted :
      {out : MetricFamily}
      → all_have f.type_of f.metric ≡ true
      → any_labelled f.type_of f.metric ≡ false
      → (out.name ≡ f.name) × (out.help ≡ f.help) × (out.type_of ≡ type_after f.type_of f.metric)
      → out.metrics ≡ map (copy_metric f.type_of) f.metric
      → Converted f (done (ok out))
  missing : {e : Error} → all_have f.type_of f.metric ≡ false → Converted f (done (err e))
  crash : any_labelled f.type_of f.metric ≡ true → Converted f panic

of_Looped :
    (f : DtoFamily) (m : Outcome (Result (List Metric)))
    → Looped f.type_of f.metric m
    → Converted f (
        m >>= λ r. elim r [
          | err e ↦ done (err e)
          | ok ms ↦ done (
              ok (record {
                name = f.name;
                help = f.help;
                type_of = type_after f.type_of f.metric;
                metrics = ms;
              }))
        ])
of_Looped f m (all_done all none_labelled same) =
    converted all none_labelled (refl, refl, refl) same
of_Looped f m (one_absent absent_one) = missing absent_one
of_Looped f m (one_crashed found) = crash found

-- The conversion of a metric family returns a family with its name and help, with its type unless
-- it has no metrics, and, in order, with the labels and the time of each metric and the value that
-- the type asks for, copied with its buckets, quantiles and exemplars, and then every metric has
-- that value and no exemplar has a label; or it returns an error, and then a metric lacks that
-- value; or it panics, and then an exemplar has a label.
pub dto_to_open_metrics-Converted : (f : DtoFamily) → Converted f (dto_to_open_metrics f)
unfolding dto_to_open_metrics
dto_to_open_metrics-Converted f =
    of_Looped f (metrics_of f.type_of f.metric) (metrics_of-Looped f.type_of f.metric)
