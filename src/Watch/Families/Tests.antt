-- ===== src/Watch/Families/Tests.antt =====
-- A gauge family, and a counter family with an exemplar that has a label.
use metrika_agent.Prelude.{◌≡◌, refl, none, some, [], ◌∷◌}
use metrika_agent.Prelude.Int.{pos}
use metrika_agent.Prelude.Outcome.{done, panic}
use metrika_agent.Prelude.Error.{ok}
use metrika_agent.Watch.Families.{
  MetricType, Label, DtoMetric, DtoFamily, PointValue, dto_to_open_metrics, metrics_of, value_of,
  of_gauge, of_counter, exemplar_of, fill_labels,
}
use metrika_agent.Watch.Families.Converted.{Converted, dto_to_open_metrics-Converted}

abbrev host : Label
host = record { name = "host"; value = "a" }

abbrev bare : DtoMetric
bare = record {
  label = host ∷ [];
  gauge = some 4;
  counter = none;
  summary = none;
  histogram = none;
  timestamp_ms = pos 9;
}

abbrev traced : DtoMetric
traced = record bare {
  counter = some (record {
    value = 1;
    exemplar = some (record { label = host ∷ []; value = 1; timestamp = none });
  });
}

abbrev family : MetricType → DtoMetric → DtoFamily
family t d = record { name = "up"; help = "whether it runs"; type_of = t; metric = d ∷ [] }

gauge_converts :
    dto_to_open_metrics (family MetricType.gauge bare)
    ≡ done (
        ok (record {
          name = "up";
          help = "whether it runs";
          type_of = MetricType.gauge;
          metrics =
              record { labels = host ∷ []; timestamp = pos 9; value = PointValue.gauge_value 4 }
              ∷ [];
        }))
unfolding dto_to_open_metrics metrics_of value_of of_gauge
gauge_converts = refl

-- An exemplar with a label makes the conversion panic.
exemplar_panics : dto_to_open_metrics (family MetricType.counter traced) ≡ panic
unfolding dto_to_open_metrics metrics_of value_of of_counter exemplar_of fill_labels
exemplar_panics = refl

dto_to_open_metrics-Converted_example :
    Converted
      (family MetricType.counter traced)
      (dto_to_open_metrics (family MetricType.counter traced))
dto_to_open_metrics-Converted_example =
    dto_to_open_metrics-Converted (family MetricType.counter traced)
