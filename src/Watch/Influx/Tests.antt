-- ===== src/Watch/Influx/Tests.antt =====
-- Three samples of two identifiers, and names that are not valid.
use Prim.Native.String.{String}
use Prim.Native.String.{◌++◌ as ◌<>◌}
use metrika_agent.Prelude.{ℕ, ◌≡◌, refl, some, List, [], ◌∷◌}
use metrika_agent.Prelude.Int.{pos}
use metrika_agent.Prelude.Outcome.{done, panic, Yields}
use metrika_agent.Watch.Influx.{
  Sample, Point, float, other, sample_at, replace_invalid_chars, replace_each, is_valid, is_digit,
  sample_id, sort_labels, join, labels_of, sample_of, field_samples, parse_points_to_samples,
}
use metrika_agent.Watch.Influx.Latest.{on_samples, latest, on_samples-latest}
use metrika_agent.Watch.Influx.Names.{IsName, replace_invalid_chars-IsName, sample_id_collides}

abbrev sample : String → ℕ → Sample ℕ
sample id n = record { id = id; name = id; labels = []; value = n; timestamp = pos n }

abbrev three : List (Sample ℕ)
three = sample "cpu" 4 ∷ sample "mem" 9 ∷ sample "cpu" 2 ∷ []

on_samples-latest_example :
    sample_at "cpu" (on_samples three (("cpu", sample "cpu" 3) ∷ []))
    ≡ latest "cpu" (some (sample "cpu" 3)) three
on_samples-latest_example = on_samples-latest "cpu" three (("cpu", sample "cpu" 3) ∷ [])

newest : latest "cpu" (some (sample "cpu" 3)) three ≡ some (sample "cpu" 4)
newest = refl

replace_invalid_chars-IsName_example : Yields IsName (replace_invalid_chars "9-lives")
replace_invalid_chars-IsName_example = replace_invalid_chars-IsName "9-lives" refl

replaced : replace_invalid_chars "9-lives" ≡ done "_9_lives"
unfolding replace_invalid_chars replace_each is_valid is_digit
replaced = refl

nothing : replace_invalid_chars "" ≡ panic
unfolding replace_invalid_chars replace_each
nothing = refl

sample_id_collides_example :
    sample_id "cpu" (("host", "a" <> ("." <> ("zone" <> ("." <> "b")))) ∷ [])
    ≡ sample_id "cpu" (("host", "a") ∷ ("zone", "b") ∷ [])
sample_id_collides_example = sample_id_collides "cpu" "host" "zone" "a" "b" refl

abbrev point : Point ℕ
point = record {
  name = "cpu";
  fields = some (("idle", float 7) ∷ ("note", other) ∷ []);
  tags = ("__name__", "x") ∷ ("host", "a") ∷ [];
  time = pos 5;
}

parsed :
    parse_points_to_samples {V = ℕ} (λ n. 0) (point ∷ [])
    ≡ done (
        record {
          id = "cpu_idle.host.a";
          name = "cpu_idle";
          labels = ("host", "a") ∷ [];
          value = 7;
          timestamp = pos 5;
        }
        ∷ [])
unfolding parse_points_to_samples field_samples sample_of labels_of replace_invalid_chars
    replace_each is_valid is_digit sample_id sort_labels join
parsed = refl
