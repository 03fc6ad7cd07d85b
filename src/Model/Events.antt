-- ===== src/Model/Events.antt =====
-- api/v1/model/event.go: events made from a name, a time and a context.
-- A Go map is an association list in some order of iteration; a nil map is `none`.
-- `structpb.NewStruct` is not part of the repository: it is the parameter `new_struct`.
pub mod Context
mod Tests
use Prim.Native.String.{String}
use text.Mathlib.Text.{◌==◌}
use metrika_agent.Prelude.{Option, none, some, List, [], ◌∷◌, map, if◌then◌else◌}
use metrika_agent.Prelude.Int.{ℤ}
use metrika_agent.Prelude.Error.{Result, ok, err}
use metrika_agent.Model.{Val, Fields, Event}

unfoldable pub field : Fields → String → Option Val
field [] key = none
field ((name, val) ∷ others) key = if key == name then some val else field others key

-- `m[key] = val`
unfoldable pub set_field : Fields → String → Val → Fields
set_field [] key val = (key, val) ∷ []
set_field ((name, old) ∷ others) key val =
    if key == name then (name, val) ∷ others else (name, old) ∷ set_field others key val

-- One round of the loop over the keys.
unfoldable pub keep : Fields → String → Fields → Fields
keep ctx key filtered = elim (field ctx key) [ none ↦ filtered | some v ↦ set_field filtered key v ]

unfoldable pub filter_keys : Fields → List String → Fields → Fields
filter_keys ctx [] filtered = filtered
filter_keys ctx (key ∷ keys) filtered = filter_keys ctx keys (keep ctx key filtered)

-- The loop that collects the keys; a nil map has none.
unfoldable pub keys_of : Option Fields → List String
keys_of none = []
keys_of (some ctx) = map (λ f. f.0) ctx

module _ (new_struct : Fields → Result Fields) where
  -- `t` is the event's time in milliseconds.
  unfoldable pub new_with_filtered_ctx : Option Fields → String → ℤ → List String → Result Event
  new_with_filtered_ctx none name t keys = ok (record { name = name; timestamp = t; values = none })
  new_with_filtered_ctx (some ctx) name t keys = elim (new_struct (filter_keys ctx keys [])) [
    | err e ↦ err e
    | ok values ↦ ok (record { name = name; timestamp = t; values = some values })
  ]

  unfoldable pub new_with_ctx : Option Fields → String → ℤ → Result Event
  new_with_ctx ctx name t = new_with_filtered_ctx ctx name t (keys_of ctx)

  unfoldable pub new : String → ℤ → Result Event
  new name t = new_with_filtered_ctx none name t []
