-- ===== src/Model/Events/Context.antt =====
-- The context of an event, key by key.
use Prim.Native.String.{String}
use text.Mathlib.Text.{◌==◌}
use text.Mathlib.TextEquality.{eq_iff}
use metrika_agent.Prelude.{
  ◌≡◌, refl, sym, ◌∙◌, Option, none, some, Bool, true, false, List, [], ◌∷◌, arith, if◌then◌else◌,
  Option-cases, Bool-cases, inl, inr,
}
use metrika_agent.Prelude.Int.{ℤ}
use metrika_agent.Prelude.Error.{Result, ok, Result-cases}
use metrika_agent.Model.{Val, Fields, Event}
use metrika_agent.Model.Events.{
  field, set_field, keep, filter_keys, new_with_filtered_ctx, new_with_ctx, keys_of,
}

-- Whether a key is among the keys.
abbrev pub has_key : String → List String → Bool
has_key k [] = false
has_key k (j ∷ keys) = if j == k then true else has_key k keys

pub field-set_field :
    (fields : Fields) (key other : String) (val : Val)
    → field (set_field fields key val) other
      ≡ (if other == key then some val else field fields other)
unfolding field set_field
field-set_field [] key other val = refl
field-set_field ((name, old) ∷ rest) key other val = ground (
  arith,
  field-set_field rest key other val,
  eq_iff key name,
  eq_iff other name,
  eq_iff other key,
)

abbrev pub or_else : Option Val → Option Val → Option Val
or_else none other = other
or_else (some v) other = some v

field-keep :
    (ctx : Fields) (key : String) (kept : Fields) (k : String)
    → field (keep ctx key kept) k
      ≡ (if key == k then or_else (field ctx k) (field kept k) else field kept k)
unfolding keep
field-keep ctx key kept k = elim (Option-cases (field ctx key)) [
  | inl missing ↦ ground (arith, eq_iff key k)
  | inr (v, found) ↦ ground (arith, eq_iff key k, eq_iff k key, field-set_field kept key k v)
]

-- The loop, from what has been kept so far.
field-filter_keys :
    (ctx : Fields) (keys : List String) (kept : Fields) (k : String)
    → field (filter_keys ctx keys kept) k
      ≡ (if has_key k keys then or_else (field ctx k) (field kept k) else field kept k)
unfolding filter_keys
field-filter_keys ctx [] kept k = refl
field-filter_keys ctx (key ∷ keys) kept k =
    ground (arith, field-filter_keys ctx keys (keep ctx key kept) k, field-keep ctx key kept k)

has_key-keys_of :
    (ctx : Fields) (k : String) → has_key k (keys_of (some ctx)) ≡ false → field ctx k ≡ none
unfolding keys_of field
has_key-keys_of [] k h = refl
has_key-keys_of ((j, v) ∷ ctx) k h = ground (arith, eq_iff k j, eq_iff j k, has_key-keys_of ctx k)

-- What the event's context is, if `fields` is what the struct was made from.
pub record Projects (ctx : Fields) (keys : List String) (fields : Fields) : Type 0 where
  pub kept : (k : String) → has_key k keys ≡ true → field fields k ≡ field ctx k
  pub left_out : (k : String) → has_key k keys ≡ false → field fields k ≡ none

pub filter_keys-Projects :
    (ctx : Fields) (keys : List String) → Projects ctx keys (filter_keys ctx keys [])
unfolding field
filter_keys-Projects ctx keys = record {
  kept = λ k h. ground (arith, field-filter_keys ctx keys [] k);
  left_out = λ k h. ground (arith, field-filter_keys ctx keys [] k);
}

Projects-all :
    (ctx fields : Fields)
    → Projects ctx (keys_of (some ctx)) fields
    → (k : String) → field fields k ≡ field ctx k
Projects-all ctx fields p k = elim (Bool-cases (has_key k (keys_of (some ctx)))) [
  | inl is_key ↦ p.kept k is_key
  | inr no_key ↦ p.left_out k no_key ∙ sym (has_key-keys_of ctx k no_key)
]

module _ (new_struct : Fields → Result Fields) where
  -- An event that is made from a context and a list of keys has the given name and time, and its
  -- values are the struct of the context's projection to these keys: every key of the list as in
  -- the context, and no other key.
  pub new_with_filtered_ctx-Projects :
      (ctx : Fields) (name : String) (t : ℤ) (keys : List String) (ev : Event)
      → new_with_filtered_ctx new_struct (some ctx) name t keys ≡ ok ev
      → (fields : Fields) × (values : Fields) × Projects ctx keys fields
        × (new_struct fields ≡ ok values)
        × (ev ≡ record { name = name; timestamp = t; values = some values })
  unfolding new_with_filtered_ctx
  new_with_filtered_ctx-Projects ctx name t keys ev e =
      let fields = filter_keys ctx keys [] in
      elim (Result-cases (new_struct fields)) [
        | inl (values, made) ↦ (fields, values, filter_keys-Projects ctx keys, made, ground arith)
        | inr (reason, failed) ↦ absurd (ground arith)
      ]

  -- An event that `NewWithCtx` makes from a context has the given name and time, and its values are
  -- the struct of fields that have every key as the context has it.
  pub new_with_ctx-whole :
      (ctx : Fields) (name : String) (t : ℤ) (ev : Event)
      → new_with_ctx new_struct (some ctx) name t ≡ ok ev
      → (fields : Fields) × (values : Fields) × ((k : String) → field fields k ≡ field ctx k)
        × (new_struct fields ≡ ok values)
        × (ev ≡ record { name = name; timestamp = t; values = some values })
  unfolding new_with_ctx
  new_with_ctx-whole ctx name t ev e =
      let (fields, values, p, made, same) =
        new_with_filtered_ctx-Projects ctx name t (keys_of (some ctx)) ev e in
      (fields, values, Projects-all ctx fields p, made, same)
