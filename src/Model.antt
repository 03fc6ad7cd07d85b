-- ===== src/Model.antt =====
-- api/v1/model: the messages that the agent sends (the generated types, by the fields that the
-- agent's own code reads).
pub mod Events
use Prim.Native.String.{String}
use metrika_agent.Prelude.{Option, List}
use metrika_agent.Prelude.Int.{ℤ}

-- The Go values that stand in an event's context.
pub data Val : Type 0 where
  text : String → Val
  number : ℤ → Val
  opaque : Val

-- A `map[string]interface{}`, and the fields of a `structpb.Struct`.
abbrev pub Fields : Type 0
Fields = List (String × Val)

pub record Event : Type 0 where
  pub name : String
  pub timestamp : ℤ
  pub values : Option Fields

-- The `oneof` of a message. Of a metric family only its name is read by the modelled code.
pub data Body : Type 0 where
  event : Event → Body
  metric_family : String → Body

pub record Message : Type 0 where
  pub name : String
  pub value : Body
