-- ===== src/Flow/Events.antt =====
-- flow/event.go: the events that are made from a line of the node's log. A line is the map that
-- its JSON text stands for.
pub mod Told
mod Tests
use Prim.Native.String.{String}
use text.Mathlib.Text.{◌==◌}
use metrika_agent.Prelude.{Bool, true, false, Option, none, some, List, [], ◌∷◌, if◌then◌else◌}
use metrika_agent.Prelude.Int.{ℤ}
use metrika_agent.Prelude.Error.{Result, ok, err}
use metrika_agent.Model.{Val, Fields, Event}
use metrika_agent.Model.Events.{field, new_with_filtered_ctx}

abbrev pub on_finalized_block_name : String
on_finalized_block_name = "OnFinalizedBlock"

abbrev pub on_proposing_block_name : String
on_proposing_block_name = "OnProposingBlock"

abbrev pub on_own_proposal_name : String
on_own_proposal_name = "OnOwnProposal"

abbrev pub on_receive_proposal_name : String
on_receive_proposal_name = "OnReceiveProposal"

abbrev pub on_voting_name : String
on_voting_name = "OnVoting"

abbrev pub on_own_vote_name : String
on_own_vote_name = "OnOwnVote"

abbrev pub on_block_vote_received_fwd_name : String
on_block_vote_received_fwd_name =
    "block vote received, forwarding block vote to hotstuff vote aggregator"

abbrev pub on_block_vote_received_name : String
on_block_vote_received_name = "BlockVoteReceived"

abbrev pub on_finalized_block_keys : List String
on_finalized_block_keys =
    "level" ∷ "node_role" ∷ "node_id" ∷ "hotstuff" ∷ "chain" ∷ "path_id" ∷ "view" ∷ "block_id"
    ∷ "time" ∷ "message" ∷ []

abbrev pub on_proposing_block_keys : List String
on_proposing_block_keys =
    "level" ∷ "node_role" ∷ "node_id" ∷ "hotstuff" ∷ "chain" ∷ "path_id" ∷ "view" ∷ "block_view"
    ∷ "block_id" ∷ "block_proposer_id" ∷ "block_time" ∷ "qc_block_view" ∷ "qc_block_id" ∷ "time"
    ∷ "message" ∷ []

abbrev pub on_own_proposal_keys : List String
on_own_proposal_keys =
    "level" ∷ "node_role" ∷ "node_id" ∷ "hotstuff" ∷ "chain" ∷ "path_id" ∷ "view" ∷ "block_view"
    ∷ "block_id" ∷ "block_proposer_id" ∷ "block_time" ∷ "qc_view" ∷ "qc_block_id" ∷ "time"
    ∷ "message" ∷ []

abbrev pub on_receive_proposal_keys : List String
on_receive_proposal_keys =
    "level" ∷ "node_role" ∷ "node_id" ∷ "hotstuff" ∷ "chain" ∷ "path_id" ∷ "view" ∷ "block_view"
    ∷ "block_id" ∷ "block_proposer_id" ∷ "block_time" ∷ "qc_block_view" ∷ "qc_block_id" ∷ "time"
    ∷ "message" ∷ "qc_view" ∷ []

abbrev pub on_voting_keys : List String
on_voting_keys =
    "level" ∷ "node_role" ∷ "node_id" ∷ "hotstuff" ∷ "chain" ∷ "path_id" ∷ "view"
    ∷ "voted_block_view" ∷ "voted_block_id" ∷ "voter_id" ∷ "time" ∷ "message" ∷ []

abbrev pub on_own_vote_keys : List String
on_own_vote_keys =
    "level" ∷ "node_role" ∷ "node_id" ∷ "hotstuff" ∷ "chain" ∷ "path_id" ∷ "view"
    ∷ "voted_block_view" ∷ "voted_block_id" ∷ "time" ∷ "message" ∷ []

abbrev pub on_block_vote_received_fwd_keys : List String
on_block_vote_received_fwd_keys =
    "level" ∷ "node_role" ∷ "node_id" ∷ "compliance" ∷ "block_view" ∷ "block_id" ∷ "vote_id"
    ∷ "voter" ∷ "time" ∷ "message" ∷ []

-- A value of any type, compared with a text.
abbrev pub is_text : String → Option Val → Bool
is_text name (some (Val.text s)) = s == name
is_text name _ = false

-- The test that the seven kinds share: `val, ok := v["message"]; ok && val == name`.
unfoldable pub message_is : String → Fields → Bool
message_is name v = is_text name (field v "message")

-- A nil event is `none`.
abbrev pub FromContext : Type 0
FromContext = Fields → ℤ → Result (Option Event)

abbrev pub as_event : Result Event → Result (Option Event)
as_event (err e) = err e
as_event (ok ev) = ok (some ev)

-- The types that implement the interface: the values of the map.
pub data Kind : Type 0 where
  on_finalized_block_kind on_proposing_block_kind on_own_proposal_kind on_receive_proposal_kind :
      Kind
  on_voting_kind on_own_vote_kind on_block_vote_received_fwd_kind : Kind

abbrev pub all_kinds : List Kind
all_kinds =
    on_finalized_block_kind ∷ on_proposing_block_kind ∷ on_own_proposal_kind
    ∷ on_receive_proposal_kind ∷ on_voting_kind ∷ on_own_vote_kind ∷ on_block_vote_received_fwd_kind
    ∷ []

-- The keys of the map.
abbrev pub log_name : Kind → String
log_name on_finalized_block_kind = on_finalized_block_name
log_name on_proposing_block_kind = on_proposing_block_name
log_name on_own_proposal_kind = on_own_proposal_name
log_name on_receive_proposal_kind = on_receive_proposal_name
log_name on_voting_kind = on_voting_name
log_name on_own_vote_kind = on_own_vote_name
log_name on_block_vote_received_fwd_kind = on_block_vote_received_fwd_name

module _ (new_struct : Fields → Result Fields) where
  -- The call of `NewWithFilteredCtx`, and the test on its error.
  abbrev pub make : Fields → String → ℤ → List String → Result (Option Event)
  make v name t keys = as_event (new_with_filtered_ctx new_struct (some v) name t keys)

  pub on_finalized_block : FromContext
  on_finalized_block v t =
      if message_is on_finalized_block_name v
      then make v on_finalized_block_name t on_finalized_block_keys
      else ok none

  pub on_proposing_block : FromContext
  on_proposing_block v t =
      if message_is on_proposing_block_name v
      then make v on_proposing_block_name t on_proposing_block_keys
      else ok none

  pub on_receive_proposal : FromContext
  on_receive_proposal v t =
      if message_is on_receive_proposal_name v
      then make v on_receive_proposal_name t on_receive_proposal_keys
      else ok none

  pub on_voting : FromContext
  on_voting v t =
      if message_is on_voting_name v then make v on_voting_name t on_voting_keys else ok none

  pub on_block_vote_received_fwd : FromContext
  on_block_vote_received_fwd v t =
      if message_is on_block_vote_received_fwd_name v
      then make v on_block_vote_received_name t on_block_vote_received_fwd_keys
      else ok none

  pub on_own_proposal : FromContext
  on_own_proposal v t =
      if message_is on_own_proposal_name v
      then make v on_own_proposal_name t on_own_proposal_keys
      else ok none

  pub on_own_vote : FromContext
  on_own_vote v t =
      if message_is on_own_vote_name v then make v on_own_vote_name t on_own_vote_keys else ok none

  pub new_of : Kind → FromContext
  new_of on_finalized_block_kind = on_finalized_block
  new_of on_proposing_block_kind = on_proposing_block
  new_of on_own_proposal_kind = on_own_proposal
  new_of on_receive_proposal_kind = on_receive_proposal
  new_of on_voting_kind = on_voting
  new_of on_own_vote_kind = on_own_vote
  new_of on_block_vote_received_fwd_kind = on_block_vote_received_fwd

  -- The map, its entries in the order of iteration.
  pub events_from_context : List Kind → List (String × FromContext)
  events_from_context [] = []
  events_from_context (k ∷ kinds) = (log_name k, new_of k) ∷ events_from_context kinds
