-- ===== src/Flow/Events/Told.antt =====
-- What a line of the log has a watcher tell, in whatever order the map of events is walked.
use Prim.Native.String.{String}
use mathlib.Core.List.{Permᴰ}
use mathlib.Core.Logic.{∥∥₁_elim}
use native.Mathlib.Nat.{ℕ_set}
use text.Mathlib.Text.{◌==◌}
use text.Mathlib.TextEquality.{eq_iff}
use metrika_agent.Prelude.{
  ℕ, ◌+◌, ◌≤◌, ◌≡◌, refl, ap, ◌∙◌, Bool, true, false, Option, none, some, List, [], ◌∷◌, Perm,
  arith, if◌then◌else◌, Bool-cases, inl, inr,
}
use metrika_agent.Prelude.Int.{ℤ}
use metrika_agent.Prelude.Error.{Error, Result, ok, err, Result-cases}
use metrika_agent.Model.{Val, Fields}
use metrika_agent.Model.Events.{field, filter_keys, new_with_filtered_ctx}
use metrika_agent.Model.Events.Context.{Projects, filter_keys-Projects}
use metrika_agent.Emit.{event_message}
use metrika_agent.Watch.{Watch, emit, emit_node_log_events}
use metrika_agent.Flow.Events.{
  Kind, on_finalized_block_kind, on_proposing_block_kind, on_own_proposal_kind,
  on_receive_proposal_kind, on_voting_kind, on_own_vote_kind, on_block_vote_received_fwd_kind,
  all_kinds, log_name, is_text, message_is, make, new_of, events_from_context, on_finalized_block,
  on_proposing_block, on_own_proposal, on_receive_proposal, on_voting, on_own_vote,
  on_block_vote_received_fwd, on_finalized_block_keys, on_proposing_block_keys,
  on_own_proposal_keys, on_receive_proposal_keys, on_voting_keys, on_own_vote_keys,
  on_block_vote_received_fwd_keys,
}

-- The name that the platform sees, and the keys that it is sent.
abbrev pub event_name : Kind → String
event_name on_block_vote_received_fwd_kind = "BlockVoteReceived"
event_name k = log_name k

abbrev pub event_keys : Kind → List String
event_keys on_finalized_block_kind = on_finalized_block_keys
event_keys on_proposing_block_kind = on_proposing_block_keys
event_keys on_own_proposal_kind = on_own_proposal_keys
event_keys on_receive_proposal_kind = on_receive_proposal_keys
event_keys on_voting_kind = on_voting_keys
event_keys on_own_vote_kind = on_own_vote_keys
event_keys on_block_vote_received_fwd_kind = on_block_vote_received_fwd_keys

abbrev pub Says : Fields → Kind → Type 0
Says body k = field body "message" ≡ some (Val.text (log_name k))

abbrev hit : Fields → Kind → ℕ
hit body k = if message_is (log_name k) body then 1 else 0

-- How many of the kinds a line is of.
abbrev hits : Fields → List Kind → ℕ
hits body [] = 0
hits body (k ∷ kinds) = hit body k + hits body kinds

same_hits : (body : Fields) {xs ys : List Kind} → Permᴰ xs ys → hits body xs ≡ hits body ys
same_hits body (Permᴰ.trans first then_ys) = same_hits body first ∙ same_hits body then_ys
same_hits body (Permᴰ.cons x tail) = omega (arith, ap (hit body) x, same_hits body tail)
same_hits body (Permᴰ.swap x y) = omega (arith, ap (hit body) x, ap (hit body) y)
same_hits body Permᴰ.nil = refl

hits-perm : (body : Fields) {xs ys : List Kind} → Perm xs ys → hits body xs ≡ hits body ys
hits-perm body p = ∥∥₁_elim p (ℕ_set _ _) (same_hits body)

-- A text stands at most once in a list of texts that all differ.
abbrev has : String → List String → Bool
has n [] = false
has n (m ∷ ms) = if n == m then true else has n ms

abbrev distinct : List String → Bool
distinct [] = true
distinct (n ∷ ns) = if has n ns then false else distinct ns

abbrev times : Option Val → List String → ℕ
times v [] = 0
times v (n ∷ ns) = (if is_text n v then 1 else 0) + times v ns

times-absent : (s : String) (ns : List String) → has s ns ≡ false → times (some (Val.text s)) ns ≡ 0
times-absent s [] h = refl
times-absent s (n ∷ ns) h = ground (arith, times-absent s ns, eq_iff s n)

times-le-one : (v : Option Val) (ns : List String) → distinct ns ≡ true → times v ns ≤ 1
times-le-one v [] h = omega arith
times-le-one none (n ∷ ns) h = ground (arith, times-le-one none ns)
times-le-one (some (Val.number x)) (n ∷ ns) h =
    ground (arith, times-le-one (some (Val.number x)) ns)
times-le-one (some Val.opaque) (n ∷ ns) h = ground (arith, times-le-one (some Val.opaque) ns)
times-le-one (some (Val.text s)) (n ∷ ns) h =
    ground (arith, times-le-one (some (Val.text s)) ns, times-absent n ns, eq_iff s n)

abbrev log_names : List Kind → List String
log_names [] = []
log_names (k ∷ kinds) = log_name k ∷ log_names kinds

hits-times :
    (body : Fields) (kinds : List Kind)
    → hits body kinds ≡ times (field body "message") (log_names kinds)
unfolding message_is
hits-times body [] = refl
hits-times body (k ∷ kinds) = omega (arith, hits-times body kinds)

hits-all : (body : Fields) → hits body all_kinds ≤ 1
hits-all body =
    rw (hits-times body all_kinds) (times-le-one (field body "message") (log_names all_kinds) refl)

is_text-eq : (n : String) (v : Option Val) → is_text n v ≡ true → v ≡ some (Val.text n)
is_text-eq n none h = absurd (cc)
is_text-eq n (some (Val.text s)) h = ground (arith, eq_iff s n)
is_text-eq n (some (Val.number x)) h = absurd (cc)
is_text-eq n (some Val.opaque) h = absurd (cc)

says : (body : Fields) (k : Kind) → message_is (log_name k) body ≡ true → Says body k
unfolding message_is
says body k h = is_text-eq (log_name k) (field body "message") h

said : (body : Fields) (k : Kind) → Says body k → message_is (log_name k) body ≡ true
unfolding message_is
said body k h = ground (arith, eq_iff (log_name k) (log_name k))

none_hit : (body : Fields) → hits body all_kinds ≡ 0 → (k : Kind) → ¬ Says body k
none_hit body h k is_k = ground (arith, said body k is_k)

module _ (new_struct : Fields → Result Fields) where
  -- All methods `New` have one form.
  new_of_lem :
      (k : Kind) (body : Fields) (t : ℤ)
      → new_of new_struct k body t ≡ (
          if message_is (log_name k) body
          then make new_struct body (event_name k) t (event_keys k)
          else ok none)
  unfolding new_of on_finalized_block on_proposing_block on_own_proposal on_receive_proposal
      on_voting on_own_vote on_block_vote_received_fwd
  new_of_lem on_finalized_block_kind body t = refl
  new_of_lem on_proposing_block_kind body t = refl
  new_of_lem on_own_proposal_kind body t = refl
  new_of_lem on_receive_proposal_kind body t = refl
  new_of_lem on_voting_kind body t = refl
  new_of_lem on_own_vote_kind body t = refl
  new_of_lem on_block_vote_received_fwd_kind body t = refl

  pub data Told (body : Fields) (w : Watch) : Watch → Type 0 where
    silent : ((k : Kind) → ¬ Says body k) → Told body w w
    refused :
        (k : Kind)
        → Says body k
        → (fields : Fields) → Projects body (event_keys k) fields
        → (e : Error) → new_struct fields ≡ err e
        → Told body w w
    told :
        (k : Kind)
        → Says body k
        → (fields values : Fields) → Projects body (event_keys k) fields
        → new_struct fields ≡ ok values
        → (now : ℤ)
        → Told body w (
            emit
              (event_message
                (record { name = event_name k; timestamp = now; values = some values }))
              w)

  module _ {T : Type 0} (clock : T → ℤ × T) where
    abbrev walk : List Kind → Fields → Watch → T → Watch × T
    walk kinds = emit_node_log_events clock (events_from_context new_struct kinds)

    walk-quiet :
        (kinds : List Kind) (body : Fields) (w : Watch) (t : T)
        → hits body kinds ≡ 0
        → (walk kinds body w t).0 ≡ w
    unfolding emit_node_log_events events_from_context
    walk-quiet [] body w t h = refl
    walk-quiet (k ∷ kinds) body w t h =
        let off : message_is (log_name k) body ≡ false = ground arith in
        rw (emit_node_log_events, new_of_lem k body (clock t).0, off)
          (walk-quiet kinds body w (clock t).1 (ground arith))

    walk-Told :
        (kinds : List Kind) (body : Fields) (w : Watch) (t : T)
        → hits body kinds ≤ 1
        → (hits body kinds ≡ 0 → (k : Kind) → ¬ Says body k)
        → Told body w (walk kinds body w t).0
    unfolding emit_node_log_events events_from_context new_with_filtered_ctx
    walk-Told [] body w t le none_of = silent (none_of refl)
    walk-Told (k ∷ kinds) body w t le none_of = elim (Bool-cases (message_is (log_name k) body)) [
      | inr off ↦
          rw (emit_node_log_events, new_of_lem k body (clock t).0, off)
            (walk-Told kinds body w (clock t).1 (ground arith)
              (λ zero_hits. none_of (ground arith)))
      | inl on ↦
          let rest : hits body kinds ≡ 0 = ground arith in
          elim (Result-cases (new_struct (filter_keys body (event_keys k) []))) [
            | inr (e, failed) ↦
                rw
                  (
                    emit_node_log_events,
                    new_of_lem k body (clock t).0,
                    on,
                    failed,
                    walk-quiet kinds body w (clock t).1 rest,
                  )
                  (refused k (says body k on) _ (filter_keys-Projects body (event_keys k)) e failed)
            | inl (values, made) ↦
                rw
                  (
                    emit_node_log_events,
                    new_of_lem k body (clock t).0,
                    on,
                    made,
                    walk-quiet kinds body _ (clock t).1 rest,
                  )
                  (told k (says body k on) _ values (filter_keys-Projects body (event_keys k)) made
                    (clock t).0)
          ]
    ]

    -- In whatever order the map of Flow's events is walked, a line of the log that is of no kind is
    -- not told, and one of a kind is told at most once: as one event with the name of its kind,
    -- with the values of the line's projection to the keys of the kind; it is not told if the
    -- struct of these values cannot be made.
    pub emit_node_log_events-Told :
        (kinds : List Kind) (body : Fields) (w : Watch) (t : T)
        → Perm all_kinds kinds
        → Told body w (emit_node_log_events clock (events_from_context new_struct kinds) body w t).0
    emit_node_log_events-Told kinds body w t p =
        let same = hits-perm body p in
        walk-Told kinds body w t (omega (arith, same, hits-all body))
          (λ zero_hits. none_hit body (omega (arith, same, zero_hits)))
