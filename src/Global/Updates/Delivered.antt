-- ===== src/Global/Updates/Delivered.antt =====
-- What the stream of configuration updates delivers to a subscriber.
use mathlib.Core.List.{append_assoc, append-nil}
use metrika_agent.Prelude.{
  ℕ, ◌≡◌, ◌≤◌, ◌<◌, ◌+◌, refl, ap, sym, ◌∙◌, Bool, true, false, ◌==◌, Bool-cases, inl, inr, Option,
  none, some, List, [], ◌∷◌, ◌++◌, length, get_elem?, set, get_elem?-set, lt_of_get_elem?, arith,
  length-append, if◌then◌else◌,
}
use metrika_agent.Emit.{Chan, offer}
use metrika_agent.Flow.{ConfigUpdate}
use metrika_agent.Global.Updates.{
  ConfigUpdateStream, StreamInput, is_done, updated, subscribers, send_update, forward, run_stream,
}

-- The updates among the inputs.
abbrev pub updates_of : List StreamInput → List ConfigUpdate
updates_of [] = []
updates_of (is_done ∷ inputs) = updates_of inputs
updates_of (updated upd ∷ inputs) = upd ∷ updates_of inputs

-- A channel to which updates are offered, one after the other.
abbrev pub offered : List ConfigUpdate → Chan ConfigUpdate → Chan ConfigUpdate
offered [] ch = ch
offered (upd ∷ upds) ch = offered upds (offer upd ch).0

-- For each subscription of the channel `i`, the update and then `upds`.
abbrev pub per_subscription : ℕ → List ℕ → ConfigUpdate → List ConfigUpdate → List ConfigUpdate
per_subscription i [] upd upds = upds
per_subscription i (sub ∷ subs) upd upds =
    let rest = per_subscription i subs upd upds in if sub == i then upd ∷ rest else rest

-- Each update as many times as the channel has subscribed.
abbrev pub deliveries : ℕ → List ℕ → List ConfigUpdate → List ConfigUpdate
deliveries i subs [] = []
deliveries i subs (upd ∷ upds) = per_subscription i subs upd (deliveries i subs upds)

sent :
    (upd : ConfigUpdate) (j : ℕ) (chans : List (Chan ConfigUpdate)) (i : ℕ) {ch : Chan ConfigUpdate}
    (o : Option (Chan ConfigUpdate))
    → get_elem? chans j ≡ o
    → get_elem? chans i ≡ some ch
    → get_elem? (elim o [ none ↦ chans | some c ↦ set chans j (offer upd c).0 ]) i
      ≡ some (if j == i then (offer upd ch).0 else ch)
sent upd j chans i none no_chan e = ground arith
sent upd j chans i {ch} (some c) here e =
    let write = get_elem?-set chans j i (offer upd c).0 (lt_of_get_elem? chans j here) in
    elim (Bool-cases (j == i)) [
      | inl same ↦
          let c_ch : c ≡ ch = ground arith in
          write
          ∙ ap (λ b. if b then some (offer upd c).0 else get_elem? chans i) same
          ∙ ap (λ x. some (offer upd x).0) c_ch
          ∙ ap (λ b. some (if b then (offer upd ch).0 else ch)) (sym same)
      | inr other ↦
          write
          ∙ ap (λ b. if b then some (offer upd c).0 else get_elem? chans i) other
          ∙ e
          ∙ ap (λ b. some (if b then (offer upd ch).0 else ch)) (sym other)
    ]

offered-if :
    (b : Bool) (upd : ConfigUpdate) (upds : List ConfigUpdate) (ch : Chan ConfigUpdate)
    → offered (if b then upd ∷ upds else upds) ch
      ≡ offered upds (if b then (offer upd ch).0 else ch)
offered-if true upd upds ch = refl
offered-if false upd upds ch = refl

-- The channel after the loop over the subscribers, and what it is offered from then on.
forward-offered :
    (upd : ConfigUpdate) (subs : List ℕ) (chans : List (Chan ConfigUpdate)) (i : ℕ)
    (ch : Chan ConfigUpdate) (upds : List ConfigUpdate)
    → get_elem? chans i ≡ some ch
    → (d : Chan ConfigUpdate) × (get_elem? (forward upd subs chans) i ≡ some d)
      × (offered (per_subscription i subs upd upds) ch ≡ offered upds d)
unfolding forward send_update
forward-offered upd [] chans i ch upds e = (ch, e, refl)
forward-offered upd (sub ∷ subs) chans i ch upds e =
    let (d, here, same) =
      forward-offered upd subs (send_update upd sub chans) i _ upds
        (sent upd sub chans i (get_elem? chans sub) refl e) in
    (d, here, offered-if (sub == i) upd (per_subscription i subs upd upds) ch ∙ same)

run_stream-offered :
    (inputs : List StreamInput) (chans : List (Chan ConfigUpdate)) (subs : Option (List ℕ)) (i : ℕ)
    (ch : Chan ConfigUpdate)
    → get_elem? chans i ≡ some ch
    → get_elem? (run_stream inputs (record { channels = chans; subscriptions = subs })).channels i
      ≡ some (
          offered
            (deliveries i
              (subscribers (record { channels = chans; subscriptions = subs }))
              (updates_of inputs))
            ch)
unfolding run_stream
run_stream-offered [] chans subs i ch e = e
run_stream-offered (is_done ∷ inputs) chans subs i ch e =
    run_stream-offered inputs chans subs i ch e
run_stream-offered (updated upd ∷ inputs) chans none i ch e =
    run_stream-offered inputs chans none i ch e
run_stream-offered (updated upd ∷ inputs) chans (some subs) i ch e =
    let (d, here, same) =
      forward-offered upd subs chans i ch (deliveries i subs (updates_of inputs)) e in
    run_stream-offered inputs (forward upd subs chans) (some subs) i d here ∙ ap some (sym same)

offer-room :
    (upd : ConfigUpdate) (ch : Chan ConfigUpdate)
    → length ch.held < ch.cap
    → (offer upd ch).0 ≡ record ch { held = ch.held ++ upd ∷ [] }
unfolding offer
offer-room upd ch room = ground arith

offered-room :
    (upds : List ConfigUpdate) (ch : Chan ConfigUpdate)
    → length ch.held + length upds ≤ ch.cap
    → offered upds ch ≡ record ch { held = ch.held ++ upds }
offered-room [] ch room = ap (λ held. record ch { held = held }) (sym (append-nil ch.held))
offered-room (upd ∷ upds) ch room =
    let more = length-append ch.held (upd ∷ []) in
    ap (offered upds) (offer-room upd ch (omega arith))
    ∙ offered-room upds (record ch { held = ch.held ++ upd ∷ [] }) (omega arith)
    ∙ ap (λ held. record ch { held = held }) (append_assoc ch.held (upd ∷ []) upds)

-- A channel that has room for them gets every configuration update as many times as it has
-- subscribed, in the order of the updates, behind what it held; whatever the other channels have
-- room for, and also after the context is done: the goroutine goes on.
pub run_stream-Delivered :
    (inputs : List StreamInput) (c : ConfigUpdateStream) (i : ℕ) (ch : Chan ConfigUpdate)
    → get_elem? c.channels i ≡ some ch
    → length ch.held + length (deliveries i (subscribers c) (updates_of inputs)) ≤ ch.cap
    → get_elem? (run_stream inputs c).channels i
      ≡ some (record ch { held = ch.held ++ deliveries i (subscribers c) (updates_of inputs) })
run_stream-Delivered inputs c i ch here room =
    run_stream-offered inputs c.channels c.subscriptions i ch here
    ∙ ap some (offered-room (deliveries i (subscribers c) (updates_of inputs)) ch room)
