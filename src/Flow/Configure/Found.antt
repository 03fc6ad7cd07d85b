-- ===== src/Flow/Configure/Found.antt =====
-- The endpoints of the node's metrics.
use Prim.Native.String.{String}
use Prim.Native.String.{◌++◌ as ◌<>◌}
use Prim.Native.Char.{Char}
use Prim.Native.Nat.{Ordering}
use Prim.Native.String.{compare as compare_text}
use Prim.Native.String.compare
use text.Mathlib.Text.{◌==◌ as str_eq, is_eq}
use metrika_agent.Prelude.{
  ◌⊎◌, ℕ, ◌≡◌, refl, ap, sym, subst, ◌∙◌, Bool, true, false, not, none, List, [], ◌∷◌, if-branches,
  Bool-cases, inl, inr,
}
use metrika_agent.Prelude.Outcome.{done, Yields, yields}
use metrika_agent.Flow.{Flow, PefEndpoint, is_pef_configured, first_is_set}
use metrika_agent.Flow.Metadata.{Ended}
use metrika_agent.Flow.Configure.{
  Host, endpoint_of, put_endpoint, add_endpoint, answers, pef_loop, after_pef,
  configure_pef_endpoints,
}
use metrika_agent.Flow.Configure.Ids.{NotEmpty, append_cons}

-- The template has an entry for an endpoint.
abbrev pub HasEntry : List PefEndpoint → Type 0
HasEntry [] = ⊥
HasEntry (first ∷ others) = Unit

abbrev pub IsPefSet : List PefEndpoint → Type 0
IsPefSet [] = ⊥
IsPefSet (first ∷ others) = NotEmpty first.url

not_nil : (c : Char) (s : String) → compare_text (String.◌∷◌ c s) "" ≡ Ordering.gt
not_nil c s i = compare.cons-nil c s i

cons_set : (c : Char) (s t : String) → NotEmpty (String.◌∷◌ c s <> t)
cons_set c s t = subst NotEmpty (sym (append_cons c s t)) (ap is_eq (not_nil c (s <> t)))

endpoint_of-set : (port : ℕ) → NotEmpty (endpoint_of port)
unfolding endpoint_of
endpoint_of-set port = cons_set _ _ _

put_endpoint-set :
    (endpoint : String) (filters : List String) (es : List PefEndpoint)
    → NotEmpty endpoint
    → HasEntry es
    → IsPefSet (put_endpoint endpoint filters es)
unfolding put_endpoint
put_endpoint-set endpoint filters [] h e = e
put_endpoint-set endpoint filters (first ∷ others) h e =
    if-branches IsPefSet (str_eq first.url "") (λ _. h) (λ set. set)

entry_of_set : (es : List PefEndpoint) → IsPefSet es → HasEntry es
entry_of_set [] h = h
entry_of_set (first ∷ others) h = tt

pub first_is_set-cases :
    (es : List PefEndpoint)
    → HasEntry es
    → ((first_is_set es ≡ done true) × IsPefSet es) ⊎ (first_is_set es ≡ done false)
first_is_set-cases [] h = absurd h
first_is_set-cases (first ∷ others) h = elim (Bool-cases (str_eq first.url "")) [
  | inl empty ↦ inr (ap (λ b. done (not b)) empty)
  | inr set ↦ inl (ap (λ b. done (not b)) set, set)
]

pub set-first_is_set : (es : List PefEndpoint) → IsPefSet es → first_is_set es ≡ done true
set-first_is_set [] h = absurd h
set-first_is_set (first ∷ others) h = ap (λ b. done (not b)) h

-- What the stage leaves.
pub record Apart (d e : Flow) : Type 0 where
  pub client : e.config.client ≡ d.config.client
  pub node_id : e.config.node_id ≡ d.config.node_id
  pub role : e.node_role ≡ d.node_role
  pub net : e.network ≡ d.network
  pub container : e.container ≡ d.container

abbrev apart : (d : Flow) → Apart d d
apart d = record { client = refl; node_id = refl; role = refl; net = refl; container = refl }

Apart-trans : (d e f : Flow) → Apart d e → Apart e f → Apart d f
Apart-trans d e f p q = record {
  client = q.client ∙ p.client;
  node_id = q.node_id ∙ p.node_id;
  role = q.role ∙ p.role;
  net = q.net ∙ p.net;
  container = q.container ∙ p.container;
}

module _ {W : Type 0} (host : Host W) where
  record Looped (d : Flow) (r : Bool × Flow × W) : Type 0 where
    set : r.0 ≡ true → IsPefSet r.1.config.pef_endpoints
    rest : Apart d r.1

  pef_loop-Looped :
      (ports : List ℕ) (filters : List String) (found : Bool) (d : Flow) (w : W)
      → HasEntry d.config.pef_endpoints
      → (found ≡ true → IsPefSet d.config.pef_endpoints)
      → Looped d (pef_loop host ports filters found d w)
  unfolding pef_loop
  pef_loop-Looped [] filters found d w entry so_far = record { set = so_far; rest = apart d }
  pef_loop-Looped (port ∷ ports) filters found d w entry so_far =
      let (status, v) = host.get_status (endpoint_of port) w in
      if-branches (Looped d) (answers host status)
        (λ _.
          let set = put_endpoint-set (endpoint_of port) filters _ (endpoint_of-set port) entry in
          let r =
            pef_loop-Looped ports filters true (add_endpoint (endpoint_of port) filters d) v
              (entry_of_set _ set) (λ _. set) in
          record {
            set = r.set;
            rest =
                Apart-trans d _ _
                  (record {
                    client = refl;
                    node_id = refl;
                    role = refl;
                    net = refl;
                    container = refl;
                  })
                  r.rest;
          })
        (λ _. pef_loop-Looped ports filters found d v entry so_far)

  pub record PefFound (d : Flow) (r : Ended W) : Type 0 where
    pub set : r.0 ≡ none → IsPefSet r.1.config.pef_endpoints
    pub rest : Apart d r.1

  after_pef-PefFound : (d : Flow) (r : Bool × Flow × W) → Looped d r → PefFound d (after_pef host r)
  after_pef-PefFound d (true, e, w) l = record { set = λ _. l.set refl; rest = l.rest }
  after_pef-PefFound d (false, e, w) l = record { set = λ h. absurd (cc); rest = l.rest }

  -- A first entry that is not set is searched for at every port.
  pub configure_pef_endpoints-PefFound :
      (d : Flow) (w : W)
      → HasEntry d.config.pef_endpoints
      → Yields (PefFound d) (configure_pef_endpoints host d w)
  unfolding configure_pef_endpoints is_pef_configured
  configure_pef_endpoints-PefFound d w entry =
      elim (first_is_set-cases d.config.pef_endpoints entry) [
        | inl (is_set, set) ↦
            rw (configure_pef_endpoints, is_set)
              (yields (record { set = λ _. set; rest = apart d }))
        | inr not_set ↦
            rw (configure_pef_endpoints, not_set)
              (yields
                (after_pef-PefFound d _ (pef_loop-Looped _ _ false d w entry (λ h. absurd (cc)))))
      ]
