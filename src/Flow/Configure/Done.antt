-- ===== src/Flow/Configure/Done.antt =====
-- What a reconfiguration from a container leaves: an error, or a chain that is configured.
use text.Mathlib.Text.{◌==◌ as str_eq}
use metrika_agent.Prelude.{
  ℕ, ◌≡◌, ◌≢◌, refl, ap, sym, subst, ◌∙◌, Bool, true, false, not, ◌&&◌, Option, none, some, List,
  [], ◌∷◌, ◌++◌, arith, if◌then◌else◌, if-branches, inl, inr,
}
use metrika_agent.Prelude.Outcome.{done, ◌>>=◌, Yields, yields, Yields-bind}
use metrika_agent.Prelude.Error.{Error}
use metrika_agent.Flow.{
  Flow, Container, is_pef_configured, is_configured, configure_client, push_config_update,
  first_is_set,
}
use metrika_agent.Flow.Metadata.{Ended, recognized, known_network}
use metrika_agent.Flow.Metadata.Known.{IsKnown}
use metrika_agent.Flow.Metadata.Searched.{Runs, Searched, update_from_logs-Searched}
use metrika_agent.Flow.Configure.{
  Host, configure_node_id_from_docker, update_node_version_from_docker, configure_pef_endpoints,
  with_errors, docker_id, Stage, pef_stage, log_stage, logs_if, render_stage, has_names,
  reconfigure_docker, is_discovered,
}
use metrika_agent.Flow.Configure.Ids.{
  NotEmpty, configure_client-set, docker_id-Ided, update_node_version-Same,
}
use metrika_agent.Flow.Configure.Found.{
  HasEntry, IsPefSet, PefFound, configure_pef_endpoints-PefFound, set-first_is_set,
}

not_nil_append : (es : List Error) (e : Error) → es ++ e ∷ [] ≢ []
not_nil_append [] e h = cc
not_nil_append (x ∷ es) e h = cc

with_errors-nil :
    (o : Option Error) (errs : List Error) → with_errors o errs ≡ [] → (o ≡ none) × (errs ≡ [])
with_errors-nil none errs h = (refl, h)
with_errors-nil (some e) errs h = absurd (not_nil_append errs e h)

-- The role and the network are all that is asked about.
IsKnown-of :
    (d e : Flow) → e.node_role ≡ d.node_role → e.network ≡ d.network → IsKnown d → IsKnown e
IsKnown-of d e r n k = record {
  role = ap recognized r ∙ k.role;
  net = elim k.net [ inl h ↦ inl (n ∙ h) | inr h ↦ inr (ap known_network n ∙ h) ];
}

abbrev KeptBy : Flow → Flow → Type 0
KeptBy d e =
    (e.node_role ≡ d.node_role)
    × (e.network ≡ d.network)
    × (e.container ≡ d.container)
    × (e.config.pef_endpoints ≡ d.config.pef_endpoints)

configure_client-kept : (d : Flow) → KeptBy d (configure_client d)
unfolding configure_client
configure_client-kept d =
    if-branches (KeptBy d) (str_eq d.config.client "") (λ _. (refl, refl, refl, refl))
      (λ _. (refl, refl, refl, refl))

module _ {W : Type 0} (host : Host W) where
  -- The client is known; if there is no error so far, so are the ID and the endpoints.
  record Ready (container : Option Container) (s : Stage host) : Type 0 where
    client : NotEmpty s.1.config.client
    named : s.0 ≡ [] → NotEmpty s.1.config.node_id
    found : s.0 ≡ [] → IsPefSet s.1.config.pef_endpoints
    known : IsKnown s.1
    kept : s.1.container ≡ container

  pef_stage-Ready :
      (errs : List Error) (d : Flow) (r : Ended W)
      → NotEmpty d.config.client
      → (errs ≡ [] → NotEmpty d.config.node_id)
      → IsKnown d
      → PefFound host d r
      → Ready d.container (pef_stage host errs r)
  unfolding push_config_update
  pef_stage-Ready errs d (none, e, w) client named known p = record {
    client = ap (λ x. str_eq x "") p.rest.client ∙ client;
    named = λ h. ap (λ x. str_eq x "") p.rest.node_id ∙ named h;
    found = λ _. p.set refl;
    known = IsKnown-of d _ p.rest.role p.rest.net known;
    kept = p.rest.container;
  }
  pef_stage-Ready errs d (some x, e, w) client named known p = record {
    client = ap (λ x. str_eq x "") p.rest.client ∙ client;
    named = λ h. absurd (not_nil_append errs x h);
    found = λ h. absurd (not_nil_append errs x h);
    known = IsKnown-of d _ p.rest.role p.rest.net known;
    kept = p.rest.container;
  }

  -- What is so at the end.
  pub record Settled (container : Option Container) (s : Stage host) : Type 0 where
    pub client : NotEmpty s.1.config.client
    pub named : s.0 ≡ [] → NotEmpty s.1.config.node_id
    pub found : s.0 ≡ [] → IsPefSet s.1.config.pef_endpoints
    pub known : IsKnown s.1
    pub learned :
        s.0 ≡ [] → has_names host container ≡ true → NotEmpty s.1.network × NotEmpty s.1.node_role

  log_stage-Settled :
      (container : Option Container) (s : Stage host) (r : Ended W)
      → Ready container s
      → Searched host.log s.1 r
      → Settled container (log_stage host s.0 r)
  log_stage-Settled container s r p q =
      let same = ap {A = Flow} (λ d. d.config) q.learned.rest in
      record {
        client = ap (λ c. str_eq c.client "") same ∙ p.client;
        named = λ h. ap (λ c. str_eq c.node_id "") same ∙ p.named (with_errors-nil r.0 s.0 h).1;
        found = λ h.
            subst (λ c. IsPefSet c.pef_endpoints) (sym same)
              (p.found (with_errors-nil r.0 s.0 h).1);
        known = q.learned.known;
        learned = λ h _. q.complete (with_errors-nil r.0 s.0 h).0;
      }

  logs_if-Settled :
      (b : Bool) (n hdr_len : ℕ) (container : Option Container) (s : Stage host)
      → ((w : W) → Runs host.log hdr_len n w)
      → b ≡ has_names host container
      → Ready container s
      → Yields (Settled container) (logs_if host b n hdr_len s)
  logs_if-Settled false n hdr_len container s runs same p = yields (record {
    client = p.client;
    named = p.named;
    found = p.found;
    known = p.known;
    learned = λ _ h. absurd (cc);
  })
  logs_if-Settled true n hdr_len container s runs same p =
      Yields-bind (update_from_logs-Searched host.log n hdr_len s.1 s.2 (runs s.2) p.known)
        (λ r q. yields (log_stage-Settled container s r p q))

  render_stage-Settled :
      (container : Option Container) (s : Stage host)
      → Settled container s
      → Settled container (render_stage host s)
  render_stage-Settled container (errs, d, w) p =
      if-branches (Settled container) d.render_needed
        (λ _. record {
          client = p.client;
          named = p.named;
          found = p.found;
          known = record { role = p.known.role; net = p.known.net };
          learned = p.learned;
        })
        (λ _. p)

  pub record Reconfigured (d : Flow) (s : Stage host) : Type 0 where
    pub known : IsKnown s.1
    pub configured : s.0 ≡ [] → is_configured s.1 ≡ done true
    pub discovered : s.0 ≡ [] → has_names host d.container ≡ true → is_discovered host s.1 ≡ true

  is_configured-set :
      (d : Flow)
      → NotEmpty d.config.client
      → NotEmpty d.config.node_id
      → IsPefSet d.config.pef_endpoints
      → is_configured d ≡ done true
  unfolding is_configured is_pef_configured
  is_configured-set d c n e =
      let both : (not (str_eq d.config.client "") && not (str_eq d.config.node_id "")) ≡ true =
        ground arith in
      ap (λ b. if b then first_is_set d.config.pef_endpoints else done false) both
      ∙ set-first_is_set d.config.pef_endpoints e

  Settled-Reconfigured : (d : Flow) (s : Stage host) → Settled d.container s → Reconfigured d s
  Settled-Reconfigured d s p = record {
    known = p.known;
    configured = λ h. is_configured-set s.1 p.client (p.named h) (p.found h);
    discovered = λ h names. let (net, role) = p.learned h names in ground arith;
  }

  -- From the stage of the endpoints on.
  stages-Reconfigured :
      (n : ℕ) (d v : Flow) (errs : List Error) (w : W)
      → NotEmpty v.config.client
      → (errs ≡ [] → NotEmpty v.config.node_id)
      → IsKnown v
      → HasEntry v.config.pef_endpoints
      → v.container ≡ d.container
      → ((u : W) → Runs host.log 8 n u)
      → Yields (Reconfigured d) (
          configure_pef_endpoints host v w >>= λ r.
          logs_if host
            (has_names host (pef_stage host errs r).1.container)
            n
            8
            (pef_stage host errs r)
          >>= λ s. done (render_stage host s))
  stages-Reconfigured n d v errs w client named known entry kept runs =
      Yields-bind (configure_pef_endpoints-PefFound host v w entry) (λ r found.
        let ready = pef_stage-Ready errs v r client named known found in
        Yields-bind
          (logs_if-Settled (has_names host (pef_stage host errs r).1.container) n 8 v.container
            (pef_stage host errs r) runs (ap (has_names host) ready.kept) ready)
          (λ s settled. yields (
            Settled-Reconfigured d (render_stage host s) (
              subst (λ c. Settled c (render_stage host s)) kept
                (render_stage-Settled v.container s settled)))))

  -- If Flow has an entry for an endpoint, its role and network are known ones or unknown, and,
  -- whatever the state of the host, time runs out or the log ends within the given number of lines,
  -- none of which is exactly as long as its header of eight bytes, then a reconfiguration from a
  -- container ends without a panic. The role and the network are then still known ones or unknown.
  -- If no error is returned, Flow is configured (client, node ID and first endpoint), and, if the
  -- container has a name, its network and role have been found.
  pub reconfigure_docker-Reconfigured :
      (n : ℕ) (d : Flow) (w : W)
      → IsKnown d
      → HasEntry d.config.pef_endpoints
      → ((v : W) → Runs host.log 8 n v)
      → Yields (Reconfigured d) (reconfigure_docker host n d w)
  unfolding reconfigure_docker
  reconfigure_docker-Reconfigured n d w known entry runs =
      let c = configure_client d in
      let ids = docker_id-Ided host c in
      let (errs, ided) = docker_id host (configure_node_id_from_docker c) in
      let (same, config) = update_node_version-Same ided in
      let (role, net, container, endpoints) = configure_client-kept d in
      stages-Reconfigured n d (update_node_version_from_docker ided).1 errs w
        (ap (λ x. str_eq x "") (same.client ∙ ids.rest.client) ∙ configure_client-set d)
        (λ h. ap (λ x. str_eq x.node_id "") config ∙ ids.named h)
        (IsKnown-of d _ (same.role ∙ ids.rest.role ∙ role) (same.net ∙ ids.rest.net ∙ net) known)
        (subst HasEntry (sym (same.endpoints ∙ ids.rest.endpoints ∙ endpoints)) entry)
        (same.container ∙ ids.rest.container ∙ container) runs
