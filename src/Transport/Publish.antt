-- ===== src/Transport/Publish.antt =====
-- What a publication does to the client and to the agent's state.
use metrika_agent.Prelude.{
  ◌+◌, ◌≡◌, inl, inr, refl, ap, subst, true, false, Option, none, some, List, [], ◌∷◌, length,
  arith, Option-cases, if◌then◌else◌,
}
use metrika_agent.Prelude.Int.{ℤ}
use metrika_agent.Prelude.Outcome.{done, Yields, yields, Yields-bind, Yields-weaken, Yields-branch}
use metrika_agent.Prelude.Error.{Error, failure, wrapped, Result, ok, err, Result-cases}
use metrika_agent.Model.{Message}
use metrika_agent.Global.{set_publish_state, platform_state_up, platform_state_down}
use metrika_agent.Buf.Queue.{Item, Payload}
use metrika_agent.Transport.{
  Grpc, PlatformGrpc, connect, grpc_error_handler, transmit, publish, messages, refresh,
  publish_job, publish_func,
}

module _ {W : Type 0} (grpc : Grpc W) where
  -- A service has a connection. The constructor's client without a service satisfies it.
  abbrev pub IsConnected : PlatformGrpc W → Type 0
  IsConnected t = t.agent_service ≡ true → t.grpc_conn ≡ true

  -- Nothing but the connection has changed.
  pub record SameAgent (t u : PlatformGrpc W) : Type 0 where
    pub connected : IsConnected u
    pub agent : u.agent ≡ t.agent
    pub refreshed : u.refreshed ≡ t.refreshed
    pub errors : u.publish_errors ≡ t.publish_errors
    pub published : u.published ≡ t.published

  -- The network when the request is made: after a connection, if there was no service.
  abbrev pub net_at : PlatformGrpc W → W
  net_at t = if t.agent_service then t.net else (grpc.dial t.net).1

  -- Why the messages were not sent: the client could not connect, or the request with these
  -- messages failed.
  pub data NotSent (batch : List Message) (w : W) (t : PlatformGrpc W) (e : Error) : Type 0 where
    no_connection :
        (reason : Error)
        → t.agent_service ≡ false
        → (grpc.dial t.net).0 ≡ some reason
        → e ≡ wrapped (failure "grpc connect error") reason
        → NotSent batch w t e
    no_response : (grpc.transmit batch w).0 ≡ err e → NotSent batch w t e

  -- The request with these messages was made to the network `w` and answered; or there was an
  -- error, and then the service is gone, so that the next call connects anew.
  pub data Published (batch : List Message) (w : W) (t : PlatformGrpc W)
      (s : Result ℤ × PlatformGrpc W) : Type 0 where
    sent :
        (ts : ℤ)
        → (grpc.transmit batch w).0 ≡ ok ts
        → s.0 ≡ ok ts
        → s.1.agent_service ≡ true
        → SameAgent t s.1
        → Published batch w t s
    not_sent :
        (e : Error)
        → NotSent batch w t e
        → s.0 ≡ err e
        → s.1.agent_service ≡ false
        → SameAgent t s.1
        → Published batch w t s

  transmit-Published :
      (batch : List Message) (t : PlatformGrpc W)
      → t.agent_service ≡ true
      → t.grpc_conn ≡ true
      → Yields (Published batch t.net t) (transmit grpc batch t)
  unfolding transmit grpc_error_handler
  transmit-Published batch t s c = elim (Result-cases (grpc.transmit batch t.net).0) [
    | inl (ts, e) ↦
        rw (e, transmit)
          (yields (
            sent ts e refl s (record {
              connected = λ _. c;
              agent = refl;
              refreshed = refl;
              errors = refl;
              published = refl;
            })))
    | inr (reason, e) ↦
        rw (e, transmit, c)
          (yields (
            not_sent reason (no_response e) refl refl (record {
              connected = λ never. absurd (cc);
              agent = refl;
              refreshed = refl;
              errors = refl;
              published = refl;
            })))
  ]

  connect_dialed :
      (t : PlatformGrpc W)
      → (grpc.dial t.net).0 ≡ none
      → connect grpc t
        ≡ (none, record t { agent_service = true; grpc_conn = true; net = (grpc.dial t.net).1 })
  unfolding connect
  connect_dialed t e = ground arith

  connect_failed :
      (t : PlatformGrpc W) (reason : Error)
      → (grpc.dial t.net).0 ≡ some reason
      → connect grpc t ≡ (
        some (wrapped (failure "grpc connect error") reason),
        record t { grpc_conn = false; net = (grpc.dial t.net).1 },
      )
  unfolding connect
  connect_failed t reason e = ground arith

  from_dialed :
      (batch : List Message) (t : PlatformGrpc W) (w : W) (s : Result ℤ × PlatformGrpc W)
      → Published batch w (record t { agent_service = true; grpc_conn = true; net = w }) s
      → Published batch w t s
  from_dialed batch t w s (sent ts asked e k a) = sent ts asked e k (record {
    connected = a.connected;
    agent = a.agent;
    refreshed = a.refreshed;
    errors = a.errors;
    published = a.published;
  })
  from_dialed batch t w s (not_sent x (no_response asked) e k a) =
      not_sent x (no_response asked) e k (record {
        connected = a.connected;
        agent = a.agent;
        refreshed = a.refreshed;
        errors = a.errors;
        published = a.published;
      })
  from_dialed batch t w s (not_sent x (no_connection reason lack failed same) e k a) = absurd (cc)

  net_have : (t : PlatformGrpc W) → t.agent_service ≡ true → t.net ≡ net_at t
  net_have t have = rw have refl

  net_lack : (t : PlatformGrpc W) → t.agent_service ≡ false → (grpc.dial t.net).1 ≡ net_at t
  net_lack t lack = rw lack refl

  -- A client whose service, where it has one, has a connection publishes without a panic. If it
  -- reports no error, the request with the given messages was answered, with the result, and it has
  -- a service; if it reports one, it could not connect or that request failed, and it has no
  -- service, so that the next call connects anew. In both cases the service, if any, has a
  -- connection, and the agent's state and the counters are as before.
  pub publish-Published :
      (batch : List Message) (t : PlatformGrpc W)
      → IsConnected t
      → Yields (Published batch (net_at t) t) (publish grpc batch t)
  unfolding publish
  publish-Published batch t c =
      Yields-branch t.agent_service
        (λ have.
          subst (λ w. Yields (Published batch w t) (transmit grpc batch t)) (net_have t have)
            (transmit-Published batch t have (c have)))
        (λ lack. elim (Option-cases (grpc.dial t.net).0) [
          | inl dialed ↦
              rw (connect_dialed t dialed, ap (λ r. r.1) (connect_dialed t dialed))
                (Yields-weaken
                  (transmit-Published batch
                    (record t { agent_service = true; grpc_conn = true; net = (grpc.dial t.net).1 })
                    refl refl)
                  (λ s p.
                    subst (λ w. Published batch w t s) (net_lack t lack)
                      (from_dialed batch t (grpc.dial t.net).1 s p)))
          | inr (reason, failed) ↦
              rw (connect_failed t reason failed, ap (λ r. r.1) (connect_failed t reason failed))
                (yields (
                  not_sent _ (no_connection reason lack failed refl) refl lack (record {
                    connected = λ have. absurd (cc);
                    agent = refl;
                    refreshed = refl;
                    errors = refl;
                    published = refl;
                  })))
        ])

  -- What the goroutine of `PublishFunc` has done.
  pub data Reported (batch : List Message) (t : PlatformGrpc W) (s : Option Error × PlatformGrpc W)
      : Type 0 where
    up :
        (ts : ℤ)
        → (grpc.transmit batch (net_at t)).0 ≡ ok ts
        → s.0 ≡ none
        → s.1.agent.plat_state ≡ platform_state_up
        → s.1.published ≡ t.published + length batch
        → s.1.publish_errors ≡ t.publish_errors
        → IsConnected s.1
        → Reported batch t s
    down :
        (e : Error)
        → NotSent batch (net_at t) t e
        → s.0 ≡ some e
        → s.1.agent.plat_state ≡ platform_state_down
        → s.1.published ≡ t.published
        → s.1.publish_errors ≡ t.publish_errors + 1
        → IsConnected s.1
        → Reported batch t s

  job_end :
      (batch : List Message) (t : PlatformGrpc W) (s : Result ℤ × PlatformGrpc W)
      → Published batch (net_at t) t s
      → Yields (Reported batch t) (elim s.0 [
        | err e ↦ done (
          some e,
          record (s.1) {
            publish_errors = s.1.publish_errors + 1;
            agent = set_publish_state platform_state_down s.1.agent;
          },
        )
        | ok ts ↦ done (
          none,
          record (s.1) {
            refreshed = refresh grpc ts s.1.refreshed;
            published = s.1.published + length batch;
            agent = set_publish_state platform_state_up s.1.agent;
          },
        )
      ])
  job_end batch t s (sent ts asked e k a) =
      rw e (
        yields
          (up ts asked refl refl (ap (λ n. n + length batch) a.published) a.errors a.connected))
  job_end batch t s (not_sent x why e k a) =
      rw e (yields (down x why refl refl a.published (ap (λ n. n + 1) a.errors) a.connected))

  -- The messages among the items, in order.
  pub data Carried : List Item → List Message → Type 0 where
    no_items : Carried [] []
    takes :
        {x : Item} {m : Message} {xs : List Item} {ms : List Message}
        → x.payload ≡ Payload.message m
        → Carried xs ms
        → Carried (x ∷ xs) (m ∷ ms)
    skips :
        {x : Item} {xs : List Item} {ms : List Message}
        → x.payload ≡ Payload.other
        → Carried xs ms
        → Carried (x ∷ xs) ms

  messages_step-Carried :
      (x : Item) (xs : List Item) (p : Payload)
      → x.payload ≡ p
      → Carried xs (messages grpc xs)
      → Carried
          (x ∷ xs)
          (elim p [ Payload.message m ↦ m ∷ messages grpc xs | Payload.other ↦ messages grpc xs ])
  messages_step-Carried x xs (Payload.message m) e rest = takes e rest
  messages_step-Carried x xs Payload.other e rest = skips e rest

  messages-Carried : (xs : List Item) → Carried xs (messages grpc xs)
  unfolding messages
  messages-Carried [] = no_items
  messages-Carried (x ∷ xs) = messages_step-Carried x xs x.payload refl (messages-Carried xs)

  -- If the service of the client, where it has one, has a connection, and the goroutine ends in
  -- time, `PublishFunc` ends without a panic and leaves nothing to run. Its result, the agent's
  -- state and the counters say the same: a request with the messages of the batch, in order, was
  -- answered and the platform is up; or the client could not connect or that request failed, and
  -- the platform is down. The service, if any, has a connection afterwards.
  pub publish_func-Reported :
      (b : List Item) (t : PlatformGrpc W)
      → IsConnected t
      → Yields
          (λ s. (batch : List Message) × Carried b batch × Reported batch t (s.0, s.1) × (s.2 ≡ []))
          (publish_func grpc true b t)
  unfolding publish_func publish_job
  publish_func-Reported b t c =
      Yields-bind
        (Yields-bind (publish-Published (messages grpc b) t c) (job_end (messages grpc b) t))
        λ s r. yields (messages grpc b, messages-Carried b, r, refl)
