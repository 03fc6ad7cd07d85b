-- ===== src/Docker/Locks.antt =====
-- The mutex of the docker adapter: which calls return, and which leave it locked.
use Prim.Native.String.{String}
use metrika_agent.Prelude.{
  ◌≡◌, refl, ap, ◌∙◌, Bool, true, false, Option, none, some, Bool-cases, Option-cases, inl, inr,
  if◌then◌else◌,
}
use metrika_agent.Prelude.Error.{Error, Result, ok, err, Result-cases}
use metrika_agent.Docker.{
  Run, returns, blocks, crashes, Daemon, Adapter, close, reset_client, with_client, drop_client,
  request, get_running_containers, docker_logs, docker_events,
}

pub data Request : Type 0 where
  containers : Request
  logs_of : String → Request
  events : Request

pub data Call : Type 0 where
  closes : Call
  requests : Request → Call

abbrev error_of {ℓ} : {A : Type ℓ} → Result A → Option Error
error_of (ok a) = none
error_of (err e) = some e

-- Of what a call returns, its error.
abbrev forget : {A W : Type 0} → Run (Result A × Adapter W) → Run (Option Error × Adapter W)
forget (returns t) = returns (error_of t.0, t.1)
forget blocks = blocks
forget crashes = crashes

module _ {W : Type 0} (daemon : Daemon W) (between : Adapter W → Adapter W) where
  abbrev pub run_request : Request → Adapter W → Run (Option Error × Adapter W)
  run_request containers a = forget (get_running_containers daemon between a)
  run_request (logs_of c) a = forget (docker_logs daemon between c a)
  run_request events a = forget (docker_events daemon between a)

  abbrev pub run : Call → Adapter W → Run (Option Error × Adapter W)
  run closes a = close daemon a
  run (requests r) a = run_request r a

  -- An adapter whose mutex is free.
  abbrev pub unlocked : Bool → W → Adapter W
  unlocked cli w = record { cli = cli; locked = false; world = w }

  -- The adapter when a call first frees the mutex for its request.
  abbrev pub first_gap : Bool → W → Adapter W
  first_gap cli w = unlocked true (if cli then w else (daemon.new_client w).1)

  -- The world after the request of a call.
  abbrev pub world_after : Call → W → W
  world_after closes w = w
  world_after (requests containers) w = (daemon.list w).1
  world_after (requests (logs_of c)) w = (daemon.logs c w).1
  world_after (requests events) w = w

  -- The adapter when a call does not hold the mutex: before its request, and, with what other calls
  -- have done by then, after the request, before the client is dropped.
  pub data Gap (call : Call) (cli : Bool) (w : W) : Adapter W → Type 0 where
    before_request : Gap call cli w (first_gap cli w)
    before_drop : Gap call cli w (record (between (first_gap cli w)) {
      world = world_after call (between (first_gap cli w)).world;
    })

  -- In a gap of the call, other calls leave the mutex locked.
  abbrev pub LockedBetween : Call → Bool → W → Type 0
  LockedBetween call cli w = (a : Adapter W) × Gap call cli w a × ((between a).locked ≡ true)

  -- In a gap of the call, other calls drop the client.
  abbrev pub DroppedBetween : Call → Bool → W → Type 0
  DroppedBetween call cli w =
      (a : Adapter W) × Gap call cli w a × (a.cli ≡ true) × ((between a).cli ≡ false)

  -- A call returns with the mutex free, or, if it could not make the client that it lacked, with
  -- the mutex locked; and what else other calls can bring about.
  pub data Ended (call : Call) (cli : Bool) (w : W) : Run (Option Error × Adapter W) → Type 0 where
    free : {e : Option Error} {b : Adapter W} → b.locked ≡ false → Ended call cli w (returns (e, b))
    left_locked :
        {e : Error} {b : Adapter W}
        → cli ≡ false
        → (daemon.new_client w).0 ≡ some e
        → b.locked ≡ true
        → Ended call cli w (returns (some e, b))
    locked_by_others :
        {e : Option Error} {b : Adapter W}
        → b.locked ≡ true
        → LockedBetween call cli w
        → Ended call cli w (returns (e, b))
    waits : LockedBetween call cli w → Ended call cli w blocks
    crashed : DroppedBetween call cli w → Ended call cli w crashes

  reset_made :
      (a : Adapter W)
      → (daemon.new_client a.world).0 ≡ none
      → reset_client daemon a
        ≡ (none, record { cli = true; locked = a.locked; world = (daemon.new_client a.world).1 })
  unfolding reset_client
  reset_made a made = rw (made, reset_client) refl

  reset_failed :
      (a : Adapter W) (e : Error)
      → (daemon.new_client a.world).0 ≡ some e
      → reset_client daemon a
        ≡ (some e, record { cli = false; locked = a.locked; world = (daemon.new_client a.world).1 })
  unfolding reset_client
  reset_failed a e failed = rw (failed, reset_client) refl

  -- A call that returns the adapter as a gap has left it.
  as_left :
      (call : Call) (cli : Bool) (w : W) (e : Option Error) (b a : Adapter W)
      → Gap call cli w a
      → b.locked ≡ (between a).locked
      → Ended call cli w (returns (e, b))
  as_left call cli w e b a gap same = elim (Bool-cases (between a).locked) [
    | inl theirs ↦ locked_by_others (same ∙ theirs) (a, gap, theirs)
    | inr freed ↦ free (same ∙ freed)
  ]

  -- The client of `a` is dropped after what other calls do.
  drop-Ended :
      (T : Type 0) (call : Call) (cli : Bool) (w : W) (e : Error) (a : Adapter W)
      → Gap call cli w a
      → a.cli ≡ true
      → Ended call cli w (forget (drop_client daemon between {A = T} e (between a)))
  unfolding drop_client
  drop-Ended T call cli w e a gap have = elim (Bool-cases (between a).locked) [
    | inl theirs ↦ rw (theirs, drop_client) (waits (a, gap, theirs))
    | inr freed ↦ elim (Bool-cases (between a).cli) [
      | inl kept ↦ rw (freed, kept, drop_client) (free refl)
      | inr gone ↦ rw (freed, gone, drop_client) (crashed (a, gap, have, gone))
    ]
  ]

  module _ {A : Type 0} where
    -- A request with the client of `a`, after what other calls do.
    request-Ended :
        (send : W → Result A × W) (keeps : Error → Bool) (call : Call) (cli : Bool) (w : W)
        (a : Adapter W)
        → Gap call cli w a
        → Gap call cli w (record (between a) { world = (send (between a).world).1 })
        → a.cli ≡ true
        → Ended call cli w (forget (request daemon between send keeps (between a)))
    unfolding request
    request-Ended send keeps call cli w a gap next have = elim (Bool-cases (between a).cli) [
      | inr gone ↦ rw (gone, request) (crashed (a, gap, have, gone))
      | inl kept ↦ elim (Result-cases (send (between a).world).0) [
        | inl (x, e) ↦ rw (kept, e, request) (as_left call cli w none _ a gap refl)
        | inr (x, e) ↦ elim (Bool-cases (keeps x)) [
          | inl stays ↦ rw (kept, e, stays, request) (as_left call cli w (some x) _ a gap refl)
          | inr goes ↦ rw (kept, e, goes, request) (drop-Ended A call cli w x _ next kept)
        ]
      ]
    ]

    with_client-Ended :
        (k : Adapter W → Run (Result A × Adapter W)) (call : Call) (cli : Bool) (w : W)
        → Ended call cli w (forget (k (between (first_gap cli w))))
        → Ended call cli w (forget (with_client daemon between k (unlocked cli w)))
    unfolding with_client
    with_client-Ended k call true w next = next
    with_client-Ended k call false w next = elim (Option-cases (daemon.new_client w).0) [
      | inl made ↦
          let reset = reset_made (record { cli = false; locked = true; world = w }) made in
          rw (reset, ap (λ r. r.1) reset) next
      | inr (e, failed) ↦
          let reset = reset_failed (record { cli = false; locked = true; world = w }) e failed in
          rw (reset, ap (λ r. r.1) reset) (left_locked refl failed refl)
    ]

  events-Ended :
      (call : Call) (cli : Bool) (w : W) (a : Adapter W)
      → Gap call cli w a
      → a.cli ≡ true
      → Ended call cli w
          (forget {A = Bool} (if (between a).cli then returns (ok true, between a) else crashes))
  events-Ended call cli w a gap have = elim (Bool-cases (between a).cli) [
    | inl kept ↦ rw kept (as_left call cli w none _ a gap refl)
    | inr gone ↦ rw gone (crashed (a, gap, have, gone))
  ]

  -- A call of the adapter whose mutex is free dereferences a nil client only if other calls have
  -- dropped the client while this one did not hold the mutex, and it waits for ever only if they
  -- have left the mutex locked meanwhile. Otherwise it returns, with the mutex free, unless other
  -- calls have left it locked, or it lacked a client and could not make one: then it returns that
  -- error and leaves the mutex locked.
  pub run-Ended : (call : Call) (cli : Bool) (w : W) → Ended call cli w (run call (unlocked cli w))
  unfolding get_running_containers docker_logs docker_events close
  run-Ended closes true w = free refl
  run-Ended closes false w = free refl
  run-Ended (requests containers) cli w = with_client-Ended _ (requests containers) cli w (
      request-Ended daemon.list daemon.is_not_found (requests containers) cli w (first_gap cli w)
        before_request before_drop refl)
  run-Ended (requests (logs_of c)) cli w = with_client-Ended _ (requests (logs_of c)) cli w (
      request-Ended (daemon.logs c) daemon.is_no_such_container (requests (logs_of c)) cli w
        (first_gap cli w) before_request before_drop refl)
  run-Ended (requests events) cli w =
      with_client-Ended _ (requests events) cli w
        (events-Ended (requests events) cli w (first_gap cli w) before_request refl)

  locked_blocks :
      (call : Call) (cli : Bool) (w : W)
      → run call (record { cli = cli; locked = true; world = w }) ≡ blocks
  unfolding get_running_containers docker_logs docker_events close with_client
  locked_blocks closes cli w = refl
  locked_blocks (requests containers) cli w = refl
  locked_blocks (requests (logs_of c)) cli w = refl
  locked_blocks (requests events) cli w = refl

  lacks_client :
      {A : Type 0} (k : Adapter W → Run (Result A × Adapter W)) (w : W) (e : Error)
      → (daemon.new_client w).0 ≡ some e
      → with_client daemon between k (unlocked false w)
        ≡ returns (err e, record { cli = false; locked = true; world = (daemon.new_client w).1 })
  unfolding with_client
  lacks_client k w e failed =
      let reset = reset_failed (record { cli = false; locked = true; world = w }) e failed in
      rw (reset, ap (λ r. r.1) reset) refl

  -- Whatever other calls do in the gaps of a call: once the client is missing and cannot be made, a
  -- request returns the error, and whatever call is made next waits for ever.
  pub failed_client_blocks :
      (r : Request) (next : Call) (w : W) (e : Error)
      → (daemon.new_client w).0 ≡ some e
      → (b : Adapter W) × (run_request r (unlocked false w) ≡ returns (some e, b))
        × (run next b ≡ blocks)
  unfolding get_running_containers docker_logs docker_events
  failed_client_blocks containers next w e failed =
      (_, ap forget (lacks_client _ w e failed), locked_blocks next false _)
  failed_client_blocks (logs_of c) next w e failed =
      (_, ap forget (lacks_client _ w e failed), locked_blocks next false _)
  failed_client_blocks events next w e failed =
      (_, ap forget (lacks_client _ w e failed), locked_blocks next false _)
