-- ===== src/Buf/Ctrl.antt =====
-- internal/pkg/buf/ctrl.go: the buffer controller. The buffer is any implementation of `Buffer`;
-- what the controller calls outside its package is the record `Env`, over a state `W` of the rest
-- of the agent: the clock, the runtime's memory statistics, the agent's publish state, the callback
-- of the transport. Logging and the histograms of durations are left out; the counters of dropped
-- messages are kept. The goroutines that share a controller are taken one call at a time.
pub mod Account
pub mod Insert
pub mod Drain
pub mod Early
pub mod Loop
pub mod Tests
use Prim.Native.String.{String}
use metrika_agent.Prelude
use metrika_agent.Prelude.{
  ℕ, zero, suc, ◌+◌, Bool, true, false, ◌&&◌, not, Option, none, some, List, [], ◌∷◌, ◌++◌, ltb,
  if◌then◌else◌,
}
use metrika_agent.Prelude.Int.{ℤ, pos, negsuc, pos_part, ltb_ℤ, ◌-ℤ◌}
use metrika_agent.Prelude.Outcome.{Outcome, done, out_of_fuel, ◌>>=◌}
use metrika_agent.Prelude.Error.{Error, heap_alloc_limit, wrapped, Result, ok, err}
use metrika_agent.Model.{Val, Fields, Event, Body, Message}
use metrika_agent.Model.Events.{new_with_ctx}
use metrika_agent.Buf.Api.{Buffer}
use metrika_agent.Buf.Queue.{Item, Payload}

-- Durations and times in nanoseconds; `sync_now` is `timesync.Now()` in milliseconds;
-- `remove_callback` is `OnBufRemoveCallback`; `new_struct` is `structpb.NewStruct`.
pub record Env (W : Type 0) : Type 0 where
  pub time_now : W → ℤ × W
  pub read_mem_stats : W → ℕ × W
  pub publish_state : W → ℕ
  pub sync_now : W → ℤ × W
  pub remove_callback : List Item → W → Option Error × W
  pub new_struct : Fields → Result Fields
  pub error_text : Error → String

-- `PlatformStateUp`
abbrev pub platform_state_up : ℕ
platform_state_up = 1

pub record ControllerConf : Type 0 where
  pub buf_len_limit : ℤ
  pub buf_drain_freq : ℤ
  pub mem_stats_cache_timeout : ℤ
  pub max_heap_alloc_bytes : ℕ
  pub min_buf_size : ℤ

-- `heap_alloc` and `memstats_updated_at` are the cached memory statistics; `memstats_drops` and
-- `full_drops` are the counters `memstats_error` and `buffer_full`.
pub record Controller (S W : Type 0) : Type 0 where
  pub conf : ControllerConf
  pub b : S
  pub heap_alloc : ℕ
  pub memstats_updated_at : ℤ
  pub memstats_drops : ℕ
  pub full_drops : ℕ
  pub world : W

-- `queue.go`'s `min`, at int.
abbrev pub min_int : ℤ → ℤ → ℤ
min_int a b = if ltb_ℤ a b then a else b

abbrev pub default_if_zero : ℤ → ℤ → ℤ
default_if_zero (pos zero) d = d
default_if_zero (pos (suc n)) d = pos (suc n)
default_if_zero (negsuc n) d = negsuc n

-- The defaults of `NewController`.
pub with_defaults : ControllerConf → ControllerConf
with_defaults c = record {
  buf_len_limit = default_if_zero c.buf_len_limit (pos 1000);
  buf_drain_freq = default_if_zero c.buf_drain_freq (pos 5_000_000_000);
  mem_stats_cache_timeout = default_if_zero c.mem_stats_cache_timeout (pos 15_000_000_000);
  max_heap_alloc_bytes = pos_part (default_if_zero (pos c.max_heap_alloc_bytes) (pos 52428800));
  min_buf_size = default_if_zero c.min_buf_size (pos 2500);
}

module _ (B : Buffer) {W : Type 0} (env : Env W) where
  pub new_controller : ControllerConf → B.State → W → Controller B.State W
  new_controller conf b w =
      let (heap, w1) = env.read_mem_stats w in
      let (now, w2) = env.time_now w1 in
      record {
        conf = with_defaults conf;
        b = b;
        heap_alloc = heap;
        memstats_updated_at = now;
        memstats_drops = 0;
        full_drops = 0;
        world = w2;
      }

  -- The refresh at the head of `checkMemStats`.
  pub refresh_mem_stats : Controller B.State W → Controller B.State W
  refresh_mem_stats c =
      let (now, w1) = env.time_now c.world in
      let (heap, w2) = env.read_mem_stats w1 in
      let (later, w3) = env.time_now w2 in
      let fresh = record c { heap_alloc = heap; memstats_updated_at = later; world = w3 } in
      if ltb_ℤ c.conf.mem_stats_cache_timeout (now -ℤ c.memstats_updated_at)
      then fresh
      else record c { world = w1 }

  -- `c.B.Len() >= c.MinBufSize && c.memstats.HeapAlloc > c.MaxHeapAllocBytes`
  pub over_limit : Controller B.State W → Bool
  over_limit c =
      not (ltb_ℤ (pos (B.len c.b)) c.conf.min_buf_size)
      && ltb c.conf.max_heap_alloc_bytes c.heap_alloc

  pub check_mem_stats : Controller B.State W → Option Error × Controller B.State W
  check_mem_stats c =
      let r = refresh_mem_stats c in (if over_limit r then some heap_alloc_limit else none, r)

  -- After the buffer's own `Insert`.
  pub count_full :
      Controller B.State W → Option Error × B.State → Option Error × Controller B.State W
  count_full c (none, b) = (none, record c { b = b })
  count_full c (some e, b) = (some e, record c { b = b; full_drops = c.full_drops + 1 })

  pub buf_insert : Item → Controller B.State W → Outcome (Option Error × Controller B.State W)
  buf_insert item c =
      let (e, r) = check_mem_stats c in
      let insert : Outcome (Option Error × Controller B.State W) = do
        t ← B.insert r.b (item ∷ [])
        done (count_full r t)
      in elim e [
        | some reason ↦ done (some reason, record r { memstats_drops = r.memstats_drops + 1 })
        | none ↦ insert
      ]

  -- The item of an event has priority 0 and no timestamp.
  abbrev pub event_item : Event → Item
  event_item ev = record {
    priority = 0;
    timestamp = pos 0;
    payload = Payload.message (record { name = ev.name; value = Body.event ev });
  }

  pub emit_event :
      Fields → String → Controller B.State W → Outcome (Option Error × Controller B.State W)
  emit_event ctx name c =
      let (now, w) = env.sync_now c.world in
      elim (new_with_ctx env.new_struct (some ctx) name now) [
        | err e ↦ done (some e, record c { world = w })
        | ok ev ↦ buf_insert (event_item ev) (record c { world = w })
      ]

  pub emit_event_with_error :
      Error → String → Controller B.State W → Outcome (Option Error × Controller B.State W)
  emit_event_with_error e name c = emit_event (("error", Val.text (env.error_text e)) ∷ []) name c

  -- `errors.Wrap(err, inErr.Error())` if putting the batch back failed.
  abbrev pub wrap_error : Error → Option Error → Error
  wrap_error e none = e
  wrap_error e (some other) = wrapped e other

  -- The callback refused the batch: an event is buffered (its own error is only logged), and the
  -- batch is put back.
  pub put_back :
      Error → List Item → Controller B.State W → Outcome (Option Error × Controller B.State W)
  put_back e items c = do
    (_, c1) ← emit_event_with_error e "agent.net.error" c
    (in_err, b) ← B.insert c1.b items
    done (some (wrap_error e in_err), record c1 { b = b })

  pub hand_over :
      Controller B.State W → Result (List Item) → Outcome (Option Error × Controller B.State W)
  hand_over c (err e) = done (some e, c)
  hand_over c (ok items) =
      let (e, w) = env.remove_callback items c.world in
      let c1 = record c { world = w } in
      elim e [ none ↦ done (none, c1) | some reason ↦ put_back reason items c1 ]

  -- `drainFunc`
  pub drain_batch : ℤ → Controller B.State W → Outcome (Option Error × Controller B.State W)
  drain_batch n c =
      let drain : Outcome (Option Error × Controller B.State W) = do
        (r, b) ← B.get c.b (pos_part n)
        hand_over (record c { b = b }) r
      in if ltb_ℤ n (pos 1) then done (none, c) else drain

  -- The loop and the last batch of `BufDrain`.
  pub drain_loop : ℕ → Controller B.State W → Outcome (Option Error × Controller B.State W)
  drain_loop zero c = out_of_fuel
  drain_loop (suc fuel) c =
      let limit = c.conf.buf_len_limit in
      let next : Outcome (Option Error × Controller B.State W) =
        drain_batch limit c >>= λ t. elim t.0 [ some e ↦ done t | none ↦ drain_loop fuel t.1 ] in
      if ltb_ℤ limit (pos (B.len c.b))
      then next
      else drain_batch (min_int (pos (B.len c.b)) limit) c

  -- Each round but the last takes an item out at least.
  pub buf_drain : Controller B.State W → Outcome (Option Error × Controller B.State W)
  buf_drain c = drain_loop (suc (B.len c.b)) c

  pub buf_insert_and_early_drain :
      Item → Controller B.State W → Outcome (Option Error × Controller B.State W)
  buf_insert_and_early_drain item c = buf_insert item c >>= λ t. elim t.0 [
    | some e ↦ done t
    | none ↦
        let full = not (ltb_ℤ (pos (B.len t.1.b)) t.1.conf.buf_len_limit) in
        let up = Prelude.◌==◌ (env.publish_state t.1.world) platform_state_up in
        let drained = buf_drain t.1 in if up && full then drained else done t
  ]

-- What ends a wait of `Start`: its timer, or the context.
pub data Wake : Type 0 where
  timer cancelled : Wake

-- For how long `Start` waits: for the period of the drains, or for the next backoff.
pub data Wait : Type 0 where
  periodic backoff : Wait

-- Where `Start` has got to: whether it has returned, the waits that it has begun, the result of its
-- last drain, and the controller.
pub record Progress (C : Type 0) : Type 0 where
  pub returned : Bool
  pub waits : List Wait
  pub last : Option Error
  pub ctl : C

module _ (B : Buffer) {W : Type 0} (env : Env W) where
  abbrev pub wait_after : Option Error → Wait
  wait_after none = periodic
  wait_after (some e) = backoff

  -- The `for` of `Start`, while the waits end as listed: a drain, a wait by its result, and so on.
  pub start_loop :
      List Wake → List Wait → Controller B.State W → Outcome (Progress (Controller B.State W))
  start_loop [] waits c = do
    (e, r) ← buf_drain B env c
    done (record { returned = false; waits = waits ++ wait_after e ∷ []; last = e; ctl = r })
  start_loop (cancelled ∷ wakes) waits c = do
    (e, r) ← buf_drain B env c
    (e', s) ← buf_drain B env r
    done (record { returned = true; waits = waits ++ wait_after e ∷ []; last = e'; ctl = s })
  start_loop (timer ∷ wakes) waits c = do
    (e, r) ← buf_drain B env c
    start_loop wakes (waits ++ wait_after e ∷ []) r

  -- `Start`: the first wait is for the period. `none` as the last result is no drain yet.
  pub start : List Wake → Controller B.State W → Outcome (Progress (Controller B.State W))
  start [] c = done (record { returned = false; waits = periodic ∷ []; last = none; ctl = c })
  start (cancelled ∷ wakes) c = do
    (e, r) ← buf_drain B env c
    done (record { returned = true; waits = periodic ∷ []; last = e; ctl = r })
  start (timer ∷ wakes) c = start_loop wakes (periodic ∷ []) c
