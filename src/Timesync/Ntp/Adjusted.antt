-- ===== src/Timesync/Ntp/Adjusted.antt =====
-- What a tick of the clock's goroutine makes of the time that `Now` tells.
use Prim.Native.String.{String}
use metrika_agent.Prelude.{ℕ, suc, ◌≡◌, refl, subst, Option, none, some, inl, inr, arith}
use metrika_agent.Prelude.Int.{ℤ, pos, ◌≤ℤ◌, ◌+ℤ◌, +ℤ_parts}
use metrika_agent.Prelude.Outcome.{done, Yields, yields, Yields-bind}
use metrika_agent.Prelude.Error.{Error, Result, ok, err, Result-cases}
use metrika_agent.Model.{Fields}
use metrika_agent.Model.Events.{new_with_ctx}
use metrika_agent.Timesync.Ntp.{
  TimeSync, now, set_adjust_bool, emit_event_with_ctx, emit_event, emit_message, tries, tick,
  on_tick, millis,
}
use metrika_agent.Timesync.Ntp.Queried.{Asked, Took, offset, failed, query_ntp-Queried}

-- `t` is no more than 3 s behind the time `right` and no more than 500 ms ahead of it.
pub record Close (right t : ℤ) : Type 0 where
  pub behind : right ≤ℤ t +ℤ pos 3_000_000_000
  pub ahead : t ≤ℤ right +ℤ pos 500_000_000

set_adjust_bool-Close : (c : ℤ) (t : TimeSync) → Close (c +ℤ t.delta) (now c (set_adjust_bool t))
unfolding set_adjust_bool now
set_adjust_bool-Close c t = record {
  behind = ground (
    arith,
    +ℤ_parts c t.delta,
    +ℤ_parts (c +ℤ t.delta) (pos 3_000_000_000),
    +ℤ_parts c (pos 3_000_000_000),
  );
  ahead = ground (arith, +ℤ_parts c t.delta, +ℤ_parts (c +ℤ t.delta) (pos 500_000_000));
}

pub record Kept (t s : TimeSync) : Type 0 where
  pub same_delta : s.delta ≡ t.delta
  pub same_adjust : s.should_adjust ≡ t.should_adjust

emit_event_with_ctx-Kept :
    (new_struct : Fields → Result Fields) (clock : ℤ) (ctx : Option Fields) (name : String)
    (t : TimeSync)
    → Kept t (emit_event_with_ctx new_struct clock ctx name t).1
unfolding emit_event_with_ctx emit_message
emit_event_with_ctx-Kept new_struct clock ctx name t =
    elim (Result-cases (new_with_ctx new_struct ctx name (millis (now clock t)))) [
      | inl (ev, e) ↦ rw (e, emit_event_with_ctx) (record { same_delta = refl; same_adjust = refl })
      | inr (x, e) ↦ rw (e, emit_event_with_ctx) (record { same_delta = refl; same_adjust = refl })
    ]

module _ {W : Type 0} (query : String → W → Result ℤ × W) where
  -- With no answer nothing changes but for the event; with an answer `o` the time that `Now` tells
  -- is close to the server's, `c + o` when the host's clock reads `c`.
  pub data Ticked (t : TimeSync) (w : W) : Option Error × TimeSync × W → Type 0 where
    no_answer :
        {e : Error} {s : TimeSync} {v : W}
        → Asked query t.host (tries t.retries) w (err e) v
        → Kept t s
        → Ticked t w (some e, s, v)
    corrected :
        {o : ℤ} {s : TimeSync} {v : W}
        → Asked query t.host (tries t.retries) w (ok o) v
        → s.delta ≡ o
        → ((c : ℤ) → Close (c +ℤ o) (now c s))
        → Ticked t w (none, s, v)

  adjusted_from :
      (t : TimeSync) (w v : W) (o : ℤ) (s : TimeSync)
      → Asked query t.host (tries t.retries) w (ok o) v
      → s.delta ≡ o
      → Yields (Ticked t w) (done (none, set_adjust_bool s, v))
  unfolding set_adjust_bool
  adjusted_from t w v o s a e = yields (
      corrected a e (λ c.
        subst (λ d. Close (c +ℤ d) (now c (set_adjust_bool s))) e (set_adjust_bool-Close c s)))

  module _ (new_struct : Fields → Result Fields) (describe : Error → String) (clock : ℤ) where
    tick-Ticked :
        (lasterr : Option Error) (t : TimeSync) (w v : W) (r : Result ℤ) (oe : Option Error)
        (s : TimeSync)
        → Asked query t.host (tries t.retries) w r v
        → Took t r (oe, s)
        → Yields (Ticked t w) (tick query new_struct describe clock lasterr oe s v)
    unfolding emit_event
    tick-Ticked lasterr t w v (err e) _ _ a failed =
        yields (no_answer a (emit_event_with_ctx-Kept new_struct clock _ _ t))
    tick-Ticked none t w v (ok o) _ _ a offset =
        adjusted_from t w v o (record t { delta = o }) a refl
    tick-Ticked (some e) t w v (ok o) _ _ a offset =
        adjusted_from t w v o _ a
          (emit_event_with_ctx-Kept new_struct clock none "agent.clock.sync"
            (record t { delta = o })).same_delta

    -- A tick never panics while there is at least one try per query. If no query of the tick is
    -- answered, the offset and the decision to use it stay as they were. If one is, the first
    -- answer is the new offset, and from then on `Now` is at most 3 s behind and at most 500 ms
    -- ahead of the host's clock corrected by it.
    pub on_tick-Ticked :
        (n : ℕ) (lasterr : Option Error) (t : TimeSync) (w : W)
        → t.retries ≡ pos (suc n)
        → Yields (Ticked t w) (on_tick query new_struct describe clock lasterr t w)
    unfolding on_tick
    on_tick-Ticked n lasterr t w h =
        Yields-bind (query_ntp-Queried query n t w h)
          (λ a q. tick-Ticked lasterr t w a.2 q.answer a.0 a.1 q.asked q.took)
