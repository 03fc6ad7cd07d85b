-- ===== src/Watch/Life.antt =====
-- The life of a watch, as a sequence of calls.
use metrika_agent.Prelude.{◌≡◌, refl, true, false, List, [], ◌∷◌, arith}
use metrika_agent.Prelude.Outcome.{
  Outcome, done, ◌>>=◌, Yields, yields, Yields-bind, Yields-weaken, Yields-branch,
}
use metrika_agent.Model.{Message}
use metrika_agent.Emit.{Chan}
use metrika_agent.Watch.{Watch, new_watch, start_unsafe, start, stop, subscribe, emit}

-- The calls that the registry and the watcher make.
pub data Call : Type 0 where
  starts stops : Call
  subscribes : Chan Message → Call
  emits : Message → Call

unfoldable pub call : Call → Watch → Outcome Watch
call starts w = done (start w)
call stops w = stop w
call (subscribes c) w = done (subscribe c w)
call (emits x) w = done (emit x w)

unfoldable pub calls : List Call → Watch → Outcome Watch
calls [] w = done w
calls (k ∷ ks) w = call k w >>= λ v. calls ks v

-- The stop channel is closed only after the watch was started for good, and a watch with a closed
-- channel does not run.
pub record IsSound (w : Watch) : Type 0 where
  pub closed_once : w.stop_closed ≡ true → w.once ≡ true
  pub closed_idle : w.stop_closed ≡ true → w.running ≡ false
  pub running_once : w.running ≡ true → w.once ≡ true

new_watch-IsSound : IsSound new_watch
unfolding new_watch
new_watch-IsSound = record {
  closed_once = λ e. absurd (cc);
  closed_idle = λ e. refl;
  running_once = λ e. absurd (cc);
}

call-IsSound : (k : Call) (w : Watch) → IsSound w → Yields IsSound (call k w)
unfolding call start start_unsafe stop subscribe emit
call-IsSound starts w h = yields (ground arith)
call-IsSound stops w h =
    Yields-branch w.running
      (λ runs.
        Yields-branch w.stop_closed (λ closed. absurd (cc (h.closed_idle closed)))
          (λ still_open. yields (ground arith)))
      (λ idle. yields h)
call-IsSound (subscribes c) w h = yields (ground arith)
call-IsSound (emits x) w h = yields (ground arith)

calls-IsSound : (ks : List Call) (w : Watch) → IsSound w → Yields IsSound (calls ks w)
unfolding calls
calls-IsSound [] w h = yields h
calls-IsSound (k ∷ ks) w h = Yields-bind (call-IsSound k w h) λ v s. calls-IsSound ks v s

-- From a new watch no sequence of starts, stops, subscriptions and emissions panics: the stop
-- channel is never closed twice; and at its end a watch whose channel is closed does not run.
pub calls_never_panic :
    (ks : List Call) → Yields (λ w. w.stop_closed ≡ true → w.running ≡ false) (calls ks new_watch)
calls_never_panic ks =
    Yields-weaken (calls-IsSound ks new_watch new_watch-IsSound) λ w s. s.closed_idle
