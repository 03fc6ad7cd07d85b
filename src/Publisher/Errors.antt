-- ===== src/Publisher/Errors.antt =====
-- What the publisher's operations do to the account of the items and to its kept error.
use Prim.Native.String.{String}
use metrika_agent.Prelude.{◌≡◌, refl, true, none, some, List, ◌∷◌, ◌++◌}
use metrika_agent.Prelude.Int.{pos, ◌≤ℤ◌}
use metrika_agent.Prelude.Outcome.{done, Yields, yields, Yields-bind, Yields-branch}
use metrika_agent.Prelude.Error.{Error, heap_alloc_limit}
use metrika_agent.Buf.Queue.{Item}
use metrika_agent.Buf.Api.{Buffer, Reliable}
use metrika_agent.Buf.Ctrl.{Env, ControllerConf}
use metrika_agent.Buf.Ctrl.Account.{Delivery, Accounts}
use metrika_agent.Buf.Ctrl.Drain.{Grown, IsNetError, buf_drain-DrainResult, emit_event-Grown}
use metrika_agent.Publisher.{Publisher, note_error, force_send_agent_up, agent_up_ctx}

module _ {B : Buffer} (R : Reliable B) {W : Type 0} {env : Env W} (D : Delivery env) where
  -- The message was refused for the memory limit, or its item is in the account, with the event of
  -- the call's error at most besides; and the error that is kept is none exactly if the call had
  -- none.
  pub data Handled (item : Item) (conf : ControllerConf) (total : List Item)
      (p r : Publisher B.State W) : Type 0 where
    accepted :
        r.last_err ≡ none
        → Accounts R D conf (item ∷ total) r.buf_ctrl
        → Handled item conf total p r
    refused :
        r.last_err ≡ note_error B env (some heap_alloc_limit) p.last_err
        → Accounts R D conf total r.buf_ctrl
        → Handled item conf total p r
    not_delivered :
        (e : Error)
        → r.last_err ≡ note_error B env (some e) p.last_err
        → Grown R D (IsNetError R D e) conf (item ∷ total) (some e, r.buf_ctrl)
        → Handled item conf total p r

  -- With a limit of one at least, and if the buffer and the callback keep their promises, the
  -- sending of the startup event ends without a panic, and a later call does nothing.
  pub force_send_once :
      (uptime later : String) (conf : ControllerConf) (total : List Item) (p : Publisher B.State W)
      → pos 1 ≤ℤ conf.buf_len_limit
      → Accounts R D conf total p.buf_ctrl
      → Yields
          (λ r. (r.once ≡ true) × (force_send_agent_up B env later r ≡ done r))
          (force_send_agent_up B env uptime p)
  unfolding force_send_agent_up
  force_send_once uptime later conf total p l a =
      Yields-branch p.once (λ sent. yields (sent, rw sent))
        (λ fresh.
          Yields-bind
            (emit_event-Grown R D conf total (agent_up_ctx B env uptime p) "agent.up" p.buf_ctrl a)
            λ t g.
              Yields-bind (buf_drain-DrainResult R D conf (g.new ++ total) t.1 l g.account)
                λ u r. yields (refl, refl))
