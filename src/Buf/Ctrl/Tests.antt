-- ===== src/Buf/Ctrl/Tests.antt =====
-- A controller over the priority buffer, with a callback that accepts every batch.
use mathlib.Core.List.Perm
use metrika_agent.Prelude.{◌≡◌, refl, true, none, some, List, [], ◌∷◌, ◌++◌, arith}
use metrika_agent.Prelude.Int.{ℤ, pos}
use metrika_agent.Prelude.Outcome.{Yields}
use metrika_agent.Prelude.Error.{Error, ok}
use metrika_agent.Buf.Queue.{Item}
use metrika_agent.Buf.Buffer.Fill.{priority_buffer, priority_buffer_laws}
use metrika_agent.Buf.Tests.{early, urgent, three_items, stocked, stocked-Holds}
use metrika_agent.Buf.Ctrl.{
  Env, ControllerConf, Controller, buf_insert, buf_drain, buf_insert_and_early_drain, timer,
  cancelled, start,
}
use metrika_agent.Buf.Ctrl.Account.{Delivery, Accounts}
use metrika_agent.Buf.Ctrl.Insert.{InsertResult, buf_insert-Accounts}
use metrika_agent.Buf.Ctrl.Drain.{DrainResult, buf_drain-DrainResult}
use metrika_agent.Buf.Ctrl.Early.{EarlyResult, early-EarlyResult}
use metrika_agent.Buf.Ctrl.Loop.{Ended, start-Ended}

-- The state of the rest of the agent is what the callback has accepted; the clock stands still.
abbrev pub env : Env (List Item)
env = record {
  time_now = λ w. (pos 0, w);
  read_mem_stats = λ w. (0, w);
  publish_state = λ w. 1;
  sync_now = λ w. (pos 0, w);
  remove_callback = λ xs w. (none, w ++ xs);
  new_struct = ok;
  error_text = λ e. "error";
}

pub none_refused : (e : Error) → ¬ (none ≡ some e)
none_refused e h = absurd (cc)

abbrev pub delivery : Delivery env
delivery = record {
  accepted = λ w. w;
  accept_law = λ xs w e. refl;
  refuse_law = λ xs w e h. absurd (none_refused e h);
  time_law = λ w. refl;
  mem_law = λ w. refl;
  sync_law = λ w. refl;
}

abbrev conf_with : ℤ → ControllerConf
conf_with limit = record {
  buf_len_limit = limit;
  buf_drain_freq = pos 5_000_000_000;
  mem_stats_cache_timeout = pos 15_000_000_000;
  max_heap_alloc_bytes = 52428800;
  min_buf_size = pos 2500;
}

abbrev pub conf : ControllerConf
conf = conf_with (pos 2)

abbrev controller_with : ControllerConf → Controller priority_buffer.State (List Item)
controller_with c = record {
  conf = c;
  b = stocked;
  heap_alloc = 0;
  memstats_updated_at = pos 0;
  memstats_drops = 0;
  full_drops = 0;
  world = [];
}

abbrev pub controller : Controller priority_buffer.State (List Item)
controller = controller_with conf

pub stocked-Accounts : Accounts priority_buffer_laws delivery conf three_items controller
stocked-Accounts = record {
  conf_kept = refl;
  rest = three_items;
  held = stocked-Holds;
  same = Perm.rfl;
}

buf_drain-DrainResult_example :
    Yields
      (DrainResult priority_buffer_laws delivery conf three_items)
      (buf_drain priority_buffer env controller)
buf_drain-DrainResult_example =
    buf_drain-DrainResult priority_buffer_laws delivery conf three_items controller (omega arith)
      stocked-Accounts

buf_insert-Accounts_example :
    Yields
      (InsertResult priority_buffer_laws delivery urgent conf three_items 0)
      (buf_insert priority_buffer env urgent controller)
buf_insert-Accounts_example =
    buf_insert-Accounts priority_buffer_laws delivery conf three_items urgent controller
      stocked-Accounts

early-EarlyResult_example :
    Yields
      (EarlyResult priority_buffer_laws delivery early conf three_items)
      (buf_insert_and_early_drain priority_buffer env early controller)
early-EarlyResult_example =
    early-EarlyResult priority_buffer_laws delivery early conf three_items controller (omega arith)
      stocked-Accounts

start-Ended_example :
    Yields
      (Ended priority_buffer_laws delivery 2 true conf three_items controller)
      (start priority_buffer env (timer ∷ cancelled ∷ []) controller)
start-Ended_example =
    start-Ended priority_buffer_laws delivery (timer ∷ cancelled ∷ []) conf three_items controller
      (omega arith) stocked-Accounts
