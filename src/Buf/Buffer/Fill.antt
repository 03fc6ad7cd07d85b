-- ===== src/Buf/Buffer/Fill.antt =====
-- `PriorityBuffer` as an implementation of `Buffer`.
use mathlib.Core.List.Perm
use metrika_agent.Prelude.{refl, none, arith}
use metrika_agent.Prelude.Outcome.{done, ◌>>=◌, yields, Yields-bind}
use metrika_agent.Prelude.Error.{ok}
use metrika_agent.Buf.Api.{Buffer, Reliable}
use metrika_agent.Buf.Multi.Items.{items}
use metrika_agent.Buf.Buffer.{PriorityBuffer, insert, get, len}
use metrika_agent.Buf.Buffer.Spec.{Holds, insert-Holds, get-Taken, len-Holds}

-- `Insert` and `Get` return nil errors.
abbrev pub priority_buffer : Buffer
priority_buffer = record {
  State = PriorityBuffer;
  insert = λ p xs. insert p xs >>= λ r. done (none, r);
  get = λ p n. get p n >>= λ t. done (ok t.0, t.1);
  len = len;
}

-- With its three queues the priority buffer is a reliable buffer.
abbrev pub priority_buffer_laws : Reliable priority_buffer
priority_buffer_laws = record {
  Holds = λ p xs. Holds 3 xs p;
  len_law = λ p xs h. len-Holds 3 p xs h;
  insert_law = λ p xs new h.
      Yields-bind (insert-Holds 3 p new xs h (omega arith)) λ r held. yields (refl, held.0);
  get_law = λ p xs n h. Yields-bind (get-Taken 3 n p xs h) λ t (taken, kept). yields (record {
    batch = t.0;
    rest = items t.1.q;
    returned = refl;
    same = taken.same;
    size = taken.size;
    left = record { valid = taken.valid; queues = taken.queues; same = Perm.rfl };
  });
}
