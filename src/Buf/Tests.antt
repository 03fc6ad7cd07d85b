-- ===== src/Buf/Tests.antt =====
-- The buffer, the queues and the controller at concrete inputs.
use metrika_agent.Prelude.{◌≡◌, refl, List, [], ◌∷◌, arith}
use metrika_agent.Prelude.Int.{pos, ◌-ℤ◌}
use metrika_agent.Prelude.Outcome.{done, Yields, yields}
use metrika_agent.Buf.Queue
use metrika_agent.Buf.Queue.{Item, Payload, PriorityQueue}
use metrika_agent.Buf.Heap
use metrika_agent.Buf.Multi
use metrika_agent.Buf.Buffer.{PriorityBuffer, insert, get, push_all, pop_loop, new_priority_buffer}
use metrika_agent.Buf.Heap.Order.{IsOrdered}
use metrika_agent.Buf.Heap.Ends.{Pushed, push-Pushed, Popped, pop-Popped}
use metrika_agent.Buf.Multi.Ops.{Lost, pop-Lost}
use metrika_agent.Buf.Expiry.{expired, drain_loop, drain_expired}
use metrika_agent.Buf.Buffer.Spec.{Taken, Holds, insert-Holds, get-Taken, new_priority_buffer-Holds}

abbrev pub late : Item
late = record { priority = 0; timestamp = pos 5; payload = Payload.other }

abbrev pub early : Item
early = record { priority = 0; timestamp = pos 3; payload = Payload.other }

abbrev pub urgent : Item
urgent = record { priority = 2; timestamp = pos 7; payload = Payload.other }

abbrev pub three_items : List Item
three_items = late ∷ urgent ∷ early ∷ []

abbrev pub held_of {ℓ κ} : {A : Type ℓ} {P : A → Type κ} {a : A} → Yields P (done a) → P a
held_of (yields p) = p

abbrev queue : List Item → PriorityQueue
queue xs = record { items = xs; ttl = pos 0 }

abbrev empty_buffer : PriorityBuffer
empty_buffer = record { q = queue [] ∷ queue [] ∷ queue [] ∷ []; ttl = pos 0 }

abbrev pub stocked : PriorityBuffer
stocked = record {
  q = queue (early ∷ late ∷ []) ∷ queue [] ∷ queue (urgent ∷ []) ∷ [];
  ttl = pos 0;
}

new_is_empty : new_priority_buffer (pos 0) ≡ done empty_buffer
unfolding new_priority_buffer Multi.new_priority_queue_n Multi.new_multi_queue Heap.init
    Heap.init_from Queue.new_priority_queue
new_is_empty = refl

insert_three : insert empty_buffer three_items ≡ done stocked
unfolding insert push_all Multi.push Heap.push Heap.up Queue.push Queue.less Queue.swap
insert_three = refl

get_two :
    get stocked 2
    ≡ done
        (urgent ∷ early ∷ [], record stocked { q = queue (late ∷ []) ∷ queue [] ∷ queue [] ∷ [] })
unfolding get pop_loop Multi.pop Multi.pop_from Heap.pop Heap.down Heap.lesser_child Queue.pop
    Queue.less Queue.swap
get_two = refl

empty-Holds : Holds 3 [] empty_buffer
empty-Holds = (held_of (rw new_is_empty at (new_priority_buffer-Holds (pos 0)))).0

pub stocked-Holds : Holds 3 three_items stocked
stocked-Holds =
    (held_of
      (rw insert_three at (insert-Holds 3 empty_buffer three_items [] empty-Holds (omega arith)))).0

insert-Holds_example :
    Yields (λ r. Holds 3 three_items r × (r.ttl ≡ pos 0)) (insert empty_buffer three_items)
insert-Holds_example = insert-Holds 3 empty_buffer three_items [] empty-Holds (omega arith)

get-Taken_example :
    Yields (λ t. Taken 3 2 three_items t.0 t.1.q × (t.1.ttl ≡ pos 0)) (get stocked 2)
get-Taken_example = get-Taken 3 2 stocked three_items stocked-Holds

pop-Lost_example : Yields (Lost stocked.q) (Multi.pop stocked.q)
pop-Lost_example = pop-Lost stocked.q stocked-Holds.valid

abbrev low : PriorityQueue
low = queue (early ∷ late ∷ [])

low-IsOrdered : IsOrdered low.items
low-IsOrdered = stocked-Holds.valid.ordered 0 low refl

push-Pushed_example : Yields (Pushed early low) (Heap.push low early)
push-Pushed_example = push-Pushed low early low-IsOrdered

pop-Popped_example : Yields (Popped low) (Heap.pop low)
pop-Popped_example = pop-Popped low low-IsOrdered (omega arith)

-- Four milliseconds after the earliest item, with 3 ms to live.
abbrev aging : PriorityQueue
aging = record { items = early ∷ late ∷ []; ttl = pos 3_000_000 }

drain_aging : drain_expired (λ k. pos 7_000_000) aging ≡ done (record aging { items = late ∷ [] })
unfolding drain_expired drain_loop expired Heap.pop Heap.down Heap.lesser_child Queue.peek Queue.pop
    Queue.less Queue.swap ◌-ℤ◌
drain_aging = refl
