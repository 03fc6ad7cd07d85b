-- ===== src/Buf/Buffer/Spec.antt =====
-- The abstract view of the priority buffer: the multiset of its items, and batches in order.
use mathlib.Core.List.{
  Pairwise, append-nil, append_assoc, mem-cons_of_mem, mem-cons, mem-append_left, mem-append_right,
  not-mem-nil, perm_middle,
}
use mathlib.Core.Logic.Or
use mathlib.Core.List.Perm
use metrika_agent.Prelude.{
  ℕ, zero, suc, ◌+◌, ◌<◌, ◌≡◌, refl, ap, sym, ◌∙◌, List, [], ◌∷◌, ◌++◌, Option, none, some, Mem,
  Perm, length, get_elem?, arith, length-append, length-perm,
}
use metrika_agent.Prelude.Int.{ℤ}
use metrika_agent.Prelude.Outcome.{done, Yields, yields, Yields-bind, Yields-weaken}
use metrika_agent.Buf.Queue.{Item, PriorityQueue, new_priority_queue}
use metrika_agent.Buf.Heap
use metrika_agent.Buf.Multi
use metrika_agent.Buf.Multi.{MultiQueue, min, new_priority_queue_n, new_multi_queue}
use metrika_agent.Buf.Multi.Items.{items, empty-IsValid}
use metrika_agent.Buf.Multi.Ops.{Before, Before-prop, push-Gained, Lost, pop-Lost}
use metrika_agent.Buf.Buffer.{
  PriorityBuffer, ItemBatch, push_all, insert, pop_loop, get, len_loop, len, new_priority_buffer,
}

-- The buffer holds exactly the items of `xs`, in `n` valid queues, with its own time to live.
pub record Holds (n : ℕ) (xs : List Item) (p : PriorityBuffer) : Type 0 where
  pub valid : Multi.Items.IsValid p.q
  pub queues : length p.q ≡ n
  pub same : Perm (items p.q) xs

push_all-holds :
    (n : ℕ) (m : MultiQueue) (xs ys : List Item)
    → Multi.Items.IsValid m
    → length m ≡ n
    → 0 < n
    → Perm (items m) ys
    → Yields
        (λ m'. Multi.Items.IsValid m' × (length m' ≡ n) × Perm (items m') (xs ++ ys))
        (push_all m xs)
unfolding push_all
push_all-holds n m [] ys v size pos_n p = yields (v, size, p)
push_all-holds n m (x ∷ xs) ys v size pos_n p =
    Yields-bind (push-Gained m x v (omega arith)) λ m' g.
      Yields-weaken
        (push_all-holds n m' xs (x ∷ ys) g.valid (g.size ∙ size) pos_n
          (Perm.trans g.same (Perm.cons x p)))
        λ m'' h. (h.0, h.1, Perm.trans h.2 (perm_middle xs ys))

-- Into a buffer of `n` valid queues, at least one, that holds the items `ys`, `Insert` of `xs` ends
-- without a panic, and the buffer then holds `xs` and `ys` together, in `n` valid queues, with the
-- same time to live.
pub insert-Holds :
    (n : ℕ) (p : PriorityBuffer) (xs ys : List Item)
    → Holds n ys p
    → 0 < n
    → Yields (λ r. Holds n (xs ++ ys) r × (r.ttl ≡ p.ttl)) (insert p xs)
unfolding insert
insert-Holds n p xs ys h pos_n =
    Yields-bind (push_all-holds n p.q xs ys h.valid h.queues pos_n h.same)
      λ m g. yields (record { valid = g.0; queues = g.1; same = g.2 }, refl)

-- A batch and what is left: the batch has as many items as were asked for and are there, it is in
-- order, and nothing that is left should have gone before it.
pub record Taken (n count : ℕ) (xs batch : List Item) (m : MultiQueue) : Type 0 where
  pub valid : Multi.Items.IsValid m
  pub queues : length m ≡ n
  pub same : Perm (batch ++ items m) xs
  pub size : length batch ≡ min count (length xs)
  pub sorted : Pairwise (Before n) batch
  pub first : (x : Item) → Mem x batch → (y : Item) → Mem y (items m) → Before n x y

Taken-none :
    (n count : ℕ) (m : MultiQueue)
    → Multi.Items.IsValid m
    → length m ≡ n
    → min count (length (items m)) ≡ 0
    → Taken n count (items m) [] m
Taken-none n count m v size z = record {
  valid = v;
  queues = size;
  same = Perm.rfl;
  size = sym z;
  sorted = Pairwise.nil;
  first = λ x mem. absurd (not-mem-nil mem);
}

-- An item that may go first, and then a batch taken from the rest.
Taken-some :
    (n count : ℕ) (xs rest batch : List Item) (x : Item) (m : MultiQueue)
    → Perm (x ∷ rest) xs
    → ((y : Item) → Mem y xs → Before n x y)
    → Taken n count rest batch m
    → Taken n (suc count) xs (x ∷ batch) m
Taken-some n count xs rest batch x m p before t =
    let all : Perm (x ∷ batch ++ items m) xs = Perm.trans (Perm.cons x t.same) p in
    record {
      valid = t.valid;
      queues = t.queues;
      same = all;
      size = ground (arith, t.size, length-perm p);
      sorted =
          Pairwise.cons
            (λ y mem.
              before y ((Perm.mem_iff all).0 (mem-cons_of_mem x (mem-append_left (items m) mem))))
            t.sorted;
      first = λ y mem z later.
          Or.elim (Before-prop n y z) (mem-cons.0 mem)
            (λ here.
              rw here (
                before z ((Perm.mem_iff all).0 (mem-cons_of_mem x (mem-append_right batch later)))))
            (λ there. t.first y there z later);
    }

-- What the loop returns, from `res` on.
abbrev LoopTaken : ℕ → ℕ → List Item → ItemBatch → ItemBatch × MultiQueue → Type 0
LoopTaken n count xs res t = (batch : List Item) × (t.0 ≡ res ++ batch) × Taken n count xs batch t.1

pop_loop-step :
    (count n : ℕ) (m : MultiQueue) (res : ItemBatch) (t : Option Item × MultiQueue)
    → Multi.Items.IsValid m
    → length m ≡ n
    → ((r : MultiQueue) (out : ItemBatch)
        → Multi.Items.IsValid r
        → length r ≡ n
        → Yields (LoopTaken n count (items r) out) (pop_loop count r out))
    → Lost m t
    → Yields
        (LoopTaken n (suc count) (items m) res)
        (elim t.0 [ none ↦ done (res, t.1) | some x ↦ pop_loop count t.1 (res ++ x ∷ []) ])
pop_loop-step count n m res t v size ih (Lost.nothing e same empty) =
    rw (e, same)
      (yields
        ([], sym (append-nil res), Taken-none n (suc count) m v size (rw empty (ground arith))))
pop_loop-step count n m res t v size ih (Lost.item x e valid p before kept) = rw e (
    Yields-weaken (ih t.1 (res ++ x ∷ []) valid (kept ∙ size)) λ r (batch, out, taken). (
      x ∷ batch,
      out ∙ append_assoc res (x ∷ []) batch,
      Taken-some n count (items m) (items t.1) batch x r.1 p (rw size at before) taken,
    ))

pop_loop-Taken :
    (count n : ℕ) (m : MultiQueue) (res : ItemBatch)
    → Multi.Items.IsValid m
    → length m ≡ n
    → Yields (LoopTaken n count (items m) res) (pop_loop count m res)
unfolding pop_loop
pop_loop-Taken zero n m res v size =
    yields ([], sym (append-nil res), Taken-none n zero m v size (ground arith))
pop_loop-Taken (suc count) n m res v size = Yields-bind (pop-Lost m v) λ t lost.
    pop_loop-step count n m res t v size
      (λ r out valid kept. pop_loop-Taken count n r out valid kept) lost

-- From a buffer of `n` valid queues that holds the items `xs`, `Get` of `count` ends without a
-- panic. The batch has `count` items, or all if there are fewer; batch and remaining items together
-- are `xs`; the batch is in order (higher queue first, then earlier timestamp), nothing that is
-- left should have gone before an item of it, and the queues stay valid.
pub get-Taken :
    (n count : ℕ) (p : PriorityBuffer) (xs : List Item)
    → Holds n xs p
    → Yields (λ t. Taken n count xs t.0 t.1.q × (t.1.ttl ≡ p.ttl)) (get p count)
unfolding get
get-Taken n count p xs h =
    Yields-bind (pop_loop-Taken count n p.q [] h.valid h.queues) λ t (batch, out, taken). yields (
      record {
        valid = taken.valid;
        queues = taken.queues;
        same = rw out (Perm.trans taken.same h.same);
        size = rw out (taken.size ∙ ap (min count) (length-perm h.same));
        sorted = rw out taken.sorted;
        first = rw out taken.first;
      },
      refl,
    )

len_loop-items : (total : ℕ) (m : MultiQueue) → len_loop total m ≡ total + length (items m)
unfolding len_loop
len_loop-items total [] = omega arith
len_loop-items total (q ∷ m) =
    omega (arith, len_loop-items (total + length q.items) m, length-append q.items (items m))

-- `Len` of a buffer of valid queues is the number of items that it holds.
pub len-Holds : (n : ℕ) (p : PriorityBuffer) (xs : List Item) → Holds n xs p → len p ≡ length xs
unfolding len
len-Holds n p xs h = omega (arith, len_loop-items 0 p.q, length-perm h.same)

three_new :
    (ttl : ℤ) (i : ℕ) (q : PriorityQueue)
    → let new = new_priority_queue ttl in get_elem? (new ∷ new ∷ new ∷ []) i ≡ some q → q.items ≡ []
unfolding new_priority_queue
three_new ttl zero q e = ground arith
three_new ttl (suc zero) q e = ground arith
three_new ttl (suc (suc zero)) q e = ground arith
three_new ttl (suc (suc (suc i))) q e = absurd (cc)

-- `NewPriorityBuffer` ends without a panic, in a buffer of three valid queues that holds no items
-- and has the given time to live.
pub new_priority_buffer-Holds :
    (ttl : ℤ) → Yields (λ p. Holds 3 [] p × (p.ttl ≡ ttl)) (new_priority_buffer ttl)
unfolding new_priority_buffer new_priority_queue_n new_multi_queue Heap.init Heap.init_from
    new_priority_queue
new_priority_buffer-Holds ttl =
    yields
      (record { valid = empty-IsValid _ (three_new ttl); queues = refl; same = Perm.nil }, refl)
