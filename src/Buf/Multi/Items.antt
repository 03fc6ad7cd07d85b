-- ===== src/Buf/Multi/Items.antt =====
-- The items of all the queues, and how they change when one queue is replaced.
use mathlib.Core.Logic.Or
use mathlib.Core.List.{mem-append, not-mem-nil, perm_middle}
use mathlib.Core.List.Perm
use metrika_agent.Prelude.{
  ℕ, zero, suc, ◌+◌, ◌<◌, ◌≡◌, refl, subst, List, [], ◌∷◌, ◌++◌, some, inl, inr, Mem, Perm, length,
  get_elem?, set, ◌==◌, arith, length-append, length-set, get_elem?-set, Bool-cases,
}
use metrika_agent.Buf.Queue.{Item, PriorityQueue}
use metrika_agent.Buf.Heap.Order.{IsOrdered}
use metrika_agent.Buf.Multi.{MultiQueue, len_loop, len, level}

abbrev pub items : MultiQueue → List Item
items [] = []
items (q ∷ m) = q.items ++ items m

len_loop-items : (cnt : ℕ) (m : MultiQueue) → len_loop cnt m ≡ cnt + length (items m)
unfolding len_loop
len_loop-items cnt [] = omega arith
len_loop-items cnt (q ∷ m) =
    omega (arith, len_loop-items (cnt + length q.items) m, length-append q.items (items m))

-- `Len` counts the items of all the queues.
pub len-items : (m : MultiQueue) → len m ≡ length (items m)
unfolding len
len-items m = omega (arith, len_loop-items 0 m)

-- One item more in one queue is one item more in all.
pub set-gains :
    (m : MultiQueue) (i : ℕ) (q r : PriorityQueue) (x : Item)
    → get_elem? m i ≡ some q
    → Perm r.items (x ∷ q.items)
    → Perm (items (set m i r)) (x ∷ items m)
set-gains [] i q r x e p = absurd (cc)
set-gains (head ∷ m) zero q r x e p =
    let same : head ≡ q = cc in rw same (Perm.append_right (items m) p)
set-gains (head ∷ m) (suc i) q r x e p =
    Perm.trans (Perm.append_left head.items (set-gains m i q r x e p))
      (perm_middle head.items (items m))

-- One item less in one queue is one item less in all.
pub set-loses :
    (m : MultiQueue) (i : ℕ) (q r : PriorityQueue) (x : Item)
    → get_elem? m i ≡ some q
    → Perm (x ∷ r.items) q.items
    → Perm (x ∷ items (set m i r)) (items m)
set-loses [] i q r x e p = absurd (cc)
set-loses (head ∷ m) zero q r x e p =
    let same : head ≡ q = cc in rw same (Perm.append_right (items m) p)
set-loses (head ∷ m) (suc i) q r x e p =
    Perm.trans (Perm.symm (perm_middle head.items (items (set m i r))))
      (Perm.append_left head.items (set-loses m i q r x e p))

-- What holds of the items of each queue holds of every item.
pub items-mem {κ} :
    (P : Item → Type κ)
    → ((y : Item) → IsProp (P y))
    → (m : MultiQueue)
    → ((i : ℕ) (q : PriorityQueue) → get_elem? m i ≡ some q → (y : Item) → Mem y q.items → P y)
    → (y : Item) → Mem y (items m)
    → P y
items-mem P prop [] h y mem = absurd (not-mem-nil mem)
items-mem P prop (q ∷ m) h y mem =
    Or.elim (prop y) (mem-append.0 mem) (λ here. h 0 q refl y here)
      (λ there. items-mem P prop m (λ i r e. h (suc i) r e) y there)

-- Empty queues hold no item.
pub items-empty :
    (m : MultiQueue)
    → ((i : ℕ) (q : PriorityQueue) → get_elem? m i ≡ some q → q.items ≡ [])
    → items m ≡ []
items-empty [] h = refl
items-empty (q ∷ m) h = rw (h 0 q refl) (items-empty m (λ i r e. h (suc i) r e))

-- Every queue is in heap order and holds the items of its level only.
pub record IsValid (m : MultiQueue) : Type 0 where
  pub ordered : (i : ℕ) (q : PriorityQueue) → get_elem? m i ≡ some q → IsOrdered q.items
  pub levels :
      (i : ℕ) (q : PriorityQueue)
      → get_elem? m i ≡ some q
      → (y : Item) → Mem y q.items
      → level (length m) y ≡ i

-- After a write, an entry is the one written or the one that was there.
module _ {κ} (P : ℕ → PriorityQueue → Type κ) (m : MultiQueue) (i : ℕ) (r : PriorityQueue) where
  set-entries :
      i < length m
      → P i r
      → ((j : ℕ) (q : PriorityQueue) → get_elem? m j ≡ some q → P j q)
      → (j : ℕ) (q : PriorityQueue) → get_elem? (set m i r) j ≡ some q
      → P j q
  set-entries inside new old j q e = elim (Bool-cases (i == j)) [
    | inl here ↦
        let at : i ≡ j = ground arith in
        let same : r ≡ q = ground (arith, get_elem?-set m i j r) in
        subst (λ k. P k q) at (subst (λ s. P i s) same new)
    | inr there ↦ old j q (ground (arith, get_elem?-set m i j r))
  ]

-- A queue may be replaced by one in heap order whose items are of its level.
pub set-IsValid :
    (m : MultiQueue) (i : ℕ) (r : PriorityQueue)
    → IsValid m
    → i < length m
    → IsOrdered r.items
    → ((y : Item) → Mem y r.items → level (length m) y ≡ i)
    → IsValid (set m i r)
set-IsValid m i r v inside o l = record {
  ordered = set-entries (λ j q. IsOrdered q.items) m i r inside o v.ordered;
  levels = rw (length-set m i r) (
      set-entries (λ j q. (y : Item) → Mem y q.items → level (length m) y ≡ j) m i r inside l
        v.levels);
}

pub empty-IsValid :
    (m : MultiQueue)
    → ((i : ℕ) (q : PriorityQueue) → get_elem? m i ≡ some q → q.items ≡ [])
    → IsValid m
empty-IsValid m h = record {
  ordered = λ i q e c p l. let none_left = h i q e in absurd (grind arith);
  levels = λ i q e y mem. absurd (not-mem-nil (rw (h i q e) at mem));
}
