-- ===== src/Buf/Multi/Ops.antt =====
-- What `Push` and `Pop` of `multiQueue` do to valid queues.
use native.Mathlib.Bridge.{le_prop}
use native.Mathlib.Nat.{ℕ_set}
use native.Mathlib.Decide.{dec_lt, ℕ_discrete}
use mathlib.Core.HLevel.{Π_prop, ×_prop}
use mathlib.Core.Logic.Or
use mathlib.Core.List.{mem-cons, mem-cons_self, mem-cons_of_mem, not-mem-nil}
use mathlib.Core.List.Perm
use metrika_agent.Prelude.{
  ℕ, zero, suc, ◌<◌, ◌≤◌, ◌≡◌, refl, sym, ◌∙◌, [], ◌∷◌, Option, none, some, Mem, Perm, length,
  get_elem?, ◌==◌, arith, length-set, get_elem?_total, lt_of_get_elem?, true,
}
use metrika_agent.Prelude.Int.{◌≤ℤ◌}
use metrika_agent.Prelude.Outcome.{Yields, yields, Yields-bind, Yields-branch}
use metrika_agent.Buf.Queue.{Item, PriorityQueue}
use metrika_agent.Buf.Heap.Ends.{push-Pushed, pop-Popped}
use metrika_agent.Buf.Multi.{MultiQueue, level, push, pop_from, pop}
use metrika_agent.Buf.Multi.Items.{
  items, IsValid, set-IsValid, set-gains, set-loses, items-mem, items-empty,
}

-- Among `n` queues `x` may be taken out before `y`: its level is higher, or it is the same and `x`
-- is no later.
abbrev pub Before : ℕ → Item → Item → Type 0
Before n x y = (level n y ≤ level n x) × (level n x ≡ level n y → x.timestamp ≤ℤ y.timestamp)

pub Before-prop : (n : ℕ) (x y : Item) → IsProp (Before n x y)
Before-prop n x y = ×_prop le_prop (Π_prop λ e. le_prop)

pub record Gained (x : Item) (m m' : MultiQueue) : Type 0 where
  pub valid : IsValid m'
  pub same : Perm (items m') (x ∷ items m)
  pub size : length m' ≡ length m

-- On valid queues, at least one, `Push` ends without a panic, and the queues are valid and hold the
-- new item and all others.
pub push-Gained :
    (m : MultiQueue) (x : Item) → IsValid m → 0 < length m → Yields (Gained x m) (push m x)
unfolding push
push-Gained m x v some_queue =
    let i = level (length m) x in
    let inside : i < length m = ground arith in
    let (q, e) = get_elem?_total m i inside in
    rw e (
      Yields-bind (push-Pushed q x (v.ordered i q e)) λ r p. yields (record {
        valid = set-IsValid m i r v inside p.ordered λ y mem.
            Or.elim (ℕ_set _ _) (mem-cons.0 ((Perm.mem_iff p.same).0 mem)) (λ here. rw here)
              (λ there. v.levels i q e y there);
        same = set-gains m i q r x e p.same;
        size = length-set m i r;
      }))

-- An item is taken out that may go before every other, or there is none.
pub data Lost (m : MultiQueue) (t : Option Item × MultiQueue) : Type 0 where
  nothing : t.0 ≡ none → t.1 ≡ m → items m ≡ [] → Lost m t
  item :
      (x : Item)
      → t.0 ≡ some x
      → IsValid t.1
      → Perm (x ∷ items t.1) (items m)
      → ((y : Item) → Mem y (items m) → Before (length m) x y)
      → length t.1 ≡ length m
      → Lost m t

-- The queues from `k` on are empty.
abbrev EmptyFrom : ℕ → MultiQueue → Type 0
EmptyFrom k m = (i : ℕ) (q : PriorityQueue) → k ≤ i → get_elem? m i ≡ some q → q.items ≡ []

EmptyFrom-down :
    (k : ℕ) (m : MultiQueue) (q : PriorityQueue)
    → EmptyFrom (suc k) m
    → get_elem? m k ≡ some q
    → (length q.items == 0) ≡ true
    → EmptyFrom k m
EmptyFrom-down k m q empty e z i r le er = elim (ℕ_discrete k i) [
  | yes here ↦ let same : q ≡ r = ground arith in rw (← same) (grind arith)
  | no above ↦ empty i r (omega arith) er
]

-- The earliest item of the highest queue that is not empty may go before all.
highest-Before :
    (k : ℕ) (m : MultiQueue) (q : PriorityQueue) (x : Item)
    → IsValid m
    → EmptyFrom (suc k) m
    → get_elem? m k ≡ some q
    → level (length m) x ≡ k
    → ((y : Item) → Mem y q.items → x.timestamp ≤ℤ y.timestamp)
    → (y : Item) → Mem y (items m)
    → Before (length m) x y
highest-Before k m q x v empty e at_k early =
    items-mem (Before (length m) x) (Before-prop (length m) x) m λ i r er y mem.
      let at_i : level (length m) y ≡ i = v.levels i r er y mem in
      elim (dec_lt k i) [
        | yes above ↦ absurd (not-mem-nil (rw (empty i r above er) at mem))
        | no below ↦ (
          rw (at_i, at_k) (omega arith),
          λ level_eq.
              let here : k ≡ i = sym at_k ∙ level_eq ∙ at_i in
              let same : r ≡ q = ground arith in early y (rw same at mem),
        )
      ]

pop_from-Lost :
    (k : ℕ) (m : MultiQueue)
    → IsValid m
    → k ≤ length m
    → EmptyFrom k m
    → Yields (Lost m) (pop_from k m)
unfolding pop_from
pop_from-Lost zero m v h empty =
    yields (nothing refl refl (items-empty m λ i q e. empty i q (omega arith) e))
pop_from-Lost (suc k) m v h empty =
    let (q, e) = get_elem?_total m k (omega arith) in
    rw e (
      Yields-branch (length q.items == 0)
        (λ z. pop_from-Lost k m v (omega arith) (EmptyFrom-down k m q empty e z))
        (λ nz. Yields-bind (pop-Popped q (v.ordered k q e) (ground arith)) λ t p. yields (
          item p.item p.taken
            (set-IsValid m k t.1 v (omega arith) p.ordered
              λ y mem. v.levels k q e y ((Perm.mem_iff p.same).0 (mem-cons_of_mem p.item mem)))
            (set-loses m k q t.1 p.item e p.same)
            (highest-Before k m q p.item v empty e
              (v.levels k q e p.item ((Perm.mem_iff p.same).0 (mem-cons_self))) p.earliest)
            (length-set m k t.1))))

-- On valid queues `Pop` ends without a panic. It returns nothing, changes nothing and finds all
-- queues empty; or it takes one item out that no other goes before: none is in a higher queue, and
-- none in the same queue is earlier. The queues stay valid and the other items are kept.
pub pop-Lost : (m : MultiQueue) → IsValid m → Yields (Lost m) (pop m)
unfolding pop
pop-Lost m v =
    pop_from-Lost (length m) m v (omega arith)
      λ i q le e. absurd (omega (arith, lt_of_get_elem? m i e))
