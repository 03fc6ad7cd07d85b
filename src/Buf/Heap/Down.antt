-- ===== src/Buf/Heap/Down.antt =====
-- The loop `down` of container/heap: its invariant and its end.
use mathlib.Core.List.Perm
use metrika_agent.Prelude.{
  ℕ, zero, suc, ◌+◌, ◌-◌, ◌*◌, ◌<◌, ◌≤◌, ◌≡◌, ◌≢◌, ◌⊎◌, ◌∙◌, refl, true, Perm, List, length,
  get_elem?, ltb, arith,
}
use metrika_agent.Prelude.Int.{◌≤ℤ◌, ltb_ℤ}
use metrika_agent.Prelude.Outcome.{Yields, yields, Yields-bind, Yields-branch, Yields-weaken}
use metrika_agent.Buf.Queue.{PriorityQueue, Item, stamp, Swapped, less_lem, swap-Swapped, stamps}
use metrika_agent.Buf.Heap.{parent, lesser_child, down}
use metrika_agent.Buf.Heap.Order.{OrderedBelow}

-- Below `n`, every edge but those under `i` is in order, and so are the pairs that `i` stands
-- between.
pub record Sinking (n i : ℕ) (xs : List Item) : Type 0 where
  pub bounded : n ≤ length xs
  pub edges : (c : ℕ) → 0 < c → c < n → parent c ≢ i → stamp xs (parent c) ≤ℤ stamp xs c
  pub across : (c : ℕ) → 0 < c → c < n → parent c ≡ i → 0 < i → stamp xs (parent i) ≤ℤ stamp xs c

pub record Sunk (n : ℕ) (q r : PriorityQueue) : Type 0 where
  pub ordered : OrderedBelow n r.items
  pub same : Perm r.items q.items
  pub kept : r.ttl ≡ q.ttl
  pub beyond : (c : ℕ) → n ≤ c → get_elem? r.items c ≡ get_elem? q.items c

-- `j` is the child of `i` below `n` that is no later than the other.
record IsLesser (q : PriorityQueue) (i n j : ℕ) : Type 0 where
  inside : j < n
  child : (j ≡ 2 * i + 1) ⊎ (j ≡ 2 * i + 2)
  least : (c : ℕ) → 0 < c → c < n → parent c ≡ i → stamp q.items j ≤ℤ stamp q.items c

lesser_child-IsLesser :
    (q : PriorityQueue) (i n : ℕ)
    → n ≤ length q.items
    → 2 * i + 1 < n
    → Yields (IsLesser q i n) (lesser_child q i n)
unfolding lesser_child
lesser_child-IsLesser q i n b h =
    Yields-branch (ltb (2 * i + 1 + 1) n)
      (λ two.
        let right : 2 * i + 1 + 1 < length q.items = ground arith in
        rw (less_lem q (2 * i + 1 + 1) (2 * i + 1) right (omega arith)) (
          yields (record {
            inside = ground arith;
            child = ground arith;
            least = λ c p m e.
                let which : (c ≡ 2 * i + 1) ⊎ (c ≡ 2 * i + 1 + 1) = omega arith in ground arith;
          })))
      (λ one. yields (record {
        inside = h;
        child = omega arith;
        least = λ c p m e. let only : c ≡ 2 * i + 1 = ground arith in ground arith;
      }))

sink-Sinking :
    (n i j : ℕ) (q r : PriorityQueue)
    → Sinking n i q.items
    → IsLesser q i n j
    → ltb_ℤ (stamp q.items j) (stamp q.items i) ≡ true
    → Swapped i j q r
    → Sinking n j r.items
sink-Sinking n i j q r v l below s =
    let at = stamps s in
    record {
      bounded = omega (arith, s.size, v.bounded);
      edges = λ c p m ne.
          ground (arith, l.child, at c, at (parent c), v.edges c, v.across j, l.least c);
      across = λ c p m e z. ground (arith, l.child, at c, at (parent j), v.edges c);
    }

pub down_loop :
    (fuel n i : ℕ) (q : PriorityQueue)
    → n - i < fuel
    → Sinking n i q.items
    → Yields (Sunk n q) (down fuel q i n)
unfolding down
down_loop zero n i q f v = absurd (omega arith)
down_loop (suc fuel) n i q f v =
    Yields-branch (ltb (2 * i + 1) n)
      (λ e.
        let left : 2 * i + 1 < n = ground arith in
        Yields-bind (lesser_child-IsLesser q i n v.bounded left) λ j l.
          let j_in : j < length q.items = omega (arith, l.inside, v.bounded) in
          let i_in : i < length q.items = omega (arith, v.bounded) in
          rw (less_lem q j i j_in i_in) (
            Yields-branch (ltb_ℤ (stamp q.items j) (stamp q.items i))
              (λ below. Yields-bind (swap-Swapped q i j i_in j_in) λ r s.
                Yields-weaken
                  (down_loop fuel n j r (omega (arith, l.child))
                    (sink-Sinking n i j q r v l below s))
                  λ t h. record {
                    ordered = h.ordered;
                    same = Perm.trans h.same s.same;
                    kept = h.kept ∙ s.kept;
                    beyond = λ c m.
                        h.beyond c m
                        ∙ s.others c (omega (arith, l.child, l.inside)) (omega (arith, l.inside));
                  })
              (λ settled. yields (record {
                ordered = λ c p m. ground (arith, v.edges c, l.least c);
                same = Perm.rfl;
                kept = refl;
                beyond = λ c m. refl;
              }))))
      (λ leaf. yields (record {
        ordered = λ c p m. ground (arith, v.edges c);
        same = Perm.rfl;
        kept = refl;
        beyond = λ c m. refl;
      }))
