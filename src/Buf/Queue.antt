-- ===== src/Buf/Queue.antt =====
-- internal/pkg/buf/queue.go: items, and the methods of `priorityQueue` that `container/heap` calls.
-- A nil slice and an empty slice are the same list.
use mathlib.Core.List.Perm
use metrika_agent.Prelude.{
  ℕ, ◌-◌, ◌<◌, ◌≡◌, refl, ◌∙◌, ◌≢◌, Bool, Option, none, some, List, [], ◌∷◌, ◌++◌, Perm, length,
  get_elem?, set, take, ◌==◌, if◌then◌else◌, get_elem?_total, lt_of_get_elem?, get_elem?-set,
  length-set, set-perm, arith,
}
use metrika_agent.Prelude.Int.{ℤ, pos, ltb_ℤ}
use metrika_agent.Prelude.Outcome.{Outcome, done, or_panic, ◌>>=◌, Yields, yields}
use metrika_agent.Model.{Message}

-- What stands behind `Data interface{}`.
pub data Payload : Type 0 where
  message : Message → Payload
  other : Payload

-- `Priority` is a uint8, `Timestamp` an int64 of milliseconds.
pub record Item : Type 0 where
  pub priority : ℕ
  pub timestamp : ℤ
  pub payload : Payload

pub record PriorityQueue : Type 0 where
  pub items : List Item
  pub ttl : ℤ

abbrev pub len : PriorityQueue → ℕ
len q = length q.items

unfoldable pub less : PriorityQueue → ℕ → ℕ → Outcome Bool
less q i j = do
  a ← or_panic (get_elem? q.items i)
  b ← or_panic (get_elem? q.items j)
  done (ltb_ℤ a.timestamp b.timestamp)

unfoldable pub swap : PriorityQueue → ℕ → ℕ → Outcome PriorityQueue
swap q i j = do
  b ← or_panic (get_elem? q.items j)
  a ← or_panic (get_elem? q.items i)
  done (record q { items = set (set q.items i b) j a })

unfoldable pub peek : PriorityQueue → Option Item
peek q = get_elem? q.items 0

unfoldable pub push : PriorityQueue → Item → PriorityQueue
push q x = record q { items = q.items ++ x ∷ [] }

-- `Pop` of the interface: it takes the last entry off. `none` is nil.
unfoldable pub pop : PriorityQueue → Outcome (Option Item × PriorityQueue)
pop q =
    let n = len q in
    let taken : Outcome (Option Item × PriorityQueue) = do
      x ← or_panic (get_elem? q.items (n - 1))
      done (some x, record q { items = take (n - 1) q.items })
    in if n == 0 then done (none, q) else taken

unfoldable pub new_priority_queue : ℤ → PriorityQueue
new_priority_queue ttl = record { items = []; ttl = ttl }

-- The timestamp at an index, for statements; 0 out of range.
abbrev pub stamp_of : Option Item → ℤ
stamp_of none = pos 0
stamp_of (some x) = x.timestamp

abbrev pub stamp : List Item → ℕ → ℤ
stamp xs i = stamp_of (get_elem? xs i)

-- What exchanging two entries does.
pub record Swapped (i j : ℕ) (q r : PriorityQueue) : Type 0 where
  pub size : length r.items ≡ length q.items
  pub same : Perm r.items q.items
  pub first : get_elem? r.items i ≡ get_elem? q.items j
  pub second : get_elem? r.items j ≡ get_elem? q.items i
  pub others : (c : ℕ) → c ≢ i → c ≢ j → get_elem? r.items c ≡ get_elem? q.items c
  pub kept : r.ttl ≡ q.ttl

pub less_lem :
    (q : PriorityQueue) (i j : ℕ)
    → i < len q
    → j < len q
    → less q i j ≡ done (ltb_ℤ (stamp q.items i) (stamp q.items j))
unfolding less
less_lem q i j hi hj =
    let (a, ea) = get_elem?_total q.items i hi in
    let (b, eb) = get_elem?_total q.items j hj in ground arith

swap_entries :
    (q : PriorityQueue) (i j : ℕ) (a b : Item)
    → get_elem? q.items i ≡ some a
    → get_elem? q.items j ≡ some b
    → Swapped i j q (record q { items = set (set q.items i b) j a })
swap_entries q i j a b ea eb =
    let hi = lt_of_get_elem? q.items i ea in
    let hj = lt_of_get_elem? q.items j eb in
    let ys = set q.items i b in
    let hj' : j < length ys = rw (length-set q.items i b) hj in
    let ej : get_elem? ys j ≡ some b = ground (arith, get_elem?-set q.items i j b) in
    record {
      size = length-set ys j a ∙ length-set q.items i b;
      same = Perm.cons_inv (Perm.trans (set-perm ys j a ej) (set-perm q.items i b ea));
      first = ground (arith, get_elem?-set ys j i a, get_elem?-set q.items i i b);
      second = ground (arith, get_elem?-set ys j j a);
      others = λ c ci cj. ground (arith, get_elem?-set ys j c a, get_elem?-set q.items i c b);
      kept = refl;
    }

pub swap-Swapped :
    (q : PriorityQueue) (i j : ℕ) → i < len q → j < len q → Yields (Swapped i j q) (swap q i j)
unfolding swap
swap-Swapped q i j hi hj =
    let (a, ea) = get_elem?_total q.items i hi in
    let (b, eb) = get_elem?_total q.items j hj in
    rw (eb, ea) (yields (swap_entries q i j a b ea eb))

-- The timestamps after an exchange.
pub stamps :
    {i j : ℕ} {q r : PriorityQueue}
    → Swapped i j q r
    → (c : ℕ)
    → stamp r.items c
      ≡ (if c == i then stamp q.items j else if c == j then stamp q.items i else stamp q.items c)
stamps {i} {j} {q} {r} s c = ground (arith, s.others c, s.first, s.second)
