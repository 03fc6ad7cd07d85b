-- ===== src/Buf/Expiry/Fresh.antt =====
-- What `DrainExpired` takes out and what it leaves.
use mathlib.Core.List.Perm
use mathlib.Core.List.{not-mem-nil}
use metrika_agent.Prelude.{
  ℕ, zero, suc, ◌+◌, ◌<◌, ◌≡◌, refl, ◌∙◌, true, false, ◌&&◌, ◌==◌, Option, List, [], ◌∷◌, ◌++◌, Mem,
  Perm, length, get_elem?_total, get_elem?-mem, subst, arith, Bool-cases, inl, inr, length-perm,
}
use metrika_agent.Prelude.Int.{ℤ, pos, negsuc, ltb_ℤ, ◌-ℤ◌, -ℤ_parts, ◌≤ℤ◌}
use metrika_agent.Prelude.Outcome.{Yields, yields, Yields-bind, Yields-weaken, Yields-branch}
use metrika_agent.Buf.Queue
use metrika_agent.Buf.Queue.{Item, PriorityQueue}
use metrika_agent.Buf.Heap.Order.{IsOrdered}
use metrika_agent.Buf.Heap.Ends.{Popped, pop-Popped, first-earliest}
use metrika_agent.Buf.Expiry.{nanos, saturate, expired, drain_loop, drain_expired}

nanos-mono : (a b : ℤ) → a ≤ℤ b → nanos a ≤ℤ nanos b
nanos-mono (pos n) (pos m) h = omega arith
nanos-mono (pos n) (negsuc m) h = absurd (omega arith)
nanos-mono (negsuc n) (pos m) h = omega arith
nanos-mono (negsuc n) (negsuc m) h = omega arith

sub-mono : (now a b : ℤ) → a ≤ℤ b → now -ℤ b ≤ℤ now -ℤ a
sub-mono now a b h = omega (arith, -ℤ_parts now a, -ℤ_parts now b)

saturate-mono : (a b : ℤ) → a ≤ℤ b → saturate a ≤ℤ saturate b
saturate-mono a b h = ground arith

old_mono :
    (ttl a b : ℤ)
    → a ≤ℤ b
    → (ltb_ℤ (pos 0) ttl && ltb_ℤ ttl b) ≡ false
    → (ltb_ℤ (pos 0) ttl && ltb_ℤ ttl a) ≡ false
old_mono ttl a b h e = ground arith

-- What is no earlier than an item that is not expired is not expired.
expired_mono :
    (ttl now : ℤ) (x y : Item)
    → x.timestamp ≤ℤ y.timestamp
    → expired ttl now x ≡ false
    → expired ttl now y ≡ false
unfolding expired
expired_mono ttl now x y h e =
    let b = now -ℤ nanos y.timestamp in
    let a = now -ℤ nanos x.timestamp in
    old_mono ttl (saturate b) (saturate a)
      (saturate-mono b a (
        sub-mono now (nanos x.timestamp) (nanos y.timestamp)
          (nanos-mono x.timestamp y.timestamp h)))
      e

-- Each item was expired when it was taken out: the first by the k-th reading of the clock, the next
-- by the one after.
abbrev pub AllExpired : ℤ → (ℕ → ℤ) → ℕ → List Item → Type 0
AllExpired ttl clock k [] = Unit
AllExpired ttl clock k (x ∷ xs) = (expired ttl (clock k) x ≡ true) × AllExpired ttl clock (suc k) xs

-- What has been taken out, and what is left.
pub record Purged (clock : ℕ → ℤ) (k : ℕ) (q r : PriorityQueue) : Type 0 where
  pub dropped : List Item
  pub same : Perm (dropped ++ r.items) q.items
  pub ordered : IsOrdered r.items
  pub kept_ttl : r.ttl ≡ q.ttl
  pub old : AllExpired q.ttl clock k dropped
  pub fresh : (y : Item) → Mem y r.items → expired q.ttl (clock (k + length dropped)) y ≡ false

unchanged :
    (clock : ℕ → ℤ) (k : ℕ) (q : PriorityQueue)
    → IsOrdered q.items
    → ((y : Item) → Mem y q.items → expired q.ttl (clock (k + 0)) y ≡ false)
    → Purged clock k q q
unchanged clock k q h f = record {
  dropped = [];
  same = Perm.rfl;
  ordered = h;
  kept_ttl = refl;
  old = tt;
  fresh = f;
}

none_left : (q : PriorityQueue) → (length q.items == 0) ≡ true → q.items ≡ []
none_left q z = grind arith

zero_more : (k : ℕ) → k + 0 ≡ k
zero_more k = omega arith

-- The item that was taken out is no later than the one that was looked at, so it is expired too.
taken-expired :
    (ttl now : ℤ) (x y : Item)
    → x.timestamp ≤ℤ y.timestamp
    → expired ttl now y ≡ true
    → expired ttl now x ≡ true
taken-expired ttl now x y h e = elim (Bool-cases (expired ttl now x)) [
  | inl old ↦ old
  | inr young ↦ absurd (cc (expired_mono ttl now x y h young))
]

after_pop :
    (clock : ℕ → ℤ) (k : ℕ) (q : PriorityQueue) (x : Item) (t : Option Item × PriorityQueue)
    → Mem x q.items
    → expired q.ttl (clock k) x ≡ true
    → (p : Popped q t) → (r : PriorityQueue) → Purged clock (suc k) t.1 r
    → Purged clock k q r
after_pop clock k q x t mem gone p r d =
    let later : suc k + length d.dropped ≡ k + suc (length d.dropped) = omega arith in
    record {
      dropped = p.item ∷ d.dropped;
      same = Perm.trans (Perm.cons p.item d.same) p.same;
      ordered = d.ordered;
      kept_ttl = d.kept_ttl ∙ p.kept;
      old = (
        taken-expired q.ttl (clock k) p.item x (p.earliest x mem) gone,
        subst (λ l. AllExpired l clock (suc k) d.dropped) p.kept d.old,
      );
      fresh = λ y m.
          subst (λ l. expired l (clock (k + suc (length d.dropped))) y ≡ false) p.kept
            (rw later at (d.fresh y m));
    }

drain_loop-Purged :
    (fuel : ℕ) (clock : ℕ → ℤ) (k : ℕ) (q : PriorityQueue)
    → length q.items < fuel
    → IsOrdered q.items
    → Yields (Purged clock k q) (drain_loop fuel clock k q)
unfolding drain_loop Queue.peek
drain_loop-Purged zero clock k q f h = absurd (omega arith)
drain_loop-Purged (suc fuel) clock k q f h =
    Yields-branch (length q.items == 0)
      (λ z.
        yields (unchanged clock k q h λ y mem. absurd (not-mem-nil (rw (none_left q z) at mem))))
      (λ nz.
        let (x, first) = get_elem?_total q.items 0 (ground arith) in
        rw first (
          Yields-branch (expired q.ttl (clock k) x)
            (λ gone. Yields-bind (pop-Popped q h (ground arith)) λ t p. rw p.taken (
              Yields-weaken
                (drain_loop-Purged fuel clock (suc k) t.1 (omega (arith, length-perm p.same))
                  p.ordered)
                (after_pop clock k q x t (get_elem?-mem q.items 0 first) gone p)))
            (λ young. yields (
              unchanged clock k q h λ y mem.
                rw (zero_more k)
                  (expired_mono q.ttl (clock k) x y (first-earliest q x h first y mem) young)))))

-- On a queue in heap order `DrainExpired` ends without a panic: the items that it takes out were
-- expired by the clock as it read it, no item that it leaves is expired by its last reading, no
-- other item is lost, and the order and the time to live are kept.
pub drain_expired-Purged :
    (clock : ℕ → ℤ) (q : PriorityQueue)
    → IsOrdered q.items
    → Yields (Purged clock 0 q) (drain_expired clock q)
unfolding drain_expired
drain_expired-Purged clock q h = drain_loop-Purged _ clock 0 q (omega arith) h
