-- ===== src/Buf/Ctrl/Insert.antt =====
-- What `BufInsert` and `EmitEvent` do to the account.
use metrika_agent.Prelude.{
  ◌≡◌, refl, ◌∙◌, inl, inr, Option, none, some, List, [], ◌∷◌, Bool-cases, if-branches, ap, ◌+◌, ℕ,
}
use metrika_agent.Prelude.Int.{ltb_ℤ, ◌-ℤ◌}
use metrika_agent.Prelude.Outcome.{Yields, yields, Yields-bind}
use metrika_agent.Prelude.Error.{Error, heap_alloc_limit}
use metrika_agent.Buf.Queue.{Item}
use metrika_agent.Buf.Api.{Buffer, Reliable}
use metrika_agent.Buf.Ctrl.{
  Env, ControllerConf, Controller, refresh_mem_stats, over_limit, check_mem_stats, count_full,
  buf_insert,
}
use metrika_agent.Buf.Ctrl.Account.{Delivery, Accounts, Accounts-move, Accounts-gain}

module _ {B : Buffer} (R : Reliable B) {W : Type 0} {env : Env W} (D : Delivery env) where
  refresh-Accounts :
      (conf : ControllerConf) (total : List Item) (c : Controller B.State W)
      → Accounts R D conf total c
      → Accounts R D conf total (refresh_mem_stats B env c)
  unfolding refresh_mem_stats
  refresh-Accounts conf total c a =
      let (now, w1) = env.time_now c.world in
      let (heap, w2) = env.read_mem_stats w1 in
      if-branches (Accounts R D conf total)
        (ltb_ℤ c.conf.mem_stats_cache_timeout (now -ℤ c.memstats_updated_at))
        (λ stale.
          Accounts-move R D conf total c _ refl refl
            (D.time_law w2 ∙ D.mem_law w1 ∙ D.time_law c.world) a)
        (λ fresh. Accounts-move R D conf total c _ refl refl (D.time_law c.world) a)

  refresh-drops :
      (c : Controller B.State W) → (refresh_mem_stats B env c).memstats_drops ≡ c.memstats_drops
  unfolding refresh_mem_stats
  refresh-drops c =
      if-branches {A = Controller B.State W} (λ r. r.memstats_drops ≡ c.memstats_drops) _
        (λ s. refl) (λ f. refl)

  -- An insertion that returns nil has put the item in; one that fails has changed nothing, and
  -- counted the item as dropped.
  pub data InsertResult (item : Item) (conf : ControllerConf) (total : List Item) (drops : ℕ)
      (t : Option Error × Controller B.State W) : Type 0 where
    put_in :
        t.0 ≡ none
        → Accounts R D conf (item ∷ total) t.1
        → t.1.memstats_drops ≡ drops
        → InsertResult item conf total drops t
    refused :
        t.0 ≡ some heap_alloc_limit
        → Accounts R D conf total t.1
        → t.1.memstats_drops ≡ drops + 1
        → InsertResult item conf total drops t

  counted :
      {conf : ControllerConf} {total : List Item} {item : Item} {drops : ℕ}
      (r : Controller B.State W) (t : Option Error × B.State)
      → t.0 ≡ none
      → (a : Accounts R D conf total r) → R.Holds t.1 (item ∷ a.rest)
      → r.memstats_drops ≡ drops
      → InsertResult item conf total drops (count_full B env r t)
  unfolding count_full
  counted {conf} {total} {item} r (none, b) e a held d =
      put_in refl (Accounts-gain R D conf total (item ∷ []) r _ a refl held refl) d
  counted r (some x, b) e a held d = absurd (cc)

  -- If the buffer and the callback keep their promises, `BufInsert` ends without a panic. Either it
  -- returns nil, the item is in the buffer, and no drop is counted; or it returns the error of the
  -- memory limit, what is accepted and buffered is as before, and one drop is counted.
  pub buf_insert-Accounts :
      (conf : ControllerConf) (total : List Item) (item : Item) (c : Controller B.State W)
      → Accounts R D conf total c
      → Yields (InsertResult item conf total c.memstats_drops) (buf_insert B env item c)
  unfolding buf_insert check_mem_stats count_full
  buf_insert-Accounts conf total item c a =
      let r = refresh_mem_stats B env c in
      let a_r = refresh-Accounts conf total c a in
      elim (Bool-cases (over_limit B env r)) [
        | inl over ↦
            rw (over, buf_insert)
              (yields (
                refused refl (Accounts-move R D conf total r _ refl refl refl a_r)
                  (ap (λ n. n + 1) (refresh-drops c))))
        | inr room ↦
            rw (room, buf_insert)
              (Yields-bind (R.insert_law r.b a_r.rest (item ∷ []) a_r.held)
                λ t (e, held). yields (counted r t e a_r held (refresh-drops c)))
      ]
