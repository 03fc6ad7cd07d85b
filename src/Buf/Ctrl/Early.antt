-- ===== src/Buf/Ctrl/Early.antt =====
-- `BufInsertAndEarlyDrain`: what becomes of the item.
use metrika_agent.Prelude.{
  ℕ, ◌≡◌, ◌≢◌, ◌⊎◌, inl, inr, true, Option, none, some, List, ◌∷◌, ◌&&◌, not, ◌==◌, arith,
  Bool-cases, if◌then◌else◌,
}
use metrika_agent.Prelude.Int.{pos, ltb_ℤ, ◌≤ℤ◌}
use metrika_agent.Prelude.Outcome.{done, Yields, yields, Yields-bind, Yields-weaken, Yields-branch}
use metrika_agent.Prelude.Error.{Error, heap_alloc_limit}
use metrika_agent.Buf.Queue.{Item}
use metrika_agent.Buf.Api.{Buffer, Reliable}
use metrika_agent.Buf.Ctrl.{
  Env, ControllerConf, Controller, buf_drain, buf_insert_and_early_drain, platform_state_up,
}
use metrika_agent.Buf.Ctrl.Account.{Delivery, Accounts}
use metrika_agent.Buf.Ctrl.Insert.{InsertResult, put_in, refused, buf_insert-Accounts}
use metrika_agent.Buf.Ctrl.Drain.{DrainResult, buf_drain-DrainResult}

module _ {B : Buffer} (R : Reliable B) {W : Type 0} {env : Env W} (D : Delivery env) where
  pub data EarlyResult (item : Item) (conf : ControllerConf) (total : List Item)
      (t : Option Error × Controller B.State W) : Type 0 where
    turned_away :
        t.0 ≡ some heap_alloc_limit → Accounts R D conf total t.1 → EarlyResult item conf total t
    buffered :
        t.0 ≡ none
        → Accounts R D conf (item ∷ total) t.1
        → (env.publish_state t.1.world ≢ platform_state_up)
          ⊎ (ltb_ℤ (pos (B.len t.1.b)) conf.buf_len_limit ≡ true)
        → EarlyResult item conf total t
    drained : DrainResult R D conf (item ∷ total) t → EarlyResult item conf total t

  after_insert :
      (item : Item) (conf : ControllerConf) (total : List Item) (drops : ℕ)
      (t : Option Error × Controller B.State W)
      → pos 1 ≤ℤ conf.buf_len_limit
      → InsertResult R D item conf total drops t
      → Yields (EarlyResult item conf total) (elim t.0 [
        | some e ↦ done t
        | none ↦
            let full = not (ltb_ℤ (pos (B.len t.1.b)) t.1.conf.buf_len_limit) in
            let up = env.publish_state t.1.world == platform_state_up in
            let emptied = buf_drain B env t.1 in if up && full then emptied else done t
      ])
  after_insert item conf total drops t l (refused e a d) = rw e (yields (turned_away e a))
  after_insert item conf total drops t l (put_in e a d) =
      let up = env.publish_state t.1.world == platform_state_up in
      let room = ltb_ℤ (pos (B.len t.1.b)) t.1.conf.buf_len_limit in
      rw e (
        Yields-branch (up && not room)
          (λ both.
            Yields-weaken (buf_drain-DrainResult R D conf (item ∷ total) t.1 l a) λ u r. drained r)
          (λ not_both. elim (Bool-cases room) [
            | inl below ↦ yields (buffered e a (inr (rw a.conf_kept at below)))
            | inr above ↦ yields (buffered e a (inl (ground arith)))
          ]))

  -- With a limit of one at least, and if the buffer and the callback keep their promises,
  -- `BufInsertAndEarlyDrain` ends without a panic. It refuses the item for the memory limit and
  -- changes nothing that is accepted or buffered; or it buffers the item, and then the platform is
  -- not up or fewer items than the limit are buffered; or it has drained the buffer, with the item
  -- in it, as `BufDrain` does.
  pub early-EarlyResult :
      (item : Item) (conf : ControllerConf) (total : List Item) (c : Controller B.State W)
      → pos 1 ≤ℤ conf.buf_len_limit
      → Accounts R D conf total c
      → Yields (EarlyResult item conf total) (buf_insert_and_early_drain B env item c)
  unfolding buf_insert_and_early_drain
  early-EarlyResult item conf total c l a =
      Yields-bind (buf_insert-Accounts R D conf total item c a)
        λ t r. after_insert item conf total c.memstats_drops t l r
