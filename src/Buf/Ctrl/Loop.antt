-- ===== src/Buf/Ctrl/Loop.antt =====
-- The goroutine of `Start`: what becomes of the items over its drains.
use mathlib.Core.List.{append_assoc}
use metrika_agent.Prelude.{
  ℕ, zero, suc, ◌+◌, ◌≤◌, ◌≡◌, refl, ap, ◌∙◌, Bool, true, false, Option, none, List, [], ◌∷◌, ◌++◌,
  arith, length, length-append, All, All-append, All-weaken,
}
use metrika_agent.Prelude.Int.{pos, ◌≤ℤ◌}
use metrika_agent.Prelude.Outcome.{
  Outcome, done, ◌>>=◌, Yields, yields, Yields-bind, Yields-weaken, Yields-same,
}
use metrika_agent.Prelude.Error.{Error}
use metrika_agent.Buf.Queue.{Item}
use metrika_agent.Buf.Api.{Buffer, Reliable}
use metrika_agent.Buf.Ctrl.{
  Env, ControllerConf, Controller, Wake, timer, cancelled, Wait, Progress, start_loop, start,
  buf_drain,
}
use metrika_agent.Buf.Ctrl.Account.{Delivery, Accounts}
use metrika_agent.Buf.Ctrl.Drain.{IsNetError, DrainResult, flushed, failed, buf_drain-DrainResult}

-- The ends of the waits up to the first that the context makes, itself included.
abbrev pub drains_of : List Wake → ℕ
drains_of [] = 0
drains_of (cancelled ∷ wakes) = 1
drains_of (timer ∷ wakes) = suc (drains_of wakes)

-- Whether the context makes one.
abbrev pub cancels : List Wake → Bool
cancels [] = false
cancels (cancelled ∷ wakes) = true
cancels (timer ∷ wakes) = cancels wakes

module _ {B : Buffer} (R : Reliable B) {W : Type 0} {env : Env W} (D : Delivery env) where
  -- The item is the event of an error of the callback.
  abbrev pub ToldError : Item → Type 0
  ToldError item = (e : Error) × IsNetError R D e item

  -- At most `n` items have been added, each the event of an error.
  pub record Added (n : ℕ) (conf : ControllerConf) (total : List Item) (c : Controller B.State W)
      : Type 0 where
    pub new : List Item
    pub at_most : length new ≤ n
    pub all_are : All ToldError new
    pub account : Accounts R D conf (new ++ total) c

  Added-up :
      (n m : ℕ) (conf : ControllerConf) (total : List Item) (c : Controller B.State W)
      → n ≤ m
      → Added n conf total c
      → Added m conf total c
  Added-up n m conf total c up a = record {
    new = a.new;
    at_most = omega (arith, a.at_most);
    all_are = a.all_are;
    account = a.account;
  }

  of_result :
      (conf : ControllerConf) (total : List Item) (t : Option Error × Controller B.State W)
      → DrainResult R D conf total t
      → Added 1 conf total t.1 × (t.0 ≡ none → B.len t.1.b ≡ 0)
  of_result conf total t (flushed e a size p) =
      (record { new = []; at_most = omega arith; all_are = tt; account = a }, λ _. size)
  of_result conf total t (failed x e g) = (
    record {
      new = g.new;
      at_most = g.at_most_one;
      all_are = All-weaken (IsNetError R D x) ToldError g.new (λ item p. (x, p)) g.all_are;
      account = g.account;
    },
    λ ok. absurd (cc),
  )

  Added-more :
      (n m : ℕ) (conf : ControllerConf) (total : List Item) (c d : Controller B.State W)
      (a : Added n conf total c)
      → Added m conf (a.new ++ total) d
      → Added (n + m) conf total d
  Added-more n m conf total c d a b = record {
    new = b.new ++ a.new;
    at_most = omega (arith, length-append b.new a.new, a.at_most, b.at_most);
    all_are = All-append ToldError b.new a.new b.all_are a.all_are;
    account = rw (append_assoc b.new a.new total) b.account;
  }

  -- The drains, one after the other, by the result of the last: `e` if there is none.
  abbrev pub drain_times :
      ℕ → Option Error → Controller B.State W → Outcome (Option Error × Controller B.State W)
  drain_times zero e c = done (e, c)
  drain_times (suc n) e c = buf_drain B env c >>= λ t. drain_times n t.0 t.1

  -- What the goroutine has done to `c`: its drains, and nothing else; at most one event has been
  -- added to the items for each of them. If it has returned after a drain without an error, the
  -- buffer is empty.
  pub record Ended (drains : ℕ) (cancels : Bool) (conf : ControllerConf) (total : List Item)
      (c : Controller B.State W) (p : Progress (Controller B.State W)) : Type 0 where
    pub by_drains : drain_times drains none c ≡ done (p.last, p.ctl)
    pub returns_if : p.returned ≡ cancels
    pub account : Added drains conf total p.ctl
    pub emptied : p.returned ≡ true → p.last ≡ none → B.len p.ctl.b ≡ 0

  one_more :
      (n : ℕ) (e : Option Error) (c : Controller B.State W)
      (t : Option Error × Controller B.State W)
      → buf_drain B env c ≡ done t
      → drain_times (suc n) e c ≡ drain_times n t.0 t.1
  one_more n e c t same = ap (λ o. o >>= λ t. drain_times n t.0 t.1) same

  start_loop-Ended :
      (wakes : List Wake) (waits : List Wait) (conf : ControllerConf) (total : List Item)
      (c : Controller B.State W)
      → pos 1 ≤ℤ conf.buf_len_limit
      → Accounts R D conf total c
      → Yields
          (Ended (suc (drains_of wakes)) (cancels wakes) conf total c)
          (start_loop B env wakes waits c)
  unfolding start_loop
  start_loop-Ended [] waits conf total c l a =
      Yields-bind (Yields-same (buf_drain-DrainResult R D conf total c l a)) λ t (r, same).
        yields (record {
          by_drains = one_more 0 none c t same;
          returns_if = refl;
          account = (of_result conf total t r).0;
          emptied = λ never. absurd (cc);
        })
  start_loop-Ended (cancelled ∷ wakes) waits conf total c l a =
      Yields-bind (Yields-same (buf_drain-DrainResult R D conf total c l a)) λ t (r, same).
        let first = (of_result conf total t r).0 in
        Yields-bind
          (Yields-same (buf_drain-DrainResult R D conf (first.new ++ total) t.1 l first.account))
          λ u (q, same_u).
            let (second, empty) = of_result conf (first.new ++ total) u q in
            yields (record {
              by_drains = one_more 1 none c t same ∙ one_more 0 t.0 t.1 u same_u;
              returns_if = refl;
              account = Added-more 1 1 conf total t.1 u.1 first second;
              emptied = λ back fine. empty fine;
            })
  start_loop-Ended (timer ∷ wakes) waits conf total c l a =
      Yields-bind (Yields-same (buf_drain-DrainResult R D conf total c l a)) λ t (r, same).
        let first = (of_result conf total t r).0 in
        Yields-weaken (start_loop-Ended wakes _ conf (first.new ++ total) t.1 l first.account)
          λ p e. record {
            by_drains = one_more (suc (drains_of wakes)) none c t same ∙ e.by_drains;
            returns_if = e.returns_if;
            account =
                Added-up _ _ conf total p.ctl (omega arith)
                  (Added-more 1 (suc (drains_of wakes)) conf total t.1 p.ctl first e.account);
            emptied = e.emptied;
          }

  -- With a limit of one at least, and if the buffer and the callback keep their promises: `Start`
  -- drains once for each of the listed ends of its waits, up to the first that the context makes,
  -- and then returns; it has not returned if the context makes none; nothing else changes the
  -- controller. The items accepted and buffered together are those at the start and, at most one
  -- for each drain, messages of events agent.net.error with the text of an error; and if it returns
  -- after a drain without an error, the buffer is empty.
  pub start-Ended :
      (wakes : List Wake) (conf : ControllerConf) (total : List Item) (c : Controller B.State W)
      → pos 1 ≤ℤ conf.buf_len_limit
      → Accounts R D conf total c
      → Yields (Ended (drains_of wakes) (cancels wakes) conf total c) (start B env wakes c)
  unfolding start
  start-Ended [] conf total c l a = yields (record {
    by_drains = refl;
    returns_if = refl;
    account = record { new = []; at_most = omega arith; all_are = tt; account = a };
    emptied = λ never. absurd (cc);
  })
  start-Ended (cancelled ∷ wakes) conf total c l a =
      Yields-bind (Yields-same (buf_drain-DrainResult R D conf total c l a)) λ t (r, same).
        let (one, empty) = of_result conf total t r in
        yields (record {
          by_drains = one_more 0 none c t same;
          returns_if = refl;
          account = one;
          emptied = λ back fine. empty fine;
        })
  start-Ended (timer ∷ wakes) conf total c l a = start_loop-Ended wakes _ conf total c l a
