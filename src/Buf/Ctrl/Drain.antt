-- ===== src/Buf/Ctrl/Drain.antt =====
-- `BufDrain` and its parts: what becomes of the items.
use Prim.Native.String.{String}
use mathlib.Core.List.{append_assoc, append-nil}
use mathlib.Core.List.Perm
use metrika_agent.Prelude.{
  ℕ, zero, suc, ◌-◌, ◌<◌, ◌≤◌, ◌≡◌, refl, sym, ap, ◌∙◌, true, Option, none, some, List, [], ◌∷◌,
  ◌++◌, Perm, arith, Option-cases, inl, inr, length, length-append, length-perm, All,
}
use metrika_agent.Prelude.Int.{ℤ, pos, pos_part, ltb_ℤ, ◌≤ℤ◌}
use metrika_agent.Prelude.Outcome.{
  done, out_of_fuel, Yields, yields, Yields-bind, Yields-weaken, Yields-branch,
}
use metrika_agent.Prelude.Error.{Error, ok, Result-cases}
use metrika_agent.Model.{Val, Fields, Event, Body}
use metrika_agent.Model.Events.{new_with_ctx}
use metrika_agent.Buf.Queue.{Item, Payload}
use metrika_agent.Buf.Api.{Buffer, Reliable}
use metrika_agent.Buf.Ctrl.{
  Env, ControllerConf, Controller, emit_event, emit_event_with_error, event_item, put_back,
  hand_over, drain_batch, drain_loop, buf_drain, min_int, wrap_error,
}
use metrika_agent.Buf.Ctrl.Account.{
  Delivery, Accounts, Accounts-move, Accounts-gain, Accounts-perm, perm_append_past,
}
use metrika_agent.Buf.Ctrl.Insert.{InsertResult, put_in, refused, buf_insert-Accounts}

module _ {B : Buffer} (R : Reliable B) {W : Type 0} {env : Env W} (D : Delivery env) where
  -- The item is the message of an event with this name and context.
  pub record IsEvent (ctx : Fields) (name : String) (item : Item) : Type 0 where
    pub now : ℤ
    pub event : Event
    pub made : new_with_ctx env.new_struct (some ctx) name now ≡ ok event
    pub holds_it : item ≡ record {
      priority = 0;
      timestamp = pos 0;
      payload = Payload.message (record { name = event.name; value = Body.event event });
    }

  -- The item is the event that tells of the error `e` of the callback.
  abbrev pub IsNetError : Error → Item → Type 0
  IsNetError e item = IsEvent (("error", Val.text (env.error_text e)) ∷ []) "agent.net.error" item

  -- At most one item has been added, and it satisfies `P`.
  pub record Grown (P : Item → Type 0) (conf : ControllerConf) (total : List Item)
      (t : Option Error × Controller B.State W) : Type 0 where
    pub new : List Item
    pub at_most_one : length new ≤ 1
    pub all_are : All P new
    pub account : Accounts R D conf (new ++ total) t.1

  of_insert :
      (P : Item → Type 0) (conf : ControllerConf) (total : List Item) (item : Item) (drops : ℕ)
      (t : Option Error × Controller B.State W)
      → P item
      → InsertResult R D item conf total drops t
      → Grown P conf total t
  of_insert P conf total item drops t p (put_in e a d) = record {
    new = item ∷ [];
    at_most_one = omega arith;
    all_are = (p, tt);
    account = a;
  }
  of_insert P conf total item drops t p (refused e a d) = record {
    new = [];
    at_most_one = omega arith;
    all_are = tt;
    account = a;
  }

  pub emit_event-Grown :
      (conf : ControllerConf) (total : List Item) (ctx : Fields) (name : String)
      (c : Controller B.State W)
      → Accounts R D conf total c
      → Yields (Grown (IsEvent ctx name) conf total) (emit_event B env ctx name c)
  unfolding emit_event
  emit_event-Grown conf total ctx name c a =
      let (now, w) = env.sync_now c.world in
      let c1 = record c { world = w } in
      let a1 = Accounts-move R D conf total c c1 refl refl (D.sync_law c.world) a in
      elim (Result-cases (new_with_ctx env.new_struct (some ctx) name now)) [
        | inr (reason, failed) ↦
            rw (failed, emit_event)
              (yields (record { new = []; at_most_one = omega arith; all_are = tt; account = a1 }))
        | inl (ev, made) ↦
            rw (made, emit_event)
              (Yields-weaken (buf_insert-Accounts R D conf total (event_item B env ev) c1 a1) λ t r.
                of_insert (IsEvent ctx name) conf total (event_item B env ev) c.memstats_drops t
                  (record { now = now; event = ev; made = made; holds_it = refl }) r)
      ]

  -- How a drain, or a part of it, has ended: without an error, with `n` items in the buffer, or with
  -- an error, all items being kept and at most the event that tells of it added.
  pub data Drained (conf : ControllerConf) (total : List Item) (n : ℕ)
      (t : Option Error × Controller B.State W) : Type 0 where
    delivered : t.0 ≡ none → Accounts R D conf total t.1 → B.len t.1.b ≡ n → Drained conf total n t
    kept : (e : Error) → t.0 ≡ some e → Grown (IsNetError e) conf total t → Drained conf total n t

  -- A batch that is put back is in the buffer again.
  put_back-Drained :
      (conf : ControllerConf) (total : List Item) (e : Error) (items : List Item) (n : ℕ)
      (c : Controller B.State W)
      → Accounts R D conf total c
      → Yields (Drained conf (items ++ total) n) (put_back B env e items c)
  unfolding put_back emit_event_with_error
  put_back-Drained conf total e items n c a =
      Yields-bind (emit_event-Grown conf total _ _ c a) λ t g.
        Yields-bind (R.insert_law t.1.b g.account.rest items g.account.held) λ u (put, held).
          yields (
            kept e (ap (λ x. some (wrap_error B env e x)) put) (record {
              new = g.new;
              at_most_one = g.at_most_one;
              all_are = g.all_are;
              account =
                  Accounts-perm R D conf (items ++ (g.new ++ total)) (g.new ++ (items ++ total)) _
                    (perm_append_past items g.new total)
                    (Accounts-gain R D conf (g.new ++ total) items t.1 _ g.account refl held refl);
            }))

  Drained-perm :
      {conf : ControllerConf} {total total' : List Item} {n : ℕ}
      {t : Option Error × Controller B.State W}
      → Perm total total'
      → Drained conf total n t
      → Drained conf total' n t
  Drained-perm p (delivered e a size) = delivered e (Accounts-perm R D _ _ _ _ p a) size
  Drained-perm p (kept e failed g) = kept e failed (record {
    new = g.new;
    at_most_one = g.at_most_one;
    all_are = g.all_are;
    account = Accounts-perm R D _ _ _ _ (Perm.append_left g.new p) g.account;
  })

  hand_over-Drained :
      (conf : ControllerConf) (total batch rest : List Item) (c : Controller B.State W)
      → c.conf ≡ conf
      → R.Holds c.b rest
      → Perm (D.accepted c.world ++ (batch ++ rest)) total
      → Yields (Drained conf total (length rest)) (hand_over B env c (ok batch))
  unfolding hand_over
  hand_over-Drained conf total batch rest c e held p =
      let (r, w) = env.remove_callback batch c.world in
      elim (Option-cases r) [
        | inl accepted ↦
            rw (accepted, hand_over)
              (yields (
                delivered refl
                  (record {
                    conf_kept = e;
                    rest = rest;
                    held = held;
                    same = rw (D.accept_law batch c.world accepted, append_assoc) p;
                  })
                  (R.len_law c.b rest held)))
        | inr (reason, refused_it) ↦
            let c1 = record c { world = w } in
            let a1 : Accounts R D conf (D.accepted c.world ++ rest) c1 = record {
              conf_kept = e;
              rest = rest;
              held = held;
              same = rw (D.refuse_law batch c.world reason refused_it) Perm.rfl;
            } in
            rw (refused_it, hand_over)
              (Yields-weaken
                (put_back-Drained conf (D.accepted c.world ++ rest) reason batch (length rest) c1
                  a1)
                λ t d.
                  Drained-perm
                    (Perm.trans (Perm.symm (perm_append_past (D.accepted c.world) batch rest)) p) d)
      ]

  drain_batch-Drained :
      (conf : ControllerConf) (total : List Item) (n : ℤ) (c : Controller B.State W)
      → Accounts R D conf total c
      → Yields (Drained conf total (B.len c.b - pos_part n)) (drain_batch B env n c)
  unfolding drain_batch
  drain_batch-Drained conf total n c a =
      Yields-branch (ltb_ℤ n (pos 1)) (λ small. yields (delivered refl a (ground arith)))
        (λ some_items. Yields-bind (R.get_law c.b a.rest (pos_part n) a.held) λ t g.
          let left : B.len c.b - pos_part n ≡ length g.rest = ground (
            arith,
            R.len_law c.b a.rest a.held,
            g.size,
            length-perm g.same,
            length-append g.batch g.rest,
          ) in
          rw (left, g.returned)
            (hand_over-Drained conf total g.batch g.rest (record c { b = t.1 }) a.conf_kept g.left
              (Perm.trans (Perm.append_left (D.accepted c.world) g.same) a.same)))

  drain_loop-step :
      (fuel : ℕ) (conf : ControllerConf) (total : List Item) (n : ℕ)
      (t : Option Error × Controller B.State W)
      → ((r : Controller B.State W)
          → B.len r.b ≡ n
          → Accounts R D conf total r
          → Yields (Drained conf total 0) (drain_loop B env fuel r))
      → Drained conf total n t
      → Yields
          (Drained conf total 0)
          (elim t.0 [ some e ↦ done t | none ↦ drain_loop B env fuel t.1 ])
  drain_loop-step fuel conf total n t ih (delivered e a size) = rw e (ih t.1 size a)
  drain_loop-step fuel conf total n t ih (kept e failed g) = rw failed (yields (kept e failed g))

  drain_loop-Drained :
      (fuel : ℕ) (conf : ControllerConf) (total : List Item) (c : Controller B.State W)
      → B.len c.b < fuel
      → pos 1 ≤ℤ conf.buf_len_limit
      → Accounts R D conf total c
      → Yields (Drained conf total 0) (drain_loop B env fuel c)
  unfolding drain_loop
  drain_loop-Drained zero conf total c f l a = absurd (omega arith)
  drain_loop-Drained (suc fuel) conf total c f l a =
      let limit = c.conf.buf_len_limit in
      let positive : pos 1 ≤ℤ limit = rw a.conf_kept l in
      let last = min_int (pos (B.len c.b)) limit in
      Yields-branch (ltb_ℤ limit (pos (B.len c.b)))
        (λ more. Yields-bind (drain_batch-Drained conf total limit c a) λ t d.
          drain_loop-step fuel conf total (B.len c.b - pos_part limit) t
            (λ r size a_r.
              let fewer : B.len r.b < fuel = ground arith in
              drain_loop-Drained fuel conf total r fewer l a_r)
            d)
        (λ fits.
          let all : B.len c.b - pos_part last ≡ 0 = ground arith in
          rw all at (drain_batch-Drained conf total last c a))

  -- How `BufDrain` has ended.
  pub data DrainResult (conf : ControllerConf) (total : List Item)
      (t : Option Error × Controller B.State W) : Type 0 where
    flushed :
        t.0 ≡ none
        → Accounts R D conf total t.1
        → B.len t.1.b ≡ 0
        → Perm (D.accepted t.1.world) total
        → DrainResult conf total t
    failed :
        (e : Error) → t.0 ≡ some e → Grown (IsNetError e) conf total t → DrainResult conf total t

  of_Drained :
      (conf : ControllerConf) (total : List Item) (t : Option Error × Controller B.State W)
      → Drained conf total 0 t
      → DrainResult conf total t
  of_Drained conf total t (delivered e a size) =
      let empty : length a.rest ≡ 0 = sym (R.len_law t.1.b a.rest a.held) ∙ size in
      let none_left : a.rest ≡ [] = grind arith in
      flushed e a size (rw (none_left, append-nil) at a.same)
  of_Drained conf total t (kept e refused_it g) = failed e refused_it g

  -- With a limit of one at least, and if the buffer and the callback keep their promises,
  -- `BufDrain` ends without a panic. If it reports no error, the buffer is empty and the callback
  -- has accepted exactly the items of `total`; if it reports one, the items accepted and buffered
  -- together are those of `total`, with one item more at most, and that is the message of an event
  -- agent.net.error with the text of the error reported.
  pub buf_drain-DrainResult :
      (conf : ControllerConf) (total : List Item) (c : Controller B.State W)
      → pos 1 ≤ℤ conf.buf_len_limit
      → Accounts R D conf total c
      → Yields (DrainResult conf total) (buf_drain B env c)
  unfolding buf_drain
  buf_drain-DrainResult conf total c l a =
      Yields-weaken (drain_loop-Drained _ conf total c (omega arith) l a) (of_Drained conf total)

-- With a limit below one, while the buffer holds more items than the limit, the loop of `BufDrain`
-- hands over no batch and never ends: whatever the fuel, it is used up.
pub drain_loop_diverges :
    (B : Buffer) {W : Type 0} (env : Env W) (fuel : ℕ) (c : Controller B.State W)
    → ltb_ℤ c.conf.buf_len_limit (pos 1) ≡ true
    → ltb_ℤ c.conf.buf_len_limit (pos (B.len c.b)) ≡ true
    → drain_loop B env fuel c ≡ out_of_fuel
unfolding drain_loop drain_batch
drain_loop_diverges B env zero c low more = refl
drain_loop_diverges B env (suc fuel) c low more =
    rw (more, low) (drain_loop_diverges B env fuel c low more)
