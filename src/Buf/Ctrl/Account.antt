-- ===== src/Buf/Ctrl/Account.antt =====
-- The account of the items: those that the callback has accepted and those in the buffer.
use mathlib.Core.List.{perm_middle}
use mathlib.Core.List.Perm
use metrika_agent.Prelude.{◌≡◌, ◌∙◌, none, some, List, [], ◌∷◌, ◌++◌, Perm}
use metrika_agent.Prelude.Error.{Error}
use metrika_agent.Buf.Queue.{Item}
use metrika_agent.Buf.Api.{Buffer, Reliable}
use metrika_agent.Buf.Ctrl.{Env, ControllerConf, Controller}

-- What is relied on in the rest of the agent: the callback accepts a batch as a whole or reports an
-- error, and nothing else that the controller calls delivers items.
pub record Delivery {W : Type 0} (env : Env W) : Type 0 where
  pub accepted : W → List Item
  pub accept_law :
      (xs : List Item) (w : W)
      → (env.remove_callback xs w).0 ≡ none
      → accepted (env.remove_callback xs w).1 ≡ accepted w ++ xs
  pub refuse_law :
      (xs : List Item) (w : W) (e : Error)
      → (env.remove_callback xs w).0 ≡ some e
      → accepted (env.remove_callback xs w).1 ≡ accepted w
  pub time_law : (w : W) → accepted (env.time_now w).1 ≡ accepted w
  pub mem_law : (w : W) → accepted (env.read_mem_stats w).1 ≡ accepted w
  pub sync_law : (w : W) → accepted (env.sync_now w).1 ≡ accepted w

-- A block of items may be moved to the front.
pub perm_append_past : (xs new ys : List Item) → Perm (xs ++ (new ++ ys)) (new ++ (xs ++ ys))
perm_append_past xs [] ys = Perm.rfl
perm_append_past xs (x ∷ new) ys =
    Perm.trans (perm_middle xs (new ++ ys)) (Perm.cons x (perm_append_past xs new ys))

module _ {B : Buffer} (R : Reliable B) {W : Type 0} {env : Env W} (D : Delivery env) where
  -- Accepted and buffered items together are those of `total`, each as often.
  pub record Accounts (conf : ControllerConf) (total : List Item) (c : Controller B.State W)
      : Type 0 where
    pub conf_kept : c.conf ≡ conf
    pub rest : List Item
    pub held : R.Holds c.b rest
    pub same : Perm (D.accepted c.world ++ rest) total

  -- A step that leaves the configuration, the buffer and what is accepted alone.
  pub Accounts-move :
      (conf : ControllerConf) (total : List Item) (c r : Controller B.State W)
      → r.conf ≡ c.conf
      → r.b ≡ c.b
      → D.accepted r.world ≡ D.accepted c.world
      → Accounts conf total c
      → Accounts conf total r
  Accounts-move conf total c r e b w a = record {
    conf_kept = e ∙ a.conf_kept;
    rest = a.rest;
    held = rw b a.held;
    same = rw w a.same;
  }

  -- A step that puts new items into the buffer.
  pub Accounts-gain :
      (conf : ControllerConf) (total new : List Item) (c r : Controller B.State W)
      (a : Accounts conf total c)
      → r.conf ≡ c.conf
      → R.Holds r.b (new ++ a.rest)
      → D.accepted r.world ≡ D.accepted c.world
      → Accounts conf (new ++ total) r
  Accounts-gain conf total new c r a e b w = record {
    conf_kept = e ∙ a.conf_kept;
    rest = new ++ a.rest;
    held = b;
    same = rw w (Perm.trans (perm_append_past _ new _) (Perm.append_left new a.same));
  }

  pub Accounts-perm :
      (conf : ControllerConf) (total total' : List Item) (c : Controller B.State W)
      → Perm total total'
      → Accounts conf total c
      → Accounts conf total' c
  Accounts-perm conf total total' c p a = record {
    conf_kept = a.conf_kept;
    rest = a.rest;
    held = a.held;
    same = Perm.trans a.same p;
  }
