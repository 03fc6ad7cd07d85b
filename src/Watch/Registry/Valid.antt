-- ===== src/Watch/Registry/Valid.antt =====
-- When a registry is valid, and what the registrations do to it.
use metrika_agent.Prelude.{
  ℕ, ◌≡◌, refl, sym, ◌∙◌, true, false, List, [], ◌∷◌, ◌++◌, ◌==◌, arith, if◌then◌else◌, Bool-cases,
  inl, inr,
}
use metrika_agent.Prelude.Outcome.{panic}
use metrika_agent.Watch.Registry.{
  WatcherInstance, Registry, contains, new_instance, register_one, register, register_and_start,
}

abbrev pub ids : List WatcherInstance → List ℕ
ids [] = []
ids (i ∷ is) = i.watcher ∷ ids is

abbrev pub Distinct : List ℕ → Type 0
Distinct [] = Unit
Distinct (w ∷ ws) = (contains w ws ≡ false) × Distinct ws

pub record IsValid (r : Registry) : Type 0 where
  pub distinct : Distinct (ids r.watch)
  pub agree : (w : ℕ) → contains w r.watcher_map ≡ contains w (ids r.watch)

contains-append_one :
    (w v : ℕ) (is : List WatcherInstance)
    → contains w (ids (is ++ new_instance v ∷ [])) ≡ (if v == w then true else contains w (ids is))
unfolding contains
contains-append_one w v [] = refl
contains-append_one w v (i ∷ is) = ground (arith, contains-append_one w v is)

Distinct-append_one :
    (v : ℕ) (is : List WatcherInstance)
    → Distinct (ids is)
    → contains v (ids is) ≡ false
    → Distinct (ids (is ++ new_instance v ∷ []))
unfolding contains
Distinct-append_one v [] d n = (refl, tt)
Distinct-append_one v (i ∷ is) d n =
    let rest = Distinct-append_one v is d.1 (ground arith) in
    (ground (arith, contains-append_one i.watcher v is), rest)

register_one-IsValid : (w : ℕ) (r : Registry) → IsValid r → IsValid (register_one w r).1
unfolding register_one contains
register_one-IsValid w r v = elim (Bool-cases (contains w r.watcher_map)) [
  | inl known ↦ rw (known, register_one) v
  | inr unknown ↦
      rw (unknown, register_one)
        (record {
          distinct = Distinct-append_one w r.watch v.distinct (sym (v.agree w) ∙ unknown);
          agree = λ u. ground (arith, v.agree u, contains-append_one u w r.watch);
        })
]

-- `Register` keeps the registry valid: its list and its map hold the same watchers, each once.
pub register-IsValid : (ws : List ℕ) (r : Registry) → IsValid r → IsValid (register ws r)
unfolding register
register-IsValid [] r v = v
register-IsValid (w ∷ ws) r v =
    register-IsValid ws (register_one w r).1 (register_one-IsValid w r v)

register_one_keeps :
    (v w : ℕ) (r : Registry)
    → contains v r.watcher_map ≡ true
    → contains v (register_one w r).1.watcher_map ≡ true
unfolding register_one contains
register_one_keeps v w r h = ground arith

register_one_knows : (w : ℕ) (r : Registry) → contains w (register_one w r).1.watcher_map ≡ true
unfolding register_one contains
register_one_knows w r = ground arith

register_keeps :
    (v : ℕ) (ws : List ℕ) (r : Registry)
    → contains v r.watcher_map ≡ true
    → contains v (register ws r).watcher_map ≡ true
unfolding register
register_keeps v [] r h = h
register_keeps v (w ∷ ws) r h =
    register_keeps v ws (register_one w r).1 (register_one_keeps v w r h)

AllKnown : List ℕ → List ℕ → Type 0
AllKnown [] known = Unit
AllKnown (w ∷ ws) known = (contains w known ≡ true) × AllKnown ws known

register-AllKnown : (ws : List ℕ) (r : Registry) → AllKnown ws (register ws r).watcher_map
unfolding register AllKnown
register-AllKnown [] r = tt
register-AllKnown (w ∷ ws) r = (
  register_keeps w ws (register_one w r).1 (register_one_knows w r),
  register-AllKnown ws (register_one w r).1,
)

register_known : (ws : List ℕ) (r : Registry) → AllKnown ws r.watcher_map → register ws r ≡ r
unfolding register AllKnown register_one
register_known [] r h = refl
register_known (w ∷ ws) r h = rw (h.0, register) (register_known ws r h.1)

-- Registering the same watchers again changes nothing.
pub register_idempotent : (ws : List ℕ) (r : Registry) → register ws (register ws r) ≡ register ws r
register_idempotent ws r = register_known ws (register ws r) (register-AllKnown ws r)

register_knows :
    (w : ℕ) (ws : List ℕ) (r : Registry)
    → contains w ws ≡ true
    → contains w (register ws r).watcher_map ≡ true
unfolding register contains
register_knows w [] r h = absurd (cc)
register_knows w (v ∷ ws) r h = elim (Bool-cases (v == w)) [
  | inl same ↦
      let equal : v ≡ w = ground arith in
      register_keeps w ws (register_one v r).1 (rw equal (register_one_knows w r))
  | inr other ↦ register_knows w ws (register_one v r).1 (ground arith)
]

-- If a watcher is among those that were given to `Register`, `RegisterAndStart` of it panics.
pub register_and_start_panics :
    (w : ℕ) (chans ws : List ℕ) (r : Registry)
    → contains w ws ≡ true
    → register_and_start w chans (register ws r) ≡ panic
unfolding register_and_start register_one
register_and_start_panics w chans ws r among = rw (register_knows w ws r among, register_and_start)
