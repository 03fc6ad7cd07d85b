-- ===== src/Flow/Metadata/Known.antt =====
-- The role and the network that Flow learns.
use Prim.Native.String.{String}
use text.Mathlib.Text.{◌==◌ as str_eq}
use metrika_agent.Prelude.{
  ◌≡◌, refl, ap, ◌∙◌, ◌⊎◌, inr, true, false, Option, none, some, List, [], ◌∷◌, if-branches,
}
use metrika_agent.Prelude.Error.{Error, Result, ok, err}
use metrika_agent.Prelude.Text.{to_lower}
use metrika_agent.Model.{Val, Fields}
use metrika_agent.Model.Events.{field}
use metrika_agent.Flow.{Flow}
use metrika_agent.Flow.Metadata.{
  known_network, recognized, on_network_value, network_loop, update_network_from_json_log, role_of,
  with_network, update_metadata,
}

-- The role is one of Flow's, or unknown; the network is a known one, or unknown.
pub record IsKnown (d : Flow) : Type 0 where
  pub role : recognized d.node_role ≡ true
  pub net : (d.network ≡ "") ⊎ (known_network d.network ≡ true)

-- What has been learned is not changed, and nothing else of the state is.
pub record Learned (d e : Flow) : Type 0 where
  pub known : IsKnown e
  pub role_kept : str_eq d.node_role "" ≡ false → e.node_role ≡ d.node_role
  pub net_kept : str_eq d.network "" ≡ false → e.network ≡ d.network
  pub rest : e ≡ record d { node_role = e.node_role; network = e.network }

pub nothing_new : (d : Flow) → IsKnown d → Learned d d
nothing_new d k = record { known = k; role_kept = λ _. refl; net_kept = λ _. refl; rest = refl }

pub Learned-trans : (d e f : Flow) → Learned d e → Learned e f → Learned d f
Learned-trans d e f p q = record {
  known = q.known;
  role_kept = λ h. q.role_kept (ap (λ r. str_eq r "") (p.role_kept h) ∙ h) ∙ p.role_kept h;
  net_kept = λ h. q.net_kept (ap (λ r. str_eq r "") (p.net_kept h) ∙ h) ∙ p.net_kept h;
  rest =
      q.rest
      ∙ ap {A = Flow} (λ x. record x { node_role = f.node_role; network = f.network }) p.rest;
}

pub data IfOk (P : Flow → Type 0) : Result Flow → Type 0 where
  good : {d : Flow} → P d → IfOk P (ok d)
  bad : {e : Error} → IfOk P (err e)

role_of-Learned : (v : Option Val) (d : Flow) → IsKnown d → IfOk (Learned d) (role_of v d)
role_of-Learned none d k = good (nothing_new d k)
role_of-Learned (some (Val.text s)) d k =
    if-branches (IfOk (Learned d)) (str_eq d.node_role "")
      (λ unknown.
        if-branches (IfOk (Learned d)) (recognized (to_lower s))
          (λ is_role. good (record {
            known = record { role = is_role; net = k.net };
            role_kept = λ h. absurd (cc);
            net_kept = λ _. refl;
            rest = refl;
          }))
          (λ _. bad))
      (λ _. good (nothing_new d k))
role_of-Learned (some (Val.number n)) d k =
    if-branches (IfOk (Learned d)) (str_eq d.node_role "") (λ _. bad) (λ _. good (nothing_new d k))
role_of-Learned (some Val.opaque) d k =
    if-branches (IfOk (Learned d)) (str_eq d.node_role "") (λ _. bad) (λ _. good (nothing_new d k))

on_network_value-Learned :
    (v : Option Val) (d : Flow) (next : Flow → Flow)
    → str_eq d.network "" ≡ true
    → IsKnown d
    → Learned d (next d)
    → Learned d (on_network_value v d next)
on_network_value-Learned (some (Val.text s)) d next unknown k later =
    if-branches (Learned d) (known_network s)
      (λ is_net. record {
        known = record { role = k.role; net = inr is_net };
        role_kept = λ _. refl;
        net_kept = λ h. absurd (cc);
        rest = refl;
      })
      (λ _. later)
on_network_value-Learned (some (Val.number n)) d next unknown k later = later
on_network_value-Learned (some Val.opaque) d next unknown k later = later
on_network_value-Learned none d next unknown k later = later

network_loop-Learned :
    (m : Fields) (keys : List String) (d : Flow) → IsKnown d → Learned d (network_loop m keys d)
unfolding network_loop
network_loop-Learned m [] d k = nothing_new d k
network_loop-Learned m (key ∷ keys) d k =
    if-branches (Learned d) (str_eq d.network "")
      (λ unknown.
        on_network_value-Learned (field m key) d (network_loop m keys) unknown k
          (network_loop-Learned m keys d k))
      (λ _. nothing_new d k)

with_network-Learned :
    (m : Fields) (d : Flow) (r : Result Flow)
    → IfOk (Learned d) r
    → IfOk (Learned d) (with_network m r)
unfolding update_network_from_json_log
with_network-Learned m d (ok e) (good p) =
    good (Learned-trans d e _ p (network_loop-Learned m _ e p.known))
with_network-Learned m d (err e) bad = bad

pub update_metadata-Learned :
    (m : Fields) (d : Flow) → IsKnown d → IfOk (Learned d) (update_metadata m d)
unfolding update_metadata
update_metadata-Learned m d k =
    with_network-Learned m d _ (role_of-Learned (field m "node_role") d k)
