-- ===== src/Flow/Configure/Ids.antt =====
-- The ID of the node, in the command of its container or in the environment file.
use Prim.Native.String.{String}
use Prim.Native.String.{◌++◌ as ◌<>◌}
use Prim.Native.String.append
use Prim.Native.Char.{Char}
use text.Mathlib.TextPositions.{starts_with-append}
use text.Mathlib.Text.{◌==◌ as str_eq, starts_with}
use metrika_agent.Prelude.{
  ℕ, ◌≡◌, ◌≢◌, refl, ap, ◌∙◌, true, false, Option, none, some, List, [], ◌∷◌, ◌++◌, arith,
  if◌then◌else◌, if-branches,
}
use metrika_agent.Prelude.Error.{Error, Result, ok, err}
use metrika_agent.Prelude.Text.{split, after}
use metrika_agent.Flow.{Flow, Container, configure_client}
use metrika_agent.Flow.Configure.{
  Host, loaded_env, on_env_id, on_env, configure_node_id_from_env_file, scan_args, given, id_of,
  args_of, on_scan, scan_container, configure_node_id_from_docker, on_image_parts, version_from,
  update_node_version_from_docker, with_errors, docker_id,
}

abbrev pub NotEmpty : String → Type 0
NotEmpty s = str_eq s "" ≡ false

-- The stages leave these as they are.
pub record Same (d e : Flow) : Type 0 where
  pub client : e.config.client ≡ d.config.client
  pub role : e.node_role ≡ d.node_role
  pub net : e.network ≡ d.network
  pub container : e.container ≡ d.container
  pub endpoints : e.config.pef_endpoints ≡ d.config.pef_endpoints

abbrev same : (d : Flow) → Same d d
same d = record { client = refl; role = refl; net = refl; container = refl; endpoints = refl }

pub configure_client-set : (d : Flow) → NotEmpty (configure_client d).config.client
unfolding configure_client
configure_client-set d =
    if-branches (λ (e : Flow). NotEmpty e.config.client) (str_eq d.config.client "") (λ _. refl)
      (λ h. h)

data Given : Result String → Type 0 where
  good : {id : String} → NotEmpty id → Given (ok id)
  bad : {e : Error} → Given (err e)

given-Given : (id : String) (rest : Result String) → Given rest → Given (given id rest)
given-Given id rest g = if-branches Given (str_eq id "") (λ _. g) (λ h. good h)

id_of-Given :
    (v : Option String) (args : List String) (rest : Result String)
    → Given rest
    → Given (id_of v args rest)
id_of-Given (some id) args rest g = given-Given id rest g
id_of-Given none [] rest g = bad
id_of-Given none (id ∷ more) rest g = given-Given id rest g

scan_args-Given : (args : List String) → Given (scan_args args)
unfolding scan_args
scan_args-Given [] = bad
scan_args-Given (arg ∷ args) =
    if-branches Given (starts_with arg "--nodeid")
      (λ _. id_of-Given (after b'=' arg) args (scan_args args) (scan_args-Given args))
      (λ _. scan_args-Given args)

-- The ID of the first argument that has one is found, in both of its forms.
abbrev pub NoId : List String → Type 0
NoId [] = Unit
NoId (arg ∷ args) = (starts_with arg "--nodeid" ≡ false) × NoId args

append_nil : (t : String) → String.[] <> t ≡ t
append_nil t i = append.nil t i

pub append_cons : (c : Char) (s t : String) → String.◌∷◌ c s <> t ≡ String.◌∷◌ c (s <> t)
append_cons c s t i = append.cons c s t i

after-append : (sep : ℕ) (s t : String) → after sep s ≡ none → after sep (s <> t) ≡ after sep t
unfolding after
after-append sep String.[] t h = ap (after sep) (append_nil t)
after-append sep (String.◌∷◌ c s) t h =
    ap (after sep) (append_cons c s t) ∙ ground (arith, after-append sep s t)

after_eq : (id : String) → after b'=' ("=" <> id) ≡ some id
unfolding after
after_eq id = ap (after b'=') (append_cons _ "" id) ∙ ap some (append_nil id)

abbrev pub with_eq : String → String
with_eq id = "--nodeid" <> ("=" <> id)

found_here :
    (arg id : String) (args : List String)
    → starts_with arg "--nodeid" ≡ true
    → id_of (after b'=' arg) args (scan_args args) ≡ ok id
    → scan_args (arg ∷ args) ≡ ok id
unfolding scan_args
found_here arg id args starts h =
    ap (λ b. if b then id_of (after b'=' arg) args (scan_args args) else scan_args args) starts ∙ h

given_set : (id : String) (rest : Result String) → NotEmpty id → given id rest ≡ ok id
given_set id rest h = rw h refl

scan_later : (before args : List String) → NoId before → scan_args (before ++ args) ≡ scan_args args
unfolding scan_args
scan_later [] args n = refl
scan_later (arg ∷ before) args n = rw n.0 (scan_later before args n.1)

no_eq : after b'=' "--nodeid" ≡ none
unfolding after
no_eq = refl

-- A node ID that is not empty is found in the arguments of a command as it was given, whether after
-- `--nodeid=` or as the argument after `--nodeid`, if no argument before it begins with `--nodeid`,
-- and whatever comes after it.
pub scan_args-found :
    (before rest : List String) (id : String)
    → NoId before
    → NotEmpty id
    → (scan_args (before ++ with_eq id ∷ rest) ≡ ok id)
      × (scan_args (before ++ "--nodeid" ∷ id ∷ rest) ≡ ok id)
scan_args-found before rest id n set = (
  scan_later before _ n
      ∙ found_here (with_eq id) id rest (starts_with-append "--nodeid" ("=" <> id)) (
          ap (λ v. id_of v rest (scan_args rest))
            (after-append b'=' "--nodeid" ("=" <> id) no_eq ∙ after_eq id)
          ∙ given_set id _ set),
  scan_later before _ n
      ∙ found_here "--nodeid" id (id ∷ rest) refl
          (ap (λ v. id_of v (id ∷ rest) (scan_args (id ∷ rest))) no_eq ∙ given_set id _ set),
)

-- Without an error the ID is set, and the stage leaves the rest.
pub record Ided (c : Flow) (r : List Error × Flow) : Type 0 where
  pub named : r.0 ≡ [] → NotEmpty r.1.config.node_id
  pub rest : Same c r.1

record Tried (c : Flow) (r : Option Error × Flow) : Type 0 where
  named : r.0 ≡ none → NotEmpty r.1.config.node_id
  rest : Same c r.1

on_scan-Tried : (r : Result String) (d : Flow) → Given r → Tried d (on_scan r d)
on_scan-Tried (ok id) d (good h) = record {
  named = λ _. h;
  rest = record { client = refl; role = refl; net = refl; container = refl; endpoints = refl };
}
on_scan-Tried (err e) d bad = record { named = λ h. absurd (cc); rest = same d }

scan_container-Tried : (c : Option Container) (d : Flow) → Tried d (scan_container c d)
scan_container-Tried none d = record { named = λ h. absurd (cc); rest = same d }
scan_container-Tried (some c) d = on_scan-Tried _ d (scan_args-Given (args_of c))

configure_node_id_from_docker-Tried : (d : Flow) → Tried d (configure_node_id_from_docker d)
unfolding configure_node_id_from_docker
configure_node_id_from_docker-Tried d =
    if-branches (Tried d) (str_eq d.config.node_id "") (λ _. scan_container-Tried d.container d)
      (λ h. record { named = λ _. h; rest = same d })

loaded_env-Same : (r : Result (List (String × String))) (d : Flow) → Same d (loaded_env r d)
loaded_env-Same (ok env) d = record {
  client = refl;
  role = refl;
  net = refl;
  container = refl;
  endpoints = refl;
}
loaded_env-Same (err e) d = same d

on_env_id-Same : (v : Option String) (d : Flow) → Same d (on_env_id v d).1
on_env_id-Same none d = same d
on_env_id-Same (some id) d = record {
  client = refl;
  role = refl;
  net = refl;
  container = refl;
  endpoints = refl;
}

on_env-Same : (env : Option (List (String × String))) (d : Flow) → Same d (on_env env d).1
on_env-Same none d = same d
on_env-Same (some env) d = on_env_id-Same _ d

pub Same-trans : (d e f : Flow) → Same d e → Same e f → Same d f
Same-trans d e f p q = record {
  client = q.client ∙ p.client;
  role = q.role ∙ p.role;
  net = q.net ∙ p.net;
  container = q.container ∙ p.container;
  endpoints = q.endpoints ∙ p.endpoints;
}

pub from_env-Same :
    (r : Result (List (String × String))) (d : Flow)
    → Same d (configure_node_id_from_env_file r d).1
unfolding configure_node_id_from_env_file
from_env-Same r d =
    Same-trans d (loaded_env r d) _ (loaded_env-Same r d) (on_env-Same (loaded_env r d).env _)

with_errors-more : (o : Option Error) (e : Error) (es : List Error) → with_errors o (e ∷ es) ≢ []
with_errors-more none e es h = cc
with_errors-more (some x) e es h = cc

version_from-Same :
    (c : Option Container) (d : Flow)
    → Same d (version_from c d).1 × ((version_from c d).1.config ≡ d.config)
version_from-Same none d = (same d, refl)
version_from-Same (some c) d = parts (split b':' c.image).1
  where
    parts :
        (vs : List String)
        → Same d (on_image_parts vs d).1 × ((on_image_parts vs d).1.config ≡ d.config)
    parts [] = (same d, refl)
    parts (v ∷ vs) = (
      record { client = refl; role = refl; net = refl; container = refl; endpoints = refl },
      refl,
    )

pub update_node_version-Same :
    (d : Flow)
    → Same d (update_node_version_from_docker d).1
      × ((update_node_version_from_docker d).1.config ≡ d.config)
unfolding update_node_version_from_docker
update_node_version-Same d = version_from-Same d.container d

module _ {W : Type 0} (host : Host W) where
  docker_id-go : (c : Flow) (r : Option Error × Flow) → Tried c r → Ided c (docker_id host r)
  docker_id-go c (none, d) t = record { named = λ _. t.named refl; rest = t.rest }
  docker_id-go c (some e, d) t = record {
    named = λ h. absurd (with_errors-more _ e [] h);
    rest = Same-trans c d _ t.rest (from_env-Same (host.env_file d.config.env_file_path) d);
  }

  pub docker_id-Ided : (d : Flow) → Ided d (docker_id host (configure_node_id_from_docker d))
  docker_id-Ided d = docker_id-go d _ (configure_node_id_from_docker-Tried d)
