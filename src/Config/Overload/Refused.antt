-- ===== src/Config/Overload/Refused.antt =====
-- What the environment makes of the configuration, field by field.
use Prim.Native.String.{String}
use text.Mathlib.Text.{◌==◌ as str_eq}
use metrika_agent.Prelude.{
  ◌≡◌, ◌⊎◌, refl, true, false, Option, none, some, List, [], ◌∷◌, Bool-cases, inl, inr,
  if◌then◌else◌, Mem, Bool,
}
use metrika_agent.Prelude.Error.{Error, Result, ok, err, failure, wrapped}
use metrika_agent.Config.{Confs}
use metrika_agent.Config.Overload.{Parsers, and_then, put_parsed, text_env, parsed_env}

-- The variables that are parsed, each with the text of its error.
abbrev pub bool_vars : List (String × String)
bool_vars =
    ("MA_PLATFORM_ENABLED", "platform_enabled env parse error")
    ∷ (
      "MA_RUNTIME_DISABLE_FINGERPRINT_VALIDATION",
      "runtime_disable_fingeprint_validation env parse error",
    )
    ∷ (
      "MA_RUNTIME_HOST_HEADER_VALIDATION_ENABLED",
      "runtime_host_header_validation_enabled env parse error",
    )
    ∷ ("MA_DISCOVERY_DEACTIVATED", "discovery_deactivated env parse error")
    ∷ []

abbrev pub int_vars : List (String × String)
int_vars =
    ("MA_PLATFORM_BATCH_N", "platform_batch_n env parse error")
    ∷ ("MA_BUFFER_MIN_BUFFER_SIZE", "buffer_min_buffer_size env parse error")
    ∷ []

abbrev pub uint_vars : List (String × String)
uint_vars = ("MA_BUFFER_MAX_HEAP_ALLOC", "buffer_max_heap_alloc env parse error") ∷ []

abbrev pub duration_vars : List (String × String)
duration_vars =
    ("MA_PLATFORM_MAX_PUBLISH_INTERVAL", "platform_max_publish_internval env parse error")
    ∷ ("MA_PLATFORM_TRANSPORT_TIMEOUT", "platform_transport_timeout env parse error")
    ∷ ("MA_BUFFER_TTL", "buffer_ttl env parse error")
    ∷ ("MA_RUNTIME_SAMPLING_INTERVAL", "runtime_sampling_interval env parse error")
    ∷ []

module _ (parse : Parsers) (getenv : String → String) where
  -- A variable that is set, and that its parser refuses with `e`.
  abbrev pub Refuses : {A : Type 0} → (String → Result A) → String → Error → Type 0
  Refuses parser name e = (str_eq (getenv name) "" ≡ false) × (parser (getenv name) ≡ err e)

  -- Some variable is, and this is the error returned.
  pub data Refused : Error → Type 0 where
    bool_refused :
        {name text : String} {e : Error}
        → Mem (name, text) bool_vars
        → Refuses parse.bool name e
        → Refused (wrapped e (failure text))
    int_refused :
        {name text : String} {e : Error}
        → Mem (name, text) int_vars
        → Refuses parse.int name e
        → Refused (wrapped e (failure text))
    uint_refused :
        {name text : String} {e : Error}
        → Mem (name, text) uint_vars
        → Refuses parse.uint name e
        → Refused (wrapped e (failure text))
    duration_refused :
        {name text : String} {e : Error}
        → Mem (name, text) duration_vars
        → Refuses parse.duration name e
        → Refused (wrapped e (failure text))

  -- The value of a variable that is set, through its parser.
  abbrev pub text_or : {A : Type 0} → (String → A) → String → A → A
  text_or read name old = if str_eq (getenv name) "" then old else read (getenv name)

  abbrev pub value_or : {A B : Type 0} → (A → B) → B → Result A → B
  value_or read old (ok a) = read a
  value_or read old (err e) = old

  abbrev pub parsed_or : {A B : Type 0} → (String → Result A) → (A → B) → String → B → B
  parsed_or parser read name old =
      if str_eq (getenv name) "" then old else value_or read old (parser (getenv name))

  -- A variable that is not set, or that its parser reads.
  abbrev pub IsRead : {A : Type 0} → (String → Result A) → String → Type 0
  IsRead {A} parser name =
      (str_eq (getenv name) "" ≡ true) ⊎ ((a : A) × (parser (getenv name) ≡ ok a))

  -- The block ends with `r` if `P`, or with the error of a variable that is refused.
  pub data Ends (P : Type 0) (r : Confs) : Option Error × Confs → Type 0 where
    complete : P → Ends P r (none, r)
    refused : {t : Confs} {e : Error} → Refused e → Ends P r (some e, t)

  pub text_step :
      {V : Type 0} (read : String → V) (put : V → Confs → Confs) (get : Confs → V) (name : String)
      → ((s : Confs) → put (get s) s ≡ s)
      → (s : Confs)
      → text_env parse getenv name (λ v. put (read v)) s ≡ (none, put (text_or read name (get s)) s)
  unfolding text_env
  text_step read put get name same s = elim (Bool-cases (str_eq (getenv name) "")) [
    | inl empty ↦ rw (empty, text_env, same s) refl
    | inr set ↦ rw (set, text_env) refl
  ]

  parsed_case :
      {A V P : Type 0} (read : A → V) (put : V → Confs → Confs) (get : Confs → V) (text : String)
      (s : Confs) (empty : Bool) (r : Result A)
      → put (get s) s ≡ s
      → (empty ≡ true → P)
      → ((a : A) → r ≡ ok a → P)
      → ((e : Error) → empty ≡ false → r ≡ err e → Refused (wrapped e (failure text)))
      → Ends P
          (put (if empty then get s else value_or read (get s) r) s)
          (if empty then (none, s) else put_parsed text (λ a. put (read a)) r s)
  parsed_case read put get text s true r same skips reads bad = rw same (complete (skips refl))
  parsed_case read put get text s false (ok a) same skips reads bad = complete (reads a refl)
  parsed_case read put get text s false (err e) same skips reads bad = refused (bad e refl refl)

  pub parsed_step :
      {A V : Type 0} (parser : String → Result A) (read : A → V) (put : V → Confs → Confs)
      (get : Confs → V) (name text : String)
      → ((s : Confs) → put (get s) s ≡ s)
      → ((e : Error) → Refuses parser name e → Refused (wrapped e (failure text)))
      → (s : Confs)
      → Ends
          (IsRead parser name)
          (put (parsed_or parser read name (get s)) s)
          (parsed_env parse getenv parser name text (λ a. put (read a)) s)
  unfolding parsed_env
  parsed_step parser read put get name text same bad s =
      parsed_case read put get text s (str_eq (getenv name) "") (parser (getenv name)) (same s)
        (λ empty. inl empty) (λ a good. inr (a, good)) (λ e set wrong. bad e (set, wrong))

  after_first :
      {P Q : Type 0} {q : Confs} {o : Option Error × Confs} → P → Ends Q q o → Ends (P × Q) q o
  after_first p (complete q) = complete (p, q)
  after_first p (refused x) = refused x

  pub Ends-then :
      {P Q : Type 0} {r q : Confs} {o : Option Error × Confs} (g : Confs → Option Error × Confs)
      → Ends P r o
      → Ends Q q (g r)
      → Ends (P × Q) q (and_then o g)
  Ends-then g (complete p) next = after_first p next
  Ends-then g (refused x) next = refused x

  -- The last block is one that always goes on.
  pub Ends-last :
      {P : Type 0} {r q : Confs} {o : Option Error × Confs} (g : Confs → Option Error × Confs)
      → Ends P r o
      → g r ≡ (none, q)
      → Ends P q (and_then o g)
  Ends-last g (complete p) e = rw e (complete p)
  Ends-last g (refused x) e = refused x

  pub text_then :
      {Q : Type 0} {r q : Confs} {o : Option Error × Confs} (g : Confs → Option Error × Confs)
      → o ≡ (none, r)
      → Ends Q q (g r)
      → Ends Q q (and_then o g)
  text_then g e next = rw e next

  pub text_last :
      {r q : Confs} {o : Option Error × Confs} (g : Confs → Option Error × Confs)
      → o ≡ (none, r)
      → g r ≡ (none, q)
      → and_then o g ≡ (none, q)
  text_last g e next = rw e next
