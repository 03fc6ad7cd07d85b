-- ===== src/Watch/Http/Followed.antt =====
-- Which URL the watch of an HTTP endpoint gets, and when its goroutine panics.
use Prim.Native.String.{String}
use text.Mathlib.Text.{◌==◌ as str_eq}
use text.Mathlib.TextEquality.{eq_iff}
use metrika_agent.Prelude.{
  ℕ, ◌≡◌, ◌≢◌, ◌⊎◌, inl, inr, refl, ap, sym, subst, ◌∙◌, true, false, ◌==◌, ltb, Option, none, some,
  List, [], ◌∷◌, length, get_elem?, get_elem?_total, lt_of_get_elem?, get_elem?-none, arith,
  Bool-cases, if-branches, if◌then◌else◌,
}
use metrika_agent.Prelude.Outcome.{Outcome, done, panic, ◌>>=◌, Yields, yields, Yields-value}
use metrika_agent.Prelude.Error.{Error, Result, ok, err}
use metrika_agent.Flow.{PefEndpoint}
use metrika_agent.Watch.{start_unsafe}
use metrika_agent.Watch.Http.{
  HttpNode, HttpWatch, HttpInput, url_update, interval, stop_key, set_url, on_url_update, on_body,
  on_request, on_response, on_interval, http_inputs, start_http,
}

-- The URL of the endpoint with the watch's index, if there is one.
abbrev pub url_at : ℕ → String → List PefEndpoint → String
url_at i url eps = elim (get_elem? eps i) [ none ↦ url | some ep ↦ ep.url ]

-- The URL after the inputs, up to the one that stops the watch.
abbrev pub url_after : ℕ → String → List HttpInput → String
url_after i url [] = url
url_after i url (url_update upd ∷ inputs) = url_after i (url_at i url upd.val) inputs
url_after i url (interval ∷ inputs) = url_after i url inputs
url_after i url (stop_key ∷ inputs) = url

-- A list of endpoints is empty, or its length is not the index.
abbrev pub Fits : ℕ → List PefEndpoint → Type 0
Fits i eps = (length eps ≡ 0) ⊎ (length eps ≢ i)

-- All lists of endpoints do, up to the input that stops the watch.
abbrev pub Fitting : ℕ → List HttpInput → Type 0
Fitting i [] = Unit
Fitting i (url_update upd ∷ inputs) = Fits i upd.val × Fitting i inputs
Fitting i (interval ∷ inputs) = Fitting i inputs
Fitting i (stop_key ∷ inputs) = Unit

module _ {W : Type 0} (env : HttpNode W) where
  -- What a step keeps of `s`, with `url` as the URL.
  pub record Same (url : String) (s r : HttpWatch W) : Type 0 where
    pub at_url : r.conf.url ≡ url
    pub index : r.conf.url_index ≡ s.conf.url_index
    pub goes_on : r.returned ≡ s.returned

  set_url-Same : (s : HttpWatch W) (ep : PefEndpoint) → Same ep.url s (set_url env s ep)
  set_url-Same s ep =
      if-branches (Same ep.url s) (str_eq ep.url s.conf.url)
        (λ same. record {
          at_url = sym ((eq_iff ep.url s.conf.url).0 same);
          index = refl;
          goes_on = refl;
        })
        (λ _. record { at_url = refl; index = refl; goes_on = refl })

  on_body-Same : (r : Result String × W) (s : HttpWatch W) → Same s.conf.url s (on_body env r s)
  on_body-Same (err e, w) s = record { at_url = refl; index = refl; goes_on = refl }
  on_body-Same (ok out, w) s = record { at_url = refl; index = refl; goes_on = refl }

  on_response-Same : (r : Result ℕ × W) (s : HttpWatch W) → Same s.conf.url s (on_response env r s)
  on_response-Same (err e, w) s = record { at_url = refl; index = refl; goes_on = refl }
  on_response-Same (ok status, w) s =
      if-branches (Same s.conf.url s) (ltb 299 status)
        (λ _. record { at_url = refl; index = refl; goes_on = refl })
        (λ _. on_body-Same (env.read_all w) s)

  on_request-Same : (o : Option Error) (s : HttpWatch W) → Same s.conf.url s (on_request env o s)
  on_request-Same (some e) s = record { at_url = refl; index = refl; goes_on = refl }
  on_request-Same none s = on_response-Same (env.send s.conf.url s.conf.headers s.node) s

  -- The guards of an update let an endpoint through that is there.
  found_lem :
      (eps : List PefEndpoint) (s : HttpWatch W) (ep : PefEndpoint)
      → get_elem? eps s.conf.url_index ≡ some ep
      → on_url_update env eps s ≡ done (set_url env s ep)
  unfolding on_url_update
  found_lem eps s ep e = let inside = lt_of_get_elem? eps s.conf.url_index e in ground arith

  missing_lem :
      (eps : List PefEndpoint) (s : HttpWatch W)
      → get_elem? eps s.conf.url_index ≡ none
      → Fits s.conf.url_index eps
      → on_url_update env eps s ≡ done s
  unfolding on_url_update
  missing_lem eps s e (inl empty) = ground arith
  missing_lem eps s e (inr other) = ground (arith, get_elem?_total eps s.conf.url_index)

  on_url_update-panics :
      (eps : List PefEndpoint) (s : HttpWatch W)
      → length eps ≢ 0
      → length eps ≡ s.conf.url_index
      → on_url_update env eps s ≡ panic
  unfolding on_url_update
  on_url_update-panics eps s some_there same =
      let none_there = get_elem?-none eps s.conf.url_index (omega arith) in ground arith

  url_at-found :
      (i : ℕ) (url : String) (eps : List PefEndpoint) (ep : PefEndpoint)
      → get_elem? eps i ≡ some ep
      → url_at i url eps ≡ ep.url
  url_at-found i url eps ep e = ground arith

  update-Same :
      (eps : List PefEndpoint) (s : HttpWatch W) (o : Option PefEndpoint)
      → get_elem? eps s.conf.url_index ≡ o
      → Fits s.conf.url_index eps
      → Yields (Same (url_at s.conf.url_index s.conf.url eps) s) (on_url_update env eps s)
  update-Same eps s none e fits =
      subst (Yields (Same (url_at s.conf.url_index s.conf.url eps) s))
        (sym (missing_lem eps s e fits))
        (yields (record { at_url = ground arith; index = refl; goes_on = refl }))
  update-Same eps s (some ep) e fits =
      subst (Yields (Same (url_at s.conf.url_index s.conf.url eps) s)) (sym (found_lem eps s ep e))
        (yields (
          subst (λ url. Same url s (set_url env s ep))
            (sym (url_at-found s.conf.url_index s.conf.url eps ep e)) (set_url-Same s ep)))

  Fits-cases : (i : ℕ) (eps : List PefEndpoint) → Fits i eps ⊎ ((length eps ≢ 0) × (length eps ≡ i))
  Fits-cases i eps = elim (Bool-cases (length eps == 0)) [
    | inl empty ↦ inl (inl (ground arith))
    | inr more ↦ elim (Bool-cases (length eps == i)) [
      | inl same ↦ inr (ground arith, ground arith)
      | inr other ↦ inl (inr (ground arith))
    ]
  ]

  abbrev pub then_run : List HttpInput → Outcome (HttpWatch W) → Outcome (HttpWatch W)
  then_run inputs o = o >>= λ r. if r.returned then done r else http_inputs env inputs r

  -- A step that returns, and leaves the goroutine running, is followed by the others.
  then_rest :
      (inputs : List HttpInput) (o : Outcome (HttpWatch W)) (r : HttpWatch W)
      → o ≡ done r
      → r.returned ≡ false
      → then_run inputs o ≡ http_inputs env inputs r
  then_rest inputs o r e goes_on =
      ap (then_run inputs) e ∙ ap (λ b. if b then done r else http_inputs env inputs r) goes_on

  -- The inputs are fitting, and the run ends with the URL after them; or they are not, and it panics.
  abbrev pub Follows : ℕ → String → List HttpInput → Outcome (HttpWatch W) → Type 0
  Follows i url inputs o =
      (Fitting i inputs × Yields (λ r. r.conf.url ≡ url_after i url inputs) o)
      ⊎ ((¬ Fitting i inputs) × (o ≡ panic))

  Fits-before :
      (i : ℕ) (url : String) (eps : List PefEndpoint) (inputs : List HttpInput)
      (o : Outcome (HttpWatch W))
      → Fits i eps
      → Follows i (url_at i url eps) inputs o
      → Follows i url (url_update (record { val = eps }) ∷ inputs) o
  Fits-before i url eps inputs o fits (inl (fitting, ends)) = inl ((fits, fitting), ends)
  Fits-before i url eps inputs o fits (inr (not_fitting, panics)) =
      inr (λ f. not_fitting f.1, panics)

  Fits-not : (i : ℕ) (eps : List PefEndpoint) → length eps ≢ 0 → length eps ≡ i → ¬ Fits i eps
  Fits-not i eps more same (inl empty) = more empty
  Fits-not i eps more same (inr other) = other same

  -- What follows a step that keeps the watch but for its URL.
  rest-Follows :
      (inputs : List HttpInput) (s : HttpWatch W) {url : String} (o : Outcome (HttpWatch W))
      (r : HttpWatch W)
      → o ≡ done r
      → Same url s r
      → s.returned ≡ false
      → Follows r.conf.url_index r.conf.url inputs (http_inputs env inputs r)
      → Follows s.conf.url_index url inputs (then_run inputs o)
  rest-Follows inputs s {url} o r e same goes_on follows =
      subst (λ i. Follows i url inputs (then_run inputs o)) same.index
        (subst (λ u. Follows r.conf.url_index u inputs (then_run inputs o)) same.at_url
          (subst (Follows r.conf.url_index r.conf.url inputs)
            (sym (then_rest inputs o r e (same.goes_on ∙ goes_on))) follows))

  update-Follows :
      (eps : List PefEndpoint) (inputs : List HttpInput) (s : HttpWatch W)
      → s.returned ≡ false
      → ((r : HttpWatch W)
          → r.returned ≡ false
          → Follows r.conf.url_index r.conf.url inputs (http_inputs env inputs r))
      → Follows s.conf.url_index s.conf.url
          (url_update (record { val = eps }) ∷ inputs)
          (then_run inputs (on_url_update env eps s))
  update-Follows eps inputs s goes_on rest = elim (Fits-cases s.conf.url_index eps) [
    | inl fits ↦
        let (r, e, same) =
          Yields-value (update-Same eps s (get_elem? eps s.conf.url_index) refl fits) in
        Fits-before s.conf.url_index s.conf.url eps inputs _ fits
          (rest-Follows inputs s _ r e same goes_on (rest r (same.goes_on ∙ goes_on)))
    | inr (more, equal) ↦ inr (
      λ f. Fits-not s.conf.url_index eps more equal f.0,
      ap (then_run inputs) (on_url_update-panics eps s more equal),
    )
  ]

  http_inputs-Follows :
      (inputs : List HttpInput) (s : HttpWatch W)
      → s.returned ≡ false
      → Follows s.conf.url_index s.conf.url inputs (http_inputs env inputs s)
  unfolding http_inputs on_interval
  http_inputs-Follows [] s goes_on = inl (tt, yields refl)
  http_inputs-Follows (url_update upd ∷ inputs) s goes_on =
      update-Follows upd.val inputs s goes_on (http_inputs-Follows inputs)
  http_inputs-Follows (interval ∷ inputs) s goes_on =
      let same = on_request-Same (env.new_request s.conf.url) s in
      let r = on_interval env s in
      rest-Follows inputs s (done r) r refl same goes_on
        (http_inputs-Follows inputs r (same.goes_on ∙ goes_on))
  http_inputs-Follows (stop_key ∷ inputs) s goes_on = inl (tt, yields refl)

  -- Of a watch whose goroutine has not returned: if no update with endpoints, up to the input that
  -- stops the watch, has just as many as the watch's index, the goroutine takes all inputs without
  -- a panic, and in the end the watch gets the URL of the last update that has an endpoint with its
  -- index, or the one it had before. If an update has, the goroutine panics.
  pub start_http-Follows :
      (inputs : List HttpInput) (s : HttpWatch W)
      → s.returned ≡ false
      → Follows s.conf.url_index s.conf.url inputs (start_http env inputs s)
  unfolding start_http
  start_http-Follows inputs s goes_on =
      http_inputs-Follows inputs (record s { watch = start_unsafe s.watch; client = true }) goes_on
