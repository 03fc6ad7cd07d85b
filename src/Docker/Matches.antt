-- ===== src/Docker/Matches.antt =====
-- What `MatchContainer` finds.
use Prim.Native.String.{String}
use mathlib.Core.List.{mem-cons_self, mem-cons_of_mem}
use metrika_agent.Prelude.{
  ◌≡◌, refl, ap, Bool, true, false, ◌||◌, List, [], ◌∷◌, ◌++◌, Mem, arith, if◌then◌else◌,
  Bool-cases, inl, inr,
}
use metrika_agent.Prelude.Error.{Error, Result, ok, err, Result-cases}
use metrika_agent.Docker.{Container, any_name, match_one, match_container}

module _ (compile : String → Result (String → Bool)) where
  -- Whether a pattern matches one of the names of a container or its image.
  abbrev pub hits : (String → Bool) → Container → Bool
  hits matches c = any_name compile matches c.names || matches c.image

  abbrev pub Hits : Container → List String → Type 0
  Hits c ids =
      (id : String) × Mem id ids × (m : String → Bool) × (compile id ≡ ok m) × (hits m c ≡ true)

  -- All identifiers are patterns, and none matches the container.
  abbrev pub Misses : Container → List String → Type 0
  Misses c [] = Unit
  Misses c (id ∷ ids) =
      ((m : String → Bool) × (compile id ≡ ok m) × (hits m c ≡ false)) × Misses c ids

  abbrev pub AllMiss : List Container → List String → Type 0
  AllMiss [] ids = Unit
  AllMiss (c ∷ cs) ids = Misses c ids × AllMiss cs ids

  abbrev pub BadPattern : Error → List String → Type 0
  BadPattern e ids = (id : String) × Mem id ids × (compile id ≡ err e)

  data One (c : Container) (ids : List String) : Result Bool → Type 0 where
    hit : Hits c ids → One c ids (ok true)
    miss : Misses c ids → One c ids (ok false)
    bad : {e : Error} → BadPattern e ids → One c ids (err e)

  One-later :
      (c : Container) (id : String) (ids : List String) (m : String → Bool) (r : Result Bool)
      → compile id ≡ ok m
      → hits m c ≡ false
      → One c ids r
      → One c (id ∷ ids) r
  One-later c id ids m r e n (hit (i, mem, k, ek, h)) = hit (i, mem-cons_of_mem id mem, k, ek, h)
  One-later c id ids m r e n (miss h) = miss ((m, e, n), h)
  One-later c id ids m r e n (bad (i, mem, h)) = bad (i, mem-cons_of_mem id mem, h)

  match_one-One : (c : Container) (ids : List String) → One c ids (match_one compile c ids)
  unfolding match_one
  match_one-One c [] = miss tt
  match_one-One c (id ∷ ids) = elim (Result-cases (compile id)) [
    | inr (x, e) ↦ rw (e, match_one) (bad (id, mem-cons_self, e))
    | inl (m, e) ↦ elim (Bool-cases (any_name compile m c.names)) [
      | inl named ↦ rw (e, named, match_one) (hit (id, mem-cons_self, m, e, ground arith))
      | inr unnamed ↦ elim (Bool-cases (m c.image)) [
        | inl image ↦
            rw (e, unnamed, image, match_one) (hit (id, mem-cons_self, m, e, ground arith))
        | inr no_image ↦
            rw (e, unnamed, no_image, match_one)
              (One-later c id ids m _ e (ground arith) (match_one-One c ids))
      ]
    ]
  ]

  module _ (not_found : Error) where
    pub data Matched (cs : List Container) (ids : List String) : Result Container → Type 0 where
      first :
          (before : List Container) (c : Container) (after : List Container)
          → cs ≡ before ++ c ∷ after
          → AllMiss before ids
          → Hits c ids
          → Matched cs ids (ok c)
      nothing : AllMiss cs ids → Matched cs ids (err not_found)
      bad_pattern : {e : Error} → BadPattern e ids → Matched cs ids (err e)

    Matched-later :
        (c : Container) (cs : List Container) (ids : List String) (r : Result Container)
        → Misses c ids
        → Matched cs ids r
        → Matched (c ∷ cs) ids r
    Matched-later c cs ids r m (first before d after e missed h) =
        first (c ∷ before) d after (ap (◌∷◌ c) e) (m, missed) h
    Matched-later c cs ids r m (nothing h) = nothing (m, h)
    Matched-later c cs ids r m (bad_pattern b) = bad_pattern b

    after_head :
        (c : Container) (cs : List Container) (ids : List String) (r : Result Bool)
        → One c ids r
        → Matched cs ids (match_container compile not_found cs ids)
        → Matched (c ∷ cs) ids (elim r [
          | err e ↦ err e
          | ok found ↦ if found then ok c else match_container compile not_found cs ids
        ])
    after_head c cs ids r (hit h) rest = first [] c cs refl tt h
    after_head c cs ids r (miss h) rest = Matched-later c cs ids _ h rest
    after_head c cs ids r (bad b) rest = bad_pattern b

    -- `MatchContainer` returns a container that an identifier matches, by a name or by its image,
    -- while no identifier matches a container before it; or it returns that none was found, and
    -- then no identifier matches any container; or the error of an identifier that is no pattern.
    pub match_container-Matched :
        (cs : List Container) (ids : List String)
        → Matched cs ids (match_container compile not_found cs ids)
    unfolding match_container
    match_container-Matched [] ids = nothing tt
    match_container-Matched (c ∷ cs) ids =
        after_head c cs ids (match_one compile c ids) (match_one-One c ids)
          (match_container-Matched cs ids)
