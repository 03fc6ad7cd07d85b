-- ===== src/Watch/Influx/Latest.antt =====
-- Which sample the exporter keeps.
use Prim.Native.String.{String}
use text.Mathlib.Text.{◌==◌ as str_eq}
use text.Mathlib.TextEquality.{eq_iff}
use text.Mathlib.TextPositions.{eq_refl}
use metrika_agent.Prelude.{
  ◌≡◌, refl, ap, sym, subst, ◌∙◌, Bool, true, false, Option, none, some, List, [], ◌∷◌, arith,
  if-branches, if◌then◌else◌, Bool-cases, inl, inr,
}
use metrika_agent.Prelude.Int.{ltb_ℤ}
use metrika_agent.Watch.Influx.{Sample, Samples, sample_at, put_sample, newer, on_sample}

module _ {V : Type 0} where
  sample_at-put_sample :
      (id other : String) (s : Sample V) (samples : Samples V)
      → sample_at other (put_sample id s samples)
        ≡ (if str_eq id other then some s else sample_at other samples)
  sample_at-put_sample id other s [] = refl
  sample_at-put_sample id other s ((i, t) ∷ samples) =
      ground (
        arith,
        sample_at-put_sample id other s samples,
        eq_iff i id,
        eq_iff id other,
        eq_iff i other,
      )

  -- The samples that come in, one after the other.
  pub on_samples : List (Sample V) → Samples V → Samples V
  on_samples [] samples = samples
  on_samples (s ∷ ss) samples = on_samples ss (on_sample s samples)

  -- Of two samples the second, if it is newer.
  abbrev pub pick : Option (Sample V) → Sample V → Sample V
  pick none s = s
  pick (some prev) s = if ltb_ℤ prev.timestamp s.timestamp then s else prev

  -- The newest of the samples with an identifier, and of those the first.
  abbrev pub latest : String → Option (Sample V) → List (Sample V) → Option (Sample V)
  latest id best [] = best
  latest id best (s ∷ ss) = latest id (if str_eq s.id id then some (pick best s) else best) ss

  put_here :
      (s : Sample V) (samples : Samples V) → sample_at s.id (put_sample s.id s samples) ≡ some s
  put_here s samples =
      sample_at-put_sample s.id s.id s samples
      ∙ ap (λ b. if b then some s else sample_at s.id samples) (eq_refl s.id)

  if_here :
      (b : Bool) (s prev : Sample V) (samples : Samples V)
      → sample_at s.id samples ≡ some prev
      → sample_at s.id (if b then put_sample s.id s samples else samples)
        ≡ some (if b then s else prev)
  if_here true s prev samples found = put_here s samples
  if_here false s prev samples found = found

  newer_here :
      (old : Option (Sample V)) (s : Sample V) (samples : Samples V)
      → sample_at s.id samples ≡ old
      → sample_at s.id (newer old s samples) ≡ some (pick old s)
  newer_here none s samples absent = put_here s samples
  newer_here (some prev) s samples found =
      if_here (ltb_ℤ prev.timestamp s.timestamp) s prev samples found

  put_elsewhere :
      (id : String) (s : Sample V) (samples : Samples V)
      → str_eq s.id id ≡ false
      → sample_at id (put_sample s.id s samples) ≡ sample_at id samples
  put_elsewhere id s samples h =
      sample_at-put_sample s.id id s samples
      ∙ ap (λ b. if b then some s else sample_at id samples) h

  newer_elsewhere :
      (id : String) (old : Option (Sample V)) (s : Sample V) (samples : Samples V)
      → str_eq s.id id ≡ false
      → sample_at id (newer old s samples) ≡ sample_at id samples
  newer_elsewhere id none s samples h = put_elsewhere id s samples h
  newer_elsewhere id (some prev) s samples h =
      if-branches (λ x. sample_at id x ≡ sample_at id samples) (ltb_ℤ prev.timestamp s.timestamp)
        (λ _. put_elsewhere id s samples h) (λ _. refl)

  sample_at-on_sample :
      (id : String) (s : Sample V) (samples : Samples V)
      → sample_at id (on_sample s samples)
        ≡ (if str_eq s.id id then some (pick (sample_at id samples) s) else sample_at id samples)
  unfolding on_sample
  sample_at-on_sample id s samples = elim (Bool-cases (str_eq s.id id)) [
    | inl same ↦
        subst
          (λ x.
            sample_at x (newer (sample_at s.id samples) s samples)
            ≡ some (pick (sample_at x samples) s))
          ((eq_iff s.id id).0 same) (newer_here (sample_at s.id samples) s samples refl)
        ∙ ap (λ b. if b then some (pick (sample_at id samples) s) else sample_at id samples)
            (sym same)
    | inr other ↦
        newer_elsewhere id (sample_at s.id samples) s samples other
        ∙ ap (λ b. if b then some (pick (sample_at id samples) s) else sample_at id samples)
            (sym other)
  ]

  -- After samples have come in, in any order, the store of the influx exporter gives for every
  -- identifier the newest of its samples, and of those with the same time the first, counting the
  -- one that it had before; it gives none if there was none.
  pub on_samples-latest :
      (id : String) (ss : List (Sample V)) (samples : Samples V)
      → sample_at id (on_samples ss samples) ≡ latest id (sample_at id samples) ss
  unfolding on_samples
  on_samples-latest id [] samples = refl
  on_samples-latest id (s ∷ ss) samples =
      on_samples-latest id ss (on_sample s samples)
      ∙ ap (λ best. latest id best ss) (sample_at-on_sample id s samples)
