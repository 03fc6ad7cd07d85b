-- ===== src/Timesync/Platform/Health.antt =====
-- When the agent's time counts as in sync with the platform's.
use metrika_agent.Prelude.{◌≡◌, ◌↔◌, true, false, arith, if◌then◌else◌, Bool-cases, inl, inr}
use metrika_agent.Prelude.Int.{ℤ, ltb_ℤ, ◌+ℤ◌, ◌-ℤ◌, ◌≤ℤ◌, +ℤ_parts, -ℤ_parts}
use metrika_agent.Timesync.Duration.{abs, sub, IsDelta, sub-IsDelta, abs_over}
use metrika_agent.Timesync.Platform.{
  PlatformSync, max_delta, subsequent_max, is_zero_time, delta, register, healthy,
}

near_iff :
    (a b : ℤ)
    → IsDelta a
    → IsDelta b
    → (ltb_ℤ subsequent_max (abs (sub a b)) ≡ false)
      ↔ ((a ≤ℤ b +ℤ subsequent_max) × (b ≤ℤ a +ℤ subsequent_max))
near_iff a b ha hb = rw (sub-IsDelta a b ha hb) (
    let (over, back) = abs_over (a -ℤ b) 5_000_000_000 (omega (arith, -ℤ_parts a b)) in
    (
      λ p.
          let q = over p in
          omega (arith, -ℤ_parts a b, +ℤ_parts a subsequent_max, +ℤ_parts b subsequent_max),
      λ p. back (omega (arith, -ℤ_parts a b, +ℤ_parts a subsequent_max, +ℤ_parts b subsequent_max)),
    ))

-- The delta `d` is within 20 s, and within 5 s of the one before, `c`.
pub record Steady (c d : ℤ) : Type 0 where
  pub within : d ≤ℤ max_delta
  pub not_more : d ≤ℤ c +ℤ subsequent_max
  pub not_less : c ≤ℤ d +ℤ subsequent_max

healthy-Steady :
    (p : PlatformSync)
    → IsDelta p.prev_delta
    → IsDelta p.current_delta
    → (healthy p ≡ true) ↔ Steady p.prev_delta p.current_delta
unfolding healthy
healthy-Steady p hp hc =
    let near = near_iff p.current_delta p.prev_delta hc hp in
    (
      λ h.
          let bound = near.0 (ground arith) in
          record { within = ground arith; not_more = bound.0; not_less = bound.1 },
      λ s. let bound = near.1 (s.not_more, s.not_less) in ground arith,
    )

-- The delta that `register` leaves as the one before `d`: `d` itself if it is the first.
abbrev before : PlatformSync → ℤ → ℤ
before p d = if is_zero_time p.first_timestamp then d else p.current_delta

-- After a timestamp is registered, for deltas that are no negative durations, the time counts as in
-- sync exactly when the new delta is at most 20 s and at most 5 s away from the last one
-- registered; a first timestamp (after the start, or after `Clear`) has only the first of these
-- bounds to meet.
pub register-Steady :
    (now ts : ℤ) (p : PlatformSync)
    → IsDelta p.current_delta
    → IsDelta (delta now ts)
    → (healthy (register now ts p) ≡ true) ↔ Steady (before p (delta now ts)) (delta now ts)
unfolding register
register-Steady now ts p hc hd = elim (Bool-cases (is_zero_time p.first_timestamp)) [
  | inl first ↦ rw first (healthy-Steady _ hd hd)
  | inr later ↦ rw later (healthy-Steady _ hc hd)
]
