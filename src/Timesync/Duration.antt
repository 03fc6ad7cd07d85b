-- ===== src/Timesync/Duration.antt =====
-- int64 durations: negation, difference, and `abs` of pkg/timesync/platform.go.
use metrika_agent.Prelude.{ℕ, ◌↔◌, false, suc, ◌+◌, ◌-◌, ◌≤◌, ◌≡◌, ◌==◌, arith, if◌then◌else◌}
use metrika_agent.Prelude.Int.{
  ℤ, pos, negsuc, pos_part, neg_part, ltb_ℤ, ◌+ℤ◌, ◌-ℤ◌, ◌≤ℤ◌, -ℤ_parts,
}

-- 2⁶³ - 1
abbrev pub max_duration : ℕ
max_duration = 9_223_372_036_854_775_807

-- One turn of wrapping, which is all that a sum or a difference of two int64 needs.
pub wrap : ℤ → ℤ
wrap d =
    if ltb_ℤ (pos max_duration) d
    then d -ℤ pos 18_446_744_073_709_551_616
    else if ltb_ℤ d (negsuc max_duration)
    then d +ℤ pos 18_446_744_073_709_551_616
    else d

pub sub : ℤ → ℤ → ℤ
sub a b = wrap (a -ℤ b)

-- The least int64 is its own opposite.
unfoldable pub abs : ℤ → ℤ
abs (pos n) = pos n
abs (negsuc n) = if n == max_duration then negsuc n else pos (suc n)

-- A duration that is not negative.
abbrev pub IsDelta : ℤ → Type 0
IsDelta d = (pos 0 ≤ℤ d) × (d ≤ℤ pos max_duration)

-- Between two such durations there is no overflow.
pub sub-IsDelta : (a b : ℤ) → IsDelta a → IsDelta b → sub a b ≡ a -ℤ b
unfolding sub wrap
sub-IsDelta a b ha hb = ground (arith, -ℤ_parts a b)

-- `abs` of a duration above the least is over `m` unless the duration lies between -m and m.
pub abs_over :
    (d : ℤ) (m : ℕ)
    → negsuc (max_duration - 1) ≤ℤ d
    → (ltb_ℤ (pos m) (abs d) ≡ false) ↔ ((d ≤ℤ pos m) × (neg_part d ≤ pos_part d + m))
unfolding abs
abs_over (pos n) m h = (λ p. ground arith, λ p. ground arith)
abs_over (negsuc n) m h = (λ p. ground arith, λ p. ground arith)
