-- ===== src/Notification/Backoff.antt =====
-- Backoff (internal/notification/notification.go): the delay before a retry, in nanoseconds. The
-- doubling of an int64 does not overflow: a doubled delay is the base or below two hours. The random
-- jitter, a float computation, is a parameter that takes the delay to the delay used.
use status_dashboard_backend.Common.{
  ℕ, zero, suc, ◌+◌, ◌*◌, ◌-◌, ◌^◌, ◌≤◌, min, ◌≡◌, ltb, leb, if◌then◌else◌, arith, Bool-cases, inl,
  inr, leb→le,
}
use native.Mathlib.Nat.{pow-suc}
use status_dashboard_backend.Model.{Time}

-- 2 * time.Hour
abbrev pub max_backoff : Time
max_backoff = 7200000000000

-- the loop `for i := 1; i < attempts; i++`, `n` rounds of it
unfoldable pub double_until_max : ℕ → Time → Time
double_until_max zero delay = delay
double_until_max (suc n) delay =
    let rest = double_until_max n (delay * 2) in
    if leb max_backoff (delay * 2) then max_backoff else rest

unfoldable pub backoff_delay : Time → ℕ → Time
unfolding double_until_max
backoff_delay base attempts =
    let delay = double_until_max (attempts - 1) base in
    if ltb max_backoff delay then max_backoff else delay

unfoldable pub backoff : (Time → Time) → Time → Time → ℕ → Time
unfolding backoff_delay
backoff with_jitter base now attempts = now + with_jitter (backoff_delay base attempts)

one-le-pow : (n : ℕ) → 1 ≤ 2 ^ n
one-le-pow zero = omega arith
one-le-pow (suc n) = omega (arith, one-le-pow n)

le-mul-pow : (d n : ℕ) → d ≤ d * 2 ^ n
le-mul-pow zero n = omega arith
le-mul-pow (suc d) n = omega (arith, one-le-pow n, le-mul-pow d n)

double-pow : (d n : ℕ) → d * 2 ^ suc n ≡ d * 2 * 2 ^ n
double-pow d n = rw pow-suc (omega arith)

capped :
    (n : ℕ) (delay : Time)
    → min max_backoff (double_until_max n delay) ≡ min max_backoff (delay * 2 ^ n)
unfolding double_until_max
capped zero delay = omega arith
capped (suc n) delay = elim (Bool-cases (leb max_backoff (delay * 2))) [
  | inl e ↦ rw e (
      omega (arith, leb→le max_backoff (delay * 2) e, double-pow delay n, le-mul-pow (delay * 2) n))
  | inr e ↦ rw e (omega (arith, capped n (delay * 2), double-pow delay n))
]

-- The delay before the next try doubles with each attempt and stops at two hours.
backoff_delay-eq :
    (base : Time) (attempts : ℕ)
    → backoff_delay base attempts ≡ min max_backoff (base * 2 ^ (attempts - 1))
unfolding backoff_delay
backoff_delay-eq base attempts = ground (arith, capped (attempts - 1) base)
