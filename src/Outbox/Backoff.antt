-- ===== src/Outbox/Backoff.antt =====
-- internal/outbox/backoff.go: how long an event that could not be published waits.
use task_forge.Base.{
  false, true, Bool-cases, inl, inr, ◌≡◌, ◌≤◌, ℕ, ◌-◌, ℤ, ◌||◌, Option, none, some, ltb,
  if◌then◌else◌,
}
use task_forge.Lifecycle.Retry.{Float64, at_least, positive_or}
use task_forge.Schema.{second}

pub record BackoffPolicy (fl : Float64) : Type 0 where
  pub base : ℤ
  pub max : ℤ
  pub multiplier : fl.Carrier
  pub jitter : fl.Carrier

module _ (fl : Float64) where
  open fl use {
    Carrier, of_ℕ, truncate, is_inf, is_nan, lt, le, add, sub, mul, pow, of_ℕ_number, zero_le,
    le_refl, le_of_not_lt, truncate_le,
  }

  unfoldable pub longest : BackoffPolicy fl → ℕ
  longest p = at_least (positive_or second p.base) p.max

  -- The delay before it is held to [0, max]; `none` is a nil source.
  unfoldable pub jittered : BackoffPolicy fl → ℕ → Option Carrier → Carrier
  unfolding longest
  jittered p attempts sample =
      let n = if ltb attempts 1 then 1 else attempts in
      let multiplier = if lt p.multiplier (of_ℕ 1) then of_ℕ 1 else p.multiplier in
      let raw = mul (of_ℕ (positive_or second p.base)) (pow multiplier (of_ℕ (n - 1))) in
      let capped = if is_inf raw || lt (of_ℕ (longest p)) raw then of_ℕ (longest p) else raw in
      elim sample [
        | none ↦ capped
        | some u ↦
            if lt (of_ℕ 0) p.jitter
            then (let j = if lt (of_ℕ 1) p.jitter then of_ℕ 1 else p.jitter in
                mul capped (add (of_ℕ 1) (mul j (sub (mul (of_ℕ 2) u) (of_ℕ 1)))))
            else capped
      ]

  -- BackoffPolicy.Delay
  unfoldable pub backoff : BackoffPolicy fl → ℕ → Option Carrier → ℕ
  unfolding jittered longest
  backoff p attempts sample =
      let d = jittered p attempts sample in
      let low = if lt d (of_ℕ 0) then of_ℕ 0 else d in
      let held = if lt (of_ℕ (longest p)) low then of_ℕ (longest p) else low in truncate held

  bounded :
      (p : BackoffPolicy fl) (low : Carrier)
      → is_nan low ≡ false
      → le (of_ℕ 0) low ≡ true
      → longest p ≤ 9_007_199_254_740_992
      → truncate (if lt (of_ℕ (longest p)) low then of_ℕ (longest p) else low) ≤ longest p
  bounded p low number positive small =
      let top = of_ℕ (longest p) in
      elim (Bool-cases (lt top low)) [
        | inl over ↦ rw over (
            truncate_le top (longest p) (of_ℕ_number (longest p)) (zero_le (longest p))
              (le_refl top (of_ℕ_number (longest p))) small)
        | inr under ↦ rw under (
            truncate_le low (longest p) number positive
              (le_of_not_lt top low (of_ℕ_number (longest p)) number under) small)
      ]

  -- Where the computed delay is a number and the maximum is at most 2^53 nanoseconds, a failed event
  -- waits at most the maximum, or the base delay if that is longer.
  pub backoff-le-longest :
      (p : BackoffPolicy fl) (attempts : ℕ) (sample : Option Carrier)
      → is_nan (jittered p attempts sample) ≡ false
      → longest p ≤ 9_007_199_254_740_992
      → backoff p attempts sample ≤ longest p
  unfolding backoff
  backoff-le-longest p attempts sample number small =
      let d = jittered p attempts sample in
      elim (Bool-cases (lt d (of_ℕ 0))) [
        | inl below ↦
            rw (backoff, below)
              (bounded p (of_ℕ 0) (of_ℕ_number 0) (le_refl (of_ℕ 0) (of_ℕ_number 0)) small)
        | inr above ↦
            rw (backoff, above)
              (bounded p d number (le_of_not_lt d (of_ℕ 0) number (of_ℕ_number 0) above) small)
      ]
