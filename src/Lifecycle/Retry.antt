-- ===== src/Lifecycle/Retry.antt =====
-- internal/lifecycle/retry.go: how long a retry waits, and what an attempt's end does to its job.
-- Go's float64 is a parameter: its operations, with the facts of IEEE 754 that the bounds rest on.
pub mod Bounds
use task_forge.Base.{
  ℕ, ◌-◌, ◌*◌, ◌/◌, ◌%◌, ◌<◌, ◌≤◌, ◌≡◌, ℤ, pos, negsuc, Bool, true, false, not, ◌&&◌, ◌||◌, List,
  [], ◌∷◌, ◌++◌, Option, none, some, ltb, ◌==◌, if◌then◌else◌, Result, ok, err, invalid_argument,
}
use task_forge.Lifecycle.{FailureClass, DlqReason}
use task_forge.Schema.{millisecond, second}

pub record Float64 : Type 1 where
  pub Carrier : Type 0
  pub of_ℕ : ℕ → Carrier
  -- `int64(x)`, of a value that is not negative.
  pub truncate : Carrier → ℕ
  pub is_nan : Carrier → Bool
  -- math.IsInf(x, 0) and math.IsInf(x, 1)
  pub is_inf : Carrier → Bool
  pub is_pos_inf : Carrier → Bool
  -- `x < y` and `x <= y`
  pub lt : Carrier → Carrier → Bool
  pub le : Carrier → Carrier → Bool
  pub add : Carrier → Carrier → Carrier
  pub sub : Carrier → Carrier → Carrier
  pub mul : Carrier → Carrier → Carrier
  pub div : Carrier → Carrier → Carrier
  pub pow : Carrier → Carrier → Carrier
  pub ceil : Carrier → Carrier
  -- math.Nextafter(1, 0)
  pub below_one : Carrier
  pub of_ℕ_number : (n : ℕ) → is_nan (of_ℕ n) ≡ false
  pub zero_le : (n : ℕ) → le (of_ℕ 0) (of_ℕ n) ≡ true
  pub div_number :
      (x : Carrier) (n : ℕ) → is_nan x ≡ false → 0 < n → is_nan (div x (of_ℕ n)) ≡ false
  pub ceil_number : (x : Carrier) → is_nan x ≡ false → is_nan (ceil x) ≡ false
  pub le_of_not_lt :
      (x y : Carrier) → is_nan x ≡ false → is_nan y ≡ false → lt x y ≡ false → le y x ≡ true
  pub le_refl : (x : Carrier) → is_nan x ≡ false → le x x ≡ true
  -- Whole numbers to 2^53 are exact, and the conversion discards the fraction.
  pub truncate_bounds :
      (x : Carrier) (n : ℕ)
      → is_nan x ≡ false
      → le (of_ℕ 1) x ≡ true
      → le (of_ℕ n) x ≡ false
      → n ≤ 9_007_199_254_740_992
      → (1 ≤ truncate x) × (truncate x < n)
  pub truncate_le :
      (x : Carrier) (n : ℕ)
      → is_nan x ≡ false
      → le (of_ℕ 0) x ≡ true
      → le x (of_ℕ n) ≡ true
      → n ≤ 9_007_199_254_740_992
      → truncate x ≤ n

pub record RetryPolicy (fl : Float64) : Type 0 where
  pub base : ℤ
  pub max : ℤ
  pub multiplier : fl.Carrier
  pub jitter : fl.Carrier

pub data Problem : Type 0 where
  base_not_positive max_too_small max_not_whole max_below_base : Problem
  multiplier_not_finite multiplier_too_small jitter_not_finite jitter_out_of_range : Problem

pub record Decision : Type 0 where
  pub retry : Bool
  pub delay : ℕ
  -- `none` is the empty reason.
  pub dead_letter_reason : Option DlqReason

-- math.MaxInt64 / time.Millisecond
abbrev pub max_delay_millis : ℕ
max_delay_millis = 9_223_372_036_854

unfoldable pub cap_millis : ℕ → ℕ
cap_millis max =
    if max == 0
    then 1
    else let ms = max / millisecond in
      if ltb ms 1 then 1 else if ltb max_delay_millis ms then max_delay_millis else ms

abbrev pub positive_or : ℕ → ℤ → ℕ
positive_or d (pos n) = if n == 0 then d else n
positive_or d (negsuc _) = d

abbrev pub at_least : ℕ → ℤ → ℕ
at_least b (pos n) = if ltb n b then b else n
at_least b (negsuc _) = b

-- `a < b` on durations.
abbrev pub lt_duration : ℤ → ℤ → Bool
lt_duration (pos a) (pos b) = ltb a b
lt_duration (pos a) (negsuc b) = false
lt_duration (negsuc a) (pos b) = true
lt_duration (negsuc a) (negsuc b) = ltb b a

abbrev whole_millis : ℤ → Bool
whole_millis (pos n) = n % millisecond == 0
whole_millis (negsuc n) = false

abbrev when : Bool → Problem → List Problem
when true p = p ∷ []
when false p = []

module _ (fl : Float64) where
  open fl use {
    Carrier, of_ℕ, truncate, is_nan, is_inf, is_pos_inf, lt, le, add, sub, mul, div, pow, ceil,
    below_one,
  }

  unfoldable pub is_finite : Carrier → Bool
  is_finite v = not (is_nan v) && not (is_inf v)

  -- RetryPolicy.Validate: the problems that it reports.
  unfoldable pub validate : RetryPolicy fl → List Problem
  unfolding is_finite
  validate p =
      when (not (lt_duration (pos 0) p.base)) base_not_positive
      ++ ((if lt_duration p.max (pos millisecond)
            then max_too_small ∷ []
            else when (not (whole_millis p.max)) max_not_whole)
          ++ (when (lt_duration p.max p.base) max_below_base
              ++ ((if not (is_finite p.multiplier)
                    then multiplier_not_finite ∷ []
                    else when (lt p.multiplier (of_ℕ 1)) multiplier_too_small)
                  ++ (if not (is_finite p.jitter)
                      then jitter_not_finite ∷ []
                      else when (lt p.jitter (of_ℕ 0) || lt (of_ℕ 1) p.jitter)
                          jitter_out_of_range))))

  unfoldable pub quantize_nanos : Carrier → ℕ → ℕ
  quantize_nanos nanos max =
      let cap_ms = cap_millis max in
      if is_nan nanos
      then 0
      else if is_pos_inf nanos
      then cap_ms * millisecond
      else if le nanos (of_ℕ 0)
      then 0
      else let raw = ceil (div nanos (of_ℕ millisecond)) in
        let ms = if lt raw (of_ℕ 1) then of_ℕ 1 else raw in
        if le (of_ℕ cap_ms) ms then cap_ms * millisecond else truncate ms * millisecond

  -- The sample of the jitter source, held to [0, 1).
  unfoldable pub clamp_sample : Carrier → Carrier
  unfolding is_finite
  clamp_sample s =
      let finite = if is_finite s then s else of_ℕ 0 in
      let low = if lt finite (of_ℕ 0) then of_ℕ 0 else finite in
      if le (of_ℕ 1) low then below_one else low

  -- The delay after jitter; `none` is a nil source.
  unfoldable pub apply_jitter : RetryPolicy fl → Option Carrier → Carrier → Carrier
  unfolding is_finite clamp_sample
  apply_jitter p none delay = delay
  apply_jitter p (some sample) delay =
      if is_finite p.jitter && lt (of_ℕ 0) p.jitter
      then (let fraction = if lt (of_ℕ 1) p.jitter then of_ℕ 1 else p.jitter in
          mul delay
            (add (of_ℕ 1) (mul fraction (sub (mul (of_ℕ 2) (clamp_sample sample)) (of_ℕ 1)))))
      else delay

  -- The bound that `Delay` works with: p.Max, or the base where that is larger.
  unfoldable pub effective_max : RetryPolicy fl → ℕ
  effective_max p = at_least (positive_or second p.base) p.max

  -- RetryPolicy.Delay, in nanoseconds.
  unfoldable pub delay : RetryPolicy fl → ℕ → Option Carrier → ℕ
  unfolding effective_max apply_jitter quantize_nanos
  delay p attempt_number jitter =
      let n = if ltb attempt_number 1 then 1 else attempt_number in
      let base = positive_or second p.base in
      let multiplier = if lt p.multiplier (of_ℕ 1) then of_ℕ 1 else p.multiplier in
      let max = effective_max p in
      let growth = pow multiplier (of_ℕ (n - 1)) in
      let raw = mul (of_ℕ base) growth in
      let nominal = if is_nan raw || is_inf raw || lt (of_ℕ max) raw then of_ℕ max else raw in
      let jittered = apply_jitter p jitter nominal in
      let held = if lt jittered (of_ℕ 0) then of_ℕ 0 else jittered in quantize_nanos held max

  abbrev dead_letter : DlqReason → Decision
  dead_letter r = record { retry = false; delay = 0; dead_letter_reason = some r }

  abbrev retry_after : ℕ → Decision
  retry_after d = record { retry = true; delay = d; dead_letter_reason = none }

  -- RetryPolicy.Decide
  unfoldable pub decide :
      RetryPolicy fl → FailureClass → ℕ → ℕ → ℕ → Option Carrier → Result Decision
  decide p FailureClass.permanent n used max_attempts jitter =
      ok (dead_letter DlqReason.permanent_failure)
  decide p FailureClass.retryable n used max_attempts jitter =
      if ltb used max_attempts
      then ok (retry_after (delay p n jitter))
      else ok (dead_letter DlqReason.attempts_exhausted)
  decide p FailureClass.timed_out n used max_attempts jitter =
      if ltb used max_attempts
      then ok (retry_after (delay p n jitter))
      else ok (dead_letter DlqReason.attempts_exhausted)
  decide p FailureClass.abandoned n used max_attempts jitter =
      if ltb used max_attempts
      then ok (retry_after 0)
      else ok (dead_letter DlqReason.attempts_exhausted)
  decide p FailureClass.canceled n used max_attempts jitter = err invalid_argument
