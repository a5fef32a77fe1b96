-- ===== src/Lifecycle/Retry/Bounds.antt =====
-- The bounds on a retry delay, and the attempt budget.
use task_forge.Base.{
  ℕ, ◌*◌, ◌<◌, ◌≤◌, ◌≡◌, inl, inr, ℤ, pos, negsuc, Bool, true, false, Bool-cases, List, [], ◌∷◌,
  ◌++◌, Option, if◌then◌else◌, refl, arith,
}
use task_forge.Lifecycle.Retry.{
  Float64, RetryPolicy, cap_millis, max_delay_millis, quantize_nanos, delay, validate,
  effective_max, Problem, when, lt_duration, at_least, positive_or,
}
use task_forge.Schema.{millisecond, second}

cap_millis_bounds : (max : ℕ) → (1 ≤ cap_millis max) × (cap_millis max ≤ max_delay_millis)
unfolding cap_millis
cap_millis_bounds max = ground arith

cap_millis-le : (max : ℕ) → millisecond ≤ max → cap_millis max * millisecond ≤ max
unfolding cap_millis
cap_millis-le max h = ground arith

no_problems : (xs ys : List Problem) → xs ++ ys ≡ [] → (xs ≡ []) × (ys ≡ [])
no_problems [] ys h = (refl, h)
no_problems (x ∷ xs) ys h = cc

when-nil : (b : Bool) (p : Problem) → when b p ≡ [] → b ≡ false
when-nil false p h = refl
when-nil true p h = cc

small-nil :
    (b : Bool) (p : Problem) (xs : List Problem) → (if b then p ∷ [] else xs) ≡ [] → b ≡ false
small-nil false p xs h = refl
small-nil true p xs h = cc

-- Where the base is positive and the maximum is at least it, the maximum is the bound.
bound_of_fields :
    (base max : ℤ)
    → lt_duration (pos 0) base ≡ true
    → lt_duration max (pos millisecond) ≡ false
    → lt_duration max base ≡ false
    → (m : ℕ) × (max ≡ pos m) × (millisecond ≤ m) × (at_least (positive_or second base) max ≡ m)
bound_of_fields (negsuc b) max positive large above = cc
bound_of_fields (pos b) (negsuc m) positive large above = cc
bound_of_fields (pos b) (pos m) positive large above = (m, refl, ground arith, ground arith)

module _ (fl : Float64) where
  open fl use {
    Carrier, of_ℕ, truncate, is_nan, is_pos_inf, lt, le, div, ceil, of_ℕ_number, div_number,
    ceil_number, le_of_not_lt, le_refl, truncate_bounds,
  }

  -- The last step of `quantize_nanos`, on a value held to at least 1.
  capped_bounds :
      (ms : Carrier) (cap : ℕ)
      → is_nan ms ≡ false
      → le (of_ℕ 1) ms ≡ true
      → 1 ≤ cap
      → cap ≤ max_delay_millis
      → (k : ℕ) × ((if le (of_ℕ cap) ms then cap * millisecond else truncate ms * millisecond)
          ≡ k * millisecond)
        × (k ≤ cap)
        × (1 ≤ k)
  capped_bounds ms cap number one low high = elim (Bool-cases (le (of_ℕ cap) ms)) [
    | inl above ↦ (cap, rw above, omega arith, low)
    | inr below ↦ (
      truncate ms,
      rw below,
      omega (arith, truncate_bounds ms cap number one below),
      omega (arith, truncate_bounds ms cap number one below),
    )
  ]

  held_to_one :
      (raw : Carrier)
      → is_nan raw ≡ false
      → let ms = if lt raw (of_ℕ 1) then of_ℕ 1 else raw in
        (is_nan ms ≡ false) × (le (of_ℕ 1) ms ≡ true)
  held_to_one raw number = elim (Bool-cases (lt raw (of_ℕ 1))) [
    | inl low ↦ rw low (of_ℕ_number 1, le_refl (of_ℕ 1) (of_ℕ_number 1))
    | inr high ↦ rw high (number, le_of_not_lt raw (of_ℕ 1) number (of_ℕ_number 1) high)
  ]

  -- A delay is a whole number of milliseconds, at most `cap_millis max` of them, and it is zero
  -- only where the computed value is not above zero or is no number.
  pub quantize_nanos_bounds :
      (nanos : Carrier) (max : ℕ)
      → (k : ℕ) × (quantize_nanos fl nanos max ≡ k * millisecond)
        × (k ≤ cap_millis max)
        × (is_nan nanos ≡ false → le nanos (of_ℕ 0) ≡ false → 0 < k)
  unfolding quantize_nanos
  quantize_nanos_bounds nanos max = elim (Bool-cases (is_nan nanos)) [
    | inl bad ↦ (0, rw bad, omega arith, λ number positive. cc)
    | inr number ↦ elim (Bool-cases (is_pos_inf nanos)) [
      | inl inf ↦ (cap_millis max, rw (number, inf), omega arith, λ _ _. (cap_millis_bounds max).0)
      | inr finite ↦ elim (Bool-cases (le nanos (of_ℕ 0))) [
        | inl low ↦ (0, rw (number, finite, low), omega arith, λ _ positive. cc)
        | inr high ↦
            let raw = ceil (div nanos (of_ℕ millisecond)) in
            let (still, one) =
              held_to_one raw (ceil_number _ (div_number nanos millisecond number (omega arith))) in
            let (k, e, most, least) =
              capped_bounds _ (cap_millis max) still one (cap_millis_bounds max).0
                (cap_millis_bounds max).1 in
            (k, rw (number, finite, high) e, most, λ _ _. least)
      ]
    ]
  ]

  -- The delay that `Delay` returns is a whole number of milliseconds.
  pub delay_bounds :
      (p : RetryPolicy fl) (n : ℕ) (jitter : Option Carrier)
      → (k : ℕ) × (delay fl p n jitter ≡ k * millisecond) × (k ≤ cap_millis (effective_max fl p))
  unfolding delay
  delay_bounds p n jitter =
      let (k, e, most, _) = quantize_nanos_bounds _ (effective_max fl p) in (k, e, most)

  accepted_fields :
      (p : RetryPolicy fl)
      → validate fl p ≡ []
      → (lt_duration (pos 0) p.base ≡ true)
        × (lt_duration p.max (pos millisecond) ≡ false)
        × (lt_duration p.max p.base ≡ false)
  unfolding validate
  accepted_fields p v =
      let (a, rest) = no_problems _ _ v in
      let (b, rest') = no_problems _ _ rest in
      let (c, _) = no_problems _ _ rest' in
      (ground (arith, when-nil _ _ a), small-nil _ _ _ b, when-nil _ _ c)

  -- A policy that `Validate` accepts waits for whole milliseconds and never longer than its
  -- maximum, whatever the attempt and the jitter are.
  pub delay-le-max :
      (p : RetryPolicy fl) (n : ℕ) (jitter : Option Carrier)
      → validate fl p ≡ []
      → (k m : ℕ) × (p.max ≡ pos m)
        × (delay fl p n jitter ≡ k * millisecond)
        × (k * millisecond ≤ m)
  delay-le-max p n jitter v =
      let (positive, large, above) = accepted_fields p v in
      let (m, e, least, same) = bound_of_fields p.base p.max positive large above in
      let (k, d, most) = delay_bounds p n jitter in
      let held : effective_max fl p ≡ m = unfold effective_max in same in
      let most' : k ≤ cap_millis m = rw (← held) most in
      (k, m, e, d, omega (arith, cap_millis-le m least))
