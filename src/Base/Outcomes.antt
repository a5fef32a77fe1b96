-- ===== src/Base/Outcomes.antt =====
-- Errors as values. The sentinel errors are those of workers/types.go, jobs/*.go, lifecycle/dlq.go,
-- results/result.go and auth/store.go; the rest are the unnamed `fmt.Errorf` errors.
use mathlib.Core.Path.{◌≡◌, refl}
use mathlib.Core.Logic.{◌⊎◌, inl, inr}
use mathlib.Core.Bool.{Bool, true, false}
use native.Mathlib.Omega.{arith}
use mathlib.Core.Option.{Option, none, some}
use task_forge.Base.Tests.{if◌then◌else◌}

pub data Error : Type 0 where
  unknown_queue session_conflict session_unavailable claim_conflict : Error
  fence_rejected lease_expired state_conflict renewal_conflict : Error
  attempt_timed_out outcome_conflict cancellation_requested : Error
  idempotency_conflict job_not_found job_not_cancelable not_dead_lettered : Error
  unauthorized key_not_found prefix_exhausted : Error
  dlq_entry_exists invalid_result validation_failed : Error
  -- A statement refused by a constraint that the code has no name for, or a bad argument.
  database_error invalid_argument : Error

pub data Result {ℓ} (A : Type ℓ) : Type ℓ where
  ok : A → Result A
  err : Error → Result A

-- `if b { return e }`
abbrev pub refuse : (found : Bool) (why : Error) → Result (Unit {0})
refuse false why = ok tt
refuse true why = err why

-- `if !b { return e }`
abbrev pub guard : (holds : Bool) (why : Error) → Result (Unit {0})
guard false why = err why
guard true why = ok tt

infixl 5 ◌>>◌ ◌>>=◌
-- A step and the rest of the chain, which an error skips.
abbrev pub ◌>>=◌ {ℓ κ} :
    {A : Type ℓ} {B : Type κ} (first : Result A) (rest : A → Result B) → Result B
err why >>= rest = err why
ok v >>= rest = rest v

abbrev pub ◌>>◌ {κ} : {B : Type κ} (first : Result (Unit {0})) (rest : Result B) → Result B
first >> rest = first >>= λ _. rest

abbrev pub or_fail {ℓ} : {A : Type ℓ} → Option A → Error → Result A
or_fail none e = err e
or_fail (some a) e = ok a

-- A result beside the state as it was.
abbrev pub beside {ℓ κ} : {S : Type ℓ} {A : Type κ} → S → Result A → Result (S × A)
beside s (ok a) = ok (s, a)
beside s (err e) = err e

-- What a chain of steps went through, where it returned a value: each rule hands on the step's
-- own result and the rest of the chain.
module _ {ℓ κ μ} {A : Type ℓ} {B : Type κ} {G : Type μ} {v : B} where
  pub bind_ok :
      (m : Result A) (k : A → Result B)
      → (m >>= k) ≡ ok v
      → ((a : A) → m ≡ ok a → k a ≡ ok v → G)
      → G
  bind_ok (ok a) k h next = next a refl h
  bind_ok (err e) k h next = cc

  pub or_fail_ok :
      (o : Option A) (e : Error) (k : A → Result B)
      → (or_fail o e >>= k) ≡ ok v
      → ((a : A) → o ≡ some a → k a ≡ ok v → G)
      → G
  or_fail_ok (some a) e k h next = next a refl h
  or_fail_ok none e k h next = cc

module _ {κ μ} {B : Type κ} {G : Type μ} {v : B} where
  pub guard_ok :
      (b : Bool) (e : Error) (k : Result B)
      → (guard b e >> k) ≡ ok v
      → (b ≡ true → k ≡ ok v → G)
      → G
  guard_ok true e k h next = next refl h
  guard_ok false e k h next = cc

  pub refuse_ok :
      (b : Bool) (e : Error) (k : Result B)
      → (refuse b e >> k) ≡ ok v
      → (b ≡ false → k ≡ ok v → G)
      → G
  refuse_ok false e k h next = next refl h
  refuse_ok true e k h next = cc

  -- `if b then m else k`
  pub if_ok :
      (b : Bool) (m k : Result B)
      → (if b then m else k) ≡ ok v
      → (b ≡ true → m ≡ ok v → G)
      → (b ≡ false → k ≡ ok v → G)
      → G
  if_ok true m k h hit miss = hit refl h
  if_ok false m k h hit miss = miss refl h

-- The state that a call returned.
pub state-eq {ℓ κ} :
    {S : Type ℓ} {A : Type κ} {s : S} {a : A} (r : S × A) → ok (s, a) ≡ ok r → s ≡ r.0
state-eq r h = ground arith

pub Result-cases {ℓ} :
    {A : Type ℓ} (r : Result A) → ((e : Error) × (r ≡ err e)) ⊎ ((v : A) × (r ≡ ok v))
Result-cases (err e) = inl (e, refl)
Result-cases (ok v) = inr (v, refl)
