-- ===== src/Worker/Retry.antt =====
-- retry and reportFailure of internal/worker/runner.go, with RemoteError.Retryable of
-- internal/worker/client.go: an operation on the control plane is asked again under one identity while
-- its outcome is not known.
pub mod Once
use task_forge.Base.{
  Text, ℕ, zero, suc, ◌+◌, Bool, true, false, not, ◌||◌, Option, none, some, leb, ◌==◌, Error,
  Result, ok, err, if◌then◌else◌,
}
use task_forge.Lifecycle.Retry.{Float64, RetryPolicy}
use task_forge.Schema.{Db}
use task_forge.Workers.{FailureReport, OutcomeResult}
use task_forge.Workers.Finalize.{Fresh}
use task_forge.Workers.Outcome.{fail}
use task_forge.Worker.Renewal.{CallError, sentinel, remote, transport}

-- retryable, with RemoteError.Retryable
unfoldable pub retryable : CallError → Bool
retryable (remote status code) = status == 429 || leb 500 status
retryable (sentinel e) = true
retryable transport = true

-- What retry returns: no error, an operation's error, or the context's.
pub data Ending : Type 0 where
  no_error : Ending
  failed : CallError → Ending
  context_ended : Ending

module _ {S : Type 0} (operation : ℕ → S → S × Option CallError) (waits : ℕ → Bool) where
  abbrev pub after_attempt : ℕ → S → Option CallError → Bool → S × Ending → S × Ending
  after_attempt attempt s none last rest = (s, no_error)
  after_attempt attempt s (some e) last rest =
      if not (retryable e) || last
      then (s, failed e)
      else if waits attempt
      then rest
      else (s, context_ended)

  -- The loop from one attempt on, with the attempts that are left.
  unfoldable pub retry_from : ℕ → ℕ → S → S × Ending
  unfolding retryable
  retry_from zero attempt s = (s, no_error)
  retry_from (suc left) attempt s =
      let r = operation attempt s in
      let rest = retry_from left (attempt + 1) r.0 in after_attempt attempt r.0 r.1 (left == 0) rest

  -- retry: `waits` tells after which attempts the context outlived the delay.
  unfoldable pub retry : ℕ → S → S × Ending
  unfolding retry_from
  retry retry_attempts s = retry_from retry_attempts 1 s

-- What becomes of one request.
pub data Passage : Type 0 where
  request_lost answer_lost through : Passage

-- A request on its way, and what the control plane draws if it arrives.
pub record Arrival (A : Type 0) : Type 0 where
  pub passage : Passage
  pub now : ℕ
  pub fresh : Fresh
  pub jitter : Option A

-- The database, and the answer that the worker has.
abbrev pub Reported : Type 0
Reported = Db × Option OutcomeResult

module _ (fl : Float64) (p : RetryPolicy fl) (refusal : Error → CallError) where
  open fl use {Carrier}

  abbrev kept : Db → Result (Db × OutcomeResult) → Db
  kept db (ok v) = v.0
  kept db (err e) = db

  abbrev pub received :
      Reported → Passage → Result (Db × OutcomeResult) → Reported × Option CallError
  received s request_lost r = (s, some transport)
  received (db, known) answer_lost r = ((kept db r, known), some transport)
  received s through (ok (db', a)) = ((db', some a), none)
  received s through (err e) = (s, some (refusal e))

  -- One call of Fail over a network that loses requests and answers.
  unfoldable pub send_failure :
      Text → FailureReport → Arrival Carrier → Reported → Reported × Option CallError
  send_failure scope q a s = received s a.passage (fail fl s.0 p a.jitter scope q a.fresh a.now)

  -- reportFailure, of the report with its one identity.
  unfoldable pub report_failure :
      (ℕ → Arrival Carrier) → (ℕ → Bool) → ℕ → Text → FailureReport → Db → Reported × Ending
  unfolding send_failure
  report_failure arrivals waits retry_attempts scope q db =
      retry (λ i s. send_failure scope q (arrivals i) s) waits retry_attempts (db, none)
