-- ===== src/Worker/Outcome.antt =====
-- The end of processMessage and prepareResult of internal/worker/runner.go, with Classify of
-- internal/results/result.go: what a worker reports of an attempt. SHA-256 and the format of a UUID
-- are parameters.
pub mod Laws
use task_forge.Base.{
  Text, ℕ, Bool, true, false, not, ◌||◌, ◌&&◌, List, [], ◌∷◌, ◌++◌, Option, none, some, leb, ◌==◌,
  length, text, if◌then◌else◌,
}
use task_forge.Schema.{Location}
use task_forge.Workers.{Fence, ResultRef}

-- results.Classify
unfoldable pub classify : Text → ℕ → Location
classify body threshold = if leb threshold (length body) then Location.object else Location.inline

-- What prepareResult asks of the worker's configuration.
pub record ResultConfig : Type 0 where
  pub inline_threshold : ℕ
  pub bucket : Text
  -- Whether an object store is there.
  pub objects : Bool

-- Why the handler's context ended, if it did.
pub data Cause : Type 0 where
  no_cause user_canceled timed_out authority_lost interrupted : Cause

-- What a handler gave: its bytes, or an error.
pub data Handled : Type 0 where
  returned : Text → Handled
  raised : Handled

-- What the runner sees after the handler's end.
pub record Finish : Type 0 where
  pub handled : Handled
  pub cause : Cause
  -- wasCanceled, after the handler and again after the renewal loop was stopped.
  pub canceled : Bool
  pub canceled_later : Bool
  -- The retries of Put ended without an error.
  pub uploaded : Bool
  -- What the renewal loop's Stop returned.
  pub lost : Bool
  pub fatal : Bool
  pub context_ended : Bool

pub data Report : Type 0 where
  session_lost acknowledgment silence failure : Report
  success : Option ResultRef → Report

-- The causes after which no result is prepared.
abbrev pub engine_owned : Cause → Bool
engine_owned Cause.user_canceled = true
engine_owned Cause.timed_out = true
engine_owned Cause.authority_lost = true
engine_owned _ = false

abbrev pub is_user_canceled : Cause → Bool
is_user_canceled Cause.user_canceled = true
is_user_canceled _ = false

abbrev pub is_timed_out : Cause → Bool
is_timed_out Cause.timed_out = true
is_timed_out _ = false

abbrev pub is_lost : Cause → Bool
is_lost Cause.authority_lost = true
is_lost _ = false

abbrev pub handler_failed : Handled → Bool
handler_failed (returned body) = false
handler_failed raised = true

abbrev pub reported : Option (Option ResultRef) → Report
reported none = silence
reported (some r) = success r

abbrev pub object_key : (ℕ → Text) → Text → Fence → Text
object_key show_id scope f =
    text "results/" ++ (scope ++ (47 ∷ (show_id f.job_id ++ (47 ∷ show_id f.attempt_id))))

abbrev pub inline_ref : Text → ResultRef
inline_ref body = record {
  location = Location.inline;
  inline_body = some body;
  bucket = [];
  key = [];
  size_bytes = length body;
  checksum = [];
}

module _ (sha256_hex : Text → Text) (show_id : ℕ → Text) where
  abbrev pub object_ref : ResultConfig → Text → Fence → Text → ResultRef
  object_ref config scope f body = record {
    location = Location.object;
    inline_body = none;
    bucket = config.bucket;
    key = object_key show_id scope f;
    size_bytes = length body;
    checksum = sha256_hex body;
  }

  -- prepareResult; `none` is a result that could not be stored.
  unfoldable pub prepare_result :
      ResultConfig → Fence → Text → Text → Bool → Option (Option ResultRef)
  unfolding classify
  prepare_result config f scope body uploaded =
      if length body == 0 then some none else elim (classify body config.inline_threshold) [
        | Location.inline ↦ some (some (inline_ref body))
        | Location.object ↦
            if not config.objects
            then none
            else if uploaded
            then some (some (object_ref config scope f body))
            else none
      ]

  abbrev pub prepared : ResultConfig → Fence → Text → Finish → Handled → Option (Option ResultRef)
  prepared config f scope x (returned body) =
      if x.canceled || engine_owned x.cause
      then none
      else prepare_result config f scope body x.uploaded
  prepared config f scope x raised = none

  -- What is reported, in the order of precedence.
  unfoldable pub conclude : ResultConfig → Fence → Text → Finish → Report
  conclude config f scope x =
      if x.fatal
      then session_lost
      else if x.canceled || x.canceled_later || is_user_canceled x.cause
      then acknowledgment
      else if is_timed_out x.cause
      then silence
      else if x.lost || is_lost x.cause
      then silence
      else if x.context_ended && handler_failed x.handled
      then silence
      else if handler_failed x.handled
      then failure
      else reported (prepared config f scope x x.handled)
