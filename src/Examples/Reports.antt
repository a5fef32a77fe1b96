-- ===== src/Examples/Reports.antt =====
-- The example run's failure, whose first answer is lost, reported again; and a success with a large
-- result.
use task_forge.Base.{
  Text, ℕ, ◌+◌, ◌*◌, ◌≡◌, refl, true, false, ◌||◌, [], ◌∷◌, some, ◌==◌, text, if◌then◌else◌,
}
use task_forge.Worker.Renewal.{sentinel}
use task_forge.Worker.Retry.{Arrival, answer_lost, through, report_failure}
use task_forge.Worker.Retry.Once.{IsOnce, report_failure-IsOnce}
use task_forge.Workers.{ResultRef}
use task_forge.Worker.Outcome.{
  ResultConfig, Cause, returned, Finish, success, engine_owned, object_ref, prepare_result,
  classify, conclude,
}
use task_forge.Worker.Outcome.Laws.{IsStorable, success_is_earned}
use task_forge.Examples.{fence, whole, policy, scope, report, fresh, db4}

abbrev arrival : ℕ → Arrival ℕ
arrival i = record {
  passage = if i == 1 then answer_lost else through;
  now = 500 + 400 * i;
  fresh = fresh;
  jitter = some i;
}

report_failure-IsOnce_example :
    IsOnce whole policy sentinel scope report db4
      (report_failure whole policy sentinel arrival (λ i. true) 3 scope report db4).0
report_failure-IsOnce_example =
    report_failure-IsOnce whole policy sentinel scope report db4 arrival (λ i. true) 3

abbrev store : ResultConfig
store = record { inline_threshold = 2; bucket = text "b"; objects = true }

abbrev finish : Finish
finish = record {
  handled = returned (text "abc");
  cause = Cause.no_cause;
  canceled = false;
  canceled_later = false;
  uploaded = true;
  lost = false;
  fatal = false;
  context_ended = false;
}

abbrev digest : Text → Text
digest s = 100 ∷ s

abbrev show : ℕ → Text
show i = i ∷ []

abbrev large : ResultRef
large = object_ref digest show store scope fence (text "abc")

large_reported : conclude digest show store fence scope finish ≡ success (some large)
unfolding conclude prepare_result classify
large_reported = refl

success_is_earned_example :
    (body : Text) × (finish.handled ≡ returned body)
    × ((finish.canceled || finish.canceled_later) ≡ false)
    × (engine_owned finish.cause ≡ false)
    × ((finish.fatal || finish.lost) ≡ false)
    × IsStorable body (some large)
success_is_earned_example =
    success_is_earned digest show (λ s. refl) store refl fence scope finish (some large)
      large_reported
