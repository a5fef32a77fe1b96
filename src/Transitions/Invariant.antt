-- ===== src/Transitions/Invariant.antt =====
-- What holds of the database between two transactions.
use task_forge.Base.{
  Text, ℕ, ◌≤◌, ◌≡◌, refl, arith, Bool, true, bit, Option, none, some, ◌==◌, ◌&&◌, List, [],
}
use task_forge.Table.{find, count}
use task_forge.Table.Laws.{IsKeyed}
use task_forge.Schema.{
  Db, Job, Attempt, DlqEntry, Queue, Status, is_dead_lettered, attempt_executing, find_queue,
}
use task_forge.Outbox.{advertises}
use task_forge.Workers.Claim.{attempts_of, active_in_queue, active_for_job}
use task_forge.Transitions.{is_held}

abbrev pub executing_of : ℕ → Attempt → Bool
executing_of i a = a.job_id == i && attempt_executing a.status

abbrev pub entry_of : ℕ → DlqEntry → Bool
entry_of i e = e.job_id == i

abbrev pub held : Option Job → ℕ
held none = 0
held (some j) = bit (is_held j.status)

abbrev pub buried : Option Job → ℕ
buried none = 0
buried (some j) = bit (is_dead_lettered j.status)

-- The attempts that a job may have had; none before it is there.
abbrev pub WithinBudget : Option Job → ℕ → Type 0
WithinBudget none n = n ≡ 0
WithinBudget (some j) n = n ≤ j.max_attempts

abbrev pub WithinCapacity : Option Queue → ℕ → Type 0
WithinCapacity none n = Unit
WithinCapacity (some q) n = n ≤ q.max_concurrency

pub record Inv (db : Db) : Type 0 where
  pub keyed : IsKeyed db.jobs
  -- A job has one active lease while it is held, and else none.
  pub one_lease : (i : ℕ) → count (active_for_job i) db.leases ≡ held (find i db.jobs)
  -- So for attempts that are leased or running.
  pub one_attempt : (i : ℕ) → count (executing_of i) db.attempts ≡ held (find i db.jobs)
  -- A job has one dead-letter entry if it is dead-lettered, and else none.
  pub one_entry : (i : ℕ) → count (entry_of i) db.dlq ≡ buried (find i db.jobs)
  pub budget : (i : ℕ) → WithinBudget (find i db.jobs) (count (attempts_of i) db.attempts)
  pub capacity :
      (n : Text) → WithinCapacity (find_queue n db.queues) (count (active_in_queue n) db.leases)
  -- A queued job's current generation was announced.
  pub announced :
      (i : ℕ) (j : Job)
      → find i db.jobs ≡ some j
      → j.status ≡ Status.queued
      → 1 ≤ count (advertises i j.notification_generation) db.outbox
  -- A leased job's attempt has no deadline: that comes with its start.
  pub untimed :
      (a : ℕ) (att : Attempt) (j : Job)
      → find a db.attempts ≡ some att
      → attempt_executing att.status ≡ true
      → find att.job_id db.jobs ≡ some j
      → j.status ≡ Status.leased
      → att.timeout_at ≡ none

-- The database of a new installation.
abbrev pub installed : List Queue → Db
installed queues = record {
  queues = queues;
  workers = [];
  sessions = [];
  jobs = [];
  attempts = [];
  leases = [];
  dlq = [];
  outbox = [];
  results = [];
  idempotency = [];
  replays = [];
}

within_empty : (q : Option Queue) → WithinCapacity q 0
within_empty none = tt
within_empty (some q) = omega arith

pub installed-Inv : (queues : List Queue) → Inv (installed queues)
unfolding find count
installed-Inv queues = record {
  keyed = tt;
  one_lease = λ i. refl;
  one_attempt = λ i. refl;
  one_entry = λ i. refl;
  budget = λ i. refl;
  capacity = λ n. within_empty (find_queue n queues);
  announced = λ i j e s. cc;
  untimed = λ a att j fa e fj l. cc;
}
