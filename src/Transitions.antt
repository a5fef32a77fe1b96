-- ===== src/Transitions.antt =====
-- What every transaction of the system amounts to: the few ways in which the rows of one job, its
-- attempt and its lease change together. The stores' operations are shown to be such steps, and
-- the invariants are shown of the steps.
pub mod Invariant
pub mod Deadline
pub mod Preserve
pub mod Graph
use task_forge.Base.{
  Text, ℕ, ◌+◌, ◌<◌, ◌≡◌, Bool, true, false, Option, none, some, List, ◌==◌, text_eq, ◌&&◌,
}
use task_forge.Table.{Table, find, put, count}
use task_forge.Schema.{
  Db, Job, Attempt, Lease, Session, Worker, Queue, Event, DlqEntry, StoredResult, DlqReplay,
  IdempotencyRecord, Status, is_queued, is_dead_lettered, is_canceled, attempt_executing,
  lease_active, find_queue,
}
use task_forge.Outbox.{advertises}
use task_forge.Workers.Claim.{attempts_of, active_in_queue}

-- A lease stands behind the job: it executes, or its cancellation is being delivered.
abbrev pub is_held : Status → Bool
is_held Status.leased = true
is_held Status.running = true
is_held Status.cancel_requested = true
is_held _ = false

-- The job's state machine of docs/ARCHITECTURE.md, section 4: the moves from one status to another;
-- and staying.
abbrev pub allowed : Status → Status → Bool
allowed Status.pending Status.pending = true
allowed Status.pending Status.queued = true
allowed Status.pending Status.canceled = true
allowed Status.queued Status.queued = true
allowed Status.queued Status.leased = true
allowed Status.queued Status.canceled = true
allowed Status.leased Status.leased = true
allowed Status.leased Status.running = true
allowed Status.leased Status.queued = true
allowed Status.leased Status.dead_lettered = true
allowed Status.leased Status.cancel_requested = true
allowed Status.running Status.running = true
allowed Status.running Status.succeeded = true
allowed Status.running Status.retry_wait = true
allowed Status.running Status.queued = true
allowed Status.running Status.dead_lettered = true
allowed Status.running Status.cancel_requested = true
allowed Status.retry_wait Status.retry_wait = true
allowed Status.retry_wait Status.queued = true
allowed Status.retry_wait Status.canceled = true
allowed Status.cancel_requested Status.cancel_requested = true
allowed Status.cancel_requested Status.canceled = true
allowed Status.succeeded Status.succeeded = true
allowed Status.canceled Status.canceled = true
allowed Status.dead_lettered Status.dead_lettered = true
allowed _ _ = false

-- A write of one job's row, along the state machine.
pub record IsMove (db : Db) (i : ℕ) (j j' : Job) : Type 0 where
  pub found : find i db.jobs ≡ some j
  pub edge : allowed j.status j'.status ≡ true
  pub same_budget : j'.max_attempts ≡ j.max_attempts
  pub same_identity : (j'.scope ≡ j.scope) × (j'.queue ≡ j.queue)

-- The job, its executing attempt and its active lease, ended together.
pub record IsEnd (db : Db) (i a l : ℕ) (j j' : Job) (att att' : Attempt) (lease lease' : Lease)
    : Type 0 where
  pub move : IsMove db i j j'
  pub was_held : is_held j.status ≡ true
  pub released : is_held j'.status ≡ false
  pub found_attempt : find a db.attempts ≡ some att
  pub found_lease : find l db.leases ≡ some lease
  pub attempt_job : att.job_id ≡ i
  pub attempt_job' : att'.job_id ≡ i
  pub lease_job : lease.job_id ≡ i
  pub lease_job' : lease'.job_id ≡ i
  pub lease_queue : lease'.queue ≡ lease.queue
  pub was_executing : attempt_executing att.status ≡ true
  pub ended : attempt_executing att'.status ≡ false
  pub was_active : lease_active lease.status ≡ true
  pub inactive : lease_active lease'.status ≡ false

-- The rows that a claim inserts for a queued job, within the budget and the queue's capacity.
pub record IsGrant (db : Db) (i a l : ℕ) (j j' : Job) (att : Attempt) (lease : Lease) (q : Queue)
    : Type 0 where
  pub move : IsMove db i j j'
  pub was_queued : j.status ≡ Status.queued
  pub leased : j'.status ≡ Status.leased
  pub new_attempt : find a db.attempts ≡ none
  pub new_lease : find l db.leases ≡ none
  pub attempt_job : att.job_id ≡ i
  pub lease_job : lease.job_id ≡ i
  pub executing : attempt_executing att.status ≡ true
  pub active : lease_active lease.status ≡ true
  pub untimed : att.timeout_at ≡ none
  pub found_queue : find_queue lease.queue db.queues ≡ some q
  pub has_capacity : count (active_in_queue lease.queue) db.leases < q.max_concurrency
  pub has_budget : count (attempts_of i) db.attempts < j.max_attempts

pub data Transition (db : Db) : Db → Type 0 where
  -- A refusal, a replay, or a skip.
  idle : Transition db db
  -- Any change of the workers and their sessions.
  registered :
      (workers : Table Worker) (sessions : Table Session)
      → Transition db (record db { workers = workers; sessions = sessions })
  granted :
      (i a l : ℕ) (j j' : Job) (att : Attempt) (lease : Lease) (q : Queue)
      → IsGrant db i a l j j' att lease q
      → Transition db (record db {
        jobs = put i j' db.jobs;
        attempts = put a att db.attempts;
        leases = put l lease db.leases;
      })
  started :
      (i a : ℕ) (j j' : Job) (att att' : Attempt)
      → IsMove db i j j'
      → is_held j.status ≡ true
      → j'.status ≡ Status.running
      → find a db.attempts ≡ some att
      → att.job_id ≡ i
      → att'.job_id ≡ att.job_id
      → attempt_executing att.status ≡ true
      → attempt_executing att'.status ≡ true
      → Transition db (record db { jobs = put i j' db.jobs; attempts = put a att' db.attempts })
  -- The end of an attempt that leaves the job succeeded, canceled or waiting.
  ended :
      (i a l : ℕ) (j j' : Job) (att att' : Attempt) (lease lease' : Lease)
      (results : Table StoredResult)
      → IsEnd db i a l j j' att att' lease lease'
      → is_queued j'.status ≡ false
      → is_dead_lettered j'.status ≡ false
      → Transition db (record db {
        jobs = put i j' db.jobs;
        attempts = put a att' db.attempts;
        leases = put l lease' db.leases;
        results = results;
      })
  -- The end of an attempt that puts the job back, with its notification.
  requeued :
      (i a l e : ℕ) (j j' : Job) (att att' : Attempt) (lease lease' : Lease) (event : Event)
      → IsEnd db i a l j j' att att' lease lease'
      → j'.status ≡ Status.queued
      → find e db.outbox ≡ none
      → advertises i j'.notification_generation event ≡ true
      → Transition db (record db {
        jobs = put i j' db.jobs;
        attempts = put a att' db.attempts;
        leases = put l lease' db.leases;
        outbox = put e event db.outbox;
      })
  -- The end of an attempt that dead-letters the job, with its entry.
  buried :
      (i a l d : ℕ) (j j' : Job) (att att' : Attempt) (lease lease' : Lease) (entry : DlqEntry)
      → IsEnd db i a l j j' att att' lease lease'
      → j'.status ≡ Status.dead_lettered
      → find d db.dlq ≡ none
      → entry.job_id ≡ i
      → Transition db (record db {
        jobs = put i j' db.jobs;
        attempts = put a att' db.attempts;
        leases = put l lease' db.leases;
        dlq = put d entry db.dlq;
      })
  -- A cancellation request.
  moved :
      (i : ℕ) (j j' : Job)
      → IsMove db i j j'
      → is_held j'.status ≡ is_held j.status
      → is_queued j'.status ≡ false
      → is_dead_lettered j'.status ≡ is_dead_lettered j.status
      → Transition db (record db { jobs = put i j' db.jobs })
  -- A job that becomes or stays queued outside a lease, with a notification.
  announced :
      (i e : ℕ) (j j' : Job) (event : Event)
      → IsMove db i j j'
      → is_held j.status ≡ false
      → j'.status ≡ Status.queued
      → find e db.outbox ≡ none
      → advertises i j'.notification_generation event ≡ true
      → Transition db (record db { jobs = put i j' db.jobs; outbox = put e event db.outbox })
  -- A new job that waits for its time.
  delayed :
      (i : ℕ) (j : Job) (idempotency : List IdempotencyRecord)
      → find i db.jobs ≡ none
      → j.status ≡ Status.pending
      → Transition db (record db { jobs = put i j db.jobs; idempotency = idempotency })
  -- A new job that is queued at once, with its notification.
  created :
      (i e : ℕ) (j : Job) (event : Event) (idempotency : List IdempotencyRecord)
      (replays : List DlqReplay)
      → find i db.jobs ≡ none
      → j.status ≡ Status.queued
      → find e db.outbox ≡ none
      → advertises i j.notification_generation event ≡ true
      → Transition db (record db {
        jobs = put i j db.jobs;
        outbox = put e event db.outbox;
        idempotency = idempotency;
        replays = replays;
      })
  -- A change of the events' delivery: the rows still advertise what they did.
  delivered :
      (outbox : Table Event)
      → ((i g : ℕ) → count (advertises i g) outbox ≡ count (advertises i g) db.outbox)
      → Transition db (record db { outbox = outbox })
  renewed :
      (l : ℕ) (lease lease' : Lease)
      → find l db.leases ≡ some lease
      → lease'.job_id ≡ lease.job_id
      → lease'.queue ≡ lease.queue
      → lease'.status ≡ lease.status
      → Transition db (record db { leases = put l lease' db.leases })
