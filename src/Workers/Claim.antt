-- ===== src/Workers/Claim.antt =====
-- internal/workers/store.go, Claim: one notification becomes at most one leased attempt.
pub mod Steps
pub mod Order
pub mod First
pub mod Progress
use task_forge.Base.{
  Text, text_eq, ℕ, ◌+◌, ◌-◌, ◌==◌, Bool, true, false, not, ◌&&◌, ◌||◌, Option, none, some, List,
  [], ◌∷◌, ltb, leb, if◌then◌else◌, Result, ok, err, ◌>>=◌, ◌>>◌, guard, refuse, or_fail,
  validation_failed, invalid_argument, claim_conflict, unknown_queue, session_unavailable,
  database_error, state_conflict,
}
use task_forge.Table.{Table, find, insert, update, any, count, find_if, find_where}
use task_forge.Lifecycle.{matches_token}
use task_forge.Schema.{
  Db, Job, Attempt, Lease, Session, Queue, Status, AttemptStatus, LeaseStatus, find_queue,
  is_queued, lease_active, session_healthy,
}
use task_forge.Workers.{ClaimRequest, ClaimDisposition, ClaimResult, Assignment}
use task_forge.Workers.Authority.{names_session}
use task_forge.Workers.Execution.{remaining_until}

-- ValidateClaim; a queue's name has the form of an error code.
unfoldable pub valid_claim : ClaimRequest → Bool
valid_claim r =
    not (r.worker_id == 0)
    && not (r.session_id == 0)
    && not (r.claim_request_id == 0)
    && matches_token r.queue

abbrev pub consumed_by : ℕ → Lease → Bool
consumed_by claim_id l = l.claim_request_id == claim_id

abbrev assignment_of : ℕ → Job → Attempt → ℕ → Lease → Assignment
assignment_of job_id j a lease_id l = record {
  scope = a.scope;
  job_id = job_id;
  queue = j.queue;
  job_type = j.job_type;
  payload = j.payload;
  priority = j.priority;
  timeout_seconds = j.timeout_seconds;
  required_capabilities = j.required_capabilities;
  attempt_id = l.attempt_id;
  attempt_number = a.attempt_number;
  lease_id = lease_id;
  lease_expires_at = l.expires_at;
  lease_remaining = 0;
  worker_id = a.worker_id;
  session_id = a.session_id;
}

abbrev joined : Option (ℕ × Lease) → Table Attempt → Table Job → Option Assignment
joined none attempts jobs = none
joined (some (i, l)) attempts jobs = elim (find l.attempt_id attempts) [
  | none ↦ none
  | some a ↦ elim (find a.job_id jobs) [
    | none ↦ none
    | some j ↦ some (assignment_of a.job_id j a i l)
  ]
]

-- lookupClaim
unfoldable pub lookup_claim : Db → ℕ → Option Assignment
lookup_claim db claim_id = joined (find_where (consumed_by claim_id) db.leases) db.attempts db.jobs

abbrev pub disagrees : Text → ClaimRequest → Option Assignment → Bool
disagrees scope r none = false
disagrees scope r (some e) = not (text_eq e.scope scope) || not (text_eq e.queue r.queue)

-- required <@ capabilities, and job_type = ANY (types)
unfoldable pub member : Text → List Text → Bool
member t [] = false
member t (x ∷ xs) = text_eq x t || member t xs

unfoldable pub contained : List Text → List Text → Bool
contained [] ys = true
contained (x ∷ xs) ys = member x ys && contained xs ys

abbrev pub attempts_of : ℕ → Attempt → Bool
attempts_of job_id a = a.job_id == job_id

-- The WHERE clause of the claim's SELECT, at the clock's `now`.
unfoldable pub eligible : Db → Text → ClaimRequest → Session → ℕ → ℕ → Job → Bool
eligible db scope r s now id j =
    text_eq j.scope scope
    && text_eq j.queue r.queue
    && is_queued j.status
    && leb j.available_at now
    && contained j.required_capabilities s.capabilities
    && member j.job_type s.supported_job_types
    && ltb (count (attempts_of id) db.attempts) j.max_attempts

-- ORDER BY priority DESC, available_at ASC, created_at ASC, id ASC: the first comes before.
unfoldable pub comes_before : ℕ × Job → ℕ × Job → Bool
comes_before (i, a) (k, b) =
    if ltb b.priority a.priority
    then true
    else if ltb a.priority b.priority
    then false
    else if ltb a.available_at b.available_at
    then true
    else if ltb b.available_at a.available_at
    then false
    else if ltb a.created_at b.created_at
    then true
    else if ltb b.created_at a.created_at
    then false
    else ltb i k

abbrev pub better : ℕ × Job → Option (ℕ × Job) → Option (ℕ × Job)
better c none = some c
better c (some d) = if comes_before d c then some d else some c

-- ... FOR UPDATE SKIP LOCKED LIMIT 1
unfoldable pub first_job : (ℕ → Job → Bool) → Table Job → Option (ℕ × Job)
first_job p [] = none
first_job p ((i, j) ∷ t) = let rest = first_job p t in if p i j then better (i, j) rest else rest

-- COALESCE(max(attempt_number), 0) over a job's attempts.
unfoldable pub max_number : ℕ → Table Attempt → ℕ
max_number id [] = 0
max_number id ((k, a) ∷ t) =
    let rest = max_number id t in
    if attempts_of id a && ltb rest a.attempt_number then a.attempt_number else rest

abbrev pub active_in_queue : Text → Lease → Bool
active_in_queue q l = text_eq l.queue q && lease_active l.status

abbrev pub active_for_worker : ℕ → Lease → Bool
active_for_worker w l = l.worker_id == w && lease_active l.status

abbrev pub active_for_job : ℕ → Lease → Bool
active_for_job i l = l.job_id == i && lease_active l.status

-- The UUIDs that a claim draws, and the two samples of the clock on a path.
pub record ClaimDraw : Type 0 where
  pub attempt_id : ℕ
  pub lease_id : ℕ
  pub first_now : ℕ
  pub second_now : ℕ

abbrev nothing : Db → ClaimDisposition → Result (Db × ClaimResult)
nothing db d = ok (db, record { disposition = d; assignment = none; replayed = false })

abbrev pub new_attempt : Text → ClaimRequest → ℕ → Job → ℕ → Attempt
new_attempt scope r job_id j number = record {
  job_id = job_id;
  scope = scope;
  queue = j.queue;
  attempt_number = number;
  worker_id = r.worker_id;
  session_id = r.session_id;
  status = AttemptStatus.leased;
  started_at = none;
  finished_at = none;
  timeout_at = none;
  outcome_request_id = none;
  failure_class = none;
  error_code = none;
  error_message = none;
  retry_delay_ms = none;
  retry_at = none;
}

abbrev pub new_lease : Text → ClaimRequest → ℕ → Job → ClaimDraw → ℕ → Lease
new_lease scope r job_id j draw lease_duration = record {
  job_id = job_id;
  attempt_id = draw.attempt_id;
  scope = scope;
  queue = j.queue;
  worker_id = r.worker_id;
  session_id = r.session_id;
  claim_request_id = r.claim_request_id;
  status = LeaseStatus.active;
  acquired_at = draw.second_now;
  renewed_at = draw.second_now;
  expires_at = draw.second_now + lease_duration;
  released_at = none;
  renewal_version = 0;
  last_renewal_request_id = none;
}

abbrev pub lease_job : ℕ → Job → Job
lease_job now j = record j { status = Status.leased; updated_at = now }

-- The inserts and the update of a granted claim. leases_one_active_per_job_idx and the unique
-- claim_request_id refuse a second lease.
unfoldable pub grant :
    Db → Text → ClaimRequest → ClaimDraw → ℕ → ℕ → Job → Result (Db × ClaimResult)
grant db scope r draw lease_duration job_id j = do
  let number = max_number job_id db.attempts + 1
  attempts ←
      or_fail (insert draw.attempt_id (new_attempt scope r job_id j number) db.attempts)
        database_error
  refuse (any (active_for_job job_id) db.leases) database_error
  refuse (any (consumed_by r.claim_request_id) db.leases) database_error
  let l = new_lease scope r job_id j draw lease_duration
  leases ← or_fail (insert draw.lease_id l db.leases) database_error
  jobs ←
      or_fail
        (update job_id (λ (k : Job). text_eq k.scope scope && is_queued k.status)
          (lease_job draw.second_now) db.jobs)
        state_conflict
  ok (
    record db { jobs = jobs; attempts = attempts; leases = leases },
    record {
      disposition = ClaimDisposition.claimed;
      assignment = some (record {
        scope = scope;
        job_id = job_id;
        queue = j.queue;
        job_type = j.job_type;
        payload = j.payload;
        priority = j.priority;
        timeout_seconds = j.timeout_seconds;
        required_capabilities = j.required_capabilities;
        attempt_id = draw.attempt_id;
        attempt_number = number;
        lease_id = draw.lease_id;
        lease_expires_at = l.expires_at;
        lease_remaining = lease_duration;
        worker_id = r.worker_id;
        session_id = r.session_id;
      });
      replayed = false;
    },
  )

-- Some job of the queue is due, whoever it suits.
abbrev pub due : Text → Text → ℕ → Job → Bool
due scope queue now j =
    text_eq j.scope scope && text_eq j.queue queue && is_queued j.status && leb j.available_at now

unfoldable pub take_job :
    Db → Text → ClaimRequest → ClaimDraw → ℕ → Option (ℕ × Job) → Result (Db × ClaimResult)
take_job db scope r draw lease_duration (some (i, j)) = grant db scope r draw lease_duration i j
take_job db scope r draw lease_duration none =
    if any (due scope r.queue draw.second_now) db.jobs
    then nothing db ClaimDisposition.no_eligible_job
    else nothing db ClaimDisposition.queue_empty

-- A claim that no lease has answered yet.
unfoldable pub claim_new :
    Db
    → Text
    → ClaimRequest
    → (ℕ → Bool)
    → ClaimDraw
    → ℕ
    → Queue
    → Session
    → Result (Db × ClaimResult)
claim_new db scope r locked draw lease_duration q s =
    if not (text_eq s.worker_group q.worker_group)
    then nothing db ClaimDisposition.no_eligible_job
    else if leb q.max_concurrency (count (active_in_queue r.queue) db.leases)
    then nothing db ClaimDisposition.capacity_exhausted
    else if leb s.concurrency_limit (count (active_for_worker r.worker_id) db.leases)
    then nothing db ClaimDisposition.capacity_exhausted
    else take_job db scope r draw lease_duration
        (first_job (λ i j. eligible db scope r s draw.first_now i j && not (locked i)) db.jobs)

-- A claim whose id has a lease.
unfoldable pub claim_again : Db → Text → ClaimRequest → ℕ → Assignment → Result (Db × ClaimResult)
claim_again db scope r now e = do
  refuse (disagrees scope r (some e)) claim_conflict
  if e.worker_id == r.worker_id && e.session_id == r.session_id
      then ok (
        db,
        record {
          disposition = ClaimDisposition.claimed;
          assignment = some (record e { lease_remaining = remaining_until e.lease_expires_at now });
          replayed = true;
        },
      )
      else nothing db ClaimDisposition.duplicate_notification

unfoldable pub claim_known :
    Db
    → Text
    → ClaimRequest
    → (ℕ → Bool)
    → ClaimDraw
    → ℕ
    → Queue
    → Session
    → Option Assignment
    → Result (Db × ClaimResult)
claim_known db scope r locked draw lease_duration q s none =
    claim_new db scope r locked draw lease_duration q s
claim_known db scope r locked draw lease_duration q s (some e) =
    claim_again db scope r draw.first_now e

-- Claim, from the start of its transaction. `locked` are the jobs whose rows others hold.
unfoldable pub claim_tx :
    Db → Text → ClaimRequest → (ℕ → Bool) → ClaimDraw → ℕ → Result (Db × ClaimResult)
claim_tx db scope r locked draw lease_duration = do
  q ← or_fail (find_queue r.queue db.queues) unknown_queue
  s ←
      or_fail (find_if r.session_id (names_session scope r.worker_id) db.sessions)
        session_unavailable
  guard (session_healthy s.status) session_unavailable
  claim_known db scope r locked draw lease_duration q s (lookup_claim db r.claim_request_id)

-- Claim
unfoldable pub claim :
    Db → Text → ClaimRequest → (ℕ → Bool) → ClaimDraw → ℕ → Result (Db × ClaimResult)
claim db scope r locked draw lease_duration = do
  guard (valid_claim r) validation_failed
  refuse (lease_duration == 0) invalid_argument
  refuse (disagrees scope r (lookup_claim db r.claim_request_id)) claim_conflict
  claim_tx db scope r locked draw lease_duration
