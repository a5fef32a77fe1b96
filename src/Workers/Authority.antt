-- ===== src/Workers/Authority.antt =====
-- internal/workers/store.go, lockAuthorityRows: the rows that a fenced transition locks, and what
-- it reads of them.
use task_forge.Base.{
  Text, text_eq, ℕ, ◌==◌, ◌≡◌, refl, Bool, true, false, ◌&&◌, Option, none, some, ltb, leb, Result,
  ok, ◌>>=◌, ◌>>◌, guard, or_fail, or_fail_ok, fence_rejected, database_error, arith,
}
use task_forge.Lifecycle.{FailureClass}
use task_forge.Table.{find, find_if}
use task_forge.Table.Laws.{find_if-eq-some, find_if_hit}
use task_forge.Schema.{
  Db, Job, Attempt, Lease, Session, Queue, Status, AttemptStatus, LeaseStatus, find_queue,
  lease_active, session_healthy,
}
use task_forge.Workers.{Fence}

pub record FenceState : Type 0 where
  pub queue : Text
  pub scope : Text
  pub job_status : Status
  pub attempt_status : AttemptStatus
  pub lease_status : LeaseStatus
  pub expires_at : ℕ
  pub server_now : ℕ
  pub renewal_version : ℕ
  pub last_renewal_request_id : Option ℕ
  pub attempt_number : ℕ
  pub max_attempts : ℕ
  pub timeout_at : Option ℕ
  pub outcome_request_id : Option ℕ
  pub failure_class : Option FailureClass
  pub error_code : Option Text
  pub error_message : Option Text
  pub retry_delay_ms : Option ℕ
  pub retry_at : Option ℕ
  pub session_healthy : Bool

-- `serverNow` has reached the attempt's deadline.
abbrev reached : Option ℕ → ℕ → Bool
reached none now = false
reached (some t) now = leb t now

abbrev pub timed_out : FenceState → Bool
timed_out s = reached s.timeout_at s.server_now

abbrev pub lease_usable : FenceState → Bool
lease_usable s = lease_active s.lease_status && ltb s.server_now s.expires_at

-- The row of the lease that the fence names: `SELECT queue FROM leases`.
abbrev pub names_lease : Text → Fence → Lease → Bool
names_lease scope f l =
    l.job_id == f.job_id
    && l.attempt_id == f.attempt_id
    && l.worker_id == f.worker_id
    && l.session_id == f.session_id
    && text_eq l.scope scope

abbrev pub names_session : Text → ℕ → Session → Bool
names_session scope worker_id s = s.worker_id == worker_id && text_eq s.scope scope

abbrev pub names_attempt : Text → Fence → Attempt → Bool
names_attempt scope f a =
    a.job_id == f.job_id
    && a.worker_id == f.worker_id
    && a.session_id == f.session_id
    && text_eq a.scope scope

-- What the locked rows say at `now`.
unfoldable pub fence_state : Text → Text → Session → Job → Attempt → Lease → ℕ → FenceState
fence_state queue scope s j a l now = record {
  queue = queue;
  scope = scope;
  job_status = j.status;
  attempt_status = a.status;
  lease_status = l.status;
  expires_at = l.expires_at;
  server_now = now;
  renewal_version = l.renewal_version;
  last_renewal_request_id = l.last_renewal_request_id;
  attempt_number = a.attempt_number;
  max_attempts = j.max_attempts;
  timeout_at = a.timeout_at;
  outcome_request_id = a.outcome_request_id;
  failure_class = a.failure_class;
  error_code = a.error_code;
  error_message = a.error_message;
  retry_delay_ms = a.retry_delay_ms;
  retry_at = a.retry_at;
  session_healthy = session_healthy s.status;
}

-- lockAuthorityRows. `now` is the clock_timestamp() that follows the locks.
unfoldable pub lock_authority_rows : Db → Text → Fence → ℕ → Result FenceState
unfolding fence_state
lock_authority_rows db scope f now = do
  routed ← or_fail (find_if f.lease_id (names_lease scope f) db.leases) fence_rejected
  queue ← or_fail (find_queue routed.queue db.queues) database_error
  s ← or_fail (find_if f.session_id (names_session scope f.worker_id) db.sessions) fence_rejected
  j ← or_fail (find_if f.job_id (λ (j : Job). text_eq j.scope scope) db.jobs) fence_rejected
  a ← or_fail (find_if f.attempt_id (names_attempt scope f) db.attempts) fence_rejected
  l ←
      or_fail
        (find_if f.lease_id (λ (l : Lease). l.attempt_id == f.attempt_id && text_eq l.scope scope)
          db.leases)
        fence_rejected
  ok (fence_state queue.name scope s j a l now)

-- lockFence: the same behind a healthy session.
unfoldable pub lock_fence : Db → Text → Fence → ℕ → Result FenceState
lock_fence db scope f now = do
  s ← lock_authority_rows db scope f now
  guard s.session_healthy fence_rejected
  ok s

-- The rows behind a fence state.
pub record IsLocked (db : Db) (scope : Text) (f : Fence) (now : ℕ) (s : FenceState) : Type 0 where
  pub queue : Queue
  pub session : Session
  pub job : Job
  pub attempt : Attempt
  pub lease : Lease
  pub found_queue : find_queue lease.queue db.queues ≡ some queue
  pub found_session : find f.session_id db.sessions ≡ some session
  pub found_job : find f.job_id db.jobs ≡ some job
  pub found_attempt : find f.attempt_id db.attempts ≡ some attempt
  pub found_lease : find f.lease_id db.leases ≡ some lease
  pub session_named : names_session scope f.worker_id session ≡ true
  pub job_scope : text_eq job.scope scope ≡ true
  pub attempt_named : names_attempt scope f attempt ≡ true
  pub lease_named : names_lease scope f lease ≡ true
  pub state_eq : s ≡ fence_state queue.name scope session job attempt lease now

pub lock_authority_rows-IsLocked :
    (db : Db) (scope : Text) (f : Fence) (now : ℕ) (s : FenceState)
    → lock_authority_rows db scope f now ≡ ok s
    → IsLocked db scope f now s
unfolding lock_authority_rows
lock_authority_rows-IsLocked db scope f now s h =
    or_fail_ok (find_if f.lease_id (names_lease scope f) db.leases) _ _ h λ routed e1 h1.
      or_fail_ok (find_queue routed.queue db.queues) _ _ h1 λ queue e2 h2.
        or_fail_ok (find_if f.session_id (names_session scope f.worker_id) db.sessions) _ _ h2
          λ session e3 h3.
            or_fail_ok (find_if f.job_id (λ (j : Job). text_eq j.scope scope) db.jobs) _ _ h3
              λ j e4 h4.
                or_fail_ok (find_if f.attempt_id (names_attempt scope f) db.attempts) _ _ h4
                  λ a e5 h5.
                    or_fail_ok
                      (find_if f.lease_id
                        (λ (l : Lease). l.attempt_id == f.attempt_id && text_eq l.scope scope)
                        db.leases)
                      _ _ h5
                      λ l e6 h6.
                        let found = find_if-eq-some f.lease_id _ _ e1 in
                        let again = find_if-eq-some f.lease_id _ _ e6 in
                        let same : l ≡ routed = cc (found.0, again.0) in
                        record {
                          queue = queue;
                          session = session;
                          job = j;
                          attempt = a;
                          lease = routed;
                          found_queue = e2;
                          found_session = (find_if-eq-some f.session_id _ _ e3).0;
                          found_job = (find_if-eq-some f.job_id _ _ e4).0;
                          found_attempt = (find_if-eq-some f.attempt_id _ _ e5).0;
                          found_lease = found.0;
                          session_named = (find_if-eq-some f.session_id _ _ e3).1;
                          job_scope = (find_if-eq-some f.job_id _ _ e4).1;
                          attempt_named = (find_if-eq-some f.attempt_id _ _ e5).1;
                          lease_named = found.1;
                          state_eq = rw (← same) (cc h6);
                        }

-- The rows that a fence names give their state, at every time.
pub lock_authority_rows_hit :
    (db : Db) (scope : Text) (f : Fence) (now : ℕ) (queue : Queue) (s : Session) (j : Job)
    (a : Attempt) (l : Lease)
    → find f.lease_id db.leases ≡ some l
    → names_lease scope f l ≡ true
    → find_queue l.queue db.queues ≡ some queue
    → find f.session_id db.sessions ≡ some s
    → names_session scope f.worker_id s ≡ true
    → find f.job_id db.jobs ≡ some j
    → text_eq j.scope scope ≡ true
    → find f.attempt_id db.attempts ≡ some a
    → names_attempt scope f a ≡ true
    → lock_authority_rows db scope f now ≡ ok (fence_state queue.name scope s j a l now)
unfolding lock_authority_rows
lock_authority_rows_hit db scope f now queue s j a l fl el fq fs es fj ej fa ea =
    rw
      (
        find_if_hit f.lease_id (names_lease scope f) db.leases l fl el,
        fq,
        find_if_hit f.session_id (names_session scope f.worker_id) db.sessions s fs es,
        find_if_hit f.job_id (λ (j : Job). text_eq j.scope scope) db.jobs j fj ej,
        find_if_hit f.attempt_id (names_attempt scope f) db.attempts a fa ea,
        find_if_hit f.lease_id
            (λ (l : Lease). l.attempt_id == f.attempt_id && text_eq l.scope scope) db.leases l fl
            (ground (arith, el)),
      )
      refl
