-- ===== src/Workers/Claim/Progress.antt =====
-- A claim is answered with a job whenever one is eligible and there is room for it.
use task_forge.Base.{
  Text, text_eq, ℕ, ◌+◌, ◌≡◌, refl, arith, Bool, true, false, ◌==◌, ◌&&◌, not, none, some, leb,
  Result, ok, is_some, Option-cases, inl, inr, [], ◌∷◌,
}
use task_forge.Table.{Table, find, find_if, find_where, any, count}
use task_forge.Table.Laws.{insert_hit, update_hit}
use task_forge.Schema.{Db, Job, Queue, Session, find_queue, is_queued, session_healthy}
use task_forge.Workers.{ClaimRequest, ClaimResult, ClaimDisposition}
use task_forge.Workers.Authority.{names_session}
use task_forge.Workers.Claim.{
  ClaimDraw, claim, claim_tx, claim_known, claim_new, take_job, grant, first_job, eligible,
  valid_claim, lookup_claim, consumed_by, active_in_queue, active_for_worker, active_for_job,
  new_attempt, new_lease, lease_job, max_number,
}
use task_forge.Workers.Claim.Steps.{first_job-eq-some}
use task_forge.Workers.Claim.Order.{first_job-none}
use task_forge.Transitions.Invariant.{Inv}

find_where-none {ℓ} :
    {A : Type ℓ} (p : A → Bool) (t : Table A) → any p t ≡ false → find_where p t ≡ none
unfolding find_where count
find_where-none p [] h = refl
find_where-none p ((k, a) ∷ t) h = ground (arith, find_where-none p t)

-- A queued job has no active lease.
queued_is_free :
    (db : Db) (i : ℕ) (j : Job)
    → Inv db
    → find i db.jobs ≡ some j
    → is_queued j.status ≡ true
    → any (active_for_job i) db.leases ≡ false
queued_is_free db i j v found queued = ground (arith, v.one_lease i)

eligible_row :
    (db : Db) (scope : Text) (r : ClaimRequest) (s : Session) (now i : ℕ) (j : Job)
    → eligible db scope r s now i j ≡ true
    → (is_queued j.status ≡ true) × ((text_eq j.scope scope && is_queued j.status) ≡ true)
unfolding eligible
eligible_row db scope r s now i j h = ground arith

abbrev Granted : Result (Db × ClaimResult) → Type 0
Granted m =
    (v : Db × ClaimResult) × (m ≡ ok v)
    × (v.1.disposition ≡ ClaimDisposition.claimed)
    × (is_some v.1.assignment ≡ true)

grant-Granted :
    (db : Db) (scope : Text) (r : ClaimRequest) (draw : ClaimDraw) (duration i : ℕ) (j : Job)
    → Inv db
    → find i db.jobs ≡ some j
    → is_queued j.status ≡ true
    → (text_eq j.scope scope && is_queued j.status) ≡ true
    → any (consumed_by r.claim_request_id) db.leases ≡ false
    → find draw.attempt_id db.attempts ≡ none
    → find draw.lease_id db.leases ≡ none
    → Granted (grant db scope r draw duration i j)
unfolding grant
grant-Granted db scope r draw duration i j v found queued row unconsumed fresh_attempt fresh_lease =
    let number = max_number i db.attempts + 1 in
    let a = new_attempt scope r i j number in
    let l = new_lease scope r i j draw duration in
    rw
      (
        insert_hit draw.attempt_id a db.attempts fresh_attempt,
        queued_is_free db i j v found queued,
        unconsumed,
        insert_hit draw.lease_id l db.leases fresh_lease,
        update_hit i (λ (k : Job). text_eq k.scope scope && is_queued k.status)
            (lease_job draw.second_now) db.jobs j found row,
      )
      (_, refl, refl, refl)

take_job-Granted :
    (db : Db) (scope : Text) (r : ClaimRequest) (locked : ℕ → Bool) (draw : ClaimDraw)
    (duration : ℕ) (s : Session) (k : ℕ) (b : Job)
    → Inv db
    → find k db.jobs ≡ some b
    → (eligible db scope r s draw.first_now k b && not (locked k)) ≡ true
    → any (consumed_by r.claim_request_id) db.leases ≡ false
    → find draw.attempt_id db.attempts ≡ none
    → find draw.lease_id db.leases ≡ none
    → Granted (
        take_job db scope r draw duration
          (first_job (λ i j. eligible db scope r s draw.first_now i j && not (locked i)) db.jobs))
unfolding take_job
take_job-Granted db scope r locked draw duration s k b v found hit unconsumed fresh_attempt
      fresh_lease =
    let p : ℕ → Job → Bool = λ i j. eligible db scope r s draw.first_now i j && not (locked i) in
    elim (Option-cases (first_job p db.jobs)) [
      | inl nothing ↦ let miss = first_job-none p db.jobs k b nothing found in cc
      | inr ((i, j), chosen) ↦
          let (at, meets) = first_job-eq-some p db.jobs i j chosen v.keyed in
          let (queued, row) =
            eligible_row db scope r s draw.first_now i j (ground (arith, meets)) in
          rw chosen (
            grant-Granted db scope r draw duration i j v at queued row unconsumed fresh_attempt
              fresh_lease)
    ]

-- In a database with the invariant, a valid claim that no lease has answered, for a queue that
-- exists and a healthy session of its group, with room in the queue and the worker, fresh ids and
-- some eligible job that no other transaction holds, is answered with a job.
pub claim_succeeds :
    (db : Db) (scope : Text) (r : ClaimRequest) (locked : ℕ → Bool) (draw : ClaimDraw)
    (duration : ℕ) (q : Queue) (s : Session) (k : ℕ) (b : Job)
    → Inv db
    → valid_claim r ≡ true
    → (duration == 0) ≡ false
    → any (consumed_by r.claim_request_id) db.leases ≡ false
    → find_queue r.queue db.queues ≡ some q
    → find_if r.session_id (names_session scope r.worker_id) db.sessions ≡ some s
    → session_healthy s.status ≡ true
    → text_eq s.worker_group q.worker_group ≡ true
    → leb q.max_concurrency (count (active_in_queue r.queue) db.leases) ≡ false
    → leb s.concurrency_limit (count (active_for_worker r.worker_id) db.leases) ≡ false
    → find k db.jobs ≡ some b
    → (eligible db scope r s draw.first_now k b && not (locked k)) ≡ true
    → find draw.attempt_id db.attempts ≡ none
    → find draw.lease_id db.leases ≡ none
    → (v : Db × ClaimResult) × (claim db scope r locked draw duration ≡ ok v)
      × (v.1.disposition ≡ ClaimDisposition.claimed)
      × (is_some v.1.assignment ≡ true)
unfolding claim claim_tx claim_known claim_new lookup_claim
claim_succeeds db scope r locked draw duration q s k b v valid lasts unconsumed fq fs healthy group
      room slot found hit fresh_attempt fresh_lease =
    rw
      (
        valid,
        lasts,
        find_where-none (consumed_by r.claim_request_id) db.leases unconsumed,
        fq,
        fs,
        healthy,
        group,
        room,
        slot,
      )
      (take_job-Granted db scope r locked draw duration s k b v found hit unconsumed fresh_attempt
        fresh_lease)
