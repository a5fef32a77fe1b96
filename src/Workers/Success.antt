-- ===== src/Workers/Success.antt =====
-- A success reported again is accepted, and changes nothing.
use task_forge.Base.{
  Text, ℕ, ◌≡◌, refl, sym, arith, subst, true, ◌&&◌, Option, ok, guard_ok, refuse_ok, bind_ok,
  if_ok,
}
use task_forge.Table.Laws.{update_ok, find-put_self}
use task_forge.Schema.{
  Db, Job, Attempt, Lease, LeaseStatus, is_running, attempt_running, lease_active,
}
use task_forge.Workers.{Fence, valid_fence, ResultRef}
use task_forge.Workers.Authority.{
  FenceState, IsLocked, fence_state, lock_authority_rows, lock_authority_rows-IsLocked,
  lock_authority_rows_hit, timed_out, lease_usable,
}
use task_forge.Workers.Execution.{
  succeed, succeed_locked, already_succeeded, complete, succeed_job, succeed_attempt, release_lease,
}
use task_forge.Workers.Steps.{insert_result-eq-ok}

-- The rows that the fence names say that the attempt succeeded, whenever they are read.
abbrev IsDone : Db → Text → Fence → Type 0
IsDone db scope f =
    (state : ℕ → FenceState) × ((now : ℕ) → lock_authority_rows db scope f now ≡ ok (state now))
    × ((now : ℕ) → already_succeeded (state now) ≡ true)

complete-IsDone :
    (db : Db) (scope : Text) (f : Fence) (result : Option ResultRef) (s : FenceState) (now : ℕ)
    (k : IsLocked db scope f now s) (db' : Db)
    → complete db scope f result now ≡ ok db'
    → IsDone db' scope f
unfolding complete fence_state
complete-IsDone db scope f result s now k db' h =
    update_ok f.job_id (λ (j : Job). is_running j.status) (succeed_job now) db.jobs _ _ h
      λ j fj _ h1.
        update_ok f.attempt_id (λ (a : Attempt). attempt_running a.status) (succeed_attempt now)
          db.attempts _ _ h1
          λ a fa _ h2.
            update_ok f.lease_id (λ (l : Lease). lease_active l.status)
              (release_lease LeaseStatus.completed now) db.leases _ _ h2
              λ l fl _ h3.
                let j' = succeed_job now j in
                let a' = succeed_attempt now a in
                let l' = release_lease LeaseStatus.completed now l in
                let job : j ≡ k.job = cc (fj, k.found_job) in
                let attempt : a ≡ k.attempt = cc (fa, k.found_attempt) in
                let lease : l ≡ k.lease = cc (fl, k.found_lease) in
                let (t, e) = insert_result-eq-ok result scope f _ db' h3 in
                subst (λ (x : Db). IsDone x scope f) (sym e)
                  (
                    λ now'. fence_state k.queue.name scope k.session j' a' l' now',
                    λ now'.
                        lock_authority_rows_hit _ scope f now' k.queue k.session j' a' l'
                          (find-put_self f.lease_id l' db.leases) (rw lease k.lease_named)
                          (rw lease k.found_queue) k.found_session k.session_named
                          (find-put_self f.job_id j' db.jobs) (rw job k.job_scope)
                          (find-put_self f.attempt_id a' db.attempts) (rw attempt k.attempt_named),
                    λ now'. refl,
                  )

same-IsDone :
    (db : Db) (scope : Text) (f : Fence) (s : FenceState) (now : ℕ)
    → IsLocked db scope f now s
    → already_succeeded s ≡ true
    → IsDone db scope f
unfolding fence_state
same-IsDone db scope f s now k done = (
  λ now'. fence_state k.queue.name scope k.session k.job k.attempt k.lease now',
  λ now'.
      lock_authority_rows_hit db scope f now' k.queue k.session k.job k.attempt k.lease
        k.found_lease k.lease_named k.found_queue k.found_session k.session_named k.found_job
        k.job_scope k.found_attempt k.attempt_named,
  λ now'. rw k.state_eq at done,
)

succeed-IsDone :
    (db : Db) (scope : Text) (f : Fence) (result : Option ResultRef) (now : ℕ) (db' : Db)
    → succeed db scope f result now ≡ ok db'
    → (valid_fence f ≡ true) × IsDone db' scope f
unfolding succeed succeed_locked
succeed-IsDone db scope f result now db' h = guard_ok (valid_fence f) _ _ h λ valid h1.
    bind_ok (lock_authority_rows db scope f now) _ h1 λ s locked h2.
      let k = lock_authority_rows-IsLocked db scope f now s locked in
      if_ok (already_succeeded s) _ _ h2
        (λ done same. (
          valid,
          subst (λ (x : Db). IsDone x scope f) (ground (arith, same))
              (same-IsDone db scope f s now k done),
        ))
        λ _ new. guard_ok s.session_healthy _ _ new λ _ h3. refuse_ok (timed_out s) _ _ h3 λ _ h4.
          guard_ok (lease_usable s) _ _ h4 λ _ h5.
            guard_ok (is_running s.job_status && attempt_running s.attempt_status) _ _ h5
              λ _ last. (valid, complete-IsDone db scope f result s now k db' last)

-- A success that was accepted, reported again at any time, with this or another result, is accepted
-- and leaves the database as it is: the first result stays.
pub succeed-succeed :
    (db : Db) (scope : Text) (f : Fence) (result result' : Option ResultRef) (now now' : ℕ)
    (db' : Db)
    → succeed db scope f result now ≡ ok db'
    → succeed db' scope f result' now' ≡ ok db'
unfolding succeed succeed_locked
succeed-succeed db scope f result result' now now' db' h =
    let (valid, (state, locked, done)) = succeed-IsDone db scope f result now db' h in
    rw (valid, locked now', done now') refl
