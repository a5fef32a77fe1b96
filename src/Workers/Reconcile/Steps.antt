-- ===== src/Workers/Reconcile/Steps.antt =====
-- The reconciler's transaction for one candidate is one transition.
use task_forge.Base.{
  Text, ℕ, ◌≡◌, refl, ap, ◌∙◌, ◌⊎◌, ◌/◌, inl, inr, Bool-cases, true, arith, subst, false, ◌||◌, not,
  Option, none, some, ltb, Result, ok, err, Error, bind_ok, if_ok, state-eq,
}
use task_forge.Table.{find, find_where}
use task_forge.Lifecycle.{FailureClass}
use task_forge.Lifecycle.Retry.{Float64, RetryPolicy, Decision, decide}
use task_forge.Schema.{
  Db, Job, Status, Lease, millisecond, LeaseStatus, is_executing, is_running, is_cancel_requested,
  attempt_executing, attempt_running, lease_active,
}
use task_forge.Workers.{Fence, ReconcileStats}
use task_forge.Workers.Authority.{
  FenceState, IsLocked, timed_out, lease_usable, lock_authority_rows, lock_authority_rows-IsLocked,
  fence_state,
}
use task_forge.Workers.Finalize.{Fresh, finalize_attempt, finalize_cancellation}
use task_forge.Workers.Finalize.Steps.{
  finalize_attempt-Transition, finalize_cancellation-Transition, locked_running, attempt_of_fence,
}
use task_forge.Workers.Reconcile.{
  lease_fence, timed_out_before_lapse, timeout_outcome, timeout_lease_status, abandoned_outcome,
  unless_rejected, lease_of, finalize_timeout, expire_canceled, expire_timed_out, expire_abandoned,
  expire_locked, expire_routed, reconcile_expired_lease, timeout_locked, timeout_routed,
  reconcile_due_timeout, skip,
}
use task_forge.Transitions.{Transition, idle}
use task_forge.Transitions.Invariant.{Inv}

unless_rejected_ok {ℓ μ} :
    {A : Type ℓ} {G : Type μ} {v : A} (m : Result FenceState) (skipped : Result A)
    (k : FenceState → Result A)
    → unless_rejected m skipped k ≡ ok v
    → (skipped ≡ ok v → G)
    → ((s : FenceState) → m ≡ ok s → k s ≡ ok v → G)
    → G
unless_rejected_ok (ok s) skipped k h out next = next s refl h
unless_rejected_ok (err Error.fence_rejected) skipped k h out next = out h
unless_rejected_ok (err _) skipped k h out next = cc

timeout_lease_inactive : (s : FenceState) → lease_active (timeout_lease_status s) ≡ false
timeout_lease_inactive s = ground arith

executing_cases : (s : Status) → is_executing s ≡ true → (s ≡ Status.leased) ⊎ (s ≡ Status.running)
executing_cases Status.leased h = inl refl
executing_cases Status.running h = inr refl
executing_cases _ h = cc

-- An abandoned attempt is retried at once.
decide_abandoned :
    (fl : Float64) (p : RetryPolicy fl) (n used max_attempts : ℕ) (jitter : Option fl.Carrier)
    (d : Decision)
    → decide fl p FailureClass.abandoned n used max_attempts jitter ≡ ok d
    → ltb 0 (d.delay / millisecond) ≡ false
unfolding decide
decide_abandoned fl p n used max_attempts jitter d h = elim (Bool-cases (ltb used max_attempts)) [
  | inl again ↦ let delay : d.delay ≡ 0 = ground (arith, rw again at h) in rw delay refl
  | inr over ↦ let delay : d.delay ≡ 0 = ground (arith, rw over at h) in rw delay refl
]

skipped-Transition :
    (db : Db) (st : ReconcileStats) (r : Db × ReconcileStats)
    → ok (db, skip st) ≡ ok r
    → Transition db r.0
skipped-Transition db st r h = subst (Transition db) (state-eq r h) idle

module _ (fl : Float64) where
  open fl use {Carrier}

  module _ (db : Db) (p : RetryPolicy fl) (jitter : Option Carrier) (scope : Text) (f : Fence)
      (now : ℕ) (fresh : Fresh) (s : FenceState) (k : IsLocked db scope f now s) where
    finalize_timeout-Transition :
        (st : ReconcileStats) (r : Db × ReconcileStats)
        → ((j : Job) → find f.job_id db.jobs ≡ some j → j.status ≡ Status.running)
        → finalize_timeout fl db p jitter s f fresh st ≡ ok r
        → Transition db r.0
    unfolding finalize_timeout
    finalize_timeout-Transition st r runs h =
        bind_ok
          (decide fl p FailureClass.timed_out s.attempt_number s.attempt_number s.max_attempts
            jitter)
          _ h
          λ d _ h1.
            bind_ok (finalize_attempt db s f (timeout_outcome s) d fresh) _ h1 λ q done last.
              subst (Transition db) (state-eq r last) (
                finalize_attempt-Transition db scope f now s k (timeout_outcome s) d fresh q refl
                  (timeout_lease_inactive s) (λ _. runs) done)

    -- A job whose attempt outlived its deadline had been started.
    timed_running :
        Inv db
        → not (attempt_executing s.attempt_status) ≡ false
        → not (is_executing s.job_status) ≡ false
        → timed_out_before_lapse s ≡ true
        → (j : Job) → find f.job_id db.jobs ≡ some j
        → j.status ≡ Status.running
    unfolding fence_state
    timed_running v executing works lapsed j found =
        let row : k.job ≡ j = ground (arith, k.found_job, found) in
        let here : find k.attempt.job_id db.jobs ≡ some k.job =
          rw (attempt_of_fence scope f k.attempt k.attempt_named) k.found_job in
        let job_status : s.job_status ≡ k.job.status =
          ap (λ (x : FenceState). x.job_status) k.state_eq in
        let status : s.attempt_status ≡ k.attempt.status =
          ap (λ (x : FenceState). x.attempt_status) k.state_eq in
        let timeout : s.timeout_at ≡ k.attempt.timeout_at =
          ap (λ (x : FenceState). x.timeout_at) k.state_eq in
        let law =
          v.untimed f.attempt_id k.attempt k.job k.found_attempt (ground (arith, executing, status))
            here in
        elim (executing_cases k.job.status (ground (arith, works, job_status))) [
          | inr runs ↦ subst (λ (x : Job). x.status ≡ Status.running) row runs
          | inl leased ↦ cc (lapsed, timeout ∙ law leased)
        ]

    expire_locked-Transition :
        (st : ReconcileStats) (r : Db × ReconcileStats)
        → Inv db
        → expire_locked fl db p jitter f fresh st s ≡ ok r
        → Transition db r.0
    unfolding expire_locked expire_canceled expire_timed_out expire_abandoned
    expire_locked-Transition st r v h =
        if_ok (not (lease_active s.lease_status) || ltb s.server_now s.expires_at) _ _ h
          (λ _ e. skipped-Transition db st r e)
          λ _ h1.
            if_ok (not (attempt_executing s.attempt_status)) _ _ h1
              (λ _ e. skipped-Transition db st r e)
              λ executing h2.
                if_ok (is_cancel_requested s.job_status) _ _ h2
                  (λ _ e.
                    bind_ok (finalize_cancellation db s f none LeaseStatus.expired) _ e
                      λ q done last. subst (Transition db) (state-eq r last) (
                        finalize_cancellation-Transition db scope f now s k none LeaseStatus.expired
                          q refl done))
                  λ _ h3.
                    if_ok (not (is_executing s.job_status)) _ _ h3
                      (λ _ e. skipped-Transition db st r e)
                      λ works h4.
                        if_ok (timed_out_before_lapse s) _ _ h4
                          (λ lapsed e.
                            bind_ok (finalize_timeout fl db p jitter s f fresh st) _ e
                              λ q done last. subst (Transition db) (state-eq r last) (
                                finalize_timeout-Transition st q
                                  (timed_running v executing works lapsed) done))
                          λ _ e.
                            bind_ok
                              (decide fl p FailureClass.abandoned s.attempt_number s.attempt_number
                                s.max_attempts jitter)
                              _ e
                              λ d decided h5.
                                bind_ok (finalize_attempt db s f abandoned_outcome d fresh) _ h5
                                  λ q done last. subst (Transition db) (state-eq r last) (
                                    finalize_attempt-Transition db scope f now s k abandoned_outcome
                                      d fresh q refl refl
                                      (λ waits. cc (
                                        waits,
                                        decide_abandoned fl p s.attempt_number s.attempt_number
                                            s.max_attempts jitter d decided,
                                      ))
                                      done)

    timeout_locked-Transition :
        (st : ReconcileStats) (r : Db × ReconcileStats)
        → timeout_locked fl db p jitter f fresh st s ≡ ok r
        → Transition db r.0
    unfolding timeout_locked
    timeout_locked-Transition st r h =
        if_ok
          (not (lease_usable s)
            || not (timed_out s)
            || not (is_running s.job_status)
            || not (attempt_running s.attempt_status))
          _ _ h (λ _ e. skipped-Transition db st r e)
          λ usable e. bind_ok (finalize_timeout fl db p jitter s f fresh st) _ e λ q done last.
            subst (Transition db) (state-eq r last) (
              finalize_timeout-Transition st q
                (locked_running db scope f now s k (ground (arith, usable))) done)

  module _ (db : Db) (p : RetryPolicy fl) (jitter : Option Carrier) (fresh : Fresh) (now : ℕ)
      (st : ReconcileStats) (r : Db × ReconcileStats) where
    expire_routed-Transition :
        (id : ℕ) (o : Option Lease)
        → Inv db
        → expire_routed fl db p jitter id fresh now st o ≡ ok r
        → Transition db r.0
    unfolding expire_routed
    expire_routed-Transition id none v h = skipped-Transition db st r h
    expire_routed-Transition id (some l) v h =
        unless_rejected_ok (lock_authority_rows db l.scope (lease_fence id l) now) _ _ h
          (λ e. skipped-Transition db st r e)
          λ s locked e.
            expire_locked-Transition db p jitter l.scope (lease_fence id l) now fresh s
              (lock_authority_rows-IsLocked db l.scope (lease_fence id l) now s locked) st r v e

    timeout_routed-Transition :
        (o : Option (ℕ × Lease))
        → timeout_routed fl db p jitter fresh now st o ≡ ok r
        → Transition db r.0
    unfolding timeout_routed
    timeout_routed-Transition none h = skipped-Transition db st r h
    timeout_routed-Transition (some (id, l)) h =
        unless_rejected_ok (lock_authority_rows db l.scope (lease_fence id l) now) _ _ h
          (λ e. skipped-Transition db st r e)
          λ s locked e.
            timeout_locked-Transition db p jitter l.scope (lease_fence id l) now fresh s
              (lock_authority_rows-IsLocked db l.scope (lease_fence id l) now s locked) st r e

    pub reconcile_expired_lease-Transition :
        (id : ℕ)
        → Inv db
        → reconcile_expired_lease fl db p jitter id fresh now st ≡ ok r
        → Transition db r.0
    unfolding reconcile_expired_lease
    reconcile_expired_lease-Transition id v h = expire_routed-Transition id (find id db.leases) v h

    pub reconcile_due_timeout-Transition :
        (id : ℕ) → reconcile_due_timeout fl db p jitter id fresh now st ≡ ok r → Transition db r.0
    unfolding reconcile_due_timeout
    reconcile_due_timeout-Transition id h =
        timeout_routed-Transition (find_where (lease_of id) db.leases) h
