-- ===== src/Worker/Renewal/Authority.antt =====
-- A worker that acts on a lease acts within it: while the loop runs, its deadline is not after the
-- instant at which the database says that the lease expires.
use task_forge.Base.{
  Text, ℕ, ◌+◌, ◌≤◌, ◌<◌, ◌≡◌, arith, subst, ap, ◌&&◌, none, some, ltb, ◌==◌, ok, guard_ok,
  refuse_ok, bind_ok, if_ok, is_at, Bool-cases, inl, inr, beside,
}
use task_forge.Table.{find, find_where}
use task_forge.Table.Laws.{update_ok, find-put_self}
use task_forge.Schema.{Db, Lease, lease_active, attempt_executing, is_executing}
use task_forge.Workers.{Fence, RenewalRequest, RenewalResult, valid_renewal}
use task_forge.Workers.Authority.{
  FenceState, lock_fence, lock_authority_rows, lock_authority_rows-IsLocked, lease_usable,
  timed_out, fence_state,
}
use task_forge.Workers.Execution.{
  renew_lease, renew_locked, extend_lease, replay_renewal, renew_row, other_owner, holds_renewal,
}
use task_forge.Worker.Renewal.{
  CallError, granted, failed, execution_budget, in_millis, parse_renewal, Fate, Loop, Turn, request,
  turn, timer_fired, stop_loop, is_authority_lost,
}

-- When the database says that a lease expires; 0 if there is none.
abbrev pub expiry : ℕ → Db → ℕ
expiry id db = elim (find id db.leases) [ none ↦ 0 | some l ↦ l.expires_at ]

execution_budget-le : (n : ℕ) → execution_budget n ≤ n
unfolding execution_budget
execution_budget-le n = ground arith

in_millis-le : (n : ℕ) → in_millis n ≤ n
in_millis-le n = omega arith

extended-expiry :
    (db : Db) (s : FenceState) (q : RenewalRequest) (duration : ℕ) (v : Db × RenewalResult)
    → extend_lease db s q duration ≡ ok v
    → v.1.remaining + s.server_now ≡ expiry q.fence.lease_id v.0
unfolding extend_lease
extended-expiry db s q duration v h =
    refuse_ok
      (other_owner q.fence.lease_id (find_where (holds_renewal q.renewal_request_id) db.leases)) _ _
      h
      λ _ h1. guard_ok (s.renewal_version == q.expected_version) _ _ h1 λ _ h2.
        update_ok q.fence.lease_id
          (λ (l : Lease). lease_active l.status && l.renewal_version == q.expected_version)
          (renew_row s.server_now (s.server_now + duration) q.renewal_request_id) db.leases _ _ h2
          λ l found _ last.
            let row = renew_row s.server_now (s.server_now + duration) q.renewal_request_id l in
            ground (arith, last, find-put_self q.fence.lease_id row db.leases)

replayed-expiry :
    (db : Db) (s : FenceState) (q : RenewalRequest) (l : Lease) (v : Db × RenewalResult)
    → beside db (replay_renewal s q) ≡ ok v
    → find q.fence.lease_id db.leases ≡ some l
    → s.expires_at ≡ l.expires_at
    → s.server_now < s.expires_at
    → v.1.remaining + s.server_now ≡ expiry q.fence.lease_id v.0
unfolding replay_renewal
replayed-expiry db s q l v h found same live =
    elim (Bool-cases (s.renewal_version == q.expected_version + 1)) [
      | inl hit ↦ ground (arith, hit, h, found, same, live)
      | inr miss ↦ ground (arith, miss, h)
    ]

-- What a renewal reports is what the lease's row says after it.
renew_lease-expiry :
    (db : Db) (scope : Text) (q : RenewalRequest) (duration now : ℕ) (v : Db × RenewalResult)
    → renew_lease db scope q duration now ≡ ok v
    → v.1.remaining + now ≡ expiry q.fence.lease_id v.0
unfolding renew_lease renew_locked lock_fence fence_state
renew_lease-expiry db scope q duration now v h = guard_ok (valid_renewal q) _ _ h λ _ h1.
    refuse_ok (duration == 0) _ _ h1 λ _ h2.
      bind_ok (lock_fence db scope q.fence now) _ h2 λ s locked h3.
        bind_ok (lock_authority_rows db scope q.fence now) _ locked λ s' rows rest.
          guard_ok s'.session_healthy _ _ rest λ _ same.
            let k = lock_authority_rows-IsLocked db scope q.fence now s' rows in
            let state : s ≡ fence_state k.queue.name scope k.session k.job k.attempt k.lease now =
              ground (arith, same, k.state_eq) in
            guard_ok (lease_usable s) _ _ h3 λ usable h4. refuse_ok (timed_out s) _ _ h4 λ _ h5.
              guard_ok (is_executing s.job_status && attempt_executing s.attempt_status) _ _ h5
                λ _ h6.
                  let clock : s.server_now ≡ now = ap (λ (x : FenceState). x.server_now) state in
                  let until : s.expires_at ≡ k.lease.expires_at =
                    ap (λ (x : FenceState). x.expires_at) state in
                  let live : s.server_now < s.expires_at = ground (arith, usable) in
                  subst (λ x. v.1.remaining + x ≡ expiry q.fence.lease_id v.0) clock
                    (if_ok (is_at q.renewal_request_id s.last_renewal_request_id) _ _ h6
                      (λ _ again. replayed-expiry db s q k.lease v again k.found_lease until live)
                      λ _ new. extended-expiry db s q duration v new)

-- The answer to a renewal that the database granted is accepted only with its remaining time, which
-- its transport can only round down.
parsed-remaining :
    (q : RenewalRequest) (r r' : RenewalResult)
    → parse_renewal q r ≡ granted r'
    → r'.remaining ≤ r.remaining
unfolding parse_renewal
parsed-remaining q r r' h =
    let down = in_millis-le r.remaining in
    elim (Bool-cases (r.lease_id == q.fence.lease_id)) [
      | inr other ↦ ground (arith, other, h)
      | inl same ↦ elim (Bool-cases (r.renewal_version == q.expected_version + 1)) [
        | inr stale ↦ ground (arith, same, stale, h)
        | inl next ↦ elim (Bool-cases (r.expires_at == 0)) [
          | inl undated ↦ ground (arith, same, next, undated, h)
          | inr dated ↦
              let e : granted (record r { remaining = in_millis r.remaining }) ≡ granted r' =
                rw (same, next, dated) at h in
              ground (arith, e, down)
        ]
      ]
    ]

module _ (f : Fence) where
  -- The loop and the database, while other processes work.
  pub record World : Type 0 where
    pub loop : Loop
    pub db : Db

  pub data Step (w : World) : World → Type 0 where
    -- Any change of the database that does not bring the lease's end forward; among them a renewal
    -- whose answer was lost.
    elsewhere :
        (db : Db) → expiry f.lease_id w.db ≤ expiry f.lease_id db → Step w (record w { db = db })
    -- A turn whose request failed.
    fails :
        (t : Turn) (e : CallError)
        → w.loop.fate ≡ Fate.running
        → t.answer ≡ failed e
        → Step w (record w { loop = turn w.loop t })
    -- A turn whose request reached the database after it was sent.
    renews :
        (t : Turn) (scope : Text) (duration now : ℕ) (v : Db × RenewalResult) (r : RenewalResult)
        → w.loop.fate ≡ Fate.running
        → t.started_at ≤ now
        → renew_lease w.db scope (request f w.loop t) duration now ≡ ok v
        → parse_renewal (request f w.loop t) v.1 ≡ granted r
        → t.answer ≡ granted r
        → Step w (record { loop = turn w.loop t; db = v.0 })
    fires : Step w (record w { loop = timer_fired w.loop })
    stops : Step w (record w { loop = stop_loop w.loop })

  pub data Run (w : World) : World → Type 0 where
    stay : Run w w
    next : {mid w' : World} → Run w mid → Step mid w' → Run w w'

  -- The loop's deadline, while it runs, is within the lease.
  abbrev pub Within : World → Type 0
  Within w = w.loop.fate ≡ Fate.running → w.loop.deadline ≤ expiry f.lease_id w.db

  failed-deadline :
      (l : Loop) (t : Turn) (e : CallError) → t.answer ≡ failed e → (turn l t).deadline ≡ l.deadline
  unfolding turn is_authority_lost
  failed-deadline l t e h = ground (arith, h)

  granted-deadline :
      (l : Loop) (t : Turn) (r : RenewalResult)
      → t.answer ≡ granted r
      → (turn l t).fate ≡ Fate.running
      → (turn l t).deadline ≡ t.started_at + execution_budget r.remaining
  unfolding turn
  granted-deadline l t r h runs = elim (Bool-cases (ltb t.woke_at l.deadline)) [
    | inr late ↦ ground (arith, late, runs)
    | inl early ↦ elim (Bool-cases t.context_ended) [
      | inl over ↦ ground (arith, early, over, runs)
      | inr on ↦ ground (arith, early, on, h, runs)
    ]
  ]

  Step-Within : (w w' : World) → Within w → Step w w' → Within w'
  Step-Within w w' v (elsewhere db later) = λ runs. omega (arith, v runs, later)
  Step-Within w w' v (fails t e runs h) = λ _. rw (failed-deadline w.loop t e h) (v runs)
  Step-Within w w' v (renews t scope duration now x r was sent done parsed h) = λ runs.
      let q = request f w.loop t in
      omega (
        arith,
        granted-deadline w.loop t r h runs,
        execution_budget-le r.remaining,
        parsed-remaining q x.1 r parsed,
        renew_lease-expiry w.db scope q duration now x done,
        sent,
      )
  Step-Within w w' v fires = λ runs. cc
  Step-Within w w' v stops = λ runs. cc

  Run-Within : (w w' : World) → Within w → Run w w' → Within w'
  Run-Within w w' v stay = v
  Run-Within w w' v (next {mid} r s) = Step-Within mid w' (Run-Within w mid v r) s

  -- Where nothing else brings the lease's end forward, a renewal loop that started within its lease,
  -- and still runs, has a deadline that is not after the instant at which the database says the lease
  -- expires, whatever its turns meet: requests that fail, whose answer is lost, or that are granted.
  pub authority_within_lease :
      (w w' : World)
      → w.loop.deadline ≤ expiry f.lease_id w.db
      → Run w w'
      → w'.loop.fate ≡ Fate.running
      → w'.loop.deadline ≤ expiry f.lease_id w'.db
  authority_within_lease w w' v r = Run-Within w w' (λ _. v) r
