-- ===== src/Passes/Accounts.antt =====
-- The scheduler's counts against what its passes wrote.
use task_forge.Base.{
  Text, ℕ, ◌+◌, ◌≤◌, ◌≡◌, refl, arith, ℤ, pos, Bool, true, not, ◌||◌, Option, none, some, List, [],
  ◌∷◌, Bool-cases, Option-cases, Result-cases, inl, inr, length, bit, ltb, Result, ok, bind_ok,
  or_fail_ok, if_ok,
}
use task_forge.Table.{Table, find, count}
use task_forge.Table.Laws.{count-put}
use task_forge.Table.Scan.Laws.{length-select-le}
use task_forge.Schema.{Db, Job, is_waiting, is_queued, find_queue}
use task_forge.Outbox.{
  insert_work_available, insert_work_available-eq-ok, new_event, has_pending_work_available,
}
use task_forge.Jobs.Schedule.{
  SchedulerStats, ScheduleDraw, promote_due_job, promote_found, promote_locked, promote_written,
  renotify_stranded_job, renotify_found, renotify_locked, renotify_written, unchanged, older_than,
}
use task_forge.Passes.{Scan, positive, for_each, attempt}
use task_forge.Passes.Scheduler.{
  promote_candidate, promote_due_jobs, due_jobs, renotify_candidate, renotify_stranded_queued,
  stranded_jobs, run_scheduler, no_stats, add_stats, is_due, available_first,
}

-- The rows of the outbox.
abbrev pub events : Db → ℕ
events db = count (λ _. true) db.outbox

insert_work_available-events :
    (id i : ℕ) (queue : Text) (generation now : ℕ) (db : Db) {db' : Db}
    → insert_work_available id i queue generation now db ≡ ok db'
    → events db' ≡ events db + 1
insert_work_available-events id i queue generation now db h =
    let (free, same) = insert_work_available-eq-ok id i queue generation now db h in
    ground
      (arith, same, free, count-put (λ _. true) id (new_event i queue generation now) db.outbox)

-- A transaction that reports a change has written one event, and one that reports none has written
-- none.
abbrev IsAnnounced : Db → Db × Bool → Type 0
IsAnnounced db v = events v.0 ≡ events db + bit v.1

unchanged-IsAnnounced : (db : Db) (v : Db × Bool) → unchanged db ≡ ok v → IsAnnounced db v
unchanged-IsAnnounced db v h = ground arith

promote_written-IsAnnounced :
    (db : Db) (i : ℕ) (queue : Text) (draw : ScheduleDraw) (o : Option (Table Job)) (v : Db × Bool)
    → promote_written db i queue draw o ≡ ok v
    → IsAnnounced db v
promote_written-IsAnnounced db i queue draw none v h = unchanged-IsAnnounced db v h
promote_written-IsAnnounced db i queue draw (some jobs) v h =
    or_fail_ok (find i jobs) _ _ h λ j _ h1.
      bind_ok
        (insert_work_available draw.event_id i queue j.notification_generation draw.tx_now
          (record db { jobs = jobs }))
        _ h1
        λ db' done last. ground (
          arith,
          last,
          insert_work_available-events draw.event_id i queue j.notification_generation draw.tx_now
              (record db { jobs = jobs }) done,
        )

renotify_written-IsAnnounced :
    (db : Db) (i : ℕ) (queue : Text) (g : ℕ) (draw : ScheduleDraw) (o : Option (Table Job))
    (v : Db × Bool)
    → renotify_written db i queue g draw o ≡ ok v
    → IsAnnounced db v
renotify_written-IsAnnounced db i queue g draw none v h = unchanged-IsAnnounced db v h
renotify_written-IsAnnounced db i queue g draw (some jobs) v h =
    bind_ok (insert_work_available draw.event_id i queue g draw.tx_now (record db { jobs = jobs }))
      _ h
      λ db' done last. ground (
        arith,
        last,
        insert_work_available-events draw.event_id i queue g draw.tx_now (record db { jobs = jobs })
            done,
      )

promote_due_job-IsAnnounced :
    (db : Db) (i : ℕ) (draw : ScheduleDraw) (v : Db × Bool)
    → promote_due_job db i draw ≡ ok v
    → IsAnnounced db v
unfolding promote_due_job promote_found promote_locked
promote_due_job-IsAnnounced db i draw v h = elim (Option-cases (find i db.jobs)) [
  | inl gone ↦ unchanged-IsAnnounced db v (rw gone at h)
  | inr (j, here) ↦ or_fail_ok (find_queue j.queue db.queues) _ _ (rw here at h) λ q _ h1.
      if_ok (not (is_waiting j.status)) _ _ h1 (λ _ e. unchanged-IsAnnounced db v e)
        λ _ h2.
          if_ok (ltb draw.server_now j.available_at) _ _ h2 (λ _ e. unchanged-IsAnnounced db v e)
            λ _ last. promote_written-IsAnnounced db i q.name draw _ v last
]

renotify_stranded_job-IsAnnounced :
    (db : Db) (i interval : ℕ) (draw : ScheduleDraw) (v : Db × Bool)
    → renotify_stranded_job db i interval draw ≡ ok v
    → IsAnnounced db v
unfolding renotify_stranded_job renotify_found renotify_locked
renotify_stranded_job-IsAnnounced db i interval draw v h = elim (Option-cases (find i db.jobs)) [
  | inl gone ↦ unchanged-IsAnnounced db v (rw gone at h)
  | inr (j, here) ↦ or_fail_ok (find_queue j.queue db.queues) _ _ (rw here at h) λ q _ h1.
      if_ok (not (is_queued j.status) || ltb j.notification_generation 1) _ _ h1
        (λ _ e. unchanged-IsAnnounced db v e)
        λ _ h2.
          if_ok (not (older_than interval draw.server_now j.last_notification_at)) _ _ h2
            (λ _ e. unchanged-IsAnnounced db v e)
            λ _ h3.
              if_ok (has_pending_work_available i j.notification_generation db) _ _ h3
                (λ _ e. unchanged-IsAnnounced db v e)
                λ _ last.
                  renotify_written-IsAnnounced db i q.name j.notification_generation draw _ v last
]

module _ {S : Type 0} {D : Type 0} (handle : ℕ → D → Db → S → Result (Db × S)) (w : Scan D) where
  pub attempt-ok :
      (id : ℕ) (db : Db) (s : S) (v : Db × S)
      → attempt handle w id db s ≡ ok v
      → handle id (w.draw id) db s ≡ ok v
  attempt-ok id db s v h = ground arith

  -- What every transaction adds to a measure of the database, it adds to a count.
  for_each-tally :
      (measure : Db → ℕ) (tally : S → ℕ)
      → ((id : ℕ) (d : D) (db : Db) (s : S) (v : Db × S)
          → handle id d db s ≡ ok v
          → measure v.0 + tally s ≡ measure db + tally v.1)
      → ((id : ℕ) (db : Db) → measure (w.others id db) ≡ measure db)
      → (ids : List ℕ) (db : Db) (s : S)
      → measure (for_each handle w ids db s).db + tally s
        ≡ measure db + tally (for_each handle w ids db s).stats
  unfolding for_each
  for_each-tally measure tally steps apart [] db s = refl
  for_each-tally measure tally steps apart (id ∷ ids) db s =
      elim (Result-cases (attempt handle w id (w.others id db) s)) [
        | inl (e, failed) ↦ rw (for_each, failed) (omega (arith, apart id db))
        | inr (v, done) ↦
            let wrote = attempt-ok id (w.others id db) s v done in
            let here = steps id (w.draw id) (w.others id db) s v wrote in
            let rest = for_each-tally measure tally steps apart ids v.0 v.1 in
            rw (for_each, done) (omega (arith, apart id db, here, rest))
      ]

  -- Where every transaction is counted once, so is every candidate up to an error.
  for_each-total :
      (total : S → ℕ)
      → ((id : ℕ) (d : D) (db : Db) (s : S) (v : Db × S)
          → handle id d db s ≡ ok v
          → total v.1 ≡ total s + 1)
      → (ids : List ℕ) (db : Db) (s : S)
      → (total (for_each handle w ids db s).stats ≤ total s + length ids)
        × ((for_each handle w ids db s).error ≡ none
            → total (for_each handle w ids db s).stats ≡ total s + length ids)
  unfolding for_each
  for_each-total total steps [] db s = (omega arith, λ _. omega arith)
  for_each-total total steps (id ∷ ids) db s =
      elim (Result-cases (attempt handle w id (w.others id db) s)) [
        | inl (e, failed) ↦ rw (for_each, failed) (omega arith, λ h. ground (arith, h))
        | inr (v, done) ↦
            let wrote = attempt-ok id (w.others id db) s v done in
            let here = steps id (w.draw id) (w.others id db) s v wrote in
            let rest = for_each-total total steps ids v.0 v.1 in
            rw (for_each, done) (omega (arith, here, rest.0), λ h. omega (arith, here, rest.1 h))
      ]

-- The candidates that a promotion scan examined.
abbrev pub examined : SchedulerStats → ℕ
examined s = s.promoted_jobs + s.skipped

-- The jobs that a pass announced.
abbrev pub announcements : SchedulerStats → ℕ
announcements s = s.promoted_jobs + s.renotified

promote_candidate-tally :
    (id : ℕ) (d : ScheduleDraw) (db : Db) (s : SchedulerStats) (v : Db × SchedulerStats)
    → promote_candidate id d db s ≡ ok v
    → (events v.0 + announcements s ≡ events db + announcements v.1)
      × (examined v.1 ≡ examined s + 1)
unfolding promote_candidate
promote_candidate-tally id d db s v h = bind_ok (promote_due_job db id d) _ h λ r done rest.
    let one = promote_due_job-IsAnnounced db id d r done in
    elim (Bool-cases r.1) [
      | inl hit ↦ ground (arith, one, rest, hit)
      | inr miss ↦ ground (arith, one, rest, miss)
    ]

renotify_candidate-tally :
    (after id : ℕ) (d : ScheduleDraw) (db : Db) (s : SchedulerStats) (v : Db × SchedulerStats)
    → renotify_candidate after id d db s ≡ ok v
    → events v.0 + announcements s ≡ events db + announcements v.1
unfolding renotify_candidate
renotify_candidate-tally after id d db s v h =
    bind_ok (renotify_stranded_job db id after d) _ h λ r done rest.
      let one = renotify_stranded_job-IsAnnounced db id after d r done in
      elim (Bool-cases r.1) [
        | inl hit ↦ ground (arith, one, rest, hit)
        | inr miss ↦ ground (arith, one, rest, miss)
      ]

-- Other processes write no event while the scan goes on.
pub record IsApart (w : Scan ScheduleDraw) : Type 0 where
  pub before : (db : Db) → events (w.before db) ≡ events db
  pub others : (id : ℕ) (db : Db) → events (w.others id db) ≡ events db

promote_due_jobs-announces :
    (w : Scan ScheduleDraw) (limit : ℤ) (db : Db)
    → IsApart w
    → events (promote_due_jobs w limit db).db
      ≡ events db + announcements (promote_due_jobs w limit db).stats
unfolding promote_due_jobs
promote_due_jobs-announces w limit db apart = elim (Option-cases (positive limit)) [
  | inl bad ↦ rw (promote_due_jobs, bad) (omega arith)
  | inr (n, good) ↦
      let all =
        for_each-tally promote_candidate w events announcements
          (λ id d db' s v h. (promote_candidate-tally id d db' s v h).0) apart.others
          (due_jobs n w.scanned_at (w.before db)) (w.before db) no_stats in
      rw (promote_due_jobs, good) (omega (arith, all, apart.before db))
]

renotify_stranded_queued-announces :
    (w : Scan ScheduleDraw) (after limit : ℤ) (db : Db)
    → IsApart w
    → events (renotify_stranded_queued w after limit db).db
      ≡ events db + announcements (renotify_stranded_queued w after limit db).stats
unfolding renotify_stranded_queued
renotify_stranded_queued-announces w after limit db apart = elim (Option-cases (positive after)) [
  | inl bad ↦ rw (renotify_stranded_queued, bad) (omega arith)
  | inr (a, good_after) ↦ elim (Option-cases (positive limit)) [
    | inl bad ↦ rw (renotify_stranded_queued, good_after, bad) (omega arith)
    | inr (n, good) ↦
        let all =
          for_each-tally (renotify_candidate a) w events announcements
            (λ id d db' s v h. renotify_candidate-tally a id d db' s v h) apart.others
            (stranded_jobs a n w.scanned_at (w.before db)) (w.before db) no_stats in
        rw (renotify_stranded_queued, good_after, good) (omega (arith, all, apart.before db))
  ]
]

-- A pass of the scheduler, whether it ends or fails, adds one event to the outbox for each job that it
-- reports as promoted or announced again, and no other, where other processes add none meanwhile.
pub scheduler_pass-announces :
    (first second : Scan ScheduleDraw) (batch_size after : ℤ) (db : Db)
    → IsApart first
    → IsApart second
    → events (run_scheduler first second batch_size after db).db
      ≡ events db
        + ((run_scheduler first second batch_size after db).stats.promoted_jobs
            + (run_scheduler first second batch_size after db).stats.renotified)
unfolding run_scheduler add_stats
scheduler_pass-announces first second batch_size after db apart apart' =
    let promoted = promote_due_jobs first batch_size db in
    let one = promote_due_jobs-announces first batch_size db apart in
    elim (Option-cases promoted.error) [
      | inl fine ↦
          let two = renotify_stranded_queued-announces second after batch_size promoted.db apart' in
          rw (run_scheduler, fine) (omega (arith, one, two))
      | inr (e, failed) ↦ rw (run_scheduler, failed) (omega (arith, one))
    ]

promote_due_jobs_under :
    (w : Scan ScheduleDraw) (limit : ℤ) (n : ℕ) (db : Db)
    → positive limit ≡ some n
    → promote_due_jobs w limit db
      ≡ for_each promote_candidate w (due_jobs n w.scanned_at (w.before db)) (w.before db) no_stats
unfolding promote_due_jobs
promote_due_jobs_under w limit n db good = rw (promote_due_jobs, good) refl

-- PromoteDueJobs under a limit n counts at most n candidates as promoted or skipped, none as announced
-- again, and every job that its scan found, where no transaction fails.
pub promote_due_jobs-accounts :
    (w : Scan ScheduleDraw) (n : ℕ) (db : Db)
    → 1 ≤ n
    → ((promote_due_jobs w (pos n) db).stats.promoted_jobs
          + (promote_due_jobs w (pos n) db).stats.skipped
        ≤ n)
      × ((promote_due_jobs w (pos n) db).error ≡ none
          → (promote_due_jobs w (pos n) db).stats.promoted_jobs
              + (promote_due_jobs w (pos n) db).stats.skipped
            ≡ length (due_jobs n w.scanned_at (w.before db)))
unfolding due_jobs
promote_due_jobs-accounts w n db some_limit =
    let good : positive (pos n) ≡ some n = ground arith in
    let all =
      for_each-total promote_candidate w examined
        (λ id d db' s v h. (promote_candidate-tally id d db' s v h).1)
        (due_jobs n w.scanned_at (w.before db)) (w.before db) no_stats in
    let few = length-select-le (is_due w.scanned_at) available_first n (w.before db).jobs in
    rw (promote_due_jobs_under w (pos n) n db good)
      (omega (arith, all.0, few), λ h. omega (arith, all.1 h))
