-- ===== src/Passes/Promotions.antt =====
-- PromoteDueJobs finds every job that is due, and promotes it.
use task_forge.Base.{
  Text, ℕ, ◌+◌, ◌≤◌, ◌≡◌, ◌⊎◌, inl, inr, refl, ◌∙◌, arith, ap, pos, Bool, true, false, not, ◌&&◌,
  ◌==◌, Option, none, some, List, [], ◌∷◌, Bool-cases, Option-cases, Result-cases, length, ltb, ok,
  bind_ok, or_fail_ok, if_ok, ==_iff, eqb_refl,
}
use task_forge.Table.{Table, find, put, update}
use task_forge.Table.Laws.{find-put, find-put_self, update-eq-some, update_hit}
use task_forge.Table.Scan.{has_id}
use task_forge.Table.Scan.Full.{has_id-select}
use task_forge.Schema.{Db, Job, Status, is_waiting, find_queue}
use task_forge.Outbox.{insert_work_available, insert_work_available-eq-ok}
use task_forge.Jobs.Schedule.{
  SchedulerStats, ScheduleDraw, promote_due_job, promote_found, promote_locked, promote_written,
  promote_row, unchanged,
}
use task_forge.Jobs.Schedule.Promotion.{IsDue}
use task_forge.Jobs.Cancel.{same_status}
use task_forge.Jobs.Cancellation.{same_status_refl}
use task_forge.Passes.{Scan, for_each, attempt}
use task_forge.Passes.Accounts.{attempt-ok}
use task_forge.Passes.Scheduler.{
  promote_candidate, promote_due_jobs, due_jobs, no_stats, is_due, available_first,
}

-- One promotion writes at most the row of its own job.
Touches : ℕ → Db → Db × Bool → Type 0
Touches i db v = (v.0.jobs ≡ db.jobs) ⊎ ((j : Job) × (v.0.jobs ≡ put i j db.jobs))

promote_written-Touches :
    (db : Db) (i : ℕ) (queue : Text) (draw : ScheduleDraw) (q : Job → Bool) (o : Option (Table Job))
    (v : Db × Bool)
    → update i q (promote_row draw.server_now) db.jobs ≡ o
    → promote_written db i queue draw o ≡ ok v
    → Touches i db v
unfolding Touches
promote_written-Touches db i queue draw q none v e h = inl (ground (arith, h))
promote_written-Touches db i queue draw q (some jobs) v e h =
    let (k, found, hit, same) = update-eq-some i q (promote_row draw.server_now) db.jobs e in
    or_fail_ok (find i jobs) _ _ h λ j _ h1.
      bind_ok
        (insert_work_available draw.event_id i queue j.notification_generation draw.tx_now
          (record db { jobs = jobs }))
        _ h1
        λ db' done last.
          let (_, wrote) =
            insert_work_available-eq-ok draw.event_id i queue j.notification_generation draw.tx_now
              (record db { jobs = jobs }) done in
          inr (promote_row draw.server_now k, ground (arith, last, wrote, same))

promote_due_job-Touches :
    (db : Db) (i : ℕ) (draw : ScheduleDraw) (v : Db × Bool)
    → promote_due_job db i draw ≡ ok v
    → Touches i db v
unfolding promote_due_job promote_found promote_locked Touches
promote_due_job-Touches db i draw v h = elim (Option-cases (find i db.jobs)) [
  | inl gone ↦ inl (ground (arith, rw gone at h))
  | inr (j, here) ↦ or_fail_ok (find_queue j.queue db.queues) _ _ (rw here at h) λ q _ h1.
      if_ok (not (is_waiting j.status)) _ _ h1 (λ _ e. inl (ground (arith, e)))
        λ _ h2.
          if_ok (ltb draw.server_now j.available_at) _ _ h2 (λ _ e. inl (ground (arith, e)))
            λ _ last. promote_written-Touches db i q.name draw _ _ v refl last
]

promote_due_job-other :
    (db : Db) (i k : ℕ) (draw : ScheduleDraw) (v : Db × Bool)
    → promote_due_job db i draw ≡ ok v
    → (i == k) ≡ false
    → find k v.0.jobs ≡ find k db.jobs
unfolding Touches
promote_due_job-other db i k draw v h other = elim (promote_due_job-Touches db i draw v h) [
  | inl same ↦ ap (find k) same
  | inr (j, wrote) ↦ rw wrote (find-put i k j db.jobs ∙ rw other refl)
]

-- A job that no longer waits is left alone.
promote_due_job-done :
    (db : Db) (i : ℕ) (draw : ScheduleDraw) (v : Db × Bool) (j : Job)
    → promote_due_job db i draw ≡ ok v
    → find i db.jobs ≡ some j
    → is_waiting j.status ≡ false
    → find i v.0.jobs ≡ some j
unfolding promote_due_job promote_found promote_locked
promote_due_job-done db i draw v j h found done =
    or_fail_ok (find_queue j.queue db.queues) _ _ (rw found at h)
      λ q _ h1. let last : unchanged db ≡ ok v = rw done at h1 in ground (arith, last, found)

promote_due_job-due :
    (db : Db) (i : ℕ) (draw : ScheduleDraw) (v : Db × Bool) (j : Job)
    → promote_due_job db i draw ≡ ok v
    → find i db.jobs ≡ some j
    → is_waiting j.status ≡ true
    → ltb draw.server_now j.available_at ≡ false
    → find i v.0.jobs ≡ some (promote_row draw.server_now j)
unfolding promote_due_job promote_found promote_locked
promote_due_job-due db i draw v j h found waits now =
    let j' = promote_row draw.server_now j in
    let written : update i
          (λ (k : Job).
            same_status k.status j.status && k.notification_generation == j.notification_generation)
          (promote_row draw.server_now) db.jobs
        ≡ some (put i j' db.jobs) =
      update_hit i _ (promote_row draw.server_now) db.jobs j found
        (rw (same_status_refl j.status, eqb_refl j.notification_generation) refl) in
    or_fail_ok (find_queue j.queue db.queues) _ _ (rw found at h) λ q _ h1.
      let h2 : promote_written db i q.name draw (some (put i j' db.jobs)) ≡ ok v =
        rw (waits, now, written) at h1 in
      or_fail_ok (find i (put i j' db.jobs)) _ _ h2 λ m fm h3.
        bind_ok
          (insert_work_available draw.event_id i q.name m.notification_generation draw.tx_now
            (record db { jobs = put i j' db.jobs }))
          _ h3
          λ db' done last.
            let (_, wrote) =
              insert_work_available-eq-ok draw.event_id i q.name m.notification_generation
                draw.tx_now (record db { jobs = put i j' db.jobs }) done in
            let same : v.0.jobs ≡ put i j' db.jobs = ground (arith, last, wrote) in
            ap (find i) same ∙ find-put_self i j' db.jobs

promote_candidate-ok :
    (id : ℕ) (draw : ScheduleDraw) (db : Db) (s : SchedulerStats) (v : Db × SchedulerStats)
    → promote_candidate id draw db s ≡ ok v
    → (r : Db × Bool) × (promote_due_job db id draw ≡ ok r) × (v.0 ≡ r.0)
unfolding promote_candidate
promote_candidate-ok id draw db s v h =
    bind_ok (promote_due_job db id draw) _ h λ r done last. (r, done, ground (arith, last))

waiting_of_due : (s : Status) → (s ≡ Status.pending) ⊎ (s ≡ Status.retry_wait) → is_waiting s ≡ true
waiting_of_due s h = ground arith

-- The candidates of one pass, while no other process writes the row of job `k`.
module _ (w : Scan ScheduleDraw) (k : ℕ) (j : Job)
    (apart : (id : ℕ) (db : Db) → find k (w.others id db).jobs ≡ find k db.jobs)
    (waits : is_waiting j.status ≡ true)
    (now : ltb (w.draw k).server_now j.available_at ≡ false) where
  abbrev promoted_row : Job
  promoted_row = promote_row (w.draw k).server_now j

  promote_candidate_self :
      (id : ℕ) (db : Db) (s : SchedulerStats) (v : Db × SchedulerStats)
      → id ≡ k
      → attempt promote_candidate w id (w.others id db) s ≡ ok v
      → (find k db.jobs ≡ some j → find k v.0.jobs ≡ some promoted_row)
        × (find k db.jobs ≡ some promoted_row → find k v.0.jobs ≡ some promoted_row)
  promote_candidate_self id db s v same h =
      let h' : attempt promote_candidate w k (w.others k db) s ≡ ok v = rw same at h in
      let (r, done, wrote) =
        promote_candidate-ok k (w.draw k) (w.others k db) s v
          (attempt-ok promote_candidate w k (w.others k db) s v h') in
      (
        λ here.
            ap (λ (x : Db). find k x.jobs) wrote
            ∙ promote_due_job-due (w.others k db) k (w.draw k) r j done (apart k db ∙ here) waits
                now,
        λ here.
            ap (λ (x : Db). find k x.jobs) wrote
            ∙ promote_due_job-done (w.others k db) k (w.draw k) r promoted_row done
                (apart k db ∙ here) refl,
      )

  promote_candidate-other :
      (id : ℕ) (db : Db) (s : SchedulerStats) (v : Db × SchedulerStats)
      → (id == k) ≡ false
      → attempt promote_candidate w id (w.others id db) s ≡ ok v
      → find k v.0.jobs ≡ find k db.jobs
  promote_candidate-other id db s v other h =
      let (r, done, wrote) =
        promote_candidate-ok id (w.draw id) (w.others id db) s v
          (attempt-ok promote_candidate w id (w.others id db) s v h) in
      ap (λ (x : Db). find k x.jobs) wrote
      ∙ promote_due_job-other (w.others id db) id k (w.draw id) r done other
      ∙ apart id db

  for_each-keeps :
      (ids : List ℕ) (db : Db) (s : SchedulerStats)
      → find k db.jobs ≡ some promoted_row
      → find k (for_each promote_candidate w ids db s).db.jobs ≡ some promoted_row
  unfolding for_each
  for_each-keeps [] db s here = here
  for_each-keeps (id ∷ ids) db s here =
      elim (Result-cases (attempt promote_candidate w id (w.others id db) s)) [
        | inl (e, failed) ↦ rw (for_each, failed) (apart id db ∙ here)
        | inr (v, done) ↦
            rw (for_each, done)
              (for_each-keeps ids v.0 v.1 (elim (Bool-cases (id == k)) [
                | inl same ↦ (promote_candidate_self id db s v ((==_iff id k).0 same) done).1 here
                | inr other ↦ promote_candidate-other id db s v other done ∙ here
              ]))
      ]

  for_each-promotes :
      (ids : List ℕ) (db : Db) (s : SchedulerStats)
      → find k db.jobs ≡ some j
      → has_id k ids ≡ true
      → (for_each promote_candidate w ids db s).error ≡ none
      → find k (for_each promote_candidate w ids db s).db.jobs ≡ some promoted_row
  unfolding for_each
  for_each-promotes [] db s here there fine = cc
  for_each-promotes (id ∷ ids) db s here there fine =
      elim (Result-cases (attempt promote_candidate w id (w.others id db) s)) [
        | inl (e, failed) ↦ cc (rw (for_each, failed) at fine)
        | inr (v, done) ↦
            rw (for_each, done)
              (elim (Bool-cases (id == k)) [
                | inl same ↦
                    for_each-keeps ids v.0 v.1
                      ((promote_candidate_self id db s v ((==_iff id k).0 same) done).0 here)
                | inr other ↦
                    for_each-promotes ids v.0 v.1
                      (promote_candidate-other id db s v other done ∙ here) (rw other at there)
                      (rw (for_each, done) at fine)
              ])
      ]

-- A job that is PENDING or RETRY_WAIT, and whose time had come when the scan was made, is promoted by
-- every pass that ends without an error and whose limit is at least the number of jobs, where the
-- clock of its transaction is not behind the scan's and no other process writes its row meanwhile: its
-- row is then QUEUED under the next generation, stamped with that clock, and otherwise as it was.
pub promote_due_jobs-promotes :
    (w : Scan ScheduleDraw) (limit k : ℕ) (db : Db) (j : Job)
    → find k (w.before db).jobs ≡ some j
    → IsDue w.scanned_at j
    → w.scanned_at ≤ (w.draw k).server_now
    → length (w.before db).jobs ≤ limit
    → ((id : ℕ) (db : Db) → find k (w.others id db).jobs ≡ find k db.jobs)
    → (promote_due_jobs w (pos limit) db).error ≡ none
    → find k (promote_due_jobs w (pos limit) db).db.jobs
      ≡ some (record j {
        status = Status.queued;
        updated_at = (w.draw k).server_now;
        notification_generation = j.notification_generation + 1;
        last_notification_at = some (w.draw k).server_now;
      })
unfolding promote_due_jobs due_jobs
promote_due_jobs-promotes w limit k db j found due clock few apart fine =
    let waits = waiting_of_due j.status due.0 in
    let ready : is_due w.scanned_at k j ≡ true = ground (arith, waits, due.1) in
    let now : ltb (w.draw k).server_now j.available_at ≡ false = ground (arith, clock, due.1) in
    let there =
      has_id-select (is_due w.scanned_at) available_first limit k (w.before db).jobs j found ready
        few in
    elim (Bool-cases (limit == 0)) [
      | inl zero ↦ cc (rw (promote_due_jobs, zero) at fine)
      | inr some_limit ↦
          rw (promote_due_jobs, some_limit)
            (for_each-promotes w k j apart waits now (due_jobs limit w.scanned_at (w.before db))
              (w.before db) no_stats found there (rw (promote_due_jobs, some_limit) at fine))
    ]
