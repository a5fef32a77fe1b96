-- ===== src/Jobs/Schedule/Steps.antt =====
-- A promotion and a repeated notification are each one transition.
use task_forge.Base.{
  Text, ℕ, ◌≡◌, refl, arith, subst, sym, Bool, true, false, ◌==◌, ◌&&◌, ◌||◌, not, Option, none,
  some, ltb, ok, or_fail_ok, bind_ok, if_ok, state-eq,
}
use task_forge.Table.{Table, find, put, update}
use task_forge.Table.Laws.{update-eq-some, find-put_self}
use task_forge.Schema.{Db, Job, Status, find_queue, is_queued, is_waiting}
use task_forge.Outbox.{
  insert_work_available, insert_work_available-eq-ok, advertises_new, has_pending_work_available,
}
use task_forge.Jobs.Cancel.{same_status}
use task_forge.Jobs.Steps.{eq_of_same_status}
use task_forge.Jobs.Schedule.{
  ScheduleDraw, promote_due_job, promote_found, promote_locked, promote_row, renotify_stranded_job,
  renotify_found, renotify_locked, stamp_row, unchanged, promote_written, renotify_written,
  older_than,
}
use task_forge.Transitions.{Transition, IsMove, allowed, is_held, idle, announced}

unchanged-Transition : (db : Db) (v : Db × Bool) → unchanged db ≡ ok v → Transition db v.0
unchanged-Transition db v h = subst (Transition db) (state-eq v h) idle

-- A waiting status can be left for the queue, and no lease stands behind it.
waiting_edge :
    (s : Status) → is_waiting s ≡ true → (allowed s Status.queued ≡ true) × (is_held s ≡ false)
waiting_edge s h = ground arith

queued_edge :
    (s : Status)
    → is_queued s ≡ true
    → (allowed s s ≡ true) × (is_held s ≡ false) × (s ≡ Status.queued)
queued_edge s h = ground arith

-- The event of a write of the job's row.
announce-Transition :
    (db : Db) (i id now : ℕ) (queue : Text) (j j' : Job) (db' : Db)
    → IsMove db i j j'
    → is_held j.status ≡ false
    → j'.status ≡ Status.queued
    → insert_work_available id i queue j'.notification_generation now
        (record db { jobs = put i j' db.jobs })
      ≡ ok db'
    → Transition db db'
announce-Transition db i id now queue j j' db' move free queued h =
    let (fresh, same) =
      insert_work_available-eq-ok id i queue j'.notification_generation now
        (record db { jobs = put i j' db.jobs }) h in
    subst (Transition db) (sym same) (
      announced i id j j' _ move free queued fresh
        (advertises_new i queue j'.notification_generation now))

promoted-Transition :
    (db : Db) (i : ℕ) (queue : Text) (draw : ScheduleDraw) (j : Job) (o : Option (Table Job))
    (v : Db × Bool)
    → is_waiting j.status ≡ true
    → update i
        (λ (k : Job).
          same_status k.status j.status && k.notification_generation == j.notification_generation)
        (promote_row draw.server_now)
        db.jobs
      ≡ o
    → promote_written db i queue draw o ≡ ok v
    → Transition db v.0
promoted-Transition db i queue draw j none v waits e h = unchanged-Transition db v h
promoted-Transition db i queue draw j (some jobs) v waits e h =
    let (k, found, hit, same) = update-eq-some i _ (promote_row draw.server_now) db.jobs e in
    let same_s : k.status ≡ j.status = eq_of_same_status k.status j.status (ground arith) in
    let (edge, free) = waiting_edge k.status (rw same_s waits) in
    let k' = promote_row draw.server_now k in
    or_fail_ok (find i jobs) _ _ h λ m fm h1.
      let here : m ≡ k' = ground (arith, rw same at fm, find-put_self i k' db.jobs) in
      bind_ok
        (insert_work_available draw.event_id i queue m.notification_generation draw.tx_now
          (record db { jobs = jobs }))
        _ h1
        λ db' done last. subst (Transition db) (state-eq v last) (
          announce-Transition db i draw.event_id draw.tx_now queue k k' db'
            (record {
              found = found;
              edge = edge;
              same_budget = refl;
              same_identity = (refl, refl);
            })
            free refl (rw (here, same) at done))

renotified-Transition :
    (db : Db) (i : ℕ) (queue : Text) (draw : ScheduleDraw) (j : Job) (o : Option (Table Job))
    (v : Db × Bool)
    → update i
        (λ (k : Job). is_queued k.status && k.notification_generation == j.notification_generation)
        (stamp_row draw.server_now)
        db.jobs
      ≡ o
    → renotify_written db i queue j.notification_generation draw o ≡ ok v
    → Transition db v.0
renotified-Transition db i queue draw j none v e h = unchanged-Transition db v h
renotified-Transition db i queue draw j (some jobs) v e h =
    let (k, found, hit, same) = update-eq-some i _ (stamp_row draw.server_now) db.jobs e in
    let (edge, free, queued) = queued_edge k.status (ground arith) in
    let generation : j.notification_generation ≡ k.notification_generation = ground arith in
    bind_ok
      (insert_work_available draw.event_id i queue j.notification_generation draw.tx_now
        (record db { jobs = jobs }))
      _ h
      λ db' done last. subst (Transition db) (state-eq v last) (
        announce-Transition db i draw.event_id draw.tx_now queue k (stamp_row draw.server_now k) db'
          (record { found = found; edge = edge; same_budget = refl; same_identity = (refl, refl) })
          free queued (rw (sym same, sym generation) done))

promote_locked-Transition :
    (db : Db) (i : ℕ) (queue : Text) (draw : ScheduleDraw) (j : Job) (v : Db × Bool)
    → promote_locked db i queue draw j ≡ ok v
    → Transition db v.0
unfolding promote_locked
promote_locked-Transition db i queue draw j v h =
    if_ok (not (is_waiting j.status)) _ _ h (λ _ e. unchanged-Transition db v e)
      λ waits h1.
        if_ok (ltb draw.server_now j.available_at) _ _ h1 (λ _ e. unchanged-Transition db v e)
          λ _ last. promoted-Transition db i queue draw j _ v (ground (arith, waits)) refl last

renotify_locked-Transition :
    (db : Db) (i : ℕ) (queue : Text) (interval : ℕ) (draw : ScheduleDraw) (j : Job) (v : Db × Bool)
    → renotify_locked db i queue interval draw j ≡ ok v
    → Transition db v.0
unfolding renotify_locked
renotify_locked-Transition db i queue interval draw j v h =
    if_ok (not (is_queued j.status) || ltb j.notification_generation 1) _ _ h
      (λ _ e. unchanged-Transition db v e)
      λ _ h1.
        if_ok (not (older_than interval draw.server_now j.last_notification_at)) _ _ h1
          (λ _ e. unchanged-Transition db v e)
          λ _ h2.
            if_ok (has_pending_work_available i j.notification_generation db) _ _ h2
              (λ _ e. unchanged-Transition db v e)
              λ _ last. renotified-Transition db i queue draw j _ v refl last

promote_found-Transition :
    (db : Db) (i : ℕ) (draw : ScheduleDraw) (o : Option Job) (v : Db × Bool)
    → promote_found db i draw o ≡ ok v
    → Transition db v.0
unfolding promote_found
promote_found-Transition db i draw none v h = unchanged-Transition db v h
promote_found-Transition db i draw (some j) v h =
    or_fail_ok (find_queue j.queue db.queues) _ _ h
      λ q _ last. promote_locked-Transition db i q.name draw j v last

renotify_found-Transition :
    (db : Db) (i interval : ℕ) (draw : ScheduleDraw) (o : Option Job) (v : Db × Bool)
    → renotify_found db i interval draw o ≡ ok v
    → Transition db v.0
unfolding renotify_found
renotify_found-Transition db i interval draw none v h = unchanged-Transition db v h
renotify_found-Transition db i interval draw (some j) v h =
    or_fail_ok (find_queue j.queue db.queues) _ _ h
      λ q _ last. renotify_locked-Transition db i q.name interval draw j v last

pub promote_due_job-Transition :
    (db : Db) (i : ℕ) (draw : ScheduleDraw) (v : Db × Bool)
    → promote_due_job db i draw ≡ ok v
    → Transition db v.0
unfolding promote_due_job
promote_due_job-Transition db i draw v h = promote_found-Transition db i draw (find i db.jobs) v h

pub renotify_stranded_job-Transition :
    (db : Db) (i interval : ℕ) (draw : ScheduleDraw) (v : Db × Bool)
    → renotify_stranded_job db i interval draw ≡ ok v
    → Transition db v.0
unfolding renotify_stranded_job
renotify_stranded_job-Transition db i interval draw v h =
    renotify_found-Transition db i interval draw (find i db.jobs) v h
