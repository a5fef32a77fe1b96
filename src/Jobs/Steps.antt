-- ===== src/Jobs/Steps.antt =====
-- Each operation on jobs that returns a value is one transition.
use task_forge.Base.{
  Text, text_eq, ℕ, ◌≡◌, refl, arith, subst, sym, ◌∙◌, true, false, ◌&&◌, Option, none, some, ◌∷◌,
  ok, or_fail_ok, guard_ok, bind_ok, if_ok, state-eq, is_some,
}
use task_forge.Table.{find, put, any}
use task_forge.Table.Laws.{insert_ok, update_ok, find_if_ok}
use task_forge.Schema.{
  Db, Job, Status, IdempotencyRecord, DlqReplay, find_queue, is_queued, is_dead_lettered,
}
use task_forge.Outbox.{insert_work_available, insert_work_available-eq-ok, advertises_new}
use task_forge.Jobs.Submit.{
  NormalizedRequest, SubmitDraw, SubmitResult, submit, submit_keyed, submit_new, new_job,
  notify_new, resolve_existing, find_record, get_by_id,
}
use task_forge.Jobs.Cancel.{
  CancelResult, request_cancel, cancel_by_status, cancel_now, cancel_target, cancel_row,
  same_status,
}
use task_forge.Jobs.Replay.{
  ReplayDraw, ReplayResult, replay, replay_keyed, replay_new, resolve_replay, replacement_job,
  find_replay, entry_of,
}
use task_forge.Transitions.{Transition, allowed, is_held, idle, moved, delayed, created}

unchanged-Transition {ℓ} :
    {A : Type ℓ} (db : Db) (a : A) (v : Db × A) → ok (db, a) ≡ ok v → Transition db v.0
unchanged-Transition db a v h = subst (Transition db) (state-eq v h) idle

new_job_status :
    (scope : Text) (r : NormalizedRequest) (draw : SubmitDraw)
    → is_queued (new_job scope r draw).status ≡ false
    → (new_job scope r draw).status ≡ Status.pending
unfolding new_job
new_job_status scope r draw h = ground arith

module _ (db : Db) (scope key fingerprint : Text) (r : NormalizedRequest) (draw : SubmitDraw) where
  -- The database with the rows of a new job, before its notification.
  abbrev written : Db
  written = record db {
    jobs = put draw.job_id (new_job scope r draw) db.jobs;
    idempotency =
        record {
          scope = scope;
          idempotency_key = key;
          request_fingerprint = fingerprint;
          job_id = draw.job_id;
        }
        ∷ db.idempotency;
  }

  notify_new-Transition :
      (db' : Db)
      → find draw.job_id db.jobs ≡ none
      → notify_new written (new_job scope r draw) draw ≡ ok db'
      → Transition db db'
  unfolding notify_new
  notify_new-Transition db' free h =
      let j = new_job scope r draw in
      if_ok (is_queued j.status) _ _ h
        (λ queued h1.
          let (fresh, same) =
            insert_work_available-eq-ok draw.event_id draw.job_id j.queue j.notification_generation
              draw.tx_now written h1 in
          subst (Transition db) (sym same) (
            created draw.job_id draw.event_id j _ _ _ free (ground arith) fresh
              (advertises_new draw.job_id j.queue j.notification_generation draw.tx_now)))
        λ waits h1.
          subst (Transition db) (ground arith)
            (delayed draw.job_id j written.idempotency free (new_job_status scope r draw waits))

  submit_new-Transition :
      (v : Db × SubmitResult)
      → submit_new db scope key fingerprint r draw ≡ ok v
      → Transition db v.0
  unfolding submit_new
  submit_new-Transition v h = insert_ok draw.job_id (new_job scope r draw) db.jobs _ _ h λ free h1.
      bind_ok (notify_new written (new_job scope r draw) draw) _ h1 λ db' done last.
        subst (Transition db) (state-eq v last) (notify_new-Transition db' free done)

  submit_keyed-Transition :
      (o : Option IdempotencyRecord) (v : Db × SubmitResult)
      → submit_keyed db scope key fingerprint r draw o ≡ ok v
      → Transition db v.0
  unfolding submit_keyed resolve_existing
  submit_keyed-Transition none v h = submit_new-Transition v h
  submit_keyed-Transition (some e) v h =
      guard_ok (text_eq e.request_fingerprint fingerprint) _ _ h λ _ h1.
        or_fail_ok (get_by_id db scope e.job_id) _ _ h1 λ j _ last. unchanged-Transition db _ v last

pub submit-Transition :
    (db : Db) (fingerprint : NormalizedRequest → Text) (scope key : Text) (r : NormalizedRequest)
    (draw : SubmitDraw) (v : Db × SubmitResult)
    → submit db fingerprint scope key r draw ≡ ok v
    → Transition db v.0
unfolding submit
submit-Transition db fingerprint scope key r draw v h =
    guard_ok (is_some (find_queue r.queue db.queues)) _ _ h λ _ last.
      submit_keyed-Transition db scope key (fingerprint r) r draw
        (find_record scope key db.idempotency) v last

-- Where a cancellation leads, beside the status it was found in.
cancel_target-IsMove :
    (s target : Status)
    → cancel_target s ≡ some target
    → (allowed s target ≡ true)
      × (is_held target ≡ is_held s)
      × (is_queued target ≡ false)
      × (is_dead_lettered target ≡ is_dead_lettered s)
cancel_target-IsMove s target h = ground arith

pub eq_of_same_status : (s t : Status) → same_status s t ≡ true → s ≡ t
eq_of_same_status s t h = ground arith

cancel_now-Transition :
    (db : Db) (scope : Text) (i now : ℕ) (j : Job) (v : Db × CancelResult)
    → cancel_now db scope i now j ≡ ok v
    → Transition db v.0
unfolding cancel_now
cancel_now-Transition db scope i now j v h =
    or_fail_ok (cancel_target j.status) _ _ h λ target et h1.
      update_ok i (λ (k : Job). text_eq k.scope scope && same_status k.status j.status)
        (cancel_row target now) db.jobs _ _ h1
        λ k fk ek last.
          let same : k.status ≡ j.status = eq_of_same_status k.status j.status (ground arith) in
          let (edge, keeps, leaves, entry) = cancel_target-IsMove k.status target (rw same et) in
          subst (Transition db) (state-eq v last) (
            moved i k (cancel_row target now k)
              (record { found = fk; edge = edge; same_budget = refl; same_identity = (refl, refl) })
              keeps leaves entry)

cancel_by_status-Transition :
    (s : Status) (db : Db) (scope : Text) (i now : ℕ) (j : Job) (v : Db × CancelResult)
    → cancel_by_status s db scope i now j ≡ ok v
    → Transition db v.0
unfolding cancel_by_status
cancel_by_status-Transition Status.cancel_requested db scope i now j v h =
    unchanged-Transition db _ v h
cancel_by_status-Transition Status.canceled db scope i now j v h = unchanged-Transition db _ v h
cancel_by_status-Transition Status.pending db scope i now j v h =
    cancel_now-Transition db scope i now j v h
cancel_by_status-Transition Status.queued db scope i now j v h =
    cancel_now-Transition db scope i now j v h
cancel_by_status-Transition Status.leased db scope i now j v h =
    cancel_now-Transition db scope i now j v h
cancel_by_status-Transition Status.running db scope i now j v h =
    cancel_now-Transition db scope i now j v h
cancel_by_status-Transition Status.retry_wait db scope i now j v h =
    cancel_now-Transition db scope i now j v h
cancel_by_status-Transition Status.succeeded db scope i now j v h =
    cancel_now-Transition db scope i now j v h
cancel_by_status-Transition Status.dead_lettered db scope i now j v h =
    cancel_now-Transition db scope i now j v h

pub request_cancel-Transition :
    (db : Db) (scope : Text) (i now : ℕ) (v : Db × CancelResult)
    → request_cancel db scope i now ≡ ok v
    → Transition db v.0
unfolding request_cancel
request_cancel-Transition db scope i now v h =
    find_if_ok i (λ (j : Job). text_eq j.scope scope) db.jobs _ _ h
      λ j _ _ h1.
        or_fail_ok (find_queue j.queue db.queues) _ _ h1
          λ _ _ last. cancel_by_status-Transition j.status db scope i now j v last

replay_new-Transition :
    (db : Db) (scope : Text) (original : ℕ) (key : Text) (j : Job) (draw : ReplayDraw)
    (v : Db × ReplayResult)
    → replay_new db scope original key j draw ≡ ok v
    → Transition db v.0
unfolding replay_new replacement_job
replay_new-Transition db scope original key j draw v h =
    let k = replacement_job scope original j draw.server_now in
    insert_ok draw.job_id k db.jobs _ _ h λ free h1.
      bind_ok (insert_work_available draw.event_id draw.job_id k.queue 1 draw.tx_now _) _ h1
        λ db' done last.
          let (fresh, same) =
            insert_work_available-eq-ok draw.event_id draw.job_id k.queue 1 draw.tx_now _ done in
          subst (Transition db) (sym same ∙ state-eq v last) (
            created draw.job_id draw.event_id k _ _ _ free refl fresh
              (advertises_new draw.job_id k.queue 1 draw.tx_now))

replay_keyed-Transition :
    (db : Db) (scope : Text) (original : ℕ) (key : Text) (j : Job) (draw : ReplayDraw)
    (o : Option DlqReplay) (v : Db × ReplayResult)
    → replay_keyed db scope original key j draw o ≡ ok v
    → Transition db v.0
unfolding replay_keyed resolve_replay
replay_keyed-Transition db scope original key j draw none v h =
    replay_new-Transition db scope original key j draw v h
replay_keyed-Transition db scope original key j draw (some r) v h =
    or_fail_ok (get_by_id db scope r.replacement_job_id) _ _ h
      λ _ _ last. unchanged-Transition db _ v last

pub replay-Transition :
    (db : Db) (scope : Text) (original : ℕ) (key : Text) (draw : ReplayDraw) (v : Db × ReplayResult)
    → replay db scope original key draw ≡ ok v
    → Transition db v.0
unfolding replay
replay-Transition db scope original key draw v h =
    find_if_ok original (λ (j : Job). text_eq j.scope scope) db.jobs _ _ h
      λ j _ _ h1. or_fail_ok (find_queue j.queue db.queues) _ _ h1 λ _ _ h2.
        guard_ok (is_dead_lettered j.status) _ _ h2 λ _ h3.
          guard_ok (any (entry_of original) db.dlq) _ _ h3 λ _ last.
            replay_keyed-Transition db scope original key j draw
              (find_replay scope original key db.replays) v last
