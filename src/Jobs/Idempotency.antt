-- ===== src/Jobs/Idempotency.antt =====
-- A repeated request: the second call with one key, or on one job, is answered from the rows that
-- the first one left.
use task_forge.Base.{
  Text, text_eq, text_eq_refl, eq_of_text_eq, ℕ, ◌≡◌, refl, sym, arith, subst, true, false, Option,
  none, some, List, ◌∷◌, ok, err, or_fail_ok, guard_ok, bind_ok, if_ok, is_some,
  idempotency_conflict,
}
use task_forge.Table.{Table, put}
use task_forge.Table.Laws.{find-put_self, insert_ok, find_if_hit}
use task_forge.Schema.{Db, Job, Event, IdempotencyRecord, find_queue, is_queued}
use task_forge.Outbox.{insert_work_available-eq-ok, new_event}
use task_forge.Jobs.Submit.{
  NormalizedRequest, SubmitDraw, SubmitResult, submit, submit_keyed, submit_new, new_job,
  notify_new, resolve_existing, find_record, get_by_id,
}

pub ok_inj {ℓ} : {A : Type ℓ} {a b : A} → ok a ≡ ok b → a ≡ b
ok_inj h = cc

notify_new-eq-ok :
    (db : Db) (j : Job) (draw : SubmitDraw) (db' : Db)
    → notify_new db j draw ≡ ok db'
    → (t : Table Event) × (db' ≡ record db { outbox = t })
unfolding notify_new
notify_new-eq-ok db j draw db' h =
    if_ok (is_queued j.status) _ _ h
      (λ _ h1.
        let (_, same) =
          insert_work_available-eq-ok draw.event_id draw.job_id j.queue j.notification_generation
            draw.tx_now db h1 in
        (
          put draw.event_id (new_event draw.job_id j.queue j.notification_generation draw.tx_now)
              db.outbox,
          same,
        ))
      λ _ h1. (db.outbox, ground arith)

-- What a submission's answer says of the database that it left: the key's record, and its job.
abbrev Answered : Text → Text → Text → NormalizedRequest → Db × SubmitResult → Type 0
Answered scope key fingerprint r v =
    (e : IdempotencyRecord) × (find_record scope key v.0.idempotency ≡ some e)
    × (text_eq e.request_fingerprint fingerprint ≡ true)
    × (e.job_id ≡ v.1.job_id)
    × (get_by_id v.0 scope v.1.job_id ≡ some v.1.job)
    × (is_some (find_queue r.queue v.0.queues) ≡ true)

find_record_head :
    (scope key : Text) (e : IdempotencyRecord) (es : List IdempotencyRecord)
    → e.scope ≡ scope
    → e.idempotency_key ≡ key
    → find_record scope key (e ∷ es) ≡ some e
unfolding find_record
find_record_head scope key e es a b = rw (a, b, text_eq_refl scope, text_eq_refl key) refl

pub get_by_id-put :
    (db : Db) (scope : Text) (i : ℕ) (j : Job) (t : Table Job)
    → db.jobs ≡ put i j t
    → j.scope ≡ scope
    → get_by_id db scope i ≡ some j
unfolding get_by_id
get_by_id-put db scope i j t e same =
    find_if_hit i (λ (k : Job). text_eq k.scope scope) db.jobs j (rw e (find-put_self i j t))
      (rw (same, text_eq_refl scope) refl)

submit_new-Answered :
    (db : Db) (scope key fingerprint : Text) (r : NormalizedRequest) (draw : SubmitDraw)
    (v : Db × SubmitResult)
    → is_some (find_queue r.queue db.queues) ≡ true
    → submit_new db scope key fingerprint r draw ≡ ok v
    → Answered scope key fingerprint r v
unfolding submit_new new_job
submit_new-Answered db scope key fingerprint r draw v known h =
    let j = new_job scope r draw in
    let e : IdempotencyRecord = record {
      scope = scope;
      idempotency_key = key;
      request_fingerprint = fingerprint;
      job_id = draw.job_id;
    } in
    insert_ok draw.job_id j db.jobs _ _ h λ free h1.
      bind_ok (notify_new _ j draw) _ h1 λ db' done last.
        let (t, same) = notify_new-eq-ok _ j draw db' done in
        let a : SubmitResult = record { job_id = draw.job_id; job = j; replayed = false } in
        let end = subst (λ (x : Db). ok (x, a) ≡ ok v) same last in
        subst (Answered scope key fingerprint r) (ok_inj end) (
          e,
          find_record_head scope key e db.idempotency refl refl,
          text_eq_refl fingerprint,
          refl,
          get_by_id-put _ scope draw.job_id j db.jobs refl refl,
          known,
        )

submit_keyed-Answered :
    (db : Db) (scope key fingerprint : Text) (r : NormalizedRequest) (draw : SubmitDraw)
    (o : Option IdempotencyRecord) (v : Db × SubmitResult)
    → is_some (find_queue r.queue db.queues) ≡ true
    → find_record scope key db.idempotency ≡ o
    → submit_keyed db scope key fingerprint r draw o ≡ ok v
    → Answered scope key fingerprint r v
unfolding submit_keyed resolve_existing
submit_keyed-Answered db scope key fingerprint r draw none v known fe h =
    submit_new-Answered db scope key fingerprint r draw v known h
submit_keyed-Answered db scope key fingerprint r draw (some e) v known fe h =
    guard_ok (text_eq e.request_fingerprint fingerprint) _ _ h λ same h1.
      or_fail_ok (get_by_id db scope e.job_id) _ _ h1 λ j fj last.
        subst (Answered scope key fingerprint r) (ok_inj last) (e, fe, same, refl, fj, known)

submit-Answered :
    (db : Db) (fingerprint : NormalizedRequest → Text) (scope key : Text) (r : NormalizedRequest)
    (draw : SubmitDraw) (v : Db × SubmitResult)
    → submit db fingerprint scope key r draw ≡ ok v
    → Answered scope key (fingerprint r) r v
unfolding submit
submit-Answered db fingerprint scope key r draw v h =
    guard_ok (is_some (find_queue r.queue db.queues)) _ _ h λ known last.
      submit_keyed-Answered db scope key (fingerprint r) r draw
        (find_record scope key db.idempotency) v known refl last

-- A submission that succeeded, submitted again under its key with whatever fresh ids and clock,
-- returns the same job id and row, marked as replayed, and leaves the database as it is.
pub submit-submit :
    (db : Db) (fingerprint : NormalizedRequest → Text) (scope key : Text) (r : NormalizedRequest)
    (draw draw' : SubmitDraw) (v : Db × SubmitResult)
    → submit db fingerprint scope key r draw ≡ ok v
    → submit v.0 fingerprint scope key r draw'
      ≡ ok (v.0, record { job_id = v.1.job_id; job = v.1.job; replayed = true })
unfolding submit submit_keyed resolve_existing
submit-submit db fingerprint scope key r draw draw' v h =
    let (e, fe, same, id, job, known) = submit-Answered db fingerprint scope key r draw v h in
    rw (known, fe, same, id, job) refl

-- After a submission that succeeded, a request of the same queue with another fingerprint under
-- its key is refused with the idempotency conflict.
pub submit-conflict :
    (db : Db) (fingerprint : NormalizedRequest → Text) (scope key : Text) (r r' : NormalizedRequest)
    (draw draw' : SubmitDraw) (v : Db × SubmitResult)
    → submit db fingerprint scope key r draw ≡ ok v
    → r'.queue ≡ r.queue
    → text_eq (fingerprint r) (fingerprint r') ≡ false
    → submit v.0 fingerprint scope key r' draw' ≡ err idempotency_conflict
unfolding submit submit_keyed resolve_existing
submit-conflict db fingerprint scope key r r' draw draw' v h queue other =
    let (e, fe, same, id, job, known) = submit-Answered db fingerprint scope key r draw v h in
    let held : e.request_fingerprint ≡ fingerprint r =
      eq_of_text_eq e.request_fingerprint (fingerprint r) same in
    let known' : is_some (find_queue r'.queue v.0.queues) ≡ true =
      subst (λ n. is_some (find_queue n v.0.queues) ≡ true) (sym queue) known in
    rw (known', fe, held, other) refl
