-- ===== src/Jobs/Replays.antt =====
-- A replay of a dead-lettered job: what it leaves alone, and a second replay.
use task_forge.Base.{
  Text, text_eq, text_eq_refl, ℕ, ◌≡◌, refl, sym, ◌∙◌, arith, subst, true, false, Option, none,
  some, List, ◌∷◌, ok, or_fail_ok, guard_ok, bind_ok, eqb_refl,
}
use task_forge.Table.{Table, find, put, any}
use task_forge.Table.Laws.{find-put, find_if_ok, find_if_hit, insert_ok}
use task_forge.Schema.{Db, Job, Queue, DlqReplay, find_queue, is_dead_lettered}
use task_forge.Outbox.{insert_work_available, insert_work_available-eq-ok}
use task_forge.Jobs.Submit.{get_by_id}
use task_forge.Jobs.Replay.{
  ReplayDraw, ReplayResult, replay, replay_keyed, replay_new, resolve_replay, replacement_job,
  find_replay, entry_of,
}
use task_forge.Jobs.Idempotency.{ok_inj, get_by_id-put}

-- What a replay's answer says of the database that it left.
abbrev Answered : Db → Text → ℕ → Text → Db × ReplayResult → Type 0
Answered db scope original key v =
    (r : DlqReplay) × (find_replay scope original key v.0.replays ≡ some r)
    × (r.replacement_job_id ≡ v.1.replacement_job_id)
    × (v.1.original_job_id ≡ original)
    × (get_by_id v.0 scope v.1.replacement_job_id ≡ some v.1.replacement)
    × (find original v.0.jobs ≡ find original db.jobs)
    × (v.0.queues ≡ db.queues)
    × (v.0.dlq ≡ db.dlq)

find_other :
    (i k : ℕ) (a j : Job) (t : Table Job)
    → find i t ≡ none
    → find k t ≡ some j
    → find k (put i a t) ≡ find k t
find_other i k a j t free found = ground (arith, find-put i k a t)

find_replay_head :
    (scope key : Text) (original : ℕ) (r : DlqReplay) (rs : List DlqReplay)
    → r.scope ≡ scope
    → r.original_job_id ≡ original
    → r.idempotency_key ≡ key
    → find_replay scope original key (r ∷ rs) ≡ some r
unfolding find_replay
find_replay_head scope key original r rs a b c =
    rw (a, b, c, text_eq_refl scope, eqb_refl original, text_eq_refl key) refl

replay_new-Answered :
    (db : Db) (scope : Text) (original : ℕ) (key : Text) (j : Job) (draw : ReplayDraw)
    (v : Db × ReplayResult)
    → find original db.jobs ≡ some j
    → replay_new db scope original key j draw ≡ ok v
    → Answered db scope original key v
unfolding replay_new replacement_job
replay_new-Answered db scope original key j draw v found h =
    let k = replacement_job scope original j draw.server_now in
    let r : DlqReplay = record {
      scope = scope;
      original_job_id = original;
      idempotency_key = key;
      replacement_job_id = draw.job_id;
    } in
    let a : ReplayResult = record {
      original_job_id = original;
      replacement_job_id = draw.job_id;
      replacement = k;
      replayed = false;
    } in
    insert_ok draw.job_id k db.jobs _ _ h λ free h1.
      bind_ok (insert_work_available draw.event_id draw.job_id k.queue 1 draw.tx_now _) _ h1
        λ db' done last.
          let (fresh, same) =
            insert_work_available-eq-ok draw.event_id draw.job_id k.queue 1 draw.tx_now _ done in
          let end = subst (λ (x : Db). ok (x, a) ≡ ok v) same last in
          subst (Answered db scope original key) (ok_inj end) (
            r,
            find_replay_head scope key original r db.replays refl refl refl,
            refl,
            refl,
            get_by_id-put _ scope draw.job_id k db.jobs refl refl,
            find_other draw.job_id original k j db.jobs free found,
            refl,
            refl,
          )

replay_keyed-Answered :
    (db : Db) (scope : Text) (original : ℕ) (key : Text) (j : Job) (draw : ReplayDraw)
    (o : Option DlqReplay) (v : Db × ReplayResult)
    → find original db.jobs ≡ some j
    → find_replay scope original key db.replays ≡ o
    → replay_keyed db scope original key j draw o ≡ ok v
    → Answered db scope original key v
unfolding replay_keyed resolve_replay
replay_keyed-Answered db scope original key j draw none v found fr h =
    replay_new-Answered db scope original key j draw v found h
replay_keyed-Answered db scope original key j draw (some r) v found fr h =
    or_fail_ok (get_by_id db scope r.replacement_job_id) _ _ h λ k fk last.
      subst (Answered db scope original key) (ok_inj last) (r, fr, refl, refl, fk, refl, refl, refl)

-- The checks of a replay, which its first call passed.
abbrev Allowed : Db → Text → ℕ → Type 0
Allowed db scope original =
    (j : Job) × (q : Queue) × (find original db.jobs ≡ some j)
    × (text_eq j.scope scope ≡ true)
    × (find_queue j.queue db.queues ≡ some q)
    × (is_dead_lettered j.status ≡ true)
    × (any (entry_of original) db.dlq ≡ true)

replay-Answered :
    (db : Db) (scope : Text) (original : ℕ) (key : Text) (draw : ReplayDraw) (v : Db × ReplayResult)
    → replay db scope original key draw ≡ ok v
    → Allowed db scope original × Answered db scope original key v
unfolding replay
replay-Answered db scope original key draw v h =
    find_if_ok original (λ (j : Job). text_eq j.scope scope) db.jobs _ _ h
      λ j fj es h1. or_fail_ok (find_queue j.queue db.queues) _ _ h1 λ q fq h2.
        guard_ok (is_dead_lettered j.status) _ _ h2 λ dead h3.
          guard_ok (any (entry_of original) db.dlq) _ _ h3 λ entry last. (
            (j, q, fj, es, fq, dead, entry),
            replay_keyed-Answered db scope original key j draw
                (find_replay scope original key db.replays) v fj refl last,
          )

-- A replay that succeeded was of a dead-lettered job with a dead-letter entry, leaves that job's
-- row as it was, and answers with the replacement's row as it is stored.
pub replay_keeps_original :
    (db : Db) (scope : Text) (original : ℕ) (key : Text) (draw : ReplayDraw) (v : Db × ReplayResult)
    → replay db scope original key draw ≡ ok v
    → ((j : Job) × (find original db.jobs ≡ some j)
        × (is_dead_lettered j.status ≡ true)
        × (find original v.0.jobs ≡ some j))
      × (any (entry_of original) db.dlq ≡ true)
      × (get_by_id v.0 scope v.1.replacement_job_id ≡ some v.1.replacement)
replay_keeps_original db scope original key draw v h =
    let ((j, q, fj, es, fq, dead, entry), (r, fr, id, back, job, same, queues, dlq)) =
      replay-Answered db scope original key draw v h in
    ((j, fj, dead, same ∙ fj), entry, job)

-- A replay that succeeded, made again under its key with whatever fresh ids and clock, returns the
-- same replacement, marked as replayed, and leaves the database as it is.
pub replay-replay :
    (db : Db) (scope : Text) (original : ℕ) (key : Text) (draw draw' : ReplayDraw)
    (v : Db × ReplayResult)
    → replay db scope original key draw ≡ ok v
    → replay v.0 scope original key draw'
      ≡ ok (
        v.0,
        record {
          original_job_id = v.1.original_job_id;
          replacement_job_id = v.1.replacement_job_id;
          replacement = v.1.replacement;
          replayed = true;
        },
      )
unfolding replay replay_keyed resolve_replay
replay-replay db scope original key draw draw' v h =
    let ((j, q, fj, es, fq, dead, entry), (r, fr, id, back, job, same, queues, dlq)) =
      replay-Answered db scope original key draw v h in
    let fq' : find_queue j.queue v.0.queues ≡ some q =
      subst (λ qs. find_queue j.queue qs ≡ some q) (sym queues) fq in
    let entry' : any (entry_of original) v.0.dlq ≡ true =
      subst (λ t. any (entry_of original) t ≡ true) (sym dlq) entry in
    rw
      (
        find_if_hit original (λ (k : Job). text_eq k.scope scope) v.0.jobs j (same ∙ fj) es,
        fq',
        dead,
        entry',
        fr,
        id,
        job,
        back,
      )
      refl
