-- ===== src/Outbox.antt =====
-- internal/outbox/store.go: the transactional outbox of `work.available` notifications.
pub mod Delivery
pub mod Backoff
pub mod Publisher
use task_forge.Base.{
  none, ◌≡◌, refl, true, guard_ok, arith, Text, ℕ, ◌==◌, Bool, false, not, ◌&&◌, none, leb, Result,
  ok, ◌>>=◌, ◌>>◌, guard, or_fail, invalid_argument, database_error,
}
use task_forge.Table.Laws.{insert_ok, insert_hit}
use task_forge.Table.{find, put, insert, any}
use task_forge.Schema.{Db, Event}

abbrev pub new_event : ℕ → Text → ℕ → ℕ → Event
new_event job_id queue generation now = record {
  job_id = job_id;
  queue = queue;
  notification_generation = generation;
  published = false;
  attempts = 0;
  available_at = now;
  claimed_at = none;
  published_at = none;
  last_error = none;
  created_at = now;
}

-- InsertWorkAvailableTx. `event_id` is the fresh UUID, `now` the transaction's time.
unfoldable pub insert_work_available : ℕ → ℕ → Text → ℕ → ℕ → Db → Result Db
insert_work_available event_id job_id queue generation now db = do
  guard (leb 1 generation) invalid_argument
  outbox ←
      or_fail (insert event_id (new_event job_id queue generation now) db.outbox) database_error
  ok (record db { outbox = outbox })

-- An event that advertises a job's generation, and one that is still to be published.
abbrev pub advertises : ℕ → ℕ → Event → Bool
advertises job_id generation e = e.job_id == job_id && e.notification_generation == generation

-- HasPendingWorkAvailableTx
unfoldable pub has_pending_work_available : ℕ → ℕ → Db → Bool
has_pending_work_available job_id generation db =
    any (λ e. advertises job_id generation e && not e.published) db.outbox

pub insert_work_available-eq-ok :
    (id i : ℕ) (queue : Text) (generation now : ℕ) (db : Db) {db' : Db}
    → insert_work_available id i queue generation now db ≡ ok db'
    → (find id db.outbox ≡ none)
      × (db' ≡ record db { outbox = put id (new_event i queue generation now) db.outbox })
unfolding insert_work_available
insert_work_available-eq-ok id i queue generation now db h =
    guard_ok (leb 1 generation) _ _ h λ _ rest.
      insert_ok id (new_event i queue generation now) db.outbox _ _ rest
        λ free done. (free, ground arith)

pub advertises_new :
    (i : ℕ) (queue : Text) (generation now : ℕ)
    → advertises i generation (new_event i queue generation now) ≡ true
advertises_new i queue generation now = ground arith

pub insert_work_available_hit :
    (id i : ℕ) (queue : Text) (generation now : ℕ) (db : Db)
    → find id db.outbox ≡ none
    → leb 1 generation ≡ true
    → insert_work_available id i queue generation now db
      ≡ ok (record db { outbox = put id (new_event i queue generation now) db.outbox })
unfolding insert_work_available
insert_work_available_hit id i queue generation now db free some_generation =
    rw (some_generation, insert_hit id (new_event i queue generation now) db.outbox free) refl
