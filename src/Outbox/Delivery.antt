-- ===== src/Outbox/Delivery.antt =====
-- internal/outbox/store.go: what the publisher asks of the outbox. An event is claimed by moving
-- its `available_at` past the claim's timeout.
pub mod Steps
use task_forge.Base.{
  Text, ℕ, ◌+◌, Bool, true, false, not, ◌&&◌, Option, none, some, List, ltb, leb, take,
  if◌then◌else◌,
}
use task_forge.Table.{Table, update, count}
use task_forge.Table.Scan.{keys, select, touch, touch_all}
use task_forge.Schema.{Db, Event}

abbrev pub unpublished : Event → Bool
unpublished e = not e.published

-- ORDER BY available_at, id
abbrev pub due_first : ℕ × Event → ℕ × Event → Bool
due_first (i, a) (k, b) =
    if ltb a.available_at b.available_at
    then true
    else if ltb b.available_at a.available_at
    then false
    else ltb i k

abbrev pub claim_row : ℕ → ℕ → Event → Event
claim_row now claim_timeout e = record e {
  attempts = e.attempts + 1;
  claimed_at = some now;
  available_at = now + claim_timeout;
}

-- The ids that a claim selects; `locked` are those whose rows another publisher holds.
unfoldable pub due_events : Db → (ℕ → Bool) → ℕ → ℕ → List ℕ
due_events db locked limit now = keys (
    select (λ i e. unpublished e && leb e.available_at now && not (locked i)) due_first limit
      db.outbox)

-- ClaimDue: the events' ids, and the outbox with their rows updated.
unfoldable pub claim_due : Db → (ℕ → Bool) → ℕ → ℕ → ℕ → Db × List ℕ
claim_due db locked limit claim_timeout now =
    let ids = due_events db locked limit now in
    (record db { outbox = touch_all ids (claim_row now claim_timeout) db.outbox }, ids)

abbrev pub publish_row : ℕ → Event → Event
publish_row now e = record e { published = true; published_at = some now; last_error = none }

abbrev written : Db → Option (Table Event) → Db × Bool
written db none = (db, false)
written db (some t) = (record db { outbox = t }, true)

-- MarkPublished: whether the row was pending.
unfoldable pub mark_published : Db → ℕ → ℕ → Db × Bool
mark_published db id now = written db (update id unpublished (publish_row now) db.outbox)

abbrev max_stored_error : ℕ
max_stored_error = 1000

abbrev pub failure_row : ℕ → Text → ℕ → Event → Event
failure_row now cause retry_after e = record e {
  last_error = some (take max_stored_error cause);
  available_at = now + retry_after;
}

-- RecordFailure
unfoldable pub record_failure : Db → ℕ → Text → ℕ → ℕ → Db
record_failure db id cause retry_after now = record db {
  outbox = touch id unpublished (failure_row now cause retry_after) db.outbox;
}

abbrev pub release_row : ℕ → Event → Event
release_row now e = record e { available_at = now }

-- ReleaseClaim
unfoldable pub release_claim : Db → ℕ → ℕ → Db
release_claim db id now = record db { outbox = touch id unpublished (release_row now) db.outbox }

-- PendingCount
unfoldable pub pending_count : Db → ℕ
pending_count db = count unpublished db.outbox
