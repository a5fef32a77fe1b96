-- ===== src/Outbox/Publisher.antt =====
-- internal/outbox/publisher.go: one pass over the events that are due. The broker, the marshalling
-- of an event and the clock are the record `World`.
pub mod Laws
pub mod Outcomes
use task_forge.Base.{
  Text, ℕ, ◌+◌, ◌*◌, not, ◌&&◌, ℤ, pos, negsuc, Bool, true, false, Option, none, some, List, [],
  ◌∷◌, ltb, ◌==◌, if◌then◌else◌, length,
}
use task_forge.Table.{find}
use task_forge.Lifecycle.Retry.{Float64}
use task_forge.Schema.{Db, Event, second}
use task_forge.Outbox.Delivery.{claim_due, mark_published, record_failure}
use task_forge.Outbox.Backoff.{BackoffPolicy, backoff}

pub record Stats : Type 0 where
  pub claimed : ℕ
  pub published : ℕ
  pub failed : ℕ
  pub already_published : ℕ

-- What happens around an event's id: each of these may fail.
pub record World (A : Type 0) : Type 0 where
  -- The context had ended before the event's turn.
  pub stopped : ℕ → Bool
  -- Event.Body; on an error its text.
  pub body : ℕ → Option Text
  pub body_error : ℕ → Text
  -- Broker.Publish; `some` is the error's text.
  pub publish : ℕ → Option Text
  -- MarkPublished and RecordFailure reach the database.
  pub can_mark : ℕ → Bool
  pub can_record : ℕ → Bool
  pub clock : ℕ → ℕ
  pub jitter : ℕ → Option A
  -- What other processes did to the database in the meantime.
  pub others : ℕ → Db → Db

pub record Pass : Type 0 where
  pub db : Db
  pub stats : Stats
  pub interrupted : Bool

-- The attempts of the claimed row.
abbrev pub attempts_of : Option Event → ℕ
attempts_of none = 0
attempts_of (some e) = e.attempts

abbrev pub add_failed : Stats → Stats
add_failed s = record s { failed = s.failed + 1 }

abbrev pub add_marked : Bool → Stats → Stats
add_marked true s = record s { published = s.published + 1 }
add_marked false s = record s { already_published = s.already_published + 1 }

abbrev pub no_stats : Stats
no_stats = record { claimed = 0; published = 0; failed = 0; already_published = 0 }

module _ (fl : Float64) where
  open fl use {Carrier}

  -- recordFailure; an error of the store is logged only.
  unfoldable pub note_failure : BackoffPolicy fl → World Carrier → Db → ℕ → ℕ → Text → Db
  note_failure p w db id attempts cause =
      if w.can_record id
      then record_failure db id cause (backoff fl p attempts (w.jitter id)) (w.clock id)
      else db

  abbrev pub mark_event : World Carrier → Db → ℕ → Stats → Db × Stats
  mark_event w db id s =
      if w.can_mark id
      then (let (db', marked) = mark_published db id (w.clock id) in (db', add_marked marked s))
      else (db, add_failed s)

  abbrev pub publish_body :
      BackoffPolicy fl → World Carrier → Db → ℕ → ℕ → Option Text → Stats → Db × Stats
  publish_body p w db id attempts none s = mark_event w db id s
  publish_body p w db id attempts (some cause) s =
      (note_failure p w db id attempts cause, add_failed s)

  abbrev pub publish_event :
      BackoffPolicy fl → World Carrier → Db → ℕ → ℕ → Option Text → Stats → Db × Stats
  publish_event p w db id attempts none s =
      (note_failure p w db id attempts (w.body_error id), add_failed s)
  publish_event p w db id attempts (some body) s = publish_body p w db id attempts (w.publish id) s

  -- One event of the batch, with the row that the claim returned.
  unfoldable pub handle_event : BackoffPolicy fl → World Carrier → Db → ℕ → ℕ → Stats → Db × Stats
  handle_event p w db id attempts s = publish_event p w db id attempts (w.body id) s

  unfoldable pub handle_batch :
      BackoffPolicy fl → World Carrier → (ℕ → ℕ) → List ℕ → Db → Stats → Pass
  handle_batch p w attempts [] db s = record { db = db; stats = s; interrupted = false }
  handle_batch p w attempts (id ∷ ids) db s =
      let (db', s') = handle_event p w (w.others id db) id (attempts id) s in
      let rest = handle_batch p w attempts ids db' s' in
      if w.stopped id then record { db = db; stats = s; interrupted = true } else rest

  -- RunOnce, of a claim that reached the database.
  unfoldable pub run_once : BackoffPolicy fl → World Carrier → (ℕ → Bool) → ℕ → ℕ → ℕ → Db → Pass
  run_once p w locked batch_size claim_timeout now db =
      let (db', ids) = claim_due db locked batch_size claim_timeout now in
      handle_batch p w (λ id. attempts_of (find id db'.outbox)) ids db'
        (record no_stats { claimed = length ids })

abbrev positive_or_count : ℕ → ℤ → ℕ
positive_or_count d (pos n) = if n == 0 then d else n
positive_or_count d (negsuc _) = d

-- NewPublisher's defaults for the batch size, the poll interval and the claim timeout.
unfoldable pub defaults : ℤ × ℤ × ℤ → ℕ × ℕ × ℕ
defaults (batch_size, poll_interval, claim_timeout) = (
  positive_or_count 50 batch_size,
  positive_or_count second poll_interval,
  positive_or_count (30 * second) claim_timeout,
)

-- drain makes another pass after a full batch without failures, of a context that goes on.
unfoldable pub drains_on : ℕ → Pass → Bool
drains_on batch_size r =
    not r.interrupted && not (ltb r.stats.claimed batch_size) && not (ltb 0 r.stats.failed)
