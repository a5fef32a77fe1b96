-- ===== src/Outbox/Delivery/Steps.antt =====
-- The publisher's writes to the outbox change how an event is delivered, and never what it
-- advertises.
use task_forge.Base.{Text, ℕ, refl, arith, Bool, Option-cases, inl, inr, Bool-cases}
use task_forge.Table.{find, put, update}
use task_forge.Table.Laws.{count-put}
use task_forge.Table.Scan.Laws.{count-touch, count-touch_all}
use task_forge.Schema.{Db}
use task_forge.Outbox.{advertises}
use task_forge.Outbox.Delivery.{
  due_events, claim_due, claim_row, mark_published, publish_row, record_failure, failure_row,
  release_claim, release_row, unpublished,
}
use task_forge.Transitions.{Transition, idle, delivered}

pub claim_due-Transition :
    (db : Db) (locked : ℕ → Bool) (limit timeout now : ℕ)
    → Transition db (claim_due db locked limit timeout now).0
unfolding claim_due
claim_due-Transition db locked limit timeout now = delivered _ λ i g.
    count-touch_all (advertises i g) (due_events db locked limit now) (claim_row now timeout)
      db.outbox λ e. refl

pub record_failure-Transition :
    (db : Db) (id : ℕ) (cause : Text) (retry_after now : ℕ)
    → Transition db (record_failure db id cause retry_after now)
unfolding record_failure
record_failure-Transition db id cause retry_after now = delivered _ λ i g.
    count-touch (advertises i g) id unpublished (failure_row now cause retry_after) db.outbox
      λ e. refl

pub release_claim-Transition : (db : Db) (id now : ℕ) → Transition db (release_claim db id now)
unfolding release_claim
release_claim-Transition db id now =
    delivered _
      λ i g. count-touch (advertises i g) id unpublished (release_row now) db.outbox λ e. refl

pub mark_published-Transition : (db : Db) (id now : ℕ) → Transition db (mark_published db id now).0
unfolding mark_published update
mark_published-Transition db id now = elim (Option-cases (find id db.outbox)) [
  | inl gone ↦ rw gone idle
  | inr (e, here) ↦ elim (Bool-cases (unpublished e)) [
    | inl hit ↦
        rw (here, hit)
          (delivered (put id (publish_row now e) db.outbox) λ i g.
            ground (arith, here, count-put (advertises i g) id (publish_row now e) db.outbox))
    | inr miss ↦ rw (here, miss) idle
  ]
]
