-- ===== src/Outbox/Publisher/Outcomes.antt =====
-- What a pass of the publisher makes of each event that it claimed.
use task_forge.Base.{
  Text, ℕ, ◌+◌, ◌≡◌, refl, ◌∙◌, arith, Bool, true, false, ◌==◌, List, [], ◌∷◌, Option, none, some,
  Bool-cases, Option-cases, inl, inr, length, ==_iff, ap, take, if◌then◌else◌,
}
use task_forge.Table.{Table, find, put, update}
use task_forge.Table.Laws.{find-put, find-put_self}
use task_forge.Table.Scan.{touch, has_id}
use task_forge.Lifecycle.Retry.{Float64}
use task_forge.Schema.{Db, Event}
use task_forge.Outbox.Delivery.{
  claim_due, unpublished, mark_published, publish_row, record_failure, failure_row,
}
use task_forge.Outbox.Backoff.{BackoffPolicy, backoff}
use task_forge.Outbox.Publisher.{
  Stats, World, note_failure, handle_event, handle_batch, run_once, attempts_of, no_stats,
}
use task_forge.Outbox.Publisher.Laws.{accepted}

-- The text of what went wrong.
abbrev cause_of : Text → Option Text → Option Text → Text
cause_of bad none _ = bad
cause_of bad (some _) none = []
cause_of bad (some _) (some failed) = failed

find-touch_miss :
    {A : Type 0} (k i : ℕ) (q : A → Bool) (f : A → A) (t : Table A)
    → (k == i) ≡ false
    → find i (touch k q f t) ≡ find i t
unfolding touch update
find-touch_miss k i q f t other = elim (Option-cases (find k t)) [
  | inl gone ↦ rw gone refl
  | inr (a, here) ↦ elim (Bool-cases (q a)) [
    | inl hit ↦
        let written : find i (put k (f a) t) ≡ find i t =
          ground (arith, find-put k i (f a) t, other) in
        rw (here, hit) written
    | inr miss ↦ rw (here, miss) refl
  ]
]

find-touch_self :
    {A : Type 0} (k : ℕ) (q : A → Bool) (f : A → A) (t : Table A) (a : A)
    → find k t ≡ some a
    → find k (touch k q f t) ≡ some (if q a then f a else a)
unfolding touch update
find-touch_self k q f t a here = elim (Bool-cases (q a)) [
  | inl hit ↦ rw (here, hit) (find-put_self k (f a) t)
  | inr miss ↦ rw (here, miss) here
]

module _ (fl : Float64) where
  open fl use {Carrier}

  module _ (p : BackoffPolicy fl) (w : World Carrier) where
    -- The row that the pass leaves of an event that it claimed: marked, if the broker took the event
    -- and the mark could be written; due again after the backoff, with the error's text, if the broker
    -- did not take it and the failure could be written; and otherwise as the claim left it.
    abbrev pub settled_row : ℕ → Event → Event
    settled_row k e =
        if accepted fl p w k
        then (if w.can_mark k
            then record e { published = true; published_at = some (w.clock k); last_error = none }
            else e)
        else if w.can_record k
        then record e {
          last_error = some (take 1000 (cause_of (w.body_error k) (w.body k) (w.publish k)));
          available_at = w.clock k + backoff fl p e.attempts (w.jitter k);
        }
        else e

    -- What one turn makes of the event's row, published or not.
    abbrev turned : ℕ → ℕ → Event → Event
    turned k attempts f =
        if accepted fl p w k
        then (if w.can_mark k then (if unpublished f then publish_row (w.clock k) f else f) else f)
        else if w.can_record k
        then (if unpublished f
            then failure_row (w.clock k) (cause_of (w.body_error k) (w.body k) (w.publish k))
                (backoff fl p attempts (w.jitter k)) f
            else f)
        else f

    turned-settled :
        (k : ℕ) (e : Event)
        → e.published ≡ false
        → (turned k e.attempts e ≡ settled_row k e)
          × (turned k e.attempts (settled_row k e) ≡ settled_row k e)
    turned-settled k e new = elim (Bool-cases (accepted fl p w k)) [
      | inl took ↦ elim (Bool-cases (w.can_mark k)) [
        | inl can ↦ (rw (took, can, new) refl, rw (took, can) refl)
        | inr cannot ↦ (rw (took, cannot) refl, rw (took, cannot) refl)
      ]
      | inr failed ↦ elim (Bool-cases (w.can_record k)) [
        | inl can ↦ (rw (failed, can, new) refl, rw (failed, can, new) refl)
        | inr cannot ↦ (rw (failed, cannot) refl, rw (failed, cannot) refl)
      ]
    ]

    note_failure-other :
        (k id attempts : ℕ) (cause : Text) (db : Db)
        → (id == k) ≡ false
        → find k (note_failure fl p w db id attempts cause).outbox ≡ find k db.outbox
    unfolding note_failure record_failure
    note_failure-other k id attempts cause db other = elim (Bool-cases (w.can_record id)) [
      | inr cannot ↦ rw cannot refl
      | inl can ↦ rw can (
          find-touch_miss id k unpublished
            (failure_row (w.clock id) cause (backoff fl p attempts (w.jitter id))) db.outbox other)
    ]

    mark_published-other :
        (k id now : ℕ) (db : Db)
        → (id == k) ≡ false
        → find k (mark_published db id now).0.outbox ≡ find k db.outbox
    unfolding mark_published update
    mark_published-other k id now db other = elim (Option-cases (find id db.outbox)) [
      | inl gone ↦ rw gone refl
      | inr (e, here) ↦ elim (Bool-cases (unpublished e)) [
        | inl hit ↦
            let same : find k (put id (publish_row now e) db.outbox) ≡ find k db.outbox =
              ground (arith, find-put id k (publish_row now e) db.outbox, other) in
            rw (here, hit) same
        | inr miss ↦ rw (here, miss) refl
      ]
    ]

    handle_event-other :
        (k id attempts : ℕ) (s : Stats) (db : Db)
        → (id == k) ≡ false
        → find k (handle_event fl p w db id attempts s).0.outbox ≡ find k db.outbox
    unfolding handle_event
    handle_event-other k id attempts s db other = elim (Option-cases (w.body id)) [
      | inl bad ↦ rw bad (note_failure-other k id attempts (w.body_error id) db other)
      | inr (body, good) ↦ elim (Option-cases (w.publish id)) [
        | inr (cause, failed) ↦ rw (good, failed) (note_failure-other k id attempts cause db other)
        | inl sent ↦
            rw (good, sent)
              (elim (Bool-cases (w.can_mark id)) [
                | inl can ↦ rw can (mark_published-other k id (w.clock id) db other)
                | inr cannot ↦ rw cannot refl
              ])
      ]
    ]

    note_failure_self :
        (k attempts : ℕ) (cause : Text) (db : Db) (f : Event)
        → find k db.outbox ≡ some f
        → find k (note_failure fl p w db k attempts cause).outbox
          ≡ some (
              if w.can_record k
              then (if unpublished f
                  then failure_row (w.clock k) cause (backoff fl p attempts (w.jitter k)) f
                  else f)
              else f)
    unfolding note_failure record_failure
    note_failure_self k attempts cause db f here = elim (Bool-cases (w.can_record k)) [
      | inr cannot ↦ rw cannot here
      | inl can ↦ rw can (
          find-touch_self k unpublished
            (failure_row (w.clock k) cause (backoff fl p attempts (w.jitter k))) db.outbox f here)
    ]

    mark_published_self :
        (k now : ℕ) (db : Db) (f : Event)
        → find k db.outbox ≡ some f
        → find k (mark_published db k now).0.outbox
          ≡ some (if unpublished f then publish_row now f else f)
    unfolding mark_published update
    mark_published_self k now db f here = elim (Bool-cases (unpublished f)) [
      | inl hit ↦ rw (here, hit) (find-put_self k (publish_row now f) db.outbox)
      | inr miss ↦ rw (here, miss) here
    ]

    handle_event_self :
        (k attempts : ℕ) (s : Stats) (db : Db) (f : Event)
        → find k db.outbox ≡ some f
        → find k (handle_event fl p w db k attempts s).0.outbox ≡ some (turned k attempts f)
    unfolding handle_event
    handle_event_self k attempts s db f here = elim (Option-cases (w.body k)) [
      | inl bad ↦ rw bad (note_failure_self k attempts (w.body_error k) db f here)
      | inr (body, good) ↦ elim (Option-cases (w.publish k)) [
        | inr (cause, failed) ↦ rw (good, failed) (note_failure_self k attempts cause db f here)
        | inl sent ↦
            rw (good, sent)
              (elim (Bool-cases (w.can_mark k)) [
                | inl can ↦ rw can (mark_published_self k (w.clock k) db f here)
                | inr cannot ↦ rw cannot here
              ])
      ]
    ]

    -- No other process writes the event's row during the pass, and the pass goes by the attempts of
    -- the row that was claimed.
    module _ (k : ℕ) (e : Event) (attempts : ℕ → ℕ)
        (apart : (id : ℕ) (db : Db) → find k (w.others id db).outbox ≡ find k db.outbox)
        (known : attempts k ≡ e.attempts) (new : e.published ≡ false) where
      handle_event-keeps :
          (id : ℕ) (s : Stats) (db : Db)
          → find k db.outbox ≡ some (settled_row k e)
          → find k (handle_event fl p w (w.others id db) id (attempts id) s).0.outbox
            ≡ some (settled_row k e)
      handle_event-keeps id s db here = elim (Bool-cases (id == k)) [
        | inr other ↦
            handle_event-other k id (attempts id) s (w.others id db) other ∙ apart id db ∙ here
        | inl same ↦ rw ((==_iff id k).0 same) (
            handle_event_self k (attempts k) s (w.others k db) (settled_row k e) (apart k db ∙ here)
            ∙ rw known (ap some (turned-settled k e new).1))
      ]

      handle_batch-keeps :
          (ids : List ℕ) (s : Stats) (db : Db)
          → find k db.outbox ≡ some (settled_row k e)
          → find k (handle_batch fl p w attempts ids db s).db.outbox ≡ some (settled_row k e)
      unfolding handle_batch
      handle_batch-keeps [] s db here = here
      handle_batch-keeps (id ∷ ids) s db here =
          let r = handle_event fl p w (w.others id db) id (attempts id) s in
          let rest = handle_batch-keeps ids r.1 r.0 (handle_event-keeps id s db here) in
          elim (Bool-cases (w.stopped id)) [ inl over ↦ rw over here | inr on ↦ rw on rest ]

      handle_batch-settles_row :
          (ids : List ℕ) (s : Stats) (db : Db)
          → find k db.outbox ≡ some e
          → has_id k ids ≡ true
          → (handle_batch fl p w attempts ids db s).interrupted ≡ false
          → find k (handle_batch fl p w attempts ids db s).db.outbox ≡ some (settled_row k e)
      unfolding handle_batch
      handle_batch-settles_row [] s db here there on = cc
      handle_batch-settles_row (id ∷ ids) s db here there on =
          let r = handle_event fl p w (w.others id db) id (attempts id) s in
          elim (Bool-cases (w.stopped id)) [
            | inl over ↦ cc (rw over at on)
            | inr going ↦
                let on' : (handle_batch fl p w attempts ids r.0 r.1).interrupted ≡ false =
                  rw going at on in
                rw going (elim (Bool-cases (id == k)) [
                  | inr other ↦
                      handle_batch-settles_row ids r.1 r.0
                        (handle_event-other k id (attempts id) s (w.others id db) other
                          ∙ apart id db
                          ∙ here)
                        (rw other at there) on'
                  | inl same ↦ handle_batch-keeps ids r.1 r.0 (
                      rw ((==_iff id k).0 same) (
                        handle_event_self k (attempts k) s (w.others k db) e (apart k db ∙ here)
                        ∙ rw known (ap some (turned-settled k e new).0)))
                ])
          ]

    -- Of an unpublished event that the pass claimed, whose row no other process writes during the
    -- pass, a pass that is not interrupted leaves the row as the claim wrote it and as the event fared:
    -- marked and stamped, if the broker took it and the mark could be written; with the error's text,
    -- cut to 1000 bytes, and due after the backoff of its attempts, if not and the failure could be
    -- written; and in both other cases just as the claim wrote it.
    pub run_once-settles_row :
        (k : ℕ) (e : Event) (locked : ℕ → Bool) (batch_size timeout now : ℕ) (db : Db)
        → ((id : ℕ) (db : Db) → find k (w.others id db).outbox ≡ find k db.outbox)
        → has_id k (claim_due db locked batch_size timeout now).1 ≡ true
        → find k (claim_due db locked batch_size timeout now).0.outbox ≡ some e
        → e.published ≡ false
        → (run_once fl p w locked batch_size timeout now db).interrupted ≡ false
        → find k (run_once fl p w locked batch_size timeout now db).db.outbox
          ≡ some (settled_row k e)
    unfolding run_once
    run_once-settles_row k e locked batch_size timeout now db apart there here new on =
        let claimed = claim_due db locked batch_size timeout now in
        handle_batch-settles_row k e (λ id. attempts_of (find id claimed.0.outbox)) apart
          (rw here refl) new claimed.1 (record no_stats { claimed = length claimed.1 }) claimed.0
          here there on
