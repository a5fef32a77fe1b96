-- ===== src/Outbox/Publisher/Laws.antt =====
-- What a pass of the publisher counts, and which events it marks.
use task_forge.Base.{
  Text, ℕ, ◌+◌, ◌≤◌, ◌≡◌, refl, sym, ◌∙◌, arith, Bool, true, false, not, ◌&&◌, ◌==◌, List, [], ◌∷◌,
  Bool-cases, Option-cases, inl, inr, length, is_some, leb, ==_iff, subst,
}
use task_forge.Table.{find, put, update}
use task_forge.Table.Laws.{find-put, weight}
use task_forge.Table.Scan.Laws.{weight-touch, weight-touch_all, length-select-le}
use task_forge.Lifecycle.Retry.{Float64}
use task_forge.Schema.{Db, Event}
use task_forge.Outbox.Delivery.{
  claim_due, due_events, claim_row, due_first, unpublished, mark_published, publish_row,
  record_failure, failure_row,
}
use task_forge.Outbox.Backoff.{BackoffPolicy, backoff}
use task_forge.Outbox.Publisher.{
  Stats, World, note_failure, handle_event, handle_batch, run_once, attempts_of, no_stats,
}

abbrev pub is_published : Event → Bool
is_published e = e.published

-- The event's row says that it is published: one, or none.
abbrev pub marks : ℕ → Db → ℕ
marks id db = weight is_published (find id db.outbox)

abbrev pub settled : Stats → ℕ
settled s = s.published + s.failed + s.already_published

module _ (fl : Float64) where
  open fl use {Carrier}

  module _ (p : BackoffPolicy fl) (w : World Carrier) where
    handle_event-settled :
        (db : Db) (id attempts : ℕ) (s : Stats)
        → (settled (handle_event fl p w db id attempts s).1 ≡ settled s + 1)
          × ((handle_event fl p w db id attempts s).1.claimed ≡ s.claimed)
    unfolding handle_event
    handle_event-settled db id attempts s = ground arith

    handle_batch-settled :
        (attempts : ℕ → ℕ) (ids : List ℕ) (db : Db) (s : Stats)
        → (settled (handle_batch fl p w attempts ids db s).stats ≤ settled s + length ids)
          × ((handle_batch fl p w attempts ids db s).stats.claimed ≡ s.claimed)
          × ((handle_batch fl p w attempts ids db s).interrupted ≡ false
              → settled (handle_batch fl p w attempts ids db s).stats ≡ settled s + length ids)
    unfolding handle_batch
    handle_batch-settled attempts [] db s = (omega arith, refl, λ _. omega arith)
    handle_batch-settled attempts (id ∷ ids) db s =
        let r = handle_event fl p w (w.others id db) id (attempts id) s in
        let one = handle_event-settled (w.others id db) id (attempts id) s in
        let rest = handle_batch-settled attempts ids r.0 r.1 in
        elim (Bool-cases (w.stopped id)) [
          | inl over ↦ rw over (omega arith, refl, λ h. ground (arith, h))
          | inr on ↦
              rw on
                (omega (arith, one.0, rest.0), rest.1 ∙ one.1, λ h. omega (arith, one.0, rest.2 h))
        ]

    -- A pass whose context did not end settles every event that it claimed, each as published, as
    -- failed or as already published, and it claims at most a batch.
    pub run_once-settles :
        (locked : ℕ → Bool) (batch_size timeout now : ℕ) (db : Db)
        → (run_once fl p w locked batch_size timeout now db).interrupted ≡ false
        → (settled (run_once fl p w locked batch_size timeout now db).stats
            ≡ (run_once fl p w locked batch_size timeout now db).stats.claimed)
          × ((run_once fl p w locked batch_size timeout now db).stats.claimed ≤ batch_size)
    unfolding run_once claim_due due_events
    run_once-settles locked batch_size timeout now db on =
        let ids = due_events db locked batch_size now in
        let claimed = (claim_due db locked batch_size timeout now).0 in
        let start = record no_stats { claimed = length ids } in
        let all =
          handle_batch-settled (λ id. attempts_of (find id claimed.outbox)) ids claimed start in
        let few =
          length-select-le (λ i e. unpublished e && leb e.available_at now && not (locked i))
            due_first batch_size db.outbox in
        (omega (arith, all.2 on, all.1), omega (arith, all.1, few))

    -- The broker took the event.
    abbrev pub accepted : ℕ → Bool
    accepted id = is_some (w.body id) && not (is_some (w.publish id))

    mark_published-marks :
        (k id now : ℕ) (db : Db)
        → (k == id) ≡ false
        → marks k (mark_published db id now).0 ≡ marks k db
    unfolding mark_published update
    mark_published-marks k id now db other = elim (Option-cases (find id db.outbox)) [
      | inl gone ↦ rw gone refl
      | inr (e, here) ↦ elim (Bool-cases (unpublished e)) [
        | inl hit ↦
            let same : marks k (record db { outbox = put id (publish_row now e) db.outbox })
                ≡ marks k db =
              ground (arith, find-put id k (publish_row now e) db.outbox, other) in
            rw (here, hit) same
        | inr miss ↦ rw (here, miss) refl
      ]
    ]

    record_failure-marks :
        (k id : ℕ) (cause : Text) (retry_after now : ℕ) (db : Db)
        → marks k (record_failure db id cause retry_after now) ≡ marks k db
    unfolding record_failure
    record_failure-marks k id cause retry_after now db =
        weight-touch is_published id k unpublished (failure_row now cause retry_after) db.outbox
          λ e. refl

    note_failure-marks :
        (k id attempts : ℕ) (cause : Text) (db : Db)
        → marks k (note_failure fl p w db id attempts cause) ≡ marks k db
    unfolding note_failure
    note_failure-marks k id attempts cause db = ground (
      arith,
      record_failure-marks k id cause (backoff fl p attempts (w.jitter id)) (w.clock id) db,
    )

    handle_event-marks :
        (k id attempts : ℕ) (s : Stats) (db : Db)
        → accepted k ≡ false
        → marks k (handle_event fl p w db id attempts s).0 ≡ marks k db
    unfolding handle_event
    handle_event-marks k id attempts s db refused = elim (Option-cases (w.body id)) [
      | inl bad ↦ rw bad (note_failure-marks k id attempts (w.body_error id) db)
      | inr (body, good) ↦ elim (Option-cases (w.publish id)) [
        | inr (cause, failed) ↦ rw (good, failed) (note_failure-marks k id attempts cause db)
        | inl sent ↦
            let other : (k == id) ≡ false = elim (Bool-cases (k == id)) [
              | inr miss ↦ miss
              | inl hit ↦
                  let taken : accepted id ≡ true = rw (good, sent) refl in
                  let taken_k : accepted k ≡ true =
                    subst (λ x. accepted x ≡ true) (sym ((==_iff k id).0 hit)) taken in
                  ground (arith, taken_k, refused)
            ] in
            rw (good, sent)
              (elim (Bool-cases (w.can_mark id)) [
                | inl can ↦ rw can (mark_published-marks k id (w.clock id) db other)
                | inr cannot ↦ rw cannot refl
              ])
      ]
    ]

    handle_batch-marks :
        (k : ℕ) (attempts : ℕ → ℕ) (ids : List ℕ) (s : Stats) (db : Db)
        → ((id : ℕ) (db : Db) → marks k (w.others id db) ≡ marks k db)
        → accepted k ≡ false
        → marks k (handle_batch fl p w attempts ids db s).db ≡ marks k db
    unfolding handle_batch
    handle_batch-marks k attempts [] s db apart refused = refl
    handle_batch-marks k attempts (id ∷ ids) s db apart refused =
        let r = handle_event fl p w (w.others id db) id (attempts id) s in
        let one = handle_event-marks k id (attempts id) s (w.others id db) refused in
        let rest = handle_batch-marks k attempts ids r.1 r.0 apart refused in
        elim (Bool-cases (w.stopped id)) [
          | inl over ↦ rw over refl
          | inr on ↦ rw on (rest ∙ one ∙ apart id db)
        ]

    -- Where no other process marks an event during a pass, and the broker did not take it, the pass
    -- leaves its mark as it was: an event that was not published is still to be published.
    pub unaccepted_is_unmarked :
        (k : ℕ) (locked : ℕ → Bool) (batch_size timeout now : ℕ) (db : Db)
        → ((id : ℕ) (db : Db) → marks k (w.others id db) ≡ marks k db)
        → accepted k ≡ false
        → marks k (run_once fl p w locked batch_size timeout now db).db ≡ marks k db
    unfolding run_once claim_due
    unaccepted_is_unmarked k locked batch_size timeout now db apart refused =
        let ids = due_events db locked batch_size now in
        let claimed = (claim_due db locked batch_size timeout now).0 in
        let start = record no_stats { claimed = length ids } in
        handle_batch-marks k (λ id. attempts_of (find id claimed.outbox)) ids start claimed apart
          refused
        ∙ weight-touch_all is_published ids k (claim_row now timeout) db.outbox λ e. refl
