-- ===== src/Workers/Claim/Steps.antt =====
-- A claim that returns a value is one transition: a grant within the budget and the capacity, or
-- nothing.
use task_forge.Base.{
  ◌+◌, Text, text_eq, eq_of_text_eq, ℕ, ◌≡◌, ◌<◌, refl, sym, ◌∙◌, arith, subst, Bool, true, false,
  ◌==◌, ◌&&◌, not, Option, none, some, [], ◌∷◌, leb, if◌then◌else◌, ok, or_fail_ok, guard_ok,
  refuse_ok, if_ok, state-eq, inl, inr, Bool-cases, ◌⊎◌,
}
use task_forge.Table.{Table, find, any, count}
use task_forge.Table.Laws.{IsKeyed, update_ok, insert_ok, find_if_ok}
use task_forge.Schema.{Db, Job, Session, Queue, find_queue, is_queued, session_healthy}
use task_forge.Workers.{ClaimRequest, ClaimResult, Assignment}
use task_forge.Workers.Authority.{names_session}
use task_forge.Workers.Claim.{
  claim, claim_tx, claim_known, claim_again, claim_new, take_job, grant, first_job, better,
  comes_before, eligible, attempts_of, active_in_queue, active_for_job, active_for_worker,
  max_number, new_attempt, new_lease, lease_job, ClaimDraw, lookup_claim, due, valid_claim,
  consumed_by, disagrees,
}
use task_forge.Transitions.{Transition, idle, granted}

-- Where the choice over a row and the rest of the table comes from.
chosen-cases :
    (b : Bool) (c d : ℕ × Job) (rest : Option (ℕ × Job))
    → (if b then better c rest else rest) ≡ some d
    → ((c ≡ d) × (b ≡ true)) ⊎ (rest ≡ some d)
chosen-cases true c d none h = inl (ground arith, refl)
chosen-cases true c d (some x) h = elim (Bool-cases (comes_before x c)) [
  | inl first ↦ inr (ground (arith, first))
  | inr last ↦ inl (ground (arith, last), refl)
]
chosen-cases false c d rest h = inr h

find_head : (k : ℕ) (b : Job) (t : Table Job) → find k ((k, b) ∷ t) ≡ some b
unfolding find
find_head k b t = ground arith

find_tail :
    (i k : ℕ) (j b : Job) (t : Table Job)
    → find i t ≡ some j
    → find k t ≡ none
    → find i ((k, b) ∷ t) ≡ some j
unfolding find
find_tail i k j b t h free = ground arith

-- The chosen row is the row behind its key, and meets the condition.
pub first_job-eq-some :
    (p : ℕ → Job → Bool) (t : Table Job) (i : ℕ) (j : Job)
    → first_job p t ≡ some (i, j)
    → IsKeyed t
    → (find i t ≡ some j) × (p i j ≡ true)
unfolding first_job
first_job-eq-some p [] i j e h = cc
first_job-eq-some p ((k, b) ∷ t) i j e h =
    elim (chosen-cases (p k b) (k, b) (i, j) (first_job p t) e) [
      | inl (same, hit) ↦
          subst (λ c. (find c.0 ((k, b) ∷ t) ≡ some c.1) × (p c.0 c.1 ≡ true)) same
            (find_head k b t, hit)
      | inr later ↦
          let (found, hit) = first_job-eq-some p t i j later h.1 in
          (find_tail i k j b t found h.0, hit)
    ]

grant-Transition :
    (db : Db) (scope : Text) (r : ClaimRequest) (draw : ClaimDraw) (duration i : ℕ) (j : Job)
    (q : Queue) (v : Db × ClaimResult)
    → find i db.jobs ≡ some j
    → is_queued j.status ≡ true
    → j.queue ≡ r.queue
    → find_queue r.queue db.queues ≡ some q
    → count (active_in_queue r.queue) db.leases < q.max_concurrency
    → count (attempts_of i) db.attempts < j.max_attempts
    → grant db scope r draw duration i j ≡ ok v
    → Transition db v.0
unfolding grant
grant-Transition db scope r draw duration i j q v found queued same fq room budget h =
    let number = max_number i db.attempts + 1 in
    let a = new_attempt scope r i j number in
    let l = new_lease scope r i j draw duration in
    insert_ok draw.attempt_id a db.attempts _ _ h λ fresh_attempt h1.
      refuse_ok (any (active_for_job i) db.leases) _ _ h1 λ _ h2.
        refuse_ok (any (consumed_by r.claim_request_id) db.leases) _ _ h2 λ _ h3.
          insert_ok draw.lease_id l db.leases _ _ h3 λ fresh_lease h4.
            update_ok i (λ (k : Job). text_eq k.scope scope && is_queued k.status)
              (lease_job draw.second_now) db.jobs _ _ h4
              λ k fk ek last.
                let e : some j ≡ some k = sym found ∙ fk in
                subst (Transition db) (state-eq v last) (
                  granted i draw.attempt_id draw.lease_id k (lease_job draw.second_now k) a l q
                    (record {
                      move = record {
                        found = fk;
                        edge = ground arith;
                        same_budget = refl;
                        same_identity = (refl, refl);
                      };
                      was_queued = ground arith;
                      leased = refl;
                      new_attempt = fresh_attempt;
                      new_lease = fresh_lease;
                      attempt_job = refl;
                      lease_job = refl;
                      executing = refl;
                      active = refl;
                      untimed = refl;
                      found_queue = rw same fq;
                      has_capacity = rw same room;
                      has_budget = ground (arith, budget, e);
                    }))

-- What the claim's SELECT asks of its row.
eligible_means :
    (db : Db) (scope : Text) (r : ClaimRequest) (s : Session) (now i : ℕ) (j : Job)
    → eligible db scope r s now i j ≡ true
    → (is_queued j.status ≡ true)
      × (text_eq j.queue r.queue ≡ true)
      × (count (attempts_of i) db.attempts < j.max_attempts)
unfolding eligible
eligible_means db scope r s now i j h = ground arith

nothing-Transition :
    (db : Db) (c : ClaimResult) (v : Db × ClaimResult) → ok (db, c) ≡ ok v → Transition db v.0
nothing-Transition db c v h = subst (Transition db) (state-eq v h) idle

take_job-Transition :
    (db : Db) (scope : Text) (r : ClaimRequest) (draw : ClaimDraw) (duration : ℕ) (q : Queue)
    (p : ℕ → Job → Bool) (o : Option (ℕ × Job)) (v : Db × ClaimResult)
    → ((i : ℕ) (j : Job)
        → o ≡ some (i, j)
        → (find i db.jobs ≡ some j)
          × (is_queued j.status ≡ true)
          × (j.queue ≡ r.queue)
          × (count (attempts_of i) db.attempts < j.max_attempts))
    → find_queue r.queue db.queues ≡ some q
    → count (active_in_queue r.queue) db.leases < q.max_concurrency
    → take_job db scope r draw duration o ≡ ok v
    → Transition db v.0
unfolding take_job
take_job-Transition db scope r draw duration q p none v at fq room h =
    if_ok (any (due scope r.queue draw.second_now) db.jobs) _ _ h
      (λ _ e. nothing-Transition db _ v e) λ _ e. nothing-Transition db _ v e
take_job-Transition db scope r draw duration q p (some (i, j)) v at fq room h =
    let (found, queued, same, budget) = at i j refl in
    grant-Transition db scope r draw duration i j q v found queued same fq room budget h

claim_new-Transition :
    (db : Db) (scope : Text) (r : ClaimRequest) (locked : ℕ → Bool) (draw : ClaimDraw)
    (duration : ℕ) (q : Queue) (s : Session) (v : Db × ClaimResult)
    → IsKeyed db.jobs
    → find_queue r.queue db.queues ≡ some q
    → claim_new db scope r locked draw duration q s ≡ ok v
    → Transition db v.0
unfolding claim_new
claim_new-Transition db scope r locked draw duration q s v keyed fq h =
    let p : ℕ → Job → Bool = λ i j. eligible db scope r s draw.first_now i j && not (locked i) in
    if_ok (not (text_eq s.worker_group q.worker_group)) _ _ h (λ _ e. nothing-Transition db _ v e)
      λ _ h1.
        if_ok (leb q.max_concurrency (count (active_in_queue r.queue) db.leases)) _ _ h1
          (λ _ e. nothing-Transition db _ v e)
          λ room h2.
            if_ok (leb s.concurrency_limit (count (active_for_worker r.worker_id) db.leases)) _ _ h2
              (λ _ e. nothing-Transition db _ v e)
              λ _ last.
                take_job-Transition db scope r draw duration q p (first_job p db.jobs) v
                  (λ i j e.
                    let (found, hit) = first_job-eq-some p db.jobs i j e keyed in
                    let (queued, same, budget) =
                      eligible_means db scope r s draw.first_now i j (ground (arith, hit)) in
                    (found, queued, eq_of_text_eq j.queue r.queue same, budget))
                  fq (ground (arith, room)) last

claim_again-Transition :
    (db : Db) (scope : Text) (r : ClaimRequest) (now : ℕ) (e : Assignment) (v : Db × ClaimResult)
    → claim_again db scope r now e ≡ ok v
    → Transition db v.0
unfolding claim_again
claim_again-Transition db scope r now e v h = refuse_ok (disagrees scope r (some e)) _ _ h λ _ h1.
    if_ok (e.worker_id == r.worker_id && e.session_id == r.session_id) _ _ h1
      (λ _ e. nothing-Transition db _ v e) λ _ e. nothing-Transition db _ v e

claim_known-Transition :
    (db : Db) (scope : Text) (r : ClaimRequest) (locked : ℕ → Bool) (draw : ClaimDraw)
    (duration : ℕ) (q : Queue) (s : Session) (o : Option Assignment) (v : Db × ClaimResult)
    → IsKeyed db.jobs
    → find_queue r.queue db.queues ≡ some q
    → claim_known db scope r locked draw duration q s o ≡ ok v
    → Transition db v.0
unfolding claim_known
claim_known-Transition db scope r locked draw duration q s none v keyed fq h =
    claim_new-Transition db scope r locked draw duration q s v keyed fq h
claim_known-Transition db scope r locked draw duration q s (some e) v keyed fq h =
    claim_again-Transition db scope r draw.first_now e v h

claim_tx-Transition :
    (db : Db) (scope : Text) (r : ClaimRequest) (locked : ℕ → Bool) (draw : ClaimDraw)
    (duration : ℕ) (v : Db × ClaimResult)
    → IsKeyed db.jobs
    → claim_tx db scope r locked draw duration ≡ ok v
    → Transition db v.0
unfolding claim_tx
claim_tx-Transition db scope r locked draw duration v keyed h =
    or_fail_ok (find_queue r.queue db.queues) _ _ h λ q fq h1.
      find_if_ok r.session_id (names_session scope r.worker_id) db.sessions _ _ h1 λ s _ _ h2.
        guard_ok (session_healthy s.status) _ _ h2 λ _ last.
          claim_known-Transition db scope r locked draw duration q s
            (lookup_claim db r.claim_request_id) v keyed fq last

pub claim-Transition :
    (db : Db) (scope : Text) (r : ClaimRequest) (locked : ℕ → Bool) (draw : ClaimDraw)
    (duration : ℕ) (v : Db × ClaimResult)
    → IsKeyed db.jobs
    → claim db scope r locked draw duration ≡ ok v
    → Transition db v.0
unfolding claim
claim-Transition db scope r locked draw duration v keyed h = guard_ok (valid_claim r) _ _ h λ _ h1.
    refuse_ok (duration == 0) _ _ h1 λ _ h2.
      refuse_ok (disagrees scope r (lookup_claim db r.claim_request_id)) _ _ h2
        λ _ last. claim_tx-Transition db scope r locked draw duration v keyed last
