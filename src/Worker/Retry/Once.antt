-- ===== src/Worker/Retry/Once.antt =====
-- A report that is sent again and again is decided once.
use task_forge.Base.{
  Text, ℕ, zero, suc, ◌+◌, ◌≡◌, ◌⊎◌, inl, inr, refl, sym, ◌∙◌, arith, subst, ap, Bool, true, false,
  not, ◌||◌, Option, none, some, ◌==◌, Error, Result, ok, err, Bool-cases,
}
use task_forge.Lifecycle.Retry.{Float64, RetryPolicy}
use task_forge.Schema.{Db}
use task_forge.Workers.{FailureReport, OutcomeResult}
use task_forge.Workers.Outcome.{fail}
use task_forge.Workers.Replays.{fail-fail}
use task_forge.Worker.Renewal.{CallError}
use task_forge.Worker.Retry.{
  retryable, Ending, no_error, after_attempt, retry_from, retry, Passage, request_lost, answer_lost,
  through, Arrival, Reported, received, send_failure, report_failure,
}

-- What a property of the states keeps, the loop keeps.
module _ {S : Type 0} (operation : ℕ → S → S × Option CallError) (waits : ℕ → Bool) (P : S → Type 0)
    (keeps : (i : ℕ) (s : S) → P s → P (operation i s).0) where
  retry_from-keeps :
      (left attempt : ℕ) (s : S) → P s → P (retry_from operation waits left attempt s).0
  unfolding retry_from
  retry_from-keeps zero attempt s h = h
  retry_from-keeps (suc left) attempt s h =
      let r = operation attempt s in
      let one = keeps attempt s h in
      let more = retry_from-keeps left (attempt + 1) r.0 one in
      ending attempt r.0 r.1 (left == 0) (retry_from operation waits left (attempt + 1) r.0) one
        more
    where
      ending :
          (attempt : ℕ) (s : S) (e : Option CallError) (last : Bool) (rest : S × Ending)
          → P s
          → P rest.0
          → P (after_attempt operation waits attempt s e last rest).0
      ending attempt s none last rest one more = one
      ending attempt s (some e) last rest one more = elim (Bool-cases (not (retryable e) || last)) [
        | inl over ↦ rw over one
        | inr on ↦ elim (Bool-cases (waits attempt)) [
          | inl waited ↦ rw (on, waited) more
          | inr ended ↦ rw (on, ended) one
        ]
      ]

-- What an attempt without an error gives, the loop that ends without one gives.
module _ {S : Type 0} (operation : ℕ → S → S × Option CallError) (waits : ℕ → Bool) (Q : S → Type 0)
    (gives : (i : ℕ) (s : S) → (operation i s).1 ≡ none → Q (operation i s).0) where
  ended :
      (attempt : ℕ) (s : S) (e : Option CallError) (last : Bool) (rest : S × Ending)
      → (e ≡ none → Q s)
      → (last ≡ false → rest.1 ≡ no_error → Q rest.0)
      → (after_attempt operation waits attempt s e last rest).1 ≡ no_error
      → Q (after_attempt operation waits attempt s e last rest).0
  ended attempt s none last rest one more h = one refl
  ended attempt s (some e) last rest one more h = elim (Bool-cases (not (retryable e) || last)) [
    | inl over ↦ cc (rw over at h)
    | inr on ↦ elim (Bool-cases (waits attempt)) [
      | inl waited ↦ rw (on, waited) (more (ground (arith, on)) (rw (on, waited) at h))
      | inr out ↦ cc (rw (on, out) at h)
    ]
  ]

  retry_from-gives :
      (left attempt : ℕ) (s : S)
      → (retry_from operation waits (suc left) attempt s).1 ≡ no_error
      → Q (retry_from operation waits (suc left) attempt s).0
  unfolding retry_from
  retry_from-gives zero attempt s h =
      let r = operation attempt s in
      ended attempt r.0 r.1 true (r.0, no_error) (gives attempt s) (λ e _. cc e) h
  retry_from-gives (suc left) attempt s h =
      let r = operation attempt s in
      ended attempt r.0 r.1 (suc left == 0)
        (retry_from operation waits (suc left) (attempt + 1) r.0) (gives attempt s)
        (λ _ e. retry_from-gives left (attempt + 1) r.0 e) h

-- The answer that the worker has, if it has one, is the decision.
abbrev pub IsOf : Option OutcomeResult → OutcomeResult → Type 0
IsOf none w = Unit
IsOf (some r) w = r ≡ record w { replayed = r.replayed }

module _ (fl : Float64) (p : RetryPolicy fl) (refusal : Error → CallError) (scope : Text)
    (q : FailureReport) (db : Db) where
  open fl use {Carrier}

  -- Nothing was decided yet, or the first report that arrived was, and is what the worker knows.
  abbrev pub IsOnce : Reported → Type 0
  IsOnce s =
      ((s.0 ≡ db) × (s.1 ≡ none))
      ⊎ ((a : Arrival Carrier) × (v : Db × OutcomeResult) × (fail fl db p a.jitter scope q a.fresh
              a.now
            ≡ ok v)
          × (s.0 ≡ v.0)
          × IsOf s.1 v.1)

  received-IsOnce :
      (s : Reported) (passage : Passage) (r : Result (Db × OutcomeResult))
      → IsOnce s
      → ((v : Db × OutcomeResult) → r ≡ ok v → IsOnce (v.0, s.1) × IsOnce (v.0, some v.1))
      → IsOnce (received fl p refusal s passage r).0
  received-IsOnce s request_lost r h decided = h
  received-IsOnce s answer_lost (ok v) h decided = (decided v refl).0
  received-IsOnce s answer_lost (err e) h decided = h
  received-IsOnce s through (ok v) h decided = (decided v refl).1
  received-IsOnce s through (err e) h decided = h

  -- The first report that arrives is decided; another is answered with that decision.
  decided-IsOnce :
      (a : Arrival Carrier) (s : Reported) (v : Db × OutcomeResult)
      → IsOnce s
      → fail fl s.0 p a.jitter scope q a.fresh a.now ≡ ok v
      → IsOnce (v.0, s.1) × IsOnce (v.0, some v.1)
  decided-IsOnce a s v (inl (same, unknown)) h =
      let first = subst (λ d. fail fl d p a.jitter scope q a.fresh a.now ≡ ok v) same h in
      (
        inr (a, v, first, refl, subst (λ k. IsOf k v.1) (sym unknown) tt),
        inr (a, v, first, refl, refl),
      )
  decided-IsOnce a s v (inr (a', v', first, same, known)) h =
      let again =
        fail-fail fl db p p a'.jitter a.jitter scope q a'.fresh a.fresh a'.now a.now v' first in
      let here = subst (λ d. fail fl d p a.jitter scope q a.fresh a.now ≡ ok v) same h in
      let result : v ≡ (v'.0, record v'.1 { replayed = true }) = cc (here, again) in
      let db_same : v.0 ≡ v'.0 = ap (λ (x : Db × OutcomeResult). x.0) result in
      let answer : v.1 ≡ record v'.1 { replayed = true } =
        ap (λ (x : Db × OutcomeResult). x.1) result in
      let flag : v.1.replayed ≡ true = ap (λ (x : OutcomeResult). x.replayed) answer in
      (
        inr (a', v', first, db_same, known),
        inr (
          a',
          v',
          first,
          db_same,
          answer ∙ ap (λ (b : Bool). record v'.1 { replayed = b }) (sym flag),
        ),
      )

  send_failure-IsOnce :
      (a : Arrival Carrier) (s : Reported)
      → IsOnce s
      → IsOnce (send_failure fl p refusal scope q a s).0
  unfolding send_failure
  send_failure-IsOnce a s h =
      received-IsOnce s a.passage (fail fl s.0 p a.jitter scope q a.fresh a.now) h
        λ v e. decided-IsOnce a s v h e

  -- A failure that is reported until its outcome is known, over a network that loses requests and
  -- answers and at whatever times, is decided at most once while nothing else changes the database:
  -- at the end the database is as it was, or as the one report that was decided left it, and an answer
  -- that the worker has is that decision.
  pub report_failure-IsOnce :
      (arrivals : ℕ → Arrival Carrier) (waits : ℕ → Bool) (retry_attempts : ℕ)
      → IsOnce (report_failure fl p refusal arrivals waits retry_attempts scope q db).0
  unfolding report_failure retry
  report_failure-IsOnce arrivals waits retry_attempts =
      retry_from-keeps (λ i s. (send_failure fl p refusal scope q (arrivals i) s)) waits IsOnce
        (λ i s h. send_failure-IsOnce (arrivals i) s h) retry_attempts 1 (db, none)
        (inl (refl, refl))

  answered_known :
      (s : Reported) (passage : Passage) (r : Result (Db × OutcomeResult))
      → (received fl p refusal s passage r).1 ≡ none
      → (a : OutcomeResult) × ((received fl p refusal s passage r).0.1 ≡ some a)
  answered_known s request_lost r h = cc
  answered_known s answer_lost (ok v) h = cc
  answered_known s answer_lost (err e) h = cc
  answered_known s through (ok v) h = (v.1, refl)
  answered_known s through (err e) h = cc

  IsOnce-known :
      (s : Reported) (a : OutcomeResult)
      → IsOnce s
      → s.1 ≡ some a
      → (b : Arrival Carrier) × (v : Db × OutcomeResult) × (fail fl db p b.jitter scope q b.fresh
            b.now
          ≡ ok v)
        × (s.0 ≡ v.0)
        × (a ≡ record v.1 { replayed = a.replayed })
  IsOnce-known s a (inl (same, unknown)) known = cc (unknown, known)
  IsOnce-known s a (inr (b, v, first, same, answer)) known =
      (b, v, first, same, subst (λ k. IsOf k v.1) known answer)

  -- Where reportFailure ends without an error, after at least one attempt and while nothing else
  -- changed the database, the worker has an answer, and some report that arrived was decided with it:
  -- the database is as that one report left it.
  pub report_failure-decided :
      (arrivals : ℕ → Arrival Carrier) (waits : ℕ → Bool) (attempts : ℕ)
      → (report_failure fl p refusal arrivals waits (suc attempts) scope q db).1 ≡ no_error
      → (a : OutcomeResult) × (b : Arrival Carrier) × (v : Db × OutcomeResult) × ((report_failure fl
            p refusal arrivals waits
            (suc attempts)
            scope
            q
            db).0.1
          ≡ some a)
        × (fail fl db p b.jitter scope q b.fresh b.now ≡ ok v)
        × ((report_failure fl p refusal arrivals waits (suc attempts) scope q db).0.0 ≡ v.0)
        × (a ≡ record v.1 { replayed = a.replayed })
  unfolding report_failure retry send_failure
  report_failure-decided arrivals waits attempts h =
      let (a, known) =
        retry_from-gives (λ i s. send_failure fl p refusal scope q (arrivals i) s) waits
          (λ s. (a : OutcomeResult) × (s.1 ≡ some a))
          (λ i s e.
            answered_known s (arrivals i).passage
              (fail fl s.0 p (arrivals i).jitter scope q (arrivals i).fresh (arrivals i).now) e)
          attempts 1 (db, none) h in
      let (b, v, first, same, answer) =
        IsOnce-known (report_failure fl p refusal arrivals waits (suc attempts) scope q db).0 a
          (report_failure-IsOnce arrivals waits (suc attempts)) known in
      (a, b, v, known, first, same, answer)
