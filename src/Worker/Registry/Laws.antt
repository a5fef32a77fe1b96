-- ===== src/Worker/Registry/Laws.antt =====
-- No directive is lost: whichever comes first, the directive or the handler's cancel function, the
-- handler is signaled.
use task_forge.Base.{
  ℕ, ◌≡◌, refl, arith, Bool, true, false, not, Option, none, some, List, [], ◌∷◌, ◌==◌,
  if◌then◌else◌, Option-cases, Bool-cases, inl, inr, ==_iff, ◌||◌, ◌&&◌,
}
use task_forge.Table.{Table, find, put}
use task_forge.Table.Laws.{find-put, find-put_self}
use task_forge.Workers.{Fence}
use task_forge.Worker.Registry.{
  Entry, Directive, Registry, empty_registry, remove, register, bind, unregister, deliver,
  was_canceled, names, bind_found, deliver_found, signal,
}

-- A cancel function was called.
abbrev pub is_signaled : ℕ → List ℕ → Bool
is_signaled cancel [] = false
is_signaled cancel (c ∷ s) = c == cancel || is_signaled cancel s

-- What other goroutines of the worker do, in any order.
pub data Event : Type 0 where
  registers : Fence → Event
  binds : ℕ → ℕ → Event
  delivers : Directive → Event
  unregisters : ℕ → Event

unfoldable pub after : Registry → Event → Registry
after r (registers f) = register r f
after r (binds id cancel) = bind r id cancel
after r (delivers d) = (deliver r d).0
after r (unregisters id) = unregister r id

unfoldable pub after_all : Registry → List Event → Registry
after_all r [] = r
after_all r (e ∷ es) = after_all (after r e) es

-- Every entry that is canceled and has a cancel function has had it called.
abbrev pub Served : List ℕ → Option Entry → Type 0
Served s none = Unit
Served s (some e) = (c : ℕ) → e.cancel ≡ some c → e.canceled ≡ true → is_signaled c s ≡ true

abbrev pub AllServed : Registry → Type 0
AllServed r = (id : ℕ) → Served r.signaled (find id r.entries)

find-remove :
    (i j : ℕ) (t : Table Entry) → find j (remove i t) ≡ (if i == j then none else find j t)
unfolding find remove
find-remove i j [] = ground arith
find-remove i j ((k, e) ∷ t) = ground (arith, find-remove i j t)

Served-more : (s : List ℕ) (c : ℕ) (o : Option Entry) → Served s o → Served (c ∷ s) o
Served-more s c none h = tt
Served-more s c (some e) h = λ x has over. ground (arith, h x has over)

Served-if :
    (b : Bool) (c : ℕ) (s : List ℕ) (o : Option Entry)
    → Served s o
    → Served (if b then c ∷ s else s) o
Served-if true c s o h = Served-more s c o h
Served-if false c s o h = h

-- A write of one entry, where the signals only grow.
put-AllServed :
    (r : Registry) (id : ℕ) (e : Entry) (s : List ℕ)
    → ((o : Option Entry) → Served r.signaled o → Served s o)
    → Served s (some e)
    → AllServed r
    → AllServed (record { entries = put id e r.entries; signaled = s })
put-AllServed r id e s grows here served k = elim (Bool-cases (id == k)) [
  | inl hit ↦ rw (find-put id k e r.entries, hit) here
  | inr miss ↦ rw (find-put id k e r.entries, miss) (grows (find k r.entries) (served k))
]

bind_found-AllServed :
    (r : Registry) (id cancel : ℕ) (o : Option Entry)
    → find id r.entries ≡ o
    → AllServed r
    → AllServed (bind_found r id cancel o)
bind_found-AllServed r id cancel none here served = served
bind_found-AllServed r id cancel (some e) here served =
    put-AllServed r id (record e { cancel = some cancel })
      (if e.canceled then cancel ∷ r.signaled else r.signaled)
      (Served-if e.canceled cancel r.signaled) (λ c has over. rw over (ground (arith, has))) served

signal-Served : (c : Option ℕ) (s : List ℕ) (o : Option Entry) → Served s o → Served (signal c s) o
signal-Served none s o h = h
signal-Served (some c) s o h = Served-more s c o h

deliver_found-AllServed :
    (r : Registry) (d : Directive) (o : Option Entry)
    → AllServed r
    → AllServed (deliver_found r d o).0
deliver_found-AllServed r d none served = served
deliver_found-AllServed r d (some e) served = elim (Bool-cases (names d e)) [
  | inr other ↦ rw other served
  | inl named ↦ rw named (
      put-AllServed r d.attempt_id (record e { canceled = true }) (signal e.cancel r.signaled)
        (signal-Served e.cancel r.signaled) (λ c has _. rw has (ground arith)) served)
]

after-AllServed : (r : Registry) (e : Event) → AllServed r → AllServed (after r e)
unfolding after register bind unregister deliver
after-AllServed r (registers f) served =
    put-AllServed r f.attempt_id (record { fence = f; cancel = none; canceled = false }) r.signaled
      (λ o h. h) (λ c has over. cc) served
after-AllServed r (binds id cancel) served =
    bind_found-AllServed r id cancel (find id r.entries) refl served
after-AllServed r (delivers d) served =
    deliver_found-AllServed r d (find d.attempt_id r.entries) served
after-AllServed r (unregisters id) served = λ k. elim (Bool-cases (id == k)) [
  | inl hit ↦ rw (find-remove id k r.entries, hit) tt
  | inr miss ↦ rw (find-remove id k r.entries, miss) (served k)
]

after_all-AllServed : (r : Registry) (es : List Event) → AllServed r → AllServed (after_all r es)
unfolding after_all
after_all-AllServed r [] served = served
after_all-AllServed r (e ∷ es) served =
    after_all-AllServed (after r e) es (after-AllServed r e served)

-- The event does not begin or end the attempt.
abbrev pub spares : ℕ → Event → Bool
spares id (registers f) = not (f.attempt_id == id)
spares id (unregisters i) = not (i == id)
spares id _ = true

abbrev pub spare : ℕ → List Event → Bool
spare id [] = true
spare id (e ∷ es) = spares id e && spare id es

was_canceled-put :
    (id k : ℕ) (e : Entry) (t : Table Entry) (s s' : List ℕ)
    → (id ≡ k → e.canceled ≡ true)
    → was_canceled (record { entries = t; signaled = s }) k ≡ true
    → was_canceled (record { entries = put id e t; signaled = s' }) k ≡ true
unfolding was_canceled
was_canceled-put id k e t s s' keeps over = elim (Bool-cases (id == k)) [
  | inl hit ↦ rw (was_canceled, find-put id k e t, hit) (keeps ((==_iff id k).0 hit))
  | inr miss ↦ rw (was_canceled, find-put id k e t, miss) over
]

was_canceled-bind :
    (r : Registry) (i cancel id : ℕ) (o : Option Entry)
    → find i r.entries ≡ o
    → was_canceled r id ≡ true
    → was_canceled (bind_found r i cancel o) id ≡ true
unfolding was_canceled
was_canceled-bind r i cancel id none here over = over
was_canceled-bind r i cancel id (some e) here over =
    was_canceled-put i id (record e { cancel = some cancel }) r.entries r.signaled
      (if e.canceled then cancel ∷ r.signaled else r.signaled)
      (λ same. ground (arith, same, here, over)) over

was_canceled-deliver :
    (r : Registry) (d : Directive) (id : ℕ) (o : Option Entry)
    → was_canceled r id ≡ true
    → was_canceled (deliver_found r d o).0 id ≡ true
was_canceled-deliver r d id none over = over
was_canceled-deliver r d id (some e) over = elim (Bool-cases (names d e)) [
  | inr other ↦ rw other over
  | inl named ↦ rw named (
      was_canceled-put d.attempt_id id (record e { canceled = true }) r.entries r.signaled
        (signal e.cancel r.signaled) (λ _. refl) over)
]

was_canceled-unregister :
    (r : Registry) (i id : ℕ)
    → (i == id) ≡ false
    → was_canceled r id ≡ true
    → was_canceled (unregister r i) id ≡ true
unfolding was_canceled unregister
was_canceled-unregister r i id other over =
    rw (was_canceled, unregister, find-remove i id r.entries, other) over

was_canceled-after :
    (r : Registry) (e : Event) (id : ℕ)
    → spares id e ≡ true
    → was_canceled r id ≡ true
    → was_canceled (after r e) id ≡ true
unfolding after register bind deliver
was_canceled-after r (registers f) id spared over =
    was_canceled-put f.attempt_id id (record { fence = f; cancel = none; canceled = false })
      r.entries r.signaled r.signaled (λ same. ground (arith, same, spared)) over
was_canceled-after r (binds i cancel) id spared over =
    was_canceled-bind r i cancel id (find i r.entries) refl over
was_canceled-after r (delivers d) id spared over =
    was_canceled-deliver r d id (find d.attempt_id r.entries) over
was_canceled-after r (unregisters i) id spared over =
    was_canceled-unregister r i id (ground (arith, spared)) over

was_canceled-after_all :
    (r : Registry) (es : List Event) (id : ℕ)
    → spare id es ≡ true
    → was_canceled r id ≡ true
    → was_canceled (after_all r es) id ≡ true
unfolding after_all
was_canceled-after_all r [] id spared over = over
was_canceled-after_all r (e ∷ es) id spared over =
    was_canceled-after_all (after r e) es id (ground (arith, spared))
      (was_canceled-after r e id (ground (arith, spared)) over)

accepted-was_canceled :
    (r : Registry) (d : Directive)
    → (deliver r d).1 ≡ true
    → was_canceled (deliver r d).0 d.attempt_id ≡ true
unfolding deliver was_canceled
accepted-was_canceled r d h = elim (Option-cases (find d.attempt_id r.entries)) [
  | inl gone ↦ ground (arith, gone, h)
  | inr (e, here) ↦
      ground (arith, here, h, find-put_self d.attempt_id (record e { canceled = true }) r.entries)
]

-- A directive that is delivered for the first time to an attempt that the worker holds is not lost:
-- after it, and any events that do not begin or end the attempt, the attempt is marked canceled, and
-- the cancel function that is bound to it, before the directive or after, has been called.
pub directive_reaches_handler :
    (before later : List Event) (d : Directive) (e : Entry) (c : ℕ)
    → (deliver (after_all empty_registry before) d).1 ≡ true
    → spare d.attempt_id later ≡ true
    → find d.attempt_id (after_all (deliver (after_all empty_registry before) d).0 later).entries
      ≡ some e
    → e.cancel ≡ some c
    → (e.canceled ≡ true)
      × (is_signaled c (after_all (deliver (after_all empty_registry before) d).0 later).signaled
          ≡ true)
unfolding was_canceled after find
directive_reaches_handler before later d e c first spared here has =
    let r0 = after_all empty_registry before in
    let r1 = (deliver r0 d).0 in
    let r = after_all r1 later in
    let none_yet : AllServed empty_registry = λ id. tt in
    let served0 = after_all-AllServed empty_registry before none_yet in
    let served1 = after-AllServed r0 (delivers d) served0 in
    let served = after_all-AllServed r1 later served1 in
    let over =
      was_canceled-after_all r1 later d.attempt_id spared (accepted-was_canceled r0 d first) in
    let marked : e.canceled ≡ true = ground (arith, here, over) in
    let mine : Served r.signaled (some e) = rw here at (served d.attempt_id) in
    (marked, mine c has marked)
