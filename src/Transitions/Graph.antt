-- ===== src/Transitions/Graph.antt =====
-- A transition takes every job along the state machine, and leaves its identity as it was.
use task_forge.Base.{
  ℕ, ◌≡◌, refl, arith, true, none, some, ◌==◌, Bool-cases, inl, inr, ==_iff, subst,
}
use task_forge.Table.{Table, find, put}
use task_forge.Table.Laws.{find-put}
use task_forge.Schema.{Db, Job, Status, is_terminal}
use task_forge.Transitions.{
  Transition, idle, registered, granted, started, ended, requeued, buried, moved, announced,
  delayed, created, renewed, delivered, IsMove, allowed,
}

-- A row of a job that was there before: its status moved along the state machine.
abbrev pub Follows : Table Job → ℕ → Job → Type 0
Follows jobs k j =
    (j' : Job) × (find k jobs ≡ some j')
    × (allowed j.status j'.status ≡ true)
    × (j'.max_attempts ≡ j.max_attempts)
    × (j'.scope ≡ j.scope)
    × (j'.queue ≡ j.queue)

pub allowed_refl : (s : Status) → allowed s s ≡ true
allowed_refl s = ground arith

stays : (db : Db) (k : ℕ) (j : Job) → find k db.jobs ≡ some j → Follows db.jobs k j
stays db k j h = (j, h, allowed_refl j.status, refl, refl, refl)

-- The write of one row, by a move.
Follows-move :
    (db : Db) (i k : ℕ) (a a' j : Job)
    → IsMove db i a a'
    → find k db.jobs ≡ some j
    → Follows (put i a' db.jobs) k j
Follows-move db i k a a' j m h =
    let law = find-put i k a' db.jobs in
    elim (Bool-cases (i == k)) [
      | inl same ↦
          let here : i ≡ k = (==_iff i k).0 same in
          let found : find k db.jobs ≡ some a = subst (λ x. find x db.jobs ≡ some a) here m.found in
          let both : a ≡ j = ground (arith, h, found) in
          (
            a',
            rw same at law,
            subst (λ (x : Job). allowed x.status a'.status ≡ true) both m.edge,
            subst (λ (x : Job). a'.max_attempts ≡ x.max_attempts) both m.same_budget,
            subst (λ (x : Job). a'.scope ≡ x.scope) both m.same_identity.0,
            subst (λ (x : Job). a'.queue ≡ x.queue) both m.same_identity.1,
          )
      | inr other ↦ (j, rw (other, h) at law, allowed_refl j.status, refl, refl, refl)
    ]

-- The write of a row that was not there.
Follows-new :
    (db : Db) (i k : ℕ) (a j : Job)
    → find i db.jobs ≡ none
    → find k db.jobs ≡ some j
    → Follows (put i a db.jobs) k j
Follows-new db i k a j free h =
    let law = find-put i k a db.jobs in
    elim (Bool-cases (i == k)) [
      | inl same ↦
          let here : i ≡ k = (==_iff i k).0 same in
          let gone : find k db.jobs ≡ none = subst (λ x. find x db.jobs ≡ none) here free in
          ground (arith, gone, h)
      | inr other ↦ (j, rw (other, h) at law, allowed_refl j.status, refl, refl, refl)
    ]

pub Transition-Follows :
    (db db' : Db) (t : Transition db db') (k : ℕ) (j : Job)
    → find k db.jobs ≡ some j
    → Follows db'.jobs k j
Transition-Follows db db' idle k j h = stays db k j h
Transition-Follows db db' (registered _ _) k j h = stays db k j h
Transition-Follows db db' (delivered _ _) k j h = stays db k j h
Transition-Follows db db' (granted i a l x x' att lease q g) k j h =
    Follows-move db i k x x' j g.move h
Transition-Follows db db' (started i a x x' att att' m _ _ _ _ _ _ _) k j h =
    Follows-move db i k x x' j m h
Transition-Follows db db' (ended i a l x x' att att' lease lease' results e _ _) k j h =
    Follows-move db i k x x' j e.move h
Transition-Follows db db' (requeued i a l ev x x' att att' lease lease' event e _ _ _) k j h =
    Follows-move db i k x x' j e.move h
Transition-Follows db db' (buried i a l d x x' att att' lease lease' entry e _ _ _) k j h =
    Follows-move db i k x x' j e.move h
Transition-Follows db db' (moved i x x' m _ _ _) k j h = Follows-move db i k x x' j m h
Transition-Follows db db' (announced i ev x x' event m _ _ _ _) k j h =
    Follows-move db i k x x' j m h
Transition-Follows db db' (delayed i x _ free _) k j h = Follows-new db i k x j free h
Transition-Follows db db' (created i ev x event _ _ free _ _ _) k j h =
    Follows-new db i k x j free h
Transition-Follows db db' (renewed l _ _ _ _ _ _) k j h = stays db k j h

-- A terminal status allows no other.
pub allowed_terminal : (s t : Status) → is_terminal s ≡ true → allowed s t ≡ true → s ≡ t
allowed_terminal s t h e = ground arith
