-- ===== src/Transitions/Deadline.antt =====
-- A transition sets a deadline only when it starts an attempt: the attempt of a LEASED job has none.
use task_forge.Base.{ℕ, ◌≡◌, arith, true, none, some}
use task_forge.Table.{find}
use task_forge.Table.Laws.{find-put, weight-le-count}
use task_forge.Schema.{Db, Attempt, Job, Status, attempt_executing}
use task_forge.Transitions.{
  allowed, is_held, Transition, idle, registered, granted, started, ended, requeued, buried, moved,
  announced, delayed, created, renewed, delivered,
}
use task_forge.Transitions.Invariant.{Inv, executing_of}

-- No move outside a grant makes a job leased.
still_leased :
    (s t : Status)
    → allowed s t ≡ true
    → is_held t ≡ is_held s
    → t ≡ Status.leased
    → s ≡ Status.leased
still_leased s t h k e = ground arith

pub keep_untimed :
    {db db' : Db} (t : Transition db db') (v : Inv db) (a : ℕ) (b : Attempt) (c : Job)
    → find a db'.attempts ≡ some b
    → attempt_executing b.status ≡ true
    → find b.job_id db'.jobs ≡ some c
    → c.status ≡ Status.leased
    → b.timeout_at ≡ none
keep_untimed idle v a b c fa e fc l = v.untimed a b c fa e fc l
keep_untimed (delivered _ _) v a b c fa e fc l = v.untimed a b c fa e fc l
keep_untimed (registered _ _) v a b c fa e fc l = v.untimed a b c fa e fc l
keep_untimed {db} (granted i x y j j' att lease q g) v a b c fa e fc l =
    let before = weight-le-count (executing_of i) a db.attempts in
    ground (
      arith,
      find-put x a att db.attempts,
      find-put i b.job_id j' db.jobs,
      v.untimed a b c,
      v.one_attempt i,
      g.move.found,
      g.was_queued,
      g.untimed,
      before,
    )
keep_untimed {db} (started i x j j' att att' m h h' f named same y z) v a b c fa e fc l =
    ground (arith, find-put x a att' db.attempts, find-put i b.job_id j' db.jobs, v.untimed a b c)
keep_untimed {db} (ended i x y j j' att att' lease lease' r z nq nd) v a b c fa e fc l = ground (
  arith,
  find-put x a att' db.attempts,
  find-put i b.job_id j' db.jobs,
  z.released,
  z.ended,
  v.untimed a b c,
)
keep_untimed {db} (requeued i x y ev j j' att att' lease lease' event z q n ad) v a b c fa e fc l =
    ground (
      arith,
      find-put x a att' db.attempts,
      find-put i b.job_id j' db.jobs,
      z.ended,
      v.untimed a b c,
    )
keep_untimed {db} (buried i x y d j j' att att' lease lease' entry z q n ad) v a b c fa e fc l =
    ground (
      arith,
      find-put x a att' db.attempts,
      find-put i b.job_id j' db.jobs,
      z.ended,
      v.untimed a b c,
    )
keep_untimed {db} (moved i j j' m h nq d) v a b c fa e fc l =
    let stayed = still_leased j.status j'.status m.edge h in
    ground
      (arith, find-put i b.job_id j' db.jobs, m.found, stayed, v.untimed a b j, v.untimed a b c)
keep_untimed {db} (announced i ev j j' event m h q n ad) v a b c fa e fc l =
    ground (arith, find-put i b.job_id j' db.jobs, v.untimed a b c)
keep_untimed {db} (delayed i j ids n p) v a b c fa e fc l =
    ground (arith, find-put i b.job_id j db.jobs, v.untimed a b c)
keep_untimed {db} (created i ev j event ids rs n q ne ad) v a b c fa e fc l =
    ground (arith, find-put i b.job_id j db.jobs, v.untimed a b c)
keep_untimed (renewed y lease lease' f ej eq es) v a b c fa e fc l = v.untimed a b c fa e fc l
