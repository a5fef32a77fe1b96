-- ===== src/Transitions/Preserve.antt =====
-- Every transition keeps the invariant, field by field.
use task_forge.Base.{Text, ℕ, ◌≤◌, ◌≡◌, arith, some, eq_of_text_eq}
use task_forge.Table.{find, count}
use task_forge.Table.Laws.{IsKeyed, find-put, count-put, put-IsKeyed}
use task_forge.Schema.{Db, Job, Status, find_queue}
use task_forge.Outbox.{advertises}
use task_forge.Workers.Claim.{attempts_of, active_in_queue, active_for_job}
use task_forge.Transitions.Deadline.{keep_untimed}
use task_forge.Transitions.{
  Transition, idle, registered, granted, started, ended, requeued, buried, moved, announced,
  delayed, created, renewed, delivered,
}
use task_forge.Transitions.Invariant.{
  Inv, executing_of, entry_of, held, WithinBudget, WithinCapacity,
}
use task_forge.Transitions.Invariant

keep_leases :
    {db db' : Db} (t : Transition db db') (v : Inv db) (k : ℕ)
    → count (active_for_job k) db'.leases ≡ held (find k db'.jobs)
keep_leases idle v k = v.one_lease k
keep_leases (delivered _ _) v k = v.one_lease k
keep_leases (registered _ _) v k = v.one_lease k
keep_leases {db} (granted i a l j j' att lease q g) v k = ground (
  arith,
  find-put i k j' db.jobs,
  count-put (active_for_job k) l lease db.leases,
  v.one_lease k,
  g.move.found,
)
keep_leases {db} (started i a j j' att att' m h h' f named e x x') v k =
    ground (arith, find-put i k j' db.jobs, v.one_lease k, m.found)
keep_leases {db} (ended i a l j j' att att' lease lease' r e nq nd) v k = ground (
  arith,
  find-put i k j' db.jobs,
  count-put (active_for_job k) l lease' db.leases,
  v.one_lease k,
  e.move.found,
)
keep_leases {db} (requeued i a l e j j' att att' lease lease' event z q n ad) v k = ground (
  arith,
  find-put i k j' db.jobs,
  count-put (active_for_job k) l lease' db.leases,
  v.one_lease k,
  z.move.found,
)
keep_leases {db} (buried i a l d j j' att att' lease lease' entry z q n ad) v k = ground (
  arith,
  find-put i k j' db.jobs,
  count-put (active_for_job k) l lease' db.leases,
  v.one_lease k,
  z.move.found,
)
keep_leases {db} (moved i j j' m h nq d) v k =
    ground (arith, find-put i k j' db.jobs, v.one_lease k, m.found)
keep_leases {db} (announced i e j j' event m h q n ad) v k =
    ground (arith, find-put i k j' db.jobs, v.one_lease k, m.found)
keep_leases {db} (delayed i j ids n p) v k = ground (arith, find-put i k j db.jobs, v.one_lease k)
keep_leases {db} (created i e j event ids rs n q ne ad) v k =
    ground (arith, find-put i k j db.jobs, v.one_lease k)
keep_leases {db} (renewed l lease lease' f ej eq es) v k =
    ground (arith, count-put (active_for_job k) l lease' db.leases, v.one_lease k)

keep_attempts :
    {db db' : Db} (t : Transition db db') (v : Inv db) (k : ℕ)
    → count (executing_of k) db'.attempts ≡ held (find k db'.jobs)
keep_attempts idle v k = v.one_attempt k
keep_attempts (delivered _ _) v k = v.one_attempt k
keep_attempts (registered _ _) v k = v.one_attempt k
keep_attempts {db} (granted i a l j j' att lease q g) v k = ground (
  arith,
  find-put i k j' db.jobs,
  g.move.found,
  count-put (executing_of k) a att db.attempts,
  v.one_attempt k,
)
keep_attempts {db} (started i a j j' att att' m h h' f named e x x') v k = ground (
  arith,
  find-put i k j' db.jobs,
  m.found,
  count-put (executing_of k) a att' db.attempts,
  v.one_attempt k,
)
keep_attempts {db} (ended i a l j j' att att' lease lease' r e nq nd) v k = ground (
  arith,
  find-put i k j' db.jobs,
  e.move.found,
  count-put (executing_of k) a att' db.attempts,
  v.one_attempt k,
)
keep_attempts {db} (requeued i a l e j j' att att' lease lease' event z q n ad) v k = ground (
  arith,
  find-put i k j' db.jobs,
  z.move.found,
  count-put (executing_of k) a att' db.attempts,
  v.one_attempt k,
)
keep_attempts {db} (buried i a l d j j' att att' lease lease' entry z q n ad) v k = ground (
  arith,
  find-put i k j' db.jobs,
  z.move.found,
  count-put (executing_of k) a att' db.attempts,
  v.one_attempt k,
)
keep_attempts {db} (moved i j j' m h nq d) v k =
    ground (arith, find-put i k j' db.jobs, m.found, v.one_attempt k)
keep_attempts {db} (announced i e j j' event m h q n ad) v k =
    ground (arith, find-put i k j' db.jobs, m.found, v.one_attempt k)
keep_attempts {db} (delayed i j ids n p) v k =
    ground (arith, find-put i k j db.jobs, v.one_attempt k)
keep_attempts {db} (created i e j event ids rs n q ne ad) v k =
    ground (arith, find-put i k j db.jobs, v.one_attempt k)
keep_attempts {db} (renewed l lease lease' f ej eq es) v k = ground (arith, v.one_attempt k)

keep_entries :
    {db db' : Db} (t : Transition db db') (v : Inv db) (k : ℕ)
    → count (entry_of k) db'.dlq ≡ Invariant.buried (find k db'.jobs)
keep_entries idle v k = v.one_entry k
keep_entries (delivered _ _) v k = v.one_entry k
keep_entries (registered _ _) v k = v.one_entry k
keep_entries {db} (granted i a l j j' att lease q g) v k =
    ground (arith, find-put i k j' db.jobs, g.move.found, v.one_entry k)
keep_entries {db} (started i a j j' att att' m h h' f named e x x') v k =
    ground (arith, find-put i k j' db.jobs, m.found, v.one_entry k)
keep_entries {db} (ended i a l j j' att att' lease lease' r e nq nd) v k =
    ground (arith, find-put i k j' db.jobs, e.move.found, v.one_entry k)
keep_entries {db} (requeued i a l e j j' att att' lease lease' event z q n ad) v k =
    ground (arith, find-put i k j' db.jobs, z.move.found, v.one_entry k)
keep_entries {db} (buried i a l d j j' att att' lease lease' entry z q n ad) v k = ground (
  arith,
  find-put i k j' db.jobs,
  z.move.found,
  count-put (entry_of k) d entry db.dlq,
  v.one_entry k,
)
keep_entries {db} (moved i j j' m h nq d) v k =
    ground (arith, find-put i k j' db.jobs, m.found, v.one_entry k)
keep_entries {db} (announced i e j j' event m h q n ad) v k =
    ground (arith, find-put i k j' db.jobs, m.found, v.one_entry k)
keep_entries {db} (delayed i j ids n p) v k = ground (arith, find-put i k j db.jobs, v.one_entry k)
keep_entries {db} (created i e j event ids rs n q ne ad) v k =
    ground (arith, find-put i k j db.jobs, v.one_entry k)
keep_entries {db} (renewed l lease lease' f ej eq es) v k = ground (arith, v.one_entry k)

keep_budget :
    {db db' : Db} (t : Transition db db') (v : Inv db) (k : ℕ)
    → WithinBudget (find k db'.jobs) (count (attempts_of k) db'.attempts)
keep_budget idle v k = v.budget k
keep_budget (delivered _ _) v k = v.budget k
keep_budget (registered _ _) v k = v.budget k
keep_budget {db} (granted i a l j j' att lease q g) v k = ground (
  arith,
  find-put i k j' db.jobs,
  g.move.found,
  count-put (attempts_of k) a att db.attempts,
  v.budget k,
)
keep_budget {db} (started i a j j' att att' m h h' f named e x x') v k = ground (
  arith,
  find-put i k j' db.jobs,
  m.found,
  count-put (attempts_of k) a att' db.attempts,
  v.budget k,
)
keep_budget {db} (ended i a l j j' att att' lease lease' r e nq nd) v k = ground (
  arith,
  find-put i k j' db.jobs,
  e.move.found,
  count-put (attempts_of k) a att' db.attempts,
  v.budget k,
)
keep_budget {db} (requeued i a l e j j' att att' lease lease' event z q n ad) v k = ground (
  arith,
  find-put i k j' db.jobs,
  z.move.found,
  count-put (attempts_of k) a att' db.attempts,
  v.budget k,
)
keep_budget {db} (buried i a l d j j' att att' lease lease' entry z q n ad) v k = ground (
  arith,
  find-put i k j' db.jobs,
  z.move.found,
  count-put (attempts_of k) a att' db.attempts,
  v.budget k,
)
keep_budget {db} (moved i j j' m h nq d) v k =
    ground (arith, find-put i k j' db.jobs, m.found, v.budget k)
keep_budget {db} (announced i e j j' event m h q n ad) v k =
    ground (arith, find-put i k j' db.jobs, m.found, v.budget k)
keep_budget {db} (delayed i j ids n p) v k = ground (arith, find-put i k j db.jobs, v.budget k)
keep_budget {db} (created i e j event ids rs n q ne ad) v k =
    ground (arith, find-put i k j db.jobs, v.budget k)
keep_budget {db} (renewed l lease lease' f ej eq es) v k = ground (arith, v.budget k)

keep_capacity :
    {db db' : Db} (t : Transition db db') (v : Inv db) (n : Text)
    → WithinCapacity (find_queue n db'.queues) (count (active_in_queue n) db'.leases)
keep_capacity idle v n = v.capacity n
keep_capacity (delivered _ _) v n = v.capacity n
keep_capacity (registered _ _) v n = v.capacity n
keep_capacity {db} (granted i a l j j' att lease q g) v n = ground (
  arith,
  count-put (active_in_queue n) l lease db.leases,
  eq_of_text_eq lease.queue n,
  v.capacity n,
)
keep_capacity (started i a j j' att att' m h h' f named e x x') v n = v.capacity n
keep_capacity {db} (ended i a l j j' att att' lease lease' r e nq nd) v n =
    ground (arith, count-put (active_in_queue n) l lease' db.leases, v.capacity n)
keep_capacity {db} (requeued i a l e j j' att att' lease lease' event z q ne' ad) v n =
    ground (arith, count-put (active_in_queue n) l lease' db.leases, v.capacity n)
keep_capacity {db} (buried i a l d j j' att att' lease lease' entry z q ne' ad) v n =
    ground (arith, count-put (active_in_queue n) l lease' db.leases, v.capacity n)
keep_capacity (moved i j j' m h nq d) v n = v.capacity n
keep_capacity (announced i e j j' event m h q ne' ad) v n = v.capacity n
keep_capacity (delayed i j ids ne' p) v n = v.capacity n
keep_capacity (created i e j event ids rs ne' q ne ad) v n = v.capacity n
keep_capacity {db} (renewed l lease lease' f ej eq es) v n =
    ground (arith, count-put (active_in_queue n) l lease' db.leases, v.capacity n)

keep_announced :
    {db db' : Db} (t : Transition db db') (v : Inv db) (k : ℕ) (b : Job)
    → find k db'.jobs ≡ some b
    → b.status ≡ Status.queued
    → 1 ≤ count (advertises k b.notification_generation) db'.outbox
keep_announced idle v k b found queued = v.announced k b found queued
keep_announced (delivered _ same) v k b found queued =
    ground (arith, same k b.notification_generation, v.announced k b)
keep_announced (registered _ _) v k b found queued = v.announced k b found queued
keep_announced {db} (granted i a l j j' att lease q g) v k b found queued =
    ground (arith, find-put i k j' db.jobs, g.move.found, v.announced k b)
keep_announced {db} (started i a j j' att att' m h h' f named e x x') v k b found queued =
    ground (arith, find-put i k j' db.jobs, m.found, v.announced k b)
keep_announced {db} (ended i a l j j' att att' lease lease' r e nq nd) v k b found queued =
    ground (arith, find-put i k j' db.jobs, e.move.found, v.announced k b)
keep_announced {db} (requeued i a l e j j' att att' lease lease' event z q n ad) v k b found
      queued =
    ground (
      arith,
      find-put i k j' db.jobs,
      z.move.found,
      v.announced k b,
      count-put (advertises k b.notification_generation) e event db.outbox,
    )
keep_announced {db} (buried i a l d j j' att att' lease lease' entry z q n ad) v k b found queued =
    ground (arith, find-put i k j' db.jobs, z.move.found, v.announced k b)
keep_announced {db} (moved i j j' m h nq d) v k b found queued =
    ground (arith, find-put i k j' db.jobs, m.found, v.announced k b)
keep_announced {db} (announced i e j j' event m h q n ad) v k b found queued = ground (
  arith,
  find-put i k j' db.jobs,
  m.found,
  v.announced k b,
  count-put (advertises k b.notification_generation) e event db.outbox,
)
keep_announced {db} (delayed i j ids n p) v k b found queued =
    ground (arith, find-put i k j db.jobs, v.announced k b)
keep_announced {db} (created i e j event ids rs n q ne ad) v k b found queued = ground (
  arith,
  find-put i k j db.jobs,
  v.announced k b,
  count-put (advertises k b.notification_generation) e event db.outbox,
)
keep_announced {db} (renewed l lease lease' f ej eq es) v k b found queued =
    ground (arith, v.announced k b)

keep-IsKeyed : {db db' : Db} (t : Transition db db') (v : Inv db) → IsKeyed db'.jobs
keep-IsKeyed idle v = v.keyed
keep-IsKeyed (delivered _ _) v = v.keyed
keep-IsKeyed (registered _ _) v = v.keyed
keep-IsKeyed {db} (granted i a l j j' att lease q g) v = put-IsKeyed i j' db.jobs v.keyed
keep-IsKeyed {db} (started i a j j' att att' m h h' f named e x x') v =
    put-IsKeyed i j' db.jobs v.keyed
keep-IsKeyed {db} (ended i a l j j' att att' lease lease' r e nq nd) v =
    put-IsKeyed i j' db.jobs v.keyed
keep-IsKeyed {db} (requeued i a l e j j' att att' lease lease' event z q n ad) v =
    put-IsKeyed i j' db.jobs v.keyed
keep-IsKeyed {db} (buried i a l d j j' att att' lease lease' entry z q n ad) v =
    put-IsKeyed i j' db.jobs v.keyed
keep-IsKeyed {db} (moved i j j' m h nq d) v = put-IsKeyed i j' db.jobs v.keyed
keep-IsKeyed {db} (announced i e j j' event m h q n ad) v = put-IsKeyed i j' db.jobs v.keyed
keep-IsKeyed {db} (delayed i j ids n p) v = put-IsKeyed i j db.jobs v.keyed
keep-IsKeyed {db} (created i e j event ids rs n q ne ad) v = put-IsKeyed i j db.jobs v.keyed
keep-IsKeyed (renewed l lease lease' f ej eq es) v = v.keyed

pub Transition-Inv : {db db' : Db} → Transition db db' → Inv db → Inv db'
Transition-Inv t v = record {
  keyed = keep-IsKeyed t v;
  one_lease = keep_leases t v;
  one_attempt = keep_attempts t v;
  one_entry = keep_entries t v;
  budget = keep_budget t v;
  capacity = keep_capacity t v;
  announced = keep_announced t v;
  untimed = keep_untimed t v;
}
