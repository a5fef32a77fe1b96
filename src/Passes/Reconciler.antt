-- ===== src/Passes/Reconciler.antt =====
-- internal/workers/reconcile.go, internal/workers/timeout.go and internal/reconciler/reconciler.go:
-- one pass of the reconciler.
use task_forge.Base.{
  ℕ, ◌+◌, Bool, false, ◌&&◌, ◌||◌, ℤ, Option, none, some, List, ltb, leb, Result, ok, if◌then◌else◌,
}
use task_forge.Table.Scan.{keys, select}
use task_forge.Lifecycle.Retry.{Float64, RetryPolicy}
use task_forge.Schema.{Db, Attempt, Lease, Session, session_current, attempt_running, lease_active}
use task_forge.Workers.{ReconcileStats}
use task_forge.Workers.Finalize.{Fresh}
use task_forge.Workers.Sessions.{mark_session_stale}
use task_forge.Workers.Reconcile.{reconcile_expired_lease, reconcile_due_timeout}
use task_forge.Passes.{Scan, Pass, refused, positive, earlier, for_each}

abbrev pub nothing : ReconcileStats
nothing = record {
  stale_sessions = 0;
  expired_leases = 0;
  timed_out_attempts = 0;
  canceled_attempts = 0;
  requeued_jobs = 0;
  retry_waiting_jobs = 0;
  dead_lettered_jobs = 0;
  skipped = 0;
}

-- ReconcileStats.Add
unfoldable pub add_repairs : ReconcileStats → ReconcileStats → ReconcileStats
add_repairs s other = record {
  stale_sessions = s.stale_sessions + other.stale_sessions;
  expired_leases = s.expired_leases + other.expired_leases;
  timed_out_attempts = s.timed_out_attempts + other.timed_out_attempts;
  canceled_attempts = s.canceled_attempts + other.canceled_attempts;
  requeued_jobs = s.requeued_jobs + other.requeued_jobs;
  retry_waiting_jobs = s.retry_waiting_jobs + other.retry_waiting_jobs;
  dead_lettered_jobs = s.dead_lettered_jobs + other.dead_lettered_jobs;
  skipped = s.skipped + other.skipped;
}

abbrev pub quiet : ℕ → ℕ → ℕ → Session → Bool
quiet after now i s = session_current s.status && ltb (s.last_heartbeat_at + after) now

abbrev pub heard_first : ℕ × Session → ℕ × Session → Bool
heard_first (i, a) (k, b) = earlier a.last_heartbeat_at i b.last_heartbeat_at k

unfoldable pub quiet_sessions : ℕ → ℕ → ℕ → Db → List ℕ
quiet_sessions after limit now db = keys (select (quiet after now) heard_first limit db.sessions)

abbrev pub mark_candidate : ℕ → ℕ → ℕ → Db → ℕ → Result (Db × ℕ)
mark_candidate after id now db marked =
    let (db', changed) = mark_session_stale db id after now in
    ok (db', if changed then marked + 1 else marked)

abbrev mark_after : Scan ℕ → Option ℕ → Option ℕ → Db → Pass ℕ
mark_after w none limit db = refused db 0
mark_after w (some after) none db = refused db 0
mark_after w (some after) (some n) db =
    for_each (mark_candidate after) w (quiet_sessions after n w.scanned_at (w.before db))
      (w.before db) 0

-- MarkStaleSessions: how many sessions were marked.
unfoldable pub mark_stale_sessions : Scan ℕ → ℤ → ℤ → Db → Pass ℕ
mark_stale_sessions w after limit db = mark_after w (positive after) (positive limit) db

-- When `instant` is null the comparison is.
abbrev reached_by : ℕ → Option ℕ → Bool
reached_by now none = false
reached_by now (some t) = leb t now

abbrev pub instant : Option ℕ → ℕ
instant none = 0
instant (some t) = t

abbrev pub is_overdue : ℕ → ℕ → Attempt → Bool
is_overdue now i a = attempt_running a.status && reached_by now a.timeout_at

abbrev pub timeout_first : ℕ × Attempt → ℕ × Attempt → Bool
timeout_first (i, a) (k, b) = earlier (instant a.timeout_at) i (instant b.timeout_at) k

unfoldable pub overdue_attempts : ℕ → ℕ → Db → List ℕ
overdue_attempts limit now db = keys (select (is_overdue now) timeout_first limit db.attempts)

abbrev pub has_expired : ℕ → ℕ → Lease → Bool
has_expired now i l = lease_active l.status && leb l.expires_at now

abbrev pub expiry_first : ℕ × Lease → ℕ × Lease → Bool
expiry_first (i, a) (k, b) = earlier a.expires_at i b.expires_at k

unfoldable pub expired_leases : ℕ → ℕ → Db → List ℕ
expired_leases limit now db = keys (select (has_expired now) expiry_first limit db.leases)

-- The transaction's own clock, its UUIDs and its jitter.
pub record ReconcileDraw (A : Type 0) : Type 0 where
  pub now : ℕ
  pub fresh : Fresh
  pub jitter : Option A

module _ (fl : Float64) (p : RetryPolicy fl) where
  open fl use {Carrier}

  abbrev pub timeout_candidate :
      ℕ → ReconcileDraw Carrier → Db → ReconcileStats → Result (Db × ReconcileStats)
  timeout_candidate id d db st = reconcile_due_timeout fl db p d.jitter id d.fresh d.now st

  abbrev pub expiry_candidate :
      ℕ → ReconcileDraw Carrier → Db → ReconcileStats → Result (Db × ReconcileStats)
  expiry_candidate id d db st = reconcile_expired_lease fl db p d.jitter id d.fresh d.now st

  -- ReconcileDueTimeouts
  unfoldable pub reconcile_due_timeouts :
      Scan (ReconcileDraw Carrier) → ℤ → Db → Pass ReconcileStats
  reconcile_due_timeouts w limit db = elim (positive limit) [
    | none ↦ refused db nothing
    | some n ↦
        for_each timeout_candidate w (overdue_attempts n w.scanned_at (w.before db)) (w.before db)
          nothing
  ]

  -- ReconcileExpiredLeases
  unfoldable pub reconcile_expired_leases :
      Scan (ReconcileDraw Carrier) → ℤ → Db → Pass ReconcileStats
  reconcile_expired_leases w limit db = elim (positive limit) [
    | none ↦ refused db nothing
    | some n ↦
        for_each expiry_candidate w (expired_leases n w.scanned_at (w.before db)) (w.before db)
          nothing
  ]

  -- RunOnce, its three scans in order.
  unfoldable pub run_reconciler :
      Scan ℕ
      → Scan (ReconcileDraw Carrier)
      → Scan (ReconcileDraw Carrier)
      → ℤ
      → ℤ
      → Db
      → Pass ReconcileStats
  run_reconciler first second third after batch_size db =
      let stale = mark_stale_sessions first after batch_size db in
      let so_far = record nothing { stale_sessions = stale.stats } in
      elim stale.error [
        | some e ↦ record { db = stale.db; stats = so_far; error = some e }
        | none ↦
            let timeouts = reconcile_due_timeouts second batch_size stale.db in
            let with_timeouts = add_repairs so_far timeouts.stats in
            elim timeouts.error [
              | some e ↦ record { db = timeouts.db; stats = with_timeouts; error = some e }
              | none ↦
                  let expired = reconcile_expired_leases third batch_size timeouts.db in
                  record expired { stats = add_repairs with_timeouts expired.stats }
            ]
      ]

-- Result.Changed
unfoldable pub reconciler_changed : ReconcileStats → Bool
reconciler_changed s =
    ltb 0 s.stale_sessions
    || ltb 0 s.expired_leases
    || ltb 0 s.timed_out_attempts
    || ltb 0 s.canceled_attempts
    || ltb 0 s.requeued_jobs
    || ltb 0 s.retry_waiting_jobs
    || ltb 0 s.dead_lettered_jobs
