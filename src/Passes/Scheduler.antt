-- ===== src/Passes/Scheduler.antt =====
-- internal/jobs/schedule.go and internal/scheduler/scheduler.go: one pass of the scheduler.
use task_forge.Base.{
  ℕ, ◌+◌, Bool, true, false, ◌&&◌, ◌||◌, ℤ, Option, none, some, List, ltb, leb, Result, ok, ◌>>=◌,
}
use task_forge.Table.Scan.{keys, select}
use task_forge.Schema.{Db, Job, is_waiting, is_queued}
use task_forge.Jobs.Schedule.{
  SchedulerStats, ScheduleDraw, promote_due_job, renotify_stranded_job, older_than,
}
use task_forge.Passes.{Scan, Pass, refused, positive, earlier, for_each}

abbrev pub no_stats : SchedulerStats
no_stats = record { promoted_jobs = 0; renotified = 0; skipped = 0 }

-- SchedulerStats.Add
unfoldable pub add_stats : SchedulerStats → SchedulerStats → SchedulerStats
add_stats s other = record {
  promoted_jobs = s.promoted_jobs + other.promoted_jobs;
  renotified = s.renotified + other.renotified;
  skipped = s.skipped + other.skipped;
}

abbrev pub available_first : ℕ × Job → ℕ × Job → Bool
available_first (i, a) (k, b) = earlier a.available_at i b.available_at k

abbrev pub is_due : ℕ → ℕ → Job → Bool
is_due now i j = is_waiting j.status && leb j.available_at now

unfoldable pub due_jobs : ℕ → ℕ → Db → List ℕ
due_jobs limit now db = keys (select (is_due now) available_first limit db.jobs)

abbrev count_promoted : Bool → SchedulerStats → SchedulerStats
count_promoted true s = record s { promoted_jobs = s.promoted_jobs + 1 }
count_promoted false s = record s { skipped = s.skipped + 1 }

unfoldable pub promote_candidate :
    ℕ → ScheduleDraw → Db → SchedulerStats → Result (Db × SchedulerStats)
promote_candidate id draw db s = do r ← promote_due_job db id draw; ok (r.0, count_promoted r.1 s)

-- PromoteDueJobs
unfoldable pub promote_due_jobs : Scan ScheduleDraw → ℤ → Db → Pass SchedulerStats
promote_due_jobs w limit db = elim (positive limit) [
  | none ↦ refused db no_stats
  | some n ↦
      for_each promote_candidate w (due_jobs n w.scanned_at (w.before db)) (w.before db) no_stats
]

abbrev pub notified_at : Job → ℕ
notified_at j = elim j.last_notification_at [ none ↦ 0 | some t ↦ t ]

abbrev pub notified_first : ℕ × Job → ℕ × Job → Bool
notified_first (i, a) (k, b) = earlier (notified_at a) i (notified_at b) k

abbrev pub is_stranded : ℕ → ℕ → ℕ → Job → Bool
is_stranded after now i j = is_queued j.status && older_than after now j.last_notification_at

unfoldable pub stranded_jobs : ℕ → ℕ → ℕ → Db → List ℕ
stranded_jobs after limit now db =
    keys (select (is_stranded after now) notified_first limit db.jobs)

abbrev count_renotified : Bool → SchedulerStats → SchedulerStats
count_renotified true s = record s { renotified = s.renotified + 1 }
count_renotified false s = record s { skipped = s.skipped + 1 }

unfoldable pub renotify_candidate :
    ℕ → ℕ → ScheduleDraw → Db → SchedulerStats → Result (Db × SchedulerStats)
renotify_candidate after id draw db s = do
  r ← renotify_stranded_job db id after draw
  ok (r.0, count_renotified r.1 s)

abbrev pub renotify_after : Scan ScheduleDraw → Option ℕ → Option ℕ → Db → Pass SchedulerStats
renotify_after w none limit db = refused db no_stats
renotify_after w (some after) none db = refused db no_stats
renotify_after w (some after) (some n) db =
    for_each (renotify_candidate after) w (stranded_jobs after n w.scanned_at (w.before db))
      (w.before db) no_stats

-- RenotifyStrandedQueued
unfoldable pub renotify_stranded_queued : Scan ScheduleDraw → ℤ → ℤ → Db → Pass SchedulerStats
renotify_stranded_queued w after limit db = renotify_after w (positive after) (positive limit) db

-- RunOnce, its two scans in order.
unfoldable pub run_scheduler :
    Scan ScheduleDraw → Scan ScheduleDraw → ℤ → ℤ → Db → Pass SchedulerStats
run_scheduler first second batch_size after db =
    let promoted = promote_due_jobs first batch_size db in
    elim promoted.error [
      | some e ↦ record promoted { stats = add_stats no_stats promoted.stats }
      | none ↦
          let renotified = renotify_stranded_queued second after batch_size promoted.db in
          record renotified {
            stats = add_stats (add_stats no_stats promoted.stats) renotified.stats;
          }
    ]

-- Result.Changed
unfoldable pub scheduler_changed : SchedulerStats → Bool
scheduler_changed s = ltb 0 s.promoted_jobs || ltb 0 s.renotified
