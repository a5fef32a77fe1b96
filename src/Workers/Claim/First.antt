-- ===== src/Workers/Claim/First.antt =====
-- The job that a claim answers with is the first that it may take.
use task_forge.Base.{ℕ, ◌≤◌, ◌<◌, ◌≡◌, ◌⊎◌, Bool, false, some}
use task_forge.Table.{find, count}
use task_forge.Schema.{Db, Job, Status}
use task_forge.Workers.{ClaimResult, Assignment}
use task_forge.Workers.Claim.{attempts_of}

-- The order of docs/ARCHITECTURE.md: the higher priority, then the earlier availability, then the
-- earlier creation, then the smaller id.
abbrev pub ComesFirst : ℕ × Job → ℕ × Job → Type 0
ComesFirst (i, a) (k, b) =
    (b.priority < a.priority)
    ⊎ ((b.priority ≡ a.priority)
        × ((a.available_at < b.available_at)
            ⊎ ((a.available_at ≡ b.available_at)
                × ((a.created_at < b.created_at) ⊎ ((a.created_at ≡ b.created_at) × (i ≤ k))))))

-- A job that the claim may take: queued, due, within its budget, and of a row that nobody holds.
abbrev pub IsTakeable : Db → (ℕ → Bool) → ℕ → ℕ → Job → Type 0
IsTakeable db locked now i j =
    (j.status ≡ Status.queued)
    × (j.available_at ≤ now)
    × (count (attempts_of i) db.attempts < j.max_attempts)
    × (locked i ≡ false)

-- A new claim's answer names a job that may be taken, and that comes first.
abbrev pub IsFirst : Db → (ℕ → Bool) → ℕ → ClaimResult → ℕ → Job → Type 0
IsFirst db locked now c k b =
    (a : Assignment) × (j : Job) × (c.assignment ≡ some a)
    × (find a.job_id db.jobs ≡ some j)
    × IsTakeable db locked now a.job_id j
    × ComesFirst (a.job_id, j) (k, b)
