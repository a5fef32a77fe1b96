-- ===== src/Worker/Registry.antt =====
-- internal/worker/cancellation.go: the attempts that a worker executes, and the cancellation
-- directives that reach them. Each operation holds the registry's mutex. A cancel function is a
-- number, and `signaled` is what was canceled so far.
pub mod Laws
use task_forge.Base.{
  ℕ, Bool, true, false, not, ◌||◌, Option, none, some, List, [], ◌∷◌, ◌==◌, if◌then◌else◌,
}
use task_forge.Table.{Table, find, put}
use task_forge.Workers.{Fence}

pub record Entry : Type 0 where
  pub fence : Fence
  pub cancel : Option ℕ
  pub canceled : Bool

pub record Directive : Type 0 where
  pub job_id : ℕ
  pub attempt_id : ℕ
  pub lease_id : ℕ

pub record Registry : Type 0 where
  pub entries : Table Entry
  pub signaled : List ℕ

-- newAttemptRegistry
abbrev pub empty_registry : Registry
empty_registry = record { entries = []; signaled = [] }

-- delete(entries, id)
unfoldable pub remove : ℕ → Table Entry → Table Entry
remove id [] = []
remove id ((k, e) ∷ t) = let rest = remove id t in if k == id then rest else (k, e) ∷ rest

-- register
unfoldable pub register : Registry → Fence → Registry
register r f = record r {
  entries = put f.attempt_id (record { fence = f; cancel = none; canceled = false }) r.entries;
}

abbrev pub bind_found : Registry → ℕ → ℕ → Option Entry → Registry
bind_found r id cancel none = r
bind_found r id cancel (some e) = record {
  entries = put id (record e { cancel = some cancel }) r.entries;
  signaled = if e.canceled then cancel ∷ r.signaled else r.signaled;
}

-- bind
unfoldable pub bind : Registry → ℕ → ℕ → Registry
bind r id cancel = bind_found r id cancel (find id r.entries)

-- unregister
unfoldable pub unregister : Registry → ℕ → Registry
unregister r id = record r { entries = remove id r.entries }

abbrev pub signal : Option ℕ → List ℕ → List ℕ
signal none s = s
signal (some cancel) s = cancel ∷ s

-- The directive names the lease and the job that the worker holds.
abbrev pub names : Directive → Entry → Bool
names d e = if e.fence.lease_id == d.lease_id then e.fence.job_id == d.job_id else false

abbrev pub deliver_found : Registry → Directive → Option Entry → Registry × Bool
deliver_found r d none = (r, false)
deliver_found r d (some e) = if not (names d e) then (r, false) else (
  record {
    entries = put d.attempt_id (record e { canceled = true }) r.entries;
    signaled = signal e.cancel r.signaled;
  },
  not e.canceled,
)

-- deliver
unfoldable pub deliver : Registry → Directive → Registry × Bool
deliver r d = deliver_found r d (find d.attempt_id r.entries)

-- wasCanceled
unfoldable pub was_canceled : Registry → ℕ → Bool
was_canceled r id = elim (find id r.entries) [ none ↦ false | some e ↦ e.canceled ]
