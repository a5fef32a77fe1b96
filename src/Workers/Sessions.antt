-- ===== src/Workers/Sessions.antt =====
-- internal/workers/store.go Register, heartbeat.go Heartbeat and reconcile.go markSessionStale:
-- the life of a worker's session. Each writes the tables of workers and sessions only. A heartbeat's
-- list of cancellations is left out.
pub mod Laws
use task_forge.Base.{
  Text, text_eq, ℕ, ◌+◌, ◌==◌, Bool, true, false, not, ◌&&◌, ◌||◌, Option, none, some, List, [],
  ◌∷◌, ltb, if◌then◌else◌, Result, ok, err, ◌>>=◌, ◌>>◌, guard, or_fail, session_conflict,
  database_error, session_unavailable, validation_failed,
}
use task_forge.Table.{Table, find, put, insert, update, find_if, find_where}
use task_forge.Schema.{Db, Worker, Session, SessionStatus, session_healthy, session_current}
use task_forge.Workers.Authority.{names_session}

-- A registration that NormalizeRegistration returned.
pub record Registration : Type 0 where
  pub session_id : ℕ
  pub name : Text
  pub hostname : Text
  pub worker_group : Text
  pub concurrency_limit : ℕ
  pub capabilities : List Text
  pub supported_job_types : List Text
  pub worker_key_id : Option ℕ

-- slices.Equal
unfoldable pub texts_eq : List Text → List Text → Bool
texts_eq [] [] = true
texts_eq [] (y ∷ ys) = false
texts_eq (x ∷ xs) [] = false
texts_eq (x ∷ xs) (y ∷ ys) = text_eq x y && texts_eq xs ys

-- sameRegistration, of the session behind the registration's id.
unfoldable pub same_registration : Session → ℕ → Registration → Bool
same_registration s worker_id r =
    s.worker_id == worker_id
    && text_eq s.name r.name
    && text_eq s.hostname r.hostname
    && text_eq s.worker_group r.worker_group
    && s.concurrency_limit == r.concurrency_limit
    && texts_eq s.capabilities r.capabilities
    && texts_eq s.supported_job_types r.supported_job_types

abbrev names_worker : Text → Text → Worker → Bool
names_worker scope name w = text_eq w.scope scope && text_eq w.name name

-- The id of the logical worker, and the table with it: INSERT ... ON CONFLICT ... RETURNING id.
abbrev upserted : Option (ℕ × Worker) → ℕ → Worker → Table Worker → Result (ℕ × Table Worker)
upserted (some (k, _)) fresh w t = ok (k, t)
upserted none fresh w t = do t' ← or_fail (insert fresh w t) database_error; ok (fresh, t')

unfoldable pub upsert_worker : Db → Text → Text → ℕ → Result (ℕ × Table Worker)
upsert_worker db scope name fresh =
    upserted (find_where (names_worker scope name) db.workers) fresh
      (record { scope = scope; name = name }) db.workers

abbrev pub current_of : ℕ → Session → Bool
current_of worker_id s = s.worker_id == worker_id && session_current s.status

abbrev pub end_session : SessionStatus → ℕ → Session → Session
end_session status now s = record s { status = status; ended_at = some now }

-- UPDATE worker_sessions ... WHERE worker_id = $1 AND status IN (...)
unfoldable pub fence_sessions : ℕ → ℕ → Table Session → Table Session
fence_sessions worker_id now [] = []
fence_sessions worker_id now ((k, s) ∷ t) =
    (k, if current_of worker_id s then end_session SessionStatus.offline now s else s)
    ∷ fence_sessions worker_id now t

unfoldable pub new_session : Text → ℕ → Registration → ℕ → Session
new_session scope worker_id r now = record {
  worker_id = worker_id;
  scope = scope;
  name = r.name;
  hostname = r.hostname;
  worker_group = r.worker_group;
  concurrency_limit = r.concurrency_limit;
  capabilities = r.capabilities;
  supported_job_types = r.supported_job_types;
  status = SessionStatus.healthy;
  registered_at = now;
  last_heartbeat_at = now;
  ended_at = none;
  worker_key_id = r.worker_key_id;
}

unfoldable pub register_session :
    Db → Text → Registration → ℕ × Table Worker → ℕ → Option Session → Result (Db × Session)
unfolding new_session
register_session db scope r (worker_id, workers) now (some s) = do
  guard (same_registration s worker_id r) session_conflict
  guard (session_healthy s.status) session_unavailable
  ok (db, s)
register_session db scope r (worker_id, workers) now none = do
  let s = new_session scope worker_id r now
  sessions ←
      or_fail (insert r.session_id s (fence_sessions worker_id now db.sessions)) session_conflict
  ok (record db { workers = workers; sessions = sessions }, s)

-- Register. `fresh` is the UUID for a worker that is new; the session that replaces a current
-- one of the worker ends it.
unfoldable pub register : Db → Text → Registration → ℕ → ℕ → Result (Db × Session)
register db scope r fresh now = do
  w ← upsert_worker db scope r.name fresh
  register_session db scope r w now (find r.session_id db.sessions)

abbrev pub latest : ℕ → ℕ → ℕ
latest a b = if ltb a b then b else a

abbrev pub beat : ℕ → Session → Session
beat now s = record s { last_heartbeat_at = latest s.last_heartbeat_at now }

-- Heartbeat, with the time that it accepted.
unfoldable pub heartbeat : Db → Text → ℕ → ℕ → ℕ → Result (Db × ℕ)
heartbeat db scope worker_id session_id now = do
  guard (not (worker_id == 0) && not (session_id == 0)) validation_failed
  s ← or_fail (find_if session_id (names_session scope worker_id) db.sessions) session_unavailable
  guard (session_healthy s.status) session_unavailable
  sessions ←
      or_fail (update session_id (λ (s : Session). session_healthy s.status) (beat now) db.sessions)
        session_unavailable
  ok (record db { sessions = sessions }, latest s.last_heartbeat_at now)

abbrev pub marked : Db → Option (Table Session) → Db × Bool
marked db none = (db, false)
marked db (some sessions) = (record db { sessions = sessions }, true)

unfoldable pub mark_found : Db → ℕ → ℕ → ℕ → Option Session → Db × Bool
mark_found db session_id stale_after now none = (db, false)
mark_found db session_id stale_after now (some s) =
    if not (session_current s.status) || not (ltb (s.last_heartbeat_at + stale_after) now)
    then (db, false)
    else marked db (
        update session_id (λ (s : Session). session_current s.status)
          (end_session SessionStatus.unhealthy now) db.sessions)

-- markSessionStale: whether the session was marked.
unfoldable pub mark_session_stale : Db → ℕ → ℕ → ℕ → Db × Bool
mark_session_stale db session_id stale_after now =
    mark_found db session_id stale_after now (find session_id db.sessions)
