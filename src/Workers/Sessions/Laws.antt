-- ===== src/Workers/Sessions/Laws.antt =====
-- A session's operations: which tables they write, and what a heartbeat and a registration do.
use task_forge.Base.{
  Text, ℕ, ◌+◌, ◌≤◌, ◌≡◌, refl, sym, arith, true, false, ◌==◌, ◌&&◌, ◌||◌, not, Option, none, some,
  [], ◌∷◌, ltb, ok, guard_ok, bind_ok, state-eq, Bool-cases, inl, inr,
}
use task_forge.Table.{Table, find, put}
use task_forge.Table.Laws.{find-put, find-put_self, insert_ok, update_ok, find_if_ok}
use task_forge.Schema.{Db, Worker, Session, session_healthy, session_current}
use task_forge.Workers.Authority.{names_session}
use task_forge.Workers.Sessions.{
  Registration, register, register_session, upsert_worker, same_registration, fence_sessions,
  new_session, heartbeat, beat, mark_session_stale, mark_found, marked, current_of,
}

-- Only the tables of workers and sessions differ.
abbrev pub SameButSessions : Db → Db → Type 0
SameButSessions db db' =
    (ws : Table Worker) × (ss : Table Session) × (db' ≡ record db { workers = ws; sessions = ss })

register_session-SameButSessions :
    (db : Db) (scope : Text) (r : Registration) (w : ℕ × Table Worker) (now : ℕ)
    (o : Option Session) (v : Db × Session)
    → register_session db scope r w now o ≡ ok v
    → SameButSessions db v.0
unfolding register_session
register_session-SameButSessions db scope r (i, ws) now (some s) v h =
    guard_ok (same_registration s i r) _ _ h λ _ h1.
      guard_ok (session_healthy s.status) _ _ h1
        λ _ last. (db.workers, db.sessions, sym (state-eq v last))
register_session-SameButSessions db scope r (i, ws) now none v h =
    insert_ok r.session_id (new_session scope i r now) (fence_sessions i now db.sessions) _ _ h
      λ _ last. (ws, _, sym (state-eq v last))

pub register-SameButSessions :
    (db : Db) (scope : Text) (r : Registration) (fresh now : ℕ) (v : Db × Session)
    → register db scope r fresh now ≡ ok v
    → SameButSessions db v.0
unfolding register
register-SameButSessions db scope r fresh now v h =
    bind_ok (upsert_worker db scope r.name fresh) _ h λ w _ last.
      register_session-SameButSessions db scope r w now (find r.session_id db.sessions) v last

pub heartbeat-SameButSessions :
    (db : Db) (scope : Text) (worker_id session_id now : ℕ) (v : Db × ℕ)
    → heartbeat db scope worker_id session_id now ≡ ok v
    → SameButSessions db v.0
unfolding heartbeat
heartbeat-SameButSessions db scope worker_id session_id now v h =
    guard_ok (not (worker_id == 0) && not (session_id == 0)) _ _ h λ _ h1.
      find_if_ok session_id (names_session scope worker_id) db.sessions _ _ h1 λ s _ _ h2.
        guard_ok (session_healthy s.status) _ _ h2 λ _ h3.
          update_ok session_id (λ (s : Session). session_healthy s.status) (beat now) db.sessions _
            _ h3 λ _ _ _ last. (db.workers, _, sym (state-eq v last))

marked-SameButSessions : (db : Db) (o : Option (Table Session)) → SameButSessions db (marked db o).0
marked-SameButSessions db none = (db.workers, db.sessions, refl)
marked-SameButSessions db (some t) = (db.workers, t, refl)

mark_found-SameButSessions :
    (db : Db) (session_id stale_after now : ℕ) (o : Option Session)
    → SameButSessions db (mark_found db session_id stale_after now o).0
unfolding mark_found
mark_found-SameButSessions db session_id stale_after now none = (db.workers, db.sessions, refl)
mark_found-SameButSessions db session_id stale_after now (some s) =
    elim (Bool-cases
      (not (session_current s.status) || not (ltb (s.last_heartbeat_at + stale_after) now))) [
        | inl stays ↦ rw stays (db.workers, db.sessions, refl)
        | inr goes ↦ rw goes (marked-SameButSessions db _)
      ]

pub mark_session_stale-SameButSessions :
    (db : Db) (session_id stale_after now : ℕ)
    → SameButSessions db (mark_session_stale db session_id stale_after now).0
unfolding mark_session_stale
mark_session_stale-SameButSessions db session_id stale_after now =
    mark_found-SameButSessions db session_id stale_after now (find session_id db.sessions)

-- A heartbeat that is accepted is of a session that is healthy before it and after it: it revives
-- none. The stored time of the session never goes back, is not before the heartbeat's, and is the
-- one that is returned.
pub heartbeat_lem :
    (db : Db) (scope : Text) (worker_id session_id now : ℕ) (v : Db × ℕ)
    → heartbeat db scope worker_id session_id now ≡ ok v
    → (s s' : Session) × (find session_id db.sessions ≡ some s)
      × (find session_id v.0.sessions ≡ some s')
      × (session_healthy s.status ≡ true)
      × (s'.status ≡ s.status)
      × (s.last_heartbeat_at ≤ s'.last_heartbeat_at)
      × (now ≤ s'.last_heartbeat_at)
      × (v.1 ≡ s'.last_heartbeat_at)
unfolding heartbeat
heartbeat_lem db scope worker_id session_id now v h =
    guard_ok (not (worker_id == 0) && not (session_id == 0)) _ _ h λ _ h1.
      find_if_ok session_id (names_session scope worker_id) db.sessions _ _ h1 λ s fs _ h2.
        guard_ok (session_healthy s.status) _ _ h2 λ healthy h3.
          update_ok session_id (λ (s : Session). session_healthy s.status) (beat now) db.sessions _
            _ h3
            λ k fk _ last.
              let same : s ≡ k = cc (fs, fk) in
              let at : v.0 ≡ record db { sessions = put session_id (beat now k) db.sessions } =
                sym (state-eq v last) in
              (
                s,
                beat now k,
                fs,
                rw at (find-put_self session_id (beat now k) db.sessions),
                healthy,
                rw same refl,
                ground (arith, same),
                ground arith,
                ground (arith, same, last),
              )

find-fence_sessions :
    (worker_id now k : ℕ) (t : Table Session) (s : Session)
    → find k (fence_sessions worker_id now t) ≡ some s
    → current_of worker_id s ≡ false
unfolding find fence_sessions
find-fence_sessions worker_id now k [] s h = cc
find-fence_sessions worker_id now k ((i, b) ∷ t) s h =
    ground (arith, find-fence_sessions worker_id now k t s)

new_session_fences :
    (db : Db) (scope : Text) (r : Registration) (i : ℕ) (ws : Table Worker) (now : ℕ)
    (v : Db × Session) (k : ℕ) (s : Session)
    → register_session db scope r (i, ws) now none ≡ ok v
    → find k v.0.sessions ≡ some s
    → s.worker_id ≡ v.1.worker_id
    → session_current s.status ≡ true
    → k ≡ r.session_id
unfolding register_session new_session
new_session_fences db scope r i ws now v k s h found mine current =
    let n = new_session scope i r now in
    insert_ok r.session_id n (fence_sessions i now db.sessions) _ _ h λ _ last.
      let table : v.0.sessions ≡ put r.session_id n (fence_sessions i now db.sessions) =
        ground (arith, last) in
      let worker : v.1.worker_id ≡ i = ground (arith, last) in
      let law = find-put r.session_id k n (fence_sessions i now db.sessions) in
      let found' = rw table at found in
      elim (Bool-cases (r.session_id == k)) [
        | inl same ↦ ground (arith, same)
        | inr other ↦
            let old : find k (fence_sessions i now db.sessions) ≡ some s =
              ground (arith, other, law, found') in
            let ended = find-fence_sessions i now k db.sessions s old in
            ground (arith, ended, current, mine, worker)
      ]

-- A registration that opens a new session leaves its worker with that one current session: every
-- other session of the worker has ended.
pub register_fences :
    (db : Db) (scope : Text) (r : Registration) (fresh now : ℕ) (v : Db × Session) (k : ℕ)
    (s : Session)
    → register db scope r fresh now ≡ ok v
    → find r.session_id db.sessions ≡ none
    → find k v.0.sessions ≡ some s
    → s.worker_id ≡ v.1.worker_id
    → session_current s.status ≡ true
    → k ≡ r.session_id
unfolding register
register_fences db scope r fresh now v k s h new found mine current =
    bind_ok (upsert_worker db scope r.name fresh) _ h λ w _ last.
      new_session_fences db scope r w.0 w.1 now v k s (rw new at last) found mine current
