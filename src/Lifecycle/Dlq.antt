-- ===== src/Lifecycle/Dlq.antt =====
-- internal/lifecycle/dlq.go: the one statement by which a job enters the dead-letter queue.
use task_forge.Base.{
  none, some, ◌≡◌, or_fail_ok, refuse_ok, arith, Text, ℕ, ◌==◌, Option, Result, ok, ◌>>=◌, ◌>>◌,
  or_fail, refuse, invalid_argument, dlq_entry_exists,
}
use task_forge.Table.Laws.{insert_ok}
use task_forge.Table.{find, put, insert, any}
use task_forge.Schema.{Db, DlqEntry}
use task_forge.Lifecycle.{DlqReason}

abbrev pub new_entry : Text → Text → ℕ → Option ℕ → DlqReason → ℕ → DlqEntry
new_entry scope queue job_id terminal_attempt_id reason created_at = record {
  scope = scope;
  queue = queue;
  job_id = job_id;
  terminal_attempt_id = terminal_attempt_id;
  reason = reason;
  created_at = created_at;
}

-- InsertDLQEntryTx. `none` is the empty reason, which `reason.Valid()` refuses. Every unique
-- violation, of the key or of `job_id`, is ErrDLQEntryExists.
unfoldable pub insert_dlq_entry :
    ℕ → Text → Text → ℕ → Option ℕ → Option DlqReason → ℕ → Db → Result Db
insert_dlq_entry id scope queue job_id terminal_attempt_id reason created_at db = do
  why ← or_fail reason invalid_argument
  refuse (any (λ (e : DlqEntry). e.job_id == job_id) db.dlq) dlq_entry_exists
  dlq ←
      or_fail (insert id (new_entry scope queue job_id terminal_attempt_id why created_at) db.dlq)
        dlq_entry_exists
  ok (record db { dlq = dlq })

pub insert_dlq_entry-eq-ok :
    (id : ℕ) (scope queue : Text) (i : ℕ) (attempt : Option ℕ) (reason : Option DlqReason) (now : ℕ)
    (db : Db) {db' : Db}
    → insert_dlq_entry id scope queue i attempt reason now db ≡ ok db'
    → (why : DlqReason) × (reason ≡ some why)
      × (find id db.dlq ≡ none)
      × (db' ≡ record db { dlq = put id (new_entry scope queue i attempt why now) db.dlq })
unfolding insert_dlq_entry
insert_dlq_entry-eq-ok id scope queue i attempt reason now db h =
    or_fail_ok reason _ _ h λ why given rest.
      refuse_ok (any (λ (e : DlqEntry). e.job_id == i) db.dlq) _ _ rest λ _ rest'.
        insert_ok id (new_entry scope queue i attempt why now) db.dlq _ _ rest'
          λ free done. (why, given, free, ground arith)
