-- ===== src/Jobs/Listing.antt =====
-- internal/jobs/list.go and the listing of internal/jobs/dlq.go: pages of jobs and of dead-letter
-- entries, with their cursors. Base64, and the formats of instants and UUIDs, are Go's.
pub mod Walk
use task_forge.Base.{
  Text, ℕ, ◌+◌, Bool, true, false, not, ◌||◌, ◌&&◌, ℤ, List, [], ◌∷◌, ◌++◌, map, Option, none, some,
  ◌==◌, ltb, text, text_eq, if◌then◌else◌, length, is_some, Result, ok, err, ◌>>=◌, ◌>>◌, guard,
  or_fail, validation_failed, ◌≡◌, bit,
}
use task_forge.Table.{Table, find, count}
use task_forge.Table.Page.{Position, bound_page, page}
use task_forge.Lifecycle.{matches_token, FailureClass, DlqReason}
use task_forge.Schema.{Db, Job, Attempt, AttemptStatus, DlqEntry, DlqReplay, Status, is_terminal}
use task_forge.Auth.Key.{any_is, cut}

-- The formats of encoding/base64, time.RFC3339Nano and uuid.UUID.
pub record Formats : Type 0 where
  pub encode : Text → Text
  pub decode : Text → Option Text
  pub stamp : ℕ → Text
  pub parse_stamp : Text → Option ℕ
  pub show_id : ℕ → Text
  pub parse_id : Text → Option ℕ
  pub decodes : (s : Text) → decode (encode s) ≡ some s
  pub parses_stamp : (t : ℕ) → parse_stamp (stamp t) ≡ some t
  pub parses_id : (i : ℕ) → parse_id (show_id i) ≡ some i
  -- No instant is written with the byte of `|`.
  pub no_bar : (t : ℕ) → any_is 124 (stamp t) ≡ false
  -- Nothing that has a byte is encoded as the empty text.
  pub not_empty : (s : Text) → text_eq s [] ≡ false → text_eq (encode s) [] ≡ false

-- AllStatuses
abbrev pub all_statuses : List Status
all_statuses =
    Status.pending ∷ Status.queued ∷ Status.leased ∷ Status.running ∷ Status.retry_wait
    ∷ Status.cancel_requested ∷ Status.succeeded ∷ Status.canceled ∷ Status.dead_lettered ∷ []

-- Status.String
unfoldable pub status_name : Status → Text
status_name Status.pending = text "PENDING"
status_name Status.queued = text "QUEUED"
status_name Status.leased = text "LEASED"
status_name Status.running = text "RUNNING"
status_name Status.retry_wait = text "RETRY_WAIT"
status_name Status.cancel_requested = text "CANCEL_REQUESTED"
status_name Status.succeeded = text "SUCCEEDED"
status_name Status.canceled = text "CANCELED"
status_name Status.dead_lettered = text "DEAD_LETTERED"

abbrev named_in : List Status → Text → Bool
named_in [] name = false
named_in (s ∷ ss) name = text_eq name (status_name s) || named_in ss name

-- Status.Valid
unfoldable pub valid_status : Text → Bool
unfolding status_name
valid_status name = named_in all_statuses name

abbrev non_terminal : List Status → List Status
non_terminal [] = []
non_terminal (s ∷ ss) = if is_terminal s then non_terminal ss else s ∷ non_terminal ss

-- NonTerminalStatuses
abbrev pub non_terminal_statuses : List Status
non_terminal_statuses = non_terminal all_statuses

-- JobFilter; an empty text does not narrow.
pub record JobFilter : Type 0 where
  pub status : Text
  pub queue : Text

-- JobFilter.Validate
unfoldable pub valid_filter : JobFilter → Bool
valid_filter f =
    (text_eq f.status [] || valid_status f.status) && (text_eq f.queue [] || matches_token f.queue)

-- The rows of `WHERE scope = $1 AND ...`.
unfoldable pub listed : Text → JobFilter → ℕ → Job → Bool
unfolding status_name
listed scope f i j =
    text_eq j.scope scope
    && (text_eq f.status [] || text_eq (status_name j.status) f.status)
    && (text_eq f.queue [] || text_eq j.queue f.queue)

-- JobSummary: a job without its payload.
pub record JobSummary : Type 0 where
  pub id : ℕ
  pub queue : Text
  pub job_type : Text
  pub status : Status
  pub priority : ℕ
  pub max_attempts : ℕ
  pub timeout_seconds : ℕ
  pub required_capabilities : List Text
  pub scheduled_at : Option ℕ
  pub available_at : ℕ
  pub cancel_requested_at : Option ℕ
  pub replayed_from_job_id : Option ℕ
  pub created_at : ℕ
  pub updated_at : ℕ

abbrev pub summary : ℕ × Job → JobSummary
summary (i, j) = record {
  id = i;
  queue = j.queue;
  job_type = j.job_type;
  status = j.status;
  priority = j.priority;
  max_attempts = j.max_attempts;
  timeout_seconds = j.timeout_seconds;
  required_capabilities = j.required_capabilities;
  scheduled_at = j.scheduled_at;
  available_at = j.available_at;
  cancel_requested_at = j.cancel_requested_at;
  replayed_from_job_id = j.replayed_from_job_id;
  created_at = j.created_at;
  updated_at = j.updated_at;
}

abbrev pub created : Job → ℕ
created j = j.created_at

-- The joined columns of a dead-letter entry.
pub record DlqSummary : Type 0 where
  pub id : ℕ
  pub job_id : ℕ
  pub queue : Text
  pub reason : DlqReason
  pub created_at : ℕ
  pub terminal_attempt_id : Option ℕ
  pub job : Option Job
  pub attempt : Option Attempt
  pub replay_count : ℕ

abbrev replays_of : ℕ → List DlqReplay → ℕ
replays_of i [] = 0
replays_of i (r ∷ rs) = bit (r.original_job_id == i) + replays_of i rs

abbrev attempt_at : Option ℕ → Db → Option Attempt
attempt_at none db = none
attempt_at (some a) db = find a db.attempts

unfoldable pub dlq_summary : Db → ℕ × DlqEntry → DlqSummary
dlq_summary db (i, e) = record {
  id = i;
  job_id = e.job_id;
  queue = e.queue;
  reason = e.reason;
  created_at = e.created_at;
  terminal_attempt_id = e.terminal_attempt_id;
  job = find e.job_id db.jobs;
  attempt = attempt_at e.terminal_attempt_id db;
  replay_count = replays_of e.job_id db.replays;
}

-- `WHERE d.scope = $1`, of the entries whose job the join finds.
abbrev pub buried_in : Db → Text → ℕ → DlqEntry → Bool
buried_in db scope i e = text_eq e.scope scope && is_some (find e.job_id db.jobs)

abbrev pub buried_at : DlqEntry → ℕ
buried_at e = e.created_at

module _ (fm : Formats) where
  open fm use {encode, decode, stamp, parse_stamp, show_id, parse_id}

  -- EncodeJobCursor and EncodeDLQCursor; no cursor is the empty text.
  unfoldable pub encode_cursor : Option Position → Text
  encode_cursor none = []
  encode_cursor (some (at, id)) = encode (stamp at ++ (124 ∷ show_id id))

  abbrev pub decoded : Text → Option (Option Position)
  decoded cursor = elim (decode cursor) [
    | none ↦ none
    | some raw ↦ elim (cut 124 raw) [
      | none ↦ none
      | some parts ↦ elim (parse_stamp parts.0) [
        | none ↦ none
        | some at ↦ elim (parse_id parts.1) [ none ↦ none | some id ↦ some (some (at, id)) ]
      ]
    ]
  ]

  -- decodeJobCursor and decodeDLQCursor, of a cursor that is not empty.
  unfoldable pub decode_cursor : Text → Option (Option Position)
  decode_cursor cursor = if text_eq cursor [] then some none else decoded cursor

  -- ListJobs
  unfoldable pub list_jobs : Db → Text → JobFilter → ℤ → Text → Result (List JobSummary × Text)
  list_jobs db scope f limit cursor = do
    guard (valid_filter f) validation_failed
    c ← or_fail (decode_cursor cursor) validation_failed
    let r = page created (listed scope f) c (bound_page 25 100 limit) db.jobs
    ok (map summary r.0, encode_cursor r.1)

  -- ListDLQ
  unfoldable pub list_dlq : Db → Text → ℤ → Text → Result (List DlqSummary × Text)
  unfolding dlq_summary
  list_dlq db scope limit cursor = do
    c ← or_fail (decode_cursor cursor) validation_failed
    let r = page buried_at (buried_in db scope) c (bound_page 25 100 limit) db.dlq
    ok (map (dlq_summary db) r.0, encode_cursor r.1)
