-- ===== src/Examples/Requests.antt =====
-- Three jobs in pages of two, and two spellings of one request.
use task_forge.Base.{
  Text, ℕ, ◌+◌, ◌-◌, ◌≤◌, ◌≡◌, refl, arith, Bool, true, false, ◌||◌, pos, [], ◌∷◌, Option, none,
  some, text, text_eq, length, ok, ltb, if◌then◌else◌, map, trim_space,
}
use task_forge.Table.{find}
use task_forge.Table.Laws.{IsKeyed}
use task_forge.Table.Scan.{ordered, matching, insert_row}
use task_forge.Table.Page.{newest_first}
use task_forge.Lifecycle.{matches_token, is_token_head, is_token_tail, all_bytes}
use task_forge.Schema.{Db, Job, Status}
use task_forge.Auth.Key.{any_is}
use task_forge.Canonical.{add_name, text_lt}
use task_forge.Jobs.CanonicalJson.{
  Value, number, object, member, no_members, JsonCodec, canonical_json, write, write_members,
  write_rest, add_member,
}
use task_forge.Jobs.CanonicalJson.Laws.{Alike, same_object, exchanged}
use task_forge.Jobs.Submit.{NormalizedRequest}
use task_forge.Jobs.Normalize.{
  SubmitRequest, normalize, matches_job_type, capability_set, normalize_capabilities,
}
use task_forge.Jobs.Normalize.Laws.{asks_for, normalize-same}
use task_forge.Jobs.Fingerprint.{parts}
use task_forge.Jobs.Fingerprint.Laws.{hashed_inj}
use task_forge.Jobs.Listing.{
  Formats, JobFilter, valid_filter, listed, summary, created, list_jobs, status_name,
}
use task_forge.Jobs.Listing.Walk.{follow, list_jobs_walk}
use task_forge.Examples.{db0, scope}

abbrev first_or : ℕ → Text → ℕ
first_or d [] = d
first_or d (c ∷ s) = c

abbrev only_byte : ℕ → Text → Option ℕ
only_byte least [] = none
only_byte least (c ∷ s) = if ltb c least then none else some (c - least)

no_bar : (t : ℕ) → any_is 124 ((t + 125) ∷ []) ≡ false
unfolding any_is
no_bar t = ground arith

stamped : (t : ℕ) → only_byte 125 ((t + 125) ∷ []) ≡ some t
stamped t = ground arith

shown : (i : ℕ) → only_byte 0 (i ∷ []) ≡ some i
shown i = ground arith

abbrev formats : Formats
formats = record {
  encode = λ s. s;
  decode = some;
  stamp = λ t. (t + 125) ∷ [];
  parse_stamp = only_byte 125;
  show_id = λ i. i ∷ [];
  parse_id = only_byte 0;
  decodes = λ s. refl;
  parses_stamp = stamped;
  parses_id = shown;
  no_bar = no_bar;
  not_empty = λ s h. h;
}

abbrev job_at : ℕ → Job
job_at at = record {
  scope = scope;
  queue = text "q";
  job_type = text "t";
  payload = text "{}";
  status = Status.queued;
  priority = 50;
  max_attempts = 3;
  timeout_seconds = 300;
  required_capabilities = [];
  scheduled_at = none;
  available_at = at;
  cancel_requested_at = none;
  replayed_from_job_id = none;
  created_at = at;
  updated_at = at;
  notification_generation = 0;
  last_notification_at = none;
}

abbrev three_jobs : Db
three_jobs = record db0 { jobs = (1, job_at 7) ∷ (2, job_at 9) ∷ (3, job_at 7) ∷ [] }

abbrev all_jobs : JobFilter
all_jobs = record { status = []; queue = [] }

all_valid : valid_filter all_jobs ≡ true
unfolding valid_filter text_eq
all_valid = refl

jobs-IsKeyed : IsKeyed three_jobs.jobs
unfolding find
jobs-IsKeyed = (refl, (refl, (refl, tt)))

few_jobs :
    length (matching (listed scope all_jobs) (ordered (newest_first created) three_jobs.jobs)) ≤ 8
unfolding matching ordered insert_row listed text_eq status_name
few_jobs = omega arith

list_jobs_walk_example :
    follow 9 (list_jobs formats three_jobs scope all_jobs (pos 2)) []
    ≡ ok (map summary ((2, job_at 9) ∷ (3, job_at 7) ∷ (1, job_at 7) ∷ []))
unfolding matching ordered insert_row listed text_eq status_name
list_jobs_walk_example =
    list_jobs_walk formats three_jobs scope all_jobs (pos 2) 8 jobs-IsKeyed all_valid few_jobs

-- The members of two documents in their two orders.
abbrev document : Value
document =
    object
      (member (text "a") (number (text "1")) (member (text "b") (number (text "2")) no_members))

abbrev turned : Value
turned =
    object
      (member (text "b") (number (text "2")) (member (text "a") (number (text "1")) no_members))

abbrev json : JsonCodec
json = record {
  decode = λ s. if text_eq s (text "x") then some (document, false) else some (turned, false);
  quote = λ s. s;
}

abbrev submitted : SubmitRequest
submitted = record {
  queue = text "q";
  job_type = text "t";
  payload = text "x";
  priority = none;
  max_attempts = some (pos 5);
  timeout_seconds = none;
  scheduled_at = none;
  required_capabilities = text "a" ∷ text "b" ∷ [];
}

abbrev spelled : SubmitRequest
spelled = record submitted {
  queue = text " q ";
  payload = text "y";
  required_capabilities = text " b" ∷ text "a" ∷ text "b" ∷ [];
}

abbrev kept : NormalizedRequest
kept = record {
  queue = text "q";
  job_type = text "t";
  payload = text "{a:1,b:2}";
  priority = 50;
  max_attempts = 5;
  timeout_seconds = 300;
  required_capabilities = text "a" ∷ text "b" ∷ [];
  scheduled_at = none;
}

submitted-kept : normalize json (λ s. none) submitted ≡ ok kept
unfolding normalize trim_space text_eq matches_token matches_job_type is_token_head is_token_tail
    all_bytes canonical_json write write_members write_rest add_member text_lt capability_set
    normalize_capabilities add_name
submitted-kept = refl

spelled-kept : normalize json (λ s. none) spelled ≡ ok kept
unfolding normalize trim_space text_eq matches_token matches_job_type is_token_head is_token_tail
    all_bytes canonical_json write write_members write_rest add_member text_lt capability_set
    normalize_capabilities add_name
spelled-kept = refl

or_turned : (a b : Bool) → a || (b || false) ≡ b || (a || (b || false))
or_turned true true = refl
or_turned true false = refl
or_turned false true = refl
or_turned false false = refl

same_capabilities :
    (u : Text)
    → asks_for u submitted.required_capabilities ≡ asks_for u spelled.required_capabilities
unfolding trim_space
same_capabilities u = or_turned (text_eq (text "a") u) (text_eq (text "b") u)

documents-Alike : Alike document turned
unfolding text_eq
documents-Alike = same_object (exchanged refl)

queues_same : trim_space submitted.queue ≡ trim_space spelled.queue
unfolding trim_space
queues_same = refl

decoded_document : json.decode submitted.payload ≡ some (document, false)
unfolding text_eq
decoded_document = refl

decoded_turned : json.decode spelled.payload ≡ some (turned, false)
unfolding text_eq
decoded_turned = refl

normalize-same_example : kept ≡ kept
normalize-same_example =
    normalize-same json (λ s. none) submitted spelled kept kept document turned submitted-kept
      spelled-kept queues_same refl refl refl refl refl decoded_document decoded_turned
      documents-Alike same_capabilities

abbrev byte : ℕ → Text
byte n = n ∷ []

byte_inj : (a b : ℕ) → byte a ≡ byte b → a ≡ b
byte_inj a b h = cc h

hashed_inj_example : kept ≡ kept
unfolding parts
hashed_inj_example =
    hashed_inj byte byte byte_inj byte_inj kept kept
      (
        omega arith,
        (
          omega arith,
          (
            omega arith,
            (
              omega arith,
              (
                omega arith,
                (omega arith, (omega arith, (omega arith, (omega arith, (omega arith, tt))))),
              ),
            ),
          ),
        ),
      )
      (
        omega arith,
        (
          omega arith,
          (
            omega arith,
            (
              omega arith,
              (
                omega arith,
                (omega arith, (omega arith, (omega arith, (omega arith, (omega arith, tt))))),
              ),
            ),
          ),
        ),
      )
      refl
