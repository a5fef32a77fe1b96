-- ===== src/Worker/Renewal.antt =====
-- internal/worker/renewal.go, with executionBudget and parseRenewal of internal/worker/client.go: the
-- loop that keeps a running attempt's lease alive, and stops the handler when it can no longer tell.
-- The clock's readings, the UUIDs and the answers are inputs.
pub mod Authority
use task_forge.Base.{
  Text, ℕ, ◌+◌, ◌-◌, ◌*◌, ◌/◌, Bool, true, false, not, ◌||◌, Option, none, some, ltb, ◌==◌, text,
  text_eq, Error, if◌then◌else◌,
}
use task_forge.Schema.{second, millisecond}
use task_forge.Workers.{Fence, RenewalRequest, RenewalResult}

-- An error of a control-plane call: one of the stores' sentinels, a RemoteError, or any
-- other, which is a fault of the transport.
pub data CallError : Type 0 where
  sentinel : Error → CallError
  remote : (status : ℕ) → Text → CallError
  transport : CallError

pub data Answer : Type 0 where
  granted : RenewalResult → Answer
  failed : CallError → Answer

abbrev lost_sentinel : Error → Bool
lost_sentinel Error.session_unavailable = true
lost_sentinel Error.fence_rejected = true
lost_sentinel Error.lease_expired = true
lost_sentinel Error.renewal_conflict = true
lost_sentinel Error.state_conflict = true
lost_sentinel _ = false

abbrev lost_code : Text → Bool
lost_code c =
    text_eq c (text "worker_session_unavailable")
    || text_eq c (text "fence_rejected")
    || text_eq c (text "lease_expired")
    || text_eq c (text "renewal_conflict")
    || text_eq c (text "state_conflict")

-- isAuthorityLost
unfoldable pub is_authority_lost : CallError → Bool
is_authority_lost (sentinel e) = lost_sentinel e
is_authority_lost (remote status c) = lost_code c
is_authority_lost transport = false

abbrev session_sentinel : Error → Bool
session_sentinel Error.session_unavailable = true
session_sentinel Error.fence_rejected = true
session_sentinel _ = false

-- isSessionLost, which escalateSessionLoss asks.
unfoldable pub is_session_lost : CallError → Bool
is_session_lost (sentinel e) = session_sentinel e
is_session_lost (remote status c) =
    text_eq c (text "worker_session_unavailable") || text_eq c (text "fence_rejected")
is_session_lost transport = false

-- executionBudget
unfoldable pub execution_budget : ℕ → ℕ
execution_budget remaining =
    let margin = remaining / 10 in remaining - (if ltb second margin then second else margin)

-- The remaining time as the response carries it, in whole milliseconds.
abbrev pub in_millis : ℕ → ℕ
in_millis remaining = remaining / millisecond * millisecond

-- parseRenewal: the response to a request, checked against it.
unfoldable pub parse_renewal : RenewalRequest → RenewalResult → Answer
parse_renewal q r =
    if not (r.lease_id == q.fence.lease_id)
    then failed transport
    else if not (r.renewal_version == q.expected_version + 1)
    then failed transport
    else if r.expires_at == 0
    then failed transport
    else granted (record r { remaining = in_millis r.remaining })

-- How the loop stands. A loss of the session is fatal to the process.
pub data Fate : Type 0 where
  running stopped : Fate
  lost : (fatal : Bool) → Fate

pub record Loop : Type 0 where
  pub deadline : ℕ
  pub version : ℕ
  -- The identity and the expected version of a request whose answer is not known.
  pub pending : Option (ℕ × ℕ)
  pub fate : Fate

-- startRenewal
abbrev pub start_loop : ℕ → Loop
start_loop deadline = record {
  deadline = deadline;
  version = 0;
  pending = none;
  fate = Fate.running;
}

-- What one turn of the loop meets, in the order of time: its readings of the clock, and the rest.
pub record Turn : Type 0 where
  pub woke_at : ℕ
  pub new_id : ℕ
  pub started_at : ℕ
  pub answer : Answer
  pub context_ended : Bool
  pub checked_at : ℕ
  pub rechecked_at : ℕ

abbrev pub requested : Loop → Turn → ℕ × ℕ
requested l t = elim l.pending [ none ↦ (t.new_id, l.version) | some p ↦ p ]

-- The request that a turn sends.
abbrev pub request : Fence → Loop → Turn → RenewalRequest
request f l t = record {
  fence = f;
  renewal_request_id = (requested l t).0;
  expected_version = (requested l t).1;
}

abbrev lose : Loop → Bool → Loop
lose l fatal = record l { fate = Fate.lost fatal }

abbrev pub answered : Loop → Turn → Answer → Loop
answered l t (failed e) =
    if is_authority_lost e
    then lose l (is_session_lost e)
    else if not (ltb t.checked_at l.deadline)
    then lose l false
    else record l { pending = some (requested l t) }
answered l t (granted r) =
    let until = t.started_at + execution_budget r.remaining in
    if not (ltb t.checked_at l.deadline) || not (ltb t.rechecked_at until)
    then lose l false
    else record {
      deadline = until;
      version = r.renewal_version;
      pending = none;
      fate = Fate.running;
    }

-- A turn that the ticker began.
unfoldable pub turn : Loop → Turn → Loop
unfolding is_authority_lost is_session_lost execution_budget
turn l t =
    if not (ltb t.woke_at l.deadline)
    then lose l false
    else if t.context_ended
    then record l { fate = Fate.stopped }
    else answered l t t.answer

-- The authority timer fired, or the loop was stopped.
abbrev pub timer_fired : Loop → Loop
timer_fired l = lose l false

abbrev pub stop_loop : Loop → Loop
stop_loop l = record l { fate = Fate.stopped }
