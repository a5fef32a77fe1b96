-- ===== src/Jobs/Normalize.antt =====
-- The validation of internal/jobs/submit.go: a request becomes the form that is stored. Only whether
-- there are problems is kept of the problems. `parse_instant` is time.Parse with RFC 3339.
pub mod Laws
use task_forge.Base.{
  Text, ℕ, Bool, true, false, not, ◌||◌, ◌&&◌, ℤ, pos, negsuc, List, [], ◌∷◌, Option, none, some,
  ltb, leb, ◌==◌, text_eq, if◌then◌else◌, length, trim_space, Result, ok, err, ◌>>=◌, ◌>>◌, guard,
  refuse, or_fail, validation_failed,
}
use task_forge.Canonical.{add_name}
use task_forge.Lifecycle.{matches_token, is_token_head, is_token_tail, all_bytes, is_empty}
use task_forge.Jobs.CanonicalJson.{JsonCodec, canonical_json}
use task_forge.Jobs.Submit.{NormalizedRequest}

pub record SubmitRequest : Type 0 where
  pub queue : Text
  pub job_type : Text
  pub payload : Text
  pub priority : Option ℤ
  pub max_attempts : Option ℤ
  pub timeout_seconds : Option ℤ
  pub scheduled_at : Option Text
  pub required_capabilities : List Text

-- ^[a-z0-9][a-z0-9._-]{0,127}$
unfoldable pub matches_job_type : Text → Bool
matches_job_type [] = false
matches_job_type (c ∷ s) = is_token_head c && all_bytes is_token_tail s && leb (length s) 127

abbrev in_range : ℕ → ℕ → ℤ → Option ℕ
in_range low high (pos n) = if ltb n low || ltb high n then none else some n
in_range low high (negsuc n) = none

-- A number that may be left out.
abbrev pub bounded_or : ℕ → ℕ → ℕ → Option ℤ → Option ℕ
bounded_or default low high none = some default
bounded_or default low high (some z) = in_range low high z

abbrev pub tokens : List Text → Bool
tokens [] = true
tokens (c ∷ cs) = matches_token (trim_space c) && tokens cs

unfoldable pub capability_set : List Text → List Text
capability_set [] = []
capability_set (c ∷ cs) = add_name (trim_space c) (capability_set cs)

-- normalizeCapabilities
unfoldable pub normalize_capabilities : List Text → Option (List Text)
unfolding capability_set
normalize_capabilities cs =
    if ltb 16 (length cs) then none else if tokens cs then some (capability_set cs) else none

-- The payload's first byte is `{`.
abbrev pub is_object : Text → Bool
is_object [] = false
is_object (c ∷ s) = c == 123

abbrev pub parsed_at : (Text → Option ℕ) → Option Text → Option (Option ℕ)
parsed_at parse_instant none = some none
parsed_at parse_instant (some s) = elim (parse_instant (trim_space s)) [
  | none ↦ none
  | some t ↦ some (some t)
]

-- Normalize
unfoldable pub normalize : JsonCodec → (Text → Option ℕ) → SubmitRequest → Result NormalizedRequest
normalize codec parse_instant r = do
  guard (matches_token (trim_space r.queue)) validation_failed
  guard (matches_job_type (trim_space r.job_type)) validation_failed
  refuse (is_empty r.payload) validation_failed
  payload ← or_fail (canonical_json codec r.payload) validation_failed
  guard (is_object payload) validation_failed
  priority ← or_fail (bounded_or 50 0 100 r.priority) validation_failed
  max_attempts ← or_fail (bounded_or 3 1 100 r.max_attempts) validation_failed
  timeout ← or_fail (bounded_or 300 1 86_400 r.timeout_seconds) validation_failed
  scheduled_at ← or_fail (parsed_at parse_instant r.scheduled_at) validation_failed
  capabilities ← or_fail (normalize_capabilities r.required_capabilities) validation_failed
  ok (record {
    queue = trim_space r.queue;
    job_type = trim_space r.job_type;
    payload = payload;
    priority = priority;
    max_attempts = max_attempts;
    timeout_seconds = timeout;
    required_capabilities = capabilities;
    scheduled_at = scheduled_at;
  })

abbrev printable : Text → Bool
printable [] = true
printable (c ∷ s) = not (ltb c 32 || c == 127) && printable s

-- ValidateIdempotencyKey. A byte of a longer UTF-8 sequence is above 127.
unfoldable pub valid_idempotency_key : Text → Bool
valid_idempotency_key key =
    not (is_empty (trim_space key)) && not (ltb 255 (length key)) && printable key
