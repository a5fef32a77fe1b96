-- ===== src/Jobs/Fingerprint.antt =====
-- NormalizedRequest.Fingerprint of internal/jobs/submit.go: what is hashed. SHA-256 is a parameter, as
-- are strconv.Itoa and the format of an instant.
pub mod Laws
use task_forge.Base.{Text, ℕ, ◌/◌, ◌%◌, List, [], ◌∷◌, ◌++◌, Option, none, some, text, length}
use task_forge.Jobs.Submit.{NormalizedRequest}

-- binary.BigEndian.PutUint64
unfoldable pub put_uint64 : ℕ → Text
put_uint64 n =
    n / 72_057_594_037_927_936 % 256
    ∷ n / 281_474_976_710_656 % 256
    ∷ n / 1_099_511_627_776 % 256
    ∷ n / 4_294_967_296 % 256
    ∷ n / 16_777_216 % 256
    ∷ n / 65_536 % 256
    ∷ n / 256 % 256
    ∷ n % 256
    ∷ []

-- `write`, of one part after another: its length in eight bytes, and its bytes.
unfoldable pub framed : List Text → Text
framed [] = []
framed (b ∷ bs) = put_uint64 (length b) ++ (b ++ framed bs)

abbrev pub fingerprint_version : Text
fingerprint_version = text "taskforge.fingerprint.v1"

abbrev pub scheduled_at_tag : Text
scheduled_at_tag = text "taskforge.fingerprint.scheduled_at"

module _ (itoa stamp : ℕ → Text) where
  abbrev pub scheduled_parts : Option ℕ → List Text
  scheduled_parts none = []
  scheduled_parts (some t) = scheduled_at_tag ∷ stamp t ∷ []

  unfoldable pub parts : NormalizedRequest → List Text
  parts n =
      fingerprint_version
      ∷ n.queue
      ∷ n.job_type
      ∷ n.payload
      ∷ itoa n.priority
      ∷ itoa n.max_attempts
      ∷ itoa n.timeout_seconds
      ∷ itoa (length n.required_capabilities)
      ∷ (n.required_capabilities ++ scheduled_parts n.scheduled_at)

  unfoldable pub hashed : NormalizedRequest → Text
  unfolding framed parts
  hashed n = framed (parts n)

  -- Fingerprint
  unfoldable pub fingerprint : (Text → Text) → NormalizedRequest → Text
  fingerprint sha256_hex n = sha256_hex (hashed n)
