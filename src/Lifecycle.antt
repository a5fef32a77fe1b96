-- ===== src/Lifecycle.antt =====
-- internal/lifecycle/lifecycle.go: how an attempt's failure is classified, why a job is
-- dead-lettered, and the bounds on stored failure detail.
pub mod Retry
pub mod Dlq
use task_forge.Base.{
  Text, text, Bool, true, false, List, [], ◌∷◌, ◌&&◌, ◌||◌, not, ltb, leb, ◌==◌, if◌then◌else◌,
  length, ◌+◌, ◌*◌, ◌-◌, ℕ,
}

pub data FailureClass : Type 0 where
  retryable permanent timed_out canceled abandoned : FailureClass

pub data DlqReason : Type 0 where
  permanent_failure attempts_exhausted : DlqReason

-- A handler may declare these two classes only.
abbrev pub reportable_by_handler : FailureClass → Bool
reportable_by_handler FailureClass.retryable = true
reportable_by_handler FailureClass.permanent = true
reportable_by_handler _ = false

abbrev pub retries_under_policy : FailureClass → Bool
retries_under_policy FailureClass.retryable = true
retries_under_policy FailureClass.timed_out = true
retries_under_policy _ = false

abbrev pub same_class : FailureClass → FailureClass → Bool
same_class FailureClass.retryable FailureClass.retryable = true
same_class FailureClass.permanent FailureClass.permanent = true
same_class FailureClass.timed_out FailureClass.timed_out = true
same_class FailureClass.canceled FailureClass.canceled = true
same_class FailureClass.abandoned FailureClass.abandoned = true
same_class _ _ = false

abbrev pub max_error_code_bytes : ℕ
max_error_code_bytes = 64

abbrev pub max_error_message_bytes : ℕ
max_error_message_bytes = 512

abbrev pub code_handler_error : Text
code_handler_error = text "handler_error"

abbrev pub code_timeout : Text
code_timeout = text "attempt_timeout"

abbrev pub code_canceled : Text
code_canceled = text "canceled"

abbrev pub code_abandoned : Text
code_abandoned = text "attempt_abandoned"

abbrev pub message_timeout : Text
message_timeout = text "the attempt exceeded its per-attempt execution deadline"

abbrev pub message_canceled : Text
message_canceled = text "the job was canceled"

abbrev pub message_abandoned : Text
message_abandoned = text "the worker lost authority without reporting an outcome"

-- [a-z0-9]
unfoldable pub is_token_head : ℕ → Bool
is_token_head c = (leb b'a' c && leb c b'z') || (leb b'0' c && leb c b'9')

-- [a-z0-9_.-]
unfoldable pub is_token_tail : ℕ → Bool
unfolding is_token_head
is_token_tail c = is_token_head c || c == b'_' || c == b'.' || c == b'-'

unfoldable pub all_bytes : (ℕ → Bool) → Text → Bool
all_bytes p [] = true
all_bytes p (c ∷ cs) = p c && all_bytes p cs

-- ^[a-z0-9][a-z0-9_.-]{0,63}$
unfoldable pub matches_token : Text → Bool
matches_token [] = false
matches_token (c ∷ cs) = is_token_head c && all_bytes is_token_tail cs && leb (length cs) 63

abbrev pub is_empty : Text → Bool
is_empty [] = true
is_empty (_ ∷ _) = false

-- ValidateErrorCode: true where it returns nil.
unfoldable pub valid_error_code : Text → Bool
valid_error_code code =
    not (is_empty code) && not (ltb max_error_code_bytes (length code)) && matches_token code

-- unicode.IsControl over a Go string: below 0x20, 0x7f, or U+0080 to U+009F, whose encodings are
-- 0xC2 and one byte from 0x80 to 0x9F. The byte 0xC2 stands at the start of a rune only.
unfoldable pub has_control : Text → Bool
has_control [] = false
has_control (c ∷ []) = ltb c 0x20 || c == 0x7f
has_control (c ∷ d ∷ cs) =
    ltb c 0x20 || c == 0x7f || (c == 0xc2 && leb 0x80 d && leb d 0x9f) || has_control (d ∷ cs)

-- ValidateErrorMessage: true where it returns nil. A line break is a control character.
unfoldable pub valid_error_message : Text → Bool
valid_error_message message =
    not (ltb max_error_message_bytes (length message)) && not (has_control message)
