-- ===== src/Quota/Requests.antt =====
-- Requests, refusals, leases and the identity checks of provider_quota.py.
use finite_agent_physics.Prelude.{
  ℕ, suc, String, Bool, true, false, not, ◌||◌, ◌&&◌, Option, none, some, List, [], ◌∷◌, Dict,
  lookup, is_blank, is_some, ltb, leb, ◌==◌, ◌=ˢ◌, if◌then◌else◌, Result, ok, err,
}
use finite_agent_physics.Quota.Buckets.{QuotaError, value_error, RetryPolicy}

pub record CallRequest : Type 0 where
  pub logical_id : String
  pub attempt : ℕ
  pub estimated_tokens : ℕ
  pub previous_attempt_id : Option String
  pub deadline_ms : Option ℕ

abbrev names_blank : Option String → Bool
names_blank none = false
names_blank (some s) = is_blank s

-- `__post_init__`
unfoldable pub new_request : CallRequest → Result QuotaError CallRequest
new_request c =
    if is_blank c.logical_id
      || c.estimated_tokens == 0
      || names_blank c.previous_attempt_id
      || (c.attempt == 0 && is_some c.previous_attempt_id)
      || (ltb 0 c.attempt && not (is_some c.previous_attempt_id))
    then err value_error
    else ok c

pub data RefusalReason : Type 0 where
  provider_reset retry_backoff retry_exhausted deadline identity terminal : RefusalReason
  provider_rpm provider_tpm provider_concurrency : RefusalReason
  global_rpm global_tpm global_concurrency : RefusalReason

-- `_LogicalState`
pub record LogicalState : Type 0 where
  pub last_attempt : ℕ
  pub last_attempt_id : String
  pub deadline_ms : Option ℕ
  pub retryable : Bool
  pub next_retry_at_ms : Option ℕ
  pub is_terminal : Bool

abbrev pub same_number : Option ℕ → Option ℕ → Bool
same_number none none = true
same_number (some a) (some b) = a == b
same_number _ _ = false

abbrev pub same_name : Option String → String → Bool
same_name none t = false
same_name (some s) t = s =ˢ t

-- The first reason of a list of tests, in the order of the tests.
abbrev pub first_reason : List (Bool × RefusalReason) → List RefusalReason
first_reason [] = []
first_reason ((c, r) ∷ rs) = if c then r ∷ [] else first_reason rs

unfoldable pub initial_reasons : Option LogicalState → List RefusalReason
initial_reasons none = []
initial_reasons (some s) =
    (if s.is_terminal then RefusalReason.terminal else RefusalReason.identity) ∷ []

unfoldable pub retry_reasons : RetryPolicy → CallRequest → Option LogicalState → List RefusalReason
retry_reasons policy c none = RefusalReason.identity ∷ []
retry_reasons policy c (some s) = first_reason (
    (leb policy.max_attempts c.attempt, RefusalReason.retry_exhausted)
    ∷ (s.is_terminal, RefusalReason.terminal)
    ∷ (not s.retryable, RefusalReason.identity)
    ∷ (not (c.attempt == suc s.last_attempt), RefusalReason.identity)
    ∷ (not (same_name c.previous_attempt_id s.last_attempt_id), RefusalReason.identity)
    ∷ (
      is_some c.deadline_ms && not (same_number c.deadline_ms s.deadline_ms),
      RefusalReason.identity,
    )
    ∷ [])

-- `_identity_reasons`
unfoldable pub identity_reasons : RetryPolicy → Dict LogicalState → CallRequest → List RefusalReason
unfolding initial_reasons retry_reasons
identity_reasons policy logical c =
    if c.attempt == 0
    then initial_reasons (lookup c.logical_id logical)
    else retry_reasons policy c (lookup c.logical_id logical)
