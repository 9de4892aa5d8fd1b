-- ===== src/Quota/State.antt =====
-- The state of `ProviderQuotaPhysics` of provider_quota.py, its events and results, and the steps
-- that its methods share.
use finite_agent_physics.Prelude.{
  ℕ, String, Option, List, [], ◌∷◌, ◌++◌, Dict, length, Result, ok, err, Action, gets, modify,
  ◌>>=◌, ◌>>◌, is_blank, if◌then◌else◌,
}
use finite_agent_physics.Quota.Buckets.{
  QuotaError, configuration_error, QuotaLimits, RetryPolicy, TokenBucket, new_bucket, Bucket,
  refreshed,
}
use finite_agent_physics.Quota.Requests.{RefusalReason, LogicalState}

pub record QuotaLease : Type 0 where
  pub provider_id : String
  pub logical_id : String
  pub attempt : ℕ
  pub attempt_id : String
  pub lease_id : String
  pub token_cap : ℕ
  pub admitted_at_ms : ℕ
  pub deadline_ms : Option ℕ

pub record ActiveLease : Type 0 where
  pub lease : QuotaLease
  pub reserved_tokens : ℕ
  pub provider_tpm_window_start_ms : ℕ
  pub global_tpm_window_start_ms : ℕ

pub record Settlement : Type 0 where
  pub active : ActiveLease
  pub provider_refunded_tokens : ℕ
  pub global_refunded_tokens : ℕ

pub record AdmissionDecision : Type 0 where
  pub admitted : Option QuotaLease
  pub attempt_id : String
  pub reasons : List RefusalReason
  pub retry_at_ms : Option ℕ

pub record RetryDirective : Type 0 where
  pub attempt_id : String
  pub retry_at_ms : Option ℕ
  pub reset_at_ms : Option ℕ
  pub remaining_attempts : ℕ

pub record QuotaSnapshot : Type 0 where
  pub at_ms : ℕ
  pub provider_rpm_remaining : ℕ
  pub provider_tpm_remaining : ℕ
  pub provider_active : ℕ
  pub global_rpm_remaining : ℕ
  pub global_tpm_remaining : ℕ
  pub global_active : ℕ
  pub provider_reset_until_ms : ℕ

-- What the events about a call name of it.
pub record CallDetails : Type 0 where
  pub logical_id : String
  pub attempt : ℕ
  pub attempt_id : String
  pub previous_attempt_id : Option String
  pub estimated_tokens : ℕ
  pub deadline_ms : Option ℕ
  pub requested_deadline_ms : Option ℕ

-- What the events about a settlement name of it; the unused tokens are the difference.
pub record SettlementDetails : Type 0 where
  pub lease_id : String
  pub settlement : Settlement
  pub actual_tokens : ℕ
  pub unused_tokens : ℕ

-- The kinds of events with their details; each but the first ends with a snapshot.
pub data QuotaDetails : Type 0 where
  configured : (provider_id : String) → QuotaLimits → QuotaLimits → RetryPolicy → QuotaDetails
  admission_refused : CallDetails → List RefusalReason → Option ℕ → QuotaSnapshot → QuotaDetails
  call_admitted : CallDetails → (lease_id : String) → QuotaSnapshot → QuotaDetails
  settlement_refused : ActiveLease → (actual_tokens : ℕ) → QuotaSnapshot → QuotaDetails
  call_succeeded : SettlementDetails → QuotaSnapshot → QuotaDetails
  call_failed : SettlementDetails → (next_retry_at_ms : Option ℕ) → QuotaSnapshot → QuotaDetails
  provider_429 :
      SettlementDetails
      → (reset_at_ms : ℕ) → (next_retry_at_ms : Option ℕ) → QuotaSnapshot
      → QuotaDetails

pub record QuotaEvent : Type 0 where
  pub sequence : ℕ
  pub at_ms : ℕ
  pub details : QuotaDetails

-- The time of the clock that the object shares is part of the state.
pub record ProviderQuotaPhysics : Type 0 where
  pub now_ms : ℕ
  pub provider_id : String
  pub provider_limits : QuotaLimits
  pub global_limits : QuotaLimits
  pub retry_policy : RetryPolicy
  pub provider_rpm : TokenBucket
  pub provider_tpm : TokenBucket
  pub global_rpm : TokenBucket
  pub global_tpm : TokenBucket
  pub provider_active : ℕ
  pub global_active : ℕ
  pub provider_reset_until_ms : ℕ
  pub events : List QuotaEvent
  pub logical : Dict LogicalState
  pub active : Dict ActiveLease
  pub admitted_attempt_ids : List String

abbrev pub Quota : Type 0 → Type 0
Quota A = Action ProviderQuotaPhysics QuotaError A

abbrev pub emit : QuotaDetails → Quota (Unit {0})
emit details = modify (λ q. record q {
  events =
      q.events ++ record { sequence = length q.events; at_ms = q.now_ms; details = details } ∷ [];
})

unfoldable pub new_physics :
    String → QuotaLimits → QuotaLimits → ℕ → RetryPolicy → Result QuotaError ProviderQuotaPhysics
unfolding new_bucket
new_physics provider_id provider_limits global_limits epoch retry_policy =
    if is_blank provider_id
    then err configuration_error
    else ok (record {
      now_ms = epoch;
      provider_id = provider_id;
      provider_limits = provider_limits;
      global_limits = global_limits;
      retry_policy = retry_policy;
      provider_rpm = new_bucket provider_limits.rpm provider_limits.window_ms epoch;
      provider_tpm = new_bucket provider_limits.tpm provider_limits.window_ms epoch;
      global_rpm = new_bucket global_limits.rpm global_limits.window_ms epoch;
      global_tpm = new_bucket global_limits.tpm global_limits.window_ms epoch;
      provider_active = 0;
      global_active = 0;
      provider_reset_until_ms = epoch;
      events =
          record {
            sequence = 0;
            at_ms = epoch;
            details =
                QuotaDetails.configured provider_id provider_limits global_limits retry_policy;
          }
          ∷ [];
      logical = [];
      active = [];
      admitted_attempt_ids = [];
    })

-- `_refresh`
unfoldable pub refreshed_all : ProviderQuotaPhysics → ProviderQuotaPhysics
refreshed_all q = record q {
  provider_rpm = refreshed q.now_ms q.provider_rpm;
  provider_tpm = refreshed q.now_ms q.provider_tpm;
  global_rpm = refreshed q.now_ms q.global_rpm;
  global_tpm = refreshed q.now_ms q.global_tpm;
}

abbrev pub snapshot_of : ProviderQuotaPhysics → QuotaSnapshot
snapshot_of q = record {
  at_ms = q.now_ms;
  provider_rpm_remaining = q.provider_rpm.remaining;
  provider_tpm_remaining = q.provider_tpm.remaining;
  provider_active = q.provider_active;
  global_rpm_remaining = q.global_rpm.remaining;
  global_tpm_remaining = q.global_tpm.remaining;
  global_active = q.global_active;
  provider_reset_until_ms = q.provider_reset_until_ms;
}

-- A snapshot refreshes the buckets first.
unfoldable pub quota_snapshot : Quota QuotaSnapshot
quota_snapshot = modify refreshed_all >> gets snapshot_of

-- An event whose details end with a snapshot.
unfoldable pub emit_with : (QuotaSnapshot → QuotaDetails) → Quota (Unit {0})
unfolding quota_snapshot
emit_with details = quota_snapshot >>= λ s. emit (details s)

-- A call of one of the four buckets.
abbrev pub put_bucket :
    {A : Type 0}
    → (TokenBucket → ProviderQuotaPhysics)
    → Result QuotaError A × TokenBucket
    → Result QuotaError A × ProviderQuotaPhysics
put_bucket put (r, t) = (r, put t)

abbrev pub at_provider_rpm : {A : Type 0} → Bucket A → Quota A
at_provider_rpm m q = put_bucket (λ t. record q { provider_rpm = t }) (m q.provider_rpm)

abbrev pub at_provider_tpm : {A : Type 0} → Bucket A → Quota A
at_provider_tpm m q = put_bucket (λ t. record q { provider_tpm = t }) (m q.provider_tpm)

abbrev pub at_global_rpm : {A : Type 0} → Bucket A → Quota A
at_global_rpm m q = put_bucket (λ t. record q { global_rpm = t }) (m q.global_rpm)

abbrev pub at_global_tpm : {A : Type 0} → Bucket A → Quota A
at_global_tpm m q = put_bucket (λ t. record q { global_tpm = t }) (m q.global_tpm)
