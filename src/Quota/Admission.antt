-- ===== src/Quota/Admission.antt =====
-- `ProviderQuotaPhysics.acquire`: the reasons of a refusal, and the reservation of a call.
use finite_agent_physics.Prelude.{
  ℕ, suc, String, Bool, false, ◌||◌, Option, none, some, List, [], ◌∷◌, lookup, insert, contains,
  elem, selected, ltb, leb, if◌then◌else◌, pure, gets, modify, raise_if, ◌>>=◌, ◌>>◌,
}
use finite_agent_physics.Quota.Buckets.{assertion_error, consume_units}
use finite_agent_physics.Quota.Requests.{CallRequest, RefusalReason, LogicalState, identity_reasons}
use finite_agent_physics.Quota.Identities.{Sha256, attempt_identity, lease_identity}
use finite_agent_physics.Quota.State.{
  QuotaLease, ActiveLease, AdmissionDecision, CallDetails, QuotaDetails, ProviderQuotaPhysics,
  Quota, refreshed_all, emit_with, at_provider_rpm, at_provider_tpm, at_global_rpm, at_global_tpm,
}

-- `now > deadline` and `now < time`, where there is one
abbrev pub is_past : Option ℕ → ℕ → Bool
is_past none now = false
is_past (some d) now = ltb d now

abbrev pub is_before : Option ℕ → ℕ → Bool
is_before none now = false
is_before (some t) now = ltb now t

abbrev pub effective_deadline : CallRequest → Option LogicalState → Option ℕ
effective_deadline c none = c.deadline_ms
effective_deadline c (some s) = s.deadline_ms

abbrev pub backoff_until : CallRequest → Option LogicalState → Option ℕ
backoff_until c none = none
backoff_until c (some s) = if ltb 0 c.attempt then s.next_retry_at_ms else none

abbrev pub capacity_tests : ProviderQuotaPhysics → ℕ → List (Bool × RefusalReason)
capacity_tests q tokens =
    (ltb q.provider_rpm.remaining 1, RefusalReason.provider_rpm)
    ∷ (ltb q.provider_tpm.remaining tokens, RefusalReason.provider_tpm)
    ∷ (leb q.provider_limits.concurrency q.provider_active, RefusalReason.provider_concurrency)
    ∷ (ltb q.global_rpm.remaining 1, RefusalReason.global_rpm)
    ∷ (ltb q.global_tpm.remaining tokens, RefusalReason.global_tpm)
    ∷ (leb q.global_limits.concurrency q.global_active, RefusalReason.global_concurrency)
    ∷ []

unfoldable pub capacity_reasons : ProviderQuotaPhysics → ℕ → List RefusalReason
unfolding selected
capacity_reasons q tokens = selected (capacity_tests q tokens)

-- The reasons after the identity checks, with the time of a retry.
unfoldable pub timed_reasons :
    ProviderQuotaPhysics → CallRequest → Option LogicalState → List RefusalReason × Option ℕ
timed_reasons q c s =
    if is_past (effective_deadline c s) q.now_ms
    then (RefusalReason.deadline ∷ [], none)
    else if ltb q.now_ms q.provider_reset_until_ms
    then (RefusalReason.provider_reset ∷ [], some q.provider_reset_until_ms)
    else if is_before (backoff_until c s) q.now_ms
    then (RefusalReason.retry_backoff ∷ [], backoff_until c s)
    else (capacity_reasons q c.estimated_tokens, none)

unfoldable pub reasons_after :
    ProviderQuotaPhysics → CallRequest → List RefusalReason → List RefusalReason × Option ℕ
unfolding timed_reasons
reasons_after q c [] = timed_reasons q c (lookup c.logical_id q.logical)
reasons_after q c (r ∷ rs) = (r ∷ rs, none)

unfoldable pub admission_reasons :
    ProviderQuotaPhysics → CallRequest → List RefusalReason × Option ℕ
unfolding reasons_after
admission_reasons q c = reasons_after q c (identity_reasons q.retry_policy q.logical c)

module _ (h : Sha256) where
  abbrev pub attempt_id_of : ProviderQuotaPhysics → CallRequest → String
  attempt_id_of q c = attempt_identity h q.provider_id c.logical_id c.attempt

  abbrev pub lease_id_of : ProviderQuotaPhysics → CallRequest → String
  lease_id_of q c = lease_identity h (attempt_id_of q c)

  abbrev pub call_details : ProviderQuotaPhysics → CallRequest → CallDetails
  call_details q c = record {
    logical_id = c.logical_id;
    attempt = c.attempt;
    attempt_id = attempt_id_of q c;
    previous_attempt_id = c.previous_attempt_id;
    estimated_tokens = c.estimated_tokens;
    deadline_ms = effective_deadline c (lookup c.logical_id q.logical);
    requested_deadline_ms = c.deadline_ms;
  }

  unfoldable pub refuse : CallRequest → List RefusalReason → Option ℕ → Quota AdmissionDecision
  unfolding emit_with
  refuse c reasons retry_at = do
    q ← gets (λ q. q)
    emit_with (QuotaDetails.admission_refused (call_details q c) reasons retry_at)
    pure (record {
      admitted = none;
      attempt_id = attempt_id_of q c;
      reasons = reasons;
      retry_at_ms = retry_at;
    })

  -- One request, its tokens, and one place of each kind.
  unfoldable pub reserve_units : ℕ → Quota (Unit {0})
  unfolding consume_units
  reserve_units tokens = do
    at_provider_rpm (consume_units 1)
    at_provider_tpm (consume_units tokens)
    at_global_rpm (consume_units 1)
    at_global_tpm (consume_units tokens)
    modify (λ q. record q {
      provider_active = suc q.provider_active;
      global_active = suc q.global_active;
    })

  abbrev pub lease_for : ProviderQuotaPhysics → CallRequest → QuotaLease
  lease_for q c = record {
    provider_id = q.provider_id;
    logical_id = c.logical_id;
    attempt = c.attempt;
    attempt_id = attempt_id_of q c;
    lease_id = lease_id_of q c;
    token_cap = c.estimated_tokens;
    admitted_at_ms = q.now_ms;
    deadline_ms = effective_deadline c (lookup c.logical_id q.logical);
  }

  abbrev pub logical_after : ProviderQuotaPhysics → CallRequest → LogicalState
  logical_after q c = record {
    last_attempt = c.attempt;
    last_attempt_id = attempt_id_of q c;
    deadline_ms = effective_deadline c (lookup c.logical_id q.logical);
    retryable = false;
    next_retry_at_ms = none;
    is_terminal = false;
  }

  abbrev pub active_lease_for : ProviderQuotaPhysics → CallRequest → ActiveLease
  active_lease_for q c = record {
    lease = lease_for q c;
    reserved_tokens = c.estimated_tokens;
    provider_tpm_window_start_ms = q.provider_tpm.last_refill_ms;
    global_tpm_window_start_ms = q.global_tpm.last_refill_ms;
  }

  -- The tables after an admission.
  unfoldable pub with_lease : CallRequest → ProviderQuotaPhysics → ProviderQuotaPhysics
  with_lease c q = record q {
    active = insert (lease_id_of q c) (active_lease_for q c) q.active;
    admitted_attempt_ids = attempt_id_of q c ∷ q.admitted_attempt_ids;
    logical = insert c.logical_id (logical_after q c) q.logical;
  }

  unfoldable pub collides : CallRequest → ProviderQuotaPhysics → Bool
  collides c q =
      elem (attempt_id_of q c) q.admitted_attempt_ids || contains (lease_id_of q c) q.active

  unfoldable pub admit : CallRequest → Quota AdmissionDecision
  unfolding reserve_units collides with_lease emit_with
  admit c = do
    q ← gets (λ q. q)
    reserve_units c.estimated_tokens
    collision ← gets (collides c)
    raise_if collision assertion_error
    modify (with_lease c)
    emit_with (QuotaDetails.call_admitted (call_details q c) (lease_id_of q c))
    pure (record {
      admitted = some (lease_for q c);
      attempt_id = attempt_id_of q c;
      reasons = [];
      retry_at_ms = none;
    })

  unfoldable pub decide_admission :
      CallRequest → List RefusalReason × Option ℕ → Quota AdmissionDecision
  unfolding refuse admit
  decide_admission c ([], retry_at) = admit c
  decide_admission c (r ∷ rs, retry_at) = refuse c (r ∷ rs) retry_at

  unfoldable pub acquire : CallRequest → Quota AdmissionDecision
  unfolding decide_admission admission_reasons
  acquire c = do
    modify refreshed_all
    reasons ← gets (λ q. admission_reasons q c)
    decide_admission c reasons
