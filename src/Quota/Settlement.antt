-- ===== src/Quota/Settlement.antt =====
-- The ends of a call in provider_quota.py: `_settle_active`, `complete`, `fail_retryable` and
-- `provider_429`.
use finite_agent_physics.Prelude.{
  ℕ, suc, ◌+◌, ◌-◌, max, String, true, not, Option, none, some, lookup, insert, erase, is_some, ltb,
  leb, ◌==◌, if◌then◌else◌, Result, ok, err, lift, pure, raise, gets, modify, ◌>>=◌, ◌>>◌,
}
use finite_agent_physics.Quota.Buckets.{
  QuotaError, value_error, settlement_error, key_error, RetryPolicy, refund_if_current, backoff_for,
}
use finite_agent_physics.Quota.Requests.{LogicalState}
use finite_agent_physics.Quota.State.{
  ActiveLease, Settlement, SettlementDetails, RetryDirective, QuotaDetails, QuotaSnapshot,
  ProviderQuotaPhysics, Quota, refreshed_all, emit_with, at_provider_tpm, at_global_tpm,
}

-- The counters fall by one; Python's would go below zero where these stop.
unfoldable pub release : String → ProviderQuotaPhysics → ProviderQuotaPhysics
release lease_id q = record q {
  provider_active = q.provider_active - 1;
  global_active = q.global_active - 1;
  active = erase lease_id q.active;
}

unfoldable pub settle_within : String → ℕ → ActiveLease → Quota Settlement
unfolding release refund_if_current
settle_within lease_id actual_tokens a = do
  modify refreshed_all
  provider_refunded ←
      at_provider_tpm
        (refund_if_current (a.reserved_tokens - actual_tokens) a.provider_tpm_window_start_ms)
  global_refunded ←
      at_global_tpm
        (refund_if_current (a.reserved_tokens - actual_tokens) a.global_tpm_window_start_ms)
  modify (release lease_id)
  pure (record {
    active = a;
    provider_refunded_tokens = provider_refunded;
    global_refunded_tokens = global_refunded;
  })

unfoldable pub refuse_settlement : ℕ → ActiveLease → Quota Settlement
unfolding emit_with
refuse_settlement actual_tokens a = do
  emit_with (QuotaDetails.settlement_refused a actual_tokens)
  raise settlement_error

unfoldable pub settle_found : String → ℕ → Option ActiveLease → Quota Settlement
unfolding settle_within refuse_settlement
settle_found lease_id actual_tokens none = raise settlement_error
settle_found lease_id actual_tokens (some a) =
    if ltb a.reserved_tokens actual_tokens
    then refuse_settlement actual_tokens a
    else settle_within lease_id actual_tokens a

-- `_settle_active`
unfoldable pub settle_active : String → ℕ → Quota Settlement
unfolding settle_found
settle_active lease_id actual_tokens = do
  a ← gets (λ q. lookup lease_id q.active)
  settle_found lease_id actual_tokens a

unfoldable pub present : Option LogicalState → Quota LogicalState
present none = raise key_error
present (some s) = pure s

-- `self._logical[...]`, and a change of what is found there.
unfoldable pub logical_state : String → Quota LogicalState
unfolding present
logical_state k = do s ← gets (λ q. lookup k q.logical); present s

abbrev pub set_logical : String → LogicalState → Quota (Unit {0})
set_logical k s = modify (λ q. record q { logical = insert k s q.logical })

abbrev pub settlement_details : String → ℕ → Settlement → SettlementDetails
settlement_details lease_id actual_tokens s = record {
  lease_id = lease_id;
  settlement = s;
  actual_tokens = actual_tokens;
  unused_tokens = s.active.reserved_tokens - actual_tokens;
}

unfoldable pub complete : String → ℕ → Quota (Unit {0})
unfolding settle_active logical_state emit_with
complete lease_id actual_tokens = do
  s ← settle_active lease_id actual_tokens
  l ← logical_state s.active.lease.logical_id
  set_logical s.active.lease.logical_id (record l { is_terminal = true })
  emit_with (QuotaDetails.call_succeeded (settlement_details lease_id actual_tokens s))

-- A retry time, if the deadline allows it.
abbrev pub within_deadline : Option ℕ → ℕ → Option ℕ
within_deadline none t = some t
within_deadline (some d) t = if leb t d then some t else none

-- The time of the next attempt: not before `earliest` and not before the backoff, if an attempt is
-- left and the deadline allows it.
unfoldable pub retry_time : RetryPolicy → ℕ → ℕ → ℕ → Option ℕ → Result QuotaError (Option ℕ)
retry_time policy now earliest next_attempt deadline =
    if ltb next_attempt policy.max_attempts
    then elim (backoff_for policy next_attempt) [
      | ok delay ↦ ok (within_deadline deadline (max (now + delay) earliest))
      | err e ↦ err e
    ]
    else ok none

abbrev pub after_failure : Option ℕ → LogicalState → LogicalState
after_failure retry_at l = record l {
  retryable = is_some retry_at;
  next_retry_at_ms = retry_at;
  is_terminal = not (is_some retry_at);
}

-- The end that a failure and a 429 share: the retry is scheduled and announced.
unfoldable pub schedule_retry :
    Settlement
    → (earliest : ℕ) → (reset_at_ms : Option ℕ) → (Option ℕ → QuotaSnapshot → QuotaDetails)
    → Quota RetryDirective
unfolding logical_state retry_time emit_with
schedule_retry s earliest reset_at_ms details = do
  l ← logical_state s.active.lease.logical_id
  q ← gets (λ q. q)
  retry_at ←
      lift (retry_time q.retry_policy q.now_ms earliest (suc s.active.lease.attempt) l.deadline_ms)
  set_logical s.active.lease.logical_id (after_failure retry_at l)
  emit_with (details retry_at)
  pure (record {
    attempt_id = s.active.lease.attempt_id;
    retry_at_ms = retry_at;
    reset_at_ms = reset_at_ms;
    remaining_attempts = q.retry_policy.max_attempts - suc s.active.lease.attempt;
  })

unfoldable pub fail_retryable : String → ℕ → Quota RetryDirective
unfolding settle_active schedule_retry
fail_retryable lease_id actual_tokens = do
  s ← settle_active lease_id actual_tokens
  schedule_retry s 0 none (QuotaDetails.call_failed (settlement_details lease_id actual_tokens s))

-- The reset time of a 429: exactly one of a delay and a time is given.
unfoldable pub effective_reset : Option ℕ → Option ℕ → ℕ → Result QuotaError ℕ
effective_reset none none now = err value_error
effective_reset (some d) (some t) now = err value_error
effective_reset (some d) none now = if d == 0 then err value_error else ok (now + d)
effective_reset none (some t) now = if leb t now then err value_error else ok t

unfoldable pub after_429 : String → ℕ → ℕ → Settlement → Quota RetryDirective
unfolding schedule_retry
after_429 lease_id actual_tokens reset s = do
  modify (λ q. record q { provider_reset_until_ms = max q.provider_reset_until_ms reset })
  until ← gets (λ q. q.provider_reset_until_ms)
  schedule_retry s until (some until)
      (QuotaDetails.provider_429 (settlement_details lease_id actual_tokens s) until)

unfoldable pub provider_429 : String → ℕ → Option ℕ → Option ℕ → Quota RetryDirective
unfolding effective_reset settle_active after_429
provider_429 lease_id actual_tokens reset_after_ms reset_at_ms = do
  now ← gets (λ q. q.now_ms)
  reset ← lift (effective_reset reset_after_ms reset_at_ms now)
  s ← settle_active lease_id actual_tokens
  after_429 lease_id actual_tokens reset s
