-- ===== src/Quota/Calls.antt =====
-- Sequences of calls of `ProviderQuotaPhysics`, with the clock that moves between them.
use finite_agent_physics.Prelude.{ℕ, String, Option, List, [], ◌∷◌, ◌+◌, modify, pure, ◌>>=◌}
use finite_agent_physics.Quota.Requests.{CallRequest}
use finite_agent_physics.Quota.Identities.{Sha256}
use finite_agent_physics.Quota.State.{ProviderQuotaPhysics, Quota, quota_snapshot}
use finite_agent_physics.Quota.Admission.{acquire}
use finite_agent_physics.Quota.Settlement.{complete, fail_retryable, provider_429}

pub data QuotaCall : Type 0 where
  advances : (delta_ms : ℕ) → QuotaCall
  snapshots : QuotaCall
  acquires : CallRequest → QuotaCall
  completes : (lease_id : String) → (actual_tokens : ℕ) → QuotaCall
  fails : (lease_id : String) → (actual_tokens : ℕ) → QuotaCall
  resets :
      (lease_id : String)
      → (actual_tokens : ℕ) → (reset_after_ms reset_at_ms : Option ℕ) → QuotaCall

abbrev pub discard : {A : Type 0} → Quota A → Quota (Unit {0})
discard m = m >>= λ a. pure tt

module _ (h : Sha256) where
  unfoldable pub call : QuotaCall → Quota (Unit {0})
  unfolding quota_snapshot acquire complete fail_retryable provider_429
  call (QuotaCall.advances delta_ms) = modify (λ q. record q { now_ms = q.now_ms + delta_ms })
  call QuotaCall.snapshots = discard quota_snapshot
  call (QuotaCall.acquires c) = discard (acquire h c)
  call (QuotaCall.completes k tokens) = complete k tokens
  call (QuotaCall.fails k tokens) = discard (fail_retryable k tokens)
  call (QuotaCall.resets k tokens after at) = discard (provider_429 k tokens after at)

  -- An error that a call raises is caught by its caller.
  unfoldable pub run : List QuotaCall → ProviderQuotaPhysics → ProviderQuotaPhysics
  unfolding call
  run [] q = q
  run (c ∷ cs) q = run cs (call c q).1
