-- ===== src/Quota/Decisions.antt =====
-- What `acquire` returns, and what it changes of the tables.
use mathlib.Core.List.{Memᴰ}
use finite_agent_physics.Prelude.{
  ℕ, zero, suc, ◌+◌, ◌-◌, ◌*◌, ◌/◌, ltb, false, Bool-cases, inl, inr, arith, ◌≡◌, refl, ap, Option,
  none, some, List, [], ◌∷◌, insert, Result, ok,
}
use native.Mathlib.Nat.{div-zero, div-eq_of_lt, sub-add-eq, mod-eq-sub-div-mul, mod-lt}
use finite_agent_physics.Quota.Buckets.{QuotaError, TokenBucket, refreshed}
use finite_agent_physics.Quota.Requests.{CallRequest, RefusalReason}
use finite_agent_physics.Quota.Identities.{Sha256}
use finite_agent_physics.Quota.State.{
  AdmissionDecision, ProviderQuotaPhysics, refreshed_all, emit_with, quota_snapshot,
}
use finite_agent_physics.Quota.Admission.{
  admission_reasons, attempt_id_of, lease_id_of, lease_for, active_lease_for, logical_after,
  with_lease, refuse, admit, decide_admission, acquire,
}
use finite_agent_physics.Quota.Invariant.{Asked, CollisionFree, IsValid, refreshed_all-IsValid}
use finite_agent_physics.Quota.Permitted.{Permitted, no_reasons-Permitted}
use finite_agent_physics.Quota.Admitted.{fresh_attempt, reserve_units_lem, no_collision}

-- What a refusal returns, for its reasons and its time of a retry.
abbrev pub refusal :
    Sha256 → ProviderQuotaPhysics → CallRequest → List RefusalReason × Option ℕ → AdmissionDecision
refusal h q c rs = record {
  admitted = none;
  attempt_id = attempt_id_of h q c;
  reasons = rs.0;
  retry_at_ms = rs.1;
}

abbrev pub admission : Sha256 → ProviderQuotaPhysics → CallRequest → AdmissionDecision
admission h q c = record {
  admitted = some (lease_for h q c);
  attempt_id = attempt_id_of h q c;
  reasons = [];
  retry_at_ms = none;
}

-- Of the bucket, what is left is less by the units.
abbrev less : ℕ → TokenBucket → TokenBucket
less units t = record t { remaining = t.remaining - units }

-- The two ends of a call of `acquire` that finds the state `q` after the refreshes.
pub data Decides (h : Sha256) (q : ProviderQuotaPhysics) (c : CallRequest)
    : Result QuotaError AdmissionDecision × ProviderQuotaPhysics → Type 0 where
  admits :
      (q' : ProviderQuotaPhysics)
      → Permitted q c
      → q'.active ≡ insert (lease_id_of h q c) (active_lease_for h q c) q.active
      → q'.logical ≡ insert c.logical_id (logical_after h q c) q.logical
      → q'.provider_active ≡ suc q.provider_active
      → q'.global_active ≡ suc q.global_active
      → q'.provider_rpm ≡ less 1 q.provider_rpm
      → q'.provider_tpm ≡ less c.estimated_tokens q.provider_tpm
      → q'.global_rpm ≡ less 1 q.global_rpm
      → q'.global_tpm ≡ less c.estimated_tokens q.global_tpm
      → Decides h q c (ok (admission h q c), q')
  refuses :
      (r : RefusalReason) (rs : List RefusalReason) (retry_at : Option ℕ)
      (q' : ProviderQuotaPhysics)
      → admission_reasons q c ≡ (r ∷ rs, retry_at)
      → q'.active ≡ q.active
      → q'.logical ≡ q.logical
      → q'.provider_active ≡ q.provider_active
      → q'.global_active ≡ q.global_active
      → q'.provider_rpm ≡ q.provider_rpm
      → q'.provider_tpm ≡ q.provider_tpm
      → q'.global_rpm ≡ q.global_rpm
      → q'.global_tpm ≡ q.global_tpm
      → Decides h q c (ok (refusal h q c (r ∷ rs, retry_at)), q')

-- No refill of the bucket is due at the time.
abbrev IsCurrent : ℕ → TokenBucket → Type 0
IsCurrent now t = ltb 0 ((now - t.last_refill_ms) / t.refill_every_ms) ≡ false

no_refill : (now : ℕ) (t : TokenBucket) → IsCurrent now t → refreshed now t ≡ t
unfolding refreshed
no_refill now t e = rw e refl

refilled_now : (d last w now : ℕ) → d ≡ now - last → (now - (last + d / w * w)) / w ≡ 0
refilled_now d last zero now e = div-zero (now - (last + d / 0 * 0))
refilled_now d last (suc w) now e = div-eq_of_lt (
    omega (
      arith,
      e,
      sub-add-eq now last (d / suc w * suc w),
      mod-eq-sub-div-mul d (suc w),
      mod-lt d {m = suc w} (omega arith),
    ))

refreshed-IsCurrent : (now : ℕ) (t : TokenBucket) → IsCurrent now (refreshed now t)
unfolding refreshed
refreshed-IsCurrent now t =
    elim (Bool-cases (ltb 0 ((now - t.last_refill_ms) / t.refill_every_ms))) [
      | inr e ↦ rw e e
      | inl e ↦ rw e (
          ap (λ n. ltb 0 n)
            (refilled_now (now - t.last_refill_ms) t.last_refill_ms t.refill_every_ms now refl))
    ]

-- The buckets of a state that was refreshed.
record AreCurrent (q : ProviderQuotaPhysics) : Type 0 where
  pub provider_rpm : IsCurrent q.now_ms q.provider_rpm
  pub provider_tpm : IsCurrent q.now_ms q.provider_tpm
  pub global_rpm : IsCurrent q.now_ms q.global_rpm
  pub global_tpm : IsCurrent q.now_ms q.global_tpm

module _ (h : Asked) (free : CollisionFree h) where
  admit-Decides :
      (q : ProviderQuotaPhysics) (c : CallRequest)
      → Memᴰ c h.requests
      → IsValid h q
      → AreCurrent q
      → Permitted q c
      → Decides h.hash q c (admit h.hash c q)
  unfolding admit emit_with quota_snapshot refreshed_all with_lease
  admit-Decides q c asked v k p =
      rw
        (
          reserve_units_lem h q c.estimated_tokens p.room,
          no_collision h free q c asked v (fresh_attempt q.retry_policy q.logical c p.eligible)
              c.estimated_tokens,
        )
        (Decides.admits _ p refl refl refl refl
          (no_refill q.now_ms (less 1 q.provider_rpm) k.provider_rpm)
          (no_refill q.now_ms (less c.estimated_tokens q.provider_tpm) k.provider_tpm)
          (no_refill q.now_ms (less 1 q.global_rpm) k.global_rpm)
          (no_refill q.now_ms (less c.estimated_tokens q.global_tpm) k.global_tpm))

  decide-Decides :
      (q : ProviderQuotaPhysics) (c : CallRequest)
      → Memᴰ c h.requests
      → IsValid h q
      → AreCurrent q
      → (rs : List RefusalReason × Option ℕ) → admission_reasons q c ≡ rs
      → Decides h.hash q c (decide_admission h.hash c rs q)
  unfolding decide_admission refuse emit_with quota_snapshot refreshed_all
  decide-Decides q c asked v k ([], t) e =
      admit-Decides q c asked v k (no_reasons-Permitted q c (ap (λ r. r.0) e))
  decide-Decides q c asked v k (r ∷ rs, t) e =
      Decides.refuses r rs t _ e refl refl refl refl
        (no_refill q.now_ms q.provider_rpm k.provider_rpm)
        (no_refill q.now_ms q.provider_tpm k.provider_tpm)
        (no_refill q.now_ms q.global_rpm k.global_rpm)
        (no_refill q.now_ms q.global_tpm k.global_tpm)

  all_current : (q : ProviderQuotaPhysics) → AreCurrent (refreshed_all q)
  unfolding refreshed_all
  all_current q = record {
    provider_rpm = refreshed-IsCurrent q.now_ms q.provider_rpm;
    provider_tpm = refreshed-IsCurrent q.now_ms q.provider_tpm;
    global_rpm = refreshed-IsCurrent q.now_ms q.global_rpm;
    global_tpm = refreshed-IsCurrent q.now_ms q.global_tpm;
  }

  pub acquire-Decides :
      (q : ProviderQuotaPhysics) (c : CallRequest)
      → Memᴰ c h.requests
      → IsValid h q
      → Decides h.hash (refreshed_all q) c (acquire h.hash c q)
  unfolding acquire
  acquire-Decides q c asked v =
      decide-Decides (refreshed_all q) c asked (refreshed_all-IsValid h q v) (all_current q) _ refl
