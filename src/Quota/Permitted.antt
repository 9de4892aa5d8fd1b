-- ===== src/Quota/Permitted.antt =====
-- What a call must satisfy for `acquire` to have no reason to refuse it.
use finite_agent_physics.Prelude.{
  ◌≢◌, ℕ, suc, ◌<◌, ◌≡◌, refl, true, false, Option, none, some, List, [], ◌∷◌, Dict, lookup, arith,
  ltb, leb, ◌==◌, selected_none, Bool-cases, inl, inr,
}
use finite_agent_physics.Quota.Buckets.{RetryPolicy}
use finite_agent_physics.Quota.Requests.{
  CallRequest, RefusalReason, LogicalState, identity_reasons, initial_reasons, retry_reasons,
}
use finite_agent_physics.Quota.State.{ProviderQuotaPhysics}
use finite_agent_physics.Quota.Admission.{
  is_past, is_before, effective_deadline, backoff_until, capacity_reasons, capacity_tests,
  timed_reasons, reasons_after, admission_reasons,
}

cons_ne : {x : RefusalReason} {xs : List RefusalReason} → (x ∷ xs) ≢ []
cons_ne e = cc

-- The attempt is the first of its call, or the next one of a call that may be retried.
pub data Eligible (policy : RetryPolicy) (d : Dict LogicalState) (c : CallRequest) : Type 0 where
  initial : c.attempt ≡ 0 → lookup c.logical_id d ≡ none → Eligible policy d c
  retry :
      (s : LogicalState)
      → lookup c.logical_id d ≡ some s
      → c.attempt ≡ suc s.last_attempt
      → c.attempt < policy.max_attempts
      → s.retryable ≡ true
      → s.is_terminal ≡ false
      → Eligible policy d c

initial-Eligible :
    (policy : RetryPolicy) (d : Dict LogicalState) (c : CallRequest) (s : Option LogicalState)
    → lookup c.logical_id d ≡ s
    → (c.attempt == 0) ≡ true
    → initial_reasons s ≡ []
    → Eligible policy d c
unfolding initial_reasons
initial-Eligible policy d c none found zero e = initial (ground (arith, zero)) found
initial-Eligible policy d c (some s) found zero e = absurd (cons_ne e)

retry-Eligible :
    (policy : RetryPolicy) (d : Dict LogicalState) (c : CallRequest) (s : Option LogicalState)
    → lookup c.logical_id d ≡ s
    → retry_reasons policy c s ≡ []
    → Eligible policy d c
unfolding retry_reasons
retry-Eligible policy d c none found e = absurd (cons_ne e)
retry-Eligible policy d c (some s) found e =
    retry s found (ground (arith, e)) (ground (arith, e)) (ground (arith, e)) (ground (arith, e))

identity_reasons_lem :
    (policy : RetryPolicy) (d : Dict LogicalState) (c : CallRequest)
    → identity_reasons policy d c ≡ []
    → Eligible policy d c
unfolding identity_reasons
identity_reasons_lem policy d c e = elim (Bool-cases (c.attempt == 0)) [
  | inl z ↦ initial-Eligible policy d c _ refl z (rw (z) at e)
  | inr z ↦ retry-Eligible policy d c _ refl (rw (z) at e)
]

-- No test of the capacity gives a reason.
pub record HasRoom (q : ProviderQuotaPhysics) (tokens : ℕ) : Type 0 where
  pub rpm : ltb q.provider_rpm.remaining 1 ≡ false
  pub tpm : ltb q.provider_tpm.remaining tokens ≡ false
  pub places : leb q.provider_limits.concurrency q.provider_active ≡ false
  pub all_rpm : ltb q.global_rpm.remaining 1 ≡ false
  pub all_tpm : ltb q.global_tpm.remaining tokens ≡ false
  pub all_places : leb q.global_limits.concurrency q.global_active ≡ false

has_room :
    (q : ProviderQuotaPhysics) (tokens : ℕ) → capacity_reasons q tokens ≡ [] → HasRoom q tokens
unfolding capacity_reasons
has_room q tokens h =
    let t = selected_none (capacity_tests q tokens) h in
    record {
      rpm = t.0;
      tpm = t.1.0;
      places = t.1.1.0;
      all_rpm = t.1.1.1.0;
      all_tpm = t.1.1.1.1.0;
      all_places = t.1.1.1.1.1.0;
    }

-- A call for which there are no reasons to refuse it.
pub record Permitted (q : ProviderQuotaPhysics) (c : CallRequest) : Type 0 where
  pub eligible : Eligible q.retry_policy q.logical c
  pub timely : is_past (effective_deadline c (lookup c.logical_id q.logical)) q.now_ms ≡ false
  pub unreset : ltb q.now_ms q.provider_reset_until_ms ≡ false
  pub rested : is_before (backoff_until c (lookup c.logical_id q.logical)) q.now_ms ≡ false
  pub room : HasRoom q c.estimated_tokens

timed-Permitted :
    (q : ProviderQuotaPhysics) (c : CallRequest) (s : Option LogicalState)
    → lookup c.logical_id q.logical ≡ s
    → Eligible q.retry_policy q.logical c
    → (timed_reasons q c s).0 ≡ []
    → Permitted q c
unfolding timed_reasons
timed-Permitted q c s found able e = elim (Bool-cases (is_past (effective_deadline c s) q.now_ms)) [
  | inl p ↦ absurd (cons_ne (rw (p) at e))
  | inr p ↦ elim (Bool-cases (ltb q.now_ms q.provider_reset_until_ms)) [
    | inl o ↦ absurd (cons_ne (rw (p, o) at e))
    | inr o ↦ elim (Bool-cases (is_before (backoff_until c s) q.now_ms)) [
      | inl b ↦ absurd (cons_ne (rw (p, o, b) at e))
      | inr b ↦ record {
        eligible = able;
        timely = rw found p;
        unreset = o;
        rested = rw found b;
        room = has_room q c.estimated_tokens (rw (p, o, b) at e);
      }
    ]
  ]
]

after-Permitted :
    (q : ProviderQuotaPhysics) (c : CallRequest) (rs : List RefusalReason)
    → identity_reasons q.retry_policy q.logical c ≡ rs
    → (reasons_after q c rs).0 ≡ []
    → Permitted q c
unfolding reasons_after
after-Permitted q c [] e r =
    timed-Permitted q c _ refl (identity_reasons_lem q.retry_policy q.logical c e) r
after-Permitted q c (x ∷ xs) e r = absurd (cons_ne r)

pub no_reasons-Permitted :
    (q : ProviderQuotaPhysics) (c : CallRequest) → (admission_reasons q c).0 ≡ [] → Permitted q c
unfolding admission_reasons
no_reasons-Permitted q c e = after-Permitted q c _ refl e
