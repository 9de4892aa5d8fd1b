-- ===== src/Quota/Ends.antt =====
-- Every method that ends a call ends in a valid state, and raises only what its caller can cause.
use finite_agent_physics.Prelude.{
  ℕ, suc, subst, sym, ◌*◌, ◌^◌, ◌-◌, ◌+◌, ◌≡◌, refl, max, min, String, true, Option, none, some,
  lookup, arith, Result, ok, err, ltb, ◌==◌, Bool-cases, inl, inr, continue, lift, ◌>>=◌, ◌>>◌,
  pure,
}
use finite_agent_physics.Quota.Buckets.{QuotaError, RetryPolicy, backoff_for}
use finite_agent_physics.Quota.Requests.{LogicalState}
use finite_agent_physics.Quota.State.{
  Settlement, QuotaSnapshot, QuotaDetails, ProviderQuotaPhysics, Quota, emit_with,
}
use finite_agent_physics.Quota.Settlement.{
  settle_active, settle_found, complete, settlement_details, retry_time, within_deadline,
  after_failure, schedule_retry, fail_retryable, effective_reset, after_429, provider_429,
}
use finite_agent_physics.Quota.Invariant.{
  Asked, IsValid, emit_with-IsValid, same-IsValid, Expected, Ends, returns-Ends, raises-Ends,
  then-Ends,
}
use finite_agent_physics.Quota.Settled.{
  set_logical-IsValid, settle_found-Ends, settled-known, logical_state_lem,
}

-- A later attempt has a backoff.
backoff_for-suc : (r : RetryPolicy) (n : ℕ) → (d : ℕ) × (backoff_for r (suc n) ≡ ok d)
unfolding backoff_for
backoff_for-suc r n = elim (Bool-cases (r.base_backoff_ms == 0)) [
  | inl e ↦ (0, ground arith)
  | inr e ↦ (min (r.base_backoff_ms * 2 ^ min (suc n - 1) 62) r.max_backoff_ms, ground arith)
]

retry_time_ok :
    (r : RetryPolicy) (now earliest n : ℕ) (deadline : Option ℕ)
    → (o : Option ℕ) × (retry_time r now earliest (suc n) deadline ≡ ok o)
unfolding retry_time
retry_time_ok r now earliest n deadline = elim (Bool-cases (ltb (suc n) r.max_attempts)) [
  | inl e ↦
      let (d, found) = backoff_for-suc r n in
      (within_deadline deadline (max (now + d) earliest), rw (e, found) refl)
  | inr e ↦ (none, rw e refl)
]

module _ (h : Asked) where
  announced-Ends :
      {A : Type 0} (d : QuotaSnapshot → QuotaDetails) (a : A) (q : ProviderQuotaPhysics)
      → IsValid h q
      → Ends h ((emit_with d >> pure a) q)
  unfolding emit_with
  announced-Ends d a q v = returns-Ends h a _ (emit_with-IsValid h d q v)

  schedule_retry-Ends :
      (s : Settlement) (earliest : ℕ) (reset : Option ℕ)
      (details : Option ℕ → QuotaSnapshot → QuotaDetails) (q : ProviderQuotaPhysics)
      (l : LogicalState)
      → IsValid h q
      → lookup s.active.lease.logical_id q.logical ≡ some l
      → Ends h (schedule_retry s earliest reset details q)
  unfolding schedule_retry
  schedule_retry-Ends s earliest reset details q l v known =
      let (retry_at, timed) =
        retry_time_ok q.retry_policy q.now_ms earliest s.active.lease.attempt l.deadline_ms in
      rw (logical_state_lem h s.active.lease.logical_id q l known, timed)
        (announced-Ends (details retry_at) _ _ (
          set_logical-IsValid h s.active.lease.logical_id l (after_failure retry_at l) q v known
            refl))

  -- What follows a settlement, given the state of the call that was settled.
  after_settlement :
      {A : Type 0} (k : String) (tokens : ℕ) (f : Settlement → Quota A) (q : ProviderQuotaPhysics)
      → IsValid h q
      → ((s : Settlement) (l : LogicalState) (w : ProviderQuotaPhysics)
          → IsValid h w
          → lookup s.active.lease.logical_id w.logical ≡ some l
          → Ends h (f s w))
      → Ends h ((settle_active k tokens >>= f) q)
  unfolding settle_active
  after_settlement k tokens f q v ends =
      let o = lookup k q.active in
      then-Ends h (settle_found k tokens o q) f (settle_found-Ends h k tokens o q v refl)
        (λ s e w. let (l, known) = settled-known h k tokens o q s v refl e in ends s l _ w known)

  pub complete-Ends :
      (k : String) (tokens : ℕ) (q : ProviderQuotaPhysics)
      → IsValid h q
      → Ends h (complete k tokens q)
  unfolding complete emit_with
  complete-Ends k tokens q v = after_settlement k tokens _ q v (λ s l w valid known.
      let id = s.active.lease.logical_id in
      rw (logical_state_lem h id w l known) (
        emitted (QuotaDetails.call_succeeded (settlement_details k tokens s)) _
          (set_logical-IsValid h id l (record l { is_terminal = true }) w valid known refl)))
    where
      emitted :
          (d : QuotaSnapshot → QuotaDetails) (w : ProviderQuotaPhysics)
          → IsValid h w
          → Ends h (emit_with d w)
      emitted d w valid = returns-Ends h tt _ (emit_with-IsValid h d w valid)

  pub fail_retryable-Ends :
      (k : String) (tokens : ℕ) (q : ProviderQuotaPhysics)
      → IsValid h q
      → Ends h (fail_retryable k tokens q)
  unfolding fail_retryable
  fail_retryable-Ends k tokens q v = after_settlement k tokens _ q v (λ s l w valid known.
      schedule_retry-Ends s 0 none (QuotaDetails.call_failed (settlement_details k tokens s)) w l
        valid known)

  after_429-Ends :
      (k : String) (tokens reset : ℕ) (s : Settlement) (q : ProviderQuotaPhysics) (l : LogicalState)
      → IsValid h q
      → lookup s.active.lease.logical_id q.logical ≡ some l
      → Ends h (after_429 k tokens reset s q)
  unfolding after_429
  after_429-Ends k tokens reset s q l v known =
      let until = max q.provider_reset_until_ms reset in
      schedule_retry-Ends s until (some until)
        (QuotaDetails.provider_429 (settlement_details k tokens s) until) _ l
        (same-IsValid h q q.now_ms until q.events v) known

  effective_reset_err :
      (after at : Option ℕ) (now : ℕ) (e : QuotaError)
      → effective_reset after at now ≡ err e
      → e ≡ QuotaError.value_error
  unfolding effective_reset
  effective_reset_err none none now e p = ground (arith, p)
  effective_reset_err (some d) (some t) now e p = ground (arith, p)
  effective_reset_err (some d) none now e p = ground (arith, p)
  effective_reset_err none (some t) now e p = ground (arith, p)

  pub provider_429-Ends :
      (k : String) (tokens : ℕ) (after at : Option ℕ) (q : ProviderQuotaPhysics)
      → IsValid h q
      → Ends h (provider_429 k tokens after at q)
  unfolding provider_429
  provider_429-Ends k tokens after at q v = from_reset (effective_reset after at q.now_ms) refl
    where
      from_reset :
          (r : Result QuotaError ℕ)
          → effective_reset after at q.now_ms ≡ r
          → Ends h (
              continue
                (lift r q)
                (λ reset. settle_active k tokens >>= λ s. after_429 k tokens reset s))
      from_reset (ok reset) e =
          after_settlement k tokens (after_429 k tokens reset) q v
            (λ s l w valid known. after_429-Ends k tokens reset s w l valid known)
      from_reset (err e) p =
          raises-Ends h e q v
            (subst Expected (sym (effective_reset_err after at q.now_ms e p)) Expected.bad_value)
