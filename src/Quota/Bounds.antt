-- ===== src/Quota/Bounds.antt =====
-- The bound of the token bucket.
use finite_agent_physics.Prelude.{
  ℕ, ◌-◌, ◌/◌, ◌≤◌, ◌≡◌, refl, Bool, true, false, ltb, ◌==◌, List, [], ◌∷◌, arith, Bool-cases, inl,
  inr, ◌∙◌, continue, modify, raise_if,
}
use finite_agent_physics.Quota.Buckets.{
  assertion_error, TokenBucket, refreshed, refresh, consume_units, credit, refund_if_current,
  BucketCall, after_call, run_bucket,
}

refreshed_bounded :
    (now : ℕ) (t : TokenBucket)
    → t.remaining ≤ t.capacity
    → ((refreshed now t).remaining ≤ (refreshed now t).capacity)
      × ((refreshed now t).capacity ≡ t.capacity)
unfolding refreshed
refreshed_bounded now t h =
    elim (Bool-cases (ltb 0 ((now - t.last_refill_ms) / t.refill_every_ms))) [
      | inl e ↦ rw e (omega arith, refl)
      | inr e ↦ rw e (h, refl)
    ]

consumed_bounded :
    (refused : Bool) (units : ℕ) (t : TokenBucket)
    → t.remaining ≤ t.capacity
    → let after =
        (continue
          (raise_if refused assertion_error t)
          (λ a. modify (λ u. record u { remaining = u.remaining - units }))).1 in
      (after.remaining ≤ after.capacity) × (after.capacity ≡ t.capacity)
consumed_bounded true units t h = (h, refl)
consumed_bounded false units t h = (omega (arith, h), refl)

call_bounded :
    (c : BucketCall) (t : TokenBucket)
    → t.remaining ≤ t.capacity
    → ((after_call c t).remaining ≤ (after_call c t).capacity)
      × ((after_call c t).capacity ≡ t.capacity)
unfolding after_call refresh consume_units refund_if_current credit
call_bounded (BucketCall.refreshes now) t h = refreshed_bounded now t h
call_bounded (BucketCall.consumes units) t h = consumed_bounded (ltb t.remaining units) units t h
call_bounded (BucketCall.refunds units start) t h = elim (Bool-cases (t.last_refill_ms == start)) [
  | inl e ↦ rw e (omega (arith, h), refl)
  | inr e ↦ rw e (omega (arith, h), refl)
]

-- In every sequence of refreshes, consumptions and refunds of a bucket, those that raise included,
-- what is left of a bucket that starts within its capacity stays within it, and the capacity is
-- constant.
pub run_bucket_bounded :
    (cs : List BucketCall) (t : TokenBucket)
    → t.remaining ≤ t.capacity
    → ((run_bucket cs t).remaining ≤ (run_bucket cs t).capacity)
      × ((run_bucket cs t).capacity ≡ t.capacity)
unfolding run_bucket
run_bucket_bounded [] t h = (h, refl)
run_bucket_bounded (c ∷ cs) t h =
    let (bounded, same) = call_bounded c t h in
    let (bounded', same') = run_bucket_bounded cs (after_call c t) bounded in
    (bounded', same' ∙ same)
