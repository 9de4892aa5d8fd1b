-- ===== src/Quota/Histories.antt =====
-- The invariant and the errors of `ProviderQuotaPhysics` over its histories.
use mathlib.Core.List.{Memᴰ}
use finite_agent_physics.Prelude.{
  ◌++◌, lookup, none, some, true, false, ◌≢◌, ℕ, String, ◌≡◌, refl, Result, ok, err, List, [], ◌∷◌,
  is_blank, Bool-cases, inl, inr, subst, arith,
}
use finite_agent_physics.Prelude.Any.{mem-left, mem-right}
use finite_agent_physics.Quota.Buckets.{QuotaError, QuotaLimits, RetryPolicy, new_bucket}
use finite_agent_physics.Quota.Requests.{CallRequest}
use finite_agent_physics.Quota.Identities.{Sha256}
use finite_agent_physics.Quota.State.{
  ProviderQuotaPhysics, Quota, new_physics, quota_snapshot, refreshed_all,
}
use finite_agent_physics.Quota.Admission.{acquire}
use finite_agent_physics.Quota.Settlement.{fail_retryable, provider_429}
use finite_agent_physics.Quota.Calls.{QuotaCall, discard, call, run}
use finite_agent_physics.Quota.Invariant.{
  Asked, CollisionFree, IsValid, Expected, Ends, same-IsValid, refreshed_all-IsValid, returns-Ends,
  then-Ends,
}
use finite_agent_physics.Quota.Ends.{complete-Ends, fail_retryable-Ends, provider_429-Ends}
use finite_agent_physics.Quota.Admitted.{acquire-Ends}
use finite_agent_physics.Quota.Decisions.{Decides, acquire-Decides}

-- The requests that the calls make.
abbrev asked_by : QuotaCall → List CallRequest
asked_by (QuotaCall.acquires c) = c ∷ []
asked_by (QuotaCall.advances _) = []
asked_by QuotaCall.snapshots = []
asked_by (QuotaCall.completes _ _) = []
asked_by (QuotaCall.fails _ _) = []
asked_by (QuotaCall.resets _ _ _ _) = []

abbrev pub requests : List QuotaCall → List CallRequest
requests [] = []
requests (c ∷ cs) = asked_by c ++ requests cs

-- Of the texts that a provider's object hashes for the requests, no two that differ have the same
-- shortened digest.
abbrev pub NoCollision : Sha256 → String → List CallRequest → Type 0
NoCollision h name rs = CollisionFree (record { hash = h; provider = name; requests = rs })

discard-Ends :
    {A : Type 0} (h : Asked) (m : Quota A) (q : ProviderQuotaPhysics)
    → Ends h (m q)
    → Ends h (discard m q)
discard-Ends h m q e = then-Ends h (m q) (λ a. λ q'. (ok tt, q')) e (λ a p v. returns-Ends h tt _ v)

module _ (h : Asked) (free : CollisionFree h) where
  call-Ends :
      (c : QuotaCall) (q : ProviderQuotaPhysics)
      → ((r : CallRequest) → Memᴰ r (asked_by c) → Memᴰ r h.requests)
      → IsValid h q
      → Ends h (call h.hash c q)
  unfolding call quota_snapshot
  call-Ends (QuotaCall.advances delta_ms) q asked v = returns-Ends h tt _ (same-IsValid h q _ _ _ v)
  call-Ends QuotaCall.snapshots q asked v = returns-Ends h tt _ (refreshed_all-IsValid h q v)
  call-Ends (QuotaCall.acquires c) q asked v =
      discard-Ends h (acquire h.hash c) q (acquire-Ends h free q c (asked c (Memᴰ.head refl)) v)
  call-Ends (QuotaCall.completes k tokens) q asked v = complete-Ends h k tokens q v
  call-Ends (QuotaCall.fails k tokens) q asked v =
      discard-Ends h (fail_retryable k tokens) q (fail_retryable-Ends h k tokens q v)
  call-Ends (QuotaCall.resets k tokens after at) q asked v =
      discard-Ends h (provider_429 k tokens after at) q (provider_429-Ends h k tokens after at q v)

  run_from-IsValid :
      (cs : List QuotaCall) (q : ProviderQuotaPhysics)
      → ((r : CallRequest) → Memᴰ r (requests cs) → Memᴰ r h.requests)
      → IsValid h q
      → IsValid h (run h.hash cs q)
  unfolding run
  run_from-IsValid [] q asked v = v
  run_from-IsValid (c ∷ cs) q asked v =
      run_from-IsValid cs (call h.hash c q).1
        (λ r m. asked r (mem-right (asked_by c) (requests cs) m))
        (call-Ends c q (λ r m. asked r (mem-left (asked_by c) (requests cs) m)) v).valid

module _ (h : Sha256) (name : String) (limits all_limits : QuotaLimits) (epoch : ℕ)
    (policy : RetryPolicy) (q : ProviderQuotaPhysics)
    (made : new_physics name limits all_limits epoch policy ≡ ok q) where
  module _ (rs : List CallRequest) where
    abbrev all_asked : Asked
    all_asked = record { hash = h; provider = name; requests = rs }

    new_physics-IsValid : IsValid all_asked q
    unfolding new_physics new_bucket lookup
    new_physics-IsValid = elim (Bool-cases (is_blank name)) [
      | inl e ↦ cc (rw e at made)
      | inr e ↦ subst (IsValid all_asked) (ok_inj (rw e at made)) (record {
        named = refl;
        provider_rpm = record { bounded = omega arith; limited = refl };
        provider_tpm = record { bounded = omega arith; limited = refl };
        global_rpm = record { bounded = omega arith; limited = refl };
        global_tpm = record { bounded = omega arith; limited = refl };
        provider_counted = refl;
        global_counted = refl;
        provider_places = omega arith;
        global_places = omega arith;
        active_keys = tt;
        tracked = λ k a p. absurd (none_ne p);
        attempts = λ x p. absurd (false_ne p);
      })
    ]
      where
        ok_inj : {A : Type 0} {x y : A} → (let r : Result QuotaError A = ok x in r) ≡ ok y → x ≡ y
        ok_inj p = cc

        none_ne : {A : Type 0} {x : A} → none ≢ some x
        none_ne p = cc

        false_ne : false ≢ true
        false_ne p = cc

  -- After every sequence of calls on a new object, whatever they raise: both counters are the
  -- number of active leases and at most the concurrency of their limits, each bucket has its
  -- limit's capacity and no more than that left, every admitted identity is the one hashed for a
  -- request of the sequence, and every active lease is keyed by its own identity, was admitted,
  -- and its call is known. It is assumed that of the texts that the sequence hashes, no two that
  -- differ have the same shortened SHA-256 digest.
  pub physics-IsValid :
      (cs : List QuotaCall)
      → NoCollision h name (requests cs)
      → IsValid (all_asked (requests cs)) (run h cs q)
  physics-IsValid cs free =
      run_from-IsValid (all_asked (requests cs)) free cs q (λ r m. m)
        (new_physics-IsValid (requests cs))

  -- After every sequence of calls on a new object, the error that one more call raises is a
  -- ValueError or a QuotaSettlementError: never the AssertionError of a bucket or of colliding
  -- identities, nor a KeyError. It is assumed that of the texts that the calls hash, no two that
  -- differ have the same shortened SHA-256 digest.
  pub raised-Expected :
      (cs : List QuotaCall) (c : QuotaCall)
      → NoCollision h name (requests (c ∷ cs))
      → (e : QuotaError) → (call h c (run h cs q)).0 ≡ err e
      → Expected e
  raised-Expected cs c free e raised =
      let asked = all_asked (requests (c ∷ cs)) in
      let v =
        run_from-IsValid asked free cs q (λ r m. mem-right (asked_by c) (requests cs) m)
          (new_physics-IsValid (requests (c ∷ cs))) in
      (call-Ends asked free c (run h cs q) (λ r m. mem-left (asked_by c) (requests cs) m)
          v).expected
        e raised

  -- After every sequence of calls on a new object, `acquire` returns, in one of two ways. It
  -- admits the call: then the attempt is the first or the next one of a call that may be retried
  -- and has attempts left, the deadline is not past, no provider reset or backoff lasts, all six
  -- capacities have room, the lease and the call's state enter the tables, both counters grow by
  -- one, and the refilled buckets lose one request and the estimated tokens. Or it gives the
  -- reasons that it found, at least one, and the tables, the counters and the refilled buckets
  -- stay as they are. It is assumed that of the texts that the calls hash, no two that differ have
  -- the same shortened SHA-256 digest.
  pub acquired-Decides :
      (cs : List QuotaCall) (c : CallRequest)
      → NoCollision h name (requests (QuotaCall.acquires c ∷ cs))
      → let before = run h cs q in Decides h (refreshed_all before) c (acquire h c before)
  acquired-Decides cs c free =
      let asked = all_asked (c ∷ requests cs) in
      acquire-Decides asked free (run h cs q) c (Memᴰ.head refl) (
        run_from-IsValid asked free cs q (λ r m. Memᴰ.tail m)
          (new_physics-IsValid (c ∷ requests cs)))
