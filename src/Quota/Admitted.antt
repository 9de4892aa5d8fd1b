-- ===== src/Quota/Admitted.antt =====
-- `acquire` keeps the invariant and never raises.
use mathlib.Core.List.{Memᴰ}
use finite_agent_physics.Prelude.{
  ◌≢◌, ℕ, suc, ◌-◌, ◌≤◌, ◌<◌, ◌≡◌, refl, sym, ap, subst, ◌∙◌, String, Bool, true, false, ◌||◌,
  Option, none, some, List, [], ◌∷◌, Dict, lookup, insert, lookup-insert, insert-IsDict, insert_new,
  length-append, elem, length, arith, eq_iff, String-cases, =ˢ_ne, =ˢ_refl, ok, Bool-cases,
  Option-cases, inl, inr,
}
use finite_agent_physics.Quota.Buckets.{RetryPolicy, TokenBucket, consume_units}
use finite_agent_physics.Quota.Requests.{CallRequest, RefusalReason, LogicalState}
use finite_agent_physics.Quota.Identities.{attempt_identity, lease_identity}
use finite_agent_physics.Quota.State.{
  ActiveLease, QuotaDetails, ProviderQuotaPhysics, refreshed_all, emit_with,
}
use finite_agent_physics.Quota.Admission.{
  admission_reasons, attempt_id_of, lease_id_of, call_details, refuse, reserve_units, logical_after,
  active_lease_for, with_lease, collides, admit, decide_admission, acquire,
}
use finite_agent_physics.Quota.Permitted.{HasRoom, Eligible, initial, retry, no_reasons-Permitted}
use finite_agent_physics.Quota.Invariant.{
  Asked, requested_identity, same_attempt, same_lease, CollisionFree, Within, Tracked, Admitted,
  IsValid, refreshed_all-IsValid, emit_with-IsValid, Ends, returns-Ends,
}

some_inj : {A : Type 0} {x y : A} → some x ≡ some y → x ≡ y
some_inj e = cc

-- An eligible attempt is later than the last one of its call.
pub fresh_attempt :
    (policy : RetryPolicy) (d : Dict LogicalState) (c : CallRequest)
    → Eligible policy d c
    → (s : LogicalState) → lookup c.logical_id d ≡ some s
    → s.last_attempt < c.attempt
fresh_attempt policy d c (initial z unknown) s found = absurd (some_none (sym found ∙ unknown))
  where
    some_none : {x : LogicalState} → some x ≢ none
    some_none e = cc
fresh_attempt policy d c (retry s' found' next below able unfinished) s found =
    let same : s' ≡ s = some_inj (sym found' ∙ found) in
    omega (arith, next, ap (λ (x : LogicalState). x.last_attempt) same)

abbrev pub reserved : ProviderQuotaPhysics → ℕ → ProviderQuotaPhysics
reserved q tokens = record q {
  provider_rpm = record q.provider_rpm { remaining = q.provider_rpm.remaining - 1 };
  provider_tpm = record q.provider_tpm { remaining = q.provider_tpm.remaining - tokens };
  global_rpm = record q.global_rpm { remaining = q.global_rpm.remaining - 1 };
  global_tpm = record q.global_tpm { remaining = q.global_tpm.remaining - tokens };
  provider_active = suc q.provider_active;
  global_active = suc q.global_active;
}

less-Within :
    (units : ℕ) (t : TokenBucket) (limit : ℕ)
    → Within t limit
    → Within (record t { remaining = t.remaining - units }) limit
less-Within units t limit w = record { bounded = omega (arith, w.bounded); limited = w.limited }

or_here : (b d : Bool) → b ≡ true → (b || d) ≡ true
or_here b d e = ground (arith, e)

or_there : (b d : Bool) → d ≡ true → (b || d) ≡ true
or_there b d e = ground (arith, e)

or_rest : (b d : Bool) → b ≡ false → (b || d) ≡ true → d ≡ true
or_rest b d e f = ground (arith, e, f)

module _ (h : Asked) where
  pub reserve_units_lem :
      (q : ProviderQuotaPhysics) (tokens : ℕ)
      → HasRoom q tokens
      → reserve_units h.hash tokens q ≡ (ok tt, reserved q tokens)
  unfolding reserve_units consume_units
  reserve_units_lem q tokens r = rw (r.rpm, r.tpm, r.all_rpm, r.all_tpm) refl

  module _ (free : CollisionFree h) (q : ProviderQuotaPhysics) (c : CallRequest)
      (asked : Memᴰ c h.requests) (v : IsValid h q)
      (fresh : (s : LogicalState)
        → lookup c.logical_id q.logical ≡ some s
        → s.last_attempt < c.attempt) where
    here : attempt_id_of h.hash q c ≡ requested_identity h c
    here = ap (λ p. attempt_identity h.hash p c.logical_id c.attempt) v.named

    new_attempt : elem (attempt_id_of h.hash q c) q.admitted_attempt_ids ≡ false
    new_attempt = elim (Bool-cases (elem (attempt_id_of h.hash q c) q.admitted_attempt_ids)) [
      | inr e ↦ e
      | inl e ↦
          let t = v.attempts (attempt_id_of h.hash q c) e in
          let (l, n) = same_attempt h free c t.request asked t.asked (sym here ∙ t.identity) in
          absurd
            (omega (arith, fresh t.state (ap (λ k. lookup k q.logical) l ∙ t.known), n, t.latest))
    ]

    new_lease : lookup (lease_id_of h.hash q c) q.active ≡ none
    new_lease = elim (Option-cases (lookup (lease_id_of h.hash q c) q.active)) [
      | inl e ↦ e
      | inr (a, e) ↦
          let t = v.tracked (lease_id_of h.hash q c) a e in
          let w = v.attempts a.lease.attempt_id t.admitted in
          let leases =
            ap (lease_identity h.hash) (sym here)
            ∙ (t.keyed ∙ ap (lease_identity h.hash) w.identity) in
          let same : attempt_id_of h.hash q c ≡ a.lease.attempt_id =
            here ∙ (same_lease h free c w.request asked w.asked leases ∙ sym w.identity) in
          cc (ap (λ x. elem x q.admitted_attempt_ids) same, t.admitted, new_attempt)
    ]

    pub no_collision : (tokens : ℕ) → collides h.hash c (reserved q tokens) ≡ false
    unfolding collides
    no_collision tokens = rw (new_attempt, new_lease) refl

    one_more :
        (a : ActiveLease)
        → length (insert (lease_id_of h.hash q c) a q.active) ≡ suc (length q.active)
    one_more a =
        ap length (insert_new (lease_id_of h.hash q c) a q.active new_lease)
        ∙ (length-append q.active ((lease_id_of h.hash q c, a) ∷ []) ∙ omega arith)

    -- Each known call is known after the admission, with no earlier last attempt.
    still-known :
        (l : String) (s : LogicalState)
        → lookup l q.logical ≡ some s
        → (s' : LogicalState) × (lookup l (insert c.logical_id (logical_after h.hash q c) q.logical)
            ≡ some s')
          × (s.last_attempt ≤ s'.last_attempt)
    still-known l s e = elim (String-cases l c.logical_id) [
      | inl p ↦
          let older = fresh s (ap (λ k. lookup k q.logical) (sym p) ∙ e) in
          (
            logical_after h.hash q c,
            lookup-insert l c.logical_id _ q.logical ∙ rw ((eq_iff l c.logical_id).1 p) refl,
            omega (arith, older),
          )
      | inr n ↦
          (s, lookup-insert l c.logical_id _ q.logical ∙ rw (=ˢ_ne l c.logical_id n) e, omega arith)
    ]

    self-known :
        lookup c.logical_id (insert c.logical_id (logical_after h.hash q c) q.logical)
        ≡ some (logical_after h.hash q c)
    self-known =
        lookup-insert c.logical_id c.logical_id _ q.logical
        ∙ rw ((eq_iff c.logical_id c.logical_id).1 refl) refl

    abbrev admitted_state : ProviderQuotaPhysics
    admitted_state = with_lease h.hash c (reserved q c.estimated_tokens)

    with_lease-Tracked :
        (k : String) (a : ActiveLease)
        → lookup k admitted_state.active ≡ some a
        → Tracked h admitted_state k a
    unfolding with_lease
    with_lease-Tracked k a e = elim (String-cases k (lease_id_of h.hash q c)) [
      | inl p ↦
          let found =
            lookup-insert k (lease_id_of h.hash q c) (active_lease_for h.hash q c) q.active in
          let here : lookup k admitted_state.active ≡ some (active_lease_for h.hash q c) =
            found ∙ rw ((eq_iff k (lease_id_of h.hash q c)).1 p) refl in
          let same : active_lease_for h.hash q c ≡ a = some_inj (sym here ∙ e) in
          subst (λ b. Tracked h admitted_state k b) same
            (record {
              keyed = p;
              admitted = or_here _ _ (=ˢ_refl (attempt_id_of h.hash q c));
              state = logical_after h.hash q c;
              known = self-known;
            })
      | inr n ↦
          let found =
            lookup-insert k (lease_id_of h.hash q c) (active_lease_for h.hash q c) q.active in
          let t = v.tracked k a (sym (found ∙ rw (=ˢ_ne k (lease_id_of h.hash q c) n) refl) ∙ e) in
          let (s, known, _) = still-known a.lease.logical_id t.state t.known in
          record { keyed = t.keyed; admitted = or_there _ _ t.admitted; state = s; known = known }
    ]

    with_lease-Admitted :
        (x : String)
        → elem x admitted_state.admitted_attempt_ids ≡ true
        → Admitted h admitted_state x
    unfolding with_lease
    with_lease-Admitted x e = elim (String-cases x (attempt_id_of h.hash q c)) [
      | inl p ↦ record {
        request = c;
        asked = asked;
        state = logical_after h.hash q c;
        identity = p ∙ here;
        known = self-known;
        latest = omega arith;
      }
      | inr n ↦
          let t = v.attempts x (or_rest _ _ (=ˢ_ne x (attempt_id_of h.hash q c) n) e) in
          let (s, known, later) = still-known t.request.logical_id t.state t.known in
          record {
            request = t.request;
            asked = t.asked;
            state = s;
            identity = t.identity;
            known = known;
            latest = omega (arith, t.latest, later);
          }
    ]

    with_lease-IsValid :
        HasRoom q c.estimated_tokens
        → IsValid h (with_lease h.hash c (reserved q c.estimated_tokens))
    unfolding with_lease
    with_lease-IsValid r = record {
      named = v.named;
      provider_rpm = less-Within 1 q.provider_rpm _ v.provider_rpm;
      provider_tpm = less-Within c.estimated_tokens q.provider_tpm _ v.provider_tpm;
      global_rpm = less-Within 1 q.global_rpm _ v.global_rpm;
      global_tpm = less-Within c.estimated_tokens q.global_tpm _ v.global_tpm;
      provider_counted = ap suc v.provider_counted ∙ sym (one_more _);
      global_counted = ap suc v.global_counted ∙ sym (one_more _);
      provider_places = ground (arith, r.places);
      global_places = ground (arith, r.all_places);
      active_keys = insert-IsDict (lease_id_of h.hash q c) _ q.active v.active_keys;
      tracked = with_lease-Tracked;
      attempts = with_lease-Admitted;
    }

    admit-Ends : HasRoom q c.estimated_tokens → Ends h (admit h.hash c q)
    unfolding admit emit_with
    admit-Ends r =
        rw (reserve_units_lem q c.estimated_tokens r, no_collision c.estimated_tokens)
          (returns-Ends h _ _ (
            emit_with-IsValid h
              (QuotaDetails.call_admitted (call_details h.hash q c) (lease_id_of h.hash q c))
              admitted_state (with_lease-IsValid r)))

  refuse-Ends :
      (c : CallRequest) (reasons : List RefusalReason) (retry_at : Option ℕ)
      (q : ProviderQuotaPhysics)
      → IsValid h q
      → Ends h (refuse h.hash c reasons retry_at q)
  unfolding refuse emit_with
  refuse-Ends c reasons retry_at q v = returns-Ends h _ _ (
      emit_with-IsValid h
        (QuotaDetails.admission_refused (call_details h.hash q c) reasons retry_at) q v)

  -- Where the reasons are none, the identity is fresh and there is room.
  decide-Ends :
      (free : CollisionFree h) (q : ProviderQuotaPhysics) (c : CallRequest)
      → Memᴰ c h.requests
      → IsValid h q
      → (rs : List RefusalReason × Option ℕ) → rs ≡ admission_reasons q c
      → Ends h (decide_admission h.hash c rs q)
  unfolding decide_admission
  decide-Ends free q c asked v ([], t) e =
      let p = no_reasons-Permitted q c (ap (λ r. r.0) (sym e)) in
      admit-Ends free q c asked v (fresh_attempt q.retry_policy q.logical c p.eligible) p.room
  decide-Ends free q c asked v (r ∷ rs, t) e = refuse-Ends c (r ∷ rs) t q v

  pub acquire-Ends :
      (free : CollisionFree h) (q : ProviderQuotaPhysics) (c : CallRequest)
      → Memᴰ c h.requests
      → IsValid h q
      → Ends h (acquire h.hash c q)
  unfolding acquire
  acquire-Ends free q c asked v =
      decide-Ends free (refreshed_all q) c asked (refreshed_all-IsValid h q v)
        (admission_reasons (refreshed_all q) c) refl
