-- ===== src/Quota/Settled.antt =====
-- The ends of a call keep the invariant, and raise only what their caller can cause.
use finite_agent_physics.Prelude.{
  ℕ, ◌+◌, ◌-◌, ◌≡◌, refl, ap, sym, ◌∙◌, String, Option, none, some, Dict, lookup, insert,
  lookup-erase, lookup-insert, erase-IsDict, length-erase, arith, eq_iff, String-cases, =ˢ_ne,
  Result, ok, ltb, ◌==◌, Bool-cases, inl, inr,
}
use finite_agent_physics.Quota.Buckets.{
  QuotaError, settlement_error, TokenBucket, credit, refund_if_current,
}
use finite_agent_physics.Quota.Requests.{LogicalState}
use finite_agent_physics.Quota.State.{
  ActiveLease, Settlement, QuotaDetails, ProviderQuotaPhysics, refreshed_all,
}
use finite_agent_physics.Quota.Settlement.{
  release, settle_within, refuse_settlement, settle_found, present, logical_state,
}
use finite_agent_physics.Quota.Invariant.{
  Asked, Within, IsValid, refreshed_all-IsValid, emit_with-IsValid, other-IsValid, Expected, Ends,
  returns-Ends, raises-Ends,
}

credited-Within :
    (units start : ℕ) (t : TokenBucket) (limit : ℕ)
    → Within t limit
    → Within (record t { remaining = t.remaining + credit units start t }) limit
unfolding credit
credited-Within units start t limit w = elim (Bool-cases (t.last_refill_ms == start)) [
  | inl e ↦ rw e (record { bounded = omega (arith, w.bounded); limited = w.limited })
  | inr e ↦ rw e (record { bounded = omega (arith, w.bounded); limited = w.limited })
]

-- A call that is known is known after an update of a state, with the same last attempt.
still-known :
    (l : String) (s s' : LogicalState) (d : Dict LogicalState)
    → lookup l d ≡ some s
    → s'.last_attempt ≡ s.last_attempt
    → (j : String) (r : LogicalState) → lookup j d ≡ some r
    → (r' : LogicalState) × (lookup j (insert l s' d) ≡ some r')
      × (r'.last_attempt ≡ r.last_attempt)
still-known l s s' d found same j r e = elim (String-cases j l) [
  | inl p ↦ (
    s',
    ground (arith, lookup-insert j l s' d, eq_iff j l, p),
    ground (arith, same, found, e, ap (λ k. lookup k d) p),
  )
  | inr n ↦ (r, lookup-insert j l s' d ∙ rw (=ˢ_ne j l n) e, refl)
]

ok_inj : {A : Type 0} {x y : A} → (let r : Result QuotaError A = ok x in r) ≡ ok y → x ≡ y
ok_inj e = cc

module _ (h : Asked) where
  -- Leases that were tracked are tracked when others go.
  release-IsValid :
      (k : String) (a : ActiveLease) (q : ProviderQuotaPhysics)
      → IsValid h q
      → lookup k q.active ≡ some a
      → IsValid h (release k q)
  unfolding release
  release-IsValid k a q v found =
      let shorter = length-erase k a q.active found in
      record {
        named = v.named;
        provider_rpm = v.provider_rpm;
        provider_tpm = v.provider_tpm;
        global_rpm = v.global_rpm;
        global_tpm = v.global_tpm;
        provider_counted = omega (arith, v.provider_counted, shorter);
        global_counted = omega (arith, v.global_counted, shorter);
        provider_places = omega (arith, v.provider_places);
        global_places = omega (arith, v.global_places);
        active_keys = erase-IsDict k q.active v.active_keys;
        tracked = λ j b e.
            let t = v.tracked j b (ground (arith, lookup-erase j k q.active v.active_keys, e)) in
            record { keyed = t.keyed; admitted = t.admitted; state = t.state; known = t.known };
        attempts = λ x e.
            let t = v.attempts x e in
            record {
              request = t.request;
              asked = t.asked;
              state = t.state;
              identity = t.identity;
              known = t.known;
              latest = t.latest;
            };
      }

  -- A change of the state of a call that keeps its last attempt.
  pub set_logical-IsValid :
      (l : String) (s s' : LogicalState) (q : ProviderQuotaPhysics)
      → IsValid h q
      → lookup l q.logical ≡ some s
      → s'.last_attempt ≡ s.last_attempt
      → IsValid h (record q { logical = insert l s' q.logical })
  set_logical-IsValid l s s' q v found same = record {
    named = v.named;
    provider_rpm = v.provider_rpm;
    provider_tpm = v.provider_tpm;
    global_rpm = v.global_rpm;
    global_tpm = v.global_tpm;
    provider_counted = v.provider_counted;
    global_counted = v.global_counted;
    provider_places = v.provider_places;
    global_places = v.global_places;
    active_keys = v.active_keys;
    tracked = λ k a e.
        let t = v.tracked k a e in
        let (r, found_r, _) = still-known l s s' q.logical found same _ _ t.known in
        record { keyed = t.keyed; admitted = t.admitted; state = r; known = found_r };
    attempts = λ x e.
        let t = v.attempts x e in
        let (r, found_r, last) = still-known l s s' q.logical found same _ _ t.known in
        record {
          request = t.request;
          asked = t.asked;
          state = r;
          identity = t.identity;
          known = found_r;
          latest = omega (arith, t.latest, last);
        };
  }

  settle_within-Ends :
      (k : String) (tokens : ℕ) (a : ActiveLease) (q : ProviderQuotaPhysics)
      → IsValid h q
      → lookup k q.active ≡ some a
      → Ends h (settle_within k tokens a q)
  unfolding settle_within refund_if_current refreshed_all
  settle_within-Ends k tokens a q v found =
      let w = refreshed_all-IsValid h q v in
      let q1 = refreshed_all q in
      let unused = a.reserved_tokens - tokens in
      let paid =
        other-IsValid h q1 q1.now_ms q1.provider_reset_until_ms q1.events _ _ _ _ w w.provider_rpm
          (credited-Within unused a.provider_tpm_window_start_ms q1.provider_tpm _ w.provider_tpm)
          w.global_rpm
          (credited-Within unused a.global_tpm_window_start_ms q1.global_tpm _ w.global_tpm) in
      returns-Ends h _ _ (release-IsValid k a _ paid found)

  refuse_settlement-Ends :
      (tokens : ℕ) (a : ActiveLease) (q : ProviderQuotaPhysics)
      → IsValid h q
      → Ends h (refuse_settlement tokens a q)
  unfolding refuse_settlement
  refuse_settlement-Ends tokens a q v =
      raises-Ends h settlement_error _
        (emit_with-IsValid h (QuotaDetails.settlement_refused a tokens) q v) Expected.refused

  pub settle_found-Ends :
      (k : String) (tokens : ℕ) (o : Option ActiveLease) (q : ProviderQuotaPhysics)
      → IsValid h q
      → lookup k q.active ≡ o
      → Ends h (settle_found k tokens o q)
  unfolding settle_found
  settle_found-Ends k tokens none q v found = raises-Ends h settlement_error q v Expected.refused
  settle_found-Ends k tokens (some a) q v found = elim (Bool-cases (ltb a.reserved_tokens tokens)) [
    | inl over ↦ rw over (refuse_settlement-Ends tokens a q v)
    | inr fits ↦ rw fits (settle_within-Ends k tokens a q v found)
  ]

  -- The call of a settled lease is known.
  pub settled-known :
      (k : String) (tokens : ℕ) (o : Option ActiveLease) (q : ProviderQuotaPhysics) (s : Settlement)
      → IsValid h q
      → lookup k q.active ≡ o
      → (settle_found k tokens o q).0 ≡ ok s
      → (l : LogicalState) × (lookup s.active.lease.logical_id (settle_found k tokens o q).1.logical
          ≡ some l)
  unfolding settle_found settle_within refund_if_current refreshed_all release refuse_settlement
  settled-known k tokens none q s v found e = cc
  settled-known k tokens (some a) q s v found e = elim (Bool-cases (ltb a.reserved_tokens tokens)) [
    | inl over ↦ cc (rw over at e)
    | inr fits ↦
        let t = v.tracked k a found in
        let same : a ≡ s.active = ap (λ (x : Settlement). x.active) (ok_inj (rw fits at e)) in
        (
          t.state,
          rw fits
              (ap (λ (x : ActiveLease). lookup x.lease.logical_id q.logical) (sym same) ∙ t.known),
        )
  ]

  pub logical_state_lem :
      (l : String) (q : ProviderQuotaPhysics) (s : LogicalState)
      → lookup l q.logical ≡ some s
      → logical_state l q ≡ (ok s, q)
  unfolding logical_state present
  logical_state_lem l q s e = rw e refl
