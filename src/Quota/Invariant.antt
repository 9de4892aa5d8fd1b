-- ===== src/Quota/Invariant.antt =====
-- The invariant of `ProviderQuotaPhysics`, and what the identities are assumed to be.
use mathlib.Core.List.{Memᴰ}
use finite_agent_physics.Prelude.{
  map, ◌++◌, ℕ, ◌-◌, ◌/◌, subst, ◌≤◌, ◌≡◌, refl, String, true, some, List, lookup, IsDict, elem,
  length, arith, Result, ok, err, ltb, Bool-cases, inl, inr, continue,
}
use finite_agent_physics.Prelude.Any.{mem-left, mem-right, mem-map}
use finite_agent_physics.Quota.Buckets.{QuotaError, TokenBucket, refreshed}
use finite_agent_physics.Quota.Requests.{CallRequest, LogicalState}
use finite_agent_physics.Quota.Identities.{
  Sha256, identity_of, attempt_material, lease_material, attempt_identity, lease_identity,
  attempt_material_inj, lease_material_inj,
}
use finite_agent_physics.Quota.State.{
  ActiveLease, QuotaEvent, QuotaSnapshot, QuotaDetails, ProviderQuotaPhysics, Quota, refreshed_all,
  emit_with, quota_snapshot,
}

-- A run of one object: its hash, its provider, and the requests that it is asked.
pub record Asked : Type 0 where
  pub hash : Sha256
  pub provider : String
  pub requests : List CallRequest

abbrev pub requested_identity : Asked → CallRequest → String
requested_identity h c = attempt_identity h.hash h.provider c.logical_id c.attempt

-- The texts that are hashed for the requests: for the attempts, and for their leases.
abbrev pub hashed_texts : Asked → List (List ℕ)
hashed_texts h =
    map (λ (c : CallRequest). attempt_material h.provider c.logical_id c.attempt) h.requests
    ++ map (λ c. lease_material (requested_identity h c)) h.requests

-- Of the texts that are hashed in the run, no two that differ have the same shortened digest.
abbrev pub CollisionFree : Asked → Type 0
CollisionFree h =
    (m m' : List ℕ)
    → Memᴰ m (hashed_texts h)
    → Memᴰ m' (hashed_texts h)
    → identity_of h.hash m ≡ identity_of h.hash m'
    → m ≡ m'

module _ (h : Asked) (free : CollisionFree h) (c c' : CallRequest) (asked : Memᴰ c h.requests)
    (asked' : Memᴰ c' h.requests) where
  pub same_attempt :
      requested_identity h c ≡ requested_identity h c'
      → (c.logical_id ≡ c'.logical_id) × (c.attempt ≡ c'.attempt)
  same_attempt e = attempt_material_inj h.provider c.logical_id c'.logical_id c.attempt c'.attempt (
      free _ _ (mem-left _ _ (mem-map _ h.requests asked))
        (mem-left _ _ (mem-map _ h.requests asked')) e)

  pub same_lease :
      lease_identity h.hash (requested_identity h c)
        ≡ lease_identity h.hash (requested_identity h c')
      → requested_identity h c ≡ requested_identity h c'
  same_lease e = lease_material_inj _ _ (
      free _ _ (mem-right _ _ (mem-map _ h.requests asked))
        (mem-right _ _ (mem-map _ h.requests asked')) e)

pub record Within (t : TokenBucket) (limit : ℕ) : Type 0 where
  pub bounded : t.remaining ≤ t.capacity
  pub limited : t.capacity ≡ limit

-- A lease in the table: its key is its identity, it was admitted, and its call is known.
pub record Tracked (h : Asked) (q : ProviderQuotaPhysics) (k : String) (a : ActiveLease)
    : Type 0 where
  pub keyed : k ≡ lease_identity h.hash a.lease.attempt_id
  pub admitted : elem a.lease.attempt_id q.admitted_attempt_ids ≡ true
  pub state : LogicalState
  pub known : lookup a.lease.logical_id q.logical ≡ some state

-- An admitted identity is that of a request, for an attempt of a known call that is not later than
-- its last one.
pub record Admitted (h : Asked) (q : ProviderQuotaPhysics) (x : String) : Type 0 where
  pub request : CallRequest
  pub asked : Memᴰ request h.requests
  pub state : LogicalState
  pub identity : x ≡ requested_identity h request
  pub known : lookup request.logical_id q.logical ≡ some state
  pub latest : request.attempt ≤ state.last_attempt

pub record IsValid (h : Asked) (q : ProviderQuotaPhysics) : Type 0 where
  pub named : q.provider_id ≡ h.provider
  pub provider_rpm : Within q.provider_rpm q.provider_limits.rpm
  pub provider_tpm : Within q.provider_tpm q.provider_limits.tpm
  pub global_rpm : Within q.global_rpm q.global_limits.rpm
  pub global_tpm : Within q.global_tpm q.global_limits.tpm
  pub provider_counted : q.provider_active ≡ length q.active
  pub global_counted : q.global_active ≡ length q.active
  pub provider_places : q.provider_active ≤ q.provider_limits.concurrency
  pub global_places : q.global_active ≤ q.global_limits.concurrency
  pub active_keys : IsDict q.active
  pub tracked : (k : String) (a : ActiveLease) → lookup k q.active ≡ some a → Tracked h q k a
  pub attempts : (x : String) → elem x q.admitted_attempt_ids ≡ true → Admitted h q x

refreshed-Within :
    (now : ℕ) (t : TokenBucket) (limit : ℕ) → Within t limit → Within (refreshed now t) limit
unfolding refreshed
refreshed-Within now t limit w =
    elim (Bool-cases (ltb 0 ((now - t.last_refill_ms) / t.refill_every_ms))) [
      | inl e ↦ rw e (record { bounded = omega arith; limited = w.limited })
      | inr e ↦ rw e w
    ]

module _ (h : Asked) where
  -- The invariant does not read the clock, the reset time and the events, nor of the buckets more
  -- than their bounds.
  pub other-IsValid :
      (q : ProviderQuotaPhysics) (now reset : ℕ) (es : List QuotaEvent)
      (prpm ptpm grpm gtpm : TokenBucket)
      → IsValid h q
      → Within prpm q.provider_limits.rpm
      → Within ptpm q.provider_limits.tpm
      → Within grpm q.global_limits.rpm
      → Within gtpm q.global_limits.tpm
      → IsValid h (record q {
        now_ms = now;
        provider_reset_until_ms = reset;
        events = es;
        provider_rpm = prpm;
        provider_tpm = ptpm;
        global_rpm = grpm;
        global_tpm = gtpm;
      })
  other-IsValid q now reset es prpm ptpm grpm gtpm v w1 w2 w3 w4 = record {
    named = v.named;
    provider_rpm = w1;
    provider_tpm = w2;
    global_rpm = w3;
    global_tpm = w4;
    provider_counted = v.provider_counted;
    global_counted = v.global_counted;
    provider_places = v.provider_places;
    global_places = v.global_places;
    active_keys = v.active_keys;
    tracked = λ k a e.
        let t = v.tracked k a e in
        record { keyed = t.keyed; admitted = t.admitted; state = t.state; known = t.known };
    attempts = λ x e.
        let t = v.attempts x e in
        record {
          request = t.request;
          asked = t.asked;
          state = t.state;
          identity = t.identity;
          known = t.known;
          latest = t.latest;
        };
  }

  pub same-IsValid :
      (q : ProviderQuotaPhysics) (now reset : ℕ) (es : List QuotaEvent)
      → IsValid h q
      → IsValid h (record q { now_ms = now; provider_reset_until_ms = reset; events = es })
  same-IsValid q now reset es v =
      other-IsValid q now reset es _ _ _ _ v v.provider_rpm v.provider_tpm v.global_rpm v.global_tpm

  pub refreshed_all-IsValid : (q : ProviderQuotaPhysics) → IsValid h q → IsValid h (refreshed_all q)
  unfolding refreshed_all
  refreshed_all-IsValid q v =
      other-IsValid q _ _ _ _ _ _ _ v (refreshed-Within q.now_ms q.provider_rpm _ v.provider_rpm)
        (refreshed-Within q.now_ms q.provider_tpm _ v.provider_tpm)
        (refreshed-Within q.now_ms q.global_rpm _ v.global_rpm)
        (refreshed-Within q.now_ms q.global_tpm _ v.global_tpm)

  pub emit_with-IsValid :
      (d : QuotaSnapshot → QuotaDetails) (q : ProviderQuotaPhysics)
      → IsValid h q
      → IsValid h (emit_with d q).1
  unfolding emit_with quota_snapshot
  emit_with-IsValid d q v =
      let w = refreshed_all-IsValid q v in same-IsValid (refreshed_all q) _ _ _ w

-- The errors that a caller can cause.
pub data Expected : QuotaError → Type 0 where
  bad_value : Expected QuotaError.value_error
  refused : Expected QuotaError.settlement_error

-- A call that ends in a valid state, and with an expected error if with one.
pub record Ends (h : Asked) {A : Type 0} (r : Result QuotaError A × ProviderQuotaPhysics)
    : Type 0 where
  pub valid : IsValid h r.1
  pub expected : (e : QuotaError) → r.0 ≡ err e → Expected e

pub returns-Ends :
    {A : Type 0} (h : Asked) (a : A) (q : ProviderQuotaPhysics) → IsValid h q → Ends h (ok a, q)
returns-Ends h a q v = record { valid = v; expected = λ e p. cc }

pub raises-Ends :
    {A : Type 0} (h : Asked) (e : QuotaError) (q : ProviderQuotaPhysics)
    → IsValid h q
    → Expected e
    → Ends h {A = A} (err e, q)
raises-Ends h e q v x = record { valid = v; expected = λ e' p. subst Expected (err_inj p) x }
  where
    err_inj :
        {A : Type 0} {x y : QuotaError} → (let r : Result QuotaError A = err x in r) ≡ err y → x ≡ y
    err_inj p = cc

pub then-Ends :
    {A B : Type 0} (h : Asked) (r : Result QuotaError A × ProviderQuotaPhysics) (f : A → Quota B)
    → Ends h r
    → ((a : A) → r.0 ≡ ok a → IsValid h r.1 → Ends h (f a r.1))
    → Ends h (continue r f)
then-Ends h (ok a, q) f e k = k a refl e.valid
then-Ends h (err x, q) f e k = record {
  valid = e.valid;
  expected = λ e' p. e.expected e' (again p);
}
  where
    again :
        {A B : Type 0} {x y : QuotaError}
        → (let r : Result QuotaError B = err x in r) ≡ err y
        → (let r : Result QuotaError A = err x in r) ≡ err y
    again p = cc
