-- ===== src/Quota/Examples.antt =====
-- Instances of the bounds at concrete inputs.
use finite_agent_physics.Prelude.{
  is_blank, lookup, insert, erase, none, some, refl, ok, err, ◌≤◌, ◌≡◌, List, [], ◌∷◌, arith,
}
use finite_agent_physics.ResourceLedger.Events.{codes_eq}
use finite_agent_physics.Quota.Requests.{identity_reasons, CallRequest}
use finite_agent_physics.Quota.State.{
  ProviderQuotaPhysics, QuotaDetails, new_physics, refreshed_all,
}
use finite_agent_physics.Quota.Admission.{capacity_reasons, acquire}
use finite_agent_physics.Quota.Calls.{QuotaCall, call, run}
use finite_agent_physics.Quota.Invariant.{IsValid, Expected}
use finite_agent_physics.Quota.Decisions.{Decides}
use finite_agent_physics.Quota.Histories.{
  requests, NoCollision, physics-IsValid, raised-Expected, acquired-Decides,
}
use finite_agent_physics.Quota.Identities.{
  attempt_identity, lease_identity, attempt_material, lease_material,
}
use finite_agent_physics.Quota.Digests.{marking, no_collision_among}
use finite_agent_physics.Quota.Buckets.{
  refreshed, backoff_for, QuotaError, QuotaLimits, RetryPolicy, new_bucket, TokenBucket, BucketCall,
  run_bucket,
}
use finite_agent_physics.Quota.Bounds.{run_bucket_bounded}

abbrev bucket : TokenBucket
bucket = record {
  capacity = 10;
  refill_every_ms = 100;
  epoch_ms = 0;
  remaining = 4;
  last_refill_ms = 0;
}

abbrev calls : List BucketCall
calls =
    BucketCall.consumes 3
    ∷ BucketCall.refunds 2 0
    ∷ BucketCall.refreshes 250
    ∷ BucketCall.consumes 11
    ∷ []

run_bucket_bounded_example :
    ((run_bucket calls bucket).remaining ≤ (run_bucket calls bucket).capacity)
    × ((run_bucket calls bucket).capacity ≡ 10)
run_bucket_bounded_example = run_bucket_bounded calls bucket (omega arith)

-- A provider with two places, and a call that fails, is refused during its backoff, and is retried.
abbrev small_limits : QuotaLimits
small_limits = record { rpm = 4; tpm = 100; concurrency = 2; window_ms = 1000 }

abbrev patient : RetryPolicy
patient = record { max_attempts = 3; base_backoff_ms = 50; max_backoff_ms = 400 }

abbrev physics : ProviderQuotaPhysics
physics = record {
  now_ms = 0;
  provider_id = "p";
  provider_limits = small_limits;
  global_limits = small_limits;
  retry_policy = patient;
  provider_rpm = new_bucket 4 1000 0;
  provider_tpm = new_bucket 100 1000 0;
  global_rpm = new_bucket 4 1000 0;
  global_tpm = new_bucket 100 1000 0;
  provider_active = 0;
  global_active = 0;
  provider_reset_until_ms = 0;
  events =
      record {
        sequence = 0;
        at_ms = 0;
        details = QuotaDetails.configured "p" small_limits small_limits patient;
      }
      ∷ [];
  logical = [];
  active = [];
  admitted_attempt_ids = [];
}

abbrev first_request : CallRequest
first_request = record {
  logical_id = "a";
  attempt = 0;
  estimated_tokens = 30;
  previous_attempt_id = none;
  deadline_ms = none;
}

abbrev second_request : CallRequest
second_request = record {
  logical_id = "a";
  attempt = 1;
  estimated_tokens = 30;
  previous_attempt_id = some "#";
  deadline_ms = none;
}

abbrev history : List QuotaCall
history =
    QuotaCall.acquires first_request
    ∷ QuotaCall.completes "####" 3
    ∷ QuotaCall.fails "#####" 12
    ∷ QuotaCall.acquires second_request
    ∷ QuotaCall.advances 100
    ∷ QuotaCall.acquires second_request
    ∷ []

physics_new : new_physics "p" small_limits small_limits 0 patient ≡ ok physics
unfolding new_physics is_blank
physics_new = refl

-- The identities of the calls: that of the first attempt, and that of its lease.
marked :
    (attempt_identity marking "p" "a" 0 ≡ "#")
    × (lease_identity marking (attempt_identity marking "p" "a" 0) ≡ "#####")
unfolding attempt_material lease_material
marked = (refl, refl)

once_more : NoCollision marking "p" (requests (QuotaCall.acquires second_request ∷ history))
unfolding attempt_material lease_material codes_eq
once_more = no_collision_among marking _ refl

so_far : NoCollision marking "p" (requests history)
unfolding attempt_material lease_material codes_eq
so_far = no_collision_among marking _ refl

physics-IsValid_example :
    IsValid
      (record { hash = marking; provider = "p"; requests = requests history })
      (run marking history physics)
physics-IsValid_example =
    physics-IsValid marking "p" small_limits small_limits 0 patient physics physics_new history
      so_far

settled_already :
    (call marking (QuotaCall.completes "#####" 3) (run marking history physics)).0
    ≡ err QuotaError.settlement_error
unfolding call run lookup identity_reasons refreshed_all capacity_reasons refreshed new_bucket
    insert attempt_material lease_material backoff_for erase
settled_already = refl

raised-Expected_example : Expected QuotaError.settlement_error
raised-Expected_example =
    raised-Expected marking "p" small_limits small_limits 0 patient physics physics_new history
      (QuotaCall.completes "#####" 3) so_far QuotaError.settlement_error settled_already

acquired-Decides_example :
    let before = run marking history physics in
    Decides marking (refreshed_all before) second_request (acquire marking second_request before)
acquired-Decides_example =
    acquired-Decides marking "p" small_limits small_limits 0 patient physics physics_new history
      second_request once_more
