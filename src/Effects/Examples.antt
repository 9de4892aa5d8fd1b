-- ===== src/Effects/Examples.antt =====
-- Runs of the effect kernel at concrete inputs, and the instances of its theorems there.
use finite_agent_physics.Prelude.{
  true, arith, ok, ◌≡◌, refl, ◌⊎◌, ◌+◌, none, some, List, [], ◌∷◌, err, lookup, insert, Result,
}
use finite_agent_physics.Effects.Types.{
  EffectError, EffectState, EffectClass, EffectIntent, Operation, FencingToken, ApprovalGrant,
  Platform, Broker, simulated_process_crash,
}
use finite_agent_physics.Effects.Adapter.{new_adapter}
use finite_agent_physics.Effects.Database.{
  World, transaction, load, find_intent, assert_fence, set_state,
}
use finite_agent_physics.Effects.Approval.{ApprovalAuthority, find_grant, issue, verify_grant}
use finite_agent_physics.Effects.Commit.{commit}
use finite_agent_physics.Effects.Calls.{EffectCall, call, run}
use finite_agent_physics.Effects.Evolution.{row}
use finite_agent_physics.Effects.Histories.{Develops, run-Develops, final_stays}
use finite_agent_physics.Effects.Authority.{Authorized}
use finite_agent_physics.Effects.Commitment.{commit-Authorized}
use finite_agent_physics.Effects.Fencing.{overtaken_token}
use finite_agent_physics.Effects.Grants.{verify_grant-issue}
use finite_agent_physics.Effects.Rollback.{raised_call_undone}

abbrev platform : Platform
platform = record {
  effect_digest = λ o. o.payload_json;
  sign = λ secret claims. claims.grant_id;
  clock_ms = λ n. 1000 + n;
  uuid = λ n. "u";
}

abbrev broker : Broker
broker = record { broker_id = "broker_a"; trusted_keys = ("key", 1 ∷ []) ∷ [] }

abbrev refund : Operation
refund = record {
  intent_id = "i1";
  run_id = "run";
  action = "refund";
  resource = "account";
  effect_class = EffectClass.irreversible_write;
  idempotency_key = "k1";
  payload_json = "{}";
  compensation_action = none;
}

abbrev intent_in : EffectState → EffectIntent
intent_in s = record {
  operation = refund;
  state = s;
  fence_version = 1;
  fence_owner = some "broker_a";
  approval_grant_id = some "g1";
  last_error = none;
  created_at_ms = 900;
  updated_at_ms = 900;
}

abbrev token : FencingToken
token = record { intent_id = "i1"; version = 1; owner = "broker_a" }

abbrev grant : ApprovalGrant
grant = record {
  claims = record {
    grant_id = "g1";
    key_id = "key";
    principal = "alice";
    intent_id = "i1";
    run_id = "run";
    effect_digest = "{}";
    resource = "account";
    action = "refund";
    not_before_ms = 900;
    expires_at_ms = 2000;
  };
  signature = "g1";
}

abbrev world_in : EffectState → World
world_in s = record {
  database = record { intents = intent_in s ∷ []; grants = grant ∷ []; outbox = []; sequence = 0 };
  adapter = new_adapter;
  clock_reads = 0;
  uuids = 0;
}

abbrev calls : List (Broker × EffectCall)
calls = (broker, EffectCall.commits "i1" token) ∷ (broker, EffectCall.prepares "i1") ∷ []

stored_row : (s : EffectState) → row "i1" (world_in s) ≡ some (intent_in s)
unfolding find_intent
stored_row s = refl

run-Develops_example :
    (j : EffectIntent) × (row "i1" (run platform calls (world_in EffectState.approved)) ≡ some j)
    × Develops calls (intent_in EffectState.approved) j
run-Develops_example =
    run-Develops platform calls (world_in EffectState.approved) "i1"
      (intent_in EffectState.approved) (stored_row EffectState.approved)

final_stays_example :
    (j : EffectIntent) × (row "i1" (run platform calls (world_in EffectState.aborted)) ≡ some j)
    × (j.state ≡ EffectState.aborted)
final_stays_example =
    final_stays platform calls (world_in EffectState.aborted) "i1" (intent_in EffectState.aborted)
      (stored_row EffectState.aborted) refl

-- The commit of an approved irreversible write calls the target and returns.
commit_applies :
    (commit platform broker "i1" token
      (world_in EffectState.approved)).1.adapter.physical_apply_counts
    ≡ ("k1", 1) ∷ []
unfolding commit transaction load find_intent assert_fence find_grant lookup set_state insert
commit_applies = refl

commit-Authorized_example :
    ((commit platform broker "i1" token (world_in EffectState.approved)).1.adapter ≡ new_adapter)
    ⊎ ((i : EffectIntent) × (row "i1" (world_in EffectState.approved) ≡ some i)
        × Authorized platform broker token i (world_in EffectState.approved))
commit-Authorized_example =
    commit-Authorized platform broker "i1" token (world_in EffectState.approved)

-- The target applies the effect and the process dies before the database commits.
abbrev dying_world : World
dying_world = record (world_in EffectState.approved) {
  adapter = record new_adapter { hard_crashes = "k1" ∷ [] };
}

abbrev after_death : Result EffectError (Unit {0}) × World
after_death = call platform broker (EffectCall.commits "i1" token) dying_world

dies : after_death ≡ (err simulated_process_crash, after_death.1)
unfolding call commit transaction load find_intent assert_fence find_grant lookup set_state insert
dies = refl

raised_call_undone_example : after_death.1.database ≡ dying_world.database
raised_call_undone_example =
    raised_call_undone platform broker (EffectCall.commits "i1" token) dying_world after_death.1
      simulated_process_crash dies (λ e. cc)

abbrev old_token : FencingToken
old_token = record { intent_id = "i1"; version = 0; owner = "broker_b" }

overtaken_token_example :
    (commit platform broker "i1" old_token
      (run platform calls (world_in EffectState.prepared))).1.adapter
    ≡ (run platform calls (world_in EffectState.prepared)).adapter
overtaken_token_example =
    overtaken_token platform broker calls (world_in EffectState.prepared) "i1" old_token
      (intent_in EffectState.prepared) (stored_row EffectState.prepared) (omega arith)

abbrev authority : ApprovalAuthority
authority = record { key_id = "key"; secret = 1 ∷ [] }

grant_issued :
    (issue platform authority
      (intent_in EffectState.prepared)
      "alice"
      900
      1100
      none
      none
      (some "g1")
      (world_in EffectState.prepared)).0
    ≡ ok grant
unfolding issue
grant_issued = refl

key_trusted : lookup "key" broker.trusted_keys ≡ some (1 ∷ [])
unfolding lookup
key_trusted = refl

verify_grant-issue_example :
    (verify_grant platform broker
      (intent_in EffectState.prepared)
      grant
      true
      (world_in EffectState.prepared)).0
    ≡ ok tt
verify_grant-issue_example =
    verify_grant-issue platform authority broker (intent_in EffectState.prepared) "alice" 900 1100
      (some "g1") (world_in EffectState.prepared) (world_in EffectState.prepared) grant grant_issued
      key_trusted (omega arith) (omega arith)
