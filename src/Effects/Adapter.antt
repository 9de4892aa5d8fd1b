-- ===== src/Effects/Adapter.antt =====
-- `SimulatedEffectAdapter` of effects.py: the in-memory target, which keeps what it was asked to apply
-- also when the caller's transaction is rolled back.
use finite_agent_physics.Prelude.{
  ℕ, String, Bool, true, false, not, ◌||◌, Option, none, some, List, [], ◌∷◌, Dict, lookup, insert,
  elem, ltb, ◌=ˢ◌, if◌then◌else◌, Action, pure, raise, gets, modify, raise_if, ◌>>=◌, ◌>>◌,
}
use finite_agent_physics.Effects.Types.{
  EffectError, invalid_transition, stale_fence, adapter_conflict, simulated_process_crash,
  simulated_ambiguous_outcome, is_reversible, EffectIntent, FencingToken, Platform,
}

pub record SimulatedApplication : Type 0 where
  pub intent_id : String
  pub effect_digest : String
  pub idempotency_key : String
  pub fence_version : ℕ

pub record SimulatedEffectAdapter : Type 0 where
  pub applications : Dict SimulatedApplication
  pub compensated : List String
  pub physical_apply_counts : Dict ℕ
  pub physical_compensation_counts : Dict ℕ
  pub highest_fences : Dict ℕ
  pub soft_crashes : List String
  pub hard_crashes : List String

abbrev pub new_adapter : SimulatedEffectAdapter
new_adapter = record {
  applications = [];
  compensated = [];
  physical_apply_counts = [];
  physical_compensation_counts = [];
  highest_fences = [];
  soft_crashes = [];
  hard_crashes = [];
}

abbrev pub Target : Type 0 → Type 0
Target A = Action SimulatedEffectAdapter EffectError A

-- `set.add` and `set.remove`
abbrev set_add : String → List String → List String
set_add k s = if elem k s then s else k ∷ s

set_remove : String → List String → List String
set_remove k [] = []
set_remove k (x ∷ xs) = let rest = set_remove k xs in if k =ˢ x then rest else x ∷ rest

pub arm_ambiguous_after_apply : String → Target (Unit {0})
arm_ambiguous_after_apply key = modify (λ t. record t { soft_crashes = set_add key t.soft_crashes })

pub arm_process_crash_after_apply : String → Target (Unit {0})
arm_process_crash_after_apply key =
    modify (λ t. record t { hard_crashes = set_add key t.hard_crashes })

-- `d.get(k, 0)`
abbrev count_of : String → Dict ℕ → ℕ
count_of k d = elim (lookup k d) [ none ↦ 0 | some n ↦ n ]

pub physical_apply_count : String → SimulatedEffectAdapter → ℕ
physical_apply_count key t = count_of key t.physical_apply_counts

pub physical_compensation_count : String → SimulatedEffectAdapter → ℕ
physical_compensation_count key t = count_of key t.physical_compensation_counts

module _ (p : Platform) where
  -- The application at a key is of another effect than the intent's.
  abbrev pub is_foreign : SimulatedApplication → EffectIntent → Bool
  is_foreign a i =
      not (a.intent_id =ˢ i.intent_id) || not (a.effect_digest =ˢ p.effect_digest i.operation)

  -- The check and the update of the highest fence seen.
  unfoldable pub observe_fence : EffectIntent → FencingToken → Target (Unit {0})
  observe_fence i token = do
    t ← gets (λ t. t)
    raise_if (ltb token.version (count_of i.intent_id t.highest_fences)) stale_fence
    modify (λ t. record t { highest_fences = insert i.intent_id token.version t.highest_fences })

  -- The first application at a key, and the armed faults after it.
  unfoldable pub apply_first : EffectIntent → FencingToken → Target Bool
  unfolding set_remove
  apply_first i token = do
    modify (λ t. record t {
      applications =
          insert i.idempotency_key
            (record {
              intent_id = i.intent_id;
              effect_digest = p.effect_digest i.operation;
              idempotency_key = i.idempotency_key;
              fence_version = token.version;
            })
            t.applications;
      physical_apply_counts = insert i.idempotency_key 1 t.physical_apply_counts;
    })
    t ← gets (λ t. t)
    if elem i.idempotency_key t.hard_crashes
        then (do
          modify (λ t. record t { hard_crashes = set_remove i.idempotency_key t.hard_crashes })
          raise simulated_process_crash)
        else if elem i.idempotency_key t.soft_crashes
        then (do
          modify (λ t. record t { soft_crashes = set_remove i.idempotency_key t.soft_crashes })
          raise simulated_ambiguous_outcome)
        else pure true

  unfoldable pub apply_at : EffectIntent → FencingToken → Option SimulatedApplication → Target Bool
  unfolding apply_first
  apply_at i token none = apply_first i token
  apply_at i token (some existing) = do
    raise_if (is_foreign existing i) adapter_conflict
    pure false

  unfoldable pub execute : EffectIntent → FencingToken → Target Bool
  unfolding observe_fence apply_at
  execute i token = do
    observe_fence i token
    existing ← gets (λ t. lookup i.idempotency_key t.applications)
    apply_at i token existing

  unfoldable pub was_applied_at : EffectIntent → Option SimulatedApplication → Target Bool
  was_applied_at i none = pure false
  was_applied_at i (some existing) = do raise_if (is_foreign existing i) adapter_conflict; pure true

  unfoldable pub was_applied : EffectIntent → Target Bool
  unfolding was_applied_at
  was_applied i = do
    existing ← gets (λ t. lookup i.idempotency_key t.applications)
    was_applied_at i existing

  unfoldable pub compensate_target : EffectIntent → FencingToken → Target Bool
  unfolding was_applied observe_fence
  compensate_target i token = do
    raise_if (not (is_reversible i.effect_class)) invalid_transition
    applied ← was_applied i
    raise_if (not applied) invalid_transition
    observe_fence i token
    t ← gets (λ t. t)
    if elem i.idempotency_key t.compensated then pure false else (do
      modify (λ t. record t {
        compensated = set_add i.idempotency_key t.compensated;
        physical_compensation_counts = insert i.idempotency_key 1 t.physical_compensation_counts;
      })
      pure true)
