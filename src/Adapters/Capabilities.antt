-- ===== src/Adapters/Capabilities.antt =====
-- Requirements, capabilities and their negotiation.
use finite_agent_physics.Prelude.{
  ℕ, String, Bool, false, not, ◌&&◌, ◌||◌, Option, List, [], ◌∷◌, selected, ◌++◌, ltb, is_empty,
  ◌=ˢ◌, if◌then◌else◌, Result, ok, err,
}
use finite_agent_physics.Effects.Types.{EffectClass, writes, class_eq}

pub data CancellationSemantics : Type 0 where
  none cooperative hard : CancellationSemantics

pub data CheckpointSemantics : Type 0 where
  none receipt resumable : CheckpointSemantics

pub data UsageSemantics : Type 0 where
  none estimated provider_reported : UsageSemantics

abbrev pub cancellation_rank : CancellationSemantics → ℕ
cancellation_rank CancellationSemantics.none = 0
cancellation_rank CancellationSemantics.cooperative = 1
cancellation_rank CancellationSemantics.hard = 2

abbrev pub checkpoint_rank : CheckpointSemantics → ℕ
checkpoint_rank CheckpointSemantics.none = 0
checkpoint_rank CheckpointSemantics.receipt = 1
checkpoint_rank CheckpointSemantics.resumable = 2

abbrev pub usage_rank : UsageSemantics → ℕ
usage_rank UsageSemantics.none = 0
usage_rank UsageSemantics.estimated = 1
usage_rank UsageSemantics.provider_reported = 2

pub record AdapterRequirements : Type 0 where
  pub cancellation : CancellationSemantics
  pub checkpoint : CheckpointSemantics
  pub streaming : Bool
  pub usage : UsageSemantics
  pub effect_fencing : Bool
  pub max_hidden_retries : ℕ

pub record AdapterCapabilities : Type 0 where
  pub adapter_id : String
  pub adapter_version : String
  pub provider : String
  pub cancellation : CancellationSemantics
  pub checkpoint : CheckpointSemantics
  pub streaming : Bool
  pub usage : UsageSemantics
  pub supported_effects : List EffectClass
  pub effect_fencing : Bool
  pub hidden_retries_max : ℕ
  pub schema_version : String

pub data AdapterError : Type 0 where
  unsupported_schema identity_required effects_not_unique : AdapterError
  no_manifest provider_mismatch insufficient_cancellation insufficient_checkpoint : AdapterError
  no_streaming insufficient_usage no_effect_fencing too_many_retries unsupported_effect :
      AdapterError

unfoldable pub supports : EffectClass → List EffectClass → Bool
unfolding class_eq
supports e [] = false
supports e (x ∷ xs) = class_eq e x || supports e xs

unfoldable pub has_repeats : List EffectClass → Bool
unfolding supports
has_repeats [] = false
has_repeats (x ∷ xs) = supports x xs || has_repeats xs

-- `AdapterCapabilities.validate`; the checks of Python types hold of every value here.
unfoldable pub validate : AdapterCapabilities → List AdapterError
unfolding selected has_repeats
validate c = selected (
    (not (c.schema_version =ˢ "finite-adapter-capabilities/v1"), AdapterError.unsupported_schema)
    ∷ (
      is_empty c.adapter_id || is_empty c.adapter_version || is_empty c.provider,
      AdapterError.identity_required,
    )
    ∷ (has_repeats c.supported_effects, AdapterError.effects_not_unique)
    ∷ [])

-- What the negotiation reads of a task: its contract's requirements and effect, the provider of its
-- profile, and the manifest of its worker, if there is one.
pub record Binding : Type 0 where
  pub task_id : String
  pub requirement : Option AdapterRequirements
  pub effect_kind : EffectClass
  pub profile_provider : String
  pub manifest : Option AdapterCapabilities

unfoldable pub shortfall_tests :
    Binding → AdapterRequirements → AdapterCapabilities → List (Bool × AdapterError)
unfolding supports
shortfall_tests b r c =
    (not (c.provider =ˢ b.profile_provider), AdapterError.provider_mismatch)
    ∷ (
      ltb (cancellation_rank c.cancellation) (cancellation_rank r.cancellation),
      AdapterError.insufficient_cancellation,
    )
    ∷ (
      ltb (checkpoint_rank c.checkpoint) (checkpoint_rank r.checkpoint),
      AdapterError.insufficient_checkpoint,
    )
    ∷ (r.streaming && not c.streaming, AdapterError.no_streaming)
    ∷ (ltb (usage_rank c.usage) (usage_rank r.usage), AdapterError.insufficient_usage)
    ∷ (r.effect_fencing && not c.effect_fencing, AdapterError.no_effect_fencing)
    ∷ (ltb r.max_hidden_retries c.hidden_retries_max, AdapterError.too_many_retries)
    ∷ (not (supports b.effect_kind c.supported_effects), AdapterError.unsupported_effect)
    ∷ []

abbrev pub shortfalls : Binding → AdapterRequirements → AdapterCapabilities → List AdapterError
shortfalls b r c = selected (shortfall_tests b r c)

-- The errors of one task and what is accepted for it.
unfoldable pub negotiate_manifest :
    Binding
    → AdapterRequirements
    → Option AdapterCapabilities
    → List AdapterError × List (String × AdapterCapabilities)
unfolding validate shortfall_tests selected
negotiate_manifest b r Option.none = (AdapterError.no_manifest ∷ [], [])
negotiate_manifest b r (Option.some c) = elim (validate c) [
  | [] ↦ (shortfalls b r c, (b.task_id, c) ∷ [])
  | e ∷ es ↦ (e ∷ es, [])
]

unfoldable pub negotiate :
    Binding → Option AdapterRequirements → List AdapterError × List (String × AdapterCapabilities)
unfolding negotiate_manifest
negotiate b Option.none = ([], [])
negotiate b (Option.some r) =
    if writes b.effect_kind then ([], []) else negotiate_manifest b r b.manifest

unfoldable pub negotiate_all :
    List Binding → List AdapterError × List (String × AdapterCapabilities)
unfolding negotiate
negotiate_all [] = ([], [])
negotiate_all (b ∷ bs) =
    let (errors, accepted) = negotiate b b.requirement in
    let (more_errors, more_accepted) = negotiate_all bs in
    (errors ++ more_errors, accepted ++ more_accepted)

-- The tasks come in the order of `sorted(profiles)`.
unfoldable pub validate_adapter_bindings :
    List Binding → Result (List AdapterError) (List (String × AdapterCapabilities))
unfolding negotiate_all
validate_adapter_bindings bs = elim ((negotiate_all bs).0) [
  | [] ↦ ok (negotiate_all bs).1
  | e ∷ es ↦ err (e ∷ es)
]
