-- ===== src/Contracts/Ports.antt =====
-- `OutputPort`, `InputPort` and `Effect`. An error is a message of
-- the code without the task's name, which every message of a task's contract begins with.
use finite_agent_physics.Prelude.{
  String, Bool, true, not, ◌&&◌, ◌||◌, Option, none, some, List, [], ◌∷◌, selected, is_empty,
}
use finite_agent_physics.Effects.Types.{EffectClass, class_eq}

pub data ContractError : Type 0 where
  task_id_empty no_profile self_dependency negative_value bad_min_quality bad_deadline :
      ContractError
  input_names_repeat output_names_repeat identities_repeat no_backend_meets_quality : ContractError
  output_name_empty input_name_empty : ContractError
  output_incomplete input_incomplete input_without_producer : (port : String) → ContractError
  resource_required key_required compensation_required approval_required : ContractError
  profile_incomplete negative_resources bad_quality bad_failure_probability : ContractError
  bad_digest bad_physical_values : ContractError
  bad_durations : (profile : String) → ContractError

pub record OutputPort : Type 0 where
  pub name : String
  pub schema : String
  pub schema_version : String
  pub media_type : String

pub record InputPort : Type 0 where
  pub name : String
  pub source_task_id : String
  pub source_port : String
  pub schema : String
  pub schema_version : String
  pub media_type : String

pub record Effect : Type 0 where
  pub kind : EffectClass
  pub resource : String
  pub requires_approval : Bool
  pub idempotency_key : Option String
  pub compensation : Option String

-- `not text`, where there may be none
abbrev pub is_missing : Option String → Bool
is_missing none = true
is_missing (some s) = is_empty s

unfoldable pub output_errors : OutputPort → List ContractError
unfolding selected
output_errors p = selected (
    (is_empty p.name, ContractError.output_name_empty)
    ∷ (
      is_empty p.schema || is_empty p.schema_version || is_empty p.media_type,
      ContractError.output_incomplete p.name,
    )
    ∷ [])

unfoldable pub input_errors : InputPort → List ContractError
unfolding selected
input_errors p = selected (
    (is_empty p.name, ContractError.input_name_empty)
    ∷ (
      is_empty p.source_task_id || is_empty p.source_port,
      ContractError.input_without_producer p.name,
    )
    ∷ (
      is_empty p.schema || is_empty p.schema_version || is_empty p.media_type,
      ContractError.input_incomplete p.name,
    )
    ∷ [])

unfoldable pub effect_errors : Effect → List ContractError
unfolding selected class_eq
effect_errors e = selected (
    (not (class_eq e.kind EffectClass.pure) && is_empty e.resource, ContractError.resource_required)
    ∷ (
      (class_eq e.kind EffectClass.idempotent_write
            || class_eq e.kind EffectClass.irreversible_write)
          && is_missing e.idempotency_key,
      ContractError.key_required,
    )
    ∷ (
      class_eq e.kind EffectClass.reversible_write && is_missing e.compensation,
      ContractError.compensation_required,
    )
    ∷ (
      class_eq e.kind EffectClass.irreversible_write && not e.requires_approval,
      ContractError.approval_required,
    )
    ∷ [])
