-- ===== src/Contracts/Tasks.antt =====
-- `TaskContract`. The checks of its adapter requirements are of Python types, and hold of every value.
use finite_agent_physics.Prelude.{
  ℤ, int_leb, String, Bool, true, false, not, ◌&&◌, Option, none, some, List, [], ◌∷◌, ◌++◌, map,
  any_of, concat_map, repeats, selected, is_empty, elem, ◌=ˢ◌,
}
use finite_agent_physics.Adapters.Capabilities.{AdapterRequirements}
use finite_agent_physics.Contracts.Ports.{
  ContractError, OutputPort, InputPort, Effect, output_errors, input_errors, effect_errors,
}
use finite_agent_physics.Contracts.Profiles.{Floats, BackendProfile, profile_errors}

pub record TaskContract (F : Floats) : Type 0 where
  pub task_id : String
  pub profiles : List (BackendProfile F)
  pub dependencies : List String
  pub effect : Effect
  pub optional : Bool
  pub value : F.Float
  pub min_quality : F.Float
  pub deadline_ms : Option ℤ
  pub description : String
  pub input_ports : List InputPort
  pub output_ports : List OutputPort
  pub adapter_requirements : Option AdapterRequirements

abbrev pub not_positive : Option ℤ → Bool
not_positive none = false
not_positive (some d) = int_leb d (ℤ.pos 0)

abbrev pub same_identity : String × String → String × String → Bool
same_identity a b = a.0 =ˢ b.0 && a.1 =ˢ b.1

abbrev pub is_nil {ℓ} : {A : Type ℓ} → List A → Bool
is_nil [] = true
is_nil (x ∷ xs) = false

module _ {F : Floats} (t : TaskContract F) where
  -- The errors before and after those of the parts.
  abbrev pub own_errors : List ContractError
  own_errors = selected (
      (is_empty t.task_id, ContractError.task_id_empty)
      ∷ (is_nil t.profiles, ContractError.no_profile)
      ∷ (elem t.task_id t.dependencies, ContractError.self_dependency)
      ∷ (F.below_zero t.value, ContractError.negative_value)
      ∷ (not (F.in_unit t.min_quality), ContractError.bad_min_quality)
      ∷ (not_positive t.deadline_ms, ContractError.bad_deadline)
      ∷ [])

  abbrev pub name_errors : List ContractError
  name_errors = selected (
      (
        repeats (λ a b. a =ˢ b) (map (λ (p : InputPort). p.name) t.input_ports),
        ContractError.input_names_repeat,
      )
      ∷ (
        repeats (λ a b. a =ˢ b) (map (λ (p : OutputPort). p.name) t.output_ports),
        ContractError.output_names_repeat,
      )
      ∷ (
        repeats same_identity (map (λ (p : BackendProfile F). (p.name, p.provider)) t.profiles),
        ContractError.identities_repeat,
      )
      ∷ (
        not (is_nil t.profiles)
            && not
                (any_of (λ (p : BackendProfile F). F.at_least p.quality t.min_quality) t.profiles),
        ContractError.no_backend_meets_quality,
      )
      ∷ [])

  -- `TaskContract.validate`
  unfoldable pub task_errors : List ContractError
  unfolding selected profile_errors input_errors output_errors effect_errors
  task_errors =
      own_errors
      ++ effect_errors t.effect
      ++ concat_map profile_errors t.profiles
      ++ concat_map input_errors t.input_ports
      ++ concat_map output_errors t.output_ports
      ++ name_errors
