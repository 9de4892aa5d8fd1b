-- ===== src/Adapters/Examples.antt =====
-- The negotiation at concrete bindings.
use finite_agent_physics.Prelude.{◌≡◌, refl, true, false, some, List, [], ◌∷◌, ok, All}
use finite_agent_physics.Effects.Types.{EffectClass}
use finite_agent_physics.Adapters.Capabilities.{
  CancellationSemantics, CheckpointSemantics, UsageSemantics, AdapterCapabilities, Binding,
  validate_adapter_bindings,
}
use finite_agent_physics.Adapters.Sufficiency.{Served, accepted_bindings-Served}

abbrev manifest : AdapterCapabilities
manifest = record {
  adapter_id = "adapter";
  adapter_version = "1";
  provider = "local";
  cancellation = CancellationSemantics.hard;
  checkpoint = CheckpointSemantics.receipt;
  streaming = true;
  usage = UsageSemantics.estimated;
  supported_effects = EffectClass.read ∷ [];
  effect_fencing = false;
  hidden_retries_max = 0;
  schema_version = "finite-adapter-capabilities/v1";
}

abbrev bindings : List Binding
bindings =
    record {
      task_id = "t1";
      requirement = some (record {
        cancellation = CancellationSemantics.cooperative;
        checkpoint = CheckpointSemantics.none;
        streaming = true;
        usage = UsageSemantics.none;
        effect_fencing = false;
        max_hidden_retries = 1;
      });
      effect_kind = EffectClass.read;
      profile_provider = "local";
      manifest = some manifest;
    }
    ∷ []

accepts : validate_adapter_bindings bindings ≡ ok (("t1", manifest) ∷ [])
unfolding validate_adapter_bindings
accepts = refl

accepted_bindings-Served_example : All Served bindings
accepted_bindings-Served_example = accepted_bindings-Served bindings (("t1", manifest) ∷ []) accepts
