-- ===== src/Contracts/Examples.antt =====
-- A concrete envelope, with percentages in place of floating-point numbers.
use finite_agent_physics.Prelude.{ltb, ◌==◌, ℕ, leb, ℤ, int_leb, false, [], ◌∷◌, ◌≡◌, refl}
use finite_agent_physics.Contracts.Profiles.{Floats, max_resource_units}
use finite_agent_physics.Contracts.Envelopes.{
  RunEnvelope, envelope_errors, provider_limit, provider_limit-IsPositive,
}

abbrev pub parts : Floats
parts = record {
  Float = ℕ;
  below_zero = λ x. false;
  in_unit = λ x. leb x 100;
  at_least = λ x y. leb y x;
  less = λ x y. ltb x y;
  same = λ x y. x == y;
}

abbrev pub envelope : RunEnvelope parts
envelope = record {
  deadline_ms = ℤ.pos 60000;
  max_tokens = ℤ.pos 5000;
  max_cost_microusd = ℤ.pos 100;
  max_context_bytes = ℤ.pos 4096;
  max_parallelism = ℤ.pos 4;
  min_modeled_success_probability = 80;
  provider_limits = ("p", ℤ.pos 2) ∷ ("q", ℤ.pos 1) ∷ [];
  max_cpu_time_ms = max_resource_units;
  max_peak_memory_bytes = max_resource_units;
  max_peak_vram_bytes = max_resource_units;
  max_storage_read_bytes = max_resource_units;
  max_storage_write_bytes = max_resource_units;
  max_network_ingress_bytes = max_resource_units;
  max_network_egress_bytes = max_resource_units;
  available_bandwidth_bps = max_resource_units;
  max_network_rtt_ms = max_resource_units;
  max_egress_cost_microusd = max_resource_units;
}

envelope_clean : envelope_errors envelope ≡ []
unfolding envelope_errors
envelope_clean = refl

provider_limit-IsPositive_example : int_leb (provider_limit envelope "q") (ℤ.pos 0) ≡ false
provider_limit-IsPositive_example = provider_limit-IsPositive envelope "q" envelope_clean
