-- ===== src/Contracts/Profiles.antt =====
-- `BackendProfile`. Python's floating-point numbers, and the tests that the contracts make of them,
-- are a parameter.
use finite_agent_physics.Prelude.{
  ℕ, ℤ, is_negative, int_leb, int_ltb, ◌-◌, ◌^◌, String, Bool, false, not, ◌&&◌, ◌||◌, Option, none,
  some, List, [], ◌∷◌, any_of, selected, is_empty, codes, length, leb, ◌==◌,
}
use finite_agent_physics.Contracts.Ports.{ContractError}

-- `x < 0`, `0 <= x <= 1`, `x >= y`, `x < y` and `x == y`
pub record Floats : Type 1 where
  pub Float : Type 0
  pub below_zero : Float → Bool
  pub in_unit : Float → Bool
  pub at_least : Float → Float → Bool
  pub less : Float → Float → Bool
  pub same : Float → Float → Bool

abbrev pub max_resource_units : ℤ
max_resource_units = ℤ.pos (2 ^ 63 - 1)

-- `not 0 <= value <= MAX_RESOURCE_UNITS`
abbrev pub outside_units : ℤ → Bool
outside_units v = is_negative v || not (int_leb v max_resource_units)

pub record BackendProfile (F : Floats) : Type 0 where
  pub name : String
  pub provider : String
  pub duration_ms_p50 : ℤ
  pub duration_ms_p95 : ℤ
  pub input_tokens : ℤ
  pub output_tokens : ℤ
  pub cost_microusd : ℤ
  pub context_bytes : ℤ
  pub quality : F.Float
  pub failure_probability : F.Float
  pub profile_snapshot_digest : Option String
  pub cpu_time_ms : ℤ
  pub peak_memory_bytes : ℤ
  pub peak_vram_bytes : ℤ
  pub storage_read_bytes : ℤ
  pub storage_write_bytes : ℤ
  pub network_ingress_bytes : ℤ
  pub network_egress_bytes : ℤ
  pub min_bandwidth_bps : ℤ
  pub network_rtt_ms : ℤ
  pub egress_cost_microusd : ℤ

-- The code point is none of `0123456789abcdef`.
abbrev pub is_no_hex : ℕ → Bool
is_no_hex c = not ((leb 48 c && leb c 57) || (leb 97 c && leb c 102))

abbrev pub is_bad_digest : Option String → Bool
is_bad_digest none = false
is_bad_digest (some d) = not (length (codes d) == 64) || any_of is_no_hex (codes d)

abbrev pub physical : {F : Floats} → BackendProfile F → List ℤ
physical p =
    p.cpu_time_ms ∷ p.peak_memory_bytes ∷ p.peak_vram_bytes ∷ p.storage_read_bytes
    ∷ p.storage_write_bytes ∷ p.network_ingress_bytes ∷ p.network_egress_bytes ∷ p.min_bandwidth_bps
    ∷ p.network_rtt_ms ∷ p.egress_cost_microusd ∷ []

abbrev pub profile_tests : {F : Floats} → BackendProfile F → List (Bool × ContractError)
profile_tests {F} p =
    (is_empty p.name || is_empty p.provider, ContractError.profile_incomplete)
    ∷ (
      is_negative p.duration_ms_p50 || int_ltb p.duration_ms_p95 p.duration_ms_p50,
      ContractError.bad_durations p.name,
    )
    ∷ (
      any_of is_negative
          (p.input_tokens ∷ p.output_tokens ∷ p.cost_microusd ∷ p.context_bytes ∷ []),
      ContractError.negative_resources,
    )
    ∷ (not (F.in_unit p.quality), ContractError.bad_quality)
    ∷ (not (F.in_unit p.failure_probability), ContractError.bad_failure_probability)
    ∷ (is_bad_digest p.profile_snapshot_digest, ContractError.bad_digest)
    ∷ (any_of outside_units (physical p), ContractError.bad_physical_values)
    ∷ []

-- `BackendProfile.validate`
unfoldable pub profile_errors : {F : Floats} → BackendProfile F → List ContractError
unfolding selected
profile_errors p = selected (profile_tests p)
