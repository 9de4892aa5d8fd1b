-- ===== src/Physical/Amounts.antt =====
-- The fields of a profile and of an envelope that the admission reads, and its errors.
use finite_agent_physics.Prelude.{
  ℕ, ℤ, int_eq, String, Bool, true, false, ◌&&◌, Option, none, some, List, leb, ◌=ˢ◌, if◌then◌else◌,
  Result, ok, err,
}
use finite_agent_physics.Prelude.Results.{◌>>=◌}
use finite_agent_physics.Contracts.Profiles.{Floats, BackendProfile}
use finite_agent_physics.Contracts.Envelopes.{EnvelopeError, RunEnvelope}
use finite_agent_physics.Graph.Walks.{GraphFault}
use finite_agent_physics.Physical.Arithmetic.{int64_max}

-- The messages of `PhysicalAdmissionError`, a KeyError, and what escapes from the graph.
pub data PhysicalError : Type 0 where
  bad_envelope_field : (field : String) → PhysicalError
  invalid_envelope : List EnvelopeError → PhysicalError
  unknown_tasks omits_protected : List String → PhysicalError
  unknown_dependency : (task : String) → PhysicalError
  lacks_dependencies : (task : String) → List String → PhysicalError
  not_declared below_floor : (task : String) → PhysicalError
  bad_profile_field : (task field : String) → PhysicalError
  invalid_graph : GraphFault → PhysicalError
  escaped : GraphFault → PhysicalError
  key_error : PhysicalError
  unserializable digest_disagreed : PhysicalError
  no_fuel : PhysicalError

unfoldable pub strict_i64 : PhysicalError → (positive : Bool) → ℤ → Result PhysicalError ℕ
strict_i64 e positive (ℤ.pos n) =
    if leb (if positive then 1 else 0) n && leb n int64_max then ok n else err e
strict_i64 e positive (ℤ.negsuc n) = err e

-- The physical fields of a profile, and those of an envelope, once they are checked.
pub record Amounts : Type 0 where
  pub cpu_time_ms : ℕ
  pub peak_memory_bytes : ℕ
  pub peak_vram_bytes : ℕ
  pub storage_read_bytes : ℕ
  pub storage_write_bytes : ℕ
  pub network_ingress_bytes : ℕ
  pub network_egress_bytes : ℕ
  pub min_bandwidth_bps : ℕ
  pub network_rtt_ms : ℕ
  pub egress_cost_microusd : ℕ

pub record Caps : Type 0 where
  pub deadline_ms : ℕ
  pub max_parallelism : ℕ
  pub max_cpu_time_ms : ℕ
  pub max_peak_memory_bytes : ℕ
  pub max_peak_vram_bytes : ℕ
  pub max_storage_read_bytes : ℕ
  pub max_storage_write_bytes : ℕ
  pub max_network_ingress_bytes : ℕ
  pub max_network_egress_bytes : ℕ
  pub available_bandwidth_bps : ℕ
  pub max_network_rtt_ms : ℕ
  pub max_egress_cost_microusd : ℕ

abbrev caps_field : String → Bool → ℤ → Result PhysicalError ℕ
caps_field name positive v = strict_i64 (PhysicalError.bad_envelope_field name) positive v

abbrev amount_field : String → String → ℤ → Result PhysicalError ℕ
amount_field task name v = strict_i64 (PhysicalError.bad_profile_field task name) false v

abbrev pub optional_eq : Option String → Option String → Bool
optional_eq none none = true
optional_eq (some a) (some b) = a =ˢ b
optional_eq _ _ = false

module _ {F : Floats} where
  unfoldable pub caps_of : RunEnvelope F → Result PhysicalError Caps
  unfolding strict_i64
  caps_of e = do
    deadline ← caps_field "deadline_ms" true e.deadline_ms
    parallelism ← caps_field "max_parallelism" true e.max_parallelism
    cpu ← caps_field "max_cpu_time_ms" false e.max_cpu_time_ms
    memory ← caps_field "max_peak_memory_bytes" false e.max_peak_memory_bytes
    vram ← caps_field "max_peak_vram_bytes" false e.max_peak_vram_bytes
    read ← caps_field "max_storage_read_bytes" false e.max_storage_read_bytes
    write ← caps_field "max_storage_write_bytes" false e.max_storage_write_bytes
    ingress ← caps_field "max_network_ingress_bytes" false e.max_network_ingress_bytes
    egress ← caps_field "max_network_egress_bytes" false e.max_network_egress_bytes
    bandwidth ← caps_field "available_bandwidth_bps" false e.available_bandwidth_bps
    rtt ← caps_field "max_network_rtt_ms" false e.max_network_rtt_ms
    cost ← caps_field "max_egress_cost_microusd" false e.max_egress_cost_microusd
    ok (record {
      deadline_ms = deadline;
      max_parallelism = parallelism;
      max_cpu_time_ms = cpu;
      max_peak_memory_bytes = memory;
      max_peak_vram_bytes = vram;
      max_storage_read_bytes = read;
      max_storage_write_bytes = write;
      max_network_ingress_bytes = ingress;
      max_network_egress_bytes = egress;
      available_bandwidth_bps = bandwidth;
      max_network_rtt_ms = rtt;
      max_egress_cost_microusd = cost;
    })

  unfoldable pub amounts_of : String → BackendProfile F → Result PhysicalError Amounts
  unfolding strict_i64
  amounts_of task p = do
    cpu ← amount_field task "cpu_time_ms" p.cpu_time_ms
    memory ← amount_field task "peak_memory_bytes" p.peak_memory_bytes
    vram ← amount_field task "peak_vram_bytes" p.peak_vram_bytes
    read ← amount_field task "storage_read_bytes" p.storage_read_bytes
    write ← amount_field task "storage_write_bytes" p.storage_write_bytes
    ingress ← amount_field task "network_ingress_bytes" p.network_ingress_bytes
    egress ← amount_field task "network_egress_bytes" p.network_egress_bytes
    bandwidth ← amount_field task "min_bandwidth_bps" p.min_bandwidth_bps
    rtt ← amount_field task "network_rtt_ms" p.network_rtt_ms
    cost ← amount_field task "egress_cost_microusd" p.egress_cost_microusd
    ok (record {
      cpu_time_ms = cpu;
      peak_memory_bytes = memory;
      peak_vram_bytes = vram;
      storage_read_bytes = read;
      storage_write_bytes = write;
      network_ingress_bytes = ingress;
      network_egress_bytes = egress;
      min_bandwidth_bps = bandwidth;
      network_rtt_ms = rtt;
      egress_cost_microusd = cost;
    })

  -- `BackendProfile.__eq__`
  unfoldable pub profile_eq : BackendProfile F → BackendProfile F → Bool
  profile_eq a b =
      a.name =ˢ b.name
      && a.provider =ˢ b.provider
      && int_eq a.duration_ms_p50 b.duration_ms_p50
      && int_eq a.duration_ms_p95 b.duration_ms_p95
      && int_eq a.input_tokens b.input_tokens
      && int_eq a.output_tokens b.output_tokens
      && int_eq a.cost_microusd b.cost_microusd
      && int_eq a.context_bytes b.context_bytes
      && F.same a.quality b.quality
      && F.same a.failure_probability b.failure_probability
      && optional_eq a.profile_snapshot_digest b.profile_snapshot_digest
      && int_eq a.cpu_time_ms b.cpu_time_ms
      && int_eq a.peak_memory_bytes b.peak_memory_bytes
      && int_eq a.peak_vram_bytes b.peak_vram_bytes
      && int_eq a.storage_read_bytes b.storage_read_bytes
      && int_eq a.storage_write_bytes b.storage_write_bytes
      && int_eq a.network_ingress_bytes b.network_ingress_bytes
      && int_eq a.network_egress_bytes b.network_egress_bytes
      && int_eq a.min_bandwidth_bps b.min_bandwidth_bps
      && int_eq a.network_rtt_ms b.network_rtt_ms
      && int_eq a.egress_cost_microusd b.egress_cost_microusd
