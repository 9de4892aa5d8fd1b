-- ===== src/Graph/Examples.antt =====
-- Concrete graphs, with percentages in place of floating-point numbers.
use finite_agent_physics.Prelude.{
  ltb, ◌==◌, lookup, insert, ℕ, leb, ℤ, String, false, none, List, [], ◌∷◌, ◌≡◌, refl, ok, err,
}
use finite_agent_physics.Effects.Types.{EffectClass}
use finite_agent_physics.Contracts.Profiles.{Floats, BackendProfile}
use finite_agent_physics.Contracts.Tasks.{TaskContract}
use finite_agent_physics.Graph.Walks.{GraphFault, validate_graph}
use finite_agent_physics.Graph.Graphs.{by_id}
use finite_agent_physics.Graph.Topological.{IsTopological}
use finite_agent_physics.Graph.Total.{accepted-IsTopological}
use finite_agent_physics.Graph.Order.{topological_order}
use finite_agent_physics.Graph.Ordered.{OrderEnd, topological_order-OrderEnd}
use finite_agent_physics.Graph.Validated.{Judged, validate_graph-Judged}

abbrev pub percents : Floats
percents = record {
  Float = ℕ;
  below_zero = λ x. false;
  in_unit = λ x. leb x 100;
  at_least = λ x y. leb y x;
  less = λ x y. ltb x y;
  same = λ x y. x == y;
}

abbrev pub profile : ℕ → BackendProfile percents
profile ms = record {
  name = "local";
  provider = "p";
  duration_ms_p50 = ℤ.pos ms;
  duration_ms_p95 = ℤ.pos (ms);
  input_tokens = ℤ.pos 10;
  output_tokens = ℤ.pos 5;
  cost_microusd = ℤ.pos 0;
  context_bytes = ℤ.pos 0;
  quality = 90;
  failure_probability = 1;
  profile_snapshot_digest = none;
  cpu_time_ms = ℤ.pos 0;
  peak_memory_bytes = ℤ.pos 0;
  peak_vram_bytes = ℤ.pos 0;
  storage_read_bytes = ℤ.pos 0;
  storage_write_bytes = ℤ.pos 0;
  network_ingress_bytes = ℤ.pos 0;
  network_egress_bytes = ℤ.pos 0;
  min_bandwidth_bps = ℤ.pos 0;
  network_rtt_ms = ℤ.pos 0;
  egress_cost_microusd = ℤ.pos 0;
}

abbrev pub task : String → List String → TaskContract percents
task name dependencies = record {
  task_id = name;
  profiles = profile 20 ∷ [];
  dependencies = dependencies;
  effect = record {
    kind = EffectClass.pure;
    resource = "";
    requires_approval = false;
    idempotency_key = none;
    compensation = none;
  };
  optional = false;
  value = 1;
  min_quality = 50;
  deadline_ms = none;
  description = "";
  input_ports = [];
  output_ports = [];
  adapter_requirements = none;
}

abbrev pub diamond : List (TaskContract percents)
diamond = task "d" ("b" ∷ "c" ∷ []) ∷ task "b" ("a" ∷ []) ∷ task "c" ("a" ∷ []) ∷ task "a" [] ∷ []

abbrev triangle : List (TaskContract percents)
triangle = task "a" ("c" ∷ []) ∷ task "b" ("a" ∷ []) ∷ task "c" ("b" ∷ []) ∷ []

diamond_accepted : validate_graph diamond ≡ ok tt
unfolding validate_graph lookup insert
diamond_accepted = refl

triangle_circular : validate_graph triangle ≡ err (GraphFault.cycle "a")
unfolding validate_graph lookup insert
triangle_circular = refl

validate_graph-Judged_example : Judged diamond (validate_graph diamond)
validate_graph-Judged_example = validate_graph-Judged diamond

diamond_order : topological_order diamond ≡ ok ("a" ∷ "b" ∷ "c" ∷ "d" ∷ [])
unfolding topological_order lookup insert
diamond_order = refl

topological_order-OrderEnd_example : OrderEnd 4 (topological_order diamond)
unfolding by_id insert
topological_order-OrderEnd_example = topological_order-OrderEnd diamond

accepted-IsTopological_example :
    (order : List String) × (topological_order diamond ≡ ok order) × IsTopological diamond order
accepted-IsTopological_example = accepted-IsTopological diamond diamond_accepted
