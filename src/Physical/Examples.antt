-- ===== src/Physical/Examples.antt =====
-- A run of two tasks, one after the other, with percentages in place of floating-point numbers.
use finite_agent_physics.Prelude.{
  ◌+◌, ltb, ◌==◌, lookup, insert, ℕ, leb, ℤ, String, true, false, none, some, List, [], ◌∷◌, ◌≡◌,
  refl, ok, Dict, contains, Bool-cases, inl, inr, ◌=ˢ◌, sym, ◌∙◌, elem,
}
use finite_agent_physics.Effects.Types.{EffectClass}
use finite_agent_physics.Contracts.Profiles.{Floats, BackendProfile}
use finite_agent_physics.Contracts.Tasks.{TaskContract}
use finite_agent_physics.Contracts.Envelopes.{RunEnvelope}
use finite_agent_physics.Graph.Walks.{validate_graph}
use finite_agent_physics.Graph.Graphs.{by_id}
use finite_agent_physics.Graph.Decided.{DependsOn}
use finite_agent_physics.Physical.Amounts.{Amounts, Caps}
use finite_agent_physics.Physical.Inputs.{Selection, validate_inputs, protected_task_ids}
use finite_agent_physics.Physical.Arithmetic.{int64_max, safe_sum}
use finite_agent_physics.Physical.Paths.{critical_path}
use finite_agent_physics.Physical.Analysis.{
  Dimension, peak, peak_total, transfer, transport_local, with_rtt,
}
use finite_agent_physics.Physical.Report.{PathBounds, PhysicalAdmissionStatus, Subject, report}
use finite_agent_physics.Physical.Signing.{
  PhysicalAdmissionReport, ContentDigest, material, summary, analyze,
}
use finite_agent_physics.Physical.Sums.{bounded, safe_sum_lem, total}
use finite_agent_physics.Physical.Peaks.{IsPeak, peak_total-IsPeak}
use finite_agent_physics.Physical.PathEnds.{PathEnd, critical_path-PathEnd}
use finite_agent_physics.Physical.Times.{TimeEnd, transfer-TimeEnd}
use finite_agent_physics.Physical.Selected.{keys, IsSelection, validate_inputs-IsSelection}
use finite_agent_physics.Physical.Judged.{AnalyzeEnd, analyze-IsBounds}
use finite_agent_physics.Physical.Admitted.{Fits, admitted-Fits}
use finite_agent_physics.Physical.Following.{Protects}
use finite_agent_physics.Physical.Protected.{Protected, protected_task_ids-Protected}
use finite_agent_physics.Physical.Mandatory.{validate_inputs-Protects}

abbrev percents : Floats
percents = record {
  Float = ℕ;
  below_zero = λ x. false;
  in_unit = λ x. leb x 100;
  at_least = λ x y. leb y x;
  less = λ x y. ltb x y;
  same = λ x y. x == y;
}

abbrev profile : BackendProfile percents
profile = record {
  name = "local";
  provider = "p";
  duration_ms_p50 = ℤ.pos 10;
  duration_ms_p95 = ℤ.pos 20;
  input_tokens = ℤ.pos 10;
  output_tokens = ℤ.pos 5;
  cost_microusd = ℤ.pos 0;
  context_bytes = ℤ.pos 0;
  quality = 90;
  failure_probability = 1;
  profile_snapshot_digest = none;
  cpu_time_ms = ℤ.pos 3;
  peak_memory_bytes = ℤ.pos 64;
  peak_vram_bytes = ℤ.pos 0;
  storage_read_bytes = ℤ.pos 0;
  storage_write_bytes = ℤ.pos 0;
  network_ingress_bytes = ℤ.pos 1500;
  network_egress_bytes = ℤ.pos 0;
  min_bandwidth_bps = ℤ.pos 1000000;
  network_rtt_ms = ℤ.pos 5;
  egress_cost_microusd = ℤ.pos 0;
}

abbrev task : String → List String → TaskContract percents
task name dependencies = record {
  task_id = name;
  profiles = profile ∷ [];
  dependencies = dependencies;
  effect = record {
    kind = EffectClass.pure;
    resource = "";
    requires_approval = false;
    idempotency_key = none;
    compensation = none;
  };
  optional = false;
  value = 1;
  min_quality = 50;
  deadline_ms = none;
  description = "";
  input_ports = [];
  output_ports = [];
  adapter_requirements = none;
}

abbrev two_tasks : List (TaskContract percents)
two_tasks = task "b" ("a" ∷ []) ∷ task "a" [] ∷ []

abbrev both : Dict (BackendProfile percents)
both = ("b", profile) ∷ ("a", profile) ∷ []

abbrev envelope : RunEnvelope percents
envelope = record {
  deadline_ms = ℤ.pos 14;
  max_tokens = ℤ.pos 100;
  max_cost_microusd = ℤ.pos 100;
  max_context_bytes = ℤ.pos 100;
  max_parallelism = ℤ.pos 1;
  min_modeled_success_probability = 0;
  provider_limits = [];
  max_cpu_time_ms = ℤ.pos 6;
  max_peak_memory_bytes = ℤ.pos 64;
  max_peak_vram_bytes = ℤ.pos 0;
  max_storage_read_bytes = ℤ.pos 0;
  max_storage_write_bytes = ℤ.pos 0;
  max_network_ingress_bytes = ℤ.pos 3000;
  max_network_egress_bytes = ℤ.pos 0;
  available_bandwidth_bps = ℤ.pos 8000000;
  max_network_rtt_ms = ℤ.pos 5;
  max_egress_cost_microusd = ℤ.pos 0;
}

abbrev caps : Caps
caps = record {
  deadline_ms = 14;
  max_parallelism = 1;
  max_cpu_time_ms = 6;
  max_peak_memory_bytes = 64;
  max_peak_vram_bytes = 0;
  max_storage_read_bytes = 0;
  max_storage_write_bytes = 0;
  max_network_ingress_bytes = 3000;
  max_network_egress_bytes = 0;
  available_bandwidth_bps = 8000000;
  max_network_rtt_ms = 5;
  max_egress_cost_microusd = 0;
}

abbrev amounts : Amounts
amounts = record {
  cpu_time_ms = 3;
  peak_memory_bytes = 64;
  peak_vram_bytes = 0;
  storage_read_bytes = 0;
  storage_write_bytes = 0;
  network_ingress_bytes = 1500;
  network_egress_bytes = 0;
  min_bandwidth_bps = 1000000;
  network_rtt_ms = 5;
  egress_cost_microusd = 0;
}

abbrev selection : Selection
selection = ("a", amounts) ∷ ("b", amounts) ∷ []

abbrev memory : Dimension
memory = peak "peak_memory" (λ a. a.peak_memory_bytes) (λ c. c.max_peak_memory_bytes) "bytes"

abbrev bounds : PathBounds
bounds = record { transport = some 4; rtt = some 10; combined = some 14 }

inputs_validated : validate_inputs two_tasks envelope both ≡ ok (caps, selection)
unfolding validate_inputs lookup insert
inputs_validated = refl

tasks_accepted : validate_graph two_tasks ≡ ok tt
unfolding validate_graph lookup insert
tasks_accepted = refl

-- The same digest for every value.
abbrev zeros : String
zeros = "0000000000000000000000000000000000000000000000000000000000000000"

abbrev constant : ContentDigest percents
constant = record {
  of_graph = λ tasks. some zeros;
  of_envelope = λ run. some zeros;
  of_selection = λ chosen. some zeros;
  of_unsigned = λ unsigned. some zeros;
}

abbrev subject : Subject
subject = record {
  graph_digest = zeros;
  envelope_digest = zeros;
  selection_digest = zeros;
  selected_profiles = summary (material selection both);
}

abbrev signed : PhysicalAdmissionReport
signed = record { unsigned = report caps selection bounds subject; report_digest = zeros }

analyzed : analyze constant two_tasks envelope both ≡ ok signed
unfolding analyze lookup insert transfer with_rtt
analyzed = refl

is_admitted : signed.unsigned.status ≡ PhysicalAdmissionStatus.admitted
unfolding report
is_admitted = refl

b_after_a : DependsOn (by_id two_tasks) "a" "b"
unfolding by_id lookup insert
b_after_a = record { contract = task "b" ("a" ∷ []); found = refl; listed = refl }

checked : IsSelection two_tasks envelope both caps selection
checked = validate_inputs-IsSelection two_tasks envelope both caps selection inputs_validated

locals_of_both :
    (t : String) → contains t (transport_local caps selection) ≡ elem t ("a" ∷ "b" ∷ [])
unfolding lookup
locals_of_both t = elim (Bool-cases (t =ˢ "a")) [
  | inl e ↦ rw e refl
  | inr e ↦ rw e (elim (Bool-cases (t =ˢ "b")) [ inl q ↦ rw q refl | inr q ↦ rw q refl ])
]

both_selected : (t : String) → elem t ("a" ∷ "b" ∷ []) ≡ contains t both
unfolding keys
both_selected t = checked.same_tasks t

safe_sum_lem_example : safe_sum (int64_max ∷ 1 ∷ []) ≡ bounded (total (int64_max ∷ 1 ∷ []))
safe_sum_lem_example = safe_sum_lem (int64_max ∷ 1 ∷ [])

peak_total-IsPeak_example :
    (n : ℕ) × (peak_total caps selection memory ≡ bounded n)
    × IsPeak (λ e. memory.profile_field e.1) caps.max_parallelism selection n
peak_total-IsPeak_example = peak_total-IsPeak caps selection memory

transfer-TimeEnd_example : TimeEnd 8000000 (1500 + 0) (transfer caps amounts).0
transfer-TimeEnd_example = transfer-TimeEnd caps amounts

critical_path-PathEnd_example :
    PathEnd
      (by_id two_tasks)
      (transport_local caps selection)
      (critical_path two_tasks ("a" ∷ "b" ∷ []) (transport_local caps selection))
critical_path-PathEnd_example =
    critical_path-PathEnd two_tasks ("a" ∷ "b" ∷ []) (transport_local caps selection) tasks_accepted
      (λ d t e p. both_selected d ∙ checked.closed d t (sym (both_selected t) ∙ e) p)
      (λ t e. checked.all_known t (sym (both_selected t) ∙ e)) locals_of_both

validate_inputs-IsSelection_example : IsSelection two_tasks envelope both caps selection
validate_inputs-IsSelection_example =
    validate_inputs-IsSelection two_tasks envelope both caps selection inputs_validated

analyze-IsBounds_example :
    AnalyzeEnd two_tasks envelope both caps selection constant
      (analyze constant two_tasks envelope both)
analyze-IsBounds_example =
    analyze-IsBounds two_tasks envelope both caps selection constant inputs_validated

admitted-Fits_example :
    (c : Caps) × (s : Selection) × (validate_inputs two_tasks envelope both ≡ ok (c, s))
    × Fits (by_id two_tasks) c s
admitted-Fits_example = admitted-Fits constant two_tasks envelope both signed analyzed is_admitted

protected_task_ids-Protected_example : Protected two_tasks (protected_task_ids two_tasks)
protected_task_ids-Protected_example = protected_task_ids-Protected two_tasks

validate_inputs-Protects_example : contains "a" both ≡ true
validate_inputs-Protects_example =
    validate_inputs-Protects two_tasks envelope both caps selection inputs_validated "a"
      (Protects.needed "a" "b" (Protects.root "b" refl) b_after_a)
