-- ===== src/Physical/Report.antt =====
-- The report of `PhysicalResourceAnalyzer.analyze`, before it is signed. Its schema version and its
-- constant texts about coverage and limitations are left out.
use finite_agent_physics.Prelude.{
  ℕ, String, Bool, true, not, ◌&&◌, Option, List, [], ◌∷◌, ◌++◌, map, sorted, leb, is_some,
  if◌then◌else◌, Result, ok, err,
}
use finite_agent_physics.Prelude.Results.{◌>>=◌}
use finite_agent_physics.Contracts.Profiles.{Floats}
use finite_agent_physics.Contracts.Tasks.{TaskContract}
use finite_agent_physics.Graph.Walks.{GraphFault}
use finite_agent_physics.Physical.Amounts.{PhysicalError, Amounts, Caps}
use finite_agent_physics.Physical.Inputs.{Selection}
use finite_agent_physics.Physical.Paths.{max_of, critical_path}
use finite_agent_physics.Physical.Analysis.{
  additive_dimensions, additive, peak, peak_dimensions, Observed, observed_or,
  PhysicalConstraintCheck, check, within, additive_total, peak_total, transport_local, rtt_local,
  combined_local, note_if, note_totals, note_locals,
}

pub data PhysicalAdmissionStatus : Type 0 where
  admitted refused : PhysicalAdmissionStatus

pub record PhysicalTotals : Type 0 where
  pub cpu_time_ms : Option ℕ
  pub conservative_peak_memory_bytes : Option ℕ
  pub conservative_peak_vram_bytes : Option ℕ
  pub storage_read_bytes : Option ℕ
  pub storage_write_bytes : Option ℕ
  pub network_ingress_bytes : Option ℕ
  pub network_egress_bytes : Option ℕ
  pub conservative_peak_bandwidth_bps : Option ℕ
  pub max_network_rtt_ms : ℕ
  pub egress_cost_microusd : Option ℕ

-- The three critical paths.
pub record PathBounds : Type 0 where
  pub transport : Option ℕ
  pub rtt : Option ℕ
  pub combined : Option ℕ

-- What a report is about: the digests of the inputs, and the selected tasks, each with the provider
-- and the name of its profile.
pub record Subject : Type 0 where
  pub graph_digest : String
  pub envelope_digest : String
  pub selection_digest : String
  pub selected_profiles : List (String × String × String)

-- `unsigned`
pub record UnsignedReport : Type 0 where
  pub subject : Subject
  pub status : PhysicalAdmissionStatus
  pub totals : PhysicalTotals
  pub bounds : PathBounds
  pub checks : List PhysicalConstraintCheck
  pub overflow_dimensions : List String

abbrev pub max_rtt : Selection → ℕ
max_rtt selection = max_of (map (λ e. e.1.network_rtt_ms) selection)

-- The checks after those of the dimensions.
unfoldable pub path_checks : Caps → Selection → PathBounds → List PhysicalConstraintCheck
unfolding max_of
path_checks caps selection bounds =
    record {
      dimension = "network_rtt";
      passed = leb (max_rtt selection) caps.max_network_rtt_ms;
      observed = Observed.amount (max_rtt selection);
      limit = caps.max_network_rtt_ms;
      unit = "milliseconds";
      aggregation = "maximum-selected-profile";
    }
    ∷ record {
      dimension = "transport_bandwidth_defined";
      passed = is_some bounds.transport;
      observed = observed_or "zero-bandwidth-or-signed-int64-overflow" bounds.transport;
      limit = caps.deadline_ms;
      unit = "milliseconds";
      aggregation = "transport-critical-path-lower-bound";
    }
    ∷ record {
      dimension = "transport_rtt_deadline_lower_bound";
      passed = within bounds.combined caps.deadline_ms;
      observed = observed_or "undefined-or-signed-int64-overflow" bounds.combined;
      limit = caps.deadline_ms;
      unit = "milliseconds";
      aggregation = "dependency-critical-path-lower-bound";
    }
    ∷ []

unfoldable pub all_checks : Caps → Selection → PathBounds → List PhysicalConstraintCheck
unfolding check additive_total peak_total path_checks
all_checks caps selection bounds =
    map (λ d. check caps d (additive_total selection d)) additive_dimensions
    ++ map (λ d. check caps d (peak_total caps selection d)) peak_dimensions
    ++ path_checks caps selection bounds

abbrev pub all_passed : List PhysicalConstraintCheck → Bool
all_passed [] = true
all_passed (c ∷ cs) = c.passed && all_passed cs

unfoldable pub overflows : Caps → Selection → PathBounds → List String
unfolding note_totals note_locals additive_total peak_total
overflows caps selection bounds =
    let totals =
      note_totals (peak_total caps selection) peak_dimensions
        (note_totals (additive_total selection) additive_dimensions []) in
    note_if (not (is_some bounds.combined)) "transport_rtt_critical_path" (
      note_if (not (is_some bounds.rtt)) "rtt_critical_path" (
        note_if (not (is_some bounds.transport)) "transport_critical_path"
          (note_locals caps selection totals)))

unfoldable pub report : Caps → Selection → PathBounds → Subject → UnsignedReport
unfolding all_checks overflows sorted
report caps selection bounds subject =
    let total = λ (field : Amounts → ℕ). additive_total selection (additive "" field (λ c. 0) "") in
    let top = λ (field : Amounts → ℕ). peak_total caps selection (peak "" field (λ c. 0) "") in
    record {
      subject = subject;
      status =
          if all_passed (all_checks caps selection bounds)
          then PhysicalAdmissionStatus.admitted
          else PhysicalAdmissionStatus.refused;
      totals = record {
        cpu_time_ms = total (λ a. a.cpu_time_ms);
        conservative_peak_memory_bytes = top (λ a. a.peak_memory_bytes);
        conservative_peak_vram_bytes = top (λ a. a.peak_vram_bytes);
        storage_read_bytes = total (λ a. a.storage_read_bytes);
        storage_write_bytes = total (λ a. a.storage_write_bytes);
        network_ingress_bytes = total (λ a. a.network_ingress_bytes);
        network_egress_bytes = total (λ a. a.network_egress_bytes);
        conservative_peak_bandwidth_bps = top (λ a. a.min_bandwidth_bps);
        max_network_rtt_ms = max_rtt selection;
        egress_cost_microusd = total (λ a. a.egress_cost_microusd);
      };
      bounds = bounds;
      checks = all_checks caps selection bounds;
      overflow_dimensions = sorted (overflows caps selection bounds);
    }

abbrev pub escaping : {A : Type 0} → Result GraphFault A → Result PhysicalError A
escaping (ok a) = ok a
escaping (err fault) = err (PhysicalError.escaped fault)

unfoldable pub path_bounds :
    {F : Floats} → List (TaskContract F) → Caps → Selection → Result GraphFault PathBounds
unfolding critical_path
path_bounds tasks caps selection = do
  let ids = map (λ e. e.0) selection
  transport ← critical_path tasks ids (transport_local caps selection)
  rtt ← critical_path tasks ids (rtt_local selection)
  combined ← critical_path tasks ids (combined_local caps selection)
  ok (record { transport = transport; rtt = rtt; combined = combined })
