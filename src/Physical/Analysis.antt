-- ===== src/Physical/Analysis.antt =====
-- The dimensions of the admission, their totals, and the times of the transfers.
use finite_agent_physics.Prelude.{
  ℕ, zero, suc, ◌+◌, ◌/◌, ◌%◌, min, String, Bool, true, false, not, ◌&&◌, Option, none, some, List,
  [], ◌∷◌, map, Dict, elem, length, leb, ◌==◌, is_some, if◌then◌else◌,
}
use finite_agent_physics.Physical.Arithmetic.{safe_add, safe_sum, safe_multiply}
use finite_agent_physics.Physical.Amounts.{Amounts, Caps}
use finite_agent_physics.Physical.Inputs.{Selection}

-- `_Dimension`, with the fields that it names as functions.
pub record Dimension : Type 0 where
  pub name : String
  pub profile_field : Amounts → ℕ
  pub envelope_field : Caps → ℕ
  pub unit : String
  pub aggregation : String

abbrev pub additive : String → (Amounts → ℕ) → (Caps → ℕ) → String → Dimension
additive name field cap unit = record {
  name = name;
  profile_field = field;
  envelope_field = cap;
  unit = unit;
  aggregation = "additive-selected-profiles";
}

abbrev pub additive_dimensions : List Dimension
additive_dimensions =
    additive "cpu_time" (λ a. a.cpu_time_ms) (λ c. c.max_cpu_time_ms) "cpu-ms"
    ∷ additive "storage_read" (λ a. a.storage_read_bytes) (λ c. c.max_storage_read_bytes) "bytes"
    ∷ additive "storage_write" (λ a. a.storage_write_bytes) (λ c. c.max_storage_write_bytes) "bytes"
    ∷ additive "network_ingress" (λ a. a.network_ingress_bytes) (λ c. c.max_network_ingress_bytes)
        "bytes"
    ∷ additive "network_egress" (λ a. a.network_egress_bytes) (λ c. c.max_network_egress_bytes)
        "bytes"
    ∷ additive "egress_cost" (λ a. a.egress_cost_microusd) (λ c. c.max_egress_cost_microusd)
        "micro-USD"
    ∷ []

abbrev pub peak : String → (Amounts → ℕ) → (Caps → ℕ) → String → Dimension
peak name field cap unit = record {
  name = name;
  profile_field = field;
  envelope_field = cap;
  unit = unit;
  aggregation = "conservative-top-max_parallelism-sum";
}

abbrev pub peak_dimensions : List Dimension
peak_dimensions =
    peak "peak_memory" (λ a. a.peak_memory_bytes) (λ c. c.max_peak_memory_bytes) "bytes"
    ∷ peak "peak_vram" (λ a. a.peak_vram_bytes) (λ c. c.max_peak_vram_bytes) "bytes"
    ∷ peak "bandwidth" (λ a. a.min_bandwidth_bps) (λ c. c.available_bandwidth_bps) "bits-per-second"
    ∷ []

pub data Observed : Type 0 where
  amount : ℕ → Observed
  text : String → Observed

pub record PhysicalConstraintCheck : Type 0 where
  pub dimension : String
  pub passed : Bool
  pub observed : Observed
  pub limit : ℕ
  pub unit : String
  pub aggregation : String

abbrev pub observed_or : String → Option ℕ → Observed
observed_or t none = Observed.text t
observed_or t (some n) = Observed.amount n

abbrev pub within : Option ℕ → ℕ → Bool
within none limit = false
within (some n) limit = leb n limit

-- `_check`
unfoldable pub check : Caps → Dimension → Option ℕ → PhysicalConstraintCheck
check caps d observed = record {
  dimension = d.name;
  passed = within observed (d.envelope_field caps);
  observed = observed_or "signed-int64-overflow" observed;
  limit = d.envelope_field caps;
  unit = d.unit;
  aggregation = d.aggregation;
}

abbrev pub values_of : Dimension → Selection → List ℕ
values_of d selection = map (λ e. d.profile_field e.1) selection

unfoldable pub additive_total : Selection → Dimension → Option ℕ
unfolding safe_sum
additive_total selection d = safe_sum (values_of d selection)

-- `sorted(values, reverse=True)`
unfoldable pub insert_down : ℕ → List ℕ → List ℕ
insert_down x [] = x ∷ []
insert_down x (y ∷ ys) = let rest = insert_down x ys in if leb y x then x ∷ y ∷ ys else y ∷ rest

unfoldable pub sorted_down : List ℕ → List ℕ
unfolding insert_down
sorted_down [] = []
sorted_down (x ∷ xs) = insert_down x (sorted_down xs)

-- `values[:n]`
abbrev pub take : ℕ → List ℕ → List ℕ
take zero xs = []
take (suc n) [] = []
take (suc n) (x ∷ xs) = x ∷ take n xs

unfoldable pub peak_total : Caps → Selection → Dimension → Option ℕ
unfolding sorted_down safe_sum
peak_total caps selection d =
    safe_sum
      (take (min caps.max_parallelism (length selection)) (sorted_down (values_of d selection)))

-- The time of a transfer at the bandwidth, rounded up, and the name of an overflow.
unfoldable pub bits_time : (bandwidth : ℕ) → Option ℕ → Option ℕ × Option String
bits_time bandwidth none = (none, some "transport_unit_conversion")
bits_time bandwidth (some bits) =
    (some (bits / bandwidth + (if bits % bandwidth == 0 then 0 else 1)), none)

unfoldable pub bytes_time : (bandwidth : ℕ) → Option ℕ → Option ℕ × Option String
unfolding bits_time safe_multiply
bytes_time bandwidth none = (none, some "transport_byte_sum")
bytes_time bandwidth (some bytes) =
    if bytes == 0
    then (some 0, none)
    else if bandwidth == 0
    then (none, none)
    else bits_time bandwidth (safe_multiply bytes 8000)

unfoldable pub transfer : Caps → Amounts → Option ℕ × Option String
unfolding bytes_time safe_add
transfer caps a =
    bytes_time caps.available_bandwidth_bps
      (safe_add a.network_ingress_bytes a.network_egress_bytes)

unfoldable pub with_rtt : Option ℕ → ℕ → Option ℕ
unfolding safe_add
with_rtt none rtt = none
with_rtt (some t) rtt = safe_add t rtt

abbrev pub transport_local : Caps → Selection → Dict (Option ℕ)
transport_local caps selection = map (λ e. (e.0, (transfer caps e.1).0)) selection

abbrev pub rtt_local : Selection → Dict (Option ℕ)
rtt_local selection = map (λ e. (e.0, some e.1.network_rtt_ms)) selection

abbrev pub combined_local : Caps → Selection → Dict (Option ℕ)
combined_local caps selection =
    map (λ e. (e.0, with_rtt (transfer caps e.1).0 e.1.network_rtt_ms)) selection

-- The set of overflows, by first insertion.
abbrev pub note_if : Bool → String → List String → List String
note_if b name names = if b && not (elem name names) then name ∷ names else names

unfoldable pub note_totals : (Dimension → Option ℕ) → List Dimension → List String → List String
note_totals total [] names = names
note_totals total (d ∷ ds) names =
    note_totals total ds (note_if (not (is_some (total d))) d.name names)

abbrev pub note_transfer : Option String → List String → List String
note_transfer none names = names
note_transfer (some name) names = note_if true name names

unfoldable pub note_locals : Caps → Selection → List String → List String
unfolding transfer with_rtt
note_locals caps [] names = names
note_locals caps ((t, a) ∷ rest) names =
    let (time, overflow) = transfer caps a in
    note_locals caps rest (
      note_if (is_some time && not (is_some (with_rtt time a.network_rtt_ms))) "transport_rtt_local"
        (note_transfer overflow names))
