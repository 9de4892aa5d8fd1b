-- ===== src/Scheduler/Ranks.antt =====
-- `upward_ranks` of `ExecutionGraph`; and of `Scheduler` the fastest profiles, `_upward_ranks_for_tasks`
-- and the lower bounds.
use finite_agent_physics.Prelude.{
  zero, suc, ◌/◌, ℤ, ◌+ℤ◌, ◌-ℤ◌, int_min, int_max, int_eq, int_ltb, String, Bool, true, Option,
  none, some, List, [], ◌∷◌, map, Dict, lookup, insert, contains, values, elem, if◌then◌else◌,
  Result, ok, err, tuple_less, filter_by, min_by,
}
use mathlib.Core.List.{reverse}
use finite_agent_physics.Prelude.Results.{◌>>=◌}
use finite_agent_physics.Contracts.Profiles.{Floats, BackendProfile}
use finite_agent_physics.Contracts.Tasks.{TaskContract}
use finite_agent_physics.Contracts.Envelopes.{RunEnvelope, provider_limit}
use finite_agent_physics.Graph.Walks.{GraphFault}
use finite_agent_physics.Graph.Order.{successors_of, topological_order}
use finite_agent_physics.Scheduler.Choices.{qualified}
use finite_agent_physics.Scheduler.Plans.{ScheduleFault, ScheduleEntry, got}

-- An exception of the graph's methods goes on.
abbrev pub of_graph : {A : Type 0} → Result GraphFault A → Result ScheduleFault A
of_graph (ok a) = ok a
of_graph (err GraphFault.key_error) = err ScheduleFault.key_error
of_graph (err GraphFault.no_fuel) = err ScheduleFault.no_fuel
of_graph (err fault) = err (ScheduleFault.invalid_graph fault)

greatest_from : ℤ → List ℤ → ℤ
greatest_from v [] = v
greatest_from v (w ∷ ws) = greatest_from (int_max v w) ws

-- `max(values, default=0)`
unfoldable pub greatest : List ℤ → ℤ
unfolding greatest_from
greatest [] = ℤ.pos 0
greatest (v ∷ vs) = greatest_from v vs

unfoldable pub sum_of : List ℤ → ℤ
unfolding ◌+ℤ◌
sum_of [] = ℤ.pos 0
sum_of (v ∷ vs) = v +ℤ sum_of vs

unfoldable pub ranks_of : List String → Dict ℤ → Result ScheduleFault (List ℤ)
unfolding lookup
ranks_of [] ranks = ok []
ranks_of (t ∷ ts) ranks = do
  v ← got ScheduleFault.key_error (lookup t ranks)
  vs ← ranks_of ts ranks
  ok (v ∷ vs)

-- The loop over the reversed order: a task that is kept gets its own duration and the greatest rank of
-- its successors that are kept.
unfoldable pub rank_tasks :
    (keep : String → Bool) (duration : String → Option ℤ) (successors : Dict (List String))
    → List String
    → Dict ℤ
    → Result ScheduleFault (Dict ℤ)
unfolding ranks_of greatest filter_by lookup insert ◌+ℤ◌
rank_tasks keep duration successors [] ranks = ok ranks
rank_tasks keep duration successors (t ∷ ts) ranks =
    let next = λ (r : Dict ℤ). rank_tasks keep duration successors ts r in
    if keep t
    then (do
      children ← got ScheduleFault.key_error (lookup t successors)
      downstream ← ranks_of (filter_by keep children) ranks
      own ← got ScheduleFault.key_error (duration t)
      next (insert t (own +ℤ greatest downstream) ranks))
    else next ranks

abbrev pub duration_of : {F : Floats} → Option (BackendProfile F) → Option ℤ
duration_of none = none
duration_of (some p) = some p.duration_ms_p95

-- `n // d`, of which a divisor that is 0 raises
abbrev pub floor_div : ℤ → ℤ → Result ScheduleFault ℤ
floor_div n (ℤ.pos zero) = err ScheduleFault.zero_division
floor_div (ℤ.pos n) (ℤ.pos (suc d)) = ok (ℤ.pos (n / suc d))
floor_div (ℤ.negsuc n) (ℤ.pos (suc d)) = ok (ℤ.negsuc (n / suc d))
floor_div (ℤ.pos zero) (ℤ.negsuc d) = ok (ℤ.pos 0)
floor_div (ℤ.pos (suc n)) (ℤ.negsuc d) = ok (ℤ.negsuc (n / suc d))
floor_div (ℤ.negsuc n) (ℤ.negsuc d) = ok (ℤ.pos (suc n / suc d))

-- `(work + capacity - 1) // capacity`
unfoldable pub shared_by : (work capacity : ℤ) → Result ScheduleFault ℤ
unfolding ◌+ℤ◌ ◌-ℤ◌
shared_by work capacity = floor_div ((work +ℤ capacity) -ℤ ℤ.pos 1) capacity

-- `d.get(key, 0)`
abbrev pub or_zero : Option ℤ → ℤ
or_zero none = ℤ.pos 0
or_zero (some n) = n

-- `provider_work`
unfoldable pub work_of_providers : Dict ℤ → Dict String → Dict ℤ → Result ScheduleFault (Dict ℤ)
unfolding lookup insert ◌+ℤ◌
work_of_providers [] providers work = ok work
work_of_providers ((t, duration) ∷ ds) providers work = do
  provider ← got ScheduleFault.key_error (lookup t providers)
  work_of_providers ds providers (insert provider (or_zero (lookup provider work) +ℤ duration) work)

module _ {F : Floats} where
  abbrev pub faster : BackendProfile F → BackendProfile F → Bool
  faster p q = tuple_less (
      (int_eq p.duration_ms_p95 q.duration_ms_p95, int_ltb p.duration_ms_p95 q.duration_ms_p95)
      ∷ (int_eq p.cost_microusd q.cost_microusd, int_ltb p.cost_microusd q.cost_microusd)
      ∷ [])

  -- `{task.task_id: self._fastest_qualified(task) for task in graph.tasks}`, into a dictionary; of no
  -- profile `min` raises.
  unfoldable pub fastest_profiles :
      List (TaskContract F)
      → Dict (BackendProfile F)
      → Result ScheduleFault (Dict (BackendProfile F))
  unfolding qualified min_by insert
  fastest_profiles [] d = ok d
  fastest_profiles (t ∷ ts) d = do
    p ← got ScheduleFault.value_error (min_by faster (qualified t))
    fastest_profiles ts (insert t.task_id p d)

  unfoldable pub upward_ranks :
      List (TaskContract F) → Dict (BackendProfile F) → Result ScheduleFault (Dict ℤ)
  unfolding successors_of topological_order rank_tasks lookup
  upward_ranks tasks profiles = do
    successors ← of_graph (successors_of tasks)
    order ← of_graph (topological_order tasks)
    rank_tasks (λ t. true) (λ t. duration_of (lookup t profiles)) successors (reverse order) []

  unfoldable pub upward_ranks_for_tasks :
      List (TaskContract F)
      → Dict (BackendProfile F)
      → (included : List String) → Result ScheduleFault (Dict ℤ)
  unfolding successors_of topological_order rank_tasks lookup
  upward_ranks_for_tasks tasks profiles included = do
    successors ← of_graph (successors_of tasks)
    order ← of_graph (topological_order tasks)
    rank_tasks (λ t. elem t included) (λ t. duration_of (lookup t profiles)) successors
        (reverse order) []

  unfoldable pub provider_bounds : RunEnvelope F → Dict ℤ → Result ScheduleFault (List ℤ)
  unfolding shared_by provider_limit
  provider_bounds e [] = ok []
  provider_bounds e ((provider, duration) ∷ work) = do
    bound ← shared_by duration (int_min (provider_limit e provider) e.max_parallelism)
    rest ← provider_bounds e work
    ok (bound ∷ rest)

  unfoldable pub duration_lower_bound :
      List (TaskContract F) → Dict ℤ → Dict String → RunEnvelope F → Result ScheduleFault ℤ
  unfolding successors_of topological_order rank_tasks lookup sum_of shared_by work_of_providers
      provider_bounds greatest
  duration_lower_bound tasks [] providers e = ok (ℤ.pos 0)
  duration_lower_bound tasks (d ∷ ds) providers e = do
    let durations = d ∷ ds
    successors ← of_graph (successors_of tasks)
    order ← of_graph (topological_order tasks)
    ranks ←
        rank_tasks (λ t. contains t durations) (λ t. lookup t durations) successors (reverse order)
          []
    global_bound ← shared_by (sum_of (values durations)) e.max_parallelism
    work ← work_of_providers durations providers []
    bounds ← provider_bounds e work
    ok (int_max (int_max (greatest (values ranks)) global_bound) (greatest bounds))

  -- The entries of the profiles that are included.
  unfoldable pub included_profiles : List String → Dict (BackendProfile F) → Dict (BackendProfile F)
  unfolding filter_by
  included_profiles included profiles = filter_by (λ e. elem e.0 included) profiles

  unfoldable pub profile_lower_bound :
      List (TaskContract F)
      → Dict (BackendProfile F)
      → RunEnvelope F
      → (included : List String) → Result ScheduleFault ℤ
  unfolding duration_lower_bound included_profiles
  profile_lower_bound tasks profiles e included =
      let chosen = included_profiles included profiles in
      duration_lower_bound tasks (map (λ c. (c.0, c.1.duration_ms_p95)) chosen)
        (map (λ c. (c.0, c.1.provider)) chosen) e

  unfoldable pub durations_into : List (ScheduleEntry F) → Dict ℤ → Dict ℤ
  unfolding insert ◌-ℤ◌
  durations_into [] d = d
  durations_into (e ∷ es) d = durations_into es (insert e.task_id (e.end_ms -ℤ e.start_ms) d)

  unfoldable pub providers_into : List (ScheduleEntry F) → Dict String → Dict String
  unfolding insert
  providers_into [] d = d
  providers_into (e ∷ es) d = providers_into es (insert e.task_id e.provider d)

  unfoldable pub entry_lower_bound :
      List (TaskContract F) → List (ScheduleEntry F) → RunEnvelope F → Result ScheduleFault ℤ
  unfolding duration_lower_bound durations_into providers_into
  entry_lower_bound tasks entries e =
      duration_lower_bound tasks (durations_into entries []) (providers_into entries []) e
