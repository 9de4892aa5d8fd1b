-- ===== src/Scheduler/Fuel.antt =====
-- None of the parts of `schedule` runs out of fuel.
use mathlib.Core.List.{reverse}
use finite_agent_physics.Prelude.{
  ℕ, ◌≡◌, refl, zero, suc, ℤ, ◌+ℤ◌, ◌-ℤ◌, int_min, String, Bool, true, map, elem, contains, values,
  Option, none, some, List, [], ◌∷◌, Dict, lookup, insert, filter_by, min_by, Result, ok, err,
  Bool-cases, inl, inr,
}
use finite_agent_physics.Prelude.Results.{◌>>=◌}
use finite_agent_physics.Contracts.Profiles.{Floats, BackendProfile}
use finite_agent_physics.Contracts.Tasks.{TaskContract}
use finite_agent_physics.Contracts.Envelopes.{RunEnvelope, provider_limit}
use finite_agent_physics.Graph.Walks.{GraphFault}
use finite_agent_physics.Graph.Order.{successors_of, topological_order}
use finite_agent_physics.Graph.Ordered.{OrderEnd, successors_missing, topological_order-OrderEnd}
use finite_agent_physics.Physical.Inputs.{protected_task_ids}
use finite_agent_physics.Physical.Protected.{Protected, protected_task_ids-Protected}
use finite_agent_physics.Scheduler.Choices.{FloatArithmetic, qualified}
use finite_agent_physics.Scheduler.Plans.{
  ScheduleFault, ScheduleEntry, SchedulePolicy, Setting, got,
}
use finite_agent_physics.Scheduler.Ranks.{
  of_graph, ranks_of, rank_tasks, greatest, floor_div, shared_by, work_of_providers, or_zero,
  sum_of, duration_of, included_profiles, durations_into, providers_into, faster, fastest_profiles,
  upward_ranks, upward_ranks_for_tasks, provider_bounds, duration_lower_bound, profile_lower_bound,
  entry_lower_bound,
}
use finite_agent_physics.Scheduler.Ended.{Fueled, key-Fueled, bind-Fueled}
use finite_agent_physics.Scheduler.Dispatch.{rank_of, urgent_of, urgents_of, sort_ready}
use finite_agent_physics.Scheduler.Loop.{of_physical}

ranks_of-Fueled : (ts : List String) (ranks : Dict ℤ) → Fueled (ranks_of ts ranks)
unfolding ranks_of
ranks_of-Fueled [] ranks = tt
ranks_of-Fueled (t ∷ ts) ranks =
    bind-Fueled (got ScheduleFault.key_error (lookup t ranks)) _ (key-Fueled (lookup t ranks))
      (λ v. bind-Fueled (ranks_of ts ranks) _ (ranks_of-Fueled ts ranks) (λ vs. tt))

rank_tasks-Fueled :
    (keep : String → Bool) (duration : String → Option ℤ) (successors : Dict (List String))
    (ts : List String) (ranks : Dict ℤ)
    → Fueled (rank_tasks keep duration successors ts ranks)
unfolding rank_tasks
rank_tasks-Fueled keep duration successors [] ranks = tt
rank_tasks-Fueled keep duration successors (t ∷ ts) ranks = elim (Bool-cases (keep t)) [
  | inr e ↦ rw e (rank_tasks-Fueled keep duration successors ts ranks)
  | inl e ↦ rw e (
      bind-Fueled (got ScheduleFault.key_error (lookup t successors)) _
        (key-Fueled (lookup t successors))
        (λ children.
          bind-Fueled (ranks_of (filter_by keep children) ranks) _
            (ranks_of-Fueled (filter_by keep children) ranks)
            (λ downstream.
              bind-Fueled (got ScheduleFault.key_error (duration t)) _ (key-Fueled (duration t))
                (λ own.
                  rank_tasks-Fueled keep duration successors ts
                    (insert t (own +ℤ greatest downstream) ranks)))))
]

floor_div-Fueled : (n d : ℤ) → Fueled (floor_div n d)
floor_div-Fueled (ℤ.pos n) (ℤ.pos zero) = λ e. cc
floor_div-Fueled (ℤ.negsuc n) (ℤ.pos zero) = λ e. cc
floor_div-Fueled (ℤ.pos n) (ℤ.pos (suc d)) = tt
floor_div-Fueled (ℤ.negsuc n) (ℤ.pos (suc d)) = tt
floor_div-Fueled (ℤ.pos zero) (ℤ.negsuc d) = tt
floor_div-Fueled (ℤ.pos (suc n)) (ℤ.negsuc d) = tt
floor_div-Fueled (ℤ.negsuc n) (ℤ.negsuc d) = tt

shared_by-Fueled : (work capacity : ℤ) → Fueled (shared_by work capacity)
unfolding shared_by
shared_by-Fueled work capacity = floor_div-Fueled ((work +ℤ capacity) -ℤ ℤ.pos 1) capacity

work_of_providers-Fueled :
    (ds : Dict ℤ) (providers : Dict String) (work : Dict ℤ)
    → Fueled (work_of_providers ds providers work)
unfolding work_of_providers
work_of_providers-Fueled [] providers work = tt
work_of_providers-Fueled ((t, duration) ∷ ds) providers work =
    bind-Fueled (got ScheduleFault.key_error (lookup t providers)) _
      (key-Fueled (lookup t providers))
      (λ provider.
        work_of_providers-Fueled ds providers
          (insert provider (or_zero (lookup provider work) +ℤ duration) work))

module _ {F : Floats} where
  provider_bounds-Fueled : (e : RunEnvelope F) (work : Dict ℤ) → Fueled (provider_bounds e work)
  unfolding provider_bounds
  provider_bounds-Fueled e [] = tt
  provider_bounds-Fueled e ((provider, duration) ∷ work) =
      let capacity = int_min (provider_limit e provider) e.max_parallelism in
      bind-Fueled (shared_by duration capacity) _ (shared_by-Fueled duration capacity) (λ bound.
        bind-Fueled (provider_bounds e work) _ (provider_bounds-Fueled e work) (λ rest. tt))

  successors-Fueled : (tasks : List (TaskContract F)) → Fueled (of_graph (successors_of tasks))
  successors-Fueled tasks = from (successors_of tasks) (λ e p. successors_missing tasks e p)
    where
      from :
          (r : Result GraphFault (Dict (List String)))
          → ((e : GraphFault) → r ≡ err e → e ≡ GraphFault.key_error)
          → Fueled (of_graph r)
      from (ok a) h = tt
      from (err e) h = rw (h e refl) (λ p. cc)

  order-Fueled : (tasks : List (TaskContract F)) → Fueled (of_graph (topological_order tasks))
  order-Fueled tasks = from _ (topological_order-OrderEnd tasks)
    where
      from : {n : ℕ} (r : Result GraphFault (List String)) → OrderEnd n r → Fueled (of_graph r)
      from _ (OrderEnd.complete order h) = tt
      from _ OrderEnd.missing = λ p. cc
      from _ OrderEnd.partial = λ p. cc

  -- What is computed from the graph's successors and its order.
  of_order-Fueled :
      {A : Type 0} (tasks : List (TaskContract F))
      (f : Dict (List String) → List String → Result ScheduleFault A)
      → ((successors : Dict (List String)) (order : List String) → Fueled (f successors order))
      → Fueled (
          of_graph (successors_of tasks) >>= λ successors.
          of_graph (topological_order tasks) >>= f successors)
  of_order-Fueled tasks f h =
      bind-Fueled (of_graph (successors_of tasks)) _ (successors-Fueled tasks) (λ successors.
        bind-Fueled (of_graph (topological_order tasks)) _ (order-Fueled tasks) (h successors))

  pub upward_ranks-Fueled :
      (tasks : List (TaskContract F)) (profiles : Dict (BackendProfile F))
      → Fueled (upward_ranks tasks profiles)
  unfolding upward_ranks
  upward_ranks-Fueled tasks profiles = of_order-Fueled tasks _ (λ successors order.
      rank_tasks-Fueled (λ t. true) (λ t. duration_of (lookup t profiles)) successors
        (reverse order) [])

  pub upward_ranks_for_tasks-Fueled :
      (tasks : List (TaskContract F)) (profiles : Dict (BackendProfile F)) (included : List String)
      → Fueled (upward_ranks_for_tasks tasks profiles included)
  unfolding upward_ranks_for_tasks
  upward_ranks_for_tasks-Fueled tasks profiles included =
      of_order-Fueled tasks _ (λ successors order.
        rank_tasks-Fueled (λ t. elem t included) (λ t. duration_of (lookup t profiles)) successors
          (reverse order) [])

  duration_lower_bound-Fueled :
      (tasks : List (TaskContract F)) (durations : Dict ℤ) (providers : Dict String)
      (e : RunEnvelope F)
      → Fueled (duration_lower_bound tasks durations providers e)
  unfolding duration_lower_bound
  duration_lower_bound-Fueled tasks [] providers e = tt
  duration_lower_bound-Fueled tasks (d ∷ ds) providers e =
      let durations = d ∷ ds in
      of_order-Fueled tasks _ (λ successors order.
        let ranks =
          rank_tasks (λ t. contains t durations) (λ t. lookup t durations) successors
            (reverse order) [] in
        bind-Fueled ranks _
          (rank_tasks-Fueled (λ t. contains t durations) (λ t. lookup t durations) successors
            (reverse order) [])
          (λ ranks.
            bind-Fueled (shared_by (sum_of (values durations)) e.max_parallelism) _
              (shared_by-Fueled (sum_of (values durations)) e.max_parallelism)
              (λ bound.
                bind-Fueled (work_of_providers durations providers []) _
                  (work_of_providers-Fueled durations providers [])
                  (λ work.
                    bind-Fueled (provider_bounds e work) _ (provider_bounds-Fueled e work)
                      (λ bounds. tt)))))

  pub profile_lower_bound-Fueled :
      (tasks : List (TaskContract F)) (profiles : Dict (BackendProfile F)) (e : RunEnvelope F)
      (included : List String)
      → Fueled (profile_lower_bound tasks profiles e included)
  unfolding profile_lower_bound
  profile_lower_bound-Fueled tasks profiles e included =
      (let chosen = included_profiles included profiles in
        duration_lower_bound-Fueled tasks (map (λ c. (c.0, c.1.duration_ms_p95)) chosen)
          (map (λ c. (c.0, c.1.provider)) chosen) e)

  pub entry_lower_bound-Fueled :
      (tasks : List (TaskContract F)) (entries : List (ScheduleEntry F)) (e : RunEnvelope F)
      → Fueled (entry_lower_bound tasks entries e)
  unfolding entry_lower_bound
  entry_lower_bound-Fueled tasks entries e =
      duration_lower_bound-Fueled tasks (durations_into entries []) (providers_into entries []) e

  pub fastest_profiles-Fueled :
      (ts : List (TaskContract F)) (d : Dict (BackendProfile F)) → Fueled (fastest_profiles ts d)
  unfolding fastest_profiles
  fastest_profiles-Fueled [] d = tt
  fastest_profiles-Fueled (t ∷ ts) d =
      bind-Fueled (got ScheduleFault.value_error (min_by faster (qualified t))) _
        (value (min_by faster (qualified t)))
        (λ p. fastest_profiles-Fueled ts (insert t.task_id p d))
    where
      value : (o : Option (BackendProfile F)) → Fueled (got ScheduleFault.value_error o)
      value none = λ e. cc
      value (some p) = tt

  pub protected-Fueled :
      (tasks : List (TaskContract F)) → Fueled (of_physical (protected_task_ids tasks))
  protected-Fueled tasks = from _ (protected_task_ids-Protected tasks)
    where
      from : (r : _) → Protected tasks r → Fueled (of_physical r)
      from _ (Protected.closure ids sound all) = tt
      from _ (Protected.unknown t p out) = λ e. cc

  module _ (N : FloatArithmetic F) (c : Setting F) where
    urgents_of-Fueled : (time : ℤ) (ts : List (TaskContract F)) → Fueled (urgents_of N c time ts)
    unfolding urgents_of urgent_of
    urgents_of-Fueled time [] = tt
    urgents_of-Fueled time (t ∷ ts) =
        bind-Fueled (urgent_of N c time t) _
          (bind-Fueled (got ScheduleFault.key_error (lookup t.task_id c.reference_profiles)) _
            (key-Fueled (lookup t.task_id c.reference_profiles))
            (λ reference.
              bind-Fueled (got ScheduleFault.key_error (rank_of N c t)) _
                (key-Fueled (rank_of N c t)) (λ rank. tt)))
          (λ u. bind-Fueled (urgents_of N c time ts) _ (urgents_of-Fueled time ts) (λ us. tt))

    pub sort_ready-Fueled :
        (policy : SchedulePolicy) (time : ℤ) (ts : List (TaskContract F))
        → Fueled (sort_ready N c policy time ts)
    unfolding sort_ready
    sort_ready-Fueled SchedulePolicy.adaptive time ts =
        bind-Fueled (urgents_of N c time ts) _ (urgents_of-Fueled time ts) (λ us. tt)
    sort_ready-Fueled _ time ts = tt
