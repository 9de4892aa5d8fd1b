-- ===== src/Scheduler/Bounded.antt =====
-- `schedule` from its checks to its result, and the plan that its loop starts with.
use finite_agent_physics.Prelude.{
  suc, ◌*◌, ◌≡◌, ◌≢◌, refl, sym, ap, ℤ, is_negative, int_leb, int_leb_total, Bool, true, false,
  ◌||◌, List, [], ◌∷◌, length, lookup-nil, selected_none, Result, ok, err, All, number, number_all,
  ◌⊎◌, arith,
}
use finite_agent_physics.Prelude.Results.{◌>>=◌}
use finite_agent_physics.Contracts.Profiles.{Floats}
use finite_agent_physics.Contracts.Tasks.{TaskContract}
use finite_agent_physics.Contracts.Envelopes.{
  EnvelopeError, RunEnvelope, budget_tests, envelope_errors, provider_limit,
  provider_limit-IsPositive,
}
use finite_agent_physics.Graph.Graphs.{by_id, graph_errors}
use finite_agent_physics.Graph.Walks.{GraphFault, validate_graph}
use finite_agent_physics.Graph.Validated.{append_nil, Judged, validate_graph-Judged}
use finite_agent_physics.Physical.Inputs.{protected_task_ids}
use finite_agent_physics.Scheduler.Choices.{FloatArithmetic, unused, within_budgets}
use finite_agent_physics.Scheduler.Plans.{
  SchedulePolicy, ScheduleFault, ScheduleResult, Setting, Exit, emit,
}
use finite_agent_physics.Scheduler.Ranks.{
  fastest_profiles, upward_ranks, upward_ranks_for_tasks, profile_lower_bound, sum_of,
}
use finite_agent_physics.Scheduler.Entries.{end_of}
use finite_agent_physics.Scheduler.Invariant.{Scope, all, of_provider, limit_of, IsBounded, IsKept}
use finite_agent_physics.Scheduler.Ended.{Leads, Fueled}
use finite_agent_physics.Scheduler.Dispatched.{Good}
use finite_agent_physics.Scheduler.Passes.{plan_all-Leads}
use finite_agent_physics.Scheduler.Fuel.{
  upward_ranks-Fueled, upward_ranks_for_tasks-Fueled, profile_lower_bound-Fueled,
  fastest_profiles-Fueled, protected-Fueled,
}
use finite_agent_physics.Scheduler.Accepted.{
  tasks-IsLasting, distinct_names, All-named, length-by_id,
}
use finite_agent_physics.Scheduler.Loop.{
  first_plan, planned, returned, of_physical, checked_envelope, checked, prepared, schedule,
}

-- What `schedule` ends with: a result whose entries keep to the limits and the budgets, and which
-- ends by the deadline if it is a success; or an exception, which is not for want of fuel.
pub data Scheduled {F : Floats} (policy : SchedulePolicy) (e : RunEnvelope F)
    : Result ScheduleFault (ScheduleResult F) → Type 0 where
  ended :
      (r : ScheduleResult F)
      → IsBounded policy e r.total r.entries
      → (r.success ≡ false) ⊎ (int_leb r.makespan_ms e.deadline_ms ≡ true)
      → Scheduled policy e (ok r)
  failed : (fault : ScheduleFault) → fault ≢ ScheduleFault.no_fuel → Scheduled policy e (err fault)

not_negative : (a : ℤ) → is_negative a ≡ false → int_leb (ℤ.pos 0) a ≡ true
not_negative (ℤ.pos a) h = ground arith
not_negative (ℤ.negsuc a) h = cc

positive : (v : ℤ) → int_leb v (ℤ.pos 0) ≡ false → int_leb (ℤ.pos 0) v ≡ true
positive v h = int_leb_total v (ℤ.pos 0) h

three_false :
    (a b c : Bool) → (a || (b || (c || false))) ≡ false → (a ≡ false) × (b ≡ false) × (c ≡ false)
three_false a b c h = ground (arith, h)

module _ {F : Floats} (e : RunEnvelope F) (valid : envelope_errors e ≡ []) where
  budgets : All (λ t. t.0 ≡ false) (budget_tests e)
  unfolding envelope_errors
  budgets = selected_none (budget_tests e) (append_nil _ _ (append_nil _ _ valid).0).0

  unused-within : (N : FloatArithmetic F) → within_budgets e (unused N) ≡ true
  unused-within N =
      let (tokens, cost, context) = three_false _ _ _ budgets.1.0 in
      rw
        (
          not_negative e.max_tokens tokens,
          not_negative e.max_cost_microusd cost,
          not_negative e.max_context_bytes context,
        )
        refl

  starts_in_time : int_leb (ℤ.pos 0) e.deadline_ms ≡ true
  starts_in_time = positive e.deadline_ms budgets.0

  limit-positive :
      (policy : SchedulePolicy) (q : Scope) → int_leb (ℤ.pos 0) (limit_of policy e q) ≡ true
  limit-positive policy (of_provider p) =
      positive (provider_limit e p) (provider_limit-IsPositive e p valid)
  limit-positive SchedulePolicy.sequential all = ground arith
  limit-positive SchedulePolicy.adaptive all = positive e.max_parallelism budgets.1.1.0
  limit-positive _ all = positive e.max_parallelism budgets.1.1.0

module _ {F : Floats} (N : FloatArithmetic F) (c : Setting F)
    (valid : envelope_errors c.envelope ≡ []) where
  first_plan-IsKept : IsKept c.policy c.envelope (first_plan N c)
  unfolding first_plan emit number end_of sum_of
  first_plan-IsKept = record {
    ordered = tt;
    named = tt;
    fresh = λ k h. refl;
    counted = λ p. rw (lookup-nil {V = ℤ} p) refl;
    running_limited = λ q. limit-positive c.envelope valid c.policy q;
    followed = λ q t h. omega arith;
    limited = λ q t. limit-positive c.envelope valid c.policy q;
    accounted = record {
      tokens = refl;
      cost = refl;
      context = refl;
      within = unused-within c.envelope valid N;
    };
  }

All-both :
    {A : Type 0} (P Q : A → Type 0) (xs : List A) → All P xs → All Q xs → All (λ x. P x × Q x) xs
All-both P Q [] p q = tt
All-both P Q (x ∷ xs) p q = ((p.0, q.0), All-both P Q xs p.1 q.1)

-- A setting that was prepared from a graph and an envelope without errors.
pub record IsReady {F : Floats} (c : Setting F) : Type 0 where
  pub faultless : graph_errors c.tasks ≡ []
  pub valid : envelope_errors c.envelope ≡ []
  pub full : c.known ≡ by_id c.tasks

-- What returns has the property, and no fuel runs out.
abbrev Readies : {A : Type 0} → (A → Type 0) → Result ScheduleFault A → Type 0
Readies P (ok a) = P a
Readies P (err fault) = fault ≢ ScheduleFault.no_fuel

bind-Readies :
    {A B : Type 0} (P : B → Type 0) (m : Result ScheduleFault A) (f : A → Result ScheduleFault B)
    → Fueled m
    → ((a : A) → m ≡ ok a → Readies P (f a))
    → Readies P (m >>= f)
bind-Readies P (ok a) f h k = k a refl
bind-Readies P (err fault) f h k = h

envelope-Fueled : (es : List EnvelopeError) → Fueled (checked_envelope es)
envelope-Fueled [] = tt
envelope-Fueled (x ∷ xs) = λ p. cc

envelope_valid : (es : List EnvelopeError) (u : Unit {0}) → checked_envelope es ≡ ok u → es ≡ []
envelope_valid [] u h = refl
envelope_valid (x ∷ xs) u h = cc

module _ {F : Floats} where
  checked-Fueled :
      (tasks : List (TaskContract F)) (r : Result GraphFault (Unit {0}))
      → Judged tasks r
      → Fueled (checked r)
  checked-Fueled tasks _ (Judged.accepted e walks) = tt
  checked-Fueled tasks _ (Judged.circular t e c) = λ p. cc
  checked-Fueled tasks _ (Judged.faulty x xs e) = λ p. cc

  checked_faultless :
      (tasks : List (TaskContract F)) (r : Result GraphFault (Unit {0})) (u : Unit {0})
      → Judged tasks r
      → checked r ≡ ok u
      → graph_errors tasks ≡ []
  checked_faultless tasks _ u (Judged.accepted e walks) h = e
  checked_faultless tasks _ u (Judged.circular t e c) h = e
  checked_faultless tasks _ u (Judged.faulty x xs e) h = cc

  prepared-Readies :
      (tasks : List (TaskContract F)) (e : RunEnvelope F) (policy : SchedulePolicy)
      → Readies (λ c. IsReady c × (c.envelope ≡ e) × (c.policy ≡ policy)) (prepared tasks e policy)
  unfolding prepared
  prepared-Readies tasks e policy =
      bind-Readies _ (checked (validate_graph tasks)) _
        (checked-Fueled tasks (validate_graph tasks) (validate_graph-Judged tasks))
        (λ u graph.
          bind-Readies _ (checked_envelope (envelope_errors e)) _
            (envelope-Fueled (envelope_errors e))
            (λ u' envelope.
              bind-Readies _ (of_physical (protected_task_ids tasks)) _ (protected-Fueled tasks)
                (λ protected_ids p.
                  bind-Readies _ (fastest_profiles tasks []) _ (fastest_profiles-Fueled tasks [])
                    (λ reference q.
                      bind-Readies _ (upward_ranks tasks reference) _
                        (upward_ranks-Fueled tasks reference)
                        (λ ranks r.
                          bind-Readies _ (upward_ranks_for_tasks tasks reference protected_ids) _
                            (upward_ranks_for_tasks-Fueled tasks reference protected_ids)
                            (λ protected_ranks v.
                              bind-Readies _ (profile_lower_bound tasks reference e protected_ids) _
                                (profile_lower_bound-Fueled tasks reference e protected_ids)
                                (λ bound w. (
                                  record {
                                    faultless =
                                        checked_faultless tasks (validate_graph tasks) u
                                          (validate_graph-Judged tasks) graph;
                                    valid = envelope_valid (envelope_errors e) u' envelope;
                                    full = refl;
                                  },
                                  refl,
                                  refl,
                                ))))))))

  module _ (N : FloatArithmetic F) (c : Setting F) (ready : IsReady c) where
    planned-Leads : Leads (Good N c) (Good N c) (planned N c)
    unfolding planned
    planned-Leads =
        plan_all-Leads N c
          (All-both _ _ c.tasks (All-named c.tasks) (tasks-IsLasting c.tasks ready.faultless))
          (distinct_names c.tasks ready.faultless) (suc (2 * length c.known)) (first_plan N c)
          (first_plan-IsKept N c ready.valid) (starts_in_time c.envelope ready.valid)
          (omega
            (arith, number_all c.tasks, ap length ready.full, length-by_id c.tasks ready.faultless))

    returned-Scheduled :
        (m : Result (Exit F) (ScheduleResult F))
        → Leads (Good N c) (Good N c) m
        → Scheduled c.policy c.envelope (returned m)
    returned-Scheduled (ok r) h = Scheduled.ended r h.0 h.1
    returned-Scheduled (err (Exit.refused r)) h = Scheduled.ended r h.0 h.1
    returned-Scheduled (err (Exit.raised fault)) h = Scheduled.failed fault h

  -- For every float arithmetic, `schedule` of any tasks, envelope and policy ends with a result or
  -- with an exception. Of a result, at every time the entries under way are no more than the
  -- parallelism (one, where the policy is sequential), and those of each provider no more than its
  -- limit; the totals of tokens, cost and context are the sums of those of the entries, and no more
  -- than the budgets; and if the result is a success, its makespan is no later than the deadline. An exception is
  -- never that fuel ran out: neither that of the loop, nor of the search for cycles, of the
  -- topological order, or of the closure of the protected tasks.
  pub schedule-Scheduled :
      (N : FloatArithmetic F) (tasks : List (TaskContract F)) (e : RunEnvelope F)
      (policy : SchedulePolicy)
      → Scheduled policy e (schedule N tasks e policy)
  unfolding schedule
  schedule-Scheduled N tasks e policy =
      from (prepared tasks e policy) (prepared-Readies tasks e policy)
    where
      from :
          (m : Result ScheduleFault (Setting F))
          → Readies (λ c. IsReady c × (c.envelope ≡ e) × (c.policy ≡ policy)) m
          → Scheduled policy e (m >>= λ c. returned (planned N c))
      from (ok c) h =
          rw (sym h.1, sym h.2) (returned-Scheduled N c h.0 (planned N c) (planned-Leads N c h.0))
      from (err fault) h = Scheduled.failed fault h
