-- ===== src/Scheduler/Loop.antt =====
-- `schedule`: a pass of its loop dispatches what is ready, and goes on to the next time at which a task
-- ends.
use finite_agent_physics.Prelude.{
  ℕ, zero, suc, ◌+◌, ◌*◌, ltb, ℤ, int_ltb, int_eq, int_pred, String, true, false, not, ◌&&◌, none,
  some, List, [], ◌∷◌, Dict, lookup, insert, erase, elem, any_of, length, is_empty, if◌then◌else◌,
  Result, ok, err, text_less, filter_by, sort_by, add,
}
use finite_agent_physics.Prelude.Results.{◌>>=◌, ◌>>◌}
use finite_agent_physics.Effects.Types.{EffectClass, class_eq}
use finite_agent_physics.Contracts.Profiles.{Floats}
use finite_agent_physics.Contracts.Tasks.{TaskContract, is_nil}
use finite_agent_physics.Contracts.Envelopes.{EnvelopeError, RunEnvelope, envelope_errors}
use finite_agent_physics.Graph.Graphs.{by_id}
use finite_agent_physics.Graph.Walks.{GraphFault, validate_graph}
use finite_agent_physics.Physical.Amounts.{PhysicalError}
use finite_agent_physics.Physical.Inputs.{protected_task_ids}
use finite_agent_physics.Scheduler.Choices.{FloatArithmetic, unused}
use finite_agent_physics.Scheduler.Plans.{
  SchedulePolicy, ScheduleFault, FailureReason, EventType, Outcome, ScheduleResult, Running, Plan,
  Setting, Exit, got, emit, set_outcome, in_order, result_of,
}
use finite_agent_physics.Scheduler.Ranks.{
  fastest_profiles, upward_ranks, upward_ranks_for_tasks, profile_lower_bound, entry_lower_bound,
}
use finite_agent_physics.Scheduler.Dispatch.{
  raised_in, is_fresh, refuse, skip_blocked, by_name, sort_ready, dispatch_all,
}

-- `list.remove`, of a value that is not there an exception
unfoldable pub remove_effect :
    EffectClass → List EffectClass → Result ScheduleFault (List EffectClass)
unfolding class_eq
remove_effect k [] = err ScheduleFault.value_error
remove_effect k (e ∷ es) =
    let rest = remove_effect k es in
    if class_eq e k then ok es else (elim rest [ ok es' ↦ ok (e ∷ es') | err f ↦ err f ])

module _ {F : Floats} (N : FloatArithmetic F) (c : Setting F) where
  -- A resource without effects is taken out.
  abbrev pub placed_effects :
      String → List EffectClass → Dict (List EffectClass) → Dict (List EffectClass)
  placed_effects resource rest active =
      if is_nil rest then erase resource active else insert resource rest active

  unfoldable pub without_effect :
      TaskContract F → Dict (List EffectClass) → Result ScheduleFault (Dict (List EffectClass))
  unfolding remove_effect erase insert lookup
  without_effect t active = if is_empty t.effect.resource then ok active else (do
    kinds ← got ScheduleFault.key_error (lookup t.effect.resource active)
    rest ← remove_effect t.effect.kind kinds
    ok (placed_effects t.effect.resource rest active))

  -- The task that was popped off the heap has ended.
  unfoldable pub complete : Running F → Plan F → Result (Exit F) (Plan F)
  unfolding set_outcome without_effect emit insert lookup
  complete r s = do
    task ← raised_in (got ScheduleFault.key_error (lookup r.task_id c.known))
    entries ← raised_in (set_outcome r.task_id Outcome.completed s.time_ms s.entries)
    n ← raised_in (got ScheduleFault.key_error (lookup r.profile.provider s.provider_running))
    active ← raised_in (without_effect task s.active_effects)
    ok (
        emit (EventType.task_completed r.profile.name) (some r.task_id) (record s {
          completed = add r.task_id s.completed;
          entries = entries;
          provider_running = insert r.profile.provider (int_pred n) s.provider_running;
          active_effects = active;
        }))

  -- Those at the head of the heap that end at the time.
  unfoldable pub complete_due : ℤ → List (Running F) → Plan F → Result (Exit F) (Plan F)
  unfolding complete
  complete_due time [] s = ok (record s { running = [] })
  complete_due time (r ∷ rs) s =
      if int_eq r.end_ms time
      then (do s' ← complete r (record s { running = rs }); complete_due time rs s')
      else ok (record s { running = r ∷ rs })

  unfoldable pub advance : List (Running F) → Plan F → Result (Exit F) (Plan F)
  unfolding complete_due refuse
  advance [] s = if s.dispatched then ok s else refuse N c FailureReason.deadlock s
  advance (r ∷ rs) s = complete_due r.end_ms (r ∷ rs) (record s { time_ms = r.end_ms })

  abbrev pub blocked_tasks : Plan F → List (TaskContract F)
  blocked_tasks s =
      filter_by (λ t. is_fresh N c s t && any_of (λ d. elem d s.skipped) t.dependencies) c.tasks

  abbrev pub ready_tasks : Plan F → List (TaskContract F)
  ready_tasks s =
      filter_by
        (λ t. is_fresh N c s t && not (any_of (λ d. not (elem d s.completed)) t.dependencies))
        c.tasks

  -- What a pass does when no task waits for work that was skipped.
  unfoldable pub work : Plan F → Result (Exit F) (Plan F)
  unfolding sort_ready dispatch_all advance refuse filter_by
  work s = do
    ready ← raised_in (sort_ready N c c.policy s.time_ms (ready_tasks s))
    s' ← dispatch_all N c ready (record s { dispatched = false })
    s'' ← advance s'.running s'
    if int_ltb c.envelope.deadline_ms s''.time_ms
        then refuse N c FailureReason.deadline_exceeded s''
        else ok s''

  unfoldable pub pass : Plan F → Result (Exit F) (Plan F)
  unfolding skip_blocked work filter_by sort_by text_less
  pass s =
      if is_nil (blocked_tasks s)
      then work s
      else skip_blocked N c (sort_by (by_name N c) (blocked_tasks s)) s

  unfoldable pub finish : Plan F → Result (Exit F) (ScheduleResult F)
  unfolding entry_lower_bound in_order emit result_of
  finish s = do
    bound ← raised_in (entry_lower_bound c.tasks (in_order s.entries) c.envelope)
    if int_ltb s.time_ms bound
        then err (Exit.raised ScheduleFault.bound_exceeded)
        else ok (result_of c true bound none (emit (EventType.run_completed s.time_ms) none s))

  unfoldable pub plan_all : ℕ → Plan F → Result (Exit F) (ScheduleResult F)
  unfolding pass finish
  plan_all zero s = err (Exit.raised ScheduleFault.no_fuel)
  plan_all (suc n) s = elim (ltb (length s.completed + length s.skipped) (length c.known)) [
    | true ↦ (do s' ← pass s; plan_all n s')
    | false ↦ finish s
  ]

  unfoldable pub first_plan : Plan F
  unfolding emit
  first_plan = emit (EventType.run_started c.policy) none (record {
    time_ms = ℤ.pos 0;
    sequence = 0;
    events = [];
    entries = [];
    skipped = [];
    completed = [];
    started = [];
    running = [];
    provider_running = [];
    active_effects = [];
    used = unused N;
    tie = 0;
    dispatched = false;
  })

  -- Each pass starts, skips or completes a task.
  unfoldable pub planned : Result (Exit F) (ScheduleResult F)
  unfolding plan_all first_plan
  planned = plan_all (suc (2 * length c.known)) first_plan

-- What a `return` of the loop gives is what `schedule` returns.
abbrev pub returned :
    {F : Floats} → Result (Exit F) (ScheduleResult F) → Result ScheduleFault (ScheduleResult F)
returned (ok r) = ok r
returned (err (Exit.refused r)) = ok r
returned (err (Exit.raised fault)) = err fault

-- `_protected_task_ids` raises a KeyError at a task that is unknown.
abbrev pub of_physical : {A : Type 0} → Result PhysicalError A → Result ScheduleFault A
of_physical (ok a) = ok a
of_physical (err PhysicalError.no_fuel) = err ScheduleFault.no_fuel
of_physical (err e) = err ScheduleFault.key_error

abbrev pub checked_envelope : List EnvelopeError → Result ScheduleFault (Unit {0})
checked_envelope [] = ok tt
checked_envelope (x ∷ xs) = err (ScheduleFault.invalid_envelope (x ∷ xs))

abbrev pub checked : Result GraphFault (Unit {0}) → Result ScheduleFault (Unit {0})
checked (ok a) = ok tt
checked (err GraphFault.no_fuel) = err ScheduleFault.no_fuel
checked (err fault) = err (ScheduleFault.invalid_graph fault)

-- What is checked and computed before the loop.
unfoldable pub prepared :
    {F : Floats}
    → List (TaskContract F)
    → RunEnvelope F
    → SchedulePolicy
    → Result ScheduleFault (Setting F)
unfolding validate_graph envelope_errors by_id protected_task_ids fastest_profiles upward_ranks
    upward_ranks_for_tasks profile_lower_bound
prepared tasks envelope policy = do
  checked (validate_graph tasks)
  checked_envelope (envelope_errors envelope)
  protected_ids ← of_physical (protected_task_ids tasks)
  reference_profiles ← fastest_profiles tasks []
  ranks ← upward_ranks tasks reference_profiles
  protected_ranks ← upward_ranks_for_tasks tasks reference_profiles protected_ids
  model_bound ← profile_lower_bound tasks reference_profiles envelope protected_ids
  ok (record {
    tasks = tasks;
    envelope = envelope;
    policy = policy;
    known = by_id tasks;
    protected_ids = protected_ids;
    reference_profiles = reference_profiles;
    ranks = ranks;
    protected_ranks = protected_ranks;
    model_bound = model_bound;
  })

unfoldable pub schedule :
    {F : Floats}
    → FloatArithmetic F
    → List (TaskContract F)
    → RunEnvelope F
    → SchedulePolicy
    → Result ScheduleFault (ScheduleResult F)
unfolding prepared planned
schedule N tasks envelope policy = do c ← prepared tasks envelope policy; returned (planned N c)
