-- ===== src/Scheduler/Dispatch.antt =====
-- What a pass of the loop of `schedule` does with the tasks that are ready or that it skips, and its
-- `fail`.
use finite_agent_physics.Prelude.{
  suc, ℤ, ◌+ℤ◌, ◌-ℤ◌, int_leb, int_ltb, int_eq, int_min, int_max, String, Bool, true, false, not,
  ◌&&◌, Option, none, some, List, [], ◌∷◌, ◌++◌, map, Dict, lookup, insert, elem, length, is_empty,
  ◌=ˢ◌, if◌then◌else◌, Result, ok, err, sorted, tuple_less, text_less, filter_by, sort_by, add,
  set_of,
}
use finite_agent_physics.Prelude.Results.{◌>>=◌}
use finite_agent_physics.Effects.Types.{EffectClass}
use finite_agent_physics.Contracts.Profiles.{Floats, BackendProfile}
use finite_agent_physics.Contracts.Tasks.{TaskContract}
use finite_agent_physics.Contracts.Envelopes.{provider_limit}
use finite_agent_physics.Scheduler.Choices.{
  FloatArithmetic, total_tokens, own_deadline, used_with, active_or_none, effect_conflicts,
  choose_profile,
}
use finite_agent_physics.Scheduler.Plans.{
  SchedulePolicy, ScheduleFault, FailureReason, SkipReason, EventType, Outcome, Running, Plan,
  Setting, Exit, capacity, got, emit, set_outcome, push, result_of,
}
use finite_agent_physics.Scheduler.Ranks.{or_zero}

abbrev pub raised_in : {F : Floats} {A : Type 0} → Result ScheduleFault A → Result (Exit F) A
raised_in (ok a) = ok a
raised_in (err fault) = err (Exit.raised fault)

module _ {F : Floats} (N : FloatArithmetic F) (c : Setting F) where
  abbrev pub is_fresh : Plan F → TaskContract F → Bool
  is_fresh s t = not (elem t.task_id s.started) && not (elem t.task_id s.skipped)

  -- The tasks that `fail` cancels, in the order of the heap.
  unfoldable pub cancel_all : List (Running F) → Plan F → Result (Exit F) (Plan F)
  unfolding set_outcome emit
  cancel_all [] s = ok s
  cancel_all (r ∷ rs) s = do
    entries ← raised_in (set_outcome r.task_id Outcome.cancelled s.time_ms s.entries)
    cancel_all rs (emit EventType.task_cancelled (some r.task_id) (record s { entries = entries }))

  -- `fail`
  unfoldable pub refuse : FailureReason → {A : Type 0} → Plan F → Result (Exit F) A
  unfolding cancel_all emit result_of
  refuse reason s = do
    s' ← cancel_all s.running s
    err (
        Exit.refused (
          result_of c false c.model_bound (some reason)
            (emit (EventType.run_failed reason) none (record s' { running = [] }))))

  unfoldable pub skip : SkipReason → String → Plan F → Plan F
  unfolding emit
  skip reason t s =
      emit (EventType.task_skipped reason) (some t) (record s { skipped = s.skipped ++ t ∷ [] })

  -- The names of the first list, each once, that the second has.
  abbrev pub both : List String → List String → List String
  both xs ys = set_of (filter_by (λ x. elem x ys) xs)

  unfoldable pub skip_blocked : List (TaskContract F) → Plan F → Result (Exit F) (Plan F)
  unfolding skip refuse filter_by set_of sorted
  skip_blocked [] s = ok s
  skip_blocked (t ∷ ts) s = do
    let missing = sorted (both t.dependencies s.skipped)
    s' ←
        if t.optional
        then ok (skip (SkipReason.dependency_skipped missing) t.task_id s)
        else refuse (FailureReason.depends_on_skipped t.task_id missing) s
    skip_blocked ts s'

  abbrev pub rank_of : TaskContract F → Option ℤ
  rank_of t =
      lookup t.task_id (if elem t.task_id c.protected_ids then c.protected_ranks else c.ranks)

  -- The key of `_sort_ready`, beside its task.
  pub record Urgent : Type 0 where
    pub task : TaskContract F
    pub unprotected : Bool
    pub urgency : ℤ
    pub rank : ℤ

  unfoldable pub urgent_of : (time : ℤ) → TaskContract F → Result ScheduleFault Urgent
  unfolding lookup ◌-ℤ◌
  urgent_of time t = do
    let deadline = c.envelope.deadline_ms
    reference ← got ScheduleFault.key_error (lookup t.task_id c.reference_profiles)
    rank ← got ScheduleFault.key_error (rank_of t)
    ok (record {
      task = t;
      unprotected = not (elem t.task_id c.protected_ids);
      urgency =
          int_min ((own_deadline t.deadline_ms deadline -ℤ time) -ℤ reference.duration_ms_p95)
            ((deadline -ℤ time) -ℤ rank);
      rank = rank;
    })

  unfoldable pub urgents_of :
      (time : ℤ) → List (TaskContract F) → Result ScheduleFault (List Urgent)
  unfolding urgent_of
  urgents_of time [] = ok []
  urgents_of time (t ∷ ts) = do u ← urgent_of time t; us ← urgents_of time ts; ok (u ∷ us)

  abbrev same : Bool → Bool → Bool
  same a b = if a then b else not b

  abbrev more_urgent : Urgent → Urgent → Bool
  more_urgent u v = tuple_less (
      (same u.unprotected v.unprotected, not u.unprotected)
      ∷ (int_eq u.urgency v.urgency, int_ltb u.urgency v.urgency)
      ∷ (int_eq u.rank v.rank, int_ltb v.rank u.rank)
      ∷ (F.same u.task.value v.task.value, F.less v.task.value u.task.value)
      ∷ (u.task.task_id =ˢ v.task.task_id, text_less u.task.task_id v.task.task_id)
      ∷ [])

  abbrev pub by_name : TaskContract F → TaskContract F → Bool
  by_name a b = text_less a.task_id b.task_id

  unfoldable pub sort_ready :
      SchedulePolicy
      → (time : ℤ) → List (TaskContract F)
      → Result ScheduleFault (List (TaskContract F))
  unfolding urgents_of sort_by text_less
  sort_ready SchedulePolicy.adaptive time ts = do
    us ← urgents_of time ts
    ok (map (λ (u : Urgent). u.task) (sort_by more_urgent us))
  sort_ready _ time ts = ok (sort_by by_name ts)

  abbrev with_effect : TaskContract F → Dict (List EffectClass) → Dict (List EffectClass)
  with_effect t active =
      if is_empty t.effect.resource
      then active
      else insert t.effect.resource
          (active_or_none (lookup t.effect.resource active) ++ t.effect.kind ∷ []) active

  -- A task is dispatched with the profile.
  unfoldable pub start : TaskContract F → BackendProfile F → Plan F → Plan F
  unfolding emit push insert lookup ◌+ℤ◌
  start t p s =
      let end_ms = s.time_ms +ℤ p.duration_ms_p95 in
      emit (EventType.task_started end_ms) (some t.task_id) (
        emit (EventType.profile_selected p.name p.provider) (some t.task_id) (record s {
          started = add t.task_id s.started;
          used = used_with N s.used p;
          provider_running =
              insert p.provider (or_zero (lookup p.provider s.provider_running) +ℤ ℤ.pos 1)
                s.provider_running;
          active_effects = with_effect t s.active_effects;
          running =
              push (record { end_ms = end_ms; tie = s.tie; task_id = t.task_id; profile = p })
                s.running;
          tie = suc s.tie;
          entries =
              s.entries
              ++ record {
                task_id = t.task_id;
                backend = p.name;
                provider = p.provider;
                start_ms = s.time_ms;
                end_ms = end_ms;
                tokens = total_tokens p;
                cost_microusd = p.cost_microusd;
                context_bytes = p.context_bytes;
                success_probability = N.one_less p.failure_probability;
                optional = t.optional;
                outcome = Outcome.running;
              }
                ∷ [];
          dispatched = true;
        }))

  unfoldable pub dispatch_with :
      TaskContract F → Option (BackendProfile F) → Plan F → Result (Exit F) (Plan F)
  unfolding start skip refuse effect_conflicts provider_limit lookup
  dispatch_with t none s =
      if elem t.task_id c.protected_ids
      then refuse (FailureReason.no_backend_plan t.task_id) s
      else ok (skip SkipReason.protected_envelope t.task_id (record s { dispatched = true }))
  dispatch_with t (some p) s =
      if int_leb (provider_limit c.envelope p.provider)
        (or_zero (lookup p.provider s.provider_running))
      then ok s
      else if effect_conflicts t s.active_effects
      then ok s
      else ok (start t p s)

  -- The protected tasks that are not started, but for the one given.
  abbrev pub remaining_protected : Plan F → TaskContract F → List (TaskContract F)
  remaining_protected s t =
      filter_by
        (λ o.
          elem o.task_id c.protected_ids
          && not (elem o.task_id s.started)
          && not (o.task_id =ˢ t.task_id))
        c.tasks

  unfoldable pub dispatch_task : TaskContract F → Plan F → Result (Exit F) (Plan F)
  unfolding dispatch_with choose_profile filter_by lookup ◌-ℤ◌
  dispatch_task t s = do
    rank ← raised_in (got ScheduleFault.key_error (rank_of t))
    reference ← raised_in (got ScheduleFault.key_error (lookup t.task_id c.reference_profiles))
    dispatch_with t
        (choose_profile N t c.envelope s.time_ms
          (int_max (ℤ.pos 0) (rank -ℤ reference.duration_ms_p95)) s.used (remaining_protected s t))
        s

  unfoldable pub dispatch_all : List (TaskContract F) → Plan F → Result (Exit F) (Plan F)
  unfolding dispatch_task
  dispatch_all [] s = ok s
  dispatch_all (t ∷ ts) s =
      if int_leb (capacity c.policy c.envelope) (ℤ.pos (length s.running))
      then ok s
      else (do s' ← dispatch_task t s; dispatch_all ts s')
