-- ===== src/Scheduler/Choices.antt =====
-- `_choose_profile` of `Scheduler`, with the joint plan for the protected work that is left, and
-- `_effect_conflicts`. What the scheduler computes of floating-point numbers is a parameter.
use finite_agent_physics.Prelude.{
  ℤ, ◌+ℤ◌, ◌-ℤ◌, is_negative, is_zero, int_leb, int_ltb, int_eq, int_min, Bool, false, not, ◌&&◌,
  ◌||◌, Option, none, some, List, [], ◌∷◌, map, any_of, concat_map, Dict, lookup, is_empty, ◌=ˢ◌,
  if◌then◌else◌, tuple_less, text_less, filter_by, sort_by, min_by,
}
use finite_agent_physics.Effects.Types.{EffectClass, writes, class_eq}
use finite_agent_physics.Contracts.Profiles.{Floats, BackendProfile}
use finite_agent_physics.Contracts.Tasks.{TaskContract, is_nil}
use finite_agent_physics.Contracts.Envelopes.{RunEnvelope}

-- `0.0`, `1.0` and `2.0`; `x * y`, `x / y` and `1.0 - x`
pub record FloatArithmetic (F : Floats) : Type 0 where
  pub nought : F.Float
  pub one : F.Float
  pub two : F.Float
  pub times : F.Float → F.Float → F.Float
  pub over : F.Float → F.Float → F.Float
  pub one_less : F.Float → F.Float

-- What a plan uses: tokens, cost, context bytes, and its chance of success.
pub record Usage (F : Floats) : Type 0 where
  pub tokens : ℤ
  pub cost : ℤ
  pub context : ℤ
  pub chance : F.Float

abbrev pub total_tokens : {F : Floats} → BackendProfile F → ℤ
total_tokens p = p.input_tokens +ℤ p.output_tokens

-- `min(deadline or run, run)`
abbrev pub own_deadline : Option ℤ → ℤ → ℤ
own_deadline none run = run
own_deadline (some d) run = if is_zero d then run else int_min run d

-- `active_effects.get(resource, [])`
abbrev pub active_or_none : Option (List EffectClass) → List EffectClass
active_or_none none = []
active_or_none (some active) = active

module _ {F : Floats} where
  unfoldable pub qualified : TaskContract F → List (BackendProfile F)
  unfolding filter_by
  qualified t = filter_by (λ p. F.at_least p.quality t.min_quality) t.profiles

  -- The state has no more of each resource, and at least the chance.
  abbrev pub dominates : Usage F → Usage F → Bool
  dominates u v =
      int_leb u.tokens v.tokens
      && int_leb u.cost v.cost
      && int_leb u.context v.context
      && F.at_least u.chance v.chance

  abbrev usage_less : Usage F → Usage F → Bool
  usage_less u v = tuple_less (
      (int_eq u.tokens v.tokens, int_ltb u.tokens v.tokens)
      ∷ (int_eq u.cost v.cost, int_ltb u.cost v.cost)
      ∷ (int_eq u.context v.context, int_ltb u.context v.context)
      ∷ (F.same u.chance v.chance, F.less u.chance v.chance)
      ∷ [])

  unfoldable pub keep_minimal : List (Usage F) → List (Usage F) → List (Usage F)
  unfolding filter_by
  keep_minimal [] frontier = frontier
  keep_minimal (u ∷ us) frontier = keep_minimal us (
      if any_of (λ v. dominates v u) frontier
      then frontier
      else u ∷ filter_by (λ v. not (dominates u v)) frontier)

  -- A state that is given twice is dominated at the second time, as it is one in the code's set.
  unfoldable pub pareto_minimal : List (Usage F) → List (Usage F)
  unfolding keep_minimal sort_by
  pareto_minimal states = keep_minimal (sort_by usage_less states) []

  unfoldable pub effect_conflicts : TaskContract F → Dict (List EffectClass) → Bool
  unfolding lookup class_eq
  effect_conflicts t active_effects =
      if is_empty t.effect.resource || class_eq t.effect.kind EffectClass.pure
      then false
      else (let active = active_or_none (lookup t.effect.resource active_effects) in
          if class_eq t.effect.kind EffectClass.read
          then any_of writes active
          else not (is_nil active))

  -- The three budgets of the envelope hold with the profile.
  abbrev pub within_budgets : RunEnvelope F → Usage F → Bool
  within_budgets e u =
      int_leb u.tokens e.max_tokens
      && int_leb u.cost e.max_cost_microusd
      && int_leb u.context e.max_context_bytes

  module _ (N : FloatArithmetic F) where
    -- The usage with the profile's.
    abbrev pub used_with : Usage F → BackendProfile F → Usage F
    used_with u p = record {
      tokens = u.tokens +ℤ total_tokens p;
      cost = u.cost +ℤ p.cost_microusd;
      context = u.context +ℤ p.context_bytes;
      chance = N.times u.chance (N.one_less p.failure_probability);
    }

    abbrev pub unused : Usage F
    unused = record { tokens = ℤ.pos 0; cost = ℤ.pos 0; context = ℤ.pos 0; chance = N.one }

    -- The profiles of a task that end by its deadline, if it could start at the time.
    unfoldable pub in_time : (time run_deadline : ℤ) → TaskContract F → List (BackendProfile F)
    unfolding qualified ◌+ℤ◌ filter_by
    in_time time run_deadline t =
        filter_by
          (λ p. int_leb (time +ℤ p.duration_ms_p95) (own_deadline t.deadline_ms run_deadline))
          (qualified t)

    -- Each state of the frontier with each of the profiles, as far as it fits.
    unfoldable pub candidates :
        (remaining : Usage F) → List (BackendProfile F) → List (Usage F) → List (Usage F)
    unfolding filter_by ◌+ℤ◌
    candidates remaining profiles frontier =
        filter_by
          (λ u.
            int_leb u.tokens remaining.tokens
            && int_leb u.cost remaining.cost
            && int_leb u.context remaining.context)
          (concat_map (λ u. map (used_with u) profiles) frontier)

    unfoldable pub fits_all :
        (time run_deadline : ℤ) (remaining : Usage F)
        → List (TaskContract F)
        → List (Usage F)
        → Bool
    unfolding in_time candidates pareto_minimal
    fits_all time run_deadline remaining [] frontier =
        any_of (λ u. F.at_least u.chance remaining.chance) frontier
    fits_all time run_deadline remaining (t ∷ ts) frontier =
        let states = candidates remaining (in_time time run_deadline t) frontier in
        let rest = fits_all time run_deadline remaining ts (pareto_minimal states) in
        if is_nil (in_time time run_deadline t)
        then false
        else if is_nil states
        then false
        else rest

    -- `remaining` has the resources that are left, and the chance of success that is required.
    unfoldable pub future_plan_fits :
        List (TaskContract F) → (remaining : Usage F) (time run_deadline : ℤ) → Bool
    unfolding fits_all sort_by text_less
    future_plan_fits tasks remaining time run_deadline =
        if any_of is_negative (remaining.tokens ∷ remaining.cost ∷ remaining.context ∷ [])
        then false
        else if F.less N.one remaining.chance
        then false
        else fits_all time run_deadline remaining
            (sort_by (λ a b. text_less a.task_id b.task_id) tasks) (unused ∷ [])

    abbrev pub required_chance : RunEnvelope F → (so_far : F.Float) → F.Float
    required_chance e so_far =
        if F.less N.nought so_far
        then N.over e.min_modeled_success_probability so_far
        else if F.same e.min_modeled_success_probability N.nought
        then N.nought
        else N.two

    abbrev pub left_after : RunEnvelope F → Usage F → BackendProfile F → Usage F
    left_after e u p = record {
      tokens = (e.max_tokens -ℤ u.tokens) -ℤ total_tokens p;
      cost = (e.max_cost_microusd -ℤ u.cost) -ℤ p.cost_microusd;
      context = (e.max_context_bytes -ℤ u.context) -ℤ p.context_bytes;
      chance = required_chance e (N.times u.chance (N.one_less p.failure_probability));
    }

    unfoldable pub is_feasible :
        TaskContract F
        → RunEnvelope F
        → (time : ℤ) (used : Usage F) (remaining_protected : List (TaskContract F))
        → BackendProfile F
        → Bool
    unfolding future_plan_fits ◌+ℤ◌ ◌-ℤ◌
    is_feasible t e time used remaining_protected p =
        within_budgets e (used_with used p)
        && int_leb (time +ℤ p.duration_ms_p95) (own_deadline t.deadline_ms e.deadline_ms)
        && future_plan_fits remaining_protected (left_after e used p) time e.deadline_ms

    abbrev cheaper : BackendProfile F → BackendProfile F → Bool
    cheaper p q = tuple_less (
        (int_eq p.cost_microusd q.cost_microusd, int_ltb p.cost_microusd q.cost_microusd)
        ∷ (int_eq (total_tokens p) (total_tokens q), int_ltb (total_tokens p) (total_tokens q))
        ∷ (int_eq p.context_bytes q.context_bytes, int_ltb p.context_bytes q.context_bytes)
        ∷ (
          F.same p.failure_probability q.failure_probability,
          F.less p.failure_probability q.failure_probability,
        )
        ∷ (F.same p.quality q.quality, F.less q.quality p.quality)
        ∷ (int_eq p.duration_ms_p95 q.duration_ms_p95, int_ltb p.duration_ms_p95 q.duration_ms_p95)
        ∷ (p.provider =ˢ q.provider, text_less p.provider q.provider)
        ∷ (p.name =ˢ q.name, text_less p.name q.name)
        ∷ [])

    unfoldable pub choose_profile :
        TaskContract F
        → RunEnvelope F
        → (time downstream : ℤ) (used : Usage F) (remaining_protected : List (TaskContract F))
        → Option (BackendProfile F)
    unfolding min_by filter_by is_feasible qualified ◌+ℤ◌ ◌-ℤ◌ text_less
    choose_profile t e time downstream used remaining_protected = min_by cheaper (
        filter_by (λ p. int_leb p.duration_ms_p95 ((e.deadline_ms -ℤ time) -ℤ downstream))
          (filter_by (is_feasible t e time used remaining_protected) (qualified t)))
