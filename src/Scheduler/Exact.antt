-- ===== src/Scheduler/Exact.antt =====
-- The converse for `_future_plan_fits`: what it drops is dominated, so that it finds a joint plan if
-- there is one.
use finite_agent_physics.Prelude.{
  ◌≡◌, ◌↔◌, refl, ap, ◌∙◌, ℤ, is_negative, int_leb, int_leb-add, int_leb_trans, ◌+ℤ◌, Bool, true,
  false, not, ◌&&◌, ◌||◌, List, [], ◌∷◌, map, any_of, selected_none, concat_map, All, All-map,
  map-All, sort_by, sort-All, text_less, arith,
}
use finite_agent_physics.Contracts.Profiles.{Floats, BackendProfile, profile_tests, profile_errors}
use finite_agent_physics.Contracts.Tasks.{TaskContract, is_nil}
use finite_agent_physics.Scheduler.Choices.{
  FloatArithmetic, Usage, total_tokens, own_deadline, qualified, dominates, pareto_minimal,
  used_with, unused, in_time, candidates, fits_all, future_plan_fits,
}
use finite_agent_physics.Scheduler.Future.{
  Admissible, Joint, Fits, Planned, concat-All, filter_only, keep_minimal-All,
  future_plan_fits-Planned,
}
use finite_agent_physics.Prelude.Any.{
  any-Listed, All-Listed, any-filter, any-le, any-le_where, any-map, any-concat,
}
use finite_agent_physics.Scheduler.Covers.{
  FloatLaws, HasChance, used_with-HasChance, dominates_refl, pareto_minimal_covers,
  used_with-dominates,
}

nonempty : {A : Type 0} (f : A → Bool) (xs : List A) → any_of f xs ≡ true → is_nil xs ≡ false
nonempty f [] h = cc
nonempty f (x ∷ xs) h = refl

sum_not_negative :
    (a b : ℤ) → is_negative a ≡ false → is_negative b ≡ false → is_negative (a +ℤ b) ≡ false
unfolding ◌+ℤ◌
sum_not_negative (ℤ.pos a) (ℤ.pos b) h k = ground arith
sum_not_negative (ℤ.negsuc a) b h k = cc
sum_not_negative (ℤ.pos a) (ℤ.negsuc b) h k = cc

undo_not : (a : Bool) → not a ≡ false → a ≡ true
undo_not a h = ground (arith, h)

four_false :
    (a b c d : Bool)
    → (a || (b || (c || (d || false)))) ≡ false
    → (a ≡ false) × (b ≡ false) × (c ≡ false) × (d ≡ false)
four_false a b c d h = ground (arith, h)

fourth : (a b c d : Bool) → (a && b && c && d) ≡ true → d ≡ true
fourth a b c d h = ground (arith, h)

at_least_zero : (v : ℤ) → int_leb (ℤ.pos 0) v ≡ true → is_negative v ≡ false
at_least_zero (ℤ.pos v) h = refl
at_least_zero (ℤ.negsuc v) h = cc

-- What a profile adds to a plan is not negative, and its chance of failure is one.
record Adds {F : Floats} (p : BackendProfile F) : Type 0 where
  pub tokens : is_negative (total_tokens p) ≡ false
  pub cost : is_negative p.cost_microusd ≡ false
  pub context : is_negative p.context_bytes ≡ false
  pub chance : F.in_unit p.failure_probability ≡ true

faultless-Adds : {F : Floats} (p : BackendProfile F) → profile_errors p ≡ [] → Adds p
unfolding profile_errors
faultless-Adds p e =
    let tests = selected_none (profile_tests p) e in
    let (input, output, cost, context) = four_false _ _ _ _ tests.1.1.0 in
    record {
      tokens = sum_not_negative p.input_tokens p.output_tokens input output;
      cost = cost;
      context = context;
      chance = undo_not _ tests.1.1.1.1.0;
    }

module _ {F : Floats} (N : FloatArithmetic F) (laws : FloatLaws N) where
  module _ (time deadline : ℤ) (remaining : Usage F) where
    before_Fits :
        (u : Usage F) (p : BackendProfile F)
        → Adds p
        → Fits N remaining (used_with N u p)
        → Fits N remaining u
    before_Fits u p adds f = record {
      tokens =
          int_leb_trans u.tokens (u.tokens +ℤ total_tokens p) remaining.tokens
            (int_leb-add u.tokens (total_tokens p) adds.tokens) f.tokens;
      cost =
          int_leb_trans u.cost (u.cost +ℤ p.cost_microusd) remaining.cost
            (int_leb-add u.cost p.cost_microusd adds.cost) f.cost;
      context =
          int_leb_trans u.context (u.context +ℤ p.context_bytes) remaining.context
            (int_leb-add u.context p.context_bytes adds.context) f.context;
    }

    -- The profiles of each task add what is not negative.
    abbrev Adding : List (TaskContract F) → Type 0
    Adding ts = All (λ t. All (λ p. Adds p) t.profiles) ts

    Joint-Fits :
        {ts : List (TaskContract F)} {u w : Usage F}
        → Adding ts
        → Joint N time deadline ts u w
        → Fits N remaining w
        → Fits N remaining u
    Joint-Fits adds (Joint.stop u) f = f
    Joint-Fits adds (Joint.go t ts u w p a j) f =
        before_Fits u p (All-Listed (λ q. Adds q) p t.profiles a.listed adds.0)
          (Joint-Fits adds.1 j f)

    Joint-chance :
        {ts : List (TaskContract F)} {u w : Usage F}
        → Adding ts
        → Joint N time deadline ts u w
        → HasChance N laws u
        → HasChance N laws w
    Joint-chance adds (Joint.stop u) h = h
    Joint-chance adds (Joint.go t ts u w p a j) h = Joint-chance adds.1 j (
        used_with-HasChance N laws u p
          (All-Listed (λ q. Adds q) p t.profiles a.listed adds.0).chance h)

    in_time_any :
        (t : TaskContract F) (p : BackendProfile F) (test : BackendProfile F → Bool)
        → Admissible N time deadline t p
        → test p ≡ true
        → any_of test (in_time N time deadline t) ≡ true
    unfolding in_time qualified
    in_time_any t p test a h = any-filter test _ _ (
        any-filter _ _ t.profiles (
          any-Listed
            (λ q.
              (test q && int_leb (time +ℤ q.duration_ms_p95) (own_deadline t.deadline_ms deadline))
              && F.at_least q.quality t.min_quality)
            p t.profiles a.listed (all_true _ _ _ h a.on_time a.good)))
      where
        all_true : (a b c : Bool) → a ≡ true → b ≡ true → c ≡ true → ((a && b) && c) ≡ true
        all_true a b c h k l = ground (arith, h, k, l)

    abbrev held : Usage F → Bool
    held v =
        int_leb v.tokens remaining.tokens
        && int_leb v.cost remaining.cost
        && int_leb v.context remaining.context

    candidates_cover :
        (t : TaskContract F) (p : BackendProfile F) (u : Usage F) (frontier : List (Usage F))
        → Admissible N time deadline t p
        → F.in_unit p.failure_probability ≡ true
        → All (HasChance N laws) frontier
        → HasChance N laws u
        → Fits N remaining (used_with N u p)
        → any_of (λ v. dominates v u) frontier ≡ true
        → any_of
            (λ v. dominates v (used_with N u p))
            (candidates N remaining (in_time N time deadline t) frontier)
          ≡ true
    unfolding candidates
    candidates_cover t p u frontier a unit units one_unit fits h =
        any-filter (λ v. dominates v (used_with N u p)) held
          (concat_map (λ v. map (used_with N v) (in_time N time deadline t)) frontier)
          (any-concat (λ x. dominates x (used_with N u p) && held x)
            (λ v. map (used_with N v) (in_time N time deadline t)) frontier
            (any-le_where (HasChance N laws) (λ v. dominates v u)
              (λ v.
                any_of (λ x. dominates x (used_with N u p) && held x)
                  (map (used_with N v) (in_time N time deadline t)))
              (λ v l k.
                any-map (λ x. dominates x (used_with N u p) && held x) (used_with N v)
                  (in_time N time deadline t)
                ∙ in_time_any t p
                    (λ q. dominates (used_with N v q) (used_with N u p) && held (used_with N v q)) a
                    (both (used_with N v p) (used_with-dominates N laws v u p unit l one_unit k)))
              frontier units h))
      where
        both :
            (x : Usage F)
            → dominates x (used_with N u p) ≡ true
            → (dominates x (used_with N u p) && held x) ≡ true
        both x k = ground (
          arith,
          k,
          fits.tokens,
          fits.cost,
          fits.context,
          int_leb_trans x.tokens (used_with N u p).tokens remaining.tokens,
          int_leb_trans x.cost (used_with N u p).cost remaining.cost,
          int_leb_trans x.context (used_with N u p).context remaining.context,
        )

    candidates-HasChance :
        (t : TaskContract F) (frontier : List (Usage F))
        → All (λ p. Adds p) t.profiles
        → All (HasChance N laws) frontier
        → All (HasChance N laws) (candidates N remaining (in_time N time deadline t) frontier)
    unfolding candidates in_time qualified
    candidates-HasChance t frontier adds units =
        let able = filter_only (λ p. Adds p) _ _ (filter_only (λ p. Adds p) _ t.profiles adds) in
        filter_only (HasChance N laws) _ _ (
          concat-All (HasChance N laws) _ frontier (
            All-map
              (λ u l.
                map-All (used_with N u) _ (in_time N time deadline t)
                  (All-map (λ p a. used_with-HasChance N laws u p a.chance l) _ able))
              frontier units))

    pareto_minimal-HasChance :
        (states : List (Usage F))
        → All (HasChance N laws) states
        → All (HasChance N laws) (pareto_minimal states)
    unfolding pareto_minimal
    pareto_minimal-HasChance states units =
        keep_minimal-All N (HasChance N laws) _ [] (sort-All _ (HasChance N laws) states units) tt

    fits_all_complete :
        (ts : List (TaskContract F)) (frontier : List (Usage F)) (u w : Usage F)
        → Adding ts
        → All (HasChance N laws) frontier
        → HasChance N laws u
        → any_of (λ v. dominates v u) frontier ≡ true
        → Joint N time deadline ts u w
        → Fits N remaining w
        → F.at_least w.chance remaining.chance ≡ true
        → fits_all N time deadline remaining ts frontier ≡ true
    unfolding fits_all
    fits_all_complete [] frontier u _ adds units unit h (Joint.stop u') fits enough =
        any-le (λ v. dominates v u) (λ v. F.at_least v.chance remaining.chance)
          (λ v k.
            laws.at_least_trans v.chance u.chance remaining.chance
              (fourth (int_leb v.tokens u.tokens) (int_leb v.cost u.cost)
                (int_leb v.context u.context) (F.at_least v.chance u.chance) k)
              enough)
          frontier h
    fits_all_complete (t ∷ ts) frontier u w adds units unit h (Joint.go t' ts' u' w' p a j) fits
          enough =
        let adding = All-Listed (λ q. Adds q) p t.profiles a.listed adds.0 in
        let covered =
          candidates_cover t p u frontier a adding.chance units unit (Joint-Fits adds.1 j fits) h in
        let states = candidates N remaining (in_time N time deadline t) frontier in
        rw
          (
            nonempty (λ q. true) (in_time N time deadline t) (in_time_any t p (λ q. true) a refl),
            nonempty (λ v. dominates v (used_with N u p)) states covered,
          )
          (fits_all_complete ts (pareto_minimal states) (used_with N u p) w adds.1
            (pareto_minimal-HasChance states (candidates-HasChance t frontier adds.0 units))
            (used_with-HasChance N laws u p adding.chance unit)
            (pareto_minimal_covers N laws (used_with N u p) states covered) j fits enough)

    none_missing :
        Fits N remaining (unused N)
        → any_of is_negative (remaining.tokens ∷ remaining.cost ∷ remaining.context ∷ []) ≡ false
    none_missing f =
        rw
          (
            at_least_zero remaining.tokens f.tokens,
            at_least_zero remaining.cost f.cost,
            at_least_zero remaining.context f.context,
          )
          refl

    future_plan_fits_complete :
        (tasks : List (TaskContract F))
        → Adding tasks
        → Planned N time deadline tasks remaining
        → future_plan_fits N tasks remaining time deadline ≡ true
    unfolding future_plan_fits
    future_plan_fits_complete tasks adds plan =
        let by_name = λ (a b : TaskContract F). text_less a.task_id b.task_id in
        let sorted_adds = sort-All by_name (λ t. All (λ p. Adds p) t.profiles) tasks adds in
        rw
          (
            none_missing (Joint-Fits sorted_adds plan.joint plan.fits),
            laws.at_least-less N.one remaining.chance (
                laws.at_least_trans N.one plan.used.chance remaining.chance
                  (laws.at_least_one plan.used.chance
                    (Joint-chance sorted_adds plan.joint laws.in_unit_one))
                  plan.chance),
          )
          (fits_all_complete (sort_by by_name tasks) (unused N ∷ []) (unused N) plan.used
            sorted_adds (laws.in_unit_one, tt) laws.in_unit_one
            (ap (λ b. b || false) (dominates_refl N laws (unused N) laws.in_unit_one)) plan.joint
            plan.fits plan.chance)

  -- `_future_plan_fits` answers exactly whether there is a joint plan for the tasks: an admissible
  -- profile for each task, in the order of their names, such that together they use no more than
  -- the tokens, the cost and the context that remain, and have at least the chance of success that
  -- is required. The profiles are assumed to have no errors, so that their chances of failure are
  -- from zero to one. The float arithmetic is assumed to have the laws of `FloatLaws`: the order
  -- is transitive and agrees with the strict one, and on the numbers from zero to one it is
  -- reflexive, one is the greatest, and products with what is left to one stay there and keep the
  -- order.
  pub future_plan_fits-exact :
      (tasks : List (TaskContract F)) (remaining : Usage F) (time deadline : ℤ)
      → All (λ t. All (λ p. profile_errors p ≡ []) t.profiles) tasks
      → (future_plan_fits N tasks remaining time deadline ≡ true)
        ↔ Planned N time deadline tasks remaining
  future_plan_fits-exact tasks remaining time deadline valid = (
    future_plan_fits-Planned N time deadline tasks remaining,
    future_plan_fits_complete time deadline remaining tasks
        (All-map (λ t h. All-map faultless-Adds t.profiles h) tasks valid),
  )
