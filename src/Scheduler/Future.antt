-- ===== src/Scheduler/Future.antt =====
-- What `_future_plan_fits` answers, and with it `_choose_profile`.
use mathlib.Core.List.{Memᴰ, append_assoc, append-nil}
use finite_agent_physics.Prelude.{
  ◌≡◌, refl, subst, ℤ, is_negative, int_leb, ◌+ℤ◌, ◌-ℤ◌, Bool, true, false, ◌&&◌, ◌||◌, some, List,
  [], ◌∷◌, ◌++◌, any_of, concat_map, filter_by, if◌then◌else◌, All, All-map, map-All, filter-All,
  sort_by, sort-All, min-All, text_less, Bool-cases, inl, inr, arith,
}
use finite_agent_physics.Contracts.Profiles.{Floats, BackendProfile}
use finite_agent_physics.Contracts.Tasks.{TaskContract, is_nil}
use finite_agent_physics.Contracts.Envelopes.{RunEnvelope}
use finite_agent_physics.Scheduler.Choices.{
  FloatArithmetic, Usage, total_tokens, own_deadline, qualified, dominates, keep_minimal,
  pareto_minimal, within_budgets, used_with, unused, in_time, candidates, fits_all, left_after,
  future_plan_fits, is_feasible, choose_profile,
}

All-append : {A : Type 0} (P : A → Type 0) (xs ys : List A) → All P xs → All P ys → All P (xs ++ ys)
All-append P [] ys h k = k
All-append P (x ∷ xs) ys h k = (h.0, All-append P xs ys h.1 k)

pub concat-All :
    {A B : Type 0} (P : B → Type 0) (f : A → List B) (xs : List A)
    → All (λ x. All P (f x)) xs
    → All P (concat_map f xs)
concat-All P f [] h = tt
concat-All P f (x ∷ xs) h = All-append P (f x) (concat_map f xs) h.0 (concat-All P f xs h.1)

pub filter_only :
    {A : Type 0} (P : A → Type 0) (test : A → Bool) (xs : List A)
    → All P xs
    → All P (filter_by test xs)
filter_only P test xs h = All-map (λ x q. q.0) _ (filter-All P test xs h)

Mem-All : {A : Type 0} (xs : List A) → All (λ x. Memᴰ x xs) xs
Mem-All [] = tt
Mem-All (x ∷ xs) = (Memᴰ.head refl, All-map (λ y h. Memᴰ.tail h) xs (Mem-All xs))

-- What holds of every item holds of one that passes the test.
found :
    {A : Type 0} (P : A → Type 0) (test : A → Bool) (xs : List A)
    → All P xs
    → any_of test xs ≡ true
    → (x : A) × P x × (test x ≡ true)
found P test [] h e = cc
found P test (x ∷ xs) h e = elim (Bool-cases (test x)) [
  | inl q ↦ (x, h.0, q)
  | inr q ↦ found P test xs h.1 (rw q at e)
]

last : (a b c : Bool) → (if a then false else if b then false else c) ≡ true → c ≡ true
last a b c h = ground (arith, h)

otherwise : (a c : Bool) → (if a then false else c) ≡ true → c ≡ true
otherwise a c h = ground (arith, h)

three_false :
    (a b c : Bool) → (a || (b || (c || false))) ≡ false → (a ≡ false) × (b ≡ false) × (c ≡ false)
three_false a b c h = ground (arith, h)

three_true : (a b c : Bool) → (a && b && c) ≡ true → (a ≡ true) × (b ≡ true) × (c ≡ true)
three_true a b c h = ground (arith, h)

module _ {F : Floats} (N : FloatArithmetic F) where
  -- A profile of the task that has its quality and ends by its deadline, from the time.
  pub record Admissible (time deadline : ℤ) (t : TaskContract F) (p : BackendProfile F)
      : Type 0 where
    pub listed : Memᴰ p t.profiles
    pub good : F.at_least p.quality t.min_quality ≡ true
    pub on_time : int_leb (time +ℤ p.duration_ms_p95) (own_deadline t.deadline_ms deadline) ≡ true

  -- A joint plan from one usage to another: for each of the tasks, in their order, an admissible
  -- profile, whose use is added.
  pub data Joint (time deadline : ℤ) : List (TaskContract F) → Usage F → Usage F → Type 0 where
    stop : (u : Usage F) → Joint time deadline [] u u
    go :
        (t : TaskContract F) (ts : List (TaskContract F)) (u v : Usage F) (p : BackendProfile F)
        → Admissible time deadline t p
        → Joint time deadline ts (used_with N u p) v
        → Joint time deadline (t ∷ ts) u v

  Joint-further :
      {time deadline : ℤ} {ts : List (TaskContract F)} {u v : Usage F} (t : TaskContract F)
      (p : BackendProfile F)
      → Joint time deadline ts u v
      → Admissible time deadline t p
      → Joint time deadline (ts ++ t ∷ []) u (used_with N v p)
  Joint-further t p (Joint.stop u) a = Joint.go t [] u (used_with N u p) p a (Joint.stop _)
  Joint-further t p (Joint.go t' ts u v p' a' j) a =
      Joint.go t' (ts ++ t ∷ []) u (used_with N v p) p' a' (Joint-further t p j a)

  -- No more of each resource is used than remains.
  pub record Fits (remaining u : Usage F) : Type 0 where
    pub tokens : int_leb u.tokens remaining.tokens ≡ true
    pub cost : int_leb u.cost remaining.cost ≡ true
    pub context : int_leb u.context remaining.context ≡ true

  pub keep_minimal-All :
      (P : Usage F → Type 0) (us frontier : List (Usage F))
      → All P us
      → All P frontier
      → All P (keep_minimal us frontier)
  unfolding keep_minimal
  keep_minimal-All P [] frontier h k = k
  keep_minimal-All P (u ∷ us) frontier h k =
      elim (Bool-cases (any_of (λ v. dominates v u) frontier)) [
        | inl e ↦ rw e (keep_minimal-All P us frontier h.1 k)
        | inr e ↦
            rw e (
              keep_minimal-All P us _ h.1 (h.0, All-map (λ v q. q.0) _ (filter-All P _ frontier k)))
      ]

  qualified-Listed :
      (t : TaskContract F)
      → All (λ p. Memᴰ p t.profiles × (F.at_least p.quality t.min_quality ≡ true)) (qualified t)
  unfolding qualified
  qualified-Listed t = filter-All (λ p. Memᴰ p t.profiles) _ t.profiles (Mem-All t.profiles)

  module _ (time deadline : ℤ) where
    in_time-Admissible :
        (t : TaskContract F) → All (Admissible time deadline t) (in_time N time deadline t)
    unfolding in_time
    in_time-Admissible t =
        All-map (λ p h. record { listed = h.0.0; good = h.0.1; on_time = h.1 }) _
          (filter-All _ _ (qualified t) (qualified-Listed t))

    -- A state of the frontier, after the tasks.
    abbrev Sound : Usage F → List (TaskContract F) → Usage F → Type 0
    Sound remaining ts u = Joint time deadline ts (unused N) u × Fits remaining u

    candidates-Sound :
        (remaining : Usage F) (ts : List (TaskContract F)) (t : TaskContract F)
        (frontier : List (Usage F))
        → All (Sound remaining ts) frontier
        → All
            (Sound remaining (ts ++ t ∷ []))
            (candidates N remaining (in_time N time deadline t) frontier)
    unfolding candidates
    candidates-Sound remaining ts t frontier h =
        All-map (λ u q. (q.0, fits u q.1)) _
          (filter-All (Joint time deadline (ts ++ t ∷ []) (unused N)) _ _ (
            concat-All _ _ frontier (
              All-map
                (λ u q.
                  map-All (used_with N u) _ (in_time N time deadline t)
                    (All-map (λ p a. Joint-further t p q.0 a) _ (in_time-Admissible t)))
                frontier h)))
      where
        fits :
            (u : Usage F)
            → (int_leb u.tokens remaining.tokens
                && int_leb u.cost remaining.cost
                && int_leb u.context remaining.context)
              ≡ true
            → Fits remaining u
        fits u e = ground (arith, e)

    fits_all-Sound :
        (remaining : Usage F) (before ts : List (TaskContract F)) (frontier : List (Usage F))
        → All (Sound remaining before) frontier
        → fits_all N time deadline remaining ts frontier ≡ true
        → (u : Usage F) × Joint time deadline (before ++ ts) (unused N) u
          × Fits remaining u
          × (F.at_least u.chance remaining.chance ≡ true)
    unfolding fits_all pareto_minimal
    fits_all-Sound remaining before [] frontier h e =
        rw (append-nil before)
          (let (u, s, c) = found (Sound remaining before) _ frontier h e in (u, s.0, s.1, c))
    fits_all-Sound remaining before (t ∷ ts) frontier h e =
        let states = candidates N remaining (in_time N time deadline t) frontier in
        subst
          (λ all.
            (u : Usage F) × Joint time deadline all (unused N) u
            × Fits remaining u
            × (F.at_least u.chance remaining.chance ≡ true))
          (append_assoc before (t ∷ []) ts)
          (fits_all-Sound remaining (before ++ t ∷ []) ts (pareto_minimal states)
            (keep_minimal-All (Sound remaining (before ++ t ∷ [])) _ []
              (sort-All _ (Sound remaining (before ++ t ∷ [])) states
                (candidates-Sound remaining before t frontier h))
              tt)
            (last (is_nil (in_time N time deadline t)) (is_nil states) _ e))

    none_negative : (v : ℤ) → is_negative v ≡ false → int_leb (ℤ.pos 0) v ≡ true
    none_negative (ℤ.pos v) h = ground arith
    none_negative (ℤ.negsuc v) h = cc

    unused-Fits :
        (remaining : Usage F)
        → any_of is_negative (remaining.tokens ∷ remaining.cost ∷ remaining.context ∷ []) ≡ false
        → Fits remaining (unused N)
    unused-Fits remaining h =
        let (tokens, cost, context) = three_false _ _ _ h in
        record {
          tokens = none_negative remaining.tokens tokens;
          cost = none_negative remaining.cost cost;
          context = none_negative remaining.context context;
        }

    -- A joint plan for the tasks, in the order of their names, that fits what remains and has the
    -- chance of success that is required.
    pub record Planned (tasks : List (TaskContract F)) (remaining : Usage F) : Type 0 where
      pub used : Usage F
      pub joint :
          Joint time deadline (sort_by (λ a b. text_less a.task_id b.task_id) tasks) (unused N) used
      pub fits : Fits remaining used
      pub chance : F.at_least used.chance remaining.chance ≡ true

    -- Where `_future_plan_fits` answers that the tasks fit, there is a joint plan that fits.
    pub future_plan_fits-Planned :
        (tasks : List (TaskContract F)) (remaining : Usage F)
        → future_plan_fits N tasks remaining time deadline ≡ true
        → Planned tasks remaining
    unfolding future_plan_fits
    future_plan_fits-Planned tasks remaining e =
        elim (Bool-cases
          (any_of is_negative (remaining.tokens ∷ remaining.cost ∷ remaining.context ∷ []))) [
            | inl q ↦ cc (rw q at e)
            | inr q ↦
                let (u, joint, fits, chance) =
                  fits_all-Sound remaining [] _ (unused N ∷ [])
                    ((Joint.stop (unused N), unused-Fits remaining q), tt)
                    (otherwise (F.less N.one remaining.chance) _ (rw q at e)) in
                record { used = u; joint = joint; fits = fits; chance = chance }
          ]

  module _ (t : TaskContract F) (e : RunEnvelope F) (time downstream : ℤ) (used : Usage F)
      (left : List (TaskContract F)) where
    -- What is promised of the profile that is chosen for the task.
    pub record Chosen (p : BackendProfile F) : Type 0 where
      pub admissible : Admissible time e.deadline_ms t p
      pub token_budget : int_leb (used.tokens +ℤ total_tokens p) e.max_tokens ≡ true
      pub cost_budget : int_leb (used.cost +ℤ p.cost_microusd) e.max_cost_microusd ≡ true
      pub context_budget : int_leb (used.context +ℤ p.context_bytes) e.max_context_bytes ≡ true
      pub in_slack : int_leb p.duration_ms_p95 ((e.deadline_ms -ℤ time) -ℤ downstream) ≡ true
      pub future : Planned time e.deadline_ms left (left_after N e used p)

    feasible-Chosen :
        (p : BackendProfile F)
        → Memᴰ p t.profiles
        → F.at_least p.quality t.min_quality ≡ true
        → is_feasible N t e time used left p ≡ true
        → int_leb p.duration_ms_p95 ((e.deadline_ms -ℤ time) -ℤ downstream) ≡ true
        → Chosen p
    unfolding is_feasible
    feasible-Chosen p listed good h slack =
        let (within, on_time, future) =
          three_true (within_budgets e (used_with N used p))
            (int_leb (time +ℤ p.duration_ms_p95) (own_deadline t.deadline_ms e.deadline_ms))
            (future_plan_fits N left (left_after N e used p) time e.deadline_ms) h in
        let (tokens, cost, context) = three_true _ _ _ within in
        record {
          admissible = record { listed = listed; good = good; on_time = on_time };
          token_budget = tokens;
          cost_budget = cost;
          context_budget = context;
          in_slack = slack;
          future = future_plan_fits-Planned time e.deadline_ms left (left_after N e used p) future;
        }

    -- A profile that `_choose_profile` returns is one of the task's, with its quality; it ends by the
    -- task's deadline and leaves the time that the work downstream takes; it is within the budgets
    -- together with what is used; and of what is left then there is a joint plan for the protected
    -- tasks that remain: for each an admissible profile, which together use no more than what is left
    -- and have the chance of success that is still required.
    pub choose_profile-Chosen :
        (p : BackendProfile F) → choose_profile N t e time downstream used left ≡ some p → Chosen p
    unfolding choose_profile
    choose_profile-Chosen p h =
        min-All _ Chosen _
          (All-map (λ q k. feasible-Chosen q k.0.0.0 k.0.0.1 k.0.1 k.1) _
            (filter-All _ _ _
              (filter-All _ (is_feasible N t e time used left) _ (qualified-Listed t))))
          h
