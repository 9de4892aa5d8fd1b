-- ===== src/Scheduler/Passes.antt =====
-- Each pass of the loop keeps the plan and makes it lighter, so that the loop ends.
use finite_agent_physics.Prelude.{
  ℕ, zero, suc, ◌+◌, ◌*◌, ◌≤◌, ◌<◌, ◌≡◌, refl, sym, ap, ◌∙◌, subst, ltb, int_leb, int_ltb,
  int_ltb-leb, String, Bool, true, false, not, ◌&&◌, List, [], ◌∷◌, ◌++◌, any_of, elem, elem-append,
  length, eq_iff, if◌then◌else◌, sorted, Result, ok, All, All-map, All-always, filter_by,
  filter-All, sort_by, sort-All, number, number-le, number-sort, number-filter-le, number_left_out,
  one_if, Bool-cases, inl, inr, arith,
}
use finite_agent_physics.Prelude.Results.{◌>>=◌}
use finite_agent_physics.Contracts.Profiles.{Floats}
use finite_agent_physics.Contracts.Tasks.{TaskContract, is_nil}
use finite_agent_physics.Scheduler.Choices.{FloatArithmetic}
use finite_agent_physics.Scheduler.Plans.{
  ScheduleFault, FailureReason, Running, Plan, Setting, emit, in_order, result_of,
}
use finite_agent_physics.Scheduler.Ranks.{entry_lower_bound}
use finite_agent_physics.Scheduler.Invariant.{IsKept}
use finite_agent_physics.Scheduler.Ended.{
  Leads, raised-Leads, map-Leads, bind-Leads, Leaves, advanced-Leaves,
}
use finite_agent_physics.Scheduler.Refused.{Trims-refl, trimmed-IsBounded, refuse-Leads}
use finite_agent_physics.Scheduler.Waiting.{is_new, is_named, weight, skipped_one_less}
use finite_agent_physics.Scheduler.Dispatched.{
  Apart, Gives, Sorts, Good, IsListed, Runs, dispatch_all-Leads, sort_ready-Gives,
}
use finite_agent_physics.Scheduler.Fuel.{entry_lower_bound-Fueled, sort_ready-Fueled}
use finite_agent_physics.Scheduler.Dispatch.{
  is_fresh, skip, skip_blocked, refuse, both, sort_ready, dispatch_all, by_name,
}
use finite_agent_physics.Scheduler.Loop.{
  advance, blocked_tasks, ready_tasks, work, pass, finish, plan_all,
}

Gives_ok :
    {A : Type 0} (P : A → Type 0) (m : Result ScheduleFault A) (a : A) → Gives P m → m ≡ ok a → P a
Gives_ok P m a g e = subst (Gives P) e g

number_of_all : {A : Type 0} (ts : List A) → is_nil ts ≡ false → 1 ≤ number (λ t. true) ts
unfolding number
number_of_all [] h = cc
number_of_all (t ∷ ts) h = omega arith

is_fresh_parts : (a b : Bool) → (not a && not b) ≡ true → (a ≡ false) × (b ≡ false)
is_fresh_parts a b h = ground (arith, h)

module _ {F : Floats} (N : FloatArithmetic F) (c : Setting F) (listed : All (IsListed N c) c.tasks)
    (distinct : (x : String) → number (is_named x) c.tasks ≤ 1) where
  -- In time: the clock has not passed the deadline.
  abbrev pub IsTimely : Plan F → Type 0
  IsTimely s = int_leb s.time_ms c.envelope.deadline_ms ≡ true

  abbrev pub Passes : ℕ → Plan F → Type 0
  Passes n s = IsKept c.policy c.envelope s × IsTimely s × (weight c.tasks s < n)

  skipped_first :
      (t : TaskContract F) (ts : List (TaskContract F)) (s : Plan F) (n : ℕ)
      → IsKept c.policy c.envelope s
      → IsTimely s
      → 2 * number (is_new s.started (s.skipped ++ t.task_id ∷ [])) c.tasks + length s.running < n
      → ((s' : Plan F) → Passes n s' → Leads (Passes n) (Good N c) (skip_blocked N c ts s'))
      → Leads (Passes n) (Good N c) (skip_blocked N c (t ∷ ts) s)
  unfolding skip_blocked skip emit
  skipped_first t ts s n k timely light rest = elim (Bool-cases t.optional) [
    | inl e ↦ rw e (rest _ (k, timely, light))
    | inr e ↦ rw e (
        bind-Leads (Good N c) (Passes n) (Passes n)
          (refuse N c
            (FailureReason.depends_on_skipped t.task_id
              (sorted (both N c t.dependencies s.skipped)))
            s)
          _
          (refuse-Leads N c (Good N c) (Passes n)
            (FailureReason.depends_on_skipped t.task_id
              (sorted (both N c t.dependencies s.skipped)))
            s k (λ r fails h. (h, inl fails)))
          rest)
  ]

  skip_blocked-Leads :
      (ts : List (TaskContract F)) (s : Plan F) (n : ℕ)
      → Passes n s
      → Leads (Passes n) (Good N c) (skip_blocked N c ts s)
  unfolding skip_blocked
  skip_blocked-Leads [] s n p = p
  skip_blocked-Leads (t ∷ ts) s n p =
      skipped_first t ts s n p.0 p.1 (omega (arith, p.2, fewer))
        (λ s' q. skip_blocked-Leads ts s' n q)
    where
      fewer :
          number (is_new s.started (s.skipped ++ t.task_id ∷ [])) c.tasks
          ≤ number (is_new s.started s.skipped) c.tasks
      fewer =
          number-le (is_new s.started (s.skipped ++ t.task_id ∷ [])) (is_new s.started s.skipped)
            c.tasks
            (All-always (λ u h. ground (arith, h, elem-append u.task_id s.skipped (t.task_id ∷ [])))
              c.tasks)

  IsFresh : Plan F → TaskContract F → Type 0
  IsFresh s t = IsListed N c t × (is_fresh N c s t ≡ true)

  -- The tasks that are blocked are skipped, at least one.
  blocked-Leads :
      (ts : List (TaskContract F)) (s : Plan F)
      → IsKept c.policy c.envelope s
      → IsTimely s
      → All (IsFresh s) ts
      → 1 ≤ number (λ t. true) ts
      → Leads (Passes (weight c.tasks s)) (Good N c) (skip_blocked N c ts s)
  unfolding number IsFresh
  blocked-Leads [] s k timely fresh some_of = absurd (omega (arith, some_of))
  blocked-Leads (t ∷ ts) s k timely fresh some_of =
      let (new, unskipped) =
        is_fresh_parts (elem t.task_id s.started) (elem t.task_id s.skipped) fresh.0.1 in
      skipped_first t ts s (weight c.tasks s) k timely
        (omega (
          arith,
          fresh.0.0.0,
          skipped_one_less c.tasks t.task_id s.started s.skipped new unskipped,
        ))
        (λ s' q. skip_blocked-Leads ts s' (weight c.tasks s) q)

  -- The tasks that are ready are neither started nor skipped, and apart by their names.
  ready-Apart :
      (s : Plan F) (test : TaskContract F → Bool) (names : List String)
      (ready : List (TaskContract F))
      → ((f : TaskContract F → Bool) → number f ready ≡ number f (filter_by test c.tasks))
      → ((t : TaskContract F) → elem t.task_id names ≡ true → test t ≡ false)
      → Apart names ready
  ready-Apart s test names ready sorts out x = elim (Bool-cases (elem x names)) [
    | inr e ↦ omega (
      arith,
      sorts (is_named x),
      number-filter-le (is_named x) test c.tasks,
      distinct x,
      ap one_if e,
    )
    | inl e ↦ omega (
      arith,
      sorts (is_named x),
      number_left_out (is_named x) test
          (λ t h. out t (ap (λ y. elem y names) (sym ((eq_iff x t.task_id).0 h)) ∙ e)) c.tasks,
      ap one_if e,
    )
  ]

  advance-Leads :
      (s : Plan F) (n : ℕ)
      → IsKept c.policy c.envelope s
      → weight c.tasks s + one_if s.dispatched ≤ n
      → Leads
          (λ s'. IsKept c.policy c.envelope s' × (weight c.tasks s' < n))
          (Good N c)
          (advance N c s.running s)
  unfolding advance
  advance-Leads s n k light = from s.running refl
    where
      idle :
          (b : Bool)
          → s.dispatched ≡ b
          → Leads
              (λ s'. IsKept c.policy c.envelope s' × (weight c.tasks s' < n))
              (Good N c)
              (if b then ok s else refuse N c FailureReason.deadlock s)
      idle true d = (k, omega (arith, light, ap one_if d))
      idle false d =
          refuse-Leads N c (Good N c)
            (λ s'. IsKept c.policy c.envelope s' × (weight c.tasks s' < n)) FailureReason.deadlock s
            k (λ r fails h. (h, inl fails))

      from :
          (rs : List (Running F))
          → s.running ≡ rs
          → Leads
              (λ s'. IsKept c.policy c.envelope s' × (weight c.tasks s' < n))
              (Good N c)
              (advance N c rs s)
      from [] e = idle s.dispatched refl
      from (r ∷ rs) e =
          map-Leads (Good N c) (Leaves c (length rs) s) _ _
            (λ s' l. (
              l.0,
              omega (
                arith,
                l.1,
                light,
                ap length e,
                ap (λ x. number (is_new x s'.skipped) c.tasks) l.2.0,
                ap (λ x. number (is_new s.started x) c.tasks) l.2.1,
              ),
            ))
            (advanced-Leaves c N (Good N c) r rs s e k)

  work-Leads :
      (s : Plan F)
      → IsKept c.policy c.envelope s
      → Leads (Passes (weight c.tasks s)) (Good N c) (work N c s)
  unfolding work
  work-Leads s k =
      let test = λ (t : TaskContract F).
        is_fresh N c s t && not (any_of (λ d. not (elem d s.completed)) t.dependencies) in
      raised-Leads (Good N c) (Passes (weight c.tasks s))
        (sort_ready N c c.policy s.time_ms (ready_tasks N c s)) _
        (sort_ready-Fueled N c c.policy s.time_ms (ready_tasks N c s))
        (λ ready e.
          let (all_listed, sorts) =
            Gives_ok (Sorts N c (IsListed N c) (ready_tasks N c s))
              (sort_ready N c c.policy s.time_ms (ready_tasks N c s)) ready
              (sort_ready-Gives N c c.policy s.time_ms (IsListed N c) (ready_tasks N c s) (
                All-map (λ t h. h.0) (ready_tasks N c s)
                  (filter-All (IsListed N c) test c.tasks listed)))
              e in
          bind-Leads (Good N c) (Runs N c (record s { dispatched = false }))
            (Passes (weight c.tasks s)) (dispatch_all N c ready (record s { dispatched = false })) _
            (dispatch_all-Leads N c ready (record s { dispatched = false }) k all_listed
              (ready-Apart s test s.started ready sorts (λ t h. out_started _ _ _ h))
              (ready-Apart s test s.skipped ready sorts (λ t h. out_skipped _ _ _ h)))
            (λ s' r.
              bind-Leads (Good N c)
                (λ s''. IsKept c.policy c.envelope s'' × (weight c.tasks s'' < weight c.tasks s))
                (Passes (weight c.tasks s)) (advance N c s'.running s') _
                (advance-Leads s' (weight c.tasks s) r.0 (omega (arith, r.1)))
                (λ s'' q. in_time s'' q.0 q.1)))
    where
      out_started : (a b d : Bool) → a ≡ true → ((not a && not b) && d) ≡ false
      out_started a b d h = ground (arith, h)

      out_skipped : (a b d : Bool) → b ≡ true → ((not a && not b) && d) ≡ false
      out_skipped a b d h = ground (arith, h)

      in_time :
          (s'' : Plan F)
          → IsKept c.policy c.envelope s''
          → weight c.tasks s'' < weight c.tasks s
          → Leads (Passes (weight c.tasks s)) (Good N c) (
              if int_ltb c.envelope.deadline_ms s''.time_ms
              then refuse N c FailureReason.deadline_exceeded s''
              else ok s'')
      in_time s'' kept light = elim (Bool-cases (int_ltb c.envelope.deadline_ms s''.time_ms)) [
        | inl late ↦ rw late (
            refuse-Leads N c (Good N c) (Passes (weight c.tasks s)) FailureReason.deadline_exceeded
              s'' kept (λ r fails h. (h, inl fails)))
        | inr timely ↦
            rw timely
              (kept, ground (arith, timely, int_ltb-leb c.envelope.deadline_ms s''.time_ms), light)
      ]

  pass-Leads :
      (s : Plan F)
      → IsKept c.policy c.envelope s
      → IsTimely s
      → Leads (Passes (weight c.tasks s)) (Good N c) (pass N c s)
  unfolding pass IsFresh
  pass-Leads s k timely = elim (Bool-cases (is_nil (blocked_tasks N c s))) [
    | inl e ↦ rw e (work-Leads s k)
    | inr e ↦ rw e (
        blocked-Leads (sort_by (by_name N c) (blocked_tasks N c s)) s k timely
          (sort-All (by_name N c) (IsFresh s) (blocked_tasks N c s) (
            All-map (λ t h. (h.0, first _ _ h.1)) (blocked_tasks N c s)
              (filter-All (IsListed N c)
                (λ t. is_fresh N c s t && any_of (λ d. elem d s.skipped) t.dependencies) c.tasks
                listed)))
          (omega (
            arith,
            number-sort (by_name N c) (λ t. true) (blocked_tasks N c s),
            number_of_all (blocked_tasks N c s) e,
          )))
  ]
    where
      first : (a b : Bool) → (a && b) ≡ true → a ≡ true
      first a b h = ground (arith, h)

  finish-Leads :
      (s : Plan F)
      → IsKept c.policy c.envelope s
      → IsTimely s
      → Leads (Good N c) (Good N c) (finish N c s)
  unfolding finish emit result_of
  finish-Leads s k timely =
      raised-Leads (Good N c) (Good N c) (entry_lower_bound c.tasks (in_order s.entries) c.envelope)
        _ (entry_lower_bound-Fueled c.tasks (in_order s.entries) c.envelope)
        (λ bound e. elim (Bool-cases (int_ltb s.time_ms bound)) [
          | inl over ↦ rw over (λ p. cc)
          | inr held ↦ rw held (
            trimmed-IsBounded c.policy c.envelope s s.entries k (Trims-refl s.entries),
            inr timely,
          )
        ])

  -- With fuel above the weight of the plan, the loop ends.
  pub plan_all-Leads :
      (n : ℕ) (s : Plan F)
      → IsKept c.policy c.envelope s
      → IsTimely s
      → weight c.tasks s < n
      → Leads (Good N c) (Good N c) (plan_all N c n s)
  unfolding plan_all
  plan_all-Leads zero s k timely fuel = absurd (omega (arith, fuel))
  plan_all-Leads (suc n) s k timely fuel =
      from (ltb (length s.completed + length s.skipped) (length c.known)) (
        bind-Leads (Good N c) (Passes (weight c.tasks s)) (Good N c) (pass N c s) (plan_all N c n)
          (pass-Leads s k timely) (λ s' p. plan_all-Leads n s' p.0 p.1 (omega (arith, p.2, fuel))))
    where
      from :
          (b : Bool)
          → Leads (Good N c) (Good N c) (pass N c s >>= plan_all N c n)
          → Leads
              (Good N c)
              (Good N c)
              (elim b [ true ↦ pass N c s >>= plan_all N c n | false ↦ finish N c s ])
      from true h = h
      from false h = finish-Leads s k timely
