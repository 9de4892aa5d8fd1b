-- ===== src/Scheduler/Dispatched.antt =====
-- The tasks that a pass dispatches keep to the limits and the budgets.
use mathlib.Core.Path.{ap₂}
use finite_agent_physics.Prelude.{
  ◌+◌, ◌≤◌, ◌≡◌, refl, sym, ap, ◌∙◌, subst, ℤ, ◌+ℤ◌, is_negative, int_leb, String, Bool, true,
  false, ◌&&◌, Option, none, some, List, [], ◌∷◌, map, elem, elem-append, length, lookup, =ˢ_refl,
  Result, ok, err, All, All-map, number, number-sort, number-map, number_all, map-All, All-of_map,
  filter-All, sort-All, min-All, one_if, Bool-cases, ◌⊎◌, inl, inr, arith,
}
use finite_agent_physics.Prelude.Results.{◌>>=◌}
use finite_agent_physics.Contracts.Profiles.{Floats, BackendProfile}
use finite_agent_physics.Contracts.Tasks.{TaskContract}
use finite_agent_physics.Contracts.Envelopes.{provider_limit}
use finite_agent_physics.Scheduler.Choices.{
  FloatArithmetic, Usage, used_with, within_budgets, qualified, own_deadline, left_after,
  future_plan_fits, is_feasible, choose_profile, effect_conflicts,
}
use finite_agent_physics.Scheduler.Plans.{
  SchedulePolicy, ScheduleFault, FailureReason, SkipReason, ScheduleResult, Plan, Setting, capacity,
  got, emit, push,
}
use finite_agent_physics.Scheduler.Ranks.{or_zero}
use finite_agent_physics.Scheduler.Invariant.{IsBounded, IsKept}
use finite_agent_physics.Scheduler.Started.{item, Guarded, start-IsKept}
use finite_agent_physics.Scheduler.Ended.{Leads, key-Fueled, raised-Leads, map-Leads, bind-Leads}
use finite_agent_physics.Scheduler.Entries.{number-push}
use finite_agent_physics.Scheduler.Waiting.{is_named, weight, started_one_less, skipped_one_less}
use finite_agent_physics.Scheduler.Refused.{refuse-Leads}
use finite_agent_physics.Scheduler.Dispatch.{
  Urgent, urgent_of, urgents_of, sort_ready, rank_of, start, skip, dispatch_with,
  remaining_protected, dispatch_task, dispatch_all,
}

-- What returns has the property.
abbrev pub Gives : {A : Type 0} → (A → Type 0) → Result ScheduleFault A → Type 0
Gives P (ok a) = P a
Gives P (err fault) = Unit

pub bind-Gives :
    {A B : Type 0} (Q : A → Type 0) (P : B → Type 0) (m : Result ScheduleFault A)
    (f : A → Result ScheduleFault B)
    → Gives Q m
    → ((a : A) → Q a → Gives P (f a))
    → Gives P (m >>= f)
bind-Gives Q P (ok a) f q h = h a q
bind-Gives Q P (err fault) f q h = tt

pub always-Gives : {A : Type 0} (m : Result ScheduleFault A) → Gives (λ a. Unit) m
always-Gives (ok a) = tt
always-Gives (err fault) = tt

-- The profile's duration is not negative.
abbrev pub IsLasting : {F : Floats} → BackendProfile F → Type 0
IsLasting p = is_negative p.duration_ms_p95 ≡ false

-- No name is twice among the tasks and the names.
abbrev pub Apart : {F : Floats} → List String → List (TaskContract F) → Type 0
Apart names ts = (x : String) → number (is_named x) ts + one_if (elem x names) ≤ 1

module _ {F : Floats} (N : FloatArithmetic F) (c : Setting F) where
  -- The profile that is chosen is one of the task's, and is within the budgets.
  chosen_fits :
      (t : TaskContract F) (time downstream : ℤ) (used : Usage F) (left : List (TaskContract F))
      (p : BackendProfile F)
      → All IsLasting t.profiles
      → choose_profile N t c.envelope time downstream used left ≡ some p
      → IsLasting p × (within_budgets c.envelope (used_with N used p) ≡ true)
  unfolding choose_profile qualified is_feasible
  chosen_fits t time downstream used left p lasting e =
      min-All _ (λ q. IsLasting q × (within_budgets c.envelope (used_with N used q) ≡ true)) _
        (All-map (λ q h. (h.0.0.0, affordable q h.0.1)) _
          (filter-All _ _ _ (
            filter-All _ (is_feasible N t c.envelope time used left) _
              (filter-All IsLasting _ t.profiles lasting))))
        e
    where
      first : (a b d : Bool) → (a && b && d) ≡ true → a ≡ true
      first a b d h = ground (arith, h)

      affordable :
          (q : BackendProfile F)
          → is_feasible N t c.envelope time used left q ≡ true
          → within_budgets c.envelope (used_with N used q) ≡ true
      affordable q h =
          first (within_budgets c.envelope (used_with N used q))
            (int_leb (time +ℤ q.duration_ms_p95)
              (own_deadline t.deadline_ms c.envelope.deadline_ms))
            (future_plan_fits N left (left_after N c.envelope used q) time c.envelope.deadline_ms) h

  -- The result is bounded, and a run that succeeds ends by the deadline.
  abbrev pub Good : ScheduleResult F → Type 0
  Good r =
      IsBounded c.policy c.envelope r.total r.entries
      × ((r.success ≡ false) ⊎ (int_leb r.makespan_ms c.envelope.deadline_ms ≡ true))

  -- The task is among those of the setting, with profiles that last.
  abbrev pub IsListed : TaskContract F → Type 0
  IsListed t = (1 ≤ number (is_named t.task_id) c.tasks) × All IsLasting t.profiles

  -- What is dispatched makes the plan lighter.
  abbrev Lighter : Plan F → Plan F → Type 0
  Lighter s s' = weight c.tasks s' + one_if s'.dispatched ≤ weight c.tasks s + one_if s.dispatched

  -- At most the task is started or skipped.
  record Starts (t : TaskContract F) (s s' : Plan F) : Type 0 where
    kept : IsKept c.policy c.envelope s'
    started :
        (x : String)
        → one_if (elem x s'.started) ≤ one_if (elem x s.started) + one_if (is_named x t)
    skipped :
        (x : String)
        → one_if (elem x s'.skipped) ≤ one_if (elem x s.skipped) + one_if (is_named x t)
    lighter : Lighter s s'

  unchanged : (t : TaskContract F) (s : Plan F) → IsKept c.policy c.envelope s → Starts t s s
  unchanged t s k = record {
    kept = k;
    started = λ x. omega arith;
    skipped = λ x. omega arith;
    lighter = omega arith;
  }

  module _ (t : TaskContract F) (s : Plan F) (k : IsKept c.policy c.envelope s)
      (listed : IsListed t) (new : elem t.task_id s.started ≡ false)
      (unskipped : elem t.task_id s.skipped ≡ false) where
    skip-Starts :
        Starts t s
          (skip N c SkipReason.protected_envelope t.task_id (record s { dispatched = true }))
    unfolding skip emit
    skip-Starts = record {
      kept = k;
      started = λ x. omega arith;
      skipped = λ x. ground (arith, elem-append x s.skipped (t.task_id ∷ []));
      lighter =
          omega
            (arith, listed.0, skipped_one_less c.tasks t.task_id s.started s.skipped new unskipped);
    }

    start-Starts :
        (p : BackendProfile F) → Guarded N c.policy c.envelope t p s → Starts t s (start N c t p s)
    unfolding start emit
    start-Starts p g = record {
      kept = start-IsKept N c t p s k g;
      started = λ x. rw new (ground arith);
      skipped = λ x. omega arith;
      lighter = rw new (
          omega (
            arith,
            listed.0,
            started_one_less c.tasks t.task_id s.started s.skipped new unskipped,
            number-push (λ r. true) (item N c t p s k g) s.running,
            number_all (push (item N c t p s k g) s.running),
            number_all s.running,
          ));
    }

    dispatch_with-Starts :
        (o : Option (BackendProfile F))
        → int_leb (capacity c.policy c.envelope) (ℤ.pos (length s.running)) ≡ false
        → ((p : BackendProfile F)
            → o ≡ some p
            → IsLasting p × (within_budgets c.envelope (used_with N s.used p) ≡ true))
        → Leads (Starts t s) Good (dispatch_with N c t o s)
    unfolding dispatch_with
    dispatch_with-Starts none room fits = elim (Bool-cases (elem t.task_id c.protected_ids)) [
      | inl e ↦ rw e (
          refuse-Leads N c Good (Starts t s) (FailureReason.no_backend_plan t.task_id) s k
            (λ r fails h. (h, inl fails)))
      | inr e ↦ rw e skip-Starts
    ]
    dispatch_with-Starts (some p) room fits =
        elim (Bool-cases (
          int_leb (provider_limit c.envelope p.provider)
            (or_zero (lookup p.provider s.provider_running)))) [
              | inl full ↦ rw full (unchanged t s k)
              | inr free ↦ rw free (elim (Bool-cases (effect_conflicts t s.active_effects)) [
                | inl e ↦ rw e (unchanged t s k)
                | inr e ↦ rw e (
                    start-Starts p (record {
                      room = room;
                      provider_room = free;
                      unstarted = new;
                      lasting = (fits p refl).0;
                      affordable = (fits p refl).1;
                    }))
              ])
            ]

    dispatch_task-Starts :
        int_leb (capacity c.policy c.envelope) (ℤ.pos (length s.running)) ≡ false
        → Leads (Starts t s) Good (dispatch_task N c t s)
    unfolding dispatch_task
    dispatch_task-Starts room =
        raised-Leads Good (Starts t s) (got ScheduleFault.key_error (rank_of N c t)) _
          (key-Fueled (rank_of N c t))
          (λ rank e₁.
            raised-Leads Good (Starts t s)
              (got ScheduleFault.key_error (lookup t.task_id c.reference_profiles)) _
              (key-Fueled (lookup t.task_id c.reference_profiles))
              (λ reference e₂. dispatch_with-Starts _ room (λ p e.
                chosen_fits t s.time_ms _ s.used (remaining_protected N c s t) p listed.1 e)))

  -- After the dispatches the plan is kept, and lighter if anything was dispatched.
  abbrev pub Runs : Plan F → Plan F → Type 0
  Runs s s' = IsKept c.policy c.envelope s' × Lighter s s'

  pub dispatch_all-Leads :
      (ts : List (TaskContract F)) (s : Plan F)
      → IsKept c.policy c.envelope s
      → All IsListed ts
      → Apart s.started ts
      → Apart s.skipped ts
      → Leads (Runs s) Good (dispatch_all N c ts s)
  unfolding dispatch_all number
  dispatch_all-Leads [] s k listed new unskipped = (k, omega arith)
  dispatch_all-Leads (t ∷ ts) s k listed new unskipped =
      elim (Bool-cases (int_leb (capacity c.policy c.envelope) (ℤ.pos (length s.running)))) [
        | inl full ↦ rw full (k, omega arith)
        | inr free ↦ rw free (
            bind-Leads Good (Starts t s) (Runs s) (dispatch_task N c t s) _
              (dispatch_task-Starts t s k listed.0 (unlisted s.started new)
                (unlisted s.skipped unskipped) free)
              (λ s' h.
                map-Leads Good (Runs s') (Runs s) _ (λ s'' r. (r.0, omega (arith, r.1, h.lighter)))
                  (dispatch_all-Leads ts s' h.kept listed.1 (λ x. omega (arith, h.started x, new x))
                    (λ x. omega (arith, h.skipped x, unskipped x)))))
      ]
    where
      unlisted : (names : List String) → Apart names (t ∷ ts) → elem t.task_id names ≡ false
      unlisted names apart = elim (Bool-cases (elem t.task_id names)) [
        | inr e ↦ e
        | inl e ↦
            absurd (omega (arith, apart t.task_id, ap one_if e, ap one_if (=ˢ_refl t.task_id)))
      ]

  urgent_of-Gives : (time : ℤ) (t : TaskContract F) → Gives (λ u. u.task ≡ t) (urgent_of N c time t)
  unfolding urgent_of
  urgent_of-Gives time t =
      let reference = got ScheduleFault.key_error (lookup t.task_id c.reference_profiles) in
      let rank = got ScheduleFault.key_error (rank_of N c t) in
      bind-Gives (λ a. Unit) (λ u. u.task ≡ t) reference _ (always-Gives reference)
        (λ a _. bind-Gives (λ a. Unit) (λ u. u.task ≡ t) rank _ (always-Gives rank) (λ b _. refl))

  abbrev Urges : List (TaskContract F) → List (Urgent N c) → Type 0
  Urges ts us = map (λ (u : Urgent N c). u.task) us ≡ ts

  urgents_of-Gives :
      (time : ℤ) (ts : List (TaskContract F)) → Gives (Urges ts) (urgents_of N c time ts)
  unfolding urgents_of
  urgents_of-Gives time [] = refl
  urgents_of-Gives time (t ∷ ts) =
      bind-Gives (λ u. u.task ≡ t) (Urges (t ∷ ts)) (urgent_of N c time t) _
        (urgent_of-Gives time t)
        (λ u p.
          bind-Gives (Urges ts) (Urges (t ∷ ts)) (urgents_of N c time ts) _
            (urgents_of-Gives time ts) (λ us q. ap₂ ◌∷◌ p q))

  -- Sorting keeps the tasks.
  abbrev pub Sorts : (TaskContract F → Type 0) → (ts ready : List (TaskContract F)) → Type 0
  Sorts P ts ready =
      All P ready × ((test : TaskContract F → Bool) → number test ready ≡ number test ts)

  pub sort_ready-Gives :
      (policy : SchedulePolicy) (time : ℤ) (P : TaskContract F → Type 0)
      (ts : List (TaskContract F))
      → All P ts
      → Gives (Sorts P ts) (sort_ready N c policy time ts)
  unfolding sort_ready
  sort_ready-Gives SchedulePolicy.adaptive time P ts h =
      bind-Gives (Urges ts) (Sorts P ts) (urgents_of N c time ts) _ (urgents_of-Gives time ts)
        (λ us tasks. (
          map-All _ P _ (sort-All _ _ us (All-of_map _ P us (subst (All P) (sym tasks) h))),
          λ test.
              number-map _ test _
              ∙ (number-sort _ _ us ∙ (sym (number-map _ test us) ∙ ap (number test) tasks)),
        ))
  sort_ready-Gives _ time P ts h = (sort-All _ P ts h, λ test. number-sort _ test ts)
