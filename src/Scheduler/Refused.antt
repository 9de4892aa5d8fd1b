-- ===== src/Scheduler/Refused.antt =====
-- The entries of a result, also of a refusal, keep to the limits and the budgets.
use finite_agent_physics.Prelude.{
  ◌≤◌, ◌≡◌, refl, sym, ap, ◌∙◌, subst, ℤ, ◌+ℤ◌, +ℤ_assoc, +ℤ_comm, int_leb, int_ltb, int_leb_pos,
  int_leb_refl, int_leb_trans, int_ltb_trans, Bool, true, false, ◌&&◌, some, List, [], ◌∷◌, map,
  =ˢ_ne, eq_iff, Result, ok, All, All-map, number, number-sort, place, sort_by, Bool-cases,
  String-cases, inl, inr, arith,
}
use native.Mathlib.Nat.{le_trans}
use finite_agent_physics.Contracts.Profiles.{Floats}
use finite_agent_physics.Contracts.Envelopes.{RunEnvelope}
use finite_agent_physics.Scheduler.Choices.{FloatArithmetic}
use finite_agent_physics.Scheduler.Plans.{
  SchedulePolicy, ScheduleFault, FailureReason, EventType, Outcome, ScheduleEntry, ScheduleResult,
  Running, Plan, Setting, emit, set_outcome, in_order, result_of,
}
use finite_agent_physics.Scheduler.Ranks.{sum_of}
use finite_agent_physics.Scheduler.Entries.{end_of, Updated, updated, set_outcome-Updated, Ordered}
use finite_agent_physics.Scheduler.Invariant.{
  Scope, covers, limit_of, is_under_way, IsBounded, IsKept,
}
use finite_agent_physics.Scheduler.Ended.{
  Leads, ok_inj, set_outcome-Fueled, raised-Leads, bind-Leads,
}
use finite_agent_physics.Scheduler.Dispatch.{cancel_all, refuse}

module _ {A : Type 0} (f : A → ℤ) (less : A → A → Bool) where
  sum_of-place : (x : A) (xs : List A) → sum_of (map f (place less x xs)) ≡ f x +ℤ sum_of (map f xs)
  unfolding sum_of place
  sum_of-place x [] = refl
  sum_of-place x (y ∷ ys) = elim (Bool-cases (less y x)) [
    | inr e ↦ rw e refl
    | inl e ↦ rw e (
        ap (λ v. f y +ℤ v) (sum_of-place x ys)
        ∙ (sym (+ℤ_assoc (f y) (f x) (sum_of (map f ys)))
            ∙ (ap (λ v. v +ℤ sum_of (map f ys)) (+ℤ_comm (f y) (f x))
                ∙ +ℤ_assoc (f x) (f y) (sum_of (map f ys)))))
  ]

  sum_of-sort : (xs : List A) → sum_of (map f (sort_by less xs)) ≡ sum_of (map f xs)
  unfolding sum_of sort_by
  sum_of-sort [] = refl
  sum_of-sort (x ∷ xs) = sum_of-place x (sort_by less xs) ∙ ap (λ v. f x +ℤ v) (sum_of-sort xs)

module _ {F : Floats} where
  -- No more of the entries are under way at any time, and their amounts are the same.
  pub record Trims (es es' : List (ScheduleEntry F)) : Type 0 where
    pub fewer : (q : Scope) (t : ℤ) → number (is_under_way q t) es' ≤ number (is_under_way q t) es
    pub same :
        (f : ScheduleEntry F → ℤ)
        → ((e : ScheduleEntry F) (o : Outcome) (x : ℤ)
            → f (record e { outcome = o; end_ms = x }) ≡ f e)
        → map f es' ≡ map f es

  pub Trims-refl : (es : List (ScheduleEntry F)) → Trims es es
  Trims-refl es = record { fewer = λ q t. omega arith; same = λ f h. refl }

  module _ (policy : SchedulePolicy) (e : RunEnvelope F) where
    -- The sorted entries of a plan, after they were trimmed.
    pub trimmed-IsBounded :
        (s : Plan F) (es : List (ScheduleEntry F))
        → IsKept policy e s
        → Trims s.entries es
        → IsBounded policy e s.used (in_order es)
    unfolding in_order
    trimmed-IsBounded s es k trims = record {
      limited = λ q t. rw (number-sort _ (is_under_way q t) es) (
          int_leb_pos (number (is_under_way q t) es) (number (is_under_way q t) s.entries)
            (limit_of policy e q) (trims.fewer q t) (k.limited q t));
      tokens = summed (λ d. d.tokens) (λ d o x. refl) k.accounted.tokens;
      cost = summed (λ d. d.cost_microusd) (λ d o x. refl) k.accounted.cost;
      context = summed (λ d. d.context_bytes) (λ d o x. refl) k.accounted.context;
      token_budget = parts.0;
      cost_budget = parts.1;
      context_budget = parts.2;
    }
      where
        summed :
            (f : ScheduleEntry F → ℤ) {n : ℤ}
            → ((d : ScheduleEntry F) (o : Outcome) (x : ℤ)
                → f (record d { outcome = o; end_ms = x }) ≡ f d)
            → sum_of (map f s.entries) ≡ n
            → sum_of (map f (in_order es)) ≡ n
        summed f h total = sum_of-sort f _ es ∙ (ap sum_of (trims.same f h) ∙ total)

        parts :
            (int_leb s.used.tokens e.max_tokens ≡ true)
            × (int_leb s.used.cost e.max_cost_microusd ≡ true)
            × (int_leb s.used.context e.max_context_bytes ≡ true)
        parts = ground (arith, k.accounted.within)

  -- Each task of the heap has an entry, which ends no earlier than the time.
  abbrev Open : Plan F → List (Running F) → Type 0
  Open s rs =
      All (λ r. (x : ℤ) × (end_of r.task_id s.entries ≡ some x) × (int_leb s.time_ms x ≡ true)) rs

  left_running :
      (s : Plan F) (time : ℤ) (rs : List (Running F))
      → int_leb s.time_ms time ≡ true
      → Ordered time rs
      → All (λ r. end_of r.task_id s.entries ≡ some r.end_ms) rs
      → Open s rs
  left_running s time [] h o named = tt
  left_running s time (r ∷ rs) h o named =
      let later = int_leb_trans s.time_ms time r.end_ms h o.0 in
      ((r.end_ms, named.0, later), left_running s r.end_ms rs later o.1 named.1)

  module _ (N : FloatArithmetic F) (c : Setting F) (G : ScheduleResult F → Type 0) where
    cancel_all-Trims :
        (rs : List (Running F)) (s : Plan F) (es : List (ScheduleEntry F))
        → Open s rs
        → Trims es s.entries
        → Leads (λ s'. Trims es s'.entries × (s'.used ≡ s.used)) G (cancel_all N c rs s)
    unfolding cancel_all emit
    cancel_all-Trims [] s es h trims = (trims, refl)
    cancel_all-Trims (r ∷ rs) s es h trims =
        raised-Leads G (λ s'. Trims es s'.entries × (s'.used ≡ s.used))
          (set_outcome r.task_id Outcome.cancelled s.time_ms s.entries) _
          (set_outcome-Fueled r.task_id Outcome.cancelled s.time_ms s.entries)
          (λ es' e.
            let (opened, trimmed) =
              next es' _ e
                (set_outcome-Updated r.task_id s.time_ms Outcome.cancelled h.0.0 s.entries h.0.1) in
            cancel_all-Trims rs
              (emit EventType.task_cancelled (some r.task_id) (record s { entries = es' })) es
              opened trimmed)
      where
        next :
            (es' : List (ScheduleEntry F)) (m : Result ScheduleFault (List (ScheduleEntry F)))
            → m ≡ ok es'
            → Updated r.task_id s.time_ms Outcome.cancelled h.0.0 s.entries m
            → Open (record s { entries = es' }) rs × Trims es es'
        next es' _ e (updated es'' ends same fewer) =
            subst (λ y. Open (record s { entries = y }) rs × Trims es y) (ok_inj e)
              (
                All-map
                    (λ p o. elim (String-cases p.task_id r.task_id) [
                      | inl q ↦ (
                        s.time_ms,
                        ends p.task_id ∙ rw ((eq_iff p.task_id r.task_id).1 q) refl,
                        int_leb_refl s.time_ms,
                      )
                      | inr n ↦ (o.0, ends p.task_id ∙ rw (=ˢ_ne p.task_id r.task_id n) o.1, o.2)
                    ])
                    rs h.1,
                record {
                  fewer =
                      λ q t. le_trans (fewer (is_under_way q t) (shorter q t)) (trims.fewer q t);
                  same = λ f unread.
                      same f (λ d. unread d Outcome.cancelled s.time_ms) ∙ trims.same f unread;
                },
              )
          where
            shorter :
                (q : Scope) (t : ℤ) (d : ScheduleEntry F)
                → d.end_ms ≡ h.0.0
                → (covers q d.provider && int_leb d.start_ms t && int_ltb t s.time_ms) ≡ true
                → is_under_way q t d ≡ true
            shorter q t d p w = rw p (ground (arith, w, int_ltb_trans t s.time_ms h.0.0, h.0.2))

    -- `fail` gives a result that is bounded.
    pub refuse-Leads :
        {A : Type 0} (P : A → Type 0) (reason : FailureReason) (s : Plan F)
        → IsKept c.policy c.envelope s
        → ((r : ScheduleResult F)
            → r.success ≡ false
            → IsBounded c.policy c.envelope r.total r.entries
            → G r)
        → Leads P G (refuse N c reason s)
    unfolding refuse emit result_of
    refuse-Leads P reason s k good =
        bind-Leads G (λ s'. Trims s.entries s'.entries × (s'.used ≡ s.used)) P
          (cancel_all N c s.running s) _
          (cancel_all-Trims s.running s s.entries
            (left_running s s.time_ms s.running (int_leb_refl s.time_ms) k.ordered k.named)
            (Trims-refl s.entries))
          (λ s' h. good _ refl (rw h.1 (trimmed-IsBounded c.policy c.envelope s s'.entries k h.0)))
