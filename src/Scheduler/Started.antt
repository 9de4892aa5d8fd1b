-- ===== src/Scheduler/Started.antt =====
-- A task that is dispatched keeps to the limits and the budgets.
use mathlib.Core.List.{map-append}
use native.Mathlib.Nat.{zero-add}
use finite_agent_physics.Prelude.{
  ◌+◌, ◌≤◌, ◌≡◌, refl, sym, ap, ◌∙◌, subst, ℤ, ◌+ℤ◌, is_negative, int_leb, int_leb_suc, int_leb_pos,
  int_leb-add, suc-add, +ℤ_assoc, +ℤ_zero, zero_+ℤ, String, Bool, true, false, ◌||◌, none, some,
  List, [], ◌∷◌, ◌++◌, map, lookup, lookup-insert, insert, elem, length, ◌=ˢ◌, =ˢ_refl, =ˢ_ne,
  eq_iff, All, All-map, number, number-append, number_all, number-le, All-always, one_if,
  Bool-cases, String-cases, inl, inr, arith,
}
use finite_agent_physics.Contracts.Profiles.{Floats, BackendProfile}
use finite_agent_physics.Contracts.Tasks.{TaskContract}
use finite_agent_physics.Contracts.Envelopes.{RunEnvelope, provider_limit}
use finite_agent_physics.Scheduler.Choices.{
  FloatArithmetic, total_tokens, used_with, within_budgets,
}
use finite_agent_physics.Scheduler.Plans.{
  SchedulePolicy, capacity, Outcome, ScheduleEntry, Running, Plan, Setting, emit, push,
}
use finite_agent_physics.Scheduler.Ranks.{or_zero, sum_of}
use finite_agent_physics.Scheduler.Entries.{
  end_of, end_of-append, push-Ordered, number-push, push-All,
}
use finite_agent_physics.Scheduler.Invariant.{
  Scope, all, of_provider, covers, limit_of, is_under_way, ends_later, runs_later, runs_in,
  Accounted, IsKept,
}
use finite_agent_physics.Scheduler.Dispatch.{start}

sum_of-append : (vs : List ℤ) (v : ℤ) → sum_of (vs ++ v ∷ []) ≡ sum_of vs +ℤ v
unfolding sum_of
sum_of-append [] v = +ℤ_zero v ∙ sym (zero_+ℤ v)
sum_of-append (w ∷ ws) v = ap (λ x. w +ℤ x) (sum_of-append ws v) ∙ sym (+ℤ_assoc w (sum_of ws) v)

sum_of-map :
    {A : Type 0} (f : A → ℤ) (xs : List A) (x : A)
    → sum_of (map f (xs ++ x ∷ [])) ≡ sum_of (map f xs) +ℤ f x
sum_of-map f xs x = ap sum_of (map-append f xs (x ∷ [])) ∙ sum_of-append (map f xs) (f x)

-- What is guarded by the tests before a task is dispatched.
pub record Guarded {F : Floats} (N : FloatArithmetic F) (policy : SchedulePolicy)
    (e : RunEnvelope F) (t : TaskContract F) (p : BackendProfile F) (s : Plan F) : Type 0 where
  pub room : int_leb (capacity policy e) (ℤ.pos (length s.running)) ≡ false
  pub provider_room :
      int_leb (provider_limit e p.provider) (or_zero (lookup p.provider s.provider_running)) ≡ false
  pub unstarted : elem t.task_id s.started ≡ false
  pub lasting : is_negative p.duration_ms_p95 ≡ false
  pub affordable : within_budgets e (used_with N s.used p) ≡ true

module _ {F : Floats} (N : FloatArithmetic F) (c : Setting F) (t : TaskContract F)
    (p : BackendProfile F) (s : Plan F) (k : IsKept c.policy c.envelope s)
    (g : Guarded N c.policy c.envelope t p s) where
  abbrev pub end_ms : ℤ
  end_ms = s.time_ms +ℤ p.duration_ms_p95

  abbrev pub item : Running F
  item = record { end_ms = end_ms; tie = s.tie; task_id = t.task_id; profile = p }

  abbrev entry : ScheduleEntry F
  entry = record {
    task_id = t.task_id;
    backend = p.name;
    provider = p.provider;
    start_ms = s.time_ms;
    end_ms = end_ms;
    tokens = total_tokens p;
    cost_microusd = p.cost_microusd;
    context_bytes = p.context_bytes;
    success_probability = N.one_less p.failure_probability;
    optional = t.optional;
    outcome = Outcome.running;
  }

  -- With the task, there is still room in each scope that covers it.
  now_limited :
      (q : Scope)
      → int_leb
          (ℤ.pos (one_if (covers q p.provider) + number (runs_in q) s.running))
          (limit_of c.policy c.envelope q)
        ≡ true
  now_limited all =
      int_leb_suc (number (runs_in all) s.running) (capacity c.policy c.envelope)
        (rw (number_all s.running) g.room)
  now_limited (of_provider q) = elim (String-cases p.provider q) [
    | inl same ↦ rw ((eq_iff p.provider q).1 same) (
        int_leb_suc (number (runs_in (of_provider q)) s.running) (provider_limit c.envelope q) (
          subst
            (λ x.
              int_leb (provider_limit c.envelope x)
                (ℤ.pos (number (runs_in (of_provider x)) s.running))
              ≡ false)
            same (rw (k.counted p.provider) at g.provider_room)))
    | inr other ↦ rw (=ˢ_ne p.provider q other, zero-add) (k.running_limited (of_provider q))
  ]

  started_named :
      All (λ r. end_of r.task_id (s.entries ++ entry ∷ []) ≡ some r.end_ms) (push item s.running)
  started_named =
      push-All _ item s.running
        (end_of-append t.task_id s.entries entry
          ∙ rw (k.fresh t.task_id g.unstarted, =ˢ_refl t.task_id) refl)
        (All-map (λ r h. end_of-append r.task_id s.entries entry ∙ rw h refl) s.running k.named)

  started_fresh :
      (x : String)
      → elem x (t.task_id ∷ s.started) ≡ false
      → end_of x (s.entries ++ entry ∷ []) ≡ none
  started_fresh x h =
      end_of-append x s.entries entry
      ∙ rw
          (
            k.fresh x (right_false (x =ˢ t.task_id) (elem x s.started) h),
            left_false (x =ˢ t.task_id) (elem x s.started) h,
          )
          refl
    where
      right_false : (a b : Bool) → (a || b) ≡ false → b ≡ false
      right_false a b e = ground (arith, e)

      left_false : (a b : Bool) → (a || b) ≡ false → a ≡ false
      left_false a b e = ground (arith, e)

  started_counted :
      (q : String)
      → or_zero (
          lookup q (
            insert p.provider
              (or_zero (lookup p.provider s.provider_running) +ℤ ℤ.pos 1)
              s.provider_running))
        ≡ ℤ.pos (number (runs_in (of_provider q)) (push item s.running))
  started_counted q =
      rw
        (
          lookup-insert q p.provider _ s.provider_running,
          number-push (runs_in (of_provider q)) item s.running,
        )
        (elim (String-cases p.provider q) [
          | inl same ↦
              rw ((eq_iff p.provider q).1 same, (eq_iff q p.provider).1 (sym same))
                (rw (k.counted p.provider) (
                  suc-add (number (runs_in (of_provider p.provider)) s.running)
                  ∙ ap (λ x. ℤ.pos (1 + number (runs_in (of_provider x)) s.running)) same))
          | inr other ↦
              rw (=ˢ_ne p.provider q other, =ˢ_ne q p.provider (λ e. other (sym e)), zero-add)
                (k.counted q)
        ])

  started_followed :
      (q : Scope) (x : ℤ)
      → int_leb s.time_ms x ≡ true
      → number (ends_later q x) (s.entries ++ entry ∷ [])
        ≤ number (runs_later q x) (push item s.running)
  unfolding number
  started_followed q x h = omega (
    arith,
    number-append (ends_later q x) s.entries (entry ∷ []),
    number-push (runs_later q x) item s.running,
    k.followed q x h,
  )

  under_way_following :
      (q : Scope) (x : ℤ) → number (is_under_way q x) s.entries ≤ number (ends_later q x) s.entries
  under_way_following q x =
      number-le (is_under_way q x) (ends_later q x) s.entries
        (All-always (λ e h. ground (arith, h)) s.entries)

  started_limited :
      (q : Scope) (x : ℤ)
      → int_leb
          (ℤ.pos (number (is_under_way q x) (s.entries ++ entry ∷ [])))
          (limit_of c.policy c.envelope q)
        ≡ true
  unfolding number
  started_limited q x = elim (Bool-cases (is_under_way q x entry)) [
    | inr e ↦
        int_leb_pos (number (is_under_way q x) (s.entries ++ entry ∷ []))
          (number (is_under_way q x) s.entries) (limit_of c.policy c.envelope q)
          (omega (arith, counts, ap one_if e)) (k.limited q x)
    | inl e ↦
        int_leb_pos (number (is_under_way q x) (s.entries ++ entry ∷ []))
          (one_if (covers q p.provider) + number (runs_in q) s.running)
          (limit_of c.policy c.envelope q)
          (omega (
            arith,
            counts,
            ap one_if e,
            ap one_if (covered e),
            under_way_following q x,
            k.followed q x (begun e),
            number-le (runs_later q x) (runs_in q) s.running
                (All-always (λ r h. ground (arith, h)) s.running),
          ))
          (now_limited q)
  ]
    where
      counts :
          number (is_under_way q x) (s.entries ++ entry ∷ [])
          ≡ number (is_under_way q x) s.entries + (one_if (is_under_way q x entry) + 0)
      counts = number-append (is_under_way q x) s.entries (entry ∷ [])

      covered : is_under_way q x entry ≡ true → covers q p.provider ≡ true
      covered e = ground (arith, e)

      begun : is_under_way q x entry ≡ true → int_leb s.time_ms x ≡ true
      begun e = ground (arith, e)

  started-Accounted : Accounted c.envelope (used_with N s.used p) (s.entries ++ entry ∷ [])
  started-Accounted = record {
    tokens = sum_of-map _ s.entries entry ∙ ap (λ x. x +ℤ total_tokens p) k.accounted.tokens;
    cost = sum_of-map _ s.entries entry ∙ ap (λ x. x +ℤ p.cost_microusd) k.accounted.cost;
    context = sum_of-map _ s.entries entry ∙ ap (λ x. x +ℤ p.context_bytes) k.accounted.context;
    within = g.affordable;
  }

  -- A task that is dispatched keeps to the limits and the budgets.
  pub start-IsKept : IsKept c.policy c.envelope (start N c t p s)
  unfolding start emit
  start-IsKept = record {
    ordered =
        push-Ordered s.time_ms item s.running (int_leb-add s.time_ms p.duration_ms_p95 g.lasting)
          k.ordered;
    named = started_named;
    fresh = λ x h. started_fresh x (rw g.unstarted at h);
    counted = started_counted;
    running_limited = λ q. rw (number-push (runs_in q) item s.running) (now_limited q);
    followed = started_followed;
    limited = started_limited;
    accounted = started-Accounted;
  }
