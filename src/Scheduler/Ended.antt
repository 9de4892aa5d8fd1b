-- ===== src/Scheduler/Ended.antt =====
-- A task that completes, or that is cancelled as the run is refused, keeps to the limits and the budgets.
use finite_agent_physics.Prelude.{
  ℕ, ◌+◌, ◌≤◌, ◌≡◌, ◌≢◌, refl, sym, ap, ◌∙◌, subst, ℤ, int_leb, int_ltb, int_eq, int_eq-eq,
  int_eq_refl, int_ltb-leb, int_leb_pos, int_leb_refl, int_leb_trans, pred-suc, String, Bool, true,
  false, ◌&&◌, none, some, List, [], ◌∷◌, map, lookup, lookup-insert, insert, int_pred, elem,
  is_empty, ◌=ˢ◌, =ˢ_refl, =ˢ_ne, eq_iff, if◌then◌else◌, add, Dict, Option, Result, ok, err, All,
  All-map, length, suc, number, one_if, Bool-cases, String-cases, inl, inr, arith,
}
use native.Mathlib.Nat.{zero-add}
use finite_agent_physics.Effects.Types.{EffectClass, class_eq}
use finite_agent_physics.Prelude.Results.{◌>>=◌}
use finite_agent_physics.Contracts.Profiles.{Floats}
use finite_agent_physics.Contracts.Tasks.{TaskContract}
use finite_agent_physics.Scheduler.Choices.{FloatArithmetic}
use finite_agent_physics.Scheduler.Plans.{
  ScheduleFault, EventType, Outcome, ScheduleEntry, ScheduleResult, Running, Plan, Setting, Exit,
  got, emit, set_outcome,
}
use finite_agent_physics.Scheduler.Ranks.{or_zero, sum_of}
use finite_agent_physics.Scheduler.Entries.{
  end_of, Updated, updated, set_outcome-Updated, Ordered, Ordered-later,
}
use finite_agent_physics.Scheduler.Invariant.{
  Scope, of_provider, covers, limit_of, is_under_way, ends_later, runs_later, runs_in, IsKept,
}
use finite_agent_physics.Scheduler.Dispatch.{raised_in}
use finite_agent_physics.Scheduler.Loop.{
  complete, complete_due, advance, remove_effect, without_effect,
}

-- How a part of the loop ends: with a plan, with the result of a refusal, or with an exception other
-- than that of the fuel.
abbrev pub Leads :
    {F : Floats} {A : Type 0}
    → (A → Type 0)
    → (ScheduleResult F → Type 0)
    → Result (Exit F) A
    → Type 0
Leads P G (ok s) = P s
Leads P G (err (Exit.refused r)) = G r
Leads P G (err (Exit.raised fault)) = fault ≢ ScheduleFault.no_fuel

-- No fuel runs out.
abbrev pub Fueled : {A : Type 0} → Result ScheduleFault A → Type 0
Fueled (ok a) = Unit
Fueled (err fault) = fault ≢ ScheduleFault.no_fuel

pub key-Fueled : {A : Type 0} (o : Option A) → Fueled (got ScheduleFault.key_error o)
key-Fueled none = λ e. cc
key-Fueled (some a) = tt

-- An exception goes on.
onward-Fueled :
    {A B : Type 0} (g : A → B) (m : Result ScheduleFault A)
    → Fueled m
    → Fueled {A = B} (elim m [ ok a ↦ ok (g a) | err fault ↦ err fault ])
onward-Fueled g (ok a) h = tt
onward-Fueled g (err fault) h = h

pub bind-Fueled :
    {A B : Type 0} (m : Result ScheduleFault A) (f : A → Result ScheduleFault B)
    → Fueled m
    → ((a : A) → Fueled (f a))
    → Fueled (m >>= f)
bind-Fueled (ok a) f h k = k a
bind-Fueled (err fault) f h k = h

pub ok_inj : {A : Type 0} {x y : A} → ◌≡◌ {A = Result ScheduleFault A} (ok x) (ok y) → x ≡ y
ok_inj p = cc

module _ {F : Floats} (G : ScheduleResult F → Type 0) where
  pub raised-Leads :
      {A B : Type 0} (P : B → Type 0) (m : Result ScheduleFault A) (f : A → Result (Exit F) B)
      → Fueled m
      → ((a : A) → m ≡ ok a → Leads P G (f a))
      → Leads P G (raised_in m >>= f)
  raised-Leads P (ok a) f fueled h = h a refl
  raised-Leads P (err fault) f fueled h = fueled

  pub map-Leads :
      {A : Type 0} (Q P : A → Type 0) (m : Result (Exit F) A)
      → ((a : A) → Q a → P a)
      → Leads Q G m
      → Leads P G m
  map-Leads Q P (ok a) f q = f a q
  map-Leads Q P (err (Exit.refused r)) f q = q
  map-Leads Q P (err (Exit.raised fault)) f q = q

  pub bind-Leads :
      {A B : Type 0} (Q : A → Type 0) (P : B → Type 0) (m : Result (Exit F) A)
      (f : A → Result (Exit F) B)
      → Leads Q G m
      → ((a : A) → Q a → Leads P G (f a))
      → Leads P G (m >>= f)
  bind-Leads Q P (ok a) f q h = h a q
  bind-Leads Q P (err (Exit.refused r)) f q h = q
  bind-Leads Q P (err (Exit.raised fault)) f q h = q

pub set_outcome-Fueled :
    {F : Floats} (t : String) (o : Outcome) (time : ℤ) (es : List (ScheduleEntry F))
    → Fueled (set_outcome t o time es)
unfolding set_outcome
set_outcome-Fueled t o time [] = λ e. cc
set_outcome-Fueled t o time (e ∷ es) = elim (Bool-cases (e.task_id =ˢ t)) [
  | inl p ↦ rw p tt
  | inr p ↦
      rw p
        (onward-Fueled (λ es'. e ∷ es') (set_outcome t o time es) (set_outcome-Fueled t o time es))
]

remove_effect-Fueled : (k : EffectClass) (ks : List EffectClass) → Fueled (remove_effect k ks)
unfolding remove_effect
remove_effect-Fueled k [] = λ e. cc
remove_effect-Fueled k (e ∷ es) = elim (Bool-cases (class_eq e k)) [
  | inl p ↦ rw p tt
  | inr p ↦ rw p (onward-Fueled (λ es'. e ∷ es') (remove_effect k es) (remove_effect-Fueled k es))
]

without_effect-Fueled :
    {F : Floats} (N : FloatArithmetic F) (c : Setting F) (t : TaskContract F)
    (active : Dict (List EffectClass))
    → Fueled (without_effect N c t active)
unfolding without_effect
without_effect-Fueled N c t active = elim (Bool-cases (is_empty t.effect.resource)) [
  | inl p ↦ rw p tt
  | inr p ↦ rw p (
      bind-Fueled (got ScheduleFault.key_error (lookup t.effect.resource active)) _
        (key-Fueled (lookup t.effect.resource active))
        (λ kinds.
          bind-Fueled (remove_effect t.effect.kind kinds) _
            (remove_effect-Fueled t.effect.kind kinds) (λ rest. tt)))
]

module _ {F : Floats} (c : Setting F) where
  -- The entry of a task that has ended is brought up to date.
  module _ (s : Plan F) (r : Running F) (rs : List (Running F)) (due : r.end_ms ≡ s.time_ms)
      (k : IsKept c.policy c.envelope (record s { running = r ∷ rs })) (es : List (ScheduleEntry F))
      (ends : (x : String)
        → end_of x es ≡ (if x =ˢ r.task_id then some s.time_ms else end_of x s.entries)) where
    ended_named : All (λ q. end_of q.task_id es ≡ some q.end_ms) rs
    ended_named = All-map (λ q h. ends q.task_id ∙ same q h) rs k.named.1
      where
        some_inj : {x y : ℤ} → some x ≡ some y → x ≡ y
        some_inj e = cc

        same :
            (q : Running F)
            → end_of q.task_id s.entries ≡ some q.end_ms
            → (if q.task_id =ˢ r.task_id then some s.time_ms else end_of q.task_id s.entries)
              ≡ some q.end_ms
        same q h = elim (String-cases q.task_id r.task_id) [
          | inr n ↦ rw (=ˢ_ne q.task_id r.task_id n) h
          | inl e ↦
              rw ((eq_iff q.task_id r.task_id).1 e)
                (ap some (sym due) ∙ (sym k.named.0 ∙ (ap (λ x. end_of x s.entries) (sym e) ∙ h)))
        ]

    ended_fresh : (x : String) → elem x s.started ≡ false → end_of x es ≡ none
    ended_fresh x h = elim (String-cases x r.task_id) [
      | inr n ↦ ends x ∙ rw (=ˢ_ne x r.task_id n) (k.fresh x h)
      | inl e ↦ cc (k.fresh x h, k.named.0, ap (λ y. end_of y s.entries) e)
    ]

    ended_counted :
        (n : ℤ)
        → lookup r.profile.provider s.provider_running ≡ some n
        → (q : String)
        → or_zero (lookup q (insert r.profile.provider (int_pred n) s.provider_running))
          ≡ ℤ.pos (number (runs_in (of_provider q)) rs)
    unfolding number
    ended_counted n found q =
        rw (lookup-insert q r.profile.provider (int_pred n) s.provider_running)
          (elim (String-cases q r.profile.provider) [
            | inr other ↦
                rw (=ˢ_ne q r.profile.provider other) (
                  k.counted q ∙ rw (=ˢ_ne r.profile.provider q (λ e. other (sym e)), zero-add) refl)
            | inl e ↦ rw ((eq_iff q r.profile.provider).1 e) (
                ap int_pred counted_one
                ∙ (pred-suc (number (runs_in (of_provider r.profile.provider)) rs)
                    ∙ ap (λ x. ℤ.pos (number (runs_in (of_provider x)) rs)) (sym e)))
          ])
      where
        counted_one : n ≡ ℤ.pos (1 + number (runs_in (of_provider r.profile.provider)) rs)
        counted_one =
            sym (ap or_zero found)
            ∙ (k.counted r.profile.provider ∙ rw (=ˢ_refl r.profile.provider) refl)

    ended_followed :
        (q : Scope) (t : ℤ)
        → number (ends_later q t) es ≤ number (ends_later q t) s.entries
        → int_leb s.time_ms t ≡ true
        → number (ends_later q t) es ≤ number (runs_later q t) rs
    unfolding number
    ended_followed q t fewer h = omega (arith, fewer, k.followed q t h, ap one_if over)
      where
        over : (covers q r.profile.provider && int_ltb t r.end_ms) ≡ false
        over = rw due (ground (arith, int_ltb-leb t s.time_ms, h))

    ended_IsKept :
        (n : ℤ)
        → lookup r.profile.provider s.provider_running ≡ some n
        → ((f : ScheduleEntry F → ℤ)
            → ((e : ScheduleEntry F)
                → f (record e { outcome = Outcome.completed; end_ms = s.time_ms }) ≡ f e)
            → map f es ≡ map f s.entries)
        → ((test : ScheduleEntry F → Bool)
            → ((e : ScheduleEntry F)
                → e.end_ms ≡ r.end_ms
                → test (record e { outcome = Outcome.completed; end_ms = s.time_ms }) ≡ true
                → test e ≡ true)
            → number test es ≤ number test s.entries)
        → (completed : List String) (active : Dict (List EffectClass))
        → IsKept c.policy c.envelope (record s {
          running = rs;
          completed = completed;
          entries = es;
          provider_running = insert r.profile.provider (int_pred n) s.provider_running;
          active_effects = active;
        })
    unfolding number
    ended_IsKept n found same fewer completed active = record {
      ordered = Ordered-later s.time_ms r.end_ms rs (rw due (int_leb_refl s.time_ms)) k.ordered.1;
      named = ended_named;
      fresh = ended_fresh;
      counted = ended_counted n found;
      running_limited = λ q.
          int_leb_pos (number (runs_in q) rs) (number (runs_in q) (r ∷ rs))
            (limit_of c.policy c.envelope q) (omega arith) (k.running_limited q);
      followed = λ q t h.
          ended_followed q t
            (fewer (ends_later q t)
              (λ e p. subst (λ x. (covers q e.provider && int_ltb t x) ≡ true) (sym due ∙ sym p)))
            h;
      limited = λ q t.
          int_leb_pos (number (is_under_way q t) es) (number (is_under_way q t) s.entries)
            (limit_of c.policy c.envelope q)
            (fewer (is_under_way q t) (λ e p.
              subst (λ x. (covers q e.provider && int_leb e.start_ms t && int_ltb t x) ≡ true)
                (sym due ∙ sym p)))
            (k.limited q t);
      accounted = record {
        tokens = ap sum_of (same _ (λ e. refl)) ∙ k.accounted.tokens;
        cost = ap sum_of (same _ (λ e. refl)) ∙ k.accounted.cost;
        context = ap sum_of (same _ (λ e. refl)) ∙ k.accounted.context;
        within = k.accounted.within;
      };
    }

  -- No task is started or skipped.
  abbrev pub Alike : Plan F → Plan F → Type 0
  Alike s s' = (s'.started ≡ s.started) × (s'.skipped ≡ s.skipped)

  -- The heap is the rest, and the time is as it was.
  abbrev Still : List (Running F) → Plan F → Plan F → Type 0
  Still rs s s' =
      IsKept c.policy c.envelope (record s' { running = rs })
      × (s'.time_ms ≡ s.time_ms)
      × Alike s s'

  -- At most so many tasks are left on the heap.
  abbrev pub Leaves : ℕ → Plan F → Plan F → Type 0
  Leaves n s s' = IsKept c.policy c.envelope s' × (length s'.running ≤ n) × Alike s s'

  module _ (N : FloatArithmetic F) (G : ScheduleResult F → Type 0) where
    complete-IsKept :
        (s : Plan F) (r : Running F) (rs : List (Running F))
        → r.end_ms ≡ s.time_ms
        → IsKept c.policy c.envelope (record s { running = r ∷ rs })
        → Leads (Still rs s) G (complete N c r (record s { running = rs }))
    unfolding complete emit
    complete-IsKept s r rs due k =
        raised-Leads G (Still rs s) (got ScheduleFault.key_error (lookup r.task_id c.known)) _
          (key-Fueled (lookup r.task_id c.known))
          (λ task e₁.
            raised-Leads G (Still rs s)
              (set_outcome r.task_id Outcome.completed s.time_ms s.entries) _
              (set_outcome-Fueled r.task_id Outcome.completed s.time_ms s.entries)
              (λ es e₂.
                raised-Leads G (Still rs s)
                  (got ScheduleFault.key_error (lookup r.profile.provider s.provider_running)) _
                  (key-Fueled (lookup r.profile.provider s.provider_running))
                  (λ n e₃.
                    raised-Leads G (Still rs s) (without_effect N c task s.active_effects) _
                      (without_effect-Fueled N c task s.active_effects)
                      (λ active e₄.
                        from es active n
                          (found n (lookup r.profile.provider s.provider_running) refl e₃) _
                          (set_outcome-Updated r.task_id s.time_ms Outcome.completed r.end_ms
                            s.entries k.named.0)
                          e₂))))
      where
        found :
            (n : ℤ) (o : Option ℤ)
            → lookup r.profile.provider s.provider_running ≡ o
            → got ScheduleFault.key_error o ≡ ok n
            → lookup r.profile.provider s.provider_running ≡ some n
        found n none e h = cc
        found n (some m) e h = cc

        ended : List (ScheduleEntry F) → ℤ → Dict (List EffectClass) → Plan F
        ended es n active = record s {
          running = rs;
          completed = add r.task_id s.completed;
          entries = es;
          provider_running = insert r.profile.provider (int_pred n) s.provider_running;
          active_effects = active;
        }

        from :
            (es : List (ScheduleEntry F)) (active : Dict (List EffectClass)) (n : ℤ)
            → lookup r.profile.provider s.provider_running ≡ some n
            → (m : Result ScheduleFault (List (ScheduleEntry F)))
            → Updated r.task_id s.time_ms Outcome.completed r.end_ms s.entries m
            → m ≡ ok es
            → Still rs s (
                emit (EventType.task_completed r.profile.name) (some r.task_id) (ended es n active))
        from es active n h _ (updated es' ends same fewer) e = (
          subst (λ x. IsKept c.policy c.envelope (ended x n active)) (ok_inj e)
              (ended_IsKept s r rs due k es' ends n h same fewer (add r.task_id s.completed)
                active),
          refl,
          (refl, refl),
        )

    popped-Leaves :
        (r : Running F) (rs : List (Running F)) (s : Plan F)
        → r.end_ms ≡ s.time_ms
        → IsKept c.policy c.envelope (record s { running = r ∷ rs })
        → ((s' : Plan F)
            → s'.time_ms ≡ s.time_ms
            → IsKept c.policy c.envelope (record s' { running = rs })
            → Leads (Leaves (length rs) s') G (complete_due N c r.end_ms rs s'))
        → Leads
            (Leaves (length rs) s)
            G
            (complete N c r (record s { running = rs }) >>= complete_due N c r.end_ms rs)
    popped-Leaves r rs s now k rest =
        bind-Leads G (Still rs s) (Leaves (length rs) s)
          (complete N c r (record s { running = rs })) _ (complete-IsKept s r rs now k)
          (λ s' h.
            map-Leads G (Leaves (length rs) s') (Leaves (length rs) s) _
              (λ s'' l. (l.0, l.1, (l.2.0 ∙ h.2.0, l.2.1 ∙ h.2.1))) (rest s' h.1 h.0))

    complete_due-Leaves :
        (time : ℤ) (rs : List (Running F)) (s : Plan F)
        → s.time_ms ≡ time
        → IsKept c.policy c.envelope (record s { running = rs })
        → Leads (Leaves (length rs) s) G (complete_due N c time rs s)
    unfolding complete_due
    complete_due-Leaves time [] s now k = (k, omega arith, (refl, refl))
    complete_due-Leaves time (r ∷ rs) s now k = elim (Bool-cases (int_eq r.end_ms time)) [
      | inr e ↦ rw e (k, omega arith, (refl, refl))
      | inl e ↦ rw e (
          map-Leads G (Leaves (length rs) s) (Leaves (suc (length rs)) s) _
            (λ s' l. (l.0, omega arith, l.2))
            (subst
              (λ x.
                Leads (Leaves (length rs) s) G
                  (complete N c r (record s { running = rs }) >>= complete_due N c x rs))
              (int_eq-eq r.end_ms time e)
              (popped-Leaves r rs s (int_eq-eq r.end_ms time e ∙ sym now) k (λ s' same kept.
                subst (λ x. Leads (Leaves (length rs) s') G (complete_due N c x rs s'))
                  (sym (int_eq-eq r.end_ms time e))
                  (complete_due-Leaves time rs s' (same ∙ now) kept)))))
    ]

    -- The time goes on to the end of the first task on the heap.
    pub advanced-Leaves :
        (r : Running F) (rs : List (Running F)) (s : Plan F)
        → s.running ≡ r ∷ rs
        → IsKept c.policy c.envelope s
        → Leads (Leaves (length rs) s) G (advance N c (r ∷ rs) s)
    unfolding advance complete_due
    advanced-Leaves r rs s taken k = rw (int_eq_refl r.end_ms) (
        popped-Leaves r rs (record s { time_ms = r.end_ms }) refl
          (record {
            ordered = (int_leb_refl r.end_ms, now.1);
            named = subst (All _) taken k.named;
            fresh = k.fresh;
            counted = λ p. k.counted p ∙ ap (λ x. ℤ.pos (number (runs_in (of_provider p)) x)) taken;
            running_limited = λ q.
                subst
                  (λ x.
                    int_leb (ℤ.pos (number (runs_in q) x)) (limit_of c.policy c.envelope q) ≡ true)
                  taken (k.running_limited q);
            followed = λ q t h.
                subst (λ x. number (ends_later q t) s.entries ≤ number (runs_later q t) x) taken
                  (k.followed q t (int_leb_trans s.time_ms r.end_ms t now.0 h));
            limited = k.limited;
            accounted = k.accounted;
          })
          (λ s' same kept. complete_due-Leaves r.end_ms rs s' same kept))
      where
        now : Ordered s.time_ms (r ∷ rs)
        now = subst (Ordered s.time_ms) taken k.ordered
