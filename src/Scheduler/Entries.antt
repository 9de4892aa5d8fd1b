-- ===== src/Scheduler/Entries.antt =====
-- What `set_outcome`, the heap and the sorted entries keep.
use finite_agent_physics.Prelude.{
  ◌+◌, ◌≤◌, ◌≡◌, ◌≢◌, refl, sym, ap, ◌∙◌, ℤ, int_leb, int_eq, int_leb_trans, int_leb_total,
  int_leb_refl, int_ltb-leb, int_eq-eq, String, Bool, true, false, not, Option, none, some, List,
  [], ◌∷◌, ◌++◌, map, ◌=ˢ◌, =ˢ_ne, String-cases, Bool-cases, inl, inr, if◌then◌else◌, eq_iff,
  Result, ok, err, All, number, one_if, arith,
}
use finite_agent_physics.Contracts.Profiles.{Floats}
use finite_agent_physics.Scheduler.Plans.{
  ScheduleFault, Outcome, ScheduleEntry, Running, set_outcome, sooner, push,
}

turned_false : {b : Bool} → not b ≡ true → b ≡ false
turned_false {b = true} e = cc
turned_false {b = false} e = refl

turned_true : {b : Bool} → not b ≡ false → b ≡ true
turned_true {b = true} e = refl
turned_true {b = false} e = cc

module _ {F : Floats} where
  -- The time at which the first entry of the task ends.
  unfoldable pub end_of : String → List (ScheduleEntry F) → Option ℤ
  end_of t [] = none
  end_of t (e ∷ es) = if t =ˢ e.task_id then some e.end_ms else end_of t es

  pub end_of-append :
      (t : String) (es : List (ScheduleEntry F)) (e : ScheduleEntry F)
      → end_of t (es ++ e ∷ []) ≡ (elim (end_of t es) [
        | none ↦ if t =ˢ e.task_id then some e.end_ms else none
        | some x ↦ some x
      ])
  unfolding end_of
  end_of-append t [] e = refl
  end_of-append t (d ∷ ds) e = ground (arith, end_of-append t ds e)

  -- How `set_outcome` ends, where the first entry of the task ends at the time given.
  pub data Updated (t : String) (time : ℤ) (outcome : Outcome) (x : ℤ) (es : List (ScheduleEntry F))
      : Result ScheduleFault (List (ScheduleEntry F)) → Type 0 where
    updated :
        (es' : List (ScheduleEntry F))
        → ((k : String) → end_of k es' ≡ (if k =ˢ t then some time else end_of k es))
        → ((f : ScheduleEntry F → ℤ)
            → ((e : ScheduleEntry F) → f (record e { outcome = outcome; end_ms = time }) ≡ f e)
            → map f es' ≡ map f es)
        → ((test : ScheduleEntry F → Bool)
            → ((e : ScheduleEntry F)
                → e.end_ms ≡ x
                → test (record e { outcome = outcome; end_ms = time }) ≡ true
                → test e ≡ true)
            → number test es' ≤ number test es)
        → Updated t time outcome x es (ok es')

  Updated-head :
      (t : String) (time : ℤ) (outcome : Outcome) (x : ℤ) (e : ScheduleEntry F)
      (es : List (ScheduleEntry F))
      → e.task_id ≡ t
      → e.end_ms ≡ x
      → Updated t time outcome x (e ∷ es) (ok (record e { outcome = outcome; end_ms = time } ∷ es))
  unfolding end_of number
  Updated-head t time outcome x e es q ends =
      updated _ (λ k. ground (arith, eq_iff k e.task_id, eq_iff k t))
        (λ f same. ap (λ y. y ∷ map f es) (same e)) (λ test h. ground (arith, h e ends))

  Updated-tail :
      (t : String) (time : ℤ) (outcome : Outcome) (x : ℤ) (e : ScheduleEntry F)
      (es : List (ScheduleEntry F)) {r : Result ScheduleFault (List (ScheduleEntry F))}
      → e.task_id ≢ t
      → Updated t time outcome x es r
      → Updated t time outcome x (e ∷ es) (elim r [ ok es' ↦ ok (e ∷ es') | err f ↦ err f ])
  unfolding end_of number
  Updated-tail t time outcome x e es n (updated es' ends kept fewer) =
      updated (e ∷ es') (λ k. ground (arith, eq_iff k e.task_id, eq_iff k t, ends k))
        (λ f same. ap (λ ys. f e ∷ ys) (kept f same)) (λ test h. omega (arith, fewer test h))

  pub set_outcome-Updated :
      (t : String) (time : ℤ) (outcome : Outcome) (x : ℤ) (es : List (ScheduleEntry F))
      → end_of t es ≡ some x
      → Updated t time outcome x es (set_outcome t outcome time es)
  unfolding set_outcome end_of
  set_outcome-Updated t time outcome x [] h = cc
  set_outcome-Updated t time outcome x (e ∷ es) h = elim (String-cases e.task_id t) [
    | inl q ↦
        rw ((eq_iff e.task_id t).1 q) (
          Updated-head t time outcome x e es q
            (some_inj (rw ((eq_iff t e.task_id).1 (sym q)) at h)))
    | inr n ↦ rw (=ˢ_ne e.task_id t n) (
        Updated-tail t time outcome x e es n
          (set_outcome-Updated t time outcome x es (rw (=ˢ_ne t e.task_id (λ p. n (sym p))) at h)))
  ]
    where
      some_inj : {a b : ℤ} → some a ≡ some b → a ≡ b
      some_inj p = cc

  -- The heap: each item ends no earlier than the time, and than those before it.
  abbrev pub Ordered : ℤ → List (Running F) → Type 0
  Ordered time [] = Unit
  Ordered time (r ∷ rs) = (int_leb time r.end_ms ≡ true) × Ordered r.end_ms rs

  pub Ordered-later :
      (a b : ℤ) (rs : List (Running F)) → int_leb a b ≡ true → Ordered b rs → Ordered a rs
  Ordered-later a b [] h o = tt
  Ordered-later a b (r ∷ rs) h o = (int_leb_trans a b r.end_ms h o.0, o.1)

  pub push-Ordered :
      (time : ℤ) (r : Running F) (rs : List (Running F))
      → int_leb time r.end_ms ≡ true
      → Ordered time rs
      → Ordered time (push r rs)
  unfolding push
  push-Ordered time r [] h o = (h, tt)
  push-Ordered time r (q ∷ qs) h o = elim (Bool-cases (sooner r q)) [
    | inl e ↦ rw e (h, (below e, o.1))
    | inr e ↦ rw e (o.0, push-Ordered q.end_ms r qs (above e) o.1)
  ]
    where
      below : sooner r q ≡ true → int_leb r.end_ms q.end_ms ≡ true
      below e = elim (Bool-cases (int_eq r.end_ms q.end_ms)) [
        | inl p ↦ rw (int_eq-eq r.end_ms q.end_ms p) (int_leb_refl q.end_ms)
        | inr p ↦
            int_leb_total q.end_ms r.end_ms
              (turned_false (sym (int_ltb-leb r.end_ms q.end_ms) ∙ (rw p at e)))
      ]

      above : sooner r q ≡ false → int_leb q.end_ms r.end_ms ≡ true
      above e = elim (Bool-cases (int_eq r.end_ms q.end_ms)) [
        | inl p ↦ rw (int_eq-eq r.end_ms q.end_ms p) (int_leb_refl q.end_ms)
        | inr p ↦ turned_true (sym (int_ltb-leb r.end_ms q.end_ms) ∙ (rw p at e))
      ]

  pub number-push :
      (test : Running F → Bool) (r : Running F) (rs : List (Running F))
      → number test (push r rs) ≡ one_if (test r) + number test rs
  unfolding push number
  number-push test r [] = refl
  number-push test r (q ∷ qs) = ground (arith, number-push test r qs)

  pub push-All :
      (P : Running F → Type 0) (r : Running F) (rs : List (Running F))
      → P r
      → All P rs
      → All P (push r rs)
  unfolding push
  push-All P r [] p h = (p, tt)
  push-All P r (q ∷ qs) p h = elim (Bool-cases (sooner r q)) [
    | inl e ↦ rw e (p, h)
    | inr e ↦ rw e (h.0, push-All P r qs p h.1)
  ]
