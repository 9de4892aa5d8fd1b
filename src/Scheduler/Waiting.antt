-- ===== src/Scheduler/Waiting.antt =====
-- Each task that is dispatched or skipped is one less to wait for.
use finite_agent_physics.Prelude.{
  ℕ, ◌+◌, ◌*◌, ◌≤◌, ◌≡◌, ◌≢◌, refl, sym, ◌∙◌, String, Bool, true, false, not, ◌&&◌, ◌||◌, List, [],
  ◌∷◌, ◌++◌, elem, elem-append, length, ◌=ˢ◌, =ˢ_refl, =ˢ_ne, String-cases, inl, inr, number,
  number_apart, arith,
}
use finite_agent_physics.Contracts.Profiles.{Floats}
use finite_agent_physics.Contracts.Tasks.{TaskContract}
use finite_agent_physics.Scheduler.Plans.{Plan}

abbrev pub is_named : {F : Floats} → String → TaskContract F → Bool
is_named x t = x =ˢ t.task_id

abbrev pub is_new : {F : Floats} → (started skipped : List String) → TaskContract F → Bool
is_new started skipped t = not (elem t.task_id started) && not (elem t.task_id skipped)

module _ {F : Floats} (tasks : List (TaskContract F)) where
  -- Twice the tasks that are neither started nor skipped, and those that run.
  abbrev pub weight : Plan F → ℕ
  weight s = 2 * number (is_new s.started s.skipped) tasks + length s.running

  module _ (t : String) (started skipped : List String) (new : elem t started ≡ false)
      (kept : elem t skipped ≡ false) where
    one_less :
        (a b : List String)
        → ((x : String) → x ≢ t → (elem x a ≡ elem x started) × (elem x b ≡ elem x skipped))
        → (elem t a || elem t b) ≡ true
        → number (is_new a b) tasks + number (is_named t) tasks
          ≤ number (is_new started skipped) tasks
    one_less a b others here =
        number_apart (is_new a b) (is_named t) (is_new started skipped)
          (λ u. elim (String-cases u.task_id t) [
            | inl e ↦ rw e (ground (arith, new, kept, here, =ˢ_refl t))
            | inr n ↦ ground (arith, others u.task_id n, =ˢ_ne t u.task_id (λ e. n (sym e)))
          ])
          tasks

    pub started_one_less :
        number (is_new (t ∷ started) skipped) tasks + number (is_named t) tasks
        ≤ number (is_new started skipped) tasks
    started_one_less =
        one_less (t ∷ started) skipped (λ x n. (rw (=ˢ_ne x t n) refl, refl)) (rw (=ˢ_refl t) refl)

    pub skipped_one_less :
        number (is_new started (skipped ++ t ∷ [])) tasks + number (is_named t) tasks
        ≤ number (is_new started skipped) tasks
    skipped_one_less =
        one_less started (skipped ++ t ∷ [])
          (λ x n.
            (refl, elem-append x skipped (t ∷ []) ∙ rw (=ˢ_ne x t n) (or_false (elem x skipped))))
          (rw (elem-append t skipped (t ∷ []), =ˢ_refl t) (ground arith))
      where
        or_false : (a : Bool) → (a || (false || false)) ≡ a
        or_false a = ground arith
