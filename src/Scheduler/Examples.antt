-- ===== src/Scheduler/Examples.antt =====
-- Schedules of four tasks, with percentages in place of floating-point numbers.
use finite_agent_physics.Prelude.{
  All, ℕ, List, [], ◌∷◌, ◌*◌, ◌/◌, ◌-◌, ◌≡◌, ◌≤◌, ◌↔◌, leb, some, arith, refl, ok, Result, ℤ, Bool,
  true, false, err,
}
use finite_agent_physics.Contracts.Examples.{envelope}
use finite_agent_physics.Graph.Examples.{percents, diamond, task, profile}
use finite_agent_physics.Scheduler.Choices.{
  FloatArithmetic, Usage, unused, future_plan_fits, choose_profile,
}
use finite_agent_physics.Scheduler.Plans.{SchedulePolicy, ScheduleFault, ScheduleResult}
use finite_agent_physics.Scheduler.Loop.{schedule}
use native.Mathlib.Nat.{mul-le-mul, mul-le-mul_right}
use finite_agent_physics.Contracts.Profiles.{profile_errors}
use finite_agent_physics.Contracts.Tasks.{TaskContract}
use finite_agent_physics.Scheduler.Future.{Planned, Chosen, choose_profile-Chosen}
use finite_agent_physics.Scheduler.Covers.{FloatLaws}
use finite_agent_physics.Scheduler.Exact.{future_plan_fits-exact}
use finite_agent_physics.Scheduler.Bounded.{Scheduled, schedule-Scheduled}

abbrev of_percents : FloatArithmetic percents
of_percents = record {
  nought = 0;
  one = 100;
  two = 200;
  times = λ x y. x * y / 100;
  over = λ x y. x * 100 / y;
  one_less = λ x. 100 - x;
}

abbrev ends_at : Result ScheduleFault (ScheduleResult percents) → Bool × ℤ
ends_at (ok r) = (r.success, r.makespan_ms)
ends_at (err fault) = (false, ℤ.pos 0)

-- The four tasks succeed.
test_schedule :
    ends_at (schedule of_percents diamond envelope SchedulePolicy.adaptive) ≡ (true, ℤ.pos 60)
unfolding schedule
test_schedule = refl

schedule-Scheduled_example :
    Scheduled SchedulePolicy.adaptive envelope
      (schedule of_percents diamond envelope SchedulePolicy.adaptive)
schedule-Scheduled_example = schedule-Scheduled of_percents diamond envelope SchedulePolicy.adaptive

leb_of_le : (m n : ℕ) → m ≤ n → leb m n ≡ true
leb_of_le m n h = ground (arith, h)

leb_holds : (m n : ℕ) → leb m n ≡ true → m ≤ n
leb_holds m n h = ground (arith, h)

div_le : (m n : ℕ) → m ≤ n → leb (m / 100) (n / 100) ≡ true
div_le m n h = leb_of_le (m / 100) (n / 100) (omega (arith, h))

percents_laws : FloatLaws of_percents
percents_laws = record {
  at_least_refl = λ x unit. leb_of_le x x (omega arith);
  at_least_trans = λ x y z h k. leb_of_le z x (omega (arith, leb_holds y x h, leb_holds z y k));
  at_least-less = λ x y h. ground (arith, h);
  in_unit_one = refl;
  at_least_one = λ x unit. unit;
  times-in_unit = λ x z k unit.
      div_le (x * (100 - z)) (100 * 100) (mul-le-mul {m₂ = 100} (leb_holds x 100 k) (omega arith));
  times_le = λ x y z k l unit h.
      div_le (y * (100 - z)) (x * (100 - z)) (mul-le-mul_right (100 - z) (leb_holds y x h));
}

-- Sixty tokens, as much as the four tasks need, and nine tenths of a chance.
abbrev budget : Usage percents
budget = record { tokens = ℤ.pos 60; cost = ℤ.pos 0; context = ℤ.pos 0; chance = 90 }

test_future_plan_fits : future_plan_fits of_percents diamond budget (ℤ.pos 0) (ℤ.pos 60) ≡ true
unfolding future_plan_fits
test_future_plan_fits = refl

profile-faultless : profile_errors (profile 20) ≡ []
unfolding profile_errors
profile-faultless = refl

future_plan_fits-exact_example :
    (future_plan_fits of_percents diamond budget (ℤ.pos 0) (ℤ.pos 60) ≡ true)
    ↔ Planned of_percents (ℤ.pos 0) (ℤ.pos 60) diamond budget
future_plan_fits-exact_example =
    future_plan_fits-exact of_percents percents_laws diamond budget (ℤ.pos 0) (ℤ.pos 60)
      (valid, (valid, (valid, (valid, tt))))
  where
    valid : All (λ p. profile_errors p ≡ []) (profile 20 ∷ [])
    valid = (profile-faultless, tt)

abbrev others : List (TaskContract percents)
others = task "b" [] ∷ task "c" [] ∷ []

chosen_first :
    choose_profile of_percents
      (task "a" [])
      envelope
      (ℤ.pos 0)
      (ℤ.pos 20)
      (unused of_percents)
      others
    ≡ some (profile 20)
unfolding choose_profile
chosen_first = refl

choose_profile-Chosen_example :
    Chosen of_percents
      (task "a" [])
      envelope
      (ℤ.pos 0)
      (ℤ.pos 20)
      (unused of_percents)
      others
      (profile 20)
choose_profile-Chosen_example =
    choose_profile-Chosen of_percents (task "a" []) envelope (ℤ.pos 0) (ℤ.pos 20)
      (unused of_percents) others (profile 20) chosen_first
