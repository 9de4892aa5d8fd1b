-- ===== src/Scheduler/Invariant.antt =====
-- What every plan of the loop keeps: the limits of parallelism and of the providers, and the budgets.
use finite_agent_physics.Prelude.{
  ◌≤◌, ◌≡◌, ℤ, int_leb, int_ltb, String, Bool, true, false, ◌&&◌, none, some, List, map, Dict,
  lookup, elem, ◌=ˢ◌, All, number,
}
use finite_agent_physics.Contracts.Profiles.{Floats}
use finite_agent_physics.Contracts.Envelopes.{RunEnvelope, provider_limit}
use finite_agent_physics.Scheduler.Choices.{Usage, within_budgets}
use finite_agent_physics.Scheduler.Plans.{SchedulePolicy, capacity, ScheduleEntry, Running, Plan}
use finite_agent_physics.Scheduler.Ranks.{or_zero, sum_of}
use finite_agent_physics.Scheduler.Entries.{end_of, Ordered}

-- What a limit is about: all the tasks, or those of a provider.
pub data Scope : Type 0 where
  all : Scope
  of_provider : String → Scope

abbrev pub covers : Scope → String → Bool
covers all provider = true
covers (of_provider p) provider = provider =ˢ p

abbrev pub limit_of : {F : Floats} → SchedulePolicy → RunEnvelope F → Scope → ℤ
limit_of policy e all = capacity policy e
limit_of policy e (of_provider p) = provider_limit e p

module _ {F : Floats} where
  -- The entry is one of the scope, and under way at the time.
  abbrev pub is_under_way : Scope → ℤ → ScheduleEntry F → Bool
  is_under_way q t e = covers q e.provider && int_leb e.start_ms t && int_ltb t e.end_ms

  abbrev pub ends_later : Scope → ℤ → ScheduleEntry F → Bool
  ends_later q t e = covers q e.provider && int_ltb t e.end_ms

  abbrev pub runs_later : Scope → ℤ → Running F → Bool
  runs_later q t r = covers q r.profile.provider && int_ltb t r.end_ms

  abbrev pub runs_in : Scope → Running F → Bool
  runs_in q r = covers q r.profile.provider

  -- The entries keep to the limits of the envelope at every time, and their sums are the totals,
  -- which keep to its budgets.
  pub record IsBounded (policy : SchedulePolicy) (e : RunEnvelope F) (total : Usage F)
      (entries : List (ScheduleEntry F)) : Type 0 where
    pub limited :
        (q : Scope) (t : ℤ)
        → int_leb (ℤ.pos (number (is_under_way q t) entries)) (limit_of policy e q) ≡ true
    pub tokens : sum_of (map (λ (d : ScheduleEntry F). d.tokens) entries) ≡ total.tokens
    pub cost : sum_of (map (λ (d : ScheduleEntry F). d.cost_microusd) entries) ≡ total.cost
    pub context : sum_of (map (λ (d : ScheduleEntry F). d.context_bytes) entries) ≡ total.context
    pub token_budget : int_leb total.tokens e.max_tokens ≡ true
    pub cost_budget : int_leb total.cost e.max_cost_microusd ≡ true
    pub context_budget : int_leb total.context e.max_context_bytes ≡ true

  -- The usage is that of the entries, within the budgets.
  pub record Accounted (e : RunEnvelope F) (used : Usage F) (entries : List (ScheduleEntry F))
      : Type 0 where
    pub tokens : sum_of (map (λ (d : ScheduleEntry F). d.tokens) entries) ≡ used.tokens
    pub cost : sum_of (map (λ (d : ScheduleEntry F). d.cost_microusd) entries) ≡ used.cost
    pub context : sum_of (map (λ (d : ScheduleEntry F). d.context_bytes) entries) ≡ used.context
    pub within : within_budgets e used ≡ true

  -- Of a plan, the time, the heap, the entries, the names that were started, the counts of the
  -- providers and the usage.
  pub record Kept (policy : SchedulePolicy) (e : RunEnvelope F) (time : ℤ)
      (running : List (Running F)) (entries : List (ScheduleEntry F)) (started : List String)
      (provider_running : Dict ℤ) (used : Usage F) : Type 0 where
    pub ordered : Ordered time running
    pub named : All (λ r. end_of r.task_id entries ≡ some r.end_ms) running
    pub fresh : (k : String) → elem k started ≡ false → end_of k entries ≡ none
    pub counted :
        (p : String)
        → or_zero (lookup p provider_running) ≡ ℤ.pos (number (runs_in (of_provider p)) running)
    pub running_limited :
        (q : Scope) → int_leb (ℤ.pos (number (runs_in q) running)) (limit_of policy e q) ≡ true
    pub followed :
        (q : Scope) (t : ℤ)
        → int_leb time t ≡ true
        → number (ends_later q t) entries ≤ number (runs_later q t) running
    pub limited :
        (q : Scope) (t : ℤ)
        → int_leb (ℤ.pos (number (is_under_way q t) entries)) (limit_of policy e q) ≡ true
    pub accounted : Accounted e used entries

  abbrev pub IsKept : SchedulePolicy → RunEnvelope F → Plan F → Type 0
  IsKept policy e s =
      Kept policy e s.time_ms s.running s.entries s.started s.provider_running s.used
