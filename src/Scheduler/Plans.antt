-- ===== src/Scheduler/Plans.antt =====
-- What `schedule` keeps while it plans: its local variables, the events of src/agent_physics/events.py
-- and the entries; with the ways in which it ends.
use finite_agent_physics.Prelude.{
  ℕ, suc, ℤ, String, Bool, Option, none, some, List, [], ◌∷◌, ◌++◌, Dict, ◌=ˢ◌, if◌then◌else◌,
  Result, ok, err, int_eq, int_ltb, ltb, ◌==◌, tuple_less, text_less, sort_by, sorted,
}
use finite_agent_physics.Effects.Types.{EffectClass}
use finite_agent_physics.Contracts.Profiles.{Floats, BackendProfile}
use finite_agent_physics.Contracts.Tasks.{TaskContract}
use finite_agent_physics.Contracts.Envelopes.{RunEnvelope, EnvelopeError}
use finite_agent_physics.Graph.Walks.{GraphFault}
use finite_agent_physics.Scheduler.Choices.{Usage}

pub data SchedulePolicy : Type 0 where
  adaptive static_parallel sequential : SchedulePolicy

-- The exceptions. The fuel is the model's own.
pub data ScheduleFault : Type 0 where
  invalid_graph : GraphFault → ScheduleFault
  invalid_envelope : List EnvelopeError → ScheduleFault
  missing_entry : String → ScheduleFault
  key_error value_error zero_division bound_exceeded no_fuel : ScheduleFault

-- The reasons with which a schedule is refused.
pub data FailureReason : Type 0 where
  depends_on_skipped : (task : String) (missing : List String) → FailureReason
  no_backend_plan : (task : String) → FailureReason
  deadlock deadline_exceeded : FailureReason

pub data SkipReason : Type 0 where
  dependency_skipped : (dependencies : List String) → SkipReason
  protected_envelope : SkipReason

-- An event's type, with the values of its details.
pub data EventType : Type 0 where
  run_started : SchedulePolicy → EventType
  profile_selected : (backend provider : String) → EventType
  task_started : (end_ms : ℤ) → EventType
  task_completed : (backend : String) → EventType
  task_cancelled : EventType
  task_skipped : SkipReason → EventType
  run_completed : (makespan_ms : ℤ) → EventType
  run_failed : FailureReason → EventType

pub record Event : Type 0 where
  pub sequence : ℕ
  pub time_ms : ℤ
  pub event_type : EventType
  pub task_id : Option String

pub data Outcome : Type 0 where
  running completed cancelled : Outcome

pub record ScheduleEntry (F : Floats) : Type 0 where
  pub task_id : String
  pub backend : String
  pub provider : String
  pub start_ms : ℤ
  pub end_ms : ℤ
  pub tokens : ℤ
  pub cost_microusd : ℤ
  pub context_bytes : ℤ
  pub success_probability : F.Float
  pub optional : Bool
  pub outcome : Outcome

pub record ScheduleResult (F : Floats) : Type 0 where
  pub policy : SchedulePolicy
  pub success : Bool
  pub makespan_ms : ℤ
  pub model_bound_ms : ℤ
  pub total : Usage F
  pub entries : List (ScheduleEntry F)
  pub skipped : List String
  pub events : List Event
  pub failure_reason : Option FailureReason

-- An item of the heap: its keys, and the task with its profile.
pub record Running (F : Floats) : Type 0 where
  pub end_ms : ℤ
  pub tie : ℕ
  pub task_id : String
  pub profile : BackendProfile F

-- The heap is a list in the order in which it is popped; `dispatched` is set anew in each pass.
pub record Plan (F : Floats) : Type 0 where
  pub time_ms : ℤ
  pub sequence : ℕ
  pub events : List Event
  pub entries : List (ScheduleEntry F)
  pub skipped : List String
  pub completed : List String
  pub started : List String
  pub running : List (Running F)
  pub provider_running : Dict ℤ
  pub active_effects : Dict (List EffectClass)
  pub used : Usage F
  pub tie : ℕ
  pub dispatched : Bool

-- What `schedule` computes before its loop.
pub record Setting (F : Floats) : Type 0 where
  pub tasks : List (TaskContract F)
  pub envelope : RunEnvelope F
  pub policy : SchedulePolicy
  pub known : Dict (TaskContract F)
  pub protected_ids : List String
  pub reference_profiles : Dict (BackendProfile F)
  pub ranks : Dict ℤ
  pub protected_ranks : Dict ℤ
  pub model_bound : ℤ

-- A `return` from within the loop, or an exception.
pub data Exit (F : Floats) : Type 0 where
  refused : ScheduleResult F → Exit F
  raised : ScheduleFault → Exit F

-- How many tasks may run at a time.
abbrev pub capacity : {F : Floats} → SchedulePolicy → RunEnvelope F → ℤ
capacity SchedulePolicy.sequential e = ℤ.pos 1
capacity _ e = e.max_parallelism

abbrev pub got : {E A : Type 0} → E → Option A → Result E A
got e none = err e
got e (some a) = ok a

module _ {F : Floats} where
  unfoldable pub emit : EventType → Option String → Plan F → Plan F
  emit kind task s = record s {
    sequence = suc s.sequence;
    events =
        s.events
        ++ record {
          sequence = suc s.sequence;
          time_ms = s.time_ms;
          event_type = kind;
          task_id = task;
        }
          ∷ [];
  }

  -- `set_outcome`; where no entry has the task, it raises.
  unfoldable pub set_outcome :
      String → Outcome → ℤ → List (ScheduleEntry F) → Result ScheduleFault (List (ScheduleEntry F))
  set_outcome t outcome end_ms [] = err (ScheduleFault.missing_entry t)
  set_outcome t outcome end_ms (e ∷ es) =
      let rest = set_outcome t outcome end_ms es in
      if e.task_id =ˢ t
      then ok (record e { outcome = outcome; end_ms = end_ms } ∷ es)
      else (elim rest [ ok es' ↦ ok (e ∷ es') | err fault ↦ err fault ])

  -- The item is popped before the other.
  abbrev pub sooner : Running F → Running F → Bool
  sooner r q = tuple_less (
      (int_eq r.end_ms q.end_ms, int_ltb r.end_ms q.end_ms)
      ∷ (r.tie == q.tie, ltb r.tie q.tie)
      ∷ [])

  -- `heappush`
  unfoldable pub push : Running F → List (Running F) → List (Running F)
  push r [] = r ∷ []
  push r (q ∷ qs) = let rest = push r qs in if sooner r q then r ∷ q ∷ qs else q ∷ rest

  -- `sorted(entries, key=lambda item: (item.start_ms, item.task_id))`
  unfoldable pub in_order : List (ScheduleEntry F) → List (ScheduleEntry F)
  unfolding sort_by text_less
  in_order entries =
      sort_by
        (λ a b. tuple_less (
          (int_eq a.start_ms b.start_ms, int_ltb a.start_ms b.start_ms)
          ∷ (a.task_id =ˢ b.task_id, text_less a.task_id b.task_id)
          ∷ []))
        entries

  unfoldable pub result_of : Setting F → Bool → ℤ → Option FailureReason → Plan F → ScheduleResult F
  unfolding in_order sorted
  result_of c success model_bound reason s = record {
    policy = c.policy;
    success = success;
    makespan_ms = s.time_ms;
    model_bound_ms = model_bound;
    total = s.used;
    entries = in_order s.entries;
    skipped = sorted s.skipped;
    events = s.events;
    failure_reason = reason;
  }
