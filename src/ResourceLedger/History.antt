-- ===== src/ResourceLedger/History.antt =====
-- Histories of the resource ledger: the invariant along every sequence of calls.
use finite_agent_physics.Prelude.{
  ◌≡◌, refl, ◌∙◌, List, [], ◌∷◌, is_blank, inl, inr, Bool-cases, if◌then◌else◌,
}
use finite_agent_physics.ResourceLedger.Vector.{ResourceVector}
use finite_agent_physics.ResourceLedger.Events.{LedgerEvent, LedgerCall}
use finite_agent_physics.ResourceLedger.Budget.{ResourceBudgetLedger, new_ledger, call, run}
use finite_agent_physics.ResourceLedger.Invariant.{IsValid, append_event, new_ledger-IsValid}
use finite_agent_physics.ResourceLedger.Decisions.{attempt_of, decision, decided_event}
use finite_agent_physics.ResourceLedger.Preservation.{decision-IsValid}
use finite_agent_physics.ResourceLedger.Calls.{call_lem}
use finite_agent_physics.ResourceLedger.Genuine.{decision_frame}

-- After a call the ledger is the old one, or the decided one with its event.
pub after_call :
    (c : LedgerCall) (l : ResourceBudgetLedger)
    → IsValid l
    → (call c l).1 ≡ (
        if is_blank (attempt_of c)
        then l
        else append_event (decided_event (decision c l)) (decision c l).after)
after_call c l v = elim (Bool-cases (is_blank (attempt_of c))) [
  | inl h ↦ rw (call_lem c l v, h) refl
  | inr h ↦ rw (call_lem c l v, h) refl
]

append_event-IsValid :
    (e : LedgerEvent) (l : ResourceBudgetLedger) → IsValid l → IsValid (append_event e l)
append_event-IsValid e l v = record {
  fits = v.fits;
  active_keys = v.active_keys;
  terminal_keys = v.terminal_keys;
  disjoint = v.disjoint;
}

-- Every call keeps the invariant, a refused one and one that raises included.
pub call-IsValid : (c : LedgerCall) (l : ResourceBudgetLedger) → IsValid l → IsValid (call c l).1
call-IsValid c l v = elim (Bool-cases (is_blank (attempt_of c))) [
  | inl h ↦ rw (after_call c l v, h) v
  | inr h ↦ rw (after_call c l v, h) (append_event-IsValid _ _ (decision-IsValid c l v))
]

pub call_capacity :
    (c : LedgerCall) (l : ResourceBudgetLedger) → IsValid l → (call c l).1.capacity ≡ l.capacity
call_capacity c l v = elim (Bool-cases (is_blank (attempt_of c))) [
  | inl h ↦ rw (after_call c l v, h) refl
  | inr h ↦ rw (after_call c l v, h) (decision_frame c l).1
]

pub run_keeps :
    (cs : List LedgerCall) (l : ResourceBudgetLedger)
    → IsValid l
    → IsValid (run cs l) × ((run cs l).capacity ≡ l.capacity)
unfolding run
run_keeps [] l v = (v, refl)
run_keeps (c ∷ cs) l v =
    let (v', same) = run_keeps cs (call c l).1 (call-IsValid c l v) in
    (v', same ∙ call_capacity c l v)

-- From a fresh ledger every sequence of calls leads to a ledger that conserves its capacity and
-- keeps its attempts apart, and the capacity never changes.
pub run-IsValid :
    (capacity : ResourceVector) (cs : List LedgerCall)
    → let l = run cs (new_ledger capacity) in IsValid l × (l.capacity ≡ capacity)
unfolding new_ledger
run-IsValid capacity cs = run_keeps cs (new_ledger capacity) (new_ledger-IsValid capacity)
