-- ===== src/ResourceLedger/Examples.antt =====
-- Runs of the resource ledger on concrete inputs, and the theorems about it applied to them.
use finite_agent_physics.Prelude.{
  ℕ, not, ◌&&◌, ◌=ˢ◌, eq_iff, ◌+◌, String, ◌≡◌, refl, Bool, true, false, Option, none, some, List,
  [], ◌∷◌, ◌++◌, arith, is_blank, All, ok, err, lookup, insert, erase, if◌then◌else◌,
}
use finite_agent_physics.ResourceLedger.Vector.{
  ResourceVector, invalid_attempt_id, add, subtract, fits_within, sum_resources, vector_eq,
}
use finite_agent_physics.ResourceLedger.Events.{
  BudgetSnapshot, LedgerEvent, LedgerCall, event_id_of, event_id_of_inj, codes_eq, option_eq,
  option_eq_iff, snapshot_eq,
}
use finite_agent_physics.ResourceLedger.Budget.{
  ResourceBudgetLedger, new_ledger, snapshot, record_event, reserve, settle, cancel, call, run,
}
use finite_agent_physics.ResourceLedger.Invariant.{IsValid}
use finite_agent_physics.ResourceLedger.Decisions.{attempt_of, decision, logged}
use finite_agent_physics.ResourceLedger.Calls.{call_lem}
use finite_agent_physics.ResourceLedger.History.{run-IsValid}
use finite_agent_physics.ResourceLedger.Replay.{replay_and_verify}
use finite_agent_physics.ResourceLedger.Logs.{NotMalformed, audit_accepts, audit_genuine}
use finite_agent_physics.ResourceLedger.Accounting.{Outcome, call_accounting, finished_stays}

abbrev vec : ℕ → ℕ → ℕ → ResourceVector
vec t c b = record { tokens = t; cost_microusd = c; context_bytes = b }

abbrev budget : ResourceVector
budget = vec 10 20 30

abbrev digest : List LedgerEvent → String
digest _ = "digest"

-- A reservation that is settled, one that does not fit, a blank name, an overdrawn settlement and a
-- cancellation.
abbrev history : List LedgerCall
history =
    LedgerCall.reserve "a" (vec 4 5 6)
    ∷ LedgerCall.settle "a" (vec 3 5 0)
    ∷ LedgerCall.reserve "b" (vec 8 1 1)
    ∷ LedgerCall.reserve "  " (vec 1 1 1)
    ∷ LedgerCall.reserve "c" (vec 7 15 30)
    ∷ LedgerCall.settle "c" (vec 8 0 0)
    ∷ LedgerCall.cancel "c"
    ∷ LedgerCall.cancel "a"
    ∷ []

abbrev final : ResourceBudgetLedger
final = run history (new_ledger budget)

abbrev logged_events : List LedgerEvent
logged_events = final.events

reasons : List LedgerEvent → List (Option String)
reasons [] = []
reasons (e ∷ es) = e.reason ∷ reasons es

history_reasons :
    reasons logged_events
    ≡ none
      ∷ none
      ∷ some "capacity_exceeded"
      ∷ none
      ∷ some "actual_over_reservation"
      ∷ none
      ∷ some "terminal_attempt"
      ∷ []
unfolding reasons run new_ledger reserve settle cancel snapshot record_event is_blank lookup
    fits_within add sum_resources subtract insert erase
history_reasons = refl

history_spent : final.spent ≡ vec 3 5 0
unfolding run new_ledger reserve settle cancel snapshot record_event is_blank lookup fits_within add
    sum_resources subtract insert erase
history_spent = refl

audit_passes : (replay_and_verify digest budget logged_events none none).passed ≡ true
unfolding replay_and_verify run new_ledger reserve settle cancel snapshot record_event is_blank
    lookup fits_within add sum_resources subtract insert erase codes_eq event_id_of option_eq
    vector_eq snapshot_eq
audit_passes = refl

run-IsValid_example : IsValid final × (final.capacity ≡ budget)
run-IsValid_example = run-IsValid budget history

audit_accepts_example :
    (claimed : BudgetSnapshot) × (snapshot final ≡ (ok claimed, final))
    × (let report = replay_and_verify digest budget logged_events (some claimed) (some 7) in
        (report.passed ≡ true) × (report.failures ≡ []) × (report.replayed_snapshot ≡ claimed))
audit_accepts_example = audit_accepts digest budget history (some 7)

none_malformed : List LedgerEvent → Bool
none_malformed [] = true
none_malformed (e ∷ es) =
    not (option_eq ◌=ˢ◌ e.reason (some "malformed_input")) && none_malformed es

none_malformed_sound : (es : List LedgerEvent) → none_malformed es ≡ true → All NotMalformed es
unfolding none_malformed
none_malformed_sound [] h = tt
none_malformed_sound (e ∷ es) h =
    let differs : option_eq ◌=ˢ◌ e.reason (some "malformed_input") ≡ false = ground arith in
    (
      λ same. cc (differs, (option_eq_iff ◌=ˢ◌ eq_iff e.reason (some "malformed_input")).1 same),
      none_malformed_sound es (ground arith),
    )

final_none_malformed : none_malformed logged_events ≡ true
unfolding none_malformed run new_ledger reserve settle cancel snapshot record_event is_blank lookup
    fits_within add sum_resources subtract insert erase option_eq
final_none_malformed = refl

no_malformed : All NotMalformed logged_events
no_malformed = none_malformed_sound logged_events final_none_malformed

audit_genuine_example :
    (cs : List LedgerCall) × ((run cs (new_ledger budget)).events ≡ logged_events)
audit_genuine_example =
    audit_genuine digest budget logged_events none none audit_passes no_malformed

call_accounting_example :
    (e : LedgerEvent) × ((call (LedgerCall.reserve "d" (vec 1 1 1)) final).0 ≡ ok e)
    × ((call (LedgerCall.reserve "d" (vec 1 1 1)) final).1.events ≡ final.events ++ e ∷ [])
    × Outcome
        (LedgerCall.reserve "d" (vec 1 1 1))
        e.applied
        final
        (call (LedgerCall.reserve "d" (vec 1 1 1)) final).1
call_accounting_example =
    call_accounting (LedgerCall.reserve "d" (vec 1 1 1)) final (run-IsValid budget history).0
      (unfold is_blank in refl)

a_settled : lookup "a" final.terminal ≡ some "settled"
unfolding run new_ledger reserve settle cancel snapshot record_event is_blank lookup fits_within add
    sum_resources subtract insert erase
a_settled = refl

finished_stays_example :
    let (r, l') = call (LedgerCall.reserve "a" (vec 1 1 1)) final in
    ((e : LedgerEvent) → r ≡ ok e → e.applied ≡ false)
    × (l'.spent ≡ final.spent)
    × (l'.active ≡ final.active)
    × (l'.terminal ≡ final.terminal)
finished_stays_example =
    finished_stays (LedgerCall.reserve "a" (vec 1 1 1)) final "settled"
      (run-IsValid budget history).0 a_settled

call_lem_example :
    let c = LedgerCall.settle "c" (vec 1 1 1) in
    call c final ≡ (
      if is_blank (attempt_of c)
      then (err invalid_attempt_id, final)
      else logged (decision c final))
call_lem_example = call_lem (LedgerCall.settle "c" (vec 1 1 1)) final (run-IsValid budget history).0

event_id_of_inj_example : 7 ≡ 3 + 4
event_id_of_inj_example = event_id_of_inj 7 (3 + 4) refl
