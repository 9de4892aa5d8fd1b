-- ===== src/ResourceLedger/Budget.antt =====
-- `ResourceBudgetLedger` of resource_ledger.py, method by method. A method returns its result or
-- raises, and leaves the object that it has mutated so far.
use finite_agent_physics.Prelude.{
  ℕ, ◌+◌, String, Bool, true, false, not, ◌||◌, Option, none, some, List, [], ◌∷◌, ◌++◌, Dict,
  lookup, contains, insert, erase, values, is_blank, length, if◌then◌else◌, Action, pure, gets,
  lift, modify, raise_if, ◌>>=◌, ◌>>◌,
}
use finite_agent_physics.ResourceLedger.Vector.{
  LedgerError, invalid_attempt_id, conservation_failure, ResourceVector, vector_zero, add, subtract,
  fits_within, sum_resources,
}
use finite_agent_physics.ResourceLedger.Events.{
  LedgerOperation, BudgetSnapshot, LedgerEvent, LedgerCall, event_id_of,
}

pub record ResourceBudgetLedger : Type 0 where
  pub capacity : ResourceVector
  pub spent : ResourceVector
  pub active : Dict ResourceVector
  pub terminal : Dict String
  pub events : List LedgerEvent

abbrev pub Ledger : Type 0 → Type 0
Ledger A = Action ResourceBudgetLedger LedgerError A

-- `__init__`
unfoldable pub new_ledger : ResourceVector → ResourceBudgetLedger
new_ledger capacity = record {
  capacity = capacity;
  spent = vector_zero;
  active = [];
  terminal = [];
  events = [];
}

unfoldable pub reservation_for : String → ResourceBudgetLedger → Option ResourceVector
reservation_for attempt_id l = lookup attempt_id l.active

-- `_snapshot`
unfoldable pub snapshot_at : ℕ → Ledger BudgetSnapshot
snapshot_at last_sequence = do
  l ← gets (λ l. l)
  let held = sum_resources (values l.active)
  let committed = add l.spent held
  raise_if (not (fits_within committed l.capacity)) conservation_failure
  available ← lift (subtract l.capacity committed)
  pure (record {
    capacity = l.capacity;
    spent = l.spent;
    held = held;
    available = available;
    active_attempts = length l.active;
    terminal_attempts = length l.terminal;
    last_sequence = last_sequence;
  })

unfoldable pub snapshot : Ledger BudgetSnapshot
unfolding snapshot_at
snapshot = do l ← gets (λ l. l); snapshot_at (length l.events)

-- `_record`
unfoldable pub record_event :
    LedgerOperation
    → String
    → Option ResourceVector
    → Option ResourceVector
    → Bool
    → Option String
    → Ledger LedgerEvent
record_event operation attempt_id reservation actual applied reason = do
  l ← gets (λ l. l)
  let sequence = length l.events + 1
  post_snapshot ← snapshot_at sequence
  let event : LedgerEvent = record {
    sequence = sequence;
    event_id = event_id_of sequence;
    operation = operation;
    attempt_id = attempt_id;
    reservation = reservation;
    actual = actual;
    applied = applied;
    reason = reason;
    post_snapshot = post_snapshot;
  }
  modify (λ l. record l { events = l.events ++ event ∷ [] })
  pure event

-- `_validate_attempt_id`
unfoldable pub validate_attempt_id : String → Ledger (Unit {0})
validate_attempt_id attempt_id = raise_if (is_blank attempt_id) invalid_attempt_id

-- `reserve`, for an attempt id that is not known yet, given the snapshot.
unfoldable pub reserve_against : String → ResourceVector → BudgetSnapshot → Ledger LedgerEvent
reserve_against attempt_id requested before =
    if not (fits_within requested before.available)
    then (do
      modify (λ l. record l { terminal = insert attempt_id "reservation_refused" l.terminal })
      record_event LedgerOperation.reserve attempt_id (some requested) none false
          (some "capacity_exceeded"))
    else (do
      modify (λ l. record l { active = insert attempt_id requested l.active })
      record_event LedgerOperation.reserve attempt_id (some requested) none true none)

unfoldable pub reserve : String → ResourceVector → Ledger LedgerEvent
unfolding validate_attempt_id reserve_against
reserve attempt_id requested = do
  validate_attempt_id attempt_id
  l ← gets (λ l. l)
  if contains attempt_id l.active || contains attempt_id l.terminal
      then record_event LedgerOperation.reserve attempt_id (some requested) none false
          (some "identity_conflict")
      else (snapshot >>= reserve_against attempt_id requested)

-- The reason of a refusal for an attempt that holds no reservation.
unfoldable pub absent_reason : String → ResourceBudgetLedger → String
absent_reason attempt_id l =
    if contains attempt_id l.terminal then "terminal_attempt" else "unknown_attempt"

-- `settle`, once the reservation has been looked up.
unfoldable pub settle_reservation :
    String → ResourceVector → Option ResourceVector → Ledger LedgerEvent
unfolding absent_reason
settle_reservation attempt_id actual none = do
  l ← gets (λ l. l)
  record_event LedgerOperation.settle attempt_id none (some actual) false
      (some (absent_reason attempt_id l))
settle_reservation attempt_id actual (some reservation) =
    if not (fits_within actual reservation)
    then record_event LedgerOperation.settle attempt_id (some reservation) (some actual) false
        (some "actual_over_reservation")
    else (do
      modify (λ l. record l { spent = add l.spent actual })
      modify (λ l. record l { active = erase attempt_id l.active })
      modify (λ l. record l { terminal = insert attempt_id "settled" l.terminal })
      record_event LedgerOperation.settle attempt_id (some reservation) (some actual) true none)

unfoldable pub settle : String → ResourceVector → Ledger LedgerEvent
unfolding settle_reservation reservation_for validate_attempt_id
settle attempt_id actual = do
  validate_attempt_id attempt_id
  reservation ← gets (reservation_for attempt_id)
  settle_reservation attempt_id actual reservation

-- `cancel`, once the reservation has been looked up.
unfoldable pub cancel_reservation : String → Option ResourceVector → Ledger LedgerEvent
unfolding absent_reason
cancel_reservation attempt_id none = do
  l ← gets (λ l. l)
  record_event LedgerOperation.cancel attempt_id none none false (some (absent_reason attempt_id l))
cancel_reservation attempt_id (some reservation) = do
  modify (λ l. record l { active = erase attempt_id l.active })
  modify (λ l. record l { terminal = insert attempt_id "cancelled" l.terminal })
  record_event LedgerOperation.cancel attempt_id (some reservation) none true none

unfoldable pub cancel : String → Ledger LedgerEvent
unfolding cancel_reservation reservation_for validate_attempt_id
cancel attempt_id = do
  validate_attempt_id attempt_id
  reservation ← gets (reservation_for attempt_id)
  cancel_reservation attempt_id reservation

-- A caller that makes one call after another, and goes on after a raise.
unfoldable pub call : LedgerCall → Ledger LedgerEvent
call (LedgerCall.reserve a r) = reserve a r
call (LedgerCall.settle a r) = settle a r
call (LedgerCall.cancel a) = cancel a

unfoldable pub run : List LedgerCall → ResourceBudgetLedger → ResourceBudgetLedger
unfolding call
run [] l = l
run (c ∷ cs) l = run cs (call c l).1
