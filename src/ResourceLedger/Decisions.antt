-- ===== src/ResourceLedger/Decisions.antt =====
-- The outcome of each method of the ledger, on every branch, as one function of the call and the
-- ledger: which event is logged and what becomes of the accounts.
use finite_agent_physics.Prelude.{
  String, Bool, true, false, ◌||◌, Option, none, some, lookup, insert, erase, contains,
  if◌then◌else◌, Result, ok,
}
use finite_agent_physics.ResourceLedger.Vector.{
  LedgerError, ResourceVector, add, difference, fits_within,
}
use finite_agent_physics.ResourceLedger.Events.{LedgerOperation, LedgerEvent, LedgerCall}
use finite_agent_physics.ResourceLedger.Budget.{ResourceBudgetLedger, absent_reason}
use finite_agent_physics.ResourceLedger.Invariant.{committed, event_at, append_event}

pub record Decision : Type 0 where
  pub operation : LedgerOperation
  pub attempt_id : String
  pub reservation : Option ResourceVector
  pub actual : Option ResourceVector
  pub applied : Bool
  pub reason : Option String
  pub after : ResourceBudgetLedger

abbrev pub attempt_of : LedgerCall → String
attempt_of (LedgerCall.reserve a r) = a
attempt_of (LedgerCall.settle a r) = a
attempt_of (LedgerCall.cancel a) = a

abbrev pub available : ResourceBudgetLedger → ResourceVector
available l = difference l.capacity (committed l.spent l.active)

unfoldable pub decide_reserve : String → ResourceVector → ResourceBudgetLedger → Decision
decide_reserve a r l =
    if contains a l.active || contains a l.terminal
    then record {
      operation = LedgerOperation.reserve;
      attempt_id = a;
      reservation = some r;
      actual = none;
      applied = false;
      reason = some "identity_conflict";
      after = l;
    }
    else if fits_within r (available l)
    then record {
      operation = LedgerOperation.reserve;
      attempt_id = a;
      reservation = some r;
      actual = none;
      applied = true;
      reason = none;
      after = record l { active = insert a r l.active };
    }
    else record {
      operation = LedgerOperation.reserve;
      attempt_id = a;
      reservation = some r;
      actual = none;
      applied = false;
      reason = some "capacity_exceeded";
      after = record l { terminal = insert a "reservation_refused" l.terminal };
    }

unfoldable pub decide_settle :
    String → ResourceVector → ResourceBudgetLedger → Option ResourceVector → Decision
decide_settle a x l none = record {
  operation = LedgerOperation.settle;
  attempt_id = a;
  reservation = none;
  actual = some x;
  applied = false;
  reason = some (absent_reason a l);
  after = l;
}
decide_settle a x l (some r) =
    if fits_within x r
    then record {
      operation = LedgerOperation.settle;
      attempt_id = a;
      reservation = some r;
      actual = some x;
      applied = true;
      reason = none;
      after = record l {
        spent = add l.spent x;
        active = erase a l.active;
        terminal = insert a "settled" l.terminal;
      };
    }
    else record {
      operation = LedgerOperation.settle;
      attempt_id = a;
      reservation = some r;
      actual = some x;
      applied = false;
      reason = some "actual_over_reservation";
      after = l;
    }

unfoldable pub decide_cancel : String → ResourceBudgetLedger → Option ResourceVector → Decision
decide_cancel a l none = record {
  operation = LedgerOperation.cancel;
  attempt_id = a;
  reservation = none;
  actual = none;
  applied = false;
  reason = some (absent_reason a l);
  after = l;
}
decide_cancel a l (some r) = record {
  operation = LedgerOperation.cancel;
  attempt_id = a;
  reservation = some r;
  actual = none;
  applied = true;
  reason = none;
  after = record l { active = erase a l.active; terminal = insert a "cancelled" l.terminal };
}

unfoldable pub decision : LedgerCall → ResourceBudgetLedger → Decision
unfolding decide_reserve decide_settle decide_cancel
decision (LedgerCall.reserve a r) l = decide_reserve a r l
decision (LedgerCall.settle a x) l = decide_settle a x l (lookup a l.active)
decision (LedgerCall.cancel a) l = decide_cancel a l (lookup a l.active)

-- The event of a decision, whose snapshot is that of the accounts after it.
unfoldable pub decided_event : Decision → LedgerEvent
decided_event d =
    event_at d.operation d.attempt_id d.reservation d.actual d.applied d.reason d.after

abbrev pub logged : Decision → Result LedgerError LedgerEvent × ResourceBudgetLedger
logged d = (ok (decided_event d), append_event (decided_event d) d.after)
