-- ===== src/ResourceLedger/Invariant.antt =====
-- The invariant of the resource ledger, and what its private methods do under it.
use finite_agent_physics.Prelude.{
  ℕ, ◌+◌, String, ◌≡◌, refl, ◌⊎◌, inl, Bool, Option, none, [], ◌∷◌, ◌++◌, arith, Dict, IsDict,
  lookup, values, length, ok,
}
use finite_agent_physics.ResourceLedger.Vector.{
  ResourceVector, vector_zero, add, difference, Fits, fits_within_iff, subtract-Fits, sum_resources,
  sum_resources-nil, add-zero,
}
use finite_agent_physics.ResourceLedger.Events.{
  LedgerOperation, BudgetSnapshot, LedgerEvent, event_id_of,
}
use finite_agent_physics.ResourceLedger.Budget.{
  ResourceBudgetLedger, new_ledger, snapshot_at, snapshot, record_event,
}

-- What is spent and what is held.
abbrev pub committed : ResourceVector → Dict ResourceVector → ResourceVector
committed spent active = add spent (sum_resources (values active))

-- Conservation: spent and held amounts stay within the capacity. Identity: no attempt is listed
-- twice, and none is both active and terminal.
pub record IsValid (l : ResourceBudgetLedger) : Type 0 where
  pub fits : Fits (committed l.spent l.active) l.capacity
  pub active_keys : IsDict l.active
  pub terminal_keys : IsDict l.terminal
  pub disjoint : (k : String) → (lookup k l.active ≡ none) ⊎ (lookup k l.terminal ≡ none)

-- The snapshot of a ledger that conserves its capacity.
unfoldable pub view : ℕ → ResourceBudgetLedger → BudgetSnapshot
view n l = record {
  capacity = l.capacity;
  spent = l.spent;
  held = sum_resources (values l.active);
  available = difference l.capacity (committed l.spent l.active);
  active_attempts = length l.active;
  terminal_attempts = length l.terminal;
  last_sequence = n;
}

-- The event that `_record` appends to a ledger, and the ledger with that event.
unfoldable pub event_at :
    LedgerOperation
    → String
    → Option ResourceVector
    → Option ResourceVector
    → Bool
    → Option String
    → ResourceBudgetLedger
    → LedgerEvent
event_at operation attempt_id reservation actual applied reason l = record {
  sequence = length l.events + 1;
  event_id = event_id_of (length l.events + 1);
  operation = operation;
  attempt_id = attempt_id;
  reservation = reservation;
  actual = actual;
  applied = applied;
  reason = reason;
  post_snapshot = view (length l.events + 1) l;
}

abbrev pub append_event : LedgerEvent → ResourceBudgetLedger → ResourceBudgetLedger
append_event e l = record l { events = l.events ++ e ∷ [] }

module _ (l : ResourceBudgetLedger) (fits : Fits (committed l.spent l.active) l.capacity) where
  pub snapshot_at_lem : (n : ℕ) → snapshot_at n l ≡ (ok (view n l), l)
  unfolding snapshot_at view
  snapshot_at_lem n = ground (
    arith,
    fits_within_iff (committed l.spent l.active) l.capacity,
    subtract-Fits l.capacity (committed l.spent l.active) fits,
  )

  pub snapshot_lem : snapshot l ≡ (ok (view (length l.events) l), l)
  unfolding snapshot
  snapshot_lem = snapshot_at_lem (length l.events)

  pub record_event_lem :
      (o : LedgerOperation) (a : String) (r x : Option ResourceVector) (b : Bool)
      (why : Option String)
      → let e = event_at o a r x b why l in record_event o a r x b why l ≡ (ok e, append_event e l)
  unfolding record_event event_at
  record_event_lem o a r x b why = ground (arith, snapshot_at_lem (length l.events + 1))

pub new_ledger-IsValid : (capacity : ResourceVector) → IsValid (new_ledger capacity)
unfolding new_ledger lookup
new_ledger-IsValid capacity = record {
  fits = rw (sum_resources-nil, add-zero vector_zero) (omega arith);
  active_keys = tt;
  terminal_keys = tt;
  disjoint = λ k. inl refl;
}
