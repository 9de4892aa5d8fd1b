-- ===== src/ResourceLedger/Audit.antt =====
-- How the outcome that the replay expects of an event relates to the decision of the ledger.
use finite_agent_physics.Prelude.{
  ℕ, String, ◌≡◌, refl, ◌⊎◌, ◌-◌, subst, Option, none, some, lookup, arith, inl, inr,
}
use finite_agent_physics.ResourceLedger.Vector.{
  ResourceVector, difference, subtract-Fits, fits_within_iff, Fits,
}
use finite_agent_physics.ResourceLedger.Events.{LedgerOperation, LedgerCall}
use finite_agent_physics.ResourceLedger.Budget.{ResourceBudgetLedger, absent_reason}
use finite_agent_physics.ResourceLedger.Invariant.{IsValid, committed, view}
use finite_agent_physics.ResourceLedger.Decisions.{
  Decision, attempt_of, decide_reserve, decide_settle, decide_cancel, decision,
}
use finite_agent_physics.ResourceLedger.Replay.{
  Accounts, Expected, expect, expect_reserve, expect_settle, expect_cancel, expected_reservation,
  snapshot_from_replay, available_from, refused,
}

abbrev pub accounts_of : ResourceBudgetLedger → Accounts
accounts_of l = record { spent = l.spent; active = l.active; terminal = l.terminal }

abbrev pub expected_of : Decision → Expected
expected_of d = record { applied = d.applied; reason = d.reason; after = accounts_of d.after }

pub available_from-Fits : (c k : ResourceVector) → Fits k c → available_from c k ≡ difference c k
unfolding available_from
available_from-Fits c k h = ground (arith, fits_within_iff k c, subtract-Fits c k h)

module _ (l : ResourceBudgetLedger) (v : IsValid l) where
  pub snapshot_from_replay_lem :
      (n : ℕ) → snapshot_from_replay l.capacity (accounts_of l) n ≡ view n l
  unfolding snapshot_from_replay view
  snapshot_from_replay_lem n =
      ground (arith, available_from-Fits l.capacity (committed l.spent l.active) v.fits)

  expect_reserve_lem :
      (n : ℕ) (a : String) (r : ResourceVector)
      → expect_reserve l.capacity n (accounts_of l) a none (some r)
        ≡ expected_of (decide_reserve a r l)
  unfolding expect_reserve decide_reserve
  expect_reserve_lem n a r =
      ground (arith, available_from-Fits l.capacity (committed l.spent l.active) v.fits)

expect_settle_lem :
    (l : ResourceBudgetLedger) (a : String) (x : ResourceVector) (o : Option ResourceVector)
    → expect_settle (accounts_of l) a (some x) o ≡ expected_of (decide_settle a x l o)
unfolding expect_settle decide_settle absent_reason
expect_settle_lem l a x none = refl
expect_settle_lem l a x (some r) = ground arith

expect_cancel_lem :
    (l : ResourceBudgetLedger) (a : String) (o : Option ResourceVector)
    → expect_cancel (accounts_of l) a none o ≡ expected_of (decide_cancel a l o)
unfolding expect_cancel decide_cancel absent_reason
expect_cancel_lem l a none = refl
expect_cancel_lem l a (some r) = refl

-- An event that records the call `c` is expected to have the outcome of the ledger's decision.
pub record Agrees (o : LedgerOperation) (a : String) (r x : Option ResourceVector) (n : ℕ)
    (l : ResourceBudgetLedger) (d : Decision) : Type 0 where
  pub outcome : expect l.capacity n (accounts_of l) o a r x ≡ expected_of d
  pub operation : o ≡ d.operation
  pub attempt : a ≡ d.attempt_id
  pub actual : x ≡ d.actual
  pub reservation : expected_reservation o a r (accounts_of l) ≡ d.reservation

Agrees-self :
    {o : LedgerOperation} {a : String} {x : Option ResourceVector} {n : ℕ}
    {l : ResourceBudgetLedger} {d : Decision}
    → Agrees o a d.reservation x n l d
    → Agrees d.operation d.attempt_id d.reservation d.actual n l d
Agrees-self {o} {a} {x} {n} {l} {d} g =
    subst (λ o'. Agrees o' d.attempt_id d.reservation d.actual n l d) g.operation
      (subst (λ a'. Agrees o a' d.reservation d.actual n l d) g.attempt
        (subst (λ x'. Agrees o a d.reservation x' n l d) g.actual g))

decide_reserve_inputs :
    (a : String) (r : ResourceVector) (l : ResourceBudgetLedger)
    → let d = decide_reserve a r l in
      (LedgerOperation.reserve ≡ d.operation)
      × (a ≡ d.attempt_id)
      × (none ≡ d.actual)
      × (some r ≡ d.reservation)
unfolding decide_reserve
decide_reserve_inputs a r l = ground arith

decide_settle_inputs :
    (a : String) (x : ResourceVector) (l : ResourceBudgetLedger) (o : Option ResourceVector)
    → let d = decide_settle a x l o in
      (LedgerOperation.settle ≡ d.operation)
      × (a ≡ d.attempt_id)
      × (some x ≡ d.actual)
      × (o ≡ d.reservation)
unfolding decide_settle
decide_settle_inputs a x l none = (refl, refl, refl, refl)
decide_settle_inputs a x l (some r) = ground arith

decide_cancel_inputs :
    (a : String) (l : ResourceBudgetLedger) (o : Option ResourceVector)
    → let d = decide_cancel a l o in
      (LedgerOperation.cancel ≡ d.operation)
      × (a ≡ d.attempt_id)
      × (none ≡ d.actual)
      × (o ≡ d.reservation)
unfolding decide_cancel
decide_cancel_inputs a l none = (refl, refl, refl, refl)
decide_cancel_inputs a l (some r) = (refl, refl, refl, refl)

module _ (n : ℕ) (l : ResourceBudgetLedger) (v : IsValid l) where
  pub reserve-Agrees :
      (a : String) (r : ResourceVector)
      → Agrees LedgerOperation.reserve a (some r) none n l (decision (LedgerCall.reserve a r) l)
  unfolding expect decision
  reserve-Agrees a r =
      let (o, i, x, q) = decide_reserve_inputs a r l in
      record {
        outcome = expect_reserve_lem l v (n - 1) a r;
        operation = o;
        attempt = i;
        actual = x;
        reservation = q;
      }

  pub settle-Agrees :
      (a : String) (r : Option ResourceVector) (x : ResourceVector)
      → Agrees LedgerOperation.settle a r (some x) n l (decision (LedgerCall.settle a x) l)
  unfolding expect decision
  settle-Agrees a r x =
      let (o, i, y, q) = decide_settle_inputs a x l (lookup a l.active) in
      record {
        outcome = expect_settle_lem l a x (lookup a l.active);
        operation = o;
        attempt = i;
        actual = y;
        reservation = q;
      }

  pub cancel-Agrees :
      (a : String) (r : Option ResourceVector)
      → Agrees LedgerOperation.cancel a r none n l (decision (LedgerCall.cancel a) l)
  unfolding expect decision
  cancel-Agrees a r =
      let (o, i, y, q) = decide_cancel_inputs a l (lookup a l.active) in
      record {
        outcome = expect_cancel_lem l a (lookup a l.active);
        operation = o;
        attempt = i;
        actual = y;
        reservation = q;
      }

  -- The events that the ledger logs.
  pub decision-Agrees :
      (c : LedgerCall)
      → let d = decision c l in Agrees d.operation d.attempt_id d.reservation d.actual n l d
  decision-Agrees (LedgerCall.reserve a r) =
      let d = decision (LedgerCall.reserve a r) l in
      let g = reserve-Agrees a r in
      Agrees-self (subst (λ q. Agrees LedgerOperation.reserve a q none n l d) g.reservation g)
  decision-Agrees (LedgerCall.settle a x) = Agrees-self (settle-Agrees a _ x)
  decision-Agrees (LedgerCall.cancel a) = Agrees-self (cancel-Agrees a _)

  -- Any event that the replay does not count as malformed or unknown records some call.
  pub recorded_call :
      (o : LedgerOperation) (a : String) (r x : Option ResourceVector)
      → ((expect l.capacity n (accounts_of l) o a r x ≡ refused "malformed_input" (accounts_of l)))
        ⊎ ((c : LedgerCall) × (attempt_of c ≡ a) × Agrees o a r x n l (decision c l))
        ⊎ ((t : String) × (o ≡ LedgerOperation.unknown t))
  unfolding expect expect_reserve expect_settle expect_cancel
  recorded_call LedgerOperation.reserve a (some r) none =
      inr (inl (LedgerCall.reserve a r, refl, reserve-Agrees a r))
  recorded_call LedgerOperation.reserve a (some r) (some x) = inl refl
  recorded_call LedgerOperation.reserve a none (some x) = inl refl
  recorded_call LedgerOperation.reserve a none none = inl refl
  recorded_call LedgerOperation.settle a r (some x) =
      inr (inl (LedgerCall.settle a x, refl, settle-Agrees a r x))
  recorded_call LedgerOperation.settle a r none = inl refl
  recorded_call LedgerOperation.cancel a r none =
      inr (inl (LedgerCall.cancel a, refl, cancel-Agrees a r))
  recorded_call LedgerOperation.cancel a r (some x) = inl refl
  recorded_call (LedgerOperation.unknown t) a r x = inr (inr (t, refl))
