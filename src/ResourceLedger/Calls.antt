-- ===== src/ResourceLedger/Calls.antt =====
-- What a call of the resource ledger does, on every branch, and the invariant along any history.
use finite_agent_physics.Prelude.{
  ℕ, String, ◌≡◌, refl, ◌∙◌, ◌>>=◌, >>=_ok, inl, inr, true, false, Option, none, some, arith,
  lookup, is_blank, if◌then◌else◌, err, Bool-cases, Option-cases,
}
use finite_agent_physics.ResourceLedger.Vector.{
  invalid_attempt_id, ResourceVector, add, fits_within, fits_within_iff, add-Fits, Fits-add,
}
use finite_agent_physics.ResourceLedger.Events.{LedgerCall}
use finite_agent_physics.ResourceLedger.Budget.{
  ResourceBudgetLedger, reserve, reserve_against, snapshot, settle, settle_reservation, cancel,
  cancel_reservation, call,
}
use finite_agent_physics.ResourceLedger.Invariant.{IsValid, record_event_lem, snapshot_lem, view}
use finite_agent_physics.ResourceLedger.Decisions.{
  attempt_of, available, decide_reserve, decide_settle, decide_cancel, decision, decided_event,
  logged,
}
use finite_agent_physics.ResourceLedger.Preservation.{hold-IsValid, refuse-IsValid, close-IsValid}

view-available : (n : ℕ) (l : ResourceBudgetLedger) → (view n l).available ≡ available l
unfolding view
view-available n l = refl

module _ (a : String) (l : ResourceBudgetLedger) (v : IsValid l) where
  reserve_against_decided :
      (r : ResourceVector)
      → lookup a l.active ≡ none
      → lookup a l.terminal ≡ none
      → (snapshot >>= reserve_against a r) l ≡ logged (decide_reserve a r l)
  unfolding reserve_against decide_reserve decided_event
  reserve_against_decided r new open_attempt =
      >>=_ok snapshot (reserve_against a r) (snapshot_lem l v.fits)
      ∙ rw (new, open_attempt, view-available)
          (elim (Bool-cases (fits_within r (available l))) [
            | inl e ↦
                let v' = hold-IsValid a l v r new open_attempt ((fits_within_iff _ _).0 e) in
                rw e (record_event_lem _ v'.fits _ _ _ _ _ _)
            | inr e ↦
                let v' = refuse-IsValid a l v "reservation_refused" new in
                rw e (record_event_lem _ v'.fits _ _ _ _ _ _)
          ])

  reserve_decided :
      (r : ResourceVector) → is_blank a ≡ false → reserve a r l ≡ logged (decide_reserve a r l)
  unfolding reserve decide_reserve decided_event
  reserve_decided r h = elim (Option-cases (lookup a l.active)) [
    | inr (q, e) ↦ rw (h, e) (record_event_lem l v.fits _ _ _ _ _ _)
    | inl new ↦ elim (Option-cases (lookup a l.terminal)) [
      | inr (q, e) ↦ rw (h, new, e) (record_event_lem l v.fits _ _ _ _ _ _)
      | inl open_attempt ↦ ground (arith, reserve_against_decided r new open_attempt)
    ]
  ]

  settle_decided :
      (x : ResourceVector) (o : Option ResourceVector)
      → lookup a l.active ≡ o
      → settle_reservation a x o l ≡ logged (decide_settle a x l o)
  unfolding settle_reservation decide_settle decided_event
  settle_decided x none e = record_event_lem l v.fits _ _ _ _ _ _
  settle_decided x (some r) e = elim (Bool-cases (fits_within x r)) [
    | inl f ↦
        let v' =
          close-IsValid a l v "settled" r (add l.spent x) e
            (add-Fits l.spent x r ((fits_within_iff _ _).0 f)) in
        rw f (record_event_lem _ v'.fits _ _ _ _ _ _)
    | inr f ↦ rw f (record_event_lem l v.fits _ _ _ _ _ _)
  ]

  cancel_decided :
      (o : Option ResourceVector)
      → lookup a l.active ≡ o
      → cancel_reservation a o l ≡ logged (decide_cancel a l o)
  unfolding cancel_reservation decide_cancel decided_event
  cancel_decided none e = record_event_lem l v.fits _ _ _ _ _ _
  cancel_decided (some r) e =
      let v' = close-IsValid a l v "cancelled" r l.spent e (Fits-add l.spent r) in
      record_event_lem _ v'.fits _ _ _ _ _ _

blank_reserve :
    (a : String) (r : ResourceVector) (l : ResourceBudgetLedger)
    → is_blank a ≡ true
    → reserve a r l ≡ (err invalid_attempt_id, l)
unfolding reserve
blank_reserve a r l h = rw h

-- On a valid ledger a call with a blank attempt id raises and changes nothing, and any other
-- returns and leaves what its decision says.
pub call_lem :
    (c : LedgerCall) (l : ResourceBudgetLedger)
    → IsValid l
    → call c l
      ≡ (if is_blank (attempt_of c) then (err invalid_attempt_id, l) else logged (decision c l))
unfolding call settle cancel decision
call_lem (LedgerCall.reserve a r) l v = elim (Bool-cases (is_blank a)) [
  | inl h ↦ rw h (blank_reserve a r l h)
  | inr h ↦ rw h (reserve_decided a l v r h)
]
call_lem (LedgerCall.settle a x) l v = elim (Bool-cases (is_blank a)) [
  | inl h ↦ rw h
  | inr h ↦ rw h (settle_decided a l v x _ refl)
]
call_lem (LedgerCall.cancel a) l v = elim (Bool-cases (is_blank a)) [
  | inl h ↦ rw h
  | inr h ↦ rw h (cancel_decided a l v _ refl)
]
