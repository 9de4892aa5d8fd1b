-- ===== src/ResourceLedger/Accounting.antt =====
-- How a call of the resource ledger moves the budget, and that a finished attempt stays finished.
use finite_agent_physics.Prelude.{
  [], ◌∷◌, ◌++◌, String, ◌≡◌, refl, ap, sym, ◌∙◌, Bool, true, false, Option, none, some, is_blank,
  inl, inr, Bool-cases, Option-cases, ok, Result, lookup, lookup-insert, lookup-erase, =ˢ_refl,
  insert, erase,
}
use finite_agent_physics.ResourceLedger.Vector.{
  LedgerError, ResourceVector, vector_zero, add-zero, add-Fits, Fits-add, available_moves,
  hold_moves, release_moves, refund_moves, add, fits_within, fits_within_iff, Fits,
  sum_resources-insert_new, sum_resources-erase,
}
use finite_agent_physics.ResourceLedger.Events.{LedgerEvent, LedgerCall}
use finite_agent_physics.ResourceLedger.Budget.{ResourceBudgetLedger, call}
use finite_agent_physics.ResourceLedger.Invariant.{IsValid, committed, event_at, append_event}
use finite_agent_physics.ResourceLedger.Decisions.{
  Decision, logged, attempt_of, available, decision, decide_reserve, decide_settle, decide_cancel,
  decided_event,
}
use finite_agent_physics.ResourceLedger.Preservation.{hold-IsValid, close-IsValid}
use finite_agent_physics.ResourceLedger.Calls.{call_lem}
use finite_agent_physics.ResourceLedger.Genuine.{decision_frame}

-- What an applied call does to the budget: `before` and `after` are the ledgers around it.
abbrev pub Moves : LedgerCall → ResourceBudgetLedger → ResourceBudgetLedger → Type 0
Moves (LedgerCall.reserve a r) before after =
    (after.spent ≡ before.spent)
    × (add (available after) r ≡ available before)
    × (lookup a after.active ≡ some r)
Moves (LedgerCall.settle a x) before after =
    (r : ResourceVector) × (lookup a before.active ≡ some r)
    × Fits x r
    × (after.spent ≡ add before.spent x)
    × (add (available after) x ≡ add (available before) r)
    × (lookup a after.active ≡ none)
    × (lookup a after.terminal ≡ some "settled")
Moves (LedgerCall.cancel a) before after =
    (r : ResourceVector) × (lookup a before.active ≡ some r)
    × (after.spent ≡ before.spent)
    × (available after ≡ add (available before) r)
    × (lookup a after.active ≡ none)
    × (lookup a after.terminal ≡ some "cancelled")

-- A refused call leaves what is spent and what is held alone.
abbrev pub Stays : ResourceBudgetLedger → ResourceBudgetLedger → Type 0
Stays before after = (after.spent ≡ before.spent) × (after.active ≡ before.active)

abbrev pub Outcome : LedgerCall → Bool → ResourceBudgetLedger → ResourceBudgetLedger → Type 0
Outcome c true before after = Moves c before after
Outcome c false before after = Stays before after

module _ (a : String) (l : ResourceBudgetLedger) (v : IsValid l) where
  reserve-Outcome :
      (r : ResourceVector)
      → let d = decide_reserve a r l in Outcome (LedgerCall.reserve a r) d.applied l d.after
  unfolding decide_reserve
  reserve-Outcome r = elim (Option-cases (lookup a l.active)) [
    | inr (q, e) ↦ rw e (refl, refl)
    | inl new ↦ elim (Option-cases (lookup a l.terminal)) [
      | inr (q, e) ↦ rw (new, e) (refl, refl)
      | inl open_attempt ↦ elim (Bool-cases (fits_within r (available l))) [
        | inr e ↦ rw (new, open_attempt, e) (refl, refl)
        | inl e ↦
            rw (new, open_attempt, e)
              (
                refl,
                available_moves l.capacity (committed l.spent l.active)
                      (committed l.spent (insert a r l.active)) vector_zero r v.fits
                      (hold-IsValid a l v r new open_attempt ((fits_within_iff _ _).0 e)).fits
                      (hold_moves l.spent _ _ r (sum_resources-insert_new a r l.active new))
                    ∙ add-zero (available l),
                rw (lookup-insert a a r l.active, =ˢ_refl a) refl,
              )
      ]
    ]
  ]

  settle-Outcome :
      (x : ResourceVector) (o : Option ResourceVector)
      → lookup a l.active ≡ o
      → let d = decide_settle a x l o in Outcome (LedgerCall.settle a x) d.applied l d.after
  unfolding decide_settle
  settle-Outcome x none e = (refl, refl)
  settle-Outcome x (some r) e = elim (Bool-cases (fits_within x r)) [
    | inr f ↦ rw f (refl, refl)
    | inl f ↦ rw f (
      r,
      e,
      (fits_within_iff x r).0 f,
      refl,
      available_moves l.capacity (committed l.spent l.active)
          (committed (add l.spent x) (erase a l.active)) r x v.fits
          (close-IsValid a l v "settled" r (add l.spent x) e
            (add-Fits l.spent x r ((fits_within_iff _ _).0 f))).fits
          (release_moves l.spent x _ _ r (sum_resources-erase a r l.active e)),
      rw (lookup-erase a a l.active v.active_keys, =ˢ_refl a) refl,
      rw (lookup-insert, =ˢ_refl a) refl,
    )
  ]

  cancel-Outcome :
      (o : Option ResourceVector)
      → lookup a l.active ≡ o
      → let d = decide_cancel a l o in Outcome (LedgerCall.cancel a) d.applied l d.after
  unfolding decide_cancel
  cancel-Outcome none e = (refl, refl)
  cancel-Outcome (some r) e = (
    r,
    e,
    refl,
    sym (add-zero _)
        ∙ available_moves l.capacity (committed l.spent l.active)
            (committed l.spent (erase a l.active)) r vector_zero v.fits
            (close-IsValid a l v "cancelled" r l.spent e (Fits-add l.spent r)).fits
            (refund_moves l.spent _ _ r (sum_resources-erase a r l.active e)),
    rw (lookup-erase a a l.active v.active_keys, =ˢ_refl a) refl,
    rw (lookup-insert, =ˢ_refl a) refl,
  )

decision-Outcome :
    (c : LedgerCall) (l : ResourceBudgetLedger)
    → IsValid l
    → Outcome c (decision c l).applied l (decision c l).after
unfolding decision
decision-Outcome (LedgerCall.reserve a r) l v = reserve-Outcome a l v r
decision-Outcome (LedgerCall.settle a x) l v = settle-Outcome a l v x _ refl
decision-Outcome (LedgerCall.cancel a) l v = cancel-Outcome a l v _ refl

-- Logging an event moves no account.
append-Outcome :
    (c : LedgerCall) (b : Bool) (e : LedgerEvent) (before after : ResourceBudgetLedger)
    → Outcome c b before after
    → Outcome c b before (append_event e after)
append-Outcome (LedgerCall.reserve a r) true e before after h = h
append-Outcome (LedgerCall.settle a r) true e before after h = h
append-Outcome (LedgerCall.cancel a) true e before after h = h
append-Outcome c false e before after h = h

-- A call with a proper attempt id returns the event that it logs. If the event says that the call
-- was applied, the budget has moved by exactly what the call reserves, settles or refunds; if not,
-- what is spent and what is held is as before.
pub call_accounting :
    (c : LedgerCall) (l : ResourceBudgetLedger)
    → IsValid l
    → is_blank (attempt_of c) ≡ false
    → (e : LedgerEvent) × ((call c l).0 ≡ ok e)
      × ((call c l).1.events ≡ l.events ++ e ∷ [])
      × Outcome c e.applied l (call c l).1
unfolding decided_event event_at
call_accounting c l v b =
    let (same_events, _, _, _) = decision_frame c l in
    rw (call_lem c l v, b)
      (
        decided_event (decision c l),
        refl,
        rw same_events refl,
        append-Outcome c _ _ _ _ (decision-Outcome c l v),
      )

finished_decision :
    (c : LedgerCall) (l : ResourceBudgetLedger) {why : String}
    → lookup (attempt_of c) l.active ≡ none
    → lookup (attempt_of c) l.terminal ≡ some why
    → (decision c l).after ≡ l
unfolding decision decide_reserve decide_settle decide_cancel
finished_decision (LedgerCall.reserve a r) l gone h = rw (gone, h)
finished_decision (LedgerCall.settle a x) l gone h = rw gone
finished_decision (LedgerCall.cancel a) l gone h = rw gone

finished_gone :
    (a : String) (l : ResourceBudgetLedger) {why : String}
    → IsValid l
    → lookup a l.terminal ≡ some why
    → lookup a l.active ≡ none
finished_gone a l v h = elim (v.disjoint a) [ inl gone ↦ gone | inr none_there ↦ cc ]

finished_refused :
    (c : LedgerCall) (l : ResourceBudgetLedger) {why : String}
    → lookup (attempt_of c) l.active ≡ none
    → lookup (attempt_of c) l.terminal ≡ some why
    → (decision c l).applied ≡ false
unfolding decision decide_reserve decide_settle decide_cancel
finished_refused (LedgerCall.reserve a r) l gone h = rw (gone, h) refl
finished_refused (LedgerCall.settle a x) l gone h = rw gone refl
finished_refused (LedgerCall.cancel a) l gone h = rw gone refl

-- The event that a call logs says what its decision says.
event_applied :
    (d : Decision) (e : LedgerEvent) → (logged d).0 ≡ ok e → d.applied ≡ false → e.applied ≡ false
unfolding decided_event event_at
event_applied d e h applied = sym (ap (λ r. r.applied) (ok_inj h)) ∙ applied
  where
    ok_inj :
        {x y : LedgerEvent} → (let r : Result LedgerError LedgerEvent = ok x in r) ≡ ok y → x ≡ y
    ok_inj p = cc

-- A finished attempt stays finished: the event of whatever is called on it later says that the call
-- was not applied, and nothing of what is spent, of what is held and of the finished attempts changes.
pub finished_stays :
    (c : LedgerCall) (l : ResourceBudgetLedger) (why : String)
    → IsValid l
    → lookup (attempt_of c) l.terminal ≡ some why
    → let (r, l') = call c l in
      ((e : LedgerEvent) → r ≡ ok e → e.applied ≡ false)
      × (l'.spent ≡ l.spent)
      × (l'.active ≡ l.active)
      × (l'.terminal ≡ l.terminal)
finished_stays c l why v h = elim (Bool-cases (is_blank (attempt_of c))) [
  | inl b ↦ rw (call_lem c l v, b) (λ e p. cc, refl, refl, refl)
  | inr b ↦
      let gone = finished_gone (attempt_of c) l v h in
      let same = finished_decision c l gone h in
      rw (call_lem c l v, b)
        (
          λ e p. event_applied (decision c l) e p (finished_refused c l gone h),
          ap (λ k. k.spent) same,
          ap (λ k. k.active) same,
          ap (λ k. k.terminal) same,
        )
]
