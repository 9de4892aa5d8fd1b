-- ===== src/ResourceLedger/Preservation.antt =====
-- Every decision of the resource ledger keeps conservation and identity.
use finite_agent_physics.Prelude.{
  String, ◌≡◌, refl, inl, inr, Option, none, some, lookup, insert, erase, Bool-cases, Option-cases,
  String-cases, lookup-insert, lookup-erase, insert-IsDict, erase-IsDict, =ˢ_refl, =ˢ_ne,
}
use finite_agent_physics.ResourceLedger.Vector.{
  ResourceVector, add, fits_within, Fits, fits_within_iff, difference-Fits, sum_resources-erase,
  sum_resources-insert_new, add_assoc, release-Fits, add-Fits, Fits-add,
}
use finite_agent_physics.ResourceLedger.Events.{LedgerCall}
use finite_agent_physics.ResourceLedger.Budget.{ResourceBudgetLedger}
use finite_agent_physics.ResourceLedger.Invariant.{IsValid, committed}
use finite_agent_physics.ResourceLedger.Decisions.{
  available, decide_reserve, decide_settle, decide_cancel, decision,
}

module _ (a : String) (l : ResourceBudgetLedger) (v : IsValid l) where
  -- A new reservation that fits is held.
  pub hold-IsValid :
      (r : ResourceVector)
      → lookup a l.active ≡ none
      → lookup a l.terminal ≡ none
      → Fits r (available l)
      → IsValid (record l { active = insert a r l.active })
  hold-IsValid r new open_attempt h = record {
    fits =
        rw (sum_resources-insert_new a r l.active new, ← add_assoc)
          (difference-Fits l.capacity (committed l.spent l.active) r v.fits h);
    active_keys = insert-IsDict a r l.active v.active_keys;
    terminal_keys = v.terminal_keys;
    disjoint = λ k. elim (String-cases k a) [
      | inl e ↦ inr (rw e open_attempt)
      | inr e ↦ rw (lookup-insert, =ˢ_ne k a e) (v.disjoint k)
    ];
  }

  -- A refused reservation ends the attempt.
  pub refuse-IsValid :
      (t : String)
      → lookup a l.active ≡ none
      → IsValid (record l { terminal = insert a t l.terminal })
  refuse-IsValid t new = record {
    fits = v.fits;
    active_keys = v.active_keys;
    terminal_keys = insert-IsDict a t l.terminal v.terminal_keys;
    disjoint = λ k. elim (String-cases k a) [
      | inl e ↦ inl (rw e new)
      | inr e ↦ rw (lookup-insert, =ˢ_ne k a e) (v.disjoint k)
    ];
  }

  -- An attempt ends, and no more is spent than was held.
  pub close-IsValid :
      (t : String) (r spent : ResourceVector)
      → lookup a l.active ≡ some r
      → Fits spent (add l.spent r)
      → IsValid
          (record l { spent = spent; active = erase a l.active; terminal = insert a t l.terminal })
  close-IsValid t r spent held h = record {
    fits =
        release-Fits l.capacity l.spent spent r _ _ h (sum_resources-erase a r l.active held)
          v.fits;
    active_keys = erase-IsDict a l.active v.active_keys;
    terminal_keys = insert-IsDict a t l.terminal v.terminal_keys;
    disjoint = λ k. elim (String-cases k a) [
      | inl e ↦ inl (rw (lookup-erase k a l.active v.active_keys, e, =ˢ_refl a) refl)
      | inr e ↦
          rw (lookup-erase k a l.active v.active_keys, lookup-insert, =ˢ_ne k a e) (v.disjoint k)
    ];
  }

  decide_reserve-IsValid : (r : ResourceVector) → IsValid (decide_reserve a r l).after
  unfolding decide_reserve
  decide_reserve-IsValid r = elim (Option-cases (lookup a l.active)) [
    | inr (q, e) ↦ rw e v
    | inl new ↦ elim (Option-cases (lookup a l.terminal)) [
      | inr (q, e) ↦ rw (new, e) v
      | inl open_attempt ↦ elim (Bool-cases (fits_within r (available l))) [
        | inl e ↦
            rw (new, open_attempt, e) (hold-IsValid r new open_attempt ((fits_within_iff _ _).0 e))
        | inr e ↦ rw (new, open_attempt, e) (refuse-IsValid "reservation_refused" new)
      ]
    ]
  ]

  decide_settle-IsValid :
      (x : ResourceVector) (o : Option ResourceVector)
      → lookup a l.active ≡ o
      → IsValid (decide_settle a x l o).after
  unfolding decide_settle
  decide_settle-IsValid x none e = v
  decide_settle-IsValid x (some r) e = elim (Bool-cases (fits_within x r)) [
    | inl f ↦ rw f (
        close-IsValid "settled" r (add l.spent x) e
          (add-Fits l.spent x r ((fits_within_iff _ _).0 f)))
    | inr f ↦ rw f v
  ]

  decide_cancel-IsValid :
      (o : Option ResourceVector) → lookup a l.active ≡ o → IsValid (decide_cancel a l o).after
  unfolding decide_cancel
  decide_cancel-IsValid none e = v
  decide_cancel-IsValid (some r) e = close-IsValid "cancelled" r l.spent e (Fits-add l.spent r)

pub decision-IsValid :
    (c : LedgerCall) (l : ResourceBudgetLedger) → IsValid l → IsValid (decision c l).after
unfolding decision
decision-IsValid (LedgerCall.reserve a r) l v = decide_reserve-IsValid a l v r
decision-IsValid (LedgerCall.settle a x) l v = decide_settle-IsValid a l v x _ refl
decision-IsValid (LedgerCall.cancel a) l v = decide_cancel-IsValid a l v _ refl
