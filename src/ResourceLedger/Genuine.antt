-- ===== src/ResourceLedger/Genuine.antt =====
-- The replay and the ledger keep step: what one logged event does to the audit.
use finite_agent_physics.Prelude.{
  ℕ, zero, suc, ◌+◌, ◌<◌, ◌≡◌, refl, ap, sym, ◌∙◌, subst, ◌≢◌, false, some, List, [], ◌∷◌, arith,
  is_blank, inl, inr, length, length-append, Bool-cases,
}
use finite_agent_physics.ResourceLedger.Vector.{Fits}
use finite_agent_physics.ResourceLedger.Events.{
  LedgerEvent, LedgerCall, event_id_of, event_id_of_inj, codes_eq, codes_eq_iff,
}
use finite_agent_physics.ResourceLedger.Budget.{ResourceBudgetLedger}
use finite_agent_physics.ResourceLedger.Invariant.{IsValid, view, event_at, append_event, committed}
use finite_agent_physics.ResourceLedger.Decisions.{Decision, attempt_of, decision, decided_event}
use finite_agent_physics.ResourceLedger.Preservation.{decision-IsValid}
use finite_agent_physics.ResourceLedger.Replay.{
  Expected, ReplayState, elem_codes, replay_step, is_unknown, expect, snapshot_from_replay,
}
use finite_agent_physics.ResourceLedger.Audit.{
  accounts_of, expected_of, Agrees, decision-Agrees, recorded_call, snapshot_from_replay_lem,
}
use finite_agent_physics.ResourceLedger.Checks.{Passes, no_failures_iff}
use native.Mathlib.Numerals.{add-one}

-- The identifiers of the first `n` events, the last one first.
unfoldable pub ids : ℕ → List (List ℕ)
ids zero = []
ids (suc n) = event_id_of (suc n) ∷ ids n

ids_fresh : (n m : ℕ) → n < m → elem_codes (event_id_of m) (ids n) ≡ false
unfolding elem_codes ids
ids_fresh zero m h = refl
ids_fresh (suc n) m h = elim (Bool-cases (codes_eq (event_id_of m) (event_id_of (suc n)))) [
  | inl same ↦ let e = event_id_of_inj m (suc n) ((codes_eq_iff _ _).0 same) in absurd (omega arith)
  | inr other ↦ rw other (ids_fresh n m (omega arith))
]

-- The state of an audit that has gone through the events of a ledger and found no fault.
unfoldable pub state_of : ResourceBudgetLedger → ReplayState
state_of l = record {
  accounts = accounts_of l;
  seen_event_ids = ids (length l.events);
  failures = [];
}

-- What no decision touches, and what it takes over from the call.
pub decision_frame :
    (c : LedgerCall) (l : ResourceBudgetLedger)
    → let d = decision c l in
      (d.after.events ≡ l.events)
      × (d.after.capacity ≡ l.capacity)
      × (d.attempt_id ≡ attempt_of c)
      × (is_unknown d.operation ≡ false)
unfolding decision
decision_frame (LedgerCall.reserve a r) l = ground arith
decision_frame (LedgerCall.settle a x) l = ground arith
decision_frame (LedgerCall.cancel a) l = ground arith

module _ (l : ResourceBudgetLedger) (v : IsValid l) (c : LedgerCall) where
  abbrev d : Decision
  d = decision c l

  replayed_view :
      view (length d.after.events + 1) d.after
      ≡ snapshot_from_replay l.capacity (accounts_of d.after) (length l.events + 1)
  replayed_view =
      let (same_events, same_capacity, _, _) = decision_frame c l in
      cc (
        same_events,
        same_capacity,
        snapshot_from_replay_lem d.after (decision-IsValid c l v) (length l.events + 1),
      )

  genuine-Passes :
      is_blank (attempt_of c) ≡ false
      → Passes l.capacity (length l.events + 1) (state_of l) (decided_event d) (expected_of d)
  unfolding state_of decided_event event_at
  genuine-Passes h =
      let (same_events, same_capacity, attempt, known) = decision_frame c l in
      let g = decision-Agrees (length l.events + 1) l v c in
      let v' = decision-IsValid c l v in
      record {
        named = rw attempt h;
        ordered = rw same_events refl;
        identified = rw same_events refl;
        fresh = rw same_events (ids_fresh (length l.events) (length l.events + 1) (omega arith));
        known = known;
        reserved = sym g.reservation;
        applied = refl;
        reason = refl;
        snapshot = replayed_view;
        capped = subst (λ k. Fits (committed d.after.spent d.after.active) k) same_capacity v'.fits;
      }

  -- The outcome that the replay derives for the logged event.
  abbrev derived : LedgerEvent → Expected
  derived e =
      expect l.capacity (length l.events + 1) (accounts_of l) e.operation e.attempt_id e.reservation
        e.actual

  derived_outcome : derived (decided_event d) ≡ expected_of d
  unfolding decided_event event_at
  derived_outcome = (decision-Agrees (length l.events + 1) l v c).outcome

  Passes-step :
      (e : LedgerEvent) (x : Expected)
      → derived e ≡ x
      → Passes l.capacity (length l.events + 1) (state_of l) e x
      → replay_step l.capacity (length l.events + 1) (state_of l) e ≡ record {
        accounts = x.after;
        seen_event_ids = e.event_id ∷ ids (length l.events);
        failures = [];
      }
  unfolding replay_step state_of
  Passes-step e x o p = rw o (λ i. record {
    accounts = x.after;
    seen_event_ids = e.event_id ∷ ids (length l.events);
    failures =
        (no_failures_iff l.capacity (length l.events + 1) (state_of l) e x (some e.sequence)).1 p i;
  })

  logged_state :
      let e = decided_event d in
      ◌≡◌ {A = ReplayState}
        (record {
          accounts = accounts_of d.after;
          seen_event_ids = e.event_id ∷ ids (length l.events);
          failures = [];
        })
        (state_of (append_event e d.after))
  unfolding state_of decided_event event_at ids
  logged_state =
      let (same_events, _, _, _) = decision_frame c l in
      rw (length-append, same_events, add-one) refl

  -- The audit takes a logged event without a fault, and then agrees with the ledger after it.
  pub step_genuine :
      is_blank (attempt_of c) ≡ false
      → let e = decided_event d in
        replay_step l.capacity (length l.events + 1) (state_of l) e
        ≡ state_of (append_event e d.after)
  step_genuine h =
      Passes-step (decided_event d) (expected_of d) derived_outcome (genuine-Passes h)
      ∙ logged_state

-- Two events with the same fields are one event.
event_ext :
    (a b : LedgerEvent)
    → (a.sequence ≡ b.sequence)
      × (a.event_id ≡ b.event_id)
      × (a.operation ≡ b.operation)
      × (a.attempt_id ≡ b.attempt_id)
      × (a.reservation ≡ b.reservation)
      × (a.actual ≡ b.actual)
      × (a.applied ≡ b.applied)
      × (a.reason ≡ b.reason)
      × (a.post_snapshot ≡ b.post_snapshot)
    → a ≡ b
event_ext a b h = ground arith

-- An event that passes every test and records the call `c` is the one that the ledger logs for it.
agreeing_event :
    (l : ResourceBudgetLedger) (v : IsValid l) (e : LedgerEvent) (c : LedgerCall)
    → let n = length l.events + 1 in
      Passes l.capacity n
        (state_of l)
        e
        (expect l.capacity n (accounts_of l) e.operation e.attempt_id e.reservation e.actual)
      → Agrees e.operation e.attempt_id e.reservation e.actual n l (decision c l)
      → e ≡ decided_event (decision c l)
unfolding state_of decided_event event_at
agreeing_event l v e c p g =
    let d = decision c l in
    let n = length l.events + 1 in
    let (same_events, same_capacity, _, _) = decision_frame c l in
    event_ext e (decided_event d) (
      p.ordered ∙ rw same_events refl,
      p.identified ∙ rw same_events refl,
      g.operation,
      g.attempt,
      p.reserved ∙ g.reservation,
      g.actual,
      p.applied ∙ ap (λ x. x.applied) g.outcome,
      p.reason ∙ ap (λ x. x.reason) g.outcome,
      p.snapshot
          ∙ ap (λ x. snapshot_from_replay l.capacity x.after n) g.outcome
          ∙ sym (replayed_view l v c),
    )

-- An event that passes every test, and is not refused as malformed, is one that the ledger logs.
pub genuine_event :
    (l : ResourceBudgetLedger) (v : IsValid l) (e : LedgerEvent)
    → let n = length l.events + 1 in
      Passes l.capacity n
        (state_of l)
        e
        (expect l.capacity n (accounts_of l) e.operation e.attempt_id e.reservation e.actual)
      → e.reason ≢ some "malformed_input"
      → (c : LedgerCall) × (is_blank (attempt_of c) ≡ false) × (e ≡ decided_event (decision c l))
unfolding state_of
genuine_event l v e p other =
    elim (recorded_call (length l.events + 1) l v e.operation e.attempt_id e.reservation e.actual) [
      | inl malformed ↦ absurd (other (p.reason ∙ ap (λ x. x.reason) malformed))
      | inr (inr (t, unknown)) ↦ cc (p.known, unknown)
      | inr (inl (c, a, g)) ↦ (c, rw a p.named, agreeing_event l v e c p g)
    ]
