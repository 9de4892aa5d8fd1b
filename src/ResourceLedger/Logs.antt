-- ===== src/ResourceLedger/Logs.antt =====
-- The audit of the ledger's logs, in both directions: every log that the ledger produces passes, and
-- what passes is such a log.
use finite_agent_physics.Prelude.{
  ℕ, ◌+◌, String, ◌≡◌, refl, ap, sym, ◌∙◌, subst, ◌≢◌, true, false, Option, some, List, [], ◌∷◌,
  ◌++◌, arith, is_blank, inl, inr, All, length, length-append, Bool-cases, ok,
}
use finite_agent_physics.ResourceLedger.Vector.{ResourceVector}
use finite_agent_physics.ResourceLedger.Events.{
  BudgetSnapshot, LedgerEvent, LedgerCall, snapshot_eq_iff,
}
use finite_agent_physics.ResourceLedger.Budget.{
  ResourceBudgetLedger, new_ledger, call, run, snapshot,
}
use finite_agent_physics.ResourceLedger.Invariant.{IsValid, view, new_ledger-IsValid, snapshot_lem}
use finite_agent_physics.ResourceLedger.Decisions.{attempt_of, decision, decided_event}
use finite_agent_physics.ResourceLedger.Replay.{
  ReplayState, replay_start, replay_step, replay_loop, replay_and_verify, is_nil, claim_failures,
  expect, snapshot_from_replay,
}
use finite_agent_physics.ResourceLedger.Audit.{accounts_of, snapshot_from_replay_lem}
use finite_agent_physics.ResourceLedger.Checks.{Passes, no_failures_iff}
use finite_agent_physics.ResourceLedger.Genuine.{
  state_of, ids, decision_frame, step_genuine, genuine_event,
}
use finite_agent_physics.ResourceLedger.History.{after_call, call-IsValid, run-IsValid}
use mathlib.Core.List.{append_assoc, append-nil}
use native.Mathlib.Nat.{add_comm}

-- The audit of a log followed by more events.
replay_loop-append :
    (capacity : ResourceVector) (n : ℕ) (rs : ReplayState) (es more : List LedgerEvent)
    → replay_loop capacity n rs (es ++ more)
      ≡ replay_loop capacity (n + length es) (replay_loop capacity n rs es) more
unfolding replay_loop
replay_loop-append capacity n rs [] more = ap (λ k. replay_loop capacity k rs more) (omega arith)
replay_loop-append capacity n rs (e ∷ es) more =
    replay_loop-append capacity (n + 1) (replay_step capacity n rs e) es more
    ∙ ap
        (λ k.
          replay_loop capacity k (replay_loop capacity (n + 1) (replay_step capacity n rs e) es)
            more)
        (omega arith)

-- The audit of a ledger's log finds no fault and ends with the ledger's own accounts.
abbrev IsAudited : ResourceBudgetLedger → Type 0
IsAudited l = replay_loop l.capacity 1 replay_start l.events ≡ state_of l

replay_one :
    (capacity : ResourceVector) (n : ℕ) (rs : ReplayState) (e : LedgerEvent)
    → replay_loop capacity n rs (e ∷ []) ≡ replay_step capacity n rs e
unfolding replay_loop
replay_one capacity n rs e = refl

call-IsAudited :
    (c : LedgerCall) (l : ResourceBudgetLedger) → IsValid l → IsAudited l → IsAudited (call c l).1
call-IsAudited c l v h = elim (Bool-cases (is_blank (attempt_of c))) [
  | inl b ↦ rw (after_call c l v, b) h
  | inr b ↦
      rw (after_call c l v, b)
        (let e = decided_event (decision c l) in
          let (same_events, same_capacity, _, _) = decision_frame c l in
          cc (
            same_events,
            same_capacity,
            h,
            replay_loop-append l.capacity 1 replay_start l.events (e ∷ []),
            add_comm 1 (length l.events),
            replay_one l.capacity (length l.events + 1) (state_of l) e,
            step_genuine l v c b,
          ))
]

run-IsAudited :
    (cs : List LedgerCall) (l : ResourceBudgetLedger)
    → IsValid l
    → IsAudited l
    → IsAudited (run cs l)
unfolding run
run-IsAudited [] l v h = h
run-IsAudited (c ∷ cs) l v h =
    run-IsAudited cs (call c l).1 (call-IsValid c l v) (call-IsAudited c l v h)

new_ledger-IsAudited : (capacity : ResourceVector) → IsAudited (new_ledger capacity)
unfolding new_ledger replay_loop state_of ids
new_ledger-IsAudited capacity = refl

claim_failures_self :
    (claimed final : BudgetSnapshot) → final ≡ claimed → claim_failures (some claimed) final ≡ []
unfolding claim_failures
claim_failures_self claimed final h = ground (arith, snapshot_eq_iff claimed final)

-- The report on a log through which the audit finds no fault.
report_lem :
    (event_log_digest : List LedgerEvent → String) (capacity : ResourceVector)
    (es : List LedgerEvent) (claimed : BudgetSnapshot) (seed : Option ℕ) (rs : ReplayState)
    → replay_loop capacity 1 replay_start es ≡ rs
    → rs.failures ≡ []
    → snapshot_from_replay capacity rs.accounts (length es) ≡ claimed
    → let report = replay_and_verify event_log_digest capacity es (some claimed) seed in
      (report.passed ≡ true) × (report.failures ≡ []) × (report.replayed_snapshot ≡ claimed)
unfolding replay_and_verify
report_lem digest capacity es claimed seed rs h none_failed final =
    let clean = claim_failures_self claimed _ final in
    rw (h, none_failed, clean, final) (refl, refl, refl)

-- Every log that the ledger can produce passes the audit, with its own snapshot as the claim, and
-- the snapshot that the audit reconstructs is the one that the ledger reports.
pub audit_accepts :
    (event_log_digest : List LedgerEvent → String) (capacity : ResourceVector)
    (cs : List LedgerCall) (seed : Option ℕ)
    → let l = run cs (new_ledger capacity) in
      (claimed : BudgetSnapshot) × (snapshot l ≡ (ok claimed, l))
      × (let report = replay_and_verify event_log_digest capacity l.events (some claimed) seed in
          (report.passed ≡ true) × (report.failures ≡ []) × (report.replayed_snapshot ≡ claimed))
unfolding state_of
audit_accepts digest capacity cs seed =
    let l = run cs (new_ledger capacity) in
    let (v, same) = run-IsValid capacity cs in
    (
      view (length l.events) l,
      snapshot_lem l v.fits,
      report_lem digest capacity l.events (view (length l.events) l) seed (state_of l)
          (subst (λ k. replay_loop k 1 replay_start l.events ≡ state_of l) same
            (run-IsAudited cs (new_ledger capacity) (new_ledger-IsValid capacity)
              (new_ledger-IsAudited capacity)))
          refl
          (subst
            (λ k.
              snapshot_from_replay k (accounts_of l) (length l.events) ≡ view (length l.events) l)
            same (snapshot_from_replay_lem l v (length l.events))),
    )

append_nil_left : {A : Type 0} (xs ys : List A) → xs ++ ys ≡ [] → xs ≡ []
append_nil_left [] ys h = refl
append_nil_left (x ∷ xs) ys h = cc

-- Failures are never taken back.
loop_failures :
    (capacity : ResourceVector) (n : ℕ) (rs : ReplayState) (es : List LedgerEvent)
    → (replay_loop capacity n rs es).failures ≡ []
    → rs.failures ≡ []
unfolding replay_loop
loop_failures capacity n rs [] h = h
loop_failures capacity n rs (e ∷ es) h =
    append_nil_left _ _ (loop_failures capacity (n + 1) (replay_step capacity n rs e) es h)

abbrev pub NotMalformed : LedgerEvent → Type 0
NotMalformed e = e.reason ≢ some "malformed_input"

step-Passes :
    (l : ResourceBudgetLedger) (e : LedgerEvent)
    → let n = length l.events + 1 in
      (replay_step l.capacity n (state_of l) e).failures ≡ []
      → Passes l.capacity n
          (state_of l)
          e
          (expect l.capacity n (accounts_of l) e.operation e.attempt_id e.reservation e.actual)
unfolding replay_step state_of
step-Passes l e h = (no_failures_iff l.capacity _ (state_of l) e _ _).0 h

step_loop :
    (capacity : ResourceVector) (n : ℕ) (rs : ReplayState) (e : LedgerEvent) (es : List LedgerEvent)
    → replay_loop capacity n rs (e ∷ es)
      ≡ replay_loop capacity (n + 1) (replay_step capacity n rs e) es
unfolding replay_loop
step_loop capacity n rs e es = refl

-- The call behind a genuine event leads to the ledger that the audit has reached.
logged_call :
    (l : ResourceBudgetLedger)
    → IsValid l
    → (c : LedgerCall) (e : LedgerEvent) → is_blank (attempt_of c) ≡ false
    → e ≡ decided_event (decision c l)
    → let l' = (call c l).1 in
      (l'.events ≡ l.events ++ e ∷ [])
      × (l'.capacity ≡ l.capacity)
      × (replay_step l.capacity (length l.events + 1) (state_of l) e ≡ state_of l')
      × (length l'.events ≡ length l.events + 1)
logged_call l v c e b same =
    let (same_events, same_capacity, _, _) = decision_frame c l in
    rw (after_call c l v, b, same)
      (
        rw same_events refl,
        same_capacity,
        step_genuine l v c b,
        rw (same_events, length-append) refl,
      )

calls_of_log :
    (es : List LedgerEvent) (l : ResourceBudgetLedger)
    → IsValid l
    → (replay_loop l.capacity (length l.events + 1) (state_of l) es).failures ≡ []
    → All NotMalformed es
    → (cs : List LedgerCall) × ((run cs l).events ≡ l.events ++ es)
unfolding run
calls_of_log [] l v h m = ([], sym (append-nil l.events))
calls_of_log (e ∷ es) l v h (m, ms) =
    let first =
      loop_failures l.capacity (length l.events + 1 + 1)
        (replay_step l.capacity (length l.events + 1) (state_of l) e) es (rw step_loop at h) in
    let (c, b, same) = genuine_event l v e (step-Passes l e first) m in
    let (longer, kept, stepped, counted) = logged_call l v c e b same in
    let l' = (call c l).1 in
    let rest : (replay_loop l'.capacity (length l'.events + 1) (state_of l') es).failures ≡ [] =
      cc
        (step_loop l.capacity (length l.events + 1) (state_of l) e es, h, kept, stepped, counted) in
    let (cs, tail) = calls_of_log es l' (call-IsValid c l v) rest ms in
    (c ∷ cs, cc (tail, longer, append_assoc l.events (e ∷ []) es))

no_failures : {A : Type 0} (xs ys : List A) → is_nil (xs ++ ys) ≡ true → xs ≡ []
no_failures [] ys h = refl
no_failures (x ∷ xs) ys h = cc

-- A log that passes the audit, in which no event is refused as malformed, is one that the ledger
-- writes: some sequence of calls on a fresh ledger logs exactly these events.
pub audit_genuine :
    (event_log_digest : List LedgerEvent → String) (capacity : ResourceVector)
    (es : List LedgerEvent) (claimed : Option BudgetSnapshot) (seed : Option ℕ)
    → (replay_and_verify event_log_digest capacity es claimed seed).passed ≡ true
    → All NotMalformed es
    → (cs : List LedgerCall) × ((run cs (new_ledger capacity)).events ≡ es)
unfolding replay_and_verify new_ledger state_of ids
audit_genuine digest capacity es claimed seed h m =
    calls_of_log es (new_ledger capacity) (new_ledger-IsValid capacity) (no_failures _ _ h) m
