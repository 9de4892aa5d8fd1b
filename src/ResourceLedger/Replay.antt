-- ===== src/ResourceLedger/Replay.antt =====
-- `replay_and_verify` of resource_ledger.py: the audit that derives the outcome of every logged
-- operation anew. The free text `detail` of a failure is not modelled. SHA-256 of the canonical JSON
-- (`event_log_digest`) is a parameter.
use finite_agent_physics.Prelude.{
  ℕ, ◌+◌, ◌-◌, String, Bool, true, false, not, ◌&&◌, ◌||◌, Option, none, some, List, [], ◌∷◌, ◌++◌,
  Dict, lookup, contains, insert, erase, values, is_blank, length, if◌then◌else◌, ◌==◌, ◌=ˢ◌,
  Result, ok, err,
}
use finite_agent_physics.ResourceLedger.Vector.{
  LedgerError, ResourceVector, vector_zero, vector_eq, add, subtract, fits_within, sum_resources,
}
use finite_agent_physics.ResourceLedger.Events.{
  LedgerOperation, BudgetSnapshot, LedgerEvent, event_id_of, codes_eq, option_eq, snapshot_eq,
}

pub record VerificationFailure : Type 0 where
  pub sequence : Option ℕ
  pub code : String

pub record ReplayReport : Type 0 where
  pub passed : Bool
  pub seed : Option ℕ
  pub event_count : ℕ
  pub trace_digest : String
  pub replayed_snapshot : BudgetSnapshot
  pub failures : List VerificationFailure

-- The accounts that the replay keeps.
pub record Accounts : Type 0 where
  pub spent : ResourceVector
  pub active : Dict ResourceVector
  pub terminal : Dict String

-- A difference under a test that it fits: the other case would raise and cannot occur.
abbrev or_zero : Result LedgerError ResourceVector → ResourceVector
or_zero (ok v) = v
or_zero (err _) = vector_zero

unfoldable pub available_from : ResourceVector → ResourceVector → ResourceVector
available_from capacity committed =
    if not (fits_within committed capacity)
    then vector_zero
    else or_zero (subtract capacity committed)

unfoldable pub snapshot_from_replay : ResourceVector → Accounts → ℕ → BudgetSnapshot
unfolding available_from
snapshot_from_replay capacity s last_sequence =
    let held = sum_resources (values s.active) in
    record {
      capacity = capacity;
      spent = s.spent;
      held = held;
      available = available_from capacity (add s.spent held);
      active_attempts = length s.active;
      terminal_attempts = length s.terminal;
      last_sequence = last_sequence;
    }

-- What the replay expects of one event, and the accounts after it.
pub record Expected : Type 0 where
  pub applied : Bool
  pub reason : Option String
  pub after : Accounts

abbrev pub refused : String → Accounts → Expected
refused why s = record { applied = false; reason = some why; after = s }

abbrev pub accepted : Accounts → Expected
accepted s = record { applied = true; reason = none; after = s }

unfoldable pub expect_reserve :
    ResourceVector
    → ℕ
    → Accounts
    → String
    → Option ResourceVector
    → Option ResourceVector
    → Expected
unfolding snapshot_from_replay
expect_reserve capacity position s a (some actual) reservation = refused "malformed_input" s
expect_reserve capacity position s a none none = refused "malformed_input" s
expect_reserve capacity position s a none (some r) =
    if contains a s.active || contains a s.terminal
    then refused "identity_conflict" s
    else if not (fits_within r (snapshot_from_replay capacity s position).available)
    then refused "capacity_exceeded"
        (record s { terminal = insert a "reservation_refused" s.terminal })
    else accepted (record s { active = insert a r s.active })

unfoldable pub expect_settle :
    Accounts → String → Option ResourceVector → Option ResourceVector → Expected
expect_settle s a none before = refused "malformed_input" s
expect_settle s a (some actual) none =
    refused (if contains a s.terminal then "terminal_attempt" else "unknown_attempt") s
expect_settle s a (some actual) (some before) =
    if not (fits_within actual before)
    then refused "actual_over_reservation" s
    else accepted (record {
      spent = add s.spent actual;
      active = erase a s.active;
      terminal = insert a "settled" s.terminal;
    })

unfoldable pub expect_cancel :
    Accounts → String → Option ResourceVector → Option ResourceVector → Expected
expect_cancel s a (some actual) before = refused "malformed_input" s
expect_cancel s a none none =
    refused (if contains a s.terminal then "terminal_attempt" else "unknown_attempt") s
expect_cancel s a none (some before) =
    accepted (record s { active = erase a s.active; terminal = insert a "cancelled" s.terminal })

unfoldable pub expect :
    ResourceVector
    → ℕ
    → Accounts
    → LedgerOperation
    → String
    → Option ResourceVector
    → Option ResourceVector
    → Expected
unfolding expect_reserve expect_settle expect_cancel
expect capacity position s LedgerOperation.reserve a reservation actual =
    expect_reserve capacity (position - 1) s a actual reservation
expect capacity position s LedgerOperation.settle a reservation actual =
    expect_settle s a actual (lookup a s.active)
expect capacity position s LedgerOperation.cancel a reservation actual =
    expect_cancel s a actual (lookup a s.active)
expect capacity position s (LedgerOperation.unknown _) a reservation actual =
    refused "unknown_operation" s

-- `fail`, under its test.
unfoldable pub fail_if : Bool → Option ℕ → String → List VerificationFailure
fail_if true n code = record { sequence = n; code = code } ∷ []
fail_if false n code = []

abbrev pub is_unknown : LedgerOperation → Bool
is_unknown (LedgerOperation.unknown _) = true
is_unknown LedgerOperation.reserve = false
is_unknown LedgerOperation.settle = false
is_unknown LedgerOperation.cancel = false

-- The reservation that an event has to name.
abbrev pub expected_reservation :
    LedgerOperation → String → Option ResourceVector → Accounts → Option ResourceVector
expected_reservation LedgerOperation.reserve a reservation s = reservation
expected_reservation LedgerOperation.settle a reservation s = lookup a s.active
expected_reservation LedgerOperation.cancel a reservation s = lookup a s.active
expected_reservation (LedgerOperation.unknown _) a reservation s = lookup a s.active

-- `==` of two truth values.
abbrev pub bool_eq : Bool → Bool → Bool
bool_eq true b = b
bool_eq false b = not b

unfoldable pub elem_codes : List ℕ → List (List ℕ) → Bool
elem_codes k [] = false
elem_codes k (x ∷ xs) = codes_eq k x || elem_codes k xs

pub record ReplayState : Type 0 where
  pub accounts : Accounts
  pub seen_event_ids : List (List ℕ)
  pub failures : List VerificationFailure

-- The tests that one event undergoes, in their order: whether it fails, and the code.
unfoldable pub event_tests :
    ResourceVector → ℕ → ReplayState → LedgerEvent → Expected → List (Bool × String)
unfolding elem_codes
event_tests capacity position rs e x =
    let s = rs.accounts in
    let replayed = snapshot_from_replay capacity x.after position in
    let committed = add replayed.spent replayed.held in
    let reservation = expected_reservation e.operation e.attempt_id e.reservation s in
    let decided = bool_eq e.applied x.applied && option_eq ◌=ˢ◌ e.reason x.reason in
    (is_blank e.attempt_id, "invalid_attempt_id")
    ∷ (not (e.sequence == position), "non_monotonic_sequence")
    ∷ (not (codes_eq e.event_id (event_id_of position)), "invalid_event_id")
    ∷ (elem_codes e.event_id rs.seen_event_ids, "duplicate_event_id")
    ∷ (is_unknown e.operation, "unknown_operation")
    ∷ (not (option_eq vector_eq e.reservation reservation), "reservation_mismatch")
    ∷ (not decided, "decision_mismatch")
    ∷ (not (snapshot_eq e.post_snapshot replayed), "post_snapshot_mismatch")
    ∷ (not (fits_within committed capacity), "cap_breach")
    ∷ (
      not (vector_eq replayed.available (available_from capacity committed)),
      "negative_or_hidden_balance",
    )
    ∷ []

unfoldable pub failures_of : Option ℕ → List (Bool × String) → List VerificationFailure
unfolding fail_if
failures_of n [] = []
failures_of n ((fails, code) ∷ tests) = fail_if fails n code ++ failures_of n tests

-- The body of the `for` loop.
unfoldable pub replay_step : ResourceVector → ℕ → ReplayState → LedgerEvent → ReplayState
unfolding expect event_tests failures_of
replay_step capacity position rs e =
    let x = expect capacity position rs.accounts e.operation e.attempt_id e.reservation e.actual in
    record {
      accounts = x.after;
      seen_event_ids = e.event_id ∷ rs.seen_event_ids;
      failures =
          rs.failures ++ failures_of (some e.sequence) (event_tests capacity position rs e x);
    }

unfoldable pub replay_loop : ResourceVector → ℕ → ReplayState → List LedgerEvent → ReplayState
unfolding replay_step
replay_loop capacity position rs [] = rs
replay_loop capacity position rs (e ∷ es) =
    replay_loop capacity (position + 1) (replay_step capacity position rs e) es

abbrev pub replay_start : ReplayState
replay_start = record {
  accounts = record { spent = vector_zero; active = []; terminal = [] };
  seen_event_ids = [];
  failures = [];
}

-- A claimed final snapshot, if there is one, has to be that of the replay.
unfoldable pub claim_failures : Option BudgetSnapshot → BudgetSnapshot → List VerificationFailure
unfolding fail_if
claim_failures none final = []
claim_failures (some claimed) final =
    fail_if (not (snapshot_eq claimed final)) none "claimed_snapshot_mismatch"

abbrev pub is_nil {ℓ} : {A : Type ℓ} → List A → Bool
is_nil [] = true
is_nil (_ ∷ _) = false

unfoldable pub replay_and_verify :
    (List LedgerEvent → String)
    → ResourceVector
    → List LedgerEvent
    → Option BudgetSnapshot
    → Option ℕ
    → ReplayReport
unfolding replay_loop claim_failures
replay_and_verify event_log_digest capacity events claimed_snapshot seed =
    let rs = replay_loop capacity 1 replay_start events in
    let final = snapshot_from_replay capacity rs.accounts (length events) in
    let failures = rs.failures ++ claim_failures claimed_snapshot final in
    record {
      passed = is_nil failures;
      seed = seed;
      event_count = length events;
      trace_digest = event_log_digest events;
      replayed_snapshot = final;
      failures = failures;
    }
