-- ===== src/ResourceLedger/Events.antt =====
-- The records of resource_ledger.py: the snapshot, the event and its identifier, and the Boolean
-- equality of each, which is `==` of Python's frozen dataclasses.
use finite_agent_physics.Prelude.{
  ℕ, zero, suc, ◌-◌, String, ◌≡◌, refl, ◌↔◌, Bool, true, false, ◌&&◌, List, [], ◌∷◌, ◌++◌, Option,
  none, some, arith, ap, ◌∙◌, ◌==◌, codes, length,
}
use finite_agent_physics.Prelude.Decimals.{decimal, value, value-decimal}
use finite_agent_physics.ResourceLedger.Vector.{ResourceVector, vector_eq, vector_eq_iff}

-- `LedgerOperation`; `unknown` is any other value that the field of an event may hold.
pub data LedgerOperation : Type 0 where
  reserve settle cancel : LedgerOperation
  unknown : String → LedgerOperation

pub record BudgetSnapshot : Type 0 where
  pub capacity : ResourceVector
  pub spent : ResourceVector
  pub held : ResourceVector
  pub available : ResourceVector
  pub active_attempts : ℕ
  pub terminal_attempts : ℕ
  pub last_sequence : ℕ

-- The text of `event_id` is a list of code points.
pub record LedgerEvent : Type 0 where
  pub sequence : ℕ
  pub event_id : List ℕ
  pub operation : LedgerOperation
  pub attempt_id : String
  pub reservation : Option ResourceVector
  pub actual : Option ResourceVector
  pub applied : Bool
  pub reason : Option String
  pub post_snapshot : BudgetSnapshot

zeros : ℕ → List ℕ
zeros zero = []
zeros (suc n) = b'0' ∷ zeros n

-- `f"{n:012d}"`
unfoldable pub padded : ℕ → List ℕ
unfolding decimal zeros
padded n = let ds = decimal n in zeros (12 - length ds) ++ ds

abbrev pub event_id_prefix : List ℕ
event_id_prefix = codes "resource-event"

-- `f"{EVENT_ID_PREFIX}-{sequence:012d}"`
unfoldable pub event_id_of : ℕ → List ℕ
unfolding padded
event_id_of n = event_id_prefix ++ b'-' ∷ padded n

unfoldable pub codes_eq : List ℕ → List ℕ → Bool
codes_eq [] [] = true
codes_eq (a ∷ s) (b ∷ t) = a == b && codes_eq s t
codes_eq _ _ = false

pub codes_eq_iff : (s t : List ℕ) → (codes_eq s t ≡ true) ↔ (s ≡ t)
unfolding codes_eq
codes_eq_iff [] [] = ground arith
codes_eq_iff (a ∷ s) (b ∷ t) = ground (arith, codes_eq_iff s t)
codes_eq_iff [] (b ∷ t) = ground arith
codes_eq_iff (a ∷ s) [] = ground arith

value-zeros : (k : ℕ) (ds : List ℕ) → value 0 (zeros k ++ ds) ≡ value 0 ds
unfolding zeros value
value-zeros zero ds = refl
value-zeros (suc k) ds = value-zeros k ds

value-padded : (n : ℕ) → value 0 (padded n) ≡ n
unfolding padded
value-padded n = value-zeros (12 - length (decimal n)) (decimal n) ∙ value-decimal n

drop : ℕ → List ℕ → List ℕ
drop zero xs = xs
drop (suc n) [] = []
drop (suc n) (x ∷ xs) = drop n xs

padded_part : (n : ℕ) → drop 15 (event_id_of n) ≡ padded n
unfolding drop event_id_of
padded_part n = refl

-- Distinct sequence numbers have distinct identifiers.
pub event_id_of_inj : (m n : ℕ) → event_id_of m ≡ event_id_of n → m ≡ n
event_id_of_inj m n h =
    cc (
      value-padded m,
      value-padded n,
      padded_part m,
      padded_part n,
      ap (λ t. value 0 (drop 15 t)) h,
    )

event_1 : event_id_of 1 ≡ codes "resource-event-000000000001"
unfolding event_id_of
event_1 = refl

event_12345 : event_id_of 12345 ≡ codes "resource-event-000000012345"
unfolding event_id_of
event_12345 = refl

-- `==` of optional values, given that of the values.
unfoldable pub option_eq : {A : Type 0} → (A → A → Bool) → Option A → Option A → Bool
option_eq eq none none = true
option_eq eq (some a) (some b) = eq a b
option_eq eq _ _ = false

pub option_eq_iff :
    {A : Type 0} (eq : A → A → Bool)
    → ((a b : A) → (eq a b ≡ true) ↔ (a ≡ b))
    → (x y : Option A) → (option_eq eq x y ≡ true) ↔ (x ≡ y)
unfolding option_eq
option_eq_iff eq h none none = ground arith
option_eq_iff eq h (some a) (some b) = ground (arith, h a b)
option_eq_iff eq h none (some b) = ground arith
option_eq_iff eq h (some a) none = ground arith

unfoldable pub snapshot_eq : BudgetSnapshot → BudgetSnapshot → Bool
snapshot_eq a b =
    vector_eq a.capacity b.capacity
    && vector_eq a.spent b.spent
    && vector_eq a.held b.held
    && vector_eq a.available b.available
    && a.active_attempts == b.active_attempts
    && a.terminal_attempts == b.terminal_attempts
    && a.last_sequence == b.last_sequence

pub snapshot_eq_iff : (a b : BudgetSnapshot) → (snapshot_eq a b ≡ true) ↔ (a ≡ b)
unfolding snapshot_eq
snapshot_eq_iff a b = ground (
  arith,
  vector_eq_iff a.capacity b.capacity,
  vector_eq_iff a.spent b.spent,
  vector_eq_iff a.held b.held,
  vector_eq_iff a.available b.available,
)

-- A call of one of the methods that change the ledger.
pub data LedgerCall : Type 0 where
  reserve settle : String → ResourceVector → LedgerCall
  cancel : String → LedgerCall
