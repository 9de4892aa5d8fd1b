-- ===== src/Effects/Types.antt =====
-- The data of effects.py and `EffectClass` of contracts.py. Python's digest and HMAC functions, its
-- clock and its generator of unique ids are the fields of a parameter, `Platform`.
use finite_agent_physics.Prelude.{
  ℕ, String, Bool, true, false, Option, none, some, List, Dict, ◌==◌, ◌=ˢ◌, is_empty,
}

-- The exceptions that leave the kernel, and the internal one that `commit` catches.
pub data EffectError : Type 0 where
  intent_not_found invalid_transition idempotency_conflict stale_fence : EffectError
  approval_required invalid_approval adapter_conflict ambiguous_commit : EffectError
  simulated_process_crash simulated_ambiguous_outcome : EffectError
  value_error key_error integrity_error : EffectError

pub data EffectState : Type 0 where
  proposed prepared approved committed aborted ambiguous compensated : EffectState

pub data EffectClass : Type 0 where
  pure read idempotent_write reversible_write irreversible_write : EffectClass

-- Membership of `_WRITES`, which is `EffectClass.writes`.
abbrev pub writes : EffectClass → Bool
writes EffectClass.pure = false
writes EffectClass.read = false
writes _ = true

abbrev pub is_reversible : EffectClass → Bool
is_reversible EffectClass.reversible_write = true
is_reversible EffectClass.pure = false
is_reversible _ = false

abbrev pub is_irreversible : EffectClass → Bool
is_irreversible EffectClass.irreversible_write = true
is_irreversible EffectClass.pure = false
is_irreversible _ = false

class_code : EffectClass → ℕ
class_code EffectClass.pure = 0
class_code EffectClass.read = 1
class_code EffectClass.idempotent_write = 2
class_code EffectClass.reversible_write = 3
class_code EffectClass.irreversible_write = 4

-- `is` between two members of the enumeration.
unfoldable pub class_eq : EffectClass → EffectClass → Bool
unfolding class_code
class_eq a b = class_code a == class_code b

pub record FencingToken : Type 0 where
  pub intent_id : String
  pub version : ℕ
  pub owner : String

-- The immutable part of an intent, which its digest covers.
pub record Operation : Type 0 where
  pub intent_id : String
  pub run_id : String
  pub action : String
  pub resource : String
  pub effect_class : EffectClass
  pub idempotency_key : String
  pub payload_json : String
  pub compensation_action : Option String

pub record EffectIntent : Type 0 where
  pub operation : Operation
  pub open operation use *
  pub state : EffectState
  pub fence_version : ℕ
  pub fence_owner : Option String
  pub approval_grant_id : Option String
  pub last_error : Option String
  pub created_at_ms : ℕ
  pub updated_at_ms : ℕ

-- The signed claims of a grant.
pub record Claims : Type 0 where
  pub grant_id : String
  pub key_id : String
  pub principal : String
  pub intent_id : String
  pub run_id : String
  pub effect_digest : String
  pub resource : String
  pub action : String
  pub not_before_ms : ℕ
  pub expires_at_ms : ℕ

pub record ApprovalGrant : Type 0 where
  pub claims : Claims
  pub open claims use *
  pub signature : String

-- The `details` of an outbox payload.
pub data Details : Type 0 where
  nothing : Details
  fence_acquired : String → Details
  approved_by : Option String → (approval_kind : String) → Details
  committed_with : (reconciled target_replay : Bool) → Details
  reason : String → Details
  compensated_by : Option String → Details

-- The payload of an outbox event, before it is written as JSON.
pub record OutboxPayload : Type 0 where
  pub intent_id : String
  pub run_id : String
  pub state : EffectState
  pub fence_version : ℕ
  pub details : Details

pub record OutboxEvent : Type 0 where
  pub sequence : ℕ
  pub event_id : String
  pub intent_id : String
  pub event_type : String
  pub payload : OutboxPayload
  pub created_at_ms : ℕ
  pub published_at_ms : Option ℕ

-- What the platform provides: the digest of an operation, the HMAC of claims under a secret, the
-- clock at its n-th reading, and the n-th unique id.
pub record Platform : Type 0 where
  pub effect_digest : Operation → String
  pub sign : List ℕ → Claims → String
  pub clock_ms : ℕ → ℕ
  pub uuid : ℕ → String

-- A broker: its id, and the approval keys that it trusts.
pub record Broker : Type 0 where
  pub broker_id : String
  pub trusted_keys : Dict (List ℕ)

-- `not text` for an optional text.
abbrev pub missing : Option String → Bool
missing none = true
missing (some s) = is_empty s

abbrev pub same_text : Option String → Option String → Bool
same_text none none = true
same_text (some s) (some t) = s =ˢ t
same_text _ _ = false
