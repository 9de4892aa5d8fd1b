-- ===== src/Effects/Database.antt =====
-- The SQLite tables of the effect kernel as lists, its transactions, and the row operations that the
-- methods of `SQLiteEffectBroker` share: `_load`, `_enqueue`, `_set_state`, `_assert_fence`.
use finite_agent_physics.Prelude.{
  ℕ, suc, String, Bool, not, ◌||◌, ◌&&◌, Option, none, some, List, [], ◌∷◌, ◌++◌, map, elem,
  is_some, ◌==◌, ◌=ˢ◌, if◌then◌else◌, Result, ok, err, Action, pure, raise, gets, modify, raise_if,
  ◌>>=◌, ◌>>◌,
}
use finite_agent_physics.Effects.Types.{
  EffectError, EffectState, EffectIntent, ApprovalGrant, OutboxEvent, OutboxPayload, Details,
  Platform, FencingToken, intent_not_found, integrity_error, stale_fence, same_text,
}
use finite_agent_physics.Effects.Adapter.{SimulatedEffectAdapter, Target}

-- The tables, and the last sequence number that the outbox gave.
pub record Database : Type 0 where
  pub intents : List EffectIntent
  pub grants : List ApprovalGrant
  pub outbox : List OutboxEvent
  pub sequence : ℕ

-- The database, the target, and how often the clock and the generator of ids were asked.
pub record World : Type 0 where
  pub database : Database
  pub adapter : SimulatedEffectAdapter
  pub clock_reads : ℕ
  pub uuids : ℕ

abbrev pub Kernel : Type 0 → Type 0
Kernel A = Action World EffectError A

-- A failed transaction takes back what was written to the database, and nothing else.
abbrev pub roll_back :
    {A : Type 0} → Database → Result EffectError A × World → Result EffectError A × World
roll_back d (ok a, w) = (ok a, w)
roll_back d (err e, w) = (err e, record w { database = d })

unfoldable pub transaction : {A : Type 0} → Kernel A → Kernel A
transaction m w = roll_back w.database (m w)

-- A call of the target.
abbrev pub put_adapter :
    {A : Type 0}
    → World
    → Result EffectError A × SimulatedEffectAdapter
    → Result EffectError A × World
put_adapter w (r, t) = (r, record w { adapter = t })

unfoldable pub with_adapter : {A : Type 0} → Target A → Kernel A
with_adapter m w = put_adapter w (m w.adapter)

abbrev pub change : (Database → Database) → Kernel (Unit {0})
change f = modify (λ w. record w { database = f w.database })

-- `SELECT * FROM effect_intents WHERE intent_id = ?`
unfoldable pub find_intent : String → List EffectIntent → Option EffectIntent
find_intent k [] = none
find_intent k (i ∷ is) = if k =ˢ i.intent_id then some i else find_intent k is

-- `UPDATE effect_intents ... WHERE intent_id = ?`
unfoldable pub update_intents :
    String → (EffectIntent → EffectIntent) → List EffectIntent → List EffectIntent
update_intents k f [] = []
update_intents k f (i ∷ is) = (if k =ˢ i.intent_id then f i else i) ∷ update_intents k f is

abbrev pub event_ids : List OutboxEvent → List String
event_ids es = map (λ e. e.event_id) es

unfoldable pub found : Option EffectIntent → Kernel EffectIntent
found none = raise intent_not_found
found (some i) = pure i

unfoldable pub load : String → Kernel EffectIntent
unfolding found
load k = do row ← gets (λ w. find_intent k w.database.intents); found row

-- `COALESCE(?, column)`
abbrev pub coalesce : Option String → Option String → Option String
coalesce none old = old
coalesce (some new) old = some new

unfoldable pub has_fence : EffectIntent → FencingToken → Bool
has_fence i token =
    token.intent_id =ˢ i.intent_id
    && token.version == i.fence_version
    && same_text (some token.owner) i.fence_owner

unfoldable pub assert_fence : EffectIntent → FencingToken → Kernel (Unit {0})
unfolding has_fence
assert_fence i token = raise_if (not (has_fence i token)) stale_fence

abbrev pub append_outbox : OutboxPayload → String → String → ℕ → Database → Database
append_outbox payload event_type event_id now d = record d {
  outbox =
      d.outbox
      ++ record {
        sequence = suc d.sequence;
        event_id = event_id;
        intent_id = payload.intent_id;
        event_type = event_type;
        payload = payload;
        created_at_ms = now;
        published_at_ms = none;
      }
        ∷ [];
  sequence = suc d.sequence;
}

module _ (p : Platform) where
  unfoldable pub read_clock : Kernel ℕ
  read_clock w = (ok (p.clock_ms w.clock_reads), record w { clock_reads = suc w.clock_reads })

  unfoldable pub next_uuid : Kernel String
  next_uuid w = (ok (p.uuid w.uuids), record w { uuids = suc w.uuids })

  -- The insertion fails on an event id that is taken, and on an intent that has no row.
  unfoldable pub enqueue : EffectIntent → String → Details → Kernel (Unit {0})
  unfolding next_uuid read_clock
  enqueue i event_type details = do
    let payload : OutboxPayload = record {
      intent_id = i.intent_id;
      run_id = i.run_id;
      state = i.state;
      fence_version = i.fence_version;
      details = details;
    }
    event_id ← next_uuid
    now ← read_clock
    taken ← gets (λ w. elem event_id (event_ids w.database.outbox))
    present ← gets (λ w. is_some (find_intent i.intent_id w.database.intents))
    raise_if (taken || not present) integrity_error
    change (append_outbox payload event_type event_id now)

  -- An update of one row that stamps it with the time, and the row that is read back.
  unfoldable pub update_row : String → (EffectIntent → EffectIntent) → Kernel EffectIntent
  unfolding read_clock update_intents load
  update_row k f = do
    now ← read_clock
    change (λ d. record d {
      intents = update_intents k (λ i. record (f i) { updated_at_ms = now }) d.intents;
    })
    load k

  unfoldable pub set_state :
      String → EffectState → Option String → Option String → Kernel EffectIntent
  unfolding update_row
  set_state k s grant_id error = update_row k (λ i. record i {
    state = s;
    approval_grant_id = coalesce grant_id i.approval_grant_id;
    last_error = error;
  })

  -- What most methods end with: the changed row is announced and returned.
  unfoldable pub announce :
      String → (EffectIntent → Details) → Kernel EffectIntent → Kernel EffectIntent
  unfolding enqueue
  announce event_type details m = do i ← m; enqueue i event_type (details i); pure i
