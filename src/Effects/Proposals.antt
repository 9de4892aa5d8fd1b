-- ===== src/Effects/Proposals.antt =====
-- The methods of `SQLiteEffectBroker` before approval: propose, prepare, acquire_fence, and abort.
use finite_agent_physics.Prelude.{
  ℕ, suc, String, Bool, not, ◌||◌, ◌&&◌, Option, none, some, List, [], ◌∷◌, ◌++◌, ◌=ˢ◌, is_some,
  is_empty, if◌then◌else◌, pure, raise, gets, raise_if, ◌>>=◌, ◌>>◌,
}
use finite_agent_physics.Effects.Types.{
  EffectState, EffectIntent, Operation, FencingToken, Details, Platform, Broker, writes,
  is_reversible, class_eq, missing, same_text, value_error, invalid_transition,
  idempotency_conflict, stale_fence, integrity_error,
}
use finite_agent_physics.Effects.Database.{
  Kernel, transaction, change, find_intent, load, assert_fence, read_clock, next_uuid, update_row,
  set_state, announce,
}

abbrev pub get : String → Kernel EffectIntent
get k = load k

-- `SELECT * FROM effect_intents WHERE idempotency_key = ?`
unfoldable pub find_key : String → List EffectIntent → Option EffectIntent
find_key k [] = none
find_key k (i ∷ is) = if k =ˢ i.idempotency_key then some i else find_key k is

-- The refusals of a malformed proposal.
unfoldable pub is_malformed : Operation → Bool
is_malformed o =
    (is_empty o.run_id || is_empty o.action || is_empty o.resource || is_empty o.idempotency_key)
    || not (writes o.effect_class)
    || (is_reversible o.effect_class && missing o.compensation_action)

unfoldable pub same_operation : EffectIntent → Operation → Bool
unfolding class_eq
same_operation i o =
    i.action =ˢ o.action
    && i.resource =ˢ o.resource
    && class_eq i.effect_class o.effect_class
    && i.payload_json =ˢ o.payload_json
    && same_text i.compensation_action o.compensation_action

abbrev pub new_intent : Operation → ℕ → EffectIntent
new_intent o now = record {
  operation = o;
  state = EffectState.proposed;
  fence_version = 0;
  fence_owner = none;
  approval_grant_id = none;
  last_error = none;
  created_at_ms = now;
  updated_at_ms = now;
}

-- `intent_id or str(uuid.uuid4())`
abbrev pub choose_id : Platform → Option String → Kernel String
choose_id p none = next_uuid p
choose_id p (some s) = if is_empty s then next_uuid p else pure s

module _ (p : Platform) where
  unfoldable pub insert_proposal : Operation → ℕ → Kernel EffectIntent
  unfolding announce load
  insert_proposal o now = do
    taken ← gets (λ w. is_some (find_intent o.intent_id w.database.intents))
    raise_if taken integrity_error
    change (λ d. record d { intents = d.intents ++ new_intent o now ∷ [] })
    announce p "effect.proposed" (λ i. Details.nothing) (load o.intent_id)

  unfoldable pub propose_at : Operation → ℕ → Option EffectIntent → Kernel EffectIntent
  unfolding insert_proposal
  propose_at o now none = insert_proposal o now
  propose_at o now (some existing) = do
    raise_if (not (same_operation existing o)) idempotency_conflict
    pure existing

  -- The body of the transaction.
  unfoldable pub propose_once : Operation → ℕ → Kernel EffectIntent
  unfolding propose_at find_key
  propose_once o now = do
    existing ← gets (λ w. find_key o.idempotency_key w.database.intents)
    propose_at o now existing

  -- The operation's own intent id is not read; the id is chosen first.
  unfoldable pub propose : Option String → Operation → Kernel EffectIntent
  unfolding propose_once
  propose intent_id o = do
    raise_if (is_malformed o) value_error
    new_id ← choose_id p intent_id
    now ← read_clock p
    transaction (propose_once (record o { intent_id = new_id }) now)

  unfoldable pub prepare_row : Broker → EffectIntent → Kernel EffectIntent
  unfolding announce
  prepare_row b i =
      announce p "effect.prepared" (λ r. Details.nothing)
        (update_row p i.intent_id (λ r. record r {
          state = EffectState.prepared;
          fence_version = suc r.fence_version;
          fence_owner = some b.broker_id;
        }))

  unfoldable pub prepare_from : Broker → EffectIntent → EffectState → Kernel EffectIntent
  unfolding prepare_row
  prepare_from b i EffectState.proposed = prepare_row b i
  prepare_from b i _ = raise invalid_transition

  unfoldable pub prepare_loaded : Broker → EffectIntent → Kernel EffectIntent
  unfolding prepare_from
  prepare_loaded b i = prepare_from b i i.state

  unfoldable pub prepare : Broker → String → Kernel EffectIntent
  unfolding prepare_loaded
  prepare b k = transaction (load k >>= prepare_loaded b)

  unfoldable pub fence_anew : Broker → EffectIntent → Kernel EffectIntent
  unfolding announce
  fence_anew b i =
      announce p "effect.fence_acquired" (λ r. Details.fence_acquired b.broker_id)
        (update_row p i.intent_id
          (λ r. record r { fence_version = suc r.fence_version; fence_owner = some b.broker_id }))

  unfoldable pub fence_from : Broker → EffectIntent → EffectState → Kernel EffectIntent
  unfolding fence_anew
  fence_from b i EffectState.prepared = fence_anew b i
  fence_from b i EffectState.approved = fence_anew b i
  fence_from b i EffectState.ambiguous = fence_anew b i
  fence_from b i _ = raise invalid_transition

  unfoldable pub fence_loaded : Broker → EffectIntent → Kernel EffectIntent
  unfolding fence_from
  fence_loaded b i = fence_from b i i.state

  unfoldable pub acquire_fence : Broker → String → Kernel EffectIntent
  unfolding fence_loaded
  acquire_fence b k = transaction (load k >>= fence_loaded b)

  unfoldable pub abort_now : EffectIntent → Kernel EffectIntent
  unfolding announce
  abort_now i =
      announce p "effect.aborted" (λ r. Details.nothing)
        (set_state p i.intent_id EffectState.aborted none none)

  unfoldable pub abort_fenced : EffectIntent → Option FencingToken → Kernel EffectIntent
  unfolding abort_now
  abort_fenced i none = raise stale_fence
  abort_fenced i (some token) = assert_fence i token >> abort_now i

  unfoldable pub abort_from : Option FencingToken → EffectIntent → EffectState → Kernel EffectIntent
  unfolding abort_fenced
  abort_from token i EffectState.aborted = pure i
  abort_from token i EffectState.proposed = abort_now i
  abort_from token i EffectState.prepared = abort_fenced i token
  abort_from token i EffectState.approved = abort_fenced i token
  abort_from token i _ = raise invalid_transition

  unfoldable pub abort_loaded : Option FencingToken → EffectIntent → Kernel EffectIntent
  unfolding abort_from
  abort_loaded token i = abort_from token i i.state

  unfoldable pub abort : String → Option FencingToken → Kernel EffectIntent
  unfolding abort_loaded
  abort k token = transaction (load k >>= abort_loaded token)
