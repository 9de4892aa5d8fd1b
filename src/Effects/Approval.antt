-- ===== src/Effects/Approval.antt =====
-- Approval in effects.py: `ApprovalAuthority.issue`, `_verify_grant`, `_stored_grant` and `approve`.
use finite_agent_physics.Prelude.{
  ℕ, ◌+◌, String, Bool, true, false, not, ◌||◌, ◌&&◌, Option, none, some, List, [], ◌∷◌, ◌++◌, ◌=ˢ◌,
  is_some, is_empty, lookup, leb, ltb, if◌then◌else◌, pure, raise, gets, raise_if, ◌>>=◌, ◌>>◌,
}
use finite_agent_physics.Effects.Types.{
  EffectState, EffectIntent, FencingToken, Details, Platform, Broker, Claims, ApprovalGrant,
  is_irreversible, same_text, value_error, invalid_transition, invalid_approval, approval_required,
}
use finite_agent_physics.Effects.Database.{
  Kernel, transaction, change, load, assert_fence, read_clock, next_uuid, set_state, announce,
}

-- An authority: the name of its key, and the secret.
pub record ApprovalAuthority : Type 0 where
  pub key_id : String
  pub secret : List ℕ

-- `SELECT * FROM approval_grants WHERE grant_id = ?`
unfoldable pub find_grant : String → List ApprovalGrant → Option ApprovalGrant
find_grant k [] = none
find_grant k (g ∷ gs) = if k =ˢ g.grant_id then some g else find_grant k gs

-- A row with the same grant id or the same intent id is there.
unfoldable pub is_consumed : ApprovalGrant → List ApprovalGrant → Bool
is_consumed g [] = false
is_consumed g (h ∷ hs) = g.grant_id =ˢ h.grant_id || g.intent_id =ˢ h.intent_id || is_consumed g hs

abbrev pub or_else : Option String → String → String
or_else none t = t
or_else (some s) t = s

-- `grant_id or str(uuid.uuid4())`
abbrev pub choose_grant_id : Platform → Option String → Kernel String
choose_grant_id p none = next_uuid p
choose_grant_id p (some s) = if is_empty s then next_uuid p else pure s

module _ (p : Platform) where
  unfoldable pub issue :
      ApprovalAuthority
      → EffectIntent
      → String
      → ℕ
      → ℕ
      → Option String
      → Option String
      → Option String
      → Kernel ApprovalGrant
  unfolding next_uuid
  issue authority i principal now_ms ttl_ms resource action grant_id = do
    raise_if (is_empty principal) value_error
    raise_if (leb ttl_ms 0) value_error
    new_id ← choose_grant_id p grant_id
    let unsigned : Claims = record {
      grant_id = new_id;
      key_id = authority.key_id;
      principal = principal;
      intent_id = i.intent_id;
      run_id = i.run_id;
      effect_digest = p.effect_digest i.operation;
      resource = or_else resource i.resource;
      action = or_else action i.action;
      not_before_ms = now_ms;
      expires_at_ms = now_ms + ttl_ms;
    }
    pure (record { claims = unsigned; signature = p.sign authority.secret unsigned })

  -- `exact_scope`
  unfoldable pub in_scope : EffectIntent → ApprovalGrant → Bool
  in_scope i g =
      g.intent_id =ˢ i.intent_id
      && g.run_id =ˢ i.run_id
      && g.effect_digest =ˢ p.effect_digest i.operation
      && g.resource =ˢ i.resource
      && g.action =ˢ i.action

  unfoldable pub verify_under :
      EffectIntent → ApprovalGrant → (enforce_time : Bool) → Option (List ℕ) → Kernel (Unit {0})
  unfolding in_scope read_clock
  verify_under i g enforce_time none = raise invalid_approval
  verify_under i g enforce_time (some secret) = do
    raise_if (not (p.sign secret g.claims =ˢ g.signature)) invalid_approval
    raise_if (is_empty g.principal) invalid_approval
    raise_if (not (in_scope i g)) invalid_approval
    now_ms ← read_clock p
    raise_if (leb g.expires_at_ms g.not_before_ms) invalid_approval
    raise_if (enforce_time && not (leb g.not_before_ms now_ms && ltb now_ms g.expires_at_ms))
        invalid_approval

  unfoldable pub verify_grant : Broker → EffectIntent → ApprovalGrant → Bool → Kernel (Unit {0})
  unfolding verify_under
  verify_grant b i g enforce_time = verify_under i g enforce_time (lookup g.key_id b.trusted_keys)

  unfoldable pub grant_row : Option ApprovalGrant → Kernel ApprovalGrant
  grant_row none = raise approval_required
  grant_row (some g) = pure g

  unfoldable pub grant_named : Option String → Kernel ApprovalGrant
  unfolding grant_row
  grant_named none = raise approval_required
  grant_named (some k) = do row ← gets (λ w. find_grant k w.database.grants); grant_row row

  unfoldable pub stored_grant : EffectIntent → Kernel ApprovalGrant
  unfolding grant_named
  stored_grant i = grant_named i.approval_grant_id

  -- A replay of an approval: an irreversible write wants the grant that is stored.
  unfoldable pub is_replay_of : EffectIntent → Option ApprovalGrant → Bool
  is_replay_of i none = not (is_irreversible i.effect_class)
  is_replay_of i (some g) =
      not (is_irreversible i.effect_class) || same_text (some g.grant_id) i.approval_grant_id

  unfoldable pub replay_approval : EffectIntent → Option ApprovalGrant → Kernel EffectIntent
  unfolding is_replay_of
  replay_approval i grant = do raise_if (not (is_replay_of i grant)) invalid_approval; pure i

  -- The insertion of a grant, where a broken key means that it was consumed before.
  unfoldable pub store_grant : ApprovalGrant → Kernel (Option String)
  unfolding is_consumed
  store_grant g = do
    taken ← gets (λ w. is_consumed g w.database.grants)
    raise_if taken invalid_approval
    change (λ d. record d { grants = d.grants ++ g ∷ [] })
    pure (some g.grant_id)

  -- What `approve` does with the grant, and the grant id that it keeps.
  unfoldable pub consume : Broker → EffectIntent → Option ApprovalGrant → Kernel (Option String)
  unfolding verify_grant store_grant
  consume b i none = if is_irreversible i.effect_class then raise approval_required else pure none
  consume b i (some g) =
      if is_irreversible i.effect_class
      then verify_grant b i g true >> store_grant g
      else raise invalid_approval

  unfoldable pub approve_fenced :
      Broker → FencingToken → Option ApprovalGrant → EffectIntent → Kernel EffectIntent
  unfolding consume announce
  approve_fenced b token grant i = do
    assert_fence i token
    grant_id ← consume b i grant
    announce p "effect.approved"
        (λ r. Details.approved_by grant_id (if is_some grant then "grant" else "policy"))
        (set_state p i.intent_id EffectState.approved grant_id none)

  unfoldable pub approve_from :
      Broker
      → FencingToken
      → Option ApprovalGrant
      → EffectIntent
      → EffectState
      → Kernel EffectIntent
  unfolding approve_fenced replay_approval
  approve_from b token grant i EffectState.approved = replay_approval i grant
  approve_from b token grant i EffectState.ambiguous = replay_approval i grant
  approve_from b token grant i EffectState.committed = replay_approval i grant
  approve_from b token grant i EffectState.compensated = replay_approval i grant
  approve_from b token grant i EffectState.prepared = approve_fenced b token grant i
  approve_from b token grant i _ = raise invalid_transition

  unfoldable pub approve_loaded :
      Broker → FencingToken → Option ApprovalGrant → EffectIntent → Kernel EffectIntent
  unfolding approve_from
  approve_loaded b token grant i = approve_from b token grant i i.state

  unfoldable pub approve :
      Broker → String → FencingToken → Option ApprovalGrant → Kernel EffectIntent
  unfolding approve_loaded
  approve b k token grant = transaction (load k >>= approve_loaded b token grant)
