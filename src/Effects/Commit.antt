-- ===== src/Effects/Commit.antt =====
-- The methods of `SQLiteEffectBroker` that call the target: commit and compensate.
use finite_agent_physics.Prelude.{
  String, Bool, true, false, not, none, some, if◌then◌else◌, Result, ok, err, pure, raise, raise_if,
  ◌>>=◌, ◌>>◌,
}
use finite_agent_physics.Effects.Types.{
  EffectError, EffectState, EffectIntent, FencingToken, Details, Platform, Broker, is_irreversible,
  is_reversible, missing, invalid_transition, ambiguous_commit,
}
use finite_agent_physics.Effects.Adapter.{execute, was_applied, compensate_target}
use finite_agent_physics.Effects.Database.{
  World, Kernel, transaction, with_adapter, load, assert_fence, set_state, announce,
}
use finite_agent_physics.Effects.Approval.{verify_grant, stored_grant}

-- What the target said of an application: done now or before, or no acknowledgement.
pub data Outcome : Type 0 where
  applied : (now : Bool) → Outcome
  unacknowledged : Outcome

is_lost : EffectError → Bool
is_lost EffectError.simulated_ambiguous_outcome = true
is_lost _ = false

-- `except _SimulatedAmbiguousOutcome` around the call of the target.
unfoldable pub caught : Result EffectError Bool × World → Result EffectError Outcome × World
unfolding is_lost
caught (ok b, w) = (ok (Outcome.applied b), w)
caught (err e, w) = (if is_lost e then ok Outcome.unacknowledged else err e, w)

abbrev pub lost_acknowledgement : String
lost_acknowledgement = "target applied without acknowledgement"

-- `already_applied`
unfoldable pub applied_from : Platform → EffectIntent → EffectState → Kernel Bool
applied_from p i EffectState.ambiguous = with_adapter (was_applied p i)
applied_from p i _ = pure false

unfoldable pub already_applied : Platform → EffectIntent → Kernel Bool
unfolding applied_from
already_applied p i = applied_from p i i.state

module _ (p : Platform) (b : Broker) where
  -- The check of the stored grant, for an irreversible write.
  unfoldable pub check_grant : EffectIntent → (already : Bool) → Kernel (Unit {0})
  unfolding verify_grant stored_grant
  check_grant i already =
      if is_irreversible i.effect_class
      then (do stored ← stored_grant p i; verify_grant p b i stored (not already))
      else pure tt

  unfoldable pub try_execute : EffectIntent → FencingToken → Kernel Outcome
  unfolding execute with_adapter caught
  try_execute i token w = caught (with_adapter (execute p i token) w)

  unfoldable pub mark_committed :
      EffectIntent → (reconciled target_replay : Bool) → Kernel EffectIntent
  unfolding announce
  mark_committed i reconciled target_replay =
      announce p "effect.committed" (λ r. Details.committed_with reconciled target_replay)
        (set_state p i.intent_id EffectState.committed none none)

  -- The row after the target answered, and whether `AmbiguousCommit` is to be raised.
  unfoldable pub record_outcome : EffectIntent → Outcome → Kernel (EffectIntent × Bool)
  unfolding mark_committed
  record_outcome i (Outcome.applied now) = do
    r ← mark_committed i (not now) (not now)
    pure (r, false)
  record_outcome i Outcome.unacknowledged = do
    r ←
        announce p "effect.ambiguous" (λ r. Details.reason lost_acknowledgement)
          (set_state p i.intent_id EffectState.ambiguous none (some lost_acknowledgement))
    pure (r, true)

  unfoldable pub apply_or_reconcile :
      EffectIntent → FencingToken → (already : Bool) → Kernel (EffectIntent × Bool)
  unfolding record_outcome try_execute
  apply_or_reconcile i token true = do r ← mark_committed i true false; pure (r, false)
  apply_or_reconcile i token false = try_execute i token >>= record_outcome i

  unfoldable pub commit_fenced : FencingToken → EffectIntent → Kernel (EffectIntent × Bool)
  unfolding apply_or_reconcile check_grant already_applied
  commit_fenced token i = do
    assert_fence i token
    already ← already_applied p i
    check_grant i already
    apply_or_reconcile i token already

  unfoldable pub commit_from :
      FencingToken → EffectIntent → EffectState → Kernel (EffectIntent × Bool)
  unfolding commit_fenced
  commit_from token i EffectState.committed = pure (i, false)
  commit_from token i EffectState.compensated = pure (i, false)
  commit_from token i EffectState.approved = commit_fenced token i
  commit_from token i EffectState.ambiguous = commit_fenced token i
  commit_from token i _ = raise invalid_transition

  unfoldable pub commit_loaded : FencingToken → EffectIntent → Kernel (EffectIntent × Bool)
  unfolding commit_from
  commit_loaded token i = commit_from token i i.state

  -- The statement after the transaction.
  unfoldable pub raise_ambiguity : EffectIntent × Bool → Kernel EffectIntent
  raise_ambiguity (i, ambiguous) = raise_if ambiguous ambiguous_commit >> pure i

  unfoldable pub commit : String → FencingToken → Kernel EffectIntent
  unfolding commit_loaded raise_ambiguity
  commit k token = transaction (load k >>= commit_loaded token) >>= raise_ambiguity

  unfoldable pub compensate_fenced : FencingToken → EffectIntent → Kernel EffectIntent
  unfolding compensate_target announce
  compensate_fenced token i = do
    assert_fence i token
    raise_if (not (is_reversible i.effect_class)) invalid_transition
    raise_if (missing i.compensation_action) invalid_transition
    changed ← with_adapter (compensate_target p i token)
    announce p "effect.compensated" (λ r. Details.compensated_by i.compensation_action)
        (set_state p i.intent_id EffectState.compensated none none)

  unfoldable pub compensate_from : FencingToken → EffectIntent → EffectState → Kernel EffectIntent
  unfolding compensate_fenced
  compensate_from token i EffectState.compensated = pure i
  compensate_from token i EffectState.committed = compensate_fenced token i
  compensate_from token i EffectState.ambiguous = compensate_fenced token i
  compensate_from token i _ = raise invalid_transition

  unfoldable pub compensate_loaded : FencingToken → EffectIntent → Kernel EffectIntent
  unfolding compensate_from
  compensate_loaded token i = compensate_from token i i.state

  unfoldable pub compensate : String → FencingToken → Kernel EffectIntent
  unfolding compensate_loaded
  compensate k token = transaction (load k >>= compensate_loaded token)
