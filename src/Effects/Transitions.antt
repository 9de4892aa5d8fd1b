-- ===== src/Effects/Transitions.antt =====
-- Every call moves every intent along the state machine, and so does every sequence of calls.
use finite_agent_physics.Prelude.{
  ◌≡◌, refl, String, Bool, true, false, not, Option, none, some, Result, ok, err, raise_if,
}
use finite_agent_physics.Effects.Types.{
  EffectError, EffectState, EffectIntent, FencingToken, ApprovalGrant, Platform, Broker,
  is_irreversible, is_reversible, missing, invalid_transition,
}
use finite_agent_physics.Effects.Adapter.{compensate_target, execute}
use finite_agent_physics.Effects.Database.{World, assert_fence, set_state, announce, with_adapter}
use finite_agent_physics.Effects.Approval.{stored_grant, grant_named, grant_row}
use finite_agent_physics.Effects.Commit.{
  Outcome, caught, applied_from, already_applied, check_grant, try_execute, mark_committed,
  record_outcome, apply_or_reconcile, commit_fenced, commit_from, compensate_fenced,
  compensate_from,
}
use finite_agent_physics.Effects.Evolution.{Method, Evolution, Step, row}
use finite_agent_physics.Effects.Rows.{
  SameRows, Silent, silent, raise_if-Silent, if-Silent, bind-Silent, with_adapter-Silent,
  then-Evolution, after_unchanged,
}
use finite_agent_physics.Effects.Machine.{
  verify_grant-Silent, set_state-Evolution, stay, at_state, assert_fence-Silent,
}

module _ (p : Platform) (b : Broker) where
  grant_row-Silent : (o : Option ApprovalGrant) → Silent (grant_row p o)
  unfolding grant_row
  grant_row-Silent none = silent (λ w. refl)
  grant_row-Silent (some g) = silent (λ w. refl)

  grant_named-Silent : (o : Option String) → Silent (grant_named p o)
  unfolding grant_named
  grant_named-Silent none = silent (λ w. refl)
  grant_named-Silent (some k) = silent (λ w. (grant_row-Silent _).same w)

  stored_grant-Silent : (i : EffectIntent) → Silent (stored_grant p i)
  unfolding stored_grant
  stored_grant-Silent i = grant_named-Silent i.approval_grant_id

  check_grant-Silent : (i : EffectIntent) (already : Bool) → Silent (check_grant p b i already)
  unfolding check_grant
  check_grant-Silent i already =
      if-Silent (is_irreversible i.effect_class) _ _
        (bind-Silent (stored_grant p i) _ (stored_grant-Silent i)
          (λ g. verify_grant-Silent p b i g (not already)))
        (silent (λ w. refl))

  applied_from-Silent : (i : EffectIntent) (s : EffectState) → Silent (applied_from p i s)
  unfolding applied_from
  applied_from-Silent i EffectState.proposed = silent (λ w. refl)
  applied_from-Silent i EffectState.prepared = silent (λ w. refl)
  applied_from-Silent i EffectState.approved = silent (λ w. refl)
  applied_from-Silent i EffectState.committed = silent (λ w. refl)
  applied_from-Silent i EffectState.aborted = silent (λ w. refl)
  applied_from-Silent i EffectState.ambiguous = with_adapter-Silent _
  applied_from-Silent i EffectState.compensated = silent (λ w. refl)

  already_applied-Silent : (i : EffectIntent) → Silent (already_applied p i)
  unfolding already_applied
  already_applied-Silent i = applied_from-Silent i i.state

  caught_same :
      (w : World) (r : Result EffectError Bool × World) → SameRows w r.1 → SameRows w (caught r).1
  unfolding caught
  caught_same w (ok b, v) h = h
  caught_same w (err e, v) h = h

  try_execute-Silent : (i : EffectIntent) (token : FencingToken) → Silent (try_execute p b i token)
  unfolding try_execute
  try_execute-Silent i token = silent (λ w.
      caught_same w (with_adapter (execute p i token) w)
        ((with_adapter-Silent (execute p i token)).same w))

module _ (p : Platform) (b : Broker) (w : World) (i : EffectIntent)
    (here : row i.intent_id w ≡ some i) where
  mark_committed-Evolution :
      (v : World) (r t : Bool)
      → SameRows w v
      → Step Method.committing i.state EffectState.committed
      → Evolution Method.committing w (mark_committed p b i r t v).1
  unfolding mark_committed
  mark_committed-Evolution v r t same step = set_state-Evolution p b w i here _ _ _ _ _ v same step

  record_outcome-Evolution :
      (v : World) (o : Outcome)
      → SameRows w v
      → Step Method.committing i.state EffectState.committed
      → Step Method.committing i.state EffectState.ambiguous
      → Evolution Method.committing w (record_outcome p b i o v).1
  unfolding record_outcome
  record_outcome-Evolution v (Outcome.applied now) same done lost =
      then-Evolution w (mark_committed p b i (not now) (not now) v) _
        (mark_committed-Evolution v _ _ same done) (λ r. silent (λ u. refl))
  record_outcome-Evolution v Outcome.unacknowledged same done lost =
      then-Evolution w (announce p _ _ (set_state p _ _ _ _) v) _
        (set_state-Evolution p b w i here _ _ _ _ _ v same lost) (λ r. silent (λ u. refl))

  apply_or_reconcile-Evolution :
      (token : FencingToken) (already : Bool) (v : World)
      → SameRows w v
      → Step Method.committing i.state EffectState.committed
      → Step Method.committing i.state EffectState.ambiguous
      → Evolution Method.committing w (apply_or_reconcile p b i token already v).1
  unfolding apply_or_reconcile
  apply_or_reconcile-Evolution token true v same done lost =
      then-Evolution w (mark_committed p b i true false v) _
        (mark_committed-Evolution v _ _ same done) (λ r. silent (λ u. refl))
  apply_or_reconcile-Evolution token false v same done lost =
      after_unchanged (try_execute p b i token) _ w v same (try_execute-Silent p b i token)
        (λ o u same'. record_outcome-Evolution u o same' done lost)

  commit_fenced-Evolution :
      (token : FencingToken)
      → Step Method.committing i.state EffectState.committed
      → Step Method.committing i.state EffectState.ambiguous
      → Evolution Method.committing w (commit_fenced p b token i w).1
  unfolding commit_fenced
  commit_fenced-Evolution token done lost =
      after_unchanged (assert_fence i token) _ w w refl (assert_fence-Silent p b w i here token)
        (λ a v1 same1.
          after_unchanged (already_applied p i) _ w v1 same1 (already_applied-Silent p b i)
            (λ already v2 same2.
              after_unchanged (check_grant p b i already) _ w v2 same2
                (check_grant-Silent p b i already)
                (λ c v3 same3. apply_or_reconcile-Evolution token already v3 same3 done lost)))

  compensate_fenced-Evolution :
      (token : FencingToken)
      → Step Method.compensating i.state EffectState.compensated
      → Evolution Method.compensating w (compensate_fenced p b token i w).1
  unfolding compensate_fenced
  compensate_fenced-Evolution token undone =
      after_unchanged (assert_fence i token) _ w w refl (assert_fence-Silent p b w i here token)
        (λ a v1 same1.
          after_unchanged (raise_if (not (is_reversible i.effect_class)) invalid_transition) _ w v1
            same1 (raise_if-Silent _ _)
            (λ c v2 same2.
              after_unchanged (raise_if (missing i.compensation_action) invalid_transition) _ w v2
                same2 (raise_if-Silent _ _)
                (λ d v3 same3.
                  after_unchanged (with_adapter (compensate_target p i token)) _ w v3 same3
                    (with_adapter-Silent _)
                    (λ changed v4 same4.
                      set_state-Evolution p b w i here _ _ _ _ _ v4 same4 undone))))

  pub commit_from-Evolution :
      (token : FencingToken) (s : EffectState)
      → i.state ≡ s
      → Evolution Method.committing w (commit_from p b token i s w).1
  unfolding commit_from
  commit_from-Evolution token EffectState.proposed e = stay p b w i here
  commit_from-Evolution token EffectState.prepared e = stay p b w i here
  commit_from-Evolution token EffectState.approved e =
      commit_fenced-Evolution token (at_state p b w i here e Step.commits)
        (at_state p b w i here e Step.loses)
  commit_from-Evolution token EffectState.committed e = stay p b w i here
  commit_from-Evolution token EffectState.aborted e = stay p b w i here
  commit_from-Evolution token EffectState.ambiguous e =
      commit_fenced-Evolution token (at_state p b w i here e Step.reconciles)
        (at_state p b w i here e Step.stays)
  commit_from-Evolution token EffectState.compensated e = stay p b w i here

  pub compensate_from-Evolution :
      (token : FencingToken) (s : EffectState)
      → i.state ≡ s
      → Evolution Method.compensating w (compensate_from p b token i s w).1
  unfolding compensate_from
  compensate_from-Evolution token EffectState.proposed e = stay p b w i here
  compensate_from-Evolution token EffectState.prepared e = stay p b w i here
  compensate_from-Evolution token EffectState.approved e = stay p b w i here
  compensate_from-Evolution token EffectState.committed e =
      compensate_fenced-Evolution token (at_state p b w i here e Step.undoes)
  compensate_from-Evolution token EffectState.aborted e = stay p b w i here
  compensate_from-Evolution token EffectState.ambiguous e =
      compensate_fenced-Evolution token (at_state p b w i here e Step.undoes_unsure)
  compensate_from-Evolution token EffectState.compensated e = stay p b w i here
