-- ===== src/Effects/Machine.antt =====
-- What each method does after its look-up, as a change of the intent that was found.
use finite_agent_physics.Prelude.{
  ℕ, ◌++◌, ◌&&◌, is_empty, leb, ltb, ◌=ˢ◌, subst, ◌≡◌, refl, sym, String, Bool, true, not, Option,
  none, some, List, [], ◌∷◌, arith, ◌>>◌, raise_if,
}
use finite_agent_physics.Effects.Types.{
  EffectState, EffectIntent, FencingToken, ApprovalGrant, Details, Platform, Broker, stale_fence,
  is_irreversible, invalid_approval,
}
use finite_agent_physics.Effects.Database.{
  World, Kernel, assert_fence, has_fence, set_state, announce, read_clock, coalesce,
}
use finite_agent_physics.Effects.Proposals.{
  prepare_from, prepare_row, fence_from, fence_anew, abort_from, abort_fenced, abort_now,
}
use finite_agent_physics.Effects.Approval.{
  approve_from, approve_fenced, replay_approval, is_replay_of, consume, store_grant, verify_grant,
  verify_under, in_scope, is_consumed,
}
use finite_agent_physics.Effects.Evolution.{Method, Evolution, Step, row}
use finite_agent_physics.Effects.Rows.{
  SameRows, raise_then, Silent, silent, raise_if-Silent, if-Silent, bind-Silent, SameRows-Evolution,
  after_unchanged, row-Evolution,
}

guard_then :
    {A : Type 0} {m : Kernel A} (c : Bool) → Silent m → Silent (raise_if c invalid_approval >> m)
guard_then {A} {m} c h =
    bind-Silent (raise_if c invalid_approval) (λ a. m) (raise_if-Silent c invalid_approval) (λ a. h)

module _ (p : Platform) (b : Broker) where
  read_clock-Silent : Silent (read_clock p)
  unfolding read_clock
  read_clock-Silent = silent (λ w. refl)

  verify_under-Silent :
      (i : EffectIntent) (g : ApprovalGrant) (t : Bool) (o : Option (List ℕ))
      → Silent (verify_under p i g t o)
  unfolding verify_under
  verify_under-Silent i g t none = (silent (λ w. refl))
  verify_under-Silent i g t (some secret) =
      guard_then (not (p.sign secret g.claims =ˢ g.signature)) (
        guard_then (is_empty g.principal) (
          guard_then (not (in_scope p i g)) (
            bind-Silent (read_clock p) _ read_clock-Silent (λ now.
              guard_then (leb g.expires_at_ms g.not_before_ms) (
                raise_if-Silent (t && not (leb g.not_before_ms now && ltb now g.expires_at_ms))
                  invalid_approval)))))

  pub verify_grant-Silent :
      (i : EffectIntent) (g : ApprovalGrant) (t : Bool) → Silent (verify_grant p b i g t)
  unfolding verify_grant
  verify_grant-Silent i g t = verify_under-Silent i g t _

  store_grant-Silent : (g : ApprovalGrant) → Silent (store_grant p g)
  unfolding store_grant
  store_grant-Silent g = silent (λ w.
      raise_then (is_consumed g w.database.grants) invalid_approval
        (λ d. record d { grants = d.grants ++ g ∷ [] }) (some g.grant_id) w refl)

  pub consume-Silent :
      (i : EffectIntent) (grant : Option ApprovalGrant) → Silent (consume p b i grant)
  unfolding consume
  consume-Silent i none =
      if-Silent (is_irreversible i.effect_class) _ _ (silent (λ w. refl)) (silent (λ w. refl))
  consume-Silent i (some g) =
      if-Silent (is_irreversible i.effect_class) _ _
        (bind-Silent (verify_grant p b i g true) _ (verify_grant-Silent i g true)
          (λ a. store_grant-Silent g))
        (silent (λ w. refl))

module _ (p : Platform) (b : Broker) (w : World) (i : EffectIntent)
    (here : row i.intent_id w ≡ some i) where
  pub set_state-Evolution :
      {how : Method}
      → (t : String) (d : EffectIntent → Details) (s : EffectState) (g e : Option String)
        (v : World)
      → SameRows w v
      → Step how i.state s
      → Evolution how w (announce p t d (set_state p i.intent_id s g e) v).1
  unfolding set_state
  set_state-Evolution t d s g e v same step =
      row-Evolution p t d
        (λ r. record r {
          state = s;
          approval_grant_id = coalesce g r.approval_grant_id;
          last_error = e;
        })
        i w v same here (λ x. refl)
        (record { operation = refl; created = refl; fence = omega arith; step = step })

  pub stay : {how : Method} → Evolution how w w
  stay = SameRows-Evolution w w refl

  pub at_state :
      {s t : EffectState} {how : Method} → i.state ≡ s → Step how s t → Step how i.state t
  at_state {s} {t} {how} e step = subst (λ x. Step how x t) (sym e) step

  pub assert_fence-Silent : (token : FencingToken) → Silent (assert_fence i token)
  unfolding assert_fence
  assert_fence-Silent token = raise_if-Silent (not (has_fence i token)) stale_fence

  prepare_now :
      i.state ≡ EffectState.proposed → Evolution Method.preparing w (prepare_row p b i w).1
  unfolding prepare_row
  prepare_now e =
      row-Evolution p _ _ _ i w w refl here (λ x. refl)
        (record {
          operation = refl;
          created = refl;
          fence = omega arith;
          step = at_state e Step.prepares;
        })

  fence_anew-Evolution : Evolution Method.fencing w (fence_anew p b i w).1
  unfolding fence_anew
  fence_anew-Evolution =
      row-Evolution p _ _ _ i w w refl here (λ x. refl)
        (record { operation = refl; created = refl; fence = omega arith; step = Step.stays })

  abort_now-Evolution :
      (v : World)
      → SameRows w v
      → Step Method.aborting i.state EffectState.aborted
      → Evolution Method.aborting w (abort_now p i v).1
  unfolding abort_now
  abort_now-Evolution v same step = set_state-Evolution _ _ _ _ _ v same step

  abort_fenced-Evolution :
      (token : Option FencingToken)
      → Step Method.aborting i.state EffectState.aborted
      → Evolution Method.aborting w (abort_fenced p i token w).1
  unfolding abort_fenced
  abort_fenced-Evolution none step = stay
  abort_fenced-Evolution (some token) step =
      after_unchanged (assert_fence i token) _ w w refl (assert_fence-Silent token)
        (λ a v same. abort_now-Evolution v same step)

  replay_approval-Evolution :
      (grant : Option ApprovalGrant) → Evolution Method.approving w (replay_approval p i grant w).1
  unfolding replay_approval
  replay_approval-Evolution grant =
      after_unchanged (raise_if (not (is_replay_of p i grant)) invalid_approval) _ w w refl
        (raise_if-Silent _ _) (λ a v same. SameRows-Evolution w v same)

  approve_fenced-Evolution :
      (token : FencingToken) (grant : Option ApprovalGrant)
      → i.state ≡ EffectState.prepared
      → Evolution Method.approving w (approve_fenced p b token grant i w).1
  unfolding approve_fenced
  approve_fenced-Evolution token grant e =
      after_unchanged (assert_fence i token) _ w w refl (assert_fence-Silent token) (λ a v same.
        after_unchanged (consume p b i grant) _ w v same (consume-Silent p b i grant)
          (λ g v' same'. set_state-Evolution _ _ _ g none v' same' (at_state e Step.approves)))

  pub prepare_from-Evolution :
      (s : EffectState) → i.state ≡ s → Evolution Method.preparing w (prepare_from p b i s w).1
  unfolding prepare_from
  prepare_from-Evolution EffectState.proposed e = prepare_now e
  prepare_from-Evolution EffectState.prepared e = stay
  prepare_from-Evolution EffectState.approved e = stay
  prepare_from-Evolution EffectState.committed e = stay
  prepare_from-Evolution EffectState.aborted e = stay
  prepare_from-Evolution EffectState.ambiguous e = stay
  prepare_from-Evolution EffectState.compensated e = stay

  pub fence_from-Evolution :
      (s : EffectState) → i.state ≡ s → Evolution Method.fencing w (fence_from p b i s w).1
  unfolding fence_from
  fence_from-Evolution EffectState.proposed e = stay
  fence_from-Evolution EffectState.prepared e = fence_anew-Evolution
  fence_from-Evolution EffectState.approved e = fence_anew-Evolution
  fence_from-Evolution EffectState.committed e = stay
  fence_from-Evolution EffectState.aborted e = stay
  fence_from-Evolution EffectState.ambiguous e = fence_anew-Evolution
  fence_from-Evolution EffectState.compensated e = stay

  pub abort_from-Evolution :
      (token : Option FencingToken) (s : EffectState)
      → i.state ≡ s
      → Evolution Method.aborting w (abort_from p token i s w).1
  unfolding abort_from
  abort_from-Evolution token EffectState.proposed e =
      abort_now-Evolution w refl (at_state e Step.drops_proposed)
  abort_from-Evolution token EffectState.prepared e =
      abort_fenced-Evolution token (at_state e Step.drops_prepared)
  abort_from-Evolution token EffectState.approved e =
      abort_fenced-Evolution token (at_state e Step.drops_approved)
  abort_from-Evolution token EffectState.committed e = stay
  abort_from-Evolution token EffectState.aborted e = stay
  abort_from-Evolution token EffectState.ambiguous e = stay
  abort_from-Evolution token EffectState.compensated e = stay

  pub approve_from-Evolution :
      (token : FencingToken) (grant : Option ApprovalGrant) (s : EffectState)
      → i.state ≡ s
      → Evolution Method.approving w (approve_from p b token grant i s w).1
  unfolding approve_from
  approve_from-Evolution token grant EffectState.proposed e = stay
  approve_from-Evolution token grant EffectState.prepared e = approve_fenced-Evolution token grant e
  approve_from-Evolution token grant EffectState.approved e = replay_approval-Evolution grant
  approve_from-Evolution token grant EffectState.committed e = replay_approval-Evolution grant
  approve_from-Evolution token grant EffectState.aborted e = stay
  approve_from-Evolution token grant EffectState.ambiguous e = replay_approval-Evolution grant
  approve_from-Evolution token grant EffectState.compensated e = replay_approval-Evolution grant
