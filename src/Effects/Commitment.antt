-- ===== src/Effects/Commitment.antt =====
-- When a commit calls the target.
use finite_agent_physics.Prelude.{
  ◌≡◌, refl, sym, ap, ◌∙◌, subst, String, Bool, true, false, not, some, Result, ok, err,
  Option-cases, inl, inr, ◌⊎◌, ◌>>=◌, continue, raise_if,
}
use finite_agent_physics.Effects.Types.{
  EffectError, EffectState, EffectIntent, FencingToken, Platform, Broker, is_irreversible,
  stale_fence,
}
use finite_agent_physics.Effects.Database.{
  Database, World, Kernel, transaction, roll_back, load, found, find_intent, has_fence,
  assert_fence,
}
use finite_agent_physics.Effects.Commit.{
  already_applied, check_grant, mark_committed, apply_or_reconcile, commit_fenced, commit_from,
  commit_loaded, commit, raise_ambiguity,
}
use finite_agent_physics.Effects.Evolution.{row}
use finite_agent_physics.Effects.Authority.{Stored, Authorized, negated, check_grant_ok}
use finite_agent_physics.Effects.Targets.{
  Kept, Quiet, quiet, then-Kept, check_grant-Quiet, mark_committed-Quiet, already_applied_same,
}

after_guard :
    {A G : Type 0} (c : Bool) (e : EffectError) (f : Unit {0} → Kernel A) (w : World)
    → (c ≡ false → Kept w (f tt w).1 ⊎ G)
    → Kept w (continue (raise_if c e w) f).1 ⊎ G
after_guard true e f w h = inl refl
after_guard false e f w h = h refl

module _ (p : Platform) (b : Broker) where
  -- A step that keeps the world, and what follows it.
  after_same :
      {A B G : Type 0} (w : World) (r : Result EffectError A × World) (f : A → Kernel B)
      → r.1 ≡ w
      → ((a : A) → r.0 ≡ ok a → Kept w (f a w).1 ⊎ G)
      → Kept w (continue r f).1 ⊎ G
  after_same w (ok a, v) f h fs = elim (fs a refl) [
    | inl k ↦ inl (subst (λ u. Kept w (f a u).1) (sym h) k)
    | inr g ↦ inr g
  ]
  after_same w (err e, v) f h fs = inl (ap (λ u. u.adapter) h)

  after_quiet :
      {A B G : Type 0} (w : World) (r : Result EffectError A × World) (f : A → Kernel B)
      → Kept w r.1
      → ((a : A) → r.0 ≡ ok a → G)
      → Kept w (continue r f).1 ⊎ G
  after_quiet w (ok a, v) f h g = inr (g a refl)
  after_quiet w (err e, v) f h g = inl h

  apply_or_reconcile-Quiet :
      (i : EffectIntent) (token : FencingToken) → Quiet (apply_or_reconcile p b i token true)
  unfolding apply_or_reconcile
  apply_or_reconcile-Quiet i token = quiet (λ w.
      then-Kept w (mark_committed p b i true false w) _
        ((mark_committed-Quiet p b i true false).kept w) (λ r. quiet (λ u. refl)))

  module _ (token : FencingToken) (i : EffectIntent) (w : World) where
    after_check :
        (already : Bool)
        → Kept w ((check_grant p b i already >>= λ c. apply_or_reconcile p b i token already) w).1
          ⊎ (is_irreversible i.effect_class ≡ true → Stored p b i w)
    after_check true = inl (
        then-Kept w (check_grant p b i true w) _ ((check_grant-Quiet p b i true).kept w)
          (λ c. apply_or_reconcile-Quiet i token))
    after_check false =
        after_quiet w (check_grant p b i false w) _ ((check_grant-Quiet p b i false).kept w)
          (λ c e irreversible. check_grant_ok p b i w c irreversible e)

    commit_fenced_or :
        ((i.state ≡ EffectState.approved) ⊎ (i.state ≡ EffectState.ambiguous))
        → Kept w (commit_fenced p b token i w).1 ⊎ Authorized p b token i w
    unfolding commit_fenced assert_fence
    commit_fenced_or state = after_guard (not (has_fence i token)) stale_fence _ w (λ fenced.
        elim (after_same w (already_applied p i w)
          (λ already. check_grant p b i already >>= λ c. apply_or_reconcile p b i token already)
          (already_applied_same p i w) (λ already e. after_check already)) [
            | inl k ↦ inl k
            | inr approval ↦ inr (record {
              state = state;
              fence = negated (has_fence i token) fenced;
              approval = approval;
            })
          ])

    commit_from_or :
        (s : EffectState)
        → i.state ≡ s
        → Kept w (commit_from p b token i s w).1 ⊎ Authorized p b token i w
    unfolding commit_from
    commit_from_or EffectState.approved e = commit_fenced_or (inl e)
    commit_from_or EffectState.ambiguous e = commit_fenced_or (inr e)
    commit_from_or EffectState.proposed e = inl refl
    commit_from_or EffectState.prepared e = inl refl
    commit_from_or EffectState.committed e = inl refl
    commit_from_or EffectState.aborted e = inl refl
    commit_from_or EffectState.compensated e = inl refl

  rolled_back :
      {A : Type 0} (m : Kernel A) (w : World) → (transaction m w).1.adapter ≡ (m w).1.adapter
  unfolding transaction
  rolled_back m w = same_target w.database (m w)
    where
      same_target :
          {A : Type 0} (d : Database) (r : Result EffectError A × World)
          → (roll_back d r).1.adapter ≡ r.1.adapter
      same_target d (ok a, w) = refl
      same_target d (err e, w) = refl

  raise_ambiguity-Quiet : (r : EffectIntent × Bool) → Quiet (raise_ambiguity p b r)
  unfolding raise_ambiguity
  raise_ambiguity-Quiet (i, true) = quiet (λ w. refl)
  raise_ambiguity-Quiet (i, false) = quiet (λ w. refl)

  commit_kept :
      (k : String) (token : FencingToken) (w : World)
      → (commit p b k token w).1.adapter ≡ ((load k >>= commit_loaded p b token) w).1.adapter
  unfolding commit
  commit_kept k token w =
      let body = load k >>= commit_loaded p b token in
      kept_after (transaction body w) ∙ rolled_back body w
    where
      kept_after :
          (r : Result EffectError (EffectIntent × Bool) × World)
          → (continue r (raise_ambiguity p b)).1.adapter ≡ r.1.adapter
      kept_after r = then-Kept r.1 r (raise_ambiguity p b) refl raise_ambiguity-Quiet

  -- A commit, whatever its result, changes the target only where the database has the intent in
  -- state approved or ambiguous with exactly the fence of the token, and, for an irreversible write,
  -- with a stored grant that a trusted key signed, for the exact scope of the intent, and that is in
  -- force at the time the commit reads.
  pub commit-Authorized :
      (k : String) (token : FencingToken) (w : World)
      → ((commit p b k token w).1.adapter ≡ w.adapter)
        ⊎ ((i : EffectIntent) × (row k w ≡ some i) × Authorized p b token i w)
  unfolding load found commit_loaded
  commit-Authorized k token w = elim (Option-cases (find_intent k w.database.intents)) [
    | inl e ↦ inl (rw (commit_kept k token w, e) refl)
    | inr (i, e) ↦ elim (commit_from_or token i w i.state refl) [
      | inl h ↦ inl (rw (commit_kept k token w, e) h)
      | inr a ↦ inr (i, e, a)
    ]
  ]
