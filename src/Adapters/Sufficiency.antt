-- ===== src/Adapters/Sufficiency.antt =====
-- What an accepted set of bindings has.
use finite_agent_physics.Prelude.{
  subst, ◌≤◌, ◌≡◌, refl, String, Bool, true, false, not, ◌&&◌, Option, none, some, List, [], ◌∷◌,
  ◌++◌, ◌=ˢ◌, if◌then◌else◌, Result, ok, err, All, selected_none, arith,
}
use finite_agent_physics.Effects.Types.{writes}
use finite_agent_physics.Adapters.Capabilities.{
  cancellation_rank, checkpoint_rank, usage_rank, AdapterRequirements, AdapterCapabilities,
  AdapterError, supports, Binding, validate, shortfalls, shortfall_tests, negotiate_manifest,
  negotiate, negotiate_all, validate_adapter_bindings,
}

-- A manifest that gives at least what is required.
pub record Sufficient (b : Binding) (r : AdapterRequirements) (c : AdapterCapabilities)
    : Type 0 where
  pub valid : validate c ≡ []
  pub provider : (c.provider =ˢ b.profile_provider) ≡ true
  pub cancellation : cancellation_rank r.cancellation ≤ cancellation_rank c.cancellation
  pub checkpoint : checkpoint_rank r.checkpoint ≤ checkpoint_rank c.checkpoint
  pub streaming : r.streaming ≡ true → c.streaming ≡ true
  pub usage : usage_rank r.usage ≤ usage_rank c.usage
  pub fencing : r.effect_fencing ≡ true → c.effect_fencing ≡ true
  pub retries : c.hidden_retries_max ≤ r.max_hidden_retries
  pub effect : supports b.effect_kind c.supported_effects ≡ true

-- Every requirement of a task that does not write is met by the manifest of its worker.
abbrev pub Served : Binding → Type 0
Served b =
    (r : AdapterRequirements)
    → b.requirement ≡ some r
    → writes b.effect_kind ≡ false
    → (c : AdapterCapabilities) × (b.manifest ≡ some c) × Sufficient b r c

some_inj : {A : Type 0} {x y : A} → some x ≡ some y → x ≡ y
some_inj h = cc

both_nil : {A : Type 0} (xs ys : List A) → xs ++ ys ≡ [] → (xs ≡ []) × (ys ≡ [])
both_nil [] ys h = (refl, h)
both_nil (x ∷ xs) ys h = cc

implied : (c d : Bool) → (c && not d) ≡ false → c ≡ true → d ≡ true
implied true true h e = refl
implied true false h e = cc
implied false d h e = cc

affirmed : (c : Bool) → not c ≡ false → c ≡ true
affirmed true h = refl
affirmed false h = cc

no_shortfall :
    (b : Binding) (r : AdapterRequirements) (c : AdapterCapabilities)
    → validate c ≡ []
    → shortfalls b r c ≡ []
    → Sufficient b r c
unfolding shortfall_tests
no_shortfall b r c v h =
    let passed = selected_none (shortfall_tests b r c) h in
    record {
      valid = v;
      provider = affirmed _ passed.0;
      cancellation = ground (arith, passed.1.0);
      checkpoint = ground (arith, passed.1.1.0);
      streaming = implied r.streaming c.streaming passed.1.1.1.0;
      usage = ground (arith, passed.1.1.1.1.0);
      fencing = implied r.effect_fencing c.effect_fencing passed.1.1.1.1.1.0;
      retries = ground (arith, passed.1.1.1.1.1.1.0);
      effect = affirmed _ passed.1.1.1.1.1.1.1.0;
    }

manifest_served :
    (b : Binding) (r : AdapterRequirements) (m : Option AdapterCapabilities)
    → (negotiate_manifest b r m).0 ≡ []
    → (c : AdapterCapabilities) × (m ≡ some c) × Sufficient b r c
unfolding negotiate_manifest
manifest_served b r none h = cc
manifest_served b r (some c) h = (c, refl, checked (validate c) refl h)
  where
    checked :
        (es : List AdapterError)
        → validate c ≡ es
        → (elim es as (λ x. List AdapterError × List (String × AdapterCapabilities)) [
          | [] ↦ (shortfalls b r c, (b.task_id, c) ∷ [])
          | e ∷ es' ↦ (e ∷ es', [])
        ]).0
          ≡ []
        → Sufficient b r c
    checked [] v h = no_shortfall b r c v h
    checked (e ∷ es) v h = cc

served : (b : Binding) → (negotiate b b.requirement).0 ≡ [] → Served b
unfolding negotiate
served b h r e quiet = manifest_served b r b.manifest (bound b.requirement e h)
  where
    unwritten :
        {A : Type 0} (c : Bool) (m n : List AdapterError × List A)
        → c ≡ false
        → (if c then m else n).0 ≡ []
        → n.0 ≡ []
    unwritten true m n f h = cc
    unwritten false m n f h = h

    bound :
        (o : Option AdapterRequirements)
        → o ≡ some r
        → (negotiate b o).0 ≡ []
        → (negotiate_manifest b r b.manifest).0 ≡ []
    bound none e h = cc
    bound (some q) e h =
        subst (λ x. (negotiate_manifest b x b.manifest).0 ≡ []) (some_inj e)
          (unwritten (writes b.effect_kind) _ _ quiet h)

bindings-Served : (bs : List Binding) → (negotiate_all bs).0 ≡ [] → All Served bs
unfolding negotiate_all
bindings-Served [] h = tt
bindings-Served (b ∷ bs) h =
    let (here, there) = both_nil (negotiate b b.requirement).0 (negotiate_all bs).0 h in
    (served b here, bindings-Served bs there)

-- Where validate_adapter_bindings accepts, every task that has requirements and does not write has
-- a worker with a manifest that is valid, that names the provider of the selected profile and the
-- task's effect, and that gives at least the cancellation, checkpoints, streaming, usage and fencing
-- that are required, with no more hidden retries than allowed.
pub accepted_bindings-Served :
    (bs : List Binding) (accepted : List (String × AdapterCapabilities))
    → validate_adapter_bindings bs ≡ ok accepted
    → All Served bs
unfolding validate_adapter_bindings
accepted_bindings-Served bs accepted h = no_errors (negotiate_all bs).0 refl h
  where
    no_errors :
        (es : List AdapterError)
        → (negotiate_all bs).0 ≡ es
        → (elim es as (λ x. Result (List AdapterError) (List (String × AdapterCapabilities))) [
          | [] ↦ ok (negotiate_all bs).1
          | e ∷ es' ↦ err (e ∷ es')
        ])
          ≡ ok accepted
        → All Served bs
    no_errors [] e h = bindings-Served bs e
    no_errors (x ∷ es) e h = cc
