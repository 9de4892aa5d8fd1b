-- ===== src/Effects/Evolution.antt =====
-- How an intent may change, and what the row operations do to the intents.
use finite_agent_physics.Prelude.{
  ◌≤◌, ◌≡◌, refl, ap, String, Option, some, List, [], ◌∷◌, ◌=ˢ◌, arith, eq_iff, if◌then◌else◌,
}
use finite_agent_physics.Effects.Types.{EffectState, EffectIntent}
use finite_agent_physics.Effects.Calls.{EffectCall}
use finite_agent_physics.Effects.Database.{World, find_intent, update_intents}

-- The methods, and the one that a call makes.
pub data Method : Type 0 where
  proposing : Method
  preparing : Method
  fencing : Method
  approving : Method
  committing : Method
  compensating : Method
  aborting : Method
  publishing : Method

abbrev pub method_of : EffectCall → Method
method_of (EffectCall.proposes _ _) = Method.proposing
method_of (EffectCall.prepares _) = Method.preparing
method_of (EffectCall.fences _) = Method.fencing
method_of (EffectCall.approves _ _ _) = Method.approving
method_of (EffectCall.commits _ _) = Method.committing
method_of (EffectCall.compensates _ _) = Method.compensating
method_of (EffectCall.aborts _ _) = Method.aborting
method_of (EffectCall.publishes _) = Method.publishing

-- The transitions of the state machine, each with the method that makes it. Every method may leave
-- the state as it is.
pub data Step : Method → EffectState → EffectState → Type 0 where
  stays : {how : Method} {s : EffectState} → Step how s s
  prepares : Step Method.preparing EffectState.proposed EffectState.prepared
  approves : Step Method.approving EffectState.prepared EffectState.approved
  commits : Step Method.committing EffectState.approved EffectState.committed
  loses : Step Method.committing EffectState.approved EffectState.ambiguous
  reconciles : Step Method.committing EffectState.ambiguous EffectState.committed
  undoes : Step Method.compensating EffectState.committed EffectState.compensated
  undoes_unsure : Step Method.compensating EffectState.ambiguous EffectState.compensated
  drops_proposed : Step Method.aborting EffectState.proposed EffectState.aborted
  drops_prepared : Step Method.aborting EffectState.prepared EffectState.aborted
  drops_approved : Step Method.aborting EffectState.approved EffectState.aborted

-- One change of an intent by a method: its operation and its time of creation stay, its fence only
-- grows, and its state makes a transition of that method.
pub record Evolves (how : Method) (i j : EffectIntent) : Type 0 where
  pub operation : j.operation ≡ i.operation
  pub created : j.created_at_ms ≡ i.created_at_ms
  pub fence : i.fence_version ≤ j.fence_version
  pub step : Step how i.state j.state

abbrev pub Evolved : Method → EffectIntent → Option EffectIntent → Type 0
Evolved how i o = (j : EffectIntent) × (o ≡ some j) × Evolves how i j

abbrev pub row : String → World → Option EffectIntent
row k w = find_intent k w.database.intents

-- Every intent of the first world is in the second, as it was or one change by the method later.
abbrev pub Evolution : Method → World → World → Type 0
Evolution how w w' = (k : String) (i : EffectIntent) → row k w ≡ some i → Evolved how i (row k w')

pub Evolves-self : {how : Method} → (i : EffectIntent) → Evolves how i i
Evolves-self i = record { operation = refl; created = refl; fence = omega arith; step = Step.stays }

pub row_id :
    (k : String) (i : EffectIntent) (is : List EffectIntent)
    → find_intent k is ≡ some i
    → i.intent_id ≡ k
unfolding find_intent
row_id k i [] h = cc
row_id k i (x ∷ is) h = ground (arith, eq_iff k x.intent_id, row_id k i is)

pub row-update :
    (k l : String) (f : EffectIntent → EffectIntent) (is : List EffectIntent) (i : EffectIntent)
    → ((x : EffectIntent) → (f x).operation ≡ x.operation)
    → find_intent k is ≡ some i
    → find_intent k (update_intents l f is) ≡ some (if k =ˢ l then f i else i)
unfolding find_intent update_intents
row-update k l f [] i same h = cc
row-update k l f (x ∷ is) i same h =
    let keeps = ap (λ o. o.intent_id) (same x) in
    ground (
      arith,
      eq_iff k x.intent_id,
      eq_iff l x.intent_id,
      eq_iff k l,
      eq_iff k (f x).intent_id,
      keeps,
      row-update k l f is i same,
    )
