-- ===== src/Effects/Histories.antt =====
-- Sequences of calls: every intent keeps its operation and moves along the state machine.
use finite_agent_physics.Prelude.{
  ◌≤◌, ◌≡◌, refl, ap, ◌∙◌, String, Bool, true, false, some, List, [], ◌∷◌, arith,
}
use finite_agent_physics.Effects.Types.{EffectState, EffectIntent, Platform, Broker}
use finite_agent_physics.Effects.Database.{World, change}
use finite_agent_physics.Effects.Calls.{EffectCall, call, run}
use finite_agent_physics.Effects.Evolution.{Method, method_of, Evolves, Step, row}
use finite_agent_physics.Effects.Lifecycle.{call-Evolution}

-- The states that a sequence of calls can lead through: each call in turn leaves the state, or
-- makes one transition of its own method.
pub data Trail : List (Broker × EffectCall) → EffectState → EffectState → Type 0 where
  here : {s : EffectState} → Trail [] s s
  next :
      {b : Broker} {c : EffectCall} {cs : List (Broker × EffectCall)} {s t u : EffectState}
      → Step (method_of c) s t
      → Trail cs t u
      → Trail ((b, c) ∷ cs) s u

-- The changes of an intent by a sequence of calls.
pub record Develops (cs : List (Broker × EffectCall)) (i j : EffectIntent) : Type 0 where
  pub operation : j.operation ≡ i.operation
  pub created : j.created_at_ms ≡ i.created_at_ms
  pub fence : i.fence_version ≤ j.fence_version
  pub path : Trail cs i.state j.state

first_change :
    (b : Broker) (c : EffectCall) (cs : List (Broker × EffectCall)) (i j l : EffectIntent)
    → Evolves (method_of c) i j
    → Develops cs j l
    → Develops ((b, c) ∷ cs) i l
first_change b c cs i j l x y = record {
  operation = y.operation ∙ x.operation;
  created = y.created ∙ x.created;
  fence = omega (arith, x.fence, y.fence);
  path = Trail.next x.step y.path;
}

-- In every sequence of calls of any brokers on one database, raising calls included: an intent that
-- is stored at the start is stored at the end, with the same operation and creation time and a
-- fence that is not lower. Its state went with the calls, in their order, where each call left it or
-- made one transition of its own method: prepare from proposed to prepared, approve from prepared
-- to approved, commit from approved to committed or ambiguous and from ambiguous to committed,
-- compensate from committed or ambiguous to compensated, and abort from proposed, prepared or
-- approved to aborted.
pub run-Develops :
    (p : Platform) (cs : List (Broker × EffectCall)) (w : World) (k : String) (i : EffectIntent)
    → row k w ≡ some i
    → (j : EffectIntent) × (row k (run p cs w) ≡ some j) × Develops cs i j
unfolding run
run-Develops p [] w k i e =
    (i, e, record { operation = refl; created = refl; fence = omega arith; path = Trail.here })
run-Develops p ((b, c) ∷ cs) w k i e =
    let (j, found_j, change) = call-Evolution p b c w k i e in
    let (l, found_l, path) = run-Develops p cs (call p b c w).1 k j found_j in
    (l, found_l, first_change b c cs i j l change path)

-- The states that no transition leaves.
abbrev pub is_final : EffectState → Bool
is_final EffectState.aborted = true
is_final EffectState.compensated = true
is_final _ = false

last_state : {how : Method} → (s t : EffectState) → is_final s ≡ true → Step how s t → t ≡ s
last_state s t h Step.stays = refl
last_state s t h Step.prepares = cc
last_state s t h Step.approves = cc
last_state s t h Step.commits = cc
last_state s t h Step.loses = cc
last_state s t h Step.reconciles = cc
last_state s t h Step.undoes = cc
last_state s t h Step.undoes_unsure = cc
last_state s t h Step.drops_proposed = cc
last_state s t h Step.drops_prepared = cc
last_state s t h Step.drops_approved = cc

pub final-Trail :
    {cs : List (Broker × EffectCall)}
    → (s t : EffectState) → is_final s ≡ true
    → Trail cs s t
    → t ≡ s
final-Trail s t h Trail.here = refl
final-Trail s t h (Trail.next step path) =
    let same = last_state s _ h step in final-Trail _ t (ap is_final same ∙ h) path ∙ same

-- Whatever calls any brokers make, an intent that is aborted or compensated stays so.
pub final_stays :
    (p : Platform) (cs : List (Broker × EffectCall)) (w : World) (k : String) (i : EffectIntent)
    → row k w ≡ some i
    → is_final i.state ≡ true
    → (j : EffectIntent) × (row k (run p cs w) ≡ some j) × (j.state ≡ i.state)
final_stays p cs w k i e h =
    let (j, found_j, d) = run-Develops p cs w k i e in
    (j, found_j, final-Trail i.state j.state h d.path)
