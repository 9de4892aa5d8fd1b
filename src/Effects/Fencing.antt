-- ===== src/Effects/Fencing.antt =====
-- Fencing: a token that was overtaken never reaches the target again.
use finite_agent_physics.Prelude.{
  ◌≡◌, ◌<◌, ap, String, true, Option, some, List, inl, inr, arith, ==_iff,
}
use finite_agent_physics.Effects.Types.{EffectIntent, FencingToken, Platform, Broker}
use finite_agent_physics.Effects.Database.{World, has_fence}
use finite_agent_physics.Effects.Commit.{commit}
use finite_agent_physics.Effects.Calls.{EffectCall, run}
use finite_agent_physics.Effects.Evolution.{row}
use finite_agent_physics.Effects.Histories.{run-Develops}
use finite_agent_physics.Effects.Commitment.{commit-Authorized}

fence_version :
    (i : EffectIntent) (token : FencingToken)
    → has_fence i token ≡ true
    → token.version ≡ i.fence_version
unfolding has_fence
fence_version i token h = ground (arith, ==_iff token.version i.fence_version)

same_row : {A : Type 0} {x y : A} {o : Option A} → o ≡ some x → o ≡ some y → x ≡ y
same_row h k = cc

-- Once the stored fence of an intent is above the version of a token, as after acquire_fence by
-- another broker, no commit with that token changes the target, by whichever broker and after
-- whatever further calls.
pub overtaken_token :
    (p : Platform) (b : Broker) (cs : List (Broker × EffectCall)) (w : World) (k : String)
    (token : FencingToken) (i : EffectIntent)
    → row k w ≡ some i
    → token.version < i.fence_version
    → (commit p b k token (run p cs w)).1.adapter ≡ (run p cs w).adapter
overtaken_token p b cs w k token i e behind =
    let (j, found_j, d) = run-Develops p cs w k i e in
    elim (commit-Authorized p b k token (run p cs w)) [
      | inl h ↦ h
      | inr (x, found_x, a) ↦
          let same = ap (λ y. y.fence_version) (same_row found_x found_j) in
          absurd (omega (arith, fence_version x token a.fence, same, d.fence, behind))
    ]
