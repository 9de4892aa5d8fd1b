-- ===== src/Effects/Calls.antt =====
-- The calls of brokers that share one database and one target, and sequences of them.
use finite_agent_physics.Prelude.{String, Option, List, [], ◌∷◌, ◌>>=◌, pure}
use finite_agent_physics.Effects.Types.{Operation, FencingToken, ApprovalGrant, Platform, Broker}
use finite_agent_physics.Effects.Database.{World, Kernel}
use finite_agent_physics.Effects.Proposals.{propose, prepare, acquire_fence, abort}
use finite_agent_physics.Effects.Approval.{approve}
use finite_agent_physics.Effects.Commit.{commit, compensate}
use finite_agent_physics.Effects.Outbox.{mark_outbox_published}

pub data EffectCall : Type 0 where
  proposes : Option String → Operation → EffectCall
  prepares : String → EffectCall
  fences : String → EffectCall
  approves : String → FencingToken → Option ApprovalGrant → EffectCall
  commits : String → FencingToken → EffectCall
  compensates : String → FencingToken → EffectCall
  aborts : String → Option FencingToken → EffectCall
  publishes : String → EffectCall

abbrev pub discard : {A : Type 0} → Kernel A → Kernel (Unit {0})
discard m = m >>= λ a. pure tt

module _ (p : Platform) where
  unfoldable pub call : Broker → EffectCall → Kernel (Unit {0})
  unfolding propose prepare acquire_fence approve commit compensate abort mark_outbox_published
  call b (EffectCall.proposes k o) = discard (propose p k o)
  call b (EffectCall.prepares k) = discard (prepare p b k)
  call b (EffectCall.fences k) = discard (acquire_fence p b k)
  call b (EffectCall.approves k token grant) = discard (approve p b k token grant)
  call b (EffectCall.commits k token) = discard (commit p b k token)
  call b (EffectCall.compensates k token) = discard (compensate p b k token)
  call b (EffectCall.aborts k token) = discard (abort p k token)
  call b (EffectCall.publishes k) = mark_outbox_published p k

  -- Calls in the order in which the database serialises them, each with the broker that makes it.
  unfoldable pub run : List (Broker × EffectCall) → World → World
  unfolding call
  run [] w = w
  run ((b, c) ∷ cs) w = run cs (call b c w).1
