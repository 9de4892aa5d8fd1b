-- ===== src/Effects/Authority.antt =====
-- What a commit must find before it calls the target: the state, the fence, and for an irreversible
-- write the stored grant.
use finite_agent_physics.Prelude.{
  ℕ, suc, ◌≡◌, refl, String, Bool, true, false, not, ◌&&◌, Option, none, some, List, Result, ok,
  is_empty, ◌⊎◌, ◌>>=◌, continue, raise_if, pure, if◌then◌else◌, leb, ltb, ◌=ˢ◌, lookup,
}
use finite_agent_physics.Effects.Types.{
  EffectError, EffectState, EffectIntent, FencingToken, ApprovalGrant, Platform, Broker,
  is_irreversible, invalid_approval,
}
use finite_agent_physics.Effects.Database.{World, Kernel, has_fence, read_clock}
use finite_agent_physics.Effects.Approval.{
  stored_grant, verify_grant, verify_under, grant_named, grant_row, in_scope, find_grant,
}
use finite_agent_physics.Effects.Commit.{check_grant}

-- A grant that a trusted key signed for exactly this intent, and that is in force at a time.
pub record InForce (p : Platform) (b : Broker) (i : EffectIntent) (g : ApprovalGrant) (now : ℕ)
    : Type 0 where
  pub secret : List ℕ
  pub trusted : lookup g.key_id b.trusted_keys ≡ some secret
  pub signed : (p.sign secret g.claims =ˢ g.signature) ≡ true
  pub named : is_empty g.principal ≡ false
  pub scoped : in_scope p i g ≡ true
  pub started : leb g.not_before_ms now ≡ true
  pub unexpired : ltb now g.expires_at_ms ≡ true

-- The approval that the database stores for an intent.
pub record Stored (p : Platform) (b : Broker) (i : EffectIntent) (w : World) : Type 0 where
  pub grant : ApprovalGrant
  pub grant_id : String
  pub recorded : i.approval_grant_id ≡ some grant_id
  pub present : find_grant grant_id w.database.grants ≡ some grant
  pub in_force : InForce p b i grant (p.clock_ms w.clock_reads)

pub record Authorized (p : Platform) (b : Broker) (token : FencingToken) (i : EffectIntent)
    (w : World) : Type 0 where
  pub state : (i.state ≡ EffectState.approved) ⊎ (i.state ≡ EffectState.ambiguous)
  pub fence : has_fence i token ≡ true
  pub approval : is_irreversible i.effect_class ≡ true → Stored p b i w

pub guard_ok :
    {A : Type 0} (c : Bool) (e : EffectError) (f : Unit {0} → Kernel A) (w : World) {r : A}
    → (continue (raise_if c e w) f).0 ≡ ok r
    → (c ≡ false) × ((f tt w).0 ≡ ok r)
guard_ok true e f w h = cc
guard_ok false e f w h = (refl, h)

pub negated : (c : Bool) → not c ≡ false → c ≡ true
negated true h = refl
negated false h = cc

both_true : (c d : Bool) → (c && d) ≡ true → (c ≡ true) × (d ≡ true)
both_true true true h = (refl, refl)
both_true true false h = cc
both_true false d h = cc

taken_branch :
    {A : Type 0} {x : Result EffectError A} (c : Bool) (m n : Kernel A) (w : World)
    → c ≡ true
    → ((if c then m else n) w).0 ≡ x
    → (m w).0 ≡ x
taken_branch true m n w e h = h
taken_branch false m n w e h = cc

module _ (p : Platform) (b : Broker) where
  verify_under_ok :
      (i : EffectIntent) (g : ApprovalGrant) (o : Option (List ℕ)) (w : World) (r : Unit {0})
      → lookup g.key_id b.trusted_keys ≡ o
      → (verify_under p i g true o w).0 ≡ ok r
      → InForce p b i g (p.clock_ms w.clock_reads)
  unfolding verify_under read_clock
  verify_under_ok i g none w r e h = cc
  verify_under_ok i g (some secret) w r e h =
      let (signed, h1) =
        guard_ok (not (p.sign secret g.claims =ˢ g.signature)) invalid_approval _ w h in
      let (named, h2) = guard_ok (is_empty g.principal) invalid_approval _ w h1 in
      let (scoped, h3) = guard_ok (not (in_scope p i g)) invalid_approval _ w h2 in
      let now = p.clock_ms w.clock_reads in
      let v : World = record w { clock_reads = suc w.clock_reads } in
      let (proper, h4) = guard_ok (leb g.expires_at_ms g.not_before_ms) invalid_approval _ v h3 in
      let timely =
        guard_end (not (leb g.not_before_ms now && ltb now g.expires_at_ms)) invalid_approval v
          h4 in
      let (started, unexpired) = both_true _ _ (negated _ timely) in
      record {
        secret = secret;
        trusted = e;
        signed = negated _ signed;
        named = named;
        scoped = negated _ scoped;
        started = started;
        unexpired = unexpired;
      }
    where
      guard_end :
          (c : Bool) (e : EffectError) (w : World) {r : Unit {0}}
          → (raise_if c e w).0 ≡ ok r
          → c ≡ false
      guard_end true e w h = cc
      guard_end false e w h = refl

  row_ok :
      (i : EffectIntent) (k : String) (x : Option ApprovalGrant) (w : World) (r : Unit {0})
      → i.approval_grant_id ≡ some k
      → find_grant k w.database.grants ≡ x
      → (continue (grant_row p x w) (λ g. verify_grant p b i g true)).0 ≡ ok r
      → Stored p b i w
  unfolding grant_row verify_grant
  row_ok i k none w r named e h = cc
  row_ok i k (some g) w r named e h = record {
    grant = g;
    grant_id = k;
    recorded = named;
    present = e;
    in_force = verify_under_ok i g (lookup g.key_id b.trusted_keys) w r refl h;
  }

  named_ok :
      (i : EffectIntent) (o : Option String) (w : World) (r : Unit {0})
      → i.approval_grant_id ≡ o
      → ((grant_named p o >>= λ g. verify_grant p b i g true) w).0 ≡ ok r
      → Stored p b i w
  unfolding grant_named
  named_ok i none w r e h = cc
  named_ok i (some k) w r e h = row_ok i k (find_grant k w.database.grants) w r e refl h

  -- A check of the grant that passes, where nothing was applied before, found an approval.
  pub check_grant_ok :
      (i : EffectIntent) (w : World) (r : Unit {0})
      → is_irreversible i.effect_class ≡ true
      → (check_grant p b i false w).0 ≡ ok r
      → Stored p b i w
  unfolding check_grant stored_grant
  check_grant_ok i w r irreversible h = named_ok i i.approval_grant_id w r refl (
      taken_branch (is_irreversible i.effect_class)
        (stored_grant p i >>= λ g. verify_grant p b i g true) (pure tt) w irreversible h)
