-- ===== src/Effects/Grants.antt =====
-- The round trip of approval: what an authority issues, a broker that trusts its key verifies.
use finite_agent_physics.Prelude.{
  ℕ, subst, ◌+◌, ◌≡◌, ◌≤◌, ◌<◌, refl, String, true, false, Option, none, some, List, Result, ok,
  err, arith, ◌=ˢ◌, =ˢ_refl, leb, ltb, is_empty, lookup, continue, pure,
}
use finite_agent_physics.Effects.Types.{
  EffectError, EffectIntent, ApprovalGrant, Claims, Platform, Broker, value_error,
}
use finite_agent_physics.Effects.Database.{World, read_clock}
use finite_agent_physics.Effects.Authority.{guard_ok}
use finite_agent_physics.Effects.Approval.{
  ApprovalAuthority, issue, in_scope, verify_under, verify_grant, choose_grant_id,
}

-- The grant that an authority signs under a grant id.
abbrev signed_grant :
    Platform → ApprovalAuthority → EffectIntent → String → ℕ → ℕ → String → ApprovalGrant
signed_grant p authority i principal now_ms ttl_ms new_id =
    let unsigned : Claims = record {
      grant_id = new_id;
      key_id = authority.key_id;
      principal = principal;
      intent_id = i.intent_id;
      run_id = i.run_id;
      effect_digest = p.effect_digest i.operation;
      resource = i.resource;
      action = i.action;
      not_before_ms = now_ms;
      expires_at_ms = now_ms + ttl_ms;
    } in
    record { claims = unsigned; signature = p.sign authority.secret unsigned }

ok_inj : {A : Type 0} {x y : A} → (let r : Result EffectError A = ok x in r) ≡ ok y → x ≡ y
ok_inj h = cc

module _ (p : Platform) where
  issued_shape :
      (authority : ApprovalAuthority) (i : EffectIntent) (principal : String) (now_ms ttl_ms : ℕ)
      (r : Result EffectError String × World) (g : ApprovalGrant)
      → (continue r (λ new_id. pure (signed_grant p authority i principal now_ms ttl_ms new_id))).0
        ≡ ok g
      → (new_id : String) × (signed_grant p authority i principal now_ms ttl_ms new_id ≡ g)
  issued_shape authority i principal now_ms ttl_ms (ok new_id, v) g h = (new_id, ok_inj h)
  issued_shape authority i principal now_ms ttl_ms (err e, v) g h = cc

  pass_guards :
      (secret : List ℕ) (b : Broker) (i : EffectIntent) (g : ApprovalGrant) (v : World)
      → lookup g.key_id b.trusted_keys ≡ some secret
      → (p.sign secret g.claims =ˢ g.signature) ≡ true
      → is_empty g.principal ≡ false
      → in_scope p i g ≡ true
      → leb g.expires_at_ms g.not_before_ms ≡ false
      → leb g.not_before_ms (p.clock_ms v.clock_reads) ≡ true
      → ltb (p.clock_ms v.clock_reads) g.expires_at_ms ≡ true
      → (verify_grant p b i g true v).0 ≡ ok tt
  unfolding verify_grant verify_under read_clock
  pass_guards secret b i g v h1 h2 h3 h4 h5 h6 h7 = rw (h1, h2, h3, h4, h5, h6, h7) refl

  signed-in_scope :
      (authority : ApprovalAuthority) (i : EffectIntent) (principal : String) (now_ms ttl_ms : ℕ)
      (new_id : String)
      → in_scope p i (signed_grant p authority i principal now_ms ttl_ms new_id) ≡ true
  unfolding in_scope
  signed-in_scope authority i principal now_ms ttl_ms new_id =
      rw
        (
          =ˢ_refl i.intent_id,
          =ˢ_refl i.run_id,
          =ˢ_refl (p.effect_digest i.operation),
          =ˢ_refl i.resource,
          =ˢ_refl i.action,
        )
        refl

  -- A grant that an authority issues for an intent, without overrides of the scope, is verified by
  -- every broker that trusts the authority's key, at each time from the time of issue until the
  -- time to live has passed.
  pub verify_grant-issue :
      (authority : ApprovalAuthority) (b : Broker) (i : EffectIntent) (principal : String)
      (now_ms ttl_ms : ℕ) (grant_id : Option String) (w v : World) (g : ApprovalGrant)
      → (issue p authority i principal now_ms ttl_ms none none grant_id w).0 ≡ ok g
      → lookup authority.key_id b.trusted_keys ≡ some authority.secret
      → now_ms ≤ p.clock_ms v.clock_reads
      → p.clock_ms v.clock_reads < now_ms + ttl_ms
      → (verify_grant p b i g true v).0 ≡ ok tt
  unfolding issue
  verify_grant-issue authority b i principal now_ms ttl_ms grant_id w v g issued trusted started
        unexpired =
      let (named, h1) = guard_ok (is_empty principal) value_error _ w issued in
      let (positive, h2) = guard_ok (leb ttl_ms 0) value_error _ w h1 in
      let (new_id, shape) =
        issued_shape authority i principal now_ms ttl_ms (choose_grant_id p grant_id w) g h2 in
      subst (λ x. (verify_grant p b i x true v).0 ≡ ok tt) shape
        (pass_guards authority.secret b i
          (signed_grant p authority i principal now_ms ttl_ms new_id) v trusted
          (=ˢ_refl (
            p.sign authority.secret
              (signed_grant p authority i principal now_ms ttl_ms new_id).claims))
          named (signed-in_scope authority i principal now_ms ttl_ms new_id)
          (ground (arith, positive)) (ground (arith, started)) (ground (arith, unexpired)))
