-- ===== src/ResourceLedger/Checks.antt =====
-- The tests that the replay makes of one event, as equations.
use finite_agent_physics.Prelude.{
  ℕ, String, ◌≡◌, refl, ap, ◌↔◌, Bool, true, false, not, ◌&&◌, Option, List, [], ◌∷◌, arith,
  is_blank, ==_iff, ◌=ˢ◌, eq_iff, All,
}
use finite_agent_physics.ResourceLedger.Vector.{
  ResourceVector, vector_eq, vector_eq_iff, Fits, fits_within_iff,
}
use finite_agent_physics.ResourceLedger.Events.{
  LedgerEvent, event_id_of, codes_eq_iff, option_eq_iff, snapshot_eq_iff,
}
use finite_agent_physics.ResourceLedger.Invariant.{committed}
use finite_agent_physics.ResourceLedger.Replay.{
  Expected, ReplayState, expected_reservation, snapshot_from_replay, is_unknown, bool_eq,
  elem_codes, event_tests, failures_of,
}

not-eq-false : (b : Bool) → not b ≡ false → b ≡ true
not-eq-false b h = ground arith

and_true : (a b : Bool) → (a && b) ≡ true → (a ≡ true) × (b ≡ true)
and_true a b h = ground arith

and_intro : (a b : Bool) → a ≡ true → b ≡ true → (a && b) ≡ true
and_intro a b h k = ground arith

bool_eq_iff : (a b : Bool) → (bool_eq a b ≡ true) ↔ (a ≡ b)
bool_eq_iff true b = ground arith
bool_eq_iff false b = ground arith

-- There is no failure exactly when every test passes.
pub failures_of_nil :
    (n : Option ℕ) (tests : List (Bool × String))
    → (failures_of n tests ≡ []) ↔ All (λ t. t.0 ≡ false) tests
unfolding failures_of
failures_of_nil n [] = (λ _. tt, λ _. refl)
failures_of_nil n ((true, code) ∷ tests) = ground arith
failures_of_nil n ((false, code) ∷ tests) = ground (arith, failures_of_nil n tests)

-- An event passes every test.
pub record Passes (capacity : ResourceVector) (position : ℕ) (rs : ReplayState) (e : LedgerEvent)
    (x : Expected) : Type 0 where
  pub named : is_blank e.attempt_id ≡ false
  pub ordered : e.sequence ≡ position
  pub identified : e.event_id ≡ event_id_of position
  pub fresh : elem_codes e.event_id rs.seen_event_ids ≡ false
  pub known : is_unknown e.operation ≡ false
  pub reserved :
      e.reservation ≡ expected_reservation e.operation e.attempt_id e.reservation rs.accounts
  pub applied : e.applied ≡ x.applied
  pub reason : e.reason ≡ x.reason
  pub snapshot : e.post_snapshot ≡ snapshot_from_replay capacity x.after position
  pub capped : Fits (committed x.after.spent x.after.active) capacity

module _ (capacity : ResourceVector) (position : ℕ) (rs : ReplayState) (e : LedgerEvent)
    (x : Expected) where
  abbrev Clean : Type 0
  Clean = All (λ t. t.0 ≡ false) (event_tests capacity position rs e x)

  Clean→Passes : Clean → Passes capacity position rs e x
  unfolding event_tests snapshot_from_replay
  Clean→Passes (named, (ordered, (identified, (fresh, (known, (reserved, (decided, rest))))))) =
      let (snapshot, (capped, _)) = rest in
      let both = and_true _ _ (not-eq-false _ decided) in
      record {
        named = named;
        ordered = (==_iff e.sequence position).0 (not-eq-false _ ordered);
        identified = (codes_eq_iff _ _).0 (not-eq-false _ identified);
        fresh = fresh;
        known = known;
        reserved = (option_eq_iff vector_eq vector_eq_iff _ _).0 (not-eq-false _ reserved);
        applied = (bool_eq_iff _ _).0 both.0;
        reason = (option_eq_iff ◌=ˢ◌ eq_iff _ _).0 both.1;
        snapshot = (snapshot_eq_iff _ _).0 (not-eq-false _ snapshot);
        capped = (fits_within_iff _ _).0 (not-eq-false _ capped);
      }

  Passes→Clean : Passes capacity position rs e x → Clean
  unfolding event_tests snapshot_from_replay
  Passes→Clean p =
      let decided =
        and_intro _ _ ((bool_eq_iff _ _).1 p.applied)
          ((option_eq_iff ◌=ˢ◌ eq_iff _ _).1 p.reason) in
      (
        p.named,
        (
          ap not ((==_iff e.sequence position).1 p.ordered),
          (
            ap not ((codes_eq_iff _ _).1 p.identified),
            (
              p.fresh,
              (
                p.known,
                (
                  ap not ((option_eq_iff vector_eq vector_eq_iff _ _).1 p.reserved),
                  (
                    ap not decided,
                    (
                      ap not ((snapshot_eq_iff _ _).1 p.snapshot),
                      (
                        ap not ((fits_within_iff _ _).1 p.capped),
                        (ap not ((vector_eq_iff _ _).1 refl), tt),
                      ),
                    ),
                  ),
                ),
              ),
            ),
          ),
        ),
      )

-- The tests add no failure exactly when the event passes.
pub no_failures_iff :
    (capacity : ResourceVector) (position : ℕ) (rs : ReplayState) (e : LedgerEvent) (x : Expected)
    (n : Option ℕ)
    → (failures_of n (event_tests capacity position rs e x) ≡ []) ↔ Passes capacity position rs e x
no_failures_iff capacity position rs e x n =
    let both = failures_of_nil n (event_tests capacity position rs e x) in
    (
      λ h. Clean→Passes capacity position rs e x (both.0 h),
      λ p. both.1 (Passes→Clean capacity position rs e x p),
    )
