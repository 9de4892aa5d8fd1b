-- ===== src/Scheduler/Covers.antt =====
-- `_pareto_minimal` drops only states that another dominates.
use finite_agent_physics.Prelude.{
  ◌≡◌, refl, sym, ap, ◌∙◌, ℤ, int_leb, int_leb_trans, int_leb_refl, ◌+ℤ◌, Bool, true, false, not,
  ◌&&◌, ◌||◌, List, [], ◌∷◌, any_of, filter_by, Bool-cases, inl, inr, arith,
}
use finite_agent_physics.Contracts.Profiles.{Floats, BackendProfile}
use finite_agent_physics.Scheduler.Choices.{
  FloatArithmetic, Usage, total_tokens, dominates, keep_minimal, pareto_minimal, used_with,
}
use finite_agent_physics.Prelude.Any.{any-filter, any-le, any-sort}

-- What the proofs rely on in the floating-point numbers, as IEEE 754 has it. The order is one where
-- it holds at all, and it holds of a number from zero to one and itself. Such numbers are at most
-- one, which is one of them, and their products with what others leave to one are of the kind again
-- and keep the order. Nothing is asked of infinities, and of what is no number.
pub record FloatLaws {F : Floats} (N : FloatArithmetic F) : Type 0 where
  pub at_least_refl : (x : F.Float) → F.in_unit x ≡ true → F.at_least x x ≡ true
  pub at_least_trans :
      (x y z : F.Float) → F.at_least x y ≡ true → F.at_least y z ≡ true → F.at_least x z ≡ true
  pub at_least-less : (x y : F.Float) → F.at_least x y ≡ true → F.less x y ≡ false
  pub in_unit_one : F.in_unit N.one ≡ true
  pub at_least_one : (x : F.Float) → F.in_unit x ≡ true → F.at_least N.one x ≡ true
  pub times-in_unit :
      (x z : F.Float)
      → F.in_unit x ≡ true
      → F.in_unit z ≡ true
      → F.in_unit (N.times x (N.one_less z)) ≡ true
  pub times_le :
      (x y z : F.Float)
      → F.in_unit x ≡ true
      → F.in_unit y ≡ true
      → F.in_unit z ≡ true
      → F.at_least x y ≡ true
      → F.at_least (N.times x (N.one_less z)) (N.times y (N.one_less z)) ≡ true

int_leb_add : (a b c : ℤ) → int_leb a b ≡ true → int_leb (a +ℤ c) (b +ℤ c) ≡ true
unfolding ◌+ℤ◌
int_leb_add (ℤ.pos a) (ℤ.pos b) (ℤ.pos c) h = ground arith
int_leb_add a b c h = ground arith

module _ {F : Floats} (N : FloatArithmetic F) (laws : FloatLaws N) where
  -- The chance of success of a state is from zero to one.
  abbrev pub HasChance : Usage F → Type 0
  HasChance u = F.in_unit u.chance ≡ true

  pub dominates_refl : (u : Usage F) → HasChance u → dominates u u ≡ true
  dominates_refl u unit = ground (
    arith,
    int_leb_refl u.tokens,
    int_leb_refl u.cost,
    int_leb_refl u.context,
    laws.at_least_refl u.chance unit,
  )

  pub dominates_trans :
      (u v w : Usage F) → dominates u v ≡ true → dominates v w ≡ true → dominates u w ≡ true
  dominates_trans u v w h k = ground (
    arith,
    h,
    k,
    int_leb_trans u.tokens v.tokens w.tokens,
    int_leb_trans u.cost v.cost w.cost,
    int_leb_trans u.context v.context w.context,
    laws.at_least_trans u.chance v.chance w.chance,
  )

  kept_covers :
      (u w : Usage F) (frontier : List (Usage F))
      → any_of (λ v. dominates v w) frontier ≡ true
      → (dominates u w
          || any_of (λ v. dominates v w) (filter_by (λ v. not (dominates u v)) frontier))
        ≡ true
  kept_covers u w frontier h = elim (Bool-cases (dominates u w)) [
    | inl e ↦ rw e refl
    | inr e ↦ rw e (
        any-filter (λ v. dominates v w) (λ v. not (dominates u v)) frontier
          (any-le (λ v. dominates v w) (λ v. dominates v w && not (dominates u v))
            (λ v k.
              apart (dominates v w) (dominates u v) k
                (λ above. sym (dominates_trans u v w above k) ∙ e))
            frontier h))
  ]
    where
      apart : (a b : Bool) → a ≡ true → (b ≡ true → true ≡ false) → (a && not b) ≡ true
      apart a b h k = ground (arith, h, k)

  keep_minimal_covers :
      (w : Usage F) (us frontier : List (Usage F))
      → (any_of (λ v. dominates v w) us || any_of (λ v. dominates v w) frontier) ≡ true
      → any_of (λ v. dominates v w) (keep_minimal us frontier) ≡ true
  unfolding keep_minimal
  keep_minimal_covers w [] frontier h = h
  keep_minimal_covers w (u ∷ us) frontier h =
      elim (Bool-cases (any_of (λ v. dominates v u) frontier)) [
        | inl e ↦ rw e (
            keep_minimal_covers w us frontier (
              cover (dominates u w) _ _ h (λ k.
                any-le (λ v. dominates v u) (λ v. dominates v w)
                  (λ v above. dominates_trans v u w above k) frontier e)))
        | inr e ↦ rw e (
            keep_minimal_covers w us _
              (place_in (dominates u w) _ _ _ h (kept_covers u w frontier)))
      ]
    where
      cover : (a b c : Bool) → ((a || b) || c) ≡ true → (a ≡ true → c ≡ true) → (b || c) ≡ true
      cover a b c h k = ground (arith, h, k)

      place_in :
          (a b c d : Bool)
          → ((a || b) || c) ≡ true
          → (c ≡ true → (a || d) ≡ true)
          → (b || (a || d)) ≡ true
      place_in a b c d h k = ground (arith, h, k)

  pub pareto_minimal_covers :
      (w : Usage F) (states : List (Usage F))
      → any_of (λ v. dominates v w) states ≡ true
      → any_of (λ v. dominates v w) (pareto_minimal states) ≡ true
  unfolding pareto_minimal
  pareto_minimal_covers w states h =
      keep_minimal_covers w _ []
        (ap (λ b. b || false) (any-sort (λ v. dominates v w) _ states) ∙ ap (λ b. b || false) h)

  pub used_with-dominates :
      (v u : Usage F) (p : BackendProfile F)
      → F.in_unit p.failure_probability ≡ true
      → HasChance v
      → HasChance u
      → dominates v u ≡ true
      → dominates (used_with N v p) (used_with N u p) ≡ true
  used_with-dominates v u p unit k l h = ground (
    arith,
    h,
    int_leb_add v.tokens u.tokens (total_tokens p),
    int_leb_add v.cost u.cost p.cost_microusd,
    int_leb_add v.context u.context p.context_bytes,
    laws.times_le v.chance u.chance p.failure_probability k l unit,
  )

  pub used_with-HasChance :
      (u : Usage F) (p : BackendProfile F)
      → F.in_unit p.failure_probability ≡ true
      → HasChance u
      → HasChance (used_with N u p)
  used_with-HasChance u p unit k = laws.times-in_unit u.chance p.failure_probability k unit
