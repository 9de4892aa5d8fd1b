-- ===== src/Graph/Waiting.antt =====
-- What the ordering loop has left to do, and how a decrement changes it.
use finite_agent_physics.Prelude.{
  ℕ, zero, suc, ◌+◌, ◌≤◌, ◌≡◌, ap, ℤ, int_pred, is_zero, String, some, [], ◌∷◌, Dict, lookup,
  insert, ◌=ˢ◌, if◌then◌else◌, length, arith, Bool-cases, inl, inr,
}
use finite_agent_physics.Graph.Order.{zeros}

unfoldable pub weight : ℤ → ℕ
weight (ℤ.pos zero) = 0
weight (ℤ.pos (suc n)) = 1
weight (ℤ.negsuc n) = 0

-- How many tasks wait for a dependency.
unfoldable pub waiting : Dict ℤ → ℕ
waiting [] = 0
waiting ((k, d) ∷ ds) = weight d + waiting ds

pub waiting-insert :
    (k : String) (d d' : ℤ) (ds : Dict ℤ)
    → lookup k ds ≡ some d
    → waiting (insert k d' ds) + weight d ≡ waiting ds + weight d'
unfolding waiting lookup insert
waiting-insert k d d' [] e = cc
waiting-insert k d d' ((j, v) ∷ ds) e = elim (Bool-cases (k =ˢ j)) [
  | inl p ↦
      let same : weight v ≡ weight d = ap weight (some_inj (rw p at e)) in
      rw p (omega (arith, same))
  | inr p ↦
      let there : lookup k ds ≡ some d = rw p at e in
      rw p (omega (arith, waiting-insert k d d' ds there))
]
  where
    some_inj : {x y : ℤ} → some x ≡ some y → x ≡ y
    some_inj q = cc

-- Where the degree falls to zero, a task no longer waits.
unfoldable pub released : ℤ → ℕ
released d = if is_zero (int_pred d) then 1 else 0

pub weight_falls : (d : ℤ) → weight (int_pred d) + released d ≤ weight d
unfolding weight released
weight_falls (ℤ.pos zero) = omega arith
weight_falls (ℤ.pos (suc zero)) = omega arith
weight_falls (ℤ.pos (suc (suc n))) = omega arith
weight_falls (ℤ.negsuc n) = omega arith

pub zeros_bounded : (ds : Dict ℤ) → length (zeros ds) + waiting ds ≤ length ds
unfolding zeros waiting weight
zeros_bounded [] = omega arith
zeros_bounded ((k, ℤ.pos zero) ∷ ds) = omega (arith, zeros_bounded ds)
zeros_bounded ((k, ℤ.pos (suc n)) ∷ ds) = omega (arith, zeros_bounded ds)
zeros_bounded ((k, ℤ.negsuc n) ∷ ds) = omega (arith, zeros_bounded ds)
