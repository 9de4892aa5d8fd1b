-- ===== src/Physical/Sums.antt =====
-- The sums and products of `_safe_add`, `_safe_sum` and `_safe_multiply` are those of the natural
-- numbers, or nothing where these do not fit 64 bits.
use finite_agent_physics.Prelude.{
  ◌<◌, ◌⊎◌, refl, ℕ, zero, suc, ◌+◌, ◌*◌, ◌/◌, ◌≤◌, ◌<◌, ◌≡◌, refl, ap, ◌∙◌, Option, none, some,
  List, [], ◌∷◌, leb, ltb, if◌then◌else◌, arith, Bool-cases, inl, inr,
}
use native.Mathlib.Nat.{div-lt_iff_lt-mul}
use finite_agent_physics.Physical.Arithmetic.{
  int64_max, safe_add, sum_from, safe_sum, safe_multiply,
}

-- A number that fits 64 bits.
unfoldable pub bounded : ℕ → Option ℕ
bounded n = if leb n int64_max then some n else none

unfoldable pub total : List ℕ → ℕ
total [] = 0
total (v ∷ vs) = v + total vs

pub bounded_cases : (n : ℕ) → (bounded n ≡ some n) ⊎ ((bounded n ≡ none) × (int64_max < n))
unfolding bounded
bounded_cases n = elim (Bool-cases (leb n int64_max)) [
  | inl e ↦ inl (rw e refl)
  | inr e ↦ inr (rw e refl, ground (arith, e))
]

pub safe_add_lem : (a b : ℕ) → safe_add a b ≡ bounded (a + b)
unfolding safe_add bounded
safe_add_lem a b = ground arith

sum_from_lem :
    (acc : ℕ) (vs : List ℕ) → acc ≤ int64_max → sum_from acc vs ≡ bounded (acc + total vs)
unfolding sum_from total bounded safe_add
sum_from_lem acc [] fits = ground (arith, fits)
sum_from_lem acc (v ∷ vs) fits = elim (Bool-cases (leb (acc + v) int64_max)) [
  | inl e ↦
      let next : safe_add acc v ≡ some (acc + v) = ground (arith, e) in
      let small : acc + v ≤ int64_max = ground (arith, e) in
      let same : acc + v + total vs ≡ acc + (v + total vs) = omega arith in
      rw (next, sum_from) (sum_from_lem (acc + v) vs small ∙ ap bounded same)
  | inr e ↦
      let next : safe_add acc v ≡ none = ground (arith, e) in
      rw (next, sum_from) (ground (arith, e))
]

-- `_safe_sum` returns the sum, and nothing exactly where the sum is above 2 ^ 63 - 1.
pub safe_sum_lem : (vs : List ℕ) → safe_sum vs ≡ bounded (total vs)
unfolding safe_sum
safe_sum_lem vs = sum_from_lem 0 vs (omega arith) ∙ ap bounded (omega arith)

-- `_safe_multiply` returns the product, and nothing exactly where the product is above 2 ^ 63 - 1.
pub safe_multiply_lem : (a b : ℕ) → safe_multiply a b ≡ bounded (a * b)
unfolding safe_multiply bounded
safe_multiply_lem zero b = ground arith
safe_multiply_lem (suc a) b = elim (Bool-cases (ltb (int64_max / suc a) b)) [
  | inl e ↦
      ground (arith, e, (div-lt_iff_lt-mul {k = suc a} {x = int64_max} {y = b} (omega arith)).0)
  | inr e ↦
      ground (arith, e, (div-lt_iff_lt-mul {k = suc a} {x = int64_max} {y = b} (omega arith)).1)
]
