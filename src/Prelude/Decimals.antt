-- ===== src/Prelude/Decimals.antt =====
-- Python's `str` of a number, as code points.
use Prim.Native.Nat.{ℕ, zero, suc, ◌+◌, ◌-◌, ◌*◌, ◌/◌, ◌%◌, ◌<◌}
use mathlib.Core.Path.{◌≡◌, ap, ◌∙◌}
use mathlib.Core.Logic.{◌≢◌, inl, inr}
use mathlib.Core.List.{List, [], ◌∷◌}
use native.Mathlib.Omega.{arith}
use finite_agent_physics.Prelude.Tests.{ltb, if◌then◌else◌, Bool-cases}
use finite_agent_physics.Prelude.Lists.{All}

-- The decimal digits of a number, by fuel, in front of `rest`.
digits_loop : ℕ → ℕ → List ℕ → List ℕ
digits_loop zero n rest = rest
digits_loop (suc f) n rest =
    let more = digits_loop f (n / 10) ((b'0' + n % 10) ∷ rest) in
    if ltb n 10 then (b'0' + n) ∷ rest else more

-- `str(n)`
unfoldable pub decimal : ℕ → List ℕ
unfolding digits_loop
decimal n = digits_loop (suc n) n []

-- The number that a list of digits reads as, from the left.
unfoldable pub value : ℕ → List ℕ → ℕ
value acc [] = acc
value acc (d ∷ ds) = value (acc * 10 + (d - b'0')) ds

value-digits_loop :
    (f n : ℕ) (rest : List ℕ) → n < f → value 0 (digits_loop f n rest) ≡ value n rest
unfolding digits_loop value
value-digits_loop zero n rest h = absurd (omega arith)
value-digits_loop (suc f) n rest h = elim (Bool-cases (ltb n 10)) [
  | inl small ↦ rw small (ap (λ k. value k rest) (omega arith))
  | inr large ↦ rw large (
      value-digits_loop f (n / 10) ((b'0' + n % 10) ∷ rest) (ground arith)
      ∙ ap (λ k. value k rest) (omega arith))
]

pub value-decimal : (n : ℕ) → value 0 (decimal n) ≡ n
unfolding decimal value
value-decimal n = value-digits_loop (suc n) n [] (omega arith)

pub decimal_inj : (m n : ℕ) → decimal m ≡ decimal n → m ≡ n
decimal_inj m n h = cc (value-decimal m, value-decimal n, ap (value 0) h)

digits_loop-All :
    (f n : ℕ) (rest : List ℕ) → All (λ d. d ≢ 0) rest → All (λ d. d ≢ 0) (digits_loop f n rest)
unfolding digits_loop
digits_loop-All zero n rest h = h
digits_loop-All (suc f) n rest h = elim (Bool-cases (ltb n 10)) [
  | inl small ↦ rw small (λ e. omega (arith, e), h)
  | inr large ↦ rw large (digits_loop-All f (n / 10) _ (λ e. omega (arith, e), h))
]

-- No digit is the code point zero.
pub decimal-All : (n : ℕ) → All (λ d. d ≢ 0) (decimal n)
unfolding decimal
decimal-All n = digits_loop-All (suc n) n [] tt
