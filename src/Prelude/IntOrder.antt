-- ===== src/Prelude/IntOrder.antt =====
-- The laws of the order and of the sums of Python's integers.
use Prim.Native.Nat.{ℕ, ◌+◌, ◌≤◌}
use mathlib.Core.Path.{◌≡◌}
use mathlib.Core.Bool.{true, false, not}
use native.Mathlib.Omega.{arith}
use finite_agent_physics.Prelude.Integers.{
  ℤ, is_negative, int_leb, int_ltb, int_eq, int_pred, above_zero, under_zero, ◌+ℤ◌,
}

pub int_leb_refl : (a : ℤ) → int_leb a a ≡ true
int_leb_refl (ℤ.pos a) = ground arith
int_leb_refl (ℤ.negsuc a) = ground arith

pub int_leb_trans : (a b c : ℤ) → int_leb a b ≡ true → int_leb b c ≡ true → int_leb a c ≡ true
int_leb_trans (ℤ.pos a) (ℤ.pos b) (ℤ.pos c) h k = ground arith
int_leb_trans _ _ _ h k = ground arith

-- `a < b` is `not b <= a`.
pub int_ltb-leb : (a b : ℤ) → int_ltb a b ≡ not (int_leb b a)
int_ltb-leb (ℤ.pos a) (ℤ.pos b) = ground arith
int_ltb-leb _ _ = ground arith

pub int_leb_total : (a b : ℤ) → int_leb a b ≡ false → int_leb b a ≡ true
int_leb_total (ℤ.pos a) (ℤ.pos b) h = ground arith
int_leb_total _ _ h = ground arith

pub int_eq-eq : (a b : ℤ) → int_eq a b ≡ true → a ≡ b
int_eq-eq (ℤ.pos a) (ℤ.pos b) h = ground arith
int_eq-eq _ _ h = ground arith

-- One more than what is below a bound is within it.
pub int_leb_suc : (n : ℕ) (a : ℤ) → int_leb a (ℤ.pos n) ≡ false → int_leb (ℤ.pos (1 + n)) a ≡ true
int_leb_suc n (ℤ.pos a) h = ground arith
int_leb_suc n (ℤ.negsuc a) h = ground arith

pub int_leb_pos :
    (m n : ℕ) (a : ℤ) → m ≤ n → int_leb (ℤ.pos n) a ≡ true → int_leb (ℤ.pos m) a ≡ true
int_leb_pos m n (ℤ.pos a) h k = ground arith
int_leb_pos m n (ℤ.negsuc a) h k = ground arith

pub int_leb-add : (a d : ℤ) → is_negative d ≡ false → int_leb a (a +ℤ d) ≡ true
unfolding ◌+ℤ◌
int_leb-add (ℤ.pos a) (ℤ.pos d) h = ground arith
int_leb-add (ℤ.negsuc a) (ℤ.pos d) h = ground arith
int_leb-add a (ℤ.negsuc d) h = cc

pub add_parts :
    (a b : ℤ)
    → above_zero (a +ℤ b) + (under_zero a + under_zero b)
      ≡ under_zero (a +ℤ b) + (above_zero a + above_zero b)
unfolding ◌+ℤ◌
add_parts a b = ground arith

eq_of_parts : (a b : ℤ) → above_zero a + under_zero b ≡ above_zero b + under_zero a → a ≡ b
eq_of_parts a b h = ground arith

pub +ℤ_assoc : (a b c : ℤ) → (a +ℤ b) +ℤ c ≡ a +ℤ (b +ℤ c)
+ℤ_assoc a b c =
    eq_of_parts _ _
      (omega (arith, add_parts a b, add_parts b c, add_parts (a +ℤ b) c, add_parts a (b +ℤ c)))

pub +ℤ_zero : (a : ℤ) → a +ℤ ℤ.pos 0 ≡ a
+ℤ_zero a = eq_of_parts _ _ (omega (arith, add_parts a (ℤ.pos 0)))

pub zero_+ℤ : (a : ℤ) → ℤ.pos 0 +ℤ a ≡ a
zero_+ℤ a = eq_of_parts _ _ (omega (arith, add_parts (ℤ.pos 0) a))

pub suc-add : (n : ℕ) → ℤ.pos n +ℤ ℤ.pos 1 ≡ ℤ.pos (1 + n)
unfolding ◌+ℤ◌
suc-add n = ground arith

pub +ℤ_comm : (a b : ℤ) → a +ℤ b ≡ b +ℤ a
+ℤ_comm a b = eq_of_parts _ _ (omega (arith, add_parts a b, add_parts b a))

pub pred-suc : (n : ℕ) → int_pred (ℤ.pos (1 + n)) ≡ ℤ.pos n
pred-suc n = ground arith

pub int_ltb_trans : (a b c : ℤ) → int_ltb a b ≡ true → int_leb b c ≡ true → int_ltb a c ≡ true
int_ltb_trans (ℤ.pos a) (ℤ.pos b) (ℤ.pos c) h k = ground arith
int_ltb_trans _ _ _ h k = ground arith

pub int_eq_refl : (a : ℤ) → int_eq a a ≡ true
int_eq_refl (ℤ.pos a) = ground arith
int_eq_refl (ℤ.negsuc a) = ground arith
