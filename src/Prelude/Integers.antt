-- ===== src/Prelude/Integers.antt =====
-- Python's integers, over the native numbers, with the comparisons that the contracts make.
use Prim.Native.Nat.{ℕ, zero, suc, ◌+◌, ◌-◌}
use mathlib.Core.Bool.{Bool, true, false}
use finite_agent_physics.Prelude.Tests.{ltb, leb, ◌==◌, if◌then◌else◌}

pub data ℤ : Type 0 where
  pos : ℕ → ℤ
  negsuc : ℕ → ℤ

abbrev pub is_negative : ℤ → Bool
is_negative (ℤ.pos n) = false
is_negative (ℤ.negsuc n) = true

-- `a <= b`
abbrev pub int_leb : ℤ → ℤ → Bool
int_leb (ℤ.pos a) (ℤ.pos b) = leb a b
int_leb (ℤ.pos a) (ℤ.negsuc b) = false
int_leb (ℤ.negsuc a) (ℤ.pos b) = true
int_leb (ℤ.negsuc a) (ℤ.negsuc b) = leb b a

-- `a < b`
abbrev pub int_ltb : ℤ → ℤ → Bool
int_ltb (ℤ.pos a) (ℤ.pos b) = ltb a b
int_ltb (ℤ.pos a) (ℤ.negsuc b) = false
int_ltb (ℤ.negsuc a) (ℤ.pos b) = true
int_ltb (ℤ.negsuc a) (ℤ.negsuc b) = ltb b a

-- `a - 1`
abbrev pub int_pred : ℤ → ℤ
int_pred (ℤ.pos zero) = ℤ.negsuc 0
int_pred (ℤ.pos (suc n)) = ℤ.pos n
int_pred (ℤ.negsuc n) = ℤ.negsuc (suc n)

-- `a == 0`
abbrev pub is_zero : ℤ → Bool
is_zero (ℤ.pos zero) = true
is_zero (ℤ.pos (suc n)) = false
is_zero (ℤ.negsuc n) = false

-- `a == b`
abbrev pub int_eq : ℤ → ℤ → Bool
int_eq (ℤ.pos a) (ℤ.pos b) = a == b
int_eq (ℤ.negsuc a) (ℤ.negsuc b) = a == b
int_eq _ _ = false

-- `max(n, 0)` and `max(-n, 0)`
abbrev pub above_zero : ℤ → ℕ
above_zero (ℤ.pos n) = n
above_zero (ℤ.negsuc n) = 0

abbrev pub under_zero : ℤ → ℕ
under_zero (ℤ.pos n) = 0
under_zero (ℤ.negsuc n) = suc n

-- What is left of credits when the debts are paid.
abbrev pub balance : ℕ → ℕ → ℤ
balance credits debts =
    if ltb credits debts then ℤ.negsuc (debts - suc credits) else ℤ.pos (credits - debts)

infixl 65 ◌+ℤ◌ ◌-ℤ◌
unfoldable pub ◌+ℤ◌ : ℤ → ℤ → ℤ
m +ℤ n = balance (above_zero m + above_zero n) (under_zero m + under_zero n)

unfoldable pub ◌-ℤ◌ : ℤ → ℤ → ℤ
m -ℤ n = balance (above_zero m + under_zero n) (under_zero m + above_zero n)

abbrev pub int_min : ℤ → ℤ → ℤ
int_min m n = if int_ltb n m then n else m

abbrev pub int_max : ℤ → ℤ → ℤ
int_max m n = if int_ltb m n then n else m
