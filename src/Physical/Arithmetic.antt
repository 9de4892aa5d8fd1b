-- ===== src/Physical/Arithmetic.antt =====
-- The signed 64-bit sums and products that refuse on overflow. The numbers that they get are
-- checked to be non-negative before.
use finite_agent_physics.Prelude.{
  ℕ, ◌+◌, ◌-◌, ◌*◌, ◌/◌, ◌^◌, ◌&&◌, ◌||◌, Option, none, some, List, [], ◌∷◌, ltb, ◌==◌, not,
  if◌then◌else◌,
}

abbrev pub int64_max : ℕ
int64_max = 2 ^ 63 - 1

-- `left > INT64_MAX - right`, where the difference may be negative.
unfoldable pub safe_add : ℕ → ℕ → Option ℕ
safe_add left right =
    if ltb int64_max right || ltb (int64_max - right) left then none else some (left + right)

unfoldable pub sum_from : ℕ → List ℕ → Option ℕ
unfolding safe_add
sum_from total [] = some total
sum_from total (v ∷ vs) = elim (safe_add total v) [ none ↦ none | some next ↦ sum_from next vs ]

unfoldable pub safe_sum : List ℕ → Option ℕ
unfolding sum_from
safe_sum vs = sum_from 0 vs

unfoldable pub safe_multiply : ℕ → ℕ → Option ℕ
safe_multiply left right =
    if not (left == 0) && ltb (int64_max / left) right then none else some (left * right)
