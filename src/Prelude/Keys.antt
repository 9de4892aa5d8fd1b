-- ===== src/Prelude/Keys.antt =====
-- Python's `sorted` and `min` with a key, filters and sets of texts.
use Prim.Native.Nat.{ℕ}
use Prim.Native.String.{String}
use mathlib.Core.Bool.{Bool, true, false}
use mathlib.Core.Option.{Option, none, some}
use mathlib.Core.List.{List, [], ◌∷◌}
use finite_agent_physics.Prelude.Tests.{ltb, ◌==◌, codes, if◌then◌else◌}
use finite_agent_physics.Prelude.Lists.{elem}

-- Two tuples, of which each place gives the tests `a == b` and `a < b`.
abbrev pub tuple_less : List (Bool × Bool) → Bool
tuple_less [] = false
tuple_less ((same, less) ∷ places) = if same then tuple_less places else less

-- Two texts, by their code points.
unfoldable pub codes_less : List ℕ → List ℕ → Bool
codes_less xs [] = false
codes_less [] (y ∷ ys) = true
codes_less (x ∷ xs) (y ∷ ys) = let rest = codes_less xs ys in if x == y then rest else ltb x y

unfoldable pub text_less : String → String → Bool
unfolding codes_less
text_less s t = codes_less (codes s) (codes t)

module _ {ℓ} {A : Type ℓ} where
  -- `[x for x in xs if test(x)]`
  unfoldable pub filter_by : (A → Bool) → List A → List A
  filter_by test [] = []
  filter_by test (x ∷ xs) = let rest = filter_by test xs in if test x then x ∷ rest else rest

  module _ (less : A → A → Bool) where
    unfoldable pub place : A → List A → List A
    place x [] = x ∷ []
    place x (y ∷ ys) = let rest = place x ys in if less y x then y ∷ rest else x ∷ y ∷ ys

    -- `sorted`, which keeps the order of what is equal
    unfoldable pub sort_by : List A → List A
    unfolding place
    sort_by [] = []
    sort_by (x ∷ xs) = place x (sort_by xs)

    -- The first of the least
    unfoldable pub least : A → List A → A
    least x [] = x
    least x (y ∷ ys) = least (if less y x then y else x) ys

  unfoldable pub min_by : (A → A → Bool) → List A → Option A
  unfolding least
  min_by less [] = none
  min_by less (x ∷ xs) = some (least less x xs)

-- `set.add`, and the set of a list
abbrev pub add : String → List String → List String
add x xs = if elem x xs then xs else x ∷ xs

unfoldable pub set_of : List String → List String
set_of [] = []
set_of (x ∷ xs) = add x (set_of xs)
