-- ===== src/Prelude/Lists.antt =====
-- Lists measured by native numbers, and Boolean membership of texts.
use Prim.Native.Nat.{ℕ, suc, ◌+◌}
use Prim.Native.String.{String}
use mathlib.Core.Path.{◌≡◌, refl}
use mathlib.Core.Bool.{Bool, true, false, ◌||◌}
use mathlib.Core.List.{List, [], ◌∷◌, ◌++◌}
use native.Mathlib.Omega.{arith}
use finite_agent_physics.Prelude.Tests.{◌=ˢ◌, if◌then◌else◌}

module _ {ℓ} {A : Type ℓ} where
  abbrev pub length : List A → ℕ
  length [] = 0
  length (x ∷ xs) = suc (length xs)

  pub length-append : (xs ys : List A) → length (xs ++ ys) ≡ length xs + length ys
  length-append [] ys = omega arith
  length-append (x ∷ xs) ys = omega (arith, length-append xs ys)

  abbrev pub All {κ} : (A → Type κ) → List A → Type κ
  All P [] = Unit
  All P (x ∷ xs) = P x × All P xs

-- `key in texts`
abbrev pub elem : String → List String → Bool
elem k [] = false
elem k (x ∷ xs) = k =ˢ x || elem k xs

module _ {ℓ} {A : Type ℓ} (same : A → A → Bool) where
  abbrev pub elem_by : A → List A → Bool
  elem_by x [] = false
  elem_by x (y ∷ ys) = same x y || elem_by x ys

  -- `len(xs) != len(set(xs))`
  abbrev pub repeats : List A → Bool
  repeats [] = false
  repeats (x ∷ xs) = elem_by x xs || repeats xs

abbrev pub any_of {ℓ} : {A : Type ℓ} → (A → Bool) → List A → Bool
any_of p [] = false
any_of p (x ∷ xs) = p x || any_of p xs

abbrev pub concat_map {ℓ κ} : {A : Type ℓ} {B : Type κ} → (A → List B) → List A → List B
concat_map f [] = []
concat_map f (x ∷ xs) = f x ++ concat_map f xs

-- What stands beside the tests that are true, in the order of the tests.
unfoldable pub selected {ℓ} : {A : Type ℓ} → List (Bool × A) → List A
selected [] = []
selected ((c, e) ∷ ts) = let rest = selected ts in if c then e ∷ rest else rest

-- Where nothing is selected every test is false.
pub selected_none {ℓ} :
    {A : Type ℓ} (ts : List (Bool × A)) → selected ts ≡ [] → All (λ t. t.0 ≡ false) ts
unfolding selected
selected_none [] h = tt
selected_none ((true, e) ∷ ts) h = cc
selected_none ((false, e) ∷ ts) h = (refl, selected_none ts h)

-- How often a text is listed.
unfoldable pub count : String → List String → ℕ
count k [] = 0
count k (x ∷ xs) = let rest = count k xs in if k =ˢ x then suc rest else rest

pub count-append : (k : String) (xs ys : List String) → count k (xs ++ ys) ≡ count k xs + count k ys
unfolding count
count-append k [] ys = omega arith
count-append k (x ∷ xs) ys = ground (arith, count-append k xs ys)

pub elem-append : (k : String) (xs ys : List String) → elem k (xs ++ ys) ≡ (elem k xs || elem k ys)
elem-append k [] ys = refl
elem-append k (x ∷ xs) ys = ground (arith, elem-append k xs ys)
