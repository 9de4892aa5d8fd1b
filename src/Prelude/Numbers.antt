-- ===== src/Prelude/Numbers.antt =====
-- How many entries of a list pass a test, and what filters, sorting and minima keep.
use Prim.Native.Nat.{ℕ, ◌+◌, ◌≤◌}
use mathlib.Core.Path.{◌≡◌, refl, subst, ◌∙◌}
use mathlib.Core.Logic.{inl, inr}
use mathlib.Core.Bool.{Bool, true, false}
use mathlib.Core.Option.{some}
use mathlib.Core.List.{List, [], ◌∷◌, ◌++◌, map}
use native.Mathlib.Omega.{arith}
use finite_agent_physics.Prelude.Tests.{Bool-cases}
use finite_agent_physics.Prelude.Lists.{All, length}
use finite_agent_physics.Prelude.Keys.{filter_by, place, sort_by, least, min_by}

abbrev pub one_if : Bool → ℕ
one_if true = 1
one_if false = 0

module _ {A : Type 0} where
  unfoldable pub number : (A → Bool) → List A → ℕ
  number test [] = 0
  number test (x ∷ xs) = one_if (test x) + number test xs

  pub number-append :
      (test : A → Bool) (xs ys : List A) → number test (xs ++ ys) ≡ number test xs + number test ys
  unfolding number
  number-append test [] ys = omega arith
  number-append test (x ∷ xs) ys = omega (arith, number-append test xs ys)

  pub number_all : (xs : List A) → number (λ x. true) xs ≡ length xs
  unfolding number
  number_all [] = refl
  number_all (x ∷ xs) = omega (arith, number_all xs)

  pub number-le :
      (f g : A → Bool) (xs : List A)
      → All (λ x. f x ≡ true → g x ≡ true) xs
      → number f xs ≤ number g xs
  unfolding number
  number-le f g [] h = omega arith
  number-le f g (x ∷ xs) h = ground (arith, h.0, number-le f g xs h.1)

  -- Two tests that each entry passes at most once, and only with a third.
  pub number_apart :
      (f g h : A → Bool)
      → ((x : A) → one_if (f x) + one_if (g x) ≤ one_if (h x))
      → (xs : List A) → number f xs + number g xs ≤ number h xs
  unfolding number
  number_apart f g h apart [] = omega arith
  number_apart f g h apart (x ∷ xs) = omega (arith, apart x, number_apart f g h apart xs)

  pub All-always : {P : A → Type 0} → ((x : A) → P x) → (xs : List A) → All P xs
  All-always h [] = tt
  All-always h (x ∷ xs) = (h x, All-always h xs)

  pub All-map : {P Q : A → Type 0} → ((x : A) → P x → Q x) → (xs : List A) → All P xs → All Q xs
  All-map f [] h = tt
  All-map f (x ∷ xs) h = (f x h.0, All-map f xs h.1)

  pub number-filter-le :
      (f test : A → Bool) (xs : List A) → number f (filter_by test xs) ≤ number f xs
  unfolding number filter_by
  number-filter-le f test [] = omega arith
  number-filter-le f test (x ∷ xs) = ground (arith, number-filter-le f test xs)

  -- Nothing passes that the filter leaves out.
  pub number_left_out :
      (f test : A → Bool)
      → ((x : A) → f x ≡ true → test x ≡ false)
      → (xs : List A) → number f (filter_by test xs) ≡ 0
  unfolding number filter_by
  number_left_out f test out [] = refl
  number_left_out f test out (x ∷ xs) = ground (arith, out x, number_left_out f test out xs)

  pub filter-All :
      (P : A → Type 0) (test : A → Bool) (xs : List A)
      → All P xs
      → All (λ x. P x × (test x ≡ true)) (filter_by test xs)
  unfolding filter_by
  filter-All P test [] h = tt
  filter-All P test (x ∷ xs) h = elim (Bool-cases (test x)) [
    | inl e ↦ rw e ((h.0, e), filter-All P test xs h.1)
    | inr e ↦ rw e (filter-All P test xs h.1)
  ]

  module _ (less : A → A → Bool) where
    number-place :
        (f : A → Bool) (x : A) (xs : List A) → number f (place less x xs) ≡ number f (x ∷ xs)
    unfolding number place
    number-place f x [] = refl
    number-place f x (y ∷ ys) = ground (arith, number-place f x ys)

    pub number-sort : (f : A → Bool) (xs : List A) → number f (sort_by less xs) ≡ number f xs
    unfolding number sort_by
    number-sort f [] = refl
    number-sort f (x ∷ xs) = number-place f x (sort_by less xs) ∙ omega (arith, number-sort f xs)

    place-All : (P : A → Type 0) (x : A) (xs : List A) → P x → All P xs → All P (place less x xs)
    unfolding place
    place-All P x [] p h = (p, tt)
    place-All P x (y ∷ ys) p h = elim (Bool-cases (less y x)) [
      | inl e ↦ rw e (h.0, place-All P x ys p h.1)
      | inr e ↦ rw e (p, h)
    ]

    pub sort-All : (P : A → Type 0) (xs : List A) → All P xs → All P (sort_by less xs)
    unfolding sort_by
    sort-All P [] h = tt
    sort-All P (x ∷ xs) h = place-All P x (sort_by less xs) h.0 (sort-All P xs h.1)

    least-All : (P : A → Type 0) (x : A) (xs : List A) → P x → All P xs → P (least less x xs)
    unfolding least
    least-All P x [] p h = p
    least-All P x (y ∷ ys) p h = elim (Bool-cases (less y x)) [
      | inl e ↦ rw e (least-All P y ys h.0 h.1)
      | inr e ↦ rw e (least-All P x ys p h.1)
    ]

    pub min-All : {m : A} (P : A → Type 0) (xs : List A) → All P xs → min_by less xs ≡ some m → P m
    unfolding min_by
    min-All P [] h e = cc
    min-All P (x ∷ xs) h e = subst P (some_inj e) (least-All P x xs h.0 h.1)
      where
        some_inj : {a b : A} → some a ≡ some b → a ≡ b
        some_inj p = cc

module _ {A B : Type 0} (f : A → B) where
  pub number-map : (g : B → Bool) (xs : List A) → number g (map f xs) ≡ number (λ x. g (f x)) xs
  unfolding number
  number-map g [] = refl
  number-map g (x ∷ xs) = omega (arith, number-map g xs)

  pub All-of_map : (P : B → Type 0) (xs : List A) → All P (map f xs) → All (λ x. P (f x)) xs
  All-of_map P [] h = tt
  All-of_map P (x ∷ xs) h = (h.0, All-of_map P xs h.1)

  pub map-All : (P : B → Type 0) (xs : List A) → All (λ x. P (f x)) xs → All P (map f xs)
  map-All P [] h = tt
  map-All P (x ∷ xs) h = (h.0, map-All P xs h.1)
