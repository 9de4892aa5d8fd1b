-- ===== src/Prelude/Any.antt =====
-- The laws of `any` over the lists that filters, sorting and comprehensions give.
use mathlib.Core.List.{Memᴰ}
use mathlib.Core.Path.{◌≡◌, refl, sym, ap, ◌∙◌, subst}
use mathlib.Core.Bool.{Bool, true, ◌&&◌, ◌||◌}
use mathlib.Core.List.{List, [], ◌∷◌, ◌++◌, map}
use native.Mathlib.Omega.{arith}
use finite_agent_physics.Prelude.Lists.{All, any_of, concat_map}
use finite_agent_physics.Prelude.Keys.{filter_by, place, sort_by}

module _ {A : Type 0} where
  pub any-Listed :
      (test : A → Bool) (x : A) (xs : List A) → Memᴰ x xs → test x ≡ true → any_of test xs ≡ true
  any-Listed test x [] m h = elim m [ ]
  any-Listed test x (y ∷ ys) (Memᴰ.head e) h = rw (ap test (sym e) ∙ h) refl
  any-Listed test x (y ∷ ys) (Memᴰ.tail m) h = ground (arith, any-Listed test x ys m h)

  pub All-Listed : (P : A → Type 0) (x : A) (xs : List A) → Memᴰ x xs → All P xs → P x
  All-Listed P x [] m h = elim m [ ]
  All-Listed P x (y ∷ ys) (Memᴰ.head e) h = subst P (sym e) h.0
  All-Listed P x (y ∷ ys) (Memᴰ.tail m) h = All-Listed P x ys m h.1

  pub any-filter :
      (f test : A → Bool) (xs : List A)
      → any_of (λ x. f x && test x) xs ≡ true
      → any_of f (filter_by test xs) ≡ true
  unfolding filter_by
  any-filter f test [] h = h
  any-filter f test (x ∷ xs) h = ground (arith, any-filter f test xs, h)

  pub any-le :
      (f g : A → Bool)
      → ((x : A) → f x ≡ true → g x ≡ true)
      → (xs : List A) → any_of f xs ≡ true
      → any_of g xs ≡ true
  any-le f g imp [] h = h
  any-le f g imp (x ∷ xs) h = ground (arith, imp x, any-le f g imp xs, h)

  pub any-le_where :
      (P : A → Type 0) (f g : A → Bool)
      → ((x : A) → P x → f x ≡ true → g x ≡ true)
      → (xs : List A) → All P xs
      → any_of f xs ≡ true
      → any_of g xs ≡ true
  any-le_where P f g imp [] k h = h
  any-le_where P f g imp (x ∷ xs) k h = ground (arith, imp x k.0, any-le_where P f g imp xs k.1, h)

  pub any-append :
      (f : A → Bool) (xs ys : List A) → any_of f (xs ++ ys) ≡ (any_of f xs || any_of f ys)
  any-append f [] ys = refl
  any-append f (x ∷ xs) ys = ground (arith, any-append f xs ys)

  pub any-sort :
      (f : A → Bool) (less : A → A → Bool) (xs : List A) → any_of f (sort_by less xs) ≡ any_of f xs
  unfolding sort_by place
  any-sort f less [] = refl
  any-sort f less (x ∷ xs) = placed (sort_by less xs) ∙ ap (λ b. f x || b) (any-sort f less xs)
    where
      placed : (ys : List A) → any_of f (place less x ys) ≡ (f x || any_of f ys)
      placed [] = refl
      placed (y ∷ ys) = ground (arith, placed ys)

module _ {A B : Type 0} where
  pub any-map :
      (f : B → Bool) (g : A → B) (xs : List A) → any_of f (map g xs) ≡ any_of (λ x. f (g x)) xs
  any-map f g [] = refl
  any-map f g (x ∷ xs) = ap (λ b. f (g x) || b) (any-map f g xs)

  pub any-concat :
      (f : B → Bool) (g : A → List B) (xs : List A)
      → any_of (λ x. any_of f (g x)) xs ≡ true
      → any_of f (concat_map g xs) ≡ true
  any-concat f g [] h = h
  any-concat f g (x ∷ xs) h =
      any-append f (g x) (concat_map g xs) ∙ ground (arith, any-concat f g xs, h)

-- Members of an appended list, and of a list that is mapped.
module _ {A : Type 0} where
  pub mem-left : {x : A} (xs ys : List A) → Memᴰ x xs → Memᴰ x (xs ++ ys)
  mem-left [] ys m = elim m [ ]
  mem-left (y ∷ xs) ys (Memᴰ.head e) = Memᴰ.head e
  mem-left (y ∷ xs) ys (Memᴰ.tail m) = Memᴰ.tail (mem-left xs ys m)

  pub mem-right : {x : A} (xs ys : List A) → Memᴰ x ys → Memᴰ x (xs ++ ys)
  mem-right [] ys m = m
  mem-right (y ∷ xs) ys m = Memᴰ.tail (mem-right xs ys m)

  pub mem-map : {B : Type 0} {x : A} (f : A → B) (xs : List A) → Memᴰ x xs → Memᴰ (f x) (map f xs)
  mem-map f [] m = elim m [ ]
  mem-map f (y ∷ xs) (Memᴰ.head e) = Memᴰ.head (ap f e)
  mem-map f (y ∷ xs) (Memᴰ.tail m) = Memᴰ.tail (mem-map f xs m)
