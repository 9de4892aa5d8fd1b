-- ===== src/Prelude/Sorting.antt =====
-- Python's `sorted` on texts, which compares their code points.
use Prim.Native.Nat.{ℕ, suc}
use Prim.Native.String.{String}
use mathlib.Core.Path.{◌≡◌, refl, ◌∙◌, ap}
use mathlib.Core.Bool.{Bool, true, false, ◌||◌}
use mathlib.Core.List.{List, [], ◌∷◌}
use native.Mathlib.Omega.{arith}
use finite_agent_physics.Prelude.Tests.{ltb, ◌==◌, ◌=ˢ◌, codes, if◌then◌else◌, Bool-cases}
use mathlib.Core.Logic.{inl, inr}
use finite_agent_physics.Prelude.Lists.{elem, length, count}

-- `xs <= ys`
codes_leb : List ℕ → List ℕ → Bool
codes_leb [] ys = true
codes_leb (x ∷ xs) [] = false
codes_leb (x ∷ xs) (y ∷ ys) = let rest = codes_leb xs ys in if x == y then rest else ltb x y

-- A text at its place in a sorted list.
insert_sorted : String → List String → List String
unfolding codes_leb
insert_sorted s [] = s ∷ []
insert_sorted s (t ∷ ts) =
    let rest = insert_sorted s ts in if codes_leb (codes s) (codes t) then s ∷ t ∷ ts else t ∷ rest

unfoldable pub sorted : List String → List String
unfolding insert_sorted
sorted [] = []
sorted (s ∷ ts) = insert_sorted s (sorted ts)

or_swap : (a b c : Bool) → (a || (b || c)) ≡ (b || (a || c))
or_swap a b c = ground arith

elem-insert_sorted :
    (k s : String) (ts : List String) → elem k (insert_sorted s ts) ≡ elem k (s ∷ ts)
unfolding insert_sorted
elem-insert_sorted k s [] = refl
elem-insert_sorted k s (t ∷ ts) = elim (Bool-cases (codes_leb (codes s) (codes t))) [
  | inl e ↦ rw e refl
  | inr e ↦ rw (e, elem-insert_sorted k s ts) (or_swap (k =ˢ t) (k =ˢ s) (elem k ts))
]

-- Sorting keeps what is listed.
pub elem-sorted : (k : String) (ts : List String) → elem k (sorted ts) ≡ elem k ts
unfolding sorted
elem-sorted k [] = refl
elem-sorted k (s ∷ ts) = elem-insert_sorted k s (sorted ts) ∙ rw (elem-sorted k ts) refl

length-insert_sorted :
    (s : String) (ts : List String) → length (insert_sorted s ts) ≡ suc (length ts)
unfolding insert_sorted
length-insert_sorted s [] = refl
length-insert_sorted s (t ∷ ts) = elim (Bool-cases (codes_leb (codes s) (codes t))) [
  | inl e ↦ rw e refl
  | inr e ↦ rw e (ap suc (length-insert_sorted s ts))
]

pub length-sorted : (ts : List String) → length (sorted ts) ≡ length ts
unfolding sorted
length-sorted [] = refl
length-sorted (s ∷ ts) = length-insert_sorted s (sorted ts) ∙ ap suc (length-sorted ts)

count-insert_sorted :
    (k s : String) (ts : List String) → count k (insert_sorted s ts) ≡ count k (s ∷ ts)
unfolding insert_sorted count
count-insert_sorted k s [] = refl
count-insert_sorted k s (t ∷ ts) = elim (Bool-cases (codes_leb (codes s) (codes t))) [
  | inl e ↦ rw e refl
  | inr e ↦ rw e (ground (arith, count-insert_sorted k s ts))
]

pub count-sorted : (k : String) (ts : List String) → count k (sorted ts) ≡ count k ts
unfolding sorted count
count-sorted k [] = refl
count-sorted k (s ∷ ts) = count-insert_sorted k s (sorted ts) ∙ ground (arith, count-sorted k ts)
