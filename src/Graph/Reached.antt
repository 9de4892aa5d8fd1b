-- ===== src/Graph/Reached.antt =====
-- Where the dependencies are well founded, an ordering loop with an empty queue has ordered every task.
use mathlib.Core.WellFounded.{Acc}
use finite_agent_physics.Prelude.{
  suc, ◌+◌, ◌≤◌, ◌≡◌, refl, sym, ap, ◌∙◌, ℤ, String, true, some, List, [], ◌∷◌, Dict, lookup,
  contains, ◌=ˢ◌, =ˢ_refl, =ˢ_ne, if◌then◌else◌, String-cases, elem, count, length, arith,
  Option-cases, inl, inr,
}
use finite_agent_physics.Contracts.Profiles.{Floats}
use finite_agent_physics.Contracts.Tasks.{TaskContract}
use finite_agent_physics.Graph.Walks.{removed}
use finite_agent_physics.Graph.Decided.{DependsOn}
use finite_agent_physics.Graph.Order.{Progress}
use finite_agent_physics.Graph.Sound.{outstanding, Ordered}
use finite_agent_physics.Graph.Passes.{count_first}
use finite_agent_physics.Graph.Decided.{Closed}

outstanding_all :
    (order ds : List String)
    → ((d : String) → elem d ds ≡ true → elem d order ≡ true)
    → outstanding order ds ≡ 0
unfolding outstanding
outstanding_all order [] all = refl
outstanding_all order (d ∷ ds) all =
    rw (all d (rw (=ˢ_refl d) refl)) (outstanding_all order ds (λ x e. all x (in_tail x e)))
  where
    in_tail : (x : String) → elem x ds ≡ true → elem x (d ∷ ds) ≡ true
    in_tail x e = ground (arith, e)

pub counted_elem : (c : String) (xs : List String) → 1 ≤ count c xs → elem c xs ≡ true
unfolding count
counted_elem c [] e = absurd (omega (arith, e))
counted_elem c (x ∷ xs) e = ground (arith, counted_elem c xs, e)

module _ {F : Floats} (known : Dict (TaskContract F)) (closed : Closed known) (p : Progress)
    (o : Ordered known [] p) (emptied : p.ready ≡ []) where
  pub all_ordered :
      (t : String) → Acc (DependsOn known) t → contains t known ≡ true → elem t p.order ≡ true
  unfolding count
  all_ordered t acc = elim acc as (λ t _. contains t known ≡ true → elem t p.order ≡ true) [
    | Acc.intro t (h → ih) ↦ λ there. elim (Option-cases (lookup t known)) [
      | inl u ↦ cc (there, u)
      | inr (contract, found) ↦
          let on : (d : String) → elem d contract.dependencies ≡ true → DependsOn known d t =
            λ d i. record { contract = contract; found = found; listed = i } in
          let none_left =
            outstanding_all p.order contract.dependencies
              (λ d i. ih d (on d i) (closed d t (on d i))) in
          counted_elem t p.order (
            omega (
              arith,
              o.released t (
                  o.degrees t contract found ∙ ap (λ n. some (ℤ.pos n)) (omega (arith, none_left))),
              ap (count t) emptied,
            ))
    ]
  ]

count-removed :
    (c x : String) (ys : List String)
    → 1 ≤ count x ys
    → count c (removed x ys) + (if c =ˢ x then 1 else 0) ≡ count c ys
unfolding count removed
count-removed c x [] e = absurd (omega (arith, e))
count-removed c x (y ∷ ys) e = elim (String-cases x y) [
  | inl q ↦ let yes : (y =ˢ x) ≡ true = rw (q, =ˢ_refl y) refl in rw (yes, q) (ground arith)
  | inr n ↦
      let no = =ˢ_ne x y n in
      let other = =ˢ_ne y x (λ q. n (sym q)) in
      let there : 1 ≤ count x ys = rw no at e in
      rw other (ground (arith, count-removed c x ys there))
]

length-removed :
    (x : String) (ys : List String) → 1 ≤ count x ys → suc (length (removed x ys)) ≡ length ys
unfolding count removed
length-removed x [] e = absurd (omega (arith, e))
length-removed x (y ∷ ys) e = elim (String-cases x y) [
  | inl q ↦ let yes : (y =ˢ x) ≡ true = rw (q, =ˢ_refl y) refl in rw yes refl
  | inr n ↦
      let no = =ˢ_ne x y n in
      let other = =ˢ_ne y x (λ q. n (sym q)) in
      let there : 1 ≤ count x ys = rw no at e in rw other (ap suc (length-removed x ys there))
]

-- A list that lists nothing more often is not longer.
pub not_longer :
    (xs ys : List String) → ((c : String) → count c xs ≤ count c ys) → length xs ≤ length ys
unfolding count
not_longer [] ys h = omega arith
not_longer (x ∷ xs) ys h =
    let there : 1 ≤ count x ys = omega (arith, h x, count_first x xs) in
    let rest = not_longer xs (removed x ys) (λ c. fewer c there (count-removed c x ys there)) in
    omega (arith, rest, length-removed x ys there)
  where
    fewer :
        (c : String)
        → 1 ≤ count x ys
        → count c (removed x ys) + (if c =ˢ x then 1 else 0) ≡ count c ys
        → count c xs ≤ count c (removed x ys)
    fewer c there e = ground (arith, h c, e)
