-- ===== src/Graph/Successors.antt =====
-- A task is listed among the successors of another as often as it names that as a dependency.
use finite_agent_physics.Prelude.{
  ℕ, ◌+◌, ◌≡◌, refl, sym, ap, ◌∙◌, String, Bool, true, false, Option, none, some, List, [], ◌∷◌,
  ◌++◌, map, Dict, lookup, lookup-nil, lookup-insert, insert, ◌=ˢ◌, =ˢ_refl, =ˢ_ne, if◌then◌else◌,
  ◌||◌, String-cases, Result, ok, err, sorted, count, count-append, count-sorted, arith, continue,
  Bool-cases, Option-cases, inl, inr, gets, elem_by, repeats,
}
use finite_agent_physics.Contracts.Profiles.{Floats}
use finite_agent_physics.Contracts.Tasks.{TaskContract}
use finite_agent_physics.Graph.Graphs.{by_id, dict_into}
use finite_agent_physics.Graph.Walks.{GraphFault, for_each}
use finite_agent_physics.Graph.Order.{
  append_at, add_successor, add_successors, empty_successors, successors_of,
}

unfoldable pub listed : String → Option (List String) → ℕ
listed c none = 0
listed c (some l) = count c l

-- How often `c` is listed at the key `p`.
abbrev pub count_at : String → String → Dict (List String) → ℕ
count_at p c d = listed c (lookup p d)

abbrev one_if : Bool → ℕ → ℕ
one_if b n = if b then n else 0

-- A run that adds the numbers `more` at each key, if it returns.
pub data Adds (more : String → String → ℕ) (d : Dict (List String))
    : Result GraphFault (Unit {0}) × Dict (List String) → Type 0 where
  added :
      (d' : Dict (List String))
      → ((p c : String) → count_at p c d' ≡ count_at p c d + more p c)
      → Adds more d (ok tt, d')
  raised : (d' : Dict (List String)) (e : GraphFault) → Adds more d (err e, d')

after-Adds :
    (more more' total : String → String → ℕ) (d : Dict (List String))
    (r : Result GraphFault (Unit {0}) × Dict (List String))
    (f : Dict (List String) → Result GraphFault (Unit {0}) × Dict (List String))
    → ((p c : String) → total p c ≡ more p c + more' p c)
    → Adds more d r
    → ((d' : Dict (List String)) → Adds more' d' (f d'))
    → Adds total d (continue r (λ _. f))
after-Adds more more' total d _ f sums (added d' h) next = combine _ (next d')
  where
    combine :
        (r : Result GraphFault (Unit {0}) × Dict (List String)) → Adds more' d' r → Adds total d r
    combine _ (added d'' h') = added d'' (λ p c. omega (arith, h p c, h' p c, sums p c))
    combine _ (raised d'' e) = raised d'' e
after-Adds more more' total d _ f sums (raised d' e) next = raised d' e

add_successor-Adds :
    (t k : String) (d : Dict (List String))
    → Adds (λ p c. one_if (p =ˢ k) (one_if (c =ˢ t) 1)) d (add_successor t k d)
unfolding add_successor append_at listed count
add_successor-Adds t k d = elim (Option-cases (lookup k d)) [
  | inl e ↦ rw e (raised d _)
  | inr (l, e) ↦ rw e (
      added (insert k (l ++ t ∷ []) d) (λ p c. elim (String-cases p k) [
        | inl q ↦
            let yes : (p =ˢ k) ≡ true = rw q (=ˢ_refl k) in
            let old : lookup p d ≡ some l = ap (λ x. lookup x d) q ∙ e in
            rw (lookup-insert p k (l ++ t ∷ []) d, yes, old)
              (ground (arith, count-append c l (t ∷ [])))
        | inr n ↦ let no = =ˢ_ne p k n in rw (lookup-insert p k (l ++ t ∷ []) d, no) (omega arith)
      ]))
]

add_each-Adds :
    (t : String) (ks : List String) (d : Dict (List String))
    → Adds (λ p c. one_if (c =ˢ t) (count p ks)) d (for_each (add_successor t) ks d)
unfolding for_each count
add_each-Adds t [] d = added d (λ p c. ground arith)
add_each-Adds t (k ∷ ks) d =
    after-Adds _ _ _ d _ (for_each (add_successor t) ks) (λ p c. ground arith)
      (add_successor-Adds t k d) (add_each-Adds t ks)

abbrev pub id_of : {F : Floats} → TaskContract F → String
id_of t = t.task_id

abbrev pub same_text : String → String → Bool
same_text a b = a =ˢ b

abbrev pub sort_all : Dict (List String) → Dict (List String)
sort_all d = map (λ e. (e.0, sorted e.1)) d

sorted_at : (p c : String) (d : Dict (List String)) → count_at p c (sort_all d) ≡ count_at p c d
unfolding lookup listed
sorted_at p c [] = refl
sorted_at p c ((k, l) ∷ d) = elim (Bool-cases (p =ˢ k)) [
  | inl e ↦ rw e (count-sorted c l)
  | inr e ↦ rw e (sorted_at p c d)
]

pub from_added :
    (more : String → String → ℕ) (d succ : Dict (List String))
    (r : Result GraphFault (Unit {0}) × Dict (List String))
    → Adds more d r
    → (continue r (λ _. gets sort_all)).0 ≡ ok succ
    → (p c : String) → count_at p c succ ≡ count_at p c d + more p c
from_added more d succ _ (added d' h) e p c =
    ap (count_at p c) (sym (ok_inj e)) ∙ (sorted_at p c d' ∙ h p c)
  where
    ok_inj :
        {x y : Dict (List String)}
        → (let r : Result GraphFault (Dict (List String)) = ok x in r) ≡ ok y
        → x ≡ y
    ok_inj q = cc
from_added more d succ _ (raised d' x) e p c = cc

module _ {F : Floats} where
  -- How often the tasks named `c` name `p` as a dependency.
  unfoldable pub total : List (TaskContract F) → String → String → ℕ
  unfolding count
  total [] p c = 0
  total (t ∷ ts) p c = one_if (c =ˢ t.task_id) (count p t.dependencies) + total ts p c

  pub add_successors-Adds :
      (ts : List (TaskContract F)) (d : Dict (List String))
      → Adds (total ts) d (add_successors ts d)
  unfolding add_successors total
  add_successors-Adds [] d = added d (λ p c. omega arith)
  add_successors-Adds (t ∷ ts) d =
      after-Adds _ _ _ d _ (add_successors ts) (λ p c. refl)
        (add_each-Adds t.task_id t.dependencies d) (add_successors-Adds ts)

  pub empty_zero :
      (ts : List (TaskContract F)) (d : Dict (List String))
      → ((p c : String) → count_at p c d ≡ 0)
      → (p c : String) → count_at p c (empty_successors ts d) ≡ 0
  unfolding empty_successors listed count
  empty_zero [] d h p c = h p c
  empty_zero (t ∷ ts) d h p c = empty_zero ts (insert t.task_id [] d) inserted p c
    where
      inserted : (p c : String) → count_at p c (insert t.task_id [] d) ≡ 0
      inserted p c = elim (Bool-cases (p =ˢ t.task_id)) [
        | inl e ↦ rw (lookup-insert p t.task_id [] d, e) refl
        | inr e ↦ rw (lookup-insert p t.task_id [] d, e) (h p c)
      ]

  -- No task of the list has the name.
  pub absent_total :
      (ts : List (TaskContract F)) (p c : String)
      → elem_by same_text c (map id_of ts) ≡ false
      → total ts p c ≡ 0
  unfolding total
  absent_total [] p c e = refl
  absent_total (t ∷ ts) p c e = ground (arith, absent_total ts p c, e)

  absent_lookup :
      (ts : List (TaskContract F)) (c : String) (d : Dict (TaskContract F))
      → elem_by same_text c (map id_of ts) ≡ false
      → lookup c (dict_into id_of ts d) ≡ lookup c d
  unfolding dict_into
  absent_lookup [] c d e = refl
  absent_lookup (t ∷ ts) c d e = elim (Bool-cases (c =ˢ t.task_id)) [
    | inl y ↦ cc (rw y at e)
    | inr n ↦
        let rest : elem_by same_text c (map id_of ts) ≡ false = rw n at e in
        absent_lookup ts c (insert t.task_id t d) rest ∙ (lookup-insert c t.task_id t d ∙ rw n refl)
  ]

  unique_total :
      (ts : List (TaskContract F)) (p c : String) (d : Dict (TaskContract F))
      (contract : TaskContract F)
      → repeats same_text (map id_of ts) ≡ false
      → lookup c d ≡ none
      → lookup c (dict_into id_of ts d) ≡ some contract
      → total ts p c ≡ count p contract.dependencies
  unfolding total dict_into
  unique_total [] p c d contract u out found = cc
  unique_total (t ∷ ts) p c d contract u out found = elim (String-cases c t.task_id) [
    | inl q ↦
        let yes : (c =ˢ t.task_id) ≡ true = rw q (=ˢ_refl t.task_id) in
        let absent : elem_by same_text c (map id_of ts) ≡ false = rw q (or_left _ _ u) in
        let same : t ≡ contract = some_inj (
          sym (
            absent_lookup ts c (insert t.task_id t d) absent
            ∙ (lookup-insert c t.task_id t d ∙ rw yes refl))
          ∙ found) in
        rw yes (
          omega (
            arith,
            absent_total ts p c absent,
            ap (λ (x : TaskContract F). count p x.dependencies) same,
          ))
    | inr n ↦
        let no = =ˢ_ne c t.task_id n in
        let still : lookup c (insert t.task_id t d) ≡ none =
          lookup-insert c t.task_id t d ∙ rw no out in
        rw no (
          omega (
            arith,
            unique_total ts p c (insert t.task_id t d) contract (or_right _ _ u) still found,
          ))
  ]
    where
      some_inj : {x y : TaskContract F} → some x ≡ some y → x ≡ y
      some_inj e = cc

      or_left : (a b : Bool) → (a || b) ≡ false → a ≡ false
      or_left a b e = ground (arith, e)

      or_right : (a b : Bool) → (a || b) ≡ false → b ≡ false
      or_right a b e = ground (arith, e)

  pub successors_lem :
      (ts : List (TaskContract F)) (succ : Dict (List String)) (p c : String) (cs : List String)
      (contract : TaskContract F)
      → repeats same_text (map id_of ts) ≡ false
      → successors_of ts ≡ ok succ
      → lookup p succ ≡ some cs
      → lookup c (by_id ts) ≡ some contract
      → count c cs ≡ count p contract.dependencies
  unfolding successors_of by_id listed
  successors_lem ts succ p c cs contract u made here found =
      let counted =
        from_added (total ts) _ succ _ (add_successors-Adds ts (empty_successors ts [])) made p c in
      let none_yet = empty_zero ts [] (λ q x. ap (listed x) (lookup-nil q)) p c in
      let all = unique_total ts p c [] contract u (lookup-nil c) found in
      let there = ap (listed c) here in omega (arith, counted, none_yet, all, there)
