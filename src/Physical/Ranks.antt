-- ===== src/Physical/Ranks.antt =====
-- The ranks of `_critical_path`: each is the weight of the heaviest chain that ends at its task.
use finite_agent_physics.Prelude.{
  ℕ, max, ◌+◌, ◌≤◌, ◌<◌, ◌≡◌, refl, sym, ap, ◌∙◌, String, Bool, true, false, ◌||◌, Option, none,
  some, List, [], ◌∷◌, ◌++◌, Dict, IsDict, lookup, contains, ◌=ˢ◌, =ˢ_refl, =ˢ_ne, String-cases,
  leb, Result, ok, elem, arith, Bool-cases, Option-cases, inl, inr, ◌⊎◌,
}
use finite_agent_physics.Prelude.Results.{◌>>=◌}
use finite_agent_physics.Contracts.Profiles.{Floats}
use finite_agent_physics.Contracts.Tasks.{TaskContract}
use finite_agent_physics.Graph.Walks.{GraphFault}
use finite_agent_physics.Graph.Decided.{DependsOn}
use finite_agent_physics.Graph.Sound.{Precedes}
use finite_agent_physics.Physical.Arithmetic.{int64_max}
use finite_agent_physics.Physical.Paths.{max_of, look, look_all}

-- A look-up of all the keys, where each is there.
pub record Looked (ks : List String) (d : Dict ℕ) : Type 0 where
  pub found : List ℕ
  pub returned : look_all ks d ≡ ok found
  pub above : (k : String) (n : ℕ) → elem k ks ≡ true → lookup k d ≡ some n → n ≤ max_of found
  pub reached :
      (max_of found ≡ 0) ⊎ ((k : String) × (elem k ks ≡ true) × (lookup k d ≡ some (max_of found)))

pub some_inj : {n m : ℕ} → some n ≡ some m → n ≡ m
some_inj e = cc

pub max_cases : (a b : ℕ) → (max a b ≡ a) ⊎ (max a b ≡ b)
max_cases a b = elim (Bool-cases (leb b a)) [
  | inl e ↦ inl (ground (arith, e))
  | inr e ↦ inr (ground (arith, e))
]

pub look_lem :
    {A : Type 0} (k : String) (d : Dict A) {v : A} → lookup k d ≡ some v → look k d ≡ ok v
look_lem k d e = rw (e, look) refl

pub Looked-up :
    (ks : List String) (d : Dict ℕ)
    → ((k : String) → elem k ks ≡ true → contains k d ≡ true)
    → Looked ks d
unfolding look_all max_of
Looked-up [] d there = record {
  found = [];
  returned = refl;
  above = λ k n e. cc;
  reached = inl refl;
}
Looked-up (k ∷ ks) d there =
    from (Option-cases (lookup k d)) (Looked-up ks d (λ x e. there x (in_tail x e)))
  where
    in_tail : (x : String) → elem x ks ≡ true → elem x (k ∷ ks) ≡ true
    in_tail x e = ground (arith, e)

    here : elem k (k ∷ ks) ≡ true
    here = rw (=ˢ_refl k) refl

    from : (lookup k d ≡ none) ⊎ ((n : ℕ) × (lookup k d ≡ some n)) → Looked ks d → Looked (k ∷ ks) d
    from (inl e) l = cc (there k here, e)
    from (inr (v, e)) l = record {
      found = v ∷ l.found;
      returned =
          ap (λ r. r >>= λ v. look_all ks d >>= λ vs. ok (v ∷ vs)) (look_lem k d e)
          ∙ ap (λ r. r >>= λ vs. ok (v ∷ vs)) l.returned;
      above = λ x n h q. elim (String-cases x k) [
        | inl p ↦
            let same : n ≡ v = some_inj (sym q ∙ ap (λ y. lookup y d) p ∙ e) in omega (arith, same)
        | inr p ↦ omega (arith, l.above x n (rw (=ˢ_ne x k p) at h) q)
      ];
      reached = elim (max_cases v (max_of l.found)) [
        | inl p ↦ inr (k, here, e ∙ ap some (sym p))
        | inr p ↦ elim l.reached [
          | inl z ↦ inl (p ∙ z)
          | inr (x, h, q) ↦ inr (x, in_tail x h, q ∙ ap some (sym p))
        ]
      ];
    }

module _ {F : Floats} (known : Dict (TaskContract F)) where
  -- Each of the tasks comes after its dependencies, which are done or come before it.
  abbrev pub After : List String → List String → Type 0
  After done [] = Unit
  After done (t ∷ ts) =
      ((d : String) → DependsOn known d t → elem d done ≡ true) × After (t ∷ done) ts

  After-last :
      (t : String) (done rest : List String)
      → After done rest
      → ((d : String) → DependsOn known d t → (elem d done || elem d rest) ≡ true)
      → After done (rest ++ t ∷ [])
  After-last t done [] a h = ((λ d p. or_false (elem d done) (h d p)), tt)
    where
      or_false : (b : Bool) → (b || false) ≡ true → b ≡ true
      or_false b e = ground (arith, e)
  After-last t done (x ∷ rest) a h = (
    a.0,
    After-last t (x ∷ done) rest a.1 (λ d p. move (elem d done) (d =ˢ x) (elem d rest) (h d p)),
  )
    where
      move : (a b c : Bool) → (a || (b || c)) ≡ true → ((b || a) || c) ≡ true
      move a b c e = ground (arith, e)

  pub Precedes-After : (order : List String) → Precedes known order → After [] order
  Precedes-After _ Precedes.nothing = tt
  Precedes-After _ (Precedes.one_more order t p h) =
      After-last t [] order (Precedes-After order p) h

  module _ (local_values : Dict (Option ℕ)) where
    -- A chain of dependencies that ends at the task, with the sum of its tasks' values.
    pub data Chain : String → ℕ → Type 0 where
      alone : (t : String) (v : ℕ) → lookup t local_values ≡ some (some v) → Chain t v
      longer :
          (d t : String) (n v : ℕ)
          → Chain d n
          → DependsOn known d t
          → lookup t local_values ≡ some (some v)
          → Chain t (n + v)

    pub record Ranked (selected done : List String) (ranks : Dict ℕ) : Type 0 where
      pub each :
          (t : String) → elem t done ≡ true → elem t selected ≡ true → contains t ranks ≡ true
      pub above : (t : String) (r n : ℕ) → lookup t ranks ≡ some r → Chain t n → n ≤ r
      pub reached : (t : String) (r : ℕ) → lookup t ranks ≡ some r → Chain t r
      pub once : IsDict ranks

    -- How the loop ends: with the ranks, or early.
    pub data RankEnd (selected done : List String)
        : Result GraphFault (Option (Dict ℕ)) → Type 0 where
      ranked :
          (ranks : Dict ℕ) → Ranked selected done ranks → RankEnd selected done (ok (some ranks))
      undefined : (t : String) → lookup t local_values ≡ some none → RankEnd selected done (ok none)
      overflowed :
          (t : String) (n : ℕ) → Chain t n → int64_max < n → RankEnd selected done (ok none)
