-- ===== src/Physical/Chains.antt =====
-- `_critical_path` returns the weight of the heaviest chain of dependencies.
use finite_agent_physics.Prelude.{
  ℕ, ◌+◌, ◌≤◌, ◌≡◌, ◌≢◌, refl, sym, ap, ◌∙◌, subst, String, true, false, Option, none, some, List,
  ◌∷◌, Dict, insert-IsDict, lookup, lookup-insert, contains, insert, =ˢ_refl, =ˢ_ne, String-cases,
  ok, elem, arith, Option-cases, inl, inr,
}
use finite_agent_physics.Contracts.Profiles.{Floats}
use finite_agent_physics.Contracts.Tasks.{TaskContract}
use finite_agent_physics.Graph.Decided.{DependsOn}
use finite_agent_physics.Physical.Arithmetic.{safe_add}
use finite_agent_physics.Physical.Paths.{max_of, look, look_all, rank_all}
use finite_agent_physics.Physical.Ranks.{Looked, Chain, Ranked, some_inj}

module _ {F : Floats} (known : Dict (TaskContract F)) (selected : List String)
    (local_values : Dict (Option ℕ)) where
  pub undefined_next :
      (t : String) (ts : List String) (ranks : Dict ℕ)
      → elem t selected ≡ true
      → lookup t local_values ≡ some none
      → rank_all known selected local_values (t ∷ ts) ranks ≡ ok none
  unfolding rank_all
  undefined_next t ts ranks here own = rw (here, own, look) refl

  pub ranked_next :
      (t : String) (ts : List String) (ranks : Dict ℕ) (v : ℕ) (c : TaskContract F)
      (before : List ℕ)
      → elem t selected ≡ true
      → lookup t local_values ≡ some (some v)
      → lookup t known ≡ some c
      → look_all c.dependencies ranks ≡ ok before
      → rank_all known selected local_values (t ∷ ts) ranks ≡ elim (safe_add (max_of before) v) [
        | none ↦ ok none
        | some rank ↦ rank_all known selected local_values ts (insert t rank ranks)
      ]
  unfolding rank_all
  ranked_next t ts ranks v c before here own there deps = rw (here, own, there, deps, look) refl

  pub skipped_next :
      (t : String) (ts : List String) (ranks : Dict ℕ)
      → elem t selected ≡ false
      → rank_all known selected local_values (t ∷ ts) ranks
        ≡ rank_all known selected local_values ts ranks
  unfolding rank_all
  skipped_next t ts ranks here = rw here refl

  -- The chains that end at a task whose dependencies are ranked.
  Chain-within :
      (t : String) (n v : ℕ) (c : TaskContract F) (done : List String) (ranks : Dict ℕ)
      (l : Looked c.dependencies ranks)
      → Ranked known local_values selected done ranks
      → lookup t known ≡ some c
      → lookup t local_values ≡ some (some v)
      → ((d : String) → DependsOn known d t → contains d ranks ≡ true)
      → Chain known local_values t n
      → n ≤ max_of l.found + v
  Chain-within t _ v c done ranks l r there own has (Chain.alone _ w e) =
      omega (arith, value_inj (sym e ∙ own))
    where
      value_inj : {n m : ℕ} → some (some n) ≡ some (some m) → n ≡ m
      value_inj e = cc
  Chain-within t _ v c done ranks l r there own has (Chain.longer d _ n w chain p e) =
      elim (Option-cases (lookup d ranks)) [
        | inl absent ↦ cc (has d p, absent)
        | inr (m, found) ↦ omega (
          arith,
          value_inj (sym e ∙ own),
          r.above d m n found chain,
          l.above d m (ap (elem d) (same_list (sym there ∙ p.found)) ∙ p.listed) found,
        )
      ]
    where
      value_inj : {n m : ℕ} → some (some n) ≡ some (some m) → n ≡ m
      value_inj e = cc

      same_list : {a b : TaskContract F} → some a ≡ some b → a.dependencies ≡ b.dependencies
      same_list e = cc

  pub Chain-reached :
      (t : String) (v : ℕ) (c : TaskContract F) (done : List String) (ranks : Dict ℕ)
      (l : Looked c.dependencies ranks)
      → Ranked known local_values selected done ranks
      → lookup t known ≡ some c
      → lookup t local_values ≡ some (some v)
      → Chain known local_values t (max_of l.found + v)
  Chain-reached t v c done ranks l r there own = elim l.reached [
    | inl z ↦
        subst (λ m. Chain known local_values t (m + v)) (sym z)
          (subst (Chain known local_values t) (plus_zero v) (Chain.alone t v own))
    | inr (d, listed, found) ↦
        Chain.longer d t (max_of l.found) v (r.reached d (max_of l.found) found)
          (record { contract = c; found = there; listed = listed }) own
  ]
    where
      plus_zero : (n : ℕ) → n ≡ 0 + n
      plus_zero n = omega arith

  pub next-Ranked :
      (t : String) (v : ℕ) (c : TaskContract F) (done : List String) (ranks : Dict ℕ)
      (l : Looked c.dependencies ranks)
      → Ranked known local_values selected done ranks
      → lookup t known ≡ some c
      → lookup t local_values ≡ some (some v)
      → ((d : String) → DependsOn known d t → contains d ranks ≡ true)
      → Ranked known local_values selected (t ∷ done) (insert t (max_of l.found + v) ranks)
  next-Ranked t v c done ranks l r there own has = record {
    each = λ x e s. elim (String-cases x t) [
      | inl q ↦ rw (lookup-insert x t rank ranks, q, =ˢ_refl t) refl
      | inr n ↦ rw (lookup-insert x t rank ranks, =ˢ_ne x t n) (r.each x (rw (=ˢ_ne x t n) at e) s)
    ];
    above = λ x m n found chain. elim (String-cases x t) [
      | inl q ↦
          let same : rank ≡ m = some_inj (sym (at_key x q) ∙ found) in
          subst (λ y. n ≤ y) same
            (Chain-within t n v c done ranks l r there own has
              (subst (λ y. Chain known local_values y n) q chain))
      | inr k ↦ r.above x m n (sym (off_key x k) ∙ found) chain
    ];
    reached = λ x m found. elim (String-cases x t) [
      | inl q ↦
          let same : rank ≡ m = some_inj (sym (at_key x q) ∙ found) in
          subst (Chain known local_values x) same (
            subst (λ y. Chain known local_values y rank) (sym q)
              (Chain-reached t v c done ranks l r there own))
      | inr k ↦ r.reached x m (sym (off_key x k) ∙ found)
    ];
    once = insert-IsDict t rank ranks r.once;
  }
    where
      rank : ℕ
      rank = max_of l.found + v

      at_key :
          (x : String)
          → x ≡ t
          → lookup x (insert t (max_of l.found + v) ranks) ≡ some (max_of l.found + v)
      at_key x q = rw (lookup-insert x t (max_of l.found + v) ranks, q, =ˢ_refl t) refl

      off_key :
          (x : String) → x ≢ t → lookup x (insert t (max_of l.found + v) ranks) ≡ lookup x ranks
      off_key x k = rw (lookup-insert x t (max_of l.found + v) ranks, =ˢ_ne x t k) refl
