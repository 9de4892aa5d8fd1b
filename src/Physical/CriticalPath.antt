-- ===== src/Physical/CriticalPath.antt =====
-- How the loop of `_critical_path` ends.
use finite_agent_physics.Prelude.{
  ℕ, ◌+◌, ◌≡◌, sym, ap, subst, String, Bool, true, false, ◌||◌, Option, none, some, List, [], ◌∷◌,
  Dict, lookup, contains, insert, ◌=ˢ◌, =ˢ_ne, String-cases, ok, elem, arith, Bool-cases,
  Option-cases, inl, inr,
}
use finite_agent_physics.Contracts.Profiles.{Floats}
use finite_agent_physics.Contracts.Tasks.{TaskContract}
use finite_agent_physics.Graph.Decided.{DependsOn}
use finite_agent_physics.Physical.Sums.{bounded_cases, safe_add_lem}
use finite_agent_physics.Physical.Paths.{max_of, rank_all}
use finite_agent_physics.Physical.Ranks.{Looked-up, After, Ranked, RankEnd}
use finite_agent_physics.Physical.Chains.{
  undefined_next, ranked_next, skipped_next, next-Ranked, Chain-reached,
}

-- The tasks that are done once the list is passed.
abbrev pub passed : List String → List String → List String
passed done [] = done
passed done (t ∷ ts) = passed (t ∷ done) ts

pub elem-passed :
    (x : String) (done ts : List String)
    → (elem x done || elem x ts) ≡ true
    → elem x (passed done ts) ≡ true
elem-passed x done [] e = ground (arith, e)
elem-passed x done (t ∷ ts) e =
    elem-passed x (t ∷ done) ts (move (elem x done) (x =ˢ t) (elem x ts) e)
  where
    move : (a b c : Bool) → (a || (b || c)) ≡ true → ((b || a) || c) ≡ true
    move a b c e = ground (arith, e)

module _ {F : Floats} (known : Dict (TaskContract F)) (selected : List String)
    (local_values : Dict (Option ℕ))
    (closed : (d t : String)
      → elem t selected ≡ true
      → DependsOn known d t
      → elem d selected ≡ true)
    (has_task : (t : String) → elem t selected ≡ true → contains t known ≡ true)
    (has_local : (t : String) → elem t selected ≡ true → contains t local_values ≡ true) where
  skip-Ranked :
      (t : String) (done : List String) (ranks : Dict ℕ)
      → elem t selected ≡ false
      → Ranked known local_values selected done ranks
      → Ranked known local_values selected (t ∷ done) ranks
  skip-Ranked t done ranks out r = record {
    each = λ x e s. elim (String-cases x t) [
      | inl q ↦ cc (s, out, ap (λ y. elem y selected) q)
      | inr n ↦ r.each x (rw (=ˢ_ne x t n) at e) s
    ];
    above = r.above;
    reached = r.reached;
    once = r.once;
  }

  -- One task that has a value, before the others.
  rank_one-RankEnd :
      (t : String) (v : ℕ) (ts done : List String) (ranks : Dict ℕ)
      → elem t selected ≡ true
      → lookup t local_values ≡ some (some v)
      → ((d : String) → DependsOn known d t → elem d done ≡ true)
      → Ranked known local_values selected done ranks
      → ((next : Dict ℕ)
          → Ranked known local_values selected (t ∷ done) next
          → RankEnd known local_values selected
              (passed (t ∷ done) ts)
              (rank_all known selected local_values ts next))
      → RankEnd known local_values selected
          (passed (t ∷ done) ts)
          (rank_all known selected local_values (t ∷ ts) ranks)
  rank_one-RankEnd t v ts done ranks here own before r rest = elim (Option-cases (lookup t known)) [
    | inl absent ↦ cc (has_task t here, absent)
    | inr (c, there) ↦
        let has : (d : String) → DependsOn known d t → contains d ranks ≡ true =
          λ d p. r.each d (before d p) (closed d t here p) in
        let l =
          Looked-up c.dependencies ranks
            (λ d e. has d (record { contract = c; found = there; listed = e })) in
        let run =
          ranked_next known selected local_values t ts ranks v c l.found here own there
            l.returned in
        let rank = max_of l.found + v in
        subst (RankEnd known local_values selected (passed (t ∷ done) ts)) (sym run) (
          subst
            (λ o. RankEnd known local_values selected (passed (t ∷ done) ts) (elim o [
              | none ↦ ok none
              | some m ↦ rank_all known selected local_values ts (insert t m ranks)
            ]))
            (sym (safe_add_lem (max_of l.found) v))
            (elim (bounded_cases rank) [
              | inl fits ↦ rw fits (
                  rest (insert t rank ranks)
                    (next-Ranked known selected local_values t v c done ranks l r there own has))
              | inr (over, more) ↦ rw over (
                  RankEnd.overflowed t rank
                    (Chain-reached known selected local_values t v c done ranks l r there own) more)
            ]))
  ]

  pub rank_all-RankEnd :
      (ts done : List String) (ranks : Dict ℕ)
      → After known done ts
      → Ranked known local_values selected done ranks
      → RankEnd known local_values selected
          (passed done ts)
          (rank_all known selected local_values ts ranks)
  unfolding rank_all
  rank_all-RankEnd [] done ranks a r = RankEnd.ranked ranks r
  rank_all-RankEnd (t ∷ ts) done ranks a r = elim (Bool-cases (elem t selected)) [
    | inr out ↦
        subst (RankEnd known local_values selected (passed (t ∷ done) ts))
          (sym (skipped_next known selected local_values t ts ranks out))
          (rank_all-RankEnd ts (t ∷ done) ranks a.1 (skip-Ranked t done ranks out r))
    | inl here ↦ elim (Option-cases (lookup t local_values)) [
      | inl absent ↦ cc (has_local t here, absent)
      | inr (none, own) ↦
          subst (RankEnd known local_values selected (passed (t ∷ done) ts))
            (sym (undefined_next known selected local_values t ts ranks here own))
            (RankEnd.undefined t own)
      | inr (some v, own) ↦
          rank_one-RankEnd t v ts done ranks here own a.0 r
            (λ next kept. rank_all-RankEnd ts (t ∷ done) next a.1 kept)
    ]
  ]
