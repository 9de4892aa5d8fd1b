-- ===== src/Graph/Starts.antt =====
-- The ordering loop starts with its invariant.
use finite_agent_physics.Prelude.{
  if◌then◌else◌, is_zero, subst, zero, suc, ◌≤◌, ◌≡◌, refl, sym, ap, ◌∙◌, ℤ, String, true, false,
  Option, none, some, List, [], ◌∷◌, Dict, IsDict, insert-IsDict, lookup, contains, insert, ◌=ˢ◌,
  =ˢ_refl, =ˢ_ne, String-cases, count, count-sorted, length, arith, Bool-cases, inl, inr, is_some,
}
use finite_agent_physics.Contracts.Profiles.{Floats}
use finite_agent_physics.Contracts.Tasks.{TaskContract}
use finite_agent_physics.Graph.Graphs.{dict_into}
use finite_agent_physics.Graph.Order.{zeros, indegrees, start}
use finite_agent_physics.Graph.Successors.{id_of}
use finite_agent_physics.Graph.Sound.{outstanding_start, Precedes, Ordered}

zeros_unlisted : (c : String) (ds : Dict ℤ) → lookup c ds ≡ none → count c (zeros ds) ≡ 0
unfolding zeros lookup count
zeros_unlisted c [] e = refl
zeros_unlisted c ((k, d) ∷ ds) e = ground (arith, zeros_unlisted c ds, e)

zeros_once : (c : String) (ds : Dict ℤ) → IsDict ds → count c (zeros ds) ≤ 1
unfolding zeros lookup count
zeros_once c [] h = omega arith
zeros_once c ((k, d) ∷ ds) h = elim (String-cases c k) [
  | inl q ↦
      let yes : (c =ˢ k) ≡ true = rw (q, =ˢ_refl k) refl in
      let others : count c (zeros ds) ≡ 0 = zeros_unlisted c ds (ap (λ x. lookup x ds) q ∙ h.0) in
      ground (arith, yes, others)
  | inr n ↦ let no = =ˢ_ne c k n in ground (arith, no, zeros_once c ds h.1)
]

-- A name whose degree is not zero is not listed by it.
zeros_later :
    (c k : String) (v : ℤ) (ds : Dict ℤ)
    → lookup k ds ≡ none
    → (1 ≤ count c (zeros ds) → lookup c ds ≡ some (ℤ.pos 0))
    → 1 ≤ count c (zeros ds)
    → lookup c ((k, v) ∷ ds) ≡ some (ℤ.pos 0)
unfolding lookup
zeros_later c k v ds new found e = elim (String-cases c k) [
  | inl q ↦ absurd (omega (arith, e, zeros_unlisted c ds (ap (λ x. lookup x ds) q ∙ new)))
  | inr n ↦ rw (=ˢ_ne c k n) (found e)
]

zeros_found :
    (c : String) (ds : Dict ℤ) → IsDict ds → 1 ≤ count c (zeros ds) → lookup c ds ≡ some (ℤ.pos 0)
unfolding zeros lookup count
zeros_found c [] h e = absurd (omega (arith, e))
zeros_found c ((k, ℤ.pos zero) ∷ ds) h e = elim (Bool-cases (c =ˢ k)) [
  | inl y ↦ rw y refl
  | inr n ↦ rw n (zeros_found c ds h.1 (rw n at e))
]
zeros_found c ((k, ℤ.pos (suc n)) ∷ ds) h e = zeros_later c k _ ds h.0 (zeros_found c ds h.1) e
zeros_found c ((k, ℤ.negsuc n) ∷ ds) h e = zeros_later c k _ ds h.0 (zeros_found c ds h.1) e

zeros_listed : (c : String) (ds : Dict ℤ) → lookup c ds ≡ some (ℤ.pos 0) → 1 ≤ count c (zeros ds)
unfolding zeros lookup count
zeros_listed c [] e = cc
zeros_listed c ((k, d) ∷ ds) e = elim (Bool-cases (c =ˢ k)) [
  | inl y ↦
      let zero_there : ℤ.pos 0 ≡ d = some_inj (sym (rw y at e)) in
      subst (λ v. 1 ≤ count c (if is_zero v then k ∷ zeros ds else zeros ds)) zero_there
        (rw y (omega arith))
  | inr n ↦
      let there : 1 ≤ count c (zeros ds) = zeros_listed c ds (rw n at e) in ground (arith, n, there)
]
  where
    some_inj : {x y : ℤ} → some x ≡ some y → x ≡ y
    some_inj q = cc

module _ {F : Floats} where
  indegrees_found :
      (known : Dict (TaskContract F)) (c : String) (contract : TaskContract F)
      → lookup c known ≡ some contract
      → lookup c (indegrees known) ≡ some (ℤ.pos (length contract.dependencies))
  unfolding lookup
  indegrees_found [] c contract e = cc
  indegrees_found ((k, t) ∷ ds) c contract e = elim (Bool-cases (c =ˢ k)) [
    | inl y ↦
        rw y
          (ap (λ (x : TaskContract F). some (ℤ.pos (length x.dependencies))) (some_inj (rw y at e)))
    | inr n ↦ rw n (indegrees_found ds c contract (rw n at e))
  ]
    where
      some_inj : {x y : TaskContract F} → some x ≡ some y → x ≡ y
      some_inj q = cc

  indegrees_none :
      (known : Dict (TaskContract F)) (c : String) → contains c (indegrees known) ≡ contains c known
  unfolding lookup
  indegrees_none [] c = refl
  indegrees_none ((k, t) ∷ ds) c = elim (Bool-cases (c =ˢ k)) [
    | inl y ↦ rw y refl
    | inr n ↦ rw n (indegrees_none ds c)
  ]

  indegrees-IsDict : (known : Dict (TaskContract F)) → IsDict known → IsDict (indegrees known)
  indegrees-IsDict [] h = tt
  indegrees-IsDict ((k, t) ∷ ds) h = (unlisted, indegrees-IsDict ds h.1)
    where
      is_none : (o : Option ℤ) → is_some o ≡ false → o ≡ none
      is_none none e = refl
      is_none (some x) e = cc

      unlisted : lookup k (indegrees ds) ≡ none
      unlisted = is_none _ (indegrees_none ds k ∙ ap is_some h.0)

  pub dict_into-IsDict :
      (ts : List (TaskContract F)) (d : Dict (TaskContract F))
      → IsDict d
      → IsDict (dict_into id_of ts d)
  unfolding dict_into
  dict_into-IsDict [] d h = h
  dict_into-IsDict (t ∷ ts) d h =
      dict_into-IsDict ts (insert t.task_id t d) (insert-IsDict t.task_id t d h)

  pub start-Ordered :
      (known : Dict (TaskContract F)) → IsDict known → Ordered known [] (start known)
  unfolding count
  start-Ordered known h = record {
    degrees = λ c contract found.
        indegrees_found known c contract found
        ∙ ap (λ n. some (ℤ.pos n)) (omega (arith, outstanding_start contract.dependencies));
    only_known = λ c d e. sym (indegrees_none known c) ∙ ap is_some e;
    reached = λ c e.
        zeros_found c (indegrees known) (indegrees-IsDict known h)
          (omega (arith, e, count-sorted c (zeros (indegrees known))));
    released = λ c e.
        omega (arith, zeros_listed c (indegrees known) e, count-sorted c (zeros (indegrees known)));
    distinct = λ c. omega (
      arith,
      zeros_once c (indegrees known) (indegrees-IsDict known h),
      count-sorted c (zeros (indegrees known)),
    );
    precedes = Precedes.nothing;
  }
