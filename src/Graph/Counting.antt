-- ===== src/Graph/Counting.antt =====
-- Counting down one successor keeps the invariant of the ordering loop.
use finite_agent_physics.Prelude.{
  leb, ℕ, zero, suc, ◌+◌, ◌≤◌, ◌≡◌, ◌≢◌, refl, sym, ap, ◌∙◌, ℤ, is_zero, String, true, some, List,
  [], ◌∷◌, ◌++◌, Dict, lookup, lookup-insert, contains, insert, ◌=ˢ◌, =ˢ_refl, =ˢ_ne, if◌then◌else◌,
  String-cases, sorted, count, count-append, count-sorted, arith, Bool-cases, inl, inr,
}
use finite_agent_physics.Contracts.Profiles.{Floats}
use finite_agent_physics.Contracts.Tasks.{TaskContract}
use finite_agent_physics.Graph.Order.{Progress}
use finite_agent_physics.Graph.Sound.{outstanding, Ordered, some_pos}

module _ {F : Floats} (known : Dict (TaskContract F)) where
  abbrev pub counted_down : String → ℕ → Progress → Progress
  counted_down c m p = record p {
    indegree = insert c (ℤ.pos m) p.indegree;
    ready = if is_zero (ℤ.pos m) then sorted (p.ready ++ c ∷ []) else p.ready;
  }

  -- A successor that waits is neither ready nor ordered.
  waiting_uncounted :
      (c : String) (m : ℕ) (p : Progress) (rest : List String)
      → Ordered known rest p
      → lookup c p.indegree ≡ some (ℤ.pos (suc m))
      → count c p.ready + count c p.order ≡ 0
  waiting_uncounted c m p rest o now =
      elim (Bool-cases (leb 1 (count c p.ready + count c p.order))) [
        | inl e ↦ absurd (omega (arith, some_pos known (sym now ∙ o.reached c (ground (arith, e)))))
        | inr e ↦ ground (arith, e)
      ]

  ready_after :
      (c x : String) (m : ℕ) (p : Progress)
      → count x (counted_down c m p).ready
        ≡ count x p.ready + (if is_zero (ℤ.pos m) then count x (c ∷ []) else 0)
  ready_after c x zero p = count-sorted x (p.ready ++ c ∷ []) ∙ count-append x p.ready (c ∷ [])
  ready_after c x (suc m) p = omega arith

  module _ (c : String) (m : ℕ) (p : Progress) (rest : List String) (o : Ordered known (c ∷ rest) p)
      (now : lookup c p.indegree ≡ some (ℤ.pos (suc m))) where
    child_at : (x : String) → x ≡ c → lookup x (insert c (ℤ.pos m) p.indegree) ≡ some (ℤ.pos m)
    child_at x q = lookup-insert x c (ℤ.pos m) p.indegree ∙ rw (q, =ˢ_refl c) refl

    other_at : (x : String) → x ≢ c → lookup x (insert c (ℤ.pos m) p.indegree) ≡ lookup x p.indegree
    other_at x n = lookup-insert x c (ℤ.pos m) p.indegree ∙ rw (=ˢ_ne x c n) refl

    count_other : (x : String) (xs : List String) → x ≢ c → count x (c ∷ xs) ≡ count x xs
    unfolding count
    count_other x xs n = rw (=ˢ_ne x c n) refl

    count_self : (x : String) (xs : List String) → x ≡ c → count x (c ∷ xs) ≡ suc (count x xs)
    unfolding count
    count_self x xs q = let yes : (x =ˢ c) ≡ true = rw (q, =ˢ_refl c) refl in rw yes refl

    count_new :
        (x : String) (k : ℕ) → x ≢ c → (if is_zero (ℤ.pos k) then count x (c ∷ []) else 0) ≡ 0
    unfolding count
    count_new x zero n = count_other x [] n
    count_new x (suc k) n = refl

    count_once :
        (x : String) (k : ℕ) → x ≡ c → (if is_zero (ℤ.pos k) then count x (c ∷ []) else 0) ≤ 1
    unfolding count
    count_once x zero q = omega (arith, count_self x [] q)
    count_once x (suc k) q = omega arith

    none_counted : (x : String) → x ≡ c → count x p.ready + count x p.order ≡ 0
    none_counted x q =
        ap (λ y. count y p.ready + count y p.order) q ∙ waiting_uncounted c m p (c ∷ rest) o now

    counted-degrees :
        (x : String) (contract : TaskContract F)
        → lookup x known ≡ some contract
        → lookup x (insert c (ℤ.pos m) p.indegree)
          ≡ some (ℤ.pos (outstanding p.order contract.dependencies + count x rest))
    counted-degrees x contract found = elim (String-cases x c) [
      | inl q ↦
          let before =
            some_pos known
              (sym now ∙ (ap (λ y. lookup y p.indegree) (sym q) ∙ o.degrees x contract found)) in
          child_at x q ∙ ap (λ n. some (ℤ.pos n)) (omega (arith, before, count_self x rest q))
      | inr n ↦
          other_at x n
          ∙ (o.degrees x contract found
              ∙ ap (λ n. some (ℤ.pos n)) (omega (arith, count_other x rest n)))
    ]

    counted-reached :
        (x : String)
        → 1 ≤ count x (counted_down c m p).ready + count x p.order
        → lookup x (insert c (ℤ.pos m) p.indegree) ≡ some (ℤ.pos 0)
    counted-reached x h = elim (String-cases x c) [
      | inl q ↦ child_at x q ∙ ap (λ n. some (ℤ.pos n)) (none_left m (ready_after c x m p) q)
      | inr n ↦ other_at x n ∙ o.reached x (omega (arith, h, ready_after c x m p, count_new x m n))
    ]
      where
        none_left :
            (k : ℕ)
            → count x (counted_down c m p).ready
              ≡ count x p.ready + (if is_zero (ℤ.pos k) then count x (c ∷ []) else 0)
            → x ≡ c
            → k ≡ 0
        none_left zero e q = refl
        none_left (suc k) e q = absurd (omega (arith, h, e, none_counted x q))

    counted-released :
        (x : String)
        → lookup x (insert c (ℤ.pos m) p.indegree) ≡ some (ℤ.pos 0)
        → 1 ≤ count x (counted_down c m p).ready + count x p.order
    counted-released x e = elim (String-cases x c) [
      | inl q ↦ ready_now m (ready_after c x m p) q (some_pos known (sym (child_at x q) ∙ e))
      | inr n ↦
          omega (arith, o.released x (sym (other_at x n) ∙ e), ready_after c x m p, count_new x m n)
    ]
      where
        ready_now :
            (k : ℕ)
            → count x (counted_down c m p).ready
              ≡ count x p.ready + (if is_zero (ℤ.pos k) then count x (c ∷ []) else 0)
            → x ≡ c
            → k ≡ 0
            → 1 ≤ count x (counted_down c m p).ready + count x p.order
        ready_now zero f q z = omega (arith, f, count_self x [] q)
        ready_now (suc k) f q z = absurd (omega (arith, z))

    counted-distinct : (x : String) → count x (counted_down c m p).ready + count x p.order ≤ 1
    counted-distinct x = elim (String-cases x c) [
      | inl q ↦ omega (arith, ready_after c x m p, count_once x m q, none_counted x q)
      | inr n ↦ omega (arith, ready_after c x m p, count_new x m n, o.distinct x)
    ]

    pub counted_down-Ordered : Ordered known rest (counted_down c m p)
    counted_down-Ordered = record {
      degrees = counted-degrees;
      only_known = λ x d e. elim (String-cases x c) [
        | inl q ↦ ap (λ y. contains y known) q ∙ o.only_known c (ℤ.pos (suc m)) now
        | inr n ↦ o.only_known x d (sym (other_at x n) ∙ e)
      ];
      reached = counted-reached;
      released = counted-released;
      distinct = counted-distinct;
      precedes = o.precedes;
    }
