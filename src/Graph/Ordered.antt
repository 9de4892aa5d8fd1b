-- ===== src/Graph/Ordered.antt =====
-- The ordering loop ends.
use finite_agent_physics.Prelude.{
  length-sorted, ℕ, zero, suc, ◌+◌, ◌≤◌, ◌<◌, ◌≡◌, refl, sym, ap, subst, ℤ, int_pred, is_zero,
  String, some, List, [], ◌∷◌, ◌++◌, Dict, lookup, insert, ◌==◌, Result, ok, err, length,
  length-append, arith, continue, Bool-cases, Option-cases, inl, inr, gets,
}
use finite_agent_physics.Contracts.Profiles.{Floats}
use finite_agent_physics.Contracts.Tasks.{TaskContract}
use finite_agent_physics.Graph.Graphs.{by_id}
use finite_agent_physics.Graph.Walks.{GraphFault, for_each}
use finite_agent_physics.Graph.Order.{
  append_at, add_successor, Progress, Ordering, count_down, release_child, children, order_next,
  order_all, zeros, indegrees, start, complete_order, ordered, successors_of, topological_order,
  order_with, add_successors, empty_successors,
}
use finite_agent_physics.Graph.Waiting.{
  weight, waiting, waiting-insert, released, weight_falls, zeros_bounded,
}

abbrev pub potential : Progress → ℕ
potential p = length p.ready + waiting p.indegree

-- A step ends with no more to do than before, or with a missing key.
pub data Spends (b : ℕ) : Result GraphFault (Unit {0}) × Progress → Type 0 where
  went : (p : Progress) → potential p ≤ b → Spends b (ok tt, p)
  failed : (p : Progress) → Spends b (err GraphFault.key_error, p)

count_down_lem :
    (c : String) (d : ℤ) (p : Progress)
    → lookup c p.indegree ≡ some d
    → Spends (potential p) (count_down c (some d) p)
unfolding count_down released
count_down_lem c d p found = elim (Bool-cases (is_zero (int_pred d))) [
  | inl z ↦ rw z (
      went _ (
        omega (
          arith,
          total,
          rw z at (weight_falls d),
          length-sorted (p.ready ++ c ∷ []),
          length-append p.ready (c ∷ []),
        )))
  | inr z ↦ rw z (went _ (omega (arith, total, rw z at (weight_falls d))))
]
  where
    total :
        waiting (insert c (int_pred d) p.indegree) + weight d
        ≡ waiting p.indegree + weight (int_pred d)
    total = waiting-insert c d (int_pred d) p.indegree found

release_child-Spends : (c : String) (p : Progress) → Spends (potential p) (release_child c p)
unfolding release_child children
release_child-Spends c p = elim (Option-cases (lookup c p.indegree)) [
  | inl e ↦ rw e (failed p)
  | inr (d, e) ↦ rw e (count_down_lem c d p e)
]

then-Spends :
    (b : ℕ) (r : Result GraphFault (Unit {0}) × Progress)
    (f : Progress → Result GraphFault (Unit {0}) × Progress)
    → Spends b r
    → ((p : Progress) → potential p ≤ b → Spends b (f p))
    → Spends b (continue r (λ _. f))
then-Spends b _ f (went p h) next = next p h
then-Spends b _ f (failed p) next = failed p

weaker-Spends :
    (b b' : ℕ) (r : Result GraphFault (Unit {0}) × Progress) → b ≤ b' → Spends b r → Spends b' r
weaker-Spends b b' _ le (went p h) = went p (omega (arith, le, h))
weaker-Spends b b' _ le (failed p) = failed p

pub release_all-Spends :
    (b : ℕ) (cs : List String) (p : Progress)
    → potential p ≤ b
    → Spends b (for_each release_child cs p)
unfolding for_each
release_all-Spends b [] p h = went p h
release_all-Spends b (c ∷ cs) p h =
    then-Spends b _ (for_each release_child cs) (weaker-Spends _ b _ h (release_child-Spends c p))
      (λ p' h'. release_all-Spends b cs p' h')

order_next-Spends :
    (succ : Dict (List String)) (next : Ordering) (l : List String) (p : Progress)
    → p.ready ≡ l
    → ((p' : Progress) → potential p' < potential p → Spends (potential p') (next p'))
    → Spends (potential p) (order_next succ next l p)
unfolding order_next
order_next-Spends succ next [] p e rest = went p (omega arith)
order_next-Spends succ next (t ∷ ts) p e rest = elim (Option-cases (lookup t succ)) [
  | inl none_there ↦ rw none_there (failed after)
  | inr (cs, there) ↦ rw there (
      weaker-Spends (potential after) (potential p) _ (omega (arith, fewer)) (
        then-Spends (potential after) (for_each release_child cs after) next
          (release_all-Spends (potential after) cs after (omega arith))
          (λ p' h. weaker-Spends _ (potential after) _ h (rest p' (omega (arith, h, fewer))))))
]
  where
    after : Progress
    after = record p { ready = ts; order = p.order ++ t ∷ [] }

    fewer : suc (potential after) ≡ potential p
    fewer = omega (arith, ap length e)

order_all-Spends :
    (n : ℕ) (succ : Dict (List String)) (p : Progress)
    → potential p < n
    → Spends (potential p) (order_all n succ p)
unfolding order_all
order_all-Spends zero succ p h = absurd (omega (arith, h))
order_all-Spends (suc n) succ p h =
    order_next-Spends succ (order_all n succ) p.ready p refl
      (λ p' h'. order_all-Spends n succ p' (omega (arith, h, h')))

-- The three ends of an ordering of so many tasks.
pub data OrderEnd (n : ℕ) : Result GraphFault (List String) → Type 0 where
  complete : (order : List String) → length order ≡ n → OrderEnd n (ok order)
  missing : OrderEnd n (err GraphFault.key_error)
  partial : OrderEnd n (err GraphFault.unordered)

complete_order-OrderEnd :
    (n b : ℕ) (r : Result GraphFault (Unit {0}) × Progress)
    → Spends b r
    → OrderEnd n (continue r (complete_order n)).0
unfolding complete_order
complete_order-OrderEnd n b _ (went p h) = elim (Bool-cases (length p.order == n)) [
  | inl e ↦ rw e (complete p.order (ground (arith, e)))
  | inr e ↦ rw e partial
]
complete_order-OrderEnd n b _ (failed p) = missing

-- The successors are built, or a task is missing.
data Builds : Result GraphFault (Unit {0}) × Dict (List String) → Type 0 where
  built : (d : Dict (List String)) → Builds (ok tt, d)
  lacking : (d : Dict (List String)) → Builds (err GraphFault.key_error, d)

after-Builds :
    (r : Result GraphFault (Unit {0}) × Dict (List String))
    (f : Dict (List String) → Result GraphFault (Unit {0}) × Dict (List String))
    → Builds r
    → ((d : Dict (List String)) → Builds (f d))
    → Builds (continue r (λ _. f))
after-Builds _ f (built d) next = next d
after-Builds _ f (lacking d) next = lacking d

add_successor-Builds : (t k : String) (d : Dict (List String)) → Builds (add_successor t k d)
unfolding add_successor append_at
add_successor-Builds t k d = elim (Option-cases (lookup k d)) [
  | inl e ↦ rw e (lacking d)
  | inr (l, e) ↦ rw e (built _)
]

add_each-Builds :
    (t : String) (ks : List String) (d : Dict (List String))
    → Builds (for_each (add_successor t) ks d)
unfolding for_each
add_each-Builds t [] d = built d
add_each-Builds t (k ∷ ks) d =
    after-Builds _ (for_each (add_successor t) ks) (add_successor-Builds t k d)
      (add_each-Builds t ks)

module _ {F : Floats} where
  length-indegrees : (known : Dict (TaskContract F)) → length (indegrees known) ≡ length known
  length-indegrees [] = refl
  length-indegrees (x ∷ xs) = ap suc (length-indegrees xs)

  pub potential-start :
      (known : Dict (TaskContract F)) → potential (start known) < suc (length known)
  potential-start known = omega (
    arith,
    zeros_bounded (indegrees known),
    length-sorted (zeros (indegrees known)),
    length-indegrees known,
  )

  ordered-OrderEnd :
      (known : Dict (TaskContract F)) (succ : Dict (List String))
      → OrderEnd (length known) (ordered known succ)
  unfolding ordered
  ordered-OrderEnd known succ =
      complete_order-OrderEnd (length known) _ _
        (order_all-Spends (suc (length known)) succ (start known) (potential-start known))

  add_successors-Builds :
      (tasks : List (TaskContract F)) (d : Dict (List String)) → Builds (add_successors tasks d)
  unfolding add_successors
  add_successors-Builds [] d = built d
  add_successors-Builds (t ∷ ts) d =
      after-Builds _ (add_successors ts) (add_each-Builds t.task_id t.dependencies d)
        (add_successors-Builds ts)

  pub successors_missing :
      (tasks : List (TaskContract F)) (e : GraphFault)
      → successors_of tasks ≡ err e
      → e ≡ GraphFault.key_error
  unfolding successors_of
  successors_missing tasks e h =
      from_built _ _ (add_successors-Builds tasks (empty_successors tasks [])) h
    where
      from_built :
          (g : Dict (List String) → Dict (List String))
          (r : Result GraphFault (Unit {0}) × Dict (List String))
          → Builds r
          → (continue r (λ _. gets g)).0 ≡ err e
          → e ≡ GraphFault.key_error
      from_built g _ (built d) p = cc
      from_built g _ (lacking d) p = cc

  -- For every list of tasks, valid or not, `topological_order` ends: with an order as long as the
  -- number of the tasks by their names, with the exception for an order that leaves tasks out, or
  -- with a KeyError. One more step of the loop than there are names is enough.
  pub topological_order-OrderEnd :
      (tasks : List (TaskContract F)) → OrderEnd (length (by_id tasks)) (topological_order tasks)
  unfolding topological_order order_with
  topological_order-OrderEnd tasks =
      from (successors_of tasks) (λ e p. successors_missing tasks e p)
    where
      from :
          (r : Result GraphFault (Dict (List String)))
          → ((e : GraphFault) → r ≡ err e → e ≡ GraphFault.key_error)
          → OrderEnd (length (by_id tasks)) (order_with (by_id tasks) r)
      from (ok succ) h = ordered-OrderEnd (by_id tasks) succ
      from (err e) h = subst (λ x. OrderEnd (length (by_id tasks)) (err x)) (sym (h e refl)) missing
