-- ===== src/Graph/Found.antt =====
-- Of a graph without errors every task has its list of successors, and those are tasks.
use finite_agent_physics.Prelude.{
  ◌≤◌, ◌≡◌, refl, sym, ap, ◌∙◌, String, Bool, true, ◌||◌, some, List, [], ◌∷◌, ◌++◌, map, Dict,
  lookup, lookup-nil, lookup-insert, contains, insert, ◌=ˢ◌, =ˢ_refl, Result, ok, elem, elem_by,
  All, gets, count, arith, continue, Bool-cases, Option-cases, inl, inr, is_some,
}
use finite_agent_physics.Contracts.Profiles.{Floats}
use finite_agent_physics.Contracts.Tasks.{TaskContract}
use finite_agent_physics.Graph.Graphs.{by_id, dict_into, graph_errors, errors_of_task}
use finite_agent_physics.Graph.Walks.{GraphFault, for_each}
use finite_agent_physics.Graph.Order.{
  successors_of, add_successor, append_at, add_successors, empty_successors,
}
use finite_agent_physics.Graph.Successors.{same_text, id_of}
use finite_agent_physics.Graph.Validated.{faultless_tasks, append_nil, known_dependency}
use finite_agent_physics.Graph.Successors.{
  listed, total, absent_total, add_successors-Adds, empty_zero, from_added, sort_all,
}

contains-insert :
    {V : Type 0} (k j : String) (v : V) (d : Dict V)
    → contains k (insert j v d) ≡ (k =ˢ j || contains k d)
contains-insert k j v d = elim (Bool-cases (k =ˢ j)) [
  | inl e ↦ rw (lookup-insert k j v d, e) refl
  | inr e ↦ rw (lookup-insert k j v d, e) refl
]

or_some : (a b : Bool) → b ≡ true → (a || b) ≡ true
or_some a b e = ground (arith, e)

-- A run that returns, and keeps the keys.
record Builds (d : Dict (List String)) (r : Result GraphFault (Unit {0}) × Dict (List String))
    : Type 0 where
  last : Dict (List String)
  returned : r ≡ (ok tt, last)
  kept : (k : String) → contains k d ≡ true → contains k last ≡ true

then-Builds :
    (d : Dict (List String)) (r : Result GraphFault (Unit {0}) × Dict (List String))
    (f : Dict (List String) → Result GraphFault (Unit {0}) × Dict (List String)) (b : Builds d r)
    → Builds b.last (f b.last)
    → Builds d (continue r (λ _. f))
then-Builds d r f b c = record {
  last = c.last;
  returned = ap (λ q. continue q (λ _. f)) b.returned ∙ c.returned;
  kept = λ k e. c.kept k (b.kept k e);
}

add_successor-Builds :
    (t k : String) (d : Dict (List String)) → contains k d ≡ true → Builds d (add_successor t k d)
unfolding add_successor append_at
add_successor-Builds t k d there = elim (Option-cases (lookup k d)) [
  | inl u ↦ cc (there, u)
  | inr (l, e) ↦ record {
    last = insert k (l ++ t ∷ []) d;
    returned = rw e refl;
    kept = λ x h. contains-insert x k (l ++ t ∷ []) d ∙ or_some _ _ h;
  }
]

add_each-Builds :
    (t : String) (ks : List String) (d : Dict (List String))
    → ((k : String) → elem k ks ≡ true → contains k d ≡ true)
    → Builds d (for_each (add_successor t) ks d)
unfolding for_each
add_each-Builds t [] d all = record { last = d; returned = refl; kept = λ k e. e }
add_each-Builds t (k ∷ ks) d all =
    let b = add_successor-Builds t k d (all k (rw (=ˢ_refl k) refl)) in
    then-Builds d _ (for_each (add_successor t) ks) b
      (add_each-Builds t ks b.last (λ x e. b.kept x (all x (or_some _ _ e))))

module _ {F : Floats} where
  add_successors-Builds :
      (ts : List (TaskContract F)) (d : Dict (List String))
      → All (λ t. (k : String) → elem k t.dependencies ≡ true → contains k d ≡ true) ts
      → Builds d (add_successors ts d)
  unfolding add_successors
  add_successors-Builds [] d all = record { last = d; returned = refl; kept = λ k e. e }
  add_successors-Builds (t ∷ ts) d all =
      let b = add_each-Builds t.task_id t.dependencies d all.0 in
      then-Builds d _ (add_successors ts) b
        (add_successors-Builds ts b.last (kept_all ts b.last b.kept all.1))
    where
      kept_all :
          (us : List (TaskContract F)) (d' : Dict (List String))
          → ((k : String) → contains k d ≡ true → contains k d' ≡ true)
          → All (λ t. (k : String) → elem k t.dependencies ≡ true → contains k d ≡ true) us
          → All (λ t. (k : String) → elem k t.dependencies ≡ true → contains k d' ≡ true) us
      kept_all [] d' kept h = tt
      kept_all (u ∷ us) d' kept h = (λ k e. kept k (h.0 k e), kept_all us d' kept h.1)

  -- The two dictionaries have the same keys.
  same_keys :
      (ts : List (TaskContract F)) (d : Dict (TaskContract F)) (d' : Dict (List String))
      (k : String)
      → contains k d ≡ contains k d'
      → contains k (dict_into id_of ts d) ≡ contains k (empty_successors ts d')
  unfolding dict_into empty_successors
  same_keys [] d d' k e = e
  same_keys (t ∷ ts) d d' k e = same_keys ts (insert t.task_id t d) (insert t.task_id [] d') k (
      contains-insert k t.task_id t d
      ∙ (ap (λ b. k =ˢ t.task_id || b) e ∙ sym (contains-insert k t.task_id [] d')))

  listed_names :
      (ts : List (TaskContract F)) (d : Dict (TaskContract F)) (k : String)
      → contains k (dict_into id_of ts d) ≡ (elem_by same_text k (map id_of ts) || contains k d)
  unfolding dict_into
  listed_names [] d k = refl
  listed_names (t ∷ ts) d k =
      listed_names ts (insert t.task_id t d) k
      ∙ (ap (λ b. elem_by same_text k (map id_of ts) || b) (contains-insert k t.task_id t d)
          ∙ swapped (elem_by same_text k (map id_of ts)) (k =ˢ t.task_id) (contains k d))
    where
      swapped : (a b c : Bool) → (a || (b || c)) ≡ ((b || a) || c)
      swapped a b c = ground arith

sort_all_keys : (d : Dict (List String)) (k : String) → contains k (sort_all d) ≡ contains k d
unfolding lookup
sort_all_keys [] k = refl
sort_all_keys ((j, l) ∷ d) k = elim (Bool-cases (k =ˢ j)) [
  | inl e ↦ rw e refl
  | inr e ↦ rw e (sort_all_keys d k)
]

pub elem_counted : (c : String) (xs : List String) → elem c xs ≡ true → 1 ≤ count c xs
unfolding count
elem_counted c [] e = cc
elem_counted c (x ∷ xs) e = ground (arith, elem_counted c xs, e)

module _ {F : Floats} (tasks : List (TaskContract F)) where
  pub record Listed : Type 0 where
    pub succ : Dict (List String)
    pub made : successors_of tasks ≡ ok succ
    pub has : (k : String) → contains k (by_id tasks) ≡ true → contains k succ ≡ true
    pub within :
        (t c : String) (cs : List String)
        → lookup t succ ≡ some cs
        → elem c cs ≡ true
        → contains c (by_id tasks) ≡ true

  keys_lem : (k : String) → contains k (by_id tasks) ≡ contains k (empty_successors tasks [])
  unfolding by_id
  keys_lem k = same_keys tasks [] [] k (ap is_some (lookup-nil k) ∙ sym (ap is_some (lookup-nil k)))

  closed_tasks :
      (ts : List (TaskContract F))
      → All (λ t. errors_of_task (by_id tasks) t ≡ []) ts
      → All
          (λ t.
            (k : String)
            → elem k t.dependencies ≡ true
            → contains k (empty_successors tasks []) ≡ true)
          ts
  unfolding errors_of_task
  closed_tasks [] h = tt
  closed_tasks (t ∷ ts) h =
      let (rest, ports) = append_nil _ _ h.0 in
      let (contracts, dependencies) = append_nil _ _ rest in
      (
        λ k e. sym (keys_lem k) ∙ known_dependency (by_id tasks) t t.dependencies dependencies k e,
        closed_tasks ts h.1,
      )

  total_known : (p c : String) → 1 ≤ total tasks p c → contains c (by_id tasks) ≡ true
  unfolding by_id
  total_known p c h = elim (Bool-cases (elem_by same_text c (map id_of tasks))) [
    | inl e ↦ listed_names tasks [] c ∙ rw e refl
    | inr e ↦ absurd (omega (arith, h, absent_total tasks p c e))
  ]

  pub graph-Listed : graph_errors tasks ≡ [] → Listed
  unfolding successors_of listed
  graph-Listed e =
      let b =
        add_successors-Builds tasks (empty_successors tasks [])
          (closed_tasks tasks (faultless_tasks tasks e)) in
      let done : successors_of tasks ≡ ok (sort_all b.last) =
        ap (λ r. (continue r (λ _. gets {E = GraphFault} sort_all)).0) b.returned in
      record {
        succ = sort_all b.last;
        made = done;
        has = λ k h. sort_all_keys b.last k ∙ b.kept k (sym (keys_lem k) ∙ h);
        within = λ t c cs here i.
            let counted =
              from_added (total tasks) _ (sort_all b.last) _
                (add_successors-Adds tasks (empty_successors tasks [])) done t c in
            let none_yet = empty_zero tasks [] (λ q x. ap (listed x) (lookup-nil q)) t c in
            total_known t c
              (omega (arith, counted, none_yet, ap (listed c) here, elem_counted c cs i));
      }
