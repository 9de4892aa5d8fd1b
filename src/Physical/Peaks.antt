-- ===== src/Physical/Peaks.antt =====
-- The first numbers of a list that is sorted downwards sum to the most that as many of its entries
-- can.
use finite_agent_physics.Prelude.{
  String, ℕ, zero, suc, ◌+◌, ◌≤◌, min, ◌≡◌, refl, sym, ap, ◌∙◌, List, [], ◌∷◌, map, length, leb,
  arith, Bool-cases, inl, inr, ◌⊎◌,
}
use finite_agent_physics.Physical.Amounts.{Amounts, Caps}
use finite_agent_physics.Physical.Inputs.{Selection}
use finite_agent_physics.Physical.Sums.{bounded, total, safe_sum_lem}
use finite_agent_physics.Physical.Analysis.{insert_down, sorted_down, take, Dimension, peak_total}

-- Some entries of a list, in its order.
pub data Part {ℓ} {A : Type ℓ} : List A → List A → Type ℓ where
  done : Part [] []
  skip : (x : A) (ys xs : List A) → Part ys xs → Part ys (x ∷ xs)
  keep : (x : A) (ys xs : List A) → Part ys xs → Part (x ∷ ys) (x ∷ xs)

-- The sum of the first `k`.
abbrev pub top : ℕ → List ℕ → ℕ
top k xs = total (take k xs)

abbrev AtMost : ℕ → List ℕ → Type 0
AtMost b [] = Unit
AtMost b (y ∷ ys) = y ≤ b

abbrev Descends : List ℕ → Type 0
Descends [] = Unit
Descends (x ∷ xs) = AtMost x xs × Descends xs

insert_down-AtMost : (b x : ℕ) (ys : List ℕ) → x ≤ b → AtMost b ys → AtMost b (insert_down x ys)
unfolding insert_down
insert_down-AtMost b x [] h k = h
insert_down-AtMost b x (y ∷ ys) h k = elim (Bool-cases (leb y x)) [
  | inl e ↦ rw e h
  | inr e ↦ rw e k
]

insert_down-Descends : (x : ℕ) (ys : List ℕ) → Descends ys → Descends (insert_down x ys)
unfolding insert_down
insert_down-Descends x [] h = (tt, tt)
insert_down-Descends x (y ∷ ys) h = elim (Bool-cases (leb y x)) [
  | inl e ↦ rw e (ground (arith, e), h)
  | inr e ↦ rw e (insert_down-AtMost y x ys (ground (arith, e)) h.0, insert_down-Descends x ys h.1)
]

sorted_down-Descends : (xs : List ℕ) → Descends (sorted_down xs)
unfolding sorted_down
sorted_down-Descends [] = tt
sorted_down-Descends (x ∷ xs) = insert_down-Descends x (sorted_down xs) (sorted_down-Descends xs)

top_zero : (xs : List ℕ) → top 0 xs ≡ 0
unfolding total
top_zero xs = refl

top_later : (k y : ℕ) (ys : List ℕ) → Descends (y ∷ ys) → top k ys ≤ top k (y ∷ ys)
unfolding total
top_later zero y ys h = omega arith
top_later (suc k) y [] h = omega arith
top_later (suc k) y (z ∷ zs) h = omega (arith, top_later k z zs h.1, h.0)

top_insert : (k x : ℕ) (ys : List ℕ) → Descends ys → top k ys ≤ top k (insert_down x ys)
unfolding total insert_down
top_insert zero x ys h = omega arith
top_insert (suc k) x [] h = omega arith
top_insert (suc k) x (y ∷ ys) h = elim (Bool-cases (leb y x)) [
  | inl e ↦ rw e (ground (arith, e, top_later k y ys h))
  | inr e ↦ rw e (omega (arith, top_insert k x ys h.1))
]

-- What the first ones of the list with one more number sum to.
top_either :
    (k x : ℕ) (ys : List ℕ)
    → (top (suc k) (insert_down x ys) ≡ top (suc k) ys)
      ⊎ (top (suc k) (insert_down x ys) ≡ x + top k ys)
unfolding total insert_down
top_either k x [] = inr (omega arith)
top_either zero x (y ∷ ys) = elim (Bool-cases (leb y x)) [
  | inl e ↦ inr (rw e refl)
  | inr e ↦ inl (rw e refl)
]
top_either (suc j) x (y ∷ ys) = elim (Bool-cases (leb y x)) [
  | inl e ↦ inr (rw e refl)
  | inr e ↦
      rw e (elim (top_either j x ys) [
        | inl q ↦ inl (omega (arith, q))
        | inr q ↦ inr (omega (arith, q))
      ])
]

top_with : (k x : ℕ) (ys : List ℕ) → x + top k ys ≤ top (suc k) (insert_down x ys)
unfolding total insert_down
top_with k x [] = ground arith
top_with zero x (y ∷ ys) = elim (Bool-cases (leb y x)) [
  | inl e ↦ rw e (omega arith)
  | inr e ↦ rw e (ground (arith, e))
]
top_with (suc j) x (y ∷ ys) = elim (Bool-cases (leb y x)) [
  | inl e ↦ rw e (omega arith)
  | inr e ↦ rw e (omega (arith, top_with j x ys))
]

module _ {A : Type 0} (f : A → ℕ) where
  -- No choice of at most `k` entries sums to more than the first `k` of the sorted list.
  Part-within :
      (k : ℕ) (ys xs : List A)
      → Part ys xs
      → length ys ≤ k
      → total (map f ys) ≤ top k (sorted_down (map f xs))
  unfolding total sorted_down
  Part-within k _ _ done h = omega arith
  Part-within k _ _ (skip x ys xs p) h = omega (
    arith,
    Part-within k ys xs p h,
    top_insert k (f x) (sorted_down (map f xs)) (sorted_down-Descends (map f xs)),
  )
  Part-within zero _ _ (keep x ys xs p) h = absurd (omega (arith, h))
  Part-within (suc k) _ _ (keep x ys xs p) h =
      omega
        (arith, Part-within k ys xs p (omega (arith, h)), top_with k (f x) (sorted_down (map f xs)))

  -- Some choice of at most `k` entries, with its sum.
  pub record Choice (k n : ℕ) (xs : List A) : Type 0 where
    pub part : List A
    pub chosen : Part part xs
    pub few : length part ≤ k
    pub sum : total (map f part) ≡ n

  none_of : (xs : List A) → Part [] xs
  none_of [] = done
  none_of (x ∷ xs) = skip x [] xs (none_of xs)

  attained : (k : ℕ) (xs : List A) → Choice k (top k (sorted_down (map f xs))) xs
  unfolding total sorted_down
  attained zero xs = record { part = []; chosen = none_of xs; few = omega arith; sum = refl }
  attained (suc k) [] = record { part = []; chosen = done; few = omega arith; sum = refl }
  attained (suc k) (x ∷ xs) = elim (top_either k (f x) (sorted_down (map f xs))) [
    | inl q ↦
        let c = attained (suc k) xs in
        record {
          part = c.part;
          chosen = skip x c.part xs c.chosen;
          few = c.few;
          sum = c.sum ∙ sym q;
        }
    | inr q ↦
        let c = attained k xs in
        record {
          part = x ∷ c.part;
          chosen = keep x c.part xs c.chosen;
          few = omega (arith, c.few);
          sum = ap (λ n. f x + n) c.sum ∙ sym q;
        }
  ]

take-min : (k : ℕ) (ys : List ℕ) → take (min k (length ys)) ys ≡ take k ys
take-min zero ys = ap (λ k. take k ys) (zero_min (length ys))
  where
    zero_min : (n : ℕ) → min 0 n ≡ 0
    zero_min n = omega arith
take-min (suc k) [] = ap (λ k. take k []) (min_zero (suc k))
  where
    min_zero : (n : ℕ) → min n 0 ≡ 0
    min_zero n = omega arith
take-min (suc k) (y ∷ ys) =
    ap (λ k. take k (y ∷ ys)) (min_suc (length ys)) ∙ ap (λ zs. y ∷ zs) (take-min k ys)
  where
    min_suc : (n : ℕ) → min (suc k) (suc n) ≡ suc (min k n)
    min_suc n = omega arith

length-insert_down : (x : ℕ) (ys : List ℕ) → length (insert_down x ys) ≡ suc (length ys)
unfolding insert_down
length-insert_down x [] = refl
length-insert_down x (y ∷ ys) = elim (Bool-cases (leb y x)) [
  | inl e ↦ rw e refl
  | inr e ↦ rw e (ap suc (length-insert_down x ys))
]

length-sorted_down :
    {A : Type 0} (f : A → ℕ) (xs : List A) → length (sorted_down (map f xs)) ≡ length xs
unfolding sorted_down
length-sorted_down f [] = refl
length-sorted_down f (x ∷ xs) =
    length-insert_down (f x) (sorted_down (map f xs)) ∙ ap suc (length-sorted_down f xs)

-- The greatest sum of any at most `k` entries.
pub record IsPeak {A : Type 0} (f : A → ℕ) (k : ℕ) (xs : List A) (n : ℕ) : Type 0 where
  pub bounds : (ys : List A) → Part ys xs → length ys ≤ k → total (map f ys) ≤ n
  pub attained_by : Choice f k n xs

-- `peak_total` returns the greatest sum that any `max_parallelism` or fewer of the selected tasks
-- have, and nothing exactly where that sum is above 2 ^ 63 - 1.
pub peak_total-IsPeak :
    (caps : Caps) (selection : Selection) (d : Dimension)
    → (n : ℕ) × (peak_total caps selection d ≡ bounded n)
      × IsPeak (λ e. d.profile_field e.1) caps.max_parallelism selection n
unfolding peak_total
peak_total-IsPeak caps selection d =
    let field = λ (e : String × Amounts). d.profile_field e.1 in
    let down = sorted_down (map field selection) in
    let first : take (min caps.max_parallelism (length selection)) down
        ≡ take caps.max_parallelism down =
      ap (λ n. take (min caps.max_parallelism n) down) (sym (length-sorted_down field selection))
      ∙ take-min caps.max_parallelism down in
    (
      top caps.max_parallelism down,
      safe_sum_lem _ ∙ ap (λ vs. bounded (total vs)) first,
      record {
        bounds = λ ys p h. Part-within field caps.max_parallelism ys selection p h;
        attained_by = attained field caps.max_parallelism selection;
      },
    )
