-- ===== src/ResourceLedger/Vector.antt =====
-- `ResourceVector` and `_sum_resources` of resource_ledger.py. The three amounts are natural
-- numbers, which is what `__post_init__` checks of the integers it is given.
use finite_agent_physics.Prelude.{
  ℕ, ◌+◌, ◌-◌, ◌≤◌, ◌≡◌, refl, sym, ◌↔◌, inl, inr, Bool-cases, ◌=ˢ◌, Bool, true, ◌&&◌, List, [],
  ◌∷◌, ◌++◌, arith, leb, ◌==◌, if◌then◌else◌, Result, ok, err, Dict, lookup, erase, values, some,
  none, insert, insert_new, String,
}
use mathlib.Core.List.{map-append}

-- The exceptions that the ledger raises.
pub data LedgerError : Type 0 where
  invalid_attempt_id negative_balance conservation_failure : LedgerError

pub record ResourceVector : Type 0 where
  pub tokens : ℕ
  pub cost_microusd : ℕ
  pub context_bytes : ℕ

abbrev pub vector_zero : ResourceVector
vector_zero = record { tokens = 0; cost_microusd = 0; context_bytes = 0 }

unfoldable pub add : ResourceVector → ResourceVector → ResourceVector
add a b = record {
  tokens = a.tokens + b.tokens;
  cost_microusd = a.cost_microusd + b.cost_microusd;
  context_bytes = a.context_bytes + b.context_bytes;
}

unfoldable pub fits_within : ResourceVector → ResourceVector → Bool
fits_within a limit =
    leb a.tokens limit.tokens
    && leb a.cost_microusd limit.cost_microusd
    && leb a.context_bytes limit.context_bytes

unfoldable pub subtract : ResourceVector → ResourceVector → Result LedgerError ResourceVector
unfolding fits_within
subtract a b =
    if fits_within b a
    then ok (record {
      tokens = a.tokens - b.tokens;
      cost_microusd = a.cost_microusd - b.cost_microusd;
      context_bytes = a.context_bytes - b.context_bytes;
    })
    else err negative_balance

-- The loop of `_sum_resources`, over its three running totals.
sum_loop : ResourceVector → List ResourceVector → ResourceVector
unfolding add
sum_loop acc [] = acc
sum_loop acc (r ∷ rs) = sum_loop (add acc r) rs

unfoldable pub sum_resources : List ResourceVector → ResourceVector
unfolding sum_loop
sum_resources = sum_loop vector_zero

-- `==` of two vectors, field by field.
unfoldable pub vector_eq : ResourceVector → ResourceVector → Bool
vector_eq a b =
    a.tokens == b.tokens && a.cost_microusd == b.cost_microusd && a.context_bytes == b.context_bytes

pub vector_eq_iff : (a b : ResourceVector) → (vector_eq a b ≡ true) ↔ (a ≡ b)
unfolding vector_eq
vector_eq_iff a b = ground arith

-- Component-wise order, as numbers.
abbrev pub Fits : ResourceVector → ResourceVector → Type 0
Fits a b =
    (a.tokens ≤ b.tokens)
    × (a.cost_microusd ≤ b.cost_microusd)
    × (a.context_bytes ≤ b.context_bytes)

pub fits_within_iff : (a b : ResourceVector) → (fits_within a b ≡ true) ↔ Fits a b
unfolding fits_within
fits_within_iff a b = ground arith

-- The capacity less what is taken, where it fits.
pub difference : ResourceVector → ResourceVector → ResourceVector
difference a b = record {
  tokens = a.tokens - b.tokens;
  cost_microusd = a.cost_microusd - b.cost_microusd;
  context_bytes = a.context_bytes - b.context_bytes;
}

pub subtract-Fits : (a b : ResourceVector) → Fits b a → subtract a b ≡ ok (difference a b)
unfolding subtract difference
subtract-Fits a b h = ground arith

pub difference-Fits :
    (c a r : ResourceVector) → Fits a c → Fits r (difference c a) → Fits (add a r) c
unfolding difference add
difference-Fits c a r h k = omega arith

pub difference_restores : (c a : ResourceVector) → Fits a c → add a (difference c a) ≡ c
unfolding difference add
difference_restores c a h = ground arith

pub add_assoc : (a b c : ResourceVector) → add (add a b) c ≡ add a (add b c)
unfolding add
add_assoc a b c = ground arith

pub add_comm : (a b : ResourceVector) → add a b ≡ add b a
unfolding add
add_comm a b = ground arith

pub add-zero : (a : ResourceVector) → add a vector_zero ≡ a
unfolding add
add-zero a = ground arith

pub zero-Fits : (a : ResourceVector) → Fits vector_zero a
zero-Fits a = omega arith

sum_loop_lem :
    (acc : ResourceVector) (rs : List ResourceVector)
    → sum_loop acc rs ≡ add acc (sum_loop vector_zero rs)
unfolding sum_loop
sum_loop_lem acc [] = sym (add-zero acc)
sum_loop_lem acc (r ∷ rs) = cc (
  sum_loop_lem (add acc r) rs,
  sum_loop_lem (add vector_zero r) rs,
  add_assoc acc r (sum_loop vector_zero rs),
  add_comm vector_zero r,
  add-zero r,
)

pub sum_resources-cons :
    (r : ResourceVector) (rs : List ResourceVector)
    → sum_resources (r ∷ rs) ≡ add r (sum_resources rs)
unfolding sum_resources
sum_resources-cons r rs =
    cc (sum_loop_lem (add vector_zero r) rs, add_comm vector_zero r, add-zero r)

pub sum_resources-nil : sum_resources [] ≡ vector_zero
unfolding sum_resources
sum_resources-nil = refl

pub sum_resources-append :
    (rs qs : List ResourceVector)
    → sum_resources (rs ++ qs) ≡ add (sum_resources rs) (sum_resources qs)
sum_resources-append [] qs =
    cc (sum_resources-nil, add_comm vector_zero (sum_resources qs), add-zero (sum_resources qs))
sum_resources-append (r ∷ rs) qs = cc (
  sum_resources-cons r rs,
  sum_resources-cons r (rs ++ qs),
  sum_resources-append rs qs,
  add_assoc r (sum_resources rs) (sum_resources qs),
)

-- What is held under a key, and what is held under the others, make up the whole.
pub sum_resources-erase :
    (k : String) (r : ResourceVector) (d : Dict ResourceVector)
    → lookup k d ≡ some r
    → add r (sum_resources (values (erase k d))) ≡ sum_resources (values d)
unfolding lookup erase
sum_resources-erase k r [] h = cc
sum_resources-erase k r ((i, w) ∷ d) h = elim (Bool-cases (k =ˢ i)) [
  | inl e ↦ rw e (ground (arith, sum_resources-cons w (values d)))
  | inr e ↦ rw e (
      cc (
        sum_resources-cons w (values d),
        sum_resources-cons w (values (erase k d)),
        sum_resources-erase k r d (rw e at h),
        add_assoc r w (sum_resources (values (erase k d))),
        add_assoc w r (sum_resources (values (erase k d))),
        add_comm r w,
      ))
]

pub sum_resources-insert_new :
    (k : String) (r : ResourceVector) (d : Dict ResourceVector)
    → lookup k d ≡ none
    → sum_resources (values (insert k r d)) ≡ add (sum_resources (values d)) r
sum_resources-insert_new k r d h =
    rw (insert_new k r d h, map-append)
      (cc (
        sum_resources-append (values d) (r ∷ []),
        sum_resources-cons r [],
        sum_resources-nil,
        add-zero r,
      ))

pub add-Fits : (s x r : ResourceVector) → Fits x r → Fits (add s x) (add s r)
unfolding add
add-Fits s x r h = omega arith

pub Fits-add : (s r : ResourceVector) → Fits s (add s r)
unfolding add
Fits-add s r = omega arith

-- Giving up a holding `r` makes room for as much spending.
pub release-Fits :
    (c s s' r rest total : ResourceVector)
    → Fits s' (add s r)
    → add r rest ≡ total
    → Fits (add s total) c
    → Fits (add s' rest) c
unfolding add
release-Fits c s s' r rest total h e f = ground arith

-- What is available moves against what is committed.
pub available_moves :
    (c k k' x y : ResourceVector)
    → Fits k c
    → Fits k' c
    → add k' x ≡ add k y
    → add (difference c k') y ≡ add (difference c k) x
unfolding add difference
available_moves c k k' x y h h' e = ground arith

pub hold_moves :
    (s total total' r : ResourceVector)
    → total' ≡ add total r
    → add (add s total') vector_zero ≡ add (add s total) r
unfolding add
hold_moves s total total' r h = ground arith

pub release_moves :
    (s x total rest r : ResourceVector)
    → add r rest ≡ total
    → add (add (add s x) rest) r ≡ add (add s total) x
unfolding add
release_moves s x total rest r h = ground arith

pub refund_moves :
    (s total rest r : ResourceVector)
    → add r rest ≡ total
    → add (add s rest) r ≡ add (add s total) vector_zero
unfolding add
refund_moves s total rest r h = ground arith
