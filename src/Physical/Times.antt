-- ===== src/Physical/Times.antt =====
-- The time of a transfer: the least number of milliseconds in which the bandwidth carries it.
use finite_agent_physics.Prelude.{
  ℕ, zero, suc, ◌+◌, ◌*◌, ◌/◌, ◌%◌, ◌≤◌, ◌<◌, ◌≡◌, ◌≢◌, refl, sym, subst, Bool, false, Option, none,
  some, String, leb, ◌==◌, arith, Bool-cases, inl, inr, if◌then◌else◌,
}
use native.Mathlib.Nat.{mod-lt, add-mul, div-add-mod', mul-le-mul_right}
use finite_agent_physics.Physical.Arithmetic.{int64_max, safe_multiply}
use finite_agent_physics.Physical.Amounts.{Amounts, Caps}
use finite_agent_physics.Physical.Analysis.{transfer, bytes_time, bits_time}
use finite_agent_physics.Physical.Sums.{bounded_cases, safe_add_lem, safe_multiply_lem}

-- The time of so many bytes at a bandwidth in bits a second, where it has one.
pub data TimeEnd (bandwidth bytes : ℕ) : Option ℕ → Type 0 where
  least :
      (t : ℕ)
      → bytes * 8000 ≤ t * bandwidth
      → ((m : ℕ) → bytes * 8000 ≤ m * bandwidth → t ≤ m)
      → TimeEnd bandwidth bytes (some t)
  never : bandwidth ≡ 0 → bytes ≢ 0 → TimeEnd bandwidth bytes none
  too_many : int64_max < bytes * 8000 → TimeEnd bandwidth bytes none

abbrev rounded_up : ℕ → ℕ → ℕ
rounded_up bits bandwidth = bits / bandwidth + (if bits % bandwidth == 0 then 0 else 1)

rounded_up-enough : (bits w : ℕ) → bits ≤ rounded_up bits (suc w) * suc w
rounded_up-enough bits w = elim (Bool-cases (bits % suc w == 0)) [
  | inl e ↦ rw e (ground (arith, e, div-add-mod' bits (suc w)))
  | inr e ↦ rw e (
      omega (
        arith,
        div-add-mod' bits (suc w),
        mod-lt bits {m = suc w} (omega arith),
        add-mul (bits / suc w) 1 (suc w),
      ))
]

rounded_up-least : (bits w m : ℕ) → bits ≤ m * suc w → rounded_up bits (suc w) ≤ m
rounded_up-least bits w m h = elim (Bool-cases (bits % suc w == 0)) [
  | inl e ↦ rw e (elim (Bool-cases (leb (suc m) (bits / suc w))) [
    | inr few ↦ ground (arith, few)
    | inl more ↦ absurd (
        ground (
          arith,
          e,
          h,
          div-add-mod' bits (suc w),
          add-mul m 1 (suc w),
          mul-le-mul_right {m = m + 1} {n = bits / suc w} (suc w) (ground (arith, more)),
        ))
  ])
  | inr e ↦ rw e (elim (Bool-cases (leb m (bits / suc w))) [
    | inr more ↦ ground (arith, more)
    | inl few ↦ absurd (
        ground (
          arith,
          e,
          h,
          div-add-mod' bits (suc w),
          mul-le-mul_right {m = m} {n = bits / suc w} (suc w) (ground (arith, few)),
        ))
  ])
]

bits_time-TimeEnd :
    (w bytes : ℕ) → TimeEnd (suc w) bytes (bits_time (suc w) (safe_multiply bytes 8000)).0
unfolding bits_time
bits_time-TimeEnd w bytes = rw (safe_multiply_lem bytes 8000) (elim (bounded_cases (bytes * 8000)) [
  | inl fits ↦ rw fits (
      TimeEnd.least (rounded_up (bytes * 8000) (suc w)) (rounded_up-enough (bytes * 8000) w)
        (λ m h. rounded_up-least (bytes * 8000) w m h))
  | inr (over, more) ↦ rw over (TimeEnd.too_many more)
])

neither :
    {A : Type 0} (c d : Bool) (x y z : A)
    → c ≡ false
    → d ≡ false
    → (if c then x else if d then y else z) ≡ z
neither c d x y z p q = rw (p, q) refl

positive : (n : ℕ) → (suc n == 0) ≡ false
positive n = ground arith

-- The time that `analyze` gives to the transfers of a task is the least number of milliseconds in
-- which the bandwidth carries its bytes. It is `None` only where there are bytes and no bandwidth, or
-- where 8000 times the bytes is above 2 ^ 63 - 1.
pub transfer-TimeEnd :
    (caps : Caps) (a : Amounts)
    → TimeEnd caps.available_bandwidth_bps
        (a.network_ingress_bytes + a.network_egress_bytes)
        (transfer caps a).0
unfolding transfer bytes_time
transfer-TimeEnd caps a =
    rw (safe_add_lem a.network_ingress_bytes a.network_egress_bytes)
      (elim (bounded_cases (a.network_ingress_bytes + a.network_egress_bytes)) [
        | inr (over, more) ↦ rw over (TimeEnd.too_many (omega (arith, more)))
        | inl fits ↦ rw fits (
            carried caps.available_bandwidth_bps (a.network_ingress_bytes + a.network_egress_bytes))
      ])
  where
    carried : (w bytes : ℕ) → TimeEnd w bytes (bytes_time w (some bytes)).0
    carried w zero = TimeEnd.least 0 (omega arith) (λ m h. omega arith)
    carried zero (suc b) = rw (positive b) (TimeEnd.never refl suc_ne)
      where
        suc_ne : suc b ≢ 0
        suc_ne e = omega (arith, e)
    carried (suc w) (suc b) =
        subst (λ (r : Option ℕ × Option String). TimeEnd (suc w) (suc b) r.0)
          (sym (neither (suc b == 0) (suc w == 0) _ _ _ (positive b) (positive w)))
          (bits_time-TimeEnd w (suc b))
