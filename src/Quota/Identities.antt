-- ===== src/Quota/Identities.antt =====
-- `_attempt_identity` and `_lease_identity`, over a parameter for SHA-256, and what texts they hash.
use Prim.Native.String.{String}
use text.Mathlib.TextEquality.{Char-path}
use finite_agent_physics.Prelude.{
  ℕ, zero, suc, ◌≡◌, ◌≢◌, refl, sym, List, [], ◌∷◌, ◌++◌, codes, All,
}
use finite_agent_physics.Prelude.Decimals.{decimal, decimal_inj, decimal-All}

-- `hashlib.sha256(text.encode()).hexdigest()`; the text is a list of code points.
pub record Sha256 : Type 0 where
  pub hexdigest : List ℕ → String

-- `s[:n]`
abbrev pub prefix : ℕ → String → String
prefix zero s = String.[]
prefix (suc n) String.[] = String.[]
prefix (suc n) (String.◌∷◌ c s) = String.◌∷◌ c (prefix n s)

-- `hashlib.sha256(material).hexdigest()[:24]`
abbrev pub identity_of : Sha256 → List ℕ → String
identity_of h material = prefix 24 (h.hexdigest material)

-- `f"finite-quota-v1\0{provider_id}\0{logical_id}\0{attempt}"`
unfoldable pub attempt_material : String → String → ℕ → List ℕ
unfolding decimal
attempt_material provider_id logical_id attempt =
    codes "finite-quota-v1"
    ++ (0 ∷ (codes provider_id ++ (0 ∷ (codes logical_id ++ (0 ∷ decimal attempt)))))

-- `f"finite-lease-v1\0{attempt_id}"`
unfoldable pub lease_material : String → List ℕ
lease_material attempt_id = codes "finite-lease-v1" ++ (0 ∷ codes attempt_id)

abbrev pub attempt_identity : Sha256 → String → String → ℕ → String
attempt_identity h provider_id logical_id attempt =
    identity_of h (attempt_material provider_id logical_id attempt)

abbrev pub lease_identity : Sha256 → String → String
lease_identity h attempt_id = identity_of h (lease_material attempt_id)

codes_inj : (s t : String) → codes s ≡ codes t → s ≡ t
codes_inj String.[] String.[] e = refl
codes_inj String.[] (String.◌∷◌ d t) e = cc
codes_inj (String.◌∷◌ c s) String.[] e = cc
codes_inj (String.◌∷◌ c s) (String.◌∷◌ d t) e = cc (Char-path c d (cc (e)), codes_inj s t (cc (e)))

append_cancel : (xs ys zs : List ℕ) → xs ++ ys ≡ xs ++ zs → ys ≡ zs
append_cancel [] ys zs e = e
append_cancel (x ∷ xs) ys zs e = append_cancel xs ys zs (cc (e))

-- A list without zero, after the last zero, is read back.
without_zero : (ys es ds : List ℕ) → All (λ d. d ≢ 0) ds → ds ≢ ys ++ (0 ∷ es)
without_zero [] es [] h e = cc
without_zero [] es (d ∷ ds) h e = absurd (h.0 (cc (e)))
without_zero (y ∷ ys) es [] h e = cc
without_zero (y ∷ ys) es (d ∷ ds) h e = without_zero ys es ds h.1 (cc (e))

last_part :
    (xs ys ds es : List ℕ)
    → All (λ d. d ≢ 0) ds
    → All (λ d. d ≢ 0) es
    → xs ++ (0 ∷ ds) ≡ ys ++ (0 ∷ es)
    → (xs ≡ ys) × (ds ≡ es)
last_part [] [] ds es h k e = (refl, cc (e))
last_part [] (y ∷ ys) ds es h k e = absurd (without_zero ys es ds h (cc (e)))
last_part (x ∷ xs) [] ds es h k e = absurd (without_zero xs ds es k (sym (cc (e))))
last_part (x ∷ xs) (y ∷ ys) ds es h k e =
    let (rest, number) = last_part xs ys ds es h k (cc (e)) in (cc (e, rest), number)

-- The texts that are hashed for the attempts of a provider differ where the attempts do.
pub attempt_material_inj :
    (p l l' : String) (n n' : ℕ)
    → attempt_material p l n ≡ attempt_material p l' n'
    → (l ≡ l') × (n ≡ n')
unfolding attempt_material
attempt_material_inj p l l' n n' e =
    let after_name : (0 ∷ (codes l ++ (0 ∷ decimal n))) ≡ 0 ∷ (codes l' ++ (0 ∷ decimal n')) =
      append_cancel (codes p) _ _ (cc (append_cancel (codes "finite-quota-v1") _ _ e)) in
    let (same, number) =
      last_part (codes l) (codes l') (decimal n) (decimal n') (decimal-All n) (decimal-All n')
        (cc (after_name)) in
    (codes_inj l l' same, decimal_inj n n' number)

pub lease_material_inj : (a a' : String) → lease_material a ≡ lease_material a' → a ≡ a'
unfolding lease_material
lease_material_inj a a' e = codes_inj a a' (cc (append_cancel (codes "finite-lease-v1") _ _ e))
