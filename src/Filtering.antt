-- ===== src/Filtering.antt =====
-- Lists that are filtered by a test, as the DELETE and SELECT statements of hlinor_registry/runtime_limits.py
-- and hlinor_registry/scoped_store.py filter their rows.
use hlinor_agent_registry.Prelude.{
  ◌≡◌, ◌↔◌, Bool, true, false, List, [], ◌∷◌, any, keep, keep-In, In, All, Bool-cases, inl, inr,
  arith,
}

pub In-keep :
    {A : Type 0} (test : A → Bool) (a : A) (xs : List A)
    → In a xs
    → test a ≡ true
    → In a (keep test xs)
In-keep test a [] h t = absurd h
In-keep test a (x ∷ xs) h t = ground (arith, In-keep test a xs)

pub keep-In_iff :
    {A : Type 0} (test : A → Bool) (P : A → Type 0) (a : A) (xs : List A)
    → (test a ≡ true) ↔ P a
    → In a (keep test xs) ↔ (In a xs × P a)
keep-In_iff test P a xs met = (
  λ h. let (there, t) = keep-In test a xs h in (there, met.0 t),
  λ h. In-keep test a xs h.0 (met.1 h.1),
)

-- A test that no element meets.
pub any-none :
    {A : Type 0} (test : A → Bool) (xs : List A)
    → any test xs ≡ false
    → All (λ (x : A). test x ≡ false) xs
any-none test [] h = tt
any-none test (x ∷ xs) h = elim (Bool-cases (test x)) [
  | inl met ↦ let k = rw met at h in cc
  | inr unmet ↦ (unmet, any-none test xs (rw unmet at h))
]
