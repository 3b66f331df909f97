-- ===== src/BundleCache/Recency.antt =====
-- The cache keeps the newest entries, and no more than it may.
use hlinor_agent_registry.Prelude.{
  ℕ, suc, ◌≤◌, ◌<◌, ◌≡◌, refl, ap, inl, inr, true, some, List, [], ◌∷◌, ◌++◌, arith, ltb, length,
  length-append, text_eq_refl, Bool-cases,
}
use hlinor_agent_registry.BundleCache.{
  CacheKey, same_key, find_entry, without, trim, Cache, get, put,
}

same_key_refl : (k : CacheKey) → same_key k k ≡ true
unfolding same_key
same_key_refl k = rw (text_eq_refl k.path, text_eq_refl k.digest, text_eq_refl k.context) refl

module _ {A : Type 0} where
  trim-bounded : (max : ℕ) (entries : List (CacheKey × A)) → length (trim max entries) ≤ max
  unfolding trim
  trim-bounded max [] = omega arith
  trim-bounded max (entry ∷ entries) = elim (Bool-cases (ltb max (suc (length entries)))) [
    | inl over ↦ rw (over, trim) (trim-bounded max entries)
    | inr fits ↦ rw (fits, trim) (ground arith)
  ]

  trim-suffix :
      (max : ℕ) (entries : List (CacheKey × A))
      → (dropped : List (CacheKey × A)) × (entries ≡ dropped ++ trim max entries)
  unfolding trim
  trim-suffix max [] = ([], refl)
  trim-suffix max (entry ∷ entries) = elim (Bool-cases (ltb max (suc (length entries)))) [
    | inl over ↦
        let (dropped, e) = trim-suffix max entries in
        (entry ∷ dropped, rw (over, trim) (ap (λ (rest : List (CacheKey × A)). entry ∷ rest) e))
    | inr fits ↦ ([], rw (fits, trim) refl)
  ]

  trim-fits :
      (max : ℕ) (entries : List (CacheKey × A)) → length entries ≤ max → trim max entries ≡ entries
  unfolding trim
  trim-fits max [] h = refl
  trim-fits max (entry ∷ entries) h = elim (Bool-cases (ltb max (suc (length entries)))) [
    | inl over ↦ absurd (ground arith)
    | inr fits ↦ rw (fits, trim) refl
  ]

  find_without :
      (k : CacheKey) (a : A) (entries : List (CacheKey × A))
      → find_entry k (without k entries ++ ((k, a) ∷ [])) ≡ some a
  unfolding find_entry
  find_without k a [] = rw (same_key_refl k, find_entry) refl
  find_without k a ((j, b) ∷ entries) = elim (Bool-cases (same_key j k)) [
    | inl t ↦ rw t (find_without k a entries)
    | inr f ↦ rw (f, find_entry) (rw f (find_without k a entries))
  ]

  find_trim :
      (max : ℕ) (k : CacheKey) (a : A) (entries : List (CacheKey × A))
      → 1 ≤ max
      → find_entry k (trim max (without k entries ++ ((k, a) ∷ []))) ≡ some a
  unfolding find_entry trim
  find_trim max k a [] h = elim (Bool-cases (ltb max 1)) [
    | inl over ↦ absurd (ground arith)
    | inr fits ↦ rw (fits, trim) (rw (same_key_refl k, find_entry) refl)
  ]
  find_trim max k a ((j, b) ∷ entries) h = elim (Bool-cases (same_key j k)) [
    | inl t ↦ rw t (find_trim max k a entries h)
    | inr f ↦
        rw f (elim (Bool-cases (ltb max (suc (length (without k entries ++ ((k, a) ∷ [])))))) [
          | inl over ↦ rw (over, trim) (find_trim max k a entries h)
          | inr fits ↦ rw (fits, trim) (rw (f, find_entry) (find_without k a entries))
        ])
  ]

  -- In a cache that may hold an entry, putting one makes it the newest and removes the older entry
  -- of its key; what no longer fits is dropped from the old end, nothing where everything fits; the
  -- cache then holds at most `max_entries` entries, and a `get` of the key returns what was put.
  pub put-entries :
      (k : CacheKey) (a : A) (cache : Cache A)
      → 1 ≤ cache.max_entries
      → ((dropped : List (CacheKey × A)) × (without k cache.entries ++ ((k, a) ∷ [])
            ≡ dropped ++ (put k a cache).entries))
        × (length (put k a cache).entries ≤ cache.max_entries)
        × (length (without k cache.entries) < cache.max_entries
            → (put k a cache).entries ≡ without k cache.entries ++ ((k, a) ∷ []))
        × ((get k (put k a cache)).0 ≡ some a)
  unfolding put get
  put-entries k a cache h =
      let all = without k cache.entries ++ ((k, a) ∷ []) in
      (
        trim-suffix cache.max_entries all,
        trim-bounded cache.max_entries all,
        λ room.
            trim-fits cache.max_entries all
              (ground (arith, length-append (without k cache.entries) ((k, a) ∷ []))),
        rw (find_trim cache.max_entries k a cache.entries h, get) refl,
      )
