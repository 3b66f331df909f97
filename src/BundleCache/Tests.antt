-- ===== src/BundleCache/Tests.antt =====
-- A full cache.
use hlinor_agent_registry.Prelude.{
  ℕ, ◌≤◌, ◌<◌, ◌≡◌, some, List, [], ◌∷◌, ◌++◌, length, codes, arith,
}
use hlinor_agent_registry.BundleCache.{CacheKey, Cache, without, get, put}
use hlinor_agent_registry.BundleCache.Recency.{put-entries}

abbrev key_of : ℕ → CacheKey
key_of n = record { path = n ∷ []; digest = codes "d"; context = codes "c" }

abbrev full : Cache ℕ
full = record {
  max_entries = 2;
  entries = (key_of 1, 10) ∷ (key_of 2, 20) ∷ [];
  hits = 0;
  misses = 0;
}

put-entries_example :
    ((dropped : List (CacheKey × ℕ)) × (without (key_of 3) full.entries ++ ((key_of 3, 30) ∷ [])
        ≡ dropped ++ (put (key_of 3) 30 full).entries))
    × (length (put (key_of 3) 30 full).entries ≤ full.max_entries)
    × (length (without (key_of 3) full.entries) < full.max_entries
        → (put (key_of 3) 30 full).entries
          ≡ without (key_of 3) full.entries ++ ((key_of 3, 30) ∷ []))
    × ((get (key_of 3) (put (key_of 3) 30 full)).0 ≡ some 30)
put-entries_example = put-entries (key_of 3) 30 full (omega arith)
