-- ===== src/BundleCache.antt =====
-- hlinor_registry/bundle_cache.py: the process-local cache as a step on its entries, oldest first, and
-- its counters. The lock makes each method one step; a state that is put or got is a value here, which
-- is what its deep copies amount to.
pub mod Recency
mod Tests
use hlinor_agent_registry.Prelude.{
  ℕ, suc, ◌+◌, ◌-◌, Bool, true, false, not, ◌&&◌, Option, none, some, List, [], ◌∷◌, ◌++◌, leb, ltb,
  if◌then◌else◌, length, keep, Text, text_eq, Value, int, pos, Result, ok, err,
}

-- A resolved path, the digest of the bundle's bytes and the verification context.
pub record CacheKey : Type 0 where
  pub path : Text
  pub digest : Text
  pub context : Text

unfoldable pub same_key : CacheKey → CacheKey → Bool
same_key j k = text_eq j.path k.path && text_eq j.digest k.digest && text_eq j.context k.context

pub record BundleCacheInfo : Type 0 where
  pub hits : ℕ
  pub misses : ℕ
  pub max_entries : ℕ
  pub current_entries : ℕ

pub data CacheError : Type 0 where
  value_error : CacheError

module _ {A : Type 0} where
  unfoldable pub find_entry : CacheKey → List (CacheKey × A) → Option A
  find_entry k [] = none
  find_entry k ((j, a) ∷ entries) = if same_key j k then some a else find_entry k entries

  abbrev pub without : CacheKey → List (CacheKey × A) → List (CacheKey × A)
  without k entries = keep (λ (entry : CacheKey × A). not (same_key entry.0 k)) entries

  -- `while len(self._entries) > self.max_entries: popitem(last=False)`
  unfoldable pub trim : ℕ → List (CacheKey × A) → List (CacheKey × A)
  trim max [] = []
  trim max (entry ∷ entries) =
      if ltb max (suc (length entries)) then trim max entries else entry ∷ entries

pub record Cache (A : Type 0) : Type 0 where
  pub max_entries : ℕ
  pub entries : List (CacheKey × A)
  pub hits : ℕ
  pub misses : ℕ

unfoldable pub new_cache : {A : Type 0} → Value → Result CacheError (Cache A)
new_cache (int (pos (suc n))) =
    ok (record { max_entries = suc n; entries = []; hits = 0; misses = 0 })
new_cache _ = err value_error

module _ {A : Type 0} where
  unfoldable pub clear : Cache A → Cache A
  clear cache = record cache { entries = [] }

  unfoldable pub invalidate : Text → Cache A → ℕ × Cache A
  invalidate resolved cache = (
    length (keep (λ (entry : CacheKey × A). text_eq entry.0.path resolved) cache.entries),
    record cache {
      entries = keep (λ (entry : CacheKey × A). not (text_eq entry.0.path resolved)) cache.entries;
    },
  )

  unfoldable pub cache_info : Cache A → BundleCacheInfo
  cache_info cache = record {
    hits = cache.hits;
    misses = cache.misses;
    max_entries = cache.max_entries;
    current_entries = length cache.entries;
  }

  unfoldable pub get : CacheKey → Cache A → Option A × Cache A
  unfolding find_entry
  get k cache = elim (find_entry k cache.entries) [
    | none ↦ (none, record cache { misses = cache.misses + 1 })
    | some a ↦ (
      some a,
      record cache { entries = without k cache.entries ++ ((k, a) ∷ []); hits = cache.hits + 1 },
    )
  ]

  -- An assigned key that was present keeps its place until `move_to_end`.
  unfoldable pub put : CacheKey → A → Cache A → Cache A
  unfolding trim
  put k a cache = record cache {
    entries = trim cache.max_entries (without k cache.entries ++ ((k, a) ∷ []));
  }
