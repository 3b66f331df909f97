-- ===== src/ScopedStore/Listing.antt =====
-- `list` of hlinor_registry/scoped_store.py, with SQLite's LIKE, which ignores the case of ASCII letters.
use hlinor_agent_registry.Prelude.{
  ℕ, ◌+◌, Bool, true, false, not, ◌&&◌, Option, none, some, List, [], ◌∷◌, ◌++◌, if◌then◌else◌, leb,
  ◌==◌, any, keep, sort_by, Text, text_leb, Value, null, Result, ok, ◌>>=◌, ◌>>◌, guard,
}
use hlinor_agent_registry.ExecutionScope.{ExecutionScope}
use hlinor_agent_registry.ScopedStore.{
  StoreError, store_closed, read_failed, WorkspaceRecord, WorkspaceRow, ScopedStore, Surroundings,
  Json, store_text, in_scope, record_of,
}

-- The case of an ASCII letter
abbrev pub fold : ℕ → ℕ
fold c = if leb b'A' c && leb c b'Z' then c + 32 else c

unfoldable pub suffixes : Text → List Text
suffixes [] = [] ∷ []
suffixes (c ∷ s) = (c ∷ s) ∷ suffixes s

-- A pattern that must meet one character, and then the rest.
abbrev pub meets_one : (ℕ → Bool) → (Text → Bool) → Text → Bool
meets_one test rest [] = false
meets_one test rest (c ∷ s) = test c && rest s

abbrev pub is_letter : ℕ → ℕ → Bool
is_letter p c = fold p == fold c

-- The walk of LIKE … ESCAPE '\' along a pattern.
unfoldable pub like : Text → Text → Bool
unfolding suffixes
like [] s = elim s [ [] ↦ true | c ∷ rest ↦ false ]
like (p ∷ []) s =
    if p == b'%'
    then any (like []) (suffixes s)
    else if p == b'\\'
    then false
    else if p == b'_'
    then meets_one (λ c. true) (like []) s
    else meets_one (is_letter p) (like []) s
like (p ∷ q ∷ ps) s =
    if p == b'%'
    then any (like (q ∷ ps)) (suffixes s)
    else if p == b'\\'
    then meets_one (is_letter q) (like ps) s
    else if p == b'_'
    then meets_one (λ c. true) (like (q ∷ ps)) s
    else meets_one (is_letter p) (like (q ∷ ps)) s

-- SQLite reads the operands of LIKE as texts that end at the first U+0000.
unfoldable pub until_nul : Text → Text
until_nul [] = []
until_nul (c ∷ s) = let rest = until_nul s in if c == 0 then [] else c ∷ rest

-- `text LIKE pattern ESCAPE '\'`
abbrev pub sql_like : Text → Text → Bool
sql_like pattern text = like (until_nul pattern) (until_nul text)

-- `s.replace(old, new)` for one character
unfoldable pub replace : ℕ → Text → Text → Text
replace old new [] = []
replace old new (c ∷ s) = (if c == old then new else c ∷ []) ++ replace old new s

-- The pattern of a prefix.
unfoldable pub prefix_pattern : Text → Text
unfolding replace
prefix_pattern prefix =
    replace b'_' (b'\\' ∷ b'_' ∷ [])
      (replace b'%' (b'\\' ∷ b'%' ∷ []) (replace b'\\' (b'\\' ∷ b'\\' ∷ []) prefix))
    ++ b'%' ∷ []

-- `prefix = None if key_prefix is None else _text(key_prefix, "key_prefix")`
unfoldable pub listed_prefix : Value → Result StoreError (Option Text)
unfolding store_text
listed_prefix null = ok none
listed_prefix v = store_text v >>= λ s. ok (some s)

abbrev pub wanted : Option Text → WorkspaceRow → Bool
wanted none r = true
wanted (some prefix) r = sql_like (prefix_pattern prefix) r.record_key

abbrev pub is_listed : ExecutionScope → Option Text → WorkspaceRow → Bool
is_listed s prefix r = in_scope s r.project_id r.workspace_id && wanted prefix r

abbrev pub key_order : WorkspaceRow → WorkspaceRow → Bool
key_order r q = text_leb r.record_key q.record_key

-- The rows that a listing selects.
unfoldable pub listed_rows : ExecutionScope → Option Text → List WorkspaceRow → List WorkspaceRow
unfolding sort_by like until_nul prefix_pattern
listed_rows s prefix rows = sort_by key_order (keep (is_listed s prefix) rows)

module _ (json : Json) where
  -- `tuple(self._record(row) for row in rows)`
  unfoldable pub records_of : List WorkspaceRow → Result StoreError (List WorkspaceRecord)
  unfolding record_of
  records_of [] = ok []
  records_of (r ∷ rows) = do first ← record_of json r; rest ← records_of rows; ok (first ∷ rest)

  -- `list`
  unfoldable pub list_records :
      Surroundings → ExecutionScope → Value → ScopedStore → Result StoreError (List WorkspaceRecord)
  unfolding listed_prefix listed_rows records_of
  list_records env scope key_prefix store = do
    prefix ← listed_prefix key_prefix
    guard (not store.is_closed) store_closed
    guard env.available read_failed
    records_of (listed_rows scope prefix store.workspace_records)
