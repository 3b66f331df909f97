-- ===== src/ScopedStore.antt =====
-- hlinor_registry/scoped_store.py: records by project, workspace and key. The table holds what the
-- statements of the module write into its NOT NULL columns, so that the shape checks of `_record` and
-- `_message` pass; each method is one transaction, and one that fails leaves the tables as they were.
pub mod Listing
pub mod Mailbox
pub mod Polling
pub mod Stored
pub mod Reader
pub mod Sending
pub mod Prefix
mod Tests
pub mod Spec
pub mod Addresses
pub mod Refinement
use hlinor_agent_registry.Prelude.{
  ℕ, suc, Bool, true, false, not, ◌&&◌, Option, none, some, List, [], ◌∷◌, if◌then◌else◌, leb,
  length, Text, text_eq, strip, is_blank, Value, str, Result, ok, err, ◌>>=◌, ◌>>◌, guard,
}
use hlinor_agent_registry.ExecutionScope.{ExecutionScope, ScopeError, new_scope}

pub data StoreError : Type 0 where
  input_invalid value_invalid store_closed corrupt : StoreError
  write_failed read_failed message_conflict : StoreError
  scope_error : ScopeError → StoreError

pub record WorkspaceRecord : Type 0 where
  pub scope : ExecutionScope
  pub key : Text
  pub value : Value
  pub revision : ℕ
  pub updated_at : Text

-- A row of `workspace_records`.
pub record WorkspaceRow : Type 0 where
  pub project_id : Text
  pub workspace_id : Text
  pub record_key : Text
  pub value_json : Text
  pub revision : ℕ
  pub updated_at : Text

-- A row of `scoped_messages`.
pub record MessageRow : Type 0 where
  pub sequence : ℕ
  pub message_id : Text
  pub project_id : Text
  pub workspace_id : Text
  pub sender_agent_id : Text
  pub recipient_agent_id : Text
  pub body_json : Text
  pub created_at : Text

-- `last_sequence` is the row of `scoped_messages` in SQLite's own table of AUTOINCREMENT.
pub record ScopedStore : Type 0 where
  pub is_closed : Bool
  pub workspace_records : List WorkspaceRow
  pub scoped_messages : List MessageRow
  pub last_sequence : ℕ

-- The clock, the UUID that may be drawn, and whether the database answers.
pub record Surroundings : Type 0 where
  pub now : Text
  pub uuid : Text
  pub available : Bool

-- Python's `json`, and the length of a text in UTF-8.
pub record Json : Type 0 where
  pub dumps : Value → Option Text
  pub loads : Text → Option Value
  pub utf8_length : Text → ℕ

abbrev max_text_length : ℕ
max_text_length = 256

abbrev max_json_bytes : ℕ
max_json_bytes = 1048576

-- `_text`
unfoldable pub store_text : Value → Result StoreError Text
unfolding is_blank strip text_eq
store_text (str s) = do
  guard (not (is_blank s)) input_invalid
  guard (text_eq s (strip s)) input_invalid
  guard (leb (length s) max_text_length) input_invalid
  ok s
store_text _ = err input_invalid

-- `ExecutionScope(project_id, workspace_id)`
unfoldable pub stored_scope : Text → Text → Result StoreError ExecutionScope
unfolding new_scope
stored_scope project_id workspace_id = elim (new_scope (str project_id) (str workspace_id)) [
  | ok s ↦ ok s
  | err problem ↦ err (scope_error problem)
]

unfoldable pub loaded : Option Value → Result StoreError Value
loaded none = err corrupt
loaded (some v) = ok v

-- `WHERE project_id = ? AND workspace_id = ?`
abbrev pub in_scope : ExecutionScope → Text → Text → Bool
in_scope s project_id workspace_id =
    text_eq project_id s.project_id && text_eq workspace_id s.workspace_id

abbrev pub is_at : ExecutionScope → Text → WorkspaceRow → Bool
is_at s key r = in_scope s r.project_id r.workspace_id && text_eq r.record_key key

unfoldable pub select : ExecutionScope → Text → List WorkspaceRow → Option WorkspaceRow
select s key [] = none
select s key (r ∷ rows) = if is_at s key r then some r else select s key rows

-- What `INSERT … ON CONFLICT DO UPDATE` leaves in the row.
abbrev pub inserted : ExecutionScope → Text → Text → Text → WorkspaceRow
inserted s key encoded now = record {
  project_id = s.project_id;
  workspace_id = s.workspace_id;
  record_key = key;
  value_json = encoded;
  revision = 1;
  updated_at = now;
}

abbrev pub updated : Text → Text → WorkspaceRow → WorkspaceRow
updated encoded now r = record r {
  value_json = encoded;
  revision = suc r.revision;
  updated_at = now;
}

unfoldable pub upsert : ExecutionScope → Text → Text → Text → List WorkspaceRow → List WorkspaceRow
upsert s key encoded now [] = inserted s key encoded now ∷ []
upsert s key encoded now (r ∷ rows) =
    if is_at s key r then updated encoded now r ∷ rows else r ∷ upsert s key encoded now rows

module _ (json : Json) where
  -- `_json_bytes`
  unfoldable pub json_bytes : Value → Result StoreError Text
  json_bytes v = elim (json.dumps v) [
    | none ↦ err value_invalid
    | some s ↦ if leb (json.utf8_length s) max_json_bytes then ok s else err value_invalid
  ]

  -- `_record`
  unfoldable pub record_of : WorkspaceRow → Result StoreError WorkspaceRecord
  unfolding loaded stored_scope
  record_of r = do
    v ← loaded (json.loads r.value_json)
    s ← stored_scope r.project_id r.workspace_id
    ok (record {
      scope = s;
      key = r.record_key;
      value = v;
      revision = r.revision;
      updated_at = r.updated_at;
    })

  -- What `put` checks before its statements run.
  unfoldable pub put_checks : Surroundings → Value → Value → Bool → Result StoreError (Text × Text)
  unfolding store_text json_bytes
  put_checks env key value is_closed = do
    record_key ← store_text key
    encoded ← json_bytes value
    guard (not is_closed) store_closed
    guard env.available write_failed
    ok (record_key, encoded)

  abbrev pub written_record : Option WorkspaceRow → Result StoreError WorkspaceRecord
  written_record none = err corrupt
  written_record (some r) = record_of r

  abbrev pub put_row :
      Surroundings
      → ExecutionScope
      → Text
      → Text
      → ScopedStore
      → Result StoreError WorkspaceRecord × ScopedStore
  put_row env scope key encoded store =
      let rows = upsert scope key encoded env.now store.workspace_records in
      (written_record (select scope key rows), record store { workspace_records = rows })

  unfoldable pub put_record :
      Surroundings
      → ExecutionScope
      → Value
      → Value
      → ScopedStore
      → Result StoreError WorkspaceRecord × ScopedStore
  unfolding put_checks upsert select record_of
  put_record env scope key value store = elim (put_checks env key value store.is_closed) [
    | err problem ↦ (err problem, store)
    | ok (k, encoded) ↦ put_row env scope k encoded store
  ]

  abbrev pub found_record : Option WorkspaceRow → Result StoreError (Option WorkspaceRecord)
  found_record none = ok none
  found_record (some r) = record_of r >>= λ found. ok (some found)

  unfoldable pub get_record :
      Surroundings
      → ExecutionScope
      → Value
      → ScopedStore
      → Result StoreError (Option WorkspaceRecord)
  unfolding store_text select record_of
  get_record env scope key store = do
    record_key ← store_text key
    guard (not store.is_closed) store_closed
    guard env.available read_failed
    found_record (select scope record_key store.workspace_records)

-- `close`
unfoldable pub close : ScopedStore → ScopedStore
close store = record store { is_closed = true }
