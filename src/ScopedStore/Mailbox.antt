-- ===== src/ScopedStore/Mailbox.antt =====
-- `send_message` and `list_messages` of hlinor_registry/scoped_store.py.
use hlinor_agent_registry.Prelude.{
  ℕ, suc, Bool, true, false, not, ◌&&◌, Option, none, some, List, [], ◌∷◌, ◌++◌, if◌then◌else◌, leb,
  ltb, any, keep, sort_by, take, Text, text_eq, Value, bool, int, str, pos, Result, ok, err, ◌>>=◌,
  ◌>>◌, guard,
}
use hlinor_agent_registry.ExecutionScope.{ExecutionScope}
use hlinor_agent_registry.ScopedStore.{
  StoreError, input_invalid, store_closed, write_failed, read_failed, message_conflict, corrupt,
  MessageRow, ScopedStore, Surroundings, Json, store_text, json_bytes, in_scope, stored_scope,
  loaded,
}

pub record ScopedMessage : Type 0 where
  pub message_id : Text
  pub scope : ExecutionScope
  pub sender_agent_id : Text
  pub recipient_agent_id : Text
  pub body : Value
  pub sequence : ℕ
  pub created_at : Text

-- The named arguments of `send_message`, `None` where the identifier is left out.
pub record Posted : Type 0 where
  pub sender_agent_id : Value
  pub recipient_agent_id : Value
  pub body : Value
  pub message_id : Option Text

-- `message_id or str(uuid.uuid4())`
unfoldable pub effective_message_id : Text → Option Text → Text
effective_message_id uuid none = uuid
effective_message_id uuid (some []) = uuid
effective_message_id uuid (some (c ∷ s)) = c ∷ s

abbrev pub has_message_id : Text → MessageRow → Bool
has_message_id id m = text_eq m.message_id id

unfoldable pub find_message : Text → List MessageRow → Option MessageRow
find_message id [] = none
find_message id (m ∷ rows) = if has_message_id id m then some m else find_message id rows

-- `ORDER BY sequence`
abbrev pub sequence_order : MessageRow → MessageRow → Bool
sequence_order m n = leb m.sequence n.sequence

-- `WHERE … AND recipient_agent_id = ? AND sequence > ?`
abbrev pub is_delivered : ExecutionScope → Text → ℕ → MessageRow → Bool
is_delivered s recipient after m =
    in_scope s m.project_id m.workspace_id
    && text_eq m.recipient_agent_id recipient
    && ltb after m.sequence

unfoldable pub page_of : ExecutionScope → Text → ℕ → ℕ → List MessageRow → List MessageRow
unfolding sort_by
page_of s recipient after limit rows =
    take limit (sort_by sequence_order (keep (is_delivered s recipient after) rows))

abbrev pub non_negative : Value → Result StoreError ℕ
non_negative (int (pos n)) = ok n
non_negative (bool false) = ok 0
non_negative (bool true) = ok 1
non_negative _ = err input_invalid

-- `isinstance(after_sequence, int) and after_sequence >= 0`; a boolean is an integer of Python.
unfoldable pub check_after : Value → Result StoreError ℕ
check_after v = non_negative v

-- `isinstance(limit, int) and 1 <= limit <= 1000`
unfoldable pub check_limit : Value → Result StoreError ℕ
check_limit v = non_negative v >>= λ n. guard (leb 1 n && leb n 1000) input_invalid >> ok n

abbrev pub insert_message : MessageRow → ScopedStore → ScopedStore
insert_message m store = record store {
  scoped_messages = store.scoped_messages ++ m ∷ [];
  last_sequence = m.sequence;
}

module _ (json : Json) where
  -- `_message`
  unfoldable pub stored_message : MessageRow → Result StoreError ScopedMessage
  unfolding loaded stored_scope
  stored_message m = do
    body ← loaded (json.loads m.body_json)
    s ← stored_scope m.project_id m.workspace_id
    ok (record {
      message_id = m.message_id;
      scope = s;
      sender_agent_id = m.sender_agent_id;
      recipient_agent_id = m.recipient_agent_id;
      body = body;
      sequence = m.sequence;
      created_at = m.created_at;
    })

  unfoldable pub stored_messages : List MessageRow → Result StoreError (List ScopedMessage)
  unfolding stored_message
  stored_messages [] = ok []
  stored_messages (m ∷ rows) = do
    first ← stored_message m
    rest ← stored_messages rows
    ok (first ∷ rest)

  -- The row that an admitted call inserts.
  unfoldable pub new_message :
      Surroundings → ExecutionScope → Posted → ScopedStore → Result StoreError MessageRow
  unfolding store_text json_bytes effective_message_id
  new_message env s letter store = do
    sender ← store_text letter.sender_agent_id
    recipient ← store_text letter.recipient_agent_id
    id ← store_text (str (effective_message_id env.uuid letter.message_id))
    encoded ← json_bytes json letter.body
    guard (not store.is_closed) store_closed
    guard env.available write_failed
    guard (not (any (has_message_id id) store.scoped_messages)) message_conflict
    ok (record {
      sequence = suc store.last_sequence;
      message_id = id;
      project_id = s.project_id;
      workspace_id = s.workspace_id;
      sender_agent_id = sender;
      recipient_agent_id = recipient;
      body_json = encoded;
      created_at = env.now;
    })

  abbrev pub written_message : Option MessageRow → Result StoreError ScopedMessage
  written_message none = err corrupt
  written_message (some m) = stored_message m

  unfoldable pub send_message :
      Surroundings
      → ExecutionScope
      → Posted
      → ScopedStore
      → Result StoreError ScopedMessage × ScopedStore
  unfolding new_message find_message stored_message
  send_message env s letter store = elim (new_message env s letter store) [
    | err problem ↦ (err problem, store)
    | ok m ↦
        let after = insert_message m store in
        (written_message (find_message m.message_id after.scoped_messages), after)
  ]

  unfoldable pub list_messages :
      Surroundings
      → ExecutionScope
      → Value
      → Value
      → Value
      → ScopedStore
      → Result StoreError (List ScopedMessage)
  unfolding store_text check_after check_limit page_of stored_messages
  list_messages env s recipient_agent_id after_sequence limit store = do
    recipient ← store_text recipient_agent_id
    after ← check_after after_sequence
    n ← check_limit limit
    guard (not store.is_closed) store_closed
    guard env.available read_failed
    stored_messages (page_of s recipient after n store.scoped_messages)
