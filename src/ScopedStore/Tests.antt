-- ===== src/ScopedStore/Tests.antt =====
-- A store that two workspaces share.
use hlinor_agent_registry.Prelude.{
  arith, ℕ, ◌*◌, ◌≡◌, ◌↔◌, refl, ap, sym, true, false, Option, none, some, some-injective, List, [],
  ◌∷◌, In, IsSorted, take, Text, codes, text_eq, Value, null, bool, int, float, str, arr, obj, ok,
  is_blank, strip, length,
}
use hlinor_agent_registry.ExecutionScope.{ExecutionScope, new_scope, check_id}
use hlinor_agent_registry.ScopedStore.{
  WorkspaceRow, MessageRow, ScopedStore, Surroundings, Json, store_text, select,
}
use hlinor_agent_registry.ScopedStore.Spec.{
  empty_map, Call, put_call, get_call, close_call, store_run, spec_run,
}
use hlinor_agent_registry.ScopedStore.Refinement.{IsMade, Represents, store_run-spec_run}
use hlinor_agent_registry.ScopedStore.Listing.{list_records, records_of, key_order}
use hlinor_agent_registry.ScopedStore.Prefix.{IsListed, list_records-IsListed, begins_with}
use hlinor_agent_registry.ScopedStore.Mailbox.{Posted, send_message, stored_messages}
use hlinor_agent_registry.ScopedStore.Polling.{IsOrdered}
use hlinor_agent_registry.ScopedStore.Stored.{AreMessages}
use hlinor_agent_registry.ScopedStore.Reader.{IsFor, reads, reads-delivered}
use hlinor_agent_registry.ScopedStore.Sending.{IsMailbox, send_message-IsMailbox}

-- A `json` that writes texts only.
dumps : Value → Option Text
dumps (str s) = some s
dumps _ = none

abbrev text_json : Json
text_json = record { dumps = dumps; loads = λ s. some (str s); utf8_length = length }

abbrev as_is : Value → Value
as_is v = v

text_json_reads :
    (v : Value) (s : Text) → text_json.dumps v ≡ some s → text_json.loads s ≡ some (as_is v)
unfolding dumps
text_json_reads (str t) s h = ap (λ (u : Text). some (str u)) (sym (some-injective t s h))
text_json_reads null s h = cc
text_json_reads (bool b) s h = cc
text_json_reads (int n) s h = cc
text_json_reads (float x) s h = cc
text_json_reads (arr vs) s h = cc
text_json_reads (obj fs) s h = cc

abbrev one : ExecutionScope
one = record { project_id = codes "p"; workspace_id = codes "one" }

abbrev two : ExecutionScope
two = record { project_id = codes "p"; workspace_id = codes "two" }

one-IsMade : IsMade one
unfolding new_scope check_id is_blank strip text_eq
one-IsMade = refl

two-IsMade : IsMade two
unfolding new_scope check_id is_blank strip text_eq
two-IsMade = refl

abbrev up : Surroundings
up = record { now = codes "now"; uuid = codes "u"; available = true }

abbrev empty_store : ScopedStore
empty_store = record {
  is_closed = false;
  workspace_records = [];
  scoped_messages = [];
  last_sequence = 0;
}

empty_store-Represents : Represents text_json empty_store empty_map
unfolding select
empty_store-Represents = record { same_closed = refl; agrees = λ s key. tt }

abbrev calls : List Call
calls =
    put_call up one (str (codes "k")) (str (codes "a"))
    ∷ put_call up two (str (codes "k")) (str (codes "b"))
    ∷ get_call up one (str (codes "k"))
    ∷ close_call
    ∷ get_call up one (str (codes "k"))
    ∷ []

store_run-spec_run_example :
    store_run text_json calls empty_store ≡ spec_run text_json as_is calls empty_map
store_run-spec_run_example =
    store_run-spec_run text_json as_is text_json_reads calls empty_store empty_map
      (one-IsMade, (two-IsMade, (one-IsMade, (tt, (one-IsMade, tt))))) empty_store-Represents

abbrev row : ExecutionScope → Text → WorkspaceRow
row s key = record {
  project_id = s.project_id;
  workspace_id = s.workspace_id;
  record_key = key;
  value_json = codes "v";
  revision = 1;
  updated_at = codes "now";
}

abbrev full_store : ScopedStore
full_store = record empty_store {
  workspace_records =
      row one (codes "a_2")
      ∷ row two (codes "a_1")
      ∷ row one (codes "A_1")
      ∷ row one (codes "ab")
      ∷ [];
}

a_-valid : store_text (str (codes "a_")) ≡ ok (codes "a_")
unfolding store_text is_blank strip text_eq
a_-valid = refl

list_records-IsListed_example :
    (rows : List WorkspaceRow) × (list_records text_json up one (str (codes "a_")) full_store
      ≡ records_of text_json rows)
    × IsSorted key_order rows
    × ((r : WorkspaceRow)
        → In r rows ↔ (In r full_store.workspace_records × IsListed one (codes "a_") r))
list_records-IsListed_example =
    list_records-IsListed text_json up one (codes "a_") full_store a_-valid refl refl

abbrev message : ℕ → Text → MessageRow
message n id = record {
  sequence = n;
  message_id = id;
  project_id = codes "p";
  workspace_id = codes "one";
  sender_agent_id = codes "s";
  recipient_agent_id = codes "r";
  body_json = codes "v";
  created_at = codes "now";
}

abbrev mail : List MessageRow
mail = message 1 (codes "a") ∷ message 4 (codes "b") ∷ message 6 (codes "c") ∷ []

mail-IsOrdered : IsOrdered mail
mail-IsOrdered = omega arith

abbrev mail_store : ScopedStore
mail_store = record empty_store { scoped_messages = mail; last_sequence = 6 }

r-valid : store_text (str (codes "r")) ≡ ok (codes "r")
unfolding store_text is_blank strip text_eq
r-valid = refl

reads-delivered_example :
    (mine : List MessageRow) × ((m : MessageRow)
      → In m mine ↔ (In m mail_store.scoped_messages × IsFor one (codes "r") 1 m))
    × IsOrdered mine
    × (reads text_json up one (codes "r") 1 mail_store 3 1
        ≡ stored_messages text_json (take (3 * 1) mine))
    × AreMessages text_json
        (take (3 * 1) mine)
        (reads text_json up one (codes "r") 1 mail_store 3 1)
reads-delivered_example =
    reads-delivered text_json up one (codes "r") 1 3 1 mail_store r-valid (omega arith)
      (omega arith) refl refl mail-IsOrdered

mail_store-IsMailbox : IsMailbox mail_store
unfolding text_eq
mail_store-IsMailbox = record {
  ordered = omega arith;
  distinct = ((refl, (refl, tt)), ((refl, tt), (tt, tt)));
  numbered = omega arith;
}

abbrev letter : Posted
letter = record {
  sender_agent_id = str (codes "s");
  recipient_agent_id = str (codes "r");
  body = str (codes "v");
  message_id = none;
}

send_message-IsMailbox_example : IsMailbox (send_message text_json up one letter mail_store).1
send_message-IsMailbox_example =
    send_message-IsMailbox text_json up one letter mail_store mail_store-IsMailbox

-- The pattern of `a_` finds `A_1`, and not `ab`.
keys_begin :
    (begins_with (codes "a_") (codes "A_1") ≡ true)
    × (begins_with (codes "a_") (codes "ab") ≡ false)
keys_begin = (refl, refl)
