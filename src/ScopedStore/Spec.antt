-- ===== src/ScopedStore/Spec.antt =====
-- What the record half of hlinor_registry/scoped_store.py promises: a map from scopes and keys to
-- values with revisions, in which a write changes one entry.
use hlinor_agent_registry.Prelude.{
  ℕ, suc, Bool, true, false, not, ◌&&◌, Option, none, some, List, [], ◌∷◌, if◌then◌else◌, Text,
  text_eq, Value, Result, ok, err, ◌>>=◌, ◌>>◌, guard,
}
use hlinor_agent_registry.ExecutionScope.{ExecutionScope}
use hlinor_agent_registry.ScopedStore.{
  StoreError, store_closed, read_failed, WorkspaceRecord, ScopedStore, Surroundings, Json,
  store_text, put_checks, put_record, get_record, close,
}

pub record Entry : Type 0 where
  pub value : Value
  pub revision : ℕ
  pub updated_at : Text

pub record WorkspaceMap : Type 0 where
  pub is_closed : Bool
  pub entry : ExecutionScope → Text → Option Entry

abbrev pub empty_map : WorkspaceMap
empty_map = record { is_closed = false; entry = λ scope key. none }

abbrev pub same_address : ExecutionScope → Text → ExecutionScope → Text → Bool
same_address s key t other =
    text_eq s.project_id t.project_id && text_eq s.workspace_id t.workspace_id && text_eq key other

abbrev pub next_revision : Option Entry → ℕ
next_revision none = 1
next_revision (some e) = suc e.revision

abbrev pub shown : ExecutionScope → Text → Entry → WorkspaceRecord
shown scope key e = record {
  scope = scope;
  key = key;
  value = e.value;
  revision = e.revision;
  updated_at = e.updated_at;
}

abbrev pub shown_if_any : ExecutionScope → Text → Option Entry → Option WorkspaceRecord
shown_if_any scope key none = none
shown_if_any scope key (some e) = some (shown scope key e)

-- The calls, with what each finds around it; `reopen` is not among them, since a closed store is not
-- opened again.
pub data Call : Type 0 where
  put_call : Surroundings → ExecutionScope → Value → Value → Call
  get_call : Surroundings → ExecutionScope → Value → Call
  close_call : Call

pub data Answer : Type 0 where
  put_answer : Result StoreError WorkspaceRecord → Answer
  get_answer : Result StoreError (Option WorkspaceRecord) → Answer
  close_answer : Answer

module _ (json : Json) (read_back : Value → Value) where
  abbrev pub new_entry : Surroundings → Value → Option Entry → Entry
  new_entry env value old = record {
    value = read_back value;
    revision = next_revision old;
    updated_at = env.now;
  }

  abbrev pub put_entry :
      Surroundings
      → ExecutionScope
      → Text
      → Value
      → WorkspaceMap
      → Result StoreError WorkspaceRecord × WorkspaceMap
  put_entry env scope key value m =
      let e : Entry = new_entry env value (m.entry scope key) in
      (
        ok (shown scope key e),
        record m {
          entry = λ other k. if same_address scope key other k then some e else m.entry other k;
        },
      )

  unfoldable pub spec_put :
      Surroundings
      → ExecutionScope
      → Value
      → Value
      → WorkspaceMap
      → Result StoreError WorkspaceRecord × WorkspaceMap
  spec_put env scope key value m = elim (put_checks json env key value m.is_closed) [
    | err problem ↦ (err problem, m)
    | ok (k, encoded) ↦ put_entry env scope k value m
  ]

unfoldable pub spec_get :
    Surroundings
    → ExecutionScope
    → Value
    → WorkspaceMap
    → Result StoreError (Option WorkspaceRecord)
spec_get env scope key m = do
  record_key ← store_text key
  guard (not m.is_closed) store_closed
  guard env.available read_failed
  ok (shown_if_any scope record_key (m.entry scope record_key))

module _ (json : Json) (read_back : Value → Value) where
  unfoldable pub spec_step : Call → WorkspaceMap → Answer × WorkspaceMap
  unfolding spec_put spec_get
  spec_step (put_call env scope key value) m =
      let after = spec_put json read_back env scope key value m in (put_answer after.0, after.1)
  spec_step (get_call env scope key) m = (get_answer (spec_get env scope key m), m)
  spec_step close_call m = (close_answer, record m { is_closed = true })

  unfoldable pub spec_run : List Call → WorkspaceMap → List Answer
  unfolding spec_step
  spec_run [] m = []
  spec_run (c ∷ calls) m = let after = spec_step c m in after.0 ∷ spec_run calls after.1

module _ (json : Json) where
  unfoldable pub store_step : Call → ScopedStore → Answer × ScopedStore
  unfolding put_record get_record close
  store_step (put_call env scope key value) s =
      let after = put_record json env scope key value s in (put_answer after.0, after.1)
  store_step (get_call env scope key) s = (get_answer (get_record json env scope key s), s)
  store_step close_call s = (close_answer, close s)

  unfoldable pub store_run : List Call → ScopedStore → List Answer
  unfolding store_step
  store_run [] s = []
  store_run (c ∷ calls) s = let after = store_step c s in after.0 ∷ store_run calls after.1
