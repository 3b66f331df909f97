-- ===== src/ScopedStore/Refinement.antt =====
-- The table of hlinor_registry/scoped_store.py as a map from scopes and keys to entries.
use hlinor_agent_registry.Prelude.{
  All, ◌∙◌, suc, Bool, true, not, ◌≡◌, refl, ap, Option, none, some, List, [], ◌∷◌, Text, Value,
  str, ok, guard, subst, Bool-cases, Option-cases, Result-cases, >>=-eq-ok, ok-injective, inl, inr,
  arith,
}
use hlinor_agent_registry.ExecutionScope.{ExecutionScope, new_scope}
use hlinor_agent_registry.ScopedStore.{
  store_closed, write_failed, WorkspaceRow, ScopedStore, Surroundings, Json, store_text, put_checks,
  put_record, get_record, close, is_at, select, record_of, loaded, stored_scope, json_bytes,
  put_row, found_record,
}
use hlinor_agent_registry.ScopedStore.Spec.{
  Entry, WorkspaceMap, same_address, shown, shown_if_any, Call, put_call, get_call, close_call,
  put_answer, get_answer, spec_put, spec_get, spec_step, spec_run, store_step, store_run, new_entry,
  put_entry,
}
use hlinor_agent_registry.ScopedStore.Addresses.{
  row_after, is_at-eq, select-upsert_self, select-is_at, select-upsert,
}

-- A scope that its constructor makes.
abbrev pub IsMade : ExecutionScope → Type 0
IsMade s = new_scope (str s.project_id) (str s.workspace_id) ≡ ok s

stored_scope-made :
    (s : ExecutionScope) → IsMade s → stored_scope s.project_id s.workspace_id ≡ ok s
unfolding stored_scope
stored_scope-made s made = rw (made, stored_scope)

module _ (json : Json) where
  abbrev EntryOf : WorkspaceRow → Entry → Type 0
  EntryOf r e =
      (json.loads r.value_json ≡ some e.value)
      × (r.revision ≡ e.revision)
      × (r.updated_at ≡ e.updated_at)

  abbrev Matches : Option WorkspaceRow → Option Entry → Type 0
  Matches none none = Unit
  Matches (some r) (some e) = EntryOf r e
  Matches _ _ = ⊥

  record_of-shown :
      (s : ExecutionScope) (key : Text) (r : WorkspaceRow) (e : Entry)
      → IsMade s
      → is_at s key r ≡ true
      → EntryOf r e
      → record_of json r ≡ ok (shown s key e)
  unfolding record_of loaded
  record_of-shown s key r e made here (v, n, t) =
      let (p, w, k) = is_at-eq s key r here in
      rw (v, loaded, p, w, stored_scope-made s made, k, n, t)

  found_record-shown :
      (s : ExecutionScope) (key : Text) (o : Option WorkspaceRow) (e : Option Entry)
      → IsMade s
      → ((r : WorkspaceRow) → o ≡ some r → is_at s key r ≡ true)
      → Matches o e
      → found_record json o ≡ ok (shown_if_any s key e)
  found_record-shown s key none none made here m = refl
  found_record-shown s key none (some e) made here m = absurd m
  found_record-shown s key (some r) none made here m = absurd m
  found_record-shown s key (some r) (some e) made here m =
      rw (record_of-shown s key r e made (here r refl) m)

  -- The table holds the entries of the map, at every address.
  pub record Represents (store : ScopedStore) (m : WorkspaceMap) : Type 0 where
    pub same_closed : store.is_closed ≡ m.is_closed
    pub agrees :
        (s : ExecutionScope) (key : Text)
        → Matches (select s key store.workspace_records) (m.entry s key)

  get_record-spec_get :
      (env : Surroundings) (s : ExecutionScope) (key : Value) (store : ScopedStore)
      (m : WorkspaceMap)
      → IsMade s
      → Represents store m
      → get_record json env s key store ≡ spec_get env s key m
  unfolding get_record spec_get
  get_record-spec_get env s key store m made rep = elim (Result-cases (store_text key)) [
    | inr (problem, e) ↦ rw e
    | inl (k, e) ↦ rw (
      e,
      rep.same_closed,
      found_record-shown s k _ _ made (λ r h. select-is_at s k _ h) (rep.agrees s k),
    )
  ]

  json_bytes-dumps :
      (v : Value) {encoded : Text} → json_bytes json v ≡ ok encoded → json.dumps v ≡ some encoded
  unfolding json_bytes
  json_bytes-dumps v h = elim (Option-cases (json.dumps v)) [
    | inl none_left ↦ let k = rw (none_left, json_bytes) at h in cc
    | inr (b, e) ↦ let k = rw (e, json_bytes) at h in ground (arith, e, k)
  ]

  put_checks-dumps :
      (env : Surroundings) (key value : Value) (closed : Bool) {k encoded : Text}
      → put_checks json env key value closed ≡ ok (k, encoded)
      → json.dumps value ≡ some encoded
  unfolding put_checks
  put_checks-dumps env key value closed {encoded} h =
      let (a, e, h1) = >>=-eq-ok (store_text key) _ h in
      let (b, f, h2) = >>=-eq-ok (json_bytes json value) _ h1 in
      let (u, p, h3) = >>=-eq-ok (guard (not closed) store_closed) _ h2 in
      let (v, q, h4) = >>=-eq-ok (guard env.available write_failed) _ h3 in
      subst (λ (t : Text). json.dumps value ≡ some t)
        (ap (λ (t : Text × Text). t.1) (ok-injective _ _ h4)) (json_bytes-dumps value f)

-- The scopes that a call names are made.
abbrev pub HasScope : Call → Type 0
HasScope (put_call env s key value) = IsMade s
HasScope (get_call env s key) = IsMade s
HasScope close_call = Unit

module _ (json : Json) (read_back : Value → Value)
    (round_trips : (v : Value) (s : Text)
      → json.dumps v ≡ some s
      → json.loads s ≡ some (read_back v)) where
  row_after-EntryOf :
      (s : ExecutionScope) (key : Text) (env : Surroundings) (value : Value) (encoded : Text)
      (o : Option WorkspaceRow) (e : Option Entry)
      → json.dumps value ≡ some encoded
      → Matches json o e
      → EntryOf json (row_after s key encoded env.now o) (new_entry json read_back env value e)
  row_after-EntryOf s key env value encoded none none d m =
      (round_trips value encoded d, refl, refl)
  row_after-EntryOf s key env value encoded none (some e) d m = absurd m
  row_after-EntryOf s key env value encoded (some r) none d m = absurd m
  row_after-EntryOf s key env value encoded (some r) (some e) d m =
      (round_trips value encoded d, ap suc m.1, refl)

  put_row-Represents :
      (env : Surroundings) (s : ExecutionScope) (key : Text) (value : Value) (encoded : Text)
      (store : ScopedStore) (m : WorkspaceMap)
      → json.dumps value ≡ some encoded
      → Represents json store m
      → Represents json
          (put_row json env s key encoded store).1
          (put_entry json read_back env s key value m).1
  put_row-Represents env s key value encoded store m d rep = record {
    same_closed = rep.same_closed;
    agrees = λ t k. elim (Bool-cases (same_address s key t k)) [
      | inl here ↦
          rw (select-upsert s t key k encoded env.now store.workspace_records, here)
            (row_after-EntryOf s key env value encoded _ _ d (rep.agrees s key))
      | inr other ↦
          rw (select-upsert s t key k encoded env.now store.workspace_records, other)
            (rep.agrees t k)
    ];
  }

  put_row-shown :
      (env : Surroundings) (s : ExecutionScope) (key : Text) (value : Value) (encoded : Text)
      (store : ScopedStore) (m : WorkspaceMap)
      → IsMade s
      → json.dumps value ≡ some encoded
      → Represents json store m
      → (put_row json env s key encoded store).0 ≡ (put_entry json read_back env s key value m).0
  put_row-shown env s key value encoded store m made d rep =
      let stored = select-upsert_self s key encoded env.now store.workspace_records in
      rw stored (
        record_of-shown json s key _ _ made (select-is_at s key _ stored)
          (row_after-EntryOf s key env value encoded _ _ d (rep.agrees s key)))

  put_record-spec_put :
      (env : Surroundings) (s : ExecutionScope) (key value : Value) (store : ScopedStore)
      (m : WorkspaceMap)
      → IsMade s
      → Represents json store m
      → ((put_record json env s key value store).0 ≡ (spec_put json read_back env s key value m).0)
        × Represents json
            (put_record json env s key value store).1
            (spec_put json read_back env s key value m).1
  unfolding put_record spec_put
  put_record-spec_put env s key value store m made rep =
      let same : put_checks json env key value store.is_closed
          ≡ put_checks json env key value m.is_closed =
        ap (put_checks json env key value) rep.same_closed in
      elim (Result-cases (put_checks json env key value m.is_closed)) [
        | inr (problem, e) ↦ rw (same ∙ e, e, put_record, spec_put) (refl, rep)
        | inl ((k, encoded), e) ↦
            let d = put_checks-dumps json env key value m.is_closed e in
            rw (same ∙ e, e, put_record, spec_put)
              (
                put_row-shown env s k value encoded store m made d rep,
                put_row-Represents env s k value encoded store m d rep,
              )
      ]

  step-spec_step :
      (c : Call) (store : ScopedStore) (m : WorkspaceMap)
      → HasScope c
      → Represents json store m
      → ((store_step json c store).0 ≡ (spec_step json read_back c m).0)
        × Represents json (store_step json c store).1 (spec_step json read_back c m).1
  unfolding store_step spec_step close
  step-spec_step (put_call env s key value) store m made rep =
      let (same, after) = put_record-spec_put env s key value store m made rep in
      (ap put_answer same, after)
  step-spec_step (get_call env s key) store m made rep =
      (ap get_answer (get_record-spec_get json env s key store m made rep), rep)
  step-spec_step close_call store m made rep =
      (refl, record { same_closed = refl; agrees = rep.agrees })

  -- From a table that represents a map, every sequence of writes, reads and closings, with any faults
  -- of the database in between, is answered as the map answers it: a value reads back in its own scope
  -- and key only, with the number of its writes as the revision. What `json.loads` makes of what
  -- `json.dumps` wrote is given, and the scopes are made by their constructor.
  pub store_run-spec_run :
      (calls : List Call) (store : ScopedStore) (m : WorkspaceMap)
      → All HasScope calls
      → Represents json store m
      → store_run json calls store ≡ spec_run json read_back calls m
  unfolding store_run spec_run
  store_run-spec_run [] store m made rep = refl
  store_run-spec_run (c ∷ calls) store m made rep =
      let (same, after) = step-spec_step c store m made.0 rep in
      rw (same, store_run-spec_run calls _ _ made.1 after)
