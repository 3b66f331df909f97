-- ===== src/ScopedStore/Stored.antt =====
-- What the messages that `list_messages` of hlinor_registry/scoped_store.py returns say of their rows.
use hlinor_agent_registry.Prelude.{
  ℕ, ◌≡◌, refl, ap, ◌∙◌, subst, List, [], ◌∷◌, Text, Value, str, inl, inr, Result, Result-cases, ok,
  err, >>=-eq-ok, ok-injective, Option, none, some,
}
use hlinor_agent_registry.ExecutionScope.{ExecutionScope, new_scope}
use hlinor_agent_registry.ExecutionScope.Identity.{new_scope_iff}
use hlinor_agent_registry.ScopedStore.{StoreError, MessageRow, Json, stored_scope, loaded}
use hlinor_agent_registry.ScopedStore.Mailbox.{ScopedMessage, stored_message, stored_messages}
use hlinor_agent_registry.ScopedStore.Polling.{last_sequence_of}

-- The number to read on from.
abbrev pub last_read : ℕ → List ScopedMessage → ℕ
last_read a [] = a
last_read a (m ∷ messages) = last_read m.sequence messages

module _ (json : Json) where
  -- A message that is read says what its row says.
  abbrev pub IsMessage : MessageRow → ScopedMessage → Type 0
  IsMessage m k =
      (k.message_id ≡ m.message_id)
      × (k.scope.project_id ≡ m.project_id)
      × (k.scope.workspace_id ≡ m.workspace_id)
      × (k.sender_agent_id ≡ m.sender_agent_id)
      × (k.recipient_agent_id ≡ m.recipient_agent_id)
      × (json.loads m.body_json ≡ some k.body)
      × (k.sequence ≡ m.sequence)
      × (k.created_at ≡ m.created_at)

  -- The messages of some rows, in their order, where reading them raised nothing.
  abbrev pub AreMessages : List MessageRow → Result StoreError (List ScopedMessage) → Type 0
  AreMessages rows (err problem) = Unit
  AreMessages [] (ok []) = Unit
  AreMessages (m ∷ rows) (ok (k ∷ messages)) = IsMessage m k × AreMessages rows (ok messages)
  AreMessages _ _ = ⊥

  loaded-eq-ok : (o : Option Value) {v : Value} → loaded o ≡ ok v → o ≡ some v
  unfolding loaded
  loaded-eq-ok none h = cc
  loaded-eq-ok (some w) {v = v} h = ap some (ok-injective w v h)

  stored_scope-eq-ok :
      (p w : Text) {s : ExecutionScope}
      → stored_scope p w ≡ ok s
      → (s.project_id ≡ p) × (s.workspace_id ≡ w)
  unfolding stored_scope
  stored_scope-eq-ok p w {s = s} h = elim (Result-cases (new_scope (str p) (str w))) [
    | inr (problem, e) ↦ let k = rw (e, stored_scope) at h in cc
    | inl (t, e) ↦
        let same = ok-injective t s (rw (e, stored_scope) at h) in
        let (x, y, tidy, clean) = (new_scope_iff (str p) (str w) s).0 (e ∙ ap ok same) in (cc, cc)
  ]

  stored_message-IsMessage :
      (m : MessageRow) {k : ScopedMessage} → stored_message json m ≡ ok k → IsMessage m k
  unfolding stored_message
  stored_message-IsMessage m {k = k} h =
      let (body, e0, h0) = >>=-eq-ok (loaded (json.loads m.body_json)) _ h in
      let (s, e1, h1) = >>=-eq-ok (stored_scope m.project_id m.workspace_id) _ h0 in
      let (p, w) = stored_scope-eq-ok m.project_id m.workspace_id e1 in
      subst (IsMessage m) (ok-injective _ k h1)
        (refl, p, w, refl, refl, loaded-eq-ok _ e0, refl, refl)

  pub stored_messages-AreMessages :
      (rows : List MessageRow) (messages : List ScopedMessage)
      → stored_messages json rows ≡ ok messages
      → AreMessages rows (ok messages)
  unfolding stored_messages
  stored_messages-AreMessages [] messages h =
      subst (λ (ks : List ScopedMessage). AreMessages [] (ok ks)) (ok-injective [] messages h) tt
  stored_messages-AreMessages (m ∷ rows) messages h =
      let (first, e0, h0) = >>=-eq-ok (stored_message json m) _ h in
      let (rest, e1, h1) = >>=-eq-ok (stored_messages json rows) _ h0 in
      subst (λ (ks : List ScopedMessage). AreMessages (m ∷ rows) (ok ks))
        (ok-injective (first ∷ rest) messages h1)
        (stored_message-IsMessage m e0, stored_messages-AreMessages rows rest e1)

  pub messages_of-AreMessages :
      (rows : List MessageRow) → AreMessages rows (stored_messages json rows)
  messages_of-AreMessages rows = elim (Result-cases (stored_messages json rows)) [
    | inl (messages, e) ↦ rw e (stored_messages-AreMessages rows messages e)
    | inr (problem, e) ↦ rw e tt
  ]

  pub last_read-last_sequence_of :
      (a : ℕ) (rows : List MessageRow) (messages : List ScopedMessage)
      → AreMessages rows (ok messages)
      → last_read a messages ≡ last_sequence_of a rows
  last_read-last_sequence_of a [] [] h = refl
  last_read-last_sequence_of a [] (k ∷ messages) h = absurd h
  last_read-last_sequence_of a (m ∷ rows) [] h = absurd h
  last_read-last_sequence_of a (m ∷ rows) (k ∷ messages) (h, rest) =
      let (i, p, w, f, t, b, number, c) = h in
      rw number (last_read-last_sequence_of m.sequence rows messages rest)
