-- ===== src/ScopedStore/Sending.antt =====
-- Sending into the mailbox of hlinor_registry/scoped_store.py.
use hlinor_agent_registry.Prelude.{
  not-true, suc, ◌≤◌, ◌<◌, ◌≡◌, All-imply, refl, false, not, List, [], ◌∷◌, ◌++◌, any, All, str, ok,
  guard, >>=-eq-ok, guard-eq-ok, ok-injective, Result-cases, inl, inr, arith, subst, or_false,
}
use hlinor_agent_registry.ExecutionScope.{ExecutionScope}
use hlinor_agent_registry.ScopedStore.{
  store_closed, write_failed, message_conflict, MessageRow, ScopedStore, Surroundings, Json,
  store_text, json_bytes,
}
use hlinor_agent_registry.ScopedStore.Mailbox.{
  Posted, effective_message_id, has_message_id, new_message, insert_message, send_message,
}
use hlinor_agent_registry.ScopedStore.Polling.{IsOrdered}

-- The test that an insertion makes fails between any two.
abbrev pub IsDistinct : List MessageRow → Type 0
IsDistinct [] = Unit
IsDistinct (m ∷ rows) =
    All (λ (n : MessageRow). has_message_id n.message_id m ≡ false) rows × IsDistinct rows

-- No number and no identifier is given twice, and the numbers given so far are at most the last one.
pub record IsMailbox (store : ScopedStore) : Type 0 where
  pub ordered : IsOrdered store.scoped_messages
  pub distinct : IsDistinct store.scoped_messages
  pub numbered : All (λ (m : MessageRow). m.sequence ≤ store.last_sequence) store.scoped_messages

All-snoc :
    {A : Type 0} (P : A → Type 0) (xs : List A) (y : A) → All P xs → P y → All P (xs ++ y ∷ [])
All-snoc P [] y h p = (p, tt)
All-snoc P (x ∷ xs) y h p = (h.0, All-snoc P xs y h.1 p)

IsOrdered-snoc :
    (rows : List MessageRow) (m : MessageRow)
    → IsOrdered rows
    → All (λ (n : MessageRow). n.sequence < m.sequence) rows
    → IsOrdered (rows ++ m ∷ [])
IsOrdered-snoc [] m o h = (tt, tt)
IsOrdered-snoc (n ∷ rows) m o h = (All-snoc _ rows m o.0 h.0, IsOrdered-snoc rows m o.1 h.1)

IsDistinct-snoc :
    (rows : List MessageRow) (m : MessageRow)
    → IsDistinct rows
    → any (has_message_id m.message_id) rows ≡ false
    → IsDistinct (rows ++ m ∷ [])
IsDistinct-snoc [] m d h = (tt, tt)
IsDistinct-snoc (n ∷ rows) m d h =
    let (other, rest) = or_false (has_message_id m.message_id n) _ h in
    (All-snoc _ rows m d.0 other, IsDistinct-snoc rows m d.1 rest)

-- The number and the identifier of a row that is inserted.
new_message-fresh :
    (json : Json) (env : Surroundings) (s : ExecutionScope) (letter : Posted) (store : ScopedStore)
    {m : MessageRow}
    → new_message json env s letter store ≡ ok m
    → (m.sequence ≡ suc store.last_sequence)
      × (any (has_message_id m.message_id) store.scoped_messages ≡ false)
unfolding new_message
new_message-fresh json env s letter store h =
    let (sender, e1, h1) = >>=-eq-ok (store_text letter.sender_agent_id) _ h in
    let (recipient, e2, h2) = >>=-eq-ok (store_text letter.recipient_agent_id) _ h1 in
    let (id, e3, h3) =
      >>=-eq-ok (store_text (str (effective_message_id env.uuid letter.message_id))) _ h2 in
    let (encoded, e4, h4) = >>=-eq-ok (json_bytes json letter.body) _ h3 in
    let (u, e5, h5) = >>=-eq-ok (guard (not store.is_closed) store_closed) _ h4 in
    let (v, e6, h6) = >>=-eq-ok (guard env.available write_failed) _ h5 in
    let (w, e7, h7) =
      >>=-eq-ok (guard (not (any (has_message_id id) store.scoped_messages)) message_conflict) _
        h6 in
    let same = ok-injective _ _ h7 in
    let fresh = not-true _ (guard-eq-ok _ message_conflict e7) in
    subst
      (λ (m : MessageRow).
        (m.sequence ≡ suc store.last_sequence)
        × (any (has_message_id m.message_id) store.scoped_messages ≡ false))
      same (refl, fresh)

insert_message-IsMailbox :
    (m : MessageRow) (store : ScopedStore)
    → m.sequence ≡ suc store.last_sequence
    → any (has_message_id m.message_id) store.scoped_messages ≡ false
    → IsMailbox store
    → IsMailbox (insert_message m store)
insert_message-IsMailbox m store number fresh box = record {
  ordered =
      IsOrdered-snoc store.scoped_messages m box.ordered
        (All-imply _ _ store.scoped_messages (λ n h. omega (arith, number)) box.numbered);
  distinct = IsDistinct-snoc store.scoped_messages m box.distinct fresh;
  numbered =
      All-snoc _ store.scoped_messages m
        (All-imply _ _ store.scoped_messages (λ n h. omega (arith, number)) box.numbered)
        (omega arith);
}

-- Sending, whether it is accepted or refused, keeps the mailbox in order: the numbers rise, none is
-- above the last one given, and no identifier is there twice.
pub send_message-IsMailbox :
    (json : Json) (env : Surroundings) (s : ExecutionScope) (letter : Posted) (store : ScopedStore)
    → IsMailbox store
    → IsMailbox (send_message json env s letter store).1
unfolding send_message
send_message-IsMailbox json env s letter store box =
    elim (Result-cases (new_message json env s letter store)) [
      | inr (problem, e) ↦ rw (e, send_message) box
      | inl (m, e) ↦
          let (number, fresh) = new_message-fresh json env s letter store e in
          rw (e, send_message) (insert_message-IsMailbox m store number fresh box)
    ]
