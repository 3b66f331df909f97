-- ===== src/ScopedStore/Reader.antt =====
-- An agent that reads its mailbox by `list_messages` of hlinor_registry/scoped_store.py, page by page.
use hlinor_agent_registry.Prelude.{
  ℕ, zero, suc, ◌*◌, ◌≤◌, ◌<◌, ◌≡◌, ◌↔◌, refl, sym, ap, ◌∙◌, subst, true, false, ◌&&◌, and_elim,
  List, [], ◌∷◌, ◌++◌, ltb, leb, keep, take, In, Text, text_eq, str, int, pos, inl, inr, Result,
  Result-cases, ok, ◌>>=◌, arith,
}
use hlinor_agent_registry.Filtering.{keep-In_iff}
use hlinor_agent_registry.ExecutionScope.{ExecutionScope}
use hlinor_agent_registry.ScopedStore.{
  StoreError, MessageRow, ScopedStore, Surroundings, Json, store_text, in_scope,
}
use hlinor_agent_registry.ScopedStore.Addresses.{in_scope_iff, text_eq_iff}
use hlinor_agent_registry.ScopedStore.Mailbox.{
  ScopedMessage, is_delivered, page_of, check_after, check_limit, stored_message, stored_messages,
  list_messages,
}
use hlinor_agent_registry.ScopedStore.Polling.{
  IsOrdered, keep-IsOrdered, last_sequence_of, polls, polls-delivered,
}
use hlinor_agent_registry.ScopedStore.Stored.{
  AreMessages, messages_of-AreMessages, stored_messages-AreMessages, last_read,
  last_read-last_sequence_of,
}

-- A message for this recipient in this scope, of a number above the one given.
abbrev pub IsFor : ExecutionScope → Text → ℕ → MessageRow → Type 0
IsFor s recipient a m =
    (m.project_id ≡ s.project_id)
    × (m.workspace_id ≡ s.workspace_id)
    × (m.recipient_agent_id ≡ recipient)
    × (a < m.sequence)

is_delivered-IsFor :
    (s : ExecutionScope) (recipient : Text) (a : ℕ) (m : MessageRow)
    → (is_delivered s recipient a m ≡ true) ↔ IsFor s recipient a m
is_delivered-IsFor s recipient a m =
    let there = in_scope s m.project_id m.workspace_id in
    let to_it = text_eq m.recipient_agent_id recipient in
    let (into, back) = in_scope_iff s m.project_id m.workspace_id in
    let (same, to_same) = text_eq_iff m.recipient_agent_id recipient in
    (
      λ h.
          let (both, later) = and_elim (there && to_it) (ltb a m.sequence) h in
          let (place, mine) = and_elim there to_it both in
          let (p, w) = into place in (p, w, same mine, ground (arith, later)),
      λ (p, w, r, later).
          let at_place = back (p, w) in
          let at_it = to_same r in ground (arith, at_place, at_it, later),
    )

-- What a reader has after some calls for pages of a given size, each from the last number it has seen.
pub reads :
    Json
    → Surroundings
    → ExecutionScope
    → Text
    → ℕ
    → ScopedStore
    → ℕ
    → ℕ
    → Result StoreError (List ScopedMessage)
reads json env s recipient n store zero a = ok []
reads json env s recipient n store (suc rounds) a = do
  page ← list_messages json env s (str recipient) (int (pos a)) (int (pos n)) store
  rest ← reads json env s recipient n store rounds (last_read a page)
  ok (page ++ rest)

-- Rows read in two parts.
stored_messages-append :
    (json : Json) (rows more : List MessageRow)
    → stored_messages json (rows ++ more) ≡ (
        stored_messages json rows >>= λ first.
        stored_messages json more >>= λ rest. ok (first ++ rest))
unfolding stored_messages
stored_messages-append json [] more = elim (Result-cases (stored_messages json more)) [
  | inl (rest, e) ↦ rw e refl
  | inr (problem, e) ↦ rw e refl
]
stored_messages-append json (m ∷ rows) more = elim (Result-cases (stored_message json m)) [
  | inr (problem, e) ↦ rw e refl
  | inl (k, e) ↦ elim (Result-cases (stored_messages json rows)) [
    | inr (problem, f) ↦ rw (e, stored_messages-append json rows more, f) refl
    | inl (first, f) ↦ elim (Result-cases (stored_messages json more)) [
      | inr (problem, g) ↦ rw (e, stored_messages-append json rows more, f, g) refl
      | inl (rest, g) ↦ rw (e, stored_messages-append json rows more, f, g) refl
    ]
  ]
]

module _ (json : Json) (env : Surroundings) (s : ExecutionScope) (recipient : Text) (n : ℕ)
    (store : ScopedStore) (valid : store_text (str recipient) ≡ ok recipient) (some_page : 1 ≤ n)
    (page_fits : n ≤ 1000) (open_store : store.is_closed ≡ false) (up : env.available ≡ true) where
  limit_accepted : check_limit (int (pos n)) ≡ ok n
  unfolding check_limit
  limit_accepted =
      let least : leb 1 n ≡ true = ground (arith, some_page) in
      let most : leb n 1000 ≡ true = ground (arith, page_fits) in rw (least, most) refl

  list_messages-page_of :
      (a : ℕ)
      → list_messages json env s (str recipient) (int (pos a)) (int (pos n)) store
        ≡ stored_messages json (page_of s recipient a n store.scoped_messages)
  unfolding list_messages check_after
  list_messages-page_of a = rw (valid, limit_accepted, open_store, up, list_messages) refl

  reads-polls :
      (rounds a : ℕ)
      → reads json env s recipient n store rounds a
        ≡ stored_messages json (polls s recipient a n rounds store.scoped_messages)
  unfolding reads polls stored_messages
  reads-polls zero a = refl
  reads-polls (suc rounds) a =
      let page = page_of s recipient a n store.scoped_messages in
      elim (Result-cases (stored_messages json page)) [
        | inr (problem, e) ↦
            rw (list_messages-page_of a, e, stored_messages-append json page _, e) refl
        | inl (messages, e) ↦
            let on =
              last_read-last_sequence_of json a page messages
                (stored_messages-AreMessages json page messages e) in
            rw
              (
                list_messages-page_of a,
                e,
                stored_messages-append json page _,
                e,
                on,
                reads-polls rounds (last_sequence_of a page),
              )
              refl
      ]

-- In a mailbox whose rows stand in their order, with the store open and the database answering, let an
-- agent with a valid name read in some rounds, by pages of 1 to 1000 messages, each after the last number
-- it has read. There are rows, ordered without repetition, that are exactly those of its scope, for it and
-- above its first number, such that it gets what reading as many of the first of them as its pages can
-- hold gives: their messages, once each and in order, or the error of an unreadable one.
pub reads-delivered :
    (json : Json) (env : Surroundings) (s : ExecutionScope) (recipient : Text) (n rounds a : ℕ)
    (store : ScopedStore)
    → store_text (str recipient) ≡ ok recipient
    → 1 ≤ n
    → n ≤ 1000
    → store.is_closed ≡ false
    → env.available ≡ true
    → IsOrdered store.scoped_messages
    → (mine : List MessageRow) × ((m : MessageRow)
        → In m mine ↔ (In m store.scoped_messages × IsFor s recipient a m))
      × IsOrdered mine
      × (reads json env s recipient n store rounds a
          ≡ stored_messages json (take (rounds * n) mine))
      × AreMessages json (take (rounds * n) mine) (reads json env s recipient n store rounds a)
reads-delivered json env s recipient n rounds a store valid least most open_store up o =
    let rows = store.scoped_messages in
    let mine = keep (is_delivered s recipient a) rows in
    let got =
      reads-polls json env s recipient n store valid least most open_store up rounds a
      ∙ ap (stored_messages json) (polls-delivered s recipient a n rounds rows o) in
    (
      mine,
      (λ m.
          keep-In_iff (is_delivered s recipient a) (IsFor s recipient a) m rows
            (is_delivered-IsFor s recipient a m)),
      keep-IsOrdered (is_delivered s recipient a) rows o,
      got,
      subst (AreMessages json (take (rounds * n) mine)) (sym got)
          (messages_of-AreMessages json (take (rounds * n) mine)),
    )
