-- ===== src/Matching/Search.antt =====
-- The search of an action list: what `find_match` and `find_block_match` answer.
use hlinor_agent_registry.Prelude.{
  ◌≡◌, refl, ◌↔◌, inl, inr, Bool, true, false, Option, none, some, List, [], ◌∷◌, ◌++◌, arith, All,
  Bool-cases, Option-cases, Text, text_eq, text_eq→eq, Value, str, arr, items, Items,
}
use hlinor_agent_registry.Matching.{request_key, matches, first_match, find_match, find_block_match}

module _ (casefold : Text → Text) where
  -- An entry of an action list that does not match: a pattern that fails, or no string.
  abbrev pub Refuses : Text → Bool → Value → Type 0
  Refuses key ignore_case (str pattern) = matches casefold pattern key ignore_case ≡ false
  Refuses key ignore_case _ = Unit

  -- The entry that a search returns: it matches, and each entry before it refuses.
  abbrev pub FirstMatch : Text → Bool → List Value → Text → Type 0
  FirstMatch key ignore_case entries pattern =
      (before : List Value) × (after : List Value) × (entries ≡ before ++ str pattern ∷ after)
      × (matches casefold pattern key ignore_case ≡ true)
      × All (Refuses key ignore_case) before

  abbrev pub Searched : Text → Bool → List Value → Option Text → Type 0
  Searched key ignore_case entries none = All (Refuses key ignore_case) entries
  Searched key ignore_case entries (some pattern) = FirstMatch key ignore_case entries pattern

  Searched-skip :
      (key : Text) (ic : Bool) (v : Value) (vs : List Value) (r : Option Text)
      → Refuses key ic v
      → Searched key ic vs r
      → Searched key ic (v ∷ vs) r
  Searched-skip key ic v vs none h s = (h, s)
  Searched-skip key ic v vs (some p) h (before, after, e, m, all) =
      (v ∷ before, after, rw e, m, (h, all))

  first_match-Searched :
      (entries : List Value) (key : Text) (ic : Bool)
      → Searched key ic entries (first_match casefold entries key ic)
  unfolding first_match
  first_match-Searched [] key ic = tt
  first_match-Searched (str p ∷ vs) key ic = elim (Bool-cases (matches casefold p key ic)) [
    | inl m ↦ rw m ([], vs, refl, m, tt)
    | inr m ↦ rw m (
        Searched-skip key ic (str p) vs (first_match casefold vs key ic) m
          (first_match-Searched vs key ic))
  ]
  first_match-Searched (v ∷ vs) key ic =
      Searched-skip key ic v vs _ tt (first_match-Searched vs key ic)

  -- A search of a list returns the first entry that matches the key, and none only where every
  -- entry refuses it; entries that are no strings are passed over.
  pub find_match-Searched :
      (entries : Items) (key : Text) (ignore_case : Bool)
      → Searched key ignore_case (items entries) (find_match casefold (arr entries) key ignore_case)
  unfolding find_match
  find_match-Searched entries key ic = first_match-Searched (items entries) key ic

  Searched-none :
      (entries : Items) (key : Text) (ic : Bool)
      → find_match casefold (arr entries) key ic ≡ none
      → All (Refuses key ic) (items entries)
  Searched-none entries key ic h = rw h at (find_match-Searched entries key ic)

  first_match-none :
      (entries : List Value) (key : Text) (ic : Bool)
      → All (Refuses key ic) entries
      → first_match casefold entries key ic ≡ none
  unfolding first_match
  first_match-none [] key ic h = refl
  first_match-none (str p ∷ vs) key ic h = rw h.0 (first_match-none vs key ic h.1)
  first_match-none (v ∷ vs) key ic h = first_match-none vs key ic h.1

  module _ (patterns : Value) (action key : Text) where
    block-none→ :
        find_block_match casefold patterns action key ≡ none
        → (find_match casefold patterns key true ≡ none)
          × (find_match casefold patterns action true ≡ none)
    unfolding find_block_match
    block-none→ h = elim (Option-cases (find_match casefold patterns key true)) [
      | inr (m, e) ↦ cc (rw (e, find_block_match) at h)
      | inl e ↦ elim (Bool-cases (text_eq key action)) [
        | inl same ↦ (e, rw (← text_eq→eq key action same) e)
        | inr other ↦ (e, ground (arith, e, other))
      ]
    ]

    block-none← :
        find_match casefold patterns key true ≡ none
        → find_match casefold patterns action true ≡ none
        → find_block_match casefold patterns action key ≡ none
    unfolding find_block_match
    block-none← h k = ground arith

  -- The block list lets a request pass exactly when every entry refuses both the full key and the
  -- action alone, letters compared by their folded case.
  pub find_block_match-none_iff :
      (entries : Items) (action key : Text)
      → (find_block_match casefold (arr entries) action key ≡ none)
        ↔ (All (Refuses key true) (items entries) × All (Refuses action true) (items entries))
  unfolding find_match
  find_block_match-none_iff entries action key = (
    λ h.
        let (k, a) = block-none→ (arr entries) action key h in
        (Searched-none entries key true k, Searched-none entries action true a),
    λ (k, a).
        block-none← (arr entries) action key (first_match-none (items entries) key true k)
          (first_match-none (items entries) action true a),
  )

  -- A block entry that stops the bare action stops it on every resource: naming one never weakens
  -- the block list.
  pub find_block_match-resource :
      (patterns : Value) (action : Text) (resource : Option Text) {matched : Text}
      → find_block_match casefold patterns action action ≡ some matched
      → (m : Text) × (find_block_match casefold patterns action (request_key action resource)
          ≡ some m)
  find_block_match-resource patterns action resource {matched} h =
      elim (Option-cases
        (find_block_match casefold patterns action (request_key action resource))) [
          | inr found ↦ found
          | inl e ↦
              let (_, a) = block-none→ patterns action (request_key action resource) e in
              absurd (cc (h, block-none← patterns action action a a))
        ]
