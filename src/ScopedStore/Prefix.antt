-- ===== src/ScopedStore/Prefix.antt =====
-- Which records the listing of hlinor_registry/scoped_store.py shows, and in which order.
use hlinor_agent_registry.Prelude.{
  IsSorted, sort_by-In, sort_by-IsSorted, text_leb-total, text_leb_trans, ℕ, Bool, true, false,
  ◌&&◌, ◌||◌, ◌≡◌, ◌↔◌, inl, inr, refl, sym, ap, ◌∙◌, and_elim, Option, some, List, [], ◌∷◌, ◌++◌,
  if◌then◌else◌, ◌==◌, ==_iff, any, keep, is_empty, In, keep-In, Text, str, ok, Bool-cases,
  or_right, arith,
}
use hlinor_agent_registry.ExecutionScope.{ExecutionScope}
use hlinor_agent_registry.ScopedStore.{
  WorkspaceRow, ScopedStore, Surroundings, Json, store_text, in_scope,
}
use hlinor_agent_registry.Filtering.{In-keep}
use hlinor_agent_registry.ScopedStore.Addresses.{in_scope_iff}
use hlinor_agent_registry.ScopedStore.Listing.{
  suffixes, until_nul, sql_like, meets_one, is_letter, like, replace, prefix_pattern, listed_prefix,
  is_listed, key_order, listed_rows, records_of, list_records,
}

-- A key begins with a prefix, the case of ASCII letters aside.
abbrev pub begins_with : Text → Text → Bool
begins_with [] s = true
begins_with (c ∷ p) [] = false
begins_with (c ∷ p) (d ∷ s) = is_letter c d && begins_with p s

-- Two texts that are the same, the case of ASCII letters aside.
abbrev pub same_letters : Text → Text → Bool
same_letters [] s = is_empty s
same_letters (c ∷ p) [] = false
same_letters (c ∷ p) (d ∷ s) = is_letter c d && same_letters p s

-- A key that a prefix lists, both of them read up to their first U+0000: one that begins with the prefix,
-- or, where the prefix goes on behind that character, one that is the same.
abbrev pub shows : Text → Text → Bool
shows prefix key =
    if any (λ (c : ℕ). c == 0) prefix
    then same_letters (until_nul prefix) (until_nul key)
    else begins_with prefix (until_nul key)

abbrev is_special : ℕ → Bool
is_special c = c == b'%' || c == b'\\' || c == b'_'

-- A character of the pattern as a prefix is written into it.
abbrev escaped : ℕ → Text → Text
escaped c rest = if is_special c then b'\\' ∷ c ∷ rest else c ∷ rest

abbrev nested : Text → Text
nested prefix =
    replace b'_' (b'\\' ∷ b'_' ∷ [])
      (replace b'%' (b'\\' ∷ b'%' ∷ []) (replace b'\\' (b'\\' ∷ b'\\' ∷ []) prefix))

nested-cons : (c : ℕ) (s : Text) → nested (c ∷ s) ≡ escaped c (nested s)
unfolding replace
nested-cons c s = elim (Bool-cases (c == b'\\')) [
  | inl slash ↦ rw ((==_iff c b'\\').0 slash) refl
  | inr no_slash ↦ elim (Bool-cases (c == b'%')) [
    | inl percent ↦ rw ((==_iff c b'%').0 percent) refl
    | inr no_percent ↦ elim (Bool-cases (c == b'_')) [
      | inl under ↦ rw ((==_iff c b'_').0 under) refl
      | inr no_under ↦ rw (no_slash, replace, no_percent, replace, no_under)
    ]
  ]
]

like-letter :
    (c : ℕ) (t s : Text)
    → is_special c ≡ false
    → like (c ∷ t) s ≡ meets_one (is_letter c) (like t) s
unfolding like
like-letter c [] s h = ground arith
like-letter c (q ∷ t) s h = ground arith

like-escaped : (c : ℕ) (t s : Text) → like (escaped c t) s ≡ meets_one (is_letter c) (like t) s
unfolding like
like-escaped c t s = elim (Bool-cases (is_special c)) [
  | inl special ↦ rw special refl
  | inr plain ↦ rw plain (like-letter c t s plain)
]

any-suffix : (s : Text) → any (like []) (suffixes s) ≡ true
unfolding like suffixes
any-suffix [] = refl
any-suffix (c ∷ s) = or_right (like [] (c ∷ s)) _ (any-suffix s)

escaped-append : (c : ℕ) (t u : Text) → escaped c t ++ u ≡ escaped c (t ++ u)
escaped-append c t u = elim (Bool-cases (is_special c)) [
  | inl special ↦ rw special refl
  | inr plain ↦ rw plain refl
]

prefix_pattern-cons : (c : ℕ) (p : Text) → prefix_pattern (c ∷ p) ≡ escaped c (prefix_pattern p)
unfolding prefix_pattern
prefix_pattern-cons c p =
    ap (λ (t : Text). t ++ b'%' ∷ []) (nested-cons c p) ∙ escaped-append c (nested p) (b'%' ∷ [])

until_nul-escaped :
    (c : ℕ) (t : Text) → (c == 0) ≡ false → until_nul (escaped c t) ≡ escaped c (until_nul t)
unfolding until_nul
until_nul-escaped c t h = elim (Bool-cases (is_special c)) [
  | inl special ↦ rw (special, h) refl
  | inr plain ↦ rw (plain, h) refl
]

nul_ends : (t : Text) → until_nul (escaped 0 t) ≡ []
unfolding until_nul
nul_ends t = refl

-- The pattern of a prefix, read up to its first U+0000, along a text.
met_by : (p s : Text) → Bool
met_by [] s = true
met_by (c ∷ p) s = if c == 0 then is_empty s else meets_one (is_letter c) (met_by p) s

like-nothing : (s : Text) → like [] s ≡ is_empty s
unfolding like is_empty
like-nothing [] = refl
like-nothing (c ∷ s) = refl

like-percent : (s : Text) → like (until_nul (prefix_pattern [])) s ≡ true
unfolding like prefix_pattern until_nul
like-percent s = any-suffix s

meets_one-cong :
    (test : ℕ → Bool) (f g : Text → Bool) (s : Text)
    → ((t : Text) → f t ≡ g t)
    → meets_one test f s ≡ meets_one test g s
meets_one-cong test f g [] h = refl
meets_one-cong test f g (c ∷ s) h = ap (λ (b : Bool). test c && b) (h s)

like-met_by : (p s : Text) → like (until_nul (prefix_pattern p)) s ≡ met_by p s
unfolding met_by
like-met_by [] s = like-percent s
like-met_by (c ∷ p) s = elim (Bool-cases (c == 0)) [
  | inl nul ↦
      let zeroth : c ≡ 0 = (==_iff c 0).0 nul in
      ap (λ (t : Text). like (until_nul t) s) (prefix_pattern-cons c p)
      ∙ ap (λ (d : ℕ). like (until_nul (escaped d (prefix_pattern p))) s) zeroth
      ∙ ap (λ (t : Text). like t s) (nul_ends (prefix_pattern p))
      ∙ like-nothing s
      ∙ (rw nul refl)
  | inr plain ↦
      ap (λ (t : Text). like (until_nul t) s) (prefix_pattern-cons c p)
      ∙ ap (λ (t : Text). like t s) (until_nul-escaped c (prefix_pattern p) plain)
      ∙ like-escaped c (until_nul (prefix_pattern p)) s
      ∙ meets_one-cong (is_letter c) _ (met_by p) s (like-met_by p)
      ∙ (rw plain refl)
]

met_by-shows :
    (p s : Text)
    → met_by p s
      ≡ (if any (λ (c : ℕ). c == 0) p then same_letters (until_nul p) s else begins_with p s)
unfolding met_by until_nul is_empty
met_by-shows [] s = refl
met_by-shows (c ∷ p) [] = ground arith
met_by-shows (c ∷ p) (d ∷ s) = ground (arith, met_by-shows p s)

-- The pattern of a prefix is met by the keys that the prefix shows, whatever its characters are.
sql_like-prefix_pattern : (p s : Text) → sql_like (prefix_pattern p) s ≡ shows p s
sql_like-prefix_pattern p s = like-met_by p (until_nul s) ∙ met_by-shows p (until_nul s)

-- The rows that a listing of a scope with a prefix shows.
abbrev pub IsListed : ExecutionScope → Text → WorkspaceRow → Type 0
IsListed s prefix r =
    (r.project_id ≡ s.project_id)
    × (r.workspace_id ≡ s.workspace_id)
    × (shows prefix r.record_key ≡ true)

is_listed-IsListed :
    (s : ExecutionScope) (prefix : Text) (r : WorkspaceRow)
    → (is_listed s (some prefix) r ≡ true) ↔ IsListed s prefix r
is_listed-IsListed s prefix r =
    let (into, back) = in_scope_iff s r.project_id r.workspace_id in
    let same = sql_like-prefix_pattern prefix r.record_key in
    (
      λ h.
          let (place, key) =
            and_elim (in_scope s r.project_id r.workspace_id)
              (sql_like (prefix_pattern prefix) r.record_key) h in
          let (p, w) = into place in (p, w, sym same ∙ key),
      λ (p, w, key). rw (back (p, w), same, key) refl,
    )

listed_rows-In :
    (s : ExecutionScope) (prefix : Text) (r : WorkspaceRow) (rows : List WorkspaceRow)
    → In r (listed_rows s (some prefix) rows) ↔ (In r rows × IsListed s prefix r)
unfolding listed_rows
listed_rows-In s prefix r rows =
    let (to_kept, from_kept) = sort_by-In key_order r (keep (is_listed s (some prefix)) rows) in
    let (to_listed, from_listed) = is_listed-IsListed s prefix r in
    (
      λ h.
          let (there, test) = keep-In (is_listed s (some prefix)) r rows (to_kept h) in
          (there, to_listed test),
      λ h. from_kept (In-keep _ r rows h.0 (from_listed h.1)),
    )

listed_rows-IsSorted :
    (s : ExecutionScope) (prefix : Option Text) (rows : List WorkspaceRow)
    → IsSorted key_order (listed_rows s prefix rows)
unfolding listed_rows
listed_rows-IsSorted s prefix rows =
    sort_by-IsSorted key_order (λ x y. text_leb-total x.record_key y.record_key)
      (λ x y z. text_leb_trans x.record_key y.record_key z.record_key)
      (keep (is_listed s prefix) rows)

-- Of an open store whose database answers, a listing by a valid prefix returns, in the order of their
-- keys, the records of exactly the rows of its own scope whose key, read up to its first U+0000, begins
-- with the prefix up to the case of ASCII letters; or, where the prefix has that character, is what stands
-- before it in the prefix, up to the case of ASCII letters.
pub list_records-IsListed :
    (json : Json) (env : Surroundings) (s : ExecutionScope) (prefix : Text) (store : ScopedStore)
    → store_text (str prefix) ≡ ok prefix
    → store.is_closed ≡ false
    → env.available ≡ true
    → (rows : List WorkspaceRow) × (list_records json env s (str prefix) store
        ≡ records_of json rows)
      × IsSorted key_order rows
      × ((r : WorkspaceRow) → In r rows ↔ (In r store.workspace_records × IsListed s prefix r))
unfolding list_records listed_prefix
list_records-IsListed json env s prefix store valid open_store up = (
  listed_rows s (some prefix) store.workspace_records,
  rw (valid, open_store, up, list_records, listed_prefix) refl,
  listed_rows-IsSorted s (some prefix) store.workspace_records,
  λ r. listed_rows-In s prefix r store.workspace_records,
)
