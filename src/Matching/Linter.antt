-- ===== src/Matching/Linter.antt =====
-- The pairs that `overlapping_allow_patterns` reports.
use hlinor_agent_registry.Prelude.{
  ◌≡◌, refl, ap, ◌↔◌, ◌⊎◌, inl, inr, Bool, true, false, not, ◌&&◌, List, [], ◌∷◌, ◌++◌, arith, In,
  Bool-cases, Text, text_eq, Value, str,
}
use hlinor_agent_registry.Matching.{
  is_pattern, patterns_can_overlap, overlapping_blocks, overlapping_allow_patterns,
}

In-append→ : {A : Type 0} (a : A) (xs ys : List A) → In a (xs ++ ys) → In a xs ⊎ In a ys
In-append→ a [] ys h = inr h
In-append→ a (x ∷ xs) ys (inl e) = inl (inl e)
In-append→ a (x ∷ xs) ys (inr h) = elim (In-append→ a xs ys h) [
  | inl l ↦ inl (inr l)
  | inr r ↦ inr r
]

In-append_left : {A : Type 0} (a : A) (xs ys : List A) → In a xs → In a (xs ++ ys)
In-append_left a [] ys h = absurd h
In-append_left a (x ∷ xs) ys (inl e) = inl e
In-append_left a (x ∷ xs) ys (inr h) = inr (In-append_left a xs ys h)

In-append_right : {A : Type 0} (a : A) (xs ys : List A) → In a ys → In a (xs ++ ys)
In-append_right a [] ys h = h
In-append_right a (x ∷ xs) ys h = inr (In-append_right a xs ys h)

-- What one reported pair says.
abbrev Blocks : Text → List Value → Text → Type 0
Blocks allow blocked block =
    In (str block) blocked
    × (text_eq block allow ≡ false)
    × (patterns_can_overlap allow block ≡ true)

-- The condition under which the linter reports a block entry.
abbrev reported : Text → Text → Bool
reported allow block = not (text_eq block allow) && patterns_can_overlap allow block

reported→ :
    (allow block : Text)
    → reported allow block ≡ true
    → (text_eq block allow ≡ false) × (patterns_can_overlap allow block ≡ true)
reported→ allow block h = ground arith

str-injective : (a b : Text) → str a ≡ str b → a ≡ b
str-injective a b e = cc

overlapping_blocks→ :
    (allow a b : Text) (blocked : List Value)
    → In (a, b) (overlapping_blocks allow blocked)
    → (allow ≡ a) × (Blocks allow blocked b)
unfolding overlapping_blocks
overlapping_blocks→ allow a b [] h = absurd h
overlapping_blocks→ allow a b (str c ∷ rest) h = elim (Bool-cases (reported allow c)) [
  | inl r ↦ elim (rw (r, overlapping_blocks) at h) [
    | inl e ↦
        let (ne, over) = reported→ allow c r in
        (
          ap (λ (q : Text × Text). q.0) e,
          rw (← ap (λ (q : Text × Text). q.1) e) (inl refl, ne, over),
        )
    | inr h' ↦
        let (e, block) = overlapping_blocks→ allow a b rest h' in
        (e, (inr block.0, block.1, block.2))
  ]
  | inr r ↦
      let (e, block) = overlapping_blocks→ allow a b rest (rw (r, overlapping_blocks) at h) in
      (e, (inr block.0, block.1, block.2))
]
overlapping_blocks→ allow a b (v ∷ rest) h =
    let (e, block) = overlapping_blocks→ allow a b rest h in (e, (inr block.0, block.1, block.2))

overlapping_blocks← :
    (allow b : Text) (blocked : List Value)
    → Blocks allow blocked b
    → In (allow, b) (overlapping_blocks allow blocked)
unfolding overlapping_blocks
overlapping_blocks← allow b [] h = absurd h.0
overlapping_blocks← allow b (str c ∷ rest) (inl e, ne, over) =
    rw (str-injective c b e, ne, over) (inl refl)
overlapping_blocks← allow b (str c ∷ rest) (inr i, ne, over) =
    elim (Bool-cases (reported allow c)) [
      | inl r ↦ rw (r, overlapping_blocks) (inr (overlapping_blocks← allow b rest (i, ne, over)))
      | inr r ↦ rw (r, overlapping_blocks) (overlapping_blocks← allow b rest (i, ne, over))
    ]
overlapping_blocks← allow b (v ∷ rest) (inl e, ne, over) = cc
overlapping_blocks← allow b (v ∷ rest) (inr i, ne, over) =
    overlapping_blocks← allow b rest (i, ne, over)

-- What one finding says of the two lists.
abbrev pub Finding : Text → Text → List Value → List Value → Type 0
Finding allow block allowed blocked =
    In (str allow) allowed × (is_pattern allow ≡ true) × (Blocks allow blocked block)

Finding-skip :
    (v : Value) (a b : Text) (allowed blocked : List Value)
    → Finding a b allowed blocked
    → Finding a b (v ∷ allowed) blocked
Finding-skip v a b allowed blocked (i, w, h) = (inr i, w, h)

linter→ :
    (a b : Text) (allowed blocked : List Value)
    → In (a, b) (overlapping_allow_patterns allowed blocked)
    → Finding a b allowed blocked
unfolding overlapping_allow_patterns
linter→ a b [] blocked h = absurd h
linter→ a b (str c ∷ rest) blocked h = elim (Bool-cases (is_pattern c)) [
  | inl w ↦
      elim (In-append→ (a, b) (overlapping_blocks c blocked)
        (overlapping_allow_patterns rest blocked) (rw (w, overlapping_allow_patterns) at h)) [
          | inl here ↦
              let (e, block) = overlapping_blocks→ c a b blocked here in
              rw (← e) (inl refl, w, block)
          | inr later ↦ Finding-skip (str c) a b rest blocked (linter→ a b rest blocked later)
        ]
  | inr w ↦
      Finding-skip (str c) a b rest blocked
        (linter→ a b rest blocked (rw (w, overlapping_allow_patterns) at h))
]
linter→ a b (v ∷ rest) blocked h = Finding-skip v a b rest blocked (linter→ a b rest blocked h)

linter← :
    (a b : Text) (allowed blocked : List Value)
    → Finding a b allowed blocked
    → In (a, b) (overlapping_allow_patterns allowed blocked)
unfolding overlapping_allow_patterns
linter← a b [] blocked h = absurd h.0
linter← a b (str c ∷ rest) blocked (inl e, w, block) =
    rw (str-injective c a e, w)
      (In-append_left (a, b) (overlapping_blocks a blocked) _
        (overlapping_blocks← a b blocked block))
linter← a b (str c ∷ rest) blocked (inr i, w, block) = elim (Bool-cases (is_pattern c)) [
  | inl w' ↦
      rw (w', overlapping_allow_patterns)
        (In-append_right (a, b) (overlapping_blocks c blocked) _
          (linter← a b rest blocked (i, w, block)))
  | inr w' ↦ rw (w', overlapping_allow_patterns) (linter← a b rest blocked (i, w, block))
]
linter← a b (v ∷ rest) blocked (inl e, w, block) = cc
linter← a b (v ∷ rest) blocked (inr i, w, block) = linter← a b rest blocked (i, w, block)

-- The linter reports a pair of strings exactly when the first is a wildcard entry of the allow
-- list, the second is another entry of the block list, and the two patterns can overlap.
pub overlapping_allow_patterns_iff :
    (allow block : Text) (allowed blocked : List Value)
    → In (allow, block) (overlapping_allow_patterns allowed blocked)
      ↔ Finding allow block allowed blocked
overlapping_allow_patterns_iff allow block allowed blocked =
    (linter→ allow block allowed blocked, linter← allow block allowed blocked)
