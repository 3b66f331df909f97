-- ===== src/Matching/Overlap.antt =====
-- `patterns_can_overlap` decides exactly whether two wildcard patterns share a request key.
use mathlib.Core.List.{nil≢cons, head-eq_of_cons-eq, tail-eq_of_cons-eq}
use hlinor_agent_registry.Prelude.{
  ℕ, ◌≡◌, refl, ap, ◌↔◌, ◌⊎◌, inl, inr, true, false, ◌||◌, List, [], ◌∷◌, map, arith, ◌==◌, all,
  Text, or_left, or_right, Bool-cases,
}
use hlinor_agent_registry.Fnmatch.{Token, star, accepts}
use hlinor_agent_registry.Fnmatch.Language.{Matches, char, leave, take, fnmatchcase_iff}
use hlinor_agent_registry.Matching.{walk, patterns_can_overlap, matches}
use hlinor_agent_registry.Matching.Wildcards.{
  walk_chars, walk_left_star, walk_right_star, wild, NoBracket, translate-wild, wild-star,
  walk→Shared,
}

not_single : {t : Token} (c : ℕ) → t ≡ star → accepts t c ≡ true → ⊥
unfolding accepts
not_single c h k = cc (ap (λ u. accepts u c) h)

-- What a derivation at a known token says.
star_inv :
    {t : Token} {p : List Token} {s : Text}
    → t ≡ star
    → Matches (t ∷ p) s
    → Matches p s ⊎ ((c : ℕ) × (rest : Text) × (s ≡ c ∷ rest) × Matches (t ∷ p) rest)
star_inv h (char {c} k d) = absurd (not_single c h k)
star_inv h (leave d) = inl d
star_inv h (take {c} {s} d) = inr (c, s, refl, d)

char_inv :
    {t : Token} {p : List Token} {s : Text}
    → (t ≡ star → ⊥)
    → Matches (t ∷ p) s
    → (c : ℕ) × (rest : Text) × (s ≡ c ∷ rest) × (accepts t c ≡ true) × Matches p rest
char_inv n (char {c} {s} k d) = (c, s, refl, k, d)
char_inv n (leave d) = absurd (n refl)
char_inv n (take d) = absurd (n refl)

wild_not_star : (c : ℕ) → (c == b'*') ≡ false → wild c ≡ star → ⊥
wild_not_star c h e = ground arith

module _ {t : Token} {p : List Token} where
  star_nil : t ≡ star → Matches (t ∷ p) [] → Matches p []
  star_nil h d = elim (star_inv h d) [ inl m ↦ m | inr (c, rest, e, m) ↦ absurd (nil≢cons e) ]

  star_cons :
      {c : ℕ} {s : Text}
      → t ≡ star
      → Matches (t ∷ p) (c ∷ s)
      → Matches p (c ∷ s) ⊎ Matches (t ∷ p) s
  star_cons h d = elim (star_inv h d) [
    | inl m ↦ inl m
    | inr (c', rest, e, m) ↦ inr (rw (tail-eq_of_cons-eq e) m)
  ]

  char_nil : (t ≡ star → ⊥) → Matches (t ∷ p) [] → ⊥
  char_nil n d = let (c, rest, e, _, _) = char_inv n d in nil≢cons e

  char_cons :
      {c : ℕ} {s : Text}
      → (t ≡ star → ⊥)
      → Matches (t ∷ p) (c ∷ s)
      → (accepts t c ≡ true) × Matches p s
  char_cons n d =
      let (c', rest, e, k, m) = char_inv n d in
      (rw (head-eq_of_cons-eq e) k, rw (tail-eq_of_cons-eq e) m)

stars-Matches : (p : Text) → Matches (map wild p) [] → all (λ c. c == b'*') p ≡ true
stars-Matches [] d = refl
stars-Matches (c ∷ p) d = elim (Bool-cases (c == b'*')) [
  | inl s ↦ rw s (stars-Matches p (star_nil (wild-star c s) d))
  | inr o ↦ absurd (char_nil (wild_not_star c o) d)
]

-- Two characters that accept one value agree, or one of them is `?`.
wild_agree :
    (a b c : ℕ)
    → (a == b'*') ≡ false
    → (b == b'*') ≡ false
    → accepts (wild a) c ≡ true
    → accepts (wild b) c ≡ true
    → (a == b'?' || b == b'?' || a == b) ≡ true
unfolding accepts
wild_agree a b c ha hb ka kb = ground arith

module _ (a b : ℕ) (l r : Text) where
  walk_both :
      (c : ℕ) (k : Text)
      → (a == b'*') ≡ false
      → (b == b'*') ≡ false
      → (Matches (map wild l) k → Matches (map wild r) k → walk l r ≡ true)
      → Matches (wild a ∷ map wild l) (c ∷ k)
      → Matches (wild b ∷ map wild r) (c ∷ k)
      → walk (a ∷ l) (b ∷ r) ≡ true
  walk_both c k o o' ih d e =
      let (ka, d') = char_cons (wild_not_star a o) d in
      let (kb, e') = char_cons (wild_not_star b o') e in
      rw (walk_chars a b l r o o', wild_agree a b c o o' ka kb) (ih d' e')

  walk_nil :
      (Matches (map wild l) [] → Matches (wild b ∷ map wild r) [] → walk l (b ∷ r) ≡ true)
      → Matches (wild a ∷ map wild l) []
      → Matches (wild b ∷ map wild r) []
      → walk (a ∷ l) (b ∷ r) ≡ true
  walk_nil ih d e = elim (Bool-cases (a == b'*')) [
    | inl s ↦ rw (walk_left_star a b l r s) (or_left _ _ (ih (star_nil (wild-star a s) d) e))
    | inr o ↦ absurd (char_nil (wild_not_star a o) d)
  ]

  module _ (c : ℕ) (k : Text)
      (ihl : (key : Text)
        → Matches (map wild l) key
        → Matches (wild b ∷ map wild r) key
        → walk l (b ∷ r) ≡ true)
      (ihr : (key : Text)
        → Matches (wild a ∷ map wild l) key
        → Matches (map wild r) key
        → walk (a ∷ l) r ≡ true)
      (ihb : (key : Text) → Matches (map wild l) key → Matches (map wild r) key → walk l r ≡ true)
      (ihk : Matches (wild a ∷ map wild l) k
        → Matches (wild b ∷ map wild r) k
        → walk (a ∷ l) (b ∷ r) ≡ true)
      (d : Matches (wild a ∷ map wild l) (c ∷ k)) (e : Matches (wild b ∷ map wild r) (c ∷ k)) where
    -- The left star takes the character `c`.
    walk_take_left :
        (a == b'*') ≡ true → Matches (wild a ∷ map wild l) k → walk (a ∷ l) (b ∷ r) ≡ true
    walk_take_left s d' = elim (Bool-cases (b == b'*')) [
      | inl s' ↦ elim (star_cons (wild-star b s') e) [
        | inl e' ↦ rw (walk_left_star a b l r s) (or_right _ _ (ihr (c ∷ k) d e'))
        | inr e' ↦ ihk d' e'
      ]
      | inr o' ↦
          rw (walk_left_star a b l r s)
            (or_right _ _ (ihr k d' (char_cons (wild_not_star b o') e).1))
    ]

    walk_take_right : (a == b'*') ≡ false → (b == b'*') ≡ true → walk (a ∷ l) (b ∷ r) ≡ true
    walk_take_right o s = rw (walk_right_star a b l r o s) (elim (star_cons (wild-star b s) e) [
      | inl e' ↦ or_left _ _ (ihr (c ∷ k) d e')
      | inr e' ↦ or_right _ _ (ihl k (char_cons (wild_not_star a o) d).1 e')
    ])

    walk_cons : walk (a ∷ l) (b ∷ r) ≡ true
    walk_cons = elim (Bool-cases (a == b'*')) [
      | inl s ↦ elim (star_cons (wild-star a s) d) [
        | inl d' ↦ rw (walk_left_star a b l r s) (or_left _ _ (ihl (c ∷ k) d' e))
        | inr d' ↦ walk_take_left s d'
      ]
      | inr o ↦ elim (Bool-cases (b == b'*')) [
        | inl s ↦ walk_take_right o s
        | inr o' ↦ walk_both c k o o' (ihb k) d e
      ]
    ]

Shared→walk : (l r k : Text) → Matches (map wild l) k → Matches (map wild r) k → walk l r ≡ true
unfolding walk
Shared→walk [] r [] d e = stars-Matches r e
Shared→walk [] r (c ∷ k) d e = elim d [ ]
Shared→walk (a ∷ l) [] [] d e = stars-Matches (a ∷ l) d
Shared→walk (a ∷ l) [] (c ∷ k) d e = elim e [ ]
Shared→walk (a ∷ l) (b ∷ r) [] d e = walk_nil a b l r (Shared→walk l (b ∷ r) []) d e
Shared→walk (a ∷ l) (b ∷ r) (c ∷ k) d e =
    walk_cons a b l r c k (Shared→walk l (b ∷ r)) (Shared→walk (a ∷ l) r) (Shared→walk l r)
      (Shared→walk (a ∷ l) (b ∷ r) k) d e

-- For patterns with no bracket, `patterns_can_overlap` answers true exactly when some request key
-- is matched by both patterns, letters compared as they are written.
pub patterns_can_overlap_iff :
    (casefold : Text → Text) (left right : Text)
    → NoBracket left
    → NoBracket right
    → (patterns_can_overlap left right ≡ true) ↔ (
        (key : Text) × (matches casefold left key false ≡ true)
        × (matches casefold right key false ≡ true))
unfolding patterns_can_overlap matches
patterns_can_overlap_iff casefold left right hl hr = (
  λ h.
      let (key, d, e) = walk→Shared left right h in
      (
        key,
        (fnmatchcase_iff key left).1 (rw (translate-wild left hl) d),
        (fnmatchcase_iff key right).1 (rw (translate-wild right hr) e),
      ),
  λ (key, d, e).
      Shared→walk left right key (rw (translate-wild left hl) at (fnmatchcase_iff key left).0 d)
        (rw (translate-wild right hr) at (fnmatchcase_iff key right).0 e),
)
