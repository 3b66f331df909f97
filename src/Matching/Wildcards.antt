-- ===== src/Matching/Wildcards.antt =====
-- Patterns of stars and question marks as tokens, and that the walk finds a text that both sides match.
use hlinor_agent_registry.Prelude.{
  ℕ, suc, zero, ◌≤◌, ◌≡◌, refl, ap, ◌⊎◌, inl, inr, true, false, ◌||◌, ◌&&◌, List, [], ◌∷◌, map,
  arith, ◌==◌, if◌then◌else◌, all, length, Text, and_elim, or_elim, Bool-cases,
}
use hlinor_agent_registry.Fnmatch.{
  Token, star, any_char, literal, accepts, tokens, next_token, translate,
}
use hlinor_agent_registry.Fnmatch.Language.{Matches, done, char, leave, take}
use hlinor_agent_registry.Matching.{walk}

-- The token of a character outside brackets.
abbrev pub wild : ℕ → Token
wild c = if c == b'*' then star else if c == b'?' then any_char else literal c

-- No character of the pattern opens a bracket, as in every pattern that the linter accepts.
abbrev pub NoBracket : Text → Type 0
NoBracket [] = Unit
NoBracket (c ∷ p) = ((c == b'[') ≡ false) × NoBracket p

next_token-wild : (c : ℕ) (rest : Text) → (c == b'[') ≡ false → next_token c rest ≡ (wild c, rest)
unfolding next_token
next_token-wild c rest h = ground arith

tokens-wild : (fuel : ℕ) (p : Text) → length p ≤ fuel → NoBracket p → tokens fuel p ≡ map wild p
unfolding tokens
tokens-wild zero [] h n = refl
tokens-wild (suc fuel) [] h n = refl
tokens-wild zero (c ∷ p) h n = absurd (omega arith)
tokens-wild (suc fuel) (c ∷ p) h n =
    rw (next_token-wild c p n.0) (ap (◌∷◌ (wild c)) (tokens-wild fuel p (omega arith) n.1))

pub translate-wild : (p : Text) → NoBracket p → translate p ≡ map wild p
unfolding translate
translate-wild p n = tokens-wild (length p) p (omega arith) n

pub wild-star : (c : ℕ) → (c == b'*') ≡ true → wild c ≡ star
wild-star c h = rw h

-- A character that is no star stands for itself, and `?` for every character.
accepts-wild_self : (c : ℕ) → (c == b'*') ≡ false → accepts (wild c) c ≡ true
unfolding accepts
accepts-wild_self c h = ground arith

accepts-wild_any : (c d : ℕ) → (c == b'?') ≡ true → accepts (wild c) d ≡ true
unfolding accepts
accepts-wild_any c d h = ground arith

wild-accepts_eq : (c d : ℕ) → (c == b'?') ≡ false → accepts (wild c) d ≡ true → d ≡ c
unfolding accepts
wild-accepts_eq c d h k = ground arith

-- Some text is matched by both.
abbrev Shared : List Token → List Token → Type 0
Shared p q = (key : Text) × Matches p key × Matches q key

Shared-swap : {p q : List Token} → Shared p q → Shared q p
Shared-swap (k, d, e) = (k, e, d)

Shared-leave : {t : Token} {p q : List Token} → t ≡ star → Shared p q → Shared (t ∷ p) q
Shared-leave h (k, d, e) = (k, rw h (leave d), e)

-- A star on the left takes whatever the next character of the right produces.
Shared-take :
    {t : Token} {p q : List Token} (b : ℕ)
    → t ≡ star
    → Shared (t ∷ p) q
    → Shared (t ∷ p) (wild b ∷ q)
Shared-take {t} {p} b h (k, d, e) = elim (Bool-cases (b == b'*')) [
  | inl s ↦ (k, d, rw (wild-star b s) (leave e))
  | inr o ↦ (b ∷ k, rw h (take (rw h at d)), char (accepts-wild_self b o) e)
]

Shared-char :
    {p q : List Token} (c a b : ℕ)
    → accepts (wild a) c ≡ true
    → accepts (wild b) c ≡ true
    → Shared p q
    → Shared (wild a ∷ p) (wild b ∷ q)
Shared-char c a b ha hb (k, d, e) = (c ∷ k, char ha d, char hb e)

-- Two characters that are no stars share a value where the walk goes on.
Shared-one :
    {p q : List Token} (a b : ℕ)
    → (a == b'*') ≡ false
    → (b == b'*') ≡ false
    → (((a == b'?') || (b == b'?')) ≡ true) ⊎ (a ≡ b)
    → Shared p q
    → Shared (wild a ∷ p) (wild b ∷ q)
Shared-one a b ha hb (inl w) s = elim (or_elim (a == b'?') (b == b'?') w) [
  | inl h ↦ Shared-char b a b (accepts-wild_any a b h) (accepts-wild_self b hb) s
  | inr h ↦ Shared-char a a b (accepts-wild_self a ha) (accepts-wild_any b a h) s
]
Shared-one a b ha hb (inr e) s =
    Shared-char a a b (accepts-wild_self a ha) (rw (← e) (accepts-wild_self a ha)) s

Matches-stars : (p : Text) → all (λ c. c == b'*') p ≡ true → Matches (map wild p) []
Matches-stars [] h = done
Matches-stars (c ∷ p) h =
    let (here, rest) = and_elim (c == b'*') (all (λ d. d == b'*') p) h in
    rw (wild-star c here) (leave (Matches-stars p rest))

module _ (a b : ℕ) (l r : Text) where
  pub walk_left_star :
      (a == b'*') ≡ true → walk (a ∷ l) (b ∷ r) ≡ (walk l (b ∷ r) || walk (a ∷ l) r)
  unfolding walk
  walk_left_star h = rw h

  pub walk_right_star :
      (a == b'*') ≡ false
      → (b == b'*') ≡ true
      → walk (a ∷ l) (b ∷ r) ≡ (walk (a ∷ l) r || walk l (b ∷ r))
  unfolding walk
  walk_right_star h k = rw (h, k)

  pub walk_chars :
      (a == b'*') ≡ false
      → (b == b'*') ≡ false
      → walk (a ∷ l) (b ∷ r) ≡ ((a == b'?' || b == b'?' || a == b) && walk l r)
  unfolding walk
  walk_chars h k = ground arith

  -- One round of the walk, its three continuations given.
  walk_step :
      (walk l (b ∷ r) ≡ true → Shared (map wild l) (map wild (b ∷ r)))
      → (walk (a ∷ l) r ≡ true → Shared (map wild (a ∷ l)) (map wild r))
      → (walk l r ≡ true → Shared (map wild l) (map wild r))
      → walk (a ∷ l) (b ∷ r) ≡ true
      → Shared (map wild (a ∷ l)) (map wild (b ∷ r))
  walk_step skip_left skip_right skip_both h = elim (Bool-cases (a == b'*')) [
    | inl s ↦ elim (or_elim (walk l (b ∷ r)) (walk (a ∷ l) r) (rw (walk_left_star s) at h)) [
      | inl w ↦ Shared-leave (wild-star a s) (skip_left w)
      | inr w ↦ Shared-take b (wild-star a s) (skip_right w)
    ]
    | inr o ↦ elim (Bool-cases (b == b'*')) [
      | inl s ↦ elim (or_elim (walk (a ∷ l) r) (walk l (b ∷ r)) (rw (walk_right_star o s) at h)) [
        | inl w ↦ Shared-swap (Shared-leave (wild-star b s) (Shared-swap (skip_right w)))
        | inr w ↦ Shared-swap (Shared-take a (wild-star b s) (Shared-swap (skip_left w)))
      ]
      | inr o' ↦
          Shared-one a b o o' (ground (arith, walk_chars o o'))
            (skip_both (ground (arith, walk_chars o o')))
    ]
  ]

pub walk→Shared : (l r : Text) → walk l r ≡ true → Shared (map wild l) (map wild r)
unfolding walk
walk→Shared [] r h = ([], done, Matches-stars r h)
walk→Shared (a ∷ l) [] h = ([], Matches-stars (a ∷ l) h, done)
walk→Shared (a ∷ l) (b ∷ r) h =
    walk_step a b l r (walk→Shared l (b ∷ r)) (walk→Shared (a ∷ l) r) (walk→Shared l r) h
