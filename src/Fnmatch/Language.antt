-- ===== src/Fnmatch/Language.antt =====
-- The texts that a list of tokens stands for, with no search order in it; `glob` decides them.
use hlinor_agent_registry.Prelude.{
  ℕ, ◌≡◌, refl, ◌↔◌, Bool, true, List, [], ◌∷◌, arith, Text, and_elim, or_elim, or_left, or_right,
  inl, inr,
}
use hlinor_agent_registry.Fnmatch.{
  Token, star, any_char, literal, bracket, accepts, any_suffix, glob, one_char, translate,
  fnmatchcase,
}

pub data Matches : List Token → Text → Type 0 where
  done : Matches [] []
  char :
      {t : Token} {c : ℕ} {p : List Token} {s : Text}
      → accepts t c ≡ true
      → Matches p s
      → Matches (t ∷ p) (c ∷ s)
  leave : {p : List Token} {s : Text} → Matches p s → Matches (star ∷ p) s
  take : {c : ℕ} {p : List Token} {s : Text} → Matches (star ∷ p) s → Matches (star ∷ p) (c ∷ s)

one_char→Matches :
    (t : Token) (p : List Token) (s : Text)
    → ((r : Text) → glob p r ≡ true → Matches p r)
    → one_char t (glob p) s ≡ true
    → Matches (t ∷ p) s
one_char→Matches t p [] ih h = cc
one_char→Matches t p (c ∷ s) ih h =
    let (here, rest) = and_elim (accepts t c) (glob p s) h in char here (ih s rest)

any_suffix→Matches :
    (p : List Token) (s : Text)
    → ((r : Text) → glob p r ≡ true → Matches p r)
    → any_suffix (glob p) s ≡ true
    → Matches (star ∷ p) s
unfolding any_suffix
any_suffix→Matches p [] ih h = leave (ih [] h)
any_suffix→Matches p (c ∷ s) ih h = elim (or_elim (glob p (c ∷ s)) (any_suffix (glob p) s) h) [
  | inl here ↦ leave (ih (c ∷ s) here)
  | inr later ↦ take (any_suffix→Matches p s ih later)
]

glob→Matches : (p : List Token) (s : Text) → glob p s ≡ true → Matches p s
unfolding glob
glob→Matches [] [] h = done
glob→Matches [] (c ∷ s) h = cc
glob→Matches (star ∷ p) s h = any_suffix→Matches p s (glob→Matches p) h
glob→Matches (any_char ∷ p) s h = one_char→Matches any_char p s (glob→Matches p) h
glob→Matches (literal d ∷ p) s h = one_char→Matches (literal d) p s (glob→Matches p) h
glob→Matches (bracket n ms ∷ p) s h = one_char→Matches (bracket n ms) p s (glob→Matches p) h

-- A character that a token accepts steps both sides, whatever the token.
glob-char :
    (t : Token) (c : ℕ) (p : List Token) (s : Text)
    → accepts t c ≡ true
    → glob p s ≡ true
    → glob (t ∷ p) (c ∷ s) ≡ true
unfolding glob
glob-char star c p s h g = cc
glob-char any_char c p s h g = rw (h, g)
glob-char (literal d) c p s h g = ground arith
glob-char (bracket n ms) c p s h g = rw h g

any_suffix_self : (test : Text → Bool) (s : Text) → test s ≡ true → any_suffix test s ≡ true
unfolding any_suffix
any_suffix_self test [] h = h
any_suffix_self test (c ∷ s) h = or_left (test (c ∷ s)) (any_suffix test s) h

Matches→glob : {p : List Token} {s : Text} → Matches p s → glob p s ≡ true
unfolding glob
Matches→glob done = refl
Matches→glob (char {t} {c} {p} {s} h d) = glob-char t c p s h (Matches→glob d)
Matches→glob (leave {p} {s} d) = any_suffix_self (glob p) s (Matches→glob d)
Matches→glob (take {c} {p} {s} d) =
    or_right (glob p (c ∷ s)) (any_suffix (glob p) s) (Matches→glob d)

-- `glob` answers true exactly on the texts that the tokens stand for.
pub glob_iff : (p : List Token) (s : Text) → (glob p s ≡ true) ↔ Matches p s
glob_iff p s = (glob→Matches p s, Matches→glob)

-- So does `fnmatchcase`, of the pattern that it translates.
pub fnmatchcase_iff :
    (name pattern : Text) → (fnmatchcase name pattern ≡ true) ↔ Matches (translate pattern) name
unfolding fnmatchcase
fnmatchcase_iff name pattern = glob_iff (translate pattern) name
