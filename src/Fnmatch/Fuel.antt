-- ===== src/Fnmatch/Fuel.antt =====
-- The length of a pattern is fuel enough to read its tokens.
use hlinor_agent_registry.Prelude.{
  ℕ, zero, suc, ◌≤◌, ◌≡◌, refl, ap, inl, inr, Option, none, some, [], ◌∷◌, arith, ◌==◌, length,
  Text, Bool-cases, Option-cases,
}
use hlinor_agent_registry.Fnmatch.{
  until_close, prepend, first_member, bracket_body, next_token, tokens,
}

-- What follows the bracket is no longer than the text.
abbrev IsShort : Text → Option (Text × Text) → Type 0
IsShort s none = Unit
IsShort s (some (body, rest)) = length rest ≤ length s

prepend-IsShort :
    (c : ℕ) (s : Text) (m : Option (Text × Text)) → IsShort s m → IsShort (c ∷ s) (prepend c m)
prepend-IsShort c s none h = tt
prepend-IsShort c s (some (body, rest)) h = omega (arith, h)

until_close-IsShort : (s : Text) → IsShort s (until_close s)
unfolding until_close
until_close-IsShort [] = tt
until_close-IsShort (c ∷ s) = elim (Bool-cases (c == b']')) [
  | inl close ↦ rw (close, until_close) (omega arith)
  | inr more ↦
      let h = until_close-IsShort s in
      elim (Option-cases (until_close s)) [
        | inl e ↦ rw (more, e, until_close) tt
        | inr ((body, rest), e) ↦
            let k : length rest ≤ length s = rw e at h in
            rw (more, e, until_close) (omega (arith, k))
      ]
]

first_member-IsShort : (s : Text) → IsShort s (first_member s)
unfolding first_member until_close
first_member-IsShort [] = tt
first_member-IsShort (c ∷ s) = elim (Bool-cases (c == b']')) [
  | inl close ↦ rw close (prepend-IsShort c s (until_close s) (until_close-IsShort s))
  | inr more ↦
      let k = until_close-IsShort (c ∷ s) in rw (more, until_close) (rw (more, until_close) at k)
]

bracket_body-IsShort : (s : Text) → IsShort s (bracket_body s)
unfolding bracket_body
bracket_body-IsShort [] = tt
bracket_body-IsShort (c ∷ s) = elim (Bool-cases (c == b'!')) [
  | inl negated ↦ rw negated (prepend-IsShort c s (first_member s) (first_member-IsShort s))
  | inr plain ↦ rw plain (first_member-IsShort (c ∷ s))
]

next_token-le : (c : ℕ) (rest : Text) → length (next_token c rest).1 ≤ length rest
unfolding next_token
next_token-le c rest =
    let h = bracket_body-IsShort rest in
    elim (Option-cases (bracket_body rest)) [
      | inl e ↦ rw (e, next_token) (ground arith)
      | inr ((body, after), e) ↦
          let k : length after ≤ length rest = rw e at h in rw (e, next_token) (ground (arith, k))
    ]

-- Any fuel of at least the length of a pattern gives the same tokens.
pub tokens-enough :
    (fuel more : ℕ) (p : Text) → length p ≤ fuel → length p ≤ more → tokens fuel p ≡ tokens more p
unfolding tokens
tokens-enough fuel more [] h k = refl
tokens-enough zero more (c ∷ rest) h k = absurd (omega (arith, h))
tokens-enough (suc fuel) zero (c ∷ rest) h k = absurd (omega (arith, k))
tokens-enough (suc fuel) (suc more) (c ∷ rest) h k = ap (◌∷◌ (next_token c rest).0) (
    tokens-enough fuel more (next_token c rest).1 (omega (arith, h, next_token-le c rest))
      (omega (arith, k, next_token-le c rest)))
