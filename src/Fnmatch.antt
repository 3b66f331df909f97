-- ===== src/Fnmatch.antt =====
-- `fnmatch.fnmatchcase` of Python's standard library, which hlinor_registry/_matching.py calls:
-- `translate` reads a pattern into tokens, and `glob` runs the tokens over the whole text.
pub mod Language
pub mod Fuel
use hlinor_agent_registry.Prelude.{
  ℕ, zero, suc, ◌+◌, ◌≡◌, refl, Bool, true, false, not, ◌&&◌, ◌||◌, Option, none, some, List, [],
  ◌∷◌, ◌++◌, arith, ◌==◌, leb, ltb, if◌then◌else◌, length, any, keep, Text, codes,
}

-- A member of a bracket: one character, or a range.
pub data Member : Type 0 where
  single : ℕ → Member
  range : ℕ → ℕ → Member

pub data Token : Type 0 where
  star : Token
  any_char : Token
  literal : ℕ → Token
  bracket : Bool → List Member → Token

abbrev member_accepts : ℕ → Member → Bool
member_accepts c (single d) = c == d
member_accepts c (range lo hi) = leb lo c && leb c hi

-- `[!…]` accepts what `[…]` does not.
unfoldable pub accepts : Token → ℕ → Bool
accepts star c = false
accepts any_char c = true
accepts (literal d) c = c == d
accepts (bracket negate members) c =
    if negate then not (any (member_accepts c) members) else any (member_accepts c) members

-- The text of a bracket up to the first `]`, and what follows it.
unfoldable pub until_close : Text → Option (Text × Text)
until_close [] = none
until_close (c ∷ s) =
    if c == b']'
    then some ([], s)
    else elim (until_close s) [ none ↦ none | some (body, rest) ↦ some (c ∷ body, rest) ]

abbrev pub prepend : ℕ → Option (Text × Text) → Option (Text × Text)
prepend c none = none
prepend c (some (body, rest)) = some (c ∷ body, rest)

-- A `]` that stands first in the bracket belongs to it.
unfoldable pub first_member : Text → Option (Text × Text)
unfolding until_close
first_member [] = none
first_member (c ∷ s) = if c == b']' then prepend c (until_close s) else until_close (c ∷ s)

-- So does a `]` that stands right after `!`.
unfoldable pub bracket_body : Text → Option (Text × Text)
unfolding first_member
bracket_body [] = none
bracket_body (c ∷ s) = if c == b'!' then prepend c (first_member s) else first_member (c ∷ s)

-- A hyphen between two characters makes a range of them.
unfoldable pub members : Text → List Member
members [] = []
members (lo ∷ d ∷ hi ∷ rest) =
    let as_range = range lo hi ∷ members rest in
    let as_single = single lo ∷ members (d ∷ hi ∷ rest) in if d == b'-' then as_range else as_single
members (c ∷ rest) = single c ∷ members rest

-- A leading `!` is no member that a hyphen could follow.
unfoldable pub body_members : Text → List Member
unfolding members
body_members [] = []
body_members (c ∷ rest) = if c == b'!' then single c ∷ members rest else members (c ∷ rest)

-- Ranges that run backwards are removed before the regular expression is built.
abbrev is_proper : Member → Bool
is_proper (single c) = true
is_proper (range lo hi) = leb lo hi

-- The negation is read off the members that are left.
abbrev bracket_token : List Member → Token
bracket_token (single c ∷ rest) =
    if c == b'!' then bracket true rest else bracket false (single c ∷ rest)
bracket_token (range lo hi ∷ rest) =
    if lo == b'!'
    then bracket true (single b'-' ∷ single hi ∷ rest)
    else bracket false (range lo hi ∷ rest)
bracket_token [] = bracket false []

-- The token that a pattern begins with, and the rest. A `[` with no `]` is a plain character.
unfoldable pub next_token : ℕ → Text → Token × Text
unfolding bracket_body body_members
next_token c rest =
    if c == b'*'
    then (star, rest)
    else if c == b'?'
    then (any_char, rest)
    else if c == b'['
    then elim (bracket_body rest) [
      | none ↦ (literal c, rest)
      | some (body, after) ↦ (bracket_token (keep is_proper (body_members body)), after)
    ]
    else (literal c, rest)

-- Each round reads at least one character, so the length of the pattern is fuel enough.
unfoldable pub tokens : ℕ → Text → List Token
tokens fuel [] = []
tokens zero (c ∷ rest) = []
tokens (suc fuel) (c ∷ rest) = let (token, after) = next_token c rest in token ∷ tokens fuel after

unfoldable pub translate : Text → List Token
unfolding tokens next_token
translate pattern = tokens (length pattern) pattern

-- The test on some end of the text.
unfoldable pub any_suffix : (Text → Bool) → Text → Bool
any_suffix test [] = test []
any_suffix test (c ∷ s) = test (c ∷ s) || any_suffix test s

abbrev one_char : Token → (Text → Bool) → Text → Bool
one_char t test [] = false
one_char t test (c ∷ s) = accepts t c && test s

abbrev no_more : Text → Bool
no_more [] = true
no_more (c ∷ s) = false

unfoldable pub glob : List Token → Text → Bool
unfolding any_suffix accepts
glob [] s = no_more s
glob (star ∷ p) s = any_suffix (glob p) s
glob (t ∷ p) s = one_char t (glob p) s

unfoldable pub fnmatchcase : Text → Text → Bool
unfolding glob translate
fnmatchcase name pattern = glob (translate pattern) name
