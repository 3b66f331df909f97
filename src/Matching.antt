-- ===== src/Matching.antt =====
-- hlinor_registry/_matching.py: matching an action request against the patterns of an agent.
-- `casefold` stands for `str.casefold`, whose table is Unicode's; it is an argument.
-- The cache of `patterns_can_overlap` only saves repeated work and is left out.
pub mod Wildcards
pub mod Overlap
pub mod Search
pub mod Linter
mod Tests
use hlinor_agent_registry.Prelude.{
  ℕ, Bool, true, false, not, ◌&&◌, ◌||◌, Option, none, some, List, [], ◌∷◌, ◌++◌, ◌==◌,
  if◌then◌else◌, all, any, is_empty, Text, codes, text_eq, strip, is_blank, contains, Value, null,
  bool, int, float, str, arr, obj, items,
}
use hlinor_agent_registry.Fnmatch.{fnmatchcase}

abbrev pub segment_separator : ℕ
segment_separator = b':'

unfoldable pub request_key : Text → Option Text → Text
request_key action none = action
request_key action (some resource) =
    if is_blank resource then action else action ++ segment_separator ∷ resource

pub data PatternError : Type 0 where
  unsupported : Text → PatternError
  surrounding_whitespace empty_pattern : PatternError

abbrev pub unsupported_pattern_tokens : List Text
unsupported_pattern_tokens =
    codes "**" ∷ codes "[" ∷ codes "]" ∷ codes "!" ∷ codes "{" ∷ codes "}" ∷ []

unfoldable pub unsupported_errors : List Text → Text → List PatternError
unsupported_errors [] pattern = []
unsupported_errors (token ∷ rest) pattern =
    if contains token pattern
    then unsupported token ∷ unsupported_errors rest pattern
    else unsupported_errors rest pattern

unfoldable pub pattern_errors : Text → List PatternError
unfolding unsupported_errors
pattern_errors pattern =
    unsupported_errors unsupported_pattern_tokens pattern
    ++ (if text_eq (strip pattern) pattern then [] else surrounding_whitespace ∷ [])
    ++ (if is_blank pattern then empty_pattern ∷ [] else [])

abbrev pub wildcard_characters : List ℕ
wildcard_characters = b'*' ∷ b'?' ∷ []

unfoldable pub is_pattern : Text → Bool
is_pattern value = any (λ character. contains (character ∷ []) value) wildcard_characters

-- The walk over both patterns: some key is matched by what is left of each.
unfoldable pub walk : Text → Text → Bool
walk [] right = all (λ character. character == b'*') right
walk (a ∷ left) [] = all (λ character. character == b'*') (a ∷ left)
walk (a ∷ left) (b ∷ right) =
    let skip_left = walk left (b ∷ right) in
    let skip_right = walk (a ∷ left) right in
    let skip_both = walk left right in
    if a == b'*'
    then skip_left || skip_right
    else if b == b'*'
    then skip_right || skip_left
    else if a == b'?' || b == b'?'
    then skip_both
    else (a == b) && skip_both

unfoldable pub patterns_can_overlap : Text → Text → Bool
unfolding walk
patterns_can_overlap left right = walk left right

-- The blocks beside one allow pattern that the linter reports.
unfoldable pub overlapping_blocks : Text → List Value → List (Text × Text)
overlapping_blocks allow [] = []
overlapping_blocks allow (str block ∷ rest) =
    if not (text_eq block allow) && patterns_can_overlap allow block
    then (allow, block) ∷ overlapping_blocks allow rest
    else overlapping_blocks allow rest
overlapping_blocks allow (_ ∷ rest) = overlapping_blocks allow rest

unfoldable pub overlapping_allow_patterns : List Value → List Value → List (Text × Text)
unfolding overlapping_blocks
overlapping_allow_patterns [] blocked = []
overlapping_allow_patterns (str allow ∷ rest) blocked =
    if is_pattern allow
    then overlapping_blocks allow blocked ++ overlapping_allow_patterns rest blocked
    else overlapping_allow_patterns rest blocked
overlapping_allow_patterns (_ ∷ rest) blocked = overlapping_allow_patterns rest blocked

module _ (casefold : Text → Text) where
  unfoldable pub matches : Text → Text → Bool → Bool
  matches pattern key ignore_case =
      if ignore_case then fnmatchcase (casefold key) (casefold pattern) else fnmatchcase key pattern

  unfoldable pub first_match : List Value → Text → Bool → Option Text
  first_match [] key ignore_case = none
  first_match (str pattern ∷ rest) key ignore_case =
      if matches pattern key ignore_case then some pattern else first_match rest key ignore_case
  first_match (_ ∷ rest) key ignore_case = first_match rest key ignore_case

  unfoldable pub find_match : Value → Text → Bool → Option Text
  unfolding first_match
  find_match (arr patterns) key ignore_case = first_match (items patterns) key ignore_case
  find_match _ key ignore_case = none

  abbrev action_alone : Value → Text → Text → Option Text
  action_alone patterns action key =
      if text_eq key action then none else find_match patterns action true

  unfoldable pub find_block_match : Value → Text → Text → Option Text
  find_block_match patterns action key = elim (find_match patterns key true) [
    | some matched ↦ some matched
    | none ↦ action_alone patterns action key
  ]
