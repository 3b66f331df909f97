-- ===== src/Policies/Clock.antt =====
-- `_parse_timestamp` and `_freshness_error`. Instants are microseconds on one UTC scale, as exact as
-- `datetime`. `datetime.fromisoformat` differs between interpreters and is an argument.
use hlinor_agent_registry.Prelude.{
  ℕ, ◌+◌, ◌≤◌, ◌≡◌, ◌↔◌, Bool, true, false, ◌||◌, Option, none, some, [], ◌∷◌, ◌++◌, arith, ltb,
  ◌==◌, if◌then◌else◌, pos, pos_part, neg_part, Text, codes, strip, is_blank, Value, str, Float,
  micros, minus_infinite,
}

-- A parsed instant: where it lies, and whether the text named a timezone.
pub record Stamp : Type 0 where
  pub instant : ℕ
  pub aware : Bool

-- The last character of a text, and the text before it.
unfoldable pub ends_in_z : Text → Bool
ends_in_z [] = false
ends_in_z (c ∷ []) = c == b'Z' || c == b'z'
ends_in_z (c ∷ s) = ends_in_z s

unfoldable pub drop_last : Text → Text
drop_last [] = []
drop_last (c ∷ []) = []
drop_last (c ∷ s) = c ∷ drop_last s

unfoldable pub with_offset : Text → Text
unfolding ends_in_z drop_last
with_offset text = if ends_in_z text then drop_last text ++ codes "+00:00" else text

abbrev aware_instant : Option Stamp → Option ℕ
aware_instant none = none
aware_instant (some stamp) = if stamp.aware then some stamp.instant else none

module _ (fromisoformat : Text → Option Stamp) where
  unfoldable pub parse_timestamp : Value → Option ℕ
  unfolding with_offset
  parse_timestamp (str value) =
      if is_blank value then none else aware_instant (fromisoformat (with_offset (strip value)))
  parse_timestamp _ = none

-- Thirty seconds.
abbrev pub allowed_clock_skew : ℕ
allowed_clock_skew = 30000000

pub data FreshnessError : Type 0 where
  in_future too_old : FreshnessError

-- `age > max_age_seconds`, where the age is `now - timestamp`
unfoldable pub is_older : ℕ → ℕ → Float → Bool
is_older now timestamp (micros limit) = ltb (timestamp + pos_part limit) (now + neg_part limit)
is_older now timestamp minus_infinite = true
is_older now timestamp _ = false

unfoldable pub freshness_error : ℕ → Float → ℕ → Option FreshnessError
unfolding is_older
freshness_error timestamp max_age now =
    if ltb (now + allowed_clock_skew) timestamp
    then some in_future
    else if is_older now timestamp max_age
    then some too_old
    else none

-- A timestamp passes exactly inside the window: at most the skew allowance ahead of the clock, and
-- at most the limit behind it.
pub freshness_error-none_iff :
    (timestamp limit now : ℕ)
    → (freshness_error timestamp (micros (pos limit)) now ≡ none)
      ↔ ((timestamp ≤ now + allowed_clock_skew) × (now ≤ timestamp + limit))
unfolding freshness_error
freshness_error-none_iff timestamp limit now = (λ h. ground arith, λ (a, b). ground arith)
