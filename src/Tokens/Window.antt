-- ===== src/Tokens/Window.antt =====
-- `_parse_time` and `_check_window` of hlinor_registry/execution_receipts.py and delegation.py, which are
-- the same in both.
use hlinor_agent_registry.Prelude.{
  ℕ, ◌+◌, ◌*◌, ◌≤◌, ◌<◌, ◌≡◌, refl, sym, guard-eq-ok, ◌↔◌, not, ◌||◌, Option, none, some, arith,
  leb, ltb, if◌then◌else◌, ℤ, pos, negsuc, million, Text, text_eq, strip, is_blank, Result, ok, err,
  ◌>>=◌, ◌>>◌, guard, >>=-eq-ok, ok-injective,
}
use hlinor_agent_registry.Policies.Clock.{Stamp, with_offset}
use hlinor_agent_registry.Tokens.{
  TokenError, value_error, timestamp_invalid, window_invalid, not_yet_valid, expired,
}

abbrev pub aware_or : TokenError → Option Stamp → Result TokenError ℕ
aware_or problem none = err timestamp_invalid
aware_or problem (some stamp) = if stamp.aware then ok stamp.instant else err problem

module _ (fromisoformat : Text → Option Stamp) where
  unfoldable pub parse_time : Text → Result TokenError ℕ
  parse_time value =
      if is_blank value || not (text_eq value (strip value))
      then err timestamp_invalid
      else aware_or timestamp_invalid (fromisoformat (with_offset value))

  -- `current_time or datetime.now(timezone.utc)`; a naive time raises
  unfoldable pub instant_now : Option Stamp → ℕ → Result TokenError ℕ
  instant_now none clock = ok clock
  instant_now (some stamp) clock = if stamp.aware then ok stamp.instant else err value_error

  abbrev skew_of : ℤ → Result TokenError ℕ
  skew_of (pos seconds) = ok (seconds * million)
  skew_of (negsuc n) = err value_error

  unfoldable pub check_window : Text → Text → Option Stamp → ℕ → ℤ → Result TokenError (Unit {0})
  unfolding parse_time instant_now
  check_window issued_at expires_at current_time clock clock_skew_seconds = do
    skew ← skew_of clock_skew_seconds
    issued ← parse_time issued_at
    expires ← parse_time expires_at
    guard (not (leb expires issued)) window_invalid
    now ← instant_now current_time clock
    guard (not (ltb (now + skew) issued)) not_yet_valid
    guard (not (ltb (expires + skew) now)) expired

  -- Issuance and expiry are instants in this order, and the clock lies between them, the skew allowed on
  -- both sides.
  abbrev pub InWindow : Text → Text → Option Stamp → ℕ → ℕ → Type 0
  InWindow issued_at expires_at current_time clock seconds =
      (issued expires now : ℕ) × (parse_time issued_at ≡ ok issued)
      × (parse_time expires_at ≡ ok expires)
      × (instant_now current_time clock ≡ ok now)
      × (issued < expires)
      × (issued ≤ now + seconds * million)
      × (now ≤ expires + seconds * million)

  skew_of-eq-ok :
      (skew : ℤ) (k : ℕ)
      → skew_of skew ≡ ok k
      → (seconds : ℕ) × (skew ≡ pos seconds) × (k ≡ seconds * million)
  skew_of-eq-ok (pos seconds) k h = (seconds, refl, sym (ok-injective (seconds * million) k h))
  skew_of-eq-ok (negsuc n) k h = cc

  window→ :
      (issued_at expires_at : Text) (current_time : Option Stamp) (clock : ℕ) (skew : ℤ)
      → check_window issued_at expires_at current_time clock skew ≡ ok tt
      → (seconds : ℕ) × (skew ≡ pos seconds)
        × InWindow issued_at expires_at current_time clock seconds
  unfolding check_window
  window→ issued_at expires_at current_time clock skew h =
      let (k, e0, h0) = >>=-eq-ok (skew_of skew) _ h in
      let (issued, e1, h1) = >>=-eq-ok (parse_time issued_at) _ h0 in
      let (expires, e2, h2) = >>=-eq-ok (parse_time expires_at) _ h1 in
      let (u, e3, h3) = >>=-eq-ok (guard (not (leb expires issued)) window_invalid) _ h2 in
      let (now, e4, h4) = >>=-eq-ok (instant_now current_time clock) _ h3 in
      let (v, e5, e6) = >>=-eq-ok (guard (not (ltb (now + k) issued)) not_yet_valid) _ h4 in
      let (seconds, s, ks) = skew_of-eq-ok skew k e0 in
      let a = guard-eq-ok (not (leb expires issued)) window_invalid e3 in
      let b = guard-eq-ok (not (ltb (now + k) issued)) not_yet_valid e5 in
      let c = guard-eq-ok (not (ltb (expires + k) now)) expired e6 in
      (
        seconds,
        s,
        (
          issued,
          expires,
          now,
          e1,
          e2,
          e4,
          ground (arith, a),
          rw (← ks) (ground (arith, b)),
          rw (← ks) (ground (arith, c)),
        ),
      )

  window← :
      (issued_at expires_at : Text) (current_time : Option Stamp) (clock seconds : ℕ)
      → InWindow issued_at expires_at current_time clock seconds
      → check_window issued_at expires_at current_time clock (pos seconds) ≡ ok tt
  unfolding check_window
  window← issued_at expires_at current_time clock seconds
        (issued, expires, now, e1, e2, e4, a, b, c) =
      rw (e1, e2, e4) (ground arith)

  -- The window check passes exactly when the skew is not negative, both texts are instants with a
  -- timezone, expiry lies after issuance, and the clock is at most the skew ahead of expiry and at most
  -- the skew behind issuance.
  pub check_window_iff :
      (issued_at expires_at : Text) (current_time : Option Stamp) (clock : ℕ) (skew : ℤ)
      → (check_window issued_at expires_at current_time clock skew ≡ ok tt) ↔ (
          (seconds : ℕ) × (skew ≡ pos seconds)
          × InWindow issued_at expires_at current_time clock seconds)
  check_window_iff issued_at expires_at current_time clock skew = (
    window→ issued_at expires_at current_time clock skew,
    λ (seconds, e, w). rw e (window← issued_at expires_at current_time clock seconds w),
  )
