-- ===== src/Messages/Window.antt =====
-- The window of a message in hlinor_registry/message_transport.py.
use hlinor_agent_registry.Prelude.{
  ℕ, ◌+◌, ◌*◌, ◌≤◌, ◌<◌, ◌≡◌, refl, sym, ap, subst, true, ◌&&◌, Option, none, some, arith, and_elim,
  leb, ltb, ℤ, pos, negsuc, million, Text, ok, guard, guard-eq-ok, >>=-eq-ok, ok-injective,
}
use hlinor_agent_registry.Policies.Clock.{Stamp}
use hlinor_agent_registry.Tokens.{timestamp_invalid, not_yet_valid, expired}
use hlinor_agent_registry.Tokens.Window.{instant_now}
use hlinor_agent_registry.Approval.{Moment}
use hlinor_agent_registry.Messages.{parsed, seconds_of, zoned, message_window}

parsed-eq-ok : (o : Option Stamp) {stamp : Stamp} → parsed o ≡ ok stamp → o ≡ some stamp
parsed-eq-ok none h = cc
parsed-eq-ok (some s) {stamp = stamp} h = ap some (ok-injective s stamp h)

seconds_of-eq-ok :
    (z : ℤ) {skew : ℕ}
    → seconds_of z ≡ ok skew
    → (seconds : ℕ) × (z ≡ pos seconds) × (skew ≡ seconds * million)
seconds_of-eq-ok (pos n) {skew = skew} h = (n, refl, sym (ok-injective (n * million) skew h))
seconds_of-eq-ok (negsuc n) h = cc

ltb_lt : (m n : ℕ) → ltb m n ≡ true → m < n
ltb_lt m n h = ground (arith, h)

leb_le : (m n : ℕ) → leb m n ≡ true → m ≤ n
leb_le m n h = ground (arith, h)

-- The clock lies between the two times, each with the skew; both name their zone, and are in order.
abbrev pub InTime : (Text → Option Stamp) → Text → Text → Moment → Type 0
InTime fromisoformat issued_at expires_at moment =
    (seconds : ℕ) × (issued : Stamp) × (expires : Stamp) × (now : ℕ) × (moment.clock_skew_seconds
      ≡ pos seconds)
    × (fromisoformat (zoned issued_at) ≡ some issued)
    × (fromisoformat (zoned expires_at) ≡ some expires)
    × (issued.aware ≡ true)
    × (expires.aware ≡ true)
    × (issued.instant < expires.instant)
    × (instant_now fromisoformat moment.current_time moment.clock ≡ ok now)
    × (issued.instant ≤ now + seconds * million)
    × (now ≤ expires.instant + seconds * million)

pub message_window-InTime :
    (fromisoformat : Text → Option Stamp) (issued_at expires_at : Text) (moment : Moment)
    → message_window fromisoformat issued_at expires_at moment ≡ ok tt
    → InTime fromisoformat issued_at expires_at moment
unfolding message_window
message_window-InTime fromisoformat issued_at expires_at moment h =
    let (skew, e0, h0) = >>=-eq-ok (seconds_of moment.clock_skew_seconds) _ h in
    let (issued, e1, h1) = >>=-eq-ok (parsed (fromisoformat (zoned issued_at))) _ h0 in
    let (expires, e2, h2) = >>=-eq-ok (parsed (fromisoformat (zoned expires_at))) _ h1 in
    let (u, e3, h3) = >>=-eq-ok (guard (issued.aware && expires.aware) timestamp_invalid) _ h2 in
    let (v, e4, h4) =
      >>=-eq-ok (guard (ltb issued.instant expires.instant) timestamp_invalid) _ h3 in
    let (now, e5, h5) =
      >>=-eq-ok (instant_now fromisoformat moment.current_time moment.clock) _ h4 in
    let (w, e6, h6) = >>=-eq-ok (guard (leb issued.instant (now + skew)) not_yet_valid) _ h5 in
    let (seconds, z, same) = seconds_of-eq-ok moment.clock_skew_seconds e0 in
    let (a, b) = and_elim issued.aware expires.aware (guard-eq-ok _ timestamp_invalid e3) in
    let early = leb_le issued.instant (now + skew) (guard-eq-ok _ not_yet_valid e6) in
    let late = leb_le now (expires.instant + skew) (guard-eq-ok _ expired h6) in
    (
      seconds,
      issued,
      expires,
      now,
      z,
      parsed-eq-ok _ e1,
      parsed-eq-ok _ e2,
      a,
      b,
      ltb_lt issued.instant expires.instant (guard-eq-ok _ timestamp_invalid e4),
      e5,
      subst (λ (k : ℕ). issued.instant ≤ now + k) same early,
      subst (λ (k : ℕ). now ≤ expires.instant + k) same late,
    )
