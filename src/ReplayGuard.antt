-- ===== src/ReplayGuard.antt =====
-- The replay guards of hlinor_registry/execution_receipts.py: the protocol that the verifications call,
-- and its two implementations on explicit state. Their clock is a reading of its own.
pub mod Claims
mod Tests
use hlinor_agent_registry.Prelude.{
  ℕ, Bool, true, false, not, ◌&&◌, ◌||◌, Option, none, some, List, [], ◌∷◌, if◌then◌else◌, any,
  keep, leb, Text, text_eq, Result, ok, err,
}
use hlinor_agent_registry.Policies.Clock.{Stamp}
use hlinor_agent_registry.Tokens.{TokenError, store_unavailable}
use hlinor_agent_registry.Tokens.Window.{parse_time}

-- The two methods that a verification calls; the state is that of the guard.
pub record ReplayGuard (S : Type 0) : Type 0 where
  pub claim : Text → Text → Text → S → Result TokenError Bool × S
  pub is_revoked : Text → Text → S → Result TokenError Bool

pub record Claim : Type 0 where
  pub token_id : Text
  pub nonce : Text
  pub expires_at : ℕ

-- A revocation without a nonce is one of the whole token.
pub record Revocation : Type 0 where
  pub token_id : Text
  pub nonce : Option Text

pub record ReplayStore : Type 0 where
  pub claimed : List Claim
  pub revoked : List Revocation

-- The clock of the guard, and whether the database answers.
pub record Surroundings : Type 0 where
  pub now : ℕ
  pub available : Bool

abbrev pub same_claim : Text → Text → Claim → Bool
same_claim token_id nonce c = text_eq c.token_id token_id && text_eq c.nonce nonce

abbrev pub is_claimed : Text → Text → List Claim → Bool
is_claimed token_id nonce claimed = any (same_claim token_id nonce) claimed

-- `DELETE FROM claimed_approvals WHERE expires_at <= ?`
abbrev pub unexpired : ℕ → List Claim → List Claim
unexpired now claimed = keep (λ (c : Claim). not (leb c.expires_at now)) claimed

abbrev covers : Text → Text → Revocation → Bool
covers token_id nonce r =
    text_eq r.token_id token_id && elim r.nonce [ none ↦ true | some n ↦ text_eq n nonce ]

abbrev pub names_revoked : Text → Text → List Revocation → Bool
names_revoked token_id nonce revoked = any (covers token_id nonce) revoked

abbrev same_revocation : Text → Option Text → Revocation → Bool
same_revocation token_id none r = false
same_revocation token_id (some nonce) r =
    text_eq r.token_id token_id && elim r.nonce [ none ↦ false | some n ↦ text_eq n nonce ]

module _ (fromisoformat : Text → Option Stamp) where
  -- The transaction of `claim`, once the expiry is parsed.
  abbrev pub claim_until : ℕ → Text → Text → ℕ → ReplayStore → Result TokenError Bool × ReplayStore
  claim_until now token_id nonce expiry store =
      if names_revoked token_id nonce store.revoked
      then (ok false, store)
      else if is_claimed token_id nonce (unexpired now store.claimed)
      then (ok false, store)
      else (
        ok true,
        record store {
          claimed =
              record { token_id = token_id; nonce = nonce; expires_at = expiry }
              ∷ unexpired now store.claimed;
        },
      )

  -- `SQLiteReplayGuard.claim`
  unfoldable pub sqlite_claim :
      Surroundings → Text → Text → Text → ReplayStore → Result TokenError Bool × ReplayStore
  unfolding parse_time
  sqlite_claim env token_id nonce expires_at store = elim (parse_time fromisoformat expires_at) [
    | err problem ↦ (err problem, store)
    | ok expiry ↦
        if env.available
        then claim_until env.now token_id nonce expiry store
        else (err store_unavailable, store)
  ]

  unfoldable pub sqlite_is_revoked :
      Surroundings → Text → Text → ReplayStore → Result TokenError Bool
  sqlite_is_revoked env token_id nonce store =
      if env.available
      then ok (names_revoked token_id nonce store.revoked)
      else err store_unavailable

  -- `INSERT OR IGNORE`: a row with no nonce never conflicts with another
  unfoldable pub sqlite_revoke :
      Surroundings → Text → Option Text → ReplayStore → Result TokenError (Unit {0}) × ReplayStore
  sqlite_revoke env token_id nonce store =
      if env.available
      then (
        ok tt,
        if any (same_revocation token_id nonce) store.revoked then store else record store {
          revoked = record { token_id = token_id; nonce = nonce } ∷ store.revoked;
        },
      )
      else (err store_unavailable, store)

  abbrev pub sqlite_guard : Surroundings → ReplayGuard ReplayStore
  sqlite_guard env = record { claim = sqlite_claim env; is_revoked = sqlite_is_revoked env }

  -- `InMemoryReplayGuard.claim`, which leaves revocations to its caller and keeps what it has dropped
  -- out even where it refuses.
  unfoldable pub memory_claim :
      ℕ → Text → Text → Text → ReplayStore → Result TokenError Bool × ReplayStore
  unfolding parse_time
  memory_claim now token_id nonce expires_at store = elim (parse_time fromisoformat expires_at) [
    | err problem ↦ (err problem, store)
    | ok expiry ↦
        let live = unexpired now store.claimed in
        if is_claimed token_id nonce live then (ok false, record store { claimed = live }) else (
          ok true,
          record store {
            claimed = record { token_id = token_id; nonce = nonce; expires_at = expiry } ∷ live;
          },
        )
  ]

  unfoldable pub memory_is_revoked : Text → Text → ReplayStore → Result TokenError Bool
  memory_is_revoked token_id nonce store = ok (names_revoked token_id nonce store.revoked)

  -- The set of revocations grows by one element.
  unfoldable pub memory_revoke : Text → Option Text → ReplayStore → ReplayStore
  memory_revoke token_id nonce store = record store {
    revoked = record { token_id = token_id; nonce = nonce } ∷ store.revoked;
  }

  abbrev pub memory_guard : ℕ → ReplayGuard ReplayStore
  memory_guard now = record { claim = memory_claim now; is_revoked = memory_is_revoked }
