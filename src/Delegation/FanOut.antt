-- ===== src/Delegation/FanOut.antt =====
-- The fan-out guards of hlinor_registry/delegation.py on explicit state, and the registration of a child.
pub mod Bound
use hlinor_agent_registry.Prelude.{
  ℕ, suc, Bool, true, false, not, ◌&&◌, Option, none, some, List, [], ◌∷◌, if◌then◌else◌, length,
  any, keep, leb, ltb_ℤ, ℤ, pos, negsuc, Text, text_eq, Result, ok, err, ◌>>=◌, ◌>>◌, guard,
}
use hlinor_agent_registry.Policies.Clock.{Stamp}
use hlinor_agent_registry.Tokens.{TokenError, limit_invalid, store_unavailable, fanout_exceeded}
use hlinor_agent_registry.Tokens.Window.{parse_time}
use hlinor_agent_registry.ReplayGuard.{Surroundings}
use hlinor_agent_registry.Delegation.{VerifiedDelegation}
use hlinor_agent_registry.Delegation.Chain.{FanOutView, validate_child_link}

pub record Child : Type 0 where
  pub child_delegation_id : Text
  pub parent_delegation_id : Text
  pub expires_at : ℕ

-- The two tables, or the dictionary and the set of the guard in memory.
pub record FanOutStore : Type 0 where
  pub children : List Child
  pub revoked_delegations : List Text

-- `DELETE FROM delegation_children WHERE expires_at <= ?`
abbrev pub live_children : ℕ → List Child → List Child
live_children now children = keep (λ (c : Child). not (leb c.expires_at now)) children

abbrev pub parent_of : Text → List Child → Option Text
parent_of child [] = none
parent_of child (c ∷ rest) =
    if text_eq c.child_delegation_id child
    then some c.parent_delegation_id
    else parent_of child rest

abbrev pub is_under : Text → Child → Bool
is_under parent c = text_eq c.parent_delegation_id parent

abbrev pub children_of : Text → List Child → ℕ
children_of parent children = length (keep (is_under parent) children)

-- `count >= limit`, once the limit is not negative
abbrev is_full : ℤ → ℕ → Bool
is_full (pos limit) count = leb limit count
is_full (negsuc n) count = true

abbrev is_negative : ℤ → Bool
is_negative (pos n) = false
is_negative (negsuc n) = true

abbrev is_same : Text → Option Text → Bool
is_same parent none = false
is_same parent (some found) = text_eq found parent

module _ (fromisoformat : Text → Option Stamp) where
  -- The transaction of `SQLiteFanOutGuard.reserve`, which a rollback leaves without effect.
  abbrev pub reserve_until :
      ℕ → Text → Text → ℤ → ℕ → FanOutStore → Result TokenError Bool × FanOutStore
  reserve_until now parent child limit expiry store =
      let live = live_children now store.children in
      if any (text_eq child) store.revoked_delegations
      then (ok false, store)
      else elim (parent_of child live) [
        | some found ↦ (ok (text_eq found parent), store)
        | none ↦ if is_full limit (children_of parent live) then (ok false, store) else (
          ok true,
          record store {
            children =
                record {
                  child_delegation_id = child;
                  parent_delegation_id = parent;
                  expires_at = expiry;
                }
                ∷ live;
          },
        )
      ]

  abbrev reserve_when :
      Bool
      → ℕ
      → Text
      → Text
      → ℤ
      → Result TokenError ℕ
      → FanOutStore
      → Result TokenError Bool × FanOutStore
  reserve_when up now parent child limit (err problem) store = (err problem, store)
  reserve_when up now parent child limit (ok expiry) store =
      if up
      then reserve_until now parent child limit expiry store
      else (err store_unavailable, store)

  -- `SQLiteFanOutGuard.reserve`
  unfoldable pub sqlite_reserve :
      Surroundings → Text → Text → ℤ → Text → FanOutStore → Result TokenError Bool × FanOutStore
  unfolding parse_time
  sqlite_reserve env parent child limit expires_at store =
      if is_negative limit
      then (err limit_invalid, store)
      else reserve_when env.available env.now parent child limit
          (parse_time fromisoformat expires_at) store

  -- `InMemoryFanOutGuard.reserve`: the expired children stay dropped, and a child that is there is found
  -- before a revocation is.
  abbrev pub reserve_in :
      ℕ → Text → Text → ℤ → ℕ → FanOutStore → Result TokenError Bool × FanOutStore
  reserve_in now parent child limit expiry store =
      let live = live_children now store.children in
      let kept = record store { children = live } in
      elim (parent_of child live) [
        | some found ↦ (ok (text_eq found parent), kept)
        | none ↦
            if any (text_eq child) store.revoked_delegations
            then (ok false, kept)
            else if is_full limit (children_of parent live)
            then (ok false, kept)
            else (
              ok true,
              record store {
                children =
                    record {
                      child_delegation_id = child;
                      parent_delegation_id = parent;
                      expires_at = expiry;
                    }
                    ∷ live;
              },
            )
      ]

  abbrev reserve_in_when :
      ℕ → Text → Text → ℤ → Result TokenError ℕ → FanOutStore → Result TokenError Bool × FanOutStore
  reserve_in_when now parent child limit (err problem) store = (err problem, store)
  reserve_in_when now parent child limit (ok expiry) store =
      reserve_in now parent child limit expiry store

  unfoldable pub memory_reserve :
      ℕ → Text → Text → ℤ → Text → FanOutStore → Result TokenError Bool × FanOutStore
  unfolding parse_time
  memory_reserve now parent child limit expires_at store =
      if is_negative limit
      then (err limit_invalid, store)
      else reserve_in_when now parent child limit (parse_time fromisoformat expires_at) store

  -- `reserve_delegation_child`
  unfoldable pub reserve_delegation_child :
      Surroundings
      → VerifiedDelegation
      → VerifiedDelegation
      → FanOutStore
      → Result TokenError (Unit {0}) × FanOutStore
  unfolding sqlite_reserve validate_child_link
  reserve_delegation_child env parent child store = elim (validate_child_link parent child) [
    | err problem ↦ (err problem, store)
    | ok u ↦
        let answer =
          sqlite_reserve env parent.delegation_id child.delegation_id (pos parent.max_fan_out)
            child.expires_at store in
        (answer.0 >>= λ granted. guard granted fanout_exceeded, answer.1)
  ]

abbrev when_up : {A : Type 0} → Surroundings → A → Result TokenError A
when_up env a = if env.available then ok a else err store_unavailable

-- `is_registered`, of both guards, does not look at the expiry.
unfoldable pub is_registered : Text → Text → FanOutStore → Bool
is_registered parent child store = is_same parent (parent_of child store.children)

unfoldable pub is_delegation_revoked : Text → FanOutStore → Bool
is_delegation_revoked id store = any (text_eq id) store.revoked_delegations

-- `INSERT OR IGNORE`, and `add` to a set
unfoldable pub revoke_delegation : Text → FanOutStore → FanOutStore
unfolding is_delegation_revoked
revoke_delegation id store =
    if is_delegation_revoked id store
    then store
    else record store { revoked_delegations = id ∷ store.revoked_delegations }

-- What a chain verification asks of the tables.
abbrev pub sqlite_view : Surroundings → FanOutStore → FanOutView
sqlite_view env store = record {
  has_child = λ parent child. when_up env (is_registered parent child store);
  is_revoked = λ id. when_up env (is_delegation_revoked id store);
}

unfoldable pub sqlite_revoke_delegation :
    Surroundings → Text → FanOutStore → Result TokenError (Unit {0}) × FanOutStore
unfolding revoke_delegation
sqlite_revoke_delegation env id store =
    if env.available then (ok tt, revoke_delegation id store) else (err store_unavailable, store)
