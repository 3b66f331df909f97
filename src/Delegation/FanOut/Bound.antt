-- ===== src/Delegation/FanOut/Bound.antt =====
-- The children of one parent along registrations and revocations.
use hlinor_agent_registry.Prelude.{
  ℕ, suc, ◌≤◌, ◌<◌, ◌≡◌, refl, inl, inr, true, false, Option, List, [], ◌∷◌, arith, Bool-cases,
  Option-cases, Result-cases, any, All, leb, ℤ, pos, negsuc, Text, text_eq, text_eq→eq,
}
use hlinor_agent_registry.Policies.Clock.{Stamp}
use hlinor_agent_registry.Tokens.Window.{parse_time}
use hlinor_agent_registry.ReplayGuard.{Surroundings}
use hlinor_agent_registry.Delegation.FanOut.{
  Child, FanOutStore, live_children, parent_of, children_of, reserve_until, reserve_when,
  sqlite_reserve, revoke_delegation, sqlite_revoke_delegation,
}

children_of-live :
    (p : Text) (now : ℕ) (children : List Child)
    → children_of p (live_children now children) ≤ children_of p children
children_of-live p now [] = omega arith
children_of-live p now (c ∷ children) = ground (arith, children_of-live p now children)

children_of-mine :
    (p : Text) (c : Child) (children : List Child)
    → text_eq c.parent_delegation_id p ≡ true
    → children_of p (c ∷ children) ≡ suc (children_of p children)
children_of-mine p c children e = rw e refl

children_of-other :
    (p : Text) (c : Child) (children : List Child)
    → text_eq c.parent_delegation_id p ≡ false
    → children_of p (c ∷ children) ≡ children_of p children
children_of-other p c children e = rw e refl

room-less : (limit count : ℕ) → leb limit count ≡ false → count < limit
room-less limit count e = ground (arith, e)

-- What the processes that share the tables do.
pub data FanOutCall : Type 0 where
  reserves : Text → Text → ℤ → Text → FanOutCall
  revokes_delegation : Text → FanOutCall

-- The limit of the parent in question is at most this; any other parent has its own.
abbrev pub Keeps : Text → ℕ → Text → ℤ → Type 0
Keeps p most parent limit = (n : ℕ) → parent ≡ p → limit ≡ pos n → n ≤ most

abbrev pub KeepsLimit : Text → ℕ → Surroundings × FanOutCall → Type 0
KeepsLimit p most (env, reserves parent child limit expires_at) = Keeps p most parent limit
KeepsLimit p most (env, revokes_delegation id) = Unit

module _ (fromisoformat : Text → Option Stamp) where
  module _ (p : Text) (most : ℕ) where
    reserve_until-bound :
        (now : ℕ) (parent child : Text) (limit : ℕ) (expiry : ℕ) (store : FanOutStore)
        → Keeps p most parent (pos limit)
        → children_of p store.children ≤ most
        → children_of p
            (reserve_until fromisoformat now parent child (pos limit) expiry store).1.children
          ≤ most
    reserve_until-bound now parent child limit expiry store keeps h =
        let live = live_children now store.children in
        let few = children_of-live p now store.children in
        elim (Bool-cases (any (text_eq child) store.revoked_delegations)) [
          | inl gone ↦ rw gone h
          | inr free ↦ elim (Option-cases (parent_of child live)) [
            | inr (found, e) ↦ rw (free, e) h
            | inl e ↦ elim (Bool-cases (leb limit (children_of parent live))) [
              | inl full ↦ rw (free, e, full) h
              | inr room ↦
                  let new : Child = record {
                    child_delegation_id = child;
                    parent_delegation_id = parent;
                    expires_at = expiry;
                  } in
                  rw (free, e, room)
                    (elim (Bool-cases (text_eq parent p)) [
                      | inl mine ↦
                          let same = text_eq→eq parent p mine in
                          let cap = keeps limit same refl in
                          let less = room-less limit (children_of p live) (rw same at room) in
                          rw (children_of-mine p new live mine) (omega (arith, less, cap))
                      | inr other ↦ rw (children_of-other p new live other) (omega (arith, few, h))
                    ])
            ]
          ]
        ]

    sqlite_reserve-bound :
        (env : Surroundings) (parent child : Text) (limit : ℤ) (expires_at : Text)
        (store : FanOutStore)
        → Keeps p most parent limit
        → children_of p store.children ≤ most
        → children_of p
            (sqlite_reserve fromisoformat env parent child limit expires_at store).1.children
          ≤ most
    unfolding sqlite_reserve
    sqlite_reserve-bound env parent child (negsuc n) x store keeps h = h
    sqlite_reserve-bound env parent child (pos limit) x store keeps h =
        elim (Result-cases (parse_time fromisoformat x)) [
          | inr (problem, e) ↦ rw (e, sqlite_reserve, reserve_when) h
          | inl (expiry, e) ↦ elim (Bool-cases env.available) [
            | inr down ↦ rw (e, down, sqlite_reserve, reserve_when) h
            | inl up ↦
                rw (e, up, sqlite_reserve, reserve_when)
                  (reserve_until-bound env.now parent child limit expiry store keeps h)
          ]
        ]

  unfoldable pub after_call : Surroundings → FanOutCall → FanOutStore → FanOutStore
  unfolding sqlite_reserve sqlite_revoke_delegation
  after_call env (reserves parent child limit expires_at) store =
      (sqlite_reserve fromisoformat env parent child limit expires_at store).1
  after_call env (revokes_delegation id) store = (sqlite_revoke_delegation env id store).1

  unfoldable pub after_calls : List (Surroundings × FanOutCall) → FanOutStore → FanOutStore
  unfolding after_call
  after_calls [] store = store
  after_calls ((env, call) ∷ calls) store = after_calls calls (after_call env call store)

  after_call-bound :
      (p : Text) (most : ℕ) (env : Surroundings) (call : FanOutCall) (store : FanOutStore)
      → KeepsLimit p most (env, call)
      → children_of p store.children ≤ most
      → children_of p (after_call env call store).children ≤ most
  unfolding after_call sqlite_revoke_delegation revoke_delegation
  after_call-bound p most env (reserves parent child limit x) store keeps h =
      sqlite_reserve-bound p most env parent child limit x store keeps h
  after_call-bound p most env (revokes_delegation id) store keeps h = ground (arith, h)

  -- Whatever registrations and revocations the processes make, in whatever order and by whatever clocks, a
  -- parent whose registrations ask for at most a given limit has at most that many children registered,
  -- expired ones included, if it had no more before.
  pub after_calls-bound :
      (p : Text) (most : ℕ) (calls : List (Surroundings × FanOutCall)) (store : FanOutStore)
      → All (KeepsLimit p most) calls
      → children_of p store.children ≤ most
      → children_of p (after_calls calls store).children ≤ most
  unfolding after_calls
  after_calls-bound p most [] store keeps h = h
  after_calls-bound p most ((env, call) ∷ calls) store (k, keeps) h =
      after_calls-bound p most calls (after_call env call store) keeps
        (after_call-bound p most env call store k h)
