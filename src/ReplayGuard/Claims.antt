-- ===== src/ReplayGuard/Claims.antt =====
-- The claims on SQLiteReplayGuard of hlinor_registry/execution_receipts.py along a sequence of calls.
use hlinor_agent_registry.Prelude.{
  ℕ, ◌≤◌, ◌<◌, ◌≡◌, ◌≢◌, refl, sym, subst, inl, inr, Bool, true, false, Option, List, [], ◌∷◌,
  arith, leb, or_right, or_false, All, In, Text, text_eq_refl, Result, ok, Result-cases, Bool-cases,
}
use hlinor_agent_registry.Policies.Clock.{Stamp}
use hlinor_agent_registry.Tokens.{TokenError}
use hlinor_agent_registry.Tokens.Window.{parse_time}
use hlinor_agent_registry.ReplayGuard.{
  Claim, ReplayStore, Surroundings, same_claim, is_claimed, unexpired, names_revoked, claim_until,
  sqlite_claim, sqlite_revoke,
}

-- The token is claimed until an instant after `now`.
abbrev pub IsHeld : Text → Text → ℕ → List Claim → Type 0
IsHeld token_id nonce expiry claimed =
    (c : Claim) × In c claimed
    × (c.token_id ≡ token_id)
    × (c.nonce ≡ nonce)
    × (c.expires_at ≡ expiry)

In-unexpired :
    (c : Claim) (now : ℕ) (claimed : List Claim)
    → now < c.expires_at
    → In c claimed
    → In c (unexpired now claimed)
In-unexpired c now [] live i = i
In-unexpired c now (d ∷ claimed) live (inl e) =
    let k : leb d.expires_at now ≡ false = rw e (ground arith) in rw k (inl e)
In-unexpired c now (d ∷ claimed) live (inr i) = elim (Bool-cases (leb d.expires_at now)) [
  | inl old ↦ rw old (In-unexpired c now claimed live i)
  | inr new ↦ rw new (inr (In-unexpired c now claimed live i))
]

IsHeld-is_claimed :
    (token_id nonce : Text) (expiry : ℕ) (claimed : List Claim)
    → IsHeld token_id nonce expiry claimed
    → is_claimed token_id nonce claimed ≡ true
IsHeld-is_claimed t n e [] (c, i, te, ne, ee) = absurd i
IsHeld-is_claimed t n e (d ∷ claimed) (c, inl s, te, ne, ee) =
    rw (s, te, ne, text_eq_refl t, text_eq_refl n) refl
IsHeld-is_claimed t n e (d ∷ claimed) (c, inr i, te, ne, ee) =
    or_right (same_claim t n d) (is_claimed t n claimed)
      (IsHeld-is_claimed t n e claimed (c, i, te, ne, ee))

is_claimed-unexpired :
    (token_id nonce : Text) (now : ℕ) (claimed : List Claim)
    → is_claimed token_id nonce claimed ≡ false
    → is_claimed token_id nonce (unexpired now claimed) ≡ false
is_claimed-unexpired t n now [] free = free
is_claimed-unexpired t n now (d ∷ claimed) free =
    let h = or_false (same_claim t n d) (is_claimed t n claimed) free in
    elim (Bool-cases (leb d.expires_at now)) [
      | inl old ↦ rw old (is_claimed-unexpired t n now claimed h.1)
      | inr new ↦ rw (new, h.0) (is_claimed-unexpired t n now claimed h.1)
    ]

IsHeld-unexpired :
    (token_id nonce : Text) (expiry now : ℕ) (claimed : List Claim)
    → now < expiry
    → IsHeld token_id nonce expiry claimed
    → IsHeld token_id nonce expiry (unexpired now claimed)
IsHeld-unexpired t n e now claimed live (c, i, te, ne, ee) =
    (c, In-unexpired c now claimed (rw ee live) i, te, ne, ee)

-- What a worker may do to the guard.
pub data Call : Type 0 where
  claims : Text → Text → Text → Call
  revokes : Text → Option Text → Call

abbrev pub IsEarly : ℕ → Surroundings × Call → Type 0
IsEarly expiry entry = entry.0.now < expiry

module _ (fromisoformat : Text → Option Stamp) where
  unfoldable pub step : Surroundings → Call → ReplayStore → ReplayStore
  step env (claims token_id nonce expires_at) store =
      (sqlite_claim fromisoformat env token_id nonce expires_at store).1
  step env (revokes token_id nonce) store = (sqlite_revoke fromisoformat env token_id nonce store).1

  unfoldable pub run : List (Surroundings × Call) → ReplayStore → ReplayStore
  unfolding step
  run [] store = store
  run ((env, call) ∷ calls) store = run calls (step env call store)

  module _ (token_id nonce : Text) (expiry : ℕ) where
    claim_until-IsHeld :
        (now : ℕ) (t n : Text) (e : ℕ) (store : ReplayStore)
        → now < expiry
        → IsHeld token_id nonce expiry store.claimed
        → IsHeld token_id nonce expiry (claim_until fromisoformat now t n e store).1.claimed
    claim_until-IsHeld now t n e store live h =
        elim (Bool-cases (names_revoked t n store.revoked)) [
          | inl r ↦ rw r h
          | inr free ↦ elim (Bool-cases (is_claimed t n (unexpired now store.claimed))) [
            | inl taken ↦ rw (free, taken) h
            | inr new ↦
                let (c, i, te, ne, ee) =
                  IsHeld-unexpired token_id nonce expiry now store.claimed live h in
                rw (free, new) (c, inr i, te, ne, ee)
          ]
        ]

    step-IsHeld :
        (env : Surroundings) (call : Call) (store : ReplayStore)
        → env.now < expiry
        → IsHeld token_id nonce expiry store.claimed
        → IsHeld token_id nonce expiry (step env call store).claimed
    unfolding step sqlite_claim sqlite_revoke
    step-IsHeld env (claims t n x) store live h = elim (Result-cases (parse_time fromisoformat x)) [
      | inr (problem, e) ↦ rw (e, step, sqlite_claim) h
      | inl (until, e) ↦ elim (Bool-cases env.available) [
        | inl up ↦
            rw (e, up, step, sqlite_claim) (claim_until-IsHeld env.now t n until store live h)
        | inr down ↦ rw (e, down, step, sqlite_claim) h
      ]
    ]
    step-IsHeld env (revokes t n) store live h = ground arith

    run-IsHeld :
        (calls : List (Surroundings × Call)) (store : ReplayStore)
        → All (IsEarly expiry) calls
        → IsHeld token_id nonce expiry store.claimed
        → IsHeld token_id nonce expiry (run calls store).claimed
    unfolding run
    run-IsHeld [] store early h = h
    run-IsHeld ((env, call) ∷ calls) store (now, early) h =
        run-IsHeld calls (step env call store) early (step-IsHeld env call store now h)

    abbrev pub claimed_now : Surroundings → ReplayStore → ReplayStore
    claimed_now env store = record store {
      claimed =
          record { token_id = token_id; nonce = nonce; expires_at = expiry }
          ∷ unexpired env.now store.claimed;
    }

    -- What a claim that wins has found, and what it leaves.
    pub won-eq :
        (env : Surroundings) (expires_at : Text) (store : ReplayStore)
        → parse_time fromisoformat expires_at ≡ ok expiry
        → (sqlite_claim fromisoformat env token_id nonce expires_at store).0 ≡ ok true
        → (names_revoked token_id nonce store.revoked ≡ false)
          × (is_claimed token_id nonce (unexpired env.now store.claimed) ≡ false)
          × (sqlite_claim fromisoformat env token_id nonce expires_at store
              ≡ (ok true, claimed_now env store))
    unfolding sqlite_claim
    won-eq env x store e won = elim (Bool-cases env.available) [
      | inr down ↦ let w = rw (e, down, sqlite_claim) at won in cc
      | inl up ↦ elim (Bool-cases (names_revoked token_id nonce store.revoked)) [
        | inl r ↦ let w = rw (e, up, r, sqlite_claim, claim_until) at won in cc
        | inr free ↦
            elim (Bool-cases (is_claimed token_id nonce (unexpired env.now store.claimed))) [
              | inl taken ↦ let w = rw (e, up, free, taken, sqlite_claim, claim_until) at won in cc
              | inr new ↦ (free, new, rw (e, up, free, new, sqlite_claim, claim_until) refl)
            ]
      ]
    ]

    won-IsHeld :
        (env : Surroundings) (expires_at : Text) (store : ReplayStore)
        → parse_time fromisoformat expires_at ≡ ok expiry
        → (sqlite_claim fromisoformat env token_id nonce expires_at store).0 ≡ ok true
        → IsHeld token_id nonce expiry
            (sqlite_claim fromisoformat env token_id nonce expires_at store).1.claimed
    won-IsHeld env x store e won =
        let (free, new, result) = won-eq env x store e won in
        rw result (
          record { token_id = token_id; nonce = nonce; expires_at = expiry },
          inl refl,
          refl,
          refl,
          refl,
        )

    held-loses :
        (env : Surroundings) (expires_at : Text) (store : ReplayStore)
        → env.now < expiry
        → IsHeld token_id nonce expiry store.claimed
        → (sqlite_claim fromisoformat env token_id nonce expires_at store).0 ≢ ok true
    unfolding sqlite_claim
    held-loses env x store now h won = elim (Result-cases (parse_time fromisoformat x)) [
      | inr (problem, e) ↦ let w = rw (e, sqlite_claim) at won in cc
      | inl (until, e) ↦ elim (Bool-cases env.available) [
        | inr down ↦ let w = rw (e, down, sqlite_claim) at won in cc
        | inl up ↦ elim (Bool-cases (names_revoked token_id nonce store.revoked)) [
          | inl r ↦ let w = rw (e, up, r, sqlite_claim, claim_until) at won in cc
          | inr free ↦
              let taken =
                IsHeld-is_claimed token_id nonce expiry (unexpired env.now store.claimed)
                  (IsHeld-unexpired token_id nonce expiry env.now store.claimed now h) in
              let w = rw (e, up, free, taken, sqlite_claim, claim_until) at won in cc
        ]
      ]
    ]

  -- Once a claim has won, no claim of the same token and nonce wins again while the clock is before the
  -- expiry that the winner gave, whatever claims and revocations are made in between by such a clock, and
  -- whatever expiry the later claim gives.
  pub sqlite_claim-once :
      (token_id nonce expires_at : Text) (expiry : ℕ) (env : Surroundings) (store : ReplayStore)
      → parse_time fromisoformat expires_at ≡ ok expiry
      → (sqlite_claim fromisoformat env token_id nonce expires_at store).0 ≡ ok true
      → (calls : List (Surroundings × Call)) (later : Surroundings) (later_expiry : Text)
      → All (IsEarly expiry) calls
      → later.now < expiry
      → (sqlite_claim fromisoformat later token_id nonce later_expiry
          (run calls (sqlite_claim fromisoformat env token_id nonce expires_at store).1)).0
        ≢ ok true
  sqlite_claim-once t n x expiry env store e won calls later y early now =
      held-loses t n expiry later y (run calls (sqlite_claim fromisoformat env t n x store).1) now (
        run-IsHeld t n expiry calls (sqlite_claim fromisoformat env t n x store).1 early
          (won-IsHeld t n expiry env x store e won))

  -- From the expiry that a claim gave on, the guard gives the same token and nonce out again: the claim
  -- wins where the database answers and neither the token nor its nonce is revoked.
  pub sqlite_claim-again :
      (token_id nonce expires_at : Text) (expiry : ℕ) (env : Surroundings) (store : ReplayStore)
      → parse_time fromisoformat expires_at ≡ ok expiry
      → (sqlite_claim fromisoformat env token_id nonce expires_at store).0 ≡ ok true
      → (later : Surroundings) → expiry ≤ later.now
      → later.available ≡ true
      → (sqlite_claim fromisoformat later token_id nonce expires_at
          (sqlite_claim fromisoformat env token_id nonce expires_at store).1).0
        ≡ ok true
  unfolding sqlite_claim
  sqlite_claim-again t n x expiry env store e won later past up =
      let (free, new, result) = won-eq t n expiry env x store e won in
      let old : leb expiry later.now ≡ true = ground arith in
      let gone = is_claimed-unexpired t n later.now (unexpired env.now store.claimed) new in
      subst
        (λ (r : Result TokenError Bool × ReplayStore).
          (sqlite_claim fromisoformat later t n x r.1).0 ≡ ok true)
        (sym result) (rw (e, up, free, old, gone, sqlite_claim, claim_until) refl)
