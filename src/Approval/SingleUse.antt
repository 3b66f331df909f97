-- ===== src/Approval/SingleUse.antt =====
-- An approval for one use, before the shared replay guard and between the processes that share it.
use hlinor_agent_registry.Prelude.{
  ℕ, ◌≤◌, ◌<◌, ◌≡◌, ◌≢◌, refl, sym, ap, ◌∙◌, subst, Bool, true, false, Option, some, List,
  if◌then◌else◌, All, Text, Value, Result, ok,
}
use mathlib.Core.Option.{some-injective}
use hlinor_agent_registry.Tokens.{TokenError, Platform}
use hlinor_agent_registry.Tokens.Window.{parse_time}
use hlinor_agent_registry.ReplayGuard.{
  ReplayGuard, ReplayStore, Surroundings, sqlite_claim, sqlite_is_revoked, sqlite_guard,
}
use hlinor_agent_registry.ReplayGuard.Claims.{
  Call, run, IsEarly, won-eq, sqlite_claim-once, sqlite_claim-again,
}
use hlinor_agent_registry.Approval.{
  TrustedKey, Target, Moment, VerifiedApproval, approval_facts, use_after, use_once, used,
  verify_approval_token,
}
use hlinor_agent_registry.Approval.Verification.{verify-eq-ok}

module _ {K : Type 0} (platform : Platform K) where
  abbrev pub shared : Surroundings → Option (ReplayGuard ReplayStore)
  shared env = some (sqlite_guard platform.fromisoformat env)

  -- What a process with the database leaves, and answers.
  abbrev pub verified_by :
      (Text → Option (TrustedKey K))
      → Target
      → Moment
      → Surroundings
      → Value
      → ReplayStore
      → Result TokenError VerifiedApproval × ReplayStore
  verified_by trusted_keys target moment env token store =
      verify_approval_token platform trusted_keys target moment (shared env) token store

  -- Where the facts are there and the guard grants the claim, the verification ends well.
  granted-verified :
      (trusted_keys : Text → Option (TrustedKey K)) (target : Target) (moment : Moment)
      (env : Surroundings) (token : Value) (a : VerifiedApproval) (store : ReplayStore)
      → approval_facts platform trusted_keys target moment token ≡ ok a
      → a.single_use ≡ true
      → sqlite_is_revoked platform.fromisoformat env a.token_id a.nonce store ≡ ok false
      → (sqlite_claim platform.fromisoformat env a.token_id a.nonce a.expires_at store).0 ≡ ok true
      → (verified_by trusted_keys target moment env token store).0 ≡ ok a
  unfolding verify_approval_token use_once
  granted-verified trusted_keys target moment env token a store facts single free won =
      rw (facts, verify_approval_token, used)
        (subst
          (λ (b : Bool).
            (if b then use_once platform (shared env) a store else (ok a, store)).0 ≡ ok a)
          (sym single) (rw (free, won, use_once, use_after) refl))

  claimed-by :
      (trusted_keys : Text → Option (TrustedKey K)) (target : Target) (moment : Moment)
      (env : Surroundings) (token : Value) (a : VerifiedApproval) (store : ReplayStore)
      → (verified_by trusted_keys target moment env token store).0 ≡ ok a
      → a.single_use ≡ true
      → ((sqlite_claim platform.fromisoformat env a.token_id a.nonce a.expires_at store).0
          ≡ ok true)
        × ((verified_by trusted_keys target moment env token store).1
            ≡ (sqlite_claim platform.fromisoformat env a.token_id a.nonce a.expires_at store).1)
  claimed-by trusted_keys target moment env token a store h single =
      let (facts, used_up) =
        verify-eq-ok platform trusted_keys target moment (shared env) token a store h in
      let (g, same, won, after) = used_up single in
      subst
        (λ (r : ReplayGuard ReplayStore).
          ((r.claim a.token_id a.nonce a.expires_at store).0 ≡ ok true)
          × ((verified_by trusted_keys target moment env token store).1
              ≡ (r.claim a.token_id a.nonce a.expires_at store).1))
        (sym (some-injective _ _ same)) (won, after)

  -- An approval for one use that one process has verified is verified by no process again before it
  -- expires, under whatever keys, request and time: no approval for one use with its token id and nonce is,
  -- whatever claims and revocations the processes make in between, all by clocks before the expiry.
  pub verify_approval_token-once :
      (trusted_keys : Text → Option (TrustedKey K)) (target : Target) (moment : Moment)
      (env : Surroundings) (token : Value) (a : VerifiedApproval) (store : ReplayStore) (expiry : ℕ)
      → (verified_by trusted_keys target moment env token store).0 ≡ ok a
      → a.single_use ≡ true
      → parse_time platform.fromisoformat a.expires_at ≡ ok expiry
      → (calls : List (Surroundings × Call)) → All (IsEarly expiry) calls
      → (other_keys : Text → Option (TrustedKey K)) (other : Target) (at_last : Moment)
        (later : Surroundings) (again : Value) (b : VerifiedApproval)
      → later.now < expiry
      → b.single_use ≡ true
      → b.token_id ≡ a.token_id
      → b.nonce ≡ a.nonce
      → (verified_by other_keys other at_last later again (
          run platform.fromisoformat calls
            (verified_by trusted_keys target moment env token store).1)).0
        ≢ ok b
  verify_approval_token-once trusted_keys target moment env token a store expiry h single e calls
        early keys other at_last later again b now twice same_id same_nonce bad =
      let (won, after) = claimed-by trusted_keys target moment env token a store h single in
      let middle =
        run platform.fromisoformat calls
          (verified_by trusted_keys target moment env token store).1 in
      let (won_too, end_store) = claimed-by keys other at_last later again b middle bad twice in
      let clashes =
        sqlite_claim-once platform.fromisoformat a.token_id a.nonce a.expires_at expiry env store e
          won calls later b.expires_at early now in
      clashes (
        subst
          (λ (s : ReplayStore).
            (sqlite_claim platform.fromisoformat later a.token_id a.nonce b.expires_at
              (run platform.fromisoformat calls s)).0
            ≡ ok true)
          after
          (subst
            (λ (n : Text).
              (sqlite_claim platform.fromisoformat later a.token_id n b.expires_at middle).0
              ≡ ok true)
            same_nonce
            (subst
              (λ (t : Text).
                (sqlite_claim platform.fromisoformat later t b.nonce b.expires_at middle).0
                ≡ ok true)
              same_id won_too)))

  -- An approval for one use is verified once more, by the process that shares the guard, from its expiry
  -- on: where its facts are still given out then, which the skew allows, and the database answers.
  pub verify_approval_token-again :
      (trusted_keys : Text → Option (TrustedKey K)) (target : Target) (moment : Moment)
      (env : Surroundings) (token : Value) (a : VerifiedApproval) (store : ReplayStore) (expiry : ℕ)
      → (verified_by trusted_keys target moment env token store).0 ≡ ok a
      → a.single_use ≡ true
      → parse_time platform.fromisoformat a.expires_at ≡ ok expiry
      → (at_last : Moment) (later : Surroundings)
      → approval_facts platform trusted_keys target at_last token ≡ ok a
      → expiry ≤ later.now
      → later.available ≡ true
      → (verified_by trusted_keys target at_last later token
          (verified_by trusted_keys target moment env token store).1).0
        ≡ ok a
  unfolding sqlite_is_revoked
  verify_approval_token-again trusted_keys target moment env token a store expiry h single e at_last
        later facts past up =
      let (won, after) = claimed-by trusted_keys target moment env token a store h single in
      let (free, new, left) =
        won-eq platform.fromisoformat a.token_id a.nonce expiry env a.expires_at store e won in
      let again =
        sqlite_claim-again platform.fromisoformat a.token_id a.nonce a.expires_at expiry env store e
          won later past up in
      let kept = after ∙ ap (λ (r : Result TokenError Bool × ReplayStore). r.1) left in
      granted-verified trusted_keys target at_last later token a
        (verified_by trusted_keys target moment env token store).1 facts single
        (rw kept (rw (up, free, sqlite_is_revoked) refl)) (rw after again)
