-- ===== src/Delegation/Tests.antt =====
-- A chain of two delegations that is verified.
use hlinor_agent_registry.Prelude.{
  ℕ, ◌≤◌, ◌≡◌, ◌≢◌, refl, ap, arith, false, Option, none, some, List, [], ◌∷◌, pos, Text, codes,
  text_eq, is_blank, null, obj, items, Fields, Value, get_value, entries, has_field, ok,
}
use hlinor_agent_registry.Samples.Signing.{plain_platform, moment_at, working_at, written, time_of}
use hlinor_agent_registry.Samples.Chains.{
  agent_keys, root_delegated, child_delegated, signed_as, chain_context,
}
use hlinor_agent_registry.Policies.Clock.{with_offset}
use hlinor_agent_registry.Tokens.{set_field}
use hlinor_agent_registry.ReplayGuard.{Surroundings}
use hlinor_agent_registry.Delegation.FanOut.{children_of}
use hlinor_agent_registry.Delegation.FanOut.Bound.{
  FanOutCall, reserves, after_calls, after_calls-bound,
}
use hlinor_agent_registry.Delegation.Authority.{IsAuthorised, verify_delegation_token-bound}
use hlinor_agent_registry.Delegation.Reading.{IsRead}
use hlinor_agent_registry.Delegation.{VerifiedDelegation}
use hlinor_agent_registry.Delegation.Chain.{context_at}
use hlinor_agent_registry.Delegation.Token.{verify_delegation_token}
use hlinor_agent_registry.Delegation.Signing.{Delegated, sign_delegation_token}

abbrev verified_as : Delegated → Text → ℕ → Option Text → List Text → VerifiedDelegation
verified_as g id depth parent actions = record {
  delegation_id = id;
  issuer_agent_id = g.issuer_agent_id;
  subject_agent_id = g.subject_agent_id;
  audience = g.audience;
  allowed_actions = actions;
  allowed_resource_scopes = g.allowed_resource_scopes;
  session_id = null;
  tenant_id = null;
  project_id = null;
  workspace_id = null;
  parent_delegation_id = parent;
  delegation_depth = depth;
  max_depth = 1;
  max_fan_out = 1;
  issued_at = g.issued_at;
  expires_at = g.expires_at;
  nonce = g.nonce;
  key_id = g.key_id;
  issuer = g.issuer;
  deployment_identity = none;
  workload_identity = none;
}

abbrev first_link : VerifiedDelegation
first_link = verified_as root_delegated (codes "d1") 0 none (codes "read" ∷ codes "send" ∷ [])

abbrev second_link : VerifiedDelegation
second_link = verified_as child_delegated (codes "d2") 1 (some (codes "d1")) (codes "send" ∷ [])

first_verified :
    verify_delegation_token plain_platform agent_keys
      (context_at chain_context false)
      (moment_at 3)
      (signed_as (codes "one") root_delegated)
    ≡ ok first_link
unfolding verify_delegation_token sign_delegation_token is_blank text_eq items with_offset get_value
    entries has_field written set_field
first_verified = refl

verify_delegation_token-bound_example :
    (fs : Fields) × (value : Value) × (signed_as (codes "one") root_delegated ≡ obj fs)
    × IsRead fs first_link value
    × IsAuthorised plain_platform agent_keys
        (context_at chain_context false)
        (moment_at 3)
        fs
        first_link
        value
verify_delegation_token-bound_example =
    verify_delegation_token-bound plain_platform agent_keys (context_at chain_context false)
      (moment_at 3) (signed_as (codes "one") root_delegated) first_link first_verified

pos_eq : (m n : ℕ) → pos m ≡ pos n → m ≡ n
pos_eq m n e = cc

other_parent : codes "d9" ≢ codes "d1"
unfolding text_eq
other_parent e = let h = ap (text_eq (codes "d9")) e in cc

abbrev registrations : List (Surroundings × FanOutCall)
registrations =
    (working_at 2, reserves (codes "d1") (codes "d2") (pos 1) (codes "ttttt"))
    ∷ (working_at 3, reserves (codes "d1") (codes "d3") (pos 1) (codes "ttttt"))
    ∷ (working_at 3, reserves (codes "d9") (codes "d4") (pos 7) (codes "ttttt"))
    ∷ []

after_calls-bound_example :
    children_of
      (codes "d1")
      (after_calls time_of registrations
        (record { children = []; revoked_delegations = [] })).children
    ≤ 1
after_calls-bound_example =
    after_calls-bound time_of (codes "d1") 1 registrations
      (record { children = []; revoked_delegations = [] })
      (
        λ n same is. omega (arith, pos_eq 1 n is),
        (λ n same is. omega (arith, pos_eq 1 n is), (λ n same is. absurd (other_parent same), tt)),
      )
      (omega arith)
