-- ===== src/Delegation/Chain.antt =====
-- `verify_delegation_chain` of hlinor_registry/delegation.py: from the root to the leaf.
use hlinor_agent_registry.Prelude.{
  ℕ, suc, Bool, true, false, not, ◌&&◌, Option, none, some, List, [], ◌∷◌, if◌then◌else◌, length,
  any, all, is_empty, ltb, ◌==◌, ℤ, pos, negsuc, Text, text_eq, Value, arr, items, value_eq, Result,
  ok, err, ◌>>=◌, ◌>>◌, guard,
}
use hlinor_agent_registry.Tokens.{
  TokenError, value_error, chain_invalid, chain_too_deep, issuer_invalid, scope_escalation,
  context_mismatch, revoked, fanout_guard_required, fanout_unregistered, action_not_allowed,
  resource_not_allowed, Platform, is_expected,
}
use hlinor_agent_registry.Tokens.Reading.{optional}
use hlinor_agent_registry.Approval.{Moment}
use hlinor_agent_registry.Delegation.{DelegationTrustedKey, VerifiedDelegation, Context}
use hlinor_agent_registry.Delegation.Token.{verify_delegation_token}

-- What the verification asks a fan-out guard in the state it finds: `is_registered`, as `has_child`,
-- and `is_revoked`.
pub record FanOutView : Type 0 where
  pub has_child : Text → Text → Result TokenError Bool
  pub is_revoked : Text → Result TokenError Bool

abbrev pub is_member : Text → List Text → Bool
is_member t ts = any (text_eq t) ts

-- `set(ts).issubset(us)`
abbrev pub is_subset : List Text → List Text → Bool
is_subset ts us = all (λ (t : Text). is_member t us) ts

-- `_validate_child_link`
unfoldable pub validate_child_link :
    VerifiedDelegation → VerifiedDelegation → Result TokenError (Unit {0})
unfolding value_eq
validate_child_link parent child = do
  guard (is_expected child.parent_delegation_id (optional (some parent.delegation_id)))
      chain_invalid
  guard (text_eq child.issuer_agent_id parent.subject_agent_id) issuer_invalid
  guard (child.delegation_depth == suc parent.delegation_depth) chain_invalid
  guard (not (ltb parent.max_depth child.max_depth)) scope_escalation
  guard (text_eq child.audience parent.audience) context_mismatch
  guard (value_eq child.session_id parent.session_id) context_mismatch
  guard (value_eq child.tenant_id parent.tenant_id) context_mismatch
  guard (value_eq child.project_id parent.project_id) context_mismatch
  guard (value_eq child.workspace_id parent.workspace_id) context_mismatch
  guard (is_subset child.allowed_actions parent.allowed_actions) scope_escalation
  guard (is_subset child.allowed_resource_scopes parent.allowed_resource_scopes) scope_escalation

-- The remaining arguments named `expected_`, for the chain and its leaf.
pub record ChainContext : Type 0 where
  pub audience : Text
  pub subject_agent_id : Text
  pub action : Option Text
  pub resource_scope : Option Text
  pub session_id : Option Text
  pub tenant_id : Option Text
  pub project_id : Option Text
  pub workspace_id : Option Text
  pub leaf_deployment_identity : Option Text
  pub leaf_workload_identity : Option Text
  pub require_identity_binding : Bool
  pub max_chain_length : ℤ

-- What the token is verified against; the subject and the identities are asked of the leaf alone.
abbrev pub context_at : ChainContext → Bool → Context
context_at c is_leaf = record {
  audience = c.audience;
  subject_agent_id = if is_leaf then some c.subject_agent_id else none;
  session_id = c.session_id;
  tenant_id = c.tenant_id;
  project_id = c.project_id;
  workspace_id = c.workspace_id;
  issuer_deployment_identity = if is_leaf then c.leaf_deployment_identity else none;
  issuer_workload_identity = if is_leaf then c.leaf_workload_identity else none;
  require_identity_binding = c.require_identity_binding;
}

abbrev pub refuse_revoked : Result TokenError Bool → Result TokenError (Unit {0})
refuse_revoked answer = answer >>= λ gone. guard (not gone) revoked

abbrev pub check_live : Option FanOutView → Text → Result TokenError (Unit {0})
check_live none id = ok tt
check_live (some view) id = refuse_revoked (view.is_revoked id)

abbrev pub check_registered : Option FanOutView → Text → Text → Result TokenError (Unit {0})
check_registered none parent child = err fanout_guard_required
check_registered (some view) parent child =
    view.has_child parent child >>= λ known. guard known fanout_unregistered

abbrev pub is_root : VerifiedDelegation → Bool
is_root d =
    elim d.parent_delegation_id [ none ↦ true | some parent ↦ false ] && (d.delegation_depth == 0)

-- `expected is not None and expected not in allowed`
abbrev pub permits : Option Text → List Text → Bool
permits none allowed = true
permits (some t) allowed = is_member t allowed

abbrev pub last_or : VerifiedDelegation → List VerifiedDelegation → VerifiedDelegation
last_or d [] = d
last_or d (e ∷ rest) = last_or e rest

abbrev pub check_leaf :
    ChainContext → List VerifiedDelegation → Result TokenError (List VerifiedDelegation)
check_leaf c [] = err chain_invalid
check_leaf c (d ∷ rest) =
    let leaf = last_or d rest in
    do
      guard (permits c.action leaf.allowed_actions) action_not_allowed
      guard (permits c.resource_scope leaf.allowed_resource_scopes) resource_not_allowed
      ok (d ∷ rest)

-- `max_chain_length < 1`, and a chain that is longer
abbrev pub within : ℤ → ℕ → Result TokenError (Unit {0})
within (negsuc n) k = err value_error
within (pos n) k = do guard (not (n == 0)) value_error; guard (not (ltb n k)) chain_too_deep

module _ {K : Type 0} (platform : Platform K)
    (trusted_keys : Text → Option (DelegationTrustedKey K)) (view : Option FanOutView)
    (c : ChainContext) (moment : Moment) where
  unfoldable pub check_place :
      Option VerifiedDelegation → VerifiedDelegation → Result TokenError (Unit {0})
  unfolding validate_child_link
  check_place none current = guard (is_root current) chain_invalid
  check_place (some parent) current = do
    validate_child_link parent current
    check_registered view parent.delegation_id current.delegation_id

  -- One round of the loop.
  unfoldable pub verify_link :
      List Text → Option VerifiedDelegation → Bool → Value → Result TokenError VerifiedDelegation
  unfolding verify_delegation_token check_place
  verify_link seen previous is_leaf token = do
    current ← verify_delegation_token platform trusted_keys (context_at c is_leaf) moment token
    guard (not (is_member current.delegation_id seen)) chain_invalid
    check_live view current.delegation_id
    check_place previous current
    ok current

  unfoldable pub verify_links :
      List Text
      → Option VerifiedDelegation
      → List Value
      → Result TokenError (List VerifiedDelegation)
  unfolding verify_link
  verify_links seen previous [] = ok []
  verify_links seen previous (token ∷ rest) = do
    current ← verify_link seen previous (is_empty rest) token
    later ← verify_links (current.delegation_id ∷ seen) (some current) rest
    ok (current ∷ later)

  unfoldable pub verify_delegation_chain : Value → Result TokenError (List VerifiedDelegation)
  unfolding verify_links
  verify_delegation_chain (arr tokens) = do
    guard (not (is_empty (items tokens))) chain_invalid
    within c.max_chain_length (length (items tokens))
    verified ← verify_links [] none (items tokens)
    check_leaf c verified
  verify_delegation_chain _ = err chain_invalid
