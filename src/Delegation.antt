-- ===== src/Delegation.antt =====
-- hlinor_registry/delegation.py: the tokens by which an agent hands a part of its authority on, and the
-- checks of their fields.
pub mod FanOut
pub mod Chain
pub mod Links
pub mod Attenuation
pub mod Authority
pub mod Signing
pub mod Transport
pub mod Token
pub mod Reading
pub mod Bindings
mod Tests
use hlinor_agent_registry.Prelude.{
  ℕ, ◌≡◌, suc, Bool, true, false, not, ◌&&◌, ◌||◌, Option, none, some, List, [], ◌∷◌, if◌then◌else◌,
  all, is_empty, leb, ltb, ◌==◌, ℤ, pos, negsuc, Text, codes, text_eq, text_leb, has_repeat, Value,
  null, int, arr, obj, items, Fields, end, get_value, Result, ok, err, ◌>>=◌, ◌>>◌, guard,
}
use hlinor_agent_registry.Tokens.{
  TokenError, invalid, field_invalid, version_unsupported, limit_invalid, chain_invalid,
  context_mismatch, identity_invalid, identity_unbound, identity_mismatch, signature_invalid,
  key_untrusted, issuer_unbound, issuer_invalid, Platform, token_text, optional_token_text,
  only_fields, is_text, is_expected, Seal, read_seal, issuer_ok, signed_payload, check_seal,
}
use hlinor_agent_registry.Tokens.Reading.{optional}
use hlinor_agent_registry.Tokens.Window.{check_window}
use hlinor_agent_registry.Approval.{Moment, fields_of}

pub record DelegationTrustedKey (K : Type 0) : Type 0 where
  pub agent_id : Text
  pub public_key : K
  pub issuer : Option Text
  pub deployment_identity : Option Text
  pub workload_identity : Option Text

-- Context fields are compared, not read, and are kept as they are.
pub record VerifiedDelegation : Type 0 where
  pub delegation_id : Text
  pub issuer_agent_id : Text
  pub subject_agent_id : Text
  pub audience : Text
  pub allowed_actions : List Text
  pub allowed_resource_scopes : List Text
  pub session_id : Value
  pub tenant_id : Value
  pub project_id : Value
  pub workspace_id : Value
  pub parent_delegation_id : Option Text
  pub delegation_depth : ℕ
  pub max_depth : ℕ
  pub max_fan_out : ℕ
  pub issued_at : Text
  pub expires_at : Text
  pub nonce : Text
  pub key_id : Text
  pub issuer : Text
  pub deployment_identity : Option Text
  pub workload_identity : Option Text

-- The arguments named `expected_`; a field that is None is not compared, save the identities.
pub record Context : Type 0 where
  pub audience : Text
  pub subject_agent_id : Option Text
  pub session_id : Option Text
  pub tenant_id : Option Text
  pub project_id : Option Text
  pub workspace_id : Option Text
  pub issuer_deployment_identity : Option Text
  pub issuer_workload_identity : Option Text
  pub require_identity_binding : Bool

-- `_validate_identity_pair`
unfoldable pub identity_pair : Value → Value → Result TokenError (Unit {0})
unfolding optional_token_text
identity_pair null null = ok tt
identity_pair null workload = err identity_invalid
identity_pair deployment null = err identity_invalid
identity_pair deployment workload = do
  d ← optional_token_text deployment
  w ← optional_token_text workload
  ok tt

abbrev is_absent : Value → Bool
is_absent null = true
is_absent _ = false

abbrev is_none : Option Text → Bool
is_none none = true
is_none (some t) = false

-- Two optional texts are equal.
abbrev same_option : Option Text → Option Text → Bool
same_option o p = is_expected p (optional o)

module _ {K : Type 0} (trusted : DelegationTrustedKey K) (deployment workload : Value)
    (context : Context) where
  abbrev is_unbound : Bool
  is_unbound =
      context.require_identity_binding
      && (is_none trusted.deployment_identity
          || is_none trusted.workload_identity
          || is_absent deployment
          || is_absent workload)

  abbrev claims_other : Bool
  claims_other =
      not (is_none trusted.deployment_identity)
      && not (
          is_expected trusted.deployment_identity deployment
          && is_expected trusted.workload_identity workload)

  abbrev is_unexpected : Bool
  is_unexpected =
      not (is_none context.issuer_deployment_identity)
      && not (
          same_option trusted.deployment_identity context.issuer_deployment_identity
          && same_option trusted.workload_identity context.issuer_workload_identity)

  -- `_verify_identity_binding`
  unfoldable pub identity_binding : Result TokenError (Unit {0})
  unfolding identity_pair
  identity_binding = do
    identity_pair (optional trusted.deployment_identity) (optional trusted.workload_identity)
    guard (not is_unbound) identity_unbound
    guard (not claims_other) identity_mismatch
    guard (not is_unexpected) identity_mismatch

-- `sorted` of a list without repeats.
abbrev insert : Text → List Text → List Text
insert s [] = s ∷ []
insert s (t ∷ ts) = if text_leb s t then s ∷ t ∷ ts else t ∷ insert s ts

abbrev sorted : List Text → List Text
sorted [] = []
sorted (s ∷ ts) = insert s (sorted ts)

unfoldable token_texts : List Value → Result TokenError (List Text)
unfolding token_text
token_texts [] = ok []
token_texts (v ∷ vs) = do s ← token_text v; rest ← token_texts vs; ok (s ∷ rest)

-- `_scope_list`
unfoldable pub scope_list : Value → Result TokenError (List Text)
unfolding token_texts has_repeat
scope_list (arr vs) = do
  texts ← token_texts (items vs)
  guard (not (is_empty texts)) field_invalid
  guard (not (has_repeat texts)) field_invalid
  ok (sorted texts)
scope_list _ = err field_invalid

-- `_validate_limits`
pub record DelegationLimits : Type 0 where
  pub delegation_depth : ℕ
  pub max_depth : ℕ
  pub max_fan_out : ℕ

abbrev natural : Value → Result TokenError ℕ
natural (int (pos n)) = ok n
natural _ = err limit_invalid

abbrev depth_fits : Option Text → ℕ → Bool
depth_fits none depth = depth == 0
depth_fits (some parent) depth = not (depth == 0)

unfoldable pub validate_limits :
    Value → Value → Value → Option Text → Result TokenError DelegationLimits
validate_limits depth_value max_depth_value fan_out_value parent = do
  depth ← natural depth_value
  max_depth ← natural max_depth_value
  fan_out ← natural fan_out_value
  guard (not (ltb max_depth depth)) limit_invalid
  guard (depth_fits parent depth) chain_invalid
  ok (record { delegation_depth = depth; max_depth = max_depth; max_fan_out = fan_out })
