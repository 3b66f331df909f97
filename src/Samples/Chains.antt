-- ===== src/Samples/Chains.antt =====
-- A chain of two delegations, for the tests.
use hlinor_agent_registry.Prelude.{
  ◌*◌, false, Option, none, some, [], ◌∷◌, ◌++◌, if◌then◌else◌, million, pos, Text, codes, text_eq,
  Value, null, arr, nil, cons, ok, err,
}
use hlinor_agent_registry.Approval.Signing.{Signer}
use hlinor_agent_registry.Delegation.{DelegationTrustedKey}
use hlinor_agent_registry.Delegation.Chain.{FanOutView, ChainContext}
use hlinor_agent_registry.Delegation.FanOut.{FanOutStore, sqlite_view}
use hlinor_agent_registry.Delegation.Signing.{Delegated, sign_delegation_token}
use hlinor_agent_registry.Samples.Signing.{plain_platform, working_at}

abbrev signer_of : Text → Signer
signer_of key = record { sign = λ text. key ++ text; encode = λ bytes. b'=' ∷ bytes }

abbrev key_of : Text → Text → DelegationTrustedKey Text
key_of key agent = record {
  agent_id = agent;
  public_key = key;
  issuer = none;
  deployment_identity = none;
  workload_identity = none;
}

abbrev pub agent_keys : Text → Option (DelegationTrustedKey Text)
agent_keys id =
    if text_eq id (codes "k1")
    then some (key_of (codes "one") (codes "lead"))
    else some (key_of (codes "two") (codes "mid"))

abbrev pub root_delegated : Delegated
root_delegated = record {
  key_id = codes "k1";
  issuer = codes "desk";
  issuer_agent_id = codes "lead";
  subject_agent_id = codes "mid";
  audience = codes "app";
  allowed_actions = codes "send" ∷ codes "read" ∷ [];
  allowed_resource_scopes = codes "mail" ∷ [];
  issued_at = codes "t";
  expires_at = codes "ttttt";
  nonce = codes "n1";
  session_id = none;
  tenant_id = none;
  project_id = none;
  workspace_id = none;
  parent_delegation_id = none;
  delegation_depth = pos 0;
  max_depth = pos 1;
  max_fan_out = pos 1;
  delegation_id = some (codes "d1");
  issuer_deployment_identity = none;
  issuer_workload_identity = none;
}

abbrev pub child_delegated : Delegated
child_delegated = record root_delegated {
  key_id = codes "k2";
  issuer_agent_id = codes "mid";
  subject_agent_id = codes "bot";
  allowed_actions = codes "send" ∷ [];
  nonce = codes "n2";
  parent_delegation_id = some (codes "d1");
  delegation_depth = pos 1;
  delegation_id = some (codes "d2");
}

abbrev pub signed_as : Text → Delegated → Value
signed_as key g =
    elim (sign_delegation_token plain_platform (signer_of key) (codes "u") (3 * million) g) [
      | err problem ↦ null
      | ok v ↦ v
    ]

abbrev pub two_links : Value
two_links = arr (
    cons (signed_as (codes "one") root_delegated)
      (cons (signed_as (codes "two") child_delegated) nil))

abbrev pub chain_context : ChainContext
chain_context = record {
  audience = codes "app";
  subject_agent_id = codes "bot";
  action = some (codes "send");
  resource_scope = some (codes "mail");
  session_id = none;
  tenant_id = none;
  project_id = none;
  workspace_id = none;
  leaf_deployment_identity = none;
  leaf_workload_identity = none;
  require_identity_binding = false;
  max_chain_length = pos 8;
}

abbrev pub fan_out_store : FanOutStore
fan_out_store = record {
  children =
      record {
        child_delegation_id = codes "d2";
        parent_delegation_id = codes "d1";
        expires_at = 5 * million;
      }
      ∷ [];
  revoked_delegations = [];
}

abbrev pub fan_out_view : Option FanOutView
fan_out_view = some (sqlite_view (working_at 3) fan_out_store)
