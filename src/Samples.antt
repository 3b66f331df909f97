-- ===== src/Samples.antt =====
-- Concrete requests, rules and stores for the tests.
pub mod Signing
pub mod Chains
use hlinor_agent_registry.Prelude.{
  ℕ, true, Option, none, some, [], ◌∷◌, Text, codes, null, int, str, arr, obj, Items, nil, cons,
  Fields, end, field, pos,
}
use hlinor_agent_registry.ActionRequest.{ActionRequest}
use hlinor_agent_registry.Policies.Clock.{Stamp}
use hlinor_agent_registry.Policies.Rule.{
  PolicyRule, requires_approval, requires_evidence, failure_threshold,
}
use hlinor_agent_registry.Decision.{strict, Issue}
use hlinor_agent_registry.PolicyChecker.{AgentConfig, Snapshot}

-- A case folding for tests: the letters as they are written.
abbrev pub same_case : Text → Text
same_case s = s

-- A clock reading for tests: every text is the instant 100.
abbrev pub any_instant : Text → Option Stamp
any_instant s = some (record { instant = 100; aware = true })

abbrev pub some_digest : ActionRequest → Text
some_digest request = codes "sha256:0"

abbrev pub issued : Issue
issued = record { decision_id = codes "d-1"; checked_at = codes "2026-01-01T00:00:00+00:00" }

-- A report of so many failures.
abbrev pub signals_of : ℕ → Fields
signals_of n = field (codes "failure_counts") (obj (field (codes "send") (int (pos n)) end)) end

abbrev pub request_of : Fields → ActionRequest
request_of signals = record {
  agent_id = codes "mailer";
  action = codes "send:email";
  request_id = codes "r-1";
  actor_id = none;
  tool_id = none;
  resource = some (codes "anna");
  arguments_digest = none;
  attributes = end;
  signals = signals;
  approval_id = none;
  session_id = none;
  tenant_id = none;
  project_id = none;
  workspace_id = none;
  environment = none;
  requested_at = codes "now";
}

abbrev pub send_request : ActionRequest
send_request = request_of (signals_of 2)

abbrev pub failing_request : ActionRequest
failing_request = request_of (signals_of 5)

abbrev pub threshold_spec : Fields
threshold_spec =
    field (codes "counter") (str (codes "send"))
      (field (codes "max_consecutive_failures") (int (pos 4)) end)

abbrev pub threshold_rule : PolicyRule
threshold_rule = record {
  policy_id = codes "stop-after-four";
  kind = failure_threshold;
  trigger = cons (str (codes "send:*")) nil;
  spec = threshold_spec;
}

abbrev pub approval_rule : PolicyRule
approval_rule = record {
  policy_id = codes "approve";
  kind = requires_approval;
  trigger = cons (str (codes "send:*")) nil;
  spec =
      field (codes "approver_role") (str (codes "lead"))
        (field (codes "max_age_seconds") (int (pos 60)) end);
}

abbrev pub evidence_types_of : Items
evidence_types_of = cons (str (codes "consent")) nil

abbrev pub evidence_rule : PolicyRule
evidence_rule = record {
  policy_id = codes "consent";
  kind = requires_evidence;
  trigger = cons (str (codes "send:*")) nil;
  spec = field (codes "evidence_types") (arr evidence_types_of) end;
}

abbrev pub null_evidence_rule : PolicyRule
null_evidence_rule = record {
  policy_id = codes "consent";
  kind = requires_evidence;
  trigger = cons (str (codes "send:*")) nil;
  spec = field (codes "evidence_types") null end;
}

abbrev pub consent : Items
consent =
    cons
      (obj (
        field (codes "type") (str (codes "consent"))
          (field (codes "resource") (str (codes "anna")) end)))
      nil

abbrev pub allowed_entries : Items
allowed_entries = cons (str (codes "send:*")) nil

abbrev pub blocked_entries : Items
blocked_entries = cons (str (codes "delete:*")) nil

abbrev pub mailer : AgentConfig
mailer = record {
  config =
      field (codes "allowed_actions") (arr allowed_entries)
        (field (codes "blocked_actions") (arr blocked_entries) end);
  enforcement_mode = strict;
  source_path = null;
  digest = null;
  rules = threshold_rule ∷ [];
  declarative_policy_ids = [];
}

abbrev pub snapshot_of_mailer : Snapshot
snapshot_of_mailer = record {
  agents = (codes "mailer", mailer) ∷ [];
  bundle_digest = codes "sha256:1";
  schema_version = codes "1";
  compiler_version = codes "1";
  bundle_revision = 1;
  policy_revision = codes "1";
  environment = codes "test";
  verified_signature = none;
}

-- The compiled entries of the threshold policy.
abbrev pub threshold_config : Fields
threshold_config = field (codes "kind") (str (codes "failure_threshold")) (
    field (codes "trigger") (arr (cons (str (codes "send:*")) nil))
      (field (codes "threshold") (obj threshold_spec) end))

abbrev pub threshold_entry : Fields
threshold_entry = field (codes "config") (obj threshold_config) end

abbrev pub compiled_policies : Fields
compiled_policies = field (codes "stop-after-four") (obj threshold_entry) end
