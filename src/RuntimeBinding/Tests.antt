-- ===== src/RuntimeBinding/Tests.antt =====
-- An invocation with a runtime budget and a circuit breaker.
use hlinor_agent_registry.Prelude.{
  ℕ, ◌≡◌, refl, Bool, true, false, Option, none, some, List, [], ◌∷◌, any, pos, Text, codes, Value,
  str, int, Fields, end, field, Result, ok, err,
}
use hlinor_agent_registry.ActionRequest.{ActionRequest, post_init}
use hlinor_agent_registry.CircuitBreaker.{BreakerSnapshot, closed, continue}
use hlinor_agent_registry.Decision.{PolicyDecision, strict}
use hlinor_agent_registry.Policies.Rule.{silent}
use hlinor_agent_registry.Enums.{allowed, explicitly_allowed}
use hlinor_agent_registry.RuntimeLimits
use hlinor_agent_registry.RuntimeLimits.{LimitError, LimitSnapshot, Request}
use hlinor_agent_registry.RuntimeBinding.Frame.{
  Problem, Fault, trust_error, other_error, BoundTool, DelegationInput, Invocation, released,
  Services, go_on, require, when,
}
use hlinor_agent_registry.RuntimeBinding.Invoke.{own_lease_id, attempt, handle_fault, invoke}
use hlinor_agent_registry.RuntimeBinding.Stability.{is_lease_request}
use hlinor_agent_registry.RuntimeBinding.Guarded.{IsGuarded, invoke-IsGuarded}
use hlinor_agent_registry.RuntimeBinding.Release.{before_release, invoke-released}

abbrev decision : PolicyDecision
decision = record {
  decision_id = codes "d";
  agent_id = codes "a";
  action = codes "pay";
  result = allowed;
  reason_code = explicitly_allowed;
  checked_at = codes "now";
  provenance = record {
    request_id = codes "i";
    bundle_digest = codes "b";
    request_digest = codes "r";
    matched_pattern = none;
    matched_policy_ids = [];
    policy_detail = silent;
    enforcement_mode = strict;
    environment = codes "prod";
    actor_id = none;
    bundle_schema_version = codes "1";
    compiler_version = codes "1";
    bundle_revision = 1;
    policy_revision = codes "1";
    signature = none;
  };
}

abbrev problem : Problem
problem = record { type_name = codes "E"; code = codes "E"; message = codes "E" }

abbrev breaker_row : BreakerSnapshot
breaker_row = record {
  failure_fingerprint = codes "f";
  threshold = 3;
  current_count = 0;
  state = closed;
  next_action = continue;
  updated_at = 0;
}

-- The budget of hlinor_registry/runtime_limits.py, one lease at a time.
abbrev lease_request : Text → Text → Request
lease_request scope lease = record {
  scope = str scope;
  lease_id = str lease;
  max_concurrency = int (pos 1);
  rate_limit = int (pos 2);
  rate_window_seconds = int (pos 60);
  lease_ttl_seconds = int (pos 10);
}

abbrev surroundings : RuntimeLimits.Surroundings
surroundings = record { now = 5; event_id = codes "e"; available = true }

abbrev as_fault :
    {A : Type 0} → Result LimitError A × RuntimeLimits.Store → Result Fault A × RuntimeLimits.Store
as_fault (ok a, w) = (ok a, w)
as_fault (err e, w) = (err (trust_error problem), w)

abbrev services : Services RuntimeLimits.Store
services = record {
  normalize = ok (field (codes "amount") (int (pos 3)) end);
  digest = λ v. ok (codes "digest");
  request_digest = λ r. codes "digest";
  stamp = λ w. (codes "u", codes "now");
  bundle_revision = λ w. 1;
  bundle_digest = λ w. codes "b";
  verify_transport = λ audience d e w. (err (trust_error problem), w);
  verify_chain = λ audience e w. (err (trust_error problem), w);
  verify_approval = λ e digest w. (err (trust_error problem), w);
  reload = λ w. (ok (codes "prod"), w);
  check_policy = λ r w. (ok decision, w);
  emit_decision = λ d w. (ok tt, w);
  breaker_before_dispatch = λ f n w. (ok breaker_row, w);
  breaker_record_failure = λ f n w. (ok breaker_row, w);
  breaker_record_success = λ f w. (ok breaker_row, w);
  budget_acquire =
      λ scope lease w. as_fault (RuntimeLimits.acquire surroundings (lease_request scope lease) w);
  budget_release = λ lease w. as_fault (RuntimeLimits.release surroundings (str lease) w);
  append = λ r w. (ok tt, w);
  target = λ args w. (err (other_error problem), w);
}

abbrev tool : BoundTool
tool = record {
  contract_digest = codes "c";
  tool_id = codes "t";
  action = codes "pay";
  resource_patterns = codes "acct" ∷ [];
}

abbrev no_delegation : DelegationInput
no_delegation = record {
  has_chain = false;
  has_transport = false;
  has_trusted_keys = false;
  audience = none;
  sender_deployment_identity = none;
  sender_workload_identity = none;
  receiver_deployment_identity = none;
  receiver_workload_identity = none;
}

abbrev invocation : Invocation
invocation = record {
  agent_id = codes "a";
  actor_id = none;
  resource = some (codes "acct");
  signals = end;
  session_id = none;
  tenant_id = none;
  execution_scope = none;
  require_execution_scope = false;
  delegation = no_delegation;
  has_approval_token = false;
  has_approval_keys = false;
  invocation_id = codes "i";
  effective_binding_id = codes "b";
  has_receipt_sink = true;
  has_circuit_breaker = true;
  failure_fingerprint = codes "f";
  failure_threshold = some 3;
  has_runtime_budget = true;
  budget_scope = some (codes "s");
}

abbrev idle : RuntimeLimits.Store
idle = record {
  switch = some (record { active = false; reason = []; updated_at = 0 });
  leases = [];
  events = [];
}

abbrev reason_text : PolicyDecision → Text
reason_text d = codes "denied"

invoke-IsGuarded_example :
    IsGuarded invocation (invoke services reason_text tool invocation idle).1.events
invoke-IsGuarded_example = invoke-IsGuarded services reason_text tool invocation idle

asks_for_lease :
    any is_lease_request (before_release services reason_text tool invocation idle).1.events ≡ true
unfolding attempt handle_fault go_on require when hlinor_agent_registry.Prelude.is_blank
    hlinor_agent_registry.Fnmatch.fnmatchcase hlinor_agent_registry.Prelude.has_field
    hlinor_agent_registry.Prelude.text_eq hlinor_agent_registry.ActionRequest.freezable_fields
    RuntimeLimits.acquire
asks_for_lease = refl

invoke-released_example :
    ((invoke services reason_text tool invocation idle).1.events
      ≡ released (own_lease_id services reason_text tool invocation)
        ∷ (before_release services reason_text tool invocation idle).1.events)
    × ((invoke services reason_text tool invocation idle).1.world
        ≡ (services.budget_release
            (own_lease_id services reason_text tool invocation)
            (before_release services reason_text tool invocation idle).1.world).1)
invoke-released_example =
    invoke-released services reason_text tool invocation idle refl asks_for_lease
