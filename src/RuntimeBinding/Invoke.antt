-- ===== src/RuntimeBinding/Invoke.antt =====
-- The stages of `BoundTool.invoke` in hlinor_registry/runtime_binding.py after the verified facts: the
-- admissions, the dispatch, the exception handlers and the release of the lease.
use hlinor_agent_registry.Prelude.{
  ℕ, false, not, Option, none, some, List, [], ◌∷◌, ◌++◌, if◌then◌else◌, any, Text, codes, text_eq,
  Value, obj, Fields, end, field, Result, ok, err,
}
use hlinor_agent_registry.CircuitBreaker.{BreakerSnapshot}
use hlinor_agent_registry.Decision.{PolicyDecision}
use hlinor_agent_registry.RuntimeBinding.Frame.{
  Fault, denied_error, trust_error, breaker_error, other_error, problem_of, BoundTool, Invocation,
  breaker_passed, lease_requested, leased, released, dispatched, Frame, Services, Action, ◌>>=◌,
  ◌>>◌, give, raise, lift, modify, note, call, when,
}
use hlinor_agent_registry.RuntimeBinding.Signals.{
  runtime_binding_error, normalized_arguments, scope_signals, delegation_signals, approval_signals,
}
use hlinor_agent_registry.RuntimeBinding.Request.{authorize}
use hlinor_agent_registry.RuntimeBinding.Receipt.{ReceiptFacts, emit_receipt}

-- The receipts of an allowed call, and of a blocked one.
abbrev pub attempted :
    Text → Text → PolicyDecision → Option Text → Option Text → Option BreakerSnapshot → ReceiptFacts
attempted phase reason d output code b = record {
  authorization_result = codes "allowed";
  side_effect_state = codes "side_effect_attempted";
  phase = phase;
  reason = reason;
  decision = some d;
  output_digest = output;
  error_code = code;
  breaker = b;
}

abbrev pub blocked :
    Text → Text → Option PolicyDecision → Text → Option BreakerSnapshot → ReceiptFacts
blocked result reason d code b = record {
  authorization_result = result;
  side_effect_state = codes "blocked_before_side_effect";
  phase = codes "pre_dispatch";
  reason = reason;
  decision = d;
  output_digest = none;
  error_code = some code;
  breaker = b;
}

abbrev expired_codes : List Text
expired_codes = codes "APPROVAL_EXPIRED" ∷ codes "DELEGATION_EXPIRED" ∷ []

abbrev reapproval_codes : List Text
reapproval_codes =
    codes "APPROVAL_EXPIRED"
    ∷ codes "APPROVAL_NOT_YET_VALID"
    ∷ codes "APPROVAL_TARGET_MISMATCH"
    ∷ codes "APPROVAL_REQUEST_MISMATCH"
    ∷ codes "APPROVAL_REPLAYED"
    ∷ codes "APPROVAL_REPLAY_GUARD_REQUIRED"
    ∷ codes "DELEGATION_EXPIRED"
    ∷ codes "DELEGATION_NOT_YET_VALID"
    ∷ codes "DELEGATION_CONTEXT_MISMATCH"
    ∷ codes "DELEGATION_TRANSPORT_CONTEXT_MISMATCH"
    ∷ codes "DELEGATION_REVOKED"
    ∷ codes "DELEGATION_FANOUT_UNREGISTERED"
    ∷ codes "DELEGATION_FANOUT_GUARD_REQUIRED"
    ∷ codes "DELEGATION_TRANSPORT_REPLAYED"
    ∷ codes "DELEGATION_TRANSPORT_REVOKED"
    ∷ codes "DELEGATION_TRANSPORT_REPLAY_GUARD_REQUIRED"
    ∷ []

-- The authorization result of an error with a code.
unfoldable pub refusal_result : Text → Text
refusal_result code =
    if any (text_eq code) expired_codes
    then codes "expired"
    else if any (text_eq code) reapproval_codes
    then codes "reapproval_required"
    else codes "denied"

module _ {W : Type 0} (services : Services W) (reason_text : PolicyDecision → Text)
    (tool : BoundTool) (inv : Invocation) where
  abbrev pub enter_breaker : Option ℕ → Action W (Unit {0})
  enter_breaker none = raise (runtime_binding_error (codes "BREAKER_CONFIG_REQUIRED"))
  enter_breaker (some threshold) = do
    snapshot ← call (services.breaker_before_dispatch inv.failure_fingerprint threshold)
    modify (λ f. record f { breaker_snapshot = some snapshot })
    note (breaker_passed snapshot)

  abbrev pub own_lease_id : Text
  own_lease_id = codes "lease:" ++ inv.invocation_id

  abbrev pub request_lease : Action W (Unit {0})
  request_lease f = (
    ok tt,
    record f {
      budget_lease_id = some own_lease_id;
      events = lease_requested own_lease_id ∷ f.events;
    },
  )

  abbrev pub hold_lease : Text → Action W (Unit {0})
  hold_lease scope = do
    snapshot ← call (services.budget_acquire scope own_lease_id)
    modify (λ f. record f { budget_snapshot = some snapshot })
    note (leased own_lease_id)

  abbrev pub take_lease : Option Text → Action W (Unit {0})
  take_lease none = raise (runtime_binding_error (codes "BUDGET_SCOPE_REQUIRED"))
  take_lease (some scope) = request_lease >> hold_lease scope

  -- From the decision to the call of the target.
  unfoldable pub admit : PolicyDecision → Action W (Unit {0})
  unfolding emit_receipt
  admit d = do
    when inv.has_circuit_breaker (enter_breaker inv.failure_threshold)
    when inv.has_runtime_budget (take_lease inv.budget_scope)
    λ f.
        emit_receipt services tool inv
          (attempted (codes "pre_dispatch") [] d none none f.breaker_snapshot) f

  abbrev pub caught_failure :
      Result Fault BreakerSnapshot × Frame W → Result Fault (Option Fault) × Frame W
  caught_failure (ok snapshot, f) = (ok none, record f { breaker_snapshot = some snapshot })
  caught_failure (err (breaker_error p s), f) = (ok (some (breaker_error p s)), f)
  caught_failure (err fault, f) = (err fault, f)

  abbrev pub count_failure : Option ℕ → Action W (Option Fault)
  count_failure none f = (ok none, f)
  count_failure (some threshold) f =
      caught_failure (call (services.breaker_record_failure inv.failure_fingerprint threshold) f)

  abbrev pub or_first : Option Fault → Fault → Fault
  or_first none fault = fault
  or_first (some update) fault = update

  -- The target has raised.
  unfoldable pub fail_dispatch : PolicyDecision → Fault → Action W Value
  unfolding emit_receipt
  fail_dispatch d fault = do
    update ← if inv.has_circuit_breaker then count_failure inv.failure_threshold else give none
    λ f.
        emit_receipt services tool inv
          (attempted (codes "completed") (codes "tool raised after authorized dispatch") d none
            (some (problem_of fault).type_name) f.breaker_snapshot)
          f
    raise (or_first update fault)

  -- The breaker could not note a success.
  abbrev pub unsaved : PolicyDecision → Fault → Action W (Unit {0})
  unsaved d fault =
      (λ f.
        emit_receipt services tool inv
          (attempted (codes "completed")
            (codes "tool succeeded but breaker state was not persisted") d none
            (some (problem_of fault).code) f.breaker_snapshot)
          f)
      >> raise fault

  abbrev pub caught_success :
      PolicyDecision → Result Fault BreakerSnapshot × Frame W → Result Fault (Unit {0}) × Frame W
  caught_success d (ok snapshot, f) = (ok tt, record f { breaker_snapshot = some snapshot })
  caught_success d (err (breaker_error p s), f) = unsaved d (breaker_error p s) f
  caught_success d (err fault, f) = (err fault, f)

  -- `except RuntimeBindingError: pass`
  abbrev pub digest_if_any : Result Fault Text → Result Fault (Option Text)
  digest_if_any (ok t) = ok (some t)
  digest_if_any (err (trust_error p)) = ok none
  digest_if_any (err fault) = err fault

  -- The target has returned.
  unfoldable pub end_dispatch : PolicyDecision → Value → Action W Value
  unfolding emit_receipt
  end_dispatch d value = do
    when inv.has_circuit_breaker
        (λ f. caught_success d (call (services.breaker_record_success inv.failure_fingerprint) f))
    output ← lift (digest_if_any (services.digest (obj (field (codes "output") value end))))
    λ f.
        emit_receipt services tool inv
          (attempted (codes "completed") [] d output none f.breaker_snapshot) f
    give value

  abbrev pub landed : PolicyDecision → Result Fault Value × Frame W → Result Fault Value × Frame W
  landed d (ok value, f) = end_dispatch d value f
  landed d (err fault, f) = fail_dispatch d fault f

  unfoldable pub dispatch : PolicyDecision → Fields → Action W Value
  unfolding end_dispatch fail_dispatch
  dispatch d normalized = do
    note (dispatched normalized)
    λ f. landed d (call (services.target normalized) f)

  -- The arguments and the decision that the admissions rest on.
  unfoldable pub settle_decision : Action W (Fields × PolicyDecision)
  unfolding normalized_arguments scope_signals delegation_signals approval_signals authorize
  settle_decision = do
    normalized ← normalized_arguments services tool inv
    scoped ← scope_signals services tool inv
    delegated ← delegation_signals services tool inv scoped
    signals ← approval_signals services tool inv delegated
    decision ← authorize services tool inv signals
    give (normalized, decision)

  -- The block of `try`.
  unfoldable pub attempt : Action W Value
  unfolding settle_decision admit dispatch
  attempt = do settled ← settle_decision; admit settled.1; dispatch settled.1 settled.0

  abbrev pub refusal : Fault → Option ReceiptFacts
  refusal (denied_error p d) =
      some (blocked (codes "denied") (reason_text d) (some d) (reason_text d) none)
  refusal (trust_error p) = some (blocked (refusal_result p.code) p.message none p.code none)
  refusal (breaker_error p s) = some (blocked (codes "denied") p.message none p.code s)
  refusal (other_error p) = none

  abbrev pub receipt_if_any : Option ReceiptFacts → Action W (Unit {0})
  receipt_if_any none = give tt
  receipt_if_any (some o) = emit_receipt services tool inv o

  -- The `except` clauses: a receipt unless one was attempted, and the exception again.
  unfoldable pub handle_fault : Fault → Action W Value
  unfolding emit_receipt refusal_result
  handle_fault fault =
      (λ f. when (not f.receipt_attempted) (receipt_if_any (refusal fault)) f) >> raise fault

  abbrev pub handled : Result Fault Value × Frame W → Result Fault Value × Frame W
  handled (ok value, f) = (ok value, f)
  handled (err fault, f) = handle_fault fault f

  abbrev pub release_lease : Option Text → Action W (Unit {0})
  release_lease none = give tt
  release_lease (some lease) = do
    modify (λ f. record f { budget_lease_id = none })
    note (released lease)
    call (services.budget_release lease)

  -- `release_budget`
  unfoldable pub release_budget : Action W (Unit {0})
  release_budget = when inv.has_runtime_budget (λ f. release_lease f.budget_lease_id f)

  abbrev pub finished :
      Result Fault Value → Result Fault (Unit {0}) × Frame W → Result Fault Value × Frame W
  finished r (ok u, f) = (r, f)
  finished r (err fault, f) = (err fault, f)

  abbrev pub finally : Result Fault Value × Frame W → Result Fault Value × Frame W
  finally (r, f) = finished r (release_budget f)

  abbrev pub first_frame : W → Frame W
  first_frame w = record {
    arguments_digest = none;
    request = none;
    verified_approval = none;
    verified_delegation = none;
    breaker_snapshot = none;
    budget_snapshot = none;
    budget_lease_id = none;
    receipt_attempted = false;
    events = [];
    world = w;
  }

  -- `invoke`
  unfoldable pub invoke : W → Result Fault Value × Frame W
  unfolding attempt handle_fault release_budget
  invoke w = finally (handled (attempt (first_frame w)))
