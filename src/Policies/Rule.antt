-- ===== src/Policies/Rule.antt =====
-- The handlers of typed policies. `fromisoformat` and `casefold` are the library functions that the
-- matcher and the clock take as arguments; `now` is the instant that `evaluate` hands over.
use hlinor_agent_registry.Prelude.{
  ℕ, Bool, true, false, ◌&&◌, Option, none, some, List, [], ◌∷◌, if◌then◌else◌, keep, is_empty,
  leb_ℤ, ℤ, pos, Text, codes, is_blank, Value, null, bool, int, str, arr, obj, Items, Fields, Float,
  get_field, get_value, items, number, frozen_eq, Result, ok, err, ◌>>=◌,
}
use hlinor_agent_registry.Enums.{
  ReasonCode, policy_signal_missing, approval_required, evidence_required,
  failure_threshold_reached,
}
use hlinor_agent_registry.ActionRequest.{ActionRequest}
use hlinor_agent_registry.Matching.{request_key, matches, find_match}
use hlinor_agent_registry.Policies.Clock.{Stamp, FreshnessError, parse_timestamp, freshness_error}

-- The keys of `_HANDLERS`.
pub data PolicyKind : Type 0 where
  requires_approval requires_evidence failure_threshold : PolicyKind

-- Why a policy refused: one constructor for each message of the source.
pub data Detail : Type 0 where
  silent missing_signal not_an_object not_a_list : Detail
  wrong_role unnamed_request other_request no_instant : Detail
  stale : FreshnessError → Detail
  no_resource no_claim other_resource no_fresh_claim : Detail
  count_unreported count_reached : Detail

pub record PolicyOutcome : Type 0 where
  pub policy_id : Text
  pub satisfied : Bool
  pub reason_code : Option ReasonCode
  pub detail : Detail

-- What a handler raises on a bundle that the loader would not have let through.
pub data HandlerError : Type 0 where
  type_error key_error : HandlerError

pub record PolicyRule : Type 0 where
  pub policy_id : Text
  pub kind : PolicyKind
  pub trigger : Items
  pub spec : Fields

abbrev pub Checked : Type 0 → Type 0
Checked = Result HandlerError

abbrev pub passed : PolicyRule → PolicyOutcome
passed rule = record {
  policy_id = rule.policy_id;
  satisfied = true;
  reason_code = none;
  detail = silent;
}

abbrev pub refused : PolicyRule → ReasonCode → Detail → PolicyOutcome
refused rule code detail = record {
  policy_id = rule.policy_id;
  satisfied = false;
  reason_code = some code;
  detail = detail;
}

-- `_require_bool`: a switch that is absent is on, and any other value than a boolean raises.
unfoldable pub require_bool : Text → Fields → Checked Bool
require_bool name spec = elim (get_field name spec) [
  | none ↦ ok true
  | some v ↦ elim v [ bool b ↦ ok b | _ ↦ err type_error ]
]

-- `float(max_age)`: a number, or an exception.
unfoldable pub to_float : Value → Checked Float
to_float v = elim (number v) [ none ↦ err type_error | some x ↦ ok x ]

abbrev pub signal_name : PolicyKind → Text
signal_name requires_approval = codes "approval"
signal_name requires_evidence = codes "evidence"
signal_name failure_threshold = codes "failure_counts"

-- `required_role is not None and approval.get("approver_role") != required_role`
unfoldable pub role_ok : Fields → Fields → Bool
role_ok spec approval = elim (get_value (codes "approver_role") spec) [
  | null ↦ true
  | role ↦ frozen_eq (get_value (codes "approver_role") approval) role
]

abbrev pub approval_outcome : PolicyRule → Option Detail → PolicyOutcome
approval_outcome rule none = passed rule
approval_outcome rule (some detail) = refused rule approval_required detail

-- `[claim for claim in signal if isinstance(claim, Mapping)]`
unfoldable pub claims : List Value → List Fields
claims [] = []
claims (obj claim ∷ rest) = claim ∷ claims rest
claims (_ ∷ rest) = claims rest

unfoldable pub of_type : Value → Fields → Bool
of_type required_type claim = frozen_eq (get_value (codes "type") claim) required_type

unfoldable pub names_resource : Option Text → Fields → Bool
names_resource none claim = frozen_eq (get_value (codes "resource") claim) null
names_resource (some resource) claim = frozen_eq (get_value (codes "resource") claim) (str resource)

abbrev pub is_unset : Option Text → Bool
is_unset none = true
is_unset (some resource) = is_blank resource

abbrev pub evidence_outcome : PolicyRule → Option Detail → PolicyOutcome
evidence_outcome rule none = passed rule
evidence_outcome rule (some detail) = refused rule evidence_required detail

-- `spec.get("evidence_types") or []`, walked. The loader lets a list through, or null.
unfoldable pub evidence_types : Value → Checked (List Value)
evidence_types null = ok []
evidence_types (arr types) = ok (items types)
evidence_types _ = err type_error

module _ (casefold : Text → Text) (fromisoformat : Text → Option Stamp) (now : ℕ) where
  -- The binding of an approval to the request that it was granted for.
  unfoldable pub binding_error : ActionRequest → Value → Option Detail
  binding_error request (str granted_for) =
      if is_blank granted_for
      then some unnamed_request
      else if matches casefold granted_for (request_key request.action request.resource) false
      then none
      else some other_request
  binding_error request _ = some unnamed_request

  abbrev pub instant_error : Option ℕ → Float → Option Detail
  instant_error none max_age = some no_instant
  instant_error (some granted_at) max_age = elim (freshness_error granted_at max_age now) [
    | none ↦ none
    | some e ↦ some (stale e)
  ]

  -- The freshness of an approval, where the policy sets a window.
  unfoldable pub age_error : Value → Fields → Checked (Option Detail)
  age_error null approval = ok none
  age_error max_age approval = do
    limit ← to_float max_age
    ok (
        instant_error (parse_timestamp fromisoformat (get_value (codes "granted_at") approval))
          limit)

  -- The checks of `_check_approval` after the role.
  unfoldable pub bound_approval : PolicyRule → ActionRequest → Fields → Checked (Option Detail)
  bound_approval rule request approval = do
    bind_to_request ← require_bool (codes "bind_to_request") rule.spec
    let bound =
        (if bind_to_request
          then binding_error request (get_value (codes "granted_for") approval)
          else none)
    elim bound [
      | some detail ↦ ok (some detail)
      | none ↦ age_error (get_value (codes "max_age_seconds") rule.spec) approval
    ]

  unfoldable pub check_approval : PolicyRule → ActionRequest → Value → Checked PolicyOutcome
  unfolding bound_approval
  check_approval rule request (obj approval) =
      if role_ok rule.spec approval
      then (do problem ← bound_approval rule request approval; ok (approval_outcome rule problem))
      else ok (refused rule approval_required wrong_role)
  check_approval rule request _ = ok (refused rule policy_signal_missing not_an_object)

  unfoldable pub is_fresh_claim : Float → Fields → Bool
  is_fresh_claim max_age claim =
      elim (parse_timestamp fromisoformat (get_value (codes "observed_at") claim)) [
        | none ↦ false
        | some observed_at ↦ elim (freshness_error observed_at max_age now) [
          | none ↦ true
          | some e ↦ false
        ]
      ]

  -- The window of one required type over the candidates that are left.
  unfoldable pub window_error : Value → List Fields → Checked (Option Detail)
  window_error null candidates = ok none
  window_error max_age candidates = do
    limit ← to_float max_age
    ok (if is_empty (keep (is_fresh_claim limit) candidates) then some no_fresh_claim else none)

  -- One round of the loop over `evidence_types`.
  unfoldable pub type_error? :
      Bool → Option Text → Value → List Fields → Value → Checked (Option Detail)
  unfolding window_error
  type_error? same_resource resource max_age evidence required_type =
      let candidates = keep (of_type required_type) evidence in
      let about =
        (if same_resource then keep (names_resource resource) candidates else candidates) in
      if is_empty candidates
      then ok (some no_claim)
      else if is_empty about
      then ok (some other_resource)
      else window_error max_age about

  unfoldable pub types_error :
      Bool → Option Text → Value → List Fields → List Value → Checked (Option Detail)
  types_error same resource max_age evidence [] = ok none
  types_error same resource max_age evidence (t ∷ rest) = do
    problem ← type_error? same resource max_age evidence t
    elim problem [
      | some detail ↦ ok (some detail)
      | none ↦ types_error same resource max_age evidence rest
    ]

  unfoldable pub check_evidence : PolicyRule → ActionRequest → Value → Checked PolicyOutcome
  unfolding types_error
  check_evidence rule request (arr signal) = do
    same_resource ← require_bool (codes "same_resource") rule.spec
    if same_resource && is_unset request.resource
        then ok (refused rule evidence_required no_resource)
        else do
          types ← evidence_types (get_value (codes "evidence_types") rule.spec)
          problem ←
              types_error same_resource request.resource
                (get_value (codes "max_age_seconds") rule.spec) (claims (items signal)) types
          ok (evidence_outcome rule problem)
  check_evidence rule request _ = ok (refused rule policy_signal_missing not_a_list)

-- `spec[name]`
unfoldable pub require_field : Text → Fields → Checked Value
require_field name spec = elim (get_field name spec) [ none ↦ err key_error | some v ↦ ok v ]

-- `counts.get(counter)`. The loader lets a text through, or null, which is no key of a mapping.
unfoldable pub observed_count : Value → Fields → Value
observed_count (str counter) counts = get_value counter counts
observed_count _ counts = null

-- `observed >= limit`. The loader lets an integer through, or null.
unfoldable pub reaches : ℤ → Value → Checked Bool
reaches observed (int limit) = ok (leb_ℤ limit observed)
reaches observed _ = err type_error

unfoldable pub count_outcome : PolicyRule → Value → Value → Checked PolicyOutcome
count_outcome rule limit (int (pos n)) = do
  reached ← reaches (pos n) limit
  ok (if reached then refused rule failure_threshold_reached count_reached else passed rule)
count_outcome rule limit _ = ok (refused rule policy_signal_missing count_unreported)

unfoldable pub check_failure_threshold : PolicyRule → Value → Checked PolicyOutcome
unfolding count_outcome
check_failure_threshold rule (obj counts) = do
  counter ← require_field (codes "counter") rule.spec
  limit ← require_field (codes "max_consecutive_failures") rule.spec
  count_outcome rule limit (observed_count counter counts)
check_failure_threshold rule _ = ok (refused rule policy_signal_missing not_an_object)

module _ (casefold : Text → Text) (fromisoformat : Text → Option Stamp) (now : ℕ) where
  unfoldable pub handle : PolicyRule → PolicyKind → ActionRequest → Value → Checked PolicyOutcome
  handle rule requires_approval request signal =
      check_approval casefold fromisoformat now rule request signal
  handle rule requires_evidence request signal =
      check_evidence casefold fromisoformat now rule request signal
  handle rule failure_threshold request signal = check_failure_threshold rule signal

  -- `PolicyRule.check`
  unfoldable pub check : PolicyRule → ActionRequest → Checked PolicyOutcome
  unfolding handle
  check rule request = elim (get_value (signal_name rule.kind) request.signals) [
    | null ↦ ok (refused rule policy_signal_missing missing_signal)
    | signal ↦ handle rule rule.kind request signal
  ]

-- `PolicyRule.applies_to`
unfoldable pub applies_to : (Text → Text) → PolicyRule → Text → Bool
applies_to casefold rule key = elim (find_match casefold (arr rule.trigger) key false) [
  | none ↦ false
  | some pattern ↦ true
]
