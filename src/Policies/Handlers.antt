-- ===== src/Policies/Handlers.antt =====
-- What the approval and failure-threshold handlers demand, stated without their control flow.
use hlinor_agent_registry.Prelude.{
  ℕ, ◌+◌, ◌*◌, ◌≤◌, ◌<◌, ◌≡◌, refl, ◌↔◌, inl, inr, Bool, true, false, Option, none, some, arith,
  pos, negsuc, Text, codes, is_blank, text_eq_refl, Value, null, int, str, obj, Fields, micros,
  get_field, get_value, number, million, frozen_eq, frozen_eq-str, ok, Option-cases,
}
use hlinor_agent_registry.ActionRequest.{ActionRequest, optional_value}
use hlinor_agent_registry.Fnmatch.{translate}
use hlinor_agent_registry.Fnmatch.Language.{Matches, fnmatchcase_iff}
use hlinor_agent_registry.Matching.{request_key, matches}
use hlinor_agent_registry.Policies.Clock.{
  Stamp, parse_timestamp, freshness_error, allowed_clock_skew, freshness_error-none_iff,
}
use hlinor_agent_registry.Policies.Rule.{
  PolicyRule, Detail, Checked, passed, require_bool, to_float, role_ok, binding_error, age_error,
  bound_approval, check_approval, require_field, observed_count, reaches, count_outcome,
  check_failure_threshold, instant_error,
}

-- A window of the policy in whole seconds, if it sets one.
abbrev pub window_value : Option ℕ → Value
window_value none = null
window_value (some seconds) = int (pos seconds)

module _ (fromisoformat : Text → Option Stamp) (now : ℕ) where
  -- The text of `value` is an instant inside the window: not ahead of the clock by more than the
  -- skew allowance, and not behind it by more than the limit.
  abbrev pub WindowHolds : Value → Option ℕ → Type 0
  WindowHolds value none = Unit
  WindowHolds value (some seconds) =
      (t : ℕ) × (parse_timestamp fromisoformat value ≡ some t)
      × (t ≤ now + allowed_clock_skew)
      × (now ≤ t + seconds * million)

abbrev pub RoleHolds : Fields → Option Text → Type 0
RoleHolds approval none = Unit
RoleHolds approval (some role) = get_value (codes "approver_role") approval ≡ str role

-- The approval names a pattern that matches the key of this very request.
abbrev pub BindingHolds : ActionRequest → Fields → Bool → Type 0
BindingHolds request approval false = Unit
BindingHolds request approval true =
    (pattern : Text) × (get_value (codes "granted_for") approval ≡ str pattern)
    × (is_blank pattern ≡ false)
    × Matches (translate pattern) (request_key request.action request.resource)

frozen_eq-str_refl : (t : Text) → frozen_eq (str t) (str t) ≡ true
unfolding frozen_eq
frozen_eq-str_refl t = text_eq_refl t

role_ok_iff :
    (spec approval : Fields) (role : Option Text)
    → get_value (codes "approver_role") spec ≡ optional_value role
    → (role_ok spec approval ≡ true) ↔ RoleHolds approval role
unfolding role_ok
role_ok_iff spec approval none e = (λ h. tt, λ h. rw (e, role_ok))
role_ok_iff spec approval (some role) e = (
  λ h. frozen_eq-str _ role (rw (e, role_ok) at h),
  λ h. rw (e, role_ok, h) (frozen_eq-str_refl role),
)

module _ (casefold : Text → Text) (fromisoformat : Text → Option Stamp) (now : ℕ) where
  binding→ :
      (request : ActionRequest) (approval : Fields) (v : Value)
      → get_value (codes "granted_for") approval ≡ v
      → binding_error casefold fromisoformat now request v ≡ none
      → BindingHolds request approval true
  unfolding binding_error matches
  binding→ request approval (str p) e h =
      (p, e, ground arith, (fnmatchcase_iff _ p).0 (ground arith))
  binding→ request approval v e h = cc

  binding← :
      (request : ActionRequest) (approval : Fields)
      → BindingHolds request approval true
      → binding_error casefold fromisoformat now request (get_value (codes "granted_for") approval)
        ≡ none
  unfolding binding_error matches
  binding← request approval (p, e, b, m) = rw (e, b, (fnmatchcase_iff _ p).1 m)

  fresh→ :
      (t limit : ℕ)
      → ◌≡◌ {A = Checked (Option Detail)}
          (ok (instant_error casefold fromisoformat now (some t) (micros (pos limit))))
          (ok none)
      → (t ≤ now + allowed_clock_skew) × (now ≤ t + limit)
  fresh→ t limit h = elim (Option-cases (freshness_error t (micros (pos limit)) now)) [
    | inl e ↦ (freshness_error-none_iff t limit now).0 e
    | inr (x, e) ↦ cc (rw (e, instant_error) at h)
  ]

  age→ :
      (window : Option ℕ) (approval : Fields)
      → age_error casefold fromisoformat now (window_value window) approval ≡ ok none
      → WindowHolds fromisoformat now (get_value (codes "granted_at") approval) window
  unfolding age_error to_float number
  age→ none approval h = tt
  age→ (some seconds) approval h =
      elim (Option-cases
        (parse_timestamp fromisoformat (get_value (codes "granted_at") approval))) [
          | inl e ↦ cc (rw (e, age_error) at h)
          | inr (t, e) ↦
              let (early, late) = fresh→ t (seconds * million) (rw (e, age_error) at h) in
              (t, e, early, late)
        ]

  age← :
      (window : Option ℕ) (approval : Fields)
      → WindowHolds fromisoformat now (get_value (codes "granted_at") approval) window
      → age_error casefold fromisoformat now (window_value window) approval ≡ ok none
  unfolding age_error to_float number
  age← none approval h = refl
  age← (some seconds) approval (t, e, early, late) =
      rw (e, instant_error, (freshness_error-none_iff t (seconds * million) now).1 (early, late))

  module _ (rule : PolicyRule) (request : ActionRequest) (approval : Fields) (window : Option ℕ)
      (aged : get_value (codes "max_age_seconds") rule.spec ≡ window_value window) where
    bound→ :
        (bind : Bool)
        → require_bool (codes "bind_to_request") rule.spec ≡ ok bind
        → bound_approval casefold fromisoformat now rule request approval ≡ ok none
        → BindingHolds request approval bind
          × WindowHolds fromisoformat now (get_value (codes "granted_at") approval) window
    unfolding bound_approval
    bound→ false b h = (tt, age→ window approval (rw (b, aged, bound_approval) at h))
    bound→ true b h =
        elim (Option-cases (
          binding_error casefold fromisoformat now request
            (get_value (codes "granted_for") approval))) [
              | inl e ↦ (
                binding→ request approval _ refl e,
                age→ window approval (rw (b, e, aged, bound_approval) at h),
              )
              | inr (x, e) ↦ cc (rw (b, e, bound_approval) at h)
            ]

    bound← :
        (bind : Bool)
        → require_bool (codes "bind_to_request") rule.spec ≡ ok bind
        → BindingHolds request approval bind
        → WindowHolds fromisoformat now (get_value (codes "granted_at") approval) window
        → bound_approval casefold fromisoformat now rule request approval ≡ ok none
    unfolding bound_approval
    bound← false b h w = rw (b, aged) (age← window approval w)
    bound← true b h w = rw (b, binding← request approval h, aged) (age← window approval w)

  module _ (rule : PolicyRule) (request : ActionRequest) (approval : Fields) where
    passed→ :
        check_approval casefold fromisoformat now rule request (obj approval) ≡ ok (passed rule)
        → (role_ok rule.spec approval ≡ true)
          × (bound_approval casefold fromisoformat now rule request approval ≡ ok none)
    unfolding check_approval
    passed→ h = ground arith

    passed← :
        role_ok rule.spec approval ≡ true
        → bound_approval casefold fromisoformat now rule request approval ≡ ok none
        → check_approval casefold fromisoformat now rule request (obj approval) ≡ ok (passed rule)
    unfolding check_approval
    passed← r b = rw (r, b)

    -- For a policy that names a role or none, has a Boolean `bind_to_request` or none and a window in
    -- whole seconds or none, an approval passes exactly when it comes from that role, names a
    -- pattern that matches the key of this request (if bound) and lies inside the window (if any).
    pub check_approval-passed_iff :
        (role : Option Text) (bind : Bool) (window : Option ℕ)
        → get_value (codes "approver_role") rule.spec ≡ optional_value role
        → require_bool (codes "bind_to_request") rule.spec ≡ ok bind
        → get_value (codes "max_age_seconds") rule.spec ≡ window_value window
        → (check_approval casefold fromisoformat now rule request (obj approval) ≡ ok (passed rule))
          ↔ (RoleHolds approval role
              × BindingHolds request approval bind
              × WindowHolds fromisoformat now (get_value (codes "granted_at") approval) window)
    check_approval-passed_iff role bind window er eb ew = (
      λ h.
          let (r, b) = passed→ h in
          let (bh, wh) = bound→ rule request approval window ew bind eb b in
          ((role_ok_iff rule.spec approval role er).0 r, bh, wh),
      λ (rh, bh, wh).
          passed← ((role_ok_iff rule.spec approval role er).1 rh)
            (bound← rule request approval window ew bind eb bh wh),
    )

count→ :
    (rule : PolicyRule) (limit : ℕ) (v : Value)
    → count_outcome rule (int (pos limit)) v ≡ ok (passed rule)
    → (n : ℕ) × (v ≡ int (pos n)) × (n < limit)
unfolding count_outcome reaches
count→ rule limit (int (pos n)) h = (n, refl, ground arith)
count→ rule limit (int (negsuc n)) h = cc
count→ rule limit v h = cc

count← :
    (rule : PolicyRule) (limit n : ℕ)
    → n < limit
    → count_outcome rule (int (pos limit)) (int (pos n)) ≡ ok (passed rule)
unfolding count_outcome reaches
count← rule limit n h = ground arith

threshold_step :
    (rule : PolicyRule) (counts : Fields) (counter : Text) (limit : Value)
    → get_field (codes "counter") rule.spec ≡ some (str counter)
    → get_field (codes "max_consecutive_failures") rule.spec ≡ some limit
    → check_failure_threshold rule (obj counts)
      ≡ count_outcome rule limit (get_value counter counts)
unfolding check_failure_threshold require_field observed_count
threshold_step rule counts counter limit ec el = ground arith

-- For a failure-threshold policy with a counter and an integer limit, a report passes exactly when
-- it gives that counter as a non-negative integer below the limit.
pub check_failure_threshold-passed_iff :
    (rule : PolicyRule) (counts : Fields) (counter : Text) (limit : ℕ)
    → get_field (codes "counter") rule.spec ≡ some (str counter)
    → get_field (codes "max_consecutive_failures") rule.spec ≡ some (int (pos limit))
    → (check_failure_threshold rule (obj counts) ≡ ok (passed rule))
      ↔ ((n : ℕ) × (get_value counter counts ≡ int (pos n)) × (n < limit))
check_failure_threshold-passed_iff rule counts counter limit ec el =
    rw (threshold_step rule counts counter (int (pos limit)) ec el)
      (count→ rule limit (get_value counter counts), λ (n, e, h). rw e (count← rule limit n h))
