-- ===== src/PolicyChecker/Narrowing.antt =====
-- Policies only restrict; and what a denial by a policy records.
use hlinor_agent_registry.Prelude.{
  ℕ, ◌≡◌, refl, inl, inr, Bool, false, Option, some, List, [], ◌∷◌, ◌++◌, map, All, keep, Text, ok,
  Bool-cases,
}
use hlinor_agent_registry.Enums.{denied, ReasonCode}
use hlinor_agent_registry.ActionRequest.{ActionRequest}
use hlinor_agent_registry.Policies.Clock.{Stamp}
use hlinor_agent_registry.Policies.Rule.{PolicyRule, PolicyOutcome, check}
use hlinor_agent_registry.Decision.{PolicyDecision, Issue, deny}
use hlinor_agent_registry.PolicyChecker.{
  AgentConfig, Snapshot, first_refusal, applicable_rules, decide, apply_rules, or_evaluation_error,
  evaluate_agent, decision_provenance,
}
use hlinor_agent_registry.PolicyChecker.Outcomes.{
  Satisfied, Allows, evaluate_agent→, evaluate_agent←, Allows-unique,
}

All-keep-left :
    {A : Type 0} (P : A → Type 0) (test : A → Bool) (xs ys : List A)
    → All P (keep test (xs ++ ys))
    → All P (keep test xs)
All-keep-left P test [] ys h = tt
All-keep-left P test (x ∷ xs) ys h = elim (Bool-cases (test x)) [
  | inl t ↦ let k = (rw t at h) in rw t (k.0, All-keep-left P test xs ys k.1)
  | inr t ↦ rw t (All-keep-left P test xs ys (rw t at h))
]

All-keep-right :
    {A : Type 0} (P : A → Type 0) (test : A → Bool) (xs ys : List A)
    → All P (keep test (xs ++ ys))
    → All P (keep test ys)
All-keep-right P test [] ys h = h
All-keep-right P test (x ∷ xs) ys h = elim (Bool-cases (test x)) [
  | inl t ↦ All-keep-right P test xs ys (rw t at h).1
  | inr t ↦ All-keep-right P test xs ys (rw t at h)
]

All-keep-middle :
    {A : Type 0} (P : A → Type 0) (test : A → Bool) (xs ys zs : List A)
    → All P (keep test (xs ++ (ys ++ zs)))
    → All P (keep test (xs ++ zs))
All-keep-middle P test [] ys zs h = All-keep-right P test ys zs h
All-keep-middle P test (x ∷ xs) ys zs h = elim (Bool-cases (test x)) [
  | inl t ↦ let k = (rw t at h) in rw t (k.0, All-keep-middle P test xs ys zs k.1)
  | inr t ↦ rw t (All-keep-middle P test xs ys zs (rw t at h))
]

-- The same agent with other rules.
abbrev pub with_rules : AgentConfig → List PolicyRule → AgentConfig
with_rules agent rules = record agent { rules = rules }

module _ (casefold : Text → Text) (fromisoformat : Text → Option Stamp)
    (request_digest : ActionRequest → Text) (now : ℕ) (issue : Issue) where
  -- Policies never widen: a request that is allowed under some rules is allowed, for the same
  -- reason, when any of them are taken out.
  pub evaluate_agent-fewer_rules :
      (snapshot : Snapshot) (request : ActionRequest) (agent : AgentConfig) (reason : ReasonCode)
      (before removed after : List PolicyRule)
      → Allows casefold fromisoformat request_digest now issue reason (
          evaluate_agent casefold fromisoformat request_digest now issue snapshot request
            (with_rules agent (before ++ (removed ++ after))))
      → Allows casefold fromisoformat request_digest now issue reason (
          evaluate_agent casefold fromisoformat request_digest now issue snapshot request
            (with_rules agent (before ++ after)))
  unfolding applicable_rules
  evaluate_agent-fewer_rules snapshot request agent reason before removed after h =
      let more = with_rules agent (before ++ (removed ++ after)) in
      let fewer = with_rules agent (before ++ after) in
      let (blocked, listed, rules) =
        evaluate_agent→ casefold fromisoformat request_digest now issue snapshot request more reason
          h in
      let same = Allows-unique casefold fromisoformat request_digest now issue _ _ _ h (
        evaluate_agent← casefold fromisoformat request_digest now issue snapshot request more
          (blocked, listed, rules)) in
      rw same (
        evaluate_agent← casefold fromisoformat request_digest now issue snapshot request fewer
          (blocked, listed, All-keep-middle _ _ before removed after rules))

  first_refusal-refused :
      (request : ActionRequest) (before : List PolicyRule) (rule : PolicyRule)
      (after : List PolicyRule) (outcome : PolicyOutcome)
      → All (Satisfied casefold fromisoformat request_digest now issue request) before
      → check casefold fromisoformat now rule request ≡ ok outcome
      → outcome.satisfied ≡ false
      → first_refusal casefold fromisoformat now request (before ++ rule ∷ after)
        ≡ ok (some outcome)
  unfolding first_refusal
  first_refusal-refused request [] rule after outcome h c s = rw (c, s)
  first_refusal-refused request (r ∷ before) rule after outcome ((o, e, t), h) c s =
      rw (e, t) (first_refusal-refused request before rule after outcome h c s)

  -- Where the policies before it are satisfied and a policy refuses, the denial carries the reason
  -- and the detail of that policy, and lists all policies that apply, those behind it too.
  pub apply_rules-refused :
      (snapshot : Snapshot) (request : ActionRequest) (agent : AgentConfig)
      (allowed_by : Option Text) (before : List PolicyRule) (rule : PolicyRule)
      (after : List PolicyRule) (outcome : PolicyOutcome)
      → applicable_rules casefold agent request ≡ before ++ rule ∷ after
      → All (Satisfied casefold fromisoformat request_digest now issue request) before
      → check casefold fromisoformat now rule request ≡ ok outcome
      → outcome.satisfied ≡ false
      → (d : PolicyDecision) × (apply_rules casefold fromisoformat request_digest now issue snapshot
            request agent allowed_by
          ≡ ok d)
        × (d.result ≡ denied)
        × (d.reason_code ≡ or_evaluation_error outcome.reason_code)
        × (d.policy_detail ≡ outcome.detail)
        × (d.matched_policy_ids ≡ map (λ r. r.policy_id) (before ++ rule ∷ after))
  unfolding apply_rules decide deny decision_provenance
  apply_rules-refused snapshot request agent allowed_by before rule after outcome e h c s = (
    decide request_digest issue snapshot request agent.enforcement_mode allowed_by
        (before ++ rule ∷ after) (some outcome),
    rw (e, first_refusal-refused request before rule after outcome h c s),
    refl,
    refl,
    refl,
    refl,
  )
