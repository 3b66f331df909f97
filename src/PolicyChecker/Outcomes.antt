-- ===== src/PolicyChecker/Outcomes.antt =====
-- When the checker allows a request, and what it records when it refuses one.
use hlinor_agent_registry.Prelude.{
  ℕ, ◌≡◌, ◌≢◌, refl, sym, ap, ◌∙◌, ◌↔◌, inl, inr, true, Option, none, some, List, [], ◌∷◌, All,
  Text, lookup, Result, ok, >>=-eq-ok, ok-injective, Bool-cases, Option-cases,
}
use hlinor_agent_registry.Enums.{allowed, ReasonCode}
use hlinor_agent_registry.ActionRequest.{ActionRequest}
use hlinor_agent_registry.Policies.Clock.{Stamp}
use hlinor_agent_registry.Policies.Rule.{PolicyRule, PolicyOutcome, HandlerError, check}
use hlinor_agent_registry.Decision.{Mode, strict, permissive, PolicyDecision, Issue, deny, allow}
use hlinor_agent_registry.PolicyChecker.{
  AgentConfig, Snapshot, first_refusal, applicable_rules, decide, apply_rules, allow_match,
  block_match, allow_reason, permit, evaluate_agent, evaluate,
}

module _ (casefold : Text → Text) (fromisoformat : Text → Option Stamp)
    (request_digest : ActionRequest → Text) (now : ℕ) (issue : Issue) where
  -- The rule's handler runs on the request and is satisfied.
  abbrev pub Satisfied : ActionRequest → PolicyRule → Type 0
  Satisfied request rule =
      (outcome : PolicyOutcome) × (check casefold fromisoformat now rule request ≡ ok outcome)
      × (outcome.satisfied ≡ true)

  refusal→ :
      (request : ActionRequest) (rules : List PolicyRule)
      → first_refusal casefold fromisoformat now request rules ≡ ok none
      → All (Satisfied request) rules
  unfolding first_refusal
  refusal→ request [] h = tt
  refusal→ request (rule ∷ rest) h =
      let (outcome, e, k) = >>=-eq-ok (check casefold fromisoformat now rule request) _ h in
      elim (Bool-cases outcome.satisfied) [
        | inl s ↦ ((outcome, e, s), refusal→ request rest (rw s at k))
        | inr s ↦ cc (rw s at k)
      ]

  refusal← :
      (request : ActionRequest) (rules : List PolicyRule)
      → All (Satisfied request) rules
      → first_refusal casefold fromisoformat now request rules ≡ ok none
  unfolding first_refusal
  refusal← request [] h = refl
  refusal← request (rule ∷ rest) ((outcome, e, s), h) = rw (e, s) (refusal← request rest h)

  -- The decision is an allowance for this reason.
  abbrev pub Allows : ReasonCode → Result HandlerError PolicyDecision → Type 0
  Allows reason r =
      (d : PolicyDecision) × (r ≡ ok d) × (d.result ≡ allowed) × (d.reason_code ≡ reason)

  -- The conditions under which a known agent may act.
  abbrev pub Permitted : ActionRequest → AgentConfig → Type 0
  Permitted request agent =
      (block_match casefold request agent ≡ none)
      × (agent.enforcement_mode ≡ strict → allow_match casefold request agent ≢ none)
      × All (Satisfied request) (applicable_rules casefold agent request)

  module _ (snapshot : Snapshot) (request : ActionRequest) (agent : AgentConfig) where
    decide→ :
        (m : Option Text) (rules : List PolicyRule) (refusal : Option PolicyOutcome)
        → (decide request_digest issue snapshot request agent.enforcement_mode m rules
            refusal).result
          ≡ allowed
        → refusal ≡ none
    unfolding decide deny
    decide→ m rules none h = refl
    decide→ m rules (some outcome) h = cc

    apply_rules→ :
        (m : Option Text) (reason : ReasonCode)
        → Allows reason
            (apply_rules casefold fromisoformat request_digest now issue snapshot request agent m)
        → All (Satisfied request) (applicable_rules casefold agent request)
    unfolding apply_rules
    apply_rules→ m reason (d, h, a, r) =
        let rules = applicable_rules casefold agent request in
        let (refusal, e, k) =
          >>=-eq-ok (first_refusal casefold fromisoformat now request rules) _ h in
        refusal→ request rules (rw (decide→ m rules refusal (rw (ok-injective _ d k) a)) at e)

    apply_rules← :
        (m : Option Text)
        → All (Satisfied request) (applicable_rules casefold agent request)
        → Allows
            (allow_reason m)
            (apply_rules casefold fromisoformat request_digest now issue snapshot request agent m)
    unfolding apply_rules allow decide
    apply_rules← m h = (
      decide request_digest issue snapshot request agent.enforcement_mode m
          (applicable_rules casefold agent request) none,
      rw (refusal← request (applicable_rules casefold agent request) h),
      refl,
      refl,
    )

    permit→ :
        (mode : Mode) (m : Option Text) (reason : ReasonCode)
        → Allows reason
            (permit casefold fromisoformat request_digest now issue snapshot request agent mode m)
        → (mode ≡ strict → m ≢ none)
          × All (Satisfied request) (applicable_rules casefold agent request)
    unfolding permit deny
    permit→ strict none reason (d, h, a, r) = cc (rw (← ok-injective _ d h) at a)
    permit→ strict (some p) reason h = (λ s e. cc, apply_rules→ (some p) reason h)
    permit→ permissive m reason h = (λ s. cc, apply_rules→ m reason h)

    permit← :
        (mode : Mode) (m : Option Text)
        → (mode ≡ strict → m ≢ none)
        → All (Satisfied request) (applicable_rules casefold agent request)
        → Allows
            (allow_reason m)
            (permit casefold fromisoformat request_digest now issue snapshot request agent mode m)
    unfolding permit
    permit← strict none n h = absurd (n refl refl)
    permit← strict (some p) n h = apply_rules← (some p) h
    permit← permissive m n h = apply_rules← m h

    pub evaluate_agent→ :
        (reason : ReasonCode)
        → Allows reason
            (evaluate_agent casefold fromisoformat request_digest now issue snapshot request agent)
        → Permitted request agent
    unfolding evaluate_agent deny
    evaluate_agent→ reason (d, h, a, r) = elim (Option-cases (block_match casefold request agent)) [
      | inl e ↦
          let (listed, rules) =
            permit→ agent.enforcement_mode (allow_match casefold request agent) reason
              (d, rw (e, evaluate_agent) at h, a, r) in
          (e, listed, rules)
      | inr (p, e) ↦ cc (rw (← ok-injective _ d (rw (e, evaluate_agent) at h)) at a)
    ]

    pub evaluate_agent← :
        Permitted request agent
        → Allows
            (allow_reason (allow_match casefold request agent))
            (evaluate_agent casefold fromisoformat request_digest now issue snapshot request agent)
    unfolding evaluate_agent
    evaluate_agent← (e, listed, rules) =
        rw (e, evaluate_agent)
          (permit← agent.enforcement_mode (allow_match casefold request agent) listed rules)

  pub Allows-unique :
      (a b : ReasonCode) (r : Result HandlerError PolicyDecision) → Allows a r → Allows b r → a ≡ b
  Allows-unique a b r (d, h, x, p) (e, k, y, q) =
      let same = ok-injective d e (sym h ∙ k) in
      sym p ∙ ap (λ (c : PolicyDecision). c.reason_code) same ∙ q

  Allows-evaluate :
      (snapshot : Snapshot) (request : ActionRequest) (reason : ReasonCode)
      → Allows reason (evaluate casefold fromisoformat request_digest now issue snapshot request)
      → (agent : AgentConfig) × (lookup request.agent_id snapshot.agents ≡ some agent)
        × Allows reason
            (evaluate_agent casefold fromisoformat request_digest now issue snapshot request agent)
  unfolding evaluate deny
  Allows-evaluate snapshot request reason (d, h, a, r) =
      elim (Option-cases (lookup request.agent_id snapshot.agents)) [
        | inl e ↦ cc (rw (← ok-injective _ d (rw (e, evaluate) at h)) at a)
        | inr (agent, e) ↦ (agent, e, (d, rw (e, evaluate) at h, a, r))
      ]

  -- The checker allows a request exactly when its agent is known, no block entry matches, the allow
  -- list has a match if the agent is in strict mode, and every policy that applies runs and is
  -- satisfied; the reason says whether the allow list had a match.
  pub evaluate-allowed_iff :
      (snapshot : Snapshot) (request : ActionRequest) (reason : ReasonCode)
      → Allows reason (evaluate casefold fromisoformat request_digest now issue snapshot request)
        ↔ ((agent : AgentConfig) × (lookup request.agent_id snapshot.agents ≡ some agent)
            × (Permitted request agent)
            × (reason ≡ allow_reason (allow_match casefold request agent)))
  unfolding evaluate
  evaluate-allowed_iff snapshot request reason = (
    λ h.
        let (agent, e, allowance) = Allows-evaluate snapshot request reason h in
        let permitted = evaluate_agent→ snapshot request agent reason allowance in
        (
          agent,
          e,
          permitted,
          Allows-unique _ _ _ allowance (evaluate_agent← snapshot request agent permitted),
        ),
    λ (agent, e, permitted, r).
        rw (e, evaluate, r) (evaluate_agent← snapshot request agent permitted),
  )
