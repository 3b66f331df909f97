-- ===== src/RuntimeBinding/Stability.antt =====
-- What every step of `BoundTool.invoke` in hlinor_registry/runtime_binding.py but the call of the
-- target leaves true of the events and of the lease that the call remembers.
use hlinor_agent_registry.Prelude.{
  ℕ, codes, ◌||◌, ◌≡◌, refl, Bool, true, false, Option, none, some, List, [], ◌∷◌, if◌then◌else◌,
  Text, Value, Fields, Result, ok, err,
}
use hlinor_agent_registry.CircuitBreaker.{BreakerSnapshot}
use hlinor_agent_registry.Decision.{PolicyDecision}
use hlinor_agent_registry.RuntimeBinding.Frame.{
  problem_of, DelegationInput, Fault, denied_error, trust_error, breaker_error, other_error,
  BoundTool, Invocation, Event, authorized, breaker_passed, lease_requested, leased, recorded,
  dispatched, Frame, Services, Action, give, go_on, require, when,
}
use hlinor_agent_registry.RuntimeBinding.Signals.{
  normalized_arguments, validate_resource, check_pattern, delegation_verified_by, for_audience,
  accept_delegation, accept_approval, scope_signals, delegation_signals, approval_signals,
}
use hlinor_agent_registry.RuntimeBinding.Request.{request_factory, authorize}
use hlinor_agent_registry.RuntimeBinding.Receipt.{ReceiptFacts, append_to_sink, emit_receipt}
use hlinor_agent_registry.RuntimeBinding.Invoke.{
  attempted, admit, attempt, dispatch, enter_breaker, take_lease, hold_lease, own_lease_id,
  caught_failure, count_failure, caught_success, landed, fail_dispatch, end_dispatch,
  settle_decision, handle_fault, handled, receipt_if_any,
}

abbrev pub is_dispatch : Event → Bool
is_dispatch (dispatched arguments) = true
is_dispatch _ = false

abbrev pub is_lease_request : Event → Bool
is_lease_request (lease_requested l) = true
is_lease_request _ = false

module _ {W : Type 0} (services : Services W) (tool : BoundTool) (inv : Invocation)
    (reason_text : PolicyDecision → Text) (P : Option Text → List Event → Type 0)
    (keeps : (l : Option Text) (e : Event) (es : List Event)
      → is_dispatch e ≡ false
      → is_lease_request e ≡ false
      → P l es
      → P l (e ∷ es))
    (requests : (l : Option Text) (es : List Event)
      → P l es
      → P
          (some (own_lease_id services reason_text tool inv))
          (lease_requested (own_lease_id services reason_text tool inv) ∷ es)) where
  abbrev Stable : {A : Type 0} → Action W A → Type 0
  Stable m = (f : Frame W) → P f.budget_lease_id f.events → P (m f).1.budget_lease_id (m f).1.events

  go_on-Stable :
      {A B : Type 0} (r : Result Fault A × Frame W) (k : A → Action W B)
      → P r.1.budget_lease_id r.1.events
      → ((a : A) → Stable (k a))
      → P (go_on r k).1.budget_lease_id (go_on r k).1.events
  unfolding go_on
  go_on-Stable (err fault, f) k p h = p
  go_on-Stable (ok a, f) k p h = h a f p

  require-Stable : (b : Bool) (fault : Fault) → Stable (require {W = W} b fault)
  unfolding require
  require-Stable true fault f p = p
  require-Stable false fault f p = p

  pub when-Stable : (b : Bool) (m : Action W (Unit {0})) → Stable m → Stable (when b m)
  unfolding when
  when-Stable true m h f p = h f p
  when-Stable false m h f p = p

  if-Stable :
      {A : Type 0} (b : Bool) (m n : Action W A) → Stable m → Stable n → Stable (if b then m else n)
  if-Stable true m n h k = h
  if-Stable false m n h k = k

  check_pattern-Stable : (o : Option Text) → Stable (check_pattern services tool inv o)
  check_pattern-Stable none f p = p
  check_pattern-Stable (some resource) f p =
      go_on-Stable _ _ (require-Stable _ _ f p) (λ u. require-Stable _ _)

  normalized_arguments-Stable : Stable (normalized_arguments services tool inv)
  unfolding normalized_arguments validate_resource
  normalized_arguments-Stable f p = go_on-Stable _ _ p (λ normalized g q.
      go_on-Stable _ _ (when-Stable _ _ (check_pattern-Stable inv.resource) g q)
        (λ u h r. go_on-Stable _ _ r (λ digest h' r'. go_on-Stable _ _ r' (λ v h'' r''. r''))))

  scope_signals-Stable : Stable (scope_signals services tool inv)
  unfolding scope_signals
  scope_signals-Stable f p =
      go_on-Stable _ _ (require-Stable _ _ f p)
        (λ u g q. go_on-Stable _ _ (require-Stable _ _ g q) (λ v h r. r))

  delegation_verified_by-Stable :
      (d : DelegationInput) (audience : Text)
      → Stable (delegation_verified_by services tool inv d audience)
  delegation_verified_by-Stable d audience =
      if-Stable d.has_transport _ _ (λ f p. go_on-Stable _ _ (require-Stable _ _ f p) (λ u g q. q))
        (λ f p. p)

  for_audience-Stable :
      (d : DelegationInput) (o : Option Text) → Stable (for_audience services tool inv d o)
  for_audience-Stable d none f p = p
  for_audience-Stable d (some audience) f p = delegation_verified_by-Stable d audience f p

  accept_delegation-Stable :
      (d : DelegationInput) (signals : Fields)
      → Stable (accept_delegation services tool inv d signals)
  accept_delegation-Stable d signals f p = go_on-Stable _ _ (require-Stable _ _ f p) (λ u g q.
      go_on-Stable _ _ (for_audience-Stable d d.audience g q) (λ verified h r.
        go_on-Stable _ _ r
          (λ v h' r'. go_on-Stable _ _ (require-Stable _ _ h' r') (λ w h'' r''. r''))))

  delegation_signals-Stable :
      (signals : Fields) → Stable (delegation_signals services tool inv signals)
  unfolding delegation_signals
  delegation_signals-Stable signals f p = go_on-Stable _ _ (require-Stable _ _ f p) (λ u g q.
      if-Stable (inv.delegation.has_chain || inv.delegation.has_transport)
        (accept_delegation services tool inv inv.delegation signals) (give signals)
        (accept_delegation-Stable inv.delegation signals) (λ h r. r) g q)

  accept_approval-Stable : (signals : Fields) → Stable (accept_approval services tool inv signals)
  accept_approval-Stable signals f p = go_on-Stable _ _ (require-Stable _ _ f p) (λ u g q.
      go_on-Stable _ _ (require-Stable _ _ g q) (λ v h r. go_on-Stable _ _ r (λ digest h' r'.
        go_on-Stable _ _ r' (λ verified h'' r''. go_on-Stable _ _ r'' (λ w i s. s)))))

  request_factory-Stable :
      (environment : Text) (signals : Fields)
      → Stable (request_factory services tool inv environment signals)
  unfolding request_factory
  request_factory-Stable environment signals f p = go_on-Stable _ _ p (λ request g q.
      go_on-Stable _ _ q (λ v h r.
        go_on-Stable _ _ r
          (λ digest h' r'. go_on-Stable _ _ (require-Stable _ _ h' r') (λ w i s. s))))

  authorize-Stable : (signals : Fields) → Stable (authorize services tool inv signals)
  unfolding authorize
  authorize-Stable signals f p = go_on-Stable _ _ p (λ environment g q.
      go_on-Stable _ _ (request_factory-Stable environment signals g q) (λ request h r.
        go_on-Stable _ _ r (λ decision i s. go_on-Stable _ _ s (λ u i' s'.
          go_on-Stable _ _ (require-Stable _ _ i' s') (λ v j t.
            go_on-Stable _ _ (keeps _ (authorized decision) _ refl refl t) (λ w j' t'. t'))))))

  pub emit_receipt-Stable : (o : ReceiptFacts) → Stable (emit_receipt services tool inv o)
  unfolding emit_receipt
  emit_receipt-Stable o f p =
      when-Stable _ (append_to_sink services tool inv o)
        (λ g q. go_on-Stable _ _ q (λ u h r.
          go_on-Stable _ _ r (λ receipt i s.
            go_on-Stable _ _ s (λ v j t. keeps _ (recorded receipt) _ refl refl t))))
        f p

  approval_signals-Stable : (signals : Fields) → Stable (approval_signals services tool inv signals)
  unfolding approval_signals
  approval_signals-Stable signals =
      if-Stable inv.has_approval_token (accept_approval services tool inv signals) (give signals)
        (accept_approval-Stable signals) (λ h r. r)

  pub enter_breaker-Stable : (o : Option ℕ) → Stable (enter_breaker services reason_text tool inv o)
  enter_breaker-Stable none f p = p
  enter_breaker-Stable (some threshold) f p = go_on-Stable _ _ p (λ snapshot g q.
      go_on-Stable _ _ q (λ u h r. keeps _ (breaker_passed snapshot) _ refl refl r))

  hold_lease-Stable : (scope : Text) → Stable (hold_lease services reason_text tool inv scope)
  hold_lease-Stable scope f p = go_on-Stable _ _ p (λ snapshot g q.
      go_on-Stable _ _ q
        (λ u h r. keeps _ (leased (own_lease_id services reason_text tool inv)) _ refl refl r))

  pub take_lease-Stable : (o : Option Text) → Stable (take_lease services reason_text tool inv o)
  take_lease-Stable none f p = p
  take_lease-Stable (some scope) f p =
      go_on-Stable _ _ (requests _ _ p) (λ u. hold_lease-Stable scope)

  pub admit-Stable : (d : PolicyDecision) → Stable (admit services reason_text tool inv d)
  unfolding admit
  admit-Stable d f p =
      go_on-Stable _ _ (when-Stable _ _ (enter_breaker-Stable inv.failure_threshold) f p) (λ u g q.
        go_on-Stable _ _ (when-Stable _ _ (take_lease-Stable inv.budget_scope) g q) (λ v h r.
          emit_receipt-Stable (attempted (codes "pre_dispatch") [] d none none h.breaker_snapshot) h
            r))

  pub settle_decision-Stable : Stable (settle_decision services reason_text tool inv)
  unfolding settle_decision
  settle_decision-Stable f p = go_on-Stable _ _ (normalized_arguments-Stable f p) (λ normalized g q.
      go_on-Stable _ _ (scope_signals-Stable g q) (λ scoped h r.
        go_on-Stable _ _ (delegation_signals-Stable scoped h r) (λ delegated i s.
          go_on-Stable _ _ (approval_signals-Stable delegated i s)
            (λ signals j t. go_on-Stable _ _ (authorize-Stable signals j t) (λ decision k v. v)))))

  caught_failure-Stable :
      (r : Result Fault BreakerSnapshot × Frame W)
      → P r.1.budget_lease_id r.1.events
      → P
          (caught_failure services reason_text tool inv r).1.budget_lease_id
          (caught_failure services reason_text tool inv r).1.events
  caught_failure-Stable (ok snapshot, f) p = p
  caught_failure-Stable (err (breaker_error q s), f) p = p
  caught_failure-Stable (err (denied_error q d), f) p = p
  caught_failure-Stable (err (trust_error q), f) p = p
  caught_failure-Stable (err (other_error q), f) p = p

  count_failure-Stable : (o : Option ℕ) → Stable (count_failure services reason_text tool inv o)
  count_failure-Stable none f p = p
  count_failure-Stable (some threshold) f p = caught_failure-Stable _ p

  fail_dispatch-Stable :
      (d : PolicyDecision) (fault : Fault)
      → Stable (fail_dispatch services reason_text tool inv d fault)
  unfolding fail_dispatch
  fail_dispatch-Stable d fault f p =
      go_on-Stable _ _
        (if-Stable inv.has_circuit_breaker
          (count_failure services reason_text tool inv inv.failure_threshold) (give none)
          (count_failure-Stable inv.failure_threshold) (λ g q. q) f p)
        (λ update g q.
          go_on-Stable _ _
            (emit_receipt-Stable
              (attempted (codes "completed") (codes "tool raised after authorized dispatch") d none
                (some (problem_of fault).type_name) g.breaker_snapshot)
              g q)
            (λ u h r. r))

  caught_success-Stable :
      (d : PolicyDecision) (r : Result Fault BreakerSnapshot × Frame W)
      → P r.1.budget_lease_id r.1.events
      → P
          (caught_success services reason_text tool inv d r).1.budget_lease_id
          (caught_success services reason_text tool inv d r).1.events
  caught_success-Stable d (ok snapshot, f) p = p
  caught_success-Stable d (err (breaker_error q s), f) p =
      go_on-Stable _ _ (emit_receipt-Stable _ f p) (λ u h r. r)
  caught_success-Stable d (err (denied_error q e), f) p = p
  caught_success-Stable d (err (trust_error q), f) p = p
  caught_success-Stable d (err (other_error q), f) p = p

  end_dispatch-Stable :
      (d : PolicyDecision) (value : Value)
      → Stable (end_dispatch services reason_text tool inv d value)
  unfolding end_dispatch
  end_dispatch-Stable d value f p =
      go_on-Stable _ _
        (when-Stable inv.has_circuit_breaker _ (λ g q. caught_success-Stable d _ q) f p)
        (λ u g q. go_on-Stable _ _ q (λ output h r.
          go_on-Stable _ _
            (emit_receipt-Stable (attempted (codes "completed") [] d output none h.breaker_snapshot)
              h r)
            (λ v i s. s)))

  pub landed-Stable :
      (d : PolicyDecision) (r : Result Fault Value × Frame W)
      → P r.1.budget_lease_id r.1.events
      → P
          (landed services reason_text tool inv d r).1.budget_lease_id
          (landed services reason_text tool inv d r).1.events
  landed-Stable d (ok value, f) p = end_dispatch-Stable d value f p
  landed-Stable d (err fault, f) p = fail_dispatch-Stable d fault f p

  receipt_if_any-Stable :
      (o : Option ReceiptFacts) → Stable (receipt_if_any services reason_text tool inv o)
  receipt_if_any-Stable none f p = p
  receipt_if_any-Stable (some o) f p = emit_receipt-Stable o f p

  handle_fault-Stable : (fault : Fault) → Stable (handle_fault services reason_text tool inv fault)
  unfolding handle_fault
  handle_fault-Stable fault f p =
      go_on-Stable _ _ (when-Stable _ _ (receipt_if_any-Stable _) f p) (λ u g q. q)

  pub handled-Stable :
      (r : Result Fault Value × Frame W)
      → P r.1.budget_lease_id r.1.events
      → P
          (handled services reason_text tool inv r).1.budget_lease_id
          (handled services reason_text tool inv r).1.events
  handled-Stable (ok value, f) p = p
  handled-Stable (err fault, f) p = handle_fault-Stable fault f p

  -- The block of `try`, where the property survives the call of the target too.
  pub attempt-Stable :
      ((l : Option Text) (arguments : Fields) (es : List Event)
        → P l es
        → P l (dispatched arguments ∷ es))
      → Stable (attempt services reason_text tool inv)
  unfolding attempt dispatch
  attempt-Stable calls f p = go_on-Stable _ _ (settle_decision-Stable f p) (λ settled g q.
      go_on-Stable _ _ (admit-Stable settled.1 g q)
        (λ u h r. go_on-Stable _ _ (calls _ settled.0 _ r) (λ v i s. landed-Stable settled.1 _ s)))
