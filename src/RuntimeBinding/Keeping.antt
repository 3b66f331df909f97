-- ===== src/RuntimeBinding/Keeping.antt =====
-- The steps of `BoundTool.invoke` in hlinor_registry/runtime_binding.py keep any property of the events
-- that every event but a dispatch keeps.
use hlinor_agent_registry.Prelude.{
  ℕ, ◌≡◌, refl, Bool, true, false, Option, none, some, List, ◌∷◌, Text, Value, Result, ok, err,
}
use hlinor_agent_registry.Decision.{PolicyDecision}
use hlinor_agent_registry.RuntimeBinding.Frame.{
  Fault, BoundTool, Invocation, Event, lease_requested, released, Frame, Services, Action, go_on,
  when,
}
use hlinor_agent_registry.RuntimeBinding.Receipt.{ReceiptFacts, emit_receipt}
use hlinor_agent_registry.RuntimeBinding.Invoke.{
  admit, enter_breaker, take_lease, own_lease_id, landed, settle_decision, handled, release_lease,
  release_budget, finished, finally,
}
use hlinor_agent_registry.RuntimeBinding.Stability.{
  is_dispatch, is_lease_request, enter_breaker-Stable, take_lease-Stable, emit_receipt-Stable,
  admit-Stable, settle_decision-Stable, landed-Stable, handled-Stable,
}

module _ {W : Type 0} (services : Services W) (tool : BoundTool) (inv : Invocation)
    (reason_text : PolicyDecision → Text) (P : List Event → Type 0)
    (keeps : (e : Event) (es : List Event) → is_dispatch e ≡ false → P es → P (e ∷ es)) where
  abbrev Kept : {A : Type 0} → Action W A → Type 0
  Kept m = (f : Frame W) → P f.events → P (m f).1.events

  any_lease :
      (l : Option Text) (e : Event) (es : List Event)
      → is_dispatch e ≡ false
      → is_lease_request e ≡ false
      → P es
      → P (e ∷ es)
  any_lease l e es h r p = keeps e es h p

  new_lease :
      (l : Option Text) (es : List Event)
      → P es
      → P (lease_requested (own_lease_id services reason_text tool inv) ∷ es)
  new_lease l es p = keeps (lease_requested (own_lease_id services reason_text tool inv)) es refl p

  pub when-Kept : (b : Bool) (m : Action W (Unit {0})) → Kept m → Kept (when b m)
  unfolding when
  when-Kept true m h f p = h f p
  when-Kept false m h f p = p

  pub enter_breaker-Kept : (o : Option ℕ) → Kept (enter_breaker services reason_text tool inv o)
  enter_breaker-Kept =
      enter_breaker-Stable services tool inv reason_text (λ l. P) any_lease new_lease

  pub take_lease-Kept : (o : Option Text) → Kept (take_lease services reason_text tool inv o)
  take_lease-Kept = take_lease-Stable services tool inv reason_text (λ l. P) any_lease new_lease

  pub emit_receipt-Kept : (o : ReceiptFacts) → Kept (emit_receipt services tool inv o)
  emit_receipt-Kept = emit_receipt-Stable services tool inv reason_text (λ l. P) any_lease new_lease

  pub admit-Kept : (d : PolicyDecision) → Kept (admit services reason_text tool inv d)
  admit-Kept = admit-Stable services tool inv reason_text (λ l. P) any_lease new_lease

  pub settle_decision-Kept : Kept (settle_decision services reason_text tool inv)
  settle_decision-Kept =
      settle_decision-Stable services tool inv reason_text (λ l. P) any_lease new_lease

  pub landed-Kept :
      (d : PolicyDecision) (r : Result Fault Value × Frame W)
      → P r.1.events
      → P (landed services reason_text tool inv d r).1.events
  landed-Kept = landed-Stable services tool inv reason_text (λ l. P) any_lease new_lease

  pub handled-Kept :
      (r : Result Fault Value × Frame W)
      → P r.1.events
      → P (handled services reason_text tool inv r).1.events
  handled-Kept = handled-Stable services tool inv reason_text (λ l. P) any_lease new_lease

  go_on-Kept :
      {A B : Type 0} (r : Result Fault A × Frame W) (k : A → Action W B)
      → P r.1.events
      → ((a : A) → Kept (k a))
      → P (go_on r k).1.events
  unfolding go_on
  go_on-Kept (err fault, f) k p h = p
  go_on-Kept (ok a, f) k p h = h a f p

  release_lease-Kept : (o : Option Text) → Kept (release_lease services reason_text tool inv o)
  release_lease-Kept none f p = p
  release_lease-Kept (some lease) f p =
      go_on-Kept _ _ p (λ u g q. go_on-Kept _ _ (keeps (released lease) _ refl q) (λ v h r. r))

  release_budget-Kept : Kept (release_budget services reason_text tool inv)
  unfolding release_budget
  release_budget-Kept f p =
      when-Kept inv.has_runtime_budget _ (λ g q. release_lease-Kept g.budget_lease_id g q) f p

  finished-Kept :
      (r : Result Fault Value) (s : Result Fault (Unit {0}) × Frame W)
      → P s.1.events
      → P (finished services reason_text tool inv r s).1.events
  finished-Kept r (ok u, f) p = p
  finished-Kept r (err fault, f) p = p

  pub finally-Kept :
      (r : Result Fault Value × Frame W)
      → P r.1.events
      → P (finally services reason_text tool inv r).1.events
  finally-Kept (r, f) p = finished-Kept r _ (release_budget-Kept f p)
