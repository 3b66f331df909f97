-- ===== src/RuntimeBinding/Release.antt =====
-- The `finally` clause of `BoundTool.invoke` in hlinor_registry/runtime_binding.py.
use hlinor_agent_registry.Prelude.{
  ◌≡◌, refl, sym, subst, Bool, true, false, Option, some, List, ◌∷◌, any, Text, Value, Result, ok,
  err, or_elim, inl, inr,
}
use hlinor_agent_registry.Decision.{PolicyDecision}
use hlinor_agent_registry.RuntimeBinding.Frame.{
  Fault, BoundTool, Invocation, Event, lease_requested, released, Frame, Services, Action, go_on,
  when,
}
use hlinor_agent_registry.RuntimeBinding.Invoke.{
  own_lease_id, attempt, handled, release_lease, release_budget, finished, finally, first_frame,
  invoke,
}
use hlinor_agent_registry.RuntimeBinding.Stability.{
  is_lease_request, handled-Stable, attempt-Stable,
}

module _ {W : Type 0} (services : Services W) (reason_text : PolicyDecision → Text)
    (tool : BoundTool) (inv : Invocation) where
  -- A lease that was requested is the one that the invocation remembers.
  abbrev Remembers : Option Text → List Event → Type 0
  Remembers l es =
      any is_lease_request es ≡ true → l ≡ some (own_lease_id services reason_text tool inv)

  Remembers-keeps :
      (l : Option Text) (e : Event) (es : List Event)
      → is_lease_request e ≡ false
      → Remembers l es
      → Remembers l (e ∷ es)
  Remembers-keeps l e es r h asked =
      elim (or_elim (is_lease_request e) (any is_lease_request es) asked) [
        | inl here ↦ cc
        | inr there ↦ h there
      ]

  -- The newest event is the release, and the world is what it leaves.
  abbrev IsReleased : {A : Type 0} → Text → Frame W → Result Fault A × Frame W → Type 0
  IsReleased lease f s =
      (s.1.events ≡ released lease ∷ f.events)
      × (s.1.world ≡ (services.budget_release lease f.world).1)

  finished-IsReleased :
      (lease : Text) (f : Frame W) (r : Result Fault Value) (s : Result Fault (Unit {0}) × Frame W)
      → IsReleased lease f s
      → IsReleased lease f (finished services reason_text tool inv r s)
  finished-IsReleased lease f r (ok u, g) p = p
  finished-IsReleased lease f r (err fault, g) p = p

  when-IsReleased :
      (lease : Text) (f : Frame W) (b : Bool) (m : Action W (Unit {0}))
      → b ≡ true
      → IsReleased lease f (m f)
      → IsReleased lease f (when b m f)
  unfolding when
  when-IsReleased lease f true m h p = p
  when-IsReleased lease f false m h p = cc

  release_lease-IsReleased :
      (lease : Text) (f : Frame W)
      → IsReleased lease f (release_lease services reason_text tool inv (some lease) f)
  unfolding go_on
  release_lease-IsReleased lease f = (refl, refl)

  finally-IsReleased :
      (r : Result Fault Value) (f : Frame W) (lease : Text)
      → inv.has_runtime_budget ≡ true
      → f.budget_lease_id ≡ some lease
      → IsReleased lease f (finally services reason_text tool inv (r, f))
  unfolding release_budget
  finally-IsReleased r f lease budget held = finished-IsReleased lease f r _ (
      when-IsReleased lease f inv.has_runtime_budget
        (λ g. release_lease services reason_text tool inv g.budget_lease_id g) budget
        (subst
          (λ (o : Option Text).
            IsReleased lease f (release_lease services reason_text tool inv o f))
          (sym held) (release_lease-IsReleased lease f)))

  -- What is left when the handlers have run.
  abbrev pub before_release : W → Result Fault Value × Frame W
  before_release w =
      handled services reason_text tool inv
        (attempt services reason_text tool inv (first_frame services reason_text tool inv w))

  Remembers-requests :
      (l : Option Text) (es : List Event)
      → Remembers l es
      → Remembers
          (some (own_lease_id services reason_text tool inv))
          (lease_requested (own_lease_id services reason_text tool inv) ∷ es)
  Remembers-requests l es h asked = refl

  before_release-Remembers :
      (w : W) → Remembers (before_release w).1.budget_lease_id (before_release w).1.events
  before_release-Remembers w =
      handled-Stable services tool inv reason_text Remembers
        (λ l e es d r h. Remembers-keeps l e es r h) Remembers-requests _
        (attempt-Stable services tool inv reason_text Remembers
          (λ l e es d r h. Remembers-keeps l e es r h) Remembers-requests (λ l arguments es h. h)
          (first_frame services reason_text tool inv w) (λ none_yet. cc))

  -- No lease is left behind: where an invocation with a runtime budget has asked for its lease, then
  -- however it ends, its last act is to hand that lease back to the budget, and the world is what the
  -- release leaves. It does so also where the lease was refused.
  pub invoke-released :
      (w : W)
      → inv.has_runtime_budget ≡ true
      → any is_lease_request (before_release w).1.events ≡ true
      → ((invoke services reason_text tool inv w).1.events
          ≡ released (own_lease_id services reason_text tool inv) ∷ (before_release w).1.events)
        × ((invoke services reason_text tool inv w).1.world
            ≡ (services.budget_release
                (own_lease_id services reason_text tool inv)
                (before_release w).1.world).1)
  unfolding invoke
  invoke-released w budget asked =
      finally-IsReleased (before_release w).0 (before_release w).1
        (own_lease_id services reason_text tool inv) budget (before_release-Remembers w asked)
