-- ===== src/RuntimeBinding/Guarded.antt =====
-- What has happened before the target of `BoundTool.invoke` in hlinor_registry/runtime_binding.py is
-- called.
use hlinor_agent_registry.Prelude.{
  ◌≡◌, ◌⊎◌, inl, inr, refl, ap, false, List, [], ◌∷◌, ◌++◌, any, Text, Fields, Result, ok, err,
}
use hlinor_agent_registry.Decision.{PolicyDecision}
use hlinor_agent_registry.RuntimeBinding.Frame.{
  Fault, BoundTool, Invocation, Event, dispatched, Frame, Services, Action, go_on,
}
use hlinor_agent_registry.RuntimeBinding.Invoke.{dispatch, attempt, first_frame, invoke}
use hlinor_agent_registry.RuntimeBinding.Stability.{is_dispatch}
use hlinor_agent_registry.RuntimeBinding.Keeping.{
  admit-Kept, settle_decision-Kept, landed-Kept, handled-Kept, finally-Kept,
}
use hlinor_agent_registry.RuntimeBinding.Post.{Post}
use hlinor_agent_registry.RuntimeBinding.Backing.{Backed, settle_decision-Post, admit-Backed}

-- One dispatch, with what it rests on before it.
pub record DispatchedOnce (inv : Invocation) (events : List Event) : Type 0 where
  pub decision : PolicyDecision
  pub arguments : Fields
  pub before : List Event
  pub later : List Event
  pub split : events ≡ later ++ dispatched arguments ∷ before
  pub none_later : any is_dispatch later ≡ false
  pub none_before : any is_dispatch before ≡ false
  pub backed : Backed inv decision before

abbrev pub IsGuarded : Invocation → List Event → Type 0
IsGuarded inv events = (any is_dispatch events ≡ false) ⊎ DispatchedOnce inv events

abbrev Quiet : List Event → Type 0
Quiet es = any is_dispatch es ≡ false

Quiet-keeps : (e : Event) (es : List Event) → is_dispatch e ≡ false → Quiet es → Quiet (e ∷ es)
Quiet-keeps e es h q = rw h q

DispatchedOnce-keeps :
    (inv : Invocation) (e : Event) (es : List Event)
    → is_dispatch e ≡ false
    → DispatchedOnce inv es
    → DispatchedOnce inv (e ∷ es)
DispatchedOnce-keeps inv e es h g = record {
  decision = g.decision;
  arguments = g.arguments;
  before = g.before;
  later = e ∷ g.later;
  split = ap (λ (t : List Event). e ∷ t) g.split;
  none_later = Quiet-keeps e g.later h g.none_later;
  none_before = g.none_before;
  backed = g.backed;
}

IsGuarded-keeps :
    (inv : Invocation) (e : Event) (es : List Event)
    → is_dispatch e ≡ false
    → IsGuarded inv es
    → IsGuarded inv (e ∷ es)
IsGuarded-keeps inv e es h (inl q) = inl (Quiet-keeps e es h q)
IsGuarded-keeps inv e es h (inr g) = inr (DispatchedOnce-keeps inv e es h g)

module _ {W : Type 0} (services : Services W) (reason_text : PolicyDecision → Text)
    (tool : BoundTool) (inv : Invocation) where
  dispatch-IsGuarded :
      (d : PolicyDecision) (arguments : Fields) (f : Frame W)
      → Quiet f.events
      → Backed inv d f.events
      → DispatchedOnce inv (dispatch services reason_text tool inv d arguments f).1.events
  unfolding dispatch go_on
  dispatch-IsGuarded d arguments f quiet backed =
      landed-Kept services tool inv reason_text (DispatchedOnce inv) (DispatchedOnce-keeps inv) d _
        (record {
          decision = d;
          arguments = arguments;
          before = f.events;
          later = [];
          split = refl;
          none_later = refl;
          none_before = quiet;
          backed = backed;
        })

  go_on-IsGuarded :
      {A B : Type 0} (R : A → Frame W → Type 0) (r : Result Fault A × Frame W) (k : A → Action W B)
      → Quiet r.1.events
      → Post r R
      → ((a : A) (f : Frame W) → Quiet f.events → R a f → IsGuarded inv (k a f).1.events)
      → IsGuarded inv (go_on r k).1.events
  unfolding go_on Post
  go_on-IsGuarded R (err fault, f) k q p h = inl q
  go_on-IsGuarded R (ok a, f) k q p h = h a f q p

  attempt-IsGuarded :
      (f : Frame W)
      → Quiet f.events
      → IsGuarded inv (attempt services reason_text tool inv f).1.events
  unfolding attempt
  attempt-IsGuarded f quiet =
      go_on-IsGuarded _ _ _
        (settle_decision-Kept services tool inv reason_text Quiet Quiet-keeps f quiet)
        (settle_decision-Post services reason_text tool inv f)
        (λ settled g q settled_so.
          go_on-IsGuarded _ _ _
            (admit-Kept services tool inv reason_text Quiet Quiet-keeps settled.1 g q)
            (admit-Backed services reason_text tool inv settled.1 g settled_so)
            (λ u h q' backed. inr (dispatch-IsGuarded settled.1 settled.0 h q' backed)))

  -- Whatever the components answer and wherever an exception ends it, an invocation calls its target
  -- at most once, and never without all of these before: a decision that is no denial, the pass of the
  -- circuit breaker, the lease of the runtime budget and the stored receipt, each where the call is
  -- configured with it.
  pub invoke-IsGuarded : (w : W) → IsGuarded inv (invoke services reason_text tool inv w).1.events
  unfolding invoke
  invoke-IsGuarded w =
      finally-Kept services tool inv reason_text (IsGuarded inv) (IsGuarded-keeps inv) _ (
        handled-Kept services tool inv reason_text (IsGuarded inv) (IsGuarded-keeps inv) _
          (attempt-IsGuarded (first_frame services reason_text tool inv w) refl))
