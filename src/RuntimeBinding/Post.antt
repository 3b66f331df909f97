-- ===== src/RuntimeBinding/Post.antt =====
-- What holds of a step of hlinor_registry/runtime_binding.py where it ends with no exception.
use hlinor_agent_registry.Prelude.{◌≡◌, refl, Bool, true, false, List, Result, ok, err}
use hlinor_agent_registry.RuntimeBinding.Frame.{Fault, Event, Frame, Action, go_on, require, when}

module _ {W : Type 0} where
  -- What holds of a result that is no exception.
  unfoldable pub Post : {A : Type 0} → Result Fault A × Frame W → (A → Frame W → Type 0) → Type 0
  Post (err fault, f) Q = Unit
  Post (ok a, f) Q = Q a f

  pub Post-ok :
      {A : Type 0} (Q : A → Frame W → Type 0) (a : A) (f : Frame W) → Q a f → Post (ok a, f) Q
  unfolding Post
  Post-ok Q a f q = q

  pub Post-err :
      {A : Type 0} (Q : A → Frame W → Type 0) (fault : Fault) (f : Frame W) → Post (err fault, f) Q
  unfolding Post
  Post-err Q fault f = tt

  pub go_on-Post :
      {A B : Type 0} (Q : B → Frame W → Type 0) (r : Result Fault A × Frame W) (k : A → Action W B)
      → ((a : A) (f : Frame W) → Post (k a f) Q)
      → Post (go_on r k) Q
  unfolding go_on Post
  go_on-Post Q (err fault, f) k h = tt
  go_on-Post Q (ok a, f) k h = h a f

  pub go_on-Post_from :
      {A B : Type 0} (R : A → Frame W → Type 0) (Q : B → Frame W → Type 0)
      (r : Result Fault A × Frame W) (k : A → Action W B)
      → Post r R
      → ((a : A) (f : Frame W) → R a f → Post (k a f) Q)
      → Post (go_on r k) Q
  unfolding go_on Post
  go_on-Post_from R Q (err fault, f) k p h = tt
  go_on-Post_from R Q (ok a, f) k p h = h a f p

  pub require-Post :
      (b : Bool) (fault : Fault) (f : Frame W) → Post (require b fault f) (λ u g. b ≡ true)
  unfolding require Post
  require-Post true fault f = refl
  require-Post false fault f = tt

  pub Post-imply :
      {A : Type 0} (Q R : A → Frame W → Type 0) (r : Result Fault A × Frame W)
      → ((a : A) (f : Frame W) → Q a f → R a f)
      → Post r Q
      → Post r R
  unfolding Post
  Post-imply Q R (err fault, f) h p = tt
  Post-imply Q R (ok a, f) h p = h a f p

  pub when-Post :
      (Q : Frame W → Type 0) (b : Bool) (m : Action W (Unit {0})) (f : Frame W)
      → Post (m f) (λ u g. Q g)
      → Post (when b m f) (λ u g. b ≡ true → Q g)
  unfolding when Post
  when-Post Q true m f p = Post-imply _ _ (m f) (λ u g q h. q) p
  when-Post Q false m f p = λ h. cc

  -- A property that the later steps keep survives them, whatever they return.
  pub also-Post :
      {A : Type 0} (Q R : A → Frame W → Type 0) (r : Result Fault A × Frame W)
      → Post r Q
      → Post r R
      → Post r (λ a f. Q a f × R a f)
  unfolding Post
  also-Post Q R (err fault, f) p q = tt
  also-Post Q R (ok a, f) p q = (p, q)

  pub kept-Post :
      {A : Type 0} (P : List Event → Type 0) (r : Result Fault A × Frame W)
      → P r.1.events
      → Post r (λ a f. P f.events)
  unfolding Post
  kept-Post P (err fault, f) p = tt
  kept-Post P (ok a, f) p = p
