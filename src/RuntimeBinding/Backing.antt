-- ===== src/RuntimeBinding/Backing.antt =====
-- What the steps of `BoundTool.invoke` in hlinor_registry/runtime_binding.py before the dispatch note.
use hlinor_agent_registry.Prelude.{
  not-true, codes, ◌≡◌, inl, inr, refl, Bool, true, false, or_right, Option, none, some, List, [],
  ◌∷◌, any, In, Text, Fields, ℕ,
}
use hlinor_agent_registry.Decision.{PolicyDecision}
use hlinor_agent_registry.RuntimeBinding.Frame.{
  BoundTool, Invocation, Event, authorized, breaker_passed, leased, recorded, Frame, Services, when,
}
use hlinor_agent_registry.RuntimeBinding.Request.{is_denied, authorize}
use hlinor_agent_registry.RuntimeBinding.Receipt.{ReceiptFacts, append_to_sink, emit_receipt}
use hlinor_agent_registry.RuntimeBinding.Invoke.{
  attempted, enter_breaker, take_lease, admit, settle_decision,
}
use hlinor_agent_registry.RuntimeBinding.Stability.{is_dispatch}
use hlinor_agent_registry.RuntimeBinding.Keeping.{
  when-Kept, enter_breaker-Kept, take_lease-Kept, emit_receipt-Kept,
}
use hlinor_agent_registry.RuntimeBinding.Post.{
  Post, Post-ok, Post-err, go_on-Post, go_on-Post_from, require-Post, Post-imply, when-Post,
  also-Post, kept-Post,
}

abbrev pub is_breaker_passed : Event → Bool
is_breaker_passed (breaker_passed s) = true
is_breaker_passed _ = false

abbrev pub is_leased : Event → Bool
is_leased (leased l) = true
is_leased _ = false

abbrev pub is_recorded : Event → Bool
is_recorded (recorded r) = true
is_recorded _ = false

-- The decision is no denial, and each admission that the call is configured with has been given.
pub record Backed (inv : Invocation) (d : PolicyDecision) (before : List Event) : Type 0 where
  pub decided : In (authorized d) before
  pub not_denied : is_denied d.result ≡ false
  pub breaker : inv.has_circuit_breaker ≡ true → any is_breaker_passed before ≡ true
  pub lease : inv.has_runtime_budget ≡ true → any is_leased before ≡ true
  pub receipt : inv.has_receipt_sink ≡ true → any is_recorded before ≡ true

abbrev Has : (Event → Bool) → List Event → Type 0
Has test es = any test es ≡ true

Has-keeps :
    (test : Event → Bool) (e : Event) (es : List Event)
    → is_dispatch e ≡ false
    → Has test es
    → Has test (e ∷ es)
Has-keeps test e es h p = or_right (test e) _ p

In-keeps :
    (a : Event) (e : Event) (es : List Event) → is_dispatch e ≡ false → In a es → In a (e ∷ es)
In-keeps a e es h p = inr p

module _ {W : Type 0} (services : Services W) (reason_text : PolicyDecision → Text)
    (tool : BoundTool) (inv : Invocation) where
  abbrev pub Decided : PolicyDecision → Frame W → Type 0
  Decided d g = In (authorized d) g.events × (is_denied d.result ≡ false)

  authorize-Post :
      (signals : Fields) (f : Frame W) → Post (authorize services tool inv signals f) Decided
  unfolding authorize
  authorize-Post signals f = go_on-Post _ _ _ (λ environment g. go_on-Post _ _ _ (λ request h.
      go_on-Post _ _ _ (λ decision i. go_on-Post _ _ _ (λ u j.
        go_on-Post_from _ _ _ _ (require-Post _ _ j) (λ v k passed.
          go_on-Post_from (λ w l. In (authorized decision) l.events) _ _ _
            (Post-ok _ _ _ (inl refl)) (λ w l there. Post-ok _ _ _ (there, not-true _ passed)))))))

  pub settle_decision-Post :
      (f : Frame W)
      → Post (settle_decision services reason_text tool inv f) (λ settled g. Decided settled.1 g)
  unfolding settle_decision
  settle_decision-Post f = go_on-Post _ _ _ (λ normalized g. go_on-Post _ _ _ (λ scoped h.
      go_on-Post _ _ _ (λ delegated i. go_on-Post _ _ _ (λ signals j.
        go_on-Post_from _ _ _ _ (authorize-Post signals j) (λ d k p. Post-ok _ _ _ p)))))

  enter_breaker-Post :
      (o : Option ℕ) (f : Frame W)
      → Post
          (enter_breaker services reason_text tool inv o f)
          (λ u g. any is_breaker_passed g.events ≡ true)
  enter_breaker-Post none f = Post-err _ _ _
  enter_breaker-Post (some threshold) f =
      go_on-Post _ _ _ (λ snapshot g. go_on-Post _ _ _ (λ u h. Post-ok _ _ _ refl))

  take_lease-Post :
      (o : Option Text) (f : Frame W)
      → Post (take_lease services reason_text tool inv o f) (λ u g. any is_leased g.events ≡ true)
  take_lease-Post none f = Post-err _ _ _
  take_lease-Post (some scope) f =
      go_on-Post _ _ _
        (λ u g. go_on-Post _ _ _ (λ snapshot h. go_on-Post _ _ _ (λ v i. Post-ok _ _ _ refl)))

  append-Post :
      (o : ReceiptFacts) (f : Frame W)
      → Post (append_to_sink services tool inv o f) (λ u g. any is_recorded g.events ≡ true)
  append-Post o f =
      go_on-Post _ _ _
        (λ u g. go_on-Post _ _ _ (λ receipt h. go_on-Post _ _ _ (λ v i. Post-ok _ _ _ refl)))

  emit_receipt-Post :
      (o : ReceiptFacts) (f : Frame W)
      → Post
          (emit_receipt services tool inv o f)
          (λ u g. inv.has_receipt_sink ≡ true → any is_recorded g.events ≡ true)
  unfolding emit_receipt
  emit_receipt-Post o f =
      when-Post (λ g. any is_recorded g.events ≡ true) inv.has_receipt_sink
        (append_to_sink services tool inv o) f (append-Post o f)

  abbrev Passed : PolicyDecision → List Event → Type 0
  Passed d es =
      In (authorized d) es × (inv.has_circuit_breaker ≡ true → any is_breaker_passed es ≡ true)

  Passed-keeps :
      (d : PolicyDecision) (e : Event) (es : List Event)
      → is_dispatch e ≡ false
      → Passed d es
      → Passed d (e ∷ es)
  Passed-keeps d e es h (there, gone) =
      (inr there, λ b. Has-keeps is_breaker_passed e es h (gone b))

  abbrev Leased : PolicyDecision → List Event → Type 0
  Leased d es = Passed d es × (inv.has_runtime_budget ≡ true → any is_leased es ≡ true)

  Leased-keeps :
      (d : PolicyDecision) (e : Event) (es : List Event)
      → is_dispatch e ≡ false
      → Leased d es
      → Leased d (e ∷ es)
  Leased-keeps d e es h (gone, held) =
      (Passed-keeps d e es h gone, λ b. Has-keeps is_leased e es h (held b))

  breaker-Passed :
      (d : PolicyDecision) (f : Frame W)
      → In (authorized d) f.events
      → Post
          (when inv.has_circuit_breaker
            (enter_breaker services reason_text tool inv inv.failure_threshold)
            f)
          (λ u g. Passed d g.events)
  breaker-Passed d f there =
      also-Post _ _ _
        (kept-Post (In (authorized d)) _ (
          when-Kept services tool inv reason_text (In (authorized d)) (In-keeps (authorized d))
            inv.has_circuit_breaker
            (enter_breaker services reason_text tool inv inv.failure_threshold)
            (enter_breaker-Kept services tool inv reason_text (In (authorized d))
              (In-keeps (authorized d)) inv.failure_threshold)
            f there))
        (when-Post (λ g. any is_breaker_passed g.events ≡ true) inv.has_circuit_breaker
          (enter_breaker services reason_text tool inv inv.failure_threshold) f
          (enter_breaker-Post inv.failure_threshold f))

  lease-Leased :
      (d : PolicyDecision) (f : Frame W)
      → Passed d f.events
      → Post
          (when inv.has_runtime_budget
            (take_lease services reason_text tool inv inv.budget_scope)
            f)
          (λ u g. Leased d g.events)
  lease-Leased d f gone =
      also-Post _ _ _
        (kept-Post (Passed d) _ (
          when-Kept services tool inv reason_text (Passed d) (Passed-keeps d) inv.has_runtime_budget
            (take_lease services reason_text tool inv inv.budget_scope)
            (take_lease-Kept services tool inv reason_text (Passed d) (Passed-keeps d)
              inv.budget_scope)
            f gone))
        (when-Post (λ g. any is_leased g.events ≡ true) inv.has_runtime_budget
          (take_lease services reason_text tool inv inv.budget_scope) f
          (take_lease-Post inv.budget_scope f))

  receipt-Backed :
      (d : PolicyDecision) (o : ReceiptFacts) (f : Frame W)
      → is_denied d.result ≡ false
      → Leased d f.events
      → Post (emit_receipt services tool inv o f) (λ u g. Backed inv d g.events)
  receipt-Backed d o f fine held =
      Post-imply _ _ _
        (λ u g p. record {
          decided = p.0.0.0;
          not_denied = fine;
          breaker = p.0.0.1;
          lease = p.0.1;
          receipt = p.1;
        })
        (also-Post _ _ _
          (kept-Post (Leased d) _
            (emit_receipt-Kept services tool inv reason_text (Leased d) (Leased-keeps d) o f held))
          (emit_receipt-Post o f))

  -- Each later step of `admit` keeps what the earlier ones have noted.
  pub admit-Backed :
      (d : PolicyDecision) (f : Frame W)
      → Decided d f
      → Post (admit services reason_text tool inv d f) (λ u g. Backed inv d g.events)
  unfolding admit
  admit-Backed d f (there, fine) = go_on-Post_from _ _ _ _ (breaker-Passed d f there) (λ u g gone.
      go_on-Post_from _ _ _ _ (lease-Leased d g gone) (λ v h held.
        receipt-Backed d (attempted (codes "pre_dispatch") [] d none none h.breaker_snapshot) h fine
          held))
