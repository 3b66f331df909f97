-- ===== src/Tokens/Tests.antt =====
-- The window at its edges.
use hlinor_agent_registry.Prelude.{
  ℕ, ◌*◌, ◌≡◌, ◌↔◌, refl, million, none, pos, codes, Text, text_eq, Result, ok,
}
use hlinor_agent_registry.Samples.Signing.{time_of}
use hlinor_agent_registry.Tokens.Window.{check_window, check_window_iff, InWindow}

check_window_iff_example :
    (check_window time_of (codes "t") (codes "ttttt") none (65 * million) (pos 60) ≡ ok tt) ↔ (
      (seconds : ℕ) × (pos 60 ≡ pos seconds)
      × InWindow time_of (codes "t") (codes "ttttt") none (65 * million) seconds)
check_window_iff_example =
    check_window_iff time_of (codes "t") (codes "ttttt") none (65 * million) (pos 60)

last_instant : check_window time_of (codes "t") (codes "ttttt") none (65 * million) (pos 60) ≡ ok tt
unfolding check_window hlinor_agent_registry.Prelude.is_blank text_eq
    hlinor_agent_registry.Policies.Clock.with_offset
last_instant = refl
