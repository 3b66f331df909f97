-- ===== src/Matching/Tests.antt =====
-- Runs of the matcher on concrete patterns.
use hlinor_agent_registry.Prelude.{◌≡◌, refl, ◌↔◌, true, false, none, All, Text, codes, arr, items}
use hlinor_agent_registry.Samples.{same_case, blocked_entries}
use hlinor_agent_registry.Matching.{matches, patterns_can_overlap, find_block_match}
use hlinor_agent_registry.Matching.Overlap.{patterns_can_overlap_iff}
use hlinor_agent_registry.Matching.Search.{Refuses, find_block_match-none_iff}

patterns_can_overlap_iff_example : (patterns_can_overlap (codes "a*") (codes "?b") ≡ true) ↔ (
    (key : Text) × (matches same_case (codes "a*") key false ≡ true)
    × (matches same_case (codes "?b") key false ≡ true))
patterns_can_overlap_iff_example =
    patterns_can_overlap_iff same_case (codes "a*") (codes "?b") (refl, (refl, tt))
      (refl, (refl, tt))

find_block_match-none_iff_example :
    (find_block_match same_case (arr blocked_entries) (codes "send") (codes "send:anna") ≡ none) ↔ (
      All (Refuses same_case (codes "send:anna") true) (items blocked_entries)
      × All (Refuses same_case (codes "send") true) (items blocked_entries))
find_block_match-none_iff_example =
    find_block_match-none_iff same_case blocked_entries (codes "send") (codes "send:anna")
