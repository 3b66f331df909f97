-- ===== src/ReplayGuard/Tests.antt =====
-- Claims of one token by several processes.
use hlinor_agent_registry.Prelude.{
  ℕ, ◌*◌, ◌≡◌, ◌≢◌, refl, arith, true, none, some, [], ◌∷◌, million, codes, Result, ok,
}
use hlinor_agent_registry.Samples.Signing.{time_of, empty_store, working_at}
use hlinor_agent_registry.ReplayGuard.{sqlite_claim}
use hlinor_agent_registry.ReplayGuard.Claims.{claims, run, sqlite_claim-once}

second_claim_loses :
    (sqlite_claim time_of (working_at 4) (codes "id") (codes "n") (codes "tttttttt") (
      run time_of
        ((working_at 3, claims (codes "other") (codes "n") (codes "ttttt")) ∷ [])
        (sqlite_claim time_of
          (working_at 2)
          (codes "id")
          (codes "n")
          (codes "ttttt")
          empty_store).1)).0
    ≢ ok true
unfolding sqlite_claim hlinor_agent_registry.Prelude.is_blank hlinor_agent_registry.Prelude.text_eq
    hlinor_agent_registry.Policies.Clock.with_offset
second_claim_loses =
    sqlite_claim-once time_of (codes "id") (codes "n") (codes "ttttt") (5 * million) (working_at 2)
      empty_store refl refl
      ((working_at 3, claims (codes "other") (codes "n") (codes "ttttt")) ∷ []) (working_at 4)
      (codes "tttttttt") (omega arith, tt) (omega arith)
