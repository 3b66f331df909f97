-- ===== src/Approval/Tests.antt =====
-- An approval that is signed, verified, and shown once more.
use hlinor_agent_registry.Prelude.{
  ◌*◌, ◌≡◌, ◌≢◌, refl, arith, true, [], ◌∷◌, ◌++◌, million, text_eq_refl, codes, text_eq, is_blank,
  get_value, entries, has_field, Value, null, Result, ok, err,
}
use hlinor_agent_registry.Tokens.{TokenError, set_field}
use hlinor_agent_registry.Tokens.Window.{check_window}
use hlinor_agent_registry.Samples.Signing.{
  time_of, plain_platform, plain_signer, lead_key, lead_keys, grant, moment_at, empty_store,
  working_at, written,
}
use hlinor_agent_registry.Policies.Clock.{with_offset}
use hlinor_agent_registry.ReplayGuard.{sqlite_is_revoked, sqlite_claim}
use hlinor_agent_registry.ReplayGuard.Claims.{claims, run}
use hlinor_agent_registry.Approval.{VerifiedApproval, approval_facts, verify_approval_token}
use hlinor_agent_registry.Approval.Signing.{sign_approval_token}
use hlinor_agent_registry.Approval.RoundTrip.{granted, target_of, approval_facts-sign}
use hlinor_agent_registry.Approval.Verification.{IsVerified, IsUsed, verify_approval_token-bound}
use hlinor_agent_registry.Approval.SingleUse.{
  verified_by, shared, verify_approval_token-once, verify_approval_token-again,
}

abbrev signed : Result TokenError Value
signed = sign_approval_token plain_platform plain_signer (codes "u") (3 * million) grant

abbrev approval : VerifiedApproval
approval = granted plain_platform plain_signer (codes "id") grant

abbrev token : Value
token = elim signed [ err problem ↦ null | ok v ↦ v ]

approval_facts-sign_example :
    approval_facts plain_platform lead_keys
      (target_of plain_platform plain_signer grant)
      (moment_at 3)
      token
    ≡ ok approval
unfolding sign_approval_token check_window text_eq is_blank with_offset get_value set_field written
approval_facts-sign_example =
    approval_facts-sign plain_platform plain_signer lead_key
      (λ text. text_eq_refl (codes "lead" ++ text)) (λ bytes. refl) (λ text. refl) (codes "u")
      (3 * million) grant token refl lead_keys (moment_at 3) refl refl refl

verified_at_3 :
    (verified_by plain_platform lead_keys
      (target_of plain_platform plain_signer grant)
      (moment_at 3)
      (working_at 3)
      token
      empty_store).0
    ≡ ok approval
unfolding verify_approval_token sign_approval_token is_blank text_eq with_offset get_value entries
    has_field written set_field sqlite_is_revoked sqlite_claim
verified_at_3 = refl

facts_at_7 :
    approval_facts plain_platform lead_keys
      (target_of plain_platform plain_signer grant)
      (moment_at 7)
      token
    ≡ ok approval
unfolding approval_facts sign_approval_token is_blank text_eq with_offset get_value entries
    has_field written set_field
facts_at_7 = refl

verify_approval_token-bound_example :
    IsVerified plain_platform lead_keys
      (target_of plain_platform plain_signer grant)
      (moment_at 3)
      token
      approval
    × (approval.single_use ≡ true
        → IsUsed plain_platform
            (shared plain_platform (working_at 3))
            approval
            empty_store
            (verified_by plain_platform lead_keys
              (target_of plain_platform plain_signer grant)
              (moment_at 3)
              (working_at 3)
              token
              empty_store).1)
verify_approval_token-bound_example =
    verify_approval_token-bound plain_platform lead_keys
      (target_of plain_platform plain_signer grant) (moment_at 3)
      (shared plain_platform (working_at 3)) token approval empty_store verified_at_3

verify_approval_token-once_example :
    (verified_by plain_platform lead_keys
      (target_of plain_platform plain_signer grant)
      (moment_at 4)
      (working_at 4)
      token
      (run time_of
        ((working_at 4, claims (codes "other") (codes "n") (codes "ttttt")) ∷ [])
        (verified_by plain_platform lead_keys
          (target_of plain_platform plain_signer grant)
          (moment_at 3)
          (working_at 3)
          token
          empty_store).1)).0
    ≢ ok approval
unfolding is_blank text_eq with_offset hlinor_agent_registry.Tokens.Window.parse_time
verify_approval_token-once_example =
    verify_approval_token-once plain_platform lead_keys
      (target_of plain_platform plain_signer grant) (moment_at 3) (working_at 3) token approval
      empty_store (5 * million) verified_at_3 refl refl
      ((working_at 4, claims (codes "other") (codes "n") (codes "ttttt")) ∷ []) (omega arith, tt)
      lead_keys (target_of plain_platform plain_signer grant) (moment_at 4) (working_at 4) token
      approval (omega arith) refl refl refl

verify_approval_token-again_example :
    (verified_by plain_platform lead_keys
      (target_of plain_platform plain_signer grant)
      (moment_at 7)
      (working_at 7)
      token
      (verified_by plain_platform lead_keys
        (target_of plain_platform plain_signer grant)
        (moment_at 3)
        (working_at 3)
        token
        empty_store).1).0
    ≡ ok approval
unfolding is_blank text_eq with_offset hlinor_agent_registry.Tokens.Window.parse_time
verify_approval_token-again_example =
    verify_approval_token-again plain_platform lead_keys
      (target_of plain_platform plain_signer grant) (moment_at 3) (working_at 3) token approval
      empty_store (5 * million) verified_at_3 refl refl (moment_at 7) (working_at 7) facts_at_7
      (omega arith) refl
