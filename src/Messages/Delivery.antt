-- ===== src/Messages/Delivery.antt =====
-- What a delivered message is bound to.
use hlinor_agent_registry.Prelude.{
  ℕ, ◌≡◌, refl, sym, ap, ◌∙◌, subst, inl, inr, true, false, ◌&&◌, and_elim, Option, none, some,
  if-cases, Result-cases, length, leb, Text, codes, text_eq, text_eq→eq, Value, null, bool, int,
  float, str, arr, obj, Fields, get_value, ok, err, guard, guard-eq-ok, >>=-eq-ok, ok-injective,
}
use hlinor_agent_registry.ExecutionScope.{ExecutionScope}
use hlinor_agent_registry.Tokens.{
  payload_invalid, key_untrusted, issuer_invalid, signature_invalid, Platform, Seal, issuer_ok,
}
use hlinor_agent_registry.Tokens.Reading.{IsAccepted, check_seal-eq-ok}
use hlinor_agent_registry.ReplayGuard.{ReplayGuard}
use hlinor_agent_registry.Approval.{Moment}
use hlinor_agent_registry.Messages.Window.{InTime, message_window-InTime}
use hlinor_agent_registry.Messages.Reading.{IsRead, read_message-IsAddressed, message_of-IsRead}
use hlinor_agent_registry.Messages.{
  MessageTrustedKey, VerifiedScopedMessage, Addressed, read_message, message_window, domained,
  payload_or, message_seal, is_written, sender_key, check_sender, message_of, message_facts,
  deliver_after, deliver_once, delivered, verify_scoped_message,
}

module _ {K : Type 0} (platform : Platform K)
    (trusted_keys : Text → Option (MessageTrustedKey K)) where
  -- A trusted key of the sender has signed the message by this text.
  abbrev pub IsSentBy : Fields → VerifiedScopedMessage → Value → Type 0
  IsSentBy fs m value =
      (key : MessageTrustedKey K) × (trusted_keys m.key_id ≡ some key)
      × (key.key_id ≡ m.key_id)
      × (key.agent_id ≡ m.sender_agent_id)
      × (issuer_ok key.issuer m.issuer ≡ true)
      × IsAccepted platform key.public_key
          (payload_or (platform.canonical (domained fs)) signature_invalid) value

  sender_key-eq-ok :
      (key_id sender : Text) (o : Option (MessageTrustedKey K)) {key : MessageTrustedKey K}
      → sender_key key_id sender o ≡ ok key
      → (o ≡ some key) × (key.key_id ≡ key_id) × (key.agent_id ≡ sender)
  sender_key-eq-ok key_id sender none h = cc
  sender_key-eq-ok key_id sender (some k) {key = key} h =
      elim (if-cases (text_eq k.key_id key_id && text_eq k.agent_id sender) (ok k)
        (err key_untrusted)) [
          | inr (neither, i) ↦ let w = sym i ∙ h in cc
          | inl (both, i) ↦
              let (a, b) = and_elim (text_eq k.key_id key_id) (text_eq k.agent_id sender) both in
              subst
                (λ (j : MessageTrustedKey K).
                  (some k ≡ some j) × (j.key_id ≡ key_id) × (j.agent_id ≡ sender))
                (ok-injective k key (sym i ∙ h)) (refl, text_eq→eq _ _ a, text_eq→eq _ _ b)
        ]

  check_sender-eq-ok :
      (fs : Fields) (a : Addressed) (scope : ExecutionScope) (seal : Seal)
      → check_sender platform trusted_keys fs a.sender_agent_id seal ≡ ok tt
      → IsSentBy fs (message_of fs a scope seal) seal.value
  unfolding check_sender
  check_sender-eq-ok fs a scope seal h =
      let sender = a.sender_agent_id in
      let payload = payload_or (platform.canonical (domained fs)) signature_invalid in
      let (key, e0, h0) =
        >>=-eq-ok (sender_key seal.key_id sender (trusted_keys seal.key_id)) _ h in
      let (u, e1, h1) = >>=-eq-ok (guard (issuer_ok key.issuer seal.issuer) issuer_invalid) _ h0 in
      let (known, named, mine) =
        sender_key-eq-ok seal.key_id sender (trusted_keys seal.key_id) e0 in
      (
        key,
        known,
        named,
        mine,
        guard-eq-ok (issuer_ok key.issuer seal.issuer) issuer_invalid e1,
        check_seal-eq-ok platform key.public_key payload seal.value h1,
      )

  module _ (expected : ExecutionScope) (recipient : Text) (moment : Moment) where
    -- The message names this recipient and scope, is from its sender, and passes by its window.
    abbrev pub IsFrom : Value → VerifiedScopedMessage → Type 0
    IsFrom message m =
        (fs : Fields) × (value : Value) × (message ≡ obj fs)
        × IsRead fs m value
        × (get_value (codes "recipient_agent_id") fs ≡ str recipient)
        × (get_value (codes "project_id") fs ≡ str expected.project_id)
        × (get_value (codes "workspace_id") fs ≡ str expected.workspace_id)
        × InTime platform.fromisoformat m.issued_at m.expires_at moment
        × IsSentBy fs m value

    message_facts-IsFrom :
        (message : Value) (m : VerifiedScopedMessage)
        → message_facts platform trusted_keys expected recipient moment message ≡ ok m
        → IsFrom message m
    unfolding message_facts
    message_facts-IsFrom (obj fs) m h =
        let ((a, scope), e0, h0) = >>=-eq-ok (read_message expected recipient fs) _ h in
        let (body, e1, h1) =
          >>=-eq-ok (payload_or (platform.canonical (get_value (codes "body") fs)) payload_invalid)
            _ h0 in
        let (u, e2, h2) =
          >>=-eq-ok (guard (leb (length {A = ℕ} body) 1048576) payload_invalid) _ h1 in
        let (v, e3, h3) =
          >>=-eq-ok (message_window platform.fromisoformat a.issued_at a.expires_at moment) _ h2 in
        let (seal, e4, h4) = >>=-eq-ok (message_seal (get_value (codes "signature") fs)) _ h3 in
        let (w, e5, h5) = >>=-eq-ok (guard (is_written seal.value) signature_invalid) _ h4 in
        let (x, e6, h6) =
          >>=-eq-ok (check_sender platform trusted_keys fs a.sender_agent_id seal) _ h5 in
        let (version, texts, project, workspace, mine, p, q) =
          read_message-IsAddressed expected recipient fs e0 in
        subst (λ (k : VerifiedScopedMessage). IsFrom (obj fs) k)
          (ok-injective (message_of fs a scope seal) m h6)
          (
            fs,
            seal.value,
            refl,
            message_of-IsRead expected recipient fs a scope seal e0 e4,
            texts.2 ∙ ap str mine,
            project ∙ ap str p,
            workspace ∙ ap str q,
            message_window-InTime platform.fromisoformat a.issued_at a.expires_at moment e3,
            check_sender-eq-ok fs a scope seal e6,
          )
    message_facts-IsFrom null m h = cc
    message_facts-IsFrom (bool b) m h = cc
    message_facts-IsFrom (int n) m h = cc
    message_facts-IsFrom (float x) m h = cc
    message_facts-IsFrom (str s) m h = cc
    message_facts-IsFrom (arr vs) m h = cc

    module _ {S : Type 0} where
      -- The guard has granted the claim of the message.
      abbrev pub IsClaimed : Option (ReplayGuard S) → VerifiedScopedMessage → S → Type 0
      IsClaimed replay_guard m store =
          (g : ReplayGuard S) × (replay_guard ≡ some g)
          × (g.is_revoked m.message_id m.nonce store ≡ ok false)
          × ((g.claim m.message_id m.nonce m.expires_at store).0 ≡ ok true)

      deliver_once-eq-ok :
          (replay_guard : Option (ReplayGuard S)) (m k : VerifiedScopedMessage) (store : S)
          → (deliver_once platform trusted_keys replay_guard m store).0 ≡ ok k
          → (m ≡ k) × IsClaimed replay_guard m store
      unfolding deliver_once
      deliver_once-eq-ok none m k store h = cc
      deliver_once-eq-ok (some g) m k store h =
          elim (Result-cases (g.is_revoked m.message_id m.nonce store)) [
            | inr (problem, e) ↦ let w = rw (e, deliver_once, deliver_after) at h in cc
            | inl (true, e) ↦ let w = rw (e, deliver_once, deliver_after) at h in cc
            | inl (false, e) ↦
                elim (Result-cases (g.claim m.message_id m.nonce m.expires_at store).0) [
                  | inr (problem, c) ↦ let w = rw (e, c, deliver_once, deliver_after) at h in cc
                  | inl (false, c) ↦ let w = rw (e, c, deliver_once, deliver_after) at h in cc
                  | inl (true, c) ↦
                      let w = rw (e, c, deliver_once, deliver_after) at h in
                      (ok-injective m k w, (g, refl, e, c))
                ]
          ]

      -- A message is delivered only if it is an object whose fields name the expected recipient, project
      -- and workspace; the returned facts are what its fields say: its texts, scope and body, and its
      -- signature's key, issuer and text. The clock lies between its times, with the skew; the trusted key of that name belongs to
      -- the agent that it names as its sender, is for its issuer where it names one, and accepts that text
      -- over the canonical form of the fields; and a replay guard was given, which knows no revocation of
      -- the message and grants its claim.
      pub verify_scoped_message-bound :
          (replay_guard : Option (ReplayGuard S)) (message : Value) (m : VerifiedScopedMessage)
          (store : S)
          → (verify_scoped_message platform trusted_keys expected recipient moment replay_guard
              message store).0
            ≡ ok m
          → IsFrom message m × IsClaimed replay_guard m store
      unfolding verify_scoped_message
      verify_scoped_message-bound replay_guard message m store h =
          elim (Result-cases
            (message_facts platform trusted_keys expected recipient moment message)) [
              | inr (problem, e) ↦ let w = rw (e, verify_scoped_message, delivered) at h in cc
              | inl (k, e) ↦
                  let w = rw (e, verify_scoped_message, delivered) at h in
                  let (same, claimed) = deliver_once-eq-ok replay_guard k m store w in
                  subst
                    (λ (j : VerifiedScopedMessage).
                      IsFrom message j × IsClaimed replay_guard j store)
                    same (message_facts-IsFrom message k e, claimed)
            ]
