-- ===== src/Messages/Reading.antt =====
-- What the reading of a message in hlinor_registry/message_transport.py takes from its fields.
use hlinor_agent_registry.Prelude.{
  ℕ, ◌≡◌, refl, ap, ◌∙◌, subst, and_elim, length, leb, Text, codes, text_eq, text_eq→eq, Value, str,
  obj, Fields, get_value, Result-cases, inl, inr, ok, guard, guard-eq-ok, >>=-eq-ok, ok-injective,
}
use hlinor_agent_registry.ExecutionScope.{ExecutionScope, new_scope}
use hlinor_agent_registry.ExecutionScope.Identity.{new_scope_iff}
use hlinor_agent_registry.Tokens.{
  invalid, field_invalid, version_unsupported, recipient_mismatch, scope_mismatch, token_text,
  same_fields, is_text, Seal, read_seal,
}
use hlinor_agent_registry.Tokens.Reading.{is_text-eq, token_text-eq-ok, read_seal-eq-ok}
use hlinor_agent_registry.Messages.{
  VerifiedScopedMessage, Addressed, message_text, message_fields, scope_or, same_scope,
  read_addressed, read_message, message_seal, message_of,
}

message_text-eq-ok : (v : Value) {s : Text} → message_text v ≡ ok s → v ≡ str s
unfolding message_text
message_text-eq-ok v {s = s} h =
    let (t, e0, h0) = >>=-eq-ok (token_text v) _ h in
    let (u, e1, h1) = >>=-eq-ok (guard (leb (length {A = ℕ} t) 256) field_invalid) _ h0 in
    token_text-eq-ok v e0 ∙ ap str (ok-injective t s h1)

-- The texts of a message, each under its name.
abbrev AreTexts : Fields → Addressed → Type 0
AreTexts fs a =
    (get_value (codes "message_id") fs ≡ str a.message_id)
    × (get_value (codes "sender_agent_id") fs ≡ str a.sender_agent_id)
    × (get_value (codes "recipient_agent_id") fs ≡ str a.recipient_agent_id)
    × (get_value (codes "issued_at") fs ≡ str a.issued_at)
    × (get_value (codes "expires_at") fs ≡ str a.expires_at)
    × (get_value (codes "nonce") fs ≡ str a.nonce)

read_addressed-AreTexts : (fs : Fields) {a : Addressed} → read_addressed fs ≡ ok a → AreTexts fs a
unfolding read_addressed
read_addressed-AreTexts fs {a = a} h =
    let (id, e0, h0) = >>=-eq-ok (message_text (get_value (codes "message_id") fs)) _ h in
    let (sender, e1, h1) = >>=-eq-ok (message_text (get_value (codes "sender_agent_id") fs)) _ h0 in
    let (recipient, e2, h2) =
      >>=-eq-ok (message_text (get_value (codes "recipient_agent_id") fs)) _ h1 in
    let (issued, e3, h3) = >>=-eq-ok (message_text (get_value (codes "issued_at") fs)) _ h2 in
    let (expires, e4, h4) = >>=-eq-ok (message_text (get_value (codes "expires_at") fs)) _ h3 in
    let (nonce, e5, h5) = >>=-eq-ok (message_text (get_value (codes "nonce") fs)) _ h4 in
    subst (AreTexts fs) (ok-injective _ a h5) (
      message_text-eq-ok _ e0,
      message_text-eq-ok _ e1,
      message_text-eq-ok _ e2,
      message_text-eq-ok _ e3,
      message_text-eq-ok _ e4,
      message_text-eq-ok _ e5,
    )

scope_or-eq-ok :
    (project workspace : Value) {s : ExecutionScope}
    → scope_or project workspace ≡ ok s
    → (project ≡ str s.project_id) × (workspace ≡ str s.workspace_id)
scope_or-eq-ok project workspace {s = s} h = elim (Result-cases (new_scope project workspace)) [
  | inr (problem, e) ↦ let k = rw (e, scope_or) at h in cc
  | inl (t, e) ↦
      let same = ok-injective t s (rw (e, scope_or) at h) in
      let (p, w, tidy, clean) = (new_scope_iff project workspace s).0 (e ∙ ap ok same) in (p, w)
]

-- The message names this recipient and this scope, and its texts are those read.
abbrev IsAddressed : ExecutionScope → Text → Fields → Addressed → ExecutionScope → Type 0
IsAddressed expected recipient fs a scope =
    (get_value (codes "schema_version") fs ≡ str (codes "1.0"))
    × AreTexts fs a
    × (get_value (codes "project_id") fs ≡ str scope.project_id)
    × (get_value (codes "workspace_id") fs ≡ str scope.workspace_id)
    × (a.recipient_agent_id ≡ recipient)
    × (scope.project_id ≡ expected.project_id)
    × (scope.workspace_id ≡ expected.workspace_id)

pub read_message-IsAddressed :
    (expected : ExecutionScope) (recipient : Text) (fs : Fields) {a : Addressed}
    {scope : ExecutionScope}
    → read_message expected recipient fs ≡ ok (a, scope)
    → IsAddressed expected recipient fs a scope
unfolding read_message
read_message-IsAddressed expected recipient fs {a = a} {scope = scope} h =
    let version = is_text (codes "1.0") (get_value (codes "schema_version") fs) in
    let (wanted, e0, h0) = >>=-eq-ok (message_text (str recipient)) _ h in
    let (u, e1, h1) = >>=-eq-ok (guard (same_fields message_fields fs) invalid) _ h0 in
    let (v, e2, h2) = >>=-eq-ok (guard version version_unsupported) _ h1 in
    let (b, e3, h3) = >>=-eq-ok (read_addressed fs) _ h2 in
    let mine = text_eq b.recipient_agent_id recipient in
    let (w, e4, h4) = >>=-eq-ok (guard mine recipient_mismatch) _ h3 in
    let (s, e5, h5) =
      >>=-eq-ok (scope_or (get_value (codes "project_id") fs) (get_value (codes "workspace_id") fs))
        _ h4 in
    let (x, e6, h6) = >>=-eq-ok (guard (same_scope s expected) scope_mismatch) _ h5 in
    let (p, q) =
      and_elim (text_eq s.project_id expected.project_id)
        (text_eq s.workspace_id expected.workspace_id)
        (guard-eq-ok (same_scope s expected) scope_mismatch e6) in
    let (project, workspace) =
      scope_or-eq-ok (get_value (codes "project_id") fs) (get_value (codes "workspace_id") fs) e5 in
    subst (λ (r : Addressed × ExecutionScope). IsAddressed expected recipient fs r.0 r.1)
      (ok-injective (b, s) (a, scope) h6)
      (
        is_text-eq (codes "1.0") _ (guard-eq-ok version version_unsupported e2),
        read_addressed-AreTexts fs e3,
        project,
        workspace,
        text_eq→eq _ _ (guard-eq-ok mine recipient_mismatch e4),
        text_eq→eq _ _ p,
        text_eq→eq _ _ q,
      )

message_seal-eq-ok : (v : Value) {seal : Seal} → message_seal v ≡ ok seal → read_seal v ≡ ok seal
unfolding message_seal
message_seal-eq-ok v {seal = seal} h =
    let (s, e0, h0) = >>=-eq-ok (read_seal v) _ h in
    let (key_id, e1, h1) = >>=-eq-ok (message_text (str s.key_id)) _ h0 in
    let (issuer, e2, h2) = >>=-eq-ok (message_text (str s.issuer)) _ h1 in e0 ∙ h2

-- The facts of a message are what its fields say, the signature's text among them.
abbrev pub IsRead : Fields → VerifiedScopedMessage → Value → Type 0
IsRead fs m value =
    (seal : Fields) × (get_value (codes "signature") fs ≡ obj seal)
    × (get_value (codes "algorithm") seal ≡ str (codes "Ed25519"))
    × (get_value (codes "key_id") seal ≡ str m.key_id)
    × (get_value (codes "issuer") seal ≡ str m.issuer)
    × (get_value (codes "value") seal ≡ value)
    × (get_value (codes "schema_version") fs ≡ str (codes "1.0"))
    × (get_value (codes "message_id") fs ≡ str m.message_id)
    × (get_value (codes "sender_agent_id") fs ≡ str m.sender_agent_id)
    × (get_value (codes "recipient_agent_id") fs ≡ str m.recipient_agent_id)
    × (get_value (codes "issued_at") fs ≡ str m.issued_at)
    × (get_value (codes "expires_at") fs ≡ str m.expires_at)
    × (get_value (codes "nonce") fs ≡ str m.nonce)
    × (get_value (codes "project_id") fs ≡ str m.scope.project_id)
    × (get_value (codes "workspace_id") fs ≡ str m.scope.workspace_id)
    × (get_value (codes "body") fs ≡ m.body)

pub message_of-IsRead :
    (expected : ExecutionScope) (recipient : Text) (fs : Fields) (a : Addressed)
    (scope : ExecutionScope) (seal : Seal)
    → read_message expected recipient fs ≡ ok (a, scope)
    → message_seal (get_value (codes "signature") fs) ≡ ok seal
    → IsRead fs (message_of fs a scope seal) seal.value
message_of-IsRead expected recipient fs a scope seal h k =
    let (inside, s, algorithm, key_id, issuer, value) =
      read_seal-eq-ok _ (message_seal-eq-ok _ k) in
    let (version, (id, sender, to, issued, expires, nonce), project, workspace, mine, p, w) =
      read_message-IsAddressed expected recipient fs h in
    (
      inside, s, algorithm, key_id, issuer, value, version, id, sender, to, issued, expires, nonce,
      project, workspace, refl,
    )
