-- ===== src/Delegation/Links.antt =====
-- What the links of a verified chain are.
use hlinor_agent_registry.Prelude.{
  suc, ◌≤◌, ◌≡◌, refl, sym, ap, ◌∙◌, subst, inl, inr, Bool, true, false, not, Option, none, some,
  List, [], ◌∷◌, arith, or_elim, or_left, or_right, all-All, All, In, length, is_empty, ltb, ◌==◌,
  Text, text_eq, text_eq→eq, text_eq_refl, Value, value_eq, ok, guard, guard-eq-ok, >>=-eq-ok,
  ok-injective,
}
use hlinor_agent_registry.Tokens.{
  chain_invalid, issuer_invalid, scope_escalation, context_mismatch, fanout_unregistered,
  is_expected, Platform,
}
use hlinor_agent_registry.Tokens.Reading.{optional}
use hlinor_agent_registry.Approval.{Moment}
use hlinor_agent_registry.Delegation.{DelegationTrustedKey, VerifiedDelegation}
use hlinor_agent_registry.Delegation.Token.{verify_delegation_token}
use hlinor_agent_registry.Delegation.Chain.{
  FanOutView, is_member, is_subset, validate_child_link, ChainContext, context_at, check_live,
  check_registered, check_place, verify_link, verify_links,
}

pub is_member-In : (t : Text) (ts : List Text) → is_member t ts ≡ true → In t ts
is_member-In t [] h = cc
is_member-In t (u ∷ ts) h = elim (or_elim (text_eq t u) (is_member t ts) h) [
  | inl e ↦ inl (sym (text_eq→eq t u e))
  | inr i ↦ inr (is_member-In t ts i)
]

In-is_member : (t : Text) (ts : List Text) → In t ts → is_member t ts ≡ true
In-is_member t [] i = absurd i
In-is_member t (u ∷ ts) (inl e) = or_left (text_eq t u) (is_member t ts) (rw e (text_eq_refl t))
In-is_member t (u ∷ ts) (inr i) = or_right (text_eq t u) (is_member t ts) (In-is_member t ts i)

In-All : (P : Text → Type 0) (t : Text) (ts : List Text) → All P ts → In t ts → P t
In-All P t [] holds i = absurd i
In-All P t (u ∷ ts) (p, holds) (inl e) = subst P e p
In-All P t (u ∷ ts) (p, holds) (inr i) = In-All P t ts holds i

abbrev pub Within : List Text → List Text → Type 0
Within ts us = (t : Text) → In t ts → In t us

is_subset-Within : (ts us : List Text) → is_subset ts us ≡ true → Within ts us
is_subset-Within ts us h t i =
    In-All (λ s. In s us) t ts
      (all-All {P = λ (s : Text). In s us} (λ (s : Text). is_member s us) (λ s. is_member-In s us)
        ts h)
      i

-- A delegation that the subject of its parent has issued, with no more than its parent's authority.
abbrev pub IsLink : VerifiedDelegation → VerifiedDelegation → Type 0
IsLink parent child =
    (child.parent_delegation_id ≡ some parent.delegation_id)
    × (child.issuer_agent_id ≡ parent.subject_agent_id)
    × (child.delegation_depth ≡ suc parent.delegation_depth)
    × (child.max_depth ≤ parent.max_depth)
    × (child.audience ≡ parent.audience)
    × (value_eq child.session_id parent.session_id ≡ true)
    × (value_eq child.tenant_id parent.tenant_id ≡ true)
    × (value_eq child.project_id parent.project_id ≡ true)
    × (value_eq child.workspace_id parent.workspace_id ≡ true)
    × Within child.allowed_actions parent.allowed_actions
    × Within child.allowed_resource_scopes parent.allowed_resource_scopes

is_parent-eq : (o : Option Text) (t : Text) → is_expected o (optional (some t)) ≡ true → o ≡ some t
is_parent-eq none t h = cc
is_parent-eq (some s) t h = ap some (sym (text_eq→eq t s h))

validate_child_link-IsLink :
    (parent child : VerifiedDelegation)
    → validate_child_link parent child ≡ ok tt
    → IsLink parent child
unfolding validate_child_link
validate_child_link-IsLink parent child h =
    let is_child = is_expected child.parent_delegation_id (optional (some parent.delegation_id)) in
    let is_issued = text_eq child.issuer_agent_id parent.subject_agent_id in
    let is_next = child.delegation_depth == suc parent.delegation_depth in
    let is_lower = not (ltb parent.max_depth child.max_depth) in
    let is_heard = text_eq child.audience parent.audience in
    let session = value_eq child.session_id parent.session_id in
    let tenant = value_eq child.tenant_id parent.tenant_id in
    let project = value_eq child.project_id parent.project_id in
    let workspace = value_eq child.workspace_id parent.workspace_id in
    let actions = is_subset child.allowed_actions parent.allowed_actions in
    let resources = is_subset child.allowed_resource_scopes parent.allowed_resource_scopes in
    let (u0, e0, h0) = >>=-eq-ok (guard is_child chain_invalid) _ h in
    let (u1, e1, h1) = >>=-eq-ok (guard is_issued issuer_invalid) _ h0 in
    let (u2, e2, h2) = >>=-eq-ok (guard is_next chain_invalid) _ h1 in
    let (u3, e3, h3) = >>=-eq-ok (guard is_lower scope_escalation) _ h2 in
    let (u4, e4, h4) = >>=-eq-ok (guard is_heard context_mismatch) _ h3 in
    let (u5, e5, h5) = >>=-eq-ok (guard session context_mismatch) _ h4 in
    let (u6, e6, h6) = >>=-eq-ok (guard tenant context_mismatch) _ h5 in
    let (u7, e7, h7) = >>=-eq-ok (guard project context_mismatch) _ h6 in
    let (u8, e8, h8) = >>=-eq-ok (guard workspace context_mismatch) _ h7 in
    let (u9, e9, ea) = >>=-eq-ok (guard actions scope_escalation) _ h8 in
    let lower = guard-eq-ok is_lower scope_escalation e3 in
    let next = guard-eq-ok is_next chain_invalid e2 in
    (
      is_parent-eq child.parent_delegation_id parent.delegation_id
          (guard-eq-ok is_child chain_invalid e0),
      text_eq→eq _ _ (guard-eq-ok is_issued issuer_invalid e1),
      ground (arith, next),
      ground (arith, lower),
      text_eq→eq _ _ (guard-eq-ok is_heard context_mismatch e4),
      guard-eq-ok session context_mismatch e5,
      guard-eq-ok tenant context_mismatch e6,
      guard-eq-ok project context_mismatch e7,
      guard-eq-ok workspace context_mismatch e8,
      is_subset-Within _ _ (guard-eq-ok actions scope_escalation e9),
      is_subset-Within _ _ (guard-eq-ok resources scope_escalation ea),
    )

module _ {K : Type 0} (platform : Platform K)
    (trusted_keys : Text → Option (DelegationTrustedKey K)) (view : Option FanOutView)
    (c : ChainContext) (moment : Moment) where
  -- The fan-out guard, which there is, has the child under the parent.
  abbrev pub IsRegistered : VerifiedDelegation → VerifiedDelegation → Type 0
  IsRegistered parent child =
      (v : FanOutView) × (view ≡ some v)
      × (v.has_child parent.delegation_id child.delegation_id ≡ ok true)

  -- The first is a root, every other the registered child of the one before.
  abbrev pub Follows : VerifiedDelegation → List VerifiedDelegation → Type 0
  Follows parent [] = Unit
  Follows parent (d ∷ rest) = IsLink parent d × IsRegistered parent d × Follows d rest

  -- A token that is verified as the leaf or above it, and not revoked.
  abbrev pub IsTrusted : VerifiedDelegation → Type 0
  IsTrusted d =
      (token : Value) × (is_leaf : Bool) × (verify_delegation_token platform trusted_keys
          (context_at c is_leaf) moment token
        ≡ ok d)
      × (check_live view d.delegation_id ≡ ok tt)

  registered :
      (o : Option FanOutView) (parent child : Text)
      → check_registered o parent child ≡ ok tt
      → (v : FanOutView) × (o ≡ some v) × (v.has_child parent child ≡ ok true)
  registered none parent child h = cc
  registered (some v) parent child h =
      let (known, e, g) = >>=-eq-ok (v.has_child parent child) _ h in
      (v, refl, e ∙ ap ok (guard-eq-ok known fanout_unregistered g))

  pub verify_link-eq-ok :
      (seen : List Text) (previous : Option VerifiedDelegation) (is_leaf : Bool) (token : Value)
      {d : VerifiedDelegation}
      → verify_link platform trusted_keys view c moment seen previous is_leaf token ≡ ok d
      → IsTrusted d
        × (is_member d.delegation_id seen ≡ false)
        × (check_place platform trusted_keys view c moment previous d ≡ ok tt)
  unfolding verify_link
  verify_link-eq-ok seen previous is_leaf token {d = d} h =
      let verify =
        verify_delegation_token platform trusted_keys (context_at c is_leaf) moment token in
      let (e, e0, h0) = >>=-eq-ok verify _ h in
      let is_new = not (is_member e.delegation_id seen) in
      let (u, e1, h1) = >>=-eq-ok (guard is_new chain_invalid) _ h0 in
      let (v, e2, h2) = >>=-eq-ok (check_live view e.delegation_id) _ h1 in
      let (w, e3, h3) =
        >>=-eq-ok (check_place platform trusted_keys view c moment previous e) _ h2 in
      let g = guard-eq-ok is_new chain_invalid e1 in
      subst
        (λ (f : VerifiedDelegation).
          IsTrusted f
          × (is_member f.delegation_id seen ≡ false)
          × (check_place platform trusted_keys view c moment previous f ≡ ok tt))
        (ok-injective e d h3) ((token, is_leaf, e0, e2), ground (arith, g), e3)

  -- The identities are apart from those before, and from each other.
  abbrev pub Apart : List Text → List VerifiedDelegation → Type 0
  Apart seen [] = Unit
  Apart seen (d ∷ rest) =
      (is_member d.delegation_id seen ≡ false) × Apart (d.delegation_id ∷ seen) rest

  pub links-Follows :
      (seen : List Text) (parent : VerifiedDelegation) (tokens : List Value)
      (ds : List VerifiedDelegation)
      → verify_links platform trusted_keys view c moment seen (some parent) tokens ≡ ok ds
      → All IsTrusted ds × Apart seen ds × Follows parent ds × (length ds ≡ length tokens)
  unfolding verify_links check_place
  links-Follows seen parent [] ds h =
      subst
        (λ (es : List VerifiedDelegation).
          All IsTrusted es × Apart seen es × Follows parent es × (length es ≡ 0))
        (ok-injective [] ds h) (tt, tt, tt, refl)
  links-Follows seen parent (token ∷ tokens) ds h =
      let (d, e0, h0) =
        >>=-eq-ok
          (verify_link platform trusted_keys view c moment seen (some parent) (is_empty tokens)
            token)
          _ h in
      let (rest, e1, h1) =
        >>=-eq-ok
          (verify_links platform trusted_keys view c moment (d.delegation_id ∷ seen) (some d)
            tokens)
          _ h0 in
      let (trusted, new, place) = verify_link-eq-ok seen (some parent) (is_empty tokens) token e0 in
      let (u, linked, known) = >>=-eq-ok (validate_child_link parent d) _ place in
      let (all_trusted, apart, follow, size) =
        links-Follows (d.delegation_id ∷ seen) d tokens rest e1 in
      subst
        (λ (es : List VerifiedDelegation).
          All IsTrusted es × Apart seen es × Follows parent es × (length es ≡ suc (length tokens)))
        (ok-injective (d ∷ rest) ds h1)
        (
          (trusted, all_trusted),
          (new, apart),
          (
            validate_child_link-IsLink parent d linked,
            registered view parent.delegation_id d.delegation_id known,
            follow,
          ),
          ap suc size,
        )
