-- ===== src/Delegation/Bindings.antt =====
-- What the context and the identities of hlinor_registry/delegation.py bind a token to.
use hlinor_agent_registry.Prelude.{
  ◌≡◌, ◌≢◌, refl, ◌||◌, Bool, true, false, not, ◌&&◌, Option, none, some, arith, all-All, and_elim,
  Text, codes, Value, null, str, Fields, get_value, ok, guard, guard-eq-ok, >>=-eq-ok,
}
use hlinor_agent_registry.Tokens.{is_expected, identity_unbound, identity_mismatch}
use hlinor_agent_registry.Tokens.Reading.{optional, is_text-eq, is_expected-eq}
use hlinor_agent_registry.Delegation.{
  DelegationTrustedKey, Context, identity_pair, identity_binding, is_none, is_absent, same_option,
  is_unbound, claims_other,
}
use hlinor_agent_registry.Delegation.Token.{allows, expectations, in_context}

-- A value that is expected, where one is.
abbrev pub IsExpected : Option Text → Value → Type 0
IsExpected none v = Unit
IsExpected (some t) v = v ≡ str t

allows-IsExpected : (o : Option Text) (v : Value) → allows (o, v) ≡ true → IsExpected o v
allows-IsExpected none v h = tt
allows-IsExpected (some t) v h = is_text-eq t v h

abbrev pub InContext : Context → Fields → Type 0
InContext context fs =
    (get_value (codes "audience") fs ≡ str context.audience)
    × IsExpected context.subject_agent_id (get_value (codes "subject_agent_id") fs)
    × IsExpected context.session_id (get_value (codes "session_id") fs)
    × IsExpected context.tenant_id (get_value (codes "tenant_id") fs)
    × IsExpected context.project_id (get_value (codes "project_id") fs)
    × IsExpected context.workspace_id (get_value (codes "workspace_id") fs)

pub in_context-InContext :
    (context : Context) (fs : Fields) → in_context context fs ≡ true → InContext context fs
in_context-InContext context fs h =
    let (audience, (subject, (session, (tenant, (project, (workspace, u)))))) =
      all-All {P = λ (p : Option Text × Value). IsExpected p.0 p.1} allows
        (λ p. allows-IsExpected p.0 p.1) (expectations context fs) h in
    (audience, subject, session, tenant, project, workspace)

-- A key with identities signs only for tokens that claim them.
abbrev IsClaiming : Option Text → Option Text → Value → Value → Type 0
IsClaiming none workload d w = Unit
IsClaiming (some t) workload d w = (d ≡ str t) × (w ≡ optional workload)

claims-IsClaiming :
    (deployment workload : Option Text) (d w : Value)
    → not (not (is_none deployment) && not (is_expected deployment d && is_expected workload w))
      ≡ true
    → IsClaiming deployment workload d w
claims-IsClaiming none workload d w h = tt
claims-IsClaiming (some t) workload d w h =
    let (a, b) = and_elim (is_expected (some t) d) (is_expected workload w) (ground (arith, h)) in
    (is_text-eq t d a, is_expected-eq workload w b)

optional-same : (o p : Option Text) → optional o ≡ optional p → o ≡ p
optional-same none none e = refl
optional-same none (some t) e = cc
optional-same (some s) none e = cc
optional-same (some s) (some t) e = cc

-- Where the verifier expects identities of the issuer, they are the key's.
abbrev IsHeld : Option Text → Option Text → Option Text → Option Text → Type 0
IsHeld none workload d w = Unit
IsHeld (some t) workload d w = (d ≡ some t) × (w ≡ workload)

expects-IsHeld :
    (deployment workload d w : Option Text)
    → not (not (is_none deployment) && not (same_option d deployment && same_option w workload))
      ≡ true
    → IsHeld deployment workload d w
expects-IsHeld none workload d w h = tt
expects-IsHeld (some t) workload d w h =
    let (a, b) = and_elim (same_option d (some t)) (same_option w workload) (ground (arith, h)) in
    (
      optional-same d (some t) (is_expected-eq (some t) (optional d) a),
      optional-same w workload (is_expected-eq workload (optional w) b),
    )

-- Where the verifier requires a binding, the key and the token have both identities.
abbrev IsBinding : Bool → Option Text → Option Text → Value → Value → Type 0
IsBinding false d w deployment workload = Unit
IsBinding true d w deployment workload =
    (d ≢ none) × (w ≢ none) × (deployment ≢ null) × (workload ≢ null)

present : (v : Value) → is_absent v ≡ false → v ≢ null
present v h e = let k = rw e at h in cc

some_given : (o : Option Text) → is_none o ≡ false → o ≢ none
some_given o h e = let k = rw e at h in cc

requires-IsBinding :
    (required : Bool) (d w : Option Text) (deployment workload : Value)
    → not (required && (is_none d || is_none w || is_absent deployment || is_absent workload))
      ≡ true
    → IsBinding required d w deployment workload
requires-IsBinding false d w deployment workload h = tt
requires-IsBinding true d w deployment workload h = (
  some_given d (ground (arith, h)),
  some_given w (ground (arith, h)),
  present deployment (ground (arith, h)),
  present workload (ground (arith, h)),
)

module _ {K : Type 0} (key : DelegationTrustedKey K) (deployment workload : Value)
    (context : Context) where
  -- The identities of the key, of the token and of the context agree.
  abbrev pub IsBound : Type 0
  IsBound =
      IsBinding context.require_identity_binding key.deployment_identity key.workload_identity
        deployment workload
      × IsClaiming key.deployment_identity key.workload_identity deployment workload
      × IsHeld context.issuer_deployment_identity context.issuer_workload_identity
          key.deployment_identity key.workload_identity

  pub identity_binding-IsBound : identity_binding key deployment workload context ≡ ok tt → IsBound
  unfolding identity_binding
  identity_binding-IsBound h =
      let (u, e0, h0) =
        >>=-eq-ok
          (identity_pair (optional key.deployment_identity) (optional key.workload_identity)) _ h in
      let (v, e1, h1) =
        >>=-eq-ok (guard (not (is_unbound key deployment workload context)) identity_unbound) _
          h0 in
      let (w, e2, h2) =
        >>=-eq-ok (guard (not (claims_other key deployment workload context)) identity_mismatch) _
          h1 in
      (
        requires-IsBinding context.require_identity_binding key.deployment_identity
            key.workload_identity deployment workload (guard-eq-ok _ identity_unbound e1),
        claims-IsClaiming key.deployment_identity key.workload_identity deployment workload
            (guard-eq-ok _ identity_mismatch e2),
        expects-IsHeld context.issuer_deployment_identity context.issuer_workload_identity
            key.deployment_identity key.workload_identity (guard-eq-ok _ identity_mismatch h2),
      )
