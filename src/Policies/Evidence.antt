-- ===== src/Policies/Evidence.antt =====
-- What the evidence handler demands of every required type, stated without its loop.
use hlinor_agent_registry.Prelude.{
  ℕ, ◌*◌, ◌≡◌, refl, ap, inl, inr, Bool, true, false, ◌&&◌, Option, none, some, List, [], ◌∷◌,
  arith, In, keep, keep-In, is_empty, pos, Text, codes, Value, null, str, arr, obj, Items, Fields,
  micros, get_value, items, number, million, frozen_eq-str, ok, err, ◌>>=◌, Bool-cases,
  Option-cases,
}
use hlinor_agent_registry.ActionRequest.{ActionRequest}
use hlinor_agent_registry.Policies.Clock.{
  Stamp, parse_timestamp, freshness_error, freshness_error-none_iff,
}
use hlinor_agent_registry.Policies.Rule.{
  PolicyRule, Detail, Checked, passed, require_bool, to_float, claims, is_fresh_claim, of_type,
  names_resource, window_error, type_error?, types_error, evidence_types, check_evidence,
  evidence_outcome, is_unset,
}
use hlinor_agent_registry.Policies.Handlers.{window_value, WindowHolds}

-- An entry of a list that a Boolean test has left over.
keep_nonempty :
    {A : Type 0} (test : A → Bool) (xs : List A)
    → is_empty (keep test xs) ≡ false
    → (a : A) × In a (keep test xs)
keep_nonempty test [] h = cc
keep_nonempty test (x ∷ xs) h = elim (Bool-cases (test x)) [
  | inl t ↦ (x, rw t (inl refl))
  | inr t ↦ let (a, i) = keep_nonempty test xs (rw t at h) in (a, rw t i)
]

nonempty_member : {A : Type 0} (xs : List A) → is_empty xs ≡ false → (a : A) × In a xs
nonempty_member [] h = cc
nonempty_member (x ∷ xs) h = (x, inl refl)

claims-In : (vs : List Value) (claim : Fields) → In claim (claims vs) → In (obj claim) vs
unfolding claims
claims-In [] claim h = absurd h
claims-In (obj c ∷ vs) claim (inl e) = inl (ap obj e)
claims-In (obj c ∷ vs) claim (inr h) = inr (claims-In vs claim h)
claims-In (v ∷ vs) claim h = inr (claims-In vs claim h)

-- A list that is kept without loss is not empty where a part of it is not.
is_empty-keep :
    {A : Type 0} (test : A → Bool) (xs : List A)
    → is_empty (keep test xs) ≡ false
    → is_empty xs ≡ false
is_empty-keep test [] h = h
is_empty-keep test (x ∷ xs) h = refl

module _ (casefold : Text → Text) (fromisoformat : Text → Option Stamp) (now : ℕ) where
  -- A claim that discharges one required type: an object of the signal, of that type, about the
  -- resource of the request (if bound), observed inside the window (if any).
  abbrev pub Discharges : Bool → Option Text → Option ℕ → List Value → Text → Type 0
  Discharges same_resource resource window signal required_type =
      (claim : Fields) × In (obj claim) signal
      × (get_value (codes "type") claim ≡ str required_type)
      × (same_resource ≡ true → names_resource resource claim ≡ true)
      × WindowHolds fromisoformat now (get_value (codes "observed_at") claim) window

  is_fresh_claim→ :
      (seconds : ℕ) (claim : Fields)
      → is_fresh_claim casefold fromisoformat now (micros (pos (seconds * million))) claim ≡ true
      → WindowHolds fromisoformat now (get_value (codes "observed_at") claim) (some seconds)
  unfolding is_fresh_claim
  is_fresh_claim→ seconds claim h =
      elim (Option-cases (parse_timestamp fromisoformat (get_value (codes "observed_at") claim))) [
        | inl e ↦ cc (rw (e, is_fresh_claim) at h)
        | inr (t, e) ↦
            elim (Option-cases (freshness_error t (micros (pos (seconds * million))) now)) [
              | inl f ↦
                  let (early, late) = (freshness_error-none_iff t (seconds * million) now).0 f in
                  (t, e, early, late)
              | inr (x, f) ↦ cc (rw (e, f, is_fresh_claim) at h)
            ]
      ]

  -- A claim that survives the window.
  window_error→ :
      (window : Option ℕ) (candidates : List Fields)
      → is_empty candidates ≡ false
      → window_error casefold fromisoformat now (window_value window) candidates ≡ ok none
      → (claim : Fields) × In claim candidates
        × WindowHolds fromisoformat now (get_value (codes "observed_at") claim) window
  unfolding window_error to_float number
  window_error→ none candidates n h = let (c, i) = nonempty_member candidates n in (c, i, tt)
  window_error→ (some seconds) candidates n h =
      let fresh = is_fresh_claim casefold fromisoformat now (micros (pos (seconds * million))) in
      elim (Bool-cases (is_empty (keep fresh candidates))) [
        | inl e ↦ cc (rw (e, window_error) at h)
        | inr e ↦
            let (c, i) = keep_nonempty fresh candidates e in
            let (member, passes) = keep-In fresh c candidates i in
            (c, member, is_fresh_claim→ seconds c passes)
      ]

  of_type-In :
      (t : Text) (claim : Fields) (signal : List Value)
      → In claim (keep (of_type (str t)) (claims signal))
      → In (obj claim) signal × (get_value (codes "type") claim ≡ str t)
  unfolding of_type
  of_type-In t claim signal i =
      let (member, typed) = keep-In (of_type (str t)) claim (claims signal) i in
      (claims-In signal claim member, frozen_eq-str _ t typed)

  type→ :
      (same : Bool) (resource : Option Text) (window : Option ℕ) (signal : List Value) (t : Text)
      → type_error? casefold fromisoformat now same resource
          (window_value window)
          (claims signal)
          (str t)
        ≡ ok none
      → Discharges same resource window signal t
  unfolding type_error?
  type→ false resource window signal t h =
      let candidates = keep (of_type (str t)) (claims signal) in
      elim (Bool-cases (is_empty candidates)) [
        | inl e ↦ cc (rw (e, type_error?) at h)
        | inr e ↦
            let (c, i, w) = window_error→ window candidates e (rw (e, type_error?) at h) in
            let (member, typed) = of_type-In t c signal i in (c, member, typed, λ bound. cc, w)
      ]
  type→ true resource window signal t h =
      let candidates = keep (of_type (str t)) (claims signal) in
      let about = keep (names_resource resource) candidates in
      elim (Bool-cases (is_empty about)) [
        | inl e ↦ elim (Bool-cases (is_empty candidates)) [
          | inl n ↦ cc (rw (n, type_error?) at h)
          | inr n ↦ cc (rw (n, e, type_error?) at h)
        ]
        | inr e ↦
            let n = is_empty-keep (names_resource resource) candidates e in
            let (c, i, w) = window_error→ window about e (rw (n, e, type_error?) at h) in
            let (among, named) = keep-In (names_resource resource) c candidates i in
            let (member, typed) = of_type-In t c signal among in
            (c, member, typed, λ bound. named, w)
      ]

  -- Every required type has a claim.
  abbrev pub AllDischarged : Bool → Option Text → Option ℕ → List Value → List Value → Type 0
  AllDischarged same resource window signal [] = Unit
  AllDischarged same resource window signal (str t ∷ types) =
      Discharges same resource window signal t × AllDischarged same resource window signal types
  AllDischarged same resource window signal (_ ∷ types) =
      AllDischarged same resource window signal types

  types_step :
      (same : Bool) (resource : Option Text) (max_age : Value) (evidence : List Fields) (v : Value)
      (types : List Value)
      → types_error casefold fromisoformat now same resource max_age evidence (v ∷ types) ≡ ok none
      → (type_error? casefold fromisoformat now same resource max_age evidence v ≡ ok none)
        × (types_error casefold fromisoformat now same resource max_age evidence types ≡ ok none)
  unfolding types_error
  types_step same resource max_age evidence v types h = ground arith

  types→ :
      (same : Bool) (resource : Option Text) (window : Option ℕ) (signal types : List Value)
      → types_error casefold fromisoformat now same resource
          (window_value window)
          (claims signal)
          types
        ≡ ok none
      → AllDischarged same resource window signal types
  types→ same resource window signal [] h = tt
  types→ same resource window signal (str t ∷ types) h =
      let (here, rest) = types_step same resource _ (claims signal) (str t) types h in
      (type→ same resource window signal t here, types→ same resource window signal types rest)
  types→ same resource window signal (v ∷ types) h =
      types→ same resource window signal types
        (types_step same resource _ (claims signal) v types h).1

  outcome_none :
      (rule : PolicyRule) (m : Checked (Option Detail))
      → (m >>= λ problem. ok (evidence_outcome rule problem)) ≡ ok (passed rule)
      → m ≡ ok none
  outcome_none rule (ok none) h = refl
  outcome_none rule (ok (some d)) h = ground arith
  outcome_none rule (err x) h = cc

  -- An evidence list passes a policy with a Boolean `same_resource`, or none, and a window in whole
  -- seconds, or none, only if every required type has a claim of that type in the list, about the
  -- resource of the request where that is bound and inside the window where one is set; and a
  -- request with no resource never passes where that is bound.
  pub check_evidence-passed :
      (rule : PolicyRule) (request : ActionRequest) (signal types : Items) (same : Bool)
      (window : Option ℕ)
      → require_bool (codes "same_resource") rule.spec ≡ ok same
      → get_value (codes "evidence_types") rule.spec ≡ arr types
      → get_value (codes "max_age_seconds") rule.spec ≡ window_value window
      → check_evidence casefold fromisoformat now rule request (arr signal) ≡ ok (passed rule)
      → AllDischarged same request.resource window (items signal) (items types)
        × (same ≡ true → is_unset request.resource ≡ false)
  unfolding check_evidence evidence_types
  check_evidence-passed rule request signal types same window es et ew h =
      elim (Bool-cases (same && is_unset request.resource)) [
        | inl e ↦ cc (rw (es, e, check_evidence) at h)
        | inr e ↦
            let found = outcome_none rule _ (rw (es, e, et, ew, check_evidence) at h) in
            (
              types→ same request.resource window (items signal) (items types) found,
              λ bound. ground arith,
            )
      ]

  -- A policy whose `evidence_types` is null demands no claim at all: every list passes, the empty one
  -- included, unless the resource is bound and the request names none.
  pub null_evidence_types-passed :
      (rule : PolicyRule) (request : ActionRequest) (signal : Items) (same : Bool)
      → require_bool (codes "same_resource") rule.spec ≡ ok same
      → get_value (codes "evidence_types") rule.spec ≡ null
      → (same && is_unset request.resource) ≡ false
      → check_evidence casefold fromisoformat now rule request (arr signal) ≡ ok (passed rule)
  unfolding check_evidence evidence_types
  null_evidence_types-passed rule request signal same es et n = rw (es, n, et)
