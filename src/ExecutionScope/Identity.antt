-- ===== src/ExecutionScope/Identity.antt =====
-- Which scopes exist, and that the facts handed to the policies tell them apart.
use hlinor_agent_registry.Prelude.{
  ◌≡◌, refl, sym, ◌↔◌, inl, inr, true, false, Text, codes, text_eq, strip, is_blank, Value, str,
  null, bool, int, float, arr, obj, ok, >>=-eq-ok, ok-injective, Bool-cases,
}
use hlinor_agent_registry.ExecutionScope.{ExecutionScope, check_id, new_scope}

-- Not blank, and with no outer whitespace.
abbrev pub IsTidy : Text → Type 0
IsTidy s = (is_blank s ≡ false) × (text_eq s (strip s) ≡ true)

check_id→ : (name : Text) (v : Value) (s : Text) → check_id name v ≡ ok s → (v ≡ str s) × IsTidy s
unfolding check_id
check_id→ name (str t) s h = elim (Bool-cases (is_blank t)) [
  | inl blank ↦ let k = rw (blank, check_id) at h in cc
  | inr filled ↦ elim (Bool-cases (text_eq t (strip t))) [
    | inl tidy ↦
        let e : t ≡ s = ok-injective t s (rw (filled, tidy, check_id) at h) in
        rw (sym e) (refl, (filled, tidy))
    | inr outer ↦ let k = rw (filled, outer, check_id) at h in cc
  ]
]
check_id→ name null s h = cc
check_id→ name (bool b) s h = cc
check_id→ name (int n) s h = cc
check_id→ name (float x) s h = cc
check_id→ name (arr vs) s h = cc
check_id→ name (obj fs) s h = cc

check_id← : (name s : Text) → IsTidy s → check_id name (str s) ≡ ok s
unfolding check_id
check_id← name s (filled, tidy) = rw (filled, tidy) refl

new_scope→ :
    (p w : Value) (s : ExecutionScope)
    → new_scope p w ≡ ok s
    → (p ≡ str s.project_id)
      × (w ≡ str s.workspace_id)
      × IsTidy s.project_id
      × IsTidy s.workspace_id
unfolding new_scope
new_scope→ p w s h =
    let (a, e, h1) = >>=-eq-ok (check_id (codes "project_id") p) _ h in
    let (b, f, h2) = >>=-eq-ok (check_id (codes "workspace_id") w) _ h1 in
    let same = ok-injective _ _ h2 in
    let (pe, pt) = check_id→ (codes "project_id") p a e in
    let (we, wt) = check_id→ (codes "workspace_id") w b f in rw (sym same) (pe, we, pt, wt)

-- A scope is made exactly of two texts that are not blank and have no outer whitespace, which it then
-- holds as they are given.
pub new_scope_iff :
    (p w : Value) (s : ExecutionScope)
    → (new_scope p w ≡ ok s) ↔ (
        (p ≡ str s.project_id)
        × (w ≡ str s.workspace_id)
        × IsTidy s.project_id
        × IsTidy s.workspace_id)
unfolding new_scope
new_scope_iff p w s = (
  new_scope→ p w s,
  λ (e, f, a, b).
      rw
        (
          e,
          f,
          check_id← (codes "project_id") s.project_id a,
          check_id← (codes "workspace_id") s.workspace_id b,
        )
        refl,
)
