-- ===== src/ScopedStore/Addresses.antt =====
-- The rows of hlinor_registry/scoped_store.py by their addresses.
use hlinor_agent_registry.Prelude.{
  true, text_eq, ◌↔◌, ◌≡◌, Option, none, some, List, [], ◌∷◌, if◌then◌else◌, Text, text_eq→eq,
  text_eq_refl, text_eq_sound, some-injective, subst, Bool-cases, inl, inr, arith, and_elim,
}
use hlinor_agent_registry.ExecutionScope.{ExecutionScope}
use hlinor_agent_registry.ScopedStore.{
  in_scope, WorkspaceRow, is_at, select, upsert, inserted, updated,
}
use hlinor_agent_registry.ScopedStore.Spec.{same_address}

-- What `upsert` leaves at its address.
abbrev pub row_after : ExecutionScope → Text → Text → Text → Option WorkspaceRow → WorkspaceRow
row_after s key encoded now none = inserted s key encoded now
row_after s key encoded now (some r) = updated encoded now r

same_text : (s t : Text) → s ≡ t → text_eq s t ≡ true
same_text s t e = rw e (text_eq_refl t)

pub text_eq_iff : (s t : Text) → (text_eq s t ≡ true) ↔ (s ≡ t)
text_eq_iff s t = (text_eq→eq s t, same_text s t)

pub in_scope_iff :
    (s : ExecutionScope) (p w : Text)
    → (in_scope s p w ≡ true) ↔ ((p ≡ s.project_id) × (w ≡ s.workspace_id))
in_scope_iff s p w = (
  λ h.
      let (a, b) = and_elim (text_eq p s.project_id) (text_eq w s.workspace_id) h in
      (text_eq→eq p s.project_id a, text_eq→eq w s.workspace_id b),
  λ (a, b).
      let c = same_text p s.project_id a in
      let d = same_text w s.workspace_id b in ground (arith, c, d),
)

pub is_at-eq :
    (s : ExecutionScope) (key : Text) (r : WorkspaceRow)
    → is_at s key r ≡ true
    → (r.project_id ≡ s.project_id) × (r.workspace_id ≡ s.workspace_id) × (r.record_key ≡ key)
is_at-eq s key r h =
    let (here, k) = and_elim _ _ h in
    let (p, w) = and_elim _ _ here in (text_eq→eq _ _ p, text_eq→eq _ _ w, text_eq→eq _ _ k)

-- One row is at two addresses exactly when they are the same.
is_at-same :
    (s t : ExecutionScope) (key k : Text) (r : WorkspaceRow)
    → is_at s key r ≡ true
    → is_at t k r ≡ same_address s key t k
is_at-same s t key k r h = let (p, w, e) = is_at-eq s key r h in ground (arith, p, w, e)

-- A row at the second of two equal addresses is at the first.
is_at-moved :
    (s t : ExecutionScope) (key k : Text) (r : WorkspaceRow)
    → is_at t k r ≡ true
    → same_address s key t k ≡ true
    → is_at s key r ≡ true
is_at-moved s t key k r h same =
    let (p, w, e) = is_at-eq t k r h in
    ground (
      arith,
      p,
      w,
      e,
      text_eq_sound s.project_id t.project_id,
      text_eq_sound s.workspace_id t.workspace_id,
      text_eq_sound key k,
      text_eq_refl t.project_id,
      text_eq_refl t.workspace_id,
      text_eq_refl k,
    )

pub select-upsert :
    (s t : ExecutionScope) (key k encoded now : Text) (rows : List WorkspaceRow)
    → select t k (upsert s key encoded now rows) ≡ (
        if same_address s key t k
        then some (row_after s key encoded now (select s key rows))
        else select t k rows)
unfolding select upsert
select-upsert s t key k encoded now [] = ground arith
select-upsert s t key k encoded now (r ∷ rows) = elim (Bool-cases (is_at s key r)) [
  | inl here ↦ ground (arith, is_at-same s t key k r here)
  | inr other ↦ ground (arith, is_at-moved s t key k r, select-upsert s t key k encoded now rows)
]

pub select-upsert_self :
    (s : ExecutionScope) (key encoded now : Text) (rows : List WorkspaceRow)
    → select s key (upsert s key encoded now rows)
      ≡ some (row_after s key encoded now (select s key rows))
select-upsert_self s key encoded now rows = rw (
  select-upsert s s key key encoded now rows,
  text_eq_refl s.project_id,
  text_eq_refl s.workspace_id,
  text_eq_refl key,
)

pub select-is_at :
    (s : ExecutionScope) (key : Text) (rows : List WorkspaceRow) {r : WorkspaceRow}
    → select s key rows ≡ some r
    → is_at s key r ≡ true
unfolding select
select-is_at s key [] h = cc
select-is_at s key (q ∷ rows) h = elim (Bool-cases (is_at s key q)) [
  | inl here ↦
      subst (λ (t : WorkspaceRow). is_at s key t ≡ true)
        (some-injective q _ (rw (here, select) at h)) here
  | inr other ↦ select-is_at s key rows (rw (other, select) at h)
]
