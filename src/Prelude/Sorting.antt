-- ===== src/Prelude/Sorting.antt =====
-- `ORDER BY`: sorting by a Boolean order, what it keeps, and the order of texts.
use mathlib.Core.Path.{◌≡◌, refl}
use mathlib.Core.Logic.{◌↔◌, ◌⊎◌, inl, inr}
use mathlib.Core.Bool.{Bool, true, false}
use mathlib.Core.List.{List, [], ◌∷◌}
use native.Mathlib.Omega.{arith}
use hlinor_agent_registry.Prelude.Tests.{if◌then◌else◌, Bool-cases}
use hlinor_agent_registry.Prelude.Lists.{All, All-imply, In}
use hlinor_agent_registry.Prelude.Strings.{Text, text_leb}

module _ {A : Type 0} (below : A → A → Bool) where
  -- `below x y` says that x may stand before y
  unfoldable pub insert_by : A → List A → List A
  insert_by x [] = x ∷ []
  insert_by x (y ∷ ys) = if below x y then x ∷ y ∷ ys else y ∷ insert_by x ys

  unfoldable pub sort_by : List A → List A
  unfolding insert_by
  sort_by [] = []
  sort_by (x ∷ xs) = insert_by x (sort_by xs)

  insert_by→ : (a x : A) (ys : List A) → In a (insert_by x ys) → (x ≡ a) ⊎ In a ys
  unfolding insert_by
  insert_by→ a x [] h = h
  insert_by→ a x (y ∷ ys) h = ground (arith, insert_by→ a x ys)

  insert_by← : (a x : A) (ys : List A) → (x ≡ a) ⊎ In a ys → In a (insert_by x ys)
  unfolding insert_by
  insert_by← a x [] h = h
  insert_by← a x (y ∷ ys) h = ground (arith, insert_by← a x ys)

  sort_by→ : (a : A) (xs : List A) → In a (sort_by xs) → In a xs
  unfolding sort_by
  sort_by→ a [] h = h
  sort_by→ a (x ∷ xs) h = ground (arith, insert_by→ a x (sort_by xs), sort_by→ a xs)

  sort_by← : (a : A) (xs : List A) → In a xs → In a (sort_by xs)
  unfolding sort_by
  sort_by← a [] h = h
  sort_by← a (x ∷ xs) h = ground (arith, insert_by← a x (sort_by xs), sort_by← a xs)

  pub sort_by-In : (a : A) (xs : List A) → In a (sort_by xs) ↔ In a xs
  sort_by-In a xs = (sort_by→ a xs, sort_by← a xs)

  -- Each may stand before all that follow it.
  abbrev pub IsSorted : List A → Type 0
  IsSorted [] = Unit
  IsSorted (x ∷ xs) = All (λ (y : A). below x y ≡ true) xs × IsSorted xs

insert_by-All :
    {A : Type 0} (below : A → A → Bool) (P : A → Type 0) (x : A) (ys : List A)
    → P x
    → All P ys
    → All P (insert_by below x ys)
unfolding insert_by
insert_by-All below P x [] p h = (p, tt)
insert_by-All below P x (y ∷ ys) p h = elim (Bool-cases (below x y)) [
  | inl e ↦ rw e (p, h)
  | inr e ↦ rw e (h.0, insert_by-All below P x ys p h.1)
]

module _ {A : Type 0} (below : A → A → Bool)
    (total : (x y : A) → below x y ≡ false → below y x ≡ true)
    (trans : (x y z : A) → below x y ≡ true → below y z ≡ true → below x z ≡ true) where
  insert_by-IsSorted :
      (x : A) (ys : List A) → IsSorted below ys → IsSorted below (insert_by below x ys)
  unfolding insert_by
  insert_by-IsSorted x [] h = (tt, tt)
  insert_by-IsSorted x (y ∷ ys) h = elim (Bool-cases (below x y)) [
    | inl e ↦ rw e ((e, All-imply _ _ ys (λ z l. trans x y z e l) h.0), h)
    | inr e ↦ rw e (insert_by-All below _ x ys (total x y e) h.0, insert_by-IsSorted x ys h.1)
  ]

  pub sort_by-IsSorted : (xs : List A) → IsSorted below (sort_by below xs)
  unfolding sort_by
  sort_by-IsSorted [] = tt
  sort_by-IsSorted (x ∷ xs) = insert_by-IsSorted x (sort_by below xs) (sort_by-IsSorted xs)

pub text_leb-total : (s t : Text) → text_leb s t ≡ false → text_leb t s ≡ true
text_leb-total [] t h = cc
text_leb-total (c ∷ s) [] h = refl
text_leb-total (c ∷ s) (d ∷ t) h = ground (arith, text_leb-total s t)

pub text_leb_trans :
    (s t u : Text) → text_leb s t ≡ true → text_leb t u ≡ true → text_leb s u ≡ true
text_leb_trans [] t u h k = refl
text_leb_trans (c ∷ s) [] u h k = cc
text_leb_trans (c ∷ s) (d ∷ t) [] h k = cc
text_leb_trans (c ∷ s) (d ∷ t) (e ∷ u) h k = ground (arith, text_leb_trans s t u)
