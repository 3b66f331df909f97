-- ===== src/Prelude/Json.antt =====
-- JSON documents as Python reads them, and association lists for its dictionaries.
use Prim.Native.Nat.{ℕ, suc, ◌*◌, ◌-◌}
use mathlib.Core.Path.{◌≡◌, refl, ap, subst}
use mathlib.Core.Bool.{Bool, true, false, ◌&&◌}
use mathlib.Core.Option.{Option, none, some, some-injective}
use mathlib.Core.List.{List, [], ◌∷◌}
use native.Mathlib.Omega.{arith}
use hlinor_agent_registry.Prelude.Tests.{if◌then◌else◌, ◌==◌, Bool-cases}
use hlinor_agent_registry.Prelude.Lists.{All}
use mathlib.Core.Logic.{inl, inr}
use hlinor_agent_registry.Prelude.Int.{ℤ, pos, negsuc, eq_ℤ}
use hlinor_agent_registry.Prelude.Strings.{Text, text_eq, text_eq_refl, text_eq_sound, text_eq→eq}

-- A finite float is kept as a whole number of millionths, the grain of `datetime`.
pub data Float : Type 0 where
  micros : ℤ → Float
  nan infinite minus_infinite : Float

mutual
  pub data Value : Type 0 where
    null : Value
    bool : Bool → Value
    int : ℤ → Value
    float : Float → Value
    str : Text → Value
    arr : Items → Value
    obj : Fields → Value

  pub data Items : Type 0 where
    nil : Items
    cons : Value → Items → Items

  pub data Fields : Type 0 where
    end : Fields
    field : Text → Value → Fields → Fields

-- `mapping.get(key)`, and whether the key is there
unfoldable pub get_field : Text → Fields → Option Value
get_field k end = none
get_field k (field j v fs) = if text_eq j k then some v else get_field k fs

-- `mapping.get(key)`, where a missing key reads as None
unfoldable pub get_value : Text → Fields → Value
unfolding get_field
get_value k fs = elim (get_field k fs) [ none ↦ null | some v ↦ v ]

unfoldable pub has_field : Text → Fields → Bool
unfolding get_field
has_field k fs = elim (get_field k fs) [ none ↦ false | some v ↦ true ]

unfoldable pub items : Items → List Value
items nil = []
items (cons v vs) = v ∷ items vs

unfoldable pub entries : Fields → List (Text × Value)
entries end = []
entries (field k v fs) = (k, v) ∷ entries fs

-- The dictionaries of the program's state: keys in insertion order.
module _ {ℓ} {A : Type ℓ} where
  unfoldable pub lookup : Text → List (Text × A) → Option A
  lookup k [] = none
  lookup k ((j, a) ∷ d) = if text_eq j k then some a else lookup k d

  -- `d[key] = value`: an existing key keeps its place
  unfoldable pub assign : Text → A → List (Text × A) → List (Text × A)
  assign k a [] = (k, a) ∷ []
  assign k a ((j, b) ∷ d) = if text_eq j k then (j, a) ∷ d else (j, b) ∷ assign k a d

  pub lookup-assign :
      (k j : Text) (a : A) (d : List (Text × A))
      → lookup j (assign k a d) ≡ (if text_eq k j then some a else lookup j d)
  unfolding lookup assign
  lookup-assign k j a [] = refl
  lookup-assign k j a ((i, b) ∷ d) =
      ground (arith, text_eq_sound k j, text_eq_sound i k, text_eq_sound i j, lookup-assign k j a d)

  pub lookup-assign_self :
      (k : Text) (a : A) (d : List (Text × A)) → lookup k (assign k a d) ≡ some a
  lookup-assign_self k a d = rw (lookup-assign k k a d, text_eq_refl k)

pub assign-All :
    {A : Type 0} (P : Text × A → Type 0) (k : Text) (a : A) (d : List (Text × A))
    → P (k, a)
    → All P d
    → All P (assign k a d)
unfolding assign
assign-All P k a [] p h = (p, tt)
assign-All P k a ((j, b) ∷ d) p h = elim (Bool-cases (text_eq j k)) [
  | inl e ↦ rw (e, text_eq→eq j k e) (p, h.1)
  | inr e ↦ rw e (h.0, assign-All P k a d p h.1)
]

pub lookup-All :
    {A : Type 0} (P : A → Type 0) (k : Text) (d : List (Text × A)) {a : A}
    → All (λ (entry : Text × A). P entry.1) d
    → lookup k d ≡ some a
    → P a
unfolding lookup
lookup-All P k [] h e = cc
lookup-All P k ((j, b) ∷ d) h e = elim (Bool-cases (text_eq j k)) [
  | inl t ↦ subst P (some-injective b _ (rw (t, lookup) at e)) h.0
  | inr t ↦ lookup-All P k d h.1 (rw (t, lookup) at e)
]

-- A number of seconds as millionths; a float is one already.
abbrev pub million : ℕ
million = 1000000

abbrev pub scaled : ℤ → ℤ
scaled (pos n) = pos (n * million)
scaled (negsuc n) = negsuc (suc n * million - 1)

-- The numbers of Python, booleans among them, on one scale.
unfoldable pub number : Value → Option Float
number (bool false) = some (micros (pos 0))
number (bool true) = some (micros (pos million))
number (int n) = some (micros (scaled n))
number (float x) = some x
number _ = none

unfoldable pub float_eq : Float → Float → Bool
float_eq (micros a) (micros b) = eq_ℤ a b
float_eq infinite infinite = true
float_eq minus_infinite minus_infinite = true
float_eq _ _ = false

unfoldable pub number_eq : Option Float → Option Float → Bool
unfolding float_eq
number_eq (some x) (some y) = float_eq x y
number_eq _ _ = false

unfoldable pub field_count : Fields → ℕ
field_count end = 0
field_count (field k v fs) = suc (field_count fs)

-- Python's `==` of a frozen request value, on the left, and a value of the bundle. Lists of a request
-- are frozen to tuples, and a tuple equals no list.
unfoldable mutual
  pub frozen_eq : Value → Value → Bool
  frozen_eq null w = elim w [ null ↦ true | _ ↦ false ]
  frozen_eq (bool b) w = number_eq (number (bool b)) (number w)
  frozen_eq (int n) w = number_eq (number (int n)) (number w)
  frozen_eq (float x) w = number_eq (number (float x)) (number w)
  frozen_eq (str s) w = elim w [ str t ↦ text_eq s t | _ ↦ false ]
  frozen_eq (arr vs) w = false
  frozen_eq (obj fs) w = elim w [
    | obj gs ↦ (field_count fs == field_count gs) && frozen_fields_eq fs gs
    | _ ↦ false
  ]

  pub frozen_fields_eq : Fields → Fields → Bool
  frozen_fields_eq end gs = true
  frozen_fields_eq (field k v fs) gs =
      elim (get_field k gs) [ none ↦ false | some w ↦ frozen_eq v w ] && frozen_fields_eq fs gs

pub frozen_eq-str : (v : Value) (t : Text) → frozen_eq v (str t) ≡ true → v ≡ str t
unfolding frozen_eq number number_eq
frozen_eq-str null t h = cc
frozen_eq-str (bool false) t h = cc
frozen_eq-str (bool true) t h = cc
frozen_eq-str (int n) t h = cc
frozen_eq-str (float x) t h = cc
frozen_eq-str (str s) t h = ap str (text_eq→eq s t h)
frozen_eq-str (arr vs) t h = cc
frozen_eq-str (obj fs) t h = cc

-- Python's `==` of two parsed values.
unfoldable mutual
  pub value_eq : Value → Value → Bool
  value_eq null w = elim w [ null ↦ true | _ ↦ false ]
  value_eq (bool b) w = number_eq (number (bool b)) (number w)
  value_eq (int n) w = number_eq (number (int n)) (number w)
  value_eq (float x) w = number_eq (number (float x)) (number w)
  value_eq (str s) w = elim w [ str t ↦ text_eq s t | _ ↦ false ]
  value_eq (arr vs) w = elim w [ arr ws ↦ items_eq vs ws | _ ↦ false ]
  value_eq (obj fs) w = elim w [
    | obj gs ↦ (field_count fs == field_count gs) && fields_eq fs gs
    | _ ↦ false
  ]

  pub items_eq : Items → Items → Bool
  items_eq nil ws = elim ws [ nil ↦ true | cons w rest ↦ false ]
  items_eq (cons v vs) ws = elim ws [ nil ↦ false | cons w rest ↦ value_eq v w && items_eq vs rest ]

  pub fields_eq : Fields → Fields → Bool
  fields_eq end gs = true
  fields_eq (field k v fs) gs =
      elim (get_field k gs) [ none ↦ false | some w ↦ value_eq v w ] && fields_eq fs gs
