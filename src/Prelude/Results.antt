-- ===== src/Prelude/Results.antt =====
-- A value, or the exception that the source raises.
use mathlib.Core.Path.{◌≡◌, refl}
use mathlib.Core.Logic.{◌⊎◌, inl, inr}
use mathlib.Core.Bool.{Bool, true, false}

pub data Result (E A : Type 0) : Type 0 where
  err : E → Result E A
  ok : A → Result E A

module _ {E : Type 0} where
  infixl 5 ◌>>=◌ ◌>>◌
  -- The first exception ends the sequence.
  abbrev pub ◌>>=◌ : {A B : Type 0} → Result E A → (A → Result E B) → Result E B
  err problem >>= next = err problem
  ok value >>= next = next value

  abbrev pub ◌>>◌ : {B : Type 0} → Result E (Unit {0}) → Result E B → Result E B
  check >> next = check >>= λ done. next

  -- `if not test: raise problem`
  abbrev pub guard : Bool → E → Result E (Unit {0})
  guard false problem = err problem
  guard true problem = ok tt

  -- What a passed test was.
  pub guard-eq-ok : (b : Bool) (problem : E) {u : Unit {0}} → guard b problem ≡ ok u → b ≡ true
  guard-eq-ok true problem h = refl
  guard-eq-ok false problem h = cc

  module _ {A : Type 0} where
    pub Result-cases : (m : Result E A) → ((a : A) × (m ≡ ok a)) ⊎ ((e : E) × (m ≡ err e))
    Result-cases (err e) = inr (e, refl)
    Result-cases (ok a) = inl (a, refl)

    pub ok-injective : (a b : A) → ◌≡◌ {A = Result E A} (ok a) (ok b) → a ≡ b
    ok-injective a b same = cc

    -- A sequence that ends well has a first value, from which its rest ends well.
    pub >>=-eq-ok :
        {B : Type 0} (first : Result E A) (rest : A → Result E B) {end_value : B}
        → (first >>= rest) ≡ ok end_value
        → (value : A) × (first ≡ ok value) × (rest value ≡ ok end_value)
    >>=-eq-ok (err problem) rest ends_well = cc
    >>=-eq-ok (ok value) rest ends_well = (value, refl, ends_well)
