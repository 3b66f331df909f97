-- ===== src/CircuitBreaker/Dispatch.antt =====
-- A half-open breaker lets one probe through, whatever the workers that ask and whatever fails.
use hlinor_agent_registry.Prelude.{
  ℕ, ◌+◌, ◌≤◌, ◌≡◌, refl, ◌⊎◌, inl, inr, ◌∙◌, true, false, Option, none, some, List, [], ◌∷◌, All,
  arith, ◌==◌, if◌then◌else◌, Text, lookup, assign, lookup-assign_self, Result, ok, err, Bool-cases,
}
use hlinor_agent_registry.CircuitBreaker.{
  Cell, integer, foreign, half_open, Row, Store, Surroundings, BreakerError, BreakerSnapshot,
  Outcome, transact, finish, threshold_mismatch, store_unavailable, require_row, is_valid,
  check_threshold, dispatch_row, dispatch_body, claim, before_dispatch,
}

-- What other workers commit meanwhile leaves the row of the fingerprint alone.
abbrev pub Spares : Text → Surroundings → Type 0
Spares fingerprint env = (s : Store) → lookup fingerprint (env.others s) ≡ lookup fingerprint s

abbrev admitted : Result BreakerError BreakerSnapshot → ℕ
admitted (ok s) = 1
admitted (err e) = 0

-- How many of the calls let their dispatch through, and the table afterwards.
unfoldable pub dispatches : Text → ℕ → List Surroundings → Store → ℕ
unfolding before_dispatch
dispatches fingerprint threshold [] store = 0
dispatches fingerprint threshold (env ∷ envs) store =
    admitted (before_dispatch env fingerprint threshold store).0
    + dispatches fingerprint threshold envs (before_dispatch env fingerprint threshold store).1

pub check-cases :
    (cell : Cell) (threshold : ℕ) (found : Store × Row)
    → (check_threshold cell threshold found ≡ ok found)
      ⊎ ((e : BreakerError) × (check_threshold cell threshold found ≡ err e))
check-cases foreign threshold found = inr (store_unavailable, refl)
check-cases (integer t) threshold found = elim (Bool-cases (t == threshold)) [
  | inl same ↦ rw same (inl refl)
  | inr other ↦ rw other (inr (threshold_mismatch, refl))
]

admitted_le : (r : Result BreakerError BreakerSnapshot) → admitted r ≤ 1
admitted_le (ok s) = omega arith
admitted_le (err e) = omega arith

module _ (fingerprint : Text) (threshold : ℕ) where
  -- A call that is refused and changes nothing.
  abbrev IsRefused : Store → Outcome → Type 0
  IsRefused store (r, after) = (admitted r ≡ 0) × (after ≡ store)

  claimed-IsRefused :
      (env : Surroundings) (store : Store) (row : Row)
      → lookup fingerprint store ≡ some row
      → row.state ≡ half_open
      → row.probe_claimed ≡ true
      → IsRefused store (before_dispatch env fingerprint threshold store)
  unfolding before_dispatch transact finish dispatch_body require_row dispatch_row
  claimed-IsRefused env store row h s c = elim (Bool-cases (is_valid fingerprint threshold)) [
    | inr bad ↦ rw (bad, before_dispatch) (refl, refl)
    | inl good ↦ elim (Bool-cases env.begins) [
      | inr down ↦ rw (good, down, before_dispatch, transact) (refl, refl)
      | inl up ↦ elim (check-cases row.threshold threshold (store, row)) [
        | inl same ↦
            rw
              (
                good, up, h, same, s, c, before_dispatch, transact, finish, dispatch_body,
                require_row, dispatch_row,
              )
              (refl, refl)
        | inr (e, other) ↦
            rw (good, up, h, other, before_dispatch, transact, finish, dispatch_body, require_row)
              (refl, refl)
      ]
    ]
  ]

  abbrev IsClaimed : Option Row → Type 0
  IsClaimed none = ⊥
  IsClaimed (some row) = (row.state ≡ half_open) × (row.probe_claimed ≡ true)

  unclaimed_once :
      (env : Surroundings) (store : Store) (row : Row)
      → Spares fingerprint env
      → lookup fingerprint store ≡ some row
      → row.state ≡ half_open
      → row.probe_claimed ≡ false
      → IsRefused store (before_dispatch env fingerprint threshold store)
        ⊎ IsClaimed (lookup fingerprint (before_dispatch env fingerprint threshold store).1)
  unfolding before_dispatch transact finish dispatch_body require_row dispatch_row
  unclaimed_once env store row spares h s c = elim (Bool-cases (is_valid fingerprint threshold)) [
    | inr bad ↦ rw (bad, before_dispatch) (inl (refl, refl))
    | inl good ↦ elim (Bool-cases env.begins) [
      | inr down ↦ rw (good, down, before_dispatch, transact) (inl (refl, refl))
      | inl up ↦ elim (check-cases row.threshold threshold (store, row)) [
        | inl same ↦
            rw
              (
                good, up, h, same, s, c, before_dispatch, transact, finish, dispatch_body,
                require_row, dispatch_row,
              )
              (inr (
                rw
                  (spares (assign fingerprint (claim env.now row) store)
                    ∙ lookup-assign_self fingerprint (claim env.now row) store)
                  (s, refl)))
        | inr (e, other) ↦
            rw (good, up, h, other, before_dispatch, transact, finish, dispatch_body, require_row)
              (inl (refl, refl))
      ]
    ]
  ]

  none_more :
      (envs : List Surroundings) (store : Store) (row : Row)
      → lookup fingerprint store ≡ some row
      → row.state ≡ half_open
      → row.probe_claimed ≡ true
      → dispatches fingerprint threshold envs store ≡ 0
  unfolding dispatches
  none_more [] store row h s c = refl
  none_more (env ∷ envs) store row h s c =
      let (zero_more, same) = claimed-IsRefused env store row h s c in
      rw (zero_more, same) (omega (arith, none_more envs store row h s c))

  claimed_row :
      (m : Option Row)
      → IsClaimed m
      → (row : Row) × (m ≡ some row) × (row.state ≡ half_open) × (row.probe_claimed ≡ true)
  claimed_row none k = absurd k
  claimed_row (some row) k = (row, refl, k.0, k.1)

  -- While a breaker is half open, of all the calls of `before_dispatch` for its fingerprint, one after
  -- another, at most one lets its dispatch through, whatever their clocks and faults and whatever the
  -- other workers commit elsewhere; none does once the probe is claimed.
  pub single_probe :
      (envs : List Surroundings) (store : Store) (row : Row)
      → All (Spares fingerprint) envs
      → lookup fingerprint store ≡ some row
      → row.state ≡ half_open
      → dispatches fingerprint threshold envs store ≤ (if row.probe_claimed then 0 else 1)
  unfolding dispatches
  single_probe [] store row spares h s = elim (Bool-cases row.probe_claimed) [
    | inl c ↦ rw c (omega arith)
    | inr c ↦ rw c (omega arith)
  ]
  single_probe (env ∷ envs) store row spares h s = elim (Bool-cases row.probe_claimed) [
    | inl c ↦
        let e : dispatches fingerprint threshold (env ∷ envs) store ≡ 0 =
          none_more (env ∷ envs) store row h s c in
        rw (c, dispatches) (omega (arith, e))
    | inr c ↦ elim (unclaimed_once env store row spares.0 h s c) [
      | inl (zero_here, same) ↦
          let all = single_probe envs store row spares.1 h s in
          let rest : dispatches fingerprint threshold envs store ≤ 1 = rw c at all in
          rw (c, zero_here, same) (omega (arith, rest))
      | inr k ↦
          let after = (before_dispatch env fingerprint threshold store).1 in
          let (row', there, s', c') = claimed_row (lookup fingerprint after) k in
          let rest = none_more envs after row' there s' c' in
          let one = admitted_le (before_dispatch env fingerprint threshold store).0 in
          rw c (omega (arith, rest, one))
    ]
  ]
