-- ===== src/CircuitBreaker/Soundness.antt =====
-- What every row of the breaker table satisfies, and that each part of a transaction keeps it.
use hlinor_agent_registry.Prelude.{
  ℕ, ◌+◌, ◌≤◌, ◌<◌, ◌≡◌, refl, inl, inr, Bool, true, false, arith, leb, ◌==◌, ==_iff, All, Text,
  lookup, lookup-All, assign, assign-All, Result, ok, err, Bool-cases, Option-cases,
}
use hlinor_agent_registry.CircuitBreaker.{
  Cell, integer, foreign, State, closed, opened, half_open, other_state, Row, Store, Surroundings,
  Ending, rollback, commit_row, commit_read, BreakerError, finish, transact, new_row, require_row,
  dispatch_row, ends, fail_row, succeed_row, on_row, probe_row, check_threshold, claim, failed,
  succeeded, probing,
}

-- The counters are integers, the threshold is positive, a closed breaker is below its threshold and an
-- open or half-open one has reached it, and only a half-open breaker has a claimed probe.
abbrev pub SoundAt : Cell → Cell → State → Bool → Type 0
SoundAt (integer t) (integer c) closed claimed = (1 ≤ t) × (c < t) × (claimed ≡ false)
SoundAt (integer t) (integer c) opened claimed = (1 ≤ t) × (t ≤ c) × (claimed ≡ false)
SoundAt (integer t) (integer c) half_open claimed = (1 ≤ t) × (t ≤ c)
SoundAt _ _ _ _ = ⊥

abbrev pub IsSoundRow : Row → Type 0
IsSoundRow row = SoundAt row.threshold row.current_count row.state row.probe_claimed

abbrev pub IsSound : Store → Type 0
IsSound store = All (λ (entry : Text × Row). IsSoundRow entry.1) store

-- What a transaction may commit.
abbrev pub IsSoundEnding : Ending → Type 0
IsSoundEnding (rollback e) = Unit
IsSoundEnding (commit_row store row) = IsSound store
IsSoundEnding (commit_read store) = IsSound store

module _ (env : Surroundings) (others : (s : Store) → IsSound s → IsSound (env.others s)) where
  finish-IsSound :
      (fingerprint : Text) (store : Store) (ending : Ending)
      → IsSound store
      → IsSoundEnding ending
      → IsSound (finish env fingerprint store ending).1
  unfolding finish
  finish-IsSound fingerprint store (rollback e) h k = h
  finish-IsSound fingerprint store (commit_row after row) h k = others after k
  finish-IsSound fingerprint store (commit_read after) h k = others after k

  pub transact-IsSound :
      (fingerprint : Text) (body : Store → Ending) (store : Store)
      → IsSound store
      → IsSoundEnding (body store)
      → IsSound (transact env fingerprint body store).1
  unfolding transact
  transact-IsSound fingerprint body store h e = elim (Bool-cases env.begins) [
    | inl b ↦ rw b (finish-IsSound fingerprint store (body store) h e)
    | inr b ↦ rw b h
  ]

  -- A table with the row that a call works on.
  abbrev pub IsSoundFound : ℕ → Result BreakerError (Store × Row) → Type 0
  IsSoundFound threshold (ok (store, row)) =
      IsSound store × IsSoundRow row × (row.threshold ≡ integer threshold) × (1 ≤ threshold)
  IsSoundFound threshold (err e) = Unit

  found-IsSound :
      (threshold : ℕ) (store : Store) (row : Row) (cell : Cell)
      → 1 ≤ threshold
      → IsSound store
      → IsSoundRow row
      → row.threshold ≡ cell
      → IsSoundFound threshold (check_threshold cell threshold (store, row))
  found-IsSound threshold store row foreign p h r e = tt
  found-IsSound threshold store row (integer t) p h r e = elim (Bool-cases (t == threshold)) [
    | inl same ↦ rw same (h, r, ground (arith, ==_iff t threshold), p)
    | inr other ↦ rw other tt
  ]

  pub require_row-IsSound :
      (fingerprint : Text) (threshold : ℕ) (store : Store)
      → 1 ≤ threshold
      → IsSound store
      → IsSoundFound threshold (require_row env fingerprint threshold store)
  unfolding require_row
  require_row-IsSound fingerprint threshold store p h =
      elim (Option-cases (lookup fingerprint store)) [
        | inl e ↦
            rw (e, require_row)
              (
                assign-All (λ (entry : Text × Row). IsSoundRow entry.1) fingerprint
                    (new_row threshold env.now) store (p, p, refl) h,
                (p, p, refl),
                refl,
                p,
              )
        | inr (row, e) ↦
            rw (e, require_row)
              (found-IsSound threshold store row row.threshold p h
                (lookup-All IsSoundRow fingerprint store h e) refl)
      ]

  assign-IsSound :
      (fingerprint : Text) (row : Row) (store : Store)
      → IsSoundRow row
      → IsSound store
      → IsSound (assign fingerprint row store)
  assign-IsSound fingerprint row store =
      assign-All (λ (entry : Text × Row). IsSoundRow entry.1) fingerprint row store

  half_open-claim : (t c : Cell) (p q : Bool) → SoundAt t c half_open p → SoundAt t c half_open q
  half_open-claim (integer t) (integer c) p q h = h
  half_open-claim (integer t) foreign p q h = h
  half_open-claim foreign c p q h = h

  pub dispatch_row-IsSound :
      (fingerprint : Text) (store : Store) (row : Row) (state : State)
      → row.state ≡ state
      → IsSound store
      → IsSoundRow row
      → IsSoundEnding (dispatch_row env fingerprint (store, row) state)
  unfolding dispatch_row
  dispatch_row-IsSound fingerprint store row closed e h r = h
  dispatch_row-IsSound fingerprint store row opened e h r = tt
  dispatch_row-IsSound fingerprint store row (other_state x) e h r = h
  dispatch_row-IsSound fingerprint store row half_open e h r = elim (Bool-cases row.probe_claimed) [
    | inl c ↦ rw c tt
    | inr c ↦
        rw (c, dispatch_row)
          (assign-IsSound fingerprint (claim env.now row) store
            (rw e
              (half_open-claim row.threshold row.current_count row.probe_claimed true (rw e at r)))
            h)
  ]

  -- A failure is counted, and the new state follows from the count.
  failed-IsSound :
      (count threshold : ℕ) (row : Row)
      → row.threshold ≡ integer threshold
      → 1 ≤ threshold
      → IsSoundRow (failed count threshold env.now row)
  failed-IsSound count threshold row e p = elim (Bool-cases (leb threshold count)) [
    | inl reached ↦ rw (e, reached) (p, ground arith, refl)
    | inr below ↦ rw (e, below) (p, ground arith, refl)
  ]

  pub fail_row-IsSound :
      (fingerprint : Text) (threshold : ℕ) (store : Store) (row : Row) (count : Cell)
      → row.threshold ≡ integer threshold
      → 1 ≤ threshold
      → IsSound store
      → IsSoundEnding (fail_row env fingerprint threshold (store, row) count)
  unfolding fail_row
  fail_row-IsSound fingerprint threshold store row foreign e p h = tt
  fail_row-IsSound fingerprint threshold store row (integer c) e p h =
      assign-IsSound fingerprint (failed (c + 1) threshold env.now row) store
        (failed-IsSound (c + 1) threshold row e p) h

  -- The threshold of a sound row is a positive integer.
  threshold_of :
      (t c : Cell) (s : State) (q : Bool) → SoundAt t c s q → (n : ℕ) × (t ≡ integer n) × (1 ≤ n)
  threshold_of (integer t) (integer c) closed q h = (t, refl, h.0)
  threshold_of (integer t) (integer c) opened q h = (t, refl, h.0)
  threshold_of (integer t) (integer c) half_open q h = (t, refl, h.0)
  threshold_of (integer t) (integer c) (other_state x) q h = absurd h
  threshold_of (integer t) foreign s q h = absurd h
  threshold_of foreign c s q h = absurd h

  succeeded-IsSound : (row : Row) → IsSoundRow row → IsSoundRow (succeeded env.now row)
  succeeded-IsSound row r =
      let (n, e, p) = threshold_of row.threshold row.current_count row.state row.probe_claimed r in
      rw e (p, p, refl)

  pub succeed_row-IsSound :
      (fingerprint : Text) (store : Store) (row : Row) (state : State)
      → IsSound store
      → IsSoundRow row
      → IsSoundEnding (succeed_row env fingerprint store row state)
  unfolding succeed_row
  succeed_row-IsSound fingerprint store row opened h r = h
  succeed_row-IsSound fingerprint store row s h r =
      assign-IsSound fingerprint (succeeded env.now row) store (succeeded-IsSound row r) h

  opened-probing : (t c : Cell) (q p : Bool) → SoundAt t c opened q → SoundAt t c half_open p
  opened-probing (integer t) (integer c) q p h = (h.0, h.1)
  opened-probing (integer t) foreign q p h = h
  opened-probing foreign c q p h = h

  pub probe_row-IsSound :
      (fingerprint : Text) (store : Store) (row : Row) (state : State)
      → row.state ≡ state
      → IsSound store
      → IsSoundRow row
      → IsSoundEnding (probe_row env fingerprint store row state)
  unfolding probe_row
  probe_row-IsSound fingerprint store row opened e h r =
      assign-IsSound fingerprint (probing env.now row) store
        (opened-probing row.threshold row.current_count row.probe_claimed false (rw e at r)) h
  probe_row-IsSound fingerprint store row s e h r = tt

  pub ends-IsSound :
      (threshold : ℕ) (m : Result BreakerError (Store × Row)) (f : Store × Row → Ending)
      → IsSoundFound threshold m
      → ((store : Store) (row : Row)
          → IsSound store
          → IsSoundRow row
          → row.threshold ≡ integer threshold
          → 1 ≤ threshold
          → IsSoundEnding (f (store, row)))
      → IsSoundEnding (ends m f)
  ends-IsSound threshold (ok (store, row)) f h k = k store row h.0 h.1 h.2 h.3
  ends-IsSound threshold (err e) f h k = tt

  pub on_row-IsSound :
      (fingerprint : Text) (e : BreakerError) (f : Row → Ending) (store : Store)
      → IsSound store
      → ((row : Row) → IsSoundRow row → IsSoundEnding (f row))
      → IsSoundEnding (on_row fingerprint e f store)
  on_row-IsSound fingerprint e f store h k = elim (Option-cases (lookup fingerprint store)) [
    | inl none_there ↦ rw (none_there, on_row) tt
    | inr (row, there) ↦
        rw (there, on_row) (k row (lookup-All IsSoundRow fingerprint store h there))
  ]
