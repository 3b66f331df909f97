-- ===== src/CircuitBreaker/Successes.antt =====
-- What a success does to the row of its fingerprint.
use hlinor_agent_registry.Prelude.{
  ℕ, ◌≡◌, refl, false, some, Text, text_eq, is_blank, lookup, lookup-assign_self,
}
use hlinor_agent_registry.CircuitBreaker.{
  integer, State, closed, opened, continue, Row, Store, transact, finish, succeeded, succeed_row,
  success_body, on_row, record_success,
}
use hlinor_agent_registry.CircuitBreaker.Failures.{quiet}
use hlinor_agent_registry.CircuitBreaker.Invariant.{succeeds}
use hlinor_agent_registry.CircuitBreaker.Separation.{step-lookup}

-- A row that a success at this time has closed.
abbrev pub IsClosedAt : ℕ → Row → Row → Type 0
IsClosedAt now row after =
    (after.state ≡ closed)
    × (after.current_count ≡ integer 0)
    × (after.next_action ≡ continue)
    × (after.probe_claimed ≡ false)
    × (after.updated_at ≡ now)
    × (after.threshold ≡ row.threshold)

-- The row after a success, by the state that it had.
abbrev pub IsAfterSuccess : ℕ → Row → Row → State → Type 0
IsAfterSuccess now row after opened = after ≡ row
IsAfterSuccess now row after s = IsClosedAt now row after

succeed_row-IsAfterSuccess :
    (fingerprint : Text) (now : ℕ) (store : Store) (row : Row) (state : State)
    → lookup fingerprint store ≡ some row
    → (after : Row) × (lookup fingerprint
          (finish
            (quiet now)
            fingerprint
            store
            (succeed_row (quiet now) fingerprint store row state)).1
        ≡ some after)
      × IsAfterSuccess now row after state
unfolding finish succeed_row
succeed_row-IsAfterSuccess fingerprint now store row opened h = (row, h, refl)
succeed_row-IsAfterSuccess fingerprint now store row s h = (
  succeeded now row,
  lookup-assign_self fingerprint (succeeded now row) store,
  (refl, refl, refl, refl, refl, refl),
)

success_body-found :
    (fingerprint : Text) (now : ℕ) (store : Store) (row : Row)
    → lookup fingerprint store ≡ some row
    → success_body (quiet now) fingerprint store
      ≡ succeed_row (quiet now) fingerprint store row row.state
unfolding success_body
success_body-found fingerprint now store row h = rw (h, on_row, success_body) refl

-- A success for a fingerprint that is not blank and has a row, with nothing failing around it, leaves
-- the row of an open breaker as it is; in any other state, a half-open one whose probe nobody has
-- claimed among them, it leaves the row closed, its count 0, its next action to continue, no probe
-- claimed, the time of the call written and the threshold kept. The row of another fingerprint stays.
pub record_success-row :
    (fingerprint other : Text) (now : ℕ) (store : Store) (row : Row)
    → is_blank fingerprint ≡ false
    → text_eq fingerprint other ≡ false
    → lookup fingerprint store ≡ some row
    → ((after : Row) × (lookup fingerprint (record_success (quiet now) fingerprint store).1
          ≡ some after)
        × IsAfterSuccess now row after row.state)
      × (lookup other (record_success (quiet now) fingerprint store).1 ≡ lookup other store)
unfolding record_success transact hlinor_agent_registry.CircuitBreaker.Invariant.step
record_success-row fingerprint other now store row b different h = (
  rw (b, success_body-found fingerprint now store row h, record_success, transact)
      (succeed_row-IsAfterSuccess fingerprint now store row row.state h),
  step-lookup other (quiet now) (succeeds fingerprint) store (λ s. refl) different,
)
