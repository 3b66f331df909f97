-- ===== src/CircuitBreaker/Separation.antt =====
-- No call touches the rows of other fingerprints.
use hlinor_agent_registry.Prelude.{
  ℕ, ◌≡◌, refl, ◌∙◌, inl, inr, false, Text, text_eq, is_blank, lookup, assign, lookup-assign,
  Bool-cases, Option-cases,
}
use hlinor_agent_registry.CircuitBreaker.{
  Cell, integer, foreign, State, closed, opened, half_open, other_state, Row, Store, Surroundings,
  Ending, rollback, commit_row, commit_read, unknown, transact, finish, new_row, require_row,
  dispatch_row, dispatch_body, ends, is_valid, before_dispatch, fail_row, failure_body,
  record_failure, succeed_row, success_body, on_row, record_success, probe_row, probe_body,
  start_probe, claim,
}
use hlinor_agent_registry.CircuitBreaker.Dispatch.{Spares, check-cases}
use hlinor_agent_registry.CircuitBreaker.Invariant.{Call, dispatches, fails, succeeds, probes, step}

module _ (other : Text) (env : Surroundings) (spares : Spares other env) where
  -- A transaction that keeps the row of the other fingerprint.
  abbrev Keeps : Store → Ending → Type 0
  Keeps store (rollback e) = Unit
  Keeps store (commit_row after row) = lookup other after ≡ lookup other store
  Keeps store (commit_read after) = lookup other after ≡ lookup other store

  finish-Keeps :
      (fingerprint : Text) (store : Store) (ending : Ending)
      → Keeps store ending
      → lookup other (finish env fingerprint store ending).1 ≡ lookup other store
  unfolding finish
  finish-Keeps fingerprint store (rollback e) k = refl
  finish-Keeps fingerprint store (commit_row after row) k = spares after ∙ k
  finish-Keeps fingerprint store (commit_read after) k = spares after ∙ k

  transact-Keeps :
      (fingerprint : Text) (body : Store → Ending) (store : Store)
      → Keeps store (body store)
      → lookup other (transact env fingerprint body store).1 ≡ lookup other store
  unfolding transact
  transact-Keeps fingerprint body store k = elim (Bool-cases env.begins) [
    | inl up ↦ rw up (finish-Keeps fingerprint store (body store) k)
    | inr down ↦ rw down refl
  ]

  module _ (fingerprint : Text) (different : text_eq fingerprint other ≡ false) where
    lookup_other :
        (row : Row) (store : Store)
        → lookup other (assign fingerprint row store) ≡ lookup other store
    lookup_other row store = rw (lookup-assign fingerprint other row store, different) refl

    dispatch-Keeps :
        (store after : Store) (row : Row) (state : State)
        → lookup other after ≡ lookup other store
        → Keeps store (dispatch_row env fingerprint (after, row) state)
    unfolding dispatch_row
    dispatch-Keeps store after row opened k = tt
    dispatch-Keeps store after row closed k = k
    dispatch-Keeps store after row (other_state s) k = k
    dispatch-Keeps store after row half_open k = elim (Bool-cases row.probe_claimed) [
      | inl c ↦ rw c tt
      | inr c ↦ rw c (lookup_other (claim env.now row) after ∙ k)
    ]

    fail-Keeps :
        (threshold : ℕ) (store after : Store) (row : Row) (count : Cell)
        → lookup other after ≡ lookup other store
        → Keeps store (fail_row env fingerprint threshold (after, row) count)
    unfolding fail_row
    fail-Keeps threshold store after row foreign k = tt
    fail-Keeps threshold store after row (integer c) k = lookup_other _ after ∙ k

    -- A body that works on the row that is there or made for it.
    require-Keeps :
        (threshold : ℕ) (store : Store) (f : Store × Row → Ending)
        → ((after : Store) (row : Row)
            → lookup other after ≡ lookup other store
            → Keeps store (f (after, row)))
        → Keeps store (ends (require_row env fingerprint threshold store) f)
    unfolding require_row
    require-Keeps threshold store f k = elim (Option-cases (lookup fingerprint store)) [
      | inl e ↦
          rw (e, require_row)
            (k (assign fingerprint (new_row threshold env.now) store) (new_row threshold env.now)
              (lookup_other (new_row threshold env.now) store))
      | inr (row, e) ↦ elim (check-cases row.threshold threshold (store, row)) [
        | inl same ↦ rw (e, require_row, same) (k store row refl)
        | inr (x, bad) ↦ rw (e, require_row, bad) tt
      ]
    ]

    succeed-Keeps :
        (store : Store) (row : Row) (state : State)
        → Keeps store (succeed_row env fingerprint store row state)
    unfolding succeed_row
    succeed-Keeps store row opened = refl
    succeed-Keeps store row s = lookup_other _ store

    probe-Keeps :
        (store : Store) (row : Row) (state : State)
        → Keeps store (probe_row env fingerprint store row state)
    unfolding probe_row
    probe-Keeps store row opened = lookup_other _ store
    probe-Keeps store row s = tt

    found-Keeps :
        (store : Store) (f : Row → Ending)
        → ((row : Row) → Keeps store (f row))
        → Keeps store (on_row fingerprint unknown f store)
    found-Keeps store f k = elim (Option-cases (lookup fingerprint store)) [
      | inl e ↦ rw (e, on_row) tt
      | inr (row, e) ↦ rw (e, on_row) (k row)
    ]

    dispatched_keeps :
        (threshold : ℕ) (store : Store)
        → lookup other (before_dispatch env fingerprint threshold store).1 ≡ lookup other store
    unfolding before_dispatch dispatch_body
    dispatched_keeps threshold store = elim (Bool-cases (is_valid fingerprint threshold)) [
      | inr bad ↦ rw bad refl
      | inl good ↦ rw good (
          transact-Keeps fingerprint (dispatch_body env fingerprint threshold) store (
            require-Keeps threshold store
              (λ found. dispatch_row env fingerprint found found.1.state)
              (λ after row k. dispatch-Keeps store after row row.state k)))
    ]

    failure_keeps :
        (threshold : ℕ) (store : Store)
        → lookup other (record_failure env fingerprint threshold store).1 ≡ lookup other store
    unfolding record_failure failure_body
    failure_keeps threshold store = elim (Bool-cases (is_valid fingerprint threshold)) [
      | inr bad ↦ rw bad refl
      | inl good ↦ rw good (
          transact-Keeps fingerprint (failure_body env fingerprint threshold) store (
            require-Keeps threshold store
              (λ found. fail_row env fingerprint threshold found found.1.current_count)
              (λ after row k. fail-Keeps threshold store after row row.current_count k)))
    ]

    success_keeps :
        (store : Store) → lookup other (record_success env fingerprint store).1 ≡ lookup other store
    unfolding record_success success_body
    success_keeps store = elim (Bool-cases (is_blank fingerprint)) [
      | inl blank ↦ rw blank refl
      | inr text ↦ rw text (
          transact-Keeps fingerprint (success_body env fingerprint) store (
            found-Keeps store (λ row. succeed_row env fingerprint store row row.state)
              (λ row. succeed-Keeps store row row.state)))
    ]

    probing_keeps :
        (store : Store) → lookup other (start_probe env fingerprint store).1 ≡ lookup other store
    unfolding start_probe probe_body
    probing_keeps store = elim (Bool-cases (is_blank fingerprint)) [
      | inl blank ↦ rw blank refl
      | inr text ↦ rw text (
          transact-Keeps fingerprint (probe_body env fingerprint) store (
            found-Keeps store (λ row. probe_row env fingerprint store row row.state)
              (λ row. probe-Keeps store row row.state)))
    ]

-- The fingerprint that a call is for.
abbrev pub fingerprint_of : Call → Text
fingerprint_of (dispatches fingerprint threshold) = fingerprint
fingerprint_of (fails fingerprint threshold) = fingerprint
fingerprint_of (succeeds fingerprint) = fingerprint
fingerprint_of (probes fingerprint) = fingerprint

-- A call, whatever fails around it, leaves the row of every other fingerprint as it was, provided that
-- what the other workers commit meanwhile does.
pub step-lookup :
    (other : Text) (env : Surroundings) (call : Call) (store : Store)
    → Spares other env
    → text_eq (fingerprint_of call) other ≡ false
    → lookup other (step env call store) ≡ lookup other store
unfolding step
step-lookup other env (dispatches f t) store s d = dispatched_keeps other env s f d t store
step-lookup other env (fails f t) store s d = failure_keeps other env s f d t store
step-lookup other env (succeeds f) store s d = success_keeps other env s f d store
step-lookup other env (probes f) store s d = probing_keeps other env s f d store
