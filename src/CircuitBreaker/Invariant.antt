-- ===== src/CircuitBreaker/Invariant.antt =====
-- Every call keeps a sound table sound, whatever the calls and their order.
use hlinor_agent_registry.Prelude.{
  ℕ, ◌≤◌, ◌≡◌, refl, inl, inr, true, arith, Text, is_blank, Bool-cases,
}
use hlinor_agent_registry.CircuitBreaker.{
  Store, Surroundings, require_row, dispatch_row, is_valid, before_dispatch, fail_row,
  record_failure, succeed_row, record_success, probe_row, start_probe, dispatch_body, failure_body,
  success_body, probe_body, unknown,
}
use hlinor_agent_registry.CircuitBreaker.Soundness.{
  IsSound, transact-IsSound, ends-IsSound, require_row-IsSound, dispatch_row-IsSound,
  fail_row-IsSound, on_row-IsSound, succeed_row-IsSound, probe_row-IsSound,
}

module _ (env : Surroundings) (others : (s : Store) → IsSound s → IsSound (env.others s)) where
  valid_threshold :
      (fingerprint : Text) (threshold : ℕ) → is_valid fingerprint threshold ≡ true → 1 ≤ threshold
  valid_threshold fingerprint threshold h = ground arith

  before_dispatch-IsSound :
      (fingerprint : Text) (threshold : ℕ) (store : Store)
      → IsSound store
      → IsSound (before_dispatch env fingerprint threshold store).1
  unfolding before_dispatch dispatch_body
  before_dispatch-IsSound fingerprint threshold store h =
      elim (Bool-cases (is_valid fingerprint threshold)) [
        | inr bad ↦ rw bad h
        | inl good ↦
            let p = valid_threshold fingerprint threshold good in
            rw good (
              transact-IsSound env others fingerprint (dispatch_body env fingerprint threshold)
                store h
                (ends-IsSound env others threshold (require_row env fingerprint threshold store)
                  (λ found. dispatch_row env fingerprint found found.1.state)
                  (require_row-IsSound env others fingerprint threshold store p h)
                  (λ s row hs r e q.
                    dispatch_row-IsSound env others fingerprint s row row.state refl hs r)))
      ]

  record_failure-IsSound :
      (fingerprint : Text) (threshold : ℕ) (store : Store)
      → IsSound store
      → IsSound (record_failure env fingerprint threshold store).1
  unfolding record_failure failure_body
  record_failure-IsSound fingerprint threshold store h =
      elim (Bool-cases (is_valid fingerprint threshold)) [
        | inr bad ↦ rw bad h
        | inl good ↦
            let p = valid_threshold fingerprint threshold good in
            rw good (
              transact-IsSound env others fingerprint (failure_body env fingerprint threshold) store
                h
                (ends-IsSound env others threshold (require_row env fingerprint threshold store)
                  (λ found. fail_row env fingerprint threshold found found.1.current_count)
                  (require_row-IsSound env others fingerprint threshold store p h)
                  (λ s row hs r e q.
                    fail_row-IsSound env others fingerprint threshold s row row.current_count e q
                      hs)))
      ]

  record_success-IsSound :
      (fingerprint : Text) (store : Store)
      → IsSound store
      → IsSound (record_success env fingerprint store).1
  unfolding record_success success_body
  record_success-IsSound fingerprint store h = elim (Bool-cases (is_blank fingerprint)) [
    | inl blank ↦ rw blank h
    | inr text ↦ rw text (
        transact-IsSound env others fingerprint (success_body env fingerprint) store h (
          on_row-IsSound env others fingerprint unknown
            (λ row. succeed_row env fingerprint store row row.state) store h
            (λ row r. succeed_row-IsSound env others fingerprint store row row.state h r)))
  ]

  start_probe-IsSound :
      (fingerprint : Text) (store : Store)
      → IsSound store
      → IsSound (start_probe env fingerprint store).1
  unfolding start_probe probe_body
  start_probe-IsSound fingerprint store h = elim (Bool-cases (is_blank fingerprint)) [
    | inl blank ↦ rw blank h
    | inr text ↦ rw text (
        transact-IsSound env others fingerprint (probe_body env fingerprint) store h (
          on_row-IsSound env others fingerprint unknown
            (λ row. probe_row env fingerprint store row row.state) store h
            (λ row r. probe_row-IsSound env others fingerprint store row row.state refl h r)))
  ]

-- One call of a worker.
pub data Call : Type 0 where
  dispatches fails : Text → ℕ → Call
  succeeds probes : Text → Call

unfoldable pub step : Surroundings → Call → Store → Store
step env (dispatches fingerprint threshold) store =
    (before_dispatch env fingerprint threshold store).1
step env (fails fingerprint threshold) store = (record_failure env fingerprint threshold store).1
step env (succeeds fingerprint) store = (record_success env fingerprint store).1
step env (probes fingerprint) store = (start_probe env fingerprint store).1

-- Every call of every worker, valid or not, whatever fails around it, keeps a sound table sound,
-- provided that what the other workers commit meanwhile does.
pub step-IsSound :
    (env : Surroundings) (call : Call) (store : Store)
    → ((s : Store) → IsSound s → IsSound (env.others s))
    → IsSound store
    → IsSound (step env call store)
unfolding step
step-IsSound env (dispatches f t) store others h = before_dispatch-IsSound env others f t store h
step-IsSound env (fails f t) store others h = record_failure-IsSound env others f t store h
step-IsSound env (succeeds f) store others h = record_success-IsSound env others f store h
step-IsSound env (probes f) store others h = start_probe-IsSound env others f store h
