-- ===== src/CircuitBreaker/Tests.antt =====
-- Runs of the breaker.
use hlinor_agent_registry.Prelude.{
  ℕ, suc, ◌≤◌, ◌≡◌, refl, Bool, true, false, Option, none, some, List, [], ◌∷◌, All, if◌then◌else◌,
  length, Text, codes, lookup, arith,
}
use hlinor_agent_registry.CircuitBreaker.{
  integer, half_open, retry_probe, Row, Store, Surroundings, is_valid,
}
use hlinor_agent_registry.CircuitBreaker.Failures.{quiet, fail_times, Counted, fail_times-Counted}
use hlinor_agent_registry.CircuitBreaker.Dispatch.{dispatches, single_probe}
use hlinor_agent_registry.CircuitBreaker.Invariant.{fails, step, step-IsSound}
use hlinor_agent_registry.CircuitBreaker.Soundness.{IsSound}
use hlinor_agent_registry.CircuitBreaker.{record_success}
use hlinor_agent_registry.CircuitBreaker.Successes.{IsAfterSuccess, record_success-row}
use hlinor_agent_registry.CircuitBreaker.Separation.{step-lookup}
use hlinor_agent_registry.Prelude.{is_blank, text_eq}

abbrev probe_row_of : Row
probe_row_of = record {
  threshold = integer 3;
  current_count = integer 3;
  state = half_open;
  next_action = retry_probe;
  probe_claimed = false;
  updated_at = 7;
}

abbrev half_open_store : Store
half_open_store = (codes "f", probe_row_of) ∷ []

abbrev two_workers : List Surroundings
two_workers = quiet 8 ∷ quiet 9 ∷ []

single_probe_example :
    dispatches (codes "f") 3 two_workers half_open_store
    ≤ (if probe_row_of.probe_claimed then 0 else 1)
unfolding lookup hlinor_agent_registry.Prelude.text_eq
single_probe_example =
    single_probe (codes "f") 3 two_workers half_open_store probe_row_of
      ((λ s. refl), ((λ s. refl), tt)) refl refl

valid_f : is_valid (codes "f") 3 ≡ true
unfolding hlinor_agent_registry.Prelude.is_blank hlinor_agent_registry.Prelude.strip
    hlinor_agent_registry.Prelude.lstrip hlinor_agent_registry.Prelude.rstrip
    hlinor_agent_registry.Prelude.is_space
valid_f = refl

fail_times-Counted_example :
    Counted
      (codes "f")
      3
      valid_f
      (suc (length {A = ℕ} (2 ∷ 3 ∷ [])))
      (lookup (codes "f") (fail_times (codes "f") 3 (1 ∷ 2 ∷ 3 ∷ []) []))
unfolding lookup
fail_times-Counted_example = fail_times-Counted (codes "f") 3 valid_f 1 (2 ∷ 3 ∷ []) [] refl

step-IsSound_example : IsSound (step (quiet 8) (fails (codes "f") 3) half_open_store)
step-IsSound_example =
    step-IsSound (quiet 8) (fails (codes "f") 3) half_open_store (λ s h. h)
      ((omega arith, omega arith), tt)

filled_f : is_blank (codes "f") ≡ false
unfolding hlinor_agent_registry.Prelude.is_blank hlinor_agent_registry.Prelude.strip
    hlinor_agent_registry.Prelude.lstrip hlinor_agent_registry.Prelude.rstrip
    hlinor_agent_registry.Prelude.is_space
filled_f = refl

record_success-row_example :
    ((after : Row) × (lookup
          (codes "f")
          (record_success (quiet 8) (codes "f") ((codes "g", probe_row_of) ∷ half_open_store)).1
        ≡ some after)
      × IsAfterSuccess 8 probe_row_of after half_open)
    × (lookup
          (codes "g")
          (record_success (quiet 8) (codes "f") ((codes "g", probe_row_of) ∷ half_open_store)).1
        ≡ lookup (codes "g") ((codes "g", probe_row_of) ∷ half_open_store))
unfolding lookup hlinor_agent_registry.Prelude.text_eq
record_success-row_example =
    record_success-row (codes "f") (codes "g") 8 ((codes "g", probe_row_of) ∷ half_open_store)
      probe_row_of filled_f refl refl

step-lookup_example :
    lookup
      (codes "g")
      (step (quiet 8) (fails (codes "f") 3) ((codes "g", probe_row_of) ∷ half_open_store))
    ≡ lookup (codes "g") ((codes "g", probe_row_of) ∷ half_open_store)
unfolding hlinor_agent_registry.Prelude.text_eq
step-lookup_example =
    step-lookup (codes "g") (quiet 8) (fails (codes "f") 3)
      ((codes "g", probe_row_of) ∷ half_open_store) (λ s. refl) refl
