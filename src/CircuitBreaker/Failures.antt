-- ===== src/CircuitBreaker/Failures.antt =====
-- How many failures open a breaker, when one worker records them and the database answers.
use hlinor_agent_registry.Prelude.{
  ℕ, suc, ◌+◌, ◌≡◌, refl, subst, true, Option, none, some, List, [], ◌∷◌, arith, leb, ◌==◌, ==_iff,
  if◌then◌else◌, length, Text, lookup, lookup-assign_self,
}
use hlinor_agent_registry.CircuitBreaker.{
  integer, closed, opened, Row, Store, Surroundings, transact, finish, new_row, require_row,
  is_valid, fail_row, failed, failure_body, record_failure,
}

-- Surroundings in which nothing fails and nobody else writes.
abbrev pub quiet : ℕ → Surroundings
quiet now = record { now = now; begins = true; reads = true; others = λ s. s }

unfoldable pub fail_times : Text → ℕ → List ℕ → Store → Store
unfolding record_failure
fail_times fingerprint threshold [] store = store
fail_times fingerprint threshold (now ∷ times) store =
    fail_times fingerprint threshold times
      (record_failure (quiet now) fingerprint threshold store).1

module _ (fingerprint : Text) (threshold : ℕ) (valid : is_valid fingerprint threshold ≡ true) where
  fail_new :
      (now : ℕ) (store : Store)
      → lookup fingerprint store ≡ none
      → lookup fingerprint (record_failure (quiet now) fingerprint threshold store).1
        ≡ some (failed 1 threshold now (new_row threshold now))
  unfolding record_failure transact failure_body finish require_row fail_row
  fail_new now store h =
      rw (valid, h, record_failure, transact, failure_body, finish, require_row, fail_row)
        (lookup-assign_self fingerprint _ _)

  fail_again :
      (now c : ℕ) (row : Row) (store : Store)
      → lookup fingerprint store ≡ some row
      → row.threshold ≡ integer threshold
      → row.current_count ≡ integer c
      → lookup fingerprint (record_failure (quiet now) fingerprint threshold store).1
        ≡ some (failed (c + 1) threshold now row)
  unfolding record_failure transact failure_body finish require_row fail_row
  fail_again now c row store h t k =
      let same : (threshold == threshold) ≡ true = ground (arith, ==_iff threshold threshold) in
      rw
        (
          valid, h, t, same, k, record_failure, transact, failure_body, finish, require_row,
          fail_row,
        )
        (lookup-assign_self fingerprint _ _)

  -- The row after `count` failures, in the state that the count asks for.
  abbrev pub Counted : ℕ → Option Row → Type 0
  Counted count none = ⊥
  Counted count (some row) =
      (row.threshold ≡ integer threshold)
      × (row.current_count ≡ integer count)
      × (row.state ≡ (if leb threshold count then opened else closed))

  recount : (row : Option Row) (m n : ℕ) → m ≡ n → Counted m row → Counted n row
  recount row m n e k = subst (λ (i : ℕ). Counted i row) e k

  count_on :
      (times : List ℕ) (count : ℕ) (row : Row) (store : Store)
      → lookup fingerprint store ≡ some row
      → Counted count (some row)
      → Counted
          (count + length times)
          (lookup fingerprint (fail_times fingerprint threshold times store))
  unfolding fail_times
  count_on [] count row store h k = rw h (recount (some row) count (count + 0) (omega arith) k)
  count_on (now ∷ times) count row store h k =
      recount _ (count + 1 + length times) (count + suc (length times)) (omega arith) (
        count_on times (count + 1) (failed (count + 1) threshold now row)
          (record_failure (quiet now) fingerprint threshold store).1
          (fail_again now count row store h k.0 k.1) (k.0, refl, refl))

  -- For a valid fingerprint and threshold, failures recorded one after another for a fingerprint
  -- that has no row, with nothing failing around them, are all counted; the row keeps the threshold,
  -- and the breaker is open exactly when the number of failures has reached it.
  pub fail_times-Counted :
      (now : ℕ) (times : List ℕ) (store : Store)
      → lookup fingerprint store ≡ none
      → Counted
          (suc (length times))
          (lookup fingerprint (fail_times fingerprint threshold (now ∷ times) store))
  unfolding fail_times
  fail_times-Counted now times store h =
      recount _ (1 + length times) (suc (length times)) (omega arith) (
        count_on times 1 (failed 1 threshold now (new_row threshold now))
          (record_failure (quiet now) fingerprint threshold store).1 (fail_new now store h)
          (refl, refl, refl))
