-- ===== src/CircuitBreaker.antt =====
-- hlinor_registry/circuit_breaker.py: the durable breaker. The table is a dictionary by fingerprint,
-- and each method is one transaction on it followed, where the source reads again after COMMIT, by
-- that read. What other workers commit in between, and faults of the database, are arguments.
pub mod Soundness
pub mod Invariant
pub mod Dispatch
pub mod Failures
pub mod Successes
pub mod Separation
mod Tests
use hlinor_agent_registry.Prelude.{
  ℕ, suc, ◌+◌, Bool, true, false, not, ◌||◌, Option, none, some, List, ltb, leb, ◌==◌,
  if◌then◌else◌, Text, is_blank, lookup, assign, Result, ok, err, ◌>>=◌,
}

-- An INTEGER column: a number that this module wrote, or a value that is no integer.
pub data Cell : Type 0 where
  integer : ℕ → Cell
  foreign : Cell

-- The texts of the columns `state` and `next_action`.
pub data State : Type 0 where
  closed opened half_open : State
  other_state : Text → State

pub data NextAction : Type 0 where
  continue stop retry_probe : NextAction

pub record Row : Type 0 where
  pub threshold : Cell
  pub current_count : Cell
  pub state : State
  pub next_action : NextAction
  pub probe_claimed : Bool
  pub updated_at : ℕ

abbrev pub Store : Type 0
Store = List (Text × Row)

pub record BreakerSnapshot : Type 0 where
  pub failure_fingerprint : Text
  pub threshold : ℕ
  pub current_count : ℕ
  pub state : State
  pub next_action : NextAction
  pub updated_at : ℕ

pub data BreakerError : Type 0 where
  value_error store_unavailable threshold_mismatch unknown not_open : BreakerError
  circuit_open : BreakerSnapshot → BreakerError

-- What a call finds of its surroundings: the clock, whether the database begins a transaction and
-- answers the read after COMMIT, and what other workers commit between the two.
pub record Surroundings : Type 0 where
  pub now : ℕ
  pub begins : Bool
  pub reads : Bool
  pub others : Store → Store

-- How a transaction ends.
pub data Ending : Type 0 where
  rollback : BreakerError → Ending
  commit_row : Store → Row → Ending
  commit_read : Store → Ending

abbrev snapshot_of : Text → Row → Cell → Cell → Result BreakerError BreakerSnapshot
snapshot_of fingerprint row (integer t) (integer c) = ok (record {
  failure_fingerprint = fingerprint;
  threshold = t;
  current_count = c;
  state = row.state;
  next_action = row.next_action;
  updated_at = row.updated_at;
})
snapshot_of fingerprint row _ _ = err store_unavailable

unfoldable pub snapshot : Text → Row → Result BreakerError BreakerSnapshot
snapshot fingerprint row = snapshot_of fingerprint row row.threshold row.current_count

-- `raise CircuitOpenError(self._snapshot(row))`
unfoldable pub open_error : Text → Row → BreakerError
unfolding snapshot
open_error fingerprint row = elim (snapshot fingerprint row) [ ok s ↦ circuit_open s | err e ↦ e ]

unfoldable pub read_again : Surroundings → Text → Store → Result BreakerError BreakerSnapshot
unfolding snapshot
read_again env fingerprint store = elim (lookup fingerprint store) [
  | none ↦ err store_unavailable
  | some row ↦ if env.reads then snapshot fingerprint row else err store_unavailable
]

abbrev pub Outcome : Type 0
Outcome = Result BreakerError BreakerSnapshot × Store

unfoldable pub finish : Surroundings → Text → Store → Ending → Outcome
unfolding snapshot read_again
finish env fingerprint store (rollback e) = (err e, store)
finish env fingerprint store (commit_row after row) = (snapshot fingerprint row, env.others after)
finish env fingerprint store (commit_read after) =
    (read_again env fingerprint (env.others after), env.others after)

-- The shared frame of the four methods.
unfoldable pub transact : Surroundings → Text → (Store → Ending) → Store → Outcome
unfolding finish
transact env fingerprint body store =
    if env.begins then finish env fingerprint store (body store) else (err store_unavailable, store)

abbrev pub new_row : ℕ → ℕ → Row
new_row threshold now = record {
  threshold = integer threshold;
  current_count = integer 0;
  state = closed;
  next_action = continue;
  probe_claimed = false;
  updated_at = now;
}

abbrev pub check_threshold : Cell → ℕ → Store × Row → Result BreakerError (Store × Row)
check_threshold foreign threshold found = err store_unavailable
check_threshold (integer t) threshold found =
    if t == threshold then ok found else err threshold_mismatch

-- `_require_row`: the table with the row, and the row.
unfoldable pub require_row : Surroundings → Text → ℕ → Store → Result BreakerError (Store × Row)
require_row env fingerprint threshold store = elim (lookup fingerprint store) [
  | none ↦ ok (assign fingerprint (new_row threshold env.now) store, new_row threshold env.now)
  | some row ↦ check_threshold row.threshold threshold (store, row)
]

abbrev pub claim : ℕ → Row → Row
claim now row = record row { next_action = retry_probe; probe_claimed = true; updated_at = now }

unfoldable pub dispatch_row : Surroundings → Text → Store × Row → State → Ending
unfolding open_error
dispatch_row env fingerprint (store, row) opened = rollback (open_error fingerprint row)
dispatch_row env fingerprint (store, row) half_open =
    if row.probe_claimed
    then rollback (open_error fingerprint row)
    else commit_read (assign fingerprint (claim env.now row) store)
dispatch_row env fingerprint (store, row) _ = commit_row store row

abbrev pub ends : {A : Type 0} → Result BreakerError A → (A → Ending) → Ending
ends (ok a) f = f a
ends (err e) f = rollback e

-- `_validate_fingerprint` and `_validate_threshold`, before any transaction
abbrev pub is_valid : Text → ℕ → Bool
is_valid fingerprint threshold = not (is_blank fingerprint || ltb threshold 1)

unfoldable pub dispatch_body : Surroundings → Text → ℕ → Store → Ending
unfolding require_row dispatch_row
dispatch_body env fingerprint threshold store =
    ends (require_row env fingerprint threshold store)
      (λ found. dispatch_row env fingerprint found found.1.state)

unfoldable pub before_dispatch : Surroundings → Text → ℕ → Store → Outcome
unfolding transact dispatch_body
before_dispatch env fingerprint threshold store =
    if is_valid fingerprint threshold
    then transact env fingerprint (dispatch_body env fingerprint threshold) store
    else (err value_error, store)

abbrev pub failed : ℕ → ℕ → ℕ → Row → Row
failed count threshold now row = record row {
  current_count = integer count;
  state = if leb threshold count then opened else closed;
  next_action = if leb threshold count then stop else continue;
  probe_claimed = false;
  updated_at = now;
}

unfoldable pub fail_row : Surroundings → Text → ℕ → Store × Row → Cell → Ending
fail_row env fingerprint threshold (store, row) foreign = rollback store_unavailable
fail_row env fingerprint threshold (store, row) (integer c) =
    commit_read (assign fingerprint (failed (c + 1) threshold env.now row) store)

unfoldable pub failure_body : Surroundings → Text → ℕ → Store → Ending
unfolding require_row fail_row
failure_body env fingerprint threshold store =
    ends (require_row env fingerprint threshold store)
      (λ found. fail_row env fingerprint threshold found found.1.current_count)

unfoldable pub record_failure : Surroundings → Text → ℕ → Store → Outcome
unfolding transact failure_body
record_failure env fingerprint threshold store =
    if is_valid fingerprint threshold
    then transact env fingerprint (failure_body env fingerprint threshold) store
    else (err value_error, store)

abbrev pub succeeded : ℕ → Row → Row
succeeded now row = record row {
  current_count = integer 0;
  state = closed;
  next_action = continue;
  probe_claimed = false;
  updated_at = now;
}

-- A late success leaves an open breaker open.
unfoldable pub succeed_row : Surroundings → Text → Store → Row → State → Ending
succeed_row env fingerprint store row opened = commit_row store row
succeed_row env fingerprint store row _ =
    commit_read (assign fingerprint (succeeded env.now row) store)

abbrev pub on_row : Text → BreakerError → (Row → Ending) → Store → Ending
on_row fingerprint e f store = elim (lookup fingerprint store) [
  | none ↦ rollback e
  | some row ↦ f row
]

unfoldable pub success_body : Surroundings → Text → Store → Ending
unfolding succeed_row
success_body env fingerprint store =
    on_row fingerprint unknown (λ row. succeed_row env fingerprint store row row.state) store

unfoldable pub record_success : Surroundings → Text → Store → Outcome
unfolding transact success_body
record_success env fingerprint store =
    if is_blank fingerprint
    then (err value_error, store)
    else transact env fingerprint (success_body env fingerprint) store

abbrev pub probing : ℕ → Row → Row
probing now row = record row {
  state = half_open;
  next_action = retry_probe;
  probe_claimed = false;
  updated_at = now;
}

unfoldable pub probe_row : Surroundings → Text → Store → Row → State → Ending
probe_row env fingerprint store row opened =
    commit_read (assign fingerprint (probing env.now row) store)
probe_row env fingerprint store row _ = rollback not_open

unfoldable pub probe_body : Surroundings → Text → Store → Ending
unfolding probe_row
probe_body env fingerprint store =
    on_row fingerprint unknown (λ row. probe_row env fingerprint store row row.state) store

unfoldable pub start_probe : Surroundings → Text → Store → Outcome
unfolding transact probe_body
start_probe env fingerprint store =
    if is_blank fingerprint
    then (err value_error, store)
    else transact env fingerprint (probe_body env fingerprint) store
