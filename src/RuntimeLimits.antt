-- ===== src/RuntimeLimits.antt =====
-- hlinor_registry/runtime_limits.py: the shared admission store. Its three tables are the fields of a
-- store, each method is one transaction on it, and a transaction that fails leaves the store as it was.
-- Times are millionths of a second; the rounding of the source's float sums is left out.
pub mod Admission
pub mod Leases
mod Tests
use hlinor_agent_registry.Prelude.{
  ℕ, suc, ◌+◌, ◌*◌, Bool, true, false, not, ◌&&◌, ◌||◌, Option, none, some, List, [], ◌∷◌, leb, ltb,
  if◌then◌else◌, length, any, keep, Text, text_eq, strip, is_blank, Value, null, int, str, pos,
  million, Result, ok, err, ◌>>=◌, guard,
}

pub data LimitError : Type 0 where
  input_invalid config_invalid store_invalid store_unavailable : LimitError
  kill_switch_active concurrency_limit_exceeded rate_limit_exceeded lease_conflict : LimitError
  type_error : LimitError

pub record Lease : Type 0 where
  pub lease_id : Text
  pub scope : Text
  pub expires_at : ℕ

pub record RateEvent : Type 0 where
  pub event_id : Text
  pub scope : Text
  pub occurred_at : ℕ

-- The row of the kill switch, when it is there.
pub record Switch : Type 0 where
  pub active : Bool
  pub reason : Text
  pub updated_at : ℕ

pub record Store : Type 0 where
  pub switch : Option Switch
  pub leases : List Lease
  pub events : List RateEvent

pub record LimitSnapshot : Type 0 where
  pub scope : Text
  pub lease_id : Text
  pub active_leases : ℕ
  pub rate_events : ℕ

-- The clock, the UUID drawn for the event, and whether the database answers.
pub record Surroundings : Type 0 where
  pub now : ℕ
  pub event_id : Text
  pub available : Bool

unfoldable pub validate_text : Value → Result LimitError Text
validate_text (str s) = if is_blank s || not (text_eq s (strip s)) then err input_invalid else ok s
validate_text _ = err input_invalid

unfoldable pub validate_positive : Value → Result LimitError (Option ℕ)
validate_positive null = ok none
validate_positive (int (pos (suc n))) = ok (some (suc n))
validate_positive _ = err config_invalid

-- The limits of a call: `rate` is `rate_limit` with `rate_window_seconds`.
pub record Limits : Type 0 where
  pub max_concurrency : Option ℕ
  pub rate : Option (ℕ × ℕ)
  pub ttl : ℕ

unfoldable pub combine : Option ℕ → Option ℕ → Option ℕ → Option ℕ → Result LimitError Limits
combine m (some n) none t = err config_invalid
combine m none (some w) t = err config_invalid
combine none none none t = err config_invalid
combine m r w none = err type_error
combine m none none (some t) = ok (record { max_concurrency = m; rate = none; ttl = t })
combine m (some n) (some w) (some t) =
    ok (record { max_concurrency = m; rate = some (n, w); ttl = t })

-- The arguments of `acquire`.
pub record Request : Type 0 where
  pub scope : Value
  pub lease_id : Value
  pub max_concurrency : Value
  pub rate_limit : Value
  pub rate_window_seconds : Value
  pub lease_ttl_seconds : Value

unfoldable pub validate : Request → Result LimitError (Text × Text × Limits)
unfolding validate_text validate_positive combine
validate r = do
  scope ← validate_text r.scope
  lease_id ← validate_text r.lease_id
  m ← validate_positive r.max_concurrency
  n ← validate_positive r.rate_limit
  w ← validate_positive r.rate_window_seconds
  t ← validate_positive r.lease_ttl_seconds
  limits ← combine m n w t
  ok (scope, lease_id, limits)

-- `DELETE FROM runtime_leases WHERE expires_at <= ?`
abbrev pub live_leases : ℕ → List Lease → List Lease
live_leases now leases = keep (λ (l : Lease). not (leb l.expires_at now)) leases

-- `DELETE FROM runtime_rate_events WHERE occurred_at < ?`, in every scope; `now - window` is compared
-- by its sum, since it may lie before the epoch
abbrev pub is_recent : ℕ → ℕ → RateEvent → Bool
is_recent now window e = not (ltb (e.occurred_at + window * million) now)

abbrev pub recent_events : ℕ → Option (ℕ × ℕ) → List RateEvent → List RateEvent
recent_events now none events = events
recent_events now (some (n, window)) events = keep (is_recent now window) events

abbrev pub leases_in : Text → List Lease → ℕ
leases_in scope leases = length (keep (λ (l : Lease). text_eq l.scope scope) leases)

abbrev pub events_in : Text → List RateEvent → ℕ
events_in scope events = length (keep (λ (e : RateEvent). text_eq e.scope scope) events)

abbrev pub reached : Option ℕ → ℕ → Bool
reached none n = false
reached (some m) n = leb m n

abbrev pub rate_limit_of : Option (ℕ × ℕ) → Option ℕ
rate_limit_of none = none
rate_limit_of (some (n, w)) = some n

-- `rate_events`, which stays 0 when no window is set
abbrev pub counted : Text → Option (ℕ × ℕ) → List RateEvent → ℕ
counted scope none events = 0
counted scope (some r) events = events_in scope events

unfoldable pub check_switch : Option Switch → Result LimitError Unit
check_switch none = err store_invalid
check_switch (some s) = if s.active then err kill_switch_active else ok tt

abbrev pub insert_lease : Lease → List Lease → Result LimitError (List Lease)
insert_lease l leases =
    if any (λ (m : Lease). text_eq m.lease_id l.lease_id) leases
    then err lease_conflict
    else ok (l ∷ leases)

abbrev pub insert_event : RateEvent → List RateEvent → Result LimitError (List RateEvent)
insert_event e events =
    if any (λ (f : RateEvent). text_eq f.event_id e.event_id) events
    then err store_unavailable
    else ok (e ∷ events)

-- The transaction of `acquire`.
unfoldable pub reserve :
    Surroundings → Text → Text → Limits → Store → Result LimitError (LimitSnapshot × Store)
unfolding check_switch
reserve env scope lease_id limits store =
    let live = live_leases env.now store.leases in
    let recent = recent_events env.now limits.rate store.events in
    do
      u ← check_switch store.switch
      v ←
          guard (not (reached limits.max_concurrency (leases_in scope live)))
            concurrency_limit_exceeded
      w ←
          guard (not (reached (rate_limit_of limits.rate) (counted scope limits.rate recent)))
            rate_limit_exceeded
      leases ←
          insert_lease
            (record {
              lease_id = lease_id;
              scope = scope;
              expires_at = env.now + limits.ttl * million;
            })
            live
      events ←
          insert_event (record { event_id = env.event_id; scope = scope; occurred_at = env.now })
            recent
      ok (
        record {
          scope = scope;
          lease_id = lease_id;
          active_leases = leases_in scope live + 1;
          rate_events = counted scope limits.rate recent + 1;
        },
        record { switch = store.switch; leases = leases; events = events },
      )

abbrev pub settle :
    Store → Result LimitError (LimitSnapshot × Store) → Result LimitError LimitSnapshot × Store
settle store (ok (s, after)) = (ok s, after)
settle store (err e) = (err e, store)

unfoldable pub acquire : Surroundings → Request → Store → Result LimitError LimitSnapshot × Store
unfolding validate reserve
acquire env request store = settle store (do
  valid ← validate request
  u ← guard env.available store_unavailable
  reserve env valid.0 valid.1 valid.2 store)

unfoldable pub release : Surroundings → Value → Store → Result LimitError Unit × Store
unfolding validate_text
release env lease_id store = elim (validate_text lease_id) [
  | err e ↦ (err e, store)
  | ok l ↦
      if env.available
      then (
        ok tt,
        record store { leases = keep (λ (m : Lease). not (text_eq m.lease_id l)) store.leases },
      )
      else (err store_unavailable, store)
]

abbrev pub switched : Bool → Text → ℕ → Option Switch → Option Switch
switched active reason now none = none
switched active reason now (some s) =
    some (record { active = active; reason = reason; updated_at = now })

unfoldable pub set_kill_switch : Surroundings → Bool → Text → Store → Result LimitError Unit × Store
set_kill_switch env active reason store =
    if env.available
    then (ok tt, record store { switch = switched active reason env.now store.switch })
    else (err store_unavailable, store)

unfoldable pub activate_kill_switch : Surroundings → Value → Store → Result LimitError Unit × Store
unfolding validate_text set_kill_switch
activate_kill_switch env reason store = elim (validate_text reason) [
  | err e ↦ (err e, store)
  | ok r ↦ set_kill_switch env true r store
]

unfoldable pub deactivate_kill_switch : Surroundings → Store → Result LimitError Unit × Store
unfolding set_kill_switch
deactivate_kill_switch env store = set_kill_switch env false [] store

unfoldable pub is_kill_switch_active : Surroundings → Store → Result LimitError Bool
is_kill_switch_active env store =
    if env.available
    then elim store.switch [ none ↦ err store_invalid | some s ↦ ok s.active ]
    else err store_unavailable
