-- ===== src/RuntimeLimits/Admission.antt =====
-- What an admitted call of `acquire` has checked and leaves behind.
use hlinor_agent_registry.Prelude.{
  ℕ, suc, ◌+◌, ◌*◌, ◌≤◌, ◌≡◌, refl, inl, inr, true, false, not, Option, none, some, List, ◌∷◌,
  arith, any, All, All-imply, In, ◌↔◌, ◌≢◌, ◌<◌, leb, Text, text_eq, text_eq_refl, million, Result,
  ok, err, guard, >>=-eq-ok, guard-eq-ok, ok-injective, Bool-cases, sym, ap, subst,
}
use hlinor_agent_registry.Filtering.{keep-In_iff, any-none}
use hlinor_agent_registry.RuntimeLimits.{
  LimitError, concurrency_limit_exceeded, rate_limit_exceeded, store_unavailable, Lease, RateEvent,
  Switch, Store, LimitSnapshot, Surroundings, Request, Limits, validate, live_leases, is_recent,
  recent_events, leases_in, events_in, reached, rate_limit_of, counted, check_switch, insert_lease,
  insert_event, reserve, settle, acquire,
}

abbrev pub Within : Option ℕ → ℕ → Type 0
Within none n = Unit
Within (some m) n = n ≤ m

abbrev pub IsOff : Option Switch → Type 0
IsOff none = ⊥
IsOff (some s) = s.active ≡ false

-- An event that the window of the call, where it has one, still reaches.
abbrev pub InRateWindow : ℕ → Option (ℕ × ℕ) → RateEvent → Type 0
InRateWindow now none e = Unit
InRateWindow now (some (n, window)) e = now ≤ e.occurred_at + window * million

abbrev pub RateWithin : Text → Option (ℕ × ℕ) → List RateEvent → Type 0
RateWithin scope none events = Unit
RateWithin scope (some (n, window)) events = events_in scope events ≤ n

-- The events after the call: the new one, which comes first, and those of before that are in the window.
abbrev pub IsRecorded : RateEvent → ℕ → Option (ℕ × ℕ) → List RateEvent → List RateEvent → Type 0
IsRecorded event now rate before after =
    (after ≡ event ∷ recent_events now rate before)
    × ((e : RateEvent)
        → In e (recent_events now rate before) ↔ (In e before × InRateWindow now rate e))
    × All (λ (e : RateEvent). e.event_id ≢ event.event_id) (recent_events now rate before)

-- The leases after the call: the new one, which comes first, and those of before that have not expired.
abbrev pub IsLeased : Lease → ℕ → List Lease → List Lease → Type 0
IsLeased lease now before after =
    (after ≡ lease ∷ live_leases now before)
    × ((l : Lease) → In l (live_leases now before) ↔ (In l before × (now < l.expires_at)))
    × All (λ (l : Lease). l.lease_id ≢ lease.lease_id) (live_leases now before)

abbrev pub Admitted : Surroundings → Text → Text → Limits → Store → LimitSnapshot → Store → Type 0
Admitted env scope lease_id limits store s after =
    IsOff store.switch
    × (after.switch ≡ store.switch)
    × Within limits.max_concurrency (leases_in scope after.leases)
    × RateWithin scope limits.rate after.events
    × (s.active_leases ≡ leases_in scope after.leases)
    × IsLeased
        (record { lease_id = lease_id; scope = scope; expires_at = env.now + limits.ttl * million })
        env.now store.leases after.leases
    × IsRecorded (record { event_id = env.event_id; scope = scope; occurred_at = env.now }) env.now
        limits.rate store.events after.events

switch-IsOff : (s : Option Switch) (u : Unit {0}) → check_switch s ≡ ok u → IsOff s
unfolding check_switch
switch-IsOff none u h = cc
switch-IsOff (some s) u h = elim (Bool-cases s.active) [
  | inl a ↦ let k = rw (a, check_switch) at h in cc
  | inr a ↦ a
]

within : (limit : Option ℕ) (n : ℕ) → not (reached limit n) ≡ true → Within limit (suc n)
within none n h = tt
within (some m) n h = ground arith

other_text : (s t : Text) → text_eq s t ≡ false → s ≢ t
other_text s t h same = let bad : text_eq s t ≡ true = rw same (text_eq_refl t) in cc

live_leases-In :
    (now : ℕ) (leases : List Lease) (l : Lease)
    → In l (live_leases now leases) ↔ (In l leases × (now < l.expires_at))
live_leases-In now leases l =
    keep-In_iff (λ (m : Lease). not (leb m.expires_at now)) (λ (m : Lease). now < m.expires_at) l
      leases (ground arith)

recent_events-In :
    (now : ℕ) (rate : Option (ℕ × ℕ)) (events : List RateEvent) (e : RateEvent)
    → In e (recent_events now rate events) ↔ (In e events × InRateWindow now rate e)
recent_events-In now none events e = (λ h. (h, tt), λ h. h.0)
recent_events-In now (some (n, window)) events e =
    keep-In_iff (is_recent now window) (InRateWindow now (some (n, window))) e events (ground arith)

insert_lease-IsLeased :
    (l : Lease) (now : ℕ) (leases after : List Lease)
    → insert_lease l (live_leases now leases) ≡ ok after
    → IsLeased l now leases after
insert_lease-IsLeased l now leases after h =
    let live = live_leases now leases in
    elim (Bool-cases (any (λ (m : Lease). text_eq m.lease_id l.lease_id) live)) [
      | inl there ↦ let k = rw there at h in cc
      | inr free ↦ (
        sym (ok-injective _ after (rw free at h)),
        live_leases-In now leases,
        All-imply _ _ live (λ (m : Lease) k. other_text m.lease_id l.lease_id k)
            (any-none _ live free),
      )
    ]

insert_event-IsRecorded :
    (e : RateEvent) (now : ℕ) (rate : Option (ℕ × ℕ)) (events after : List RateEvent)
    → insert_event e (recent_events now rate events) ≡ ok after
    → IsRecorded e now rate events after
insert_event-IsRecorded e now rate events after h =
    let recent = recent_events now rate events in
    elim (Bool-cases (any (λ (m : RateEvent). text_eq m.event_id e.event_id) recent)) [
      | inl there ↦ let k = rw there at h in cc
      | inr free ↦ (
        sym (ok-injective _ after (rw free at h)),
        recent_events-In now rate events,
        All-imply _ _ recent (λ (m : RateEvent) k. other_text m.event_id e.event_id k)
            (any-none _ recent free),
      )
    ]

within_rate :
    (scope : Text) (rate : Option (ℕ × ℕ)) (e : RateEvent) (events : List RateEvent)
    → e.scope ≡ scope
    → not (reached (rate_limit_of rate) (counted scope rate events)) ≡ true
    → RateWithin scope rate (e ∷ events)
within_rate scope none e events p h = tt
within_rate scope (some (n, window)) e events p h =
    rw (p, text_eq_refl scope) (within (some n) (events_in scope events) h)

settled :
    (store : Store) (m : Result LimitError (LimitSnapshot × Store)) (s : LimitSnapshot)
    (after : Store)
    → settle store m ≡ (ok s, after)
    → m ≡ ok (s, after)
settled store (ok (t, st)) s after h = cc
settled store (err e) s after h =
    let k = ap (λ (p : Result LimitError LimitSnapshot × Store). p.0) h in cc

reserve-Admitted :
    (env : Surroundings) (scope lease_id : Text) (limits : Limits) (store : Store)
    (s : LimitSnapshot) (after : Store)
    → reserve env scope lease_id limits store ≡ ok (s, after)
    → Admitted env scope lease_id limits store s after
unfolding reserve
reserve-Admitted env scope lease_id limits store s after h =
    let now = env.now in
    let live = live_leases now store.leases in
    let recent = recent_events now limits.rate store.events in
    let lease : Lease = record {
      lease_id = lease_id;
      scope = scope;
      expires_at = now + limits.ttl * million;
    } in
    let event : RateEvent = record { event_id = env.event_id; scope = scope; occurred_at = now } in
    let (u, off, h1) = >>=-eq-ok (check_switch store.switch) _ h in
    let (v, room, h2) =
      >>=-eq-ok
        (guard (not (reached limits.max_concurrency (leases_in scope live)))
          concurrency_limit_exceeded)
        _ h1 in
    let (w, rate, h3) =
      >>=-eq-ok
        (guard (not (reached (rate_limit_of limits.rate) (counted scope limits.rate recent)))
          rate_limit_exceeded)
        _ h2 in
    let (leases, e1, h4) = >>=-eq-ok (insert_lease lease live) _ h3 in
    let (events, e2, h5) = >>=-eq-ok (insert_event event recent) _ h4 in
    let leased = insert_lease-IsLeased lease now store.leases leases e1 in
    let recorded = insert_event-IsRecorded event now limits.rate store.events events e2 in
    subst (λ (p : LimitSnapshot × Store). Admitted env scope lease_id limits store p.0 p.1)
      (ok-injective _ _ h5)
      (
        switch-IsOff store.switch u off,
        refl,
        rw (leased.0, text_eq_refl scope)
            (within limits.max_concurrency (leases_in scope live) (guard-eq-ok _ _ room)),
        rw recorded.0 (within_rate scope limits.rate event recent refl (guard-eq-ok _ _ rate)),
        rw (leased.0, text_eq_refl scope) (omega arith),
        leased,
        recorded,
      )

-- A call of `acquire` that returns a snapshot found valid arguments, an answering database and the kill
-- switch off, which stays as it was. Afterwards the scope holds no more leases than its limit, and the
-- snapshot says how many; the leases are the new one, of this identifier and scope and expiring after
-- the time to live, and exactly the unexpired ones of before, none of which has its identifier; with a
-- rate limit the scope has no more events than that; and the events are the new one, of this scope and
-- time, and exactly those of before that lie in the window, or all of them where none is set, none of
-- which has its identifier.
pub acquire-Admitted :
    (env : Surroundings) (request : Request) (store : Store) (s : LimitSnapshot) (after : Store)
    → acquire env request store ≡ (ok s, after)
    → (scope : Text) × (lease_id : Text) × (limits : Limits) × (validate request
        ≡ ok (scope, lease_id, limits))
      × (env.available ≡ true)
      × Admitted env scope lease_id limits store s after
unfolding acquire
acquire-Admitted env request store s after h =
    let e = settled store _ s after h in
    let ((scope, lease_id, limits), valid, h1) = >>=-eq-ok (validate request) _ e in
    let (u, there, h2) = >>=-eq-ok (guard env.available store_unavailable) _ h1 in
    (
      scope,
      lease_id,
      limits,
      valid,
      guard-eq-ok env.available store_unavailable there,
      reserve-Admitted env scope lease_id limits store s after h2,
    )

refused :
    (store : Store) (m : Result LimitError (LimitSnapshot × Store)) (e : LimitError) (after : Store)
    → settle store m ≡ (err e, after)
    → after ≡ store
refused store (ok (t, st)) e after h =
    let k = ap (λ (p : Result LimitError LimitSnapshot × Store). p.0) h in cc
refused store (err x) e after h = sym (ap (λ (p : Result LimitError LimitSnapshot × Store). p.1) h)

pub acquire-refused :
    (env : Surroundings) (request : Request) (store : Store) (e : LimitError) (after : Store)
    → acquire env request store ≡ (err e, after)
    → after ≡ store
unfolding acquire
acquire-refused env request store e after h = refused store _ e after h
