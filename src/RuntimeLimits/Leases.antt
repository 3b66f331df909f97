-- ===== src/RuntimeLimits/Leases.antt =====
-- The store under any sequence of calls: a lease identifier is in use at most once, and an active kill
-- switch admits nothing until it is taken back.
use hlinor_agent_registry.Prelude.{
  ◌≢◌, text_eq→eq, All-imply, ℕ, ◌+◌, ◌*◌, million, ◌≡◌, refl, inl, inr, Bool, true, false, not,
  Option, none, some, List, [], ◌∷◌, leb, keep, All, Text, text_eq, Value, Result, ok, err,
  Bool-cases, Result-cases,
}
use hlinor_agent_registry.RuntimeLimits.{
  LimitError, Lease, Switch, Store, LimitSnapshot, Surroundings, Request, validate_text,
  live_leases, acquire, release, set_kill_switch, activate_kill_switch, deactivate_kill_switch,
  switched,
}
use hlinor_agent_registry.RuntimeLimits.Admission.{acquire-Admitted, acquire-refused, IsOff}

-- One call on the store; `is_kill_switch_active` only reads it.
pub data Call : Type 0 where
  acquires : Request → Call
  releases activates : Value → Call
  deactivates : Call

unfoldable pub step : Call → Surroundings → Store → Store
step (acquires request) env store = (acquire env request store).1
step (releases lease_id) env store = (release env lease_id store).1
step (activates reason) env store = (activate_kill_switch env reason store).1
step deactivates env store = (deactivate_kill_switch env store).1

unfoldable pub run : List (Call × Surroundings) → Store → Store
unfolding step
run [] store = store
run ((call, env) ∷ calls) store = run calls (step call env store)

abbrev pub IsDifferent : Lease → Lease → Type 0
IsDifferent l m = text_eq m.lease_id l.lease_id ≡ false

abbrev pub IsUnique : List Lease → Type 0
IsUnique [] = Unit
IsUnique (l ∷ leases) = All (IsDifferent l) leases × IsUnique leases

All-keep :
    {A : Type 0} (P : A → Type 0) (test : A → Bool) (xs : List A) → All P xs → All P (keep test xs)
All-keep P test [] h = tt
All-keep P test (x ∷ xs) h = elim (Bool-cases (test x)) [
  | inl t ↦ rw t (h.0, All-keep P test xs h.1)
  | inr f ↦ rw f (All-keep P test xs h.1)
]

IsUnique-keep :
    (test : Lease → Bool) (leases : List Lease) → IsUnique leases → IsUnique (keep test leases)
IsUnique-keep test [] h = tt
IsUnique-keep test (l ∷ leases) h = elim (Bool-cases (test l)) [
  | inl t ↦ rw t (All-keep (IsDifferent l) test leases h.0, IsUnique-keep test leases h.1)
  | inr f ↦ rw f (IsUnique-keep test leases h.1)
]

apart-IsDifferent : (l m : Lease) → m.lease_id ≢ l.lease_id → IsDifferent l m
apart-IsDifferent l m apart = elim (Bool-cases (text_eq m.lease_id l.lease_id)) [
  | inl t ↦ absurd (apart (text_eq→eq m.lease_id l.lease_id t))
  | inr f ↦ f
]

acquire-IsUnique :
    (env : Surroundings) (request : Request) (store : Store) (r : Result LimitError LimitSnapshot)
    (after : Store)
    → acquire env request store ≡ (r, after)
    → IsUnique store.leases
    → IsUnique after.leases
acquire-IsUnique env request store (err e) after h k =
    rw (acquire-refused env request store e after h) k
acquire-IsUnique env request store (ok s) after h k =
    let (scope, lease_id, limits, valid, there, (off, same, room, rate, count, leased, recorded)) =
      acquire-Admitted env request store s after h in
    let lease : Lease = record {
      lease_id = lease_id;
      scope = scope;
      expires_at = env.now + limits.ttl * million;
    } in
    rw leased.0 (
      All-imply _ _ (live_leases env.now store.leases) (apart-IsDifferent lease) leased.2,
      IsUnique-keep (λ (l : Lease). not (leb l.expires_at env.now)) store.leases k,
    )

release-IsUnique :
    (env : Surroundings) (lease_id : Value) (store : Store)
    → IsUnique store.leases
    → IsUnique (release env lease_id store).1.leases
unfolding release
release-IsUnique env lease_id store k = elim (Result-cases (validate_text lease_id)) [
  | inl (l, e) ↦ elim (Bool-cases env.available) [
    | inl t ↦ rw (e, t, release) (IsUnique-keep _ store.leases k)
    | inr f ↦ rw (e, f, release) k
  ]
  | inr (x, e) ↦ rw (e, release) k
]

set_kill_switch-leases :
    (env : Surroundings) (active : Bool) (reason : Text) (store : Store)
    → (set_kill_switch env active reason store).1.leases ≡ store.leases
unfolding set_kill_switch
set_kill_switch-leases env active reason store = elim (Bool-cases env.available) [
  | inl t ↦ rw t refl
  | inr f ↦ rw f refl
]

activate_kill_switch-leases :
    (env : Surroundings) (reason : Value) (store : Store)
    → (activate_kill_switch env reason store).1.leases ≡ store.leases
unfolding activate_kill_switch
activate_kill_switch-leases env reason store = elim (Result-cases (validate_text reason)) [
  | inl (r, e) ↦ rw (e, activate_kill_switch) (set_kill_switch-leases env true r store)
  | inr (x, e) ↦ rw (e, activate_kill_switch) refl
]

step-IsUnique :
    (call : Call) (env : Surroundings) (store : Store)
    → IsUnique store.leases
    → IsUnique (step call env store).leases
unfolding step deactivate_kill_switch
step-IsUnique (acquires request) env store k =
    acquire-IsUnique env request store (acquire env request store).0 (acquire env request store).1
      refl k
step-IsUnique (releases lease_id) env store k = release-IsUnique env lease_id store k
step-IsUnique (activates reason) env store k = rw (activate_kill_switch-leases env reason store) k
step-IsUnique deactivates env store k = rw (set_kill_switch-leases env false [] store) k

-- Whatever the calls and their order, and whatever fails around them, a store in which no lease
-- identifier is in use twice stays one.
pub run-IsUnique :
    (calls : List (Call × Surroundings)) (store : Store)
    → IsUnique store.leases
    → IsUnique (run calls store).leases
unfolding run
run-IsUnique [] store k = k
run-IsUnique ((call, env) ∷ calls) store k =
    run-IsUnique calls (step call env store) (step-IsUnique call env store k)

-- Calls that do not take the kill switch back.
abbrev pub KeepsSwitch : Call → Type 0
KeepsSwitch (acquires request) = Unit
KeepsSwitch (releases lease_id) = Unit
KeepsSwitch (activates reason) = Unit
KeepsSwitch deactivates = ⊥

abbrev pub IsOn : Option Switch → Type 0
IsOn none = ⊥
IsOn (some s) = s.active ≡ true

on_off : (s : Option Switch) → IsOn s → IsOff s → ⊥
on_off none h k = h
on_off (some s) h k = let e = rw h at k in cc

refused_when_on :
    (env : Surroundings) (request : Request) (store : Store) (r : Result LimitError LimitSnapshot)
    (after : Store)
    → acquire env request store ≡ (r, after)
    → IsOn store.switch
    → ((e : LimitError) × (r ≡ err e)) × (after ≡ store)
refused_when_on env request store (err e) after h k =
    ((e, refl), acquire-refused env request store e after h)
refused_when_on env request store (ok s) after h k =
    let (scope, lease_id, limits, valid, there, (off, same, room, rate, count, leased, recorded)) =
      acquire-Admitted env request store s after h in
    absurd (on_off store.switch k off)

switched-IsOn :
    (reason : Text) (now : ℕ) (s : Option Switch) → IsOn s → IsOn (switched true reason now s)
switched-IsOn reason now none h = h
switched-IsOn reason now (some s) h = refl

activate-IsOn :
    (env : Surroundings) (reason : Value) (store : Store)
    → IsOn store.switch
    → IsOn (activate_kill_switch env reason store).1.switch
unfolding activate_kill_switch set_kill_switch
activate-IsOn env reason store h = elim (Result-cases (validate_text reason)) [
  | inl (r, e) ↦ elim (Bool-cases env.available) [
    | inl t ↦
        rw (e, t, activate_kill_switch, set_kill_switch) (switched-IsOn r env.now store.switch h)
    | inr f ↦ rw (e, f, activate_kill_switch, set_kill_switch) h
  ]
  | inr (x, e) ↦ rw (e, activate_kill_switch) h
]

release-switch :
    (env : Surroundings) (lease_id : Value) (store : Store)
    → (release env lease_id store).1.switch ≡ store.switch
unfolding release
release-switch env lease_id store = elim (Result-cases (validate_text lease_id)) [
  | inl (l, e) ↦ elim (Bool-cases env.available) [
    | inl t ↦ rw (e, t, release) refl
    | inr f ↦ rw (e, f, release) refl
  ]
  | inr (x, e) ↦ rw (e, release) refl
]

step-IsOn :
    (call : Call) (env : Surroundings) (store : Store)
    → KeepsSwitch call
    → IsOn store.switch
    → IsOn (step call env store).switch
unfolding step
step-IsOn (acquires request) env store k h =
    rw
      (refused_when_on env request store (acquire env request store).0 (acquire env request store).1
        refl h).1
      h
step-IsOn (releases lease_id) env store k h = rw (release-switch env lease_id store) h
step-IsOn (activates reason) env store k h = activate-IsOn env reason store h
step-IsOn deactivates env store k h = absurd k

run-IsOn :
    (calls : List (Call × Surroundings)) (store : Store)
    → All (λ (c : Call × Surroundings). KeepsSwitch c.0) calls
    → IsOn store.switch
    → IsOn (run calls store).switch
unfolding run
run-IsOn [] store k h = h
run-IsOn ((call, env) ∷ calls) store k h =
    run-IsOn calls (step call env store) k.1 (step-IsOn call env store k.0 h)

-- Once the kill switch is on, and after any calls that do not deactivate it, every `acquire` raises an
-- error and leaves the store as it is.
pub killed-refused :
    (calls : List (Call × Surroundings)) (store : Store) (env : Surroundings) (request : Request)
    → All (λ (c : Call × Surroundings). KeepsSwitch c.0) calls
    → IsOn store.switch
    → ((e : LimitError) × ((acquire env request (run calls store)).0 ≡ err e))
      × ((acquire env request (run calls store)).1 ≡ run calls store)
killed-refused calls store env request k h =
    refused_when_on env request (run calls store) _ _ refl (run-IsOn calls store k h)
