-- ===== src/RuntimeLimits/Tests.antt =====
-- Admissions on a concrete store.
use hlinor_agent_registry.Prelude.{
  ℕ, ◌≡◌, refl, Bool, true, false, Option, none, some, List, [], ◌∷◌, All, Text, codes, Value, null,
  int, str, pos, Result, ok, err,
}
use hlinor_agent_registry.RuntimeLimits.{
  LimitError, Store, LimitSnapshot, Surroundings, Request, Limits, validate, acquire,
}
use hlinor_agent_registry.RuntimeLimits.Admission.{Admitted, acquire-Admitted}
use hlinor_agent_registry.RuntimeLimits.Leases.{
  Call, acquires, releases, run, IsUnique, run-IsUnique, killed-refused,
}

abbrev fresh : Bool → Store
fresh active = record {
  switch = some (record { active = active; reason = []; updated_at = 0 });
  leases = [];
  events = [];
}

abbrev at_five : Surroundings
at_five = record { now = 5; event_id = codes "e"; available = true }

abbrev one_lease : Request
one_lease = record {
  scope = str (codes "s");
  lease_id = str (codes "l");
  max_concurrency = int (pos 1);
  rate_limit = int (pos 2);
  rate_window_seconds = int (pos 60);
  lease_ttl_seconds = int (pos 10);
}

abbrev calls_of : List (Call × Surroundings)
calls_of =
    (acquires one_lease, at_five)
    ∷ (releases (str (codes "l")), at_five)
    ∷ (acquires one_lease, at_five)
    ∷ []

abbrev first_snapshot : LimitSnapshot
first_snapshot = record {
  scope = codes "s";
  lease_id = codes "l";
  active_leases = 1;
  rate_events = 1;
}

abbrev after_first : Store
after_first = (acquire at_five one_lease (fresh false)).1

acquire-Admitted_example :
    (scope : Text) × (lease_id : Text) × (limits : Limits) × (validate one_lease
      ≡ ok (scope, lease_id, limits))
    × (at_five.available ≡ true)
    × Admitted at_five scope lease_id limits (fresh false) first_snapshot after_first
unfolding acquire hlinor_agent_registry.Prelude.is_blank hlinor_agent_registry.Prelude.text_eq
acquire-Admitted_example =
    acquire-Admitted at_five one_lease (fresh false) first_snapshot after_first refl

run-IsUnique_example : IsUnique (run calls_of (fresh false)).leases
run-IsUnique_example = run-IsUnique calls_of (fresh false) tt

killed-refused_example :
    ((e : LimitError) × ((acquire at_five one_lease (run calls_of (fresh true))).0 ≡ err e))
    × ((acquire at_five one_lease (run calls_of (fresh true))).1 ≡ run calls_of (fresh true))
killed-refused_example =
    killed-refused calls_of (fresh true) at_five one_lease (tt, (tt, (tt, tt))) refl
