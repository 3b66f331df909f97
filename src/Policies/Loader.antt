-- ===== src/Policies/Loader.antt =====
-- What `load_policy_rules` makes of the compiled entries: nothing invented, nothing dropped.
use hlinor_agent_registry.Prelude.{
  ◌≡◌, ◌≢◌, refl, sym, ap, ◌∙◌, ◌⊎◌, inl, inr, Bool, true, false, not, Option, none, some, List, [],
  ◌∷◌, All, In, is_empty, Text, codes, text_eq, text_eq_refl, is_blank, Value, null, arr, obj,
  Items, Fields, entries, get_value, lookup, assign-All, lookup-assign, Result, ok, ◌>>◌, guard,
  >>=-eq-ok, ok-injective, Bool-cases, Option-cases,
}
use hlinor_agent_registry.Policies.Rule.{PolicyKind, PolicyRule}
use hlinor_agent_registry.Policies.Definition.{
  kind_of, spec_section, section_of, policy_definition_errors,
}
use hlinor_agent_registry.Policies.Loading.{
  LoadError, as_mapping, as_list, rule_of, typed_rule, by_kind, load_entry, add_rule, load_entries,
  load_policy_rules,
}

-- A rule is the reading of one policy configuration that passes the definition check.
abbrev pub ReadFrom : Text → Fields → PolicyRule → Type 0
ReadFrom policy_id config rule =
    (policy_definition_errors config ≡ [])
    × (rule.policy_id ≡ policy_id)
    × (kind_of (get_value (codes "kind") config) ≡ some rule.kind)
    × (get_value (codes "trigger") config ≡ arr rule.trigger)
    × (rule.spec ≡ section_of (get_value (spec_section rule.kind) config))

-- It stands under its policy's id among the compiled entries.
abbrev pub Compiled : List (Text × Value) → Text × PolicyRule → Type 0
Compiled policies (policy_id, rule) =
    (entry : Fields) × (config : Fields) × In (policy_id, obj entry) policies
    × (get_value (codes "config") entry ≡ obj config)
    × ReadFrom policy_id config rule

empty_list : {A : Type 0} (xs : List A) → is_empty xs ≡ true → xs ≡ []
empty_list [] h = refl
empty_list (x ∷ xs) h = cc

as_list-ok : (v : Value) (entries : Items) → as_list v ≡ ok entries → v ≡ arr entries
unfolding as_list
as_list-ok (arr vs) entries h = cc
as_list-ok v entries h = cc

as_mapping-ok :
    (e : LoadError) (v : Value) (fields : Fields) → as_mapping e v ≡ ok fields → v ≡ obj fields
unfolding as_mapping
as_mapping-ok e (obj fs) fields h = cc
as_mapping-ok e v fields h = cc

guard-ok :
    (t : Bool) (e : LoadError) {B : Type 0} (k : Result LoadError B) {b : B}
    → (guard t e >> k) ≡ ok b
    → (t ≡ true) × (k ≡ ok b)
guard-ok true e k h = (refl, h)
guard-ok false e k h = cc

rule_of→ :
    (policy_id : Text) (config : Fields) (kind : PolicyKind) (rule : PolicyRule)
    → rule_of policy_id config kind ≡ ok rule
    → (rule.policy_id ≡ policy_id)
      × (rule.kind ≡ kind)
      × (get_value (codes "trigger") config ≡ arr rule.trigger)
      × (rule.spec ≡ section_of (get_value (spec_section kind) config))
unfolding rule_of
rule_of→ policy_id config kind rule h =
    let (trigger, e, k) = >>=-eq-ok (as_list (get_value (codes "trigger") config)) _ h in
    let same = sym (ok-injective _ rule k) in
    (
      ap (λ (r : PolicyRule). r.policy_id) same,
      ap (λ (r : PolicyRule). r.kind) same,
      as_list-ok _ trigger e ∙ ap (λ (r : PolicyRule). arr r.trigger) (sym same),
      ap (λ (r : PolicyRule). r.spec) same,
    )

typed_rule→ :
    (policy_id : Text) (config : Fields) (rule : PolicyRule)
    → typed_rule policy_id config ≡ ok rule
    → ReadFrom policy_id config rule
unfolding typed_rule
typed_rule→ policy_id config rule h =
    let (clean, k) = guard-ok (is_empty (policy_definition_errors config)) _ _ h in
    elim (Option-cases (kind_of (get_value (codes "kind") config))) [
      | inl e ↦ cc (rw e at k)
      | inr (kind, e) ↦
          let (named, kinded, triggered, specified) =
            rule_of→ policy_id config kind rule (rw e at k) in
          (
            empty_list (policy_definition_errors config) clean,
            named,
            rw kinded e,
            triggered,
            rw kinded specified,
          )
    ]

-- The two results of one entry: prose with no kind, or the rule that is read from it.
abbrev Loaded : Text → Value → Option PolicyRule → Type 0
Loaded policy_id v none =
    (entry : Fields) × (config : Fields) × (v ≡ obj entry)
    × (get_value (codes "config") entry ≡ obj config)
    × (get_value (codes "kind") config ≡ null)
Loaded policy_id v (some rule) =
    (entry : Fields) × (config : Fields) × (v ≡ obj entry)
    × (get_value (codes "config") entry ≡ obj config)
    × ReadFrom policy_id config rule

by_kind→ :
    (policy_id : Text) (config : Fields) (v : Value) (r : Option PolicyRule)
    → by_kind policy_id config v ≡ ok r
    → ((v ≡ null) × (r ≡ none))
      ⊎ ((rule : PolicyRule) × (r ≡ some rule) × (typed_rule policy_id config ≡ ok rule))
unfolding by_kind
by_kind→ policy_id config null r h = inl (refl, sym (ok-injective none r h))
by_kind→ policy_id config v r h =
    let (rule, e, k) = >>=-eq-ok (typed_rule policy_id config) _ h in
    inr (rule, sym (ok-injective _ r k), e)

load_entry→ :
    (policy_id : Text) (v : Value) (r : Option PolicyRule)
    → load_entry policy_id v ≡ ok r
    → Loaded policy_id v r
unfolding load_entry
load_entry→ policy_id v r h =
    let (_, h1) = guard-ok (not (is_blank policy_id)) _ _ h in
    let (entry, e, h2) = >>=-eq-ok (as_mapping _ v) _ h1 in
    let (config, f, h3) = >>=-eq-ok (as_mapping _ (get_value (codes "config") entry)) _ h2 in
    let ve = as_mapping-ok _ v entry e in
    let ce = as_mapping-ok _ (get_value (codes "config") entry) config f in
    elim (by_kind→ policy_id config (get_value (codes "kind") config) r h3) [
      | inl (k, n) ↦ rw n (entry, config, ve, ce, k)
      | inr (rule, s, t) ↦ rw s (entry, config, ve, ce, typed_rule→ policy_id config rule t)
    ]

add_rule-Compiled :
    (policies : List (Text × Value)) (policy_id : Text) (v : Value) (r : Option PolicyRule)
    (rules : List (Text × PolicyRule))
    → In (policy_id, v) policies
    → Loaded policy_id v r
    → All (Compiled policies) rules
    → All (Compiled policies) (add_rule policy_id r rules)
add_rule-Compiled policies policy_id v none rules i l h = h
add_rule-Compiled policies policy_id v (some rule) rules i (entry, config, e, c, made) h =
    assign-All (Compiled policies) policy_id rule rules (entry, config, rw e at i, c, made) h

load_entries-Compiled :
    (policies rest : List (Text × Value)) (rules loaded : List (Text × PolicyRule))
    → ((entry : Text × Value) → In entry rest → In entry policies)
    → All (Compiled policies) rules
    → load_entries rest rules ≡ ok loaded
    → All (Compiled policies) loaded
unfolding load_entries
load_entries-Compiled policies [] rules loaded sub h e = rw (← ok-injective rules loaded e) h
load_entries-Compiled policies ((policy_id, v) ∷ rest) rules loaded sub h e =
    let (r, here, later) = >>=-eq-ok (load_entry policy_id v) _ e in
    load_entries-Compiled policies rest (add_rule policy_id r rules) loaded (λ x i. sub x (inr i))
      (add_rule-Compiled policies policy_id v r rules (sub (policy_id, v) (inl refl))
        (load_entry→ policy_id v r here) h)
      later

-- Every rule that the loader returns is the reading of a compiled policy of that id whose definition
-- has no errors: its kind, its whole trigger list and its section.
pub load_policy_rules-Compiled :
    (policies : Fields) (rules : List (Text × PolicyRule))
    → load_policy_rules (obj policies) ≡ ok rules
    → All (Compiled (entries policies)) rules
unfolding load_policy_rules
load_policy_rules-Compiled policies rules h =
    load_entries-Compiled (entries policies) (entries policies) [] rules (λ x i. i) tt h

-- The rules hold one under this id.
abbrev pub HasRule : Text → List (Text × PolicyRule) → Type 0
HasRule policy_id rules = (rule : PolicyRule) × (lookup policy_id rules ≡ some rule)

HasRule-add :
    (k j : Text) (r : Option PolicyRule) (rules : List (Text × PolicyRule))
    → HasRule k rules
    → HasRule k (add_rule j r rules)
HasRule-add k j none rules h = h
HasRule-add k j (some rule) rules (old, e) = elim (Bool-cases (text_eq j k)) [
  | inl t ↦ (rule, rw (lookup-assign j k rule rules, t))
  | inr t ↦ (old, rw (lookup-assign j k rule rules, t) e)
]

HasRule-load :
    (k : Text) (rest : List (Text × Value)) (rules loaded : List (Text × PolicyRule))
    → HasRule k rules
    → load_entries rest rules ≡ ok loaded
    → HasRule k loaded
unfolding load_entries
HasRule-load k [] rules loaded h e = rw (← ok-injective rules loaded e) h
HasRule-load k ((j, v) ∷ rest) rules loaded h e =
    let (r, here, later) = >>=-eq-ok (load_entry j v) _ e in
    HasRule-load k rest (add_rule j r rules) loaded (HasRule-add k j r rules h) later

-- The entry declares a policy with a kind.
abbrev pub IsTyped : Value → Type 0
IsTyped v =
    (entry config : Fields)
    → v ≡ obj entry
    → get_value (codes "config") entry ≡ obj config
    → get_value (codes "kind") config ≢ null

Loaded-HasRule :
    (k : Text) (v : Value) (r : Option PolicyRule) (rules : List (Text × PolicyRule))
    → IsTyped v
    → Loaded k v r
    → HasRule k (add_rule k r rules)
Loaded-HasRule k v none rules t (entry, config, e, c, prose) = absurd (t entry config e c prose)
Loaded-HasRule k v (some rule) rules t l = (rule, rw (lookup-assign k k rule rules, text_eq_refl k))

load_entries-HasRule :
    (k : Text) (v : Value) (rest : List (Text × Value)) (rules loaded : List (Text × PolicyRule))
    → IsTyped v
    → In (k, v) rest
    → load_entries rest rules ≡ ok loaded
    → HasRule k loaded
unfolding load_entries
load_entries-HasRule k v [] rules loaded t i e = absurd i
load_entries-HasRule k v ((j, w) ∷ rest) rules loaded t (inl s) e =
    let (r, here, later) = >>=-eq-ok (load_entry j w) _ e in
    let same = ap (λ (x : Text × Value). x.0) s in
    let value = ap (λ (x : Text × Value). x.1) s in
    HasRule-load k rest (add_rule j r rules) loaded
      (rw same (Loaded-HasRule k v r rules t (rw (same, value) at (load_entry→ j w r here)))) later
load_entries-HasRule k v ((j, w) ∷ rest) rules loaded t (inr i) e =
    let (r, here, later) = >>=-eq-ok (load_entry j w) _ e in
    load_entries-HasRule k v rest (add_rule j r rules) loaded t i later

-- The loader drops no control: where it returns, every compiled entry with a kind has a rule under
-- its id.
pub load_policy_rules-HasRule :
    (policies : Fields) (rules : List (Text × PolicyRule)) (policy_id : Text) (entry : Value)
    → IsTyped entry
    → In (policy_id, entry) (entries policies)
    → load_policy_rules (obj policies) ≡ ok rules
    → HasRule policy_id rules
unfolding load_policy_rules
load_policy_rules-HasRule policies rules policy_id entry t i h =
    load_entries-HasRule policy_id entry (entries policies) [] rules t i h
