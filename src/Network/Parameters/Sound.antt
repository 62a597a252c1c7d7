-- ===== src/Network/Parameters/Sound.antt =====
-- What a network is whose parameters pass.
use nora_fleet.Common.{
  String, ◌≡◌, refl, ap, ◌↔◌, Bool, true, false, Option, none, some, List, [], ◌∷◌, if◌then◌else◌,
  Dict, get, contains, Value, Fields, str, obj, arr, entries, elements, All, Bool-cases, inl, inr,
  some_inj, arith, ◌>>=◌,
}
use nora_fleet.Network.Parameters.{
  walk, check_nested, find_nested_parameters_keys, undefined, undefined_errors, required_in,
  check_required, check_required_refs, check_located, locate_parameters, validate_parameters,
}
use nora_fleet.Network.Parameters.Schemas.{Below, found-nil, walk-IsClean}

-- The value is a text, and the name of a property.
abbrev pub IsProperty : Dict Value → Value → Type 0
IsProperty properties r = (name : String) × (r ≡ str name) × (contains name properties ≡ true)

-- A list of what is required names properties, where there is a dictionary of them.
abbrev pub IsCovered : Option Value → Option Value → Type 0
IsCovered (some (arr required)) (some (obj properties)) =
    All (IsProperty (entries properties)) (elements required)
IsCovered _ _ = Unit

-- A schema with no key "parameters" of which all that is required is a property.
abbrev pub IsSound : Dict Value → Type 0
IsSound schema =
    (contains "parameters" schema ≡ false)
    × IsCovered (get "required" schema) (get "properties" schema)

-- Every schema of the parameters of an agent is sound, where these are a dictionary.
abbrev pub HasSound : String × Value → Type 0
HasSound (agent_name, agent_spec) =
    (fs : Fields) (path : String) (schema : Fields)
    → locate_parameters agent_spec ≡ some (obj fs)
    → Below "parameters" fs path schema
    → IsSound (entries schema)

str_inj : {r s : String} → str r ≡ str s → r ≡ s
str_inj e = cc

str-nil :
    (o : Option (List Value)) (b : Bool) (v : Value)
    → (o >>= λ others. some (if b then others else v ∷ others)) ≡ some []
    → (b ≡ true) × (o ≡ some [])
str-nil none b v h = cc
str-nil (some xs) true v h = (refl, h)
str-nil (some xs) false v h = cc

cons-nil : (o : Option (List Value)) (v : Value) → (o >>= λ others. some (v ∷ others)) ≡ some [] → ⊥
cons-nil none v h = cc
cons-nil (some xs) v h = cc

errors-nil :
    (agent_name path : String) (o : Option (List Value))
    → (o >>= λ missing. some (undefined_errors agent_name path missing)) ≡ some []
    → o ≡ some []
unfolding undefined_errors
errors-nil agent_name path none h = cc
errors-nil agent_name path (some []) h = refl
errors-nil agent_name path (some (x ∷ xs)) h = cc

undefined-nil :
    (required : List Value) (properties : Dict Value)
    → (undefined required properties ≡ some []) ↔ All (IsProperty properties) required
unfolding undefined
undefined-nil [] properties = (λ h. tt, λ h. refl)
undefined-nil (str r ∷ rest) properties =
    let (to, from) = undefined-nil rest properties in
    (
      λ h.
          let (there, others) = str-nil (undefined rest properties) _ (str r) h in
          ((r, refl, there), to others),
      λ ((name, e, there), others). rw (from others, str_inj e, there) refl,
    )
undefined-nil (obj fs ∷ rest) properties = (λ h. cc, λ ((name, e, there), others). cc)
undefined-nil (arr vs ∷ rest) properties = (λ h. cc, λ ((name, e, there), others). cc)
undefined-nil (v ∷ rest) properties =
    (λ h. absurd (cons-nil (undefined rest properties) v h), λ ((name, e, there), others). cc)

check_nested-nil :
    (agent_name path : String) (schema : Dict Value)
    → (check_nested agent_name path schema ≡ some []) ↔ (contains "parameters" schema ≡ false)
unfolding check_nested
check_nested-nil agent_name path schema = elim (Bool-cases (contains "parameters" schema)) [
  | inl nested ↦ (λ h. ground (arith, nested, h), λ h. ground (arith, nested, h))
  | inr plain ↦ (λ h. plain, λ h. rw plain refl)
]

required_in-nil :
    (agent_name path : String) (required properties : Option Value)
    → (required_in agent_name path required properties ≡ some []) ↔ IsCovered required properties
unfolding required_in undefined_errors
required_in-nil agent_name path (some (arr required)) (some (obj properties)) =
    let (to, from) = undefined-nil (elements required) (entries properties) in
    (λ h. to (errors-nil agent_name path _ h), λ h. rw (from h) refl)
required_in-nil agent_name path _ _ = (λ h. tt, λ h. refl)

-- What one agent's located parameters are, in every schema below.
IsSoundBelow : Option Value → Type 0
IsSoundBelow o =
    (fs : Fields) (path : String) (schema : Fields)
    → o ≡ some (obj fs)
    → Below "parameters" fs path schema
    → IsSound (entries schema)

check_located-nil :
    (agent_name : String) (o : Option Value)
    → (check_located agent_name o ≡ some []) ↔ IsSoundBelow o
unfolding check_located find_nested_parameters_keys check_required_refs check_required IsSoundBelow
check_located-nil agent_name none = (λ h fs path schema e. cc, λ h. refl)
check_located-nil agent_name (some params) =
    let nested = check_nested agent_name in
    let required = check_required agent_name in
    let (split, join) =
      found-nil (walk nested "parameters" params) (walk required "parameters" params) in
    let (nested_to, nested_from) = walk-IsClean nested "parameters" params in
    let (required_to, required_from) = walk-IsClean required "parameters" params in
    (
      λ h fs path schema e below.
          let (plain, covered) = split h in
          (
            (check_nested-nil agent_name path (entries schema)).0
                (nested_to plain fs path schema (some_inj e) below),
            (required_in-nil agent_name path _ _).0
                (required_to covered fs path schema (some_inj e) below),
          ),
      λ h. join (
        nested_from (λ fs path schema e below.
            (check_nested-nil agent_name path (entries schema)).1
              ((h fs path schema (ap some e) below).0)),
        required_from (λ fs path schema e below.
            (required_in-nil agent_name path _ _).1 ((h fs path schema (ap some e) below).1)),
      ),
    )

-- The semantic check of the parameters finds nothing exactly if, for each agent whose parameters are a
-- dictionary, every schema in them, however deep in properties and items, has no key "parameters", and
-- names only its own properties as required, where it has a list of these and a dictionary of those.
pub validate_parameters_lem :
    (net : Dict Value) → (validate_parameters net ≡ some []) ↔ All HasSound net
unfolding validate_parameters IsSoundBelow
validate_parameters_lem [] = (λ h. tt, λ h. refl)
validate_parameters_lem ((agent_name, agent_spec) ∷ rest) =
    let o = locate_parameters agent_spec in
    let (split, join) = found-nil (check_located agent_name o) (validate_parameters rest) in
    let (to, from) = check_located-nil agent_name o in
    let (rest_to, rest_from) = validate_parameters_lem rest in
    (
      λ h. let (this, others) = split h in (to this, rest_to others),
      λ (this, others). join (from this, rest_from others),
    )
