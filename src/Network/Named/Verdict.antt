-- ===== src/Network/Named/Verdict.antt =====
-- The agents of a network without an error.
use nora_fleet.Common.{
  String, ◌≡◌, refl, ◌↔◌, Bool, true, false, not, Option, none, some, List, [], ◌∷◌, if◌then◌else◌,
  Dict, get, Value, str, obj, entries, All, some_inj, arith, ◌>>=◌, Bool-cases, inl, inr,
}
use nora_fleet.Network.Named.{matches_pattern, matches_value, is_misnamed, validate_tool_names}

-- The agent and the name in its spec match the pattern.
abbrev pub IsNamed : String × Value → Type 0
IsNamed (agent_name, obj fs) =
    (matches_pattern agent_name ≡ true)
    × ((name : String) × (get "name" (entries fs) ≡ some (str name))
        × (matches_pattern name ≡ true))
IsNamed (agent_name, _) = ⊥

str_inj : {r s : String} → str r ≡ str s → r ≡ s
str_inj e = cc

misnamed_value :
    (o : Option Value)
    → ((matches_value o >>= λ ok. some (not ok)) ≡ some false)
      ↔ ((name : String) × (o ≡ some (str name)) × (matches_pattern name ≡ true))
unfolding matches_value
misnamed_value none = (λ h. cc, λ (name, e, m). cc)
misnamed_value (some (str name)) = elim (Bool-cases (matches_pattern name)) [
  | inl m ↦ (λ h. (name, refl, m), λ (name', e, m'). rw m refl)
  | inr m ↦
      (λ h. ground (arith, m, h), λ (name', e, m'). ground (arith, m, m', str_inj (some_inj e)))
]
misnamed_value (some v) = (λ h. cc, λ (name, e, m). cc)

is_misnamed-IsNamed :
    (agent_name : String) (spec : Value)
    → (is_misnamed agent_name spec ≡ some false) ↔ IsNamed (agent_name, spec)
unfolding is_misnamed
is_misnamed-IsNamed agent_name (obj fs) = elim (Bool-cases (matches_pattern agent_name)) [
  | inl m ↦
      let (to, from) = misnamed_value (get "name" (entries fs)) in
      (λ h. (m, to (rw m at h)), λ (m', named). rw m (from named))
  | inr m ↦ (λ h. ground (arith, m, h), λ (m', named). ground (arith, m, m'))
]
is_misnamed-IsNamed agent_name spec = (λ h. cc, λ h. absurd h)

listed-nil :
    (wrong : Option Bool) (others : Option (List String)) (x : String)
    → ((wrong >>= λ w. others >>= λ xs. some (if w then x ∷ xs else xs)) ≡ some [])
      ↔ ((wrong ≡ some false) × (others ≡ some []))
listed-nil none others x = (λ h. cc, λ h. cc)
listed-nil (some w) none x = (λ h. cc, λ h. cc)
listed-nil (some true) (some xs) x = (λ h. cc, λ h. cc)
listed-nil (some false) (some xs) x = (λ h. (refl, h), λ h. h.1)

-- The check finds nothing exactly if each agent and the name in its spec match the pattern.
pub validate_tool_names_lem :
    (net : Dict Value) → (validate_tool_names net ≡ some []) ↔ All IsNamed net
unfolding validate_tool_names
validate_tool_names_lem [] = (λ h. tt, λ h. refl)
validate_tool_names_lem ((agent_name, spec) ∷ rest) =
    let (split, join) =
      listed-nil (is_misnamed agent_name spec) (validate_tool_names rest) agent_name in
    let (to, from) = is_misnamed-IsNamed agent_name spec in
    let (rest_to, rest_from) = validate_tool_names_lem rest in
    (
      λ h. let (this, others) = split h in (to this, rest_to others),
      λ (this, others). join (from this, rest_from others),
    )
