-- ===== src/Network/Toolbox/Verdict.antt =====
-- The agents of a network without an error.
use nora_fleet.Common.{
  String, ◌≡◌, refl, ◌↔◌, true, false, Option, none, some, List, [], ◌∷◌, ◌++◌, Dict, get, contains,
  Value, obj, entries, All, some_inj, arith, ◌>>=◌, Bool-cases, inl, inr,
}
use nora_fleet.Network.Toolbox.{
  ToolboxError, is_truthy, value_of, is_null, check_tool, check_toolbox_agent, validate_toolbox,
}

-- There is a toolbox with a tool of that name.
abbrev pub IsTool : Value → String → Type 0
IsTool (obj tools) agent_name = contains agent_name (entries tools) ≡ true
IsTool _ agent_name = ⊥

-- An agent without instructions has a tool of its name, and no tools of its own.
abbrev pub FitsToolbox : Value → String × Value → Type 0
FitsToolbox tools (agent_name, obj fs) =
    is_null (value_of (get "instructions" (entries fs))) ≡ true
    → IsTool tools agent_name × (is_truthy (value_of (get "tools" (entries fs))) ≡ false)
FitsToolbox tools (agent_name, _) = ⊥

check_tool-nil :
    (tools : Value) (agent_name : String) (agent : Dict Value)
    → (check_tool tools agent_name agent ≡ [])
      ↔ (IsTool tools agent_name × (is_truthy (value_of (get "tools" agent)) ≡ false))
unfolding check_tool
check_tool-nil (obj tools) agent_name agent =
    elim (Bool-cases (contains agent_name (entries tools))) [
      | inl there ↦ elim (Bool-cases (is_truthy (value_of (get "tools" agent)))) [
        | inl some_tools ↦ (
          λ h. ground (arith, rw (there, some_tools) at h),
          λ (_, h). ground (arith, some_tools, h),
        )
        | inr no_tools ↦ (λ h. (there, no_tools), λ h. rw (there, no_tools) refl)
      ]
      | inr missing ↦ (λ h. ground (arith, rw missing at h), λ (h, _). ground (arith, missing, h))
    ]
check_tool-nil tools agent_name agent = (λ h. cc, λ (h, _). absurd h)

agent-nil :
    (tools : Value) (agent_name : String) (agent : Value)
    → (check_toolbox_agent tools agent_name agent ≡ some []) ↔ FitsToolbox tools (agent_name, agent)
unfolding check_toolbox_agent
agent-nil tools agent_name (obj fs) =
    let (to, from) = check_tool-nil tools agent_name (entries fs) in
    elim (Bool-cases (is_null (value_of (get "instructions" (entries fs))))) [
      | inl toolbox ↦
          (λ h e. to (some_inj (rw toolbox at h)), λ h. rw (toolbox, from (h toolbox)) refl)
      | inr other ↦ (λ h e. ground (arith, other, e), λ h. rw other refl)
    ]
agent-nil tools agent_name v = (λ h. cc, λ h. absurd h)

joined-nil :
    (a b : Option (List ToolboxError))
    → ((a >>= λ these. b >>= λ others. some (these ++ others)) ≡ some [])
      ↔ ((a ≡ some []) × (b ≡ some []))
joined-nil none b = (λ h. cc, λ h. cc)
joined-nil (some xs) none = (λ h. cc, λ h. cc)
joined-nil (some []) (some ys) = (λ h. (refl, h), λ h. h.1)
joined-nil (some (x ∷ xs)) (some ys) = (λ h. cc, λ h. cc)

-- The check of the toolbox finds nothing exactly if each agent is a dictionary, and those without
-- instructions have a tool of their name in the toolbox, and no tools of their own.
pub validate_toolbox_lem :
    (tools : Value) (net : Dict Value)
    → (validate_toolbox tools net ≡ some []) ↔ All (FitsToolbox tools) net
unfolding validate_toolbox
validate_toolbox_lem tools [] = (λ h. tt, λ h. refl)
validate_toolbox_lem tools ((agent_name, agent) ∷ rest) =
    let (split, join) =
      joined-nil (check_toolbox_agent tools agent_name agent) (validate_toolbox tools rest) in
    let (to, from) = agent-nil tools agent_name agent in
    let (rest_to, rest_from) = validate_toolbox_lem tools rest in
    (
      λ h. let (this, others) = split h in (to this, rest_to others),
      λ (this, others). join (from this, rest_from others),
    )
