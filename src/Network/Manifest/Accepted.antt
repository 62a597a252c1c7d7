-- ===== src/Network/Manifest/Accepted.antt =====
-- What a network is that a manifest may serve.
use nora_fleet.Common.{
  String, ◌≡◌, refl, ◌↔◌, true, false, ◌||◌, Option, none, some, List, [], ◌∷◌, map, Dict, contains,
  elem, Value, All, arith, ◌>>=◌, Bool-cases, inl, inr,
}
use text.Mathlib.Text.{starts_with}
use nora_fleet.Network.{Extract}
use nora_fleet.Network.Missing.{missing_errors, find_missing_agent_nodes, validate_missing}
use nora_fleet.Network.Urls.{known_urls, ends_with}
use nora_fleet.Network.Manifest.{
  NetworkError, Candidate, Validator, get_name_to_spec, is_nothing, validate,
}

-- The package promises that the errors of a composite are those of its validators, one after the other.
abbrev pub IsComposite : (List Validator → Validator) → Type 0
IsComposite composite =
    (validators : List Validator) (c : Candidate)
    → (composite validators c ≡ some []) ↔ All (λ v. v c ≡ some []) validators

map-nil :
    {E : Type 0} (error : E → NetworkError) (o : Option (List E))
    → (o >>= λ errors. some (map error errors)) ≡ some []
    → o ≡ some []
map-nil error none h = cc
map-nil error (some []) h = refl
map-nil error (some (x ∷ xs)) h = cc

pub validate-nil :
    {E : Type 0} (error : E → NetworkError) (validate_dict : Dict Value → Option (List E))
    (c : Candidate)
    → validate error validate_dict c ≡ some []
    → (is_nothing c ≡ false) × (validate_dict (get_name_to_spec c) ≡ some [])
unfolding validate
validate-nil error validate_dict c h = elim (Bool-cases (is_nothing c)) [
  | inl nothing ↦ ground (arith, rw nothing at h)
  | inr thing ↦ (thing, map-nil error _ (rw thing at h))
]

errors-nil : (d : Dict (List String)) → missing_errors d ≡ [] → d ≡ []
unfolding missing_errors
errors-nil [] h = refl
errors-nil ((agent, tools) ∷ rest) h = cc

pub missing-nil :
    (extract : Extract) (net : Dict Value)
    → validate_missing extract net ≡ []
    → find_missing_agent_nodes extract net ≡ []
unfolding validate_missing
missing-nil extract net h = errors-nil (find_missing_agent_nodes extract net) h

-- A text tool of an agent is an agent of the network, or a known, http, https or MCP URL.
abbrev pub IsResolved : Option (List String) → Option (List String) → Dict Value → String → Type 0
IsResolved external_agents mcp_servers net tool =
    (contains tool net
      || elem tool (known_urls external_agents mcp_servers)
      || starts_with tool "http://"
      || starts_with tool "https://"
      || ends_with tool "mcp"
      || ends_with tool "mcp/")
    ≡ true
