-- ===== src/Network/Urls/Resolved.antt =====
-- What the check of the URLs and the search for missing nodes tell together.
use nora_fleet.Common.{
  String, ◌≡◌, refl, sym, ap, ◌∙◌, Bool, true, false, ◌||◌, Option, none, some, List, [], ◌∷◌, ◌++◌,
  if◌then◌else◌, ◌==◌, Dict, get, get-empty, contains, elem, elem-cons, elem-nil, In, IsUnique,
  Value, arith, eq_iff, Bool-cases, inl, inr, some_inj,
}
use nora_fleet.Network.{Extract, is_url_or_path, remove_dictionary_tools, coerce_tools}
use nora_fleet.Network.Missing.{find_missing_agent_nodes}
use nora_fleet.Network.Missing.Lookup.{listed, missing_tools, find_missing_agent_nodes_lem}
use text.Mathlib.Text.{starts_with}
use nora_fleet.Network.Urls.{
  known_urls, ends_with, is_unrecognized, check_safe_urls, check_urls, validate_urls,
}

appended-nil : {A : Type 0} (xs ys : List A) → xs ++ ys ≡ [] → (xs ≡ []) × (ys ≡ [])
appended-nil [] ys e = (refl, e)
appended-nil (x ∷ xs) ys e = cc

if-append-nil :
    {A : Type 0} (b : Bool) (xs : List A) (x : A)
    → (if b then xs ++ x ∷ [] else xs) ≡ []
    → (b ≡ false) × (xs ≡ [])
if-append-nil true xs x e = let (p, q) = appended-nil xs (x ∷ []) e in cc
if-append-nil false xs x e = (refl, e)

-- The check of an agent finds nothing: nothing was found before, and all its tools are recognized.
check_safe_urls-nil :
    (name : String) (tools urls : List String) (errors : List (String × String))
    → check_safe_urls name tools urls errors ≡ []
    → (errors ≡ []) × ((tool : String) → In tool tools → is_unrecognized urls tool ≡ false)
unfolding check_safe_urls
check_safe_urls-nil name [] urls errors e = (e, λ tool m. absurd (ground (arith, elem-nil tool)))
check_safe_urls-nil name (t ∷ tools) urls errors e =
    let (before, rest) = check_safe_urls-nil name tools urls _ e in
    let (this, none_yet) = if-append-nil (is_unrecognized urls t) errors (name, t) before in
    (
      none_yet,
      λ tool m. elim (Bool-cases (t == tool)) [
        | inl same ↦ rw (← ((eq_iff t tool).0 same)) this
        | inr other ↦ rest tool (ground (arith, elem-cons tool t tools, eq_iff t tool))
      ],
    )

module _ (extract : Extract) (urls : List String) where
  abbrev pub tools_of : Value → List String
  tools_of spec = remove_dictionary_tools (coerce_tools extract spec)

  check_urls-nil :
      (net : Dict Value) (errors : List (String × String))
      → check_urls extract urls net errors ≡ []
      → (errors ≡ [])
        × ((agent tool : String) (spec : Value)
            → get agent net ≡ some spec
            → In tool (tools_of spec)
            → is_unrecognized urls tool ≡ false)
  unfolding check_urls get
  check_urls-nil [] errors e = (e, λ agent tool spec p m. cc)
  check_urls-nil ((name, s) ∷ rest) errors e =
      let (before, later) = check_urls-nil rest (check_safe_urls name (tools_of s) urls errors) e in
      let (none_yet, here) = check_safe_urls-nil name (tools_of s) urls errors before in
      (
        none_yet,
        λ agent tool spec p m. elim (Bool-cases (name == agent)) [
          | inl same ↦ here tool (rw (← some_inj (rw same at p)) at m)
          | inr other ↦ later agent tool spec (rw other at p) m
        ],
      )

  missing-covers :
      (net : Dict Value) (tools : List String) (tool : String)
      → missing_tools extract net tools ≡ []
      → In tool tools
      → (is_url_or_path tool || contains tool net) ≡ true
  unfolding missing_tools
  missing-covers net [] tool e m = absurd (ground (arith, elem-nil tool))
  missing-covers net (t ∷ tools) tool e m = elim (Bool-cases (is_url_or_path t || contains t net)) [
    | inr out ↦ absurd (cc (rw out at e))
    | inl known ↦ elim (Bool-cases (t == tool)) [
      | inl same ↦ rw (← ((eq_iff t tool).0 same)) known
      | inr other ↦
          missing-covers net tools tool (rw known at e)
            (ground (arith, elem-cons tool t tools, eq_iff t tool))
    ]
  ]

-- A list with no entry lists nothing.
listed-nil : (xs : List String) → listed xs ≡ none → xs ≡ []
listed-nil [] e = refl
listed-nil (x ∷ xs) e = cc

-- Where a network lists each agent once, the search for missing nodes finds none and the check of the
-- URLs reports none, each text tool of an agent is resolved: it is an agent of the network, one of
-- the external agents and MCP servers, an http or https URL, or an MCP endpoint.
pub validate_urls_lem :
    (extract : Extract) (external_agents mcp_servers : Option (List String)) (net : Dict Value)
    (agent tool : String) {spec : Value}
    → IsUnique net
    → find_missing_agent_nodes extract net ≡ []
    → validate_urls extract external_agents mcp_servers net ≡ []
    → get agent net ≡ some spec
    → In tool (remove_dictionary_tools (coerce_tools extract spec))
    → (contains tool net
        || elem tool (known_urls external_agents mcp_servers)
        || starts_with tool "http://"
        || starts_with tool "https://"
        || ends_with tool "mcp"
        || ends_with tool "mcp/")
      ≡ true
unfolding validate_urls is_unrecognized
validate_urls_lem extract external_agents mcp_servers net agent tool {spec} u none_missing no_errors
      e m =
    let urls = known_urls external_agents mcp_servers in
    let (start, recognized) = check_urls-nil extract urls net [] no_errors in
    let listed_none =
      sym (find_missing_agent_nodes_lem extract net agent {spec = spec} u e)
      ∙ (ap (get agent) none_missing ∙ get-empty {V = List String} agent) in
    let covered =
      missing-covers extract urls net (tools_of extract urls spec) tool (listed-nil _ listed_none)
        m in
    ground (arith, covered, recognized agent tool spec e m)
