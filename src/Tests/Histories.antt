-- ===== src/Tests/Histories.antt =====
-- A short history of a chat, the origins of three runs, and a service that is set up anew.
use nora_fleet.Common.{
  ℕ, ◌≤◌, String, ◌≡◌, refl, ◌⊎◌, true, false, some, List, [], ◌∷◌, ◌++◌, length, Dict, get, put,
  elem, IsUnique, arith, Value, num, str,
}
use nora_fleet.Messages.{system, human, is_type, value_at}
use nora_fleet.Chat.History.{
  ChatHistory, escape, halve, double, escape_text, redact_instructions, append_some,
  process_message, process_each, drop, first_and_last, curtail, process_history,
}
use nora_fleet.Chat.History.Length.{process_history_lem}
use nora_fleet.Origination.{Origin, reset}
use nora_fleet.Origination.Indices.{add_names, numbered, add_spec_name_to_origin_lem}
use nora_fleet.Agents.{AgentNetworkStorage, setup_agent_networks, get_agent_network}
use nora_fleet.Agents.Listeners.{mirror, listed, InStep}
use nora_fleet.Agents.Setup.{setup_agent_networks_lem}

escaped : escape "{a} {{b}}" ≡ "{{a}} {{b}}"
unfolding escape halve double
escaped = refl

abbrev said : ℕ → String → Dict Value
said message_type text = ("type", num message_type) ∷ ("text", str text) ∷ []

abbrev messages : List (Dict Value)
messages = said system "be kind" ∷ said human "a" ∷ said human "b" ∷ said human "c" ∷ []

abbrev history : ChatHistory
history = record { max_message_history = some 2; message_history = []; saw_first_system = false }

abbrev curtailed_history : ChatHistory
curtailed_history = record {
  max_message_history = some 2;
  message_history = said system "<redacted>" ∷ said human "b" ∷ said human "c" ∷ [];
  saw_first_system = true;
}

abbrev started_history : ChatHistory
started_history = record {
  max_message_history = some 2;
  message_history = said system "<redacted>" ∷ said human "a" ∷ [];
  saw_first_system = true;
}

process_history_lem_example :
    (all : ChatHistory) × (first : Dict Value) × (dropped : List (Dict Value)) × (kept : List
      (Dict Value))
    × (process_each messages history ≡ some all)
    × (all.message_history ≡ first ∷ (dropped ++ kept))
    × (curtailed_history.message_history ≡ first ∷ kept)
    × (length kept ≤ 2)
    × ((dropped ≡ []) ⊎ (length kept ≡ 2))
unfolding process_history process_each process_message append_some redact_instructions escape_text
    escape halve double curtail first_and_last drop value_at is_type get put
process_history_lem_example =
    process_history_lem messages history curtailed_history 2 refl (omega arith) refl

abbrev three_runs : List (List Origin × String)
three_runs = ([], "front") ∷ ([], "helper") ∷ ([], "helper") ∷ []

add_spec_name_to_origin_lem_example : add_names three_runs (reset []) ≡ numbered [] three_runs
add_spec_name_to_origin_lem_example = add_spec_name_to_origin_lem three_runs

abbrev service : AgentNetworkStorage String
service = record {
  agents_table = ("old", "net") ∷ ("both", "net") ∷ [];
  listeners = 1 ∷ [];
  told = [];
}

abbrev replacement : Dict String
replacement = ("both", "net 2") ∷ ("new", "net 3") ∷ []

replacement-IsUnique : IsUnique replacement
unfolding get
replacement-IsUnique = (refl, (refl, tt))

setup_agent_networks_lem_example :
    get_agent_network String "old" (setup_agent_networks String replacement service)
    ≡ get "old" replacement
setup_agent_networks_lem_example =
    setup_agent_networks_lem String replacement service "old" replacement-IsUnique

abbrev empty_service : AgentNetworkStorage String
empty_service = record { agents_table = []; listeners = 1 ∷ []; told = [] }

empty_service-InStep : InStep String 1 empty_service
unfolding mirror listed elem get
empty_service-InStep = (refl, λ x. refl)
