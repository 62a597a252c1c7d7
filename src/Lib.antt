-- ===== src/Lib.antt =====
-- nora-fleet: agents that call each other as tools, in networks described by configuration files.
--
-- The parts and their files. Paths are from the root of the repository; `internals` is
-- nora_fleet/internals, and a definition has the name of the function or method it models.
--
-- Common: shared names, lists, dictionaries with unique keys in order of insertion, and `Value`,
--   which is what a HOCON file or a JSON message holds (whole numbers stand for all numbers).
-- Network (internals/validation/network/abstract_network_validator.py): how an agent spec names its
--   down-chains. Its children are the validators: Cycles (cycles_network_validator.py), Reach
--   (unreachable_nodes_network_validator.py), Missing (missing_nodes_network_validator.py), Urls
--   (url_network_validator.py), Shape (tools_shape_validator.py), Keywords
--   (keyword_network_validator.py), Named (tool_name_network_validator.py), Parameters
--   (semantic_parameters_network_validator.py, whose two walks of a schema are one here that takes the
--   check), and Toolbox (toolbox_network_validator.py). Manifest (manifest_network_validator.py) and
--   Designed (structure_network_validator.py) compose them. Below each are what it is about, the
--   search, and the verdict. `DictionaryExtractor` of the package nora_common is the argument
--   `extract`, any function.
-- Reservations (internals/reservations): AgentReservation, and AccumulatingAgentReservationist as a
--   record with a function for each method; `Result` holds its exceptions. The validation of a
--   network by ManifestNetworkValidator is an argument.
-- Storage (internals/network_providers/expiring_agent_network_storage.py): the temporary agent
--   networks that reservations stand for, as the record of the four tables with the limit and the
--   listeners. The networks and the base storage are the record `Backend`. Tables has the invariant
--   of the tables, Run the step relation `Call` and its closure `Calls`.
-- Agents (internals/network_providers/agent_network_storage.py): the permanent agent networks.
-- Redactor (nora_fleet/message/utils/sly_data_redactor.py): the private data that pass to an agent.
-- Chat (internals/chat/async_collating_queue.py): the stream of messages of one request, with
--   Stream for the interleavings of its calls; Chat.History
--   (internals/chat/chat_history_message_processor.py): what a client is given to go on from.
-- Messages (nora_fleet/message): the types of messages, Filters, and Processors, which gather the
--   answer. The parser of structures is an argument there; Messages.Json
--   (parsers/structure/json_structure_parser.py) is the one that there is, over `loads` of the
--   package json_repair.
-- Origination (internals/journals/origination.py): the numbering of the runs of agents.
-- Deployments: the way of a deployment to the storages, at once by DirectAgentReservationist or over
--   the queue of ServiceAgentReservationist (nora_fleet/service/generic) and the updater
--   (nora_fleet/service/watcher/temp_networks/updater), and what the storages then serve.
-- Watcher (nora_fleet/service/watcher): the periodic thread of event_initiator, whose schedules are
--   iterators of the package croniter, with Advance and Rounds for its loops and Requests for what it
--   asks of an agent network; and Monitor for the thread of event_work.
-- Manifests (internals/graph/persistence): the filters of a manifest, and in Restore the restorer
--   registry_manifest_restorer.py, whose readers, validator and overlay are the record `Registry`.
-- Names (internals/graph/filters/name_correction_config_filter.py): the correction of agents' names.
-- LocalStorage (nora_fleet/service/watcher/temp_networks/local): reservations in files.
-- Mcp (nora_fleet/service/mcp): the handler of MCP requests over the interface of a session policy,
--   and the server context, which installs the policy without sessions; Installed is about that.
--   Sessions has McpSessionManager, which implements the interface too and is installed by nothing,
--   Phases what becomes of one of its sessions, and Lifecycle which requests it would refuse.
-- Authorization (nora_fleet/service/authorization, and agent_authorization_policy.py of
--   nora_fleet/service/http/server): the interface `Authorizer`, the policy that takes it, and the
--   authorizers that fill it. The client of OpenFGA is the record `FgaClient`.
-- Tests: runs on small inputs, and the theorems at them.
--
-- A request is answered by the agents of a network that passed the validators, found in one of the
-- two storages; private data pass the Redactor on the way to another agent; the messages of the
-- agents are put on the queue of Chat, the origins of Origination in them; and the answer is gathered
-- by the processors of Messages.
--
-- Bounds: the recursions of the two searches over a network carry a bound on their depth, the number
-- of agents and one. The theorems about them state that the search returns, so the bound suffices.
-- Python's own limit on recursion is not modelled. The loop that moves a schedule past the present has
-- one tick of fuel more than the present, which a theorem shows to be enough where each time of a
-- schedule is later than the one before. Everything else is structural.
--
-- Conventions: `none` is an exception, and the state that an exception leaves behind is modelled only
-- where the code catches it and goes on (the updater, in Deployments);
-- sets are lists without repetition, whose order no theorem uses; times are whole ticks, and one
-- reading of the clock stands for all the readings of a call; a limit on the number of networks is a
-- natural number, where the code takes a negative one like 0; locks are not modelled, since
-- each operation is taken as one step; what is logged, and the wording of error messages, are left
-- out. `round(max_items * 0.05)` is computed in floating point, and is an argument.
--
-- Not modelled: the sessions, the language models and their middleware (langchain), the HTTP and
-- gRPC servers, the processors of MCP methods, the storages in S3 and Azure, the granting and revoking
-- of authorizations, the reading of files, the command line and the test driver.
-- Of the storage of temporary networks, the thread that expires them and the operations inherited from
-- the permanent storage are left out.
pub mod Common
pub mod Network
pub mod Reservations
pub mod Storage
pub mod Redactor
pub mod Chat
pub mod Messages
pub mod Agents
pub mod Origination
pub mod Watcher
pub mod Manifests
pub mod Names
pub mod LocalStorage
pub mod Mcp
pub mod Authorization
pub mod Deployments
pub mod Tests
