-- ===== src/Lib.antt =====
-- Secure LiteLLM on Azure: the gates of the migration, the merge of its configuration, the model
-- catalog, the history of the database's schema, the audit's maintenance window and the DNS cutover.
--
-- The program moves a gateway to Azure in stages 0 to 9. A customer's configuration is a JSON
-- document. Before a stage runs, the ledger of evidence must hold an accepted record for every
-- earlier stage (scripts/customer_migration.py), and a reviewed report adds one
-- (scripts/migration_evidence.py). The part of the configuration that a later stage needs is merged
-- in from a catalog of fragments (local_execution/merge_config.py). At the end the DNS records are
-- moved, with a checkpoint that a rollback can restore (scripts/dns_runtime.py).
--
-- The models of the gateway come from a catalog of Azure OpenAI accounts
-- (scripts/model_sync_catalog.py); the rules on a model's options and endpoint, and the list that the
-- gateway reads, are in scripts/model_configuration.py. The migrations of its database are deployed
-- only where the recorded history agrees with the release (LiteLLM/runtime/schema_migration.py).
-- Before a recovery of the audit its writers are paused in a maintenance window
-- (scripts/audit_window.py). A script of its own deploys the gateway with a managed identity to AKS
-- (LiteLLM/deploy_mi_aks_litellm.py).
--
-- Files:
--   Base, Base/*     tests, lists, texts, integers and UUIDs that the parts share
--   Json, Json/*     JSON documents as Python's json module gives them; a dict is a list of fields in
--                    the order of insertion, a float is a decimal literal
--   Fault            MigrationError and the built-in exceptions as values, `require`, dict.get
--   Gates/Policy     approval_policy, deployment_mode; Gates/Policy/Approvers on its approvers
--   Gates/Stages     STAGES, active_stages, stage_title, stage_checks
--   Gates/Components COMPONENTS
--   Gates/Scope      stage_fingerprint up to the hash; Gates/Scope/Hidden on later sections
--   Gates/External   fingerprint, and what comes from outside the repository
--   Gates/Evidence   validate_evidence; its child modules say what an accepted ledger guarantees
--   Gates/Ledger     draft_report and record_evidence of scripts/migration_evidence.py
--   Params/Tables    FRONT_DOOR_PRIVATE_LINK_LOCATIONS and REQUIRED
--   Params/Configured, Params/Access  configured, admin_source_cidrs and
--                    front_door_private_link_location; Params/Access/Public on accepted sources
--   Params/Platform, Params/Workloads, Params/Component  parameters_for by component; the child modules
--                    of Params/Component say what its documents hold
--   Runner/Vnet, Runner/Connectivity  connectivity_settings of scripts/runner_connectivity.py;
--                    Runner/Connectivity/Separate on what it accepts
--   Runner/Vault, Runner/Target  certificate_vault_parameters of scripts/certificate_vault.py and
--                    target_connectivity_settings of scripts/runner_target_connectivity.py
--   Sections/OptionalL3, Sections/NativeAudit  scripts/optional_l3.py, and native_audit_settings of
--                    scripts/native_audit.py; Sections/OptionalL3/Routed on the traffic it sees
--   Merge/Deep       deep_merge, remove_keys, apply_section
--   Merge/Derived    derived_values
--   Merge/Placeholders  replace_placeholders, unresolved_placeholders
--   Merge/Stage      OPTION_SPECS, validate_options, merge_stage
--   Merge/Paths      changed_paths
--   Dns/Settings     dns_settings of scripts/dns_runtime.py
--   Dns/Zone         DnsClient.read, from the record sets that the zone lists
--   Dns/Edge, Dns/Plan  the checks on the edge and the plan in its change_dns
--   Calls, Calls/Logic  programs of calls whose answers depend on the history of calls, and what
--                    they keep true of it
--   Dns/Client       the client that change_dns calls
--   Dns/Change       change_dns; its child modules say what its calls guarantee
--   Audit/Cluster    the client that scripts/audit_window.py is given
--   Audit/State, Audit/Plan  the pure parts of scripts/audit_window.py; Audit/State/Restored on a
--                    pause and the resume after it
--   Audit/Window     its programs: plan_window, execute_window, assert_paused; its child modules say
--                    what they change and what they have seen
--   Schema/History   check_history of LiteLLM/runtime/schema_migration.py; its child modules say what
--                    the pending migrations are
--   Models/FieldNames, Models/Options  the fields of a model's options and validate_options of
--                    scripts/model_configuration.py; Models/Options/Accepted on accepted options
--   Models/Endpoint  normalize_openai_endpoint and connection_endpoint
--   Models/Render    rendered_models and pricing_warnings; Models/Render/Pinned on a rendered model
--   Models/Catalog   parse_catalog of scripts/model_sync_catalog.py; Models/Catalog/Identities on the
--                    accounts that it returns
--   Runtime/Login    configure_gateway_authentication of LiteLLM/runtime/application.py;
--                    Runtime/Login/Again on a second start
--   Deploy/Script    what LiteLLM/deploy_mi_aks_litellm.py calls; Deploy/Logic on its programs
--   Deploy/Settings, Deploy/Config  DEFAULT_CONFIG, load_config and generate_litellm_config of it;
--                    Deploy/Config/Listed on the generated models
--   Deploy/Objects, Deploy/Objects/Postgres  its builders of Kubernetes objects
--   Deploy/Tools, Deploy/Azure  its calls of az and helm, and AzureResourceManager
--   Deploy/Kubernetes  KubernetesManager; Deploy/Kubernetes/Status the loops that wait, with
--                    Ended on their end; Deploy/Kubernetes/Salted, Deploy/Kubernetes/Expanded on the
--                    Secret and the claim that are there
--   Deploy/Steps, Deploy/Main  its main; Deploy/Main/Ready on the order of the deployment, from
--                    Deploy/Still on the steps before PostgreSQL is ready
--   Examples/*       runs on concrete documents
--
-- Correspondence: a definition has the name of its Python function; a step of a long function is a
-- definition of its own with a name for what it does. A dict that the source changes in place is
-- returned as a new one. An exception is an `err` of Fault, and a function that can raise returns a
-- Result. Outside Deploy, messages that the source builds from values are fixed texts here.
--
-- Parameters: Gates/External has the record External with SHA-256 of a JSON document in the canonical
-- form that json.dumps gives with sorted keys, datetime.fromisoformat (a time in seconds, or one
-- without a zone) and urlsplit. Dns/Client has the record Client: what the DNS zone and the stored
-- checkpoint answer to a call is any function of the calls so far, so that a change from outside
-- between two calls is included. Audit/Cluster has the record Cluster likewise, and Audit/State the
-- record Codec: json.loads, with `none` for a ValueError, and json.dumps. Params/Access has
-- the record Networks: ip_network with its version, prefix length and range. Runner/Connectivity has
-- the record TextHash: SHA-256 of a text. Models/Endpoint has the record Urls: urlsplit, with `none`
-- for a ValueError, and str.lower. Deploy/Script has the record World: the answers of the clients of
-- Azure and Kubernetes and of the tools, each a function of the calls so far, the clock, the
-- comparison of storage sizes, yaml.dump and the hashes; its record Ticks says that the clock does not
-- go back and that a sleep lasts.
--
-- Bounds: recursion is on the document, on the list or on the text. The scan for placeholders counts
-- down the characters of a match, so it needs no fuel. A wait of the deployment script has fuel for one
-- round in five seconds of its timeout and two more, which is enough since each round sleeps for five
-- seconds.
--
-- Not modelled: the calls of Azure in the class DnsClient and in the branch of change_dns that
-- fetches the edge; discover, which reads the accounts through az; the queries, the engine and the
-- lock of the schema's deployment; the inspections of the runner's networks; reading and writing
-- of files and the command line; the rules on the configuration as a whole (validate_config);
-- confirm_report and the text of the check list; the other scripts. Of the deployment script what
-- it logs and prints, the parsing of its arguments, the reading of its file and the set-up of its
-- clients; a filter of a list is an argument of the call. Digits outside ASCII in a UUID and the
-- rounding of floats are left out, and so are letters outside ASCII where the source ignores case.
-- Where a function reads the clock itself, the model takes the time.
pub mod Base
pub mod Calls
pub mod Audit
pub mod Deploy
pub mod Dns
pub mod Examples
pub mod Fault
pub mod Gates
pub mod Json
pub mod Merge
pub mod Models
pub mod Params
pub mod Runner
pub mod Runtime
pub mod Schema
pub mod Sections
