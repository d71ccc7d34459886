-- ===== src/Runner/Connectivity.antt =====
-- `connectivity_settings` and `connectivity_parameters` of scripts/runner_connectivity.py, for a
-- configuration whose subscription and resource group are texts.
pub mod Separate
use secure_litellm_on_azure.Base.{
  String, ◌<>◌, Bool, true, false, ◌&&◌, ◌||◌, not, Option, none, some, List, [], ◌∷◌, subset,
  str_eq, leb, if◌then◌else◌,
}
use secure_litellm_on_azure.Base.Text.{text_length, take_text, every, lower}
use secure_litellm_on_azure.Json.{Json, bool, str, obj, Fields, end, field, get, keys}
use secure_litellm_on_azure.Fault.{
  Result, ok, err, type_error, attribute_error, ◌>>=◌, ◌>>◌, require, get_or, index,
}
use secure_litellm_on_azure.Gates.Policy.{deployment_mode}
use secure_litellm_on_azure.Dns.Settings.{text_part}
use secure_litellm_on_azure.Params.Configured.{configured_text}
use secure_litellm_on_azure.Params.Platform.{at}
use secure_litellm_on_azure.Params.Workloads.{copy_keys}
use secure_litellm_on_azure.Runner.Vnet.{VnetId, vnet_id, is_name_mark}

-- `hashlib.sha256(text.encode()).hexdigest()`
pub record TextHash : Type 0 where
  pub hex : String → String

-- `value.lower()`
unfoldable pub lower_of : Json → Result String
unfolding lower
lower_of (str s) = ok (lower s)
lower_of _ = err attribute_error

unfoldable pub known_switches : Json → Result Fields
unfolding keys
known_switches (obj d) = do
  require (subset (keys d) ("runnerVirtualNetworkId" ∷ "managePeering" ∷ "manageBlobDnsLink" ∷ []))
      "Invalid runner-connectivity fields"
  ok d
known_switches _ = do require false "Invalid runner-connectivity fields"; err type_error

unfoldable pub runner_identifier : Json → Result String
unfolding configured_text
runner_identifier (str s) = do
  require (configured_text s) "Configure runnerVirtualNetworkId before checking backup connectivity"
  ok s
runner_identifier _ = do
  require false "Configure runnerVirtualNetworkId before checking backup connectivity"
  err type_error

unfoldable pub runner_network : String → Result VnetId
unfolding vnet_id
runner_network s = elim (vnet_id s) [
  | none ↦
      (require false "runnerVirtualNetworkId must identify a VNet, not a subnet or VM"
        >> err type_error)
  | some v ↦ ok v
]

unfoldable pub network_name : Json → Result String
unfolding configured_text
network_name (str s) = do
  require
      (configured_text s && leb 1 (text_length s) && leb (text_length s) 64 && every is_name_mark s)
      "Runner connectivity requires the configured target VNet"
  ok s
network_name _ = do
  require false "Runner connectivity requires the configured target VNet"
  err type_error

unfoldable pub switch : String → Json → Result Bool
switch message (bool b) = ok b
switch message _ = do require false message; err type_error

abbrev pub no_switch : String
no_switch = "Connectivity management switches must be booleans"

-- The resource ID of the target network.
unfoldable pub target_network : Fields → String → Result String
unfolding at text_part
target_network config name = do
  subscription_value ← at (obj config) ("azure" ∷ "subscriptionId" ∷ [])
  subscription ← text_part subscription_value
  group_value ← at (obj config) ("target" ∷ "resourceGroup" ∷ [])
  group ← text_part group_value
  ok (
      "/subscriptions/" <> subscription <> "/resourceGroups/" <> group
      <> "/providers/Microsoft.Network/virtualNetworks/" <> name)

-- What the settings hold, before the name of the connection.
pub record Connected : Type 0 where
  pub identifier : String
  pub runner : VnetId
  pub target : String
  pub target_name : String
  pub peering : Bool
  pub dns : Bool
  pub mode : String

unfoldable pub connected : Fields → Result Connected
unfolding known_switches runner_identifier runner_network lower_of at network_name target_network
    switch lower
connected config = do
  sections ← index (obj config) "parameters"
  section ← get_or sections "runner-connectivity" (obj end)
  settings ← known_switches section
  identifier_value ← get_or (obj settings) "runnerVirtualNetworkId" (str "")
  identifier ← runner_identifier identifier_value
  runner ← runner_network identifier
  subscription_value ← at (obj config) ("azure" ∷ "subscriptionId" ∷ [])
  subscription ← lower_of subscription_value
  require (str_eq (lower runner.subscription) subscription)
      "Runner connectivity currently requires the same subscription"
  mode ← deployment_mode config
  foundation ← get_or sections (if str_eq mode "migration" then "backup" else "network") (obj end)
  name_value ← get_or foundation "virtualNetworkName" (str "")
  name ← network_name name_value
  target ← target_network config name
  require (not (str_eq (lower identifier) (lower target)))
      "Runner and target VNet must be separate; reuse an existing same-VNet path without this component"
  peering_value ← get_or (obj settings) "managePeering" (bool true)
  dns_value ← get_or (obj settings) "manageBlobDnsLink" (bool true)
  peering ← switch no_switch peering_value
  dns ← switch no_switch dns_value
  require (str_eq mode "migration" || not dns)
      "Greenfield runner connectivity cannot manage migration-only Blob DNS"
  ok (record {
    identifier = identifier;
    runner = runner;
    target = target;
    target_name = name;
    peering = peering;
    dns = dns;
    mode = mode;
  })

module _ (hash : TextHash) where
  unfoldable pub connection_name : Connected → String
  unfolding lower
  connection_name c =
      (if str_eq c.mode "migration" then "llmgw-backup-" else "llmgw-target-")
      <> take_text 16 (hash.hex (lower c.identifier <> "|" <> lower c.target))

  unfoldable pub connectivity_settings : Fields → Result Fields
  unfolding connected connection_name
  connectivity_settings config = do
    c ← connected config
    ok (
        field "runnerVirtualNetworkId" (str c.identifier) (
          field "runnerResourceGroupName" (str c.runner.group) (
            field "runnerVirtualNetworkName" (str c.runner.name) (
              field "backupVirtualNetworkId" (str c.target) (
                field "backupVirtualNetworkName" (str c.target_name) (
                  field "managePeering" (bool c.peering) (
                    field "manageBlobDnsLink" (bool c.dns)
                      (field "connectionName" (str (connection_name c)) end))))))))

  unfoldable pub connectivity_parameters : Fields → Result Fields
  unfolding connectivity_settings copy_keys
  connectivity_parameters config = do
    settings ← connectivity_settings config
    copy_keys (obj settings)
        ("runnerResourceGroupName" ∷ "runnerVirtualNetworkName" ∷ "backupVirtualNetworkName"
          ∷ "managePeering" ∷ "manageBlobDnsLink" ∷ "connectionName" ∷ [])
        end
