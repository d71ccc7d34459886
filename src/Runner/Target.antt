-- ===== src/Runner/Target.antt =====
-- `target_connectivity_settings` of scripts/runner_target_connectivity.py, for a configuration whose
-- resource group is a text.
use Prim.Native.String.{[], ◌∷◌}
use Prim.Native.Char.{code}
use secure_litellm_on_azure.Base.{
  String, ◌<>◌, Bool, true, false, ◌&&◌, ◌||◌, List, str_eq, leb, ◌==◌, if◌then◌else◌,
}
use secure_litellm_on_azure.Base.Text.{text_length, take_text, every, is_alnum, lower}
use secure_litellm_on_azure.Json.{Json, null, bool, str, obj, Fields, end, field, update, truthy}
use secure_litellm_on_azure.Fault.{Result, ok, ◌>>=◌, ◌>>◌, require, get_or, index}
use secure_litellm_on_azure.Dns.Settings.{text_part}
use secure_litellm_on_azure.Params.Configured.{configured, configured_text}
use secure_litellm_on_azure.Params.Platform.{at}
use secure_litellm_on_azure.Runner.Vnet.{is_name_mark}
use secure_litellm_on_azure.Runner.Connectivity.{TextHash, lower_of, switch}
use secure_litellm_on_azure.Runner.Vault.{complete_section, same_subscription, put_default}

first_word : String → Bool
first_word [] = false
first_word (c ∷ s) = is_alnum (code c) || (code c == b'_')

-- `re.fullmatch(r"[a-zA-Z0-9_][a-zA-Z0-9_.-]{0,63}", name)`, of a configured text
unfoldable pub is_target_name : Json → Bool
unfolding configured_text first_word
is_target_name (str s) =
    configured_text s && first_word s && leb (text_length s) 64 && every is_name_mark s
is_target_name _ = false

unfoldable pub is_registry_name : Json → Bool
is_registry_name (str s) = leb 5 (text_length s) && leb (text_length s) 50 && every is_alnum s
is_registry_name _ = false

-- Another component that names the runner's network has to name the same.
unfoldable pub check_previous : Fields → String → String → Result (Unit {0})
unfolding configured truthy lower_of lower
check_previous config identifier component = do
  sections ← index (obj config) "parameters"
  section ← get_or sections component (obj end)
  previous ← get_or section "runnerVirtualNetworkId" null
  if truthy previous && configured previous
      then (do
        other ← lower_of previous
        require (str_eq other (lower identifier))
            "Runner VNet differs between connectivity components")
      else ok tt

unfoldable pub resource_prefix : Fields → Result String
unfolding at text_part
resource_prefix config = do
  subscription_value ← at (obj config) (List.◌∷◌ "azure" (List.◌∷◌ "subscriptionId" List.[]))
  subscription ← text_part subscription_value
  group_value ← at (obj config) (List.◌∷◌ "target" (List.◌∷◌ "resourceGroup" List.[]))
  group ← text_part group_value
  ok ("/subscriptions/" <> subscription <> "/resourceGroups/" <> group <> "/providers/")

-- The names of the target: its cluster, network, endpoint subnet and registry.
pub record TargetNames : Type 0 where
  pub cluster : String
  pub network : String
  pub subnet : String
  pub registry : Json

unfoldable pub target_names : Fields → Result TargetNames
unfolding is_target_name text_part
target_names config = do
  sections ← index (obj config) "parameters"
  platform ← get_or sections "platform" (obj end)
  aks ← get_or platform "stage4Aks" (obj end)
  cluster_value ← get_or aks "name" (str "")
  networks ← get_or platform "stage4Network" (obj end)
  network_value ← get_or networks "virtualNetworkName" (str "")
  subnet_value ← get_or networks "privateEndpointSubnetName" (str "")
  require
      (is_target_name cluster_value && is_target_name network_value && is_target_name subnet_value)
      "Runner target connectivity requires the configured target AKS, VNet and Private Endpoint subnet names"
  cluster ← text_part cluster_value
  network ← text_part network_value
  subnet ← text_part subnet_value
  registry ← get_or platform "containerRegistryName" (str "")
  ok (record { cluster = cluster; network = network; subnet = subnet; registry = registry })

module _ (hash : TextHash) where
  -- The end of a link's name.
  unfoldable pub link_suffix : String → String → String
  unfolding lower
  link_suffix resource identifier =
      take_text 16 (hash.hex (lower resource <> "|" <> lower identifier))

  unfoldable pub target_connectivity_settings : Fields → Result Fields
  unfolding complete_section same_subscription put_default switch target_names check_previous
      resource_prefix is_registry_name text_part link_suffix update
  target_connectivity_settings config = do
    own ←
        complete_section "runner-target-connectivity"
          "Runner target connectivity configuration is incomplete" config
    identifier_value ← index (obj own) "runnerVirtualNetworkId"
    identifier ←
        same_subscription config
          "Runner target connectivity requires a same-subscription VNet resource ID"
          identifier_value
    let settings = put_default "manageDnsLink" (bool true) own
    managed ← index (obj settings) "manageDnsLink"
    checked ← switch "manageDnsLink must be a boolean" managed
    names ← target_names config
    check_previous config identifier "runner-connectivity"
    check_previous config identifier "certificate-vault"
    prefix ← resource_prefix config
    require (is_registry_name names.registry)
        "Runner target connectivity requires the configured ACR name"
    registry ← text_part names.registry
    let cluster_id = prefix <> "Microsoft.ContainerService/managedClusters/" <> names.cluster
    let registry_id = prefix <> "Microsoft.ContainerRegistry/registries/" <> registry
    ok (
        update settings (
          field "aksName" (str names.cluster) (
            field "aksResourceId" (str cluster_id) (
              field "acrName" (str registry) (
                field "acrResourceId" (str registry_id) (
                  field "targetVirtualNetworkId"
                    (str (prefix <> "Microsoft.Network/virtualNetworks/" <> names.network))
                    (field "privateEndpointSubnetName" (str names.subnet) (
                      field "linkName"
                        (str ("llmgw-aks-runner-" <> link_suffix cluster_id identifier))
                        (field "acrLinkName"
                          (str ("llmgw-acr-runner-" <> link_suffix registry_id identifier))
                          end)))))))))
