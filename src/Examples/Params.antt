-- ===== src/Examples/Params.antt =====
-- The parameters of the platform in stage 3 and of the edge in stage 9.
use secure_litellm_on_azure.Base.{ℕ, ◌≤◌, String, ◌<>◌, ◌≡◌, refl, true, false, some, List, [], ◌∷◌}
use secure_litellm_on_azure.Json.{Json, get, bool, str, arr, obj, nil, cons, Fields, end, field}
use secure_litellm_on_azure.Fault.{ok}
use secure_litellm_on_azure.Gates.Policy.{member, authentication_mode, deployment_mode}
use secure_litellm_on_azure.Gates.Stages.{active_stages}
use secure_litellm_on_azure.Gates.Components.{Component, components, find_component}
use secure_litellm_on_azure.Runner.Connectivity.{TextHash, connectivity_settings}
use secure_litellm_on_azure.Runner.Connectivity.Separate.{Separate, connectivity_settings-Separate}
use secure_litellm_on_azure.Params.Access.{Networks, admin_source_cidrs}
use secure_litellm_on_azure.Params.Component.{document_of, parameters_for}
use secure_litellm_on_azure.Params.Component.Closed.{Closed, parameters_for-Closed}
use secure_litellm_on_azure.Params.Component.Private.{Private, parameters_for-Private}
use secure_litellm_on_azure.Params.Component.Staged.{parameters_for-Staged}

-- Each text is read as the one network of the example.
abbrev one_network : Networks
one_network = record {
  network = λ s. some (record { version = 4; prefix = 24; is_global = true; text = "8.8.8.0/24" });
}

abbrev one_hash : TextHash
one_hash = record { hex = λ s. "0123456789abcdef" }

abbrev origin : Json
origin = obj (field "privateLinkLocation" (str "westeurope") end)

abbrev cidrs : Json
cidrs = arr (cons (str "8.8.8.0/24") nil)

abbrev edge_section : Fields
edge_section = field "privateOrigin" origin (
    field "adminPrivateOrigin" origin
      (field "adminAllowedCidrs" cidrs (field "logAnalyticsWorkspaceName" (str "logs") end)))

abbrev platform_section : Fields
platform_section = field "containerRegistryName" (str "registry") (
    field "logAnalyticsWorkspaceName" (str "logs") (
      field "stage4Network" (obj end) (field "stage4Aks" (obj (field "name" (str "aks") end)) end)))

abbrev config : Fields
config = field "deploymentMode" (str "greenfield") (
    field "environment" (str "dev") (
      field "location" (str "westeurope") (
        field "baseDomain" (str "llm.contoso.com") (
          field "ownerEmail" (str "owner@contoso.com") (
            field "parameters"
              (obj (field "edge" (obj edge_section) (field "platform" (obj platform_section) end)))
              end)))))

abbrev tags : Json
tags = obj (
    field "owner" (str "owner@contoso.com") (
      field "environment" (str "dev")
        (field "workload" (str "litellm") (field "managedBy" (str "bicep") end))))

abbrev edge_document : Json
edge_document = document_of (
    field "privateOrigin" origin (
      field "adminPrivateOrigin" origin (
        field "adminAllowedCidrs" cidrs (
          field "logAnalyticsWorkspaceName" (str "logs") (
            field "deployEdge" (bool true) (
              field "enableApiTraffic" (bool false) (
                field "enableAdminTraffic" (bool false) (
                  field "environmentName" (str "dev") (
                    field "baseDomain" (str "llm.contoso.com")
                      (field "wafMode" (str "Detection") (field "tags" tags end)))))))))))

edge_run :
    parameters_for one_network one_hash config 9 "edge"
    ≡ ok ("infra/edge/main.bicep", edge_document)
unfolding parameters_for authentication_mode deployment_mode document_of get
edge_run = refl

parameters_for-Closed_example : Closed one_network edge_document
parameters_for-Closed_example = parameters_for-Closed one_network one_hash config 9 edge_run

parameters_for-Staged_example :
    (active : List ℕ) × (active_stages config ≡ ok active)
    × (member 9 active ≡ true)
    × (c : Component) × (find_component "edge" components ≡ some c)
    × (c.stage ≤ 9)
    × ("infra/edge/main.bicep" ≡ "infra/" <> c.template <> "/main.bicep")
parameters_for-Staged_example =
    parameters_for-Staged one_network one_hash config 9 "edge" "infra/edge/main.bicep" edge_run

abbrev platform_document : Json
platform_document = document_of (
    field "containerRegistryName" (str "registry") (
      field "logAnalyticsWorkspaceName" (str "logs") (
        field "stage4Network" (obj end) (
          field "stage4Aks" (obj (field "name" (str "aks") end)) (
            field "environmentName" (str "dev") (
              field "deployContainerRegistry" (bool true) (
                field "deployStage4" (bool false) (
                  field "deployStage5" (bool false) (
                    field "containerRegistryPublicNetworkAccess" (str "Disabled")
                      (field "location" (str "westeurope") (field "tags" tags end)))))))))))

platform_run :
    parameters_for one_network one_hash config 3 "platform"
    ≡ ok ("infra/environments/main.bicep", platform_document)
unfolding parameters_for authentication_mode deployment_mode document_of get
platform_run = refl

parameters_for-Private_example : Private 3 platform_document
parameters_for-Private_example = parameters_for-Private one_network one_hash config 3 platform_run

abbrev one_text : List String
one_text = "8.8.8.0/24" ∷ []

cidrs_run : admin_source_cidrs one_network cidrs ≡ ok one_text
unfolding admin_source_cidrs
cidrs_run = refl

abbrev runner_id : String
runner_id =
    "/subscriptions/11111111-1111-1111-1111-111111111111/resourceGroups/runners/providers/Microsoft.Network/virtualNetworks/runner"

abbrev target_id : String
target_id =
    "/subscriptions/11111111-1111-1111-1111-111111111111/resourceGroups/gateway/providers/Microsoft.Network/virtualNetworks/gateway"

abbrev connected_config : Fields
connected_config = field "deploymentMode" (str "greenfield") (
    field "azure" (obj (field "subscriptionId" (str "11111111-1111-1111-1111-111111111111") end)) (
      field "target" (obj (field "resourceGroup" (str "gateway") end)) (
        field "parameters"
          (obj (
            field "runner-connectivity"
              (obj (
                field "runnerVirtualNetworkId" (str runner_id)
                  (field "manageBlobDnsLink" (bool false) end)))
              (field "network" (obj (field "virtualNetworkName" (str "gateway") end)) end)))
          end)))

abbrev settings : Fields
settings = field "runnerVirtualNetworkId" (str runner_id) (
    field "runnerResourceGroupName" (str "runners") (
      field "runnerVirtualNetworkName" (str "runner") (
        field "backupVirtualNetworkId" (str target_id) (
          field "backupVirtualNetworkName" (str "gateway") (
            field "managePeering" (bool true) (
              field "manageBlobDnsLink" (bool false)
                (field "connectionName" (str "llmgw-target-0123456789abcdef") end)))))))

settings_run : connectivity_settings one_hash connected_config ≡ ok settings
unfolding connectivity_settings deployment_mode get
settings_run = refl

connectivity_settings-Separate_example : Separate connected_config settings
connectivity_settings-Separate_example =
    connectivity_settings-Separate one_hash connected_config settings_run
