-- ===== src/Gates/Components.antt =====
-- `COMPONENTS` of scripts/customer_migration.py: the first stage, the template and the parameters
-- that a customer may set, for each infrastructure component.
use secure_litellm_on_azure.Base.{
  ℕ, String, Option, none, some, List, [], ◌∷◌, str_eq, if◌then◌else◌,
}

pub record Component : Type 0 where
  pub name : String
  pub stage : ℕ
  pub template : String
  pub allowed : List String

abbrev component : String → ℕ → String → List String → Component
component name stage template allowed = record {
  name = name;
  stage = stage;
  template = template;
  allowed = allowed;
}

abbrev pub components : List Component
components =
    component "bootstrap" 0 "bootstrap"
      ("workspaceMode" ∷ "logRetentionDays" ∷ "logAnalyticsWorkspaceName" ∷ [])
    ∷ component "network" 0 "network-bootstrap" (
        "virtualNetworkName" ∷ "virtualNetworkAddressPrefix" ∷ "privateEndpointSubnetName"
        ∷ "privateEndpointSubnetPrefix" ∷ [])
    ∷ component "backup" 0 "backup-storage" (
        "storageAccountName" ∷ "virtualNetworkName" ∷ "virtualNetworkAddressPrefix"
        ∷ "privateEndpointSubnetName" ∷ "privateEndpointSubnetPrefix" ∷ "logAnalyticsWorkspaceName"
        ∷ "backupOwnerPrincipalId" ∷ "backupAutomationPrincipalId" ∷ "storageSku"
        ∷ "softDeleteRetentionDays" ∷ [])
    ∷ component "runner-connectivity" 0 "runner-connectivity"
        ("runnerVirtualNetworkId" ∷ "managePeering" ∷ "manageBlobDnsLink" ∷ [])
    ∷ component "legacy-logging" 1 "legacy-logging" ("workspaceMode" ∷ [])
    ∷ component "monitoring" 1 "monitoring" ("logAnalyticsWorkspaceName" ∷ [])
    ∷ component "platform" 3 "environments" (
        "containerRegistryName" ∷ "logAnalyticsWorkspaceName" ∷ "stage4Network" ∷ "stage4Aks"
        ∷ "stage4RoleAssignmentNaming" ∷ "stage5Data" ∷ "approvedHttpsFqdns"
        ∷ "azureOpenAIConnections" ∷ "createStage5KeyVaultPrivateDnsZone"
        ∷ "createStage5PostgresqlPrivateDnsZone" ∷ "createStage5ManagedRedisPrivateDnsZone" ∷ [])
    ∷ component "aks-ingress-role" 4 "aks-ingress-role" []
    ∷ component "certificate-vault" 4 "certificate-vault" (
        "vaultName" ∷ "ingressReaderPrincipalId" ∷ "certificateImporterPrincipalId"
        ∷ "certificateImporterPrincipalType" ∷ "runnerVirtualNetworkId" ∷ "createPrivateDnsZone"
        ∷ "manageRunnerDnsLink" ∷ "manageTargetDnsLink" ∷ [])
    ∷ component "runner-target-connectivity" 4 "runner-target-connectivity"
        ("runnerVirtualNetworkId" ∷ "manageDnsLink" ∷ [])
    ∷ component "audit-foundation" 8 "audit-foundation" []
    ∷ component "observability" 8 "observability" []
    ∷ component "proxy-foundation" 7 "proxy-foundation" []
    ∷ component "audit" 8 "audit-storage" (
        "storageAccountName" ∷ "virtualNetworkName" ∷ "privateEndpointSubnetName"
        ∷ "logAnalyticsWorkspaceName" ∷ "cmkVaultName" ∷ "cmkKeyName" ∷ "writerPrincipalId"
        ∷ "readerPrincipalId" ∷ "retentionPrincipalId" ∷ "recoveryPrincipalId" ∷ [])
    ∷ component "origin" 9 "edge-origin" (
        "privateLinkServiceName" ∷ "adminPrivateLinkServiceName" ∷ "virtualNetworkName"
        ∷ "ingressSubnetName" ∷ "apiLoadBalancer" ∷ "adminLoadBalancer" ∷ [])
    ∷ component "edge" 9 "edge" (
        "privateOrigin" ∷ "adminPrivateOrigin" ∷ "adminAllowedCidrs" ∷ "logAnalyticsWorkspaceName"
        ∷ "rateLimitPerMinute" ∷ "adminRateLimitPerMinute" ∷ [])
    ∷ []

-- `COMPONENTS.get(name)`
unfoldable pub find_component : String → List Component → Option Component
find_component name [] = none
find_component name (c ∷ cs) = if str_eq c.name name then some c else find_component name cs
