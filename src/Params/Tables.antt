-- ===== src/Params/Tables.antt =====
-- FRONT_DOOR_PRIVATE_LINK_LOCATIONS and REQUIRED of scripts/customer_migration.py.
use secure_litellm_on_azure.Base.{String, List, [], ◌∷◌, str_eq, if◌then◌else◌}

abbrev pub front_door_locations : List String
front_door_locations =
    "australiaeast" ∷ "brazilsouth" ∷ "canadacentral" ∷ "centralindia" ∷ "centralus" ∷ "chinaeast3"
    ∷ "chinanorth3" ∷ "eastasia" ∷ "eastus" ∷ "eastus2" ∷ "francecentral" ∷ "germanywestcentral"
    ∷ "japaneast" ∷ "koreacentral" ∷ "northeurope" ∷ "norwayeast" ∷ "southafricanorth"
    ∷ "southcentralus" ∷ "southeastasia" ∷ "swedencentral" ∷ "uaenorth" ∷ "uksouth" ∷ "usgovarizona"
    ∷ "usgovtexas" ∷ "usgovvirginia" ∷ "usnateast" ∷ "usnatwest" ∷ "usseceast" ∷ "ussecwest"
    ∷ "westeurope" ∷ "westus2" ∷ "westus3" ∷ []

abbrev subnet_fields : List String
subnet_fields =
    "virtualNetworkName" ∷ "virtualNetworkAddressPrefix" ∷ "privateEndpointSubnetName"
    ∷ "privateEndpointSubnetPrefix" ∷ []

-- `REQUIRED[component]`, for a component that the table has.
unfoldable pub required_of : String → List String
required_of component =
    if str_eq component "network"
    then subnet_fields
    else if str_eq component "backup"
    then "logAnalyticsWorkspaceName" ∷ "backupOwnerPrincipalId" ∷ subnet_fields
    else if str_eq component "runner-connectivity"
    then "runnerVirtualNetworkId" ∷ []
    else if str_eq component "monitoring"
    then "logAnalyticsWorkspaceName" ∷ []
    else if str_eq component "platform"
    then "containerRegistryName" ∷ "logAnalyticsWorkspaceName" ∷ "stage4Network" ∷ "stage4Aks" ∷ []
    else if str_eq component "certificate-vault"
    then "vaultName" ∷ "ingressReaderPrincipalId" ∷ "certificateImporterPrincipalId"
      ∷ "certificateImporterPrincipalType" ∷ "runnerVirtualNetworkId" ∷ "createPrivateDnsZone"
      ∷ "manageRunnerDnsLink" ∷ []
    else if str_eq component "runner-target-connectivity"
    then "runnerVirtualNetworkId" ∷ []
    else if str_eq component "audit"
    then "virtualNetworkName" ∷ "privateEndpointSubnetName" ∷ "logAnalyticsWorkspaceName"
      ∷ "cmkVaultName" ∷ "cmkKeyName" ∷ "writerPrincipalId" ∷ "readerPrincipalId"
      ∷ "retentionPrincipalId" ∷ []
    else if str_eq component "origin"
    then "virtualNetworkName" ∷ "ingressSubnetName" ∷ "apiLoadBalancer" ∷ "adminLoadBalancer" ∷ []
    else if str_eq component "edge"
    then "privateOrigin" ∷ "adminPrivateOrigin" ∷ "adminAllowedCidrs" ∷ "logAnalyticsWorkspaceName"
      ∷ []
    else []
