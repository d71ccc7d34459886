-- ===== src/Params/Workloads.antt =====
-- The components that build on the platform in `parameters_for` of scripts/customer_migration.py.
use secure_litellm_on_azure.Base.{String, Bool, true, false, ◌&&◌, List, [], ◌∷◌, if◌then◌else◌}
use secure_litellm_on_azure.Json.{Json, null, str, obj, Fields, end, has, put, is_text}
use secure_litellm_on_azure.Fault.{Result, ok, ◌>>=◌, ◌>>◌, require, get_or, index}
use secure_litellm_on_azure.Params.Configured.{configured}
use secure_litellm_on_azure.Params.Platform.{at}

unfoldable pub ingress_role_parameters : Fields → Fields → Result Fields
unfolding at put
ingress_role_parameters config p = do
  platform ← at (obj config) ("parameters" ∷ "platform" ∷ [])
  network ← index platform "stage4Network"
  cluster ← at platform ("stage4Aks" ∷ "name" ∷ [])
  name ← index network "virtualNetworkName"
  ok (put "virtualNetworkName" name (put "aksClusterName" cluster p))

unfoldable pub monitoring_parameters : Fields → Fields → Result Fields
unfolding at put is_text
monitoring_parameters config p = do
  namespace ← at (obj config) ("legacy" ∷ "namespace" ∷ [])
  storage ←
      if is_text "litellm" namespace
      then at (obj config) ("legacy" ∷ "postgresPvc" ∷ [])
      else ok null
  require (is_text "litellm" namespace && is_text "pg-data" storage)
      "Monitoring queries currently require litellm namespace and pg-data PVC; adapt and test queries first"
  cluster ← at (obj config) ("legacy" ∷ "aksClusterName" ∷ [])
  owner ← index (obj config) "ownerEmail"
  ok (put "ownerEmail" owner (put "aksClusterName" cluster p))

-- `all(configured(audit.get(key, "")) for key in keys)`
unfoldable pub all_set : Json → List String → Result Bool
unfolding configured
all_set audit [] = ok true
all_set audit (k ∷ ks) = do
  v ← get_or audit k (str "")
  if configured v then all_set audit ks else ok false

-- `{key: d[key] for key in keys}` put into the parameters
unfoldable pub copy_keys : Json → List String → Fields → Result Fields
unfolding put
copy_keys source [] p = ok p
copy_keys source (k ∷ ks) p = do v ← index source k; copy_keys source ks (put k v p)

abbrev audit_keys : List String
audit_keys = "cmkVaultName" ∷ "cmkKeyName" ∷ "virtualNetworkName" ∷ "privateEndpointSubnetName" ∷ []

unfoldable pub audit_foundation_parameters : Fields → Fields → Result Fields
unfolding all_set copy_keys at put
audit_foundation_parameters config p = do
  sections ← index (obj config) "parameters"
  audit ← get_or sections "audit" (obj end)
  complete ← all_set audit audit_keys
  require complete "Audit Vault/key and network names must be configured"
  copied ← copy_keys audit audit_keys p
  cluster ← at sections ("platform" ∷ "stage4Aks" ∷ "name" ∷ [])
  ok (put "aksClusterName" cluster copied)

unfoldable pub observability_parameters : Fields → Fields → Result Fields
unfolding at put
observability_parameters config p = do
  platform ← at (obj config) ("parameters" ∷ "platform" ∷ [])
  network ← index platform "stage4Network"
  cluster ← at platform ("stage4Aks" ∷ "name" ∷ [])
  workspace ← index platform "logAnalyticsWorkspaceName"
  name ← index network "virtualNetworkName"
  subnet ← index network "privateEndpointSubnetName"
  ok (
      put "privateEndpointSubnetName" subnet (
        put "virtualNetworkName" name
          (put "logAnalyticsWorkspaceName" workspace (put "aksClusterName" cluster p))))

unfoldable pub proxy_foundation_parameters : Fields → Fields → Result Fields
unfolding at has put
proxy_foundation_parameters config p = do
  platform ← at (obj config) ("parameters" ∷ "platform" ∷ [])
  require (has "databaseAccess" config)
      "Proxy foundation requires an explicitly approved bootstrap identity"
  network ← index platform "stage4Network"
  environment ← index (obj config) "environment"
  cluster ← at platform ("stage4Aks" ∷ "name" ∷ [])
  name ← index network "virtualNetworkName"
  subnet ← index network "privateEndpointSubnetName"
  workspace ← index platform "logAnalyticsWorkspaceName"
  principal ← at (obj config) ("databaseAccess" ∷ "migrationPrincipalId" ∷ [])
  let common : Fields = put "bootstrapPrincipalId" principal (
      put "logAnalyticsWorkspaceName" workspace (
        put "privateEndpointSubnetName" subnet (
          put "virtualNetworkName" name
            (put "aksClusterName" cluster (put "environmentName" environment p)))))
  if has "entra" config
      then (do
        entra ← at (obj config) ("entra" ∷ "bootstrapPrincipalId" ∷ [])
        ok (put "entraBootstrapPrincipalId" entra common))
      else ok common
