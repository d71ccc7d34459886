-- ===== src/Params/Platform.antt =====
-- The components bootstrap, legacy-logging and platform in `parameters_for` of
-- scripts/customer_migration.py.
use secure_litellm_on_azure.Base.{
  ℕ, String, true, false, not, List, [], ◌∷◌, str_eq, leb, if◌then◌else◌,
}
use secure_litellm_on_azure.Json.{
  Json, null, bool, str, obj, Fields, end, get, has, put, truthy, json_eq,
}
use secure_litellm_on_azure.Fault.{Result, ok, err, type_error, ◌>>=◌, ◌>>◌, require, get_or, index}
use secure_litellm_on_azure.Gates.Policy.{one_of, deployment_mode}
use secure_litellm_on_azure.Params.Configured.{configured}

-- `value[k1][k2]...`
unfoldable pub at : Json → List String → Result Json
at value [] = ok value
at value (k ∷ ks) = do inner ← index value k; at inner ks

unfoldable pub bootstrap_parameters : Fields → Fields → Result Fields
unfolding get put truthy configured at
bootstrap_parameters config p = do
  sections ← index (obj config) "parameters"
  platform ← get_or sections "platform" (obj end)
  logging ← get_or sections "backup" platform
  own ← get_or (obj p) "logAnalyticsWorkspaceName" null
  workspace ← if truthy own then ok own else get_or logging "logAnalyticsWorkspaceName" (str "")
  require (configured workspace) "Target Log Analytics workspace name is required for bootstrap"
  group ← at (obj config) ("target" ∷ "resourceGroup" ∷ [])
  ok (put "logAnalyticsWorkspaceName" workspace (put "resourceGroupName" group p))

unfoldable pub legacy_logging_parameters : Fields → Fields → Result Fields
unfolding put configured
legacy_logging_parameters config p = do
  sections ← index (obj config) "parameters"
  monitoring ← get_or sections "monitoring" (obj end)
  workspace ← get_or monitoring "logAnalyticsWorkspaceName" (str "")
  require (configured workspace) "Legacy monitoring workspace name is required"
  ok (put "logAnalyticsWorkspaceName" workspace p)

-- The virtual network of the runner and whether its DNS links are managed.
unfoldable pub runner_links : Json → Result (Json × Json)
unfolding truthy
runner_links (obj d) = do
  network ← get_or (obj d) "runnerVirtualNetworkId" (str "")
  managed ← if truthy network then get_or (obj d) "manageDnsLink" (bool true) else ok (bool false)
  ok (network, managed)
runner_links _ = ok (str "", bool false)

-- Key Vault DNS belongs to the component certificate-vault where that is configured.
unfoldable pub vault_dns : Json → Fields → Result Fields
unfolding has put truthy
vault_dns (obj sections) p = if has "certificate-vault" sections then owned else ok p
  where
    owned : Result Fields
    owned = do
      own ← get_or (obj p) "createStage5KeyVaultPrivateDnsZone" (bool false)
      require (not (truthy own))
          "certificate-vault owns Key Vault DNS; set createStage5KeyVaultPrivateDnsZone=false"
      ok (
          put "configureStage5KeyVaultDnsLink" (bool false)
            (put "createStage5KeyVaultPrivateDnsZone" (bool false) p))
vault_dns _ p = err type_error

unfoldable pub bootstrap_principal : Fields → Fields → Result Fields
unfolding has put at
bootstrap_principal config p =
    if has "databaseAccess" config
    then (do
      principal ← at (obj config) ("databaseAccess" ∷ "migrationPrincipalId" ∷ [])
      ok (put "bootstrapPrincipalId" principal p))
    else ok p

unfoldable pub stage5_parameters : Fields → Fields → Result Fields
unfolding has put runner_links vault_dns bootstrap_principal
stage5_parameters config p = do
  require (has "stage5Data" p) "Stage 5 database configuration is required"
  sections ← index (obj config) "parameters"
  runner ← get_or sections "runner-target-connectivity" (obj end)
  links ← runner_links runner
  owned ←
      vault_dns sections (
        put "manageStage5RunnerDnsLinks" (links.1) (put "stage5RunnerVirtualNetworkId" (links.0) p))
  bootstrap_principal config owned

unfoldable pub check_cluster_name : Fields → Fields → Result (Unit {0})
unfolding deployment_mode at json_eq
check_cluster_name config p = do
  mode ← deployment_mode config
  if str_eq mode "migration"
      then (do
        name ← at (obj p) ("stage4Aks" ∷ "name" ∷ [])
        legacy ← at (obj config) ("legacy" ∷ "aksClusterName" ∷ [])
        require (not (json_eq name legacy)) "New AKS must not reuse the legacy name")
      else ok tt

unfoldable pub platform_parameters : Fields → ℕ → Fields → Result Fields
unfolding one_of stage5_parameters check_cluster_name put
platform_parameters config stage p = do
  naming ← get_or (obj p) "stage4RoleAssignmentNaming" (str "principal-id")
  known ← one_of ("principal-id" ∷ "resource-id" ∷ []) naming
  require known "Invalid Stage 4 role assignment naming mode"
  later ← if leb 5 stage then stage5_parameters config p else ok p
  check_cluster_name config later
  environment ← index (obj config) "environment"
  ok (
      put "containerRegistryPublicNetworkAccess" (str "Disabled") (
        put "deployStage5" (bool (leb 5 stage)) (
          put "deployStage4" (bool (leb 4 stage))
            (put "deployContainerRegistry" (bool true) (put "environmentName" environment later)))))
