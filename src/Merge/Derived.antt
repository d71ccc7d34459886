-- ===== src/Merge/Derived.antt =====
-- `derived_values` of local_execution/merge_config.py: placeholder values that the configuration
-- already holds.
use secure_litellm_on_azure.Base.{String, Bool, false, ◌&&◌, not, str_eq, if◌then◌else◌}
use secure_litellm_on_azure.Base.Text.{starts, drop_text, take_text, contains, hex_text}
use secure_litellm_on_azure.Json.{Json, null, str, obj, Fields, end, field, truthy, is_text, update}
use secure_litellm_on_azure.Fault.{Result, ok, ◌>>=◌, get_or}

-- `value.get(key, {})`
abbrev section : Json → String → Result Json
section value key = get_or value key (obj end)

-- `value.get(key)`
abbrev value_of : Json → String → Result Json
value_of value key = get_or value key null

-- `a or b or c`, where only the values that are needed are looked up
unfoldable pub first_truthy : Json → Result Json → Result Json
unfolding truthy
first_truthy a rest = if truthy a then ok a else rest

-- `re.fullmatch(r"pre-change/([0-9a-f]{32})\.dump", text)`, and its group
unfoldable pub backup_id : Json → Json
backup_id (str s) =
    let id = take_text 32 (drop_text 11 s) in
    if starts s "pre-change/" && hex_text 32 id && str_eq (drop_text 43 s) ".dump"
    then str id
    else null
backup_id _ = null

unfoldable pub sha256_text : Json → Json
sha256_text (str s) = if hex_text 64 s then str s else null
sha256_text _ = null

-- `isinstance(value, str) and value and "REPLACE_" not in value`
unfoldable pub usable : Json → Bool
usable (str s) = not (str_eq s "") && not (contains s "REPLACE_")
usable _ = false

unfoldable pub usable_fields : Fields → Fields
unfolding usable
usable_fields end = end
usable_fields (field k v rest) =
    let more = usable_fields rest in if usable v then field k v more else more

unfoldable pub workspace_value : Json → Json → Json → Result Json
unfolding first_truthy
workspace_value platform backup bootstrap = do
  a ← value_of platform "logAnalyticsWorkspaceName"
  first_truthy a (do
    b ← value_of backup "logAnalyticsWorkspaceName"
    first_truthy b (value_of bootstrap "logAnalyticsWorkspaceName"))

unfoldable pub network_value : Json → Json → Json → Result Json
unfolding first_truthy
network_value platform backup network = do
  stage4 ← section platform "stage4Network"
  a ← value_of stage4 "virtualNetworkName"
  first_truthy a (do
    b ← value_of backup "virtualNetworkName"
    first_truthy b (value_of network "virtualNetworkName"))

-- The values of the database administrator, by the type of the principal.
unfoldable pub administrator_values : Json → Json → Result Fields
unfolding is_text
administrator_values stage5 profile = do
  kind ← value_of stage5 "postgresqlEntraAdministratorPrincipalType"
  object_id ← value_of stage5 "postgresqlEntraAdministratorObjectId"
  name ← value_of stage5 "postgresqlEntraAdministratorPrincipalName"
  if is_text "Group" kind
      then ok (
          field "REPLACE_PG_ADMIN_GROUP_OBJECT_ID" object_id
            (field "REPLACE_PG_ADMIN_GROUP_NAME" name end))
      else if is_text "ServicePrincipal" kind
      then (do
        client_id ← value_of profile "clientId"
        ok (
            field "REPLACE_DATABASE_ADMIN_UAMI_CLIENT_ID" client_id (
              field "REPLACE_DATABASE_ADMIN_UAMI_PRINCIPAL_ID" object_id
                (field "REPLACE_DATABASE_ADMIN_UAMI_NAME" name end))))
      else ok end

unfoldable pub derived_values : Fields → Result Fields
unfolding backup_id sha256_text usable_fields workspace_value network_value administrator_values
    update
derived_values config = do
  parameters ← section (obj config) "parameters"
  platform ← section parameters "platform"
  stage5 ← section platform "stage5Data"
  backup ← section parameters "backup"
  network ← section parameters "network"
  bootstrap ← section parameters "bootstrap"
  certificate ← section parameters "certificate-vault"
  local ← section (obj config) "localExecution"
  host ← section local "executionHost"
  runtime_inputs ← section local "runtimeInputs"
  authentication ← section local "authentication"
  database_profile ← section authentication "database"
  backup_blob ← get_or runtime_inputs "backupBlob" (str "")
  backup_sha256 ← get_or runtime_inputs "backupSha256" (str "")
  azure ← section (obj config) "azure"
  subscription ← value_of azure "subscriptionId"
  location ← value_of (obj config) "location"
  base_domain ← value_of (obj config) "baseDomain"
  workspace ← workspace_value platform backup bootstrap
  vnet ← network_value platform backup network
  runner ← value_of host "virtualNetworkId"
  registry ← value_of platform "containerRegistryName"
  vault ← value_of certificate "vaultName"
  sku ← value_of stage5 "postgresqlSkuName"
  access ← section (obj config) "databaseAccess"
  principal ← value_of access "migrationPrincipalId"
  administrator ← administrator_values stage5 database_profile
  ok (
      usable_fields (
        update
          (field "REPLACE_SUBSCRIPTION_ID" subscription (
            field "REPLACE_AZURE_REGION" location (
              field "REPLACE_CUSTOMER_BASE_DOMAIN" base_domain (
                field "REPLACE_TARGET_LOG_WORKSPACE" workspace (
                  field "REPLACE_TARGET_VNET" vnet (
                    field "REPLACE_RUNNER_VNET_RESOURCE_ID" runner (
                      field "REPLACE_GLOBALLY_UNIQUE_ACR_NAME" registry (
                        field "REPLACE_CERTIFICATE_VAULT_NAME" vault (
                          field "REPLACE_GLOBALLY_UNIQUE_CERTIFICATE_VAULT_NAME" vault (
                            field "REPLACE_SUPPORTED_PG_SKU" sku (
                              field "REPLACE_LOCAL_OPERATOR_UAMI_PRINCIPAL_ID" principal (
                                field "REPLACE_32_HEX" (backup_id backup_blob) (
                                  field "REPLACE_64_HEX_SHA256" (sha256_text backup_sha256)
                                    end)))))))))))))
          administrator))
