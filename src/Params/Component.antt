-- ===== src/Params/Component.antt =====
-- `parameters_for` of scripts/customer_migration.py.
pub mod Closed
pub mod Private
pub mod Staged
use secure_litellm_on_azure.Base.{
  ℕ, String, ◌<>◌, Bool, true, false, ◌&&◌, ◌||◌, none, some, List, [], ◌∷◌, elem, subset, str_eq,
  ltb, ◌==◌, if◌then◌else◌,
}
use secure_litellm_on_azure.Json.{
  Json, bool, str, arr, obj, Items, nil, cons, Fields, end, field, put, pop, pop_all, keys,
}
use secure_litellm_on_azure.Fault.{
  Result, ok, err, key_error, ◌>>=◌, ◌>>◌, require, get_or, index, put_item,
}
use secure_litellm_on_azure.Gates.Policy.{member}
use secure_litellm_on_azure.Gates.Stages.{active_stages}
use secure_litellm_on_azure.Gates.Scope.{as_dict}
use secure_litellm_on_azure.Gates.Components.{Component, components, find_component}
use secure_litellm_on_azure.Runner.Connectivity.{TextHash, connectivity_parameters}
use secure_litellm_on_azure.Runner.Target.{target_connectivity_settings}
use secure_litellm_on_azure.Runner.Vault.{certificate_vault_parameters}
use secure_litellm_on_azure.Params.Tables.{required_of}
use secure_litellm_on_azure.Params.Configured.{configured}
use secure_litellm_on_azure.Params.Access.{
  Networks, admin_source_cidrs, front_door_private_link_location,
}
use secure_litellm_on_azure.Params.Platform.{
  bootstrap_parameters, legacy_logging_parameters, platform_parameters,
}
use secure_litellm_on_azure.Params.Workloads.{
  ingress_role_parameters, monitoring_parameters, copy_keys, audit_foundation_parameters,
  observability_parameters, proxy_foundation_parameters,
}

-- `stage in ({3, 4, 5} if component == "platform" else {first_stage})`
unfoldable pub in_stage : String → ℕ → ℕ → Bool
in_stage component first stage =
    if str_eq component "platform"
    then (stage == 3) || (stage == 4) || (stage == 5)
    else stage == first

-- The customer's own parameters of the component, for the stage.
unfoldable pub own_parameters : Fields → ℕ → String → Result Fields
unfolding as_dict pop pop_all
own_parameters config stage component = do
  sections ← index (obj config) "parameters"
  values ← get_or sections component (obj end)
  d ← as_dict values
  let platform = str_eq component "platform"
  let below5 : Fields = if platform && ltb stage 5 then pop "stage5Data" d else d
  ok (
      if platform && ltb stage 4
      then pop "stage4RoleAssignmentNaming" (pop "azureOpenAIConnections" below5)
      else below5)

-- `parameters[name]["privateLinkLocation"] = ...`
unfoldable pub linked_origin : String → Fields → Result Fields
unfolding front_door_private_link_location put_item put
linked_origin name p = do
  origin ← index (obj p) name
  location ← index origin "privateLinkLocation"
  supported ← front_door_private_link_location location
  changed ← put_item "privateLinkLocation" supported origin
  ok (put name changed p)

-- `{key: {"value": value} for key, value in parameters.items()}`
unfoldable pub wrapped : Fields → Fields
wrapped end = end
wrapped (field k v rest) = field k (obj (field "value" v end)) (wrapped rest)

unfoldable pub document_of : Fields → Json
unfolding wrapped
document_of parameters = obj (
    field "$schema"
      (str "https://schema.management.azure.com/schemas/2019-04-01/deploymentParameters.json#")
      (field "contentVersion" (str "1.0.0.0") (field "parameters" (obj (wrapped parameters)) end)))

unfoldable pub texts_value : List String → Json
texts_value texts = arr (go texts)
  where
    go : List String → Items
    go [] = nil
    go (s ∷ ss) = cons (str s) (go ss)

-- `parameters["location"] = ...`
unfoldable pub located : Fields → String → Fields → Result Fields
unfolding put
located config component p =
    if elem component ("edge" ∷ "aks-ingress-role" ∷ [])
    then ok p
    else (do location ← index (obj config) "location"; ok (put "location" location p))

-- `parameters["tags"] = ...`
unfoldable pub with_tags : Fields → String → Fields → Result Fields
unfolding put
with_tags config component p = if str_eq component "aks-ingress-role" then ok p else (do
  owner ← index (obj config) "ownerEmail"
  environment ← index (obj config) "environment"
  ok (
      put "tags"
        (obj (
          field "owner" owner (
            field "environment" environment
              (field "workload" (str "litellm") (field "managedBy" (str "bicep") end)))))
        p))

module _ (networks : Networks) (hash : TextHash) where
  unfoldable pub edge_parameters : Fields → Fields → Result Fields
  unfolding admin_source_cidrs linked_origin texts_value put
  edge_parameters config p = do
    allowed ← index (obj p) "adminAllowedCidrs"
    cidrs ← admin_source_cidrs networks allowed
    private_origin ← linked_origin "privateOrigin" (put "adminAllowedCidrs" (texts_value cidrs) p)
    both ← linked_origin "adminPrivateOrigin" private_origin
    environment ← index (obj config) "environment"
    domain ← index (obj config) "baseDomain"
    ok (
        put "wafMode" (str "Detection") (
          put "baseDomain" domain (
            put "environmentName" environment (
              put "enableAdminTraffic" (bool false)
                (put "enableApiTraffic" (bool false) (put "deployEdge" (bool true) both))))))

  unfoldable pub target_connectivity_parameters : Fields → Result Fields
  unfolding copy_keys target_connectivity_settings
  target_connectivity_parameters config = do
    settings ← target_connectivity_settings hash config
    copy_keys (obj settings) ("runnerVirtualNetworkId" ∷ "manageDnsLink" ∷ []) end

  -- What each component adds to, or takes instead of, its own parameters.
  unfoldable pub component_parameters : Fields → ℕ → String → Fields → Result Fields
  unfolding bootstrap_parameters legacy_logging_parameters platform_parameters
      ingress_role_parameters monitoring_parameters audit_foundation_parameters
      observability_parameters proxy_foundation_parameters edge_parameters
      target_connectivity_parameters connectivity_parameters certificate_vault_parameters put
  component_parameters config stage component p =
      if str_eq component "bootstrap"
      then bootstrap_parameters config p
      else if str_eq component "legacy-logging"
      then legacy_logging_parameters config p
      else if str_eq component "platform"
      then platform_parameters config stage p
      else if str_eq component "backup"
      then (do owner ← index (obj config) "ownerEmail"; ok (put "backupOwnerUpn" owner p))
      else if str_eq component "aks-ingress-role"
      then ingress_role_parameters config p
      else if str_eq component "runner-connectivity"
      then connectivity_parameters hash config
      else if str_eq component "certificate-vault"
      then certificate_vault_parameters config
      else if str_eq component "runner-target-connectivity"
      then target_connectivity_parameters config
      else if str_eq component "monitoring"
      then monitoring_parameters config p
      else if str_eq component "audit-foundation"
      then audit_foundation_parameters config p
      else if str_eq component "observability"
      then observability_parameters config p
      else if str_eq component "proxy-foundation"
      then proxy_foundation_parameters config p
      else if str_eq component "audit"
      then ok (put "deployAuditStorage" (bool true) p)
      else if str_eq component "origin"
      then ok (put "deployPrivateOrigin" (bool true) p)
      else if str_eq component "edge"
      then edge_parameters config p
      else ok p

  -- The parameters before they are wrapped into a document.
  unfoldable pub final_parameters : Fields → ℕ → String → Result Fields
  unfolding own_parameters required_of configured component_parameters located with_tags keys
  final_parameters config stage component = do
    own ← own_parameters config stage component
    require (subset (required_of component) (keys own) && configured (obj own))
        "Component configuration is missing or contains placeholders"
    complete ← component_parameters config stage component own
    placed ← located config component complete
    with_tags config component placed

  -- The path of the template from the repository's root, and the parameter document.
  -- What follows the choice of a component that there is.
  unfoldable pub document_for : Fields → ℕ → String → Component → Result (String × Json)
  unfolding in_stage final_parameters document_of
  document_for config stage component c = do
    require (in_stage component c.stage stage) "Component does not belong to the selected stage"
    parameters ← final_parameters config stage component
    ok ("infra/" <> c.template <> "/main.bicep", document_of parameters)

  unfoldable pub parameters_for : Fields → ℕ → String → Result (String × Json)
  unfolding active_stages member find_component document_for
  parameters_for config stage component = do
    active ← active_stages config
    require (member stage active) "Stage does not apply to the selected deployment mode"
    elim (find_component component components) as (λ _. Result (String × Json)) [
      | none ↦ (require false "Select an IaC component" >> err (key_error component))
      | some c ↦ document_for config stage component c
    ]
