-- ===== src/Deploy/Azure.antt =====
-- `AzureResourceManager` of the deployment script. A client of another subscription is an argument
-- of its calls, and so is what a filter names.
use secure_litellm_on_azure.Base.{
  String, ◌<>◌, Bool, true, false, ◌||◌, List, [], ◌∷◌, ◌==◌, elem, if◌then◌else◌, map,
}
use secure_litellm_on_azure.Base.Text.{contains, lower, strip_right}
use secure_litellm_on_azure.Base.Int.{ℤ}
use secure_litellm_on_azure.Json.{
  Json, str, int, arr, obj, Fields, end, is_null, is_text, items, keys, put,
}
use secure_litellm_on_azure.Fault.{Result, ok, err, type_error, attribute_error, runtime_error}
use secure_litellm_on_azure.Fault
use secure_litellm_on_azure.Deploy.Script.{
  World, Program, ◌>>=◌, lift, ask, attempt, attribute, on_exception, ◌⦂◌, dict, list, text_items,
}
use secure_litellm_on_azure.Deploy.Tools.{path_text, which, or_else}

abbrev openai_user_role_id : String
openai_user_role_id = "5e0bd9bd-7b93-4f28-af87-19fc36ad61bd"

-- `list(answer)`
unfoldable pub elements : Json → Result (List Json)
unfolding items
elements (arr xs) = ok (items xs)
elements _ = err type_error

-- `text.lower()` of an attribute
abbrev role_text : Json → Result String
role_text (str s) = ok s
role_text _ = err attribute_error

-- `resource_id.rstrip("/").lower()`
unfoldable pub normalized : String → String
unfolding lower
normalized id = lower (strip_right (λ c. c == b'/') id)

-- `vmss.identity.user_assigned_identities or {} if vmss.identity else {}`
unfoldable pub identities : Json → Result Fields
unfolding is_null attribute
identities identity =
    if is_null identity
    then ok end
    else Fault.◌>>=◌ (attribute identity "user_assigned_identities")
        λ v. elim v [ obj d ↦ ok d | Json.null ↦ ok end | _ ↦ err type_error ]

-- Whether one of the assignments has the role.
unfoldable pub role_assigned : String → List Json → Result Bool
unfolding attribute lower
role_assigned role_name [] = ok false
role_assigned role_name (assignment ∷ rest) =
    let later = role_assigned role_name rest in
    Fault.◌>>=◌ (attribute assignment "role_definition_id") λ v. Fault.◌>>=◌ (role_text v) λ id.
      if contains (lower id) (lower role_name) || contains id openai_user_role_id
      then ok true
      else later

-- `ManagedCluster(…)`
unfoldable pub managed_cluster : String → Json → ℤ → String → Json
managed_cluster name location node_count vm_size = dict (
    "location" ⦂ location
    ∷ "properties"
      ⦂ dict (
          "dns_prefix" ⦂ str (name <> "-dns")
          ∷ "agent_pool_profiles"
            ⦂ list (
                dict (
                  "name" ⦂ str "nodepool1"
                  ∷ "count" ⦂ int node_count
                  ∷ "vm_size" ⦂ str vm_size
                  ∷ "mode" ⦂ str "System"
                  ∷ [])
                ∷ [])
          ∷ [])
    ∷ "identity" ⦂ dict ("type" ⦂ str "SystemAssigned" ∷ [])
    ∷ "sku" ⦂ dict ("name" ⦂ str "Base" ∷ "tier" ⦂ str "Standard" ∷ [])
    ∷ [])

module _ (world : World) where
  unfoldable pub ensure_resource_group : String → Json → Program Json
  ensure_resource_group name location =
      ask world "resource_groups.create_or_update"
        (str name ∷ dict ("location" ⦂ location ∷ []) ∷ [])

  unfoldable pub ensure_managed_identity : Json → String → Json → Program Json
  unfolding attribute
  ensure_managed_identity name resource_group location = do
    identity ← attempt (ask world "user_assigned_identities.get" (str resource_group ∷ name ∷ [])) (
        on_exception (
          ask world "user_assigned_identities.create_or_update"
            (str resource_group ∷ name ∷ dict ("location" ⦂ location ∷ []) ∷ [])))
    client_id ← lift (attribute identity "client_id")
    principal_id ← lift (attribute identity "principal_id")
    resource_id ← lift (attribute identity "id")
    lift (
        ok (
          dict (
            "client_id" ⦂ client_id
            ∷ "principal_id" ⦂ principal_id
            ∷ "resource_id" ⦂ resource_id
            ∷ [])))

  -- The call that begins the creation includes the wait for its result.
  unfoldable pub ensure_aks_cluster : String → String → Json → ℤ → String → Program Json
  unfolding managed_cluster attribute
  ensure_aks_cluster name resource_group location node_count vm_size = do
    cluster ← attempt (ask world "managed_clusters.get" (str resource_group ∷ str name ∷ [])) (
        on_exception (
          ask world "managed_clusters.begin_create_or_update" (
            str resource_group ∷ str name ∷ managed_cluster name location node_count vm_size ∷ [])))
    node_resource_group ← lift (attribute cluster "node_resource_group")
    fqdn ← lift (attribute cluster "fqdn")
    lift (ok (dict ("node_resource_group" ⦂ node_resource_group ∷ "fqdn" ⦂ fqdn ∷ [])))

  unfoldable pub get_aks_credentials : String → String → Program Json
  get_aks_credentials name resource_group = do
    az ← or_else world (which world "az.cmd") (or_else world (which world "az") (lift (ok "az")))
    ask world "subprocess.run" (
        arr (
          text_items (
            az ∷ "aks" ∷ "get-credentials" ∷ "--name" ∷ name ∷ "--resource-group" ∷ resource_group
            ∷ "--overwrite-existing" ∷ []))
        ∷ [])

  unfoldable pub get_vmss_in_resource_group : Json → Program Json
  unfolding elements attribute
  get_vmss_in_resource_group resource_group = do
    answer ← ask world "virtual_machine_scale_sets.list" (resource_group ∷ [])
    vmss_list ← lift (elements answer)
    lift (elim vmss_list [
      | [] ↦ err (runtime_error ("No VMSS found in resource group: " <> path_text resource_group))
      | vmss ∷ rest ↦ attribute vmss "name"
    ])

  unfoldable pub assign_identity_to_vmss : Json → Json → String → Program (Unit {0})
  unfolding attribute identities normalized keys is_null is_text put
  assign_identity_to_vmss vmss_name resource_group identity_resource_id = do
    vmss ← ask world "virtual_machine_scale_sets.get" (resource_group ∷ vmss_name ∷ [])
    identity ← lift (attribute vmss "identity")
    user_identities ← lift (identities identity)
    if elem (normalized identity_resource_id) (map normalized (keys user_identities))
        then lift (ok tt)
        else (do
          kind ← if is_null identity then lift (ok Json.null) else lift (attribute identity "type")
          updated ← ask world "virtual_machine_scale_sets.begin_update" (
              resource_group
              ∷ vmss_name
              ∷ dict (
                  "identity"
                    ⦂ dict (
                        "type"
                          ⦂ str (
                              if is_text "SystemAssigned" kind
                              then "SystemAssigned, UserAssigned"
                              else "UserAssigned")
                        ∷ "user_assigned_identities"
                          ⦂ obj (put identity_resource_id (obj end) user_identities)
                        ∷ [])
                  ∷ [])
              ∷ [])
          lift (ok tt))

  -- With the first of the definitions of the role.
  unfoldable pub create_assignment : Json → String → Json → List Json → Program Bool
  unfolding attribute
  create_assignment principal_id scope subscription_id [] = lift (ok false)
  create_assignment principal_id scope subscription_id (role ∷ rest) = do
    role_def_id ← lift (attribute role "id")
    assignment_name ← ask world "uuid.uuid4" []
    created ← ask world "role_assignments.create" (
        subscription_id
        ∷ str scope
        ∷ assignment_name
        ∷ dict (
            "role_definition_id" ⦂ role_def_id
            ∷ "principal_id" ⦂ principal_id
            ∷ "principal_type" ⦂ str "ServicePrincipal"
            ∷ [])
        ∷ [])
    lift (ok true)

  unfoldable pub assign_role_on_scope : Json → String → String → Json → Program Bool
  unfolding elements role_assigned create_assignment
  assign_role_on_scope principal_id scope role_name subscription_id = do
    assigned ←
        ask world "role_assignments.list_for_scope"
          (subscription_id ∷ str scope ∷ principal_id ∷ [])
    existing ← lift (elements assigned)
    found ← lift (role_assigned role_name existing)
    if found then lift (ok false) else (do
      defined ← ask world "role_definitions.list" (subscription_id ∷ str scope ∷ str role_name ∷ [])
      role_defs ← lift (elements defined)
      create_assignment principal_id scope subscription_id role_defs)
