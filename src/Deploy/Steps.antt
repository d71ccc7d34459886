-- ===== src/Deploy/Steps.antt =====
-- The steps of `main` of the deployment script. What is logged is left out.
use secure_litellm_on_azure.Base.{
  ℕ, zero, suc, String, ◌<>◌, Bool, true, false, ◌&&◌, not, Option, none, some, List, [], ◌∷◌, ltb,
  str_eq, if◌then◌else◌,
}
use secure_litellm_on_azure.Base.Text.{contains, text_length}
use secure_litellm_on_azure.Json.{Json, str, obj, Fields, truthy}
use secure_litellm_on_azure.Fault.{Result, ok, err, system_exit, index, get_or}
use secure_litellm_on_azure.Dns.Settings.{text_part}
use secure_litellm_on_azure.Deploy.Script.{
  World, Program, ◌>>=◌, ◌>>◌, lift, ask, sleep, attempt, on_exception, ◌⦂◌, dict, number,
}
use secure_litellm_on_azure.Deploy.Settings.{DeploySettings}
use secure_litellm_on_azure.Deploy.Config.{extract_resource_name_from_endpoint}
use secure_litellm_on_azure.Deploy.Azure.{
  ensure_resource_group, ensure_managed_identity, ensure_aks_cluster, get_aks_credentials,
  get_vmss_in_resource_group, assign_identity_to_vmss, assign_role_on_scope,
}
use secure_litellm_on_azure.Deploy.Objects.{build_litellm_deployment, build_litellm_service}
use secure_litellm_on_azure.Deploy.Objects.Postgres.{
  build_postgres_deployment, build_postgres_service,
}
use secure_litellm_on_azure.Deploy.Kubernetes.{
  ensure_namespace, apply_configmap, apply_secret, apply_pvc, apply_deployment, apply_service,
}
use secure_litellm_on_azure.Deploy.Kubernetes.Status.{wait_for_deployment, get_pod_logs}

-- `sys.exit(1)` unless the condition holds
abbrev pub exit_unless : Bool → Result (Unit {0})
exit_unless true = ok tt
exit_unless false = err (system_exit 1)

abbrev pub ingress_enabled : DeploySettings → Bool
ingress_enabled settings = not (str_eq settings.litellm_hostname "")

-- A document and its field, as a text.
abbrev pub text_at : Json → String → Program String
text_at document name = do value ← lift (index document name); lift (text_part value)

unfoldable pub database_url : DeploySettings → String
database_url settings =
    "postgresql://"
    <> (settings.pg_user
        <> (":"
            <> (settings.pg_password
                <> ("@postgres."
                    <> (settings.aks_namespace
                        <> (".svc.cluster.local:5432/" <> settings.pg_db))))))

unfoldable pub secret_data : DeploySettings → String → Json → Json
unfolding database_url
secret_data settings master_key client_id = dict (
    "AZURE_CREDENTIAL" ⦂ str "ManagedIdentityCredential"
    ∷ "AZURE_CLIENT_ID" ⦂ client_id
    ∷ "AZURE_SCOPE" ⦂ str settings.azure_scope
    ∷ "AZURE_API_VERSION" ⦂ str settings.azure_api_version
    ∷ "LITELLM_MASTER_KEY" ⦂ str master_key
    ∷ "DATABASE_URL" ⦂ str (database_url settings)
    ∷ "STORE_MODEL_IN_DB" ⦂ str (if settings.store_model_in_db then "true" else "false")
    ∷ [])

module _ (world : World) where
  unfoldable pub generate_master_key : Program String
  unfolding text_part
  generate_master_key = do
    token ← ask world "secrets.token_urlsafe" (number 48 ∷ [])
    text ← lift (text_part token)
    lift (ok ("sk-" <> text))

  -- The master key that the proxy is deployed with.
  unfoldable pub checked_key : DeploySettings → Program String
  unfolding generate_master_key
  checked_key settings = do
    lift (exit_unless (not (ingress_enabled settings && str_eq settings.letsencrypt_email "")))
    key ←
        if not (str_eq settings.litellm_master_key "")
        then lift (ok settings.litellm_master_key)
        else if settings.auto_generate_master_key
        then generate_master_key
        else lift (err (system_exit 1))
    lift (exit_unless (not (ltb (text_length key) 24)))
    lift (ok key)

  -- Steps 1 to 5: the managed identity, attached to the nodes of the cluster.
  unfoldable pub provision : DeploySettings → Fields → Json → String → Program Json
  unfolding ensure_resource_group ensure_managed_identity ensure_aks_cluster get_aks_credentials
      get_vmss_in_resource_group assign_identity_to_vmss text_part truthy
  provision settings cfg region rg_name = do
    configured ← lift (get_or (obj cfg) "managed_identity" Json.null)
    let mi_name = if truthy configured then configured else str settings.mi_name
    created ← ensure_resource_group world rg_name region
    mi_info ← ensure_managed_identity world mi_name rg_name region
    aks_info ←
        ensure_aks_cluster world settings.aks_name rg_name region settings.aks_node_count
          settings.aks_vm_size
    credentials ← get_aks_credentials world settings.aks_name rg_name
    node_group ← lift (index aks_info "node_resource_group")
    vmss_name ← get_vmss_in_resource_group world node_group
    resource_id ← text_at mi_info "resource_id"
    assign_identity_to_vmss world vmss_name node_group resource_id
    lift (ok mi_info)

  -- Step 6 for a resource whose account has been found in its endpoint.
  unfoldable pub grant_role : DeploySettings → Json → String → Json → String → Program (Unit {0})
  unfolding assign_role_on_scope text_part truthy
  grant_role settings mi_info subscription_id aoai aoai_name = do
    aoai_rg ← lift (index aoai "resource_group")
    given ← lift (get_or aoai "subscription_id" Json.null)
    let aoai_sub = if truthy given then given else str subscription_id
    exists ←
        attempt
          (do
            account ← ask world "accounts.get" (aoai_sub ∷ aoai_rg ∷ str aoai_name ∷ [])
            lift (ok true))
          (on_exception (lift (ok false)))
    if not exists then lift (ok tt) else (do
      subscription ← lift (text_part aoai_sub)
      group ← lift (text_part aoai_rg)
      principal_id ← lift (index mi_info "principal_id")
      assigned ←
          assign_role_on_scope world principal_id
            ("/subscriptions/"
              <> (subscription
                  <> ("/resourceGroups/"
                      <> (group
                          <> ("/providers/Microsoft.CognitiveServices/accounts/" <> aoai_name)))))
            settings.openai_role_name aoai_sub
      lift (ok tt))

  -- One round of the loop of step 6, with the name in the endpoint.
  unfoldable pub grant_named :
      DeploySettings → Json → String → Json → Option String → Program (Unit {0})
  unfolding grant_role
  grant_named settings mi_info subscription_id aoai none = do
    name ← lift (index aoai "name")
    lift (ok tt)
  grant_named settings mi_info subscription_id aoai (some aoai_name) =
      grant_role settings mi_info subscription_id aoai aoai_name

  unfoldable pub grant_on : DeploySettings → Json → String → Json → Program (Unit {0})
  unfolding grant_named extract_resource_name_from_endpoint text_part
  grant_on settings mi_info subscription_id aoai = do
    value ← lift (get_or aoai "endpoint" (str ""))
    endpoint ← lift (text_part value)
    grant_named settings mi_info subscription_id aoai (extract_resource_name_from_endpoint endpoint)

  unfoldable pub grant_roles : DeploySettings → Json → String → List Json → Program (Unit {0})
  unfolding grant_on
  grant_roles settings mi_info subscription_id [] = lift (ok tt)
  grant_roles settings mi_info subscription_id (aoai ∷ rest) =
      grant_on settings mi_info subscription_id aoai
      >> grant_roles settings mi_info subscription_id rest

  unfoldable pub deploy_postgres : DeploySettings → String → Program (Unit {0})
  unfolding ensure_namespace apply_configmap apply_pvc apply_deployment apply_service
      wait_for_deployment build_postgres_deployment build_postgres_service
  deploy_postgres settings config_yaml = do
    let namespace = settings.aks_namespace
    ensure_namespace world namespace
    apply_configmap world namespace "litellm-config" (dict ("config.yaml" ⦂ str config_yaml ∷ []))
    apply_pvc world namespace "pg-data" settings.pg_storage settings.expand_existing_pg_pvc
    apply_deployment world namespace
        (build_postgres_deployment settings.pg_user settings.pg_password settings.pg_db)
    apply_service world namespace build_postgres_service
    ready ← wait_for_deployment world namespace "postgres" 120
    lift (exit_unless ready)

  unfoldable pub deploy_litellm : DeploySettings → String → String → Json → Program (Unit {0})
  unfolding secret_data apply_secret apply_deployment apply_service wait_for_deployment
      build_litellm_deployment build_litellm_service
  deploy_litellm settings config_yaml master_key mi_info = do
    let namespace = settings.aks_namespace
    client_id ← lift (index mi_info "client_id")
    let contents = secret_data settings master_key client_id
    apply_secret world namespace "litellm-env" contents
    apply_deployment world namespace (
        build_litellm_deployment settings.litellm_image (world.text_digest config_yaml)
          (world.json_digest contents))
    apply_service world namespace
        (build_litellm_service (if ingress_enabled settings then "ClusterIP" else "LoadBalancer"))
    ready ← wait_for_deployment world namespace "litellm-mi-proxy" 600
    lift (exit_unless ready)

  -- `for i in range(attempts)`: whether Uvicorn has been seen to run
  unfoldable pub await_start : String → ℕ → Program Bool
  unfolding get_pod_logs text_part
  await_start namespace zero = lift (ok false)
  await_start namespace (suc attempts) = do
    logged ← get_pod_logs world namespace "litellm-mi-proxy" 10
    logs ← lift (text_part logged)
    if contains logs "Uvicorn running"
        then lift (ok true)
        else (do sleep 5; await_start namespace attempts)
