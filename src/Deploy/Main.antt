-- ===== src/Deploy/Main.antt =====
-- `main` of the deployment script, from the document of its configuration.
pub mod Ready
use secure_litellm_on_azure.Base.{
  ℕ, zero, suc, ◌/◌, String, ◌<>◌, Bool, true, false, ◌&&◌, not, Option, none, some, List, [], ◌∷◌,
  ltb, str_eq, if◌then◌else◌,
}
use secure_litellm_on_azure.Base.Text.{contains, text_length}
use secure_litellm_on_azure.Base.Int.{pos_part}
use secure_litellm_on_azure.Json.{Json, str, obj, Fields, get, put, truthy}
use secure_litellm_on_azure.Fault.{
  Result, ok, err, type_error, attribute_error, system_exit, index, get_or,
}
use secure_litellm_on_azure.Runtime.Login.{Env}
use secure_litellm_on_azure.Dns.Settings.{text_part}
use secure_litellm_on_azure.Deploy.Script.{
  World, Program, ◌>>=◌, ◌>>◌, lift, ask, sleep, attempt, attribute, on_exception, ◌⦂◌, dict, list,
  number,
}
use secure_litellm_on_azure.Deploy.Settings.{DeploySettings, default_config}
use secure_litellm_on_azure.Deploy.Config.{
  load_config, each, extract_resource_name_from_endpoint, generate_litellm_config,
}
use secure_litellm_on_azure.Deploy.Tools.{
  path_text, get_subscription_id, install_ingress_nginx, install_cert_manager,
}
use secure_litellm_on_azure.Deploy.Azure.{
  ensure_resource_group, ensure_managed_identity, ensure_aks_cluster, get_aks_credentials,
  get_vmss_in_resource_group, assign_identity_to_vmss, assign_role_on_scope,
}
use secure_litellm_on_azure.Deploy.Objects.{
  build_litellm_deployment, build_litellm_service, build_litellm_ingress,
}
use secure_litellm_on_azure.Deploy.Objects.Postgres.{
  build_postgres_deployment, build_postgres_service,
}
use secure_litellm_on_azure.Deploy.Kubernetes.{
  ensure_namespace, apply_configmap, apply_secret, apply_pvc, apply_deployment, apply_service,
  apply_ingress, apply_cluster_issuer,
}
use secure_litellm_on_azure.Deploy.Kubernetes.Status.{
  wait_for_deployment, get_pod_logs, get_service_external_ip,
}
use secure_litellm_on_azure.Deploy.Steps.{
  exit_unless, ingress_enabled, text_at, checked_key, provision, grant_roles, deploy_postgres,
  deploy_litellm, await_start,
}

-- What the steps up to PostgreSQL leave for the release.
pub record Prepared : Type 0 where
  pub settings : DeploySettings
  pub cfg : Fields
  pub config_yaml : String
  pub master_key : String
  pub mi_info : Json

module _ (world : World) where
  -- `resp.ok` of a request; an exception is no success
  abbrev posted : String → String → Json → Program Bool
  posted url master_key payload =
      attempt
        (do
          resp ← ask world "requests.post" (
              str url
              ∷ dict (
                  "Authorization" ⦂ str ("Bearer " <> master_key)
                  ∷ "Content-Type" ⦂ str "application/json"
                  ∷ [])
              ∷ payload
              ∷ number 60
              ∷ [])
          success ← lift (attribute resp "ok")
          lift (ok (truthy success)))
        (on_exception (lift (ok false)))

  unfoldable pub run_smoke_test : String → String → String → String → Program Bool
  unfolding truthy attribute
  run_smoke_test base_url master_key model_alias azure_api_version = do
    let payload = dict (
        "model" ⦂ str model_alias
        ∷ "messages"
          ⦂ list (dict ("role" ⦂ str "user" ∷ "content" ⦂ str "reply only: ok" ∷ []) ∷ [])
        ∷ "max_tokens" ⦂ number 32
        ∷ [])
    openai_style ← posted (base_url <> "/v1/chat/completions") master_key payload
    let version = if str_eq azure_api_version "" then "" else "?api-version=" <> azure_api_version
    let azure_url =
        base_url <> ("/openai/deployments/" <> (model_alias <> ("/chat/completions" <> version)))
    if openai_style then posted azure_url master_key payload else lift (ok false)

  -- Step 9 with a host name: the base URL and the address of the controller.
  unfoldable pub expose_ingress : DeploySettings → Program (String × Json)
  unfolding install_ingress_nginx install_cert_manager apply_cluster_issuer apply_ingress
      build_litellm_ingress get_service_external_ip
  expose_ingress settings = do
    nginx ← install_ingress_nginx world
    manager ← install_cert_manager world
    apply_cluster_issuer world "letsencrypt-prod" settings.letsencrypt_email
    apply_ingress world settings.aks_namespace (
        build_litellm_ingress settings.litellm_hostname settings.aks_namespace
          settings.ingress_proxy_body_size settings.ingress_proxy_buffering
          settings.ingress_proxy_read_timeout settings.ingress_proxy_send_timeout)
    ingress_ip ← get_service_external_ip world "ingress-nginx-controller" 300 "ingress-nginx"
    lift (ok ("https://" <> settings.litellm_hostname, ingress_ip))

  -- Step 9 without one, and the smoke test of step 10.
  unfoldable pub expose_balancer : DeploySettings → Fields → String → Program (String × Json)
  unfolding get_service_external_ip run_smoke_test truthy each text_part
  expose_balancer settings cfg master_key = do
    external_ip ← get_service_external_ip world "litellm-mi-proxy" 150 settings.aks_namespace
    let base_url =
        if truthy external_ip then "http://" <> (path_text external_ip <> ":4000") else "(pending)"
    if settings.run_smoke_test && truthy external_ip
        then (do
          listed ← lift (index (obj cfg) "deployment_list")
          deployments ← lift (each type_error listed)
          first ← elim deployments [
            | [] ↦ lift (err type_error)
            | deployment ∷ rest ↦ lift (ok deployment)
          ]
          model_alias ← text_at first "deployment_name"
          sleep 10
          passed ← run_smoke_test base_url master_key model_alias settings.azure_api_version
          lift (exit_unless passed)
          lift (ok (base_url, Json.null)))
        else lift (ok (base_url, Json.null))

  -- From the Secret on, once PostgreSQL is ready: the base URL and the address of the Ingress.
  unfoldable pub release : Prepared → Program (String × Json)
  unfolding deploy_litellm await_start expose_ingress expose_balancer
  release p = do
    deploy_litellm world p.settings p.config_yaml p.master_key p.mi_info
    started ←
        await_start world p.settings.aks_namespace
          (pos_part p.settings.litellm_startup_wait_seconds / 5)
    if ingress_enabled p.settings
        then expose_ingress p.settings
        else expose_balancer p.settings p.cfg p.master_key

  -- The steps up to PostgreSQL.
  unfoldable pub prepare : Env → Json → Program Prepared
  unfolding default_config load_config checked_key get_subscription_id provision each grant_roles
      generate_litellm_config deploy_postgres text_part
  prepare environ document = do
    settings ← lift (default_config environ)
    cfg ← lift (load_config document)
    region ← lift (index (obj cfg) "region")
    rg_name ← text_at (obj cfg) "resource_group"
    master_key ← checked_key world settings
    subscription_id ← get_subscription_id world environ
    mi_info ← provision world settings cfg region rg_name
    listed ← lift (index (obj cfg) "azure-openai-list")
    resources ← lift (each attribute_error listed)
    grant_roles world settings mi_info subscription_id resources
    litellm_config ← lift (generate_litellm_config cfg settings)
    let config_yaml = world.yaml_dump litellm_config
    written ← ask world "write" (str "litellm.config.yaml" ∷ str config_yaml ∷ [])
    deploy_postgres world settings config_yaml
    lift (
        ok (record {
          settings = settings;
          cfg = cfg;
          config_yaml = config_yaml;
          master_key = master_key;
          mi_info = mi_info;
        }))

  -- What `main` reports.
  unfoldable pub main : Env → Json → Program (String × Json)
  unfolding prepare release
  main environ document = do prepared ← prepare environ document; release prepared
