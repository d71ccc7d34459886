-- ===== src/Examples/Deploy.antt =====
-- Runs of the deployment script.
use secure_litellm_on_azure.Base.{
  ℕ, ◌+◌, ◌*◌, ◌≤◌, ◌≡◌, ◌⊎◌, refl, true, false, none, some, [], ◌∷◌, any, All, str_eq,
  if◌then◌else◌, arith,
}
use secure_litellm_on_azure.Base.Int.{pos, negsuc}
use Prim.Native.Nat.{Ordering}
use secure_litellm_on_azure.Json.{bool, Json, str, obj, arr, Fields, nil, cons, get}
use secure_litellm_on_azure.Fault.{ok, err, value_error, system_exit, out_of_fuel, index}
use secure_litellm_on_azure.Runtime.Login.{Env}
use secure_litellm_on_azure.Calls.{continue}
use secure_litellm_on_azure.Calls.Logic.{Ends}
use secure_litellm_on_azure.Deploy.Script.{
  Call, asked, timed, slept, History, World, Ticks, dict, entries, number, ◌⦂◌,
}
use secure_litellm_on_azure.Deploy.Settings.{DeploySettings, int_of, parse_affinity_checks}
use secure_litellm_on_azure.Deploy.Config.{
  extract_resource_name_from_endpoint, model_document, config_document, generate_litellm_config,
}
use secure_litellm_on_azure.Deploy.Config.Listed.{Generated, generate_litellm_config-Generated}
use secure_litellm_on_azure.Deploy.Kubernetes.{attributes, apply_secret, apply_pvc}
use secure_litellm_on_azure.Deploy.Kubernetes.Status.{wait_for_deployment}
use secure_litellm_on_azure.Deploy.Kubernetes.Status.Ended.{wait_for_deployment-ends}
use secure_litellm_on_azure.Deploy.Kubernetes.Salted.{KeepsSalt, apply_secret-KeepsSalt}
use secure_litellm_on_azure.Deploy.Kubernetes.Expanded.{is_resize, Larger, apply_pvc-Larger}
use secure_litellm_on_azure.Deploy.Still.{is_release}
use secure_litellm_on_azure.Deploy.Still.Awaited.{Seen}
use secure_litellm_on_azure.Deploy.Main.{release, prepare, main}
use secure_litellm_on_azure.Deploy.Main.Ready.{main-Ready}

negative_int : int_of " -1_2 " ≡ ok (negsuc 11)
unfolding int_of
negative_int = refl

no_int : int_of "1__2" ≡ err (value_error "invalid literal for int() with base 10")
unfolding int_of
no_int = refl

checks_once :
    parse_affinity_checks "session_affinity, ,session_affinity" ≡ ok ("session_affinity" ∷ [])
unfolding parse_affinity_checks
checks_once = refl

resource_name : extract_resource_name_from_endpoint "https://one.openai.azure.com/" ≡ some "one"
unfolding extract_resource_name_from_endpoint
resource_name = refl

-- An object that serves for each answer: a workload that is not ready, a Secret and a claim.
abbrev held : Fields
held = entries ("LITELLM_SALT_KEY" ⦂ str "c2FsdA==" ∷ [])

abbrev pod : Json
pod = dict (
    "metadata" ⦂ dict ("name" ⦂ str "pod" ∷ [])
    ∷ "status" ⦂ dict ("phase" ⦂ str "Running" ∷ [])
    ∷ [])

abbrev object : ℕ → Json
object ready = dict (
    "id" ⦂ str "/identities/one"
    ∷ "name" ⦂ str "vmss"
    ∷ "ok" ⦂ bool true
    ∷ "items" ⦂ arr (cons pod nil)
    ∷ "data" ⦂ obj held
    ∷ "metadata" ⦂ dict ("resource_version" ⦂ str "7" ∷ [])
    ∷ "status"
      ⦂ dict (
          "ready_replicas" ⦂ number ready
          ∷ "load_balancer"
            ⦂ dict ("ingress" ⦂ arr (cons (dict ("ip" ⦂ str "192.0.2.7" ∷ [])) nil) ∷ [])
          ∷ [])
    ∷ "spec"
      ⦂ dict (
          "replicas" ⦂ number 1
          ∷ "resources" ⦂ dict ("requests" ⦂ dict ("storage" ⦂ str "10Gi" ∷ []) ∷ [])
          ∷ [])
    ∷ [])

abbrev elapsed : History → ℕ
elapsed [] = 0
elapsed (slept s ∷ h) = elapsed h + s * 1000000
elapsed (c ∷ h) = elapsed h

-- So many replicas are ready whenever it is asked.
abbrev world : ℕ → World
world ready = record {
  answer = λ h name arguments. ok (
      if str_eq name "virtual_machine_scale_sets.list"
      then arr (cons (object ready) nil)
      else if str_eq name "read_namespaced_pod_log"
      then str "Uvicorn running"
      else object ready);
  clock = elapsed;
  compare_quantities = λ a b. ok Ordering.gt;
  yaml_dump = λ document. "config";
  text_digest = λ text. "digest";
  json_digest = λ document. "digest";
}

elapsed-forward : (c : Call) (h : History) → elapsed h ≤ elapsed (c ∷ h)
elapsed-forward (slept s) h = omega arith
elapsed-forward (asked name arguments) h = omega arith
elapsed-forward timed h = omega arith

world-Ticks : Ticks (world 0)
world-Ticks = record {
  forward = elapsed-forward;
  lasts = λ s h. omega arith;
  fuelled = λ h name arguments. cc;
}

wait_for_deployment-ends_example :
    (wait_for_deployment (world 0) "litellm" "postgres" 120 []).0 ≡ err out_of_fuel → ⊥
wait_for_deployment-ends_example = wait_for_deployment-ends world-Ticks "litellm" "postgres" 120 []

object_data : attributes (object 1) ("data" ∷ []) ≡ ok (obj held)
unfolding attributes
object_data = refl

held_salt : get "LITELLM_SALT_KEY" held ≡ some (str "c2FsdA==")
unfolding get
held_salt = refl

apply_secret-KeepsSalt_example :
    All
      (KeepsSalt (str "c2FsdA=="))
      ((apply_secret (world 1) "litellm" "litellm-env" (dict []) []).1)
apply_secret-KeepsSalt_example =
    apply_secret-KeepsSalt (world 1) "litellm" "litellm-env" (dict []) (object 1) held
      (str "c2FsdA==") object_data held_salt [] refl tt

apply_pvc-Larger_example :
    (any is_resize ((apply_pvc (world 1) "litellm" "pg-data" "20Gi" true []).1) ≡ false)
    ⊎ Larger (world 1) "litellm" "pg-data" "20Gi" true
apply_pvc-Larger_example = apply_pvc-Larger (world 1) "litellm" "pg-data" "20Gi" true

-- A model at one resource.
abbrev deployment : Json
deployment = dict ("model" ⦂ str "gpt-5" ∷ "deployment_name" ⦂ str "gpt" ∷ [])

abbrev resource : Json
resource = dict ("name" ⦂ str "one" ∷ [])

abbrev config : Fields
config = entries (
    "region" ⦂ str "westeurope"
    ∷ "resource_group" ⦂ str "group"
    ∷ "azure-openai-list" ⦂ arr (cons resource nil)
    ∷ "deployment_list" ⦂ arr (cons deployment nil)
    ∷ [])

abbrev environment : Env
environment name =
    if str_eq name "AZURE_SUBSCRIPTION_ID"
    then some "one"
    else if str_eq name "LITELLM_MASTER_KEY"
    then some "sk-123456789012345678901234"
    else none

main-Ready_example :
    (main (world 1) environment (obj config) []
      ≡ continue (release (world 1)) (prepare (world 1) environment (obj config) []))
    × Ends
        (λ prepared h. (any is_release h ≡ false) × Seen (world 1) h)
        (λ h. any is_release h ≡ false)
        (prepare (world 1) environment (obj config) [])
main-Ready_example = main-Ready (world 1) environment (obj config)

abbrev settings : DeploySettings
settings = record {
  mi_name = "";
  aks_name = "";
  aks_vm_size = "";
  aks_namespace = "";
  litellm_image = "";
  litellm_master_key = "";
  aks_node_count = pos 5;
  auto_generate_master_key = false;
  store_model_in_db = false;
  disable_spend_logs = false;
  store_prompts_in_spend_logs = false;
  spend_logs_retention_period = "";
  spend_logs_retention_interval = "";
  affinity_checks = [];
  deployment_affinity_ttl_seconds = pos 5;
  litellm_startup_wait_seconds = pos 5;
  ingress_proxy_body_size = "";
  ingress_proxy_buffering = "";
  ingress_proxy_read_timeout = "";
  ingress_proxy_send_timeout = "";
  azure_scope = "";
  azure_api_version = "";
  openai_role_name = "";
  run_smoke_test = false;
  pg_user = "";
  pg_password = "";
  pg_db = "";
  pg_storage = "";
  expand_existing_pg_pvc = false;
  litellm_hostname = "";
  letsencrypt_email = "";
}

abbrev document : Json
document =
    config_document settings
      (model_document "gpt-5" (str "gpt") (str "https://one.openai.azure.com/") ∷ [])

generated : generate_litellm_config config settings ≡ ok document
unfolding generate_litellm_config get
generated = refl

resources_of : index (obj config) "azure-openai-list" ≡ ok (arr (cons resource nil))
unfolding get
resources_of = refl

deployments_of : index (obj config) "deployment_list" ≡ ok (arr (cons deployment nil))
unfolding get
deployments_of = refl

generate_litellm_config-Generated_example :
    Generated (cons deployment nil) (cons resource nil) document
generate_litellm_config-Generated_example =
    generate_litellm_config-Generated config settings (cons deployment nil) (cons resource nil)
      document resources_of deployments_of generated

-- PostgreSQL does not get ready in this world.
gives_up : (prepare (world 0) environment (obj config) []).0 ≡ err (system_exit 1)
unfolding prepare
gives_up = refl

deploys : (main (world 1) environment (obj config) []).0 ≡ ok ("http://192.0.2.7:4000", Json.null)
unfolding main
deploys = refl
