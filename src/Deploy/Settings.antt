-- ===== src/Deploy/Settings.antt =====
-- The settings of the deployment script: `DEFAULT_CONFIG`, read from the environment.
use secure_litellm_on_azure.Base.{
  ℕ, zero, suc, ◌+◌, ◌-◌, ◌*◌, String, ◌<>◌, Bool, false, ◌&&◌, ◌||◌, not, Option, none, some, List,
  [], ◌∷◌, elem, str_eq, ◌==◌, if◌then◌else◌, select, map,
}
use secure_litellm_on_azure.Base.Text.{strip_if, is_space, is_digit, lower}
use secure_litellm_on_azure.Base.Int.{ℤ, pos, negsuc}
use Prim.Native.Char.{code}
use secure_litellm_on_azure.Fault.{Result, ok, err, value_error, ◌>>=◌}
use secure_litellm_on_azure.Dns.Settings.{split_on}
use secure_litellm_on_azure.Params.Access.{sort_texts}
use secure_litellm_on_azure.Runtime.Login.{Env, text_or}

abbrev supported_affinity_checks : List String
supported_affinity_checks =
    "responses_api_deployment_check" ∷ "deployment_affinity" ∷ "session_affinity" ∷ []

abbrev pub strip : String → String
strip s = strip_if is_space s

-- `", ".join(text_items)`
unfoldable pub join : String → List String → String
join separator [] = ""
join separator (s ∷ []) = s
join separator (s ∷ t ∷ rest) = s <> (separator <> join separator (t ∷ rest))

-- `list(dict.fromkeys(text_items))`
unfoldable pub first_of_each : List String → List String → List String
first_of_each seen [] = []
first_of_each seen (s ∷ rest) =
    let later = first_of_each (s ∷ seen) rest in if elem s seen then later else s ∷ later

unfoldable pub parse_affinity_checks : String → Result (List String)
unfolding first_of_each join sort_texts split_on
parse_affinity_checks value =
    let parts = select (λ s. not (str_eq s "")) (map strip (split_on b',' value)) in
    let checks = first_of_each [] parts in
    let unsupported = select (λ s. not (elem s supported_affinity_checks)) checks in
    elim unsupported [
      | [] ↦ ok checks
      | s ∷ rest ↦ err (
          value_error (
            "Unsupported LITELLM_AFFINITY_CHECKS value(s): "
            <> (join ", " (sort_texts (s ∷ rest))
                <> (". Supported values: " <> join ", " (sort_texts supported_affinity_checks)))))
    ]

-- `int(text)`: an optional sign, and digits with single underscores between them. The digits of
-- other alphabets are left out.
pub digits : ℕ → Bool → String → Option ℕ
digits n after_digit String.[] = if after_digit then some n else none
digits n after_digit (String.◌∷◌ c s) =
    let digit = is_digit (code c) in
    let rest = digits (if digit then n * 10 + (code c - b'0') else n) digit s in
    if digit || ((code c == b'_') && after_digit) then rest else none

unfoldable pub int_of : String → Result ℤ
unfolding digits
int_of text = elim (signed (strip text)) [
  | some n ↦ ok n
  | none ↦ err (value_error "invalid literal for int() with base 10")
]
  where
    negative : ℕ → ℤ
    negative zero = pos zero
    negative (suc n) = negsuc n

    positive : Option ℕ → Option ℤ
    positive none = none
    positive (some n) = some (pos n)

    minus : Option ℕ → Option ℤ
    minus none = none
    minus (some n) = some (negative n)

    signed : String → Option ℤ
    signed String.[] = none
    signed (String.◌∷◌ c s) =
        if code c == b'-'
        then minus (digits 0 false s)
        else positive (digits 0 false (if code c == b'+' then s else String.◌∷◌ c s))

pub record DeploySettings : Type 0 where
  pub mi_name : String
  pub aks_name : String
  pub aks_vm_size : String
  pub aks_namespace : String
  pub litellm_image : String
  pub litellm_master_key : String
  pub aks_node_count : ℤ
  pub auto_generate_master_key : Bool
  pub store_model_in_db : Bool
  pub disable_spend_logs : Bool
  pub store_prompts_in_spend_logs : Bool
  pub spend_logs_retention_period : String
  pub spend_logs_retention_interval : String
  pub affinity_checks : List String
  pub deployment_affinity_ttl_seconds : ℤ
  pub litellm_startup_wait_seconds : ℤ
  pub ingress_proxy_body_size : String
  pub ingress_proxy_buffering : String
  pub ingress_proxy_read_timeout : String
  pub ingress_proxy_send_timeout : String
  pub azure_scope : String
  pub azure_api_version : String
  pub openai_role_name : String
  pub run_smoke_test : Bool
  pub pg_user : String
  pub pg_password : String
  pub pg_db : String
  pub pg_storage : String
  pub expand_existing_pg_pvc : Bool
  pub litellm_hostname : String
  pub letsencrypt_email : String

-- `text or default`
abbrev pub or_text : String → String → String
or_text default text = if str_eq text "" then default else text

module _ (environ : Env) where
  -- `os.environ.get(name, default)`
  abbrev setting : String → String → String
  setting name default = text_or default (environ name)

  -- `os.environ.get(name, default).lower() == "true"`
  abbrev flag : String → String → Bool
  flag name default = str_eq (lower (setting name default)) "true"

  abbrev stripped : String → String → String
  stripped name default = strip (setting name default)

  unfoldable pub default_config : Result DeploySettings
  unfolding parse_affinity_checks int_of lower
  default_config = do
    node_count ← int_of (setting "AKS_NODE_COUNT" "1")
    checks ← parse_affinity_checks (
        setting "LITELLM_AFFINITY_CHECKS"
          "responses_api_deployment_check,deployment_affinity,session_affinity")
    ttl ← int_of (setting "DEPLOYMENT_AFFINITY_TTL_SECONDS" "3600")
    startup_wait ← int_of (setting "LITELLM_STARTUP_WAIT_SECONDS" "180")
    ok (record {
      mi_name = setting "MI_NAME" "litellm-managed-identity";
      aks_name = setting "AKS_NAME" "litellm-mi-aks";
      aks_node_count = node_count;
      aks_vm_size = setting "AKS_VM_SIZE" "Standard_D2s_v3";
      aks_namespace = setting "AKS_NAMESPACE" "litellm";
      litellm_image = setting "LITELLM_IMAGE" "docker.litellm.ai/berriai/litellm:1.95.0";
      litellm_master_key = stripped "LITELLM_MASTER_KEY" "";
      auto_generate_master_key = flag "AUTO_GENERATE_MASTER_KEY" "true";
      store_model_in_db = flag "STORE_MODEL_IN_DB" "false";
      disable_spend_logs = flag "DISABLE_SPEND_LOGS" "false";
      store_prompts_in_spend_logs = flag "STORE_PROMPTS_IN_SPEND_LOGS" "false";
      spend_logs_retention_period = stripped "MAXIMUM_SPEND_LOGS_RETENTION_PERIOD" "7d";
      spend_logs_retention_interval = stripped "MAXIMUM_SPEND_LOGS_RETENTION_INTERVAL" "1d";
      affinity_checks = checks;
      deployment_affinity_ttl_seconds = ttl;
      litellm_startup_wait_seconds = startup_wait;
      ingress_proxy_body_size = or_text "100m" (stripped "INGRESS_PROXY_BODY_SIZE" "100m");
      ingress_proxy_buffering = or_text "off" (stripped "INGRESS_PROXY_BUFFERING" "off");
      ingress_proxy_read_timeout = or_text "600" (stripped "INGRESS_PROXY_READ_TIMEOUT" "600");
      ingress_proxy_send_timeout = or_text "600" (stripped "INGRESS_PROXY_SEND_TIMEOUT" "600");
      azure_scope = setting "AZURE_SCOPE" "https://cognitiveservices.azure.com/.default";
      azure_api_version = setting "AZURE_API_VERSION" "";
      openai_role_name = setting "OPENAI_ROLE_NAME" "Cognitive Services OpenAI User";
      run_smoke_test = flag "RUN_SMOKE_TEST" "true";
      pg_user = setting "PG_USER" "litellm";
      pg_password = setting "PG_PASSWORD" "litellm-local-dev";
      pg_db = setting "PG_DB" "litellm";
      pg_storage = setting "PG_STORAGE" "20Gi";
      expand_existing_pg_pvc = flag "EXPAND_EXISTING_PG_PVC" "false";
      litellm_hostname = stripped "LITELLM_HOSTNAME" "";
      letsencrypt_email = stripped "LETSENCRYPT_EMAIL" "";
    })
