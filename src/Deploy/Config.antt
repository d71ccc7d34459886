-- ===== src/Deploy/Config.antt =====
-- The configuration that the deployment script reads, and the one that it generates for LiteLLM.
-- A name of a resource is a text.
pub mod Listed
use secure_litellm_on_azure.Base.{
  String, ◌<>◌, Bool, true, false, ◌&&◌, ◌||◌, not, Option, none, some, List, [], ◌∷◌, ◌++◌, str_eq,
  if◌then◌else◌,
}
use secure_litellm_on_azure.Base.Text.{starts, drop_text, text_length}
use secure_litellm_on_azure.Json.{
  Json, null, bool, str, int, obj, arr, Fields, end, get, put, pop, items, json_eq, is_null, truthy,
}
use secure_litellm_on_azure.Fault.{
  Fault, Result, ok, err, value_error, type_error, attribute_error, index, get_or, ◌>>=◌, ◌>>◌,
}
use secure_litellm_on_azure.Dns.Settings.{text_part, split_on}
use secure_litellm_on_azure.Deploy.Script.{◌⦂◌, dict, entries, list, text_items, number}
use secure_litellm_on_azure.Deploy.Settings.{DeploySettings, strip}

-- `if not condition: raise ValueError(message)`
abbrev must : Bool → String → Result (Unit {0})
must true message = ok tt
must false message = err (value_error message)

abbrev or_null : Option Json → Json
or_null none = null
or_null (some v) = v

-- `isinstance(v, str) and v.strip()`
abbrev is_named : Json → Bool
is_named (str s) = not (str_eq (strip s) "")
is_named _ = false

unfoldable pub check_required : Fields → List String → Result (Unit {0})
unfolding get truthy
check_required cfg [] = ok tt
check_required cfg (name ∷ rest) = do
  must (truthy (or_null (get name cfg))) ("Config must include non-empty '" <> (name <> "'"))
  check_required cfg rest

-- From the document that is read.
unfoldable pub load_config : Json → Result Fields
unfolding get put pop json_eq is_null check_required
load_config (obj document) = do
  let legacy_resource_group = or_null (get "apim_resource_group" document)
  let popped = pop "apim_resource_group" document
  let resource_group : Json = elim (get "resource_group" popped) [
    | none ↦ legacy_resource_group
    | some v ↦ v
  ]
  must (is_named resource_group) "Config must include non-empty 'resource_group'"
  must (is_null legacy_resource_group || json_eq legacy_resource_group resource_group)
      "Conflicting 'resource_group' and legacy resource group fields"
  let cfg = put "resource_group" resource_group popped
  check_required cfg ("region" ∷ "resource_group" ∷ "azure-openai-list" ∷ "deployment_list" ∷ [])
  ok cfg
load_config (arr xs) = err type_error
load_config _ = err attribute_error

abbrev first_piece : List String → String
first_piece [] = ""
first_piece (s ∷ rest) = s

-- `re.match(r"^https://([^.]+)\.openai\.azure\.com", endpoint)`
unfoldable pub extract_resource_name_from_endpoint : String → Option String
unfolding split_on
extract_resource_name_from_endpoint endpoint =
    let host = drop_text 8 endpoint in
    let name = first_piece (split_on b'.' host) in
    if starts endpoint "https://"
      && (not (str_eq name "") && starts (drop_text (text_length name) host) ".openai.azure.com")
    then some name
    else none

-- What a loop runs through; `fault` is what its body raises on the keys or characters of another
-- value that is not empty.
unfoldable pub each : Fault → Json → Result (List Json)
unfolding items
each fault (arr xs) = ok (items xs)
each fault (obj d) = err fault
each fault (str s) = err fault
each fault _ = err type_error

-- The endpoint of a resource.
unfoldable pub endpoint_of : Json → Json → Result Json
unfolding truthy text_part
endpoint_of configured resource = if truthy configured then ok configured else (do
  value ← index resource "name"
  name ← text_part value
  ok (str ("https://" <> (name <> ".openai.azure.com/"))))

-- One entry of `model_list`.
unfoldable pub model_document : String → Json → Json → Json
model_document model deployment_name endpoint = dict (
    "model_name" ⦂ deployment_name
    ∷ "litellm_params"
      ⦂ dict (
          "model" ⦂ str ("azure/" <> model)
          ∷ "base_model" ⦂ str model
          ∷ "deployment_id" ⦂ deployment_name
          ∷ "api_base" ⦂ endpoint
          ∷ "api_version" ⦂ str "2025-04-01-preview"
          ∷ [])
    ∷ [])

-- The body of the inner loop.
unfoldable pub model_entry : String → Json → Json → Result Json
unfolding endpoint_of model_document
model_entry model deployment_name resource = do
  configured ← get_or resource "endpoint" (str "")
  endpoint ← endpoint_of configured resource
  ok (model_document model deployment_name endpoint)

-- The inner loop, over the resources.
unfoldable pub model_entries : String → Json → List Json → Result (List Json)
unfolding model_entry
model_entries model deployment_name [] = ok []
model_entries model deployment_name (resource ∷ rest) = do
  entry ← model_entry model deployment_name resource
  others ← model_entries model deployment_name rest
  ok (entry ∷ others)

abbrev model_text : Json → Result String
model_text (str s) = ok s
model_text _ = err attribute_error

-- The outer loop, over the deployments.
unfoldable pub model_list : Json → List Json → Result (List Json)
unfolding model_entries each
model_list resources [] = ok []
model_list resources (deployment ∷ rest) = do
  value ← index deployment "model"
  deployment_name ← index deployment "deployment_name"
  model ← model_text value
  rows ← each attribute_error resources
  entries ← model_entries model deployment_name rows
  others ← model_list resources rest
  ok (entries ++ others)

-- The document of the model list and the settings.
unfoldable pub config_document : DeploySettings → List Json → Json
config_document settings models =
    let period = settings.spend_logs_retention_period in
    let retention =
      if str_eq period ""
      then []
      else "maximum_spend_logs_retention_period" ⦂ str period
        ∷ "maximum_spend_logs_retention_interval" ⦂ str settings.spend_logs_retention_interval
        ∷ [] in
    dict (
      "model_list" ⦂ list models
      ∷ "litellm_settings" ⦂ dict ("enable_azure_ad_token_refresh" ⦂ bool true ∷ [])
      ∷ "general_settings"
        ⦂ dict (
            "disable_spend_logs" ⦂ bool settings.disable_spend_logs
            ∷ "store_prompts_in_spend_logs" ⦂ bool settings.store_prompts_in_spend_logs
            ∷ retention)
      ∷ "router_settings"
        ⦂ dict (
            "routing_strategy" ⦂ str "simple-shuffle"
            ∷ "num_retries" ⦂ number 2
            ∷ "optional_pre_call_checks" ⦂ arr (text_items settings.affinity_checks)
            ∷ "deployment_affinity_ttl_seconds" ⦂ int settings.deployment_affinity_ttl_seconds
            ∷ [])
      ∷ [])

-- The document that `yaml.dump` is given. The settings have all keys.
unfoldable pub generate_litellm_config : Fields → DeploySettings → Result Json
unfolding each model_list config_document
generate_litellm_config cfg settings = do
  resources ← index (obj cfg) "azure-openai-list"
  value ← index (obj cfg) "deployment_list"
  deployments ← each type_error value
  models ← model_list resources deployments
  ok (config_document settings models)
