-- ===== src/Models/Catalog.antt =====
-- `plain`, `uuid`, `account_id` and `parse_catalog` of scripts/model_sync_catalog.py.
pub mod Identities
use Prim.Native.String.{[], ◌∷◌}
use Prim.Native.Char.{code}
use secure_litellm_on_azure.Base.{
  ℕ, String, ◌<>◌, Bool, true, false, ◌&&◌, ◌||◌, not, Option, none, some, List, ◌++◌, all, elem,
  same_set, subset, any, str_eq, leb, ◌==◌, if◌then◌else◌,
}
use secure_litellm_on_azure.Base.Int.{pos}
use secure_litellm_on_azure.Base.Text.{text_length, every, is_alnum, lower}
use secure_litellm_on_azure.Base.Uuid.{uuid, uuid_text}
use secure_litellm_on_azure.Json.{
  Json, null, int, str, arr, obj, Items, nil, cons, Fields, end, field, get, has, put, pop, keys,
  from_list, json_eq,
}
use secure_litellm_on_azure.Fault.{Result, ok, err, type_error, ◌>>=◌, ◌>>◌, require, get_or, index}
use secure_litellm_on_azure.Models.Options.{
  is_identifier, identifier, azure_base_model, validate_options,
}
use secure_litellm_on_azure.Models.Endpoint.{Urls, normalize_openai_endpoint}

abbrev is_name_char : ℕ → Bool
is_name_char c = is_alnum c || (c == b'-')

-- `re.fullmatch(r"[A-Za-z0-9][A-Za-z0-9-]{1,62}", s)`
unfoldable pub is_account_name : String → Bool
is_account_name [] = false
is_account_name (c ∷ s) =
    is_alnum (code c) && every is_name_char s && leb 1 (text_length s) && leb (text_length s) 62

abbrev is_group_name_char : ℕ → Bool
is_group_name_char c =
    is_alnum c || (c == b'.') || (c == b'_') || (c == b'(') || (c == b')') || (c == b'-')

-- `re.fullmatch(r"[A-Za-z0-9][A-Za-z0-9._()-]{0,89}", s)`
unfoldable pub is_group_name : String → Bool
is_group_name [] = false
is_group_name (c ∷ s) = is_alnum (code c) && every is_group_name_char s && leb (text_length s) 89

-- `plain(value, expression)`
unfoldable pub plain : (String → Bool) → Json → Result String
plain matches (str s) = do
  require (matches s) "Catalog identifiers must be plain, non-empty identifiers"
  ok s
plain matches _ = do
  require false "Catalog identifiers must be plain, non-empty identifiers"
  err type_error

-- `uuid(value)`
unfoldable pub subscription_uuid : Json → Result String
unfolding uuid uuid_text
subscription_uuid (str s) = elim (uuid s) [
  | none ↦ (require false "Subscription must be a valid UUID" >> err type_error)
  | some n ↦ (require (not (n == 0)) "Subscription must be a nonzero UUID" >> ok (uuid_text n))
]
subscription_uuid _ = do require false "Subscription must be a UUID"; err type_error

unfoldable pub account_id : String → String → String → String
account_id subscription group name =
    "/subscriptions/" <> subscription <> "/resourceGroups/" <> group
    <> "/providers/Microsoft.CognitiveServices/accounts/" <> name

-- `(alias, deployment) in exact`
unfoldable pub has_pair : String × String → List (String × String) → Bool
has_pair p List.[] = false
has_pair p (List.◌∷◌ q qs) = (str_eq p.0 q.0 && str_eq p.1 q.1) || has_pair p qs

abbrev two_of : String → String → List String
two_of a b = List.◌∷◌ a (List.◌∷◌ b List.[])

abbrev model_fields : List String
model_fields = two_of "model_name" "deployment_name" ++ two_of "litellm_params" "model_info"

-- `required <= d.keys() and not d.keys() - allowed`
unfoldable pub has_fields : List String → List String → Fields → Bool
unfolding has keys
has_fields required allowed d = all (λ k. has k d) required && subset (keys d) allowed

-- The dict of a dict, for an object that has passed `validate_options`.
unfoldable pub dict : Json → Result Fields
dict (obj d) = ok d
dict _ = err type_error

-- `params.pop("api_version", api_version)`
unfoldable pub api_version_of : Option Json → Option Json → Result Json
api_version_of (some v) fallback = ok v
api_version_of none (some v) = ok v
api_version_of none none = do
  require false "Each model requires litellm_params.api_version or explicit --api-version fallback"
  err type_error

-- `target["baseModel"] = ...`, if the information names a base model
unfoldable pub with_base_model : Option Json → Fields → Result Fields
unfolding azure_base_model
with_base_model none target = ok target
with_base_model (some v) target = do
  base ← azure_base_model v
  ok (put "baseModel" (str base) target)

unfoldable pub model_target : Option Json → Fields → String → String → Result Json
unfolding validate_options dict api_version_of identifier with_base_model get pop put
model_target fallback model alias_name deployment = do
  params_value ← get_or (obj model) "litellm_params" (obj end)
  info_value ← get_or (obj model) "model_info" (obj end)
  validate_options true params_value info_value
  params ← dict params_value
  info ← dict info_value
  version_value ← api_version_of (get "api_version" params) fallback
  version ← identifier version_value
  target ← with_base_model (get "base_model" info) (
      field "modelGroup" (str alias_name) (
        field "deploymentName" (str deployment) (
          field "apiVersion" (str version) (
            field "litellmParams" (obj (pop "api_version" params))
              (field "modelInfo" (obj (pop "base_model" info)) end)))))
  ok (obj target)

-- The loop over the models of one resource, with the mappings that it has seen.
unfoldable pub parse_models : Option Json → List (String × String) → Items → Result (List Json)
unfolding has_fields plain is_identifier has_pair model_target
parse_models fallback exact nil = ok List.[]
parse_models fallback exact (cons (obj model) rest) = do
  require (has_fields (two_of "model_name" "deployment_name") model_fields model)
      "Model requires model_name/deployment_name with optional litellm_params/model_info only"
  name_value ← index (obj model) "model_name"
  alias_name ← plain is_identifier name_value
  deployment_value ← index (obj model) "deployment_name"
  deployment ← plain is_identifier deployment_value
  require (not (has_pair (alias_name, deployment) exact))
      "Duplicate exact model mapping in resource"
  target ← model_target fallback model alias_name deployment
  targets ← parse_models fallback (List.◌∷◌ (alias_name, deployment) exact) rest
  ok (List.◌∷◌ target targets)
parse_models fallback exact (cons _ rest) = do
  require false
      "Model requires model_name/deployment_name with optional litellm_params/model_info only"
  err type_error

-- `isinstance(value, list) and value`
unfoldable pub nonempty_list : String → Json → Result Items
nonempty_list message (arr (cons v vs)) = ok (cons v vs)
nonempty_list message _ = do require false message; err type_error

abbrev resource_fields : List String
resource_fields = two_of "resource_group" "name" ++ two_of "models" "endpoint"

abbrev subscription_fields : List String
subscription_fields = two_of "subscription_id" "resources"

abbrev legacy_fields : List String
legacy_fields =
    two_of "azure-openai-list" "deployment_list"
    ++ two_of "apim_name" "apim_resource_group"
    ++ List.◌∷◌ "region" List.[]

abbrev is_one : Option Json → Bool
is_one (some (int (pos n))) = n == 1
is_one _ = false

unfoldable pub check_fallback : Option Json → Result (Unit {0})
unfolding identifier
check_fallback none = ok tt
check_fallback (some v) = do checked ← identifier v; ok tt

module _ (urls : Urls) where
  -- `account["expectedEndpoint"] = ...`, if the resource names an endpoint
  unfoldable pub with_endpoint : Option Json → Fields → Result Fields
  unfolding normalize_openai_endpoint put
  with_endpoint none account = ok account
  with_endpoint (some v) account = do
    endpoint ← normalize_openai_endpoint urls v
    ok (put "expectedEndpoint" (str endpoint) account)

  -- One resource: its account, and its identity in lower case.
  unfoldable pub parse_resource :
      Option Json → String → List String → Fields → Result (Json × String)
  unfolding has_fields plain is_account_name is_group_name account_id nonempty_list parse_models
      with_endpoint has get lower from_list
  parse_resource fallback subscription seen resource = do
    require (not (has "account_name" resource))
        "Catalog account_name is no longer supported; migrate to name (the Azure ARM resource name)"
    require
        (has_fields (List.◌∷◌ "models" (two_of "resource_group" "name")) resource_fields resource)
        "Resource requires resource_group, name and models with optional expected endpoint only"
    name_value ← index (obj resource) "name"
    name ← plain is_account_name name_value
    group_value ← index (obj resource) "resource_group"
    group ← plain is_group_name group_value
    let identity = account_id subscription group (lower name)
    require (not (elem (lower identity) seen)) "Duplicate resource identity"
    models_value ← index (obj resource) "models"
    models ← nonempty_list "Each resource must explicitly map at least one model" models_value
    targets ← parse_models fallback List.[] models
    account ← with_endpoint (get "endpoint" resource) (
        field "accountResourceId" (str identity) (
          field "accountName" (str (lower name)) (
            field "subscriptionId" (str subscription) (
              field "resourceGroupName" (str group)
                (field "models" (arr (from_list targets)) end)))))
    ok (obj account, lower identity)

  -- The loop over the resources: the accounts, and the identities seen so far.
  unfoldable pub parse_resources :
      Option Json → String → List String → Items → Result (List Json × List String)
  unfolding parse_resource
  parse_resources fallback subscription seen nil = ok (List.[], seen)
  parse_resources fallback subscription seen (cons (obj resource) rest) = do
    parsed ← parse_resource fallback subscription seen resource
    later ← parse_resources fallback subscription (seen ++ List.◌∷◌ (parsed.1) List.[]) rest
    ok (List.◌∷◌ (parsed.0) (later.0), later.1)
  parse_resources fallback subscription seen (cons _ rest) = do
    require false "Catalog resource must be an object"
    err type_error

  unfoldable pub parse_subscriptions :
      Option Json → List String → List String → Items → Result (List Json × List String)
  unfolding parse_resources subscription_uuid nonempty_list keys
  parse_subscriptions fallback subscriptions seen nil = ok (List.[], seen)
  parse_subscriptions fallback subscriptions seen (cons (obj subscription) rest) = do
    require (same_set (keys subscription) subscription_fields)
        "Subscription requires exactly subscription_id and resources"
    id_value ← index (obj subscription) "subscription_id"
    id ← subscription_uuid id_value
    require (not (elem id subscriptions)) "Duplicate subscription_id"
    resources_value ← index (obj subscription) "resources"
    resources ← nonempty_list "Subscription resources must be nonempty" resources_value
    parsed ← parse_resources fallback id seen resources
    later ← parse_subscriptions fallback (List.◌∷◌ id subscriptions) (parsed.1) rest
    ok ((parsed.0) ++ (later.0), later.1)
  parse_subscriptions fallback subscriptions seen (cons _ rest) = do
    require false "Subscription requires exactly subscription_id and resources"
    err type_error

  -- `parse_catalog(document, api_version)`
  unfoldable pub parse_catalog : Json → Option Json → Result (List Json)
  unfolding parse_subscriptions check_fallback nonempty_list has get keys
  parse_catalog (obj document) fallback = do
    require (not (any (λ k. has k document) legacy_fields))
        "Legacy catalog is no longer supported; migrate to schema_version/subscriptions/resources/models"
    require
        (same_set (keys document) (two_of "schema_version" "subscriptions")
          && is_one (get "schema_version" document))
        "Catalog requires exactly schema_version=1 and subscriptions"
    check_fallback fallback
    subscriptions_value ← index (obj document) "subscriptions"
    subscriptions ← nonempty_list "Catalog requires nonempty subscriptions" subscriptions_value
    parsed ← parse_subscriptions fallback List.[] List.[] subscriptions
    ok (parsed.0)
  parse_catalog _ fallback = do require false "Catalog must be a JSON object"; err type_error
