-- ===== src/Models/Render.antt =====
-- `rendered_models` and `pricing_warnings` of scripts/model_configuration.py.
pub mod Pinned
use secure_litellm_on_azure.Base.{
  ℕ, String, ◌<>◌, Bool, true, false, ◌&&◌, Option, none, some, List, [], ◌∷◌, str_eq,
  if◌then◌else◌,
}
use secure_litellm_on_azure.Base.Int.{pos}
use secure_litellm_on_azure.Json.{
  Json, null, int, str, arr, obj, Items, nil, cons, Fields, end, field, get, put, update, json_eq,
}
use secure_litellm_on_azure.Fault.{
  Result, ok, err, key_error, type_error, attribute_error, ◌>>=◌, ◌>>◌, get_or, index,
}
use secure_litellm_on_azure.Dns.Settings.{text_part}
use secure_litellm_on_azure.Gates.Scope.{as_dict}
use secure_litellm_on_azure.Models.Options.{validate_options}
use secure_litellm_on_azure.Models.Endpoint.{Urls, connection_endpoint}

-- The items that a `for` goes through: of a list, and no other value.
unfoldable pub list_of : Json → Result Items
list_of (arr xs) = ok xs
list_of _ = err type_error

-- A value that a dict can have as its key.
unfoldable pub hashable : Json → Result Json
hashable (arr xs) = err type_error
hashable (obj d) = err type_error
hashable v = ok v

-- `{item["alias"]: item for item in items}`, as pairs; of two with one alias the later counts.
abbrev pub Accounts : Type 0
Accounts = List (Json × Json)

unfoldable pub accounts_of : Items → Result Accounts
unfolding hashable
accounts_of nil = ok []
accounts_of (cons item rest) = do
  alias_value ← index item "alias"
  key ← hashable alias_value
  later ← accounts_of rest
  ok ((key, item) ∷ later)

unfoldable pub find_account : Json → Accounts → Option Json
unfolding json_eq
find_account key [] = none
find_account key ((k, item) ∷ rest) = elim (find_account key rest) [
  | some later ↦ some later
  | none ↦ if json_eq k key then some item else none
]

-- `accounts[model["connectionAlias"]]`
unfoldable pub account_for : Accounts → Json → Result Json
unfolding hashable find_account
account_for accounts alias_value = do
  key ← hashable alias_value
  elim (find_account key accounts) as (λ _. Result Json) [
    | none ↦ err (key_error "connectionAlias")
    | some item ↦ ok item
  ]

-- `{"base_model": model["baseModel"]} if "baseModel" in model else {}`
unfoldable pub base_model_fields : Option Json → Fields
base_model_fields none = end
base_model_fields (some v) = field "base_model" v end

module _ (urls : Urls) where
  unfoldable pub render_model : Accounts → Fields → Result Json
  unfolding validate_options as_dict text_part account_for connection_endpoint base_model_fields get
      put update
  render_model accounts model = do
    params_value ← get_or (obj model) "litellmParams" (obj end)
    info_value ← get_or (obj model) "modelInfo" (obj end)
    validate_options false params_value info_value
    let base = base_model_fields (get "baseModel" model)
    group ← index (obj model) "modelGroup"
    params ← as_dict params_value
    deployment_value ← index (obj model) "deploymentName"
    deployment ← text_part deployment_value
    alias_value ← index (obj model) "connectionAlias"
    connection ← account_for accounts alias_value
    endpoint ← connection_endpoint urls connection
    version ← index (obj model) "apiVersion"
    info ← as_dict info_value
    id ← index (obj model) "id"
    ok (
        obj (
          field "model_name" group (
            field "litellm_params"
              (obj (
                update
                  (put "api_version" version (
                    put "api_base" (str endpoint)
                      (put "model" (str ("azure/" <> deployment)) params)))
                  base))
              (field "model_info" (obj (update (put "id" id info) base)) end))))

  unfoldable pub render_each : Accounts → Items → Result Items
  unfolding render_model
  render_each accounts nil = ok nil
  render_each accounts (cons (obj model) rest) = do
    rendered ← render_model accounts model
    others ← render_each accounts rest
    ok (cons rendered others)
  render_each accounts (cons _ rest) = err attribute_error

  unfoldable pub rendered_models : Fields → Result Items
  unfolding list_of accounts_of render_each
  rendered_models config = do
    parameters ← index (obj config) "parameters"
    platform ← index parameters "platform"
    connections ← index platform "azureOpenAIConnections"
    connection_items ← list_of connections
    accounts ← accounts_of connection_items
    application ← index (obj config) "application"
    models ← index application "models"
    model_items ← list_of models
    render_each accounts model_items

-- `model.get("modelInfo", {}).get(key) == 0`
unfoldable pub zero_cost : String → Fields → Result Bool
unfolding json_eq
zero_cost key model = do
  info ← get_or (obj model) "modelInfo" (obj end)
  cost ← get_or info key null
  ok (json_eq cost (int (pos 0)))

unfoldable pub model_warning : Fields → Result (List String)
unfolding zero_cost text_part
model_warning model = do
  input ← zero_cost "input_cost_per_token" model
  output ← (if input then zero_cost "output_cost_per_token" model else ok false)
  if output
      then (do
        id ← index (obj model) "id"
        name ← text_part id
        ok (("Explicit zero input/output token costs bypass LiteLLM budget checks: " <> name) ∷ []))
      else ok []

unfoldable pub warnings_of : Items → Result (List String)
unfolding model_warning
warnings_of nil = ok []
warnings_of (cons (obj model) rest) = do
  warning ← model_warning model
  others ← warnings_of rest
  ok (secure_litellm_on_azure.Base.◌++◌ warning others)
warnings_of (cons _ rest) = err attribute_error

unfoldable pub pricing_warnings : Fields → Result (List String)
unfolding warnings_of list_of
pricing_warnings config = do
  application ← index (obj config) "application"
  models ← index application "models"
  model_items ← list_of models
  warnings_of model_items
