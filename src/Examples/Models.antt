-- ===== src/Examples/Models.antt =====
-- A catalog of one account with one model, and its rendered configuration.
use secure_litellm_on_azure.Base.{
  ℕ, ◌≤◌, ◌≡◌, refl, ◌≢◌, String, true, false, none, some, [], ◌∷◌, map, distinct, elem, str_eq,
  if◌then◌else◌,
}
use secure_litellm_on_azure.Base.Int.{pos}
use secure_litellm_on_azure.Json.{
  Json, null, int, str, arr, obj, nil, cons, Fields, end, field, has, get,
}
use secure_litellm_on_azure.Fault.{ok}
use secure_litellm_on_azure.Models.FieldNames.{param_fields}
use secure_litellm_on_azure.Models.Options.{validate_options}
use secure_litellm_on_azure.Models.Options.Accepted.{
  validate_options-allowed, validate_options-positive,
}
use secure_litellm_on_azure.Models.Endpoint.{SplitUrl, Urls, connection_endpoint}
use secure_litellm_on_azure.Models.Render.{Accounts, render_each}
use secure_litellm_on_azure.Models.Render.Pinned.{AllPinned, render_each-AllPinned}
use secure_litellm_on_azure.Models.Catalog.{parse_catalog}
use secure_litellm_on_azure.Models.Catalog.Identities.{account_key, parse_catalog-distinct}

-- The URL library at the roots of two accounts.
abbrev root_of : String → SplitUrl
root_of host = record {
  scheme = "https";
  hostname = some host;
  port = none;
  username = none;
  password = none;
  netloc = host;
  path = "";
  query = "";
  fragment = "";
}

abbrev known_urls : Urls
known_urls = record {
  split = λ url.
      if str_eq url "https://east.openai.azure.com"
      then some (root_of "east.openai.azure.com")
      else none;
  lower = λ s. s;
}

abbrev params : Fields
params = field "rpm" (int (pos 60)) (field "temperature" (int (pos 1)) end)

options_run : validate_options false (obj params) (obj end) ≡ ok tt
unfolding validate_options
options_run = refl

has_rpm : has "rpm" params ≡ true
unfolding has
has_rpm = refl

get_rpm : get "rpm" params ≡ some (int (pos 60))
unfolding get
get_rpm = refl

validate_options-allowed_example :
    (elem "rpm" (param_fields false) ≡ true) × (get "rpm" params ≢ some null)
validate_options-allowed_example =
    validate_options-allowed false params end "rpm" options_run has_rpm

validate_options-positive_example :
    (n : ℕ) × (int (pos 60) ≡ int (pos n)) × (1 ≤ n) × (n ≤ 2147483647)
validate_options-positive_example =
    validate_options-positive false params end "rpm" options_run get_rpm refl

abbrev connection : Json
connection = obj (field "alias" (str "a") (field "accountName" (str "east") end))

connection_run : connection_endpoint known_urls connection ≡ ok "https://east.openai.azure.com"
unfolding connection_endpoint get
connection_run = refl

abbrev model : Json
model = obj (
    field "id" (str "m1") (
      field "modelGroup" (str "chat") (
        field "deploymentName" (str "gpt") (
          field "connectionAlias" (str "a")
            (field "apiVersion" (str "2024-10-21") (field "litellmParams" (obj params) end))))))

abbrev accounts : Accounts
accounts = (str "a", connection) ∷ []

abbrev rendered : Json
rendered = obj (
    field "model_name" (str "chat") (
      field "litellm_params"
        (obj (
          field "rpm" (int (pos 60)) (
            field "temperature" (int (pos 1)) (
              field "model" (str "azure/gpt") (
                field "api_base" (str "https://east.openai.azure.com")
                  (field "api_version" (str "2024-10-21") end))))))
        (field "model_info" (obj (field "id" (str "m1") end)) end)))

render_run : render_each known_urls accounts (cons model nil) ≡ ok (cons rendered nil)
unfolding render_each
render_run = refl

render_each-AllPinned_example : AllPinned known_urls accounts (cons model nil) (cons rendered nil)
render_each-AllPinned_example =
    render_each-AllPinned known_urls accounts (cons model nil) render_run

abbrev catalog : Fields
catalog = field "schema_version" (int (pos 1)) (
    field "subscriptions"
      (arr (
        cons
          (obj (
            field "subscription_id" (str "11111111-1111-1111-1111-111111111111") (
              field "resources"
                (arr (
                  cons
                    (obj (
                      field "resource_group" (str "rg-ai") (
                        field "name" (str "East") (
                          field "models"
                            (arr (
                              cons
                                (obj (
                                  field "model_name" (str "chat")
                                    (field "deployment_name" (str "gpt") end)))
                                nil))
                            end))))
                    nil))
                end)))
          nil))
      end)

abbrev found : Json
found = obj (
    field "accountResourceId"
      (str
        "/subscriptions/11111111-1111-1111-1111-111111111111/resourceGroups/rg-ai/providers/Microsoft.CognitiveServices/accounts/east")
      (field "accountName" (str "east") (
        field "subscriptionId" (str "11111111-1111-1111-1111-111111111111") (
          field "resourceGroupName" (str "rg-ai") (
            field "models"
              (arr (
                cons
                  (obj (
                    field "modelGroup" (str "chat") (
                      field "deploymentName" (str "gpt") (
                        field "apiVersion" (str "v1")
                          (field "litellmParams" (obj end) (field "modelInfo" (obj end) end))))))
                  nil))
              end)))))

catalog_run : parse_catalog known_urls (obj catalog) (some (str "v1")) ≡ ok (found ∷ [])
unfolding parse_catalog
catalog_run = refl

parse_catalog-distinct_example : distinct (map account_key (found ∷ [])) ≡ true
parse_catalog-distinct_example =
    parse_catalog-distinct known_urls catalog (some (str "v1")) catalog_run
