-- ===== src/Deploy/Config/Listed.antt =====
-- The entries of the generated model list.
use secure_litellm_on_azure.Base.{
  suc, ◌+◌, ◌*◌, String, ◌<>◌, ◌≡◌, refl, sym, ap, ◌∙◌, subst, ◌⊎◌, inl, inr, true, false, List, [],
  ◌∷◌, ◌++◌, length, arith,
}
use secure_litellm_on_azure.Json.{Json, Fields, str, obj, arr, get, items, Items, truthy}
use secure_litellm_on_azure.Fault.{
  Fault, ok, bind_ok, branch_ok, ok_injective, index, get_or, attribute_error, type_error,
}
use secure_litellm_on_azure.Dns.Settings.{text_part, text_part-ok}
use secure_litellm_on_azure.Deploy.Script.{list}
use secure_litellm_on_azure.Deploy.Settings.{DeploySettings}
use secure_litellm_on_azure.Params.Platform.{at}
use secure_litellm_on_azure.Deploy.Config.{
  each, model_entry, model_entries, model_list, model_text, endpoint_of, model_document,
  config_document, generate_litellm_config,
}

length-append : (xs ys : List Json) → length (xs ++ ys) ≡ length xs + length ys
length-append [] ys = omega arith
length-append (x ∷ xs) ys = omega (arith, length-append xs ys)

-- One entry for each resource, in their order.
model_entries-length :
    (model : String) (name : Json) (resources : List Json) {entries : List Json}
    → model_entries model name resources ≡ ok entries
    → length entries ≡ length resources
unfolding model_entries
model_entries-length model name [] h = ap length (sym (ok_injective h))
model_entries-length model name (resource ∷ rest) h =
    bind_ok (model_entry model name resource) _ h λ entry _ h1.
      bind_ok (model_entries model name rest) _ h1 λ others e h2.
        ap length (sym (ok_injective h2)) ∙ ap suc (model_entries-length model name rest e)

-- The endpoint of a resource: the configured one, or the one of its name.
abbrev pub IsEndpoint : Json → Json → Type 0
IsEndpoint resource endpoint =
    (configured : Json) × (get_or resource "endpoint" (str "") ≡ ok configured)
    × (((truthy configured ≡ true) × (endpoint ≡ configured))
        ⊎ ((truthy configured ≡ false)
            × ((name : String) × (index resource "name" ≡ ok (str name))
                × (endpoint ≡ str ("https://" <> (name <> ".openai.azure.com/"))))))

endpoint_of-ok :
    (resource configured : Json) {endpoint : Json}
    → get_or resource "endpoint" (str "") ≡ ok configured
    → endpoint_of configured resource ≡ ok endpoint
    → IsEndpoint resource endpoint
unfolding endpoint_of
endpoint_of-ok resource configured e h =
    branch_ok (truthy configured) _ _ h
      (λ given h1. (configured, e, inl (given, sym (ok_injective h1))))
      (λ absent h1. bind_ok (index resource "name") _ h1 λ value e1 h2.
        bind_ok (text_part value) _ h2 λ name e2 h3. (
          configured,
          e,
          inr (absent, (name, e1 ∙ ap ok (text_part-ok value e2), sym (ok_injective h3))),
        ))

-- The entry of a deployment at a resource: under the deployment's name, it calls the deployment's
-- model at the endpoint of the resource.
pub record IsEntry (deployment resource entry : Json) : Type 0 where
  pub model : String
  pub model_of : index deployment "model" ≡ ok (str model)
  pub deployment_name : Json
  pub deployment_name_of : index deployment "deployment_name" ≡ ok deployment_name
  pub endpoint : Json
  pub endpoint_of_resource : IsEndpoint resource endpoint
  pub alias : at entry ("model_name" ∷ []) ≡ ok deployment_name
  pub called : at entry ("litellm_params" ∷ "model" ∷ []) ≡ ok (str ("azure/" <> model))
  pub base : at entry ("litellm_params" ∷ "base_model" ∷ []) ≡ ok (str model)
  pub deployment_id : at entry ("litellm_params" ∷ "deployment_id" ∷ []) ≡ ok deployment_name
  pub api_base : at entry ("litellm_params" ∷ "api_base" ∷ []) ≡ ok endpoint
  pub version : at entry ("litellm_params" ∷ "api_version" ∷ []) ≡ ok (str "2025-04-01-preview")

-- One entry for each resource, in their order.
abbrev pub EntryRow : Json → List Json → List Json → Type 0
EntryRow deployment [] [] = Unit
EntryRow deployment (resource ∷ resources) (entry ∷ entries) =
    IsEntry deployment resource entry × EntryRow deployment resources entries
EntryRow deployment _ _ = ⊥

-- The rows of the deployments, one after the other.
abbrev pub Rows : List Json → List Json → List Json → Type 0
Rows [] resources models = models ≡ []
Rows (deployment ∷ rest) resources models =
    (entries : List Json) × (others : List Json) × (models ≡ entries ++ others)
    × EntryRow deployment resources entries
    × Rows rest resources others

model_entry-IsEntry :
    (deployment : Json) (model : String) (name resource : Json) {entry : Json}
    → index deployment "model" ≡ ok (str model)
    → index deployment "deployment_name" ≡ ok name
    → model_entry model name resource ≡ ok entry
    → IsEntry deployment resource entry
unfolding model_entry model_document at get
model_entry-IsEntry deployment model name resource m n h =
    bind_ok (get_or resource "endpoint" (str "")) _ h λ configured e h1.
      bind_ok (endpoint_of configured resource) _ h1 λ endpoint e1 h2.
        subst (IsEntry deployment resource) (ok_injective h2) (record {
          model = model;
          model_of = m;
          deployment_name = name;
          deployment_name_of = n;
          endpoint = endpoint;
          endpoint_of_resource = endpoint_of-ok resource configured e e1;
          alias = refl;
          called = refl;
          base = refl;
          deployment_id = refl;
          api_base = refl;
          version = refl;
        })

model_entries-EntryRow :
    (deployment : Json) (model : String) (name : Json) (resources : List Json) {entries : List Json}
    → index deployment "model" ≡ ok (str model)
    → index deployment "deployment_name" ≡ ok name
    → model_entries model name resources ≡ ok entries
    → EntryRow deployment resources entries
unfolding model_entries
model_entries-EntryRow deployment model name [] m n h =
    subst (EntryRow deployment []) (ok_injective h) tt
model_entries-EntryRow deployment model name (resource ∷ rest) m n h =
    bind_ok (model_entry model name resource) _ h λ entry e h1.
      bind_ok (model_entries model name rest) _ h1 λ others e1 h2.
        subst (EntryRow deployment (resource ∷ rest)) (ok_injective h2) (
          model_entry-IsEntry deployment model name resource m n e,
          model_entries-EntryRow deployment model name rest m n e1,
        )

-- One entry for each deployment and each resource.
record Covers (rows deployments models : List Json) : Type 0 where
  pub count : length models ≡ length deployments * length rows
  pub shaped : Rows deployments rows models

model_text-ok : (v : Json) {model : String} → model_text v ≡ ok model → v ≡ str model
model_text-ok (str s) h = ap str (ok_injective h)
model_text-ok _ h = absurd (cc h)

each-items : (fault : Fault) (xs : Items) → each fault (arr xs) ≡ ok (items xs)
unfolding each
each-items fault xs = refl

model_list-Covers :
    (resources : Json) (rows deployments : List Json) {models : List Json}
    → each attribute_error resources ≡ ok rows
    → model_list resources deployments ≡ ok models
    → Covers rows deployments models
unfolding model_list
model_list-Covers resources rows [] r h =
    subst (Covers rows []) (ok_injective h) (record { count = omega arith; shaped = refl })
model_list-Covers resources rows (deployment ∷ rest) r h =
    bind_ok (index deployment "model") _ h λ value m h1.
      bind_ok (index deployment "deployment_name") _ h1 λ name n h2.
        bind_ok (model_text value) _ h2 λ model t h3.
          bind_ok (each attribute_error resources) _ h3 λ xs e h4.
            bind_ok (model_entries model name xs) _ h4 λ entries e1 h5.
              bind_ok (model_list resources rest) _ h5 λ others e2 h6.
                let built : model_entries model name rows ≡ ok entries =
                  subst (λ ys. model_entries model name ys ≡ ok entries) (ok_injective (sym e ∙ r))
                    e1 in
                subst (Covers rows (deployment ∷ rest)) (ok_injective h6) (
                  more entries others (model_entries-length model name rows built)
                    (model_entries-EntryRow deployment model name rows
                      (m ∙ ap ok (model_text-ok value t)) n built)
                    (model_list-Covers resources rows rest r e2))
  where
    more :
        (entries others : List Json)
        → length entries ≡ length rows
        → EntryRow deployment rows entries
        → Covers rows rest others
        → Covers rows (deployment ∷ rest) (entries ++ others)
    more entries others size row covers = record {
      count = length-append entries others ∙ grind (arith, covers.count, size);
      shaped = (entries, others, refl, row, covers.shaped);
    }

-- The models of a document that is generated from so many deployments and resources.
pub record Generated (deployments resources : Items) (document : Json) : Type 0 where
  pub models : List Json
  pub listed : index document "model_list" ≡ ok (list models)
  pub count : length models ≡ length (items deployments) * length (items resources)
  pub shaped : Rows (items deployments) (items resources) models

config_document-Generated :
    (settings : DeploySettings) {deployments resources : Items} {models : List Json}
    → Covers (items resources) (items deployments) models
    → Generated deployments resources (config_document settings models)
unfolding config_document get
config_document-Generated settings {models = models} covers = record {
  models = models;
  listed = refl;
  count = covers.count;
  shaped = covers.shaped;
}

-- The document that is generated from lists of deployments and of resources has one entry for each
-- pair of them, by the deployments' order and for one deployment by the resources' order. Each entry
-- calls its deployment's model under its deployment's name, which is also its alias, at the endpoint
-- that its resource configures or, if that is empty, the one of the resource's name, with the API
-- version 2025-04-01-preview.
pub generate_litellm_config-Generated :
    (cfg : Fields) (settings : DeploySettings) (deployments resources : Items) (document : Json)
    → index (obj cfg) "azure-openai-list" ≡ ok (arr resources)
    → index (obj cfg) "deployment_list" ≡ ok (arr deployments)
    → generate_litellm_config cfg settings ≡ ok document
    → Generated deployments resources document
unfolding generate_litellm_config
generate_litellm_config-Generated cfg settings deployments resources document of_r of_d h =
    bind_ok (index (obj cfg) "azure-openai-list") _ h λ r e0 h1.
      bind_ok (index (obj cfg) "deployment_list") _ h1 λ d e1 h2.
        bind_ok (each type_error d) _ h2 λ ds e2 h3. bind_ok (model_list r ds) _ h3 λ models e3 h4.
          subst (Generated deployments resources) (ok_injective h4) (
            config_document-Generated settings (
              model_list-Covers (arr resources) (items resources) (items deployments)
                (each-items attribute_error resources)
                (replaced r ds models (ok_injective (sym e0 ∙ of_r))
                  (ok_injective (
                    sym (each-items type_error deployments)
                    ∙ (ap (each type_error) (ok_injective (sym of_d ∙ e1)) ∙ e2)))
                  e3)))
  where
    replaced :
        (r : Json) (ds models : List Json)
        → r ≡ arr resources
        → items deployments ≡ ds
        → model_list r ds ≡ ok models
        → model_list (arr resources) (items deployments) ≡ ok models
    replaced r ds models p q e =
        ap (λ x. model_list x (items deployments)) (sym p) ∙ (ap (model_list r) q ∙ e)
