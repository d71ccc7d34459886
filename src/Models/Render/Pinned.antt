-- ===== src/Models/Render/Pinned.antt =====
-- A customer's options never replace what the configuration fixes for a model.
use secure_litellm_on_azure.Base.{
  ◌≡◌, refl, ◌∙◌, ap, sym, subst, ◌⊎◌, inl, inr, String, ◌<>◌, true, false, Option, none, some, [],
  ◌∷◌, All, str_eq, arith, if◌then◌else◌,
}
use secure_litellm_on_azure.Json.{
  Json, null, bool, int, float, str, arr, obj, Items, nil, cons, Fields, end, get, put, update,
  json_eq,
}
use secure_litellm_on_azure.Json.Laws.{get-put, get-put_self}
use secure_litellm_on_azure.Fault.{ok, get_or, index, Result, err, key_error, bind_ok, ok_injective}
use secure_litellm_on_azure.Dns.Settings.{text_part, text_part-ok}
use secure_litellm_on_azure.Gates.Scope.{as_dict}
use secure_litellm_on_azure.Models.Options.{validate_options}
use secure_litellm_on_azure.Models.Endpoint.{Urls, connection_endpoint}
use secure_litellm_on_azure.Models.Endpoint.Root.{AccountRoot, connection_endpoint-AccountRoot}
use secure_litellm_on_azure.Models.Render.{
  Accounts, hashable, find_account, account_for, base_model_fields, render_model, render_each,
}

abbrev entry_of : String → Json → Option Json
entry_of k (obj d) = get k d
entry_of k _ = none

-- What a rendered model holds under `litellm_params`.
abbrev pub param : String → Json → Option Json
param k rendered = elim (entry_of "litellm_params" rendered) [ none ↦ none | some v ↦ entry_of k v ]

get-base :
    (k : String) (d : Fields) (o : Option Json)
    → str_eq "base_model" k ≡ false
    → get k (update d (base_model_fields o)) ≡ get k d
unfolding update base_model_fields
get-base k d none other = refl
get-base k d (some v) other = get-put "base_model" k v d ∙ simp other

-- The connection is the last one that has the key, as the dict of the connections has it.
abbrev pub LastAt : Json → Accounts → Json → Type 0
LastAt key [] connection = ⊥
LastAt key ((k, item) ∷ rest) connection =
    LastAt key rest connection
    ⊎ ((json_eq k key ≡ true)
        × (item ≡ connection)
        × All (λ entry. json_eq (entry.0) key ≡ false) rest)

hashable-ok : (v : Json) {key : Json} → hashable v ≡ ok key → v ≡ key
unfolding hashable
hashable-ok null h = ok_injective h
hashable-ok (bool b) h = ok_injective h
hashable-ok (int z) h = ok_injective h
hashable-ok (float m d) h = ok_injective h
hashable-ok (str s) h = ok_injective h
hashable-ok (arr xs) h = absurd (cc h)
hashable-ok (obj d) h = absurd (cc h)

find_account-none :
    (key : Json) (accounts : Accounts)
    → find_account key accounts ≡ none
    → All (λ entry. json_eq (entry.0) key ≡ false) accounts
unfolding find_account
find_account-none key [] h = tt
find_account-none key ((k, item) ∷ rest) h =
    split (find_account key rest) (find_account-none key rest) h
  where
    split :
        (o : Option Json)
        → (o ≡ none → All (λ entry. json_eq (entry.0) key ≡ false) rest)
        → elim o [ some later ↦ some later | none ↦ if json_eq k key then some item else none ]
          ≡ none
        → (json_eq k key ≡ false) × All (λ entry. json_eq (entry.0) key ≡ false) rest
    split (some later) others h = absurd (cc h)
    split none others h = (ground (arith, h), others refl)

find_account-LastAt :
    (key : Json) (accounts : Accounts) {connection : Json}
    → find_account key accounts ≡ some connection
    → LastAt key accounts connection
unfolding find_account
find_account-LastAt key [] h = absurd (cc h)
find_account-LastAt key ((k, item) ∷ rest) {connection} h =
    split (find_account key rest) (find_account-LastAt key rest) (find_account-none key rest) h
  where
    split :
        (o : Option Json)
        → (o ≡ some connection → LastAt key rest connection)
        → (o ≡ none → All (λ entry. json_eq (entry.0) key ≡ false) rest)
        → elim o [ some later ↦ some later | none ↦ if json_eq k key then some item else none ]
          ≡ some connection
        → LastAt key ((k, item) ∷ rest) connection
    split (some later) last others h = inl (last h)
    split none last others h = inr (ground (arith, h), ground (arith, h), others refl)

account_for-LastAt :
    (accounts : Accounts) (alias_value : Json) {connection : Json}
    → account_for accounts alias_value ≡ ok connection
    → LastAt alias_value accounts connection
unfolding account_for
account_for-LastAt accounts alias_value {connection} h =
    bind_ok (hashable alias_value) _ h λ key e h1.
      subst (λ k. LastAt k accounts connection) (sym (hashable-ok alias_value e))
        (find_account-LastAt key accounts (found (find_account key accounts) h1))
  where
    found :
        (o : Option Json)
        → elim o as (λ _. Result Json) [
          | none ↦ err (key_error "connectionAlias")
          | some item ↦ ok item
        ]
          ≡ ok connection
        → o ≡ some connection
    found none h = absurd (cc h)
    found (some item) h = ap some (ok_injective h)

-- The deployment, the endpoint and the API version of the rendered model are those of the mapping
-- and of the connection that its alias names.
pub record Pinned (urls : Urls) (accounts : Accounts) (model : Fields) (rendered : Json)
    : Type 0 where
  pub deployment : String
  pub deployment_of : index (obj model) "deploymentName" ≡ ok (str deployment)
  pub model_param : param "model" rendered ≡ some (str ("azure/" <> deployment))
  pub version : Json
  pub version_of : index (obj model) "apiVersion" ≡ ok version
  pub version_param : param "api_version" rendered ≡ some version
  pub alias_value : Json
  pub alias_of : index (obj model) "connectionAlias" ≡ ok alias_value
  pub connection : Json
  pub connection_of : LastAt alias_value accounts connection
  pub endpoint : String
  pub endpoint_from : connection_endpoint urls connection ≡ ok endpoint
  pub endpoint_param : param "api_base" rendered ≡ some (str endpoint)
  pub account_root : AccountRoot endpoint

module _ (urls : Urls) where
  render_model-Pinned :
      (accounts : Accounts) (model : Fields) {rendered : Json}
      → render_model urls accounts model ≡ ok rendered
      → Pinned urls accounts model rendered
  unfolding render_model
  render_model-Pinned accounts model h =
      bind_ok (get_or (obj model) "litellmParams" (obj end)) _ h λ params_value e1 h1.
        bind_ok (get_or (obj model) "modelInfo" (obj end)) _ h1 λ info_value e2 h2.
          bind_ok (validate_options false params_value info_value) _ h2 λ _ e3 h3.
            bind_ok (index (obj model) "modelGroup") _ h3 λ group e4 h4.
              bind_ok (as_dict params_value) _ h4 λ params e5 h5.
                bind_ok (index (obj model) "deploymentName") _ h5 λ deployment_value e6 h6.
                  bind_ok (text_part deployment_value) _ h6 λ deployment e7 h7.
                    bind_ok (index (obj model) "connectionAlias") _ h7 λ alias_value e8 h8.
                      bind_ok (account_for accounts alias_value) _ h8 λ connection e9 h9.
                        bind_ok (connection_endpoint urls connection) _ h9 λ endpoint e10 h10.
                          bind_ok (index (obj model) "apiVersion") _ h10 λ version e11 h11.
                            bind_ok (as_dict info_value) _ h11 λ info e12 h12.
                              bind_ok (index (obj model) "id") _ h12 λ id e13 h13.
                                let base = get "baseModel" model in
                                let named : Fields =
                                  put "model" (str ("azure/" <> deployment)) params in
                                let placed : Fields = put "api_base" (str endpoint) named in
                                let fixed : Fields = put "api_version" version placed in
                                subst (Pinned urls accounts model) (ok_injective h13) (record {
                                  deployment = deployment;
                                  deployment_of = e6 ∙ ap ok (text_part-ok deployment_value e7);
                                  model_param =
                                      get-base "model" fixed base refl
                                      ∙ get-put "api_version" "model" version placed
                                      ∙ get-put "api_base" "model" (str endpoint) named
                                      ∙ get-put_self "model" (str ("azure/" <> deployment)) params;
                                  version = version;
                                  version_of = e11;
                                  version_param =
                                      get-base "api_version" fixed base refl
                                      ∙ get-put_self "api_version" version placed;
                                  alias_value = alias_value;
                                  alias_of = e8;
                                  connection = connection;
                                  connection_of = account_for-LastAt accounts alias_value e9;
                                  endpoint = endpoint;
                                  endpoint_from = e10;
                                  endpoint_param =
                                      get-base "api_base" fixed base refl
                                      ∙ get-put "api_version" "api_base" version placed
                                      ∙ get-put_self "api_base" (str endpoint) named;
                                  account_root =
                                      connection_endpoint-AccountRoot urls connection e10;
                                })

  -- Each model of the list has its own rendered model, in the same order.
  abbrev pub AllPinned : Accounts → Items → Items → Type 0
  AllPinned accounts nil nil = Unit
  AllPinned accounts (cons (obj model) rest) (cons rendered others) =
      Pinned urls accounts model rendered × AllPinned accounts rest others
  AllPinned accounts _ _ = ⊥

  -- Where `rendered_models` renders a list of models over its accounts, each rendered model calls the
  -- configured deployment and API version, at the endpoint of the last connection that has the model's
  -- alias, which is the root of an Azure OpenAI account, whatever options the model has.
  pub render_each-AllPinned :
      (accounts : Accounts) (models : Items) {rendered : Items}
      → render_each urls accounts models ≡ ok rendered
      → AllPinned accounts models rendered
  unfolding render_each
  render_each-AllPinned accounts nil h = subst (AllPinned accounts nil) (ok_injective h) tt
  render_each-AllPinned accounts (cons (obj model) rest) h =
      bind_ok (render_model urls accounts model) _ h λ rendered e1 h1.
        bind_ok (render_each urls accounts rest) _ h1 λ others e2 h2.
          subst (AllPinned accounts (cons (obj model) rest)) (ok_injective h2)
            (render_model-Pinned accounts model e1, render_each-AllPinned accounts rest e2)
  render_each-AllPinned accounts (cons _ rest) h = absurd (cc h)
