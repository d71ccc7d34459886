-- ===== src/Models/Endpoint/Root.antt =====
-- Every endpoint that is accepted is the root of an account.
use secure_litellm_on_azure.Base.{◌≡◌, sym, String, ◌<>◌, true, false, Option, none, some, arith}
use secure_litellm_on_azure.Json.{Json, str}
use secure_litellm_on_azure.Fault.{
  Result, ok, err, type_error, ◌>>◌, require, get_or, index, bind_ok, require_ok, ok_injective,
}
use secure_litellm_on_azure.Dns.Settings.{text_part}
use secure_litellm_on_azure.Models.Endpoint.{
  SplitUrl, Urls, account_domain, is_account_host, is_plain_url, is_account_root, only_plain,
  account_root, normalize_openai_endpoint, connection_endpoint,
}

-- The endpoint is `https://` and the host of an account, with nothing after it.
abbrev pub AccountRoot : String → Type 0
AccountRoot endpoint =
    (host : String) × (endpoint ≡ "https://" <> host) × (is_account_host host ≡ true)

module _ (urls : Urls) where
  account_root-AccountRoot :
      (u : SplitUrl) {endpoint : String} → account_root urls u ≡ ok endpoint → AccountRoot endpoint
  unfolding account_root is_account_root
  account_root-AccountRoot u h = go u.hostname h
    where
      go :
          (o : Option String) {endpoint : String}
          → elim o as (λ _. Result String) [
            | none ↦ (require false (only_plain urls) >> err type_error)
            | some host ↦
                (require (is_account_root urls u host) (only_plain urls) >> ok ("https://" <> host))
          ]
            ≡ ok endpoint
          → AccountRoot endpoint
      go none h = absurd (cc h)
      go (some host) h =
          require_ok (is_account_root urls u host) (only_plain urls) (ok ("https://" <> host)) h
            λ root same. (host, sym (ok_injective same), host_of root)
        where
          host_of : is_account_root urls u host ≡ true → is_account_host host ≡ true
          host_of r = ground arith

  normalize-AccountRoot :
      (value : Json) {endpoint : String}
      → normalize_openai_endpoint urls value ≡ ok endpoint
      → AccountRoot endpoint
  unfolding normalize_openai_endpoint
  normalize-AccountRoot (str s) h =
      require_ok (is_plain_url s) _ _ h λ plain h1. go (urls.split s) h1
    where
      go :
          (o : Option SplitUrl) {endpoint : String}
          → elim o as (λ _. Result String) [
            | none ↦
                (require false "Azure OpenAI endpoint has an invalid URL or port" >> err type_error)
            | some u ↦ account_root urls u
          ]
            ≡ ok endpoint
          → AccountRoot endpoint
      go none h = absurd (cc h)
      go (some u) h = account_root-AccountRoot u h
  normalize-AccountRoot _ h = absurd (cc h)

  -- If a connection has an endpoint, it is `https://` and the host name of an Azure OpenAI account,
  -- without a user, a port, a path, a query or a fragment.
  pub connection_endpoint-AccountRoot :
      (connection : Json) {endpoint : String}
      → connection_endpoint urls connection ≡ ok endpoint
      → AccountRoot endpoint
  unfolding connection_endpoint
  connection_endpoint-AccountRoot connection h =
      bind_ok (index connection "accountName") _ h λ name_value e1 h1.
        bind_ok (text_part name_value) _ h1 λ name e2 h2.
          bind_ok (get_or connection "endpoint" (str ("https://" <> name <> account_domain))) _ h2
            λ value e3 h3. normalize-AccountRoot value h3
