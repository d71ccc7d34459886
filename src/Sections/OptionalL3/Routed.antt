-- ===== src/Sections/OptionalL3/Routed.antt =====
-- Which traffic the optional L3 audit sees.
use secure_litellm_on_azure.Base.{
  String, ◌≡◌, ◌≢◌, refl, ◌∙◌, ap, Bool, true, false, Option, none, some, [], ◌∷◌, elem, str_eq,
  str_eq→eq, if◌then◌else◌,
}
use secure_litellm_on_azure.Json.{Json, obj, Fields, get, is_text}
use secure_litellm_on_azure.Fault.{
  Result, ok, index, require, bind_ok, branch_ok, require_ok, ok_injective, ◌>>=◌, ◌>>◌,
}
use secure_litellm_on_azure.Sections.OptionalL3.{
  login_mode, content_mode, l3_settings, is_switched_on, enabled, l3_service, gateway_service,
  upstream,
}

-- The gateway and its audit of content are both native.
pub record Native (config : Fields) : Type 0 where
  pub mode : Json
  pub mode_of : login_mode config ≡ ok mode
  pub native_mode : is_text "native" mode ≡ true
  pub content : Json
  pub content_of : content_mode config ≡ ok content
  pub native_content : is_text "native" content ≡ true

enabled-Native : (config : Fields) → enabled config ≡ ok true → Native config
unfolding enabled
enabled-Native config h = go (get "l3Audit" config) h
  where
    go :
        (o : Option Json)
        → elim o as (λ _. Result Bool) [
          | none ↦ ok false
          | some section ↦ l3_settings section >>= λ settings.
              index (obj settings) "enabled" >>= λ switch.
              require
                (is_switched_on switch)
                "Remove l3Audit to restore the approved native baseline"
              >> (login_mode config >>= λ mode.
                  require
                    (is_text "native" mode)
                    "Optional TypeScript L3 currently requires the native gateway"
                  >> (content_mode config >>= λ content.
                      require
                        (is_text "native" content)
                        "Optional L3 requires a retained native audit rollback policy"
                      >> ok true))
        ]
          ≡ ok true
        → Native config
    go none h = absurd (cc h)
    go (some section) h = bind_ok (l3_settings section) _ h λ settings e1 h1.
        bind_ok (index (obj settings) "enabled") _ h1 λ switch e2 h2.
          require_ok (is_switched_on switch) _ _ h2 λ _ h3.
            bind_ok (login_mode config) _ h3 λ mode e4 h4.
              require_ok (is_text "native" mode) _ _ h4 λ native_mode h5.
                bind_ok (content_mode config) _ h5 λ content e6 h6.
                  require_ok (is_text "native" content) _ _ h6 λ native_content h7. record {
                    mode = mode;
                    mode_of = e4;
                    native_mode = native_mode;
                    content = content;
                    content_of = e6;
                    native_content = native_content;
                  }

services_differ : gateway_service ≢ l3_service
services_differ h = absurd (cc h)

-- If the upstream of a plane is the service of the optional L3 audit, the plane is the API's, and the
-- gateway and its audit of content are both native.
pub upstream-Native :
    (config : Fields) (plane : String)
    → upstream config plane ≡ ok l3_service
    → (plane ≡ "api") × Native config
unfolding upstream
upstream-Native config plane h = require_ok (elem plane ("api" ∷ "admin" ∷ [])) _ _ h λ _ h1.
    bind_ok (if str_eq plane "api" then enabled config else ok false) _ h1 λ l3 e2 h2.
      branch_ok (str_eq plane "api") _ _ e2
        (λ api e3. (str_eq→eq plane "api" api, enabled-Native config (e3 ∙ ap ok (on l3 h2))))
        (λ _ e3. absurd (no_true (on l3 h2) (ok_injective e3)))
  where
    on : (l3 : Bool) → ok (if l3 then l3_service else gateway_service) ≡ ok l3_service → l3 ≡ true
    on true h = refl
    on false h = absurd (services_differ (ok_injective h))

    no_true : {l3 : Bool} → l3 ≡ true → false ≢ l3
    no_true t f = cc (t, f)
