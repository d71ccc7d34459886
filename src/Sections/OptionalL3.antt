-- ===== src/Sections/OptionalL3.antt =====
-- scripts/optional_l3.py.
pub mod Routed
use secure_litellm_on_azure.Base.{
  String, Bool, true, false, ◌&&◌, Option, none, some, List, [], ◌∷◌, elem, same_set, str_eq,
  if◌then◌else◌,
}
use secure_litellm_on_azure.Json.{Json, null, bool, obj, Fields, end, get, has, keys, is_text}
use secure_litellm_on_azure.Fault.{Result, ok, err, type_error, ◌>>=◌, ◌>>◌, require, get_or, index}

-- `config.get("application", {}).get("authentication", {}).get("mode")`
unfoldable pub login_mode : Fields → Result Json
login_mode config = do
  application ← get_or (obj config) "application" (obj end)
  authentication ← get_or application "authentication" (obj end)
  get_or authentication "mode" null

-- `config.get("contentAudit", {}).get("mode")`
unfoldable pub content_mode : Fields → Result Json
content_mode config = do
  content ← get_or (obj config) "contentAudit" (obj end)
  get_or content "mode" null

abbrev is_switched_on : Json → Bool
is_switched_on (bool b) = b
is_switched_on _ = false

unfoldable pub l3_settings : Json → Result Fields
unfolding keys
l3_settings (obj d) = do
  require (same_set (keys d) ("enabled" ∷ [])) "l3Audit requires exactly enabled"
  ok d
l3_settings _ = do require false "l3Audit requires exactly enabled"; err type_error

unfoldable pub enabled : Fields → Result Bool
unfolding get l3_settings login_mode content_mode is_text
enabled config = elim (get "l3Audit" config) [
  | none ↦ ok false
  | some section ↦ (do
    settings ← l3_settings section
    switch ← index (obj settings) "enabled"
    require (is_switched_on switch) "Remove l3Audit to restore the approved native baseline"
    mode ← login_mode config
    require (is_text "native" mode) "Optional TypeScript L3 currently requires the native gateway"
    content ← content_mode config
    require (is_text "native" content)
        "Optional L3 requires a retained native audit rollback policy"
    ok true)
]

abbrev pub l3_service : String
l3_service = "http://l3-audit.litellm.svc.cluster.local:8080"

abbrev pub gateway_service : String
gateway_service = "http://litellm.litellm.svc.cluster.local:4000"

unfoldable pub upstream : Fields → String → Result String
unfolding enabled
upstream config plane = do
  require (elem plane ("api" ∷ "admin" ∷ [])) "Unknown ingress plane"
  l3 ← if str_eq plane "api" then enabled config else ok false
  ok (if l3 then l3_service else gateway_service)
