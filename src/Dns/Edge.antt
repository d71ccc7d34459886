-- ===== src/Dns/Edge.antt =====
-- The checks on the edge deployment in `change_dns` of scripts/dns_runtime.py.
use secure_litellm_on_azure.Base.{
  ℕ, String, ◌<>◌, Bool, false, ◌&&◌, ◌||◌, not, List, [], ◌∷◌, str_eq, ◌==◌,
}
use secure_litellm_on_azure.Base.Text.{text_length, every, is_digit, is_lower}
use secure_litellm_on_azure.Json.{Json, str, obj, Fields, get, holds_text}
use secure_litellm_on_azure.Fault.{Result, ok, err, type_error, ◌>>=◌, ◌>>◌, require, get_or, index}
use secure_litellm_on_azure.Gates.Policy.{is_true}
use secure_litellm_on_azure.Dns.Settings.{split_on, text_part}

abbrev is_label_char : ℕ → Bool
is_label_char c = is_lower c || is_digit c || (c == b'-')

abbrev is_label : String → Bool
is_label s = not (text_length s == 0) && every is_label_char s

-- The labels of a host name that `[a-z0-9-]+\.(?:[a-z0-9-]+\.)?azurefd\.net` matches.
unfoldable pub endpoint_labels : List String → Bool
endpoint_labels (a ∷ b ∷ c ∷ []) = is_label a && str_eq b "azurefd" && str_eq c "net"
endpoint_labels (a ∷ d ∷ b ∷ c ∷ []) =
    is_label a && is_label d && str_eq b "azurefd" && str_eq c "net"
endpoint_labels _ = false

-- `re.fullmatch(endpoint_pattern, value)`
unfoldable pub is_endpoint : Json → Result Bool
unfolding endpoint_labels split_on
is_endpoint (str s) = ok (endpoint_labels (split_on b'.' s))
is_endpoint _ = err type_error

-- The two endpoints; `lower` changes nothing in a text that the pattern matches.
unfoldable pub edge_targets : Fields → Result (String × String)
unfolding is_endpoint text_part
edge_targets edge = do
  let message : String = "DNS targets must be distinct deployed Front Door endpoints"
  api ← get_or (obj edge) "endpointHost" (str "")
  api_matches ← is_endpoint api
  require api_matches message
  admin ← get_or (obj edge) "adminEndpointHost" (str "")
  admin_matches ← is_endpoint admin
  require admin_matches message
  api_host ← text_part api
  admin_host ← text_part admin
  require (not (str_eq api_host admin_host)) message
  ok (api_host, admin_host)

unfoldable pub check_edge : Fields → Fields → Result (String × String)
unfolding edge_targets holds_text get
check_edge config edge = do
  base_value ← index (obj config) "baseDomain"
  base ← text_part base_value
  require
      (holds_text ("llm-api." <> base) (get "apiHost" edge)
        && holds_text ("llm-admin." <> base) (get "adminHost" edge))
      "DNS hosts must match the deployed split-plane Front Door"
  targets ← edge_targets edge
  require (holds_text "SourceIpAllowlistAndNativeLogin" (get "adminAccessMode" edge))
      "Admin DNS requires the reviewed source-IP and native-login access mode"
  ok targets

unfoldable pub traffic_enabled : Fields → Bool
unfolding get is_true
traffic_enabled edge =
    is_true (get "apiTrafficEnabled" edge) && is_true (get "adminTrafficEnabled" edge)
