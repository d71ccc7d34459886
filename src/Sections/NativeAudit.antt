-- ===== src/Sections/NativeAudit.antt =====
-- `native_audit_settings` of scripts/native_audit.py.
use secure_litellm_on_azure.Base.{
  Bool, true, false, ◌&&◌, ◌||◌, not, Option, some, [], ◌∷◌, same_set, if◌then◌else◌,
}
use secure_litellm_on_azure.Base.Int.{in_range}
use secure_litellm_on_azure.Json.{
  Json, null, bool, int, str, arr, obj, Items, nil, cons, Fields, end, get, has, keys, is_text,
  truthy,
}
use secure_litellm_on_azure.Fault.{
  Result, ok, err, type_error, attribute_error, ◌>>=◌, ◌>>◌, require, get_or, index,
}

unfoldable pub audit_section : Option Json → Result Fields
unfolding keys
audit_section (some (obj d)) = do
  require (same_set (keys d) ("mode" ∷ "retentionDays" ∷ "contentPolicyAccepted" ∷ []))
      "contentAudit requires mode, retentionDays and contentPolicyAccepted"
  ok d
audit_section _ = do
  require false "contentAudit requires mode, retentionDays and contentPolicyAccepted"
  err type_error

abbrev retention_ok : Json → Bool
retention_ok (int z) = in_range 1 30 z
retention_ok _ = false

abbrev policy_accepted : Json → Bool
policy_accepted (bool b) = b
policy_accepted _ = false

-- `binding.get("auditTeamId") or binding.get("role") == "audit_reader"`
unfoldable pub is_audit_binding : Json → Result Bool
unfolding truthy is_text
is_audit_binding binding = do
  team ← get_or binding "auditTeamId" null
  role ← if truthy team then ok null else get_or binding "role" null
  ok (truthy team || is_text "audit_reader" role)

-- What `for binding in bindings` goes through: the keys of a dict and the characters of a text have no
-- `get`.
unfoldable pub bindings_of : Json → Result Items
unfolding truthy
bindings_of (arr xs) = ok xs
bindings_of (obj d) = if truthy (obj d) then err attribute_error else ok nil
bindings_of (str s) = if truthy (str s) then err attribute_error else ok nil
bindings_of _ = err type_error

-- `any(... for binding in bindings)`
unfoldable pub any_audit_binding : Items → Result Bool
unfolding is_audit_binding
any_audit_binding nil = ok false
any_audit_binding (cons binding rest) = do
  found ← is_audit_binding binding
  let later = any_audit_binding rest
  if found then ok true else later

unfoldable pub native_audit_settings : Fields → Result Fields
unfolding get has audit_section is_text bindings_of any_audit_binding
native_audit_settings config = do
  settings ← audit_section (get "contentAudit" config)
  mode ← index (obj settings) "mode"
  require (is_text "native" mode)
      "Only native contentAudit mode is currently supported; use auditRuntime for enhanced L3"
  days ← index (obj settings) "retentionDays"
  require (retention_ok days) "Native audit retention must be 1 to 30 days"
  policy ← index (obj settings) "contentPolicyAccepted"
  require (policy_accepted policy)
      "Approve native content, retention, backup and delivery limits before publishing"
  require (not (has "auditRuntime" config) && not (has "auditGovernance" config))
      "Native audit cannot be combined with enhanced L3 configuration"
  proxy ← get_or (obj config) "proxy" (obj end)
  bindings ← get_or proxy "bindings" (arr nil)
  list ← bindings_of bindings
  found ← any_audit_binding list
  require (not found)
      "Existing L3 bindings require a separately approved migration; do not silently disable them"
  ok settings
