-- ===== src/Dns/Plan.antt =====
-- The part of `change_dns` of scripts/dns_runtime.py that computes the plan.
use secure_litellm_on_azure.Base.{
  ℕ, String, ◌<>◌, Bool, false, ◌&&◌, ◌||◌, not, List, [], ◌∷◌, same_set, str_eq, if◌then◌else◌,
}
use secure_litellm_on_azure.Base.Int.{pos}
use secure_litellm_on_azure.Json.{
  Json, null, int, str, obj, Fields, end, field, keys, put, json_eq, truthy, is_text,
}
use secure_litellm_on_azure.Fault.{Result, ok, err, type_error, ◌>>=◌, ◌>>◌, require, get_or, index}
use secure_litellm_on_azure.Gates.Evidence.{as_set, is_set_of}
use secure_litellm_on_azure.Gates.External.{External, stage_fingerprint}
use secure_litellm_on_azure.Dns.Settings.{Settings, dns_settings}
use secure_litellm_on_azure.Dns.Edge.{traffic_enabled, check_edge}

abbrev pub planes : List String
planes = "api" ∷ "admin" ∷ []

-- `isinstance(current, dict) and set(current) == {"api", "admin"}`
unfoldable pub covers_planes : Json → Bool
unfolding keys
covers_planes (obj d) = same_set (keys d) planes
covers_planes _ = false

-- `current[plane]["properties"] if current[plane] else None`
unfoldable pub plane_properties : Json → String → Result Json
unfolding truthy
plane_properties current plane = do
  entry ← index current plane
  if truthy entry then index entry "properties" else ok null

-- `value in (before[plane], after[plane])`
unfoldable pub is_recorded : Json → Json → Json → String → Result Bool
unfolding plane_properties json_eq
is_recorded current before after plane = do
  value ← plane_properties current plane
  old ← index before plane
  new ← index after plane
  ok (json_eq value old || json_eq value new)

unfoldable pub all_recorded : Json → Json → Json → Result Bool
unfolding is_recorded
all_recorded current before after = do
  api ← is_recorded current before after "api"
  if api then is_recorded current before after "admin" else ok false

-- The checks on a checkpoint that exists.
unfoldable pub check_checkpoint : Json → Json → Json → Result (Unit {0})
unfolding all_recorded as_set is_set_of json_eq truthy
check_checkpoint scope current stored =
    if truthy stored
    then (do
      held ← get_or stored "scope" null
      require (json_eq held scope)
          "DNS checkpoint belongs to another configuration; preserve it for separate recovery"
      before ← get_or stored "before" (obj end)
      after ← get_or stored "after" (obj end)
      before_set ← as_set before
      after_set ← as_set after
      require (is_set_of planes before_set && is_set_of planes after_set)
          "DNS checkpoint does not cover both gateway records"
      unchanged ← all_recorded current before after
      require unchanged
          "Current DNS was modified externally; refuse automatic continuation or rollback")
    else ok tt

abbrev both_planes : Json → Json → Json
both_planes api admin = obj (field "api" api (field "admin" admin end))

unfoldable pub cname_record : ℕ → String → Json
cname_record ttl host = obj (
    field "TTL" (int (pos ttl)) (
      field "CNAMERecord" (obj (field "cname" (str host) end))
        (field "metadata" (obj (field "managedBy" (str "llmgw-workflow") end)) end)))

unfoldable pub published_records : Settings → String × String → Json
unfolding cname_record
published_records settings targets =
    both_planes (cname_record settings.ttl targets.0) (cname_record settings.ttl targets.1)

-- A checkpoint for the first publication.
unfoldable pub new_checkpoint : Json → Json → Json → String → Result Json
unfolding plane_properties
new_checkpoint scope current desired revision = do
  api ← plane_properties current "api"
  admin ← plane_properties current "admin"
  ok (
      obj (
        field "scope" scope (
          field "before" (both_planes api admin) (
            field "after" desired
              (field "phase" (str "prepared") (field "revision" (str revision) end))))))

-- The wanted records and the checkpoint of a publication.
unfoldable pub publish_plan : Fields → Json → Json → Json → Json → String → Result (Json × Json)
unfolding traffic_enabled new_checkpoint json_eq is_text truthy
publish_plan edge scope current stored desired revision = do
  require (traffic_enabled edge) "Approve and enable both edge planes before changing DNS"
  if truthy stored
      then (do
        after ← get_or stored "after" null
        phase ← get_or stored "phase" null
        require (json_eq after desired && not (is_text "rolled-back" phase))
            "Existing DNS checkpoint must not be replaced"
        ok (desired, stored))
      else (do fresh ← new_checkpoint scope current desired revision; ok (desired, fresh))

unfoldable pub rollback_plan : Json → Result (Json × Json)
unfolding truthy
rollback_plan stored = do
  require (truthy stored) "No approved DNS checkpoint exists"
  desired ← index stored "before"
  ok (desired, stored)

-- `{**checkpoint, "phase": phase}`
unfoldable pub with_phase : String → Json → Result Json
unfolding put
with_phase phase (obj d) = ok (obj (put "phase" (str phase) d))
with_phase phase _ = err type_error

unfoldable pub plan_document : String → String → Json → Json → Json → Json → Json
plan_document action revision scope current held desired = obj (
    field "stage" (int (pos 9)) (
      field "action" (str action) (
        field "revision" (str revision) (
          field "scope" scope
            (field "before" current (field "checkpoint" held (field "desired" desired end)))))))

unfoldable pub dns_scope : External → Fields → Settings → Result Json
unfolding stage_fingerprint
dns_scope x config settings = stage_fingerprint x 9 config >>= λ hash. ok (
    obj (
      field "configSha256" (str hash) (
        field "records"
          (obj (
            field "api" (str (settings.zone_id <> "/CNAME/" <> settings.api_record))
              (field "admin" (str (settings.zone_id <> "/CNAME/" <> settings.admin_record)) end)))
          end)))

-- What the configuration and the edge fix: the settings, the wanted records and the scope.
unfoldable pub dns_inputs : External → Fields → Fields → Result (Json × Json)
unfolding dns_settings check_edge dns_scope published_records
dns_inputs x config edge = dns_settings config >>= λ settings. check_edge config edge >>= λ targets.
    dns_scope x config settings >>= λ scope. ok (scope, published_records settings targets)

unfoldable pub plan_for :
    String → Fields → Json → Json → Json → Json → String → Result (Json × Json)
unfolding publish_plan rollback_plan
plan_for action edge scope current stored published revision =
    if str_eq action "dns-publish"
    then publish_plan edge scope current stored published revision
    else rollback_plan stored

-- `(current[plane]["properties"] if current[plane] else None) == desired[plane]`
unfoldable pub plane_done : Json → Json → String → Result Bool
unfolding plane_properties json_eq
plane_done current desired plane = plane_properties current plane >>= λ value.
    index desired plane >>= λ wanted. ok (json_eq value wanted)

unfoldable pub planes_done : Json → Json → Result Bool
unfolding plane_done
planes_done current desired = plane_done current desired "api" >>= λ api.
    if api then plane_done current desired "admin" else ok false
