-- ===== src/Audit/State.antt =====
-- The state of the maintenance window: `load_window` after the call, `target_state` after its calls,
-- `spec_hash`, `snapshot` and `verify_targets` of scripts/audit_window.py.
pub mod Restored
use secure_litellm_on_azure.Base.{
  String, Bool, true, false, ◌&&◌, ◌||◌, Option, none, some, List, [], ◌∷◌, str_eq, if◌then◌else◌,
}
use secure_litellm_on_azure.Base.Int.{pos, in_range}
use secure_litellm_on_azure.Json.{
  Json, null, bool, int, str, obj, Fields, end, field, get, has, put, pop, json_eq, is_text, truthy,
}
use secure_litellm_on_azure.Fault.{
  put_item, Result, ok, err, type_error, value_error, ◌>>=◌, ◌>>◌, require, get_or, index,
}
use secure_litellm_on_azure.Gates.External.{External, fingerprint}
use secure_litellm_on_azure.Gates.Policy.{one_of}
use secure_litellm_on_azure.Gates.Evidence.{as_set, is_set_of}
use secure_litellm_on_azure.Models.Render.{hashable}

-- Python's json module; `loads` has `none` for a `ValueError`, and `dumps` sorts the keys.
pub record Codec : Type 0 where
  pub loads : String → Option Json
  pub dumps : Json → String

abbrev pub window_name : String
window_name = "llmgw-audit-recovery-window"

abbrev pub targets : List String
targets = "deployment" ∷ "cronjob" ∷ []

-- The resources of `target_state`.
pub record Targets : Type 0 where
  pub deployment : Json
  pub cronjob : Json

abbrev pub other_window : String
other_window = "Audit maintenance window belongs to another configuration or target"

unfoldable pub check_window : Json → Json → Result (Unit {0})
unfolding get json_eq one_of as_set is_set_of
check_window scope (obj state) = do
  require (json_eq (entry "version") (int (pos 1)) && json_eq (entry "scope") scope) other_window
  known ← one_of ("pausing" ∷ "paused" ∷ "resuming" ∷ []) (entry "phase")
  require known "Invalid audit maintenance phase"
  resources ← get_or (obj state) "resources" (obj end)
  names ← as_set resources
  require (is_set_of targets names) "Invalid audit maintenance targets"
  where
    entry : String → Json
    entry k = elim (get k state) [ none ↦ null | some v ↦ v ]
check_window scope _ = do require false other_window; err type_error

-- `json.loads(value)`
unfoldable pub loads_value : Codec → Json → Result Json
loads_value codec (str s) = elim (codec.loads s) [
  | none ↦ err (value_error "json.loads")
  | some v ↦ ok v
]
loads_value codec _ = err type_error

-- The state that the resource of the window holds.
unfoldable pub read_window : Codec → Json → Json → Result Json
unfolding loads_value check_window
read_window codec scope resource = do
  contents ← get_or resource "data" (obj end)
  text ← get_or contents "window.json" (str "null")
  state ← loads_value codec text
  check_window scope state
  ok state

-- `resource["spec"]["template"]["spec"].get("serviceAccountName")`
unfoldable pub deployment_account : Json → Result Json
deployment_account resource = do
  spec ← index resource "spec"
  template ← index spec "template"
  pod ← index template "spec"
  get_or pod "serviceAccountName" null

unfoldable pub cronjob_account : Json → Result Json
unfolding deployment_account
cronjob_account resource = do
  spec ← index resource "spec"
  job ← index spec "jobTemplate"
  deployment_account job

unfoldable pub check_accounts : Targets → Result (Unit {0})
unfolding deployment_account cronjob_account is_text
check_accounts t = do
  writer ← deployment_account t.deployment
  require (is_text "llm-api-proxy" writer) "Unexpected audit writer service account"
  retention ← cronjob_account t.cronjob
  require (is_text "l3-retention" retention) "Unexpected audit retention service account"

-- `d.pop(k, None)`, where `d` is a dict; other values have no such call
unfoldable pub pop_item : String → Json → Result Json
unfolding pop
pop_item k (obj d) = ok (obj (pop k d))
pop_item k _ = err type_error

-- The field that pauses a workload, and its value there.
abbrev pub pause_field : String → String
pause_field kind = if str_eq kind "deployment" then "replicas" else "suspend"

abbrev pub pause_value : String → Json
pause_value kind = if str_eq kind "deployment" then int (pos 0) else bool true

abbrev pub default_value : String → Json
default_value kind = if str_eq kind "deployment" then int (pos 1) else bool false

-- `resources[kind]`
abbrev pub target : String → Targets → Json
target kind t = if str_eq kind "deployment" then t.deployment else t.cronjob

unfoldable pub replicas_ok : Json → Bool
replicas_ok (int z) = in_range 1 32 z
replicas_ok _ = false

-- `field in spec`, for a dict
unfoldable pub contains_key : String → Json → Result Bool
unfolding has
contains_key k (obj d) = ok (has k d)
contains_key k _ = err type_error

-- `state["resources"][kind]`
unfoldable pub saved_entry : String → Json → Result Json
saved_entry kind state = do resources ← index state "resources"; index resources kind

module _ (x : External) where
  unfoldable pub spec_hash : Json → Result String
  unfolding fingerprint
  spec_hash resource = do spec ← index resource "spec"; ok (fingerprint x spec)

  -- What the snapshot records of one workload.
  unfoldable pub snapshot_entry : String → Json → Result Json
  unfolding put_item spec_hash contains_key fingerprint
  snapshot_entry kind resource = do
    spec ← index resource "spec"
    desired ← put_item (pause_field kind) (pause_value kind) spec
    metadata ← index resource "metadata"
    uid ← index metadata "uid"
    original ← spec_hash resource
    present ← contains_key (pause_field kind) spec
    value ← get_or spec (pause_field kind) (default_value kind)
    ok (
        obj (
          field "uid" uid (
            field "originalSha256" (str original) (
              field "pausedSha256" (str (fingerprint x desired))
                (field "fieldPresent" (bool present) (field "originalValue" value end))))))

  unfoldable pub snapshot : Targets → Result Json
  unfolding replicas_ok snapshot_entry
  snapshot t = do
    spec ← index t.deployment "spec"
    replicas ← get_or spec "replicas" (int (pos 1))
    require (replicas_ok replicas) "Initial audit writer replicas must be between 1 and 32"
    deployment ← snapshot_entry "deployment" t.deployment
    cronjob ← snapshot_entry "cronjob" t.cronjob
    ok (obj (field "deployment" deployment (field "cronjob" cronjob end)))

  -- One round of the loop of `verify_targets`.
  unfoldable pub verify_target : String → Json → Json → Result (Unit {0})
  unfolding saved_entry spec_hash hashable json_eq is_text
  verify_target kind resource state = do
    saved ← saved_entry kind state
    metadata ← index resource "metadata"
    uid ← index metadata "uid"
    saved_uid ← index saved "uid"
    require (json_eq uid saved_uid) "Audit workload was replaced during maintenance"
    hash ← spec_hash resource
    original_value ← index saved "originalSha256"
    original ← hashable original_value
    paused_value ← index saved "pausedSha256"
    paused ← hashable paused_value
    require (is_text hash original || is_text hash paused)
        "Audit workload changed outside the approved maintenance plan"

  unfoldable pub verify_targets : Targets → Json → Result (Unit {0})
  unfolding verify_target
  verify_targets t state = do
    verify_target "deployment" t.deployment state
    verify_target "cronjob" t.cronjob state

  unfoldable pub is_paused_target : String → Json → Json → Result Bool
  unfolding spec_hash saved_entry is_text
  is_paused_target kind resource state = do
    hash ← spec_hash resource
    saved ← saved_entry kind state
    paused ← index saved "pausedSha256"
    ok (is_text hash paused)

  -- `all(spec_hash(value) == ... for kind, value in resources.items())`
  unfoldable pub all_paused : Targets → Json → Result Bool
  unfolding is_paused_target
  all_paused t state = do
    deployment ← is_paused_target "deployment" t.deployment state
    if deployment then is_paused_target "cronjob" t.cronjob state else ok false

-- The specification that a workload gets: `desired` of `execute_window`.
unfoldable pub desired_spec : String → String → Json → Json → Result Json
unfolding put_item pop_item saved_entry truthy
desired_spec action kind state spec = do
  let pause = put_item (pause_field kind) (pause_value kind) spec
  let resume = do
    saved ← saved_entry kind state
    present ← index saved "fieldPresent"
    let restore = do value ← index saved "originalValue"; put_item (pause_field kind) value spec
    if truthy present then restore else pop_item (pause_field kind) spec
  if str_eq action "audit-pause" then pause else resume
