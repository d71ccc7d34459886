-- ===== src/Audit/Plan.antt =====
-- The plan of `plan_window` of scripts/audit_window.py, once the calls are made.
use secure_litellm_on_azure.Base.{String, ◌||◌, not, str_eq, if◌then◌else◌}
use secure_litellm_on_azure.Base.Int.{pos}
use secure_litellm_on_azure.Json.{is_null, Json, null, int, str, obj, end, field, is_text}
use secure_litellm_on_azure.Fault.{Result, ok, ◌>>=◌, ◌>>◌, require, index}
use secure_litellm_on_azure.Gates.External.{External}
use secure_litellm_on_azure.Audit.State.{Targets, spec_hash, snapshot, verify_targets}

-- `resource["metadata"]["uid"]`
unfoldable pub uid_of : Json → Result Json
uid_of resource = do metadata ← index resource "metadata"; index metadata "uid"

-- `resource["metadata"]["uid"] if resource else None`; a resource that was found is not empty
unfoldable pub checkpoint_uid : Json → Result Json
unfolding uid_of
checkpoint_uid null = ok null
checkpoint_uid resource = uid_of resource

module _ (x : External) where
  -- The state of a new window.
  unfoldable pub fresh_state : Json → String → Targets → Result Json
  unfolding snapshot
  fresh_state scope action t = do
    require (str_eq action "audit-pause") "No audit window exists to resume"
    resources ← snapshot x t
    ok (
        obj (
          field "version" (int (pos 1)) (
            field "scope" scope (field "phase" (str "pausing") (field "resources" resources end)))))

  unfoldable pub check_state : String → Json → Targets → Result Json
  unfolding verify_targets is_text
  check_state action state t = do
    phase ← if str_eq action "audit-pause" then index state "phase" else ok null
    require (not (str_eq action "audit-pause") || not (is_text "resuming" phase))
        "Finish the interrupted resume before pausing again"
    verify_targets x t state
    ok state

  -- The state of the plan: that of the window, or a new one.
  unfoldable pub planned_state : Json → String → Json → Targets → Result Json
  unfolding is_null fresh_state check_state
  planned_state scope action state t =
      if is_null state then fresh_state scope action t else check_state action state t

  unfoldable pub window_plan : String → Json → Json → Targets → Result Json
  unfolding checkpoint_uid spec_hash
  window_plan action resource window t = do
    uid ← checkpoint_uid resource
    deployment ← spec_hash x t.deployment
    cronjob ← spec_hash x t.cronjob
    ok (
        obj (
          field "action" (str action) (
            field "window" window (
              field "checkpointUid" uid (
                field "observed"
                  (obj (field "deployment" (str deployment) (field "cronjob" (str cronjob) end)))
                  end)))))
