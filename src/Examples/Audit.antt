-- ===== src/Examples/Audit.antt =====
-- A maintenance window over a deployment and a cron job.
use secure_litellm_on_azure.Base.{
  String, ◌≡◌, refl, inl, Bool, true, false, some, [], all, str_eq, if◌then◌else◌,
}
use secure_litellm_on_azure.Base.Int.{pos}
use secure_litellm_on_azure.Json.{Json, bool, int, str, obj, end, field, get}
use secure_litellm_on_azure.Fault.{ok, index}
use secure_litellm_on_azure.Gates.External.{fingerprint}
use secure_litellm_on_azure.Audit.Cluster.{Cluster}
use secure_litellm_on_azure.Audit.State.{Codec, Targets, snapshot, desired_spec, saved_entry}
use secure_litellm_on_azure.Audit.State.Restored.{desired_spec-restores}
use secure_litellm_on_azure.Audit.Window.{plan_window, execute_window}
use secure_litellm_on_azure.Audit.Window.Reads.{is_asking, plan_window-asks}
use secure_litellm_on_azure.Audit.Window.Guarded.{Guarded}
use secure_litellm_on_azure.Audit.Window.Confirmed.{Confirmed, execute_window-Confirmed}
use secure_litellm_on_azure.Audit.Window.Executed.{execute_window-Guarded}
use secure_litellm_on_azure.Examples.Gates.{stand_in, hash}

abbrev pod_of : String → Json
pod_of account = obj (field "spec" (obj (field "serviceAccountName" (str account) end)) end)

abbrev metadata : Json
metadata = obj (field "uid" (str "u1") end)

-- Without replicas, so that the default counts.
abbrev deployment_spec : Json
deployment_spec = obj (field "template" (pod_of "llm-api-proxy") end)

abbrev deployment : Json
deployment = obj (field "metadata" metadata (field "spec" deployment_spec end))

abbrev cronjob : Json
cronjob = obj (
    field "metadata" metadata (
      field "spec"
        (obj (
          field "suspend" (bool false) (
            field "jobTemplate"
              (obj (field "spec" (obj (field "template" (pod_of "l3-retention") end)) end)) end)))
        end))

abbrev workloads : Targets
workloads = record { deployment = deployment; cronjob = cronjob }

abbrev entry : Bool → Json → Json
entry present value = obj (
    field "uid" (str "u1") (
      field "originalSha256" (str hash) (
        field "pausedSha256" (str hash)
          (field "fieldPresent" (bool present) (field "originalValue" value end)))))

abbrev saved : Json
saved =
    obj (
      field "deployment" (entry false (int (pos 1)))
        (field "cronjob" (entry true (bool false)) end))

abbrev state : Json
state = obj (
    field "version" (int (pos 1)) (
      field "scope" (str "scope")
        (field "phase" (str "pausing") (field "resources" saved (field "id" (str "w1") end)))))

-- The window is there, and its text is read as the state.
abbrev texts : Codec
texts = record { loads = λ s. some state; dumps = λ v. "state" }

abbrev window : Json
window =
    obj (field "metadata" metadata (field "data" (obj (field "window.json" (str "state") end)) end))

abbrev steady : Cluster
steady = record {
  get = λ h kind name optional. ok (
      if str_eq kind "configmap"
      then window
      else if str_eq kind "deployment"
      then deployment
      else cronjob);
  create = λ h v. ok tt;
  patch = λ h kind name operations. ok tt;
  delete = λ h kind name uid. ok tt;
  assert_no_recovery_jobs = λ h. ok tt;
  assert_quiet = λ h. ok tt;
  wait_quiet = λ h. ok tt;
  wait_ready = λ h. ok tt;
}

pause_run :
    (execute_window stand_in texts steady (str "scope") "audit-pause" hash "w2" []).0
    ≡ ok (
        obj (
          field "windowId"
            (str "w1")
            (field "phase" (str "paused") (field "stageAccepted" (bool false) end))))
unfolding execute_window
pause_run = refl

execute_window-Guarded_example :
    Guarded stand_in texts steady
      (str "scope")
      ((execute_window stand_in texts steady (str "scope") "audit-pause" hash "w2" []).1)
execute_window-Guarded_example =
    execute_window-Guarded stand_in texts steady (str "scope") "audit-pause" hash "w2"

plan_window-asks_example :
    all is_asking ((plan_window stand_in texts steady (str "scope") "audit-pause" []).1) ≡ true
plan_window-asks_example = plan_window-asks stand_in texts steady (str "scope") "audit-pause"

snapshot_run : snapshot stand_in workloads ≡ ok saved
unfolding snapshot get
snapshot_run = refl

resources_run : index state "resources" ≡ ok saved
unfolding get
resources_run = refl

spec_run : index deployment "spec" ≡ ok deployment_spec
unfolding get
spec_run = refl

abbrev paused_spec : Json
paused_spec = obj (field "template" (pod_of "llm-api-proxy") (field "replicas" (int (pos 0)) end))

paused_run : desired_spec "audit-pause" "deployment" state deployment_spec ≡ ok paused_spec
unfolding desired_spec
paused_run = refl

desired_spec-restores_example :
    (desired_spec "audit-resume" "deployment" state paused_spec ≡ ok deployment_spec)
    × (entry : Json) × (saved_entry "deployment" state ≡ ok entry)
    × (index entry "pausedSha256" ≡ ok (str (fingerprint stand_in paused_spec)))
desired_spec-restores_example =
    desired_spec-restores stand_in workloads "deployment" state deployment_spec paused_spec
      (inl refl) snapshot_run resources_run spec_run paused_run

execute_window-Confirmed_example :
    Confirmed stand_in texts steady
      (str "scope")
      ((execute_window stand_in texts steady (str "scope") "audit-pause" hash "w2" []).1)
execute_window-Confirmed_example =
    execute_window-Confirmed stand_in texts steady (str "scope") hash "w2" pause_run
