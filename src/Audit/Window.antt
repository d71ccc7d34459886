-- ===== src/Audit/Window.antt =====
-- The programs of scripts/audit_window.py.
pub mod Reads
pub mod Guarded
pub mod Safe
pub mod Executed
pub mod Confirmed
use secure_litellm_on_azure.Base.{
  String, Bool, true, false, ◌&&◌, ◌||◌, not, List, [], ◌∷◌, elem, str_eq, if◌then◌else◌,
}
use secure_litellm_on_azure.Base.Int.{pos}
use secure_litellm_on_azure.Json.{
  is_null, Json, null, bool, int, str, obj, Fields, end, field, put, is_text, json_eq,
}
use secure_litellm_on_azure.Fault.{put_item, Result, ok, err, require, index}
use secure_litellm_on_azure.Gates.External.{External, fingerprint}
use secure_litellm_on_azure.Audit.Cluster.{
  Operation, test, replace, Cluster, Program, ◌>>=◌, ◌>>◌, lift, get_resource, create, patch,
  delete, assert_no_recovery_jobs, assert_quiet, wait_quiet, wait_ready,
}
use secure_litellm_on_azure.Audit.Plan.{uid_of, planned_state, window_plan}
use secure_litellm_on_azure.Audit.State.{
  Codec, window_name, Targets, read_window, check_accounts, target, spec_hash, snapshot,
  verify_targets, all_paused, desired_spec,
}

-- `TARGETS[kind]`
abbrev pub target_name : String → String
target_name kind = if str_eq kind "deployment" then "llm-api-proxy" else "l3-retention"

-- The plan of `plan_window`, with the state that it fixes.
pub record Plan : Type 0 where
  pub document : Json
  pub window : Json

module _ (x : External) (codec : Codec) (cluster : Cluster) where
  -- The resource and its state, both null where there is no window.
  unfoldable pub load_window : Json → Program (Json × Json)
  unfolding is_null read_window
  load_window scope = do
    resource ← get_resource cluster "configmap" window_name true
    if is_null resource
        then lift (ok (null, null))
        else (do state ← lift (read_window codec scope resource); lift (ok (resource, state)))

  unfoldable pub target_state : Program Targets
  unfolding check_accounts
  target_state = do
    deployment ← get_resource cluster "deployment" (target_name "deployment") false
    cronjob ← get_resource cluster "cronjob" (target_name "cronjob") false
    lift (check_accounts (record { deployment = deployment; cronjob = cronjob }))
    lift (ok (record { deployment = deployment; cronjob = cronjob }))

  unfoldable pub save_window : Json → Json → Program (Unit {0})
  unfolding uid_of
  save_window resource state = do
    uid ← lift (uid_of resource)
    contents ← lift (index resource "data")
    patch cluster "configmap" window_name (
        test "/metadata/uid" uid
        ∷ test "/data" contents
        ∷ replace "/data" (obj (field "window.json" (str (codec.dumps state)) end))
        ∷ [])

  unfoldable pub plan_window : Json → String → Program Plan
  unfolding load_window target_state planned_state window_plan
  plan_window scope action = do
    lift (require (elem action ("audit-pause" ∷ "audit-resume" ∷ [])) "Invalid audit window action")
    loaded ← load_window scope
    resources ← target_state
    assert_no_recovery_jobs cluster
    window ← lift (planned_state x scope action (loaded.1) resources)
    document ← lift (window_plan x action (loaded.0) window resources)
    lift (ok (record { document = document; window = window }))

  unfoldable pub patch_target : String → Json → Json → Program (Unit {0})
  unfolding json_eq uid_of
  patch_target kind resource desired = do
    spec ← lift (index resource "spec")
    if json_eq spec desired then lift (ok tt) else (do
      uid ← lift (uid_of resource)
      patch cluster kind (target_name kind)
          (test "/metadata/uid" uid ∷ test "/spec" spec ∷ replace "/spec" desired ∷ []))

  -- One round of the loop over the workloads.
  unfoldable pub move_target : String → Json → String → Program (Unit {0})
  unfolding target_state verify_targets desired_spec patch_target
  move_target action state kind = do
    resources ← target_state
    lift (verify_targets x resources state)
    spec ← lift (index (target kind resources) "spec")
    desired ← lift (desired_spec action kind state spec)
    patch_target kind (target kind resources) desired

  -- `state["phase"] = phase` and `save_window`: the changed state.
  unfoldable pub save_phase : String → Json → Json → Program Json
  unfolding put_item save_window
  save_phase phase resource state = do
    changed ← lift (put_item "phase" (str phase) state)
    save_window resource changed
    lift (ok changed)

  -- The state that the window is created with, `id` being `str(uuid4())`.
  unfoldable pub create_window : String → Json → Program (Unit {0})
  unfolding put_item
  create_window id window = do
    state ← lift (put_item "id" (str id) window)
    create cluster (
        obj (
          field "apiVersion" (str "v1") (
            field "kind" (str "ConfigMap") (
              field "metadata" (obj (field "name" (str window_name) end))
                (field "data" (obj (field "window.json" (str (codec.dumps state)) end)) end)))))

  unfoldable pub finish_pause : Json → Json → Program Json
  unfolding target_state all_paused load_window save_phase
  finish_pause scope state = do
    wait_quiet cluster
    resources ← target_state
    paused ← lift (all_paused x resources state)
    lift (require paused "Audit writers did not remain paused")
    loaded ← load_window scope
    save_phase "paused" (loaded.0) (loaded.1)

  unfoldable pub finish_resume : Json → Json → Program Json
  unfolding load_window uid_of
  finish_resume scope state = do
    wait_ready cluster
    loaded ← load_window scope
    uid ← lift (uid_of (loaded.0))
    delete cluster "configmap" window_name uid
    lift (ok state)

  abbrev first_kind : String → String
  first_kind action = if str_eq action "audit-pause" then "cronjob" else "deployment"

  abbrev second_kind : String → String
  second_kind action = if str_eq action "audit-pause" then "deployment" else "cronjob"

  unfoldable pub window_result : String → Json → Result Json
  window_result action state = elim (index state "id") [
    | err fault ↦ err fault
    | ok id ↦ ok (
        obj (
          field "windowId" id (
            field "phase" (str (if str_eq action "audit-pause" then "paused" else "resumed"))
              (field "stageAccepted" (bool false) end))))
  ]

  unfoldable pub execute_window : Json → String → String → String → Program Json
  unfolding plan_window fingerprint load_window is_null create_window save_phase move_target
      finish_pause finish_resume window_result
  execute_window scope action approved id = do
    plan ← plan_window scope action
    lift (
        require (str_eq (fingerprint x plan.document) approved)
          "Audit window plan changed or was not approved")
    before ← load_window scope
    if is_null (before.1) then create_window id plan.window else lift (ok tt)
    loaded ← load_window scope
    state ←
        if str_eq action "audit-resume"
        then save_phase "resuming" (loaded.0) (loaded.1)
        else lift (ok (loaded.1))
    move_target action state (first_kind action)
    move_target action state (second_kind action)
    final ←
        if str_eq action "audit-pause" then finish_pause scope state else finish_resume scope state
    lift (window_result action final)

  unfoldable pub assert_paused : Json → Program Json
  unfolding load_window is_null target_state verify_targets all_paused fingerprint uid_of is_text
  assert_paused scope = do
    loaded ← load_window scope
    phase ← if is_null (loaded.1) then lift (ok null) else lift (index (loaded.1) "phase")
    lift (
        require (not (is_null (loaded.1)) && is_text "paused" phase)
          "Run the approved audit-pause workflow before recovery")
    resources ← target_state
    lift (verify_targets x resources (loaded.1))
    paused ← lift (all_paused x resources (loaded.1))
    lift (require paused "Audit workload is not paused")
    assert_quiet cluster
    uid ← lift (uid_of (loaded.0))
    id ← lift (index (loaded.1) "id")
    lift (
        ok (
          obj (
            field "uid" uid
              (field "stateSha256" (str (fingerprint x (loaded.1))) (field "windowId" id end)))))
