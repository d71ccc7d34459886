-- ===== src/Audit/Window/Reads.antt =====
-- A plan of the maintenance window changes nothing.
use secure_litellm_on_azure.Base.{String, ◌≡◌, refl, Bool, true, false, arith, [], ◌∷◌, all, elem}
use secure_litellm_on_azure.Json.{is_null, Json}
use secure_litellm_on_azure.Fault.{Result, ok, err, require}
use secure_litellm_on_azure.Gates.External.{External}
use secure_litellm_on_azure.Calls.{call}
use secure_litellm_on_azure.Calls.Logic.{
  From, Ends, bind_From, branch_From, lift_then, lift_From, call_From,
}
use secure_litellm_on_azure.Audit.Cluster.{
  Call, got, created, patched, deleted, asserted_no_recovery, asserted_quiet, waited_quiet,
  waited_ready, History, Cluster, lift, get_resource, assert_no_recovery_jobs,
}
use secure_litellm_on_azure.Audit.State.{Codec, window_name, read_window, check_accounts}
use secure_litellm_on_azure.Audit.Plan.{planned_state, window_plan}
use secure_litellm_on_azure.Audit.Window.{target_name, load_window, target_state, plan_window}

-- The call asks and changes nothing.
abbrev pub is_asking : Call → Bool
is_asking (got kind name optional) = true
is_asking asserted_no_recovery = true
is_asking asserted_quiet = true
is_asking waited_quiet = true
is_asking waited_ready = true
is_asking (created resource) = false
is_asking (patched kind name operations) = false
is_asking (deleted kind name uid) = false

-- A fact on the history that no asking call changes.
pub record Lasting (P : History → Type 0) : Type 0 where
  pub asked : (c : Call) (h : History) → is_asking c ≡ true → P h → P (c ∷ h)

module _ {P E : History → Type 0} (lasting : Lasting P) (ends : (h : History) → P h → E h) where
  pub keeps_lift : {A : Type 0} (result : Result A) → From P (lift result) (λ _. P) E
  keeps_lift result = lift_From result ends (λ a e h p. p)

  pub keeps_call :
      {A : Type 0} (c : Call) (answer : History → Result A)
      → is_asking c ≡ true
      → From P (call c answer) (λ _. P) E
  keeps_call c answer asks =
      call_From c answer (λ h p. ends (c ∷ h) (lasting.asked c h asks p))
        (λ h p a e. lasting.asked c h asks p)

  module _ (x : External) (codec : Codec) (cluster : Cluster) where
    pub keeps_target_state : From P (target_state x codec cluster) (λ _. P) E
    unfolding target_state
    keeps_target_state =
        bind_From (get_resource cluster "deployment" (target_name "deployment") false) _
          (keeps_call _ _ refl)
          λ deployment.
            bind_From (get_resource cluster "cronjob" (target_name "cronjob") false) _
              (keeps_call _ _ refl)
              λ cronjob.
                lift_then (check_accounts (record { deployment = deployment; cronjob = cronjob })) _
                  ends λ _ _. keeps_lift _

    pub keeps_load_window : (scope : Json) → From P (load_window x codec cluster scope) (λ _. P) E
    unfolding load_window
    keeps_load_window scope =
        bind_From (get_resource cluster "configmap" window_name true) _ (keeps_call _ _ refl)
          λ resource.
            branch_From (is_null resource) _ _ (keeps_lift _)
              (lift_then (read_window codec scope resource) _ ends λ state _. keeps_lift _)

    pub keeps_plan_window :
        (scope : Json) (action : String)
        → From P (plan_window x codec cluster scope action) (λ _. P) E
    unfolding plan_window
    keeps_plan_window scope action =
        lift_then (require (elem action ("audit-pause" ∷ "audit-resume" ∷ [])) _) _ ends λ _ _.
          bind_From (load_window x codec cluster scope) _ (keeps_load_window scope) λ loaded.
            bind_From (target_state x codec cluster) _ keeps_target_state λ resources.
              bind_From (assert_no_recovery_jobs cluster) _ (keeps_call _ _ refl) λ _.
                lift_then (planned_state x scope action (loaded.1) resources) _ ends λ window _.
                  lift_then (window_plan x action (loaded.0) window resources) _ ends
                    λ document _. keeps_lift _

abbrev Asks : History → Type 0
Asks h = all is_asking h ≡ true

Asks-Lasting : Lasting Asks
Asks-Lasting = record { asked = λ c h asks p. ground arith }

asked_only :
    {A : Type 0} (out : Result A × History)
    → Ends (λ _. Asks) Asks out
    → all is_asking (out.1) ≡ true
asked_only (ok a, h) p = p
asked_only (err e, h) p = p

-- Whatever the cluster answers and however it ends, a run of `plan_window` only asks: it creates,
-- patches and deletes nothing.
pub plan_window-asks :
    (x : External) (codec : Codec) (cluster : Cluster) (scope : Json) (action : String)
    → all is_asking ((plan_window x codec cluster scope action []).1) ≡ true
plan_window-asks x codec cluster scope action =
    asked_only (plan_window x codec cluster scope action [])
      ((keeps_plan_window Asks-Lasting (λ h p. p) x codec cluster scope action).runs [] refl)
