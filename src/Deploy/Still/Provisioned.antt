-- ===== src/Deploy/Still/Provisioned.antt =====
-- The steps of the deployment script on Azure release nothing.
use secure_litellm_on_azure.Base.{
  String, ◌<>◌, ◌≡◌, refl, false, not, List, [], ◌∷◌, str_eq, elem, map, ◌&&◌, ltb,
}
use secure_litellm_on_azure.Base.Int.{ℤ}
use secure_litellm_on_azure.Base.Text.{text_length}
use secure_litellm_on_azure.Json.{Json, null, str, arr, obj, Fields, is_null, keys}
use secure_litellm_on_azure.Fault.{Fault, ok, err, index, get_or}
use secure_litellm_on_azure.Runtime.Login.{Env, text_or}
use secure_litellm_on_azure.Dns.Settings.{text_part}
use secure_litellm_on_azure.Calls.Logic.{bind_From, branch_From}
use secure_litellm_on_azure.Deploy.Script.{
  asked, World, Program, lift, ask, attempt, attribute, on_exception, text_items, number,
}
use secure_litellm_on_azure.Deploy.Logic.{attempt_From, then_From}
use secure_litellm_on_azure.Deploy.Settings.{DeploySettings, strip}
use secure_litellm_on_azure.Deploy.Tools.{
  which, or_else, resolve_tool, get_subscription_id, on_command, no_subscription,
}
use secure_litellm_on_azure.Deploy.Azure.{
  elements, identities, normalized, ensure_resource_group, ensure_managed_identity,
  ensure_aks_cluster, get_aks_credentials, get_vmss_in_resource_group, assign_identity_to_vmss,
}
use secure_litellm_on_azure.Deploy.Steps.{
  generate_master_key, checked_key, provision, text_at, exit_unless, ingress_enabled,
}
use secure_litellm_on_azure.Deploy.Still.{is_release, Keeps, lift-Keeps, ask-Keeps, exception-Keeps}

pub text_at-Keeps : (document : Json) (name : String) → Keeps (text_at document name)
text_at-Keeps document name =
    then_From (index document name) _ λ value. lift-Keeps (text_part value)

module _ (world : World) where
  which-Keeps : (name : String) → Keeps (which world name)
  unfolding is_release
  which-Keeps name =
      bind_From _ _ (ask-Keeps world "shutil.which" (str name ∷ []) refl) λ found. lift-Keeps _

  or_else-Keeps : (m n : Program String) → Keeps m → Keeps n → Keeps (or_else world m n)
  or_else-Keeps m n k l =
      bind_From m _ k λ found. branch_From (str_eq found "") n _ l (lift-Keeps (ok found))

  resolve_tool-Keeps : (name : String) → Keeps (resolve_tool world name)
  unfolding resolve_tool
  resolve_tool-Keeps name =
      or_else-Keeps _ _ (which-Keeps name)
        (or_else-Keeps _ _ (which-Keeps (name <> ".cmd")) (which-Keeps (name <> ".exe")))

  command-Keeps :
      {A : Type 0} (message : String) (fault : Fault) → Keeps (on_command {A = A} message fault)
  command-Keeps message Fault.command_error = lift-Keeps _
  command-Keeps message fault = lift-Keeps _

  pub subscription-Keeps : (environ : Env) → Keeps (get_subscription_id world environ)
  unfolding get_subscription_id is_release
  subscription-Keeps environ =
      branch_From (not (str_eq (strip (text_or "" (environ "AZURE_SUBSCRIPTION_ID"))) "")) _ _
        (lift-Keeps _)
        (bind_From (or_else world (resolve_tool world "az") (lift (ok "az"))) _
          (or_else-Keeps _ _ (resolve_tool-Keeps "az") (lift-Keeps _))
          λ az.
            bind_From _ _
              (attempt_From _ _
                (ask-Keeps world "subprocess.check_output"
                  (arr (text_items (az ∷ "account" ∷ "show" ∷ "--query" ∷ "id" ∷ "-o" ∷ "tsv" ∷ []))
                    ∷ [])
                  refl)
                (command-Keeps no_subscription))
              λ printed. then_From (text_part printed) _ λ text.
                branch_From (not (str_eq (strip text) "")) _ _ (lift-Keeps _) (lift-Keeps _))

  master_key-Keeps : Keeps (generate_master_key world)
  unfolding generate_master_key is_release
  master_key-Keeps =
      bind_From _ _ (ask-Keeps world "secrets.token_urlsafe" (number 48 ∷ []) refl)
        λ token. then_From (text_part token) _ λ text. lift-Keeps _

  pub checked_key-Keeps : (settings : DeploySettings) → Keeps (checked_key world settings)
  unfolding checked_key
  checked_key-Keeps settings =
      then_From
        (exit_unless (not (ingress_enabled settings && str_eq settings.letsencrypt_email ""))) _
        λ _.
          bind_From _ _
            (branch_From (not (str_eq settings.litellm_master_key "")) _ _
              (lift-Keeps (ok settings.litellm_master_key))
              (branch_From settings.auto_generate_master_key _ _ master_key-Keeps
                (lift-Keeps (err (Fault.system_exit 1)))))
            λ key.
              then_From (exit_unless (not (ltb (text_length key) 24))) _ λ _. lift-Keeps (ok key)

  or_made-Keeps :
      (get made : String) (xs ys : List Json)
      → is_release (asked get xs) ≡ false
      → is_release (asked made ys) ≡ false
      → Keeps (attempt (ask world get xs) (on_exception (ask world made ys)))
  or_made-Keeps get made xs ys p q =
      attempt_From _ _ (ask-Keeps world get xs p) (exception-Keeps _ (ask-Keeps world made ys q))

  identity-Keeps :
      (name : Json) (group : String) (location : Json)
      → Keeps (ensure_managed_identity world name group location)
  unfolding ensure_managed_identity is_release
  identity-Keeps name group location =
      bind_From _ _
        (or_made-Keeps "user_assigned_identities.get" "user_assigned_identities.create_or_update" _
          _ refl refl)
        λ identity. then_From (attribute identity "client_id") _ λ a.
          then_From (attribute identity "principal_id") _
            λ b. then_From (attribute identity "id") _ λ c. lift-Keeps _

  cluster-Keeps :
      (name group : String) (location : Json) (count : ℤ) (size : String)
      → Keeps (ensure_aks_cluster world name group location count size)
  unfolding ensure_aks_cluster is_release
  cluster-Keeps name group location count size =
      bind_From _ _
        (or_made-Keeps "managed_clusters.get" "managed_clusters.begin_create_or_update" _ _ refl
          refl)
        λ cluster.
          then_From (attribute cluster "node_resource_group") _
            λ a. then_From (attribute cluster "fqdn") _ λ b. lift-Keeps _

  credentials-Keeps : (name group : String) → Keeps (get_aks_credentials world name group)
  unfolding get_aks_credentials is_release
  credentials-Keeps name group =
      bind_From
        (or_else world (which world "az.cmd") (or_else world (which world "az") (lift (ok "az")))) _
        (or_else-Keeps _ _ (which-Keeps "az.cmd")
          (or_else-Keeps _ _ (which-Keeps "az") (lift-Keeps _)))
        λ az. ask-Keeps world "subprocess.run" _ refl

  vmss-Keeps : (group : Json) → Keeps (get_vmss_in_resource_group world group)
  unfolding get_vmss_in_resource_group is_release
  vmss-Keeps group =
      bind_From _ _ (ask-Keeps world "virtual_machine_scale_sets.list" (group ∷ []) refl)
        λ answer. then_From (elements answer) _ λ listed. lift-Keeps _

  assigned-Keeps :
      (name group : Json) (id : String) → Keeps (assign_identity_to_vmss world name group id)
  unfolding assign_identity_to_vmss is_release
  assigned-Keeps name group id =
      bind_From _ _ (ask-Keeps world "virtual_machine_scale_sets.get" (group ∷ name ∷ []) refl)
        λ vmss. then_From (attribute vmss "identity") _ λ identity.
          then_From (identities identity) _ λ held.
            branch_From (elem (normalized id) (map normalized (keys held))) _ _ (lift-Keeps _) (
              bind_From _ _
                (branch_From (is_null identity) _ _ (lift-Keeps (ok null))
                  (lift-Keeps (attribute identity "type")))
                λ kind.
                  bind_From _ _ (ask-Keeps world "virtual_machine_scale_sets.begin_update" _ refl)
                    λ updated. lift-Keeps _)

  pub provision-Keeps :
      (settings : DeploySettings) (cfg : Fields) (region : Json) (group : String)
      → Keeps (provision world settings cfg region group)
  unfolding provision ensure_resource_group is_release
  provision-Keeps settings cfg region group =
      then_From (get_or (obj cfg) "managed_identity" null) _ λ configured.
        bind_From (ensure_resource_group world group region) _
          (ask-Keeps world "resource_groups.create_or_update" _ refl)
          λ created.
            bind_From (ensure_managed_identity world _ group region) _
              (identity-Keeps _ group region)
              λ mi_info.
                bind_From
                  (ensure_aks_cluster world settings.aks_name group region settings.aks_node_count
                    settings.aks_vm_size)
                  _ (cluster-Keeps _ _ _ _ _)
                  λ aks_info.
                    bind_From (get_aks_credentials world settings.aks_name group) _
                      (credentials-Keeps _ _)
                      λ credentials.
                        then_From (index aks_info "node_resource_group") _ λ node_group.
                          bind_From (get_vmss_in_resource_group world node_group) _
                            (vmss-Keeps node_group)
                            λ vmss_name.
                              bind_From (text_at mi_info "resource_id") _
                                (text_at-Keeps mi_info "resource_id")
                                λ resource_id.
                                  bind_From
                                    (assign_identity_to_vmss world vmss_name node_group resource_id)
                                    _ (assigned-Keeps vmss_name node_group resource_id)
                                    λ done. lift-Keeps _
