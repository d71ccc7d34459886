-- ===== src/Deploy/Main/Ready.antt =====
-- LiteLLM is released only after PostgreSQL.
use secure_litellm_on_azure.Base.{◌≡◌, refl, false, [], ◌∷◌, any}
use secure_litellm_on_azure.Json.{Json, str, obj}
use secure_litellm_on_azure.Fault.{index, attribute_error}
use secure_litellm_on_azure.Runtime.Login.{Env}
use secure_litellm_on_azure.Calls.{continue}
use secure_litellm_on_azure.Calls.Logic.{From, Ends, bind_From}
use secure_litellm_on_azure.Deploy.Script.{World}
use secure_litellm_on_azure.Deploy.Settings.{default_config}
use secure_litellm_on_azure.Deploy.Config.{load_config, each, generate_litellm_config}
use secure_litellm_on_azure.Deploy.Steps.{text_at}
use secure_litellm_on_azure.Deploy.Still.{is_release, Still, ask-Keeps}
use secure_litellm_on_azure.Deploy.Still.Provisioned.{
  text_at-Keeps, subscription-Keeps, checked_key-Keeps, provision-Keeps,
}
use secure_litellm_on_azure.Deploy.Still.Granted.{grant_roles-Keeps}
use secure_litellm_on_azure.Deploy.Still.Awaited.{Seen, deploy_postgres-Seen}
use secure_litellm_on_azure.Deploy.Logic.{then_From}
use secure_litellm_on_azure.Deploy.Main.{release, prepare, main}

module _ (world : World) (environ : Env) (document : Json) where
  prepare-Seen : From Still (prepare world environ document) (λ _ h. Still h × Seen world h) Still
  unfolding prepare is_release
  prepare-Seen = then_From (default_config environ) _ λ settings.
      then_From (load_config document) _ λ cfg. then_From (index (obj cfg) "region") _ λ region.
        bind_From (text_at (obj cfg) "resource_group") _ (text_at-Keeps (obj cfg) "resource_group")
          λ group. bind_From _ _ (checked_key-Keeps world settings) λ key.
            bind_From _ _ (subscription-Keeps world environ) λ subscription.
              bind_From _ _ (provision-Keeps world settings cfg region group) λ mi_info.
                then_From (index (obj cfg) "azure-openai-list") _ λ listed.
                  then_From (each attribute_error listed) _ λ resources.
                    bind_From _ _ (grant_roles-Keeps world settings mi_info subscription resources)
                      λ _. then_From (generate_litellm_config cfg settings) _ λ config.
                        bind_From _ _
                          (ask-Keeps world "write"
                            (str "litellm.config.yaml" ∷ str (world.yaml_dump config) ∷ []) refl)
                          λ _.
                            bind_From _ _
                              (deploy_postgres-Seen world settings (world.yaml_dump config))
                              λ _. record { runs = λ h p. p }

  -- A run of `main` is a run of `prepare`, and of `release` if that returns. However `prepare` ends, it
  -- writes neither a Secret nor the deployment of LiteLLM; if it returns, its last call has read the
  -- deployment postgres with as many ready replicas as it wants.
  pub main-Ready :
      (main world environ document []
        ≡ continue (release world) (prepare world environ document []))
      × Ends
          (λ prepared h. (any is_release h ≡ false) × Seen world h)
          (λ h. any is_release h ≡ false)
          (prepare world environ document [])
  unfolding main
  main-Ready = (refl, prepare-Seen.runs [] refl)
