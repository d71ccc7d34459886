-- ===== src/Params/Component/Private.antt =====
-- What the parameters of the platform are, whatever the customer configures.
use secure_litellm_on_azure.Base.{
  ℕ, String, ◌≡◌, refl, ◌∙◌, ap, subst, false, ◌&&◌, some, [], ◌∷◌, subset, leb, str_eq,
  if◌then◌else◌,
}
use secure_litellm_on_azure.Json.{Json, bool, str, obj, Fields, get, keys}
use secure_litellm_on_azure.Json.Laws.{get-put}
use secure_litellm_on_azure.Fault.{ok, index, get_or, bind_ok, require_ok, ok_injective}
use secure_litellm_on_azure.Gates.Policy.{one_of}
use secure_litellm_on_azure.Gates.Components.{Component}
use secure_litellm_on_azure.Params.Configured.{configured}
use secure_litellm_on_azure.Params.Tables.{required_of}
use secure_litellm_on_azure.Params.Platform.{
  stage5_parameters, check_cluster_name, platform_parameters,
}
use secure_litellm_on_azure.Runner.Connectivity.{TextHash}
use secure_litellm_on_azure.Params.Access.{Networks}
use secure_litellm_on_azure.Params.Component.{
  own_parameters, located, with_tags, component_parameters, final_parameters, in_stage,
  document_for, parameters_for,
}
use secure_litellm_on_azure.Params.Component.Staged.{parameters_for-Chosen}
use secure_litellm_on_azure.Params.Component.Closed.{
  parameter, parameter-document, located-other, with_tags-other,
}

record PrivateFields (stage : ℕ) (p : Fields) : Type 0 where
  pub registry : get "containerRegistryPublicNetworkAccess" p ≡ some (str "Disabled")
  pub cluster : get "deployStage4" p ≡ some (bool (leb 4 stage))
  pub database : get "deployStage5" p ≡ some (bool (leb 5 stage))

-- In the document the registry has no public access, the cluster is deployed from stage 4 and the
-- data platform from stage 5.
pub record Private (stage : ℕ) (document : Json) : Type 0 where
  pub registry : parameter "containerRegistryPublicNetworkAccess" document ≡ ok (str "Disabled")
  pub cluster : parameter "deployStage4" document ≡ ok (bool (leb 4 stage))
  pub database : parameter "deployStage5" document ≡ ok (bool (leb 5 stage))

platform_parameters-PrivateFields :
    (config : Fields) (stage : ℕ) (p : Fields) {q : Fields}
    → platform_parameters config stage p ≡ ok q
    → PrivateFields stage q
unfolding platform_parameters
platform_parameters-PrivateFields config stage p h =
    bind_ok (get_or (obj p) "stage4RoleAssignmentNaming" (str "principal-id")) _ h λ naming e1 h1.
      bind_ok (one_of ("principal-id" ∷ "resource-id" ∷ []) naming) _ h1 λ known e2 h2.
        require_ok known _ _ h2 λ _ h3.
          bind_ok (if leb 5 stage then stage5_parameters config p else ok p) _ h3 λ later e4 h4.
            bind_ok (check_cluster_name config later) _ h4 λ _ e5 h5.
              bind_ok (index (obj config) "environment") _ h5 λ environment e6 h6.
                subst (PrivateFields stage) (ok_injective h6) (record {
                  registry = simp get-put;
                  cluster = simp get-put;
                  database = simp get-put;
                })

module _ (networks : Networks) (hash : TextHash) where
  final_parameters-PrivateFields :
      (config : Fields) (stage : ℕ) {p : Fields}
      → final_parameters networks hash config stage "platform" ≡ ok p
      → PrivateFields stage p
  unfolding final_parameters component_parameters
  final_parameters-PrivateFields config stage h =
      bind_ok (own_parameters config stage "platform") _ h λ own e1 h1.
        require_ok (subset (required_of "platform") (keys own) && configured (obj own)) _ _ h1
          λ _ h2. bind_ok (platform_parameters config stage own) _ h2 λ complete e3 h3.
            bind_ok (located config "platform" complete) _ h3 λ placed e4 h4.
              let f = platform_parameters-PrivateFields config stage own e3 in
              record {
                registry =
                    kept "containerRegistryPublicNetworkAccess" complete placed e4 h4 refl refl
                    ∙ f.registry;
                cluster = kept "deployStage4" complete placed e4 h4 refl refl ∙ f.cluster;
                database = kept "deployStage5" complete placed e4 h4 refl refl ∙ f.database;
              }
    where
      kept :
          (k : String) (complete placed : Fields) {p : Fields}
          → located config "platform" complete ≡ ok placed
          → with_tags config "platform" placed ≡ ok p
          → str_eq "location" k ≡ false
          → str_eq "tags" k ≡ false
          → get k p ≡ get k complete
      kept k complete placed e h l t =
          with_tags-other config "platform" k placed h t
          ∙ located-other config "platform" k complete e l

  document_for-Private :
      (config : Fields) (stage : ℕ) (c : Component) {path : String} {document : Json}
      → document_for networks hash config stage "platform" c ≡ ok (path, document)
      → Private stage document
  unfolding document_for
  document_for-Private config stage c h =
      require_ok (in_stage "platform" c.stage stage) _ _ h λ _ h1.
        bind_ok (final_parameters networks hash config stage "platform") _ h1 λ p e2 h2.
          let f = final_parameters-PrivateFields config stage e2 in
          subst (Private stage) (ap (λ (r : String × Json). r.1) (ok_injective h2)) (record {
            registry = parameter-document "containerRegistryPublicNetworkAccess" p f.registry;
            cluster = parameter-document "deployStage4" p f.cluster;
            database = parameter-document "deployStage5" p f.database;
          })

  -- If `parameters_for` gives a document for the component `platform`, whatever the customer
  -- configures: the registry has no public network access, and the cluster and the data platform are
  -- deployed exactly from stage 4 and from stage 5.
  pub parameters_for-Private :
      (config : Fields) (stage : ℕ) {path : String} {document : Json}
      → parameters_for networks hash config stage "platform" ≡ ok (path, document)
      → Private stage document
  parameters_for-Private config stage h =
      let chosen = parameters_for-Chosen networks hash config stage "platform" h in
      document_for-Private config stage chosen.component chosen.documented
