-- ===== src/Deploy/Kubernetes.antt =====
-- `KubernetesManager` of the deployment script: the objects that it creates and changes.
pub mod Status
pub mod Salted
pub mod Expanded
use secure_litellm_on_azure.Base.{
  ℕ, zero, suc, ◌+◌, ◌*◌, ◌/◌, String, ◌<>◌, Bool, true, false, not, Option, none, some, List, [],
  ◌∷◌, ltb, ◌==◌, str_eq, if◌then◌else◌,
}
use secure_litellm_on_azure.Base.Text.{lower}
use secure_litellm_on_azure.Base.Int.{pos}
use Prim.Native.Nat.{compare, Ordering}
use secure_litellm_on_azure.Json.{
  Json, null, str, int, obj, arr, Fields, end, field, json_eq, truthy, is_null, put, get, nil, cons,
}
use secure_litellm_on_azure.Fault.{
  Result, ok, err, type_error, attribute_error, value_error, runtime_error, out_of_fuel, get_or,
  put_item,
}
use secure_litellm_on_azure.Fault
use secure_litellm_on_azure.Deploy.Script.{
  World, Program, ◌>>=◌, ◌>>◌, lift, ask, time, sleep, attempt, attribute, on_api, if_missing, ◌⦂◌,
  dict, list, text_items, number,
}
use secure_litellm_on_azure.Deploy.Tools.{path_text}
use secure_litellm_on_azure.Deploy.Azure.{elements}
use secure_litellm_on_azure.Deploy.Objects.{build_cluster_issuer}

-- `object.first.second…`
unfoldable pub attributes : Json → List String → Result Json
unfolding attribute
attributes v [] = ok v
attributes v (name ∷ rest) = Fault.◌>>=◌ (attribute v name) λ w. attributes w rest

-- The Salt of a Secret that is there: `secret.data`.
unfoldable pub kept_salt : Json → Result Json
unfolding get
kept_salt (obj held) = elim (get "LITELLM_SALT_KEY" held) [
  | none ↦ ok (obj end)
  | some salt ↦ ok (dict ("LITELLM_SALT_KEY" ⦂ salt ∷ []))
]
kept_salt null = ok (obj end)
kept_salt _ = err type_error

-- `secret.metadata.resource_version = …` and `secret.data = …`, from the Secret that is there
unfoldable pub kept_secret : String → Json → Json → Json → Result Json
unfolding attributes kept_salt
kept_secret name namespace contents existing =
    Fault.◌>>=◌ (attributes existing ("metadata" ∷ "resource_version" ∷ [])) λ version.
      Fault.◌>>=◌ (attributes existing ("data" ∷ [])) λ held. Fault.◌>>=◌ (kept_salt held) λ salt.
        ok (
          dict (
            "metadata"
              ⦂ dict
                  ("name" ⦂ str name ∷ "namespace" ⦂ namespace ∷ "resource_version" ⦂ version ∷ [])
            ∷ "string_data" ⦂ contents
            ∷ "data" ⦂ salt
            ∷ []))

-- `service.spec.cluster_ip = existing.spec.cluster_ip`
unfoldable pub kept_address : Json → Json → Result Json
unfolding attributes put_item
kept_address service existing =
    Fault.◌>>=◌ (attributes existing ("spec" ∷ "cluster_ip" ∷ [])) λ address.
      Fault.◌>>=◌ (attributes service ("spec" ∷ [])) λ spec.
        Fault.◌>>=◌ (put_item "cluster_ip" address spec) λ changed. put_item "spec" changed service

module _ (world : World) where
  -- A read, and the creation that a status of 404 asks for.
  unfoldable pub read_or_create : String → Json → Json → Json → Program (Option Json)
  read_or_create kind name namespace body =
      attempt
        (do
          existing ← ask world ("read_" <> kind) (name ∷ namespace ∷ [])
          lift (ok (some existing)))
        (if_missing
          (do created ← ask world ("create_" <> kind) (namespace ∷ body ∷ []); lift (ok none)))

  -- The replacement of the object that is found by the one changed from it.
  unfoldable pub replace_found :
      String → Json → Json → (Json → Result Json) → Option Json → Program (Unit {0})
  replace_found kind name namespace change none = lift (ok tt)
  replace_found kind name namespace change (some existing) = do
    changed ← lift (change existing)
    answer ←
        attempt (ask world ("replace_" <> kind) (name ∷ namespace ∷ changed ∷ []))
          (if_missing (ask world ("create_" <> kind) (namespace ∷ changed ∷ [])))
    lift (ok tt)

  unfoldable pub apply : String → Json → Json → Json → (Json → Result Json) → Program (Unit {0})
  unfolding read_or_create replace_found
  apply kind name namespace body change = do
    found ← read_or_create kind name namespace body
    replace_found kind name namespace change found

  -- 24 rounds. The text of the last error is left out.
  unfoldable pub create_issuer : ℕ → String → Json → Program (Unit {0})
  create_issuer zero name body = lift (err (runtime_error "Failed to create ClusterIssuer"))
  create_issuer (suc rounds) name body = do
    failed ←
        attempt
          (do
            created ←
                ask world "create_cluster_custom_object"
                  (str "cert-manager.io" ∷ str "v1" ∷ str "clusterissuers" ∷ body ∷ [])
            lift (ok none))
          (on_api λ status. lift (ok (some status)))
    elim failed [
      | none ↦ lift (ok tt)
      | some status ↦
          if status == 409
          then (do
            patched ←
                ask world "patch_cluster_custom_object"
                  (str "cert-manager.io" ∷ str "v1" ∷ str "clusterissuers" ∷ str name ∷ body ∷ [])
            lift (ok tt))
          else (sleep 5 >> create_issuer rounds name body)
    ]

  unfoldable pub apply_cluster_issuer : String → String → Program (Unit {0})
  unfolding create_issuer build_cluster_issuer
  apply_cluster_issuer name email = create_issuer 24 name (build_cluster_issuer name email)

  module _ (namespace : String) where
    unfoldable pub ensure_namespace : Program (Unit {0})
    ensure_namespace =
        attempt (do existing ← ask world "read_namespace" (str namespace ∷ []); lift (ok tt))
          (on_api λ status.
            if status == 404
            then (do
              created ←
                  ask world "create_namespace"
                    (dict ("metadata" ⦂ dict ("name" ⦂ str namespace ∷ []) ∷ []) ∷ [])
              lift (ok tt))
            else lift (ok tt))

    -- `V1ObjectMeta(name=name, namespace=self.namespace)`
    abbrev metadata : String → Json
    metadata name = dict ("name" ⦂ str name ∷ "namespace" ⦂ str namespace ∷ [])

    unfoldable pub apply_configmap : String → Json → Program (Unit {0})
    unfolding apply
    apply_configmap name contents =
        let configmap = dict ("metadata" ⦂ metadata name ∷ "data" ⦂ contents ∷ []) in
        apply "namespaced_config_map" (str name) (str namespace) configmap λ existing. ok configmap

    unfoldable pub apply_secret : String → Json → Program (Unit {0})
    unfolding apply kept_secret
    apply_secret name contents =
        apply "namespaced_secret" (str name) (str namespace)
          (dict ("metadata" ⦂ metadata name ∷ "string_data" ⦂ contents ∷ []))
          (kept_secret name (str namespace) contents)

    -- By the comparison of the two sizes.
    unfoldable pub resize_to : String → String → Bool → Json → Ordering → Program (Unit {0})
    resize_to name storage expand_existing current_storage Ordering.eq = lift (ok tt)
    resize_to name storage expand_existing current_storage Ordering.lt = lift (
        err (
          value_error (
            "Refusing to shrink PVC "
            <> (name <> (" from " <> (path_text current_storage <> (" to " <> storage)))))))
    resize_to name storage expand_existing current_storage Ordering.gt =
        if not expand_existing then lift (ok tt) else (do
          patched ← ask world "patch_namespaced_persistent_volume_claim" (
              str name
              ∷ str namespace
              ∷ dict (
                  "spec"
                    ⦂ dict (
                        "resources" ⦂ dict ("requests" ⦂ dict ("storage" ⦂ str storage ∷ []) ∷ [])
                        ∷ [])
                  ∷ [])
              ∷ [])
          lift (ok tt))

    -- What is asked of the claim that is there.
    unfoldable pub resize_pvc : String → String → Bool → Json → Program (Unit {0})
    unfolding attributes is_null get resize_to
    resize_pvc name storage expand_existing existing = do
      requests ← lift (attributes existing ("spec" ∷ "resources" ∷ "requests" ∷ []))
      current_storage ← lift (get_or requests "storage" null)
      if is_null current_storage then lift (ok tt) else (do
        order ← lift (world.compare_quantities (str storage) current_storage)
        resize_to name storage expand_existing current_storage order)

    -- What follows the read of the claim.
    unfoldable pub resize_found : String → String → Bool → Json → Option Json → Program (Unit {0})
    unfolding resize_pvc
    resize_found name storage expand_existing pvc none = lift (ok tt)
    resize_found name storage expand_existing pvc (some existing) =
        attempt (resize_pvc name storage expand_existing existing) (
          if_missing (do
            created ←
                ask world "create_namespaced_persistent_volume_claim" (str namespace ∷ pvc ∷ [])
            lift (ok tt)))

    unfoldable pub apply_pvc : String → String → Bool → Program (Unit {0})
    unfolding read_or_create resize_found
    apply_pvc name storage expand_existing = do
      let pvc = dict (
          "metadata" ⦂ metadata name
          ∷ "spec"
            ⦂ dict (
                "access_modes" ⦂ arr (text_items ("ReadWriteOnce" ∷ []))
                ∷ "resources" ⦂ dict ("requests" ⦂ dict ("storage" ⦂ str storage ∷ []) ∷ [])
                ∷ [])
          ∷ [])
      found ← read_or_create "namespaced_persistent_volume_claim" (str name) (str namespace) pvc
      resize_found name storage expand_existing pvc found

    unfoldable pub apply_deployment : Json → Program (Unit {0})
    unfolding apply attributes
    apply_deployment deployment = do
      name ← lift (attributes deployment ("metadata" ∷ "name" ∷ []))
      apply "namespaced_deployment" name (str namespace) deployment λ existing. ok deployment

    unfoldable pub apply_service : Json → Program (Unit {0})
    unfolding apply attributes kept_address
    apply_service service = do
      name ← lift (attributes service ("metadata" ∷ "name" ∷ []))
      apply "namespaced_service" name (str namespace) service (kept_address service)

    unfoldable pub apply_ingress : Json → Program (Unit {0})
    unfolding apply attributes
    apply_ingress ingress = do
      name ← lift (attributes ingress ("metadata" ∷ "name" ∷ []))
      apply "namespaced_ingress" name (str namespace) ingress λ existing. ok ingress
