-- ===== src/Deploy/Still/Applied.antt =====
-- The steps of the deployment script that apply an object of PostgreSQL release nothing.
use secure_litellm_on_azure.Base.{
  String, ◌<>◌, ◌≡◌, refl, subst, Bool, false, not, Option, none, some, [], ◌∷◌, ◌==◌,
}
use Prim.Native.Nat.{Ordering}
use secure_litellm_on_azure.Json.{Json, null, str, is_null}
use secure_litellm_on_azure.Fault.{Result, ok, get_or, ok_injective}
use secure_litellm_on_azure.Calls.Logic.{bind_From, branch_From, lift_then}
use secure_litellm_on_azure.Deploy.Script.{asked, World}
use secure_litellm_on_azure.Deploy.Logic.{attempt_From, on_api_From, if_missing_From, then_From}
use secure_litellm_on_azure.Deploy.Objects.Postgres.{build_postgres_deployment}
use secure_litellm_on_azure.Deploy.Kubernetes.{
  attributes, kept_address, read_or_create, replace_found, apply, ensure_namespace, apply_configmap,
  resize_to, resize_pvc, resize_found, apply_pvc, apply_deployment, apply_service,
}
use secure_litellm_on_azure.Deploy.Still.{is_release, Keeps, lift-Keeps, ask-Keeps}

module _ (world : World) where
  read_or_create-Keeps :
      (kind : String) (name namespace body : Json)
      → is_release (asked ("read_" <> kind) (name ∷ namespace ∷ [])) ≡ false
      → is_release (asked ("create_" <> kind) (namespace ∷ body ∷ [])) ≡ false
      → Keeps (read_or_create world kind name namespace body)
  unfolding read_or_create
  read_or_create-Keeps kind name namespace body r c =
      attempt_From _ _
        (bind_From _ _ (ask-Keeps world ("read_" <> kind) (name ∷ namespace ∷ []) r)
          λ existing. lift-Keeps (ok (some existing)))
        (if_missing_From (λ h p. p) _
          (bind_From _ _ (ask-Keeps world ("create_" <> kind) (namespace ∷ body ∷ []) c)
            λ made. lift-Keeps (ok none)))

  replace-Keeps :
      (kind : String) (name namespace : Json) (change : Json → Result Json)
      → ((changed : Json)
          → is_release (asked ("replace_" <> kind) (name ∷ namespace ∷ changed ∷ [])) ≡ false)
      → ((existing changed : Json)
          → change existing ≡ ok changed
          → is_release (asked ("create_" <> kind) (namespace ∷ changed ∷ [])) ≡ false)
      → (found : Option Json) → Keeps (replace_found world kind name namespace change found)
  unfolding replace_found
  replace-Keeps kind name namespace change w d none = lift-Keeps _
  replace-Keeps kind name namespace change w d (some existing) =
      lift_then (change existing) _ (λ h p. p)
        λ changed e.
          bind_From _ _
            (attempt_From _ _ (ask-Keeps world _ _ (w changed))
              (if_missing_From (λ h p. p) _ (ask-Keeps world _ _ (d existing changed e))))
            λ answer. lift-Keeps _

  apply-Keeps :
      (kind : String) (name namespace body : Json) (change : Json → Result Json)
      → is_release (asked ("read_" <> kind) (name ∷ namespace ∷ [])) ≡ false
      → is_release (asked ("create_" <> kind) (namespace ∷ body ∷ [])) ≡ false
      → ((changed : Json)
          → is_release (asked ("replace_" <> kind) (name ∷ namespace ∷ changed ∷ [])) ≡ false)
      → ((existing changed : Json)
          → change existing ≡ ok changed
          → is_release (asked ("create_" <> kind) (namespace ∷ changed ∷ [])) ≡ false)
      → Keeps (apply world kind name namespace body change)
  unfolding apply
  apply-Keeps kind name namespace body change r c w d =
      bind_From _ _ (read_or_create-Keeps kind name namespace body r c)
        λ found. replace-Keeps kind name namespace change w d found

  -- Where the object is replaced by the one given.
  apply_same-Keeps :
      (kind : String) (name namespace body : Json)
      → is_release (asked ("read_" <> kind) (name ∷ namespace ∷ [])) ≡ false
      → is_release (asked ("create_" <> kind) (namespace ∷ body ∷ [])) ≡ false
      → ((changed : Json)
          → is_release (asked ("replace_" <> kind) (name ∷ namespace ∷ changed ∷ [])) ≡ false)
      → Keeps (apply world kind name namespace body (λ existing. ok body))
  apply_same-Keeps kind name namespace body r c w =
      apply-Keeps kind name namespace body _ r c w λ existing changed e.
        subst (λ b. is_release (asked ("create_" <> kind) (namespace ∷ b ∷ [])) ≡ false)
          (ok_injective e) c

  module _ (namespace : String) where
    pub namespace-Keeps : Keeps (ensure_namespace world namespace)
    unfolding ensure_namespace is_release
    namespace-Keeps =
        attempt_From _ _
          (bind_From _ _ (ask-Keeps world "read_namespace" (str namespace ∷ []) refl)
            λ existing. lift-Keeps (ok tt))
          (on_api_From (λ h p. p) _
            λ status.
              branch_From (status == 404) _ _
                (bind_From _ _ (ask-Keeps world "create_namespace" _ refl) λ created. lift-Keeps _)
                (lift-Keeps _))

    pub configmap-Keeps :
        (name : String) (contents : Json) → Keeps (apply_configmap world namespace name contents)
    unfolding apply_configmap is_release
    configmap-Keeps name contents =
        apply_same-Keeps "namespaced_config_map" (str name) (str namespace) _ refl refl λ _. refl

    pub service-Keeps : (service : Json) → Keeps (apply_service world namespace service)
    unfolding apply_service is_release
    service-Keeps service = then_From (attributes service ("metadata" ∷ "name" ∷ [])) _ λ name.
        apply-Keeps "namespaced_service" name (str namespace) service (kept_address service) refl
          refl (λ _. refl) (λ _ _ _. refl)

    pub postgres-Keeps :
        (pg_user pg_password pg_db : String)
        → Keeps
            (apply_deployment world namespace (build_postgres_deployment pg_user pg_password pg_db))
    unfolding apply_deployment attributes build_postgres_deployment is_release
    postgres-Keeps pg_user pg_password pg_db =
        apply_same-Keeps "namespaced_deployment" (str "postgres") (str namespace)
          (build_postgres_deployment pg_user pg_password pg_db) refl refl λ _. refl

    resize_to-Keeps :
        (name storage : String) (expand : Bool) (current : Json) (order : Ordering)
        → Keeps (resize_to world namespace name storage expand current order)
    unfolding resize_to is_release
    resize_to-Keeps name storage expand current Ordering.lt = lift-Keeps _
    resize_to-Keeps name storage expand current Ordering.eq = lift-Keeps _
    resize_to-Keeps name storage expand current Ordering.gt =
        branch_From (not expand) _ _ (lift-Keeps _) (
          bind_From _ _ (ask-Keeps world "patch_namespaced_persistent_volume_claim" _ refl)
            λ patched. lift-Keeps _)

    resize_found-Keeps :
        (name storage : String) (expand : Bool) (pvc : Json) (found : Option Json)
        → Keeps (resize_found world namespace name storage expand pvc found)
    unfolding resize_found resize_pvc is_release
    resize_found-Keeps name storage expand pvc none = lift-Keeps _
    resize_found-Keeps name storage expand pvc (some existing) =
        attempt_From _ _
          (then_From (attributes existing ("spec" ∷ "resources" ∷ "requests" ∷ [])) _ λ requests.
            then_From (get_or requests "storage" null) _ λ current.
              branch_From (is_null current) _ _ (lift-Keeps _) (
                then_From (world.compare_quantities (str storage) current) _
                  λ order. resize_to-Keeps name storage expand current order))
          (if_missing_From (λ h p. p) _
            (bind_From _ _
              (ask-Keeps world "create_namespaced_persistent_volume_claim"
                (str namespace ∷ pvc ∷ []) refl)
              λ created. lift-Keeps _))

    pub pvc-Keeps :
        (name storage : String) (expand : Bool)
        → Keeps (apply_pvc world namespace name storage expand)
    unfolding apply_pvc is_release
    pvc-Keeps name storage expand =
        bind_From _ _
          (read_or_create-Keeps "namespaced_persistent_volume_claim" (str name) (str namespace) _
            refl refl)
          λ found. resize_found-Keeps name storage expand _ found
