-- ===== src/Deploy/Still/Granted.antt =====
-- The grant of the roles releases nothing.
use secure_litellm_on_azure.Base.{
  String, Option, none, some, refl, true, false, not, List, [], ◌∷◌, if◌then◌else◌,
}
use secure_litellm_on_azure.Json.{Json, null, str, truthy}
use secure_litellm_on_azure.Fault.{ok, index, get_or}
use secure_litellm_on_azure.Dns.Settings.{text_part}
use secure_litellm_on_azure.Calls.Logic.{bind_From, branch_From}
use secure_litellm_on_azure.Deploy.Script.{World, lift, ask, attribute}
use secure_litellm_on_azure.Deploy.Logic.{attempt_From, then_From}
use secure_litellm_on_azure.Deploy.Settings.{DeploySettings}
use secure_litellm_on_azure.Deploy.Config.{extract_resource_name_from_endpoint}
use secure_litellm_on_azure.Deploy.Azure.{
  elements, role_assigned, create_assignment, assign_role_on_scope,
}
use secure_litellm_on_azure.Deploy.Steps.{grant_role, grant_named, grant_on, grant_roles}
use secure_litellm_on_azure.Deploy.Still.{is_release, Keeps, lift-Keeps, ask-Keeps, exception-Keeps}

module _ (world : World) where
  created-Keeps :
      (principal : Json) (scope : String) (subscription : Json) (roles : List Json)
      → Keeps (create_assignment world principal scope subscription roles)
  unfolding create_assignment is_release
  created-Keeps principal scope subscription [] = lift-Keeps _
  created-Keeps principal scope subscription (role ∷ rest) = then_From (attribute role "id") _ λ id.
      bind_From _ _ (ask-Keeps world "uuid.uuid4" [] refl) λ name.
        bind_From _ _ (ask-Keeps world "role_assignments.create" _ refl) λ made. lift-Keeps _

  role-Keeps :
      (principal : Json) (scope role : String) (subscription : Json)
      → Keeps (assign_role_on_scope world principal scope role subscription)
  unfolding assign_role_on_scope is_release
  role-Keeps principal scope role subscription =
      bind_From _ _
        (ask-Keeps world "role_assignments.list_for_scope"
          (subscription ∷ str scope ∷ principal ∷ []) refl)
        λ assigned. then_From (elements assigned) _ λ existing.
          then_From (role_assigned role existing) _ λ found. branch_From found _ _ (lift-Keeps _) (
            bind_From _ _
              (ask-Keeps world "role_definitions.list" (subscription ∷ str scope ∷ str role ∷ [])
                refl)
              λ defined.
                then_From (elements defined) _
                  λ roles. created-Keeps principal scope subscription roles)

  grant_role-Keeps :
      (settings : DeploySettings) (mi_info : Json) (subscription : String) (aoai : Json)
      (name : String)
      → Keeps (grant_role world settings mi_info subscription aoai name)
  unfolding grant_role is_release
  grant_role-Keeps settings mi_info subscription aoai name =
      then_From (index aoai "resource_group") _ λ group.
        then_From (get_or aoai "subscription_id" null) _ λ given.
          bind_From _ _
            (attempt_From _ _
              (bind_From
                (ask world "accounts.get"
                  ((if truthy given then given else str subscription) ∷ group ∷ str name ∷ []))
                _ (ask-Keeps world "accounts.get" _ refl) λ account. lift-Keeps (ok true))
              (exception-Keeps (lift (ok false)) (lift-Keeps (ok false))))
            λ exists. branch_From (not exists) _ _ (lift-Keeps _) (
              then_From (text_part (if truthy given then given else str subscription)) _ λ sub.
                then_From (text_part group) _ λ group_text.
                  then_From (index mi_info "principal_id") _ λ principal.
                    bind_From _ _ (role-Keeps principal _ settings.openai_role_name _)
                      λ assigned. lift-Keeps _)

  grant_named-Keeps :
      (settings : DeploySettings) (mi_info : Json) (subscription : String) (aoai : Json)
      (name : Option String)
      → Keeps (grant_named world settings mi_info subscription aoai name)
  unfolding grant_named
  grant_named-Keeps settings mi_info subscription aoai none =
      then_From (index aoai "name") _ λ name. lift-Keeps _
  grant_named-Keeps settings mi_info subscription aoai (some name) =
      grant_role-Keeps settings mi_info subscription aoai name

  pub grant_roles-Keeps :
      (settings : DeploySettings) (mi_info : Json) (subscription : String) (resources : List Json)
      → Keeps (grant_roles world settings mi_info subscription resources)
  unfolding grant_roles grant_on
  grant_roles-Keeps settings mi_info subscription [] = lift-Keeps _
  grant_roles-Keeps settings mi_info subscription (aoai ∷ rest) =
      bind_From _ _
        (then_From (get_or aoai "endpoint" (str "")) _ λ value.
          then_From (text_part value) _ λ endpoint.
            grant_named-Keeps settings mi_info subscription aoai
              (extract_resource_name_from_endpoint endpoint))
        λ _. grant_roles-Keeps settings mi_info subscription rest
