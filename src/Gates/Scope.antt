-- ===== src/Gates/Scope.antt =====
-- `stage_fingerprint` of scripts/customer_migration.py: the part of the configuration that a
-- stage's evidence is bound to. `Gates.External` applies the hash to it.
pub mod Hidden
use secure_litellm_on_azure.Base.{
  ℕ, String, Bool, true, false, ◌&&◌, not, Option, none, some, List, [], ◌∷◌, str_eq, ltb, leb,
  ◌==◌, if◌then◌else◌,
}
use secure_litellm_on_azure.Json.{
  Json, null, str, obj, Fields, end, field, get, has, put, pop, pop_all, truthy,
}
use secure_litellm_on_azure.Fault.{Result, ok, err, key_error, type_error, ◌>>=◌, get_or, index}
use secure_litellm_on_azure.Gates.Components.{Component, components, find_component}

-- `if condition: scoped.pop(key, None)`
unfoldable pub drop_if : Bool → List String → Fields → Fields
unfolding pop_all
drop_if true ks d = pop_all ks d
drop_if false ks d = d

unfoldable pub put_if : Bool → String → Json → Fields → Fields
unfolding put
put_if true k v d = put k v d
put_if false k v d = d

-- The sections that belong to later stages are dropped, one `if` of the source after another.
unfoldable pub visible_sections : ℕ → Json → Fields → Fields
unfolding drop_if put_if
visible_sections stage auth d0 =
    let d1 = drop_if (not (stage == 4) && ltb stage 8) ("l3Audit" ∷ []) d0 in
    let d2 = put_if (leb 4 stage && ltb stage 6) "applicationAuthenticationMode" auth d1 in
    let d3 = drop_if (ltb stage 1) ("legacyAccess" ∷ []) d2 in
    let d4 = drop_if (ltb stage 2) ("contentAudit" ∷ []) d3 in
    let d5 = drop_if (ltb stage 9) ("dns" ∷ []) d4 in
    let d6 = drop_if (ltb stage 8) ("auditRuntime" ∷ "observability" ∷ "auditGovernance" ∷ []) d5 in
    let d7 = drop_if (ltb stage 7) ("proxy" ∷ "entra" ∷ []) d6 in
    let d8 = drop_if (ltb stage 6) ("application" ∷ []) d7 in
    let d9 = drop_if (ltb stage 5) ("databaseAccess" ∷ []) d8 in
    drop_if (ltb stage 4) ("privateIngress" ∷ "certificates" ∷ []) d9

-- `config.get("application", {}).get("authentication", {}).get("mode", "entra")`, read at 4 and 5
unfoldable pub bound_authentication : ℕ → Fields → Result Json
unfolding get
bound_authentication stage config =
    if leb 4 stage && ltb stage 6
    then (do
      application ← get_or (obj config) "application" (obj end)
      authentication ← get_or application "authentication" (obj end)
      get_or authentication "mode" (str "entra"))
    else ok null

-- `config["parameters"].get("bootstrap", {}).get(...) or config["parameters"].get("backup", ...)`
unfoldable pub workspace_name : Json → Result Json
unfolding truthy
workspace_name parameters = do
  bootstrap ← get_or parameters "bootstrap" (obj end)
  first ← get_or bootstrap "logAnalyticsWorkspaceName" null
  if truthy first then ok first else (do
    platform ← get_or parameters "platform" (obj end)
    logging ← get_or parameters "backup" platform
    get_or logging "logAnalyticsWorkspaceName" null)

-- The parameters of one component that the stage is bound to.
unfoldable pub selected_parameters : ℕ → String → Fields → Fields
unfolding drop_if
selected_parameters stage name values =
    let platform = str_eq name "platform" in
    drop_if (platform && ltb stage 4) ("azureOpenAIConnections" ∷ "stage4RoleAssignmentNaming" ∷ [])
      (drop_if (platform && ltb stage 5) ("stage5Data" ∷ []) values)

unfoldable pub first_stage : String → Result ℕ
unfolding find_component
first_stage name = elim (find_component name components) [
  | none ↦ err (key_error name)
  | some c ↦ ok c.stage
]

-- `dict(values)`
unfoldable pub as_dict : Json → Result Fields
as_dict (obj d) = ok d
as_dict _ = err type_error

-- The loop over `config["parameters"]`.
unfoldable pub stage_parameters : ℕ → Fields → Result Fields
unfolding first_stage as_dict selected_parameters
stage_parameters stage end = ok end
stage_parameters stage (field name values rest) = do
  let more = stage_parameters stage rest
  first ← first_stage name
  if ltb stage first then more else (do
    d ← as_dict values
    others ← more
    ok (field name (obj (selected_parameters stage name d)) others))

-- The document whose hash is the stage's fingerprint.
unfoldable pub stage_scope : ℕ → Fields → Result Fields
unfolding visible_sections bound_authentication workspace_name stage_parameters as_dict put pop get
stage_scope stage config = do
  auth ← bound_authentication stage config
  parameters ← index (obj config) "parameters"
  workspace ← workspace_name parameters
  all ← as_dict parameters
  selected ← stage_parameters stage all
  ok (
      put "parameters" (obj selected) (
        put "bootstrapWorkspaceName" workspace
          (visible_sections stage auth (pop "parameters" config))))
