-- ===== src/Merge/Stage.antt =====
-- `OPTION_SPECS`, `validate_options` and `merge_stage` of local_execution/merge_config.py.
pub mod Final
pub mod Greenfield
pub mod Options
pub mod Replaced
use secure_litellm_on_azure.Base.{
  ℕ, String, Bool, true, false, ◌&&◌, ◌||◌, not, Option, none, some, List, [], ◌∷◌, distinct, elem,
  str_eq, leb, ◌==◌, if◌then◌else◌,
}
use secure_litellm_on_azure.Base.Int.{pos}
use secure_litellm_on_azure.Json.{
  Json, null, int, str, arr, obj, Items, nil, cons, Fields, end, get, has, put, pop_all, update,
  json_eq,
}
use secure_litellm_on_azure.Fault.{
  Result, ok, err, key_error, type_error, attribute_error, ◌>>=◌, ◌>>◌, require, index,
}
use secure_litellm_on_azure.Gates.Policy.{deployment_mode}
use secure_litellm_on_azure.Merge.Deep.{apply_section, merge_into, is_dict}
use secure_litellm_on_azure.Merge.Derived.{derived_values}
use secure_litellm_on_azure.Merge.Placeholders.{replace_placeholders, unresolved_placeholders}

pub data Destination : Type 0 where
  local whole : Destination

-- The stage of an option, its key in the catalog, and where its fragment goes.
pub record OptionSpec : Type 0 where
  pub name : String
  pub stage : ℕ
  pub key : String
  pub destination : Destination

abbrev spec : String → ℕ → String → Destination → OptionSpec
spec name stage key destination = record {
  name = name;
  stage = stage;
  key = key;
  destination = destination;
}

abbrev pub option_specs : List OptionSpec
option_specs =
    spec "single-validation-identity" 2 "singleValidationIdentityAlternative" local
    ∷ spec "automatic-api-certificate" 4 "optionalAutomaticApiCertificate" whole
    ∷ spec "database-admin-identity" 5 "separateDatabaseAdminIdentity" whole
    ∷ spec "legacy-master-key-salt" 5 "legacyMasterKeySaltCompatibility" whole
    ∷ spec "native-auth" 6 "nativeAuthentication" whole
    ∷ spec "observability" 8 "nativeAuditOptionalObservability" whole
    ∷ spec "enhanced-l3" 8 "enhancedL3Alternative" whole
    ∷ spec "azure-dns" 9 "optionalAzureDns" whole
    ∷ spec "approved-release" 9 "localExecutionForApprovedRelease" local
    ∷ []

unfoldable pub find_spec : String → List OptionSpec → Option OptionSpec
find_spec name [] = none
find_spec name (s ∷ ss) = if str_eq s.name name then some s else find_spec name ss

unfoldable pub check_spec : ℕ → Option OptionSpec → Result (Unit {0})
check_spec stage none = require false "Unknown merge option"
check_spec stage (some s) = require (stage == s.stage) "Option applies only to another Stage"

unfoldable pub check_options : ℕ → List String → Result (Unit {0})
check_options stage [] = ok tt
check_options stage (option ∷ rest) =
    check_spec stage (find_spec option option_specs) >> check_options stage rest

unfoldable pub validate_options : ℕ → List String → Result (Unit {0})
unfolding check_options
validate_options stage options = do
  require (distinct options) "Duplicate merge option"
  check_options stage options
  require (not (elem "enhanced-l3" options && elem "observability" options))
      "Choose enhanced-l3 or observability in one merge operation, not both"

-- `str(stage)`, for the stages that pass the first test
unfoldable pub stage_key : ℕ → String
stage_key stage =
    if stage == 2
    then "2"
    else if stage == 3
    then "3"
    else if stage == 4
    then "4"
    else if stage == 5
    then "5"
    else if stage == 6
    then "6"
    else if stage == 7
    then "7"
    else if stage == 8
    then "8"
    else "9"

-- The fragment of one option, merged where its specification says.
unfoldable pub apply_option : Json → String → Fields → Result Fields
unfolding apply_section merge_into
apply_option selected option config = elim (find_spec option option_specs) [
  | none ↦ err (key_error option)
  | some s ↦ do
    fragment ← index selected s.key
    elim s.destination [
      | whole ↦ apply_section config fragment
      | local ↦ merge_into "localExecution" fragment config
    ]
]

unfoldable pub apply_options : Json → List String → Fields → Result Fields
unfolding apply_option
apply_options selected [] config = ok config
apply_options selected (option ∷ rest) config = do
  config' ← apply_option selected option config
  apply_options selected rest config'

-- At stage 9 the fragment for preparation is merged unless the release is approved.
unfoldable pub apply_prepare : ℕ → List String → Json → Fields → Result Fields
unfolding merge_into
apply_prepare stage options selected config =
    if (stage == 9) && not (elem "approved-release" options)
    then (do
      fragment ← index selected "localExecutionForPrepare"
      merge_into "localExecution" fragment config)
    else ok config

abbrev pub migration_inputs : List String
migration_inputs = "backupBlob" ∷ "backupSha256" ∷ "postgresMigrationUser" ∷ "legacySaltSource" ∷ []

-- `localExecution.setdefault("runtimeInputs", {})`, without the inputs of a migration
unfoldable pub cleaned_inputs : Option Json → Result Json
unfolding pop_all
cleaned_inputs none = ok (obj end)
cleaned_inputs (some (obj inputs)) = ok (obj (pop_all migration_inputs inputs))
cleaned_inputs (some (arr xs)) = err type_error
cleaned_inputs (some _) = err attribute_error

unfoldable pub cleaned_local : Json → Result Json
unfolding cleaned_inputs get put
cleaned_local (obj l) = do
  inputs ← cleaned_inputs (get "runtimeInputs" l)
  ok (obj (put "runtimeInputs" inputs l))
cleaned_local _ = err attribute_error

unfoldable pub drop_migration_inputs : Fields → Result Fields
unfolding cleaned_local put
drop_migration_inputs config = do
  l ← index (obj config) "localExecution"
  l' ← cleaned_local l
  ok (put "localExecution" l' config)

unfoldable pub greenfield_inputs : ℕ → String → Fields → Result Fields
unfolding drop_migration_inputs
greenfield_inputs stage mode config =
    if (stage == 5) && str_eq mode "greenfield" then drop_migration_inputs config else ok config

-- The catalog's fragment of the stage.
unfoldable pub selected_fragment : ℕ → Fields → Result Fields
unfolding stage_key get
selected_fragment stage catalog = elim (get "stages" catalog) [
  | some (obj stages) ↦ elim (get (stage_key stage) stages) [
    | some (obj selected) ↦ ok selected
    | _ ↦ do require false "Stage is missing from the fragment catalog"; err type_error
  ]
  | _ ↦ do require false "Unsupported Stage fragment catalog"; err type_error
]

unfoldable pub supported_catalog : Fields → Bool
unfolding is_dict get json_eq
supported_catalog catalog =
    elim (get "catalogVersion" catalog) [ none ↦ false | some v ↦ json_eq v (int (pos 1)) ]
    && is_dict (get "stages" catalog)

-- The merge before the placeholders are replaced.
unfoldable pub merge_fragments : Fields → Fields → ℕ → List String → Result Fields
unfolding supported_catalog selected_fragment validate_options is_dict apply_section apply_prepare
    apply_options greenfield_inputs
merge_fragments config catalog stage options = do
  require (leb 2 stage && leb stage 9) "Merge stage must be 2 through 9"
  require (supported_catalog catalog) "Unsupported Stage fragment catalog"
  selected ← selected_fragment stage catalog
  validate_options stage options
  mode ← deployment_mode config
  require (not (str_eq mode "greenfield" && elem "legacy-master-key-salt" options))
      "legacy-master-key-salt does not apply to greenfield"
  require (is_dict (get "localExecution" config)) "Base configuration requires localExecution"
  merged ← apply_section config (obj selected)
  prepared ← apply_prepare stage options (obj selected) merged
  extended ← apply_options (obj selected) options prepared
  greenfield_inputs stage mode extended

-- `{**derived_values(merged), **derived_values(config), **(values or {})}`
unfoldable pub replacements : Fields → Fields → Fields → Result Fields
unfolding derived_values update
replacements merged config values = do
  new ← derived_values merged
  old ← derived_values config
  ok (update (update new old) values)

-- The merged configuration and the placeholders that are left in it.
unfoldable pub merge_stage :
    Fields → Fields → ℕ → List String → Fields → Result (Json × List String)
unfolding merge_fragments replacements replace_placeholders unresolved_placeholders
merge_stage config catalog stage options values = do
  merged ← merge_fragments config catalog stage options
  wanted ← replacements merged config values
  document ← replace_placeholders wanted (obj merged)
  ok (document, unresolved_placeholders document)
