-- ===== src/Examples/Merge.antt =====
-- Runs of the configuration merge.
use secure_litellm_on_azure.Base.{
  String, ◌≡◌, ◌≢◌, refl, true, false, ◌&&◌, none, some, [], ◌∷◌, ◌↔◌, All, distinct, elem,
}
use secure_litellm_on_azure.Base.Int.{pos}
use secure_litellm_on_azure.Json.{
  Json, int, str, arr, obj, nil, cons, Fields, end, field, get, has, json_eq, Unique,
}
use secure_litellm_on_azure.Fault.{ok}
use secure_litellm_on_azure.Gates.Policy.{deployment_mode}
use secure_litellm_on_azure.Merge.Deep.{merge_fields, deep_merge}
use secure_litellm_on_azure.Merge.Deep.Values.{walk, value_at, value_at-deep_merge}
use secure_litellm_on_azure.Merge.Placeholders.{
  replace_placeholders, unresolved_placeholders, is_placeholder,
}
use secure_litellm_on_azure.Merge.Placeholders.Found.{
  IsComplete, Holds, unresolved_placeholders-ne-nil_iff,
}
use secure_litellm_on_azure.Merge.Placeholders.Tokens.{AllKeys}
use secure_litellm_on_azure.Merge.Paths.{changed_paths}
use secure_litellm_on_azure.Merge.Paths.Unchanged.{changed_paths-eq-nil_iff}
use secure_litellm_on_azure.Merge.Stage.{merge_stage, find_spec, validate_options}
use secure_litellm_on_azure.Merge.Stage.Final.{merge_stage-final}
use secure_litellm_on_azure.Merge.Stage.Greenfield.{merge_stage-greenfield}
use secure_litellm_on_azure.Merge.Stage.Options.{validate_options_iff, KnownAt}
use secure_litellm_on_azure.Merge.Stage.Replaced.{runtime_input}

abbrev one : String → Json → Fields
one k v = field k v end

-- {"platform": {"a": 1}, "x": "old"} and {"platform": {"b": 2}, "x": "new"}
abbrev target : Fields
target = field "platform" (obj (one "a" (int (pos 1)))) (one "x" (str "old"))

abbrev addition : Fields
addition = field "platform" (obj (one "b" (int (pos 2)))) (one "x" (str "new"))

target-Unique : Unique (obj target)
unfolding Unique has
target-Unique = (refl, (refl, tt, tt), (refl, tt, tt))

addition-Unique : Unique (obj addition)
unfolding Unique has
addition-Unique = (refl, (refl, tt, tt), (refl, tt, tt))

merged_run :
    merge_fields target addition
    ≡ field "platform" (obj (field "a" (int (pos 1)) (one "b" (int (pos 2))))) (one "x" (str "new"))
unfolding merge_fields
merged_run = refl

-- The fragment has a dict under `platform`, which lacks the key `a`.
value_at-deep_merge_example :
    (result : Fields) × (deep_merge (obj target) (obj addition) ≡ ok (obj result))
    × (value_at ("platform" ∷ "a" ∷ []) (obj result) ≡ some (int (pos 1)))
unfolding Unique walk get
value_at-deep_merge_example =
    value_at-deep_merge ("platform" ∷ "a" ∷ []) target addition addition-Unique

paths_run : changed_paths (obj target) (obj addition) "" ≡ "platform.a" ∷ "platform.b" ∷ "x" ∷ []
unfolding changed_paths json_eq
paths_run = refl

changed_paths-eq-nil_iff_example :
    (changed_paths (obj target) (obj addition) "" ≡ [])
    ↔ (json_eq (obj target) (obj addition) ≡ true)
unfolding Unique
changed_paths-eq-nil_iff_example =
    changed_paths-eq-nil_iff (obj target) (obj addition) "" target-Unique addition-Unique

tokens_run :
    unresolved_placeholders (arr (cons (str "x-REPLACE_B_1,REPLACE_A") (cons (str "REPLACE_") nil)))
    ≡ "REPLACE_A" ∷ "REPLACE_B_1" ∷ []
unfolding unresolved_placeholders
tokens_run = refl

unresolved_placeholders-ne-nil_iff_example :
    (unresolved_placeholders (arr (cons (str "x-REPLACE_B_1") nil)) ≢ [])
    ↔ ((p : String) × IsComplete p × Holds p (arr (cons (str "x-REPLACE_B_1") nil)))
unresolved_placeholders-ne-nil_iff_example =
    unresolved_placeholders-ne-nil_iff (arr (cons (str "x-REPLACE_B_1") nil))

validate_options_iff_example : (validate_options 5 ("database-admin-identity" ∷ []) ≡ ok tt) ↔ (
    (distinct ("database-admin-identity" ∷ []) ≡ true)
    × All (KnownAt 5) ("database-admin-identity" ∷ [])
    × ((elem "enhanced-l3" ("database-admin-identity" ∷ [])
          && elem "observability" ("database-admin-identity" ∷ []))
        ≡ false))
validate_options_iff_example = validate_options_iff 5 ("database-admin-identity" ∷ [])

-- A greenfield configuration that still names a backup, and a catalog whose fragment for Stage 5
-- adds another input.
abbrev greenfield : Fields
greenfield = field "deploymentMode" (str "greenfield") (
    field "location" (str "westus3") (
      one "localExecution"
        (obj (one "runtimeInputs" (obj (one "backupBlob" (str "pre-change/x.dump")))))))

abbrev catalog : Fields
catalog = field "catalogVersion" (int (pos 1)) (
    one "stages" (
      obj (one "5" (obj (one "customerConfig" (obj (one "region" (str "REPLACE_AZURE_REGION"))))))))

abbrev greenfield_result : Fields
greenfield_result = field "deploymentMode" (str "greenfield") (
    field "location" (str "westus3")
      (field "localExecution" (obj (one "runtimeInputs" (obj end))) (one "region" (str "westus3"))))

greenfield_run : merge_stage greenfield catalog 5 [] end ≡ ok (obj greenfield_result, [])
unfolding merge_stage deployment_mode find_spec
greenfield_run = refl

is_greenfield : deployment_mode greenfield ≡ ok "greenfield"
unfolding deployment_mode get
is_greenfield = refl

is_complete : AllKeys is_placeholder (one "REPLACE_X" (str "y"))
unfolding is_placeholder
is_complete = (refl, tt)

merge_stage-greenfield_example : runtime_input "backupBlob" greenfield_result ≡ none
merge_stage-greenfield_example =
    merge_stage-greenfield greenfield catalog [] end greenfield_result [] "backupBlob" is_greenfield
      greenfield_run refl

merge_stage-final_example :
    replace_placeholders (one "REPLACE_X" (str "y")) (obj greenfield_result)
    ≡ ok (obj greenfield_result)
merge_stage-final_example =
    merge_stage-final greenfield catalog 5 [] end (one "REPLACE_X" (str "y"))
      (obj greenfield_result) greenfield_run is_complete
