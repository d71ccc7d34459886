-- ===== src/Gates/Ledger.antt =====
-- `record_evidence` of scripts/migration_evidence.py: a reviewed report becomes a record of the
-- ledger. Both validations see the same time `now`, as they do when the caller passes it.
pub mod Draft
pub mod Kept
pub mod Opened
use secure_litellm_on_azure.Base.{
  ℕ, zero, suc, String, Bool, true, false, ◌&&◌, ◌||◌, not, Option, none, some, List, [], ◌∷◌, ◌++◌,
  all, select, same_set, ltb, leb, if◌then◌else◌,
}
use secure_litellm_on_azure.Base.Int.{ℤ, pos, negsuc}
use secure_litellm_on_azure.Base.Text.{text_length, strip_if, is_space, contains_upper}
use secure_litellm_on_azure.Json.{
  Json, null, int, str, arr, obj, Items, nil, Fields, end, field, get, put, keys, items, from_list,
  json_eq, is_text,
}
use secure_litellm_on_azure.Fault.{Result, ok, err, type_error, ◌>>=◌, ◌>>◌, require, get_or, index}
use secure_litellm_on_azure.Gates.Policy.{approval_policy}
use secure_litellm_on_azure.Gates.Stages.{active_stages, stage_checks}
use secure_litellm_on_azure.Gates.External.{External, fingerprint, stage_fingerprint}
use secure_litellm_on_azure.Gates.Evidence.{validate_evidence, record_list}

-- `entry["stage"]` of a dict, if it is an integer
unfoldable pub entry_stage : Json → Option ℤ
unfolding get
entry_stage (obj d) = elim (get "stage" d) [ some (int z) ↦ some z | _ ↦ none ]
entry_stage _ = none

unfoldable pub has_stage : Json → Bool
unfolding entry_stage
has_stage entry = elim (entry_stage entry) [ none ↦ false | some z ↦ true ]

-- `entry["stage"] < stage`, for the entries that have a stage
unfoldable pub before_stage : ℕ → Json → Bool
unfolding entry_stage
before_stage stage entry = elim (entry_stage entry) [
  | none ↦ false
  | some (pos n) ↦ ltb n stage
  | some (negsuc n) ↦ true
]

unfoldable pub stage_leb : Option ℤ → Option ℤ → Bool
stage_leb (some (pos m)) (some (pos n)) = leb m n
stage_leb (some (negsuc m)) (some (negsuc n)) = leb n m
stage_leb (some (negsuc m)) (some (pos n)) = true
stage_leb (some (pos m)) (some (negsuc n)) = false
stage_leb none o = true
stage_leb (some z) none = false

-- `records.sort(key=lambda entry: entry["stage"])`, which keeps the order of equal stages
unfoldable pub insert_record : Json → List Json → List Json
insert_record r [] = r ∷ []
insert_record r (s ∷ ss) =
    let later = s ∷ insert_record r ss in
    if stage_leb (entry_stage r) (entry_stage s) then r ∷ s ∷ ss else later

unfoldable pub sort_records : List Json → List Json
unfolding insert_record
sort_records [] = []
sort_records (r ∷ rs) = insert_record r (sort_records rs)

-- `next((candidate for candidate in active if candidate > stage), 10)`
unfoldable pub next_after : ℕ → List ℕ → ℕ
next_after stage [] = 10
next_after stage (c ∷ cs) = let rest = next_after stage cs in if ltb stage c then c else rest

-- The result of one check in the report.
unfoldable pub check_result : Json → Result (Unit {0})
check_result result = do
  let message : String = "Acceptance report contains a check that has not passed"
  elim result [
    | obj d ↦ do
      status ← get_or (obj d) "status" null
      require (is_text "passed" status) message
      detail ← get_or (obj d) "evidence" (str "")
      elim detail [
        | str s ↦
            require (leb 12 (text_length (strip_if is_space s)) && not (contains_upper s "REPLACE"))
              "Actual test results and evidence references are required"
        | _ ↦ require false "Actual test results and evidence references are required"
      ]
    | _ ↦ require false message
  ]

unfoldable pub check_results : Fields → Result (Unit {0})
unfolding check_result
check_results end = ok tt
check_results (field name result rest) = check_result result >> check_results rest

unfoldable pub complete_checks : List String → Json → Result Fields
unfolding keys
complete_checks wanted (obj d) = do
  require (same_set (keys d) wanted) "Acceptance report check set is incomplete"
  ok d
complete_checks wanted _ = do
  require false "Acceptance report check set is incomplete"
  err type_error

unfoldable pub report_fields : Json → Result Fields
report_fields (obj d) = ok d
report_fields _ = do require false "Acceptance report must be an object"; err type_error

abbrev matches : Fields → String → Json → Result (Unit {0})
matches report key expected = do
  found ← get_or (obj report) key null
  require (json_eq found expected) "Acceptance report scope or revision mismatch"

abbrev texts : List String → Json
texts names = arr (from_list (secure_litellm_on_azure.Base.map str names))

-- `record["confirmation"] = report["confirmation"]`, if the report has one
unfoldable pub add_confirmation : Option Json → Fields → Fields
unfolding put
add_confirmation none record_fields = record_fields
add_confirmation (some v) record_fields = put "confirmation" v record_fields

module _ (x : External) where
  unfoldable pub check_report_scope : Fields → ℕ → String → Fields → Result (Unit {0})
  unfolding stage_fingerprint json_eq
  check_report_scope config stage revision report = do
    environment ← index (obj config) "environment"
    hash ← stage_fingerprint x stage config
    matches report "stage" (int (pos stage))
    matches report "environment" environment
    matches report "configSha256" (str hash)
    matches report "revision" (str revision)

  unfoldable pub new_record : Fields → ℕ → String → Fields → Json → Json → Result Json
  unfolding stage_fingerprint fingerprint stage_checks add_confirmation from_list
  new_record config stage revision report url approvers = do
    environment ← index (obj config) "environment"
    hash ← stage_fingerprint x stage config
    policy ← approval_policy config
    names ← stage_checks stage config
    observed ← get_or (obj report) "observedAt" null
    ok (
        obj (
          add_confirmation (get "confirmation" report) (
            field "stage" (int (pos stage)) (
              field "environment" environment (
                field "binding" (str "stage-config") (
                  field "configSha256" (str hash) (
                    field "revision" (str revision) (
                      field "approvalMode" (str (policy.0)) (
                        field "status" (str "passed") (
                          field "checks" (texts names) (
                            field "approvedBy" approvers (
                              field "observedAt" observed (
                                field "reportUrl" url (
                                  field "reportSha256" (str (fingerprint x (obj report)))
                                    end))))))))))))))

  unfoldable pub record_evidence :
      Fields → ℕ → String → Items → Json → Json → Json → ℕ → Result (List Json)
  unfolding has_stage before_stage validate_evidence report_fields check_report_scope
      complete_checks check_results new_record sort_records next_after
  record_evidence config stage revision previous report url approvers now = do
    require (all has_stage (items previous)) "Invalid prior evidence ledger"
    let predecessors = select (before_stage stage) (items previous)
    done ← validate_evidence x (arr (from_list predecessors)) stage config revision now
    reviewed ← report_fields report
    check_report_scope config stage revision reviewed
    checks ← get_or report "checks" (obj end)
    names ← stage_checks stage config
    results ← complete_checks names checks
    check_results results
    new ← new_record config stage revision reviewed url approvers
    let records = sort_records (predecessors ++ (new ∷ []))
    active ← active_stages config
    opened ←
        validate_evidence x (arr (from_list records)) (next_after stage active) config revision now
    ok records
