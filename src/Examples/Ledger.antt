-- ===== src/Examples/Ledger.antt =====
-- The ledger of a new environment is extended by the report of stage 2.
use secure_litellm_on_azure.Base.{suc, ◌≡◌, ◌≢◌, refl, true, [], ◌∷◌, length, select, Some, arith}
use secure_litellm_on_azure.Base.Int.{pos}
use secure_litellm_on_azure.Json.{
  Json, int, str, arr, obj, nil, cons, end, field, items, has, get, keys,
}
use secure_litellm_on_azure.Fault.{ok}
use secure_litellm_on_azure.Gates.Policy.{authentication_mode, deployment_mode, approval_policy}
use secure_litellm_on_azure.Gates.Stages.{active_stages, stage_checks}
use secure_litellm_on_azure.Gates.External.{stage_fingerprint, fingerprint}
use secure_litellm_on_azure.Gates.Evidence.{
  gate, validate_evidence, check_record, check_scope, check_checks, check_approval,
  required_approvers, check_report,
}
use secure_litellm_on_azure.Gates.Evidence.Coverage.{Accepted}
use secure_litellm_on_azure.Gates.Ledger.{record_evidence, before_stage, check_result, stage_leb}
use secure_litellm_on_azure.Gates.Ledger.Opened.{record_evidence-covers}
use secure_litellm_on_azure.Gates.Ledger.Draft.{pending, draft_report, draft_report-refused}
use secure_litellm_on_azure.Gates.Ledger.Kept.{In, record_evidence-In}
use secure_litellm_on_azure.Examples.Gates.{
  stand_in, hash, revision, config, approvers, first_record, ledger, active_run, policy_run,
  stage_0_active,
}

abbrev passed : Json
passed = obj (field "status" (str "passed") (field "evidence" (str "see the private report") end))

abbrev report : Json
report = obj (
    field "stage" (int (pos 2)) (
      field "environment" (str "dev") (
        field "configSha256" (str hash) (
          field "revision" (str revision) (
            field "observedAt" (str "2026-10-01T00:00:00Z") (
              field "checks"
                (obj (
                  field "network_capacity" passed (
                    field "identity_owners" passed (
                      field "pg_auth_ha" passed
                        (field "l3_policy" passed (field "protocol_scope" passed end))))))
                end))))))

abbrev second_record : Json
second_record = obj (
    field "stage" (int (pos 2)) (
      field "environment" (str "dev") (
        field "binding" (str "stage-config") (
          field "configSha256" (str hash) (
            field "revision" (str revision) (
              field "approvalMode" (str "dual") (
                field "status" (str "passed") (
                  field "checks"
                    (arr (
                      cons (str "network_capacity") (
                        cons (str "identity_owners") (
                          cons (str "pg_auth_ha")
                            (cons (str "l3_policy") (cons (str "protocol_scope") nil))))))
                    (field "approvedBy" (arr approvers) (
                      field "observedAt" (str "2026-10-01T00:00:00Z") (
                        field "reportUrl" (str "https://github.com/x")
                          (field "reportSha256" (str hash) end))))))))))))

extended_run :
    record_evidence stand_in config 2 revision ledger report
      (str "https://github.com/x")
      (arr approvers)
      1_000_100
    ≡ ok (first_record ∷ second_record ∷ [])
unfolding record_evidence validate_evidence active_stages approval_policy authentication_mode
    deployment_mode fingerprint stage_fingerprint get has keys check_record check_scope check_checks
    check_approval required_approvers check_report stage_checks check_result stage_leb
extended_run = refl

record_evidence-covers_example :
    Some
      (Accepted stand_in (gate config revision 1_000_100 ("dual", [])) 0)
      (first_record ∷ second_record ∷ [])
record_evidence-covers_example =
    record_evidence-covers stand_in config 2 revision ledger report (str "https://github.com/x")
      (arr approvers) 1_000_100 0 extended_run active_run policy_run stage_0_active (omega arith)
      (omega arith)

record_evidence-In_example :
    ((r : Json)
      → In r (items ledger)
      → before_stage 2 r ≡ true
      → In r (first_record ∷ second_record ∷ []))
    × (length {A = Json} (first_record ∷ second_record ∷ [])
        ≡ suc (length (select (before_stage 2) (items ledger))))
record_evidence-In_example =
    record_evidence-In stand_in config 2 revision ledger report (str "https://github.com/x")
      (arr approvers) 1_000_100 extended_run

abbrev draft : Json
draft = obj (
    field "stage" (int (pos 2)) (
      field "environment" (str "dev") (
        field "configSha256" (str hash) (
          field "revision" (str revision) (
            field "generatedAt" (str "2026-10-01T00:00:00+00:00") (
              field "observedAt" (str "REPLACE_ACTUAL_UTC_ACCEPTANCE_TIME") (
                field "checks"
                  (obj (
                    field "network_capacity" pending (
                      field "identity_owners" pending (
                        field "pg_auth_ha" pending
                          (field "l3_policy" pending (field "protocol_scope" pending end))))))
                  end)))))))

draft_run : draft_report stand_in config 2 revision "2026-10-01T00:00:00+00:00" ≡ ok draft
unfolding draft_report active_stages authentication_mode deployment_mode fingerprint
    stage_fingerprint get has keys stage_checks
draft_run = refl

draft_report-refused_example :
    record_evidence stand_in config 2 revision ledger draft
      (str "https://github.com/x")
      (arr approvers)
      1_000_100
    ≢ ok (first_record ∷ second_record ∷ [])
draft_report-refused_example =
    draft_report-refused stand_in config 2 revision "2026-10-01T00:00:00+00:00" ledger
      (str "https://github.com/x") (arr approvers) 1_000_100 draft
      (first_record ∷ second_record ∷ []) draft_run
