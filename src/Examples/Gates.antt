-- ===== src/Examples/Gates.antt =====
-- A ledger of evidence for a new environment, read by a stand-in for the hash and the clock.
use secure_litellm_on_azure.Base.{
  ℕ, String, ◌≡◌, refl, true, none, some, [], ◌∷◌, length, Some, arith, str_eq, if◌then◌else◌,
}
use secure_litellm_on_azure.Base.Int.{pos}
use secure_litellm_on_azure.Json.{
  Json, int, str, arr, obj, Items, nil, cons, Fields, end, field, items, get, has, pop, keys,
}
use secure_litellm_on_azure.Fault.{Fault, ok, err}
use secure_litellm_on_azure.Gates.Policy.{
  approval_policy, all_distinct, member, authentication_mode, deployment_mode,
}
use secure_litellm_on_azure.Gates.Policy.{nonzero}
use secure_litellm_on_azure.Gates.Policy.Approvers.{Enough, approval_policy-Sound}
use secure_litellm_on_azure.Gates.Stages.{active_stages, stage_checks}
use secure_litellm_on_azure.Gates.Scope.{stage_scope}
use secure_litellm_on_azure.Gates.Scope.Hidden.{stage_scope-hidden}
use secure_litellm_on_azure.Gates.External.{External, aware, fingerprint}
use secure_litellm_on_azure.Gates.Evidence.{
  gate, validate_evidence, check_record, check_scope, check_checks, check_approval,
  required_approvers, check_report,
}
use secure_litellm_on_azure.Gates.Evidence.Coverage.{
  Accepted, validate_evidence-covers, validate_evidence-distinct,
}

abbrev pub hash : String
hash = "00112233445566778899aabbccddeeff00112233445566778899aabbccddeeff"

-- A constant hash, a clock that knows one stamp, and a reader that knows one address.
abbrev pub stand_in : External
stand_in = record {
  digest = λ _. hash;
  read_time = λ s. if str_eq s "2026-10-01T00:00:00Z" then some (aware 1_000_000) else none;
  split_url = λ s. some (record {
    scheme = "https";
    hostname = "github.com";
    username = "";
    password = "";
    query = "";
  });
}

abbrev pub revision : String
revision = "0123456789abcdef0123456789abcdef01234567"

abbrev pub config : Fields
config =
    field "environment" (str "dev")
      (field "deploymentMode" (str "greenfield") (field "parameters" (obj end) end))

abbrev pub approvers : Items
approvers =
    cons (str "11111111-1111-1111-1111-111111111111")
      (cons (str "22222222-2222-2222-2222-222222222222") nil)

abbrev pub first_record : Json
first_record = obj (
    field "stage" (int (pos 0)) (
      field "environment" (str "dev") (
        field "configSha256" (str hash) (
          field "revision" (str revision) (
            field "status" (str "passed") (
              field "checks"
                (arr (
                  cons (str "subscription_scope") (
                    cons (str "deployment_permissions")
                      (cons (str "private_runner") (cons (str "domain_ownership") nil)))))
                (field "approvedBy" (arr approvers) (
                  field "observedAt" (str "2026-10-01T00:00:00Z") (
                    field "reportUrl" (str "https://github.com/x")
                      (field "reportSha256" (str hash) end))))))))))

abbrev pub ledger : Items
ledger = cons first_record nil

accepted_run : validate_evidence stand_in (arr ledger) 2 config revision 1_000_100 ≡ ok (0 ∷ [])
unfolding validate_evidence active_stages approval_policy authentication_mode deployment_mode
    fingerprint get has keys check_record check_scope check_checks check_approval required_approvers
    check_report stage_checks
accepted_run = refl

-- One report for stage 0 does not open stage 3: stage 2 has none.
skipped_run :
    validate_evidence stand_in (arr ledger) 3 config revision 1_000_100
    ≡ err (Fault.migration_error "Prior stage evidence is missing; do not skip migration gates")
unfolding validate_evidence active_stages approval_policy authentication_mode deployment_mode
    fingerprint get has keys check_record check_scope check_checks check_approval required_approvers
    check_report stage_checks
skipped_run = refl

pub active_run : active_stages config ≡ ok (0 ∷ 2 ∷ 3 ∷ 4 ∷ 5 ∷ 6 ∷ 7 ∷ 8 ∷ 9 ∷ [])
unfolding active_stages get authentication_mode deployment_mode
active_run = refl

pub policy_run : approval_policy config ≡ ok ("dual", [])
unfolding approval_policy get keys
policy_run = refl

pub stage_0_active : member 0 (0 ∷ 2 ∷ 3 ∷ 4 ∷ 5 ∷ 6 ∷ 7 ∷ 8 ∷ 9 ∷ []) ≡ true
unfolding member
stage_0_active = refl

validate_evidence-covers_example :
    Some (Accepted stand_in (gate config revision 1_000_100 ("dual", [])) 0) (items ledger)
validate_evidence-covers_example =
    validate_evidence-covers stand_in ledger 2 config revision 1_000_100 0 accepted_run active_run
      policy_run stage_0_active (omega arith)

validate_evidence-distinct_example :
    (all_distinct (0 ∷ []) ≡ true) × (length {A = ℕ} (0 ∷ []) ≡ length (items ledger))
validate_evidence-distinct_example =
    validate_evidence-distinct stand_in ledger 2 config revision 1_000_100 accepted_run

-- The customer adds the DNS section after stage 5 was accepted.
abbrev with_dns : Fields
with_dns = field "dns" (obj (field "ttl" (int (pos 300)) end)) config

dns_popped : pop "dns" with_dns ≡ pop "dns" config
unfolding pop
dns_popped = refl

stage_scope-hidden_example : stage_scope 5 with_dns ≡ stage_scope 5 config
stage_scope-hidden_example = stage_scope-hidden 5 "dns" with_dns config refl dns_popped

-- One operator, who accepts the risk.
abbrev single : Fields
single =
    field "governance"
      (obj (
        field "approvalMode" (str "single-operator") (
          field "approverObjectIds" (arr (cons (str "00000000-0000-0000-0000-00000000001f") nil)) (
            field "singleOperatorRiskAccepted" (Json.bool true)
              (field "githubLogin" (str "an-operator") end)))))
      end

single_run : approval_policy single ≡ ok ("single-operator", 31 ∷ [])
unfolding approval_policy get keys
single_run = refl

approval_policy-Sound_example :
    (all_distinct (31 ∷ []) ≡ true)
    × (nonzero (31 ∷ []) ≡ true)
    × Enough "single-operator" (31 ∷ [])
approval_policy-Sound_example = approval_policy-Sound single "single-operator" (31 ∷ []) single_run
