-- ===== src/Gates/Stages.antt =====
-- `STAGES`, `active_stages`, `stage_title` and `stage_checks` of scripts/customer_migration.py.
pub mod Nonempty
use secure_litellm_on_azure.Base.{
  ℕ, zero, suc, String, Bool, false, ◌&&◌, ◌||◌, not, List, [], ◌∷◌, ◌++◌, select, str_eq, ◌==◌,
  if◌then◌else◌,
}
use secure_litellm_on_azure.Json.{Fields, has, is_text}
use secure_litellm_on_azure.Fault.{Result, ok, ◌>>=◌, ◌>>◌, require}
use secure_litellm_on_azure.Gates.Policy.{
  approval_policy, deployment_mode, authentication_mode, member,
}

abbrev pub StageRow : Type 0
StageRow = String × List String

abbrev pub stages : List StageRow
stages =
    (
      "Baseline and recoverable backup",
      "inventory" ∷ "backup_restore" ∷ "key_salt_recovery" ∷ "protocol_baseline" ∷ [],
    )
    ∷ ("Legacy minimum hardening", "legacy_health" ∷ "alerts_received" ∷ "rollback_snapshot" ∷ [])
    ∷ (
      "Customer architecture decisions",
      "network_capacity" ∷ "identity_owners" ∷ "pg_auth_ha" ∷ "l3_policy" ∷ "protocol_scope" ∷ [],
    )
    ∷ (
      "Source supply chain and isolated target",
      "oidc_scope" ∷ "source_image_sbom_scan" ∷ "target_isolation" ∷ [],
    )
    ∷ (
      "Private network and AKS",
      "private_dns_egress" ∷ "private_runner" ∷ "target_image_signature_sbom" ∷ "workload_identity"
          ∷ "private_ingress" ∷ [],
    )
    ∷ (
      "Data platform and restore rehearsal",
      "pg_migration_restore" ∷ "key_salt_decryption" ∷ "redis_entra" ∷ "csi_rotation" ∷ [],
    )
    ∷ (
      "HA and routing",
      "replica_failure" ∷ "load_affinity" ∷ "capacity_limits" ∷ "no_legacy_db_writes" ∷ [],
    )
    ∷ (
      "Entra and split domains",
      "tenant_negative_tests" ∷ "object_ownership" ∷ "admin_private" ∷ "required_protocols" ∷ [],
    )
    ∷ (
      "L3 and observability",
      "durable_audit_recovery" ∷ "audit_governance" ∷ "telemetry_received" ∷ "guardrail_scope" ∷ [],
    )
    ∷ (
      "Approved pilot and cutover",
      "enabled_what_if" ∷ "origin_tls_private_link" ∷ "pilot_regression" ∷ "rollback_rehearsal"
          ∷ "dual_owner_release" ∷ [],
    )
    ∷ []

-- `STAGES[stage]`
unfoldable pub row : ℕ → List StageRow → StageRow
row n [] = ("", [])
row zero (r ∷ rs) = r
row (suc n) (r ∷ rs) = row n rs

abbrev pub ten : List ℕ
ten = 0 ∷ 1 ∷ 2 ∷ 3 ∷ 4 ∷ 5 ∷ 6 ∷ 7 ∷ 8 ∷ 9 ∷ []

unfoldable pub applies : Bool → Bool → ℕ → Bool
applies greenfield native stage =
    (not greenfield || not (stage == 1)) && (not native || not (stage == 7))

unfoldable pub active_stages : Fields → Result (List ℕ)
unfolding applies is_text
active_stages config = do
  auth ← authentication_mode config
  mode ← deployment_mode config
  ok (select (applies (str_eq mode "greenfield") (is_text "native" auth)) ten)

abbrev not_active : String
not_active = "Stage does not apply to the selected deployment mode"

unfoldable pub stage_title : ℕ → Fields → Result String
unfolding active_stages row has member
stage_title stage config = do
  active ← active_stages config
  require (member stage active) not_active
  mode ← deployment_mode config
  let title = (row stage stages).0
  let fresh =
      if stage == 0
      then "New environment prerequisites"
      else if stage == 5
      then "Data platform and database initialization"
      else if stage == 9
      then "Approved pilot and first release"
      else title
  let plain = if str_eq mode "greenfield" then fresh else title
  let audit =
      if has "l3Audit" config
      then "Optional TypeScript L3 and native spend metadata"
      else "Native Spend Logs and observability"
  ok (if (stage == 8) && has "contentAudit" config then audit else plain)

-- `checks[checks.index(old)] = new`
unfoldable pub rename_first : String → String → List String → List String
rename_first old new [] = []
rename_first old new (c ∷ cs) =
    let later = c ∷ rename_first old new cs in if str_eq c old then new ∷ cs else later

-- `checks[-1] = new`
unfoldable pub rename_last : String → List String → List String
rename_last new [] = []
rename_last new (c ∷ []) = new ∷ []
rename_last new (c ∷ d ∷ cs) = c ∷ rename_last new (d ∷ cs)

unfoldable pub audit_checks : Bool → Bool → List String
unfolding rename_last
audit_checks observability native =
    let telemetry = if observability then "telemetry_received" else "telemetry_disabled" in
    let checks =
      "native_spend_logs" ∷ "native_audit_access" ∷ "native_retention_recovery" ∷ telemetry
      ∷ "guardrail_scope" ∷ [] in
    if native then rename_last "native_api_route_isolation" checks else checks

unfoldable pub content_audit_checks : ℕ → Bool → Bool → List String → List String
unfolding rename_first audit_checks
content_audit_checks stage observability native checks =
    if stage == 2
    then rename_first "l3_policy" "content_audit_policy" checks
    else if stage == 8
    then audit_checks observability native
    else checks

unfoldable pub greenfield_checks : ℕ → List String → List String
greenfield_checks stage checks =
    if stage == 0
    then "subscription_scope" ∷ "deployment_permissions" ∷ "private_runner" ∷ "domain_ownership"
      ∷ []
    else if stage == 5
    then "database_schema" ∷ "application_secret_recovery" ∷ "redis_entra" ∷ "csi_rotation" ∷ []
    else if stage == 6
    then "replica_failure" ∷ "load_affinity" ∷ "capacity_limits" ∷ "target_database_scope" ∷ []
    else checks

abbrev l3_checks : List String
l3_checks =
    "native_spend_metadata" ∷ "l3_protocol_capture" ∷ "l3_delivery_recovery" ∷ "l3_query_hold"
    ∷ "l3_alerts" ∷ "native_api_route_isolation" ∷ []

-- What the checks depend on, read from the configuration.
pub record CheckContext : Type 0 where
  pub legacy_access : Bool
  pub content_audit : Bool
  pub observability : Bool
  pub l3_audit : Bool
  pub native : Bool
  pub greenfield : Bool
  pub single_operator : Bool

-- The edits of the list, in the order of the source.
unfoldable pub edited_checks : CheckContext → ℕ → List String
unfolding row content_audit_checks greenfield_checks rename_last
edited_checks c stage =
    let checks = (row stage stages).1 in
    let c1 =
      if (stage == 1) && c.legacy_access then checks ++ ("legacy_source_access" ∷ []) else checks in
    let c2 =
      if c.content_audit then content_audit_checks stage c.observability c.native c1 else c1 in
    let c3 = if c.greenfield then greenfield_checks stage c2 else c2 in
    let c4 = if (stage == 8) && c.l3_audit then l3_checks else c3 in
    if (stage == 9) && c.single_operator then rename_last "single_operator_release" c4 else c4

-- The approval policy is read for stage 9 alone.
unfoldable pub release_by_one : ℕ → Fields → Result Bool
release_by_one stage config =
    if stage == 9
    then (do policy ← approval_policy config; ok (str_eq policy.0 "single-operator"))
    else ok false

unfoldable pub stage_checks : ℕ → Fields → Result (List String)
unfolding active_stages edited_checks has is_text release_by_one member
stage_checks stage config = do
  active ← active_stages config
  require (member stage active) not_active
  auth ← authentication_mode config
  mode ← deployment_mode config
  single ← release_by_one stage config
  ok (
      edited_checks
        (record {
          legacy_access = has "legacyAccess" config;
          content_audit = has "contentAudit" config;
          observability = has "observability" config;
          l3_audit = has "l3Audit" config;
          native = is_text "native" auth;
          greenfield = str_eq mode "greenfield";
          single_operator = single;
        })
        stage)
