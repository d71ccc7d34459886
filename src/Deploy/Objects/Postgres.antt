-- ===== src/Deploy/Objects/Postgres.antt =====
-- The Kubernetes objects that the deployment script builds for PostgreSQL.
use secure_litellm_on_azure.Base.{ℕ, String, [], ◌∷◌}
use secure_litellm_on_azure.Json.{Json, str, arr}
use secure_litellm_on_azure.Deploy.Script.{◌⦂◌, dict, list, text_items, number}

-- A probe that runs pg_isready.
abbrev postgres_probe : ℕ → ℕ → Json
postgres_probe period failures = dict (
    "_exec"
      ⦂ dict (
          "command"
            ⦂ arr (
                text_items
                  ("sh" ∷ "-c" ∷ "pg_isready -U \"$POSTGRES_USER\" -d \"$POSTGRES_DB\"" ∷ []))
          ∷ [])
    ∷ "period_seconds" ⦂ number period
    ∷ "timeout_seconds" ⦂ number 5
    ∷ "failure_threshold" ⦂ number failures
    ∷ [])

abbrev env_var : String → String → Json
env_var name value = dict ("name" ⦂ str name ∷ "value" ⦂ str value ∷ [])

unfoldable pub postgres_container : String → String → String → Json
postgres_container pg_user pg_password pg_db = dict (
    "name" ⦂ str "postgres"
    ∷ "image" ⦂ str "postgres:16-alpine"
    ∷ "ports" ⦂ list (dict ("container_port" ⦂ number 5432 ∷ []) ∷ [])
    ∷ "env"
      ⦂ list (
          env_var "POSTGRES_DB" pg_db
          ∷ env_var "POSTGRES_USER" pg_user
          ∷ env_var "POSTGRES_PASSWORD" pg_password
          ∷ env_var "PGDATA" "/var/lib/postgresql/data/pgdata"
          ∷ [])
    ∷ "volume_mounts"
      ⦂ list
          (dict ("name" ⦂ str "pg-data" ∷ "mount_path" ⦂ str "/var/lib/postgresql/data" ∷ []) ∷ [])
    ∷ "resources"
      ⦂ dict (
          "requests" ⦂ dict ("cpu" ⦂ str "100m" ∷ "memory" ⦂ str "128Mi" ∷ [])
          ∷ "limits" ⦂ dict ("cpu" ⦂ str "500m" ∷ "memory" ⦂ str "256Mi" ∷ [])
          ∷ [])
    ∷ "startup_probe" ⦂ postgres_probe 10 30
    ∷ "readiness_probe" ⦂ postgres_probe 10 3
    ∷ "liveness_probe" ⦂ postgres_probe 20 6
    ∷ [])

unfoldable pub build_postgres_deployment : String → String → String → Json
unfolding postgres_container
build_postgres_deployment pg_user pg_password pg_db = dict (
    "metadata" ⦂ dict ("name" ⦂ str "postgres" ∷ [])
    ∷ "spec"
      ⦂ dict (
          "replicas" ⦂ number 1
          ∷ "strategy" ⦂ dict ("type" ⦂ str "Recreate" ∷ [])
          ∷ "selector" ⦂ dict ("match_labels" ⦂ dict ("app" ⦂ str "postgres" ∷ []) ∷ [])
          ∷ "template"
            ⦂ dict (
                "metadata" ⦂ dict ("labels" ⦂ dict ("app" ⦂ str "postgres" ∷ []) ∷ [])
                ∷ "spec"
                  ⦂ dict (
                      "containers" ⦂ list (postgres_container pg_user pg_password pg_db ∷ [])
                      ∷ "volumes"
                        ⦂ list (
                            dict (
                              "name" ⦂ str "pg-data"
                              ∷ "persistent_volume_claim" ⦂ dict ("claim_name" ⦂ str "pg-data" ∷ [])
                              ∷ [])
                            ∷ [])
                      ∷ [])
                ∷ [])
          ∷ [])
    ∷ [])

unfoldable pub build_postgres_service : Json
build_postgres_service = dict (
    "metadata" ⦂ dict ("name" ⦂ str "postgres" ∷ [])
    ∷ "spec"
      ⦂ dict (
          "selector" ⦂ dict ("app" ⦂ str "postgres" ∷ [])
          ∷ "ports" ⦂ list (dict ("port" ⦂ number 5432 ∷ "target_port" ⦂ number 5432 ∷ []) ∷ [])
          ∷ [])
    ∷ [])
