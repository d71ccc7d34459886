-- ===== src/Deploy/Objects.antt =====
-- The Kubernetes objects that the deployment script builds for LiteLLM and its Ingress.
pub mod Postgres
use secure_litellm_on_azure.Base.{ℕ, String, List, [], ◌∷◌}
use secure_litellm_on_azure.Json.{Json, str, arr}
use secure_litellm_on_azure.Deploy.Script.{◌⦂◌, dict, list, text_items, number}

-- A probe of the proxy over HTTP.
abbrev probe : String → ℕ → ℕ → Json
probe path period failures = dict (
    "http_get" ⦂ dict ("path" ⦂ str path ∷ "port" ⦂ number 4000 ∷ "scheme" ⦂ str "HTTP" ∷ [])
    ∷ "period_seconds" ⦂ number period
    ∷ "timeout_seconds" ⦂ number 5
    ∷ "failure_threshold" ⦂ number failures
    ∷ [])

-- `{"cpu": cpu, "memory": memory}`
abbrev pub amounts : String → String → Json
amounts cpu memory = dict ("cpu" ⦂ str cpu ∷ "memory" ⦂ str memory ∷ [])

unfoldable pub litellm_container : String → Json
litellm_container image = dict (
    "name" ⦂ str "litellm"
    ∷ "image" ⦂ str image
    ∷ "image_pull_policy" ⦂ str "IfNotPresent"
    ∷ "command" ⦂ arr (text_items ("litellm" ∷ []))
    ∷ "args" ⦂ arr (text_items ("--config" ∷ "/app/config/config.yaml" ∷ "--port" ∷ "4000" ∷ []))
    ∷ "ports" ⦂ list (dict ("container_port" ⦂ number 4000 ∷ []) ∷ [])
    ∷ "resources" ⦂ dict ("requests" ⦂ amounts "250m" "1Gi" ∷ "limits" ⦂ amounts "1000m" "2Gi" ∷ [])
    ∷ "startup_probe" ⦂ probe "/health/liveliness" 10 30
    ∷ "readiness_probe" ⦂ probe "/health/readiness" 10 3
    ∷ "liveness_probe" ⦂ probe "/health/liveliness" 20 6
    ∷ "env_from" ⦂ list (dict ("secret_ref" ⦂ dict ("name" ⦂ str "litellm-env" ∷ []) ∷ []) ∷ [])
    ∷ "volume_mounts"
      ⦂ list (
          dict (
            "name" ⦂ str "litellm-config"
            ∷ "mount_path" ⦂ str "/app/config/config.yaml"
            ∷ "sub_path" ⦂ str "config.yaml"
            ∷ [])
          ∷ [])
    ∷ [])

unfoldable pub build_litellm_deployment : String → String → String → Json
unfolding litellm_container
build_litellm_deployment image config_hash secret_hash = dict (
    "metadata" ⦂ dict ("name" ⦂ str "litellm-mi-proxy" ∷ [])
    ∷ "spec"
      ⦂ dict (
          "replicas" ⦂ number 1
          ∷ "selector" ⦂ dict ("match_labels" ⦂ dict ("app" ⦂ str "litellm-mi-proxy" ∷ []) ∷ [])
          ∷ "template"
            ⦂ dict (
                "metadata"
                  ⦂ dict (
                      "labels" ⦂ dict ("app" ⦂ str "litellm-mi-proxy" ∷ [])
                      ∷ "annotations"
                        ⦂ dict (
                            "litellm.config-hash" ⦂ str config_hash
                            ∷ "litellm.secret-hash" ⦂ str secret_hash
                            ∷ [])
                      ∷ [])
                ∷ "spec"
                  ⦂ dict (
                      "containers" ⦂ list (litellm_container image ∷ [])
                      ∷ "volumes"
                        ⦂ list (
                            dict (
                              "name" ⦂ str "litellm-config"
                              ∷ "config_map" ⦂ dict ("name" ⦂ str "litellm-config" ∷ [])
                              ∷ [])
                            ∷ [])
                      ∷ [])
                ∷ [])
          ∷ [])
    ∷ [])

unfoldable pub build_litellm_service : String → Json
build_litellm_service service_type = dict (
    "metadata" ⦂ dict ("name" ⦂ str "litellm-mi-proxy" ∷ [])
    ∷ "spec"
      ⦂ dict (
          "selector" ⦂ dict ("app" ⦂ str "litellm-mi-proxy" ∷ [])
          ∷ "ports"
            ⦂ list (
                dict
                  ("port" ⦂ number 4000 ∷ "target_port" ⦂ number 4000 ∷ "protocol" ⦂ str "TCP" ∷ [])
                ∷ [])
          ∷ "type" ⦂ str service_type
          ∷ [])
    ∷ [])

unfoldable pub build_litellm_ingress : String → String → String → String → String → String → Json
build_litellm_ingress hostname namespace body_size buffering read_timeout send_timeout = dict (
    "metadata"
      ⦂ dict (
          "name" ⦂ str "litellm-ingress"
          ∷ "namespace" ⦂ str namespace
          ∷ "annotations"
            ⦂ dict (
                "cert-manager.io/cluster-issuer" ⦂ str "letsencrypt-prod"
                ∷ "nginx.ingress.kubernetes.io/ssl-redirect" ⦂ str "true"
                ∷ "nginx.ingress.kubernetes.io/proxy-body-size" ⦂ str body_size
                ∷ "nginx.ingress.kubernetes.io/proxy-buffering" ⦂ str buffering
                ∷ "nginx.ingress.kubernetes.io/proxy-read-timeout" ⦂ str read_timeout
                ∷ "nginx.ingress.kubernetes.io/proxy-send-timeout" ⦂ str send_timeout
                ∷ [])
          ∷ [])
    ∷ "spec"
      ⦂ dict (
          "ingress_class_name" ⦂ str "nginx"
          ∷ "tls"
            ⦂ list (
                dict (
                  "hosts" ⦂ arr (text_items (hostname ∷ []))
                  ∷ "secret_name" ⦂ str "litellm-tls"
                  ∷ [])
                ∷ [])
          ∷ "rules"
            ⦂ list (
                dict (
                  "host" ⦂ str hostname
                  ∷ "http"
                    ⦂ dict (
                        "paths"
                          ⦂ list (
                              dict (
                                "path" ⦂ str "/"
                                ∷ "path_type" ⦂ str "Prefix"
                                ∷ "backend"
                                  ⦂ dict (
                                      "service"
                                        ⦂ dict (
                                            "name" ⦂ str "litellm-mi-proxy"
                                            ∷ "port" ⦂ dict ("number" ⦂ number 4000 ∷ [])
                                            ∷ [])
                                      ∷ [])
                                ∷ [])
                              ∷ [])
                        ∷ [])
                  ∷ [])
                ∷ [])
          ∷ [])
    ∷ [])

unfoldable pub build_cluster_issuer : String → String → Json
build_cluster_issuer name email = dict (
    "apiVersion" ⦂ str "cert-manager.io/v1"
    ∷ "kind" ⦂ str "ClusterIssuer"
    ∷ "metadata" ⦂ dict ("name" ⦂ str name ∷ [])
    ∷ "spec"
      ⦂ dict (
          "acme"
            ⦂ dict (
                "server" ⦂ str "https://acme-v02.api.letsencrypt.org/directory"
                ∷ "email" ⦂ str email
                ∷ "privateKeySecretRef" ⦂ dict ("name" ⦂ str name ∷ [])
                ∷ "solvers"
                  ⦂ list (
                      dict
                        ("http01" ⦂ dict ("ingress" ⦂ dict ("class" ⦂ str "nginx" ∷ []) ∷ []) ∷ [])
                      ∷ [])
                ∷ [])
          ∷ [])
    ∷ [])
