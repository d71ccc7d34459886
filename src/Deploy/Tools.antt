-- ===== src/Deploy/Tools.antt =====
-- The command line tools of the deployment script: az and helm.
use secure_litellm_on_azure.Base.{String, ◌<>◌, not, List, [], ◌∷◌, ◌++◌, str_eq, if◌then◌else◌}
use secure_litellm_on_azure.Base.Text.{contains}
use secure_litellm_on_azure.Json.{Json, str, arr, json_eq}
use secure_litellm_on_azure.Fault.{Fault, ok, err, runtime_error, command_error}
use secure_litellm_on_azure.Dns.Settings.{text_part}
use secure_litellm_on_azure.Runtime.Login.{Env, text_or}
use secure_litellm_on_azure.Deploy.Script.{
  World, Program, ◌>>=◌, lift, ask, attempt, attribute, text_items, number,
}
use secure_litellm_on_azure.Deploy.Settings.{strip, join}

-- The text of a value that is a text or None.
abbrev pub path_text : Json → String
path_text (str s) = s
path_text _ = ""

-- `except (OSError, subprocess.CalledProcessError): raise RuntimeError(message)`
abbrev pub on_command : {A : Type 0} → String → Fault → Program A
on_command message command_error = lift (err (runtime_error message))
on_command message fault = lift (err fault)

abbrev pub no_subscription : String
no_subscription = "Cannot determine Azure subscription. Set AZURE_SUBSCRIPTION_ID or run az login."

module _ (world : World) where
  abbrev pub which : String → Program String
  which name = do found ← ask world "shutil.which" (str name ∷ []); lift (ok (path_text found))

  -- `first or next`, where the second is asked for only if it is needed
  abbrev pub or_else : Program String → Program String → Program String
  or_else first next = do found ← first; if str_eq found "" then next else lift (ok found)

  unfoldable pub resolve_tool : String → Program String
  resolve_tool name =
      or_else (which name) (or_else (which (name <> ".cmd")) (which (name <> ".exe")))

  unfoldable pub get_subscription_id : Env → Program String
  unfolding resolve_tool text_part
  get_subscription_id environ =
      let configured = strip (text_or "" (environ "AZURE_SUBSCRIPTION_ID")) in
      if not (str_eq configured "") then lift (ok configured) else (do
        az ← or_else (resolve_tool "az") (lift (ok "az"))
        printed ←
            attempt
              (ask world "subprocess.check_output" (
                arr (text_items (az ∷ "account" ∷ "show" ∷ "--query" ∷ "id" ∷ "-o" ∷ "tsv" ∷ []))
                ∷ []))
              (on_command no_subscription)
        text ← lift (text_part printed)
        if not (str_eq (strip text) "")
            then lift (ok (strip text))
            else lift (err (runtime_error no_subscription)))

  unfoldable pub run_cli : List String → Program Json
  unfolding join json_eq
  run_cli arguments = do
    result ← ask world "subprocess.run" (arr (text_items arguments) ∷ [])
    code ← lift (attribute result "returncode")
    if not (json_eq code (number 0))
        then lift (err (runtime_error ("Command failed: " <> join " " arguments)))
        else lift (attribute result "stdout")

  unfoldable pub helm : Program String
  unfolding resolve_tool
  helm = do
    found ← resolve_tool "helm"
    if str_eq found ""
        then lift (
            err (
              runtime_error
                "helm not found. Install Helm first: https://helm.sh/docs/intro/install/"))
        else lift (ok found)

  unfoldable pub install_ingress_nginx : Program Json
  unfolding helm run_cli
  install_ingress_nginx = do
    tool ← helm
    added ← run_cli (
        tool ∷ "repo" ∷ "add" ∷ "ingress-nginx" ∷ "https://kubernetes.github.io/ingress-nginx"
        ∷ "--force-update" ∷ [])
    updated ← run_cli (tool ∷ "repo" ∷ "update" ∷ [])
    run_cli (
        tool
        ∷ "upgrade"
        ∷ "--install"
        ∷ "ingress-nginx"
        ∷ "ingress-nginx/ingress-nginx"
        ∷ "--namespace"
        ∷ "ingress-nginx"
        ∷ "--create-namespace"
        ∷ "--set"
        ∷ "controller.service.type=LoadBalancer"
        ∷ "--set"
        ∷ ("controller.service.annotations.service\\.beta\\.kubernetes\\.io/"
            <> "azure-load-balancer-health-probe-request-path=/healthz")
        ∷ "--wait"
        ∷ "--timeout"
        ∷ "10m"
        ∷ [])

  unfoldable pub install_cert_manager : Program Json
  unfolding helm run_cli text_part
  install_cert_manager = do
    tool ← helm
    added ←
        run_cli (
          tool ∷ "repo" ∷ "add" ∷ "jetstack" ∷ "https://charts.jetstack.io" ∷ "--force-update" ∷ [])
    updated ← run_cli (tool ∷ "repo" ∷ "update" ∷ [])
    result ← ask world "subprocess.run" (arr (text_items (tool ∷ "upgrade" ∷ "--help" ∷ [])) ∷ [])
    stdout ← lift (attribute result "stdout")
    upgrade_help ← lift (text_part stdout)
    run_cli (
        (tool ∷ "upgrade" ∷ "--install" ∷ "cert-manager" ∷ "jetstack/cert-manager" ∷ "--namespace"
          ∷ "cert-manager" ∷ "--create-namespace" ∷ "--set" ∷ "crds.enabled=true" ∷ [])
        ++ ((if contains upgrade_help "--server-side" then "--server-side=false" ∷ [] else [])
            ++ ("--wait" ∷ "--timeout" ∷ "10m" ∷ [])))
