-- ===== src/Deploy/Still/Awaited.antt =====
-- The wait for PostgreSQL releases nothing, and tells that PostgreSQL is ready only where it was read so.
use secure_litellm_on_azure.Base.{
  ℕ, zero, suc, ◌+◌, ◌*◌, ◌/◌, String, ◌≡◌, refl, Bool, true, false, Option, none, some,
  if◌then◌else◌, [], ◌∷◌, ltb,
}
use secure_litellm_on_azure.Json.{Json, str, json_eq}
use secure_litellm_on_azure.Fault.{Result, ok}
use secure_litellm_on_azure.Calls.Logic.{From, bind_From, lift_then, call_From}
use secure_litellm_on_azure.Deploy.Script.{
  ◌>>=◌, asked, History, World, Program, lift, ask, time, sleep, attempt, on_api, dict, ◌⦂◌,
}
use secure_litellm_on_azure.Deploy.Logic.{attempt_From, on_api_From}
use secure_litellm_on_azure.Deploy.Settings.{DeploySettings}
use secure_litellm_on_azure.Deploy.Objects.Postgres.{build_postgres_service}
use secure_litellm_on_azure.Deploy.Kubernetes.{attributes}
use secure_litellm_on_azure.Deploy.Kubernetes.Status.{
  unless_found, round, poll, wait_until, rolled_out, wait_for_deployment,
}
use secure_litellm_on_azure.Deploy.Steps.{exit_unless, deploy_postgres}
use secure_litellm_on_azure.Deploy.Still.{is_release, Still}
use secure_litellm_on_azure.Deploy.Still.Applied.{
  namespace-Keeps, configmap-Keeps, service-Keeps, postgres-Keeps, pvc-Keeps,
}

-- The last call has read the deployment postgres with as many ready replicas as it wants.
pub record Seen (world : World) (h : History) : Type 0 where
  pub past : History
  pub namespace : String
  pub deployment : Json
  pub answered :
      world.answer past "read_namespaced_deployment" (str "postgres" ∷ str namespace ∷ [])
      ≡ ok deployment
  pub ready : Json
  pub of_ready : attributes deployment ("status" ∷ "ready_replicas" ∷ []) ≡ ok ready
  pub replicas : Json
  pub of_replicas : attributes deployment ("spec" ∷ "replicas" ∷ []) ≡ ok replicas
  pub equal : json_eq ready replicas ≡ true
  pub last : h ≡ asked "read_namespaced_deployment" (str "postgres" ∷ str namespace ∷ []) ∷ past

module _ (world : World) where
  -- What holds of a wait's answer.
  abbrev Waited : {A : Type 0} → Option A → History → Type 0
  Waited none h = Still h
  Waited (some a) h = Still h × Seen world h

  rolled_out-Waited :
      (namespace : String) → From Still (rolled_out world namespace "postgres") Waited Still
  unfolding rolled_out is_release
  rolled_out-Waited namespace =
      bind_From {R = ReadOf}
        (ask world "read_namespaced_deployment" (str "postgres" ∷ str namespace ∷ [])) _
        (call_From _ _ (λ h p. p) λ h p d e. (h, e, refl, p))
        λ d. then_last (attributes d ("status" ∷ "ready_replicas" ∷ [])) _ d λ ready e1.
          then_last (attributes d ("spec" ∷ "replicas" ∷ [])) _ d λ replicas e2. record {
            runs = λ h p. compared d ready replicas e1 e2 (json_eq ready replicas) refl h p;
          }
    where
      ReadOf : Json → History → Type 0
      ReadOf d h =
          (past : History) × (world.answer past "read_namespaced_deployment"
              (str "postgres" ∷ str namespace ∷ [])
            ≡ ok d)
          × (h ≡ asked "read_namespaced_deployment" (str "postgres" ∷ str namespace ∷ []) ∷ past)
          × Still h

      then_last :
          {A B : Type 0} {Q : B → History → Type 0} (result : Result A) (next : A → Program B)
          (d : Json)
          → ((a : A) → result ≡ ok a → From (ReadOf d) (next a) Q Still)
          → From (ReadOf d) (lift result >>= next) Q Still
      then_last result next d k = lift_then result next (λ h p. p.3) k

      compared :
          (d ready replicas : Json)
          → attributes d ("status" ∷ "ready_replicas" ∷ []) ≡ ok ready
          → attributes d ("spec" ∷ "replicas" ∷ []) ≡ ok replicas
          → (b : Bool) → json_eq ready replicas ≡ b
          → (h : History) → ReadOf d h
          → Waited (if b then some (tt {0}) else none) h
      compared d ready replicas e1 e2 false e h p = p.3
      compared d ready replicas e1 e2 true e h p = (
        p.3,
        record {
          past = p.0;
          namespace = namespace;
          deployment = d;
          answered = p.1;
          ready = ready;
          of_ready = e1;
          replicas = replicas;
          of_replicas = e2;
          equal = e;
          last = p.2;
        },
      )

  module _ {A : Type 0} {check : Program (Option A)} (checked : From Still check Waited Still) where
    guarded : From Still (attempt check (on_api λ status. lift (ok none))) Waited Still
    guarded =
        attempt_From _ _ checked (on_api_From (λ h p. p) _ λ status. record { runs = λ h p. p })

    round-Waited :
        (rest : Program (Option A))
        → From Still rest Waited Still
        → (b : Bool) → From Still (round b check rest) Waited Still
    unfolding is_release
    round-Waited rest k false = record { runs = λ h p. p }
    round-Waited rest k true = bind_From _ _ guarded next
      where
        next : (found : Option A) → From (Waited found) (unless_found rest found) Waited Still
        next none =
            bind_From {R = λ _. Still} (sleep 5) _ (call_From _ _ (λ h p. p) λ h p a e. p) λ _. k
        next (some a) = record { runs = λ h p. p }

    poll-Waited :
        (fuel start timeout : ℕ) → From Still (poll world fuel start timeout check) Waited Still
    unfolding poll is_release
    poll-Waited zero start timeout = record { runs = λ h p. p }
    poll-Waited (suc fuel) start timeout =
        bind_From {R = λ _. Still} (time world) _ (call_From _ _ (λ h p. p) λ h p a e. p) λ now.
          round-Waited _ (poll-Waited fuel start timeout) (ltb now (start + timeout * 1000000))

  -- What holds where a wait has returned.
  abbrev WhenReady : Bool → History → Type 0
  WhenReady false h = Still h
  WhenReady true h = Still h × Seen world h

  wait-WhenReady :
      (namespace : String) (timeout : ℕ)
      → From Still (wait_for_deployment world namespace "postgres" timeout) WhenReady Still
  unfolding wait_for_deployment wait_until is_release
  wait-WhenReady namespace timeout =
      bind_From {R = Waited} (wait_until world timeout (rolled_out world namespace "postgres")) _
        (bind_From {R = λ _. Still} (time world) _ (call_From _ _ (λ h p. p) λ h p a e. p)
          λ start. poll-Waited (rolled_out-Waited namespace) (suc (timeout / 5 + 1)) start timeout)
        told
    where
      told :
          (found : Option (Unit {0}))
          → From
              (Waited found)
              (lift (ok (elim found as (λ _. Bool) [ none ↦ false | some _ ↦ true ])))
              WhenReady
              Still
      told none = record { runs = λ h p. p }
      told (some a) = record { runs = λ h p. p }

  pub deploy_postgres-Seen :
      (settings : DeploySettings) (config_yaml : String)
      → From Still
          (deploy_postgres world settings config_yaml)
          (λ _ h. Still h × Seen world h)
          Still
  unfolding deploy_postgres is_release build_postgres_service
  deploy_postgres-Seen settings config_yaml =
      let namespace = settings.aks_namespace in
      bind_From _ _ (namespace-Keeps world namespace) λ _.
        bind_From _ _
          (configmap-Keeps world namespace "litellm-config"
            (dict ("config.yaml" ⦂ str config_yaml ∷ [])))
          λ _.
            bind_From _ _
              (pvc-Keeps world namespace "pg-data" settings.pg_storage
                settings.expand_existing_pg_pvc)
              λ _.
                bind_From _ _
                  (postgres-Keeps world namespace settings.pg_user settings.pg_password
                    settings.pg_db)
                  λ _.
                    bind_From _ _ (service-Keeps world namespace build_postgres_service)
                      λ _. bind_From _ _ (wait-WhenReady namespace 120) λ ready. ended ready
    where
      ended :
          (ready : Bool)
          → From (WhenReady ready) (lift (exit_unless ready)) (λ _ h. Still h × Seen world h) Still
      ended true = record { runs = λ h p. p }
      ended false = record { runs = λ h p. p }
