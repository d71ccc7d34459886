-- ===== src/Deploy/Kubernetes/Status.antt =====
-- `KubernetesManager` of the deployment script: what it reads of the objects, and the loops that
-- wait for them.
pub mod Ended
use secure_litellm_on_azure.Base.{
  ℕ, zero, suc, ◌+◌, ◌*◌, ◌/◌, String, ◌<>◌, Bool, true, false, not, Option, none, some, List, [],
  ◌∷◌, ltb, ◌==◌, str_eq, if◌then◌else◌,
}
use secure_litellm_on_azure.Base.Text.{lower}
use secure_litellm_on_azure.Base.Int.{pos}
use Prim.Native.Nat.{compare, Ordering}
use secure_litellm_on_azure.Json.{
  Json, null, str, int, obj, arr, Fields, end, field, json_eq, truthy, is_null, put, get, nil, cons,
}
use secure_litellm_on_azure.Fault.{
  Result, ok, err, type_error, attribute_error, value_error, runtime_error, out_of_fuel, get_or,
  put_item,
}
use secure_litellm_on_azure.Fault
use secure_litellm_on_azure.Deploy.Script.{
  World, Program, ◌>>=◌, ◌>>◌, lift, ask, time, sleep, attempt, attribute, on_api, if_missing, ◌⦂◌,
  dict, list, text_items, number,
}
use secure_litellm_on_azure.Deploy.Tools.{path_text}
use secure_litellm_on_azure.Deploy.Azure.{elements}
use secure_litellm_on_azure.Deploy.Objects.{build_cluster_issuer}
use secure_litellm_on_azure.Deploy.Kubernetes.{attributes}

-- The first of the pods whose creation time is the latest. Times are numbers; a pod without one has
-- 0 in its place, which Python does not compare with a time.
unfoldable pub newest : Json → List Json → Result Json
unfolding attributes
newest pod [] = ok pod
newest pod (other ∷ rest) =
    Fault.◌>>=◌ (attributes pod ("metadata" ∷ "creation_timestamp" ∷ [])) λ t.
      Fault.◌>>=◌ (attributes other ("metadata" ∷ "creation_timestamp" ∷ []))
        λ u. Fault.◌>>=◌ (later t u) λ moved. newest (if moved then other else pod) rest
  where
    later : Json → Json → Result Bool
    later null null = ok false
    later (int (pos m)) (int (pos n)) = ok (ltb m n)
    later _ _ = err type_error

-- The first of the pods that runs, or the selected one.
unfoldable pub running_pod : Json → List Json → Result Json
unfolding attributes truthy lower
running_pod selected [] = ok selected
running_pod selected (pod ∷ rest) =
    let others = running_pod selected rest in
    Fault.◌>>=◌ (attributes pod ("status" ∷ "phase" ∷ []))
      λ phase. if str_eq (lower (path_text phase)) "running" then ok pod else others

-- What follows a check: its answer, or the rest of the loop.
abbrev pub unless_found : {A : Type 0} → Program (Option A) → Option A → Program (Option A)
unless_found rest none = sleep 5 >> rest
unless_found rest (some a) = lift (ok (some a))

-- One round, by the test of the loop.
abbrev pub round :
    {A : Type 0} → Bool → Program (Option A) → Program (Option A) → Program (Option A)
round false check rest = lift (ok none)
round true check rest =
    attempt check (on_api λ status. lift (ok none)) >>= λ found. unless_found rest found

module _ (world : World) where
  -- `while time.time() - start < timeout:` one check, where an ApiException is no answer, and a sleep.
  -- The fuel bounds the rounds.
  unfoldable pub poll : {A : Type 0} → ℕ → ℕ → ℕ → Program (Option A) → Program (Option A)
  poll zero start timeout check = lift (err out_of_fuel)
  poll (suc fuel) start timeout check = do
    now ← time world
    round (ltb now (start + timeout * 1000000)) check (poll fuel start timeout check)

  -- The loop from its beginning: a round lasts five seconds at least.
  unfoldable pub wait_until : {A : Type 0} → ℕ → Program (Option A) → Program (Option A)
  unfolding poll
  wait_until timeout check = do start ← time world; poll (suc (timeout / 5 + 1)) start timeout check

  module _ (namespace : String) where
    -- `ready_replicas == replicas`
    unfoldable pub rolled_out : String → Program (Option (Unit {0}))
    unfolding attributes json_eq
    rolled_out name = do
      deployment ← ask world "read_namespaced_deployment" (str name ∷ str namespace ∷ [])
      ready ← lift (attributes deployment ("status" ∷ "ready_replicas" ∷ []))
      replicas ← lift (attributes deployment ("spec" ∷ "replicas" ∷ []))
      lift (ok (if json_eq ready replicas then some tt else none))

    unfoldable pub wait_for_deployment : String → ℕ → Program Bool
    unfolding wait_until rolled_out
    wait_for_deployment name timeout = do
      found ← wait_until timeout (rolled_out name)
      lift (ok (elim found [ none ↦ false | some _ ↦ true ]))

    unfoldable pub get_pod_logs : String → ℕ → Program Json
    unfolding attributes elements newest running_pod
    get_pod_logs deployment_name tail_lines =
        attempt
          (do
            pods ←
                ask world "list_namespaced_pod"
                  (str namespace ∷ str ("app=" <> deployment_name) ∷ [])
            listed ← lift (attribute pods "items")
            items ← lift (elements listed)
            elim items [
              | [] ↦ lift (ok (str ""))
              | pod ∷ rest ↦ (do
                latest ← lift (newest pod rest)
                selected ← lift (running_pod latest (pod ∷ rest))
                name ← lift (attributes selected ("metadata" ∷ "name" ∷ []))
                ask world "read_namespaced_pod_log" (name ∷ str namespace ∷ number tail_lines ∷ []))
            ])
          (on_api λ status. lift (ok (str "")))

  -- The address of the first entry of the load balancer, if there is an entry.
  unfoldable pub external_address : String → String → Program (Option Json)
  unfolding attributes truthy elements
  external_address name namespace = do
    service ← ask world "read_namespaced_service" (str name ∷ str namespace ∷ [])
    ingress ← lift (attributes service ("status" ∷ "load_balancer" ∷ "ingress" ∷ []))
    if not (truthy ingress) then lift (ok none) else (do
      entries ← lift (elements ingress)
      elim entries [
        | [] ↦ lift (ok none)
        | lb ∷ rest ↦ (do
          ip ← lift (attribute lb "ip")
          hostname ← lift (attribute lb "hostname")
          lift (ok (some (if truthy ip then ip else hostname))))
      ])

  -- In the namespace given, which is the manager's own by default.
  unfoldable pub get_service_external_ip : String → ℕ → String → Program Json
  unfolding wait_until external_address
  get_service_external_ip name timeout target_ns = do
    found ← wait_until timeout (external_address name target_ns)
    lift (ok (elim found [ none ↦ null | some address ↦ address ]))
