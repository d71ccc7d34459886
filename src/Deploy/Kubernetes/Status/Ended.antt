-- ===== src/Deploy/Kubernetes/Status/Ended.antt =====
-- The loops of the deployment script that wait for an object end.
use secure_litellm_on_azure.Base.{
  ℕ, zero, suc, ◌+◌, ◌*◌, ◌/◌, ◌≤◌, String, ◌≡◌, ◌≢◌, inl, inr, Bool, true, false, Option, none,
  some, List, [], ◌∷◌, ltb, Bool-cases, subst, sym, ap, arith,
}
use secure_litellm_on_azure.Json.{Json, str, obj}
use secure_litellm_on_azure.Fault.{Fault, Result, ok, err, api_exception, out_of_fuel}
use secure_litellm_on_azure.Deploy.Script.{
  asked, timed, slept, History, World, Ticks, Program, ◌>>=◌, lift, on_api, rescue, ask, attribute,
}
use secure_litellm_on_azure.Deploy.Kubernetes.Status.{
  unless_found, round, poll, wait_until, rolled_out, wait_for_deployment,
}
use secure_litellm_on_azure.Deploy.Kubernetes.{attributes}
use secure_litellm_on_azure.Fault
use secure_litellm_on_azure.Calls.{continue}

abbrev Finished : {A : Type 0} → Result A × History → Type 0
Finished (ok a, h) = Unit
Finished (err fault, h) = fault ≢ out_of_fuel

abbrev fault_of : {A : Type 0} → Result A → Fault
fault_of (err fault) = fault
fault_of (ok a) = out_of_fuel

Finished-ne : {A : Type 0} (out : Result A × History) → Finished out → out.0 ≢ err out_of_fuel
Finished-ne (ok a, h) f = cc
Finished-ne (err fault, h) f = λ e. f (ap fault_of e)

ne-Finished : {A : Type 0} (r : Result A) (h : History) → r ≢ err out_of_fuel → Finished (r, h)
ne-Finished (ok a) h f = tt
ne-Finished {A} (err fault) h f = λ e. f (ap (λ x. err x) e)

attribute-own : (v : Json) (name : String) → attribute v name ≢ err out_of_fuel
unfolding attribute
attribute-own (obj d) name = ground arith
attribute-own _ name = cc

attributes-own : (v : Json) (names : List String) → attributes v names ≢ err out_of_fuel
unfolding attributes
attributes-own v [] = cc
attributes-own v (name ∷ rest) =
    found (attribute v name) (attribute-own v name) (λ w. attributes-own w rest)
  where
    found :
        (r : Result Json)
        → r ≢ err out_of_fuel
        → ((w : Json) → attributes w rest ≢ err out_of_fuel)
        → Fault.◌>>=◌ r (λ w. attributes w rest) ≢ err out_of_fuel
    found (ok w) f g = g w
    found (err fault) f g = f

module _ {world : World} (ticks : Ticks world) where
  -- The program ends where it is started, and time does not go back.
  record Steady {A : Type 0} (program : Program A) : Type 0 where
    pub forward : (h : History) → world.clock h ≤ world.clock ((program h).1)
    pub ends : (h : History) → Finished (program h)

  guarded :
      {A : Type 0} (out : Result (Option A) × History)
      → Finished out
      → Finished (rescue (on_api λ status. lift (ok none)) out)
  guarded (ok a, h) f = f
  guarded (err (api_exception status), h) f = tt
  guarded (err fault, h) f = f

  guarded_clock :
      {A : Type 0} (n : ℕ) (out : Result (Option A) × History)
      → n ≤ world.clock (out.1)
      → n ≤ world.clock ((rescue (on_api λ status. lift (ok none)) out).1)
  guarded_clock n (ok a, h) f = f
  guarded_clock n (err (api_exception status), h) f = f
  guarded_clock n (err fault, h) f = f

  module _ {A : Type 0} {check : Program (Option A)} (steady : Steady check)
      (start timeout : ℕ) where
    -- What follows a check, from what follows a sleep.
    round_ends :
        (fuel n : ℕ)
        → ((h : History)
            → n + 5000000 ≤ world.clock h
            → Finished (poll world fuel start timeout check h))
        → (out : Result (Option A) × History) → Finished out
        → n ≤ world.clock (out.1)
        → Finished (continue (unless_found (poll world fuel start timeout check)) out)
    round_ends fuel n next (err fault, h) f later = f
    round_ends fuel n next (ok (some a), h) f later = tt
    round_ends fuel n next (ok none, h) f later =
        next (slept 5 ∷ h) (omega (arith, ticks.lasts 5 h))

    test_ends :
        (fuel : ℕ) (h : History)
        → ((h' : History)
            → ltb (world.clock h) (start + timeout * 1000000) ≡ true
            → world.clock h + 5000000 ≤ world.clock h'
            → Finished (poll world fuel start timeout check h'))
        → Finished (poll world (suc fuel) start timeout check h)
    unfolding poll
    test_ends fuel h next = elim (Bool-cases (ltb (world.clock h) (start + timeout * 1000000))) [
      | inl before ↦
          subst (λ b. Finished (round b check (poll world fuel start timeout check) (timed ∷ h)))
            (sym before)
            (round_ends fuel (world.clock h) (λ h' later. next h' before later)
              (rescue (on_api λ status. lift (ok none)) (check (timed ∷ h)))
              (guarded (check (timed ∷ h)) (steady.ends (timed ∷ h)))
              (guarded_clock (world.clock h) (check (timed ∷ h))
                (omega (arith, ticks.forward timed h, steady.forward (timed ∷ h)))))
      | inr after ↦
          subst (λ b. Finished (round b check (poll world fuel start timeout check) (timed ∷ h)))
            (sym after) tt
    ]

    poll_ends :
        (fuel : ℕ) (h : History)
        → start + timeout * 1000000 ≤ world.clock h + fuel * 5000000
        → Finished (poll world (suc fuel) start timeout check h)
    poll_ends zero h enough = test_ends zero h λ h' before later. absurd (ground arith)
    poll_ends (suc fuel) h enough =
        test_ends (suc fuel) h λ h' before later. poll_ends fuel h' (omega arith)

  wait_until_ends :
      {A : Type 0} (timeout : ℕ) {check : Program (Option A)}
      → Steady check
      → (h : History) → Finished (wait_until world timeout check h)
  unfolding wait_until
  wait_until_ends timeout steady h =
      poll_ends steady (world.clock h) timeout (timeout / 5 + 1) (timed ∷ h)
        (omega (arith, ticks.forward timed h))

  bind-Steady :
      {A B : Type 0} (program : Program A) (next : A → Program B)
      → Steady program
      → ((a : A) → Steady (next a))
      → Steady (program >>= next)
  bind-Steady {A} {B} program next first second = record {
    forward = λ h. later (world.clock h) (program h) (first.forward h);
    ends = λ h. finished (program h) (first.ends h);
  }
    where
      later :
          (n : ℕ) (out : Result A × History)
          → n ≤ world.clock (out.1)
          → n ≤ world.clock ((continue next out).1)
      later n (ok a, h) f = omega (arith, (second a).forward h)
      later n (err fault, h) f = f

      finished : (out : Result A × History) → Finished out → Finished (continue next out)
      finished (ok a, h) f = (second a).ends h
      finished (err fault, h) f = f

  lift-Steady : {A : Type 0} (result : Result A) → result ≢ err out_of_fuel → Steady (lift result)
  lift-Steady result own = record {
    forward = λ h. omega arith;
    ends = λ h. ne-Finished result h own;
  }

  ask-Steady : (name : String) (arguments : List Json) → Steady (ask world name arguments)
  ask-Steady name arguments = record {
    forward = λ h. ticks.forward (asked name arguments) h;
    ends = λ h. ne-Finished _ _ (ticks.fuelled h name arguments);
  }

  attributes-Steady : (v : Json) (names : List String) → Steady (lift (attributes v names))
  attributes-Steady v names = lift-Steady _ (attributes-own v names)

  rolled_out-Steady : (namespace name : String) → Steady (rolled_out world namespace name)
  unfolding rolled_out
  rolled_out-Steady namespace name =
      bind-Steady (ask world "read_namespaced_deployment" (str name ∷ str namespace ∷ [])) _
        (ask-Steady _ _)
        λ deployment.
          bind-Steady (lift (attributes deployment ("status" ∷ "ready_replicas" ∷ []))) _
            (attributes-Steady deployment ("status" ∷ "ready_replicas" ∷ []))
            λ ready.
              bind-Steady (lift (attributes deployment ("spec" ∷ "replicas" ∷ []))) _
                (attributes-Steady deployment ("spec" ∷ "replicas" ∷ []))
                λ replicas. lift-Steady _ cc

  -- Where the clock does not go back, a sleep lasts, and no client answers for the model's fuel, the
  -- wait for the rollout of a deployment does not run out of fuel, whatever the timeout is: the rounds
  -- that the model allows are enough for the loop to end.
  pub wait_for_deployment-ends :
      (namespace name : String) (timeout : ℕ) (h : History)
      → (wait_for_deployment world namespace name timeout h).0 ≢ err out_of_fuel
  unfolding wait_for_deployment
  wait_for_deployment-ends namespace name timeout h =
      Finished-ne (wait_for_deployment world namespace name timeout h) (
        bound (wait_until world timeout (rolled_out world namespace name) h)
          (wait_until_ends timeout (rolled_out-Steady namespace name) h))
    where
      bound :
          (out : Result (Option (Unit {0})) × History)
          → Finished out
          → Finished (
              continue
                (λ found. lift (ok (elim found as (λ _. Bool) [ none ↦ false | some _ ↦ true ])))
                out)
      bound (ok found, h) f = tt
      bound (err fault, h) f = f
