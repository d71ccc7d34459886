-- ===== src/Dns/Change/Checkpointed.antt =====
-- Every write of `change_dns` has its backup.
use secure_litellm_on_azure.Base.{
  String, subst, true, false, ◌&&◌, [], ◌∷◌, elem, str_eq, if◌then◌else◌,
}
use secure_litellm_on_azure.Json.{Fields}
use secure_litellm_on_azure.Fault.{Result, ok, err, require, ok_injective}
use secure_litellm_on_azure.Gates.External.{External}
use secure_litellm_on_azure.Dns.Plan.{covers_planes, check_checkpoint, plan_for, dns_inputs}
use secure_litellm_on_azure.Dns.Client.{History, Client, ◌>>=◌, lift, read, checkpoint}
use secure_litellm_on_azure.Calls.Logic.{From, Ends, bind_From, lift_From, branch_From}
use secure_litellm_on_azure.Dns.Change.{Planned, make_plan, change_dns, execute_plan, summary}
use secure_litellm_on_azure.Dns.Change.Recorded.{Recorded, plan_for-Recorded}
use secure_litellm_on_azure.Dns.Change.Backed.{
  Backed, BackedAfter, lift-Backed, read-Backed, checkpoint-Backed,
}
use secure_litellm_on_azure.Dns.Change.Guarded.{execute_plan-Backed}

module _ (client : Client) where
  abbrev PlannedAfter : Planned → History → Type 0
  PlannedAfter p h = Backed client h × Recorded p.held p.desired

  make_plan-Recorded :
      (x : External) (config : Fields) (action revision : String) (edge : Fields)
      → From
          (Backed client)
          (make_plan client x config action revision edge)
          PlannedAfter
          (Backed client)
  unfolding make_plan
  make_plan-Recorded x config action revision edge =
      bind_From (lift (dns_inputs x config edge)) _ (lift-Backed client (dns_inputs x config edge))
        λ inputs. bind_From (read client) _ (read-Backed client) λ current.
          bind_From (lift (require (covers_planes current) _)) _ (lift-Backed client _) λ _.
            bind_From (checkpoint client) _ (checkpoint-Backed client) λ stored.
              bind_From (lift (check_checkpoint inputs.0 current stored)) _ (lift-Backed client _)
                λ _.
                  bind_From {R = λ chosen h. Backed client h × Recorded chosen.1 chosen.0}
                    (lift (plan_for action edge inputs.0 current stored inputs.1 revision)) _
                    (lift_From (plan_for action edge inputs.0 current stored inputs.1 revision)
                      (λ h p. p)
                      (λ chosen e h p. (
                        p,
                        plan_for-Recorded action edge inputs.0 current stored inputs.1 revision e,
                      )))
                    λ chosen.
                      lift_From _ (λ h p. p.0)
                        (λ p e h b.
                          (b.0, subst (λ q. Recorded q.held q.desired) (ok_injective e) b.1))

  finish :
      (operation approved : String) (x : External) (p : Planned)
      → From
          (PlannedAfter p)
          (if str_eq operation "execute"
            then (execute_plan client x approved p >>= λ _. lift (ok (summary client x p true)))
            else lift (ok (summary client x p false)))
          (BackedAfter client)
          (Backed client)
  finish operation approved x p = record {
    runs = λ h b.
        (branch_From (str_eq operation "execute") _ _
            (bind_From (execute_plan client x approved p) _
              (execute_plan-Backed client x approved p b.1) λ _. lift-Backed client _)
            (lift-Backed client _)).runs
          h b.0;
  }

ended :
    (client : Client) {A : Type 0} (out : Result A × History)
    → Ends (BackedAfter client) (Backed client) out
    → Backed client (out.1)
ended client (ok a, h) p = p
ended client (err e, h) p = p

-- However a run of `change_dns` ends, and whatever the client answers, each write that it made puts
-- what a checkpoint records for the plane, as the state before or after the change, and an earlier
-- call of the same run had read a stored checkpoint equal to that one.
pub change_dns-Backed :
    (client : Client) (x : External) (config : Fields) (action operation revision approved : String)
    (edge : Fields)
    → Backed client ((change_dns client x config action operation revision approved edge []).1)
unfolding change_dns
change_dns-Backed client x config action operation revision approved edge =
    ended client (change_dns client x config action operation revision approved edge []) (
      (bind_From
          (lift (
            require
              (elem action ("dns-publish" ∷ "dns-rollback" ∷ [])
                && elem operation ("plan" ∷ "execute" ∷ []))
              "Invalid DNS operation"))
          _ (lift-Backed client _)
          (λ _.
            bind_From (make_plan client x config action revision edge) _
              (make_plan-Recorded client x config action revision edge)
              λ p. finish client operation approved x p)).runs
        [] tt)
