-- ===== src/Dns/Change.antt =====
-- `change_dns` of scripts/dns_runtime.py, for an edge that the caller passes. The summary is
-- returned; that it is printed and written to files is left out.
pub mod Backed
pub mod Checkpointed
pub mod Confirmed
pub mod Guarded
pub mod Reads
pub mod Recorded
use secure_litellm_on_azure.Base.{
  ℕ, String, ◌<>◌, Bool, true, false, ◌&&◌, ◌||◌, not, List, [], ◌∷◌, elem, str_eq, if◌then◌else◌,
}
use secure_litellm_on_azure.Base.Int.{pos}
use secure_litellm_on_azure.Json.{
  is_null, Json, null, bool, int, str, obj, Fields, end, field, json_eq, truthy,
}
use secure_litellm_on_azure.Fault.{Result, ok, err, require, index}
use secure_litellm_on_azure.Gates.External.{External, fingerprint}
use secure_litellm_on_azure.Dns.Plan.{
  covers_planes, plane_properties, check_checkpoint, published_records, publish_plan, rollback_plan,
  with_phase, plan_document, dns_inputs, plan_for, plane_done, planes_done,
}
use secure_litellm_on_azure.Dns.Client.{
  Client, Program, ◌>>=◌, ◌>>◌, lift, read, checkpoint, save, write,
}

-- What the plan fixes before anything is changed.
pub record Planned : Type 0 where
  pub action : String
  pub current : Json
  pub held : Json
  pub desired : Json
  pub document : Json

abbrev final_phase : String → String
final_phase action = if str_eq action "dns-publish" then "published" else "rolled-back"

module _ (client : Client) where
  -- One round of the loop over the planes: the records that the next round works on.
  unfoldable pub update_plane : String → Json → Json → Program Json
  unfolding plane_done
  update_plane plane desired current = do
    same ← lift (plane_done current desired plane)
    if same then lift (ok current) else (do
      wanted ← lift (index desired plane)
      previous ← lift (index current plane)
      write client plane wanted previous
      read client)

  -- The checkpoint is stored unless one exists.
  unfoldable pub ensure_checkpoint : String → Json → Program (Unit {0})
  unfolding is_null
  ensure_checkpoint action held =
      if str_eq action "dns-publish"
      then (do
        stored ← checkpoint client
        if is_null stored then save client held else lift (ok tt))
      else lift (ok tt)

  -- The writes and the confirmation, once the checkpoint is known to be stored.
  unfoldable pub write_planes : Planned → Program (Unit {0})
  unfolding update_plane planes_done with_phase
  write_planes p = do
    after_api ← update_plane "api" p.desired p.current
    after_admin ← update_plane "admin" p.desired after_api
    observed ← read client
    done ← lift (planes_done observed p.desired)
    lift (require done "DNS write result is uncertain; replan without overwriting checkpoint")
    final ← lift (with_phase (final_phase p.action) p.held)
    save client final

  -- What follows `if operation == "execute"`.
  unfoldable pub execute_plan : External → String → Planned → Program (Unit {0})
  unfolding ensure_checkpoint write_planes fingerprint json_eq
  execute_plan x approved p = do
    lift (
        require (str_eq approved (fingerprint x p.document)) "DNS plan changed or was not approved")
    again ← read client
    lift (require (json_eq again p.current) "DNS changed since plan")
    ensure_checkpoint p.action p.held
    stored ← checkpoint client
    lift (require (json_eq stored p.held) "DNS checkpoint changed before update")
    write_planes p

  unfoldable pub make_plan : External → Fields → String → String → Fields → Program Planned
  unfolding dns_inputs covers_planes check_checkpoint plan_for plan_document
  make_plan x config action revision edge = do
    inputs ← lift (dns_inputs x config edge)
    current ← read client
    lift (require (covers_planes current) "DNS client must return both gateway records")
    stored ← checkpoint client
    lift (check_checkpoint inputs.0 current stored)
    chosen ← lift (plan_for action edge inputs.0 current stored inputs.1 revision)
    lift (
        ok (record {
          action = action;
          current = current;
          held = chosen.1;
          desired = chosen.0;
          document = plan_document action revision inputs.0 current chosen.1 chosen.0;
        }))

  unfoldable pub summary : External → Planned → Bool → Json
  unfolding fingerprint
  summary x p applied = obj (
      field "stage" (int (pos 9)) (
        field "action" (str p.action) (
          field "planSha256" (str (fingerprint x p.document)) (
            field "applied" (bool applied) (
              field "stageAccepted" (bool false) (
                field "dnsPropagationVerified" (bool false)
                  (field "dataRollbackPerformed" (bool false) end)))))))

  unfoldable pub change_dns :
      External → Fields → String → String → String → String → Fields → Program Json
  unfolding make_plan execute_plan summary
  change_dns x config action operation revision approved edge = do
    lift (
        require
          (elem action ("dns-publish" ∷ "dns-rollback" ∷ [])
            && elem operation ("plan" ∷ "execute" ∷ []))
          "Invalid DNS operation")
    p ← make_plan x config action revision edge
    if str_eq operation "execute"
        then (do execute_plan x approved p; lift (ok (summary x p true)))
        else lift (ok (summary x p false))
