-- ===== src/Dns/Change/Reads.antt =====
-- A plan changes nothing.
use secure_litellm_on_azure.Base.{String, ◌≡◌, refl, Bool, true, false, ◌&&◌, [], ◌∷◌, all, elem}
use secure_litellm_on_azure.Json.{Json, Fields}
use secure_litellm_on_azure.Fault.{Result, ok, err, require}
use secure_litellm_on_azure.Gates.External.{External}
use secure_litellm_on_azure.Dns.Plan.{covers_planes, check_checkpoint, plan_for, dns_inputs}
use secure_litellm_on_azure.Dns.Client.{
  Call, read_records, read_checkpoint, saved, written, History, Client, lift, read, checkpoint,
}
use secure_litellm_on_azure.Calls.Logic.{From, Ends, bind_From, lift_From}
use secure_litellm_on_azure.Dns.Change.{make_plan, change_dns}

-- The call changes neither the zone nor the stored checkpoint.
abbrev pub is_reading : Call → Bool
is_reading read_records = true
is_reading read_checkpoint = true
is_reading (saved value) = false
is_reading (written plane desired previous) = false

abbrev Reads : History → Type 0
Reads h = all is_reading h ≡ true

abbrev ReadsAfter : {A : Type 0} → A → History → Type 0
ReadsAfter a h = Reads h

Reads-lift : {A : Type 0} (result : Result A) → From Reads (lift result) ReadsAfter Reads
Reads-lift result = lift_From result (λ h p. p) (λ a e h p. p)

module _ (client : Client) where
  Reads-read : From Reads (read client) ReadsAfter Reads
  Reads-read = record { runs = λ h p. go h p (client.read h) }
    where
      go : (h : History) → Reads h → (r : Result Json) → Ends ReadsAfter Reads (r, read_records ∷ h)
      go h p (ok a) = p
      go h p (err e) = p

  Reads-checkpoint : From Reads (checkpoint client) ReadsAfter Reads
  Reads-checkpoint = record { runs = λ h p. go h p (client.checkpoint h) }
    where
      go :
          (h : History)
          → Reads h
          → (r : Result Json) → Ends ReadsAfter Reads (r, read_checkpoint ∷ h)
      go h p (ok a) = p
      go h p (err e) = p

  Reads-make_plan :
      (x : External) (config : Fields) (action revision : String) (edge : Fields)
      → From Reads (make_plan client x config action revision edge) ReadsAfter Reads
  unfolding make_plan
  Reads-make_plan x config action revision edge =
      bind_From (lift (dns_inputs x config edge)) _ (Reads-lift (dns_inputs x config edge))
        λ inputs. bind_From (read client) _ Reads-read λ current.
          bind_From (lift (require (covers_planes current) _)) _ (Reads-lift _) λ _.
            bind_From (checkpoint client) _ Reads-checkpoint λ stored.
              bind_From (lift (check_checkpoint inputs.0 current stored)) _ (Reads-lift _) λ _.
                bind_From (lift (plan_for action edge inputs.0 current stored inputs.1 revision)) _
                  (Reads-lift _) λ chosen. Reads-lift _

ended :
    {A : Type 0} (out : Result A × History)
    → Ends ReadsAfter Reads out
    → all is_reading (out.1) ≡ true
ended (ok a, h) p = p
ended (err e, h) p = p

-- Whatever the client answers and however it ends, a run with the operation `plan` neither writes a
-- record nor saves a checkpoint.
pub change_dns-plan :
    (client : Client) (x : External) (config : Fields) (action revision approved : String)
    (edge : Fields)
    → all is_reading ((change_dns client x config action "plan" revision approved edge []).1) ≡ true
unfolding change_dns
change_dns-plan client x config action revision approved edge =
    ended (change_dns client x config action "plan" revision approved edge []) (
      (bind_From
          (lift (
            require
              (elem action ("dns-publish" ∷ "dns-rollback" ∷ [])
                && elem "plan" ("plan" ∷ "execute" ∷ []))
              "Invalid DNS operation"))
          _ (Reads-lift _)
          (λ _.
            bind_From (make_plan client x config action revision edge) _
              (Reads-make_plan client x config action revision edge) λ p. Reads-lift _)).runs
        [] refl)
