-- ===== src/Dns/Change/Guarded.antt =====
-- The walk through `change_dns` that shows its writes to be backed by the stored checkpoint.
use secure_litellm_on_azure.Base.{String, ◌≡◌, refl, sym, inl, true, [], ◌∷◌, str_eq}
use secure_litellm_on_azure.Json.{is_null, Json, json_eq}
use secure_litellm_on_azure.Fault.{Result, ok, err, require, index, last_require}
use secure_litellm_on_azure.Gates.External.{External, fingerprint}
use secure_litellm_on_azure.Dns.Plan.{plane_done, planes_done, with_phase}
use secure_litellm_on_azure.Dns.Client.{
  read_checkpoint, History, Client, Program, lift, read, checkpoint, save, write,
}
use secure_litellm_on_azure.Calls.Logic.{From, Ends, bind_From, lift_From, branch_From}
use secure_litellm_on_azure.Dns.Change.{
  Planned, update_plane, write_planes, execute_plan, ensure_checkpoint, final_phase,
}
use secure_litellm_on_azure.Dns.Change.Recorded.{Recorded}
use secure_litellm_on_azure.Dns.Change.Backed.{
  Backed, BackedAfter, Ready, ReadyAfter, lift-Backed, read-Backed, checkpoint-Backed, save-Backed,
  read-Ready, lift-Ready, write-Ready,
}

module _ (client : Client) where
  update_plane-Ready :
      (held desired : Json) (plane : String) (current : Json)
      → Recorded held desired
      → From
          (Ready client held)
          (update_plane client plane desired current)
          (ReadyAfter client held)
          (Backed client)
  unfolding update_plane
  update_plane-Ready held desired plane current r =
      bind_From (lift (plane_done current desired plane)) _ (lift-Ready client held _) λ same.
        branch_From same (lift (ok current)) _ (lift-Ready client held (ok current)) (
          bind_From {R = λ wanted h. Ready client held h × (index desired plane ≡ ok wanted)}
            (lift (index desired plane)) _
            (lift_From (index desired plane) (λ h p. p.0) (λ a e h p. (p, e)))
            λ wanted.
              bind_From {R = λ previous h. Ready client held h × (index desired plane ≡ ok wanted)}
                (lift (index current plane)) _
                (lift_From (index current plane) (λ h p. p.0.0) (λ a e h p. p))
                λ previous.
                  bind_From (write client plane wanted previous) _
                    (record {
                      runs = λ h p.
                          (write-Ready client held desired plane wanted previous r p.1).runs h p.0;
                    })
                    λ _. read-Ready client held)

  drop_Stored :
      {A : Type 0} {held : Json} {program : Program A} {Q : A → History → Type 0}
      {E : History → Type 0}
      → From (Backed client) program Q E
      → From (Ready client held) program Q E
  drop_Stored f = record { runs = λ h p. f.runs h p.0 }

  write_planes-Backed :
      (p : Planned)
      → Recorded p.held p.desired
      → From (Ready client p.held) (write_planes client p) (BackedAfter client) (Backed client)
  unfolding write_planes
  write_planes-Backed p r =
      bind_From (update_plane client "api" p.desired p.current) _
        (update_plane-Ready p.held p.desired "api" p.current r)
        λ after_api.
          bind_From (update_plane client "admin" p.desired after_api) _
            (update_plane-Ready p.held p.desired "admin" after_api r)
            λ after_admin. bind_From (read client) _ (read-Ready client p.held) λ observed.
              bind_From (lift (planes_done observed p.desired)) _ (lift-Ready client p.held _)
                λ done. bind_From (lift (require done _)) _ (lift-Ready client p.held _) λ _.
                  bind_From (lift (with_phase (final_phase p.action) p.held)) _
                    (lift-Ready client p.held _) λ final. drop_Stored (save-Backed client final)

  ensure_checkpoint-Backed :
      (action : String) (held : Json)
      → From
          (Backed client)
          (ensure_checkpoint client action held)
          (BackedAfter client)
          (Backed client)
  unfolding ensure_checkpoint
  ensure_checkpoint-Backed action held =
      branch_From (str_eq action "dns-publish") _ (lift (ok tt))
        (bind_From (checkpoint client) _ (checkpoint-Backed client) λ stored.
          branch_From (is_null stored) (save client held) (lift (ok tt)) (save-Backed client held)
            (lift-Backed client (ok tt)))
        (lift-Backed client (ok tt))

  -- The last look at the checkpoint before the writes.
  abbrev Looked : Json → History → Type 0
  Looked answer h =
      Backed client h
      × (past : History) × (h ≡ read_checkpoint ∷ past)
      × (client.checkpoint past ≡ ok answer)

  checkpoint-Looked : From (Backed client) (checkpoint client) Looked (Backed client)
  checkpoint-Looked = record { runs = λ h p. go h p (client.checkpoint h) refl }
    where
      go :
          (h : History)
          → Backed client h
          → (r : Result Json) → client.checkpoint h ≡ r
          → Ends Looked (Backed client) (r, read_checkpoint ∷ h)
      go h p (ok a) e = (p, h, refl, e)
      go h p (err f) e = p

  Looked-Stored :
      (answer held : Json) (h : History)
      → Looked answer h
      → json_eq answer held ≡ true
      → Ready client held h
  Looked-Stored answer held [] (b, past, e, a) same = absurd (cc e)
  Looked-Stored answer held (c ∷ h) (b, past, e, a) same =
      (b, record { past = past; answer = answer; asked = inl (sym e); answered = a; same = same })

  pub execute_plan-Backed :
      (x : External) (approved : String) (p : Planned)
      → Recorded p.held p.desired
      → From (Backed client) (execute_plan client x approved p) (BackedAfter client) (Backed client)
  unfolding execute_plan
  execute_plan-Backed x approved p r =
      bind_From (lift (require (str_eq approved (fingerprint x p.document)) _)) _
        (lift-Backed client _)
        λ _. bind_From (read client) _ (read-Backed client) λ again.
          bind_From (lift (require (json_eq again p.current) _)) _ (lift-Backed client _) λ _.
            bind_From (ensure_checkpoint client p.action p.held) _
              (ensure_checkpoint-Backed p.action p.held)
              λ _. bind_From (checkpoint client) _ checkpoint-Looked λ stored.
                bind_From (lift (require (json_eq stored p.held) _)) _
                  (lift_From (require (json_eq stored p.held) _) (λ h l. l.0)
                    (λ a e h l.
                      Looked-Stored stored p.held h l (last_require (json_eq stored p.held) _ e)))
                  λ _. write_planes-Backed p r
