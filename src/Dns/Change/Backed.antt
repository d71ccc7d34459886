-- ===== src/Dns/Change/Backed.antt =====
-- A record is written only while the checkpoint that holds it is stored.
use secure_litellm_on_azure.Base.{String, ◌≡◌, inr, true, [], ◌∷◌}
use secure_litellm_on_azure.Json.{Json, json_eq}
use secure_litellm_on_azure.Fault.{Result, ok, err, index}
use secure_litellm_on_azure.Dns.Client.{
  Call, read_records, read_checkpoint, saved, written, History, Client, lift, read, checkpoint,
  save, write,
}
use secure_litellm_on_azure.Calls.Logic.{Earlier, From, Ends, lift_From}
use secure_litellm_on_azure.Dns.Change.Recorded.{Recorded}

module _ (client : Client) where
  -- Some call for the stored checkpoint has returned this one.
  pub record Stored (held : Json) (h : History) : Type 0 where
    pub past : History
    pub answer : Json
    pub asked : Earlier (read_checkpoint ∷ past) h
    pub answered : client.checkpoint past ≡ ok answer
    pub same : json_eq answer held ≡ true

  -- A checkpoint was stored that records the properties for the plane.
  pub record Backup (plane : String) (wanted : Json) (h : History) : Type 0 where
    pub held : Json
    pub desired : Json
    pub stored : Stored held h
    pub recorded : Recorded held desired
    pub entry : index desired plane ≡ ok wanted

  -- Each write has its backup among the calls before it.
  abbrev pub Backed : History → Type 0
  Backed [] = Unit
  Backed (written plane wanted previous ∷ h) = Backup plane wanted h × Backed h
  Backed (c ∷ h) = Backed h

  abbrev pub BackedAfter : {A : Type 0} → A → History → Type 0
  BackedAfter a h = Backed h

  pub later-Stored : (c : Call) {held : Json} {h : History} → Stored held h → Stored held (c ∷ h)
  later-Stored c s = record {
    past = s.past;
    answer = s.answer;
    asked = inr s.asked;
    answered = s.answered;
    same = s.same;
  }

  abbrev pub Ready : Json → History → Type 0
  Ready held h = Backed h × Stored held h

  abbrev pub ReadyAfter : {A : Type 0} → Json → A → History → Type 0
  ReadyAfter held a h = Ready held h

  pub lift-Backed : {A : Type 0} (result : Result A) → From Backed (lift result) BackedAfter Backed
  lift-Backed result = lift_From result (λ h p. p) (λ a e h p. p)

  pub read-Backed : From Backed (read client) BackedAfter Backed
  read-Backed = record { runs = λ h p. go h p (client.read h) }
    where
      go :
          (h : History)
          → Backed h
          → (r : Result Json) → Ends BackedAfter Backed (r, read_records ∷ h)
      go h p (ok a) = p
      go h p (err e) = p

  pub checkpoint-Backed : From Backed (checkpoint client) BackedAfter Backed
  checkpoint-Backed = record { runs = λ h p. go h p (client.checkpoint h) }
    where
      go :
          (h : History)
          → Backed h
          → (r : Result Json) → Ends BackedAfter Backed (r, read_checkpoint ∷ h)
      go h p (ok a) = p
      go h p (err e) = p

  pub save-Backed : (v : Json) → From Backed (save client v) BackedAfter Backed
  save-Backed v = record { runs = λ h p. go h p (client.save h v) }
    where
      go :
          (h : History)
          → Backed h
          → (r : Result (Unit {0})) → Ends BackedAfter Backed (r, saved v ∷ h)
      go h p (ok a) = p
      go h p (err e) = p

  pub read-Ready : (held : Json) → From (Ready held) (read client) (ReadyAfter held) Backed
  read-Ready held = record { runs = λ h p. go h p (client.read h) }
    where
      go :
          (h : History)
          → Ready held h
          → (r : Result Json) → Ends (ReadyAfter held) Backed (r, read_records ∷ h)
      go h p (ok a) = (p.0, later-Stored read_records p.1)
      go h p (err e) = p.0

  pub lift-Ready :
      {A : Type 0} (held : Json) (result : Result A)
      → From (Ready held) (lift result) (ReadyAfter held) Backed
  lift-Ready held result = lift_From result (λ h p. p.0) (λ a e h p. p)

  pub write-Ready :
      (held desired : Json) (plane : String) (wanted previous : Json)
      → Recorded held desired
      → index desired plane ≡ ok wanted
      → From (Ready held) (write client plane wanted previous) (ReadyAfter held) Backed
  write-Ready held desired plane wanted previous r i = record {
    runs = λ h p. go h p (client.write h plane wanted previous);
  }
    where
      backup : (h : History) → Stored held h → Backup plane wanted h
      backup h s = record { held = held; desired = desired; stored = s; recorded = r; entry = i }

      go :
          (h : History)
          → Ready held h
          → (o : Result (Unit {0}))
          → Ends (ReadyAfter held) Backed (o, written plane wanted previous ∷ h)
      go h p (ok a) = ((backup h p.1, p.0), later-Stored (written plane wanted previous) p.1)
      go h p (err e) = (backup h p.1, p.0)
