-- ===== src/Dns/Change/Confirmed.antt =====
-- What a successful run of `change_dns` has seen and stored.
use secure_litellm_on_azure.Base.{
  String, ◌≡◌, refl, ◌∙◌, ap, subst, true, ◌&&◌, [], ◌∷◌, elem, str_eq,
}
use secure_litellm_on_azure.Json.{Json, Fields, json_eq}
use secure_litellm_on_azure.Fault.{Result, ok, err, require, last_require, ok_injective}
use secure_litellm_on_azure.Gates.External.{External, fingerprint}
use secure_litellm_on_azure.Dns.Plan.{
  covers_planes, check_checkpoint, plan_for, dns_inputs, planes_done, with_phase,
}
use secure_litellm_on_azure.Dns.Client.{
  read_records, saved, History, Client, Program, lift, read, checkpoint, save,
}
use secure_litellm_on_azure.Calls.Logic.{From, Ends, bind_From, lift_From}
use secure_litellm_on_azure.Dns.Change.{
  Planned, make_plan, change_dns, update_plane, write_planes, execute_plan, ensure_checkpoint,
  summary, final_phase,
}
use secure_litellm_on_azure.Dns.Change.Recorded.{Recorded, plan_for-Recorded}

module _ (client : Client) where
  -- The last two calls: the records were read and are as wanted, and the checkpoint, which records
  -- them, was saved with its final phase.
  pub record Confirmed (action : String) (h : History) : Type 0 where
    pub held : Json
    pub desired : Json
    pub observed : Json
    pub final : Json
    pub past : History
    pub calls : h ≡ saved final ∷ read_records ∷ past
    pub answered : client.read past ≡ ok observed
    pub done : planes_done observed desired ≡ ok true
    pub recorded : Recorded held desired
    pub phase : with_phase (final_phase action) held ≡ ok final
    pub accepted : client.save (read_records ∷ past) final ≡ ok tt

  abbrev Any : History → Type 0
  Any h = Unit

  anything : {A : Type 0} (program : Program A) → From Any program (λ _ _. Unit) Any
  anything program = record { runs = λ h p. go (program h) }
    where
      go : {A : Type 0} (out : Result A × History) → Ends (λ _ _. Unit) Any out
      go (ok a, h) = tt
      go (err e, h) = tt

  -- The records as last read.
  abbrev Seen : Json → History → Type 0
  Seen observed h = (past : History) × (h ≡ read_records ∷ past) × (client.read past ≡ ok observed)

  read-Seen : From Any (read client) Seen Any
  read-Seen = record { runs = λ h p. go h (client.read h) refl }
    where
      go : (h : History) (r : Result Json) → client.read h ≡ r → Ends Seen Any (r, read_records ∷ h)
      go h (ok a) e = (h, refl, e)
      go h (err f) e = tt

  save-Confirmed :
      (p : Planned) (observed final : Json)
      → Recorded p.held p.desired
      → planes_done observed p.desired ≡ ok true
      → with_phase (final_phase p.action) p.held ≡ ok final
      → From (Seen observed) (save client final) (λ _. Confirmed p.action) Any
  save-Confirmed p observed final r done phase = record {
    runs = λ h s. go h s (client.save h final) refl;
  }
    where
      go :
          (h : History)
          → Seen observed h
          → (o : Result (Unit {0})) → client.save h final ≡ o
          → Ends (λ _. Confirmed p.action) Any (o, saved final ∷ h)
      go h s (err e) f = tt
      go h (past, same, answered) (ok tt) f = record {
        held = p.held;
        desired = p.desired;
        observed = observed;
        final = final;
        past = past;
        calls = ap (λ k. saved final ∷ k) same;
        answered = answered;
        done = done;
        recorded = r;
        phase = phase;
        accepted = subst (λ k. client.save k final ≡ ok tt) same f;
      }

  abbrev SeenDone : Planned → Json → History → Type 0
  SeenDone p observed h = Seen observed h × (planes_done observed p.desired ≡ ok true)

  write_planes-Confirmed :
      (p : Planned)
      → Recorded p.held p.desired
      → From Any (write_planes client p) (λ _. Confirmed p.action) Any
  unfolding write_planes
  write_planes-Confirmed p r =
      bind_From (update_plane client "api" p.desired p.current) _ (anything _) λ after_api.
        bind_From (update_plane client "admin" p.desired after_api) _ (weaken (anything _))
          λ after_admin. bind_From (read client) _ (weaken read-Seen) λ observed.
            bind_From {R = λ done h. Seen observed h × (planes_done observed p.desired ≡ ok done)}
              (lift (planes_done observed p.desired)) _
              (lift_From (planes_done observed p.desired) (λ h s. tt) (λ a e h s. (s, e)))
              λ done.
                bind_From {R = λ _. SeenDone p observed} (lift (require done _)) _
                  (lift_From (require done _) (λ h s. tt)
                    (λ a e h s. (s.0, s.1 ∙ ap ok (last_require done _ e))))
                  λ _.
                    bind_From
                      {R = λ final h.
                        SeenDone p observed h
                        × (with_phase (final_phase p.action) p.held ≡ ok final)}
                      (lift (with_phase (final_phase p.action) p.held)) _
                      (lift_From (with_phase (final_phase p.action) p.held) (λ h s. tt)
                        (λ a e h s. (s, e)))
                      λ final. record {
                        runs = λ h s. (save-Confirmed p observed final r s.0.1 s.1).runs h s.0.0;
                      }
    where
      weaken :
          {A : Type 0} {P : History → Type 0} {program : Program A} {Q : A → History → Type 0}
          → From Any program Q Any
          → From P program Q Any
      weaken f = record { runs = λ h p. f.runs h tt }

  execute_plan-Confirmed :
      (x : External) (approved : String) (p : Planned)
      → Recorded p.held p.desired
      → From Any (execute_plan client x approved p) (λ _. Confirmed p.action) Any
  unfolding execute_plan
  execute_plan-Confirmed x approved p r =
      bind_From (lift (require (str_eq approved (fingerprint x p.document)) _)) _ (anything _) λ _.
        bind_From (read client) _ (anything _) λ again.
          bind_From (lift (require (json_eq again p.current) _)) _ (anything _) λ _.
            bind_From (ensure_checkpoint client p.action p.held) _ (anything _) λ _.
              bind_From (checkpoint client) _ (anything _) λ stored.
                bind_From (lift (require (json_eq stored p.held) _)) _ (anything _)
                  λ _. write_planes-Confirmed p r

  abbrev PlannedFor : String → Planned → History → Type 0
  PlannedFor action p h = Recorded p.held p.desired × (p.action ≡ action)

  make_plan-PlannedFor :
      (x : External) (config : Fields) (action revision : String) (edge : Fields)
      → From Any (make_plan client x config action revision edge) (PlannedFor action) Any
  unfolding make_plan
  make_plan-PlannedFor x config action revision edge =
      bind_From (lift (dns_inputs x config edge)) _ (anything _) λ inputs.
        bind_From (read client) _ (anything _) λ current.
          bind_From (lift (require (covers_planes current) _)) _ (anything _) λ _.
            bind_From (checkpoint client) _ (anything _) λ stored.
              bind_From (lift (check_checkpoint inputs.0 current stored)) _ (anything _) λ _.
                bind_From {R = λ chosen h. Recorded chosen.1 chosen.0}
                  (lift (plan_for action edge inputs.0 current stored inputs.1 revision)) _
                  (lift_From (plan_for action edge inputs.0 current stored inputs.1 revision)
                    (λ h p. tt)
                    (λ chosen e h p.
                      plan_for-Recorded action edge inputs.0 current stored inputs.1 revision e))
                  λ chosen.
                    lift_From _ (λ h p. tt)
                      (λ p e h r.
                        subst (λ q. Recorded q.held q.desired × (q.action ≡ action))
                          (ok_injective e) (r, refl))

succeeded :
    {A : Type 0} (Q : A → History → Type 0) (out : Result A × History) {a : A} {h : History}
    → Ends Q (λ _. Unit {0}) out
    → ◌≡◌ {A = Result A × History} out (ok a, h)
    → Q a h
succeeded Q out q e = subst (λ o. Ends Q (λ _. Unit {0}) o) e q

-- A run of `change_dns` that executes its plan and returns has, in its last two calls, read both
-- records and found them as the checkpoint records them, as the state before or after the change,
-- and saved that checkpoint with the final phase of the action.
pub change_dns-Confirmed :
    (client : Client) (x : External) (config : Fields) (action revision approved : String)
    (edge : Fields) {result : Json} {h : History}
    → ◌≡◌ {A = Result Json × History}
        (change_dns client x config action "execute" revision approved edge [])
        (ok result, h)
    → Confirmed client action h
unfolding change_dns
change_dns-Confirmed client x config action revision approved edge done =
    succeeded (λ _. Confirmed client action)
      (change_dns client x config action "execute" revision approved edge [])
      ((bind_From
          (lift (
            require
              (elem action ("dns-publish" ∷ "dns-rollback" ∷ [])
                && elem "execute" ("plan" ∷ "execute" ∷ []))
              "Invalid DNS operation"))
          _ (anything client _)
          (λ _.
            bind_From (make_plan client x config action revision edge) _
              (make_plan-PlannedFor client x config action revision edge)
              λ p.
                bind_From (execute_plan client x approved p) _
                  (record {
                    runs = λ h r.
                        subst
                          (λ a.
                            Ends (λ _. Confirmed client a) (λ _. Unit {0})
                              (execute_plan client x approved p h))
                          r.1 ((execute_plan-Confirmed client x approved p r.0).runs h tt);
                  })
                  λ _. lift_From (ok (summary client x p true)) (λ h c. tt) (λ a e h c. c))).runs
        [] tt)
      done
