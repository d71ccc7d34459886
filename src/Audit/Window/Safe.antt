-- ===== src/Audit/Window/Safe.antt =====
-- The steps of `execute_window` before a workload is changed.
use secure_litellm_on_azure.Base.{String, ◌≡◌, refl, sym, ◌∙◌, ap, subst, inl, inr, true, ◌||◌, ◌∷◌}
use secure_litellm_on_azure.Json.{is_null, Json, str, json_eq, is_text, arr, obj}
use secure_litellm_on_azure.Fault.{
  put_item, ok, index, ok_injective, bind_ok, require_ok, last_require,
}
use secure_litellm_on_azure.Gates.External.{External, fingerprint}
use secure_litellm_on_azure.Models.Render.{hashable}
use secure_litellm_on_azure.Calls.Logic.{
  Earlier, From, bind_From, branch_From, lift_then, call_From, weaken_From,
}
use secure_litellm_on_azure.Audit.Cluster.{got, History, Cluster, get_resource}
use secure_litellm_on_azure.Audit.State.{
  Codec, Targets, target, window_name, read_window, saved_entry, spec_hash, verify_target,
  verify_targets,
}
use secure_litellm_on_azure.Audit.State.Restored.{IsTarget}
use secure_litellm_on_azure.Audit.Plan.{uid_of}
use secure_litellm_on_azure.Audit.Window.{load_window, save_window, save_phase}
use secure_litellm_on_azure.Audit.Window.Guarded.{
  saved_entry-phase, Guarded, Held, Ready, Held-later,
}

hashable-ok : (v : Json) {w : Json} → hashable v ≡ ok w → v ≡ w
unfolding hashable
hashable-ok (arr xs) h = absurd (cc h)
hashable-ok (obj d) h = absurd (cc h)
hashable-ok _ h = ok_injective h

module _ (x : External) (codec : Codec) (cluster : Cluster) (scope : Json) where
  abbrev pub Good : History → Type 0
  Good = Guarded x codec cluster scope

  abbrev pub Knows : Json → History → Type 0
  Knows = Ready x codec cluster scope

  pub forget : (state : Json) (h : History) → Knows state h → Good h
  forget state h r = r.0

  -- What the check of one workload has found.
  pub record Checked (kind : String) (resource state : Json) : Type 0 where
    pub saved : Json
    pub saved_of : saved_entry kind state ≡ ok saved
    pub original : Json
    pub original_of : index saved "originalSha256" ≡ ok original
    pub paused : Json
    pub paused_of : index saved "pausedSha256" ≡ ok paused
    pub spec : Json
    pub spec_of : index resource "spec" ≡ ok spec
    pub recorded :
        (is_text (fingerprint x spec) original || is_text (fingerprint x spec) paused) ≡ true

  verify_target-Checked :
      (kind : String) (resource state : Json)
      → verify_target x kind resource state ≡ ok tt
      → Checked kind resource state
  unfolding verify_target spec_hash
  verify_target-Checked kind resource state h = bind_ok (saved_entry kind state) _ h λ saved e1 h1.
      bind_ok (index resource "metadata") _ h1 λ metadata e2 h2.
        bind_ok (index metadata "uid") _ h2 λ uid e3 h3.
          bind_ok (index saved "uid") _ h3 λ saved_uid e4 h4.
            require_ok (json_eq uid saved_uid) _ _ h4 λ _ h5.
              bind_ok (spec_hash x resource) _ h5 λ hash e6 h6.
                bind_ok (index saved "originalSha256") _ h6 λ original_value e7 h7.
                  bind_ok (hashable original_value) _ h7 λ original e8 h8.
                    bind_ok (index saved "pausedSha256") _ h8 λ paused_value e9 h9.
                      bind_ok (hashable paused_value) _ h9 λ paused e10 h10.
                        bind_ok (index resource "spec") _ e6 λ spec e11 e12. record {
                          saved = saved;
                          saved_of = e1;
                          original = original;
                          original_of = e7 ∙ ap ok (hashable-ok original_value e8);
                          paused = paused;
                          paused_of = e9 ∙ ap ok (hashable-ok paused_value e10);
                          spec = spec;
                          spec_of = e11;
                          recorded =
                              subst (λ hash. (is_text hash original || is_text hash paused) ≡ true)
                                (sym (ok_injective e12))
                                (last_require (is_text hash original || is_text hash paused) _ h10);
                        }

  pub verify_targets-Checked :
      (kind : String) (t : Targets) (state : Json)
      → IsTarget kind
      → verify_targets x t state ≡ ok tt
      → Checked kind (target kind t) state
  unfolding verify_targets
  verify_targets-Checked kind t state k h =
      bind_ok (verify_target x "deployment" t.deployment state) _ h λ _ e1 e2. choose e1 e2 k
    where
      choose :
          verify_target x "deployment" t.deployment state ≡ ok tt
          → verify_target x "cronjob" t.cronjob state ≡ ok tt
          → IsTarget kind
          → Checked kind (target kind t) state
      choose e1 e2 (inl k) =
          subst (λ kind. Checked kind (target kind t) state) (sym k)
            (verify_target-Checked "deployment" t.deployment state e1)
      choose e1 e2 (inr k) =
          subst (λ kind. Checked kind (target kind t) state) (sym k)
            (verify_target-Checked "cronjob" t.cronjob state e2)

  pub load_window-Ready :
      From Good (load_window x codec cluster scope) (λ loaded. Knows (loaded.1)) Good
  unfolding load_window
  load_window-Ready =
      bind_From
        {R = λ resource h.
          Good h
          × (past : History) × Earlier (got "configmap" window_name true ∷ past) h
          × (cluster.get past "configmap" window_name true ≡ ok resource)}
        (get_resource cluster "configmap" window_name true) _
        (call_From _ _ (λ h g. g) (λ h g resource e. (g, h, inl refl, e)))
        λ resource.
          branch_From (is_null resource) _ _ (record { runs = λ h p. (p.0, inl refl) })
            (lift_then (read_window codec scope resource) _ (λ h p. p.0)
              λ state e. record {
                runs = λ h p. (
                  p.0,
                  inr (record {
                    past = p.1;
                    resource = resource;
                    stored = state;
                    asked = p.2;
                    answered = p.3;
                    stored_of = e;
                    same = λ kind. refl;
                  }),
                );
              })

  save_window-Ready :
      (known resource state : Json)
      → From (Knows known) (save_window x codec cluster resource state) (λ _. Knows known) Good
  unfolding save_window
  save_window-Ready known resource state = lift_then (uid_of resource) _ (forget known) λ uid _.
      lift_then (index resource "data") _ (forget known) λ contents _.
        call_From _ _ (λ h r. (inl (refl, refl), r.0))
          (λ h r a e. ((inl (refl, refl), r.0), Held-later x codec cluster scope _ known h r.1))

  Held-phase :
      (v state changed : Json) (h : History)
      → put_item "phase" v state ≡ ok changed
      → Held x codec cluster scope state h
      → Held x codec cluster scope changed h
  unfolding put_item
  Held-phase v state changed h e (inl none) = absurd (cc (ap (put_item "phase" v) none, e))
  Held-phase v state changed h e (inr l) = inr (record {
    past = l.past;
    resource = l.resource;
    stored = l.stored;
    asked = l.asked;
    answered = l.answered;
    stored_of = l.stored_of;
    same = λ kind. saved_entry-phase kind v state e ∙ l.same kind;
  })

  pub save_phase-Ready :
      (phase : String) (resource state : Json)
      → From (Knows state) (save_phase x codec cluster phase resource state) Knows Good
  unfolding save_phase
  save_phase-Ready phase resource state =
      lift_then (put_item "phase" (str phase) state) _ (forget state) λ changed e.
        bind_From (save_window x codec cluster resource changed) _
          (weaken_From (λ h r. (r.0, Held-phase (str phase) state changed h e r.1))
            (save_window-Ready changed resource changed))
          λ _. record { runs = λ h r. r }
