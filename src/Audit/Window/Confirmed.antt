-- ===== src/Audit/Window/Confirmed.antt =====
-- What a pause that returns has seen last.
use secure_litellm_on_azure.Base.{
  String, ◌≡◌, ◌≢◌, refl, sym, ◌∙◌, ap, subst, ◌⊎◌, inl, inr, true, false, List, [], ◌∷◌, str_eq,
  if◌then◌else◌,
}
use secure_litellm_on_azure.Json.{is_null, is_text, Json, null, str, obj, end, field}
use secure_litellm_on_azure.Fault.{
  put_item, Result, ok, err, require, index, last_require, bind_ok, ◌>>=◌,
}
use secure_litellm_on_azure.Gates.External.{External, fingerprint}
use secure_litellm_on_azure.Calls.Logic.{
  From, Ends, bind_From, branch_From, lift_then, lift_From, call_From, weaken_From,
}
use secure_litellm_on_azure.Audit.Cluster.{
  Operation, test, replace, got, patched, waited_quiet, History, Program, Cluster, lift,
  get_resource, wait_quiet,
}
use secure_litellm_on_azure.Audit.State.{
  Codec, Targets, window_name, read_window, check_accounts, all_paused, is_paused_target, spec_hash,
  saved_entry,
}
use secure_litellm_on_azure.Audit.Plan.{uid_of}
use secure_litellm_on_azure.Audit.Window.{
  Plan, target_name, load_window, target_state, save_window, save_phase, create_window, plan_window,
  move_target, finish_pause, window_result, execute_window,
}
use secure_litellm_on_azure.Audit.State.Restored.{IsTarget}
use secure_litellm_on_azure.Audit.Window.Reads.{keeps_lift, keeps_plan_window}
use secure_litellm_on_azure.Audit.Window.Guarded.{Loaded, Held, Guarded-Lasting}
use secure_litellm_on_azure.Audit.Window.Safe.{load_window-Ready}
use secure_litellm_on_azure.Audit.Window.Executed.{
  Fine, Sees, drops, no_entry, create_window-Good, move_target-Ready,
}

module _ (x : External) (codec : Codec) (cluster : Cluster) (scope : Json) where
  -- Both workloads were read, once the writers were quiet.
  pub record Quiet (t : Targets) (h : History) : Type 0 where
    pub past : History
    pub quiet : cluster.wait_quiet past ≡ ok tt
    pub deployment :
        cluster.get (waited_quiet ∷ past) "deployment" "llm-api-proxy" false ≡ ok t.deployment
    pub cronjob :
        cluster.get
          (got "deployment" "llm-api-proxy" false ∷ waited_quiet ∷ past)
          "cronjob"
          "l3-retention"
          false
        ≡ ok t.cronjob
    pub calls :
        h
        ≡ got "cronjob" "l3-retention" false
          ∷ got "deployment" "llm-api-proxy" false
          ∷ waited_quiet
          ∷ past

  -- The operations of `save_window`.
  abbrev pub saving : Json → Json → Json → List Operation
  saving uid contents changed =
      test "/metadata/uid" uid
      ∷ test "/data" contents
      ∷ replace "/data" (obj (field "window.json" (str (codec.dumps changed)) end))
      ∷ []

  -- The last calls of a pause: the writers were quiet, both workloads had the hashes that the state of
  -- a window loaded earlier records of paused workloads, and the phase of the window was then stored.
  pub record Confirmed (h : History) : Type 0 where
    pub t : Targets
    pub before : History
    pub seen : Quiet t before
    pub state : Json
    pub held : Loaded x codec cluster scope state (seen.past)
    pub paused : all_paused x t state ≡ ok true
    pub resource : Json
    pub loaded : cluster.get before "configmap" window_name true ≡ ok resource
    pub stored : Json
    pub stored_of : read_window codec scope resource ≡ ok stored
    pub changed : Json
    pub phase : put_item "phase" (str "paused") stored ≡ ok changed
    pub uid : Json
    pub contents : Json
    pub calls :
        h
        ≡ patched "configmap" window_name (saving uid contents changed)
          ∷ got "configmap" window_name true
          ∷ before

  abbrev Any : History → Type 0
  Any h = Unit

  anything :
      {P : History → Type 0} {A : Type 0} (program : Program A) → From P program (λ _ _. Unit) Any
  anything program = record { runs = λ h p. go (program h) }
    where
      go : {A : Type 0} (out : Result A × History) → Ends (λ _ _. Unit) Any out
      go (ok a, h) = tt
      go (err e, h) = tt

  -- The error path says nothing.
  error-Any :
      {P E : History → Type 0} {A : Type 0} {Q : A → History → Type 0} {program : Program A}
      → From P program Q E
      → From P program Q Any
  error-Any {P} {E} {A} {Q} {program} f = record { runs = λ h p. go (program h) (f.runs h p) }
    where
      go : (out : Result A × History) → Ends Q E out → Ends Q Any out
      go (ok a, h) q = q
      go (err e, h) _ = tt

  abbrev Waited : Json → History → History → Type 0
  Waited state past h =
      (cluster.wait_quiet past ≡ ok tt)
      × (h ≡ waited_quiet ∷ past)
      × Held x codec cluster scope state past

  -- The workloads were read where the window was held before.
  abbrev Seen : Json → Targets → History → Type 0
  Seen state t h = (q : Quiet t h) × Held x codec cluster scope state (q.past)

  target_state-Seen :
      (state : Json)
      → From
          (λ h. (past : History) × Waited state past h)
          (target_state x codec cluster)
          (Seen state)
          Any
  unfolding target_state
  target_state-Seen state =
      bind_From
        {R = λ d h.
          (past : History) × Held x codec cluster scope state past
          × (cluster.wait_quiet past ≡ ok tt)
          × (cluster.get (waited_quiet ∷ past) "deployment" "llm-api-proxy" false ≡ ok d)
          × (h ≡ got "deployment" "llm-api-proxy" false ∷ waited_quiet ∷ past)}
        (get_resource cluster "deployment" (target_name "deployment") false) _
        (call_From _ _ (λ h _. tt)
          (λ h p d e. (
            p.0,
            p.1.2,
            p.1.0,
            subst (λ h. cluster.get h "deployment" "llm-api-proxy" false ≡ ok d) p.1.1 e,
            ap (λ h. got "deployment" "llm-api-proxy" false ∷ h) p.1.1,
          )))
        λ d.
          bind_From {R = λ c h. Seen state (record { deployment = d; cronjob = c }) h}
            (get_resource cluster "cronjob" (target_name "cronjob") false) _
            (call_From _ _ (λ h _. tt)
              (λ h p c e. (
                record {
                  past = p.0;
                  quiet = p.2;
                  deployment = p.3;
                  cronjob = subst (λ h. cluster.get h "cronjob" "l3-retention" false ≡ ok c) p.4 e;
                  calls = ap (λ h. got "cronjob" "l3-retention" false ∷ h) p.4;
                },
                p.1,
              )))
            λ c.
              lift_then (check_accounts (record { deployment = d; cronjob = c })) _ (λ h _. tt)
                λ _ _. record { runs = λ h q. q }

  -- What a load of the window has found after the workloads were read.
  record Found (state : Json) (t : Targets) (resource stored : Json) (h : History) : Type 0 where
    pub before : History
    pub seen : Seen state t before
    pub loaded : cluster.get before "configmap" window_name true ≡ ok resource
    pub stored_of : read_window codec scope resource ≡ ok stored
    pub calls : h ≡ got "configmap" window_name true ∷ before

  abbrev FoundAny : Json → Targets → Json × Json → History → Type 0
  FoundAny state t loaded h = (loaded.1 ≡ null) ⊎ Found state t (loaded.0) (loaded.1) h

  load_window-Found :
      (state : Json) (t : Targets)
      → From (Seen state t) (load_window x codec cluster scope) (FoundAny state t) Any
  unfolding load_window
  load_window-Found state t =
      bind_From
        {R = λ resource h.
          (before : History) × (h ≡ got "configmap" window_name true ∷ before)
          × (cluster.get before "configmap" window_name true ≡ ok resource)
          × Seen state t before}
        (get_resource cluster "configmap" window_name true) _
        (call_From _ _ (λ h _. tt) (λ h q resource e. (h, refl, e, q)))
        λ resource.
          branch_From (is_null resource) _ _ (record { runs = λ h p. inl refl })
            (lift_then (read_window codec scope resource) _ (λ h _. tt)
              λ stored e. record {
                runs = λ h p.
                    inr (record {
                      before = p.0;
                      seen = p.3;
                      loaded = p.2;
                      stored_of = e;
                      calls = p.1;
                    });
              })

  no_phase : (v : Json) (changed : Json) → put_item "phase" v null ≢ ok changed
  unfolding put_item
  no_phase v changed h = cc h

  null_unpaused : (t : Targets) → all_paused x t null ≢ ok true
  unfolding all_paused is_paused_target
  null_unpaused t h = bind_ok (is_paused_target x "deployment" t.deployment null) _ h λ _ e h1.
      bind_ok (spec_hash x t.deployment) _ e λ hash e1 e2.
        bind_ok (saved_entry "deployment" null)
          (λ saved. index saved "pausedSha256" >>= λ paused. ok (is_text hash paused)) e2
          λ saved e3 e4. no_entry x codec cluster scope "deployment" saved e3

  -- A state by which the workloads are paused is no null.
  Held-Loaded :
      (t : Targets) (state : Json) (h : History)
      → all_paused x t state ≡ ok true
      → Held x codec cluster scope state h
      → Loaded x codec cluster scope state h
  Held-Loaded t state h paused (inl none) =
      absurd (null_unpaused t (ap (all_paused x t) (sym none) ∙ paused))
  Held-Loaded t state h paused (inr loaded) = loaded

  save_phase-Confirmed :
      (t : Targets) (state : Json) (loaded : Json × Json)
      → all_paused x t state ≡ ok true
      → From
          (FoundAny state t loaded)
          (save_phase x codec cluster "paused" (loaded.0) (loaded.1))
          (λ _. Confirmed)
          Any
  unfolding save_phase save_window
  save_phase-Confirmed t state loaded paused =
      lift_then (put_item "phase" (str "paused") (loaded.1)) _ (λ h _. tt)
        λ changed e.
          bind_From {R = λ _. Confirmed} (save_window x codec cluster (loaded.0) changed) _
            (lift_then (uid_of (loaded.0)) _ (λ h _. tt)
              λ uid _.
                lift_then (index (loaded.0) "data") _ (λ h _. tt)
                  λ contents _.
                    call_From _ _ (λ h _. tt) (λ h f a _. confirmed changed e uid contents h f))
            λ _. record { runs = λ h c. c }
    where
      confirmed :
          (changed : Json)
          → put_item "phase" (str "paused") (loaded.1) ≡ ok changed
          → (uid contents : Json) (h : History) → FoundAny state t loaded h
          → Confirmed (patched "configmap" window_name (saving uid contents changed) ∷ h)
      confirmed changed e uid contents h (inl none) =
          absurd
            (no_phase (str "paused") changed (ap (put_item "phase" (str "paused")) (sym none) ∙ e))
      confirmed changed e uid contents h (inr f) = record {
        t = t;
        before = f.before;
        seen = f.seen.0;
        state = state;
        held = Held-Loaded t state (f.seen.0.past) paused f.seen.1;
        paused = paused;
        resource = loaded.0;
        loaded = f.loaded;
        stored = loaded.1;
        stored_of = f.stored_of;
        changed = changed;
        phase = e;
        uid = uid;
        contents = contents;
        calls = ap (λ h. patched "configmap" window_name (saving uid contents changed) ∷ h) f.calls;
      }

  finish_pause-Confirmed :
      (state : Json)
      → From
          (Sees x codec cluster scope state)
          (finish_pause x codec cluster scope state)
          (λ _. Confirmed)
          Any
  unfolding finish_pause
  finish_pause-Confirmed state =
      bind_From {R = λ _ h. (past : History) × Waited state past h} (wait_quiet cluster) _
        (call_From _ _ (λ h _. tt) (λ h r a e. (h, (e, refl, r.1))))
        λ _. bind_From (target_state x codec cluster) _ (target_state-Seen state) λ t.
          lift_then (all_paused x t state) _ (λ h _. tt)
            λ paused e1.
              lift_then (require paused "Audit writers did not remain paused") _ (λ h _. tt)
                λ _ e2.
                  bind_From (load_window x codec cluster scope) _ (load_window-Found state t)
                    λ loaded.
                      save_phase-Confirmed t state loaded (e1 ∙ ap ok (last_require paused _ e2))

  -- Where a run of `execute_window` with the action `audit-pause` returns, its last calls waited until
  -- the writers were quiet, then read both workloads and found the hashes that the window, as an
  -- earlier call of the run had loaded it, records of paused ones, and then loaded the window again and
  -- stored it with the phase `paused`.
  pub execute_window-Confirmed :
      (approved id : String) {answer : Json}
      → (execute_window x codec cluster scope "audit-pause" approved id []).0 ≡ ok answer
      → Confirmed ((execute_window x codec cluster scope "audit-pause" approved id []).1)
  unfolding execute_window
  execute_window-Confirmed approved id {answer} h =
      ended (execute_window x codec cluster scope "audit-pause" approved id [])
        (all_calls.runs [] tt) h
    where
      created :
          (plan : Plan) (before : Json × Json)
          → From
              (Sees x codec cluster scope (before.1))
              (if is_null (before.1)
                then create_window x codec cluster id plan.window
                else lift (ok tt))
              (λ _. Fine x codec cluster scope)
              Any
      created plan before = error-Any (
          weaken_From (drops x codec cluster scope (before.1)) (
            branch_From (is_null (before.1)) _ _
              (create_window-Good x codec cluster scope id plan.window)
              (keeps_lift (Guarded-Lasting x codec cluster scope) (λ h g. g) (ok tt))))

      moves :
          (state : Json) (kind : String)
          → IsTarget kind
          → From
              (Sees x codec cluster scope state)
              (move_target x codec cluster "audit-pause" state kind)
              (λ _. Sees x codec cluster scope state)
              Any
      moves state kind k =
          error-Any (move_target-Ready x codec cluster scope "audit-pause" state kind k)

      all_calls :
          From
            (Fine x codec cluster scope)
            (execute_window x codec cluster scope "audit-pause" approved id)
            (λ _. Confirmed)
            Any
      all_calls =
          bind_From (plan_window x codec cluster scope "audit-pause") _
            (error-Any (
              keeps_plan_window (Guarded-Lasting x codec cluster scope) (λ h g. g) x codec cluster
                scope "audit-pause"))
            λ plan.
              lift_then (require (str_eq (fingerprint x plan.document) approved) _) _ (λ h _. tt)
                λ _ _.
                  bind_From (load_window x codec cluster scope) _
                    (error-Any (load_window-Ready x codec cluster scope))
                    λ before. bind_From _ _ (created plan before) λ _.
                      bind_From (load_window x codec cluster scope) _
                        (error-Any (load_window-Ready x codec cluster scope))
                        λ loaded.
                          bind_From (lift (ok (loaded.1))) _ (record { runs = λ h r. r })
                            λ state.
                              bind_From (move_target x codec cluster "audit-pause" state "cronjob")
                                _ (moves state "cronjob" (inr refl))
                                λ _.
                                  bind_From
                                    (move_target x codec cluster "audit-pause" state "deployment") _
                                    (moves state "deployment" (inl refl))
                                    λ _.
                                      bind_From (finish_pause x codec cluster scope state) _
                                        (finish_pause-Confirmed state)
                                        λ final.
                                          lift_From
                                            (window_result x codec cluster "audit-pause" final)
                                            (λ h _. tt) (λ a e h c. c)

      ended :
          (out : Result Json × History)
          → Ends (λ _. Confirmed) Any out
          → out.0 ≡ ok answer
          → Confirmed (out.1)
      ended (ok a, h) c e = c
      ended (err f, h) c e = absurd (cc e)
