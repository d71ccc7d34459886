-- ===== src/Audit/Window/Executed.antt =====
-- The walk through `execute_window`, which changes only what it may.
use secure_litellm_on_azure.Base.{
  String, ◌≡◌, ◌≢◌, refl, sym, ◌∙◌, ap, subst, inl, inr, Bool, true, false, ◌||◌, [], ◌∷◌, str_eq,
  if◌then◌else◌,
}
use secure_litellm_on_azure.Json.{is_null, Json, null, str, json_eq, is_text}
use secure_litellm_on_azure.Fault.{put_item, Result, ok, err, require, index, ok_injective}
use secure_litellm_on_azure.Gates.External.{External, fingerprint}
use secure_litellm_on_azure.Calls.Logic.{
  From, Ends, bind_From, branch_From, lift_then, call_From, weaken_From,
}
use secure_litellm_on_azure.Audit.Cluster.{
  test, replace, History, Cluster, lift, delete, wait_quiet, wait_ready,
}
use secure_litellm_on_azure.Audit.State.{
  Codec, target, window_name, saved_entry, verify_targets, desired_spec, all_paused, pause_field,
}
use secure_litellm_on_azure.Audit.State.Restored.{IsTarget}
use secure_litellm_on_azure.Audit.Plan.{uid_of}
use secure_litellm_on_azure.Audit.Window.{
  target_name, load_window, target_state, save_phase, create_window, plan_window, patch_target,
  move_target, finish_pause, finish_resume, execute_window,
}
use secure_litellm_on_azure.Audit.Window.Reads.{
  keeps_lift, keeps_call, keeps_target_state, keeps_plan_window,
}
use secure_litellm_on_azure.Audit.Window.Guarded.{
  desired_spec-other, Moved, Guarded, Held-later, Guarded-Lasting, Ready-Lasting,
}
use secure_litellm_on_azure.Audit.Window.Safe.{
  Good, Knows, forget, Checked, verify_targets-Checked, load_window-Ready, save_phase-Ready,
}

module _ (x : External) (codec : Codec) (cluster : Cluster) (scope : Json) where
  abbrev pub Fine : History → Type 0
  Fine = Good x codec cluster scope

  abbrev pub Sees : Json → History → Type 0
  Sees = Knows x codec cluster scope

  pub drops : (state : Json) (h : History) → Sees state h → Fine h
  drops = forget x codec cluster scope

  pub no_entry : (kind : String) (saved : Json) → saved_entry kind null ≢ ok saved
  unfolding saved_entry
  no_entry kind saved h = cc h

  moved :
      (kind : String) (state resource uid desired seen : Json) (h : History)
      → Checked x codec cluster scope kind resource state
      → index resource "spec" ≡ ok seen
      → ((j : String) → str_eq (pause_field kind) j ≡ false → index desired j ≡ index seen j)
      → Sees state h
      → Moved x codec cluster scope kind
          (target_name kind)
          (test "/metadata/uid" uid ∷ test "/spec" seen ∷ replace "/spec" desired ∷ [])
          h
  moved kind state resource uid desired seen h c s only (g, inl none) =
      absurd (no_entry kind c.saved (ap (saved_entry kind) (sym none) ∙ c.saved_of))
  moved kind state resource uid desired seen h c s only (g, inr l) = record {
    state = state;
    loaded = l;
    saved = c.saved;
    saved_of = sym (l.same kind) ∙ c.saved_of;
    original = c.original;
    original_of = c.original_of;
    paused = c.paused;
    paused_of = c.paused_of;
    uid = uid;
    seen = seen;
    desired = desired;
    tested = refl;
    recorded =
        subst
          (λ spec.
            (is_text (fingerprint x spec) c.original || is_text (fingerprint x spec) c.paused)
            ≡ true)
          (ok_injective (sym c.spec_of ∙ s)) c.recorded;
    only = only;
    named = refl;
  }

  patch_target-Ready :
      (kind : String) (state resource spec desired : Json)
      → Checked x codec cluster scope kind resource state
      → index resource "spec" ≡ ok spec
      → ((j : String) → str_eq (pause_field kind) j ≡ false → index desired j ≡ index spec j)
      → From
          (Sees state)
          (patch_target x codec cluster kind resource desired)
          (λ _. Sees state)
          Fine
  unfolding patch_target
  patch_target-Ready kind state resource spec desired c s only =
      lift_then (index resource "spec") _ (drops state) λ seen e.
        branch_From (json_eq seen desired) _ _ (record { runs = λ h r. r })
          (lift_then (uid_of resource) _ (drops state) λ uid _.
            call_From _ _ (λ h r. (inr (step seen e uid h r), r.0))
              (λ h r a _.
                ((inr (step seen e uid h r), r.0), Held-later x codec cluster scope _ state h r.1)))
    where
      step :
          (seen : Json)
          → index resource "spec" ≡ ok seen
          → (uid : Json) (h : History) → Sees state h
          → Moved x codec cluster scope kind
              (target_name kind)
              (test "/metadata/uid" uid ∷ test "/spec" seen ∷ replace "/spec" desired ∷ [])
              h
      step seen e uid h r =
          moved kind state resource uid desired seen h c e
            (λ j other. only j other ∙ ap (λ v. index v j) (ok_injective (sym s ∙ e))) r

  pub move_target-Ready :
      (action : String) (state : Json) (kind : String)
      → IsTarget kind
      → From (Sees state) (move_target x codec cluster action state kind) (λ _. Sees state) Fine
  unfolding move_target
  move_target-Ready action state kind k =
      bind_From (target_state x codec cluster) _
        (keeps_target_state (Ready-Lasting x codec cluster scope state) (drops state) x codec
          cluster)
        λ t. lift_then (verify_targets x t state) _ (drops state) λ _ v.
          lift_then (index (target kind t) "spec") _ (drops state) λ spec e.
            lift_then (desired_spec action kind state spec) _ (drops state) λ desired d.
              patch_target-Ready kind state (target kind t) spec desired
                (verify_targets-Checked x codec cluster scope kind t state k v) e
                (λ j other. desired_spec-other action kind state spec j d other)

  pub create_window-Good :
      (id : String) (window : Json)
      → From Fine (create_window x codec cluster id window) (λ _. Fine) Fine
  unfolding create_window
  create_window-Good id window =
      lift_then (put_item "id" (str id) window) _ (λ h g. g)
        λ state _. call_From _ _ (λ h g. g) (λ h g a e. g)

  finish_pause-Good :
      (state : Json) → From (Sees state) (finish_pause x codec cluster scope state) (λ _. Fine) Fine
  unfolding finish_pause
  finish_pause-Good state =
      bind_From (wait_quiet cluster) _
        (keeps_call (Ready-Lasting x codec cluster scope state) (drops state) _ _ refl)
        λ _.
          bind_From (target_state x codec cluster) _
            (keeps_target_state (Ready-Lasting x codec cluster scope state) (drops state) x codec
              cluster)
            λ t. lift_then (all_paused x t state) _ (drops state) λ paused _.
              lift_then (require paused "Audit writers did not remain paused") _ (drops state)
                λ _ _.
                  bind_From (load_window x codec cluster scope) _
                    (weaken_From (drops state) (load_window-Ready x codec cluster scope))
                    λ loaded.
                      ends_Good
                        (save_phase-Ready x codec cluster scope "paused" (loaded.0) (loaded.1))
    where
      ends_Good :
          {s : Json} {p : History → Result Json × History}
          → From (Sees s) p Sees Fine
          → From (Sees s) p (λ _. Fine) Fine
      ends_Good {s} {p} f = record { runs = λ h r. go (p h) (f.runs h r) }
        where
          go : (out : Result Json × History) → Ends Sees Fine out → Ends (λ _. Fine) Fine out
          go (ok a, h) r = r.0
          go (err e, h) g = g

  finish_resume-Good :
      (state : Json)
      → From (Sees state) (finish_resume x codec cluster scope state) (λ _. Fine) Fine
  unfolding finish_resume
  finish_resume-Good state =
      bind_From (wait_ready cluster) _
        (keeps_call (Ready-Lasting x codec cluster scope state) (drops state) _ _ refl)
        λ _.
          bind_From (load_window x codec cluster scope) _
            (weaken_From (drops state) (load_window-Ready x codec cluster scope))
            λ loaded. lift_then (uid_of (loaded.0)) _ (drops (loaded.1)) λ uid _.
              bind_From (delete cluster "configmap" window_name uid) _
                (call_From _ _ (λ h r. ((refl, refl), r.0)) (λ h r a e. ((refl, refl), r.0)))
                λ _. keeps_lift (Guarded-Lasting x codec cluster scope) (λ h g. g) (ok state)

  first_kind-IsTarget : (b : Bool) → IsTarget (if b then "cronjob" else "deployment")
  first_kind-IsTarget true = inr refl
  first_kind-IsTarget false = inl refl

  second_kind-IsTarget : (b : Bool) → IsTarget (if b then "deployment" else "cronjob")
  second_kind-IsTarget true = inl refl
  second_kind-IsTarget false = inr refl

  execute_window-Good :
      (action approved id : String)
      → From Fine (execute_window x codec cluster scope action approved id) (λ _. Fine) Fine
  unfolding execute_window
  execute_window-Good action approved id =
      bind_From (plan_window x codec cluster scope action) _
        (keeps_plan_window (Guarded-Lasting x codec cluster scope) (λ h g. g) x codec cluster scope
          action)
        λ plan.
          lift_then (require (str_eq (fingerprint x plan.document) approved) _) _ (λ h g. g)
            λ _ _.
              bind_From (load_window x codec cluster scope) _
                (load_window-Ready x codec cluster scope)
                λ before.
                  bind_From
                    (if is_null (before.1)
                      then create_window x codec cluster id plan.window
                      else lift (ok tt))
                    _
                    (weaken_From (drops (before.1)) (
                      branch_From (is_null (before.1)) _ _ (create_window-Good id plan.window)
                        (keeps_lift (Guarded-Lasting x codec cluster scope) (λ h g. g) (ok tt))))
                    λ _.
                      bind_From (load_window x codec cluster scope) _
                        (load_window-Ready x codec cluster scope)
                        λ loaded.
                          bind_From
                            (if str_eq action "audit-resume"
                              then save_phase x codec cluster "resuming" (loaded.0) (loaded.1)
                              else lift (ok (loaded.1)))
                            _
                            (branch_From (str_eq action "audit-resume") _ _
                              (save_phase-Ready x codec cluster scope "resuming" (loaded.0)
                                (loaded.1))
                              (record { runs = λ h r. r }))
                            λ state.
                              bind_From (move_target x codec cluster action state _) _
                                (move_target-Ready action state _
                                  (first_kind-IsTarget (str_eq action "audit-pause")))
                                λ _.
                                  bind_From (move_target x codec cluster action state _) _
                                    (move_target-Ready action state _
                                      (second_kind-IsTarget (str_eq action "audit-pause")))
                                    λ _.
                                      bind_From
                                        (if str_eq action "audit-pause"
                                          then finish_pause x codec cluster scope state
                                          else finish_resume x codec cluster scope state)
                                        _
                                        (branch_From (str_eq action "audit-pause") _ _
                                          (finish_pause-Good state) (finish_resume-Good state))
                                        λ final.
                                          keeps_lift (Guarded-Lasting x codec cluster scope)
                                            (λ h g. g) _

  -- However a run of `execute_window` ends and whatever the cluster answers: each workload that it
  -- patches was seen with a specification whose hash the stored window records, the cluster is told to
  -- test that it still has it, and only the field that pauses the workload is changed; other than
  -- that it patches and deletes the window itself.
  pub execute_window-Guarded :
      (action approved id : String)
      → Guarded x codec cluster scope
          ((execute_window x codec cluster scope action approved id []).1)
  execute_window-Guarded action approved id =
      ended (execute_window x codec cluster scope action approved id [])
        ((execute_window-Good action approved id).runs [] tt)
    where
      ended : (out : Result Json × History) → Ends (λ _. Fine) Fine out → Fine (out.1)
      ended (ok a, h) g = g
      ended (err e, h) g = g
