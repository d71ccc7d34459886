-- ===== src/Audit/State/Restored.antt =====
-- A pause and the resume after it.
use secure_litellm_on_azure.Base.{
  String, ◌≡◌, refl, sym, ◌∙◌, ap, subst, Bool, true, false, ◌⊎◌, inl, inr, Option, none, some,
  if◌then◌else◌, eq_refl,
}
use secure_litellm_on_azure.Json.{Json, str, bool, obj, end, field, get, has, put, truthy}
use secure_litellm_on_azure.Json.Laws.{put-put, pop_absent, pop-put, put-get, has-eq-get}
use secure_litellm_on_azure.Fault.{
  put_item, Result, ok, index, get_or, bind_ok, require_ok, ok_injective,
}
use secure_litellm_on_azure.Gates.External.{External, fingerprint}
use secure_litellm_on_azure.Audit.State.{
  Targets, target, pause_field, pause_value, default_value, pop_item, contains_key, replicas_ok,
  saved_entry, spec_hash, snapshot_entry, snapshot, desired_spec,
}

abbrev pub IsTarget : String → Type 0
IsTarget kind = (kind ≡ "deployment") ⊎ (kind ≡ "cronjob")

module _ (x : External) where
  -- The parts of a snapshot entry.
  record Taken (kind : String) (resource entry : Json) : Type 0 where
    pub spec : Json
    pub spec_of : index resource "spec" ≡ ok spec
    pub desired : Json
    pub desired_of : put_item (pause_field kind) (pause_value kind) spec ≡ ok desired
    pub paused : index entry "pausedSha256" ≡ ok (str (fingerprint x desired))
    pub present : Bool
    pub present_of : contains_key (pause_field kind) spec ≡ ok present
    pub present_entry : index entry "fieldPresent" ≡ ok (bool present)
    pub value : Json
    pub value_of : get_or spec (pause_field kind) (default_value kind) ≡ ok value
    pub value_entry : index entry "originalValue" ≡ ok value

  snapshot_entry-Taken :
      (kind : String) (resource : Json) {entry : Json}
      → snapshot_entry x kind resource ≡ ok entry
      → Taken kind resource entry
  unfolding snapshot_entry get
  snapshot_entry-Taken kind resource {entry} h = bind_ok (index resource "spec") _ h λ spec e1 h1.
      bind_ok (put_item (pause_field kind) (pause_value kind) spec) _ h1 λ desired e2 h2.
        bind_ok (index resource "metadata") _ h2 λ metadata e3 h3.
          bind_ok (index metadata "uid") _ h3 λ uid e4 h4.
            bind_ok (spec_hash x resource) _ h4 λ original e5 h5.
              bind_ok (contains_key (pause_field kind) spec) _ h5 λ present e6 h6.
                bind_ok (get_or spec (pause_field kind) (default_value kind)) _ h6 λ value e7 h7.
                  subst (Taken kind resource) (ok_injective h7) (record {
                    spec = spec;
                    spec_of = e1;
                    desired = desired;
                    desired_of = e2;
                    paused = refl;
                    present = present;
                    present_of = e6;
                    present_entry = refl;
                    value = value;
                    value_of = e7;
                    value_entry = refl;
                  })

  snapshot-Taken :
      (t : Targets) (kind : String) {saved : Json}
      → snapshot x t ≡ ok saved
      → IsTarget kind
      → (entry : Json) × (index saved kind ≡ ok entry) × Taken kind (target kind t) entry
  unfolding snapshot get
  snapshot-Taken t kind {saved} h k = bind_ok (index t.deployment "spec") _ h λ spec e1 h1.
      bind_ok (get_or spec "replicas" _) _ h1 λ replicas e2 h2.
        require_ok (replicas_ok replicas) _ _ h2 λ _ h3.
          bind_ok (snapshot_entry x "deployment" t.deployment) _ h3 λ deployment e4 h4.
            bind_ok (snapshot_entry x "cronjob" t.cronjob) _ h4 λ cronjob e5 h5.
              subst
                (λ saved.
                  (entry : Json) × (index saved kind ≡ ok entry) × Taken kind (target kind t) entry)
                (ok_injective h5) (choose deployment e4 cronjob e5 k)
    where
      choose :
          (deployment : Json)
          → snapshot_entry x "deployment" t.deployment ≡ ok deployment
          → (cronjob : Json) → snapshot_entry x "cronjob" t.cronjob ≡ ok cronjob
          → IsTarget kind
          → (entry : Json) × (index
                (obj (field "deployment" deployment (field "cronjob" cronjob end)))
                kind
              ≡ ok entry)
            × Taken kind (target kind t) entry
      choose d e4 c e5 (inl k) =
          subst
            (λ kind.
              (entry : Json) × (index (obj (field "deployment" d (field "cronjob" c end))) kind
                ≡ ok entry)
              × Taken kind (target kind t) entry)
            (sym k) (d, refl, snapshot_entry-Taken "deployment" t.deployment e4)
      choose d e4 c e5 (inr k) =
          subst
            (λ kind.
              (entry : Json) × (index (obj (field "deployment" d (field "cronjob" c end))) kind
                ≡ ok entry)
              × Taken kind (target kind t) entry)
            (sym k) (c, refl, snapshot_entry-Taken "cronjob" t.cronjob e5)

  -- Taking the pause back, from what was recorded before it.
  abbrev resumed : Json → String → Json → Bool → Result Json
  resumed value k spec present = if present then put_item k value spec else pop_item k spec

  restored-paused :
      (kind : String) (spec desired default value : Json) (present : Bool)
      → put_item (pause_field kind) (pause_value kind) spec ≡ ok desired
      → contains_key (pause_field kind) spec ≡ ok present
      → get_or spec (pause_field kind) default ≡ ok value
      → resumed value (pause_field kind) desired present ≡ ok spec
  unfolding put_item pop_item contains_key
  restored-paused kind (obj d) desired default value present e p v =
      subst (λ desired. resumed value k desired present ≡ ok (obj d)) (ok_injective e)
        (back present p)
    where
      k : String
      k = pause_field kind

      back :
          (b : Bool)
          → ok (has k d) ≡ ok b
          → resumed value k (obj (put k (pause_value kind) d)) b ≡ ok (obj d)
      back true p =
          ap (λ e. ok (obj e))
            (put-put k value (pause_value kind) d ∙ put-get k value d (held (get k d) refl v))
        where
          held :
              (o : Option Json)
              → get k d ≡ o
              → elim o as (λ _. Result Json) [ none ↦ ok default | some w ↦ ok w ] ≡ ok value
              → get k d ≡ some value
          held none g v = absurd (cc (ok_injective p, has-eq-get k d, g))
          held (some w) g v = g ∙ ap some (ok_injective v)
      back false p =
          ap (λ e. ok (obj e))
            (simp (pop-put k k (pause_value kind) d, eq_refl k, pop_absent k d (ok_injective p)))
  restored-paused kind _ desired default value present e p v = absurd (cc e)

  -- Where a snapshot of two workloads is taken and its state is kept, the resume that follows the
  -- pause of a workload gives the specification that the workload had, and the snapshot records the
  -- hash of the paused one.
  pub desired_spec-restores :
      (t : Targets) (kind : String) (state spec paused : Json) {saved : Json}
      → IsTarget kind
      → snapshot x t ≡ ok saved
      → index state "resources" ≡ ok saved
      → index (target kind t) "spec" ≡ ok spec
      → desired_spec "audit-pause" kind state spec ≡ ok paused
      → (desired_spec "audit-resume" kind state paused ≡ ok spec)
        × (entry : Json) × (saved_entry kind state ≡ ok entry)
        × (index entry "pausedSha256" ≡ ok (str (fingerprint x paused)))
  unfolding desired_spec saved_entry truthy
  desired_spec-restores t kind state spec paused {saved} k h s i p =
      let (entry, found, taken) = snapshot-Taken t kind h k in
      let same : spec ≡ taken.spec = ok_injective (sym i ∙ taken.spec_of) in
      let pause : put_item (pause_field kind) (pause_value kind) taken.spec ≡ ok paused =
        subst (λ spec. put_item (pause_field kind) (pause_value kind) spec ≡ ok paused) same p in
      let desired : taken.desired ≡ paused = ok_injective (sym taken.desired_of ∙ pause) in
      let kept : saved_entry kind state ≡ ok entry = simp (s, found) in
      let back : resumed taken.value (pause_field kind) paused taken.present ≡ ok spec =
        restored-paused kind taken.spec paused (default_value kind) taken.value taken.present pause
          taken.present_of taken.value_of
        ∙ ap ok (sym same) in
      (
        simp (kept, taken.present_entry, taken.value_entry, back),
        entry,
        kept,
        taken.paused ∙ ap (λ d. ok (str (fingerprint x d))) desired,
      )
