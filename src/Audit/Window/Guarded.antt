-- ===== src/Audit/Window/Guarded.antt =====
-- What the maintenance window may change, and the histories in which nothing else is changed.
use secure_litellm_on_azure.Base.{
  String, ◌≡◌, refl, sym, ◌∙◌, ap, ◌⊎◌, inl, inr, true, false, ◌||◌, List, [], ◌∷◌, str_eq,
}
use secure_litellm_on_azure.Json.{Json, null, obj, put, pop, is_text, truthy}
use secure_litellm_on_azure.Json.Laws.{get-put, get-pop}
use secure_litellm_on_azure.Fault.{put_item, ok, index, index-get, ok_injective, bind_ok, branch_ok}
use secure_litellm_on_azure.Gates.External.{External, fingerprint}
use secure_litellm_on_azure.Calls.Logic.{Earlier}
use secure_litellm_on_azure.Audit.Cluster.{
  Operation, test, replace, Call, got, patched, deleted, History, Cluster,
}
use secure_litellm_on_azure.Audit.State.{
  Codec, window_name, read_window, saved_entry, pause_field, pause_value, pop_item, desired_spec,
}
use secure_litellm_on_azure.Audit.Window.{target_name}
use secure_litellm_on_azure.Audit.Window.Reads.{Lasting, is_asking}

put_item-other :
    (k j : String) (v spec : Json) {desired : Json}
    → put_item k v spec ≡ ok desired
    → str_eq k j ≡ false
    → index desired j ≡ index spec j
unfolding put_item
put_item-other k j v (obj d) h other =
    ap (λ e. index e j) (sym (ok_injective h))
    ∙ index-get j (put k v d) d (get-put k j v d ∙ simp other)
put_item-other k j v _ h other = absurd (cc h)

pop_item-other :
    (k j : String) (spec : Json) {desired : Json}
    → pop_item k spec ≡ ok desired
    → str_eq k j ≡ false
    → index desired j ≡ index spec j
unfolding pop_item
pop_item-other k j (obj d) h other =
    ap (λ e. index e j) (sym (ok_injective h))
    ∙ index-get j (pop k d) d (get-pop k j d ∙ simp other)
pop_item-other k j _ h other = absurd (cc h)

pub desired_spec-other :
    (action kind : String) (state spec : Json) (j : String) {desired : Json}
    → desired_spec action kind state spec ≡ ok desired
    → str_eq (pause_field kind) j ≡ false
    → index desired j ≡ index spec j
unfolding desired_spec
desired_spec-other action kind state spec j h other =
    branch_ok (str_eq action "audit-pause") _ _ h
      (λ _ pause. put_item-other (pause_field kind) j (pause_value kind) spec pause other)
      (λ _ h1. bind_ok (saved_entry kind state) _ h1 λ saved e2 h2.
        bind_ok (index saved "fieldPresent") _ h2 λ present e3 h3.
          branch_ok (truthy present) _ _ h3
            (λ _ h4.
              bind_ok (index saved "originalValue") _ h4
                λ value e5 h5. put_item-other (pause_field kind) j value spec h5 other)
            (λ _ h4. pop_item-other (pause_field kind) j spec h4 other))

-- The phase has no part in what is saved of a workload.
pub saved_entry-phase :
    (kind : String) (v state : Json) {changed : Json}
    → put_item "phase" v state ≡ ok changed
    → saved_entry kind changed ≡ saved_entry kind state
unfolding saved_entry
saved_entry-phase kind v state h = simp (put_item-other "phase" "resources" v state h refl)

module _ (x : External) (codec : Codec) (cluster : Cluster) (scope : Json) where
  -- A call for the window has returned this state, up to its phase.
  pub record Loaded (state : Json) (h : History) : Type 0 where
    pub past : History
    pub resource : Json
    pub stored : Json
    pub asked : Earlier (got "configmap" window_name true ∷ past) h
    pub answered : cluster.get past "configmap" window_name true ≡ ok resource
    pub stored_of : read_window codec scope resource ≡ ok stored
    pub same : (kind : String) → saved_entry kind state ≡ saved_entry kind stored

  -- The patch replaces the specification of a workload, which the cluster tests to be still as it was
  -- seen; its hash is one that the stored window records, and one field is changed.
  pub record Moved (kind name : String) (operations : List Operation) (h : History) : Type 0 where
    pub state : Json
    pub loaded : Loaded state h
    pub saved : Json
    pub saved_of : saved_entry kind loaded.stored ≡ ok saved
    pub original : Json
    pub original_of : index saved "originalSha256" ≡ ok original
    pub paused : Json
    pub paused_of : index saved "pausedSha256" ≡ ok paused
    pub uid : Json
    pub seen : Json
    pub desired : Json
    pub tested :
        operations ≡ test "/metadata/uid" uid ∷ test "/spec" seen ∷ replace "/spec" desired ∷ []
    pub recorded :
        (is_text (fingerprint x seen) original || is_text (fingerprint x seen) paused) ≡ true
    pub only : (j : String) → str_eq (pause_field kind) j ≡ false → index desired j ≡ index seen j
    pub named : name ≡ target_name kind

  -- The resource of the window itself.
  abbrev pub IsWindow : String → String → Type 0
  IsWindow kind name = (kind ≡ "configmap") × (name ≡ window_name)

  -- Each patch is of the window or moves a workload, and nothing but the window is deleted.
  abbrev pub Guarded : History → Type 0
  Guarded [] = Unit
  Guarded (patched kind name operations ∷ h) =
      (IsWindow kind name ⊎ Moved kind name operations h) × Guarded h
  Guarded (deleted kind name uid ∷ h) = IsWindow kind name × Guarded h
  Guarded (c ∷ h) = Guarded h

  -- There is no window, or it has been loaded.
  abbrev pub Held : Json → History → Type 0
  Held state h = (state ≡ null) ⊎ Loaded state h

  abbrev pub Ready : Json → History → Type 0
  Ready state h = Guarded h × Held state h

  pub Held-later : (c : Call) (state : Json) (h : History) → Held state h → Held state (c ∷ h)
  Held-later c state h (inl none) = inl none
  Held-later c state h (inr l) = inr (record {
    past = l.past;
    resource = l.resource;
    stored = l.stored;
    asked = inr l.asked;
    answered = l.answered;
    stored_of = l.stored_of;
    same = l.same;
  })

  pub Guarded-Lasting : Lasting Guarded
  Guarded-Lasting = record { asked = go }
    where
      go : (c : Call) (h : History) → is_asking c ≡ true → Guarded h → Guarded (c ∷ h)
      go (patched kind name operations) h asks g = absurd (cc asks)
      go (deleted kind name uid) h asks g = absurd (cc asks)
      go _ h asks g = g

  pub Ready-Lasting : (state : Json) → Lasting (Ready state)
  Ready-Lasting state = record {
    asked = λ c h asks r. (Guarded-Lasting.asked c h asks r.0, Held-later c state h r.1);
  }
