-- ===== src/Merge/Stage/Greenfield.antt =====
-- The inputs of a migration in a merge for a new environment.
use secure_litellm_on_azure.Base.{
  String, ◌≡◌, refl, sym, ◌∙◌, ap, subst, true, ◌&&◌, not, Option, none, some, List, elem, str_eq,
}
use secure_litellm_on_azure.Json.{Json, obj, Fields, get}
use secure_litellm_on_azure.Json.Laws.{get-put_self, get-pop_all}
use secure_litellm_on_azure.Fault.{ok, index, bind_ok, require_ok, ok_injective}
use secure_litellm_on_azure.Gates.Policy.{deployment_mode}
use secure_litellm_on_azure.Merge.Deep.{apply_section, is_dict}
use secure_litellm_on_azure.Merge.Placeholders.{replace_placeholders, replace_fields}
use secure_litellm_on_azure.Merge.Stage.{
  cleaned_inputs, cleaned_local, validate_options, migration_inputs, drop_migration_inputs,
  greenfield_inputs, supported_catalog, selected_fragment, apply_prepare, apply_options,
  merge_fragments, replacements, merge_stage,
}
use secure_litellm_on_azure.Merge.Stage.Replaced.{
  entry_of, runtime_input, replaced_dict, obj_injective, runtime_input-replaced,
}

cleaned_inputs-none :
    (k : String) (o : Option Json) (v : Json)
    → cleaned_inputs o ≡ ok v
    → elem k migration_inputs ≡ true
    → entry_of k (some v) ≡ none
unfolding cleaned_inputs get
cleaned_inputs-none k none v h m = subst (λ w. entry_of k (some w) ≡ none) (ok_injective h) refl
cleaned_inputs-none k (some (obj d)) v h m =
    subst (λ w. entry_of k (some w) ≡ none) (ok_injective h)
      (get-pop_all k migration_inputs d ∙ rw m)
cleaned_inputs-none k (some _) v h m = absurd (cc h)

cleaned_local-none :
    (k : String) (l l' : Json)
    → cleaned_local l ≡ ok l'
    → elem k migration_inputs ≡ true
    → entry_of k (entry_of "runtimeInputs" (some l')) ≡ none
unfolding cleaned_local
cleaned_local-none k (obj l) l' h m =
    bind_ok (cleaned_inputs (get "runtimeInputs" l)) _ h λ inputs e1 h1.
      subst (λ w. entry_of k (entry_of "runtimeInputs" (some w)) ≡ none) (ok_injective h1)
        (rw (get-put_self "runtimeInputs" inputs l)
          (cleaned_inputs-none k (get "runtimeInputs" l) inputs e1 m))
cleaned_local-none k _ l' h m = absurd (cc h)

runtime_input-drop :
    (k : String) (config : Fields) {d : Fields}
    → drop_migration_inputs config ≡ ok d
    → elem k migration_inputs ≡ true
    → runtime_input k d ≡ none
unfolding drop_migration_inputs
runtime_input-drop k config {d} h m = bind_ok (index (obj config) "localExecution") _ h λ l e1 h1.
    bind_ok (cleaned_local l) _ h1 λ l' e2 h2.
      subst (λ w. runtime_input k w ≡ none) (ok_injective h2)
        (rw (get-put_self "localExecution" l' config) (cleaned_local-none k l l' e2 m))

fragments_drop :
    (config catalog : Fields) (options : List String) (k : String) {d : Fields}
    → deployment_mode config ≡ ok "greenfield"
    → merge_fragments config catalog 5 options ≡ ok d
    → elem k migration_inputs ≡ true
    → runtime_input k d ≡ none
unfolding merge_fragments
fragments_drop config catalog options k {d} g h m =
    require_ok (supported_catalog catalog) _ _ h λ _ h2.
      bind_ok (selected_fragment 5 catalog) _ h2 λ selected e3 h3.
        bind_ok (validate_options 5 options) _ h3 λ _ e4 h4.
          bind_ok (deployment_mode config) _ h4 λ mode e5 h5.
            require_ok (not (str_eq mode "greenfield" && elem "legacy-master-key-salt" options)) _ _
              h5
              λ _ h6. require_ok (is_dict (get "localExecution" config)) _ _ h6 λ _ h7.
                bind_ok (apply_section config (obj selected)) _ h7 λ merged e8 h8.
                  bind_ok (apply_prepare 5 options (obj selected) merged) _ h8 λ prepared e9 h9.
                    bind_ok (apply_options (obj selected) options prepared) _ h9 λ extended e10 h10.
                      runtime_input-drop k extended
                        (subst (λ md. greenfield_inputs 5 md extended ≡ ok d)
                          (ok_injective (sym e5 ∙ g)) h10)
                        m

-- A greenfield configuration that is merged at Stage 5 has no inputs of a migration, whatever the
-- catalog, the options and the placeholder values put there.
pub merge_stage-greenfield :
    (config catalog : Fields) (options : List String) (values document : Fields)
    (missing : List String) (k : String)
    → deployment_mode config ≡ ok "greenfield"
    → merge_stage config catalog 5 options values ≡ ok (obj document, missing)
    → elem k migration_inputs ≡ true
    → runtime_input k document ≡ none
unfolding merge_stage
merge_stage-greenfield config catalog options values document missing k g h m =
    bind_ok (merge_fragments config catalog 5 options) _ h λ merged e1 h1.
      bind_ok (replacements merged config values) _ h1 λ wanted e2 h2.
        bind_ok (replace_placeholders wanted (obj merged)) _ h2 λ result e3 h3.
          let same : result ≡ obj document =
            ap (λ (p : Json × List String). p.0) (ok_injective h3) in
          let (d, is, replaced) = replaced_dict wanted (obj merged) document (e3 ∙ ap ok same) in
          runtime_input-replaced wanted k merged
            (subst (λ x. replace_fields wanted x ≡ ok document) (sym (obj_injective is)) replaced)
            (fragments_drop config catalog options k g e1 m)
