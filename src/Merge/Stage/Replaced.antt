-- ===== src/Merge/Stage/Replaced.antt =====
-- What the substitution of placeholders leaves of the runtime inputs.
use secure_litellm_on_azure.Base.{
  String, ◌≡◌, refl, sym, ◌∙◌, ap, subst, Bool, true, false, ◌&&◌, Option, none, some, str_eq,
  Bool-cases, true≢false, inl, inr,
}
use secure_litellm_on_azure.Json.{
  Json, null, bool, int, float, str, arr, obj, Fields, end, field, get,
}
use secure_litellm_on_azure.Base.Text.{contains, replace}
use secure_litellm_on_azure.Fault.{ok, bind_ok, require_ok, branch_ok, ok_injective}
use secure_litellm_on_azure.Merge.Placeholders.{
  is_placeholder, replace_text, replace_placeholders, replace_items, replace_fields, is_list,
  good_list, replacement_text,
}

abbrev pub entry_of : String → Option Json → Option Json
entry_of k (some (obj d)) = get k d
entry_of k _ = none

-- The value that a configuration gives to a runtime input, at `localExecution.runtimeInputs`.
abbrev pub runtime_input : String → Fields → Option Json
runtime_input k config = entry_of k (entry_of "runtimeInputs" (get "localExecution" config))

-- What a key holds after the placeholders are replaced.
abbrev Replaced : Fields → Option Json → Option Json → Type 0
Replaced values none o = o ≡ none
Replaced values (some v) o = (w : Json) × (o ≡ some w) × (replace_placeholders values v ≡ ok w)

get-replace_fields :
    (values : Fields) (k : String) (d : Fields) {d' : Fields}
    → replace_fields values d ≡ ok d'
    → Replaced values (get k d) (get k d')
unfolding replace_placeholders get
get-replace_fields values k end h = subst (λ e. get k e ≡ none) (ok_injective h) refl
get-replace_fields values k (field j v rest) {d'} h =
    bind_ok (replace_placeholders values v) _ h λ v' e1 h1.
      bind_ok (replace_fields values rest) _ h1 λ rest' e2 h2.
        subst (λ e. Replaced values (get k (field j v rest)) (get k e)) (ok_injective h2)
          (elim (Bool-cases (str_eq j k)) [
            | inl here ↦ rw here (v', refl, e1)
            | inr there ↦ rw there (get-replace_fields values k rest e2)
          ])

is_dict_json : Json → Bool
is_dict_json (obj _) = true
is_dict_json _ = false

good_list-not_dict : (r : Json) → good_list r ≡ true → is_dict_json r ≡ false
unfolding good_list is_dict_json
good_list-not_dict (arr xs) h = refl
good_list-not_dict (obj d) h = absurd (cc h)
good_list-not_dict _ h = refl

-- A text is replaced by a text or by a list.
replace_text-not_dict :
    (s : String) (values : Fields) {v : Json}
    → replace_text s values ≡ ok v
    → is_dict_json v ≡ false
unfolding replace_text
replace_text-not_dict s end h =
    subst (λ w. is_dict_json w ≡ false) (ok_injective h) (unfold is_dict_json in refl)
replace_text-not_dict s (field p r rest) h = require_ok (is_placeholder p) _ _ h λ complete h1.
    branch_ok (str_eq s p && is_list r) _ _ h1
      (λ whole h2. require_ok (good_list r) _ _ h2 λ good h3.
        subst (λ w. is_dict_json w ≡ false) (ok_injective h3) (good_list-not_dict r good))
      (λ part h2.
        branch_ok (contains s p) _ _ h2
          (λ inside h3.
            bind_ok (replacement_text r) _ h3
              λ text e4 h4. replace_text-not_dict (replace s p text) rest h4)
          (λ absent h3. replace_text-not_dict s rest h3))

not_dict : (s : String) (values : Fields) {e : Fields} → replace_text s values ≡ ok (obj e) → ⊥
not_dict s values h = true≢false (unfold is_dict_json in replace_text-not_dict s values h)

-- Only a dict is replaced by a dict.
pub replaced_dict :
    (values : Fields) (v : Json) (e : Fields)
    → replace_placeholders values v ≡ ok (obj e)
    → (d : Fields) × (v ≡ obj d) × (replace_fields values d ≡ ok e)
unfolding replace_placeholders
replaced_dict values null e h = absurd (cc h)
replaced_dict values (bool b) e h = absurd (cc h)
replaced_dict values (int z) e h = absurd (cc h)
replaced_dict values (float m n) e h = absurd (cc h)
replaced_dict values (str s) e h = absurd (not_dict s values h)
replaced_dict values (arr xs) e h = bind_ok (replace_items values xs) _ h λ ys e1 h1. absurd (cc h1)
replaced_dict values (obj d) e h =
    bind_ok (replace_fields values d) _ h λ d' e1 h1. (d, refl, e1 ∙ cc h1)

obj_part : Json → Fields
obj_part (obj d) = d
obj_part _ = end

pub obj_injective : {d e : Fields} → obj d ≡ obj e → d ≡ e
unfolding obj_part
obj_injective h = ap obj_part h

not_dict_entry :
    (values : Fields) (k : String) (v w : Json)
    → is_dict_json v ≡ false
    → replace_placeholders values v ≡ ok w
    → entry_of k (some w) ≡ none
unfolding is_dict_json
not_dict_entry values k v (obj e) n r =
    let (d, same, _) = replaced_dict values v e r in
    absurd (true≢false (sym (ap is_dict_json same) ∙ n))
not_dict_entry values k v _ n r = refl

entry_of-Replaced-some :
    (values : Fields) (k : String) (v w : Json)
    → replace_placeholders values v ≡ ok w
    → Replaced values (entry_of k (some v)) (entry_of k (some w))
unfolding is_dict_json replace_placeholders
entry_of-Replaced-some values k (obj d) w r = bind_ok (replace_fields values d) _ r λ d' e1 h1.
    subst (λ x. Replaced values (get k d) (entry_of k (some x))) (ok_injective h1)
      (get-replace_fields values k d e1)
entry_of-Replaced-some values k null w r = not_dict_entry values k null w refl r
entry_of-Replaced-some values k (bool b) w r = not_dict_entry values k (bool b) w refl r
entry_of-Replaced-some values k (int z) w r = not_dict_entry values k (int z) w refl r
entry_of-Replaced-some values k (float m n) w r = not_dict_entry values k (float m n) w refl r
entry_of-Replaced-some values k (str s) w r = not_dict_entry values k (str s) w refl r
entry_of-Replaced-some values k (arr xs) w r = not_dict_entry values k (arr xs) w refl r

entry_of-Replaced :
    (values : Fields) (k : String) (o o' : Option Json)
    → Replaced values o o'
    → Replaced values (entry_of k o) (entry_of k o')
entry_of-Replaced values k none o' h = ap (entry_of k) h
entry_of-Replaced values k (some v) o' (w, same, r) =
    subst (λ x. Replaced values (entry_of k (some v)) (entry_of k x)) (sym same)
      (entry_of-Replaced-some values k v w r)

pub runtime_input-replaced :
    (values : Fields) (k : String) (d : Fields) {d' : Fields}
    → replace_fields values d ≡ ok d'
    → runtime_input k d ≡ none
    → runtime_input k d' ≡ none
runtime_input-replaced values k d {d'} h n =
    subst (λ o. Replaced values o (runtime_input k d')) n
      (entry_of-Replaced values k _ _ (
        entry_of-Replaced values "runtimeInputs" _ _
          (get-replace_fields values "localExecution" d h)))
