-- ===== src/Dns/Change/Recorded.antt =====
-- The wanted records are part of the checkpoint.
use secure_litellm_on_azure.Base.{
  String, ◌≡◌, refl, ◌∙◌, ap, subst, ◌⊎◌, inl, inr, true, ◌&&◌, not, Option, none, some, [], ◌∷◌,
  elem, str_eq, &&-true,
}
use secure_litellm_on_azure.Json.{Json, null, obj, Fields, get, json_eq, truthy, is_text}
use secure_litellm_on_azure.Fault.{
  Result, ok, err, ◌>>=◌, ◌>>◌, require, get_or, index, bind_ok, require_ok, branch_ok,
  ok_injective,
}
use secure_litellm_on_azure.Dns.Edge.{traffic_enabled}
use secure_litellm_on_azure.Dns.Plan.{
  plane_properties, new_checkpoint, publish_plan, rollback_plan, plan_for,
}

-- The checkpoint holds the records, as those before or after the change.
pub record Recorded (held desired : Json) : Type 0 where
  pub part : String
  pub value : Json
  pub one_part : elem part ("before" ∷ "after" ∷ []) ≡ true
  pub stored : get_or held part null ≡ ok value
  pub same : (value ≡ desired) ⊎ (json_eq value desired ≡ true)

get_or-index : (v : Json) (k : String) {w : Json} → index v k ≡ ok w → get_or v k null ≡ ok w
get_or-index (obj d) k h = go (get k d) h
  where
    go :
        (o : Option Json) {w : Json}
        → elim o as (λ _. Result Json) [
          | none ↦ err (secure_litellm_on_azure.Fault.Fault.key_error k)
          | some v ↦ ok v
        ]
          ≡ ok w
        → elim o as (λ _. Result Json) [ none ↦ ok null | some v ↦ ok v ] ≡ ok w
    go none h = absurd (cc h)
    go (some v) h = h
get_or-index _ k h = absurd (cc h)

chosen_pair :
    {a b c d : Json} → ◌≡◌ {A = Result (Json × Json)} (ok (a, b)) (ok (c, d)) → (a ≡ c) × (b ≡ d)
chosen_pair h =
    (ap (λ (p : Json × Json). p.0) (ok_injective h), ap (λ (p : Json × Json). p.1) (ok_injective h))

new_checkpoint-Recorded :
    (scope current desired : Json) (revision : String) {held : Json}
    → new_checkpoint scope current desired revision ≡ ok held
    → Recorded held desired
unfolding new_checkpoint
new_checkpoint-Recorded scope current desired revision h =
    bind_ok (plane_properties current "api") _ h λ api e1 h1.
      bind_ok (plane_properties current "admin") _ h1 λ admin e2 h2.
        subst (λ held. Recorded held desired) (ok_injective h2)
          (record {
            part = "after";
            value = desired;
            one_part = refl;
            stored = unfold get in refl;
            same = inl refl;
          })

publish_plan-Recorded :
    (edge : Fields) (scope current stored published : Json) (revision : String)
    {desired held : Json}
    → publish_plan edge scope current stored published revision ≡ ok (desired, held)
    → Recorded held desired
unfolding publish_plan
publish_plan-Recorded edge scope current stored published revision {desired} {held} h =
    require_ok (traffic_enabled edge) _ _ h λ enabled h1.
      branch_ok (truthy stored) _ _ h1
        (λ exists h2. bind_ok (get_or stored "after" null) _ h2 λ after e3 h3.
          bind_ok (get_or stored "phase" null) _ h3 λ phase e4 h4.
            require_ok (json_eq after published && not (is_text "rolled-back" phase)) _ _ h4
              λ matches h5.
                let (same_desired, same_held) = chosen_pair h5 in
                record {
                  part = "after";
                  value = after;
                  one_part = refl;
                  stored = subst (λ v. get_or v "after" null ≡ ok after) same_held e3;
                  same = inr (subst (λ v. json_eq after v ≡ true) same_desired (&&-true matches).0);
                })
        (λ missing h2. bind_ok (new_checkpoint scope current published revision) _ h2 λ fresh e3 h3.
          let (same_desired, same_held) = chosen_pair h3 in
          subst (λ v. Recorded held v) same_desired
            (new_checkpoint-Recorded scope current published revision (e3 ∙ ap ok same_held)))

rollback_plan-Recorded :
    (stored : Json) {desired held : Json}
    → rollback_plan stored ≡ ok (desired, held)
    → Recorded held desired
unfolding rollback_plan
rollback_plan-Recorded stored {desired} {held} h = require_ok (truthy stored) _ _ h λ exists h1.
    bind_ok (index stored "before") _ h1 λ before e2 h2.
      let (same_desired, same_held) = chosen_pair h2 in
      record {
        part = "before";
        value = before;
        one_part = refl;
        stored =
            subst (λ v. get_or v "before" null ≡ ok before) same_held
              (get_or-index stored "before" e2);
        same = inl same_desired;
      }

pub plan_for-Recorded :
    (action : String) (edge : Fields) (scope current stored published : Json) (revision : String)
    {chosen : Json × Json}
    → plan_for action edge scope current stored published revision ≡ ok chosen
    → Recorded (chosen.1) (chosen.0)
unfolding plan_for
plan_for-Recorded action edge scope current stored published revision {chosen} h =
    branch_ok (str_eq action "dns-publish") _ _ h
      (λ publish h1. publish_plan-Recorded edge scope current stored published revision h1)
      (λ rollback h1. rollback_plan-Recorded stored h1)
