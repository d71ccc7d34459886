-- ===== src/Gates/Evidence/Checks.antt =====
-- What `check_checks` accepts.
use secure_litellm_on_azure.Base.{
  ℕ, String, ◌≡◌, refl, ◌∙◌, ap, true, Option, none, some, List, same_set, arith,
}
use secure_litellm_on_azure.Json.{Json, null, str, arr, Items, is_text}
use secure_litellm_on_azure.Json.Laws.{is_text-eq}
use secure_litellm_on_azure.Fault.{ok, get_or, bind_ok, branch_ok, last_require}
use secure_litellm_on_azure.Gates.Stages.{stage_checks}
use secure_litellm_on_azure.Gates.External.{External}
use secure_litellm_on_azure.Gates.Evidence.{as_set, is_set_of, Gate, check_checks}

-- The record says that every check of the stage has passed, and names exactly those checks.
pub record ChecksPassed (g : Gate) (stage : ℕ) (item : Json) : Type 0 where
  pub status : get_or item "status" null ≡ ok (str "passed")
  pub checks : Json
  pub recorded : get_or item "checks" (arr Items.nil) ≡ ok checks
  pub found : List String
  pub found_set : as_set checks ≡ ok (some found)
  pub wanted : List String
  pub wanted_set : stage_checks stage g.config ≡ ok wanted
  pub complete : same_set found wanted ≡ true

is_set_of-some :
    (wanted : List String) (o : Option (List String))
    → is_set_of wanted o ≡ true
    → (found : List String) × (o ≡ some found) × (same_set found wanted ≡ true)
unfolding is_set_of
is_set_of-some wanted none h = absurd (ground arith)
is_set_of-some wanted (some found) h = (found, refl, h)

pub check_checks-Passed :
    (x : External) (g : Gate) (stage : ℕ) (item : Json)
    → check_checks x g stage item ≡ ok tt
    → ChecksPassed g stage item
unfolding check_checks
check_checks-Passed x g stage item h = bind_ok (get_or item "status" null) _ h λ status e1 h1.
    bind_ok (get_or item "checks" (arr Items.nil)) _ h1 λ checks e2 h2.
      branch_ok (is_text "passed" status) _ _ h2
        (λ passed h3. bind_ok (as_set checks) _ h3 λ found e4 h4.
          bind_ok (stage_checks stage g.config) _ h4 λ wanted e5 h5.
            let (texts, e6, same) = is_set_of-some wanted found (last_require _ _ h5) in
            record {
              status = e1 ∙ ap ok (is_text-eq "passed" status passed);
              checks = checks;
              recorded = e2;
              found = texts;
              found_set = e4 ∙ ap ok e6;
              wanted = wanted;
              wanted_set = e5;
              complete = same;
            })
        (λ failed h3. absurd (cc h3))
