-- ===== src/Merge/Stage/Final.antt =====
-- A merge that reports no placeholder.
use secure_litellm_on_azure.Base.{ℕ, String, ◌≡◌, ap, subst, List, []}
use secure_litellm_on_azure.Json.{Json, obj, Fields}
use secure_litellm_on_azure.Fault.{ok, bind_ok, ok_injective}
use secure_litellm_on_azure.Merge.Placeholders.{
  is_placeholder, replace_placeholders, unresolved_placeholders,
}
use secure_litellm_on_azure.Merge.Placeholders.Tokens.{AllKeys, replace-unresolved_nil}
use secure_litellm_on_azure.Merge.Stage.{merge_fragments, replacements, merge_stage}

-- When a merge succeeds and reports no placeholder, its document is final: a further substitution
-- leaves it as it is, whatever the values, if their keys are complete placeholders.
pub merge_stage-final :
    (config catalog : Fields) (stage : ℕ) (options : List String) (values more : Fields)
    (document : Json)
    → merge_stage config catalog stage options values ≡ ok (document, [])
    → AllKeys is_placeholder more
    → replace_placeholders more document ≡ ok document
unfolding merge_stage
merge_stage-final config catalog stage options values more document h g =
    bind_ok (merge_fragments config catalog stage options) _ h λ merged e1 h1.
      bind_ok (replacements merged config values) _ h1 λ wanted e2 h2.
        bind_ok (replace_placeholders wanted (obj merged)) _ h2 λ result e3 h3.
          let pair = ok_injective h3 in
          let same : result ≡ document = ap (λ (p : Json × List String). p.0) pair in
          let none_left : unresolved_placeholders result ≡ [] =
            ap (λ (p : Json × List String). p.1) pair in
          subst (λ v. replace_placeholders more v ≡ ok v) same
            (replace-unresolved_nil result more none_left g)
