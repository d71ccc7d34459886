-- ===== src/Examples/Sections.antt =====
-- A native gateway with the optional L3 audit.
use secure_litellm_on_azure.Base.{String, ◌≡◌, refl, true}
use secure_litellm_on_azure.Json.{bool, str, obj, Fields, end, field, get}
use secure_litellm_on_azure.Fault.{ok}
use secure_litellm_on_azure.Sections.OptionalL3.{l3_service, upstream}
use secure_litellm_on_azure.Sections.OptionalL3.Routed.{Native, upstream-Native}

abbrev config : Fields
config = field "l3Audit" (obj (field "enabled" (bool true) end)) (
    field "application" (obj (field "authentication" (obj (field "mode" (str "native") end)) end))
      (field "contentAudit" (obj (field "mode" (str "native") end)) end))

abbrev plane : String
plane = "api"

l3_run : upstream config plane ≡ ok l3_service
unfolding upstream get
l3_run = refl

upstream-Native_example : (plane ≡ "api") × Native config
upstream-Native_example = upstream-Native config plane l3_run
