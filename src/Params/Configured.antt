-- ===== src/Params/Configured.antt =====
-- `configured` of scripts/customer_migration.py.
use secure_litellm_on_azure.Base.{String, Bool, true, false, ◌&&◌, not, List, [], ◌∷◌, any, str_eq}
use secure_litellm_on_azure.Base.Text.{contains, strip_if, is_space, lower}
use secure_litellm_on_azure.Json.{Json, null, str, arr, obj, Items, nil, cons, Fields, end, field}

-- What the pattern finds, without regard to the case of letters.
abbrev pub marks : List String
marks =
    "replace" ∷ "example.com" ∷ "example.net" ∷ "example.org" ∷ "example-workspace" ∷ "stage3check"
    ∷ "<" ∷ ">" ∷ []

unfoldable pub configured_text : String → Bool
unfolding lower
configured_text s =
    not (str_eq (strip_if is_space s) "") && not (any (λ mark. contains (lower s) mark) marks)

unfoldable mutual
  unfolding configured_text

  pub configured : Json → Bool
  configured (obj d) = fields_configured d
  configured (arr xs) = items_configured xs
  configured (str s) = configured_text s
  configured null = false
  configured _ = true

  pub fields_configured : Fields → Bool
  fields_configured end = true
  fields_configured (field k v rest) = configured v && fields_configured rest

  pub items_configured : Items → Bool
  items_configured nil = true
  items_configured (cons v rest) = configured v && items_configured rest
