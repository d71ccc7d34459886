-- ===== src/Models/Endpoint.antt =====
-- `normalize_openai_endpoint` and `connection_endpoint` of scripts/model_configuration.py.
pub mod Root
use Prim.Native.String.{[], ◌∷◌}
use Prim.Native.Char.{code}
use secure_litellm_on_azure.Base.{
  ℕ, zero, suc, ◌-◌, ◌≡◌, refl, sym, ◌∙◌, ap, String, ◌<>◌, Bool, true, false, ◌&&◌, ◌||◌, not,
  Option, none, some, List, str_eq, leb, ◌==◌, &&-true, if◌then◌else◌,
}
use secure_litellm_on_azure.Base.Text.{
  text_length, take_text, ends, every, contains, strip_if, is_space, is_digit, is_lower,
}
use secure_litellm_on_azure.Json.{Json, str, obj, Fields, get}
use secure_litellm_on_azure.Fault.{
  Result, ok, err, type_error, ◌>>=◌, ◌>>◌, require, get_or, index, require_ok, ok_injective,
}
use secure_litellm_on_azure.Dns.Settings.{text_part}

-- What `urlsplit` returns, with `hostname` and `port`.
pub record SplitUrl : Type 0 where
  pub scheme : String
  pub hostname : Option String
  pub port : Option ℕ
  pub username : Option String
  pub password : Option String
  pub netloc : String
  pub path : String
  pub query : String
  pub fragment : String

-- Python's URL library: `none` stands for a `ValueError`. `lower` is `str.lower`.
pub record Urls : Type 0 where
  pub split : String → Option SplitUrl
  pub lower : String → String

abbrev is_host_char : ℕ → Bool
is_host_char c = is_lower c || is_digit c || (c == b'-')

abbrev is_host_end : ℕ → Bool
is_host_end c = is_lower c || is_digit c

first_ok : String → Bool
first_ok [] = false
first_ok (c ∷ s) = is_host_end (code c)

last_ok : String → Bool
last_ok [] = false
last_ok (c ∷ []) = is_host_end (code c)
last_ok (c ∷ d ∷ s) = last_ok (d ∷ s)

-- `re.fullmatch(r"[a-z0-9][a-z0-9-]{0,61}[a-z0-9]", s)`
unfoldable pub is_account_label : String → Bool
unfolding first_ok last_ok
is_account_label s =
    leb 2 (text_length s)
    && leb (text_length s) 63
    && every is_host_char s
    && first_ok s
    && last_ok s

abbrev pub account_domain : String
account_domain = ".openai.azure.com"

-- The label before the domain, which has 17 characters.
unfoldable pub is_account_host : String → Bool
unfolding is_account_label
is_account_host s = ends s account_domain && is_account_label (take_text (text_length s - 17) s)

abbrev is_plain_char : ℕ → Bool
is_plain_char c = not (leb c 32) && not (c == 127)

unfoldable pub is_plain_url : String → Bool
is_plain_url s =
    str_eq s (strip_if is_space s)
    && every is_plain_char s
    && not (contains s "?")
    && not (contains s "#")

abbrev is_none {ℓ} : {A : Type ℓ} → Option A → Bool
is_none none = true
is_none (some _) = false

abbrev standard_port : Option ℕ → Bool
standard_port none = true
standard_port (some n) = n == 443

module _ (urls : Urls) where
  unfoldable pub is_account_root : SplitUrl → String → Bool
  unfolding is_account_host
  is_account_root u host =
      str_eq u.scheme "https"
      && is_account_host host
      && is_none u.username
      && is_none u.password
      && standard_port u.port
      && (str_eq (urls.lower u.netloc) host || str_eq (urls.lower u.netloc) (host <> ":443"))
      && (str_eq u.path "" || str_eq u.path "/")
      && str_eq u.query ""
      && str_eq u.fragment ""

  abbrev pub only_plain : String
  only_plain = "Only plain public-cloud Azure OpenAI HTTPS account roots on port 443 are supported"

  unfoldable pub account_root : SplitUrl → Result String
  unfolding is_account_root
  account_root u = elim u.hostname [
    | none ↦ (require false only_plain >> err type_error)
    | some host ↦ (require (is_account_root u host) only_plain >> ok ("https://" <> host))
  ]

  unfoldable pub normalize_openai_endpoint : Json → Result String
  unfolding is_plain_url account_root
  normalize_openai_endpoint (str s) = do
    require (is_plain_url s)
        "Azure OpenAI endpoint cannot contain whitespace, control characters, query or fragment"
    elim (urls.split s) [
      | none ↦ (require false "Azure OpenAI endpoint has an invalid URL or port" >> err type_error)
      | some u ↦ account_root u
    ]
  normalize_openai_endpoint _ = do
    require false "Azure OpenAI endpoint must be a literal HTTPS URL"
    err type_error

  -- The default is computed whether or not it is needed.
  unfoldable pub connection_endpoint : Json → Result String
  unfolding text_part normalize_openai_endpoint
  connection_endpoint connection = do
    name_value ← index connection "accountName"
    name ← text_part name_value
    endpoint ← get_or connection "endpoint" (str ("https://" <> name <> account_domain))
    normalize_openai_endpoint endpoint
