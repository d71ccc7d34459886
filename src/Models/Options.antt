-- ===== src/Models/Options.antt =====
-- `finite_number`, `integer`, `azure_base_model` and `validate_options` of
-- scripts/model_configuration.py.
pub mod Accepted
use Prim.Native.String.{[], ◌∷◌}
use Prim.Native.Char.{code}
use secure_litellm_on_azure.Base.{
  ℕ, ◌-◌, ◌*◌, ◌^◌, String, ◌<>◌, Bool, true, false, ◌&&◌, ◌||◌, not, Option, none, some, List,
  length, all, elem, subset, same_set, str_eq, ltb, leb, ◌==◌, if◌then◌else◌,
}
use secure_litellm_on_azure.Base.Int.{ℤ, pos, negsuc, int_leb, scale_int, int_abs}
use secure_litellm_on_azure.Base.Text.{text_length, starts, drop_text, every, is_alnum}
use secure_litellm_on_azure.Json.{
  Json, null, bool, int, float, str, arr, obj, Items, nil, cons, Fields, end, field, get, has, keys,
  items,
}
use secure_litellm_on_azure.Models.FieldNames.{
  cost_fields, positive_ints, param_fields, info_fields,
}
use secure_litellm_on_azure.Fault.{Result, ok, err, type_error, ◌>>=◌, ◌>>◌, require, index}

abbrev is_identifier_char : ℕ → Bool
is_identifier_char c = is_alnum c || (c == b'.') || (c == b'_') || (c == b'-')

-- `re.fullmatch(r"[A-Za-z0-9][A-Za-z0-9._-]{0,127}", s)`
unfoldable pub is_identifier : String → Bool
is_identifier [] = false
is_identifier (c ∷ s) = is_alnum (code c) && every is_identifier_char s && leb (text_length s) 127

-- `identifier(value)`
unfoldable pub identifier : Json → Result String
unfolding is_identifier
identifier (str s) = do
  require (is_identifier s) "Model identifiers/API versions must be plain non-empty identifiers"
  ok s
identifier _ = do
  require false "Model identifiers/API versions must be plain non-empty identifiers"
  err type_error

-- From here on `math.isfinite(value)` of an `int` raises `OverflowError`, and a literal of a `float` is
-- read as an infinity.
abbrev float_limit : ℕ
float_limit = 2 ^ 1024 - 2 ^ 970

-- `minimum <= value <= maximum` for a finite number; `none` is no maximum.
unfoldable pub in_bounds : ℤ → Option ℤ → Json → Bool
in_bounds low high (int z) =
    ltb (int_abs z) float_limit && int_leb low z && elim high [ none ↦ true | some h ↦ int_leb z h ]
in_bounds low high (float m d) =
    ltb (int_abs m) (float_limit * 10 ^ d)
    && int_leb (scale_int (10 ^ d) low) m
    && elim high [ none ↦ true | some h ↦ int_leb m (scale_int (10 ^ d) h) ]
in_bounds low high _ = false

unfoldable pub is_number : Json → Bool
is_number (int z) = true
is_number (float m d) = true
is_number _ = false

unfoldable pub finite_number : ℤ → Option ℤ → Json → Result (Unit {0})
unfolding is_number in_bounds
finite_number low high value = do
  require (is_number value) "Model numbers must be numeric literals, not booleans, strings or null"
  require (in_bounds low high value) "Model number must be finite and within the supported range"

unfoldable pub int_between : ℤ → ℤ → Json → Bool
int_between low high (int z) = int_leb low z && int_leb z high
int_between low high _ = false

unfoldable pub integer : ℤ → ℤ → Json → Result (Unit {0})
unfolding int_between
integer low high value =
    require (int_between low high value)
      "Model integer must be an integer literal within the supported range"

abbrev pub max_int : ℤ
max_int = pos (2 ^ 31 - 1)

-- `value.removeprefix("azure/")`, and the prefix put back
unfoldable pub azure_base_model : Json → Result String
unfolding identifier
azure_base_model (str s) = do
  name ← identifier (str (if starts s "azure/" then drop_text 6 s else s))
  ok ("azure/" <> name)
azure_base_model _ = do
  require false "base_model must be a plain Azure model-family identifier"
  err type_error

unfoldable pub is_stop : Json → Bool
is_stop (str s) = leb 1 (text_length s) && leb (text_length s) 1024
is_stop _ = false

-- One text, or a list of one to four.
unfoldable pub stop_ok : Json → Bool
unfolding is_stop items
stop_ok (str s) = is_stop (str s)
stop_ok (arr xs) = leb 1 (length (items xs)) && leb (length (items xs)) 4 && all is_stop (items xs)
stop_ok _ = false

abbrev one_of_texts : List String → Json → Bool
one_of_texts choices (str s) = elem s choices
one_of_texts choices _ = false

unfoldable pub is_bool : Json → Bool
is_bool (bool b) = true
is_bool _ = false

unfoldable pub response_format_ok : Json → Bool
unfolding keys get
response_format_ok (obj d) = same_set (keys d) (List.◌∷◌ "type" List.[]) && elim (get "type" d) [
  | none ↦ false
  | some v ↦ one_of_texts (List.◌∷◌ "text" (List.◌∷◌ "json_object" List.[])) v
]
response_format_ok _ = false

-- `value > 0`
unfoldable pub is_positive : Json → Bool
is_positive (int (pos n)) = ltb 0 n
is_positive (float (pos n) d) = ltb 0 n
is_positive _ = false

-- One round of the loop over `params`: the chain of its `elif`s.
unfoldable pub check_param : String → Json → Result (Unit {0})
unfolding identifier integer finite_number is_bool stop_ok response_format_ok is_positive
check_param name value =
    if elem name positive_ints
    then integer (pos 1) max_int value
    else if str_eq name "api_version"
    then (do checked ← identifier value; ok tt)
    else if str_eq name "seed"
    then integer (negsuc (2 ^ 63 - 1)) (pos (2 ^ 63 - 1)) value
    else if str_eq name "top_logprobs"
    then integer (pos 0) (pos 20) value
    else if str_eq name "num_retries"
    then integer (pos 0) max_int value
    else if str_eq name "temperature"
    then finite_number (pos 0) (some (pos 2)) value
    else if str_eq name "top_p"
    then finite_number (pos 0) (some (pos 1)) value
    else if str_eq name "presence_penalty" || str_eq name "frequency_penalty"
    then finite_number (negsuc 1) (some (pos 2)) value
    else if str_eq name "timeout"
    then (do
      finite_number (pos 0) none value
      require (is_positive value) "timeout must be positive")
    else if str_eq name "stream" || str_eq name "logprobs"
    then require (is_bool value) "must be a boolean"
    else if str_eq name "stop"
    then require (stop_ok value)
        "stop must be a nonempty string or one to four nonempty strings (max 1024 characters each)"
    else if str_eq name "reasoning_effort"
    then require (one_of_texts (List.◌∷◌ "low" (List.◌∷◌ "medium" (List.◌∷◌ "high" List.[]))) value)
        "reasoning_effort must be low, medium or high"
    else if str_eq name "encoding_format"
    then require (one_of_texts (List.◌∷◌ "float" (List.◌∷◌ "base64" List.[])) value)
        "encoding_format must be float or base64"
    else if str_eq name "response_format"
    then require (response_format_ok value) "response_format supports only {type:text|json_object}"
    else ok tt

unfoldable pub check_info : String → Json → Result (Unit {0})
unfolding finite_number integer azure_base_model
check_info name value =
    if elem name cost_fields
    then finite_number (pos 0) none value
    else if starts name "max_"
    then integer (pos 1) max_int value
    else if str_eq name "base_model"
    then (do checked ← azure_base_model value; ok tt)
    else if str_eq name "mode"
    then require
        (one_of_texts (List.◌∷◌ "chat" (List.◌∷◌ "embedding" (List.◌∷◌ "completion" List.[])))
          value)
        "model_info.mode must be chat, embedding or completion"
    else ok tt

unfoldable pub check_each : (String → Json → Result (Unit {0})) → Fields → Result (Unit {0})
check_each check end = ok tt
check_each check (field name value rest) = check name value >> check_each check rest

unfoldable pub no_nulls : Fields → Bool
no_nulls end = true
no_nulls (field name null rest) = false
no_nulls (field name value rest) = no_nulls rest

unfoldable pub validate_fields : Bool → Fields → Fields → Result (Unit {0})
unfolding check_param check_info check_each no_nulls param_fields info_fields has keys
validate_fields catalog params info = do
  require (not (has "cost_per_second" info) && not (has "cost_per_second" params))
      "cost_per_second requires LiteLLM >=1.105; this gateway pins 1.104"
  require (subset (keys params) (param_fields catalog) && subset (keys info) (info_fields catalog))
      "Unsupported/reserved model fields; credentials, provider/endpoints, headers, TLS, IDs and global overrides are forbidden"
  require (no_nulls params && no_nulls info)
      "Model options cannot be null; omission preserves existing values, implicit clearing is unsupported"
  check_each check_param params
  require (not (has "max_tokens" params && has "max_completion_tokens" params))
      "Specify only one of max_tokens and max_completion_tokens"
  check_each check_info info

-- `validate_options(params, info, catalog=...)`
unfoldable pub validate_options : Bool → Json → Json → Result (Unit {0})
unfolding validate_fields
validate_options catalog (obj params) (obj info) = validate_fields catalog params info
validate_options catalog _ _ = require false "litellm_params/model_info must be objects"
