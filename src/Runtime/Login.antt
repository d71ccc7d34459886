-- ===== src/Runtime/Login.antt =====
-- `configure_gateway_authentication` of LiteLLM/runtime/application.py. The environment that it
-- changes is passed and returned.
pub mod Again
use Prim.Native.String.{[], ◌∷◌}
use Prim.Native.Char.{code}
use secure_litellm_on_azure.Base.{
  ℕ, String, Bool, true, false, ◌&&◌, ◌||◌, not, Option, none, some, str_eq, leb, ◌==◌,
  if◌then◌else◌,
}
use secure_litellm_on_azure.Base.Text.{text_length, every, is_alnum}
use secure_litellm_on_azure.Fault.{Result, ok, err, database_auth_error, ◌>>=◌, ◌>>◌}

-- What a name holds, in the environment or in the mounted values.
abbrev pub Env : Type 0
Env = String → Option String

-- `if condition: raise DatabaseAuthError(message)`
abbrev pub refuse : Bool → String → Result (Unit {0})
refuse true message = err (database_auth_error message)
refuse false message = ok tt

-- `bool(environ.get(name))`
abbrev pub is_set : Option String → Bool
is_set none = false
is_set (some s) = not (str_eq s "")

abbrev pub text_or : String → Option String → String
text_or default none = default
text_or default (some s) = s

-- `value not in {None, s}`
abbrev pub differs : String → Option String → Bool
differs s none = false
differs s (some t) = not (str_eq t s)

abbrev is_login_char : ℕ → Bool
is_login_char c = is_alnum c || (c == b'.') || (c == b'_') || (c == b'@') || (c == b'-')

-- `re.fullmatch(r"[A-Za-z0-9][A-Za-z0-9._@-]{2,127}", s)`
unfoldable pub is_admin_name : String → Bool
is_admin_name [] = false
is_admin_name (c ∷ s) =
    is_alnum (code c) && every is_login_char s && leb 2 (text_length s) && leb (text_length s) 127

-- `os.environ.update(UI_USERNAME=username, UI_PASSWORD=password)`
unfoldable pub with_login : String → String → Env → Env
with_login username password env k =
    if str_eq k "UI_USERNAME"
    then some username
    else if str_eq k "UI_PASSWORD"
    then some password
    else env k

-- What follows the test for the mode `native`.
unfoldable pub native_login : Env → Env → Result Env
unfolding is_admin_name with_login
native_login values env = do
  let username = text_or "" (env "LLMGW_NATIVE_ADMIN_USERNAME")
  refuse (not (is_admin_name username)) "Native admin username is missing or invalid"
  refuse (not (is_set (values "UI_PASSWORD")))
      "Native admin login requires the dedicated mounted UI password"
  let password = text_or "" (values "UI_PASSWORD")
  refuse (differs username (env "UI_USERNAME") || differs password (env "UI_PASSWORD"))
      "Native UI credentials conflict with the reviewed gateway configuration"
  ok (with_login username password env)

unfoldable pub configure_gateway_authentication : Env → Env → Result Env
unfolding native_login
configure_gateway_authentication values env = do
  let mode = text_or "entra" (env "LLMGW_GATEWAY_AUTH_MODE")
  let entra = do
    refuse
        (is_set (env "LLMGW_NATIVE_ADMIN_USERNAME")
          || is_set (env "UI_USERNAME")
          || is_set (env "UI_PASSWORD"))
        "Native UI credentials conflict with Entra gateway authentication"
    ok env
  let native = do
    refuse (not (str_eq mode "native")) "Unsupported gateway authentication mode"
    native_login values env
  if str_eq mode "entra" then entra else native
