-- ===== src/Examples/Runtime.antt =====
-- A native gateway that is started twice.
use secure_litellm_on_azure.Base.{◌≡◌, refl, none, some, str_eq, if◌then◌else◌}
use secure_litellm_on_azure.Fault.{ok}
use secure_litellm_on_azure.Runtime.Login.{Env, with_login, configure_gateway_authentication}
use secure_litellm_on_azure.Runtime.Login.Again.{Repeats, configure_gateway_authentication-Repeats}

abbrev mounted : Env
mounted k = if str_eq k "UI_PASSWORD" then some "secret" else none

abbrev process : Env
process k =
    if str_eq k "LLMGW_GATEWAY_AUTH_MODE"
    then some "native"
    else if str_eq k "LLMGW_NATIVE_ADMIN_USERNAME"
    then some "operator"
    else none

login_run :
    configure_gateway_authentication mounted process ≡ ok (with_login "operator" "secret" process)
unfolding configure_gateway_authentication
login_run = refl

configure_gateway_authentication-Repeats_example :
    Repeats mounted (with_login "operator" "secret" process)
configure_gateway_authentication-Repeats_example =
    configure_gateway_authentication-Repeats mounted process login_run
