-- ===== src/Runtime/Login/Again.antt =====
-- A restart with the environment that an earlier start has left.
use secure_litellm_on_azure.Base.{
  String, ◌≡◌, refl, sym, ◌∙◌, subst, Bool, true, false, not, ◌||◌, some, str_eq, arith, eq_refl,
}
use secure_litellm_on_azure.Fault.{Result, ok, ◌>>◌, ok_injective, branch_ok}
use secure_litellm_on_azure.Runtime.Login.{
  Env, refuse, is_set, text_or, differs, is_admin_name, with_login, native_login,
  configure_gateway_authentication,
}

module _ {ρ} {P : Type ρ} where
  refuse_ok :
      (c : Bool) (message : String) (m : Result Env) {env : Env}
      → (refuse c message >> m) ≡ ok env
      → (c ≡ false → m ≡ ok env → P)
      → P
  refuse_ok true message m h k = absurd (cc h)
  refuse_ok false message m h k = k refl h

same_text : (s : String) → differs s (some s) ≡ false
same_text s = simp (eq_refl s)

-- A second start accepts the environment of the first and leaves it as it is.
abbrev pub Repeats : Env → Env → Type 0
Repeats values env =
    (again : Env) × (configure_gateway_authentication values env ≡ ok again)
    × ((k : String) → again k ≡ env k)

-- If a start of the gateway accepts its environment, a second start with the same mounted values
-- accepts the environment that the first has left, and leaves every entry as it is.
pub configure_gateway_authentication-Repeats :
    (values env : Env) {after : Env}
    → configure_gateway_authentication values env ≡ ok after
    → Repeats values after
unfolding configure_gateway_authentication native_login with_login
configure_gateway_authentication-Repeats values env {after} h =
    branch_ok (str_eq (text_or "entra" (env "LLMGW_GATEWAY_AUTH_MODE")) "entra") _ _ h
      (λ entra h1.
        refuse_ok _ _ (ok env) h1
          λ _ h2. subst (Repeats values) (ok_injective h2) (env, h ∙ sym h2, λ k. refl))
      (λ other h1. refuse_ok (not (str_eq mode "native")) _ _ h1 λ native h2.
        refuse_ok (not (is_admin_name username)) _ _ h2 λ valid h3.
          refuse_ok (not (is_set (values "UI_PASSWORD"))) _ _ h3 λ mounted h4.
            refuse_ok (differs username (env "UI_USERNAME") || differs password (env "UI_PASSWORD"))
              _ _ h4
              λ _ h5. subst (Repeats values) (ok_injective h5) (
                with_login username password (with_login username password env),
                simp (other, native, valid, mounted, same_text username, same_text password),
                same,
              ))
  where
    mode : String
    mode = text_or "entra" (env "LLMGW_GATEWAY_AUTH_MODE")

    username : String
    username = text_or "" (env "LLMGW_NATIVE_ADMIN_USERNAME")

    password : String
    password = text_or "" (values "UI_PASSWORD")

    same :
        (k : String)
        → with_login username password (with_login username password env) k
          ≡ with_login username password env k
    same k = ground arith
