-- ===== src/Deploy/Still.antt =====
-- The calls of the deployment script that release LiteLLM, and programs that make no such call.
pub mod Provisioned
pub mod Granted
pub mod Applied
pub mod Awaited
use secure_litellm_on_azure.Base.{
  String, ◌≡◌, refl, Bool, true, false, ◌&&◌, ◌||◌, List, [], ◌∷◌, str_eq, any, if◌then◌else◌,
}
use secure_litellm_on_azure.Json.{Json, is_text}
use secure_litellm_on_azure.Fault.{Fault, Result, ok, err}
use secure_litellm_on_azure.Calls.Logic.{From, lift_From, lift_then}
use secure_litellm_on_azure.Deploy.Script.{
  Call, asked, timed, slept, History, World, Program, ◌>>=◌, lift, ask, on_exception,
}
use secure_litellm_on_azure.Deploy.Logic.{ask_From}
use secure_litellm_on_azure.Deploy.Kubernetes.{attributes}

-- The name in the object's metadata is the one given.
unfoldable pub has_name : String → Json → Bool
unfolding attributes is_text
has_name name body = elim (attributes body ("metadata" ∷ "name" ∷ [])) [
  | ok v ↦ is_text name v
  | err _ ↦ false
]

-- The call writes a Secret, or the deployment of LiteLLM.
unfoldable pub is_release : Call → Bool
unfolding has_name
is_release (asked method (name ∷ namespace ∷ body ∷ [])) =
    str_eq method "replace_namespaced_secret"
    || (str_eq method "replace_namespaced_deployment" && is_text "litellm-mi-proxy" name)
is_release (asked method (namespace ∷ body ∷ [])) =
    str_eq method "create_namespaced_secret"
    || (str_eq method "create_namespaced_deployment" && has_name "litellm-mi-proxy" body)
is_release _ = false

abbrev pub Still : History → Type 0
Still h = any is_release h ≡ false

-- The program makes no such call, however it ends.
abbrev pub Keeps : {A : Type 0} → Program A → Type 0
Keeps program = From Still program (λ _. Still) Still

pub lift-Keeps : {A : Type 0} (result : Result A) → Keeps (lift result)
lift-Keeps result = lift_From result (λ h p. p) λ a e h p. p

pub ask-Keeps :
    (world : World) (name : String) (arguments : List Json)
    → is_release (asked name arguments) ≡ false
    → Keeps (ask world name arguments)
ask-Keeps world name arguments other = ask_From world name arguments λ h p. rw other p

pub exception-Keeps :
    {A : Type 0} (program : Program A)
    → Keeps program
    → (fault : Fault) → Keeps (on_exception program fault)
exception-Keeps program k (Fault.system_exit status) = lift-Keeps _
exception-Keeps program k Fault.out_of_fuel = lift-Keeps _
exception-Keeps program k fault = k
