-- ===== src/Runner/Vault.antt =====
-- `certificate_vault_parameters` of scripts/certificate_vault.py.
use Prim.Native.String.{[], ◌∷◌}
use Prim.Native.Char.{code}
use secure_litellm_on_azure.Base.{
  ℕ, String, ◌<>◌, Bool, true, false, ◌&&◌, ◌||◌, not, none, some, List, subset, str_eq, leb, ◌==◌,
  if◌then◌else◌, ◌-◌,
}
use secure_litellm_on_azure.Base.Text.{
  text_length, drop_text, every, starts, contains, is_digit, is_lower, is_hex, lower_code, lower,
}
use secure_litellm_on_azure.Base.Uuid.{uuid}
use secure_litellm_on_azure.Json.{Json, null, bool, str, obj, Fields, end, has, put, keys}
use secure_litellm_on_azure.Fault.{
  Result, ok, err, type_error, value_error, ◌>>=◌, ◌>>◌, require, get_or, index,
}
use secure_litellm_on_azure.Gates.Scope.{as_dict}
use secure_litellm_on_azure.Gates.Components.{components, find_component}
use secure_litellm_on_azure.Params.Tables.{required_of}
use secure_litellm_on_azure.Params.Configured.{configured, configured_text}
use secure_litellm_on_azure.Params.Platform.{at}
use secure_litellm_on_azure.Runner.Vnet.{vnet_id, is_name_mark}
use secure_litellm_on_azure.Runner.Connectivity.{lower_of}

-- `COMPONENTS[name][2]`
unfoldable pub component_fields : String → List String
unfolding find_component
component_fields name = elim (find_component name components) [
  | none ↦ List.[]
  | some c ↦ c.allowed
]

-- The section of a component, complete and without a placeholder.
unfoldable pub complete_section : String → String → Fields → Result Fields
unfolding as_dict required_of component_fields configured keys
complete_section name message config = do
  sections ← index (obj config) "parameters"
  values ← get_or sections name (obj end)
  settings ← as_dict values
  require
      (subset (required_of name) (keys settings)
        && subset (keys settings) (component_fields name)
        && configured (obj settings))
      message
  ok settings

-- The runner's network, which has to be of the configured subscription.
unfoldable pub same_subscription : Fields → String → Json → Result String
unfolding vnet_id lower_of lower at
same_subscription config message (str s) = elim (vnet_id s) [
  | none ↦ (require false message >> err type_error)
  | some v ↦ (do
    value ← at (obj config) (List.◌∷◌ "azure" (List.◌∷◌ "subscriptionId" List.[]))
    subscription ← lower_of value
    require (str_eq (lower v.subscription) subscription) message
    ok s)
]
same_subscription config message _ = do require false message; err type_error

abbrev is_vault_char : ℕ → Bool
is_vault_char c = is_lower c || is_digit c || (c == b'-')

first_lower : String → Bool
first_lower [] = false
first_lower (c ∷ s) = is_lower (code c)

-- `re.fullmatch(r"[a-z][a-z0-9-]{1,22}[a-z0-9]", name) and "--" not in name`
unfoldable pub is_vault_name : String → Bool
unfolding first_lower
is_vault_name s =
    leb 3 (text_length s)
    && leb (text_length s) 24
    && every is_vault_char s
    && first_lower s
    && not (str_eq (drop_text (text_length s - 1) s) "-")
    && not (contains s "--")

unfoldable pub vault_name : Json → Result String
unfolding is_vault_name
vault_name (str s) = do
  require (is_vault_name s) "Invalid certificate Vault name"
  require (not (starts s "kv-lt-")) "Certificate Vault must be separate from the backend Vault"
  ok s
vault_name _ = do require false "Invalid certificate Vault name"; err type_error

abbrev is_id_char : ℕ → Bool
is_id_char c = is_hex (lower_code c) || (c == b'-')

abbrev bad_principal : String
bad_principal = "Certificate access requires nonzero principal Object IDs"

unfoldable pub principal : Json → Result String
unfolding uuid
principal (str s) = do
  require ((text_length s == 36) && every is_id_char s) bad_principal
  elim (uuid s) [
    | none ↦ err (value_error "UUID")
    | some n ↦ (require (not (n == 0)) bad_principal >> ok s)
  ]
principal _ = do require false bad_principal; err type_error

abbrev is_importer_type : Json → Bool
is_importer_type (str s) = str_eq s "User" || str_eq s "Group"
is_importer_type _ = false

abbrev is_switch : Json → Bool
is_switch (bool b) = true
is_switch _ = false

-- `settings.setdefault(key, value)`
unfoldable pub put_default : String → Json → Fields → Fields
unfolding has put
put_default k v d = if has k d then d else put k v d

-- A configured text of at most 64 characters that a name may have.
unfoldable pub is_network_name : Json → Bool
unfolding configured_text
is_network_name (str s) =
    configured_text s && leb 1 (text_length s) && leb (text_length s) 64 && every is_name_mark s
is_network_name _ = false

-- `re.fullmatch(re.escape(expected) + r"(?:/[a-fA-F0-9]{32})?", text)`
unfoldable pub is_secret_of : String → Json → Bool
is_secret_of expected (str s) =
    let rest = drop_text (text_length expected) s in
    starts s expected
    && (str_eq rest ""
        || (text_length rest == 33)
          && starts rest "/"
          && every (λ c. is_hex (lower_code c)) (drop_text 1 rest))
is_secret_of expected _ = false

unfoldable pub check_plane : Fields → String → String → Result (Unit {0})
unfolding is_secret_of
check_plane config name plane = do
  ingress ← index (obj config) "privateIngress"
  section ← get_or ingress plane (obj end)
  identifier ← get_or section "tlsSecretId" (str "")
  require
      (is_secret_of ("https://" <> name <> ".vault.azure.net/secrets/" <> plane <> "-tls")
        identifier)
      "privateIngress must use the corresponding certificate Vault api-tls/admin-tls Secret"

unfoldable pub check_ingress : Fields → String → Result (Unit {0})
unfolding has check_plane
check_ingress config name =
    if has "privateIngress" config
    then (do check_plane config name "api"; check_plane config name "admin")
    else ok tt

abbrev no_network : String
no_network = "Certificate Vault requires the target platform network and workspace"

-- The names that the platform gives to the settings.
unfoldable pub with_platform : Fields → Fields → Result Fields
unfolding is_network_name configured put
with_platform config settings = do
  sections ← index (obj config) "parameters"
  platform ← get_or sections "platform" (obj end)
  network ← get_or platform "stage4Network" (obj end)
  name ← get_or network "virtualNetworkName" null
  subnet ← if is_network_name name then get_or network "privateEndpointSubnetName" null else ok null
  workspace ←
      if is_network_name subnet
      then get_or platform "logAnalyticsWorkspaceName" (str "")
      else ok null
  require (is_network_name name && is_network_name subnet && configured workspace) no_network
  own ← index platform "logAnalyticsWorkspaceName"
  ok (
      put "logAnalyticsWorkspaceName" own
        (put "privateEndpointSubnetName" subnet (put "virtualNetworkName" name settings)))

-- What stands between the name of the Vault and the network of the runner.
unfoldable pub check_access : Fields → Result (Unit {0})
unfolding principal lower
check_access settings = do
  reader_value ← index (obj settings) "ingressReaderPrincipalId"
  reader ← principal reader_value
  importer_value ← index (obj settings) "certificateImporterPrincipalId"
  importer ← principal importer_value
  require (not (str_eq (lower reader) (lower importer)))
      "Certificate reader and manual importer must be distinct principals"
  importer_type ← index (obj settings) "certificateImporterPrincipalType"
  require (is_importer_type importer_type) "Manual certificate importer must be a User or Group"

unfoldable pub check_switches : Fields → Result (Unit {0})
check_switches settings = do
  zone ← index (obj settings) "createPrivateDnsZone"
  runner ← index (obj settings) "manageRunnerDnsLink"
  target ← index (obj settings) "manageTargetDnsLink"
  require (is_switch zone && is_switch runner && is_switch target)
      "Certificate DNS switches must be booleans"

unfoldable pub certificate_vault_parameters : Fields → Result Fields
unfolding complete_section vault_name check_access put_default check_switches same_subscription
    with_platform check_ingress
certificate_vault_parameters config = do
  own ← complete_section "certificate-vault" "Certificate Vault configuration is incomplete" config
  name_value ← index (obj own) "vaultName"
  name ← vault_name name_value
  check_access own
  let settings = put_default "manageTargetDnsLink" (bool true) own
  check_switches settings
  identifier_value ← index (obj settings) "runnerVirtualNetworkId"
  identifier ←
      same_subscription config
        "Certificate Runner VNet must be a same-subscription VNet resource ID" identifier_value
  complete ← with_platform config settings
  check_ingress config name
  ok complete
