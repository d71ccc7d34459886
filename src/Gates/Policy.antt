-- ===== src/Gates/Policy.antt =====
-- `approval_policy` and `deployment_mode` of scripts/customer_migration.py.
pub mod Approvers
use Prim.Native.String.{[], ◌∷◌}
use Prim.Native.Char.{code}
use secure_litellm_on_azure.Base.{
  ℕ, String, Bool, true, false, ◌&&◌, ◌||◌, not, Option, none, some, List, length, all, subset,
  elem, str_eq, leb, ◌==◌, if◌then◌else◌,
}
use secure_litellm_on_azure.Base.Text.{text_length, every, is_alnum}
use secure_litellm_on_azure.Base.Uuid.{uuid}
use secure_litellm_on_azure.Json.{
  Json, null, bool, str, arr, obj, Items, nil, cons, Fields, end, get, keys,
}
use secure_litellm_on_azure.Fault.{
  Result, ok, err, value_error, type_error, attribute_error, ◌>>=◌, ◌>>◌, require, get_or,
}

-- `value in {"...", ...}`: a list or a dict cannot be hashed.
unfoldable pub one_of : List String → Json → Result Bool
one_of texts (str s) = ok (elem s texts)
one_of texts (arr _) = err type_error
one_of texts (obj _) = err type_error
one_of texts _ = ok false

unfoldable pub text_of : Json → String
text_of (str s) = s
text_of _ = ""

-- `UUID(value)` on a value of any type
unfoldable pub uuid_of : Json → Result ℕ
unfolding uuid
uuid_of (str s) = elim (uuid s) [
  | none ↦ err (value_error "badly formed hexadecimal UUID string")
  | some n ↦ ok n
]
uuid_of null = err type_error
uuid_of _ = err attribute_error

unfoldable pub uuids : Items → Result (List ℕ)
unfolding uuid_of
uuids nil = ok List.[]
uuids (cons v vs) = do n ← uuid_of v; ns ← uuids vs; ok (List.◌∷◌ n ns)

unfoldable pub member : ℕ → List ℕ → Bool
member n List.[] = false
member n (List.◌∷◌ m ms) = (n == m) || member n ms

-- `len(set(ns)) == len(ns)`
unfoldable pub all_distinct : List ℕ → Bool
unfolding member
all_distinct List.[] = true
all_distinct (List.◌∷◌ n ns) = not (member n ns) && all_distinct ns

unfoldable pub nonzero : List ℕ → Bool
nonzero = all (λ n. not (n == 0))

-- `re.fullmatch(r"[A-Za-z0-9][A-Za-z0-9-]{0,38}", login)`
unfoldable pub is_login : String → Bool
is_login [] = false
is_login (c ∷ s) =
    is_alnum (code c) && every (λ d. is_alnum d || (d == b'-')) s && leb (text_length s) 38

unfoldable pub is_true : Option Json → Bool
is_true (some (bool b)) = b
is_true _ = false

login_ok : String → Option Json → Bool
unfolding is_login
login_ok mode none = true
login_ok mode (some (str login)) = str_eq mode "single-operator" && is_login login
login_ok mode (some _) = false

-- The rules on the number of approvers.
unfoldable pub enough_approvers : String → Bool → List ℕ → Result (Unit {0})
enough_approvers mode accepted ids =
    if str_eq mode "single-operator"
    then require (accepted && (length ids == 1))
        "Single-operator mode requires one named operator and explicit risk acceptance"
    else if length ids == 0
    then ok tt
    else require (leb 2 (length ids)) "Dual approval requires at least two eligible approvers"

abbrev pub governance_fields : List String
governance_fields = List.◌∷◌ "approvalMode" (
    List.◌∷◌ "approverObjectIds"
      (List.◌∷◌ "singleOperatorRiskAccepted" (List.◌∷◌ "githubLogin" List.[])))

abbrev pub approval_modes : List String
approval_modes = List.◌∷◌ "dual" (List.◌∷◌ "single-operator" List.[])

-- The policy object, once its mode and its list of approvers are read.
unfoldable pub checked_policy : Fields → Json → Json → Result (String × List ℕ)
unfolding one_of text_of uuids all_distinct nonzero is_true login_ok enough_approvers get
checked_policy policy mode (arr allowed) = do
  ids ← uuids allowed
  require (all_distinct ids && nonzero ids) "Invalid or duplicate approved operator IDs"
  enough_approvers (text_of mode) (is_true (get "singleOperatorRiskAccepted" policy)) ids
  require (login_ok (text_of mode) (get "githubLogin" policy))
      "githubLogin requires an explicitly approved single operator"
  ok (text_of mode, ids)
checked_policy policy mode _ = do require false "approverObjectIds must be an array"; err type_error

unfoldable pub approval_policy_of : Json → Result (String × List ℕ)
unfolding checked_policy keys
approval_policy_of (obj policy) = do
  require (subset (keys policy) governance_fields) "Invalid governance fields"
  mode ← get_or (obj policy) "approvalMode" (str "dual")
  known ← one_of approval_modes mode
  require known "Invalid approvalMode"
  allowed ← get_or (obj policy) "approverObjectIds" (arr nil)
  checked_policy policy mode allowed
approval_policy_of _ = do require false "Invalid governance fields"; err type_error

-- `(mode, identities)`
unfoldable pub approval_policy : Fields → Result (String × List ℕ)
unfolding approval_policy_of
approval_policy config = do
  policy ← get_or (obj config) "governance" (obj end)
  approval_policy_of policy

abbrev pub deployment_modes : List String
deployment_modes = List.◌∷◌ "migration" (List.◌∷◌ "greenfield" List.[])

unfoldable pub deployment_mode : Fields → Result String
unfolding one_of text_of
deployment_mode config = do
  mode ← get_or (obj config) "deploymentMode" (str "migration")
  known ← one_of deployment_modes mode
  require known "deploymentMode must be migration or greenfield"
  ok (text_of mode)

-- `config.get("application", {}).get("authentication", {}).get("mode")`, `null` where it is missing
unfoldable pub authentication_mode : Fields → Result Json
authentication_mode config = do
  application ← get_or (obj config) "application" (obj end)
  authentication ← get_or application "authentication" (obj end)
  get_or authentication "mode" null
