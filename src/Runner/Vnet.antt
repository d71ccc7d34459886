-- ===== src/Runner/Vnet.antt =====
-- The resource ID of a virtual network, which scripts/runner_connectivity.py,
-- scripts/certificate_vault.py and scripts/runner_target_connectivity.py match with one pattern.
use Prim.Native.String.{[], ◌∷◌}
use Prim.Native.Char.{code}
use secure_litellm_on_azure.Base.{
  ℕ, String, Bool, ◌&&◌, ◌||◌, not, Option, none, some, leb, ◌==◌, if◌then◌else◌,
}
use secure_litellm_on_azure.Base.Text.{text_length, every, is_alnum, is_hex, lower_code}

-- The groups of the match.
pub record VnetId : Type 0 where
  pub subscription : String
  pub group : String
  pub name : String

-- The rest of the text after the pattern, whose letters match both cases and whose `.` matches any
-- character but a line end.
unfoldable pub literal : String → String → Option String
literal [] s = some s
literal (p ∷ ps) [] = none
literal (p ∷ ps) (c ∷ s) =
    let rest = literal ps s in
    if (lower_code (code c) == code p) || ((code p == b'.') && not (code c == 10))
    then rest
    else none

-- The text up to the first `/`, and the text from there.
unfoldable pub until_slash : String → String × String
until_slash [] = ([], [])
until_slash (c ∷ s) =
    let rest = until_slash s in if code c == b'/' then ([], c ∷ s) else (c ∷ rest.0, rest.1)

abbrev is_uuid_char : ℕ → Bool
is_uuid_char c = is_hex (lower_code c) || (c == b'-')

abbrev pub is_name_mark : ℕ → Bool
is_name_mark c = is_alnum c || (c == b'_') || (c == b'.') || (c == b'-')

abbrev is_group_mark : ℕ → Bool
is_group_mark c = is_name_mark c || (c == b'(') || (c == b')')

unfoldable pub vnet_parts : String → String → String → Option VnetId
vnet_parts subscription group name =
    if (text_length subscription == 36)
      && every is_uuid_char subscription
      && leb 1 (text_length group)
      && leb (text_length group) 90
      && every is_group_mark group
      && leb 1 (text_length name)
      && leb (text_length name) 64
      && every is_name_mark name
    then some (record { subscription = subscription; group = group; name = name })
    else none

-- `re.fullmatch(r"/subscriptions/([0-9a-f-]{36})/resourceGroups/...", text, re.I)`
unfoldable pub vnet_id : String → Option VnetId
unfolding literal until_slash vnet_parts
vnet_id s = elim (literal "/subscriptions/" s) as (λ _. Option VnetId) [
  | none ↦ none
  | some r ↦
      let subscription = until_slash r in
      elim (literal "/resourcegroups/" (subscription.1)) as (λ _. Option VnetId) [
        | none ↦ none
        | some q ↦
            let group = until_slash q in
            elim (literal "/providers/microsoft.network/virtualnetworks/" (group.1))
              as (λ _. Option VnetId) [
                | none ↦ none
                | some name ↦ vnet_parts (subscription.0) (group.0) name
              ]
      ]
]
