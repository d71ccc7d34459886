-- ===== src/Dns/Settings.antt =====
-- `dns_settings` of scripts/dns_runtime.py.
use Prim.Native.String.{[], ◌∷◌}
use Prim.Native.Char.{Char, code}
use secure_litellm_on_azure.Base.{
  ℕ, suc, String, ◌<>◌, ◌≡◌, ap, Bool, true, false, ◌&&◌, ◌||◌, not, Option, none, some, List,
  same_set, str_eq, leb, ◌==◌, if◌then◌else◌,
}
use secure_litellm_on_azure.Base.Int.{pos}
use secure_litellm_on_azure.Base.Text.{
  text_length, starts, ends, drop_text, take_text, every, is_digit, is_hex, is_lower, is_alnum,
  lower_code,
}
use secure_litellm_on_azure.Json.{Json, int, str, obj, Fields, get, keys}
use secure_litellm_on_azure.Fault.{
  Result, ok, err, type_error, attribute_error, ◌>>=◌, ◌>>◌, require, index, ok_injective,
}

abbrev push_char : Char → List String → List String
push_char c List.[] = List.◌∷◌ (c ∷ []) List.[]
push_char c (List.◌∷◌ p ps) = List.◌∷◌ (c ∷ p) ps

-- The pieces between the characters of the given code.
unfoldable pub split_on : ℕ → String → List String
split_on separator [] = List.◌∷◌ [] List.[]
split_on separator (c ∷ s) =
    let rest = split_on separator s in
    if code c == separator then List.◌∷◌ [] rest else push_char c rest

-- `a.lower() == b.lower()`, where `a` holds hexadecimal digits and dashes
unfoldable pub same_lower : String → String → Bool
same_lower [] [] = true
same_lower (c ∷ s) (d ∷ t) = (lower_code (code c) == lower_code (code d)) && same_lower s t
same_lower _ _ = false

abbrev is_subscription_char : ℕ → Bool
is_subscription_char c = is_hex c || ((leb b'A' c && leb c b'F') || (c == b'-'))

abbrev is_group_char : ℕ → Bool
is_group_char c =
    is_alnum c || (c == b'_') || (c == b'.') || (c == b'(') || (c == b')') || (c == b'-')

abbrev is_zone_char : ℕ → Bool
is_zone_char c = is_lower c || is_digit c || (c == b'.') || (c == b'-')

abbrev nonempty : String → Bool
nonempty s = not (text_length s == 0)

-- What the pattern of a zone's resource ID captures.
pub record ZoneMatch : Type 0 where
  pub subscription : String
  pub group : String
  pub zone : String

unfoldable pub captured : Bool → String → String → String → Option ZoneMatch
captured fixed subscription group zone =
    if fixed
      && ((text_length subscription == 36) && every is_subscription_char subscription)
      && (nonempty group && every is_group_char group)
      && (nonempty zone && every is_zone_char zone)
    then some (record { subscription = subscription; group = group; zone = zone })
    else none

abbrev fixed_parts : String → String → String → String → String → Bool
fixed_parts a b c d e =
    str_eq a ""
    && str_eq b "subscriptions"
    && str_eq c "resourceGroups"
    && str_eq d "providers"
    && str_eq e "dnsZones"

-- `Microsoft.Network`, whose dot is any character but a line break
abbrev is_provider : String → Bool
is_provider p =
    (text_length p == 17)
    && starts p "Microsoft"
    && str_eq (drop_text 10 p) "Network"
    && not (str_eq (take_text 1 (drop_text 9 p)) "\n")

unfoldable pub zone_pieces : List String → Option ZoneMatch
unfolding captured
zone_pieces
      (List.◌∷◌ a (
        List.◌∷◌ b (
          List.◌∷◌ sub (
            List.◌∷◌ c
              (List.◌∷◌ group (List.◌∷◌ d (List.◌∷◌ p (List.◌∷◌ e (List.◌∷◌ zone List.[]))))))))) =
    captured (fixed_parts a b c d e && is_provider p) sub group zone
zone_pieces
      (List.◌∷◌ a (
        List.◌∷◌ b (
          List.◌∷◌ sub (
            List.◌∷◌ c (
              List.◌∷◌ group
                (List.◌∷◌ d (List.◌∷◌ p (List.◌∷◌ q (List.◌∷◌ e (List.◌∷◌ zone List.[])))))))))) =
    captured (fixed_parts a b c d e && str_eq p "Microsoft" && str_eq q "Network") sub group zone
zone_pieces _ = none

-- `re.fullmatch(r"/subscriptions/(...)/resourceGroups/(...)/providers/...", value)`
unfoldable pub zone_match : Json → Result (Option ZoneMatch)
unfolding split_on zone_pieces
zone_match (str s) = ok (zone_pieces (split_on b'/' s))
zone_match _ = err type_error

pub record Settings : Type 0 where
  pub zone_id : String
  pub ttl : ℕ
  pub zone : String
  pub group : String
  pub api_record : String
  pub admin_record : String

-- The text of a value that is added to a text.
unfoldable pub text_part : Json → Result String
text_part (str s) = ok s
text_part _ = err type_error

-- `type(value) is int and 60 <= value <= 3600`
unfoldable pub ttl_of : Json → Option ℕ
ttl_of (int (pos n)) = if leb 60 n && leb n 3600 then some n else none
ttl_of _ = none

-- The text of a value whose method `lower` is called.
unfoldable pub lowered : Json → Result String
lowered (str s) = ok s
lowered _ = err attribute_error

unfoldable pub zone_in_scope : Fields → Option ZoneMatch → Result ZoneMatch
unfolding same_lower lowered
zone_in_scope config none = do
  require false "DNS zone must be in the approved subscription"
  err type_error
zone_in_scope config (some m) = do
  azure ← index (obj config) "azure"
  subscription ← index azure "subscriptionId"
  approved ← lowered subscription
  require (same_lower m.subscription approved) "DNS zone must be in the approved subscription"
  ok m

-- `host[:-(len(zone) + 1)]`
unfoldable pub record_name : String → String → String
record_name host zone =
    take_text (Prim.Native.Nat.◌-◌ (text_length host) (suc (text_length zone))) host

unfoldable pub has_dns_keys : Option Json → Bool
unfolding keys
has_dns_keys (some (obj d)) = same_set (keys d) (List.◌∷◌ "zoneResourceId" (List.◌∷◌ "ttl" List.[]))
has_dns_keys _ = false

unfoldable pub dns_value : Option Json → Json
dns_value none = Json.null
dns_value (some v) = v

unfoldable pub dns_settings : Fields → Result Settings
unfolding has_dns_keys zone_match zone_in_scope text_part ttl_of record_name get dns_value
dns_settings config = do
  let value = get "dns" config
  require (has_dns_keys value) "dns requires zoneResourceId and ttl"
  zone_id ← index (dns_value value) "zoneResourceId"
  found ← zone_match zone_id
  m ← zone_in_scope config found
  id ← text_part zone_id
  base_value ← index (obj config) "baseDomain"
  base ← text_part base_value
  let api = "llm-api." <> base
  let admin = "llm-admin." <> base
  require (ends api ("." <> m.zone) && ends admin ("." <> m.zone))
      "DNS zone must contain both gateway hostnames; apex CNAME is not supported"
  ttl ← index (dns_value value) "ttl"
  elim (ttl_of ttl) as (λ _. Result Settings) [
    | none ↦ (require false "DNS TTL must be 60 to 3600 seconds" >> err type_error)
    | some n ↦ ok (record {
      zone_id = id;
      ttl = n;
      zone = m.zone;
      group = m.group;
      api_record = record_name api m.zone;
      admin_record = record_name admin m.zone;
    })
  ]

pub text_part-ok : (v : Json) {s : String} → text_part v ≡ ok s → v ≡ str s
unfolding text_part
text_part-ok (str t) h = ap str (ok_injective h)
text_part-ok _ h = absurd (cc h)
