-- ===== src/Dns/Zone.antt =====
-- `DnsClient.read` of scripts/dns_runtime.py, from the record sets that the zone lists.
pub mod Planes
use secure_litellm_on_azure.Base.{
  String, ◌<>◌, Bool, true, false, none, some, List, [], ◌∷◌, length, leb, if◌then◌else◌,
}
use secure_litellm_on_azure.Json.{
  Json, null, obj, Items, nil, cons, Fields, end, field, get, put, truthy, is_text,
}
use secure_litellm_on_azure.Fault.{Result, ok, ◌>>=◌, ◌>>◌, require, get_or, index}
use secure_litellm_on_azure.Dns.Settings.{Settings}

-- `[item for item in records if item["name"] == name]`
unfoldable pub named : String → Items → Result (List Json)
unfolding is_text
named name nil = ok []
named name (cons item rest) = do
  found ← index item "name"
  later ← named name rest
  ok (if is_text name found then item ∷ later else later)

-- `isinstance(record, dict) and record.get("cname")`
unfoldable pub has_cname : Json → Bool
unfolding get truthy
has_cname (obj d) = elim (get "cname" d) [ none ↦ false | some v ↦ truthy v ]
has_cname _ = false

-- `value or {}`
abbrev or_empty : Json → Json
or_empty v = if truthy v then v else obj end

-- What the caller sees of one record set.
unfoldable pub record_entry : Json → Result Json
unfolding has_cname truthy
record_entry item = do
  etag ← get_or item "etag" null
  require (truthy etag) "DNS record has no concurrency token"
  legacy ← get_or item "CNAMERecord" null
  record_set ← get_or item "cnameRecord" legacy
  require (has_cname record_set) "Unexpected DNS record content"
  token ← index item "etag"
  legacy_ttl ← get_or item "TTL" null
  ttl ← get_or item "ttl" legacy_ttl
  metadata ← get_or item "metadata" null
  ok (
      obj (
        field "etag" token (
          field "properties"
            (obj (
              field "TTL" ttl
                (field "CNAMERecord" record_set (field "metadata" (or_empty metadata) end))))
            end)))

-- `None` if there is no match, and otherwise what the first match gives.
unfoldable pub match_entry : List Json → Result Json
unfolding record_entry
match_entry [] = ok null
match_entry (item ∷ _) = record_entry item

-- `settings["records"]`, in its order
abbrev pub records_of : Settings → List (String × String)
records_of settings = ("api", settings.api_record) ∷ ("admin", settings.admin_record) ∷ []

-- The loop over the planes and the names of their record sets.
unfoldable pub read_planes : Items → List (String × String) → Fields → Result Fields
unfolding named match_entry put
read_planes records [] result = ok result
read_planes records ((plane, name) ∷ rest) result = do
  found ← named name records
  require (leb (length found) 1) ("Ambiguous " <> (plane <> " DNS record"))
  entry ← match_entry found
  read_planes records rest (put plane entry result)

unfoldable pub read_zone : Settings → Items → Result Json
unfolding read_planes
read_zone settings records = do
  result ← read_planes records (records_of settings) end
  ok (obj result)
