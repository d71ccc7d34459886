-- ===== src/Examples/Dns.antt =====
-- A cutover against a zone and a checkpoint that are kept in memory.
use secure_litellm_on_azure.Base.{
  String, ◌<>◌, ◌≡◌, refl, true, false, [], ◌∷◌, all, str_eq, if◌then◌else◌,
}
use secure_litellm_on_azure.Base.Int.{pos}
use secure_litellm_on_azure.Json.{Json, null, bool, int, str, obj, Fields, end, field}
use secure_litellm_on_azure.Fault.{Result, ok, index}
use secure_litellm_on_azure.Dns.Settings.{dns_settings}
use secure_litellm_on_azure.Dns.Edge.{check_edge}
use secure_litellm_on_azure.Dns.Plan.{cname_record}
use secure_litellm_on_azure.Dns.Client.{
  read_records, read_checkpoint, saved, written, History, Client,
}
use secure_litellm_on_azure.Dns.Zone.{read_zone}
use secure_litellm_on_azure.Dns.Zone.Planes.{ReadAs, read_zone-covers}
use secure_litellm_on_azure.Dns.Settings.{Settings}
use secure_litellm_on_azure.Dns.Plan.{covers_planes}
use secure_litellm_on_azure.Json.{Items, nil, cons, get}
use secure_litellm_on_azure.Dns.Change.{change_dns}
use secure_litellm_on_azure.Dns.Change.Backed.{Backed}
use secure_litellm_on_azure.Dns.Change.Checkpointed.{change_dns-Backed}
use secure_litellm_on_azure.Dns.Change.Confirmed.{Confirmed, change_dns-Confirmed}
use secure_litellm_on_azure.Dns.Change.Reads.{is_reading, change_dns-plan}
use secure_litellm_on_azure.Examples.Gates.{stand_in, hash}

abbrev record_of : String → History → Json
record_of plane [] = null
record_of plane (written p wanted _ ∷ h) =
    let earlier = record_of plane h in
    if str_eq p plane then obj (field "etag" (str "1") (field "properties" wanted end)) else earlier
record_of plane (c ∷ h) = record_of plane h

abbrev checkpoint_of : History → Json
checkpoint_of [] = null
checkpoint_of (saved v ∷ h) = v
checkpoint_of (c ∷ h) = checkpoint_of h

abbrev memory : Client
memory = record {
  read = λ h. ok (obj (field "api" (record_of "api" h) (field "admin" (record_of "admin" h) end)));
  checkpoint = λ h. ok (checkpoint_of h);
  save = λ h v. ok tt;
  write = λ h plane wanted previous. ok tt;
}

abbrev zone_id : String
zone_id =
    "/subscriptions/01234567-89ab-cdef-0123-456789abcdef/resourceGroups/dns/providers/Microsoft.Network/dnsZones/example.com"

abbrev config : Fields
config = field "baseDomain" (str "ai.example.com") (
    field "azure" (obj (field "subscriptionId" (str "01234567-89AB-cdef-0123-456789abcdef") end)) (
      field "parameters" (obj end) (
        field "dns" (obj (field "zoneResourceId" (str zone_id) (field "ttl" (int (pos 300)) end)))
          end)))

abbrev edge : Fields
edge = field "apiHost" (str "llm-api.ai.example.com") (
    field "adminHost" (str "llm-admin.ai.example.com") (
      field "endpointHost" (str "a.z01.azurefd.net") (
        field "adminEndpointHost" (str "b.azurefd.net") (
          field "adminAccessMode" (str "SourceIpAllowlistAndNativeLogin") (
            field "apiTrafficEnabled" (bool true) (field "adminTrafficEnabled" (bool true) end))))))

settings_run :
    dns_settings config
    ≡ ok (record {
      zone_id = zone_id;
      ttl = 300;
      zone = "example.com";
      group = "dns";
      api_record = "llm-api.ai";
      admin_record = "llm-admin.ai";
    })
unfolding dns_settings
settings_run = refl

edge_run : check_edge config edge ≡ ok ("a.z01.azurefd.net", "b.azurefd.net")
unfolding check_edge
edge_run = refl

abbrev scope : Json
scope = obj (
    field "configSha256" (str hash) (
      field "records"
        (obj (
          field "api" (str (zone_id <> "/CNAME/llm-api.ai"))
            (field "admin" (str (zone_id <> "/CNAME/llm-admin.ai")) end)))
        end))

abbrev api_record : Json
api_record = unfold cname_record in cname_record 300 "a.z01.azurefd.net"

abbrev admin_record : Json
admin_record = unfold cname_record in cname_record 300 "b.azurefd.net"

abbrev stored : String → Json
stored phase = obj (
    field "scope" scope (
      field "before" (obj (field "api" null (field "admin" null end))) (
        field "after" (obj (field "api" api_record (field "admin" admin_record end)))
          (field "phase" (str phase) (field "revision" (str "r1") end)))))

abbrev publish_summary : Json
publish_summary = obj (
    field "stage" (int (pos 9)) (
      field "action" (str "dns-publish") (
        field "planSha256" (str hash) (
          field "applied" (bool true) (
            field "stageAccepted" (bool false) (
              field "dnsPropagationVerified" (bool false)
                (field "dataRollbackPerformed" (bool false) end)))))))

abbrev publish_calls : History
publish_calls =
    saved (stored "published")
    ∷ read_records
    ∷ read_records
    ∷ written "admin" admin_record null
    ∷ read_records
    ∷ written "api" api_record null
    ∷ read_checkpoint
    ∷ saved (stored "prepared")
    ∷ read_checkpoint
    ∷ read_records
    ∷ read_checkpoint
    ∷ read_records
    ∷ []

-- A first publication saves its checkpoint before it writes.
publish_run :
    ◌≡◌ {A = Result Json × History}
      (change_dns memory stand_in config "dns-publish" "execute" "r1" hash edge [])
      (ok publish_summary, publish_calls)
unfolding change_dns
publish_run = refl

change_dns-Confirmed_example : Confirmed memory "dns-publish" publish_calls
change_dns-Confirmed_example =
    change_dns-Confirmed memory stand_in config "dns-publish" "r1" hash edge publish_run

change_dns-Backed_example :
    Backed memory ((change_dns memory stand_in config "dns-publish" "execute" "r1" hash edge []).1)
change_dns-Backed_example =
    change_dns-Backed memory stand_in config "dns-publish" "execute" "r1" hash edge

change_dns-plan_example :
    all is_reading ((change_dns memory stand_in config "dns-publish" "plan" "r1" hash edge []).1)
    ≡ true
change_dns-plan_example = change_dns-plan memory stand_in config "dns-publish" "r1" hash edge

abbrev zone_records : Items
zone_records =
    cons
      (obj (
        field "name" (str "llm-api.ai") (
          field "etag" (str "7") (
            field "ttl" (int (pos 60))
              (field "CNAMERecord" (obj (field "cname" (str "old.example.com") end)) end)))))
      nil

abbrev zone_settings : Settings
zone_settings = record {
  zone_id = zone_id;
  ttl = 300;
  zone = "example.com";
  group = "dns";
  api_record = "llm-api.ai";
  admin_record = "llm-admin.ai";
}

abbrev zone_current : Json
zone_current = obj (
    field "api"
      (obj (
        field "etag" (str "7") (
          field "properties"
            (obj (
              field "TTL" (int (pos 60)) (
                field "CNAMERecord" (obj (field "cname" (str "old.example.com") end))
                  (field "metadata" (obj end) end))))
            end)))
      (field "admin" null end))

zone_run : read_zone zone_settings zone_records ≡ ok zone_current
unfolding read_zone get
zone_run = refl

read_zone-covers_example :
    (covers_planes zone_current ≡ true)
    × ((api : Json) × (index zone_current "api" ≡ ok api) × ReadAs "llm-api.ai" zone_records api)
    × ((admin : Json) × (index zone_current "admin" ≡ ok admin)
        × ReadAs "llm-admin.ai" zone_records admin)
read_zone-covers_example = read_zone-covers zone_settings zone_records zone_run
