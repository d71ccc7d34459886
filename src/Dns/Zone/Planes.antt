-- ===== src/Dns/Zone/Planes.antt =====
-- What the client has read for each plane of a zone.
use secure_litellm_on_azure.Base.{
  String, ◌≡◌, ◌≢◌, refl, sym, ◌∙◌, ap, subst, ◌⊎◌, inl, inr, Bool-cases, true, false, List, [],
  ◌∷◌, length, leb, Option, none, some, arith, eq_refl, if◌then◌else◌,
}
use secure_litellm_on_azure.Json.{
  Json, null, str, obj, Items, nil, cons, end, get, put, keys, truthy, is_text,
}
use secure_litellm_on_azure.Json.Laws.{is_text-eq}
use secure_litellm_on_azure.Fault.{
  Result, ok, err, key_error, get_or, index, bind_ok, require_ok, ok_injective,
}
use secure_litellm_on_azure.Dns.Settings.{Settings}
use secure_litellm_on_azure.Dns.Plan.{covers_planes}
use secure_litellm_on_azure.Dns.Zone.{
  named, has_cname, record_entry, match_entry, records_of, read_planes, read_zone,
}

abbrev HasName : String → Json → Type 0
HasName name item = index item "name" ≡ ok (str name)

-- The zone lists no record set with the name.
abbrev pub Absent : String → Items → Type 0
Absent name nil = Unit
Absent name (cons item rest) = (index item "name" ≢ ok (str name)) × Absent name rest

-- The zone lists this record set with the name, and no other.
abbrev pub Only : String → Items → Json → Type 0
Only name nil item = ⊥
Only name (cons first rest) item =
    ((first ≡ item) × (index first "name" ≡ ok (str name)) × Absent name rest)
    ⊎ ((index first "name" ≢ ok (str name)) × Only name rest item)

other_name :
    (name : String) (item found : Json)
    → index item "name" ≡ ok found
    → is_text name found ≡ false
    → index item "name" ≢ ok (str name)
unfolding is_text
other_name name item found e miss h =
    let same : found ≡ str name = ok_injective (sym e ∙ h) in
    let hit : is_text name (str name) ≡ false = subst (λ v. is_text name v ≡ false) same miss in
    ground (arith, hit, eq_refl name)

named-Absent : (name : String) (records : Items) → named name records ≡ ok [] → Absent name records
unfolding named
named-Absent name nil h = tt
named-Absent name (cons item rest) h = bind_ok (index item "name") _ h λ found e h1.
    bind_ok (named name rest) _ h1 λ later e1 h2. elim (Bool-cases (is_text name found)) [
      | inl hit ↦ absurd (cc (ap (λ b. if b then item ∷ later else later) hit, ok_injective h2))
      | inr miss ↦ (
        other_name name item found e miss,
        named-Absent name rest
            (e1 ∙ ap ok (ap (λ b. if b then item ∷ later else later) (sym miss) ∙ ok_injective h2)),
      )
    ]

named-Only :
    (name : String) (records : Items) (item : Json)
    → named name records ≡ ok (item ∷ [])
    → Only name records item
unfolding named
named-Only name nil item h = absurd (cc h)
named-Only name (cons first rest) item h = bind_ok (index first "name") _ h λ found e h1.
    bind_ok (named name rest) _ h1 λ later e1 h2. elim (Bool-cases (is_text name found)) [
      | inl hit ↦
          let taken : first ∷ later ≡ item ∷ [] =
            ap (λ b. if b then first ∷ later else later) (sym hit) ∙ ok_injective h2 in
          let none_later : later ≡ [] = cc taken in
          inl (
            cc taken,
            e ∙ ap ok (is_text-eq name found hit),
            named-Absent name rest (e1 ∙ ap ok none_later),
          )
      | inr miss ↦ inr (
        other_name name first found e miss,
        named-Only name rest item (
            e1 ∙ ap ok (ap (λ b. if b then first ∷ later else later) (sym miss) ∙ ok_injective h2)),
      )
    ]

-- A record set that the caller may write: it has a token against concurrent changes and a target,
-- and the entry gives the token, the record set, its time to live and its metadata.
pub record IsEntry (item entry : Json) : Type 0 where
  pub token : Json
  pub token_of : index item "etag" ≡ ok token
  pub concurrent : truthy token ≡ true
  pub legacy : Json
  pub legacy_of : get_or item "CNAMERecord" null ≡ ok legacy
  pub record_set : Json
  pub record_set_of : get_or item "cnameRecord" legacy ≡ ok record_set
  pub content : (target : Json) × (index record_set "cname" ≡ ok target) × (truthy target ≡ true)
  pub legacy_ttl : Json
  pub legacy_ttl_from : get_or item "TTL" null ≡ ok legacy_ttl
  pub ttl : Json
  pub ttl_from : get_or item "ttl" legacy_ttl ≡ ok ttl
  pub metadata : Json
  pub metadata_of : get_or item "metadata" null ≡ ok metadata
  pub etag : index entry "etag" ≡ ok token
  pub properties : Json
  pub properties_of : index entry "properties" ≡ ok properties
  pub has_ttl : index properties "TTL" ≡ ok ttl
  pub has_record_set : index properties "CNAMERecord" ≡ ok record_set
  pub has_metadata :
      index properties "metadata" ≡ ok (if truthy metadata then metadata else obj end)

has_cname-content :
    (record_set : Json)
    → has_cname record_set ≡ true
    → (target : Json) × (index record_set "cname" ≡ ok target) × (truthy target ≡ true)
unfolding has_cname
has_cname-content (obj d) h = go (get "cname" d) h
  where
    go :
        (o : Option Json)
        → elim o [ none ↦ false | some v ↦ truthy v ] ≡ true
        → (target : Json) × (elim o as (λ _. Result Json) [
          | none ↦ err (key_error "cname")
          | some v ↦ ok v
        ]
            ≡ ok target)
          × (truthy target ≡ true)
    go none h = absurd (cc h)
    go (some v) h = (v, refl, h)
has_cname-content _ h = absurd (cc h)

same_token :
    (item : Json) {etag token : Json}
    → get_or item "etag" null ≡ ok etag
    → index item "etag" ≡ ok token
    → etag ≡ token
same_token (obj d) {etag} {token} e h = go (get "etag" d) e h
  where
    go :
        (o : Option Json)
        → elim o as (λ _. Result Json) [ none ↦ ok null | some v ↦ ok v ] ≡ ok etag
        → elim o as (λ _. Result Json) [ none ↦ err (key_error "etag") | some v ↦ ok v ] ≡ ok token
        → etag ≡ token
    go none e h = absurd (cc h)
    go (some v) e h = ok_injective (sym e ∙ h)
same_token _ e h = absurd (cc e)

record_entry-IsEntry :
    (item : Json) {entry : Json} → record_entry item ≡ ok entry → IsEntry item entry
unfolding record_entry get
record_entry-IsEntry item h = bind_ok (get_or item "etag" null) _ h λ etag e1 h1.
    require_ok (truthy etag) _ _ h1 λ concurrent h2.
      bind_ok (get_or item "CNAMERecord" null) _ h2 λ legacy e3 h3.
        bind_ok (get_or item "cnameRecord" legacy) _ h3 λ record_set e4 h4.
          require_ok (has_cname record_set) _ _ h4 λ content h5.
            bind_ok (index item "etag") _ h5 λ token e6 h6.
              bind_ok (get_or item "TTL" null) _ h6 λ legacy_ttl e7 h7.
                bind_ok (get_or item "ttl" legacy_ttl) _ h7 λ ttl e8 h8.
                  bind_ok (get_or item "metadata" null) _ h8 λ metadata e9 h9.
                    subst (IsEntry item) (ok_injective h9) (record {
                      token = token;
                      token_of = e6;
                      concurrent = subst (λ v. truthy v ≡ true) (same_token item e1 e6) concurrent;
                      legacy = legacy;
                      legacy_of = e3;
                      record_set = record_set;
                      record_set_of = e4;
                      content = has_cname-content record_set content;
                      legacy_ttl = legacy_ttl;
                      legacy_ttl_from = e7;
                      ttl = ttl;
                      ttl_from = e8;
                      metadata = metadata;
                      metadata_of = e9;
                      etag = refl;
                      properties = _;
                      properties_of = refl;
                      has_ttl = refl;
                      has_record_set = refl;
                      has_metadata = refl;
                    })

-- The entry of a plane: none if the zone has no record set with its name, and otherwise the entry of
-- the only one.
abbrev pub ReadAs : String → Items → Json → Type 0
ReadAs name records entry =
    (Absent name records × (entry ≡ null))
    ⊎ ((item : Json) × Only name records item × IsEntry item entry)

match_entry-ReadAs :
    (name : String) (records : Items) (found : List Json) {entry : Json}
    → named name records ≡ ok found
    → leb (length found) 1 ≡ true
    → match_entry found ≡ ok entry
    → ReadAs name records entry
unfolding match_entry
match_entry-ReadAs name records [] e one h = inl (named-Absent name records e, sym (ok_injective h))
match_entry-ReadAs name records (item ∷ []) e one h =
    inr (item, named-Only name records item e, record_entry-IsEntry item h)
match_entry-ReadAs name records (item ∷ other ∷ rest) e one h = absurd (ground (arith, one))

-- What the client reads from the zone has an entry for each of the two planes and no other. The
-- entry is null where the zone lists no record set with the plane's own name. Otherwise the zone
-- lists exactly one, with a token against concurrent changes and a target, and the entry holds its
-- token, its time to live, its content and its metadata.
pub read_zone-covers :
    (settings : Settings) (records : Items) {current : Json}
    → read_zone settings records ≡ ok current
    → (covers_planes current ≡ true)
      × ((api : Json) × (index current "api" ≡ ok api) × ReadAs settings.api_record records api)
      × ((admin : Json) × (index current "admin" ≡ ok admin)
          × ReadAs settings.admin_record records admin)
unfolding read_zone read_planes covers_planes keys get put
read_zone-covers settings records {current} h =
    bind_ok (read_planes records (records_of settings) end) _ h λ result e h'.
      bind_ok (named settings.api_record records) _ e λ found1 e1 h1.
        require_ok (leb (length found1) 1) _ _ h1 λ one1 h2.
          bind_ok (match_entry found1) _ h2 λ api e2 h3.
            bind_ok (named settings.admin_record records) _ h3 λ found2 e3 h4.
              require_ok (leb (length found2) 1) _ _ h4 λ one2 h5.
                bind_ok (match_entry found2) _ h5 λ admin e4 h6.
                  subst
                    (λ current.
                      (covers_planes current ≡ true)
                      × ((api : Json) × (index current "api" ≡ ok api)
                          × ReadAs settings.api_record records api)
                      × ((admin : Json) × (index current "admin" ≡ ok admin)
                          × ReadAs settings.admin_record records admin))
                    (ap obj (ok_injective h6) ∙ ok_injective h')
                    (
                      refl,
                      (api, refl, match_entry-ReadAs settings.api_record records found1 e1 one1 e2),
                      (
                        admin,
                        refl,
                        match_entry-ReadAs settings.admin_record records found2 e3 one2 e4,
                      ),
                    )
