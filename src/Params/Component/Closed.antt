-- ===== src/Params/Component/Closed.antt =====
-- What the parameters of the edge are, whatever the customer configures.
use secure_litellm_on_azure.Base.{
  ℕ, ◌≤◌, String, ◌≡◌, refl, sym, ◌∙◌, ap, subst, false, Option, none, some, List, [], ◌∷◌, All,
  length, subset, ◌&&◌, str_eq, elem, arith,
}
use secure_litellm_on_azure.Json.{Json, bool, str, obj, Fields, end, field, get, put, keys}
use secure_litellm_on_azure.Json.Laws.{get-put}
use secure_litellm_on_azure.Fault.{
  Result, ok, err, index, bind_ok, branch_ok, require_ok, ok_injective, put_item, key_error, ◌>>=◌,
}
use secure_litellm_on_azure.Gates.Components.{Component}
use secure_litellm_on_azure.Params.Component.Staged.{parameters_for-Chosen}
use secure_litellm_on_azure.Params.Configured.{configured}
use secure_litellm_on_azure.Params.Tables.{required_of}
use secure_litellm_on_azure.Params.Platform.{at}
use secure_litellm_on_azure.Runner.Connectivity.{TextHash}
use secure_litellm_on_azure.Params.Access.{
  Networks, admin_source_cidrs, front_door_private_link_location,
}
use secure_litellm_on_azure.Params.Access.Public.{Narrow, admin_source_cidrs-Narrow}
use secure_litellm_on_azure.Params.Component.{
  own_parameters, linked_origin, wrapped, document_of, texts_value, located, with_tags,
  edge_parameters, component_parameters, final_parameters, in_stage, document_for, parameters_for,
}

abbrev wrap : Option Json → Option Json
wrap none = none
wrap (some v) = some (obj (field "value" v end))

get-wrapped : (k : String) (p : Fields) → get k (wrapped p) ≡ wrap (get k p)
unfolding get wrapped
get-wrapped k end = refl
get-wrapped k (field j v rest) = ground (arith, get-wrapped k rest)

-- The value of one parameter in a parameter document.
abbrev pub parameter : String → Json → Result Json
parameter k document = at document ("parameters" ∷ k ∷ "value" ∷ [])

get-put_other :
    (k j : String) (v : Json) (d : Fields) → str_eq k j ≡ false → get j (put k v d) ≡ get j d
get-put_other k j v d h = get-put k j v d ∙ simp h

pub located-other :
    (config : Fields) (component k : String) (p : Fields) {q : Fields}
    → located config component p ≡ ok q
    → str_eq "location" k ≡ false
    → get k q ≡ get k p
unfolding located
located-other config component k p h other =
    branch_ok (elem component ("edge" ∷ "aks-ingress-role" ∷ [])) _ _ h
      (λ _ h1. ap (get k) (sym (ok_injective h1)))
      (λ _ h1. bind_ok (index (obj config) "location") _ h1 λ location e2 h2.
        ap (get k) (sym (ok_injective h2)) ∙ get-put_other "location" k location p other)

pub with_tags-other :
    (config : Fields) (component k : String) (p : Fields) {q : Fields}
    → with_tags config component p ≡ ok q
    → str_eq "tags" k ≡ false
    → get k q ≡ get k p
unfolding with_tags
with_tags-other config component k p h other =
    branch_ok (str_eq component "aks-ingress-role") _ _ h
      (λ _ h1. ap (get k) (sym (ok_injective h1)))
      (λ _ h1. bind_ok (index (obj config) "ownerEmail") _ h1 λ owner e2 h2.
        bind_ok (index (obj config) "environment") _ h2 λ environment e3 h3.
          ap (get k) (sym (ok_injective h3)) ∙ get-put_other "tags" k _ p other)

linked_origin-other :
    (name k : String) (p : Fields) {q : Fields}
    → linked_origin name p ≡ ok q
    → str_eq name k ≡ false
    → get k q ≡ get k p
unfolding linked_origin
linked_origin-other name k p h other = bind_ok (index (obj p) name) _ h λ origin e1 h1.
    bind_ok (index origin "privateLinkLocation") _ h1 λ location e2 h2.
      bind_ok (front_door_private_link_location location) _ h2 λ supported e3 h3.
        bind_ok (put_item "privateLinkLocation" supported origin) _ h3
          λ changed e4 h4. ap (get k) (sym (ok_injective h4)) ∙ get-put_other name k changed p other

record ClosedFields (networks : Networks) (p : Fields) : Type 0 where
  pub api_off : get "enableApiTraffic" p ≡ some (bool false)
  pub admin_off : get "enableAdminTraffic" p ≡ some (bool false)
  pub detection : get "wafMode" p ≡ some (str "Detection")
  pub sources : List String
  pub allowed : get "adminAllowedCidrs" p ≡ some (texts_value sources)
  pub narrow : All (Narrow networks) sources
  pub some_source : 1 ≤ length sources
  pub few : length sources ≤ 32

-- In the document the traffic of both planes is off, the firewall only detects, and the admin plane is
-- open to a nonempty list of narrow public networks.
pub record Closed (networks : Networks) (document : Json) : Type 0 where
  pub api_off : parameter "enableApiTraffic" document ≡ ok (bool false)
  pub admin_off : parameter "enableAdminTraffic" document ≡ ok (bool false)
  pub detection : parameter "wafMode" document ≡ ok (str "Detection")
  pub sources : List String
  pub allowed : parameter "adminAllowedCidrs" document ≡ ok (texts_value sources)
  pub narrow : All (Narrow networks) sources
  pub some_source : 1 ≤ length sources
  pub few : length sources ≤ 32

pub parameter-document :
    (k : String) (p : Fields) {v : Json} → get k p ≡ some v → parameter k (document_of p) ≡ ok v
unfolding at get document_of
parameter-document k p h =
    ap
      (λ (o : Option Json).
        elim o as (λ _. Result Json) [ none ↦ err (key_error k) | some w ↦ ok w ] >>= λ w.
        at w ("value" ∷ []))
      (get-wrapped k p ∙ ap wrap h)

module _ (networks : Networks) (hash : TextHash) where
  edge_parameters-ClosedFields :
      (config p : Fields) {q : Fields}
      → edge_parameters networks hash config p ≡ ok q
      → ClosedFields networks q
  unfolding edge_parameters
  edge_parameters-ClosedFields config p h =
      bind_ok (index (obj p) "adminAllowedCidrs") _ h λ allowed e1 h1.
        bind_ok (admin_source_cidrs networks allowed) _ h1 λ cidrs e2 h2.
          bind_ok (linked_origin "privateOrigin" (put "adminAllowedCidrs" (texts_value cidrs) p)) _
            h2
            λ one e3 h3. bind_ok (linked_origin "adminPrivateOrigin" one) _ h3 λ both e4 h4.
              bind_ok (index (obj config) "environment") _ h4 λ environment e5 h5.
                bind_ok (index (obj config) "baseDomain") _ h5 λ domain e6 h6.
                  let (narrow, some_source, few) = admin_source_cidrs-Narrow networks allowed e2 in
                  subst (ClosedFields networks) (ok_injective h6) (record {
                    api_off = simp get-put;
                    admin_off = simp get-put;
                    detection = simp get-put;
                    sources = cidrs;
                    allowed = simp (
                      get-put,
                      linked_origin-other "adminPrivateOrigin" "adminAllowedCidrs" one e4 refl,
                      linked_origin-other "privateOrigin" "adminAllowedCidrs"
                          (put "adminAllowedCidrs" (texts_value cidrs) p) e3 refl,
                    );
                    narrow = narrow;
                    some_source = some_source;
                    few = few;
                  })

  final_parameters-edge :
      (config : Fields) (stage : ℕ) {p : Fields}
      → final_parameters networks hash config stage "edge" ≡ ok p
      → ClosedFields networks p
  unfolding final_parameters component_parameters
  final_parameters-edge config stage h =
      bind_ok (own_parameters config stage "edge") _ h λ own e1 h1.
        require_ok (subset (required_of "edge") (keys own) && configured (obj own)) _ _ h1 λ _ h2.
          bind_ok (edge_parameters networks hash config own) _ h2 λ complete e3 h3.
            bind_ok (located config "edge" complete) _ h3 λ placed e4 h4.
              let c = edge_parameters-ClosedFields config own e3 in
              record {
                api_off = kept "enableApiTraffic" e4 h4 refl refl ∙ c.api_off;
                admin_off = kept "enableAdminTraffic" e4 h4 refl refl ∙ c.admin_off;
                detection = kept "wafMode" e4 h4 refl refl ∙ c.detection;
                sources = c.sources;
                allowed = kept "adminAllowedCidrs" e4 h4 refl refl ∙ c.allowed;
                narrow = c.narrow;
                some_source = c.some_source;
                few = c.few;
              }
    where
      kept :
          (k : String) {complete placed p : Fields}
          → located config "edge" complete ≡ ok placed
          → with_tags config "edge" placed ≡ ok p
          → str_eq "location" k ≡ false
          → str_eq "tags" k ≡ false
          → get k p ≡ get k complete
      kept k {complete} {placed} e h l t =
          with_tags-other config "edge" k placed h t ∙ located-other config "edge" k complete e l

  document_for-Closed :
      (config : Fields) (stage : ℕ) (c : Component) {path : String} {document : Json}
      → document_for networks hash config stage "edge" c ≡ ok (path, document)
      → Closed networks document
  unfolding document_for
  document_for-Closed config stage c h = require_ok (in_stage "edge" c.stage stage) _ _ h λ _ h1.
      bind_ok (final_parameters networks hash config stage "edge") _ h1 λ p e2 h2.
        let f = final_parameters-edge config stage e2 in
        subst (Closed networks) (ap (λ (r : String × Json). r.1) (ok_injective h2)) (record {
          api_off = parameter-document "enableApiTraffic" p f.api_off;
          admin_off = parameter-document "enableAdminTraffic" p f.admin_off;
          detection = parameter-document "wafMode" p f.detection;
          sources = f.sources;
          allowed = parameter-document "adminAllowedCidrs" p f.allowed;
          narrow = f.narrow;
          some_source = f.some_source;
          few = f.few;
        })

  -- If `parameters_for` gives a document for the component `edge`, whatever the customer configures:
  -- the traffic of both planes is off, the firewall is in detection mode, and the admin plane allows
  -- one to 32 public networks that are no broader than /24 for IPv4 or /64 for IPv6.
  pub parameters_for-Closed :
      (config : Fields) (stage : ℕ) {path : String} {document : Json}
      → parameters_for networks hash config stage "edge" ≡ ok (path, document)
      → Closed networks document
  parameters_for-Closed config stage h =
      let chosen = parameters_for-Chosen networks hash config stage "edge" h in
      document_for-Closed config stage chosen.component chosen.documented
