-- ===== src/Models/Catalog/Identities.antt =====
-- No resource occurs twice in a catalog.
use mathlib.Core.List.{append_assoc, append-nil, map-append}
use secure_litellm_on_azure.Base.{
  ◌≡◌, refl, sym, ◌∙◌, ap, subst, String, Bool, true, false, ◌&&◌, not, Option, none, some, List,
  [], ◌∷◌, ◌++◌, elem, any, elem-append, distinct, same_set, eq_iff, map, arith,
}
use secure_litellm_on_azure.Base.Text.{lower}
use secure_litellm_on_azure.Json.{
  Json, str, arr, obj, Items, nil, cons, Fields, end, field, get, has, put, keys, from_list,
}
use secure_litellm_on_azure.Json.Laws.{get-put}
use secure_litellm_on_azure.Fault.{ok, index, bind_ok, require_ok, ok_injective}
use secure_litellm_on_azure.Models.Endpoint.{Urls, normalize_openai_endpoint}
use secure_litellm_on_azure.Models.Catalog.{
  is_account_name, is_group_name, plain, subscription_uuid, account_id, has_fields, resource_fields,
  two_of, nonempty_list, parse_models, with_endpoint, parse_resource, parse_resources,
  subscription_fields, parse_subscriptions, legacy_fields, is_one, check_fallback, parse_catalog,
}

-- The resource ID of an account, in lower case.
unfoldable pub account_key : Json → String
unfolding get
account_key (obj d) = elim (get "accountResourceId" d) [ some (str s) ↦ lower s | _ ↦ "" ]
account_key _ = ""

distinct-snoc :
    (xs : List String) (x : String)
    → distinct xs ≡ true
    → elem x xs ≡ false
    → distinct (xs ++ x ∷ []) ≡ true
distinct-snoc [] x h k = refl
distinct-snoc (y ∷ xs) x h k =
    ground (arith, distinct-snoc xs x, elem-append y xs (x ∷ []), eq_iff x y, eq_iff y x)

-- The new identities are distinct from each other and from those seen before.
abbrev Extends : List String → List Json → List String → Type 0
Extends seen accounts after = (distinct after ≡ true) × (after ≡ seen ++ map account_key accounts)

key_of :
    (d e : Fields)
    → get "accountResourceId" d ≡ get "accountResourceId" e
    → account_key (obj d) ≡ account_key (obj e)
unfolding account_key
key_of d e h =
    ap (λ (o : Option Json). elim o as (λ _. String) [ some (str s) ↦ lower s | _ ↦ "" ]) h

module _ (urls : Urls) where
  with_endpoint-key :
      (o : Option Json) (account : Fields) {result : Fields}
      → with_endpoint urls o account ≡ ok result
      → account_key (obj result) ≡ account_key (obj account)
  unfolding with_endpoint account_key
  with_endpoint-key none account h = ap (λ d. account_key (obj d)) (sym (ok_injective h))
  with_endpoint-key (some v) account h =
      bind_ok (normalize_openai_endpoint urls v) _ h λ endpoint e h1.
        ap (λ d. account_key (obj d)) (sym (ok_injective h1))
        ∙ key_of (put "expectedEndpoint" (str endpoint) account) account
            (get-put "expectedEndpoint" "accountResourceId" (str endpoint) account)

  parse_resource-key :
      (fallback : Option Json) (subscription : String) (seen : List String) (resource : Fields)
      {parsed : Json × String}
      → parse_resource urls fallback subscription seen resource ≡ ok parsed
      → (elem parsed.1 seen ≡ false) × (account_key parsed.0 ≡ parsed.1)
  unfolding parse_resource
  parse_resource-key fallback subscription seen resource {parsed} h =
      require_ok (not (has "account_name" resource)) _ _ h λ _ h1.
        require_ok
          (has_fields (List.◌∷◌ "models" (two_of "resource_group" "name")) resource_fields resource)
          _ _ h1
          λ _ h2. bind_ok (index (obj resource) "name") _ h2 λ name_value e3 h3.
            bind_ok (plain is_account_name name_value) _ h3 λ name e4 h4.
              bind_ok (index (obj resource) "resource_group") _ h4 λ group_value e5 h5.
                bind_ok (plain is_group_name group_value) _ h5 λ group e6 h6.
                  let identity : String = account_id subscription group (lower name) in
                  require_ok (not (elem (lower identity) seen)) _ _ h6 λ new h7.
                    bind_ok (index (obj resource) "models") _ h7 λ models_value e8 h8.
                      bind_ok
                        (nonempty_list "Each resource must explicitly map at least one model"
                          models_value)
                        _ h8
                        λ models e9 h9.
                          bind_ok (parse_models fallback [] models) _ h9 λ targets e10 h10.
                            let plain_account : Fields = field "accountResourceId" (str identity) (
                              field "accountName" (str (lower name)) (
                                field "subscriptionId" (str subscription) (
                                  field "resourceGroupName" (str group)
                                    (field "models" (arr (from_list targets)) end)))) in
                            bind_ok (with_endpoint urls (get "endpoint" resource) plain_account) _
                              h10
                              λ account e11 h11.
                                let key : account_key (obj account) ≡ lower identity =
                                  with_endpoint-key (get "endpoint" resource) plain_account e11
                                  ∙ unfold account_key get in refl in
                                subst
                                  (λ (p : Json × String).
                                    (elem p.1 seen ≡ false) × (account_key p.0 ≡ p.1))
                                  (ok_injective h11) (off new, key)
    where
      off : {b : Bool} → not b ≡ true → b ≡ false
      off h = ground arith

  parse_resources-Extends :
      (fallback : Option Json) (subscription : String) (seen : List String) (resources : Items)
      {parsed : List Json × List String}
      → distinct seen ≡ true
      → parse_resources urls fallback subscription seen resources ≡ ok parsed
      → Extends seen parsed.0 parsed.1
  unfolding parse_resources
  parse_resources-Extends fallback subscription seen nil d h =
      subst (λ (p : List Json × List String). Extends seen p.0 p.1) (ok_injective h)
        (d, sym (append-nil seen))
  parse_resources-Extends fallback subscription seen (cons (obj resource) rest) {parsed} d h =
      bind_ok (parse_resource urls fallback subscription seen resource) _ h λ one e1 h1.
        bind_ok (parse_resources urls fallback subscription (seen ++ one.1 ∷ []) rest) _ h1
          λ later e2 h2.
            let (new, key) = parse_resource-key fallback subscription seen resource e1 in
            let (later_distinct, later_seen) =
              parse_resources-Extends fallback subscription (seen ++ one.1 ∷ []) rest
                (distinct-snoc seen one.1 d new) e2 in
            subst (λ (p : List Json × List String). Extends seen p.0 p.1) (ok_injective h2)
              (
                later_distinct,
                later_seen
                    ∙ append_assoc seen (one.1 ∷ []) (map account_key later.0)
                    ∙ ap (λ k. seen ++ k ∷ map account_key later.0) (sym key),
              )
  parse_resources-Extends fallback subscription seen (cons _ rest) d h = absurd (cc h)

  parse_subscriptions-Extends :
      (fallback : Option Json) (ids seen : List String) (subscriptions : Items)
      {parsed : List Json × List String}
      → distinct seen ≡ true
      → parse_subscriptions urls fallback ids seen subscriptions ≡ ok parsed
      → Extends seen parsed.0 parsed.1
  unfolding parse_subscriptions
  parse_subscriptions-Extends fallback ids seen nil d h =
      subst (λ (p : List Json × List String). Extends seen p.0 p.1) (ok_injective h)
        (d, sym (append-nil seen))
  parse_subscriptions-Extends fallback ids seen (cons (obj subscription) rest) {parsed} d h =
      require_ok (same_set (keys subscription) (subscription_fields)) _ _ h λ _ h1.
        bind_ok (index (obj subscription) "subscription_id") _ h1 λ id_value e2 h2.
          bind_ok (subscription_uuid id_value) _ h2 λ id e3 h3.
            require_ok (not (elem id ids)) _ _ h3 λ _ h4.
              bind_ok (index (obj subscription) "resources") _ h4 λ resources_value e5 h5.
                bind_ok (nonempty_list "Subscription resources must be nonempty" resources_value) _
                  h5
                  λ resources e6 h6.
                    bind_ok (parse_resources urls fallback id seen resources) _ h6 λ one e7 h7.
                      bind_ok (parse_subscriptions urls fallback (id ∷ ids) one.1 rest) _ h7
                        λ later e8 h8.
                          let (one_distinct, one_seen) =
                            parse_resources-Extends fallback id seen resources d e7 in
                          let (later_distinct, later_seen) =
                            parse_subscriptions-Extends fallback (id ∷ ids) one.1 rest one_distinct
                              e8 in
                          subst (λ (p : List Json × List String). Extends seen p.0 p.1)
                            (ok_injective h8)
                            (
                              later_distinct,
                              later_seen
                                  ∙ ap (λ s. s ++ map account_key later.0) one_seen
                                  ∙ append_assoc seen (map account_key one.0)
                                      (map account_key later.0)
                                  ∙ ap (λ s. seen ++ s)
                                      (sym (map-append account_key one.0 later.0)),
                            )
  parse_subscriptions-Extends fallback ids seen (cons _ rest) d h = absurd (cc h)

  -- In a catalog that `parse_catalog` accepts no two accounts have the same resource ID, letters in
  -- upper and lower case taken as the same.
  pub parse_catalog-distinct :
      (document : Fields) (fallback : Option Json) {accounts : List Json}
      → parse_catalog urls (obj document) fallback ≡ ok accounts
      → distinct (map account_key accounts) ≡ true
  unfolding parse_catalog
  parse_catalog-distinct document fallback h =
      require_ok (not (any (λ k. has k document) (legacy_fields))) _ _ h λ _ h1.
        require_ok
          (same_set (keys document) (two_of "schema_version" "subscriptions")
            && is_one (get "schema_version" document))
          _ _ h1
          λ _ h2. bind_ok (check_fallback fallback) _ h2 λ _ e3 h3.
            bind_ok (index (obj document) "subscriptions") _ h3 λ value e4 h4.
              bind_ok (nonempty_list "Catalog requires nonempty subscriptions" value) _ h4
                λ subscriptions e5 h5.
                  bind_ok (parse_subscriptions urls fallback [] [] subscriptions) _ h5
                    λ parsed e6 h6.
                      let (d, seen) =
                        parse_subscriptions-Extends fallback [] [] subscriptions refl e6 in
                      subst (λ accounts. distinct (map account_key accounts) ≡ true)
                        (ok_injective h6) (ap distinct (sym seen) ∙ d)
