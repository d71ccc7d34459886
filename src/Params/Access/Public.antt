-- ===== src/Params/Access/Public.antt =====
-- What an accepted list of admin sources consists of.
use secure_litellm_on_azure.Base.{
  ◌≤◌, String, ◌≡◌, refl, sym, ◌∙◌, ap, subst, Bool, true, false, ◌&&◌, &&-true, Option, none, some,
  List, [], ◌∷◌, All, length, distinct, leb, ◌==◌, if◌then◌else◌, arith, suc,
}
use secure_litellm_on_azure.Base.Text.{contains, text_lt}
use secure_litellm_on_azure.Json.{Json, str, arr, Items, nil, cons, items}
use secure_litellm_on_azure.Fault.{
  Result, ok, err, type_error, ◌>>◌, require, bind_ok, require_ok, ok_injective,
}
use secure_litellm_on_azure.Params.Access.{
  Network, Networks, insert_text, sort_texts, source_network, source_networks, admin_source_cidrs,
}

-- The text names a public network that is at most as broad as /24 (IPv4) or /64 (IPv6).
pub record Narrow (networks : Networks) (text : String) : Type 0 where
  pub source : String
  pub network : Network
  pub read : networks.network source ≡ some network
  pub is_public : network.is_global ≡ true
  pub narrow : leb (if network.version == 4 then 24 else 64) network.prefix ≡ true
  pub same : text ≡ network.text

All-insert_text :
    (P : String → Type 0) (s : String) (ts : List String)
    → P s
    → All P ts
    → All P (insert_text s ts)
unfolding insert_text
All-insert_text P s [] p ps = (p, tt)
All-insert_text P s (t ∷ ts) p (q, qs) =
    either _ _ (text_lt t s) (q, All-insert_text P s ts p qs) (p, (q, qs))
  where
    either : (xs ys : List String) (b : Bool) → All P xs → All P ys → All P (if b then xs else ys)
    either xs ys true m n = m
    either xs ys false m n = n

All-sort_texts : (P : String → Type 0) (ts : List String) → All P ts → All P (sort_texts ts)
unfolding sort_texts
All-sort_texts P [] ps = tt
All-sort_texts P (t ∷ ts) (p, ps) = All-insert_text P t (sort_texts ts) p (All-sort_texts P ts ps)

length-insert_text : (s : String) (ts : List String) → length (insert_text s ts) ≡ suc (length ts)
unfolding insert_text
length-insert_text s [] = refl
length-insert_text s (t ∷ ts) = ground (arith, length-insert_text s ts)

length-sort_texts : (ts : List String) → length (sort_texts ts) ≡ length ts
unfolding sort_texts
length-sort_texts [] = refl
length-sort_texts (t ∷ ts) = length-insert_text t (sort_texts ts) ∙ ap suc (length-sort_texts ts)

module _ (networks : Networks) where
  source_network-Narrow :
      (v : Json) {text : String} → source_network networks v ≡ ok text → Narrow networks text
  unfolding source_network
  source_network-Narrow (str s) h =
      require_ok (contains s "/") _ _ h λ _ h1. go (networks.network s) refl h1
    where
      go :
          (o : Option Network)
          → networks.network s ≡ o
          → {text : String}
          → elim o as (λ _. Result String) [
            | none ↦ (require false "Invalid Admin source CIDR" >> err type_error)
            | some n ↦
                (require
                    (n.is_global && leb (if n.version == 4 then 24 else 64) n.prefix)
                    "Admin source CIDRs must be public and no broader than /24 IPv4 or /64 IPv6"
                  >> ok n.text)
          ]
            ≡ ok text
          → Narrow networks text
      go none e h = absurd (cc h)
      go (some n) e h =
          require_ok (n.is_global && leb (if n.version == 4 then 24 else 64) n.prefix) _ _ h λ c h1.
            record {
              source = s;
              network = n;
              read = e;
              is_public = (&&-true c).0;
              narrow = (&&-true c).1;
              same = sym (ok_injective h1);
            }
  source_network-Narrow _ h = absurd (cc h)

  source_networks-Narrow :
      (vs : Items) {texts : List String}
      → source_networks networks vs ≡ ok texts
      → All (Narrow networks) texts × (length texts ≡ length (items vs))
  unfolding source_networks items
  source_networks-Narrow nil h =
      subst (λ texts. All (Narrow networks) texts × (length texts ≡ 0)) (ok_injective h) (tt, refl)
  source_networks-Narrow (cons v rest) h = bind_ok (source_network networks v) _ h λ one e1 h1.
      bind_ok (source_networks networks rest) _ h1 λ others e2 h2.
        let (narrow, counted) = source_networks-Narrow rest e2 in
        subst (λ texts. All (Narrow networks) texts × (length texts ≡ suc (length (items rest))))
          (ok_injective h2) ((source_network-Narrow v e1, narrow), ap suc counted)

  -- If a list of admin sources is accepted, the result has one to 32 entries, each the text of a public
  -- network that is no broader than /24 for IPv4 or /64 for IPv6.
  pub admin_source_cidrs-Narrow :
      (value : Json) {texts : List String}
      → admin_source_cidrs networks value ≡ ok texts
      → All (Narrow networks) texts × (1 ≤ length texts) × (length texts ≤ 32)
  unfolding admin_source_cidrs
  admin_source_cidrs-Narrow (arr xs) {texts} h =
      require_ok (leb 1 (length (items xs)) && leb (length (items xs)) 32) _ _ h λ bounds h1.
        bind_ok (source_networks networks xs) _ h1 λ found e2 h2.
          require_ok (distinct found) _ _ h2 λ _ h3.
            let (narrow, counted) = source_networks-Narrow xs e2 in
            subst (λ texts. All (Narrow networks) texts × (1 ≤ length texts) × (length texts ≤ 32))
              (ok_injective h3)
              (
                All-sort_texts (Narrow networks) found narrow,
                ground (arith, length-sort_texts found),
                ground (arith, length-sort_texts found),
              )
  admin_source_cidrs-Narrow _ h = absurd (cc h)
