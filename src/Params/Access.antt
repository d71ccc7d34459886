-- ===== src/Params/Access.antt =====
-- `admin_source_cidrs` and `front_door_private_link_location` of scripts/customer_migration.py.
pub mod Public
use secure_litellm_on_azure.Base.{
  ℕ, String, Bool, false, ◌&&◌, Option, none, some, List, [], ◌∷◌, length, elem, distinct, leb,
  ◌==◌, if◌then◌else◌,
}
use secure_litellm_on_azure.Base.Text.{contains, text_lt}
use secure_litellm_on_azure.Json.{Json, str, arr, Items, nil, cons, items}
use secure_litellm_on_azure.Fault.{Result, ok, err, type_error, ◌>>=◌, ◌>>◌, require}
use secure_litellm_on_azure.Params.Tables.{front_door_locations}

-- What `ipaddress.ip_network(text, strict=True)` returns, as far as the code looks.
pub record Network : Type 0 where
  pub version : ℕ
  pub prefix : ℕ
  pub is_global : Bool
  pub text : String

-- Python's address library: `none` stands for a `ValueError`.
pub record Networks : Type 0 where
  pub network : String → Option Network

-- `sorted(texts)`
unfoldable pub insert_text : String → List String → List String
insert_text s [] = s ∷ []
insert_text s (t ∷ ts) = let rest = insert_text s ts in if text_lt t s then t ∷ rest else s ∷ t ∷ ts

unfoldable pub sort_texts : List String → List String
unfolding insert_text
sort_texts [] = []
sort_texts (s ∷ ss) = insert_text s (sort_texts ss)

abbrev minimum_prefix : Network → ℕ
minimum_prefix n = if n.version == 4 then 24 else 64

module _ (networks : Networks) where
  -- One round of the loop.
  unfoldable pub source_network : Json → Result String
  source_network (str s) = do
    require (contains s "/") "Admin source entries must use explicit CIDR notation"
    elim (networks.network s) [
      | none ↦ (require false "Invalid Admin source CIDR" >> err type_error)
      | some n ↦
          (require (n.is_global && leb (minimum_prefix n) n.prefix)
              "Admin source CIDRs must be public and no broader than /24 IPv4 or /64 IPv6"
            >> ok n.text)
    ]
  source_network _ = do
    require false "Admin source entries must use explicit CIDR notation"
    err type_error

  unfoldable pub source_networks : Items → Result (List String)
  unfolding source_network
  source_networks nil = ok []
  source_networks (cons v rest) = do
    one ← source_network v
    others ← source_networks rest
    ok (one ∷ others)

  unfoldable pub admin_source_cidrs : Json → Result (List String)
  unfolding source_networks sort_texts items
  admin_source_cidrs (arr xs) = do
    require (leb 1 (length (items xs)) && leb (length (items xs)) 32)
        "Admin access requires one to 32 explicit public source CIDRs"
    texts ← source_networks xs
    require (distinct texts) "Admin source CIDRs must be unique"
    ok (sort_texts texts)
  admin_source_cidrs _ = do
    require false "Admin access requires one to 32 explicit public source CIDRs"
    err type_error

unfoldable pub front_door_private_link_location : Json → Result Json
front_door_private_link_location (str s) = do
  require (elem s front_door_locations) "Azure Front Door Private Link location is unsupported"
  ok (str s)
front_door_private_link_location _ = do
  require false "Azure Front Door Private Link location is unsupported"
  err type_error
