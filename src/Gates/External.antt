-- ===== src/Gates/External.antt =====
-- What the gates take from outside: the hash of a document, the reading of a time stamp and of a
-- URL, and what `fingerprint` and `stage_fingerprint` make of the hash.
use secure_litellm_on_azure.Base.{ℕ, String, Option, if◌then◌else◌}
use secure_litellm_on_azure.Base.Text.{text_lt}
use secure_litellm_on_azure.Json.{Json, arr, obj, Items, nil, cons, Fields, end, field}
use secure_litellm_on_azure.Fault.{Result, ok, ◌>>=◌}
use secure_litellm_on_azure.Gates.Scope.{stage_scope}

-- What `datetime.fromisoformat` returns: an aware time, in seconds, or one without a zone.
pub data Timestamp : Type 0 where
  aware : ℕ → Timestamp
  naive : Timestamp

-- What `urlsplit` returns, as far as the code looks; a missing part is the empty text.
pub record UrlParts : Type 0 where
  pub scheme : String
  pub hostname : String
  pub username : String
  pub password : String
  pub query : String

pub record External : Type 0 where
  -- `hashlib.sha256(json.dumps(value, separators=(",", ":")).encode()).hexdigest()`
  pub digest : Json → String
  -- `datetime.fromisoformat(text.replace("Z", "+00:00"))`, `none` for a `ValueError`
  pub read_time : String → Option Timestamp
  -- `urlsplit(text)`, `none` for a `ValueError`
  pub split_url : String → Option UrlParts

unfoldable pub insert_field : String → Json → Fields → Fields
insert_field k v end = field k v end
insert_field k v (field j w rest) =
    let later = field j w (insert_field k v rest) in
    if text_lt k j then field k v (field j w rest) else later

-- `sort_keys=True`, at every depth
unfoldable mutual
  unfolding insert_field

  pub sort_keys : Json → Json
  sort_keys (arr xs) = arr (sort_items xs)
  sort_keys (obj d) = obj (sort_fields d)
  sort_keys v = v

  pub sort_items : Items → Items
  sort_items nil = nil
  sort_items (cons x xs) = cons (sort_keys x) (sort_items xs)

  pub sort_fields : Fields → Fields
  sort_fields end = end
  sort_fields (field k v rest) = insert_field k (sort_keys v) (sort_fields rest)

module _ (x : External) where
  unfoldable pub fingerprint : Json → String
  unfolding sort_keys
  fingerprint value = x.digest (sort_keys value)

  unfoldable pub stage_fingerprint : ℕ → Fields → Result String
  unfolding fingerprint stage_scope
  stage_fingerprint stage config = do
    scoped ← stage_scope stage config
    ok (fingerprint (obj scoped))
