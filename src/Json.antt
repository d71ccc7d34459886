-- ===== src/Json.antt =====
-- JSON documents as Python holds them after `json.loads`: `dict`, `list`, `str`, `int`, `float`,
-- `bool` and `None`. A dict keeps its entries in insertion order.
pub mod Laws
pub mod Equality
use secure_litellm_on_azure.Base.{
  ℕ, zero, suc, ◌+◌, ◌*◌, ◌^◌, ◌≡◌, String, Bool, true, false, ◌&&◌, ◌||◌, not, Option, none, some,
  List, [], ◌∷◌, str_eq, ◌==◌, if◌then◌else◌,
}
use secure_litellm_on_azure.Base.Int.{ℤ, pos, negsuc, scaled_eq}

mutual
  pub data Json : Type 0 where
    null : Json
    bool : Bool → Json
    int : ℤ → Json
    -- a `float`, as its decimal literal: mantissa and number of decimals
    float : ℤ → ℕ → Json
    str : String → Json
    arr : Items → Json
    obj : Fields → Json

  pub data Items : Type 0 where
    nil : Items
    cons : Json → Items → Items

  pub data Fields : Type 0 where
    end : Fields
    field : String → Json → Fields → Fields

-- `d.get(k)`, with `none` where the key is missing
unfoldable pub get : String → Fields → Option Json
get k end = none
get k (field j v rest) = if str_eq j k then some v else get k rest

-- `k in d`
unfoldable pub has : String → Fields → Bool
has k end = false
has k (field j v rest) = str_eq j k || has k rest

-- `d[k] = v`: an existing key keeps its place, a new one is added at the end.
unfoldable pub put : String → Json → Fields → Fields
put k v end = field k v end
put k v (field j w rest) =
    let more = put k v rest in if str_eq j k then field j v rest else field j w more

-- `d.pop(k, None)`
unfoldable pub pop : String → Fields → Fields
pop k end = end
pop k (field j w rest) = let more = pop k rest in if str_eq j k then more else field j w more

-- `for k in ks: d.pop(k, None)`
unfoldable pub pop_all : List String → Fields → Fields
unfolding pop
pop_all [] d = d
pop_all (k ∷ ks) d = pop_all ks (pop k d)

-- `list(d)`
unfoldable pub keys : Fields → List String
keys end = []
keys (field k v rest) = k ∷ keys rest

unfoldable pub size : Fields → ℕ
size end = 0
size (field k v rest) = suc (size rest)

-- `d.update(e)`, which is also `{**d, **e}`
unfoldable pub update : Fields → Fields → Fields
unfolding put
update d end = d
update d (field k v rest) = update (put k v d) rest

unfoldable pub items : Items → List Json
items nil = []
items (cons x xs) = x ∷ items xs

unfoldable pub from_list : List Json → Items
from_list [] = nil
from_list (x ∷ xs) = cons x (from_list xs)

-- The value of a number, also of a `bool`, which Python counts as one.
unfoldable pub number : Json → Option (ℤ × ℕ)
number (bool true) = some (pos 1, 0)
number (bool false) = some (pos 0, 0)
number (int z) = some (z, 0)
number (float m d) = some (m, d)
number _ = none

number_eq : Option (ℤ × ℕ) → Option (ℤ × ℕ) → Bool
number_eq (some (x, a)) (some (y, b)) = scaled_eq (10 ^ b) x (10 ^ a) y
number_eq _ _ = false

-- `x == y`. Dicts are equal without regard to the order of their keys, and `1 == True`.
unfoldable mutual
  unfolding number number_eq get size

  pub json_eq : Json → Json → Bool
  json_eq null null = true
  json_eq (bool b) y = number_eq (number (bool b)) (number y)
  json_eq (int z) y = number_eq (number (int z)) (number y)
  json_eq (float m d) y = number_eq (number (float m d)) (number y)
  json_eq (str s) (str t) = str_eq s t
  json_eq (arr xs) (arr ys) = items_eq xs ys
  json_eq (obj d) (obj e) = (size d == size e) && fields_in d e
  json_eq _ _ = false

  pub items_eq : Items → Items → Bool
  items_eq nil nil = true
  items_eq (cons x xs) (cons y ys) = json_eq x y && items_eq xs ys
  items_eq _ _ = false

  pub fields_in : Fields → Fields → Bool
  fields_in end e = true
  fields_in (field k v rest) e =
      elim (get k e) [ none ↦ false | some w ↦ json_eq v w ] && fields_in rest e

-- `value is None`
unfoldable pub is_null : Json → Bool
is_null null = true
is_null _ = false

-- `bool(x)`
unfoldable pub truthy : Json → Bool
truthy null = false
truthy (bool b) = b
truthy (int (pos zero)) = false
truthy (int _) = true
truthy (float (pos zero) _) = false
truthy (float _ _) = true
truthy (str s) = not (str_eq s "")
truthy (arr nil) = false
truthy (arr _) = true
truthy (obj end) = false
truthy (obj _) = true

-- `x == "text"`
unfoldable pub is_text : String → Json → Bool
is_text s (str t) = str_eq t s
is_text s _ = false

-- The same test on what `d.get(k)` returns.
unfoldable pub holds_text : String → Option Json → Bool
unfolding is_text
holds_text s none = false
holds_text s (some v) = is_text s v

-- No dict of the document has a key twice; `json.loads` builds no other.
abbrev pub Fresh : String → Fields → Type 0
Fresh k d = has k d ≡ false

unfoldable mutual
  pub Unique : Json → Type 0
  Unique (obj d) = UniqueFields d
  Unique _ = Unit

  pub UniqueFields : Fields → Type 0
  UniqueFields end = Unit
  UniqueFields (field k v rest) = Fresh k rest × Unique v × UniqueFields rest
