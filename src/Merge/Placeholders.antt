-- ===== src/Merge/Placeholders.antt =====
-- `PLACEHOLDER`, `replace_placeholders`, `unresolved_placeholders` of local_execution/merge_config.py.
pub mod Found
pub mod Tokens
use Prim.Native.String.{[], ◌∷◌}
use Prim.Native.Char.{code}
use secure_litellm_on_azure.Base.{
  ℕ, zero, suc, ◌-◌, String, Bool, true, false, ◌&&◌, ◌||◌, not, Option, none, some, List, ◌++◌,
  str_eq, elem, ltb, ◌==◌, if◌then◌else◌,
}
use mathlib.Core.List
use secure_litellm_on_azure.Base.Text.{
  starts, text_length, contains, replace, is_digit, is_upper, text_lt,
}
use secure_litellm_on_azure.Json.{
  Json, null, bool, int, float, str, arr, obj, Items, nil, cons, Fields, end, field,
}
use secure_litellm_on_azure.Fault.{Result, ok, err, migration_error, ◌>>=◌, ◌>>◌, require}

-- `[A-Z0-9_]`
abbrev is_name_char : ℕ → Bool
is_name_char c = is_upper c || is_digit c || (c == b'_')

-- The longest prefix of such characters.
unfoldable pub name_run : String → String
name_run [] = []
name_run (c ∷ s) = let rest = c ∷ name_run s in if is_name_char (code c) then rest else []

-- The text starts with the mark, and its run of name characters is longer than that.
unfoldable pub opens_token : String → String → Bool
unfolding name_run
opens_token mark s = starts s mark && ltb (text_length mark) (text_length (name_run s))

-- What `PLACEHOLDER` matches at the start of the text: `REPLACE_` and at least one more.
unfoldable pub token_at : String → Option String
unfolding opens_token
token_at s = if opens_token "REPLACE_" s then some (name_run s) else none

-- `PLACEHOLDER.findall(s)`; the number says how many characters of a match are left.
unfoldable pub tokens_from : ℕ → String → List String
unfolding token_at
tokens_from n [] = List.[]
tokens_from (suc n) (c ∷ s) = tokens_from n s
tokens_from zero (c ∷ s) = elim (token_at (c ∷ s)) [
  | none ↦ tokens_from zero s
  | some t ↦ List.◌∷◌ t (tokens_from (text_length t - 1) s)
]

-- `PLACEHOLDER.fullmatch(s)`
unfoldable pub is_placeholder : String → Bool
unfolding token_at
is_placeholder s = elim (token_at s) [ none ↦ false | some t ↦ str_eq t s ]

unfoldable pub all_text : Items → Bool
all_text nil = true
all_text (cons (str _) xs) = all_text xs
all_text (cons _ xs) = false

unfoldable pub is_list : Json → Bool
is_list (arr _) = true
is_list _ = false

-- The test on a list that replaces a whole string.
unfoldable pub good_list : Json → Bool
unfolding all_text
good_list (arr nil) = false
good_list (arr xs) = all_text xs
good_list _ = false

unfoldable pub replacement_text : Json → Result String
replacement_text (str r) = ok r
replacement_text _ = err (migration_error "Embedded placeholder replacement values must be strings")

-- The loop over `values` for one string; a list that stands for the whole string ends it.
unfoldable pub replace_text : String → Fields → Result Json
unfolding is_placeholder is_list good_list replacement_text replace
replace_text s end = ok (str s)
replace_text s (field p r rest) = do
  require (is_placeholder p) "Values keys must be complete REPLACE_* placeholders"
  let whole = do
    require (good_list r) "Array placeholder replacements must be nonempty string arrays"
    ok r
  let inside = replacement_text r >>= λ r'. replace_text (replace s p r') rest
  let absent = replace_text s rest
  if str_eq s p && is_list r then whole else if contains s p then inside else absent

unfoldable mutual
  unfolding replace_text

  pub replace_placeholders : Fields → Json → Result Json
  replace_placeholders values null = ok null
  replace_placeholders values (bool b) = ok (bool b)
  replace_placeholders values (int z) = ok (int z)
  replace_placeholders values (float m d) = ok (float m d)
  replace_placeholders values (str s) = replace_text s values
  replace_placeholders values (arr xs) = do xs' ← replace_items values xs; ok (arr xs')
  replace_placeholders values (obj d) = do d' ← replace_fields values d; ok (obj d')

  pub replace_items : Fields → Items → Result Items
  replace_items values nil = ok nil
  replace_items values (cons x xs) = do
    x' ← replace_placeholders values x
    xs' ← replace_items values xs
    ok (cons x' xs')

  pub replace_fields : Fields → Fields → Result Fields
  replace_fields values end = ok end
  replace_fields values (field k v rest) = do
    v' ← replace_placeholders values v
    rest' ← replace_fields values rest
    ok (field k v' rest')

-- Every placeholder token of the document, with repetitions and in the order of the walk.
unfoldable mutual
  unfolding tokens_from

  pub placeholder_tokens : Json → List String
  placeholder_tokens (str s) = tokens_from zero s
  placeholder_tokens (arr xs) = item_tokens xs
  placeholder_tokens (obj d) = field_tokens d
  placeholder_tokens _ = List.[]

  pub item_tokens : Items → List String
  item_tokens nil = List.[]
  item_tokens (cons x xs) = placeholder_tokens x ++ item_tokens xs

  pub field_tokens : Fields → List String
  field_tokens end = List.[]
  field_tokens (field k v rest) = placeholder_tokens v ++ field_tokens rest

-- `sorted` of the set that holds `s` beside the members of a sorted set.
unfoldable pub insert_sorted : String → List String → List String
insert_sorted s List.[] = List.◌∷◌ s List.[]
insert_sorted s (List.◌∷◌ t ts) =
    let more = List.◌∷◌ t (insert_sorted s ts) in
    if str_eq s t then List.◌∷◌ t ts else if text_lt s t then List.◌∷◌ s (List.◌∷◌ t ts) else more

unfoldable pub sorted_set : List String → List String
unfolding insert_sorted
sorted_set List.[] = List.[]
sorted_set (List.◌∷◌ s ss) = insert_sorted s (sorted_set ss)

-- `sorted(unresolved_placeholders(value))`
unfoldable pub unresolved_placeholders : Json → List String
unfolding placeholder_tokens sorted_set
unresolved_placeholders value = sorted_set (placeholder_tokens value)
