-- ===== src/Merge/Paths.antt =====
-- `changed_paths` of local_execution/merge_config.py.
pub mod Unchanged
use secure_litellm_on_azure.Base.{
  String, ◌<>◌, Bool, true, false, Option, none, some, List, [], ◌∷◌, ◌++◌, str_eq, if◌then◌else◌,
}
use secure_litellm_on_azure.Base.Text.{text_lt}
use secure_litellm_on_azure.Json.{Json, obj, Fields, end, field, get, has, json_eq}

-- `f"{prefix}.{key}" if prefix else key`
unfoldable pub child_path : String → String → String
child_path prefix key = if str_eq prefix "" then key else prefix <> "." <> key

-- The paths below each key, with the key that they are sorted by.
abbrev pub Changes : Type 0
Changes = List (String × List String)

unfoldable pub insert_by_key : String → List String → Changes → Changes
insert_by_key k paths [] = (k, paths) ∷ []
insert_by_key k paths ((j, more) ∷ rest) =
    let later = (j, more) ∷ insert_by_key k paths rest in
    if text_lt k j then (k, paths) ∷ (j, more) ∷ rest else later

unfoldable pub flatten : Changes → List String
flatten [] = []
flatten ((k, paths) ∷ rest) = paths ++ flatten rest

-- The keys that only the second dict has.
unfoldable pub added : String → Fields → Fields → Changes
unfolding has child_path
added prefix before end = []
added prefix before (field k v rest) =
    let more = added prefix before rest in
    if has k before then more else (k, child_path prefix k ∷ []) ∷ more

unfoldable pub sort_changes : Changes → Changes
unfolding insert_by_key
sort_changes [] = []
sort_changes ((k, paths) ∷ rest) = insert_by_key k paths (sort_changes rest)

abbrev leaf : Bool → String → List String
leaf true prefix = []
leaf false prefix = prefix ∷ []

-- The source walks the sorted union of the keys; the walk is over one dict and the result is sorted.
unfoldable mutual
  unfolding child_path sort_changes added flatten get json_eq

  pub changed_paths : Json → Json → String → List String
  changed_paths (obj before) (obj after) prefix =
      flatten (sort_changes (common before after prefix ++ added prefix before after))
  changed_paths before after prefix = leaf (json_eq before after) prefix

  pub common : Fields → Fields → String → Changes
  common end after prefix = []
  common (field k v rest) after prefix =
      (
        k,
        elim (get k after) [
          | none ↦ child_path prefix k ∷ []
          | some w ↦ changed_paths v w (child_path prefix k)
        ],
      )
      ∷ common rest after prefix
