-- ===== src/Merge/Deep.antt =====
-- `deep_merge`, `remove_keys` and `apply_section` of local_execution/merge_config.py. The source
-- changes the target dict in place; here each returns the changed dict.
pub mod Lookup
pub mod Values
use secure_litellm_on_azure.Base.{
  String, Bool, true, false, ◌&&◌, not, Option, none, some, List, [], ◌∷◌, str_eq, if◌then◌else◌,
}
use secure_litellm_on_azure.Json.{
  Json, null, bool, int, float, str, arr, obj, Items, nil, cons, Fields, end, field, get, has, put,
  pop_all,
}
use secure_litellm_on_azure.Fault.{
  Result, ok, err, Fault, migration_error, type_error, ◌>>=◌, ◌>>◌, require, index,
}

-- The loop of `deep_merge`, and what it stores for one key.
unfoldable mutual
  unfolding get put

  pub merge_fields : Fields → Fields → Fields
  merge_fields target end = target
  merge_fields target (field k v rest) = merge_fields (put k (merged v (get k target)) target) rest

  pub merged : Json → Option Json → Json
  merged (obj addition) (some (obj target)) = obj (merge_fields target addition)
  merged v _ = v

unfoldable pub deep_merge : Json → Json → Result Json
unfolding merge_fields
deep_merge (obj target) (obj addition) = ok (obj (merge_fields target addition))
deep_merge _ _ = err (migration_error "Configuration fragments must be JSON objects")

-- `isinstance(keys, list) and all(isinstance(key, str) and key for key in keys)`
unfoldable pub removal_keys : Items → Option (List String)
removal_keys nil = some []
removal_keys (cons (str k) xs) = elim (removal_keys xs) [
  | none ↦ none
  | some ks ↦ if str_eq k "" then none else some (k ∷ ks)
]
removal_keys (cons _ xs) = none

unfoldable pub remove_keys : Fields → Json → Result Fields
unfolding removal_keys pop_all
remove_keys target (arr xs) = elim (removal_keys xs) [
  | none ↦ err (migration_error "Fragment removal keys must be strings")
  | some ks ↦ ok (pop_all ks target)
]
remove_keys target _ = err (migration_error "Fragment removal keys must be strings")

-- `deep_merge(target[k], addition)`, stored back
unfoldable pub merge_into : String → Json → Fields → Result Fields
unfolding deep_merge put
merge_into k addition target = do
  inner ← index (obj target) k
  inner' ← deep_merge inner addition
  ok (put k inner' target)

unfoldable pub is_dict : Option Json → Bool
is_dict (some (obj _)) = true
is_dict _ = false

-- The three optional parts of a fragment, each applied if it is there.
unfoldable pub removed : Option Json → Fields → Result Fields
unfolding remove_keys
removed none config = ok config
removed (some ks) config = remove_keys config ks

unfoldable pub merged_config : Option Json → Fields → Result Fields
unfolding merge_fields
merged_config none config = ok config
merged_config (some (obj addition)) config = ok (merge_fields config addition)
merged_config (some _) config = err (migration_error "Configuration fragments must be JSON objects")

unfoldable pub merged_local : Option Json → Fields → Result Fields
unfolding is_dict merge_into get
merged_local none config = ok config
merged_local (some addition) config = do
  require (is_dict (get "localExecution" config)) "Base configuration requires localExecution"
  merge_into "localExecution" addition config

unfoldable pub apply_section : Fields → Json → Result Fields
unfolding removed merged_config merged_local get
apply_section config (obj section) = do
  c1 ← removed (get "removeCustomerConfigKeysBeforeMerge" section) config
  c2 ← merged_config (get "customerConfig" section) c1
  merged_local (get "localExecutionMerge" section) c2
apply_section config _ = err (migration_error "Selected catalog section must be an object")
