-- ===== src/Merge/Deep/Lookup.antt =====
-- What a merge leaves under each key.
use secure_litellm_on_azure.Base.{
  String, ◌≡◌, refl, ◌∙◌, ap, sym, false, Option, none, some, arith, eq_iff, eq_refl,
}
use secure_litellm_on_azure.Json.{
  Json, null, bool, int, float, str, arr, obj, Fields, end, field, get, has, put, Unique,
  UniqueFields,
}
use secure_litellm_on_azure.Json.Laws.{get-put, put-get, has-eq-get}
use secure_litellm_on_azure.Merge.Deep.{merge_fields, merged}

-- The value of a key after the merge: the addition's, merged into the one that was there.
abbrev pub get_merged : Option Json → Option Json → Option Json
get_merged old none = old
get_merged old (some v) = some (merged v old)

-- When a fragment that has no key twice is merged, a key that the fragment lacks keeps its value,
-- and any other gets the fragment's value, merged with the old one if both are dicts.
pub get-merge_fields :
    (j : String) (target addition : Fields)
    → UniqueFields addition
    → get j (merge_fields target addition) ≡ get_merged (get j target) (get j addition)
unfolding merge_fields get UniqueFields
get-merge_fields j target end u = refl
get-merge_fields j target (field k v rest) (new, uv, u) = ground (
  arith,
  get-merge_fields j (put k (merged v (get k target)) target) rest u,
  get-put k j (merged v (get k target)) target,
  eq_iff k j,
  has-eq-get k rest,
)

-- Every entry of `addition` is already in `target` as the merge would store it.
Absorbed : Fields → Fields → Type 0
Absorbed target end = Unit
Absorbed target (field k v rest) =
    (get k target ≡ some (merged v (get k target))) × Absorbed target rest

merge_fields-Absorbed :
    (target addition : Fields) → Absorbed target addition → merge_fields target addition ≡ target
unfolding merge_fields Absorbed
merge_fields-Absorbed target end a = refl
merge_fields-Absorbed target (field k v rest) (e, a) =
    rw (put-get k (merged v (get k target)) target e) (merge_fields-Absorbed target rest a)

-- `d` has every entry of the dict, as it stands there.
Agrees : Fields → Fields → Type 0
Agrees d end = Unit
Agrees d (field k v rest) = (get k d ≡ some v) × Agrees d rest

Agrees-cons :
    (k : String) (v : Json) (d s : Fields) → has k s ≡ false → Agrees d s → Agrees (field k v d) s
unfolding Agrees get has
Agrees-cons k v d end h a = tt
Agrees-cons k v d (field j w rest) h (e, a) =
    (ground (arith, eq_iff k j, eq_iff j k), Agrees-cons k v d rest (ground arith) a)

Agrees-refl : (d : Fields) → UniqueFields d → Agrees d d
unfolding Agrees get UniqueFields
Agrees-refl end u = tt
Agrees-refl (field k v rest) (new, uv, u) =
    (rw (eq_refl k), Agrees-cons k v rest rest new (Agrees-refl rest u))

mutual
  unfolding merge_fields UniqueFields Agrees Absorbed

  merged_self : (v : Json) → Unique v → merged v (some v) ≡ v
  merged_self null u = refl
  merged_self (bool b) u = refl
  merged_self (int z) u = refl
  merged_self (float m d) u = refl
  merged_self (str s) u = refl
  merged_self (arr xs) u = refl
  merged_self (obj d) u = ap obj (merge_fields-Absorbed d d (self-Absorbed d d (Agrees-refl d u) u))

  self-Absorbed : (d s : Fields) → Agrees d s → UniqueFields s → Absorbed d s
  self-Absorbed d end a u = tt
  self-Absorbed d (field k v rest) (e, a) (new, uv, u) =
      (e ∙ ap some (rw e (rw (merged_self v uv))), self-Absorbed d rest a u)

again_entry :
    (t d : Fields) (k : String) (v : Json)
    → get k d ≡ some v
    → UniqueFields d
    → merged v (some (merged v (get k t))) ≡ merged v (get k t)
    → get k (merge_fields t d) ≡ some (merged v (get k (merge_fields t d)))
again_entry t d k v e u idem =
    let found : get k (merge_fields t d) ≡ some (merged v (get k t)) =
      get-merge_fields k t d u ∙ rw e in
    rw found (ap some (sym idem))

mutual
  unfolding merge_fields UniqueFields Agrees Absorbed

  merged_idem : (v : Json) (o : Option Json) → Unique v → merged v (some (merged v o)) ≡ merged v o
  merged_idem null o u = refl
  merged_idem (bool b) o u = refl
  merged_idem (int z) o u = refl
  merged_idem (float m d) o u = refl
  merged_idem (str s) o u = refl
  merged_idem (arr xs) o u = refl
  merged_idem (obj d) (some (obj t)) u =
      ap obj
        (merge_fields-Absorbed (merge_fields t d) d (again-Absorbed t d d (Agrees-refl d u) u u))
  merged_idem (obj d) _ u = merged_self (obj d) u

  again-Absorbed :
      (t d s : Fields)
      → Agrees d s
      → UniqueFields d
      → UniqueFields s
      → Absorbed (merge_fields t d) s
  again-Absorbed t d end a ud us = tt
  again-Absorbed t d (field k v rest) (e, a) ud (new, uv, us) =
      (again_entry t d k v e ud (merged_idem v (get k t) uv), again-Absorbed t d rest a ud us)

-- Merging a fragment that has no key twice in a dict a second time changes nothing, not even the
-- order of the keys.
pub merge_fields_idem :
    (target addition : Fields)
    → UniqueFields addition
    → merge_fields (merge_fields target addition) addition ≡ merge_fields target addition
merge_fields_idem target addition u =
    merge_fields-Absorbed (merge_fields target addition) addition
      (again-Absorbed target addition addition (Agrees-refl addition u) u u)
