-- ===== src/Merge/Deep/Values.antt =====
-- What a deep merge leaves at the end of each path of keys.
use secure_litellm_on_azure.Base.{
  String, ◌≡◌, refl, sym, ◌∙◌, ap, subst, Option, none, some, List, [], ◌∷◌,
}
use secure_litellm_on_azure.Json.{
  Json, null, bool, int, float, str, arr, obj, Fields, get, Unique, UniqueFields,
}
use secure_litellm_on_azure.Json.Laws.{Unique-get}
use secure_litellm_on_azure.Fault.{ok}
use secure_litellm_on_azure.Merge.Deep.{merge_fields, merged, deep_merge}
use secure_litellm_on_azure.Merge.Deep.Lookup.{get-merge_fields, get_merged}

-- How far a document has the keys of a path: it lacks one of them, or a value that is no dict
-- stands before the end, or it has a value at the end.
pub data Reached : Type 0 where
  missing : Reached
  blocked : Reached
  found : Json → Reached

unfoldable pub walk : List String → Json → Reached
unfolding get
walk [] v = found v
walk (k ∷ path) (obj d) = elim (get k d) [ none ↦ missing | some v ↦ walk path v ]
walk (k ∷ path) _ = blocked

abbrev value_of : Reached → Option Json
value_of missing = none
value_of blocked = none
value_of (found v) = some v

abbrev pub value_at : List String → Json → Option Json
value_at path v = value_of (walk path v)

-- What stands at the end of a path after a merge, from what the addition has there: the old value
-- if the addition lacks a key, nothing if the addition ends before, a dict if the addition has one,
-- and otherwise the addition's value.
abbrev pub Rule : Reached → Option Json → Option Json → Type 0
Rule missing old now = now ≡ old
Rule blocked old now = now ≡ none
Rule (found (obj d)) old now = (e : Fields) × (now ≡ some (obj e))
Rule (found v) old now = now ≡ some v

abbrev old_at : List String → Option Json → Option Json
old_at path none = none
old_at path (some v) = value_at path v

Rule-found : (v : Json) (old : Option Json) → Rule (found v) old (some v)
Rule-found (obj d) old = (d, refl)
Rule-found null old = refl
Rule-found (bool b) old = refl
Rule-found (int z) old = refl
Rule-found (float m d) old = refl
Rule-found (str s) old = refl
Rule-found (arr xs) old = refl

-- Where there was nothing, the addition stands as it is.
Rule-new : (path : List String) (v : Json) → Rule (walk path v) none (value_at path v)
Rule-new path v = go (walk path v)
  where
    go : (r : Reached) → Rule r none (value_of r)
    go missing = refl
    go blocked = refl
    go (found w) = Rule-found w none

value_at-step :
    (k : String) (path : List String) (d : Fields)
    → value_at (k ∷ path) (obj d) ≡ old_at path (get k d)
unfolding walk
value_at-step k path d = go (get k d)
  where
    go :
        (o : Option Json)
        → value_of (elim o as (λ _. Reached) [ none ↦ missing | some v ↦ walk path v ])
          ≡ old_at path o
    go none = refl
    go (some v) = refl

value_at-merged :
    (path : List String) (v : Json) (o : Option Json)
    → Unique v
    → Rule (walk path v) (old_at path o) (value_at path (merged v o))
unfolding walk merged Unique
value_at-merged [] (obj a) (some (obj t)) u = (merge_fields t a, refl)
value_at-merged [] (obj a) _ u = (a, refl)
value_at-merged [] null o u = refl
value_at-merged [] (bool b) o u = refl
value_at-merged [] (int z) o u = refl
value_at-merged [] (float m d) o u = refl
value_at-merged [] (str s) o u = refl
value_at-merged [] (arr xs) o u = refl
value_at-merged (k ∷ path) (obj a) (some (obj t)) u =
    subst (λ now. Rule (walk (k ∷ path) (obj a)) (value_at (k ∷ path) (obj t)) now)
      (sym (value_at-step k path (merge_fields t a) ∙ ap (old_at path) (get-merge_fields k t a u)))
      (subst
        (λ old. Rule (walk (k ∷ path) (obj a)) old (old_at path (get_merged (get k t) (get k a))))
        (sym (value_at-step k path t))
        (split (get k a) (λ w e. value_at-merged path w (get k t) (Unique-get k a w u e))))
  where
    split :
        (o : Option Json)
        → ((w : Json)
            → o ≡ some w
            → Rule (walk path w) (old_at path (get k t)) (value_at path (merged w (get k t))))
        → Rule
            (elim o as (λ _. Reached) [ none ↦ missing | some v ↦ walk path v ])
            (old_at path (get k t))
            (old_at path (get_merged (get k t) o))
    split none below = refl
    split (some w) below = below w refl
value_at-merged (k ∷ path) (obj a) _ u = Rule-new (k ∷ path) (obj a)
value_at-merged (k ∷ path) _ o u = refl

-- Merging a fragment that has no key twice in a dict gives a dict. At each path of keys it holds the
-- old value if the fragment lacks a key of the path, nothing if a value that is no dict stands in the
-- fragment before the end of the path, a dict if the fragment has a dict at the end, and the
-- fragment's value if that is no dict.
pub value_at-deep_merge :
    (path : List String) (target addition : Fields)
    → UniqueFields addition
    → (result : Fields) × (deep_merge (obj target) (obj addition) ≡ ok (obj result))
      × Rule (walk path (obj addition)) (value_at path (obj target)) (value_at path (obj result))
unfolding deep_merge merged Unique
value_at-deep_merge path target addition u =
    (merge_fields target addition, refl, value_at-merged path (obj addition) (some (obj target)) u)
