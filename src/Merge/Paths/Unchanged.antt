-- ===== src/Merge/Paths/Unchanged.antt =====
-- The report of changed paths is empty exactly when nothing changed.
use secure_litellm_on_azure.Base.{
  String, ◌≡◌, refl, ◌∙◌, ap, sym, ◌↔◌, Bool, true, false, ◌&&◌, List, [], ◌∷◌, ◌++◌, arith, eq_iff,
  eq_refl, ◌==◌, Bool-cases, Option-cases, inl, inr,
}
use secure_litellm_on_azure.Json.{
  Json, obj, Fields, end, field, get, has, size, json_eq, fields_in, Unique, UniqueFields,
}
use secure_litellm_on_azure.Json.Laws.{has-eq-get, Unique-get}
use secure_litellm_on_azure.Json.Equality.{KeysIn, size-le, KeysIn-of_size}
use secure_litellm_on_azure.Merge.Paths.{
  Changes, child_path, insert_by_key, sort_changes, flatten, added, changed_paths, common, leaf,
}

abbrev is_nil {ℓ} : {A : Type ℓ} → List A → Bool
is_nil [] = true
is_nil (x ∷ xs) = false

-- No key has a path.
quiet : Changes → Bool
quiet [] = true
quiet ((k, paths) ∷ rest) = is_nil paths && quiet rest

nil_of_is_nil : (xs : List String) → is_nil xs ≡ true → xs ≡ []
nil_of_is_nil [] h = refl
nil_of_is_nil (x ∷ xs) h = cc

is_nil-append : (xs ys : List String) → is_nil (xs ++ ys) ≡ (is_nil xs && is_nil ys)
is_nil-append [] ys = refl
is_nil-append (x ∷ xs) ys = refl

is_nil-flatten : (cs : Changes) → is_nil (flatten cs) ≡ quiet cs
unfolding flatten quiet
is_nil-flatten [] = refl
is_nil-flatten ((k, paths) ∷ rest) =
    ground (arith, is_nil-append paths (flatten rest), is_nil-flatten rest)

quiet-insert_by_key :
    (k : String) (paths : List String) (cs : Changes)
    → quiet (insert_by_key k paths cs) ≡ (is_nil paths && quiet cs)
unfolding insert_by_key quiet
quiet-insert_by_key k paths [] = refl
quiet-insert_by_key k paths ((j, more) ∷ rest) = ground (arith, quiet-insert_by_key k paths rest)

quiet-sort_changes : (cs : Changes) → quiet (sort_changes cs) ≡ quiet cs
unfolding sort_changes quiet
quiet-sort_changes [] = refl
quiet-sort_changes ((k, paths) ∷ rest) =
    quiet-insert_by_key k paths (sort_changes rest) ∙ ground (arith, quiet-sort_changes rest)

quiet-append : (xs ys : Changes) → quiet (xs ++ ys) ≡ (quiet xs && quiet ys)
unfolding quiet
quiet-append [] ys = refl
quiet-append ((k, paths) ∷ rest) ys = ground (arith, quiet-append rest ys)

-- Every key of the first dict is a key of the second.
all_in : Fields → Fields → Bool
all_in end d = true
all_in (field k v rest) d = has k d && all_in rest d

has-all_in : (e d : Fields) (j : String) → all_in e d ≡ true → has j e ≡ true → has j d ≡ true
unfolding all_in has
has-all_in end d j h m = ground arith
has-all_in (field k v rest) d j h m = ground (arith, eq_iff k j, has-all_in rest d j)

KeysIn→all_in : (e d : Fields) → KeysIn e d → all_in e d ≡ true
unfolding all_in has
KeysIn→all_in end d h = refl
KeysIn→all_in (field k v rest) d h =
    ground (arith, h k (rw (eq_refl k)), KeysIn→all_in rest d (λ j m. h j (ground arith)))

quiet-added : (prefix : String) (d e : Fields) → quiet (added prefix d e) ≡ all_in e d
unfolding added quiet all_in
quiet-added prefix d end = refl
quiet-added prefix d (field k v rest) = ground (arith, quiet-added prefix d rest)

has-fields_in : (d e : Fields) (j : String) → fields_in d e ≡ true → has j d ≡ true → has j e ≡ true
unfolding json_eq has
has-fields_in end e j h m = ground arith
has-fields_in (field k v rest) e j h m =
    ground (arith, eq_iff k j, has-eq-get k e, has-fields_in rest e j)

-- The size test of `==` says that no key is added.
size_test :
    (d e : Fields)
    → UniqueFields d
    → UniqueFields e
    → fields_in d e ≡ true
    → (size d == size e) ≡ all_in e d
size_test d e ud ue h = elim (Bool-cases (all_in e d)) [
  | inl all ↦ rw all (
      ground (
        arith,
        size-le d e ud ue (λ j. has-fields_in d e j h),
        size-le e d ue ud (λ j. has-all_in e d j all),
      ))
  | inr some_added ↦ elim (Bool-cases (size d == size e)) [
    | inl same ↦
        (same
          ∙ sym (
              KeysIn→all_in e d
                (KeysIn-of_size d e ud ue (λ j. has-fields_in d e j h) (ground arith))))
    | inr other ↦ other ∙ sym some_added
  ]
]

json_eq-obj : (d e : Fields) → json_eq (obj d) (obj e) ≡ ((size d == size e) && fields_in d e)
unfolding json_eq
json_eq-obj d e = refl

and_swap : (a b c : Bool) → (a ≡ true → b ≡ c) → (a && c) ≡ (b && a)
and_swap true true c h = sym (h refl)
and_swap true false c h = sym (h refl)
and_swap false true c h = refl
and_swap false false c h = refl

is_nil-leaf : (b : Bool) (prefix : String) → is_nil (leaf b prefix) ≡ b
is_nil-leaf true prefix = refl
is_nil-leaf false prefix = refl

is_nil-obj :
    (d e : Fields) (prefix : String)
    → UniqueFields d
    → UniqueFields e
    → quiet (common d e prefix) ≡ fields_in d e
    → is_nil (changed_paths (obj d) (obj e) prefix) ≡ json_eq (obj d) (obj e)
unfolding changed_paths
is_nil-obj d e prefix ud ue h =
    rw
      (
        is_nil-flatten,
        quiet-sort_changes,
        quiet-append (common d e prefix) (added prefix d e),
        h,
        quiet-added prefix d e,
      )
      (rw (json_eq-obj d e) (and_swap _ _ _ (size_test d e ud ue)))

quiet-entry :
    (k : String) (v : Json) (rest e : Fields) (prefix : String)
    → UniqueFields e
    → ((w : Json) → Unique w → is_nil (changed_paths v w (child_path prefix k)) ≡ json_eq v w)
    → quiet (common rest e prefix) ≡ fields_in rest e
    → quiet (common (field k v rest) e prefix) ≡ fields_in (field k v rest) e
unfolding changed_paths json_eq quiet
quiet-entry k v rest e prefix ue ih h = elim (Option-cases (get k e)) [
  | inl missing ↦ rw (missing) (ground arith)
  | inr (w, found) ↦ rw (found, h, ih w (Unique-get k e w ue found)) refl
]

mutual
  unfolding changed_paths json_eq quiet UniqueFields

  is_nil-changed_paths :
      (a b : Json) (prefix : String)
      → Unique a
      → Unique b
      → is_nil (changed_paths a b prefix) ≡ json_eq a b
  is_nil-changed_paths (obj d) (obj e) prefix ua ub =
      is_nil-obj d e prefix ua ub (quiet-common d e prefix ua ub)
  is_nil-changed_paths a b prefix ua ub = is_nil-leaf (json_eq a b) prefix

  quiet-common :
      (d e : Fields) (prefix : String)
      → UniqueFields d
      → UniqueFields e
      → quiet (common d e prefix) ≡ fields_in d e
  quiet-common end e prefix ud ue = refl
  quiet-common (field k v rest) e prefix (new, uv, ud) ue =
      quiet-entry k v rest e prefix ue
        (λ w uw. is_nil-changed_paths v w (child_path prefix k) uv uw)
        (quiet-common rest e prefix ud ue)

-- For documents that have no key twice in a dict, at any depth, no path is reported as changed
-- exactly when the two documents are equal.
pub changed_paths-eq-nil_iff :
    (before after : Json) (prefix : String)
    → Unique before
    → Unique after
    → (changed_paths before after prefix ≡ []) ↔ (json_eq before after ≡ true)
changed_paths-eq-nil_iff before after prefix ub ua = (
  λ e. sym (is_nil-changed_paths before after prefix ub ua) ∙ ap is_nil e,
  λ e. nil_of_is_nil _ (is_nil-changed_paths before after prefix ub ua ∙ e),
)
