-- ===== src/Json/Laws.antt =====
-- How the operations on dicts meet.
use secure_litellm_on_azure.Base.{
  String, ◌≡◌, refl, true, false, none, some, List, [], ◌∷◌, arith, str_eq, str_eq→eq, ap, subst,
  eq_iff, eq_refl, elem, Bool-cases, inl, inr, if◌then◌else◌,
}
use secure_litellm_on_azure.Json.{
  Json, str, is_text, Fields, end, field, get, has, put, pop, pop_all, keys, Unique, UniqueFields,
}

pub get-put :
    (k j : String) (v : Json) (d : Fields)
    → get j (put k v d) ≡ (if str_eq k j then some v else get j d)
unfolding get put
get-put k j v end = refl
get-put k j v (field i w rest) =
    ground (arith, eq_iff k j, eq_iff i k, eq_iff i j, get-put k j v rest)

pub get-put_self : (k : String) (v : Json) (d : Fields) → get k (put k v d) ≡ some v
get-put_self k v d = ground (arith, get-put k k v d, eq_refl k)

pub get-pop : (k j : String) (d : Fields) → get j (pop k d) ≡ (if str_eq k j then none else get j d)
unfolding get pop
get-pop k j end = ground arith
get-pop k j (field i w rest) = ground (arith, eq_iff k j, eq_iff i k, eq_iff i j, get-pop k j rest)

pub get-pop_all :
    (j : String) (ks : List String) (d : Fields)
    → get j (pop_all ks d) ≡ (if elem j ks then none else get j d)
unfolding pop_all
get-pop_all j [] d = refl
get-pop_all j (k ∷ ks) d =
    ground (arith, get-pop_all j ks (pop k d), get-pop k j d, eq_iff j k, eq_iff k j)

-- Writing what is there already changes nothing, not even the order.
pub put-get : (k : String) (v : Json) (d : Fields) → get k d ≡ some v → put k v d ≡ d
unfolding get put
put-get k v end h = ground arith
put-get k v (field j w rest) h = ground (arith, put-get k v rest)

pub has-eq-get :
    (k : String) (d : Fields) → has k d ≡ elim (get k d) [ none ↦ false | some _ ↦ true ]
unfolding has get
has-eq-get k end = refl
has-eq-get k (field j w rest) = ground (arith, has-eq-get k rest)

pub elem-keys : (k : String) (d : Fields) → elem k (keys d) ≡ has k d
unfolding has keys
elem-keys k end = refl
elem-keys k (field j w rest) = ground (arith, elem-keys k rest, eq_iff k j, eq_iff j k)

pub get-none_of_not-has : (k : String) (d : Fields) → has k d ≡ false → get k d ≡ none
get-none_of_not-has k d h = ground (arith, has-eq-get k d)

pub is_text-eq : (s : String) (v : Json) → is_text s v ≡ true → v ≡ str s
unfolding is_text
is_text-eq s (str t) h = ap str (str_eq→eq t s h)
is_text-eq s _ h = absurd (ground arith)

pub pop-put :
    (j k : String) (v : Json) (d : Fields)
    → pop j (put k v d) ≡ (if str_eq j k then pop j d else put k v (pop j d))
unfolding pop put
pop-put j k v end = ground (arith, eq_iff k j, eq_iff j k)
pop-put j k v (field i w rest) =
    ground (arith, eq_iff j k, eq_iff k j, eq_iff i k, eq_iff i j, pop-put j k v rest)

pub pop_comm : (j k : String) (d : Fields) → pop j (pop k d) ≡ pop k (pop j d)
unfolding pop
pop_comm j k end = refl
pop_comm j k (field i w rest) = ground (arith, pop_comm j k rest)

pub pop_idem : (k : String) (d : Fields) → pop k (pop k d) ≡ pop k d
unfolding pop
pop_idem k end = refl
pop_idem k (field i w rest) = ground (arith, pop_idem k rest)

pub pop_all-pop :
    (ks : List String) (k : String) (d : Fields) → pop_all ks (pop k d) ≡ pop k (pop_all ks d)
unfolding pop_all
pop_all-pop [] k d = refl
pop_all-pop (j ∷ ks) k d = rw (pop_comm j k d) (pop_all-pop ks k (pop j d))

pub pop_all-pop_mem :
    (ks : List String) (k : String) (d : Fields)
    → elem k ks ≡ true
    → pop_all ks (pop k d) ≡ pop_all ks d
unfolding pop_all
pop_all-pop_mem [] k d h = absurd (cc h)
pop_all-pop_mem (j ∷ ks) k d h = elim (Bool-cases (str_eq k j)) [
  | inl here ↦ rw (← str_eq→eq k j here, pop_idem k d)
  | inr there ↦ rw (pop_comm j k d) (pop_all-pop_mem ks k (pop j d) (ground arith))
]

pub put-put : (k : String) (v w : Json) (d : Fields) → put k v (put k w d) ≡ put k v d
unfolding put
put-put k v w end = ground (arith, eq_refl k)
put-put k v w (field j u rest) =
    ground (arith, eq_refl k, eq_iff j k, eq_iff k j, put-put k v w rest)

pub pop_absent : (k : String) (d : Fields) → has k d ≡ false → pop k d ≡ d
unfolding has pop
pop_absent k end h = refl
pop_absent k (field j w rest) h = ground (arith, eq_iff j k, eq_iff k j, pop_absent k rest)

-- A value of a dict without repeated keys has none either.
pub Unique-get : (k : String) (d : Fields) (v : Json) → UniqueFields d → get k d ≡ some v → Unique v
unfolding get UniqueFields
Unique-get k end v u h = absurd (ground arith)
Unique-get k (field j w rest) v (new, uw, u) h = elim (Bool-cases (str_eq j k)) [
  | inl hit ↦ subst Unique (ground arith) uw
  | inr miss ↦ Unique-get k rest v u (ground arith)
]
