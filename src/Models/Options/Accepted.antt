-- ===== src/Models/Options/Accepted.antt =====
-- What options that `validate_options` accepts look like.
use secure_litellm_on_azure.Base.{
  ℕ, ◌≤◌, ◌≡◌, refl, sym, ◌∙◌, ap, subst, ◌≢◌, String, Bool, true, false, ◌&&◌, not, some, elem,
  elem-subset, subset, str_eq, str_eq→eq, eq_iff, arith, &&-true, Bool-cases, inl, inr,
  if◌then◌else◌,
}
use secure_litellm_on_azure.Base.Int.{pos, negsuc}
use secure_litellm_on_azure.Json.{Json, null, int, obj, Fields, end, field, get, has, keys}
use secure_litellm_on_azure.Fault.{Result, ok, bind_ok, require_ok, last_require}
use secure_litellm_on_azure.Models.FieldNames.{positive_ints, param_fields, info_fields}
use secure_litellm_on_azure.Models.Options.{
  int_between, integer, max_int, check_param, check_info, check_each, no_nulls, validate_fields,
  validate_options,
}

pub check_each-get :
    (check : String → Json → Result (Unit {0})) (k : String) (d : Fields) {v : Json}
    → check_each check d ≡ ok tt
    → get k d ≡ some v
    → check k v ≡ ok tt
unfolding check_each get
check_each-get check k end h e = absurd (cc e)
check_each-get check k (field j w rest) {v} h e = bind_ok (check j w) _ h λ _ now later.
    elim (Bool-cases (str_eq j k)) [
      | inl here ↦
          let same : w ≡ v = ground (arith, e) in
          subst (λ name. check name v ≡ ok tt) (str_eq→eq j k here)
            (subst (λ u. check j u ≡ ok tt) same now)
      | inr there ↦ check_each-get check k rest later (ground (arith, e))
    ]

elem-keys : (k : String) (d : Fields) → has k d ≡ elem k (keys d)
unfolding has keys
elem-keys k end = refl
elem-keys k (field j v rest) = ground (arith, elem-keys k rest, eq_iff j k, eq_iff k j)

no_nulls-get : (k : String) (d : Fields) → no_nulls d ≡ true → get k d ≢ some null
unfolding no_nulls get
no_nulls-get k end h e = absurd (cc e)
no_nulls-get k (field j null rest) h e = absurd (cc h)
no_nulls-get k (field j v rest) h e = elim (Bool-cases (str_eq j k)) [
  | inl here ↦ not_null v h (ground (arith, e))
  | inr there ↦ no_nulls-get k rest (rest_full v h) (ground (arith, e))
]
  where
    not_null : (w : Json) → no_nulls (field j w rest) ≡ true → w ≡ null → ⊥
    not_null w h e = absurd (cc (sym h ∙ ap (λ u. no_nulls (field j u rest)) e))

    rest_full : (w : Json) → no_nulls (field j w rest) ≡ true → no_nulls rest ≡ true
    rest_full null h = absurd (cc h)
    rest_full _ h = h

int_between-ok :
    (v : Json)
    → int_between (pos 1) max_int v ≡ true
    → (n : ℕ) × (v ≡ int (pos n)) × (1 ≤ n) × (n ≤ 2147483647)
unfolding int_between
int_between-ok (int (pos n)) h = (n, refl, ground arith, ground arith)
int_between-ok (int (negsuc n)) h = absurd (cc h)
int_between-ok _ h = absurd (cc h)

-- What holds of the options of one model.
pub record Accepted (catalog : Bool) (params info : Fields) : Type 0 where
  pub params_allowed : subset (keys params) (param_fields catalog) ≡ true
  pub info_allowed : subset (keys info) (info_fields catalog) ≡ true
  pub params_full : no_nulls params ≡ true
  pub params_checked : check_each check_param params ≡ ok tt
  pub one_limit : (has "max_tokens" params && has "max_completion_tokens" params) ≡ false
  pub info_checked : check_each check_info info ≡ ok tt

pub validate_options-Accepted :
    (catalog : Bool) (params info : Fields)
    → validate_options catalog (obj params) (obj info) ≡ ok tt
    → Accepted catalog params info
unfolding validate_options validate_fields
validate_options-Accepted catalog params info h =
    require_ok (not (has "cost_per_second" info) && not (has "cost_per_second" params)) _ _ h
      λ _ h1.
        require_ok
          (subset (keys params) (param_fields catalog) && subset (keys info) (info_fields catalog))
          _ _ h1
          λ allowed h2. require_ok (no_nulls params && no_nulls info) _ _ h2 λ full h3.
            bind_ok (check_each check_param params) _ h3 λ _ checked h4.
              require_ok (not (has "max_tokens" params && has "max_completion_tokens" params)) _ _
                h4
                λ limit h5. record {
                  params_allowed = (&&-true allowed).0;
                  info_allowed = (&&-true allowed).1;
                  params_full = (&&-true full).0;
                  params_checked = checked;
                  one_limit = off limit;
                  info_checked = h5;
                }
  where
    off : {b : Bool} → not b ≡ true → b ≡ false
    off h = ground arith

-- If the options of a model are accepted, every field of its parameters is one that a customer may
-- set, and is not null.
pub validate_options-allowed :
    (catalog : Bool) (params info : Fields) (k : String)
    → validate_options catalog (obj params) (obj info) ≡ ok tt
    → has k params ≡ true
    → (elem k (param_fields catalog) ≡ true) × (get k params ≢ some null)
validate_options-allowed catalog params info k h e =
    let a = validate_options-Accepted catalog params info h in
    (
      elem-subset k (keys params) (param_fields catalog) a.params_allowed
          (sym (elem-keys k params) ∙ e),
      no_nulls-get k params a.params_full,
    )

check_param-positive :
    (k : String) (v : Json)
    → check_param k v ≡ ok tt
    → elem k positive_ints ≡ true
    → (n : ℕ) × (v ≡ int (pos n)) × (1 ≤ n) × (n ≤ 2147483647)
unfolding check_param integer
check_param-positive k v h e =
    int_between-ok v
      (last_require (int_between (pos 1) max_int v) _ (limited (elem k positive_ints) e _ h))
  where
    limited :
        (b : Bool)
        → b ≡ true
        → {m : Result (Unit {0})} (n : Result (Unit {0})) → (if b then m else n) ≡ ok tt
        → m ≡ ok tt
    limited true e n h = h
    limited false e n h = absurd (cc e)

-- If the options of a model are accepted, a limit on tokens, requests, choices or dimensions in its
-- parameters is an integer from 1 to 2147483647.
pub validate_options-positive :
    (catalog : Bool) (params info : Fields) (k : String) {v : Json}
    → validate_options catalog (obj params) (obj info) ≡ ok tt
    → get k params ≡ some v
    → elem k positive_ints ≡ true
    → (n : ℕ) × (v ≡ int (pos n)) × (1 ≤ n) × (n ≤ 2147483647)
validate_options-positive catalog params info k {v} h e p =
    let a = validate_options-Accepted catalog params info h in
    check_param-positive k v (check_each-get check_param k params a.params_checked e) p
