-- ===== src/Merge/Placeholders/Tokens.antt =====
-- A document without placeholders is left alone, and the report of what is missing is complete.
use Prim.Native.Char.{Char}
use Prim.Native.String.{[], ◌∷◌}
use secure_litellm_on_azure.Base.{
  true≢false, zero, ◌-◌, ◌≤◌, String, ◌≡◌, refl, sym, subst, ◌∙◌, ◌≢◌, Bool, true, false, Option,
  none, some, List, ◌++◌, arith, str_eq, str_eq→eq, Bool-cases, inl, inr, if◌then◌else◌,
}
use secure_litellm_on_azure.Base.Text.{starts, text_length, contains}
use secure_litellm_on_azure.Json.{
  Json, null, bool, int, float, str, arr, obj, Items, nil, cons, Fields, end, field,
}
use secure_litellm_on_azure.Fault.{ok}
use secure_litellm_on_azure.Merge.Placeholders.{
  name_run, opens_token, token_at, tokens_from, is_placeholder, replace_text, replace_placeholders,
  replace_items, replace_fields, placeholder_tokens, item_tokens, field_tokens, insert_sorted,
  sorted_set, unresolved_placeholders,
}

starts_trans : (s p q : String) → starts s p ≡ true → starts p q ≡ true → starts s q ≡ true
starts_trans s p [] h k = refl
starts_trans s [] (e ∷ q) h k = cc
starts_trans [] (d ∷ p) (e ∷ q) h k = cc
starts_trans (c ∷ s) (d ∷ p) (e ∷ q) h k = ground (arith, starts_trans s p q)

starts_refl : (s : String) → starts s s ≡ true
starts_refl [] = refl
starts_refl (c ∷ s) = ground (arith, starts_refl s)

-- A run of name characters only grows with the text.
name_run_mono :
    (s p : String) → starts s p ≡ true → text_length (name_run p) ≤ text_length (name_run s)
unfolding name_run
name_run_mono s [] h = omega arith
name_run_mono [] (d ∷ p) h = cc
name_run_mono (c ∷ s) (d ∷ p) h = ground (arith, name_run_mono s p)

opens_token-starts :
    (mark s p : String) → opens_token mark p ≡ true → starts s p ≡ true → opens_token mark s ≡ true
unfolding opens_token
opens_token-starts mark s p h k = ground (arith, starts_trans s p mark, name_run_mono s p)

-- `is_placeholder` and `token_at` in terms of `opens_token`, with the mark out of sight.
matches : String → String → Bool
matches mark p = elim (if opens_token mark p then some (name_run p) else none) [
  | none ↦ false
  | some t ↦ str_eq t p
]

opens_token-matches : (mark p : String) → matches mark p ≡ true → opens_token mark p ≡ true
unfolding matches
opens_token-matches mark p h = ground arith

is_placeholder-opens : (p : String) → is_placeholder p ≡ true → opens_token "REPLACE_" p ≡ true
is_placeholder-opens p h =
    opens_token-matches "REPLACE_" p (unfold is_placeholder matches token_at in h)

not-is_placeholder-nil : is_placeholder [] ≡ false
unfolding is_placeholder
not-is_placeholder-nil = refl

abbrev pub scan_step : Char → String → Option String → List String
scan_step c s none = tokens_from zero s
scan_step c s (some t) = List.◌∷◌ t (tokens_from (text_length t - 1) s)

scan_step-elim :
    (c : Char) (s : String) (o : Option String)
    → elim o as (λ _. List String) [
      | none ↦ tokens_from zero s
      | some t ↦ List.◌∷◌ t (tokens_from (text_length t - 1) s)
    ]
      ≡ scan_step c s o
scan_step-elim c s none = refl
scan_step-elim c s (some t) = refl

no_step :
    (b : Bool) (c : Char) (s r : String)
    → scan_step c s (if b then some r else none) ≡ List.[]
    → (b ≡ false) × (tokens_from zero s ≡ List.[])
no_step true c s r h = cc
no_step false c s r h = (refl, h)

pub tokens_from-cons :
    (c : Char) (s : String)
    → tokens_from zero (c ∷ s)
      ≡ scan_step c s (if opens_token "REPLACE_" (c ∷ s) then some (name_run (c ∷ s)) else none)
unfolding tokens_from
tokens_from-cons c s =
    scan_step-elim c s (if opens_token "REPLACE_" (c ∷ s) then some (name_run (c ∷ s)) else none)

-- No token here: none starts here, and the rest holds none.
no_token :
    (c : Char) (s : String)
    → tokens_from zero (c ∷ s) ≡ List.[]
    → (opens_token "REPLACE_" (c ∷ s) ≡ false) × (tokens_from zero s ≡ List.[])
no_token c s h =
    no_step (opens_token "REPLACE_" (c ∷ s)) c s (name_run (c ∷ s)) (sym (tokens_from-cons c s) ∙ h)

pub both_nil : (xs ys : List String) → xs ++ ys ≡ List.[] → (xs ≡ List.[]) × (ys ≡ List.[])
both_nil List.[] ys h = (refl, h)
both_nil (List.◌∷◌ x xs) ys h = cc

-- A text in which nothing matches `PLACEHOLDER` holds no complete placeholder either.
pub contains-placeholder :
    (s p : String) → tokens_from zero s ≡ List.[] → is_placeholder p ≡ true → contains s p ≡ false
contains-placeholder s [] h k = absurd (true≢false (sym k ∙ not-is_placeholder-nil))
contains-placeholder [] (d ∷ p) h k = refl
contains-placeholder (c ∷ s) (d ∷ p) h k = elim (Bool-cases (starts (c ∷ s) (d ∷ p))) [
  | inl here ↦ absurd (
      true≢false (
        sym (opens_token-starts "REPLACE_" (c ∷ s) (d ∷ p) (is_placeholder-opens (d ∷ p) k) here)
        ∙ (no_token c s h).0))
  | inr not_here ↦ rw not_here (contains-placeholder s (d ∷ p) (no_token c s h).1 k)
]

abbrev pub AllKeys : (String → Bool) → Fields → Type 0
AllKeys p end = Unit
AllKeys p (field k v rest) = (p k ≡ true) × AllKeys p rest

starts→contains : (s p : String) → starts s p ≡ true → contains s p ≡ true
starts→contains [] p h = h
starts→contains (c ∷ s) p h = rw h

str_eq-absent : (s p : String) → contains s p ≡ false → str_eq s p ≡ false
str_eq-absent s p h = elim (Bool-cases (str_eq s p)) [
  | inl same ↦ absurd (
      true≢false (
        sym (
          starts→contains s p (subst (λ t. starts s t ≡ true) (str_eq→eq s p same) (starts_refl s)))
        ∙ h))
  | inr other ↦ other
]

text_kept :
    (s : String) (values : Fields)
    → tokens_from zero s ≡ List.[]
    → AllKeys is_placeholder values
    → replace_text s values ≡ ok (str s)
unfolding replace_text
text_kept s end h g = refl
text_kept s (field p r rest) h (hp, g) =
    rw (hp, str_eq-absent s p (contains-placeholder s p h hp), contains-placeholder s p h hp)
      (text_kept s rest h g)

mutual
  unfolding replace_placeholders placeholder_tokens

  value_kept :
      (v : Json) (values : Fields)
      → placeholder_tokens v ≡ List.[]
      → AllKeys is_placeholder values
      → replace_placeholders values v ≡ ok v
  value_kept null values h g = refl
  value_kept (bool b) values h g = refl
  value_kept (int z) values h g = refl
  value_kept (float m d) values h g = refl
  value_kept (str s) values h g = text_kept s values h g
  value_kept (arr xs) values h g = rw (items_kept xs values h g)
  value_kept (obj d) values h g = rw (fields_kept d values h g)

  items_kept :
      (xs : Items) (values : Fields)
      → item_tokens xs ≡ List.[]
      → AllKeys is_placeholder values
      → replace_items values xs ≡ ok xs
  items_kept nil values h g = refl
  items_kept (cons x xs) values h g =
      let (hx, hs) = both_nil _ _ h in rw (value_kept x values hx g, items_kept xs values hs g)

  fields_kept :
      (d : Fields) (values : Fields)
      → field_tokens d ≡ List.[]
      → AllKeys is_placeholder values
      → replace_fields values d ≡ ok d
  fields_kept end values h g = refl
  fields_kept (field k v rest) values h g =
      let (hv, hs) = both_nil _ _ h in rw (value_kept v values hv g, fields_kept rest values hs g)

insert_sorted-ne-nil : (s : String) (xs : List String) → insert_sorted s xs ≢ List.[]
unfolding insert_sorted
insert_sorted-ne-nil s List.[] = ground arith
insert_sorted-ne-nil s (List.◌∷◌ x xs) = ground arith

pub sorted_set-eq-nil : (xs : List String) → sorted_set xs ≡ List.[] → xs ≡ List.[]
unfolding sorted_set
sorted_set-eq-nil List.[] h = refl
sorted_set-eq-nil (List.◌∷◌ x xs) h = absurd (insert_sorted-ne-nil x (sorted_set xs) h)

-- A document whose report is empty is a fixed point of the substitution, whatever the values.
pub replace-unresolved_nil :
    (v : Json) (values : Fields)
    → unresolved_placeholders v ≡ List.[]
    → AllKeys is_placeholder values
    → replace_placeholders values v ≡ ok v
unfolding unresolved_placeholders
replace-unresolved_nil v values h g =
    value_kept v values (sorted_set-eq-nil (placeholder_tokens v) h) g
