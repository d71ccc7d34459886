-- ===== src/Merge/Placeholders/Found.antt =====
-- What the report of missing placeholders tells about the texts of a document.
use Prim.Native.Char.{Char, code}
use Prim.Native.String.{[], ◌∷◌}
use secure_litellm_on_azure.Base.{
  ℕ, true≢false, zero, String, ◌≡◌, refl, sym, subst, ◌∙◌, ap, ◌≢◌, ◌↔◌, ◌⊎◌, Bool, true, false,
  ◌||◌, none, some, List, ◌++◌, arith, str_eq, ltb, ◌==◌, inl, inr, eq_refl, if◌then◌else◌,
}
use secure_litellm_on_azure.Base.Text.{starts, text_length, contains, every, is_digit, is_upper}
use secure_litellm_on_azure.Json.{Json, str, arr, obj, Items, nil, cons, Fields, end, field}
use secure_litellm_on_azure.Merge.Placeholders.{
  name_run, opens_token, token_at, tokens_from, is_placeholder, placeholder_tokens, item_tokens,
  field_tokens, sorted_set, unresolved_placeholders,
}
use secure_litellm_on_azure.Merge.Placeholders.Tokens.{
  scan_step, tokens_from-cons, contains-placeholder, both_nil, sorted_set-eq-nil,
}

-- An upper-case letter, a digit or an underscore
abbrev name_code : ℕ → Bool
name_code c = is_upper c || is_digit c || (c == b'_')

abbrev Marked : String → String → Type 0
Marked mark p =
    (starts p mark ≡ true)
    × (ltb (text_length mark) (text_length p) ≡ true)
    × (every name_code p ≡ true)

-- `REPLACE_` and at least one more, all of them letters, digits and underscores.
abbrev pub IsComplete : String → Type 0
IsComplete p = Marked "REPLACE_" p

every-run :
    (b : Bool) (c : Char) (r : String)
    → name_code (code c) ≡ b
    → every name_code r ≡ true
    → every name_code (if b then c ∷ r else []) ≡ true
every-run true c r e h = rw (e, h)
every-run false c r e h = refl

every-name_run : (s : String) → every name_code (name_run s) ≡ true
unfolding name_run
every-name_run [] = refl
every-name_run (c ∷ s) = every-run (name_code (code c)) c (name_run s) refl (every-name_run s)

name_run-every : (s : String) → every name_code s ≡ true → name_run s ≡ s
unfolding name_run
name_run-every [] h = refl
name_run-every (c ∷ s) h = ground (arith, name_run-every s)

starts-run :
    (b : Bool) (mark s r : String) (m c : Char)
    → starts (c ∷ s) (m ∷ mark) ≡ true
    → ltb (text_length (m ∷ mark)) (text_length (if b then c ∷ r else [])) ≡ true
    → (starts s mark ≡ true → ltb (text_length mark) (text_length r) ≡ true → starts r mark ≡ true)
    → starts (if b then c ∷ r else []) (m ∷ mark) ≡ true
starts-run true mark s r m c h k below = ground (arith, h, k, below)
starts-run false mark s r m c h k below = absurd (ground arith)

starts-name_run :
    (mark s : String)
    → starts s mark ≡ true
    → ltb (text_length mark) (text_length (name_run s)) ≡ true
    → starts (name_run s) mark ≡ true
unfolding name_run
starts-name_run [] s h k = refl
starts-name_run (m ∷ mark) [] h k = cc
starts-name_run (m ∷ mark) (c ∷ s) h k =
    starts-run (name_code (code c)) mark s (name_run s) m c h k (starts-name_run mark s)

-- A run is a prefix of its text.
prefix-run :
    (b : Bool) (c : Char) (s r : String)
    → starts s r ≡ true
    → starts (c ∷ s) (if b then c ∷ r else []) ≡ true
prefix-run true c s r h = ground (arith, h)
prefix-run false c s r h = refl

starts-prefix : (s : String) → starts s (name_run s) ≡ true
unfolding name_run
starts-prefix [] = refl
starts-prefix (c ∷ s) = prefix-run (name_code (code c)) c s (name_run s) (starts-prefix s)

opens_token-Marked : (mark s : String) → opens_token mark s ≡ true → Marked mark (name_run s)
unfolding opens_token
opens_token-Marked mark s h =
    (starts-name_run mark s (ground arith) (ground arith), ground arith, every-name_run s)

Marked-opens_token : (mark p : String) → Marked mark p → opens_token mark p ≡ true
unfolding opens_token
Marked-opens_token mark p (h, k, e) = ground (arith, name_run-every p)

whole_token :
    (b : Bool) (r p : String)
    → b ≡ true
    → r ≡ p
    → elim (if b then some r else none) [ none ↦ false | some t ↦ str_eq t p ] ≡ true
whole_token true r p e same = rw (same, eq_refl p)
whole_token false r p e same = cc

IsComplete-is_placeholder : (p : String) → IsComplete p → is_placeholder p ≡ true
unfolding is_placeholder token_at
IsComplete-is_placeholder p h =
    whole_token (opens_token "REPLACE_" p) (name_run p) p (Marked-opens_token "REPLACE_" p h)
      (name_run-every p h.2)

abbrev Found : String → String → Type 0
Found s t = IsComplete t × (contains s t ≡ true)

contains-here : (c : Char) (s t : String) → starts (c ∷ s) t ≡ true → contains (c ∷ s) t ≡ true
contains-here c s t h = rw h

contains-later : (c : Char) (s t : String) → contains s t ≡ true → contains (c ∷ s) t ≡ true
contains-later c s t h = ground (arith, h)

-- The first match of a text that has one.
first_match : (s t : String) (ts : List String) → tokens_from zero s ≡ List.◌∷◌ t ts → Found s t
first_match [] t ts h = absurd (nil_first t ts (unfold tokens_from in h))
  where
    nil_first : (t : String) (ts : List String) → List.[] ≢ List.◌∷◌ t ts
    nil_first t ts h = cc h
first_match (c ∷ s) t ts h =
    step (opens_token "REPLACE_" (c ∷ s)) refl (sym (tokens_from-cons c s) ∙ h) (first_match s t ts)
  where
    step :
        (b : Bool)
        → opens_token "REPLACE_" (c ∷ s) ≡ b
        → scan_step c s (if b then some (name_run (c ∷ s)) else none) ≡ List.◌∷◌ t ts
        → (tokens_from zero s ≡ List.◌∷◌ t ts → Found s t)
        → Found (c ∷ s) t
    step true e h later =
        let same : name_run (c ∷ s) ≡ t = cc h in
        subst (Found (c ∷ s)) same (
          opens_token-Marked "REPLACE_" (c ∷ s) e,
          contains-here c s (name_run (c ∷ s)) (starts-prefix (c ∷ s)),
        )
    step false e h later =
        let (complete, within) = later h in (complete, contains-later c s t within)

-- A text of the document, other than a key, holds `p`.
unfoldable mutual
  pub Holds : String → Json → Type 0
  Holds p (str s) = contains s p ≡ true
  Holds p (arr xs) = HoldsItems p xs
  Holds p (obj d) = HoldsFields p d
  Holds p _ = ⊥

  pub HoldsItems : String → Items → Type 0
  HoldsItems p nil = ⊥
  HoldsItems p (cons x xs) = Holds p x ⊎ HoldsItems p xs

  pub HoldsFields : String → Fields → Type 0
  HoldsFields p end = ⊥
  HoldsFields p (field k v rest) = Holds p v ⊎ HoldsFields p rest

either_first :
    {P : Type 0} (xs ys : List String) (t : String) (ts : List String)
    → xs ++ ys ≡ List.◌∷◌ t ts
    → ((us : List String) → xs ≡ List.◌∷◌ t us → P)
    → (ys ≡ List.◌∷◌ t ts → P)
    → P
either_first List.[] ys t ts h k l = l h
either_first (List.◌∷◌ x xs) ys t ts h k l =
    let same : x ≡ t = cc h in k xs (ap (λ u. List.◌∷◌ u xs) same)

mutual
  unfolding placeholder_tokens Holds

  value_first :
      (v : Json) (t : String) (ts : List String)
      → placeholder_tokens v ≡ List.◌∷◌ t ts
      → IsComplete t × Holds t v
  value_first (str s) t ts h = first_match s t ts h
  value_first (arr xs) t ts h = items_first xs t ts h
  value_first (obj d) t ts h = fields_first d t ts h
  value_first _ t ts h = absurd (cc h)

  items_first :
      (xs : Items) (t : String) (ts : List String)
      → item_tokens xs ≡ List.◌∷◌ t ts
      → IsComplete t × HoldsItems t xs
  items_first nil t ts h = absurd (cc h)
  items_first (cons x xs) t ts h =
      either_first (placeholder_tokens x) (item_tokens xs) t ts h
        (λ us e. let found = value_first x t us e in (found.0, inl found.1))
        (λ e. let found = items_first xs t ts e in (found.0, inr found.1))

  fields_first :
      (d : Fields) (t : String) (ts : List String)
      → field_tokens d ≡ List.◌∷◌ t ts
      → IsComplete t × HoldsFields t d
  fields_first end t ts h = absurd (cc h)
  fields_first (field k v rest) t ts h =
      either_first (placeholder_tokens v) (field_tokens rest) t ts h
        (λ us e. let found = value_first v t us e in (found.0, inl found.1))
        (λ e. let found = fields_first rest t ts e in (found.0, inr found.1))

mutual
  unfolding placeholder_tokens Holds

  value_none : (v : Json) (p : String) → IsComplete p → placeholder_tokens v ≡ List.[] → ¬ Holds p v
  value_none (str s) p k h found =
      true≢false (sym found ∙ contains-placeholder s p h (IsComplete-is_placeholder p k))
  value_none (arr xs) p k h found = items_none xs p k h found
  value_none (obj d) p k h found = fields_none d p k h found
  value_none _ p k h found = found

  items_none :
      (xs : Items) (p : String) → IsComplete p → item_tokens xs ≡ List.[] → ¬ HoldsItems p xs
  items_none nil p k h found = found
  items_none (cons x xs) p k h (inl found) = value_none x p k (both_nil _ _ h).0 found
  items_none (cons x xs) p k h (inr found) = items_none xs p k (both_nil _ _ h).1 found

  fields_none :
      (d : Fields) (p : String) → IsComplete p → field_tokens d ≡ List.[] → ¬ HoldsFields p d
  fields_none end p k h found = found
  fields_none (field j v rest) p k h (inl found) = value_none v p k (both_nil _ _ h).0 found
  fields_none (field j v rest) p k h (inr found) = fields_none rest p k (both_nil _ _ h).1 found

some_first :
    (v : Json) (ts : List String)
    → placeholder_tokens v ≡ ts
    → sorted_set ts ≢ List.[]
    → (p : String) × IsComplete p × Holds p v
unfolding sorted_set
some_first v List.[] e h = absurd (h refl)
some_first v (List.◌∷◌ t ts) e h = let found = value_first v t ts e in (t, found.0, found.1)

-- The report names a placeholder exactly when a text of the document, other than a key, holds
-- `REPLACE_` followed by at least one more, where all are upper-case letters, digits and underscores.
pub unresolved_placeholders-ne-nil_iff :
    (v : Json) → (unresolved_placeholders v ≢ List.[]) ↔ ((p : String) × IsComplete p × Holds p v)
unfolding unresolved_placeholders
unresolved_placeholders-ne-nil_iff v = (
  λ h. some_first v (placeholder_tokens v) refl h,
  λ (p, k, found) e. value_none v p k (sorted_set-eq-nil (placeholder_tokens v) e) found,
)
