-- ===== src/Gates/Scope/Hidden.antt =====
-- A later stage's section does not enter the scope of an earlier stage.
use secure_litellm_on_azure.Base.{
  true≢false, ℕ, ◌<◌, String, ◌≡◌, refl, sym, ◌∙◌, ap, Bool, true, false, ◌&&◌, ◌||◌, not, List, [],
  ◌∷◌, str_eq, str_eq→eq, subst, ltb, leb, ◌==◌, elem, arith, Bool-cases, inl, inr,
}
use secure_litellm_on_azure.Json.{Json, obj, Fields, end, get, pop}
use secure_litellm_on_azure.Json.Laws.{pop-put, get-pop, pop_comm, pop_all-pop, pop_all-pop_mem}
use secure_litellm_on_azure.Fault.{index-get, get_or-get}
use secure_litellm_on_azure.Gates.Scope.{
  drop_if, put_if, visible_sections, bound_authentication, stage_scope,
}

-- The sections that the source drops before the given stage, by the name of the section.
abbrev pub hidden : ℕ → String → Bool
hidden stage k =
    ((not (stage == 4) && ltb stage 8) && elem k ("l3Audit" ∷ []))
    || (ltb stage 1 && elem k ("legacyAccess" ∷ []))
    || (ltb stage 2 && elem k ("contentAudit" ∷ []))
    || (ltb stage 9 && elem k ("dns" ∷ []))
    || (ltb stage 8 && elem k ("auditRuntime" ∷ "observability" ∷ "auditGovernance" ∷ []))
    || (ltb stage 7 && elem k ("proxy" ∷ "entra" ∷ []))
    || (ltb stage 4 && elem k ("application" ∷ []))
    || (ltb stage 5 && elem k ("databaseAccess" ∷ []))
    || (ltb stage 4 && elem k ("privateIngress" ∷ "certificates" ∷ []))

drop_if-pop :
    (b : Bool) (ks : List String) (k : String) (d : Fields)
    → drop_if b ks (pop k d) ≡ pop k (drop_if b ks d)
unfolding drop_if
drop_if-pop true ks k d = pop_all-pop ks k d
drop_if-pop false ks k d = refl

-- A step that drops the section makes up for its absence.
drop_if-pop_mem :
    (b : Bool) (ks : List String) (k : String) (d : Fields)
    → (b && elem k ks) ≡ true
    → drop_if b ks (pop k d) ≡ drop_if b ks d
unfolding drop_if
drop_if-pop_mem true ks k d h = pop_all-pop_mem ks k d h
drop_if-pop_mem false ks k d h = absurd (cc h)

put_if-pop :
    (b : Bool) (j k : String) (v : Json) (d : Fields)
    → str_eq k j ≡ false
    → put_if b j v (pop k d) ≡ pop k (put_if b j v d)
unfolding put_if
put_if-pop true j k v d h = sym (pop-put k j v d ∙ rw h)
put_if-pop false j k v d h = refl

-- Two states of the walk: equal once a step has dropped `k`, else one lacks `k`.
data Near (k : String) (c : Bool) (e d : Fields) : Type 0 where
  same : c ≡ true → e ≡ d → Near k c e d
  lacks : c ≡ false → e ≡ pop k d → Near k c e d

Near-drop :
    (k : String) (c b : Bool) (ks : List String) {e d : Fields}
    → Near k c e d
    → Near k (c || (b && elem k ks)) (drop_if b ks e) (drop_if b ks d)
Near-drop k c b ks (same h q) = same (rw h) (ap (drop_if b ks) q)
Near-drop k c b ks {e} {d} (lacks h q) = elim (Bool-cases (b && elem k ks)) [
  | inl drops ↦ same (rw (h, drops)) (ap (drop_if b ks) q ∙ drop_if-pop_mem b ks k d drops)
  | inr keeps ↦ lacks (rw (h, keeps)) (ap (drop_if b ks) q ∙ drop_if-pop b ks k d)
]

Near-put :
    (k : String) (c b : Bool) (j : String) (v : Json) {e d : Fields}
    → str_eq k j ≡ false
    → Near k c e d
    → Near k c (put_if b j v e) (put_if b j v d)
Near-put k c b j v other (same h q) = same h (ap (put_if b j v) q)
Near-put k c b j v {d = d} other (lacks h q) =
    lacks h (ap (put_if b j v) q ∙ put_if-pop b j k v d other)

Near-end : (k : String) (c : Bool) {e d : Fields} → c ≡ true → Near k c e d → e ≡ d
Near-end k c h (same t q) = q
Near-end k c h (lacks f q) = absurd (true≢false (sym h ∙ f))

weaken :
    (x a a' b c : Bool)
    → (a ≡ true → a' ≡ true)
    → (x || a || b || c) ≡ true
    → (x || a' || b || c) ≡ true
weaken true a a' b c f h = refl
weaken false true a' b c f h = rw (f refl)
weaken false false true b c f h = refl
weaken false false false b c f h = h

-- `application` is dropped before stage 6, and read besides at stages 4 and 5.
earlier : (stage : ℕ) (m : Bool) → (ltb stage 4 && m) ≡ true → (ltb stage 6 && m) ≡ true
earlier stage m h = ground arith

abbrev auth_key : String
auth_key = "applicationAuthenticationMode"

visible_sections-pop :
    (stage : ℕ) (auth : Json) (k : String) (d : Fields)
    → str_eq k auth_key ≡ false
    → hidden stage k ≡ true
    → visible_sections stage auth (pop k d) ≡ visible_sections stage auth d
unfolding visible_sections
visible_sections-pop stage auth k d other h =
    let n1 =
      Near-drop k false (not (stage == 4) && ltb stage 8) ("l3Audit" ∷ []) {d = d}
        (lacks refl refl) in
    let n2 = Near-put k _ (leb 4 stage && ltb stage 6) auth_key auth other n1 in
    let n3 = Near-drop k _ (ltb stage 1) ("legacyAccess" ∷ []) n2 in
    let n4 = Near-drop k _ (ltb stage 2) ("contentAudit" ∷ []) n3 in
    let n5 = Near-drop k _ (ltb stage 9) ("dns" ∷ []) n4 in
    let n6 =
      Near-drop k _ (ltb stage 8) ("auditRuntime" ∷ "observability" ∷ "auditGovernance" ∷ []) n5 in
    let n7 = Near-drop k _ (ltb stage 7) ("proxy" ∷ "entra" ∷ []) n6 in
    let n8 = Near-drop k _ (ltb stage 6) ("application" ∷ []) n7 in
    let n9 = Near-drop k _ (ltb stage 5) ("databaseAccess" ∷ []) n8 in
    Near-end k _ (weaken _ _ _ _ _ (earlier stage _) h)
      (Near-drop k _ (ltb stage 4) ("privateIngress" ∷ "certificates" ∷ []) n9)

-- No hidden section has the name of something that every stage reads.
hidden-parameters : (stage : ℕ) (k : String) → hidden stage k ≡ true → str_eq k "parameters" ≡ false
hidden-parameters stage k h = elim (Bool-cases (str_eq k "parameters")) [
  | inl is ↦
      absurd (never stage (subst (λ j. hidden stage j ≡ true) (str_eq→eq k "parameters" is) h))
  | inr is_not ↦ is_not
]
  where
    never : (stage : ℕ) → hidden stage "parameters" ≡ true → ⊥
    never stage h = absurd (ground arith)

hidden-auth_key : (stage : ℕ) (k : String) → hidden stage k ≡ true → str_eq k auth_key ≡ false
hidden-auth_key stage k h = elim (Bool-cases (str_eq k auth_key)) [
  | inl is ↦ absurd (never stage (subst (λ j. hidden stage j ≡ true) (str_eq→eq k auth_key is) h))
  | inr is_not ↦ is_not
]
  where
    never : (stage : ℕ) → hidden stage auth_key ≡ true → ⊥
    never stage h = absurd (ground arith)

hidden-application :
    (stage : ℕ) (k : String) → hidden stage k ≡ true → str_eq k "application" ≡ true → stage < 4
hidden-application stage k h is =
    early stage (subst (λ j. hidden stage j ≡ true) (str_eq→eq k "application" is) h)
  where
    early : (stage : ℕ) → hidden stage "application" ≡ true → stage < 4
    early stage h = ground arith

get-pop_eq :
    (j k : String) (e d : Fields) → str_eq k j ≡ false → pop k e ≡ pop k d → get j e ≡ get j d
get-pop_eq j k e d other q = ground (arith, get-pop k j e, get-pop k j d, ap (get j) q)

bound_authentication-pop_eq :
    (stage : ℕ) (k : String) (e d : Fields)
    → hidden stage k ≡ true
    → pop k e ≡ pop k d
    → bound_authentication stage e ≡ bound_authentication stage d
unfolding bound_authentication
bound_authentication-pop_eq stage k e d h q = elim (Bool-cases (str_eq k "application")) [
  | inl is ↦ let early = hidden-application stage k h is in ground arith
  | inr other ↦
      simp (get_or-get "application" e d (obj end) (get-pop_eq "application" k e d other q))
]

-- Two configurations that differ only in a section that belongs to later stages have the same scope
-- at the stage, error results included.
pub stage_scope-hidden :
    (stage : ℕ) (k : String) (e d : Fields)
    → hidden stage k ≡ true
    → pop k e ≡ pop k d
    → stage_scope stage e ≡ stage_scope stage d
unfolding stage_scope
stage_scope-hidden stage k e d h q =
    let sections : (auth : Json)
        → visible_sections stage auth (pop "parameters" e)
          ≡ visible_sections stage auth (pop "parameters" d) =
      λ auth.
        sym (visible_sections-pop stage auth k (pop "parameters" e) (hidden-auth_key stage k h) h)
        ∙ ap (visible_sections stage auth)
            (pop_comm k "parameters" e ∙ ap (pop "parameters") q ∙ sym (pop_comm k "parameters" d))
        ∙ visible_sections-pop stage auth k (pop "parameters" d) (hidden-auth_key stage k h) h in
    simp (
      bound_authentication-pop_eq stage k e d h q,
      index-get "parameters" e d (get-pop_eq "parameters" k e d (hidden-parameters stage k h) q),
      sections,
    )
