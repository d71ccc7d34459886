-- ===== src/Gates/Stages/Nonempty.antt =====
-- Every stage has at least one check.
use secure_litellm_on_azure.Base.{
  ℕ, zero, suc, String, ◌≡◌, refl, sym, subst, Bool, true, false, ◌&&◌, List, [], ◌∷◌, ◌++◌, select,
  str_eq, ◌==◌, arith, Bool-cases, inl, inr, if◌then◌else◌,
}
use secure_litellm_on_azure.Json.{Fields, is_text}
use secure_litellm_on_azure.Fault.{ok, bind_ok, require_ok, ok_injective}
use secure_litellm_on_azure.Gates.Policy.{deployment_mode, authentication_mode, member}
use secure_litellm_on_azure.Gates.Stages.{
  stages, row, ten, applies, active_stages, rename_first, rename_last, audit_checks,
  content_audit_checks, greenfield_checks, l3_checks, CheckContext, edited_checks, release_by_one,
  stage_checks,
}

abbrev pub is_empty : List String → Bool
is_empty [] = true
is_empty (c ∷ cs) = false

either_full :
    (b : Bool) (xs ys : List String)
    → is_empty xs ≡ false
    → is_empty ys ≡ false
    → is_empty (if b then xs else ys) ≡ false
either_full true xs ys h k = h
either_full false xs ys h k = k

rename_last-full :
    (new : String) (xs : List String) → is_empty xs ≡ false → is_empty (rename_last new xs) ≡ false
unfolding rename_last
rename_last-full new [] h = h
rename_last-full new (c ∷ []) h = refl
rename_last-full new (c ∷ d ∷ cs) h = refl

rename_first-full :
    (old new : String) (xs : List String)
    → is_empty xs ≡ false
    → is_empty (rename_first old new xs) ≡ false
unfolding rename_first
rename_first-full old new [] h = h
rename_first-full old new (c ∷ cs) h =
    either_full (str_eq c old) (new ∷ cs) (c ∷ rename_first old new cs) refl refl

append-full : (xs ys : List String) → is_empty xs ≡ false → is_empty (xs ++ ys) ≡ false
append-full [] ys h = absurd (cc h)
append-full (x ∷ xs) ys h = refl

audit_checks-full : (o n : Bool) → is_empty (audit_checks o n) ≡ false
unfolding audit_checks
audit_checks-full o n = either_full n _ _ refl refl

content_audit_checks-full :
    (stage : ℕ) (o n : Bool) (xs : List String)
    → is_empty xs ≡ false
    → is_empty (content_audit_checks stage o n xs) ≡ false
unfolding content_audit_checks
content_audit_checks-full stage o n xs h =
    either_full (stage == 2) _ _ (rename_first-full _ _ xs h)
      (either_full (stage == 8) _ _ (audit_checks-full o n) h)

greenfield_checks-full :
    (stage : ℕ) (xs : List String)
    → is_empty xs ≡ false
    → is_empty (greenfield_checks stage xs) ≡ false
unfolding greenfield_checks
greenfield_checks-full stage xs h =
    either_full (stage == 0) _ _ refl
      (either_full (stage == 5) _ _ refl (either_full (stage == 6) _ _ refl h))

edited_checks-full :
    (c : CheckContext) (stage : ℕ)
    → is_empty ((row stage stages).1) ≡ false
    → is_empty (edited_checks c stage) ≡ false
unfolding edited_checks
edited_checks-full c stage h =
    let c1 =
      either_full ((stage == 1) && c.legacy_access) _ _
        (append-full _ ("legacy_source_access" ∷ []) h) h in
    let c2 =
      either_full c.content_audit _ _
        (content_audit_checks-full stage c.observability c.native _ c1) c1 in
    let c3 = either_full c.greenfield _ _ (greenfield_checks-full stage _ c2) c2 in
    let c4 = either_full ((stage == 8) && c.l3_audit) l3_checks _ refl c3 in
    either_full ((stage == 9) && c.single_operator) _ _ (rename_last-full _ _ c4) c4

row-full : (stage : ℕ) → member stage ten ≡ true → is_empty ((row stage stages).1) ≡ false
unfolding row
row-full zero h = refl
row-full (suc zero) h = refl
row-full (suc (suc zero)) h = refl
row-full (suc (suc (suc zero))) h = refl
row-full (suc (suc (suc (suc zero)))) h = refl
row-full (suc (suc (suc (suc (suc zero))))) h = refl
row-full (suc (suc (suc (suc (suc (suc zero)))))) h = refl
row-full (suc (suc (suc (suc (suc (suc (suc zero))))))) h = refl
row-full (suc (suc (suc (suc (suc (suc (suc (suc zero)))))))) h = refl
row-full (suc (suc (suc (suc (suc (suc (suc (suc (suc zero))))))))) h = refl
row-full (suc (suc (suc (suc (suc (suc (suc (suc (suc (suc n)))))))))) h =
    absurd (unfold member in ground arith)

member-chosen :
    (b : Bool) (p n : ℕ) (ns : List ℕ)
    → member p (elim b [ true ↦ n ∷ ns | false ↦ ns ]) ≡ true
    → (p == n) ≡ false
    → member p ns ≡ true
unfolding member
member-chosen true p n ns h other = ground arith
member-chosen false p n ns h other = h

member-select :
    (f : ℕ → Bool) (p : ℕ) (ns : List ℕ) → member p (select f ns) ≡ true → member p ns ≡ true
unfolding member
member-select f p [] h = h
member-select f p (n ∷ ns) h = elim (Bool-cases (p == n)) [
  | inl here ↦ rw here refl
  | inr there ↦ rw there (member-select f p ns (member-chosen (f n) p n (select f ns) h there))
]

active-member :
    (config : Fields) {active : List ℕ} (p : ℕ)
    → active_stages config ≡ ok active
    → member p active ≡ true
    → member p ten ≡ true
unfolding active_stages
active-member config p h m = bind_ok (authentication_mode config) _ h λ auth e1 h1.
    bind_ok (deployment_mode config) _ h1 λ mode e2 h2.
      member-select (applies (str_eq mode "greenfield") (is_text "native" auth)) p ten
        (subst (λ a. member p a ≡ true) (sym (ok_injective h2)) m)

-- Where `stage_checks` returns the checks of a stage, there is at least one.
pub stage_checks-full :
    (stage : ℕ) (config : Fields) {checks : List String}
    → stage_checks stage config ≡ ok checks
    → is_empty checks ≡ false
unfolding stage_checks
stage_checks-full stage config h = bind_ok (active_stages config) _ h λ active e1 h1.
    require_ok (member stage active) _ _ h1 λ applies h2.
      bind_ok (authentication_mode config) _ h2 λ auth e3 h3.
        bind_ok (deployment_mode config) _ h3 λ mode e4 h4.
          bind_ok (release_by_one stage config) _ h4 λ single e5 h5.
            subst (λ cs. is_empty cs ≡ false) (ok_injective h5)
              (edited_checks-full _ stage (row-full stage (active-member config stage e1 applies)))
