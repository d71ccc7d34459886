-- ===== src/Gates/Evidence/Coverage.antt =====
-- What an accepted ledger of evidence guarantees.
use secure_litellm_on_azure.Base.{
  ℕ, ◌+◌, ◌≤◌, ◌<◌, String, ◌≡◌, refl, ◌∙◌, ap, subst, ◌⊎◌, inl, inr, Bool, true, false, ◌||◌, not,
  Option, none, some, List, [], ◌∷◌, length, all, Some, leb, ◌==◌, arith, &&-true, Bool-cases,
}
use secure_litellm_on_azure.Base.Text.{hex_text}
use secure_litellm_on_azure.Base.Int.{ℤ, pos}
use secure_litellm_on_azure.Json.{Json, null, int, arr, Items, Fields, items}
use secure_litellm_on_azure.Fault.{
  Fault, Result, ok, err, ◌>>◌, require, get_or, bind_ok, require_ok,
}
use secure_litellm_on_azure.Gates.Policy.{approval_policy, member, all_distinct}
use secure_litellm_on_azure.Gates.Stages.{active_stages}
use secure_litellm_on_azure.Gates.External.{External}
use secure_litellm_on_azure.Gates.Evidence.{
  stage_number, Gate, gate, check_scope, check_checks, check_approval, check_report, stage_of,
  is_object, check_record, check_records, all_before, validate_evidence,
}
use secure_litellm_on_azure.Gates.Evidence.Checks.{ChecksPassed, check_checks-Passed}
use secure_litellm_on_azure.Gates.Evidence.Approval.{Approved, check_approval-Approved}
use secure_litellm_on_azure.Gates.Evidence.Binding.{Bound, check_scope-Bound}

-- One record that lets a stage count as completed.
pub record Accepted (x : External) (g : Gate) (stage : ℕ) (item : Json) : Type 0 where
  pub numbered : get_or item "stage" null ≡ ok (int (pos stage))
  pub bound : Bound x g stage item
  pub checks : ChecksPassed g stage item
  pub approval : Approved x g item

stage_number-some : (v : Json) (n : ℕ) → stage_number v ≡ some n → (v ≡ int (pos n)) × (n ≤ 9)
unfolding stage_number
stage_number-some (int (pos m)) n h = ground arith
stage_number-some (int (ℤ.negsuc m)) n h = absurd (cc h)
stage_number-some _ n h = absurd (cc h)

stage_of-number :
    (x : External) (g : Gate) (completed : List ℕ) (item : Json) {stage : ℕ}
    → stage_of x g completed item ≡ ok stage
    → (get_or item "stage" null ≡ ok (int (pos stage))) × (member stage completed ≡ false)
unfolding stage_of
stage_of-number x g completed item {stage} h =
    bind_ok (get_or item "stage" null) _ h λ v e1 h1. go v (stage_number v) e1 refl h1
  where
    go :
        (v : Json) (o : Option ℕ)
        → get_or item "stage" null ≡ ok v
        → stage_number v ≡ o
        → elim o as (λ _. Result ℕ) [
          | none ↦ err (Fault.migration_error "Invalid or duplicate evidence stage")
          | some n ↦
              require (not (member n completed)) "Invalid or duplicate evidence stage" >> ok n
        ]
          ≡ ok stage
        → (get_or item "stage" null ≡ ok (int (pos stage))) × (member stage completed ≡ false)
    go v none e1 e h = absurd (cc h)
    go v (some n) e1 e h =
        require_ok (not (member n completed)) "Invalid or duplicate evidence stage" (ok n) h
          λ new same.
            let stage_eq : n ≡ stage = cc same in
            (
              e1 ∙ ap ok ((stage_number-some v n e).0 ∙ ap (λ m. int (pos m)) stage_eq),
              rw (← stage_eq) (ground arith),
            )

check_record-Accepted :
    (x : External) (g : Gate) (completed : List ℕ) (item : Json) {stage : ℕ}
    → check_record x g completed item ≡ ok stage
    → Accepted x g stage item × (member stage completed ≡ false)
unfolding check_record
check_record-Accepted x g completed item {stage} h =
    require_ok (is_object x g item) _ _ h λ object h1.
      bind_ok (stage_of x g completed item) _ h1 λ n e2 h2.
        bind_ok (check_scope x g n item) _ h2 λ _ e3 h3.
          bind_ok (check_checks x g n item) _ h3 λ _ e4 h4.
            bind_ok (check_approval x g item) _ h4 λ _ e5 h5.
              bind_ok (check_report x g item) _ h5 λ _ e6 h6.
                let same : n ≡ stage = cc h6 in
                let (numbered, new) = stage_of-number x g completed item e2 in
                subst (λ m. Accepted x g m item × (member m completed ≡ false)) same
                  (
                    record {
                      numbered = numbered;
                      bound = check_scope-Bound x g n item e3;
                      checks = check_checks-Passed x g n item e4;
                      approval = check_approval-Approved x g item e5;
                    },
                    new,
                  )

member-head : (p n : ℕ) (ns : List ℕ) → member p (n ∷ ns) ≡ true → member p ns ≡ false → n ≡ p
unfolding member
member-head p n ns h k = ground arith

completed_or_Accepted :
    (x : External) (g : Gate) (done : List ℕ) (records : List Json) {completed : List ℕ} (p : ℕ)
    → check_records x g done records ≡ ok completed
    → member p completed ≡ true
    → (member p done ≡ true) ⊎ Some (Accepted x g p) records
unfolding check_records
completed_or_Accepted x g done [] p h m = inl (subst (λ c. member p c ≡ true) (cc h) m)
completed_or_Accepted x g done (item ∷ rest) p h m =
    bind_ok (check_record x g done item) _ h λ stage e1 h1.
      pick stage (check_record-Accepted x g done item e1)
        (completed_or_Accepted x g (stage ∷ done) rest p h1 m)
  where
    pick :
        (stage : ℕ)
        → Accepted x g stage item × (member stage done ≡ false)
        → (member p (stage ∷ done) ≡ true) ⊎ Some (Accepted x g p) rest
        → (member p done ≡ true) ⊎ (Accepted x g p item ⊎ Some (Accepted x g p) rest)
    pick stage a (inr later) = inr (inr later)
    pick stage (a, new) (inl m) = elim (Bool-cases (member p done)) [
      | inl old ↦ inl old
      | inr fresh ↦
          inr (inl (subst (λ s. Accepted x g s item) (member-head p stage done m fresh) a))
    ]

pub all-member :
    (f : ℕ → Bool) (ns : List ℕ) (p : ℕ) → all f ns ≡ true → member p ns ≡ true → f p ≡ true
unfolding member
all-member f [] p h m = absurd (cc m)
all-member f (n ∷ ns) p h m = elim (Bool-cases (p == n)) [
  | inl here ↦ subst (λ k. f k ≡ true) (ground arith) (&&-true h).0
  | inr there ↦ all-member f ns p (&&-true h).1 (ground arith)
]

not_before : (p : ℕ) {A : Type 0} → (member p [] ≡ true) ⊎ A → A
unfolding member
not_before p (inl h) = absurd (cc h)
not_before p (inr a) = a

-- If a ledger is accepted for a stage, then every earlier stage that applies to the deployment has
-- a record in the ledger that is numbered with it, bound to the configuration and revision, names
-- all its checks as passed, and is approved under the policy within the last seven days.
pub validate_evidence-covers :
    (x : External) (xs : Items) (stage : ℕ) (config : Fields) (revision : String) (now : ℕ)
    {completed active : List ℕ} {policy : String × List ℕ} (p : ℕ)
    → validate_evidence x (arr xs) stage config revision now ≡ ok completed
    → active_stages config ≡ ok active
    → approval_policy config ≡ ok policy
    → member p active ≡ true
    → p < stage
    → Some (Accepted x (gate config revision now policy) p) (items xs)
unfolding validate_evidence
validate_evidence-covers x xs stage config revision now {completed} {active} {policy} p h ha hp m
      lt =
    bind_ok (active_stages config) _ h λ active' e1 h1.
      require_ok ((stage == 10) || member stage active') _ _ h1 λ applies h2.
        require_ok (hex_text 40 revision) _ _ h2 λ full h3.
          bind_ok (approval_policy config) _ h3 λ policy' e4 h4.
            bind_ok (check_records x (gate config revision now policy') [] (items xs)) _ h4
              λ completed' e5 h5.
                require_ok (all_before stage active' completed') _ _ h5 λ covered h6.
                  let late : (leb stage p || member p completed') ≡ true =
                    all-member (λ q. leb stage q || member q completed') active' p covered
                      (subst (λ a. member p a ≡ true) (cc (e1, ha)) m) in
                  subst (λ q. Some (Accepted x (gate config revision now q) p) (items xs))
                    (cc (e4, hp))
                    (not_before p (
                      completed_or_Accepted x (gate config revision now policy') [] (items xs) p e5
                        (ground arith)))

distinct_step :
    (n : ℕ) (done : List ℕ)
    → all_distinct done ≡ true
    → member n done ≡ false
    → all_distinct (n ∷ done) ≡ true
unfolding all_distinct
distinct_step n done h k = ground arith

check_records-distinct :
    (x : External) (g : Gate) (done : List ℕ) (records : List Json) {completed : List ℕ}
    → all_distinct done ≡ true
    → check_records x g done records ≡ ok completed
    → (all_distinct completed ≡ true) × (length completed ≡ length done + length records)
unfolding check_records
check_records-distinct x g done [] {completed} d h =
    let same : done ≡ completed = cc h in
    (subst (λ c. all_distinct c ≡ true) same d, omega (arith, ap length same))
check_records-distinct x g done (item ∷ rest) d h =
    bind_ok (check_record x g done item) _ h λ stage e1 h1.
      let new = (check_record-Accepted x g done item e1).1 in
      let (distinct, count) =
        check_records-distinct x g (stage ∷ done) rest (distinct_step stage done d new) h1 in
      (distinct, omega (arith, count))

-- An accepted ledger completes as many stages as it has records, and no stage twice.
pub validate_evidence-distinct :
    (x : External) (xs : Items) (stage : ℕ) (config : Fields) (revision : String) (now : ℕ)
    {completed : List ℕ}
    → validate_evidence x (arr xs) stage config revision now ≡ ok completed
    → (all_distinct completed ≡ true) × (length completed ≡ length (items xs))
unfolding validate_evidence all_distinct
validate_evidence-distinct x xs stage config revision now {completed} h =
    bind_ok (active_stages config) _ h λ active e1 h1.
      require_ok ((stage == 10) || member stage active) _ _ h1 λ applies h2.
        require_ok (hex_text 40 revision) _ _ h2 λ full h3.
          bind_ok (approval_policy config) _ h3 λ policy e4 h4.
            bind_ok (check_records x (gate config revision now policy) [] (items xs)) _ h4
              λ found e5 h5. require_ok (all_before stage active found) _ _ h5 λ covered h6.
                let (distinct, count) =
                  check_records-distinct x (gate config revision now policy) [] (items xs) refl
                    e5 in
                let same : found ≡ completed = cc h6 in
                (
                  subst (λ c. all_distinct c ≡ true) same distinct,
                  omega (arith, count, ap length same),
                )
