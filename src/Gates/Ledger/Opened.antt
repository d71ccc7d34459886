-- ===== src/Gates/Ledger/Opened.antt =====
-- A ledger that was extended opens the next stage.
use secure_litellm_on_azure.Base.{
  ℕ, ◌≤◌, ◌<◌, String, ◌≡◌, refl, sym, ◌∙◌, ap, subst, true, List, [], ◌∷◌, ◌++◌, all, select, Some,
  arith,
}
use secure_litellm_on_azure.Json.{Json, arr, obj, Items, Fields, end, items, from_list}
use secure_litellm_on_azure.Fault.{ok, get_or, bind_ok, require_ok, ok_injective}
use secure_litellm_on_azure.Gates.Policy.{approval_policy, member}
use secure_litellm_on_azure.Gates.Stages.{active_stages, stage_checks}
use secure_litellm_on_azure.Gates.External.{External}
use secure_litellm_on_azure.Gates.Evidence.{validate_evidence, gate}
use secure_litellm_on_azure.Gates.Evidence.Coverage.{Accepted, validate_evidence-covers}
use secure_litellm_on_azure.Gates.Ledger.{
  has_stage, before_stage, sort_records, next_after, report_fields, check_report_scope,
  complete_checks, check_results, new_record, record_evidence,
}

items-from_list : (xs : List Json) → items (from_list xs) ≡ xs
unfolding items from_list
items-from_list [] = refl
items-from_list (x ∷ xs) = ap (λ ys. x ∷ ys) (items-from_list xs)

lt-next_after : (stage : ℕ) (active : List ℕ) → stage ≤ 9 → stage < next_after stage active
unfolding next_after
lt-next_after stage [] h = omega arith
lt-next_after stage (c ∷ cs) h = ground (arith, lt-next_after stage cs h)

-- What a successful run has built: the new record, and a ledger that opens the next stage.
pub record Extended (x : External) (config : Fields) (stage : ℕ) (revision : String)
    (previous : Items) (now : ℕ) (records : List Json) : Type 0 where
  pub added : Json
  pub sorted : records ≡ sort_records (select (before_stage stage) (items previous) ++ (added ∷ []))
  pub active : List ℕ
  pub active_of : active_stages config ≡ ok active
  pub opened : List ℕ
  pub opens :
      validate_evidence x (arr (from_list records)) (next_after stage active) config revision now
      ≡ ok opened

pub record_evidence-Extended :
    (x : External) (config : Fields) (stage : ℕ) (revision : String) (previous : Items)
    (report url approvers : Json) (now : ℕ) {records : List Json}
    → record_evidence x config stage revision previous report url approvers now ≡ ok records
    → Extended x config stage revision previous now records
unfolding record_evidence
record_evidence-Extended x config stage revision previous report url approvers now {records} h =
    let kept : List Json = select (before_stage stage) (items previous) in
    require_ok (all has_stage (items previous)) _ _ h λ _ h1.
      bind_ok (validate_evidence x (arr (from_list kept)) stage config revision now) _ h1
        λ done e2 h2. bind_ok (report_fields report) _ h2 λ reviewed e3 h3.
          bind_ok (check_report_scope x config stage revision reviewed) _ h3 λ _ e4 h4.
            bind_ok (get_or report "checks" (obj end)) _ h4 λ checks e5 h5.
              bind_ok (stage_checks stage config) _ h5 λ names e6 h6.
                bind_ok (complete_checks names checks) _ h6 λ results e7 h7.
                  bind_ok (check_results results) _ h7 λ _ e8 h8.
                    bind_ok (new_record x config stage revision reviewed url approvers) _ h8
                      λ new e9 h9. bind_ok (active_stages config) _ h9 λ active e10 h10.
                        bind_ok
                          (validate_evidence x (arr (from_list (sort_records (kept ++ (new ∷ [])))))
                            (next_after stage active) config revision now)
                          _ h10
                          λ opened e11 h11. record {
                            added = new;
                            sorted = sym (ok_injective h11);
                            active = active;
                            active_of = e10;
                            opened = opened;
                            opens =
                                subst
                                  (λ rs.
                                    validate_evidence x (arr (from_list rs))
                                      (next_after stage active) config revision now
                                    ≡ ok opened)
                                  (ok_injective h11) e11;
                          }

-- When `record_evidence` returns a ledger for a stage up to 9, every stage up to and with that one
-- that applies to the deployment has an accepted record in the ledger.
pub record_evidence-covers :
    (x : External) (config : Fields) (stage : ℕ) (revision : String) (previous : Items)
    (report url approvers : Json) (now : ℕ) {records : List Json} {active : List ℕ}
    {policy : String × List ℕ} (p : ℕ)
    → record_evidence x config stage revision previous report url approvers now ≡ ok records
    → active_stages config ≡ ok active
    → approval_policy config ≡ ok policy
    → member p active ≡ true
    → p ≤ stage
    → stage ≤ 9
    → Some (Accepted x (gate config revision now policy) p) records
record_evidence-covers x config stage revision previous report url approvers now {records} {active}
      {policy} p h ha hp m le nine =
    let e = record_evidence-Extended x config stage revision previous report url approvers now h in
    let before : p < next_after stage e.active = omega (arith, lt-next_after stage e.active nine) in
    subst (λ rs. Some (Accepted x (gate config revision now policy) p) rs) (items-from_list records)
      (validate_evidence-covers x (from_list records) (next_after stage e.active) config revision
        now p e.opens e.active_of hp
        (subst (λ a. member p a ≡ true) (ok_injective (sym ha ∙ e.active_of)) m) before)
