-- ===== src/Gates/Ledger/Draft.antt =====
-- `draft_report` of scripts/migration_evidence.py, and that a draft never counts as a pass.
use secure_litellm_on_azure.Base.{
  ℕ, String, ◌≡◌, refl, sym, ◌∙◌, ap, ◌≢◌, subst, inl, inr, Bool, true, false, some, List, [], ◌∷◌,
  select, str_eq, Bool-cases, arith, all, same_set, if◌then◌else◌,
}
use secure_litellm_on_azure.Base.Int.{pos}
use secure_litellm_on_azure.Json.{
  Json, int, str, arr, obj, Items, Fields, end, field, get, put, items, from_list, is_text, keys,
}
use secure_litellm_on_azure.Json.Laws.{get-put}
use secure_litellm_on_azure.Fault.{
  Result, ok, ◌>>=◌, get_or, index, bind_ok, require_ok, ok_injective,
}
use secure_litellm_on_azure.Gates.Stages.{stage_checks}
use secure_litellm_on_azure.Gates.Stages.Nonempty.{is_empty, stage_checks-full}
use secure_litellm_on_azure.Gates.External.{External, stage_fingerprint}
use secure_litellm_on_azure.Gates.Evidence.{validate_evidence}
use secure_litellm_on_azure.Gates.Ledger.{
  has_stage, before_stage, report_fields, check_report_scope, complete_checks, check_result,
  check_results, record_evidence,
}

abbrev pub pending : Json
pending = obj (
    field "status" (str "pending")
      (field "evidence" (str "REPLACE_ACTUAL_TEST_RESULT_AND_PRIVATE_REFERENCE") end))

-- `{name: {...} for name in names}`, added to a dict
unfoldable pub pending_checks : List String → Fields → Fields
unfolding put
pending_checks [] d = d
pending_checks (name ∷ names) d = pending_checks names (put name pending d)

-- The report at the time of the given text, `datetime.now(timezone.utc).isoformat()`.
unfoldable pub draft_report : External → Fields → ℕ → String → String → Result Json
unfolding stage_fingerprint stage_checks pending_checks
draft_report x config stage revision generated = do
  environment ← index (obj config) "environment"
  hash ← stage_fingerprint x stage config
  names ← stage_checks stage config
  ok (
      obj (
        field "stage" (int (pos stage)) (
          field "environment" environment (
            field "configSha256" (str hash) (
              field "revision" (str revision) (
                field "generatedAt" (str generated) (
                  field "observedAt" (str "REPLACE_ACTUAL_UTC_ACCEPTANCE_TIME")
                    (field "checks" (obj (pending_checks names end)) end))))))))

not_passed : check_result pending ≡ ok tt → ⊥
unfolding check_result get is_text
not_passed e = absurd (cc e)

-- A pending check fails the review of the checks.
check_results-pending :
    (k : String) (d : Fields) → get k d ≡ some pending → check_results d ≡ ok tt → ⊥
unfolding get check_results check_result
check_results-pending k end h c = absurd (cc h)
check_results-pending k (field j v rest) h c = elim (Bool-cases (str_eq j k)) [
  | inl here ↦ bind_ok (check_result v) _ c λ _ passed _.
      let same : v ≡ pending = ground (arith, h) in
      not_passed (subst (λ w. check_result w ≡ ok tt) same passed)
  | inr there ↦
      bind_ok (check_result v) _ c
        λ _ passed c1. check_results-pending k rest (ground (arith, h)) c1
]

get-pending_checks :
    (k : String) (names : List String) (d : Fields)
    → get k d ≡ some pending
    → get k (pending_checks names d) ≡ some pending
unfolding pending_checks
get-pending_checks k [] d h = h
get-pending_checks k (n ∷ names) d h =
    get-pending_checks k names (put n pending d) (get-put n k pending d ∙ either (str_eq n k))
  where
    either : (b : Bool) → (if b then some pending else get k d) ≡ some pending
    either true = refl
    either false = h

pending_checks-fail :
    (names : List String)
    → is_empty names ≡ false
    → check_results (pending_checks names end) ≡ ok tt
    → ⊥
unfolding pending_checks
pending_checks-fail [] h c = absurd (cc h)
pending_checks-fail (n ∷ names) h c =
    check_results-pending n (pending_checks names (put n pending end))
      (get-pending_checks n names (put n pending end)
        (secure_litellm_on_azure.Json.Laws.get-put_self n pending end))
      c

read_checks :
    (a b c d e f : Json) (names : List String)
    → get_or
        (obj (
          field "stage" a (
            field "environment" b (
              field "configSha256" c (
                field "revision" d (
                  field "generatedAt" e (
                    field "observedAt" f
                      (field "checks" (obj (pending_checks names end)) end))))))))
        "checks"
        (obj end)
      ≡ ok (obj (pending_checks names end))
unfolding get
read_checks a b c d e f names = refl

complete_checks-ok :
    (wanted : List String) (d : Fields) {e : Fields} → complete_checks wanted (obj d) ≡ ok e → d ≡ e
unfolding complete_checks
complete_checks-ok wanted d h = require_ok (same_set (keys d) wanted) _ _ h λ _ h1. ok_injective h1

-- The checks of a draft are all pending, and they are those of the stage.
draft_report-checks :
    (x : External) (config : Fields) (stage : ℕ) (revision generated : String) {report : Json}
    → draft_report x config stage revision generated ≡ ok report
    → (names : List String) × (stage_checks stage config ≡ ok names)
      × (get_or report "checks" (obj end) ≡ ok (obj (pending_checks names end)))
unfolding draft_report
draft_report-checks x config stage revision generated h =
    bind_ok (index (obj config) "environment") _ h λ environment d1 h1.
      bind_ok (stage_fingerprint x stage config) _ h1 λ hash d2 h2.
        bind_ok (stage_checks stage config) _ h2 λ names d3 h3. (
          names,
          d3,
          subst (λ v. get_or v "checks" (obj end) ≡ ok (obj (pending_checks names end)))
              (ok_injective h3)
              (read_checks (int (pos stage)) environment (str hash) (str revision) (str generated)
                (str "REPLACE_ACTUAL_UTC_ACCEPTANCE_TIME") names),
        )

-- A report that `draft_report` has generated is refused by `record_evidence`, whatever the ledger,
-- the approvers, the time and the reference are: a draft is never recorded as a pass.
pub draft_report-refused :
    (x : External) (config : Fields) (stage : ℕ) (revision generated : String) (previous : Items)
    (url approvers : Json) (now : ℕ) (report : Json) (records : List Json)
    → draft_report x config stage revision generated ≡ ok report
    → record_evidence x config stage revision previous report url approvers now ≢ ok records
unfolding record_evidence
draft_report-refused x config stage revision generated previous url approvers now report records h
      r =
    let (drafted, d3, held) = draft_report-checks x config stage revision generated h in
    let kept : List Json = select (before_stage stage) (items previous) in
    require_ok (all has_stage (items previous)) _ _ r λ _ r1.
      bind_ok (validate_evidence x (arr (from_list kept)) stage config revision now) _ r1
        λ done e2 r2. bind_ok (report_fields report) _ r2 λ reviewed e3 r3.
          bind_ok (check_report_scope x config stage revision reviewed) _ r3 λ _ e4 r4.
            bind_ok (get_or report "checks" (obj end)) _ r4 λ checks e5 r5.
              bind_ok (stage_checks stage config) _ r5 λ names e6 r6.
                bind_ok (complete_checks names checks) _ r6 λ results e7 r7.
                  bind_ok (check_results results) _ r7 λ _ e8 r8.
                    let found : checks ≡ obj (pending_checks drafted end) =
                      ok_injective (sym e5 ∙ held) in
                    let same : pending_checks drafted end ≡ results =
                      complete_checks-ok names (pending_checks drafted end)
                        (ap (complete_checks names) (sym found) ∙ e7) in
                    pending_checks-fail drafted (stage_checks-full stage config d3)
                      (ap check_results same ∙ e8)
