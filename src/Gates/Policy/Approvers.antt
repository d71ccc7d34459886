-- ===== src/Gates/Policy/Approvers.antt =====
-- The approvers that `approval_policy` lets through.
use secure_litellm_on_azure.Base.{
  ℕ, ◌≤◌, String, ◌≡◌, subst, ◌⊎◌, inl, inr, Bool, true, false, ◌&&◌, List, length, subset, str_eq,
  leb, ◌==◌, ==_iff, &&-true, arith,
}
use secure_litellm_on_azure.Json.{Json, str, arr, obj, nil, Fields, end, get, keys}
use secure_litellm_on_azure.Fault.{
  ok, get_or, bind_ok, require_ok, branch_ok, last_require, ok_injective,
}
use secure_litellm_on_azure.Gates.Policy.{
  text_of, uuids, all_distinct, nonzero, is_true, login_ok, enough_approvers, governance_fields,
  approval_modes, one_of, checked_policy, approval_policy_of, approval_policy,
}

-- As many approvers as the mode needs: one operator, or two and more unless none is named.
abbrev pub Enough : String → List ℕ → Type 0
Enough mode ids =
    ((str_eq mode "single-operator" ≡ true) × (length ids ≡ 1))
    ⊎ ((str_eq mode "single-operator" ≡ false) × ((length ids ≡ 0) ⊎ (2 ≤ length ids)))

abbrev pub Sound : String × List ℕ → Type 0
Sound policy = (all_distinct policy.1 ≡ true) × (nonzero policy.1 ≡ true) × Enough policy.0 policy.1

enough_approvers-Enough :
    (mode : String) (accepted : Bool) (ids : List ℕ)
    → enough_approvers mode accepted ids ≡ ok tt
    → Enough mode ids
unfolding enough_approvers
enough_approvers-Enough mode accepted ids h =
    branch_ok (str_eq mode "single-operator") _ _ h
      (λ single h1. inl (
        single,
        (==_iff (length ids) 1).0 (&&-true (last_require (accepted && (length ids == 1)) _ h1)).1,
      ))
      (λ dual h1.
        branch_ok (length ids == 0) _ _ h1
          (λ empty h2. inr (dual, inl ((==_iff (length ids) 0).0 empty)))
          (λ some_named h2.
            let two : leb 2 (length ids) ≡ true = last_require (leb 2 (length ids)) _ h2 in
            inr (dual, inr (ground arith))))

checked_policy-Sound :
    (policy : Fields) (mode allowed : Json) {result : String × List ℕ}
    → checked_policy policy mode allowed ≡ ok result
    → Sound result
unfolding checked_policy
checked_policy-Sound policy mode (arr allowed) h = bind_ok (uuids allowed) _ h λ ids e1 h1.
    require_ok (all_distinct ids && nonzero ids) _ _ h1 λ good h2.
      bind_ok
        (enough_approvers (text_of mode) (is_true (get "singleOperatorRiskAccepted" policy)) ids) _
        h2
        λ _ e3 h3.
          require_ok (login_ok (text_of mode) (get "githubLogin" policy)) _ _ h3 λ login h4.
            subst Sound (ok_injective h4) (
              (&&-true good).0,
              (&&-true good).1,
              enough_approvers-Enough (text_of mode)
                  (is_true (get "singleOperatorRiskAccepted" policy)) ids e3,
            )
checked_policy-Sound policy mode _ h = absurd (cc h)

-- Where `approval_policy` returns a mode and its approvers, these are distinct and nonzero, and there
-- is exactly one for a single operator, and none or at least two for a dual approval.
pub approval_policy-Sound :
    (config : Fields) (mode : String) (ids : List ℕ)
    → approval_policy config ≡ ok (mode, ids)
    → (all_distinct ids ≡ true) × (nonzero ids ≡ true) × Enough mode ids
unfolding approval_policy approval_policy_of
approval_policy-Sound config mode ids h =
    bind_ok (get_or (obj config) "governance" (obj end)) _ h λ policy e1 h1. of policy h1
  where
    of : (policy : Json) → approval_policy_of policy ≡ ok (mode, ids) → Sound (mode, ids)
    of (obj policy) h = require_ok (subset (keys policy) governance_fields) _ _ h λ known h1.
        bind_ok (get_or (obj policy) "approvalMode" (str "dual")) _ h1 λ chosen e2 h2.
          bind_ok (one_of approval_modes chosen) _ h2 λ valid e3 h3.
            require_ok valid _ _ h3 λ is_valid h4.
              bind_ok (get_or (obj policy) "approverObjectIds" (arr nil)) _ h4
                λ allowed e5 h5. checked_policy-Sound policy chosen allowed h5
    of _ h = absurd (cc h)
