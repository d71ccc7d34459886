-- ===== src/Gates/Evidence/Approval.antt =====
-- What `check_approval` accepts.
use secure_litellm_on_azure.Base.{
  ℕ, ◌≤◌, ◌-◌, String, ◌≡◌, refl, ◌∙◌, ap, ◌⊎◌, inl, inr, Bool, true, ◌&&◌, ◌||◌, some, List,
  length, ◌==◌, arith, &&-true, Bool-cases,
}
use secure_litellm_on_azure.Json.{Json, str, arr, Items, items}
use secure_litellm_on_azure.Fault.{
  Fault, Result, ok, err, get_or, index, bind_ok, require_ok, last_require,
}
use secure_litellm_on_azure.Gates.Policy.{uuids, all_distinct, nonzero}
use secure_litellm_on_azure.Gates.External.{External, Timestamp, aware}
use secure_litellm_on_azure.Gates.Evidence.{
  week, recent, in_try, Gate, required_approvers, member_of_all, check_approval, approver_list,
  read_time,
}

in_try-ok : {A : Type 0} (m : Result A) {a : A} → in_try m ≡ ok a → m ≡ ok a
unfolding in_try
in_try-ok (ok a) h = h
in_try-ok (err (Fault.value_error m)) h = absurd (cc h)
in_try-ok (err (Fault.migration_error m)) h = absurd (cc h)
in_try-ok (err (Fault.database_auth_error m)) h = absurd (cc h)
in_try-ok (err (Fault.key_error m)) h = absurd (cc h)
in_try-ok (err Fault.type_error) h = absurd (cc h)
in_try-ok (err Fault.attribute_error) h = absurd (cc h)
in_try-ok (err (Fault.runtime_error m)) h = absurd (cc h)
in_try-ok (err (Fault.system_exit n)) h = absurd (cc h)
in_try-ok (err (Fault.api_exception n)) h = absurd (cc h)
in_try-ok (err Fault.command_error) h = absurd (cc h)
in_try-ok (err Fault.out_of_fuel) h = absurd (cc h)

approver_list-ok :
    (x : External) (g : Gate) (v : Json) (xs : Items) → approver_list x g v ≡ ok xs → v ≡ arr xs
unfolding approver_list
approver_list-ok x g (arr ys) xs h = cc h
approver_list-ok x g _ xs h = absurd (cc h)

read_time-ok :
    (x : External) (g : Gate) (v : Json) (t : Timestamp)
    → read_time x g v ≡ ok t
    → (s : String) × (v ≡ str s) × (x.read_time s ≡ some t)
unfolding read_time
read_time-ok x g (str s) t h = (s, refl, ground arith)
read_time-ok x g _ t h = absurd (cc h)

recent-range :
    (now : ℕ) (observed : Timestamp)
    → recent now observed ≡ true
    → (t : ℕ) × (observed ≡ aware t) × (now - week ≤ t) × (t ≤ now)
unfolding recent
recent-range now Timestamp.naive h = absurd (cc h)
recent-range now (aware t) h = (t, refl, ground arith, ground arith)

-- The right number of distinct, nonzero, eligible approvers, at a recent time.
pub record Approved (x : External) (g : Gate) (item : Json) : Type 0 where
  pub approvers : Items
  pub recorded : get_or item "approvedBy" (arr Items.nil) ≡ ok (arr approvers)
  pub count : length (items approvers) ≡ required_approvers g.mode
  pub ids : List ℕ
  pub ids_read : uuids approvers ≡ ok ids
  pub distinct_ids : all_distinct ids ≡ true
  pub nonzero_ids : nonzero ids ≡ true
  pub eligible_ids : (length g.eligible ≡ 0) ⊎ (member_of_all ids g.eligible ≡ true)
  pub stamp : String
  pub stamped : index item "observedAt" ≡ ok (str stamp)
  pub time : ℕ
  pub time_read : x.read_time stamp ≡ some (aware time)
  pub not_old : g.now - week ≤ time
  pub not_early : time ≤ g.now

either : (n : ℕ) (b : Bool) → ((n == 0) || b) ≡ true → (n ≡ 0) ⊎ (b ≡ true)
either n b h = elim (Bool-cases (n == 0)) [
  | inl empty ↦ inl (ground arith)
  | inr more ↦ inr (ground arith)
]

pub check_approval-Approved :
    (x : External) (g : Gate) (item : Json) → check_approval x g item ≡ ok tt → Approved x g item
unfolding check_approval
check_approval-Approved x g item h =
    bind_ok (get_or item "approvedBy" (arr Items.nil)) _ h λ approvers e1 h1.
      bind_ok (approver_list x g approvers) _ h1 λ xs e2 h2.
        require_ok (length (items xs) == required_approvers g.mode) _ _ h2 λ count h3.
          bind_ok (in_try (uuids xs)) _ h3 λ ids e4 h4.
            bind_ok (in_try (index item "observedAt")) _ h4 λ stamp e5 h5.
              bind_ok (in_try (read_time x g stamp)) _ h5 λ observed e6 h6.
                require_ok (all_distinct ids && nonzero ids) _ _ h6 λ good h7.
                  require_ok ((length g.eligible == 0) || member_of_all ids g.eligible) _ _ h7
                    λ eligible h8.
                      let (s, same, read) =
                        read_time-ok x g stamp observed (in_try-ok (read_time x g stamp) e6) in
                      let (t, at, old, early) = recent-range g.now observed (last_require _ _ h8) in
                      record {
                        approvers = xs;
                        recorded = e1 ∙ ap ok (approver_list-ok x g approvers xs e2);
                        count = ground arith;
                        ids = ids;
                        ids_read = in_try-ok (uuids xs) e4;
                        distinct_ids = (&&-true good).0;
                        nonzero_ids = (&&-true good).1;
                        eligible_ids =
                            either (length g.eligible) (member_of_all ids g.eligible) eligible;
                        stamp = s;
                        stamped = in_try-ok (index item "observedAt") e5 ∙ ap ok same;
                        time = t;
                        time_read = read ∙ ap some at;
                        not_old = old;
                        not_early = early;
                      }
