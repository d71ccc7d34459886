-- ===== src/Schema/History/Upgrade.antt =====
-- No approved migration is forgotten.
use secure_litellm_on_azure.Base.{
  ℕ, ◌≡◌, sym, ◌∙◌, ap, subst, inl, inr, String, true, ◌||◌, List, [], ◌∷◌, ◌++◌, elem, elem-append,
  eq_iff, map, arith,
}
use secure_litellm_on_azure.Fault.{ok}
use secure_litellm_on_azure.Gates.External.{External}
use secure_litellm_on_azure.Schema.History.{
  Migration, Row, migration_name, row_name, active_rows, first, after, without, supported_histories,
  check_history,
}
use secure_litellm_on_azure.Schema.History.Pending.{
  Prefix, Upgraded, Verified, first-after, check_history-Verified,
}
use mathlib.Core.List.{map-append}

elem-without :
    (n : String) (inherited names : List String)
    → elem n names ≡ true
    → (elem n inherited || elem n (without inherited names)) ≡ true
unfolding without
elem-without n inherited [] h = absurd (cc h)
elem-without n inherited (m ∷ names) h = ground (arith, eq_iff n m, elem-without n inherited names)

-- The migration is recorded or pending.
abbrev pub Accounted : String → List Row → List String → Type 0
Accounted n active pending = (elem n (map row_name active) || elem n pending) ≡ true

Prefix-Accounted :
    (migrations : List Migration) (active : List Row) (pending : List String) (n : String)
    → Prefix migrations active pending
    → elem n (map migration_name migrations) ≡ true
    → Accounted n active pending
Prefix-Accounted migrations active pending n p h =
    sym (elem-append n (map row_name active) pending) ∙ ap (elem n) p.in_order ∙ h

names-split :
    (count : ℕ) (active : List Row)
    → map row_name active ≡ map row_name (first count active) ++ map row_name (after count active)
names-split count active =
    ap (map row_name) (sym (first-after count active))
    ∙ map-append row_name (first count active) (after count active)

regroup :
    (n : String) (a b p w : List String)
    → b ++ p ≡ w
    → (elem n a || elem n w) ≡ true
    → (elem n (a ++ b) || elem n p) ≡ true
regroup n a b p w e h = ground (arith, elem-append n a b, elem-append n b p, ap (elem n) e)

Upgraded-Accounted :
    (x : External) (histories : List (String × ℕ)) (migrations : List Migration) (active : List Row)
    (pending : List String) (n : String)
    → Upgraded x histories migrations active pending
    → elem n (map migration_name migrations) ≡ true
    → Accounted n active pending
Upgraded-Accounted x histories migrations active pending n u h =
    let inherited : List String = map row_name (first u.count active) in
    subst (λ names. (elem n names || elem n pending) ≡ true) (sym (names-split u.count active))
      (regroup n inherited (map row_name (after u.count active)) pending
        (without inherited (map migration_name migrations)) u.in_order
        (elem-without n inherited (map migration_name migrations) h))

-- Where `check_history` returns the pending migrations, each approved migration is recorded by a row
-- that was not rolled back, or is one of the pending ones.
pub check_history-Accounted :
    (x : External) (migrations : List Migration) (history : List Row) (tables : List String)
    (mode : String) {pending : List String} (n : String)
    → check_history x migrations history tables mode ≡ ok pending
    → elem n (map migration_name migrations) ≡ true
    → (active : List Row) × (active_rows history ≡ ok active) × Accounted n active pending
check_history-Accounted x migrations history tables mode {pending} n h e =
    let (active, rows, verified) = check_history-Verified x migrations history tables mode h in
    (active, rows, accounted active verified)
  where
    accounted :
        (active : List Row) → Verified x migrations active mode pending → Accounted n active pending
    accounted active (inl p) = Prefix-Accounted migrations active pending n p e
    accounted active (inr (_, u)) =
        Upgraded-Accounted x supported_histories migrations active pending n u e
