-- ===== src/Schema/History.antt =====
-- `check_history` of LiteLLM/runtime/schema_migration.py.
pub mod Applied
pub mod Pending
pub mod Unfinished
pub mod Upgrade
use secure_litellm_on_azure.Base.{
  ℕ, zero, suc, ◌≡◌, refl, String, Bool, true, false, ◌&&◌, ◌||◌, not, Option, none, some, List, [],
  ◌∷◌, ◌++◌, length, all, elem, distinct, str_eq, ltb, leb, ◌==◌, map, if◌then◌else◌,
}
use secure_litellm_on_azure.Json.{Json, str, arr, obj, Fields, end, field, from_list}
use secure_litellm_on_azure.Fault.{Fault, Result, ok, err, database_auth_error, ◌>>=◌, ◌>>◌}
use secure_litellm_on_azure.Gates.External.{External, fingerprint}

-- `item["name"]` and `item["sha256"]` of an approved migration
pub record Migration : Type 0 where
  pub name : String
  pub sha256 : String

-- One row of `_prisma_migrations`, as `database_state` selects it.
pub record Row : Type 0 where
  pub name : String
  pub checksum : String
  pub finished : Bool
  pub rolled_back : Bool

abbrev pub migration_name : Migration → String
migration_name m = m.name

abbrev pub row_name : Row → String
row_name r = r.name

-- `raise DatabaseAuthError(message)`, unless the condition holds
abbrev pub demand : Bool → String → Result (Unit {0})
demand true message = ok tt
demand false message = err (database_auth_error message)

-- `expected.get(name)`: of two migrations with one name the later counts
unfoldable pub expected : List Migration → String → Option String
expected [] name = none
expected (m ∷ ms) name = elim (expected ms name) [
  | some hash ↦ some hash
  | none ↦ if str_eq m.name name then some m.sha256 else none
]

-- `item["checksum"] == expected.get(item["name"])`
unfoldable pub approved : List Migration → Row → Bool
unfolding expected
approved migrations r = elim (expected migrations r.name) [
  | none ↦ false
  | some hash ↦ str_eq r.checksum hash
]

unfoldable pub is_expected : List Migration → String → Bool
unfolding expected
is_expected migrations name = elim (expected migrations name) [ none ↦ false | some hash ↦ true ]

abbrev pub unfinished : String
unfinished = "Unfinished migration requires investigation; automatic resolve/reset is forbidden"

-- The rows that were not rolled back.
unfoldable pub active_rows : List Row → Result (List Row)
active_rows [] = ok []
active_rows (r ∷ rs) =
    let later = active_rows rs in
    if r.rolled_back then later else (do demand r.finished unfinished; rest ← later; ok (r ∷ rest))

-- `names[:n]` and `names[n:]`
unfoldable pub first {ℓ} : {A : Type ℓ} → ℕ → List A → List A
first zero xs = []
first (suc n) [] = []
first (suc n) (x ∷ xs) = x ∷ first n xs

unfoldable pub after {ℓ} : {A : Type ℓ} → ℕ → List A → List A
after zero xs = xs
after (suc n) [] = []
after (suc n) (x ∷ xs) = after n xs

unfoldable pub texts_eq : List String → List String → Bool
texts_eq [] [] = true
texts_eq (s ∷ ss) (t ∷ ts) = str_eq s t && texts_eq ss ts
texts_eq _ _ = false

-- `[name for name in names if name not in inherited]`
unfoldable pub without : List String → List String → List String
without inherited [] = []
without inherited (n ∷ ns) =
    let rest = without inherited ns in if elem n inherited then rest else n ∷ rest

abbrev source_row : Row → Json
source_row r = obj (field "name" (str r.name) (field "sha256" (str r.checksum) end))

-- `SUPPORTED_SOURCE_HISTORIES`
abbrev pub supported_histories : List (String × ℕ)
supported_histories =
    ("0a730273fd745521b36008b01816142d92294792667a6a5c046147e0821e0dbb", 141)
    ∷ ("3263a9bd2b458c8e78fa35af9378a21500bb11b7fdfdff74970a5a2bd3973958", 141)
    ∷ []

-- The migrations after the approved source follow the remaining ones in order.
unfoldable pub check_tail : List Migration → List String → List Row → Result (Unit {0})
unfolding approved
check_tail migrations remaining [] = ok tt
check_tail migrations [] (r ∷ rs) = err (
    database_auth_error
      "Database migrations after the approved source history differ from the target image")
check_tail migrations (n ∷ remaining) (r ∷ rs) = do
  demand (str_eq r.name n && approved migrations r)
      "Database migrations after the approved source history differ from the target image"
  check_tail migrations remaining rs

-- What is pending after an approved source history of the given length.
unfoldable pub upgrade : List Migration → ℕ → List Row → Result (List String)
unfolding is_expected first after without check_tail
upgrade migrations count active = do
  let inherited = map row_name (first count active)
  demand (distinct inherited && all (is_expected migrations) inherited)
      "Approved source migration history contains unsupported names"
  let remaining = without inherited (map migration_name migrations)
  let tail = after count active
  check_tail migrations remaining tail
  ok (after (length tail) remaining)

-- The digest of the first rows.
unfoldable pub source_digest : External → ℕ → List Row → String
unfolding fingerprint first from_list
source_digest x count active = fingerprint x (arr (from_list (map source_row (first count active))))

-- The `for` over the supported histories; `none` is what its `else` gives.
unfoldable pub source_upgrade :
    External → List (String × ℕ) → List Migration → List Row → Result (Option (List String))
unfolding upgrade source_digest
source_upgrade x [] migrations active = ok none
source_upgrade x ((hash, count) ∷ histories) migrations active =
    let rest = source_upgrade x histories migrations active in
    if ltb (length active) count
    then rest
    else if str_eq (source_digest x count active) hash
    then (do pending ← upgrade migrations count active; ok (some pending))
    else rest

-- The loop that collects `finished`.
unfoldable pub finished_names : List Migration → List String → List Row → Result (List String)
unfolding approved
finished_names migrations done [] = ok done
finished_names migrations done (r ∷ rs) = do
  demand (approved migrations r && not (elem r.name done))
      "Database migration history differs from the approved image"
  finished_names migrations (done ++ (r.name ∷ [])) rs

unfoldable pub prefix_pending : List Migration → List Row → Result (List String)
unfolding finished_names texts_eq first after
prefix_pending migrations active = do
  finished ← finished_names migrations [] active
  let ordered = map migration_name migrations
  demand (texts_eq finished (first (length finished) ordered))
      "Migration history must be an ordered prefix of the approved release or a verified source upgrade"
  ok (after (length finished) ordered)

unfoldable pub is_empty {ℓ} : {A : Type ℓ} → List A → Bool
is_empty [] = true
is_empty (x ∷ xs) = false

unfoldable pub pending_of : External → List Migration → List Row → String → Result (List String)
unfolding source_upgrade prefix_pending
pending_of x migrations active mode = do
  upgraded ←
      (if str_eq mode "migration"
        then source_upgrade x supported_histories migrations active
        else ok none)
  elim upgraded [ some pending ↦ ok pending | none ↦ prefix_pending migrations active ]

unfoldable pub check_history :
    External → List Migration → List Row → List String → String → Result (List String)
unfolding active_rows pending_of is_empty
check_history x migrations history tables mode = do
  active ← active_rows history
  pending ← pending_of x migrations active mode
  demand (is_empty tables || not (is_empty active))
      "Existing database has no compatible migration history; automatic baseline is forbidden"
  demand (not (str_eq mode "migration") || not (is_empty tables))
      "Restore and verify the legacy database before migrating its schema"
  demand (elem mode ("migration" ∷ "greenfield" ∷ [])) "Unknown deployment mode"
  ok pending

-- Inversion of `demand`, as for `require`.
module _ {κ ρ} {B : Type κ} {P : Type ρ} where
  pub demand_ok :
      (c : Bool) (message : String) (m : Result B) {b : B}
      → (demand c message >> m) ≡ ok b
      → (c ≡ true → m ≡ ok b → P)
      → P
  demand_ok true message m h k = k refl h
  demand_ok false message m h k = absurd (cc h)
