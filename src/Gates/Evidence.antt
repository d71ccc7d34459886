-- ===== src/Gates/Evidence.antt =====
-- `validate_evidence` of scripts/customer_migration.py. A result of `none` for a set stands for
-- one that is no set of texts, and so equals none.
pub mod Approval
pub mod Binding
pub mod Checks
pub mod Coverage
use secure_litellm_on_azure.Base.{
  ℕ, ◌-◌, ◌*◌, String, Bool, true, false, ◌&&◌, ◌||◌, not, Option, none, some, List, [], ◌∷◌,
  length, all, same_set, str_eq, ltb, leb, ◌==◌, if◌then◌else◌,
}
use secure_litellm_on_azure.Base.Int.{ℤ, pos}
use secure_litellm_on_azure.Base.Text.{hex_text, characters}
use secure_litellm_on_azure.Json.{
  Json, null, bool, int, str, arr, obj, Items, nil, cons, Fields, end, get, keys, json_eq, items,
  is_text,
}
use secure_litellm_on_azure.Fault.{
  Fault, Result, ok, err, migration_error, database_auth_error, value_error, key_error, type_error,
  attribute_error, runtime_error, system_exit, api_exception, command_error, out_of_fuel, ◌>>=◌,
  ◌>>◌, require, get_or, index,
}
use secure_litellm_on_azure.Gates.Policy.{
  approval_policy, one_of, uuids, member, all_distinct, nonzero,
}
use secure_litellm_on_azure.Gates.Stages.{active_stages, stage_checks}
use secure_litellm_on_azure.Gates.External.{
  External, Timestamp, aware, naive, UrlParts, fingerprint, stage_fingerprint,
}

-- The texts of a list, if it holds nothing else; a list or a dict in it cannot be hashed.
unfoldable pub hashed : Items → Result (Option (List String))
hashed nil = ok (some [])
hashed (cons (str s) xs) = do
  rest ← hashed xs
  ok (elim rest [ none ↦ none | some ss ↦ some (s ∷ ss) ])
hashed (cons (arr _) xs) = err type_error
hashed (cons (obj _) xs) = err type_error
hashed (cons _ xs) = do rest ← hashed xs; ok none

-- `set(value)`
unfoldable pub as_set : Json → Result (Option (List String))
unfolding hashed keys
as_set (arr xs) = hashed xs
as_set (obj d) = ok (some (keys d))
as_set (str s) = ok (some (characters s))
as_set _ = err type_error

unfoldable pub is_set_of : List String → Option (List String) → Bool
is_set_of wanted none = false
is_set_of wanted (some found) = same_set found wanted

-- `type(value) is int and 0 <= value <= 9`
unfoldable pub stage_number : Json → Option ℕ
stage_number (int (pos n)) = if leb n 9 then some n else none
stage_number _ = none

-- `re.fullmatch(r"[0-9a-f]{n}", value)`, which wants a text
unfoldable pub hex_match : ℕ → Json → Result Bool
hex_match n (str s) = ok (hex_text n s)
hex_match n _ = err type_error

abbrev week : ℕ
week = 7 * 24 * 3600

-- `observed.tzinfo is not None and now - timedelta(days=7) <= observed <= now`
unfoldable pub recent : ℕ → Timestamp → Bool
recent now naive = false
recent now (aware t) = leb (now - week) t && leb t now

-- `scheme == "https" and bool(hostname) and not username and not password and not query`
unfoldable pub private_url : UrlParts → Bool
private_url u =
    str_eq u.scheme "https"
    && not (str_eq u.hostname "")
    && str_eq u.username ""
    && str_eq u.password ""
    && str_eq u.query ""

-- The `try` block: only `ValueError`, `TypeError` and `KeyError` are turned into its message.
unfoldable pub in_try {ℓ} : {A : Type ℓ} → Result A → Result A
in_try (err (value_error m)) = err (value_error "Invalid evidence approval or timestamp")
in_try (err (migration_error m)) = err (value_error "Invalid evidence approval or timestamp")
in_try (err type_error) = err (value_error "Invalid evidence approval or timestamp")
in_try (err (key_error k)) = err (value_error "Invalid evidence approval or timestamp")
in_try (err (database_auth_error m)) = err (database_auth_error m)
in_try (err attribute_error) = err attribute_error
in_try (err (runtime_error m)) = err (runtime_error m)
in_try (err (system_exit n)) = err (system_exit n)
in_try (err (api_exception n)) = err (api_exception n)
in_try (err command_error) = err command_error
in_try (err out_of_fuel) = err out_of_fuel
in_try (ok a) = ok a

-- Everything that is asked of one record of a stage.
pub record Gate : Type 0 where
  pub config : Fields
  pub revision : String
  pub now : ℕ
  pub mode : String
  pub eligible : List ℕ

-- `1 if mode == "single-operator" else 2`
unfoldable pub required_approvers : String → ℕ
required_approvers mode = if str_eq mode "single-operator" then 1 else 2

unfoldable pub member_of_all : List ℕ → List ℕ → Bool
unfolding member
member_of_all ns ms = all (λ n. member n ms) ns

module _ (x : External) (g : Gate) where
  read_time : Json → Result Timestamp
  read_time (str s) = elim (x.read_time s) [
    | none ↦ err (value_error "Invalid isoformat string")
    | some t ↦ ok t
  ]
  read_time _ = err attribute_error

  split_url : Json → Result UrlParts
  split_url (str s) = elim (x.split_url s) [
    | none ↦ err (value_error "Invalid URL")
    | some u ↦ ok u
  ]
  split_url _ = err attribute_error

  -- Configuration, revision and binding.
  unfoldable pub check_scope : ℕ → Json → Result (Unit {0})
  unfolding one_of is_text hex_match json_eq
  check_scope stage item = do
    binding ← get_or item "binding" (str "full-config")
    known ← one_of ("full-config" ∷ "stage-config" ∷ []) binding
    require known "Invalid evidence binding"
    let full = ok (fingerprint x (obj g.config))
    expected ← if is_text "stage-config" binding then stage_fingerprint x stage g.config else full
    evidence_revision ← get_or item "revision" (str "")
    full_revision ← hex_match 40 evidence_revision
    let matches =
        full_revision && (str_eq g.mode "single-operator" || is_text g.revision evidence_revision)
    environment ← get_or item "environment" null
    wanted ← index (obj g.config) "environment"
    hash ← get_or item "configSha256" null
    require (json_eq environment wanted && is_text expected hash && matches)
        "Evidence configuration or revision mismatch"
    approval ← get_or item "approvalMode" (str "dual")
    require (is_text g.mode approval) "Evidence approval policy mismatch"

  -- The stage's own checks, all passed.
  unfoldable pub check_checks : ℕ → Json → Result (Unit {0})
  unfolding as_set is_set_of is_text
  check_checks stage item = do
    status ← get_or item "status" null
    checks ← get_or item "checks" (arr nil)
    let sets = do
      found ← as_set checks
      wanted ← stage_checks stage g.config
      require (is_set_of wanted found) "Stage checks are incomplete"
    if is_text "passed" status then sets else require false "Stage checks are incomplete"

  approver_list : Json → Result Items
  approver_list (arr xs) = ok xs
  approver_list _ = err (migration_error "Approval count does not match configured policy")

  -- The approvers and the time of observation.
  unfoldable pub check_approval : Json → Result (Unit {0})
  unfolding approver_list items uuids read_time in_try recent all_distinct nonzero member_of_all
  check_approval item = do
    approvers ← get_or item "approvedBy" (arr nil)
    xs ← approver_list approvers
    require (length (items xs) == required_approvers g.mode)
        "Approval count does not match configured policy"
    ids ← in_try (uuids xs)
    stamp ← in_try (index item "observedAt")
    observed ← in_try (read_time stamp)
    require (all_distinct ids && nonzero ids) "Distinct nonzero approver object IDs are required"
    require ((length g.eligible == 0) || member_of_all ids g.eligible)
        "Evidence contains an ineligible approver"
    require (recent g.now observed) "Evidence must be from the last seven days"

  -- The reference to the report.
  unfoldable pub check_report : Json → Result (Unit {0})
  unfolding split_url private_url hex_match
  check_report item = do
    url ← get_or item "reportUrl" (str "")
    parts ← split_url url
    require (private_url parts)
        "Report must be a private HTTPS reference without embedded credentials or query tokens"
    hash ← get_or item "reportSha256" (str "")
    hashed ← hex_match 64 hash
    require hashed "Report hash is required"

  stage_of : List ℕ → Json → Result ℕ
  unfolding stage_number member
  stage_of completed item = do
    previous ← get_or item "stage" null
    elim (stage_number previous) [
      | none ↦ err (migration_error "Invalid or duplicate evidence stage")
      | some n ↦ do require (not (member n completed)) "Invalid or duplicate evidence stage"; ok n
    ]

  is_object : Json → Bool
  is_object (obj _) = true
  is_object _ = false

  -- One round of the loop: the stage that the record completes.
  unfoldable pub check_record : List ℕ → Json → Result ℕ
  unfolding is_object stage_of
  check_record completed item = do
    require (is_object item) "Invalid evidence record"
    stage ← stage_of completed item
    check_scope stage item
    check_checks stage item
    check_approval item
    check_report item
    ok stage

  unfoldable pub check_records : List ℕ → List Json → Result (List ℕ)
  check_records completed [] = ok completed
  check_records completed (item ∷ rest) = do
    stage ← check_record completed item
    check_records (stage ∷ completed) rest

unfoldable pub all_before : ℕ → List ℕ → List ℕ → Bool
unfolding member
all_before stage active completed = all (λ p. leb stage p || member p completed) active

-- `isinstance(evidence, list)`
unfoldable pub record_list : Json → Result (List Json)
unfolding items
record_list (arr xs) = ok (items xs)
record_list _ = err (migration_error "Evidence must be an array")

unfoldable pub gate : Fields → String → ℕ → String × List ℕ → Gate
gate config revision now policy = record {
  config = config;
  revision = revision;
  now = now;
  mode = policy.0;
  eligible = policy.1;
}

module _ (x : External) where
  -- `completed`. The source reads a revision of `None` as the empty text, and refuses it.
  unfoldable pub validate_evidence : Json → ℕ → Fields → String → ℕ → Result (List ℕ)
  unfolding record_list check_records all_before member gate
  validate_evidence evidence stage config revision now = do
    active ← active_stages config
    require ((stage == 10) || member stage active)
        "Stage does not apply to the selected deployment mode"
    require (hex_text 40 revision) "A full reviewed Git revision is required"
    records ← record_list evidence
    policy ← approval_policy config
    completed ← check_records x (gate config revision now policy) [] records
    require (all_before stage active completed)
        "Prior stage evidence is missing; do not skip migration gates"
    ok completed
