-- ===== src/Examples/Schema.antt =====
-- Histories of a release of three migrations.
use secure_litellm_on_azure.Base.{
  ◌≡◌, refl, inl, String, Bool, true, false, some, List, [], ◌∷◌, ◌++◌,
}
use secure_litellm_on_azure.Fault.{ok, err, database_auth_error}
use secure_litellm_on_azure.Schema.History.{
  Migration, Row, unfinished, approved, active_rows, source_upgrade, is_empty, check_history,
}
use secure_litellm_on_azure.Schema.History.Applied.{Deployed, check_history-Deployed}
use secure_litellm_on_azure.Schema.History.Pending.{Verified, check_history-Verified}
use secure_litellm_on_azure.Schema.History.Unfinished.{check_history-Open}
use secure_litellm_on_azure.Schema.History.Upgrade.{Accounted, check_history-Accounted}
use secure_litellm_on_azure.Examples.Gates.{stand_in, hash}

abbrev migration : String → String → Migration
migration name code = record { name = name; sha256 = code }

abbrev release : List Migration
release = migration "a" "1" ∷ migration "b" "2" ∷ migration "c" "3" ∷ []

abbrev row : String → String → Bool → Bool → Row
row name code finished rolled_back = record {
  name = name;
  checksum = code;
  finished = finished;
  rolled_back = rolled_back;
}

-- A rolled back attempt does not count.
abbrev begun : List Row
begun = row "b" "9" false true ∷ row "a" "1" true false ∷ []

abbrev deployed : List Row
deployed = row "b" "2" true false ∷ row "c" "3" true false ∷ []

begun_run : check_history stand_in release begun ("t" ∷ []) "greenfield" ≡ ok ("b" ∷ "c" ∷ [])
unfolding check_history
begun_run = refl

check_history-Verified_example :
    (active : List Row) × (active_rows begun ≡ ok active)
    × Verified stand_in release active "greenfield" ("b" ∷ "c" ∷ [])
check_history-Verified_example =
    check_history-Verified stand_in release begun ("t" ∷ []) "greenfield" begun_run

check_history-Accounted_example :
    (active : List Row) × (active_rows begun ≡ ok active) × Accounted "c" active ("b" ∷ "c" ∷ [])
check_history-Accounted_example =
    check_history-Accounted stand_in release begun ("t" ∷ []) "greenfield" "c" begun_run refl

deployed_rows : Deployed release ("b" ∷ "c" ∷ []) deployed
unfolding approved
deployed_rows = record {
  names = refl;
  same_code = (refl, (refl, tt));
  finished = ((refl, refl), ((refl, refl), tt));
}

release_named : is_empty {A = String} ("a" ∷ "b" ∷ "c" ∷ []) ≡ false
unfolding is_empty
release_named = refl

check_history-Deployed_example :
    check_history stand_in release (begun ++ deployed) [] "greenfield" ≡ ok []
check_history-Deployed_example =
    check_history-Deployed stand_in release begun deployed ("t" ∷ []) [] begun_run deployed_rows
      refl release_named

check_history-Open_example :
    check_history stand_in release (row "a" "1" false false ∷ []) [] "migration"
    ≡ err (database_auth_error unfinished)
check_history-Open_example =
    check_history-Open stand_in release (row "a" "1" false false ∷ []) [] "migration"
      (inl (refl, refl))

-- A source history of one row, which another release had named `c`, is followed by `a`.
upgraded_run :
    source_upgrade stand_in
      ((hash, 1) ∷ [])
      release
      (row "c" "old" true false ∷ row "a" "1" true false ∷ [])
    ≡ ok (some ("b" ∷ []))
unfolding source_upgrade
upgraded_run = refl
