-- ===== src/Schema/History/Unfinished.antt =====
-- A migration that has neither finished nor been rolled back stops everything.
use secure_litellm_on_azure.Base.{
  ◌≡◌, refl, inl, inr, String, Bool, true, false, List, [], ◌∷◌, Some, if◌then◌else◌,
}
use secure_litellm_on_azure.Fault.{Result, ok, err, database_auth_error, ◌>>=◌, ◌>>◌}
use secure_litellm_on_azure.Gates.External.{External}
use secure_litellm_on_azure.Schema.History.{
  Migration, Row, demand, unfinished, active_rows, check_history,
}

-- The row is of a migration that began and did not end.
abbrev pub Open : Row → Type 0
Open r = (r.rolled_back ≡ false) × (r.finished ≡ false)

kept_error :
    (kept done : Bool) (r : Row) (later : Result (List Row))
    → later ≡ err (database_auth_error unfinished)
    → (if kept then later else (demand done unfinished >> (later >>= λ rest. ok (r ∷ rest))))
      ≡ err (database_auth_error unfinished)
kept_error true done r later e = e
kept_error false true r later e = simp e
kept_error false false r later e = refl

active_rows-Open :
    (history : List Row)
    → Some Open history
    → active_rows history ≡ err (database_auth_error unfinished)
unfolding active_rows
active_rows-Open [] h = elim h [ ]
active_rows-Open (r ∷ rs) (inl (kept, open_row)) = simp (kept, open_row)
active_rows-Open (r ∷ rs) (inr h) =
    kept_error r.rolled_back r.finished r (active_rows rs) (active_rows-Open rs h)

-- If a row is neither finished nor rolled back, `check_history` raises the error that asks for an
-- investigation, whatever the release, the tables and the mode are.
pub check_history-Open :
    (x : External) (migrations : List Migration) (history : List Row) (tables : List String)
    (mode : String)
    → Some Open history
    → check_history x migrations history tables mode ≡ err (database_auth_error unfinished)
unfolding check_history
check_history-Open x migrations history tables mode h = simp (active_rows-Open history h)
