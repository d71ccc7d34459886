-- ===== src/Schema/History/Applied.antt =====
-- After the pending migrations of a new environment are applied, nothing is pending.
use mathlib.Core.List.{append_assoc, append-nil, map-append}
use secure_litellm_on_azure.Base.{
  ◌≡◌, refl, sym, ◌∙◌, ap, String, Bool, true, false, ◌||◌, not, List, [], ◌∷◌, ◌++◌, length, All,
  elem, elem-append, distinct, eq_refl, eq_iff, map, arith,
}
use secure_litellm_on_azure.Fault.{ok, bind_ok, branch_ok, ok_injective}
use secure_litellm_on_azure.Gates.External.{External}
use secure_litellm_on_azure.Schema.History.{
  Migration, Row, migration_name, row_name, demand_ok, active_rows, first, after, texts_eq,
  finished_names, prefix_pending, is_empty, pending_of, check_history,
}
use secure_litellm_on_azure.Schema.History.Pending.{AllApproved, Prefix, prefix_pending-Prefix}

-- What the deployment of migrations adds to the table: finished rows, in the order of the names.
pub record Deployed (migrations : List Migration) (pending : List String) (added : List Row)
    : Type 0 where
  pub names : map row_name added ≡ pending
  pub same_code : AllApproved migrations added
  pub finished : All (λ r. (r.finished ≡ true) × (r.rolled_back ≡ false)) added

active_rows-keep :
    (r : Row) (rest : List Row) {later : List Row}
    → r.rolled_back ≡ false
    → r.finished ≡ true
    → active_rows rest ≡ ok later
    → active_rows (r ∷ rest) ≡ ok (r ∷ later)
unfolding active_rows
active_rows-keep r rest b f e = simp (b, f, e)

active_rows-skip :
    (r : Row) (rest : List Row) → r.rolled_back ≡ true → active_rows (r ∷ rest) ≡ active_rows rest
unfolding active_rows
active_rows-skip r rest b = simp b

active_rows-added :
    (added : List Row)
    → All (λ r. (r.finished ≡ true) × (r.rolled_back ≡ false)) added
    → active_rows added ≡ ok added
unfolding active_rows
active_rows-added [] h = refl
active_rows-added (r ∷ rs) ((f, b), h) = active_rows-keep r rs b f (active_rows-added rs h)

active_rows-append :
    (history added : List Row) {active : List Row}
    → active_rows history ≡ ok active
    → All (λ r. (r.finished ≡ true) × (r.rolled_back ≡ false)) added
    → active_rows (history ++ added) ≡ ok (active ++ added)
unfolding active_rows
active_rows-append [] added h a =
    active_rows-added added a ∙ ap (λ rows. ok (rows ++ added)) (ok_injective h)
active_rows-append (r ∷ rs) added {active} h a =
    branch_ok r.rolled_back _ _ h
      (λ back h1. active_rows-skip r (rs ++ added) back ∙ active_rows-append rs added h1 a)
      (λ kept h1. demand_ok r.finished _ _ h1 λ done h2. bind_ok (active_rows rs) _ h2 λ later e h3.
        active_rows-keep r (rs ++ added) kept done (active_rows-append rs added e a)
        ∙ ap (λ rows. ok (rows ++ added)) (ok_injective h3))

fresh-middle :
    (done : List String) (n : String) (rest : List String)
    → distinct (done ++ n ∷ rest) ≡ true
    → elem n done ≡ false
fresh-middle [] n rest h = refl
fresh-middle (d ∷ done) n rest h =
    ground (arith, fresh-middle done n rest, elem-append d done (n ∷ rest), eq_iff d n, eq_iff n d)

finished_names-all :
    (migrations : List Migration) (done : List String) (rows : List Row)
    → AllApproved migrations rows
    → distinct (done ++ map row_name rows) ≡ true
    → finished_names migrations done rows ≡ ok (done ++ map row_name rows)
unfolding finished_names
finished_names-all migrations done [] a d = ap ok (sym (append-nil done))
finished_names-all migrations done (r ∷ rs) (good, a) d =
    rw (good, fresh-middle done r.name (map row_name rs) d)
      (finished_names-all migrations (done ++ (r.name ∷ [])) rs a
          (ap distinct (append_assoc done (r.name ∷ []) (map row_name rs)) ∙ d)
        ∙ ap ok (append_assoc done (r.name ∷ []) (map row_name rs)))

first-length : (xs : List String) → first (length xs) xs ≡ xs
unfolding first
first-length [] = refl
first-length (x ∷ xs) = ap (λ ys. x ∷ ys) (first-length xs)

after-length : (xs : List String) → after (length xs) xs ≡ []
unfolding after
after-length [] = refl
after-length (x ∷ xs) = after-length xs

texts_eq_refl : (xs : List String) → texts_eq xs xs ≡ true
unfolding texts_eq
texts_eq_refl [] = refl
texts_eq_refl (x ∷ xs) = rw (eq_refl x, texts_eq_refl xs) refl

prefix_pending_complete :
    (migrations : List Migration) (rows : List Row)
    → AllApproved migrations rows
    → map row_name rows ≡ map migration_name migrations
    → distinct (map migration_name migrations) ≡ true
    → prefix_pending migrations rows ≡ ok []
unfolding prefix_pending
prefix_pending_complete migrations rows a names d =
    let ordered : List String = map migration_name migrations in
    rw
      (
        finished_names-all migrations [] rows a (ap distinct names ∙ d),
        names,
        first-length ordered,
        texts_eq_refl ordered,
        after-length ordered,
      )
      refl

AllApproved-append :
    (migrations : List Migration) (rows added : List Row)
    → AllApproved migrations rows
    → AllApproved migrations added
    → AllApproved migrations (rows ++ added)
AllApproved-append migrations [] added a b = b
AllApproved-append migrations (r ∷ rs) added (good, a) b =
    (good, AllApproved-append migrations rs added a b)

nonempty-names :
    (rows : List Row) (names : List String)
    → map row_name rows ≡ names
    → is_empty names ≡ false
    → is_empty rows ≡ false
unfolding is_empty
nonempty-names [] names e h = ap is_empty e ∙ h
nonempty-names (r ∷ rs) names e h = refl

deployed_names :
    (migrations : List Migration) (active added : List Row) (pending : List String)
    → Prefix migrations active pending
    → map row_name added ≡ pending
    → map row_name (active ++ added) ≡ map migration_name migrations
deployed_names migrations active added pending p e =
    map-append row_name active added ∙ ap (λ ns. map row_name active ++ ns) e ∙ p.in_order

-- In a new environment: where `check_history` returns the pending migrations of a release whose
-- migrations have distinct names, and rows for exactly these are then added as the deployment adds
-- them, `check_history` accepts the new history, whatever the tables are, and finds nothing pending.
pub check_history-Deployed :
    (x : External) (migrations : List Migration) (history added : List Row)
    (tables later_tables : List String) {pending : List String}
    → check_history x migrations history tables "greenfield" ≡ ok pending
    → Deployed migrations pending added
    → distinct (map migration_name migrations) ≡ true
    → is_empty (map migration_name migrations) ≡ false
    → check_history x migrations (history ++ added) later_tables "greenfield" ≡ ok []
unfolding check_history pending_of
check_history-Deployed x migrations history added tables later_tables {pending} h d names_differ
      some_name =
    bind_ok (active_rows history) _ h λ active e1 h1.
      bind_ok (prefix_pending migrations active) _ h1 λ pending' e2 h2.
        demand_ok (is_empty tables || not (is_empty active)) _ _ h2 λ _ h3.
          let prefix = prefix_pending-Prefix migrations active (e2 ∙ h3) in
          let names = deployed_names migrations active added pending prefix d.names in
          let complete : prefix_pending migrations (active ++ added) ≡ ok [] =
            prefix_pending_complete migrations (active ++ added)
              (AllApproved-append migrations active added prefix.same_code d.same_code) names
              names_differ in
          let full =
            nonempty-names (active ++ added) (map migration_name migrations) names some_name in
          simp (
            active_rows-append history added e1 d.finished,
            complete,
            full,
            or_true (is_empty later_tables),
          )
  where
    or_true : (b : Bool) → (b || true) ≡ true
    or_true true = refl
    or_true false = refl
