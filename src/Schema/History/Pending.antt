-- ===== src/Schema/History/Pending.antt =====
-- The two ways in which a history is accepted, and that no approved migration is forgotten.
use mathlib.Core.List.{append_assoc}
use secure_litellm_on_azure.Base.{
  ℕ, zero, suc, ◌≡◌, refl, sym, ◌∙◌, ap, ◌⊎◌, inl, inr, String, true, false, ◌&&◌, ◌||◌, not,
  Option, none, some, List, [], ◌∷◌, ◌++◌, length, all, All, elem, distinct, str_eq, str_eq→eq, ltb,
  map, &&-true, if◌then◌else◌,
}
use secure_litellm_on_azure.Fault.{Result, ok, bind_ok, branch_ok, ok_injective}
use secure_litellm_on_azure.Gates.External.{External}
use secure_litellm_on_azure.Schema.History.{
  Migration, Row, migration_name, row_name, demand_ok, approved, is_expected, active_rows, first,
  after, texts_eq, without, supported_histories, check_tail, upgrade, source_digest, source_upgrade,
  finished_names, prefix_pending, is_empty, pending_of, check_history,
}

pub first-after {ℓ} : {A : Type ℓ} (n : ℕ) (xs : List A) → first n xs ++ after n xs ≡ xs
unfolding first after
first-after zero xs = refl
first-after (suc n) [] = refl
first-after (suc n) (x ∷ xs) = ap (λ ys. x ∷ ys) (first-after n xs)

texts_eq→eq : (ss ts : List String) → texts_eq ss ts ≡ true → ss ≡ ts
unfolding texts_eq
texts_eq→eq [] [] h = refl
texts_eq→eq [] (t ∷ ts) h = absurd (cc h)
texts_eq→eq (s ∷ ss) [] h = absurd (cc h)
texts_eq→eq (s ∷ ss) (t ∷ ts) h =
    let (same, later) = &&-true {a = str_eq s t} {b = texts_eq ss ts} h in
    ap (λ u. u ∷ ss) (str_eq→eq s t same) ∙ ap (λ us. t ∷ us) (texts_eq→eq ss ts later)

abbrev pub AllApproved : List Migration → List Row → Type 0
AllApproved migrations rows = All (λ r. approved migrations r ≡ true) rows

finished_names-ok :
    (migrations : List Migration) (done : List String) (rows : List Row) {finished : List String}
    → finished_names migrations done rows ≡ ok finished
    → (done ++ map row_name rows ≡ finished) × AllApproved migrations rows
unfolding finished_names
finished_names-ok migrations done [] {finished} h =
    (mathlib.Core.List.append-nil done ∙ ok_injective h, tt)
finished_names-ok migrations done (r ∷ rs) h =
    demand_ok (approved migrations r && not (elem r.name done)) _ _ h λ good h1.
      let (names, rest) = finished_names-ok migrations (done ++ (r.name ∷ [])) rs h1 in
      (sym (append_assoc done (r.name ∷ []) (map row_name rs)) ∙ names, ((&&-true good).0, rest))

-- The history is a prefix of the approved release, and the rest is pending.
pub record Prefix (migrations : List Migration) (active : List Row) (pending : List String)
    : Type 0 where
  pub in_order : map row_name active ++ pending ≡ map migration_name migrations
  pub same_code : AllApproved migrations active

pub prefix_pending-Prefix :
    (migrations : List Migration) (active : List Row) {pending : List String}
    → prefix_pending migrations active ≡ ok pending
    → Prefix migrations active pending
unfolding prefix_pending
prefix_pending-Prefix migrations active {pending} h =
    let ordered : List String = map migration_name migrations in
    bind_ok (finished_names migrations [] active) _ h λ finished e1 h1.
      demand_ok (texts_eq finished (first (length finished) ordered)) _ _ h1 λ same h2.
        let (names, good) = finished_names-ok migrations [] active e1 in
        record {
          in_order =
              ap (λ ns. ns ++ pending)
                (names ∙ texts_eq→eq finished (first (length finished) ordered) same)
              ∙ ap (λ ns. first (length finished) ordered ++ ns) (sym (ok_injective h2))
              ∙ first-after (length finished) ordered;
          same_code = good;
        }

-- One of the histories has this digest and this length.
abbrev pub Listed : List (String × ℕ) → String → ℕ → Type 0
Listed [] hash count = ⊥
Listed ((known, length_of) ∷ histories) hash count =
    ((known ≡ hash) × (length_of ≡ count)) ⊎ Listed histories hash count

-- The first rows are a supported source history, by its length and its digest, and the rows after
-- it and the pending migrations are the remaining migrations in order.
pub record Upgraded (x : External) (histories : List (String × ℕ)) (migrations : List Migration)
    (active : List Row) (pending : List String) : Type 0 where
  pub count : ℕ
  pub hash : String
  pub supported : Listed histories hash count
  pub enough : ltb (length active) count ≡ false
  pub digest : source_digest x count active ≡ hash
  pub distinct_names : distinct (map row_name (first count active)) ≡ true
  pub known_names : all (is_expected migrations) (map row_name (first count active)) ≡ true
  pub in_order :
      map row_name (after count active) ++ pending
      ≡ without (map row_name (first count active)) (map migration_name migrations)
  pub same_code : AllApproved migrations (after count active)

check_tail-ok :
    (migrations : List Migration) (remaining : List String) (rows : List Row)
    → check_tail migrations remaining rows ≡ ok tt
    → (map row_name rows ++ after (length rows) remaining ≡ remaining) × AllApproved migrations rows
unfolding check_tail after
check_tail-ok migrations remaining [] h = (refl, tt)
check_tail-ok migrations [] (r ∷ rs) h = absurd (cc h)
check_tail-ok migrations (n ∷ remaining) (r ∷ rs) h =
    demand_ok (str_eq r.name n && approved migrations r) _ _ h λ good h1.
      let (names, rest) = check_tail-ok migrations remaining rs h1 in
      (rw (str_eq→eq r.name n (&&-true good).0) (ap (λ ns. n ∷ ns) names), ((&&-true good).1, rest))

upgrade-Upgraded :
    (x : External) (histories : List (String × ℕ)) (migrations : List Migration) (hash : String)
    (count : ℕ) (active : List Row) {pending : List String}
    → Listed histories hash count
    → ltb (length active) count ≡ false
    → source_digest x count active ≡ hash
    → upgrade migrations count active ≡ ok pending
    → Upgraded x histories migrations active pending
unfolding upgrade
upgrade-Upgraded x histories migrations hash count active {pending} listed long found h =
    let inherited : List String = map row_name (first count active) in
    let remaining : List String = without inherited (map migration_name migrations) in
    demand_ok (distinct inherited && all (is_expected migrations) inherited) _ _ h λ good h1.
      bind_ok (check_tail migrations remaining (after count active)) _ h1 λ _ tail h2.
        let (names, same) = check_tail-ok migrations remaining (after count active) tail in
        record {
          count = count;
          hash = hash;
          supported = listed;
          enough = long;
          digest = found;
          distinct_names = (&&-true good).0;
          known_names = (&&-true good).1;
          in_order =
              ap (λ ns. map row_name (after count active) ++ ns) (sym (ok_injective h2)) ∙ names;
          same_code = same;
        }

later-Upgraded :
    (x : External) (entry : String × ℕ) (histories : List (String × ℕ))
    (migrations : List Migration) (active : List Row) {pending : List String}
    → Upgraded x histories migrations active pending
    → Upgraded x (entry ∷ histories) migrations active pending
later-Upgraded x entry histories migrations active u = record {
  count = u.count;
  hash = u.hash;
  supported = inr u.supported;
  enough = u.enough;
  digest = u.digest;
  distinct_names = u.distinct_names;
  known_names = u.known_names;
  in_order = u.in_order;
  same_code = u.same_code;
}

source_upgrade-Upgraded :
    (x : External) (histories : List (String × ℕ)) (migrations : List Migration) (active : List Row)
    {pending : List String}
    → source_upgrade x histories migrations active ≡ ok (some pending)
    → Upgraded x histories migrations active pending
unfolding source_upgrade
source_upgrade-Upgraded x [] migrations active h = absurd (cc h)
source_upgrade-Upgraded x ((hash, count) ∷ histories) migrations active {pending} h =
    let later : source_upgrade x histories migrations active ≡ ok (some pending)
        → Upgraded x ((hash, count) ∷ histories) migrations active pending =
      λ e.
        later-Upgraded x (hash, count) histories migrations active
          (source_upgrade-Upgraded x histories migrations active e) in
    branch_ok (ltb (length active) count) _ _ h (λ short h1. later h1)
      (λ long h1.
        branch_ok (str_eq (source_digest x count active) hash) _ _ h1
          (λ found h2.
            bind_ok (upgrade migrations count active) (λ found. ok (some found)) h2
              λ found_pending e h3.
                let same : found_pending ≡ pending = cc h3 in
                upgrade-Upgraded x ((hash, count) ∷ histories) migrations hash count active
                  (inl (refl, refl)) long (str_eq→eq (source_digest x count active) hash found)
                  (e ∙ ap ok same))
          (λ other h2. later h2))

-- A source history is accepted in the migration mode only.
abbrev pub Verified : External → List Migration → List Row → String → List String → Type 0
Verified x migrations active mode pending =
    Prefix migrations active pending
    ⊎ ((mode ≡ "migration") × Upgraded x supported_histories migrations active pending)

pending_of-Verified :
    (x : External) (migrations : List Migration) (active : List Row) (mode : String)
    {pending : List String}
    → pending_of x migrations active mode ≡ ok pending
    → Verified x migrations active mode pending
unfolding pending_of
pending_of-Verified x migrations active mode {pending} h =
    bind_ok
      (if str_eq mode "migration"
        then source_upgrade x supported_histories migrations active
        else ok none)
      _ h λ upgraded e h1. split upgraded e h1
  where
    split :
        (o : Option (List String))
        → (if str_eq mode "migration"
            then source_upgrade x supported_histories migrations active
            else ok none)
          ≡ ok o
        → elim o as (λ _. Result (List String)) [
          | some found ↦ ok found
          | none ↦ prefix_pending migrations active
        ]
          ≡ ok pending
        → Verified x migrations active mode pending
    split none e h = inl (prefix_pending-Prefix migrations active h)
    split (some found) e h =
        branch_ok (str_eq mode "migration") _ _ e
          (λ migration e1. inr (
            str_eq→eq mode "migration" migration,
            source_upgrade-Upgraded x supported_histories migrations active
                (e1 ∙ ap (λ p. ok (some p)) (ok_injective h)),
          ))
          (λ other e1. absurd (cc (ok_injective e1)))

-- Where `check_history` returns the pending migrations, the rows that were not rolled back are all
-- finished, and either they are the first of the approved migrations and the pending ones are the
-- others, or the mode is `migration` and they begin with a source history whose length and digest
-- are those of a supported one and whose names are distinct and approved, and the rows after it,
-- followed by the pending ones, are the remaining approved migrations in their order.
pub check_history-Verified :
    (x : External) (migrations : List Migration) (history : List Row) (tables : List String)
    (mode : String) {pending : List String}
    → check_history x migrations history tables mode ≡ ok pending
    → (active : List Row) × (active_rows history ≡ ok active)
      × Verified x migrations active mode pending
unfolding check_history
check_history-Verified x migrations history tables mode h =
    bind_ok (active_rows history) _ h λ active e1 h1.
      bind_ok (pending_of x migrations active mode) _ h1 λ pending' e2 h2.
        demand_ok (is_empty tables || not (is_empty active)) _ _ h2 λ _ h3.
          demand_ok (not (str_eq mode "migration") || not (is_empty tables)) _ _ h3 λ _ h4.
            demand_ok (elem mode ("migration" ∷ "greenfield" ∷ [])) _ _ h4
              λ _ h5. (active, e1, pending_of-Verified x migrations active mode (e2 ∙ h5))
