-- ===== src/Gates/Ledger/Kept.antt =====
-- The records of earlier stages stay in the ledger.
use secure_litellm_on_azure.Base.{
  ℕ, suc, String, ◌≡◌, refl, sym, ◌∙◌, ap, subst, ◌⊎◌, inl, inr, Bool, true, false, List, [], ◌∷◌,
  ◌++◌, length, select, Some, Bool-cases,
}
use secure_litellm_on_azure.Json.{Json, Items, Fields, items}
use secure_litellm_on_azure.Fault.{ok}
use secure_litellm_on_azure.Gates.External.{External}
use secure_litellm_on_azure.Gates.Ledger.{
  before_stage, insert_record, sort_records, entry_stage, stage_leb, record_evidence,
}
use secure_litellm_on_azure.Gates.Ledger.Opened.{record_evidence-Extended}

-- The record is one of the list.
abbrev pub In : Json → List Json → Type 0
In r rs = Some (λ s. s ≡ r) rs

In-chosen :
    (b : Bool) (r s : Json) (rest : List Json)
    → ((s ≡ r) × (b ≡ true)) ⊎ In r rest
    → In r (elim b [ true ↦ s ∷ rest | false ↦ rest ])
In-chosen true r s rest (inl (e, _)) = inl e
In-chosen false r s rest (inl (_, b)) = absurd (cc b)
In-chosen true r s rest (inr i) = inr i
In-chosen false r s rest (inr i) = i

In-select :
    (r : Json) (stage : ℕ) (rs : List Json)
    → In r rs
    → before_stage stage r ≡ true
    → In r (select (before_stage stage) rs)
In-select r stage [] i b = elim i [ ]
In-select r stage (s ∷ rs) (inl e) b =
    In-chosen (before_stage stage s) r s (select (before_stage stage) rs)
      (inl (e, ap (before_stage stage) e ∙ b))
In-select r stage (s ∷ rs) (inr i) b =
    In-chosen (before_stage stage s) r s (select (before_stage stage) rs)
      (inr (In-select r stage rs i b))

In-append : (r : Json) (rs ss : List Json) → In r rs → In r (rs ++ ss)
In-append r [] ss i = elim i [ ]
In-append r (s ∷ rs) ss (inl e) = inl e
In-append r (s ∷ rs) ss (inr i) = inr (In-append r rs ss i)

In-insert_record : (r s : Json) (rs : List Json) → (s ≡ r) ⊎ In r rs → In r (insert_record s rs)
unfolding insert_record
In-insert_record r s [] (inl e) = inl e
In-insert_record r s [] (inr i) = elim i [ ]
In-insert_record r s (t ∷ rs) h = elim (Bool-cases (stage_leb (entry_stage s) (entry_stage t))) [
  | inl first ↦ rw first h
  | inr later ↦ rw later (behind h (λ i. In-insert_record r s rs i))
]
  where
    behind :
        (s ≡ r) ⊎ ((t ≡ r) ⊎ In r rs)
        → ((s ≡ r) ⊎ In r rs → In r (insert_record s rs))
        → (t ≡ r) ⊎ In r (insert_record s rs)
    behind (inl e) deeper = inr (deeper (inl e))
    behind (inr (inl e)) deeper = inl e
    behind (inr (inr i)) deeper = inr (deeper (inr i))

In-sort_records : (r : Json) (rs : List Json) → In r rs → In r (sort_records rs)
unfolding sort_records
In-sort_records r [] i = elim i [ ]
In-sort_records r (s ∷ rs) (inl e) = In-insert_record r s (sort_records rs) (inl e)
In-sort_records r (s ∷ rs) (inr i) =
    In-insert_record r s (sort_records rs) (inr (In-sort_records r rs i))

length-insert_record : (s : Json) (rs : List Json) → length (insert_record s rs) ≡ suc (length rs)
unfolding insert_record
length-insert_record s [] = refl
length-insert_record s (t ∷ rs) = elim (Bool-cases (stage_leb (entry_stage s) (entry_stage t))) [
  | inl first ↦ rw first refl
  | inr later ↦ rw later (ap suc (length-insert_record s rs))
]

length-sort_records : (rs : List Json) → length (sort_records rs) ≡ length rs
unfolding sort_records
length-sort_records [] = refl
length-sort_records (r ∷ rs) =
    length-insert_record r (sort_records rs) ∙ ap suc (length-sort_records rs)

length-snoc : (rs : List Json) (r : Json) → length (rs ++ (r ∷ [])) ≡ suc (length rs)
length-snoc [] r = refl
length-snoc (s ∷ rs) r = ap suc (length-snoc rs r)

-- When `record_evidence` returns a ledger, each record of an earlier stage is still in it as it
-- was, and it has exactly one record more than there were records of earlier stages.
pub record_evidence-In :
    (x : External) (config : Fields) (stage : ℕ) (revision : String) (previous : Items)
    (report url approvers : Json) (now : ℕ) {records : List Json}
    → record_evidence x config stage revision previous report url approvers now ≡ ok records
    → ((r : Json) → In r (items previous) → before_stage stage r ≡ true → In r records)
      × (length records ≡ suc (length (select (before_stage stage) (items previous))))
record_evidence-In x config stage revision previous report url approvers now {records} h =
    let e = record_evidence-Extended x config stage revision previous report url approvers now h in
    let kept : List Json = select (before_stage stage) (items previous) in
    (
      λ r i b.
          subst (λ rs. In r rs) (sym e.sorted)
            (In-sort_records r (kept ++ (e.added ∷ []))
              (In-append r kept (e.added ∷ []) (In-select r stage (items previous) i b))),
      ap length e.sorted ∙ length-sort_records (kept ++ (e.added ∷ [])) ∙ length-snoc kept e.added,
    )
