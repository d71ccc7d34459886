-- ===== src/Gates/Evidence/Binding.antt =====
-- What `check_scope` and `check_report` accept.
use secure_litellm_on_azure.Base.{
  ℕ, String, ◌≡◌, refl, ◌∙◌, ap, subst, ◌⊎◌, inl, inr, Bool, true, false, ◌&&◌, ◌||◌, [], ◌∷◌,
  str_eq, str_eq→eq, arith, &&-true, Bool-cases, if◌then◌else◌,
}
use secure_litellm_on_azure.Base.Text.{hex_text}
use secure_litellm_on_azure.Json.{Json, null, str, obj, is_text, json_eq}
use secure_litellm_on_azure.Json.Laws.{is_text-eq}
use secure_litellm_on_azure.Fault.{ok, get_or, index, bind_ok, require_ok, last_require}
use secure_litellm_on_azure.Gates.Policy.{one_of}
use secure_litellm_on_azure.Gates.External.{External, fingerprint, stage_fingerprint}
use secure_litellm_on_azure.Gates.Evidence.{hex_match, Gate, check_scope}

-- The record is bound to this environment, to the hash of the whole configuration or of the part
-- that its stage depends on, and to a full revision: the reviewed one unless one operator approves.
pub record Bound (x : External) (g : Gate) (stage : ℕ) (item : Json) : Type 0 where
  pub hash : String
  pub hash_recorded : get_or item "configSha256" null ≡ ok (str hash)
  pub hash_of_config :
      (hash ≡ fingerprint x (obj g.config)) ⊎ (stage_fingerprint x stage g.config ≡ ok hash)
  pub revision : String
  pub revision_recorded : get_or item "revision" (str "") ≡ ok (str revision)
  pub full_revision : hex_text 40 revision ≡ true
  pub same_revision : (g.mode ≡ "single-operator") ⊎ (revision ≡ g.revision)
  pub approval_mode : get_or item "approvalMode" (str "dual") ≡ ok (str g.mode)

hex_match-ok :
    (n : ℕ) (v : Json) (b : Bool)
    → hex_match n v ≡ ok b
    → (s : String) × (v ≡ str s) × (hex_text n s ≡ b)
unfolding hex_match
hex_match-ok n (str s) b h = (s, refl, cc h)
hex_match-ok n _ b h = absurd (cc h)

expected_hash :
    (x : External) (g : Gate) (stage : ℕ) (c : Bool) (hash : String)
    → (if c then stage_fingerprint x stage g.config else ok (fingerprint x (obj g.config)))
      ≡ ok hash
    → (hash ≡ fingerprint x (obj g.config)) ⊎ (stage_fingerprint x stage g.config ≡ ok hash)
expected_hash x g stage true hash h = inr h
expected_hash x g stage false hash h = inl (cc h)

revision_rule :
    (mode wanted revision : String)
    → (str_eq mode "single-operator" || is_text wanted (str revision)) ≡ true
    → (mode ≡ "single-operator") ⊎ (revision ≡ wanted)
unfolding is_text
revision_rule mode wanted revision h = elim (Bool-cases (str_eq mode "single-operator")) [
  | inl single ↦ inl (str_eq→eq mode "single-operator" single)
  | inr dual ↦ inr (str_eq→eq revision wanted (ground arith))
]

pub check_scope-Bound :
    (x : External) (g : Gate) (stage : ℕ) (item : Json)
    → check_scope x g stage item ≡ ok tt
    → Bound x g stage item
unfolding check_scope
check_scope-Bound x g stage item h =
    bind_ok (get_or item "binding" (str "full-config")) _ h λ binding e1 h1.
      bind_ok (one_of ("full-config" ∷ "stage-config" ∷ []) binding) _ h1 λ known e2 h2.
        require_ok known _ _ h2 λ binds h3.
          bind_ok
            (if is_text "stage-config" binding
              then stage_fingerprint x stage g.config
              else ok (fingerprint x (obj g.config)))
            _ h3
            λ expected e4 h4. bind_ok (get_or item "revision" (str "")) _ h4 λ rev e5 h5.
              bind_ok (hex_match 40 rev) _ h5 λ full e6 h6.
                bind_ok (get_or item "environment" null) _ h6 λ environment e7 h7.
                  bind_ok (index (obj g.config) "environment") _ h7 λ wanted e8 h8.
                    bind_ok (get_or item "configSha256" null) _ h8 λ hash e9 h9.
                      require_ok
                        (json_eq environment wanted
                          && is_text expected hash
                          && (full && (str_eq g.mode "single-operator" || is_text g.revision rev)))
                        _ _ h9
                        λ all h10.
                          bind_ok (get_or item "approvalMode" (str "dual")) _ h10
                            λ approval e11 h11.
                              let scope = (&&-true all).0 in
                              let matches = (&&-true all).1 in
                              let (text, same, hex) = hex_match-ok 40 rev full e6 in
                              record {
                                hash = expected;
                                hash_recorded =
                                    e9 ∙ ap ok (is_text-eq expected hash (&&-true scope).1);
                                hash_of_config =
                                    expected_hash x g stage (is_text "stage-config" binding)
                                      expected e4;
                                revision = text;
                                revision_recorded = e5 ∙ ap ok same;
                                full_revision = hex ∙ (&&-true matches).0;
                                same_revision = revision_rule g.mode g.revision text (
                                    subst
                                      (λ v.
                                        (str_eq g.mode "single-operator" || is_text g.revision v)
                                        ≡ true)
                                      same (&&-true matches).1);
                                approval_mode =
                                    e11 ∙ ap ok (is_text-eq g.mode approval (last_require _ _ h11));
                              }
