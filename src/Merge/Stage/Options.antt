-- ===== src/Merge/Stage/Options.antt =====
-- The options that `validate_options` accepts.
use secure_litellm_on_azure.Base.{
  ℕ, String, ◌≡◌, refl, ◌↔◌, Bool, true, false, ◌&&◌, not, Option, none, some, List, [], ◌∷◌, All,
  distinct, elem, ◌==◌, ==_iff, arith,
}
use secure_litellm_on_azure.Fault.{ok, bind_ok, require_ok, last_require}
use secure_litellm_on_azure.Merge.Stage.{
  OptionSpec, option_specs, find_spec, check_spec, check_options, validate_options,
}

-- The option is in the table, and belongs to the stage.
abbrev pub KnownAt : ℕ → String → Type 0
KnownAt stage option =
    (s : OptionSpec) × (find_spec option option_specs ≡ some s) × (stage ≡ s.stage)

check_spec_sound :
    (stage : ℕ) (o : Option OptionSpec)
    → check_spec stage o ≡ ok tt
    → (s : OptionSpec) × (o ≡ some s) × (stage ≡ s.stage)
unfolding check_spec
check_spec_sound stage none h = absurd (cc h)
check_spec_sound stage (some s) h =
    (s, refl, (==_iff stage s.stage).0 (last_require (stage == s.stage) _ h))

check_options_sound :
    (stage : ℕ) (options : List String)
    → check_options stage options ≡ ok tt
    → All (KnownAt stage) options
unfolding check_options
check_options_sound stage [] h = tt
check_options_sound stage (option ∷ rest) h =
    bind_ok (check_spec stage (find_spec option option_specs)) _ h λ _ known h1. (
      check_spec_sound stage (find_spec option option_specs) known,
      check_options_sound stage rest h1,
    )

check_options_complete :
    (stage : ℕ) (options : List String)
    → All (KnownAt stage) options
    → check_options stage options ≡ ok tt
unfolding check_options check_spec
check_options_complete stage [] h = refl
check_options_complete stage (option ∷ rest) ((s, known, at), h) =
    rw (known, (==_iff stage s.stage).1 at) (check_options_complete stage rest h)

-- Options are accepted exactly when they are distinct, all belong to the stage, and do not hold
-- both audit alternatives.
pub validate_options_iff :
    (stage : ℕ) (options : List String)
    → (validate_options stage options ≡ ok tt) ↔ (
        (distinct options ≡ true)
        × All (KnownAt stage) options
        × ((elem "enhanced-l3" options && elem "observability" options) ≡ false))
unfolding validate_options
validate_options_iff stage options = (
  λ h. require_ok (distinct options) _ _ h λ once h1.
      bind_ok (check_options stage options) _ h1 λ _ known h2.
        (once, check_options_sound stage options known, not_both (last_require _ _ h2)),
  λ g. rw (g.0, check_options_complete stage options g.1, g.2),
)
  where
    not_both : {b : Bool} → not b ≡ true → b ≡ false
    not_both h = ground arith
