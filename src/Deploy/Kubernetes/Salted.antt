-- ===== src/Deploy/Kubernetes/Salted.antt =====
-- The Salt of a Secret that is there is kept.
use secure_litellm_on_azure.Base.{
  String, ◌<>◌, ◌≡◌, refl, sym, ap, ◌∙◌, subst, Option, none, some, [], ◌∷◌, arith, All, str_eq,
  if◌then◌else◌,
}
use secure_litellm_on_azure.Json.{Json, str, obj, Fields, get}
use secure_litellm_on_azure.Fault.{ok, bind_ok, ok_injective}
use secure_litellm_on_azure.Calls.Logic.{From, bind_From, lift_then, lift_From}
use secure_litellm_on_azure.Calls.{continue}
use secure_litellm_on_azure.Deploy.Script.{
  rescue, Call, asked, History, World, Program, ask, attempt, if_missing, ◌⦂◌, dict, attribute,
}
use secure_litellm_on_azure.Deploy.Logic.{attempt_From, if_missing_From, ask_From, kept_at_end}
use secure_litellm_on_azure.Deploy.Kubernetes.{
  attributes, kept_salt, kept_secret, read_or_create, replace_found, apply, apply_secret,
}

abbrev some_of : Json → Option Json → Json
some_of default none = default
some_of default (some v) = v

some_injective : {a b : Json} → some a ≡ some b → a ≡ b
some_injective {a} e = ap (some_of a) e

-- The Secret that a call writes.
abbrev pub written_secret : Call → Option Json
written_secret (asked method (name ∷ namespace ∷ body ∷ [])) =
    if str_eq method "replace_namespaced_secret" then some body else none
written_secret (asked method (namespace ∷ body ∷ [])) =
    if str_eq method "create_namespaced_secret" then some body else none
written_secret _ = none

-- A Secret that the call writes has the Salt.
pub record KeepsSalt (salt : Json) (c : Call) : Type 0 where
  pub written :
      (body : Json)
      → written_secret c ≡ some body
      → attributes body ("data" ∷ "LITELLM_SALT_KEY" ∷ []) ≡ ok salt

-- The Secret of `kept_secret`.
abbrev with_salt : String → Json → Json → Json → Json → Json
with_salt name namespace contents version kept = dict (
    "metadata"
      ⦂ dict ("name" ⦂ str name ∷ "namespace" ⦂ namespace ∷ "resource_version" ⦂ version ∷ [])
    ∷ "string_data" ⦂ contents
    ∷ "data" ⦂ kept
    ∷ [])

with_salt_lem :
    (name : String) (namespace contents version salt : Json)
    → attributes
        (with_salt name namespace contents version (dict ("LITELLM_SALT_KEY" ⦂ salt ∷ [])))
        ("data" ∷ "LITELLM_SALT_KEY" ∷ [])
      ≡ ok salt
unfolding attributes attribute get
with_salt_lem name namespace contents version salt = refl

kept_salt-held :
    (held : Fields) (salt : Json)
    → get "LITELLM_SALT_KEY" held ≡ some salt
    → kept_salt (obj held) ≡ ok (dict ("LITELLM_SALT_KEY" ⦂ salt ∷ []))
unfolding kept_salt
kept_salt-held held salt e = ground arith

kept_secret-salt :
    (name : String) (namespace contents existing : Json) (held : Fields) (salt : Json)
    {changed : Json}
    → attributes existing ("data" ∷ []) ≡ ok (obj held)
    → get "LITELLM_SALT_KEY" held ≡ some salt
    → kept_secret name namespace contents existing ≡ ok changed
    → attributes changed ("data" ∷ "LITELLM_SALT_KEY" ∷ []) ≡ ok salt
unfolding kept_secret
kept_secret-salt name namespace contents existing held salt found salted h =
    bind_ok (attributes existing ("metadata" ∷ "resource_version" ∷ [])) _ h λ version e0 h1.
      bind_ok (attributes existing ("data" ∷ [])) _ h1 λ v e1 h2.
        bind_ok (kept_salt v) _ h2 λ s e2 h3.
          subst (λ changed. attributes changed ("data" ∷ "LITELLM_SALT_KEY" ∷ []) ≡ ok salt)
            (ap (with_salt name namespace contents version) (
                ok_injective (
                  sym (kept_salt-held held salt salted)
                  ∙ (ap kept_salt (ok_injective (sym found ∙ e1)) ∙ e2)))
              ∙ ok_injective h3)
            (with_salt_lem name namespace contents version salt)

read_or_create_found :
    (world : World) (kind : String) (name namespace body : Json) {existing : Json} (h : History)
    → world.answer h ("read_" <> kind) (name ∷ namespace ∷ []) ≡ ok existing
    → read_or_create world kind name namespace body h
      ≡ (ok (some existing), asked ("read_" <> kind) (name ∷ namespace ∷ []) ∷ h)
unfolding read_or_create
read_or_create_found world kind name namespace body h e = rw (e, rescue, continue) refl

module _ (world : World) (namespace name : String) (contents existing : Json) (held : Fields)
    (salt : Json) (found : attributes existing ("data" ∷ []) ≡ ok (obj held))
    (salted : get "LITELLM_SALT_KEY" held ≡ some salt) where
  abbrev Keep : History → Type 0
  Keep h = All (KeepsSalt salt) h

  writes :
      (changed : Json)
      → attributes changed ("data" ∷ "LITELLM_SALT_KEY" ∷ []) ≡ ok salt
      → From Keep
          (attempt
            (ask world "replace_namespaced_secret" (str name ∷ str namespace ∷ changed ∷ []))
            (if_missing (ask world "create_namespaced_secret" (str namespace ∷ changed ∷ []))))
          (λ _. Keep)
          Keep
  writes changed kept =
      attempt_From _ _
        (ask_From world "replace_namespaced_secret" (str name ∷ str namespace ∷ changed ∷ []) λ h p.
          (
            record {
              written = λ body e.
                  subst (λ b. attributes b ("data" ∷ "LITELLM_SALT_KEY" ∷ []) ≡ ok salt)
                    (some_injective e) kept;
            },
            p,
          ))
        (if_missing_From (λ h p. p) _
          (ask_From world "create_namespaced_secret" (str namespace ∷ changed ∷ []) λ h p. (
            record {
              written = λ body e.
                  subst (λ b. attributes b ("data" ∷ "LITELLM_SALT_KEY" ∷ []) ≡ ok salt)
                    (some_injective e) kept;
            },
            p,
          )))

  -- What follows the read.
  abbrev after_read : Option Json → Program (Unit {0})
  after_read =
      replace_found world "namespaced_secret" (str name) (str namespace)
        (kept_secret name (str namespace) contents)

  after_read_From : From Keep (after_read (some existing)) (λ _. Keep) Keep
  unfolding replace_found
  after_read_From =
      lift_then (kept_secret name (str namespace) contents existing) _ (λ h p. p)
        λ changed e.
          bind_From
            (attempt
              (ask world "replace_namespaced_secret" (str name ∷ str namespace ∷ changed ∷ []))
              (if_missing (ask world "create_namespaced_secret" (str namespace ∷ changed ∷ []))))
            _
            (writes changed
              (kept_secret-salt name (str namespace) contents existing held salt found salted e))
            λ answer. lift_From _ (λ h p. p) λ a _ h p. p

  -- Where the Secret that is read has a Salt, every Secret that `apply_secret` writes has that Salt,
  -- however it ends, if those written before it have.
  pub apply_secret-KeepsSalt :
      (h : History)
      → world.answer h "read_namespaced_secret" (str name ∷ str namespace ∷ []) ≡ ok existing
      → All (KeepsSalt salt) h
      → All (KeepsSalt salt) ((apply_secret world namespace name contents h).1)
  unfolding apply_secret apply
  apply_secret-KeepsSalt h answered kept =
      subst (λ out. Keep ((continue after_read out).1))
        (sym
          (read_or_create_found world "namespaced_secret" (str name) (str namespace) _ h answered))
        (kept_at_end Keep (after_read (some existing) (_ ∷ h))
          (after_read_From.runs (_ ∷ h) (record { written = λ body e. absurd (cc e) }, kept)))
