-- ===== src/Params/Component/Staged.antt =====
-- The stages in which a component has parameters.
use secure_litellm_on_azure.Base.{
  ℕ, ◌≤◌, String, ◌<>◌, ◌≡◌, refl, sym, ap, subst, str_eq→eq, Bool-cases, inl, inr, true, false,
  ◌||◌, Option, none, some, List, str_eq, ◌==◌, arith,
}
use secure_litellm_on_azure.Json.{Json, Fields}
use secure_litellm_on_azure.Fault.{
  Result, ok, err, require, bind_ok, require_ok, ok_injective, key_error, ◌>>◌,
}
use secure_litellm_on_azure.Gates.Policy.{member}
use secure_litellm_on_azure.Gates.Stages.{active_stages}
use secure_litellm_on_azure.Gates.Components.{Component, components, find_component}
use secure_litellm_on_azure.Runner.Connectivity.{TextHash}
use secure_litellm_on_azure.Params.Access.{Networks}
use secure_litellm_on_azure.Params.Component.{
  in_stage, final_parameters, document_for, parameters_for,
}

platform_stage : (c : Component) → find_component "platform" components ≡ some c → c.stage ≡ 3
unfolding find_component
platform_stage c h =
    ap (λ (o : Option Component). elim o as (λ _. ℕ) [ none ↦ 3 | some d ↦ d.stage ]) (sym h)

found_stage :
    (name : String) (c : Component)
    → find_component name components ≡ some c
    → str_eq name "platform" ≡ true
    → c.stage ≡ 3
found_stage name c f p =
    platform_stage c
      (subst (λ name. find_component name components ≡ some c) (str_eq→eq name "platform" p) f)

allowed-le :
    (name : String) (first stage : ℕ)
    → (str_eq name "platform" ≡ true → first ≡ 3)
    → in_stage name first stage ≡ true
    → first ≤ stage
unfolding in_stage
allowed-le name first stage platform h = elim (Bool-cases (str_eq name "platform")) [
  | inl p ↦ later (platform p) (simp p at h)
  | inr p ↦ ground arith
]
  where
    later : first ≡ 3 → ((stage == 3) || (stage == 4) || (stage == 5)) ≡ true → first ≤ stage
    later e h = ground arith

module _ (networks : Networks) (hash : TextHash) where
  -- The component is one of the table, and the stage is one that applies to the deployment.
  pub record Chosen (config : Fields) (stage : ℕ) (name : String) (answer : String × Json)
      : Type 0 where
    pub active : List ℕ
    pub active_of : active_stages config ≡ ok active
    pub applies : member stage active ≡ true
    pub component : Component
    pub found : find_component name components ≡ some component
    pub documented : document_for networks hash config stage name component ≡ ok answer

  pub parameters_for-Chosen :
      (config : Fields) (stage : ℕ) (name : String) {answer : String × Json}
      → parameters_for networks hash config stage name ≡ ok answer
      → Chosen config stage name answer
  unfolding parameters_for
  parameters_for-Chosen config stage name {answer} h =
      bind_ok (active_stages config) _ h λ active e1 h1.
        require_ok (member stage active) _ _ h1
          λ applies h2. go active e1 applies (find_component name components) refl h2
    where
      go :
          (active : List ℕ)
          → active_stages config ≡ ok active
          → member stage active ≡ true
          → (o : Option Component) → find_component name components ≡ o
          → elim o as (λ _. Result (String × Json)) [
            | none ↦ (require false "Select an IaC component" >> err (key_error name))
            | some c ↦ document_for networks hash config stage name c
          ]
            ≡ ok answer
          → Chosen config stage name answer
      go active e1 applies none e h = absurd (cc h)
      go active e1 applies (some c) e h = record {
        active = active;
        active_of = e1;
        applies = applies;
        component = c;
        found = e;
        documented = h;
      }

  -- If `parameters_for` gives a document, the stage applies to the deployment, the component is one of
  -- the table, the stage is not before the component's first, and the path is that of its template.
  pub parameters_for-Staged :
      (config : Fields) (stage : ℕ) (name path : String) {document : Json}
      → parameters_for networks hash config stage name ≡ ok (path, document)
      → (active : List ℕ) × (active_stages config ≡ ok active)
        × (member stage active ≡ true)
        × (c : Component) × (find_component name components ≡ some c)
        × (c.stage ≤ stage)
        × (path ≡ "infra/" <> c.template <> "/main.bicep")
  unfolding document_for in_stage
  parameters_for-Staged config stage name path {document} h =
      let chosen = parameters_for-Chosen config stage name h in
      let c = chosen.component in
      require_ok (in_stage name c.stage stage) _ _ chosen.documented λ allowed h1.
        bind_ok (final_parameters networks hash config stage name) _ h1 λ p e2 h2. (
          chosen.active,
          chosen.active_of,
          chosen.applies,
          c,
          chosen.found,
          allowed-le name c.stage stage (found_stage name c chosen.found) allowed,
          ap (λ (r : String × Json). r.0) (sym (ok_injective h2)),
        )
