-- ===== src/Deploy/Kubernetes/Expanded.antt =====
-- A claim that is there is changed only to make it larger.
use secure_litellm_on_azure.Base.{
  String, ◌≡◌, refl, subst, ◌⊎◌, inl, inr, Bool, true, false, not, Option, none, some, List, [],
  ◌∷◌, any, str_eq, arith,
}
use Prim.Native.Nat.{Ordering}
use secure_litellm_on_azure.Json.{Json, null, str, is_null}
use secure_litellm_on_azure.Fault.{Result, ok, get_or}
use secure_litellm_on_azure.Calls.Logic.{
  From, bind_From, branch_From, lift_then, lift_From, call_From,
}
use secure_litellm_on_azure.Deploy.Script.{Call, asked, History, World, lift, ask}
use secure_litellm_on_azure.Deploy.Logic.{
  attempt_From, if_missing_From, ask_From, split_From, kept_at_end,
}
use secure_litellm_on_azure.Deploy.Kubernetes.{
  attributes, read_or_create, resize_to, resize_pvc, resize_found, apply_pvc,
}

-- The call changes a claim.
abbrev pub is_resize : Call → Bool
is_resize (asked method arguments) = str_eq method "patch_namespaced_persistent_volume_claim"
is_resize _ = false

module _ (world : World) (namespace name storage : String) (expand_existing : Bool) where
  -- What the first call reads.
  abbrev ReadAs : Json → Type 0
  ReadAs existing =
      world.answer [] "read_namespaced_persistent_volume_claim" (str name ∷ str namespace ∷ [])
      ≡ ok existing

  -- An expansion is asked for, and the size is more than that of the claim that is there.
  pub record Larger : Type 0 where
    pub expanded : expand_existing ≡ true
    pub existing : Json
    pub answer : ReadAs existing
    pub requests : Json
    pub requested : attributes existing ("spec" ∷ "resources" ∷ "requests" ∷ []) ≡ ok requests
    pub current : Json
    pub of_storage : get_or requests "storage" null ≡ ok current
    pub larger : world.compare_quantities (str storage) current ≡ ok Ordering.gt

  abbrev Same : History → Type 0
  Same h = any is_resize h ≡ false

  abbrev Grown : History → Type 0
  Grown h = Same h ⊎ Larger

  asks_Grown :
      (method : String) (arguments : List Json)
      → str_eq method "patch_namespaced_persistent_volume_claim" ≡ false
      → From Grown (ask world method arguments) (λ _. Grown) Grown
  asks_Grown method arguments other = ask_From world method arguments λ h p. grown h p
    where
      grown : (h : History) → Grown h → Grown (asked method arguments ∷ h)
      grown h (inl same) = inl (rw other same)
      grown h (inr larger) = inr larger

  keeps_Grown : {A : Type 0} (result : Result A) → From Same (lift result) (λ _. Grown) Grown
  keeps_Grown result = lift_From result (λ h p. inl p) λ a e h p. inl p

  resize_to-Grown :
      (existing requests current : Json)
      → ReadAs existing
      → attributes existing ("spec" ∷ "resources" ∷ "requests" ∷ []) ≡ ok requests
      → get_or requests "storage" null ≡ ok current
      → (order : Ordering) → world.compare_quantities (str storage) current ≡ ok order
      → From Same
          (resize_to world namespace name storage expand_existing current order)
          (λ _. Grown)
          Grown
  unfolding resize_to
  resize_to-Grown existing requests current answer e1 e2 Ordering.lt e3 = keeps_Grown _
  resize_to-Grown existing requests current answer e1 e2 Ordering.eq e3 = keeps_Grown _
  resize_to-Grown existing requests current answer e1 e2 Ordering.gt e3 =
      split_From (not expand_existing) _ _ (λ _. keeps_Grown _)
        λ wanted.
          bind_From {R = λ _. Grown} (ask world "patch_namespaced_persistent_volume_claim" _) _
            (call_From _ _ (λ h p. inr (larger wanted)) λ h p a _. inr (larger wanted))
            λ patched. lift_From _ (λ h p. p) λ a _ h p. p
    where
      larger : not expand_existing ≡ false → Larger
      larger wanted = record {
        expanded = ground arith;
        existing = existing;
        answer = answer;
        requests = requests;
        requested = e1;
        current = current;
        of_storage = e2;
        larger = e3;
      }

  resize_Grown :
      (existing : Json)
      → ReadAs existing
      → From Same
          (resize_pvc world namespace name storage expand_existing existing)
          (λ _. Grown)
          Grown
  unfolding resize_pvc
  resize_Grown existing answer =
      lift_then (attributes existing ("spec" ∷ "resources" ∷ "requests" ∷ [])) _ (λ h p. inl p)
        λ requests e1.
          lift_then (get_or requests "storage" null) _ (λ h p. inl p)
            λ current e2. branch_From (is_null current) _ _ (keeps_Grown _) (
              lift_then (world.compare_quantities (str storage) current) _ (λ h p. inl p)
                λ order e3. resize_to-Grown existing requests current answer e1 e2 order e3)

  -- What the read has found.
  abbrev Found : Option Json → History → Type 0
  Found none h = Grown h
  Found (some existing) h = Same h × ReadAs existing

  read_Found :
      (body : Json)
      → From
          (λ h. h ≡ [])
          (read_or_create world "namespaced_persistent_volume_claim"
            (str name)
            (str namespace)
            body)
          Found
          Grown
  unfolding read_or_create
  read_Found body =
      attempt_From {R = Grown} _ _
        (bind_From {R = λ existing h. Same h × ReadAs existing}
          (ask world "read_namespaced_persistent_volume_claim" (str name ∷ str namespace ∷ [])) _
          (call_From _ _ (λ h p. inl (rw p refl))
            λ h p a e. (
              rw p refl,
              subst
                  (λ h.
                    world.answer h "read_namespaced_persistent_volume_claim"
                      (str name ∷ str namespace ∷ [])
                    ≡ ok a)
                  p e,
            ))
          λ existing. record { runs = λ h p. p })
        (if_missing_From (λ h p. p) _
          (bind_From
            (ask world "create_namespaced_persistent_volume_claim" (str namespace ∷ body ∷ [])) _
            (asks_Grown _ _ refl) λ created. record { runs = λ h p. p }))

  resize_found-Grown :
      (pvc : Json) (found : Option Json)
      → From
          (Found found)
          (resize_found world namespace name storage expand_existing pvc found)
          (λ _. Grown)
          Grown
  unfolding resize_found
  resize_found-Grown pvc none = record { runs = λ h p. p }
  resize_found-Grown pvc (some existing) =
      attempt_From {R = Grown} _ _ (record { runs = λ h p. (resize_Grown existing p.1).runs h p.0 })
        (if_missing_From (λ h p. p) _
          (bind_From
            (ask world "create_namespaced_persistent_volume_claim" (str namespace ∷ pvc ∷ [])) _
            (asks_Grown _ _ refl) λ created. record { runs = λ h p. p }))

  -- However a run of `apply_pvc` ends and whatever the cluster answers, it changes the claim only if the
  -- expansion is asked for and the size is more than the one of the claim that it has read.
  pub apply_pvc-Larger :
      any is_resize ((apply_pvc world namespace name storage expand_existing []).1) ≡ false ⊎ Larger
  unfolding apply_pvc
  apply_pvc-Larger =
      kept_at_end Grown (apply_pvc world namespace name storage expand_existing [])
        ((bind_From {R = Found} _ _ (read_Found _) (resize_found-Grown _)).runs [] refl)
