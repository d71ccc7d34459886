-- ===== src/Runner/Connectivity/Separate.antt =====
-- What accepted connectivity settings guarantee.
use secure_litellm_on_azure.Base.{
  String, ◌≡◌, refl, sym, ◌∙◌, ap, subst, Bool, true, false, not, ◌||◌, Option, none, some, [], ◌∷◌,
  str_eq, if◌then◌else◌, str_eq→eq, arith,
}
use secure_litellm_on_azure.Base.Text.{lower}
use secure_litellm_on_azure.Json.{Json, bool, str, obj, Fields, end, get}
use secure_litellm_on_azure.Fault.{
  Result, ok, err, type_error, require, get_or, index, bind_ok, require_ok, ok_injective, ◌>>◌,
}
use secure_litellm_on_azure.Gates.Policy.{deployment_mode}
use secure_litellm_on_azure.Params.Platform.{at}
use secure_litellm_on_azure.Runner.Vnet.{VnetId, vnet_id}
use secure_litellm_on_azure.Runner.Connectivity.{
  TextHash, Connected, known_switches, runner_identifier, runner_network, lower_of, network_name,
  target_network, switch, no_switch, connected, connectivity_settings,
}

-- The runner's network is one of the configured subscription and is not the target's, and DNS links of
-- the backup are managed only in a migration.
pub record Separate (config settings : Fields) : Type 0 where
  pub identifier : String
  pub identifier_of : get "runnerVirtualNetworkId" settings ≡ some (str identifier)
  pub runner : VnetId
  pub matched : vnet_id identifier ≡ some runner
  pub subscription : Json
  pub subscription_of : at (obj config) ("azure" ∷ "subscriptionId" ∷ []) ≡ ok subscription
  pub same_subscription : lower_of subscription ≡ ok (lower runner.subscription)
  pub target : String
  pub target_of : get "backupVirtualNetworkId" settings ≡ some (str target)
  pub separate : str_eq (lower identifier) (lower target) ≡ false
  pub mode : String
  pub mode_of : deployment_mode config ≡ ok mode
  pub dns : Bool
  pub dns_of : get "manageBlobDnsLink" settings ≡ some (bool dns)
  pub only_migration : (str_eq mode "migration" || not dns) ≡ true

runner_network-some : (s : String) {v : VnetId} → runner_network s ≡ ok v → vnet_id s ≡ some v
unfolding runner_network
runner_network-some s h = go (vnet_id s) refl h
  where
    go :
        (o : Option VnetId)
        → vnet_id s ≡ o
        → {v : VnetId}
        → elim o as (λ _. Result VnetId) [
          | none ↦
              (require false "runnerVirtualNetworkId must identify a VNet, not a subnet or VM"
                >> err type_error)
          | some v ↦ ok v
        ]
          ≡ ok v
        → vnet_id s ≡ some v
    go none e h = absurd (cc h)
    go (some v) e h = e ∙ ap some (ok_injective h)

off : {b : Bool} → not b ≡ true → b ≡ false
off h = ground arith

module _ (hash : TextHash) where
  -- If the connectivity settings are accepted, the runner's network ID matches the pattern in the
  -- configured subscription and differs from the target's, without regard to case, and the DNS links
  -- of the backup are managed only in a migration.
  pub connectivity_settings-Separate :
      (config : Fields) {settings : Fields}
      → connectivity_settings hash config ≡ ok settings
      → Separate config settings
  unfolding connectivity_settings connected get
  connectivity_settings-Separate config h = bind_ok (connected config) _ h λ c e h1.
      bind_ok (index (obj config) "parameters") _ e λ sections e1 g1.
        bind_ok (get_or sections "runner-connectivity" (obj end)) _ g1 λ section e2 g2.
          bind_ok (known_switches section) _ g2 λ settings e3 g3.
            bind_ok (get_or (obj settings) "runnerVirtualNetworkId" (str "")) _ g3
              λ identifier_value e4 g4.
                bind_ok (runner_identifier identifier_value) _ g4 λ identifier e5 g5.
                  bind_ok (runner_network identifier) _ g5 λ runner e6 g6.
                    bind_ok (at (obj config) ("azure" ∷ "subscriptionId" ∷ [])) _ g6
                      λ subscription_value e7 g7.
                        bind_ok (lower_of subscription_value) _ g7 λ subscription e8 g8.
                          require_ok (str_eq (lower runner.subscription) subscription) _ _ g8
                            λ same g9. bind_ok (deployment_mode config) _ g9 λ mode e10 g10.
                              bind_ok
                                (get_or sections
                                  (if str_eq mode "migration" then "backup" else "network")
                                  (obj end))
                                _ g10
                                λ foundation e11 g11.
                                  bind_ok (get_or foundation "virtualNetworkName" (str "")) _ g11
                                    λ name_value e12 g12.
                                      bind_ok (network_name name_value) _ g12 λ name e13 g13.
                                        bind_ok (target_network config name) _ g13 λ target e14 g14.
                                          require_ok
                                            (not (str_eq (lower identifier) (lower target))) _ _ g14
                                            λ differ g15.
                                              bind_ok
                                                (get_or (obj settings) "managePeering" (bool true))
                                                _ g15
                                                λ peering_value e16 g16.
                                                  bind_ok
                                                    (get_or (obj settings) "manageBlobDnsLink"
                                                      (bool true))
                                                    _ g16
                                                    λ dns_value e17 g17.
                                                      bind_ok (switch no_switch peering_value) _ g17
                                                        λ peering e18 g18.
                                                          bind_ok (switch no_switch dns_value) _ g18
                                                            λ dns e19 g19.
                                                            require_ok
                                                            (str_eq mode "migration" || not dns) _ _
                                                            g19
                                                            λ allowed g20.
                                                            subst (Separate config)
                                                            (ok_injective h1)
                                                            (record {
                                                            identifier = c.identifier;
                                                            identifier_of = refl;
                                                            runner = runner;
                                                            matched =
                                                            subst
                                                            (λ (c : Connected).
                                                            vnet_id c.identifier ≡ some runner)
                                                            (ok_injective g20)
                                                            (runner_network-some identifier e6);
                                                            subscription = subscription_value;
                                                            subscription_of = e7;
                                                            same_subscription =
                                                            e8
                                                            ∙ ap ok (
                                                            sym (
                                                            str_eq→eq (lower runner.subscription)
                                                            subscription same));
                                                            target = c.target;
                                                            target_of = refl;
                                                            separate =
                                                            subst
                                                            (λ (c : Connected).
                                                            str_eq (lower c.identifier)
                                                            (lower c.target)
                                                            ≡ false)
                                                            (ok_injective g20) (off differ);
                                                            mode = mode;
                                                            mode_of = e10;
                                                            dns = c.dns;
                                                            dns_of = refl;
                                                            only_migration =
                                                            subst
                                                            (λ (c : Connected).
                                                            (str_eq mode "migration" || not c.dns)
                                                            ≡ true)
                                                            (ok_injective g20) allowed;
                                                            })
