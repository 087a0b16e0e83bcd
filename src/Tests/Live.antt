-- ===== src/Tests/Live.antt =====
-- The theorems on what goes through, on the small host.
use ghostd.Prelude.{refl, ◌≡◌, true, false, some, [], inl, inr, lookup}
use ghostd.Effect.{◌>>◌}
use ghostd.State.Domain.{save_domain, domain_state}
use ghostd.State.Records.{firewall_IsPlaced}
use ghostd.Effect.Triple.{After}
use ghostd.State.Live.{AllFine, save_domain-domain_state}
use ghostd.Auth.Grants.{by_tag}
use ghostd.Rpc.Cover.{Quiet}
use ghostd.Rpc.Apply.{apply}
use ghostd.Rpc.Apply.Firewall.{FirewallSnapshot}
use ghostd.Rpc.Apply.Whole.{Granted}
use ghostd.Rpc.Apply.Live.{Admitted, IsAcceptable, apply_firewall-Granted}
use ghostd.Rpc.Lease.Live.{InTime}
use ghostd.Rpc.Restoring.{Due, Undone}
use ghostd.Daemon.{run_revert}
use ghostd.Daemon.Live.{run_revert_completes}
use ghostd.Tests.World.{
  text, nothing, world, world-IsJson, world-IsRestoring, old-taken, old_rules, fresh, lease, leased,
  server, request, deployer,
}

world-AllFine : AllFine world
world-AllFine n = refl

world-InTime : InTime world
world-InTime n = refl

deployer-Admitted : Admitted world server.authenticator "10.0.0.1:4000"
deployer-Admitted n = (deployer, refl, by_tag (inr (inl refl)))

text-IsAcceptable : IsAcceptable world (text "old") (text "new")
text-IsAcceptable = record {
  desired = text "new";
  script = text "new";
  snapshot = old_rules;
  parses = refl;
  renders = refl;
  coexists = refl;
  owned = old-taken;
}

at_rest-Quiet : Quiet "firewall" "nft-ruleset.json" nothing (text "old") (fresh (text "old"))
at_rest-Quiet = record { record_is = refl; kernel = refl }

apply_firewall-Granted_example :
    After
      (Granted server
        (some "10.0.0.1:4000")
        (request "firewall")
        nothing
        (text "old")
        "firewall"
        "nft-ruleset.json"
        (FirewallSnapshot world (text "old")))
      (λ _ _. ⊥)
      (apply server (some "10.0.0.1:4000") (request "firewall") (fresh (text "old")))
unfolding lookup
apply_firewall-Granted_example =
    apply_firewall-Granted world-IsJson server "10.0.0.1:4000" (request "firewall") nothing
      (text "old") world-AllFine world-InTime refl refl refl deployer-Admitted refl
      text-IsAcceptable (fresh (text "old")) at_rest-Quiet

leased-Due : Due nothing (text "old") (lease true) leased
leased-Due = record { record_is = refl; snapshot = old-taken }

run_revert_completes_example :
    After (λ _. Undone nothing (text "old")) (λ _ _. ⊥) (run_revert [] "lease-1" "firewall" leased)
run_revert_completes_example =
    run_revert_completes world-AllFine world-IsJson world-IsRestoring [] nothing (text "old")
      (lease true) "lease-1" refl leased leased-Due

save_domain-domain_state_example :
    After
      (λ x _. x ≡ record { confirmed = text "old"; pending = some (lease false) })
      (λ _ _. ⊥)
      ((save_domain "firewall" (record { confirmed = text "old"; pending = some (lease false) })
          >> domain_state "firewall" "nft-ruleset.json")
        leased)
save_domain-domain_state_example =
    save_domain-domain_state world-IsJson (firewall_IsPlaced world)
      (record { confirmed = text "old"; pending = some (lease false) }) world-AllFine leased
