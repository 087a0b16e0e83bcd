-- ===== src/Tests/Leases.antt =====
-- The lease theorems on the small host.
use ghostd.Prelude.{
  ◌≡◌, refl, true, some, [], ◌∷◌, ◌⊎◌, All, ◌↔◌, contains, ◌||◌, not, ◌&&◌, ◌==◌, String, lookup,
}
use ghostd.Effect.{done, advance}
use ghostd.Effect.Same.{Same}
use ghostd.Effect.Triple.{After}
use ghostd.State.Files.{save}
use ghostd.State.Atomic.{Written, AllOrNothing, save_atomic}
use ghostd.State.Records.{IsPlaced, firewall_IsPlaced, netconfig_IsPlaced}
use ghostd.Auth.{authorize_reporter, authorize_deployer, Identity, with_deployer_users}
use ghostd.Auth.Grants.{
  authorize_deployer_iff, authorize_reporter_iff, MayReport, MayDeploy,
  contains-with_deployer_users,
}
use ghostd.Rpc.Server.{legacy_name, all_domains}
use ghostd.Rpc.Cover.{Quiet}
use ghostd.Rpc.Apply.{apply}
use ghostd.Rpc.Apply.Firewall.{FirewallSnapshot, NetconfigSnapshot}
use ghostd.Rpc.Apply.Whole.{Granted, Ended, apply_firewall-Covered, apply_netconfig-Covered}
use ghostd.Rpc.Confirm.{confirm}
use ghostd.Rpc.Confirm.Candidate.{Confirmed, Untouched}
use ghostd.Rpc.Confirm.Sound.{confirm_sound}
use ghostd.Rpc.Lease.{recover_expired}
use ghostd.Rpc.Expiry.{HasExpired, recover_expired-Undone}
use ghostd.Rpc.Restoring.{Due, Undone, DueOrUndone}
use ghostd.Daemon.{domain_key, run_revert}
use ghostd.Daemon.Revert.{run_revert-Undone}
use ghostd.Daemon.Late.{late_revert}
use ghostd.Tests.World.{
  text, nothing, world, world-IsJson, world-IsRestoring, old-taken, fresh, lease, leased, overdue,
  server, request,
}

save_atomic_example :
    After
      (λ _. Written "a" (text "x") (fresh nothing))
      (λ _. AllOrNothing "a" (text "x") (fresh nothing))
      (save "a" (text "x") (fresh nothing))
save_atomic_example = save_atomic "a" (text "x") (fresh nothing)

authorize_deployer_iff_example :
    (((id : Identity) × ((authorize_deployer server.authenticator "10.0.0.1:4000" (fresh nothing)).0
          ≡ done id))
      ↔ ((c : _) × (world.whois 0 "10.0.0.1:4000" ≡ some (some c))
          × MayDeploy world server.authenticator c))
    × ((authorize_deployer server.authenticator "10.0.0.1:4000" (fresh nothing)).1
        ≡ advance (fresh nothing))
authorize_deployer_iff_example =
    authorize_deployer_iff world server.authenticator "10.0.0.1:4000" (fresh nothing)

contains-with_deployer_users_example :
    contains (with_deployer_users ("" ∷ "ana" ∷ []) server.authenticator).deployer_users "ana" ≡ (
      contains server.authenticator.deployer_users "ana"
      || (not ("ana" == "") && contains ("" ∷ "ana" ∷ []) "ana"))
contains-with_deployer_users_example =
    contains-with_deployer_users ("" ∷ "ana" ∷ []) server.authenticator "ana"

fresh_firewall-Quiet : Quiet "firewall" "nft-ruleset.json" nothing (text "old") (fresh (text "old"))
fresh_firewall-Quiet = record { record_is = refl; kernel = refl }

fresh_netconfig-Quiet :
    Quiet "netconfig" "netconfig-state.json" nothing (text "old") (fresh (text "old"))
fresh_netconfig-Quiet = record { record_is = refl; kernel = refl }

apply_firewall-Covered_example :
    After
      (Granted server
        (some "10.0.0.1:4000")
        (request "firewall-output-v1")
        nothing
        (text "old")
        "firewall"
        "nft-ruleset.json"
        (FirewallSnapshot world (text "old")))
      (Ended server
        (some "10.0.0.1:4000")
        (request "firewall-output-v1")
        nothing
        (text "old")
        "firewall"
        "nft-ruleset.json"
        (FirewallSnapshot world (text "old")))
      (apply server (some "10.0.0.1:4000") (request "firewall-output-v1") (fresh (text "old")))
unfolding lookup
apply_firewall-Covered_example =
    apply_firewall-Covered world-IsJson server (some "10.0.0.1:4000") (request "firewall-output-v1")
      nothing (text "old") refl refl (fresh (text "old")) fresh_firewall-Quiet

apply_netconfig-Covered_example :
    After
      (Granted server
        (some "10.0.0.1:4000")
        (request "netconfig")
        nothing
        (text "old")
        "netconfig"
        "netconfig-state.json"
        (NetconfigSnapshot world (text "new") (text "old")))
      (Ended server
        (some "10.0.0.1:4000")
        (request "netconfig")
        nothing
        (text "old")
        "netconfig"
        "netconfig-state.json"
        (NetconfigSnapshot world (text "new") (text "old")))
      (apply server (some "10.0.0.1:4000") (request "netconfig") (fresh (text "old")))
unfolding lookup
apply_netconfig-Covered_example =
    apply_netconfig-Covered world-IsJson server (some "10.0.0.1:4000") (request "netconfig") nothing
      (text "old") refl refl (fresh (text "old")) fresh_netconfig-Quiet

server-IsPlaced :
    All (λ domain. IsPlaced world domain (legacy_name server domain)) (all_domains server)
unfolding legacy_name all_domains lookup
server-IsPlaced = (firewall_IsPlaced world, (netconfig_IsPlaced world, tt))

confirm_sound_example :
    After
      (λ _ h'.
        (addr : String) × (some "10.0.0.1:4001" ≡ some addr)
        × Confirmed server addr "lease-1" leased h')
      (λ _ h'.
        Untouched server "lease-1" leased h'
        ⊎ ((addr : String) × (some "10.0.0.1:4001" ≡ some addr)
            × Confirmed server addr "lease-1" leased h'))
      (confirm server (some "10.0.0.1:4001") "lease-1" leased)
confirm_sound_example =
    confirm_sound world-IsJson server (some "10.0.0.1:4001") "lease-1" server-IsPlaced leased

leased-Due : Due nothing (text "old") (lease true) leased
leased-Due = record { record_is = refl; snapshot = old-taken }

overdue-Due : Due nothing (text "old") (lease true) overdue
overdue-Due = record { record_is = refl; snapshot = old-taken }

recover_expired-Undone_example :
    After
      (λ _ h'.
        HasExpired world-IsJson world-IsRestoring server nothing
          (text "old")
          (lease true)
          overdue
          h'
        × Undone nothing (text "old") h')
      (λ _. DueOrUndone nothing (text "old") (lease true))
      (recover_expired server "firewall" overdue)
unfolding lookup
recover_expired-Undone_example =
    recover_expired-Undone world-IsJson world-IsRestoring server nothing (text "old") (lease true)
      refl overdue overdue-Due

run_revert-Undone_example :
    After
      (λ _. Undone nothing (text "old"))
      (λ _. DueOrUndone nothing (text "old") (lease true))
      (run_revert [] "lease-1" "firewall" leased)
run_revert-Undone_example =
    run_revert-Undone world-IsJson world-IsRestoring [] nothing (text "old") (lease true) "lease-1"
      refl leased leased-Due

late_revert_example :
    After (λ _. Same leased) (λ _. Same leased) (run_revert [] "lease-0" "firewall" leased)
unfolding domain_key
late_revert_example =
    late_revert [] "firewall" "nft-ruleset.json" "lease-0"
      (record { confirmed = nothing; pending = some (lease true) }) leased refl refl refl refl

authorize_reporter_iff_example :
    (((id : Identity) × ((authorize_reporter server.authenticator "10.0.0.1:4000" (fresh nothing)).0
          ≡ done id))
      ↔ ((c : _) × (world.whois 0 "10.0.0.1:4000" ≡ some (some c))
          × MayReport world server.authenticator c))
    × ((authorize_reporter server.authenticator "10.0.0.1:4000" (fresh nothing)).1
        ≡ advance (fresh nothing))
authorize_reporter_iff_example =
    authorize_reporter_iff world server.authenticator "10.0.0.1:4000" (fresh nothing)
