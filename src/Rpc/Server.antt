-- ===== src/Rpc/Server.antt =====
-- internal/rpc/server.go and features.go: the server, its requests and its tables of domains.
use ghostd.Prelude.{
  ℤ, String, ◌==◌, Bool, Option, none, some, List, ◌∷◌, map, if◌then◌else◌, lookup, ◌≡◌,
}
use ghostd.Env.{Env}
use ghostd.Effect.{M, unauthenticated, or_fail}
use ghostd.Auth.{Authenticator}

pub record ApplyRequest (e : Env) : Type 0 where
  pub domain : String
  pub desired_state_json : e.Blob
  pub dead_man_switch_seconds : ℤ

-- domainImpl: a domain of an optional feature. `apply` gets the address of the caller, which the
-- source reads from the context, and returns the lease.
pub record DomainImpl (e : Env) : Type 0 where
  pub config_key : String
  pub apply : String → ApplyRequest e → M e String
  pub restore : e.Blob → M e (Unit {0})

-- `extra_domains` is in the order of the sorted names.
pub record Server (e : Env) : Type 0 where
  pub observe_only : Bool
  pub authenticator : Authenticator
  pub extra_domains : List (String × DomainImpl e)

module _ {e : Env} where
  unfoldable pub extra_domain_names : Server e → List String
  extra_domain_names s = map (λ d. d.0) s.extra_domains

  -- The domains that Confirm searches, in order.
  unfoldable pub all_domains : Server e → List String
  unfolding extra_domain_names
  all_domains s = "firewall" ∷ "netconfig" ∷ extra_domain_names s

  unfoldable pub legacy_name : Server e → String → String
  legacy_name s domain = elim (lookup domain s.extra_domains) [
    | some d ↦ d.config_key
    | none ↦ if domain == "firewall" then "nft-ruleset.json" else "netconfig-state.json"
  ]

  -- peerAddr
  unfoldable pub peer_addr : Option String → M e String
  peer_addr peer = or_fail unauthenticated peer

  pub legacy-firewall :
      (s : Server e)
      → lookup "firewall" s.extra_domains ≡ none
      → legacy_name s "firewall" ≡ "nft-ruleset.json"
  unfolding legacy_name
  legacy-firewall s core = rw (core, legacy_name)

  pub legacy-netconfig :
      (s : Server e)
      → lookup "netconfig" s.extra_domains ≡ none
      → legacy_name s "netconfig" ≡ "netconfig-state.json"
  unfolding legacy_name
  legacy-netconfig s core = rw (core, legacy_name)
