-- ===== src/Daemon.antt =====
-- cmd/ghostd/main.go and feature.go: boot restore, the revert command of a timer, and observation
-- mode. Each stands under the store lock.
pub mod Revert
pub mod Late
pub mod Live
use ghostd.Prelude.{
  String, ◌==◌, Bool, true, false, ◌||◌, ◌&&◌, not, Option, none, some, List, [], ◌∷◌, ◌++◌, map,
  if◌then◌else◌, is_none, lookup,
}
use ghostd.Env.{Env, DomainState, Pending}
use ghostd.Effect.{Host, M, ◌>>=◌, ◌>>◌, pure, raise, require, or_fail, plain}
use ghostd.State.Domain.{lock, domain_state, save_domain}
use ghostd.Rpc.Executors.{nft_restore, net_rollback, net_restore}

-- domainHook: how to restore the domain of an optional feature with no server running.
pub record DomainHook (e : Env) : Type 0 where
  pub key : String
  pub restore : e.Blob → M e (Unit {0})

abbrev pub Hooks : Env → Type 0
Hooks e = List (String × DomainHook e)

module _ {e : Env} where
  -- The legacy name of a domain; an unknown domain has none.
  unfoldable pub domain_key : Hooks e → String → Option String
  domain_key hooks domain =
      if domain == "firewall"
      then some "nft-ruleset.json"
      else if domain == "netconfig"
      then some "netconfig-state.json"
      else elim (lookup domain hooks) [ none ↦ none | some hook ↦ some hook.key ]

  -- Without `rollback` a confirmed blob is replayed; with it a snapshot is.
  unfoldable pub restore : Hooks e → String → Bool → e.Blob → M e (Unit {0})
  restore hooks domain rollback snapshot =
      if domain == "firewall" then nft_restore snapshot else elim (lookup domain hooks) [
        | some hook ↦ hook.restore snapshot
        | none ↦ if rollback then net_rollback snapshot else net_restore snapshot
      ]

  revert_pending : Hooks e → String → DomainState e.Blob → Pending e.Blob → M e (Unit {0})
  revert_pending hooks domain d p = do
    restore hooks domain true p.snapshot
    save_domain domain (record d { pending = none })

  replay : Hooks e → String → String → DomainState e.Blob → M e (Unit {0})
  replay hooks domain lease_id d =
      if lease_id == "" then restore hooks domain false d.confirmed else pure tt

  -- recoverDomain: an empty lease id means boot.
  unfoldable pub recover_domain : Hooks e → String → String → M e (Unit {0})
  unfolding revert_pending replay
  recover_domain hooks domain lease_id = do
    key ← or_fail plain (domain_key hooks domain)
    d ← domain_state domain key
    elim d.pending [
      | none ↦ replay hooks domain lease_id d
      | some p ↦
          if lease_id == "" || p.id == lease_id
          then revert_pending hooks domain d p
          else replay hooks domain lease_id d
    ]

  unfoldable pub run_revert : Hooks e → String → String → M e (Unit {0})
  run_revert hooks lease_id domain = do lock; recover_domain hooks domain lease_id

  -- The key that observation mode reads; an unknown domain falls through to the firewall's.
  observed_key : Hooks e → String → String
  observed_key hooks domain =
      if domain == "netconfig"
      then "netconfig-state.json"
      else elim (lookup domain hooks) [ none ↦ "nft-ruleset.json" | some hook ↦ hook.key ]

  unfoldable pub prepare_domain : Hooks e → String → Bool → M e (Unit {0})
  unfolding observed_key
  prepare_domain hooks domain observe_only =
      if not observe_only then recover_domain hooks domain "" else do
        d ← domain_state domain (observed_key hooks domain)
        require (is_none d.pending && e.is_empty d.confirmed) plain

  prepare_all : Hooks e → Bool → List String → M e (Unit {0})
  prepare_all hooks observe_only [] = pure tt
  prepare_all hooks observe_only (domain ∷ domains) = do
    prepare_domain hooks domain observe_only
    prepare_all hooks observe_only domains

  -- The start of runDaemonWith: every domain is prepared before anything is served.
  unfoldable pub boot : Hooks e → Bool → M e (Unit {0})
  unfolding prepare_all
  boot hooks observe_only = do
    lock
    prepare_all hooks observe_only ("firewall" ∷ "netconfig" ∷ map (λ h. h.0) hooks)
