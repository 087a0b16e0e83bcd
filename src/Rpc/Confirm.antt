-- ===== src/Rpc/Confirm.antt =====
-- internal/rpc/server.go: Confirm.
pub mod Candidate
pub mod Sound
use ghostd.Prelude.{
  ℕ, String, ◌==◌, Bool, true, false, ◌||◌, not, Option, none, some, List, [], ◌∷◌, if◌then◌else◌,
  ltb,
}
use ghostd.Env.{Env, DomainState, Pending}
use ghostd.Nft.Owned.{nft_owned}
use ghostd.Effect.{
  Host, M, ◌>>=◌, ◌>>◌, pure, raise, recode, require, ignore, or_fail, invalid_argument, internal,
  failed_precondition, permission_denied, now, ctx_err,
}
use ghostd.State.Domain.{lock, domain_state, save_domain}
use ghostd.State.Leases.{cancel}
use ghostd.Auth.{authorize_deployer}
use ghostd.Rpc.Server.{Server, all_domains, legacy_name, peer_addr}
use ghostd.Rpc.Executors.{read_ruleset}

module _ {e : Env} where
  -- The firewall confirms what is live, the other domains what was asked for.
  unfoldable pub confirmed_blob : String → Pending e.Blob → M e e.Blob
  confirmed_blob domain p =
      if domain == "firewall"
      then (do raw ← recode internal read_ruleset; or_fail internal (nft_owned e raw))
      else pure p.target

  unfoldable pub confirm_pending :
      String → String → String → DomainState e.Blob → Pending e.Blob → M e (Unit {0})
  unfolding confirmed_blob
  confirm_pending addr lease_id domain d p = do
    time ← now
    require (ltb time p.deadline) failed_precondition
    require (not (p.peer == addr)) failed_precondition
    require p.applied failed_precondition
    confirmed ← confirmed_blob domain p
    later ← now
    over ← ctx_err
    require (ltb later p.deadline) failed_precondition
    require (not over) failed_precondition
    recode internal (save_domain domain (record d { confirmed = confirmed; pending = none }))
    ignore (cancel lease_id)

  -- The domains in order; the first whose pending lease has the id decides.
  unfoldable pub confirm_first : Server e → String → String → List String → M e (Unit {0})
  confirm_first s addr lease_id [] = raise failed_precondition
  confirm_first s addr lease_id (domain ∷ domains) = do
    d ← recode internal (domain_state domain (legacy_name s domain))
    let rest = confirm_first s addr lease_id domains
    elim d.pending [
      | none ↦ rest
      | some p ↦ if p.id == lease_id then confirm_pending addr lease_id domain d p else rest
    ]

  -- Server.Confirm
  unfoldable pub confirm : Server e → Option String → String → M e (Unit {0})
  confirm s peer lease_id = do
    require (not s.observe_only) failed_precondition
    addr ← peer_addr peer
    id ← recode permission_denied (authorize_deployer s.authenticator addr)
    require (not (lease_id == "")) invalid_argument
    recode internal lock
    confirm_first s addr lease_id (all_domains s)
