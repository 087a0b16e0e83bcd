-- ===== src/Rpc/Apply.antt =====
-- internal/rpc/server.go: Apply, applyFirewall and applyNetconfig.
pub mod Safety
pub mod Firewall
pub mod Whole
pub mod Live
use ghostd.Prelude.{
  String, ◌==◌, Bool, ◌||◌, not, Option, none, some, if◌then◌else◌, is_positive, lookup,
}
use ghostd.Env.{Env}
use ghostd.Nft.Owned.{nft_owned}
use ghostd.Effect.{
  Host, M, ◌>>=◌, ◌>>◌, pure, raise, recode, require, or_fail, invalid_argument, internal,
  failed_precondition, permission_denied,
}
use ghostd.State.Domain.{lock}
use ghostd.Auth.{authorize_deployer}
use ghostd.Rpc.Server.{Server, ApplyRequest, DomainImpl, peer_addr}
use ghostd.Rpc.Executors.{validate_syntax, read_ruleset, commit, net_snapshot, net_apply}
use ghostd.Rpc.Lease.{recover_expired, begin, finish_apply}

module _ {e : Env} where
  -- OwnedRuleset of the live ruleset, after the coexistence test of a redirect-only policy.
  firewall_snapshot : e.Firewall → M e e.Blob
  firewall_snapshot desired = do
    raw ← recode internal read_ruleset
    require (not (e.nft_redirect_only desired) || e.nft_coexists raw) failed_precondition
    or_fail internal (nft_owned e raw)

  unfoldable pub apply_firewall : Server e → String → ApplyRequest e → M e String
  unfolding firewall_snapshot
  apply_firewall s addr req = do
    desired ← or_fail invalid_argument (e.nft_parse req.desired_state_json)
    script ← or_fail invalid_argument (e.nft_render desired)
    recode invalid_argument (validate_syntax script)
    recover_expired s "firewall"
    snapshot ← firewall_snapshot desired
    id ← begin s addr req snapshot
    recode internal (commit script)
    finish_apply s req.domain id

  unfoldable pub apply_netconfig : Server e → String → ApplyRequest e → M e String
  apply_netconfig s addr req = do
    desired ← or_fail invalid_argument (e.net_parse req.desired_state_json)
    require (e.net_validate desired) invalid_argument
    recover_expired s "netconfig"
    snapshot ← recode internal (net_snapshot desired)
    id ← begin s addr req snapshot
    recode internal (net_apply desired)
    finish_apply s req.domain id

  -- The versioned firewall requests are requests of the firewall domain.
  unfoldable pub dispatch : Server e → String → ApplyRequest e → M e String
  dispatch s addr req =
      if req.domain == "firewall-output-v1" || req.domain == "firewall-redirect-v1"
      then apply_firewall s addr (record req { domain = "firewall" })
      else if req.domain == "firewall"
      then apply_firewall s addr req
      else if req.domain == "netconfig"
      then apply_netconfig s addr req
      else elim (lookup req.domain s.extra_domains) [
        | some d ↦ d.apply addr req
        | none ↦ raise invalid_argument
      ]

  -- Server.Apply
  unfoldable pub apply : Server e → Option String → ApplyRequest e → M e String
  apply s peer req = do
    require (not s.observe_only) failed_precondition
    addr ← peer_addr peer
    id ← recode permission_denied (authorize_deployer s.authenticator addr)
    require (is_positive req.dead_man_switch_seconds) invalid_argument
    recode internal lock
    dispatch s addr req
