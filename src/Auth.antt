-- ===== src/Auth.antt =====
-- internal/auth/auth.go: who a caller is, and what it may do.
use ghostd.Prelude.{
  String, ◌==◌, Bool, true, false, ◌&&◌, ◌||◌, not, Option, none, some, List, [], ◌∷◌,
  if◌then◌else◌, contains, or_else,
}
use ghostd.Env.{Env, Caller}
use ghostd.Effect.{Host, M, done, ◌>>=◌, ◌>>◌, pure, or_fail, require, plain, advance}
pub mod Grants

pub record Identity : Type 0 where
  pub login : String
  pub tags : List String
  pub can_deploy : Bool
  pub can_report : Bool
  pub node_id : String
  pub dns_name : String
  pub addresses : List String

unfoldable pub has_tag : Identity → String → Bool
has_tag id tag = contains id.tags tag

pub record Authenticator : Type 0 where
  pub deployer_tag : String
  pub deployer_users : List String

-- WithDeployerUsers: empty logins are dropped.
unfoldable pub with_deployer_users : List String → Authenticator → Authenticator
with_deployer_users [] a = a
with_deployer_users (l ∷ ls) a =
    with_deployer_users ls
      (if l == "" then a else record a { deployer_users = l ∷ a.deployer_users })

-- A capability grants what any one of its documents grants; one that does not parse grants nothing.
module _ {A : Type 0} where
  unfoldable pub granted : (A → Option Bool) → List A → Bool
  granted flag [] = false
  granted flag (raw ∷ rest) = or_else false (flag raw) || granted flag rest

module _ (e : Env) where
  unfoldable pub identity_of : Caller e.Blob → Identity
  identity_of c = record {
    login = c.login;
    tags = c.tags;
    can_deploy = granted e.deploy_flag (c.capabilities "ghostd.local/cap/deploy");
    can_report = granted e.report_flag (c.capabilities "ghostd.local/cap/report");
    node_id = c.node_id;
    dns_name = c.dns_name;
    addresses = c.addresses;
  }

  -- An error of the overlay and an answer with no node are one error, ErrNotOnOverlay.
  unfoldable pub resolved : Option (Option (Caller e.Blob)) → Option Identity
  unfolding identity_of
  resolved none = none
  resolved (some none) = none
  resolved (some (some c)) = some (identity_of c)

unfoldable pub may_deploy : Authenticator → Identity → Bool
unfolding has_tag
may_deploy a id = id.can_deploy || (has_tag id a.deployer_tag || contains a.deployer_users id.login)

unfoldable pub may_report : Authenticator → Identity → Bool
unfolding has_tag
may_report a id =
    not (id.node_id == "") && (id.can_report || (id.can_deploy || has_tag id a.deployer_tag))

module _ {e : Env} where
  unfoldable pub whois : String → M e (Option (Option (Caller e.Blob)))
  whois addr h = (done (e.whois h.step addr), advance h)

  -- Authenticator.Identify
  unfoldable pub identify : String → M e Identity
  unfolding whois
  identify addr = do answer ← whois addr; or_fail plain (resolved e answer)

  -- Authenticator.AuthorizeReporter
  unfoldable pub authorize_reporter : Authenticator → String → M e Identity
  authorize_reporter a addr = do id ← identify addr; require (may_report a id) plain; pure id

  -- Authenticator.AuthorizeDeployer
  unfoldable pub authorize_deployer : Authenticator → String → M e Identity
  authorize_deployer a addr = do id ← identify addr; require (may_deploy a id) plain; pure id
