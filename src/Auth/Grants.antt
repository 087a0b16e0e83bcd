-- ===== src/Auth/Grants.antt =====
-- internal/auth/auth.go: who is let through.
use ghostd.Prelude.{
  String, ◌==◌, ◌≡◌, refl, Bool, true, false, ◌||◌, ◌&&◌, not, Option, none, some, List, [], ◌∷◌,
  ◌⊎◌, inl, inr, ◌↔◌, ◌≢◌, contains, arith, eq_iff, Any, contains-Any, Any-contains, Bool-cases,
}
use ghostd.Env.{Env, Caller}
use ghostd.Effect.{
  Host, M, Outcome, done, failed, crashed, plain, ◌>>=◌, ◌>>◌, pure, or_fail, require, advance,
}
use ghostd.Effect.Triple.{After, Triple}
use ghostd.Auth.{
  Authenticator, Identity, granted, identity_of, resolved, may_deploy, whois, identify,
  authorize_deployer, authorize_reporter, may_report, with_deployer_users,
}

-- Some document of a capability parses and grants.
granted-Any :
    {A : Type 0} (flag : A → Option Bool) (raws : List A)
    → granted flag raws ≡ true
    → Any (λ raw. flag raw ≡ some true) raws
unfolding granted
granted-Any flag [] h = cc
granted-Any flag (raw ∷ raws) h = ground (arith, granted-Any flag raws)

Any-granted :
    {A : Type 0} (flag : A → Option Bool) (raws : List A)
    → Any (λ raw. flag raw ≡ some true) raws
    → granted flag raws ≡ true
unfolding granted
Any-granted flag [] h = elim h [ ]
Any-granted flag (raw ∷ raws) h = ground (arith, Any-granted flag raws)

module _ (e : Env) (a : Authenticator) where
  -- The three ways to be let through.
  pub data MayDeploy (c : Caller e.Blob) : Type 0 where
    by_capability :
        Any (λ raw. e.deploy_flag raw ≡ some true) (c.capabilities "ghostd.local/cap/deploy")
        → MayDeploy c
    by_tag : Any (λ tag. tag ≡ a.deployer_tag) c.tags → MayDeploy c
    by_login : Any (λ login. login ≡ c.login) a.deployer_users → MayDeploy c

  MayDeploy-may_deploy : (c : Caller e.Blob) → MayDeploy c → may_deploy a (identity_of e c) ≡ true
  unfolding may_deploy identity_of
  MayDeploy-may_deploy c (by_capability h) =
      ground (arith, Any-granted e.deploy_flag (c.capabilities "ghostd.local/cap/deploy") h)
  MayDeploy-may_deploy c (by_tag h) = ground (arith, Any-contains c.tags a.deployer_tag h)
  MayDeploy-may_deploy c (by_login h) = ground (arith, Any-contains a.deployer_users c.login h)

  may_deploy_cases :
      (x y z : Bool) → (x || (y || z)) ≡ true → (x ≡ true) ⊎ ((y ≡ true) ⊎ (z ≡ true))
  may_deploy_cases x y z h = ground arith

  may_deploy-MayDeploy : (c : Caller e.Blob) → may_deploy a (identity_of e c) ≡ true → MayDeploy c
  unfolding may_deploy identity_of
  may_deploy-MayDeploy c h = elim (may_deploy_cases _ _ _ h) [
    | inl q ↦ by_capability (granted-Any _ _ q)
    | inr (inl q) ↦ by_tag (contains-Any _ _ q)
    | inr (inr q) ↦ by_login (contains-Any _ _ q)
  ]

  -- Who may report: a node with a stable id and a granting document, or the deployer tag.
  pub record MayReport (c : Caller e.Blob) : Type 0 where
    pub node : c.node_id ≢ ""
    pub grant :
        Any (λ raw. e.report_flag raw ≡ some true) (c.capabilities "ghostd.local/cap/report")
        ⊎ (Any (λ raw. e.deploy_flag raw ≡ some true) (c.capabilities "ghostd.local/cap/deploy")
            ⊎ Any (λ tag. tag ≡ a.deployer_tag) c.tags)

  MayReport-may_report : (c : Caller e.Blob) → MayReport c → may_report a (identity_of e c) ≡ true
  unfolding may_report identity_of
  MayReport-may_report c m = elim m.grant [
    | inl q ↦ ground (arith, eq_iff c.node_id "", m.node, Any-granted _ _ q)
    | inr (inl q) ↦ ground (arith, eq_iff c.node_id "", m.node, Any-granted _ _ q)
    | inr (inr q) ↦
        ground (arith, eq_iff c.node_id "", m.node, Any-contains c.tags a.deployer_tag q)
  ]

  may_report_cases :
      (n x y z : Bool)
      → (not n && (x || (y || z))) ≡ true
      → (n ≡ false) × ((x ≡ true) ⊎ ((y ≡ true) ⊎ (z ≡ true)))
  may_report_cases n x y z h = (ground arith, ground arith)

  may_report-MayReport : (c : Caller e.Blob) → may_report a (identity_of e c) ≡ true → MayReport c
  unfolding may_report identity_of
  may_report-MayReport c h =
      let parts = may_report_cases (c.node_id == "") _ _ _ h in
      record {
        node = λ p. cc ((eq_iff c.node_id "").1 p, parts.0);
        grant = elim parts.1 [
          | inl q ↦ inl (granted-Any _ _ q)
          | inr (inl q) ↦ inr (inl (granted-Any _ _ q))
          | inr (inr q) ↦ inr (inr (contains-Any _ _ q))
        ];
      }

module _ (e : Env) (may : Identity → Bool) (May : Caller e.Blob → Type 0)
    (sound : (c : Caller e.Blob) → may (identity_of e c) ≡ true → May c)
    (complete : (c : Caller e.Blob) → May c → may (identity_of e c) ≡ true) where
  -- What follows the answer of the overlay.
  answered : Option (Option (Caller e.Blob)) → M e Identity
  unfolding or_fail require pure ◌>>=◌ resolved
  answered answer = do id ← or_fail plain (resolved e answer); require (may id) plain; pure id

  abbrev LetThrough : Option (Option (Caller e.Blob)) → Host e → Type 0
  LetThrough answer h =
      (((id : Identity) × ((answered answer h).0 ≡ done id))
        ↔ ((c : Caller e.Blob) × (answer ≡ some (some c)) × May c))
      × ((answered answer h).1 ≡ h)

  answered_lem : (answer : Option (Option (Caller e.Blob))) (h : Host e) → LetThrough answer h
  unfolding answered
  answered_lem none h = (((λ p. cc p.1), (λ p. cc p.1)), refl)
  answered_lem (some none) h = (((λ p. cc p.1), (λ p. cc p.1)), refl)
  answered_lem (some (some c)) h = elim (Bool-cases (may (identity_of e c))) [
    | inl granted ↦ (
      ((λ p. (c, refl, sound c granted)), (λ p. (identity_of e c, rw (granted, require) refl))),
      rw (granted, require) refl,
    )
    | inr refused ↦ (
      ((λ p. cc (rw (refused, require) at p.1)), (λ p. cc (refused, complete p.0 p.2, p.1))),
      rw (refused, require) refl,
    )
  ]

module _ (e : Env) (a : Authenticator) where
  -- AuthorizeDeployer lets a connection through exactly when the overlay names a caller for its
  -- address and that caller has a granting document of the deploy capability, the deployer tag, or
  -- a login that is listed; and it touches nothing on the host but the count of steps.
  pub authorize_deployer_iff :
      (addr : String) (h : Host e)
      → (((id : Identity) × ((authorize_deployer a addr h).0 ≡ done id))
          ↔ ((c : Caller e.Blob) × (e.whois h.step addr ≡ some (some c)) × MayDeploy e a c))
        × ((authorize_deployer a addr h).1 ≡ advance h)
  unfolding authorize_deployer identify whois answered ◌>>=◌
  authorize_deployer_iff addr h =
      answered_lem e (may_deploy a) (MayDeploy e a) (may_deploy-MayDeploy e a)
        (MayDeploy-may_deploy e a) (e.whois h.step addr) (advance h)

  -- AuthorizeReporter lets a connection through exactly when the overlay names a caller for its
  -- address, that caller has a stable node id, and it has a granting document of the report or of
  -- the deploy capability, or the deployer tag: a listed login is not enough. It touches nothing on
  -- the host but the count of steps.
  pub authorize_reporter_iff :
      (addr : String) (h : Host e)
      → (((id : Identity) × ((authorize_reporter a addr h).0 ≡ done id))
          ↔ ((c : Caller e.Blob) × (e.whois h.step addr ≡ some (some c)) × MayReport e a c))
        × ((authorize_reporter a addr h).1 ≡ advance h)
  unfolding authorize_reporter identify whois answered ◌>>=◌
  authorize_reporter_iff addr h =
      answered_lem e (may_report a) (MayReport e a) (may_report-MayReport e a)
        (MayReport-may_report e a) (e.whois h.step addr) (advance h)

-- The logins that deploy are those listed before and those listed now, but the empty one is never
-- added: a caller with no login is let through by no list.
pub contains-with_deployer_users :
    (logins : List String) (a : Authenticator) (login : String)
    → contains (with_deployer_users logins a).deployer_users login
      ≡ (contains a.deployer_users login || (not (login == "") && contains logins login))
unfolding with_deployer_users contains
contains-with_deployer_users [] a login = ground arith
contains-with_deployer_users (l ∷ ls) a login = ground (
  arith,
  eq_iff l "",
  eq_iff l login,
  eq_iff login "",
  contains-with_deployer_users ls a login,
  contains-with_deployer_users ls (record a { deployer_users = l ∷ a.deployer_users }) login,
)

module _ {e : Env} where
  After-same :
      {A : Type 0} (P : Host e → Type 0) (r : Outcome A × Host e)
      → P r.1
      → After (λ _. P) (λ _. P) r
  After-same P (done a, h) p = p
  After-same P (failed c, h) p = p
  After-same P (crashed, h) p = p

module _ {e : Env} {P : Host e → Type 0} where
  -- Being asked who one is changes nothing.
  pub Triple-authorize_deployer :
      ((h : Host e) → P h → P (advance h))
      → (a : Authenticator) (addr : String) → Triple P (authorize_deployer a addr) (λ _. P) (λ _. P)
  Triple-authorize_deployer timeless a addr = record {
    run = λ h p. After-same P _ (rw (authorize_deployer_iff e a addr h).1 (timeless h p));
  }
