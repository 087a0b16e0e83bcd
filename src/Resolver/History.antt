-- ===== src/Resolver/History.antt =====
-- internal/resolver: what the listeners and the policies go through. A request is checked by
-- ghostacl, and reaches ghostlocal later: other requests, and a change of the policies, may come in
-- between.
pub mod Entries
pub mod Tables
pub mod Offers
pub mod Origin
pub mod Traced
pub mod Bound
pub mod Opened
use ghostd.Prelude.{
  ℕ, zero, suc, String, ◌==◌, ◌≡◌, Bool, true, false, ◌⊎◌, Option, none, some, List, [], ◌∷◌,
  if◌then◌else◌,
}
use ghostd.Resolver.Acl.{DnsIdentity}
use ghostd.Resolver.Host.{Host}
use ghostd.Resolver.Local.{Ending, LocalHandler, local_serve}
use ghostd.Resolver.Policy.{
  Policies, Question, Admission, passes, refuses, refuses_silently, acl_serve, set_policies,
}

-- A request that ghostacl has passed on, under the name of its listener.
pub record Request : Type 0 where
  pub listener : String
  pub question : Question

pub record System : Type 0 where
  pub policies : Policies
  pub passed : List Request

module _ (h : Host) where
  pub data ResolverEvent : Type 0 where
    -- setPolicies and clearPolicies
    replace : List DnsIdentity → ResolverEvent
    clear : ResolverEvent
    -- the listener of a name receives questions
    ask : String → ℕ → List Question → ResolverEvent
    -- the base listener, which has no ghostacl and gives its requests no name
    ask_base : List Question → ResolverEvent
    -- one of the requests that were passed on, counted from the last, reaches ghostlocal
    answer : LocalHandler h → Bool → (ℕ → ℕ) → ℕ → ResolverEvent

  unfoldable pub enter : Admission → List Question → List Request → List Request
  enter (passes name) (q ∷ []) requests = record { listener = name; question = q } ∷ requests
  enter _ _ requests = requests

  unfoldable pub nth : List Request → ℕ → Option Request
  nth [] n = none
  nth (r ∷ rs) zero = some r
  nth (r ∷ rs) (suc n) = nth rs n

  unfoldable pub policies_after :
      LocalHandler h → Bool → (ℕ → ℕ) → Policies → Option Request → Policies
  policies_after handler free clock ps none = ps
  policies_after handler free clock ps (some r) =
      (local_serve h handler free clock ps r.listener (r.question ∷ [])).1

  unfoldable pub step : ResolverEvent → System → System
  unfolding enter nth policies_after
  step (replace ids) s = record s { policies = set_policies ids }
  step clear s = record s { policies = none }
  step (ask name now questions) s = record s {
    passed = enter (acl_serve h s.policies name now questions) questions s.passed;
  }
  step (ask_base questions) s = record s { passed = enter (passes "") questions s.passed }
  step (answer handler free clock n) s = record s {
    policies = policies_after handler free clock s.policies (nth s.passed n);
  }

  -- The state after a history, whose first event is the last that happened.
  unfoldable pub after : List ResolverEvent → System
  after [] = record { policies = none; passed = [] }
  after (e ∷ es) = step e (after es)
