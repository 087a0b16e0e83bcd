-- ===== src/Resolver/Policy.antt =====
-- internal/resolver/acl.go: what an identity may ask, and the policies that the listeners consult.
pub mod Covers
pub mod Admits
use ghostd.Ledger.Identifiers.{has_suffix}
use ghostd.Prelude.{
  ℕ, ◌+◌, String, ◌==◌, Bool, true, false, ◌&&◌, ◌||◌, not, Option, none, some, List, [], ◌∷◌,
  contains, lookup, insert, erase, length, joined, if◌then◌else◌, ltb, nat_eq,
}
use ghostd.Resolver.Acl.{DnsIdentity}
use ghostd.Resolver.Host.{Host}
use ghostd.Resolver.Labels.{trim_suffix, service_class}

-- Policy: `granted` holds each name's time of expiry. The mutex makes each method one step.
pub record Policy : Type 0 where
  pub id : DnsIdentity
  pub granted : List (String × ℕ)

-- dns.Question
pub record Question : Type 0 where
  pub name : String
  pub qtype : ℕ
  pub qclass : ℕ

-- (true, "") and (false, reason)
pub data Answer : Type 0 where
  allow : Answer
  deny : String → Answer

-- dns.ClassINET
abbrev pub class_inet : ℕ
class_inet = 1

-- newPolicy
unfoldable pub new_policy : DnsIdentity → Policy
new_policy id = record { id = id; granted = [] }

unfoldable pub matches_entry : String → String → Bool
unfolding has_suffix
matches_entry name allowed =
    (allowed == "*" && (not (has_suffix name ".local") && not (name == "local")))
    || (name == allowed || has_suffix name (joined "." allowed))

unfoldable pub matches_any : Host → String → List String → Bool
unfolding matches_entry trim_suffix
matches_any h name [] = false
matches_any h name (a ∷ entries) =
    matches_entry name (trim_suffix (h.to_lower a) ".") || matches_any h name entries

-- Policy.matchesName
unfoldable pub matches_name : Host → Policy → String → Bool
unfolding matches_any trim_suffix
matches_name h p name = matches_any h (trim_suffix (h.to_lower name) ".") p.id.allow_names

-- exp, ok := p.granted[name]; ok && p.now().Before(exp)
unfoldable pub in_force : ℕ → Option ℕ → Bool
in_force now none = false
in_force now (some expiry) = ltb now expiry

unfoldable pub decide_local : Host → Policy → ℕ → String → Option String → Answer
decide_local h p now name (some service) =
    if contains p.id.allow_services service
    then allow
    else deny (joined "service class " (joined service " not allowed"))
decide_local h p now name none =
    if matches_name h p name
    then allow
    else if in_force now (lookup name p.granted)
    then allow
    else deny "host not offered by any service this identity may browse"

-- Policy.Decide
unfoldable pub decide : Host → Policy → ℕ → Question → Answer
decide h p now q =
    let name = h.to_lower q.name in
    if not (nat_eq q.qclass class_inet)
    then deny "unsupported class"
    else if has_suffix name ".local."
    then decide_local h p now name (service_class h name)
    else if matches_name h p name
    then allow
    else deny "name not allowed"

-- for h, exp := range p.granted { if !now.Before(exp) { delete(p.granted, h) } }
unfoldable pub sweep : ℕ → List (String × ℕ) → List (String × ℕ)
sweep now [] = []
sweep now ((name, expiry) ∷ entries) =
    let rest = sweep now entries in if ltb now expiry then (name, expiry) ∷ rest else rest

-- 2 * time.Minute, in nanoseconds
abbrev pub grant_time : ℕ
grant_time = 120000000000

abbrev pub most_grants : ℕ
most_grants = 4096

-- Policy.GrantHost
unfoldable pub grant_host : Host → ℕ → String → Policy → Policy
unfolding sweep
grant_host h now host p =
    let kept = sweep now p.granted in
    if ltb (length kept) most_grants
    then record p { granted = insert (h.to_lower host) (now + grant_time) kept }
    else record p { granted = kept }

-- The pointer that the running plugins load: nil, or the table.
abbrev pub Policies : Type 0
Policies = Option (List (String × Policy))

unfoldable pub new_policies : List DnsIdentity → List (String × Policy) → List (String × Policy)
new_policies [] table = table
new_policies (id ∷ ids) table = new_policies ids (insert id.name (new_policy id) table)

-- setPolicies
unfoldable pub set_policies : List DnsIdentity → Policies
unfolding new_policies
set_policies ids = some (new_policies ids [])

-- policyFor
unfoldable pub policy_for : Policies → String → Option Policy
policy_for none name = none
policy_for (some table) name = lookup name table

-- identityOf, with "" for a context that carries no name
unfoldable pub policy_of : Policies → String → Option Policy
unfolding policy_for
policy_of ps name = if name == "" then none else policy_for ps name

-- How aclHandler.ServeDNS ends: REFUSED with no reply of its own, REFUSED with a reply, or with the
-- next handler under the name of the listener.
pub data Admission : Type 0 where
  refuses_silently : Admission
  refuses : Admission
  passes : String → Admission

unfoldable pub admit_question : Host → String → ℕ → Option Policy → List Question → Admission
admit_question h name now (some p) (q ∷ []) = elim (decide h p now q) [
  | allow ↦ passes name
  | deny _ ↦ refuses
]
admit_question h name now _ _ = refuses_silently

-- aclHandler.ServeDNS
unfoldable pub acl_serve : Host → Policies → String → ℕ → List Question → Admission
unfolding admit_question policy_for
acl_serve h ps name now questions = admit_question h name now (policy_for ps name) questions
